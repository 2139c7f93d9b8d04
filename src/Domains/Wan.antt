-- ===== src/Domains/Wan.antt =====
-- api/domains/wan.py: the uplink that is shown, and the list of the uplinks.
pub mod Shown
use keenetic_router_pro.Prelude.{
  String, List, [], ◌∷◌, true, false, Option, some, none, Bool, any, map, mem, ◌||◌, if◌then◌else◌,
  ◌&&◌, first, ◌++◌, ◌==◌,
}
use keenetic_router_pro.Value.{
  Value, null, dict, list, str, bool, Items, nil, cons, Fields, end, field, get, or_else, truthy,
  Runtime,
}
use keenetic_router_pro.Text.{lower, join, includes}
use keenetic_router_pro.Utils.Coerce.{coerce_bool}
use keenetic_router_pro.Parsers.Helpers.{normalize_interfaces}
use keenetic_router_pro.Parsers.Wan.{
  extract_wan_ip, is_ranked_wan_interface, derive_wan_enabled, derive_wan_internet_access,
  text_value,
}
use keenetic_router_pro.Transport.Http.{Site, Client, Result, ok, err}
use keenetic_router_pro.Transport.Calls.{rci_get}
use keenetic_router_pro.Domains.{and_then}

-- `async_get_interfaces()`.
unfoldable pub get_interfaces : Site → Client → Result Value × Client
get_interfaces site c =
    and_then (rci_get site "show/interface" none c) (λ v c. (ok (or_else v (dict end)), c))

-- `_normalize_interfaces(await self.async_get_interfaces())`, unless the list is given.
abbrev pub interfaces_or {ℓ} :
    {A : Type ℓ} → Site → Option (List Fields) → (List Fields → A) → Client → Result A × Client
interfaces_or site (some iface_list) f c = (ok (f iface_list), c)
interfaces_or site none f c =
    and_then (get_interfaces site c) (λ v c. (ok (f (normalize_interfaces v)), c))

module _ (rt : Runtime) where
  -- `str(iface.get(key) or "").lower()`.
  abbrev pub lower_at : String → Fields → String
  lower_at key iface = lower (rt.print (or_else (get key iface) (str "")))

  abbrev some_text : Value → List String
  some_text v = if truthy v then rt.print v ∷ [] else []

  -- `" ".join(str(v) for v in name_fields if v).lower()`.
  abbrev pub name_joined : Fields → String
  name_joined iface = lower (
      join " " (
        some_text (get "name" iface)
        ++ (some_text (get "ifname" iface)
            ++ (some_text (get "id" iface)
                ++ (some_text (get "interface-name" iface)
                    ++ (some_text (get "description" iface) ++ some_text (get "type" iface)))))))

  abbrev is_role : String → Bool
  is_role token = mem token ("inet" ∷ "internet" ∷ "wan" ∷ [])

  unfoldable pub any_role : Items → Bool
  any_role nil = false
  any_role (cons item rest) = is_role (lower (rt.print item)) || any_role rest

  abbrev has_role : Value → Bool
  has_role (list items) = any_role items
  has_role role = is_role (lower (rt.print (or_else role (str ""))))

  -- `_is_wan_iface(iface)`.
  unfoldable pub is_wan_iface : Fields → Bool
  unfolding any_role
  is_wan_iface iface =
      lower_at "security-level" iface == "public"
      || has_role (get "role" iface)
      || any (λ k. includes k (name_joined iface)) ("wan" ∷ "internet" ∷ "isp" ∷ "broadband" ∷ [])

  abbrev pub is_up : Fields → Bool
  is_up iface = lower_at "state" iface == "up"

  abbrev pub status_of : Option String → Bool → String
  status_of wan_ip false = "down"
  status_of none true = "link_up"
  status_of (some ip) true = "connected"

  -- `_build_result(iface, wan_type)`.
  unfoldable pub build_result : Fields → String → Fields
  build_result iface wan_type =
      let wan_ip = extract_wan_ip rt iface true in
      field "status" (str (status_of wan_ip (is_up iface))) (
        field "ip" (text_value rt wan_ip) (
          field "interface" (or_else (get "id" iface) (get "interface-name" iface)) (
            field "uptime" (get "uptime" iface) (
              field "gateway"
                (or_else (get "gateway" iface)
                  (or_else (get "remote" iface) (get "default-gateway" iface)))
                (field "type" (str wan_type) (field "link" (str (lower_at "state" iface)) end))))))

  abbrev pub is_pppoe_up : Fields → Bool
  is_pppoe_up iface = lower_at "type" iface == "pppoe" && is_up iface

  abbrev pub is_wan_up : Fields → Bool
  is_wan_up iface = is_up iface && is_wan_iface iface

  abbrev pub no_wan : Fields
  no_wan = field "status" (str "down") (field "ip" null (field "link" (str "down") end))

  abbrev pub result_or : String → Option Fields → Fields → Fields
  result_or wan_type none later = later
  result_or wan_type (some iface) later = build_result iface wan_type

  -- The three passes over the interfaces.
  unfoldable pub wan_status : List Fields → Fields
  unfolding build_result is_wan_iface
  wan_status iface_list = result_or "pppoe" (first is_pppoe_up iface_list) (
      result_or "ethernet" (first is_wan_up iface_list)
        (result_or "ethernet" (first is_wan_iface iface_list) no_wan))

  unfoldable pub role_texts : Items → Items
  role_texts nil = nil
  role_texts (cons r rest) = cons (str (rt.print r)) (role_texts rest)

  abbrev role_list : Value → Items
  role_list (str s) = cons (str s) nil
  role_list (list rs) = role_texts rs
  role_list v = nil

  -- `iface_label(iface, iface_id)`.
  unfoldable pub iface_label : Fields → Value → String
  iface_label iface iface_id = rt.print (
      or_else (get "description" iface)
        (or_else (get "interface-name" iface) (or_else iface_id (get "id" iface))))

  abbrev layers : Value → Value
  layers (dict summary) = or_else (get "layer" summary) (dict end)
  layers v = dict end

  -- The record of an uplink.
  unfoldable pub wan_of : Fields → Value → Fields
  unfolding iface_label role_texts
  wan_of iface iface_id = field "id" iface_id (
      field "description" (str (iface_label iface iface_id)) (
        field "interface_name" (get "interface-name" iface) (
          field "type" (get "type" iface) (
            field "link_state" (str (lower (rt.print (or_else (get "state" iface) (str "down"))))) (
              field "enabled" (bool (derive_wan_enabled rt iface)) (
                field "global" (bool (coerce_bool (get "global" iface))) (
                  field "defaultgw" (bool (coerce_bool (get "defaultgw" iface))) (
                    field "priority" (get "priority" iface) (
                      field "role" (list (role_list (get "role" iface))) (
                        field "security_level" (get "security-level" iface) (
                          field "ip" (text_value rt (extract_wan_ip rt iface false)) (
                            field "mask" (get "mask" iface) (
                              field "uptime" (get "uptime" iface) (
                                field "underlying" (get "via" iface) (
                                  field "remote" (get "remote" iface) (
                                    field "mac" (get "mac" iface) (
                                      field "internet_access"
                                        (bool (derive_wan_internet_access rt iface))
                                        (field "summary_layers" (layers (get "summary" iface))
                                          (field "raw" (dict iface) end)))))))))))))))))))

  unfoldable pub wan_interfaces : List Fields → List Fields
  unfolding wan_of
  wan_interfaces [] = []
  wan_interfaces (iface ∷ rest) =
      let later = wan_interfaces rest in
      let iface_id = or_else (get "id" iface) (get "interface-name" iface) in
      if is_ranked_wan_interface rt iface && truthy iface_id
      then wan_of iface iface_id ∷ later
      else later

-- `async_get_wan_status(iface_list=...)`.
unfoldable pub get_wan_status : Site → Option (List Fields) → Client → Result Fields × Client
unfolding wan_status
get_wan_status site iface_list c = interfaces_or site iface_list (wan_status site.runtime) c

-- `async_get_wan_interfaces(iface_list=...)`.
unfoldable pub get_wan_interfaces :
    Site → Option (List Fields) → Client → Result (List Fields) × Client
unfolding wan_interfaces
get_wan_interfaces site iface_list c = interfaces_or site iface_list (wan_interfaces site.runtime) c
