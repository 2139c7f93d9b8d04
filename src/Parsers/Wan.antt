-- ===== src/Parsers/Wan.antt =====
-- api/parsers/wan.py: the address, the role and the state of an uplink.
pub mod Access
use keenetic_router_pro.Prelude.{
  String, Bool, List, Option, none, ◌||◌, true, not, false, ◌∷◌, some, mem, if◌then◌else◌, ◌==◌, [],
  ◌&&◌, is_some,
}
use keenetic_router_pro.Text.{before, lower}
use keenetic_router_pro.Value.{
  Value, null, str, dict, list, Items, nil, cons, Fields, end, get, truthy, or_else, Runtime,
  as_dict,
}
use keenetic_router_pro.Utils.Coerce.{coerce_bool}
use keenetic_router_pro.Utils.Clients.{first_present, usable_ip}
use keenetic_router_pro.Utils.Mac.{text_or_empty}

-- `UPLINK_ROLE_TOKENS`.
abbrev uplink_role_tokens : List String
uplink_role_tokens = "inet" ∷ "internet" ∷ "wan" ∷ []

module _ (rt : Runtime) where
  -- `str(ip).split("/")[0] if ip else None`.
  abbrev bare_ip : Value → Option String
  bare_ip ip = if truthy ip then some (before b'/' (rt.print ip)) else none

  abbrev ip_of_first : Value → Option String
  ip_of_first (dict fs) = bare_ip (first_present fs ("address" ∷ "ip" ∷ []))
  ip_of_first (str s) = some (before b'/' s)
  ip_of_first v = none

  -- `_extract_ip_from_value(value)`.
  unfoldable pub extract_ip_from_value : Value → Option String
  extract_ip_from_value (str s) = if s == "" then none else some (before b'/' s)
  extract_ip_from_value (dict fs) = bare_ip (first_present fs ("address" ∷ "ip" ∷ []))
  extract_ip_from_value (list (cons first rest)) = ip_of_first first
  extract_ip_from_value v = none

  -- `if ip: return ip`, before what follows.
  abbrev found_or : Option String → Option String → Option String
  found_or none later = later
  found_or (some ip) later = if ip == "" then later else some ip

  abbrev plain_text : Value → Option String → Option String
  plain_text (str s) later = if s == "" then later else some (before b'/' s)
  plain_text v later = later

  abbrev plain_address : Fields → Option String
  plain_address iface =
      plain_text (get "ip" iface)
        (plain_text (get "ipv4" iface) (plain_text (get "ip-address" iface) none))

  -- `extract_wan_ip(iface, prefer_global_address=...)`.
  unfoldable pub extract_wan_ip : Fields → Bool → Option String
  extract_wan_ip iface prefer_global_address =
      let address = extract_ip_from_value (get "address" iface) in
      let global = extract_ip_from_value (get "global-address" iface) in
      if prefer_global_address
      then found_or global (found_or address (plain_address iface))
      else found_or address (found_or global (plain_address iface))

  abbrev any_token : Items → Bool
  any_token nil = false
  any_token (cons item rest) = mem (lower (rt.print item)) uplink_role_tokens || any_token rest

  abbrev has_role : Value → Bool
  has_role (list xs) = any_token xs
  has_role (str s) = mem (lower s) uplink_role_tokens
  has_role v = false

  abbrev is_none : Value → Bool
  is_none null = true
  is_none v = false

  -- `is_ranked_wan_interface(iface)`.
  unfoldable pub is_ranked_wan_interface : Fields → Bool
  is_ranked_wan_interface iface =
      has_role (get "role" iface)
      || (coerce_bool (get "global" iface) && not (is_none (get "priority" iface)))

  -- `x or {}`, and {} for what is no dict.
  abbrev dict_of : Value → Fields
  dict_of (dict fs) = fs
  dict_of v = end

  -- `derive_wan_enabled(iface)`.
  unfoldable pub derive_wan_enabled : Fields → Bool
  derive_wan_enabled iface = not (
      lower (text_or_empty rt (get "conf" (dict_of (get "layer" (dict_of (get "summary" iface))))))
      == "disabled")

  abbrev pub text_value : Option String → Value
  text_value none = null
  text_value (some s) = str s

  -- `derive_wan_internet_access(iface)`.
  unfoldable pub derive_wan_internet_access : Fields → Bool
  derive_wan_internet_access iface =
      if not (lower (text_or_empty rt (get "state" iface)) == "up")
      then false
      else if not (coerce_bool (get "global" iface))
      then false
      else if not (is_some (usable_ip rt (text_value (extract_wan_ip iface false))))
      then false
      else not (coerce_bool (str (lower (text_or_empty rt (get "fail" iface)))))
