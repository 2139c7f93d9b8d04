-- ===== src/Payloads.antt =====
-- coordinator_parts/payloads.py: payload shapes, and the merge of the hotspot clients with the IP
-- neighbours.
pub mod Merge
use keenetic_router_pro.Prelude.{
  is_some, String, Bool, true, false, not, ◌&&◌, ◌||◌, Option, none, some, List, [], ◌∷◌, ◌++◌, map,
  ◌==◌, if◌then◌else◌, Dict, lookup, insert, mem, ℤ, pos, eqb_ℤ,
}
use keenetic_router_pro.Value.{
  Float, float_eq, float_zero, Value, null, bool, int, float, str, list, dict, Items, nil, Fields,
  end, field, get, has, put, truthy, is_blank, Runtime, dicts, elements,
}
use keenetic_router_pro.Utils.Mac.{normalize_mac}
use keenetic_router_pro.Utils.Clients.{is_client_online, usable_ip}

-- `dict_or_empty(value)`.
abbrev pub dict_or_empty : Value → Fields
dict_or_empty (dict fs) = fs
dict_or_empty v = end

-- `list_or_empty(value)`.
abbrev pub list_or_empty : Value → Items
list_or_empty (list xs) = xs
list_or_empty v = nil

-- `v in (None, "", 0, "0")`: `False` and `0.0` equal 0.
unfoldable pub is_blank_or_zero : Value → Bool
is_blank_or_zero null = true
is_blank_or_zero (bool b) = not b
is_blank_or_zero (int z) = eqb_ℤ z (pos 0)
is_blank_or_zero (float x) = float_eq x float_zero
is_blank_or_zero (str s) = s == "" || s == "0"
is_blank_or_zero v = false

-- `d.setdefault(k, v)`.
unfoldable pub set_default_value : String → Value → Fields → Fields
set_default_value k v d = if has k d then d else put k v d

-- `neighbour.get("address-family") == "ipv4"`.
abbrev pub is_ipv4 : Fields → Bool
is_ipv4 neighbour = elim (get "address-family" neighbour) [ str s ↦ s == "ipv4" | _ ↦ false ]

module _ (rt : Runtime) where
  -- `neighbours_by_mac`.
  unfoldable pub index_neighbours : List Fields → Dict Fields → Dict Fields
  index_neighbours [] d = d
  index_neighbours (n ∷ ns) d =
      index_neighbours ns
        (if truthy (get "mac" n) then insert (normalize_mac rt (get "mac" n)) n d else d)

  -- The three branches for `last-seen`.
  pub merge_last_seen : Fields → Fields → Fields
  merge_last_seen neighbour item =
      if not (is_client_online rt item) && not (is_blank (get "last-seen" neighbour))
      then put "last-seen-source" (str "neighbour")
          (put "last-seen" (get "last-seen" neighbour) item)
      else if is_blank_or_zero (get "last-seen" item)
      then set_default_value "last-seen-source" (str "neighbour")
          (put "last-seen" (get "last-seen" neighbour) item)
      else set_default_value "last-seen-source" (str "hotspot") item

  pub merge_first_seen : Fields → Fields → Fields
  merge_first_seen neighbour item =
      if is_blank (get "first-seen" item)
      then set_default_value "first-seen-source" (str "neighbour")
          (put "first-seen" (get "first-seen" neighbour) item)
      else set_default_value "first-seen-source" (str "hotspot") item

  pub merge_ip : Fields → Fields → Fields
  merge_ip neighbour item =
      if not (is_some (usable_ip rt (get "ip" item))) && is_ipv4 neighbour
      then put "ip" (get "address" neighbour) item
      else item

  pub merge_state : Fields → Fields → Fields
  merge_state neighbour item = put "neighbour-leasetime" (get "leasetime" neighbour) (
      put "neighbour-wireless" (get "wireless" neighbour)
        (put "neighbour-expired" (get "expired" neighbour) item))

  -- A client with the neighbour at its address.
  unfoldable pub merge_client : Fields → Fields → Fields
  unfolding merge_last_seen merge_first_seen merge_ip merge_state
  merge_client client neighbour = merge_state neighbour (
      merge_ip neighbour (
        merge_first_seen neighbour
          (merge_last_seen neighbour (put "neighbour" (dict neighbour) client))))

  -- One client of the loop: `not neighbour` is an absent or an empty one.
  unfoldable pub attach : Dict Fields → Fields → Fields
  attach by_mac client =
      let mac = normalize_mac rt (get "mac" client) in
      if mac == "" then client else elim (lookup mac by_mac) [
        | none ↦ client
        | some neighbour ↦ if truthy (dict neighbour) then merge_client client neighbour else client
      ]

  -- `seen_macs` after the loop over the clients.
  unfoldable pub seen_macs : List Fields → List String
  seen_macs [] = []
  seen_macs (c ∷ cs) =
      let rest = seen_macs cs in
      let mac = normalize_mac rt (get "mac" c) in if mac == "" then rest else mac ∷ rest

-- The record of a host that only the neighbour table knows.
unfoldable pub ghost : String → Fields → Fields
ghost mac neighbour = field "mac" (str mac) (
    field "neighbour-only" (bool true) (
      field "via" (get "via" neighbour) (
        field "ip" (if is_ipv4 neighbour then get "address" neighbour else null) (
          field "active" (bool false) (
            field "last-seen" (get "last-seen" neighbour) (
              field "last-seen-source" (str "neighbour") (
                field "first-seen" (get "first-seen" neighbour) (
                  field "first-seen-source" (str "neighbour") (
                    field "neighbour" (dict neighbour) (
                      field "neighbour-expired" (get "expired" neighbour) (
                        field "neighbour-wireless" (get "wireless" neighbour)
                          (field "neighbour-leasetime" (get "leasetime" neighbour) end))))))))))))

-- The loop over the neighbours that no client has.
unfoldable pub ghosts : List String → Dict Fields → List Fields
ghosts seen [] = []
ghosts seen ((mac, neighbour) ∷ rest) =
    let later = ghosts seen rest in if mem mac seen then later else ghost mac neighbour ∷ later

-- `merge_clients_with_neighbours(clients, neighbours)`.
unfoldable pub merge_clients_with_neighbours : Runtime → List Value → Value → List Fields
merge_clients_with_neighbours rt clients neighbours =
    let by_mac = index_neighbours rt (dicts (elements neighbours)) [] in
    map (attach rt by_mac) (dicts clients) ++ ghosts (seen_macs rt (dicts clients)) by_mac
