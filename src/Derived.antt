-- ===== src/Derived.antt =====
-- coordinator_parts/derived.py: rates, mesh counts, the client index and the order of the uplinks.
pub mod Rate
pub mod Index
pub mod Uplinks
pub mod Mesh
use keenetic_router_pro.Prelude.{
  ℕ, suc, String, Bool, true, false, not, ◌&&◌, ◌||◌, Option, none, some, List, [], ◌∷◌, ◌==◌,
  if◌then◌else◌, ℤ, pos, negsuc, ◌-ℤ◌, ◌+ℤ◌, leb_ℤ, Dict, lookup, insert, length, leb,
}
use keenetic_router_pro.Prelude.{map, neg_ℤ, eqb, is_some}
use keenetic_router_pro.Value.{
  ValueMap, find, assign, Float, float_lt, float_eq, float_zero, Value, null, int, str, list, dict,
  Items, nil, cons, Fields, end, field, get, put, truthy, or_else, value_eq, Runtime, dicts, items,
  elements, size,
}
use keenetic_router_pro.Utils.Coerce.{coerce_byte_count, coerce_int_or_zero}
use keenetic_router_pro.Utils.Mac.{normalize_mac}
use keenetic_router_pro.Utils.Clients.{is_client_online, node_id}
use Prim.Native.String.{◌++◌}

module _ (rt : Runtime) where
  -- `max(0.0, x)`, and 0.0 where the division overflows.
  pub clamp_rate : Option Float → Float
  clamp_rate none = float_zero
  clamp_rate (some x) = if float_lt float_zero x then x else float_zero

  rate_of_delta : ℤ → Float → Float
  rate_of_delta (pos delta) elapsed = clamp_rate (rt.float_div delta elapsed)
  rate_of_delta (negsuc _) elapsed = float_zero

  rate_of_counts : Option ℤ → Option ℤ → Float → Float
  rate_of_counts (some cur) (some prev) elapsed = rate_of_delta (cur -ℤ prev) elapsed
  rate_of_counts none _ elapsed = float_zero
  rate_of_counts (some cur) none elapsed = float_zero

  -- `counter_rate_bytes_per_second(current, previous, elapsed_seconds)`.
  unfoldable pub counter_rate_bytes_per_second : Value → Value → Float → Float
  unfolding clamp_rate rate_of_delta rate_of_counts
  counter_rate_bytes_per_second current previous elapsed =
      if float_lt elapsed float_zero || float_eq elapsed float_zero
      then float_zero
      else rate_of_counts (coerce_byte_count rt current) (coerce_byte_count rt previous) elapsed

  -- The associations of a node: the number of its stations, or the count that it reports.
  abbrev association_count : Value → ℤ
  association_count (list xs) = pos (length (items xs))
  association_count (dict fs) = pos (size fs)
  association_count v = coerce_int_or_zero v

  pub record Associations : Type 0 where
    pub total : ℤ
    pub by_node : Dict ℤ

  abbrev associate : Fields → Associations → Associations
  associate node a =
      if truthy (node_id node)
      then record {
        total = a.total +ℤ association_count (get "associations" node);
        by_node =
            insert (rt.print (node_id node)) (association_count (get "associations" node))
              a.by_node;
      }
      else a

  unfoldable pub associate_all : List Fields → Associations → Associations
  associate_all [] a = a
  associate_all (n ∷ ns) a = associate_all ns (associate n a)

  -- `mesh_associations(mesh_nodes)`.
  unfoldable pub mesh_associations : List Value → Associations
  unfolding associate_all
  mesh_associations nodes = associate_all (dicts nodes) (record { total = pos 0; by_node = [] })

  -- The loop of `build_clients_by_mac`.
  abbrev pub displaces : Option Fields → Fields → Bool
  displaces none client = true
  displaces (some existing) client =
      not (is_client_online rt existing && not (is_client_online rt client))

  unfoldable pub place : String → Fields → Dict Fields → Dict Fields
  place mac client by_mac =
      if displaces (lookup mac by_mac) client then insert mac client by_mac else by_mac

  unfoldable pub index_client : Fields → Dict Fields → Dict Fields
  index_client client by_mac =
      let mac = normalize_mac rt (get "mac" client) in
      if mac == "" then by_mac else place mac client by_mac

  unfoldable pub index_clients : List Fields → Dict Fields → Dict Fields
  index_clients [] by_mac = by_mac
  index_clients (c ∷ cs) by_mac = index_clients cs (index_client c by_mac)

  -- `build_clients_by_mac(clients)`.
  unfoldable pub build_clients_by_mac : List Value → Dict Fields
  build_clients_by_mac clients = index_clients (dicts clients) []

-- `real_client_macs(clients_by_mac)`, as a list in the order of the index.
unfoldable pub real_client_macs : Dict Fields → List String
real_client_macs [] = []
real_client_macs ((mac, client) ∷ rest) =
    let macs = real_client_macs rest in
    if truthy (get "neighbour-only" client) then macs else mac ∷ macs

-- `known` of `carry_firmware_available`.
unfoldable pub known_firmware : List Fields → ValueMap Value → ValueMap Value
known_firmware [] known = known
known_firmware (n ∷ ns) known =
    known_firmware ns (assign (node_id n) (get "firmware_available" n) known)

abbrev value_or_null : Option Value → Value
value_or_null none = null
value_or_null (some v) = v

-- The version that was offered to a node with this id.
abbrev pub offered : ValueMap Value → Fields → Value
offered known n = value_or_null (find (node_id n) known)

-- One round of the loop of `carry_firmware_available`.
unfoldable pub carry_node : ValueMap Value → Fields → Fields
carry_node known n =
    if not (truthy (get "firmware_available" n))
      && truthy (offered known n)
      && not (value_eq (offered known n) (get "firmware" n))
    then put "firmware_available" (offered known n) n
    else n

carry_value : ValueMap Value → Value → Value
carry_value known (dict n) = dict (carry_node known n)
carry_value known v = v

-- `carry_firmware_available(nodes, previous_nodes)`.
unfoldable pub carry_firmware_available : List Value → List Value → List Value
unfolding carry_value
carry_firmware_available nodes previous_nodes =
    map (carry_value (known_firmware (dicts previous_nodes) [])) nodes

-- The rank of an uplink, which `_prio_key` negates.
abbrev pub priority : Fields → ℤ
priority wan = coerce_int_or_zero (get "priority" wan)

abbrev pub is_default : Fields → Bool
is_default wan = truthy (get "defaultgw" wan)

-- Python's stable sort by `_prio_key`, as an insertion sort: a smaller key first, and among equal keys
-- the earlier entry.
unfoldable pub insert_by_priority : Fields → List Fields → List Fields
insert_by_priority w [] = w ∷ []
insert_by_priority w (x ∷ xs) =
    let later = insert_by_priority w xs in
    if leb_ℤ (neg_ℤ (priority w)) (neg_ℤ (priority x)) then w ∷ x ∷ xs else x ∷ later

unfoldable pub sort_by_priority : List Fields → List Fields
sort_by_priority [] = []
sort_by_priority (w ∷ ws) = insert_by_priority w (sort_by_priority ws)

-- The first default uplink, and the list without it.
unfoldable pub split_default : List Fields → Option (Fields × List Fields)
split_default [] = none
split_default (w ∷ ws) =
    let later = split_default ws in
    if is_default w
    then some (w, ws)
    else elim later [ none ↦ none | some (d, rest) ↦ some (d, w ∷ rest) ]

-- `ordered` of `order_wan_interfaces`.
unfoldable pub wan_order : List Fields → List Fields
wan_order wans = elim (split_default wans) [
  | some (default, backups) ↦ default ∷ sort_by_priority backups
  | none ↦ sort_by_priority wans
]

module _ (rt : Runtime) where
  -- One round of the labelling loop; `no_default` is `default_idx is None`.
  unfoldable pub label_wan : Bool → ℕ → Fields → Fields
  label_wan no_default position wan =
      if eqb position 0 && (is_default wan || no_default)
      then put "role_index" (int (pos 0)) (put "role_label" (str "Default connection") wan)
      else put "role_index" (int (pos position))
          (put "role_label" (str ("Backup connection " ++ rt.print (int (pos position)))) wan)

  unfoldable pub label_from : Bool → ℕ → List Fields → List Fields
  label_from no_default position [] = []
  label_from no_default position (w ∷ ws) =
      label_wan no_default position w ∷ label_from no_default (suc position) ws

  -- `order_wan_interfaces(wan_interfaces)`.
  unfoldable pub order_wan_interfaces : List Fields → List Fields
  order_wan_interfaces wans = label_from (not (is_some (split_default wans))) 0 (wan_order wans)
