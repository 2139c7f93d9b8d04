-- ===== src/Diagnostics.antt =====
-- diagnostics.py: the dump that a user attaches to a report. The redaction by keys that follows is a
-- function of Home Assistant.
pub mod Counting
pub mod Steps
pub mod Masking
pub mod Redacted
use keenetic_router_pro.Prelude.{
  String, List, [], ◌∷◌, Bool, true, false, not, ◌&&◌, if◌then◌else◌, ℕ, suc, pos, ◌==◌,
}
use keenetic_router_pro.Value.{
  Value, Fields, Items, null, int, str, list, dict, nil, cons, end, field, get, has, put, Runtime,
}
use keenetic_router_pro.Utils.Mac.{normalize_mac}

abbrev pub redacted : Value
redacted = str "**REDACTED**"

abbrev pub mac_keyed_indexes : List String
mac_keyed_indexes = "clients_by_mac" ∷ "host_policies" ∷ "client_stats" ∷ "mesh_nodes_by_cid" ∷ []

abbrev pub mac_set_fields : List String
mac_set_fields =
    "new_clients" ∷ "online_clients" ∷ "connected_clients" ∷ "disconnected_clients" ∷ []

pub count_keys : Fields → ℕ
count_keys end = 0
count_keys (field k v fs) = suc (count_keys fs)

pub count_items : Items → ℕ
count_items nil = 0
count_items (cons v vs) = suc (count_items vs)

-- `{"<redacted-mac-keys>": len(d)}` in place of a dict, and anything else as it is.
unfoldable pub count_of_dict : Value → Value
unfolding count_keys
count_of_dict (dict fs) = dict (field "<redacted-mac-keys>" (int (pos (count_keys fs))) end)
count_of_dict v = v

-- `{"<redacted-mac-set>": len(macs)}` in place of a collection; a set is the list of its elements.
unfoldable pub count_of_set : Value → Value
unfolding count_items
count_of_set (list vs) = dict (field "<redacted-mac-set>" (int (pos (count_items vs))) end)
count_of_set v = v

-- The loops over the two lists of keys; a value of another shape is put back as it was, here and below.
unfoldable pub count_at : (Value → Value) → List String → Fields → Fields
count_at count [] data_ = data_
count_at count (key ∷ keys) data_ =
    count_at count keys (if has key data_ then put key (count (get key data_)) data_ else data_)

unfoldable pub strip_associations : Value → Fields → Fields
unfolding count_of_dict
strip_associations (dict assoc) data_ =
    if has "by_node" assoc
    then put "mesh_associations" (dict (put "by_node" (count_of_dict (get "by_node" assoc)) assoc))
        data_
    else data_
strip_associations v data_ = data_

-- `_redact_mesh_node_ids(node)`.
unfoldable pub redact_key : Runtime → String → Fields → Fields
redact_key rt key node =
    if normalize_mac rt (get key node) == "" then node else put key redacted node

unfoldable pub redact_mesh_node_ids : Runtime → Value → Value
unfolding redact_key
redact_mesh_node_ids rt (dict node) = dict (redact_key rt "cid" (redact_key rt "id" node))
redact_mesh_node_ids rt v = v

unfoldable pub map_items : (Value → Value) → Items → Items
map_items f nil = nil
map_items f (cons v vs) = cons (f v) (map_items f vs)

abbrev as_items : Value → Items
as_items (list vs) = vs
as_items v = cons v nil

-- `{**d, key: _REDACTED}` where the dict has the key.
unfoldable pub redact_present : String → Value → Value
redact_present key (dict d) = if has key d then dict (put key redacted d) else dict d
redact_present key v = v

abbrev strip_tunnel : Value → Value
strip_tunnel (dict ttp) =
    if has "tunnel" ttp
    then dict (
        put "tunnel" (list (map_items (redact_present "client") (as_items (get "tunnel" ttp)))) ttp)
    else dict ttp
strip_tunnel v = v

unfoldable pub strip_ndns : Value → Fields → Fields
unfolding map_items redact_present
strip_ndns (dict ndns) data_ =
    if has "ttp" ndns
    then put "ndns" (dict (put "ttp" (strip_tunnel (get "ttp" ndns)) ndns)) data_
    else data_
strip_ndns v data_ = data_

unfoldable pub strip_nodes : Runtime → Value → Fields → Fields
unfolding redact_mesh_node_ids map_items
strip_nodes rt (list nodes) data_ =
    put "mesh_nodes" (list (map_items (redact_mesh_node_ids rt) nodes)) data_
strip_nodes rt v data_ = data_

-- `_strip_mac_keyed_indexes(data)`, for a dict.
unfoldable pub strip_mac_keyed_indexes : Runtime → Fields → Fields
unfolding count_at count_of_dict count_of_set strip_associations strip_ndns strip_nodes
strip_mac_keyed_indexes rt data_ =
    let counted = count_at count_of_dict mac_keyed_indexes data_ in
    let associated = strip_associations (get "mesh_associations" counted) counted in
    let sets = count_at count_of_set mac_set_fields associated in
    let named = strip_ndns (get "ndns" sets) sets in strip_nodes rt (get "mesh_nodes" named) named

unfoldable pub redact_tracked : Value → Fields → Fields
unfolding map_items redact_present
redact_tracked (list tracked) data_ =
    put "tracked_clients" (list (map_items (redact_present "name") tracked)) data_
redact_tracked v data_ = data_

-- `_redact_tracked_client_names(data)`.
unfoldable pub redact_tracked_client_names : Fields → Fields
unfolding redact_tracked
redact_tracked_client_names data_ = redact_tracked (get "tracked_clients" data_) data_
