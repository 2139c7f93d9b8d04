-- ===== src/Setup.antt =====
-- entity_setup.py: which entities a platform adds. `iter_new_items` of utils.py finds them in a snapshot.
pub mod Once
use keenetic_router_pro.Prelude.{
  not, String, List, [], ◌∷◌, true, false, Bool, mem, Option, some, none, if◌then◌else◌, ◌==◌, ◌||◌,
  ◌&&◌,
}
use keenetic_router_pro.Value.{Value, value_eq, Fields, get, truthy}

-- The ids that were seen. A port of a mesh node is known by the node and its label.
pub record DynamicEntityTracker : Type 0 where
  pub mesh_nodes : List String
  pub mesh_local_ips : List String
  pub mesh_ports : List (String × String)
  pub main_ports : List String
  pub wan_ids : List String
  pub wireguard_ids : List String
  pub vpn_ids : List String
  pub crypto_maps : List String

-- `_mark(seen, key)`: whether the key is new, and the keys seen then.
unfoldable pub mark : String → List String → Bool × List String
mark key seen = if mem key seen then (false, seen) else (true, key ∷ seen)

abbrev same_port : String → String → String × String → Bool
same_port node_id label key = key.0 == node_id && key.1 == label

unfoldable pub has_port : String → String → List (String × String) → Bool
has_port node_id label [] = false
has_port node_id label (key ∷ keys) = same_port node_id label key || has_port node_id label keys

abbrev Marked : Type 0
Marked = Bool × DynamicEntityTracker

unfoldable pub mark_mesh_node : String → DynamicEntityTracker → Marked
unfolding mark
mark_mesh_node node_id t =
    let out = mark node_id t.mesh_nodes in (out.0, record t { mesh_nodes = out.1 })

unfoldable pub mark_mesh_local_ip : String → DynamicEntityTracker → Marked
unfolding mark
mark_mesh_local_ip node_id t =
    let out = mark node_id t.mesh_local_ips in (out.0, record t { mesh_local_ips = out.1 })

unfoldable pub mark_mesh_port : String → String → DynamicEntityTracker → Marked
unfolding has_port
mark_mesh_port node_id label t =
    if has_port node_id label t.mesh_ports
    then (false, t)
    else (true, record t { mesh_ports = (node_id, label) ∷ t.mesh_ports })

unfoldable pub mark_wan : String → DynamicEntityTracker → Marked
unfolding mark
mark_wan wan_id t = let out = mark wan_id t.wan_ids in (out.0, record t { wan_ids = out.1 })

unfoldable pub mark_main_port : String → DynamicEntityTracker → Marked
unfolding mark
mark_main_port label t =
    let out = mark label t.main_ports in (out.0, record t { main_ports = out.1 })

unfoldable pub mark_wireguard : String → DynamicEntityTracker → Marked
unfolding mark
mark_wireguard profile_id t =
    let out = mark profile_id t.wireguard_ids in (out.0, record t { wireguard_ids = out.1 })

unfoldable pub mark_vpn : String → DynamicEntityTracker → Marked
unfolding mark
mark_vpn iface_id t = let out = mark iface_id t.vpn_ids in (out.0, record t { vpn_ids = out.1 })

unfoldable pub mark_crypto_map : String → DynamicEntityTracker → Marked
unfolding mark
mark_crypto_map name t =
    let out = mark name t.crypto_maps in (out.0, record t { crypto_maps = out.1 })

-- The id of an item: the first value of the keys that is true.
unfoldable pub item_id : List String → Fields → Option Value
item_id [] item = none
item_id (key ∷ keys) item =
    let later = item_id keys item in if truthy (get key item) then some (get key item) else later

-- `item_id in known`. An id is hashable: a list or a dict would raise TypeError.
abbrev pub is_known : Value → List Value → Bool
is_known id [] = false
is_known id (k ∷ known) = value_eq k id || is_known id known

abbrev pub Yielded : Type 0
Yielded = List Fields × List Value

abbrev pub yielded : Bool → Fields → Yielded → Yielded
yielded fresh item rest = (if fresh then item ∷ rest.0 else rest.0, rest.1)

-- `iter_new_items(coordinator, key, known, id_keys)`, on the items of the snapshot that are dicts: the new
-- ones, and the ids that are known then.
unfoldable pub iter_new_items : List String → List Fields → List Value → Yielded
unfolding item_id
iter_new_items id_keys [] known = ([], known)
iter_new_items id_keys (item ∷ items) known = elim (item_id id_keys item) [
  | none ↦ iter_new_items id_keys items known
  | some id ↦
      let fresh = not (is_known id known) in
      yielded fresh item (iter_new_items id_keys items (if fresh then id ∷ known else known))
]

-- `register_dynamic_entities`: what the platform adds at the start and on each later snapshot. A list that
-- is empty is not handed over, which adds nothing either.
unfoldable pub snapshots :
    List String → List (List Fields) → List Value → List (List Fields) × List Value
unfolding iter_new_items
snapshots id_keys [] known = ([], known)
snapshots id_keys (items ∷ later) known =
    let out = iter_new_items id_keys items known in
    let rest = snapshots id_keys later out.1 in (out.0 ∷ rest.0, rest.1)
