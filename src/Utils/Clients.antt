-- ===== src/Utils/Clients.antt =====
-- The helpers of utils.py that read client, interface and mesh records.
pub mod Tracking
use keenetic_router_pro.Prelude.{
  String, Bool, true, false, not, ◌&&◌, ◌||◌, Option, none, some, List, [], ◌∷◌, ◌==◌, mem,
  if◌then◌else◌,
}
use keenetic_router_pro.Value.{
  Value, null, str, dict, list, Items, Fields, get, has, get_or, truthy, is_blank, or_else,
  elements, as_dict, dicts, value_eq, Runtime,
}
use keenetic_router_pro.Text.{strip, lower, upper, before_dash}
use keenetic_router_pro.Utils.Coerce.{coerce_bool}
use keenetic_router_pro.Utils.Mac.{normalize_mac, text_or_empty}

abbrev pub placeholder_ips : List String
placeholder_ips = "" ∷ "0.0.0.0" ∷ "::" ∷ "::0" ∷ "0:0:0:0:0:0:0:0" ∷ []

-- `usable_ip(value)`.
unfoldable pub usable_ip : Runtime → Value → Option String
unfolding text_or_empty
usable_ip rt v =
    let text = strip (text_or_empty rt v) in if mem text placeholder_ips then none else some text

-- `first_present(d, *keys, default=None)`.
unfoldable pub first_present : Fields → List String → Value
first_present d [] = null
first_present d (k ∷ ks) =
    let rest = first_present d ks in if is_blank (get k d) then rest else get k d

-- `node.get("cid") or node.get("id")`.
unfoldable pub node_id : Fields → Value
node_id n = or_else (get "cid" n) (get "id" n)

-- `is_client_online(client)`.
unfoldable pub is_client_online : Runtime → Fields → Bool
is_client_online rt client =
    if not (truthy (dict client))
    then false
    else if lower (strip (rt.print (get_or "link" (str "") client))) == "up"
    then true
    else if coerce_bool (get "neighbour-expired" client)
    then false
    else coerce_bool (get "active" client)

find_mac : Runtime → String → List Fields → Option Fields
find_mac rt target [] = none
find_mac rt target (client ∷ rest) =
    let later = find_mac rt target rest in
    if normalize_mac rt (get "mac" client) == target then some client else later

-- `find_client_by_mac(clients, mac)`.
unfoldable pub find_client_by_mac : Runtime → Value → String → Option Fields
unfolding find_mac
find_client_by_mac rt clients mac =
    if mac == "" || not (truthy clients)
    then none
    else find_mac rt (normalize_mac rt (str mac)) (dicts (elements clients))

scan_nodes : String → List Fields → Option Fields
scan_nodes cid [] = none
scan_nodes cid (node ∷ rest) =
    let later = scan_nodes cid rest in
    if value_eq (node_id node) (str cid) then some node else later

-- The index of `find_mesh_node`, where it holds a node.
indexed_node : Value → String → Option Fields
indexed_node (dict index) cid = as_dict (get cid index)
indexed_node _ cid = none

-- `find_mesh_node(data, cid)`.
unfoldable pub find_mesh_node : Fields → String → Option Fields
unfolding scan_nodes indexed_node
find_mesh_node data_ cid =
    if cid == "" then none else elim (indexed_node (get "mesh_nodes_by_cid" data_) cid) [
      | some node ↦ some node
      | none ↦ scan_nodes cid (dicts (elements (get "mesh_nodes" data_)))
    ]

-- The branches of `client_display_name` for the client's name, and for its host name.
abbrev name_or : Value → String → String
name_or (str n) fallback = if strip n == "" then fallback else before_dash (strip n)
name_or _ fallback = fallback

abbrev hostname_or : Value → String → String
hostname_or (str h) other = if strip h == "" then other else strip h
hostname_or _ other = other

-- `client_display_name(client, fallback)`; without keys both branches give the fallback.
unfoldable pub client_display_name : Fields → String → String
client_display_name client fallback =
    hostname_or (get "hostname" client) (name_or (get "name" client) fallback)

-- A tracked client of the configuration: MAC, name and address.
pub record Tracked : Type 0 where
  pub mac : String
  pub name : Value
  pub ip : Value

module _ (rt : Runtime) where
  -- The loop of `iter_tracked_clients`, over the entries that are dicts.
  unfoldable pub tracked_from : List String → List Fields → List Tracked
  tracked_from seen [] = []
  tracked_from seen (info ∷ rest) =
      let mac = normalize_mac rt (get "mac" info) in
      let skipped = tracked_from seen rest in
      let further = tracked_from (mac ∷ seen) rest in
      if mac == "" || mem mac seen
      then skipped
      else record {
        mac = mac;
        name = or_else (get "name" info) (str (upper mac));
        ip = get "ip" info;
      }
        ∷ further

  -- `iter_tracked_clients(entry)`, given the entry's list of tracked clients.
  unfoldable pub iter_tracked_clients : List Value → List Tracked
  unfolding tracked_from
  iter_tracked_clients infos = tracked_from [] (dicts infos)
