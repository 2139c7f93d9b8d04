-- ===== src/Domains/Mesh.antt =====
-- api/domains/mesh.py: the list of the mesh nodes.
pub mod Identity
pub mod Remembered
use keenetic_router_pro.Prelude.{
  String, List, [], ◌∷◌, true, false, Option, some, none, Bool, pos, eqb_ℤ, if◌then◌else◌, ◌&&◌,
  mem,
}
use keenetic_router_pro.Value.{
  Value, null, dict, list, str, bool, int, Items, nil, cons, Fields, end, field, get, get_or, has,
  or_else, truthy, value_eq, Runtime, put,
}
use keenetic_router_pro.Text.{lower}
use keenetic_router_pro.Utils.Coerce.{coerce_int_or_zero, coerce_bool}
use keenetic_router_pro.Parsers.Helpers.{nested_dict_items, dict_items}
use keenetic_router_pro.Refresh.{is_false}
use keenetic_router_pro.Transport.Http.{Site, Result, Error, ok, err, api_error}
use keenetic_router_pro.Transport.Header.{is_endpoint_missing}
use keenetic_router_pro.Transport.Calls.{rci_get}
use keenetic_router_pro.Domains.{Device, on_client, not}
use keenetic_router_pro.Domains.Clients.{get_clients}
use keenetic_router_pro.Domains.Clients.Stats.{system_mode, is_extender}

abbrev link_state : Bool → Value
link_state true = str "up"
link_state false = str "down"

-- The node of an extender among the clients: its MAC address is its id.
unfoldable pub client_node : String → Fields → Fields
client_node mode client =
    let mac = get "mac" client in
    let active = coerce_bool (get_or "active" (bool false) client) in
    field "id" mac (
      field "cid" null (
        field "mac" mac (
          field "ip" (get "ip" client) (
            field "name" (or_else (get "name" client) (or_else (get "hostname" client) mac)) (
              field "mode" (str mode) (
                field "connected" (bool active) (
                  field "state" (link_state active) (
                    field "uptime" (get "uptime" client)
                      (field "firmware" (get "firmware" client) end)))))))))

unfoldable pub client_nodes : Runtime → List Fields → List Fields
unfolding client_node
client_nodes rt [] = []
client_nodes rt (client ∷ clients) =
    let later = client_nodes rt clients in
    if is_extender (system_mode rt client) && truthy (get "mac" client)
    then client_node (system_mode rt client) client ∷ later
    else later

-- `_get_mesh_nodes_from_clients(clients=...)`, whose exceptions `async_get_mesh_nodes` logs.
abbrev pub nodes_or_empty : Runtime → Result (List Fields) × Device → List Fields × Device
nodes_or_empty rt (ok clients, d) = (client_nodes rt clients, d)
nodes_or_empty rt (err e, d) = ([], d)

unfoldable pub fallback_nodes : Site → Option (List Fields) → Device → List Fields × Device
unfolding client_nodes
fallback_nodes site none d = nodes_or_empty site.runtime (get_clients site d)
fallback_nodes site (some clients) d = (client_nodes site.runtime clients, d)

abbrev dict_or_end : Value → Fields
dict_or_end (dict fs) = fs
dict_or_end v = end

-- Older firmware does not say whether a member has internet access: then its state decides.
unfoldable pub is_connected : Runtime → Fields → Bool
is_connected rt member =
    let errors =
      coerce_int_or_zero (get_or "errors" (int (pos 0)) (dict_or_end (get "rci" member))) in
    eqb_ℤ errors (pos 0)
    && (if has "internet-available" member
        then coerce_bool (get "internet-available" member)
        else not (
            mem (lower (rt.print (or_else (get "state" member) (str ""))))
              ("" ∷ "offline" ∷ "down" ∷ [])))

-- The speed of a port that has a link.
abbrev pub linked : Fields → Fields → Fields
linked port entry =
    if value_eq (get "link" port) (str "up")
    then put "duplex" (get "duplex" port) (put "speed" (get "speed" port) entry)
    else entry

unfoldable pub port_entries : List Fields → Items
port_entries [] = nil
port_entries (port ∷ ports) =
    cons
      (dict (
        linked port (
          field "label" (get "label" port)
            (field "appearance" (get "appearance" port) (field "link" (get "link" port) end)))))
      (port_entries ports)

-- The node of a member of the mesh.
unfoldable pub member_node : Runtime → Fields → Fields
unfolding is_connected port_entries
member_node rt member =
    let cid = get "cid" member in
    let mac = get "mac" member in
    let system = dict_or_end (get "system" member) in
    let connected = is_connected rt member in
    field "id" cid (
      field "cid" cid (
        field "mac" mac (
          field "ip" (get "ip" member) (
            field "name" (or_else (get "known-host" member) (or_else (get "model" member) mac)) (
              field "model" (get "model" member) (
                field "mode" (get "mode" member) (
                  field "hw_id" (get "hw_id" member) (
                    field "region" (get "region" member) (
                      field "connected" (bool connected) (
                        field "state" (link_state connected) (
                          field "uptime" (get "uptime" system) (
                            field "cpuload" (get "cpuload" system) (
                              field "memory" (get "memory" system) (
                                field "firmware" (get "fw" member) (
                                  field "firmware_available" (get "fw-available" member) (
                                    field "associations"
                                      (get_or "associations" (int (pos 0)) member)
                                      (field "rci_errors"
                                        (get_or "errors" (int (pos 0))
                                          (dict_or_end (get "rci" member)))
                                        (field "fqdn" (get "fqdn" member) (
                                          field "port"
                                            (list (
                                              port_entries
                                                (dict_items (get_or "port" (list nil) member))))
                                            (field "backhaul" (get "backhaul" member)
                                              end))))))))))))))))))))

-- A member without an id is left out.
unfoldable pub member_nodes : Runtime → List Fields → List Fields
unfolding member_node
member_nodes rt [] = []
member_nodes rt (member ∷ members) =
    let later = member_nodes rt members in
    if truthy (get "cid" member) then member_node rt member ∷ later else later

abbrev Nodes : Type 0
Nodes = Result (List Fields) × Device

-- `_mesh_fallback(fallback_nodes)`.
unfoldable pub mesh_fallback : List Fields → Device → Nodes
mesh_fallback fallback d =
    if d.mws_members_seen
    then (err (api_error "MWS controller returned no members" none), d)
    else (ok fallback, d)

abbrev pub latch_mws : Bool → Device → Device
latch_mws b d = record d { latches = record d.latches { mws_member_supported = some b } }

-- A payload without members, and one whose members have no id, give no node.
unfoldable pub list_members : List Fields → Device → List Fields → Nodes
unfolding mesh_fallback
list_members fallback d [] = mesh_fallback fallback d
list_members fallback d nodes = (ok nodes, record d { mws_members_seen = true })

unfoldable pub settle_members : Runtime → List Fields → Result Value × Device → Nodes
unfolding list_members member_nodes
settle_members rt fallback (ok v, d) =
    list_members fallback (latch_mws true d)
      (member_nodes rt (nested_dict_items v ("member" ∷ "members" ∷ "mws" ∷ [])))
settle_members rt fallback (err e, d) =
    if is_endpoint_missing e then (ok fallback, latch_mws false d) else (err e, d)

-- Without an extender among the clients the controller is not asked.
unfoldable pub ask_members : Site → List Fields × Device → Nodes
unfolding settle_members
ask_members site ([], d) = (ok [], d)
ask_members site (fallback, d) =
    if is_false d.latches.mws_member_supported
    then (ok fallback, d)
    else settle_members site.runtime fallback (on_client (rci_get site "show/mws/member" none) d)

-- `async_get_mesh_nodes(clients=...)`.
unfoldable pub get_mesh_nodes : Site → Option (List Fields) → Device → Nodes
unfolding fallback_nodes ask_members
get_mesh_nodes site clients d = ask_members site (fallback_nodes site clients d)
