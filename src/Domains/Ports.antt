-- ===== src/Domains/Ports.antt =====
-- api/domains/network.py: the ports of the router. Labels are texts or numbers: a label that is a list or a
-- dict would raise.
use keenetic_router_pro.Prelude.{String, List, [], ◌∷◌, ◌++◌, true, false, Bool, any, if◌then◌else◌}
use Prim.Native.String.{compare}
use Prim.Native.Nat.{gt}
use keenetic_router_pro.Value.{
  Value, null, dict, str, Fields, end, field, get, get_or, has, or_else, truthy, value_eq, Runtime,
}
use keenetic_router_pro.Transport.Http.{Site, Client, Result, ok}
use keenetic_router_pro.Domains.{and_then}
use keenetic_router_pro.Domains.Mesh.{linked}
use keenetic_router_pro.Domains.Wan.{get_interfaces, iface_label}

-- A port with its label.
abbrev Labelled : Type 0
Labelled = Value × Fields

module _ (rt : Runtime) where
  abbrev label_of : Fields → Value → Value
  label_of port key = or_else (get "label" port) (str (iface_label rt port key))

  unfoldable pub port_entry : Labelled → Fields
  port_entry (label, port) = linked port (
      field "label" label (
        field "appearance" (get "type" port)
          (field "link" (get_or "link" (str "unknown") port) end)))

  -- `seen_labels`: a label is listed once.
  unfoldable pub fresh_entries : List Value → List Labelled → List Fields
  unfolding port_entry
  fresh_entries seen [] = []
  fresh_entries seen ((label, port) ∷ rest) =
      let listed = fresh_entries seen rest in
      let later = fresh_entries (label ∷ seen) rest in
      if any (value_eq label) seen then listed else port_entry (label, port) ∷ later

  abbrev is_type : String → Fields → Bool
  is_type t iface = value_eq (get "type" iface) (str t)

  -- Method 1: the entries of type Port.
  unfoldable pub top_ports : Fields → List Labelled
  top_ports end = []
  top_ports (field key (dict iface) rest) =
      let later = top_ports rest in
      if is_type "Port" iface then (label_of iface (str key), iface) ∷ later else later
  top_ports (field key v rest) = top_ports rest

  unfoldable pub keyed_ports : Fields → List Labelled
  keyed_ports end = []
  keyed_ports (field key (dict port) rest) = (label_of port (str key), port) ∷ keyed_ports rest
  keyed_ports (field key v rest) = keyed_ports rest

  abbrev single_port : Fields → List Labelled
  single_port port =
      let label = label_of port null in if truthy label then (label, port) ∷ [] else []

  abbrev ports_in : Value → List Labelled
  ports_in (dict ports) = if has "label" ports then single_port ports else keyed_ports ports
  ports_in v = []

  -- Method 2: the ports of the GigabitEthernet interfaces.
  unfoldable pub nested_ports : Fields → List Labelled
  unfolding keyed_ports
  nested_ports end = []
  nested_ports (field key (dict iface) rest) =
      let later = nested_ports rest in
      if is_type "GigabitEthernet" iface then ports_in (get "port" iface) ++ later else later
  nested_ports (field key v rest) = nested_ports rest

  abbrev sort_key : Fields → String
  sort_key port = rt.print (get_or "label" (str "") port)

  abbrev text_leb : String → String → Bool
  text_leb a b = elim (compare a b) [ gt ↦ false | _ ↦ true ]

  unfoldable pub place : Fields → List Fields → List Fields
  place p [] = p ∷ []
  place p (q ∷ qs) = if text_leb (sort_key p) (sort_key q) then p ∷ q ∷ qs else q ∷ place p qs

  -- `ports.sort(key=lambda p: str(p.get("label", "")))`, which is stable.
  unfoldable pub sort_ports : List Fields → List Fields
  unfolding place
  sort_ports [] = []
  sort_ports (p ∷ ps) = place p (sort_ports ps)

  abbrev ports_or : List Fields → List Fields → List Fields
  ports_or [] later = later
  ports_or ports later = ports

  unfoldable pub ports_of : Value → List Fields
  unfolding fresh_entries top_ports nested_ports sort_ports
  ports_of (dict interfaces) = sort_ports (
      ports_or (fresh_entries [] (top_ports interfaces))
        (fresh_entries [] (nested_ports interfaces)))
  ports_of v = []

-- `async_get_port_info()`, without pre-fetched interfaces.
unfoldable pub get_port_info : Site → Client → Result (List Fields) × Client
unfolding ports_of
get_port_info site c =
    and_then (get_interfaces site c) (λ interfaces c. (ok (ports_of site.runtime interfaces), c))
