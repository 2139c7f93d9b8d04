-- ===== src/Domains/Clients.antt =====
-- api/domains/clients.py: the clients, the neighbours and the policies that the router lists.
pub mod Listing
pub mod Stats
use keenetic_router_pro.Prelude.{
  String, List, [], ◌∷◌, true, false, Option, some, none, Bool, keep, Dict, if◌then◌else◌, mem,
  ◌==◌, insert, ◌&&◌, ◌||◌,
}
use keenetic_router_pro.Value.{
  Value, null, dict, list, str, Fields, end, field, Runtime, get, or_else, truthy,
}
use keenetic_router_pro.Utils.Mac.{normalize_mac}
use keenetic_router_pro.Parsers.Helpers.{nested_dict_items, dict_items}
use keenetic_router_pro.Refresh.{Latches}
use keenetic_router_pro.Transport.Http.{
  Site, Client, Result, Error, ok, err, api_error, auth_error, other_error,
}
use keenetic_router_pro.Transport.Header.{is_endpoint_missing}
use keenetic_router_pro.Transport.Calls.{rci_get}
use keenetic_router_pro.Transport.Commands.{rci_parse}
use keenetic_router_pro.Domains.{Device, and_then, on_client, not}

-- `RCI_HOTSPOT_HOST_PATHS`.
abbrev pub hotspot_host_paths : List String
hotspot_host_paths = "show/ip/hotspot/host" ∷ "ip/hotspot/host" ∷ []

abbrev winner_first : Option String → List String → List String
winner_first none skip = hotspot_host_paths
winner_first (some winner) skip =
    if not (winner == "") && not (mem winner skip)
    then winner ∷ keep (λ p. not (p == winner)) hotspot_host_paths
    else hotspot_host_paths

unfoldable pub ordered_paths : Latches → List String
ordered_paths l = winner_first l.hotspot_subpath_winner l.hotspot_subpath_skip

abbrev pub set_winner : String → Device → Device
set_winner p d = record d { latches = record d.latches { hotspot_subpath_winner = some p } }

abbrev pub skip_path : String → Device → Device
skip_path p d = record d {
  latches = record d.latches { hotspot_subpath_skip = p ∷ d.latches.hotspot_subpath_skip };
}

abbrev Listed : Type 0
Listed = Result (List Fields) × Device

-- One turn of the loop: the last transient error, whether a fetch succeeded, and the turns that follow.
abbrev Turns : Type 0
Turns = Option Error → Bool → Device → Listed

abbrev pub take_items : String → Turns → Option Error → Device → List Fields → Listed
take_items p go last d [] = go last true d
take_items p go last d found = (ok found, set_winner p d)

unfoldable pub settle_fetch : String → Turns → Option Error → Bool → Result Value × Device → Listed
settle_fetch p go last success (ok data_, d) =
    take_items p go last d (nested_dict_items data_ ("hosts" ∷ "host" ∷ "items" ∷ []))
settle_fetch p go last success (err (other_error e), d) = (err (other_error e), d)
settle_fetch p go last success (err e, d) =
    if is_endpoint_missing e then go last success (skip_path p d) else go (some e) success d

abbrev pub no_clients : Option Error → Bool → Device → Listed
no_clients (some e) false d = (err e, d)
no_clients last success d = (ok [], d)

unfoldable pub try_paths : Site → List String → Turns
unfolding settle_fetch
try_paths site [] last success d = no_clients last success d
try_paths site (p ∷ ps) last success d =
    if mem p d.latches.hotspot_subpath_skip
    then try_paths site ps last success d
    else settle_fetch p (try_paths site ps) last success (on_client (rci_get site p none) d)

-- `async_get_clients()`.
unfoldable pub get_clients : Site → Device → Listed
unfolding ordered_paths try_paths
get_clients site d = try_paths site (ordered_paths d.latches) none false d

abbrev rows_or : List Fields → Value → List Fields
rows_or [] data_ = dict_items data_
rows_or rows data_ = rows

-- The table itself, or the wrapping of the command line.
unfoldable pub neighbour_rows : Value → List Fields
neighbour_rows data_ =
    rows_or (nested_dict_items data_ ("neighbour" ∷ "neighbours" ∷ "items" ∷ [])) data_

abbrev is_none : Value → Bool
is_none null = true
is_none v = false

unfoldable pub is_neighbour : Runtime → Fields → Bool
is_neighbour rt n =
    not (normalize_mac rt (get "mac" n) == "")
    && (not (is_none (get "address" n))
        || not (is_none (get "last-seen" n))
        || not (is_none (get "first-seen" n)))

abbrev parsed_rows : Site → Result Value × Client → Result (List Fields) × Client
parsed_rows site (ok data_, c) = (ok (keep (is_neighbour site.runtime) (neighbour_rows data_)), c)
parsed_rows site (err e, c) = (ok [], c)

abbrev settle_rows : Site → List Fields → Client → Result (List Fields) × Client
settle_rows site [] c = parsed_rows site (rci_parse site "show ip neighbour" c)
settle_rows site rows c = (ok (keep (is_neighbour site.runtime) rows), c)

-- `async_get_ip_neighbours()`: what the fallback raises is logged. An `other_error` of a call is the
-- ValueError of a body that is no JSON.
unfoldable pub get_ip_neighbours : Site → Client → Result (List Fields) × Client
unfolding neighbour_rows is_neighbour
get_ip_neighbours site c =
    and_then (rci_get site "show/ip/neighbour" none c)
      (λ data_ c. settle_rows site (neighbour_rows data_) c)

-- `except KeeneticApiError as err: if _is_endpoint_missing(err): return {} ; raise`.
abbrev pub empty_if_missing {ℓ} :
    {A : Type ℓ} → A → (Value → A) → Result Value × Client → Result A × Client
empty_if_missing none_ f (ok v, c) = (ok (f v), c)
empty_if_missing none_ f (err (other_error e), c) = (err (other_error e), c)
empty_if_missing none_ f (err e, c) = if is_endpoint_missing e then (ok none_, c) else (err e, c)

unfoldable pub policies_of : Runtime → Fields → Dict String
policies_of rt end = []
policies_of rt (field policy_id (dict p) fs) =
    (policy_id, rt.print (or_else (get "description" p) (str policy_id))) ∷ policies_of rt fs
policies_of rt (field policy_id v fs) = policies_of rt fs

abbrev policies_in : Runtime → Value → Dict String
policies_in rt (dict fs) = policies_of rt fs
policies_in rt v = []

-- `async_get_policies()`.
unfoldable pub get_policies : Site → Client → Result (Dict String) × Client
unfolding policies_of
get_policies site c =
    empty_if_missing [] (policies_in site.runtime) (rci_get site "ip/policy" none c)

-- The assignment of a host: its policy and its access.
abbrev assignment : Fields → Value × Value
assignment host = (get "policy" host, get "access" host)

unfoldable pub add_hosts : Runtime → List Fields → Dict (Value × Value) → Dict (Value × Value)
add_hosts rt [] found = found
add_hosts rt (host ∷ hosts) found =
    let mac = normalize_mac rt (get "mac" host) in
    add_hosts rt hosts (if mac == "" then found else insert mac (assignment host) found)

abbrev hosts_in : Runtime → Value → Dict (Value × Value)
hosts_in rt data_ = add_hosts rt (nested_dict_items data_ ("host" ∷ "hosts" ∷ [])) []

-- `async_get_host_policies()`.
unfoldable pub get_host_policies : Site → Client → Result (Dict (Value × Value)) × Client
unfolding add_hosts
get_host_policies site c =
    empty_if_missing [] (hosts_in site.runtime) (rci_get site "ip/hotspot/host" none c)
