-- ===== src/Domains/Counters.antt =====
-- api/domains/network.py: the counters of the interfaces. The ids of interfaces are texts.
pub mod Named
pub mod Positions
use keenetic_router_pro.Prelude.{
  String, List, [], ◌∷◌, true, false, Option, some, none, Bool, ℕ, leb, not, mem, Dict, length,
  keep, map, insert, if◌then◌else◌, is_some, ◌||◌, lookup, ◌&&◌,
}
use keenetic_router_pro.Value.{
  Value, null, dict, list, str, Items, nil, cons, Fields, end, field, get, get_or, has, put,
  or_else, truthy, value_eq, items, Runtime,
}
use keenetic_router_pro.Text.{lower, ◌<>◌}
use keenetic_router_pro.Refresh.{is_true, is_false}
use keenetic_router_pro.Transport.Http.{Site, Client, Result, Error, ok, err, other_error}
use keenetic_router_pro.Transport.Calls.{rci_get}
use keenetic_router_pro.Transport.Batch.{rci_batch}
use keenetic_router_pro.Transport.Commands.{rci_parse}
use keenetic_router_pro.Domains.{Device, and_then, checked, on_client, validate_cli_arg, eqb}

abbrev has_stats : Value → Bool
has_stats (dict fs) = has "rxbytes" fs || has "txbytes" fs || has "rxspeed" fs || has "txspeed" fs
has_stats v = false

abbrev latch_get_only : Device → Device
latch_get_only d = record d { latches = record d.latches { iface_stat_get_only = some true } }

abbrev is_content : Value → Bool
is_content (dict (field k v fs)) = true
is_content v = false

abbrev settle_get : Result Value × Device → Result Value × Device
settle_get (ok v, d) = (ok (or_else v (dict end)), if is_content v then latch_get_only d else d)
settle_get (err e, d) = (err e, d)

unfoldable pub get_stat : Site → String → Device → Result Value × Device
get_stat site name d =
    settle_get
      (on_client (rci_get site "show/interface/stat" (some (field "name" (str name) end))) d)

-- The command's result, where it has counters; whatever it raises is logged.
abbrev or_get : Site → String → Result Value × Device → Result Value × Device
or_get site name (ok v, d) = if has_stats v then (ok v, d) else get_stat site name d
or_get site name (err e, d) = get_stat site name d

-- `async_get_interface_stat(name)`.
unfoldable pub get_interface_stat : Site → String → Device → Result Value × Device
unfolding get_stat
get_interface_stat site name d =
    checked (validate_cli_arg (some name) "interface name") d (λ safe_name.
      if is_true d.latches.iface_stat_get_only
      then get_stat site safe_name d
      else or_get site safe_name
          (on_client (rci_parse site ("show interface " <> (safe_name <> " stat"))) d))

pub record Target : Type 0 where
  pub name : String
  pub iface_type : String
  pub link : Value
  pub state : Value

-- The ids of the uplinks.
unfoldable pub wan_ids : Runtime → List Fields → List String
wan_ids rt [] = []
wan_ids rt (wan ∷ wans) =
    let later = wan_ids rt wans in
    if truthy (get "id" wan) then rt.print (get "id" wan) ∷ later else later

unfoldable pub targets_of : Runtime → List String → List Fields → List Target
targets_of rt ids [] = []
targets_of rt ids (iface ∷ rest) =
    let later = targets_of rt ids rest in
    let iface_name = or_else (get "id" iface) (get "interface-name" iface) in
    let iface_type = lower (rt.print (or_else (get "type" iface) (str ""))) in
    if not (truthy iface_name)
      || (not (mem (rt.print iface_name) ids)
          && mem iface_type ("bridge" ∷ "vlan" ∷ "accesspoint" ∷ []))
    then later
    else record {
      name = rt.print iface_name;
      iface_type = iface_type;
      link = get "link" iface;
      state = get "state" iface;
    }
      ∷ later

abbrev is_error_status : Value → Bool
is_error_status (dict fs) = value_eq (get "status" fs) (str "error")
is_error_status v = false

abbrev starts_with_error : Value → Bool
starts_with_error (list (cons first rest)) = is_error_status first
starts_with_error v = false

-- `_is_stat_error_record(stat)`.
unfoldable pub is_stat_error_record : Value → Bool
is_stat_error_record (dict (field k v fs)) = starts_with_error (get "status" (field k v fs))
is_stat_error_record v = true

unfoldable pub names_of : List Target → Items
names_of [] = nil
names_of (t ∷ ts) = cons (dict (field "name" (str t.name) end)) (names_of ts)

-- The composite request for the counters of the targets.
abbrev stat_tree : List Target → Fields
stat_tree ts =
    field "show" (dict (field "interface" (dict (field "stat" (list (names_of ts)) end)) end)) end

-- Clean records by position; a record that is missing or in error is left to the calls one by one.
unfoldable pub zip_stats : List Target → List Value → Dict Value → Dict Value
unfolding is_stat_error_record
zip_stats (t ∷ ts) (stat ∷ stats) found =
    zip_stats ts stats (if is_stat_error_record stat then found else insert t.name stat found)
zip_stats ts stats found = found

-- `.get(key, {})` of a dict; another value has no `get`.
abbrev below : String → Value → Result Value
below key (dict fs) = ok (get_or key (dict end) fs)
below key v = err (other_error "AttributeError")

abbrev positions : List Target → Value → Option (Dict Value)
positions ts (list stats) =
    if eqb (length (items stats)) (length ts) then some (zip_stats ts (items stats) []) else none
positions ts v = none

abbrev stats_in : List Target → Value → Result (Option (Dict Value))
stats_in ts (dict interface) = ok (positions ts (get "stat" interface))
stats_in ts v = err (other_error "AttributeError")

abbrev bind : {A B : Type 0} → Result A → (A → Result B) → Result B
bind (ok a) f = f a
bind (err e) f = err e

abbrev read_batch : List Target → Option Fields → Result (Option (Dict Value))
read_batch ts none = ok none
read_batch ts (some fs) =
    bind (below "show" (dict fs))
      (λ show. bind (below "interface" show) (λ interface. stats_in ts interface))

-- `_try_batch_interface_stats(targets)`.
unfoldable pub try_batch_interface_stats :
    Site → List Target → Client → Result (Option (Dict Value)) × Client
unfolding names_of zip_stats
try_batch_interface_stats site ts c =
    and_then (rci_batch site (stat_tree ts) c) (λ answer c. (read_batch ts answer, c))

abbrev or_empty : Option (Dict Value) → Dict Value
or_empty none = []
or_empty (some found) = found

-- The composite request is tried for two or more targets, unless the router refused it before.
abbrev batch_stats : Site → List Target → Device → Result (Dict Value) × Device
batch_stats site ts d =
    if not (is_false d.client.rci_batch_supported) && leb 2 (length ts)
    then and_then (on_client (try_batch_interface_stats site ts) d)
        (λ found d. (ok (or_empty found), d))
    else (ok [], d)

-- What fails for one interface is logged.
abbrev keep_stat : String → Dict Value → Result Value × Device → Dict Value × Device
keep_stat name found (ok v, d) = (if is_content v then insert name v found else found, d)
keep_stat name found (err e, d) = (found, d)

-- The calls one by one, in the order of the targets.
unfoldable pub fetch_missing : Site → List Target → Dict Value → Device → Dict Value × Device
fetch_missing site [] found d = (found, d)
fetch_missing site (t ∷ ts) found d =
    let out = keep_stat t.name found (get_interface_stat site t.name d) in
    fetch_missing site ts out.0 out.1

abbrev is_missing : Dict Value → Target → Bool
is_missing found t = not (is_some (lookup t.name found))

-- The record of a target that has counters.
abbrev pub named : Target → Fields → Fields
named t stats = put "state" t.state (
    put "link" t.link
      (put "interface_type" (str t.iface_type) (put "interface_name" (str t.name) stats)))

abbrev pub add_stats : Target → Option Value → Dict Fields → Dict Fields
add_stats t (some (dict (field k v fs))) found = insert t.name (named t (field k v fs)) found
add_stats t stats found = found

unfoldable pub all_stats : List Target → Dict Value → Dict Fields → Dict Fields
all_stats [] raw_stats found = found
all_stats (t ∷ ts) raw_stats found =
    all_stats ts raw_stats (add_stats t (lookup t.name raw_stats) found)

-- `async_get_all_interface_stats(iface_list=..., wan_interfaces=...)`.
unfoldable pub get_all_interface_stats :
    Site → List Fields → List Fields → Device → Result (Dict Fields) × Device
unfolding all_stats fetch_missing targets_of wan_ids
get_all_interface_stats site iface_list wan_interfaces d =
    let ts = targets_of site.runtime (wan_ids site.runtime wan_interfaces) iface_list in
    and_then (batch_stats site ts d) (λ found d.
      let out = fetch_missing site (keep (is_missing found) ts) found d in
      (ok (all_stats ts out.0 []), out.1))
