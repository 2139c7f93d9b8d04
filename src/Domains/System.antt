-- ===== src/Domains/System.antt =====
-- api/domains/system.py: the router's state and its capability latches after a reboot; and
-- the reset of the latches in api/transport.py.
pub mod Boot
use keenetic_router_pro.Prelude.{
  String, List, [], ◌∷◌, true, false, Option, some, none, Bool, ℤ, pos, ltb_ℤ, if◌then◌else◌, ◌||◌,
  ◌&&◌,
}
use keenetic_router_pro.Value.{
  Value, null, dict, list, str, bool, int, Items, nil, cons, Fields, end, field, get, get_or, has,
  put, or_else, truthy, value_eq,
}
use keenetic_router_pro.Utils.Coerce.{coerce_int, coerce_bool, coerce_int_or_zero}
use keenetic_router_pro.Refresh.{Latches, is_false}
use keenetic_router_pro.Transport.Http.{Site, Client, Result, ok, err}
use keenetic_router_pro.Transport.Header.{is_endpoint_missing}
use keenetic_router_pro.Transport.Calls.{rci_get}
use keenetic_router_pro.Domains.{Device, and_then, on_client, not}

abbrev pub unknown : Latches
unknown = record {
  mws_member_supported = none;
  crypto_map_supported = none;
  dns_proxy_supported = none;
  ping_check_supported = none;
  ndns_supported = none;
  ipsec_diagnostics_supported = none;
  hotspot_subpath_skip = [];
  hotspot_subpath_winner = none;
  iface_stat_get_only = none;
}

-- `reset_capability_caches()`.
unfoldable pub reset_capability_caches : Device → Device
reset_capability_caches d = record d {
  latches = unknown;
  client = record d.client { rci_batch_supported = none };
}

abbrev pub capability_boot_grace_s : ℤ
capability_boot_grace_s = pos 600

abbrev pub went_back : Option ℤ → ℤ → Bool
went_back none uptime = false
went_back (some previous) uptime = ltb_ℤ uptime previous

abbrev pub see_uptime : Option ℤ → Device → Device
see_uptime none d = d
see_uptime (some uptime) d =
    let seen = record d { last_seen_uptime = some uptime } in
    if went_back d.last_seen_uptime uptime || ltb_ℤ uptime capability_boot_grace_s
    then reset_capability_caches seen
    else seen

-- `_reprobe_capabilities_after_boot(raw_uptime)`: no uptime, and one that is no number, tell nothing. An
-- infinite float, which `int` refuses by an OverflowError, is taken as no number.
unfoldable pub reprobe_capabilities_after_boot : Value → Device → Device
unfolding reset_capability_caches
reprobe_capabilities_after_boot raw_uptime d = see_uptime (coerce_int raw_uptime none) d

abbrev read_system : Value → Device → Result Fields × Device
read_system (dict fs) d = (ok fs, reprobe_capabilities_after_boot (get "uptime" fs) d)
read_system v d = (ok end, d)

-- `async_get_system_info()`.
unfoldable pub get_system_info : Site → Device → Result Fields × Device
unfolding reprobe_capabilities_after_boot
get_system_info site d = and_then (on_client (rci_get site "show/system" none) d) read_system

abbrev pub is_none : Value → Bool
is_none null = true
is_none v = false

unfoldable pub see_version : Value → Device → Device
unfolding reset_capability_caches
see_version identity d =
    if not (truthy identity)
    then d
    else if not (is_none d.last_seen_fw_version) && not (value_eq d.last_seen_fw_version identity)
    then record (reset_capability_caches d) { last_seen_fw_version = identity }
    else record d { last_seen_fw_version = identity }

abbrev read_version : Value → Device → Result Fields × Device
read_version (dict fs) d = (ok fs, see_version (or_else (get "release" fs) (get "title" fs)) d)
read_version v d = (ok end, d)

-- `async_get_current_version_info()`.
unfoldable pub get_current_version_info : Site → Device → Result Fields × Device
unfolding see_version
get_current_version_info site d =
    and_then (on_client (rci_get site "show/version" none) d) read_version

abbrev pub dict_or_end : Value → Fields
dict_or_end (dict fs) = fs
dict_or_end v = end

-- `async_get_available_version_info()`.
unfoldable pub get_available_version_info : Site → Client → Result Fields × Client
get_available_version_info site c =
    and_then (rci_get site "components/check-update" none c) (λ v c. (ok (dict_or_end v), c))

-- What `async_get_update_progress` returns: nothing where no update runs or the call fails.
abbrev progress_of : Value → Fields
progress_of (dict end) = end
progress_of (dict fs) =
    field "in_progress" (bool (coerce_bool (get_or "in-progress" (bool false) fs))) (
      field "progress_percent" (int (coerce_int_or_zero (get_or "progress" (int (pos 0)) fs)))
        (field "stage" (get "stage" fs) (field "eta_seconds" (get "eta" fs) end)))
progress_of v = end

-- Every exception of the call is logged, and the default is returned.
abbrev pub or_default {ℓ} :
    {A : Type ℓ} → A → (Value → A) → Result Value × Client → Result A × Client
or_default none_ f (ok v, c) = (ok (f v), c)
or_default none_ f (err e, c) = (ok none_, c)

-- `async_get_update_progress()`.
unfoldable pub get_update_progress : Site → Client → Result Fields × Client
get_update_progress site c = or_default end progress_of (rci_get site "system/update/status" none c)

-- `tunnel[key] = int(tunnel[key])`, where that is a number; an infinite float counts as none.
abbrev put_int : String → Option ℤ → Fields → Fields
put_int key none tunnel = tunnel
put_int key (some z) tunnel = put key (int z) tunnel

unfoldable pub coerce_key : String → Fields → Fields
coerce_key key tunnel = put_int key (coerce_int (get key tunnel) none) tunnel

abbrev coerce_tunnel : Fields → Fields
coerce_tunnel tunnel =
    coerce_key "linger" (coerce_key "timeout" (coerce_key "idle" (coerce_key "uptime" tunnel)))

unfoldable pub coerce_tunnels : Items → Items
unfolding coerce_key
coerce_tunnels nil = nil
coerce_tunnels (cons (dict tunnel) rest) = cons (dict (coerce_tunnel tunnel)) (coerce_tunnels rest)
coerce_tunnels (cons v rest) = coerce_tunnels rest

abbrev coerce_ttp : Value → Fields → Fields
coerce_ttp (list tunnels) ttp = put "tunnel" (list (coerce_tunnels tunnels)) ttp
coerce_ttp (dict tunnel) ttp = put "tunnel" (dict (coerce_tunnel tunnel)) ttp
coerce_ttp v ttp = ttp

abbrev coerce_info : Value → Fields → Fields
coerce_info (dict ttp) info = put "ttp" (dict (coerce_ttp (get "tunnel" ttp) ttp)) info
coerce_info v info = info

unfoldable pub ndns_of : Value → Fields
unfolding coerce_tunnels coerce_key
ndns_of (dict info) = coerce_info (get "ttp" info) info
ndns_of v = end

abbrev latch_ndns : Bool → Device → Device
latch_ndns b d = record d { latches = record d.latches { ndns_supported = some b } }

abbrev settle_ndns : Result Value × Device → Result Fields × Device
settle_ndns (ok v, d) = if truthy v then (ok (ndns_of v), latch_ndns true d) else (ok end, d)
settle_ndns (err e, d) = (ok end, if is_endpoint_missing e then latch_ndns false d else d)

-- `async_get_ndns_info()`.
unfoldable pub get_ndns_info : Site → Device → Result Fields × Device
unfolding ndns_of
get_ndns_info site d =
    if is_false d.latches.ndns_supported
    then (ok end, d)
    else settle_ndns (on_client (rci_get site "show/ndns" none) d)
