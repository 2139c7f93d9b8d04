-- ===== src/Examples/Payload.antt =====
-- Payloads of clients, nodes, tunnels and interfaces.
use keenetic_router_pro.Prelude.{
  String, ◌≡◌, [], List, ◌∷◌, lookup, pos, Dict, false, true, ◌&&◌, refl, mem, not,
}
use keenetic_router_pro.Value.{
  Value, bool, int, str, dict, list, cons, nil, Fields, end, field, get, dicts, elements, null,
}
use keenetic_router_pro.Payloads.{index_neighbours, merge_clients_with_neighbours}
use keenetic_router_pro.Payloads.Merge.{IsMerged, merge_clients_with_neighbours-IsMerged}
use keenetic_router_pro.Derived.{build_clients_by_mac}
use keenetic_router_pro.Derived.Index.{AreIndexed, build_clients_by_mac-AreIndexed}
use keenetic_router_pro.Coordinator.Presence.{presence, Presence}
use keenetic_router_pro.Coordinator.Presence.Replay.{replayed, is_online_at, presence-replay}
use keenetic_router_pro.Parsers.Log.{extract_log_entries, walk_value, all_int_ids}
use keenetic_router_pro.Parsers.Log.Newest.{IsFalling, log_entries_newest_first}
use mathlib.Core.List.{Perm}
use keenetic_router_pro.Prelude.{When, ℤ, ℕ, none, Bool, some, if◌then◌else◌, any}
use keenetic_router_pro.Parsers.Ipsec.{
  settle_tunnel, merge_crypto_map_config, is_text, any_installed, ike_up,
}
use keenetic_router_pro.Parsers.Ipsec.Connected.{settle_tunnel-connected}
use keenetic_router_pro.Parsers.Ipsec.Configured.{
  IsMergedWith, configuration, merge_crypto_map_config-IsMergedWith,
}
use keenetic_router_pro.Utils.Devices.{Urls, sanitize_mesh_id, get_crypto_map_device_info}
use keenetic_router_pro.Utils.Devices.Unique.{cmap, key_of, identifier-key_of}
use keenetic_router_pro.Utils.Devices.Tokens.{IsToken, sanitize_mesh_id-IsToken}
use keenetic_router_pro.Diagnostics.{strip_mac_keyed_indexes}
use keenetic_router_pro.Diagnostics.Redacted.{IsStripped, strip_mac_keyed_indexes-IsStripped}
use keenetic_router_pro.Examples.Setting.{plain}

abbrev phone : Value
phone = dict (
    field "mac" (str "AA-BB-CC-DD-EE-01")
      (field "link" (str "up") (field "name" (str "Phone") end)))

abbrev tablet : Value
tablet = dict (field "mac" (str "aa:bb:cc:dd:ee:02") (field "link" (str "down") end))

abbrev arp : Value
arp = dict (
    field "mac" (str "aa:bb:cc:dd:ee:03")
      (field "address" (str "192.168.1.9") (field "address-family" (str "ipv4") end)))

abbrev clients : List Value
clients = phone ∷ tablet ∷ phone ∷ []

abbrev neighbours : Value
neighbours = list (cons arp (cons phone nil))

merge_clients_with_neighbours-IsMerged_example :
    IsMerged plain
      (dicts clients)
      (index_neighbours plain (dicts (elements neighbours)) [])
      (merge_clients_with_neighbours plain clients neighbours)
merge_clients_with_neighbours-IsMerged_example =
    merge_clients_with_neighbours-IsMerged plain clients neighbours

build_clients_by_mac-AreIndexed_example :
    AreIndexed plain (dicts clients) (build_clients_by_mac plain clients)
build_clients_by_mac-AreIndexed_example = build_clients_by_mac-AreIndexed plain clients

abbrev node : Value → Value
node version =
    dict (
      field "cid" (str "n1")
        (field "firmware" (str "4.1") (field "firmware_available" version end)))

-- The phone is online at its address, and the tablet was.
abbrev at_home : Dict Fields
at_home = build_clients_by_mac plain clients

abbrev before_home : List String
before_home = "aa:bb:cc:dd:ee:02" ∷ []

abbrev tick : Presence
tick = presence plain false false at_home before_home before_home

presence-replay_example :
    (mem "aa:bb:cc:dd:ee:01" tick.online ≡ (
      if false
      then mem "aa:bb:cc:dd:ee:01" before_home
      else any
          (is_online_at plain false false at_home before_home before_home "aa:bb:cc:dd:ee:01")
          at_home))
    × (replayed plain false false at_home before_home before_home "aa:bb:cc:dd:ee:01" ≡ (
        if false then mem "aa:bb:cc:dd:ee:01" before_home else mem "aa:bb:cc:dd:ee:01" tick.online))
    × ((mem "aa:bb:cc:dd:ee:01" tick.connected && mem "aa:bb:cc:dd:ee:01" tick.disconnected)
        ≡ false)
    × ((mem "aa:bb:cc:dd:ee:01" tick.connected && mem "aa:bb:cc:dd:ee:01" before_home) ≡ false)
    × ((mem "aa:bb:cc:dd:ee:01" tick.disconnected && not (mem "aa:bb:cc:dd:ee:01" before_home))
        ≡ false)
presence-replay_example =
    presence-replay plain false false at_home before_home before_home "aa:bb:cc:dd:ee:01"

abbrev up_tunnel : Fields
up_tunnel = field "ike_state" (str "ESTABLISHED") (
    field "connected" (bool false) (
      field "phase2_sa_list"
        (list
          (cons (dict (field "sa_state" (str "INSTALLED") (field "in_bytes" (str "100") end))) nil))
        end))

up_tunnel_idle : get "connected" up_tunnel ≡ bool false
unfolding get
up_tunnel_idle = refl

settle_tunnel-connected_example :
    (get "connected" (settle_tunnel plain up_tunnel)
      ≡ bool (
          any_installed plain (dicts (elements (get "phase2_sa_list" up_tunnel)))
          && ike_up up_tunnel))
    × (is_text "PHASE2_ESTABLISHED" (get "state" (settle_tunnel plain up_tunnel)) ≡ (
        any_installed plain (dicts (elements (get "phase2_sa_list" up_tunnel)))
        && ike_up up_tunnel))
settle_tunnel-connected_example = settle_tunnel-connected plain up_tunnel up_tunnel_idle

abbrev maps : Fields
maps =
    field "office" (dict (field "enable" (bool true) (field "set-peer" (str "203.0.113.7") end)))
      (field "cottage" (dict (field "enable" (bool false) end)) end)

merge_crypto_map_config-IsMergedWith_example :
    IsMergedWith
      (configuration "cottage" maps)
      (lookup "cottage" (("office", up_tunnel) ∷ []))
      (lookup "cottage" (merge_crypto_map_config plain (("office", up_tunnel) ∷ []) (dict maps)))
merge_crypto_map_config-IsMergedWith_example =
    merge_crypto_map_config-IsMergedWith plain (("office", up_tunnel) ∷ []) maps "cottage"

-- Two records of the log, the older one first.
abbrev record_of : ℤ → Value
record_of z = dict (
    field "id" (int z) (
      field "timestamp" (str "Mar 1 10:00:00")
        (field "message" (dict (field "message" (str "IpSec") end)) end)))

abbrev log_payload : Value
log_payload = dict (field "1" (record_of (pos 1)) (field "2" (record_of (pos 2)) end))

log_entries_newest_first_example :
    Perm (extract_log_entries log_payload) (walk_value log_payload)
    × When (all_int_ids (walk_value log_payload)) (IsFalling (extract_log_entries log_payload))
    × When
        (not (all_int_ids (walk_value log_payload)))
        (extract_log_entries log_payload ≡ walk_value log_payload)
log_entries_newest_first_example = log_entries_newest_first log_payload

abbrev no_urls : Urls
no_urls = record { urlsplit = λ text. none; urlunsplit = λ scheme netloc. netloc }

abbrev no_letters : ℕ → Bool
no_letters c = false

identifier-key_of_example :
    key_of plain no_urls no_letters "Router" "entry" (cmap "office" none none)
    ≡ key_of plain no_urls no_letters "Router" "entry" (cmap "office" (some "10.0.0.1") none)
unfolding get_crypto_map_device_info
identifier-key_of_example =
    identifier-key_of plain no_urls no_letters "Router" "entry" (cmap "office" none none)
      (cmap "office" (some "10.0.0.1") none) refl

sanitize_mesh_id-IsToken_example : IsToken no_letters (sanitize_mesh_id no_letters "50:FF-20/ x")
sanitize_mesh_id-IsToken_example = sanitize_mesh_id-IsToken no_letters "50:FF-20/ x"

abbrev dumped : Fields
dumped = field "clients_by_mac" (dict (field "50:ff:20:00:11:22" null end)) (
    field "new_clients" (list (cons (str "50:ff:20:00:11:22") nil))
      (field "mesh_nodes" (list (cons (dict (field "id" (str "50:ff:20:00:11:22") end)) nil)) end))

strip_mac_keyed_indexes-IsStripped_example :
    IsStripped plain dumped (strip_mac_keyed_indexes plain dumped)
strip_mac_keyed_indexes-IsStripped_example = strip_mac_keyed_indexes-IsStripped plain dumped
