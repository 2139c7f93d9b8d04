-- ===== src/Domains/Vpn.antt =====
-- api/domains/vpn.py: the VPN interfaces and the IPsec tunnels. Types and traits are texts: another value
-- would raise.
pub mod Reads
use keenetic_router_pro.Prelude.{
  String, List, [], ◌∷◌, ◌++◌, true, false, Option, some, none, Bool, ℤ, pos, ◌+ℤ◌, Dict, insert,
  mem, if◌then◌else◌, ◌&&◌, ◌==◌, ◌||◌,
}
use keenetic_router_pro.Value.{
  Value, null, dict, list, str, bool, int, Items, nil, cons, Fields, end, field, get, get_or,
  or_else, truthy, is_blank, Runtime,
}
use keenetic_router_pro.Text.{lower, includes, join}
use keenetic_router_pro.Utils.Clients.{first_present, usable_ip}
use keenetic_router_pro.Utils.Coerce.{coerce_byte_count, coerce_bool, coerce_int_or_zero}
use keenetic_router_pro.Parsers.Helpers.{as_list}
use keenetic_router_pro.Parsers.Ipsec.{clean_str}
use keenetic_router_pro.Refresh.{is_false}
use keenetic_router_pro.Transport.Http.{Site, Client, Result, Error, ok, err}
use keenetic_router_pro.Transport.Header.{is_endpoint_missing}
use keenetic_router_pro.Transport.Calls.{rci_get}
use keenetic_router_pro.Domains.{Device, and_then, on_client, not}
use keenetic_router_pro.Domains.Wan.{lower_at, interfaces_or}

abbrev dict_or_end : Value → Fields
dict_or_end (dict fs) = fs
dict_or_end v = end

module _ (rt : Runtime) where
  unfoldable pub lower_texts : Items → List String
  lower_texts nil = []
  lower_texts (cons (str t) rest) = lower t ∷ lower_texts rest
  lower_texts (cons v rest) = lower_texts rest

  abbrev traits_of : Value → List String
  traits_of (list xs) = lower_texts xs
  traits_of v = []

  unfoldable pub is_wireguard : Fields → Bool
  unfolding lower_texts
  is_wireguard item =
      lower_at rt "type" item == "wireguard"
      || includes "wireguard" (join "" (traits_of (get "traits" item)))

  -- `sum(nums) if nums else first.get(key)`, over the counters that can be read.
  unfoldable pub add_counters : String → Items → Option ℤ
  add_counters key nil = none
  add_counters key (cons (dict p) rest) =
      let later = add_counters key rest in
      elim (coerce_byte_count rt (get key p)) [
        | none ↦ later
        | some n ↦ elim later [ none ↦ some n | some m ↦ some (n +ℤ m) ]
      ]
  add_counters key (cons v rest) = add_counters key rest

  -- The first peer of the list.
  unfoldable pub first_peer : Items → Fields
  first_peer nil = end
  first_peer (cons (dict p) rest) = p
  first_peer (cons v rest) = first_peer rest

  abbrev sum_or_first : Option ℤ → Value → Value
  sum_or_first none v = v
  sum_or_first (some n) v = int n

  abbrev known_or : Value → Value → Value
  known_or null later = later
  known_or v later = v

  abbrev peer_counter : String → Value → Value
  peer_counter key (list peers) = sum_or_first (add_counters key peers) (get key (first_peer peers))
  peer_counter key (dict peer) = get key peer
  peer_counter key v = null

  abbrev remote_of : Value → Value
  remote_of (list peers) = get "remote-endpoint-address" (first_peer peers)
  remote_of (dict peer) = get "remote-endpoint-address" peer
  remote_of v = null

  -- The counter of the interface, or the sum over its peers where it has none.
  unfoldable pub wg_counter : String → Fields → Value
  unfolding add_counters first_peer
  wg_counter key item =
      let wg_info = dict_or_end (get "wireguard" item) in
      known_or (first_present wg_info (key ∷ []))
        (known_or (first_present item (key ∷ [])) (peer_counter key (get "peer" wg_info)))

  unfoldable pub profile_of : Fields → Value → Fields
  unfolding wg_counter first_peer
  profile_of item name =
      let rx = wg_counter "rxbytes" item in
      let tx = wg_counter "txbytes" item in
      field "label" (or_else (get "description" item) name) (
        field "enabled" (bool (lower (rt.print (get_or "state" (str "") item)) == "up")) (
          field "state" (get "state" item) (
            field "address" (get "address" item) (
              field "remote" (remote_of (get "peer" (dict_or_end (get "wireguard" item)))) (
                field "uptime" (get "uptime" item)
                  (field "rx" rx (field "tx" tx (field "rxbytes" rx (field "txbytes" tx end)))))))))

  abbrev name_of : Fields → Value
  name_of item =
      or_else (get "id" item)
        (or_else (get "interface-name" item) (or_else (get "name" item) (get "ifname" item)))

  -- The profiles by name; a name that is no text is used as its text.
  unfoldable pub wireguard_profiles : List Fields → Dict Fields → Dict Fields
  unfolding is_wireguard profile_of
  wireguard_profiles [] found = found
  wireguard_profiles (item ∷ rest) found = wireguard_profiles rest (
      if truthy (name_of item) && is_wireguard item
      then insert (rt.print (name_of item)) (profile_of item (name_of item)) found
      else found)

  abbrev vpn_types : List String
  vpn_types = "wireguard" ∷ "openvpn" ∷ "ipsec" ∷ "l2tp" ∷ "pptp" ∷ "sstp" ∷ "zerotier" ∷ "tor" ∷ []

  abbrev conf_of : Fields → String
  conf_of item = lower_at rt "conf" (dict_or_end (get "layer" (dict_or_end (get "summary" item))))

  unfoldable pub vpn_profile : Fields → Value → Fields
  vpn_profile item iface_id = field "id" iface_id (
      field "type" (or_else (get "type" item) (str (lower_at rt "type" item))) (
        field "label"
          (str (
            rt.print
              (or_else (get "description" item) (or_else (get "interface-name" item) iface_id))))
          (field "enabled"
            (bool (not (conf_of item == "disabled" || lower_at rt "state" item == "down")))
            (field "state" (get "state" item) end))))

  abbrev vpn_id : Fields → Value
  vpn_id item = or_else (get "id" item) (or_else (get "interface-name" item) (get "name" item))

  unfoldable pub vpn_profiles : List Fields → Dict Fields → Dict Fields
  unfolding vpn_profile
  vpn_profiles [] found = found
  vpn_profiles (item ∷ rest) found = vpn_profiles rest (
      if mem (lower_at rt "type" item) vpn_types && truthy (vpn_id item)
      then insert (rt.print (vpn_id item)) (vpn_profile item (vpn_id item)) found
      else found)

-- `async_get_wireguard_status(iface_list=...)`.
unfoldable pub get_wireguard_status :
    Site → Option (List Fields) → Client → Result (Dict Fields) × Client
unfolding wireguard_profiles
get_wireguard_status site iface_list c =
    interfaces_or site iface_list (λ items. wireguard_profiles site.runtime items []) c

-- `async_get_vpn_tunnels(iface_list=...)`.
unfoldable pub get_vpn_tunnels :
    Site → Option (List Fields) → Client → Result (Dict Fields) × Client
unfolding vpn_profiles
get_vpn_tunnels site iface_list c =
    interfaces_or site iface_list (λ items. vpn_profiles site.runtime items []) c

-- `_crypto_map_config_entries(data)`.
unfoldable pub crypto_map_config_entries : Fields → Dict Fields
crypto_map_config_entries end = []
crypto_map_config_entries (field name (dict cfg) rest) =
    (name, cfg) ∷ crypto_map_config_entries rest
crypto_map_config_entries (field name v rest) = crypto_map_config_entries rest

abbrev settle_config : Result Value × Client → Result (Dict Fields) × Client
settle_config (ok v, c) = (ok (crypto_map_config_entries (dict_or_end v)), c)
settle_config (err e, c) = (ok [], c)

-- `async_get_crypto_map_config()`.
unfoldable pub get_crypto_map_config : Site → Client → Result (Dict Fields) × Client
unfolding crypto_map_config_entries
get_crypto_map_config site c = settle_config (rci_get site "crypto/map" none c)

abbrev pub latch_crypto : Bool → Device → Device
latch_crypto b d = record d { latches = record d.latches { crypto_map_supported = some b } }

abbrev pub missing : Result Value → Bool
missing (ok v) = false
missing (err e) = is_endpoint_missing e

abbrev pub transient : Result Value → Option Error
transient (ok v) = none
transient (err e) = if is_endpoint_missing e then none else some e

-- What the two reads come to: nothing where the router has no IPsec, or both payloads, of which one may be
-- missing.
abbrev both :
    Option Error
    → Option Error
    → Result Value
    → Result Value
    → Device
    → Result (Option (Result Value × Result Value)) × Device
both (some e) other status config d = (err e, d)
both none (some e) status config d = (err e, d)
both none none status config d = (ok (some (status, config)), latch_crypto true d)

unfoldable pub settle_reads :
    Result Value → Result Value → Device → Result (Option (Result Value × Result Value)) × Device
settle_reads status config d =
    if missing status && missing config
    then (ok none, latch_crypto false d)
    else both (transient status) (transient config) status config d

-- The reads of `async_get_ipsec_status()`, the first and then the second; what becomes of the payloads is
-- the work of the parsers.
unfoldable pub read_ipsec_status :
    Site → Device → Result (Option (Result Value × Result Value)) × Device
unfolding settle_reads
read_ipsec_status site d =
    if is_false d.latches.crypto_map_supported
    then (ok none, d)
    else let status = on_client (rci_get site "show/ipsec" none) d in
      let config = on_client (rci_get site "crypto/map" none) status.1 in
      settle_reads status.0 config.0 config.1

abbrev pub opt_text : Option String → Value
opt_text none = null
opt_text (some s) = str s

-- The total of a counter over the associations.
unfoldable pub total_at : String → List Value → ℤ
total_at key [] = pos 0
total_at key (sa ∷ rest) =
    let later = total_at key rest in
    elim sa [ dict fs ↦ coerce_int_or_zero (get key fs) +ℤ later | _ ↦ later ]

abbrev content_or_null : Value → Value
content_or_null (dict fs) = dict fs
content_or_null v = null

unfoldable pub listed : List Value → Items
listed [] = nil
listed (v ∷ vs) = cons v (listed vs)

module _ (rt : Runtime) where
  abbrev clean : String → Fields → Option String
  clean key fs = clean_str rt (get key fs)

  abbrev or_text : Option String → Option String → Option String
  or_text none later = later
  or_text (some s) later = some s

  -- The IKE state of the first phase, or the one of the status.
  unfoldable pub ike_state : Fields → Option String
  ike_state status =
      or_text (clean "ike_state" (dict_or_end (get "phase1" status))) (clean "ike_state" status)

  abbrev is_established : Option String → Bool
  is_established none = false
  is_established (some s) = s == "PHASE2_ESTABLISHED"

  abbrev sas_of : Fields → List Value
  sas_of status = as_list (get "phase2_sa" (dict_or_end (get "phase2_sa_list" status)))

  unfoldable pub crypto_map_of : String → Fields → Fields → Fields
  unfolding ike_state total_at listed
  crypto_map_of name config status =
      let state = clean "state" status in
      let sas = sas_of status in
      field "name" (str name) (
        field "enabled" (bool (coerce_bool (get "enabled" config))) (
          field "remote_peer" (opt_text (clean "remote_peer" config)) (
            field "mode" (opt_text (clean "mode" config)) (
              field "ipsec_profile_name" (opt_text (clean "crypto_ipsec_profile_name" config)) (
                field "state" (opt_text state) (
                  field "ike_state" (opt_text (ike_state status)) (
                    field "connected" (bool (is_established state)) (
                      field "via" (opt_text (clean "via" status)) (
                        field "local_endpoint"
                          (opt_text (usable_ip rt (get "local-endpoint-address" status)))
                          (field "remote_endpoint"
                            (opt_text (usable_ip rt (get "remote-endpoint-address" status)))
                            (field "rx_bytes" (int (total_at "in_bytes" sas)) (
                              field "tx_bytes" (int (total_at "out_bytes" sas)) (
                                field "rx_packets" (int (total_at "in_packets" sas)) (
                                  field "tx_packets" (int (total_at "out_packets" sas)) (
                                    field "phase1" (content_or_null (get "phase1" status)) (
                                      field "phase2_sa_list" (list (listed sas)) (
                                        field "raw_config" (dict config)
                                          (field "raw_status" (dict status) end))))))))))))))))))

  unfoldable pub crypto_maps_of : Fields → Dict Fields
  unfolding crypto_map_of
  crypto_maps_of end = []
  crypto_maps_of (field name (dict entry) rest) =
      (
        name,
        crypto_map_of name (dict_or_end (get "config" entry)) (dict_or_end (get "status" entry)),
      )
      ∷ crypto_maps_of rest
  crypto_maps_of (field name v rest) = crypto_maps_of rest

  abbrev crypto_maps_in : Value → Dict Fields
  crypto_maps_in (dict fs) = crypto_maps_of (dict_or_end (get "crypto_map" fs))
  crypto_maps_in v = []

abbrev settle_maps : Site → Result Value × Device → Result (Dict Fields) × Device
settle_maps site (ok v, d) = (ok (crypto_maps_in site.runtime v), latch_crypto true d)
settle_maps site (err e, d) = (ok [], if is_endpoint_missing e then latch_crypto false d else d)

-- `async_get_crypto_maps()`.
unfoldable pub get_crypto_maps : Site → Device → Result (Dict Fields) × Device
unfolding crypto_maps_of
get_crypto_maps site d =
    if is_false d.latches.crypto_map_supported
    then (ok [], d)
    else settle_maps site (on_client (rci_get site "show/crypto/map" none) d)
