-- ===== src/Parsers/Ipsec.antt =====
-- api/parsers/ipsec.py: the totals and the state of a tunnel, and the merge of the configured tunnels into
-- those of the status dump. The dump's own line formats are regular expressions and are not modelled.
pub mod Connected
pub mod Configured
use keenetic_router_pro.Prelude.{
  String, true, Option, List, Dict, Bool, none, ◌||◌, ◌==◌, false, insert, some, ℤ, if◌then◌else◌,
  lookup, ◌&&◌, ◌∷◌, pos, ◌+ℤ◌, [],
}
use keenetic_router_pro.Text.{strip, lower, upper}
use keenetic_router_pro.Value.{
  Value, null, bool, int, str, dict, list, nil, Fields, end, field, get, get_or, put, truthy,
  or_else, Runtime, dicts, elements,
}
use keenetic_router_pro.Utils.Coerce.{coerce_bool, coerce_int_or_zero}

-- `_default_tunnel(name)`.
unfoldable pub default_tunnel : String → Fields
default_tunnel name = field "name" (str name) (
    field "enabled" (bool true) (
      field "remote_peer" null (
        field "mode" null (
          field "ipsec_profile_name" (str name) (
            field "state" (str "UNDEFINED") (
              field "ike_state" (str "UNDEFINED") (
                field "connected" (bool false) (
                  field "via" null (
                    field "local_endpoint" null (
                      field "remote_endpoint" null (
                        field "rx_bytes" (int (pos 0)) (
                          field "tx_bytes" (int (pos 0)) (
                            field "rx_packets" (int (pos 0)) (
                              field "tx_packets" (int (pos 0)) (
                                field "phase1" null (
                                  field "phase2_sa_list" (list nil) (
                                    field "raw_config" (dict end)
                                      (field "raw_status" (dict end) end))))))))))))))))))

-- `sum` of a counter over the phase 2 associations.
unfoldable pub total_of : String → List Fields → ℤ
total_of key [] = pos 0
total_of key (sa ∷ sas) = coerce_int_or_zero (get key sa) +ℤ total_of key sas

module _ (rt : Runtime) where
  unfoldable pub any_installed : List Fields → Bool
  any_installed [] = false
  any_installed (sa ∷ sas) =
      (upper (rt.print (get_or "sa_state" (str "") sa)) == "INSTALLED") || any_installed sas

-- `value == text`.
abbrev pub is_text : String → Value → Bool
is_text t (str s) = s == t
is_text t v = false

abbrev pub ike_up : Fields → Bool
ike_up tunnel =
    is_text "ESTABLISHED" (get "ike_state" tunnel) || is_text "REKEYING" (get "ike_state" tunnel)

abbrev counted : List Fields → Fields → Fields
counted sas tunnel = put "tx_packets" (int (total_of "out_packets" sas)) (
    put "rx_packets" (int (total_of "in_packets" sas)) (
      put "tx_bytes" (int (total_of "out_bytes" sas))
        (put "rx_bytes" (int (total_of "in_bytes" sas)) tunnel)))

-- The round of the last loop of `parse_ipsec_statusall`: the totals, and the state of the tunnel.
unfoldable pub state_of : Bool → Fields → Value
state_of installed tunnel =
    if installed && ike_up tunnel
    then str "PHASE2_ESTABLISHED"
    else if ike_up tunnel
    then (if is_text "REKEYING" (get "ike_state" tunnel)
        then get "ike_state" tunnel
        else str "PHASE1_ONLY")
    else if is_text "CONNECTING" (get "ike_state" tunnel)
    then get "ike_state" tunnel
    else str "UNDEFINED"

unfoldable pub settle_state : Bool → Fields → Fields
settle_state installed tunnel =
    let t = put "state" (state_of installed tunnel) tunnel in
    if installed && ike_up tunnel then put "connected" (bool true) t else t

unfoldable pub settle_tunnel : Runtime → Fields → Fields
settle_tunnel rt tunnel =
    let sas = dicts (elements (get "phase2_sa_list" tunnel)) in
    settle_state (any_installed rt sas) (counted sas tunnel)

-- `_clean_str(value)` of api/helpers.py.
unfoldable pub clean_str : Runtime → Value → Option String
clean_str rt null = none
clean_str rt v = let text = strip (rt.print v) in if text == "" then none else some text

abbrev named_peer : Option String → Option String
named_peer none = none
named_peer (some peer) = if lower peer == "any" then none else some peer

abbrev peer_of : Runtime → Value → Option String
peer_of rt (dict fs) = clean_str rt (or_else (get "remote-ip" fs) (get "peer" fs))
peer_of rt v = clean_str rt v

-- `_crypto_map_config_peer(cfg)`.
unfoldable pub crypto_map_config_peer : Runtime → Fields → Option String
crypto_map_config_peer rt cfg = named_peer (peer_of rt (get "set-peer" cfg))

abbrev peer_value : Option String → Value
peer_value none = null
peer_value (some p) = str p

abbrev add_peer : Option String → Fields → Fields
add_peer none tunnel = tunnel
add_peer (some p) tunnel =
    if truthy (get "remote_peer" tunnel) then tunnel else put "remote_peer" (str p) tunnel

-- A configured tunnel that the status dump has, or not.
unfoldable pub configured : Runtime → String → Fields → Option Fields → Fields
configured rt name cfg (some tunnel) =
    add_peer (crypto_map_config_peer rt cfg)
      (put "enabled" (bool (coerce_bool (get "enable" cfg))) tunnel)
configured rt name cfg none =
    put "remote_peer" (peer_value (crypto_map_config_peer rt cfg))
      (put "enabled" (bool (coerce_bool (get "enable" cfg))) (default_tunnel name))

-- The loop of `merge_crypto_map_config`.
unfoldable pub merge_config : Runtime → Fields → Dict Fields → Dict Fields
merge_config rt end merged = merged
merge_config rt (field name (dict cfg) rest) merged =
    merge_config rt rest (insert name (configured rt name cfg (lookup name merged)) merged)
merge_config rt (field name v rest) merged = merge_config rt rest merged

-- `merge_crypto_map_config(status, config)`.
unfoldable pub merge_crypto_map_config : Runtime → Dict Fields → Value → Dict Fields
merge_crypto_map_config rt status (dict config) = merge_config rt config status
merge_crypto_map_config rt status v = status
