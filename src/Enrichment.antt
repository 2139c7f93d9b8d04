-- ===== src/Enrichment.antt =====
-- coordinator_parts/enrichment.py: counters, rates and the ping check, stamped onto the uplinks and the
-- IPsec tunnels of a tick.
pub mod PingCheck
pub mod Throughput
pub mod Carry
pub mod Tunnels
use keenetic_router_pro.Prelude.{
  String, Bool, true, false, not, ◌&&◌, ◌||◌, Option, none, some, List, [], ◌∷◌, map, ◌==◌,
  if◌then◌else◌, Dict, lookup, ℤ, pos,
}
use keenetic_router_pro.Value.{
  Float, float_zero, Value, null, bool, int, float, str, dict, Fields, end, get, has, put, get_or,
  truthy, or_else, Runtime, dicts, ValueMap, find, assign,
}
use keenetic_router_pro.Utils.Coerce.{coerce_int, coerce_byte_count, is_bool, to_float}
use keenetic_router_pro.Utils.Clients.{first_present}
use keenetic_router_pro.Derived.{counter_rate_bytes_per_second, order_wan_interfaces}

abbrev stat_int : Value → Option ℤ
stat_int null = none
stat_int (bool b) = none
stat_int v = coerce_int v none

-- `_first_stat_int(stats, *keys)`.
unfoldable pub first_stat_int : Fields → List String → Option ℤ
first_stat_int stats keys = stat_int (first_present stats keys)

abbrev pub int_or_none : Option ℤ → Value
int_or_none none = null
int_or_none (some z) = int z

-- A dict with text keys, asked for a value: only a text can be a key of it.
abbrev pub lookup_id {ℓ} : {V : Type ℓ} → Value → Dict V → Option V
lookup_id (str s) d = lookup s d
lookup_id v d = none

-- `_stamp_ping_check(wan, pc)`.
stamp_passing : Value → Fields → Fields
stamp_passing (bool b) wan =
    put "internet_access_source" (str "ping_check") (put "internet_access" (bool b) wan)
stamp_passing v wan = put "internet_access_source" (str "heuristic") wan

unfoldable pub stamp_ping_check : Option Fields → Fields → Fields
unfolding stamp_passing
stamp_ping_check none wan =
    put "internet_access_source" (str "heuristic") (put "ping_check" null wan)
stamp_ping_check (some pc) wan = stamp_passing (get "passing" pc) (put "ping_check" (dict pc) wan)

-- `_WAN_SAMPLE_KEYS`.
abbrev pub wan_sample_keys : List String
wan_sample_keys =
    "rx_bytes" ∷ "tx_bytes" ∷ "rx_packets" ∷ "tx_packets" ∷ "rx_speed_raw" ∷ "tx_speed_raw"
    ∷ "stats_interface" ∷ "stats_timestamp" ∷ "_sample_ts" ∷ "rx_throughput" ∷ "tx_throughput" ∷ []

-- `prev_wan_by_id`, of both functions.
unfoldable pub index_by_id : List Fields → ValueMap Fields → ValueMap Fields
index_by_id [] m = m
index_by_id (w ∷ ws) m = index_by_id ws (if truthy (get "id" w) then assign (get "id" w) w m else m)

-- `for key in _WAN_SAMPLE_KEYS: if key in prev: wan[key] = prev[key]`.
unfoldable pub copy_keys : List String → Fields → Fields → Fields
copy_keys [] prev wan = wan
copy_keys (k ∷ ks) prev wan = copy_keys ks prev (if has k prev then put k (get k prev) wan else wan)

abbrev pub or_empty : Option Fields → Fields
or_empty none = end
or_empty (some fs) = fs

-- The uplinks of a tick, in their order, and the index by id.
pub record Uplinks : Type 0 where
  pub ordered : List Fields
  pub by_id : ValueMap Fields

-- `prev and ...`: an empty dict is no previous sample.
abbrev nonempty_prev : Option Fields → Option Fields
nonempty_prev none = none
nonempty_prev (some fs) = if truthy (dict fs) then some fs else none

-- The tunnel of the tick before, if it is a dict with content.
abbrev pub dict_entry : Option Value → Option Fields
dict_entry (some (dict fs)) = nonempty_prev (some fs)
dict_entry _ = none

module _ (rt : Runtime) where
  abbrev indexed : List Fields → Uplinks
  indexed ordered = record { ordered = ordered; by_id = index_by_id ordered [] }

  -- One round of the loop of `carry_wan_samples`.
  unfoldable pub carry_wan : Dict Fields → ValueMap Fields → Fields → Fields
  carry_wan ping_check_status prev_by_id wan =
      stamp_ping_check (lookup_id (get "id" wan) ping_check_status)
        (copy_keys wan_sample_keys (or_empty (find (get "id" wan) prev_by_id)) wan)

  -- `carry_wan_samples(wan_interfaces, ping_check_status, prev_wan_interfaces)`.
  unfoldable pub carry_wan_samples : List Fields → Dict Fields → List Value → Uplinks
  carry_wan_samples wans ping_check_status prev = indexed (
      order_wan_interfaces rt
        (map (carry_wan ping_check_status (index_by_id (dicts prev) [])) wans))

  -- The two byte counters of a sample.
  abbrev pub rx_count : Fields → Value
  rx_count stats = int_or_none (
      coerce_byte_count rt
        (int_or_none (first_stat_int stats ("rxbytes" ∷ "rx-bytes" ∷ "rx_bytes" ∷ []))))

  abbrev pub tx_count : Fields → Value
  tx_count stats = int_or_none (
      coerce_byte_count rt
        (int_or_none (first_stat_int stats ("txbytes" ∷ "tx-bytes" ∷ "tx_bytes" ∷ []))))

  -- The fields that come straight from the statistics.
  unfoldable pub stamp_stats : Fields → Float → Fields → Fields
  stamp_stats stats now_ts wan = put "_sample_ts" (float now_ts) (
      put "stats_timestamp" (get "timestamp" stats) (
        put "stats_interface" (or_else (get "interface_name" stats) (get "id" wan)) (
          put "tx_speed_raw"
            (int_or_none (first_stat_int stats ("txspeed" ∷ "tx-speed" ∷ "tx_rate" ∷ [])))
            (put "rx_speed_raw"
              (int_or_none (first_stat_int stats ("rxspeed" ∷ "rx-speed" ∷ "rx_rate" ∷ [])))
              (put "tx_packets"
                (int_or_none (first_stat_int stats ("txpackets" ∷ "tx-packets" ∷ [])))
                (put "rx_packets"
                  (int_or_none (first_stat_int stats ("rxpackets" ∷ "rx-packets" ∷ [])))
                  (put "tx_bytes" (tx_count stats) (put "rx_bytes" (rx_count stats) wan))))))))

  -- `now_ts - float(prev.get("_sample_ts") or 0)`.
  -- A sample time is a float that an earlier tick wrote, so that reading it raises nothing.
  abbrev sample_time : Value → Float
  sample_time v = elim (to_float rt (or_else v (int (pos 0)))) [ none ↦ float_zero | some x ↦ x ]

  abbrev pub elapsed_since : Fields → Float → Float
  elapsed_since prev now_ts = rt.float_sub now_ts (sample_time (get "_sample_ts" prev))

  abbrev pub sampled_rate : Value → String → Option Fields → Float → Float
  sampled_rate count key none now_ts = float_zero
  sampled_rate count key (some prev) now_ts =
      if truthy (get "_sample_ts" prev)
      then counter_rate_bytes_per_second rt count (get key prev) (elapsed_since prev now_ts)
      else float_zero

  -- The rate of a counter against the previous sample, 0.0 without one, and None where the counter
  -- could not be read.
  unfoldable pub wan_rate : Value → String → Option Fields → Float → Value
  wan_rate null key prev now_ts = null
  wan_rate count key prev now_ts = float (sampled_rate count key prev now_ts)

  -- One round of the loop of `enrich_wan_interfaces`.
  unfoldable pub enrich_wan : Dict Fields → Dict Fields → ValueMap Fields → Float → Fields → Fields
  enrich_wan interface_stats ping_check_status prev_by_id now_ts wan =
      let stats = or_empty (lookup_id (get "id" wan) interface_stats) in
      let prev = nonempty_prev (find (get "id" wan) prev_by_id) in
      put "tx_throughput" (wan_rate (tx_count stats) "tx_bytes" prev now_ts) (
        put "rx_throughput" (wan_rate (rx_count stats) "rx_bytes" prev now_ts) (
          stamp_ping_check (lookup_id (get "id" wan) ping_check_status)
            (stamp_stats stats now_ts wan)))

  -- `enrich_wan_interfaces(wan_interfaces, interface_stats, ping_check_status, prev, now_ts)`.
  unfoldable pub enrich_wan_interfaces :
      List Fields → Dict Fields → Dict Fields → List Value → Float → Uplinks
  enrich_wan_interfaces wans interface_stats ping_check_status prev now_ts = indexed (
      order_wan_interfaces rt (
        map (enrich_wan interface_stats ping_check_status (index_by_id (dicts prev) []) now_ts)
          wans))

  -- One tunnel of the loop of `enrich_crypto_maps`: the previous entry, if it is a dict with content.
  unfoldable pub enrich_crypto_map : Option Fields → Float → Bool → Fields → Fields
  enrich_crypto_map none now_ts ipsec_status_refresh cmap =
      put "tx_throughput" (float float_zero)
        (put "rx_throughput" (float float_zero) (put "_sample_ts" (float now_ts) cmap))
  enrich_crypto_map (some prev) now_ts ipsec_status_refresh cmap =
      if not ipsec_status_refresh
      then put "tx_throughput" (get_or "tx_throughput" (float float_zero) prev) (
          put "rx_throughput" (get_or "rx_throughput" (float float_zero) prev)
            (put "_sample_ts" (get "_sample_ts" prev) cmap))
      else if truthy (get "_sample_ts" prev)
      then put "tx_throughput"
          (float (
            counter_rate_bytes_per_second rt (get "tx_bytes" cmap) (get "tx_bytes" prev)
              (elapsed_since prev now_ts)))
          (put "rx_throughput"
            (float (
              counter_rate_bytes_per_second rt (get "rx_bytes" cmap) (get "rx_bytes" prev)
                (elapsed_since prev now_ts)))
            (put "_sample_ts" (float now_ts) cmap))
      else put "tx_throughput" (float float_zero)
          (put "rx_throughput" (float float_zero) (put "_sample_ts" (float now_ts) cmap))

  -- `enrich_crypto_maps(crypto_maps, prev_crypto_maps, now_ts, ipsec_status_refresh)`.
  unfoldable pub enrich_crypto_maps : Dict Fields → Dict Value → Float → Bool → Dict Fields
  enrich_crypto_maps [] prev now_ts ipsec_status_refresh = []
  enrich_crypto_maps ((name, cmap) ∷ rest) prev now_ts ipsec_status_refresh =
      (name, enrich_crypto_map (dict_entry (lookup name prev)) now_ts ipsec_status_refresh cmap)
      ∷ enrich_crypto_maps rest prev now_ts ipsec_status_refresh
