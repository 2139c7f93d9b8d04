-- ===== src/Enrichment/Throughput.antt =====
-- coordinator_parts/enrichment.py, `enrich_wan_interfaces`: the throughput of an uplink.
use keenetic_router_pro.Prelude.{
  String, ◌≡◌, refl, false, Option, none, some, arith, Dict, subst, sym, ◌∙◌,
}
use keenetic_router_pro.Value.{
  Float, float_lt, float_zero, Value, null, bool, int, float, str, list, dict, Fields, get,
  get-put_self, get-put_ne, Runtime, ValueMap, find,
}
use keenetic_router_pro.Derived.Rate.{counter_rate_nonneg}
use keenetic_router_pro.Enrichment.{
  lookup_id, enrich_wan, or_empty, rx_count, tx_count, wan_rate, sampled_rate, nonempty_prev,
  elapsed_since,
}

-- A rate is unknown exactly when the counter is, and never negative.
abbrev pub IsRateOf : Value → Value → Type 0
IsRateOf null rate = rate ≡ null
IsRateOf count rate = (x : Float) × (rate ≡ float x) × (float_lt x float_zero ≡ false)

zero_nonneg : float_lt float_zero float_zero ≡ false
unfolding float_lt
zero_nonneg = refl

sampled_rate_nonneg :
    (rt : Runtime) (count : Value) (key : String) (prev : Option Fields) (now_ts : Float)
    → float_lt (sampled_rate rt count key prev now_ts) float_zero ≡ false
sampled_rate_nonneg rt count key none now_ts = zero_nonneg
sampled_rate_nonneg rt count key (some prev) now_ts =
    ground (
      arith,
      zero_nonneg,
      counter_rate_nonneg rt count (get key prev) (elapsed_since rt prev now_ts),
    )

wan_rate-IsRateOf :
    (rt : Runtime) (count : Value) (key : String) (prev : Option Fields) (now_ts : Float)
    → IsRateOf count (wan_rate rt count key prev now_ts)
unfolding wan_rate
wan_rate-IsRateOf rt null key prev now_ts = refl
wan_rate-IsRateOf rt (bool b) key prev now_ts =
    (_, refl, sampled_rate_nonneg rt (bool b) key prev now_ts)
wan_rate-IsRateOf rt (int z) key prev now_ts =
    (_, refl, sampled_rate_nonneg rt (int z) key prev now_ts)
wan_rate-IsRateOf rt (float x) key prev now_ts =
    (_, refl, sampled_rate_nonneg rt (float x) key prev now_ts)
wan_rate-IsRateOf rt (str s) key prev now_ts =
    (_, refl, sampled_rate_nonneg rt (str s) key prev now_ts)
wan_rate-IsRateOf rt (list vs) key prev now_ts =
    (_, refl, sampled_rate_nonneg rt (list vs) key prev now_ts)
wan_rate-IsRateOf rt (dict fs) key prev now_ts =
    (_, refl, sampled_rate_nonneg rt (dict fs) key prev now_ts)

module _ (rt : Runtime) (interface_stats ping_check_status : Dict Fields) (prev : ValueMap Fields)
    (now_ts : Float) (wan : Fields) where
  -- On a tick that read the counters, each throughput of an uplink is unknown exactly when its counter
  -- could not be read, and otherwise a float that is not negative.
  pub throughput_of_counters :
      IsRateOf
        (rx_count rt (or_empty (lookup_id (get "id" wan) interface_stats)))
        (get "rx_throughput" (enrich_wan rt interface_stats ping_check_status prev now_ts wan))
      × IsRateOf
          (tx_count rt (or_empty (lookup_id (get "id" wan) interface_stats)))
          (get "tx_throughput" (enrich_wan rt interface_stats ping_check_status prev now_ts wan))
  unfolding enrich_wan
  throughput_of_counters =
      let stats = or_empty (lookup_id (get "id" wan) interface_stats) in
      let last = nonempty_prev (find (get "id" wan) prev) in
      (
        subst (IsRateOf (rx_count rt stats))
            (sym (
              get-put_ne "tx_throughput" "rx_throughput" _ _ refl
              ∙ get-put_self "rx_throughput" _ _))
            (wan_rate-IsRateOf rt (rx_count rt stats) "rx_bytes" last now_ts),
        subst (IsRateOf (tx_count rt stats)) (sym (get-put_self "tx_throughput" _ _))
            (wan_rate-IsRateOf rt (tx_count rt stats) "tx_bytes" last now_ts),
      )
