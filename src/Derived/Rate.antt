-- ===== src/Derived/Rate.antt =====
-- coordinator_parts/derived.py: the rate of a byte counter.
use keenetic_router_pro.Prelude.{
  ◌≡◌, true, false, Option, none, some, arith, ℤ, pos, negsuc, ◌-ℤ◌, ◌<ℤ◌, -ℤ_parts, refl,
}
use keenetic_router_pro.Value.{Float, nan, infinite, finite, float_lt, float_zero, Value, Runtime}
use keenetic_router_pro.Utils.Coerce.{coerce_byte_count}
use keenetic_router_pro.Derived.{
  counter_rate_bytes_per_second, clamp_rate, rate_of_delta, rate_of_counts,
}

positive_not_negative : (x : Float) → float_lt float_zero x ≡ true → float_lt x float_zero ≡ false
unfolding float_lt
positive_not_negative nan h = cc
positive_not_negative (infinite true) h = cc
positive_not_negative (infinite false) h = refl
positive_not_negative (finite z s) h = ground arith

zero_not_negative : float_lt float_zero float_zero ≡ false
unfolding float_lt
zero_not_negative = refl

-- The samples show no progress: one is missing or unusable, or the counter went backwards.
abbrev pub IsReset : Option ℤ → Option ℤ → Type 0
IsReset (some c) (some p) = c <ℤ p
IsReset (some c) none = Unit
IsReset none prev = Unit

module _ (rt : Runtime) where
  clamp_rate_nonneg : (o : Option Float) → float_lt (clamp_rate rt o) float_zero ≡ false
  unfolding clamp_rate
  clamp_rate_nonneg none = zero_not_negative
  clamp_rate_nonneg (some x) = ground (arith, positive_not_negative x, zero_not_negative)

  rate_of_delta_nonneg :
      (d : ℤ) (elapsed : Float) → float_lt (rate_of_delta rt d elapsed) float_zero ≡ false
  unfolding rate_of_delta
  rate_of_delta_nonneg (pos n) elapsed = clamp_rate_nonneg (rt.float_div n elapsed)
  rate_of_delta_nonneg (negsuc n) elapsed = zero_not_negative

  rate_of_counts_nonneg :
      (cur prev : Option ℤ) (elapsed : Float)
      → float_lt (rate_of_counts rt cur prev elapsed) float_zero ≡ false
  unfolding rate_of_counts
  rate_of_counts_nonneg none prev elapsed = zero_not_negative
  rate_of_counts_nonneg (some c) none elapsed = zero_not_negative
  rate_of_counts_nonneg (some c) (some p) elapsed = rate_of_delta_nonneg (c -ℤ p) elapsed

  -- A rate is never negative, whatever the samples and the time between them.
  pub counter_rate_nonneg :
      (current previous : Value) (elapsed : Float)
      → float_lt (counter_rate_bytes_per_second rt current previous elapsed) float_zero ≡ false
  unfolding counter_rate_bytes_per_second
  counter_rate_nonneg current previous elapsed = ground (
    arith,
    zero_not_negative,
    rate_of_counts_nonneg (coerce_byte_count rt current) (coerce_byte_count rt previous) elapsed,
  )

  rate_of_delta_negative :
      (d : ℤ) (elapsed : Float) → d <ℤ pos 0 → rate_of_delta rt d elapsed ≡ float_zero
  unfolding rate_of_delta
  rate_of_delta_negative (pos n) elapsed h = absurd (omega arith)
  rate_of_delta_negative (negsuc n) elapsed h = refl

  rate_of_counts_reset :
      (cur prev : Option ℤ) (elapsed : Float)
      → IsReset cur prev
      → rate_of_counts rt cur prev elapsed ≡ float_zero
  unfolding rate_of_counts
  rate_of_counts_reset none prev elapsed h = refl
  rate_of_counts_reset (some c) none elapsed h = refl
  rate_of_counts_reset (some c) (some p) elapsed h =
      rate_of_delta_negative (c -ℤ p) elapsed (omega (arith, -ℤ_parts c p))

  -- A sample that is missing or unusable, or a counter that went backwards, gives the rate 0: a reset
  -- makes no spike.
  pub counter_rate_reset :
      (current previous : Value) (elapsed : Float)
      → IsReset (coerce_byte_count rt current) (coerce_byte_count rt previous)
      → counter_rate_bytes_per_second rt current previous elapsed ≡ float_zero
  unfolding counter_rate_bytes_per_second
  counter_rate_reset current previous elapsed h = ground (
    arith,
    rate_of_counts_reset (coerce_byte_count rt current) (coerce_byte_count rt previous) elapsed h,
  )
