-- ===== src/Utils/Coerce/Bounds.antt =====
-- utils.py: the ranges of the coercions.
use keenetic_router_pro.Prelude.{
  ℕ, zero, suc, ◌*◌, ◌/◌, ◌^◌, ◌≤◌, ◌<◌, ◌≡◌, Option, none, some, arith, ℤ, pos, negsuc, ◌≤ℤ◌,
  false,
}
use keenetic_router_pro.Value.{
  Float, nan, infinite, finite, float_lt, float_zero, of_ℤ, float_to_int, Value, Runtime,
}
use native.Mathlib.Nat.{pow-suc}
use keenetic_router_pro.Utils.Coerce.{to_float, usable_count, coerce_byte_count, count_of}

div-le_of_le_mul : (n k d : ℕ) → n ≤ k * d → n / d ≤ k
div-le_of_le_mul n k d h = grind arith

pow_pos : (s : ℕ) → 0 < 2 ^ s
pow_pos zero = omega arith
pow_pos (suc s) = rw pow-suc (omega (arith, pow_pos s))

-- A finite float that is not negative and not above `k` truncates to an integer in `[0, k]`.
truncate_bounds :
    (x : Float) (k : ℕ) {z : ℤ}
    → float_lt x float_zero ≡ false
    → float_lt (of_ℤ (pos k)) x ≡ false
    → float_to_int x ≡ some z
    → (pos 0 ≤ℤ z) × (z ≤ℤ pos k)
unfolding float_lt float_to_int
truncate_bounds (finite (pos n) s) k p q e = ground (arith, div-le_of_le_mul n k (2 ^ s), pow_pos s)
truncate_bounds (finite (negsuc n) s) k p q e = absurd (ground arith)
truncate_bounds nan k p q e = cc
truncate_bounds (infinite b) k p q e = cc

module _ (rt : Runtime) where
  usable_count_bounds :
      (x : Float) (z : ℤ) → usable_count rt x ≡ some z → (pos 0 ≤ℤ z) × (z ≤ℤ pos (2 ^ 63))
  unfolding usable_count
  usable_count_bounds x z h =
      truncate_bounds x (2 ^ 63) (ground arith) (ground arith) (ground arith)

  count_of_bounds :
      (o : Option Float) (z : ℤ) → count_of rt o ≡ some z → (pos 0 ≤ℤ z) × (z ≤ℤ pos (2 ^ 63))
  count_of_bounds none z h = cc
  count_of_bounds (some x) z h = usable_count_bounds x z h

  -- A byte counter that `coerce_byte_count` accepts lies between 0 and 2^63, whatever the value was.
  pub coerce_byte_count_bounds :
      (v : Value) (z : ℤ) → coerce_byte_count rt v ≡ some z → (pos 0 ≤ℤ z) × (z ≤ℤ pos (2 ^ 63))
  unfolding coerce_byte_count
  coerce_byte_count_bounds v z h = count_of_bounds (to_float rt v) z (ground arith)
