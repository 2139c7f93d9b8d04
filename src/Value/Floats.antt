-- ===== src/Value/Floats.antt =====
-- Python's `float` (IEEE binary64), read exactly: a finite value is an integer over a power of two.
-- The conversions `float(int)` and `int(float)` are the ones that the program calls.
use keenetic_router_pro.Prelude.{
  ℕ, zero, suc, ◌+◌, ◌*◌, ◌/◌, ◌%◌, ◌^◌, ◌<◌, ◌≡◌, refl, Bool, true, false, ◌&&◌, ◌||◌, Option,
  none, some, arith, ltb, eqb, if◌then◌else◌, ℤ, pos, negsuc, ltb_ℤ, leb_ℤ, neg_ℤ,
}

pub data Float : Type 0 where
  nan : Float
  infinite : Bool → Float
  -- `finite z s` is z / 2^s.
  finite : ℤ → ℕ → Float

-- `math.isfinite`.
unfoldable pub is_finite : Float → Bool
is_finite (finite z s) = true
is_finite _ = false

abbrev pub scale : ℤ → ℕ → ℤ
scale (pos n) k = pos (n * k)
scale (negsuc n) k = neg_ℤ (pos (suc n * k))

-- `x < y`; a comparison with NaN is false. `infinite true` is minus infinity.
unfoldable pub float_lt : Float → Float → Bool
float_lt (finite a s) (finite b t) = ltb_ℤ (scale a (2 ^ t)) (scale b (2 ^ s))
float_lt (infinite true) (finite b t) = true
float_lt (finite a s) (infinite false) = true
float_lt (infinite true) (infinite false) = true
float_lt _ _ = false

-- `x == y`.
unfoldable pub float_eq : Float → Float → Bool
float_eq (finite a s) (finite b t) =
    leb_ℤ (scale a (2 ^ t)) (scale b (2 ^ s)) && leb_ℤ (scale b (2 ^ s)) (scale a (2 ^ t))
float_eq (infinite true) (infinite true) = true
float_eq (infinite false) (infinite false) = true
float_eq _ _ = false

abbrev pub of_ℤ : ℤ → Float
of_ℤ z = finite z 0

abbrev pub float_zero : Float
float_zero = of_ℤ (pos 0)

-- How often `n` is halved until it has at most 53 bits.
excess : ℕ → ℕ → ℕ
excess zero n = zero
excess (suc fuel) n = let rest = excess fuel (n / 2) in if ltb n (2 ^ 53) then 0 else suc rest

-- `n / d`, rounded to the nearest integer, ties to even.
unfoldable pub round_div : ℕ → ℕ → ℕ
round_div n d =
    let q = n / d in
    let r = n % d in if ltb (2 * r) d || (eqb (2 * r) d && eqb (q % 2) 0) then q else q + 1

-- `float(n)`: rounded to 53 bits, `none` is OverflowError. An integer below 2^1024 is brought to 53
-- bits by at most 971 halvings; with more, the fuel of 1024 is not what stops it.
below_max : ℕ → Option ℕ
below_max m = if ltb m (2 ^ 1024) then some m else none

pub round_53 : ℕ → Option ℕ
unfolding excess round_div below_max
round_53 n = let p = 2 ^ excess 1024 n in below_max (round_div n p * p)

unfoldable pub nat_to_float : ℕ → Option ℕ
nat_to_float n = if ltb n (2 ^ 53) then some n else round_53 n

unfoldable pub int_to_float : ℤ → Option Float
int_to_float (pos n) = elim (nat_to_float n) [ none ↦ none | some m ↦ some (of_ℤ (pos m)) ]
int_to_float (negsuc n) = elim (nat_to_float (suc n)) [
  | none ↦ none
  | some m ↦ some (of_ℤ (neg_ℤ (pos m)))
]

-- `int(x)` truncates towards zero; `none` is the ValueError of NaN or the OverflowError of infinity.
unfoldable pub float_to_int : Float → Option ℤ
float_to_int (finite (pos n) s) = some (pos (n / 2 ^ s))
float_to_int (finite (negsuc n) s) = some (neg_ℤ (pos (suc n / 2 ^ s)))
float_to_int _ = none

pub nat_to_float_exact : (n : ℕ) → n < 2 ^ 53 → nat_to_float n ≡ some n
unfolding nat_to_float
nat_to_float_exact n h = ground arith

rounds_up : nat_to_float (2 ^ 53 + 3) ≡ some (2 ^ 53 + 4)
unfolding nat_to_float round_53
rounds_up = refl

too_big : nat_to_float (2 ^ 1024) ≡ none
unfolding nat_to_float round_53
too_big = refl
