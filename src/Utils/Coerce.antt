-- ===== src/Utils/Coerce.antt =====
-- The coercions of utils.py: loosely typed router values to ints, floats and bools.
pub mod Bounds
use Prim.Native.Char.{code}
use Prim.Native.String.{[], ◌∷◌}
use keenetic_router_pro.Prelude.{
  ℕ, ◌+◌, ◌-◌, ◌*◌, ◌^◌, String, Bool, true, false, not, ◌&&◌, ◌||◌, Option, none, some, ◌==◌, leb,
  eqb, if◌then◌else◌, ℤ, pos, neg_ℤ, eqb_ℤ, mem, ◌≡◌, refl,
}
use keenetic_router_pro.Prelude
use keenetic_router_pro.Value.{
  Float, nan, infinite, finite, is_finite, float_lt, float_eq, float_zero, of_ℤ, int_to_float,
  float_to_int, Value, null, bool, int, float, str, list, dict, truthy, is_blank, Runtime,
}
use keenetic_router_pro.Text.{strip, lower}

is_digit : ℕ → Bool
is_digit c = leb b'0' c && leb c b'9'

-- The digits of `int(text)`: one underscore may stand between two digits.
digits : ℕ → Bool → String → Option ℕ
unfolding is_digit
digits n after_digit [] = if after_digit then some n else none
digits n after_digit (c ∷ s) =
    let further = digits (n * 10 + (code c - b'0')) true s in
    let skipped = digits n false s in
    if is_digit (code c)
    then further
    else if eqb (code c) b'_' && after_digit
    then skipped
    else none

signed : String → Option ℤ
unfolding digits
signed [] = none
signed (c ∷ s) =
    if eqb (code c) b'-'
    then elim (digits 0 false s) [ none ↦ none | some n ↦ some (neg_ℤ (pos n)) ]
    else let text = if eqb (code c) b'+' then s else c ∷ s in
      elim (digits 0 false text) [ none ↦ none | some n ↦ some (pos n) ]

-- `int(text)` on ASCII text; `none` is ValueError.
unfoldable pub int_of_text : String → Option ℤ
unfolding signed
int_of_text s = signed (strip s)

-- `coerce_int(value, default)`.
unfoldable pub coerce_int : Value → Option ℤ → Option ℤ
coerce_int (bool true) default = some (pos 1)
coerce_int (bool false) default = some (pos 0)
coerce_int (int z) default = some z
coerce_int (float x) default = elim (float_to_int x) [ none ↦ default | some z ↦ some z ]
coerce_int (str s) default = elim (int_of_text s) [ none ↦ default | some z ↦ some z ]
coerce_int _ default = default

-- `coerce_int(value)`, whose default is 0.
unfoldable pub coerce_int_or_zero : Value → ℤ
unfolding coerce_int
coerce_int_or_zero v = elim (coerce_int v (some (pos 0))) [ none ↦ pos 0 | some z ↦ z ]

abbrev pub is_bool : Value → Bool
is_bool (bool b) = true
is_bool _ = false

abbrev pub truthy_strings : Prelude.List String
truthy_strings =
    let l : Prelude.List String = Prelude.[] in
    Prelude.◌∷◌ "true"
      (Prelude.◌∷◌ "yes" (Prelude.◌∷◌ "1" (Prelude.◌∷◌ "up" (Prelude.◌∷◌ "online" l))))

-- `coerce_bool(value)`.
unfoldable pub coerce_bool : Value → Bool
coerce_bool (bool b) = b
coerce_bool (int z) = not (eqb_ℤ z (pos 0))
coerce_bool (float x) = is_finite x && not (float_eq x float_zero)
coerce_bool (str s) = mem (lower (strip s)) truthy_strings
coerce_bool v = truthy v

-- `value in UNKNOWN_SECONDS_VALUES`.
abbrev pub is_unknown_seconds : Value → Bool
is_unknown_seconds null = true
is_unknown_seconds (str s) = s == "" || s == "unknown" || s == "Unknown"
is_unknown_seconds _ = false

module _ (rt : Runtime) where
  -- `float(value)`, a bool left out; `none` stands for TypeError, ValueError and OverflowError.
  unfoldable pub to_float : Value → Option Float
  to_float (int z) = int_to_float z
  to_float (float x) = some x
  to_float (str s) = rt.float_of_text s
  to_float _ = none

  -- The checks of `coerce_seconds` behind the conversion.
  unfoldable pub usable_seconds : Float → Option ℤ → Option ℤ
  usable_seconds x default =
      if not (is_finite x)
      then default
      else if float_lt x float_zero
      then default
      else if float_lt (of_ℤ (pos 100_000_000_000)) x
      then default
      else elim (float_to_int x) [ none ↦ default | some z ↦ some z ]

  abbrev seconds_of : Option Float → Option ℤ → Option ℤ
  seconds_of none default = default
  seconds_of (some x) default = usable_seconds x default

  -- `coerce_seconds(value, default)`.
  unfoldable pub coerce_seconds : Value → Option ℤ → Option ℤ
  unfolding to_float usable_seconds
  coerce_seconds v default =
      if is_unknown_seconds v || is_bool v then default else seconds_of (to_float v) default

  -- `coerce_float(value, default)`.
  unfoldable pub coerce_float : Value → Option Float → Option Float
  unfolding to_float
  coerce_float v default =
      if is_bool v
      then default
      else elim (to_float v) [ none ↦ default | some x ↦ if is_finite x then some x else default ]

  -- The checks of `coerce_byte_count` behind the conversion.
  unfoldable pub usable_count : Float → Option ℤ
  usable_count x =
      if not (is_finite x) || float_lt x float_zero
      then none
      else if float_lt (of_ℤ (pos (2 ^ 63))) x
      then none
      else float_to_int x

  abbrev count_of : Option Float → Option ℤ
  count_of none = none
  count_of (some x) = usable_count x

  -- `coerce_byte_count(value)`.
  unfoldable pub coerce_byte_count : Value → Option ℤ
  unfolding to_float usable_count
  coerce_byte_count v = if is_blank v || is_bool v then none else count_of (to_float v)

reads_signed : int_of_text " -1_000 " ≡ some (neg_ℤ (pos 1000))
unfolding int_of_text strip
reads_signed = refl

refuses_letters : int_of_text "12kb" ≡ none
unfolding int_of_text strip
refuses_letters = refl
