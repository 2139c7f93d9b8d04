-- ===== src/Examples/Setting.antt =====
-- A runtime, a calendar and a router that can be computed with.
use keenetic_router_pro.Prelude.{
  eq-false_of_ne, String, ◌^◌, ℕ, Option, suc, pos, ℤ, ◌-ℤ◌, ◌*◌, refl, some, ◌+◌, ◌/◌, none, ◌==◌,
  zero, if◌then◌else◌, ◌≡◌, true, eqb, ◌%◌, false, ap, ◌∙◌, arith,
}
use Prim.Native.Char.{code}
use keenetic_router_pro.Value.{Float, nan, finite, scale, of_ℤ, Value, null, bool, str, Runtime}
use keenetic_router_pro.Utils.Coerce.{int_of_text}
use keenetic_router_pro.Oom.{DateTime, DateTimes, LogTime}

abbrev print : Value → String
print (str s) = s
print (bool true) = "True"
print (bool false) = "False"
print null = "None"
print v = "value"

abbrev float_of : Option ℤ → Option Float
float_of none = none
float_of (some z) = some (of_ℤ z)

-- Exact where both are finite.
abbrev sub : Float → Float → Float
sub (finite a s) (finite b t) = finite (scale a (2 ^ t) -ℤ scale b (2 ^ s)) (s + t)
sub x y = nan

abbrev times : Float → Float → Float
times (finite (pos a) s) (finite (pos b) t) = finite (pos (a * b)) (s + t)
times x y = nan

abbrev over : ℕ → Float → Option Float
over n (finite (pos m) s) = some (of_ℤ (pos (n * 2 ^ s / m)))
over n x = none

abbrev pub plain : Runtime
plain = record {
  float_of_text = λ s. float_of (int_of_text s);
  print = print;
  print-str = λ s. refl;
  float_sub = sub;
  float_mul = times;
  float_div = over;
}

-- A number as so many strokes.
unfoldable pub strokes : ℕ → String → String
strokes zero rest = String.◌∷◌ "0" rest
strokes (suc n) rest = String.◌∷◌ "1" (strokes n rest)

abbrev one_more : Option (ℕ × String) → Option (ℕ × String)
one_more none = none
one_more (some (n, rest)) = some (n + 1, rest)

unfoldable pub read_strokes : String → Option (ℕ × String)
read_strokes String.[] = none
read_strokes (String.◌∷◌ c s) =
    let further = read_strokes s in if eqb (code c) b'0' then some (0, s) else one_more further

read_strokes-strokes : (n : ℕ) (rest : String) → read_strokes (strokes n rest) ≡ some (n, rest)
unfolding read_strokes strokes
read_strokes-strokes zero rest = refl
read_strokes-strokes (suc n) rest =
    ap one_more (read_strokes-strokes n rest) ∙ ap (λ m. some (m, rest)) (omega arith)

pub strokes-ne_empty : (n : ℕ) (rest : String) → (strokes n rest == "") ≡ false
unfolding strokes
strokes-ne_empty zero rest = eq-false_of_ne _ _ (λ e. cc)
strokes-ne_empty (suc n) rest = eq-false_of_ne _ _ (λ e. cc)

abbrev next : Option (ℕ × String) → (ℕ → String → Option DateTime) → Option DateTime
next none f = none
next (some (n, rest)) f = f n rest

abbrev print_time : DateTime → String
print_time d = strokes d.year (strokes d.month (strokes d.day (strokes d.micros "")))

abbrev read_time : String → Option DateTime
read_time s = next (read_strokes s) (λ y s. next (read_strokes s) (λ m s.
    next (read_strokes s) (λ d s.
      next (read_strokes s) (λ u s. some (record { year = y; month = m; day = d; micros = u })))))

pub read_time-print_time : (d : DateTime) → read_time (print_time d) ≡ some d
read_time-print_time d = rw (
  read_strokes-strokes d.year (strokes d.month (strokes d.day (strokes d.micros ""))),
  read_strokes-strokes d.month (strokes d.day (strokes d.micros "")),
  read_strokes-strokes d.day (strokes d.micros ""),
  read_strokes-strokes d.micros "",
)

-- A log time is three numbers: month, day and time of day.
abbrev next_log : Option (ℕ × String) → (ℕ → String → Option LogTime) → Option LogTime
next_log none f = none
next_log (some (n, rest)) f = f n rest

abbrev pub calendar : DateTimes
calendar = record {
  strptime = λ format s. next_log (read_strokes s) (λ m s.
      next_log (read_strokes s) (λ d s.
        next_log (read_strokes s) (λ u s. some (record { month = m; day = d; micros = u }))));
  fromisoformat = read_time;
  isoformat = print_time;
  fromisoformat-isoformat = read_time-print_time;
  isoformat-ne-empty = λ d. strokes-ne_empty d.year _;
  is_leap = λ y. eqb (y % 4) 0;
}
