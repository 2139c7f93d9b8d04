-- ===== src/Text.antt =====
-- Python's `str` methods that the program calls: `strip`, `lower`, `split`, `replace`, `join`. `lower` and
-- `upper` are those of ASCII: a letter beyond ASCII stays as it is.
pub mod Laws
use Prim.Native.Char.{Char, char, code, IsScalar}
use Prim.Native.Nat.{compare, Ordering, suc}
use Prim.Native.String.{[], ◌∷◌, ◌++◌}
use mathlib.Core.Logic.{dite}
use native.Mathlib.Decide.{dec_lt}
use text.Mathlib.Text.{starts_with}
use keenetic_router_pro.Prelude.{
  ℕ, ◌+◌, ◌-◌, ◌<◌, ◌≡◌, refl, String, Bool, true, false, ◌&&◌, ◌||◌, List, arith, eqb, leb, ltb,
  ◌==◌, if◌then◌else◌,
}
use keenetic_router_pro.Prelude

-- What `str.isspace` holds of.
unfoldable pub is_space : ℕ → Bool
is_space c =
    (leb 9 c && leb c 13)
    || (leb 28 c && leb c 32)
    || eqb c 133
    || eqb c 160
    || eqb c 5760
    || (leb 8192 c && leb c 8202)
    || eqb c 8232
    || eqb c 8233
    || eqb c 8239
    || eqb c 8287
    || eqb c 12288

unfoldable pub lstrip : String → String
unfolding is_space
lstrip [] = []
lstrip (c ∷ s) = let rest = lstrip s in if is_space (code c) then rest else c ∷ s

unfoldable pub rstrip : String → String
unfolding is_space
rstrip [] = []
rstrip (c ∷ s) = let rest = rstrip s in if is_space (code c) && rest == "" then "" else c ∷ rest

-- `s.strip()`.
unfoldable pub strip : String → String
unfolding lstrip rstrip
strip s = rstrip (lstrip s)

small_IsScalar : (n : ℕ) → n < 128 → IsScalar n
small_IsScalar n h = rw below tt
  where
    below : compare n 55296 ≡ Ordering.lt
    below = ground arith

lower_capital : (c : Char) → code c < 91 → Char
lower_capital c h = char (code c + 32) (small_IsScalar (code c + 32) (omega arith))

unfoldable pub lower_char : Char → Char
unfolding lower_capital small_IsScalar
lower_char c = if leb 65 (code c) then dite (dec_lt (code c) 91) (lower_capital c) (λ _. c) else c

-- `s.lower()`.
unfoldable pub lower : String → String
unfolding lower_char
lower [] = []
lower (c ∷ s) = lower_char c ∷ lower s

raise_letter : (c : Char) → code c < 123 → Char
raise_letter c h = char (code c - 32) (small_IsScalar (code c - 32) (omega arith))

unfoldable pub upper_char : Char → Char
unfolding raise_letter small_IsScalar
upper_char c = if leb 97 (code c) then dite (dec_lt (code c) 123) (raise_letter c) (λ _. c) else c

-- `s.upper()`, on ASCII letters.
unfoldable pub upper : String → String
unfolding upper_char
upper [] = []
upper (c ∷ s) = upper_char c ∷ upper s

-- `s.split(" - ")[0]`.
unfoldable pub before_dash : String → String
before_dash [] = []
before_dash (c ∷ s) = let rest = before_dash s in if starts_with (c ∷ s) " - " then "" else c ∷ rest

-- `s.replace(a, b)` for single characters.
unfoldable pub replace : ℕ → Char → String → String
replace a b [] = []
replace a b (c ∷ s) = (if eqb (code c) a then b else c) ∷ replace a b s

-- `s.lstrip("/")` and `s.strip("/")`.
unfoldable pub lstrip_slashes : String → String
lstrip_slashes [] = []
lstrip_slashes (c ∷ s) = let rest = lstrip_slashes s in if eqb (code c) b'/' then rest else c ∷ s

unfoldable pub rstrip_slashes : String → String
rstrip_slashes [] = []
rstrip_slashes (c ∷ s) =
    let rest = rstrip_slashes s in if eqb (code c) b'/' && rest == "" then "" else c ∷ rest

unfoldable pub strip_slashes : String → String
unfolding lstrip_slashes rstrip_slashes
strip_slashes s = rstrip_slashes (lstrip_slashes s)

-- `s.split(sep)` for a single character.
abbrev pub push_front : Char → List String → List String
push_front c Prelude.[] = Prelude.◌∷◌ (c ∷ []) Prelude.[]
push_front c (Prelude.◌∷◌ p ps) = Prelude.◌∷◌ (c ∷ p) ps

unfoldable pub split : ℕ → String → List String
split sep [] = Prelude.◌∷◌ "" Prelude.[]
split sep (c ∷ s) =
    let rest = split sep s in if eqb (code c) sep then Prelude.◌∷◌ "" rest else push_front c rest

-- `s.split(sep, 1)[0]`: the text before the first separator.
unfoldable pub before : ℕ → String → String
before sep [] = []
before sep (c ∷ s) = let rest = before sep s in if eqb (code c) sep then "" else c ∷ rest

-- `sep in s`, for a single character.
unfoldable pub contains : ℕ → String → Bool
contains sep [] = false
contains sep (c ∷ s) = eqb (code c) sep || contains sep s

-- `sep.join(parts)`.
unfoldable pub join : String → List String → String
join sep Prelude.[] = ""
join sep (Prelude.◌∷◌ p Prelude.[]) = p
join sep (Prelude.◌∷◌ p (Prelude.◌∷◌ q rest)) = p ++ sep ++ join sep (Prelude.◌∷◌ q rest)

-- `a + b`.
infixr 6 ◌<>◌
abbrev pub ◌<>◌ : String → String → String
a <> b = a ++ b

-- `sub in s`.
unfoldable pub includes : String → String → Bool
includes sub [] = starts_with [] sub
includes sub (c ∷ s) = starts_with (c ∷ s) sub || includes sub s

-- `s.split()`: the pieces between runs of white space, the one under the reader first.
unfoldable pub drop_blank : List String → List String
drop_blank (Prelude.◌∷◌ [] rest) = rest
drop_blank parts = parts

pieces : String → List String
unfolding drop_blank
pieces [] = Prelude.◌∷◌ "" Prelude.[]
pieces (c ∷ s) =
    let rest = pieces s in
    if is_space (code c) then Prelude.◌∷◌ "" (drop_blank rest) else push_front c rest

unfoldable pub split_words : String → List String
unfolding pieces drop_blank
split_words s = drop_blank (pieces s)

-- `s[:n]`, and whether it drops anything.
unfoldable pub take_chars : ℕ → String → String
take_chars Prelude.zero s = []
take_chars (Prelude.suc n) [] = []
take_chars (Prelude.suc n) (c ∷ s) = c ∷ take_chars n s

unfoldable pub is_longer : String → ℕ → Bool
is_longer [] n = false
is_longer (c ∷ s) Prelude.zero = true
is_longer (c ∷ s) (Prelude.suc n) = is_longer s n

words : split_words "  a b  c " ≡ Prelude.◌∷◌ "a" (Prelude.◌∷◌ "b" (Prelude.◌∷◌ "c" Prelude.[]))
unfolding split_words pieces drop_blank is_space
words = refl

trims : strip "  a b " ≡ "a b"
unfolding strip
trims = refl

lowers : lower "AbC-1" ≡ "abc-1"
unfolding lower dec_lt
lowers = refl
