-- ===== src/Text/Laws.antt =====
-- What `strip` and `lower` leave alone.
use Prim.Native.Char.{Char, code}
use Prim.Native.String.{[], ◌∷◌}
use text.Mathlib.TextEquality.{Char-path}
use keenetic_router_pro.Prelude.{◌+◌, ◌≤◌, ◌≡◌, String, false, arith, refl, leb, ◌⊎◌, if◌then◌else◌}
use keenetic_router_pro.Text.{is_space, lstrip, rstrip, strip, lower_char, lower}

-- No character of the text is white space.
abbrev pub IsSolid : String → Type 0
IsSolid [] = Unit
IsSolid (c ∷ s) = (is_space (code c) ≡ false) × IsSolid s

lstrip_of_IsSolid : (s : String) → IsSolid s → lstrip s ≡ s
unfolding lstrip
lstrip_of_IsSolid [] h = refl
lstrip_of_IsSolid (c ∷ s) h = ground (arith, h.0)

rstrip_of_IsSolid : (s : String) → IsSolid s → rstrip s ≡ s
unfolding rstrip
rstrip_of_IsSolid [] h = refl
rstrip_of_IsSolid (c ∷ s) h = ground (arith, h.0, rstrip_of_IsSolid s h.1)

pub strip_of_IsSolid : (s : String) → IsSolid s → strip s ≡ s
unfolding strip
strip_of_IsSolid s h = rw (lstrip_of_IsSolid s h) (rstrip_of_IsSolid s h)

-- A capital letter moves up by 32, and every other character stays.
pub code-lower_char :
    (c : Char)
    → code (lower_char c)
      ≡ (if leb 65 (code c) then (if leb (code c) 90 then code c + 32 else code c) else code c)
unfolding lower_char
code-lower_char c = ground arith

-- A character that is no capital letter is its own lower case.
pub lower_char_id : (c : Char) → (code c ≤ 64) ⊎ (91 ≤ code c) → lower_char c ≡ c
lower_char_id c h = Char-path _ c (ground (arith, code-lower_char c))

abbrev pub IsLower : String → Type 0
IsLower [] = Unit
IsLower (c ∷ s) = (lower_char c ≡ c) × IsLower s

pub lower_of_IsLower : (s : String) → IsLower s → lower s ≡ s
unfolding lower
lower_of_IsLower [] h = refl
lower_of_IsLower (c ∷ s) h = cc (h.0, lower_of_IsLower s h.1)

-- Lowering twice is lowering once.
pub lower_char_idem : (c : Char) → lower_char (lower_char c) ≡ lower_char c
lower_char_idem c = lower_char_id (lower_char c) (ground (arith, code-lower_char c))
