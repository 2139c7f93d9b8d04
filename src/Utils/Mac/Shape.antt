-- ===== src/Utils/Mac/Shape.antt =====
-- utils.py, `normalize_mac`: the shape of its result.
use Prim.Native.Char.{Char, code}
use Prim.Native.String.{[], ◌∷◌}
use keenetic_router_pro.Prelude.{
  ℕ, String, true, false, refl, ◌≡◌, ◌⊎◌, List, length, All, arith, inl, inr, if◌then◌else◌, eq_iff,
  ◌==◌,
}
use keenetic_router_pro.Prelude
use keenetic_router_pro.Value.{Value, str, Runtime, truthy}
use keenetic_router_pro.Text.{strip, lower, is_space, lower_char}
use keenetic_router_pro.Text.Laws.{
  IsSolid, strip_of_IsSolid, lower_char_id, IsLower, lower_of_IsLower,
}
use keenetic_router_pro.Utils.Mac.{
  is_hex, hex_digits, pairs, mac_of_text, normalize_mac, text_or_empty, colon,
}

abbrev pub IsHex : Char → Type 0
IsHex c = is_hex (code c) ≡ true

-- Six pairs of lower-case hexadecimal digits, joined by colons.
pub record IsMac (s : String) : Type 0 where
  pub digits : List Char
  pub twelve : length digits ≡ 12
  pub hex : All IsHex digits
  pub text : s ≡ pairs digits

hex_digits-IsHex : (s : String) → All IsHex (hex_digits s)
unfolding hex_digits
hex_digits-IsHex [] = tt
hex_digits-IsHex (c ∷ s) = ground (arith, hex_digits-IsHex s)

mac_of_text_shape : (s : String) → (mac_of_text s ≡ "") ⊎ IsMac (mac_of_text s)
unfolding mac_of_text
mac_of_text_shape s = elim (Prelude.Bool-cases (Prelude.eqb (length (hex_digits s)) 12)) [
  | inl twelve ↦ rw twelve (
      inr (record {
        digits = hex_digits s;
        twelve = ground arith;
        hex = hex_digits-IsHex s;
        text = refl;
      }))
  | inr other ↦ rw other (inl refl)
]

hex_solid : (c : Char) → IsHex c → is_space (code c) ≡ false
unfolding is_hex is_space
hex_solid c h = ground arith

hex_lower : (c : Char) → IsHex c → lower_char c ≡ c
unfolding is_hex
hex_lower c h = lower_char_id c (ground arith)

pairs-IsSolid : (ds : List Char) → All IsHex ds → IsSolid (pairs ds)
unfolding pairs is_space
pairs-IsSolid Prelude.[] h = tt
pairs-IsSolid (Prelude.◌∷◌ a Prelude.[]) h = (hex_solid a h.0, tt)
pairs-IsSolid (Prelude.◌∷◌ a (Prelude.◌∷◌ b Prelude.[])) h =
    (hex_solid a h.0, (hex_solid b h.1.0, tt))
pairs-IsSolid (Prelude.◌∷◌ a (Prelude.◌∷◌ b (Prelude.◌∷◌ c rest))) h =
    (hex_solid a h.0, (hex_solid b h.1.0, (refl, pairs-IsSolid (Prelude.◌∷◌ c rest) h.1.1)))

pairs-IsLower : (ds : List Char) → All IsHex ds → IsLower (pairs ds)
unfolding pairs
pairs-IsLower Prelude.[] h = tt
pairs-IsLower (Prelude.◌∷◌ a Prelude.[]) h = (hex_lower a h.0, tt)
pairs-IsLower (Prelude.◌∷◌ a (Prelude.◌∷◌ b Prelude.[])) h =
    (hex_lower a h.0, (hex_lower b h.1.0, tt))
pairs-IsLower (Prelude.◌∷◌ a (Prelude.◌∷◌ b (Prelude.◌∷◌ c rest))) h = (
  hex_lower a h.0,
  (
    hex_lower b h.1.0,
    (lower_char_id colon (inl (omega arith)), pairs-IsLower (Prelude.◌∷◌ c rest) h.1.1),
  ),
)

hex_digits-cons :
    (c : Char) (s : String) → IsHex c → hex_digits (c ∷ s) ≡ Prelude.◌∷◌ c (hex_digits s)
unfolding hex_digits
hex_digits-cons c s h = rw h

hex_digits-colon : (s : String) → hex_digits (colon ∷ s) ≡ hex_digits s
unfolding hex_digits is_hex
hex_digits-colon s = refl

hex_digits-pairs : (ds : List Char) → All IsHex ds → hex_digits (pairs ds) ≡ ds
unfolding pairs
hex_digits-pairs Prelude.[] h = unfold hex_digits in refl
hex_digits-pairs (Prelude.◌∷◌ a Prelude.[]) h =
    rw (hex_digits-cons a [] h.0) (unfold hex_digits in refl)
hex_digits-pairs (Prelude.◌∷◌ a (Prelude.◌∷◌ b Prelude.[])) h =
    rw (hex_digits-cons a _ h.0, hex_digits-cons b [] h.1.0) (unfold hex_digits in refl)
hex_digits-pairs (Prelude.◌∷◌ a (Prelude.◌∷◌ b (Prelude.◌∷◌ c rest))) h = rw (
  hex_digits-cons a _ h.0,
  hex_digits-cons b _ h.1.0,
  hex_digits-colon _,
  hex_digits-pairs (Prelude.◌∷◌ c rest) h.1.1,
)

-- The text of a MAC address is its own normal form.
normalize_text :
    (ds : List Char)
    → All IsHex ds
    → length ds ≡ 12
    → mac_of_text (lower (strip (pairs ds))) ≡ pairs ds
unfolding mac_of_text
normalize_text ds h twelve = rw (
  strip_of_IsSolid (pairs ds) (pairs-IsSolid ds h),
  lower_of_IsLower (pairs ds) (pairs-IsLower ds h),
  hex_digits-pairs ds h,
  twelve,
)

mac_of_text-empty : (s : String) → (s == "") ≡ true → mac_of_text s ≡ ""
unfolding mac_of_text hex_digits
mac_of_text-empty s h = rw ((eq_iff s "").0 h)

normalize_text_cases : (s : String) → (if s == "" then "" else mac_of_text s) ≡ mac_of_text s
normalize_text_cases s = ground (arith, mac_of_text-empty s)

module _ (rt : Runtime) where
  -- The early return on an empty text changes nothing.
  normalize_mac_lem :
      (v : Value) → normalize_mac rt v ≡ mac_of_text (lower (strip (text_or_empty rt v)))
  unfolding normalize_mac
  normalize_mac_lem v = normalize_text_cases (lower (strip (text_or_empty rt v)))

  text_or_empty-str : (s : String) → text_or_empty rt (str s) ≡ s
  unfolding text_or_empty truthy
  text_or_empty-str s = ground (arith, rt.print-str s, rt.print-str "", eq_iff s "")

  -- `normalize_mac` returns the empty text, or six pairs of lower-case hexadecimal digits joined by
  -- colons.
  pub normalize_mac_shape : (v : Value) → (normalize_mac rt v ≡ "") ⊎ IsMac (normalize_mac rt v)
  normalize_mac_shape v = rw normalize_mac_lem (mac_of_text_shape _)

  normalize_mac-IsMac : (s : String) → IsMac s → normalize_mac rt (str s) ≡ s
  normalize_mac-IsMac s m =
      rw (normalize_mac_lem (str s), text_or_empty-str s, m.text)
        (normalize_text m.digits m.hex m.twelve)

  -- Normalising what `normalize_mac` returned changes nothing.
  pub normalize_mac_idem :
      (v : Value) → normalize_mac rt (str (normalize_mac rt v)) ≡ normalize_mac rt v
  unfolding mac_of_text lower
  normalize_mac_idem v = elim (normalize_mac_shape v) [
    | inl empty ↦ rw (empty, normalize_mac_lem, text_or_empty-str "") (unfold strip in refl)
    | inr mac ↦ normalize_mac-IsMac _ mac
  ]
