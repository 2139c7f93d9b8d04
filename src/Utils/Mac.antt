-- ===== src/Utils/Mac.antt =====
-- `normalize_mac` of utils.py.
pub mod Shape
use Prim.Native.Char.{Char, code}
use Prim.Native.String.{[], ◌∷◌}
use keenetic_router_pro.Prelude.{
  ℕ, String, Bool, ◌&&◌, ◌||◌, leb, eqb, if◌then◌else◌, List, length, refl, ◌≡◌, ◌==◌,
}
use keenetic_router_pro.Prelude
use keenetic_router_pro.Value.{Value, str, or_else, Runtime}
use keenetic_router_pro.Text.{strip, lower}

-- `[0-9a-f]`.
pub is_hex : ℕ → Bool
is_hex c = (leb b'0' c && leb c b'9') || (leb b'a' c && leb c b'f')

-- `re.sub(r"[^0-9a-f]", "", text)`.
pub hex_digits : String → List Char
hex_digits [] = Prelude.[]
hex_digits (c ∷ s) = let rest = hex_digits s in if is_hex (code c) then Prelude.◌∷◌ c rest else rest

abbrev pub colon : Char
colon = ":"

-- `":".join(compact[i : i + 2] for i in range(0, n, 2))`.
pub pairs : List Char → String
pairs Prelude.[] = []
pairs (Prelude.◌∷◌ a Prelude.[]) = a ∷ []
pairs (Prelude.◌∷◌ a (Prelude.◌∷◌ b Prelude.[])) = a ∷ b ∷ []
pairs (Prelude.◌∷◌ a (Prelude.◌∷◌ b (Prelude.◌∷◌ c rest))) =
    a ∷ b ∷ colon ∷ pairs (Prelude.◌∷◌ c rest)

unfoldable pub mac_of_text : String → String
unfolding is_hex hex_digits pairs
mac_of_text text =
    let compact = hex_digits text in if eqb (length compact) 12 then pairs compact else ""

-- `str(value or "")`.
unfoldable pub text_or_empty : Runtime → Value → String
text_or_empty rt v = rt.print (or_else v (str ""))

-- `normalize_mac(value)`. The early return on an empty text is the case of no digits.
unfoldable pub normalize_mac : Runtime → Value → String
unfolding text_or_empty
normalize_mac rt v =
    let text = lower (strip (text_or_empty rt v)) in if text == "" then "" else mac_of_text text
