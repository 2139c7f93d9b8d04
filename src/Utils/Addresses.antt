-- ===== src/Utils/Addresses.antt =====
-- utils.py: hosts in a URL, addresses of mesh nodes and identifiers in logs. Python's `ipaddress` is a
-- parameter.
use keenetic_router_pro.Prelude.{
  String, Option, none, some, Bool, false, ℕ, ◌-◌, if◌then◌else◌, suc, eqb, ◌==◌, ◌&&◌, ◌||◌, zero,
  not,
}
use Prim.Native.Char.{code}
use text.Mathlib.Text.{starts_with}
use keenetic_router_pro.Text.{strip, contains, ◌<>◌}

-- `bracket_host(host)`, for a text.
unfoldable pub bracket_host : String → String
bracket_host host =
    let text = strip host in
    if contains b':' text && not (starts_with text "[") then "[" <> (text <> "]") else text

-- An address that `ipaddress.ip_address` parsed.
pub record IpAddress : Type 0 where
  pub is_unspecified : Bool
  pub is_multicast : Bool
  pub is_loopback : Bool
  pub compressed : String

-- `text[1:-1]` of a text that ends in `]`, and whether it ends so.
drop_last : String → String
drop_last String.[] = String.[]
drop_last (String.◌∷◌ c String.[]) = String.[]
drop_last (String.◌∷◌ c s) = String.◌∷◌ c (drop_last s)

ends_with : ℕ → String → Bool
ends_with b String.[] = false
ends_with b (String.◌∷◌ c String.[]) = eqb (code c) b
ends_with b (String.◌∷◌ c s) = ends_with b s

abbrev tail : String → String
tail String.[] = String.[]
tail (String.◌∷◌ c s) = s

abbrev unbracketed : String → String
unbracketed text =
    if starts_with text "[" && ends_with b']' text then drop_last (tail text) else text

abbrev reachable : Option IpAddress → Option String
reachable none = none
reachable (some a) =
    if a.is_unspecified || a.is_multicast || a.is_loopback then none else some a.compressed

-- `normalize_mesh_node_address(value)`, for a text.
unfoldable pub normalize_mesh_node_address : (String → Option IpAddress) → String → Option String
unfolding drop_last ends_with
normalize_mesh_node_address ip_address value =
    let text = unbracketed (strip value) in
    if text == "" || contains b'%' text then none else reachable (ip_address text)

count_chars : String → ℕ
count_chars String.[] = 0
count_chars (String.◌∷◌ c s) = suc (count_chars s)

drop_chars : ℕ → String → String
drop_chars zero s = s
drop_chars (suc n) String.[] = String.[]
drop_chars (suc n) (String.◌∷◌ c s) = drop_chars n s

-- `suffix.lstrip(".:")`.
lstrip_marks : String → String
lstrip_marks String.[] = String.[]
lstrip_marks (String.◌∷◌ c s) =
    let rest = lstrip_marks s in
    if eqb (code c) b'.' || eqb (code c) b':' then rest else String.◌∷◌ c s

-- `mask_identifier(value)`, for a text.
unfoldable pub mask_identifier : String → String
unfolding count_chars drop_chars lstrip_marks
mask_identifier text =
    if text == ""
    then "<unknown>"
    else "..." <> lstrip_marks (drop_chars (count_chars text - 5) text)
