-- ===== src/Parsers/Wan/Access.antt =====
-- api/parsers/wan.py: the address that an uplink shows, and what its internet access rests on.
use keenetic_router_pro.Prelude.{
  String, ◌≡◌, arith, ℕ, true, refl, Bool-cases, eqb, inl, inr, eq_iff,
}
use Prim.Native.Char.{code}
use keenetic_router_pro.Text.{strip, before, contains, lower}
use keenetic_router_pro.Value.{Value, str, dict, list, nil, cons, Fields, get, Runtime}
use keenetic_router_pro.Utils.Coerce.{coerce_bool}
use keenetic_router_pro.Utils.Clients.{usable_ip, placeholder_ips}
use keenetic_router_pro.Utils.Mac.{text_or_empty}
use keenetic_router_pro.Parsers.Wan.{
  extract_ip_from_value, extract_wan_ip, derive_wan_internet_access, found_or, plain_text, bare_ip,
  text_value, Bool, plain_address, Option, none, true, some, false, mem, is_some,
}

contains-before : (sep : ℕ) (s : String) → contains sep (before sep s) ≡ false
unfolding contains before
contains-before sep String.[] = refl
contains-before sep (String.◌∷◌ c s) = elim (Bool-cases (eqb (code c) sep)) [
  | inl h ↦ rw h refl
  | inr h ↦ rw (h, contains-before sep s, h)
]

-- An address without a prefix length.
abbrev pub IsBare : Option String → Type 0
IsBare none = Unit {0}
IsBare (some s) = contains b'/' s ≡ false

module _ (rt : Runtime) where
  bare_ip-IsBare : (v : Value) → IsBare (bare_ip rt v)
  bare_ip-IsBare v = ground (arith, contains-before b'/' (rt.print v))

  extract_ip_from_value-IsBare : (v : Value) → IsBare (extract_ip_from_value rt v)
  unfolding extract_ip_from_value
  extract_ip_from_value-IsBare (str s) = ground (arith, contains-before b'/' s)
  extract_ip_from_value-IsBare (dict fs) = bare_ip-IsBare _
  extract_ip_from_value-IsBare (list nil) = tt
  extract_ip_from_value-IsBare (list (cons (dict fs) rest)) = bare_ip-IsBare _
  extract_ip_from_value-IsBare (list (cons (str s) rest)) = contains-before b'/' s
  extract_ip_from_value-IsBare (list (cons _ rest)) = tt
  extract_ip_from_value-IsBare _ = tt

  found_or-IsBare : (a b : Option String) → IsBare a → IsBare b → IsBare (found_or rt a b)
  found_or-IsBare none b h g = g
  found_or-IsBare (some s) b h g = ground arith

  plain_text-IsBare : (v : Value) (b : Option String) → IsBare b → IsBare (plain_text rt v b)
  plain_text-IsBare (str s) b h = ground (arith, contains-before b'/' s)
  plain_text-IsBare _ b h = h

  plain_address-IsBare : (iface : Fields) → IsBare (plain_address rt iface)
  plain_address-IsBare iface =
      plain_text-IsBare (get "ip" iface) _ (
        plain_text-IsBare (get "ipv4" iface) _ (plain_text-IsBare (get "ip-address" iface) none tt))

  -- The address of an uplink, in whichever of the known shapes the router gave it, carries no prefix
  -- length.
  pub extract_wan_ip-IsBare :
      (iface : Fields) (prefer_global_address : Bool)
      → IsBare (extract_wan_ip rt iface prefer_global_address)
  unfolding extract_wan_ip
  extract_wan_ip-IsBare iface true =
      found_or-IsBare _ _ (extract_ip_from_value-IsBare (get "global-address" iface)) (
        found_or-IsBare _ _ (extract_ip_from_value-IsBare (get "address" iface))
          (plain_address-IsBare iface))
  extract_wan_ip-IsBare iface false =
      found_or-IsBare _ _ (extract_ip_from_value-IsBare (get "address" iface)) (
        found_or-IsBare _ _ (extract_ip_from_value-IsBare (get "global-address" iface))
          (plain_address-IsBare iface))

  usable_ip_lem :
      (v : Value)
      → is_some (usable_ip rt v) ≡ true
      → (ip : String) × (usable_ip rt v ≡ some ip) × (mem ip placeholder_ips ≡ false)
  unfolding usable_ip
  usable_ip_lem v h = elim (Bool-cases (mem (strip (text_or_empty rt v)) placeholder_ips)) [
    | inl m ↦ absurd (ground arith)
    | inr m ↦ (strip (text_or_empty rt v), rw m refl, m)
  ]

  -- Internet access is derived only for an uplink whose link is up, which is global, which has an address
  -- that is no placeholder, and which reports no failure.
  pub internet_access_needs :
      (iface : Fields)
      → derive_wan_internet_access rt iface ≡ true
      → (lower (text_or_empty rt (get "state" iface)) ≡ "up")
        × (coerce_bool (get "global" iface) ≡ true)
        × ((ip : String) × (usable_ip rt (text_value rt (extract_wan_ip rt iface false)) ≡ some ip)
            × (mem ip placeholder_ips ≡ false))
        × (coerce_bool (str (lower (text_or_empty rt (get "fail" iface)))) ≡ false)
  unfolding derive_wan_internet_access
  internet_access_needs iface h = (
    ground (arith, eq_iff (lower (text_or_empty rt (get "state" iface))) "up"),
    ground arith,
    usable_ip_lem (text_value rt (extract_wan_ip rt iface false)) (ground arith),
    ground arith,
  )
