-- ===== src/Domains/Wan/Shown.antt =====
-- api/domains/wan.py: which uplink is shown.
use keenetic_router_pro.Prelude.{
  String, List, [], ◌∷◌, Option, some, none, Bool, true, false, any, first, ◌≡◌, refl, arith,
  Bool-cases, inl, inr, not, ◌==◌, ◌∙◌, ◌||◌,
}
use keenetic_router_pro.Value.{str, Fields, get, Runtime}
use keenetic_router_pro.Parsers.Wan.{extract_wan_ip}
use keenetic_router_pro.Domains.Wan.{
  wan_status, build_result, is_wan_iface, is_pppoe_up, is_wan_up, is_up, status_of, result_or,
  no_wan,
}

-- The first that passes a test, or none does.
abbrev IsFirst : (Fields → Bool) → List Fields → Option Fields → Type 0
IsFirst p xs none = any p xs ≡ false
IsFirst p xs (some i) = (p i ≡ true) × ((q : Fields → Bool) → any q xs ≡ false → q i ≡ false)

IsFirst-cons :
    (p : Fields → Bool) (x : Fields) (xs : List Fields) (o : Option Fields)
    → p x ≡ false
    → IsFirst p xs o
    → IsFirst p (x ∷ xs) o
IsFirst-cons p x xs none f h = ground arith
IsFirst-cons p x xs (some i) f h = (h.0, λ q n. h.1 q (ground arith))

first-IsFirst : (p : Fields → Bool) (xs : List Fields) → IsFirst p xs (first p xs)
unfolding first
first-IsFirst p [] = refl
first-IsFirst p (x ∷ xs) = elim (Bool-cases (p x)) [
  | inl t ↦ rw t (t, λ q n. ground arith)
  | inr f ↦ rw f (IsFirst-cons p x xs (first p xs) f (first-IsFirst p xs))
]

any_of_first :
    (p : Fields → Bool) (xs : List Fields) (i : Fields) → IsFirst p xs (some i) → any p xs ≡ true
any_of_first p xs i h = elim (Bool-cases (any p xs)) [
  | inl t ↦ t
  | inr f ↦ ground (arith, h.0, h.1 p f)
]

module _ (rt : Runtime) where
  -- The status of a summary, and whether it has an address.
  abbrev pub is_down : Fields → Bool
  is_down fs = elim (get "status" fs) [ str s ↦ s == "down" | _ ↦ false ]

  down_where :
      (iface : Fields) (t : String) → is_down (build_result rt iface t) ≡ not (is_up rt iface)
  unfolding build_result get
  down_where iface t = by_ip (extract_wan_ip rt iface true) (is_up rt iface)
    where
      by_ip : (ip : Option String) (up : Bool) → (status_of rt ip up == "down") ≡ not up
      by_ip none true = refl
      by_ip none false = refl
      by_ip (some s) true = refl
      by_ip (some s) false = refl

  third :
      (xs : List Fields) (o : Option Fields)
      → IsFirst (is_wan_iface rt) xs o
      → any (is_wan_up rt) xs ≡ false
      → is_down (result_or rt "ethernet" o (no_wan rt)) ≡ true
  unfolding get
  third xs none h n = refl
  third xs (some i) h n = down_where i "ethernet" ∙ ground (arith, h.1 (is_wan_up rt) n)

  second :
      (xs : List Fields) (o : Option Fields)
      → IsFirst (is_wan_up rt) xs o
      → is_down (
          result_or rt "ethernet" o
            (result_or rt "ethernet" (first (is_wan_iface rt) xs) (no_wan rt)))
        ≡ not (any (is_wan_up rt) xs)
  second xs none h = third xs _ (first-IsFirst (is_wan_iface rt) xs) h ∙ ground arith
  second xs (some i) h =
      down_where i "ethernet" ∙ ground (arith, h.0, any_of_first (is_wan_up rt) xs i h)

  first_pass :
      (xs : List Fields) (o : Option Fields)
      → IsFirst (is_pppoe_up rt) xs o
      → is_down (
          result_or rt "pppoe" o (
            result_or rt "ethernet"
              (first (is_wan_up rt) xs)
              (result_or rt "ethernet" (first (is_wan_iface rt) xs) (no_wan rt))))
        ≡ not (any (is_pppoe_up rt) xs || any (is_wan_up rt) xs)
  first_pass xs none h =
      second xs (first (is_wan_up rt) xs) (first-IsFirst (is_wan_up rt) xs) ∙ rw h refl
  first_pass xs (some i) h =
      down_where i "pppoe" ∙ ground (arith, h.0, any_of_first (is_pppoe_up rt) xs i h)

  -- The router is shown as down exactly if no PPPoE session and no uplink of another kind is up: an uplink
  -- that is down never hides one that is up, whatever the order of the interfaces.
  pub wan_status-down :
      (xs : List Fields)
      → is_down (wan_status rt xs) ≡ not (any (is_pppoe_up rt) xs || any (is_wan_up rt) xs)
  unfolding wan_status
  wan_status-down xs = first_pass xs (first (is_pppoe_up rt) xs) (first-IsFirst (is_pppoe_up rt) xs)
