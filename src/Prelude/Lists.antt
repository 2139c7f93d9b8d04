-- ===== src/Prelude/Lists.antt =====
-- Lists measured by the native numbers, filters and predicates on lists, and dictionaries with text
-- keys in the order of insertion, as Python keeps them.
use Prim.Native.Nat.{ℕ, suc, ◌+◌}
use Prim.Native.String.{String}
use mathlib.Core.Path.{◌≡◌, refl, subst, sym}
use mathlib.Core.Bool.{Bool, true, false, ◌||◌}
use mathlib.Core.List.{List, [], ◌∷◌, ◌++◌}
use mathlib.Core.Option.{Option, none, some}
use native.Mathlib.Omega.{arith}
use mathlib.Core.Logic.{inl, inr}
use text.Mathlib.Text.{◌==◌}
use text.Mathlib.TextEquality.{eq_iff}
use keenetic_router_pro.Prelude.Tests.{if◌then◌else◌, Bool-cases}

module _ {ℓ} {A : Type ℓ} where
  abbrev pub length : List A → ℕ
  length [] = 0
  length (x ∷ xs) = suc (length xs)

  -- Keeps what passes a Boolean test.
  unfoldable pub keep : (A → Bool) → List A → List A
  keep p [] = []
  keep p (x ∷ xs) = let rest = keep p xs in if p x then x ∷ rest else rest

  abbrev pub any : (A → Bool) → List A → Bool
  any p [] = false
  any p (x ∷ xs) = p x || any p xs

  -- Python's `next((x for x in xs if p(x)), None)`.
  unfoldable pub first : (A → Bool) → List A → Option A
  first p [] = none
  first p (x ∷ xs) = let rest = first p xs in if p x then some x else rest

  pub length-append : (xs ys : List A) → length (xs ++ ys) ≡ length xs + length ys
  length-append [] ys = omega arith
  length-append (x ∷ xs) ys = omega (arith, length-append xs ys)

module _ {ℓ κ} {A : Type ℓ} (P : A → Type κ) where
  abbrev pub All : List A → Type κ
  All [] = Unit
  All (x ∷ xs) = P x × All xs

-- What holds where a test does.
abbrev pub When {ℓ} : Bool → Type ℓ → Type ℓ
When true P = P
When false P = Unit

pub when {ℓ} : {P : Type ℓ} → (b : Bool) → (b ≡ true → P) → When b P
when true f = f refl
when false f = tt

-- The elements of two lists of one length, in pairs.
module _ {ℓ κ} {A : Type ℓ} {B : Type κ} (R : A → B → Type 0) where
  abbrev pub Pairs : List A → List B → Type 0
  Pairs [] [] = Unit {0}
  Pairs (x ∷ xs) (y ∷ ys) = R x y × Pairs xs ys
  Pairs _ _ = ⊥

-- Membership of a text, as Python's `in` on a set or a tuple of texts.
abbrev pub mem : String → List String → Bool
mem s [] = false
mem s (x ∷ xs) = x == s || mem s xs

-- A dictionary with text keys.
abbrev pub Dict {ℓ} : Type ℓ → Type ℓ
Dict V = List (String × V)

module _ {ℓ} {V : Type ℓ} where
  -- `d.get(k)`; `none` is an absent key.
  unfoldable pub lookup : String → Dict V → Option V
  lookup k [] = none
  lookup k ((j, v) ∷ d) = if j == k then some v else lookup k d

  -- `d[k] = v`: a present key keeps its place.
  unfoldable pub insert : String → V → Dict V → Dict V
  insert k v [] = (k, v) ∷ []
  insert k v ((j, w) ∷ d) = if j == k then (j, v) ∷ d else (j, w) ∷ insert k v d

  pub lookup-insert :
      (k j : String) (v : V) (d : Dict V)
      → lookup j (insert k v d) ≡ (if k == j then some v else lookup j d)
  unfolding lookup insert
  lookup-insert k j v [] = refl
  lookup-insert k j v ((i, w) ∷ d) =
      ground (arith, eq_iff k j, eq_iff i k, eq_iff i j, lookup-insert k j v d)

  pub All-insert {κ} :
      (P : String × V → Type κ) (k : String) (v : V) (d : Dict V)
      → P (k, v)
      → All P d
      → All P (insert k v d)
  unfolding insert
  All-insert P k v [] p h = (p, tt)
  All-insert P k v ((j, w) ∷ d) p h = elim (Bool-cases (j == k)) [
    | inl e ↦ rw e (subst (λ i. P (i, v)) (sym ((eq_iff j k).0 e)) p, h.1)
    | inr e ↦ rw e (h.0, All-insert P k v d p h.1)
  ]
