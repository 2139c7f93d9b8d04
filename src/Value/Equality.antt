-- ===== src/Value/Equality.antt =====
-- Python's `==` on the values: numbers compare across `bool`, `int` and `float`, dicts without order.
use keenetic_router_pro.Prelude.{
  ℕ, suc, Bool, true, false, ◌&&◌, Option, none, some, eqb, ◌==◌, if◌then◌else◌, pos, List, [], ◌∷◌,
}
use keenetic_router_pro.Value.Floats.{Float, float_eq, of_ℤ}
use keenetic_router_pro.Value.Defs.{
  Value, null, bool, int, float, str, list, dict, Items, nil, cons, Fields, end, field,
}
use keenetic_router_pro.Value.Dicts.{get, has}

-- The number that a value is, if it is one.
abbrev pub number : Value → Option Float
number (bool true) = some (of_ℤ (pos 1))
number (bool false) = some (of_ℤ (pos 0))
number (int z) = some (of_ℤ z)
number (float x) = some x
number _ = none

abbrev number_eq : Float → Option Float → Bool
number_eq x none = false
number_eq x (some y) = float_eq x y

abbrev pub size : Fields → ℕ
size end = 0
size (field k v fs) = suc (size fs)

unfoldable mutual
  unfolding float_eq get has

  pub value_eq : Value → Value → Bool
  value_eq null null = true
  value_eq null _ = false
  value_eq (bool true) w = number_eq (of_ℤ (pos 1)) (number w)
  value_eq (bool false) w = number_eq (of_ℤ (pos 0)) (number w)
  value_eq (int z) w = number_eq (of_ℤ z) (number w)
  value_eq (float x) w = number_eq x (number w)
  value_eq (str s) (str t) = s == t
  value_eq (str s) _ = false
  value_eq (list xs) (list ys) = items_eq xs ys
  value_eq (list xs) _ = false
  value_eq (dict fs) (dict gs) = eqb (size fs) (size gs) && fields_in fs gs
  value_eq (dict fs) _ = false

  pub items_eq : Items → Items → Bool
  items_eq nil nil = true
  items_eq nil (cons y ys) = false
  items_eq (cons x xs) nil = false
  items_eq (cons x xs) (cons y ys) = value_eq x y && items_eq xs ys

  -- Every entry of the first is in the second, with an equal value.
  pub fields_in : Fields → Fields → Bool
  fields_in end gs = true
  fields_in (field k v fs) gs = (has k gs && value_eq v (get k gs)) && fields_in fs gs

-- A dict whose keys are values, in the order of insertion.
abbrev pub ValueMap {ℓ} : Type ℓ → Type ℓ
ValueMap V = List (Value × V)

module _ {ℓ} {V : Type ℓ} where
  -- `d.get(k)`.
  unfoldable pub find : Value → ValueMap V → Option V
  find k [] = none
  find k ((j, v) ∷ d) = if value_eq j k then some v else find k d

  -- `d[k] = v`.
  unfoldable pub assign : Value → V → ValueMap V → ValueMap V
  assign k v [] = (k, v) ∷ []
  assign k v ((j, w) ∷ d) = if value_eq j k then (j, v) ∷ d else (j, w) ∷ assign k v d
