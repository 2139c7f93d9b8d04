-- ===== src/Value/Defs.antt =====
-- The values of the router's payloads: `json.loads` makes them, and the program builds more of them.
use keenetic_router_pro.Prelude.{
  String, Bool, true, false, not, Option, none, some, List, if◌then◌else◌, ◌==◌, ℤ, pos, eqb_ℤ,
}
use keenetic_router_pro.Prelude
use keenetic_router_pro.Value.Floats.{Float, float_eq, float_zero}

-- A dict keeps its keys in the order of insertion.
mutual
  pub data Value : Type 0 where
    null : Value
    bool : Bool → Value
    int : ℤ → Value
    float : Float → Value
    str : String → Value
    list : Items → Value
    dict : Fields → Value

  pub data Items : Type 0 where
    nil : Items
    cons : Value → Items → Items

  pub data Fields : Type 0 where
    end : Fields
    field : String → Value → Fields → Fields

abbrev pub items : Items → List Value
items nil = Prelude.[]
items (cons x xs) = Prelude.◌∷◌ x (items xs)

-- `bool(v)`.
unfoldable pub truthy : Value → Bool
unfolding float_eq
truthy null = false
truthy (bool b) = b
truthy (int z) = not (eqb_ℤ z (pos 0))
truthy (float x) = not (float_eq x float_zero)
truthy (str s) = not (s == "")
truthy (list nil) = false
truthy (list (cons x xs)) = true
truthy (dict end) = false
truthy (dict (field k v fs)) = true

-- `a or b`.
abbrev pub or_else : Value → Value → Value
or_else a b = if truthy a then a else b

-- `v in (None, "")`.
unfoldable pub is_blank : Value → Bool
is_blank null = true
is_blank (str s) = s == ""
is_blank _ = false

-- `isinstance(v, dict)` and its content.
abbrev pub as_dict : Value → Option Fields
as_dict (dict fs) = some fs
as_dict _ = none

-- The elements that a `for` loop over a list value visits. No caller hands the loops another shape:
-- the payloads pass through `list_or_empty` or an `isinstance` test first.
abbrev pub elements : Value → List Value
elements (list xs) = items xs
elements _ = Prelude.[]

-- `[v for v in vs if isinstance(v, dict)]`.
unfoldable pub dicts : List Value → List Fields
dicts Prelude.[] = Prelude.[]
dicts (Prelude.◌∷◌ (dict fs) vs) = Prelude.◌∷◌ fs (dicts vs)
dicts (Prelude.◌∷◌ v vs) = dicts vs
