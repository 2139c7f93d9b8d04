-- ===== src/Value/Externals.antt =====
-- What the program takes from Python's runtime and the model does not define: the decimal reader of
-- `float(text)`, the printer `str(value)`, and the rounded operations on floats.
use keenetic_router_pro.Prelude.{ℕ, String, ◌≡◌, Option}
use keenetic_router_pro.Value.Floats.{Float}
use keenetic_router_pro.Value.Defs.{Value, str}

pub record Runtime : Type 0 where
  -- `float(text)`; `none` is ValueError.
  pub float_of_text : String → Option Float
  -- `str(value)`: a text is its own print.
  pub print : Value → String
  pub print-str : (s : String) → print (str s) ≡ s
  -- `x - y`, `x * y` and `n / x` in binary64; `none` is OverflowError.
  pub float_sub : Float → Float → Float
  pub float_mul : Float → Float → Float
  pub float_div : ℕ → Float → Option Float
