-- ===== src/Examples/Counters.antt =====
-- Byte counters.
use keenetic_router_pro.Prelude.{◌≡◌, pos, some, refl}
use keenetic_router_pro.Value.{Value, int, str, Float, float_lt, float_zero, of_ℤ}
use keenetic_router_pro.Utils.Coerce.{coerce_byte_count}
use keenetic_router_pro.Examples.Setting.{plain}

reads_text : coerce_byte_count plain (str "4096") ≡ some (pos 4096)
unfolding coerce_byte_count keenetic_router_pro.Value.is_blank
    keenetic_router_pro.Utils.Coerce.int_of_text keenetic_router_pro.Text.strip
    keenetic_router_pro.Value.is_finite float_lt keenetic_router_pro.Value.float_to_int
reads_text = refl

reads_int : coerce_byte_count plain (int (pos 100)) ≡ some (pos 100)
unfolding coerce_byte_count keenetic_router_pro.Value.is_blank
    keenetic_router_pro.Value.int_to_float keenetic_router_pro.Value.nat_to_float
    keenetic_router_pro.Value.is_finite float_lt keenetic_router_pro.Value.float_to_int
reads_int = refl
