-- ===== src/Enrichment/Tunnels.antt =====
-- coordinator_parts/enrichment.py, `enrich_crypto_maps`: the throughput of the IPsec tunnels.
use keenetic_router_pro.Prelude.{
  String, ◌≡◌, refl, false, Option, none, some, [], ◌∷◌, Dict, lookup, Pairs,
}
use keenetic_router_pro.Value.{
  Float, float_zero, Value, float, Fields, get, get_or, get-put, Runtime,
}
use keenetic_router_pro.Enrichment.{enrich_crypto_map, enrich_crypto_maps, dict_entry}

-- What a tunnel's fields are on a tick that did not read the tunnels' counters.
abbrev pub IsHeld : Option Fields → Float → Fields → Type 0
IsHeld none now_ts out =
    (get "rx_throughput" out ≡ float float_zero)
    × (get "tx_throughput" out ≡ float float_zero)
    × (get "_sample_ts" out ≡ float now_ts)
IsHeld (some prev) now_ts out =
    (get "rx_throughput" out ≡ get_or "rx_throughput" (float float_zero) prev)
    × (get "tx_throughput" out ≡ get_or "tx_throughput" (float float_zero) prev)
    × (get "_sample_ts" out ≡ get "_sample_ts" prev)

-- The same tunnel, held.
abbrev pub IsHeldEntry : Dict Value → Float → String × Fields → String × Fields → Type 0
IsHeldEntry prev now_ts e out = (out.0 ≡ e.0) × IsHeld (dict_entry (lookup e.0 prev)) now_ts out.1

enrich_crypto_map-IsHeld :
    (rt : Runtime) (prev : Option Fields) (now_ts : Float) (cmap : Fields)
    → IsHeld prev now_ts (enrich_crypto_map rt prev now_ts false cmap)
unfolding enrich_crypto_map
enrich_crypto_map-IsHeld rt none now_ts cmap = (simp get-put, simp get-put, simp get-put)
enrich_crypto_map-IsHeld rt (some prev) now_ts cmap = (simp get-put, simp get-put, simp get-put)

-- On a tick that did not read the tunnels' counters, every tunnel keeps its name, its place, the rates
-- and the sample time of the tick before, so that the next rate is taken over the whole gap; a tunnel
-- without an entry in that tick starts at the rate 0 and the present time.
pub enrich_crypto_maps-held :
    (rt : Runtime) (crypto_maps : Dict Fields) (prev : Dict Value) (now_ts : Float)
    → Pairs
        (IsHeldEntry prev now_ts)
        crypto_maps
        (enrich_crypto_maps rt crypto_maps prev now_ts false)
unfolding enrich_crypto_maps
enrich_crypto_maps-held rt [] prev now_ts = tt
enrich_crypto_maps-held rt ((name, cmap) ∷ rest) prev now_ts = (
  (refl, enrich_crypto_map-IsHeld rt (dict_entry (lookup name prev)) now_ts cmap),
  enrich_crypto_maps-held rt rest prev now_ts,
)
