-- ===== src/Enrichment/Carry.antt =====
-- coordinator_parts/enrichment.py, `carry_wan_samples`: the sample of an uplink.
use keenetic_router_pro.Prelude.{String, ◌≡◌, Dict, mem, ◌∙◌, if◌then◌else◌, ◌&&◌}
use keenetic_router_pro.Value.{Fields, get, has, Runtime, ValueMap, find}
use keenetic_router_pro.Enrichment.{carry_wan, lookup_id, wan_sample_keys, or_empty}
use keenetic_router_pro.Enrichment.PingCheck.{IsOther, stamp-kept, get-copy_keys}

-- Outside the ping check's fields, a tick that reads no counters gives an uplink the counters and rates
-- of the previous tick where that has them, and everything else as the router gave it in this tick.
pub carry_wan-sample :
    (rt : Runtime) (ping_check_status : Dict Fields) (prev : ValueMap Fields) (wan : Fields)
    (k : String)
    → IsOther k
    → get k (carry_wan rt ping_check_status prev wan) ≡ (
        if mem k wan_sample_keys && has k (or_empty (find (get "id" wan) prev))
        then get k (or_empty (find (get "id" wan) prev))
        else get k wan)
unfolding carry_wan
carry_wan-sample rt ping_check_status prev wan k o =
    stamp-kept (lookup_id (get "id" wan) ping_check_status) _ k o
    ∙ get-copy_keys k wan_sample_keys (or_empty (find (get "id" wan) prev)) wan
