-- ===== src/Refresh/Cadence.antt =====
-- coordinator_parts/refresh.py, `refresh_plan`: how often each tier runs.
use keenetic_router_pro.Prelude.{ℕ, ◌+◌, ◌≡◌, true, false, not, ◌&&◌, ◌||◌, arith}
use keenetic_router_pro.Refresh.{RefreshPlan, refresh_plan}

abbrev pub later : ℕ → RefreshPlan
later n = refresh_plan false n

-- After the first tick, the medium tier runs on exactly one of two ticks in a row, and the slow tier,
-- with the IPsec status, on exactly one of three.
pub tiers_gaps :
    (n : ℕ)
    → ((later n).medium_refresh ≡ not (later (n + 1)).medium_refresh)
      × (((later n).slow_refresh || (later (n + 1)).slow_refresh || (later (n + 2)).slow_refresh)
          ≡ true)
      × (((later n).slow_refresh && (later (n + 1)).slow_refresh) ≡ false)
      × (((later n).slow_refresh && (later (n + 2)).slow_refresh) ≡ false)
      × ((later n).ipsec_status_refresh ≡ (later n).slow_refresh)
unfolding refresh_plan
tiers_gaps n = (ground arith, ground arith, ground arith, ground arith, ground arith)
