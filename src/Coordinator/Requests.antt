-- ===== src/Coordinator/Requests.antt =====
-- coordinator.py: the one-shot requests that a write entity or an update entity makes of the next tick.
pub mod Served
use keenetic_router_pro.Prelude.{String, true, if◌then◌else◌, Bool, ℕ, ◌&&◌, false, ◌+◌, ◌||◌, eqb}
use keenetic_router_pro.Refresh.{RefreshPlan, refresh_plan}

-- A flag with the token that numbers its requests: `_full_refresh_pending` and `_full_refresh_token`,
-- and so on.
pub record OneShot : Type 0 where
  pub pending : Bool
  pub token : ℕ

pub record Pending : Type 0 where
  pub full_refresh : OneShot
  pub host_policies_refresh : OneShot
  pub update_check : OneShot

abbrev pub arm : OneShot → OneShot
arm s = record { pending = true; token = s.token + 1 }

-- `request_full_refresh()`, `request_host_policies_refresh()` and `request_update_check()`.
unfoldable pub request_full_refresh : Pending → Pending
request_full_refresh p = record p { full_refresh = arm p.full_refresh }

unfoldable pub request_host_policies_refresh : Pending → Pending
request_host_policies_refresh p = record p { host_policies_refresh = arm p.host_policies_refresh }

unfoldable pub request_update_check : Pending → Pending
request_update_check p = record p { update_check = arm p.update_check }

-- What a tick refreshes: its plan, and the two fetches that have a request of their own.
pub record TickPlan : Type 0 where
  pub plan : RefreshPlan
  pub host_policies_refresh : Bool
  pub update_check_refresh : Bool

abbrev replaced : Bool → RefreshPlan → RefreshPlan
replaced false plan = plan
replaced true plan = record plan {
  medium_refresh = true;
  slow_refresh = true;
  very_slow_refresh = true;
  ipsec_status_refresh = true;
}

-- The head of `_async_update_data_unlocked`.
unfoldable pub tick_plan : Bool → ℕ → Pending → TickPlan
tick_plan first_refresh refresh_count p =
    let plan = replaced p.full_refresh.pending (refresh_plan first_refresh refresh_count) in
    record {
      plan = plan;
      host_policies_refresh = plan.slow_refresh || p.host_policies_refresh.pending;
      update_check_refresh = plan.update_check_refresh || p.update_check.pending;
    }

-- A request that the tick began with is taken back, if no newer one came since.
abbrev pub consume : OneShot → OneShot → OneShot
consume before now =
    if before.pending && eqb now.token before.token then record now { pending = false } else now

-- The end of a tick that publishes; `before` is what it read at its start.
unfoldable pub consume_requests : Pending → Pending → Pending
consume_requests before now = record {
  full_refresh = consume before.full_refresh now.full_refresh;
  host_policies_refresh = consume before.host_policies_refresh now.host_policies_refresh;
  update_check = consume before.update_check now.update_check;
}
