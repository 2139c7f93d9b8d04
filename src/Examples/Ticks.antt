-- ===== src/Examples/Ticks.antt =====
-- Runs of ticks.
use keenetic_router_pro.Prelude.{
  keep, refl, ◌∷◌, List, arith, [], pos, false, none, ◌≡◌, ℕ, true, if◌then◌else◌, ltb, ◌&&◌,
}
use keenetic_router_pro.Value.{Value, null, str, list, cons, nil}
use keenetic_router_pro.Coordinator.Requests.{OneShot}
use keenetic_router_pro.Coordinator.Requests.Served.{
  Event, Machine, Account, run, accounts, IsRefined, run-IsRefined, asked, started, full,
}
use keenetic_router_pro.Coordinator.Counter.{OomCounter, store, tick_counter}
use keenetic_router_pro.Coordinator.Counter.Written.{WritesWithin, saved_within_15_ticks}
use keenetic_router_pro.Coordinator.Counter.Saving.{
  IsSound, IsWritten, tick_counter-IsSound, IsTaken,
}
use keenetic_router_pro.Coordinator.Freshness.Streak.{Attempt, skipped, attempted}
use keenetic_router_pro.Oom.{OomState, DateTime, advance_oom_state}
use keenetic_router_pro.Oom.Once.{SameAs, advance_oom_state_once}
use keenetic_router_pro.Fetching.{
  FetchFailure, PollState, settle_tick, next_backoff_interval, FetchError, Ending, update_failed,
}
use keenetic_router_pro.Fetching.Grace.{IsTransient, run_ticks, grace_window}
use keenetic_router_pro.Fetching.Interval.{IsPaced}
use keenetic_router_pro.Refresh.{refresh_plan, build_batch_tree}
use keenetic_router_pro.Prelude.{any, String}
use keenetic_router_pro.Refresh.Tree.{present}
use keenetic_router_pro.Refresh.Batch.{
  asks_for, AreAnswered, requests, build_batch_tree-AreAnswered,
}
use keenetic_router_pro.Examples.Setting.{calendar}

abbrev idle : OneShot
idle = record { pending = false; token = 0 }

abbrev quiet_machine : Machine
quiet_machine = record {
  now = record { full_refresh = idle; host_policies_refresh = idle; update_check = idle };
  running = none;
}

abbrev no_requests : Account
no_requests = record { made = 0; begun_with = none; served = 0 }

-- A request in the middle of a tick, and the ticks after it.
abbrev busy : List Event
busy =
    asked full
    ∷ started
    ∷ asked full
    ∷ Event.published
    ∷ started
    ∷ Event.failed
    ∷ started
    ∷ Event.published
    ∷ []

run-IsRefined_example : IsRefined full (accounts full busy no_requests) (run busy quiet_machine)
run-IsRefined_example =
    run-IsRefined full busy no_requests quiet_machine ((refl, refl, omega arith), tt)

abbrev first_of_march : DateTime
first_of_march = record { year = 3; month = 3; day = 1; micros = 5 }

-- Two events at one time, as three numbers of strokes: month, day, time of day.
abbrev event : Value
event = list (cons (str "11010110") (cons (str "IpSec::Vici::Stats: out of memory") nil))

abbrev log : List Value
log = event ∷ event ∷ []

abbrev fresh_state : OomState
fresh_state = record { last_seen_iso = null; last_seen_count = pos 0; total = pos 0 }

advance_oom_state_once_example :
    SameAs (advance_oom_state calendar fresh_state log first_of_march) (
      advance_oom_state calendar
        (advance_oom_state calendar fresh_state log first_of_march)
        log
        first_of_march)
advance_oom_state_once_example = advance_oom_state_once calendar fresh_state log first_of_march

abbrev dirty_counter : OomCounter
dirty_counter = record {
  state = record fresh_state { total = pos 7 };
  loaded = true;
  dirty = true;
  save_backoff_ticks = 4;
  save_retry_after = 3;
}

tick_counter-IsSound_example :
    IsSound (tick_counter calendar (store none false) log first_of_march dirty_counter).1
    × IsWritten (tick_counter calendar (store none false) log first_of_march dirty_counter)
    × IsTaken
        (store none false)
        dirty_counter
        (tick_counter calendar (store none false) log first_of_march dirty_counter).1
tick_counter-IsSound_example =
    tick_counter-IsSound calendar (store none false) log first_of_march dirty_counter
      (refl, omega arith, omega arith)

saved_within_15_ticks_example :
    WritesWithin calendar none 14 (λ i. log) (λ i. first_of_march) dirty_counter
saved_within_15_ticks_example =
    saved_within_15_ticks calendar none (λ i. log) (λ i. first_of_march) dirty_counter
      (refl, omega arith, omega arith) refl refl

abbrev dns_attempts : List Attempt
dns_attempts = attempted false ∷ attempted true ∷ skipped ∷ attempted true ∷ []

abbrev timeout : FetchFailure
timeout = record {
  name = "system_info";
  error = FetchError.other_error "Timeout for /rci/show/system";
}

abbrev steady : PollState
steady = record { critical_fail_streak = 0; backoff_count = 0; update_interval = 60 }

abbrev slowed : PollState
slowed = record { critical_fail_streak = 5; backoff_count = 2; update_interval = 120 }

all-IsTransient : (i : ℕ) → IsTransient (timeout ∷ [])
unfolding keep
all-IsTransient i = record { some_critical = refl; no_auth = refl }

grace_window_example :
    (settle_tick (timeout ∷ []) true true (run_ticks true (λ i. timeout ∷ []) 2 steady)).0
    ≡ (if true && ltb 2 3 then Ending.published else update_failed)
grace_window_example = grace_window true (λ i. timeout ∷ []) 2 steady all-IsTransient refl

slowed-IsPaced : IsPaced slowed
unfolding next_backoff_interval
slowed-IsPaced = record { paced = refl }

build_batch_tree-AreAnswered_example :
    AreAnswered
      ("show/ipsec" ∷ [])
      (requests (refresh_plan false 30) true false)
      (build_batch_tree (refresh_plan false 30) true ("show/ipsec" ∷ []) false)
    × ((seg : String) (segs : List String)
        → present
            (seg ∷ segs)
            (build_batch_tree (refresh_plan false 30) true ("show/ipsec" ∷ []) false)
          ≡ any
              (asks_for ("show/ipsec" ∷ []) (seg ∷ segs))
              (requests (refresh_plan false 30) true false))
build_batch_tree-AreAnswered_example =
    build_batch_tree-AreAnswered (refresh_plan false 30) true ("show/ipsec" ∷ []) false
