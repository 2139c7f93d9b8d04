-- ===== src/Fetching/Interval.antt =====
-- coordinator_parts/fetching.py and coordinator.py: the poll interval, credentials, and recovery.
use keenetic_router_pro.Prelude.{◌≡◌, Bool, true, List, any, keep, arith, ◌++◌, ◌||◌, [], refl}
use keenetic_router_pro.Fetching.{
  ok_or_default, FetchError, raised, returned, critical_fetch_names, FetchFailure, is_critical,
  is_auth, evaluate_critical_failures, PollState, auth_failed, settle_tick, next_backoff_interval,
  String, ◌∷◌, mem, false,
}

-- The interval follows the number of UpdateFailed ticks in a row.
pub record IsPaced (s : PollState) : Type 0 where
  pub paced : s.update_interval ≡ next_backoff_interval s.backoff_count

-- Every tick keeps the poll interval at 60 seconds, or at 120 from the second failed tick on.
pub settle_tick-IsPaced :
    (failed : List FetchFailure) (have_previous_data payload : Bool) (s : PollState)
    → IsPaced s
    → IsPaced (settle_tick failed have_previous_data payload s).1
unfolding settle_tick
settle_tick-IsPaced failed have_previous_data payload s p = ground (arith, p.paced)

any_auth-append :
    (xs ys : List FetchFailure)
    → any is_auth (keep is_critical (xs ++ ys))
      ≡ (any is_auth (keep is_critical xs) || any is_auth (keep is_critical ys))
unfolding keep
any_auth-append [] ys = refl
any_auth-append (x ∷ xs) ys = ground (arith, any_auth-append xs ys)

rejected_append :
    (f : FetchFailure) (xs ys : List FetchFailure)
    → is_critical f ≡ true
    → is_auth f ≡ true
    → any is_auth (keep is_critical ((xs ++ f ∷ []) ++ ys)) ≡ true
unfolding keep
rejected_append f xs ys c a =
    ground (arith, any_auth-append (xs ++ f ∷ []) ys, any_auth-append xs (f ∷ []))

settle_tick-auth :
    (failed : List FetchFailure) (have_previous_data payload : Bool) (s : PollState)
    → any is_auth (keep is_critical failed) ≡ true
    → settle_tick failed have_previous_data payload s ≡ (auth_failed, s)
unfolding settle_tick evaluate_critical_failures
settle_tick-auth failed have_previous_data payload s h = ground arith

-- A critical fetch that rejects the credentials ends the tick at once and leaves the state alone, whatever
-- the streak, and whatever else failed before it and after it in the tick.
pub rejection_ends_tick :
    {A : Type 0} (name m : String) (default : A) (failed more : List FetchFailure)
    (have_previous_data payload : Bool) (s : PollState)
    → mem name critical_fetch_names ≡ true
    → (failures : List FetchFailure) × (ok_or_default name
          (raised (FetchError.auth_error m))
          default
          failed
          false
        ≡ returned default failures)
      × (settle_tick (failures ++ more) have_previous_data payload s ≡ (auth_failed, s))
unfolding ok_or_default
rejection_ends_tick name m default failed more have_previous_data payload s h =
    let failure : FetchFailure = record { name = name; error = FetchError.auth_error m } in
    (
      failed ++ failure ∷ [],
      refl,
      settle_tick-auth ((failed ++ failure ∷ []) ++ more) have_previous_data payload s
          (rejected_append failure failed more h refl),
    )
