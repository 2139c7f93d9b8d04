-- ===== src/Fetching/Grace.antt =====
-- coordinator_parts/fetching.py: the grace window for failing critical fetches.
use keenetic_router_pro.Prelude.{
  ℕ, zero, suc, ◌+◌, ◌≡◌, Bool, true, false, List, [], ◌∷◌, any, keep, arith, ltb, leb,
  if◌then◌else◌, ◌&&◌,
}
use keenetic_router_pro.Fetching.{
  FetchFailure, tolerate, fail, is_critical, is_auth, evaluate_critical_failures, PollState,
  published, update_failed, settle_tick,
}

-- A tick whose critical fetches failed, and not for the credentials.
pub record IsTransient (failed : List FetchFailure) : Type 0 where
  pub some_critical : any is_critical failed ≡ true
  pub no_auth : any is_auth (keep is_critical failed) ≡ false

abbrev cons_or_nil {ℓ} : {A : Type ℓ} → List A → Bool
cons_or_nil [] = false
cons_or_nil (x ∷ xs) = true

keep-cons_of_any :
    (failed : List FetchFailure)
    → any is_critical failed ≡ true
    → cons_or_nil (keep is_critical failed) ≡ true
unfolding keep
keep-cons_of_any [] h = cc
keep-cons_of_any (f ∷ fs) h = ground (arith, keep-cons_of_any fs)

-- The decision on such a tick.
decide_transient :
    (failed : List FetchFailure) (have_previous_data : Bool) (streak grace : ℕ)
    → IsTransient failed
    → (evaluate_critical_failures failed have_previous_data streak grace).streak ≡ streak + 1
      × ((evaluate_critical_failures failed have_previous_data streak grace).action
          ≡ (if have_previous_data && leb (streak + 1) grace then tolerate else fail))
unfolding evaluate_critical_failures
decide_transient failed have_previous_data streak grace t =
    ground (arith, keep-cons_of_any failed, t.some_critical, t.no_auth)

module _ (have_previous_data : Bool) (failures : ℕ → List FetchFailure) where
  -- `n` such ticks in a row. A tick that publishes the previous snapshot does not make a new one, so whether
  -- there is one stays as it is.
  pub run_ticks : ℕ → PollState → PollState
  run_ticks zero s = s
  run_ticks (suc n) s = (settle_tick (failures n) have_previous_data true (run_ticks n s)).1

  run_ticks_streak :
      (n : ℕ) (s : PollState)
      → ((i : ℕ) → IsTransient (failures i))
      → (run_ticks n s).critical_fail_streak ≡ s.critical_fail_streak + n
  unfolding run_ticks settle_tick
  run_ticks_streak zero s t = omega arith
  run_ticks_streak (suc n) s t = ground (
    arith,
    run_ticks_streak n s t,
    decide_transient (failures n) have_previous_data (run_ticks n s).critical_fail_streak 3 (t n),
  )

  -- When, from a streak of 0, every tick fails a critical fetch, and not for the credentials, then with a
  -- previous snapshot that has the router's state and interfaces the first three ticks still publish and
  -- every later one raises UpdateFailed, and without a snapshot every one of them raises it.
  pub grace_window :
      (n : ℕ) (s : PollState)
      → ((i : ℕ) → IsTransient (failures i))
      → s.critical_fail_streak ≡ 0
      → (settle_tick (failures n) have_previous_data true (run_ticks n s)).0
        ≡ (if have_previous_data && ltb n 3 then published else update_failed)
  unfolding settle_tick
  grace_window n s t z = ground (
    arith,
    run_ticks_streak n s t,
    decide_transient (failures n) have_previous_data (run_ticks n s).critical_fail_streak 3 (t n),
  )
