-- ===== src/Coordinator/Freshness/Streak.antt =====
-- coordinator.py: an optional source over a run of attempts.
use keenetic_router_pro.Prelude.{
  String, ℕ, List, ◌+◌, ◌∷◌, ◌≡◌, false, [], arith, eq_refl, refl, lookup-insert,
}
use keenetic_router_pro.Value.{Fields}
use keenetic_router_pro.Coordinator.Freshness.{
  count_or_zero, source_is_fresh, Bool, Dict, some, lookup, true, leb,
}

-- The ticks of one source: not attempted, or attempted with whether it failed.
pub data Attempt : Type 0 where
  skipped : Attempt
  attempted : Bool → Attempt

abbrev try : Fields → String → Attempt → Dict ℕ → Bool × Dict ℕ
try previous name skipped streaks = source_is_fresh (some previous) name false false streaks
try previous name (attempted failed) streaks =
    source_is_fresh (some previous) name true failed streaks

abbrev pub streaks_after : Fields → String → List Attempt → Dict ℕ → Dict ℕ
streaks_after previous name [] streaks = streaks
streaks_after previous name (a ∷ rest) streaks =
    streaks_after previous name rest (try previous name a streaks).1

-- The failures since the last success, with those of before.
abbrev pub failures : List Attempt → ℕ → ℕ
failures [] n = n
failures (skipped ∷ rest) n = failures rest n
failures (attempted true ∷ rest) n = failures rest (n + 1)
failures (attempted false ∷ rest) n = failures rest 0

module _ (previous : Fields) (name : String) where
  streaks_after-failures :
      (tries : List Attempt) (n : ℕ) (streaks : Dict ℕ)
      → count_or_zero (lookup name streaks) ≡ n
      → count_or_zero (lookup name (streaks_after previous name tries streaks)) ≡ failures tries n
  unfolding source_is_fresh
  streaks_after-failures [] n streaks h = h
  streaks_after-failures (skipped ∷ rest) n streaks h = streaks_after-failures rest n streaks h
  streaks_after-failures (attempted true ∷ rest) n streaks h =
      streaks_after-failures rest (n + 1) _ (
        ground (
          arith,
          eq_refl name,
          lookup-insert name name (count_or_zero (lookup name streaks) + 1) streaks,
        ))
  streaks_after-failures (attempted false ∷ rest) n streaks h =
      streaks_after-failures rest 0 _
        (ground (arith, eq_refl name, lookup-insert name name 0 streaks))

  -- With data of an earlier tick, a failed attempt leaves a source fresh exactly while it is among the
  -- first three failures since the last success, however many ticks did not attempt it in between.
  pub fresh_within_grace :
      (tries : List Attempt) (streaks : Dict ℕ)
      → (source_is_fresh
          (some previous)
          name
          true
          true
          (streaks_after previous name tries streaks)).0
        ≡ leb (failures tries (count_or_zero (lookup name streaks)) + 1) 3
  unfolding source_is_fresh
  fresh_within_grace tries streaks =
      rw (streaks_after-failures tries (count_or_zero (lookup name streaks)) streaks refl)
