-- ===== src/Coordinator/Counter/Written.antt =====
-- coordinator.py: a counter that has something to write is written.
use keenetic_router_pro.Prelude.{zero, suc, ◌≡◌, ◌≤◌, refl, ◌<◌, arith, suc}
use keenetic_router_pro.Prelude.{◌⊎◌, inl, inr, Bool-cases, ltb, ◌∙◌}
use keenetic_router_pro.Value.{Value}
use keenetic_router_pro.Oom.{OomState, DateTime, DateTimes}
use keenetic_router_pro.Coordinator.Counter.{
  OomCounter, Store, store, load_once, advance, save_if_dirty, try_save, tick_counter, Option, some,
  true, [], List, ℕ, ◌∷◌,
}
use keenetic_router_pro.Coordinator.Counter.Saving.{IsSound, advance-Keeps}

-- Ticks with any events and any clock.
abbrev pub run_counter :
    DateTimes → Store → ℕ → (ℕ → List Value) → (ℕ → DateTime) → OomCounter → OomCounter
run_counter dt s zero events now c = c
run_counter dt s (suc n) events now c =
    run_counter dt s n (λ i. events (suc i)) (λ i. now (suc i))
      (tick_counter dt s (events 0) (now 0) c).1

-- One of the ticks 0 to `bound` writes the state that it leaves.
abbrev pub WritesWithin :
    DateTimes → Option Value → ℕ → (ℕ → List Value) → (ℕ → DateTime) → OomCounter → Type 0
WritesWithin dt load bound events now c =
    (n : ℕ) × (n ≤ bound)
    × ((tick_counter dt (store load true) (events n) (now n)
          (run_counter dt (store load true) n events now c)).0
        ≡ some
            (tick_counter dt (store load true) (events n) (now n)
              (run_counter dt (store load true) n events now c)).1.state)

-- A dirty counter is written in the tick, or waits one tick less.
abbrev IsNearer : OomCounter → Option OomState × OomCounter → Type 0
IsNearer c out =
    (out.0 ≡ some out.1.state)
    ⊎ ((out.1.loaded ≡ true) × (out.1.dirty ≡ true) × (out.1.save_retry_after < c.save_retry_after))

save-IsNearer :
    (load : Option Value) (c : OomCounter)
    → c.loaded ≡ true
    → c.dirty ≡ true
    → IsNearer c (save_if_dirty (store load true) c)
unfolding save_if_dirty try_save
save-IsNearer load c l d = elim (Bool-cases (ltb 0 c.save_retry_after)) [
  | inl t ↦ rw (l, d, t) (inr (refl, refl, ground arith))
  | inr f ↦ rw (l, d, f) (inl refl)
]

advance-IsDirty :
    (dt : DateTimes) (events : List Value) (now : DateTime) (c : OomCounter)
    → c.dirty ≡ true
    → ((advance dt events now c).dirty ≡ true)
      × ((advance dt events now c).save_retry_after ≤ c.save_retry_after)
unfolding advance
advance-IsDirty dt [] now c d = (d, omega arith)
advance-IsDirty dt (e ∷ events) now c d = ground arith

load_once_of_loaded : (s : Store) (c : OomCounter) → c.loaded ≡ true → load_once s c ≡ c
unfolding load_once
load_once_of_loaded s c l = ground arith

tick-IsNearer :
    (dt : DateTimes) (load : Option Value) (events : List Value) (now : DateTime) (c : OomCounter)
    → c.loaded ≡ true
    → c.dirty ≡ true
    → IsNearer c (tick_counter dt (store load true) events now c)
unfolding tick_counter
tick-IsNearer dt load events now c l d =
    rw (load_once_of_loaded (store load true) c l)
      (elim (save-IsNearer load (advance dt events now c) ((advance-Keeps dt events now c).0 ∙ l)
        (advance-IsDirty dt events now c d).0) [
          | inl w ↦ inl w
          | inr (l', d', h) ↦ inr (l', d', omega (arith, h, (advance-IsDirty dt events now c d).1))
        ])

written_within :
    (dt : DateTimes) (load : Option Value) (bound : ℕ) (events : ℕ → List Value)
    (now : ℕ → DateTime) (c : OomCounter)
    → c.loaded ≡ true
    → c.dirty ≡ true
    → c.save_retry_after ≤ bound
    → WritesWithin dt load bound events now c
written_within dt load zero events now c l d h =
    elim (tick-IsNearer dt load (events 0) (now 0) c l d) [
      | inl w ↦ (0, omega arith, w)
      | inr (l', d', k) ↦ absurd (omega arith)
    ]
written_within dt load (suc bound) events now c l d h =
    elim (tick-IsNearer dt load (events 0) (now 0) c l d) [
      | inl w ↦ (0, omega arith, w)
      | inr (l', d', k) ↦
          let later =
            written_within dt load bound (λ i. events (suc i)) (λ i. now (suc i))
              (tick_counter dt (store load true) (events 0) (now 0) c).1 l' d' (omega arith) in
          (suc later.0, omega (arith, later.1), later.2)
    ]

-- Whatever the log and the clock, a loaded counter that has something to write is written within fifteen
-- ticks of a store that takes it: one of them hands the store the state that it leaves.
pub saved_within_15_ticks :
    (dt : DateTimes) (load : Option Value) (events : ℕ → List Value) (now : ℕ → DateTime)
    (c : OomCounter)
    → IsSound c
    → c.loaded ≡ true
    → c.dirty ≡ true
    → WritesWithin dt load 14 events now c
saved_within_15_ticks dt load events now c h l d = written_within dt load 14 events now c l d h.2
