-- ===== src/Coordinator/Counter/Saving.antt =====
-- coordinator.py: what a tick may write of the persisted counter, and when.
use keenetic_router_pro.Prelude.{◌≡◌, ◌≤◌, none, refl, arith, ◌||◌}
use keenetic_router_pro.Prelude.{ℤ, ◌≤ℤ◌, Bool, ◌∙◌, if◌then◌else◌}
use keenetic_router_pro.Utils.Coerce.{coerce_int_or_zero}
use keenetic_router_pro.Oom.Monotone.{advance_oom_state_grows}
use keenetic_router_pro.Value.{Value, null, bool, int, float, str, list, dict, get}
use keenetic_router_pro.Oom.{OomState, DateTime, DateTimes}
use keenetic_router_pro.Coordinator.Counter.{
  OomCounter, Store, no_store, store, load_once, load_from, advance, save_if_dirty, try_save,
  tick_counter, Option, some, true, false, not, [], List, ◌∷◌,
}

-- Unloaded means untouched; the delays are bounded, and the wait is shorter than the delay.
abbrev pub IsSound : OomCounter → Type 0
IsSound c =
    ((not c.dirty || c.loaded) ≡ true) × (c.save_backoff_ticks ≤ 15) × (c.save_retry_after ≤ 14)

-- Nothing is written before the load, and what is written is the counter's state.
abbrev pub IsWritten : Option OomState × OomCounter → Type 0
IsWritten (none, c) = Unit {0}
IsWritten (some s, c) = (c.loaded ≡ true) × (s ≡ c.state) × (c.dirty ≡ false)

load_from-IsSound : (s : Store) (c : OomCounter) → IsSound c → IsSound (load_from s c)
unfolding load_from
load_from-IsSound no_store c h = (ground arith, h.1, h.2)
load_from-IsSound (store none saves) c h = h
load_from-IsSound (store (some v) saves) c h = (ground arith, h.1, h.2)

load_once-IsSound : (s : Store) (c : OomCounter) → IsSound c → IsSound (load_once s c)
unfolding load_once
load_once-IsSound s c h = ground (arith, load_from-IsSound s c h)

advance-IsSound :
    (dt : DateTimes) (events : List Value) (now : DateTime) (c : OomCounter)
    → IsSound c
    → IsSound (advance dt events now c)
unfolding advance
advance-IsSound dt [] now c h = h
advance-IsSound dt (e ∷ events) now c h = ground arith

try_save-IsSound : (s : Store) (c : OomCounter) → IsSound c → IsSound (try_save s c).1
unfolding try_save
try_save-IsSound no_store c h = h
try_save-IsSound (store load true) c h = ground arith
try_save-IsSound (store load false) c h = ground arith

try_save-IsWritten : (s : Store) (c : OomCounter) → c.loaded ≡ true → IsWritten (try_save s c)
unfolding try_save
try_save-IsWritten no_store c h = tt
try_save-IsWritten (store load true) c h = (h, refl, refl)
try_save-IsWritten (store load false) c h = tt

save_if_dirty_lem :
    (s : Store) (c : OomCounter)
    → IsSound c
    → IsSound (save_if_dirty s c).1 × IsWritten (save_if_dirty s c)
unfolding save_if_dirty
save_if_dirty_lem s c h =
    (ground (arith, try_save-IsSound s c h), ground (arith, try_save-IsWritten s c))

-- The store of this tick gave the counter, or there is none.
abbrev pub loads : Store → Bool
loads no_store = true
loads (store none saves) = false
loads (store (some v) saves) = true

-- The total before the events of the tick: a counter that is not loaded starts from the stored one.
abbrev pub total_before : Store → OomCounter → ℤ
total_before (store (some (dict fs)) saves) c =
    if c.loaded then c.state.total else coerce_int_or_zero (get "total" fs)
total_before s c = c.state.total

-- A counter is loaded exactly if it was, or if the store answered, and no stored total is lost.
abbrev pub IsTaken : Store → OomCounter → OomCounter → Type 0
IsTaken s c c' = (c'.loaded ≡ (c.loaded || loads s)) × (total_before s c ≤ℤ c'.state.total)

load_once-IsTaken : (s : Store) (c : OomCounter) → IsTaken s c (load_once s c)
unfolding load_once load_from
load_once-IsTaken no_store c = ground arith
load_once-IsTaken (store none saves) c = ground arith
load_once-IsTaken (store (some null) saves) c = ground arith
load_once-IsTaken (store (some (bool b)) saves) c = ground arith
load_once-IsTaken (store (some (int z)) saves) c = ground arith
load_once-IsTaken (store (some (float x)) saves) c = ground arith
load_once-IsTaken (store (some (str t)) saves) c = ground arith
load_once-IsTaken (store (some (list xs)) saves) c = ground arith
load_once-IsTaken (store (some (dict fs)) saves) c = ground arith

-- Neither the events nor a save take a counter's load back, and the total never falls.
abbrev Keeps : OomCounter → OomCounter → Type 0
Keeps c c' = (c'.loaded ≡ c.loaded) × (c.state.total ≤ℤ c'.state.total)

pub advance-Keeps :
    (dt : DateTimes) (events : List Value) (now : DateTime) (c : OomCounter)
    → Keeps c (advance dt events now c)
unfolding advance
advance-Keeps dt [] now c = (refl, omega arith)
advance-Keeps dt (e ∷ events) now c =
    ground (arith, advance_oom_state_grows dt c.state (e ∷ events) now)

save_if_dirty-Keeps : (s : Store) (c : OomCounter) → Keeps c (save_if_dirty s c).1
unfolding save_if_dirty try_save
save_if_dirty-Keeps no_store c = ground arith
save_if_dirty-Keeps (store load true) c = ground arith
save_if_dirty-Keeps (store load false) c = ground arith

tick_counter-IsTaken :
    (dt : DateTimes) (s : Store) (events : List Value) (now : DateTime) (c : OomCounter)
    → IsTaken s c (tick_counter dt s events now c).1
unfolding tick_counter
tick_counter-IsTaken dt s events now c =
    let loaded = load_once s c in
    let advanced = advance dt events now loaded in
    let taken = load_once-IsTaken s c in
    let kept = advance-Keeps dt events now loaded in
    let saved = save_if_dirty-Keeps s advanced in
    (saved.0 ∙ kept.0 ∙ taken.0, omega (arith, taken.1, kept.1, saved.1))

-- Whatever the store does, a tick keeps the counter sound: it is not dirty before it is loaded, the delay
-- between two saves is at most 15 ticks and the wait at most 14. What a tick writes is the present state of
-- a loaded counter. A counter becomes loaded only where no store is configured or the store answered, so a
-- failed load never overwrites the stored total; and the total is not below the one that was loaded.
pub tick_counter-IsSound :
    (dt : DateTimes) (s : Store) (events : List Value) (now : DateTime) (c : OomCounter)
    → IsSound c
    → IsSound (tick_counter dt s events now c).1
      × IsWritten (tick_counter dt s events now c)
      × IsTaken s c (tick_counter dt s events now c).1
unfolding tick_counter
tick_counter-IsSound dt s events now c h =
    let saved =
      save_if_dirty_lem s (advance dt events now (load_once s c))
        (advance-IsSound dt events now (load_once s c) (load_once-IsSound s c h)) in
    (saved.0, saved.1, tick_counter-IsTaken dt s events now c)
