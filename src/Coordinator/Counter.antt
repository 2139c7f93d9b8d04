-- ===== src/Coordinator/Counter.antt =====
-- coordinator.py: the persisted out-of-memory counter, loaded once and saved with a growing delay.
pub mod Saving
pub mod Written
use keenetic_router_pro.Prelude.{
  String, if◌then◌else◌, List, Option, Bool, ℕ, true, none, min, not, ◌∷◌, false, ◌&&◌, some, ◌-◌,
  eqb_ℤ, ltb, [], max, ◌*◌,
}
use keenetic_router_pro.Value.{Value, int, null, dict, Fields, get, value_eq}
use keenetic_router_pro.Utils.Coerce.{coerce_int_or_zero}
use keenetic_router_pro.Oom.{OomState, DateTime, DateTimes, advance_oom_state}

pub record OomCounter : Type 0 where
  pub state : OomState
  pub loaded : Bool
  pub dirty : Bool
  pub save_backoff_ticks : ℕ
  pub save_retry_after : ℕ

-- What the store does in a tick: none is configured, or a load and a save, should they be called.
-- `none` is one of the exceptions that the code catches.
pub data Store : Type 0 where
  no_store : Store
  store : (load : Option Value) (saves : Bool) → Store

abbrev stored_state : Value → OomState → OomState
stored_state (dict fs) s = record {
  last_seen_iso = get "last_seen_iso" fs;
  last_seen_count = coerce_int_or_zero (get "last_seen_count" fs);
  total = coerce_int_or_zero (get "total" fs);
}
stored_state v s = s

-- The load, on a counter that is not loaded yet.
load_from : Store → OomCounter → OomCounter
load_from no_store c = record c { loaded = true }
load_from (store none saves) c = c
load_from (store (some stored) saves) c = record c {
  state = stored_state stored c.state;
  loaded = true;
}

unfoldable pub load_once : Store → OomCounter → OomCounter
unfolding load_from
load_once s c = if not c.loaded then load_from s c else c

-- `next_oom_state != self._oom_state`: a time is compared as its text, or as none.
unfoldable pub same_state : OomState → OomState → Bool
same_state a b =
    value_eq a.last_seen_iso b.last_seen_iso
    && eqb_ℤ a.last_seen_count b.last_seen_count
    && eqb_ℤ a.total b.total

module _ (dt : DateTimes) where
  -- The events of the tick, if there are any.
  unfoldable pub advance : List Value → DateTime → OomCounter → OomCounter
  advance [] now c = c
  advance (e ∷ events) now c =
      let next = advance_oom_state dt c.state (e ∷ events) now in
      if c.loaded && not (same_state next c.state)
      then record c { state = next; dirty = true; save_retry_after = 0 }
      else c

-- `min(max(1, backoff * 2), 15)`.
abbrev pub save_delay : ℕ → ℕ
save_delay backoff = min (max 1 (backoff * 2)) 15

-- The save that was tried: what it leaves, with whether it succeeded.
abbrev pub saved : Bool → OomCounter → OomCounter
saved true c = record c { dirty = false; save_backoff_ticks = 0; save_retry_after = 0 }
saved false c =
    let delay = save_delay c.save_backoff_ticks in
    record c { save_backoff_ticks = delay; save_retry_after = delay - 1 }

-- The save, and the state that was written.
try_save : Store → OomCounter → Option OomState × OomCounter
try_save no_store c = (none, c)
try_save (store load true) c = (some c.state, saved true c)
try_save (store load false) c = (none, saved false c)

unfoldable pub save_if_dirty : Store → OomCounter → Option OomState × OomCounter
unfolding try_save
save_if_dirty s c =
    if c.dirty && c.loaded
    then if ltb 0 c.save_retry_after
      then (none, record c { save_retry_after = c.save_retry_after - 1 })
      else try_save s c
    else (none, c)

-- One tick of the counter.
unfoldable pub tick_counter :
    DateTimes → Store → List Value → DateTime → OomCounter → Option OomState × OomCounter
tick_counter dt s events now c = save_if_dirty s (advance dt events now (load_once s c))
