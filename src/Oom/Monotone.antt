-- ===== src/Oom/Monotone.antt =====
-- coordinator_parts/oom.py, `advance_oom_state`: the total over time.
use keenetic_router_pro.Prelude.{
  ℕ, Option, none, some, List, [], ◌∷◌, arith, ℤ, pos, ◌-ℤ◌, ◌≤ℤ◌, +ℤ_parts, int_laws,
}
use keenetic_router_pro.Value.{Value}
use keenetic_router_pro.Oom.{
  DateTime, DateTimes, OomState, Counts, Tally, tally_one, tally_counts, advance_counts,
  advance_oom_state, tallied, LastSeen, last_seen, count_events,
}

tally_one_grows :
    (last : Option DateTime) (c : ℤ) (d : DateTime) (n : ℕ) (t : Tally)
    → t.total ≤ℤ (tally_one last c d n t).total
unfolding tally_one
tally_one_grows none c d n t = omega int_laws
tally_one_grows (some l) c d n t =
    ground
      (arith, +ℤ_parts t.total (pos n), +ℤ_parts t.total (pos 0), +ℤ_parts t.total (pos n -ℤ c))

tally_counts_grows :
    (last : Option DateTime) (c : ℤ) (cs : Counts) (t : Tally)
    → t.total ≤ℤ (tally_counts last c cs t).total
unfolding tally_counts
tally_counts_grows last c [] t = omega arith
tally_counts_grows last c ((d, n) ∷ cs) t =
    omega
      (arith, tally_one_grows last c d n t, tally_counts_grows last c cs (tally_one last c d n t))

advance_counts_grows :
    (dt : DateTimes) (seen : LastSeen) (cs : Counts) (total : ℤ)
    → total ≤ℤ (advance_counts dt seen cs total).total
unfolding advance_counts tallied
advance_counts_grows dt seen [] total = omega arith
advance_counts_grows dt seen (c ∷ cs) total =
    tally_counts_grows seen.time seen.count (c ∷ cs) (record { total = total; newest = seen.time })

-- Whatever the state, the events and the clock, the new total is at least the old one.
pub advance_oom_state_grows :
    (dt : DateTimes) (s : OomState) (events : List Value) (now : DateTime)
    → s.total ≤ℤ (advance_oom_state dt s events now).total
unfolding advance_oom_state
advance_oom_state_grows dt s events now =
    advance_counts_grows dt (last_seen dt s now) (count_events dt now events []) s.total
