-- ===== src/Oom/Once.antt =====
-- coordinator_parts/oom.py, `advance_oom_state`: the same window of the log, read twice.
use keenetic_router_pro.Prelude.{
  ℕ, ◌≤◌, ◌≡◌, ◌≢◌, inl, inr, refl, some, [], ◌∷◌, arith, Bool-cases, ℤ, pos, ◌≤ℤ◌, if◌then◌else◌,
  none, subst, ap, Option-cases,
}
use keenetic_router_pro.Oom.{
  DateTime, key, Counts, Tally, tally_counts, Option, suc, DateTimes, count_parsed,
  parse_keenetic_log_ts, event_time, count_events, last_seen, OomState, Value, iso_or_none, List,
  in_past, leb_ℤ, stored_time, LastSeen, is_before, newest_count, tallied, advance_counts,
  advance_oom_state,
}
use keenetic_router_pro.Oom.Window.{
  IsDistinct, count_one-IsDistinct, AreAt-of_IsDistinct, IsCovered, tally_covered, rank, AreBelow,
  tally_rank, tally_rank_le, IsCovered-of_AreBelow, count_one-AreBelow, count-le-newest_count,
  raised_count,
}

-- The state `r` counts what `s` counts, up to the same time.
pub record SameAs (s r : OomState) : Type 0 where
  pub total : r.total ≡ s.total
  pub last_seen_iso : r.last_seen_iso ≡ s.last_seen_iso

module _ (dt : DateTimes) (now : DateTime) where
  -- What the counts of a window satisfy: distinct times, none in the future.
  record IsWindow (cs : Counts) : Type 0 where
    distinct : IsDistinct cs
    past : AreBelow (suc (key now)) cs

  count_parsed-IsWindow :
      (o : Option DateTime) (cs : Counts) → IsWindow cs → IsWindow (count_parsed now o cs)
  unfolding count_parsed
  count_parsed-IsWindow none cs w = w
  count_parsed-IsWindow (some d) cs w = elim (Bool-cases (is_before now d)) [
    | inl future ↦ rw future w
    | inr past ↦ rw past (record {
      distinct = count_one-IsDistinct d cs w.distinct;
      past = count_one-AreBelow (suc (key now)) d cs (ground arith) w.past;
    })
  ]

  count_events-IsWindow :
      (es : List Value) (cs : Counts) → IsWindow cs → IsWindow (count_events dt now es cs)
  unfolding count_events
  count_events-IsWindow [] cs w = w
  count_events-IsWindow (e ∷ es) cs w =
      count_events-IsWindow es _
        (count_parsed-IsWindow (parse_keenetic_log_ts dt (event_time e) now) cs w)

  last_seen_past : (s : OomState) → rank (last_seen dt s now).time ≤ suc (key now)
  unfolding last_seen
  last_seen_past s = in_past_past (stored_time dt s.last_seen_iso) s.last_seen_count
    where
      in_past_past : (o : Option DateTime) (c : ℤ) → rank (in_past now o c).time ≤ suc (key now)
      in_past_past none c = omega arith
      in_past_past (some d) c = ground arith

  -- A stored time that is not in the future is read back, with at least its count.
  last_seen_read :
      (l : DateTime) (c total : ℤ)
      → key l ≤ key now
      → last_seen dt
          (record { last_seen_iso = iso_or_none dt (some l); last_seen_count = c; total = total })
          now
        ≡ record { time = some l; count = if leb_ℤ c (pos 0) then pos 1 else c }
  unfolding last_seen
  last_seen_read l c total h = ground (arith, dt.fromisoformat-isoformat l, dt.isoformat-ne-empty l)

  -- The state after a window, read again with the same window.
  module _ (seen : LastSeen) (cs : Counts) (w : IsWindow cs)
      (old : rank seen.time ≤ suc (key now)) where
    abbrev after : ℤ → Tally
    after total =
        tally_counts seen.time seen.count cs (record { total = total; newest = seen.time })

    newest-IsCovered :
        (l : DateTime) (c total : ℤ)
        → (after total).newest ≡ some l
        → newest_count seen.time seen.count (some l) cs ≤ℤ c
        → IsCovered l c cs
    newest-IsCovered l c total e h =
        IsCovered-of_AreBelow l c cs cs
          (subst (λ o. AreBelow (rank o) cs) e
            (tally_rank seen.time seen.count cs _ (omega arith)).1)
          (AreAt-of_IsDistinct cs w.distinct)
          (omega (arith, count-le-newest_count seen.time seen.count l cs, h))

    newest_past : (l : DateTime) (total : ℤ) → (after total).newest ≡ some l → key l ≤ key now
    newest_past l total e =
        let bound =
          tally_rank_le seen.time seen.count cs (suc (key now))
            (record { total = total; newest = seen.time }) old w.past in
        omega (arith, subst (λ o. rank o ≤ suc (key now)) e bound)

    -- The state that the window leaves, when its newest time is `l`.
    abbrev left : DateTime → ℤ → OomState
    left l total = record {
      last_seen_iso = iso_or_none dt (some l);
      last_seen_count = newest_count seen.time seen.count (some l) cs;
      total = (after total).total;
    }

    -- The loop over the same window adds nothing to that state.
    tally_again :
        (l : DateTime) (total : ℤ)
        → (after total).newest ≡ some l
        → tally_counts
            (last_seen dt (left l total) now).time
            (last_seen dt (left l total) now).count
            cs
            (record {
              total = (after total).total;
              newest = (last_seen dt (left l total) now).time;
            })
          ≡ record { total = (after total).total; newest = some l }
    tally_again l total e =
        rw
          (last_seen_read l (newest_count seen.time seen.count (some l) cs) (after total).total
            (newest_past l total e))
          (tally_covered l _ cs _ refl (
            newest-IsCovered l _ total e
              (raised_count (newest_count seen.time seen.count (some l) cs))))

    tallied-left :
        (l : DateTime) (total : ℤ)
        → (after total).newest ≡ some l
        → tallied dt seen cs total ≡ left l total
    unfolding tallied
    tallied-left l total e = rw e

    tallied_again :
        (l : DateTime) (total : ℤ)
        → (after total).newest ≡ some l
        → SameAs
            (left l total)
            (tallied dt (last_seen dt (left l total) now) cs (left l total).total)
    unfolding tallied
    tallied_again l total e = record {
      total = ap (λ (t : Tally). t.total) (tally_again l total e);
      last_seen_iso = ap (λ (t : Tally). iso_or_none dt t.newest) (tally_again l total e);
    }

    newest-ne-none : (total : ℤ) → 1 ≤ rank (after total).newest → (after total).newest ≢ none
    newest-ne-none total h e = absurd (omega (arith, subst (λ o. 1 ≤ rank o) e h))

-- The window, with at least one entry, read twice.
module _ (dt : DateTimes) (now : DateTime) (seen : LastSeen)
    (old : rank seen.time ≤ suc (key now)) where
  again_tallied :
      (x : DateTime × ℕ) (cs : Counts) (total : ℤ)
      → IsWindow dt now (x ∷ cs)
      → SameAs (tallied dt seen (x ∷ cs) total) (
          tallied dt
            (last_seen dt (tallied dt seen (x ∷ cs) total) now)
            (x ∷ cs)
            (tallied dt seen (x ∷ cs) total).total)
  again_tallied (d, n) cs total w =
      elim (Option-cases (after dt now seen ((d, n) ∷ cs) w old total).newest) [
        | inl nothing ↦ absurd (
            newest-ne-none dt now seen ((d, n) ∷ cs) w old total
              (omega (
                arith,
                (tally_rank seen.time seen.count ((d, n) ∷ cs)
                    (record { total = total; newest = seen.time }) (omega arith)).1,
              ))
              nothing)
        | inr (l, e) ↦
            rw (tallied-left dt now seen ((d, n) ∷ cs) w old l total e)
              (tallied_again dt now seen ((d, n) ∷ cs) w old l total e)
      ]

  iso_kept :
      (o : Option DateTime) (c total : ℤ)
      → rank o ≤ suc (key now)
      → iso_or_none dt
          (last_seen dt
            (record { last_seen_iso = iso_or_none dt o; last_seen_count = c; total = total })
            now).time
        ≡ iso_or_none dt o
  iso_kept none c total h = unfold last_seen in refl
  iso_kept (some l) c total h = rw (last_seen_read dt now l c total (omega arith))

  again_counts :
      (cs : Counts) (total : ℤ)
      → IsWindow dt now cs
      → SameAs (advance_counts dt seen cs total) (
          advance_counts dt
            (last_seen dt (advance_counts dt seen cs total) now)
            cs
            (advance_counts dt seen cs total).total)
  unfolding advance_counts
  again_counts [] total w = record {
    total = refl;
    last_seen_iso = iso_kept seen.time seen.count total old;
  }
  again_counts (x ∷ cs) total w = again_tallied x cs total w

-- Reading the same window of the log a second time, at the same time of the clock, leaves the total and the
-- newest time as they are, whatever the first state was.
pub advance_oom_state_once :
    (dt : DateTimes) (s : OomState) (events : List Value) (now : DateTime)
    → SameAs
        (advance_oom_state dt s events now)
        (advance_oom_state dt (advance_oom_state dt s events now) events now)
unfolding advance_oom_state
advance_oom_state_once dt s events now =
    again_counts dt now (last_seen dt s now) (last_seen_past dt now s)
      (count_events dt now events []) s.total
      (count_events-IsWindow dt now events [] (record { distinct = tt; past = tt }))
