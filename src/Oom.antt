-- ===== src/Oom.antt =====
-- coordinator_parts/oom.py: the monotonic count of out-of-memory events in the router's log.
pub mod Window
pub mod Once
pub mod Monotone
use keenetic_router_pro.Prelude.{
  ℕ, suc, ◌+◌, ◌-◌, ◌*◌, String, Bool, true, false, not, ◌&&◌, ◌||◌, Option, none, some, List, [],
  ◌∷◌, ltb, eqb, leb, if◌then◌else◌, ◌==◌, ℤ, pos, ◌+ℤ◌, ◌-ℤ◌, leb_ℤ, max_ℤ, ◌≡◌,
}
use keenetic_router_pro.Value.{Value, null, str, list, cons}
use keenetic_router_pro.Text.{strip}

-- A naive `datetime`, with the time of day in microseconds.
pub record DateTime : Type 0 where
  pub year : ℕ
  pub month : ℕ
  pub day : ℕ
  pub micros : ℕ

-- Python compares datetimes field by field. On the ranges that `datetime` enforces (twelve months, at
-- most 31 days, 86400 seconds) that is the order of this number, and equality is its equality.
abbrev pub key : DateTime → ℕ
key d = ((d.year * 13 + d.month) * 32 + d.day) * 86_400_000_000 + d.micros

abbrev pub is_before : DateTime → DateTime → Bool
is_before a b = ltb (key a) (key b)

abbrev pub is_same : DateTime → DateTime → Bool
is_same a b = eqb (key a) (key b)

-- What `strptime` reads with a format that starts with the year 2000: month, day and time of day.
pub record LogTime : Type 0 where
  pub month : ℕ
  pub day : ℕ
  pub micros : ℕ

-- The parsers and the printer of the `datetime` module. `fromisoformat` stands for the call and the
-- `replace(tzinfo=None)` behind it; it reads back what `isoformat` prints. `is_leap` is the calendar's.
pub record DateTimes : Type 0 where
  pub strptime : String → String → Option LogTime
  pub fromisoformat : String → Option DateTime
  pub isoformat : DateTime → String
  pub fromisoformat-isoformat : (d : DateTime) → fromisoformat (isoformat d) ≡ some d
  pub isoformat-ne-empty : (d : DateTime) → (isoformat d == "") ≡ false
  pub is_leap : ℕ → Bool

-- `parsed.replace(year=year)`; `none` is the ValueError of February 29 in a common year.
abbrev replace_year : DateTimes → LogTime → ℕ → Option DateTime
replace_year dt p year =
    if eqb p.month 2 && eqb p.day 29 && not (dt.is_leap year)
    then none
    else some (record { year = year; month = p.month; day = p.day; micros = p.micros })

-- The year of a log time: the last one for December read in January.
abbrev log_year : DateTime → LogTime → ℕ
log_year now p = if eqb p.month 12 && eqb now.month 1 then now.year - 1 else now.year

stamp : DateTimes → DateTime → LogTime → Option DateTime
stamp dt now p = elim (replace_year dt p (log_year now p)) [
  | some d ↦ some d
  | none ↦
      if eqb p.month 2 && eqb p.day 29
      then some (record { year = log_year now p; month = 2; day = 28; micros = p.micros })
      else none
]

abbrev try_formats : DateTimes → String → Option LogTime
try_formats dt text = elim (dt.strptime "%b %d %H:%M:%S" text) [
  | some p ↦ some p
  | none ↦ dt.strptime "%b  %d %H:%M:%S" text
]

-- `parse_keenetic_log_ts(value, now=now)`.
unfoldable pub parse_keenetic_log_ts : DateTimes → Value → DateTime → Option DateTime
unfolding stamp
parse_keenetic_log_ts dt (str text) now =
    if text == ""
    then none
    else elim (try_formats dt (strip text)) [ none ↦ none | some p ↦ stamp dt now p ]
parse_keenetic_log_ts dt _ now = none

-- The persisted state. `coerce_int` is applied to the two numbers when the store is loaded, and has no
-- effect on the ints that the state then holds.
pub record OomState : Type 0 where
  pub last_seen_iso : Value
  pub last_seen_count : ℤ
  pub total : ℤ

-- `counts_by_ts`, in the order of insertion.
abbrev pub Counts : Type 0
Counts = List (DateTime × ℕ)

-- `counts_by_ts.get(d, 0)`.
unfoldable pub count_at : DateTime → Counts → ℕ
count_at d [] = 0
count_at d ((e, n) ∷ cs) = if is_same e d then n else count_at d cs

-- `counts_by_ts[d] = counts_by_ts.get(d, 0) + 1`.
unfoldable pub count_one : DateTime → Counts → Counts
count_one d [] = (d, 1) ∷ []
count_one d ((e, n) ∷ cs) = if is_same e d then (e, n + 1) ∷ cs else (e, n) ∷ count_one d cs

-- The time of an event: the head of a non-empty list or tuple.
abbrev pub event_time : Value → Value
event_time (list (cons t rest)) = t
event_time _ = null

-- An event that parses and does not lie in the future is counted.
count_parsed : DateTime → Option DateTime → Counts → Counts
count_parsed now none cs = cs
count_parsed now (some d) cs = if is_before now d then cs else count_one d cs

unfoldable pub count_events : DateTimes → DateTime → List Value → Counts → Counts
unfolding count_parsed
count_events dt now [] cs = cs
count_events dt now (e ∷ es) cs =
    count_events dt now es (count_parsed now (parse_keenetic_log_ts dt (event_time e) now) cs)

-- What the loop over the counts updates: the total and the newest time.
pub record Tally : Type 0 where
  pub total : ℤ
  pub newest : Option DateTime

abbrev pub newer : Option DateTime → DateTime → Option DateTime
newer none d = some d
newer (some e) d = if is_before e d then some d else some e

-- One round of the loop, for a last time with its count, or for none.
unfoldable pub tally_one : Option DateTime → ℤ → DateTime → ℕ → Tally → Tally
tally_one none last_count d n t = record { total = t.total +ℤ pos n; newest = newer t.newest d }
tally_one (some last) last_count d n t =
    if is_before d last
    then t
    else if is_same d last
    then record {
      total = t.total +ℤ max_ℤ (pos 0) (pos n -ℤ last_count);
      newest = newer t.newest d;
    }
    else record { total = t.total +ℤ pos n; newest = newer t.newest d }

unfoldable pub tally_counts : Option DateTime → ℤ → Counts → Tally → Tally
tally_counts last last_count [] t = t
tally_counts last last_count ((d, n) ∷ cs) t =
    tally_counts last last_count cs (tally_one last last_count d n t)

-- The stored time, read back: an unreadable one and one in the future count as none.
pub record LastSeen : Type 0 where
  pub time : Option DateTime
  pub count : ℤ

abbrev stored_time : DateTimes → Value → Option DateTime
stored_time dt (str iso) = if iso == "" then none else dt.fromisoformat iso
stored_time dt _ = none

abbrev in_past : DateTime → Option DateTime → ℤ → LastSeen
in_past now none count = record { time = none; count = count }
in_past now (some d) count =
    if is_before now d
    then record { time = none; count = pos 0 }
    else record { time = some d; count = if leb_ℤ count (pos 0) then pos 1 else count }

unfoldable pub last_seen : DateTimes → OomState → DateTime → LastSeen
last_seen dt s now = in_past now (stored_time dt s.last_seen_iso) s.last_seen_count

abbrev pub iso_or_none : DateTimes → Option DateTime → Value
iso_or_none dt none = null
iso_or_none dt (some d) = str (dt.isoformat d)

-- `new_last_seen_count`.
abbrev pub newest_count : Option DateTime → ℤ → Option DateTime → Counts → ℤ
newest_count last last_count none cs = pos 0
newest_count none last_count (some d) cs = pos (count_at d cs)
newest_count (some l) last_count (some d) cs =
    if is_same d l then max_ℤ last_count (pos (count_at d cs)) else pos (count_at d cs)

-- The state after the loop over non-empty counts.
unfoldable pub tallied : DateTimes → LastSeen → Counts → ℤ → OomState
tallied dt seen cs total =
    let t = tally_counts seen.time seen.count cs (record { total = total; newest = seen.time }) in
    record {
      last_seen_iso = iso_or_none dt t.newest;
      last_seen_count = newest_count seen.time seen.count t.newest cs;
      total = t.total;
    }

unfoldable pub advance_counts : DateTimes → LastSeen → Counts → ℤ → OomState
advance_counts dt seen [] total = record {
  last_seen_iso = iso_or_none dt seen.time;
  last_seen_count = seen.count;
  total = total;
}
advance_counts dt seen (c ∷ cs) total = tallied dt seen (c ∷ cs) total

-- `advance_oom_state(state, events, now=now)`.
unfoldable pub advance_oom_state : DateTimes → OomState → List Value → DateTime → OomState
advance_oom_state dt s events now =
    advance_counts dt (last_seen dt s now) (count_events dt now events []) s.total
