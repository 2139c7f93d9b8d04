-- ===== src/Oom/Window.antt =====
-- coordinator_parts/oom.py: the counts of one window of the log, and the tally over them.
use keenetic_router_pro.Prelude.{
  ℕ, ◌≤◌, ◌≡◌, ◌≢◌, inl, inr, refl, some, [], ◌∷◌, arith, Bool-cases, ℤ, pos, ◌+ℤ◌, ◌-ℤ◌, ◌≤ℤ◌,
  +ℤ_parts, -ℤ_parts, eq_of_parts, if◌then◌else◌, none,
}
use keenetic_router_pro.Oom.{
  DateTime, key, Counts, Tally, tally_one, tally_counts, count_one, count_at, is_same, Option, suc,
  leb_ℤ, newest_count,
}

-- No entry has the time `e`.
abbrev pub IsAbsent : DateTime → Counts → Type 0
IsAbsent e [] = Unit
IsAbsent e ((d, n) ∷ cs) = (key d ≢ key e) × IsAbsent e cs

-- The times of the entries differ, as the keys of a dict do.
abbrev pub IsDistinct : Counts → Type 0
IsDistinct [] = Unit
IsDistinct ((d, n) ∷ cs) = IsAbsent d cs × IsDistinct cs

pub count_one-IsAbsent :
    (e d : DateTime) (cs : Counts) → key d ≢ key e → IsAbsent e cs → IsAbsent e (count_one d cs)
unfolding count_one
count_one-IsAbsent e d [] h a = (h, tt)
count_one-IsAbsent e d ((f, n) ∷ cs) h a = ground (arith, count_one-IsAbsent e d cs h a.1, a.0, a.1)

pub count_one-IsDistinct :
    (d : DateTime) (cs : Counts) → IsDistinct cs → IsDistinct (count_one d cs)
unfolding count_one
count_one-IsDistinct d [] h = (tt, tt)
count_one-IsDistinct d ((f, n) ∷ cs) h = elim (Bool-cases (is_same f d)) [
  | inl same ↦ rw same h
  | inr other ↦
      rw other (count_one-IsAbsent f d cs (ground arith) h.0, count_one-IsDistinct d cs h.1)
]

-- What every entry says is what `count_at` finds.
abbrev pub AreAt : Counts → Counts → Type 0
AreAt all [] = Unit
AreAt all ((d, n) ∷ cs) = (count_at d all ≡ n) × AreAt all cs

pub count_at_cong : (d e : DateTime) (cs : Counts) → key d ≡ key e → count_at d cs ≡ count_at e cs
unfolding count_at
count_at_cong d e [] h = refl
count_at_cong d e ((f, n) ∷ cs) h = ground (arith, count_at_cong d e cs h)

pub AreAt-cons :
    (e : DateTime) (n : ℕ) (all cs : Counts)
    → IsAbsent e cs
    → AreAt all cs
    → AreAt ((e, n) ∷ all) cs
unfolding count_at
AreAt-cons e n all [] a h = tt
AreAt-cons e n all ((d, m) ∷ cs) a h = (ground (arith, a.0, h.0), AreAt-cons e n all cs a.1 h.1)

pub AreAt-of_IsDistinct : (cs : Counts) → IsDistinct cs → AreAt cs cs
unfolding count_at
AreAt-of_IsDistinct [] h = tt
AreAt-of_IsDistinct ((d, n) ∷ cs) h =
    (ground arith, AreAt-cons d n cs cs h.0 (AreAt-of_IsDistinct cs h.1))

-- The entries are older than `l`, or at `l` with at most `c` events.
abbrev pub IsCovered : DateTime → ℤ → Counts → Type 0
IsCovered l c [] = Unit
IsCovered l c ((d, n) ∷ cs) = (key d ≤ key l) × (key d ≡ key l → pos n ≤ℤ c) × IsCovered l c cs

-- A covered entry adds nothing to a tally at `l`.
pub tally_covered_one :
    (l : DateTime) (c : ℤ) (d : DateTime) (n : ℕ) (t : Tally)
    → t.newest ≡ some l
    → key d ≤ key l
    → (key d ≡ key l → pos n ≤ℤ c)
    → tally_one (some l) c d n t ≡ t
unfolding tally_one
tally_covered_one l c d n t e h k = ground (
  arith,
  +ℤ_parts t.total (pos 0),
  eq_of_parts (t.total +ℤ pos 0) t.total,
  -ℤ_parts (pos n) c,
  +ℤ_parts t.total (pos n -ℤ c),
)

pub tally_covered :
    (l : DateTime) (c : ℤ) (cs : Counts) (t : Tally)
    → t.newest ≡ some l
    → IsCovered l c cs
    → tally_counts (some l) c cs t ≡ t
unfolding tally_counts
tally_covered l c [] t e h = refl
tally_covered l c ((d, n) ∷ cs) t e h =
    rw (tally_covered_one l c d n t e h.0 h.1) (tally_covered l c cs t e h.2)

-- A time as a number, below all of them for none.
abbrev pub rank : Option DateTime → ℕ
rank none = 0
rank (some d) = suc (key d)

abbrev pub AreBelow : ℕ → Counts → Type 0
AreBelow r [] = Unit
AreBelow r ((d, n) ∷ cs) = (suc (key d) ≤ r) × AreBelow r cs

pub tally_one-rank :
    (last : Option DateTime) (c : ℤ) (d : DateTime) (n : ℕ) (t : Tally)
    → rank last ≤ rank t.newest
    → (rank t.newest ≤ rank (tally_one last c d n t).newest)
      × (suc (key d) ≤ rank (tally_one last c d n t).newest)
unfolding tally_one
tally_one-rank none c d n t h = ground arith
tally_one-rank (some l) c d n t h = ground arith

pub tally_one-rank_le :
    (last : Option DateTime) (c : ℤ) (d : DateTime) (n r : ℕ) (t : Tally)
    → rank t.newest ≤ r
    → suc (key d) ≤ r
    → rank (tally_one last c d n t).newest ≤ r
unfolding tally_one
tally_one-rank_le none c d n r t h k = ground arith
tally_one-rank_le (some l) c d n r t h k = ground arith

-- The newest time is at least every time of the counts.
pub tally_rank :
    (last : Option DateTime) (c : ℤ) (cs : Counts) (t : Tally)
    → rank last ≤ rank t.newest
    → (rank t.newest ≤ rank (tally_counts last c cs t).newest)
      × AreBelow (rank (tally_counts last c cs t).newest) cs
unfolding tally_counts
tally_rank last c [] t h = (omega arith, tt)
tally_rank last c ((d, n) ∷ cs) t h =
    let (up, in_) = tally_one-rank last c d n t h in
    let (up', below) = tally_rank last c cs (tally_one last c d n t) (omega arith) in
    (omega arith, (omega arith, below))

-- And it is at most what bounds the old time and the counts.
pub tally_rank_le :
    (last : Option DateTime) (c : ℤ) (cs : Counts) (r : ℕ) (t : Tally)
    → rank t.newest ≤ r
    → AreBelow r cs
    → rank (tally_counts last c cs t).newest ≤ r
unfolding tally_counts
tally_rank_le last c [] r t h b = h
tally_rank_le last c ((d, n) ∷ cs) r t h b =
    tally_rank_le last c cs r (tally_one last c d n t) (tally_one-rank_le last c d n r t h b.0) b.1

-- Entries below `l`, whose count at `l` is at most `c`, are covered.
pub IsCovered-of_AreBelow :
    (l : DateTime) (c : ℤ) (all cs : Counts)
    → AreBelow (suc (key l)) cs
    → AreAt all cs
    → pos (count_at l all) ≤ℤ c
    → IsCovered l c cs
IsCovered-of_AreBelow l c all [] b a h = tt
IsCovered-of_AreBelow l c all ((d, n) ∷ cs) b a h = (
  omega arith,
  λ same. omega (arith, count_at_cong d l all same, a.0),
  IsCovered-of_AreBelow l c all cs b.1 a.1 h,
)

pub count_one-AreBelow :
    (r : ℕ) (d : DateTime) (cs : Counts)
    → suc (key d) ≤ r
    → AreBelow r cs
    → AreBelow r (count_one d cs)
unfolding count_one
count_one-AreBelow r d [] h b = (h, tt)
count_one-AreBelow r d ((e, n) ∷ cs) h b = ground (arith, count_one-AreBelow r d cs h b.1, b.0, b.1)

pub count-le-newest_count :
    (last : Option DateTime) (c : ℤ) (l : DateTime) (cs : Counts)
    → pos (count_at l cs) ≤ℤ newest_count last c (some l) cs
count-le-newest_count none c l cs = omega arith
count-le-newest_count (some k) c l cs = ground arith

-- The count that is read back is at least the one that was stored.
pub raised_count : (c : ℤ) → c ≤ℤ (if leb_ℤ c (pos 0) then pos 1 else c)
raised_count c = ground arith
