-- ===== src/Parsers/Log/Newest.antt =====
-- api/helpers.py, `_extract_log_entries`: the order of the records.
use keenetic_router_pro.Prelude.{
  When, ◌≤ℤ◌, ◌∷◌, not, [], All, Bool-cases, ◌≡◌, arith, inl, inr, refl,
}
use mathlib.Core.List.{Perm}
use mathlib.Core.List.Perm
use keenetic_router_pro.Value.{Value}
use keenetic_router_pro.Parsers.Log.{
  LogEntry, id_number, insert_entry, sort_entries, all_int_ids, newest_first, walk_value,
  extract_log_entries, List, ℤ, leb_ℤ, ◌∷◌, true, false,
}

insert_entry-perm : (e : LogEntry) (es : List LogEntry) → Perm (insert_entry e es) (e ∷ es)
unfolding insert_entry
insert_entry-perm e [] = Perm.refl _
insert_entry-perm e (x ∷ xs) = elim (Bool-cases (leb_ℤ (id_number x) (id_number e))) [
  | inl first ↦ rw first (Perm.refl _)
  | inr later ↦ rw later (Perm.trans (Perm.cons x (insert_entry-perm e xs)) (Perm.swap e x xs))
]

sort_entries-perm : (es : List LogEntry) → Perm (sort_entries es) es
unfolding sort_entries
sort_entries-perm [] = Perm.refl _
sort_entries-perm (e ∷ es) =
    Perm.trans (insert_entry-perm e (sort_entries es)) (Perm.cons e (sort_entries-perm es))

-- The ids fall, or stay.
abbrev pub IsFalling : List LogEntry → Type 0
IsFalling [] = Unit {0}
IsFalling (e ∷ es) = All (λ x. id_number x ≤ℤ id_number e) es × IsFalling es

insert_entry-below :
    (b : ℤ) (e : LogEntry) (es : List LogEntry)
    → id_number e ≤ℤ b
    → All (λ x. id_number x ≤ℤ b) es
    → All (λ x. id_number x ≤ℤ b) (insert_entry e es)
unfolding insert_entry
insert_entry-below b e [] h a = (h, tt)
insert_entry-below b e (x ∷ xs) h a = elim (Bool-cases (leb_ℤ (id_number x) (id_number e))) [
  | inl first ↦ rw first (h, a)
  | inr later ↦ rw later (a.0, insert_entry-below b e xs h a.1)
]

below-weaken :
    (b c : ℤ) (es : List LogEntry)
    → b ≤ℤ c
    → All (λ x. id_number x ≤ℤ b) es
    → All (λ x. id_number x ≤ℤ c) es
below-weaken b c [] h a = tt
below-weaken b c (x ∷ xs) h a = (omega arith, below-weaken b c xs h a.1)

le_of_leb : (a b : ℤ) → leb_ℤ a b ≡ true → a ≤ℤ b
le_of_leb a b h = ground arith

ge_of_leb : (a b : ℤ) → leb_ℤ a b ≡ false → b ≤ℤ a
ge_of_leb a b h = ground arith

insert_entry-IsFalling :
    (e : LogEntry) (es : List LogEntry) → IsFalling es → IsFalling (insert_entry e es)
unfolding insert_entry
insert_entry-IsFalling e [] f = (tt, tt)
insert_entry-IsFalling e (x ∷ xs) f = elim (Bool-cases (leb_ℤ (id_number x) (id_number e))) [
  | inl first ↦
      let le = le_of_leb (id_number x) (id_number e) first in
      rw first ((le, below-weaken (id_number x) (id_number e) xs le f.0), f)
  | inr later ↦ rw later (
    insert_entry-below (id_number x) e xs (ge_of_leb (id_number x) (id_number e) later) f.0,
    insert_entry-IsFalling e xs f.1,
  )
]

sort_entries-IsFalling : (es : List LogEntry) → IsFalling (sort_entries es)
unfolding sort_entries
sort_entries-IsFalling [] = tt
sort_entries-IsFalling (e ∷ es) =
    insert_entry-IsFalling e (sort_entries es) (sort_entries-IsFalling es)

-- The records of the log are those that the walk finds, each as often. Where every one has an int as its
-- id they come by falling id, which is the newest first, and otherwise in the order of the payload.
pub log_entries_newest_first :
    (data_ : Value)
    → Perm (extract_log_entries data_) (walk_value data_)
      × When (all_int_ids (walk_value data_)) (IsFalling (extract_log_entries data_))
      × When (not (all_int_ids (walk_value data_))) (extract_log_entries data_ ≡ walk_value data_)
unfolding extract_log_entries newest_first
log_entries_newest_first data_ = elim (Bool-cases (all_int_ids (walk_value data_))) [
  | inl every ↦
      rw every (sort_entries-perm (walk_value data_), sort_entries-IsFalling (walk_value data_), tt)
  | inr some_other ↦ rw some_other (Perm.refl _, tt, refl)
]
