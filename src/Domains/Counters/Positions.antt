-- ===== src/Domains/Counters/Positions.antt =====
-- api/domains/network.py: the counters that one composite request brings.
use keenetic_router_pro.Prelude.{
  String, List, [], ◌∷◌, Option, some, true, Dict, All, ◌≡◌, refl, lookup, When, Bool-cases,
  if◌then◌else◌, inl, inr,
}
use keenetic_router_pro.Value.{
  field, end, null, bool, int, float, list, Value, str, dict, Fields, get,
}
use keenetic_router_pro.Domains.Counters.{
  Target, add_stats, named, not, mem, is_stat_error_record, zip_stats, false, insert,
}
use keenetic_router_pro.Prelude.{
  insert, ◌||◌, ◌==◌, is_some, Bool, false, Bool-cases, Option-cases, inl, inr, lookup-insert,
  eq_refl, eq_iff, subst, if◌then◌else◌,
}
use keenetic_router_pro.Domains.Counters.{is_stat_error_record, zip_stats}
use keenetic_router_pro.Domains.Counters.Named.{own_fields}

-- The answer of a router to the composite request: for each target, in order, the record that it has under
-- the target's name.
abbrev pub answers_for : (String → Value) → List Target → List Value
answers_for record_of [] = []
answers_for record_of (t ∷ ts) = record_of t.name ∷ answers_for record_of ts

module _ {A : Type 0} (P : String × A → Type 0) where
  -- What is found under a key is an entry.
  All-lookup : (k : String) (v : A) (d : Dict A) → All P d → lookup k d ≡ some v → P (k, v)
  unfolding lookup
  All-lookup k v [] h e = cc
  All-lookup k v ((j, w) ∷ d) h e = elim (Bool-cases (j == k)) [
    | inl s ↦
        subst (λ i. P (i, v)) ((eq_iff j k).0 s)
          (subst (λ x. P (j, x)) (picked (j == k) (lookup k d) s e) h.0)
    | inr n ↦ All-lookup k v d h.1 (left (j == k) (lookup k d) n e)
  ]
    where
      picked : (b : Bool) (o : Option A) → b ≡ true → (if b then some w else o) ≡ some v → w ≡ v
      picked true o t e = cc
      picked false o t e = cc

      left : (b : Bool) (o : Option A) → b ≡ false → (if b then some w else o) ≡ some v → o ≡ some v
      left true o t e = cc
      left false o t e = e

module _ (record_of : String → Value) where
  -- A clean record of the router's, under its own name.
  abbrev IsClean : String × Value → Type 0
  IsClean (name, stat) = (stat ≡ record_of name) × (is_stat_error_record stat ≡ false)

  abbrev if_clean : Target → Dict Value → Dict Value
  if_clean t found =
      if is_stat_error_record (record_of t.name)
      then found
      else insert t.name (record_of t.name) found

  -- The counters that the router answered by position.
  abbrev zipped : List Target → Dict Value
  zipped ts = zip_stats ts (answers_for record_of ts) []

  -- A published record has its own name, and every field but those from the list of interfaces is the one
  -- that the router has under this name.
  abbrev pub IsOwn : String × Fields → Type 0
  IsOwn (name, fs) =
      (get "interface_name" fs ≡ str name)
      × ((r : Fields) × (record_of name ≡ dict r)
          × ((key : String) → When (not (mem key own_fields)) (get key fs ≡ get key r)))

  add_stats-finds :
      (t : Target) (v : Value) (found : Dict Fields)
      → is_stat_error_record v ≡ false
      → is_some (lookup t.name (add_stats t (some v) found)) ≡ true
  unfolding is_stat_error_record
  add_stats-finds t (dict (field k v fs)) found h =
      rw (lookup-insert t.name t.name (named t (field k v fs)) found, eq_refl t.name) refl
  add_stats-finds t (dict end) found h = cc
  add_stats-finds t null found h = cc
  add_stats-finds t (bool b) found h = cc
  add_stats-finds t (int z) found h = cc
  add_stats-finds t (float x) found h = cc
  add_stats-finds t (str s) found h = cc
  add_stats-finds t (list xs) found h = cc

  listed :
      (t : Target) (raw_stats : Dict Value) (found : Dict Fields)
      → All IsClean raw_stats
      → (not (is_some (lookup t.name raw_stats))
          || is_some (lookup t.name (add_stats t (lookup t.name raw_stats) found)))
        ≡ true
  listed t raw_stats found clean = elim (Option-cases (lookup t.name raw_stats)) [
    | inl n ↦ rw n refl
    | inr (v, e) ↦
        rw e (add_stats-finds t v found (All-lookup IsClean t.name v raw_stats clean e).1)
  ]
