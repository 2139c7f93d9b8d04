-- ===== src/Diagnostics/Counting.antt =====
-- diagnostics.py: the loops that replace a collection by its size.
use keenetic_router_pro.Prelude.{
  ap, suc, length, not, ◌&&◌, String, List, [], ◌∷◌, Bool, true, false, mem, if◌then◌else◌, pos,
  ◌==◌, ◌≡◌, refl, arith, eq_iff, Bool-cases, inl, inr, ◌∙◌, subst,
}
use keenetic_router_pro.Value.{
  Items, nil, cons, items, Value, Fields, null, int, str, list, dict, end, field, get, has, put,
  get-put_self, get-put_ne, get_of_absent, bool, float,
}
use keenetic_router_pro.Diagnostics.{count_keys, count_items, count_of_dict, count_of_set, count_at}

-- The keys of a dict.
abbrev pub keys : Fields → List String
keys end = []
keys (field k v fs) = k ∷ keys fs

-- The second value gives the number of the keys of the first, if that is a dict, and is the first otherwise.
abbrev pub IsCountOf : Value → Value → Type 0
IsCountOf (dict fs) w = w ≡ dict (field "<redacted-mac-keys>" (int (pos (length (keys fs)))) end)
IsCountOf v w = w ≡ v

-- The same of the elements of a collection.
abbrev pub IsSizeOf : Value → Value → Type 0
IsSizeOf (list vs) w = w ≡ dict (field "<redacted-mac-set>" (int (pos (length (items vs)))) end)
IsSizeOf v w = w ≡ v

count_keys_lem : (fs : Fields) → count_keys fs ≡ length (keys fs)
unfolding count_keys
count_keys_lem end = refl
count_keys_lem (field k v fs) = ap suc (count_keys_lem fs)

count_items_lem : (vs : Items) → count_items vs ≡ length (items vs)
unfolding count_items
count_items_lem nil = refl
count_items_lem (cons v vs) = ap suc (count_items_lem vs)

pub count_of_dict-IsCountOf : (v : Value) → IsCountOf v (count_of_dict v)
unfolding count_of_dict
count_of_dict-IsCountOf null = refl
count_of_dict-IsCountOf (bool b) = refl
count_of_dict-IsCountOf (int z) = refl
count_of_dict-IsCountOf (float x) = refl
count_of_dict-IsCountOf (str t) = refl
count_of_dict-IsCountOf (list vs) = refl
count_of_dict-IsCountOf (dict fs) = rw (count_keys_lem fs) refl

pub count_of_set-IsSizeOf : (v : Value) → IsSizeOf v (count_of_set v)
unfolding count_of_set
count_of_set-IsSizeOf null = refl
count_of_set-IsSizeOf (bool b) = refl
count_of_set-IsSizeOf (int z) = refl
count_of_set-IsSizeOf (float x) = refl
count_of_set-IsSizeOf (str t) = refl
count_of_set-IsSizeOf (list vs) = rw (count_items_lem vs) refl
count_of_set-IsSizeOf (dict fs) = refl

-- One round of the loop.
abbrev round : (Value → Value) → String → Fields → Fields
round count key d = if has key d then put key (count (get key d)) d else d

round-other :
    (count : Value → Value) (k key : String) (d : Fields)
    → (key == k) ≡ false
    → get k (round count key d) ≡ get k d
round-other count k key d h = elim (Bool-cases (has key d)) [
  | inl e ↦ rw e (get-put_ne key k (count (get key d)) d h)
  | inr f ↦ rw f refl
]

-- A key that is not among the ones of the loop keeps its value.
pub count_at-other :
    (count : Value → Value) (k : String) (keys : List String) (d : Fields)
    → mem k keys ≡ false
    → get k (count_at count keys d) ≡ get k d
unfolding count_at
count_at-other count k [] d h = refl
count_at-other count k (key ∷ keys) d h =
    count_at-other count k keys (round count key d) (ground arith)
    ∙ round-other count k key d (ground arith)

-- No key stands twice.
abbrev pub distinct : List String → Bool
distinct [] = true
distinct (k ∷ ks) = not (mem k ks) && distinct ks

round_self :
    (count : Value → Value) (key : String) (d : Fields)
    → count null ≡ null
    → get key (round count key d) ≡ count (get key d)
round_self count key d absent = elim (Bool-cases (has key d)) [
  | inl e ↦ rw (e, get-put_self key) refl
  | inr f ↦ rw (f, get_of_absent key d f, absent) refl
]

-- A key of the loop gets its value counted, once.
pub count_at-counts :
    (count : Value → Value) (k : String) (keys : List String) (d : Fields)
    → count null ≡ null
    → mem k keys ≡ true
    → distinct keys ≡ true
    → get k (count_at count keys d) ≡ count (get k d)
unfolding count_at
count_at-counts count k [] d absent h u = ground arith
count_at-counts count k (key ∷ keys) d absent h u = elim (Bool-cases (key == k)) [
  | inl s ↦
      subst (λ j. get j (count_at count keys (round count key d)) ≡ count (get j d))
        ((eq_iff key k).0 s)
        (count_at-other count key keys (round count key d) (ground arith)
          ∙ round_self count key d absent)
  | inr n ↦
      count_at-counts count k keys (round count key d) absent (ground arith) (ground arith)
      ∙ ap count (round-other count k key d n)
]
