-- ===== src/Value/Dicts.antt =====
-- Dicts with text keys: `d.get(k)`, `k in d`, `d[k] = v`, `d.pop(k, None)`, and their laws.
use keenetic_router_pro.Prelude.{
  eq_refl, String, Bool, false, if◌then◌else◌, ◌==◌, eq_iff, ◌≡◌, refl, arith, ◌||◌,
}
use keenetic_router_pro.Value.Defs.{Value, null, Fields, end, field}

-- `d.get(k)`: None for an absent key.
unfoldable pub get : String → Fields → Value
get k end = null
get k (field j v fs) = if j == k then v else get k fs

-- `k in d`.
unfoldable pub has : String → Fields → Bool
has k end = false
has k (field j v fs) = j == k || has k fs

-- `d[k] = v`: a present key keeps its place.
unfoldable pub put : String → Value → Fields → Fields
put k v end = field k v end
put k v (field j w fs) = if j == k then field j v fs else field j w (put k v fs)

-- `d.pop(k, None)`.
unfoldable pub remove : String → Fields → Fields
remove k end = end
remove k (field j w fs) = let rest = remove k fs in if j == k then rest else field j w rest

pub get-put :
    (j k : String) (v : Value) (fs : Fields) → get j (put k v fs) ≡ (if k == j then v else get j fs)
unfolding get put
get-put j k v end = refl
get-put j k v (field i w fs) = ground (arith, eq_iff k j, eq_iff i k, eq_iff i j, get-put j k v fs)

pub get-put_self : (k : String) (v : Value) (fs : Fields) → get k (put k v fs) ≡ v
get-put_self k v fs = rw (get-put, eq_refl)

pub get-put_ne :
    (k j : String) (v : Value) (fs : Fields) → (k == j) ≡ false → get j (put k v fs) ≡ get j fs
get-put_ne k j v fs h = rw (get-put, h)

pub has-put : (j k : String) (v : Value) (fs : Fields) → has j (put k v fs) ≡ (k == j || has j fs)
unfolding has put
has-put j k v end = refl
has-put j k v (field i w fs) = ground (arith, eq_iff k j, eq_iff i k, eq_iff i j, has-put j k v fs)

pub get-remove :
    (j k : String) (fs : Fields) → get j (remove k fs) ≡ (if k == j then null else get j fs)
unfolding get remove
get-remove j k end = ground arith
get-remove j k (field i w fs) =
    ground (arith, eq_iff k j, eq_iff i k, eq_iff i j, get-remove j k fs)

pub get_of_absent : (k : String) (fs : Fields) → has k fs ≡ false → get k fs ≡ null
unfolding get has
get_of_absent k end h = refl
get_of_absent k (field j v fs) h = ground (arith, get_of_absent k fs)

-- `d.get(k, default)`.
abbrev pub get_or : String → Value → Fields → Value
get_or k d fs = if has k fs then get k fs else d

pub ruleset fields_laws = (get-put, has-put, get-remove)
