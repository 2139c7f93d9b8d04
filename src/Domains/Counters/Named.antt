-- ===== src/Domains/Counters/Named.antt =====
-- api/domains/network.py: whose counters a record holds.
use keenetic_router_pro.Prelude.{
  String, List, [], ◌∷◌, Option, some, none, true, Dict, All, ◌≡◌, refl, arith, lookup, When, when,
  All-insert,
}
use keenetic_router_pro.Value.{
  field, end, null, bool, int, float, list, Value, str, dict, Fields, get, get-put,
}
use keenetic_router_pro.Domains.Counters.{Target, all_stats, add_stats, named, not, mem}

-- The fields that are set from the interface itself.
abbrev pub own_fields : List String
own_fields = "interface_name" ∷ "interface_type" ∷ "link" ∷ "state" ∷ []

-- The record of an interface has its name, and every other field from the counters fetched for that name.
abbrev pub IsOf : Dict Value → String × Fields → Type 0
IsOf raw_stats (name, fs) =
    (get "interface_name" fs ≡ str name)
    × ((r : Fields) × (lookup name raw_stats ≡ some (dict r))
        × ((key : String) → When (not (mem key own_fields)) (get key fs ≡ get key r)))

get-named :
    (t : Target) (r : Fields) (key : String)
    → not (mem key own_fields) ≡ true
    → get key (named t r) ≡ get key r
get-named t r key h = rw (get-put, get-put, get-put, get-put) (ground arith)

named-IsOf :
    (raw_stats : Dict Value) (t : Target) (r : Fields)
    → lookup t.name raw_stats ≡ some (dict r)
    → IsOf raw_stats (t.name, named t r)
named-IsOf raw_stats t r e = (
  rw (get-put, get-put, get-put, get-put) refl,
  (r, e, λ key. when (not (mem key own_fields)) (get-named t r key)),
)

add_stats-AreOf :
    (raw_stats : Dict Value) (t : Target) (stats : Option Value) (found : Dict Fields)
    → lookup t.name raw_stats ≡ stats
    → All (IsOf raw_stats) found
    → All (IsOf raw_stats) (add_stats t stats found)
add_stats-AreOf raw_stats t (some (dict (field k v fs))) found e h =
    All-insert (IsOf raw_stats) t.name (named t (field k v fs)) found
      (named-IsOf raw_stats t (field k v fs) e) h
add_stats-AreOf raw_stats t (some (dict end)) found e h = h
add_stats-AreOf raw_stats t (some null) found e h = h
add_stats-AreOf raw_stats t (some (bool b)) found e h = h
add_stats-AreOf raw_stats t (some (int z)) found e h = h
add_stats-AreOf raw_stats t (some (float x)) found e h = h
add_stats-AreOf raw_stats t (some (str s)) found e h = h
add_stats-AreOf raw_stats t (some (list xs)) found e h = h
add_stats-AreOf raw_stats t none found e h = h

pub all_stats_from :
    (raw_stats : Dict Value) (ts : List Target) (found : Dict Fields)
    → All (IsOf raw_stats) found
    → All (IsOf raw_stats) (all_stats ts raw_stats found)
unfolding all_stats
all_stats_from raw_stats [] found h = h
all_stats_from raw_stats (t ∷ ts) found h =
    all_stats_from raw_stats ts (add_stats t (lookup t.name raw_stats) found)
      (add_stats-AreOf raw_stats t (lookup t.name raw_stats) found refl h)
