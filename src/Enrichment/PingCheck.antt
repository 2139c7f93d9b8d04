-- ===== src/Enrichment/PingCheck.antt =====
-- coordinator_parts/enrichment.py: the ping check of an uplink, on ticks with and without counters.
use keenetic_router_pro.Prelude.{
  String, ◌≡◌, refl, false, Option, none, some, List, [], ◌∷◌, arith, ◌==◌, ◌∙◌, Dict, mem, ◌&&◌,
  if◌then◌else◌, eq_iff, ap,
}
use keenetic_router_pro.Value.{
  Float, Value, bool, str, dict, Fields, get, has, put, get-put, get-put_ne, Runtime, ValueMap,
  find,
}
use keenetic_router_pro.Enrichment.{
  stamp_ping_check, stamp_passing, lookup_id, carry_wan, enrich_wan, stamp_stats, copy_keys,
  wan_sample_keys, or_empty,
}

-- The access that the tick publishes: the ping check's verdict, if it has one, or the value before.
abbrev pub verdict : Value → Value → Value
verdict (bool b) before = bool b
verdict v before = before

abbrev pub access : Option Fields → Value → Value
access none before = before
access (some pc) before = verdict (get "passing" pc) before

abbrev source_of : Value → Value
source_of (bool b) = str "ping_check"
source_of v = str "heuristic"

abbrev pub source : Option Fields → Value
source none = str "heuristic"
source (some pc) = source_of (get "passing" pc)

-- A field that the ping check does not write.
abbrev pub IsOther : String → Type 0
IsOther k =
    (("ping_check" == k) ≡ false)
    × (("internet_access" == k) ≡ false)
    × (("internet_access_source" == k) ≡ false)

stamp_passing-access :
    (v : Value) (wan : Fields)
    → (get "internet_access" (stamp_passing v wan) ≡ verdict v (get "internet_access" wan))
      × (get "internet_access_source" (stamp_passing v wan) ≡ source_of v)
unfolding stamp_passing
stamp_passing-access (bool b) wan = (simp get-put, simp get-put)
stamp_passing-access _ wan = (simp get-put, simp get-put)

stamp_passing-kept :
    (v : Value) (wan : Fields) (k : String) → IsOther k → get k (stamp_passing v wan) ≡ get k wan
unfolding stamp_passing
stamp_passing-kept (bool b) wan k o = get-put_ne _ k _ _ o.2 ∙ get-put_ne _ k _ _ o.1
stamp_passing-kept _ wan k o = get-put_ne _ k _ _ o.2

pub stamp-access :
    (o : Option Fields) (wan : Fields)
    → (get "internet_access" (stamp_ping_check o wan) ≡ access o (get "internet_access" wan))
      × (get "internet_access_source" (stamp_ping_check o wan) ≡ source o)
unfolding stamp_ping_check
stamp-access none wan = (simp get-put, simp get-put)
stamp-access (some pc) wan =
    let (a, s) = stamp_passing-access (get "passing" pc) (put "ping_check" (dict pc) wan) in
    (
      a
          ∙ ap (verdict (get "passing" pc))
              (get-put_ne "ping_check" "internet_access" (dict pc) wan refl),
      s,
    )

pub stamp-kept :
    (o : Option Fields) (wan : Fields) (k : String)
    → IsOther k
    → get k (stamp_ping_check o wan) ≡ get k wan
unfolding stamp_ping_check
stamp-kept none wan k o = get-put_ne _ k _ _ o.2 ∙ get-put_ne _ k _ _ o.0
stamp-kept (some pc) wan k o = stamp_passing-kept (get "passing" pc) _ k o ∙ get-put_ne _ k _ _ o.0

-- Copying keys takes exactly the listed ones that the previous sample has.
pub get-copy_keys :
    (j : String) (ks : List String) (prev wan : Fields)
    → get j (copy_keys ks prev wan) ≡ (if mem j ks && has j prev then get j prev else get j wan)
unfolding copy_keys
get-copy_keys j [] prev wan = refl
get-copy_keys j (k ∷ ks) prev wan = ground (
  arith,
  get-copy_keys j ks prev wan,
  get-copy_keys j ks prev (put k (get k prev) wan),
  get-put j k (get k prev) wan,
  eq_iff k j,
)

stamp_stats-access :
    (rt : Runtime) (stats : Fields) (now_ts : Float) (wan : Fields)
    → get "internet_access" (stamp_stats rt stats now_ts wan) ≡ get "internet_access" wan
unfolding stamp_stats
stamp_stats-access rt stats now_ts wan = simp get-put

module _ (rt : Runtime) (ping_check_status : Dict Fields) (prev : ValueMap Fields)
    (wan : Fields) where
  -- The published access and its source.
  abbrev pub IsDecided : Fields → Type 0
  IsDecided out =
      (get "internet_access" out
        ≡ access (lookup_id (get "id" wan) ping_check_status) (get "internet_access" wan))
      × (get "internet_access_source" out ≡ source (lookup_id (get "id" wan) ping_check_status))

  carry_wan-IsDecided : IsDecided (carry_wan rt ping_check_status prev wan)
  unfolding carry_wan
  carry_wan-IsDecided =
      let (a, s) =
        stamp-access (lookup_id (get "id" wan) ping_check_status)
          (copy_keys wan_sample_keys (or_empty (find (get "id" wan) prev)) wan) in
      (
        a
            ∙ ap (access (lookup_id (get "id" wan) ping_check_status)) (
                get-copy_keys "internet_access" wan_sample_keys
                  (or_empty (find (get "id" wan) prev)) wan),
        s,
      )

  enrich_wan-IsDecided :
      (interface_stats : Dict Fields) (now_ts : Float)
      → IsDecided (enrich_wan rt interface_stats ping_check_status prev now_ts wan)
  unfolding enrich_wan
  enrich_wan-IsDecided interface_stats now_ts =
      let stats = or_empty (lookup_id (get "id" wan) interface_stats) in
      let (a, s) =
        stamp-access (lookup_id (get "id" wan) ping_check_status)
          (stamp_stats rt stats now_ts wan) in
      (
        get-put_ne _ "internet_access" _ _ refl
            ∙ get-put_ne _ "internet_access" _ _ refl
            ∙ a
            ∙ ap (access (lookup_id (get "id" wan) ping_check_status))
                (stamp_stats-access rt stats now_ts wan),
        get-put_ne _ "internet_access_source" _ _ refl
            ∙ get-put_ne _ "internet_access_source" _ _ refl
            ∙ s,
      )

  -- On both kinds of tick a ping check that passes or fails decides an uplink's internet access and is
  -- named as the source; without a verdict the value that the router's state gave stays.
  pub ping_check_decides :
      (interface_stats : Dict Fields) (now_ts : Float)
      → IsDecided (carry_wan rt ping_check_status prev wan)
        × IsDecided (enrich_wan rt interface_stats ping_check_status prev now_ts wan)
  ping_check_decides interface_stats now_ts =
      (carry_wan-IsDecided, enrich_wan-IsDecided interface_stats now_ts)
