-- ===== src/Payloads/Merge.antt =====
-- coordinator_parts/payloads.py: what the merge keeps of the clients, and what it adds.
use keenetic_router_pro.Prelude.{
  [], ◌∷◌, ◌++◌, All, Dict, map, none, some, true, inl, inr, Bool-cases, String, ◌≡◌, false, arith,
  ◌==◌, ◌∙◌, Pairs, if◌then◌else◌, refl, ◌&&◌, When, when,
}
use keenetic_router_pro.Value.{Value, Fields, get, get-put_ne, get-put_self}
use keenetic_router_pro.Payloads.{
  merge_last_seen, merge_first_seen, merge_ip, merge_state, set_default_value, List, Runtime,
  merge_client, str, mem, put, dict, ghosts, lookup, merge_clients_with_neighbours, bool, ghost,
  attach, not, normalize_mac, dicts, seen_macs, Option, index_neighbours, truthy, is_some,
  usable_ip, elements, is_ipv4,
}

get-set_default :
    (k j : String) (v : Value) (d : Fields)
    → (k == j) ≡ false
    → get j (set_default_value k v d) ≡ get j d
unfolding set_default_value
get-set_default k j v d h = ground (arith, get-put_ne k j v d h)

-- The fields that the merge writes.
abbrev pub merged_keys : List String
merged_keys =
    "neighbour" ∷ "last-seen" ∷ "last-seen-source" ∷ "first-seen" ∷ "first-seen-source" ∷ "ip"
    ∷ "neighbour-expired" ∷ "neighbour-wireless" ∷ "neighbour-leasetime" ∷ []

module _ (rt : Runtime) (n : Fields) (k : String) where
  last_seen_kept :
      (item : Fields)
      → ("last-seen" == k) ≡ false
      → ("last-seen-source" == k) ≡ false
      → get k (merge_last_seen rt n item) ≡ get k item
  unfolding merge_last_seen
  last_seen_kept item p q = ground (
    arith,
    get-put_ne "last-seen-source" k (str "neighbour") (put "last-seen" (get "last-seen" n) item) q,
    get-put_ne "last-seen" k (get "last-seen" n) item p,
    get-set_default "last-seen-source" k (str "neighbour")
        (put "last-seen" (get "last-seen" n) item) q,
    get-set_default "last-seen-source" k (str "hotspot") item q,
  )

  first_seen_kept :
      (item : Fields)
      → ("first-seen" == k) ≡ false
      → ("first-seen-source" == k) ≡ false
      → get k (merge_first_seen rt n item) ≡ get k item
  unfolding merge_first_seen
  first_seen_kept item p q = ground (
    arith,
    get-put_ne "first-seen" k (get "first-seen" n) item p,
    get-set_default "first-seen-source" k (str "neighbour")
        (put "first-seen" (get "first-seen" n) item) q,
    get-set_default "first-seen-source" k (str "hotspot") item q,
  )

  ip_kept : (item : Fields) → ("ip" == k) ≡ false → get k (merge_ip rt n item) ≡ get k item
  unfolding merge_ip
  ip_kept item p = ground (arith, get-put_ne "ip" k (get "address" n) item p)

  state_kept :
      (item : Fields)
      → ("neighbour-expired" == k) ≡ false
      → ("neighbour-wireless" == k) ≡ false
      → ("neighbour-leasetime" == k) ≡ false
      → get k (merge_state rt n item) ≡ get k item
  unfolding merge_state
  state_kept item p q r =
      get-put_ne "neighbour-leasetime" k (get "leasetime" n) _ r
      ∙ get-put_ne "neighbour-wireless" k (get "wireless" n) _ q
      ∙ get-put_ne "neighbour-expired" k (get "expired" n) item p

  -- A field that the merge does not write is the client's.
  merge_client_kept :
      (c : Fields) → mem k merged_keys ≡ false → get k (merge_client rt c n) ≡ get k c
  unfolding merge_client
  merge_client_kept c h =
      state_kept _ (ground arith) (ground arith) (ground arith)
      ∙ ip_kept _ (ground arith)
      ∙ first_seen_kept _ (ground arith) (ground arith)
      ∙ last_seen_kept _ (ground arith) (ground arith)
      ∙ get-put_ne "neighbour" k (dict n) c (ground arith)

module _ (rt : Runtime) where
  -- A usable address of the client stands; otherwise an IPv4 neighbour lends its own.
  merge_ip_lem :
      (n item : Fields)
      → get "ip" (merge_ip rt n item) ≡ (
          if not (is_some (usable_ip rt (get "ip" item))) && is_ipv4 n
          then get "address" n
          else get "ip" item)
  unfolding merge_ip
  merge_ip_lem n item = ground (arith, get-put_self "ip" (get "address" n) item)

  -- A client, after the merge: either untouched, or merged with the neighbour at its address.
  pub record IsAttached (by_mac : Dict Fields) (c out : Fields) : Type 0 where
    pub kept : (k : String) → When (not (mem k merged_keys)) (get k out ≡ get k c)
    pub alone : When (not (is_some (lookup (normalize_mac rt (get "mac" c)) by_mac))) (out ≡ c)

  attach-kept :
      (by_mac : Dict Fields) (c : Fields) (k : String)
      → mem k merged_keys ≡ false
      → get k (attach rt by_mac c) ≡ get k c
  unfolding attach
  attach-kept by_mac c k h = elim (Bool-cases (normalize_mac rt (get "mac" c) == "")) [
    | inl empty ↦ rw empty
    | inr proper ↦ rw proper (attach_found (lookup (normalize_mac rt (get "mac" c)) by_mac))
  ]
    where
      attach_found :
          (o : Option Fields)
          → get k (elim o [
            | none ↦ c
            | some neighbour ↦ if truthy (dict neighbour) then merge_client rt c neighbour else c
          ])
            ≡ get k c
      attach_found none = refl
      attach_found (some n) = ground (arith, merge_client_kept rt n k c h)

  attach-alone :
      (by_mac : Dict Fields) (c : Fields)
      → lookup (normalize_mac rt (get "mac" c)) by_mac ≡ none
      → attach rt by_mac c ≡ c
  unfolding attach
  attach-alone by_mac c h = ground (arith, h)

  -- A host that only the neighbour table knows: it is marked, offline, and at an address that no client
  -- of the payload has.
  pub record IsGhost (seen : List String) (g : Fields) : Type 0 where
    pub marked : get "neighbour-only" g ≡ bool true
    pub offline : get "active" g ≡ bool false
    pub mac : String
    pub addressed : get "mac" g ≡ str mac
    pub unseen : mem mac seen ≡ false

  ghost-IsGhost :
      (seen : List String) (m : String) (n : Fields) → mem m seen ≡ false → IsGhost seen (ghost m n)
  unfolding ghost get
  ghost-IsGhost seen m n h = record {
    marked = refl;
    offline = refl;
    mac = m;
    addressed = refl;
    unseen = h;
  }

  ghosts-IsGhost :
      (seen : List String) (by_mac : Dict Fields) → All (IsGhost seen) (ghosts seen by_mac)
  unfolding ghosts
  ghosts-IsGhost seen [] = tt
  ghosts-IsGhost seen ((m, n) ∷ rest) = elim (Bool-cases (mem m seen)) [
    | inl known ↦ rw known (ghosts-IsGhost seen rest)
    | inr new ↦ rw new (ghost-IsGhost seen m n new, ghosts-IsGhost seen rest)
  ]

  -- The merged list: every client of the payload, in order, followed by ghosts.
  pub record IsMerged (clients : List Fields) (by_mac : Dict Fields) (out : List Fields)
      : Type 0 where
    pub attached : List Fields
    pub added : List Fields
    pub split : out ≡ attached ++ added
    pub clients_kept : Pairs (IsAttached by_mac) clients attached
    pub ghosts_only : All (IsGhost (seen_macs rt clients)) added

  none_of_not_some : (o : Option Fields) → not (is_some o) ≡ true → o ≡ none
  none_of_not_some none h = refl
  none_of_not_some (some n) h = cc

  attach_all :
      (by_mac : Dict Fields) (cs : List Fields)
      → Pairs (IsAttached by_mac) cs (map (attach rt by_mac) cs)
  attach_all by_mac [] = tt
  attach_all by_mac (c ∷ cs) = (
    record {
      kept = λ k. when (not (mem k merged_keys)) (λ h. attach-kept by_mac c k (ground arith));
      alone = when (not (is_some (lookup (normalize_mac rt (get "mac" c)) by_mac))) (λ h.
          attach-alone by_mac c
            (none_of_not_some (lookup (normalize_mac rt (get "mac" c)) by_mac) h));
    },
    attach_all by_mac cs,
  )

  -- The merge loses no client and no field of one beyond those that it fills in from the neighbour
  -- table; what it adds are marked, offline records at addresses that no client has.
  pub merge_clients_with_neighbours-IsMerged :
      (clients : List Value) (neighbours : Value)
      → IsMerged
          (dicts clients)
          (index_neighbours rt (dicts (elements neighbours)) [])
          (merge_clients_with_neighbours rt clients neighbours)
  unfolding merge_clients_with_neighbours
  merge_clients_with_neighbours-IsMerged clients neighbours =
      let by_mac = index_neighbours rt (dicts (elements neighbours)) [] in
      record {
        attached = map (attach rt by_mac) (dicts clients);
        added = ghosts (seen_macs rt (dicts clients)) by_mac;
        split = refl;
        clients_kept = attach_all by_mac (dicts clients);
        ghosts_only = ghosts-IsGhost (seen_macs rt (dicts clients)) by_mac;
      }
