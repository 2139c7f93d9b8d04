-- ===== src/Diagnostics/Redacted.antt =====
-- diagnostics.py: what the dump still names.
use keenetic_router_pro.Prelude.{ap, subst, String, true, false, mem, ◌==◌, ◌≡◌, refl, All, ◌∙◌}
use keenetic_router_pro.Value.{Fields, get, Runtime}
use keenetic_router_pro.Diagnostics.{
  count_of_dict, count_of_set, count_at, mac_keyed_indexes, mac_set_fields, strip_associations,
  strip_ndns, strip_mac_keyed_indexes,
}
use keenetic_router_pro.Diagnostics.Counting.{
  IsCountOf, IsSizeOf, count_of_dict-IsCountOf, count_of_set-IsSizeOf, count_at-other,
  count_at-counts,
}
use keenetic_router_pro.Diagnostics.Steps.{
  inner, strip_associations-counts, strip_associations-other, strip_ndns-other, strip_nodes-other,
}
use keenetic_router_pro.Diagnostics.Masking.{NodesMasked, strip_nodes-NodesMasked}

module _ (rt : Runtime) where
  -- What the steps before the mesh nodes made of the data.
  abbrev counted : Fields → Fields
  counted d = count_at count_of_dict mac_keyed_indexes d

  abbrev associated : Fields → Fields
  associated d = strip_associations (get "mesh_associations" (counted d)) (counted d)

  abbrev without_sets : Fields → Fields
  without_sets d = count_at count_of_set mac_set_fields (associated d)

  abbrev named : Fields → Fields
  named d = strip_ndns (get "ndns" (without_sets d)) (without_sets d)

  -- The last two steps keep a key other than theirs, and so do the sets.
  strip-late :
      (k : String) (d : Fields)
      → ("ndns" == k) ≡ false
      → ("mesh_nodes" == k) ≡ false
      → get k (strip_mac_keyed_indexes rt d) ≡ get k (without_sets d)
  unfolding strip_mac_keyed_indexes
  strip-late k d n m =
      strip_nodes-other rt (get "mesh_nodes" (named d)) k (named d) m
      ∙ strip_ndns-other (get "ndns" (without_sets d)) k (without_sets d) n

  strip-index :
      (k : String) (d : Fields)
      → mem k mac_keyed_indexes ≡ true
      → mem k mac_set_fields ≡ false
      → ("mesh_associations" == k) ≡ false
      → ("ndns" == k) ≡ false
      → ("mesh_nodes" == k) ≡ false
      → IsCountOf (get k d) (get k (strip_mac_keyed_indexes rt d))
  unfolding count_of_dict
  strip-index k d i s a n m =
      rw
        (strip-late k d n m
          ∙ count_at-other count_of_set k mac_set_fields (associated d) s
          ∙ strip_associations-other (get "mesh_associations" (counted d)) k (counted d) a
          ∙ count_at-counts count_of_dict k mac_keyed_indexes d refl i refl)
        (count_of_dict-IsCountOf (get k d))

  strip-set :
      (k : String) (d : Fields)
      → mem k mac_set_fields ≡ true
      → mem k mac_keyed_indexes ≡ false
      → ("mesh_associations" == k) ≡ false
      → ("ndns" == k) ≡ false
      → ("mesh_nodes" == k) ≡ false
      → IsSizeOf (get k d) (get k (strip_mac_keyed_indexes rt d))
  unfolding count_of_set
  strip-set k d i s a n m =
      rw
        (strip-late k d n m
          ∙ count_at-counts count_of_set k mac_set_fields (associated d) refl i refl
          ∙ ap count_of_set (
              strip_associations-other (get "mesh_associations" (counted d)) k (counted d) a
              ∙ count_at-other count_of_dict k mac_keyed_indexes d s))
        (count_of_set-IsSizeOf (get k d))

  strip-by_node :
      (d : Fields)
      → IsCountOf
          (inner "by_node" (get "mesh_associations" d))
          (inner "by_node" (get "mesh_associations" (strip_mac_keyed_indexes rt d)))
  strip-by_node d =
      rw
        (strip-late "mesh_associations" d refl refl
          ∙ count_at-other count_of_set "mesh_associations" mac_set_fields (associated d) refl)
        (subst
          (λ v.
            IsCountOf (inner "by_node" v)
              (inner "by_node" (get "mesh_associations" (associated d))))
          (count_at-other count_of_dict "mesh_associations" mac_keyed_indexes d refl)
          (strip_associations-counts (get "mesh_associations" (counted d)) (counted d) refl))

  -- What the dump may hold of the published data.
  pub record IsStripped (d d' : Fields) : Type 0 where
    pub indexes : All (λ k. IsCountOf (get k d) (get k d')) mac_keyed_indexes
    pub by_node :
        IsCountOf
          (inner "by_node" (get "mesh_associations" d))
          (inner "by_node" (get "mesh_associations" d'))
    pub sets : All (λ k. IsSizeOf (get k d) (get k d')) mac_set_fields
    pub nodes : NodesMasked rt (get "mesh_nodes" d')

  -- Whatever the coordinator published, the dump shows a lookup table that is keyed by MAC addresses or
  -- mesh ids (the four of _MAC_KEYED_INDEXES and by_node) by the number of its keys only, and a collection
  -- in one of the four fields of MAC addresses by its size; what is no dict and no collection there stays.
  -- No mesh node has an id or a cid that reads as a MAC address.
  pub strip_mac_keyed_indexes-IsStripped :
      (d : Fields) → IsStripped d (strip_mac_keyed_indexes rt d)
  unfolding strip_mac_keyed_indexes
  strip_mac_keyed_indexes-IsStripped d = record {
    indexes = (
      strip-index "clients_by_mac" d refl refl refl refl refl,
      (
        strip-index "host_policies" d refl refl refl refl refl,
        (
          strip-index "client_stats" d refl refl refl refl refl,
          (strip-index "mesh_nodes_by_cid" d refl refl refl refl refl, tt),
        ),
      ),
    );
    by_node = strip-by_node d;
    sets = (
      strip-set "new_clients" d refl refl refl refl refl,
      (
        strip-set "online_clients" d refl refl refl refl refl,
        (
          strip-set "connected_clients" d refl refl refl refl refl,
          (strip-set "disconnected_clients" d refl refl refl refl refl, tt),
        ),
      ),
    );
    nodes = strip_nodes-NodesMasked rt (get "mesh_nodes" (named d)) (named d) refl;
  }
