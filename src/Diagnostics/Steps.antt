-- ===== src/Diagnostics/Steps.antt =====
-- diagnostics.py: the keys that a step of the redaction keeps.
use keenetic_router_pro.Prelude.{String, false, ◌==◌, ◌≡◌, refl, Bool-cases, inl, inr}
use keenetic_router_pro.Value.{
  Value, Fields, null, int, str, list, dict, get, has, put, Runtime, get-put, get-put_self,
  get-put_ne, get_of_absent, bool, float,
}
use keenetic_router_pro.Diagnostics.{count_of_dict, strip_associations, strip_ndns, strip_nodes}
use keenetic_router_pro.Diagnostics.Counting.{IsCountOf, count_of_dict-IsCountOf}

-- The value under a key of a dict.
abbrev pub inner : String → Value → Value
inner key (dict d) = get key d
inner key v = null

pub strip_associations-counts :
    (v : Value) (d : Fields)
    → get "mesh_associations" d ≡ v
    → IsCountOf
        (inner "by_node" v)
        (inner "by_node" (get "mesh_associations" (strip_associations v d)))
unfolding strip_associations
strip_associations-counts null d h = rw h refl
strip_associations-counts (bool b) d h = rw h refl
strip_associations-counts (int z) d h = rw h refl
strip_associations-counts (float x) d h = rw h refl
strip_associations-counts (str t) d h = rw h refl
strip_associations-counts (list vs) d h = rw h refl
strip_associations-counts (dict fs) d h = elim (Bool-cases (has "by_node" fs)) [
  | inl e ↦
      rw (e, get-put_self "mesh_associations", get-put_self "by_node")
        (count_of_dict-IsCountOf (get "by_node" fs))
  | inr f ↦ rw (f, h, get_of_absent "by_node" fs f) refl
]

pub strip_associations-other :
    (v : Value) (k : String) (d : Fields)
    → ("mesh_associations" == k) ≡ false
    → get k (strip_associations v d) ≡ get k d
unfolding strip_associations
strip_associations-other null k d h = refl
strip_associations-other (bool b) k d h = refl
strip_associations-other (int z) k d h = refl
strip_associations-other (float x) k d h = refl
strip_associations-other (str t) k d h = refl
strip_associations-other (list vs) k d h = refl
strip_associations-other (dict fs) k d h = elim (Bool-cases (has "by_node" fs)) [
  | inl e ↦ rw e (
      get-put_ne "mesh_associations" k (dict (put "by_node" (count_of_dict (get "by_node" fs)) fs))
        d h)
  | inr f ↦ rw f refl
]

pub strip_ndns-other :
    (v : Value) (k : String) (d : Fields) → ("ndns" == k) ≡ false → get k (strip_ndns v d) ≡ get k d
unfolding strip_ndns
strip_ndns-other null k d h = refl
strip_ndns-other (bool b) k d h = refl
strip_ndns-other (int z) k d h = refl
strip_ndns-other (float x) k d h = refl
strip_ndns-other (str t) k d h = refl
strip_ndns-other (list vs) k d h = refl
strip_ndns-other (dict fs) k d h = elim (Bool-cases (has "ttp" fs)) [
  | inl e ↦ rw (e, get-put k "ndns", h) refl
  | inr f ↦ rw f refl
]

pub strip_nodes-other :
    (rt : Runtime) (v : Value) (k : String) (d : Fields)
    → ("mesh_nodes" == k) ≡ false
    → get k (strip_nodes rt v d) ≡ get k d
unfolding strip_nodes
strip_nodes-other rt null k d h = refl
strip_nodes-other rt (bool b) k d h = refl
strip_nodes-other rt (int z) k d h = refl
strip_nodes-other rt (float x) k d h = refl
strip_nodes-other rt (str t) k d h = refl
strip_nodes-other rt (list vs) k d h = rw (get-put k "mesh_nodes", h) refl
strip_nodes-other rt (dict fs) k d h = refl
