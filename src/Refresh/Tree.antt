-- ===== src/Refresh/Tree.antt =====
-- coordinator_parts/refresh.py, `add`: a path added to the tree of the composite request, and found again.
use keenetic_router_pro.Prelude.{
  String, Bool, true, false, ◌≡◌, List, [], ◌∷◌, ◌==◌, ◌&&◌, ◌||◌, if◌then◌else◌, arith, eq_iff,
  refl, Bool-cases, eq_refl, inl, inr, ap,
}
use keenetic_router_pro.Value.{
  Value, dict, Fields, end, has, put, has-put, get_of_absent, get-put_ne, get-put_self,
}
use keenetic_router_pro.Refresh.{set_default, add_segments, child, content}

-- A path is in the tree: every segment leads to a dict.
unfoldable pub present : List String → Fields → Bool
present [] tree = true
present (seg ∷ segs) tree = has seg tree && present segs (child seg tree)

-- Neither path is a prefix of the other.
unfoldable pub apart : List String → List String → Bool
apart [] _ = false
apart (a ∷ as_) [] = false
apart (a ∷ as_) (b ∷ bs) = if a == b then apart as_ bs else true

module _ (k : String) (t : Fields) where
  child-put_self : (fs : Fields) → child k (put k (dict fs) t) ≡ fs
  unfolding child
  child-put_self fs = ap content (get-put_self k (dict fs) t)

  child-put_ne : (j : String) (v : Value) → (k == j) ≡ false → child j (put k v t) ≡ child j t
  unfolding child
  child-put_ne j v h = ap content (get-put_ne k j v t h)

  child_of_absent : has k t ≡ false → child k t ≡ end
  unfolding child
  child_of_absent h = ap content (get_of_absent k t h)

  has-set_default : (j : String) → has j (set_default k t) ≡ (k == j || has j t)
  unfolding set_default
  has-set_default j = ground (arith, has-put j k (dict end) t, eq_iff k j)

  child-set_default_ne : (j : String) → (k == j) ≡ false → child j (set_default k t) ≡ child j t
  unfolding set_default
  child-set_default_ne j h = ground (arith, child-put_ne j (dict end) h)

-- After `add`, the path is in the tree.
pub present-add_self :
    (seg : String) (segs : List String) (tree : Fields)
    → present (seg ∷ segs) (add_segments (seg ∷ segs) tree) ≡ true
unfolding present add_segments
present-add_self seg [] tree = ground (arith, has-set_default seg tree seg, eq_refl seg)
present-add_self seg (next ∷ rest) tree = rw (
  has-put,
  eq_refl seg,
  child-put_self seg tree (add_segments (next ∷ rest) (child seg tree)),
  present-add_self next rest (child seg tree),
)

-- Below an absent segment there is no path.
present_below :
    (a : String) (p bs : List String) (tree : Fields)
    → apart p bs ≡ true
    → present bs (child a tree) ≡ (has a tree && present bs (child a tree))
unfolding present apart
present_below a [] bs tree h = cc
present_below a (c ∷ p) [] tree h = cc
present_below a (c ∷ p) (b ∷ bs) tree h = elim (Bool-cases (has a tree)) [
  | inl there ↦ rw there
  | inr absent ↦ rw (absent, child_of_absent a tree absent) (unfold has in refl)
]

-- Adding a path changes nothing at a path that is no prefix of it, and of which it is none.
pub present-add_apart :
    (p q : List String) (tree : Fields)
    → apart p q ≡ true
    → present q (add_segments p tree) ≡ present q tree
unfolding present add_segments apart
present-add_apart [] q tree h = refl
present-add_apart (a ∷ as_) [] tree h = cc
present-add_apart (a ∷ []) (b ∷ bs) tree h =
    ground (arith, has-set_default a tree b, child-set_default_ne a tree b)
present-add_apart (a ∷ next ∷ rest) (b ∷ bs) tree h = elim (Bool-cases (a == b)) [
  | inl same ↦ rw (← (eq_iff a b).0 same) (
      rw
        (
          has-put,
          eq_refl a,
          child-put_self a tree (add_segments (next ∷ rest) (child a tree)),
          present-add_apart (next ∷ rest) bs (child a tree) (ground arith),
        )
        (present_below a (next ∷ rest) bs tree (ground arith)))
  | inr other ↦ rw (has-put, other, child-put_ne a tree b _ other)
]

-- The first path leads to the second.
unfoldable pub leads_to : List String → List String → Bool
leads_to [] p = true
leads_to (b ∷ bs) [] = false
leads_to (b ∷ bs) (a ∷ as_) = a == b && leads_to bs as_

present-end : (q : List String) (p : List String) → present q end ≡ leads_to q []
unfolding present leads_to has
present-end [] p = refl
present-end (b ∷ bs) p = refl

-- An absent segment has an empty node below it.
present-child :
    (a : String) (bs : List String) (tree : Fields)
    → has a tree ≡ false
    → present bs (child a tree) ≡ leads_to bs []
present-child a bs tree h = rw (child_of_absent a tree h) (present-end bs [])

leads_to_of_nil : (bs p : List String) → leads_to bs [] ≡ true → leads_to bs p ≡ true
unfolding leads_to
leads_to_of_nil [] p h = refl
leads_to_of_nil (b ∷ bs) p h = cc

present_of_nil : (bs : List String) (tree : Fields) → leads_to bs [] ≡ true → present bs tree ≡ true
unfolding leads_to present
present_of_nil [] tree h = refl
present_of_nil (b ∷ bs) tree h = cc

child-set_default_self : (a : String) (tree : Fields) → child a (set_default a tree) ≡ child a tree
unfolding set_default
child-set_default_self a tree = elim (Bool-cases (has a tree)) [
  | inl there ↦ rw there refl
  | inr absent ↦ rw (absent, child-put_self a tree end, child_of_absent a tree absent) refl
]

-- `add` puts exactly the path and what leads to it into the tree.
pub present-add_segments :
    (p q : List String) (tree : Fields)
    → present q (add_segments p tree) ≡ (present q tree || leads_to q p)
unfolding present add_segments leads_to
present-add_segments [] [] tree = refl
present-add_segments [] (b ∷ bs) tree = ground arith
present-add_segments (a ∷ as_) [] tree = refl
present-add_segments (a ∷ []) (b ∷ bs) tree = elim (Bool-cases (a == b)) [
  | inl same ↦ rw (← (eq_iff a b).0 same) (
      ground (
        arith,
        has-set_default a tree a,
        child-set_default_self a tree,
        eq_refl a,
        present-child a bs tree,
        present_of_nil bs (child a tree),
      ))
  | inr other ↦ ground (arith, has-set_default a tree b, child-set_default_ne a tree b other)
]
present-add_segments (a ∷ next ∷ rest) (b ∷ bs) tree =
    let below = add_segments (next ∷ rest) (child a tree) in
    elim (Bool-cases (a == b)) [
      | inl same ↦ rw (← (eq_iff a b).0 same) (
          rw (child-put_self a tree below) (
            ground (
              arith,
              has-put a a (dict below) tree,
              eq_refl a,
              present-add_segments (next ∷ rest) bs (child a tree),
              present-child a bs tree,
              leads_to_of_nil bs (next ∷ rest),
            )))
      | inr other ↦
          ground (arith, has-put b a (dict below) tree, child-put_ne a tree b (dict below) other)
    ]
