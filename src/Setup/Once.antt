-- ===== src/Setup/Once.antt =====
-- entity_setup.py: an entity is added once.
use keenetic_router_pro.Prelude.{
  String, List, [], ◌∷◌, false, ◌≡◌, some, Bool-cases, inl, inr, ◌++◌, Option-cases,
}
use keenetic_router_pro.Value.{Value, Fields}
use keenetic_router_pro.Setup.{is_known, item_id, iter_new_items, snapshots}

module _ (id_keys : List String) where
  -- Items with ids that are pairwise different and not among the given ones.
  abbrev pub AreFresh : List Value → List Fields → Type 0
  AreFresh known [] = Unit {0}
  AreFresh known (item ∷ items) =
      (id : Value) × (item_id id_keys item ≡ some id)
      × (is_known id known ≡ false)
      × AreFresh (id ∷ known) items

  iter_new_items-AreFresh :
      (items rest : List Fields) (known : List Value)
      → AreFresh (iter_new_items id_keys items known).1 rest
      → AreFresh known ((iter_new_items id_keys items known).0 ++ rest)
  unfolding iter_new_items
  iter_new_items-AreFresh [] rest known = λ h. h
  iter_new_items-AreFresh (item ∷ items) rest known = elim (Option-cases (item_id id_keys item)) [
    | inl e ↦ rw (e, iter_new_items) (iter_new_items-AreFresh items rest known)
    | inr (id, e) ↦ elim (Bool-cases (is_known id known)) [
      | inl t ↦ rw (e, iter_new_items, t) (iter_new_items-AreFresh items rest known)
      | inr f ↦
          rw (e, iter_new_items, f, AreFresh)
            (λ h. (id, e, f, iter_new_items-AreFresh items rest (id ∷ known) h))
    ]
  ]

  pub concat : List (List Fields) → List Fields
  concat [] = []
  concat (xs ∷ xss) = xs ++ concat xss

  -- Over any sequence of snapshots a platform adds every id at most once, and none that it knew: no entity
  -- is created twice, whatever the order and the repetitions of the items.
  pub snapshots-AreFresh :
      (later : List (List Fields)) (known : List Value)
      → AreFresh known (concat (snapshots id_keys later known).0)
  unfolding snapshots concat
  snapshots-AreFresh [] known = tt
  snapshots-AreFresh (items ∷ later) known =
      iter_new_items-AreFresh items _ known
        (snapshots-AreFresh later (iter_new_items id_keys items known).1)
