-- ===== src/Derived/Uplinks.antt =====
-- coordinator_parts/derived.py, `order_wan_interfaces`: the order and the labels of the uplinks.
use keenetic_router_pro.Prelude.{
  List, [], ◌∷◌, All, ◌≤ℤ◌, neg_ℤ, leb_ℤ, Bool-cases, inl, inr, ◌≡◌, arith, ◌==◌, ◌⊎◌, none, refl,
  ◌&&◌, ◌∙◌, ◌||◌, subst, When, when,
}
use mathlib.Core.List.{Perm}
use mathlib.Core.List.Perm
use keenetic_router_pro.Value.{get-put_self, get-put_ne, Fields}
use keenetic_router_pro.Derived.{
  priority, insert_by_priority, sort_by_priority, Option, ℤ, wan_order, split_default, Runtime, ℕ,
  is_default, String, some, get, label_wan, label_from, order_wan_interfaces, int, true, not, Bool,
  false, pos, suc, is_some, eqb, Value, put, str,
}

insert-perm : (w : Fields) (ws : List Fields) → Perm (insert_by_priority w ws) (w ∷ ws)
unfolding insert_by_priority
insert-perm w [] = Perm.refl _
insert-perm w (x ∷ xs) = elim (Bool-cases (leb_ℤ (neg_ℤ (priority w)) (neg_ℤ (priority x)))) [
  | inl first ↦ rw first (Perm.refl _)
  | inr later ↦ rw later (Perm.trans (Perm.cons x (insert-perm w xs)) (Perm.swap w x xs))
]

sort-perm : (ws : List Fields) → Perm (sort_by_priority ws) ws
unfolding sort_by_priority
sort-perm [] = Perm.refl _
sort-perm (w ∷ ws) = Perm.trans (insert-perm w (sort_by_priority ws)) (Perm.cons w (sort-perm ws))

-- A larger priority comes first.
abbrev pub IsRanked : List Fields → Type 0
IsRanked [] = Unit
IsRanked (w ∷ ws) = All (λ v. priority v ≤ℤ priority w) ws × IsRanked ws

insert-All :
    (b : ℤ) (w : Fields) (ws : List Fields)
    → priority w ≤ℤ b
    → All (λ v. priority v ≤ℤ b) ws
    → All (λ v. priority v ≤ℤ b) (insert_by_priority w ws)
unfolding insert_by_priority
insert-All b w [] h a = (h, tt)
insert-All b w (x ∷ xs) h a = elim (Bool-cases (leb_ℤ (neg_ℤ (priority w)) (neg_ℤ (priority x)))) [
  | inl first ↦ rw first (h, a)
  | inr later ↦ rw later (a.0, insert-All b w xs h a.1)
]

All-weaken :
    (b c : ℤ) (ws : List Fields)
    → b ≤ℤ c
    → All (λ v. priority v ≤ℤ b) ws
    → All (λ v. priority v ≤ℤ c) ws
All-weaken b c [] h a = tt
All-weaken b c (w ∷ ws) h a = (omega arith, All-weaken b c ws h a.1)

-- The test of the sort, on the priorities themselves.
first_le : (a b : ℤ) → leb_ℤ (neg_ℤ a) (neg_ℤ b) ≡ true → b ≤ℤ a
first_le a b h = ground arith

later_le : (a b : ℤ) → leb_ℤ (neg_ℤ a) (neg_ℤ b) ≡ false → a ≤ℤ b
later_le a b h = ground arith

insert-IsRanked : (w : Fields) (ws : List Fields) → IsRanked ws → IsRanked (insert_by_priority w ws)
unfolding insert_by_priority
insert-IsRanked w [] r = (tt, tt)
insert-IsRanked w (x ∷ xs) r = elim (Bool-cases (leb_ℤ (neg_ℤ (priority w)) (neg_ℤ (priority x)))) [
  | inl first ↦
      let le = first_le (priority w) (priority x) first in
      rw first ((le, All-weaken (priority x) (priority w) xs le r.0), r)
  | inr later ↦ rw later (
    insert-All (priority x) w xs (later_le (priority w) (priority x) later) r.0,
    insert-IsRanked w xs r.1,
  )
]

sort-IsRanked : (ws : List Fields) → IsRanked (sort_by_priority ws)
unfolding sort_by_priority
sort-IsRanked [] = tt
sort-IsRanked (w ∷ ws) = insert-IsRanked w (sort_by_priority ws) (sort-IsRanked ws)

-- What `split_default` finds: a default uplink and the others.
abbrev IsSplit : List Fields → Option (Fields × List Fields) → Type 0
IsSplit ws none = All (λ v. is_default v ≡ false) ws
IsSplit ws (some (d, rest)) = (is_default d ≡ true) × Perm (d ∷ rest) ws

extend-IsSplit :
    (w : Fields) (ws : List Fields) (o : Option (Fields × List Fields))
    → is_default w ≡ false
    → IsSplit ws o
    → IsSplit (w ∷ ws) (elim o [ none ↦ none | some (d, rest) ↦ some (d, w ∷ rest) ])
extend-IsSplit w ws none h s = (h, s)
extend-IsSplit w ws (some (d, rest)) h s = (s.0, Perm.trans (Perm.swap w d rest) (Perm.cons w s.1))

split_default-IsSplit : (ws : List Fields) → IsSplit ws (split_default ws)
unfolding split_default
split_default-IsSplit [] = tt
split_default-IsSplit (w ∷ ws) = elim (Bool-cases (is_default w)) [
  | inl here ↦ rw here (here, Perm.refl _)
  | inr later ↦ rw later (extend-IsSplit w ws (split_default ws) later (split_default-IsSplit ws))
]

-- The order of the uplinks, for what `split_default` found.
pub record IsOrdered (wans : List Fields) (out : List Fields) : Type 0 where
  pub same_uplinks : Perm out wans
  pub shape :
      (All (λ v. is_default v ≡ false) wans × IsRanked out)
      ⊎ ((default : Fields) × (backups : List Fields) × (out ≡ default ∷ backups)
          × (is_default default ≡ true)
          × IsRanked backups)

wan_order_of :
    (wans : List Fields) (o : Option (Fields × List Fields))
    → IsSplit wans o
    → IsOrdered wans (elim o [
      | some (default, backups) ↦ default ∷ sort_by_priority backups
      | none ↦ sort_by_priority wans
    ])
wan_order_of wans none s = record {
  same_uplinks = sort-perm wans;
  shape = inl (s, sort-IsRanked wans);
}
wan_order_of wans (some (d, rest)) s = record {
  same_uplinks = Perm.trans (Perm.cons d (sort-perm rest)) s.1;
  shape = inr (d, sort_by_priority rest, refl, s.0, sort-IsRanked rest);
}

-- The ordered uplinks are the given ones; without a default uplink they stand by falling priority, and
-- otherwise a default one leads and the others follow by falling priority.
pub wan_order-IsOrdered : (wans : List Fields) → IsOrdered wans (wan_order wans)
unfolding wan_order
wan_order-IsOrdered wans = wan_order_of wans (split_default wans) (split_default-IsSplit wans)

-- `out` is the uplink at position `n`, labelled: the index is the position, and nothing but the label
-- and the index differs from what the router reports.
pub record IsLabelled (n : ℕ) (w out : Fields) : Type 0 where
  pub index : get "role_index" out ≡ int (pos n)
  pub kept :
      (k : String) → When (not ("role_index" == k) && not ("role_label" == k)) (get k out ≡ get k w)

abbrev pub AreLabelled : ℕ → List Fields → List Fields → Type 0
AreLabelled n [] [] = Unit
AreLabelled n (w ∷ ws) (o ∷ os) = IsLabelled n w o × AreLabelled (suc n) ws os
AreLabelled n _ _ = ⊥

put_label-IsLabelled :
    (n : ℕ) (label : Value) (w : Fields)
    → IsLabelled n w (put "role_index" (int (pos n)) (put "role_label" label w))
put_label-IsLabelled n label w = record {
  index = get-put_self "role_index" (int (pos n)) (put "role_label" label w);
  kept = λ k. when (not ("role_index" == k) && not ("role_label" == k)) (λ h.
      get-put_ne "role_index" k (int (pos n)) _ (ground arith)
      ∙ get-put_ne "role_label" k label w (ground arith));
}

module _ (rt : Runtime) where
  label_wan-IsLabelled :
      (no_default : Bool) (n : ℕ) (w : Fields) → IsLabelled n w (label_wan rt no_default n w)
  unfolding label_wan
  label_wan-IsLabelled no_default n w =
      elim (Bool-cases (eqb n 0 && (is_default w || no_default))) [
        | inl lead ↦ rw lead (
            subst
              (λ m.
                IsLabelled n w
                  (put "role_index" (int (pos m)) (put "role_label" (str "Default connection") w)))
              (zero_of_test n (is_default w || no_default) lead)
              (put_label-IsLabelled n (str "Default connection") w))
        | inr backup ↦ rw backup (put_label-IsLabelled n _ w)
      ]
    where
      zero_of_test : (n : ℕ) (b : Bool) → (eqb n 0 && b) ≡ true → n ≡ 0
      zero_of_test n b h = ground arith

  label_from-AreLabelled :
      (no_default : Bool) (n : ℕ) (ws : List Fields)
      → AreLabelled n ws (label_from rt no_default n ws)
  unfolding label_from
  label_from-AreLabelled no_default n [] = tt
  label_from-AreLabelled no_default n (w ∷ ws) =
      (label_wan-IsLabelled no_default n w, label_from-AreLabelled no_default (suc n) ws)

  -- The published list is the ordered one with labels: the role index of an uplink is its position, and
  -- every other field is the router's.
  pub order_wan_interfaces-AreLabelled :
      (wans : List Fields) → AreLabelled 0 (wan_order wans) (order_wan_interfaces rt wans)
  unfolding order_wan_interfaces
  order_wan_interfaces-AreLabelled wans =
      label_from-AreLabelled (not (is_some (split_default wans))) 0 (wan_order wans)
