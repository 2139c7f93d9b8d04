-- ===== src/Parsers/Helpers/Entries.antt =====
-- api/helpers.py, `_normalize_interfaces`: the ids of the interfaces.
use keenetic_router_pro.Prelude.{String, ◌≡◌, length, All, true, Bool-cases, arith, refl, inl, inr}
use keenetic_router_pro.Value.{dict, Fields, end, field, has, has-put}
use keenetic_router_pro.Parsers.Helpers.{
  normalize_interfaces, interfaces_of, with_id, dict_children,
}

with_id-has : (key : String) (val : Fields) → has "id" (with_id key val) ≡ true
unfolding with_id
with_id-has key val = elim (Bool-cases (has "id" val)) [
  | inl h ↦ ground arith
  | inr h ↦ rw (h, has-put)
]

-- Of an interface payload that is a dict, `_normalize_interfaces` keeps exactly the entries that are dicts,
-- in their order, and every one of them has an id.
pub interfaces_have_ids :
    (fs : Fields)
    → (length (normalize_interfaces (dict fs)) ≡ length (dict_children fs))
      × All (λ i. has "id" i ≡ true) (normalize_interfaces (dict fs))
unfolding normalize_interfaces interfaces_of dict_children
interfaces_have_ids end = (refl, tt)
interfaces_have_ids (field k (dict val) rest) =
    (omega (arith, (interfaces_have_ids rest).0), (with_id-has k val, (interfaces_have_ids rest).1))
interfaces_have_ids (field k _ rest) = interfaces_have_ids rest
