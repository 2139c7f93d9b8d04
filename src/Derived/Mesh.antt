-- ===== src/Derived/Mesh.antt =====
-- coordinator_parts/derived.py, `carry_firmware_available`: the offered version over a blank poll.
use keenetic_router_pro.Prelude.{
  String, ◌≡◌, false, arith, ◌==◌, if◌then◌else◌, refl, [], When, when,
}
use keenetic_router_pro.Value.{
  Value, Fields, get, get-put_self, get-put_ne, truthy, value_eq, ValueMap,
}
use keenetic_router_pro.Derived.{
  offered, carry_node, carry_firmware_available, carry_value, List, map, known_firmware, dict, ◌∷◌,
  dicts, [], not,
}

-- What one round does: a version that is reported stays, and a blank one becomes the version that was
-- offered before, unless none was or the node runs it.
abbrev pub carried_version : ValueMap Value → Fields → Value
carried_version known n =
    if truthy (get "firmware_available" n)
    then get "firmware_available" n
    else if truthy (offered known n)
    then (if value_eq (offered known n) (get "firmware" n)
        then get "firmware_available" n
        else offered known n)
    else get "firmware_available" n

carry_node_version :
    (known : ValueMap Value) (n : Fields)
    → get "firmware_available" (carry_node known n) ≡ carried_version known n
unfolding carry_node
carry_node_version known n = ground (arith, get-put_self "firmware_available" (offered known n) n)

carry_node_other :
    (known : ValueMap Value) (n : Fields) (k : String)
    → ("firmware_available" == k) ≡ false
    → get k (carry_node known n) ≡ get k n
unfolding carry_node
carry_node_other known n k h = ground (arith, get-put_ne "firmware_available" k (offered known n) n)

-- The node, carried over: its version as above, and every other field as it was.
pub record IsCarried (known : ValueMap Value) (n out : Fields) : Type 0 where
  pub version : get "firmware_available" out ≡ carried_version known n
  pub kept : (k : String) → When (not ("firmware_available" == k)) (get k out ≡ get k n)

abbrev pub IsCarriedValue : ValueMap Value → Value → Value → Type 0
IsCarriedValue known (dict n) (dict out) = IsCarried known n out
IsCarriedValue known v w = w ≡ v

abbrev pub AreCarried : ValueMap Value → List Value → List Value → Type 0
AreCarried known [] [] = Unit
AreCarried known (v ∷ vs) (w ∷ ws) = IsCarriedValue known v w × AreCarried known vs ws
AreCarried known _ _ = ⊥

carry_value-IsCarried :
    (known : ValueMap Value) (v : Value) → IsCarriedValue known v (carry_value known v)
unfolding carry_value
carry_value-IsCarried known (dict n) = record {
  version = carry_node_version known n;
  kept =
      λ k. when (not ("firmware_available" == k)) (λ h. carry_node_other known n k (ground arith));
}
carry_value-IsCarried known _ = refl

carry_all :
    (known : ValueMap Value) (vs : List Value) → AreCarried known vs (map (carry_value known) vs)
carry_all known [] = tt
carry_all known (v ∷ vs) = (carry_value-IsCarried known v, carry_all known vs)

-- Every mesh node keeps its place and its fields, except that a blank available version becomes the
-- one that the previous poll knew, unless the node now runs it.
pub carry_firmware_available-AreCarried :
    (nodes previous : List Value)
    → AreCarried
        (known_firmware (dicts previous) [])
        nodes
        (carry_firmware_available nodes previous)
unfolding carry_firmware_available
carry_firmware_available-AreCarried nodes previous =
    carry_all (known_firmware (dicts previous) []) nodes
