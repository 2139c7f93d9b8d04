-- ===== src/Diagnostics/Masking.antt =====
-- diagnostics.py: the ids of mesh nodes.
use keenetic_router_pro.Prelude.{String, false, ◌==◌, ◌≡◌, refl, eq_iff, Bool-cases, inl, inr}
use keenetic_router_pro.Value.{
  Value, Fields, Items, null, int, str, list, dict, nil, cons, get, Runtime, get-put, get-put_self,
  bool, float, truthy,
}
use keenetic_router_pro.Utils.Mac.{normalize_mac, text_or_empty, mac_of_text}
use keenetic_router_pro.Text.{strip, lower}
use keenetic_router_pro.Diagnostics.{
  redacted, strip_nodes, redact_key, redact_mesh_node_ids, map_items,
}
use native.Mathlib.Decide.{dec_lt}
use keenetic_router_pro.Utils.Mac.{mac_of_text, text_or_empty}

strip_redacted : strip "**REDACTED**" ≡ "**REDACTED**"
unfolding strip
strip_redacted = refl

lower_redacted : lower "**REDACTED**" ≡ "**redacted**"
unfolding lower dec_lt
lower_redacted = refl

-- Six hexadecimal digits are no address.
mac_of_lowered : mac_of_text "**redacted**" ≡ ""
unfolding mac_of_text
mac_of_lowered = refl

module _ (rt : Runtime) where
  -- Ids that are no MAC address.
  abbrev pub IsMasked : Value → Type 0
  IsMasked (dict node) =
      (normalize_mac rt (get "id" node) ≡ "") × (normalize_mac rt (get "cid" node) ≡ "")
  IsMasked v = Unit {0}

  abbrev pub AreMasked : Items → Type 0
  AreMasked nil = Unit {0}
  AreMasked (cons v vs) = IsMasked v × AreMasked vs

  abbrev pub NodesMasked : Value → Type 0
  NodesMasked (list vs) = AreMasked vs
  NodesMasked v = Unit {0}

  mac_of_redacted : normalize_mac rt redacted ≡ ""
  unfolding normalize_mac text_or_empty truthy
  mac_of_redacted = rw (rt.print-str "**REDACTED**", strip_redacted, lower_redacted) mac_of_lowered

  redact_key_masks :
      (key : String) (node : Fields) → normalize_mac rt (get key (redact_key rt key node)) ≡ ""
  unfolding redact_key
  redact_key_masks key node = elim (Bool-cases (normalize_mac rt (get key node) == "")) [
    | inl e ↦ rw e ((eq_iff (normalize_mac rt (get key node)) "").0 e)
    | inr f ↦ rw (f, get-put_self key) mac_of_redacted
  ]

  redact_key-other :
      (k key : String) (node : Fields)
      → (key == k) ≡ false
      → get k (redact_key rt key node) ≡ get k node
  unfolding redact_key
  redact_key-other k key node h = elim (Bool-cases (normalize_mac rt (get key node) == "")) [
    | inl e ↦ rw e refl
    | inr f ↦ rw (f, get-put k key, h) refl
  ]

  redact_mesh_node_ids-IsMasked : (v : Value) → IsMasked (redact_mesh_node_ids rt v)
  unfolding redact_mesh_node_ids
  redact_mesh_node_ids-IsMasked null = tt
  redact_mesh_node_ids-IsMasked (bool b) = tt
  redact_mesh_node_ids-IsMasked (int z) = tt
  redact_mesh_node_ids-IsMasked (float x) = tt
  redact_mesh_node_ids-IsMasked (str t) = tt
  redact_mesh_node_ids-IsMasked (list vs) = tt
  redact_mesh_node_ids-IsMasked (dict fs) = (
    rw (redact_key-other "id" "cid" (redact_key rt "id" fs) refl) (redact_key_masks "id" fs),
    redact_key_masks "cid" (redact_key rt "id" fs),
  )

  map_items-AreMasked : (vs : Items) → AreMasked (map_items (redact_mesh_node_ids rt) vs)
  unfolding map_items
  map_items-AreMasked nil = tt
  map_items-AreMasked (cons v vs) = (redact_mesh_node_ids-IsMasked v, map_items-AreMasked vs)

  pub strip_nodes-NodesMasked :
      (v : Value) (d : Fields)
      → get "mesh_nodes" d ≡ v
      → NodesMasked (get "mesh_nodes" (strip_nodes rt v d))
  unfolding strip_nodes
  strip_nodes-NodesMasked null d h = rw h tt
  strip_nodes-NodesMasked (bool b) d h = rw h tt
  strip_nodes-NodesMasked (int z) d h = rw h tt
  strip_nodes-NodesMasked (float x) d h = rw h tt
  strip_nodes-NodesMasked (str t) d h = rw h tt
  strip_nodes-NodesMasked (list vs) d h = rw (get-put_self "mesh_nodes") (map_items-AreMasked vs)
  strip_nodes-NodesMasked (dict fs) d h = rw h tt
