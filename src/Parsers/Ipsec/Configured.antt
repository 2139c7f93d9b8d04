-- ===== src/Parsers/Ipsec/Configured.antt =====
-- api/parsers/ipsec.py, `merge_crypto_map_config`: the configured tunnels in its result.
use keenetic_router_pro.Prelude.{
  true, false, String, ◌≡◌, if◌then◌else◌, ◌∙◌, ◌==◌, refl, arith, true, subst, sym, lookup-insert,
}
use keenetic_router_pro.Value.{
  bool, dict, Fields, end, field, get, get-put_ne, get-put_self, Runtime,
}
use keenetic_router_pro.Utils.Coerce.{coerce_bool}
use keenetic_router_pro.Parsers.Ipsec.{
  configured, merge_config, merge_crypto_map_config, add_peer, crypto_map_config_peer, Dict, Option,
  none, lookup, some, insert, Bool, str,
}

-- The last configuration of a tunnel; a Python dict has one at most.
abbrev later_or : Option Fields → Option Fields → Option Fields
later_or none o = o
later_or (some fs) o = some fs

abbrev pub configuration : String → Fields → Option Fields
configuration k end = none
configuration k (field name (dict cfg) rest) =
    later_or (configuration k rest) (if name == k then some cfg else none)
configuration k (field name _ rest) = configuration k rest

-- A configured tunnel is there and its switch is the configured one; another is as the dump has it.
abbrev pub IsMergedWith : Option Fields → Option Fields → Option Fields → Type 0
IsMergedWith none before after = after ≡ before
IsMergedWith (some cfg) before none = ⊥
IsMergedWith (some cfg) before (some tunnel) =
    get "enabled" tunnel ≡ bool (coerce_bool (get "enable" cfg))

add_peer-enabled : (o : Option String) (t : Fields) → get "enabled" (add_peer o t) ≡ get "enabled" t
add_peer-enabled none t = refl
add_peer-enabled (some p) t = ground (arith, get-put_ne "remote_peer" "enabled" (str p) t refl)

configured-enabled :
    (rt : Runtime) (name : String) (cfg : Fields) (o : Option Fields)
    → get "enabled" (configured rt name cfg o) ≡ bool (coerce_bool (get "enable" cfg))
unfolding configured
configured-enabled rt name cfg none = get-put_ne _ "enabled" _ _ refl ∙ get-put_self "enabled" _ _
configured-enabled rt name cfg (some tunnel) =
    add_peer-enabled (crypto_map_config_peer rt cfg) _ ∙ get-put_self "enabled" _ _

module _ (rt : Runtime) (k name : String) (cfg : Fields) (merged : Dict Fields) where
  inserted-IsMergedWith :
      (b : Bool)
      → IsMergedWith
          (if b then some cfg else none)
          (lookup k merged)
          (if b then some (configured rt name cfg (lookup name merged)) else lookup k merged)
  inserted-IsMergedWith true = configured-enabled rt name cfg (lookup name merged)
  inserted-IsMergedWith false = refl

  entry-IsMergedWith :
      (o after : Option Fields)
      → IsMergedWith o
          (lookup k (insert name (configured rt name cfg (lookup name merged)) merged))
          after
      → IsMergedWith (later_or o (if name == k then some cfg else none)) (lookup k merged) after
  entry-IsMergedWith (some c) none h = absurd h
  entry-IsMergedWith (some c) (some tunnel) h = h
  entry-IsMergedWith none after h =
      subst (λ x. IsMergedWith (if name == k then some cfg else none) (lookup k merged) x)
        (sym (h ∙ lookup-insert name k (configured rt name cfg (lookup name merged)) merged))
        (inserted-IsMergedWith (name == k))

merge_config-IsMergedWith :
    (rt : Runtime) (k : String) (config : Fields) (merged : Dict Fields)
    → IsMergedWith
        (configuration k config)
        (lookup k merged)
        (lookup k (merge_config rt config merged))
unfolding merge_config
merge_config-IsMergedWith rt k end merged = refl
merge_config-IsMergedWith rt k (field name (dict cfg) rest) merged =
    entry-IsMergedWith rt k name cfg merged (configuration k rest) _ (
      merge_config-IsMergedWith rt k rest
        (insert name (configured rt name cfg (lookup name merged)) merged))
merge_config-IsMergedWith rt k (field name _ rest) merged =
    merge_config-IsMergedWith rt k rest merged

-- Every configured tunnel is in the result, whether the status dump has it or not, with the switch that its
-- configuration gives; every other tunnel is as the dump has it.
pub merge_crypto_map_config-IsMergedWith :
    (rt : Runtime) (status : Dict Fields) (config : Fields) (k : String)
    → IsMergedWith
        (configuration k config)
        (lookup k status)
        (lookup k (merge_crypto_map_config rt status (dict config)))
unfolding merge_crypto_map_config
merge_crypto_map_config-IsMergedWith rt status config k =
    merge_config-IsMergedWith rt k config status
