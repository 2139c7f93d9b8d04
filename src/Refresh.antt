-- ===== src/Refresh.antt =====
-- coordinator_parts/refresh.py: the cadence of a tick and the composite request of its start, and the
-- tick cache of api/transport.py that answers from it.
pub mod Cadence
pub mod Tree
pub mod Batch
use keenetic_router_pro.Prelude.{
  ℕ, ◌%◌, String, Bool, true, false, not, ◌&&◌, ◌||◌, Option, none, some, List, [], ◌∷◌, ◌++◌, mem,
  eqb, if◌then◌else◌,
}
use keenetic_router_pro.Text.{split, strip_slashes}
use keenetic_router_pro.Value.{Value, null, dict, Fields, end, get, has, put}

pub record RefreshPlan : Type 0 where
  pub first_refresh : Bool
  pub medium_refresh : Bool
  pub slow_refresh : Bool
  pub very_slow_refresh : Bool
  pub ipsec_status_refresh : Bool
  pub update_check_refresh : Bool

abbrev pub update_check_every : ℕ
update_check_every = 1440

-- `refresh_plan(first_refresh=..., refresh_count=...)`.
unfoldable pub refresh_plan : Bool → ℕ → RefreshPlan
refresh_plan first_refresh refresh_count =
    let slow = first_refresh || eqb (refresh_count % 3) 0 in
    record {
      first_refresh = first_refresh;
      medium_refresh = first_refresh || eqb (refresh_count % 2) 0;
      slow_refresh = slow;
      very_slow_refresh = first_refresh || eqb (refresh_count % 15) 0;
      ipsec_status_refresh = slow;
      update_check_refresh = first_refresh || eqb (refresh_count % update_check_every) 0;
    }

-- The capability latches of the client: unknown, or whether the endpoint answers. That of the composite
-- request stands in the session part.
pub record Latches : Type 0 where
  pub mws_member_supported : Option Bool
  pub crypto_map_supported : Option Bool
  pub dns_proxy_supported : Option Bool
  pub ping_check_supported : Option Bool
  pub ndns_supported : Option Bool
  pub ipsec_diagnostics_supported : Option Bool
  pub hotspot_subpath_skip : List String
  pub hotspot_subpath_winner : Option String
  pub iface_stat_get_only : Option Bool

-- `x is False`.
abbrev pub is_false : Option Bool → Bool
is_false (some false) = true
is_false _ = false

-- `x is True`.
abbrev pub is_true : Option Bool → Bool
is_true (some true) = true
is_true _ = false

-- `path` where the test holds, as an element of a set.
abbrev only_if : Bool → String → List String
only_if true path = path ∷ []
only_if false path = []

-- `unsupported_batch_paths(client)`.
unfoldable pub unsupported_batch_paths : Latches → List String
unsupported_batch_paths c =
    only_if (is_false c.ping_check_supported) "show/ping-check"
    ++ (only_if (is_false c.crypto_map_supported) "show/ipsec"
        ++ (only_if (is_false c.ndns_supported) "show/ndns"
            ++ (only_if (is_false c.dns_proxy_supported) "show/dns-proxy"
                ++ only_if (mem "show/ip/hotspot/host" c.hotspot_subpath_skip) "show/ip/hotspot")))

-- `node.setdefault(key, {})` followed by the content of the node.
abbrev pub content : Value → Fields
content (dict fs) = fs
content _ = end

unfoldable pub child : String → Fields → Fields
child key node = content (get key node)

-- `node.setdefault(key, {})`.
unfoldable pub set_default : String → Fields → Fields
set_default key node = if has key node then node else put key (dict end) node

-- The body of `add` in `build_batch_tree`, on the segments of the path.
unfoldable pub add_segments : List String → Fields → Fields
add_segments [] tree = tree
add_segments (seg ∷ []) tree = set_default seg tree
add_segments (seg ∷ next ∷ rest) tree =
    put seg (dict (add_segments (next ∷ rest) (child seg tree))) tree

-- `add(path)`: a path that the router refused before is left out.
unfoldable pub add : List String → String → Fields → Fields
unfolding add_segments set_default child
add unsupported path tree =
    if mem path unsupported then tree else add_segments (split b'/' path) tree

-- `build_batch_tree(plan, needs_clients=..., unsupported=..., include_mesh=...)`. `add_if` is an `add`
-- under an `if`.
abbrev add_if : Bool → List String → String → Fields → Fields
add_if test unsupported path tree = if test then add unsupported path tree else tree

unfoldable pub build_batch_tree : RefreshPlan → Bool → List String → Bool → Fields
build_batch_tree plan needs_clients unsupported include_mesh =
    let t = add unsupported "show/system" end in
    let t = add unsupported "show/interface" t in
    let t = add unsupported "show/ip/neighbour" t in
    let t = add_if needs_clients unsupported "show/ip/hotspot" t in
    let t = add unsupported "show/ping-check" t in
    let t = add_if plan.ipsec_status_refresh unsupported "show/ipsec" t in
    let t = add_if (plan.slow_refresh && include_mesh) unsupported "show/mws/member" t in
    let t = add_if plan.very_slow_refresh unsupported "show/version" t in
    let t = add_if plan.very_slow_refresh unsupported "show/ndns" t in
    let t = add_if plan.very_slow_refresh unsupported "show/dns-proxy" t in
    add_if plan.update_check_refresh unsupported "components/check-update" t

-- `_lookup_tick_cache(subpath)`, on the segments: the node below the cache, None where a segment is
-- missing or a node is no dict.
unfoldable pub walk : Value → List String → Value
walk node [] = node
walk node (seg ∷ segs) = elim node [
  | dict fs ↦ if has seg fs then walk (get seg fs) segs else null
  | _ ↦ null
]

unfoldable pub lookup_tick_cache : Option Fields → String → Value
unfolding walk
lookup_tick_cache none subpath = null
lookup_tick_cache (some cache) subpath = walk (dict cache) (split b'/' (strip_slashes subpath))
