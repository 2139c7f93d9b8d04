-- ===== src/Domains/Mesh/Identity.antt =====
-- api/domains/mesh.py: the ids of the mesh nodes.
use keenetic_router_pro.Prelude.{
  String, List, [], ◌∷◌, true, false, Option, some, none, Bool, ◌≡◌, refl, All, ◌⊎◌, inl, inr,
  Bool-cases, ◌∙◌,
}
use keenetic_router_pro.Value.{Value, Fields, get, truthy, Runtime}
use keenetic_router_pro.Transport.Http.{Site, Result, ok, err}
use keenetic_router_pro.Domains.{Device, on_client, Error}
use keenetic_router_pro.Domains.Clients.{
  take_items, skip_path, settle_fetch, try_paths, get_clients, ordered_paths,
}
use keenetic_router_pro.Transport.Http.{other_error, auth_error, api_error}
use keenetic_router_pro.Domains.Mesh.{
  get_mesh_nodes, member_nodes, member_node, list_members, settle_members, ask_members,
  mesh_fallback, is_endpoint_missing, is_false, fallback_nodes, nodes_or_empty, mem,
  nested_dict_items, rci_get,
}

-- The id is the controller's.
abbrev IsMember : Fields → Type 0
IsMember n = (truthy (get "cid" n) ≡ true) × (get "id" n ≡ get "cid" n)

-- The nodes have the controller's ids, or the router has no list of members.
abbrev pub AreMembers : Result (List Fields) × Device → Type 0
AreMembers (ok nodes, d) = All IsMember nodes ⊎ (d.latches.mws_member_supported ≡ some false)
AreMembers (err e, d) = Unit {0}

member_nodes-AreMembers :
    (rt : Runtime) (members : List Fields) → All IsMember (member_nodes rt members)
unfolding member_nodes member_node get
member_nodes-AreMembers rt [] = tt
member_nodes-AreMembers rt (m ∷ ms) = elim (Bool-cases (truthy (get "cid" m))) [
  | inl t ↦ rw t ((t, refl), member_nodes-AreMembers rt ms)
  | inr f ↦ rw f (member_nodes-AreMembers rt ms)
]

list_members-AreMembers :
    (fallback : List Fields) (d : Device) (nodes : List Fields)
    → d.mws_members_seen ≡ true
    → All IsMember nodes
    → AreMembers (list_members fallback d nodes)
unfolding list_members mesh_fallback
list_members-AreMembers fallback d [] seen h = rw seen tt
list_members-AreMembers fallback d (n ∷ ns) seen h = inl h

settle_members-AreMembers :
    (rt : Runtime) (fallback : List Fields) (out : Result Value × Device)
    → out.1.mws_members_seen ≡ true
    → AreMembers (settle_members rt fallback out)
unfolding settle_members
settle_members-AreMembers rt fallback (ok v, d) seen =
    list_members-AreMembers fallback _ _ seen (member_nodes-AreMembers rt _)
settle_members-AreMembers rt fallback (err e, d) seen = elim (Bool-cases (is_endpoint_missing e)) [
  | inl t ↦ rw t (inr refl)
  | inr f ↦ rw f tt
]

is_false-some : (o : Option Bool) → is_false o ≡ true → o ≡ some false
is_false-some (some false) h = refl
is_false-some (some true) h = cc
is_false-some none h = cc

ask_members-AreMembers :
    (site : Site) (out : List Fields × Device)
    → out.1.mws_members_seen ≡ true
    → AreMembers (ask_members site out)
unfolding ask_members
ask_members-AreMembers site ([], d) seen = inl tt
ask_members-AreMembers site (n ∷ ns, d) seen =
    elim (Bool-cases (is_false d.latches.mws_member_supported)) [
      | inl t ↦ rw t (inr (is_false-some d.latches.mws_member_supported t))
      | inr f ↦ rw f (settle_members-AreMembers site.runtime (n ∷ ns) _ seen)
    ]

-- Listing the clients does not touch what was seen of the mesh.
abbrev KeepSeen : (Option Error → Bool → Device → Result (List Fields) × Device) → Type 0
KeepSeen go =
    (last : Option Error) (success : Bool) (d : Device)
    → (go last success d).1.mws_members_seen ≡ d.mws_members_seen

settle_fetch-KeepSeen :
    (p : String) (go : Option Error → Bool → Device → Result (List Fields) × Device)
    → KeepSeen go
    → (last : Option Error) (success : Bool) (out : Result Value × Device)
    → (settle_fetch p go last success out).1.mws_members_seen ≡ out.1.mws_members_seen
unfolding settle_fetch
settle_fetch-KeepSeen p go h last success (ok v, d) =
    elim (nested_dict_items v ("hosts" ∷ "host" ∷ "items" ∷ []))
      as (λ found. (take_items p go last d found).1.mws_members_seen ≡ d.mws_members_seen) [
        | [] ↦ h last true d
        | x ∷ xs ↦ refl
      ]
settle_fetch-KeepSeen p go h last success (err (other_error m), d) = refl
settle_fetch-KeepSeen p go h last success (err (auth_error m), d) =
    elim (Bool-cases (is_endpoint_missing (auth_error m))) [
      | inl e ↦ rw e (h last success (skip_path p d))
      | inr e ↦ rw e (h (some (auth_error m)) success d)
    ]
settle_fetch-KeepSeen p go h last success (err (api_error m s), d) =
    elim (Bool-cases (is_endpoint_missing (api_error m s))) [
      | inl e ↦ rw e (h last success (skip_path p d))
      | inr e ↦ rw e (h (some (api_error m s)) success d)
    ]

try_paths-KeepSeen : (site : Site) (ps : List String) → KeepSeen (try_paths site ps)
unfolding try_paths
try_paths-KeepSeen site [] none success d = refl
try_paths-KeepSeen site [] (some e) true d = refl
try_paths-KeepSeen site [] (some e) false d = refl
try_paths-KeepSeen site (p ∷ ps) last success d =
    elim (Bool-cases (mem p d.latches.hotspot_subpath_skip)) [
      | inl e ↦ rw e (try_paths-KeepSeen site ps last success d)
      | inr e ↦ rw e (
          settle_fetch-KeepSeen p (try_paths site ps) (try_paths-KeepSeen site ps) last success
            (on_client (rci_get site p none) d))
    ]

nodes_or_empty-seen :
    (rt : Runtime) (out : Result (List Fields) × Device)
    → (nodes_or_empty rt out).1.mws_members_seen ≡ out.1.mws_members_seen
nodes_or_empty-seen rt (ok clients, d) = refl
nodes_or_empty-seen rt (err e, d) = refl

pub fallback_nodes-seen :
    (site : Site) (clients : Option (List Fields)) (d : Device)
    → (fallback_nodes site clients d).1.mws_members_seen ≡ d.mws_members_seen
unfolding fallback_nodes get_clients
fallback_nodes-seen site none d =
    nodes_or_empty-seen site.runtime (get_clients site d)
    ∙ try_paths-KeepSeen site (ordered_paths d.latches) none false d
fallback_nodes-seen site (some clients) d = refl

pub seen_members :
    (site : Site) (clients : Option (List Fields)) (d : Device)
    → d.mws_members_seen ≡ true
    → AreMembers (get_mesh_nodes site clients d)
unfolding get_mesh_nodes
seen_members site clients d seen =
    ask_members-AreMembers site (fallback_nodes site clients d)
      (fallback_nodes-seen site clients d ∙ seen)
