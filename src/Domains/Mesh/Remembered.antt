-- ===== src/Domains/Mesh/Remembered.antt =====
-- api/domains/mesh.py: what the client remembers of the mesh.
use keenetic_router_pro.Prelude.{
  if◌then◌else◌, not, ◌||◌, ◌&&◌, subst, arith, List, [], ◌∷◌, true, false, Option, some, none,
  Bool, ◌≡◌, refl, All, inl, inr, Bool-cases, ◌∙◌,
}
use keenetic_router_pro.Value.{Value, Fields, get, truthy, Runtime}
use keenetic_router_pro.Transport.Http.{Site, Result, ok, err}
use keenetic_router_pro.Domains.{Device, on_client, Error}
use keenetic_router_pro.Domains.Clients.{get_clients}
use keenetic_router_pro.Transport.Http.{api_error}
use keenetic_router_pro.Domains.Clients.Stats.{is_extender, system_mode}
use keenetic_router_pro.Domains.Mesh.{
  client_nodes, client_node, latch_mws, get_mesh_nodes, list_members, settle_members, ask_members,
  mesh_fallback, is_endpoint_missing, is_false, fallback_nodes, nodes_or_empty, rci_get,
}
use keenetic_router_pro.Domains.Mesh.Identity.{AreMembers, seen_members, fallback_nodes-seen}

-- A node that was found among the clients has no id of the controller.
abbrev IsFound : Fields → Type 0
IsFound n = truthy (get "cid" n) ≡ false

client_nodes-AreFound :
    (rt : Runtime) (clients : List Fields) → All IsFound (client_nodes rt clients)
unfolding client_nodes client_node get truthy
client_nodes-AreFound rt [] = tt
client_nodes-AreFound rt (c ∷ cs) =
    elim (Bool-cases (is_extender (system_mode rt c) && truthy (get "mac" c))) [
      | inl t ↦ rw t (refl, client_nodes-AreFound rt cs)
      | inr f ↦ rw f (client_nodes-AreFound rt cs)
    ]

nodes_or_empty-AreFound :
    (rt : Runtime) (out : Result (List Fields) × Device) → All IsFound (nodes_or_empty rt out).0
nodes_or_empty-AreFound rt (ok clients, d) = client_nodes-AreFound rt clients
nodes_or_empty-AreFound rt (err e, d) = tt

fallback_nodes-AreFound :
    (site : Site) (clients : Option (List Fields)) (d : Device)
    → All IsFound (fallback_nodes site clients d).0
unfolding fallback_nodes
fallback_nodes-AreFound site none d = nodes_or_empty-AreFound site.runtime (get_clients site d)
fallback_nodes-AreFound site (some clients) d = client_nodes-AreFound site.runtime clients

-- A list by the controller's ids is remembered, and what was remembered stays.
abbrev lists_members : Result (List Fields) → Bool
lists_members (ok (n ∷ ns)) = truthy (get "cid" n)
lists_members out = false

abbrev Remembers : Bool → Result (List Fields) × Device → Type 0
Remembers before out = (not (before || lists_members out.0) || out.1.mws_members_seen) ≡ true

found_Remembers :
    (fallback : List Fields) (d : Device)
    → All IsFound fallback
    → Remembers d.mws_members_seen (ok fallback, d)
found_Remembers [] d h = ground arith
found_Remembers (n ∷ ns) d h = ground (arith, h.0)

error_Remembers : (e : Error) (d : Device) → Remembers d.mws_members_seen (err e, d)
error_Remembers e d = ground arith

if_Remembers :
    (b : Bool) (e : Error) (fallback : List Fields) (d : Device)
    → All IsFound fallback
    → Remembers d.mws_members_seen (if b then (err e, d) else (ok fallback, d))
if_Remembers true e fallback d h = error_Remembers e d
if_Remembers false e fallback d h = found_Remembers fallback d h

list_members-Remembers :
    (fallback : List Fields) (d : Device) (nodes : List Fields)
    → All IsFound fallback
    → Remembers d.mws_members_seen (list_members fallback d nodes)
unfolding list_members mesh_fallback
list_members-Remembers fallback d [] h =
    if_Remembers d.mws_members_seen (api_error "MWS controller returned no members" none) fallback d
      h
list_members-Remembers fallback d (n ∷ ns) h = ground arith

settle_members-Remembers :
    (rt : Runtime) (fallback : List Fields) (out : Result Value × Device)
    → All IsFound fallback
    → Remembers out.1.mws_members_seen (settle_members rt fallback out)
unfolding settle_members
settle_members-Remembers rt fallback (ok v, d) h =
    list_members-Remembers fallback (latch_mws true d) _ h
settle_members-Remembers rt fallback (err e, d) h = elim (Bool-cases (is_endpoint_missing e)) [
  | inl t ↦ rw t (found_Remembers fallback (latch_mws false d) h)
  | inr f ↦ rw f (error_Remembers e d)
]

ask_members-Remembers :
    (site : Site) (out : List Fields × Device)
    → All IsFound out.0
    → Remembers out.1.mws_members_seen (ask_members site out)
unfolding ask_members
ask_members-Remembers site ([], d) h = found_Remembers [] d tt
ask_members-Remembers site (n ∷ ns, d) h =
    elim (Bool-cases (is_false d.latches.mws_member_supported)) [
      | inl t ↦ rw t (found_Remembers (n ∷ ns) d h)
      | inr f ↦ rw f (
          settle_members-Remembers site.runtime (n ∷ ns)
            (on_client (rci_get site "show/mws/member" none) d) h)
    ]

get_mesh_nodes-Remembers :
    (site : Site) (clients : Option (List Fields)) (d : Device)
    → Remembers d.mws_members_seen (get_mesh_nodes site clients d)
unfolding get_mesh_nodes
get_mesh_nodes-Remembers site clients d =
    subst (λ b. Remembers b (ask_members site (fallback_nodes site clients d)))
      (fallback_nodes-seen site clients d)
      (ask_members-Remembers site (fallback_nodes site clients d)
        (fallback_nodes-AreFound site clients d))

-- The lists of the later ticks, one after the other.
abbrev pub later_nodes :
    Site → List (Option (List Fields)) → Device → List (Result (List Fields) × Device)
later_nodes site [] d = []
later_nodes site (clients ∷ later) d =
    get_mesh_nodes site clients d ∷ later_nodes site later (get_mesh_nodes site clients d).1

later_members :
    (site : Site) (later : List (Option (List Fields))) (d : Device)
    → d.mws_members_seen ≡ true
    → All AreMembers (later_nodes site later d)
later_members site [] d seen = tt
later_members site (clients ∷ later) d seen = (
  seen_members site clients d seen,
  later_members site later (get_mesh_nodes site clients d).1
      (ground (arith, get_mesh_nodes-Remembers site clients d)),
)

-- After a list of nodes by the controller's ids every later list has these ids, unless the router answers
-- that it has no such list: no glitch of the controller makes a node change its id. Between the lists the
-- client may be used in any way that leaves what it has seen of the mesh.
pub get_mesh_nodes-AreMembers :
    (site : Site) (clients : Option (List Fields)) (d d' d'' : Device) (n : Fields)
    (ns : List Fields) (later : List (Option (List Fields)))
    → get_mesh_nodes site clients d ≡ (ok (n ∷ ns), d')
    → truthy (get "cid" n) ≡ true
    → d''.mws_members_seen ≡ d'.mws_members_seen
    → All AreMembers (later_nodes site later d'')
get_mesh_nodes-AreMembers site clients d d' d'' n ns later listed own same =
    later_members site later d'' (
      same
      ∙ remembered own
          (subst (Remembers d.mws_members_seen) listed (get_mesh_nodes-Remembers site clients d)))
  where
    remembered :
        truthy (get "cid" n) ≡ true
        → Remembers d.mws_members_seen (ok (n ∷ ns), d')
        → d'.mws_members_seen ≡ true
    remembered t h = ground (arith, t, h)
