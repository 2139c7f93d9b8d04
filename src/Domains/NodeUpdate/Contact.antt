-- ===== src/Domains/NodeUpdate/Contact.antt =====
-- api/domains/system.py: what the session with a mesh node sends, and where.
use keenetic_router_pro.Prelude.{
  String, List, [], ◌∷◌, true, false, Option, some, none, Bool, ℕ, ◌≡◌, refl, ◌⊎◌, inr,
  if◌then◌else◌, ◌==◌, ◌||◌,
}
use keenetic_router_pro.Value.{Value, null, dict, str, int, float}
use keenetic_router_pro.Text.{◌<>◌}
use keenetic_router_pro.Transport.Http.{
  Site, Request, Result, Response, Reply, response, no_response, Fault, timed_out, client_error,
  unexpected, Body, read, unreadable,
}
use keenetic_router_pro.Transport.Sending.{Grown, same, more, Grown-trans}
use keenetic_router_pro.Domains.{Device, Dict, eqb, list, not}
use keenetic_router_pro.Transport.Header.{cookie_header_from_response}
use keenetic_router_pro.Transport.Auth.{Challenge, or_cookie, cookie_headers}
use keenetic_router_pro.Domains.NodeUpdate.Session.{
  forget_node, remember_node, authenticate_to_node, login, Setup, node_base, settle_post,
  remember_node, settle_challenge_get, get_request, open_or_cached, after_drain, post_request,
  open_session, answer_node, send_node,
}
use keenetic_router_pro.Domains.NodeUpdate.{
  Move, started, next_port, older, raised_error, try_port, with_session, authenticate_to_node, Move,
  settle_commit, try_ports, failed, or_older, move_on, forget_node, stage_node, settle_version,
  settle_stage, settle_older, after_text, stage_read, ndw_components, raised_error, confirm, older,
  install_payload, bool, other_error, manual, node_get, node_post,
}

abbrev pub IsAt : String → Request → Type 0
IsAt base r = (path : String) × (r.url ≡ base <> path)

-- A request to the router, or to the checked address of the node.
abbrev pub IsTarget : Site → Setup → Option String → Request → Type 0
IsTarget site setup none r = IsAt site.base r
IsTarget site setup (some ip) r =
    IsAt site.base r ⊎ ((port : ℕ) × IsAt (node_base site setup ip port) r)

abbrev pub Reaches {ℓ} : {A : Type ℓ} → (Request → Type 0) → Device → A × Device → Type 0
Reaches P d out = Grown P d.client.sent out.1.client.sent

module _ {P : Request → Type 0} where
  pub if_Reaches {ℓ} :
      {A : Type ℓ} (d : Device) (b : Bool) (x y : A × Device)
      → Reaches P d x
      → Reaches P d y
      → Reaches P d (if b then x else y)
  if_Reaches d true x y p q = p
  if_Reaches d false x y p q = q

  failed-Reaches : (fault : Fault) (d : Device) → Reaches P d (failed fault d)
  failed-Reaches timed_out d = same
  failed-Reaches (client_error s) d = same
  failed-Reaches (unexpected s) d = same

  after_text-Reaches :
      (move : Move) (text : Body String) (d : Device) → Reaches P d (after_text move text d)
  after_text-Reaches move (read s) d = same
  after_text-Reaches move (unreadable fault) d = failed-Reaches fault d

-- A session with the node at one address.
module _ (site : Site) (setup : Setup) (ip : String) where
  abbrev Here : Request → Type 0
  Here = IsTarget site setup (some ip)

  module _ (port : ℕ) where
    -- A request to the node, then the rest.
    after-Reaches {ℓ} :
        {A : Type ℓ} (path : String) (r : Request) (f : Reply × Device → A × Device) (d : Device)
        → r.url ≡ node_base site setup ip port <> path
        → ((reply : Reply) (d : Device) → Reaches Here d (f (reply, d)))
        → Reaches Here d (f (send_node site r d))
    after-Reaches path r f d e h = Grown-trans (more (inr (port, (path, e))) same) (h _ _)

    drained-Reaches :
        (cookie : Option String) (resp : Response) (b : Body (Unit {0})) (d : Device)
        → Reaches Here d (after_drain ip port cookie resp b d)
    unfolding remember_node
    drained-Reaches cookie resp (unreadable fault) d = same
    drained-Reaches cookie resp (read u) d =
        if_Reaches d (eqb resp.status 200 || eqb resp.status 204)
          (open_session ip port (or_cookie (cookie_header_from_response resp) cookie) d) (none, d)
          same same

    settle_post-Reaches :
        (cookie : Option String) (reply : Reply) (d : Device)
        → Reaches Here d (settle_post ip port cookie (reply, d))
    unfolding settle_post
    settle_post-Reaches cookie (no_response fault) d = same
    settle_post-Reaches cookie (response resp) d = drained-Reaches cookie resp resp.drained d

    answer_node-Reaches :
        (ch : Challenge) (d : Device)
        → Reaches Here d (answer_node site (node_base site setup ip port) ip port ch d)
    answer_node-Reaches ch d =
        after-Reaches "/auth"
          (post_request (node_base site setup ip port) "/auth" (login site ch)
            (cookie_headers ch.cookie))
          (settle_post ip port ch.cookie) d refl (settle_post-Reaches ch.cookie)

    settle_challenge_get-Reaches :
        (reply : Reply) (d : Device)
        → Reaches Here d
            (settle_challenge_get site (node_base site setup ip port) ip port (reply, d))
    unfolding settle_challenge_get
    settle_challenge_get-Reaches (no_response fault) d = same
    settle_challenge_get-Reaches (response resp) d =
        if_Reaches d _ (none, d) _ same (answer_node-Reaches _ d)

    open_or_cached-Reaches :
        (headers : Dict String) (d : Device)
        → Reaches Here d (open_or_cached site (node_base site setup ip port) ip port headers d)
    open_or_cached-Reaches [] d =
        after-Reaches "/auth" (get_request (node_base site setup ip port) "/auth" [])
          (settle_challenge_get site (node_base site setup ip port) ip port) d refl
          settle_challenge_get-Reaches
    open_or_cached-Reaches (h ∷ hs) d = same

    authenticate_to_node-Reaches :
        (d : Device) → Reaches Here d (authenticate_to_node site setup ip port d)
    unfolding authenticate_to_node
    authenticate_to_node-Reaches d = open_or_cached-Reaches _ d

    settle_commit-Reaches :
        (reply : Reply) (d : Device) → Reaches Here d (settle_commit ip port (reply, d))
    unfolding settle_commit forget_node
    settle_commit-Reaches (no_response fault) d = failed-Reaches fault d
    settle_commit-Reaches (response resp) d =
        if_Reaches d (eqb resp.status 200 || eqb resp.status 204) (started, d) _ same
          (if_Reaches d (eqb resp.status 401) (next_port, forget_node ip port d)
            (after_text older resp.text d) same (after_text-Reaches older resp.text d))

    module _ (headers : Dict String) where
      settle_stage-Reaches :
          (reply : Reply) (d : Device)
          → Reaches Here d (settle_stage site setup headers ip port (reply, d))
      unfolding settle_stage forget_node
      settle_stage-Reaches (no_response fault) d = failed-Reaches fault d
      settle_stage-Reaches (response resp) d =
          if_Reaches d (eqb resp.status 401) (next_port, forget_node ip port d)
            (if not (eqb resp.status 200 || eqb resp.status 204)
              then after_text next_port resp.text d
              else settle_commit ip port (
                  node_post site (node_base site setup ip port) "/rci/components/commit" manual
                    headers d))
            same
            (if_Reaches d (not (eqb resp.status 200 || eqb resp.status 204))
              (after_text next_port resp.text d)
              (settle_commit ip port (
                node_post site (node_base site setup ip port) "/rci/components/commit" manual
                  headers d))
              (after_text-Reaches next_port resp.text d)
              (after-Reaches "/rci/components/commit"
                (post_request (node_base site setup ip port) "/rci/components/commit" manual
                  headers)
                (settle_commit ip port) d refl settle_commit-Reaches))

      misread-Reaches :
          (b : Bool) (d : Device)
          → Reaches Here d
              (if b then (raised_error (other_error "AttributeError"), d) else (older, d))
      misread-Reaches b d =
          if_Reaches d b (raised_error (other_error "AttributeError"), d) (older, d) same same

      stage_node-Reaches :
          (v : Value) (d : Device) → Reaches Here d (stage_node site setup headers ip port v d)
      stage_node-Reaches (str components) d =
          if_Reaches d (components == "") (older, d)
            (settle_stage site setup headers ip port (
              node_post site (node_base site setup ip port) "/rci/" (install_payload components)
                headers d))
            same
            (after-Reaches "/rci/"
              (post_request (node_base site setup ip port) "/rci/" (install_payload components)
                headers)
              (settle_stage site setup headers ip port) d refl settle_stage-Reaches)
      stage_node-Reaches null d = misread-Reaches _ d
      stage_node-Reaches (bool b) d = misread-Reaches _ d
      stage_node-Reaches (int z) d = misread-Reaches _ d
      stage_node-Reaches (float x) d = misread-Reaches _ d
      stage_node-Reaches (list xs) d = misread-Reaches _ d
      stage_node-Reaches (dict fs) d = misread-Reaches _ d

      stage_read-Reaches :
          (b : Body Value) (d : Device) → Reaches Here d (stage_read site setup headers ip port b d)
      stage_read-Reaches (read v) d = stage_node-Reaches (ndw_components v) d
      stage_read-Reaches (unreadable fault) d = failed-Reaches fault d

      settle_version-Reaches :
          (reply : Reply) (d : Device)
          → Reaches Here d (settle_version site setup headers ip port (reply, d))
      unfolding settle_version forget_node
      settle_version-Reaches (no_response fault) d = failed-Reaches fault d
      settle_version-Reaches (response resp) d =
          if_Reaches d (eqb resp.status 200) (stage_read site setup headers ip port resp.json d) _
            (stage_read-Reaches resp.json d)
            (if_Reaches d (eqb resp.status 401) (next_port, forget_node ip port d) (older, d) same
              same)

      settle_older-Reaches :
          (reply : Reply) (d : Device) → Reaches Here d (settle_older ip port (reply, d))
      unfolding settle_older forget_node
      settle_older-Reaches (no_response fault) d = same
      settle_older-Reaches (response resp) d =
          if_Reaches d (eqb resp.status 200 || eqb resp.status 204) (started, d) _ same
            (if_Reaches d (eqb resp.status 401) (next_port, forget_node ip port d) (next_port, d)
              same same)

      or_older-Reaches :
          (d : Device) (out : Move × Device)
          → Reaches Here d out
          → Reaches Here d (or_older site setup headers ip port out)
      unfolding or_older
      or_older-Reaches d (older, d') h = Grown-trans h (
          after-Reaches "/rci/system/update"
            (post_request (node_base site setup ip port) "/rci/system/update" confirm headers)
            (settle_older ip port) d' refl settle_older-Reaches)
      or_older-Reaches d (started, d') h = h
      or_older-Reaches d (next_port, d') h = h
      or_older-Reaches d (raised_error e, d') h = h

    with_session-Reaches :
        (d : Device) (out : Option (Dict String) × Device)
        → Reaches Here d out
        → Reaches Here d (with_session site setup ip port out)
    unfolding with_session
    with_session-Reaches d (none, d') h = h
    with_session-Reaches d (some [], d') h = h
    with_session-Reaches d (some (x ∷ xs), d') h = Grown-trans h (
        or_older-Reaches (x ∷ xs) d'
          (settle_version site setup (x ∷ xs) ip port
            (node_get site (node_base site setup ip port) "/rci/show/version" (x ∷ xs) d'))
          (after-Reaches "/rci/show/version"
            (get_request (node_base site setup ip port) "/rci/show/version" (x ∷ xs))
            (settle_version site setup (x ∷ xs) ip port) d' refl (settle_version-Reaches (x ∷ xs))))

    try_port-Reaches : (d : Device) → Reaches Here d (try_port site setup ip port d)
    unfolding try_port
    try_port-Reaches d = with_session-Reaches d _ (authenticate_to_node-Reaches d)

  move_on-Reaches :
      (go : Device → Result Bool × Device) (d : Device) (out : Move × Device)
      → ((d : Device) → Reaches Here d (go d))
      → Reaches Here d out
      → Reaches Here d (move_on go out)
  move_on-Reaches go d (started, d') g h = h
  move_on-Reaches go d (raised_error e, d') g h = h
  move_on-Reaches go d (next_port, d') g h = Grown-trans h (g d')
  move_on-Reaches go d (older, d') g h = Grown-trans h (g d')

  pub try_ports-Reaches :
      (label : String) (ports : List ℕ) (d : Device)
      → Reaches Here d (try_ports site setup label ip ports d)
  unfolding try_ports
  try_ports-Reaches label [] d = same
  try_ports-Reaches label (port ∷ ports) d =
      move_on-Reaches (try_ports site setup label ip ports) d (try_port site setup ip port d)
        (try_ports-Reaches label ports) (try_port-Reaches port d)
