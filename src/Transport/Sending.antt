-- ===== src/Transport/Sending.antt =====
-- api/transport.py: which requests a call sends.
use keenetic_router_pro.Prelude.{
  true, false, String, Bool, Option, List, ◌∷◌, some, none, if◌then◌else◌, arith, subst, ◌≡◌, sym,
}
use keenetic_router_pro.Transport.Http.{
  Site, Result, Client, Request, ok, err, auth_error, api_error, other_error, Body, Response, Reply,
  response, no_response, read, unreadable,
}
use keenetic_router_pro.Transport.Auth.{
  authenticate, authenticate_challenge, authenticate_configured, answer_challenge, ensure_auth,
  after_first, after_second, flip, settle_basic, settle_challenge, basic_verdict, challenge_of,
  challenge_request, basic_request, post_request, Challenge, after_challenge,
}
use keenetic_router_pro.Refresh.{lookup_tick_cache}
use keenetic_router_pro.Value.{Value, null}
use keenetic_router_pro.Transport.Calls.{
  finish, after_drain, signed_out, request, handle_response, after_reply, Call, first_attempt,
  second_attempt, request_of, rci_get, get_call,
}

-- A log that grew by requests with a property.
pub data Grown (P : Request → Type 0) (old : List Request) : List Request → Type 0 where
  same : Grown P old old
  more : {r : Request} {new : List Request} → P r → Grown P old new → Grown P old (r ∷ new)

-- What a call sends has the property.
abbrev pub Sends {ℓ} : {A : Type ℓ} → (Request → Type 0) → Client → Result A × Client → Type 0
Sends P c out = Grown P c.sent out.1.sent

module _ {P : Request → Type 0} where
  pub Grown-trans : {a b c : List Request} → Grown P a b → Grown P b c → Grown P a c
  Grown-trans g same = g
  Grown-trans g (more p h) = more p (Grown-trans g h)

  pub if_Sends {ℓ} :
      {A : Type ℓ} (c : Client) (b : Bool) (x y : Result A × Client)
      → Sends P c x
      → Sends P c y
      → Sends P c (if b then x else y)
  if_Sends c true x y p q = p
  if_Sends c false x y p q = q

-- The requests of a handshake have the property, and so has the call's own.
module _ (site : Site) (P : Request → Type 0) (basic : P (basic_request site))
    (challenge : P (challenge_request site))
    (post : (ch : Challenge) → P (post_request site ch)) where
  settle_basic-Sends : (r : Result (Unit {0})) (c : Client) → Sends P c (settle_basic site r c)
  unfolding settle_basic
  settle_basic-Sends (ok u) c = same
  settle_basic-Sends (err e) c = same

  settle_challenge-Sends :
      (r : Result (Option String)) (c : Client) → Sends P c (settle_challenge r c)
  unfolding settle_challenge
  settle_challenge-Sends (ok none) c = same
  settle_challenge-Sends (ok (some cookie)) c = same
  settle_challenge-Sends (err e) c = same

  authenticate-Sends : (c : Client) → Sends P c (authenticate site c)
  unfolding authenticate
  authenticate-Sends c = if_Sends c _ _ _ same (
      Grown-trans (more basic same) (
        settle_basic-Sends (basic_verdict site (site.answer c.sent (basic_request site)))
          (record c { sent = basic_request site ∷ c.sent })))

  answer_challenge-Sends : (ch : Challenge) (c : Client) → Sends P c (answer_challenge site ch c)
  unfolding answer_challenge
  answer_challenge-Sends ch c = Grown-trans (more (post ch) same) (settle_challenge-Sends _ _)

  after_challenge-Sends : (r : Result Challenge) (c : Client) → Sends P c (after_challenge site r c)
  unfolding after_challenge
  after_challenge-Sends (ok ch) c = answer_challenge-Sends ch c
  after_challenge-Sends (err (auth_error m)) c = same
  after_challenge-Sends (err (api_error m s)) c = same
  after_challenge-Sends (err (other_error m)) c = same

  authenticate_challenge-Sends : (c : Client) → Sends P c (authenticate_challenge site c)
  unfolding authenticate_challenge
  authenticate_challenge-Sends c = if_Sends c _ _ _ same (
      Grown-trans (more challenge same) (
        after_challenge-Sends (challenge_of site (site.answer c.sent (challenge_request site)))
          (record c { sent = challenge_request site ∷ c.sent })))

  authenticate_configured-Sends : (c : Client) → Sends P c (authenticate_configured site c)
  unfolding authenticate_configured
  authenticate_configured-Sends c =
      if_Sends c _ _ _ (authenticate_challenge-Sends c) (authenticate-Sends c)

  after_second-Sends :
      (c : Client) (out : Result (Unit {0}) × Client) → Sends P c out → Sends P c (after_second out)
  unfolding after_second
  after_second-Sends c (ok u, c') h = h
  after_second-Sends c (err (auth_error m), c') h = h
  after_second-Sends c (err (api_error m s), c') h = h
  after_second-Sends c (err (other_error m), c') h = h

  after_first-Sends :
      (c : Client) (out : Result (Unit {0}) × Client)
      → Sends P c out
      → Sends P c (after_first site out)
  unfolding after_first
  after_first-Sends c (ok u, c') h = h
  after_first-Sends c (err (auth_error m), c') h =
      after_second-Sends c _ (Grown-trans h (authenticate_configured-Sends (flip c')))
  after_first-Sends c (err (api_error m s), c') h = h
  after_first-Sends c (err (other_error m), c') h = h

  ensure_auth-Sends : (c : Client) → Sends P c (ensure_auth site c)
  unfolding ensure_auth
  ensure_auth-Sends c =
      if_Sends c _ _ _ same (after_first-Sends c _ (authenticate_configured-Sends c))

  sent-handle_response :
      (path : String) (allow_text : Bool) (resp : Response) (c : Client)
      → (handle_response site path allow_text resp c).1.sent ≡ c.sent
  unfolding handle_response
  sent-handle_response path allow_text resp c = ground arith

  handle_response-Sends :
      (path : String) (allow_text : Bool) (resp : Response) (c : Client)
      → Sends P c (handle_response site path allow_text resp c)
  handle_response-Sends path allow_text resp c =
      subst (Grown P c.sent) (sym (sent-handle_response path allow_text resp c)) same

  finish-Sends : (k : Call) (r : Reply) (c : Client) → Sends P c (finish site k (r, c))
  finish-Sends k (response resp) c = handle_response-Sends k.path k.allow_text resp c
  finish-Sends k (no_response fault) c = same

  module _ (k : Call) (own : (c : Client) → P (request_of site k c)) where
    second_attempt-Sends :
        (out : Result (Unit {0}) × Client) → Sends P out.1 (second_attempt site k out)
    second_attempt-Sends (ok u, c) = Grown-trans (more (own c) same) (finish-Sends k _ _)
    second_attempt-Sends (err e, c) = same

    after_drain-Sends : (b : Body (Unit {0})) (c : Client) → Sends P c (after_drain site k b c)
    after_drain-Sends (read u) c =
        Grown-trans (ensure_auth-Sends (signed_out c)) (second_attempt-Sends _)
    after_drain-Sends (unreadable fault) c = same

    after_reply-Sends : (r : Reply) (c : Client) → Sends P c (after_reply site k (r, c))
    unfolding after_reply
    after_reply-Sends (response resp) c =
        if_Sends c _ _ _ (after_drain-Sends resp.drained c)
          (handle_response-Sends k.path k.allow_text resp c)
    after_reply-Sends (no_response fault) c = same

    first_attempt-Sends :
        (out : Result (Unit {0}) × Client) → Sends P out.1 (first_attempt site k out)
    first_attempt-Sends (ok u, c) = Grown-trans (more (own c) same) (after_reply-Sends _ _)
    first_attempt-Sends (err e, c) = same

    pub request-Sends : (c : Client) → Sends P c (request site k c)
    unfolding request
    request-Sends c =
        if_Sends c _ _ _ same
          (Grown-trans (ensure_auth-Sends c) (first_attempt-Sends (ensure_auth site c)))

  pub rci_get-Sends :
      (subpath : String)
      → ((c : Client) → P (request_of site (get_call subpath none) c))
      → (c : Client) → Sends P c (rci_get site subpath none c)
  unfolding rci_get
  rci_get-Sends subpath own c =
      elim (lookup_tick_cache c.tick_cache subpath)
        as (λ v.
          Sends {A = Value} P c
            (elim v [ null ↦ request site (get_call subpath none) c | v ↦ (ok v, c) ])) [
              | null ↦ request-Sends (get_call subpath none) own c
              | _ ↦ same
            ]
