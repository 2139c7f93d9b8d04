-- ===== src/Transport/Outage.antt =====
-- api/auth.py and api/transport.py: the errors of a call while the router is down.
use keenetic_router_pro.Prelude.{String, Option, arith, ◌≤◌, List, ◌≡◌, true, ◌∷◌, some, none, Bool}
use keenetic_router_pro.Transport.Calls.{
  request, handle_response, after_reply, Call, first_attempt, request_of,
}
use keenetic_router_pro.Transport.Http.{
  timed_out, client_error, unexpected, Site, Result, Client, Reply, err, auth_error, no_response,
  response, Request, ok, api_error, other_error, client_error, Response, unexpected,
}
use keenetic_router_pro.Transport.Auth.{
  authenticate, authenticate_challenge, authenticate_configured, answer_challenge, ensure_auth,
  after_first, basic_verdict, challenge_of, cookie_of_post, Challenge, after_challenge,
  challenge_request, basic_request, post_request, settle_basic, settle_challenge,
}

-- The router does not answer, or answers with a status that is a server error.
abbrev pub IsDown : Reply → Type 0
IsDown (no_response fault) = Unit {0}
IsDown (response resp) = 500 ≤ resp.status

-- Not the error that asks the user for the password again.
abbrev pub AsksNoPassword {ℓ} : {A : Type ℓ} → Result A → Type 0
AsksNoPassword (err (auth_error m)) = ⊥
AsksNoPassword _ = Unit {0}

module _ (site : Site) where
  basic_verdict-down : (r : Reply) → IsDown r → AsksNoPassword (basic_verdict site r)
  unfolding basic_verdict
  basic_verdict-down (no_response fault) h = ground arith
  basic_verdict-down (response resp) h = ground arith

  challenge_of-down : (r : Reply) → IsDown r → AsksNoPassword (challenge_of site r)
  unfolding challenge_of
  challenge_of-down (no_response fault) h = ground arith
  challenge_of-down (response resp) h = ground arith

  cookie_of_post-down :
      (o : Option String) (r : Reply) → IsDown r → AsksNoPassword (cookie_of_post site o r)
  unfolding cookie_of_post
  cookie_of_post-down o (no_response fault) h = ground arith
  cookie_of_post-down o (response resp) h = ground arith

  settle_basic-down :
      (r : Result (Unit {0})) (c : Client)
      → AsksNoPassword r
      → AsksNoPassword (settle_basic site r c).0
  unfolding settle_basic
  settle_basic-down (ok u) c h = tt
  settle_basic-down (err e) c h = h

  settle_challenge-down :
      (r : Result (Option String)) (c : Client)
      → AsksNoPassword r
      → AsksNoPassword (settle_challenge r c).0
  unfolding settle_challenge
  settle_challenge-down (ok none) c h = tt
  settle_challenge-down (ok (some cookie)) c h = tt
  settle_challenge-down (err e) c h = h

  module _ (down : (log : List Request) (r : Request) → IsDown (site.answer log r)) where
    authenticate-down : (c : Client) → c.has_session ≡ true → AsksNoPassword (authenticate site c).0
    unfolding authenticate
    authenticate-down c h = ground (
      arith,
      settle_basic-down (basic_verdict site (site.answer c.sent (basic_request site)))
          (record c { sent = basic_request site ∷ c.sent })
          (basic_verdict-down _ (down c.sent (basic_request site))),
    )

    answer_challenge-down :
        (ch : Challenge) (c : Client) → AsksNoPassword (answer_challenge site ch c).0
    unfolding answer_challenge
    answer_challenge-down ch c =
        settle_challenge-down (cookie_of_post site ch.cookie _)
          (record c { sent = post_request site ch ∷ c.sent })
          (cookie_of_post-down ch.cookie _ (down c.sent (post_request site ch)))

    after_challenge-down :
        (r : Result Challenge) (c : Client)
        → AsksNoPassword r
        → AsksNoPassword (after_challenge site r c).0
    unfolding after_challenge
    after_challenge-down (ok ch) c h = answer_challenge-down ch c
    after_challenge-down (err e) c h = h

    authenticate_challenge-down :
        (c : Client) → c.has_session ≡ true → AsksNoPassword (authenticate_challenge site c).0
    unfolding authenticate_challenge
    authenticate_challenge-down c h = ground (
      arith,
      after_challenge-down (challenge_of site (site.answer c.sent (challenge_request site)))
          (record c { sent = challenge_request site ∷ c.sent })
          (challenge_of-down _ (down c.sent (challenge_request site))),
    )

    authenticate_configured-down :
        (c : Client) → c.has_session ≡ true → AsksNoPassword (authenticate_configured site c).0
    unfolding authenticate_configured
    authenticate_configured-down c h =
        ground (arith, authenticate-down c h, authenticate_challenge-down c h)

    after_first-down :
        (out : Result (Unit {0}) × Client)
        → AsksNoPassword out.0
        → AsksNoPassword (after_first site out).0
    unfolding after_first
    after_first-down (ok u, c) h = tt
    after_first-down (err (auth_error m), c) h = absurd h
    after_first-down (err (api_error m s), c) h = tt
    after_first-down (err (other_error m), c) h = tt

    ensure_auth-down : (c : Client) → c.has_session ≡ true → AsksNoPassword (ensure_auth site c).0
    unfolding ensure_auth
    ensure_auth-down c h = ground (
      arith,
      after_first-down (authenticate_configured site c) (authenticate_configured-down c h),
    )

    handle_response-down :
        (path : String) (allow_text : Bool) (resp : Response) (c : Client)
        → 500 ≤ resp.status
        → AsksNoPassword (handle_response site path allow_text resp c).0
    unfolding handle_response
    handle_response-down path allow_text resp c h = ground arith

    after_reply-down :
        (k : Call) (r : Reply) (c : Client)
        → IsDown r
        → AsksNoPassword (after_reply site k (r, c)).0
    unfolding after_reply
    after_reply-down k (no_response timed_out) c h = tt
    after_reply-down k (no_response (client_error e)) c h = tt
    after_reply-down k (no_response (unexpected e)) c h = tt
    after_reply-down k (response resp) c h =
        ground (arith, handle_response-down k.path k.allow_text resp c h)

    first_attempt-down :
        (k : Call) (out : Result (Unit {0}) × Client)
        → AsksNoPassword out.0
        → AsksNoPassword (first_attempt site k out).0
    first_attempt-down k (ok u, c) h = after_reply-down k _ _ (down c.sent (request_of site k c))
    first_attempt-down k (err (auth_error m), c) h = absurd h
    first_attempt-down k (err (api_error m s), c) h = tt
    first_attempt-down k (err (other_error m), c) h = tt

    -- While the router is down, not answering or answering every request with a server error, no call
    -- ends in KeeneticAuthError, which asks the user for the password again.
    pub outage-AsksNoPassword :
        (k : Call) (c : Client) → c.has_session ≡ true → AsksNoPassword (request site k c).0
    unfolding request
    outage-AsksNoPassword k c h =
        ground (arith, first_attempt-down k (ensure_auth site c) (ensure_auth-down c h))
