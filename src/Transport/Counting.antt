-- ===== src/Transport/Counting.antt =====
-- api/transport.py: how many requests one call sends.
use keenetic_router_pro.Prelude.{
  true, false, String, ℕ, Bool, Option, arith, length, ◌∷◌, true, some, ◌≤◌, none, ◌+◌, ◌≡◌,
  Bool-cases, inl, inr,
}
use keenetic_router_pro.Transport.Http.{
  Site, Result, Client, ok, err, auth_error, api_error, other_error, Body, Response, Reply,
  response, no_response, read, unreadable,
}
use keenetic_router_pro.Transport.Auth.{
  authenticate, authenticate_challenge, authenticate_configured, answer_challenge, ensure_auth,
  after_first, after_second, flip, settle_basic, settle_challenge, basic_verdict, cookie_of_post,
  challenge_of, challenge_request, basic_request, post_request, Challenge, after_challenge,
}
use keenetic_router_pro.Transport.Session.{authenticate_configured-IsLeg}
use keenetic_router_pro.Transport.Calls.{
  finish, after_drain, signed_out, request, handle_response, after_reply, Call, first_attempt,
  second_attempt, request_of,
}

-- At most `n` requests more than before.
abbrev pub SendsAtMost {ℓ} : {A : Type ℓ} → ℕ → Client → Result A × Client → Type 0
SendsAtMost n c out = length out.1.sent ≤ length c.sent + n

module _ (site : Site) where
  settle_basic-count :
      (r : Result (Unit {0})) (c : Client) → SendsAtMost 0 c (settle_basic site r c)
  unfolding settle_basic
  settle_basic-count (ok u) c = ground arith
  settle_basic-count (err e) c = ground arith

  settle_challenge-count :
      (r : Result (Option String)) (c : Client) → SendsAtMost 0 c (settle_challenge r c)
  unfolding settle_challenge
  settle_challenge-count (ok none) c = ground arith
  settle_challenge-count (ok (some cookie)) c = ground arith
  settle_challenge-count (err e) c = ground arith

  authenticate-count : (c : Client) → SendsAtMost 1 c (authenticate site c)
  unfolding authenticate
  authenticate-count c = ground (
    arith,
    settle_basic-count (basic_verdict site (site.answer c.sent (basic_request site)))
        (record c { sent = basic_request site ∷ c.sent }),
  )

  answer_challenge-count :
      (ch : Challenge) (c : Client) → SendsAtMost 1 c (answer_challenge site ch c)
  unfolding answer_challenge
  answer_challenge-count ch c = ground (
    arith,
    settle_challenge-count
        (cookie_of_post site ch.cookie (site.answer c.sent (post_request site ch)))
        (record c { sent = post_request site ch ∷ c.sent }),
  )

  after_challenge-count :
      (r : Result Challenge) (c : Client) → SendsAtMost 1 c (after_challenge site r c)
  unfolding after_challenge
  after_challenge-count (ok ch) c = answer_challenge-count ch c
  after_challenge-count (err e) c = ground arith

  authenticate_challenge-count : (c : Client) → SendsAtMost 2 c (authenticate_challenge site c)
  unfolding authenticate_challenge
  authenticate_challenge-count c = ground (
    arith,
    after_challenge-count (challenge_of site (site.answer c.sent (challenge_request site)))
        (record c { sent = challenge_request site ∷ c.sent }),
  )

  -- A scheme sends one request, or two if it is the challenge.
  abbrev cost : Bool → ℕ
  cost true = 2
  cost false = 1

  authenticate_configured-count :
      (c : Client) → SendsAtMost (cost c.use_challenge_auth) c (authenticate_configured site c)
  unfolding authenticate_configured
  authenticate_configured-count c =
      ground (arith, authenticate-count c, authenticate_challenge-count c)

  after_second-count :
      (n : ℕ) (c : Client) (out : Result (Unit {0}) × Client)
      → SendsAtMost n c out
      → SendsAtMost n c (after_second out)
  unfolding after_second
  after_second-count n c (ok u, c') h = h
  after_second-count n c (err (auth_error m), c') h = h
  after_second-count n c (err (api_error m s), c') h = h
  after_second-count n c (err (other_error m), c') h = h

  after_first-count :
      (scheme : Bool) (c : Client) (out : Result (Unit {0}) × Client)
      → SendsAtMost (cost scheme) c out
      → out.1.use_challenge_auth ≡ scheme
      → SendsAtMost 3 c (after_first site out)
  unfolding after_first
  after_first-count scheme c (ok u, c') h e = ground arith
  after_first-count scheme c (err (auth_error m), c') h e =
      after_second-count 3 c (authenticate_configured site (flip c'))
        (ground (arith, authenticate_configured-count (flip c')))
  after_first-count scheme c (err (api_error m s), c') h e = ground arith
  after_first-count scheme c (err (other_error m), c') h e = ground arith

  ensure_auth-count : (c : Client) → SendsAtMost 3 c (ensure_auth site c)
  unfolding ensure_auth
  ensure_auth-count c = elim (Bool-cases c.authenticated) [
    | inl t ↦ ground arith
    | inr f ↦ ground (
      arith,
      after_first-count c.use_challenge_auth c (authenticate_configured site c)
          (authenticate_configured-count c) (authenticate_configured-IsLeg site c f).1,
    )
  ]

  handle_response-count :
      (path : String) (allow_text : Bool) (resp : Response) (c : Client)
      → SendsAtMost 0 c (handle_response site path allow_text resp c)
  unfolding handle_response
  handle_response-count path allow_text resp c = ground arith

  finish-count : (k : Call) (r : Reply) (c : Client) → SendsAtMost 0 c (finish site k (r, c))
  finish-count k (response resp) c = handle_response-count k.path k.allow_text resp c
  finish-count k (no_response fault) c = omega arith

  second_attempt-count :
      (k : Call) (out : Result (Unit {0}) × Client)
      → SendsAtMost 1 out.1 (second_attempt site k out)
  second_attempt-count k (ok u, c) = omega (
    arith,
    finish-count k (site.answer c.sent (request_of site k c))
        (record c { sent = request_of site k c ∷ c.sent }),
  )
  second_attempt-count k (err e, c) = omega arith

  after_drain-count :
      (k : Call) (b : Body (Unit {0})) (c : Client) → SendsAtMost 4 c (after_drain site k b c)
  after_drain-count k (read u) c = omega (
    arith,
    ensure_auth-count (signed_out c),
    second_attempt-count k (ensure_auth site (signed_out c)),
  )
  after_drain-count k (unreadable fault) c = omega arith

  after_reply-count :
      (k : Call) (r : Reply) (c : Client) → SendsAtMost 4 c (after_reply site k (r, c))
  unfolding after_reply
  after_reply-count k (response resp) c =
      ground (
        arith,
        after_drain-count k resp.drained c,
        handle_response-count k.path k.allow_text resp c,
      )
  after_reply-count k (no_response fault) c = omega arith

  first_attempt-count :
      (k : Call) (out : Result (Unit {0}) × Client) → SendsAtMost 5 out.1 (first_attempt site k out)
  first_attempt-count k (ok u, c) = omega (
    arith,
    after_reply-count k (site.answer c.sent (request_of site k c))
        (record c { sent = request_of site k c ∷ c.sent }),
  )
  first_attempt-count k (err e, c) = omega arith

  -- Whatever the router answers, one call sends at most eight requests: no reply makes the client retry
  -- or sign in without end.
  pub request-SendsAtMost_8 : (k : Call) (c : Client) → SendsAtMost 8 c (request site k c)
  unfolding request
  request-SendsAtMost_8 k c =
      ground (arith, ensure_auth-count c, first_attempt-count k (ensure_auth site c))
