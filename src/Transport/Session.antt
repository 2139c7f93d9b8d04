-- ===== src/Transport/Session.antt =====
-- api/auth.py: the client after an authentication.
use keenetic_router_pro.Prelude.{
  String, Bool, ◌≡◌, false, true, arith, is_some, not, refl, ◌∷◌, Option, some, none,
}
use keenetic_router_pro.Transport.Http.{
  Site, Result, Client, ok, err, auth_error, api_error, other_error,
}
use keenetic_router_pro.Transport.Auth.{
  authenticate, authenticate_challenge, authenticate_configured, answer_challenge, ensure_auth,
  after_first, after_second, flip, Challenge, after_challenge, challenge_of, challenge_request,
  settle_basic, settle_challenge, basic_verdict, post_request, basic_request,
}

-- Success signs in with a header. A rejection leaves the scheme that was selected, and any failure
-- leaves the client signed out.
abbrev pub IsOutcome : Bool → Result (Unit {0}) × Client → Type 0
IsOutcome scheme (ok u, c) = (c.authenticated ≡ true) × (is_some c.auth_header ≡ true)
IsOutcome scheme (err (auth_error m), c) =
    (c.authenticated ≡ false) × (c.use_challenge_auth ≡ scheme)
IsOutcome scheme (err e, c) = c.authenticated ≡ false

abbrev IsLeg : Bool → Result (Unit {0}) × Client → Type 0
IsLeg scheme out = IsOutcome scheme out × (out.1.use_challenge_auth ≡ scheme)

module _ (site : Site) where
  settle_basic-IsLeg :
      (r : Result (Unit {0})) (c : Client)
      → c.authenticated ≡ false
      → IsLeg c.use_challenge_auth (settle_basic site r c)
  unfolding settle_basic
  settle_basic-IsLeg (ok u) c h = ground arith
  settle_basic-IsLeg (err e) c h = ground arith

  authenticate-IsLeg :
      (c : Client) → c.authenticated ≡ false → IsLeg c.use_challenge_auth (authenticate site c)
  unfolding authenticate
  authenticate-IsLeg c h = ground (
    arith,
    settle_basic-IsLeg (basic_verdict site (site.answer c.sent (basic_request site)))
        (record c { sent = basic_request site ∷ c.sent }) h,
  )

  settle_challenge-IsLeg :
      (r : Result (Option String)) (c : Client)
      → c.authenticated ≡ false
      → IsLeg c.use_challenge_auth (settle_challenge r c)
  unfolding settle_challenge
  settle_challenge-IsLeg (ok none) c h = ground arith
  settle_challenge-IsLeg (ok (some cookie)) c h = ground arith
  settle_challenge-IsLeg (err e) c h = ground arith

  answer_challenge-IsLeg :
      (ch : Challenge) (c : Client)
      → c.authenticated ≡ false
      → IsLeg c.use_challenge_auth (answer_challenge site ch c)
  unfolding answer_challenge
  answer_challenge-IsLeg ch c h =
      settle_challenge-IsLeg _ (record c { sent = post_request site ch ∷ c.sent }) h

  after_challenge-IsLeg :
      (r : Result Challenge) (c : Client)
      → c.authenticated ≡ false
      → IsLeg c.use_challenge_auth (after_challenge site r c)
  unfolding after_challenge
  after_challenge-IsLeg (err (auth_error m)) c h = (ground arith, refl)
  after_challenge-IsLeg (err (api_error m s)) c h = (h, refl)
  after_challenge-IsLeg (err (other_error m)) c h = (h, refl)
  after_challenge-IsLeg (ok ch) c h = answer_challenge-IsLeg ch c h

  authenticate_challenge-IsLeg :
      (c : Client)
      → c.authenticated ≡ false
      → IsLeg c.use_challenge_auth (authenticate_challenge site c)
  unfolding authenticate_challenge
  authenticate_challenge-IsLeg c h = ground (
    arith,
    after_challenge-IsLeg (challenge_of site (site.answer c.sent (challenge_request site)))
        (record c { sent = challenge_request site ∷ c.sent }) h,
  )

  pub authenticate_configured-IsLeg :
      (c : Client)
      → c.authenticated ≡ false
      → IsLeg c.use_challenge_auth (authenticate_configured site c)
  unfolding authenticate_configured
  authenticate_configured-IsLeg c h =
      ground (arith, authenticate_challenge-IsLeg c h, authenticate-IsLeg c h)

  after_second-IsOutcome :
      (scheme : Bool) (out : Result (Unit {0}) × Client)
      → IsLeg (not scheme) out
      → IsOutcome scheme (after_second out)
  unfolding after_second
  after_second-IsOutcome scheme (ok u, c) h = h.0
  after_second-IsOutcome scheme (err (auth_error m), c) h = ground arith
  after_second-IsOutcome scheme (err (api_error m s), c) h = h.0
  after_second-IsOutcome scheme (err (other_error m), c) h = h.0

  after_first-IsOutcome :
      (scheme : Bool) (out : Result (Unit {0}) × Client)
      → IsLeg scheme out
      → IsOutcome scheme (after_first site out)
  unfolding after_first
  after_first-IsOutcome scheme (ok u, c) h = h.0
  after_first-IsOutcome scheme (err (auth_error m), c) h =
      after_second-IsOutcome scheme (authenticate_configured site (flip c))
        (ground (arith, authenticate_configured-IsLeg (flip c)))
  after_first-IsOutcome scheme (err (api_error m s), c) h = h.0
  after_first-IsOutcome scheme (err (other_error m), c) h = h.0

  -- A signed-out client that `_ensure_auth` accepts is signed in and has a header to send. Where both
  -- schemes are rejected, the scheme that was selected is selected again, so that a wrong password leaves
  -- the configuration as it was. Every failure leaves the client signed out.
  pub ensure_auth-IsOutcome :
      (c : Client) → c.authenticated ≡ false → IsOutcome c.use_challenge_auth (ensure_auth site c)
  unfolding ensure_auth
  ensure_auth-IsOutcome c h = ground (
    arith,
    after_first-IsOutcome c.use_challenge_auth (authenticate_configured site c)
        (authenticate_configured-IsLeg c h),
  )
