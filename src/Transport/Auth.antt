-- ===== src/Transport/Auth.antt =====
-- api/auth.py: Basic and challenge authentication, and the choice between them.
use keenetic_router_pro.Prelude.{
  String, not, Dict, Option, if◌then◌else◌, eqb, [], some, none, ◌∷◌, true, ◌||◌, ◌==◌, false,
}
use keenetic_router_pro.Text.{◌<>◌}
use keenetic_router_pro.Value.{str, dict, field, end}
use keenetic_router_pro.Transport.Http.{
  Response, Site, Error, Result, Reply, Body, Client, send, raised, no_response, post_method, err,
  read, response, unreadable, ok, auth_error, get_method, api_error, print_status, Request,
}
use keenetic_router_pro.Transport.Header.{response_summary, cookie_header_from_response, header}

-- `_basic_auth_headers()`.
abbrev pub basic_auth_headers : Site → Dict String
basic_auth_headers site =
    ("Authorization", "Basic " <> site.base64 (site.username <> ":" <> site.password)) ∷ []

-- An error with the summary of the body, or the exception of reading the body.
abbrev pub with_summary : Site → String → String → (String → Error) → Body String → Error
with_summary site on_timeout on_client_error f (read text) = f (response_summary site text)
with_summary site on_timeout on_client_error f (unreadable fault) =
    raised on_timeout on_client_error fault

-- What `_async_authenticate` makes of the reply.
basic_status : Site → Response → Result (Unit {0})
basic_status site resp =
    if eqb resp.status 401 || eqb resp.status 403
    then err (
        with_summary site "Auth connection timed out" "Auth connection failed: "
          (λ s. auth_error ("Auth failed (status " <> print_status site resp.status <> "): " <> s))
          resp.text)
    else if not (eqb resp.status 200)
    then err (
        with_summary site "Auth connection timed out" "Auth connection failed: "
          (λ s.
            api_error
              ("Auth endpoint returned status " <> print_status site resp.status <> ": " <> s) none)
          resp.text)
    else ok tt

unfoldable pub basic_verdict : Site → Reply → Result (Unit {0})
unfolding basic_status
basic_verdict site (no_response fault) =
    err (raised "Auth connection timed out" "Auth connection failed: " fault)
basic_verdict site (response resp) = basic_status site resp

abbrev pub signed_in : Dict String → Client → Client
signed_in headers c = record c { auth_header = some headers; authenticated = true }

abbrev pub basic_request : Site → Request
basic_request site = record {
  method = get_method;
  url = site.base <> "/rci/";
  params = none;
  json = none;
  headers = basic_auth_headers site;
  allow_redirects = true;
}

unfoldable pub settle_basic : Site → Result (Unit {0}) → Client → Result (Unit {0}) × Client
settle_basic site (err e) c = (err e, c)
settle_basic site (ok u) c = (ok u, signed_in (basic_auth_headers site) c)

-- `_async_authenticate()`.
unfoldable pub authenticate : Site → Client → Result (Unit {0}) × Client
authenticate site c =
    if not c.has_session
    then (err (auth_error "ClientSession is not set"), c)
    else let (reply, c) = send site (basic_request site) c in
      settle_basic site (basic_verdict site reply) c

abbrev pub challenge_request : Site → Request
challenge_request site = record {
  method = get_method;
  url = site.base <> "/auth";
  params = none;
  json = none;
  headers = [];
  allow_redirects = false;
}

pub record Challenge : Type 0 where
  pub challenge : String
  pub realm : String
  pub cookie : Option String

abbrev pub or_text : Option String → String → String
or_text none default = default
or_text (some s) default = s

-- Step 1: what `_async_authenticate_challenge` makes of the reply to the GET.
read_challenge : Site → Response → Result Challenge
read_challenge site resp =
    if eqb resp.status 403
    then err (
        auth_error
          "Router refused the challenge-auth endpoint (403); it does not support Challenge Auth")
    else if not (eqb resp.status 200 || eqb resp.status 401)
    then err (
        with_summary site "Challenge GET response read timed out"
          "Challenge GET response read failed: "
          (λ s.
            api_error
              ("Unexpected status during challenge GET ("
                <> print_status site resp.status
                <> "): "
                <> s)
              none)
          resp.text)
    else let challenge = or_text (header "X-NDM-Challenge" resp.headers) "" in
      if challenge == ""
      then err (
          auth_error
            "Router did not return X-NDM-Challenge header. This model may not support Challenge Auth — try disabling 'Challenge Auth' and use Basic Auth instead.")
      else ok (record {
        challenge = challenge;
        realm = or_text (header "X-NDM-Realm" resp.headers) "";
        cookie = cookie_header_from_response resp;
      })

unfoldable pub challenge_of : Site → Reply → Result Challenge
unfolding read_challenge
challenge_of site (no_response fault) =
    err (raised "Challenge GET timed out" "Challenge GET failed: " fault)
challenge_of site (response resp) = read_challenge site resp

-- Step 2: the answer to the challenge.
unfoldable pub response_hash : Site → Challenge → String
response_hash site ch =
    site.sha256
      (ch.challenge <> site.md5 (site.username <> ":" <> ch.realm <> ":" <> site.password))

abbrev pub or_cookie : Option String → Option String → Option String
or_cookie none c = c
or_cookie (some s) c = some s

-- Step 3: what it makes of the reply to the POST: the session cookie, if there is one.
post_status : Site → Option String → Response → String → Result (Option String)
post_status site session_cookie resp post_text =
    if eqb resp.status 401 || eqb resp.status 403
    then err (
        auth_error
          "Challenge auth rejected. Check the username, password and challenge-auth setting.")
    else if not (eqb resp.status 200 || eqb resp.status 204)
    then err (
        api_error
          ("Challenge auth failed (status="
            <> print_status site resp.status
            <> ", body="
            <> site.repr (response_summary site post_text)
            <> ")")
          none)
    else ok (or_cookie (cookie_header_from_response resp) session_cookie)

read_post : Site → Option String → Response → Body String → Result (Option String)
unfolding post_status
read_post site session_cookie resp (read post_text) = post_status site session_cookie resp post_text
read_post site session_cookie resp (unreadable fault) =
    err (
      raised "Challenge auth response read timed out" "Challenge auth response read failed: " fault)

unfoldable pub cookie_of_post : Site → Option String → Reply → Result (Option String)
unfolding read_post
cookie_of_post site session_cookie (no_response fault) =
    err (raised "Challenge POST timed out" "Challenge POST failed: " fault)
cookie_of_post site session_cookie (response resp) = read_post site session_cookie resp resp.text

abbrev pub cookie_headers : Option String → Dict String
cookie_headers none = []
cookie_headers (some cookie) = ("Cookie", cookie) ∷ []

abbrev pub post_request : Site → Challenge → Request
post_request site ch = record {
  method = post_method;
  url = site.base <> "/auth";
  params = none;
  json = some (
      dict
        (field "login" (str site.username) (field "password" (str (response_hash site ch)) end)));
  headers = cookie_headers ch.cookie;
  allow_redirects = true;
}

unfoldable pub settle_challenge : Result (Option String) → Client → Result (Unit {0}) × Client
settle_challenge (err e) c = (err e, c)
settle_challenge (ok none) c =
    (err (api_error "Challenge auth succeeded but the router returned no session cookie" none), c)
settle_challenge (ok (some cookie)) c = (ok tt, signed_in (("Cookie", cookie) ∷ []) c)

-- Steps 2 and 3, with the challenge.
unfoldable pub answer_challenge : Site → Challenge → Client → Result (Unit {0}) × Client
answer_challenge site ch c =
    let (reply, c) = send site (post_request site ch) c in
    settle_challenge (cookie_of_post site ch.cookie reply) c

unfoldable pub after_challenge : Site → Result Challenge → Client → Result (Unit {0}) × Client
after_challenge site (err e) c = (err e, c)
after_challenge site (ok ch) c = answer_challenge site ch c

-- `_async_authenticate_challenge()`.
unfoldable pub authenticate_challenge : Site → Client → Result (Unit {0}) × Client
authenticate_challenge site c =
    if not c.has_session
    then (err (auth_error "ClientSession is not set"), c)
    else let (reply, c) = send site (challenge_request site) c in
      after_challenge site (challenge_of site reply) c

-- `_async_authenticate_configured()`.
unfoldable pub authenticate_configured : Site → Client → Result (Unit {0}) × Client
authenticate_configured site c =
    if c.use_challenge_auth then authenticate_challenge site c else authenticate site c

abbrev pub flip : Client → Client
flip c = record c { use_challenge_auth = not c.use_challenge_auth }

-- The second scheme of `_ensure_auth`: rejected as well, the first one is selected again.
unfoldable pub after_second : Result (Unit {0}) × Client → Result (Unit {0}) × Client
after_second (err (auth_error m), c) = (err (auth_error m), flip c)
after_second (r, c) = (r, c)

unfoldable pub after_first : Site → Result (Unit {0}) × Client → Result (Unit {0}) × Client
after_first site (err (auth_error m), c) = after_second (authenticate_configured site (flip c))
after_first site (r, c) = (r, c)

-- `_ensure_auth()`.
unfoldable pub ensure_auth : Site → Client → Result (Unit {0}) × Client
ensure_auth site c =
    if c.authenticated then (ok tt, c) else after_first site (authenticate_configured site c)
