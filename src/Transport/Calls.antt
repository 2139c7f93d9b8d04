-- ===== src/Transport/Calls.antt =====
-- api/transport.py: a call, with its retry after an expired session, and the calls that the tick cache
-- serves.
use keenetic_router_pro.Prelude.{
  String, ℕ, Bool, false, Option, if◌then◌else◌, not, eqb, none, some, leb, [], ◌&&◌, true,
}
use keenetic_router_pro.Text.{◌<>◌, lstrip_slashes, includes}
use keenetic_router_pro.Value.{Value, null, str, Fields}
use keenetic_router_pro.Transport.Http.{
  Response, Site, Error, Result, Reply, Body, Client, send, raised, err, Method, Request, Fault,
  no_response, unreadable, read, ok, response, auth_error, post_method, api_error, get_method,
  print_status,
}
use keenetic_router_pro.Transport.Header.{response_summary, header}
use keenetic_router_pro.Transport.Auth.{ensure_auth}
use keenetic_router_pro.Refresh.{lookup_tick_cache}

-- The `except` clauses of `_request`.
abbrev pub call_fault : String → Fault → Error
call_fault path fault = raised ("Timeout for " <> path) "Connection error: " fault

abbrev pub signed_out : Client → Client
signed_out c = record c { authenticated = false }

abbrev body_value : String → Body Value → Result Value
body_value path (read v) = ok v
body_value path (unreadable fault) = err (call_fault path fault)

abbrev text_value : Body String → Body Value
text_value (read s) = read (str s)
text_value (unreadable fault) = unreadable fault

http_error : Site → String → ℕ → Body String → Error
http_error site path status (unreadable fault) = call_fault path fault
http_error site path status (read text) =
    if eqb status 502
    then api_error
        ("HTTP error 502 for "
          <> path
          <> ": KeenDNS protected web app was reached, but its internal published application/upstream is unavailable or misconfigured: "
          <> response_summary site text)
        (some status)
    else api_error
        ("HTTP error "
          <> print_status site status
          <> " for "
          <> path
          <> ": "
          <> response_summary site text)
        (some status)

rejected : Site → String → Body String → Client → Result Value × Client
rejected site path (unreadable fault) c = (err (call_fault path fault), c)
rejected site path (read text) c = (
  err (auth_error ("Authentication rejected for " <> path <> ": " <> response_summary site text)),
  signed_out c,
)

is_json : Response → Bool
is_json resp = elim (header "Content-Type" resp.headers) [
  | none ↦ false
  | some ctype ↦ includes "application/json" ctype
]

-- `_handle_response(resp, path, allow_text=...)`.
unfoldable pub handle_response : Site → String → Bool → Response → Client → Result Value × Client
unfolding http_error rejected is_json
handle_response site path allow_text resp c =
    if eqb resp.status 401
    then rejected site path resp.text c
    else if leb 400 resp.status
    then (err (http_error site path resp.status resp.text), c)
    else if allow_text && not (is_json resp)
    then (body_value path (text_value resp.text), c)
    else (body_value path resp.json, c)

-- The arguments of a call.
pub record Call : Type 0 where
  pub method : Method
  pub path : String
  pub params : Option Fields
  pub json : Option Value
  pub allow_text : Bool

-- The request of a call, with the session's header.
abbrev pub request_of : Site → Call → Client → Request
request_of site k c = record {
  method = k.method;
  url = site.base <> k.path;
  params = k.params;
  json = k.json;
  headers = elim c.auth_header [ none ↦ [] | some headers ↦ headers ];
  allow_redirects = true;
}

abbrev pub finish : Site → Call → Reply × Client → Result Value × Client
finish site k (no_response fault, c) = (err (call_fault k.path fault), c)
finish site k (response resp, c) = handle_response site k.path k.allow_text resp c

-- The second attempt, after the new handshake.
abbrev pub second_attempt : Site → Call → Result (Unit {0}) × Client → Result Value × Client
second_attempt site k (err e, c) = (err e, c)
second_attempt site k (ok u, c) = finish site k (send site (request_of site k c) c)

abbrev pub after_drain : Site → Call → Body (Unit {0}) → Client → Result Value × Client
after_drain site k (unreadable fault) c = (err (call_fault k.path fault), c)
after_drain site k (read u) c = second_attempt site k (ensure_auth site (signed_out c))

unfoldable pub after_reply : Site → Call → Reply × Client → Result Value × Client
after_reply site k (no_response fault, c) = (err (call_fault k.path fault), c)
after_reply site k (response resp, c) =
    if eqb resp.status 401
    then after_drain site k resp.drained c
    else handle_response site k.path k.allow_text resp c

abbrev pub first_attempt : Site → Call → Result (Unit {0}) × Client → Result Value × Client
first_attempt site k (err e, c) = (err e, c)
first_attempt site k (ok u, c) = after_reply site k (send site (request_of site k c) c)

-- `_request(method, path, params=..., json=..., allow_text=...)`.
unfoldable pub request : Site → Call → Client → Result Value × Client
request site k c =
    if not c.has_session
    then (err (api_error "ClientSession is not set" none), c)
    else first_attempt site k (ensure_auth site c)

abbrev rci_path : String → String
rci_path subpath = "/rci/" <> lstrip_slashes subpath

abbrev pub get_call : String → Option Fields → Call
get_call subpath params = record {
  method = get_method;
  path = rci_path subpath;
  params = params;
  json = none;
  allow_text = false;
}

-- `_rci_get(subpath, params=...)`: a value of the tick cache that is not None needs no call.
unfoldable pub rci_get : Site → String → Option Fields → Client → Result Value × Client
rci_get site subpath (some params) c = request site (get_call subpath (some params)) c
rci_get site subpath none c = elim (lookup_tick_cache c.tick_cache subpath) [
  | null ↦ request site (get_call subpath none) c
  | v ↦ (ok v, c)
]

abbrev pub post_call : String → Value → Bool → Call
post_call subpath json allow_text = record {
  method = post_method;
  path = rci_path subpath;
  params = none;
  json = some json;
  allow_text = allow_text;
}

-- `_rci_post(subpath, json, allow_text=...)`.
unfoldable pub rci_post : Site → String → Value → Bool → Client → Result Value × Client
rci_post site subpath json allow_text c = request site (post_call subpath json allow_text) c
