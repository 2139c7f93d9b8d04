-- ===== src/Domains/NodeUpdate/Session.antt =====
-- api/domains/system.py: the session with a mesh node, and the cache of its header.
use keenetic_router_pro.Prelude.{
  String, List, [], ◌∷◌, Option, some, none, Bool, ℕ, Dict, ◌==◌, if◌then◌else◌, ◌&&◌, ◌||◌,
}
use keenetic_router_pro.Value.{Value, dict, str, end, field}
use keenetic_router_pro.Text.{◌<>◌}
use keenetic_router_pro.Utils.Addresses.{IpAddress, bracket_host}
use keenetic_router_pro.Transport.Http.{
  Site, Request, Response, Reply, response, no_response, Body, read, unreadable, get_method,
  post_method, send, print_status,
}
use keenetic_router_pro.Transport.Header.{header, cookie_header_from_response}
use keenetic_router_pro.Transport.Auth.{Challenge, response_hash, or_cookie, cookie_headers}
use keenetic_router_pro.Domains.{Device, eqb, true, not}

-- How the client reaches its router, and Python's `ipaddress.ip_address`.
pub record Setup : Type 0 where
  pub port : ℕ
  pub ssl : Bool
  pub ip_address : String → Option IpAddress

-- `f"{scheme}://{bracket_host(node_ip)}:{port}"`.
unfoldable pub node_base : Site → Setup → String → ℕ → String
node_base site setup ip port =
    (if setup.ssl then "https" else "http")
    <> ("://" <> (bracket_host ip <> (":" <> print_status site port)))

abbrev pub send_node : Site → Request → Device → Reply × Device
send_node site r d = let out = send site r d.client in (out.0, record d { client = out.1 })

-- A `get`; the challenge alone is read without following a redirect.
abbrev pub get_request : String → String → Dict String → Request
get_request base path headers = record {
  method = get_method;
  url = base <> path;
  params = none;
  json = none;
  headers = headers;
  allow_redirects = not (path == "/auth");
}

abbrev pub node_get : Site → String → String → Dict String → Device → Reply × Device
node_get site base path headers d = send_node site (get_request base path headers) d

abbrev pub post_request : String → String → Value → Dict String → Request
post_request base path json headers = record {
  method = post_method;
  url = base <> path;
  params = none;
  json = some json;
  headers = headers;
  allow_redirects = true;
}

abbrev pub node_post : Site → String → String → Value → Dict String → Device → Reply × Device
node_post site base path json headers d = send_node site (post_request base path json headers) d

abbrev Headers : Type 0
Headers = List ((String × ℕ) × Dict String)

abbrev same_node : String → ℕ → String × ℕ → Bool
same_node ip port key = key.0 == ip && eqb key.1 port

-- `self._node_auth_headers.get((node_ip, port))`; none and an empty header are both false.
unfoldable pub cached : String → ℕ → Headers → Dict String
cached ip port [] = []
cached ip port ((key, headers) ∷ rest) =
    if same_node ip port key then headers else cached ip port rest

unfoldable pub without : String → ℕ → Headers → Headers
without ip port [] = []
without ip port ((key, headers) ∷ rest) =
    let later = without ip port rest in
    if same_node ip port key then later else (key, headers) ∷ later

-- `self._node_auth_headers.pop((node_ip, port), None)`.
unfoldable pub forget_node : String → ℕ → Device → Device
unfolding without
forget_node ip port d = record d { node_auth_headers = without ip port d.node_auth_headers }

-- `self._node_auth_headers[(node_ip, port)] = headers`.
unfoldable pub remember_node : String → ℕ → Dict String → Device → Device
unfolding without
remember_node ip port headers d = record d {
  node_auth_headers = ((ip, port), headers) ∷ without ip port d.node_auth_headers;
}

-- What is left of a session after the POST: the header, or none.
abbrev pub Opened : Type 0
Opened = Option (Dict String) × Device

abbrev pub open_session : String → ℕ → Option String → Device → Opened
open_session ip port cookie d =
    (some (cookie_headers cookie), remember_node ip port (cookie_headers cookie) d)

abbrev pub after_drain : String → ℕ → Option String → Response → Body (Unit {0}) → Device → Opened
after_drain ip port cookie resp (unreadable fault) d = (none, d)
after_drain ip port cookie resp (read u) d =
    if eqb resp.status 200 || eqb resp.status 204
    then open_session ip port (or_cookie (cookie_header_from_response resp) cookie) d
    else (none, d)

unfoldable pub settle_post : String → ℕ → Option String → Reply × Device → Opened
unfolding remember_node
settle_post ip port cookie (no_response fault, d) = (none, d)
settle_post ip port cookie (response resp, d) = after_drain ip port cookie resp resp.drained d

abbrev pub login : Site → Challenge → Value
login site ch =
    dict (field "login" (str site.username) (field "password" (str (response_hash site ch)) end))

abbrev pub answer_node : Site → String → String → ℕ → Challenge → Device → Opened
answer_node site base ip port ch d =
    settle_post ip port ch.cookie
      (node_post site base "/auth" (login site ch) (cookie_headers ch.cookie) d)

abbrev header_or_empty : Option String → String
header_or_empty none = ""
header_or_empty (some s) = s

unfoldable pub settle_challenge_get : Site → String → String → ℕ → Reply × Device → Opened
unfolding settle_post
settle_challenge_get site base ip port (no_response fault, d) = (none, d)
settle_challenge_get site base ip port (response resp, d) =
    let challenge = header_or_empty (header "X-NDM-Challenge" resp.headers) in
    if challenge == ""
    then (none, d)
    else answer_node site base ip port
        (record {
          challenge = challenge;
          realm = header_or_empty (header "X-NDM-Realm" resp.headers);
          cookie = cookie_header_from_response resp;
        })
        d

abbrev pub open_or_cached : Site → String → String → ℕ → Dict String → Device → Opened
open_or_cached site base ip port [] d =
    settle_challenge_get site base ip port (node_get site base "/auth" [] d)
open_or_cached site base ip port headers d = (some headers, d)

-- `_authenticate_to_node(node_ip, port)`: every failure is logged and gives no header.
unfoldable pub authenticate_to_node : Site → Setup → String → ℕ → Device → Opened
unfolding settle_challenge_get cached
authenticate_to_node site setup ip port d =
    open_or_cached site (node_base site setup ip port) ip port (cached ip port d.node_auth_headers)
      d
