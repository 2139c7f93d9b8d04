-- ===== src/Transport/Target.antt =====
-- api/target.py: the address of the router. `urllib.parse` and `ipaddress` are parameters.
pub mod Bounds
use keenetic_router_pro.Prelude.{
  String, Bool, true, false, Option, some, none, ℤ, pos, ltb_ℤ, not, ◌||◌, ◌&&◌, ◌==◌,
  if◌then◌else◌, is_some,
}
use Prim.Native.Char.{code}
use text.Mathlib.Text.{starts_with}
use keenetic_router_pro.Value.{int}
use keenetic_router_pro.Text.{strip, includes, is_space, ◌<>◌}
use keenetic_router_pro.Utils.Addresses.{bracket_host}
use keenetic_router_pro.Transport.Http.{Site, Result, Error, ok, err, api_error, other_error}

-- What `urlparse` reads. A port that is no number between 0 and 65535 is `none`, the ValueError of `port`.
pub record Parsed : Type 0 where
  pub scheme : String
  pub username : Option String
  pub password : Option String
  pub hostname : Option String
  pub path : String
  pub params : String
  pub query : String
  pub fragment : String
  pub port : Option (Option ℤ)

pub record Parsers : Type 0 where
  -- `none` is ValueError.
  pub urlparse : String → Option Parsed
  -- `ip_address(text).version == 6`, where the text is an address.
  pub is_ipv6 : String → Bool

pub record KeeneticConnectionTarget : Type 0 where
  pub host : String
  pub port : ℤ
  pub ssl : Bool

-- `base_url`.
unfoldable pub base_url : Site → KeeneticConnectionTarget → String
base_url site t =
    (if t.ssl then "https" else "http")
    <> ("://" <> (bracket_host t.host <> (":" <> site.runtime.print (int t.port))))

unfoldable pub has_space : String → Bool
has_space String.[] = false
has_space (String.◌∷◌ c s) = is_space (code c) || has_space s

abbrev pub refuse : String → Result KeeneticConnectionTarget
refuse message = err (api_error message none)

abbrev pub in_range : ℤ → Bool
in_range port = not (ltb_ℤ port (pos 1)) && not (ltb_ℤ (pos 65535) port)

-- A port of the URL wins over the one that is configured.
abbrev port_or : Option ℤ → ℤ → ℤ
port_or none port = port
port_or (some url_port) port = url_port

abbrev with_port : String → Bool → ℤ → Result KeeneticConnectionTarget
with_port host ssl port =
    if in_range port
    then ok (record { host = host; port = port; ssl = ssl })
    else refuse "Port must be between 1 and 65535"

abbrev with_host : String → Bool → Option (Option ℤ) → ℤ → Result KeeneticConnectionTarget
with_host host ssl none port = refuse "Port must be between 1 and 65535"
with_host host ssl (some url_port) port = with_port host ssl (port_or url_port port)

abbrev host_or : Option String → String → String
host_or none raw_host = raw_host
host_or (some host) raw_host = if host == "" then raw_host else host

abbrev ssl_or : String → Bool → Bool
ssl_or scheme ssl = if scheme == "" then ssl else scheme == "https"

unfoldable pub target_of : String → Parsed → ℤ → Bool → Result KeeneticConnectionTarget
unfolding has_space
target_of raw_host p port ssl =
    let host = strip (host_or p.hostname raw_host) in
    if not (p.scheme == "") && not (p.scheme == "http" || p.scheme == "https")
    then refuse ("Unsupported URL scheme: " <> p.scheme)
    else if is_some p.username || is_some p.password
    then refuse "Host must not include URL credentials"
    else if not (p.path == "" || p.path == "/")
        || not (p.params == "")
        || not (p.query == "")
        || not (p.fragment == "")
    then refuse "Host must not include a path, query string or fragment"
    else if host == ""
    then refuse "Host is required"
    else if has_space host
    then refuse "Host must not contain whitespace"
    else with_host host (ssl_or p.scheme ssl) p.port port

abbrev pub of_parsed : String → Option Parsed → ℤ → Bool → Result KeeneticConnectionTarget
of_parsed raw_host none port ssl = err (other_error "ValueError")
of_parsed raw_host (some p) port ssl = target_of raw_host p port ssl

-- A bare IPv6 literal gets its brackets.
abbrev pub bracketed : Parsers → String → String
bracketed ps raw_host =
    if not (includes "://" raw_host) && not (starts_with raw_host "[") && ps.is_ipv6 raw_host
    then "[" <> (raw_host <> "]")
    else raw_host

abbrev pub parse_target : Parsers → String → ℤ → Bool → Result KeeneticConnectionTarget
parse_target ps raw_host port ssl =
    of_parsed raw_host
      (ps.urlparse (if includes "://" raw_host then raw_host else "//" <> raw_host)) port ssl

-- `normalize_connection_target(host, port, ssl)`.
unfoldable pub normalize_connection_target :
    Parsers → String → ℤ → Bool → Result KeeneticConnectionTarget
unfolding target_of
normalize_connection_target ps host port ssl =
    if strip host == ""
    then refuse "Host is required"
    else parse_target ps (bracketed ps (strip host)) port ssl
