-- ===== src/Domains/Dns.antt =====
-- api/domains/dns.py: the health of the DNS proxies. `urllib.parse` is a parameter.
pub mod Table
pub mod Verdict
use keenetic_router_pro.Prelude.{
  String, List, [], ◌∷◌, ◌++◌, true, false, Option, some, none, Bool, ℕ, ◌+◌, length, any, leb, ltb,
  if◌then◌else◌, ◌&&◌, ◌==◌, ◌||◌, ◌*◌,
}
use keenetic_router_pro.Value.{
  Value, null, dict, list, str, Items, nil, Fields, end, field, get, or_else, truthy, Runtime,
}
use keenetic_router_pro.Text.{strip, includes, ◌<>◌}
use keenetic_router_pro.Parsers.Helpers.{dict_items}
use keenetic_router_pro.Refresh.{is_false}
use keenetic_router_pro.Transport.Http.{Site, Result, Error, ok, err, other_error, print_status}
use keenetic_router_pro.Transport.Header.{is_endpoint_missing}
use keenetic_router_pro.Transport.Calls.{rci_get}
use keenetic_router_pro.Domains.{Device, on_client, eqb, not}
use keenetic_router_pro.Domains.Dns.Table.{Server, parse_dns_proxy_stat}

-- A URI that `urlsplit` read; a port of 0 is false, as None is.
pub record Uri : Type 0 where
  pub scheme : String
  pub hostname : Option String
  pub port : Option ℕ

-- `urlsplit` with its `hostname` and `port`, where `none` is ValueError, and
-- `urlunsplit((scheme, host, "/", "", ""))`.
pub record Urls : Type 0 where
  pub urlsplit : String → Option Uri
  pub urlunsplit : String → String → String

abbrev host_of : Option String → String
host_of none = ""
host_of (some host) = host

abbrev with_port : Site → String → Option ℕ → String
with_port site host none = host
with_port site host (some port) =
    if eqb port 0 then host else host <> (":" <> print_status site port)

abbrev redact : Site → Urls → Option Uri → String
redact site urls none = ""
redact site urls (some uri) =
    urls.urlunsplit uri.scheme (with_port site (host_of uri.hostname) uri.port)

-- `_redact_doh_uri(value)`.
unfoldable pub redact_doh_uri : Site → Urls → Value → String
redact_doh_uri site urls value =
    let text = strip (site.runtime.print (or_else value (str ""))) in
    if text == "" then "" else redact site urls (urls.urlsplit text)

-- `_WEAK_UPSTREAM_MIN_SENT`.
abbrev pub weak_upstream_min_sent : ℕ
weak_upstream_min_sent = 20

-- `_upstream_is_weak(server)`: half of the count is exact below 2^53.
unfoldable pub upstream_is_weak : Server → Bool
upstream_is_weak s = leb weak_upstream_min_sent s.sent && ltb (2 * (s.answered + s.nxdomain)) s.sent

-- NXDOMAIN is an answer.
abbrev pub is_active : Server → Bool
is_active s = ltb 0 (s.answered + s.nxdomain)

module _ (p : Server → Bool) where
  -- `sum(1 for s in servers if p(s))`.
  unfoldable pub count_if : List Server → ℕ
  count_if [] = 0
  count_if (s ∷ ss) = (if p s then 1 else 0) + count_if ss

-- `sum(s["sent"] for s in servers)`, and of the failed ones.
unfoldable pub sum_sent : List Server → ℕ
sum_sent [] = 0
sum_sent (s ∷ ss) = s.sent + sum_sent ss

unfoldable pub sum_failed : List Server → ℕ
sum_failed [] = 0
sum_failed (s ∷ ss) = s.failed + sum_failed ss

pub record Proxy : Type 0 where
  pub name : String
  pub configured_doh_uris : List String
  pub client_path_uses_doh : Bool
  pub servers : List Server

-- The totals of the loop.
pub record Totals : Type 0 where
  pub total_servers : ℕ
  pub active_servers : ℕ
  pub failed_requests : ℕ
  pub sent_requests : ℕ
  pub doh_servers : ℕ
  pub weak_servers : ℕ
  pub proxies : List Proxy

abbrev https_servers : Value → List Fields
https_servers (dict fs) = dict_items (or_else (get "server-https" fs) (list nil))
https_servers v = []

unfoldable pub doh_uris : Site → Urls → List Fields → List String
doh_uris site urls [] = []
doh_uris site urls (server ∷ servers) =
    let later = doh_uris site urls servers in
    if truthy (get "uri" server) then redact_doh_uri site urls (get "uri" server) ∷ later else later

abbrev text_at : Site → String → String → Fields → String
text_at site key missing fs = site.runtime.print (or_else (get key fs) (str missing))

unfoldable pub proxy_of : Site → Urls → Fields → Proxy
unfolding doh_uris
proxy_of site urls proxy = record {
  name = text_at site "proxy-name" "Unknown" proxy;
  configured_doh_uris = doh_uris site urls (https_servers (get "proxy-https" proxy));
  client_path_uses_doh = includes "https://" (text_at site "proxy-config" "" proxy);
  servers = parse_dns_proxy_stat (text_at site "proxy-stat" "" proxy);
}

-- One turn of the loop.
unfoldable pub add_proxy : Proxy → Totals → Totals
unfolding count_if sum_sent sum_failed
add_proxy p t = record {
  total_servers = t.total_servers + length p.servers;
  active_servers = t.active_servers + count_if is_active p.servers;
  failed_requests = t.failed_requests + sum_failed p.servers;
  sent_requests = t.sent_requests + sum_sent p.servers;
  doh_servers = t.doh_servers + length p.configured_doh_uris;
  weak_servers = t.weak_servers + count_if upstream_is_weak p.servers;
  proxies = t.proxies ++ (p ∷ []);
}

unfoldable pub add_proxies : Site → Urls → List Fields → Totals → Totals
unfolding add_proxy proxy_of
add_proxies site urls [] t = t
add_proxies site urls (proxy ∷ rest) t =
    add_proxies site urls rest (add_proxy (proxy_of site urls proxy) t)

abbrev pub no_totals : Totals
no_totals = record {
  total_servers = 0;
  active_servers = 0;
  failed_requests = 0;
  sent_requests = 0;
  doh_servers = 0;
  weak_servers = 0;
  proxies = [];
}

abbrev pub is_empty : List Proxy → Bool
is_empty [] = true
is_empty (p ∷ ps) = false

unfoldable pub status_of : Totals → String
status_of t =
    if is_empty t.proxies || eqb t.total_servers 0
    then "unknown"
    else if eqb t.active_servers 0 && leb weak_upstream_min_sent t.sent_requests
    then "down"
    else if not (eqb t.weak_servers 0)
    then "degraded"
    else "ok"

-- The summary: the status with the totals. Its other entries are lengths and flags of the proxies.
abbrev summary_in : Site → Urls → Fields → String × Totals
summary_in site urls data_ =
    let t =
      add_proxies site urls (dict_items (or_else (get "proxy-status" data_) (list nil)))
        no_totals in
    (status_of t, t)

-- A payload with content that is no dict has no `get`; an empty one counts as `{}`.
abbrev dns_of : Site → Urls → Value → Device → Result (Option (String × Totals)) × Device
dns_of site urls (dict fs) d = (
  ok (some (summary_in site urls fs)),
  record d { latches = record d.latches { dns_proxy_supported = some true } },
)
dns_of site urls v d = if truthy v then (err (other_error "AttributeError"), d) else (
  ok (some (summary_in site urls end)),
  record d { latches = record d.latches { dns_proxy_supported = some true } },
)

abbrev settle_dns : Site → Urls → Result Value × Device → Result (Option (String × Totals)) × Device
settle_dns site urls (ok v, d) = dns_of site urls v d
settle_dns site urls (err e, d) =
    if is_endpoint_missing e
    then (ok none, record d { latches = record d.latches { dns_proxy_supported = some false } })
    else (err e, d)

-- `async_get_dns_proxy_status()`; `none` is `{}`.
unfoldable pub get_dns_proxy_status :
    Site → Urls → Device → Result (Option (String × Totals)) × Device
unfolding add_proxies status_of
get_dns_proxy_status site urls d =
    if is_false d.latches.dns_proxy_supported
    then (ok none, d)
    else settle_dns site urls (on_client (rci_get site "show/dns-proxy" none) d)
