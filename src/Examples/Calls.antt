-- ===== src/Examples/Calls.antt =====
-- Calls against a router that is down, one that refuses Basic, and one that answers.
use keenetic_router_pro.Prelude.{true, List, false, none, ℕ, refl, arith, []}
use keenetic_router_pro.Value.{dict, Fields, end, field}
use keenetic_router_pro.Transport.Http.{Site, Client, Reply, Request, response, read}
use keenetic_router_pro.Transport.Calls.{request, Call, get_call}
use keenetic_router_pro.Transport.Batch.{prefetch_tick}
use keenetic_router_pro.Transport.Auth.{ensure_auth}
use keenetic_router_pro.Transport.Outage.{IsDown, AsksNoPassword, outage-AsksNoPassword}
use keenetic_router_pro.Transport.Session.{IsOutcome, ensure_auth-IsOutcome}
use keenetic_router_pro.Transport.Counting.{SendsAtMost, request-SendsAtMost_8}
use keenetic_router_pro.Transport.Latch.{IsPrefetch, prefetch_tick-IsPrefetch}
use keenetic_router_pro.Examples.Setting.{plain}

abbrev status_only : ℕ → Reply
status_only status = response (record {
  status = status;
  headers = [];
  drained = read tt;
  text = read "busy";
  json = read (dict end);
})

abbrev pub site_of : (List Request → Request → Reply) → Site
site_of answer = record {
  base = "http://192.168.1.1:100";
  username = "admin";
  password = "secret";
  runtime = plain;
  base64 = λ s. s;
  md5 = λ s. s;
  sha256 = λ s. s;
  redact = λ s. s;
  repr = λ s. s;
  answer = answer;
}

abbrev down_site : Site
down_site = site_of (λ log r. status_only 503)

abbrev refusing_site : Site
refusing_site = site_of (λ log r. status_only 401)

abbrev pub open_site : Site
open_site = site_of (λ log r. status_only 200)

abbrev pub new_client : Client
new_client = record {
  has_session = true;
  authenticated = false;
  use_challenge_auth = false;
  auth_header = none;
  rci_batch_supported = none;
  tick_cache = none;
  sent = [];
}

abbrev system_call : Call
system_call = get_call "show/system" none

always-IsDown : (log : List Request) (r : Request) → IsDown (down_site.answer log r)
always-IsDown log r = omega arith

outage-AsksNoPassword_example : AsksNoPassword (request down_site system_call new_client).0
outage-AsksNoPassword_example =
    outage-AsksNoPassword down_site always-IsDown system_call new_client refl

ensure_auth-IsOutcome_example : IsOutcome false (ensure_auth refusing_site new_client)
ensure_auth-IsOutcome_example = ensure_auth-IsOutcome refusing_site new_client refl

request-SendsAtMost_8_example :
    SendsAtMost 8 new_client (request refusing_site system_call new_client)
request-SendsAtMost_8_example = request-SendsAtMost_8 refusing_site system_call new_client

abbrev system_tree : Fields
system_tree = field "show" (dict (field "system" (dict end) end)) end

prefetch_tick-IsPrefetch_example :
    IsPrefetch new_client (prefetch_tick open_site system_tree new_client)
prefetch_tick-IsPrefetch_example = prefetch_tick-IsPrefetch open_site system_tree new_client
