-- ===== src/Transport/Target/Bounds.antt =====
-- api/target.py: what an accepted address looks like.
use keenetic_router_pro.Prelude.{
  String, Bool, true, false, Option, some, none, ℤ, ◌≡◌, arith, ◌==◌, if◌then◌else◌,
}
use keenetic_router_pro.Transport.Http.{Result, ok, err}
use keenetic_router_pro.Text.{includes, ◌<>◌}
use keenetic_router_pro.Transport.Target.{
  Parsed, Parsers, KeeneticConnectionTarget, normalize_connection_target, target_of, has_space,
  in_range, refuse, of_parsed, strip, parse_target, bracketed,
}

-- A host without blanks and a port that exists.
abbrev pub IsTarget : Result KeeneticConnectionTarget → Type 0
IsTarget (ok t) = (in_range t.port ≡ true) × ((t.host == "") ≡ false) × (has_space t.host ≡ false)
IsTarget (err e) = Unit {0}

target_of-IsTarget :
    (raw_host : String) (p : Parsed) (port : ℤ) (ssl : Bool)
    → IsTarget (target_of raw_host p port ssl)
unfolding target_of
target_of-IsTarget raw_host p port ssl = ground arith

of_parsed-IsTarget :
    (raw_host : String) (o : Option Parsed) (port : ℤ) (ssl : Bool)
    → IsTarget (of_parsed raw_host o port ssl)
of_parsed-IsTarget raw_host none port ssl = tt
of_parsed-IsTarget raw_host (some p) port ssl = target_of-IsTarget raw_host p port ssl

if_IsTarget :
    (b : Bool) (x y : Result KeeneticConnectionTarget)
    → IsTarget x
    → IsTarget y
    → IsTarget (if b then x else y)
if_IsTarget true x y p q = p
if_IsTarget false x y p q = q

-- An address that is accepted has a host that is not empty and holds no blank, and a port from 1 to 65535,
-- whether the port stood in the URL or in the configuration and whatever the URL parser read.
pub normalize_connection_target-IsTarget :
    (ps : Parsers) (host : String) (port : ℤ) (ssl : Bool)
    → IsTarget (normalize_connection_target ps host port ssl)
unfolding normalize_connection_target
normalize_connection_target-IsTarget ps host port ssl =
    if_IsTarget (strip host == "") (refuse "Host is required")
      (parse_target ps (bracketed ps (strip host)) port ssl) tt
      (of_parsed-IsTarget (bracketed ps (strip host))
        (ps.urlparse (
          if includes "://" (bracketed ps (strip host))
          then bracketed ps (strip host)
          else "//" <> bracketed ps (strip host)))
        port ssl)
