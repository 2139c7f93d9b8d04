-- ===== src/Domains/PingCheck.antt =====
-- api/domains/wan.py: the ping check of the router, per interface.
pub mod Verdict
use keenetic_router_pro.Prelude.{
  String, List, [], ◌∷◌, ◌++◌, true, false, Option, some, none, Bool, keep, any, first, Dict, map,
  ◌==◌, ◌||◌, insert, if◌then◌else◌, lookup,
}
use text.Mathlib.Text.{starts_with}
use keenetic_router_pro.Value.{
  Value, null, dict, list, str, Items, nil, cons, Fields, end, field, get, has, or_else, truthy,
  Runtime,
}
use keenetic_router_pro.Text.{lower}
use keenetic_router_pro.Parsers.Helpers.{dict_items}
use keenetic_router_pro.Refresh.{is_false}
use keenetic_router_pro.Transport.Http.{Site, Result, Error, ok, err, other_error}
use keenetic_router_pro.Transport.Header.{is_endpoint_missing}
use keenetic_router_pro.Transport.Calls.{rci_get}
use keenetic_router_pro.Domains.{Device, on_client, not}

-- What one profile reports on one interface.
pub record Observation : Type 0 where
  pub profile : String
  pub status : Option String
  pub success_count : Value
  pub fail_count : Value
  pub check_hosts : List String
  pub check_addresses : List String
  pub check_port : Value
  pub check_mode : Value
  pub update_interval : Value
  pub max_fails : Value

abbrev pub or_texts : List String → List String → List String
or_texts [] later = later
or_texts found later = found

abbrev pub Observations : Type 0
Observations = Dict (List Observation)

module _ (rt : Runtime) where
  -- `[str(x) for x in xs if x]`.
  unfoldable pub texts : Items → List String
  texts nil = []
  texts (cons x xs) = let later = texts xs in if truthy x then rt.print x ∷ later else later

  abbrev pub texts_in : Value → List String
  texts_in (list xs) = texts xs
  texts_in v = []

  abbrev pub hosts_of : Value → List String
  hosts_of (str s) = s ∷ []
  hosts_of v = texts_in v

  abbrev host_entry : Value → List String → List String
  host_entry h later = if truthy h then rt.print h ∷ later else later

  -- The hosts and the addresses of the cache.
  unfoldable pub cache_hosts : Items → List String
  cache_hosts nil = []
  cache_hosts (cons (dict entry) rest) = host_entry (get "host" entry) (cache_hosts rest)
  cache_hosts (cons v rest) = cache_hosts rest

  unfoldable pub cache_addresses : Items → List String
  cache_addresses nil = []
  cache_addresses (cons (dict entry) rest) =
      texts_in (get "addresses" entry) ++ cache_addresses rest
  cache_addresses (cons v rest) = cache_addresses rest

  abbrev cache_of : Value → Items
  cache_of (list xs) = xs
  cache_of v = nil

  abbrev or_none : String → Option String
  or_none s = if s == "" then none else some s

  unfoldable pub observation : Fields → Fields → Observation
  unfolding texts cache_hosts cache_addresses
  observation profile result = record {
    profile = rt.print (or_else (get "profile" profile) (str ""));
    status = or_none (lower (rt.print (or_else (get "status" result) (str ""))));
    success_count = get "successcount" result;
    fail_count = get "failcount" result;
    check_hosts =
        or_texts (cache_hosts (cache_of (get "ipcache" result))) (hosts_of (get "host" profile));
    check_addresses = cache_addresses (cache_of (get "ipcache" result));
    check_port = get "port" profile;
    check_mode = get "mode" profile;
    update_interval = get "update-interval" profile;
    max_fails = get "max-fails" profile;
  }

  abbrev so_far : Option (List Observation) → List Observation
  so_far none = []
  so_far (some os) = os

  -- `observations.setdefault(iface_id, []).append(observation)`.
  unfoldable pub observe : String → Observation → Observations → Observations
  observe iface_id o os = insert iface_id (so_far (lookup iface_id os) ++ (o ∷ [])) os

  unfoldable pub observe_results : Fields → Fields → Observations → Observations
  unfolding observe observation
  observe_results profile end os = os
  observe_results profile (field iface_id (dict result) rest) os =
      observe_results profile rest (observe iface_id (observation profile result) os)
  observe_results profile (field iface_id v rest) os = observe_results profile rest os

  abbrev observe_profile : Fields → Value → Observations → Observations
  observe_profile profile (dict iface_map) os = observe_results profile iface_map os
  observe_profile profile v os = os

  unfoldable pub observe_profiles : List Fields → Observations → Observations
  unfolding observe_results
  observe_profiles [] os = os
  observe_profiles (profile ∷ rest) os =
      observe_profiles rest (observe_profile profile (get "interface" profile) os)

abbrev starts_test_net : String → Bool
starts_test_net c =
    starts_with c "192.0.2." || starts_with c "198.51.100." || starts_with c "203.0.113."

abbrev all_test_net : List String → Bool
all_test_net [] = false
all_test_net candidates = not (any (λ c. not (starts_test_net c)) candidates)

-- `_is_test_net_only(observation)`: the addresses decide, and the hosts where there is none.
unfoldable pub is_test_net_only : Observation → Bool
is_test_net_only o =
    all_test_net (keep (λ x. not (x == "")) (or_texts o.check_addresses o.check_hosts))

-- The statuses that are known.
unfoldable pub statuses : List Observation → List String
statuses [] = []
statuses (o ∷ os) = elim o.status [ none ↦ statuses os | some s ↦ s ∷ statuses os ]

unfoldable pub last : String → List String → String
last s [] = s
last s (t ∷ ts) = last t ts

-- The aggregate status and whether the interface passes.
unfoldable pub aggregate : List String → Option String × Option Bool
unfolding last
aggregate [] = (none, none)
aggregate (s ∷ ss) =
    if any (λ t. t == "fail") (s ∷ ss)
    then (some "fail", some false)
    else if not (any (λ t. not (t == "pass")) (s ∷ ss))
    then (some "pass", some true)
    else (some (last s ss), none)

abbrev pub has_status : String → Observation → Bool
has_status t o = elim o.status [ none ↦ false | some s ↦ s == t ]

abbrev or_first : Option Observation → Option Observation → Option Observation
or_first none later = later
or_first (some o) later = some o

abbrev head : List Observation → Option Observation
head [] = none
head (o ∷ os) = some o

-- The winning profile: the first that fails, else the first that passes, else the first.
unfoldable pub primary : List Observation → Option Observation
primary os =
    or_first (first (has_status "fail") os) (or_first (first (has_status "pass") os) (head os))

-- The entry of an interface; its flat fields are those of the primary profile.
pub record PingCheck : Type 0 where
  pub status : Option String
  pub passing : Option Bool
  pub primary_profile : Option Observation
  pub all_profiles : List Observation
  pub ignored_profiles : List String

-- A profile is ignored exactly if it only targets test networks: equal profiles do so together.
unfoldable pub entry : List Observation → PingCheck
unfolding aggregate statuses primary is_test_net_only
entry os =
    let real = keep (λ o. not (is_test_net_only o)) os in
    record {
      status = (aggregate (statuses real)).0;
      passing = (aggregate (statuses real)).1;
      primary_profile = primary real;
      all_profiles = os;
      ignored_profiles = map (λ o. o.profile) (keep is_test_net_only os);
    }

unfoldable pub entries : Dict (List Observation) → Dict PingCheck
unfolding entry
entries [] = []
entries ((iface_id, os) ∷ rest) = (iface_id, entry os) ∷ entries rest

-- A single profile may come without the list around it.
abbrev profiles_of : Value → List Fields
profiles_of (dict fs) =
    if has "interface" fs || has "profile" fs || has "host" fs
    then fs ∷ []
    else dict_items (dict fs)
profiles_of v = dict_items v

abbrev pub ping_checks_in : Runtime → Fields → Dict PingCheck
ping_checks_in rt data_ =
    entries (observe_profiles rt (profiles_of (or_else (get "pingcheck" data_) (list nil))) [])

abbrev latch_ping_check : Bool → Device → Device
latch_ping_check b d = record d { latches = record d.latches { ping_check_supported = some b } }

-- A payload with content that is no dict has no `get`.
abbrev pub ping_checks_of : Runtime → Value → Result (Dict PingCheck)
ping_checks_of rt (dict fs) = ok (ping_checks_in rt fs)
ping_checks_of rt v =
    if truthy v then err (other_error "AttributeError") else ok (ping_checks_in rt end)

abbrev pub settle_ping_check : Site → Result Value × Device → Result (Dict PingCheck) × Device
settle_ping_check site (ok v, d) = (ping_checks_of site.runtime v, latch_ping_check true d)
settle_ping_check site (err e, d) =
    (ok [], if is_endpoint_missing e then latch_ping_check false d else d)

-- `async_get_ping_check_status()`.
unfoldable pub get_ping_check_status : Site → Device → Result (Dict PingCheck) × Device
unfolding entries observe_profiles
get_ping_check_status site d =
    if is_false d.latches.ping_check_supported
    then (ok [], d)
    else settle_ping_check site (on_client (rci_get site "show/ping-check" none) d)
