-- ===== src/Coordinator/Requests/Served.antt =====
-- coordinator.py: the one-shot requests against an account of which of them are served.
use keenetic_router_pro.Prelude.{
  List, if◌then◌else◌, ◌≡◌, Option, some, ltb, ◌∷◌, ◌+◌, none, ◌≤◌, [], arith, refl,
}
use keenetic_router_pro.Coordinator.Requests.{
  OneShot, Pending, arm, consume, request_full_refresh, request_host_policies_refresh,
  request_update_check, consume_requests, ℕ, Bool, true, false,
}

pub data Kind : Type 0 where
  full host_policies update : Kind

-- What happens around the coordinator: a request, and the start and the end of a tick. The update lock
-- lets no tick start while another runs.
pub data Event : Type 0 where
  asked : Kind → Event
  started failed published : Event

pub record Machine : Type 0 where
  pub now : Pending
  pub running : Option Pending

abbrev pub ask : Kind → Pending → Pending
ask full p = request_full_refresh p
ask host_policies p = request_host_policies_refresh p
ask update p = request_update_check p

abbrev published_by : Option Pending → Pending → Pending
published_by none now = now
published_by (some before) now = consume_requests before now

abbrev begun : Option Pending → Pending → Pending
begun none now = now
begun (some before) now = before

abbrev pub step : Event → Machine → Machine
step (asked k) m = record m { now = ask k m.now }
step started m = record m { running = some (begun m.running m.now) }
step failed m = record m { running = none }
step published m = record { now = published_by m.running m.now; running = none }

abbrev pub run : List Event → Machine → Machine
run [] m = m
run (e ∷ es) m = run es (step e m)

-- The account of one kind: how many requests were made, how many the running tick began with, and how
-- many ticks have served.
pub record Account : Type 0 where
  pub made : ℕ
  pub begun_with : Option ℕ
  pub served : ℕ

abbrev pub same_kind : Kind → Kind → Bool
same_kind full full = true
same_kind host_policies host_policies = true
same_kind update update = true
same_kind _ _ = false

abbrev with_default : Option ℕ → ℕ → ℕ
with_default none n = n
with_default (some m) n = m

abbrev pub account : Kind → Event → Account → Account
account k (asked j) a = if same_kind k j then record a { made = a.made + 1 } else a
account k started a = record a { begun_with = some (with_default a.begun_with a.made) }
account k failed a = record a { begun_with = none }
account k published a = record a { begun_with = none; served = with_default a.begun_with a.served }

abbrev pub accounts : Kind → List Event → Account → Account
accounts k [] a = a
accounts k (e ∷ es) a = accounts k es (account k e a)

abbrev pub shot_of : Kind → Pending → OneShot
shot_of full p = p.full_refresh
shot_of host_policies p = p.host_policies_refresh
shot_of update p = p.update_check

-- The flag is up exactly while a request is not served.
abbrev pub IsAccounted : Account → OneShot → Type 0
IsAccounted a s = (s.token ≡ a.made) × (s.pending ≡ ltb a.served a.made) × (a.served ≤ a.made)

-- What the running tick read at its start.
abbrev pub IsBegun : Account → Option ℕ → Option OneShot → Type 0
IsBegun a none none = Unit {0}
IsBegun a (some n) (some before) =
    (before.token ≡ n) × (before.pending ≡ ltb a.served n) × (a.served ≤ n) × (n ≤ a.made)
IsBegun a _ _ = ⊥

abbrev pub shot_begun : Kind → Option Pending → Option OneShot
shot_begun k none = none
shot_begun k (some p) = some (shot_of k p)

abbrev pub IsRefined : Kind → Account → Machine → Type 0
IsRefined k a m = IsAccounted a (shot_of k m.now) × IsBegun a a.begun_with (shot_begun k m.running)

shot_of-ask :
    (k j : Kind) (p : Pending)
    → shot_of k (ask j p) ≡ (if same_kind k j then arm (shot_of k p) else shot_of k p)
unfolding request_full_refresh request_host_policies_refresh request_update_check
shot_of-ask full full p = refl
shot_of-ask full host_policies p = refl
shot_of-ask full update p = refl
shot_of-ask host_policies full p = refl
shot_of-ask host_policies host_policies p = refl
shot_of-ask host_policies update p = refl
shot_of-ask update full p = refl
shot_of-ask update host_policies p = refl
shot_of-ask update update p = refl

shot_of-consume :
    (k : Kind) (before now : Pending)
    → shot_of k (consume_requests before now) ≡ consume (shot_of k before) (shot_of k now)
unfolding consume_requests
shot_of-consume full before now = refl
shot_of-consume host_policies before now = refl
shot_of-consume update before now = refl

IsBegun-more :
    (a : Account) (b : Option ℕ) (o : Option OneShot)
    → IsBegun a b o
    → IsBegun (record a { made = a.made + 1 }) b o
IsBegun-more a none none h = h
IsBegun-more a (some n) (some before) h = (h.0, h.1, h.2, omega arith)
IsBegun-more a none (some before) h = h
IsBegun-more a (some n) none h = h

asked-IsRefined :
    (k j : Kind) (a : Account) (m : Machine)
    → IsRefined k a m
    → IsRefined k (account k (asked j) a) (step (asked j) m)
asked-IsRefined k j a m h =
    ground (arith, shot_of-ask k j m.now, IsBegun-more a a.begun_with (shot_begun k m.running) h.1)

started-IsBegun :
    (k : Kind) (a : Account) (b : Option ℕ) (now : Pending) (o : Option Pending)
    → IsAccounted a (shot_of k now)
    → IsBegun a b (shot_begun k o)
    → IsBegun a (some (with_default b a.made)) (shot_begun k (some (begun o now)))
started-IsBegun k a none now none h g = (h.0, h.1, h.2, omega arith)
started-IsBegun k a (some n) now (some before) h g = g
started-IsBegun k a none now (some before) h g = absurd g
started-IsBegun k a (some n) now none h g = absurd g

published-IsAccounted :
    (k : Kind) (a : Account) (b : Option ℕ) (now : Pending) (o : Option Pending)
    → IsAccounted a (shot_of k now)
    → IsBegun a b (shot_begun k o)
    → IsAccounted (record a { served = with_default b a.served }) (shot_of k (published_by o now))
published-IsAccounted k a none now none h g = h
published-IsAccounted k a (some n) now (some before) h g =
    ground (arith, shot_of-consume k before now)
published-IsAccounted k a none now (some before) h g = absurd g
published-IsAccounted k a (some n) now none h g = absurd g

step-IsRefined :
    (k : Kind) (e : Event) (a : Account) (m : Machine)
    → IsRefined k a m
    → IsRefined k (account k e a) (step e m)
step-IsRefined k (asked j) a m h = asked-IsRefined k j a m h
step-IsRefined k started a m h = (h.0, started-IsBegun k a a.begun_with m.now m.running h.0 h.1)
step-IsRefined k failed a m h = (h.0, tt)
step-IsRefined k published a m h =
    (published-IsAccounted k a a.begun_with m.now m.running h.0 h.1, tt)

-- From a state that agrees with the account of a kind, every run of requests, started, failed and
-- published ticks agrees with it: the flag of the kind is up exactly while some request is not served, and
-- a request is served only by a tick that began after it and published. None is lost by a failed tick or
-- by coming in the middle of one.
pub run-IsRefined :
    (k : Kind) (es : List Event) (a : Account) (m : Machine)
    → IsRefined k a m
    → IsRefined k (accounts k es a) (run es m)
run-IsRefined k [] a m h = h
run-IsRefined k (e ∷ es) a m h =
    run-IsRefined k es (account k e a) (step e m) (step-IsRefined k e a m h)
