-- ===== src/Domains/PingCheck/Verdict.antt =====
-- api/domains/wan.py: what the verdict of a ping check means.
use keenetic_router_pro.Prelude.{
  String, List, [], ◌∷◌, true, false, Option, some, none, Bool, keep, any, first, All, ◌≡◌, refl,
  arith, Dict, not, Bool-cases, ◌==◌, sym, ◌∙◌, inl, inr, if◌then◌else◌,
}
use keenetic_router_pro.Value.{
  null, bool, int, float, str, list, dict, end, Runtime, bool, int, float,
}
use keenetic_router_pro.Domains.PingCheck.{
  Observation, PingCheck, entry, entries, aggregate, statuses, primary, has_status,
  is_test_net_only, get_ping_check_status, Result, ok, Site, err, Device, Value, is_false, Error,
  settle_ping_check, ping_checks_of, dict, ping_checks_in, end, str, list,
}

-- The profiles that count.
abbrev pub real : List Observation → List Observation
real os = keep (λ o. not (is_test_net_only o)) os

abbrev PrimaryHas : String → Option Observation → Type 0
PrimaryHas t none = ⊥
PrimaryHas t (some o) = has_status t o ≡ true

-- What a verdict says of the profiles that count: a failing one fails, and shows itself; where the interface
-- passes, none fails or reports another status, and a passing one shows itself; without a verdict none fails.
abbrev IsVerdict : List Observation → Option Bool → Option Observation → Type 0
IsVerdict os (some false) o = (any (has_status "fail") os ≡ true) × PrimaryHas "fail" o
IsVerdict os (some true) o =
    (any (has_status "fail") os ≡ false)
    × (any (λ s. not (s == "pass")) (statuses os) ≡ false)
    × PrimaryHas "pass" o
IsVerdict os none o = any (has_status "fail") os ≡ false

abbrev pub IsSound : PingCheck → Type 0
IsSound e = IsVerdict (real e.all_profiles) e.passing e.primary_profile

any-statuses :
    (t : String) (os : List Observation) → any (λ s. s == t) (statuses os) ≡ any (has_status t) os
unfolding statuses
any-statuses t [] = refl
any-statuses t (o ∷ os) = ground (arith, any-statuses t os)

module _ (p : Observation → Bool) where
  first-none : (os : List Observation) → any p os ≡ false → first p os ≡ none
  unfolding first
  first-none [] h = refl
  first-none (o ∷ os) h = ground (arith, first-none os)

  first-some :
      (os : List Observation)
      → any p os ≡ true
      → (o : Observation) × (first p os ≡ some o) × (p o ≡ true)
  unfolding first
  first-some [] h = cc
  first-some (o ∷ os) h = elim (Bool-cases (p o)) [
    | inl t ↦ (o, rw t refl, t)
    | inr f ↦ let r = first-some os (ground arith) in (r.0, rw f r.1, r.2)
  ]

primary-fail :
    (os : List Observation) → any (has_status "fail") os ≡ true → PrimaryHas "fail" (primary os)
unfolding primary
primary-fail os h = let r = first-some (has_status "fail") os h in rw r.1 r.2

primary-pass :
    (os : List Observation)
    → any (has_status "fail") os ≡ false
    → any (has_status "pass") os ≡ true
    → PrimaryHas "pass" (primary os)
unfolding primary
primary-pass os f h =
    let r = first-some (has_status "pass") os h in rw (first-none (has_status "fail") os f, r.1) r.2

some_passes :
    (s : String) (ss : List String)
    → any (λ t. not (t == "pass")) (s ∷ ss) ≡ false
    → any (λ t. t == "pass") (s ∷ ss) ≡ true
some_passes s ss h = ground arith

aggregate-IsVerdict :
    (os : List Observation) (ss : List String)
    → statuses os ≡ ss
    → IsVerdict os (aggregate ss).1 (primary os)
unfolding aggregate
aggregate-IsVerdict os [] e = sym (any-statuses "fail" os) ∙ rw e refl
aggregate-IsVerdict os (s ∷ ss) e = elim (Bool-cases (any (λ t. t == "fail") (s ∷ ss))) [
  | inl f ↦
      let failing = sym (any-statuses "fail" os) ∙ rw e f in rw f (failing, primary-fail os failing)
  | inr n ↦
      let calm = sym (any-statuses "fail" os) ∙ rw e n in
      elim (Bool-cases (any (λ t. not (t == "pass")) (s ∷ ss))) [
        | inl other ↦ rw (n, other) calm
        | inr passes ↦
            rw (n, passes, e)
              (
                calm,
                passes,
                primary-pass os calm
                    (sym (any-statuses "pass" os) ∙ rw e (some_passes s ss passes)),
              )
      ]
]

entries-AreSound : (found : Dict (List Observation)) → All (λ e. IsSound e.1) (entries found)
unfolding entries entry
entries-AreSound [] = tt
entries-AreSound ((iface_id, os) ∷ rest) =
    (aggregate-IsVerdict (real os) (statuses (real os)) refl, entries-AreSound rest)

abbrev pub AreSound : Result (Dict PingCheck) → Type 0
AreSound (ok checks) = All (λ e. IsSound e.1) checks
AreSound (err e) = Unit {0}

if_AreSound :
    (b : Bool) (e : Error) (checks : Dict PingCheck)
    → AreSound (ok checks)
    → AreSound (if b then err e else ok checks)
if_AreSound true e checks h = tt
if_AreSound false e checks h = h

ping_checks_of-AreSound : (rt : Runtime) (v : Value) → AreSound (ping_checks_of rt v)
ping_checks_of-AreSound rt (dict fs) = entries-AreSound _
ping_checks_of-AreSound rt null = if_AreSound _ _ (ping_checks_in rt end) (entries-AreSound _)
ping_checks_of-AreSound rt (bool b) = if_AreSound _ _ (ping_checks_in rt end) (entries-AreSound _)
ping_checks_of-AreSound rt (int z) = if_AreSound _ _ (ping_checks_in rt end) (entries-AreSound _)
ping_checks_of-AreSound rt (float x) = if_AreSound _ _ (ping_checks_in rt end) (entries-AreSound _)
ping_checks_of-AreSound rt (str s) = if_AreSound _ _ (ping_checks_in rt end) (entries-AreSound _)
ping_checks_of-AreSound rt (list xs) = if_AreSound _ _ (ping_checks_in rt end) (entries-AreSound _)

settle_ping_check-AreSound :
    (site : Site) (out : Result Value × Device) → AreSound (settle_ping_check site out).0
settle_ping_check-AreSound site (ok v, d) = ping_checks_of-AreSound site.runtime v
settle_ping_check-AreSound site (err e, d) = tt

-- For every interface, profiles that only target test networks aside: it is reported as failing only where
-- one of its profiles fails, and then a failing one is shown; as passing only where none fails and every
-- status that is known is a pass, and then a passing one is shown; and without a verdict only where none
-- fails.
pub get_ping_check_status-AreSound :
    (site : Site) (d : Device) → AreSound (get_ping_check_status site d).0
unfolding get_ping_check_status
get_ping_check_status-AreSound site d =
    elim (Bool-cases (is_false d.latches.ping_check_supported)) [
      | inl t ↦ rw t tt
      | inr f ↦ rw f (settle_ping_check-AreSound site _)
    ]
