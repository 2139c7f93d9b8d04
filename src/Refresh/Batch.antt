-- ===== src/Refresh/Batch.antt =====
-- coordinator_parts/refresh.py, `build_batch_tree`: the paths of the composite request.
use keenetic_router_pro.Prelude.{
  String, Bool, true, false, not, ◌&&◌, ◌≡◌, refl, List, [], ◌∷◌, All, mem, arith, if◌then◌else◌,
  ◌∙◌, eqb,
}
use keenetic_router_pro.Value.{Fields, end}
use Prim.Native.Char.{Char, code}
use keenetic_router_pro.Text.{split, push_front}
use keenetic_router_pro.Refresh.{RefreshPlan, add, add_segments, build_batch_tree}
use keenetic_router_pro.Prelude.{any, ◌||◌}
use keenetic_router_pro.Refresh.Tree.{
  leads_to, present-add_segments, present, apart, present-add_self, present-add_apart,
}

-- A path with the condition under which a tick asks for it.
pub record Request : Type 0 where
  pub wanted : Bool
  pub path : String

abbrev ask : Bool → String → Request
ask wanted path = record { wanted = wanted; path = path }

-- The tiers: what every tick asks for, what the slow and the very slow tier add, and the daily check.
abbrev pub requests : RefreshPlan → Bool → Bool → List Request
requests plan needs_clients include_mesh =
    ask true "show/system"
    ∷ ask true "show/interface"
    ∷ ask true "show/ip/neighbour"
    ∷ ask needs_clients "show/ip/hotspot"
    ∷ ask true "show/ping-check"
    ∷ ask plan.ipsec_status_refresh "show/ipsec"
    ∷ ask (plan.slow_refresh && include_mesh) "show/mws/member"
    ∷ ask plan.very_slow_refresh "show/version"
    ∷ ask plan.very_slow_refresh "show/ndns"
    ∷ ask plan.very_slow_refresh "show/dns-proxy"
    ∷ ask plan.update_check_refresh "components/check-update"
    ∷ []

abbrev pub segments : String → List String
segments path = split b'/' path

add_all : List String → List Request → Fields → Fields
add_all unsupported [] t = t
add_all unsupported (r ∷ rs) t =
    add_all unsupported rs (if r.wanted then add unsupported r.path t else t)

apart_from : String → List Request → Bool
apart_from q [] = true
apart_from q (r ∷ rs) =
    (apart (segments r.path) (segments q) && apart (segments q) (segments r.path))
    && apart_from q rs

all_apart : List Request → Bool
all_apart [] = true
all_apart (r ∷ rs) = apart_from r.path rs && all_apart rs

nonempty : List String → Bool
nonempty [] = false
nonempty (x ∷ xs) = true

nonempty-split : (s : String) → nonempty (segments s) ≡ true
unfolding split nonempty
nonempty-split String.[] = refl
nonempty-split (String.◌∷◌ c s) = nonempty_after (eqb (code c) b'/') c (segments s)
  where
    nonempty_after :
        (b : Bool) (c : Char) (ps : List String)
        → nonempty (if b then "" ∷ ps else push_front c ps) ≡ true
    nonempty_after true c ps = refl
    nonempty_after false c [] = refl
    nonempty_after false c (p ∷ ps) = refl

present-add_nonempty :
    (ps : List String) (t : Fields) → nonempty ps ≡ true → present ps (add_segments ps t) ≡ true
unfolding nonempty
present-add_nonempty [] t h = cc
present-add_nonempty (p ∷ ps) t h = present-add_self p ps t

-- A path that `add` can be asked for, since a split is never empty.
present-add_split :
    (path : String) (t : Fields) → present (segments path) (add_segments (segments path) t) ≡ true
present-add_split path t = present-add_nonempty (segments path) t (nonempty-split path)

module _ (unsupported : List String) where
  step : Request → Fields → Fields
  step r t = if r.wanted then add unsupported r.path t else t

  present-step-apart :
      (r : Request) (q : String) (t : Fields)
      → apart (segments r.path) (segments q) ≡ true
      → present (segments q) (step r t) ≡ present (segments q) t
  unfolding step add
  present-step-apart r q t h = ground (arith, present-add_apart (segments r.path) (segments q) t h)

  present-step_self :
      (r : Request) (t : Fields)
      → present (segments r.path) t ≡ false
      → present (segments r.path) (step r t) ≡ (r.wanted && not (mem r.path unsupported))
  unfolding step add
  present-step_self r t h = ground (arith, present-add_split r.path t)

  present-add_all_apart :
      (q : String) (rs : List Request) (t : Fields)
      → apart_from q rs ≡ true
      → present (segments q) (add_all unsupported rs t) ≡ present (segments q) t
  unfolding add_all apart_from step
  present-add_all_apart q [] t h = refl
  present-add_all_apart q (r ∷ rs) t h =
      ground (arith, present-add_all_apart q rs (step r t), present-step-apart r q t)

  -- Each path is in the tree exactly if it is asked for and supported.
  abbrev pub AreAnswered : List Request → Fields → Type 0
  AreAnswered rs t =
      All (λ r. present (segments r.path) t ≡ (r.wanted && not (mem r.path unsupported))) rs

  abbrev AreAbsent : List Request → Fields → Type 0
  AreAbsent rs t = All (λ r. present (segments r.path) t ≡ false) rs

  AreAbsent-step :
      (r : Request) (rs : List Request) (t : Fields)
      → apart_from r.path rs ≡ true
      → AreAbsent rs t
      → AreAbsent rs (step r t)
  unfolding apart_from
  AreAbsent-step r [] t a h = tt
  AreAbsent-step r (q ∷ rs) t a h =
      (present-step-apart r q.path t (ground arith) ∙ h.0, AreAbsent-step r rs t (ground arith) h.1)

  -- The loop that adds every request answers each of them.
  answered :
      (rs : List Request) (t : Fields)
      → all_apart rs ≡ true
      → AreAbsent rs t
      → AreAnswered rs (add_all unsupported rs t)
  unfolding all_apart add_all step
  answered [] t a h = tt
  answered (r ∷ rs) t a h = (
    present-add_all_apart r.path rs (step r t) (ground arith) ∙ present-step_self r t h.0,
    answered rs (step r t) (ground arith) (AreAbsent-step r rs t (ground arith) h.1),
  )

module _ (unsupported : List String) (q : List String) where
  -- The request asks for the path, or for one below it.
  abbrev pub asks_for : Request → Bool
  asks_for r = r.wanted && not (mem r.path unsupported) && leads_to q (segments r.path)

  present-step :
      (r : Request) (t : Fields) → present q (step unsupported r t) ≡ (present q t || asks_for r)
  unfolding step add
  present-step r t = ground (arith, present-add_segments (segments r.path) q t)

  present-add_all :
      (rs : List Request) (t : Fields)
      → present q (add_all unsupported rs t) ≡ (present q t || any asks_for rs)
  unfolding add_all step
  present-add_all [] t = ground arith
  present-add_all (r ∷ rs) t =
      ground (arith, present-add_all rs (step unsupported r t), present-step r t)

-- The composite request of a tick holds exactly the paths that its tiers ask for and that the router
-- did not refuse before: each of them, and no path but them and those that lead to one of them.
pub build_batch_tree-AreAnswered :
    (plan : RefreshPlan) (needs_clients : Bool) (unsupported : List String) (include_mesh : Bool)
    → AreAnswered unsupported
        (requests plan needs_clients include_mesh)
        (build_batch_tree plan needs_clients unsupported include_mesh)
      × ((seg : String) (segs : List String)
          → present (seg ∷ segs) (build_batch_tree plan needs_clients unsupported include_mesh)
            ≡ any (asks_for unsupported (seg ∷ segs)) (requests plan needs_clients include_mesh))
unfolding build_batch_tree add_all step all_apart apart_from apart present split
    keenetic_router_pro.Value.has
build_batch_tree-AreAnswered plan needs_clients unsupported include_mesh = (
  answered unsupported (requests plan needs_clients include_mesh) end refl
      (refl, (refl, (refl, (refl, (refl, (refl, (refl, (refl, (refl, (refl, (refl, tt))))))))))),
  λ seg segs.
      present-add_all unsupported (seg ∷ segs) (requests plan needs_clients include_mesh) end,
)
