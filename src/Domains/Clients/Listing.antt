-- ===== src/Domains/Clients/Listing.antt =====
-- api/domains/clients.py: the endpoint that lists the clients, and its latches.
use keenetic_router_pro.Prelude.{
  String, List, [], ◌∷◌, true, false, Option, some, none, Bool, ◌≡◌, refl, Bool-cases, inl, inr,
  ◌==◌,
}
use keenetic_router_pro.Value.{Value, Fields}
use keenetic_router_pro.Transport.Http.{
  Site, Client, Result, Error, ok, err, api_error, auth_error, other_error,
}
use keenetic_router_pro.Transport.Header.{is_endpoint_missing}
use keenetic_router_pro.Transport.Calls.{rci_get}
use keenetic_router_pro.Domains.{Device, on_client}
use keenetic_router_pro.Domains.Clients.{
  get_clients, try_paths, settle_fetch, ordered_paths, set_winner, skip_path, mem,
  nested_dict_items, take_items,
}

-- The latched path is not skipped, and the last call, which left the client as it is, asked this path and
-- got the clients.
abbrev pub IsSource : Site → List Fields → Device → Type 0
IsSource site found d =
    (p : String) × (data_ : Value) × (before : Client) × (d.latches.hotspot_subpath_winner ≡ some p)
    × (mem p d.latches.hotspot_subpath_skip ≡ false)
    × (rci_get site p none before ≡ (ok data_, d.client))
    × (nested_dict_items data_ ("hosts" ∷ "host" ∷ "items" ∷ []) ≡ found)

abbrev IsTransient : Error → Type 0
IsTransient (other_error m) = Unit {0}
IsTransient e = is_endpoint_missing e ≡ false

-- Clients latch the path they came from. Without clients the latched path stays, and what is raised is not
-- that the router has no such endpoint.
abbrev pub IsListing : Site → Option String → Result (List Fields) × Device → Type 0
IsListing site winner (ok [], d) = d.latches.hotspot_subpath_winner ≡ winner
IsListing site winner (ok found, d) = IsSource site found d
IsListing site winner (err e, d) = (d.latches.hotspot_subpath_winner ≡ winner) × IsTransient e

abbrev IsTransientIf : Option Error → Type 0
IsTransientIf none = Unit {0}
IsTransientIf (some e) = IsTransient e

-- What the turns that follow keep.
abbrev AreTurns : Site → (Option Error → Bool → Device → Result (List Fields) × Device) → Type 0
AreTurns site go =
    (last : Option Error) (success : Bool) (d : Device)
    → IsTransientIf last
    → IsListing site d.latches.hotspot_subpath_winner (go last success d)

settle_fetch-IsListing :
    (site : Site) (p : String) (go : Option Error → Bool → Device → Result (List Fields) × Device)
    → AreTurns site go
    → (last : Option Error) (success : Bool) (out : Result Value × Device) (before : Client)
    → rci_get site p none before ≡ (out.0, out.1.client)
    → mem p out.1.latches.hotspot_subpath_skip ≡ false
    → IsTransientIf last
    → IsListing site out.1.latches.hotspot_subpath_winner (settle_fetch p go last success out)
unfolding settle_fetch
settle_fetch-IsListing site p go h last success (ok data_, d) before asked free t =
    elim (nested_dict_items data_ ("hosts" ∷ "host" ∷ "items" ∷ []))
        as (λ found.
          nested_dict_items data_ ("hosts" ∷ "host" ∷ "items" ∷ []) ≡ found
          → IsListing site d.latches.hotspot_subpath_winner (take_items p go last d found)) [
            | [] ↦ λ e. h last true d t
            | x ∷ xs ↦ λ e. (p, data_, before, refl, free, asked, e)
          ]
      refl
settle_fetch-IsListing site p go h last success (err (other_error m), d) before asked free t =
    (refl, tt)
settle_fetch-IsListing site p go h last success (err (auth_error m), d) before asked free t =
    elim (Bool-cases (is_endpoint_missing (auth_error m))) [
      | inl e ↦ rw e (h last success (skip_path p d) t)
      | inr e ↦ rw e (h (some (auth_error m)) success d e)
    ]
settle_fetch-IsListing site p go h last success (err (api_error m s), d) before asked free t =
    elim (Bool-cases (is_endpoint_missing (api_error m s))) [
      | inl e ↦ rw e (h last success (skip_path p d) t)
      | inr e ↦ rw e (h (some (api_error m s)) success d e)
    ]

try_paths-AreTurns : (site : Site) (ps : List String) → AreTurns site (try_paths site ps)
unfolding try_paths
try_paths-AreTurns site [] none success d t = refl
try_paths-AreTurns site [] (some e) true d t = refl
try_paths-AreTurns site [] (some e) false d t = (refl, t)
try_paths-AreTurns site (p ∷ ps) last success d t =
    elim (Bool-cases (mem p d.latches.hotspot_subpath_skip)) [
      | inl e ↦ rw e (try_paths-AreTurns site ps last success d t)
      | inr e ↦ rw e (
          settle_fetch-IsListing site p (try_paths site ps) (try_paths-AreTurns site ps) last
            success (on_client (rci_get site p none) d) d.client refl e t)
    ]

-- Where the client list comes with clients, the endpoint whose answer it is is latched and is not one that
-- the router was found not to have. Where it comes empty or fails, the latch is as before; and that an
-- endpoint is missing is never what it fails with.
pub get_clients-IsListing :
    (site : Site) (d : Device)
    → IsListing site d.latches.hotspot_subpath_winner (get_clients site d)
unfolding get_clients
get_clients-IsListing site d = try_paths-AreTurns site _ none false d tt

-- A latched endpoint that is not skipped and that answers with clients is the only one that is asked: the
-- result, the client and the latch are those of this one call.
pub winner-asked_alone :
    (site : Site) (d : Device) (w : String) (data_ : Value) (c : Client) (x : Fields)
    (xs : List Fields)
    → d.latches.hotspot_subpath_winner ≡ some w
    → (w == "") ≡ false
    → mem w d.latches.hotspot_subpath_skip ≡ false
    → rci_get site w none d.client ≡ (ok data_, c)
    → nested_dict_items data_ ("hosts" ∷ "host" ∷ "items" ∷ []) ≡ x ∷ xs
    → get_clients site d ≡ (ok (x ∷ xs), set_winner w (record d { client = c }))
unfolding get_clients ordered_paths try_paths settle_fetch
winner-asked_alone site d w data_ c x xs latched named free asked found =
    rw (latched, named, free, free, asked, found) refl
