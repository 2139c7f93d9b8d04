-- ===== src/Utils/Clients/Tracking.antt =====
-- utils.py, `iter_tracked_clients`: the addresses of the tracked clients.
use keenetic_router_pro.Prelude.{
  String, false, ◌≡◌, inl, inr, List, [], ◌∷◌, mem, Bool-cases, ◌==◌, eq_iff,
}
use keenetic_router_pro.Value.{Value, Fields, get, Runtime, dicts}
use keenetic_router_pro.Utils.Mac.{normalize_mac}
use keenetic_router_pro.Utils.Mac.Shape.{IsMac, normalize_mac_shape}
use keenetic_router_pro.Utils.Clients.{Tracked, tracked_from, iter_tracked_clients}

-- The macs are new to `seen` and to one another, and each is a proper address.
abbrev pub AreFresh : List String → List Tracked → Type 0
AreFresh seen [] = Unit
AreFresh seen (t ∷ ts) = IsMac t.mac × (mem t.mac seen ≡ false) × AreFresh (t.mac ∷ seen) ts

module _ (rt : Runtime) where
  IsMac-of_ne : (v : Value) → (normalize_mac rt v == "") ≡ false → IsMac (normalize_mac rt v)
  IsMac-of_ne v h = elim (normalize_mac_shape rt v) [
    | inl e ↦ cc (h, (eq_iff (normalize_mac rt v) "").1 e)
    | inr m ↦ m
  ]

  tracked_from-AreFresh :
      (seen : List String) (infos : List Fields) → AreFresh seen (tracked_from rt seen infos)
  unfolding tracked_from
  tracked_from-AreFresh seen [] = tt
  tracked_from-AreFresh seen (info ∷ rest) =
      elim (Bool-cases (normalize_mac rt (get "mac" info) == "")) [
        | inl e ↦ rw e (tracked_from-AreFresh seen rest)
        | inr p ↦ elim (Bool-cases (mem (normalize_mac rt (get "mac" info)) seen)) [
          | inl q ↦ rw (p, q) (tracked_from-AreFresh seen rest)
          | inr q ↦
              rw (p, q)
                (
                  IsMac-of_ne (get "mac" info) p,
                  q,
                  tracked_from-AreFresh (normalize_mac rt (get "mac" info) ∷ seen) rest,
                )
        ]
      ]

  -- The tracked clients have proper MAC addresses, pairwise different, whatever the configuration
  -- lists.
  pub iter_tracked_clients-AreFresh :
      (infos : List Value) → AreFresh [] (iter_tracked_clients rt infos)
  unfolding iter_tracked_clients
  iter_tracked_clients-AreFresh infos = tracked_from-AreFresh [] (dicts infos)
