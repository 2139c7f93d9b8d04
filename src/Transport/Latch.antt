-- ===== src/Transport/Latch.antt =====
-- api/transport.py: the composite request and what it latches.
use keenetic_router_pro.Prelude.{Bool, arith, ◌≡◌, some, is_some, false, none, true, refl}
use keenetic_router_pro.Value.{Value, dict, Fields}
use keenetic_router_pro.Transport.Http.{
  Site, Result, Client, ok, err, other_error, api_error, auth_error,
}
use keenetic_router_pro.Transport.Calls.{request}
use keenetic_router_pro.Transport.Batch.{
  keep_result, rci_batch, settle_batch, prefetch_tick, batch_call,
}

-- What a tick's prefetch may do: fill the cache and latch the support of the composite request, or empty
-- the cache; the only exception that leaves it is none of the client's own.
abbrev pub IsPrefetch : Client → Result Bool × Client → Type 0
IsPrefetch c (ok true, c') = (is_some c'.tick_cache ≡ true) × (c'.rci_batch_supported ≡ some true)
IsPrefetch c (ok false, c') = c'.tick_cache ≡ none
IsPrefetch c (err (other_error e), c') = Unit {0}
IsPrefetch c (err e, c') = ⊥

module _ (site : Site) where
  settle_batch-IsPrefetch :
      (c : Client) (out : Result Value × Client) → IsPrefetch c (keep_result (settle_batch out))
  unfolding settle_batch
  settle_batch-IsPrefetch c (ok (dict fs), c') = (refl, refl)
  settle_batch-IsPrefetch c (ok _, c') = refl
  settle_batch-IsPrefetch c (err (other_error e), c') = tt
  settle_batch-IsPrefetch c (err (api_error m s), c') = ground arith
  settle_batch-IsPrefetch c (err (auth_error m), c') = ground arith

  -- `prefetch_tick` returns True exactly when it filled the tick cache, which also latches the composite
  -- request as supported; on False the cache is empty. KeeneticApiError and KeeneticAuthError never leave it.
  pub prefetch_tick-IsPrefetch :
      (tree : Fields) (c : Client) → IsPrefetch c (prefetch_tick site tree c)
  unfolding prefetch_tick rci_batch
  prefetch_tick-IsPrefetch tree c =
      ground (arith, settle_batch-IsPrefetch c (request site (batch_call tree) c))
