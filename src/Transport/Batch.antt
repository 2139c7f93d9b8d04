-- ===== src/Transport/Batch.antt =====
-- api/transport.py: the composite request of a tick, the latch of its support, and the tick cache.
use keenetic_router_pro.Prelude.{
  Bool, none, Option, if◌then◌else◌, some, not, eqb, false, true, ◌||◌,
}
use keenetic_router_pro.Value.{Value, dict, Fields, truthy}
use keenetic_router_pro.Transport.Http.{
  Site, Error, Result, Client, post_method, ok, api_error, err, other_error,
}
use keenetic_router_pro.Transport.Header.{is_endpoint_missing}
use keenetic_router_pro.Refresh.{is_false}
use keenetic_router_pro.Transport.Calls.{request, Call}

abbrev pub latch : Bool → Client → Client
latch b c = record c { rci_batch_supported = some b }

-- `_is_endpoint_missing(err) or getattr(err, "status", None) == 405`.
is_405 : Error → Bool
is_405 (api_error m (some status)) = eqb status 405
is_405 _ = false

refuses_batch : Error → Bool
unfolding is_405
refuses_batch e = is_endpoint_missing e || is_405 e

-- What `_rci_batch` makes of the call: a KeeneticApiError is caught, another exception is not.
unfoldable pub settle_batch : Result Value × Client → Result (Option Fields) × Client
unfolding refuses_batch
settle_batch (ok (dict fs), c) = (ok (some fs), latch true c)
settle_batch (ok v, c) = (ok none, latch false c)
settle_batch (err (other_error e), c) = (err (other_error e), c)
settle_batch (err e, c) = (ok none, if refuses_batch e then latch false c else c)

abbrev pub batch_call : Fields → Call
batch_call tree = record {
  method = post_method;
  path = "/rci/";
  params = none;
  json = some (dict tree);
  allow_text = false;
}

-- `_rci_batch(tree)`, for a tree that is a dict.
unfoldable pub rci_batch : Site → Fields → Client → Result (Option Fields) × Client
rci_batch site tree c =
    if not (truthy (dict tree)) || is_false c.rci_batch_supported
    then (ok none, c)
    else settle_batch (request site (batch_call tree) c)

abbrev pub keep_result : Result (Option Fields) × Client → Result Bool × Client
keep_result (ok none, c) = (ok false, record c { tick_cache = none })
keep_result (ok (some fs), c) = (ok true, record c { tick_cache = some fs })
keep_result (err e, c) = (err e, c)

-- `prefetch_tick(tree)`.
unfoldable pub prefetch_tick : Site → Fields → Client → Result Bool × Client
prefetch_tick site tree c = keep_result (rci_batch site tree c)

-- `clear_tick_cache()`.
unfoldable pub clear_tick_cache : Client → Client
clear_tick_cache c = record c { tick_cache = none }
