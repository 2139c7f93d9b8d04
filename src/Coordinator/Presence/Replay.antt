-- ===== src/Coordinator/Presence/Replay.antt =====
-- coordinator.py: the presence diffs of a tick, played on the clients that were online.
use keenetic_router_pro.Prelude.{if◌then◌else◌}
use keenetic_router_pro.Utils.Clients.{is_client_online}
use keenetic_router_pro.Derived.{real_client_macs}
use keenetic_router_pro.Value.{get, truthy}
use keenetic_router_pro.Prelude.{
  any, [], ◌∷◌, ◌==◌, not, Bool, String, ◌≡◌, ◌||◌, ◌&&◌, false, arith, eq_iff, refl,
}
use keenetic_router_pro.Value.{Runtime, Fields}
use keenetic_router_pro.Coordinator.Presence.{
  Presence, minus, online_of, presence, Bool, List, mem, Dict, not, [], ◌∷◌,
}

pub mem-minus : (m : String) (a b : List String) → mem m (minus a b) ≡ (mem m a && not (mem m b))
unfolding minus
mem-minus m [] b = refl
mem-minus m (x ∷ a) b = ground (arith, mem-minus m a b, eq_iff x m)

mem-real_client_macs :
    (m : String) (clients_by_mac : Dict Fields)
    → mem m (real_client_macs clients_by_mac)
      ≡ any (λ entry. entry.0 == m && not (truthy (get "neighbour-only" entry.1))) clients_by_mac
unfolding real_client_macs
mem-real_client_macs m [] = refl
mem-real_client_macs m ((mac, client) ∷ rest) = ground (arith, mem-real_client_macs m rest)

module _ (rt : Runtime) (first_tick clients_stale : Bool) (clients_by_mac : Dict Fields)
    (previous_macs previous_online : List String) where
  abbrev pub published : Presence
  published = presence rt first_tick clients_stale clients_by_mac previous_macs previous_online

  -- A client after the tick's departures and arrivals.
  abbrev pub replayed : String → Bool
  replayed m =
      (mem m previous_online && not (mem m published.disconnected)) || mem m published.connected

  -- An online record of the index at this address.
  abbrev pub is_online_at : String → String × Fields → Bool
  is_online_at m entry = entry.0 == m && is_client_online rt entry.1

  mem-online_of :
      (m : String) (entries : Dict Fields)
      → mem m (online_of rt entries) ≡ any (is_online_at m) entries
  unfolding online_of
  mem-online_of m [] = refl
  mem-online_of m ((mac, client) ∷ rest) = ground (arith, mem-online_of m rest)

  -- A tick publishes as online the addresses with an online record in the index, or, where the list of
  -- clients is stale, those of the last tick. Playing its departures and arrivals on the clients that were
  -- online gives those that it publishes as online, except that the very first tick announces nobody. No
  -- client both arrives and departs, none arrives that was online, and none departs that was not.
  pub presence-replay :
      (m : String)
      → (mem m published.online
          ≡ (if clients_stale then mem m previous_online else any (is_online_at m) clients_by_mac))
        × (replayed m ≡ (if first_tick then mem m previous_online else mem m published.online))
        × ((mem m published.connected && mem m published.disconnected) ≡ false)
        × ((mem m published.connected && mem m previous_online) ≡ false)
        × ((mem m published.disconnected && not (mem m previous_online)) ≡ false)
  unfolding presence
  presence-replay m = ground (
    arith,
    mem-online_of m clients_by_mac,
    mem-minus m (online_of rt clients_by_mac) previous_online,
    mem-minus m previous_online (online_of rt clients_by_mac),
  )

  -- A record of the index at this address that is no neighbour-only one.
  abbrev pub is_client_at : String → String × Fields → Bool
  is_client_at m entry = entry.0 == m && not (truthy (get "neighbour-only" entry.1))

  -- A tick reports exactly the addresses as new that the index has a real client at and that were not
  -- known before: a host that only the neighbour table knows is no new device.
  pub presence-new_macs :
      (m : String)
      → mem m published.new_macs
        ≡ (any (is_client_at m) clients_by_mac && not (mem m previous_macs))
  unfolding presence
  presence-new_macs m = ground (
    arith,
    mem-minus m (real_client_macs clients_by_mac) previous_macs,
    mem-real_client_macs m clients_by_mac,
  )
