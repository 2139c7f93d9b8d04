-- ===== src/Coordinator/Presence.antt =====
-- coordinator.py: who arrived and who left since the last tick, and whether the active uplink changed.
pub mod Replay
use keenetic_router_pro.Prelude.{
  String, Bool, Dict, List, Option, ◌∷◌, if◌then◌else◌, mem, not, [], ◌&&◌, some, none,
}
use keenetic_router_pro.Value.{Value, Runtime, Fields, get, truthy, ValueMap, value_eq, null}
use keenetic_router_pro.Utils.Clients.{is_client_online}
use keenetic_router_pro.Derived.{real_client_macs}

-- `a - b` on sets of texts.
unfoldable pub minus : List String → List String → List String
minus [] b = []
minus (m ∷ a) b = let rest = minus a b in if mem m b then rest else m ∷ rest

-- `online_macs`, in the order of the index.
unfoldable pub online_of : Runtime → Dict Fields → List String
online_of rt [] = []
online_of rt ((mac, client) ∷ rest) =
    let macs = online_of rt rest in if is_client_online rt client then mac ∷ macs else macs

-- What a tick publishes of the clients' presence.
pub record Presence : Type 0 where
  pub new_macs : List String
  pub online : List String
  pub connected : List String
  pub disconnected : List String

-- The diffs of a tick. `previous_macs` and `previous_online` are what the last snapshot held, empty
-- without one; `first_tick` says that there is none.
unfoldable pub presence :
    Runtime
    → (first_tick clients_stale : Bool) → Dict Fields
    → (previous_macs previous_online : List String) → Presence
presence rt first_tick clients_stale clients_by_mac previous_macs previous_online =
    let online = online_of rt clients_by_mac in
    if clients_stale
    then record {
      new_macs = minus (real_client_macs clients_by_mac) previous_macs;
      online = previous_online;
      connected = [];
      disconnected = [];
    }
    else record {
      new_macs = minus (real_client_macs clients_by_mac) previous_macs;
      online = online;
      connected = if first_tick then [] else minus online previous_online;
      disconnected = if first_tick then [] else minus previous_online online;
    }

-- `active_wan`: the id of the first uplink that is the default gateway.
unfoldable pub active_wan : List (Value × Fields) → Value
active_wan [] = null
active_wan ((wan_id, wan) ∷ rest) =
    let later = active_wan rest in if truthy (get "defaultgw" wan) then wan_id else later

pub record Failover : Type 0 where
  pub from_wan : Value
  pub to_wan : Value

-- `wan_failover`.
unfoldable pub wan_failover : (first_tick : Bool) → (previous_wan active : Value) → Option Failover
wan_failover first_tick previous_wan active =
    if not first_tick && not (value_eq active previous_wan)
    then some (record { from_wan = previous_wan; to_wan = active })
    else none
