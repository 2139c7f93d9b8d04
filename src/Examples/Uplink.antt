-- ===== src/Examples/Uplink.antt =====
-- Two uplinks over two ticks.
use keenetic_router_pro.Prelude.{◌≡◌, ◌∷◌, pos, Dict, false, true, refl, []}
use keenetic_router_pro.Value.{
  Value, null, bool, int, float, str, dict, Fields, end, field, get, has, Float, of_ℤ, ValueMap,
  find,
}
use keenetic_router_pro.Derived.{wan_order, order_wan_interfaces}
use keenetic_router_pro.Derived.Uplinks.{
  IsOrdered, wan_order-IsOrdered, AreLabelled, order_wan_interfaces-AreLabelled,
}
use keenetic_router_pro.Enrichment.{carry_wan, enrich_wan, rx_count, tx_count, or_empty, lookup_id}
use keenetic_router_pro.Enrichment.PingCheck.{IsDecided, ping_check_decides}
use keenetic_router_pro.Enrichment.Throughput.{IsRateOf, throughput_of_counters}
use keenetic_router_pro.Text.{lower}
use keenetic_router_pro.Utils.Mac.{text_or_empty}
use keenetic_router_pro.Utils.Coerce.{coerce_bool}
use keenetic_router_pro.Utils.Clients.{usable_ip, placeholder_ips}
use keenetic_router_pro.Parsers.Wan.{extract_wan_ip, derive_wan_internet_access, text_value}
use keenetic_router_pro.Examples.Setting.{plain}

abbrev fibre : Fields
fibre =
    field "id" (str "ISP") (field "priority" (int (pos 700)) (field "defaultgw" (bool true) end))

abbrev modem : Fields
modem = field "id" (str "LTE") (field "priority" (int (pos 500)) end)

wan_order-IsOrdered_example : IsOrdered (modem ∷ fibre ∷ []) (wan_order (modem ∷ fibre ∷ []))
wan_order-IsOrdered_example = wan_order-IsOrdered (modem ∷ fibre ∷ [])

order_wan_interfaces-AreLabelled_example :
    AreLabelled 0 (wan_order (modem ∷ fibre ∷ [])) (order_wan_interfaces plain (modem ∷ fibre ∷ []))
order_wan_interfaces-AreLabelled_example =
    order_wan_interfaces-AreLabelled plain (modem ∷ fibre ∷ [])

abbrev failing : Dict Fields
failing = ("ISP", field "passing" (bool false) end) ∷ []

abbrev counters : Dict Fields
counters = ("ISP", field "rxbytes" (int (pos 5000)) (field "txbytes" (str "300") end)) ∷ []

abbrev sampled : ValueMap Fields
sampled =
    (
      str "ISP",
      field "id" (str "ISP")
          (field "rx_bytes" (int (pos 1000)) (field "_sample_ts" (int (pos 10)) end)),
    )
    ∷ []

abbrev at_20 : Float
at_20 = of_ℤ (pos 20)

ping_check_decides_example :
    IsDecided plain failing sampled fibre (carry_wan plain failing sampled fibre)
    × IsDecided plain failing sampled fibre (enrich_wan plain counters failing sampled at_20 fibre)
ping_check_decides_example = ping_check_decides plain failing sampled fibre counters at_20

throughput_of_counters_example :
    IsRateOf
      (rx_count plain (or_empty (lookup_id (get "id" fibre) counters)))
      (get "rx_throughput" (enrich_wan plain counters failing sampled at_20 fibre))
    × IsRateOf
        (tx_count plain (or_empty (lookup_id (get "id" fibre) counters)))
        (get "tx_throughput" (enrich_wan plain counters failing sampled at_20 fibre))
throughput_of_counters_example = throughput_of_counters plain counters failing sampled at_20 fibre

abbrev tunnels : Dict Fields
tunnels = ("office", field "rx_bytes" (int (pos 9)) end) ∷ ("cottage", end) ∷ []

abbrev last_tunnels : Dict Value
last_tunnels =
    (
      "office",
      dict (field "rx_throughput" (float (of_ℤ (pos 4))) (field "_sample_ts" (int (pos 10)) end)),
    )
    ∷ []

abbrev online : Fields
online = field "state" (str "up") (
    field "global" (bool true) (field "address" (dict (field "ip" (str "203.0.113.5/24") end)) end))

online_access : derive_wan_internet_access plain online ≡ true
unfolding derive_wan_internet_access keenetic_router_pro.Text.lower
    keenetic_router_pro.Utils.Mac.text_or_empty keenetic_router_pro.Value.truthy get
    native.Mathlib.Decide.dec_lt keenetic_router_pro.Utils.Coerce.coerce_bool
    keenetic_router_pro.Utils.Clients.usable_ip keenetic_router_pro.Text.strip extract_wan_ip
    keenetic_router_pro.Parsers.Wan.extract_ip_from_value
    keenetic_router_pro.Utils.Clients.first_present keenetic_router_pro.Value.is_blank
    keenetic_router_pro.Text.before
online_access = refl
