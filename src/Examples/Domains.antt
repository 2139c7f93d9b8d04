-- ===== src/Examples/Domains.antt =====
-- The domains against a router whose tick cache holds the answers, and against one that answers.
use keenetic_router_pro.Prelude.{
  true, false, some, none, ◌≡◌, refl, [], ◌∷◌, pos, length, ◌+◌, ◌==◌,
}
use keenetic_router_pro.Value.{
  Value, null, str, dict, list, bool, int, Items, nil, cons, Fields, end, field, get,
}
use keenetic_router_pro.Refresh.{lookup_tick_cache, walk}
use keenetic_router_pro.Transport.Http.{Client, ok}
use keenetic_router_pro.Utils.Coerce.{coerce_int}
use keenetic_router_pro.Transport.Calls.{rci_get}
use keenetic_router_pro.Transport.Sending.{Sends}
use keenetic_router_pro.Utils.Addresses.{normalize_mesh_node_address}
use keenetic_router_pro.Domains.{Device}
use keenetic_router_pro.Domains.Commands.{
  set_client_policy, set_interface_enabled, set_wifi_enabled, reboot_mesh_node,
}
use keenetic_router_pro.Domains.Commands.Sent.{IsLine, commands-SendLines}
use keenetic_router_pro.Domains.Clients.{get_clients}
use keenetic_router_pro.Domains.Clients.Listing.{IsListing, get_clients-IsListing}
use keenetic_router_pro.Domains.Clients.Stats.{
  summarize_client_stats, IsSummaryOf, no_stats, summarize_client_stats-adds_up,
}
use keenetic_router_pro.Domains.System.{get_system_info, unknown}
use keenetic_router_pro.Domains.System.Boot.{IsSeen, reboot-IsUnlatched}
use keenetic_router_pro.Domains.Firmware.{start_firmware_update}
use keenetic_router_pro.Domains.Firmware.Update.{IsOfUpdate, start_firmware_update-Sends}
use keenetic_router_pro.Domains.NodeUpdate.{start_node_firmware_update}
use keenetic_router_pro.Domains.NodeUpdate.Session.{Setup}
use keenetic_router_pro.Domains.NodeUpdate.Contact.{IsTarget, Reaches}
use keenetic_router_pro.Domains.NodeUpdate.Targets.{start_node_firmware_update-Reaches}
use keenetic_router_pro.Examples.Setting.{plain}
use keenetic_router_pro.Examples.Calls.{open_site, new_client}

commands-SendLines_example :
    Sends IsLine new_client (set_client_policy open_site "AA-BB-CC-00-11-22" "Policy0" new_client)
    × Sends IsLine new_client (set_interface_enabled open_site "AA-BB-CC-00-11-22" true new_client)
    × Sends IsLine new_client (set_wifi_enabled open_site "AA-BB-CC-00-11-22" true new_client)
    × Sends IsLine new_client (reboot_mesh_node open_site "AA-BB-CC-00-11-22" new_client)
commands-SendLines_example =
    commands-SendLines open_site "AA-BB-CC-00-11-22" "Policy0" true new_client

abbrev pub phone : Fields
phone = field "mac" (str "aa:bb:cc:00:11:22") (field "link" (str "up") end)

abbrev pub repeater : Fields
repeater = field "mac" (str "aa:bb:cc:00:11:33") (field "system-mode" (str "repeater") end)

summarize_client_stats-adds_up_example :
    IsSummaryOf plain no_stats
      (phone ∷ repeater ∷ [])
      (summarize_client_stats plain (phone ∷ repeater ∷ []))
    × ((summarize_client_stats plain (phone ∷ repeater ∷ [])).connected
          + (summarize_client_stats plain (phone ∷ repeater ∷ [])).disconnected
          + length (summarize_client_stats plain (phone ∷ repeater ∷ [])).extenders
        ≡ length (phone ∷ repeater ∷ []))
summarize_client_stats-adds_up_example =
    summarize_client_stats-adds_up plain (phone ∷ repeater ∷ [])

-- The answers of the tick: the clients by the second path, and a router that was up for a minute.
abbrev pub answers : Fields
answers = field "show" (dict (field "system" (dict (field "uptime" (int (pos 60)) end)) end)) (
    field "ip" (dict (field "hotspot" (dict (field "host" (list (cons (dict phone) nil)) end)) end))
      end)

abbrev served : Client
served = record new_client { tick_cache = some answers }

abbrev pub device : Device
device = record {
  client = served;
  latches = record unknown {
    hotspot_subpath_winner = some "ip/hotspot/host";
    ndns_supported = some false;
  };
  last_seen_uptime = some (pos 86400);
  last_seen_fw_version = null;
  mws_members_seen = false;
  node_auth_headers = [];
}

get_clients-IsListing_example :
    IsListing open_site device.latches.hotspot_subpath_winner (get_clients open_site device)
get_clients-IsListing_example = get_clients-IsListing open_site device

abbrev system_state : Fields
system_state = field "uptime" (int (pos 60)) end

asked_system : rci_get open_site "show/system" none served ≡ (ok (dict system_state), served)
unfolding rci_get lookup_tick_cache walk keenetic_router_pro.Text.split
    keenetic_router_pro.Text.strip_slashes keenetic_router_pro.Value.has
    keenetic_router_pro.Value.get
asked_system = refl

read_uptime : coerce_int (get "uptime" system_state) none ≡ some (pos 60)
unfolding coerce_int get
read_uptime = refl

reboot-IsUnlatched_example : IsSeen device served (pos 60) true (get_system_info open_site device).1
reboot-IsUnlatched_example =
    reboot-IsUnlatched open_site device system_state served (pos 60) asked_system read_uptime

start_firmware_update-Sends_example :
    Sends (IsOfUpdate open_site) new_client (start_firmware_update open_site new_client)
start_firmware_update-Sends_example = start_firmware_update-Sends open_site new_client

-- Every text is a literal address, and 127.0.0.1 is the loopback.
abbrev setup : Setup
setup = record {
  port = 100;
  ssl = false;
  ip_address = λ text. some (record {
    is_unspecified = false;
    is_multicast = false;
    is_loopback = text == "127.0.0.1";
    compressed = text;
  });
}

start_node_firmware_update-Reaches_example :
    Reaches
      (IsTarget open_site setup (normalize_mesh_node_address setup.ip_address "192.168.1.7"))
      device
      (start_node_firmware_update open_site setup "192.168.1.7" "attic" none device)
start_node_firmware_update-Reaches_example =
    start_node_firmware_update-Reaches open_site setup "192.168.1.7" "attic" none device
