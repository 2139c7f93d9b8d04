-- ===== src/Examples/Lists.antt =====
-- The lists of mesh nodes, uplinks, profiles and proxies, with the properties at them.
use keenetic_router_pro.Prelude.{
  All, pos, List, some, none, ◌≡◌, refl, [], ◌∷◌, any, not, ◌||◌, false,
}
use keenetic_router_pro.Value.{str, Fields, end, field, Value, dict, int}
use keenetic_router_pro.Domains.{Device}
use keenetic_router_pro.Domains.Mesh.{get_mesh_nodes, member_node}
use keenetic_router_pro.Transport.Http.{ok}
use keenetic_router_pro.Transport.Calls.{rci_get}
use keenetic_router_pro.Refresh.{lookup_tick_cache, walk}
use keenetic_router_pro.Value.{list, cons, nil}
use keenetic_router_pro.Domains.Mesh.Identity.{AreMembers}
use keenetic_router_pro.Domains.Mesh.Remembered.{later_nodes, get_mesh_nodes-AreMembers}
use keenetic_router_pro.Domains.PingCheck.{get_ping_check_status}
use keenetic_router_pro.Domains.PingCheck.Verdict.{AreSound, get_ping_check_status-AreSound}
use keenetic_router_pro.Domains.Dns.{Urls, add_proxies, no_totals, status_of}
use keenetic_router_pro.Domains.Dns.Verdict.{IsAccounted, verdict, servers_of, add_proxies-verdict}
use keenetic_router_pro.Domains.Wan.{wan_status, is_pppoe_up, is_wan_up}
use keenetic_router_pro.Domains.Wan.Shown.{is_down, wan_status-down}
use keenetic_router_pro.Refresh.{is_false}
use keenetic_router_pro.Domains.Vpn.{read_ipsec_status}
use keenetic_router_pro.Domains.Vpn.Reads.{
  IsWhole, status_read, config_read, read_ipsec_status-IsWhole,
}
use keenetic_router_pro.Domains.Counters.{Target}
use keenetic_router_pro.Prelude.{String}
use keenetic_router_pro.Transport.Target.{Parsers, normalize_connection_target}
use keenetic_router_pro.Transport.Target.Bounds.{IsTarget, normalize_connection_target-IsTarget}
use keenetic_router_pro.Setup.{snapshots}
use keenetic_router_pro.Setup.Once.{AreFresh, concat, snapshots-AreFresh}
use keenetic_router_pro.Examples.Setting.{plain}
use keenetic_router_pro.Examples.Calls.{open_site}
use keenetic_router_pro.Examples.Domains.{device, phone, repeater}

-- A controller that lists one member.
abbrev member : Fields
member = field "cid" (str "c1") end

abbrev mesh_answer : Fields
mesh_answer =
    field "show"
      (dict (field "mws" (dict (field "member" (list (cons (dict member) nil)) end)) end)) end

abbrev mesh_device : Device
mesh_device = record device { client = record device.client { tick_cache = some mesh_answer } }

abbrev listed_device : Device
listed_device = (get_mesh_nodes open_site (some (repeater ∷ [])) mesh_device).1

listed_member :
    get_mesh_nodes open_site (some (repeater ∷ [])) mesh_device
    ≡ (ok (member_node plain member ∷ []), listed_device)
unfolding get_mesh_nodes rci_get lookup_tick_cache walk keenetic_router_pro.Text.split
    keenetic_router_pro.Domains.Clients.Stats.system_mode keenetic_router_pro.Text.lower
    keenetic_router_pro.Value.truthy keenetic_router_pro.Value.get native.Mathlib.Decide.dec_lt
    keenetic_router_pro.Text.strip_slashes keenetic_router_pro.Value.has
    keenetic_router_pro.Parsers.Helpers.nested_dict_items
    keenetic_router_pro.Parsers.Helpers.dict_elements
listed_member = refl

get_mesh_nodes-AreMembers_example :
    All AreMembers (later_nodes open_site (none ∷ some (phone ∷ repeater ∷ []) ∷ []) listed_device)
unfolding member_node keenetic_router_pro.Value.truthy keenetic_router_pro.Value.get
get_mesh_nodes-AreMembers_example =
    get_mesh_nodes-AreMembers open_site (some (repeater ∷ [])) mesh_device listed_device
      listed_device (member_node plain member) [] (none ∷ some (phone ∷ repeater ∷ []) ∷ [])
      listed_member refl refl

get_ping_check_status-AreSound_example : AreSound (get_ping_check_status open_site device).0
get_ping_check_status-AreSound_example = get_ping_check_status-AreSound open_site device

abbrev urls : Urls
urls = record { urlsplit = λ s. none; urlunsplit = λ scheme host. host }

abbrev proxies : List Fields
proxies = field "proxy-stat" (str "1.1.1.1 53 40 10 2 12ms 15ms 1") end ∷ []

add_proxies-verdict_example :
    (status_of (add_proxies open_site urls proxies no_totals)
      ≡ verdict (servers_of (add_proxies open_site urls proxies no_totals).proxies))
    × IsAccounted (add_proxies open_site urls proxies no_totals)
add_proxies-verdict_example = add_proxies-verdict open_site urls proxies

abbrev uplinks : List Fields
uplinks =
    field "type" (str "PPPoE") (field "state" (str "down") end)
    ∷ field "security-level" (str "public") (field "state" (str "up") end)
    ∷ []

wan_status-down_example :
    is_down plain (wan_status plain uplinks)
    ≡ not (any (is_pppoe_up plain) uplinks || any (is_wan_up plain) uplinks)
wan_status-down_example = wan_status-down plain uplinks

read_ipsec_status-IsWhole_example :
    IsWhole
      (is_false device.latches.crypto_map_supported)
      (status_read open_site device).0
      (config_read open_site device).0
      (read_ipsec_status open_site device)
read_ipsec_status-IsWhole_example = read_ipsec_status-IsWhole open_site device

abbrev isp : Target
isp = record { name = "ISP"; iface_type = "pppoe"; link = str "up"; state = str "up" }

-- The counters that the router has of its interfaces.
abbrev counters_of : String → Value
counters_of name = dict (field "rxbytes" (int (pos 7)) (field "id" (str name) end))

-- A parser that finds no part but a host.
abbrev parsers : Parsers
parsers = record {
  urlparse = λ text. some (record {
    scheme = "";
    username = none;
    password = none;
    hostname = some text;
    path = "";
    params = "";
    query = "";
    fragment = "";
    port = some (some (pos 8080));
  });
  is_ipv6 = λ text. false;
}

normalize_connection_target-IsTarget_example :
    IsTarget (normalize_connection_target parsers " router.lan " (pos 80) false)
normalize_connection_target-IsTarget_example =
    normalize_connection_target-IsTarget parsers " router.lan " (pos 80) false

abbrev shown : List (List Fields)
shown =
    (field "id" (str "a") end ∷ field "id" (str "b") end ∷ [])
    ∷ (field "id" (str "b") end ∷ field "id" (str "c") end ∷ [])
    ∷ []

snapshots-AreFresh_example :
    AreFresh
      ("id" ∷ [])
      (str "a" ∷ [])
      (concat ("id" ∷ []) (snapshots ("id" ∷ []) shown (str "a" ∷ [])).0)
snapshots-AreFresh_example = snapshots-AreFresh ("id" ∷ []) shown (str "a" ∷ [])
