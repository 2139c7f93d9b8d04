-- ===== src/Domains/Commands.antt =====
-- The commands of api/domains/clients.py, network.py, wifi.py, vpn.py, mesh.py and system.py that change
-- the router.
pub mod Sent
use keenetic_router_pro.Prelude.{
  String, List, [], ◌∷◌, true, false, if◌then◌else◌, true, ◌==◌, eqb_ℤ, ltb_ℤ, mem, pos,
}
use keenetic_router_pro.Value.{int}
use keenetic_router_pro.Text.{lower, replace, ◌<>◌}
use keenetic_router_pro.Transport.Http.{Site, Client, Result, Error, other_error}
use keenetic_router_pro.Transport.Commands.{rci_parse, save_configuration}
use keenetic_router_pro.Domains.{
  and_then, checked, validate_cli_arg, run_commands, ok, Bool, Value, some, ℤ, err,
}

abbrev pub save_command : String
save_command = "system configuration save"

-- `_validate_cli_arg(str(mac or "").lower().replace("-", ":"), "MAC address")`.
unfoldable pub clean_mac : String → Result String
clean_mac mac = validate_cli_arg (some (replace b'-' ":" (lower mac))) "MAC address"

-- The commands of `async_set_client_policy`, in the order they are sent.
unfoldable pub policy_commands : String → String → List String
policy_commands mac policy =
    if lower policy == "deny"
    then ("ip hotspot host " <> (mac <> " deny")) ∷ save_command ∷ []
    else if mem (lower policy) ("default" ∷ "permit" ∷ "" ∷ [])
    then ("no ip hotspot host " <> (mac <> " policy"))
      ∷ ("ip hotspot host " <> (mac <> " permit"))
      ∷ save_command
      ∷ []
    else ("ip hotspot host " <> (mac <> " permit"))
      ∷ ("ip hotspot host " <> (mac <> (" policy " <> policy)))
      ∷ save_command
      ∷ []

-- `async_set_client_policy(mac, policy)`.
unfoldable pub set_client_policy : Site → String → String → Client → Result (Unit {0}) × Client
unfolding clean_mac policy_commands
set_client_policy site mac policy c = checked (clean_mac mac) c (λ mac_clean.
    checked (validate_cli_arg (some policy) "policy") c
      (λ policy. run_commands site (policy_commands mac_clean policy) c))

-- `async_block_client(mac)`.
unfoldable pub block_client : Site → String → Client → Result (Unit {0}) × Client
block_client site mac c = set_client_policy site mac "deny" c

-- `async_unblock_client(mac)`.
unfoldable pub unblock_client : Site → String → Client → Result (Unit {0}) × Client
unblock_client site mac c = set_client_policy site mac "default" c

-- The commands of `async_set_client_rate_limit`, for a printed rate.
unfoldable pub rate_commands : String → ℤ → String → List String
rate_commands mac rate printed =
    (if eqb_ℤ rate (pos 0)
      then "no ip traffic-shape host " <> mac
      else "ip traffic-shape host " <> (mac <> (" rate " <> printed)))
    ∷ save_command
    ∷ []

abbrev check_rate : ℤ → Result ℤ
check_rate rate =
    if ltb_ℤ rate (pos 0) then err (other_error "Rate limit must not be negative") else ok rate

-- `async_set_client_rate_limit(mac, kbps)`.
unfoldable pub set_client_rate_limit : Site → String → ℤ → Client → Result (Unit {0}) × Client
unfolding clean_mac rate_commands
set_client_rate_limit site mac kbps c = checked (clean_mac mac) c (λ mac_clean.
    checked (check_rate kbps) c
      (λ rate. run_commands site (rate_commands mac_clean rate (site.runtime.print (int rate))) c))

abbrev pub updown : Bool → String
updown true = "up"
updown false = "down"

-- A command, then `_async_save_configuration`.
abbrev pub run_and_save : Site → String → Client → Result (Unit {0}) × Client
run_and_save site cmd c = and_then (rci_parse site cmd c) (λ v c. save_configuration site c)

-- `async_set_interface_enabled(interface_name, enabled)`, which `async_set_wireguard_enabled` calls, and
-- `async_set_wifi_enabled`, which has the same body.
unfoldable pub set_interface_enabled : Site → String → Bool → Client → Result (Unit {0}) × Client
set_interface_enabled site interface_name enabled c =
    checked (validate_cli_arg (some interface_name) "interface name") c
      (λ name. run_and_save site ("interface " <> (name <> (" " <> updown enabled))) c)

unfoldable pub set_wifi_enabled : Site → String → Bool → Client → Result (Unit {0}) × Client
set_wifi_enabled site interface_name enabled c =
    checked (validate_cli_arg (some interface_name) "interface name") c
      (λ name. run_and_save site ("interface " <> (name <> (" " <> updown enabled))) c)

unfoldable pub set_wireguard_enabled : Site → String → Bool → Client → Result (Unit {0}) × Client
set_wireguard_enabled site interface_name enabled c =
    set_interface_enabled site interface_name enabled c

abbrev pub verb : Bool → String
verb true = "enable"
verb false = "no enable"

-- Every failure of the save is logged.
abbrev save_quietly : Site → Client → Result (Unit {0}) × Client
save_quietly site c = (ok tt, (rci_parse site save_command c).1)

-- `async_set_crypto_map_enabled(name, enabled)`: one command of two lines.
unfoldable pub set_crypto_map_enabled : Site → String → Bool → Client → Result (Unit {0}) × Client
set_crypto_map_enabled site name enabled c =
    checked (validate_cli_arg (some name) "crypto map name") c (λ name.
      and_then (rci_parse site ("crypto map " <> (name <> ("\n" <> verb enabled))) c)
        (λ v c. save_quietly site c))

abbrev discard : Result Value × Client → Result (Unit {0}) × Client
discard out = and_then out (λ v c. (ok tt, c))

-- `async_reboot_mesh_node(cid)`.
unfoldable pub reboot_mesh_node : Site → String → Client → Result (Unit {0}) × Client
reboot_mesh_node site cid c =
    checked (validate_cli_arg (some cid) "mesh node cid") c
      (λ cid. discard (rci_parse site ("mws member " <> (cid <> " reboot")) c))

-- `async_reboot()`.
unfoldable pub reboot : Site → Client → Result (Unit {0}) × Client
reboot site c = discard (rci_parse site "system reboot" c)
