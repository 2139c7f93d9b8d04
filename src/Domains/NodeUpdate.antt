-- ===== src/Domains/NodeUpdate.antt =====
-- api/domains/system.py: the firmware of a mesh node, through the controller or by a session with the node.
pub mod Session
pub mod Contact
pub mod Targets
use keenetic_router_pro.Prelude.{
  String, List, [], ◌∷◌, true, false, Option, some, none, Bool, ℕ, any, if◌then◌else◌, ◌==◌, ◌||◌,
}
use keenetic_router_pro.Value.{Value, null, dict, list, str, bool, truthy}
use keenetic_router_pro.Text.{lower, includes, ◌<>◌}
use keenetic_router_pro.Utils.Addresses.{IpAddress, normalize_mesh_node_address, mask_identifier}
use keenetic_router_pro.Parsers.Messages.{parse_messages}
use keenetic_router_pro.Transport.Http.{
  Site, Result, Error, ok, err, api_error, other_error, Response, Reply, response, no_response,
  Fault, timed_out, Body, read, unreadable,
}
use keenetic_router_pro.Transport.Commands.{rci_parse}
use keenetic_router_pro.Domains.{
  Device, and_then, checked, on_client, validate_cli_arg, not, Dict, eqb,
}
use keenetic_router_pro.Domains.Firmware.{ndw_components, install_payload, manual, confirm}
use keenetic_router_pro.Domains.NodeUpdate.Session.{
  Setup, node_base, node_post, node_get, forget_node, authenticate_to_node,
}

-- What one step of the update by a session leads to.
pub data Move : Type 0 where
  started next_port older : Move
  raised_error : Error → Move

-- A timeout ends the attempt at this port; another exception is logged, and the older endpoint is tried.
abbrev pub failed : Fault → Device → Move × Device
failed timed_out d = (next_port, d)
failed fault d = (older, d)

-- `text = await resp.text()` for the log, then the given move.
abbrev pub after_text : Move → Body String → Device → Move × Device
after_text move (read text) d = (move, d)
after_text move (unreadable fault) d = failed fault d

abbrev is_done : ℕ → Bool
is_done status = eqb status 200 || eqb status 204

-- Step 3, the commit: a status of another kind leaves the older endpoint to try.
unfoldable pub settle_commit : String → ℕ → Reply × Device → Move × Device
settle_commit ip port (no_response fault, d) = failed fault d
settle_commit ip port (response resp, d) =
    if is_done resp.status
    then (started, d)
    else if eqb resp.status 401
    then (next_port, forget_node ip port d)
    else after_text older resp.text d

-- Step 2, the component list.
unfoldable pub settle_stage :
    Site → Setup → Dict String → String → ℕ → Reply × Device → Move × Device
unfolding settle_commit
settle_stage site setup headers ip port (no_response fault, d) = failed fault d
settle_stage site setup headers ip port (response resp, d) =
    if eqb resp.status 401
    then (next_port, forget_node ip port d)
    else if not (is_done resp.status)
    then after_text next_port resp.text d
    else settle_commit ip port
        (node_post site (node_base site setup ip port) "/rci/components/commit" manual headers d)

abbrev pub stage_node : Site → Setup → Dict String → String → ℕ → Value → Device → Move × Device
stage_node site setup headers ip port (str components) d =
    if components == ""
    then (older, d)
    else settle_stage site setup headers ip port (
        node_post site (node_base site setup ip port) "/rci/" (install_payload components) headers
          d)
stage_node site setup headers ip port v d =
    if truthy v then (raised_error (other_error "AttributeError"), d) else (older, d)

abbrev pub stage_read :
    Site → Setup → Dict String → String → ℕ → Body Value → Device → Move × Device
stage_read site setup headers ip port (read v) d =
    stage_node site setup headers ip port (ndw_components v) d
stage_read site setup headers ip port (unreadable fault) d = failed fault d

-- Step 1, the components that the node has.
unfoldable pub settle_version :
    Site → Setup → Dict String → String → ℕ → Reply × Device → Move × Device
unfolding settle_stage
settle_version site setup headers ip port (no_response fault, d) = failed fault d
settle_version site setup headers ip port (response resp, d) =
    if eqb resp.status 200
    then stage_read site setup headers ip port resp.json d
    else if eqb resp.status 401
    then (next_port, forget_node ip port d)
    else (older, d)

-- `POST /rci/system/update`: whatever fails here, the next port is tried.
unfoldable pub settle_older : String → ℕ → Reply × Device → Move × Device
settle_older ip port (no_response fault, d) = (next_port, d)
settle_older ip port (response resp, d) =
    if is_done resp.status
    then (started, d)
    else if eqb resp.status 401
    then (next_port, forget_node ip port d)
    else (next_port, d)

unfoldable pub or_older : Site → Setup → Dict String → String → ℕ → Move × Device → Move × Device
unfolding settle_older
or_older site setup headers ip port (older, d) =
    settle_older ip port
      (node_post site (node_base site setup ip port) "/rci/system/update" confirm headers d)
or_older site setup headers ip port (move, d) = (move, d)

-- A session without a header is none.
unfoldable pub with_session :
    Site → Setup → String → ℕ → Option (Dict String) × Device → Move × Device
unfolding settle_version or_older
with_session site setup ip port (none, d) = (next_port, d)
with_session site setup ip port (some [], d) = (next_port, d)
with_session site setup ip port (some (h ∷ hs), d) = or_older site setup (h ∷ hs) ip port (
    settle_version site setup (h ∷ hs) ip port
      (node_get site (node_base site setup ip port) "/rci/show/version" (h ∷ hs) d))

unfoldable pub try_port : Site → Setup → String → ℕ → Device → Move × Device
unfolding with_session
try_port site setup ip port d =
    with_session site setup ip port (authenticate_to_node site setup ip port d)

-- The controller's port, then 80.
abbrev pub ports_to_try : Setup → List ℕ
ports_to_try setup = if eqb setup.port 80 then setup.port ∷ [] else setup.port ∷ 80 ∷ []

abbrev pub move_on : (Device → Result Bool × Device) → Move × Device → Result Bool × Device
move_on go (started, d) = (ok true, d)
move_on go (raised_error e, d) = (err e, d)
move_on go (move, d) = go d

unfoldable pub try_ports : Site → Setup → String → String → List ℕ → Device → Result Bool × Device
unfolding try_port
try_ports site setup label ip [] d =
    (err (other_error ("Could not start firmware update on node " <> mask_identifier label)), d)
try_ports site setup label ip (port ∷ ports) d =
    move_on (try_ports site setup label ip ports) (try_port site setup ip port d)

abbrev pub direct : Site → Setup → String → Option String → Device → Result Bool × Device
direct site setup label none d =
    (err (other_error "Mesh node address is not a valid literal IP"), d)
direct site setup label (some ip) d = try_ports site setup label ip (ports_to_try setup) d

unfoldable pub direct_update : Site → Setup → String → String → Device → Result Bool × Device
unfolding try_ports
direct_update site setup label node_ip d =
    direct site setup label (normalize_mesh_node_address setup.ip_address node_ip) d

-- The tokens that tell an error of the controller's command.
abbrev names_error : String → Bool
names_error msg =
    any (λ tok. includes tok (lower msg)) ("error" ∷ "failed" ∷ "unknown" ∷ "invalid" ∷ [])

-- Every failure of the controller's command leads to the session with the node.
abbrev pub or_direct : (Device → Result Bool × Device) → Result Bool × Device → Result Bool × Device
or_direct next (ok true, d) = (ok true, d)
or_direct next (ok false, d) = next d
or_direct next (err e, d) = next d

abbrev pub accepted : Site → Value → Bool
accepted site v = not (any names_error (parse_messages site.runtime v))

abbrev pub ask_controller : Site → String → Device → Result Bool × Device
ask_controller site member d =
    and_then (on_client (rci_parse site ("mws member " <> (member <> " update start"))) d)
      (λ v d. (ok (accepted site v), d))

unfoldable pub by_controller : Site → String → Device → Result Bool × Device
by_controller site cid d =
    checked (validate_cli_arg (some cid) "mesh node cid") d (λ member. ask_controller site member d)

abbrev pub with_cid :
    Site → Option String → (Device → Result Bool × Device) → Device → Result Bool × Device
with_cid site none next d = next d
with_cid site (some cid) next d =
    if cid == "" then next d else or_direct next (by_controller site cid d)

-- `async_start_node_firmware_update(node_ip, node_name, node_cid)`.
unfoldable pub start_node_firmware_update :
    Site → Setup → String → String → Option String → Device → Result Bool × Device
unfolding by_controller direct_update
start_node_firmware_update site setup node_ip node_name node_cid d =
    if not d.client.has_session || node_ip == ""
    then (err (other_error "Cannot connect to mesh node"), d)
    else with_cid site node_cid
        (direct_update site setup (if node_name == "" then node_ip else node_name) node_ip) d
