-- ===== src/Domains/Firmware.antt =====
-- api/domains/system.py: the firmware of the router itself.
pub mod Update
use keenetic_router_pro.Prelude.{
  String, List, [], ◌∷◌, true, false, Option, some, none, Bool, keep, map, mem, if◌then◌else◌, ◌||◌,
  ◌&&◌, ◌==◌,
}
use keenetic_router_pro.Value.{
  Value, null, dict, list, str, bool, Items, nil, cons, Fields, end, field, get, get_or, or_else,
  truthy, value_eq,
}
use keenetic_router_pro.Text.{split, strip, lower, ◌<>◌}
use keenetic_router_pro.Transport.Http.{
  Site, Client, Result, Error, ok, err, api_error, auth_error, other_error, post_method,
}
use keenetic_router_pro.Transport.Header.{is_endpoint_missing}
use keenetic_router_pro.Transport.Calls.{Call, request, rci_get, rci_post}
use keenetic_router_pro.Domains.{and_then, not}

pub record FirmwareCheck : Type 0 where
  pub current_title : Value
  pub current_release : Value
  -- The title and the release that are offered.
  pub available : Option (Value × Value)
  pub channel : Value
  pub has_update : Bool

unfoldable pub check_of : Fields → FirmwareCheck
check_of data_ =
    let current = or_else (get "title" data_) (get "release" data_) in
    let available = or_else (get "fw-available" data_) (get "release-available" data_) in
    let has_update =
      truthy current
      && truthy available
      && not (value_eq current available)
      && value_eq (get "fw-update-sandbox" data_) (str "stable") in
    record {
      current_title = current;
      current_release = get "release" data_;
      available = if has_update then some (available, get "release-available" data_) else none;
      channel = get "fw-update-sandbox" data_;
      has_update = has_update;
    }

-- `{}` is `none`. A payload with content that is no dict has no `get`.
abbrev check_value : Value → Result (Option FirmwareCheck)
check_value (dict end) = ok none
check_value (dict fs) = ok (some (check_of fs))
check_value v = if truthy v then err (other_error "AttributeError") else ok none

abbrev settle_check : Result Value × Client → Result (Option FirmwareCheck) × Client
settle_check (ok v, c) = (check_value v, c)
settle_check (err e, c) = (ok none, c)

-- `async_check_firmware_update()`.
unfoldable pub check_firmware_update : Site → Client → Result (Option FirmwareCheck) × Client
unfolding check_of
check_firmware_update site c = settle_check (rci_get site "show/version" none c)

abbrev ndw_of : Value → Value
ndw_of (dict ndw) = get_or "components" (str "") ndw
ndw_of v = str ""

-- `ndw_components`.
abbrev pub ndw_components : Value → Value
ndw_components (dict version) = ndw_of (get "ndw" version)
ndw_components v = str ""

-- `[c.strip() for c in ndw_components.split(",") if c.strip()]`.
unfoldable pub component_names : String → List String
component_names s = keep (λ c. not (c == "")) (map strip (split b',' s))

unfoldable pub install_list : List String → Items
install_list [] = nil
install_list (c ∷ cs) = cons (dict (field "component" (str c) end)) (install_list cs)

-- `[{"components": {"install": install_list}}]`.
unfoldable pub install_payload : String → Value
unfolding component_names install_list
install_payload components = list (
    cons
      (dict (
        field "components"
          (dict (field "install" (list (install_list (component_names components))) end)) end))
      nil)

abbrev pub root_call : Value → Call
root_call payload = record {
  method = post_method;
  path = "/rci/";
  params = none;
  json = some payload;
  allow_text = false;
}

abbrev pub manual : Value
manual = dict (field "reason" (str "manual") end)

abbrev pub commit : Site → Value → Client → Result Bool × Client
commit site v c = and_then (rci_post site "components/commit" manual true c) (λ v c. (ok true, c))

abbrev pub install : Site → String → Client → Result Bool × Client
install site components c =
    and_then (request site (root_call (install_payload components)) c) (commit site)

-- Stage the components, then commit; whether there were any.
unfoldable pub stage : Site → Value → Client → Result Bool × Client
unfolding install_payload
stage site (str components) c =
    if components == "" then (ok false, c) else install site components c
stage site v c = if truthy v then (err (other_error "AttributeError"), c) else (ok false, c)

abbrev pub error_text : Error → String
error_text (api_error message status) = message
error_text (auth_error message) = message
error_text (other_error message) = message

-- An endpoint that the router does not have hands over to the next one; another failure of the client is
-- raised as a HomeAssistantError.
unfoldable pub or_next :
    (Client → Result Bool × Client) → Result Bool × Client → Result Bool × Client
or_next next (ok true, c) = (ok true, c)
or_next next (ok false, c) = next c
or_next next (err (other_error e), c) = (err (other_error e), c)
or_next next (err e, c) =
    if is_endpoint_missing e
    then next c
    else (err (other_error ("Failed to start update: " <> error_text e)), c)

abbrev is_started : Value → Bool
is_started v =
    value_eq v (str "started")
    || value_eq v (str "ok")
    || value_eq v (bool true)
    || value_eq v (str "accepted")

-- What counts as a start of the update on older firmware.
unfoldable pub reports_start : Value → Bool
reports_start (dict fs) = is_started (or_else (get "status" fs) (get "result" fs))
reports_start (str s) = mem (lower (strip s)) ("started" ∷ "ok" ∷ "accepted" ∷ [])
reports_start v = false

abbrev pub confirm : Value
confirm = dict (field "confirm" (bool true) end)

abbrev pub legacy : Site → Client → Result Bool × Client
legacy site c =
    and_then (rci_post site "system/update" confirm true c) (λ v c. (ok (reports_start v), c))

abbrev pub no_endpoint : Client → Result Bool × Client
no_endpoint c = (err (other_error "No compatible firmware update endpoint found on this router"), c)

-- KeeneticOS 5.x, then older firmware.
abbrev pub by_components : Site → Client → Result Bool × Client
by_components site c =
    and_then (rci_get site "show/version" none c) (λ v c. stage site (ndw_components v) c)

abbrev pub by_system : Site → Client → Result Bool × Client
by_system site c = or_next no_endpoint (legacy site c)

-- `async_start_firmware_update()`.
unfoldable pub start_firmware_update : Site → Client → Result Bool × Client
unfolding stage or_next reports_start
start_firmware_update site c = or_next (by_system site) (by_components site c)
