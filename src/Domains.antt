-- ===== src/Domains.antt =====
-- What the domains of api/domains share: one client with its capability latches, calls one after the
-- other, and the check of a command's arguments in api/helpers.py.
pub mod Commands
pub mod Clients
pub mod System
pub mod Firmware
pub mod NodeUpdate
pub mod Steps
pub mod Vpn
pub mod Wifi
pub mod Ports
pub mod Counters
pub mod PingCheck
pub mod Wan
pub mod Dns
pub mod Mesh
use keenetic_router_pro.Prelude.{
  Option, none, some, ℕ, String, List, [], ◌∷◌, ℤ, eqb, ◌||◌, ◌&&◌, Bool, true, if◌then◌else◌, ◌==◌,
  not, Dict,
}
use Prim.Native.Char.{code}
use keenetic_router_pro.Value.{Value, list}
use keenetic_router_pro.Text.{strip, ◌<>◌}
use keenetic_router_pro.Refresh.{Latches}
use keenetic_router_pro.Transport.Http.{Site, Error, Result, ok, err, api_error, Client}
use keenetic_router_pro.Transport.Commands.{is_word, rci_parse}

-- The state of a KeeneticClient: its session, its latches, and what the last answers told of the router.
pub record Device : Type 0 where
  pub client : Client
  pub latches : Latches
  pub last_seen_uptime : Option ℤ
  pub last_seen_fw_version : Value
  pub mws_members_seen : Bool
  -- The session header of each mesh node, by its address and port.
  pub node_auth_headers : List ((String × ℕ) × Dict String)

-- The result of a call is handed on; an exception ends the method.
abbrev pub and_then {ℓ κ ι} :
    {S : Type ℓ} {A : Type κ} {B : Type ι} → Result A × S → (A → S → Result B × S) → Result B × S
and_then (ok a, s) f = f a s
and_then (err e, s) f = (err e, s)

-- A check that touches no state.
abbrev pub checked {ℓ κ ι} :
    {S : Type ℓ} {A : Type κ} {B : Type ι} → Result A → S → (A → Result B × S) → Result B × S
checked (ok a) s f = f a
checked (err e) s f = (err e, s)

-- A call of the transport, by a client with latches.
abbrev pub on_client {ℓ} : {A : Type ℓ} → (Client → Result A × Client) → Device → Result A × Device
on_client f d = let out = f d.client in (out.0, record d { client = out.1 })

-- `_CLI_TOKEN_RE`: a word character of ASCII or one of `.:/@+-`.
unfoldable pub is_cli_char : ℕ → Bool
unfolding is_word
is_cli_char c =
    is_word c || eqb c b'.' || eqb c b':' || eqb c b'/' || eqb c b'@' || eqb c b'+' || eqb c b'-'

unfoldable pub all_cli_chars : String → Bool
all_cli_chars String.[] = true
all_cli_chars (String.◌∷◌ c s) = is_cli_char (code c) && all_cli_chars s

-- `_validate_cli_arg(value, label)`.
unfoldable pub validate_cli_arg : Option String → String → Result String
unfolding all_cli_chars
validate_cli_arg none label = err (api_error ("Empty " <> label) none)
validate_cli_arg (some value) label =
    if strip value == ""
    then err (api_error ("Empty " <> label) none)
    else if not (strip value == value)
    then err (api_error ("Unsafe " <> label) none)
    else if not (all_cli_chars value)
    then err (api_error ("Unsafe " <> label) none)
    else ok (strip value)

-- `await self._rci_parse(cmd)` for one command after the other.
unfoldable pub run_commands : Site → List String → Client → Result (Unit {0}) × Client
run_commands site [] c = (ok tt, c)
run_commands site (cmd ∷ cmds) c = and_then (rci_parse site cmd c) (λ v c. run_commands site cmds c)
