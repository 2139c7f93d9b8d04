-- ===== src/Transport/Http.antt =====
-- The types of api/errors.py and of the client of api/transport.py, and the HTTP library as a script.
use keenetic_router_pro.Prelude.{ℕ, String, Bool, Option, none, List, ◌∷◌, Dict, pos}
use keenetic_router_pro.Text.{◌<>◌}
use keenetic_router_pro.Value.{Value, int, Fields, Runtime}

-- KeeneticAuthError and KeeneticApiError with their text and HTTP status, and any other exception.
pub data Error : Type 0 where
  auth_error : String → Error
  api_error : String → Option ℕ → Error
  other_error : String → Error

pub data Result {ℓ} (A : Type ℓ) : Type ℓ where
  ok : A → Result A
  err : Error → Result A

-- What the HTTP library raises: TimeoutError, a ClientError by the name of its class, or another
-- exception (a body that is no JSON).
pub data Fault : Type 0 where
  timed_out : Fault
  client_error : String → Fault
  unexpected : String → Fault

-- A body that is read, or the exception of reading it.
pub data Body {ℓ} (A : Type ℓ) : Type ℓ where
  read : A → Body A
  unreadable : Fault → Body A

pub record Response : Type 0 where
  pub status : ℕ
  pub headers : List (String × String)
  -- `await resp.read()`, `await resp.text()` and `await resp.json()`.
  pub drained : Body (Unit {0})
  pub text : Body String
  pub json : Body Value

pub data Reply : Type 0 where
  response : Response → Reply
  no_response : Fault → Reply

pub data Method : Type 0 where
  get_method post_method : Method

pub record Request : Type 0 where
  pub method : Method
  pub url : String
  pub params : Option Fields
  pub json : Option Value
  pub headers : Dict String
  -- Whether the library may follow a redirect, which is part of what `answer` replies then.
  pub allow_redirects : Bool

-- The session part of `_Transport`. `sent` is the log of the requests, the newest first.
pub record Client : Type 0 where
  pub has_session : Bool
  pub authenticated : Bool
  pub use_challenge_auth : Bool
  pub auth_header : Option (Dict String)
  pub rci_batch_supported : Option Bool
  pub tick_cache : Option Fields
  pub sent : List Request

-- The configuration of a client and the libraries under it: the HTTP library, base64, the two digests
-- and the redaction of secrets by a regular expression.
pub record Site : Type 0 where
  pub base : String
  pub username : String
  pub password : String
  pub runtime : Runtime
  pub base64 : String → String
  pub md5 : String → String
  pub sha256 : String → String
  pub redact : String → String
  -- `repr(text)`.
  pub repr : String → String
  pub answer : List Request → Request → Reply

-- `await session.request(...)`.
abbrev pub send : Site → Request → Client → Reply × Client
send site r c = (site.answer c.sent r, record c { sent = r ∷ c.sent })

abbrev pub raised : String → String → Fault → Error
raised on_timeout on_client_error timed_out = api_error on_timeout none
raised on_timeout on_client_error (client_error name) = api_error (on_client_error <> name) none
raised on_timeout on_client_error (unexpected e) = other_error e

-- A status in an error's text.
abbrev pub print_status : Site → ℕ → String
print_status site status = site.runtime.print (int (pos status))
