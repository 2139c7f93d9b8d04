-- ===== src/Transport/Commands.antt =====
-- api/transport.py: commands of the router's command line, and api/helpers.py: the messages of their
-- results. Texts are read as ASCII, as `lower` is.
use keenetic_router_pro.Prelude.{
  String, List, ℕ, Bool, true, if◌then◌else◌, Option, leb, some, not, ◌∷◌, false, any, ◌||◌, [],
  ◌++◌, first, eqb, ◌&&◌, none, ◌==◌, ◌≡◌, refl,
}
use Prim.Native.Char.{code}
use text.Mathlib.Text.{starts_with}
use keenetic_router_pro.Text.{strip, lower, push_front, drop_blank}
use keenetic_router_pro.Value.{
  Value, bool, str, dict, list, Items, nil, cons, Fields, end, field, get, has, value_eq,
}
use keenetic_router_pro.Transport.Http.{Site, Result, Client, ok, err, api_error, other_error}
use keenetic_router_pro.Transport.Calls.{rci_post}

-- Where `str.splitlines` breaks.
is_line_break : ℕ → Bool
is_line_break c =
    (leb 10 c && leb c 13) || (leb 28 c && leb c 30) || eqb c 133 || eqb c 8232 || eqb c 8233

-- `[line for line in s.splitlines() if line]`.
line_pieces : String → List String
unfolding is_line_break drop_blank
line_pieces String.[] = "" ∷ []
line_pieces (String.◌∷◌ c s) =
    let rest = line_pieces s in
    if is_line_break (code c) then "" ∷ drop_blank rest else push_front c rest

unfoldable pub nonempty_lines : String → List String
unfolding line_pieces drop_blank
nonempty_lines s = drop_blank (line_pieces s)

-- `_extract_command_messages(data)`: the first of the four keys that a dict has is searched alone.
unfoldable mutual
  unfolding has nonempty_lines

  pub messages : Value → List String
  messages (str s) = nonempty_lines s
  messages (list xs) = messages_in xs
  messages (dict fs) =
      if has "message" fs
      then messages_at "message" fs
      else if has "text" fs
      then messages_at "text" fs
      else if has "line" fs
      then messages_at "line" fs
      else if has "event" fs
      then messages_at "event" fs
      else messages_below fs
  messages _ = []

  pub messages_in : Items → List String
  messages_in nil = []
  messages_in (cons x xs) = messages x ++ messages_in xs

  pub messages_at : String → Fields → List String
  messages_at key end = []
  messages_at key (field k x fs) =
      let here = messages x in let later = messages_at key fs in if k == key then here else later

  -- A text beside the other values is a description, not a message.
  pub messages_below : Fields → List String
  messages_below end = []
  messages_below (field k (str s) fs) = messages_below fs
  messages_below (field k x fs) = messages x ++ messages_below fs

unfoldable pub is_word : ℕ → Bool
is_word c =
    (leb b'0' c && leb c b'9')
    || (leb b'A' c && leb c b'Z')
    || (leb b'a' c && leb c b'z')
    || eqb c b'_'

-- The phrase stands at the head of the text, up to the end of a word.
pub phrase_here : String → String → Bool
unfolding is_word
phrase_here String.[] String.[] = true
phrase_here String.[] (String.◌∷◌ c s) = not (is_word (code c))
phrase_here (String.◌∷◌ a w) String.[] = false
phrase_here (String.◌∷◌ a w) (String.◌∷◌ c s) = eqb (code a) (code c) && phrase_here w s

-- The phrase stands in the text, between the ends of words; the flag says that a word goes on.
pub has_phrase : Bool → String → String → Bool
unfolding is_word phrase_here
has_phrase inside w String.[] = false
has_phrase inside w (String.◌∷◌ c s) =
    (not inside && phrase_here w (String.◌∷◌ c s)) || has_phrase (is_word (code c)) w s

abbrev pub error_phrases : List String
error_phrases =
    "error" ∷ "failed" ∷ "unknown" ∷ "invalid" ∷ "forbidden" ∷ "not found" ∷ "permission denied"
    ∷ "access denied" ∷ "operation not allowed" ∷ "no such command" ∷ "bad parameter"
    ∷ "already exists" ∷ []

-- `_RCI_PARSE_ERROR_RE.search(message)`.
unfoldable pub is_error_message : String → Bool
unfolding has_phrase phrase_here is_word
is_error_message message = any (λ w. has_phrase false w (lower message)) error_phrases

-- `value in ("ok", "started", "accepted", "success", True)`.
abbrev pub is_success : Value → Bool
is_success v =
    value_eq v (str "ok")
    || value_eq v (str "started")
    || value_eq v (str "accepted")
    || value_eq v (str "success")
    || value_eq v (bool true)

abbrev pub reports_success : Value → Bool
reports_success (dict fs) = is_success (get "status" fs) || is_success (get "result" fs)
reports_success v = false

-- `normalized_command.startswith(("show ", "ip ping "))`.
abbrev pub only_reads : String → Bool
only_reads command =
    starts_with (lower (strip command)) "show " || starts_with (lower (strip command)) "ip ping "

abbrev raise_first : Value → Option String → Result Value
raise_first result none = ok result
raise_first result (some message) = err (api_error message none)

-- What `_rci_parse` makes of the answer to a command.
unfoldable pub settle_command : String → Value → Result Value
settle_command command result =
    if only_reads command || reports_success result
    then ok result
    else raise_first result (first is_error_message (messages result))

abbrev pub settled : String → Result Value × Client → Result Value × Client
settled command (ok result, c) = (settle_command command result, c)
settled command (err e, c) = (err e, c)

-- `_rci_parse(command)`.
unfoldable pub rci_parse : Site → String → Client → Result Value × Client
rci_parse site command c = settled command (rci_post site "parse" (str command) true c)

-- `_async_save_configuration(change)`: the errors of the client are logged.
abbrev pub logged : Result Value × Client → Result (Unit {0}) × Client
logged (ok v, c) = (ok tt, c)
logged (err (other_error e), c) = (err (other_error e), c)
logged (err e, c) = (ok tt, c)

unfoldable pub save_configuration : Site → Client → Result (Unit {0}) × Client
save_configuration site c = logged (rci_parse site "system configuration save" c)

finds_error : is_error_message "Core::Configurator: Command failed, unknown interface" ≡ true
unfolding is_error_message lower native.Mathlib.Decide.dec_lt
finds_error = refl

passes_failover : is_error_message "Failover enabled" ≡ false
unfolding is_error_message lower native.Mathlib.Decide.dec_lt
passes_failover = refl
