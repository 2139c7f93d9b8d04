-- ===== src/Domains/Commands/Sent.antt =====
-- What the commands of api/domains send to the router's command line.
use text.Mathlib.TextLemmas.{nil-append, cons-append}
use keenetic_router_pro.Prelude.{
  ap, ◌∙◌, String, Bool, true, false, List, [], ◌∷◌, ◌≡◌, refl, arith, Option, some, none, All,
  eq_iff, ◌&&◌, ◌||◌,
}
use keenetic_router_pro.Value.{str}
use keenetic_router_pro.Text.{◌<>◌}
use keenetic_router_pro.Transport.Http.{Site, Client, Result, Request, ok, err, auth_error}
use keenetic_router_pro.Transport.Sending.{Sends, same, Grown-trans, request-Sends}
use keenetic_router_pro.Transport.Calls.{rci_post}
use keenetic_router_pro.Transport.Commands.{is_word, rci_parse, settled, save_configuration, logged}
use keenetic_router_pro.Domains.{
  and_then, checked, validate_cli_arg, run_commands, all_cli_chars, is_cli_char, Value, strip, code,
  eqb, is_word, api_error,
}
use keenetic_router_pro.Domains.Commands.{
  clean_mac, policy_commands, set_client_policy, set_interface_enabled, set_wifi_enabled,
  reboot_mesh_node, other_error, run_and_save, updown,
}

-- One line of words: no line break, no quote, no separator of commands.
unfoldable pub is_line : String → Bool
unfolding is_cli_char
is_line String.[] = true
is_line (String.◌∷◌ c s) = (is_cli_char (code c) || eqb (code c) 32) && is_line s

-- A request that runs a command runs one line.
abbrev pub IsLine : Request → Type 0
IsLine r = elim r.json [ some (str s) ↦ is_line s ≡ true | _ ↦ Unit {0} ]

is_line-append : (a b : String) → is_line (a <> b) ≡ (is_line a && is_line b)
unfolding is_line
is_line-append String.[] b = ap is_line (nil-append b)
is_line-append (String.◌∷◌ c a) b =
    ap is_line (cons-append c a b) ∙ ground (arith, is_line-append a b)

is_line_of_token : (s : String) → all_cli_chars s ≡ true → is_line s ≡ true
unfolding is_line all_cli_chars
is_line_of_token String.[] h = refl
is_line_of_token (String.◌∷◌ c s) h = ground (arith, is_line_of_token s)

-- What the check lets through.
abbrev pub IsToken : Result String → Type 0
IsToken (ok t) = all_cli_chars t ≡ true
IsToken (err e) = Unit {0}

validate_cli_arg-IsToken : (v : Option String) (label : String) → IsToken (validate_cli_arg v label)
unfolding validate_cli_arg
validate_cli_arg-IsToken none label = tt
validate_cli_arg-IsToken (some v) label = ground (arith, eq_iff (strip v) v)

checked-Sends :
    {P : Request → Type 0} (c : Client) (r : Result String)
    (f : String → Result (Unit {0}) × Client)
    → IsToken r
    → ((t : String) → is_line t ≡ true → Sends P c (f t))
    → Sends P c (checked r c f)
checked-Sends c (ok t) f h g = g t (is_line_of_token t h)
checked-Sends c (err e) f h g = same

settled-Sends :
    {P : Request → Type 0} (c : Client) (command : String) (out : Result Value × Client)
    → Sends P c out
    → Sends P c (settled command out)
settled-Sends c command (ok v, c') h = h
settled-Sends c command (err e, c') h = h

module _ (site : Site) where
  rci_parse-Sends :
      (command : String) (c : Client)
      → is_line command ≡ true
      → Sends IsLine c (rci_parse site command c)
  unfolding rci_parse rci_post
  rci_parse-Sends command c h =
      settled-Sends c command (rci_post site "parse" (str command) true c)
        (request-Sends site IsLine tt tt (λ ch. tt) _ (λ c. h) c)

  and_then-Sends :
      (c : Client) (out : Result Value × Client) (f : Value → Client → Result (Unit {0}) × Client)
      → Sends IsLine c out
      → ((v : Value) (c : Client) → Sends IsLine c (f v c))
      → Sends IsLine c (and_then out f)
  and_then-Sends c (ok v, c') f h g = Grown-trans h (g v c')
  and_then-Sends c (err e, c') f h g = h

  run_commands-Sends :
      (cmds : List String) (c : Client)
      → All (λ s. is_line s ≡ true) cmds
      → Sends IsLine c (run_commands site cmds c)
  unfolding run_commands
  run_commands-Sends [] c h = same
  run_commands-Sends (cmd ∷ cmds) c h =
      and_then-Sends c _ _ (rci_parse-Sends cmd c h.0) (λ v c. run_commands-Sends cmds c h.1)

abbrev AreLines : List String → Type 0
AreLines = All (λ s. is_line s ≡ true)

saves : is_line "system configuration save" ≡ true
unfolding is_line is_cli_char is_word
saves = refl

around :
    (a t b : String)
    → is_line a ≡ true
    → is_line b ≡ true
    → is_line t ≡ true
    → is_line (a <> (t <> b)) ≡ true
around a t b ha hb ht = rw (is_line-append, is_line-append, ha, hb, ht) refl

around_two :
    (a s b t : String)
    → is_line a ≡ true
    → is_line b ≡ true
    → is_line s ≡ true
    → is_line t ≡ true
    → is_line (a <> (s <> (b <> t))) ≡ true
around_two a s b t ha hb hs ht =
    rw (is_line-append, is_line-append, is_line-append, ha, hb, hs, ht) refl

policy_commands-AreLines :
    (mac policy : String)
    → is_line mac ≡ true
    → is_line policy ≡ true
    → AreLines (policy_commands mac policy)
unfolding policy_commands is_line is_cli_char is_word
policy_commands-AreLines mac policy hm hp = ground (
  arith,
  around "ip hotspot host " mac " deny" refl refl hm,
  around "no ip hotspot host " mac " policy" refl refl hm,
  around "ip hotspot host " mac " permit" refl refl hm,
  around_two "ip hotspot host " mac " policy " policy refl refl hm hp,
  saves,
)

updown-is_line : (enabled : Bool) → is_line (" " <> updown enabled) ≡ true
unfolding is_line is_cli_char is_word
updown-is_line true = refl
updown-is_line false = refl

logged-Sends :
    {P : Request → Type 0} (c : Client) (out : Result Value × Client)
    → Sends P c out
    → Sends P c (logged out)
logged-Sends c (ok v, c') h = h
logged-Sends c (err (auth_error m), c') h = h
logged-Sends c (err (api_error m s), c') h = h
logged-Sends c (err (other_error m), c') h = h

module _ (site : Site) where
  save-Sends : (c : Client) → Sends IsLine c (save_configuration site c)
  unfolding save_configuration is_line is_cli_char is_word
  save-Sends c = logged-Sends c _ (rci_parse-Sends site "system configuration save" c refl)

  switch-Sends :
      (name : String) (enabled : Bool) (c : Client)
      → is_line name ≡ true
      → Sends IsLine c (run_and_save site ("interface " <> (name <> (" " <> updown enabled))) c)
  unfolding is_line is_cli_char is_word
  switch-Sends name enabled c h =
      and_then-Sends site c _ _
        (rci_parse-Sends site _ c
          (around "interface " name (" " <> updown enabled) refl (updown-is_line enabled) h))
        (λ v c. save-Sends c)

  -- Whatever text a caller hands in as an address, a policy, an interface or a mesh node, and whatever the
  -- router answers: every command that the call sends is one line of words and blanks, with no line break,
  -- quote or separator by which the text could bring in a command of its own.
  pub commands-SendLines :
      (text policy : String) (enabled : Bool) (c : Client)
      → Sends IsLine c (set_client_policy site text policy c)
        × Sends IsLine c (set_interface_enabled site text enabled c)
        × Sends IsLine c (set_wifi_enabled site text enabled c)
        × Sends IsLine c (reboot_mesh_node site text c)
  unfolding set_client_policy set_interface_enabled set_wifi_enabled reboot_mesh_node clean_mac
      is_line is_cli_char is_word keenetic_router_pro.Text.lower
  commands-SendLines text policy enabled c = (
    checked-Sends c _ _ (validate_cli_arg-IsToken _ _) (λ mac hm.
        checked-Sends c _ _ (validate_cli_arg-IsToken _ _)
          (λ p hp. run_commands-Sends site _ c (policy_commands-AreLines mac p hm hp))),
    checked-Sends c _ _ (validate_cli_arg-IsToken _ _) (λ name h. switch-Sends name enabled c h),
    checked-Sends c _ _ (validate_cli_arg-IsToken _ _) (λ name h. switch-Sends name enabled c h),
    checked-Sends c _ _ (validate_cli_arg-IsToken _ _) (λ cid h.
        and_then-Sends site c _ _
          (rci_parse-Sends site _ c (around "mws member " cid " reboot" refl refl h))
          (λ v c. same)),
  )
