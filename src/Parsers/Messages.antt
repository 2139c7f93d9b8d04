-- ===== src/Parsers/Messages.antt =====
-- api/helpers.py: the messages and log lines of a result.
use keenetic_router_pro.Prelude.{String, List, [], ◌∷◌, ◌++◌, if◌then◌else◌, ◌==◌}
use keenetic_router_pro.Value.{
  Value, str, dict, list, Items, nil, cons, Fields, end, field, Runtime, get, has, is_blank, truthy,
  or_else,
}
use keenetic_router_pro.Text.{join}
use keenetic_router_pro.Transport.Commands.{nonempty_lines}

abbrev part : Runtime → Value → List String
part rt v = if is_blank v then [] else rt.print v ∷ []

abbrev text_part : Runtime → Value → List String
text_part rt v = if truthy v then rt.print v ∷ [] else []

-- The parts of a log record, in the order of the line.
unfoldable pub parts : Runtime → Fields → List String
parts rt fs =
    part rt (get "level" fs)
    ++ (part rt (get "time" fs)
        ++ (part rt (get "module" fs)
            ++ (part rt (get "ident" fs)
                ++ (part rt (get "service" fs)
                    ++ text_part rt (or_else (get "msg" fs) (get "description" fs))))))

abbrev line_or : List String → List String → List String
line_or [] below = below
line_or words below = join " " words ∷ []

-- `_extract_parse_messages(data)`.
unfoldable mutual
  unfolding has nonempty_lines parts

  pub parse_messages : Runtime → Value → List String
  parse_messages rt (str s) = nonempty_lines s
  parse_messages rt (list xs) = parse_messages_in rt xs
  parse_messages rt (dict fs) =
      if has "message" fs
      then parse_messages_at rt "message" fs
      else if has "text" fs
      then parse_messages_at rt "text" fs
      else if has "line" fs
      then parse_messages_at rt "line" fs
      else if has "event" fs
      then parse_messages_at rt "event" fs
      else line_or (parts rt fs) (parse_messages_below rt fs)
  parse_messages rt _ = []

  pub parse_messages_in : Runtime → Items → List String
  parse_messages_in rt nil = []
  parse_messages_in rt (cons x xs) = parse_messages rt x ++ parse_messages_in rt xs

  pub parse_messages_at : Runtime → String → Fields → List String
  parse_messages_at rt key end = []
  parse_messages_at rt key (field k x fs) =
      let here = parse_messages rt x in
      let later = parse_messages_at rt key fs in if k == key then here else later

  pub parse_messages_below : Runtime → Fields → List String
  parse_messages_below rt end = []
  parse_messages_below rt (field k x fs) = parse_messages rt x ++ parse_messages_below rt fs
