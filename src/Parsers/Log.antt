-- ===== src/Parsers/Log.antt =====
-- api/helpers.py, `_extract_log_entries`: the records of the router's log, the newest first.
pub mod Newest
use keenetic_router_pro.Prelude.{
  String, Bool, Option, List, ℤ, true, ◌∷◌, some, if◌then◌else◌, pos, leb_ℤ, false, ◌&&◌, none, [],
  ◌++◌,
}
use keenetic_router_pro.Value.{
  Value, null, str, int, dict, list, Items, nil, cons, Fields, end, field, get, or_else,
}

pub record LogEntry : Type 0 where
  pub time : Value
  pub level : Value
  pub source : Value
  pub message : String
  pub id : Value

-- The text of a record: its message, or the message of a message that is a dict.
abbrev inner_text : Value → Option String
inner_text (str s) = some s
inner_text v = none

abbrev message_text : Value → Option String
message_text (str s) = some s
message_text (dict m) = inner_text (get "message" m)
message_text v = none

-- `(inner or {}).get("level")`.
abbrev level_if : Option String → Value → Value
level_if none level = null
level_if (some text) level = level

abbrev inner_level : Value → Value
inner_level (dict m) = level_if (inner_text (get "message" m)) (get "level" m)
inner_level v = null

abbrev pub entry_of : String → Fields → LogEntry
entry_of text v = record {
  time = or_else (get "time" v) (get "timestamp" v);
  level = or_else (get "level" v) (inner_level (get "message" v));
  source = or_else (get "module" v) (or_else (get "service" v) (get "ident" v));
  message = text;
  id = get "id" v;
}

-- `_walk`: a record is not searched further.
unfoldable mutual
  unfolding get

  pub walk_value : Value → List LogEntry
  walk_value (dict v) = elim (message_text (get "message" v)) [
    | some text ↦ entry_of text v ∷ []
    | none ↦ walk_fields v
  ]
  walk_value (list xs) = walk_items xs
  walk_value _ = []

  pub walk_items : Items → List LogEntry
  walk_items nil = []
  walk_items (cons x xs) = walk_value x ++ walk_items xs

  pub walk_fields : Fields → List LogEntry
  walk_fields end = []
  walk_fields (field k x fs) = walk_value x ++ walk_fields fs

-- The id of a record as a number, with 0 for what is no int.
abbrev pub id_number : LogEntry → ℤ
id_number e = elim e.id [ int z ↦ z | _ ↦ pos 0 ]

abbrev pub has_int_id : LogEntry → Bool
has_int_id e = elim e.id [ int z ↦ true | _ ↦ false ]

-- The stable sort by falling id.
unfoldable pub insert_entry : LogEntry → List LogEntry → List LogEntry
insert_entry e [] = e ∷ []
insert_entry e (x ∷ xs) =
    let rest = insert_entry e xs in
    if leb_ℤ (id_number x) (id_number e) then e ∷ x ∷ xs else x ∷ rest

unfoldable pub sort_entries : List LogEntry → List LogEntry
sort_entries [] = []
sort_entries (e ∷ es) = insert_entry e (sort_entries es)

abbrev pub all_int_ids : List LogEntry → Bool
all_int_ids [] = true
all_int_ids (e ∷ es) = has_int_id e && all_int_ids es

unfoldable pub newest_first : List LogEntry → List LogEntry
newest_first es = if all_int_ids es then sort_entries es else es

-- `_extract_log_entries(data)`. The id of an entry, which the source drops at the end, stays.
unfoldable pub extract_log_entries : Value → List LogEntry
extract_log_entries data_ = newest_first (walk_value data_)
