-- ===== src/Parsers/Helpers.antt =====
-- api/helpers.py: lists and dicts out of loosely typed payloads.
pub mod Entries
use keenetic_router_pro.Prelude.{
  String, Bool, if◌then◌else◌, List, Option, ◌||◌, some, [], ◌∷◌, none,
}
use keenetic_router_pro.Value.{
  Value, null, bool, int, str, dict, list, Items, nil, cons, Fields, end, field, get, has, put,
  truthy, or_else, as_dict, items,
}

-- `_as_list(value)`.
unfoldable pub as_list : Value → List Value
as_list (list xs) = items xs
as_list (dict fs) = dict fs ∷ []
as_list v = []

-- The values of a dict that are dicts.
unfoldable pub dict_children : Fields → List Fields
dict_children end = []
dict_children (field k (dict fs) rest) = fs ∷ dict_children rest
dict_children (field k v rest) = dict_children rest

unfoldable pub dict_elements : Items → List Fields
dict_elements nil = []
dict_elements (cons (dict fs) rest) = fs ∷ dict_elements rest
dict_elements (cons v rest) = dict_elements rest

abbrev children_or_self : List Fields → Fields → List Fields
children_or_self [] fs = if truthy (dict fs) then fs ∷ [] else []
children_or_self children fs = children

-- `_dict_items(value)`.
unfoldable pub dict_items : Value → List Fields
dict_items (list xs) = dict_elements xs
dict_items (dict fs) = children_or_self (dict_children fs) fs
dict_items v = []

abbrev has_marker : Fields → Bool
has_marker fs = has "cid" fs || has "mac" fs || has "id" fs || has "ip" fs || has "address" fs

abbrev marked : Value → Option Fields
marked (dict fs) = if has_marker fs then some fs else none
marked v = none

abbrev items_or : List Fields → List Fields → List Fields
items_or [] later = later
items_or found later = found

unfoldable pub nested_items : List String → Fields → List Fields
nested_items [] data_ = []
nested_items (key ∷ keys) data_ =
    let later = nested_items keys data_ in
    elim (marked (get key data_)) [
      | some fs ↦ fs ∷ []
      | none ↦ items_or (dict_items (get key data_)) later
    ]

-- `_nested_dict_items(data, *keys)`.
unfoldable pub nested_dict_items : Value → List String → List Fields
nested_dict_items (list xs) keys = dict_elements xs
nested_dict_items (dict fs) keys = nested_items keys fs
nested_dict_items v keys = []

-- `{**val, "id": key}`, where the id is missing.
unfoldable pub with_id : String → Fields → Fields
with_id key val = if has "id" val then val else put "id" (str key) val

unfoldable pub interfaces_of : Fields → List Fields
interfaces_of end = []
interfaces_of (field key (dict val) rest) = with_id key val ∷ interfaces_of rest
interfaces_of (field key v rest) = interfaces_of rest

-- `_normalize_interfaces(raw)`.
unfoldable pub normalize_interfaces : Value → List Fields
normalize_interfaces (dict fs) = interfaces_of fs
normalize_interfaces (list xs) = dict_elements xs
normalize_interfaces v = []
