-- ===== src/Utils/Devices/Unique.antt =====
-- utils.py: the identifiers of devices.
use keenetic_router_pro.Prelude.{
  String, ℕ, Bool, Option, if◌then◌else◌, eqb, ◌≡◌, refl, sym, ap, ◌∙◌, false, arith,
}
use text.Mathlib.TextLemmas.{append_cancel_left, nil-append, cons-append, append_assoc}
use keenetic_router_pro.Value.{Value, Fields, Runtime}
use keenetic_router_pro.Text.{before, contains, replace, ◌<>◌}
use keenetic_router_pro.Utils.Devices.{
  Urls, DeviceInfo, underscore, sanitize_mesh_id, get_wan_device_info,
  get_vpn_interface_device_info, get_crypto_map_device_info, get_client_device_info, node_device,
  code,
}

-- What the entities of an entry hand over for a device below the router's.
pub data Sub : Type 0 where
  wan : String → Option String → Option String → Option String → Option String → Sub
  iface : String → Option String → Option String → Option String → Sub
  cmap : String → Option String → Option String → Sub
  client : String → String → Fields → Value → Option String → Sub
  mesh : Fields → String → Option String → Bool → Value → Option String → Sub

tail : String → String
tail String.[] = String.[]
tail (String.◌∷◌ c s) = s

-- The text behind the first underscore.
after : String → String
after String.[] = String.[]
after (String.◌∷◌ c s) = let rest = after s in if eqb (code c) b'_' then s else rest

read : String → String × String
read text = (before b'_' (tail text), after (tail text))

-- `"_" + kind + "_" + id`.
unfoldable mark : String → String → String
mark kind id = ("_" <> (kind <> "_")) <> id

push_underscore : (x : String) → ("_" <> x) ≡ String.◌∷◌ underscore x
unfolding underscore
push_underscore x = cons-append underscore "" x ∙ ap (String.◌∷◌ underscore) (nil-append x)

mark_split :
    (kind id : String) → mark kind id ≡ String.◌∷◌ underscore (kind <> String.◌∷◌ underscore id)
unfolding mark
mark_split kind id =
    append_assoc "_" (kind <> "_") id
    ∙ push_underscore ((kind <> "_") <> id)
    ∙ ap (String.◌∷◌ underscore)
        (append_assoc kind "_" id ∙ ap (λ x. kind <> x) (push_underscore id))

before-mark :
    (kind id : String)
    → contains b'_' kind ≡ false
    → before b'_' (kind <> String.◌∷◌ underscore id) ≡ kind
unfolding before contains underscore
before-mark String.[] id h = rw (nil-append (String.◌∷◌ underscore id)) refl
before-mark (String.◌∷◌ c kind) id h =
    rw (cons-append c kind (String.◌∷◌ underscore id)) (grind (arith, before-mark kind id))

after-mark :
    (kind id : String) → contains b'_' kind ≡ false → after (kind <> String.◌∷◌ underscore id) ≡ id
unfolding after contains underscore
after-mark String.[] id h = rw (nil-append (String.◌∷◌ underscore id)) refl
after-mark (String.◌∷◌ c kind) id h =
    rw (cons-append c kind (String.◌∷◌ underscore id)) (grind (arith, after-mark kind id))

read-mark : (kind id : String) → contains b'_' kind ≡ false → read (mark kind id) ≡ (kind, id)
unfolding read tail
read-mark kind id h =
    rw (mark_split kind id) (rw (before-mark kind id h, after-mark kind id h) refl)

module _ (rt : Runtime) (urls : Urls) (letters : ℕ → Bool) (title entry_id : String) where
  -- The device that the code builds for it.
  abbrev pub device_of : Sub → DeviceInfo
  device_of (wan id description type role parent) =
      get_wan_device_info title entry_id id description type role parent
  device_of (iface id label type parent) =
      get_vpn_interface_device_info title entry_id id label type parent
  device_of (cmap name peer parent) = get_crypto_map_device_info title entry_id name peer parent
  device_of (client mac label c ip parent) =
      get_client_device_info rt urls entry_id title mac label c ip parent
  device_of (mesh node cid host ssl fqdn parent) =
      node_device rt letters entry_id node cid host ssl fqdn parent

  -- What tells a device from the others: its kind, and the id of the router's object, sanitised for a node
  -- and a MAC address.
  abbrev pub key_of : Sub → String × String
  key_of (wan id description type role parent) = ("wan", id)
  key_of (iface id label type parent) = ("iface", id)
  key_of (cmap name peer parent) = ("cmap", name)
  key_of (client mac label c ip parent) = ("client", replace b':' underscore mac)
  key_of (mesh node cid host ssl fqdn parent) = ("mesh", sanitize_mesh_id letters cid)

  suffix : Sub → String
  suffix s = mark (key_of s).0 (key_of s).1

  identifier-suffix : (s : Sub) → (device_of s).identifier ≡ entry_id <> suffix s
  unfolding suffix mark get_wan_device_info get_vpn_interface_device_info get_crypto_map_device_info
      get_client_device_info
  identifier-suffix (wan id description type role parent) = refl
  identifier-suffix (iface id label type parent) = refl
  identifier-suffix (cmap name peer parent) = refl
  identifier-suffix (client mac label c ip parent) = refl
  identifier-suffix (mesh node cid host ssl fqdn parent) = refl

  read-suffix : (s : Sub) → read (suffix s) ≡ key_of s
  unfolding suffix contains
  read-suffix (wan id description type role parent) = read-mark "wan" id refl
  read-suffix (iface id label type parent) = read-mark "iface" id refl
  read-suffix (cmap name peer parent) = read-mark "cmap" name refl
  read-suffix (client mac label c ip parent) = read-mark "client" (replace b':' underscore mac) refl
  read-suffix (mesh node cid host ssl fqdn parent) =
      read-mark "mesh" (sanitize_mesh_id letters cid) refl

  -- Two devices of an entry that have the same identifier are of the same kind and stand for the same
  -- object, up to the spelling of a node's id, which is sanitised, and of a MAC address.
  pub identifier-key_of :
      (a b : Sub) → (device_of a).identifier ≡ (device_of b).identifier → key_of a ≡ key_of b
  identifier-key_of a b h =
      sym (read-suffix a)
      ∙ ap read (
          append_cancel_left entry_id (suffix a) (suffix b)
            (sym (identifier-suffix a) ∙ h ∙ identifier-suffix b))
      ∙ read-suffix b
