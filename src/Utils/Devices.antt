-- ===== src/Utils/Devices.antt =====
-- utils.py: the device that Home Assistant shows for the router, a mesh node, an uplink, a tunnel and a
-- client. `urllib.parse` and the letters beyond ASCII are parameters.
pub mod Unique
pub mod Tokens
use Prim.Native.Char.{Char, code}
use keenetic_router_pro.Prelude.{
  String, ℕ, Bool, Option, none, some, not, ◌&&◌, ◌||◌, if◌then◌else◌, leb, eqb, ◌==◌, false,
}
use keenetic_router_pro.Value.{
  Value, Fields, str, null, dict, get, truthy, or_else, as_dict, Runtime,
}
use keenetic_router_pro.Text.{strip, replace, before, includes, upper, ◌<>◌}
use keenetic_router_pro.Utils.Addresses.{bracket_host}
use keenetic_router_pro.Utils.Clients.{client_display_name, usable_ip}

-- `urlsplit`, as the netloc and the path, where `none` is ValueError; `urlunsplit` of a scheme and a netloc.
pub record Urls : Type 0 where
  pub urlsplit : String → Option (String × String)
  pub urlunsplit : String → String → String

-- How a device is tied to the router's.
pub data Link : Type 0 where
  no_link : Link
  via_device_id : String → Link
  via_device : String → Link

-- The dict of a device; the identifier is paired with the domain. A key that the dict lacks is `none`.
pub record DeviceInfo : Type 0 where
  pub identifier : String
  pub name : Value
  pub manufacturer : Value
  pub model : Value
  pub sw_version : Option Value
  pub configuration_url : Option Value
  pub link : Link

pub underscore : Char
underscore = "_"

-- `\w` of the module `re`, where `letters` says it of the characters beyond ASCII.
unfoldable pub is_word : (ℕ → Bool) → ℕ → Bool
is_word letters c =
    (leb b'0' c && leb c b'9')
    || (leb b'A' c && leb c b'Z')
    || (leb b'a' c && leb c b'z')
    || eqb c b'_'
    || (leb 128 c && letters c)

-- `_MESH_ID_SAFE_RE.sub("_", text)`, where `run` says that the last character was replaced.
unfoldable pub replace_runs : (ℕ → Bool) → Bool → String → String
unfolding is_word underscore
replace_runs letters run String.[] = String.[]
replace_runs letters run (String.◌∷◌ c s) =
    let word = is_word letters (code c) in
    let rest = replace_runs letters (not word) s in
    if word then String.◌∷◌ c rest else if run then rest else String.◌∷◌ underscore rest

unfoldable pub lstrip_underscores : String → String
lstrip_underscores String.[] = String.[]
lstrip_underscores (String.◌∷◌ c s) =
    let rest = lstrip_underscores s in if eqb (code c) b'_' then rest else String.◌∷◌ c s

unfoldable pub rstrip_underscores : String → String
rstrip_underscores String.[] = String.[]
rstrip_underscores (String.◌∷◌ c s) =
    let rest = rstrip_underscores s in
    if eqb (code c) b'_' && rest == "" then "" else String.◌∷◌ c rest

-- `sanitize_mesh_id(value)`, for a text.
unfoldable pub sanitize_mesh_id : (ℕ → Bool) → String → String
unfolding replace_runs lstrip_underscores rstrip_underscores underscore
sanitize_mesh_id letters value =
    let text = replace b':' underscore (replace b'-' underscore (strip value)) in
    let token = rstrip_underscores (lstrip_underscores (replace_runs letters false text)) in
    if token == "" then "unknown" else token

-- `mesh_unique_id(entry_id, node_id, suffix)`.
unfoldable pub mesh_unique_id : (ℕ → Bool) → String → String → String → String
unfolding sanitize_mesh_id
mesh_unique_id letters entry_id node_id suffix =
    entry_id
    <> ("_mesh_" <> (sanitize_mesh_id letters node_id <> ("_" <> sanitize_mesh_id letters suffix)))

-- `_parent_device_info(entry_id, parent_device_id)`.
unfoldable pub parent_device_info : String → Option String → Link
parent_device_info entry_id none = via_device entry_id
parent_device_info entry_id (some id) = via_device_id id

-- The truth of an optional text, and `text or fallback`.
abbrev is_given : Option String → Bool
is_given none = false
is_given (some s) = not (s == "")

abbrev given_or : Option String → String → String
given_or none fallback = fallback
given_or (some s) fallback = if s == "" then fallback else s

abbrev text_or_null : Option String → Value
text_or_null none = null
text_or_null (some s) = str s

abbrev scheme_of : Bool → String
scheme_of ssl = if ssl then "https" else "http"

netloc_or_path : String × String → String
netloc_or_path (netloc, path) = before b'/' (if netloc == "" then path else netloc)

abbrev map {ℓ ℓ'} : {A : Type ℓ} {B : Type ℓ'} → (A → B) → Option A → Option B
map f none = none
map f (some a) = some (f a)

-- `_url_host(value)`.
unfoldable pub url_host : Urls → String → Option String
unfolding netloc_or_path
url_host urls value =
    let stripped = strip value in
    map netloc_or_path
      (urls.urlsplit (if includes "://" stripped then stripped else "//" <> stripped))

abbrev plain_url : Urls → Option String → Bool → Value
plain_url urls host ssl =
    if is_given host
    then str (urls.urlunsplit (scheme_of ssl) (bracket_host (given_or host "")))
    else null

-- The URL of the router; `none` is ValueError.
unfoldable pub configuration_url : Urls → Option String → Bool → Option String → Option Value
unfolding url_host
configuration_url urls host ssl none = some (plain_url urls host ssl)
configuration_url urls host ssl (some domain) =
    if strip domain == ""
    then some (plain_url urls host ssl)
    else map (λ clean. str (urls.urlunsplit (scheme_of ssl) clean)) (url_host urls domain)

-- `get_main_device_info(...)`; `none` is the ValueError of `urlsplit`.
unfoldable pub get_main_device_info :
    Urls
    → String
    → String
    → Option String
    → Option String
    → Option String
    → Bool
    → Option String
    → Option DeviceInfo
unfolding configuration_url
get_main_device_info urls title entry_id firmware_version model host ssl ndns_domain =
    map
      (λ url. record {
        identifier = entry_id;
        name = str title;
        manufacturer = str "Keenetic";
        model = str (given_or model "Controller");
        sw_version = some (text_or_null firmware_version);
        configuration_url = some url;
        link = no_link;
      })
      (configuration_url urls host ssl ndns_domain)

abbrev fqdn_of : Value → String
fqdn_of (str s) = if strip s == "" then "" else s
fqdn_of v = ""

abbrev node_url : Runtime → Value → Bool → Value → Value
node_url rt node_ip ssl fqdn =
    if not (fqdn_of fqdn == "")
    then str (scheme_of ssl <> ("://" <> fqdn_of fqdn))
    else if truthy node_ip
    then str (scheme_of ssl <> ("://" <> bracket_host (rt.print node_ip)))
    else null

abbrev pub node_device :
    Runtime
    → (ℕ → Bool)
    → String
    → Fields
    → String
    → Option String
    → Bool
    → Value
    → Option String
    → DeviceInfo
node_device rt letters entry_id node node_cid host ssl fqdn parent = record {
  identifier = entry_id <> ("_mesh_" <> sanitize_mesh_id letters node_cid);
  name = or_else (get "name" node) (or_else (get "mac" node) (str node_cid));
  manufacturer = str "Keenetic";
  model = or_else (get "model" node) (str "Extender");
  sw_version = some (get "firmware" node);
  configuration_url = some (node_url rt (or_else (get "ip" node) (text_or_null host)) ssl fqdn);
  link = parent_device_info entry_id parent;
}

-- `get_mesh_device_info(...)`: the device of a node, or the router's where none is given. A node that is
-- missing is the empty dict.
unfoldable pub get_mesh_device_info :
    Runtime
    → Urls
    → (ℕ → Bool)
    → String
    → String
    → Fields
    → Option String
    → Option String
    → Bool
    → Value
    → Option String
    → Option DeviceInfo
unfolding get_main_device_info parent_device_info sanitize_mesh_id
get_mesh_device_info rt urls letters title entry_id node node_cid host ssl fqdn parent =
    if truthy (dict node) && is_given node_cid
    then some (node_device rt letters entry_id node (given_or node_cid "") host ssl fqdn parent)
    else get_main_device_info urls title entry_id none none host ssl none

abbrev sub_device : String → String → String → Link → DeviceInfo
sub_device identifier name model link = record {
  identifier = identifier;
  name = str name;
  manufacturer = str "Keenetic";
  model = str model;
  sw_version = none;
  configuration_url = none;
  link = link;
}

-- `get_wan_device_info(...)`.
unfoldable pub get_wan_device_info :
    String
    → String
    → String
    → Option String
    → Option String
    → Option String
    → Option String
    → DeviceInfo
unfolding parent_device_info
get_wan_device_info title entry_id wan_id description iface_type role_label parent =
    sub_device (entry_id <> ("_wan_" <> wan_id))
      (title
        <> (" — "
            <> (given_or description wan_id
                <> (if is_given role_label then " (" <> (given_or role_label "" <> ")") else ""))))
      (if is_given iface_type then "WAN (" <> (given_or iface_type "" <> ")") else "WAN")
      (parent_device_info entry_id parent)

-- `get_vpn_interface_device_info(...)`.
unfoldable pub get_vpn_interface_device_info :
    String → String → String → Option String → Option String → Option String → DeviceInfo
unfolding parent_device_info
get_vpn_interface_device_info title entry_id iface_id label iface_type parent =
    sub_device (entry_id <> ("_iface_" <> iface_id)) (title <> (" — " <> given_or label iface_id))
      (if is_given iface_type
        then upper (given_or iface_type "") <> " interface"
        else "VPN interface")
      (parent_device_info entry_id parent)

-- `get_crypto_map_device_info(...)`.
unfoldable pub get_crypto_map_device_info :
    String → String → String → Option String → Option String → DeviceInfo
unfolding parent_device_info
get_crypto_map_device_info title entry_id cmap_name remote_peer parent =
    sub_device (entry_id <> ("_cmap_" <> cmap_name))
      (title
        <> (" — IPsec "
            <> (cmap_name
                <> (if is_given remote_peer then " → " <> given_or remote_peer "" else ""))))
      "IPsec site-to-site tunnel" (parent_device_info entry_id parent)

-- A text of the client's SSDP record.
abbrev text_only : Value → Value
text_only (str s) = str s
text_only v = null

abbrev ssdp_text : String → Value → Value
ssdp_text key (dict ssdp) = text_only (get key ssdp)
ssdp_text key v = null

abbrev address_url : Urls → Option String → Value
address_url urls none = null
address_url urls (some ip) = str (urls.urlunsplit "http" (bracket_host ip))

abbrev first_some : Option String → Option String → Option String
first_some none other = other
first_some (some s) other = some s

-- `get_client_device_info(...)`, where a client that is missing is the empty dict.
unfoldable pub get_client_device_info :
    Runtime → Urls → String → String → String → String → Fields → Value → Option String → DeviceInfo
unfolding parent_device_info underscore
get_client_device_info rt urls entry_id title mac label client initial_ip parent =
    let name = client_display_name client label in
    record {
      identifier = entry_id <> ("_client_" <> replace b':' underscore mac);
      name = str (if title == "" then name else name <> (" (" <> (title <> ")")));
      manufacturer = ssdp_text "manufacturer" (get "ssdp" client);
      model = ssdp_text "model" (get "ssdp" client);
      sw_version = none;
      configuration_url = some (
          address_url urls (first_some (usable_ip rt (get "ip" client)) (usable_ip rt initial_ip)));
      link = parent_device_info entry_id parent;
    }
