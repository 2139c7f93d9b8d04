-- ===== src/Domains/Wifi.antt =====
-- api/domains/wifi.py: the Wi-Fi networks. Types and SSIDs are texts: another value would raise.
use keenetic_router_pro.Prelude.{
  String, List, [], ◌∷◌, ◌++◌, Option, some, none, Bool, Dict, insert, lookup, is_some, ℤ, pos,
  ◌||◌, if◌then◌else◌, ◌==◌, not, leb_ℤ, ◌&&◌,
}
use keenetic_router_pro.Value.{
  Value, null, list, str, bool, Fields, end, field, get, get_or, or_else, truthy, Runtime,
}
use keenetic_router_pro.Text.{lower, strip, includes, join, before, ◌<>◌}
use keenetic_router_pro.Utils.Coerce.{int_of_text}
use keenetic_router_pro.Transport.Http.{Site, Client, Result}
use keenetic_router_pro.Domains.Wan.{lower_at, interfaces_or}
use keenetic_router_pro.Domains.Vpn.{lower_texts}

-- An access point with its id, `clone["__id"]`.
pub record AccessPoint : Type 0 where
  pub id : String
  pub item : Fields

pub record Group : Type 0 where
  pub ssid : String
  pub group : String
  pub aps : List AccessPoint

module _ (rt : Runtime) where
  abbrev text_at : String → Fields → String
  text_at key item = rt.print (or_else (get key item) (str ""))

  abbrev bridge_id : Fields → Value
  bridge_id item = or_else (get "id" item) (get "interface-name" item)

  abbrev bridge_label : Fields → String
  bridge_label item =
      rt.print
        (or_else (get "interface-name" item) (or_else (get "description" item) (bridge_id item)))

  unfoldable pub bridge_labels : List Fields → Dict String → Dict String
  bridge_labels [] found = found
  bridge_labels (item ∷ rest) found = bridge_labels rest (
      if lower_at rt "type" item == "bridge" && truthy (bridge_id item)
      then insert (rt.print (bridge_id item)) (bridge_label item) found
      else found)

  abbrev raw_id : Fields → Value
  raw_id item =
      or_else (get "id" item)
        (or_else (get "interface-name" item) (or_else (get "name" item) (get "ifname" item)))

  abbrev traits_of : Value → String
  traits_of (list xs) = join "" (lower_texts rt xs)
  traits_of v = ""

  unfoldable pub is_ap : Fields → Bool
  is_ap item =
      includes "accesspoint" (lower (rt.print (raw_id item)))
      || lower_at rt "type" item == "accesspoint"
      || (includes "wifi" (traits_of (get "traits" item))
          && includes "accesspoint" (traits_of (get "traits" item)))

  abbrev ssid_of : Fields → String
  ssid_of item = strip (text_at "ssid" item)

  abbrev group_of : Fields → String
  group_of item = strip (text_at "group" item)

  -- An access point without SSID and group is left out.
  unfoldable pub ap_items : List Fields → List AccessPoint
  unfolding is_ap
  ap_items [] = []
  ap_items (item ∷ rest) =
      let later = ap_items rest in
      if truthy (raw_id item) && is_ap item && not (ssid_of item == "" && group_of item == "")
      then record { id = rt.print (raw_id item); item = item } ∷ later
      else later

  abbrev text_or : String → String → String
  text_or a b = if a == "" then b else a

  abbrev base_id : String → String
  base_id id = before b'/' id

  abbrev group_key : AccessPoint → String
  group_key ap = text_or (group_of ap.item) (text_or (ssid_of ap.item) (base_id ap.id))

  abbrev group_or_new : AccessPoint → Option Group → Group
  group_or_new ap none = record { ssid = ""; group = group_of ap.item; aps = [] }
  group_or_new ap (some g) = g

  -- The SSID of an access point wins; a disabled one has none.
  abbrev join_group : AccessPoint → Group → Group
  join_group ap g = record g { ssid = text_or (ssid_of ap.item) g.ssid; aps = g.aps ++ (ap ∷ []) }

  unfoldable pub group_aps : List AccessPoint → Dict Group → Dict Group
  group_aps [] groups = groups
  group_aps (ap ∷ aps) groups = group_aps aps (
      insert (group_key ap) (join_group ap (group_or_new ap (lookup (group_key ap) groups))) groups)

  abbrev label_or : String → Option String → String
  label_or group none = group
  label_or group (some label) = label

  -- The second pass: a group without an SSID has the label of its bridge, or its own name.
  abbrev pub named_ssid : Dict String → Group → String
  named_ssid labels g =
      if not (g.ssid == "")
      then g.ssid
      else if g.group == ""
      then ""
      else label_or g.group (lookup g.group labels)

  unfoldable pub logical_name : Dict String → Group → String
  logical_name labels g =
      let name = strip (named_ssid labels g) in
      if not (name == "")
      then name
      else if g.group == ""
      then "Wi-Fi"
      else label_or g.group (lookup g.group labels)

  abbrev channel_band : Option ℤ → String
  channel_band none = ""
  channel_band (some ch) = if leb_ℤ (pos 1) ch && leb_ℤ ch (pos 14) then "2.4" else "5"

  -- The band that the router names, or the one of the radio, or the one of the channel.
  unfoldable pub band_of : AccessPoint → String
  band_of ap =
      let band = strip (text_at "band" ap.item) in
      if not (band == "")
      then band
      else if includes "wifimaster0" (lower (base_id ap.id))
      then "2.4"
      else if includes "wifimaster1" (lower (base_id ap.id))
      then "5"
      else if text_at "channel" ap.item == ""
      then ""
      else channel_band (int_of_text (text_at "channel" ap.item))

  unfoldable pub band_label : String → String
  band_label band =
      if band == ""
      then ""
      else if includes "2.4" (lower band) || lower band == "2"
      then "2.4 GHz"
      else if includes "5" (lower band)
      then "5 GHz"
      else band

  abbrev pub band_key : AccessPoint → String
  band_key ap = text_or (band_label (band_of ap)) "default"

  -- The first access point of each band.
  unfoldable pub per_band : List AccessPoint → Dict AccessPoint → Dict AccessPoint
  unfolding band_of band_label
  per_band [] found = found
  per_band (ap ∷ aps) found =
      per_band aps
        (if is_some (lookup (band_key ap) found) then found else insert (band_key ap) ap found)

  abbrev group_or_none : String → Value
  group_or_none group = if group == "" then null else str group

  abbrev tx_power : Fields → Value
  tx_power item = elim (get "tx-power" item) [ null ↦ get "tx_power" item | v ↦ v ]

  -- The record of a network. None of its keys is one of those that the code removes for their secrets, and
  -- the key of the band is never empty.
  unfoldable pub network : String → String → String → AccessPoint → Fields
  network name group band ap = field "id" (str ap.id) (
      field "name" (str (name <> (" " <> band))) (
        field "ssid" (str name) (
          field "band" (str band) (
            field "enabled" (bool (lower (rt.print (get_or "state" (str "") ap.item)) == "up")) (
              field "state" (get "state" ap.item) (
                field "group" (group_or_none group) (
                  field "channel" (get "channel" ap.item)
                    (field "tx_power" (tx_power ap.item) end))))))))

  unfoldable pub band_networks : String → String → Dict AccessPoint → List Fields
  unfolding network
  band_networks name group [] = []
  band_networks name group ((band, ap) ∷ rest) =
      network name group band ap ∷ band_networks name group rest

  unfoldable pub group_networks : Dict String → Dict Group → List Fields
  unfolding logical_name per_band band_networks
  group_networks labels [] = []
  group_networks labels ((key, g) ∷ rest) =
      band_networks (logical_name labels g) g.group (per_band g.aps [])
      ++ group_networks labels rest

  unfoldable pub wifi_networks : List Fields → List Fields
  unfolding bridge_labels ap_items group_aps group_networks
  wifi_networks iface_list =
      group_networks (bridge_labels iface_list []) (group_aps (ap_items iface_list) [])

-- `async_get_wifi_networks(iface_list=...)`.
unfoldable pub get_wifi_networks :
    Site → Option (List Fields) → Client → Result (List Fields) × Client
unfolding wifi_networks
get_wifi_networks site iface_list c = interfaces_or site iface_list (wifi_networks site.runtime) c
