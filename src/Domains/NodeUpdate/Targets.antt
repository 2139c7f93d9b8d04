-- ===== src/Domains/NodeUpdate/Targets.antt =====
-- api/domains/system.py: which hosts the update of a mesh node talks to.
use keenetic_router_pro.Prelude.{
  String, true, false, Option, some, none, Bool, refl, if◌then◌else◌, ◌==◌, ◌||◌, inl,
}
use keenetic_router_pro.Value.{Value, str}
use keenetic_router_pro.Text.{◌<>◌}
use keenetic_router_pro.Utils.Addresses.{normalize_mesh_node_address}
use keenetic_router_pro.Transport.Http.{Site, Client, Request, Result, ok, err}
use keenetic_router_pro.Transport.Sending.{Grown, same, Grown-trans, request-Sends}
use keenetic_router_pro.Transport.Commands.{rci_parse, settled}
use keenetic_router_pro.Transport.Calls.{rci_post, post_call}
use keenetic_router_pro.Domains.{Device, checked, on_client, validate_cli_arg, not, and_then}
use keenetic_router_pro.Domains.NodeUpdate.Session.{Setup}
use keenetic_router_pro.Domains.NodeUpdate.Contact.{
  IsAt, IsTarget, Reaches, if_Reaches, try_ports-Reaches,
}
use keenetic_router_pro.Domains.NodeUpdate.{
  start_node_firmware_update, other_error, direct, or_direct, by_controller, direct_update,
  with_cid, ports_to_try, ask_controller, accepted,
}

module _ (site : Site) (setup : Setup) where
  base-IsTarget : (o : Option String) (r : Request) → IsAt site.base r → IsTarget site setup o r
  base-IsTarget none r h = h
  base-IsTarget (some ip) r h = inl h

  direct-Reaches :
      (label : String) (o : Option String) (d : Device)
      → Reaches (IsTarget site setup o) d (direct site setup label o d)
  direct-Reaches label none d = same
  direct-Reaches label (some ip) d = try_ports-Reaches site setup ip label (ports_to_try setup) d

  module _ (o : Option String) where
    abbrev Near : Request → Type 0
    Near = IsTarget site setup o

    settled-Reaches :
        (command : String) (c : Client) (out : Result Value × Client)
        → Grown Near c.sent out.1.sent
        → Grown Near c.sent (settled command out).1.sent
    settled-Reaches command c (ok v, c') h = h
    settled-Reaches command c (err e, c') h = h

    command-Reaches :
        (command : String) (c : Client) → Grown Near c.sent (rci_parse site command c).1.sent
    unfolding rci_parse rci_post
    command-Reaches command c =
        settled-Reaches command c (rci_post site "parse" (str command) true c) (
          request-Sends site Near (base-IsTarget o _ ("/rci/", refl))
            (base-IsTarget o _ ("/auth", refl)) (λ ch. base-IsTarget o _ ("/auth", refl))
            (post_call "parse" (str command) true) (λ c. base-IsTarget o _ (_, refl)) c)

    verdict-Reaches :
        (d : Device) (out : Result Value × Device) (f : Value → Bool)
        → Reaches Near d out
        → Reaches Near d (and_then out (λ v d. (ok (f v), d)))
    verdict-Reaches d (ok v, d') f h = h
    verdict-Reaches d (err e, d') f h = h

    checked-Reaches :
        (d : Device) (r : Result String) (f : String → Result Bool × Device)
        → ((member : String) → Reaches Near d (f member))
        → Reaches Near d (checked r d f)
    checked-Reaches d (ok t) f g = g t
    checked-Reaches d (err e) f g = same

    by_controller-Reaches : (cid : String) (d : Device) → Reaches Near d (by_controller site cid d)
    unfolding by_controller
    by_controller-Reaches cid d =
        checked-Reaches d (validate_cli_arg (some cid) "mesh node cid")
          (λ member. ask_controller site member d)
          (λ member.
            verdict-Reaches d
              (on_client (rci_parse site ("mws member " <> (member <> " update start"))) d)
              (accepted site)
              (command-Reaches ("mws member " <> (member <> " update start")) d.client))

    or_direct-Reaches :
        (next : Device → Result Bool × Device) (d : Device) (out : Result Bool × Device)
        → ((d : Device) → Reaches Near d (next d))
        → Reaches Near d out
        → Reaches Near d (or_direct next out)
    or_direct-Reaches next d (ok true, d') g h = h
    or_direct-Reaches next d (ok false, d') g h = Grown-trans h (g d')
    or_direct-Reaches next d (err e, d') g h = Grown-trans h (g d')

    with_cid-Reaches :
        (cid : Option String) (next : Device → Result Bool × Device) (d : Device)
        → ((d : Device) → Reaches Near d (next d))
        → Reaches Near d (with_cid site cid next d)
    with_cid-Reaches none next d g = g d
    with_cid-Reaches (some cid) next d g =
        if_Reaches d (cid == "") (next d) (or_direct next (by_controller site cid d)) (g d)
          (or_direct-Reaches next d (by_controller site cid d) g (by_controller-Reaches cid d))

  -- The requests that the update of a mesh node issues go to the router and to the node at its checked
  -- address: a literal address that is neither unspecified, multicast nor loopback. Where the address does
  -- not pass the check, nothing but the router is asked.
  pub start_node_firmware_update-Reaches :
      (node_ip node_name : String) (node_cid : Option String) (d : Device)
      → Reaches
          (IsTarget site setup (normalize_mesh_node_address setup.ip_address node_ip))
          d
          (start_node_firmware_update site setup node_ip node_name node_cid d)
  unfolding start_node_firmware_update direct_update
  start_node_firmware_update-Reaches node_ip node_name node_cid d =
      if_Reaches d (not d.client.has_session || node_ip == "")
        (err (other_error "Cannot connect to mesh node"), d)
        (with_cid site node_cid
          (direct_update site setup (if node_name == "" then node_ip else node_name) node_ip) d)
        same
        (with_cid-Reaches (normalize_mesh_node_address setup.ip_address node_ip) node_cid
          (direct_update site setup (if node_name == "" then node_ip else node_name) node_ip) d
          (direct-Reaches (if node_name == "" then node_ip else node_name)
            (normalize_mesh_node_address setup.ip_address node_ip)))
