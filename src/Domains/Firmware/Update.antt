-- ===== src/Domains/Firmware/Update.antt =====
-- api/domains/system.py: what the update of the router sends, and when it reports a start.
use keenetic_router_pro.Prelude.{
  String, true, false, none, Bool, ◌≡◌, refl, ◌⊎◌, inl, inr, if◌then◌else◌, ◌==◌,
}
use keenetic_router_pro.Prelude.{Option, some}
use keenetic_router_pro.Value.{Items, cons, nil, field, end, Value, null, dict, str, int, float}
use keenetic_router_pro.Text.{◌<>◌, lstrip_slashes}
use keenetic_router_pro.Transport.Http.{
  Site, Client, Request, Result, Error, ok, err, api_error, auth_error, other_error,
}
use keenetic_router_pro.Transport.Calls.{Call, request, rci_get, rci_post, post_call, request_of}
use keenetic_router_pro.Transport.Sending.{
  Sends, same, Grown-trans, request-Sends, if_Sends, rci_get-Sends,
}
use keenetic_router_pro.Domains.Steps.{and_then-Sends}
use keenetic_router_pro.Domains.Firmware.{
  start_firmware_update, stage, or_next, root_call, ndw_components, install_payload, install_list,
  component_names, manual, confirm, bool, list, commit, install, by_components, legacy, by_system,
  reports_start, no_endpoint,
}

-- No body, or the list of components to install and nothing else.
abbrev pub IsInstall : Option Value → Type 0
IsInstall none = Unit {0}
IsInstall (some v) =
    (components : Items) × (v
      ≡ list
          (cons (dict (field "components" (dict (field "install" (list components) end)) end)) nil))

-- The requests of an update of the router alone: the sign-in, the list of components at the root, and the
-- three endpoints it uses. The start of an update of the whole mesh, at `/rci/mws/update/start` or as a body
-- at the root, is none of them.
abbrev pub IsOfUpdate : Site → Request → Type 0
IsOfUpdate site r =
    ((r.url ≡ site.base <> "/auth") ⊎ ((r.url ≡ site.base <> "/rci/") × IsInstall r.json))
    ⊎ ((r.url ≡ site.base <> "/rci/show/version")
        ⊎ ((r.url ≡ site.base <> "/rci/components/commit")
            ⊎ (r.url ≡ site.base <> "/rci/system/update")))

module _ (site : Site) where
  call-Sends :
      (k : Call) (c : Client)
      → ((c : Client) → IsOfUpdate site (request_of site k c))
      → Sends (IsOfUpdate site) c (request site k c)
  call-Sends k c own =
      request-Sends site (IsOfUpdate site) (inl (inr (refl, tt))) (inl (inl refl))
        (λ ch. inl (inl refl)) k own c

  post-Sends :
      (subpath : String) (json : Value) (c : Client)
      → ((c : Client) → IsOfUpdate site (request_of site (post_call subpath json true) c))
      → Sends (IsOfUpdate site) c (rci_post site subpath json true c)
  unfolding rci_post
  post-Sends subpath json c own = call-Sends (post_call subpath json true) c own

  commit-Sends : (v : Value) (c : Client) → Sends (IsOfUpdate site) c (commit site v c)
  unfolding lstrip_slashes
  commit-Sends v c =
      and_then-Sends c (rci_post site "components/commit" manual true c) _
        (post-Sends "components/commit" manual c (λ c. inr (inr (inl refl)))) (λ v c. same)

  install-Sends :
      (components : String) (c : Client) → Sends (IsOfUpdate site) c (install site components c)
  unfolding install_payload
  install-Sends components c =
      and_then-Sends c (request site (root_call (install_payload components)) c) (commit site)
        (call-Sends (root_call (install_payload components)) c
          (λ c. inl (inr (refl, (install_list (component_names components), refl)))))
        commit-Sends

  either-Sends :
      (c : Client) (b : Bool) (e : Error)
      → Sends (IsOfUpdate site) c (if b then (err e, c) else (ok false, c))
  either-Sends c true e = same
  either-Sends c false e = same

  stage-Sends : (v : Value) (c : Client) → Sends (IsOfUpdate site) c (stage site v c)
  unfolding stage
  stage-Sends (str components) c =
      if_Sends c (components == "") (ok false, c) (install site components c) same
        (install-Sends components c)
  stage-Sends null c = either-Sends c _ _
  stage-Sends (bool b) c = either-Sends c _ _
  stage-Sends (int z) c = either-Sends c _ _
  stage-Sends (float x) c = either-Sends c _ _
  stage-Sends (list xs) c = either-Sends c _ _
  stage-Sends (dict fs) c = either-Sends c _ _

  or_next-Sends :
      (c : Client) (next : Client → Result Bool × Client) (out : Result Bool × Client)
      → Sends (IsOfUpdate site) c out
      → ((c : Client) → Sends (IsOfUpdate site) c (next c))
      → Sends (IsOfUpdate site) c (or_next next out)
  unfolding or_next
  or_next-Sends c next (ok true, c') h g = h
  or_next-Sends c next (ok false, c') h g = Grown-trans h (g c')
  or_next-Sends c next (err (other_error m), c') h g = h
  or_next-Sends c next (err (api_error m s), c') h g = if_Sends c _ _ _ (Grown-trans h (g c')) h
  or_next-Sends c next (err (auth_error m), c') h g = if_Sends c _ _ _ (Grown-trans h (g c')) h

  by_components-Sends : (c : Client) → Sends (IsOfUpdate site) c (by_components site c)
  unfolding lstrip_slashes
  by_components-Sends c =
      and_then-Sends c (rci_get site "show/version" none c) (λ v c. stage site (ndw_components v) c)
        (rci_get-Sends site (IsOfUpdate site) (inl (inr (refl, tt))) (inl (inl refl))
          (λ ch. inl (inl refl)) "show/version" (λ c. inr (inl refl)) c)
        (λ v c. stage-Sends (ndw_components v) c)

  legacy-Sends : (c : Client) → Sends (IsOfUpdate site) c (legacy site c)
  unfolding lstrip_slashes
  legacy-Sends c =
      and_then-Sends c (rci_post site "system/update" confirm true c)
        (λ v c. (ok (reports_start v), c))
        (post-Sends "system/update" confirm c (λ c. inr (inr (inr refl)))) (λ v c. same)

  by_system-Sends : (c : Client) → Sends (IsOfUpdate site) c (by_system site c)
  by_system-Sends c = or_next-Sends c no_endpoint (legacy site c) (legacy-Sends c) (λ c. same)

  -- An update of the router's firmware asks the router alone: beside signing in it reads the version, uses
  -- the component and the system endpoints, and hands the root nothing but components to install. The update
  -- of the whole mesh is started by none of its requests.
  pub start_firmware_update-Sends :
      (c : Client) → Sends (IsOfUpdate site) c (start_firmware_update site c)
  unfolding start_firmware_update
  start_firmware_update-Sends c =
      or_next-Sends c (by_system site) (by_components site c) (by_components-Sends c)
        by_system-Sends
