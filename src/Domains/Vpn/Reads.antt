-- ===== src/Domains/Vpn/Reads.antt =====
-- api/domains/vpn.py: the two reads of the IPsec status.
use keenetic_router_pro.Prelude.{
  true, false, Option, some, none, Bool, ◌≡◌, refl, Bool-cases, inl, inr, ◌&&◌,
}
use keenetic_router_pro.Value.{Value}
use keenetic_router_pro.Transport.Http.{Site, Result, ok, err}
use keenetic_router_pro.Transport.Header.{is_endpoint_missing}
use keenetic_router_pro.Prelude.{◌||◌, arith}
use keenetic_router_pro.Transport.Calls.{rci_get}
use keenetic_router_pro.Domains.{Device, on_client}
use keenetic_router_pro.Domains.Vpn.{read_ipsec_status, settle_reads, missing, is_false}

-- A read that came, or that the router has no endpoint for.
abbrev IsSettled : Result Value → Type 0
IsSettled (ok v) = Unit {0}
IsSettled (err e) = is_endpoint_missing e ≡ true

-- Half a picture is never published: the pair is the two reads, no read failed for a passing reason, and not
-- both are missing. What is raised is not a missing endpoint. Without a picture the router is latched as
-- having no IPsec, for a reason: it was latched before, or both reads were missing.
abbrev pub IsWhole :
    Bool
    → Result Value
    → Result Value
    → Result (Option (Result Value × Result Value)) × Device
    → Type 0
IsWhole latched status config (ok (some (status', config')), d) =
    (status' ≡ status)
    × (config' ≡ config)
    × IsSettled status
    × IsSettled config
    × ((missing status && missing config) ≡ false)
    × (d.latches.crypto_map_supported ≡ some true)
IsWhole latched status config (ok none, d) =
    ((latched || (missing status && missing config)) ≡ true)
    × (d.latches.crypto_map_supported ≡ some false)
IsWhole latched status config (err e, d) = is_endpoint_missing e ≡ false

settle_reads-IsWhole :
    (latched : Bool) (status config : Result Value) (d : Device)
    → IsWhole latched status config (settle_reads status config d)
unfolding settle_reads
settle_reads-IsWhole latched (ok s) (ok v) d = (refl, refl, tt, tt, refl, refl)
settle_reads-IsWhole latched (ok s) (err e) d = elim (Bool-cases (is_endpoint_missing e)) [
  | inl t ↦ rw t (refl, refl, tt, t, refl, refl)
  | inr f ↦ rw f f
]
settle_reads-IsWhole latched (err e) (ok v) d = elim (Bool-cases (is_endpoint_missing e)) [
  | inl t ↦ rw t (refl, refl, t, tt, rw t refl, refl)
  | inr f ↦ rw f f
]
settle_reads-IsWhole latched (err e) (err e') d = elim (Bool-cases (is_endpoint_missing e)) [
  | inl t ↦ elim (Bool-cases (is_endpoint_missing e')) [
    | inl t' ↦ rw (t, t') (ground arith, refl)
    | inr f' ↦ rw (t, f') f'
  ]
  | inr f ↦ rw f f
]

is_false-latched : (o : Option Bool) → is_false o ≡ true → o ≡ some false
is_false-latched (some false) h = refl
is_false-latched (some true) h = cc
is_false-latched none h = cc

-- The two reads, the second by the client that the first left.
abbrev pub status_read : Site → Device → Result Value × Device
status_read site d = on_client (rci_get site "show/ipsec" none) d

abbrev pub config_read : Site → Device → Result Value × Device
config_read site d = on_client (rci_get site "crypto/map" none) (status_read site d).1

-- The status of the tunnels is published from the two payloads as they were read, one of which at most may
-- be missing for want of its endpoint. A read that failed for another reason is raised. No tunnels are
-- published only where the router is latched as having no IPsec or has neither endpoint, and it is latched
-- then.
pub read_ipsec_status-IsWhole :
    (site : Site) (d : Device)
    → IsWhole
        (is_false d.latches.crypto_map_supported)
        (status_read site d).0
        (config_read site d).0
        (read_ipsec_status site d)
unfolding read_ipsec_status
read_ipsec_status-IsWhole site d = elim (Bool-cases (is_false d.latches.crypto_map_supported)) [
  | inl t ↦ rw t (refl, is_false-latched d.latches.crypto_map_supported t)
  | inr f ↦ rw f (
      settle_reads-IsWhole false (status_read site d).0 (config_read site d).0
        (config_read site d).1)
]
