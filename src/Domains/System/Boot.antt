-- ===== src/Domains/System/Boot.antt =====
-- api/domains/system.py: the capability latches after a reboot.
use keenetic_router_pro.Prelude.{
  [], some, none, ◌≡◌, ℤ, ltb_ℤ, ◌||◌, Option, if◌then◌else◌, Bool, pos, refl, true, false,
}
use keenetic_router_pro.Value.{dict, Fields, get}
use keenetic_router_pro.Utils.Coerce.{coerce_int}
use keenetic_router_pro.Refresh.{unsupported_batch_paths}
use keenetic_router_pro.Transport.Http.{Site, Client, ok}
use keenetic_router_pro.Transport.Calls.{rci_get}
use keenetic_router_pro.Domains.{Device}
use keenetic_router_pro.Domains.System.{
  get_system_info, reprobe_capabilities_after_boot, reset_capability_caches, unknown, see_uptime,
  went_back,
}

-- Every endpoint is asked again: no latch is left, and the composite request leaves no path out.
abbrev pub IsUnlatched : Device → Type 0
IsUnlatched d =
    (d.latches ≡ unknown)
    × (unsupported_batch_paths d.latches ≡ [])
    × (d.client.rci_batch_supported ≡ none)

-- The uptime went back since it was last seen, if it was, or is below ten minutes.
abbrev pub is_fresh_boot : Option ℤ → ℤ → Bool
is_fresh_boot none uptime = ltb_ℤ uptime (pos 600)
is_fresh_boot (some previous) uptime = ltb_ℤ uptime previous || ltb_ℤ uptime (pos 600)

-- After a fresh boot no latch is left; otherwise all are as before, that of the composite request as the
-- call left it. The uptime is seen in either case.
abbrev pub IsSeen : Device → Client → ℤ → Bool → Device → Type 0
IsSeen d c uptime true d' = IsUnlatched d' × (d'.last_seen_uptime ≡ some uptime)
IsSeen d c uptime false d' =
    (d'.latches ≡ d.latches)
    × (d'.client.rci_batch_supported ≡ c.rci_batch_supported)
    × (d'.last_seen_uptime ≡ some uptime)

branch-IsSeen :
    (b : Bool) (d : Device) (c : Client) (uptime : ℤ)
    → IsSeen d c uptime b (
        if b
        then reset_capability_caches (record d { client = c; last_seen_uptime = some uptime })
        else record d { client = c; last_seen_uptime = some uptime })
unfolding reset_capability_caches unsupported_batch_paths
branch-IsSeen true d c uptime = ((refl, refl, refl), refl)
branch-IsSeen false d c uptime = (refl, refl, refl)

fresh_boot_lem :
    (last : Option ℤ) (uptime : ℤ)
    → (went_back last uptime || ltb_ℤ uptime (pos 600)) ≡ is_fresh_boot last uptime
fresh_boot_lem none uptime = refl
fresh_boot_lem (some previous) uptime = refl

see_uptime-IsSeen :
    (d : Device) (c : Client) (uptime : ℤ)
    → IsSeen d c uptime
        (is_fresh_boot d.last_seen_uptime uptime)
        (see_uptime (some uptime) (record d { client = c }))
see_uptime-IsSeen d c uptime =
    rw (fresh_boot_lem d.last_seen_uptime uptime)
      (branch-IsSeen (is_fresh_boot d.last_seen_uptime uptime) d c uptime)

-- Where the router's uptime went back since the last read, and while it is below the ten minutes of its
-- boot, on the first read as well, reading the state of the router forgets every latch. Otherwise all latches
-- are as the read found them.
pub reboot-IsUnlatched :
    (site : Site) (d : Device) (fs : Fields) (c : Client) (uptime : ℤ)
    → rci_get site "show/system" none d.client ≡ (ok (dict fs), c)
    → coerce_int (get "uptime" fs) none ≡ some uptime
    → IsSeen d c uptime (is_fresh_boot d.last_seen_uptime uptime) (get_system_info site d).1
unfolding get_system_info reprobe_capabilities_after_boot
reboot-IsUnlatched site d fs c uptime asked read_ = rw (asked, read_) (see_uptime-IsSeen d c uptime)
