-- ===== src/Coordinator/Freshness.antt =====
-- coordinator.py: whether an optional source, fetched on a tier of its own, counts as fresh.
pub mod Streak
use keenetic_router_pro.Prelude.{
  String, Option, ℕ, some, Bool, none, Dict, if◌then◌else◌, not, true, insert, lookup, ◌+◌, is_some,
  ◌&&◌, leb,
}
use keenetic_router_pro.Text.{◌<>◌}
use keenetic_router_pro.Value.{Value, bool, dict, Fields, end, get_or, truthy}

abbrev pub optional_fetch_grace_attempts : ℕ
optional_fetch_grace_attempts = 3

abbrev pub count_or_zero : Option ℕ → ℕ
count_or_zero none = 0
count_or_zero (some n) = n

-- `self.data or {}`.
abbrev data_or_empty : Option Fields → Fields
data_or_empty none = end
data_or_empty (some fs) = fs

-- `_source_is_fresh(name, attempted=..., failed=...)`: the answer, and `_source_failure_streaks`.
unfoldable pub source_is_fresh :
    Option Fields → String → (attempted failed : Bool) → Dict ℕ → Bool × Dict ℕ
source_is_fresh previous name attempted failed streaks =
    if not attempted
    then (truthy (get_or (name <> "_fresh") (bool true) (data_or_empty previous)), streaks)
    else if not failed
    then (true, insert name 0 streaks)
    else let streak = count_or_zero (lookup name streaks) + 1 in
      (is_some previous && leb streak optional_fetch_grace_attempts, insert name streak streaks)
