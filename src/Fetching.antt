-- ===== src/Fetching.antt =====
-- coordinator_parts/fetching.py: what a tick makes of its failed fetches, and the polling state that
-- coordinator.py keeps about them.
pub mod Grace
pub mod Interval
use keenetic_router_pro.Prelude.{
  ℕ, suc, ◌+◌, String, Bool, true, false, not, ◌&&◌, ◌||◌, List, [], ◌∷◌, ◌++◌, any, keep, mem, leb,
  ltb, eqb, if◌then◌else◌, map,
}

-- The exceptions that a fetch ends in, by what the code asks of them, with their print.
pub data FetchError : Type 0 where
  cancelled : FetchError
  auth_error : String → FetchError
  other_error : String → FetchError

-- A gathered result: `asyncio.gather(..., return_exceptions=True)` yields values and exceptions.
pub data Fetched {ℓ} (A : Type ℓ) : Type ℓ where
  value : A → Fetched A
  raised : FetchError → Fetched A

pub record FetchFailure : Type 0 where
  pub name : String
  pub error : FetchError

-- `ok_or_default` raises the cancellation, or returns a value and the extended list of failures.
pub data Checked {ℓ} (A : Type ℓ) : Type ℓ where
  cancel : Checked A
  returned : A → List FetchFailure → Checked A

-- `ok_or_default(name, value, default, failed_fetches, silent=...)`.
unfoldable pub ok_or_default {ℓ} :
    {A : Type ℓ} → String → Fetched A → A → List FetchFailure → Bool → Checked A
ok_or_default name (value a) default failed silent = returned a failed
ok_or_default name (raised cancelled) default failed silent = cancel
ok_or_default name (raised error) default failed silent =
    returned default
      (if silent then failed else failed ++ record { name = name; error = error } ∷ [])

abbrev pub critical_fetch_names : List String
critical_fetch_names = "system_info" ∷ "interfaces" ∷ []

abbrev pub critical_fetch_grace_ticks : ℕ
critical_fetch_grace_ticks = 3

pub data Action : Type 0 where
  ok auth tolerate fail : Action

-- The messages, kept as the parts that the text shows.
pub data Message : Type 0 where
  no_message : Message
  rejected_credentials : Message
  transient : ℕ → ℕ → List FetchFailure → Message
  fetch_failed : List FetchFailure → Message

pub record CriticalFetchDecision : Type 0 where
  pub action : Action
  pub streak : ℕ
  pub message : Message

abbrev pub is_critical : FetchFailure → Bool
is_critical f = mem f.name critical_fetch_names

abbrev is_auth_error : FetchError → Bool
is_auth_error (auth_error _) = true
is_auth_error _ = false

abbrev pub is_auth : FetchFailure → Bool
is_auth f = is_auth_error f.error

decide_critical : List FetchFailure → Bool → ℕ → ℕ → CriticalFetchDecision
decide_critical critical have_previous_data streak grace_ticks =
    if any is_auth critical
    then record { action = auth; streak = streak; message = rejected_credentials }
    else if have_previous_data && leb (streak + 1) grace_ticks
    then record {
      action = tolerate;
      streak = streak + 1;
      message = transient (streak + 1) grace_ticks critical;
    }
    else record { action = fail; streak = streak + 1; message = fetch_failed critical }

decide_if_critical : List FetchFailure → Bool → ℕ → ℕ → CriticalFetchDecision
decide_if_critical [] have_previous_data streak grace_ticks = record {
  action = ok;
  streak = 0;
  message = no_message;
}
decide_if_critical (f ∷ fs) have_previous_data streak grace_ticks =
    decide_critical (f ∷ fs) have_previous_data streak grace_ticks

-- `evaluate_critical_failures(failed_fetches, have_previous_data=..., streak=..., grace_ticks=...)`.
unfoldable pub evaluate_critical_failures : List FetchFailure → Bool → ℕ → ℕ → CriticalFetchDecision
unfolding decide_critical decide_if_critical
evaluate_critical_failures failed have_previous_data streak grace_ticks =
    decide_if_critical (keep is_critical failed) have_previous_data streak grace_ticks

-- `next_backoff_interval(consecutive_fail_ticks)`, in seconds.
unfoldable pub next_backoff_interval : ℕ → ℕ
next_backoff_interval consecutive_fail_ticks = if leb consecutive_fail_ticks 1 then 60 else 120

abbrev pub fast_scan_interval : ℕ
fast_scan_interval = 60

-- The coordinator's state about failing ticks: `_critical_fail_streak`,
-- `_critical_fail_backoff_count` and `update_interval`.
pub record PollState : Type 0 where
  pub critical_fail_streak : ℕ
  pub backoff_count : ℕ
  pub update_interval : ℕ

-- How a tick ends: published, `ConfigEntryAuthFailed` or `UpdateFailed`.
pub data Ending : Type 0 where
  published auth_failed update_failed : Ending

-- What the tick does with the decision, up to the end of `_async_update_data_unlocked`. `payload` says
-- that neither `system` nor `interfaces` is empty.
end_tick : CriticalFetchDecision → Bool → PollState → Ending × PollState
end_tick d payload s =
    let s' = record s { critical_fail_streak = d.streak } in
    elim d.action [
      | auth ↦ (auth_failed, s')
      | fail ↦ (
        update_failed,
        record s' {
          backoff_count = s.backoff_count + 1;
          update_interval = next_backoff_interval (s.backoff_count + 1);
        },
      )
      | _ ↦
          if not payload
          then (update_failed, s')
          else if eqb s.backoff_count 0
          then (published, s')
          else (published, record s' { backoff_count = 0; update_interval = fast_scan_interval })
    ]

-- One tick of the coordinator, as far as failures and the poll interval are concerned.
unfoldable pub settle_tick : List FetchFailure → Bool → Bool → PollState → Ending × PollState
unfolding end_tick next_backoff_interval
settle_tick failed have_previous_data payload s =
    end_tick
      (evaluate_critical_failures failed have_previous_data s.critical_fail_streak
        critical_fetch_grace_ticks)
      payload s
