-- ===== src/Store/RetryPlan.antt =====
-- internal/store/retryplan.go: the schedule of a retry that nobody planned, from the policy that the
-- run froze. The frozen steps, which `spec.FromIR` reads from the row of job_versions, and the draw
-- that `jitterFor` seeds, a function of the attempt, are arguments.
use paceq.Base.{ℕ, String, Bool, ◌||◌, List, [], ◌∷◌, Option, none, some, str_eq}
use paceq.Base.Tests.{if◌then◌else◌}
use paceq.Base.Int.{ℤ, pos, ◌+ℤ◌, ltb_ℤ}
use paceq.Base.Result.{Result, ok, err}
use paceq.Retry.{Policy, exponential, fixed, jitter_full, jitter_none, delay}
use paceq.Store.Leases.{unix_milli}
use paceq.Store.Rows.{Detail, retry_facts}
use paceq.Store.Fence.{Error, panicked}

-- spec.Retry, the retry block of a step.
pub record Retry : Type 0 where
  pub backoff : String
  pub initial : ℤ
  pub max_delay : ℤ
  pub jitter : String

-- A frozen step: its name and its retry block.
pub record FrozenStep : Type 0 where
  pub name : String
  pub retry : Option Retry

-- RetryPlan; a time that is zero is `none`.
pub record RetryPlan : Type 0 where
  pub next_attempt_at : Option ℤ
  pub reason_code : String
  pub detail_json : Detail

-- What the store reads beside the tables: the frozen steps of a run, which are absent where it has
-- no version, and the draw of an attempt.
pub record Frozen : Type 0 where
  pub steps_of : String → Result Error (Option (List FrozenStep))
  pub jitter_for : String → String → ℕ → ℤ → ℤ

unfoldable pub verdict_observed : String → Bool
verdict_observed source = str_eq source "direct" || str_eq source "spool"

-- RetryPolicyOf: a field that is missing takes its default.
unfoldable pub retry_policy_of : Option Retry → Policy
retry_policy_of none = record {
  backoff = exponential;
  initial = pos 30000000000;
  max_delay = pos 600000000000;
  jitter = jitter_full;
}
retry_policy_of (some r) = record {
  backoff = if str_eq r.backoff "fixed" then fixed else exponential;
  initial = if ltb_ℤ (pos 0) r.initial then r.initial else pos 30000000000;
  max_delay = if ltb_ℤ (pos 0) r.max_delay then r.max_delay else pos 600000000000;
  jitter = if str_eq r.jitter "none" then jitter_none else jitter_full;
}

-- The first frozen step of the name.
unfoldable pub find_frozen : String → List FrozenStep → Option FrozenStep
find_frozen name [] = none
find_frozen name (s ∷ rest) = if str_eq s.name name then some s else find_frozen name rest

-- The plan of a delay; `none` is the panic of the draw.
unfoldable pub plan_after : ℕ → ℤ → Detail → Option ℤ → Result Error (Option RetryPlan)
unfolding unix_milli ◌+ℤ◌
plan_after attempt finished_at detail none = err panicked
plan_after attempt finished_at detail (some wait) =
    let next = finished_at +ℤ wait in
    ok (
      some (record {
        next_attempt_at = some next;
        reason_code = "STEP_RETRY_SCHEDULED";
        detail_json = retry_facts detail attempt (unix_milli wait) (unix_milli next);
      }))

unfoldable pub plan_of_steps :
    Frozen → String → String → ℕ → ℤ → Detail → List FrozenStep → Result Error (Option RetryPlan)
unfolding find_frozen plan_after retry_policy_of
plan_of_steps frozen run_id name attempt finished_at detail steps = elim (find_frozen name steps) [
  | none ↦ ok none
  | some s ↦
      plan_after attempt finished_at detail
        (delay (retry_policy_of s.retry) (pos attempt) (frozen.jitter_for run_id name attempt))
]

-- plannedRetryTx.
unfoldable pub planned_retry :
    Frozen → String → String → ℕ → ℤ → Detail → Result Error (Option RetryPlan)
unfolding plan_of_steps
planned_retry frozen run_id name attempt finished_at detail = elim (frozen.steps_of run_id) [
  | err e ↦ err e
  | ok none ↦ ok none
  | ok (some steps) ↦ plan_of_steps frozen run_id name attempt finished_at detail steps
]
