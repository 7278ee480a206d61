-- ===== src/Store/StepWrites.antt =====
-- internal/store/transitions.go: RecordStepOutcome, the outcome of a step. The clock's reading and the
-- times of an outcome are in nanoseconds; a zero Time is `none`.
pub mod Reads
pub mod Outcomes
use paceq.Base.{
  ℕ, ◌+◌, String, Bool, true, false, not, ◌&&◌, ◌||◌, List, [], ◌∷◌, Option, none, some, str_eq,
}
use paceq.Base.Tests.{if◌then◌else◌, ltb, ◌==◌}
use paceq.Base.Lists.{count_if}
use paceq.Base.Int.{ℤ, negsuc, ◌-ℤ◌}
use paceq.Base.Result.{Result, ok, err, ◌>>=◌, ◌>>◌}
use paceq.Model.StepState.{StepState, pending, succeeded, failed}
use paceq.Model.StepState
use paceq.Model.Event.{Event, step_started}
use paceq.Model.Effect.{Effect}
use paceq.Model.Guards.{Guards}
use paceq.Model.RunState
use paceq.Model.RunState.{running}
use paceq.Model.StepMachine.{next_step_state}
use paceq.Store.Leases.{unix_milli}
use paceq.Store.Artifacts.{Artifact, insert_artifacts}
use paceq.Store.Rows.{
  StepRow, RunRow, Detail, text, is_empty, null_if_empty, Db, RunEvent, append_run_event, find_run,
  find_step, is_step, update_steps,
}
use paceq.Store.Fence.{
  Error, no_holder, run_not_found, step_not_found, not_running, step_not_pending, refused, LeaseRef,
  held, check_lease, with_tx,
}
use paceq.Store.Skip.{guards_for, emit_kind, Failure, is_pending_step, propagate_skip}
use paceq.Store.StepStart.{read_step}
use paceq.Store.RetryPlan.{RetryPlan, Frozen, verdict_observed, planned_retry}

-- LogMeta.
pub record LogMeta : Type 0 where
  pub rel_path : String
  pub bytes : ℤ
  pub truncated : Bool
  pub error_tail : String

-- StepOutcome. An artifact comes with the identity that `id.New` answers for it.
pub record StepOutcome : Type 0 where
  pub event : Event
  pub reason_code : String
  pub exit_code : Option ℤ
  pub signal : String
  pub finished_at : Option ℤ
  pub log_meta : LogMeta
  pub detail_json : Detail
  pub retry : Option RetryPlan
  pub no_further_attempt : Bool
  pub artifacts : List (String × Artifact)
  pub outcome_source : String
  pub actor : String

unfoldable pub outcome_guards : StepRow → StepOutcome → Guards
outcome_guards step out = record (guards_for out.reason_code) {
  attempts_left = not out.no_further_attempt && ltb step.attempt step.max_attempts;
}

-- The plan of the retry transition: the caller's, or for an ending that was watched the policy's.
unfoldable pub plan_of :
    Frozen
    → String
    → StepRow
    → StepOutcome
    → ℤ
    → Detail
    → StepState
    → Result Error (Option RetryPlan)
unfolding planned_retry verdict_observed
plan_of frozen run_id step out finished_at detail state =
    if not (StepState.same state pending) then ok none else elim out.retry [
      | some plan ↦ ok (some plan)
      | none ↦
          if verdict_observed out.outcome_source
          then planned_retry frozen run_id step.name step.attempt finished_at detail
          else ok none
    ]

abbrev pub planned_time : Option RetryPlan → Option ℤ
planned_time none = none
planned_time (some plan) = plan.next_attempt_at

-- When the step is runnable again; only a step that goes back to pending is.
unfoldable pub next_attempt : StepState → Option RetryPlan → ℤ → Option ℤ
unfolding unix_milli
next_attempt state plan finished_at =
    if StepState.same state pending
    then elim (planned_time plan) [
      | none ↦ some (unix_milli finished_at)
      | some at ↦ some (unix_milli at)
    ]
    else none

-- The reason code and the detail of the row and of its event.
unfoldable pub row_reason : Option RetryPlan → String → String
row_reason none code = code
row_reason (some plan) code = if str_eq plan.reason_code "" then code else plan.reason_code

unfoldable pub row_detail : Option RetryPlan → Detail → Detail
row_detail none detail = detail
row_detail (some plan) detail = if is_empty plan.detail_json then detail else plan.detail_json

abbrev pub elapsed : Option ℤ → ℤ → Option ℤ
elapsed none finished_ms = none
elapsed (some started) finished_ms = some (finished_ms -ℤ started)

-- The SET clause of the verdict.
unfoldable pub settle_step :
    StepOutcome → StepState → Option RetryPlan → ℤ → Detail → StepRow → StepRow
unfolding next_attempt row_reason row_detail unix_milli
settle_step out state plan finished_at detail s =
    let ends = not (StepState.same state pending) in
    record s {
      state = state;
      reason_code = null_if_empty (row_reason plan out.reason_code);
      reason_data = some (row_detail plan detail);
      exit_code = out.exit_code;
      signal = null_if_empty out.signal;
      finished_at = if ends then some (unix_milli finished_at) else s.finished_at;
      duration_ms = if ends then elapsed s.started_at (unix_milli finished_at) else none;
      log_path = null_if_empty out.log_meta.rel_path;
      log_bytes = out.log_meta.bytes;
      log_truncated = out.log_meta.truncated;
      error_tail = null_if_empty out.log_meta.error_tail;
      next_attempt_at = next_attempt state plan finished_at;
      outcome_source = null_if_empty out.outcome_source;
    }

abbrev pub is_step_in : String → String → StepState → StepRow → Bool
is_step_in run_id name cur s = is_step run_id name s && StepState.same s.state cur

-- finishTransition of the verdict: the UPDATE and its event.
unfoldable pub write_outcome :
    Db
    → String
    → StepRow
    → StepOutcome
    → ℤ
    → Detail
    → StepState
    → List Effect
    → Option RetryPlan
    → Db
unfolding settle_step update_steps append_run_event emit_kind row_reason row_detail unix_milli
write_outcome db run_id step out finished_at detail state effects plan =
    append_run_event
      (record {
        run_id = run_id;
        step_name = step.name;
        at = unix_milli finished_at;
        kind = emit_kind effects;
        from_state = StepState.string step.state;
        to_state = StepState.string state;
        reason_code = row_reason plan out.reason_code;
        actor = out.actor;
        detail_json = row_detail plan detail;
      })
      (record db {
        steps =
            update_steps (is_step_in run_id step.name step.state)
              (settle_step out state plan finished_at detail) db.steps;
      })

-- The index of a step of the run, or -1.
unfoldable pub idx_of : Db → String → String → ℤ
unfolding find_step
idx_of db run_id name = elim (find_step run_id name db.steps) [ none ↦ negsuc 0 | some s ↦ s.idx ]

-- What the new state brings with it: the closure of a failure, the references of a success.
unfoldable pub consequences : Db → String → StepRow → StepOutcome → ℤ → StepState → Result Error Db
unfolding propagate_skip insert_artifacts idx_of unix_milli
consequences db run_id step out finished_at state =
    if StepState.same state failed
    then propagate_skip
        (record {
          run_id = run_id;
          failed_step = step.name;
          attempt = step.attempt;
          at = unix_milli finished_at;
          actor = out.actor;
        })
        db
    else if StepState.same state succeeded
    then ok (record db {
      artifacts =
          insert_artifacts (idx_of db run_id) run_id step.name (unix_milli finished_at)
            out.artifacts db.artifacts;
    })
    else ok db

-- applyStepOutcomeTx, once the step was read.
unfoldable pub apply_read_step :
    Frozen → Db → String → StepOutcome → ℤ → Detail → StepRow → Result Error Db
unfolding outcome_guards plan_of write_outcome consequences
apply_read_step frozen db run_id out finished_at detail step =
    let (state, effects, refusal) =
      next_step_state step.state out.event (outcome_guards step out) in
    elim refusal [
      | some e ↦ err (refused e)
      | none ↦ plan_of frozen run_id step out finished_at detail state >>= (λ plan.
          consequences (write_outcome db run_id step out finished_at detail state effects plan)
            run_id step out finished_at state)
    ]

-- applyStepOutcomeTx.
unfoldable pub apply_step_outcome_tx :
    Frozen → Db → String → String → StepOutcome → ℤ → Detail → Result Error Db
unfolding read_step apply_read_step
apply_step_outcome_tx frozen db run_id name out finished_at detail =
    read_step db run_id name >>= apply_read_step frozen db run_id out finished_at detail

abbrev pub finish_time : Option ℤ → ℤ → ℤ
finish_time none now = now
finish_time (some at) now = at

abbrev pub detail_of : StepOutcome → Detail
detail_of out = if is_empty out.detail_json then text "{}" else out.detail_json

unfoldable pub record_step_outcome_tx :
    Frozen → Db → ℤ → String → String → StepOutcome → LeaseRef → Result Error Db
unfolding check_lease apply_step_outcome_tx
record_step_outcome_tx frozen db now run_id name out ref =
    check_lease db run_id ref now
    >> apply_step_outcome_tx frozen db run_id name out (finish_time out.finished_at now)
        (detail_of out)

-- RecordStepOutcome.
unfoldable pub record_step_outcome :
    Frozen → Db → ℤ → String → String → StepOutcome → LeaseRef → Result Error (Unit {0}) × Db
unfolding record_step_outcome_tx
record_step_outcome frozen db now run_id name out ref =
    with_tx db
      (record_step_outcome_tx frozen db now run_id name out ref >>= (λ after. ok (tt, after)))
