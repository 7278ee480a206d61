-- ===== src/Store/StepStart.antt =====
-- internal/store/transitions.go: the start of a step (StartStep) and the process that carries it
-- (RecordAttemptProcess). The clock's reading is in nanoseconds.
pub mod Starts
use paceq.Base.{
  ℕ, ◌+◌, String, Bool, true, false, not, ◌&&◌, ◌||◌, List, [], ◌∷◌, Option, none, some, str_eq,
}
use paceq.Base.Tests.{if◌then◌else◌, ltb, ◌==◌}
use paceq.Base.Lists.{count_if}
use paceq.Base.Int.{ℤ, negsuc, ◌-ℤ◌}
use paceq.Base.Result.{Result, ok, err, ◌>>=◌, ◌>>◌}
use paceq.Model.StepState.{StepState, pending, succeeded, failed}
use paceq.Model.StepState
use paceq.Model.Event.{Event, step_started}
use paceq.Model.Effect.{Effect}
use paceq.Model.Guards.{Guards}
use paceq.Model.RunState
use paceq.Model.RunState.{running}
use paceq.Model.StepMachine.{next_step_state}
use paceq.Store.Leases.{unix_milli}
use paceq.Store.Artifacts.{Artifact, insert_artifacts}
use paceq.Store.Rows.{
  StepRow, RunRow, Detail, text, is_empty, null_if_empty, Db, RunEvent, append_run_event, find_run,
  find_step, is_step, update_steps,
}
use paceq.Store.Fence.{
  Error, no_holder, run_not_found, step_not_found, not_running, step_not_pending, refused, LeaseRef,
  held, check_lease, with_tx,
}
use paceq.Store.Skip.{guards_for, emit_kind, Failure, is_pending_step, propagate_skip}
use paceq.Store.RetryPlan.{RetryPlan, Frozen, verdict_observed, planned_retry}

-- readStepTx, whose error for no row is ErrRunNotFound.
unfoldable pub read_step : Db → String → String → Result Error StepRow
unfolding find_step
read_step db run_id name = elim (find_step run_id name db.steps) [
  | none ↦ err run_not_found
  | some s ↦ ok s
]

-- RecordAttemptProcess.
unfoldable pub record_attempt_process :
    Db → ℤ → String → String → LeaseRef → ℤ → ℤ → Result Error (Unit {0}) × Db
unfolding held check_lease update_steps
record_attempt_process db now run_id name ref pid start_ticks =
    if not (held ref)
    then (err no_holder, db)
    else with_tx db (
        check_lease db run_id ref now
        >> (if count_if (is_step run_id name) db.steps == 0
            then err step_not_found
            else ok (
              tt,
              record db {
                steps =
                    update_steps (is_step run_id name)
                      (λ s. record s { pid = some pid; pid_start_ticks = some start_ticks })
                      db.steps;
              },
            )))

-- The SET clause of StartStep.
unfoldable pub open_attempt : ℤ → StepRow → StepRow
open_attempt now_ms s = record s {
  state = StepState.running;
  attempt = s.attempt + 1;
  started_at = some now_ms;
  finished_at = none;
}

-- StartStep, once the step was read.
unfoldable pub start_read_step : Db → ℤ → String → StepRow → Result Error (Unit {0} × Db)
unfolding open_attempt update_steps append_run_event emit_kind
start_read_step db now_ms run_id step =
    let (state, effects, refusal) = next_step_state step.state step_started (guards_for "") in
    if not (StepState.same step.state pending) then err step_not_pending else elim refusal [
      | some e ↦ err (refused e)
      | none ↦ ok (
        tt,
        append_run_event
            (record {
              run_id = run_id;
              step_name = step.name;
              at = now_ms;
              kind = emit_kind effects;
              from_state = StepState.string step.state;
              to_state = StepState.string state;
              reason_code = "";
              actor = "";
              detail_json = text "";
            })
            (record db {
              steps =
                  update_steps (is_pending_step run_id step.name) (open_attempt now_ms) db.steps;
            }),
      )
    ]

unfoldable pub start_step_tx : Db → ℤ → String → String → LeaseRef → Result Error (Unit {0} × Db)
unfolding check_lease read_step start_read_step unix_milli
start_step_tx db now run_id name ref =
    check_lease db run_id ref now >> elim (find_run run_id db.runs) [
      | none ↦ err run_not_found
      | some run ↦
          if not (RunState.same run.state running)
          then err not_running
          else read_step db run_id name >>= start_read_step db (unix_milli now) run_id
    ]

-- StartStep.
unfoldable pub start_step : Db → ℤ → String → String → LeaseRef → Result Error (Unit {0}) × Db
unfolding held start_step_tx
start_step db now run_id name ref =
    if not (held ref)
    then (err no_holder, db)
    else with_tx db (start_step_tx db now run_id name ref)
