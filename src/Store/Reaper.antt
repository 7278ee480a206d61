-- ===== src/Store/Reaper.antt =====
-- internal/store/runlease.go: ReapExpiredRuns, which takes the runs whose holder is gone and decides
-- where each goes. An int option is an integer; a zero or less of it means the default.
pub mod Ready
pub mod Lost
pub mod Loop
pub mod Verdict
pub mod Endings
pub mod FailedArm
pub mod QueuedArm
pub mod Decision
use paceq.Base.{
  ℕ, ◌+◌, String, Bool, true, false, not, ◌&&◌, ◌||◌, List, [], ◌∷◌, Option, none, some, map,
  str_eq,
}
use paceq.Base.Tests.{if◌then◌else◌, leb}
use paceq.Base.Lists.{select, take}
use paceq.Base.Int.{ℤ, pos, pos_part, leb_ℤ, ltb_ℤ, ◌+ℤ◌, ◌-ℤ◌}
use paceq.Base.Result.{Result, ok, err, ◌>>=◌, ◌>>◌}
use paceq.Model.RunState.{RunState, queued, running, failed}
use paceq.Model.RunState
use paceq.Model.StepState.{StepState}
use paceq.Model.StepState
use paceq.Model.Event.{lease_expired, step_failed}
use paceq.Model.Guards.{Guards}
use paceq.Model.RunMachine.{next_run_state, terminal_verdict, Outcome, defer_reason_after_crash}
use paceq.Store.Leases.{unix_milli}
use paceq.Store.Rows.{
  RunRow, StepRow, Detail, text, lease_epoch_is, crashes_are, Db, RunEvent, append_run_event,
  find_run, update_runs, is_timed,
}
use paceq.Store.Fence.{Error, run_not_found, refused, other, with_tx}
use paceq.Store.Skip.{guards_for, sort_by_idx}
use paceq.Store.Finish.{step_states, all_steps_terminal, duration_since}
use paceq.Store.RetryPlan.{Frozen}
use paceq.Store.StepWrites.{StepOutcome, LogMeta, apply_step_outcome_tx}
use paceq.Store.CloseOut.{for_each_step, is_of_run, skip_pending_steps, close_out_cancelled_steps}
use paceq.Store.ObserveCancel.{cancel_guards, terminal_data, read_steps, is_requested}
use paceq.Store.Handback.{is_epoch_row}

-- What the reaper says of a step that was running.
abbrev pub lost_outcome : Bool → StepOutcome
lost_outcome terminal = record {
  event = step_failed;
  reason_code = "STEP_FAILED_EXECUTOR_LOST";
  exit_code = none;
  signal = "";
  finished_at = none;
  log_meta = record { rel_path = ""; bytes = pos 0; truncated = false; error_tail = "" };
  detail_json = text "";
  retry = none;
  no_further_attempt = terminal;
  artifacts = [];
  outcome_source = "";
  actor = "reaper";
}

-- failRunningStepsTx, over the rows that it has read.
unfoldable pub fail_running_steps : Frozen → String → ℤ → Bool → Db → Result Error Db
unfolding for_each_step apply_step_outcome_tx sort_by_idx
fail_running_steps frozen run_id now terminal db =
    for_each_step
      (λ d name. apply_step_outcome_tx frozen d run_id name (lost_outcome terminal) now (text "{}"))
      db (sort_by_idx (select (is_of_run StepState.running run_id) db.steps))

-- ReapedRun.
pub record ReapedRun : Type 0 where
  pub id : String
  pub state : RunState
  pub reason_code : String
  pub crash_count : ℕ
  pub attempt : ℕ
  pub lease_epoch : ℕ

-- What the SET clauses of the reaper share.
abbrev pub take_back : ℤ → RunRow → RunRow
take_back now_ms r = record r {
  lease_owner = none;
  lease_expires_at = none;
  lease_epoch = r.lease_epoch + 1;
  crash_count = r.crash_count + 1;
  updated_at = now_ms;
}

-- COALESCE(error, 'lease expired')
abbrev pub or_lease_expired : Option String → Option String
or_lease_expired none = some "lease expired"
or_lease_expired (some e) = some e

-- The SET clause of reapToQueuedTx.
unfoldable pub reap_queued_row : ℤ → ℤ → RunRow → RunRow
reap_queued_row due_ms now_ms r = record (take_back now_ms r) {
  state = queued;
  defer_reason = some defer_reason_after_crash;
  available_at = due_ms;
  error = or_lease_expired r.error;
}

-- The SET clause of reapToAggregateTx and reapToCancelledTx.
unfoldable pub reap_closed_row : RunState → String → Detail → ℤ → RunRow → RunRow
reap_closed_row state code detail now_ms r = record (take_back now_ms r) {
  state = state;
  reason_code = some code;
  reason_data = some detail;
  finished_at = some now_ms;
  duration_ms = duration_since r.started_at now_ms;
}

-- The SET clause of reapToFailedTx.
unfoldable pub reap_failed_row : String → Detail → ℤ → RunRow → RunRow
unfolding reap_closed_row
reap_failed_row code detail now_ms r = record (reap_closed_row failed code detail now_ms r) {
  error = or_lease_expired r.error;
}

-- How an arm ends: the UPDATE of the run as it was read, its event, and the answer.
unfoldable pub write_reaped :
    RunRow → (RunRow → RunRow) → String → RunState → String → ℤ → Db → ReapedRun × Db
unfolding update_runs append_run_event
write_reaped run f kind state code now_ms db = (
  record {
    id = run.id;
    state = state;
    reason_code = code;
    crash_count = run.crash_count + 1;
    attempt = run.attempt;
    lease_epoch = run.lease_epoch + 1;
  },
  append_run_event
      (record {
        run_id = run.id;
        step_name = "";
        at = now_ms;
        kind = kind;
        from_state = RunState.string running;
        to_state = RunState.string state;
        reason_code = code;
        actor = "reaper";
        detail_json = lease_epoch_is (run.lease_epoch + 1);
      })
      (record db { runs = update_runs (is_epoch_row run.id run.lease_epoch) f db.runs }),
)

-- The CHECK that the UPDATE of the run must pass.
unfoldable pub checked : String → ReapedRun × Db → Result Error (ReapedRun × Db)
unfolding find_run
checked run_id x = elim (find_run run_id x.1.runs) [
  | none ↦ ok x
  | some r ↦ if is_timed r then ok x else err (other "the row fails a CHECK of the schema")
]

-- reapToAggregateTx.
unfoldable pub reap_to_aggregate : RunRow → ℤ → Db → ReapedRun × Db
unfolding cancel_guards step_states terminal_verdict terminal_data read_steps write_reaped
    reap_closed_row
reap_to_aggregate run now_ms db =
    let guards = cancel_guards (step_states run.id db.steps) "RUN_CANCELLED_MANUAL" in
    let (verdict, kind) = terminal_verdict guards in
    write_reaped run
      (reap_closed_row verdict guards.reason_code
        (terminal_data guards.reason_code (read_steps run.id db.steps)) now_ms)
      kind verdict guards.reason_code now_ms db

-- reapToCancelledTx, whose writes after the close-out are those of reapToAggregateTx.
unfoldable pub reap_to_cancelled : RunRow → ℤ → Db → Result Error (ReapedRun × Db)
unfolding close_out_cancelled_steps reap_to_aggregate checked
reap_to_cancelled run now_ms db =
    close_out_cancelled_steps run.id now_ms db
    >>= (λ closed. checked run.id (reap_to_aggregate run now_ms closed))

-- The machine must make the move, and to the state that the arm writes.
unfoldable pub must_move : RunState → Outcome RunState → Result Error (Unit {0})
must_move want (state, effects, some e) = err (refused e)
must_move want (state, effects, none) =
    if RunState.same state want then ok tt else err (other "the machine sent it elsewhere")

-- reapToFailedTx, once the lost steps are closed.
unfoldable pub reap_failed_steps :
    RunRow → String → String → Detail → ℤ → Db → Result Error (ReapedRun × Db)
unfolding skip_pending_steps write_reaped reap_failed_row checked
reap_failed_steps run code kind detail now_ms lost =
    skip_pending_steps run.id now_ms "STEP_SKIPPED_RUN_ABANDONED" lost >>= (λ skipped.
      checked run.id
        (write_reaped run (reap_failed_row code detail now_ms) kind failed code now_ms skipped))

-- reapToFailedTx.
unfoldable pub reap_to_failed :
    Frozen → RunRow → ℤ → String → String → Detail → Db → Result Error (ReapedRun × Db)
unfolding must_move step_states all_steps_terminal reap_to_aggregate fail_running_steps
    reap_failed_steps checked unix_milli
reap_to_failed frozen run now code kind detail db =
    must_move failed (next_run_state running lease_expired (guards_for code))
    >> (if all_steps_terminal (step_states run.id db.steps)
        then checked run.id (reap_to_aggregate run (unix_milli now) db)
        else fail_running_steps frozen run.id now true db
          >>= reap_failed_steps run code kind detail (unix_milli now))

-- reapToQueuedTx, once the lost steps are back or closed.
unfoldable pub reap_queued_steps : RunRow → ℤ → ℤ → Db → ReapedRun × Db
unfolding step_states all_steps_terminal reap_to_aggregate write_reaped reap_queued_row
reap_queued_steps run due_ms now_ms lost =
    if all_steps_terminal (step_states run.id lost.steps)
    then reap_to_aggregate run now_ms lost
    else write_reaped run (reap_queued_row due_ms now_ms) "run.requeued" queued "" now_ms lost

-- reapToQueuedTx.
unfoldable pub reap_to_queued : Frozen → RunRow → ℤ → ℤ → Db → Result Error (ReapedRun × Db)
unfolding must_move fail_running_steps reap_queued_steps checked unix_milli ◌+ℤ◌
reap_to_queued frozen run now backoff db =
    must_move queued
      (next_run_state running lease_expired (record (guards_for "") { crash_budget_left = true }))
    >> (fail_running_steps frozen run.id now false db >>= (λ lost.
        checked run.id (reap_queued_steps run (unix_milli (now +ℤ backoff)) (unix_milli now) lost)))

-- The decision of reapOneTx.
unfoldable pub reap_read_run : Frozen → ℤ → ℤ → ℤ → Db → RunRow → Result Error (ReapedRun × Db)
unfolding reap_to_cancelled reap_to_failed reap_to_queued unix_milli
reap_read_run frozen now backoff max_crash db run =
    if not (RunState.same run.state running)
    then err (other "the run is not running")
    else if is_requested run
    then reap_to_cancelled run (unix_milli now) db
    else if ltb_ℤ max_crash (pos (run.crash_count + 1))
    then reap_to_failed frozen run now "RUN_POISONED" "run.poisoned"
        (crashes_are (run.crash_count + 1) max_crash) db
    else if leb run.max_attempts run.attempt
    then reap_to_failed frozen run now "RUN_ORPHANED_RECONCILED" "run.failed" (text "{}") db
    else reap_to_queued frozen run now backoff db

-- reapOneTx.
unfoldable pub reap_one : Frozen → ℤ → ℤ → ℤ → Db → String → Result Error (ReapedRun × Db)
unfolding reap_read_run
reap_one frozen now backoff max_crash db run_id = elim (find_run run_id db.runs) [
  | none ↦ err run_not_found
  | some run ↦ reap_read_run frozen now backoff max_crash db run
]
