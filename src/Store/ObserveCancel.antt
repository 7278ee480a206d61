-- ===== src/Store/ObserveCancel.antt =====
-- internal/store/transitions.go: ObserveRunCancel, which carries out a cancellation that somebody
-- requested. It ends the steps that are open and reads the verdict off them.
pub mod Verdict
use paceq.Base.{
  ℕ, ◌+◌, String, Bool, true, false, not, ◌&&◌, List, [], ◌∷◌, Option, none, some, str_eq,
}
use paceq.Base.Tests.{if◌then◌else◌, ◌==◌}
use paceq.Base.Lists.{count_if, select}
use paceq.Base.Int.{ℤ, pos}
use paceq.Base.Result.{Result, ok, err, ◌>>=◌, ◌>>◌, refuse_if}
use paceq.Model.RunState.{RunState, succeeded, failed}
use paceq.Model.RunState
use paceq.Model.StepState.{StepState}
use paceq.Model.StepState
use paceq.Model.Event.{cancel_observed}
use paceq.Model.Guards.{Guards}
use paceq.Model.Aggregate.{run_aggregate}
use paceq.Model.RunMachine.{next_run_state, Outcome}
use paceq.Store.Leases.{unix_milli}
use paceq.Store.Rows.{
  RunRow, StepRow, Detail, text, lease_epoch_is, failed_step_is, Db, RunEvent, append_run_event,
  find_run, update_runs,
}
use paceq.Store.Fence.{
  Error, no_holder, no_cancel_request, run_not_found, lease_lost, refused, LeaseRef, held,
  lease_held_by, check_lease, with_tx,
}
use paceq.Store.Skip.{emit_kind, sort_by_idx}
use paceq.Store.Finish.{
  is_run_level_failure, step_states, all_steps_terminal, any_step_is, is_held_row,
}
use paceq.Store.CloseOut.{close_out_cancelled_steps}

-- cancelReason.
unfoldable pub cancel_reason : RunState → String → String
unfolding is_run_level_failure
cancel_reason verdict code =
    if is_run_level_failure code
    then code
    else elim verdict [ failed ↦ "RUN_FAILED_STEP" | succeeded ↦ "RUN_SUCCEEDED" | _ ↦ code ]

-- cancelGuards; the lease is the caller's to fill in.
unfoldable pub cancel_guards : List StepState → String → Guards
unfolding any_step_is all_steps_terminal is_run_level_failure run_aggregate cancel_reason
cancel_guards states code =
    let run_level = is_run_level_failure code in
    record {
      now = pos 0;
      available_at = pos 0;
      cancel_requested = false;
      lease_valid = false;
      attempts_left = false;
      any_step_failed = any_step_is states StepState.failed;
      any_step_cancelled = any_step_is states StepState.cancelled;
      all_steps_terminal = all_steps_terminal states;
      crash_budget_left = false;
      run_level_failure = run_level;
      reason_code = cancel_reason (run_aggregate states run_level) code;
      defer_reason = "";
    }

unfoldable pub first_failed : List StepRow → Detail
first_failed [] = text "{}"
first_failed (s ∷ rest) =
    if StepState.same s.state StepState.failed
    then failed_step_is s.name s.attempt
    else first_failed rest

-- terminalDataJSON.
unfoldable pub terminal_data : String → List StepRow → Detail
unfolding first_failed
terminal_data code steps =
    if not (str_eq code "RUN_FAILED_STEP") then text "{}" else first_failed steps

-- readStepsTx.
unfoldable pub read_steps : String → List StepRow → List StepRow
unfolding sort_by_idx
read_steps run_id steps = sort_by_idx (select (λ s. str_eq s.run_id run_id) steps)

-- The SET clause of the verdict.
unfoldable pub close_cancelled : RunState → String → Detail → ℤ → RunRow → RunRow
close_cancelled state code detail now_ms r = record r {
  state = state;
  finished_at = some now_ms;
  reason_code = some code;
  reason_data = some detail;
  lease_owner = none;
  lease_expires_at = none;
  updated_at = now_ms;
}

-- The UPDATE, whose WHERE clause must meet a row, and the event, when the machine moves the run.
unfoldable pub write_cancelled :
    Db
    → String
    → LeaseRef
    → String
    → ℤ
    → RunRow
    → String
    → Outcome RunState
    → Result Error (Unit {0} × Db)
unfolding update_runs close_cancelled append_run_event emit_kind terminal_data read_steps
write_cancelled db run_id ref actor now_ms run code (state, effects, some e) = err (refused e)
write_cancelled db run_id ref actor now_ms run code (state, effects, none) =
    let detail = terminal_data code (read_steps run_id db.steps) in
    if count_if (is_held_row run_id run.state ref) db.runs == 0
    then err lease_lost
    else ok (
      tt,
      append_run_event
          (record {
            run_id = run_id;
            step_name = "";
            at = now_ms;
            kind = emit_kind effects;
            from_state = RunState.string run.state;
            to_state = RunState.string state;
            reason_code = code;
            actor = actor;
            detail_json = lease_epoch_is ref.epoch;
          })
          (record db {
            runs =
                update_runs (is_held_row run_id run.state ref)
                  (close_cancelled state code detail now_ms) db.runs;
          }),
    )

-- The guards of the verdict.
unfoldable pub observed_guards : RunRow → LeaseRef → List StepState → String → Guards
unfolding cancel_guards lease_held_by
observed_guards run ref states code = record (cancel_guards states code) {
  lease_valid = lease_held_by run ref;
}

-- What follows the close-out.
unfoldable pub close_observed :
    String → LeaseRef → String → String → ℤ → RunRow → Db → Result Error (Unit {0} × Db)
unfolding observed_guards step_states write_cancelled
close_observed run_id ref actor code now_ms run db =
    let guards = observed_guards run ref (step_states run_id db.steps) code in
    write_cancelled db run_id ref actor now_ms run guards.reason_code
      (next_run_state run.state cancel_observed guards)

abbrev pub is_requested : RunRow → Bool
is_requested run = elim run.cancel_requested_at [ none ↦ false | some at ↦ true ]

unfoldable pub observe_read_run :
    Db → ℤ → String → LeaseRef → String → String → RunRow → Result Error (Unit {0} × Db)
unfolding check_lease close_out_cancelled_steps close_observed unix_milli
observe_read_run db now run_id ref actor code run =
    refuse_if (not (is_requested run)) no_cancel_request
    >> (check_lease db run_id ref now
        >> (close_out_cancelled_steps run_id (unix_milli now) db
            >>= (λ closed. close_observed run_id ref actor code (unix_milli now) run closed)))

unfoldable pub observe_run_cancel_tx :
    Db → ℤ → String → LeaseRef → String → String → Result Error (Unit {0} × Db)
unfolding observe_read_run
observe_run_cancel_tx db now run_id ref actor code = elim (find_run run_id db.runs) [
  | none ↦ err run_not_found
  | some run ↦ observe_read_run db now run_id ref actor code run
]

-- ObserveRunCancel.
unfoldable pub observe_run_cancel :
    Db → ℤ → String → LeaseRef → String → String → Result Error (Unit {0}) × Db
unfolding held observe_run_cancel_tx
observe_run_cancel db now run_id ref actor code =
    if not (held ref)
    then (err no_holder, db)
    else with_tx db (observe_run_cancel_tx db now run_id ref actor code)
