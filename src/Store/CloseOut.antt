-- ===== src/Store/CloseOut.antt =====
-- internal/store/transitions.go and runlease.go: the close-outs, which end the steps of a run that are
-- still open. Each walks the run's steps in their order and sends one step at a time through the machine,
-- with its own update and its own event. `finishTransition` is the update and then the event.
pub mod Ended
pub mod Cancelled
use paceq.Base.{String, Bool, true, false, ◌&&◌, List, [], ◌∷◌, Option, none, some, str_eq}
use paceq.Base.Tests.{if◌then◌else◌}
use paceq.Base.Lists.{select}
use paceq.Base.Int.{ℤ}
use paceq.Base.Result.{Result, ok, err, ◌>>=◌}
use paceq.Model.StepState.{StepState, pending, running, skipped, cancelled}
use paceq.Model.StepState
use paceq.Model.Event.{Event, upstream_failed, cancel_observed}
use paceq.Model.RunMachine.{Outcome}
use paceq.Model.StepMachine.{next_step_state}
use paceq.Store.Rows.{StepRow, Detail, text, RunEvent, Db, append_run_event, is_step, update_steps}
use paceq.Store.Fence.{Error, refused}
use paceq.Store.Skip.{guards_for, emit_kind, sort_by_idx}
use paceq.Store.Finish.{duration_since, step_states}

-- What one close-out does to a step: the state that it looks for, its event, its SET clause, its
-- reason code, its actor and the detail of its event.
pub record Ending : Type 0 where
  pub from : StepState
  pub event : Event
  pub set : StepRow → StepRow
  pub code : String
  pub actor : String
  pub detail : Detail

-- The SET clause of cancelRunningStepsTx.
unfoldable pub mark_stopped : ℤ → StepRow → StepRow
mark_stopped now_ms s = record s {
  state = cancelled;
  reason_code = some "STEP_CANCELLED";
  reason_data = some (text "{}");
  finished_at = some now_ms;
  duration_ms = duration_since s.started_at now_ms;
}

-- The SET clauses of cancelPendingStepsTx and of skipPendingStepsTx.
unfoldable pub mark_closed : StepState → String → ℤ → StepRow → StepRow
mark_closed to code now_ms s = record s {
  state = to;
  finished_at = some now_ms;
  reason_code = some code;
  reason_data = some (text "{}");
}

abbrev pub is_open_step : Ending → String → String → StepRow → Bool
is_open_step e run_id name s = is_step run_id name s && StepState.same s.state e.from

-- The update and the event of one step, when the machine moves it.
unfoldable pub write_end : Ending → String → ℤ → Db → String → Outcome StepState → Result Error Db
unfolding emit_kind append_run_event update_steps
write_end e run_id now_ms db name (to, effects, some r) = err (refused r)
write_end e run_id now_ms db name (to, effects, none) = ok (
    append_run_event
      (record {
        run_id = run_id;
        step_name = name;
        at = now_ms;
        kind = emit_kind effects;
        from_state = StepState.string e.from;
        to_state = StepState.string to;
        reason_code = e.code;
        actor = e.actor;
        detail_json = e.detail;
      })
      (record db { steps = update_steps (is_open_step e run_id name) e.set db.steps }))

-- One step.
unfoldable pub end_step : Ending → String → ℤ → Db → String → Result Error Db
unfolding write_end
end_step e run_id now_ms db name =
    write_end e run_id now_ms db name (next_step_state e.from e.event (guards_for e.code))

-- forEachPendingStepTx, over the rows that it has read.
unfoldable pub for_each_step : (Db → String → Result Error Db) → Db → List StepRow → Result Error Db
for_each_step f db [] = ok db
for_each_step f db (s ∷ rest) = elim (f db s.name) [
  | err e ↦ err e
  | ok after ↦ for_each_step f after rest
]

abbrev pub is_of_run : StepState → String → StepRow → Bool
is_of_run from run_id s = str_eq s.run_id run_id && StepState.same s.state from

unfoldable pub end_steps : Ending → String → ℤ → Db → Result Error Db
unfolding for_each_step end_step sort_by_idx
end_steps e run_id now_ms db =
    for_each_step (end_step e run_id now_ms) db
      (sort_by_idx (select (is_of_run e.from run_id) db.steps))

abbrev pub stop_ending : ℤ → Ending
stop_ending now_ms = record {
  from = running;
  event = cancel_observed;
  set = mark_stopped now_ms;
  code = "STEP_CANCELLED";
  actor = "reaper";
  detail = text "";
}

abbrev pub cancel_ending : ℤ → String → Ending
cancel_ending now_ms code = record {
  from = pending;
  event = cancel_observed;
  set = mark_closed cancelled code now_ms;
  code = code;
  actor = "";
  detail = text "";
}

abbrev pub skip_ending : ℤ → String → Ending
skip_ending now_ms code = record {
  from = pending;
  event = upstream_failed;
  set = mark_closed skipped code now_ms;
  code = code;
  actor = "";
  detail = text "";
}

-- cancelRunningStepsTx.
unfoldable pub cancel_running_steps : String → ℤ → Db → Result Error Db
unfolding end_steps mark_stopped
cancel_running_steps run_id now_ms db = end_steps (stop_ending now_ms) run_id now_ms db

-- cancelPendingStepsTx.
unfoldable pub cancel_pending_steps : String → ℤ → String → Db → Result Error Db
unfolding end_steps mark_closed
cancel_pending_steps run_id now_ms code db = end_steps (cancel_ending now_ms code) run_id now_ms db

-- skipPendingStepsTx.
unfoldable pub skip_pending_steps : String → ℤ → String → Db → Result Error Db
unfolding end_steps mark_closed
skip_pending_steps run_id now_ms code db = end_steps (skip_ending now_ms code) run_id now_ms db

-- closeOutCancelledStepsTx; its answer is read off the tables that it leaves.
unfoldable pub close_out_cancelled_steps : String → ℤ → Db → Result Error Db
unfolding cancel_running_steps cancel_pending_steps
close_out_cancelled_steps run_id now_ms db =
    cancel_running_steps run_id now_ms db
    >>= (λ stopped. cancel_pending_steps run_id now_ms "STEP_CANCELLED" stopped)
