-- ===== src/Store/Finish.antt =====
-- internal/store/transitions.go: FinishRun, the verdict of a run whose steps are all terminal.
-- internal/reason: IsRunLevelFailure, which answers from the two entries of the catalogue in codes.go
-- that carry the flag. The clock's reading is in nanoseconds.
pub mod Writes
pub mod Agreement
use paceq.Base.{
  ℕ, ◌+◌, String, Bool, true, false, not, ◌&&◌, ◌||◌, List, [], ◌∷◌, Option, none, some, map,
  str_eq,
}
use paceq.Base.Tests.{if◌then◌else◌, ◌==◌}
use paceq.Base.Lists.{any, all, count_if, select}
use paceq.Base.Int.{ℤ, ◌-ℤ◌}
use paceq.Base.Result.{Result, ok, err, ◌>>=◌, ◌>>◌}
use paceq.Model.RunState.{RunState}
use paceq.Model.RunState
use paceq.Model.StepState.{StepState, failed, cancelled}
use paceq.Model.StepState
use paceq.Model.Event.{all_steps_done}
use paceq.Model.Effect.{Effect}
use paceq.Model.Guards.{Guards}
use paceq.Model.RunMachine.{next_run_state}
use paceq.Store.Leases.{unix_milli}
use paceq.Store.Rows.{
  RunRow, StepRow, Detail, text, with_epoch, is_empty, Db, RunEvent, append_run_event, find_run,
  update_runs,
}
use paceq.Store.Outbox.{Notification, insert_notifications, NoteError, Outbox}
use paceq.Store.Fence.{
  Error, no_holder, run_not_found, lease_lost, refused, bad_note, LeaseRef, held, owner_of,
  lease_held_by, check_lease, with_tx,
}
use paceq.Store.Skip.{emit_kind, sort_by_idx}

-- reason.IsRunLevelFailure.
unfoldable pub is_run_level_failure : String → Bool
is_run_level_failure code = str_eq code "RUN_POISONED" || str_eq code "RUN_ORPHANED_RECONCILED"

-- readStepsTx and stepStatesOf: the states of a run's steps, by their index.
unfoldable pub step_states : String → List StepRow → List StepState
unfolding sort_by_idx
step_states run_id steps =
    map (λ s. s.state) (sort_by_idx (select (λ s. str_eq s.run_id run_id) steps))

unfoldable pub all_steps_terminal : List StepState → Bool
all_steps_terminal states = all StepState.is_terminal states

unfoldable pub any_step_is : List StepState → StepState → Bool
any_step_is states want = any (λ s. StepState.same s want) states

-- FinishReason.
pub record FinishReason : Type 0 where
  pub code : String
  pub data_json : Detail

-- The guards of the verdict.
unfoldable pub finish_guards : RunRow → LeaseRef → ℤ → FinishReason → List StepState → Guards
unfolding lease_held_by all_steps_terminal any_step_is is_run_level_failure
finish_guards run ref now_ms fr states = record {
  now = now_ms;
  available_at = run.available_at;
  cancel_requested = false;
  lease_valid = lease_held_by run ref;
  attempts_left = false;
  any_step_failed = any_step_is states failed;
  any_step_cancelled = any_step_is states cancelled;
  all_steps_terminal = all_steps_terminal states;
  crash_budget_left = false;
  run_level_failure = is_run_level_failure fr.code;
  reason_code = fr.code;
  defer_reason = "";
}

-- `CASE WHEN started_at IS NULL THEN NULL ELSE ? - started_at END`.
abbrev pub duration_since : Option ℤ → ℤ → Option ℤ
duration_since none finished = none
duration_since (some started) finished = some (finished -ℤ started)

-- The WHERE clause of the verdict: the row is still the holder's.
abbrev pub is_held_row : String → RunState → LeaseRef → RunRow → Bool
is_held_row run_id cur ref r =
    str_eq r.id run_id
    && RunState.same r.state cur
    && elim r.lease_owner [ none ↦ false | some o ↦ str_eq o ref.owner ]
    && (r.lease_epoch == ref.epoch)

-- The SET clause of the verdict.
unfoldable pub close_run : RunState → FinishReason → Detail → ℤ → RunRow → RunRow
close_run state fr detail now_ms r = record r {
  state = state;
  reason_code = some fr.code;
  reason_data = some detail;
  finished_at = some now_ms;
  duration_ms = duration_since r.started_at now_ms;
  lease_owner = none;
  lease_expires_at = none;
  updated_at = now_ms;
}

abbrev pub data_of : FinishReason → Detail
data_of fr = if is_empty fr.data_json then text "{}" else fr.data_json

-- finishTransition of the verdict: the UPDATE, whose WHERE clause must meet a row, and the event.
unfoldable pub write_verdict :
    Db → String → LeaseRef → FinishReason → ℤ → RunState → RunState → List Effect → Result Error Db
unfolding update_runs close_run append_run_event emit_kind
write_verdict db run_id ref fr now_ms cur state effects =
    if count_if (is_held_row run_id cur ref) db.runs == 0
    then err lease_lost
    else ok (
        append_run_event
          (record {
            run_id = run_id;
            step_name = "";
            at = now_ms;
            kind = emit_kind effects;
            from_state = RunState.string cur;
            to_state = RunState.string state;
            reason_code = fr.code;
            actor = "";
            detail_json = with_epoch (data_of fr) ref.epoch;
          })
          (record db {
            runs =
                update_runs (is_held_row run_id cur ref) (close_run state fr (data_of fr) now_ms)
                  db.runs;
          }))

-- The notifications that ride in the transaction.
unfoldable pub write_notes : List Notification → Db → Result Error Db
unfolding insert_notifications
write_notes notes db = elim (insert_notifications notes db.outbox) [
  | err e ↦ err (bad_note e)
  | ok box ↦ ok (record db { outbox = box })
]

-- The writes of the transaction, with the state that it answers.
unfoldable pub write_run :
    Db
    → String
    → LeaseRef
    → FinishReason
    → List Notification
    → ℤ
    → RunState
    → RunState
    → List Effect
    → Result Error (RunState × Db)
unfolding write_verdict write_notes
write_run db run_id ref fr notes now_ms cur state effects =
    write_verdict db run_id ref fr now_ms cur state effects
    >>= (λ closed. write_notes notes closed >>= (λ after. ok (state, after)))

-- What follows once the run was read.
unfoldable pub finish_read_run :
    Db
    → ℤ
    → String
    → LeaseRef
    → FinishReason
    → List Notification
    → RunRow
    → Result Error (RunState × Db)
unfolding finish_guards step_states write_run unix_milli
finish_read_run db now run_id ref fr notes run =
    let guards = finish_guards run ref (unix_milli now) fr (step_states run_id db.steps) in
    let (state, effects, refusal) = next_run_state run.state all_steps_done guards in
    elim refusal [
      | some e ↦ err (refused e)
      | none ↦ write_run db run_id ref fr notes (unix_milli now) run.state state effects
    ]

-- The body of the transaction of FinishRun.
unfoldable pub finish_run_tx :
    Db → ℤ → String → LeaseRef → FinishReason → List Notification → Result Error (RunState × Db)
unfolding check_lease finish_read_run
finish_run_tx db now run_id ref fr notes =
    check_lease db run_id ref now >> elim (find_run run_id db.runs) [
      | none ↦ err run_not_found
      | some run ↦ finish_read_run db now run_id ref fr notes run
    ]

-- FinishRun.
unfoldable pub finish_run :
    Db → ℤ → String → LeaseRef → FinishReason → List Notification → Result Error RunState × Db
unfolding held finish_run_tx
finish_run db now run_id ref fr notes =
    if not (held ref)
    then (err no_holder, db)
    else with_tx db (finish_run_tx db now run_id ref fr notes)
