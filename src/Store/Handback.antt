-- ===== src/Store/Handback.antt =====
-- internal/store/transitions.go: RequeueCrashedRun and DrainRun, which put a running run back in the
-- queue. `attempt - 1` is of a step that is running, whose attempt was counted when it started.
pub mod Drained
use paceq.Base.{
  ℕ, ◌+◌, ◌-◌, String, Bool, true, false, not, ◌&&◌, ◌||◌, List, [], ◌∷◌, Option, none, some,
  str_eq,
}
use paceq.Base.Tests.{if◌then◌else◌, ◌==◌}
use paceq.Base.Lists.{count_if}
use paceq.Base.Int.{ℤ, pos, ltb_ℤ, ◌*ℤ◌}
use paceq.Base.Result.{Result, ok, err, ◌>>=◌}
use paceq.Model.RunState.{RunState, queued, running}
use paceq.Model.RunState
use paceq.Model.StepState.{StepState}
use paceq.Model.Event.{lease_expired, shutdown_drain}
use paceq.Model.Guards.{Guards}
use paceq.Model.RunMachine.{
  next_run_state, Outcome, defer_reason_after_crash, defer_reason_after_shutdown,
}
use paceq.Store.Leases.{unix_milli}
use paceq.Store.Rows.{
  RunRow, StepRow, Detail, text, with_epoch, deferred_for, Db, RunEvent, append_run_event, find_run,
  update_runs,
}
use paceq.Store.Fence.{
  Error, no_holder, run_not_found, lease_lost, refused, other, LeaseRef, held, lease_held_by,
  still_live, with_tx,
}
use paceq.Store.Skip.{emit_kind, guards_for}
use paceq.Store.Finish.{is_held_row}
use paceq.Store.CloseOut.{Ending, end_steps}

-- The SET clause of an interrupted step. An attempt that is given back was counted when the step
-- started, so a step that runs has one to give; the subtraction is exact for it.
unfoldable pub mark_interrupted : String → ℤ → StepRow → StepRow
mark_interrupted code now_ms s = record s {
  state = StepState.pending;
  attempt = s.attempt - 1;
  reason_code = some code;
  next_attempt_at = some now_ms;
  finished_at = none;
  duration_ms = none;
}

abbrev pub drain_ending : ℤ → String → Ending
drain_ending now_ms code = record {
  from = StepState.running;
  event = shutdown_drain;
  set = mark_interrupted code now_ms;
  code = code;
  actor = "";
  detail = text "{\"why\":\"daemon_stop\"}";
}

-- The SET clause of the requeue.
unfoldable pub requeue : String → ℤ → RunRow → RunRow
requeue why now_ms r = record r {
  state = queued;
  lease_owner = none;
  lease_expires_at = none;
  lease_epoch = r.lease_epoch + 1;
  defer_reason = some why;
  available_at = now_ms;
  updated_at = now_ms;
}

-- The UPDATE, whose WHERE clause `p` must meet a row, and the event, when the machine sends the run
-- back to the queue.
unfoldable pub write_requeue :
    Db
    → String
    → (RunRow → Bool)
    → (RunRow → RunRow)
    → String
    → ℤ
    → RunRow
    → Outcome RunState
    → Result Error Db
unfolding update_runs append_run_event emit_kind
write_requeue db run_id p f why now_ms run (state, effects, some e) = err (refused e)
write_requeue db run_id p f why now_ms run (state, effects, none) =
    if not (RunState.same state queued)
    then err (other "the machine sent a running run elsewhere")
    else if count_if p db.runs == 0
    then err lease_lost
    else ok (
        append_run_event
          (record {
            run_id = run_id;
            step_name = "";
            at = now_ms;
            kind = emit_kind effects;
            from_state = RunState.string run.state;
            to_state = RunState.string state;
            reason_code = "";
            actor = "";
            detail_json = with_epoch (deferred_for why) (run.lease_epoch + 1);
          })
          (record db { runs = update_runs p f db.runs }))

-- A lease that was given and has run out.
unfoldable pub is_expired : RunRow → ℤ → Bool
unfolding still_live
is_expired run now = elim run.lease_expires_at [
  | none ↦ false
  | some expires ↦ not (still_live (some expires) now)
]

abbrev pub is_epoch_row : String → ℕ → RunRow → Bool
is_epoch_row run_id epoch r =
    str_eq r.id run_id && RunState.same r.state running && (r.lease_epoch == epoch)

abbrev pub crash_guards : Guards
crash_guards = record (guards_for "") { crash_budget_left = true }

abbrev pub count_crash : RunRow → RunRow
count_crash r = record r { crash_count = r.crash_count + 1 }

unfoldable pub requeue_read_run : Db → ℤ → String → RunRow → Result Error (Unit {0} × Db)
unfolding is_expired write_requeue requeue unix_milli
requeue_read_run db now run_id run =
    if not (RunState.same run.state running) || not (is_expired run now)
    then err (other "the lease is not expired")
    else write_requeue db run_id (is_epoch_row run_id run.lease_epoch)
        (λ r. count_crash (requeue defer_reason_after_crash (unix_milli now) r))
        defer_reason_after_crash (unix_milli now) run
        (next_run_state run.state lease_expired crash_guards)
      >>= (λ after. ok (tt, after))

-- RequeueCrashedRun.
unfoldable pub requeue_crashed_run : Db → ℤ → String → Result Error (Unit {0}) × Db
unfolding requeue_read_run
requeue_crashed_run db now run_id = with_tx db (elim (find_run run_id db.runs) [
  | none ↦ err run_not_found
  | some run ↦ requeue_read_run db now run_id run
])

-- The run, once its steps are back.
unfoldable pub drain_run_row : String → LeaseRef → ℤ → RunRow → Db → Result Error (Bool × Db)
unfolding write_requeue requeue lease_held_by
drain_run_row run_id ref now_ms run db =
    write_requeue db run_id (is_held_row run_id running ref)
      (requeue defer_reason_after_shutdown now_ms) defer_reason_after_shutdown now_ms run
      (next_run_state run.state shutdown_drain
        (record (guards_for "") { lease_valid = lease_held_by run ref }))
    >>= (λ after. ok (true, after))

unfoldable pub drain_read_run :
    Db → ℤ → String → LeaseRef → String → RunRow → Result Error (Bool × Db)
unfolding lease_held_by end_steps mark_interrupted drain_run_row unix_milli
drain_read_run db now run_id ref code run =
    if not (lease_held_by run ref)
    then ok (false, db)
    else end_steps (drain_ending (unix_milli now) code) run_id (unix_milli now) db
      >>= (λ steps. drain_run_row run_id ref (unix_milli now) run steps)

unfoldable pub drain_run_tx : Db → ℤ → String → LeaseRef → String → Result Error (Bool × Db)
unfolding drain_read_run
drain_run_tx db now run_id ref code = elim (find_run run_id db.runs) [
  | none ↦ err run_not_found
  | some run ↦ drain_read_run db now run_id ref code run
]

-- DrainRun; the answer says whether anything was handed back.
unfoldable pub drain_run : Db → ℤ → String → LeaseRef → String → Result Error Bool × Db
unfolding held drain_run_tx
drain_run db now run_id ref code =
    if not (held ref) then (err no_holder, db) else with_tx db (drain_run_tx db now run_id ref code)
