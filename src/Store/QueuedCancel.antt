-- ===== src/Store/QueuedCancel.antt =====
-- internal/store/runlease.go: closeCancelledQueuedTx, which closes the queued runs that somebody asked
-- to cancel before anyone claimed them. The query's LIMIT takes the first rows of the table.
pub mod Calm
pub mod Others
use paceq.Base.{
  ℕ, String, Bool, true, false, not, ◌&&◌, List, [], ◌∷◌, Option, none, some, map, str_eq,
}
use paceq.Base.Tests.{if◌then◌else◌}
use paceq.Base.Lists.{all, select, take}
use paceq.Base.Int.{ℤ}
use paceq.Base.Result.{Result, ok, err, ◌>>=◌}
use paceq.Model.RunState.{RunState, queued, cancelled}
use paceq.Model.RunState
use paceq.Model.RunMachine.{terminal_verdict}
use paceq.Store.Rows.{
  is_timed, RunRow, Detail, text, lease_epoch_is, Db, RunEvent, append_run_event, update_runs,
}
use paceq.Store.Fence.{Error, other, owner_of}
use paceq.Store.Closure.{contains}
use paceq.Store.Finish.{step_states}
use paceq.Store.CloseOut.{close_out_cancelled_steps}
use paceq.Store.ObserveCancel.{cancel_guards, terminal_data, read_steps, is_requested}

-- claimableLimit.
abbrev pub claimable_limit : ℕ
claimable_limit = 1000

-- The WHERE and SET clauses of closeCancelledQueuedSQL.
unfoldable pub is_cancelled_queued : RunRow → Bool
is_cancelled_queued r = RunState.same r.state queued && is_requested r

unfoldable pub close_queued : ℤ → RunRow → RunRow
close_queued now_ms r = record r {
  state = cancelled;
  finished_at = some now_ms;
  reason_code = some "RUN_CANCELLED_MANUAL";
  reason_data = some (text "{}");
  defer_reason = none;
  updated_at = now_ms;
}

-- The SET clause of the correction.
unfoldable pub correct_verdict : RunState → String → Detail → ℤ → RunRow → RunRow
correct_verdict state code detail now_ms r = record r {
  state = state;
  reason_code = some code;
  reason_data = some detail;
  updated_at = now_ms;
}

abbrev pub actor_of : Option String → String
actor_of by = if str_eq (owner_of by) "" then "system" else owner_of by

-- The correction and the event of one closed run, once its steps are closed.
unfoldable pub announce_closed : RunRow → ℤ → Db → Db
unfolding cancel_guards step_states terminal_verdict terminal_data read_steps correct_verdict
    update_runs append_run_event
announce_closed c now_ms db =
    let guards = cancel_guards (step_states c.id db.steps) "RUN_CANCELLED_MANUAL" in
    let (verdict, kind) = terminal_verdict guards in
    let runs =
      if RunState.same verdict cancelled
      then db.runs
      else update_runs (λ r. str_eq r.id c.id && RunState.same r.state cancelled)
          (correct_verdict verdict guards.reason_code
            (terminal_data guards.reason_code (read_steps c.id db.steps)) now_ms)
          db.runs in
    append_run_event
      (record {
        run_id = c.id;
        step_name = "";
        at = now_ms;
        kind = kind;
        from_state = RunState.string queued;
        to_state = RunState.string verdict;
        reason_code = guards.reason_code;
        actor = actor_of c.cancel_requested_by;
        detail_json = lease_epoch_is c.lease_epoch;
      })
      (record db { runs = runs })

-- The loop over the closed rows.
unfoldable pub announce_each : ℤ → List RunRow → Db → Result Error Db
unfolding close_out_cancelled_steps announce_closed
announce_each now_ms [] db = ok db
announce_each now_ms (c ∷ rest) db =
    close_out_cancelled_steps c.id now_ms db
    >>= (λ closed. announce_each now_ms rest (announce_closed c now_ms closed))

-- The rows that the statement takes.
unfoldable pub cancelled_queued : List RunRow → List RunRow
unfolding is_cancelled_queued
cancelled_queued runs = take claimable_limit (select is_cancelled_queued runs)

-- The statement on its rows, and the loop over what it answers with.
unfoldable pub close_rows : ℤ → Db → Result Error Db
unfolding cancelled_queued update_runs close_queued announce_each
close_rows now_ms db =
    let rows = cancelled_queued db.runs in
    announce_each now_ms (map (close_queued now_ms) rows) (record db {
      runs = update_runs (λ r. contains (map (λ c. c.id) rows) r.id) (close_queued now_ms) db.runs;
    })

-- closeCancelledQueuedTx. A row that would fail the schema's CHECK fails the statement: a run that was
-- queued again keeps its start.
unfoldable pub close_cancelled_queued : ℤ → Db → Result Error Db
unfolding close_rows
close_cancelled_queued now_ms db =
    if all is_timed (map (close_queued now_ms) (cancelled_queued db.runs))
    then close_rows now_ms db
    else err (other "the row fails a CHECK of the schema")
