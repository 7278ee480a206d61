-- ===== src/Store/Finish/Writes.antt =====
-- The statements of FinishRun: the guards read off the steps, the row that the update meets, and
-- the notifications beside it.
use paceq.Base.{
  ◌+◌, String, true, false, List, [], ◌∷◌, none, some, ◌≡◌, ◌≢◌, refl, inl, inr, arith, eq_iff,
  str_eq,
}
use paceq.Base.Tests.{Bool-cases, ◌==◌}
use paceq.Base.Lists.{count_if, length, length-append}
use paceq.Base.Int.{ℤ}
use paceq.Base.Result.{Result, ok, err}
use paceq.Model.RunState.{RunState}
use paceq.Model.StepState.{StepState, failed, cancelled}
use paceq.Model.Event.{all_steps_done}
use paceq.Model.Effect.{Effect}
use paceq.Model.Guards.{Guards}
use paceq.Model.RunMachine.{next_run_state, require_reason}
use paceq.Model.Aggregate.{run_aggregate}
use paceq.Model.Aggregate.Verdict.{terminal_verdict-run_aggregate}
use paceq.Store.Rows.{RunRow, Db, append_run_event, find_run, update_runs}
use paceq.Store.Outbox.{Notification, Outbox, NoteError, insert_notifications}
use paceq.Store.Fence.{LeaseRef, held, lease_held_by, bad_note}
use paceq.Store.Finish.{
  all_steps_terminal, any_step_is, FinishReason, is_held_row, close_run, data_of, write_verdict,
  write_notes,
}

-- The machine's answer to the finished steps, read off them.
pub all_steps_done-run_aggregate :
    (g : Guards) (cur : RunState) (steps : List StepState)
    → cur ≡ RunState.running
    → g.any_step_failed ≡ any_step_is steps failed
    → g.any_step_cancelled ≡ any_step_is steps cancelled
    → g.all_steps_terminal ≡ all_steps_terminal steps
    → (next_run_state cur all_steps_done g).2 ≡ none
    → (g.lease_valid ≡ true)
      × (all_steps_terminal steps ≡ true)
      × (g.reason_code ≢ "")
      × ((next_run_state cur all_steps_done g).0 ≡ run_aggregate steps g.run_level_failure)
unfolding any_step_is all_steps_terminal next_run_state require_reason
all_steps_done-run_aggregate g cur steps p f c t e =
    ground (arith, eq_iff g.reason_code "", terminal_verdict-run_aggregate g steps f c)

pub find_run-id :
    (id : String) (runs : List RunRow) (r : RunRow) → find_run id runs ≡ some r → r.id ≡ id
unfolding find_run
find_run-id id [] r h = absurd (cc)
find_run-id id (x ∷ rest) r h = ground (arith, find_run-id id rest r, eq_iff x.id id)

-- The update of the run's own row is what a reader of the run finds.
pub find_run-update_runs :
    (id : String) (cur : RunState) (ref : LeaseRef) (f : RunRow → RunRow) (runs : List RunRow)
    (r : RunRow)
    → find_run id runs ≡ some r
    → is_held_row id cur ref r ≡ true
    → (f r).id ≡ r.id
    → find_run id (update_runs (is_held_row id cur ref) f runs) ≡ some (f r)
unfolding find_run update_runs
find_run-update_runs id cur ref f [] r h w k = absurd (cc)
find_run-update_runs id cur ref f (x ∷ rest) r h w k = elim (Bool-cases (str_eq x.id id)) [
  | inl e ↦ ground (arith, eq_iff x.id id, eq_iff r.id id)
  | inr e ↦ ground (arith, find_run-update_runs id cur ref f rest r, eq_iff x.id id)
]

pub held-is_held_row :
    (id : String) (ref : LeaseRef) (r : RunRow)
    → r.id ≡ id
    → lease_held_by r ref ≡ true
    → is_held_row id r.state ref r ≡ true
unfolding lease_held_by held
held-is_held_row id ref r e h =
    ground (arith, eq_iff r.id id, eq_iff "" ref.owner, eq_iff ref.owner "")

pub is_held_row-count_if :
    (id : String) (cur : RunState) (ref : LeaseRef) (runs : List RunRow) (r : RunRow)
    → find_run id runs ≡ some r
    → is_held_row id cur ref r ≡ true
    → (count_if (is_held_row id cur ref) runs == 0) ≡ false
unfolding find_run
is_held_row-count_if id cur ref [] r h w = absurd (cc)
is_held_row-count_if id cur ref (x ∷ rest) r h w =
    ground (arith, is_held_row-count_if id cur ref rest r, eq_iff x.id id, eq_iff r.id id)

-- The write of a verdict meets the holder's row.
pub write_verdict_lem :
    (db : Db) (run_id : String) (ref : LeaseRef) (fr : FinishReason) (now_ms : ℤ) (state : RunState)
    (fx : List Effect) (run : RunRow)
    → find_run run_id db.runs ≡ some run
    → is_held_row run_id run.state ref run ≡ true
    → (closed : Db) × (write_verdict db run_id ref fr now_ms run.state state fx ≡ ok closed)
      × (find_run run_id closed.runs ≡ some (close_run state fr (data_of fr) now_ms run))
      × (closed.steps ≡ db.steps)
      × (length closed.events ≡ length db.events + 1)
unfolding write_verdict append_run_event close_run
write_verdict_lem db run_id ref fr now_ms state fx run f w =
    rw (is_held_row-count_if run_id run.state ref db.runs run f w) (
      _,
      refl,
      find_run-update_runs run_id run.state ref (close_run state fr (data_of fr) now_ms) db.runs run
          f w refl,
      refl,
      omega (arith, length-append db.events),
    )

pub write_notes_lem :
    (notes : List Notification) (db after : Db)
    → write_notes notes db ≡ ok after
    → (after.runs ≡ db.runs) × (after.steps ≡ db.steps) × (after.events ≡ db.events)
unfolding write_notes
write_notes_lem notes db after e = go (insert_notifications notes db.outbox) e
  where
    go :
        (r : Result NoteError Outbox)
        → (elim r [ err x ↦ err (bad_note x) | ok box ↦ ok (record db { outbox = box }) ])
          ≡ ok after
        → (after.runs ≡ db.runs) × (after.steps ≡ db.steps) × (after.events ≡ db.events)
    go (err x) q = absurd (cc)
    go (ok box) q = ground arith
