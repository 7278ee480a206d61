-- ===== src/Store/ObserveCancel/Verdict.antt =====
-- What ObserveRunCancel leaves: no open step, and a verdict that agrees with the steps.
use paceq.Base.{◌<◌, String, true, none, some, ◌≡◌, map}
use paceq.Base.Lists.{length}
use paceq.Base.Int.{ℤ}
use paceq.Base.Result.{Result}
use paceq.Model.RunState.{RunState}
use paceq.Model.StepState.{StepState}
use paceq.Model.Guards.{Guards}
use paceq.Model.Aggregate.{run_aggregate}
use paceq.Store.Leases.{unix_milli}
use paceq.Store.Rows.{RunRow, Db, find_run}
use paceq.Store.Fence.{LeaseRef, lease_held_by}
use paceq.Store.Finish.{is_run_level_failure, step_states, all_steps_terminal}
use paceq.Store.CloseOut.Cancelled.{closed}
use paceq.Store.ObserveCancel.{is_requested}

-- What an observed cancellation was, and what it leaves.
pub record Observed (db : Db) (now : ℤ) (run_id : String) (ref : LeaseRef) (code : String)
    (after : Db) : Type 0 where
  pub run : RunRow
  pub run_found : find_run run_id db.runs ≡ some run
  pub run_held : lease_held_by run ref ≡ true
  pub requested : is_requested run ≡ true
  pub steps_closed : after.steps ≡ map (closed run_id (unix_milli now)) db.steps
  pub all_ended : all_steps_terminal (step_states run_id after.steps) ≡ true
  pub row : RunRow
  pub row_found : find_run run_id after.runs ≡ some row
  pub agrees :
      row.state ≡ run_aggregate (step_states run_id after.steps) (is_run_level_failure code)
  pub released : row.lease_owner ≡ none
  pub told : length db.events < length after.events
