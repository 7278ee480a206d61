-- ===== src/Store/Reaper/Decision.antt =====
-- The decision of the reaper: every running run is decided, and no arm fails.
use paceq.Base.{◌+◌, String, Bool, true, false, not, none, some, ◌≡◌, refl, ap, ◌∙◌, arith, eq_iff}
use paceq.Base.Tests.{if◌then◌else◌, leb}
use paceq.Base.Int.{ℤ, pos, ltb_ℤ}
use paceq.Base.Result.{Result, ok, err}
use paceq.Model.RunState.{RunState}
use paceq.Model.RunState
use paceq.Store.Leases.{unix_milli}
use paceq.Store.Rows.{RunRow, Db, text, crashes_are, find_run}
use paceq.Store.Rows.Keys.{UniqueSteps}
use paceq.Store.Fence.{Error, run_not_found, other}
use paceq.Store.Finish.Writes.{find_run-id}
use paceq.Store.Finish.{is_run_level_failure}
use paceq.Store.RetryPlan.{Frozen}
use paceq.Store.ObserveCancel.{is_requested}
use paceq.Store.Reaper.{
  ReapedRun, reap_to_cancelled, reap_to_failed, reap_to_queued, reap_read_run, reap_one,
}
use paceq.Store.Reaper.Verdict.{Reaped, is_timely}
use paceq.Store.Reaper.Endings.{Decides, reap_to_cancelled-Reaped}
use paceq.Store.Reaper.FailedArm.{reap_to_failed-Reaped}
use paceq.Store.Reaper.QueuedArm.{reap_to_queued-Reaped}

-- The tests of the decision, in their order.
chosen-Reaped :
    (frozen : Frozen) (now backoff max_crash : ℤ) (db : Db) (run : RunRow)
    (live asked poisoned spent : Bool)
    → UniqueSteps db.steps
    → find_run run.id db.runs ≡ some run
    → run.state ≡ RunState.running
    → is_timely (unix_milli now) run ≡ true
    → live ≡ true
    → is_requested run ≡ asked
    → ltb_ℤ max_crash (pos (run.crash_count + 1)) ≡ poisoned
    → leb run.max_attempts run.attempt ≡ spent
    → Decides db max_crash run (
        if not live
        then err (other "the run is not running")
        else if asked
        then reap_to_cancelled run (unix_milli now) db
        else if poisoned
        then reap_to_failed frozen run now "RUN_POISONED" "run.poisoned"
            (crashes_are (run.crash_count + 1) max_crash)
            db
        else if spent
        then reap_to_failed frozen run now "RUN_ORPHANED_RECONCILED" "run.failed" (text "{}") db
        else reap_to_queued frozen run now backoff db)
unfolding is_run_level_failure
chosen-Reaped frozen now backoff max_crash db run false a b c u found p w live asked poisoned
      spent =
    absurd (cc)
chosen-Reaped frozen now backoff max_crash db run true true b c u found p w live asked poisoned
      spent =
    reap_to_cancelled-Reaped db max_crash run (unix_milli now) found p w
chosen-Reaped frozen now backoff max_crash db run true false true c u found p w live asked poisoned
      spent =
    reap_to_failed-Reaped frozen db max_crash run now "RUN_POISONED" "run.poisoned"
      (crashes_are (run.crash_count + 1) max_crash) (ground (arith, eq_iff "RUN_POISONED" "")) refl
      u found p w
chosen-Reaped frozen now backoff max_crash db run true false false true u found p w live asked
      poisoned spent =
    reap_to_failed-Reaped frozen db max_crash run now "RUN_ORPHANED_RECONCILED" "run.failed"
      (text "{}") (ground (arith, eq_iff "RUN_ORPHANED_RECONCILED" "")) refl u found p w
chosen-Reaped frozen now backoff max_crash db run true false false false u found p w live asked
      poisoned spent =
    reap_to_queued-Reaped frozen db max_crash run now backoff u found p w asked poisoned spent

reap_read_run-Reaped :
    (frozen : Frozen) (now backoff max_crash : ℤ) (db : Db) (run : RunRow)
    → UniqueSteps db.steps
    → find_run run.id db.runs ≡ some run
    → run.state ≡ RunState.running
    → is_timely (unix_milli now) run ≡ true
    → Decides db max_crash run (reap_read_run frozen now backoff max_crash db run)
unfolding reap_read_run
reap_read_run-Reaped frozen now backoff max_crash db run u found p w =
    chosen-Reaped frozen now backoff max_crash db run _ _ _ _ u found p w
      (ap (λ s. RunState.same s RunState.running) p) refl refl refl

reap_one_found :
    (frozen : Frozen) (now backoff max_crash : ℤ) (db : Db) (run_id : String) (run : RunRow)
    → find_run run_id db.runs ≡ some run
    → reap_one frozen now backoff max_crash db run_id
      ≡ reap_read_run frozen now backoff max_crash db run
unfolding reap_one
reap_one_found frozen now backoff max_crash db run_id run found =
    ap
      (λ o. elim o as (λ x. Result Error (ReapedRun × Db)) [
        | none ↦ err run_not_found
        | some r ↦ reap_read_run frozen now backoff max_crash db r
      ])
      found

-- Of a run that is running, did not start after the clock's reading and meets the schema's CHECK, the
-- reaper's decision never fails. The run's row has no holder, its epoch is one higher, so that the holder
-- that went silent is fenced out, and the crash is counted; no other run is touched, and no step of
-- another run. No step of the run is running. Either the run is queued again, which is so only if
-- nobody asked to cancel it, its crashes and attempts are within their bounds and a step is still open;
-- or every step has ended and the run has the state that its steps aggregate to (I10), and in its row
-- the reason code that the reaper answers. A run whose steps had all ended before has the state that
-- they aggregate to on their own.
pub reap_one-Reaped :
    (frozen : Frozen) (now backoff max_crash : ℤ) (db : Db) (run_id : String) (run : RunRow)
    → UniqueSteps db.steps
    → find_run run_id db.runs ≡ some run
    → run.state ≡ RunState.running
    → is_timely (unix_milli now) run ≡ true
    → (answer : ReapedRun) × (after : Db) × (reap_one frozen now backoff max_crash db run_id
        ≡ ok (answer, after))
      × Reaped db max_crash run answer after
reap_one-Reaped frozen now backoff max_crash db run_id run u found p w =
    let same = find_run-id run_id db.runs run found in
    let found' : find_run run.id db.runs ≡ some run = ap (λ i. find_run i db.runs) same ∙ found in
    let (answer, after, e, reaped) =
      reap_read_run-Reaped frozen now backoff max_crash db run u found' p w in
    (answer, after, reap_one_found frozen now backoff max_crash db run_id run found ∙ e, reaped)
