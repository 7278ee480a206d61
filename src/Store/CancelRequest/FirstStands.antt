-- ===== src/Store/CancelRequest/FirstStands.antt =====
-- The first request stands.
use paceq.Base.{String, false, List, [], ◌∷◌, some, ◌≡◌, ◌≢◌, refl, ap, arith, eq_iff}
use paceq.Base.Tests.{◌==◌}
use paceq.Base.Lists.{count_if}
use paceq.Base.Int.{ℤ}
use paceq.Base.Result.{ok}
use paceq.Store.Leases.{unix_milli}
use paceq.Store.Rows.{RunRow, Db, find_run, update_runs}
use paceq.Store.CancelRequest.{
  mark_requested, has_id, request_of, request_cancel_tx, request_cancel,
}

find_run-update_runs_id :
    (run_id : String) (f : RunRow → RunRow) (runs : List RunRow) (r : RunRow)
    → ((x : RunRow) → (f x).id ≡ x.id)
    → find_run run_id runs ≡ some r
    → find_run run_id (update_runs (has_id run_id) f runs) ≡ some (f r)
unfolding find_run update_runs
find_run-update_runs_id run_id f [] r k h = absurd (cc)
find_run-update_runs_id run_id f (x ∷ rest) r k h =
    ground (arith, find_run-update_runs_id run_id f rest r k, k x, eq_iff x.id run_id)

find_run-count_if :
    (run_id : String) (runs : List RunRow) (r : RunRow)
    → find_run run_id runs ≡ some r
    → (count_if (has_id run_id) runs == 0) ≡ false
unfolding find_run
find_run-count_if run_id [] r h = absurd (cc)
find_run-count_if run_id (x ∷ rest) r h = ground (arith, find_run-count_if run_id rest r)

mark_requested-id :
    (now_ms : ℤ) (by why : String) (x : RunRow) → (mark_requested now_ms by why x).id ≡ x.id
unfolding mark_requested
mark_requested-id now_ms by why x = refl

mark_requested_twice :
    (now_ms later_ms : ℤ) (by why by' why' : String) (r : RunRow)
    → by ≢ ""
    → request_of (mark_requested later_ms by' why' (mark_requested now_ms by why r))
      ≡ request_of (mark_requested now_ms by why r)
unfolding mark_requested
mark_requested_twice now_ms later_ms by why by' why' r n = ground (arith, eq_iff by "")

-- A request for a run that exists.
request_cancel_lem :
    (db : Db) (now : ℤ) (run_id by why : String) (r : RunRow)
    → find_run run_id db.runs ≡ some r
    → (request_cancel db now run_id by why ≡ (
      ok (request_of (mark_requested (unix_milli now) by why r)),
      record db {
        runs = update_runs (has_id run_id) (mark_requested (unix_milli now) by why) db.runs;
      },
    ))
unfolding request_cancel request_cancel_tx
request_cancel_lem db now run_id by why r h =
    rw
      (
        find_run-count_if run_id db.runs r h,
        find_run-update_runs_id run_id (mark_requested (unix_milli now) by why) db.runs r
            (mark_requested-id (unix_milli now) by why) h,
      )
      refl

-- The first request of a run stands: whoever asks again after a request that names who asks, at
-- whatever time and for whatever reason, gets the answer of that request.
pub request_cancel_twice :
    (db : Db) (now later : ℤ) (run_id by why by' why' : String) (r : RunRow)
    → find_run run_id db.runs ≡ some r
    → by ≢ ""
    → (request_cancel (request_cancel db now run_id by why).1 later run_id by' why').0
      ≡ (request_cancel db now run_id by why).0
request_cancel_twice db now later run_id by why by' why' r h n =
    let first = mark_requested (unix_milli now) by why in
    let mid = record db { runs = update_runs (has_id run_id) first db.runs } in
    let found =
      find_run-update_runs_id run_id first db.runs r (mark_requested-id (unix_milli now) by why)
        h in
    rw
      (
        request_cancel_lem db now run_id by why r h,
        request_cancel_lem mid later run_id by' why' (first r) found,
      )
      (ap ok (mark_requested_twice (unix_milli now) (unix_milli later) by why by' why' r n))
