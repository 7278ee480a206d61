-- ===== src/Store/CancelRequest.antt =====
-- internal/store/transitions.go: RequestCancel, the durable request to stop a run. The clock's reading
-- is in nanoseconds; timeOrZero of a NULL is `none`.
pub mod FirstStands
use paceq.Base.{String, Bool, true, false, List, [], ◌∷◌, Option, none, some, str_eq}
use paceq.Base.Tests.{if◌then◌else◌, ◌==◌}
use paceq.Base.Lists.{count_if}
use paceq.Base.Int.{ℤ}
use paceq.Base.Result.{Result, ok, err}
use paceq.Store.Leases.{unix_milli}
use paceq.Store.Rows.{RunRow, Db, null_if_empty, find_run, update_runs}
use paceq.Store.Fence.{Error, run_not_found, owner_of, with_tx}

-- CancelRequest.
pub record CancelRequest : Type 0 where
  pub cancel_requested_at : Option ℤ
  pub cancel_requested_by : String
  pub cancel_reason : String

abbrev pub or_else {ℓ} : {A : Type ℓ} → Option A → Option A → Option A
or_else none b = b
or_else (some a) b = some a

-- The SET clause, with its COALESCEs.
unfoldable pub mark_requested : ℤ → String → String → RunRow → RunRow
mark_requested now_ms by why r = record r {
  cancel_requested_at = or_else r.cancel_requested_at (some now_ms);
  cancel_requested_by = or_else r.cancel_requested_by (null_if_empty by);
  cancel_reason = or_else r.cancel_reason (some why);
  updated_at = now_ms;
}

abbrev pub has_id : String → RunRow → Bool
has_id run_id r = str_eq r.id run_id

-- The row read back.
abbrev pub request_of : RunRow → CancelRequest
request_of r = record {
  cancel_requested_at = r.cancel_requested_at;
  cancel_requested_by = owner_of r.cancel_requested_by;
  cancel_reason = owner_of r.cancel_reason;
}

unfoldable pub request_cancel_tx :
    Db → ℤ → String → String → String → Result Error (CancelRequest × Db)
unfolding update_runs mark_requested find_run
request_cancel_tx db now_ms run_id by why =
    let after = update_runs (has_id run_id) (mark_requested now_ms by why) db.runs in
    if count_if (has_id run_id) db.runs == 0
    then err run_not_found
    else elim (find_run run_id after) [
      | none ↦ err run_not_found
      | some r ↦ ok (request_of r, record db { runs = after })
    ]

-- RequestCancel.
unfoldable pub request_cancel : Db → ℤ → String → String → String → Result Error CancelRequest × Db
unfolding request_cancel_tx unix_milli
request_cancel db now run_id by why =
    with_tx db (request_cancel_tx db (unix_milli now) run_id by why)
