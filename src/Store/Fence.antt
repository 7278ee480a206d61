-- ===== src/Store/Fence.antt =====
-- internal/store/runlease.go: who may write a run.
use paceq.Base.{ℕ, String, Bool, true, not, ◌&&◌, ◌||◌, Option, none, some, str_eq}
use paceq.Base.Tests.{if◌then◌else◌, ◌==◌}
use paceq.Base.Int.{ℤ, pos, negsuc, ◌*ℤ◌, ltb_ℤ, eqb_ℤ}
use paceq.Base.Result.{Result, ok, err}
use paceq.Model.RunState.{RunState, running}
use paceq.Model.RunState
use paceq.Model.Refusal.{Refusal}
use paceq.Store.Outbox.{NoteError}
use paceq.Store.Rows.{RunRow, Db, find_run}

-- What a transaction of the transition layer can answer.
pub data Error : Type 0 where
  no_holder run_not_found step_not_found lease_lost not_running step_not_pending : Error
  no_cancel_request panicked : Error
  refused : Refusal → Error
  bad_note : NoteError → Error
  other : String → Error

pub record LeaseRef : Type 0 where
  pub owner : String
  pub epoch : ℕ

unfoldable pub held : LeaseRef → Bool
held ref = not (str_eq ref.owner "")

-- The owner as readRunTx reads it, with NULL as the empty text.
abbrev pub owner_of : Option String → String
owner_of none = ""
owner_of (some o) = o

unfoldable pub lease_held_by : RunRow → LeaseRef → Bool
unfolding held
lease_held_by run ref =
    held ref
    && RunState.same run.state running
    && str_eq (owner_of run.lease_owner) ref.owner
    && (run.lease_epoch == ref.epoch)

-- `LeaseExpiresAt.IsZero() || LeaseExpiresAt.After(now)`. NULL is the zero Time, and so is the
-- number of milliseconds from the Unix epoch back to it; the clock reads nanoseconds.
unfoldable pub still_live : Option ℤ → ℤ → Bool
unfolding ◌*ℤ◌
still_live none now = true
still_live (some expires) now =
    eqb_ℤ expires (negsuc 62135596799999) || ltb_ℤ now (expires *ℤ pos 1000000)

-- checkLeaseTx, after the run was read: a holder's write needs its lease, and recovery's a dead one.
unfoldable pub check_lease_of : RunRow → LeaseRef → ℤ → Result Error (Unit {0})
unfolding lease_held_by held still_live
check_lease_of run ref now =
    if not (RunState.same run.state running)
    then err lease_lost
    else if held ref
    then if lease_held_by run ref then ok tt else err lease_lost
    else if still_live run.lease_expires_at now
    then err lease_lost
    else ok tt

unfoldable pub check_lease : Db → String → LeaseRef → ℤ → Result Error (Unit {0})
unfolding check_lease_of
check_lease db run_id ref now = elim (find_run run_id db.runs) [
  | none ↦ err run_not_found
  | some run ↦ check_lease_of run ref now
]

-- withTx: a transaction whose body answers an error is rolled back.
abbrev pub with_tx : {A : Type 0} → Db → Result Error (A × Db) → Result Error A × Db
with_tx db (ok (a, after)) = (ok a, after)
with_tx db (err e) = (err e, db)
