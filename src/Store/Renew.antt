-- ===== src/Store/Renew.antt =====
-- internal/store/runlease.go: RenewRunLeases, the heartbeat of all the runs that an owner holds. The
-- statement's RETURNING rows come in the order of the table here; the source asks for none.
pub mod Heartbeat
use paceq.Base.{ℕ, String, Bool, true, false, ◌&&◌, List, [], ◌∷◌, Option, none, some, str_eq, map}
use paceq.Base.Tests.{if◌then◌else◌}
use paceq.Base.Lists.{select}
use paceq.Base.Int.{ℤ, pos, leb_ℤ, ◌+ℤ◌}
use paceq.Base.Result.{Result, ok, err}
use paceq.Model.RunState.{RunState, running}
use paceq.Model.RunState
use paceq.Store.Leases.{unix_milli}
use paceq.Store.Rows.{RunRow, Db, update_runs}
use paceq.Store.Fence.{Error, no_holder, owner_of}

-- The zero Time of a request is `none`.
pub record LeaseRenewal : Type 0 where
  pub id : String
  pub lease_epoch : ℕ
  pub cancel_requested_at : Option ℤ
  pub cancel_requested_by : String

abbrev pub default_run_lease_ttl : ℤ
default_run_lease_ttl = pos 60000000000

abbrev pub ttl_or_default : ℤ → ℤ
ttl_or_default ttl = if leb_ℤ ttl (pos 0) then default_run_lease_ttl else ttl

-- The WHERE clause.
unfoldable pub is_renewed : String → RunRow → Bool
is_renewed owner r = elim r.lease_owner [
  | none ↦ false
  | some o ↦ str_eq o owner && RunState.same r.state running
]

-- The SET clause.
unfoldable pub renew : ℤ → ℤ → RunRow → RunRow
renew now_ms expires_ms r = record r {
  heartbeat_at = some now_ms;
  lease_expires_at = some expires_ms;
  updated_at = now_ms;
}

-- The RETURNING clause.
abbrev pub renewal_of : RunRow → LeaseRenewal
renewal_of r = record {
  id = r.id;
  lease_epoch = r.lease_epoch;
  cancel_requested_at = r.cancel_requested_at;
  cancel_requested_by = owner_of r.cancel_requested_by;
}

-- RenewRunLeases.
unfoldable pub renew_run_leases : Db → ℤ → String → ℤ → Result Error (List LeaseRenewal) × Db
unfolding update_runs is_renewed renew unix_milli ◌+ℤ◌
renew_run_leases db now owner ttl = if str_eq owner "" then (err no_holder, db) else (
  ok (map renewal_of (select (is_renewed owner) db.runs)),
  record db {
    runs =
        update_runs (is_renewed owner)
          (renew (unix_milli now) (unix_milli (now +ℤ ttl_or_default ttl))) db.runs;
  },
)
