-- ===== src/Store/ClaimPass.antt =====
-- internal/store/runlease.go: ClaimRuns and ClaimRun, one pass of a claim.
pub mod Bounded
pub mod Leased
use paceq.Base.{
  ℕ, ◌-◌, String, Bool, true, false, List, [], ◌∷◌, ◌++◌, Option, none, some, map, str_eq,
}
use paceq.Base.Tests.{if◌then◌else◌, ltb, ◌==◌}
use paceq.Base.Lists.{length}
use paceq.Base.Int.{ℤ, pos, pos_part, leb_ℤ, ◌+ℤ◌}
use paceq.Base.Result.{Result, ok, err, ◌>>=◌}
use paceq.Model.RunState.{RunState, queued, running}
use paceq.Model.RunState
use paceq.Store.Leases.{unix_milli}
use paceq.Store.Rows.{
  RunRow, JobRow, Detail, lease_epoch_is, Db, RunEvent, append_run_event, find_run,
}
use paceq.Store.Fence.{Error, no_holder, run_not_found, other, with_tx}
use paceq.Store.Quota.{choose_claimable}
use paceq.Store.QueuedCancel.{close_cancelled_queued}
use paceq.Store.Renew.{ttl_or_default}
use paceq.Store.ClaimRuns.{
  ClaimSpec, ClaimedRun, claim_candidates, claim_chosen, claim_key_deferred,
}

-- The event of each claimed run.
unfoldable pub announce_started : String → ℤ → List ClaimedRun → Db → Db
unfolding append_run_event
announce_started owner now_ms [] db = db
announce_started owner now_ms (c ∷ rest) db = announce_started owner now_ms rest (
    append_run_event
      (record {
        run_id = c.id;
        step_name = "";
        at = now_ms;
        kind = "run.started";
        from_state = RunState.string queued;
        to_state = RunState.string running;
        reason_code = "";
        actor = owner;
        detail_json = lease_epoch_is c.lease_epoch;
      })
      db)

-- claimTx. With nothing chosen, the claim of the ordinary queue is not run.
unfoldable pub claim_tx :
    (Detail → Option String) → List JobRow → ClaimSpec → ℤ → ℤ → ℕ → Db → List ClaimedRun × Db
unfolding claim_candidates choose_claimable claim_chosen claim_key_deferred announce_started
claim_tx unmarshal jobs spec now_ms expires_ms limit db =
    let ids = choose_claimable db limit (claim_candidates jobs spec.only now_ms db) in
    let first =
      if length ids == 0 then ([], db) else claim_chosen ids spec.owner now_ms expires_ms db in
    let then_keyed =
      claim_key_deferred unmarshal jobs spec.only spec.owner now_ms expires_ms
        (limit - length first.0) first.1 in
    let second = if ltb (length first.0) limit then then_keyed else ([], first.1) in
    let out = first.0 ++ second.0 in (out, announce_started spec.owner now_ms out second.1)

-- A limit below one is one.
abbrev pub limit_of : ℤ → ℕ
limit_of limit = if leb_ℤ limit (pos 0) then 1 else pos_part limit

-- ClaimRuns.
unfoldable pub claim_runs :
    (Detail → Option String)
    → List JobRow
    → Db
    → ℤ
    → ClaimSpec
    → Result Error (List ClaimedRun) × Db
unfolding close_cancelled_queued claim_tx unix_milli ◌+ℤ◌
claim_runs unmarshal jobs db now spec =
    if str_eq spec.owner ""
    then (err no_holder, db)
    else with_tx db (
        close_cancelled_queued (unix_milli now) db >>= (λ closed. ok (
          claim_tx unmarshal jobs spec (unix_milli now)
            (unix_milli (now +ℤ ttl_or_default spec.ttl)) (limit_of spec.limit) closed)))

-- ClaimRun, which reads the row to say why nothing was claimed.
unfoldable pub claim_run :
    (Detail → Option String)
    → List JobRow
    → Db
    → ℤ
    → String
    → String
    → ℤ
    → Result Error (RunState × ℕ) × Db
unfolding claim_runs
claim_run unmarshal jobs db now run_id owner ttl =
    let (got, after) =
      claim_runs unmarshal jobs db now
        (record { owner = owner; ttl = ttl_or_default ttl; limit = pos 0; only = run_id ∷ [] }) in
    (
      got >>= (λ claimed. elim claimed [
        | c ∷ [] ↦ ok (running, c.lease_epoch)
        | _ ↦ elim (find_run run_id after.runs) [
          | none ↦ err run_not_found
          | some r ↦
              if RunState.same r.state RunState.cancelled
              then ok (RunState.cancelled, r.lease_epoch)
              else err (other "the run is not claimable")
        ]
      ]),
      after,
    )
