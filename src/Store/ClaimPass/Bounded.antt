-- ===== src/Store/ClaimPass/Bounded.antt =====
-- What a pass of ClaimRuns leaves: the ceilings, the keys and the size of its answer.
use paceq.Base.{
  ℕ, ◌-◌, ◌≤◌, String, Bool, true, false, ◌&&◌, ◌||◌, List, [], ◌∷◌, ◌++◌, Option, none, some, ◌≡◌,
  refl, arith, str_eq,
}
use paceq.Base.Tests.{if◌then◌else◌, ltb, ◌==◌}
use paceq.Base.Lists.{length-append, length, count_if, all}
use paceq.Base.Int.{ℤ, pos, ◌+ℤ◌, ltb_ℤ, leb_ℤ, pos_part}
use paceq.Model.RunState.{queued, running}
use paceq.Model.RunState
use paceq.Base.Result.{ok}
use paceq.Store.Leases.{unix_milli}
use paceq.Store.Rows.{starts_by, RunRow, JobRow, Detail, Db, append_run_event}
use paceq.Store.Rows.Keys.{UniqueRuns}
use paceq.Store.Quota.{walk, ceiling, running_counts, choose_claimable}
use paceq.Store.Quota.Ceiling.{walk-ceiling, walk-length}
use paceq.Store.QueuedCancel.Calm.{close_cancelled_queued-Within}
use paceq.Store.Renew.{ttl_or_default}
use paceq.Store.ClaimRuns.{
  ClaimSpec, ClaimedRun, find_job, key_holders, claim_candidates, claim_chosen, claim_key_deferred,
}
use paceq.Store.ClaimRuns.Chosen.{claim_candidates-Stands, claim_candidates-limit, Stands-walk}
use paceq.Store.ClaimRuns.Started.{Within, claim_chosen-Within, claim_key_deferred-Within}
use paceq.Store.ClaimRuns.Answers.{claim_chosen-length, claim_key_deferred-length}
use paceq.Store.ClaimPass.{announce_started, claim_tx, limit_of, claim_runs}

pub announce_started-runs :
    (owner : String) (now_ms : ℤ) (claimed : List ClaimedRun) (db : Db)
    → (announce_started owner now_ms claimed db).runs ≡ db.runs
unfolding announce_started append_run_event
announce_started-runs owner now_ms [] db = refl
announce_started-runs owner now_ms (c ∷ rest) db = announce_started-runs owner now_ms rest _

-- A pair of answers and tables within the bounds.
abbrev Bounded : String → ℤ → String → ℕ → List ClaimedRun × Db → Type 0
Bounded job most key limit x = Within job most key x.1.runs × (length x.0 ≤ limit)

pub either : {A : Type 0} (p : A → Type 0) (b : Bool) (x y : A) → p x → p y → p (if b then x else y)
either p true x y h k = h
either p false x y h k = k

claim_first-Bounded :
    (jobs : List JobRow) (spec : ClaimSpec) (now_ms expires_ms : ℤ) (limit : ℕ) (db : Db)
    (job : String) (j : JobRow) (key : String)
    → find_job job jobs ≡ some j
    → Within job j.max_concurrent key db.runs
    → Bounded job j.max_concurrent key limit (
        claim_chosen
          (choose_claimable db limit (claim_candidates jobs spec.only now_ms db))
          spec.owner
          now_ms
          expires_ms
          db)
unfolding choose_claimable
claim_first-Bounded jobs spec now_ms expires_ms limit db job j key f (u, h, k) =
    let cands = claim_candidates jobs spec.only now_ms db in
    let chosen = walk limit (running_counts db.runs) cands in
    let stands =
      Stands-walk db.runs limit (running_counts db.runs) cands
        (claim_candidates-Stands jobs spec.only now_ms db u) in
    (
      claim_chosen-Within chosen spec.owner now_ms expires_ms db job j.max_concurrent key u stands
          (walk-ceiling limit (running_counts db.runs) cands job j.max_concurrent
            (λ c m e. claim_candidates-limit jobs spec.only now_ms db job j c f m e) h)
          k,
      omega (
        arith,
        claim_chosen-length chosen spec.owner now_ms expires_ms db u stands,
        walk-length limit (running_counts db.runs) cands,
      ),
    )

claim_tx-Bounded :
    (unmarshal : Detail → Option String) (jobs : List JobRow) (spec : ClaimSpec)
    (now_ms expires_ms : ℤ) (limit : ℕ) (db : Db) (job : String) (j : JobRow) (key : String)
    → find_job job jobs ≡ some j
    → Within job j.max_concurrent key db.runs
    → Bounded job j.max_concurrent key limit
        (claim_tx unmarshal jobs spec now_ms expires_ms limit db)
unfolding claim_tx
claim_tx-Bounded unmarshal jobs spec now_ms expires_ms limit db job j key f w =
    let most = j.max_concurrent in
    let ids = choose_claimable db limit (claim_candidates jobs spec.only now_ms db) in
    let first =
      if length ids == 0 then ([], db) else claim_chosen ids spec.owner now_ms expires_ms db in
    let then_keyed =
      claim_key_deferred unmarshal jobs spec.only spec.owner now_ms expires_ms
        (limit - length first.0) first.1 in
    let second = if ltb (length first.0) limit then then_keyed else ([], first.1) in
    let h =
      either (Bounded job most key limit) (length ids == 0) ([], db)
        (claim_chosen ids spec.owner now_ms expires_ms db) (w, omega arith)
        (claim_first-Bounded jobs spec now_ms expires_ms limit db job j key f w) in
    let g =
      either (Bounded job most key (limit - length first.0)) (ltb (length first.0) limit) then_keyed
        ([], first.1)
        (
          claim_key_deferred-Within unmarshal jobs spec.only spec.owner now_ms expires_ms
              (limit - length first.0) first.1 job j key f h.0,
          claim_key_deferred-length unmarshal jobs spec.only spec.owner now_ms expires_ms
              (limit - length first.0) first.1,
        )
        (h.0, omega arith) in
    (
      rw (announce_started-runs spec.owner now_ms (first.0 ++ second.0) second.1) g.0,
      omega (arith, h.1, g.1, length-append first.0 second.0),
    )

-- What the runs of a table keep: the table is under its primary key, at most `most` runs of the job run,
-- a `most` below one read as one, and at most one active run holds the key.
abbrev pub KeepsLimits : String → ℤ → String → List RunRow → Type 0
KeepsLimits job most key runs =
    UniqueRuns runs
    × (count_if (λ r. str_eq r.job_name job && RunState.same r.state running) runs
        ≤ (if ltb_ℤ most (pos 1) then 1 else pos_part most))
    × (count_if
          (λ r.
            elim r.concurrency_key [ none ↦ false | some k ↦ str_eq k key ]
            && (RunState.same r.state queued || RunState.same r.state running))
          runs
        ≤ 1)

-- A pass of ClaimRuns for an owner that has a name succeeds where no run starts after the clock's
-- reading. For every job of the table and every key: where `runs` is under its primary key, the running
-- runs of the job are within its limit, of one at least, and at most one active run holds the key, the
-- same is so after the pass. It answers with no more runs than its limit, of one at least.
pub claim_runs-Within :
    (unmarshal : Detail → Option String) (jobs : List JobRow) (db : Db) (now : ℤ) (spec : ClaimSpec)
    (job : String) (j : JobRow) (key : String)
    → str_eq spec.owner "" ≡ false
    → find_job job jobs ≡ some j
    → all (starts_by (unix_milli now)) db.runs ≡ true
    → KeepsLimits job j.max_concurrent key db.runs
    → (answers : List ClaimedRun) × (after : Db) × (claim_runs unmarshal jobs db now spec
        ≡ (ok answers, after))
      × KeepsLimits job j.max_concurrent key after.runs
      × (length answers ≤ (if leb_ℤ spec.limit (pos 0) then 1 else pos_part spec.limit))
unfolding claim_runs ceiling running_counts key_holders
claim_runs-Within unmarshal jobs db now spec job j key named f timely w =
    let expires = unix_milli (now +ℤ ttl_or_default spec.ttl) in
    let (closed, e, kept) =
      close_cancelled_queued-Within (unix_milli now) db job j.max_concurrent key timely w in
    let x = claim_tx unmarshal jobs spec (unix_milli now) expires (limit_of spec.limit) closed in
    let (h, k) =
      claim_tx-Bounded unmarshal jobs spec (unix_milli now) expires (limit_of spec.limit) closed job
        j key f kept in
    (x.0, x.1, rw (named, e, claim_runs) refl, h, k)
