-- ===== src/Store/ClaimPass/Leased.antt =====
-- What a pass of ClaimRuns takes, and whose it is afterwards.
use std.Path.{subst}
use mathlib.Core.List.{Memᴰ}
use paceq.Base.{
  ℕ, ◌+◌, ◌-◌, String, true, false, ◌&&◌, List, [], ◌++◌, Option, some, ◌≡◌, refl, ap, ◌⊎◌, inl,
  inr, arith, str_eq,
}
use paceq.Base.Tests.{if◌then◌else◌, Bool-cases, ltb, ◌==◌}
use paceq.Base.Lists.{length}
use paceq.Base.Int.{ℤ, ◌+ℤ◌}
use paceq.Base.Result.{Result, ok, err, ok_or}
use paceq.Model.RunState.{queued, running}
use paceq.Model.RunState
use paceq.Store.Leases.{unix_milli}
use paceq.Store.Rows.{RunRow, JobRow, Detail, Db, find_run}
use paceq.Store.Rows.Keys.{UniqueRuns}
use paceq.Store.Fence.{
  Error, LeaseRef, held, lease_held_by, check_lease, check_lease_of, lease_lost,
}
use paceq.Store.Quota.{walk, running_counts, choose_claimable}
use paceq.Store.QueuedCancel.{close_cancelled_queued}
use paceq.Store.QueuedCancel.Others.{close_cancelled_queued_lem}
use paceq.Store.Renew.{ttl_or_default}
use paceq.Store.ClaimRuns.{
  ClaimSpec, ClaimedRun, claim_candidates, claim_chosen, claim_key_deferred,
}
use paceq.Store.ClaimRuns.Chosen.{claim_candidates-Stands, Stands-walk}
use paceq.Store.ClaimRuns.Passes.{Pass, Pass-later, claim_chosen-Pass, claim_key_deferred-Pass}
use paceq.Store.ClaimRuns.Taken.{Taken, AllTaken-at, AllTaken-append, AllTaken-later}
use paceq.Store.ClaimPass.{claim_tx, limit_of, claim_runs}
use paceq.Store.ClaimPass.Bounded.{announce_started-runs, either}

nothing-Pass : (owner : String) (db : Db) → UniqueRuns db.runs → Pass owner db.runs ([], db)
nothing-Pass owner db u = (u, λ id r e w. e, λ id r e w. e, tt)

-- Two claims in turn, with the answers of both.
both-Pass :
    (owner : String) (runs : List RunRow) (first second : List ClaimedRun × Db)
    → Pass owner runs first
    → Pass owner first.1.runs second
    → Pass owner runs (first.0 ++ second.0, second.1)
both-Pass owner runs first second p q =
    let (u, k, c, t) = Pass-later owner runs first second p q in
    (
      u,
      k,
      c,
      AllTaken-append owner runs second.1.runs first.0 second.0
          (AllTaken-later owner runs runs first.1.runs second.1.runs first.0 (λ id r e w. e) q.1
            p.3)
          t,
    )

claim_tx-Pass :
    (unmarshal : Detail → Option String) (jobs : List JobRow) (spec : ClaimSpec)
    (now_ms expires_ms : ℤ) (limit : ℕ) (db : Db)
    → UniqueRuns db.runs
    → Pass spec.owner db.runs (claim_tx unmarshal jobs spec now_ms expires_ms limit db)
unfolding claim_tx choose_claimable
claim_tx-Pass unmarshal jobs spec now_ms expires_ms limit db u =
    let cands = claim_candidates jobs spec.only now_ms db in
    let ids = choose_claimable db limit cands in
    let chosen = walk limit (running_counts db.runs) cands in
    let first =
      if length ids == 0 then ([], db) else claim_chosen ids spec.owner now_ms expires_ms db in
    let p =
      either (Pass spec.owner db.runs) (length ids == 0) ([], db)
        (claim_chosen ids spec.owner now_ms expires_ms db) (nothing-Pass spec.owner db u)
        (claim_chosen-Pass chosen spec.owner now_ms expires_ms db u (
          Stands-walk db.runs limit (running_counts db.runs) cands
            (claim_candidates-Stands jobs spec.only now_ms db u))) in
    let then_keyed =
      claim_key_deferred unmarshal jobs spec.only spec.owner now_ms expires_ms
        (limit - length first.0) first.1 in
    let second = if ltb (length first.0) limit then then_keyed else ([], first.1) in
    let q =
      either (Pass spec.owner first.1.runs) (ltb (length first.0) limit) then_keyed ([], first.1)
        (claim_key_deferred-Pass unmarshal jobs spec.only spec.owner now_ms expires_ms
          (limit - length first.0) first.1 p.0)
        (nothing-Pass spec.owner first.1 p.0) in
    let (v, kept, came, taken) = both-Pass spec.owner db.runs first second p q in
    let runs = announce_started-runs spec.owner now_ms (first.0 ++ second.0) second.1 in
    rw runs (v, kept, came, taken)

Result-cases : {A B : Type 0} (x : Result B A) → ((a : A) × (x ≡ ok a)) ⊎ ((b : B) × (x ≡ err b))
Result-cases (ok a) = inl (a, refl)
Result-cases (err b) = inr (b, refl)

-- ClaimRuns after the closing of the cancelled runs.
closed-Pass :
    (unmarshal : Detail → Option String) (jobs : List JobRow) (db closed after : Db) (now : ℤ)
    (spec : ClaimSpec) (answers : List ClaimedRun)
    → UniqueRuns db.runs
    → close_cancelled_queued (unix_milli now) db ≡ ok closed
    → str_eq spec.owner "" ≡ false
    → claim_runs unmarshal jobs db now spec ≡ (ok answers, after)
    → Pass spec.owner db.runs (answers, after)
unfolding claim_runs
closed-Pass unmarshal jobs db closed after now spec answers u e n h =
    let (v, kept, came) = close_cancelled_queued_lem (unix_milli now) db closed u e in
    let expires = unix_milli (now +ℤ ttl_or_default spec.ttl) in
    let x = claim_tx unmarshal jobs spec (unix_milli now) expires (limit_of spec.limit) closed in
    let p =
      claim_tx-Pass unmarshal jobs spec (unix_milli now) expires (limit_of spec.limit) closed v in
    let same : x ≡ (answers, after) = ap (λ z. (ok_or [] z.0, z.1)) (rw (n, e, claim_runs) at h) in
    subst (Pass spec.owner db.runs) same
      (Pass-later spec.owner db.runs ([], closed) x (v, kept, came, tt) p)

-- An error of the closing is the answer of ClaimRuns.
unclosed-Pass :
    (unmarshal : Detail → Option String) (jobs : List JobRow) (db after : Db) (now : ℤ)
    (spec : ClaimSpec) (answers : List ClaimedRun) (e : Error)
    → close_cancelled_queued (unix_milli now) db ≡ err e
    → str_eq spec.owner "" ≡ false
    → claim_runs unmarshal jobs db now spec ≡ (ok answers, after)
    → Pass spec.owner db.runs (answers, after)
unfolding claim_runs
unclosed-Pass unmarshal jobs db after now spec answers e at_err n h =
    absurd (let no = ap (λ z. z.0) (rw (n, at_err, claim_runs) at h) in cc)

-- ClaimRuns, as one pass over its tables.
claim_runs-Pass :
    (unmarshal : Detail → Option String) (jobs : List JobRow) (db after : Db) (now : ℤ)
    (spec : ClaimSpec) (answers : List ClaimedRun)
    → UniqueRuns db.runs
    → claim_runs unmarshal jobs db now spec ≡ (ok answers, after)
    → Pass spec.owner db.runs (answers, after)
unfolding claim_runs
claim_runs-Pass unmarshal jobs db after now spec answers u h =
    elim (Bool-cases (str_eq spec.owner "")) [
      | inl y ↦ absurd (let no = ap (λ z. z.0) (rw (y, claim_runs) at h) in cc)
      | inr n ↦ elim (Result-cases (close_cancelled_queued (unix_milli now) db)) [
        | inl (closed, e) ↦ closed-Pass unmarshal jobs db closed after now spec answers u e n h
        | inr (e, at_err) ↦ unclosed-Pass unmarshal jobs db after now spec answers e at_err n h
      ]
    ]

check_lease_of-Taken :
    (r : RunRow) (owner : String) (epoch : ℕ) (ref : LeaseRef) (later : ℤ)
    → r.state ≡ running
    → r.lease_owner ≡ some owner
    → r.lease_epoch ≡ epoch
    → held ref ≡ true
    → check_lease_of r ref later
      ≡ (if str_eq owner ref.owner && (epoch == ref.epoch) then ok tt else err lease_lost)
unfolding check_lease_of lease_held_by
check_lease_of-Taken r owner epoch ref later s o m h = rw (s, o, m, h) refl

-- The lease of a claimed run is the only one that passes the fence.
Taken-check_lease :
    (owner : String) (runs : List RunRow) (after : Db) (c : ClaimedRun) (ref : LeaseRef) (later : ℤ)
    → Taken owner runs after.runs c
    → held ref ≡ true
    → check_lease after c.id ref later
      ≡ (if str_eq owner ref.owner && (c.lease_epoch == ref.epoch) then ok tt else err lease_lost)
unfolding check_lease
Taken-check_lease owner runs after c ref later (b, r, e, q, n, e', s, o, m) h =
    rw (e', check_lease) (check_lease_of-Taken r owner c.lease_epoch ref later s o m h)

-- Over a table of runs under its primary key, every run that ClaimRuns answers with was queued, and
-- its answer's epoch is one above the row's. Afterwards the fence lets the holder of that owner and
-- epoch write, and no other holder.
pub claim_runs-check_lease :
    (unmarshal : Detail → Option String) (jobs : List JobRow) (db after : Db) (now : ℤ)
    (spec : ClaimSpec) (answers : List ClaimedRun) (c : ClaimedRun) (ref : LeaseRef) (later : ℤ)
    → UniqueRuns db.runs
    → claim_runs unmarshal jobs db now spec ≡ (ok answers, after)
    → Memᴰ c answers
    → held ref ≡ true
    → (b : RunRow) × (find_run c.id db.runs ≡ some b)
      × (b.state ≡ queued)
      × (c.lease_epoch ≡ b.lease_epoch + 1)
      × (check_lease after c.id ref later ≡ (
          if str_eq spec.owner ref.owner && (c.lease_epoch == ref.epoch)
          then ok tt
          else err lease_lost))
claim_runs-check_lease unmarshal jobs db after now spec answers c ref later u e m h =
    let (v, kept, came, taken) = claim_runs-Pass unmarshal jobs db after now spec answers u e in
    let t = AllTaken-at spec.owner db.runs after.runs answers c taken m in
    let (b, r, found, q, n, found', s, o, l) = t in
    (b, found, ground arith, n, Taken-check_lease spec.owner db.runs after c ref later t h)

-- Over a table of runs under its primary key, a pass of ClaimRuns leaves every row that is not queued
-- as it is: it takes no run from its holder and reopens none that ended.
pub claim_runs-Kept :
    (unmarshal : Detail → Option String) (jobs : List JobRow) (db after : Db) (now : ℤ)
    (spec : ClaimSpec) (answers : List ClaimedRun) (id : String) (r : RunRow)
    → UniqueRuns db.runs
    → claim_runs unmarshal jobs db now spec ≡ (ok answers, after)
    → find_run id db.runs ≡ some r
    → RunState.same r.state queued ≡ false
    → find_run id after.runs ≡ some r
claim_runs-Kept unmarshal jobs db after now spec answers id r u e f w =
    (claim_runs-Pass unmarshal jobs db after now spec answers u e).1 id r f w
