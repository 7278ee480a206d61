-- ===== src/Store/Claim/Ready.antt =====
-- The two gates of a claim, of the run and of the step, read out of the statement's tests.
use mathlib.Core.List.{Memᴰ}
use paceq.Base.{String, Bool, true, false, ◌&&◌, Option, none, some, ◌≡◌, arith, eq_iff, str_eq, ap}
use paceq.Base.Lists.{any}
use paceq.Base.Int.{ℤ, pos, ◌<ℤ◌}
use paceq.Model.RunState.{RunState}
use paceq.Model.StepState.{StepState}
use paceq.Store.Rows.{RunRow, StepRow, Dep, Db}
use paceq.Store.Fence.{LeaseRef}
use paceq.Store.Claim.{
  is_owner, past_retry_gate, is_open_upstream, waits, running_count, run_admits, step_admits,
}
use paceq.Store.Claim.Choice.{any-false, any-false_of}

-- The claim gate of a run: running, not asked to stop, held by the caller at its epoch, and with
-- room under max_parallel.
pub record RunOpen (db : Db) (run_id : String) (ref : LeaseRef) (r : RunRow) : Type 0 where
  pub is_running : r.state ≡ RunState.running
  pub not_cancelled : r.cancel_requested_at ≡ none
  pub owned : r.lease_owner ≡ some ref.owner
  pub at_epoch : r.lease_epoch ≡ ref.epoch
  pub room : pos (running_count run_id db.steps) <ℤ r.max_parallel

-- A step that may start: pending, past its retry gate, with every frozen upstream succeeded.
pub record Ready (db : Db) (now : ℤ) (run_id : String) (s : StepRow) : Type 0 where
  pub of_run : s.run_id ≡ run_id
  pub is_pending : s.state ≡ StepState.pending
  pub due : past_retry_gate s.next_attempt_at now ≡ true
  pub upstream :
      (d : Dep) (u : StepRow)
      → Memᴰ d db.deps
      → Memᴰ u db.steps
      → d.run_id ≡ s.run_id
      → d.step_name ≡ s.name
      → u.run_id ≡ d.run_id
      → u.name ≡ d.depends_on
      → u.state ≡ StepState.succeeded

pub run_admits-RunOpen :
    (db : Db) (run_id : String) (ref : LeaseRef) (r : RunRow)
    → run_admits db run_id ref r ≡ true
    → RunOpen db run_id ref r
unfolding run_admits
run_admits-RunOpen db run_id ref r h = record {
  is_running = ground arith;
  not_cancelled = ground arith;
  owned = owned r.lease_owner (ground arith);
  at_epoch = ground arith;
  room = ground arith;
}
  where
    owned : (o : Option String) → is_owner o ref.owner ≡ true → o ≡ some ref.owner
    owned none e = absurd (cc)
    owned (some o) e = ap some ((eq_iff o ref.owner).0 e)

pub RunOpen-run_admits :
    (db : Db) (run_id : String) (ref : LeaseRef) (r : RunRow)
    → RunOpen db run_id ref r
    → run_admits db run_id ref r ≡ true
unfolding run_admits
RunOpen-run_admits db run_id ref r o = ground (arith, eq_iff ref.owner ref.owner)

open_upstream-false :
    (d : Dep) (u : StepRow)
    → is_open_upstream d u ≡ false
    → u.run_id ≡ d.run_id
    → u.name ≡ d.depends_on
    → u.state ≡ StepState.succeeded
unfolding is_open_upstream
open_upstream-false d u h p q = ground (arith, eq_iff u.run_id d.run_id, eq_iff u.name d.depends_on)

-- The test that the sub-select makes of one edge.
abbrev edge_waits : Db → StepRow → Dep → Bool
edge_waits db s d =
    str_eq d.run_id s.run_id && str_eq d.step_name s.name && any (is_open_upstream d) db.steps

pub step_admits-Ready :
    (db : Db) (now : ℤ) (run_id : String) (s : StepRow)
    → step_admits db now run_id s ≡ true
    → Ready db now run_id s
unfolding step_admits waits
step_admits-Ready db now run_id s h = record {
  of_run = ground (arith, eq_iff s.run_id run_id);
  is_pending = ground arith;
  due = ground arith;
  upstream = λ d u md mu p q e f.
      open_upstream-false d u
        (any-false (is_open_upstream d) db.steps
          (let calm : edge_waits db s d ≡ false =
              any-false (edge_waits db s) db.deps (ground arith) md in
            ground (arith, eq_iff d.run_id s.run_id, eq_iff d.step_name s.name))
          mu)
        e f;
}

is_open_upstream-false :
    (d : Dep) (u : StepRow)
    → (u.run_id ≡ d.run_id → u.name ≡ d.depends_on → u.state ≡ StepState.succeeded)
    → is_open_upstream d u ≡ false
unfolding is_open_upstream
is_open_upstream-false d u h = ground (arith, eq_iff u.run_id d.run_id, eq_iff u.name d.depends_on)

edge_waits-false :
    (db : Db) (s : StepRow) (d : Dep)
    → (d.run_id ≡ s.run_id → d.step_name ≡ s.name → any (is_open_upstream d) db.steps ≡ false)
    → edge_waits db s d ≡ false
edge_waits-false db s d h = ground (arith, eq_iff d.run_id s.run_id, eq_iff d.step_name s.name)

pub Ready-step_admits :
    (db : Db) (now : ℤ) (run_id : String) (s : StepRow)
    → Ready db now run_id s
    → step_admits db now run_id s ≡ true
unfolding step_admits waits
Ready-step_admits db now run_id s r =
    let calm : any (edge_waits db s) db.deps ≡ false =
      any-false_of (edge_waits db s) db.deps (λ d md. edge_waits-false db s d (λ p q.
        any-false_of (is_open_upstream d) db.steps
          (λ u mu. is_open_upstream-false d u (r.upstream d u md mu p q)))) in
    ground (arith, r.of_run, r.is_pending, r.due, eq_iff s.run_id run_id)
