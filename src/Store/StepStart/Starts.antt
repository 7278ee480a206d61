-- ===== src/Store/StepStart/Starts.antt =====
-- What StartStep does.
use paceq.Base.{◌+◌, String, false, not, Option, none, some, ◌≡◌, refl, ap, inl, inr, arith}
use paceq.Base.Tests.{if◌then◌else◌, Bool-cases}
use paceq.Base.Lists.{length, length-append}
use paceq.Base.Int.{ℤ}
use paceq.Base.Result.{Result, ok, err, ok_unique, ◌>>=◌, ◌>>◌}
use paceq.Model.RunState.{RunState, running}
use paceq.Model.RunState
use paceq.Model.StepState.{StepState, pending}
use paceq.Model.StepState
use paceq.Model.StepMachine.{next_step_state}
use paceq.Store.Leases.{unix_milli}
use paceq.Store.Rows.{
  StepRow, RunRow, Db, text, append_run_event, find_run, find_step, update_steps,
}
use paceq.Store.Fence.{
  Error, LeaseRef, held, check_lease, with_tx, run_not_found, not_running, step_not_pending,
}
use paceq.Store.Skip.{is_pending_step, emit_kind}
use paceq.Store.StepStart.{open_attempt, read_step, start_read_step, start_step_tx, start_step}
use paceq.Store.StepWrites.Reads.{find_step-key, find_step-update_steps_key}

-- What a start that was accepted is, and what it leaves in the tables.
pub record Started (db : Db) (now : ℤ) (run_id name : String) (after : Db) : Type 0 where
  pub step : StepRow
  pub step_found : find_step run_id name db.steps ≡ some step
  pub was_pending : step.state ≡ pending
  pub row_after :
      find_step run_id name after.steps
      ≡ some (record step {
        state = StepState.running;
        attempt = step.attempt + 1;
        started_at = some (unix_milli now);
        finished_at = none;
      })
  pub one_event : length after.events ≡ length db.events + 1
  pub rest_kept : (after.runs ≡ db.runs) × (after.deps ≡ db.deps)

-- The tables after the start of a step, and its event.
abbrev started : Db → ℤ → String → StepRow → Db
started db now_ms run_id step =
    append_run_event
      (record {
        run_id = run_id;
        step_name = step.name;
        at = now_ms;
        kind = "step.started";
        from_state = "pending";
        to_state = "running";
        reason_code = "";
        actor = "";
        detail_json = text "";
      })
      (record db {
        steps = update_steps (is_pending_step run_id step.name) (open_attempt now_ms) db.steps;
      })

start_read_step_lem :
    (db : Db) (now_ms : ℤ) (run_id : String) (step : StepRow)
    → step.state ≡ pending
    → start_read_step db now_ms run_id step ≡ ok (tt, started db now_ms run_id step)
unfolding start_read_step next_step_state StepState.string append_run_event emit_kind
start_read_step_lem db now_ms run_id step p = rw (p, p) refl

start_read_step_refuses :
    (db : Db) (now_ms : ℤ) (run_id : String) (step : StepRow)
    → StepState.same step.state pending ≡ false
    → start_read_step db now_ms run_id step ≡ err step_not_pending
unfolding start_read_step
start_read_step_refuses db now_ms run_id step n = rw n refl

started_lem :
    (db : Db) (now : ℤ) (run_id name : String) (step : StepRow)
    → find_step run_id name db.steps ≡ some step
    → step.state ≡ pending
    → Started db now run_id name (started db (unix_milli now) run_id step)
unfolding append_run_event open_attempt
started_lem db now run_id name step f p =
    let key = find_step-key run_id name db.steps step f in
    record {
      step = step;
      step_found = f;
      was_pending = p;
      row_after =
          find_step-update_steps_key run_id step.name name pending (open_attempt (unix_milli now))
            db.steps step key.1 f p refl refl;
      one_event = omega (arith, length-append db.events);
      rest_kept = (refl, refl);
    }

start_read_step-Started :
    (db after : Db) (now : ℤ) (run_id name : String) (step : StepRow)
    → find_step run_id name db.steps ≡ some step
    → start_read_step db (unix_milli now) run_id step ≡ ok (tt, after)
    → Started db now run_id name after
start_read_step-Started db after now run_id name step f e =
    elim (Bool-cases (StepState.same step.state pending)) [
      | inl y ↦
          let p : step.state ≡ pending = ground arith in
          let answer = start_read_step_lem db (unix_milli now) run_id step p in
          rw (← ap (λ t. t.1) (ok_unique answer e)) (started_lem db now run_id name step f p)
      | inr n ↦ absurd (cc (start_read_step_refuses db (unix_milli now) run_id step n, e))
    ]

start_step_tx-Started :
    (db after : Db) (now : ℤ) (run_id name : String) (ref : LeaseRef)
    → start_step_tx db now run_id name ref ≡ ok (tt, after)
    → (check_lease db run_id ref now ≡ ok tt) × Started db now run_id name after
unfolding start_step_tx read_step
start_step_tx-Started db after now run_id name ref h = go (check_lease db run_id ref now) refl h
  where
    reads :
        (o : Option StepRow)
        → find_step run_id name db.steps ≡ o
        → ◌>>=◌ {B = Unit {0} × Db}
            (elim o [ none ↦ err run_not_found | some s ↦ ok s ])
            (start_read_step db (unix_milli now) run_id)
          ≡ ok (tt, after)
        → Started db now run_id name after
    reads none f k = absurd (cc)
    reads (some step) f k = start_read_step-Started db after now run_id name step f k

    runs :
        (o : Option RunRow)
        → (elim o [
          | none ↦ err run_not_found
          | some run ↦
              if not (RunState.same run.state running)
              then err not_running
              else read_step db run_id name >>= start_read_step db (unix_milli now) run_id
        ])
          ≡ ok (tt, after)
        → Started db now run_id name after
    runs none k = absurd (cc)
    runs (some run) k = elim (Bool-cases (RunState.same run.state running)) [
      | inl y ↦ reads (find_step run_id name db.steps) refl (rw y at k)
      | inr n ↦ absurd (ground arith)
    ]

    go :
        (r : Result Error (Unit {0}))
        → check_lease db run_id ref now ≡ r
        → (r >> elim (find_run run_id db.runs) [
          | none ↦ err run_not_found
          | some run ↦
              if not (RunState.same run.state running)
              then err not_running
              else read_step db run_id name >>= start_read_step db (unix_milli now) run_id
        ])
          ≡ ok (tt, after)
        → (check_lease db run_id ref now ≡ ok tt) × Started db now run_id name after
    go (err e) c k = absurd (cc)
    go (ok u) c k = (c, runs (find_run run_id db.runs) k)

-- A start that StartStep accepts passed the fence, and the step was pending. The step's row then is
-- running, one attempt further, started now and not finished; there is one more event, and no run
-- and no edge has changed.
pub start_step-Started :
    (db : Db) (now : ℤ) (run_id name : String) (ref : LeaseRef)
    → (start_step db now run_id name ref).0 ≡ ok tt
    → (check_lease db run_id ref now ≡ ok tt)
      × Started db now run_id name (start_step db now run_id name ref).1
unfolding start_step
start_step-Started db now run_id name ref h = elim (Bool-cases (held ref)) [
  | inr n ↦ absurd (ground arith)
  | inl y ↦
      rw (y, start_step) (go (start_step_tx db now run_id name ref) refl (rw (y, start_step) at h))
]
  where
    go :
        (r : Result Error (Unit {0} × Db))
        → start_step_tx db now run_id name ref ≡ r
        → (with_tx db r).0 ≡ ok tt
        → (check_lease db run_id ref now ≡ ok tt)
          × Started db now run_id name (with_tx db (start_step_tx db now run_id name ref)).1
    go (err e) q k = absurd (cc)
    go (ok (u, after)) q k = rw q (start_step_tx-Started db after now run_id name ref q)
