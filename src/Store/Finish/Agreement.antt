-- ===== src/Store/Finish/Agreement.antt =====
-- What FinishRun writes: the verdict agrees with the steps, under the fence, and errors write nothing.
use paceq.Base.{
  ◌+◌, String, true, false, List, Option, none, some, ◌≡◌, ◌≢◌, refl, sym, ap, ◌∙◌, inl, inr, arith,
}
use mathlib.Core.Option
use paceq.Base.Tests.{if◌then◌else◌, Bool-cases, Option-cases}
use paceq.Base.Lists.{length}
use paceq.Base.Int.{ℤ, ◌-ℤ◌}
use paceq.Base.Result.{Result, ok, err, ok_unique, ◌>>=◌, ◌>>◌}
use paceq.Model.RunState.{RunState}
use paceq.Model.Event.{all_steps_done}
use paceq.Model.Effect.{Effect}
use paceq.Model.RunMachine.{next_run_state, Outcome}
use paceq.Model.Aggregate.{run_aggregate}
use paceq.Store.Leases.{unix_milli}
use paceq.Store.Rows.{RunRow, Db, find_run, text, is_empty}
use paceq.Store.Outbox.{Notification}
use paceq.Store.Fence.{
  Error, LeaseRef, held, lease_held_by, check_lease, check_lease_of, with_tx, refused, no_holder,
}
use paceq.Store.Finish.Writes.{
  all_steps_done-run_aggregate, find_run-id, held-is_held_row, write_verdict_lem, write_notes_lem,
}
use paceq.Store.Finish.{
  duration_since, is_run_level_failure, step_states, all_steps_terminal, FinishReason,
  finish_guards, close_run, data_of, write_notes, write_run, finish_read_run, finish_run_tx,
  finish_run,
}

-- What a verdict `state` is, and what it leaves in the tables.
pub record Verdict (db : Db) (now : ℤ) (run_id : String) (ref : LeaseRef) (fr : FinishReason)
    (state : RunState) (after : Db) : Type 0 where
  pub run : RunRow
  pub run_found : find_run run_id db.runs ≡ some run
  pub run_held : lease_held_by run ref ≡ true
  pub all_ended : all_steps_terminal (step_states run_id db.steps) ≡ true
  pub agrees : state ≡ run_aggregate (step_states run_id db.steps) (is_run_level_failure fr.code)
  pub explained : fr.code ≢ ""
  pub run_closed :
      find_run run_id after.runs
      ≡ some (record run {
        state = state;
        reason_code = some fr.code;
        reason_data = some (if is_empty fr.data_json then text "{}" else fr.data_json);
        finished_at = some (unix_milli now);
        duration_ms = Option.map (λ s. unix_milli now -ℤ s) run.started_at;
        lease_owner = none;
        lease_expires_at = none;
        updated_at = unix_milli now;
      })
  pub steps_kept : after.steps ≡ db.steps
  pub one_event : length after.events ≡ length db.events + 1

duration_since_lem :
    (o : Option ℤ) (now_ms : ℤ) → duration_since o now_ms ≡ Option.map (λ s. now_ms -ℤ s) o
duration_since_lem none now_ms = refl
duration_since_lem (some s) now_ms = refl

-- An accepted verdict, written with its notifications.
accepted-Verdict :
    (db : Db) (now : ℤ) (run_id : String) (ref : LeaseRef) (fr : FinishReason)
    (notes : List Notification) (run : RunRow) (s state : RunState) (fx : List Effect) (after : Db)
    → find_run run_id db.runs ≡ some run
    → run.state ≡ RunState.running
    → next_run_state run.state all_steps_done
        (finish_guards run ref (unix_milli now) fr (step_states run_id db.steps))
      ≡ (s, fx, none)
    → write_run db run_id ref fr notes (unix_milli now) run.state s fx ≡ ok (state, after)
    → Verdict db now run_id ref fr state after
unfolding finish_guards write_run close_run
accepted-Verdict db now run_id ref fr notes run s state fx after f p q h =
    let steps = step_states run_id db.steps in
    let g = finish_guards run ref (unix_milli now) fr steps in
    let (valid, ended, explained, agrees) =
      all_steps_done-run_aggregate g run.state steps p refl refl refl (ap (λ o. o.2) q) in
    let (closed, written, found, kept, event) =
      write_verdict_lem db run_id ref fr (unix_milli now) s fx run f
        (held-is_held_row run_id ref run (find_run-id run_id db.runs run f) valid) in
    let (same, found', kept', event') =
      go closed (write_notes notes closed) refl (rw (write_run, written) at h) found kept event in
    record {
      run = run;
      run_found = f;
      run_held = valid;
      all_ended = ended;
      agrees = same ∙ (ap (λ o. o.0) (sym q) ∙ agrees);
      explained = explained;
      run_closed = rw (← duration_since_lem run.started_at (unix_milli now)) (rw same found');
      steps_kept = kept';
      one_event = event';
    }
  where
    go :
        (closed : Db) (r : Result Error Db)
        → write_notes notes closed ≡ r
        → ◌>>=◌ {B = RunState × Db} r (λ done. ok (s, done)) ≡ ok (state, after)
        → find_run run_id closed.runs ≡ some (close_run s fr (data_of fr) (unix_milli now) run)
        → closed.steps ≡ db.steps
        → length closed.events ≡ length db.events + 1
        → (state ≡ s)
          × (find_run run_id after.runs ≡ some (close_run s fr (data_of fr) (unix_milli now) run))
          × (after.steps ≡ db.steps)
          × (length after.events ≡ length db.events + 1)
    go closed (err e) w k found kept event = absurd (cc)
    go closed (ok done) w k found kept event =
        let e = ok_unique refl k in
        let (runs, steps, events) =
          write_notes_lem notes closed after (w ∙ ap ok (ap (λ t. t.1) e)) in
        (sym (ap (λ t. t.0) e), rw runs found, steps ∙ kept, rw events event)

finish_read_run-Verdict :
    (db : Db) (now : ℤ) (run_id : String) (ref : LeaseRef) (fr : FinishReason)
    (notes : List Notification) (run : RunRow) (state : RunState) (after : Db)
    → find_run run_id db.runs ≡ some run
    → run.state ≡ RunState.running
    → finish_read_run db now run_id ref fr notes run ≡ ok (state, after)
    → Verdict db now run_id ref fr state after
unfolding finish_read_run
finish_read_run-Verdict db now run_id ref fr notes run state after f p h =
    go
      (next_run_state run.state all_steps_done
        (finish_guards run ref (unix_milli now) fr (step_states run_id db.steps)))
      refl h
  where
    go :
        (o : Outcome RunState)
        → next_run_state run.state all_steps_done
            (finish_guards run ref (unix_milli now) fr (step_states run_id db.steps))
          ≡ o
        → (elim o.2 [
          | some x ↦ err (refused x)
          | none ↦ write_run db run_id ref fr notes (unix_milli now) run.state o.0 o.1
        ])
          ≡ ok (state, after)
        → Verdict db now run_id ref fr state after
    go (s, fx, some x) q k = absurd (cc)
    go (s, fx, none) q k = accepted-Verdict db now run_id ref fr notes run s state fx after f p q k

-- The fence lets a write through only while the run is running.
check_lease_of-running :
    (run : RunRow) (ref : LeaseRef) (now : ℤ)
    → check_lease_of run ref now ≡ ok tt
    → run.state ≡ RunState.running
unfolding check_lease_of
check_lease_of-running run ref now h = ground arith

pub check_lease-running :
    (db : Db) (run_id : String) (run : RunRow) (ref : LeaseRef) (now : ℤ)
    → find_run run_id db.runs ≡ some run
    → check_lease db run_id ref now ≡ ok tt
    → run.state ≡ RunState.running
unfolding check_lease
check_lease-running db run_id run ref now e h =
    check_lease_of-running run ref now (rw (e, check_lease) at h)

finish_run_tx-Verdict :
    (db : Db) (now : ℤ) (run_id : String) (ref : LeaseRef) (fr : FinishReason)
    (notes : List Notification) (state : RunState) (after : Db)
    → finish_run_tx db now run_id ref fr notes ≡ ok (state, after)
    → Verdict db now run_id ref fr state after
unfolding finish_run_tx check_lease
finish_run_tx-Verdict db now run_id ref fr notes state after h =
    elim (Option-cases (find_run run_id db.runs)) [
      | inl e ↦ absurd (ground arith)
      | inr (run, e) ↦ go run (check_lease db run_id ref now) e refl (rw (e, finish_run_tx) at h)
    ]
  where
    go :
        (run : RunRow) (r : Result Error (Unit {0}))
        → find_run run_id db.runs ≡ some run
        → check_lease db run_id ref now ≡ r
        → (r >> finish_read_run db now run_id ref fr notes run) ≡ ok (state, after)
        → Verdict db now run_id ref fr state after
    go run (err x) e c k = absurd (cc)
    go run (ok u) e c k =
        finish_read_run-Verdict db now run_id ref fr notes run state after e
          (check_lease-running db run_id run ref now e c) k

-- A verdict that FinishRun answers agrees with the steps. The run was running and the caller held it
-- at its token; all of its steps had ended; the verdict is the state that they aggregate to (I10),
-- and it has a reason code. The run's row then has that state and no holder, no step has changed,
-- and there is one more event.
pub finish_run-Verdict :
    (db : Db) (now : ℤ) (run_id : String) (ref : LeaseRef) (fr : FinishReason)
    (notes : List Notification) (state : RunState)
    → (finish_run db now run_id ref fr notes).0 ≡ ok state
    → Verdict db now run_id ref fr state (finish_run db now run_id ref fr notes).1
unfolding finish_run
finish_run-Verdict db now run_id ref fr notes state h = elim (Bool-cases (held ref)) [
  | inr n ↦ absurd (ground arith)
  | inl y ↦
      rw (y, finish_run)
        (go (finish_run_tx db now run_id ref fr notes) refl (rw (y, finish_run) at h))
]
  where
    go :
        (r : Result Error (RunState × Db))
        → finish_run_tx db now run_id ref fr notes ≡ r
        → (with_tx db r).0 ≡ ok state
        → Verdict db now run_id ref fr state
            (with_tx db (finish_run_tx db now run_id ref fr notes)).1
    go (err e) q k = absurd (cc)
    go (ok (s, after)) q k = rw q (
        finish_run_tx-Verdict db now run_id ref fr notes state after
          (q ∙ ap (λ x. ok (x, after)) (ok_unique refl k)))

-- A caller that does not hold the run at its token gets an error from FinishRun.
pub finish_run_fenced :
    (db : Db) (now : ℤ) (run_id : String) (ref : LeaseRef) (fr : FinishReason)
    (notes : List Notification) (run : RunRow)
    → find_run run_id db.runs ≡ some run
    → lease_held_by run ref ≡ false
    → (e : Error) × ((finish_run db now run_id ref fr notes).0 ≡ err e)
      × ((finish_run db now run_id ref fr notes).1 ≡ db)
unfolding finish_run
finish_run_fenced db now run_id ref fr notes run f h = elim (Bool-cases (held ref)) [
  | inr n ↦ rw (n, finish_run) (no_holder, refl, refl)
  | inl y ↦ rw (y, finish_run) (go (finish_run_tx db now run_id ref fr notes) refl)
]
  where
    go :
        (r : Result Error (RunState × Db))
        → finish_run_tx db now run_id ref fr notes ≡ r
        → (e : Error) × ((with_tx db r).0 ≡ err e) × ((with_tx db r).1 ≡ db)
    go (err e) q = (e, refl, refl)
    go (ok (s, after)) q =
        let v = finish_run_tx-Verdict db now run_id ref fr notes s after q in
        absurd (cc (f, h, v.run_found, v.run_held))
