-- ===== src/Store/StepWrites/Outcomes.antt =====
-- What the verdict of a step leaves in the tables.
use mathlib.Core.List.{Memᴰ}
use mathlib.Core.Option
use paceq.Base.{String, false, List, Option, none, some, ◌≡◌, refl, ap, ◌∙◌, inl, inr, str_eq}
use paceq.Base.Tests.{if◌then◌else◌, Bool-cases}
use paceq.Base.Int.{ℤ, ◌-ℤ◌}
use paceq.Base.Result.{Result, ok, err, ok_unique, ◌>>=◌, ◌>>◌}
use paceq.Model.StepState.{StepState, pending, running, succeeded, failed, skipped, cancelled}
use paceq.Model.StepState
use paceq.Model.Effect.{Effect}
use paceq.Model.RunMachine.{Outcome}
use paceq.Model.StepMachine.{next_step_state}
use paceq.Store.Leases.{unix_milli}
use paceq.Store.Rows.{StepRow, Dep, Db, Detail, is_empty, find_step}
use paceq.Store.Fence.{run_not_found, Error, LeaseRef, check_lease, with_tx, refused}
use paceq.Store.Closure.Reachable.{Needs}
use paceq.Store.Skip.{Failure, propagate_skip}
use paceq.Store.Skip.Settled.{propagate_skip-settled, propagate_skip-Needs}
use paceq.Store.RetryPlan.{RetryPlan, Frozen}
use paceq.Store.StepWrites.{
  StepOutcome, elapsed, next_attempt, row_reason, row_detail, finish_time, detail_of,
  outcome_guards, plan_of, settle_step, write_outcome, consequences, apply_read_step,
  apply_step_outcome_tx, record_step_outcome_tx, record_step_outcome,
}
use paceq.Store.StepStart.{read_step}
use paceq.Store.StepWrites.Reads.{
  find_step-settled, settle_step-keeps, write_outcome_lem, find_step-key,
}

-- No step of the run that needs `name` is pending.
abbrev pub NonePending : String → String → List Dep → List StepRow → Type 0
NonePending run_id name deps steps =
    (t : StepRow)
    → Memᴰ t steps
    → t.run_id ≡ run_id
    → Needs run_id name deps t.name
    → StepState.same t.state pending ≡ false

-- The row of a step that took a verdict: when it may run again, its reason and its detail are the
-- plan's where there is one, and the rest is the evidence of the outcome.
abbrev pub row_of_verdict :
    StepOutcome → StepState → Option RetryPlan → ℤ → Detail → StepRow → StepRow
row_of_verdict out state plan finished_at detail s =
    let finished_ms = unix_milli finished_at in
    let returns = StepState.same state pending in
    let or_null = λ (t : String). if str_eq t "" then none else some t in
    record s {
      state = state;
      reason_code = or_null (elim plan [
        | none ↦ out.reason_code
        | some q ↦ if str_eq q.reason_code "" then out.reason_code else q.reason_code
      ]);
      reason_data = some (elim plan [
        | none ↦ detail
        | some q ↦ if is_empty q.detail_json then detail else q.detail_json
      ]);
      exit_code = out.exit_code;
      signal = or_null out.signal;
      finished_at = if returns then s.finished_at else some finished_ms;
      duration_ms = if returns then none else Option.map (λ t. finished_ms -ℤ t) s.started_at;
      log_path = or_null out.log_meta.rel_path;
      log_bytes = out.log_meta.bytes;
      log_truncated = out.log_meta.truncated;
      error_tail = or_null out.log_meta.error_tail;
      next_attempt_at =
          if returns
          then elim plan [
            | none ↦ some finished_ms
            | some q ↦ elim q.next_attempt_at [
              | none ↦ some finished_ms
              | some t ↦ some (unix_milli t)
            ]
          ]
          else none;
      outcome_source = or_null out.outcome_source;
    }

elapsed_lem : (o : Option ℤ) (now_ms : ℤ) → elapsed o now_ms ≡ Option.map (λ t. now_ms -ℤ t) o
elapsed_lem none now_ms = refl
elapsed_lem (some t) now_ms = refl

settle_step_lem :
    (out : StepOutcome) (state : StepState) (plan : Option RetryPlan) (finished_at : ℤ)
    (detail : Detail) (s : StepRow)
    → settle_step out state plan finished_at detail s
      ≡ row_of_verdict out state plan finished_at detail s
unfolding settle_step next_attempt row_reason row_detail
settle_step_lem out state none finished_at detail s =
    elim (Bool-cases (StepState.same state pending)) [
      | inl y ↦ rw (← elapsed_lem s.started_at (unix_milli finished_at)) (rw y refl)
      | inr n ↦ rw (← elapsed_lem s.started_at (unix_milli finished_at)) (rw n refl)
    ]
settle_step_lem out state (some q) finished_at detail s =
    elim (Bool-cases (StepState.same state pending)) [
      | inl y ↦ rw (← elapsed_lem s.started_at (unix_milli finished_at)) (rw y refl)
      | inr n ↦ rw (← elapsed_lem s.started_at (unix_milli finished_at)) (rw n refl)
    ]

-- What a verdict that was recorded is, and what a reader of the step then finds.
pub record Recorded (frozen : Frozen) (db : Db) (run_id name : String) (out : StepOutcome)
    (finished_at : ℤ) (detail : Detail) (after : Db) : Type 0 where
  pub step : StepRow
  pub step_found : find_step run_id name db.steps ≡ some step
  pub state : StepState
  pub effects : List Effect
  pub accepted :
      next_step_state step.state out.event (outcome_guards step out) ≡ (state, effects, none)
  pub plan : Option RetryPlan
  pub planned : plan_of frozen run_id step out finished_at detail state ≡ ok plan
  pub row_after :
      find_step run_id name after.steps
      ≡ some (row_of_verdict out state plan finished_at detail step)
  pub closed : state ≡ failed → NonePending run_id name db.deps after.steps

failure_lem :
    (f : Failure) (mid after : Db) (row : StepRow) (name : String)
    → f.failed_step ≡ name
    → find_step f.run_id name mid.steps ≡ some row
    → StepState.same row.state pending ≡ false
    → propagate_skip f mid ≡ ok after
    → (find_step f.run_id name after.steps ≡ some row)
      × NonePending f.run_id name mid.deps after.steps
failure_lem f mid after row name k h n e =
    let (other, p, steps, _, _, _) = propagate_skip-settled f mid in
    (
      rw (← ok_unique p e, steps) (find_step-settled f mid.deps f.run_id name mid.steps row h n),
      λ t m r needs. propagate_skip-Needs f mid after t e m r (rw k needs),
    )

consequences_lem :
    (mid after : Db) (run_id name : String) (step row : StepRow) (out : StepOutcome)
    (finished_at : ℤ) (state : StepState)
    → step.name ≡ name
    → find_step run_id name mid.steps ≡ some row
    → row.state ≡ state
    → consequences mid run_id step out finished_at state ≡ ok after
    → (find_step run_id name after.steps ≡ some row)
      × (state ≡ failed → NonePending run_id name mid.deps after.steps)
unfolding consequences
consequences_lem mid after run_id name step row out finished_at failed k h s e =
    let f : Failure = record {
      run_id = run_id;
      failed_step = step.name;
      attempt = step.attempt;
      at = unix_milli finished_at;
      actor = out.actor;
    } in
    let (found, closed) = failure_lem f mid after row name k h (rw s refl) e in (found, λ _. closed)
consequences_lem mid after run_id name step row out finished_at succeeded k h s e =
    (rw (← ok_unique refl e) h, λ q. absurd (cc))
consequences_lem mid after run_id name step row out finished_at pending k h s e =
    (rw (← ok_unique refl e) h, λ q. absurd (cc))
consequences_lem mid after run_id name step row out finished_at running k h s e =
    (rw (← ok_unique refl e) h, λ q. absurd (cc))
consequences_lem mid after run_id name step row out finished_at skipped k h s e =
    (rw (← ok_unique refl e) h, λ q. absurd (cc))
consequences_lem mid after run_id name step row out finished_at cancelled k h s e =
    (rw (← ok_unique refl e) h, λ q. absurd (cc))

-- An accepted outcome, once its retry is planned.
planned-Recorded :
    (frozen : Frozen) (db after : Db) (run_id name : String) (out : StepOutcome) (finished_at : ℤ)
    (detail : Detail) (step : StepRow) (state : StepState) (fx : List Effect)
    (plan : Option RetryPlan)
    → find_step run_id name db.steps ≡ some step
    → next_step_state step.state out.event (outcome_guards step out) ≡ (state, fx, none)
    → plan_of frozen run_id step out finished_at detail state ≡ ok plan
    → consequences
        (write_outcome db run_id step out finished_at detail state fx plan)
        run_id
        step
        out
        finished_at
        state
      ≡ ok after
    → Recorded frozen db run_id name out finished_at detail after
planned-Recorded frozen db after run_id name out finished_at detail step state fx plan f a p e =
    let mid = write_outcome db run_id step out finished_at detail state fx plan in
    let row = settle_step out state plan finished_at detail step in
    let (found, deps) =
      write_outcome_lem db run_id name step out finished_at detail state fx plan f in
    let (r, n, s) = settle_step-keeps out state plan finished_at detail step in
    let key = find_step-key run_id name db.steps step f in
    let (kept, closed) =
      consequences_lem mid after run_id name step row out finished_at state key.1 found s e in
    record {
      step = step;
      step_found = f;
      state = state;
      effects = fx;
      accepted = a;
      plan = plan;
      planned = p;
      row_after = kept ∙ ap some (settle_step_lem out state plan finished_at detail step);
      closed = λ q. rw (← deps) (closed q);
    }

apply_read_step-Recorded :
    (frozen : Frozen) (db after : Db) (run_id name : String) (out : StepOutcome) (finished_at : ℤ)
    (detail : Detail) (step : StepRow)
    → find_step run_id name db.steps ≡ some step
    → apply_read_step frozen db run_id out finished_at detail step ≡ ok after
    → Recorded frozen db run_id name out finished_at detail after
unfolding apply_read_step
apply_read_step-Recorded frozen db after run_id name out finished_at detail step f e =
    go (next_step_state step.state out.event (outcome_guards step out)) refl e
  where
    plans :
        (state : StepState) (fx : List Effect) (r : Result Error (Option RetryPlan))
        → next_step_state step.state out.event (outcome_guards step out) ≡ (state, fx, none)
        → plan_of frozen run_id step out finished_at detail state ≡ r
        → ◌>>=◌ {B = Db} r (λ plan.
          consequences
            (write_outcome db run_id step out finished_at detail state fx plan)
            run_id
            step
            out
            finished_at
            state)
          ≡ ok after
        → Recorded frozen db run_id name out finished_at detail after
    plans state fx (err x) a p k = absurd (cc)
    plans state fx (ok plan) a p k =
        planned-Recorded frozen db after run_id name out finished_at detail step state fx plan f a p
          k

    go :
        (o : Outcome StepState)
        → next_step_state step.state out.event (outcome_guards step out) ≡ o
        → (elim o.2 [
          | some x ↦ err (refused x)
          | none ↦ plan_of frozen run_id step out finished_at detail o.0 >>= (λ plan.
              consequences
                (write_outcome db run_id step out finished_at detail o.0 o.1 plan)
                run_id
                step
                out
                finished_at
                o.0)
        ])
          ≡ ok after
        → Recorded frozen db run_id name out finished_at detail after
    go (state, fx, some x) a k = absurd (cc)
    go (state, fx, none) a k =
        plans state fx (plan_of frozen run_id step out finished_at detail state) a refl k

tx-Recorded :
    (frozen : Frozen) (db : Db) (now : ℤ) (run_id name : String) (out : StepOutcome)
    (ref : LeaseRef) (after : Db)
    → record_step_outcome_tx frozen db now run_id name out ref ≡ ok after
    → (check_lease db run_id ref now ≡ ok tt)
      × Recorded frozen db run_id name out (finish_time out.finished_at now) (detail_of out) after
unfolding record_step_outcome_tx apply_step_outcome_tx read_step
tx-Recorded frozen db now run_id name out ref after h = go (check_lease db run_id ref now) refl h
  where
    reads :
        (o : Option StepRow)
        → find_step run_id name db.steps ≡ o
        → ◌>>=◌ {B = Db}
            (elim o [ none ↦ err run_not_found | some s ↦ ok s ])
            (apply_read_step frozen db run_id out (finish_time out.finished_at now) (detail_of out))
          ≡ ok after
        → Recorded frozen db run_id name out (finish_time out.finished_at now) (detail_of out) after
    reads none f k = absurd (cc)
    reads (some step) f k =
        apply_read_step-Recorded frozen db after run_id name out (finish_time out.finished_at now)
          (detail_of out) step f k

    go :
        (r : Result Error (Unit {0}))
        → check_lease db run_id ref now ≡ r
        → (r
            >> apply_step_outcome_tx frozen db run_id name out
                (finish_time out.finished_at now)
                (detail_of out))
          ≡ ok after
        → (check_lease db run_id ref now ≡ ok tt)
          × Recorded frozen db run_id name out
              (finish_time out.finished_at now)
              (detail_of out)
              after
    go (err e) c k = absurd (cc)
    go (ok u) c k = (c, reads (find_step run_id name db.steps) refl k)

-- A verdict that RecordStepOutcome records passed the fence, and the step machine accepted it. The
-- step's row then is the old one with the machine's state, its evidence, and the time of the next
-- attempt where it goes back to pending. Where it ends failed, no step of the run that needs it is
-- pending, by whatever chain of edges.
pub record_step_outcome-Recorded :
    (frozen : Frozen) (db : Db) (now : ℤ) (run_id name : String) (out : StepOutcome)
    (ref : LeaseRef)
    → (record_step_outcome frozen db now run_id name out ref).0 ≡ ok tt
    → (check_lease db run_id ref now ≡ ok tt)
      × Recorded frozen db run_id name out
          (finish_time out.finished_at now)
          (detail_of out)
          (record_step_outcome frozen db now run_id name out ref).1
unfolding record_step_outcome
record_step_outcome-Recorded frozen db now run_id name out ref h =
    go (record_step_outcome_tx frozen db now run_id name out ref) refl h
  where
    go :
        (r : Result Error Db)
        → record_step_outcome_tx frozen db now run_id name out ref ≡ r
        → (with_tx db (r >>= (λ after. ok (tt {0}, after)))).0 ≡ ok tt
        → (check_lease db run_id ref now ≡ ok tt)
          × Recorded frozen db run_id name out
              (finish_time out.finished_at now)
              (detail_of out)
              (with_tx db (
                record_step_outcome_tx frozen db now run_id name out ref
                >>= (λ after. ok (tt {0}, after)))).1
    go (err e) q k = absurd (cc)
    go (ok after) q k = rw q (tx-Recorded frozen db now run_id name out ref after q)
