-- ===== src/Store/Reaper/Lost.antt =====
-- One round of failRunningStepsTx: it never fails, and takes the step out of `running`.
use std.Path.{subst}
use paceq.Store.Leases.{unix_milli}
use paceq.Base.{
  ◌≤◌, String, Bool, true, false, not, ◌&&◌, List, [], ◌∷◌, none, some, ◌≡◌, refl, sym, ap, ◌∙◌,
  ◌⊎◌, inl, inr, arith, map, str_eq,
}
use paceq.Base.Tests.{if◌then◌else◌, Bool-cases}
use paceq.Base.Lists.{length, length-append}
use paceq.Base.Int.{ℤ}
use paceq.Base.Result.{Result, ok, err, ◌>>=◌}
use paceq.Model.StepState.{StepState, pending, running, failed}
use paceq.Model.Event.{step_failed}
use paceq.Model.Effect.{Effect}
use paceq.Model.RunMachine.{require_reason}
use paceq.Model.StepMachine.{next_step_state}
use paceq.Store.Rows.{StepRow, Dep, Db, text, find_step, update_steps, append_run_event}
use paceq.Store.Skip.{Failure, is_pending_dependant, mark_skipped}
use paceq.Store.Skip.Settled.{settled, propagate_skip-settled}
use paceq.Store.RetryPlan.{Frozen, verdict_observed}
use paceq.Store.StepStart.{read_step}
use paceq.Store.Fence.{Error, refused, run_not_found}
use paceq.Store.StepWrites.Reads.{find_step-key}
use paceq.Store.StepWrites.{
  is_step_in, settle_step, write_outcome, consequences, plan_of, outcome_guards, apply_read_step,
  apply_step_outcome_tx,
}
use paceq.Store.CloseOut.{is_of_run}
use paceq.Store.Reaper.{lost_outcome}

-- What a write to the steps of one run is: a function of the row, which keeps its key.
pub record Moved (run_id : String) (before after : List StepRow) : Type 0 where
  pub to : StepRow → StepRow
  pub moved : after ≡ map to before
  pub same_run : (s : StepRow) → (to s).run_id ≡ s.run_id
  pub same_name : (s : StepRow) → (to s).name ≡ s.name
  pub spared : (s : StepRow) → (if str_eq s.run_id run_id then s else to s) ≡ s

pub find_step-map :
    (run_id name : String) (g : StepRow → StepRow) (steps : List StepRow) (t : StepRow)
    → ((s : StepRow) → (g s).run_id ≡ s.run_id)
    → ((s : StepRow) → (g s).name ≡ s.name)
    → find_step run_id name steps ≡ some t
    → find_step run_id name (map g steps) ≡ some (g t)
unfolding find_step
find_step-map run_id name g [] t r n h = absurd (cc)
find_step-map run_id name g (s ∷ rest) t r n h =
    ground (arith, find_step-map run_id name g rest t r n, r s, n s)

pub update_steps-map :
    (p : StepRow → Bool) (f : StepRow → StepRow) (steps : List StepRow)
    → update_steps p f steps ≡ map (λ s. if p s then f s else s) steps
unfolding update_steps
update_steps-map p f [] = refl
update_steps-map p f (s ∷ rest) = ap (λ l. (if p s then f s else s) ∷ l) (update_steps-map p f rest)

pub map-map : (f g : StepRow → StepRow) (l : List StepRow) → map f (map g l) ≡ map (λ s. f (g s)) l
map-map f g [] = refl
map-map f g (s ∷ rest) = ap (λ l. f (g s) ∷ l) (map-map f g rest)

-- The step machine takes a lost step out of `running`.
running_lost :
    (step : StepRow) (terminal : Bool)
    → step.state ≡ running
    → (fx : List Effect) × ((next_step_state step.state step_failed
            (outcome_guards step (lost_outcome terminal))
          ≡ (pending, fx, none))
        ⊎ (next_step_state step.state step_failed (outcome_guards step (lost_outcome terminal))
            ≡ (failed, fx, none)))
unfolding next_step_state require_reason outcome_guards
running_lost step terminal e =
    elim (Bool-cases (outcome_guards step (lost_outcome terminal)).attempts_left) [
      | inl y ↦ rw (e, y) (_, inl refl)
      | inr n ↦ rw (e, n) (_, inr refl)
    ]

-- What the write of one lost step does to the rows.
pub record Lost (run_id name : String) (before after : List StepRow) : Type 0 where
  pub by : Moved run_id before after
  pub other_kept :
      (s : StepRow) → is_of_run running run_id s ≡ true → str_eq s.name name ≡ false → by.to s ≡ s
  pub not_running :
      (s : StepRow)
      → is_of_run running run_id (by.to s)
        ≡ (is_of_run running run_id s && not (str_eq s.name name))

abbrev settled_lost : Bool → StepState → ℤ → String → String → StepRow → StepRow
settled_lost terminal state now run_id name s =
    if is_step_in run_id name running s
    then settle_step (lost_outcome terminal) state none now (text "{}") s
    else s

pending_row :
    (terminal : Bool) (now : ℤ) (run_id name : String) (steps : List StepRow)
    → Lost run_id name steps (map (settled_lost terminal pending now run_id name) steps)
unfolding settle_step
pending_row terminal now run_id name steps = record {
  by = record {
    to = settled_lost terminal pending now run_id name;
    moved = refl;
    same_run = λ s. ground arith;
    same_name = λ s. ground arith;
    spared = λ s. ground arith;
  };
  other_kept = λ s h n. ground arith;
  not_running = λ s. ground arith;
}

failed_row :
    (terminal : Bool) (now : ℤ) (run_id name : String) (f : Failure) (deps : List Dep)
    (steps : List StepRow)
    → f.run_id ≡ run_id
    → Lost run_id name steps
        (map (λ s. settled f deps (settled_lost terminal failed now run_id name s)) steps)
unfolding settle_step mark_skipped is_pending_dependant
failed_row terminal now run_id name f deps steps e = record {
  by = record {
    to = λ s. settled f deps (settled_lost terminal failed now run_id name s);
    moved = refl;
    same_run = λ s. ground arith;
    same_name = λ s. ground arith;
    spared = λ s. ground arith;
  };
  other_kept = λ s h n. ground arith;
  not_running = λ s. ground arith;
}

apply_found :
    (frozen : Frozen) (db : Db) (run_id name : String) (now : ℤ) (terminal : Bool) (step : StepRow)
    → find_step run_id name db.steps ≡ some step
    → apply_step_outcome_tx frozen db run_id name (lost_outcome terminal) now (text "{}")
      ≡ apply_read_step frozen db run_id (lost_outcome terminal) now (text "{}") step
unfolding apply_step_outcome_tx read_step
apply_found frozen db run_id name now terminal step f =
    ap
      (λ o.
        ◌>>=◌ {B = Db}
          (elim o as (λ x. Result Error StepRow) [ none ↦ err run_not_found | some s ↦ ok s ])
          (apply_read_step frozen db run_id (lost_outcome terminal) now (text "{}")))
      f

apply_accepted :
    (frozen : Frozen) (db : Db) (run_id : String) (now : ℤ) (terminal : Bool) (step : StepRow)
    (state : StepState) (fx : List Effect)
    → next_step_state step.state step_failed (outcome_guards step (lost_outcome terminal))
      ≡ (state, fx, none)
    → apply_read_step frozen db run_id (lost_outcome terminal) now (text "{}") step ≡ (
        plan_of frozen run_id step (lost_outcome terminal) now (text "{}") state >>= (λ plan.
          consequences
            (write_outcome db run_id step (lost_outcome terminal) now (text "{}") state fx plan)
            run_id
            step
            (lost_outcome terminal)
            now
            state))
unfolding apply_read_step
apply_accepted frozen db run_id now terminal step state fx e =
    ap
      (λ o. elim o.2 as (λ x. Result Error Db) [
        | some x ↦ err (refused x)
        | none ↦ plan_of frozen run_id step (lost_outcome terminal) now (text "{}") o.0 >>= (λ plan.
            consequences
              (write_outcome db run_id step (lost_outcome terminal) now (text "{}") o.0 o.1 plan)
              run_id step (lost_outcome terminal) now o.0)
      ])
      e

write_lost :
    (db : Db) (run_id name : String) (now : ℤ) (terminal : Bool) (step : StepRow)
    (state : StepState) (fx : List Effect)
    → step.name ≡ name
    → step.state ≡ running
    → ((write_outcome db run_id step (lost_outcome terminal) now (text "{}") state fx none).steps
        ≡ map (settled_lost terminal state now run_id name) db.steps)
      × ((write_outcome db run_id step (lost_outcome terminal) now (text "{}") state fx none).runs
          ≡ db.runs)
      × (length db.events
          ≤ length
              (write_outcome db run_id step
                (lost_outcome terminal)
                now
                (text "{}")
                state
                fx
                none).events)
unfolding write_outcome append_run_event
write_lost db run_id name now terminal step state fx n p =
    let set = settle_step (lost_outcome terminal) state none now (text "{}") in
    (
      update_steps-map (is_step_in run_id step.name step.state) set db.steps
          ∙ (ap (λ m. map (λ s. if is_step_in run_id m step.state s then set s else s) db.steps) n
              ∙ ap (λ st. map (λ s. if is_step_in run_id name st s then set s else s) db.steps) p),
      refl,
      omega (arith, length-append db.events),
    )

failure_of : Db → String → StepRow → ℤ → Failure
failure_of db run_id step now = record {
  run_id = run_id;
  failed_step = step.name;
  attempt = step.attempt;
  at = unix_milli now;
  actor = "reaper";
}

-- The write of one lost step.
abbrev pub OneLost : Db → String → String → Result Error Db → Type 0
OneLost db run_id name result =
    (after : Db) × (result ≡ ok after)
    × Lost run_id name db.steps after.steps
    × (after.runs ≡ db.runs)
    × (length db.events ≤ length after.events)

lost_pending :
    (frozen : Frozen) (db : Db) (run_id name : String) (now : ℤ) (terminal : Bool) (step : StepRow)
    (fx : List Effect)
    → step.name ≡ name
    → step.state ≡ running
    → OneLost db run_id name (
        plan_of frozen run_id step (lost_outcome terminal) now (text "{}") pending >>= (λ plan.
          consequences
            (write_outcome db run_id step (lost_outcome terminal) now (text "{}") pending fx plan)
            run_id
            step
            (lost_outcome terminal)
            now
            pending))
unfolding plan_of verdict_observed consequences
lost_pending frozen db run_id name now terminal step fx n p =
    let (steps, runs, events) = write_lost db run_id name now terminal step pending fx n p in
    (
      write_outcome db run_id step (lost_outcome terminal) now (text "{}") pending fx none,
      refl,
      subst (Lost run_id name db.steps) (sym steps) (pending_row terminal now run_id name db.steps),
      runs,
      events,
    )

lost_failed :
    (frozen : Frozen) (db : Db) (run_id name : String) (now : ℤ) (terminal : Bool) (step : StepRow)
    (fx : List Effect)
    → step.name ≡ name
    → step.state ≡ running
    → OneLost db run_id name (
        plan_of frozen run_id step (lost_outcome terminal) now (text "{}") failed >>= (λ plan.
          consequences
            (write_outcome db run_id step (lost_outcome terminal) now (text "{}") failed fx plan)
            run_id
            step
            (lost_outcome terminal)
            now
            failed))
unfolding plan_of consequences failure_of
lost_failed frozen db run_id name now terminal step fx n p =
    let mid = write_outcome db run_id step (lost_outcome terminal) now (text "{}") failed fx none in
    let f = failure_of db run_id step now in
    let (steps, runs, events) = write_lost db run_id name now terminal step failed fx n p in
    let (after, e, closed, kept, deps, more) = propagate_skip-settled f mid in
    (
      after,
      e,
      subst (Lost run_id name db.steps)
          (sym (
            closed
            ∙ (ap (map (settled f mid.deps)) steps
                ∙ map-map (settled f mid.deps) (settled_lost terminal failed now run_id name)
                    db.steps)))
          (failed_row terminal now run_id name f mid.deps db.steps refl),
      kept ∙ runs,
      omega (arith, more, events),
    )

pub apply_lost :
    (frozen : Frozen) (db : Db) (run_id name : String) (now : ℤ) (terminal : Bool) (step : StepRow)
    → find_step run_id name db.steps ≡ some step
    → step.state ≡ running
    → OneLost db run_id name
        (apply_step_outcome_tx frozen db run_id name (lost_outcome terminal) now (text "{}"))
apply_lost frozen db run_id name now terminal step f p =
    let (fx, moves) = running_lost step terminal p in
    let named = (find_step-key run_id name db.steps step f).1 in
    let found = apply_found frozen db run_id name now terminal step f in
    elim moves [
      | inl m ↦
          subst (OneLost db run_id name)
            (sym (found ∙ apply_accepted frozen db run_id now terminal step pending fx m))
            (lost_pending frozen db run_id name now terminal step fx named p)
      | inr m ↦
          subst (OneLost db run_id name)
            (sym (found ∙ apply_accepted frozen db run_id now terminal step failed fx m))
            (lost_failed frozen db run_id name now terminal step fx named p)
    ]
