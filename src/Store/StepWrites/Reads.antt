-- ===== src/Store/StepWrites/Reads.antt =====
-- What a reader of a step finds after an update of its row, and after the skips of a failure.
use paceq.Base.{
  String, false, List, [], ◌∷◌, Option, some, map, ◌≡◌, refl, ap, ◌∙◌, inl, inr, arith, eq_iff,
}
use paceq.Base.Tests.{Bool-cases}
use paceq.Base.Int.{ℤ}
use paceq.Model.StepState.{StepState, pending, running, succeeded, failed, skipped, cancelled}
use paceq.Model.StepState
use paceq.Model.Effect.{Effect}
use paceq.Store.Rows.{StepRow, Dep, Db, Detail, append_run_event, find_step, is_step, update_steps}
use paceq.Store.Skip.{Failure, is_pending_dependant}
use paceq.Store.Skip.Settled.{settled, settled-keeps}
use paceq.Store.RetryPlan.{RetryPlan}
use paceq.Store.StepWrites.{StepOutcome, settle_step, is_step_in, write_outcome}

pub find_step-key :
    (run_id name : String) (steps : List StepRow) (s : StepRow)
    → find_step run_id name steps ≡ some s
    → (s.run_id ≡ run_id) × (s.name ≡ name)
unfolding find_step
find_step-key run_id name [] s h = absurd (cc)
find_step-key run_id name (t ∷ rest) s h =
    ground (arith, find_step-key run_id name rest s, eq_iff t.run_id run_id, eq_iff t.name name)

-- The verdict's update is what a reader of the step finds.
find_step-update_steps :
    (run_id name : String) (cur : StepState) (f : StepRow → StepRow) (steps : List StepRow)
    (s : StepRow)
    → find_step run_id name steps ≡ some s
    → s.state ≡ cur
    → (f s).run_id ≡ s.run_id
    → (f s).name ≡ s.name
    → find_step run_id name (update_steps (is_step_in run_id name cur) f steps) ≡ some (f s)
unfolding find_step update_steps
find_step-update_steps run_id name cur f [] s h c r n = absurd (cc)
find_step-update_steps run_id name cur f (t ∷ rest) s h c r n =
    elim (Bool-cases (is_step run_id name t)) [
      | inl e ↦ ground (
        arith,
        eq_iff t.run_id run_id,
        eq_iff t.name name,
        eq_iff s.run_id run_id,
        eq_iff s.name name,
      )
      | inr e ↦ ground (
        arith,
        find_step-update_steps run_id name cur f rest s,
        eq_iff t.run_id run_id,
        eq_iff t.name name,
      )
    ]

find_step-map :
    (g : StepRow → StepRow) (run_id name : String) (steps : List StepRow) (s : StepRow)
    → ((t : StepRow) → ((g t).run_id ≡ t.run_id) × ((g t).name ≡ t.name))
    → find_step run_id name steps ≡ some s
    → find_step run_id name (map g steps) ≡ some (g s)
unfolding find_step
find_step-map g run_id name [] s k h = absurd (cc)
find_step-map g run_id name (t ∷ rest) s k h =
    ground (arith, k t, find_step-map g run_id name rest s k)

-- The skips that a failure brings leave a row that is not pending.
settled_keeps_ended :
    (f : Failure) (deps : List Dep) (s : StepRow)
    → StepState.same s.state pending ≡ false
    → settled f deps s ≡ s
unfolding is_pending_dependant
settled_keeps_ended f deps s n = ground arith

pub find_step-settled :
    (f : Failure) (deps : List Dep) (run_id name : String) (steps : List StepRow) (s : StepRow)
    → find_step run_id name steps ≡ some s
    → StepState.same s.state pending ≡ false
    → find_step run_id name (map (settled f deps) steps) ≡ some s
find_step-settled f deps run_id name steps s h n =
    find_step-map (settled f deps) run_id name steps s (settled-keeps f deps) h
    ∙ ap some (settled_keeps_ended f deps s n)

pub find_step-update_steps_key :
    (run_id key name : String) (cur : StepState) (f : StepRow → StepRow) (steps : List StepRow)
    (s : StepRow)
    → key ≡ name
    → find_step run_id name steps ≡ some s
    → s.state ≡ cur
    → (f s).run_id ≡ s.run_id
    → (f s).name ≡ s.name
    → find_step run_id name (update_steps (is_step_in run_id key cur) f steps) ≡ some (f s)
find_step-update_steps_key run_id key name cur f steps s e h c r n =
    rw e (find_step-update_steps run_id name cur f steps s h c r n)

pub settle_step-keeps :
    (out : StepOutcome) (state : StepState) (plan : Option RetryPlan) (finished_at : ℤ)
    (detail : Detail) (s : StepRow)
    → ((settle_step out state plan finished_at detail s).run_id ≡ s.run_id)
      × ((settle_step out state plan finished_at detail s).name ≡ s.name)
      × ((settle_step out state plan finished_at detail s).state ≡ state)
unfolding settle_step
settle_step-keeps out state plan finished_at detail s = (refl, refl, refl)

pub write_outcome_lem :
    (db : Db) (run_id name : String) (step : StepRow) (out : StepOutcome) (finished_at : ℤ)
    (detail : Detail) (state : StepState) (fx : List Effect) (plan : Option RetryPlan)
    → find_step run_id name db.steps ≡ some step
    → (find_step run_id name
          (write_outcome db run_id step out finished_at detail state fx plan).steps
        ≡ some (settle_step out state plan finished_at detail step))
      × ((write_outcome db run_id step out finished_at detail state fx plan).deps ≡ db.deps)
unfolding write_outcome append_run_event
write_outcome_lem db run_id name step out finished_at detail state fx plan h =
    let key = find_step-key run_id name db.steps step h in
    let (r, n, s) = settle_step-keeps out state plan finished_at detail step in
    (
      find_step-update_steps_key run_id step.name name step.state
          (settle_step out state plan finished_at detail) db.steps step key.1 h refl r n,
      refl,
    )
