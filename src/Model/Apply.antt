-- ===== src/Model/Apply.antt =====
-- internal/model/apply.go: a history folded through a machine, up to the first refusal.
pub mod Histories
use paceq.Base.{List, [], ◌∷◌, ◌++◌, none, some}
use paceq.Model.RunState.{RunState}
use paceq.Model.StepState.{StepState}
use paceq.Model.Event.{Event}
use paceq.Model.Effect.{Effect}
use paceq.Model.Guards.{Guards}
use paceq.Model.RunMachine.{Outcome, next_run_state}
use paceq.Model.StepMachine.{next_step_state}

pub record Input : Type 0 where
  pub event : Event
  pub guards : Guards

-- The loop of `ApplyRun` over the inputs that are left; `all` is the effects so far.
unfoldable pub apply_run_from : RunState → List Effect → List Input → Outcome RunState
apply_run_from cur all [] = (cur, all, none)
apply_run_from cur all (i ∷ rest) = elim (next_run_state cur i.event i.guards).2 [
  | some e ↦ (cur, all, some e)
  | none ↦
      apply_run_from (next_run_state cur i.event i.guards).0
        (all ++ (next_run_state cur i.event i.guards).1) rest
]

unfoldable pub apply_run : RunState → List Input → Outcome RunState
unfolding apply_run_from
apply_run cur inputs = apply_run_from cur [] inputs

-- The loop of `ApplyStep`.
unfoldable pub apply_step_from : StepState → List Effect → List Input → Outcome StepState
apply_step_from cur all [] = (cur, all, none)
apply_step_from cur all (i ∷ rest) = elim (next_step_state cur i.event i.guards).2 [
  | some e ↦ (cur, all, some e)
  | none ↦
      apply_step_from (next_step_state cur i.event i.guards).0
        (all ++ (next_step_state cur i.event i.guards).1) rest
]

unfoldable pub apply_step : StepState → List Input → Outcome StepState
unfolding apply_step_from
apply_step cur inputs = apply_step_from cur [] inputs
