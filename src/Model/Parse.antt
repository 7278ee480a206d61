-- ===== src/Model/Parse.antt =====
-- internal/model/state.go: reading a stored name back. Anything outside the closed set is refused.
pub mod RoundTrip
use paceq.Base.{String, List, [], ◌∷◌, str_eq}
use paceq.Base.Tests.{if◌then◌else◌}
use paceq.Base.Result.{Result, ok, err}
use paceq.Model.RunState.{RunState}
use paceq.Model.RunState
use paceq.Model.StepState.{StepState}
use paceq.Model.StepState
use paceq.Model.Refusal.{Refusal, unknown_state_error}

-- The loop of `ParseRunState`, over the states that are left.
unfoldable pub find_run_state : List RunState → String → Result Refusal RunState
unfolding RunState.string
find_run_state [] name = err (unknown_state_error "run" name)
find_run_state (s ∷ rest) name =
    if str_eq (RunState.string s) name then ok s else find_run_state rest name

unfoldable pub parse_run_state : String → Result Refusal RunState
unfolding find_run_state RunState.all_states
parse_run_state name = find_run_state RunState.all_states name

-- The loop of `ParseStepState`.
unfoldable pub find_step_state : List StepState → String → Result Refusal StepState
unfolding StepState.string
find_step_state [] name = err (unknown_state_error "step" name)
find_step_state (s ∷ rest) name =
    if str_eq (StepState.string s) name then ok s else find_step_state rest name

unfoldable pub parse_step_state : String → Result Refusal StepState
unfolding find_step_state StepState.all_states
parse_step_state name = find_step_state StepState.all_states name
