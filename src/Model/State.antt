-- ===== src/Model/State.antt =====
-- internal/model/state.go: what the two machines have in common.
use paceq.Base.{String, Bool, ◌&&◌}
use paceq.Base.Int.{ℤ, ltb_ℤ}
use paceq.Model.RunState.{RunState}
use paceq.Model.RunState
use paceq.Model.StepState.{StepState}
use paceq.Model.StepState

-- The interface `State`, which has these two implementations.
pub data State : Type 0 where
  run : RunState → State
  step : StepState → State

unfoldable pub string : State → String
unfolding RunState.string StepState.string
string (run s) = RunState.string s
string (step s) = StepState.string s

unfoldable pub kind : State → String
kind (run s) = "run"
kind (step s) = "step"

unfoldable pub is_terminal : State → Bool
unfolding RunState.is_terminal StepState.is_terminal
is_terminal (run s) = RunState.is_terminal s
is_terminal (step s) = StepState.is_terminal s

-- Both times are unix milliseconds.
unfoldable pub is_deferred : RunState → ℤ → ℤ → Bool
is_deferred state available_at now = RunState.same state RunState.queued && ltb_ℤ now available_at
