-- ===== src/Model/StepState.antt =====
-- internal/model/state.go: the closed set of step states.
use paceq.Base.{String, Bool, true, false, ◌||◌, List, [], ◌∷◌}

pub data StepState : Type 0 where
  pending running succeeded failed skipped cancelled : StepState

pub StepState-discrete : Discrete StepState
StepState-discrete = hlevel

unfoldable pub string : StepState → String
string pending = "pending"
string running = "running"
string succeeded = "succeeded"
string failed = "failed"
string skipped = "skipped"
string cancelled = "cancelled"

-- Go's `==` on two step states.
abbrev pub same : StepState → StepState → Bool
same pending pending = true
same running running = true
same succeeded succeeded = true
same failed failed = true
same skipped skipped = true
same cancelled cancelled = true
same _ _ = false

unfoldable pub is_terminal : StepState → Bool
is_terminal s = same s succeeded || same s failed || same s skipped || same s cancelled

unfoldable pub requires_reason_code : StepState → Bool
unfolding is_terminal
requires_reason_code s = is_terminal s

unfoldable pub all_states : List StepState
all_states = pending ∷ running ∷ succeeded ∷ failed ∷ skipped ∷ cancelled ∷ []
