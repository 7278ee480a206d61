-- ===== src/Model/Parse/RoundTrip.antt =====
-- Reading a stored name back inverts writing it, and reads nothing else.
use paceq.Base.{String, ◌≡◌, refl, ◌↔◌, arith, eq_iff}
use paceq.Base.Result.{ok}
use paceq.Model.RunState.{RunState, queued, running, succeeded, failed, cancelled}
use paceq.Model.RunState
use paceq.Model.StepState.{StepState}
use paceq.Model.StepState
use paceq.Model.Parse.{parse_run_state, parse_step_state}

parse-string : (s : RunState) → parse_run_state (RunState.string s) ≡ ok s
unfolding parse_run_state RunState.string
parse-string queued = refl
parse-string running = refl
parse-string succeeded = refl
parse-string failed = refl
parse-string cancelled = refl

parse_ok : (name : String) (s : RunState) → parse_run_state name ≡ ok s → RunState.string s ≡ name
unfolding parse_run_state RunState.string
parse_ok name s h = ground (
  arith,
  eq_iff "queued" name,
  eq_iff "running" name,
  eq_iff "succeeded" name,
  eq_iff "failed" name,
  eq_iff "cancelled" name,
)

-- A name reads as a run state exactly when it is that state's stored name.
pub parse_run_state_iff :
    (name : String) (s : RunState) → (parse_run_state name ≡ ok s) ↔ (RunState.string s ≡ name)
parse_run_state_iff name s = (parse_ok name s, λ e. rw (← e) (parse-string s))

parse_step-string : (s : StepState) → parse_step_state (StepState.string s) ≡ ok s
unfolding parse_step_state StepState.string
parse_step-string StepState.pending = refl
parse_step-string StepState.running = refl
parse_step-string StepState.succeeded = refl
parse_step-string StepState.failed = refl
parse_step-string StepState.skipped = refl
parse_step-string StepState.cancelled = refl

parse_step_ok :
    (name : String) (s : StepState) → parse_step_state name ≡ ok s → StepState.string s ≡ name
unfolding parse_step_state StepState.string
parse_step_ok name s h = ground (
  arith,
  eq_iff "pending" name,
  eq_iff "running" name,
  eq_iff "succeeded" name,
  eq_iff "failed" name,
  eq_iff "skipped" name,
  eq_iff "cancelled" name,
)

-- A name reads as a step state exactly when it is that state's stored name.
pub parse_step_state_iff :
    (name : String) (s : StepState) → (parse_step_state name ≡ ok s) ↔ (StepState.string s ≡ name)
parse_step_state_iff name s = (parse_step_ok name s, λ e. rw (← e) (parse_step-string s))
