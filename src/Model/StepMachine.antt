-- ===== src/Model/StepMachine.antt =====
-- internal/model/step_fsm.go: the step machine, in the shape of the run machine.
pub mod Transitions
use paceq.Base.{List, [], ◌∷◌, none}
use paceq.Base.Tests.{if◌then◌else◌}
use paceq.Model.State.{State}
use paceq.Model.StepState.{StepState, pending, running, succeeded, failed, skipped, cancelled}
use paceq.Model.Event.{
  Event, step_started, step_succeeded, step_failed, upstream_failed, cancel_observed,
  operator_retry, shutdown_drain,
}
use paceq.Model.Effect.{
  Effect, act, emit, set_started, set_finished, kill_process_group, inc_attempt, restore_attempt,
  set_next_attempt_at,
}
use paceq.Model.Refusal.{illegal_transition_error}
use paceq.Model.Guards.{Guards}
use paceq.Model.RunMachine.{Outcome, require_reason, unless, refuse}

-- An arm that asks for a reason code and moves to `to`.
with_reason : StepState → Event → StepState → List Effect → Guards → Outcome StepState
unfolding require_reason
with_reason cur ev to fx g =
    unless (require_reason (State.step cur) ev (State.step to) g) cur (to, fx)

unfoldable pub next_step_state : StepState → Event → Guards → Outcome StepState
unfolding with_reason
next_step_state pending step_started g =
    (running, act inc_attempt ∷ act set_started ∷ emit "step.started" ∷ [], none)
next_step_state pending upstream_failed g =
    with_reason pending upstream_failed skipped (act set_finished ∷ emit "step.skipped" ∷ []) g
next_step_state running step_succeeded g =
    with_reason running step_succeeded succeeded (act set_finished ∷ emit "step.succeeded" ∷ []) g
next_step_state running step_failed g =
    if g.attempts_left
    then with_reason running step_failed pending
        (act set_next_attempt_at ∷ emit "step.retry_scheduled" ∷ []) g
    else with_reason running step_failed failed (act set_finished ∷ emit "step.failed" ∷ []) g
next_step_state running cancel_observed g =
    with_reason running cancel_observed cancelled
      (act kill_process_group ∷ act set_finished ∷ emit "step.cancelled" ∷ []) g
next_step_state pending cancel_observed g =
    with_reason pending cancel_observed cancelled (act set_finished ∷ emit "step.cancelled" ∷ []) g
next_step_state running shutdown_drain g =
    with_reason running shutdown_drain pending
      (act restore_attempt ∷ act set_next_attempt_at ∷ emit "step.interrupted" ∷ []) g
next_step_state failed operator_retry g =
    (pending, act set_next_attempt_at ∷ emit "step.reopened" ∷ [], none)
next_step_state skipped operator_retry g =
    (pending, act set_next_attempt_at ∷ emit "step.reopened" ∷ [], none)
next_step_state cur ev g = refuse cur (illegal_transition_error (State.step cur) ev)
