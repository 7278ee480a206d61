-- ===== src/Model/RunMachine.antt =====
-- internal/model/run_fsm.go: the run machine. The three results of NextRunState (state, effects,
-- error) are a triple; the switch on (state, event) is by clauses, and each arm is a function.
pub mod Transitions
use paceq.Base.{String, not, List, [], ◌∷◌, Option, none, some, str_eq}
use paceq.Base.Tests.{if◌then◌else◌}
use paceq.Model.State.{State}
use paceq.Model.RunState.{RunState, queued, running, succeeded, failed, cancelled}
use paceq.Model.RunState
use paceq.Model.Event.{
  Event, claim, deferred, all_steps_done, cancel_observed, lease_expired, operator_retry,
  shutdown_drain,
}
use paceq.Model.Effect.{
  Effect, act, emit, defer_reason, bump_epoch, take_lease, release_lease, set_started, set_finished,
  kill_process_group, inc_crash_count, set_available_at,
}
use paceq.Model.Refusal.{
  Refusal, illegal_transition_error, guard_error, not_available, missing_reason_code,
  missing_defer_reason, steps_not_terminal, stale_lease, lease_still_valid,
}
use paceq.Model.Guards.{Guards, available}

abbrev pub defer_reason_after_crash : String
defer_reason_after_crash = "reconciled_after_crash"

abbrev pub defer_reason_after_shutdown : String
defer_reason_after_shutdown = "requeued_after_shutdown"

-- The results of a machine: the next state, the effects, and the refusal if there is one.
abbrev pub Outcome : Type 0 → Type 0
Outcome S = S × List Effect × Option Refusal

unfoldable pub require_reason : State → Event → State → Guards → Option Refusal
require_reason from ev to g =
    if str_eq g.reason_code "" then some (guard_error from ev to missing_reason_code) else none

-- `if err := requireReason(...); err != nil { return cur, nil, err }`, then the arm's result.
abbrev pub unless : {S : Type 0} → Option Refusal → S → S × List Effect → Outcome S
unless none cur (next, fx) = (next, fx, none)
unless (some e) cur _ = (cur, [], some e)

-- A refusal moves nothing and demands nothing.
abbrev pub refuse : {S : Type 0} → S → Refusal → Outcome S
refuse cur e = (cur, [], some e)

-- A run-level failure outranks the steps, a failed step a cancelled one.
unfoldable pub terminal_verdict : Guards → RunState × String
terminal_verdict g =
    if g.run_level_failure
    then (failed, "run.failed")
    else if g.any_step_failed
    then (failed, "run.failed")
    else if g.any_step_cancelled
    then (cancelled, "run.cancelled")
    else (succeeded, "run.succeeded")

-- The arm (queued, claim).
on_claim : Guards → Outcome RunState
unfolding available require_reason
on_claim g =
    if g.cancel_requested
    then unless (require_reason (State.run queued) claim (State.run cancelled) g) queued
        (cancelled, act set_finished ∷ emit "run.cancelled" ∷ [])
    else if not (available g)
    then refuse queued (guard_error (State.run queued) claim (State.run running) not_available)
    else (
      running,
      act bump_epoch ∷ act take_lease ∷ act set_started ∷ emit "run.started" ∷ [],
      none,
    )

-- The arm (queued, deferred).
on_deferred : Guards → Outcome RunState
on_deferred g =
    if str_eq g.defer_reason ""
    then refuse queued
        (guard_error (State.run queued) deferred (State.run queued) missing_defer_reason)
    else (
      queued,
      act set_available_at ∷ defer_reason g.defer_reason ∷ emit "run.deferred" ∷ [],
      none,
    )

-- What the arms (running, all_steps_done) and (running, cancel_observed) share: the verdict, the
-- fence, the steps, the reason. `fx` makes the effects from the name of the verdict's event.
finish_run : Event → (String → List Effect) → Guards → Outcome RunState
unfolding terminal_verdict require_reason
finish_run ev fx g =
    let (next, name) = terminal_verdict g in
    if not g.lease_valid
    then refuse running (guard_error (State.run running) ev (State.run next) stale_lease)
    else if not g.all_steps_terminal
    then refuse running (guard_error (State.run running) ev (State.run next) steps_not_terminal)
    else unless (require_reason (State.run running) ev (State.run next) g) running (next, fx name)

-- The arm (running, lease_expired).
on_lease_expired : Guards → Outcome RunState
unfolding require_reason
on_lease_expired g =
    let next = if not g.crash_budget_left then failed else queued in
    let name = if not g.crash_budget_left then "run.poisoned" else "run.requeued" in
    if g.lease_valid
    then refuse running
        (guard_error (State.run running) lease_expired (State.run next) lease_still_valid)
    else if RunState.same next failed
    then unless (require_reason (State.run running) lease_expired (State.run next) g) running
        (next, act set_finished ∷ emit name ∷ [])
    else (
      next,
      act bump_epoch ∷ act inc_crash_count ∷ defer_reason defer_reason_after_crash ∷ emit name ∷ [],
      none,
    )

-- The arm (running, shutdown_drain).
on_drain : Guards → Outcome RunState
on_drain g =
    if not g.lease_valid
    then refuse running
        (guard_error (State.run running) shutdown_drain (State.run queued) stale_lease)
    else (
      queued,
      act bump_epoch
          ∷ act release_lease
          ∷ act set_available_at
          ∷ defer_reason defer_reason_after_shutdown
          ∷ emit "run.drained"
          ∷ [],
      none,
    )

-- The arm (terminal, operator_retry).
reopen : Outcome RunState
reopen = (queued, act bump_epoch ∷ emit "run.reopened" ∷ [], none)

unfoldable pub next_run_state : RunState → Event → Guards → Outcome RunState
unfolding on_claim on_deferred finish_run on_lease_expired on_drain reopen
next_run_state queued claim g = on_claim g
next_run_state queued deferred g = on_deferred g
next_run_state running all_steps_done g =
    finish_run all_steps_done (λ name. act set_finished ∷ act release_lease ∷ emit name ∷ []) g
next_run_state running cancel_observed g =
    finish_run cancel_observed
      (λ name. act kill_process_group ∷ act set_finished ∷ act release_lease ∷ emit name ∷ []) g
next_run_state running lease_expired g = on_lease_expired g
next_run_state running shutdown_drain g = on_drain g
next_run_state succeeded operator_retry g = reopen
next_run_state failed operator_retry g = reopen
next_run_state cancelled operator_retry g = reopen
next_run_state cur ev g = refuse cur (illegal_transition_error (State.run cur) ev)
