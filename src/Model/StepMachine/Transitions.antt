-- ===== src/Model/StepMachine/Transitions.antt =====
-- What the step machine accepts, as a relation, and what its refusals and endings carry.
use paceq.Base.{true, false, [], none, some, ◌≡◌, ◌≢◌, ◌↔◌, arith, eq_iff}
use paceq.Model.StepState.{
  StepState, pending, running, succeeded, failed, skipped, cancelled, is_terminal,
}
use paceq.Model.Event.{
  Event, step_started, step_succeeded, step_failed, upstream_failed, cancel_observed,
  operator_retry, shutdown_drain,
}
use paceq.Model.Effect.{
  count_kind, emit_event, set_finished, inc_attempt, restore_attempt, set_next_attempt_at,
}
use paceq.Model.Refusal.{Refusal}
use paceq.Model.Guards.{Guards}
use paceq.Model.RunMachine.{require_reason}
use paceq.Model.StepMachine.{next_step_state}

-- The moves that the step's life allows under the guards `g`.
pub data Allows (g : Guards) : StepState → Event → StepState → Type 0 where
  start : Allows g pending step_started running
  skip : g.reason_code ≢ "" → Allows g pending upstream_failed skipped
  succeed : g.reason_code ≢ "" → Allows g running step_succeeded succeeded
  retry : g.attempts_left ≡ true → g.reason_code ≢ "" → Allows g running step_failed pending
  fail : g.attempts_left ≡ false → g.reason_code ≢ "" → Allows g running step_failed failed
  stop : g.reason_code ≢ "" → Allows g running cancel_observed cancelled
  drop : g.reason_code ≢ "" → Allows g pending cancel_observed cancelled
  interrupt : g.reason_code ≢ "" → Allows g running shutdown_drain pending
  reopen_failed : Allows g failed operator_retry pending
  reopen_skipped : Allows g skipped operator_retry pending

ruleset moves =
    (start, skip, succeed, retry, fail, stop, drop, interrupt, reopen_failed, reopen_skipped)

abbrev pub Accepts : StepState → Event → Guards → StepState → Type 0
Accepts cur ev g to = ((next_step_state cur ev g).2 ≡ none) × ((next_step_state cur ev g).0 ≡ to)

Accepts-Allows :
    (cur : StepState) (ev : Event) (g : Guards) (to : StepState)
    → Accepts cur ev g to
    → Allows g cur ev to
unfolding next_step_state require_reason
Accepts-Allows cur ev g to h = grind (arith, moves, eq_iff)

Allows-Accepts :
    (cur : StepState) (ev : Event) (g : Guards) (to : StepState)
    → Allows g cur ev to
    → Accepts cur ev g to
unfolding next_step_state require_reason
Allows-Accepts cur ev g to start = ground arith
Allows-Accepts cur ev g to (skip r) = ground (arith, eq_iff g.reason_code "")
Allows-Accepts cur ev g to (succeed r) = ground (arith, eq_iff g.reason_code "")
Allows-Accepts cur ev g to (retry a r) = ground (arith, eq_iff g.reason_code "")
Allows-Accepts cur ev g to (fail a r) = ground (arith, eq_iff g.reason_code "")
Allows-Accepts cur ev g to (stop r) = ground (arith, eq_iff g.reason_code "")
Allows-Accepts cur ev g to (drop r) = ground (arith, eq_iff g.reason_code "")
Allows-Accepts cur ev g to (interrupt r) = ground (arith, eq_iff g.reason_code "")
Allows-Accepts cur ev g to reopen_failed = ground arith
Allows-Accepts cur ev g to reopen_skipped = ground arith

-- The step machine accepts an event and moves to `to` exactly when the relation of the step's life
-- has that move under the guards.
pub next_step_state-Allows :
    (cur : StepState) (ev : Event) (g : Guards) (to : StepState)
    → Accepts cur ev g to ↔ Allows g cur ev to
next_step_state-Allows cur ev g to = (Accepts-Allows cur ev g to, Allows-Accepts cur ev g to)

-- A refusal leaves the step as it was and demands no effect.
pub step_refusal_moves_nothing :
    (cur : StepState) (ev : Event) (g : Guards) {e : Refusal}
    → (next_step_state cur ev g).2 ≡ some e
    → ((next_step_state cur ev g).0 ≡ cur) × ((next_step_state cur ev g).1 ≡ [])
unfolding next_step_state require_reason
step_refusal_moves_nothing cur ev g h = ground arith

-- A transition writes one run_events row, and a refusal writes none.
pub step_one_event_each :
    (cur : StepState) (ev : Event) (g : Guards)
    → count_kind emit_event (next_step_state cur ev g).1
      ≡ elim (next_step_state cur ev g).2 [ none ↦ 1 | some _ ↦ 0 ]
unfolding next_step_state require_reason
step_one_event_each cur ev g = ground arith

-- A step that ends carries a reason code and stamps finished_at once, and it had not ended before.
pub step_ends_with_reason :
    (cur : StepState) (ev : Event) (g : Guards)
    → (next_step_state cur ev g).2 ≡ none
    → is_terminal (next_step_state cur ev g).0 ≡ true
    → (g.reason_code ≢ "")
      × (count_kind set_finished (next_step_state cur ev g).1 ≡ 1)
      × (is_terminal cur ≡ false)
unfolding next_step_state require_reason is_terminal
step_ends_with_reason cur ev g h t = ground (arith, eq_iff g.reason_code "")

-- An attempt is opened by a start alone, given back by a drain alone, and a step that returns to
-- pending is always given the time of its next attempt.
pub attempts_accounted :
    (cur : StepState) (ev : Event) (g : Guards)
    → (next_step_state cur ev g).2 ≡ none
    → let fx = (next_step_state cur ev g).1 in
      ((count_kind inc_attempt fx ≡ 1) ↔ ((next_step_state cur ev g).0 ≡ running))
      × ((count_kind restore_attempt fx ≡ 1) ↔ (ev ≡ shutdown_drain))
      × ((count_kind set_next_attempt_at fx ≡ 1) ↔ ((next_step_state cur ev g).0 ≡ pending))
unfolding next_step_state require_reason
attempts_accounted cur ev g h = ground arith
