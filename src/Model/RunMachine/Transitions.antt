-- ===== src/Model/RunMachine/Transitions.antt =====
-- What the run machine accepts: an independent reading of run_fsm.go as a relation, the fence, the
-- refusals and the one event of each transition.
use paceq.Base.{true, false, [], none, some, ◌≡◌, ◌≢◌, ◌↔◌, ◌≤◌, arith, eq_iff}
use paceq.Base.Int.{◌≤ℤ◌}
use paceq.Model.RunState.{RunState, queued, running, failed, cancelled, is_terminal}
use paceq.Model.Event.{
  Event, claim, deferred, all_steps_done, cancel_observed, lease_expired, operator_retry,
  shutdown_drain,
}
use paceq.Model.Effect.{count_kind, emit_event, set_finished, bump_epoch, take_lease}
use paceq.Model.Refusal.{Refusal}
use paceq.Model.Guards.{Guards, available}
use paceq.Model.RunMachine.{require_reason, terminal_verdict, next_run_state}

-- The moves that the run's life allows under the guards `g`.
pub data Allows (g : Guards) : RunState → Event → RunState → Type 0 where
  start : g.cancel_requested ≡ false → g.available_at ≤ℤ g.now → Allows g queued claim running
  cancel_early : g.cancel_requested ≡ true → g.reason_code ≢ "" → Allows g queued claim cancelled
  defer : g.defer_reason ≢ "" → Allows g queued deferred queued
  finish :
      g.lease_valid ≡ true
      → g.all_steps_terminal ≡ true
      → g.reason_code ≢ ""
      → Allows g running all_steps_done (terminal_verdict g).0
  stop :
      g.lease_valid ≡ true
      → g.all_steps_terminal ≡ true
      → g.reason_code ≢ ""
      → Allows g running cancel_observed (terminal_verdict g).0
  requeue :
      g.lease_valid ≡ false → g.crash_budget_left ≡ true → Allows g running lease_expired queued
  poison :
      g.lease_valid ≡ false
      → g.crash_budget_left ≡ false
      → g.reason_code ≢ ""
      → Allows g running lease_expired failed
  drain : g.lease_valid ≡ true → Allows g running shutdown_drain queued
  reopen : {s : RunState} → is_terminal s ≡ true → Allows g s operator_retry queued

abbrev pub Accepts : RunState → Event → Guards → RunState → Type 0
Accepts cur ev g to = ((next_run_state cur ev g).2 ≡ none) × ((next_run_state cur ev g).0 ≡ to)

ruleset moves = (start, cancel_early, defer, finish, stop, requeue, poison, drain, reopen)

pub Accepts-Allows :
    (cur : RunState) (ev : Event) (g : Guards) (to : RunState)
    → Accepts cur ev g to
    → Allows g cur ev to
unfolding next_run_state require_reason available is_terminal
Accepts-Allows cur ev g to h = grind (arith, moves, eq_iff)

pub Allows-Accepts :
    (cur : RunState) (ev : Event) (g : Guards) (to : RunState)
    → Allows g cur ev to
    → Accepts cur ev g to
unfolding next_run_state require_reason available is_terminal
Allows-Accepts cur ev g to (start c a) = ground arith
Allows-Accepts cur ev g to (cancel_early c r) = ground (arith, eq_iff g.reason_code "")
Allows-Accepts cur ev g to (defer r) = ground (arith, eq_iff g.defer_reason "")
Allows-Accepts cur ev g to (finish l t r) = ground (arith, eq_iff g.reason_code "")
Allows-Accepts cur ev g to (stop l t r) = ground (arith, eq_iff g.reason_code "")
Allows-Accepts cur ev g to (requeue l b) = ground arith
Allows-Accepts cur ev g to (poison l b r) = ground (arith, eq_iff g.reason_code "")
Allows-Accepts cur ev g to (drain l) = ground arith
Allows-Accepts cur ev g to (reopen t) = ground arith

-- The machine accepts an event and moves to `to` exactly when the relation of the run's life has
-- that move under the guards.
pub next_run_state-Allows :
    (cur : RunState) (ev : Event) (g : Guards) (to : RunState)
    → Accepts cur ev g to ↔ Allows g cur ev to
next_run_state-Allows cur ev g to = (Accepts-Allows cur ev g to, Allows-Accepts cur ev g to)

-- A refusal leaves the state as it was and demands no effect.
pub run_refusal_moves_nothing :
    (cur : RunState) (ev : Event) (g : Guards) {e : Refusal}
    → (next_run_state cur ev g).2 ≡ some e
    → ((next_run_state cur ev g).0 ≡ cur) × ((next_run_state cur ev g).1 ≡ [])
unfolding next_run_state require_reason available
run_refusal_moves_nothing cur ev g h = ground arith

-- A transition writes one run_events row, and a refusal writes none.
pub run_one_event_each :
    (cur : RunState) (ev : Event) (g : Guards)
    → count_kind emit_event (next_run_state cur ev g).1
      ≡ elim (next_run_state cur ev g).2 [ none ↦ 1 | some _ ↦ 0 ]
unfolding next_run_state require_reason available
run_one_event_each cur ev g = ground arith

-- A run that ends carries a reason code, stamps finished_at, and ended by one of its four endings.
pub run_ends_with_reason :
    (cur : RunState) (ev : Event) (g : Guards)
    → (next_run_state cur ev g).2 ≡ none
    → is_terminal (next_run_state cur ev g).0 ≡ true
    → (g.reason_code ≢ "")
      × (count_kind set_finished (next_run_state cur ev g).1 ≡ 1)
      × (is_terminal cur ≡ false)
unfolding next_run_state require_reason available is_terminal terminal_verdict
run_ends_with_reason cur ev g h t = ground (arith, eq_iff g.reason_code "")

-- Only an operator's retry leaves a terminal state, and it always does.
pub terminal_leaves_iff :
    (cur : RunState) (ev : Event) (g : Guards)
    → is_terminal cur ≡ true
    → ((next_run_state cur ev g).2 ≡ none) ↔ (ev ≡ operator_retry)
unfolding next_run_state is_terminal
terminal_leaves_iff cur ev g t = ground arith

-- A run starts running only with the epoch raised and the lease taken, and is never running by any
-- other event.
pub running_takes_lease :
    (cur : RunState) (ev : Event) (g : Guards)
    → (next_run_state cur ev g).2 ≡ none
    → let fx = (next_run_state cur ev g).1 in
      ((next_run_state cur ev g).0 ≡ running
        → (cur ≡ queued) × (ev ≡ claim) × (count_kind take_lease fx ≡ 1))
      × (count_kind take_lease fx ≤ count_kind bump_epoch fx)
unfolding next_run_state require_reason available terminal_verdict
running_takes_lease cur ev g h = ground arith
