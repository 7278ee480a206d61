-- ===== src/Model/Examples.antt =====
-- The theorems about the state machines at concrete inputs.
use paceq.Base.{Bool, true, false, List, [], ◌∷◌, none, ◌≡◌, refl, ◌↔◌, ◌⊎◌, ℕ, ◌≤◌, arith}
use paceq.Base.Int.{pos, ◌+ℤ◌}
use paceq.Model.Guards.{Guards}
use paceq.Model.RunState.{RunState}
use paceq.Model.StepState.{StepState}
use paceq.Model.StepState
use paceq.Model.Event.{Event}
use paceq.Model.Effect.{count_kind, bump_epoch, take_lease}
use paceq.Model.Refusal.{guard_error, stale_lease}
use paceq.Model.State.{State}
use paceq.Model.RunMachine.{next_run_state, terminal_verdict, require_reason}
use paceq.Model.RunMachine.Transitions as RunMoves
use paceq.Model.RunMachine.Transitions.{
  next_run_state-Allows, run_refusal_moves_nothing, run_ends_with_reason, running_takes_lease,
}
use paceq.Model.StepMachine.{next_step_state}
use paceq.Model.StepMachine.Transitions as StepMoves
use paceq.Model.StepMachine.Transitions.{
  next_step_state-Allows, step_refusal_moves_nothing, step_ends_with_reason, attempts_accounted,
}
use paceq.Model.Aggregate.{run_aggregate, run_state_agrees}
use paceq.Model.Aggregate.Verdict.{terminal_verdict-run_aggregate, run_state_agrees_iff}
use paceq.Model.Apply.{Input, apply_run}
use paceq.Model.Apply.Histories.{Reach, Stopped, apply_run-Reach, apply_run-Stopped}
use paceq.Model.Breaker.{sensor_breaker_admits}
use paceq.Model.Breaker.Histories.{
  Evaluation, burned, last_burn, commit_all, commit_all_row, held_back_iff,
}

abbrev guards : Guards
guards = record {
  now = pos 100;
  available_at = pos 40;
  cancel_requested = false;
  lease_valid = true;
  attempts_left = true;
  any_step_failed = true;
  any_step_cancelled = false;
  all_steps_terminal = true;
  crash_budget_left = true;
  run_level_failure = false;
  reason_code = "RUN_FAILED_STEP";
  defer_reason = "";
}

abbrev stale : Guards
stale = record guards { lease_valid = false }

next_run_state-Allows_example :
    ((next_run_state RunState.queued Event.claim guards).2 ≡ none)
    × ((next_run_state RunState.queued Event.claim guards).0 ≡ RunState.running)
next_run_state-Allows_example =
    (next_run_state-Allows RunState.queued Event.claim guards RunState.running).1
      (RunMoves.start refl (omega arith))

running_takes_lease_example :
    count_kind take_lease (next_run_state RunState.queued Event.claim guards).1
    ≤ count_kind bump_epoch (next_run_state RunState.queued Event.claim guards).1
unfolding next_run_state
running_takes_lease_example = (running_takes_lease RunState.queued Event.claim guards refl).1

next_step_state-Allows_example :
    ((next_step_state StepState.running Event.step_failed guards).2 ≡ none)
    × ((next_step_state StepState.running Event.step_failed guards).0 ≡ StepState.pending)
next_step_state-Allows_example =
    (next_step_state-Allows StepState.running Event.step_failed guards StepState.pending).1
      (StepMoves.retry refl (λ e. cc))

step_refusal_moves_nothing_example :
    (next_step_state StepState.succeeded Event.operator_retry guards).0 ≡ StepState.succeeded
unfolding next_step_state
step_refusal_moves_nothing_example =
    (step_refusal_moves_nothing StepState.succeeded Event.operator_retry guards refl).0

abbrev ended : List StepState
ended = StepState.succeeded ∷ StepState.failed ∷ StepState.skipped ∷ []

terminal_verdict-run_aggregate_example : (terminal_verdict guards).0 ≡ run_aggregate ended false
unfolding StepState.is_terminal
terminal_verdict-run_aggregate_example = terminal_verdict-run_aggregate guards ended refl refl refl

run_state_agrees_iff_example :
    (run_state_agrees RunState.queued (StepState.pending ∷ []) false ≡ true) ↔ (
      (RunState.queued ≡ run_aggregate (StepState.pending ∷ []) false)
      ⊎ ((RunState.queued ≡ RunState.queued)
          × (◌≡◌ {A = Bool} false false)
          × (◌≡◌ {A = Bool} true true)))
run_state_agrees_iff_example = run_state_agrees_iff RunState.queued (StepState.pending ∷ []) false

abbrev life : List Input
life =
    record { event = Event.claim; guards = guards }
    ∷ record { event = Event.all_steps_done; guards = guards }
    ∷ record { event = Event.operator_retry; guards = guards }
    ∷ []

apply_run-Reach_example : Reach RunState.queued life (apply_run RunState.queued life).0
unfolding apply_run next_run_state require_reason
apply_run-Reach_example = apply_run-Reach RunState.queued life refl

abbrev broken : List Input
broken =
    record { event = Event.claim; guards = guards }
    ∷ record { event = Event.all_steps_done; guards = stale }
    ∷ []

apply_run-Stopped_example : Stopped RunState.queued broken (apply_run RunState.queued broken).0 (
    guard_error
      (State.run RunState.running)
      Event.all_steps_done
      (State.run RunState.failed)
      stale_lease)
unfolding apply_run next_run_state require_reason
apply_run-Stopped_example = apply_run-Stopped RunState.queued broken refl

abbrev error_at : ℕ → Evaluation
error_at n = record { errored = true; exempt = false; at = pos n }

abbrev down : List Evaluation
down =
    error_at 10
    ∷ error_at 9
    ∷ error_at 8
    ∷ error_at 7
    ∷ error_at 6
    ∷ error_at 5
    ∷ error_at 4
    ∷ error_at 3
    ∷ error_at 2
    ∷ error_at 1
    ∷ []

commit_all_row_example : (commit_all down).failures ≡ pos 10
unfolding commit_all burned
commit_all_row_example = (commit_all_row down (omega arith)).0

held_back_iff_example :
    sensor_breaker_admits (commit_all down).failures (commit_all down).opened_at (pos 11) (pos 5)
    ≡ false
unfolding burned last_burn ◌+ℤ◌
held_back_iff_example =
    (held_back_iff down (pos 11) (pos 5) (omega arith)).1 (omega arith, (λ e. cc), omega arith)
