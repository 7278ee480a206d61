-- ===== src/Model/Aggregate.antt =====
-- internal/model/aggregate.go: the run state that a set of steps implies.
pub mod Verdict
use paceq.Base.{Bool, true, false, ◌&&◌, List, [], ◌∷◌}
use paceq.Base.Tests.{if◌then◌else◌}
use paceq.Model.RunState.{RunState}
use paceq.Model.RunState
use paceq.Model.StepState.{StepState, pending, running, succeeded, failed, skipped, cancelled}

-- The three flags of the loop.
pub record Seen : Type 0 where
  pub active : Bool
  pub failure : Bool
  pub cancel : Bool

-- The body of the loop: one step's state read into the flags.
unfoldable pub note : Seen → StepState → Seen
note f pending = record f { active = true }
note f running = record f { active = true }
note f failed = record f { failure = true }
note f cancelled = record f { cancel = true }
note f succeeded = f
note f skipped = f

unfoldable pub scan : Seen → List StepState → Seen
unfolding note
scan f [] = f
scan f (s ∷ rest) = scan (note f s) rest

-- The switch after the loop.
unfoldable pub rank : Seen → RunState
rank f =
    if f.active
    then RunState.running
    else if f.failure
    then RunState.failed
    else if f.cancel
    then RunState.cancelled
    else RunState.succeeded

unfoldable pub run_aggregate : List StepState → Bool → RunState
unfolding scan rank
run_aggregate steps run_level_failure =
    if run_level_failure
    then RunState.failed
    else rank (scan (record { active = false; failure = false; cancel = false }) steps)

unfoldable pub run_state_agrees : RunState → List StepState → Bool → Bool
unfolding run_aggregate
run_state_agrees have steps run_level_failure =
    let want = run_aggregate steps run_level_failure in
    if RunState.same want have
    then true
    else RunState.same want RunState.running && RunState.same have RunState.queued
