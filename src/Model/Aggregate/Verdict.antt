-- ===== src/Model/Aggregate/Verdict.antt =====
-- What the fold of aggregate.go answers, and that the run machine ranks its endings the same way.
use mathlib.Core.Logic.{∥∥₁_elim}
use mathlib.Core.List.{Perm, Permᴰ}
use mathlib.Core.Bool.{Bool-set}
use paceq.Base.{Bool, true, false, ◌||◌, List, [], ◌∷◌, ◌≡◌, refl, ◌∙◌, ◌⊎◌, ◌↔◌, arith}
use paceq.Base.Tests.{if◌then◌else◌}
use paceq.Base.Lists.{any, all}
use paceq.Model.RunState.{RunState}
use paceq.Model.StepState.{StepState, pending, running, succeeded, failed, skipped, cancelled}
use paceq.Model.StepState
use paceq.Model.Guards.{Guards}
use paceq.Model.RunMachine.{terminal_verdict}
use paceq.Model.Aggregate.{Seen, note, scan, rank, run_aggregate, run_state_agrees}

abbrev pub is_active : StepState → Bool
is_active s = StepState.same s pending || StepState.same s running

abbrev pub is_failed : StepState → Bool
is_failed s = StepState.same s failed

abbrev pub is_cancelled : StepState → Bool
is_cancelled s = StepState.same s cancelled

-- The loop computes three searches.
pub scan-any :
    (f : Seen) (steps : List StepState)
    → scan f steps ≡ record {
      active = f.active || any is_active steps;
      failure = f.failure || any is_failed steps;
      cancel = f.cancel || any is_cancelled steps;
    }
unfolding scan note
scan-any f [] = ground arith
scan-any f (pending ∷ rest) = ground (arith, scan-any (note f pending) rest)
scan-any f (running ∷ rest) = ground (arith, scan-any (note f running) rest)
scan-any f (succeeded ∷ rest) = ground (arith, scan-any f rest)
scan-any f (failed ∷ rest) = ground (arith, scan-any (note f failed) rest)
scan-any f (skipped ∷ rest) = ground (arith, scan-any f rest)
scan-any f (cancelled ∷ rest) = ground (arith, scan-any (note f cancelled) rest)

abbrev start : Seen
start = record { active = false; failure = false; cancel = false }

-- The order of the verdicts: a run-level failure, then work outstanding, then a failed step, then a
-- cancelled one, and success for the rest.
pub run_aggregate_lem :
    (steps : List StepState) (rlf : Bool)
    → run_aggregate steps rlf ≡ (
        if rlf
        then RunState.failed
        else if any is_active steps
        then RunState.running
        else if any is_failed steps
        then RunState.failed
        else if any is_cancelled steps
        then RunState.cancelled
        else RunState.succeeded)
unfolding run_aggregate rank
run_aggregate_lem steps rlf = ground (arith, scan-any start steps)

pub none_active :
    (steps : List StepState) → all StepState.is_terminal steps ≡ true → any is_active steps ≡ false
unfolding StepState.is_terminal
none_active [] h = refl
none_active (pending ∷ rest) h = cc
none_active (running ∷ rest) h = cc
none_active (succeeded ∷ rest) h = none_active rest h
none_active (failed ∷ rest) h = none_active rest h
none_active (skipped ∷ rest) h = none_active rest h
none_active (cancelled ∷ rest) h = none_active rest h

-- When the steps have all ended and the guards say what is among them, the machine's verdict is the
-- state that the steps aggregate to (I10).
pub terminal_verdict-run_aggregate :
    (g : Guards) (steps : List StepState)
    → g.any_step_failed ≡ any is_failed steps
    → g.any_step_cancelled ≡ any is_cancelled steps
    → all StepState.is_terminal steps ≡ true
    → (terminal_verdict g).0 ≡ run_aggregate steps g.run_level_failure
unfolding terminal_verdict
terminal_verdict-run_aggregate g steps f c t =
    ground (arith, run_aggregate_lem steps g.run_level_failure, none_active steps t)

any-Permᴰ : (p : StepState → Bool) {xs ys : List StepState} → Permᴰ xs ys → any p xs ≡ any p ys
any-Permᴰ p Permᴰ.nil = refl
any-Permᴰ p (Permᴰ.cons e h) = rw (e, any-Permᴰ p h)
any-Permᴰ p (Permᴰ.swap e f) = rw (e, f) (ground arith)
any-Permᴰ p (Permᴰ.trans h k) = any-Permᴰ p h ∙ any-Permᴰ p k

any-Perm : (p : StepState → Bool) {xs ys : List StepState} → Perm xs ys → any p xs ≡ any p ys
any-Perm p h = ∥∥₁_elim h (Bool-set _ _) (any-Permᴰ p)

-- The fold does not depend on the order of the step rows.
pub run_aggregate-Perm :
    {xs ys : List StepState} (rlf : Bool) → Perm xs ys → run_aggregate xs rlf ≡ run_aggregate ys rlf
run_aggregate-Perm {xs} {ys} rlf h = rw (
  run_aggregate_lem xs rlf,
  run_aggregate_lem ys rlf,
  any-Perm is_active h,
  any-Perm is_failed h,
  any-Perm is_cancelled h,
)

-- A stored run state is permitted exactly when it is the aggregate, or is queued over work that is
-- outstanding.
pub run_state_agrees_iff :
    (have : RunState) (steps : List StepState) (rlf : Bool)
    → (run_state_agrees have steps rlf ≡ true) ↔ (
        (have ≡ run_aggregate steps rlf)
        ⊎ ((have ≡ RunState.queued) × (rlf ≡ false) × (any is_active steps ≡ true)))
unfolding run_state_agrees
run_state_agrees_iff have steps rlf = ground (arith, run_aggregate_lem steps rlf)
