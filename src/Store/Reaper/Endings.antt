-- ===== src/Store/Reaper/Endings.antt =====
-- The arm of a cancellation, and the steps of a run that the reaper fails.
use paceq.Base.{String, true, false, List, [], ◌∷◌, some, ◌≡◌, refl, ap, ◌∙◌, arith, map, str_eq}
use paceq.Base.Tests.{if◌then◌else◌}
use paceq.Base.Lists.{select, all}
use paceq.Base.Int.{ℤ}
use paceq.Base.Result.{Result, ok, ◌>>=◌}
use paceq.Model.RunState.{RunState}
use paceq.Model.StepState.{StepState, pending, running, skipped}
use paceq.Model.StepState
use paceq.Model.RunMachine.{require_reason}
use paceq.Model.StepMachine.{next_step_state}
use paceq.Store.Rows.{RunRow, StepRow, Db, find_run}
use paceq.Store.Fence.{Error}
use paceq.Store.Finish.{step_states, all_steps_terminal}
use paceq.Store.CloseOut.{is_of_run, mark_closed, mark_stopped, skip_ending}
use paceq.Store.CloseOut.Ended.{IsEnding}
use paceq.Store.CloseOut.Cancelled.{
  all-sort, closed, close_out_cancelled_steps_lem, closed-all_steps_terminal,
}
use paceq.Store.Reaper.{checked, ReapedRun, reap_to_aggregate, reap_to_cancelled}
use paceq.Store.Reaper.Lost.{Moved}
use paceq.Store.Reaper.Loop.{NoneRunning}
use paceq.Store.Reaper.Verdict.{checked_lem, is_timely, Reaped, reap_to_aggregate-Reaped}

-- An arm that succeeds, and what it leaves.
abbrev pub Decides : Db → ℤ → RunRow → Result Error (ReapedRun × Db) → Type 0
Decides db max_crash run result =
    (answer : ReapedRun) × (after : Db) × (result ≡ ok (answer, after))
    × Reaped db max_crash run answer after

closed-Moved :
    (run_id : String) (now_ms : ℤ) (steps after : List StepRow)
    → after ≡ map (closed run_id now_ms) steps
    → Moved run_id steps after
unfolding closed mark_stopped mark_closed
closed-Moved run_id now_ms steps after e = record {
  to = closed run_id now_ms;
  moved = e;
  same_run = λ s. ground arith;
  same_name = λ s. ground arith;
  spared = λ s. ground arith;
}

pub reap_to_cancelled-Reaped :
    (db : Db) (max_crash : ℤ) (run : RunRow) (now_ms : ℤ)
    → find_run run.id db.runs ≡ some run
    → run.state ≡ RunState.running
    → is_timely now_ms run ≡ true
    → Decides db max_crash run (reap_to_cancelled run now_ms db)
unfolding reap_to_cancelled
reap_to_cancelled-Reaped db max_crash run now_ms found p w =
    let (shut, e, steps, runs, events) = close_out_cancelled_steps_lem run.id now_ms db in
    let ended =
      ap (λ l. all_steps_terminal (step_states run.id l)) steps
      ∙ closed-all_steps_terminal run.id now_ms db.steps in
    let reaped =
      reap_to_aggregate-Reaped db shut max_crash run now_ms found p w runs
        (closed-Moved run.id now_ms db.steps shut.steps steps) ended events in
    (
      (reap_to_aggregate run now_ms shut).0,
      (reap_to_aggregate run now_ms shut).1,
      ap (λ r. r >>= (λ c. checked run.id (reap_to_aggregate run now_ms c))) e
          ∙ checked_lem db max_crash run (reap_to_aggregate run now_ms shut) reaped,
      reaped,
    )

pub skip_ending-IsEnding : (now_ms : ℤ) → IsEnding (skip_ending now_ms "STEP_SKIPPED_RUN_ABANDONED")
unfolding next_step_state require_reason mark_closed
skip_ending-IsEnding now_ms = record {
  to = skipped;
  effects = _;
  moves = refl;
  same_run = λ s. refl;
  same_name = λ s. refl;
  set_state = λ s. refl;
  left = refl;
}

abbrev pub abandoned : String → ℤ → StepRow → StepRow
abandoned run_id now_ms s =
    if is_of_run pending run_id s
    then mark_closed skipped "STEP_SKIPPED_RUN_ABANDONED" now_ms s
    else s

pub abandoned-Moved :
    (run_id : String) (now_ms : ℤ) (steps after : List StepRow)
    → after ≡ map (abandoned run_id now_ms) steps
    → Moved run_id steps after
unfolding mark_closed
abandoned-Moved run_id now_ms steps after e = record {
  to = abandoned run_id now_ms;
  moved = e;
  same_run = λ s. ground arith;
  same_name = λ s. ground arith;
  spared = λ s. ground arith;
}

-- With no step running and none pending, all are terminal.
abandoned_ends :
    (run_id : String) (now_ms : ℤ) (s : StepRow) (st : StepState)
    → s.state ≡ st
    → str_eq s.run_id run_id ≡ true
    → is_of_run running run_id s ≡ false
    → StepState.is_terminal (abandoned run_id now_ms s).state ≡ true
unfolding mark_closed StepState.is_terminal
abandoned_ends run_id now_ms s pending e at n = ground arith
abandoned_ends run_id now_ms s running e at n = ground arith
abandoned_ends run_id now_ms s StepState.succeeded e at n = ground arith
abandoned_ends run_id now_ms s StepState.failed e at n = ground arith
abandoned_ends run_id now_ms s skipped e at n = ground arith
abandoned_ends run_id now_ms s StepState.cancelled e at n = ground arith

abandoned_run :
    (run_id : String) (now_ms : ℤ) (s : StepRow) → (abandoned run_id now_ms s).run_id ≡ s.run_id
unfolding mark_closed
abandoned_run run_id now_ms s = ground arith

all-abandoned :
    (run_id : String) (now_ms : ℤ) (l : List StepRow)
    → NoneRunning run_id l
    → all StepState.is_terminal (
        map (λ t. t.state) (select (λ t. str_eq t.run_id run_id) (map (abandoned run_id now_ms) l)))
      ≡ true
all-abandoned run_id now_ms [] h = refl
all-abandoned run_id now_ms (s ∷ rest) h = ground (
  arith,
  all-abandoned run_id now_ms rest,
  abandoned_run run_id now_ms s,
  abandoned_ends run_id now_ms s s.state refl,
)

pub abandoned-all_steps_terminal :
    (run_id : String) (now_ms : ℤ) (l : List StepRow)
    → NoneRunning run_id l
    → all_steps_terminal (step_states run_id (map (abandoned run_id now_ms) l)) ≡ true
unfolding all_steps_terminal step_states
abandoned-all_steps_terminal run_id now_ms l h =
    all-sort StepState.is_terminal
      (select (λ t. str_eq t.run_id run_id) (map (abandoned run_id now_ms) l))
    ∙ all-abandoned run_id now_ms l h
