-- ===== src/Store/CloseOut/Cancelled.antt =====
-- The close-out of a cancellation leaves no step of the run open.
use paceq.Base.{
  ◌≤◌, String, Bool, true, ◌&&◌, List, [], ◌∷◌, ◌≡◌, refl, arith, eq_iff, str_eq, ap, ◌∙◌, map,
}
use paceq.Base.Tests.{if◌then◌else◌}
use paceq.Base.Lists.{select, length, all}
use paceq.Base.Int.{ℤ}
use paceq.Base.Result.{ok}
use paceq.Model.StepState
use paceq.Model.StepState.{StepState, pending, running, succeeded, failed, skipped, cancelled}
use paceq.Model.StepMachine.{next_step_state}
use paceq.Model.RunMachine.{require_reason}
use paceq.Store.Rows.{StepRow, Db}
use paceq.Store.Skip.{sort_by_idx, insert_by_idx}
use paceq.Store.Finish.{step_states, all_steps_terminal}
use paceq.Store.CloseOut.{
  mark_stopped, mark_closed, is_of_run, stop_ending, cancel_ending, cancel_running_steps,
  cancel_pending_steps, close_out_cancelled_steps,
}
use paceq.Store.CloseOut.Ended.{IsEnding, end_steps_lem}

stop_ending-IsEnding : (now_ms : ℤ) → IsEnding (stop_ending now_ms)
unfolding next_step_state require_reason mark_stopped
stop_ending-IsEnding now_ms = record {
  to = cancelled;
  effects = _;
  moves = refl;
  same_run = λ s. refl;
  same_name = λ s. refl;
  set_state = λ s. refl;
  left = refl;
}

cancel_ending-IsEnding : (now_ms : ℤ) → IsEnding (cancel_ending now_ms "STEP_CANCELLED")
unfolding next_step_state require_reason mark_closed
cancel_ending-IsEnding now_ms = record {
  to = cancelled;
  effects = _;
  moves = refl;
  same_run = λ s. refl;
  same_name = λ s. refl;
  set_state = λ s. refl;
  left = refl;
}

-- What the two close-outs make of a row.
unfoldable pub closed : String → ℤ → StepRow → StepRow
unfolding mark_stopped mark_closed
closed run_id now_ms s =
    if is_of_run running run_id s
    then mark_stopped now_ms s
    else if is_of_run pending run_id s
    then mark_closed cancelled "STEP_CANCELLED" now_ms s
    else s

abbrev stopped_row : String → ℤ → StepRow → StepRow
stopped_row run_id now_ms s = if is_of_run running run_id s then mark_stopped now_ms s else s

abbrev cancelled_row : String → ℤ → StepRow → StepRow
cancelled_row run_id now_ms s =
    if is_of_run pending run_id s then mark_closed cancelled "STEP_CANCELLED" now_ms s else s

closed_lem :
    (run_id : String) (now_ms : ℤ) (s : StepRow)
    → cancelled_row run_id now_ms (stopped_row run_id now_ms s) ≡ closed run_id now_ms s
unfolding closed mark_stopped mark_closed
closed_lem run_id now_ms s = ground arith

pub closed_run :
    (run_id : String) (now_ms : ℤ) (s : StepRow) → (closed run_id now_ms s).run_id ≡ s.run_id
unfolding closed mark_stopped mark_closed
closed_run run_id now_ms s = ground arith

closed_ends :
    (run_id : String) (now_ms : ℤ) (s : StepRow)
    → s.run_id ≡ run_id
    → StepState.is_terminal (closed run_id now_ms s).state ≡ true
unfolding closed mark_stopped mark_closed StepState.is_terminal
closed_ends run_id now_ms s e = go s.state refl
  where
    go :
        (st : StepState)
        → s.state ≡ st
        → StepState.is_terminal (closed run_id now_ms s).state ≡ true
    go st h = ground (arith, eq_iff s.run_id run_id)

-- The order of the steps does not matter to a test of them all.
all-insert :
    (p : StepState → Bool) (s : StepRow) (l : List StepRow)
    → all p (map (λ t. t.state) (insert_by_idx s l)) ≡ (p s.state && all p (map (λ t. t.state) l))
unfolding insert_by_idx
all-insert p s [] = refl
all-insert p s (t ∷ rest) = ground (arith, all-insert p s rest)

pub all-sort :
    (p : StepState → Bool) (l : List StepRow)
    → all p (map (λ t. t.state) (sort_by_idx l)) ≡ all p (map (λ t. t.state) l)
unfolding sort_by_idx
all-sort p [] = refl
all-sort p (s ∷ rest) =
    all-insert p s (sort_by_idx rest) ∙ ap (λ b. p s.state && b) (all-sort p rest)

all_closed :
    (run_id : String) (now_ms : ℤ) (l : List StepRow)
    → all StepState.is_terminal
        (map (λ t. t.state) (select (λ t. str_eq t.run_id run_id) (map (closed run_id now_ms) l)))
      ≡ true
all_closed run_id now_ms [] = refl
all_closed run_id now_ms (s ∷ rest) = ground (
  arith,
  all_closed run_id now_ms rest,
  closed_run run_id now_ms s,
  eq_iff s.run_id run_id,
  closed_ends run_id now_ms s,
)

-- Every step of the run has ended.
pub closed-all_steps_terminal :
    (run_id : String) (now_ms : ℤ) (steps : List StepRow)
    → all_steps_terminal (step_states run_id (map (closed run_id now_ms) steps)) ≡ true
unfolding all_steps_terminal step_states
closed-all_steps_terminal run_id now_ms steps =
    all-sort StepState.is_terminal
      (select (λ t. str_eq t.run_id run_id) (map (closed run_id now_ms) steps))
    ∙ all_closed run_id now_ms steps

map-map :
    (f g h : StepRow → StepRow) (l : List StepRow)
    → ((s : StepRow) → f (g s) ≡ h s)
    → map f (map g l) ≡ map h l
map-map f g h [] e = refl
map-map f g h (s ∷ rest) e = rw (e s, map-map f g h rest e) refl

pub close_out_cancelled_steps_lem :
    (run_id : String) (now_ms : ℤ) (db : Db)
    → (after : Db) × (close_out_cancelled_steps run_id now_ms db ≡ ok after)
      × (after.steps ≡ map (closed run_id now_ms) db.steps)
      × (after.runs ≡ db.runs)
      × (length db.events ≤ length after.events)
unfolding close_out_cancelled_steps cancel_running_steps cancel_pending_steps
close_out_cancelled_steps_lem run_id now_ms db =
    let (stopped, e, steps, runs, events) =
      end_steps_lem (stop_ending now_ms) (stop_ending-IsEnding now_ms) run_id now_ms db in
    let (after, e', steps', runs', events') =
      end_steps_lem (cancel_ending now_ms "STEP_CANCELLED") (cancel_ending-IsEnding now_ms) run_id
        now_ms stopped in
    (
      after,
      rw e e',
      steps'
          ∙ (ap (λ l. map (cancelled_row run_id now_ms) l) steps
              ∙ map-map (cancelled_row run_id now_ms) (stopped_row run_id now_ms)
                  (closed run_id now_ms) db.steps (closed_lem run_id now_ms)),
      runs' ∙ runs,
      omega (arith, events, events'),
    )
