-- ===== src/Store/Reaper/Verdict.antt =====
-- How an arm of the reaper ends: the row that it leaves, and the verdict that it reads off the steps.
use std.Path.{subst}
use paceq.Base.Result.{ok}
use paceq.Base.{
  Bool, ◌&&◌, ◌+◌, ◌≤◌, ◌<◌, String, true, false, List, [], ◌∷◌, none, some, ◌≡◌, refl, sym, ap,
  ◌∙◌, ◌⊎◌, inl, inr, arith, eq_iff, map, str_eq,
}
use paceq.Base.Tests.{if◌then◌else◌, Bool-cases, leb}
use paceq.Base.Lists.{select, all, length, length-append}
use paceq.Base.Int.{ℤ, pos, ltb_ℤ}
use paceq.Model.RunState.{RunState}
use paceq.Model.StepState.{StepState, pending, running, skipped}
use paceq.Model.StepState
use paceq.Model.Aggregate.{run_aggregate}
use paceq.Model.Aggregate.Verdict.{terminal_verdict-run_aggregate}
use paceq.Model.RunMachine.{terminal_verdict}
use paceq.Store.Rows.{
  starts_by, is_timed, RunRow, StepRow, Db, find_run, update_runs, append_run_event,
}
use paceq.Store.Rows.Keys.{find_run-update, find_run-update_other}
use paceq.Store.Finish.{is_run_level_failure, step_states, all_steps_terminal, any_step_is}
use paceq.Store.CloseOut.Cancelled.{all-sort}
use paceq.Store.ObserveCancel.{
  cancel_guards, cancel_reason, terminal_data, read_steps, is_requested,
}
use paceq.Store.Handback.{is_epoch_row}
use paceq.Store.Reaper.{checked, ReapedRun, reap_closed_row, write_reaped, reap_to_aggregate}
use paceq.Store.Reaper.Lost.{Moved}
use paceq.Store.Reaper.Loop.{NoneRunning}

-- The run did not start after this time, and its row meets the schema's CHECK.
abbrev pub is_timely : ℤ → RunRow → Bool
is_timely now_ms r = starts_by now_ms r && is_timed r

pub and_both : (a b : Bool) → (a && b) ≡ true → (a ≡ true) × (b ≡ true)
and_both a b h = ground arith

-- What a run that the reaper has decided leaves, and what the reaper answers.
pub record Reaped (db : Db) (max_crash : ℤ) (run : RunRow) (answer : ReapedRun) (after : Db)
    : Type 0 where
  pub row : RunRow
  pub runs_read :
      (id : String)
      → find_run id after.runs ≡ (if str_eq id run.id then some row else find_run id db.runs)
  pub answered : (answer.id ≡ run.id) × (answer.state ≡ row.state)
  pub released : row.lease_owner ≡ none
  pub fenced : (row.lease_epoch ≡ run.lease_epoch + 1) × (answer.lease_epoch ≡ row.lease_epoch)
  pub counted : row.crash_count ≡ run.crash_count + 1
  pub steps_moved : Moved run.id db.steps after.steps
  pub none_running : NoneRunning run.id after.steps
  pub told : length db.events < length after.events
  pub fate :
      ((row.state ≡ RunState.queued)
        × (is_requested run ≡ false)
        × (ltb_ℤ max_crash (pos (run.crash_count + 1)) ≡ false)
        × (leb run.max_attempts run.attempt ≡ false)
        × (all_steps_terminal (step_states run.id after.steps) ≡ false))
      ⊎ ((all_steps_terminal (step_states run.id after.steps) ≡ true)
          × (row.state
              ≡ run_aggregate
                  (step_states run.id after.steps)
                  (is_run_level_failure answer.reason_code))
          × (row.reason_code ≡ some answer.reason_code))
  pub timed : is_timed row ≡ true
  pub concluded :
      (all_steps_terminal (step_states run.id db.steps) ≡ false)
      ⊎ (row.state ≡ run_aggregate (step_states run.id after.steps) false)

-- The CHECK is met.
pub checked_lem :
    (db : Db) (max_crash : ℤ) (run : RunRow) (x : ReapedRun × Db)
    → Reaped db max_crash run x.0 x.1
    → checked run.id x ≡ ok x
unfolding checked
checked_lem db max_crash run x h =
    let self : str_eq run.id run.id ≡ true = ground (arith, eq_iff run.id run.id) in
    let found =
      h.runs_read run.id ∙ ap (λ b. if b then some h.row else find_run run.id db.runs) self in
    rw (found, checked) (rw (h.timed) refl)

is_epoch_row_self :
    (run : RunRow) → run.state ≡ RunState.running → is_epoch_row run.id run.lease_epoch run ≡ true
is_epoch_row_self run p = ground (arith, eq_iff run.id run.id)

is_epoch_row-id :
    (id : String) (run r : RunRow)
    → is_epoch_row run.id run.lease_epoch r ≡ true
    → str_eq r.id run.id ≡ true
is_epoch_row-id id run r h = ground arith

-- The update of the run's row, as any reader finds it.
pub write_reaped_reads :
    (run : RunRow) (f : RunRow → RunRow) (kind : String) (state : RunState) (code : String)
    (now_ms : ℤ) (db : Db)
    → ((r : RunRow) → (f r).id ≡ r.id)
    → find_run run.id db.runs ≡ some run
    → run.state ≡ RunState.running
    → (id : String)
    → find_run id (write_reaped run f kind state code now_ms db).1.runs
      ≡ (if str_eq id run.id then some (f run) else find_run id db.runs)
unfolding write_reaped append_run_event
write_reaped_reads run f kind state code now_ms db k found p id =
    elim (Bool-cases (str_eq id run.id)) [
      | inl y ↦ rw y (
          subst
            (λ n.
              find_run n (update_runs (is_epoch_row run.id run.lease_epoch) f db.runs)
              ≡ some (f run))
            (sym ((eq_iff id run.id).0 y))
            (subst
              (λ b.
                find_run run.id (update_runs (is_epoch_row run.id run.lease_epoch) f db.runs)
                ≡ some (if b then f run else run))
              (is_epoch_row_self run p)
              (find_run-update (is_epoch_row run.id run.lease_epoch) f run.id db.runs run k found)))
      | inr n ↦ rw n (
          find_run-update_other (is_epoch_row run.id run.lease_epoch) f run.id id db.runs k
            (is_epoch_row-id id run) n)
    ]

pub write_reaped_rest :
    (run : RunRow) (f : RunRow → RunRow) (kind : String) (state : RunState) (code : String)
    (now_ms : ℤ) (db : Db)
    → ((write_reaped run f kind state code now_ms db).1.steps ≡ db.steps)
      × (length (write_reaped run f kind state code now_ms db).1.events ≡ length db.events + 1)
unfolding write_reaped append_run_event
write_reaped_rest run f kind state code now_ms db = (refl, omega (arith, length-append db.events))

terminal_stopped :
    (st : StepState) → StepState.is_terminal st ≡ true → StepState.same st running ≡ false
unfolding StepState.is_terminal
terminal_stopped pending h = refl
terminal_stopped running h = absurd (cc)
terminal_stopped StepState.succeeded h = refl
terminal_stopped StepState.failed h = refl
terminal_stopped skipped h = refl
terminal_stopped StepState.cancelled h = refl

-- A run whose steps are all terminal has none that is running.
terminal-NoneRunning :
    (run_id : String) (l : List StepRow)
    → all StepState.is_terminal (map (λ t. t.state) (select (λ t. str_eq t.run_id run_id) l)) ≡ true
    → NoneRunning run_id l
terminal-NoneRunning run_id [] h = refl
terminal-NoneRunning run_id (s ∷ rest) h =
    ground (arith, terminal-NoneRunning run_id rest, terminal_stopped s.state)

pub all_steps_terminal-NoneRunning :
    (run_id : String) (l : List StepRow)
    → all_steps_terminal (step_states run_id l) ≡ true
    → NoneRunning run_id l
unfolding all_steps_terminal step_states
all_steps_terminal-NoneRunning run_id l h =
    terminal-NoneRunning run_id l
      (sym (all-sort StepState.is_terminal (select (λ t. str_eq t.run_id run_id) l)) ∙ h)

-- The code of a verdict that was read off the steps is not that of a failure of the whole run.
cancel_reason_level :
    (v : RunState) → is_run_level_failure (cancel_reason v "RUN_CANCELLED_MANUAL") ≡ false
unfolding cancel_reason is_run_level_failure
cancel_reason_level RunState.queued = refl
cancel_reason_level RunState.running = refl
cancel_reason_level RunState.succeeded = refl
cancel_reason_level RunState.failed = refl
cancel_reason_level RunState.cancelled = refl

verdict_agrees :
    (states : List StepState)
    → all_steps_terminal states ≡ true
    → (terminal_verdict (cancel_guards states "RUN_CANCELLED_MANUAL")).0
      ≡ run_aggregate states false
unfolding cancel_guards all_steps_terminal any_step_is is_run_level_failure
verdict_agrees states h =
    terminal_verdict-run_aggregate (cancel_guards states "RUN_CANCELLED_MANUAL") states refl refl h

verdict_code_agrees :
    (states : List StepState)
    → all_steps_terminal states ≡ true
    → (terminal_verdict (cancel_guards states "RUN_CANCELLED_MANUAL")).0
      ≡ run_aggregate states
          (is_run_level_failure (cancel_guards states "RUN_CANCELLED_MANUAL").reason_code)
unfolding cancel_guards
verdict_code_agrees states h =
    verdict_agrees states h
    ∙ ap (run_aggregate states) (sym (cancel_reason_level (run_aggregate states false)))

-- reapToAggregateTx, over steps that have all ended.
pub reap_to_aggregate-Reaped :
    (db closed : Db) (max_crash : ℤ) (run : RunRow) (now_ms : ℤ)
    → find_run run.id db.runs ≡ some run
    → run.state ≡ RunState.running
    → is_timely now_ms run ≡ true
    → closed.runs ≡ db.runs
    → Moved run.id db.steps closed.steps
    → all_steps_terminal (step_states run.id closed.steps) ≡ true
    → length db.events ≤ length closed.events
    → Reaped db max_crash run
        (reap_to_aggregate run now_ms closed).0
        (reap_to_aggregate run now_ms closed).1
unfolding reap_to_aggregate reap_closed_row write_reaped
reap_to_aggregate-Reaped db closed max_crash run now_ms found p w runs moved ended events =
    let states = step_states run.id closed.steps in
    let g = cancel_guards states "RUN_CANCELLED_MANUAL" in
    let v = terminal_verdict g in
    let f =
      reap_closed_row v.0 g.reason_code
        (terminal_data g.reason_code (read_steps run.id closed.steps)) now_ms in
    let found' : find_run run.id closed.runs ≡ some run = rw runs found in
    record {
      row = f run;
      runs_read = λ id.
          subst
            (λ l.
              find_run id (reap_to_aggregate run now_ms closed).1.runs
              ≡ (if str_eq id run.id then some (f run) else find_run id l))
            runs
            (write_reaped_reads run f v.1 v.0 g.reason_code now_ms closed (λ r. refl) found' p id);
      answered = (refl, refl);
      released = refl;
      fenced = (refl, refl);
      counted = refl;
      steps_moved = moved;
      none_running = all_steps_terminal-NoneRunning run.id closed.steps ended;
      told = omega (arith, length-append closed.events, events);
      fate = inr (ended, verdict_code_agrees states ended, refl);
      timed = (and_both (starts_by now_ms run) (is_timed run) w).0;
      concluded = inr (verdict_agrees states ended);
    }
