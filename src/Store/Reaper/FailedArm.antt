-- ===== src/Store/Reaper/FailedArm.antt =====
-- reapToFailedTx: a run whose lease ran out fails, with its steps.
use std.Path.{subst}
use paceq.Base.{
  ◌≤◌, String, true, false, some, ◌≡◌, ◌≢◌, refl, sym, ap, ◌∙◌, inl, inr, arith, eq_iff, str_eq,
}
use paceq.Base.Tests.{if◌then◌else◌, Bool-cases}
use paceq.Base.Lists.{length, length-append}
use paceq.Base.Int.{ℤ}
use paceq.Base.Result.{ok, ◌>>=◌, ◌>>◌}
use paceq.Model.RunState.{RunState}
use paceq.Model.Event.{lease_expired}
use paceq.Model.Aggregate.{run_aggregate}
use paceq.Model.RunMachine.{next_run_state, require_reason}
use paceq.Store.Leases.{unix_milli}
use paceq.Store.Rows.{starts_by, is_timed, RunRow, Db, Detail, find_run}
use paceq.Store.Rows.Keys.{UniqueSteps}
use paceq.Store.Finish.{is_run_level_failure, step_states, all_steps_terminal}
use paceq.Store.Skip.{guards_for}
use paceq.Store.RetryPlan.{Frozen}
use paceq.Store.CloseOut.{skip_ending, skip_pending_steps}
use paceq.Store.CloseOut.Ended.{end_steps_lem}
use paceq.Store.Reaper.{
  checked, fail_running_steps, must_move, reap_closed_row, reap_failed_row, write_reaped,
  reap_to_aggregate, reap_failed_steps, reap_to_failed,
}
use paceq.Store.Reaper.Lost.{Moved}
use paceq.Store.Reaper.Loop.{NoneRunning, Moved-trans, Moved-refl, fail_running_steps_lem}
use paceq.Store.Reaper.Verdict.{
  Reaped, checked_lem, is_timely, and_both, write_reaped_reads, all_steps_terminal-NoneRunning,
  reap_to_aggregate-Reaped,
}
use paceq.Store.Reaper.Endings.{
  Decides, skip_ending-IsEnding, abandoned-Moved, abandoned-all_steps_terminal,
}

-- The machine makes both moves of an expired lease.
moves_failed :
    (code : String)
    → code ≢ ""
    → must_move RunState.failed (next_run_state RunState.running lease_expired (guards_for code))
      ≡ ok tt
unfolding must_move next_run_state require_reason
moves_failed code h = ground (arith, eq_iff code "")

pub moves_queued :
    must_move RunState.queued (
      next_run_state RunState.running lease_expired
        (record (guards_for "") { crash_budget_left = true }))
    ≡ ok tt
unfolding must_move next_run_state
moves_queued = refl

pub reap_failed_steps-Reaped :
    (db lost : Db) (max_crash : ℤ) (run : RunRow) (code kind : String) (detail : Detail)
    (now_ms : ℤ)
    → is_run_level_failure code ≡ true
    → all_steps_terminal (step_states run.id db.steps) ≡ false
    → find_run run.id db.runs ≡ some run
    → run.state ≡ RunState.running
    → is_timely now_ms run ≡ true
    → lost.runs ≡ db.runs
    → Moved run.id db.steps lost.steps
    → NoneRunning run.id lost.steps
    → length db.events ≤ length lost.events
    → Decides db max_crash run (reap_failed_steps run code kind detail now_ms lost)
unfolding reap_failed_steps reap_failed_row skip_pending_steps write_reaped reap_closed_row
    run_aggregate
reap_failed_steps-Reaped db lost max_crash run code kind detail now_ms level open_before found p w
      runs moved none_running events =
    let (shut, e, steps, runs', events') =
      end_steps_lem (skip_ending now_ms "STEP_SKIPPED_RUN_ABANDONED") (skip_ending-IsEnding now_ms)
        run.id now_ms lost in
    let f = reap_failed_row code detail now_ms in
    let same = runs' ∙ runs in
    let found' : find_run run.id shut.runs ≡ some run = rw same found in
    let ended =
      ap (λ l. all_steps_terminal (step_states run.id l)) steps
      ∙ abandoned-all_steps_terminal run.id now_ms lost.steps none_running in
    let x = write_reaped run f kind RunState.failed code now_ms shut in
    let reaped : Reaped db max_crash run x.0 x.1 = record {
      row = f run;
      runs_read = λ id.
          subst
            (λ l.
              find_run id (write_reaped run f kind RunState.failed code now_ms shut).1.runs
              ≡ (if str_eq id run.id then some (f run) else find_run id l))
            same
            (write_reaped_reads run f kind RunState.failed code now_ms shut (λ r. refl) found' p
              id);
      answered = (refl, refl);
      released = refl;
      fenced = (refl, refl);
      counted = refl;
      steps_moved =
          Moved-trans run.id db.steps lost.steps shut.steps moved
            (abandoned-Moved run.id now_ms lost.steps shut.steps steps);
      none_running = all_steps_terminal-NoneRunning run.id shut.steps ended;
      told = omega (arith, length-append shut.events, events, events');
      fate = inr (ended, sym (ap (run_aggregate (step_states run.id shut.steps)) level), refl);
      timed = (and_both (starts_by now_ms run) (is_timed run) w).0;
      concluded = inl open_before;
    } in
    (
      x.0,
      x.1,
      ap
            (λ r. r >>= (λ skipped_db.
              checked run.id (write_reaped run f kind RunState.failed code now_ms skipped_db)))
            e
          ∙ checked_lem db max_crash run x reaped,
      reaped,
    )

pub reap_to_failed-Reaped :
    (frozen : Frozen) (db : Db) (max_crash : ℤ) (run : RunRow) (now : ℤ) (code kind : String)
    (detail : Detail)
    → code ≢ ""
    → is_run_level_failure code ≡ true
    → UniqueSteps db.steps
    → find_run run.id db.runs ≡ some run
    → run.state ≡ RunState.running
    → is_timely (unix_milli now) run ≡ true
    → Decides db max_crash run (reap_to_failed frozen run now code kind detail db)
unfolding reap_to_failed
reap_to_failed-Reaped frozen db max_crash run now code kind detail c level u found p w =
    let steps = step_states run.id db.steps in
    let rest =
      if all_steps_terminal steps
      then checked run.id (reap_to_aggregate run (unix_milli now) db)
      else fail_running_steps frozen run.id now true db
        >>= reap_failed_steps run code kind detail (unix_milli now) in
    subst (Decides db max_crash run) (sym (ap (λ m. m >> rest) (moves_failed code c)))
      (elim (Bool-cases (all_steps_terminal steps)) [
        | inl y ↦
            let x = reap_to_aggregate run (unix_milli now) db in
            let reaped =
              reap_to_aggregate-Reaped db db max_crash run (unix_milli now) found p w refl
                (Moved-refl run.id db.steps) y (omega arith) in
            rw y (x.0, x.1, checked_lem db max_crash run x reaped, reaped)
        | inr n ↦
            let (lost, e, moved, none_running, runs, events) =
              fail_running_steps_lem frozen run.id now true db u in
            let (answer, after, e', reaped) =
              reap_failed_steps-Reaped db lost max_crash run code kind detail (unix_milli now) level
                n found p w runs moved none_running events in
            rw n (
              answer,
              after,
              ap (λ r. r >>= reap_failed_steps run code kind detail (unix_milli now)) e ∙ e',
              reaped,
            )
      ])
