-- ===== src/Store/Reaper/QueuedArm.antt =====
-- reapToQueuedTx: a run whose lease ran out goes back to the queue, or ends as its steps did.
use std.Path.{subst}
use paceq.Base.{◌+◌, ◌≤◌, true, false, some, ◌≡◌, refl, ap, ◌∙◌, inl, inr, arith, str_eq}
use paceq.Base.Tests.{if◌then◌else◌, Bool-cases, leb}
use paceq.Base.Lists.{length, length-append}
use paceq.Base.Int.{ℤ, pos, ltb_ℤ, ◌+ℤ◌}
use paceq.Base.Result.{◌>>=◌, ◌>>◌}
use paceq.Model.RunState.{RunState}
use paceq.Store.Leases.{unix_milli}
use paceq.Store.Rows.{starts_by, is_timed, RunRow, Db, find_run}
use paceq.Store.Rows.Keys.{UniqueSteps}
use paceq.Store.Finish.{step_states, all_steps_terminal}
use paceq.Store.RetryPlan.{Frozen}
use paceq.Store.ObserveCancel.{is_requested}
use paceq.Store.Reaper.{
  checked, fail_running_steps, reap_queued_row, write_reaped, reap_queued_steps, reap_to_queued,
}
use paceq.Store.Reaper.Lost.{Moved}
use paceq.Store.Reaper.Loop.{
  NoneRunning, Moved-refl, fail_running_steps_lem, fail_running_steps_idle,
}
use paceq.Store.Reaper.Verdict.{
  checked_lem, is_timely, and_both, Reaped, write_reaped_reads, all_steps_terminal-NoneRunning,
  reap_to_aggregate-Reaped,
}
use paceq.Store.Reaper.Endings.{Decides}
use paceq.Store.Reaper.FailedArm.{moves_queued}

-- A run with a step that is still open goes back to the queue.
requeued-Reaped :
    (db lost : Db) (max_crash : ℤ) (run : RunRow) (due_ms now_ms : ℤ)
    → find_run run.id db.runs ≡ some run
    → run.state ≡ RunState.running
    → is_timely now_ms run ≡ true
    → all_steps_terminal (step_states run.id db.steps) ≡ false
    → is_requested run ≡ false
    → ltb_ℤ max_crash (pos (run.crash_count + 1)) ≡ false
    → leb run.max_attempts run.attempt ≡ false
    → lost.runs ≡ db.runs
    → Moved run.id db.steps lost.steps
    → NoneRunning run.id lost.steps
    → all_steps_terminal (step_states run.id lost.steps) ≡ false
    → length db.events ≤ length lost.events
    → Reaped db max_crash run
        (write_reaped run
          (reap_queued_row due_ms now_ms)
          "run.requeued"
          RunState.queued
          ""
          now_ms
          lost).0
        (write_reaped run
          (reap_queued_row due_ms now_ms)
          "run.requeued"
          RunState.queued
          ""
          now_ms
          lost).1
unfolding write_reaped reap_queued_row
requeued-Reaped db lost max_crash run due_ms now_ms found p w open_before asked crashes attempts
      runs moved none_running open_steps events =
    let f = reap_queued_row due_ms now_ms in
    let found' : find_run run.id lost.runs ≡ some run = rw runs found in
    record {
      row = f run;
      runs_read = λ id.
          subst
            (λ l.
              find_run id (write_reaped run f "run.requeued" RunState.queued "" now_ms lost).1.runs
              ≡ (if str_eq id run.id then some (f run) else find_run id l))
            runs
            (write_reaped_reads run f "run.requeued" RunState.queued "" now_ms lost (λ r. refl)
              found' p id);
      answered = (refl, refl);
      released = refl;
      fenced = (refl, refl);
      counted = refl;
      steps_moved = moved;
      none_running = none_running;
      told = omega (arith, length-append lost.events, events);
      fate = inl (refl, asked, crashes, attempts, open_steps);
      timed = (and_both (starts_by now_ms run) (is_timed run) w).1;
      concluded = inl open_before;
    }

pub reap_queued_steps-Reaped :
    (db lost : Db) (max_crash : ℤ) (run : RunRow) (due_ms now_ms : ℤ)
    → find_run run.id db.runs ≡ some run
    → run.state ≡ RunState.running
    → is_timely now_ms run ≡ true
    → all_steps_terminal (step_states run.id db.steps) ≡ false
    → is_requested run ≡ false
    → ltb_ℤ max_crash (pos (run.crash_count + 1)) ≡ false
    → leb run.max_attempts run.attempt ≡ false
    → lost.runs ≡ db.runs
    → Moved run.id db.steps lost.steps
    → NoneRunning run.id lost.steps
    → length db.events ≤ length lost.events
    → Reaped db max_crash run
        (reap_queued_steps run due_ms now_ms lost).0
        (reap_queued_steps run due_ms now_ms lost).1
unfolding reap_queued_steps
reap_queued_steps-Reaped db lost max_crash run due_ms now_ms found p w open_before asked crashes
      attempts runs moved none_running events =
    elim (Bool-cases (all_steps_terminal (step_states run.id lost.steps))) [
      | inl y ↦
          rw y (reap_to_aggregate-Reaped db lost max_crash run now_ms found p w runs moved y events)
      | inr n ↦ rw n (
          requeued-Reaped db lost max_crash run due_ms now_ms found p w open_before asked crashes
            attempts runs moved none_running n events)
    ]

-- A run whose steps had all ended before the sweep.
folded-Reaped :
    (db : Db) (max_crash : ℤ) (run : RunRow) (due_ms now_ms : ℤ)
    → find_run run.id db.runs ≡ some run
    → run.state ≡ RunState.running
    → is_timely now_ms run ≡ true
    → all_steps_terminal (step_states run.id db.steps) ≡ true
    → Reaped db max_crash run
        (reap_queued_steps run due_ms now_ms db).0
        (reap_queued_steps run due_ms now_ms db).1
unfolding reap_queued_steps
folded-Reaped db max_crash run due_ms now_ms found p w y = rw y (
    reap_to_aggregate-Reaped db db max_crash run now_ms found p w refl (Moved-refl run.id db.steps)
      y (omega arith))

pub reap_to_queued-Reaped :
    (frozen : Frozen) (db : Db) (max_crash : ℤ) (run : RunRow) (now backoff : ℤ)
    → UniqueSteps db.steps
    → find_run run.id db.runs ≡ some run
    → run.state ≡ RunState.running
    → is_timely (unix_milli now) run ≡ true
    → is_requested run ≡ false
    → ltb_ℤ max_crash (pos (run.crash_count + 1)) ≡ false
    → leb run.max_attempts run.attempt ≡ false
    → Decides db max_crash run (reap_to_queued frozen run now backoff db)
unfolding reap_to_queued
reap_to_queued-Reaped frozen db max_crash run now backoff u found p w asked crashes attempts =
    let due = unix_milli (now +ℤ backoff) in
    let machine =
      ap
        (λ m.
          m
          >> (fail_running_steps frozen run.id now false db
              >>= (λ l. checked run.id (reap_queued_steps run due (unix_milli now) l))))
        moves_queued in
    elim (Bool-cases (all_steps_terminal (step_states run.id db.steps))) [
      | inl y ↦
          let idle =
            fail_running_steps_idle frozen run.id now false db
              (all_steps_terminal-NoneRunning run.id db.steps y) in
          let reaped = folded-Reaped db max_crash run due (unix_milli now) found p w y in
          (
            (reap_queued_steps run due (unix_milli now) db).0,
            (reap_queued_steps run due (unix_milli now) db).1,
            machine
                ∙ ap
                    (λ r.
                      r >>= (λ l. checked run.id (reap_queued_steps run due (unix_milli now) l)))
                    idle
                ∙ checked_lem db max_crash run (reap_queued_steps run due (unix_milli now) db)
                    reaped,
            reaped,
          )
      | inr n ↦
          let (lost, e, moved, none_running, runs, events) =
            fail_running_steps_lem frozen run.id now false db u in
          let reaped =
            reap_queued_steps-Reaped db lost max_crash run due (unix_milli now) found p w n asked
              crashes attempts runs moved none_running events in
          (
            (reap_queued_steps run due (unix_milli now) lost).0,
            (reap_queued_steps run due (unix_milli now) lost).1,
            machine
                ∙ ap
                    (λ r.
                      r >>= (λ l. checked run.id (reap_queued_steps run due (unix_milli now) l)))
                    e
                ∙ checked_lem db max_crash run (reap_queued_steps run due (unix_milli now) lost)
                    reaped,
            reaped,
          )
    ]
