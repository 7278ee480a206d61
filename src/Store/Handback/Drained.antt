-- ===== src/Store/Handback/Drained.antt =====
-- What DrainRun leaves: the run queued again, with its running steps pending and no crash counted.
use std.Path.{subst}
use paceq.Base.{
  ℕ, ◌||◌, ◌-◌, ◌+◌, ◌≤◌, ◌<◌, ◌⊎◌, String, Bool, true, false, not, ◌&&◌, List, [], ◌∷◌, none, some,
  ◌≡◌, ◌≢◌, refl, sym, ap, ◌∙◌, inl, inr, arith, eq_iff, map, str_eq,
}
use paceq.Base.Tests.{ltb, Bool-cases, if◌then◌else◌}
use paceq.Base.Lists.{all, length, length-append}
use paceq.Base.Int.{ℤ}
use paceq.Base.Result.{ok, err, ◌>>=◌}
use paceq.Model.RunState.{RunState}
use paceq.Model.StepState.{StepState}
use paceq.Model.StepState
use paceq.Model.Event.{shutdown_drain}
use paceq.Model.Guards.{Guards}
use paceq.Model.RunMachine.{next_run_state, require_reason, defer_reason_after_shutdown}
use paceq.Model.StepMachine.{next_step_state}
use paceq.Model.Effect.{
  Effect, act, emit, defer_reason, bump_epoch, release_lease, set_available_at, restore_attempt,
  set_next_attempt_at,
}
use paceq.Store.Leases.{unix_milli}
use paceq.Store.Rows.{RunRow, StepRow, Db, find_run, append_run_event}
use paceq.Store.Fence.{LeaseRef, held, lease_held_by, with_tx, no_holder}
use paceq.Store.Finish.Writes.{
  find_run-id, held-is_held_row, find_run-update_runs, is_held_row-count_if,
}
use paceq.Store.Finish.{is_held_row}
use paceq.Store.Skip.{guards_for}
use paceq.Store.CloseOut.{end_steps}
use paceq.Store.CloseOut.Ended.{IsEnding, end_steps_lem}
use paceq.Store.Handback.{
  mark_interrupted, drain_ending, requeue, write_requeue, drain_run_row, drain_read_run,
  drain_run_tx, drain_run,
}

interrupt_effects : List Effect
interrupt_effects = act restore_attempt ∷ act set_next_attempt_at ∷ emit "step.interrupted" ∷ []

interrupted_step :
    (code : String)
    → code ≢ ""
    → next_step_state StepState.running shutdown_drain (guards_for code)
      ≡ (StepState.pending, interrupt_effects, none)
unfolding next_step_state require_reason interrupt_effects
interrupted_step code h = ground (arith, eq_iff code "")

drain_ending-IsEnding :
    (now_ms : ℤ) (code : String) → code ≢ "" → IsEnding (drain_ending now_ms code)
unfolding mark_interrupted
drain_ending-IsEnding now_ms code h = record {
  to = StepState.pending;
  effects = interrupt_effects;
  moves = interrupted_step code h;
  same_run = λ s. refl;
  same_name = λ s. refl;
  set_state = λ s. refl;
  left = refl;
}

-- A running step of the run gives its attempt back; no other step changes.
abbrev pub Back : String → String → ℤ → StepRow → StepRow → Type 0
Back run_id code now_ms s t =
    ((s.run_id ≡ run_id)
      × (s.state ≡ StepState.running)
      × (a : ℕ) × (a + 1 ≡ s.attempt)
      × (t ≡ record s {
        state = StepState.pending;
        attempt = a;
        reason_code = some code;
        next_attempt_at = some now_ms;
        finished_at = none;
        duration_ms = none;
      }))
    ⊎ (((str_eq s.run_id run_id && StepState.same s.state StepState.running) ≡ false) × (t ≡ s))

abbrev pub AllBack : String → String → ℤ → List StepRow → List StepRow → Type 0
AllBack run_id code now_ms [] [] = Unit {0}
AllBack run_id code now_ms (s ∷ rest) (t ∷ others) =
    Back run_id code now_ms s t × AllBack run_id code now_ms rest others
AllBack run_id code now_ms _ _ = ⊥

-- The running steps of the run have an attempt that was counted.
abbrev pub attempts_counted : String → List StepRow → Bool
attempts_counted run_id steps =
    all
      (λ s.
        not (str_eq s.run_id run_id && StepState.same s.state StepState.running) || ltb 0 s.attempt)
      steps

mark_interrupted-Back :
    (run_id code : String) (now_ms : ℤ) (s : StepRow)
    → (not (str_eq s.run_id run_id && StepState.same s.state StepState.running) || ltb 0 s.attempt)
      ≡ true
    → Back run_id code now_ms s (
        if str_eq s.run_id run_id && StepState.same s.state StepState.running
        then mark_interrupted code now_ms s
        else s)
unfolding mark_interrupted
mark_interrupted-Back run_id code now_ms s h =
    elim (Bool-cases (str_eq s.run_id run_id && StepState.same s.state StepState.running)) [
      | inl y ↦ rw y (
          inl (
            ground (arith, eq_iff s.run_id run_id),
            ground arith,
            s.attempt - 1,
            ground arith,
            refl,
          ))
      | inr n ↦ rw n (inr (refl, refl))
    ]

AllBack-map :
    (run_id code : String) (now_ms : ℤ) (steps : List StepRow)
    → attempts_counted run_id steps ≡ true
    → AllBack run_id code now_ms steps (
        map
          (λ s.
            if str_eq s.run_id run_id && StepState.same s.state StepState.running
            then mark_interrupted code now_ms s
            else s)
          steps)
AllBack-map run_id code now_ms [] h = tt
AllBack-map run_id code now_ms (s ∷ rest) h = (
  mark_interrupted-Back run_id code now_ms s (ground arith),
  AllBack-map run_id code now_ms rest (ground arith),
)

-- What a run that was handed back leaves.
pub record Drained (db : Db) (now : ℤ) (run_id code : String) (run : RunRow) (after : Db)
    : Type 0 where
  pub row : RunRow
  pub row_found : find_run run_id after.runs ≡ some row
  pub queued_again : row.state ≡ RunState.queued
  pub released : row.lease_owner ≡ none
  pub fenced : row.lease_epoch ≡ run.lease_epoch + 1
  pub crashes : row.crash_count ≡ run.crash_count
  pub claimable : row.available_at ≡ unix_milli now
  pub steps_back : AllBack run_id code (unix_milli now) db.steps after.steps
  pub told : length db.events < length after.events

-- The machine sends a held run back to the queue.
drain_effects : List Effect
drain_effects =
    act bump_epoch
    ∷ act release_lease
    ∷ act set_available_at
    ∷ defer_reason defer_reason_after_shutdown
    ∷ emit "run.drained"
    ∷ []

drained_run :
    (cur : RunState) (g : Guards)
    → cur ≡ RunState.running
    → g.lease_valid ≡ true
    → next_run_state cur shutdown_drain g ≡ (RunState.queued, drain_effects, none)
unfolding next_run_state drain_effects
drained_run cur g p v = ground arith

-- The write of the requeue meets the holder's row.
write_requeue_lem :
    (db : Db) (run_id : String) (ref : LeaseRef) (why : String) (now_ms : ℤ) (run : RunRow)
    → find_run run_id db.runs ≡ some run
    → is_held_row run_id RunState.running ref run ≡ true
    → (after : Db) × (write_requeue db run_id
          (is_held_row run_id RunState.running ref)
          (requeue why now_ms)
          why
          now_ms
          run
          (RunState.queued, drain_effects, none)
        ≡ ok after)
      × (find_run run_id after.runs ≡ some (requeue why now_ms run))
      × (after.steps ≡ db.steps)
      × (length after.events ≡ length db.events + 1)
unfolding write_requeue append_run_event requeue
write_requeue_lem db run_id ref why now_ms run f w =
    rw (is_held_row-count_if run_id RunState.running ref db.runs run f w) (
      _,
      refl,
      find_run-update_runs run_id RunState.running ref (requeue why now_ms) db.runs run f w refl,
      refl,
      omega (arith, length-append db.events),
    )

-- Of a run whose steps are back.
drain_run_row-Drained :
    (db steps : Db) (now : ℤ) (run_id : String) (ref : LeaseRef) (code : String) (run : RunRow)
    → find_run run_id steps.runs ≡ some run
    → run.state ≡ RunState.running
    → lease_held_by run ref ≡ true
    → steps.steps
      ≡ map
          (λ s.
            if str_eq s.run_id run_id && StepState.same s.state StepState.running
            then mark_interrupted code (unix_milli now) s
            else s)
          db.steps
    → attempts_counted run_id db.steps ≡ true
    → length db.events ≤ length steps.events
    → (after : Db) × (drain_run_row run_id ref (unix_milli now) run steps ≡ ok (true, after))
      × Drained db now run_id code run after
unfolding drain_run_row requeue
drain_run_row-Drained db steps now run_id ref code run f p v back counted events =
    let w = held-is_held_row run_id ref run (find_run-id run_id steps.runs run f) v in
    let w' : is_held_row run_id RunState.running ref run ≡ true =
      ap (λ st. is_held_row run_id st ref run) (sym p) ∙ w in
    let moves =
      drained_run run.state (record (guards_for "") { lease_valid = lease_held_by run ref }) p v in
    let (after, writes, row, kept, one) =
      write_requeue_lem steps run_id ref defer_reason_after_shutdown (unix_milli now) run f w' in
    (
      after,
      rw moves (rw writes refl),
      record {
        row = _;
        row_found = row;
        queued_again = refl;
        released = refl;
        fenced = refl;
        crashes = refl;
        claimable = refl;
        steps_back =
            subst (AllBack run_id code (unix_milli now) db.steps) (sym (kept ∙ back))
              (AllBack-map run_id code (unix_milli now) db.steps counted);
        told = omega (arith, one, events);
      },
    )

held_running :
    (run : RunRow) (ref : LeaseRef) → lease_held_by run ref ≡ true → run.state ≡ RunState.running
unfolding lease_held_by
held_running run ref v = ground arith

drain_read_run_held :
    (db : Db) (now : ℤ) (run_id : String) (ref : LeaseRef) (code : String) (run : RunRow) (b : Bool)
    → lease_held_by run ref ≡ b
    → drain_read_run db now run_id ref code run ≡ (
        if not b
        then ok (false, db)
        else end_steps (drain_ending (unix_milli now) code) run_id (unix_milli now) db
          >>= (λ steps. drain_run_row run_id ref (unix_milli now) run steps))
unfolding drain_read_run
drain_read_run_held db now run_id ref code run b v =
    ap
      (λ t.
        if not t
        then ok (false, db)
        else end_steps (drain_ending (unix_milli now) code) run_id (unix_milli now) db
          >>= (λ steps. drain_run_row run_id ref (unix_milli now) run steps))
      v

drain_read_run-Drained :
    (db : Db) (now : ℤ) (run_id : String) (ref : LeaseRef) (code : String) (run : RunRow)
    → code ≢ ""
    → find_run run_id db.runs ≡ some run
    → attempts_counted run_id db.steps ≡ true
    → lease_held_by run ref ≡ true
    → (after : Db) × (drain_read_run db now run_id ref code run ≡ ok (true, after))
      × Drained db now run_id code run after
drain_read_run-Drained db now run_id ref code run c f n v =
    let (steps, e, back, runs, events) =
      end_steps_lem (drain_ending (unix_milli now) code)
        (drain_ending-IsEnding (unix_milli now) code c) run_id (unix_milli now) db in
    let f' : find_run run_id steps.runs ≡ some run = rw runs f in
    let (after, e', drained) =
      drain_run_row-Drained db steps now run_id ref code run f' (held_running run ref v) v back n
        events in
    (
      after,
      drain_read_run_held db now run_id ref code run true v
          ∙ (ap (λ r. r >>= (λ t. drain_run_row run_id ref (unix_milli now) run t)) e ∙ e'),
      drained,
    )

drain_run_tx_found :
    (db : Db) (now : ℤ) (run_id : String) (ref : LeaseRef) (code : String) (run : RunRow)
    → find_run run_id db.runs ≡ some run
    → drain_run_tx db now run_id ref code ≡ drain_read_run db now run_id ref code run
unfolding drain_run_tx
drain_run_tx_found db now run_id ref code run f = rw (f, drain_run_tx) refl

drain_run_read :
    (db : Db) (now : ℤ) (run_id : String) (ref : LeaseRef) (code : String) (run : RunRow)
    → find_run run_id db.runs ≡ some run
    → held ref ≡ true
    → drain_run db now run_id ref code ≡ with_tx db (drain_read_run db now run_id ref code run)
unfolding drain_run
drain_run_read db now run_id ref code run f y =
    ap
      (λ b. if not b then (err no_holder, db) else with_tx db (drain_run_tx db now run_id ref code))
      y
    ∙ ap (with_tx db) (drain_run_tx_found db now run_id ref code run f)

-- Of a run whose running steps have an attempt that was counted: a holder that hands it back at a clean
-- stop, with a reason, succeeds. The run is queued again and due at once, without a holder; its epoch is
-- one higher, so that the old holder is fenced out, and no crash is counted. The steps that were running
-- are pending with their attempt given back, due at once and with the reason, and no other step
-- changes. A caller that does not hold the run is told that nothing was handed back, and
-- changes nothing.
pub drain_run-Drained :
    (db : Db) (now : ℤ) (run_id : String) (ref : LeaseRef) (code : String) (run : RunRow)
    → code ≢ ""
    → find_run run_id db.runs ≡ some run
    → attempts_counted run_id db.steps ≡ true
    → held ref ≡ true
    → ((lease_held_by run ref ≡ true)
        × ((drain_run db now run_id ref code).0 ≡ ok true)
        × Drained db now run_id code run (drain_run db now run_id ref code).1)
      ⊎ ((lease_held_by run ref ≡ false) × (drain_run db now run_id ref code ≡ (ok false, db)))
drain_run-Drained db now run_id ref code run c f n y = elim (Bool-cases (lease_held_by run ref)) [
  | inl v ↦
      let (after, e, drained) = drain_read_run-Drained db now run_id ref code run c f n v in
      let run_tx = drain_run_read db now run_id ref code run f y ∙ ap (with_tx db) e in
      inl (
        v,
        ap (λ t. t.0) run_tx,
        subst (Drained db now run_id code run) (sym (ap (λ t. t.1) run_tx)) drained,
      )
  | inr lost ↦ inr (
    lost,
    drain_run_read db now run_id ref code run f y
        ∙ ap (with_tx db) (drain_read_run_held db now run_id ref code run false lost),
  )
]
