-- ===== src/Store/CloseOut/Ended.antt =====
-- What a close-out leaves: its steps ended, each with an event, and nothing else changed.
use mathlib.Core.List.{Memᴰ}
use paceq.Base.{
  ◌+◌, ◌≤◌, String, false, ◌&&◌, List, [], ◌∷◌, none, ◌≡◌, refl, arith, eq_iff, str_eq, sym, ap,
  ◌∙◌, map,
}
use paceq.Base.Tests.{if◌then◌else◌}
use paceq.Base.Lists.{select, length, length-append}
use paceq.Base.Int.{ℤ}
use paceq.Base.Result.{ok}
use paceq.Model.StepState
use paceq.Model.StepState.{StepState, pending, running, succeeded, failed, skipped, cancelled}
use paceq.Model.Effect.{Effect}
use paceq.Model.StepMachine.{next_step_state}
use paceq.Store.Rows.{StepRow, Db, update_steps, append_run_event}
use paceq.Store.Closure.{contains}
use paceq.Store.Skip.{guards_for, emit_kind, sort_by_idx}
use paceq.Store.Skip.Settled.{contains-sort, select-Memᴰ, map-cong}
use paceq.Store.CloseOut.{
  Ending, is_open_step, write_end, end_step, for_each_step, is_of_run, end_steps,
}

-- A close-out whose move the machine makes, and whose SET clause ends the step and leaves its key.
pub record IsEnding (e : Ending) : Type 0 where
  pub to : StepState
  pub effects : List Effect
  pub moves : next_step_state e.from e.event (guards_for e.code) ≡ (to, effects, none)
  pub same_run : (s : StepRow) → (e.set s).run_id ≡ s.run_id
  pub same_name : (s : StepRow) → (e.set s).name ≡ s.name
  pub set_state : (s : StepRow) → (e.set s).state ≡ to
  pub left : StepState.same to e.from ≡ false

module _ (e : Ending) (h : IsEnding e) (run_id : String) (now_ms : ℤ) where
  -- What the close-out makes of one row, when it looks at these names.
  abbrev ended_by : List String → StepRow → StepRow
  ended_by names s =
      if str_eq s.run_id run_id && contains names s.name && StepState.same s.state e.from
      then e.set s
      else s

  -- The tables after one step.
  abbrev after_end : Db → String → Db
  after_end db name =
      append_run_event
        (record {
          run_id = run_id;
          step_name = name;
          at = now_ms;
          kind = emit_kind h.effects;
          from_state = StepState.string e.from;
          to_state = StepState.string h.to;
          reason_code = e.code;
          actor = e.actor;
          detail_json = e.detail;
        })
        (record db { steps = update_steps (is_open_step e run_id name) e.set db.steps })

  end_step_lem :
      (db : Db) (name : String) → end_step e run_id now_ms db name ≡ ok (after_end db name)
  unfolding end_step write_end
  end_step_lem db name = ap (write_end e run_id now_ms db name) h.moves

  ended_by-cons :
      (n : String) (names : List String) (s : StepRow)
      → ended_by names (if is_open_step e run_id n s then e.set s else s) ≡ ended_by (n ∷ names) s
  ended_by-cons n names s = ground (
    arith,
    eq_iff s.name n,
    eq_iff n s.name,
    eq_iff s.run_id run_id,
    h.same_run s,
    h.same_name s,
    h.set_state s,
    h.left,
  )

  ended_by-nil : (steps : List StepRow) → map (ended_by []) steps ≡ steps
  ended_by-nil [] = refl
  ended_by-nil (s ∷ rest) = ground (arith, ended_by-nil rest)

  map-ended_by :
      (n : String) (names : List String) (steps : List StepRow)
      → map (ended_by names) (update_steps (is_open_step e run_id n) e.set steps)
        ≡ map (ended_by (n ∷ names)) steps
  unfolding update_steps
  map-ended_by n names [] = refl
  map-ended_by n names (s ∷ rest) = rw (ended_by-cons n names s, map-ended_by n names rest) refl

  for_each_step_lem :
      (l : List StepRow) (db : Db)
      → (after : Db) × (for_each_step (end_step e run_id now_ms) db l ≡ ok after)
        × (after.steps ≡ map (ended_by (map (λ s. s.name) l)) db.steps)
        × (after.runs ≡ db.runs)
        × (length after.events ≡ length db.events + length l)
  unfolding for_each_step append_run_event
  for_each_step_lem [] db = (db, refl, sym (ended_by-nil db.steps), refl, omega arith)
  for_each_step_lem (s ∷ rest) db =
      let (after, ends, steps, runs, events) = for_each_step_lem rest (after_end db s.name) in
      (
        after,
        rw (for_each_step, end_step_lem db s.name) ends,
        steps ∙ map-ended_by s.name (map (λ t. t.name) rest) db.steps,
        runs,
        omega (arith, events, length-append db.events),
      )

  -- What the close-out makes of a row.
  abbrev pub ended : StepRow → StepRow
  ended s = if is_of_run e.from run_id s then e.set s else s

  ended_by-ended :
      (steps : List StepRow) (s : StepRow)
      → Memᴰ s steps
      → ended_by (map (λ t. t.name) (sort_by_idx (select (is_of_run e.from run_id) steps))) s
        ≡ ended s
  ended_by-ended steps s m = ground (
    arith,
    contains-sort (select (is_of_run e.from run_id) steps) s.name,
    select-Memᴰ (is_of_run e.from run_id) s steps m,
  )

  -- A close-out never fails, and ends every step of the run in the state that it looks for.
  pub end_steps_lem :
      (db : Db)
      → (after : Db) × (end_steps e run_id now_ms db ≡ ok after)
        × (after.steps ≡ map ended db.steps)
        × (after.runs ≡ db.runs)
        × (length db.events ≤ length after.events)
  unfolding end_steps
  end_steps_lem db =
      let l = sort_by_idx (select (is_of_run e.from run_id) db.steps) in
      let (after, ends, steps, runs, events) = for_each_step_lem l db in
      (
        after,
        ends,
        steps ∙ map-cong (ended_by (map (λ s. s.name) l)) ended db.steps (ended_by-ended db.steps),
        runs,
        omega (arith, events),
      )
