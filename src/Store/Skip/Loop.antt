-- ===== src/Store/Skip/Loop.antt =====
-- The loop of propagateSkipTx: each round marks the row of its name, and its machine never refuses.
use paceq.Base.{
  ◌+◌, String, false, ◌&&◌, List, [], ◌∷◌, none, ◌≡◌, refl, inl, inr, arith, eq_iff, str_eq, sym,
  ◌∙◌, map,
}
use paceq.Base.Tests.{if◌then◌else◌, Bool-cases}
use paceq.Base.Lists.{length, length-append}
use paceq.Base.Result.{ok}
use paceq.Model.StepState
use paceq.Model.StepState.{StepState, pending, skipped}
use paceq.Model.Event.{upstream_failed}
use paceq.Model.Effect.{act, emit, set_finished}
use paceq.Model.StepMachine.{next_step_state}
use paceq.Model.RunMachine.{require_reason}
use paceq.Store.Rows.{upstream, StepRow, Dep, Db, update_steps, append_run_event}
use paceq.Store.Closure.{contains}
use paceq.Store.Skip.{
  Failure, skip_code, mark_skipped, is_pending_step, skip_step, skip_steps, emit_kind, guards_for,
  is_direct,
}

-- The tables after one skip and its event.
abbrev after_skip : Failure → Db → String → Db
after_skip f db name =
    let code = skip_code db.deps f.run_id f.failed_step name in
    append_run_event
      (record {
        run_id = f.run_id;
        step_name = name;
        at = f.at;
        kind = "step.skipped";
        from_state = "pending";
        to_state = "skipped";
        reason_code = code;
        actor = f.actor;
        detail_json = upstream f.failed_step f.attempt;
      })
      (record db {
        steps = update_steps (is_pending_step f.run_id name) (mark_skipped f code) db.steps;
      })

skip_code-cases :
    (deps : List Dep) (run_id failed name : String)
    → str_eq (skip_code deps run_id failed name) "" ≡ false
unfolding skip_code
skip_code-cases deps run_id failed name = elim (Bool-cases (is_direct deps run_id failed name)) [
  | inl e ↦ rw e refl
  | inr e ↦ rw e refl
]

next_step_state-skip :
    (code : String)
    → str_eq code "" ≡ false
    → next_step_state pending upstream_failed (guards_for code)
      ≡ (skipped, act set_finished ∷ emit "step.skipped" ∷ [], none)
unfolding next_step_state require_reason
next_step_state-skip code h = rw h refl

-- The machine never refuses a skip, since the code names a reason.
skip_step_lem :
    (f : Failure) (db : Db) (name : String) → skip_step f db name ≡ ok (after_skip f db name)
unfolding skip_step emit_kind StepState.string append_run_event
skip_step_lem f db name =
    let e =
      next_step_state-skip (skip_code db.deps f.run_id f.failed_step name)
        (skip_code-cases db.deps f.run_id f.failed_step name) in
    rw (skip_step, e, e) refl

-- What a skip of the names makes of one row.
abbrev pub settle : Failure → List Dep → List String → StepRow → StepRow
settle f deps names s =
    if str_eq s.run_id f.run_id && contains names s.name && StepState.same s.state pending
    then mark_skipped f (skip_code deps f.run_id f.failed_step s.name) s
    else s

settle-cons :
    (f : Failure) (deps : List Dep) (n : String) (names : List String) (s : StepRow)
    → settle f deps names (
        if is_pending_step f.run_id n s
        then mark_skipped f (skip_code deps f.run_id f.failed_step n) s
        else s)
      ≡ settle f deps (n ∷ names) s
unfolding mark_skipped
settle-cons f deps n names s =
    ground (arith, eq_iff s.name n, eq_iff n s.name, eq_iff s.run_id f.run_id)

-- The tables after skips of the names, in their order.
abbrev pub after_skips : Failure → Db → List StepRow → Db
after_skips f db [] = db
after_skips f db (s ∷ rest) = after_skips f (after_skip f db s.name) rest

pub skip_steps_lem :
    (f : Failure) (db : Db) (l : List StepRow) → skip_steps f db l ≡ ok (after_skips f db l)
unfolding skip_steps
skip_steps_lem f db [] = refl
skip_steps_lem f db (s ∷ rest) =
    rw (skip_steps, skip_step_lem f db s.name) (skip_steps_lem f (after_skip f db s.name) rest)

pub after_skips-tables :
    (f : Failure) (db : Db) (l : List StepRow)
    → ((after_skips f db l).runs ≡ db.runs)
      × ((after_skips f db l).deps ≡ db.deps)
      × (length (after_skips f db l).events ≡ length db.events + length l)
unfolding append_run_event
after_skips-tables f db [] = (refl, refl, omega arith)
after_skips-tables f db (s ∷ rest) =
    let (r, d, e) = after_skips-tables f (after_skip f db s.name) rest in
    (r, d, omega (arith, e, length-append db.events))

settle-nil :
    (f : Failure) (deps : List Dep) (steps : List StepRow) → map (settle f deps []) steps ≡ steps
settle-nil f deps [] = refl
settle-nil f deps (s ∷ rest) = ground (arith, settle-nil f deps rest)

map-settle :
    (f : Failure) (deps : List Dep) (n : String) (names : List String) (steps : List StepRow)
    → map (settle f deps names) (
        update_steps
          (is_pending_step f.run_id n)
          (mark_skipped f (skip_code deps f.run_id f.failed_step n))
          steps)
      ≡ map (settle f deps (n ∷ names)) steps
unfolding update_steps
map-settle f deps n names [] = refl
map-settle f deps n names (s ∷ rest) =
    rw (settle-cons f deps n names s, map-settle f deps n names rest) refl

pub after_skips-steps :
    (f : Failure) (db : Db) (l : List StepRow)
    → (after_skips f db l).steps ≡ map (settle f db.deps (map (λ s. s.name) l)) db.steps
unfolding append_run_event
after_skips-steps f db [] = sym (settle-nil f db.deps db.steps)
after_skips-steps f db (s ∷ rest) =
    after_skips-steps f (after_skip f db s.name) rest
    ∙ map-settle f db.deps s.name (map (λ t. t.name) rest) db.steps
