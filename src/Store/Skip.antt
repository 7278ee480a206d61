-- ===== src/Store/Skip.antt =====
-- internal/store/transitions.go: propagateSkipTx, which settles what depends on a failed step.
-- `finishTransition` is the update and then the event.
pub mod Loop
pub mod Settled
use paceq.Base.{ℕ, String, Bool, true, false, ◌&&◌, List, [], ◌∷◌, Option, none, some, str_eq}
use paceq.Base.Tests.{if◌then◌else◌}
use paceq.Base.Lists.{any, select}
use paceq.Base.Int.{ℤ, pos, leb_ℤ}
use paceq.Base.Result.{Result, ok, err}
use paceq.Model.StepState.{StepState, pending, skipped}
use paceq.Model.StepState
use paceq.Model.Event.{Event, upstream_failed}
use paceq.Model.Effect.{Effect, emit_event}
use paceq.Model.Effect
use paceq.Model.Guards.{Guards}
use paceq.Model.StepMachine.{next_step_state}
use paceq.Store.Rows.{
  StepRow, Dep, Detail, upstream, RunEvent, Db, append_run_event, is_step, update_steps,
}
use paceq.Store.Fence.{Error, refused}
use paceq.Store.Closure.{contains, closure}

-- The zero value of model.Guards with a reason code.
abbrev pub guards_for : String → Guards
guards_for code = record {
  now = pos 0;
  available_at = pos 0;
  cancel_requested = false;
  lease_valid = false;
  attempts_left = false;
  any_step_failed = false;
  any_step_cancelled = false;
  all_steps_terminal = false;
  crash_budget_left = false;
  run_level_failure = false;
  reason_code = code;
  defer_reason = "";
}

-- emitKind: the argument of the first emit effect.
unfoldable pub emit_kind : List Effect → String
emit_kind [] = ""
emit_kind (fx ∷ rest) = if Effect.same fx.kind emit_event then fx.arg else emit_kind rest

-- EXISTS (SELECT 1 FROM step_deps direct ...)
unfoldable pub is_direct : List Dep → String → String → String → Bool
is_direct deps run_id failed name =
    any (λ d. str_eq d.run_id run_id && str_eq d.step_name name && str_eq d.depends_on failed) deps

-- The rows that the query selects.
unfoldable pub is_pending_dependant : List Dep → String → String → StepRow → Bool
is_pending_dependant deps run_id failed s =
    str_eq s.run_id run_id
    && contains (closure run_id failed deps) s.name
    && StepState.same s.state pending

-- ORDER BY s.idx
unfoldable pub insert_by_idx : StepRow → List StepRow → List StepRow
insert_by_idx s [] = s ∷ []
insert_by_idx s (t ∷ rest) = if leb_ℤ s.idx t.idx then s ∷ t ∷ rest else t ∷ insert_by_idx s rest

unfoldable pub sort_by_idx : List StepRow → List StepRow
unfolding insert_by_idx
sort_by_idx [] = []
sort_by_idx (s ∷ rest) = insert_by_idx s (sort_by_idx rest)

-- The reason code of a skipped step.
unfoldable pub skip_code : List Dep → String → String → String → String
unfolding is_direct
skip_code deps run_id failed name =
    if is_direct deps run_id failed name
    then "STEP_SKIPPED_UPSTREAM_FAILED"
    else "STEP_SKIPPED_UPSTREAM_SKIPPED"

-- What one call of propagateSkipTx is about; `at` is its time in milliseconds.
pub record Failure : Type 0 where
  pub run_id : String
  pub failed_step : String
  pub attempt : ℕ
  pub at : ℤ
  pub actor : String

abbrev pub is_pending_step : String → String → StepRow → Bool
is_pending_step run_id name s = is_step run_id name s && StepState.same s.state pending

-- The SET clause of the skip.
unfoldable pub mark_skipped : Failure → String → StepRow → StepRow
mark_skipped f code s = record s {
  state = skipped;
  finished_at = some f.at;
  reason_code = some code;
  reason_data = some (upstream f.failed_step f.attempt);
}

-- One round of the loop over the selected rows.
unfoldable pub skip_step : Failure → Db → String → Result Error Db
unfolding skip_code mark_skipped append_run_event update_steps
skip_step f db name =
    let code = skip_code db.deps f.run_id f.failed_step name in
    let (to, effects, refusal) = next_step_state pending upstream_failed (guards_for code) in
    elim refusal [
      | some e ↦ err (refused e)
      | none ↦ ok (
          append_run_event
            (record {
              run_id = f.run_id;
              step_name = name;
              at = f.at;
              kind = emit_kind effects;
              from_state = StepState.string pending;
              to_state = StepState.string to;
              reason_code = code;
              actor = f.actor;
              detail_json = upstream f.failed_step f.attempt;
            })
            (record db {
              steps = update_steps (is_pending_step f.run_id name) (mark_skipped f code) db.steps;
            }))
    ]

unfoldable pub skip_steps : Failure → Db → List StepRow → Result Error Db
unfolding skip_step
skip_steps f db [] = ok db
skip_steps f db (s ∷ rest) = elim (skip_step f db s.name) [
  | err e ↦ err e
  | ok after ↦ skip_steps f after rest
]

-- propagateSkipTx.
unfoldable pub propagate_skip : Failure → Db → Result Error Db
unfolding skip_steps sort_by_idx is_pending_dependant
propagate_skip f db =
    skip_steps f db
      (sort_by_idx (select (is_pending_dependant db.deps f.run_id f.failed_step) db.steps))
