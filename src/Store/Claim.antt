-- ===== src/Store/Claim.antt =====
-- internal/store/claim.go: the claim of one step, which is the decision and the reservation in one
-- statement.
pub mod Choice
pub mod Ready
pub mod Reservation
use Prim.Native.Nat.{Ordering}
use Prim.Native.String.{compare}
use paceq.Base.{
  ℕ, ◌+◌, String, Bool, true, false, not, ◌&&◌, ◌||◌, List, [], ◌∷◌, Option, none, some, str_eq,
}
use paceq.Base.Tests.{if◌then◌else◌, ◌==◌}
use paceq.Base.Lists.{any, select, count_if}
use paceq.Base.Int.{ℤ, pos, ltb_ℤ, leb_ℤ, eqb_ℤ}
use paceq.Base.Result.{Result, ok, err}
use paceq.Model.RunState.{RunState}
use paceq.Model.RunState
use paceq.Model.StepState.{StepState, pending, running, succeeded}
use paceq.Model.StepState
use paceq.Store.Rows.{
  RunRow, StepRow, Dep, Db, lease_epoch_is, append_run_event, find_run, is_step, update_steps,
}
use paceq.Store.Leases.{unix_milli}
use paceq.Store.Fence.{Error, no_holder, LeaseRef, held}

pub record ClaimedStep : Type 0 where
  pub run_id : String
  pub name : String
  pub attempt : ℕ
  pub max_parallel : ℤ

-- `s.next_attempt_at IS NULL OR s.next_attempt_at <= ?1`
unfoldable pub past_retry_gate : Option ℤ → ℤ → Bool
past_retry_gate none now = true
past_retry_gate (some at) now = leb_ℤ at now

-- An upstream row that the edge names and that has not succeeded.
unfoldable pub is_open_upstream : Dep → StepRow → Bool
is_open_upstream d u =
    str_eq u.run_id d.run_id && str_eq u.name d.depends_on && not (StepState.same u.state succeeded)

-- The sub-select under NOT EXISTS: an edge of the step to an upstream that has not succeeded.
unfoldable pub waits : Db → StepRow → Bool
unfolding is_open_upstream
waits db s =
    any
      (λ d.
        str_eq d.run_id s.run_id && str_eq d.step_name s.name && any (is_open_upstream d) db.steps)
      db.deps

abbrev pub is_running_of : String → StepRow → Bool
is_running_of run_id x = str_eq x.run_id run_id && StepState.same x.state running

-- `SELECT COUNT(*) FROM steps x WHERE x.run_id = s.run_id AND x.state = 'running'`
abbrev pub running_count : String → List StepRow → ℕ
running_count run_id = count_if (is_running_of run_id)

abbrev pub is_null : Option ℤ → Bool
is_null none = true
is_null (some _) = false

-- `r.lease_owner = ?3`, which NULL does not satisfy.
abbrev pub is_owner : Option String → String → Bool
is_owner none who = false
is_owner (some o) who = str_eq o who

-- The conditions on the joined run.
unfoldable pub run_admits : Db → String → LeaseRef → RunRow → Bool
run_admits db run_id ref r =
    RunState.same r.state RunState.running
    && is_null r.cancel_requested_at
    && is_owner r.lease_owner ref.owner
    && (r.lease_epoch == ref.epoch)
    && ltb_ℤ (pos (running_count run_id db.steps)) r.max_parallel

-- The conditions on a candidate's own row and edges.
unfoldable pub step_admits : Db → ℤ → String → StepRow → Bool
unfolding past_retry_gate waits
step_admits db now run_id s =
    str_eq s.run_id run_id
    && StepState.same s.state pending
    && past_retry_gate s.next_attempt_at now
    && not (waits db s)

-- ORDER BY s.idx, s.name
unfoldable pub sorts_before : StepRow → StepRow → Bool
sorts_before a b =
    ltb_ℤ a.idx b.idx
    || (eqb_ℤ a.idx b.idx && elim (compare a.name b.name) [ Ordering.lt ↦ true | _ ↦ false ])

-- The lower of a row and the first of the rows after it.
abbrev pub lower : StepRow → Option StepRow → StepRow
lower s none = s
lower s (some t) = if sorts_before t s then t else s

-- ORDER BY ... LIMIT 1
unfoldable pub first_row : List StepRow → Option StepRow
unfolding sorts_before
first_row [] = none
first_row (s ∷ rest) = some (lower s (first_row rest))

-- COALESCE(column, value)
abbrev pub coalesce : Option ℤ → ℤ → Option ℤ
coalesce none value = some value
coalesce (some old) value = some old

-- The SET clause.
unfoldable pub take_step : ℤ → StepRow → StepRow
take_step now s = record s {
  state = running;
  attempt = s.attempt + 1;
  started_at = coalesce s.started_at now;
  reason_code = none;
}

-- The row that the inner SELECT chooses.
unfoldable pub choose_step : Db → ℤ → String → LeaseRef → RunRow → Option StepRow
unfolding run_admits step_admits first_row
choose_step db now run_id ref r =
    if run_admits db run_id ref r
    then first_row (select (step_admits db now run_id) db.steps)
    else none

-- claimStepSQL and the event, once a row was chosen: one transaction.
unfoldable pub flip_step : Db → ℤ → LeaseRef → RunRow → StepRow → ClaimedStep × Db
unfolding take_step append_run_event update_steps
flip_step db now ref r s = (
  record {
    run_id = s.run_id;
    name = s.name;
    attempt = s.attempt + 1;
    max_parallel = r.max_parallel;
  },
  append_run_event
      (record {
        run_id = s.run_id;
        step_name = s.name;
        at = now;
        kind = "step.started";
        from_state = "pending";
        to_state = "running";
        reason_code = "";
        actor = ref.owner;
        detail_json = lease_epoch_is ref.epoch;
      })
      (record db { steps = update_steps (is_step s.run_id s.name) (take_step now) db.steps }),
)

abbrev pub claimed_or_none : Db → ℤ → LeaseRef → RunRow → Option StepRow → Option ClaimedStep × Db
claimed_or_none db now ref r none = (none, db)
claimed_or_none db now ref r (some s) =
    (some (flip_step db now ref r s).0, (flip_step db now ref r s).1)

-- The transaction: a run that is not there joins no row. `now` is in milliseconds.
unfoldable pub claim_tx : Db → ℤ → String → LeaseRef → Option RunRow → Option ClaimedStep × Db
unfolding choose_step flip_step
claim_tx db now run_id ref none = (none, db)
claim_tx db now run_id ref (some r) = claimed_or_none db now ref r (choose_step db now run_id ref r)

-- ClaimNextStep. `now` is the clock's reading in nanoseconds.
unfoldable pub claim_next_step : Db → ℤ → String → LeaseRef → Result Error (Option ClaimedStep) × Db
unfolding held unix_milli claim_tx
claim_next_step db now run_id ref =
    let (claimed, after) = claim_tx db (unix_milli now) run_id ref (find_run run_id db.runs) in
    if not (held ref) then (err no_holder, db) else (ok claimed, after)
