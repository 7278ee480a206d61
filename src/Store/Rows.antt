-- ===== src/Store/Rows.antt =====
-- internal/store/migrations: the rows of `runs`, `steps`, `step_deps` and `run_events`, with the
-- columns that the modelled statements read or write. A nullable column is an Option. The CHECK
-- constraints close the sets of states, so a row carries the state itself; times are unix
-- milliseconds. `finishTransition` and `appendRunEvent` write the events.
pub mod Keys
use paceq.Base.{true, ℕ, String, Bool, false, List, [], ◌∷◌, ◌++◌, Option, none, some, str_eq, ◌&&◌}
use paceq.Base.Tests.{if◌then◌else◌}
use paceq.Base.Int.{ℤ, leb_ℤ}
use paceq.Model.RunState.{RunState}
use paceq.Model.StepState.{StepState}
use paceq.Store.Artifacts.{ArtifactRow}
use paceq.Store.Outbox.{Outbox}

-- A row of `jobs`.
pub record JobRow : Type 0 where
  pub name : String
  pub max_concurrent : ℤ

-- A JSON object in a text column, as what the code prints it from: a text that it was given, the
-- epoch of `epochDetail`, the failed step and the attempt of `propagateSkipTx`, those of
-- `terminalDataJSON`, a reason to wait, the crashes and their bound, another object with
-- the epoch of `mergeEpochDetail`, or with the attempt, the backoff and the time of `mergeRetryFacts`.
pub data Detail : Type 0 where
  text : String → Detail
  lease_epoch_is : ℕ → Detail
  upstream : String → ℕ → Detail
  failed_step_is : String → ℕ → Detail
  deferred_for : String → Detail
  crashes_are : ℕ → ℤ → Detail
  with_epoch : Detail → ℕ → Detail
  retry_facts : Detail → ℕ → ℤ → ℤ → Detail

-- Whether the printed object is the empty text.
abbrev pub is_empty : Detail → Bool
is_empty (text s) = str_eq s ""
is_empty (lease_epoch_is n) = false
is_empty (upstream step attempt) = false
is_empty (failed_step_is step attempt) = false
is_empty (deferred_for why) = false
is_empty (crashes_are crashes most) = false
is_empty (with_epoch base n) = false
is_empty (retry_facts base attempt backoff_ms next_at) = false

pub record RunRow : Type 0 where
  pub id : String
  pub job_name : String
  pub job_version_id : String
  pub run_key : Option String
  pub state : RunState
  pub max_parallel : ℤ
  pub available_at : ℤ
  pub defer_reason : Option String
  pub scheduled_for : Option ℤ
  pub params_json : String
  pub concurrency_key : Option String
  pub created_at : ℤ
  pub lease_owner : Option String
  pub lease_epoch : ℕ
  pub lease_expires_at : Option ℤ
  pub heartbeat_at : Option ℤ
  pub cancel_requested_at : Option ℤ
  pub cancel_requested_by : Option String
  pub cancel_reason : Option String
  pub reason_code : Option String
  pub reason_data : Option Detail
  pub started_at : Option ℤ
  pub finished_at : Option ℤ
  pub duration_ms : Option ℤ
  pub updated_at : ℤ
  pub crash_count : ℕ
  pub attempt : ℕ
  pub max_attempts : ℕ
  pub error : Option String

pub record StepRow : Type 0 where
  pub run_id : String
  pub name : String
  pub idx : ℤ
  pub state : StepState
  pub attempt : ℕ
  pub max_attempts : ℕ
  pub next_attempt_at : Option ℤ
  pub started_at : Option ℤ
  pub finished_at : Option ℤ
  pub duration_ms : Option ℤ
  pub exit_code : Option ℤ
  pub signal : Option String
  pub reason_code : Option String
  pub reason_data : Option Detail
  pub log_path : Option String
  pub log_bytes : ℤ
  pub log_truncated : Bool
  pub error_tail : Option String
  pub outcome_source : Option String
  pub pid : Option ℤ
  pub pid_start_ticks : Option ℤ

-- A frozen edge: the step waits on `depends_on`.
pub record Dep : Type 0 where
  pub run_id : String
  pub step_name : String
  pub depends_on : String

-- RunEvent, the event before it is written; an empty text is an absent one.
pub record RunEvent : Type 0 where
  pub run_id : String
  pub step_name : String
  pub at : ℤ
  pub kind : String
  pub from_state : String
  pub to_state : String
  pub reason_code : String
  pub actor : String
  pub detail_json : Detail

pub record EventRow : Type 0 where
  pub run_id : String
  pub step_name : Option String
  pub at : ℤ
  pub kind : String
  pub from_state : Option String
  pub to_state : Option String
  pub reason_code : Option String
  pub actor : String
  pub detail_json : Detail

pub record Db : Type 0 where
  pub runs : List RunRow
  pub steps : List StepRow
  pub deps : List Dep
  pub events : List EventRow
  pub artifacts : List ArtifactRow
  pub outbox : Outbox

abbrev pub null_if_empty : String → Option String
null_if_empty s = if str_eq s "" then none else some s

-- CHECK (finished_at IS NULL OR started_at IS NULL OR finished_at >= started_at)
abbrev pub is_timed : RunRow → Bool
is_timed r = elim r.finished_at [
  | none ↦ true
  | some finished ↦ elim r.started_at [ none ↦ true | some started ↦ leb_ℤ started finished ]
]

-- A run that has no start, or one not after a time.
abbrev pub starts_by : ℤ → RunRow → Bool
starts_by now_ms r = elim r.started_at [ none ↦ true | some started ↦ leb_ℤ started now_ms ]

-- appendRunEvent: the row goes to the end of the table.
unfoldable pub append_run_event : RunEvent → Db → Db
append_run_event e db = record db {
  events =
      db.events
      ++ record {
        run_id = e.run_id;
        step_name = null_if_empty e.step_name;
        at = e.at;
        kind = e.kind;
        from_state = null_if_empty e.from_state;
        to_state = null_if_empty e.to_state;
        reason_code = null_if_empty e.reason_code;
        actor = if str_eq e.actor "" then "system" else e.actor;
        detail_json = if is_empty e.detail_json then text "{}" else e.detail_json;
      }
        ∷ [];
}

-- `SELECT ... FROM runs WHERE id = ?`, over a table with one row for each id.
unfoldable pub find_run : String → List RunRow → Option RunRow
find_run id [] = none
find_run id (r ∷ rest) = if str_eq r.id id then some r else find_run id rest

abbrev pub is_step : String → String → StepRow → Bool
is_step run_id name s = str_eq s.run_id run_id && str_eq s.name name

-- `SELECT ... FROM steps WHERE run_id = ? AND name = ?`.
unfoldable pub find_step : String → String → List StepRow → Option StepRow
find_step run_id name [] = none
find_step run_id name (s ∷ rest) =
    if is_step run_id name s then some s else find_step run_id name rest

-- `UPDATE steps SET ... WHERE` a test of the row.
unfoldable pub update_steps : (StepRow → Bool) → (StepRow → StepRow) → List StepRow → List StepRow
update_steps p f [] = []
update_steps p f (s ∷ rest) = (if p s then f s else s) ∷ update_steps p f rest

-- `UPDATE runs SET ... WHERE` a test of the row.
unfoldable pub update_runs : (RunRow → Bool) → (RunRow → RunRow) → List RunRow → List RunRow
update_runs p f [] = []
update_runs p f (r ∷ rest) = (if p r then f r else r) ∷ update_runs p f rest
