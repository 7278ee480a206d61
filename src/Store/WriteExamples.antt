-- ===== src/Store/WriteExamples.antt =====
-- The theorems about what a holder writes, the notifications and the references at a concrete run.
use paceq.Base.{false, List, [], ◌∷◌, none, some, ◌≡◌, refl, arith, String, eq_iff}
use paceq.Base.Result.{ok}
use paceq.Base.Int.{pos}
use paceq.Model.RunState.{RunState}
use paceq.Model.StepState.{StepState}
use paceq.Model.StepState
use paceq.Store.Rows.{Db, find_run}
use paceq.Store.Fence.{LeaseRef}
use paceq.Store.Closure.{closure}
use paceq.Base.{str_eq}
use paceq.Base.Tests.{if◌then◌else◌}
use paceq.Base.Int.{ℤ}
use paceq.Model.Event.{step_failed}
use paceq.Store.Rows.{text}
use paceq.Store.Fence.{Error, check_lease}
use paceq.Store.Finish.{FinishReason, finish_run}
use paceq.Store.Finish.Agreement.{Verdict, finish_run-Verdict}
use paceq.Store.StepWrites.{StepOutcome, record_step_outcome}
use paceq.Store.StepStart.{start_step}
use paceq.Store.StepWrites.Outcomes.{Recorded, record_step_outcome-Recorded}
use paceq.Store.StepStart.Starts.{Started, start_step-Started}
use paceq.Store.Outbox.{Notification, Outbox, insert_notification}
use paceq.Store.Outbox.Delivery.{Fate, insert_notification-Fate}
use paceq.Store.Artifacts.{Artifact, ArtifactRow, insert_artifacts}
use paceq.Store.CancelRequest.{request_cancel}
use paceq.Store.CancelRequest.FirstStands.{request_cancel_twice}
use paceq.Store.Handback.{drain_run}
use paceq.Store.Handback.Drained.{Drained, drain_run-Drained}
use paceq.Store.Fence.{lease_held_by}
use paceq.Base.{true, ◌⊎◌}
use paceq.Store.Sample.{unfrozen, holder, run_row, fetch, parse, tables}

-- The two fetched steps are done: the run can end.
abbrev finished_tables : Db
finished_tables = record tables {
  steps =
      record fetch { state = StepState.succeeded } ∷ record parse { state = StepState.failed } ∷ [];
}

abbrev failed_step : FinishReason
failed_step = record { code = "RUN_FAILED_STEP"; data_json = text "" }

abbrev alert : Notification
alert = record {
  topic = "run.failed";
  subject = "nightly";
  target = "mail";
  payload = "{}";
  dedup_key = "run.failed|nightly|mail|r1";
  group_key = "";
  throttle = pos 3000000000;
  created_at = pos 9000000;
  available_at = pos 9000000;
}

finish_run-Verdict_example :
    Verdict finished_tables
      (pos 9000000)
      "r1"
      holder
      failed_step
      RunState.failed
      (finish_run finished_tables (pos 9000000) "r1" holder failed_step (alert ∷ [])).1
unfolding finish_run find_run paceq.Model.RunMachine.next_run_state StepState.is_terminal
finish_run-Verdict_example =
    finish_run-Verdict finished_tables (pos 9000000) "r1" holder failed_step (alert ∷ [])
      RunState.failed refl

-- A holder that was replaced.
abbrev replaced : LeaseRef
replaced = record { owner = "w1"; epoch = 2 }

abbrev crash : StepOutcome
crash = record {
  event = step_failed;
  reason_code = "STEP_FAILED_NONZERO_EXIT";
  exit_code = some (pos 1);
  signal = "";
  finished_at = none;
  log_meta = record { rel_path = "a.log"; bytes = pos 10; truncated = false; error_tail = "boom" };
  detail_json = text "";
  retry = none;
  no_further_attempt = false;
  artifacts = [];
  outcome_source = "direct";
  actor = "w1";
}

record_step_outcome-Recorded_example :
    (check_lease tables "r1" holder (pos 9000000) ≡ ok tt)
    × Recorded unfrozen tables "r1" "fetch" crash
        (pos 9000000)
        (text "{}")
        (record_step_outcome unfrozen tables (pos 9000000) "r1" "fetch" crash holder).1
unfolding record_step_outcome find_run paceq.Model.StepMachine.next_step_state closure
record_step_outcome-Recorded_example =
    record_step_outcome-Recorded unfrozen tables (pos 9000000) "r1" "fetch" crash holder refl

start_step-Started_example :
    (check_lease tables "r1" holder (pos 9000000) ≡ ok tt)
    × Started tables
        (pos 9000000)
        "r1"
        "ping"
        (start_step tables (pos 9000000) "r1" "ping" holder).1
unfolding start_step find_run paceq.Model.StepMachine.next_step_state
start_step-Started_example = start_step-Started tables (pos 9000000) "r1" "ping" holder refl

abbrev no_box : Outbox
no_box = record { rows = []; windows = [] }

insert_notification-Fate_example :
    (after : Outbox) × (insert_notification alert no_box ≡ ok after) × Fate alert no_box after
insert_notification-Fate_example =
    insert_notification-Fate alert no_box (ground (arith, eq_iff "run.failed" ""))
      (ground (arith, eq_iff "nightly" "")) (ground (arith, eq_iff "mail" ""))
      (ground (arith, eq_iff "run.failed|nightly|mail|r1" ""))

abbrev idx : String → ℤ
idx name = if str_eq name "fetch" then pos 0 else pos 1

abbrev report : Artifact
report = record {
  name = "report";
  uri = "s3://b/r";
  size_bytes = none;
  checksum = "";
  media_type = "";
}

abbrev published : List ArtifactRow
published = insert_artifacts idx "r1" "parse" (pos 5) (("i1", report) ∷ []) []

request_cancel_twice_example :
    (request_cancel
      (request_cancel tables (pos 1000000) "r1" "ann" "wrong day").1
      (pos 2000000)
      "r1"
      "bob"
      "oops").0
    ≡ (request_cancel tables (pos 1000000) "r1" "ann" "wrong day").0
unfolding find_run
request_cancel_twice_example =
    request_cancel_twice tables (pos 1000000) (pos 2000000) "r1" "ann" "wrong day" "bob" "oops"
      run_row refl (ground (arith, eq_iff "ann" ""))

-- Somebody asked to cancel the run that the holder drives.
abbrev asked_tables : Db
asked_tables = record tables {
  runs =
      record run_row { cancel_requested_at = some (pos 8); cancel_requested_by = some "ada" } ∷ [];
}

drain_run-Drained_example :
    ((lease_held_by run_row holder ≡ true)
      × ((drain_run tables (pos 9000000) "r1" holder "RUN_INTERRUPTED_SHUTDOWN").0 ≡ ok true)
      × Drained tables
          (pos 9000000)
          "r1"
          "RUN_INTERRUPTED_SHUTDOWN"
          run_row
          (drain_run tables (pos 9000000) "r1" holder "RUN_INTERRUPTED_SHUTDOWN").1)
    ⊎ ((lease_held_by run_row holder ≡ false)
        × (drain_run tables (pos 9000000) "r1" holder "RUN_INTERRUPTED_SHUTDOWN"
            ≡ (ok false, tables)))
unfolding find_run paceq.Store.Fence.held
drain_run-Drained_example =
    drain_run-Drained tables (pos 9000000) "r1" holder "RUN_INTERRUPTED_SHUTDOWN" run_row
      (ground (arith, eq_iff "RUN_INTERRUPTED_SHUTDOWN" "")) refl refl refl
