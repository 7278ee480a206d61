-- ===== src/Store/Sample.antt =====
-- A run for the examples: `fetch` is running, `parse` needs it, `load` needs `parse`, and `ping`
-- needs nothing.
use paceq.Base.{false, [], ◌∷◌, none, some}
use paceq.Base.Int.{pos}
use paceq.Model.RunState.{RunState}
use paceq.Model.StepState.{StepState}
use paceq.Store.Rows.{RunRow, StepRow, Dep, Db}
use paceq.Store.Fence.{LeaseRef}
use paceq.Base.Result.{ok}
use paceq.Store.RetryPlan.{Frozen}

abbrev pub holder : LeaseRef
holder = record { owner = "w1"; epoch = 3 }

abbrev pub run_row : RunRow
run_row = record {
  id = "r1";
  job_name = "nightly";
  job_version_id = "v1";
  run_key = none;
  state = RunState.running;
  max_parallel = pos 2;
  available_at = pos 0;
  defer_reason = none;
  scheduled_for = none;
  params_json = "{}";
  concurrency_key = none;
  created_at = pos 0;
  lease_owner = some "w1";
  lease_epoch = 3;
  lease_expires_at = some (pos 900);
  heartbeat_at = some (pos 1);
  cancel_requested_at = none;
  cancel_requested_by = none;
  cancel_reason = none;
  reason_code = none;
  reason_data = none;
  started_at = some (pos 1);
  finished_at = none;
  duration_ms = none;
  updated_at = pos 1;
  crash_count = 0;
  attempt = 1;
  max_attempts = 3;
  error = none;
}

abbrev pub fetch : StepRow
fetch = record {
  run_id = "r1";
  name = "fetch";
  idx = pos 0;
  state = StepState.running;
  attempt = 1;
  max_attempts = 1;
  next_attempt_at = none;
  started_at = some (pos 2);
  finished_at = none;
  duration_ms = none;
  exit_code = none;
  signal = none;
  reason_code = none;
  reason_data = none;
  log_path = none;
  log_bytes = pos 0;
  log_truncated = false;
  error_tail = none;
  outcome_source = none;
  pid = none;
  pid_start_ticks = none;
}

abbrev pub parse : StepRow
parse = record fetch {
  name = "parse";
  idx = pos 1;
  state = StepState.pending;
  attempt = 0;
  started_at = none;
}

abbrev pub load : StepRow
load = record parse { name = "load"; idx = pos 2 }

abbrev pub ping : StepRow
ping = record parse { name = "ping"; idx = pos 3 }

abbrev pub parse_needs : Dep
parse_needs = record { run_id = "r1"; step_name = "parse"; depends_on = "fetch" }

abbrev pub load_needs : Dep
load_needs = record { run_id = "r1"; step_name = "load"; depends_on = "parse" }

abbrev pub tables : Db
tables = record {
  runs = run_row ∷ [];
  steps = fetch ∷ parse ∷ load ∷ ping ∷ [];
  deps = load_needs ∷ parse_needs ∷ [];
  events = [];
  artifacts = [];
  outbox = record { rows = []; windows = [] };
}

-- No step of the runs is frozen, and the source draws zero.
abbrev pub unfrozen : Frozen
unfrozen = record { steps_of = λ run_id. ok none; jitter_for = λ run_id name attempt n. pos 0 }
