-- ===== src/Store/ClaimExamples.antt =====
-- The theorems about a claim of runs at a concrete queue: `r1` runs, `r2` is due, `r3` waits for the key
-- `hourly:eu` and `r4` is to be cancelled.
use mathlib.Core.List.{Memᴰ}
use paceq.Base.{◌+◌, ◌≤◌, String, ◌&&◌, List, [], ◌∷◌, Option, none, some, ◌≡◌, refl, arith, str_eq}
use paceq.Base.Tests.{if◌then◌else◌, ◌==◌}
use paceq.Base.Lists.{length}
use paceq.Base.Int.{pos}
use paceq.Base.Result.{ok, err}
use paceq.Model.RunState.{queued}
use paceq.Store.Rows.{RunRow, JobRow, Detail, text, Db, find_run}
use paceq.Store.Rows.Keys.{UniqueRuns}
use paceq.Store.Fence.{LeaseRef, check_lease, lease_lost}
use paceq.Store.Sample.{run_row, tables}
use paceq.Store.ClaimRuns.{ClaimSpec, ClaimedRun, conc_data_of}
use paceq.Store.ClaimPass.{claim_runs}
use paceq.Store.ClaimPass.Bounded.{KeepsLimits, claim_runs-Within}
use paceq.Store.ClaimPass.Leased.{claim_runs-check_lease, claim_runs-Kept}

abbrev due : RunRow
due = record run_row {
  id = "r2";
  state = queued;
  lease_owner = none;
  lease_epoch = 4;
  lease_expires_at = none;
  heartbeat_at = none;
}

abbrev deferred : RunRow
deferred = record due {
  id = "r3";
  job_name = "hourly";
  defer_reason = some "concurrency_key";
  reason_data = some (text "hourly:eu");
}

abbrev unwanted : RunRow
unwanted = record due { id = "r4"; cancel_requested_at = some (pos 5) }

abbrev queue : Db
queue = record tables { runs = run_row ∷ due ∷ deferred ∷ unwanted ∷ [] }

abbrev job_rows : List JobRow
job_rows =
    record { name = "nightly"; max_concurrent = pos 2 }
    ∷ record { name = "hourly"; max_concurrent = pos 1 }
    ∷ []

-- An object of the examples is its key.
abbrev key_field : Detail → Option String
key_field (text key) = some key
key_field _ = none

abbrev two_runs : ClaimSpec
two_runs = record { owner = "w2"; ttl = pos 0; limit = pos 2; only = [] }

abbrev answer_of : RunRow → ClaimedRun
answer_of r = record {
  id = r.id;
  job_name = r.job_name;
  job_version_id = r.job_version_id;
  run_key = "";
  attempt = r.attempt;
  lease_epoch = r.lease_epoch + 1;
  params_json = r.params_json;
}

queue-UniqueRuns : UniqueRuns queue.runs
unfolding find_run
queue-UniqueRuns = (refl, (refl, (refl, (refl, tt))))

abbrev after_claim : Db
unfolding claim_runs
after_claim = (claim_runs key_field job_rows queue (pos 1000000000) two_runs).1

queue_claimed :
    claim_runs key_field job_rows queue (pos 1000000000) two_runs
    ≡ (ok (answer_of due ∷ answer_of deferred ∷ []), after_claim)
unfolding claim_runs
queue_claimed = refl

abbrev nightly : JobRow
nightly = record { name = "nightly"; max_concurrent = pos 2 }

queue-KeepsLimits : KeepsLimits "nightly" (pos 2) "hourly:eu" queue.runs
queue-KeepsLimits = (queue-UniqueRuns, omega arith, omega arith)

claim_runs-Within_example :
    (answers : List ClaimedRun) × (after : Db) × (claim_runs key_field job_rows queue
        (pos 1000000000)
        two_runs
      ≡ (ok answers, after))
    × KeepsLimits "nightly" (pos 2) "hourly:eu" after.runs
    × (length answers ≤ 2)
unfolding paceq.Store.ClaimRuns.find_job paceq.Store.Leases.unix_milli
claim_runs-Within_example =
    claim_runs-Within key_field job_rows queue (pos 1000000000) two_runs "nightly" nightly
      "hourly:eu" refl refl refl queue-KeepsLimits

abbrev w2_lease : LeaseRef
w2_lease = record { owner = "w2"; epoch = 5 }

claim_runs-check_lease_example :
    (b : RunRow) × (find_run "r3" queue.runs ≡ some b)
    × (b.state ≡ queued)
    × (5 ≡ b.lease_epoch + 1)
    × (check_lease after_claim "r3" w2_lease (pos 2000000000)
        ≡ (if str_eq "w2" "w2" && (5 == 5) then ok tt else err lease_lost))
unfolding paceq.Store.Fence.held
claim_runs-check_lease_example =
    claim_runs-check_lease key_field job_rows queue after_claim (pos 1000000000) two_runs
      (answer_of due ∷ answer_of deferred ∷ []) (answer_of deferred) w2_lease (pos 2000000000)
      queue-UniqueRuns queue_claimed (Memᴰ.tail (Memᴰ.head refl)) refl

claim_runs-Kept_example : find_run "r1" after_claim.runs ≡ some run_row
unfolding find_run
claim_runs-Kept_example =
    claim_runs-Kept key_field job_rows queue after_claim (pos 1000000000) two_runs
      (answer_of due ∷ answer_of deferred ∷ []) "r1" run_row queue-UniqueRuns queue_claimed refl
      refl
