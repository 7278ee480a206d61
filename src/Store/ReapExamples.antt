-- ===== src/Store/ReapExamples.antt =====
-- The theorems about the reaper at a concrete run, whose holder `w1` went silent.
use paceq.Base.{String, [], ◌∷◌, List, map, ◌≡◌, refl}
use paceq.Base.Lists.{length}
use paceq.Base.Int.{pos}
use paceq.Base.Result.{ok}
use paceq.Store.Rows.{Db, find_run}
use paceq.Store.Rows.Keys.{UniqueSteps, UniqueRuns}
use paceq.Store.Reaper.{ReapedRun, reap_one}
use paceq.Store.Reaper.Verdict.{Reaped}
use paceq.Store.Reaper.Decision.{reap_one-Reaped}
use paceq.Store.Sweep.{ReapOptions, reap_candidates, reap_expired_runs}
use paceq.Store.Sweep.Swept.{Swept, has_lapsed, reap_expired_runs-Swept}
use paceq.Store.Sample.{run_row, tables, unfrozen}
use paceq.Base.{false}

tables-UniqueSteps : UniqueSteps tables.steps
unfolding paceq.Store.Rows.find_step
tables-UniqueSteps = (refl, (refl, (refl, (refl, tt))))

tables-UniqueRuns : UniqueRuns tables.runs
unfolding find_run
tables-UniqueRuns = (refl, tt)

reap_one-Reaped_example :
    (answer : ReapedRun) × (after : Db) × (reap_one unfrozen
        (pos 900000000000)
        (pos 30000000000)
        (pos 5)
        tables
        "r1"
      ≡ ok (answer, after))
    × Reaped tables (pos 5) run_row answer after
unfolding find_run paceq.Store.Leases.unix_milli
reap_one-Reaped_example =
    reap_one-Reaped unfrozen (pos 900000000000) (pos 30000000000) (pos 5) tables "r1" run_row
      tables-UniqueSteps refl refl refl

abbrev by_default : ReapOptions
by_default = record {
  skew = pos 0;
  backoff = pos 0;
  max_crash_count = pos 0;
  limit = pos 0;
  ignore_lease = false;
}

reap_expired_runs-Swept_example :
    (answers : List ReapedRun) × (after : Db) × (reap_expired_runs unfrozen tables
        (pos 900000000000)
        by_default
      ≡ (ok answers, after))
    × (length answers ≡ 1)
    × ((id : String)
        → Swept
            (has_lapsed by_default (pos 900000000000))
            (map (λ a. a.id) answers)
            tables.runs
            after.runs
            id)
unfolding paceq.Store.Leases.unix_milli paceq.Base.Int.◌-ℤ◌
reap_expired_runs-Swept_example =
    reap_expired_runs-Swept unfrozen tables (pos 900000000000) by_default tables-UniqueSteps
      tables-UniqueRuns refl

-- The run of the tables is a candidate.
silent_run : reap_candidates by_default (pos 900000000000) tables.runs ≡ "r1" ∷ []
unfolding reap_candidates
silent_run = refl
