-- ===== src/Store/Examples.antt =====
-- The theorems about leases, claims and skips at a concrete run.
use mathlib.Core.List.{Memᴰ}
use paceq.Base.{
  true, false, List, [], ◌∷◌, none, some, ◌≡◌, refl, ◌↔◌, ◌+◌, arith, map, String, eq_iff,
}
use paceq.Base.Lists.{length, count_if}
use paceq.Base.Result.{ok, ok_or}
use paceq.Base.Int.{pos, ◌+ℤ◌, ◌≤ℤ◌}
use paceq.Model.StepState.{StepState}
use paceq.Model.StepState
use paceq.Store.Leases.{LeaseGrant, unix_milli, acquire_or_renew, release_lease, find_row}
use paceq.Store.Leases.Fencing.{
  Call, acquires, releases, run, Succeeds, run-Succeeds, live_lease_exclusive,
  release_restarts_epoch,
}
use paceq.Store.Rows.{Db, find_run, find_step}
use paceq.Store.Claim.{ClaimedStep, claim_next_step, running_count}
use paceq.Store.Claim.Reservation.{
  Claimed, NothingReady, claim_next_step-Claimed, claim_next_step_idle, claim_next_step_cap,
}
use paceq.Store.Closure.{contains, closure}
use paceq.Store.Closure.Reachable.{Needs, directly, through, closure-Needs}
use paceq.Store.Skip.{Failure, propagate_skip, is_pending_dependant}
use paceq.Store.Skip.Settled.{settled, row_of_skip, propagate_skip_lem, propagate_skip-Needs}
use paceq.Store.Sample.{holder, load, parse_needs, load_needs, tables}

abbrev scheduler : LeaseGrant
scheduler = record {
  name = "scheduler";
  holder = "host-a";
  epoch = 4;
  acquired_at = pos 10;
  expires_at = pos 40;
}

-- Two takeovers of the lease.
abbrev takeovers : List Call
takeovers =
    acquires (pos 50000000) "scheduler" "host-b" (pos 9000000)
    ∷ releases "reports" "host-a"
    ∷ acquires (pos 99000000) "scheduler" "host-a" (pos 9000000)
    ∷ []

run-Succeeds_example :
    (g' : LeaseGrant) × (find_row "scheduler" (run (scheduler ∷ []) takeovers) ≡ some g')
    × Succeeds scheduler g'
unfolding find_row
run-Succeeds_example =
    run-Succeeds "scheduler" takeovers (scheduler ∷ []) scheduler (refl, tt)
      (ground (arith, eq_iff "reports" "scheduler"), tt) refl

live_lease_exclusive_example :
    ((acquire_or_renew (pos 20000000) "scheduler" "host-b" (pos 9000000) (scheduler ∷ [])).0 ≡ none)
    × ((k : String)
        → find_row k
            (acquire_or_renew (pos 20000000) "scheduler" "host-b" (pos 9000000) (scheduler ∷ [])).1
          ≡ find_row k (scheduler ∷ []))
unfolding find_row unix_milli
live_lease_exclusive_example =
    live_lease_exclusive (pos 20000000) (pos 9000000) "scheduler" "host-b" (scheduler ∷ [])
      scheduler refl (ground (arith, eq_iff "host-a" "host-b")) (omega arith)

release_restarts_epoch_example :
    (acquire_or_renew
      (pos 20000000)
      "scheduler"
      "host-b"
      (pos 9000000)
      (release_lease "scheduler" "host-a" (scheduler ∷ [])).1).0
    ≡ some (record {
      name = "scheduler";
      holder = "host-b";
      epoch = 1;
      acquired_at = unix_milli (pos 20000000);
      expires_at = unix_milli (pos 20000000 +ℤ pos 9000000);
    })
unfolding find_row
release_restarts_epoch_example =
    release_restarts_epoch (pos 20000000) (pos 9000000) "scheduler" "host-a" "host-b"
      (scheduler ∷ []) scheduler (refl, tt) refl refl

abbrev ping_claim : ClaimedStep
ping_claim = record { run_id = "r1"; name = "ping"; attempt = 1; max_parallel = pos 2 }

claim_next_step-Claimed_example :
    Claimed tables
      (unix_milli (pos 5000000))
      "r1"
      holder
      ping_claim
      (claim_next_step tables (pos 5000000) "r1" holder).1
unfolding claim_next_step find_run
claim_next_step-Claimed_example = claim_next_step-Claimed tables (pos 5000000) "r1" holder refl

abbrev claimed : Db
claimed = (claim_next_step tables (pos 5000000) "r1" holder).1

claim_next_step_idle_example :
    ((claim_next_step claimed (pos 5000000) "r1" holder).1 ≡ claimed)
    × NothingReady claimed (unix_milli (pos 5000000)) "r1" holder
unfolding claim_next_step find_run
claim_next_step_idle_example = claim_next_step_idle claimed (pos 5000000) "r1" holder refl

claim_next_step_cap_example :
    (running_count "r1" claimed.steps ≡ running_count "r1" tables.steps + 1)
    × (pos (running_count "r1" claimed.steps) ≤ℤ pos 2)
unfolding find_step claim_next_step find_run
claim_next_step_cap_example =
    claim_next_step_cap tables (pos 5000000) "r1" holder (refl, (refl, (refl, (refl, tt)))) refl

load-Needs : Needs "r1" "fetch" tables.deps "load"
load-Needs =
    through load_needs (directly parse_needs (Memᴰ.tail (Memᴰ.head refl)) refl refl refl)
      (Memᴰ.head refl) refl refl refl

closure-Needs_example :
    (contains (closure "r1" "fetch" tables.deps) "load" ≡ true)
    ↔ Needs "r1" "fetch" tables.deps "load"
closure-Needs_example = closure-Needs "r1" "fetch" tables.deps "load"

abbrev fetch_failed : Failure
fetch_failed = record {
  run_id = "r1";
  failed_step = "fetch";
  attempt = 1;
  at = pos 7;
  actor = "w1";
}

propagate_skip_example :
    (after : Db) × (propagate_skip fetch_failed tables ≡ ok after)
    × (after.steps ≡ map (row_of_skip fetch_failed tables.deps) tables.steps)
    × (after.runs ≡ tables.runs)
    × (after.deps ≡ tables.deps)
    × (length after.events
        ≡ length tables.events
          + count_if (is_pending_dependant tables.deps "r1" "fetch") tables.steps)
propagate_skip_example = propagate_skip_lem fetch_failed tables

abbrev skipped_tables : Db
skipped_tables = ok_or tables (propagate_skip fetch_failed tables)

propagate_skip-Needs_example :
    StepState.same (settled fetch_failed tables.deps load).state StepState.pending ≡ false
unfolding propagate_skip closure paceq.Model.StepMachine.next_step_state
propagate_skip-Needs_example =
    propagate_skip-Needs fetch_failed tables skipped_tables (settled fetch_failed tables.deps load)
      refl (Memᴰ.tail (Memᴰ.tail (Memᴰ.head refl))) refl load-Needs
