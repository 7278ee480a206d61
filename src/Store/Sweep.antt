-- ===== src/Store/Sweep.antt =====
-- internal/store/runlease.go: ReapExpiredRuns, one sweep over the runs whose holder is gone.
pub mod Candidates
pub mod Swept
use paceq.Base.{
  ℕ, String, Bool, true, false, not, ◌&&◌, ◌||◌, List, [], ◌∷◌, Option, none, some, map, str_eq,
}
use paceq.Base.Tests.{if◌then◌else◌}
use paceq.Base.Lists.{select, take}
use paceq.Base.Int.{ℤ, pos, pos_part, leb_ℤ, ◌-ℤ◌}
use paceq.Base.Result.{Result, ok, err, ◌>>=◌}
use paceq.Model.RunState.{running}
use paceq.Model.RunState
use paceq.Store.Leases.{unix_milli}
use paceq.Store.Rows.{RunRow, Db}
use paceq.Store.Fence.{Error, with_tx}
use paceq.Store.RetryPlan.{Frozen}
use paceq.Store.Reaper.{ReapedRun, reap_one}

-- ReapOptions.
pub record ReapOptions : Type 0 where
  pub skew : ℤ
  pub backoff : ℤ
  pub max_crash_count : ℤ
  pub limit : ℤ
  pub ignore_lease : Bool

-- DefaultClockSkewAllowance, DefaultRequeueBackoff, DefaultMaxCrashCount and reapLimit.
abbrev pub default_clock_skew_allowance : ℤ
default_clock_skew_allowance = pos 10000000000

abbrev pub default_requeue_backoff : ℤ
default_requeue_backoff = pos 30000000000

abbrev pub default_max_crash_count : ℤ
default_max_crash_count = pos 5

abbrev pub reap_limit : ℤ
reap_limit = pos 500

abbrev pub or_default : ℤ → ℤ → ℤ
or_default default given = if leb_ℤ given (pos 0) then default else given

-- The WHERE clauses of reapCandidatesSQL and of reapAllRunningSQL.
unfoldable pub is_expired_by : ℤ → RunRow → Bool
is_expired_by cut_ms r = elim r.lease_expires_at [
  | none ↦ false
  | some expires ↦ leb_ℤ expires cut_ms
]

unfoldable pub is_candidate : Bool → ℤ → RunRow → Bool
unfolding is_expired_by
is_candidate ignore_lease cut_ms r =
    RunState.same r.state running && (ignore_lease || is_expired_by cut_ms r)

-- ORDER BY lease_expires_at, where NULL comes first.
unfoldable pub expires_first : Option ℤ → Option ℤ → Bool
expires_first none e = true
expires_first (some d) none = false
expires_first (some d) (some e) = leb_ℤ d e

unfoldable pub insert_by_expiry : RunRow → List RunRow → List RunRow
unfolding expires_first
insert_by_expiry r [] = r ∷ []
insert_by_expiry r (t ∷ rest) =
    if expires_first r.lease_expires_at t.lease_expires_at
    then r ∷ t ∷ rest
    else t ∷ insert_by_expiry r rest

unfoldable pub sort_by_expiry : List RunRow → List RunRow
unfolding insert_by_expiry
sort_by_expiry [] = []
sort_by_expiry (r ∷ rest) = insert_by_expiry r (sort_by_expiry rest)

-- The identities that the query answers with.
unfoldable pub reap_candidates : ReapOptions → ℤ → List RunRow → List String
unfolding is_candidate sort_by_expiry unix_milli ◌-ℤ◌
reap_candidates opt now runs =
    let cut_ms = unix_milli (now -ℤ or_default default_clock_skew_allowance opt.skew) in
    map (λ r. r.id)
      (take (pos_part (or_default reap_limit opt.limit))
        (sort_by_expiry (select (is_candidate opt.ignore_lease cut_ms) runs)))

-- The loop over the identities.
unfoldable pub reap_each :
    (Db → String → Result Error (ReapedRun × Db))
    → Db
    → List String
    → Result Error (List ReapedRun × Db)
reap_each reap db [] = ok ([], db)
reap_each reap db (id ∷ rest) =
    reap db id >>= (λ one. reap_each reap one.1 rest >>= (λ more. ok (one.0 ∷ more.0, more.1)))

-- ReapExpiredRuns.
unfoldable pub reap_expired_runs :
    Frozen → Db → ℤ → ReapOptions → Result Error (List ReapedRun) × Db
unfolding reap_each reap_one reap_candidates
reap_expired_runs frozen db now opt = with_tx db (
    reap_each
      (reap_one frozen now (or_default default_requeue_backoff opt.backoff)
        (or_default default_max_crash_count opt.max_crash_count))
      db (reap_candidates opt now db.runs))
