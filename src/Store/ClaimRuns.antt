-- ===== src/Store/ClaimRuns.antt =====
-- internal/store/runlease.go and concurrency_key.go: ClaimRuns, which takes due runs for an owner in one
-- transaction. The table `jobs` is only read, and an argument; so is `unmarshal`, json.Unmarshal
-- of the package encoding/json on a row's `reason_data`. Rows that a RETURNING clause answers
-- with come in the order of the table.
pub mod Counts
pub mod Chosen
pub mod Started
pub mod Answers
pub mod Taken
pub mod Passes
use Prim.Native.Nat.{Ordering}
use Prim.Native.String
use paceq.Base.{
  ℕ, zero, suc, ◌+◌, ◌-◌, String, Bool, true, false, not, ◌&&◌, ◌||◌, List, [], ◌∷◌, ◌++◌, Option,
  none, some, map, str_eq,
}
use paceq.Base.Tests.{if◌then◌else◌, ltb, ◌==◌}
use paceq.Base.Lists.{select, take, length, count_if}
use paceq.Base.Int.{ℤ, pos, pos_part, leb_ℤ, ltb_ℤ, ◌+ℤ◌}
use paceq.Base.Result.{Result, ok, err, ◌>>=◌}
use paceq.Model.RunState.{RunState, queued, running, cancelled}
use paceq.Model.RunState
use paceq.Model.RunMachine.{terminal_verdict}
use paceq.Store.Leases.{unix_milli}
use paceq.Store.Rows.{
  RunRow, JobRow, Detail, text, lease_epoch_is, Db, RunEvent, append_run_event, update_runs,
}
use paceq.Store.Fence.{Error, no_holder, owner_of, with_tx}
use paceq.Store.Closure.{contains}
use paceq.Store.Finish.{step_states}
use paceq.Store.Quota.{Candidate, choose_claimable}
use paceq.Store.CloseOut.{close_out_cancelled_steps}
use paceq.Store.ObserveCancel.{cancel_guards, terminal_data, read_steps, is_requested}
use paceq.Store.Renew.{ttl_or_default}

-- ClaimSpec and ClaimedRun.
pub record ClaimSpec : Type 0 where
  pub owner : String
  pub ttl : ℤ
  pub limit : ℤ
  pub only : List String

pub record ClaimedRun : Type 0 where
  pub id : String
  pub job_name : String
  pub job_version_id : String
  pub run_key : String
  pub attempt : ℕ
  pub lease_epoch : ℕ
  pub params_json : String

-- The RETURNING clause of both claims.
abbrev pub claimed_of : RunRow → ClaimedRun
claimed_of r = record {
  id = r.id;
  job_name = r.job_name;
  job_version_id = r.job_version_id;
  run_key = owner_of r.run_key;
  attempt = r.attempt;
  lease_epoch = r.lease_epoch;
  params_json = r.params_json;
}

abbrev pub or_else : Option ℤ → ℤ → Option ℤ
or_else none d = some d
or_else (some v) d = some v

-- The SET clause of claimRunsSQL.
unfoldable pub start_run : String → ℤ → ℤ → RunRow → RunRow
start_run owner now_ms expires_ms r = record r {
  state = running;
  lease_owner = some owner;
  lease_epoch = r.lease_epoch + 1;
  lease_expires_at = some expires_ms;
  heartbeat_at = some now_ms;
  started_at = or_else r.started_at now_ms;
  defer_reason = none;
  reason_code = none;
  reason_data = none;
  updated_at = now_ms;
}

-- The SET clause of keyedStartSQL.
unfoldable pub start_keyed : String → String → ℤ → ℤ → RunRow → RunRow
unfolding start_run
start_keyed key owner now_ms expires_ms r = record (start_run owner now_ms expires_ms r) {
  concurrency_key = some key;
}

-- ORDER BY scheduled_for, created_at, id, where NULL comes first.
abbrev pub null_first : Option ℤ → Option ℤ → Bool
null_first none none = false
null_first none (some e) = true
null_first (some d) none = false
null_first (some d) (some e) = ltb_ℤ d e

abbrev pub text_le : String → String → Bool
text_le a b = elim (String.compare a b) [ Ordering.gt ↦ false | _ ↦ true ]

unfoldable pub claims_before : RunRow → RunRow → Bool
claims_before a b =
    if null_first a.scheduled_for b.scheduled_for
    then true
    else if null_first b.scheduled_for a.scheduled_for
    then false
    else if ltb_ℤ a.created_at b.created_at
    then true
    else if ltb_ℤ b.created_at a.created_at
    then false
    else text_le a.id b.id

unfoldable pub insert_by_claim : RunRow → List RunRow → List RunRow
unfolding claims_before
insert_by_claim r [] = r ∷ []
insert_by_claim r (t ∷ rest) =
    if claims_before r t then r ∷ t ∷ rest else t ∷ insert_by_claim r rest

unfoldable pub sort_by_claim : List RunRow → List RunRow
unfolding insert_by_claim
sort_by_claim [] = []
sort_by_claim (r ∷ rest) = insert_by_claim r (sort_by_claim rest)

-- The WHERE clauses of claimCandidatesSQL and of keyDeferredCandidatesSQL.
abbrev pub is_key_deferred : RunRow → Bool
is_key_deferred r = elim r.defer_reason [ none ↦ false | some why ↦ str_eq why "concurrency_key" ]

abbrev pub is_only : List String → RunRow → Bool
is_only only r = elim only [ [] ↦ true | i ∷ rest ↦ contains (i ∷ rest) r.id ]

unfoldable pub is_due : List String → ℤ → RunRow → Bool
is_due only now_ms r =
    RunState.same r.state queued
    && leb_ℤ r.available_at now_ms
    && not (is_requested r)
    && is_only only r

unfoldable pub find_job : String → List JobRow → Option JobRow
find_job name [] = none
find_job name (j ∷ rest) = if str_eq j.name name then some j else find_job name rest

-- JOIN jobs j ON j.name = r.job_name
unfoldable pub join_jobs : List JobRow → List RunRow → List Candidate
unfolding find_job
join_jobs jobs [] = []
join_jobs jobs (r ∷ rest) =
    let more = join_jobs jobs rest in
    elim (find_job r.job_name jobs) [
      | none ↦ more
      | some j ↦ record { id = r.id; job = r.job_name; limit = j.max_concurrent } ∷ more
    ]

unfoldable pub claim_candidates : List JobRow → List String → ℤ → Db → List Candidate
unfolding join_jobs sort_by_claim is_due
claim_candidates jobs only now_ms db =
    join_jobs jobs
      (sort_by_claim (select (λ r. is_due only now_ms r && not (is_key_deferred r)) db.runs))

-- The claim of the ordinary queue.
unfoldable pub claim_chosen : List String → String → ℤ → ℤ → Db → List ClaimedRun × Db
unfolding update_runs start_run
claim_chosen ids owner now_ms expires_ms db = (
  map claimed_of
      (map (start_run owner now_ms expires_ms) (select (λ r. contains ids r.id) db.runs)),
  record db {
    runs = update_runs (λ r. contains ids r.id) (start_run owner now_ms expires_ms) db.runs;
  },
)

-- Another active holder of the key, and the room under the ceiling of the job.
abbrev pub is_active_run : RunRow → Bool
is_active_run r = RunState.same r.state queued || RunState.same r.state running

abbrev pub holds_key : String → RunRow → Bool
holds_key key r = elim r.concurrency_key [ none ↦ false | some k ↦ str_eq k key ]

unfoldable pub key_holders : String → List RunRow → ℕ
key_holders key runs = count_if (λ r. holds_key key r && is_active_run r) runs

unfoldable pub has_room : List JobRow → List RunRow → String → Bool
unfolding find_job
has_room jobs runs job = elim (find_job job jobs) [
  | none ↦ false
  | some j ↦
      ltb_ℤ (pos (count_if (λ r. str_eq r.job_name job && RunState.same r.state running) runs))
        j.max_concurrent
]

-- The WHERE clause of keyedStartSQL.
unfoldable pub can_start_keyed : List JobRow → List RunRow → String → String → ℤ → RunRow → Bool
unfolding key_holders has_room
can_start_keyed jobs runs id key now_ms r =
    str_eq r.id id
    && RunState.same r.state queued
    && leb_ℤ r.available_at now_ms
    && not (is_requested r)
    && (key_holders key runs == 0)
    && has_room jobs runs r.job_name

abbrev pub last_of : {A : Type 0} → List A → Option A
last_of [] = none
last_of (x ∷ xs) = elim (last_of xs) [ none ↦ some x | some y ↦ some y ]

-- One keyed start: the rows that it answered with, and the tables.
unfoldable pub keyed_start :
    List JobRow → String → String → String → ℤ → ℤ → Db → List ClaimedRun × Db
unfolding update_runs start_keyed can_start_keyed
keyed_start jobs id key owner now_ms expires_ms db =
    let can = can_start_keyed jobs db.runs id key now_ms in
    let start = start_keyed key owner now_ms expires_ms in
    (
      map claimed_of (map start (select can db.runs)),
      record db { runs = update_runs can start db.runs },
    )

-- The loop over the due key deferrals, with what is left of the budget.
unfoldable pub keyed_starts :
    (Option Detail → String)
    → List JobRow
    → String
    → ℤ
    → ℤ
    → ℕ
    → List RunRow
    → Db
    → List ClaimedRun × Db
unfolding keyed_start
keyed_starts wanted_key jobs owner now_ms expires_ms left [] db = ([], db)
keyed_starts wanted_key jobs owner now_ms expires_ms zero (p ∷ rest) db = ([], db)
keyed_starts wanted_key jobs owner now_ms expires_ms (suc left) (p ∷ rest) db =
    let key = wanted_key p.reason_data in
    let (answered, started) = keyed_start jobs p.id key owner now_ms expires_ms db in
    let passed = keyed_starts wanted_key jobs owner now_ms expires_ms (suc left) rest db in
    let lost = keyed_starts wanted_key jobs owner now_ms expires_ms (suc left) rest started in
    let won = keyed_starts wanted_key jobs owner now_ms expires_ms left rest started in
    if str_eq key ""
    then passed
    else elim (last_of answered) [ none ↦ lost | some c ↦ (c ∷ won.0, won.1) ]

-- concDataOf, where `unmarshal` reads the field `concurrency_key` of an object that encoding/json accepts.
abbrev pub is_blank : Detail → Bool
is_blank (text t) = str_eq t ""
is_blank _ = false

unfoldable pub conc_data_of : (Detail → Option String) → Option Detail → String
conc_data_of unmarshal none = ""
conc_data_of unmarshal (some d) =
    if is_blank d then "" else elim (unmarshal d) [ none ↦ "" | some key ↦ key ]

-- claimKeyDeferredTx.
unfoldable pub claim_key_deferred :
    (Detail → Option String)
    → List JobRow
    → List String
    → String
    → ℤ
    → ℤ
    → ℕ
    → Db
    → List ClaimedRun × Db
unfolding keyed_starts conc_data_of sort_by_claim is_due
claim_key_deferred unmarshal jobs only owner now_ms expires_ms budget db =
    keyed_starts (conc_data_of unmarshal) jobs owner now_ms expires_ms budget
      (take budget
        (sort_by_claim (select (λ r. is_due only now_ms r && is_key_deferred r) db.runs)))
      db
