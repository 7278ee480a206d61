-- ===== src/Store/ClaimRuns/Started.antt =====
-- What the two claims of a pass start: the running runs of a job, and the holders of a key.
use paceq.Base.{
  ℕ, zero, suc, ◌+◌, ◌≤◌, String, Bool, true, false, not, ◌&&◌, ◌||◌, List, [], ◌∷◌, Option, none,
  some, ◌≡◌, refl, ap, inl, inr, arith, eq_iff, map, str_eq,
}
use paceq.Base.Tests.{if◌then◌else◌, Bool-cases, Option-cases, ◌==◌}
use paceq.Base.Lists.{count_if, select, take}
use paceq.Base.Int.{ℤ, pos, negsuc, ltb_ℤ}
use paceq.Model.RunState.{queued}
use paceq.Model.RunState
use paceq.Store.Rows.{RunRow, JobRow, Detail, Db, find_run}
use paceq.Store.Closure.{contains}
use paceq.Store.Quota.{Candidate, ceiling, running_counts}
use paceq.Store.Quota.Ceiling.{chosen_of}
use paceq.Store.Rows.Keys.{UniqueRuns, UniqueRuns-update}
use paceq.Store.ClaimRuns.{
  ClaimedRun, start_run, start_keyed, is_active_run, key_holders, find_job, has_room,
  can_start_keyed, claim_chosen, keyed_start, keyed_starts, claim_key_deferred, conc_data_of,
  sort_by_claim, is_due, is_key_deferred, last_of,
}
use paceq.Store.ClaimRuns.Counts.{
  count_if-le, found_count, absent_count, Sound, chosen_count, running_counts-update,
  key_holders-update, key_holders-given,
}
use paceq.Store.ClaimRuns.Chosen.{Stands}

-- A table of runs under its primary key, in which a job keeps its ceiling and a key has one active holder at most.
abbrev pub Within : String → ℤ → String → List RunRow → Type 0
Within job most key runs =
    UniqueRuns runs × (running_counts runs job ≤ ceiling most) × (key_holders key runs ≤ 1)

Sound-job :
    (job : String) (runs : List RunRow) (chosen : List Candidate)
    → Stands runs chosen
    → Sound (λ t. str_eq t.job_name job) (λ c. str_eq c.job job) runs chosen
Sound-job job runs [] s = tt
Sound-job job runs (c ∷ rest) ((r, at, q, e), s) =
    ((r, at, ap (λ n. str_eq n job) e), Sound-job job runs rest s)

Sound-active :
    (runs : List RunRow) (chosen : List Candidate)
    → Stands runs chosen
    → Sound (λ t. not (is_active_run t)) (λ c. false) runs chosen
Sound-active runs [] s = tt
Sound-active runs (c ∷ rest) ((r, at, q, e), s) = (
  (r, at, ap (λ u. not (RunState.same u queued || RunState.same u RunState.running)) q),
  Sound-active runs rest s,
)

count_none : {A : Type 0} (l : List A) → count_if (λ x. false) l ≡ 0
count_none [] = refl
count_none (x ∷ rest) = omega (arith, count_none rest)

pub claim_chosen-Within :
    (chosen : List Candidate) (owner : String) (now_ms expires_ms : ℤ) (db : Db) (job : String)
    (most : ℤ) (key : String)
    → UniqueRuns db.runs
    → Stands db.runs chosen
    → running_counts db.runs job + chosen_of job chosen ≤ ceiling most
    → key_holders key db.runs ≤ 1
    → Within job most key (claim_chosen (map (λ c. c.id) chosen) owner now_ms expires_ms db).1.runs
unfolding claim_chosen start_run
claim_chosen-Within chosen owner now_ms expires_ms db job most key u s h k =
    let p = λ (r : RunRow). contains (map (λ (c : Candidate). c.id) chosen) r.id in
    let f = start_run owner now_ms expires_ms in
    let a = running_counts-update p f job db.runs (λ r. refl) in
    let b =
      chosen_count (λ t. str_eq t.job_name job) (λ c. str_eq c.job job) db.runs chosen u
        (Sound-job job db.runs chosen s) in
    let c = key_holders-update p f key db.runs (λ r. refl) in
    let d =
      chosen_count (λ t. not (is_active_run t)) (λ c. false) db.runs chosen u
        (Sound-active db.runs chosen s) in
    let e = count_none chosen in
    (UniqueRuns-update p f db.runs (λ r. refl) u, omega arith, omega arith)

-- Under the primary key, one row has an identity.
one_count :
    (id : String) (b : Bool) (runs : List RunRow)
    → UniqueRuns runs
    → count_if (λ t. str_eq t.id id && b) runs ≤ (if b then 1 else 0)
one_count id b runs u = elim (Option-cases (find_run id runs)) [
  | inl n ↦ omega (arith, absent_count id (λ t. b) runs n)
  | inr (r, y) ↦ omega (arith, found_count id (λ t. b) runs r u y)
]

room_ceiling : (n : ℕ) (most : ℤ) → ltb_ℤ (pos n) most ≡ true → n + 1 ≤ ceiling most
unfolding ceiling
room_ceiling n (pos m) h = ground arith
room_ceiling n (negsuc m) h = ground arith

room_left :
    (jobs : List JobRow) (runs : List RunRow) (job : String) (j : JobRow)
    → find_job job jobs ≡ some j
    → running_counts runs job ≤ ceiling j.max_concurrent
    → running_counts runs job + (if has_room jobs runs job then 1 else 0) ≤ ceiling j.max_concurrent
unfolding has_room running_counts
room_left jobs runs job j f h =
    ground (arith, room_ceiling (running_counts runs job) j.max_concurrent)

can_start_keyed-room :
    (jobs : List JobRow) (runs : List RunRow) (id key : String) (now_ms : ℤ) (job : String)
    (r : RunRow)
    → ((can_start_keyed jobs runs id key now_ms r && str_eq r.job_name job)
        && not (str_eq r.id id && has_room jobs runs job))
      ≡ false
unfolding can_start_keyed
can_start_keyed-room jobs runs id key now_ms job r = elim (Bool-cases (str_eq r.job_name job)) [
  | inl y ↦ rw ((eq_iff r.job_name job).0 y) (ground arith)
  | inr n ↦ ground arith
]

can_start_keyed-free :
    (jobs : List JobRow) (runs : List RunRow) (id key : String) (now_ms : ℤ) (r : RunRow)
    → (can_start_keyed jobs runs id key now_ms r
        && not (str_eq r.id id && (key_holders key runs == 0)))
      ≡ false
unfolding can_start_keyed
can_start_keyed-free jobs runs id key now_ms r = ground arith

given_once :
    (given key : String) (runs : List RunRow) (started : ℕ) {after : ℕ}
    → key_holders key runs ≤ 1
    → after ≤ key_holders key runs + (if str_eq given key then started else 0)
    → started ≤ (if key_holders given runs == 0 then 1 else 0)
    → after ≤ 1
given_once given key runs started k e g = elim (Bool-cases (str_eq given key)) [
  | inl y ↦ let same = ap (λ n. key_holders n runs) ((eq_iff given key).0 y) in ground arith
  | inr n ↦ ground arith
]

keyed_start-Within :
    (jobs : List JobRow) (id given owner : String) (now_ms expires_ms : ℤ) (db : Db) (job : String)
    (j : JobRow) (key : String)
    → find_job job jobs ≡ some j
    → Within job j.max_concurrent key db.runs
    → Within job j.max_concurrent key (keyed_start jobs id given owner now_ms expires_ms db).1.runs
unfolding keyed_start start_keyed
keyed_start-Within jobs id given owner now_ms expires_ms db job j key found (u, h, k) =
    let can = can_start_keyed jobs db.runs id given now_ms in
    let f = start_keyed given owner now_ms expires_ms in
    let room = has_room jobs db.runs job in
    let free = key_holders given db.runs == 0 in
    let a = running_counts-update can f job db.runs (λ r. refl) in
    let b =
      count_if-le (λ t. can t && str_eq t.job_name job) (λ t. str_eq t.id id && room) db.runs
        (can_start_keyed-room jobs db.runs id given now_ms job) in
    let c = one_count id room db.runs u in
    let d = room_left jobs db.runs job j found h in
    let e = key_holders-given can f given key db.runs (λ r. refl) in
    let g =
      count_if-le can (λ t. str_eq t.id id && free) db.runs
        (can_start_keyed-free jobs db.runs id given now_ms) in
    let i = one_count id free db.runs u in
    (
      UniqueRuns-update can f db.runs (λ r. refl) u,
      omega arith,
      given_once given key db.runs (count_if can db.runs) k e (omega arith),
    )

-- The branches of a turn of the loop.
pub keyed_turn :
    (w : List ClaimedRun × Db → Type 0) (b : Bool) (o : Option ClaimedRun)
    (passed lost won : List ClaimedRun × Db)
    → w passed
    → w lost
    → ((c : ClaimedRun) → o ≡ some c → w (c ∷ won.0, won.1))
    → w (if b then passed else elim o [ none ↦ lost | some c ↦ (c ∷ won.0, won.1) ])
keyed_turn w true o passed lost won p l g = p
keyed_turn w false none passed lost won p l g = l
keyed_turn w false (some c) passed lost won p l g = g c refl

keyed_starts-Within :
    (wanted_key : Option Detail → String) (jobs : List JobRow) (owner : String)
    (now_ms expires_ms : ℤ) (left : ℕ) (due : List RunRow) (db : Db) (job : String) (j : JobRow)
    (key : String)
    → find_job job jobs ≡ some j
    → Within job j.max_concurrent key db.runs
    → Within job j.max_concurrent key
        (keyed_starts wanted_key jobs owner now_ms expires_ms left due db).1.runs
unfolding keyed_starts
keyed_starts-Within wanted_key jobs owner now_ms expires_ms zero [] db job j key found w = w
keyed_starts-Within wanted_key jobs owner now_ms expires_ms (suc left) [] db job j key found w = w
keyed_starts-Within wanted_key jobs owner now_ms expires_ms zero (p ∷ rest) db job j key found w = w
keyed_starts-Within wanted_key jobs owner now_ms expires_ms (suc left) (p ∷ rest) db job j key found
      w =
    let given = wanted_key p.reason_data in
    let (answered, started) = keyed_start jobs p.id given owner now_ms expires_ms db in
    let s = keyed_start-Within jobs p.id given owner now_ms expires_ms db job j key found w in
    keyed_turn (λ x. Within job j.max_concurrent key x.1.runs) (str_eq given "") (last_of answered)
      (keyed_starts wanted_key jobs owner now_ms expires_ms (suc left) rest db)
      (keyed_starts wanted_key jobs owner now_ms expires_ms (suc left) rest started)
      (keyed_starts wanted_key jobs owner now_ms expires_ms left rest started)
      (keyed_starts-Within wanted_key jobs owner now_ms expires_ms (suc left) rest db job j key
        found w)
      (keyed_starts-Within wanted_key jobs owner now_ms expires_ms (suc left) rest started job j key
        found s)
      (λ c e.
        keyed_starts-Within wanted_key jobs owner now_ms expires_ms left rest started job j key
          found s)

pub claim_key_deferred-Within :
    (unmarshal : Detail → Option String) (jobs : List JobRow) (only : List String) (owner : String)
    (now_ms expires_ms : ℤ) (budget : ℕ) (db : Db) (job : String) (j : JobRow) (key : String)
    → find_job job jobs ≡ some j
    → Within job j.max_concurrent key db.runs
    → Within job j.max_concurrent key
        (claim_key_deferred unmarshal jobs only owner now_ms expires_ms budget db).1.runs
unfolding claim_key_deferred
claim_key_deferred-Within unmarshal jobs only owner now_ms expires_ms budget db job j key found w =
    keyed_starts-Within (conc_data_of unmarshal) jobs owner now_ms expires_ms budget
      (take budget
        (sort_by_claim (select (λ r. is_due only now_ms r && is_key_deferred r) db.runs)))
      db job j key found w
