-- ===== src/Store/Claim/Reservation.antt =====
-- What a claim of a step means: which step it takes, when it takes none, and that the run's parallel
-- cap holds after it.
use mathlib.Core.List.{Memᴰ}
use paceq.Base.{
  ◌+◌, String, Bool, true, false, List, Option, none, some, ◌≡◌, refl, inl, inr, arith, eq_iff,
}
use paceq.Base.Tests.{if◌then◌else◌, Bool-cases}
use paceq.Base.Lists.{select, length, length-append}
use paceq.Base.Int.{ℤ, pos, ◌≤ℤ◌}
use paceq.Base.Result.{ok}
use paceq.Model.StepState.{StepState}
use paceq.Store.Rows.{
  RunRow, StepRow, Db, find_run, find_step, is_step, update_steps, append_run_event,
}
use paceq.Store.Rows.Keys.{UniqueSteps, count_if-update, find_step-Memᴰ}
use paceq.Store.Leases.{unix_milli}
use paceq.Store.Fence.{LeaseRef, held}
use paceq.Store.Claim.{
  claim_tx, claimed_or_none, is_running_of, ClaimedStep, running_count, run_admits, step_admits,
  first_row, take_step, choose_step, flip_step, claim_next_step,
}
use paceq.Store.Claim.Choice.{Chosen, Least, NoneOf, first_row-Chosen}
use paceq.Store.Claim.Ready.{
  RunOpen, Ready, run_admits-RunOpen, RunOpen-run_admits, step_admits-Ready, Ready-step_admits,
}

-- What a successful claim took, and what it left in the tables.
pub record Claimed (db : Db) (now : ℤ) (run_id : String) (ref : LeaseRef) (c : ClaimedStep)
    (after : Db) : Type 0 where
  pub run : RunRow
  pub step : StepRow
  pub run_found : find_run run_id db.runs ≡ some run
  pub run_open : RunOpen db run_id ref run
  pub member : Memᴰ step db.steps
  pub ready : Ready db now run_id step
  pub least : (t : StepRow) → Memᴰ t db.steps → Ready db now run_id t → step.idx ≤ℤ t.idx
  pub answer : c ≡ record {
    run_id = run_id;
    name = step.name;
    attempt = step.attempt + 1;
    max_parallel = run.max_parallel;
  }
  pub steps_after : after.steps ≡ update_steps (is_step run_id step.name) (take_step now) db.steps
  pub one_event : length after.events ≡ length db.events + 1
  pub rest_kept : (after.runs ≡ db.runs) × (after.deps ≡ db.deps)

flip_step-Claimed :
    (db : Db) (now : ℤ) (run_id : String) (ref : LeaseRef) (r : RunRow) (s : StepRow)
    → find_run run_id db.runs ≡ some r
    → RunOpen db run_id ref r
    → Least (step_admits db now run_id) db.steps s
    → Claimed db now run_id ref (flip_step db now ref r s).0 (flip_step db now ref r s).1
unfolding flip_step append_run_event
flip_step-Claimed db now run_id ref r s f o l = record {
  run = r;
  step = s;
  run_found = f;
  run_open = o;
  member = l.member;
  ready = step_admits-Ready db now run_id s l.passes;
  least = λ t m q. l.least t m (Ready-step_admits db now run_id t q);
  answer = rw (step_admits-Ready db now run_id s l.passes).of_run;
  steps_after = rw (step_admits-Ready db now run_id s l.passes).of_run;
  one_event = omega (arith, length-append {0} db.events);
  rest_kept = (refl, refl);
}

-- The two answers of the statement over a run that is there.
data Answer (db : Db) (now : ℤ) (run_id : String) (ref : LeaseRef) (r : RunRow)
    : Option StepRow → Type 0 where
  took :
      {s : StepRow}
      → RunOpen db run_id ref r
      → Least (step_admits db now run_id) db.steps s
      → Answer db now run_id ref r (some s)
  left :
      (RunOpen db run_id ref r → NoneOf (step_admits db now run_id) db.steps)
      → Answer db now run_id ref r none

choose_step-Answer :
    (db : Db) (now : ℤ) (run_id : String) (ref : LeaseRef) (r : RunRow)
    → Answer db now run_id ref r (choose_step db now run_id ref r)
unfolding choose_step
choose_step-Answer db now run_id ref r =
    go (run_admits db run_id ref r) refl (first_row (select (step_admits db now run_id) db.steps))
      (first_row-Chosen (step_admits db now run_id) db.steps)
  where
    go :
        (b : Bool)
        → run_admits db run_id ref r ≡ b
        → (o : Option StepRow) → Chosen (step_admits db now run_id) db.steps o
        → Answer db now run_id ref r (if b then o else none)
    go true e none n = left (λ o. n)
    go true e (some s) l = took (run_admits-RunOpen db run_id ref r e) l
    go false e o n = left (λ p. absurd (cc (RunOpen-run_admits db run_id ref r p)))

Claimed-Answer :
    (db : Db) (now : ℤ) (run_id : String) (ref : LeaseRef) (r : RunRow) (o : Option StepRow)
    → Answer db now run_id ref r o
    → find_run run_id db.runs ≡ some r
    → {c : ClaimedStep} → (claimed_or_none db now ref r o).0 ≡ some c
    → Claimed db now run_id ref c (claimed_or_none db now ref r o).1
Claimed-Answer db now run_id ref r (some s) (took p l) f {c} e =
    let same_answer : (flip_step db now ref r s).0 ≡ c = cc in
    rw same_answer at (flip_step-Claimed db now run_id ref r s f p l)
Claimed-Answer db now run_id ref r none (left n) f e = absurd (cc)

claim_tx-Claimed :
    (db : Db) (now : ℤ) (run_id : String) (ref : LeaseRef) (o : Option RunRow)
    → find_run run_id db.runs ≡ o
    → {c : ClaimedStep} → (claim_tx db now run_id ref o).0 ≡ some c
    → Claimed db now run_id ref c (claim_tx db now run_id ref o).1
unfolding claim_tx
claim_tx-Claimed db now run_id ref none f e = absurd (cc)
claim_tx-Claimed db now run_id ref (some r) f e =
    Claimed-Answer db now run_id ref r (choose_step db now run_id ref r)
      (choose_step-Answer db now run_id ref r) f e

-- A claim that answers with a step took a ready step of the lowest index among the ready ones, for
-- the holder of the open run; it started that row alone, and wrote one event.
pub claim_next_step-Claimed :
    (db : Db) (now : ℤ) (run_id : String) (ref : LeaseRef) {c : ClaimedStep}
    → (claim_next_step db now run_id ref).0 ≡ ok (some c)
    → Claimed db (unix_milli now) run_id ref c (claim_next_step db now run_id ref).1
unfolding claim_next_step
claim_next_step-Claimed db now run_id ref e = elim (Bool-cases (held ref)) [
  | inl h ↦
      rw (h, claim_next_step)
        (claim_tx-Claimed db (unix_milli now) run_id ref (find_run run_id db.runs) refl
          (ground arith))
  | inr h ↦ absurd (ground arith)
]

idle-Answer :
    (db : Db) (now : ℤ) (run_id : String) (ref : LeaseRef) (r : RunRow) (o : Option StepRow)
    → Answer db now run_id ref r o
    → (claimed_or_none db now ref r o).0 ≡ none
    → ((claimed_or_none db now ref r o).1 ≡ db)
      × (RunOpen db run_id ref r → NoneOf (step_admits db now run_id) db.steps)
idle-Answer db now run_id ref r (some s) (took p l) e = absurd (cc)
idle-Answer db now run_id ref r none (left n) e = (refl, n)

-- No step is ready that the open run could start.
abbrev pub NothingReady : Db → ℤ → String → LeaseRef → Type 0
NothingReady db now run_id ref =
    (r : RunRow) (s : StepRow)
    → find_run run_id db.runs ≡ some r
    → RunOpen db run_id ref r
    → Memᴰ s db.steps
    → ¬ Ready db now run_id s

claim_tx_idle :
    (db : Db) (now : ℤ) (run_id : String) (ref : LeaseRef) (o : Option RunRow)
    → find_run run_id db.runs ≡ o
    → (claim_tx db now run_id ref o).0 ≡ none
    → ((claim_tx db now run_id ref o).1 ≡ db) × NothingReady db now run_id ref
unfolding claim_tx
claim_tx_idle db now run_id ref none f e = (refl, λ r s g p m q. absurd (cc))
claim_tx_idle db now run_id ref (some r) f e =
    let (unchanged, idle) =
      idle-Answer db now run_id ref r (choose_step db now run_id ref r)
        (choose_step-Answer db now run_id ref r) e in
    (
      unchanged,
      λ r' s g p m q.
          let same_run : r' ≡ r = cc in
          absurd (cc (idle (rw same_run at p) s m, Ready-step_admits db now run_id s q)),
    )

-- A claim that answers with no step changed nothing, and no step was ready that the run, had it
-- been open to the caller, could have started.
pub claim_next_step_idle :
    (db : Db) (now : ℤ) (run_id : String) (ref : LeaseRef)
    → (claim_next_step db now run_id ref).0 ≡ ok none
    → ((claim_next_step db now run_id ref).1 ≡ db) × NothingReady db (unix_milli now) run_id ref
unfolding claim_next_step
claim_next_step_idle db now run_id ref e = elim (Bool-cases (held ref)) [
  | inl h ↦
      rw (h, claim_next_step)
        (claim_tx_idle db (unix_milli now) run_id ref (find_run run_id db.runs) refl (ground arith))
  | inr h ↦ absurd (ground arith)
]

running_count-take :
    (run_id : String) (now : ℤ) (steps : List StepRow) (s : StepRow)
    → UniqueSteps steps
    → Memᴰ s steps
    → s.run_id ≡ run_id
    → s.state ≡ StepState.pending
    → running_count run_id (update_steps (is_step run_id s.name) (take_step now) steps)
      ≡ running_count run_id steps + 1
unfolding take_step
running_count-take run_id now steps s u m r p =
    let key : find_step run_id s.name steps ≡ some s = rw (← r) (find_step-Memᴰ steps s u m) in
    ground (
      arith,
      count_if-update (is_running_of run_id) run_id s.name (take_step now) steps s u key,
      eq_iff s.run_id run_id,
    )

Claimed-count :
    (db : Db) (now : ℤ) (run_id : String) (ref : LeaseRef) (c : ClaimedStep) (after : Db)
    → UniqueSteps db.steps
    → Claimed db now run_id ref c after
    → running_count run_id after.steps ≡ running_count run_id db.steps + 1
Claimed-count db now run_id ref c after u t =
    rw t.steps_after
      (running_count-take run_id now db.steps t.step u t.member t.ready.of_run t.ready.is_pending)

Claimed-cap :
    (db : Db) (now : ℤ) (run_id : String) (ref : LeaseRef) (c : ClaimedStep) (after : Db)
    → UniqueSteps db.steps
    → Claimed db now run_id ref c after
    → pos (running_count run_id after.steps) ≤ℤ c.max_parallel
Claimed-cap db now run_id ref c after u t =
    rw t.answer (omega (arith, Claimed-count db now run_id ref c after u t, t.run_open.room))

-- Over a table with its primary key, a claim raises the run's count of running steps by one and
-- leaves it within the cap that it reports.
pub claim_next_step_cap :
    (db : Db) (now : ℤ) (run_id : String) (ref : LeaseRef) {c : ClaimedStep}
    → UniqueSteps db.steps
    → (claim_next_step db now run_id ref).0 ≡ ok (some c)
    → let after = (claim_next_step db now run_id ref).1 in
      (running_count run_id after.steps ≡ running_count run_id db.steps + 1)
      × (pos (running_count run_id after.steps) ≤ℤ c.max_parallel)
claim_next_step_cap db now run_id ref {c} u e =
    let t = claim_next_step-Claimed db now run_id ref e in
    let after = (claim_next_step db now run_id ref).1 in
    (
      Claimed-count db (unix_milli now) run_id ref c after u t,
      Claimed-cap db (unix_milli now) run_id ref c after u t,
    )
