-- ===== src/Store/QueuedCancel/Calm.antt =====
-- Closing queued runs starts none: the ceilings and the keys stand as they did.
use paceq.Base.{
  ℕ, zero, suc, ◌≤◌, String, Bool, true, false, ◌&&◌, List, [], ◌∷◌, ◌≡◌, refl, ◌∙◌, inl, inr,
  arith, map, str_eq,
}
use paceq.Base.Tests.{Bool-cases}
use paceq.Base.Lists.{all, select, take}
use paceq.Store.QueuedCancel.{claimable_limit, is_cancelled_queued, close_rows}
use paceq.Base.Int.{ℤ}
use paceq.Base.Result.{ok}
use paceq.Model.RunState.{RunState, queued, running, cancelled}
use paceq.Model.RunState
use paceq.Model.RunMachine.{terminal_verdict}
use paceq.Model.Guards.{Guards}
use paceq.Store.Rows.{starts_by, is_timed, RunRow, Detail, Db, update_runs, append_run_event}
use paceq.Store.Closure.{contains}
use paceq.Store.Finish.{step_states}
use paceq.Store.Quota.{running_counts}
use paceq.Store.CloseOut.Cancelled.{close_out_cancelled_steps_lem}
use paceq.Store.ObserveCancel.{cancel_guards, terminal_data, read_steps}
use paceq.Store.Rows.Keys.{UniqueRuns-update}
use paceq.Store.ClaimRuns.{is_active_run, key_holders}
use paceq.Store.ClaimRuns.Started.{Within}
use paceq.Store.QueuedCancel.{
  close_queued, correct_verdict, announce_closed, announce_each, cancelled_queued,
  close_cancelled_queued,
}

-- A SET clause that ends a run and keeps its identity, its job and its key.
abbrev pub EndsRun : (RunRow → RunRow) → Type 0
EndsRun f =
    (r : RunRow)
    → ((f r).id ≡ r.id)
      × ((f r).job_name ≡ r.job_name)
      × ((f r).concurrency_key ≡ r.concurrency_key)
      × (is_active_run (f r) ≡ false)

running_counts-end :
    (p : RunRow → Bool) (f : RunRow → RunRow) (job : String) (runs : List RunRow)
    → EndsRun f
    → running_counts (update_runs p f runs) job ≤ running_counts runs job
unfolding running_counts update_runs
running_counts-end p f job [] e = omega arith
running_counts-end p f job (t ∷ rest) e = ground (arith, running_counts-end p f job rest e, e t)

key_holders-end :
    (p : RunRow → Bool) (f : RunRow → RunRow) (key : String) (runs : List RunRow)
    → EndsRun f
    → key_holders key (update_runs p f runs) ≤ key_holders key runs
unfolding key_holders update_runs
key_holders-end p f key [] e = omega arith
key_holders-end p f key (t ∷ rest) e = ground (arith, key_holders-end p f key rest e, e t)

Within-end :
    (p : RunRow → Bool) (f : RunRow → RunRow) (job : String) (most : ℤ) (key : String)
    (runs : List RunRow)
    → EndsRun f
    → Within job most key runs
    → Within job most key (update_runs p f runs)
Within-end p f job most key runs e (u, h, k) = (
  UniqueRuns-update p f runs (λ r. (e r).0) u,
  omega (arith, running_counts-end p f job runs e),
  omega (arith, key_holders-end p f key runs e),
)

pub close_queued-EndsRun : (now_ms : ℤ) → EndsRun (close_queued now_ms)
unfolding close_queued
close_queued-EndsRun now_ms r = (refl, refl, refl, refl)

pub correct_verdict-EndsRun :
    (g : Guards) (code : String) (detail : Detail) (now_ms : ℤ)
    → EndsRun (correct_verdict (terminal_verdict g).0 code detail now_ms)
unfolding correct_verdict terminal_verdict
correct_verdict-EndsRun g code detail now_ms r = (refl, refl, refl, ground arith)

-- What every end of runs keeps.
abbrev pub KeptByEnds : (List RunRow → Type 0) → Type 0
KeptByEnds w =
    (p : RunRow → Bool) (f : RunRow → RunRow) (runs : List RunRow)
    → EndsRun f
    → w runs
    → w (update_runs p f runs)

announce_closed_keeps :
    (w : List RunRow → Type 0) (c : RunRow) (now_ms : ℤ) (db : Db)
    → KeptByEnds w
    → w db.runs
    → w (announce_closed c now_ms db).runs
unfolding announce_closed append_run_event
announce_closed_keeps w c now_ms db keep h =
    let g = cancel_guards (step_states c.id db.steps) "RUN_CANCELLED_MANUAL" in
    let detail = terminal_data g.reason_code (read_steps c.id db.steps) in
    elim (Bool-cases (RunState.same (terminal_verdict g).0 cancelled)) [
      | inl y ↦ rw y h
      | inr n ↦ rw n (
          keep (λ r. str_eq r.id c.id && RunState.same r.state cancelled)
            (correct_verdict (terminal_verdict g).0 g.reason_code detail now_ms) db.runs
            (correct_verdict-EndsRun g g.reason_code detail now_ms) h)
    ]

announce_each_keeps :
    (w : List RunRow → Type 0) (now_ms : ℤ) (closed : List RunRow) (db : Db)
    → KeptByEnds w
    → w db.runs
    → (after : Db) × (announce_each now_ms closed db ≡ ok after) × w after.runs
unfolding announce_each
announce_each_keeps w now_ms [] db keep h = (db, refl, h)
announce_each_keeps w now_ms (c ∷ rest) db keep h =
    let (shut, e, steps, runs, events) = close_out_cancelled_steps_lem c.id now_ms db in
    let (after, e', h') =
      announce_each_keeps w now_ms rest (announce_closed c now_ms shut) keep
        (announce_closed_keeps w c now_ms shut keep (rw runs h)) in
    (after, rw (e, announce_each) e', h')

pub close_rows_keeps :
    (w : List RunRow → Type 0) (now_ms : ℤ) (db : Db)
    → KeptByEnds w
    → w db.runs
    → (after : Db) × (close_rows now_ms db ≡ ok after) × w after.runs
unfolding close_rows
close_rows_keeps w now_ms db keep h =
    let rows = cancelled_queued db.runs in
    announce_each_keeps w now_ms (map (close_queued now_ms) rows) _ keep (
      keep (λ r. contains (map (λ (c : RunRow). c.id) rows) r.id) (close_queued now_ms) db.runs
        (close_queued-EndsRun now_ms) h)

-- No run starts after the time, so the rows pass the CHECK.
all-take : (q : RunRow → Bool) (n : ℕ) (l : List RunRow) → all q l ≡ true → all q (take n l) ≡ true
all-take q zero l h = refl
all-take q (suc n) [] h = refl
all-take q (suc n) (r ∷ rest) h = ground (arith, all-take q n rest)

all-select : (q p : RunRow → Bool) (l : List RunRow) → all q l ≡ true → all q (select p l) ≡ true
all-select q p [] h = refl
all-select q p (r ∷ rest) h = ground (arith, all-select q p rest)

all_timed :
    (now_ms : ℤ) (l : List RunRow)
    → all (starts_by now_ms) l ≡ true
    → all is_timed (map (close_queued now_ms) l) ≡ true
unfolding close_queued
all_timed now_ms [] h = refl
all_timed now_ms (r ∷ rest) h = ground (arith, all_timed now_ms rest)

closes :
    (now_ms : ℤ) (db : Db)
    → all (starts_by now_ms) db.runs ≡ true
    → close_cancelled_queued now_ms db ≡ close_rows now_ms db
unfolding close_cancelled_queued cancelled_queued
closes now_ms db h =
    rw
      (all_timed now_ms (take claimable_limit (select is_cancelled_queued db.runs)) (
        all-take (starts_by now_ms) claimable_limit (select is_cancelled_queued db.runs)
          (all-select (starts_by now_ms) is_cancelled_queued db.runs h)))
      refl

pub close_cancelled_queued-Within :
    (now_ms : ℤ) (db : Db) (job : String) (most : ℤ) (key : String)
    → all (starts_by now_ms) db.runs ≡ true
    → Within job most key db.runs
    → (after : Db) × (close_cancelled_queued now_ms db ≡ ok after) × Within job most key after.runs
close_cancelled_queued-Within now_ms db job most key h w =
    let (after, e, kept) =
      close_rows_keeps (Within job most key) now_ms db
        (λ p f runs ends. Within-end p f job most key runs ends) w in
    (after, closes now_ms db h ∙ e, kept)
