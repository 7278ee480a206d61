-- ===== src/Store/QueuedCancel/Others.antt =====
-- Closing queued runs leaves the rows that are not queued, and queues none.
use std.Path.{subst}
use paceq.Base.{
  ℕ, zero, suc, String, true, false, ◌&&◌, List, [], ◌∷◌, some, ◌≡◌, refl, ap, ◌∙◌, inl, inr, arith,
  eq_iff, map, str_eq,
}
use paceq.Base.Tests.{Bool-cases}
use paceq.Base.Lists.{all, select, take}
use paceq.Base.Int.{ℤ}
use paceq.Base.Result.{ok, ok_unique}
use paceq.Model.RunState.{queued, running, cancelled}
use paceq.Model.RunState
use paceq.Model.RunMachine.{terminal_verdict}
use paceq.Store.Rows.{is_timed, RunRow, Db, find_run, append_run_event}
use paceq.Store.Rows.Keys.{UniqueRuns, UniqueRuns-update, find_run-update_other, found_queued}
use paceq.Store.Closure.{contains}
use paceq.Store.Finish.Writes.{find_run-id}
use paceq.Store.Finish.{step_states}
use paceq.Store.CloseOut.Cancelled.{close_out_cancelled_steps_lem}
use paceq.Store.ObserveCancel.{cancel_guards, terminal_data, read_steps}
use paceq.Store.ClaimRuns.{is_active_run}
use paceq.Store.ClaimRuns.Chosen.{Listed, Listed-select}
use paceq.Store.ClaimRuns.Taken.{Kept, Came, update_runs-Kept, update_runs-Came}
use paceq.Store.QueuedCancel.{
  claimable_limit, is_cancelled_queued, close_queued, correct_verdict, announce_closed,
  announce_each, cancelled_queued, close_cancelled_queued, close_rows,
}
use paceq.Store.QueuedCancel.Calm.{correct_verdict-EndsRun, close_rows_keeps}

ended_queued : (r : RunRow) → is_active_run r ≡ false → RunState.same r.state queued ≡ false
ended_queued r e = ground arith

announce_closed-other :
    (c : RunRow) (now_ms : ℤ) (db : Db) (id : String)
    → str_eq id c.id ≡ false
    → find_run id (announce_closed c now_ms db).runs ≡ find_run id db.runs
unfolding announce_closed append_run_event
announce_closed-other c now_ms db id other =
    let g = cancel_guards (step_states c.id db.steps) "RUN_CANCELLED_MANUAL" in
    let detail = terminal_data g.reason_code (read_steps c.id db.steps) in
    let ends = correct_verdict-EndsRun g g.reason_code detail now_ms in
    elim (Bool-cases (RunState.same (terminal_verdict g).0 cancelled)) [
      | inl y ↦ rw y refl
      | inr n ↦ rw n (
          find_run-update_other (λ r. str_eq r.id c.id && RunState.same r.state cancelled)
            (correct_verdict (terminal_verdict g).0 g.reason_code detail now_ms) c.id id db.runs
            (λ r. (ends r).0) (λ r y. ground arith) other)
    ]

announce_each-other :
    (now_ms : ℤ) (closed : List RunRow) (db after : Db) (id : String)
    → contains (map (λ c. c.id) closed) id ≡ false
    → announce_each now_ms closed db ≡ ok after
    → find_run id after.runs ≡ find_run id db.runs
unfolding announce_each
announce_each-other now_ms [] db after id other h = rw (ok_unique h refl) refl
announce_each-other now_ms (c ∷ rest) db after id other h =
    let (shut, e, steps, runs, events) = close_out_cancelled_steps_lem c.id now_ms db in
    announce_each-other now_ms rest (announce_closed c now_ms shut) after id (ground arith)
      (rw (e, announce_each) at h)
    ∙ (announce_closed-other c now_ms shut id (ground (arith, eq_iff id c.id, eq_iff c.id id))
        ∙ ap (λ l. find_run id l) runs)

-- The rows that the statement takes are queued, under their identity.
Listed-take : (n : ℕ) (runs l : List RunRow) → Listed runs l → Listed runs (take n l)
Listed-take zero runs l t = tt
Listed-take (suc n) runs [] t = tt
Listed-take (suc n) runs (r ∷ rest) (h, t) = (h, Listed-take n runs rest t)

Listed-queued :
    (runs l : List RunRow) (id : String) (r : RunRow)
    → Listed runs l
    → find_run id runs ≡ some r
    → contains (map (λ c. c.id) l) id ≡ true
    → r.state ≡ queued
Listed-queued runs [] id r s e h = absurd (ground arith)
Listed-queued runs (c ∷ rest) id r ((at, q), s) e h = elim (Bool-cases (str_eq c.id id)) [
  | inl y ↦ found_queued runs c.id id c r at q y e
  | inr n ↦ Listed-queued runs rest id r s e (ground arith)
]

is_cancelled_queued-queued : (r : RunRow) → is_cancelled_queued r ≡ true → r.state ≡ queued
unfolding is_cancelled_queued
is_cancelled_queued-queued r h = ground arith

cancelled_queued-Listed :
    (runs : List RunRow) → UniqueRuns runs → Listed runs (cancelled_queued runs)
unfolding cancelled_queued
cancelled_queued-Listed runs u =
    Listed-take claimable_limit runs (select is_cancelled_queued runs)
      (Listed-select is_cancelled_queued runs runs u is_cancelled_queued-queued (λ r m. m))

close_queued-ids :
    (now_ms : ℤ) (l : List RunRow)
    → map (λ c. c.id) (map (close_queued now_ms) l) ≡ map (λ c. c.id) l
unfolding close_queued
close_queued-ids now_ms [] = refl
close_queued-ids now_ms (c ∷ rest) = rw (close_queued-ids now_ms rest) refl

close_rows-Kept :
    (now_ms : ℤ) (db after : Db)
    → UniqueRuns db.runs
    → close_rows now_ms db ≡ ok after
    → Kept db.runs after.runs
unfolding close_rows close_queued
close_rows-Kept now_ms db after u h id r f w =
    let rows = cancelled_queued db.runs in
    let ids = map (λ (c : RunRow). c.id) rows in
    let listed = cancelled_queued-Listed db.runs u in
    elim (Bool-cases (contains ids id)) [
      | inl y ↦ absurd (let q = Listed-queued db.runs rows id r listed f y in ground arith)
      | inr n ↦
          announce_each-other now_ms (map (close_queued now_ms) rows) _ after id
            (rw (close_queued-ids now_ms rows) n) h
          ∙ update_runs-Kept (λ t. contains ids t.id) (close_queued now_ms) db.runs (λ t. refl)
              (λ i t e y.
                rw
                  (Listed-queued db.runs rows t.id t listed
                    (ap (λ x. find_run x db.runs) (find_run-id i db.runs t e) ∙ e) y)
                  refl)
              id r f w
    ]

-- All that a claim needs of it.
pub close_cancelled_queued_lem :
    (now_ms : ℤ) (db closed : Db)
    → UniqueRuns db.runs
    → close_cancelled_queued now_ms db ≡ ok closed
    → UniqueRuns closed.runs × Kept db.runs closed.runs × Came db.runs closed.runs
unfolding close_cancelled_queued
close_cancelled_queued_lem now_ms db closed u h =
    let timed = all is_timed (map (close_queued now_ms) (cancelled_queued db.runs)) in
    let (after, e, (v, came)) =
      close_rows_keeps (λ runs. UniqueRuns runs × Came db.runs runs) now_ms db
        (λ p f runs ends h. (
          UniqueRuns-update p f runs (λ r. (ends r).0) h.0,
          λ id r y w.
              h.1 id r
                (update_runs-Came p f runs (λ t. (ends t).0) (λ t. ended_queued (f t) (ends t).3) id
                  r y w)
                w,
        ))
        (u, λ id r y w. y) in
    elim (Bool-cases timed) [
      | inr n ↦ absurd (let no = rw (n, close_cancelled_queued) at h in cc)
      | inl y ↦
          let same : after ≡ closed = ok_unique e (rw (y, close_cancelled_queued) at h) in
          subst (λ (d : Db). UniqueRuns d.runs × Kept db.runs d.runs × Came db.runs d.runs) same
            (v, close_rows-Kept now_ms db after u e, came)
    ]
