-- ===== src/Store/ClaimRuns/Chosen.antt =====
-- The candidates of a claim are rows of the table, queued, and have the ceiling of their job.
use std.Path.{subst}
use mathlib.Core.List.{Memᴰ}
use paceq.Base.{
  ℕ, zero, suc, String, Bool, true, not, ◌&&◌, List, [], ◌∷◌, none, some, ◌≡◌, refl, sym, ap, ◌∙◌,
  inl, inr, arith,
}
use paceq.Base.Tests.{Bool-cases, Option-cases, leb}
use paceq.Base.Lists.{select}
use paceq.Base.Int.{ℤ}
use paceq.Model.RunState.{queued}
use paceq.Store.Rows.{RunRow, JobRow, Db, find_run}
use paceq.Store.Rows.Keys.{UniqueRuns, find_run_unique}
use paceq.Store.Quota.{Candidate, ceiling, hold, walk}
use paceq.Store.ClaimRuns.{
  claims_before, insert_by_claim, sort_by_claim, is_due, is_key_deferred, find_job, join_jobs,
  claim_candidates,
}

-- Rows that the table has under their identity, and that are queued.
abbrev pub Listed : List RunRow → List RunRow → Type 0
Listed runs [] = Unit {0}
Listed runs (r ∷ rest) = ((find_run r.id runs ≡ some r) × (r.state ≡ queued)) × Listed runs rest

Listed-insert :
    (runs : List RunRow) (r : RunRow) (l : List RunRow)
    → (find_run r.id runs ≡ some r) × (r.state ≡ queued)
    → Listed runs l
    → Listed runs (insert_by_claim r l)
unfolding insert_by_claim
Listed-insert runs r [] h t = (h, t)
Listed-insert runs r (x ∷ rest) h (at, t) = elim (Bool-cases (claims_before r x)) [
  | inl y ↦ rw y (h, (at, t))
  | inr n ↦ rw n (at, Listed-insert runs r rest h t)
]

Listed-sort : (runs l : List RunRow) → Listed runs l → Listed runs (sort_by_claim l)
unfolding sort_by_claim
Listed-sort runs [] t = t
Listed-sort runs (r ∷ rest) (h, t) =
    Listed-insert runs r (sort_by_claim rest) h (Listed-sort runs rest t)

pub Listed-select :
    (p : RunRow → Bool) (runs l : List RunRow)
    → UniqueRuns runs
    → ((r : RunRow) → p r ≡ true → r.state ≡ queued)
    → ((r : RunRow) → Memᴰ r l → Memᴰ r runs)
    → Listed runs (select p l)
Listed-select p runs [] u q sub = tt
Listed-select p runs (r ∷ rest) u q sub =
    let t = Listed-select p runs rest u q (λ x m. sub x (Memᴰ.tail m)) in
    elim (Bool-cases (p r)) [
      | inr n ↦ rw n t
      | inl y ↦ rw y ((find_run_unique runs r u (sub r (Memᴰ.head refl)), q r y), t)
    ]

-- Candidates that stand for such rows.
abbrev pub Stands : List RunRow → List Candidate → Type 0
Stands runs [] = Unit {0}
Stands runs (c ∷ rest) =
    ((r : RunRow) × (find_run c.id runs ≡ some r) × (r.state ≡ queued) × (r.job_name ≡ c.job))
    × Stands runs rest

Stands-join :
    (jobs : List JobRow) (runs l : List RunRow) → Listed runs l → Stands runs (join_jobs jobs l)
unfolding join_jobs
Stands-join jobs runs [] t = tt
Stands-join jobs runs (r ∷ rest) ((at, q), t) = elim (Option-cases (find_job r.job_name jobs)) [
  | inl n ↦ rw (n, join_jobs) (Stands-join jobs runs rest t)
  | inr (j, y) ↦ rw (y, join_jobs) ((r, at, q, refl), Stands-join jobs runs rest t)
]

mem_cases :
    {A : Type 0} {x y : A} {l : List A} (p : A → Type 0)
    → p x
    → (Memᴰ y l → p y)
    → Memᴰ y (x ∷ l)
    → p y
mem_cases p h t (Memᴰ.head e) = subst p (sym e) h
mem_cases p h t (Memᴰ.tail m) = t m

-- The limit of a candidate is the ceiling of its job.
pub join_jobs-limit :
    (jobs : List JobRow) (job : String) (j : JobRow) (l : List RunRow) (c : Candidate)
    → find_job job jobs ≡ some j
    → Memᴰ c (join_jobs jobs l)
    → c.job ≡ job
    → c.limit ≡ j.max_concurrent
unfolding join_jobs
join_jobs-limit jobs job j [] c f m e = elim m [ ]
join_jobs-limit jobs job j (r ∷ rest) c f m e = elim (Option-cases (find_job r.job_name jobs)) [
  | inl n ↦ join_jobs-limit jobs job j rest c f (rw (n, join_jobs) at m) e
  | inr (k, y) ↦
      mem_cases (λ d. d.job ≡ job → d.limit ≡ j.max_concurrent)
        (λ e'.
          ap (λ o. elim o as (λ x. ℤ) [ none ↦ k.max_concurrent | some i ↦ i.max_concurrent ])
            (sym y ∙ ap (λ n. find_job n jobs) e' ∙ f))
        (λ m' e'. join_jobs-limit jobs job j rest c f m' e') (rw (y, join_jobs) at m) e
]

pub Stands-walk :
    (runs : List RunRow) (left : ℕ) (held : String → ℕ) (cands : List Candidate)
    → Stands runs cands
    → Stands runs (walk left held cands)
unfolding walk
Stands-walk runs zero held [] t = tt
Stands-walk runs zero held (c ∷ rest) t = tt
Stands-walk runs (suc left) held [] t = tt
Stands-walk runs (suc left) held (c ∷ rest) (at, t) =
    elim (Bool-cases (leb (ceiling c.limit) (held c.job))) [
      | inl full ↦ rw (full, walk) (Stands-walk runs (suc left) held rest t)
      | inr room ↦ rw (room, walk) (at, Stands-walk runs left (hold c.job held) rest t)
    ]

is_due-queued :
    (only : List String) (now_ms : ℤ) (r : RunRow)
    → (is_due only now_ms r && not (is_key_deferred r)) ≡ true
    → r.state ≡ queued
unfolding is_due
is_due-queued only now_ms r h = ground arith

pub claim_candidates-Stands :
    (jobs : List JobRow) (only : List String) (now_ms : ℤ) (db : Db)
    → UniqueRuns db.runs
    → Stands db.runs (claim_candidates jobs only now_ms db)
unfolding claim_candidates
claim_candidates-Stands jobs only now_ms db u =
    let p = λ (r : RunRow). is_due only now_ms r && not (is_key_deferred r) in
    Stands-join jobs db.runs (sort_by_claim (select p db.runs)) (
      Listed-sort db.runs (select p db.runs)
        (Listed-select p db.runs db.runs u (is_due-queued only now_ms) (λ r m. m)))

pub claim_candidates-limit :
    (jobs : List JobRow) (only : List String) (now_ms : ℤ) (db : Db) (job : String) (j : JobRow)
    (c : Candidate)
    → find_job job jobs ≡ some j
    → Memᴰ c (claim_candidates jobs only now_ms db)
    → c.job ≡ job
    → c.limit ≡ j.max_concurrent
unfolding claim_candidates
claim_candidates-limit jobs only now_ms db job j c f m e =
    join_jobs-limit jobs job j
      (sort_by_claim (select (λ r. is_due only now_ms r && not (is_key_deferred r)) db.runs)) c f m
      e
