-- ===== src/Store/Rows/Keys.antt =====
-- The primary key of `steps`, and what an update of one row does under it.
use mathlib.Core.List.{Memᴰ}
use paceq.Base.{
  ◌+◌, String, Bool, true, false, str_eq, List, [], ◌∷◌, none, some, ◌≡◌, refl, sym, ap, ◌∙◌, arith,
  eq_iff,
}
use paceq.Base.Tests.{if◌then◌else◌}
use paceq.Base.Lists.{count_if}
use paceq.Model.RunState.{RunState, queued}
use paceq.Store.Rows.{StepRow, RunRow, find_step, is_step, update_steps, find_run, update_runs}

-- No two rows have one run and one name.
abbrev pub UniqueSteps : List StepRow → Type 0
UniqueSteps [] = Unit {0}
UniqueSteps (s ∷ rest) = (find_step s.run_id s.name rest ≡ none) × UniqueSteps rest

pub update_absent :
    (run_id name : String) (f : StepRow → StepRow) (steps : List StepRow)
    → find_step run_id name steps ≡ none
    → update_steps (is_step run_id name) f steps ≡ steps
unfolding find_step update_steps
update_absent run_id name f [] h = refl
update_absent run_id name f (s ∷ rest) h = ground (arith, update_absent run_id name f rest)

-- A count changes by what the one row contributes.
pub count_if-update :
    (p : StepRow → Bool) (run_id name : String) (f : StepRow → StepRow) (steps : List StepRow)
    (s : StepRow)
    → UniqueSteps steps
    → find_step run_id name steps ≡ some s
    → count_if p (update_steps (is_step run_id name) f steps) + (if p s then 1 else 0)
      ≡ count_if p steps + (if p (f s) then 1 else 0)
unfolding find_step update_steps
count_if-update p run_id name f [] s u h = absurd (cc)
count_if-update p run_id name f (t ∷ rest) s u h = ground (
  arith,
  count_if-update p run_id name f rest s,
  update_absent run_id name f rest,
  eq_iff t.run_id run_id,
  eq_iff t.name name,
)

-- A row of the table is the row of its key.
pub find_step-Memᴰ :
    (steps : List StepRow) (s : StepRow)
    → UniqueSteps steps
    → Memᴰ s steps
    → find_step s.run_id s.name steps ≡ some s
unfolding find_step
find_step-Memᴰ [] s u m = elim m [ ]
find_step-Memᴰ (t ∷ rest) s u (Memᴰ.head e) =
    rw e (ground (arith, eq_iff t.run_id t.run_id, eq_iff t.name t.name))
find_step-Memᴰ (t ∷ rest) s u (Memᴰ.tail m) =
    ground (arith, find_step-Memᴰ rest s u.1 m, eq_iff t.run_id s.run_id, eq_iff t.name s.name)

-- What a reader of a run finds after an update, where the key stays.
pub find_run-update :
    (p : RunRow → Bool) (f : RunRow → RunRow) (id : String) (runs : List RunRow) (run : RunRow)
    → ((r : RunRow) → (f r).id ≡ r.id)
    → find_run id runs ≡ some run
    → find_run id (update_runs p f runs) ≡ some (if p run then f run else run)
unfolding find_run update_runs
find_run-update p f id [] run k h = absurd (cc)
find_run-update p f id (x ∷ rest) run k h = ground (arith, find_run-update p f id rest run k, k x)

-- An update of rows of one key is not seen under another.
pub find_run-update_other :
    (p : RunRow → Bool) (f : RunRow → RunRow) (id other : String) (runs : List RunRow)
    → ((r : RunRow) → (f r).id ≡ r.id)
    → ((r : RunRow) → p r ≡ true → str_eq r.id id ≡ true)
    → str_eq other id ≡ false
    → find_run other (update_runs p f runs) ≡ find_run other runs
unfolding find_run update_runs
find_run-update_other p f id other [] k own h = refl
find_run-update_other p f id other (x ∷ rest) k own h = ground (
  arith,
  find_run-update_other p f id other rest k own h,
  k x,
  own x,
  eq_iff x.id id,
  eq_iff x.id other,
)

-- The primary key of `runs`.
abbrev pub UniqueRuns : List RunRow → Type 0
UniqueRuns [] = Unit {0}
UniqueRuns (r ∷ rest) = (find_run r.id rest ≡ none) × UniqueRuns rest

pub find_run_unique :
    (runs : List RunRow) (r : RunRow) → UniqueRuns runs → Memᴰ r runs → find_run r.id runs ≡ some r
unfolding find_run
find_run_unique [] r u m = elim m [ ]
find_run_unique (t ∷ rest) r u (Memᴰ.head e) = rw e (ground (arith, eq_iff t.id t.id))
find_run_unique (t ∷ rest) r u (Memᴰ.tail m) =
    ground (arith, find_run_unique rest r u.1 m, eq_iff t.id r.id)

absent-update_runs :
    (p : RunRow → Bool) (f : RunRow → RunRow) (id : String) (runs : List RunRow)
    → ((r : RunRow) → (f r).id ≡ r.id)
    → find_run id runs ≡ none
    → find_run id (update_runs p f runs) ≡ none
unfolding find_run update_runs
absent-update_runs p f id [] k h = refl
absent-update_runs p f id (t ∷ rest) k h = ground (arith, absent-update_runs p f id rest k, k t)

pub UniqueRuns-update :
    (p : RunRow → Bool) (f : RunRow → RunRow) (runs : List RunRow)
    → ((r : RunRow) → (f r).id ≡ r.id)
    → UniqueRuns runs
    → UniqueRuns (update_runs p f runs)
unfolding update_runs
UniqueRuns-update p f [] k u = tt
UniqueRuns-update p f (t ∷ rest) k (absent, u) =
    let kept : (if p t then f t else t).id ≡ t.id = ground (arith, k t) in
    (rw kept (absent-update_runs p f t.id rest k absent), UniqueRuns-update p f rest k u)

-- What one identity finds is one row, so it is queued when the row is.
pub found_queued :
    (runs : List RunRow) (i id : String) (t r : RunRow)
    → find_run i runs ≡ some t
    → t.state ≡ queued
    → str_eq i id ≡ true
    → find_run id runs ≡ some r
    → r.state ≡ queued
found_queued runs i id t r at q y e =
    let same = sym e ∙ ap (λ n. find_run n runs) (sym ((eq_iff i id).0 y)) ∙ at in
    ap (λ o. elim o as (λ x. RunState) [ none ↦ queued | some v ↦ v.state ]) same ∙ q
