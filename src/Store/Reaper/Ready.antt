-- ===== src/Store/Reaper/Ready.antt =====
-- The rows that failRunningStepsTx walks: each is found under its name, running, and named once.
use mathlib.Core.List.{Memᴰ}
use paceq.Base.{
  String, false, List, [], ◌∷◌, none, some, ◌≡◌, refl, ◌∙◌, inl, inr, arith, eq_iff, map,
}
use paceq.Base.Tests.{Bool-cases}
use paceq.Base.Lists.{select}
use paceq.Base.Int.{leb_ℤ}
use paceq.Model.StepState.{running}
use paceq.Store.Rows.{StepRow, find_step}
use paceq.Store.Rows.Keys.{UniqueSteps, find_step-Memᴰ}
use paceq.Store.Closure.{contains}
use paceq.Store.Skip.{insert_by_idx, sort_by_idx}
use paceq.Store.Skip.Settled.{contains-insert, contains-sort}
use paceq.Store.CloseOut.{is_of_run}

-- Names that are found running, each once.
abbrev pub Ready : String → List StepRow → List StepRow → Type 0
Ready run_id steps [] = Unit {0}
Ready run_id steps (s ∷ rest) =
    ((t : StepRow) × (find_step run_id s.name steps ≡ some t) × (t.state ≡ running))
    × (contains (map (λ u. u.name) rest) s.name ≡ false)
    × Ready run_id steps rest

Ready-insert :
    (run_id : String) (steps : List StepRow) (s : StepRow) (l : List StepRow)
    → Ready run_id steps (s ∷ l)
    → Ready run_id steps (insert_by_idx s l)
unfolding insert_by_idx
Ready-insert run_id steps s [] h = h
Ready-insert run_id steps s (t ∷ rest) (found, fresh, (found_t, fresh_t, ready)) =
    let deep : Ready run_id steps (insert_by_idx s rest) =
      Ready-insert run_id steps s rest (found, ground arith, ready) in
    let apart : contains (map (λ u. u.name) (insert_by_idx s rest)) t.name ≡ false =
      ground (arith, contains-insert s rest t.name, eq_iff s.name t.name, eq_iff t.name s.name) in
    elim (Bool-cases (leb_ℤ s.idx t.idx)) [
      | inl y ↦ rw y (found, fresh, (found_t, fresh_t, ready))
      | inr n ↦ rw n (found_t, apart, deep)
    ]

Ready-sort :
    (run_id : String) (steps l : List StepRow)
    → Ready run_id steps l
    → Ready run_id steps (sort_by_idx l)
unfolding sort_by_idx
Ready-sort run_id steps [] h = h
Ready-sort run_id steps (s ∷ rest) (found, fresh, ready) =
    Ready-insert run_id steps s (sort_by_idx rest)
      (found, contains-sort rest s.name ∙ fresh, Ready-sort run_id steps rest ready)

-- A key that the rest of the table does not have is not selected from it.
select-absent :
    (run_id name : String) (l : List StepRow)
    → find_step run_id name l ≡ none
    → contains (map (λ t. t.name) (select (is_of_run running run_id) l)) name ≡ false
unfolding find_step
select-absent run_id name [] h = refl
select-absent run_id name (s ∷ rest) h = ground (arith, select-absent run_id name rest)

Ready-select :
    (run_id : String) (steps l : List StepRow)
    → UniqueSteps steps
    → UniqueSteps l
    → ((s : StepRow) → Memᴰ s l → Memᴰ s steps)
    → Ready run_id steps (select (is_of_run running run_id) l)
Ready-select run_id steps [] u v sub = tt
Ready-select run_id steps (s ∷ rest) u (absent, v) sub =
    let ready = Ready-select run_id steps rest u v (λ t m. sub t (Memᴰ.tail m)) in
    elim (Bool-cases (is_of_run running run_id s)) [
      | inr n ↦ rw n ready
      | inl y ↦
          let at : s.run_id ≡ run_id = ground (arith, eq_iff s.run_id run_id) in
          rw y (
            (s, rw (← at) (find_step-Memᴰ steps s u (sub s (Memᴰ.head refl))), ground arith),
            select-absent run_id s.name rest (rw (← at) absent),
            ready,
          )
    ]

-- The rows that the query selects, in the order of the walk.
pub Ready_lem :
    (run_id : String) (steps : List StepRow)
    → UniqueSteps steps
    → Ready run_id steps (sort_by_idx (select (is_of_run running run_id) steps))
Ready_lem run_id steps u =
    Ready-sort run_id steps (select (is_of_run running run_id) steps)
      (Ready-select run_id steps steps u u (λ s m. m))
