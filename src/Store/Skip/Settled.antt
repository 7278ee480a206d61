-- ===== src/Store/Skip/Settled.antt =====
-- What the closure of a failure leaves in the tables.
use mathlib.Core.List.{Memᴰ}
use paceq.Base.{
  ◌+◌, String, Bool, true, false, ◌||◌, ◌&&◌, List, [], ◌∷◌, some, ◌≡◌, refl, inl, inr, arith,
  eq_iff, str_eq, sym, ap, ◌∙◌, map,
}
use paceq.Base.Tests.{if◌then◌else◌, Bool-cases}
use paceq.Base.Lists.{any, select, length, count_if}
use paceq.Base.Result.{ok, ok_unique}
use paceq.Model.StepState
use paceq.Model.StepState.{StepState, pending, skipped}
use paceq.Store.Rows.{StepRow, Dep, Db, upstream}
use paceq.Store.Closure.{contains, closure}
use paceq.Store.Closure.Reachable.{Needs, closure-Needs}
use paceq.Store.Skip.{
  Failure, is_direct, skip_code, mark_skipped, insert_by_idx, sort_by_idx, is_pending_dependant,
  propagate_skip,
}
use paceq.Store.Skip.Loop.{
  settle, skip_steps_lem, after_skips, after_skips-tables, after_skips-steps,
}

-- What the closure of a failure makes of one row.
abbrev pub settled : Failure → List Dep → StepRow → StepRow
settled f deps s =
    if is_pending_dependant deps f.run_id f.failed_step s
    then mark_skipped f (skip_code deps f.run_id f.failed_step s.name) s
    else s

-- A row that the closure of a failure meets is skipped at the time of the failure, with the failed step
-- in its detail; its reason tells a step that needs the failed one itself from a step that needs it
-- through others.
abbrev pub row_of_skip : Failure → List Dep → StepRow → StepRow
row_of_skip f deps s =
    if str_eq s.run_id f.run_id
      && contains (closure f.run_id f.failed_step deps) s.name
      && StepState.same s.state pending
    then record s {
      state = skipped;
      finished_at = some f.at;
      reason_code = some (
          if any
            (λ d.
              str_eq d.run_id f.run_id
              && str_eq d.step_name s.name
              && str_eq d.depends_on f.failed_step)
            deps
          then "STEP_SKIPPED_UPSTREAM_FAILED"
          else "STEP_SKIPPED_UPSTREAM_SKIPPED");
      reason_data = some (upstream f.failed_step f.attempt);
    }
    else s

settled-row_of_skip :
    (f : Failure) (deps : List Dep) (s : StepRow) → settled f deps s ≡ row_of_skip f deps s
unfolding is_pending_dependant mark_skipped skip_code is_direct
settled-row_of_skip f deps s = refl

-- The sorted rows have the names of the selected ones.
pub contains-insert :
    (s : StepRow) (l : List StepRow) (n : String)
    → contains (map (λ t. t.name) (insert_by_idx s l)) n
      ≡ (str_eq s.name n || contains (map (λ t. t.name) l) n)
unfolding insert_by_idx
contains-insert s [] n = refl
contains-insert s (t ∷ rest) n = ground (arith, contains-insert s rest n)

pub contains-sort :
    (l : List StepRow) (n : String)
    → contains (map (λ t. t.name) (sort_by_idx l)) n ≡ contains (map (λ t. t.name) l) n
unfolding sort_by_idx
contains-sort [] n = refl
contains-sort (s ∷ rest) n =
    contains-insert s (sort_by_idx rest) n ∙ ap (λ b. str_eq s.name n || b) (contains-sort rest n)

length-insert : (s : StepRow) (l : List StepRow) → length (insert_by_idx s l) ≡ length l + 1
unfolding insert_by_idx
length-insert s [] = omega arith
length-insert s (t ∷ rest) = ground (arith, length-insert s rest)

length-sort : (l : List StepRow) → length (sort_by_idx l) ≡ length l
unfolding sort_by_idx
length-sort [] = refl
length-sort (s ∷ rest) = omega (arith, length-insert s (sort_by_idx rest), length-sort rest)

length-select : (p : StepRow → Bool) (l : List StepRow) → length (select p l) ≡ count_if p l
length-select p [] = refl
length-select p (s ∷ rest) = ground (arith, length-select p rest)

-- A selected name belongs to the closure, and a selected row is there by its name.
select-contains :
    (deps : List Dep) (run_id failed n : String) (l : List StepRow)
    → contains (map (λ t. t.name) (select (is_pending_dependant deps run_id failed) l)) n ≡ true
    → contains (closure run_id failed deps) n ≡ true
unfolding is_pending_dependant
select-contains deps run_id failed n [] h = absurd (cc)
select-contains deps run_id failed n (s ∷ rest) h =
    elim (Bool-cases (is_pending_dependant deps run_id failed s)) [
      | inr e ↦ select-contains deps run_id failed n rest (ground arith)
      | inl e ↦ elim (Bool-cases (str_eq s.name n)) [
        | inl q ↦ rw (← (eq_iff s.name n).0 q) (ground arith)
        | inr q ↦ select-contains deps run_id failed n rest (ground arith)
      ]
    ]

pub select-Memᴰ :
    (p : StepRow → Bool) (s : StepRow) (l : List StepRow)
    → Memᴰ s l
    → p s ≡ true
    → contains (map (λ t. t.name) (select p l)) s.name ≡ true
select-Memᴰ p s [] m h = elim m [ ]
select-Memᴰ p s (t ∷ rest) (Memᴰ.head e) h = rw e (ground (arith, eq_iff t.name t.name, e))
select-Memᴰ p s (t ∷ rest) (Memᴰ.tail m) h = ground (arith, select-Memᴰ p s rest m h)

pub map-cong :
    (f g : StepRow → StepRow) (l : List StepRow)
    → ((s : StepRow) → Memᴰ s l → f s ≡ g s)
    → map f l ≡ map g l
map-cong f g [] h = refl
map-cong f g (s ∷ rest) h =
    rw (h s (Memᴰ.head refl), map-cong f g rest (λ t m. h t (Memᴰ.tail m))) refl

settle-settled :
    (f : Failure) (deps : List Dep) (steps : List StepRow) (s : StepRow)
    → Memᴰ s steps
    → settle f deps
        (map
          (λ t. t.name)
          (sort_by_idx (select (is_pending_dependant deps f.run_id f.failed_step) steps)))
        s
      ≡ settled f deps s
unfolding is_pending_dependant
settle-settled f deps steps s m =
    let p = is_pending_dependant deps f.run_id f.failed_step in
    let e = contains-sort (select p steps) s.name in
    ground
      (arith, e, select-contains deps f.run_id f.failed_step s.name steps, select-Memᴰ p s steps m)

pub propagate_skip-settled :
    (f : Failure) (db : Db)
    → (after : Db) × (propagate_skip f db ≡ ok after)
      × (after.steps ≡ map (settled f db.deps) db.steps)
      × (after.runs ≡ db.runs)
      × (after.deps ≡ db.deps)
      × (length after.events
          ≡ length db.events
            + count_if (is_pending_dependant db.deps f.run_id f.failed_step) db.steps)
unfolding propagate_skip
propagate_skip-settled f db =
    let p = is_pending_dependant db.deps f.run_id f.failed_step in
    let l = sort_by_idx (select p db.steps) in
    let (r, d, n) = after_skips-tables f db l in
    (
      after_skips f db l,
      skip_steps_lem f db l,
      after_skips-steps f db l
          ∙ map-cong (settle f db.deps (map (λ s. s.name) l)) (settled f db.deps) db.steps
              (settle-settled f db.deps db.steps),
      r,
      d,
      omega (arith, n, length-sort (select p db.steps), length-select p db.steps),
    )

-- propagateSkipTx never fails. Every pending step of the run that is in the closure of the failed step
-- becomes skipped, finished at the time it is given, with the failed step and its attempt as the detail
-- and a reason that tells a direct need from one through other steps; no other step changes, no run and
-- no edge; one event is appended for each step that is skipped.
pub propagate_skip_lem :
    (f : Failure) (db : Db)
    → (after : Db) × (propagate_skip f db ≡ ok after)
      × (after.steps ≡ map (row_of_skip f db.deps) db.steps)
      × (after.runs ≡ db.runs)
      × (after.deps ≡ db.deps)
      × (length after.events
          ≡ length db.events
            + count_if (is_pending_dependant db.deps f.run_id f.failed_step) db.steps)
propagate_skip_lem f db =
    let (after, e, steps, runs, deps, events) = propagate_skip-settled f db in
    let same =
      map-cong (settled f db.deps) (row_of_skip f db.deps) db.steps
        (λ s m. settled-row_of_skip f db.deps s) in
    (after, e, steps ∙ same, runs, deps, events)

map-Memᴰ :
    (g : StepRow → StepRow) (l : List StepRow) (t : StepRow)
    → Memᴰ t (map g l)
    → (s : StepRow) × (t ≡ g s)
map-Memᴰ g [] t m = elim m [ ]
map-Memᴰ g (s ∷ rest) t (Memᴰ.head e) = (s, e)
map-Memᴰ g (s ∷ rest) t (Memᴰ.tail m) = map-Memᴰ g rest t m

pub settled-keeps :
    (f : Failure) (deps : List Dep) (t : StepRow)
    → ((settled f deps t).run_id ≡ t.run_id) × ((settled f deps t).name ≡ t.name)
unfolding mark_skipped
settled-keeps f deps t = elim (Bool-cases (is_pending_dependant deps f.run_id f.failed_step t)) [
  | inl y ↦ (rw y refl, rw y refl)
  | inr n ↦ (rw n refl, rw n refl)
]

settled-skips :
    (f : Failure) (deps : List Dep) (t : StepRow)
    → t.run_id ≡ f.run_id
    → contains (closure f.run_id f.failed_step deps) t.name ≡ true
    → StepState.same (settled f deps t).state pending ≡ false
unfolding mark_skipped is_pending_dependant
settled-skips f deps t run c = ground (arith, eq_iff t.run_id f.run_id)

-- After propagateSkipTx, no step of the run that needs the failed step, by whatever chain of edges,
-- is pending: no dependant waits forever or runs without what it needs.
pub propagate_skip-Needs :
    (f : Failure) (db after : Db) (s : StepRow)
    → propagate_skip f db ≡ ok after
    → Memᴰ s after.steps
    → s.run_id ≡ f.run_id
    → Needs f.run_id f.failed_step db.deps s.name
    → StepState.same s.state pending ≡ false
unfolding is_pending_dependant mark_skipped
propagate_skip-Needs f db after s h m q needs =
    let (other, e, steps, _, _, _) = propagate_skip-settled f db in
    let (t, from) = map-Memᴰ (settled f db.deps) db.steps s (rw (← steps, ← ok_unique h e) m) in
    let c = (closure-Needs f.run_id f.failed_step db.deps s.name).1 needs in
    let (run, name) = settled-keeps f db.deps t in
    rw from (
      settled-skips f db.deps t (sym run ∙ (ap (λ x. x.run_id) (sym from) ∙ q))
        (rw (← name, ← from) c))
