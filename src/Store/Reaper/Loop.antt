-- ===== src/Store/Reaper/Loop.antt =====
-- failRunningStepsTx: it never fails, and leaves no step of the run running.
use std.Path.{subst}
use paceq.Base.{
  ◌≤◌, String, Bool, true, false, not, ◌||◌, List, [], ◌∷◌, some, ◌≡◌, refl, sym, ap, ◌∙◌, inl, inr,
  arith, eq_iff, map, str_eq,
}
use paceq.Base.Tests.{Bool-cases}
use paceq.Base.Lists.{select, all, length}
use paceq.Base.Int.{ℤ}
use paceq.Base.Result.{Result, ok}
use paceq.Model.StepState.{running}
use paceq.Store.Rows.{StepRow, Db, text, find_step}
use paceq.Store.Rows.Keys.{UniqueSteps}
use paceq.Store.Closure.{contains}
use paceq.Store.Fence.{Error}
use paceq.Store.Skip.{sort_by_idx}
use paceq.Store.Skip.Settled.{contains-sort}
use paceq.Store.RetryPlan.{Frozen}
use paceq.Store.StepWrites.{apply_step_outcome_tx}
use paceq.Store.StepWrites.Reads.{find_step-key}
use paceq.Store.CloseOut.{is_of_run, for_each_step}
use paceq.Store.Reaper.{lost_outcome, fail_running_steps}
use paceq.Store.Reaper.Ready.{Ready, Ready_lem}
use paceq.Store.Reaper.Lost.{Moved, find_step-map, map-map, Lost, apply_lost}

Ready-Lost :
    (run_id name : String) (before after l : List StepRow)
    → Lost run_id name before after
    → contains (map (λ u. u.name) l) name ≡ false
    → Ready run_id before l
    → Ready run_id after l
Ready-Lost run_id name before after [] lost h ready = tt
Ready-Lost run_id name before after (s ∷ rest) lost h ((t, found, live), fresh, ready) =
    let (at, named) = find_step-key run_id s.name before t found in
    let apart : str_eq t.name name ≡ false = rw named (ground arith) in
    let kept = lost.other_kept t (ground (arith, eq_iff t.run_id run_id)) apart in
    let still =
      find_step-map run_id s.name lost.by.to before t lost.by.same_run lost.by.same_name found in
    (
      (
        t,
        subst (λ l. find_step run_id s.name l ≡ some t) (sym lost.by.moved) (still ∙ ap some kept),
        live,
      ),
      fresh,
      Ready-Lost run_id name before after rest lost (ground arith) ready,
    )

-- The names of the steps of the run that are running are among these.
abbrev is_left : String → List String → StepRow → Bool
is_left run_id names s = not (is_of_run running run_id s) || contains names s.name

is_left-Lost :
    (run_id name : String) (names : List String) (before after : List StepRow)
    → (lost : Lost run_id name before after) → (l : List StepRow)
    → all (is_left run_id (name ∷ names)) l ≡ true
    → all (is_left run_id names) (map lost.by.to l) ≡ true
is_left-Lost run_id name names before after lost [] h = refl
is_left-Lost run_id name names before after lost (s ∷ rest) h = ground (
  arith,
  is_left-Lost run_id name names before after lost rest,
  lost.not_running s,
  lost.by.same_name s,
  eq_iff s.name name,
  eq_iff name s.name,
)

is_left-select :
    (run_id : String) (l : List StepRow) (names : List String)
    → ((n : String)
        → contains (map (λ t. t.name) (select (is_of_run running run_id) l)) n ≡ true
        → contains names n ≡ true)
    → all (is_left run_id names) l ≡ true
is_left-select run_id [] names h = refl
is_left-select run_id (s ∷ rest) names h = elim (Bool-cases (is_of_run running run_id s)) [
  | inr n ↦ rw n (is_left-select run_id rest names (λ m c. h m (rw n c)))
  | inl y ↦
      let more = is_left-select run_id rest names (λ m c. h m (rw y (ground arith))) in
      let this = h s.name (rw y (ground (arith, eq_iff s.name s.name))) in rw (y, this) more
]

for_each_step-cons :
    (f : Db → String → Result Error Db) (d mid : Db) (s : StepRow) (rest : List StepRow)
    → f d s.name ≡ ok mid
    → for_each_step f d (s ∷ rest) ≡ for_each_step f mid rest
unfolding for_each_step
for_each_step-cons f d mid s rest e = rw (e, for_each_step) refl

pub Moved-trans :
    (run_id : String) (a b c : List StepRow)
    → Moved run_id a b
    → Moved run_id b c
    → Moved run_id a c
Moved-trans run_id a b c p q = record {
  to = λ s. q.to (p.to s);
  moved = q.moved ∙ (ap (map q.to) p.moved ∙ map-map q.to p.to a);
  same_run = λ s. q.same_run (p.to s) ∙ p.same_run s;
  same_name = λ s. q.same_name (p.to s) ∙ p.same_name s;
  spared = λ s. ground (arith, p.spared s, q.spared (p.to s), q.spared s, p.same_run s);
}

pub Moved-refl : (run_id : String) (l : List StepRow) → Moved run_id l l
Moved-refl run_id l = record {
  to = λ s. s;
  moved = sym (map_id l);
  same_run = λ s. refl;
  same_name = λ s. refl;
  spared = λ s. ground arith;
}
  where
    map_id : (l : List StepRow) → map (λ s. s) l ≡ l
    map_id [] = refl
    map_id (s ∷ rest) = ap (λ t. s ∷ t) (map_id rest)

fail_loop :
    (frozen : Frozen) (run_id : String) (now : ℤ) (terminal : Bool) (l : List StepRow) (d : Db)
    → Ready run_id d.steps l
    → all (is_left run_id (map (λ s. s.name) l)) d.steps ≡ true
    → (after : Db) × (for_each_step
          (λ d' name.
            apply_step_outcome_tx frozen d' run_id name (lost_outcome terminal) now (text "{}"))
          d
          l
        ≡ ok after)
      × Moved run_id d.steps after.steps
      × (all (is_left run_id []) after.steps ≡ true)
      × (after.runs ≡ d.runs)
      × (length d.events ≤ length after.events)
unfolding for_each_step
fail_loop frozen run_id now terminal [] d ready left =
    (d, refl, Moved-refl run_id d.steps, left, refl, omega arith)
fail_loop frozen run_id now terminal (s ∷ rest) d ((t, found, live), fresh, ready) left =
    let (mid, e, lost, runs, events) =
      apply_lost frozen d run_id s.name now terminal t found live in
    let left' : all (is_left run_id (map (λ u. u.name) rest)) mid.steps ≡ true =
      rw lost.by.moved
        (is_left-Lost run_id s.name (map (λ u. u.name) rest) d.steps mid.steps lost d.steps left) in
    let (after, e', moved, none_left, runs', events') =
      fail_loop frozen run_id now terminal rest mid
        (Ready-Lost run_id s.name d.steps mid.steps rest lost fresh ready) left' in
    (
      after,
      for_each_step-cons
            (λ d' name.
              apply_step_outcome_tx frozen d' run_id name (lost_outcome terminal) now (text "{}"))
            d mid s rest e
          ∙ e',
      Moved-trans run_id d.steps mid.steps after.steps lost.by moved,
      none_left,
      runs' ∙ runs,
      omega (arith, events, events'),
    )

-- No row of the run is running.
abbrev pub NoneRunning : String → List StepRow → Type 0
NoneRunning run_id steps = all (λ s. not (is_of_run running run_id s)) steps ≡ true

is_left_none :
    (run_id : String) (l : List StepRow) → all (is_left run_id []) l ≡ true → NoneRunning run_id l
is_left_none run_id [] h = refl
is_left_none run_id (s ∷ rest) h = ground (arith, is_left_none run_id rest)

-- failRunningStepsTx never fails, and no step of the run is running after it.
pub fail_running_steps_lem :
    (frozen : Frozen) (run_id : String) (now : ℤ) (terminal : Bool) (db : Db)
    → UniqueSteps db.steps
    → (after : Db) × (fail_running_steps frozen run_id now terminal db ≡ ok after)
      × Moved run_id db.steps after.steps
      × NoneRunning run_id after.steps
      × (after.runs ≡ db.runs)
      × (length db.events ≤ length after.events)
unfolding fail_running_steps
fail_running_steps_lem frozen run_id now terminal db u =
    let l = select (is_of_run running run_id) db.steps in
    let (after, e, moved, left, runs, events) =
      fail_loop frozen run_id now terminal (sort_by_idx l) db (Ready_lem run_id db.steps u) (
        is_left-select run_id db.steps (map (λ s. s.name) (sort_by_idx l))
          (λ n c. contains-sort l n ∙ c)) in
    (after, e, moved, is_left_none run_id after.steps left, runs, events)

none_selected :
    (run_id : String) (l : List StepRow)
    → NoneRunning run_id l
    → select (is_of_run running run_id) l ≡ []
none_selected run_id [] h = refl
none_selected run_id (s ∷ rest) h = ground (arith, none_selected run_id rest)

idle_loop :
    (f : Db → String → Result Error Db) (db : Db) → for_each_step f db (sort_by_idx []) ≡ ok db
unfolding for_each_step sort_by_idx
idle_loop f db = refl

-- With no step of the run running, it changes nothing.
pub fail_running_steps_idle :
    (frozen : Frozen) (run_id : String) (now : ℤ) (terminal : Bool) (db : Db)
    → NoneRunning run_id db.steps
    → fail_running_steps frozen run_id now terminal db ≡ ok db
unfolding fail_running_steps
fail_running_steps_idle frozen run_id now terminal db h =
    ap
      (λ l.
        for_each_step
          (λ d name.
            apply_step_outcome_tx frozen d run_id name (lost_outcome terminal) now (text "{}"))
          db (sort_by_idx l))
      (none_selected run_id db.steps h)
    ∙ idle_loop
        (λ d name.
          apply_step_outcome_tx frozen d run_id name (lost_outcome terminal) now (text "{}"))
        db
