-- ===== src/Store/Sweep/Swept.antt =====
-- What a sweep leaves: every candidate decided, every other run as it was.
use std.Path.{subst}
use paceq.Base.{
  ◌&&◌, ◌||◌, ◌+◌, String, Bool, true, false, List, [], ◌∷◌, none, some, ◌≡◌, ◌⊎◌, refl, sym, ap,
  ◌∙◌, inl, inr, arith, eq_iff, map, str_eq,
}
use paceq.Base.Tests.{if◌then◌else◌, Bool-cases}
use paceq.Base.Int.{ℤ, pos, pos_part, leb_ℤ, ◌-ℤ◌}
use paceq.Base.Lists.{all, length, count_if}
use paceq.Store.Leases.{unix_milli}
use paceq.Base.Result.{Result, ok}
use paceq.Model.RunState.{RunState, running}
use paceq.Model.RunState
use paceq.Model.StepState.{StepState}
use paceq.Model.Aggregate.{run_aggregate}
use paceq.Model.Aggregate.Verdict.{run_aggregate_lem, none_active}
use paceq.Store.Rows.{RunRow, StepRow, Db, find_run, find_step}
use paceq.Store.Rows.Keys.{UniqueSteps, UniqueRuns}
use paceq.Store.Fence.{Error, with_tx}
use paceq.Store.Finish.{all_steps_terminal}
use paceq.Store.Finish.Writes.{find_run-id}
use paceq.Store.RetryPlan.{Frozen}
use paceq.Store.Closure.{contains}
use paceq.Store.Reaper.{ReapedRun, reap_one}
use paceq.Store.Reaper.Verdict.{Reaped, is_timely, and_both}
use paceq.Store.Reaper.Decision.{reap_one-Reaped}
use paceq.Store.Sweep.{
  ReapOptions, or_default, default_requeue_backoff, default_max_crash_count, is_candidate,
  is_expired_by, reap_candidates, reap_each, reap_expired_runs,
}
use paceq.Store.Sweep.Candidates.{
  at_most, reap_candidates-length, Taken, cut_of, reap_candidates-Taken,
}

-- A verdict over steps that have all ended is not `running`.
ended_state :
    (states : List StepState) (rlf : Bool)
    → all_steps_terminal states ≡ true
    → RunState.same (run_aggregate states rlf) running ≡ false
unfolding all_steps_terminal
ended_state states rlf h = rw (run_aggregate_lem states rlf) (ground (arith, none_active states h))

Reaped-state :
    (db : Db) (max_crash : ℤ) (run : RunRow) (answer : ReapedRun) (after : Db)
    → (h : Reaped db max_crash run answer after) → RunState.same h.row.state running ≡ false
Reaped-state db max_crash run answer after h = elim h.fate [
  | inl (q, _, _, _, _) ↦ ap (λ s. RunState.same s running) q
  | inr (ended, q, why) ↦ ap (λ s. RunState.same s running) q ∙ ended_state _ _ ended
]

-- The keys of the steps stay unique.
absent-map :
    (run_id name : String) (g : StepRow → StepRow) (steps : List StepRow)
    → ((s : StepRow) → (g s).run_id ≡ s.run_id)
    → ((s : StepRow) → (g s).name ≡ s.name)
    → find_step run_id name steps ≡ none
    → find_step run_id name (map g steps) ≡ none
unfolding find_step
absent-map run_id name g [] r n h = refl
absent-map run_id name g (s ∷ rest) r n h =
    ground (arith, absent-map run_id name g rest r n, r s, n s)

UniqueSteps-map :
    (g : StepRow → StepRow) (steps : List StepRow)
    → ((s : StepRow) → (g s).run_id ≡ s.run_id)
    → ((s : StepRow) → (g s).name ≡ s.name)
    → UniqueSteps steps
    → UniqueSteps (map g steps)
UniqueSteps-map g [] r n u = tt
UniqueSteps-map g (s ∷ rest) r n (absent, u) =
    (rw (r s, n s) (absent-map s.run_id s.name g rest r n absent), UniqueSteps-map g rest r n u)

-- What a sweep over these identities does to one run.
abbrev pub Swept : (RunRow → Bool) → List String → List RunRow → List RunRow → String → Type 0
Swept p ids before after id =
    ((contains ids id ≡ true)
      × (run : RunRow) × (find_run id before ≡ some run)
      × (p run ≡ true)
      × (row : RunRow) × (find_run id after ≡ some row)
      × (row.lease_owner ≡ none)
      × (row.lease_epoch ≡ run.lease_epoch + 1)
      × (row.crash_count ≡ run.crash_count + 1)
      × (RunState.same row.state running ≡ false))
    ⊎ ((contains ids id ≡ false) × (find_run id after ≡ find_run id before))

-- The identities that are left are found as before.
Taken-reaped :
    (p : RunRow → Bool) (before after : List RunRow) (row : RunRow) (taken_id : String)
    (ids : List String)
    → ((id : String)
        → find_run id after ≡ (if str_eq id taken_id then some row else find_run id before))
    → contains ids taken_id ≡ false
    → Taken p before ids
    → Taken p after ids
Taken-reaped p before after row taken_id [] read h t = tt
Taken-reaped p before after row taken_id (id ∷ rest) read h ((run, found, ok_run), fresh, t) =
    let apart : str_eq id taken_id ≡ false = ground arith in
    (
      (run, read id ∙ (ap (λ b. if b then some row else find_run id before) apart ∙ found), ok_run),
      fresh,
      Taken-reaped p before after row taken_id rest read (ground arith) t,
    )

-- One run more at the head of a sweep.
Swept-cons :
    (p : RunRow → Bool) (before mid after : List RunRow) (run row : RunRow) (taken_id : String)
    (ids : List String)
    → ((id : String)
        → find_run id mid ≡ (if str_eq id taken_id then some row else find_run id before))
    → find_run taken_id before ≡ some run
    → p run ≡ true
    → row.lease_owner ≡ none
    → row.lease_epoch ≡ run.lease_epoch + 1
    → row.crash_count ≡ run.crash_count + 1
    → RunState.same row.state running ≡ false
    → contains ids taken_id ≡ false
    → (id : String) → Swept p ids mid after id
    → Swept p (taken_id ∷ ids) before after id
Swept-cons p before mid after run row taken_id ids read found ok_run owner epoch crashes state fresh
      id later =
    elim (Bool-cases (str_eq id taken_id)) [
      | inl y ↦
          let same = (eq_iff id taken_id).0 y in
          elim later [
            | inl (c, _, _, _, _, _, _, _, _, _) ↦ let d = ap (contains ids) same in absurd (cc)
            | inr (c, kept) ↦ inl (
              ground (arith, eq_iff taken_id id),
              run,
              ap (λ i. find_run i before) same ∙ found,
              ok_run,
              row,
              kept ∙ (read id ∙ ap (λ b. if b then some row else find_run id before) y),
              owner,
              epoch,
              crashes,
              state,
            )
          ]
      | inr n ↦
          let apart : str_eq taken_id id ≡ false =
            ground (arith, eq_iff id taken_id, eq_iff taken_id id) in
          let seen = read id ∙ ap (λ b. if b then some row else find_run id before) n in
          elim later [
            | inl (c, other, at, k, new, at', o, e, n', st) ↦
                inl (ground arith, other, sym seen ∙ at, k, new, at', o, e, n', st)
            | inr (c, kept) ↦ inr (rw apart c, kept ∙ seen)
          ]
    ]

reap_each-cons :
    (reap : Db → String → Result Error (ReapedRun × Db)) (d mid after : Db) (id : String)
    (rest : List String) (answer : ReapedRun) (answers : List ReapedRun)
    → reap d id ≡ ok (answer, mid)
    → reap_each reap mid rest ≡ ok (answers, after)
    → reap_each reap d (id ∷ rest) ≡ ok (answer ∷ answers, after)
unfolding reap_each
reap_each-cons reap d mid after id rest answer answers e e' = rw (e, reap_each) (rw e' refl)

sweep_loop :
    (frozen : Frozen) (now backoff max_crash : ℤ) (p : RunRow → Bool) (ids : List String) (d : Db)
    → ((r : RunRow) → p r ≡ true → r.state ≡ running)
    → ((r : RunRow) → p r ≡ true → is_timely (unix_milli now) r ≡ true)
    → UniqueSteps d.steps
    → Taken p d.runs ids
    → (answers : List ReapedRun) × (after : Db) × (reap_each
          (reap_one frozen now backoff max_crash)
          d
          ids
        ≡ ok (answers, after))
      × (map (λ a. a.id) answers ≡ ids)
      × ((id : String) → Swept p ids d.runs after.runs id)
unfolding reap_each
sweep_loop frozen now backoff max_crash p [] d live timely u t =
    ([], d, refl, refl, λ id. inr (refl, refl))
sweep_loop frozen now backoff max_crash p (head ∷ rest) d live timely u
      ((run, found, ok_run), fresh, t) =
    let (answer, mid, e, h) =
      reap_one-Reaped frozen now backoff max_crash d head run u found (live run ok_run)
        (timely run ok_run) in
    let name = find_run-id head d.runs run found in
    let read : (id : String)
        → find_run id mid.runs ≡ (if str_eq id head then some h.row else find_run id d.runs) =
      subst
        (λ n.
          (id : String)
          → find_run id mid.runs ≡ (if str_eq id n then some h.row else find_run id d.runs))
        name h.runs_read in
    let keys : UniqueSteps mid.steps =
      subst UniqueSteps (sym h.steps_moved.moved) (
        UniqueSteps-map h.steps_moved.to d.steps h.steps_moved.same_run h.steps_moved.same_name
          u) in
    let (answers, after, e', names, swept) =
      sweep_loop frozen now backoff max_crash p rest mid live timely keys
        (Taken-reaped p d.runs mid.runs h.row head rest read fresh t) in
    (
      answer ∷ answers,
      after,
      reap_each-cons (reap_one frozen now backoff max_crash) d mid after head rest answer answers e
          e',
      ap (λ i. i ∷ map (λ a. a.id) answers) (h.answered.0 ∙ name) ∙ ap (λ l. head ∷ l) names,
      λ id.
          Swept-cons p d.runs mid.runs after.runs run h.row head rest read found ok_run h.released
            h.fenced.0 h.counted (Reaped-state d max_crash run answer mid h) fresh id (swept id),
    )

is_candidate-running :
    (ignore_lease : Bool) (cut_ms : ℤ) (r : RunRow)
    → is_candidate ignore_lease cut_ms r ≡ true
    → r.state ≡ running
unfolding is_candidate
is_candidate-running ignore_lease cut_ms r h = ground arith

-- A row that a table finds passes what all its rows pass.
found_all :
    (q : RunRow → Bool) (id : String) (runs : List RunRow) (r : RunRow)
    → all q runs ≡ true
    → find_run id runs ≡ some r
    → q r ≡ true
unfolding find_run
found_all q id [] r h f = absurd (cc)
found_all q id (x ∷ rest) r h f = elim (Bool-cases (str_eq x.id id)) [
  | inl y ↦
      let same : some x ≡ some r = rw (y, find_run) at f in
      ap (λ o. elim o as (λ z. Bool) [ none ↦ true | some z ↦ q z ]) (sym same) ∙ ground arith
  | inr n ↦ found_all q id rest r (ground arith) (rw (n, find_run) at f)
]

Taken-all :
    (p q : RunRow → Bool) (runs : List RunRow) (ids : List String)
    → all q runs ≡ true
    → Taken p runs ids
    → Taken (λ r. p r && q r) runs ids
Taken-all p q runs [] h t = tt
Taken-all p q runs (id ∷ rest) h ((run, found, ok_run), fresh, t) = (
  (run, found, rw (ok_run, found_all q id runs run h found) refl),
  fresh,
  Taken-all p q runs rest h t,
)

Swept-weaken :
    (p q : RunRow → Bool) (ids : List String) (before after : List RunRow) (id : String)
    → ((r : RunRow) → p r ≡ true → q r ≡ true)
    → Swept p ids before after id
    → Swept q ids before after id
Swept-weaken p q ids before after id w
      (inl (c, run, found, y, row, at, owner, epoch, crashes, state)) =
    inl (c, run, found, w run y, row, at, owner, epoch, crashes, state)
Swept-weaken p q ids before after id w (inr kept) = inr kept

-- The rows that a sweep is for, up to its limit: runs that are running and, unless the sweep ignores
-- leases, whose lease ran out at least the skew ago.
abbrev pub has_lapsed : ReapOptions → ℤ → RunRow → Bool
has_lapsed opt now r =
    RunState.same r.state running
    && (opt.ignore_lease || elim r.lease_expires_at [
      | none ↦ false
      | some expires ↦
          leb_ℤ expires
            (unix_milli (now -ℤ (if leb_ℤ opt.skew (pos 0) then pos 10000000000 else opt.skew)))
    ])

length-ids : (l : List ReapedRun) → length (map (λ a. a.id) l) ≡ length l
length-ids [] = refl
length-ids (a ∷ rest) = omega (arith, length-ids rest)

-- Over tables with their primary keys, whose runs meet the schema's CHECK and did not start after the
-- clock's reading, ReapExpiredRuns never fails. It answers for as many runs as have lapsed, or for its
-- limit, 500 unless it is given, when more have. A run has lapsed when it is running and, unless the
-- sweep ignores leases, its lease ran out at least the skew ago, ten seconds unless it is given. Each run
-- that is answered for had lapsed; afterwards it is not running, has no holder, an epoch one higher and
-- a crash more. The row of any other run is as it was: a live lease is never taken.
pub reap_expired_runs-Swept :
    (frozen : Frozen) (db : Db) (now : ℤ) (opt : ReapOptions)
    → UniqueSteps db.steps
    → UniqueRuns db.runs
    → all (is_timely (unix_milli now)) db.runs ≡ true
    → (answers : List ReapedRun) × (after : Db) × (reap_expired_runs frozen db now opt
        ≡ (ok answers, after))
      × (length answers
          ≡ at_most
              (pos_part (if leb_ℤ opt.limit (pos 0) then pos 500 else opt.limit))
              (count_if (has_lapsed opt now) db.runs))
      × ((id : String) → Swept (has_lapsed opt now) (map (λ a. a.id) answers) db.runs after.runs id)
unfolding reap_expired_runs is_candidate is_expired_by
reap_expired_runs-Swept frozen db now opt u v timely =
    let p = is_candidate opt.ignore_lease (cut_of opt now) in
    let q = λ (r : RunRow). p r && is_timely (unix_milli now) r in
    let ids = reap_candidates opt now db.runs in
    let (answers, after, e, names, swept) =
      sweep_loop frozen now (or_default default_requeue_backoff opt.backoff)
        (or_default default_max_crash_count opt.max_crash_count) q ids db
        (λ r h.
          is_candidate-running opt.ignore_lease (cut_of opt now) r
            (and_both (p r) (is_timely (unix_milli now) r) h).0)
        (λ r h. (and_both (p r) (is_timely (unix_milli now) r) h).1) u
        (Taken-all p (is_timely (unix_milli now)) db.runs ids timely
          (reap_candidates-Taken opt now db.runs v)) in
    (
      answers,
      after,
      ap (with_tx db) e,
      sym (length-ids answers)
          ∙ (ap (λ l. length l) names ∙ reap_candidates-length opt now db.runs),
      λ id.
          subst (λ l. Swept (has_lapsed opt now) l db.runs after.runs id) (sym names)
            (Swept-weaken q (has_lapsed opt now) ids db.runs after.runs id
              (λ r h. (and_both (p r) (is_timely (unix_milli now) r) h).0) (swept id)),
    )
