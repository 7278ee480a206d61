-- ===== src/Store/ClaimRuns/Passes.antt =====
-- The two claims of a pass take what they answer with.
use mathlib.Core.List.{Memᴰ}
use paceq.Base.{
  ℕ, zero, suc, ◌+◌, String, Bool, true, ◌&&◌, List, [], ◌∷◌, Option, some, map, ◌≡◌, refl, ap, ◌∙◌,
  inl, inr, arith, str_eq,
}
use paceq.Base.Tests.{Bool-cases}
use paceq.Base.Lists.{select, take}
use paceq.Base.Int.{ℤ}
use paceq.Model.RunState.{queued, running}
use paceq.Model.RunState
use paceq.Store.Rows.{RunRow, JobRow, Detail, Db, find_run, update_runs}
use paceq.Store.Rows.Keys.{
  UniqueRuns, UniqueRuns-update, find_run-update, find_run_unique, found_queued,
}
use paceq.Store.Closure.{contains}
use paceq.Store.Finish.Writes.{find_run-id}
use paceq.Store.Quota.{Candidate}
use paceq.Store.ClaimRuns.{
  ClaimedRun, claimed_of, start_run, start_keyed, can_start_keyed, claim_chosen, keyed_start,
  keyed_starts, claim_key_deferred, conc_data_of, sort_by_claim, is_due, is_key_deferred, last_of,
}
use paceq.Store.ClaimRuns.Chosen.{Stands}
use paceq.Store.ClaimRuns.Started.{keyed_turn}
use paceq.Store.ClaimRuns.Taken.{
  Kept, Came, AllTaken, Taken-later, AllTaken-later, last-Taken, update_runs-Kept, update_runs-Came,
}

-- A SET clause that gives the lease to an owner.
abbrev Starts : String → (RunRow → RunRow) → Type 0
Starts owner f =
    (r : RunRow)
    → ((f r).id ≡ r.id)
      × ((f r).state ≡ running)
      × ((f r).lease_owner ≡ some owner)
      × ((f r).lease_epoch ≡ r.lease_epoch + 1)

start-AllTaken :
    (owner : String) (p : RunRow → Bool) (f : RunRow → RunRow) (runs l : List RunRow)
    → UniqueRuns runs
    → Starts owner f
    → ((id : String) (r : RunRow)
        → find_run id runs ≡ some r
        → p r ≡ true
        → RunState.same r.state queued ≡ true)
    → ((r : RunRow) → Memᴰ r l → Memᴰ r runs)
    → AllTaken owner runs (update_runs p f runs) (map claimed_of (map f (select p l)))
start-AllTaken owner p f runs [] u s q sub = tt
start-AllTaken owner p f runs (r ∷ rest) u s q sub =
    let more = start-AllTaken owner p f runs rest u s q (λ x m. sub x (Memᴰ.tail m)) in
    elim (Bool-cases (p r)) [
      | inr n ↦ rw n more
      | inl y ↦
          let (i, st, o, n) = s r in
          let at = find_run_unique runs r u (sub r (Memᴰ.head refl)) in
          let after = find_run-update p f r.id runs r (λ t. (s t).0) at in
          rw y (
            (
              r,
              f r,
              rw i at,
              q r.id r at y,
              n,
              ap (λ n. find_run n (update_runs p f runs)) i ∙ (rw y at after),
              st,
              o,
              refl,
            ),
            more,
          )
    ]

-- What a claim from `runs` on does: it keeps the key, and what it answers with it has taken.
abbrev pub Pass : String → List RunRow → List ClaimedRun × Db → Type 0
Pass owner runs x =
    UniqueRuns x.1.runs × Kept runs x.1.runs × Came runs x.1.runs × AllTaken owner runs x.1.runs x.0

update_runs-Pass :
    (owner : String) (p : RunRow → Bool) (f : RunRow → RunRow) (db : Db)
    → UniqueRuns db.runs
    → Starts owner f
    → ((id : String) (r : RunRow)
        → find_run id db.runs ≡ some r
        → p r ≡ true
        → RunState.same r.state queued ≡ true)
    → Pass owner db.runs
        (map claimed_of (map f (select p db.runs)), record db { runs = update_runs p f db.runs })
update_runs-Pass owner p f db u s q = (
  UniqueRuns-update p f db.runs (λ r. (s r).0) u,
  update_runs-Kept p f db.runs (λ r. (s r).0) q,
  update_runs-Came p f db.runs (λ r. (s r).0) (λ r. rw ((s r).1) refl),
  start-AllTaken owner p f db.runs db.runs u s q (λ r m. m),
)

-- The row of a chosen run is queued.
Stands-queued :
    (runs : List RunRow) (chosen : List Candidate) (id : String) (r : RunRow)
    → Stands runs chosen
    → find_run id runs ≡ some r
    → contains (map (λ c. c.id) chosen) id ≡ true
    → r.state ≡ queued
Stands-queued runs [] id r s e h = absurd (ground arith)
Stands-queued runs (c ∷ rest) id r ((t, at, q, n), s) e h = elim (Bool-cases (str_eq c.id id)) [
  | inl y ↦ found_queued runs c.id id t r at q y e
  | inr n ↦ Stands-queued runs rest id r s e (ground arith)
]

pub claim_chosen-Pass :
    (chosen : List Candidate) (owner : String) (now_ms expires_ms : ℤ) (db : Db)
    → UniqueRuns db.runs
    → Stands db.runs chosen
    → Pass owner db.runs (claim_chosen (map (λ c. c.id) chosen) owner now_ms expires_ms db)
unfolding claim_chosen start_run
claim_chosen-Pass chosen owner now_ms expires_ms db u s =
    update_runs-Pass owner (λ r. contains (map (λ (c : Candidate). c.id) chosen) r.id)
      (start_run owner now_ms expires_ms) db u (λ r. (refl, refl, refl, refl))
      (λ id r e y.
        rw
          (Stands-queued db.runs chosen r.id r s
            (ap (λ i. find_run i db.runs) (find_run-id id db.runs r e) ∙ e) y)
          refl)

keyed_start-Pass :
    (jobs : List JobRow) (id given owner : String) (now_ms expires_ms : ℤ) (db : Db)
    → UniqueRuns db.runs
    → Pass owner db.runs (keyed_start jobs id given owner now_ms expires_ms db)
unfolding keyed_start start_keyed can_start_keyed
keyed_start-Pass jobs id given owner now_ms expires_ms db u =
    update_runs-Pass owner (can_start_keyed jobs db.runs id given now_ms)
      (start_keyed given owner now_ms expires_ms) db u (λ r. (refl, refl, refl, refl))
      (λ i r e y. ground arith)

-- A claim after a pass that took what it answered with, or a row of it.
pub Pass-later :
    (owner : String) (runs : List RunRow) (first x : List ClaimedRun × Db)
    → Pass owner runs first
    → Pass owner first.1.runs x
    → Pass owner runs x
Pass-later owner runs first x (u, k, c, t) (u', k', c', t') = (
  u',
  λ id r e w. k' id r (k id r e w) w,
  λ id r e w. c id r (c' id r e w) w,
  AllTaken-later owner runs first.1.runs x.1.runs x.1.runs x.0 c (λ id r e w. e) t',
)

Pass-won :
    (owner : String) (runs : List RunRow) (first x : List ClaimedRun × Db) (c : ClaimedRun)
    → Pass owner runs first
    → last_of first.0 ≡ some c
    → Pass owner first.1.runs x
    → Pass owner runs (c ∷ x.0, x.1)
Pass-won owner runs first x c p e q =
    let (u, k, came, t) = Pass-later owner runs first x p q in
    let (u', k', came', t') = p in
    (
      u,
      k,
      came,
      (
        Taken-later owner runs runs first.1.runs x.1.runs c (λ id r f w. f) (q.1)
            (last-Taken owner runs first.1.runs first.0 c t' e),
        t,
      ),
    )

keyed_starts-Pass :
    (wanted_key : Option Detail → String) (jobs : List JobRow) (owner : String)
    (now_ms expires_ms : ℤ) (left : ℕ) (due : List RunRow) (db : Db)
    → UniqueRuns db.runs
    → Pass owner db.runs (keyed_starts wanted_key jobs owner now_ms expires_ms left due db)
unfolding keyed_starts
keyed_starts-Pass wanted_key jobs owner now_ms expires_ms zero [] db u =
    (u, λ id r e w. e, λ id r e w. e, tt)
keyed_starts-Pass wanted_key jobs owner now_ms expires_ms (suc left) [] db u =
    (u, λ id r e w. e, λ id r e w. e, tt)
keyed_starts-Pass wanted_key jobs owner now_ms expires_ms zero (p ∷ rest) db u =
    (u, λ id r e w. e, λ id r e w. e, tt)
keyed_starts-Pass wanted_key jobs owner now_ms expires_ms (suc left) (p ∷ rest) db u =
    let given = wanted_key p.reason_data in
    let first = keyed_start jobs p.id given owner now_ms expires_ms db in
    let s = keyed_start-Pass jobs p.id given owner now_ms expires_ms db u in
    let lost = keyed_starts wanted_key jobs owner now_ms expires_ms (suc left) rest first.1 in
    let won = keyed_starts wanted_key jobs owner now_ms expires_ms left rest first.1 in
    keyed_turn (Pass owner db.runs) (str_eq given "") (last_of first.0)
      (keyed_starts wanted_key jobs owner now_ms expires_ms (suc left) rest db) lost won
      (keyed_starts-Pass wanted_key jobs owner now_ms expires_ms (suc left) rest db u)
      (Pass-later owner db.runs first lost s
        (keyed_starts-Pass wanted_key jobs owner now_ms expires_ms (suc left) rest first.1 s.0))
      (λ c e.
        Pass-won owner db.runs first won c s e
          (keyed_starts-Pass wanted_key jobs owner now_ms expires_ms left rest first.1 s.0))

pub claim_key_deferred-Pass :
    (unmarshal : Detail → Option String) (jobs : List JobRow) (only : List String) (owner : String)
    (now_ms expires_ms : ℤ) (budget : ℕ) (db : Db)
    → UniqueRuns db.runs
    → Pass owner db.runs (claim_key_deferred unmarshal jobs only owner now_ms expires_ms budget db)
unfolding claim_key_deferred
claim_key_deferred-Pass unmarshal jobs only owner now_ms expires_ms budget db u =
    keyed_starts-Pass (conc_data_of unmarshal) jobs owner now_ms expires_ms budget
      (take budget
        (sort_by_claim (select (λ r. is_due only now_ms r && is_key_deferred r) db.runs)))
      db u
