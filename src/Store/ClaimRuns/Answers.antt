-- ===== src/Store/ClaimRuns/Answers.antt =====
-- How many runs the two claims of a pass answer with.
use paceq.Base.{
  ℕ, zero, suc, ◌≤◌, String, Bool, true, ◌&&◌, List, [], ◌∷◌, Option, ◌≡◌, refl, arith, map,
}
use paceq.Base.Lists.{count_if, select, take, length}
use paceq.Base.Int.{ℤ}
use paceq.Store.Rows.{RunRow, JobRow, Detail, Db}
use paceq.Store.Closure.{contains}
use paceq.Store.Quota.{Candidate}
use paceq.Store.Rows.Keys.{UniqueRuns}
use paceq.Store.ClaimRuns.{
  claimed_of, start_run, claim_chosen, keyed_start, keyed_starts, claim_key_deferred, conc_data_of,
  sort_by_claim, is_due, is_key_deferred,
}
use paceq.Store.ClaimRuns.Counts.{count_if-le, Sound, chosen_count}
use paceq.Store.ClaimRuns.Chosen.{Stands}

select_count : {A : Type 0} (p : A → Bool) (l : List A) → length (select p l) ≡ count_if p l
select_count p [] = refl
select_count p (x ∷ rest) = ground (arith, select_count p rest)

length-map : {A B : Type 0} (f : A → B) (l : List A) → length (map f l) ≡ length l
length-map f [] = refl
length-map f (x ∷ rest) = omega (arith, length-map f rest)

Sound-all :
    (runs : List RunRow) (chosen : List Candidate)
    → Stands runs chosen
    → Sound (λ t. true) (λ c. true) runs chosen
Sound-all runs [] s = tt
Sound-all runs (c ∷ rest) ((r, at, q, e), s) = ((r, at, refl), Sound-all runs rest s)

count_all : {A : Type 0} (l : List A) → count_if (λ x. true) l ≡ length l
count_all [] = refl
count_all (x ∷ rest) = omega (arith, count_all rest)

pub claim_chosen-length :
    (chosen : List Candidate) (owner : String) (now_ms expires_ms : ℤ) (db : Db)
    → UniqueRuns db.runs
    → Stands db.runs chosen
    → length (claim_chosen (map (λ c. c.id) chosen) owner now_ms expires_ms db).0 ≤ length chosen
unfolding claim_chosen
claim_chosen-length chosen owner now_ms expires_ms db u s =
    let p = λ (r : RunRow). contains (map (λ (c : Candidate). c.id) chosen) r.id in
    let taken = select p db.runs in
    let a = length-map claimed_of (map (start_run owner now_ms expires_ms) taken) in
    let b = length-map (start_run owner now_ms expires_ms) taken in
    let c = select_count p db.runs in
    let d = chosen_count (λ t. true) (λ e. true) db.runs chosen u (Sound-all db.runs chosen s) in
    let e = count_if-le p (λ t. p t && true) db.runs (λ t. ground arith) in
    omega (arith, count_all chosen)

pub keyed_starts-length :
    (wanted_key : Option Detail → String) (jobs : List JobRow) (owner : String)
    (now_ms expires_ms : ℤ) (left : ℕ) (due : List RunRow) (db : Db)
    → length (keyed_starts wanted_key jobs owner now_ms expires_ms left due db).0 ≤ left
unfolding keyed_starts
keyed_starts-length wanted_key jobs owner now_ms expires_ms zero [] db = omega arith
keyed_starts-length wanted_key jobs owner now_ms expires_ms (suc left) [] db = omega arith
keyed_starts-length wanted_key jobs owner now_ms expires_ms zero (p ∷ rest) db = omega arith
keyed_starts-length wanted_key jobs owner now_ms expires_ms (suc left) (p ∷ rest) db =
    let started = (keyed_start jobs p.id (wanted_key p.reason_data) owner now_ms expires_ms db).1 in
    ground (
      arith,
      keyed_starts-length wanted_key jobs owner now_ms expires_ms (suc left) rest db,
      keyed_starts-length wanted_key jobs owner now_ms expires_ms (suc left) rest started,
      keyed_starts-length wanted_key jobs owner now_ms expires_ms left rest started,
    )

pub claim_key_deferred-length :
    (unmarshal : Detail → Option String) (jobs : List JobRow) (only : List String) (owner : String)
    (now_ms expires_ms : ℤ) (budget : ℕ) (db : Db)
    → length (claim_key_deferred unmarshal jobs only owner now_ms expires_ms budget db).0 ≤ budget
unfolding claim_key_deferred
claim_key_deferred-length unmarshal jobs only owner now_ms expires_ms budget db =
    keyed_starts-length (conc_data_of unmarshal) jobs owner now_ms expires_ms budget
      (take budget
        (sort_by_claim (select (λ r. is_due only now_ms r && is_key_deferred r) db.runs)))
      db
