-- ===== src/Store/ClaimRuns/Counts.antt =====
-- Counting the rows of `runs` that an update by identities meets.
use paceq.Base.{
  ◌+◌, ◌≤◌, String, Bool, false, not, ◌&&◌, List, [], ◌∷◌, none, some, ◌≡◌, refl, sym, ap, ◌∙◌, inl,
  inr, arith, eq_iff, map, str_eq,
}
use paceq.Base.Tests.{if◌then◌else◌, Bool-cases}
use paceq.Base.Lists.{count_if}
use paceq.Store.Rows.{RunRow, find_run, update_runs}
use paceq.Store.Closure.{contains}
use paceq.Store.Quota.{Candidate, running_counts}
use paceq.Store.Rows.Keys.{UniqueRuns}
use paceq.Store.ClaimRuns.{is_active_run, key_holders}

pub count_if-le :
    {A : Type 0} (p q : A → Bool) (l : List A)
    → ((a : A) → (p a && not (q a)) ≡ false)
    → count_if p l ≤ count_if q l
count_if-le p q [] h = omega arith
count_if-le p q (a ∷ rest) h = ground (arith, count_if-le p q rest h, h a)

-- The row of a key, counted.
pub absent_count :
    (id : String) (q : RunRow → Bool) (runs : List RunRow)
    → find_run id runs ≡ none
    → count_if (λ t. str_eq t.id id && q t) runs ≡ 0
unfolding find_run
absent_count id q [] h = refl
absent_count id q (t ∷ rest) h = ground (arith, absent_count id q rest)

pub found_count :
    (id : String) (q : RunRow → Bool) (runs : List RunRow) (r : RunRow)
    → UniqueRuns runs
    → find_run id runs ≡ some r
    → count_if (λ t. str_eq t.id id && q t) runs ≡ (if q r then 1 else 0)
unfolding find_run
found_count id q [] r u h = absurd (cc)
found_count id q (t ∷ rest) r (absent, u) h = elim (Bool-cases (str_eq t.id id)) [
  | inl y ↦
      let at = (eq_iff t.id id).0 y in
      let none_more = absent_count id q rest (ap (λ i. find_run i rest) (sym at) ∙ absent) in
      ground (arith, none_more)
  | inr n ↦ ground (arith, found_count id q rest r u)
]

-- Each chosen run is a row, of which the test says what it says of the candidate.
abbrev pub Sound : (RunRow → Bool) → (Candidate → Bool) → List RunRow → List Candidate → Type 0
Sound q g runs [] = Unit {0}
Sound q g runs (c ∷ rest) =
    ((r : RunRow) × (find_run c.id runs ≡ some r) × (q r ≡ g c)) × Sound q g runs rest

split_count :
    (i : String) (ids : List String) (q : RunRow → Bool) (runs : List RunRow)
    → count_if (λ t. contains (i ∷ ids) t.id && q t) runs
      ≤ count_if (λ t. str_eq t.id i && q t) runs + count_if (λ t. contains ids t.id && q t) runs
split_count i ids q [] = omega arith
split_count i ids q (t ∷ rest) =
    ground (arith, split_count i ids q rest, eq_iff i t.id, eq_iff t.id i)

none_count :
    (q : RunRow → Bool) (runs : List RunRow) → count_if (λ t. contains [] t.id && q t) runs ≡ 0
none_count q [] = refl
none_count q (t ∷ rest) = ground (arith, none_count q rest)

pub chosen_count :
    (q : RunRow → Bool) (g : Candidate → Bool) (runs : List RunRow) (chosen : List Candidate)
    → UniqueRuns runs
    → Sound q g runs chosen
    → count_if (λ t. contains (map (λ c. c.id) chosen) t.id && q t) runs ≤ count_if g chosen
chosen_count q g runs [] u s = omega (arith, none_count q runs)
chosen_count q g runs (c ∷ rest) u ((r, found, same), s) =
    let more = chosen_count q g runs rest u s in
    let one = found_count c.id q runs r u found in
    let parts = split_count c.id (map (λ d. d.id) rest) q runs in ground arith

-- What an update adds to the running runs of a job, and to the holders of a key.
pub running_counts-update :
    (p : RunRow → Bool) (f : RunRow → RunRow) (job : String) (runs : List RunRow)
    → ((r : RunRow) → (f r).job_name ≡ r.job_name)
    → running_counts (update_runs p f runs) job
      ≤ running_counts runs job + count_if (λ t. p t && str_eq t.job_name job) runs
unfolding running_counts update_runs
running_counts-update p f job [] k = omega arith
running_counts-update p f job (t ∷ rest) k =
    ground (arith, running_counts-update p f job rest k, k t)

-- A start that keeps the keys.
pub key_holders-update :
    (p : RunRow → Bool) (f : RunRow → RunRow) (key : String) (runs : List RunRow)
    → ((r : RunRow) → (f r).concurrency_key ≡ r.concurrency_key)
    → key_holders key (update_runs p f runs)
      ≤ key_holders key runs + count_if (λ t. p t && not (is_active_run t)) runs
unfolding key_holders update_runs
key_holders-update p f key [] k = omega arith
key_holders-update p f key (t ∷ rest) k = ground (arith, key_holders-update p f key rest k, k t)

-- A start that gives a key.
pub key_holders-given :
    (p : RunRow → Bool) (f : RunRow → RunRow) (given key : String) (runs : List RunRow)
    → ((r : RunRow) → (f r).concurrency_key ≡ some given)
    → key_holders key (update_runs p f runs)
      ≤ key_holders key runs + (if str_eq given key then count_if p runs else 0)
unfolding key_holders update_runs
key_holders-given p f given key [] k = ground arith
key_holders-given p f given key (t ∷ rest) k =
    ground (arith, key_holders-given p f given key rest k, k t)
