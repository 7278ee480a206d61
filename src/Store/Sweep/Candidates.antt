-- ===== src/Store/Sweep/Candidates.antt =====
-- The identities that a sweep takes: each is found under its name, meets the query, and is taken once.
use mathlib.Core.List.{Memᴰ}
use paceq.Base.{
  ℕ, zero, suc, ◌+◌, ℕ, zero, suc, String, Bool, true, false, ◌||◌, List, [], ◌∷◌, none, some, ◌≡◌,
  refl, ap, ◌∙◌, inl, inr, arith, eq_iff, map, str_eq,
}
use paceq.Base.Tests.{if◌then◌else◌, leb, Bool-cases}
use paceq.Base.Lists.{select, take, length, count_if}
use paceq.Base.Int.{ℤ, pos_part, ◌-ℤ◌}
use paceq.Store.Leases.{unix_milli}
use paceq.Store.Rows.{RunRow, find_run}
use paceq.Store.Rows.Keys.{UniqueRuns, find_run_unique}
use paceq.Store.Closure.{contains}
use paceq.Store.Sweep.{
  ReapOptions, or_default, default_clock_skew_allowance, reap_limit, is_candidate, expires_first,
  insert_by_expiry, sort_by_expiry, reap_candidates,
}

-- Identities that the table has, each once and of a row that passes the test.
abbrev pub Taken : (RunRow → Bool) → List RunRow → List String → Type 0
Taken p runs [] = Unit {0}
Taken p runs (id ∷ rest) =
    ((run : RunRow) × (find_run id runs ≡ some run) × (p run ≡ true))
    × (contains rest id ≡ false)
    × Taken p runs rest

abbrev ids : List RunRow → List String
ids l = map (λ r. r.id) l

contains-insert :
    (r : RunRow) (l : List RunRow) (n : String)
    → contains (ids (insert_by_expiry r l)) n ≡ (str_eq r.id n || contains (ids l) n)
unfolding insert_by_expiry
contains-insert r [] n = refl
contains-insert r (t ∷ rest) n = ground (arith, contains-insert r rest n)

contains-sort :
    (l : List RunRow) (n : String) → contains (ids (sort_by_expiry l)) n ≡ contains (ids l) n
unfolding sort_by_expiry
contains-sort [] n = refl
contains-sort (r ∷ rest) n =
    contains-insert r (sort_by_expiry rest) n ∙ ap (λ b. str_eq r.id n || b) (contains-sort rest n)

Taken-insert :
    (p : RunRow → Bool) (runs : List RunRow) (r : RunRow) (l : List RunRow)
    → Taken p runs (r.id ∷ ids l)
    → Taken p runs (ids (insert_by_expiry r l))
unfolding insert_by_expiry
Taken-insert p runs r [] h = h
Taken-insert p runs r (t ∷ rest) (found, fresh, (found_t, fresh_t, taken)) =
    let deep : Taken p runs (ids (insert_by_expiry r rest)) =
      Taken-insert p runs r rest (found, ground arith, taken) in
    let apart : contains (ids (insert_by_expiry r rest)) t.id ≡ false =
      ground (arith, contains-insert r rest t.id, eq_iff r.id t.id, eq_iff t.id r.id) in
    elim (Bool-cases (expires_first r.lease_expires_at t.lease_expires_at)) [
      | inl y ↦ rw y (found, fresh, (found_t, fresh_t, taken))
      | inr n ↦ rw n (found_t, apart, deep)
    ]

Taken-sort :
    (p : RunRow → Bool) (runs l : List RunRow)
    → Taken p runs (ids l)
    → Taken p runs (ids (sort_by_expiry l))
unfolding sort_by_expiry
Taken-sort p runs [] h = h
Taken-sort p runs (r ∷ rest) (found, fresh, taken) =
    Taken-insert p runs r (sort_by_expiry rest)
      (found, contains-sort rest r.id ∙ fresh, Taken-sort p runs rest taken)

contains-take :
    (k : ℕ) (l : List RunRow) (n : String)
    → contains (ids l) n ≡ false
    → contains (ids (take k l)) n ≡ false
contains-take zero l n h = refl
contains-take (suc k) [] n h = refl
contains-take (suc k) (r ∷ rest) n h = ground (arith, contains-take k rest n)

Taken-take :
    (p : RunRow → Bool) (runs : List RunRow) (k : ℕ) (l : List RunRow)
    → Taken p runs (ids l)
    → Taken p runs (ids (take k l))
Taken-take p runs zero l h = tt
Taken-take p runs (suc k) [] h = tt
Taken-take p runs (suc k) (r ∷ rest) (found, fresh, taken) =
    (found, contains-take k rest r.id fresh, Taken-take p runs k rest taken)

select-absent :
    (p : RunRow → Bool) (id : String) (l : List RunRow)
    → find_run id l ≡ none
    → contains (ids (select p l)) id ≡ false
unfolding find_run
select-absent p id [] h = refl
select-absent p id (r ∷ rest) h = ground (arith, select-absent p id rest)

Taken-select :
    (p : RunRow → Bool) (runs l : List RunRow)
    → UniqueRuns runs
    → UniqueRuns l
    → ((r : RunRow) → Memᴰ r l → Memᴰ r runs)
    → Taken p runs (ids (select p l))
Taken-select p runs [] u v sub = tt
Taken-select p runs (r ∷ rest) u (absent, v) sub =
    let taken = Taken-select p runs rest u v (λ t m. sub t (Memᴰ.tail m)) in
    elim (Bool-cases (p r)) [
      | inr n ↦ rw n taken
      | inl y ↦ rw y (
        (r, find_run_unique runs r u (sub r (Memᴰ.head refl)), y),
        select-absent p r.id rest absent,
        taken,
      )
    ]

-- The time by which a lease must have run out.
abbrev pub cut_of : ReapOptions → ℤ → ℤ
cut_of opt now = unix_milli (now -ℤ or_default default_clock_skew_allowance opt.skew)

pub reap_candidates-Taken :
    (opt : ReapOptions) (now : ℤ) (runs : List RunRow)
    → UniqueRuns runs
    → Taken (is_candidate opt.ignore_lease (cut_of opt now)) runs (reap_candidates opt now runs)
unfolding reap_candidates
reap_candidates-Taken opt now runs u =
    let p = is_candidate opt.ignore_lease (cut_of opt now) in
    Taken-take p runs (pos_part (or_default reap_limit opt.limit)) (sort_by_expiry (select p runs))
      (Taken-sort p runs (select p runs) (Taken-select p runs runs u u (λ r m. m)))

-- How many candidates there are.
abbrev pub at_most : ℕ → ℕ → ℕ
at_most most n = if leb most n then most else n

length-insert : (r : RunRow) (l : List RunRow) → length (insert_by_expiry r l) ≡ length l + 1
unfolding insert_by_expiry
length-insert r [] = omega arith
length-insert r (t ∷ rest) = ground (arith, length-insert r rest)

length-sort : (l : List RunRow) → length (sort_by_expiry l) ≡ length l
unfolding sort_by_expiry
length-sort [] = refl
length-sort (r ∷ rest) = omega (arith, length-insert r (sort_by_expiry rest), length-sort rest)

length-select : (p : RunRow → Bool) (l : List RunRow) → length (select p l) ≡ count_if p l
length-select p [] = refl
length-select p (r ∷ rest) = ground (arith, length-select p rest)

length-take : (n : ℕ) (l : List RunRow) → length (map (λ r. r.id) (take n l)) ≡ at_most n (length l)
length-take zero l = ground arith
length-take (suc n) [] = ground arith
length-take (suc n) (r ∷ rest) = ground (arith, length-take n rest)

pub reap_candidates-length :
    (opt : ReapOptions) (now : ℤ) (runs : List RunRow)
    → length (reap_candidates opt now runs)
      ≡ at_most
          (pos_part (or_default reap_limit opt.limit))
          (count_if (is_candidate opt.ignore_lease (cut_of opt now)) runs)
unfolding reap_candidates
reap_candidates-length opt now runs =
    let p = is_candidate opt.ignore_lease (cut_of opt now) in
    length-take (pos_part (or_default reap_limit opt.limit)) (sort_by_expiry (select p runs))
    ∙ ap (at_most (pos_part (or_default reap_limit opt.limit)))
        (length-sort (select p runs) ∙ length-select p runs)
