-- ===== src/Store/Quota/Ceiling.antt =====
-- What the walk respects.
use mathlib.Core.List.{Memᴰ}
use paceq.Base.{
  ℕ, zero, suc, ◌+◌, ◌≤◌, String, false, List, [], ◌∷◌, ◌≡◌, refl, inl, inr, arith, eq_iff, str_eq,
}
use paceq.Base.Tests.{leb, Bool-cases}
use paceq.Base.Lists.{count_if, length}
use paceq.Base.Int.{ℤ}
use paceq.Store.Quota.{Candidate, ceiling, hold, walk}

-- How many runs of the job are among the chosen.
abbrev pub chosen_of : String → List Candidate → ℕ
chosen_of job = count_if (λ c. str_eq c.job job)

hold-same :
    (job : String) (held : String → ℕ) (name : String)
    → job ≡ name
    → hold job held name ≡ held name + 1
unfolding hold
hold-same job held name e = ground (arith, eq_iff name job)

hold-other :
    (job : String) (held : String → ℕ) (name : String)
    → str_eq job name ≡ false
    → hold job held name ≡ held name
unfolding hold
hold-other job held name e = ground (arith, eq_iff name job, eq_iff job name)

has_room :
    (c : Candidate) (held : String → ℕ) (job : String) (limit : ℤ)
    → c.job ≡ job
    → c.limit ≡ limit
    → leb (ceiling c.limit) (held c.job) ≡ false
    → held job + 1 ≤ ceiling limit
has_room c held job limit p q h = rw (← p, ← q) (ground arith)

pub walk-ceiling :
    (left : ℕ) (held : String → ℕ) (cands : List Candidate) (job : String) (limit : ℤ)
    → ((c : Candidate) → Memᴰ c cands → c.job ≡ job → c.limit ≡ limit)
    → held job ≤ ceiling limit
    → held job + chosen_of job (walk left held cands) ≤ ceiling limit
unfolding walk
walk-ceiling left held [] job limit one h = ground arith
walk-ceiling zero held (c ∷ rest) job limit one h = ground arith
walk-ceiling (suc left) held (c ∷ rest) job limit one h =
    let tail = λ (d : Candidate) (m : Memᴰ d rest). one d (Memᴰ.tail m) in
    elim (Bool-cases (leb (ceiling c.limit) (held c.job))) [
      | inl full ↦ rw (full, walk) (walk-ceiling (suc left) held rest job limit tail h)
      | inr room ↦
          rw (room, walk)
            (elim (Bool-cases (str_eq c.job job)) [
              | inl e ↦
                  let same = one c (Memᴰ.head refl) ((eq_iff c.job job).0 e) in
                  let kept = walk-ceiling left (hold c.job held) rest job limit tail (
                    rw (hold-same c.job held job ((eq_iff c.job job).0 e))
                      (has_room c held job limit ((eq_iff c.job job).0 e) same room)) in
                  rw e (omega (arith, kept, hold-same c.job held job ((eq_iff c.job job).0 e)))
              | inr e ↦
                  let kept =
                    walk-ceiling left (hold c.job held) rest job limit tail
                      (rw (hold-other c.job held job e) h) in
                  rw e (omega (arith, kept, hold-other c.job held job e))
            ])
    ]

pub walk-length :
    (left : ℕ) (held : String → ℕ) (cands : List Candidate) → length (walk left held cands) ≤ left
unfolding walk
walk-length left held [] = omega arith
walk-length zero held (c ∷ rest) = omega arith
walk-length (suc left) held (c ∷ rest) = elim (Bool-cases (leb (ceiling c.limit) (held c.job))) [
  | inl full ↦ rw (full, walk) (walk-length (suc left) held rest)
  | inr room ↦ rw (room, walk) (omega (arith, walk-length left (hold c.job held) rest))
]
