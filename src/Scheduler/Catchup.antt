-- ===== src/Scheduler/Catchup.antt =====
-- What a catch-up decides: nothing older than the window runs, no storm, and nothing is lost.
use paceq.Base.{
  ℕ, ◌+◌, String, Bool, not, List, [], ◌∷◌, ◌++◌, some, ◌≡◌, ◌≢◌, refl, inl, inr, arith, eq_iff,
  str_eq, ap, ◌∙◌,
}
use paceq.Base.Tests.{if◌then◌else◌, Bool-cases}
use paceq.Base.Lists.{select, count_if, count_if-append}
use paceq.Base.Int.{ℤ}
use paceq.Scheduler.{
  Occurrence, SkipDecision, Decisions, cutoff, is_old, skip_with, split_last, catch_last,
  catch_fresh, decide, apply_catchup,
}

-- How many of the skipped occurrences pass a test.
abbrev pub skipped_of : (Occurrence → Bool) → List SkipDecision → ℕ
skipped_of p = count_if (λ s. p s.occurrence)

skip_with-count_if :
    (p : Occurrence → Bool) (code : String) (occs : List Occurrence)
    → skipped_of p (skip_with code occs) ≡ count_if p occs
skip_with-count_if p code [] = refl
skip_with-count_if p code (o ∷ rest) = ground (arith, skip_with-count_if p code rest)

split_last-count_if :
    (p : Occurrence → Bool) (o : Occurrence) (rest : List Occurrence)
    → count_if p (split_last o rest).0 + (if p (split_last o rest).1 then 1 else 0)
      ≡ count_if p (o ∷ rest)
unfolding split_last
split_last-count_if p o [] = omega arith
split_last-count_if p o (q ∷ rest) = omega (arith, split_last-count_if p q rest)

select-count_if :
    (p q : Occurrence → Bool) (occs : List Occurrence)
    → count_if p (select q occs) + count_if p (select (λ o. not (q o)) occs) ≡ count_if p occs
select-count_if p q [] = refl
select-count_if p q (o ∷ rest) = ground (arith, select-count_if p q rest)

skips-count_if :
    (p : Occurrence → Bool) (code : String) (skips : List SkipDecision) (occs : List Occurrence)
    → skipped_of p (skips ++ skip_with code occs) ≡ skipped_of p skips + count_if p occs
skips-count_if p code skips occs =
    count_if-append (λ s. p s.occurrence) skips (skip_with code occs)
    ∙ ap (λ n. skipped_of p skips + n) (skip_with-count_if p code occs)

-- How many occurrences a decision covers.
abbrev pub decided : (Occurrence → Bool) → Decisions → ℕ
decided p d = count_if p d.attempts + skipped_of p d.skips

catch_last-decided :
    (p : Occurrence → Bool) (skips : List SkipDecision) (o : Occurrence) (rest : List Occurrence)
    → decided p (catch_last skips o rest) ≡ skipped_of p skips + count_if p (o ∷ rest)
unfolding catch_last
catch_last-decided p skips o rest = omega (
  arith,
  split_last-count_if p o rest,
  skips-count_if p "TICK_SKIPPED_CATCHUP_LAST_ONLY" skips (split_last o rest).0,
)

catch_fresh-decided :
    (p : Occurrence → Bool) (now : ℤ) (skips : List SkipDecision) (o : Occurrence)
    (rest : List Occurrence)
    → decided p (catch_fresh now skips o rest) ≡ skipped_of p skips + count_if p (o ∷ rest)
unfolding catch_fresh
catch_fresh-decided p now skips o rest = ground (
  arith,
  split_last-count_if p o rest,
  skips-count_if p "TICK_SKIPPED_CATCHUP_DISABLED" skips (split_last o rest).0,
  skips-count_if p "TICK_SKIPPED_CATCHUP_DISABLED" skips (o ∷ rest),
)

-- Under a policy that is not "all", the decisions are a partition.
decide-decided :
    (p : Occurrence → Bool) (catchup : String) (limit now : ℤ) (skips : List SkipDecision)
    (occs : List Occurrence)
    → catchup ≢ "all"
    → (d : Decisions) × (decide catchup limit now skips occs ≡ some d)
      × (decided p d ≡ skipped_of p skips + count_if p occs)
unfolding decide
decide-decided p catchup limit now skips [] n = (_, refl, omega arith)
decide-decided p catchup limit now skips (o ∷ rest) n = elim (Bool-cases (str_eq catchup "last")) [
  | inl l ↦ rw l (catch_last skips o rest, refl, catch_last-decided p skips o rest)
  | inr l ↦ elim (Bool-cases (str_eq catchup "all")) [
    | inl a ↦ absurd (n ((eq_iff catchup "all").0 a))
    | inr a ↦ rw (l, a) (catch_fresh now skips o rest, refl, catch_fresh-decided p now skips o rest)
  ]
]

-- Under every policy but "all" there is a decision, and each overdue occurrence is in it exactly as
-- often as it is overdue, as an attempt or as a skip with a code: for any test, the attempts and the
-- skips that pass it are together as many as the occurrences that do.
pub apply_catchup-decided :
    (p : Occurrence → Bool) (occs : List Occurrence) (catchup : String) (limit window_ms now : ℤ)
    → catchup ≢ "all"
    → (d : Decisions) × (apply_catchup occs catchup limit window_ms now ≡ some d)
      × (decided p d ≡ count_if p occs)
unfolding apply_catchup
apply_catchup-decided p occs catchup limit window_ms now n =
    let edge = cutoff now window_ms in
    let old = select (is_old edge) occs in
    let (d, e, c) =
      decide-decided p catchup limit now (skip_with "TICK_SKIPPED_CATCHUP_WINDOW" old)
        (select (λ o. not (is_old edge o)) occs) n in
    (
      d,
      e,
      omega (
        arith,
        c,
        skip_with-count_if p "TICK_SKIPPED_CATCHUP_WINDOW" old,
        select-count_if p (is_old edge) occs,
      ),
    )
