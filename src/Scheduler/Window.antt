-- ===== src/Scheduler/Window.antt =====
-- How far back, and how much at once, a catch-up runs.
use paceq.Base.{
  ℕ, zero, suc, ◌≤◌, String, Bool, false, not, List, [], ◌∷◌, Option, none, some, ◌≡◌, refl, inl,
  inr, arith, eq_iff, str_eq,
}
use paceq.Base.Tests.{if◌then◌else◌, Bool-cases}
use paceq.Base.Lists.{select, length, take, any}
use paceq.Base.Int.{ℤ, pos, negsuc, pos_part}
use paceq.Scheduler.{
  Occurrence, SkipDecision, Decisions, cutoff, is_old, skip_with, split_last, catch_last, dose,
  attempts_of, catch_fresh, decide, apply_catchup,
}

split_last-any :
    (q : Occurrence → Bool) (o : Occurrence) (rest : List Occurrence)
    → any q (o ∷ rest) ≡ false
    → q (split_last o rest).1 ≡ false
unfolding split_last
split_last-any q o [] h = ground arith
split_last-any q o (p ∷ rest) h = split_last-any q p rest (ground arith)

take-any :
    (q : Occurrence → Bool) (n : ℕ) (occs : List Occurrence)
    → any q occs ≡ false
    → any q (take n occs) ≡ false
take-any q zero occs h = refl
take-any q (suc n) [] h = refl
take-any q (suc n) (o ∷ rest) h = ground (arith, take-any q n rest)

length-take : (n : ℕ) (occs : List Occurrence) → length (take n occs) ≤ n
length-take zero occs = omega arith
length-take (suc n) [] = omega arith
length-take (suc n) (o ∷ rest) = omega (arith, length-take n rest)

-- The most occurrences that one catch-up attempts: the limit under "all", and one otherwise.
abbrev pub most : String → ℤ → ℕ
most catchup limit = if str_eq catchup "all" then pos_part limit else 1

abbrev pub Bounded : (Occurrence → Bool) → ℕ → List Occurrence → Type 0
Bounded q n attempts = (any q attempts ≡ false) × (length attempts ≤ n)

dose-Bounded :
    (q : Occurrence → Bool) (limit : ℤ) (occs given : List Occurrence)
    → any q occs ≡ false
    → dose limit occs ≡ some given
    → Bounded q (pos_part limit) given
unfolding dose
dose-Bounded q (negsuc n) occs given h e = absurd (cc)
dose-Bounded q (pos n) occs given h e = ground (arith, take-any q n occs, length-take n occs)

attempts_of-Bounded :
    (q : Occurrence → Bool) (limit : ℤ) (skips : List SkipDecision) (occs : List Occurrence)
    (o : Option (List Occurrence)) (d : Decisions)
    → any q occs ≡ false
    → dose limit occs ≡ o
    → attempts_of skips o ≡ some d
    → Bounded q (pos_part limit) d.attempts
attempts_of-Bounded q limit skips occs none d h p e = absurd (cc)
attempts_of-Bounded q limit skips occs (some given) d h p e =
    ground (arith, dose-Bounded q limit occs given h p)

last-Bounded :
    (q : Occurrence → Bool) (skips : List SkipDecision) (o : Occurrence) (rest : List Occurrence)
    → any q (o ∷ rest) ≡ false
    → Bounded q 1 (catch_last skips o rest).attempts
unfolding catch_last
last-Bounded q skips o rest h = ground (arith, split_last-any q o rest h)

fresh-Bounded :
    (q : Occurrence → Bool) (now : ℤ) (skips : List SkipDecision) (o : Occurrence)
    (rest : List Occurrence)
    → any q (o ∷ rest) ≡ false
    → Bounded q 1 (catch_fresh now skips o rest).attempts
unfolding catch_fresh
fresh-Bounded q now skips o rest h = ground (arith, split_last-any q o rest h)

decide-Bounded :
    (q : Occurrence → Bool) (catchup : String) (limit now : ℤ) (skips : List SkipDecision)
    (occs : List Occurrence) (d : Decisions)
    → any q occs ≡ false
    → decide catchup limit now skips occs ≡ some d
    → Bounded q (most catchup limit) d.attempts
unfolding decide
decide-Bounded q catchup limit now skips [] d h e = ground arith
decide-Bounded q catchup limit now skips (o ∷ rest) d h e =
    elim (Bool-cases (str_eq catchup "last")) [
      | inl l ↦ ground (
        arith,
        last-Bounded q skips o rest h,
        eq_iff catchup "last",
        eq_iff catchup "all",
        eq_iff "last" "all",
      )
      | inr l ↦ elim (Bool-cases (str_eq catchup "all")) [
        | inl a ↦ rw a (
            attempts_of-Bounded q limit skips (o ∷ rest) (dose limit (o ∷ rest)) d h refl
              (rw (l, a) at e))
        | inr a ↦ ground (arith, fresh-Bounded q now skips o rest h)
      ]
    ]

select-any :
    (q : Occurrence → Bool) (occs : List Occurrence) → any q (select (λ o. not (q o)) occs) ≡ false
select-any q [] = refl
select-any q (o ∷ rest) = ground (arith, select-any q rest)

-- Whatever the policy, a catch-up attempts no occurrence that is older than the window, and at most
-- the limit under "all" and one under any other policy.
pub apply_catchup-Bounded :
    (occs : List Occurrence) (catchup : String) (limit window_ms now : ℤ) (d : Decisions)
    → apply_catchup occs catchup limit window_ms now ≡ some d
    → Bounded (is_old (cutoff now window_ms)) (most catchup limit) d.attempts
unfolding apply_catchup
apply_catchup-Bounded occs catchup limit window_ms now d e =
    let edge = cutoff now window_ms in
    decide-Bounded (is_old edge) catchup limit now
      (skip_with "TICK_SKIPPED_CATCHUP_WINDOW" (select (is_old edge) occs))
      (select (λ o. not (is_old edge o)) occs) d (select-any (is_old edge) occs) e
