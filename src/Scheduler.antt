-- ===== src/Scheduler.antt =====
-- internal/scheduler/policy.go: applyCatchup, which overdue fire-times of a schedule are attempted and
-- which are skipped with a code. A Time is a number of nanoseconds since the Unix epoch, a Duration
-- an int64 of them, whose product wraps around; internal/cronx/cronx.go has the occurrence.
pub mod Catchup
pub mod Window
mod Examples
use paceq.Base.{
  ℕ, ◌^◌, ◌≤◌, ◌<◌, String, Bool, true, false, not, List, [], ◌∷◌, ◌++◌, Option, none, some, map,
  str_eq,
}
use paceq.Base.Tests.{if◌then◌else◌, ltb}
use paceq.Base.Lists.{select, length, take}
use paceq.Base.Int.{ℤ, pos, negsuc, ◌+ℤ◌, ◌-ℤ◌, ◌*ℤ◌, ltb_ℤ, wrap64}

-- cronx.Occurrence: the instant, its wall clock for display, and whether and why the
-- clocks skip it.
pub record Occurrence : Type 0 where
  pub at : ℤ
  pub local_wall : String
  pub skipped : Bool
  pub skip_reason : String

pub record SkipDecision : Type 0 where
  pub occurrence : Occurrence
  pub code : String

-- The two results.
pub record Decisions : Type 0 where
  pub attempts : List Occurrence
  pub skips : List SkipDecision

-- `now.Add(-time.Duration(catchupWindowMS) * time.Millisecond)`.
unfoldable pub cutoff : ℤ → ℤ → ℤ
unfolding wrap64 ◌+ℤ◌ ◌-ℤ◌ ◌*ℤ◌
cutoff now window_ms = now +ℤ wrap64 (wrap64 (pos 0 -ℤ window_ms) *ℤ pos (10 ^ 6))

-- `At.Before(cutoff)`.
abbrev pub is_old : ℤ → Occurrence → Bool
is_old limit o = ltb_ℤ o.at limit

abbrev pub skip_with : String → List Occurrence → List SkipDecision
skip_with code occs = map (λ o. record { occurrence = o; code = code }) occs

-- The elements of a list that begins with `o` but the last, and the last.
unfoldable pub split_last : Occurrence → List Occurrence → List Occurrence × Occurrence
split_last o [] = ([], o)
split_last o (p ∷ rest) = let (before, last) = split_last p rest in (o ∷ before, last)

unfoldable pub catch_last : List SkipDecision → Occurrence → List Occurrence → Decisions
unfolding split_last
catch_last skips o rest =
    let (before, last) = split_last o rest in
    record {
      attempts = last ∷ [];
      skips = skips ++ skip_with "TICK_SKIPPED_CATCHUP_LAST_ONLY" before;
    }

-- `dose[:catchupLimit]`, which panics, here `none`, for a limit below zero.
unfoldable pub dose : ℤ → List Occurrence → Option (List Occurrence)
dose (pos n) occs = some (if ltb n (length occs) then take n occs else occs)
dose (negsuc n) occs = none

abbrev pub attempts_of : List SkipDecision → Option (List Occurrence) → Option Decisions
attempts_of skips none = none
attempts_of skips (some occs) = some (record { attempts = occs; skips = skips })

-- The default policy: what came due within the last second runs.
unfoldable pub catch_fresh : ℤ → List SkipDecision → Occurrence → List Occurrence → Decisions
unfolding split_last ◌-ℤ◌
catch_fresh now skips o rest =
    let (before, last) = split_last o rest in
    if ltb_ℤ (now -ℤ pos (10 ^ 9)) last.at
    then record {
      attempts = last ∷ [];
      skips = skips ++ skip_with "TICK_SKIPPED_CATCHUP_DISABLED" before;
    }
    else record {
      attempts = [];
      skips = skips ++ skip_with "TICK_SKIPPED_CATCHUP_DISABLED" (o ∷ rest);
    }

-- The switch on the policy, over what is in the window.
unfoldable pub decide : String → ℤ → ℤ → List SkipDecision → List Occurrence → Option Decisions
unfolding catch_last catch_fresh dose
decide catchup limit now skips [] = some (record { attempts = []; skips = skips })
decide catchup limit now skips (o ∷ rest) =
    if str_eq catchup "last"
    then some (catch_last skips o rest)
    else if str_eq catchup "all"
    then attempts_of skips (dose limit (o ∷ rest))
    else some (catch_fresh now skips o rest)

-- applyCatchup.
unfoldable pub apply_catchup : List Occurrence → String → ℤ → ℤ → ℤ → Option Decisions
unfolding decide cutoff
apply_catchup occs catchup limit window_ms now =
    let edge = cutoff now window_ms in
    decide catchup limit now (skip_with "TICK_SKIPPED_CATCHUP_WINDOW" (select (is_old edge) occs))
      (select (λ o. not (is_old edge o)) occs)
