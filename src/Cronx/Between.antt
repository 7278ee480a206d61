-- ===== src/Cronx/Between.antt =====
-- internal/cronx/iter.go: Between for a cron expression, every occurrence of a window, found by jumping
-- from minute to minute that the expression admits. Whole says what it finds.
pub mod Scan
pub mod Whole
use paceq.Base.{
  ℕ, zero, suc, ◌+◌, ◌*◌, ◌≡◌, Bool, true, false, not, ◌&&◌, ◌||◌, List, [], ◌∷◌, ◌++◌, map,
}
use paceq.Base.Tests.{if◌then◌else◌, ltb}
use paceq.Base.Lists.{select}
use paceq.Base.Int.{ℤ, ltb_ℤ}
use paceq.Cronx.Wall.{
  WallPoint, Compiled, Walk, found, exhausted, panicked, wall_ordinal, wall_point_of, matches,
  next_after, first_at_or_after,
}
use paceq.Cronx.Zone.{
  Zone, Policy, Emission, Occurrence, OccKey, less, key_of, classify_emissions, build_occurrence,
}

-- How the walk ended: at the end of the window, without a further match, in a panic, or, which the
-- source does not have, with no rounds left.
pub data Ending : Type 0 where
  complete truncated panic endless : Ending

abbrev pub Found : Type 0
Found = List Occurrence × Ending

-- Sixteen hours past the wall clock of the window's end.
abbrev pub stop_place : Zone → ℤ → ℕ
stop_place tz to = wall_ordinal (tz.wall_of to) + 16 * 60

module _ (tz : Zone) (c : Compiled) (p : Policy) where
  -- The occurrences of one minute that are in the window.
  unfoldable pub window_at : OccKey → ℤ → WallPoint → List Occurrence
  unfolding matches less key_of classify_emissions build_occurrence
  window_at k to w =
      let inside = λ (e : Emission). less k (key_of w e.at) && not (ltb_ℤ to e.at) in
      if matches c w
      then map (λ e. build_occurrence tz e w) (select inside (classify_emissions tz w p))
      else []

  abbrev pub and_on : List Occurrence → (WallPoint → Found) → Walk → Found
  and_on here next (found w) = let (rest, e) = next w in (here ++ rest, e)
  and_on here next exhausted = (here, truncated)
  and_on here next panicked = (here, panic)

  -- The loop; a round moves on in the timetable, so its length is fuel enough.
  unfoldable pub walk_window : ℕ → OccKey → ℤ → ℕ → ℕ → WallPoint → Found
  unfolding window_at wall_ordinal next_after
  walk_window zero k to year stop w = ([], endless)
  walk_window (suc fuel) k to year stop w =
      let on =
        and_on (window_at k to w) (λ n. walk_window fuel k to year stop n) (next_after c w) in
      if ltb (year + 6) w.y || ltb 9999 w.y
      then ([], truncated)
      else if ltb stop (wall_ordinal w)
      then ([], complete)
      else on

  -- The search that the window starts with.
  abbrev pub from_first : (WallPoint → Found) → Walk → Found
  from_first next (found w) = next w
  from_first next exhausted = ([], truncated)
  from_first next panicked = ([], panic)

  -- Between.
  unfoldable pub between : ℤ → ℤ → Found
  unfolding walk_window first_at_or_after key_of wall_point_of wall_ordinal
  between from to =
      let k = key_of (tz.wall_of from) from in
      let start = wall_point_of k.place in
      let walk =
        λ (w : WallPoint). walk_window (stop_place tz to + 2) k to start.y (stop_place tz to) w in
      let answer = from_first walk (first_at_or_after c start) in
      if not (ltb_ℤ from to) then ([], complete) else answer
