-- ===== src/Cronx/Between/Scan.antt =====
-- A scan of every minute of a window, and the stretches in it without a match.
use paceq.Base.{
  ℕ, zero, suc, ◌+◌, ◌-◌, ◌≤◌, ◌<◌, ◌≡◌, refl, sym, ap, ◌∙◌, true, false, inl, inr, List, [], ◌∷◌,
  ◌++◌, Bool, not, ◌&&◌, ◌||◌, map, arith,
}
use paceq.Base.Tests.{if◌then◌else◌, ltb, ◌==◌, leb, Bool-cases}
use paceq.Base.Lists.{select}
use paceq.Base.Int.{ℤ, ltb_ℤ}
use paceq.Cronx.Wall.{WallPoint, Compiled, wall_ordinal, wall_point_of, matches}
use paceq.Cronx.Wall.Sets.{In}
use paceq.Cronx.Wall.Days.{day_matches_bounds}
use paceq.Cronx.Wall.Carry.{IsWall}
use paceq.Cronx.Wall.Ahead.{InRange, matches-Admits}
use paceq.Cronx.Wall.Ordinal.{wall_point_of-wall_ordinal}
use paceq.Cronx.Zone.{
  Zone, Policy, Emission, Occurrence, OccKey, less, key_of, classify_emissions, build_occurrence,
}
use paceq.Cronx.Between.{window_at}

pub wall_ordinal-wall_point_of : (n : ℕ) → wall_ordinal (wall_point_of n) ≡ n
unfolding wall_ordinal wall_point_of
wall_ordinal-wall_point_of n = omega arith

-- The months of a compiled expression are ones of the calendar.
pub record MonthsInRange (c : Compiled) : Type 0 where
  pub low : (u : ℕ) → In c.months u → 1 ≤ u
  pub high : (u : ℕ) → In c.months u → u ≤ 12

pub matches-IsWall :
    (c : Compiled) (w : WallPoint) → InRange c → MonthsInRange c → matches c w ≡ true → IsWall w
matches-IsWall c w range months m =
    let a = matches-Admits c w m in
    let (low, high) = day_matches_bounds c w.y w.mo w.d a.day in
    record {
      date = record {
        from_january = months.low w.mo a.month;
        to_december = months.high w.mo a.month;
        from_first = low;
        to_last = high;
      };
      hour = range.hours w.h a.hour;
      minute = range.minutes w.mi a.minute;
    }

module _ (tz : Zone) (c : Compiled) (p : Policy) (k : OccKey) (to : ℤ) where
  -- Behind the start, by the place in the timetable and then by the instant, and not past the end.
  abbrev pub is_inside : WallPoint → Emission → Bool
  is_inside w e =
      (ltb k.place (wall_ordinal w) || ((k.place == wall_ordinal w) && ltb_ℤ k.at e.at))
      && not (ltb_ℤ to e.at)

  -- The occurrences that a minute has in the window.
  abbrev pub inside_at : WallPoint → List Occurrence
  inside_at w =
      if matches c w
      then map (λ e. build_occurrence tz e w) (select (is_inside w) (classify_emissions tz w p))
      else []

  is_inside_lem :
      (w : WallPoint) (e : Emission)
      → (less k (key_of w e.at) && not (ltb_ℤ to e.at)) ≡ is_inside w e
  unfolding less key_of
  is_inside_lem w e = ground arith

  select-inside :
      (w : WallPoint) (l : List Emission)
      → select (λ e. less k (key_of w e.at) && not (ltb_ℤ to e.at)) l ≡ select (is_inside w) l
  select-inside w [] = refl
  select-inside w (e ∷ rest) = rw (is_inside_lem w e, select-inside w rest) refl

  window_at-inside_at : (w : WallPoint) → window_at tz c p k to w ≡ inside_at w
  unfolding window_at
  window_at-inside_at w = rw (select-inside w (classify_emissions tz w p)) refl

  -- The occurrences in the window of every minute of the timetable, `count` of them from `place` on.
  unfoldable pub scan_minutes : ℕ → ℕ → List Occurrence
  scan_minutes zero place = []
  scan_minutes (suc count) place = inside_at (wall_point_of place) ++ scan_minutes count (place + 1)

  nothing_there : (w : WallPoint) → matches c w ≡ false → inside_at w ≡ []
  nothing_there w h = rw h refl

  nil : (place : ℕ) → scan_minutes 0 place ≡ []
  unfolding scan_minutes
  nil place = refl

  -- A stretch without a minute that is admitted adds nothing.
  skip_gap :
      (gap place count : ℕ)
      → ((q : ℕ) → place ≤ q → q < place + gap → matches c (wall_point_of q) ≡ false)
      → scan_minutes (gap + count) place ≡ scan_minutes count (place + gap)
  unfolding scan_minutes
  skip_gap zero place count free =
      let p : 0 + count ≡ count = omega arith in
      let q : place ≡ place + 0 = omega arith in λ i. scan_minutes (p i) (q i)
  skip_gap (suc gap) place count free =
      let p : suc gap + count ≡ suc (gap + count) = omega arith in
      let q : place + 1 + gap ≡ place + suc gap = omega arith in
      rw p (
        rw (nothing_there (wall_point_of place) (free place (omega arith) (omega arith))) (
          skip_gap gap (place + 1) count (λ x le lt. free x (omega arith) (omega arith))
          ∙ ap (λ x. scan_minutes count x) q))

  -- From a minute on, to the end of the window.
  abbrev pub rest_of : ℕ → ℕ → List Occurrence
  rest_of stop place = scan_minutes (stop + 1 - place) place

  pub rest_of_over : (stop place : ℕ) → stop < place → rest_of stop place ≡ []
  unfolding scan_minutes
  rest_of_over stop place h = let e : stop + 1 - place ≡ 0 = omega arith in rw e refl

  pub rest_of_here :
      (stop : ℕ) (w : WallPoint)
      → IsWall w
      → wall_ordinal w ≤ stop
      → rest_of stop (wall_ordinal w) ≡ window_at tz c p k to w ++ rest_of stop (wall_ordinal w + 1)
  unfolding scan_minutes
  rest_of_here stop w h le =
      let e : stop + 1 - wall_ordinal w ≡ suc (stop + 1 - (wall_ordinal w + 1)) = omega arith in
      rw e (
        rw (wall_point_of-wall_ordinal w h)
          (ap (λ l. l ++ rest_of stop (wall_ordinal w + 1)) (sym (window_at-inside_at w))))

  pub rest_of_gap :
      (stop place place' : ℕ)
      → place ≤ place'
      → ((q : ℕ) → place ≤ q → q < place' → matches c (wall_point_of q) ≡ false)
      → rest_of stop place ≡ rest_of stop place'
  rest_of_gap stop place place' le free = elim (Bool-cases (leb place' (stop + 1))) [
    | inl within ↦
        let h : place' ≤ stop + 1 = ground arith in
        let e : stop + 1 - place ≡ (place' - place) + (stop + 1 - place') = omega arith in
        let f : place + (place' - place) ≡ place' = omega arith in
        ap (λ n. scan_minutes n place) e
        ∙ (skip_gap (place' - place) place (stop + 1 - place') (λ q a b. free q a (omega arith))
            ∙ ap (λ x. scan_minutes (stop + 1 - place') x) f)
    | inr beyond ↦
        let h : stop + 1 < place' = ground arith in
        let e : stop + 1 - place ≡ (stop + 1 - place) + 0 = omega arith in
        ap (λ n. scan_minutes n place) e
        ∙ (skip_gap (stop + 1 - place) place 0 (λ q a b. free q a (omega arith))
            ∙ (nil (place + (stop + 1 - place)) ∙ sym (rest_of_over stop place' (omega arith))))
  ]
