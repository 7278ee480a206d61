-- ===== src/Cronx/Between/Whole.antt =====
-- The jumps of Between lose nothing: it finds what a scan of every minute finds, and it ends.
use paceq.Base.{
  ℕ, zero, suc, ◌+◌, ◌≤◌, ◌<◌, ◌≡◌, ◌≢◌, refl, ap, Bool, true, false, ◌||◌, inl, inr, [], arith,
}
use paceq.Base.Tests.{if◌then◌else◌, ltb, Bool-cases}
use paceq.Base.Int.{ℤ, ltb_ℤ}
use paceq.Cronx.Wall.{
  WallPoint, Compiled, Walk, found, exhausted, panicked, wall_ordinal, matches, next_after,
  first_at_or_after,
}
use paceq.Cronx.Wall.Carry.{IsWall}
use paceq.Cronx.Wall.Ahead.{InRange}
use paceq.Cronx.Wall.Search.{Answers}
use paceq.Cronx.Wall.Next.{next_after-Answers}
use paceq.Cronx.Wall.Ordinal.{wall_point_of-wall_ordinal}
use paceq.Cronx.Zone.{Zone, Policy, OccKey, key_of}
use paceq.Cronx.Between.{
  complete, truncated, endless, Found, window_at, and_on, walk_window, stop_place, from_first,
  between,
}
use paceq.Cronx.Between.Scan.{MonthsInRange, rest_of}

module _ (tz : Zone) (c : Compiled) (p : Policy) (k : OccKey) (to : ℤ) where
  module _ (range : InRange c) (months : MonthsInRange c) (year stop : ℕ) where
    walk_step :
        (fuel : ℕ) (w : WallPoint)
        → walk_window tz c p (suc fuel) k to year stop w ≡ (
            if ltb (year + 6) w.y || ltb 9999 w.y
            then ([], truncated)
            else if ltb stop (wall_ordinal w)
            then ([], complete)
            else and_on tz c p
                (window_at tz c p k to w)
                (λ n. walk_window tz c p fuel k to year stop n)
                (next_after c w))
    unfolding walk_window
    walk_step fuel w = refl

    Scanned : ℕ → Type 0
    Scanned fuel =
        (w : WallPoint)
        → IsWall w
        → (walk_window tz c p fuel k to year stop w).1 ≡ complete
        → (walk_window tz c p fuel k to year stop w).0 ≡ rest_of tz c p k to stop (wall_ordinal w)

    Ends : ℕ → Type 0
    Ends fuel =
        (w : WallPoint)
        → IsWall w
        → stop + 2 ≤ fuel + wall_ordinal w
        → (walk_window tz c p (suc fuel) k to year stop w).1 ≢ endless

    and_on-Ends :
        (fuel : ℕ) (w : WallPoint) (o : Walk)
        → wall_ordinal w ≤ stop
        → stop + 2 ≤ suc fuel + wall_ordinal w
        → Ends fuel
        → Answers c w o
        → (and_on tz c p
            (window_at tz c p k to w)
            (λ n. walk_window tz c p (suc fuel) k to year stop n)
            o).1
          ≢ endless
    unfolding Ends
    and_on-Ends fuel w (found r) le room ends n = ends r n.wall (omega (arith, n.after))
    and_on-Ends fuel w exhausted le room ends far = λ e. absurd (cc)
    and_on-Ends fuel w panicked le room ends missing = λ e. absurd (cc)

    over_stop :
        (fuel : ℕ) (w : WallPoint)
        → stop < wall_ordinal w
        → (walk_window tz c p (suc fuel) k to year stop w).1 ≢ endless
    over_stop fuel w past = elim (Bool-cases (ltb (year + 6) w.y || ltb 9999 w.y)) [
      | inl over ↦ rw (walk_step fuel w) (rw over λ e. absurd (cc))
      | inr within ↦
          let past' : ltb stop (wall_ordinal w) ≡ true = ground arith in
          rw (walk_step fuel w) (rw (within, past') λ e. absurd (cc))
    ]

    -- It always ends: a round moves on in the timetable.
    walk-Ends : (fuel : ℕ) → Ends fuel
    unfolding Ends
    walk-Ends zero w h room = over_stop zero w (omega arith)
    walk-Ends (suc fuel) w h room = elim (Bool-cases (ltb (year + 6) w.y || ltb 9999 w.y)) [
      | inl over ↦ rw (walk_step (suc fuel) w) (rw over λ e. absurd (cc))
      | inr within ↦ elim (Bool-cases (ltb stop (wall_ordinal w))) [
        | inl past ↦ rw (walk_step (suc fuel) w) (rw (within, past) λ e. absurd (cc))
        | inr before ↦ rw (walk_step (suc fuel) w) (
            rw (within, before)
              (and_on-Ends fuel w (next_after c w) (ground arith) room (walk-Ends fuel)
                (next_after-Answers c w range h)))
      ]
    ]

  module _ (range : InRange c) (months : MonthsInRange c) (stop : ℕ) (start : WallPoint)
      (here : IsWall start) where
    abbrev walk_from : WallPoint → Found
    walk_from w = walk_window tz c p (stop + 2) k to start.y stop w

    first_step :
        first_at_or_after c start ≡ (if matches c start then found start else next_after c start)
    unfolding first_at_or_after
    first_step = refl

    walk_from_ends : (w : WallPoint) → IsWall w → (walk_from w).1 ≢ endless
    unfolding Ends wall_ordinal
    walk_from_ends w h =
        let e : stop + 2 ≡ suc (stop + 1) = omega arith in
        rw e (walk-Ends range months start.y stop (stop + 1) w h (omega arith))

    from_first_ends : (from_first tz c p walk_from (first_at_or_after c start)).1 ≢ endless
    from_first_ends =
        rw first_step
          (go (matches c start) (next_after c start) (next_after-Answers c start range here))
      where
        go :
            (b : Bool) (o : Walk)
            → Answers c start o
            → (from_first tz c p walk_from (if b then found start else o)).1 ≢ endless
        go true o n = walk_from_ends start here
        go false (found r) n = walk_from_ends r n.wall
        go false exhausted n = λ e. absurd (cc)
        go false panicked n = λ e. absurd (cc)

module _ (tz : Zone) (c : Compiled) (p : Policy) (from to : ℤ) where
  abbrev answer_from : WallPoint → Found
  answer_from s =
      from_first tz c p
        (λ w.
          walk_window tz c p (stop_place tz to + 2) (key_of (tz.wall_of from) from) to s.y
            (stop_place tz to) w)
        (first_at_or_after c s)

  between_lem :
      IsWall (tz.wall_of from)
      → ltb_ℤ from to ≡ true
      → between tz c p from to ≡ answer_from (tz.wall_of from)
  unfolding between key_of
  between_lem here after =
      rw after (ap answer_from (wall_point_of-wall_ordinal (tz.wall_of from) here))

between_empty :
    (tz : Zone) (c : Compiled) (p : Policy) (from to : ℤ)
    → ltb_ℤ from to ≡ false
    → (between tz c p from to).1 ≢ endless
unfolding between
between_empty tz c p from to h = rw h λ e. absurd (cc)

-- Between returns on every window, whatever the expression: its loop without a bound ends.
pub between_ends :
    (tz : Zone) (c : Compiled) (p : Policy) (from to : ℤ)
    → InRange c
    → MonthsInRange c
    → IsWall (tz.wall_of from)
    → (between tz c p from to).1 ≢ endless
between_ends tz c p from to range months here = elim (Bool-cases (ltb_ℤ from to)) [
  | inl after ↦ rw (between_lem tz c p from to here after) (
      from_first_ends tz c p (key_of (tz.wall_of from) from) to range months (stop_place tz to)
        (tz.wall_of from) here)
  | inr before ↦ between_empty tz c p from to before
]
