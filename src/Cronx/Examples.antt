-- ===== src/Cronx/Examples.antt =====
-- "30 9 * * *" in UTC, in the January that the epoch begins.
use paceq.Base.{◌+◌, ◌-◌, ◌*◌, ◌/◌, ◌%◌, ◌^◌, ◌≡◌, ◌≢◌, true, [], ◌∷◌, arith}
use paceq.Base.Int.{ℤ, pos, negsuc, ◌+ℤ◌}
use paceq.Cronx.Wall.{
  WallPoint, Compiled, next_after, wall_ordinal, wall_point_of, contains_int, search_ints,
}
use paceq.Cronx.Wall.Carry.{IsWall}
use paceq.Cronx.Wall.Ahead.{InRange}
use paceq.Cronx.Wall.Search.{Answers}
use paceq.Cronx.Wall.Next.{next_after-Answers}
use paceq.Cronx.Wall.Ordinal.{wall_point_of-wall_ordinal}
use paceq.Cronx.Zone.{Zone, Policy, skip, first, cron_next}
use paceq.Cronx.Zone.First.{Answered, cron_next-Answered}
use paceq.Cronx.Between.{endless, between}
use paceq.Cronx.Between.Scan.{MonthsInRange}
use paceq.Cronx.Between.Whole.{between_ends}

abbrev utc : Zone
utc = record {
  wall_of = λ t. elim t [
    | pos n ↦ record {
      y = 1970;
      mo = 1;
      d = 1 + n / (86400 * 10 ^ 9);
      h = n / (3600 * 10 ^ 9) % 24;
      mi = n / (60 * 10 ^ 9) % 60;
    }
    | negsuc n ↦ record { y = 1969; mo = 12; d = 31; h = 23; mi = 59 }
  ];
  second_of = λ t. elim t [ pos n ↦ n / 10 ^ 9 % 60 | negsuc n ↦ 59 ];
  offset = λ t. pos 0;
  date = λ w. pos ((((w.d - 1) * 24 + w.h) * 60 + w.mi) * (60 * 10 ^ 9));
  utc = λ w. pos ((((w.d - 1) * 24 + w.h) * 60 + w.mi) * (60 * 10 ^ 9));
  format = λ t. [];
}

abbrev half_past_nine : Compiled
half_past_nine = record {
  minutes = 30 ∷ [];
  hours = 9 ∷ [];
  doms = [];
  months = 1 ∷ 2 ∷ 3 ∷ 4 ∷ 5 ∷ 6 ∷ 7 ∷ 8 ∷ 9 ∷ 10 ∷ 11 ∷ 12 ∷ [];
  dows = [];
  dom_wild = true;
  dow_wild = true;
}

abbrev default : Policy
default = record { spring_forward = skip; fall_back = first }

-- Ten o'clock on the second of the month, and the end of the next day.
abbrev ten : ℤ
ten = pos ((86400 + 36000) * 10 ^ 9)

abbrev evening : ℤ
evening = pos (3 * 86400 * 10 ^ 9)

abbrev ten_wall : WallPoint
ten_wall = record { y = 1970; mo = 1; d = 2; h = 10; mi = 0 }

half_past_nine-InRange : InRange half_past_nine
unfolding contains_int search_ints
half_past_nine-InRange = record { hours = λ u h. ground arith; minutes = λ u h. ground arith }

half_past_nine-MonthsInRange : MonthsInRange half_past_nine
unfolding contains_int search_ints
half_past_nine-MonthsInRange = record { low = λ u h. ground arith; high = λ u h. ground arith }

ten_wall-IsWall : IsWall ten_wall
unfolding paceq.Cronx.Wall.last_day
ten_wall-IsWall = record {
  date = record {
    from_january = omega arith;
    to_december = omega arith;
    from_first = omega arith;
    to_last = omega arith;
  };
  hour = omega arith;
  minute = omega arith;
}

next_after-Answers_example : Answers half_past_nine ten_wall (next_after half_past_nine ten_wall)
next_after-Answers_example =
    next_after-Answers half_past_nine ten_wall half_past_nine-InRange ten_wall-IsWall

wall_point_of-wall_ordinal_example : wall_point_of (wall_ordinal ten_wall) ≡ ten_wall
wall_point_of-wall_ordinal_example = wall_point_of-wall_ordinal ten_wall ten_wall-IsWall

cron_next-Answered_example :
    Answered utc half_past_nine default
      (record { place = wall_ordinal ten_wall; at = ten })
      ten_wall
      (ten +ℤ pos (4 * 366 * 24 * 3600 * 10 ^ 9))
      (cron_next utc half_past_nine default ten)
cron_next-Answered_example =
    cron_next-Answered utc half_past_nine default ten half_past_nine-InRange ten_wall-IsWall

between_ends_example : (between utc half_past_nine default ten evening).1 ≢ endless
between_ends_example =
    between_ends utc half_past_nine default ten evening half_past_nine-InRange
      half_past_nine-MonthsInRange ten_wall-IsWall
