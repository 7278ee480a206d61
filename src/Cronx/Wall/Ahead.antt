-- ===== src/Cronx/Wall/Ahead.antt =====
-- The search of nextAfter skips no minute that the expression admits.
use paceq.Base.{ℕ, ◌+◌, ◌≤◌, ◌<◌, ◌≡◌, ◌∙◌, true, arith}
use paceq.Cronx.Wall.{WallPoint, Compiled, wall_ordinal, matches, day_matches, skip_month, skip_day}
use paceq.Cronx.Wall.Sets.{In}
use paceq.Cronx.Wall.Days.{last_day_bounds}
use paceq.Cronx.Wall.Carry.{IsDate, IsWall, day_key, skip_month-IsCarried, skip_day-IsCarried}

-- The minute is one that the expression admits.
pub record Admits (c : Compiled) (v : WallPoint) : Type 0 where
  pub month : In c.months v.mo
  pub hour : In c.hours v.h
  pub minute : In c.minutes v.mi
  pub day : day_matches c v.y v.mo v.d ≡ true

pub matches-Admits : (c : Compiled) (v : WallPoint) → matches c v ≡ true → Admits c v
unfolding matches
matches-Admits c v h = record {
  month = ground arith;
  hour = ground arith;
  minute = ground arith;
  day = ground arith;
}

pub Admits-matches : (c : Compiled) (v : WallPoint) → Admits c v → matches c v ≡ true
unfolding matches
Admits-matches c v a = ground (arith, a.month, a.hour, a.minute, a.day)

-- The hours and the minutes of a compiled expression are ones of a clock.
pub record InRange (c : Compiled) : Type 0 where
  pub hours : (u : ℕ) → In c.hours u → u < 24
  pub minutes : (u : ℕ) → In c.minutes u → u < 60

-- The minute `r` is the first after `w` that the expression admits.
pub record IsNext (c : Compiled) (w r : WallPoint) : Type 0 where
  pub wall : IsWall r
  pub after : wall_ordinal w < wall_ordinal r
  pub hit : matches c r ≡ true
  pub least :
      (v : WallPoint)
      → IsWall v
      → matches c v ≡ true
      → wall_ordinal w < wall_ordinal v
      → wall_ordinal r ≤ wall_ordinal v

-- The search stands at the full hour `n`, behind `w`, and has skipped nothing.
pub record Ahead (c : Compiled) (w n : WallPoint) : Type 0 where
  pub date : IsDate n.y n.mo n.d
  pub hour : n.h < 24
  pub full : n.mi ≡ 0
  pub after : wall_ordinal w < wall_ordinal n
  pub bound :
      (v : WallPoint)
      → IsWall v
      → Admits c v
      → wall_ordinal w < wall_ordinal v
      → wall_ordinal n ≤ wall_ordinal v

module _ (c : Compiled) (w : WallPoint) where
  behind_day :
      (n r : WallPoint)
      → Ahead c w n
      → day_key n < day_key r
      → r.h ≡ 0
      → r.mi ≡ 0
      → wall_ordinal w < wall_ordinal r
  unfolding wall_ordinal
  behind_day n r a further h mi = omega (arith, a.after, a.hour, a.full)

  in_order :
      (r v : WallPoint)
      → r.h ≡ 0
      → r.mi ≡ 0
      → day_key r ≤ day_key v
      → wall_ordinal r ≤ wall_ordinal v
  unfolding wall_ordinal
  in_order r v h mi le = omega arith

  month_over :
      (n v : WallPoint)
      → Ahead c w n
      → IsWall v
      → wall_ordinal n ≤ wall_ordinal v
      → (v.y ≡ n.y → v.mo ≡ n.mo → n.d ≤ v.d → ⊥)
      → day_key (record n { d = 1; h = 0; mo = n.mo + 1 }) ≤ day_key v
  unfolding wall_ordinal
  month_over n v a wall le free =
      let (_, short) = last_day_bounds n.y n.mo in
      let (_, short') = last_day_bounds v.y v.mo in
      ground (
        arith, a.date.to_last, wall.date.to_last, a.date.to_december, wall.date.to_december,
        wall.hour, wall.minute, free, wall.date.from_first,
      )

  day_over :
      (n v : WallPoint)
      → Ahead c w n
      → IsWall v
      → wall_ordinal n ≤ wall_ordinal v
      → (v.y ≡ n.y → v.mo ≡ n.mo → v.d ≡ n.d → n.h ≤ v.h → ⊥)
      → day_key (record n { d = n.d + 1; h = 0 }) ≤ day_key v
  unfolding wall_ordinal
  day_over n v a wall le free =
      let (_, short) = last_day_bounds n.y n.mo in
      let (_, short') = last_day_bounds v.y v.mo in
      ground (
        arith, a.date.to_last, wall.date.to_last, a.date.to_december, wall.date.to_december,
        wall.hour, wall.minute, free, a.hour,
      )

  -- Nothing that is admitted is in the rest of the month.
  pub Ahead-skip_month :
      (n : WallPoint)
      → Ahead c w n
      → ((v : WallPoint) → IsWall v → Admits c v → v.y ≡ n.y → v.mo ≡ n.mo → n.d ≤ v.d → ⊥)
      → Ahead c w (skip_month n)
  Ahead-skip_month n a free =
      let k = skip_month-IsCarried n a.date in
      let (_, short) = last_day_bounds n.y n.mo in
      record {
        date = k.date;
        hour = omega (arith, k.same_hour);
        full = k.same_minute ∙ a.full;
        after =
            behind_day n (skip_month n) a (omega (arith, k.forward, a.date.to_last)) k.same_hour
              (k.same_minute ∙ a.full);
        bound = λ v wall m after.
            in_order (skip_month n) v k.same_hour (k.same_minute ∙ a.full)
              (k.next v wall.date (month_over n v a wall (a.bound v wall m after) (free v wall m)));
      }

  -- Nothing that is admitted is in the rest of the day.
  pub Ahead-skip_day :
      (n : WallPoint)
      → Ahead c w n
      → ((v : WallPoint)
          → IsWall v
          → Admits c v
          → v.y ≡ n.y
          → v.mo ≡ n.mo
          → v.d ≡ n.d
          → n.h ≤ v.h
          → ⊥)
      → Ahead c w (skip_day n)
  Ahead-skip_day n a free =
      let k = skip_day-IsCarried n a.date in
      record {
        date = k.date;
        hour = omega (arith, k.same_hour);
        full = k.same_minute ∙ a.full;
        after =
            behind_day n (skip_day n) a (omega (arith, k.forward)) k.same_hour
              (k.same_minute ∙ a.full);
        bound = λ v wall m after.
            in_order (skip_day n) v k.same_hour (k.same_minute ∙ a.full)
              (k.next v wall.date (day_over n v a wall (a.bound v wall m after) (free v wall m)));
      }
