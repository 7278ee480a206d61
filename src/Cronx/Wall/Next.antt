-- ===== src/Cronx/Wall/Next.antt =====
-- nextAfter finds the first minute after another that a cron expression admits.
use paceq.Base.{
  ℕ, ◌+◌, ◌*◌, ◌≤◌, ◌<◌, ◌≡◌, refl, sym, Bool, true, false, ◌&&◌, inl, inr, arith, Option, none,
  some,
}
use paceq.Base.Tests.{&&-true, if◌then◌else◌, leb, Bool-cases}
use paceq.Base.Lists.{get_elem?}
use paceq.Cronx.Wall.{
  WallPoint, Compiled, found, wall_ordinal, contains_int, day_matches, skip_day, search_on,
  search_ints, next_hour, next_after, later_minute, max_iterations, month_has,
}
use paceq.Cronx.Wall.Sets.{search_least, search_none}
use paceq.Cronx.Wall.Days.{last_day_bounds}
use paceq.Cronx.Wall.Carry.{IsWall, day_key, IsCarried, skip_day-IsCarried}
use paceq.Cronx.Wall.Ahead.{Admits, matches-Admits, Admits-matches, InRange, IsNext, Ahead}
use paceq.Cronx.Wall.Search.{Answers, search_on-Answers}

if_some {ℓ} :
    {A : Type ℓ} {a : A} (b : Bool) (o : Option A)
    → (if b then o else none) ≡ some a
    → (b ≡ true) × (o ≡ some a)
if_some true o h = (refl, h)
if_some false o h = absurd (cc)

module _ (c : Compiled) (w : WallPoint) (here : IsWall w) where
  minute_after : (mi : ℕ) → w.mi + 1 ≤ mi → wall_ordinal w < wall_ordinal (record w { mi = mi })
  unfolding wall_ordinal
  minute_after mi h = omega arith

  minute_least :
      (mi : ℕ) (v : WallPoint)
      → mi < 60
      → IsWall v
      → wall_ordinal w < wall_ordinal v
      → (w.mi + 1 ≤ v.mi → mi ≤ v.mi)
      → wall_ordinal (record w { mi = mi }) ≤ wall_ordinal v
  unfolding wall_ordinal
  minute_least mi v short wall after least =
      ground (arith, here.minute, here.hour, wall.minute, wall.hour, least)

  -- A later minute of the hour that the search starts in.
  later_minute-IsNext :
      (mi : ℕ) → InRange c → later_minute c w ≡ some mi → IsNext c w (record w { mi = mi })
  later_minute-IsNext mi range h =
      let (conditions, e) =
        if_some (month_has c w.mo && day_matches c w.y w.mo w.d && contains_int c.hours w.h)
          (get_elem? c.minutes (search_ints c.minutes (w.mi + 1))) h in
      let (dates, hour) =
        &&-true (month_has c w.mo && day_matches c w.y w.mo w.d) (contains_int c.hours w.h)
          conditions in
      let (month, day) = &&-true (month_has c w.mo) (day_matches c w.y w.mo w.d) dates in
      let least = search_least c.minutes (w.mi + 1) mi e in
      let short = range.minutes mi least.member in
      record {
        wall = record { date = here.date; hour = here.hour; minute = short };
        after = minute_after mi least.bound;
        hit =
            Admits-matches c (record w { mi = mi })
              (record { month = month; hour = hour; minute = least.member; day = day });
        least = λ v wall m after.
            minute_least mi v short wall after
              (λ le. least.least v.mi le (matches-Admits c v m).minute);
      }

  -- None is left in that hour.
  no_later_minute :
      later_minute c w ≡ none
      → (v : WallPoint) → Admits c v
      → v.y ≡ w.y
      → v.mo ≡ w.mo
      → v.d ≡ w.d
      → v.h ≡ w.h
      → w.mi + 1 ≤ v.mi
      → ⊥
  no_later_minute h v m y mo d hour le =
      let month' : month_has c w.mo ≡ true = rw (sym mo) m.month in
      let day' : day_matches c w.y w.mo w.d ≡ true = rw (sym y, sym mo, sym d) m.day in
      let hour' : contains_int c.hours w.h ≡ true = rw (sym hour) m.hour in
      let gone = rw (month', day', hour') at h in
      let missing = search_none c.minutes (w.mi + 1) v.mi gone le in
      let there = m.minute in absurd (cc)

  hour_on : leb (w.h + 1) 23 ≡ true → next_hour w ≡ record w { mi = 0; h = w.h + 1 }
  unfolding next_hour
  hour_on h = rw h refl

  day_on : leb (w.h + 1) 23 ≡ false → next_hour w ≡ skip_day (record w { mi = 0 })
  unfolding next_hour skip_day
  day_on h = rw h refl

  after_hour : wall_ordinal w < wall_ordinal (record w { mi = 0; h = w.h + 1 })
  unfolding wall_ordinal
  after_hour = omega (arith, here.minute)

  past_hour :
      (v : WallPoint)
      → IsWall v
      → (v.y ≡ w.y → v.mo ≡ w.mo → v.d ≡ w.d → v.h ≡ w.h → w.mi + 1 ≤ v.mi → ⊥)
      → wall_ordinal w < wall_ordinal v
      → wall_ordinal (record w { mi = 0; h = w.h + 1 }) ≤ wall_ordinal v
  unfolding wall_ordinal
  past_hour v wall free after =
      let (_, short) = last_day_bounds w.y w.mo in
      let (_, short') = last_day_bounds v.y v.mo in
      ground (
        arith, free, here.minute, here.hour, wall.minute, wall.hour, here.date.to_last,
        wall.date.to_last, here.date.to_december, wall.date.to_december,
      )

  -- The first midnight behind the last hour of a day.
  after_day :
      (r : WallPoint)
      → IsCarried (record w { mi = 0; d = w.d + 1; h = 0 }) r
      → leb (w.h + 1) 23 ≡ false
      → wall_ordinal w < wall_ordinal r
  unfolding wall_ordinal
  after_day r k h = omega (arith, k.forward, here.minute, here.hour)

  past_day :
      (r v : WallPoint)
      → IsCarried (record w { mi = 0; d = w.d + 1; h = 0 }) r
      → leb (w.h + 1) 23 ≡ false
      → IsWall v
      → wall_ordinal (record w { mi = 0; h = w.h + 1 }) ≤ wall_ordinal v
      → wall_ordinal r ≤ wall_ordinal v
  unfolding wall_ordinal
  past_day r v k h wall le =
      let late : 23 ≤ w.h = ground arith in
      let key : day_key (record w { mi = 0; d = w.d + 1; h = 0 }) ≤ day_key v =
        omega (arith, here.hour, wall.hour, wall.minute) in
      omega (arith, k.next v wall.date key, k.same_hour, k.same_minute)

  Ahead-next_hour : later_minute c w ≡ none → Ahead c w (next_hour w)
  Ahead-next_hour h =
      let bound =
        λ (v : WallPoint) (wall : IsWall v) (m : Admits c v)
            (after : wall_ordinal w < wall_ordinal v).
          past_hour v wall (no_later_minute h v m) after in
      elim (Bool-cases (leb (w.h + 1) 23)) [
        | inl same ↦ rw (hour_on same) (record {
          date = here.date;
          hour = ground arith;
          full = refl;
          after = after_hour;
          bound = bound;
        })
        | inr last ↦
            let k = skip_day-IsCarried (record w { mi = 0 }) here.date in
            let r = skip_day (record w { mi = 0 }) in
            rw (day_on last) (record {
              date = k.date;
              hour = omega (arith, k.same_hour);
              full = k.same_minute;
              after = after_day r k last;
              bound = λ v wall m after. past_day r v k last wall (bound v wall m after);
            })
      ]

  -- The rounds of the search are enough for seven years.
  enough : (w.y + 7) * 512 ≤ max_iterations + day_key (next_hour w)
  enough = elim (Bool-cases (leb (w.h + 1) 23)) [
    | inl same ↦ rw (hour_on same) (omega arith)
    | inr last ↦
        rw (day_on last) (
          let forward = (skip_day-IsCarried (record w { mi = 0 }) here.date).forward in omega arith)
  ]

-- The answer of nextAfter is the first minute after `w` that the expression admits, of all minutes of
-- all dates of the calendar. When it finds none, there is none within the six years after the year of
-- `w` and up to the year 9999, although the search makes at most 100000 rounds; and it panics only for
-- an expression without minutes.
pub next_after-Answers :
    (c : Compiled) (w : WallPoint) → InRange c → IsWall w → Answers c w (next_after c w)
unfolding next_after
next_after-Answers c w range here = go (later_minute c w) refl
  where
    go :
        (o : Option ℕ)
        → later_minute c w ≡ o
        → Answers c w (elim o [
          | none ↦ search_on max_iterations c w.y (next_hour w)
          | some v ↦ found (record w { mi = v })
        ])
    go none e =
        search_on-Answers c w range max_iterations (next_hour w) (Ahead-next_hour c w here e)
          (enough c w here)
    go (some v) e = later_minute-IsNext c w here v range e
