-- ===== src/Cronx/Wall/Search.antt =====
-- The loop of nextAfter, which jumps over months, days and hours, gives the right answer.
use paceq.Base.{
  ℕ, zero, suc, ◌+◌, ◌*◌, ◌≤◌, ◌<◌, ◌≡◌, refl, Bool, true, false, ◌||◌, ◌⊎◌, inl, inr, arith,
  Option, none, some,
}
use paceq.Base.Tests.{if◌then◌else◌, ltb, ◌==◌, Bool-cases}
use paceq.Base.Lists.{get_elem?}
use paceq.Cronx.Wall.{
  WallPoint, Compiled, Walk, found, exhausted, panicked, wall_ordinal, contains_int, matches,
  day_matches, skip_month, skip_day, on_day, on_hour, from_hour, from_day, next_day_in, search_on,
  search_ints, at_minute,
}
use paceq.Cronx.Wall.Sets.{In, search_least, search_none, first_least}
use paceq.Cronx.Wall.Days.{NextDay, next_day_in-NextDay, last_day_bounds, day_matches_bounds}
use paceq.Cronx.Wall.Carry.{IsWall, day_key, skip_day-IsCarried, skip_month-IsCarried}
use paceq.Cronx.Wall.Ahead.{
  Admits, matches-Admits, Admits-matches, InRange, IsNext, Ahead, Ahead-skip_month, Ahead-skip_day,
}

-- What an answer of the search says: the first minute after `w` that is admitted; none, and then none
-- is in the six years after `w` and up to the year 9999; or a panic, without minutes.
abbrev pub Answers : Compiled → WallPoint → Walk → Type 0
Answers c w (found r) = IsNext c w r
Answers c w exhausted =
    (v : WallPoint)
    → IsWall v
    → matches c v ≡ true
    → wall_ordinal w < wall_ordinal v
    → (w.y + 6 < v.y) ⊎ (9999 < v.y)
Answers c w panicked = get_elem? c.minutes 0 ≡ none

moved :
    (c : Compiled) (v n : WallPoint)
    → v.y ≡ n.y
    → v.mo ≡ n.mo
    → day_matches c v.y v.mo v.d ≡ true
    → day_matches c n.y n.mo v.d ≡ true
moved c v n y mo h = cc

pub year_le : (n v : WallPoint) → IsWall v → wall_ordinal n ≤ wall_ordinal v → n.y ≤ v.y
unfolding wall_ordinal
year_le n v wall le =
    let (_, short) = last_day_bounds v.y v.mo in
    omega (arith, wall.date.to_december, wall.date.to_last, wall.hour, wall.minute)

on_day_lem :
    (n : WallPoint) (nd : ℕ)
    → ((on_day n nd).y ≡ n.y) × ((on_day n nd).mo ≡ n.mo) × ((on_day n nd).d ≡ nd)
on_day_lem n nd = ground arith

module _ (c : Compiled) (w : WallPoint) (range : InRange c) where
  above :
      (n : WallPoint) (h mi : ℕ)
      → Ahead c w n
      → n.h ≤ h
      → wall_ordinal w < wall_ordinal (record n { h = h; mi = mi })
  unfolding wall_ordinal
  above n h mi a le = omega (arith, a.after, a.full)

  before :
      (n : WallPoint) (h mi : ℕ) (v : WallPoint)
      → wall_ordinal n ≤ wall_ordinal v
      → Ahead c w n
      → IsWall v
      → (n.h ≤ v.h → h ≤ v.h)
      → mi ≤ v.mi
      → h < 24
      → mi < 60
      → wall_ordinal (record n { h = h; mi = mi }) ≤ wall_ordinal v
  unfolding wall_ordinal
  before n h mi v le a wall least first short short' =
      ground (arith, a.full, a.hour, wall.hour, wall.minute, least)

  -- The hour `h` is the first of the day, from `n` on, that is admitted.
  at_minute-Answers :
      (n : WallPoint) (h : ℕ) (o : Option ℕ)
      → get_elem? c.minutes 0 ≡ o
      → Ahead c w n
      → In c.months n.mo
      → day_matches c n.y n.mo n.d ≡ true
      → n.h ≤ h
      → In c.hours h
      → ((u : ℕ) → n.h ≤ u → In c.hours u → h ≤ u)
      → Answers c w (at_minute o (record n { h = h }))
  at_minute-Answers n h none e a month day le hour least = e
  at_minute-Answers n h (some mi) e a month day le hour least =
      let (minute, first) = first_least c.minutes mi e in
      let r : WallPoint = record n { h = h; mi = mi } in
      let admits : Admits c r = record { month = month; hour = hour; minute = minute; day = day } in
      record {
        wall = record {
          date = a.date;
          hour = range.hours h hour;
          minute = range.minutes mi minute;
        };
        after = above n h mi a le;
        hit = Admits-matches c r admits;
        least = λ v wall m after.
            let v_admits = matches-Admits c v m in
            before n h mi v (a.bound v wall v_admits after) a wall
              (λ le'. least v.h le' v_admits.hour) (first v.mi v_admits.minute) (range.hours h hour)
              (range.minutes mi minute);
      }

  from_hour-Answers :
      (n : WallPoint) (past : Walk) (o : Option ℕ)
      → get_elem? c.hours (search_ints c.hours n.h) ≡ o
      → Ahead c w n
      → In c.months n.mo
      → day_matches c n.y n.mo n.d ≡ true
      → (Ahead c w (skip_day n) → Answers c w past)
      → Answers c w (from_hour c n past o)
  from_hour-Answers n past none e a month day next = next (
      Ahead-skip_day c w n a λ v wall m y mo d le.
        let gone = search_none c.hours n.h v.h e le in let there = m.hour in absurd (cc))
  from_hour-Answers n past (some h) e a month day next =
      let least = search_least c.hours n.h h e in
      at_minute-Answers n h (get_elem? c.minutes 0) refl a month day least.bound least.member
        least.least

  on_hour-Answers :
      (n : WallPoint) (past : Walk)
      → Ahead c w n
      → In c.months n.mo
      → day_matches c n.y n.mo n.d ≡ true
      → (Ahead c w (skip_day n) → Answers c w past)
      → Answers c w (on_hour c n past)
  unfolding on_hour
  on_hour-Answers n past a month day next =
      go (contains_int c.hours n.h) refl (
        from_hour-Answers n past (get_elem? c.hours (search_ints c.hours n.h)) refl a month day
          next)
    where
      go :
          (b : Bool)
          → contains_int c.hours n.h ≡ b
          → Answers c w (from_hour c n past (get_elem? c.hours (search_ints c.hours n.h)))
          → Answers c w (
              if b
              then at_minute (get_elem? c.minutes 0) n
              else from_hour c n past (get_elem? c.hours (search_ints c.hours n.h)))
      go true e later =
          at_minute-Answers n n.h (get_elem? c.minutes 0) refl a month day (omega arith) e
            (λ u le m. le)
      go false e later = later

  later_day :
      (n : WallPoint) (nd : ℕ)
      → Ahead c w n
      → n.d < nd
      → wall_ordinal w < wall_ordinal (record n { d = nd; h = 0 })
  unfolding wall_ordinal
  later_day n nd a lt = omega (arith, a.after, a.hour, a.full)

  same_day :
      (n : WallPoint) (nd : ℕ) (v : WallPoint)
      → wall_ordinal n ≤ wall_ordinal v
      → Ahead c w n
      → IsWall v
      → nd ≤ 31
      → (v.y ≡ n.y → v.mo ≡ n.mo → n.d ≤ v.d → nd ≤ v.d)
      → wall_ordinal (record n { d = nd; h = 0 }) ≤ wall_ordinal v
  unfolding wall_ordinal
  same_day n nd v le a wall short least =
      let (_, short') = last_day_bounds v.y v.mo in
      let (_, short'') = last_day_bounds n.y n.mo in
      ground (
        arith, a.full, a.hour, wall.hour, wall.minute, least, wall.date.to_last,
        wall.date.to_december, a.date.to_december, a.date.to_last,
      )

  -- The day that the search goes on to.
  Ahead-on_day :
      (n : WallPoint) (nd : ℕ)
      → Ahead c w n
      → NextDay c n.y n.mo n.d (some nd)
      → Ahead c w (on_day n nd)
  Ahead-on_day n nd a (le, hit, least) = elim (Bool-cases (nd == n.d)) [
    | inl same ↦ rw same a
    | inr other ↦
        let (low, high) = day_matches_bounds c n.y n.mo nd hit in
        let (_, short) = last_day_bounds n.y n.mo in
        rw other (record {
          date = record {
            from_january = a.date.from_january;
            to_december = a.date.to_december;
            from_first = low;
            to_last = high;
          };
          hour = omega arith;
          full = a.full;
          after = later_day n nd a (ground arith);
          bound = λ v wall m after.
              same_day n nd v (a.bound v wall m after) a wall (omega arith)
                (λ y mo le'. least v.d le' (moved c v n y mo m.day));
        })
  ]

  from_day-Answers :
      (n : WallPoint) (past_month : Walk) (past_day : WallPoint → Walk) (o : Option ℕ)
      → NextDay c n.y n.mo n.d o
      → Ahead c w n
      → In c.months n.mo
      → (Ahead c w (skip_month n) → Answers c w past_month)
      → ((d : WallPoint) → Ahead c w d → day_key n < day_key d → Answers c w (past_day d))
      → Answers c w (from_day c n past_month past_day o)
  from_day-Answers n past_month past_day none free a month next_month next_day = next_month (
      Ahead-skip_month c w n a λ v wall m y mo le.
        let gone = free v.d le in let there = moved c v n y mo m.day in absurd (cc))
  from_day-Answers n past_month past_day (some nd) day a month next_month next_day =
      let n' = on_day n nd in
      let (le, hit, _) = day in
      let (y, mo, d) = on_day_lem n nd in
      let forward = (skip_day-IsCarried n' (Ahead-on_day n nd a day).date).forward in
      on_hour-Answers n' (past_day (skip_day n')) (Ahead-on_day n nd a day) (rw mo month)
        (rw (y, mo, d) hit) λ a'. next_day (skip_day n') a' (omega (arith, forward, y, mo, d, le))

  -- A search that has passed the years has passed all that is in them.
  over-Answers :
      (n : WallPoint) → Ahead c w n → (w.y + 6 < n.y) ⊎ (9999 < n.y) → Answers c w exhausted
  over-Answers n a far =
      λ v wall m after. years n v far wall (a.bound v wall (matches-Admits c v m) after)
    where
      years :
          (n v : WallPoint)
          → (w.y + 6 < n.y) ⊎ (9999 < n.y)
          → IsWall v
          → wall_ordinal n ≤ wall_ordinal v
          → (w.y + 6 < v.y) ⊎ (9999 < v.y)
      years n v (inl far) wall le = inl (omega (arith, year_le n v wall le))
      years n v (inr far) wall le = inr (omega (arith, year_le n v wall le))

  pub search_on-Answers :
      (fuel : ℕ) (n : WallPoint)
      → Ahead c w n
      → (w.y + 7) * 512 ≤ fuel + day_key n
      → Answers c w (search_on fuel c w.y n)
  unfolding search_on
  search_on-Answers zero n a room =
      let (_, short) = last_day_bounds n.y n.mo in
      over-Answers n a (inl (omega (arith, a.date.to_december, a.date.to_last)))
  search_on-Answers (suc fuel) n a room =
      let past_month = search_on fuel c w.y (skip_month n) in
      let past_day = λ (d : WallPoint). search_on fuel c w.y d in
      let forward = (skip_month-IsCarried n a.date).forward in
      let (_, short) = last_day_bounds n.y n.mo in
      let next_month = λ (a' : Ahead c w (skip_month n)).
        search_on-Answers fuel (skip_month n) a' (omega (arith, forward, a.date.to_last)) in
      let next_day = λ (d : WallPoint) (a' : Ahead c w d) (lt : day_key n < day_key d).
        search_on-Answers fuel d a' (omega arith) in
      let day = next_day_in c n.y n.mo n.d in
      let this_month = from_day c n past_month past_day day in
      elim (Bool-cases (ltb (w.y + 6) n.y || ltb 9999 n.y)) [
        | inl over ↦ rw over (over-Answers n a (ground arith))
        | inr within ↦ elim (Bool-cases (contains_int c.months n.mo)) [
          | inl here ↦
              rw (within, here)
                (from_day-Answers n past_month past_day day
                  (next_day_in-NextDay c n.y n.mo n.d a.date.from_first) a here next_month next_day)
          | inr missing ↦
              rw (within, missing)
                (next_month
                  (Ahead-skip_month c w n a λ v wall m y mo le. let there = m.month in absurd (cc)))
        ]
      ]
