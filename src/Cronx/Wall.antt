-- ===== src/Cronx/Wall.antt =====
-- internal/cronx/iter.go: a minute of a wall clock, its place in the timetable, the days a cron
-- expression admits, and the search for its next minute. Years count from 0 on. time.Date of the
-- standard library is the Gregorian calendar; sort.SearchInts is the index of the first number that
-- is not less.
pub mod Sets
pub mod Days
pub mod Carry
pub mod Ordinal
pub mod Ahead
pub mod Search
pub mod Next
use paceq.Base.{
  ℕ, zero, suc, ◌+◌, ◌-◌, ◌*◌, ◌/◌, ◌%◌, Bool, true, false, not, ◌&&◌, ◌||◌, List, [], ◌∷◌, Option,
  none, some, ◌≡◌, refl,
}
use paceq.Base.Tests.{if◌then◌else◌, ltb, leb, ◌==◌}
use paceq.Base.Lists.{length, get_elem?}

pub record WallPoint : Type 0 where
  pub y : ℕ
  pub mo : ℕ
  pub d : ℕ
  pub h : ℕ
  pub mi : ℕ

unfoldable pub wall_ordinal : WallPoint → ℕ
wall_ordinal w = (((w.y * 16 + w.mo) * 32 + w.d) * 24 + w.h) * 60 + w.mi

unfoldable pub wall_point_of : ℕ → WallPoint
wall_point_of ord = record {
  y = ord / 60 / 24 / 32 / 16;
  mo = ord / 60 / 24 / 32 % 16;
  d = ord / 60 / 24 % 32;
  h = ord / 60 % 24;
  mi = ord % 60;
}

abbrev pub is_leap : ℕ → Bool
is_leap y = (y % 4 == 0) && (not (y % 100 == 0) || (y % 400 == 0))

-- `time.Date(y, mo+1, 0, …).Day()`.
unfoldable pub last_day : ℕ → ℕ → ℕ
last_day y mo =
    if mo == 2
    then (if is_leap y then 29 else 28)
    else if (mo == 4) || (mo == 6) || (mo == 9) || (mo == 11)
    then 30
    else 31

-- The days of a year before a month.
abbrev pub days_before : ℕ → ℕ → ℕ
days_before y zero = 0
days_before y (suc zero) = 0
days_before y (suc (suc mo)) = days_before y (suc mo) + last_day y (suc mo)

-- `time.Date(y, mo, d, 12, …).Weekday()`, with Sunday as 0. Four hundred years are whole weeks, so a
-- shift by them keeps the day of the week; 1 January of the year 1 is a Monday.
unfoldable pub weekday : ℕ → ℕ → ℕ → ℕ
unfolding last_day
weekday y mo d =
    let years = y + 399 in
    (365 * years + years / 4 + years / 400 + days_before y mo + d - years / 100) % 7

-- sort.SearchInts.
unfoldable pub search_ints : List ℕ → ℕ → ℕ
search_ints [] x = 0
search_ints (v ∷ vs) x = let i = search_ints vs x in if leb x v then 0 else suc i

abbrev pub is_at : Option ℕ → ℕ → Bool
is_at none v = false
is_at (some u) v = u == v

unfoldable pub contains_int : List ℕ → ℕ → Bool
unfolding search_ints
contains_int set v = is_at (get_elem? set (search_ints set v)) v

pub record Compiled : Type 0 where
  pub minutes : List ℕ
  pub hours : List ℕ
  pub doms : List ℕ
  pub months : List ℕ
  pub dows : List ℕ
  pub dom_wild : Bool
  pub dow_wild : Bool

unfoldable pub day_matches : Compiled → ℕ → ℕ → ℕ → Bool
unfolding last_day contains_int weekday
day_matches c y mo d =
    let dm = not c.dom_wild && contains_int c.doms d in
    let dw = not c.dow_wild && contains_int c.dows (weekday y mo d) in
    if ltb d 1 || ltb (last_day y mo) d
    then false
    else if c.dom_wild && c.dow_wild
    then true
    else if c.dom_wild
    then dw
    else if c.dow_wild
    then dm
    else dm || dw

unfoldable pub matches : Compiled → WallPoint → Bool
unfolding contains_int day_matches
matches c w =
    if not (contains_int c.months w.mo)
    then false
    else if not (contains_int c.hours w.h) || not (contains_int c.minutes w.mi)
    then false
    else day_matches c w.y w.mo w.d

-- monthHas.
abbrev pub month_has : Compiled → ℕ → Bool
month_has c mo = contains_int c.months mo

-- `if w.mo > 12 { w.mo = 1; w.y++ }`.
unfoldable pub next_year : WallPoint → WallPoint
next_year w = if ltb 12 w.mo then record w { mo = 1; y = w.y + 1 } else w

-- The loop of carryDay. A round that does not return sets the day to 1, which every month has, so two
-- rounds are enough.
unfoldable pub carry : ℕ → WallPoint → WallPoint
unfolding next_year last_day
carry zero w = w
carry (suc fuel) w =
    let n = next_year w in
    let rest = carry fuel (record n { d = 1; mo = n.mo + 1 }) in
    if leb n.d (last_day n.y n.mo) then n else rest

unfoldable pub carry_day : WallPoint → WallPoint
unfolding carry
carry_day w = carry 2 w

unfoldable pub carry_from_hour : WallPoint → WallPoint
unfolding carry_day
carry_from_hour w = if leb w.h 23 then w else carry_day (record w { h = 0; d = w.d + 1 })

-- `for dd := d; dd <= last; dd++`, over the days that are left.
unfoldable pub walk_days : Compiled → ℕ → ℕ → ℕ → ℕ → Option ℕ
unfolding day_matches
walk_days c y mo zero dd = none
walk_days c y mo (suc left) dd =
    let rest = walk_days c y mo left (dd + 1) in if day_matches c y mo dd then some dd else rest

-- The loop over the days of the month that the expression names, from `dd` on; it looks at a day of
-- the month once, so 32 rounds are enough.
unfoldable pub walk_doms : ℕ → Compiled → ℕ → ℕ → ℕ → Option ℕ
unfolding search_ints day_matches
walk_doms zero c y mo dd = none
walk_doms (suc fuel) c y mo dd = elim (get_elem? c.doms (search_ints c.doms dd)) [
  | none ↦ none
  | some cand ↦
      let rest = walk_doms fuel c y mo (cand + 1) in
      if ltb (last_day y mo) cand then none else if day_matches c y mo cand then some cand else rest
]

unfoldable pub next_day_in : Compiled → ℕ → ℕ → ℕ → Option ℕ
unfolding walk_days walk_doms
next_day_in c y mo d =
    let last = last_day y mo in
    let walk = walk_days c y mo (last + 1 - d) d in
    if c.dom_wild && c.dow_wild
    then (if leb d last then some d else none)
    else if c.dom_wild || not c.dow_wild
    then walk
    else walk_doms 32 c y mo d

-- The answer of a search: the next minute, none within the horizon, or the panic of `minutes[0]` for
-- an expression without minutes, which parseFieldSet never returns.
pub data Walk : Type 0 where
  found : WallPoint → Walk
  exhausted panicked : Walk

abbrev pub max_iterations : ℕ
max_iterations = 100000

-- What follows the next day `n`, when its hour is found.
abbrev pub at_minute : Option ℕ → WallPoint → Walk
at_minute none n = panicked
at_minute (some v) n = found (record n { mi = v })

-- The next month, from its first midnight.
unfoldable pub skip_month : WallPoint → WallPoint
unfolding carry_day
skip_month n = carry_day (record n { d = 1; h = 0; mo = n.mo + 1 })

unfoldable pub skip_day : WallPoint → WallPoint
unfolding carry_day
skip_day n = carry_day (record n { d = n.d + 1; h = 0 })

abbrev pub on_day : WallPoint → ℕ → WallPoint
on_day n nd = if nd == n.d then n else record n { d = nd; h = 0 }

-- The hour of a day, `past` is the answer from the next day on.
abbrev pub from_hour : Compiled → WallPoint → Walk → Option ℕ → Walk
from_hour c n past none = past
from_hour c n past (some v) = at_minute (get_elem? c.minutes 0) (record n { h = v })

unfoldable pub on_hour : Compiled → WallPoint → Walk → Walk
unfolding contains_int
on_hour c n past =
    let later = from_hour c n past (get_elem? c.hours (search_ints c.hours n.h)) in
    if contains_int c.hours n.h then at_minute (get_elem? c.minutes 0) n else later

-- The next day of a month, when there is one.
abbrev pub from_day : Compiled → WallPoint → Walk → (WallPoint → Walk) → Option ℕ → Walk
from_day c n past_month past_day none = past_month
from_day c n past_month past_day (some nd) =
    let n' = on_day n nd in on_hour c n' (past_day (skip_day n'))

-- The loop of nextAfter: `year` is the year it started from.
unfoldable pub search_on : ℕ → Compiled → ℕ → WallPoint → Walk
unfolding contains_int next_day_in skip_month skip_day on_hour
search_on zero c year n = exhausted
search_on (suc fuel) c year n =
    let past_month = search_on fuel c year (skip_month n) in
    let this_month =
      from_day c n past_month (λ d. search_on fuel c year d) (next_day_in c n.y n.mo n.d) in
    if ltb (year + 6) n.y || ltb 9999 n.y
    then exhausted
    else if not (contains_int c.months n.mo)
    then past_month
    else this_month

-- The hour that nextAfter goes on from.
unfoldable pub next_hour : WallPoint → WallPoint
unfolding carry_from_hour
next_hour w = carry_from_hour (record w { mi = 0; h = w.h + 1 })

abbrev pub later_minute : Compiled → WallPoint → Option ℕ
later_minute c w =
    if month_has c w.mo && day_matches c w.y w.mo w.d && contains_int c.hours w.h
    then get_elem? c.minutes (search_ints c.minutes (w.mi + 1))
    else none

unfoldable pub next_after : Compiled → WallPoint → Walk
unfolding search_on next_hour day_matches search_ints
next_after c w =
    let further = search_on max_iterations c w.y (next_hour w) in
    elim (later_minute c w) [ none ↦ further | some v ↦ found (record w { mi = v }) ]

-- firstAtOrAfter.
unfoldable pub first_at_or_after : Compiled → WallPoint → Walk
unfolding next_after matches
first_at_or_after c w = let next = next_after c w in if matches c w then found w else next

-- "0 0 29 2 *" from March 2023, and "30 9 * * 1" from Friday, 1 March 2024.
leap_day :
    next_after
      (record {
        minutes = 0 ∷ [];
        hours = 0 ∷ [];
        doms = 29 ∷ [];
        months = 2 ∷ [];
        dows = 0 ∷ 1 ∷ 2 ∷ 3 ∷ 4 ∷ 5 ∷ 6 ∷ [];
        dom_wild = false;
        dow_wild = true;
      })
      (record { y = 2023; mo = 3; d = 1; h = 0; mi = 0 })
    ≡ found (record { y = 2024; mo = 2; d = 29; h = 0; mi = 0 })
unfolding next_after
leap_day = refl

monday :
    next_after
      (record {
        minutes = 30 ∷ [];
        hours = 9 ∷ [];
        doms = [];
        months = 1 ∷ 2 ∷ 3 ∷ [];
        dows = 1 ∷ [];
        dom_wild = true;
        dow_wild = false;
      })
      (record { y = 2024; mo = 3; d = 1; h = 9; mi = 30 })
    ≡ found (record { y = 2024; mo = 3; d = 4; h = 9; mi = 30 })
unfolding next_after
monday = refl
