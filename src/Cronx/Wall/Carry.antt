-- ===== src/Cronx/Wall/Carry.antt =====
-- carryDay and what skips a day or a month land on the next date of the calendar.
use paceq.Base.{ℕ, ◌+◌, ◌*◌, ◌≤◌, ◌<◌, ◌≡◌, refl, ap, true, ◌&&◌, inl, inr, arith}
use paceq.Base.Tests.{ltb, leb, ◌==◌, Bool-cases}
use paceq.Cronx.Wall.{WallPoint, last_day, next_year, carry_day, skip_month, skip_day}
use paceq.Cronx.Wall.Days.{last_day_bounds}

-- A date of the calendar.
pub record IsDate (y mo d : ℕ) : Type 0 where
  pub from_january : 1 ≤ mo
  pub to_december : mo ≤ 12
  pub from_first : 1 ≤ d
  pub to_last : d ≤ last_day y mo

-- A minute of a wall clock.
pub record IsWall (w : WallPoint) : Type 0 where
  pub date : IsDate w.y w.mo w.d
  pub hour : w.h < 24
  pub minute : w.mi < 60

abbrev pub day_key : WallPoint → ℕ
day_key w = (w.y * 16 + w.mo) * 32 + w.d

-- Where carrying goes: nowhere, into a new year, or into the next month.
data Carried (w r : WallPoint) : Type 0 where
  stays : w.mo ≤ 12 → w.d ≤ last_day w.y w.mo → r ≡ w → Carried w r
  new_year :
      12 ≤ w.mo
      → (w.mo ≡ 12 → last_day w.y w.mo < w.d)
      → r ≡ record w { y = w.y + 1; mo = 1; d = 1 }
      → Carried w r
  new_month :
      w.mo < 12 → last_day w.y w.mo < w.d → r ≡ record w { mo = w.mo + 1; d = 1 } → Carried w r

first_day : (y mo : ℕ) → leb 1 (last_day y mo) ≡ true
first_day y mo = ground (arith, last_day_bounds y mo)

carry_day-Carried : (w : WallPoint) → w.mo ≤ 13 → (w.mo ≡ 13 → w.d ≡ 1) → Carried w (carry_day w)
unfolding carry_day next_year
carry_day-Carried w h first = elim (Bool-cases (ltb 12 w.mo)) [
  | inl past ↦
      let d : w.d ≡ 1 = first (ground arith) in
      let fits : leb w.d (last_day (w.y + 1) 1) ≡ true = rw d (first_day (w.y + 1) 1) in
      new_year (ground arith) (λ e. ground arith)
        (rw (past, fits) (ap (λ e. record w { y = w.y + 1; mo = 1; d = e }) d))
  | inr within ↦ elim (Bool-cases (leb w.d (last_day w.y w.mo))) [
    | inl fits ↦ stays (ground arith) (ground arith) (rw (within, fits) refl)
    | inr over ↦ elim (Bool-cases (ltb 12 (w.mo + 1))) [
      | inl december ↦
          new_year (ground arith) (λ _. ground arith) (rw (within, over, december) refl)
      | inr other ↦
          new_month (ground arith) (ground arith)
            (rw (within, over, other, first_day w.y (w.mo + 1)) refl)
    ]
  ]
]

-- The date that a date behind the end of a month, or of a year, is carried to; the time of day stays.
pub record IsCarried (w r : WallPoint) : Type 0 where
  pub date : IsDate r.y r.mo r.d
  pub same_hour : r.h ≡ w.h
  pub same_minute : r.mi ≡ w.mi
  pub forward : day_key w ≤ day_key r
  pub next : (v : WallPoint) → IsDate v.y v.mo v.d → day_key w ≤ day_key v → day_key r ≤ day_key v

first_IsDate : (y mo : ℕ) → 1 ≤ mo → mo ≤ 12 → IsDate y mo 1
first_IsDate y mo h h' =
    let (long, _) = last_day_bounds y mo in
    record { from_january = h; to_december = h'; from_first = omega arith; to_last = omega arith }

-- A date in the same month is on one of its days.
beyond_month :
    (w v : WallPoint)
    → IsDate v.y v.mo v.d
    → last_day w.y w.mo < w.d
    → v.y ≡ w.y
    → v.mo ≡ w.mo
    → v.d < w.d
beyond_month w v date over y mo =
    let last : last_day v.y v.mo ≡ last_day w.y w.mo = cc in omega (arith, date.to_last, last)

Carried-IsCarried :
    (w r : WallPoint) → 1 ≤ w.mo → w.mo ≤ 13 → 1 ≤ w.d → w.d ≤ 32 → Carried w r → IsCarried w r
Carried-IsCarried w r h h' low high (stays mo d e) = rw e (record {
  date = record { from_january = h; to_december = mo; from_first = low; to_last = d };
  same_hour = refl;
  same_minute = refl;
  forward = omega arith;
  next = λ v date le. le;
})
Carried-IsCarried w r h h' low high (new_year mo over e) = rw e (record {
  date = first_IsDate (w.y + 1) 1 (omega arith) (omega arith);
  same_hour = refl;
  same_minute = refl;
  forward = omega arith;
  next = λ v date le. elim (Bool-cases ((v.y == w.y) && (v.mo == w.mo))) [
    | inl same ↦
        let below =
          beyond_month w v date (over (ground (arith, date.to_december))) (ground arith)
            (ground arith) in
        absurd (ground arith)
    | inr other ↦ ground (arith, date.to_december, date.to_last, last_day_bounds v.y v.mo)
  ];
})
Carried-IsCarried w r h h' low high (new_month mo over e) = rw e (record {
  date = first_IsDate w.y (w.mo + 1) (omega arith) (omega arith);
  same_hour = refl;
  same_minute = refl;
  forward = omega arith;
  next = λ v date le. elim (Bool-cases ((v.y == w.y) && (v.mo == w.mo))) [
    | inl same ↦
        let below = beyond_month w v date over (ground arith) (ground arith) in
        absurd (ground arith)
    | inr other ↦
        ground (arith, date.to_december, date.from_first, date.to_last, last_day_bounds v.y v.mo)
  ];
})

carry_day-IsCarried :
    (w : WallPoint)
    → 1 ≤ w.mo
    → w.mo ≤ 13
    → 1 ≤ w.d
    → w.d ≤ 32
    → (w.mo ≡ 13 → w.d ≡ 1)
    → IsCarried w (carry_day w)
carry_day-IsCarried w h h' low high first =
    Carried-IsCarried w (carry_day w) h h' low high (carry_day-Carried w h' first)

pub skip_month-IsCarried :
    (n : WallPoint)
    → IsDate n.y n.mo n.d
    → IsCarried (record n { d = 1; h = 0; mo = n.mo + 1 }) (skip_month n)
unfolding skip_month
skip_month-IsCarried n date =
    carry_day-IsCarried (record n { d = 1; h = 0; mo = n.mo + 1 }) (omega arith)
      (omega (arith, date.to_december)) (omega arith) (omega arith) (λ _. refl)

pub skip_day-IsCarried :
    (n : WallPoint) → IsDate n.y n.mo n.d → IsCarried (record n { d = n.d + 1; h = 0 }) (skip_day n)
unfolding skip_day
skip_day-IsCarried n date =
    let (_, short) = last_day_bounds n.y n.mo in
    carry_day-IsCarried (record n { d = n.d + 1; h = 0 }) date.from_january
      (omega (arith, date.to_december)) (omega arith) (omega (arith, date.to_last))
      λ e. absurd (omega (arith, date.to_december))
