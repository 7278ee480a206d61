-- ===== src/Cronx/Wall/Days.antt =====
-- nextDayIn finds the least day of the month, from a day on, that the expression admits.
use paceq.Base.{
  ℕ, zero, suc, ◌+◌, ◌-◌, ◌≤◌, ◌<◌, ◌≡◌, refl, sym, ◌∙◌, Bool, true, false, not, ◌&&◌, ◌||◌, Option,
  none, some, inl, inr, arith,
}
use paceq.Base.Tests.{if◌then◌else◌, ltb, leb, ◌==◌, Bool-cases, Option-cases}
use paceq.Base.Lists.{get_elem?}
use paceq.Cronx.Wall.{
  Compiled, last_day, search_ints, contains_int, day_matches, walk_days, walk_doms, next_day_in,
}
use paceq.Cronx.Wall.Sets.{In, search_least, search_none}

pub last_day_bounds : (y mo : ℕ) → (28 ≤ last_day y mo) × (last_day y mo ≤ 31)
unfolding last_day
last_day_bounds y mo = ground arith

pub day_matches_bounds :
    (c : Compiled) (y mo u : ℕ) → day_matches c y mo u ≡ true → (1 ≤ u) × (u ≤ last_day y mo)
unfolding day_matches
day_matches_bounds c y mo u h = ground arith

-- The answer `o` is the least day from `d` on that the expression admits, if there is one.
abbrev pub NextDay : Compiled → ℕ → ℕ → ℕ → Option ℕ → Type 0
NextDay c y mo d none = (u : ℕ) → d ≤ u → day_matches c y mo u ≡ false
NextDay c y mo d (some nd) =
    (d ≤ nd)
    × (day_matches c y mo nd ≡ true)
    × ((u : ℕ) → d ≤ u → day_matches c y mo u ≡ true → nd ≤ u)

-- A walk that has passed the last day has passed them all.
past_last : (c : Compiled) (y mo u : ℕ) → last_day y mo < u → day_matches c y mo u ≡ false
unfolding day_matches
past_last c y mo u h = ground arith

walk_days-NextDay :
    (c : Compiled) (y mo left dd : ℕ)
    → last_day y mo < dd + left
    → NextDay c y mo dd (walk_days c y mo left dd)
unfolding walk_days
walk_days-NextDay c y mo zero dd h = λ u le. past_last c y mo u (omega arith)
walk_days-NextDay c y mo (suc left) dd h =
    go (day_matches c y mo dd) refl (walk_days-NextDay c y mo left (dd + 1) (omega arith))
  where
    widen :
        (o : Option ℕ)
        → day_matches c y mo dd ≡ false
        → NextDay c y mo (dd + 1) o
        → NextDay c y mo dd o
    widen none e next = λ u le. elim (Bool-cases (dd == u)) [
      | inl same ↦ let s : dd ≡ u = ground arith in rw (sym s) e
      | inr other ↦ next u (ground arith)
    ]
    widen (some nd) e (le, m, least) = (
      omega arith,
      m,
      λ u le' m'. elim (Bool-cases (dd == u)) [
        | inl same ↦ let s : dd ≡ u = ground arith in absurd (cc)
        | inr other ↦ least u (ground arith) m'
      ],
    )

    go :
        (b : Bool)
        → day_matches c y mo dd ≡ b
        → NextDay c y mo (dd + 1) (walk_days c y mo left (dd + 1))
        → NextDay c y mo dd (if b then some dd else walk_days c y mo left (dd + 1))
    go true e next = (omega arith, e, λ u le m. le)
    go false e next = widen (walk_days c y mo left (dd + 1)) e next

-- Where the day of the week is free, the days of the month decide.
by_dom :
    (c : Compiled) (y mo u : ℕ)
    → c.dom_wild ≡ false
    → c.dow_wild ≡ true
    → 1 ≤ u
    → u ≤ last_day y mo
    → day_matches c y mo u ≡ contains_int c.doms u
unfolding day_matches
by_dom c y mo u e f h h' = ground arith

not_named :
    (c : Compiled) (y mo u : ℕ)
    → c.dom_wild ≡ false
    → c.dow_wild ≡ true
    → contains_int c.doms u ≡ false
    → day_matches c y mo u ≡ false
unfolding day_matches
not_named c y mo u e f h = ground arith

not_named_below :
    (c : Compiled) (y mo cand u : ℕ)
    → c.dom_wild ≡ false
    → c.dow_wild ≡ true
    → ltb (last_day y mo) cand ≡ true
    → (In c.doms u → cand ≤ u)
    → day_matches c y mo u ≡ false
not_named_below c y mo cand u e f far least = elim (Bool-cases (contains_int c.doms u)) [
  | inl m ↦ past_last c y mo u (ground (arith, least m))
  | inr m ↦ not_named c y mo u e f m
]

module _ (fuel : ℕ) (c : Compiled) (y mo dd : ℕ) where
  walk_missing :
      get_elem? c.doms (search_ints c.doms dd) ≡ none → walk_doms (suc fuel) c y mo dd ≡ none
  unfolding walk_doms
  walk_missing h = rw (walk_doms, h) refl

  walk_far :
      (cand : ℕ)
      → get_elem? c.doms (search_ints c.doms dd) ≡ some cand
      → ltb (last_day y mo) cand ≡ true
      → walk_doms (suc fuel) c y mo dd ≡ none
  unfolding walk_doms
  walk_far cand h far = rw (walk_doms, h, far) refl

  walk_near :
      (cand : ℕ)
      → get_elem? c.doms (search_ints c.doms dd) ≡ some cand
      → ltb (last_day y mo) cand ≡ false
      → day_matches c y mo cand ≡ true
      → walk_doms (suc fuel) c y mo dd ≡ some cand
  unfolding walk_doms
  walk_near cand h near m = rw (walk_doms, h, m, near) refl

  walk_doms-NextDay :
      c.dom_wild ≡ false
      → c.dow_wild ≡ true
      → 1 ≤ dd
      → NextDay c y mo dd (walk_doms (suc fuel) c y mo dd)
  walk_doms-NextDay e f h = elim (Option-cases (get_elem? c.doms (search_ints c.doms dd))) [
    | inl missing ↦
        rw (walk_missing missing)
          λ u le. not_named c y mo u e f (search_none c.doms dd u missing le)
    | inr (cand, at) ↦
        let least = search_least c.doms dd cand at in
        let bound = least.bound in
        elim (Bool-cases (ltb (last_day y mo) cand)) [
          | inl far ↦
              rw (walk_far cand at far)
                λ u le. not_named_below c y mo cand u e f far (least.least u le)
          | inr near ↦
              let here = by_dom c y mo cand e f (omega arith) (ground arith) ∙ least.member in
              rw (walk_near cand at near here) (
                bound,
                here,
                λ u le m.
                    let (low, high) = day_matches_bounds c y mo u m in
                    least.least u le (sym (by_dom c y mo u e f low high) ∙ m),
              )
        ]
  ]

every_day :
    (c : Compiled) (y mo u : ℕ)
    → (c.dom_wild && c.dow_wild) ≡ true
    → 1 ≤ u
    → u ≤ last_day y mo
    → day_matches c y mo u ≡ true
unfolding day_matches
every_day c y mo u e h h' = ground arith

pub next_day_in-NextDay :
    (c : Compiled) (y mo d : ℕ) → 1 ≤ d → NextDay c y mo d (next_day_in c y mo d)
unfolding next_day_in
next_day_in-NextDay c y mo d h =
    let last = last_day y mo in
    let walk = walk_days-NextDay c y mo (last + 1 - d) d (omega arith) in
    elim (Bool-cases (c.dom_wild && c.dow_wild)) [
      | inl both ↦ elim (Bool-cases (leb d last)) [
        | inl within ↦
            rw both
              (rw within (omega arith, every_day c y mo d both h (ground arith), λ u le m. le))
        | inr beyond ↦ rw both (rw beyond λ u le. past_last c y mo u (ground arith))
      ]
      | inr one ↦ elim (Bool-cases (c.dom_wild || not c.dow_wild)) [
        | inl by_day ↦ rw one (rw by_day walk)
        | inr by_name ↦
            rw one (rw by_name (walk_doms-NextDay 31 c y mo d (ground arith) (ground arith) h))
      ]
    ]
