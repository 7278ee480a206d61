-- ===== src/Cronx/Zone/First.antt =====
-- cronNext returns the first occurrence behind the cursor.
use mathlib.Core.List.{Memᴰ}
use paceq.Base.{
  ℕ, suc, ◌+◌, ◌*◌, ◌^◌, ◌≤◌, ◌<◌, ◌≡◌, refl, sym, Bool, true, false, not, ◌||◌, ◌⊎◌, inl, inr,
  List, [], ◌∷◌, ◌++◌, ◌&&◌, none, some, arith, ap, ◌∙◌,
}
use paceq.Base.Tests.{if◌then◌else◌, ltb, ◌==◌, Bool-cases, Option-cases}
use paceq.Base.Lists.{get_elem?, all}
use paceq.Base.Int.{ℤ, pos, ltb_ℤ, ◌+ℤ◌, ◌-ℤ◌}
use paceq.Cronx.Wall.{
  WallPoint, Compiled, Walk, found, exhausted, panicked, wall_ordinal, matches, next_after,
}
use paceq.Cronx.Wall.Ordinal.{wall_ordinal_injective}
use paceq.Cronx.Wall.Carry.{IsWall}
use paceq.Cronx.Wall.Ahead.{InRange, IsNext}
use paceq.Cronx.Wall.Search.{Answers, year_le}
use paceq.Cronx.Wall.Next.{next_after-Answers}
use paceq.Cronx.Zone.{
  Zone, reads, Policy, Emission, OccKey, Answer, occurs, no_occurrence, panics, less, key_of,
  first_behind, classify_emissions, gap_emissions, twin_emissions, fall_back_emissions, skip, shift,
  first, both, build_occurrence, by_deadline, answer_at, go_on, cron_search, cron_next, max_horizon,
}

some_if :
    (b : Bool) {x y : List Emission}
    → ((e : Emission) × (es : List Emission) × (x ≡ e ∷ es))
    → ((e : Emission) × (es : List Emission) × (y ≡ e ∷ es))
    → (e : Emission) × (es : List Emission) × ((if b then x else y) ≡ e ∷ es)
some_if true h h' = h
some_if false h h' = h'

module _ (tz : Zone) (c : Compiled) (p : Policy) where
  -- The emission `e` of the minute `v` is the first behind the cursor's key `k`, of those of the minutes
  -- that the expression admits from `start` on.
  pub record IsFirst (k : OccKey) (start v : WallPoint) (e : Emission) : Type 0 where
    pub hit : matches c v ≡ true
    pub behind : first_behind k v (classify_emissions tz v p) ≡ some e
    pub from_start : wall_ordinal start ≤ wall_ordinal v
    pub least :
        (u : WallPoint) (e' : Emission)
        → IsWall u
        → matches c u ≡ true
        → wall_ordinal start ≤ wall_ordinal u
        → first_behind k u (classify_emissions tz u p) ≡ some e'
        → wall_ordinal v ≤ wall_ordinal u

  abbrev Inhabited : List Emission → Type 0
  Inhabited l = (e : Emission) × (es : List Emission) × (l ≡ e ∷ es)

  emissions_of_fall_back : (t t' : ℤ) → Inhabited (fall_back_emissions t t' p)
  unfolding fall_back_emissions
  emissions_of_fall_back t t' =
      elim p.fall_back as (λ f. Inhabited (fall_back_emissions t t' (record p { fall_back = f }))) [
        | first ↦ (_, _, refl)
        | both ↦ (_, _, refl)
      ]

  emissions_of_gap : (w : WallPoint) (t : ℤ) → Inhabited (gap_emissions tz w t p)
  unfolding gap_emissions
  emissions_of_gap w t =
      elim p.spring_forward
        as (λ f. Inhabited (gap_emissions tz w t (record p { spring_forward = f }))) [
          | skip ↦ (_, _, refl)
          | shift ↦ (_, _, refl)
        ]

  emissions_of_twin : (w : WallPoint) (t : ℤ) (ds : List ℤ) → Inhabited (twin_emissions tz w t p ds)
  unfolding twin_emissions
  emissions_of_twin w t [] = (_, _, refl)
  emissions_of_twin w t (d ∷ ds) =
      some_if (reads tz (t -ℤ d) w) (emissions_of_fall_back (t -ℤ d) t) (
        some_if (reads tz (t +ℤ d) w) (emissions_of_fall_back t (t +ℤ d))
          (emissions_of_twin w t ds))

  -- Every minute has an occurrence, be it a skipped one.
  emissions_of_minute : (w : WallPoint) → Inhabited (classify_emissions tz w p)
  unfolding classify_emissions
  emissions_of_minute w =
      let t = tz.date w in
      some_if (not (reads tz t w)) (emissions_of_gap w t)
        (emissions_of_twin w t (pos (3600 * 10 ^ 9) ∷ pos (1800 * 10 ^ 9) ∷ []))

  -- A minute that comes after the cursor's has one behind the cursor.
  some_behind :
      (k : OccKey) (w : WallPoint)
      → k.place < wall_ordinal w
      → (e : Emission) × (first_behind k w (classify_emissions tz w p) ≡ some e)
  unfolding first_behind less key_of
  some_behind k w lt = let (e, es, h) = emissions_of_minute w in (e, rw h (ground arith))

  -- What an answer says: the first occurrence behind the cursor; or that the expression admits no
  -- minute after the cursor's within five years and up to the year 9999, or none before the deadline.
  abbrev pub FirstAnswered : OccKey → WallPoint → ℤ → Answer → Type 0
  FirstAnswered k start deadline (occurs o) =
      (v : WallPoint) × (e : Emission) × IsFirst k start v e
      × (o ≡ build_occurrence tz e v)
      × (ltb_ℤ deadline o.at ≡ false)
  FirstAnswered k start deadline no_occurrence =
      ((u : WallPoint)
        → IsWall u
        → matches c u ≡ true
        → wall_ordinal start < wall_ordinal u
        → (start.y + 5 < u.y) ⊎ (9999 < u.y))
      ⊎ ((v : WallPoint) × (e : Emission) × IsFirst k start v e
          × (ltb_ℤ deadline (build_occurrence tz e v).at ≡ true))
  FirstAnswered k start deadline panics = get_elem? c.minutes 0 ≡ none

  by_deadline-FirstAnswered :
      (k : OccKey) (start v : WallPoint) (deadline : ℤ) (e : Emission)
      → IsFirst k start v e
      → FirstAnswered k start deadline (by_deadline tz deadline (build_occurrence tz e v))
  by_deadline-FirstAnswered k start v deadline e h =
      go (ltb_ℤ deadline (build_occurrence tz e v).at) refl
    where
      go :
          (b : Bool)
          → ltb_ℤ deadline (build_occurrence tz e v).at ≡ b
          → FirstAnswered k start deadline
              (if b then no_occurrence else occurs (build_occurrence tz e v))
      go true late = inr (v, e, h, late)
      go false early = (v, e, h, refl, early)

  module _ (k : OccKey) (start : WallPoint) (deadline : ℤ) (range : InRange c) (here : IsWall start)
      (cursor : k.place ≡ wall_ordinal start) where
    -- The cursor's own minute has nothing behind the cursor.
    abbrev Nothing : Type 0
    Nothing =
        (e : Emission)
        → matches c start ≡ true
        → first_behind k start (classify_emissions tz start p) ≡ some e
        → ⊥

    next_IsFirst :
        (r : WallPoint) (e : Emission)
        → IsNext c start r
        → Nothing
        → first_behind k r (classify_emissions tz r p) ≡ some e
        → IsFirst k start r e
    next_IsFirst r e n free behind = record {
      hit = n.hit;
      behind = behind;
      from_start = omega (arith, n.after);
      least = λ u e' wall m le b. elim (Bool-cases (ltb (wall_ordinal start) (wall_ordinal u))) [
        | inl after ↦ n.least u wall m (ground arith)
        | inr same ↦
            let equal : u ≡ start = wall_ordinal_injective u start wall here (ground arith) in
            absurd (free e' (rw (sym equal) m) (rw equal at b))
      ];
    }

    abbrev further : ℕ → WallPoint → Answer
    further fuel w = go_on tz (λ n. cron_search tz fuel c p k start.y deadline n) (next_after c w)

    cron_step :
        (fuel : ℕ) (w : WallPoint)
        → cron_search tz (suc fuel) c p k start.y deadline w ≡ (
            if ltb (start.y + 5) w.y || ltb 9999 w.y
            then no_occurrence
            else if matches c w
            then answer_at tz deadline w
                (further fuel w)
                (first_behind k w (classify_emissions tz w p))
            else further fuel w)
    unfolding cron_search
    cron_step fuel w = refl

    far_away :
        (r u : WallPoint)
        → (ltb (start.y + 5) r.y || ltb 9999 r.y) ≡ true
        → IsWall r
        → IsWall u
        → wall_ordinal r ≤ wall_ordinal u
        → (start.y + 5 < u.y) ⊎ (9999 < u.y)
    far_away r u over hr hu le = let year = year_le r u hu le in ground arith

    search_from_next :
        (fuel : ℕ) (r : WallPoint)
        → IsNext c start r
        → Nothing
        → FirstAnswered k start deadline (cron_search tz (suc fuel) c p k start.y deadline r)
    search_from_next fuel r n free = elim (Bool-cases (ltb (start.y + 5) r.y || ltb 9999 r.y)) [
      | inl over ↦
          rw (cron_step fuel r)
            (rw over (inl λ u wall m after. far_away r u over n.wall wall (n.least u wall m after)))
      | inr within ↦
          let (e, behind) = some_behind k r (omega (arith, cursor, n.after)) in
          rw (cron_step fuel r) (
            rw (within, n.hit, behind)
              (by_deadline-FirstAnswered k start r deadline e (next_IsFirst r e n free behind)))
    ]

    further-FirstAnswered :
        (fuel : ℕ) (o : Walk)
        → Answers c start o
        → Nothing
        → FirstAnswered k start deadline
            (go_on tz (λ n. cron_search tz (suc fuel) c p k start.y deadline n) o)
    further-FirstAnswered fuel (found r) n free = search_from_next fuel r n free
    further-FirstAnswered fuel exhausted far free =
        inl λ u wall m after. ground (arith, far u wall m after)
    further-FirstAnswered fuel panicked missing free = missing

    search-FirstAnswered :
        (fuel : ℕ)
        → FirstAnswered k start deadline
            (cron_search tz (suc (suc fuel)) c p k start.y deadline start)
    search-FirstAnswered fuel =
        let answers = next_after-Answers c start range here in
        let on = further-FirstAnswered fuel (next_after c start) answers in
        elim (Bool-cases (ltb (start.y + 5) start.y || ltb 9999 start.y)) [
          | inl over ↦
              rw (cron_step (suc fuel) start)
                (rw over (inl λ u wall m after. far_away start u over here wall (omega arith)))
          | inr within ↦ elim (Bool-cases (matches c start)) [
            | inr missing ↦
                rw (cron_step (suc fuel) start) (rw (within, missing) (on λ e m b. absurd (cc)))
            | inl hit ↦ elim (Option-cases (first_behind k start (classify_emissions tz start p))) [
              | inl empty ↦
                  rw (cron_step (suc fuel) start)
                    (rw (within, hit, empty) (on λ e m b. absurd (cc)))
              | inr (e, behind) ↦ rw (cron_step (suc fuel) start) (
                  rw (within, hit, behind)
                    (by_deadline-FirstAnswered k start start deadline e (record {
                      hit = hit;
                      behind = behind;
                      from_start = omega arith;
                      least = λ u e' wall m le b. le;
                    })))
            ]
          ]
        ]

-- Behind the cursor: at a later place in the timetable, or at its place and at a later instant.
abbrev pub is_behind : OccKey → WallPoint → Emission → Bool
is_behind k w e = ltb k.place (wall_ordinal w) || ((k.place == wall_ordinal w) && ltb_ℤ k.at e.at)

less-is_behind :
    (k : OccKey) (w : WallPoint) (e : Emission) → less k (key_of w e.at) ≡ is_behind k w e
unfolding less key_of
less-is_behind k w e = ground arith

-- What is first behind the cursor stands after emissions that are not.
first_behind-split :
    (k : OccKey) (w : WallPoint) (l : List Emission) (e : Emission)
    → first_behind k w l ≡ some e
    → (before after : List Emission) × (l ≡ before ++ e ∷ after)
      × (all (λ x. not (is_behind k w x)) before ≡ true)
      × (is_behind k w e ≡ true)
unfolding first_behind
first_behind-split k w [] e h = absurd (cc)
first_behind-split k w (x ∷ rest) e h = elim (Bool-cases (less k (key_of w x.at))) [
  | inl y ↦
      let same : some x ≡ some e = rw (y, first_behind) at h in
      (
        [],
        rest,
        ap (λ o. elim o as (λ z. List Emission) [ none ↦ [] | some z ↦ z ∷ rest ]) same,
        refl,
        ap (λ o. elim o as (λ z. Bool) [ none ↦ true | some z ↦ is_behind k w z ]) (sym same)
            ∙ (sym (less-is_behind k w x) ∙ y),
      )
  | inr n ↦
      let (before, after, split, none_of, at) =
        first_behind-split k w rest e (rw (n, first_behind) at h) in
      (x ∷ before, after, ap (λ t. x ∷ t) split, rw (sym (less-is_behind k w x) ∙ n) none_of, at)
]

first_behind-Memᴰ :
    (k : OccKey) (w : WallPoint) (l : List Emission) (e : Emission)
    → Memᴰ e l
    → is_behind k w e ≡ true
    → (x : Emission) × (first_behind k w l ≡ some x)
unfolding first_behind
first_behind-Memᴰ k w [] e m h = elim m [ ]
first_behind-Memᴰ k w (x ∷ rest) e (Memᴰ.head same) h =
    (x, rw (less-is_behind k w x ∙ (ap (is_behind k w) (sym same) ∙ h)) refl)
first_behind-Memᴰ k w (x ∷ rest) e (Memᴰ.tail m) h = elim (Bool-cases (less k (key_of w x.at))) [
  | inl y ↦ (x, rw y refl)
  | inr n ↦ rw n (first_behind-Memᴰ k w rest e m h)
]

module _ (tz : Zone) (c : Compiled) (p : Policy) where
  -- The emission `e` of the minute `v` is behind the cursor, those of the minute before it are not, and
  -- no minute between `start` and `v` that the expression admits has one that is.
  pub record IsEarliest (k : OccKey) (start v : WallPoint) (e : Emission) : Type 0 where
    pub hit : matches c v ≡ true
    pub emitted :
        (before after : List Emission) × (classify_emissions tz v p ≡ before ++ e ∷ after)
        × (all (λ x. not (is_behind k v x)) before ≡ true)
        × (is_behind k v e ≡ true)
    pub from_start : wall_ordinal start ≤ wall_ordinal v
    pub least :
        (u : WallPoint) (x : Emission)
        → IsWall u
        → matches c u ≡ true
        → wall_ordinal start ≤ wall_ordinal u
        → Memᴰ x (classify_emissions tz u p)
        → is_behind k u x ≡ true
        → wall_ordinal v ≤ wall_ordinal u

  IsFirst-IsEarliest :
      (k : OccKey) (start v : WallPoint) (e : Emission)
      → IsFirst tz c p k start v e
      → IsEarliest k start v e
  IsFirst-IsEarliest k start v e h = record {
    hit = h.hit;
    emitted = first_behind-split k v (classify_emissions tz v p) e h.behind;
    from_start = h.from_start;
    least = λ u x wall m le at b.
        let (y, found_y) = first_behind-Memᴰ k u (classify_emissions tz u p) x at b in
        h.least u y wall m le found_y;
  }

  -- What an answer says: the first occurrence behind the cursor; or that the expression admits no
  -- minute after the cursor's within five years and up to the year 9999, or none before the deadline.
  abbrev pub Answered : OccKey → WallPoint → ℤ → Answer → Type 0
  Answered k start deadline (occurs o) =
      (v : WallPoint) × (e : Emission) × IsEarliest k start v e
      × (o ≡ build_occurrence tz e v)
      × (ltb_ℤ deadline o.at ≡ false)
  Answered k start deadline no_occurrence =
      ((u : WallPoint)
        → IsWall u
        → matches c u ≡ true
        → wall_ordinal start < wall_ordinal u
        → (start.y + 5 < u.y) ⊎ (9999 < u.y))
      ⊎ ((v : WallPoint) × (e : Emission) × IsEarliest k start v e
          × (ltb_ℤ deadline (build_occurrence tz e v).at ≡ true))
  Answered k start deadline panics = get_elem? c.minutes 0 ≡ none

  FirstAnswered-Answered :
      (k : OccKey) (start : WallPoint) (deadline : ℤ) (o : Answer)
      → FirstAnswered tz c p k start deadline o
      → Answered k start deadline o
  FirstAnswered-Answered k start deadline (occurs o) (v, e, h, same, early) =
      (v, e, IsFirst-IsEarliest k start v e h, same, early)
  FirstAnswered-Answered k start deadline no_occurrence (inl far) = inl far
  FirstAnswered-Answered k start deadline no_occurrence (inr (v, e, h, late)) =
      inr (v, e, IsFirst-IsEarliest k start v e h, late)
  FirstAnswered-Answered k start deadline panics missing = missing

-- cronNext returns the first occurrence behind the cursor: of the first minute of the timetable, from
-- the minute of the cursor's instant on, that the expression admits and that has an emission behind the
-- cursor, the first such. An emission is behind the cursor when its minute is later in the timetable, or
-- is the cursor's and the emission's instant is later. Without one, no minute after the cursor's is
-- admitted within five years and up to the year 9999, or the first occurrence is past the deadline of
-- four long years. The time zone tells a date of the calendar for the cursor's instant; nothing else is
-- asked of it.
pub cron_next-Answered :
    (tz : Zone) (c : Compiled) (p : Policy) (from : ℤ)
    → InRange c
    → IsWall (tz.wall_of from)
    → Answered tz c p
        (record { place = wall_ordinal (tz.wall_of from); at = from })
        (tz.wall_of from)
        (from +ℤ pos (4 * 366 * 24 * 3600 * 10 ^ 9))
        (cron_next tz c p from)
unfolding cron_next key_of
cron_next-Answered tz c p from range here =
    let start = tz.wall_of from in
    FirstAnswered-Answered tz c p (key_of start from) start (from +ℤ max_horizon)
      (cron_next tz c p from)
      (search-FirstAnswered tz c p (key_of start from) start (from +ℤ max_horizon) range here refl
        99998)
