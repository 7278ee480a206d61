-- ===== src/Cronx/Zone.antt =====
-- internal/cronx/iter.go: what a matched minute of the wall clock means in a time zone, and the next
-- occurrence of a cron expression. An instant is a number of nanoseconds since the Unix epoch. The
-- time zone is that of the standard library, a parameter.
pub mod First
use paceq.Base.{
  ℕ, zero, suc, ◌+◌, ◌-◌, ◌*◌, ◌/◌, ◌%◌, ◌^◌, String, Bool, true, false, not, ◌&&◌, ◌||◌, List, [],
  ◌∷◌, ◌++◌, Option, none, some, ◌≡◌, refl,
}
use paceq.Base.Tests.{if◌then◌else◌, ltb, leb, ◌==◌}
use paceq.Base.Lists.{length, get_elem?}
use paceq.Base.Int.{ℤ, pos, negsuc, ◌+ℤ◌, ◌-ℤ◌, ◌*ℤ◌, ltb_ℤ, leb_ℤ}
use paceq.Cronx.Wall.{
  WallPoint, Compiled, Walk, found, exhausted, panicked, wall_ordinal, matches, next_after,
  max_iterations,
}
use paceq.Base.Bytes.{Bytes}
use paceq.Cronx.Render.{render_wall}

pub data SpringForward : Type 0 where
  skip shift : SpringForward

pub data FallBack : Type 0 where
  first both : FallBack

pub record Policy : Type 0 where
  pub spring_forward : SpringForward
  pub fall_back : FallBack

-- time.Location: the wall clock, the second and the offset of an instant, the instant of a wall clock
-- there and in UTC, and the text that time.Time.Format writes.
pub record Zone : Type 0 where
  pub wall_of : ℤ → WallPoint
  pub second_of : ℤ → ℕ
  pub offset : ℤ → ℤ
  pub date : WallPoint → ℤ
  pub utc : WallPoint → ℤ
  pub format : ℤ → Bytes

pub record Emission : Type 0 where
  pub at : ℤ
  pub skipped : Bool
  pub reason : String
  pub requested : Bool

abbrev pub second : ℤ
second = pos (10 ^ 9)

-- `int(d / time.Second)`, which truncates towards zero.
abbrev pub in_seconds : ℤ → ℤ
in_seconds (pos n) = pos (n / 10 ^ 9)
in_seconds (negsuc n) = pos 0 -ℤ pos (suc n / 10 ^ 9)

unfoldable pub fall_back_emissions : ℤ → ℤ → Policy → List Emission
fall_back_emissions t t' p =
    let one : Emission = record { at = t; skipped = false; reason = ""; requested = false } in
    elim p.fall_back [
      | both ↦ one ∷ record { at = t'; skipped = false; reason = ""; requested = false } ∷ []
      | first ↦
          one ∷ record { at = t'; skipped = true; reason = "dst_duplicate"; requested = false } ∷ []
    ]

pub record Occurrence : Type 0 where
  pub at : ℤ
  pub local_wall : Bytes
  pub skipped : Bool
  pub skip_reason : String

-- occKey: the place in the timetable, then the instant.
pub record OccKey : Type 0 where
  pub place : ℕ
  pub at : ℤ

unfoldable pub less : OccKey → OccKey → Bool
less k o = if not (k.place == o.place) then ltb k.place o.place else ltb_ℤ k.at o.at

unfoldable pub key_of : WallPoint → ℤ → OccKey
unfolding wall_ordinal
key_of w at = record { place = wall_ordinal w; at = at }

-- The first of the emissions whose key is behind the cursor's.
unfoldable pub first_behind : OccKey → WallPoint → List Emission → Option Emission
unfolding less key_of
first_behind k w [] = none
first_behind k w (e ∷ es) =
    let rest = first_behind k w es in if less k (key_of w e.at) then some e else rest

pub data Answer : Type 0 where
  occurs : Occurrence → Answer
  no_occurrence panics : Answer

abbrev pub max_horizon : ℤ
max_horizon = pos (4 * 366 * 24 * 3600 * 10 ^ 9)

module _ (tz : Zone) where
  -- `t.Hour() == w.h && t.Minute() == w.mi`.
  abbrev pub reads : ℤ → WallPoint → Bool
  reads t w = let l = tz.wall_of t in (l.h == w.h) && (l.mi == w.mi)

  -- The offset that applied before the clocks jumped over a wall clock that does not exist.
  unfoldable pub pre_jump : WallPoint → ℤ → ℤ
  unfolding wall_ordinal ◌-ℤ◌
  pre_jump w t =
      if leb (wall_ordinal w) (wall_ordinal (tz.wall_of t))
      then in_seconds (tz.utc w -ℤ t)
      else tz.offset t

  unfoldable pub gap_emissions : WallPoint → ℤ → Policy → List Emission
  unfolding pre_jump ◌-ℤ◌ ◌*ℤ◌
  gap_emissions w t p =
      let at = tz.utc w -ℤ pre_jump w t *ℤ second in
      elim p.spring_forward [
        | shift ↦ record { at = at; skipped = false; reason = ""; requested = false } ∷ []
        | skip ↦
            record { at = at; skipped = true; reason = "dst_nonexistent"; requested = true } ∷ []
      ]

  -- A second instant of the same wall clock, by an hour or by half an hour.
  unfoldable pub twin_emissions : WallPoint → ℤ → Policy → List ℤ → List Emission
  unfolding ◌+ℤ◌ ◌-ℤ◌ fall_back_emissions
  twin_emissions w t p [] = record { at = t; skipped = false; reason = ""; requested = false } ∷ []
  twin_emissions w t p (delta ∷ deltas) =
      let rest = twin_emissions w t p deltas in
      if reads (t -ℤ delta) w
      then fall_back_emissions (t -ℤ delta) t p
      else if reads (t +ℤ delta) w
      then fall_back_emissions t (t +ℤ delta) p
      else rest

  unfoldable pub classify_emissions : WallPoint → Policy → List Emission
  unfolding gap_emissions twin_emissions
  classify_emissions w p =
      let t = tz.date w in
      if not (reads t w)
      then gap_emissions w t p
      else twin_emissions w t p (pos (3600 * 10 ^ 9) ∷ pos (1800 * 10 ^ 9) ∷ [])

  unfoldable pub format_local_wall : ℤ → Bytes
  unfolding render_wall
  format_local_wall at =
      let l = tz.wall_of at in
      if ltb l.y 1 || ltb 9999 l.y
      then tz.format at
      else render_wall l (tz.second_of at) (tz.offset at)

  unfoldable pub build_occurrence : Emission → WallPoint → Occurrence
  unfolding format_local_wall render_wall ◌-ℤ◌
  build_occurrence e w = record {
    at = e.at;
    local_wall =
        if e.requested
        then render_wall w 0 (in_seconds (tz.utc w -ℤ e.at))
        else format_local_wall e.at;
    skipped = e.skipped;
    skip_reason = e.reason;
  }

  -- An occurrence past the deadline is none.
  abbrev pub by_deadline : ℤ → Occurrence → Answer
  by_deadline deadline o = if ltb_ℤ deadline o.at then no_occurrence else occurs o

  abbrev pub answer_at : ℤ → WallPoint → Answer → Option Emission → Answer
  answer_at deadline w further none = further
  answer_at deadline w further (some e) = by_deadline deadline (build_occurrence e w)

  abbrev pub go_on : (WallPoint → Answer) → Walk → Answer
  go_on next (found w) = next w
  go_on next exhausted = no_occurrence
  go_on next panicked = panics

  -- The loop of cronNext: `k` is the cursor's key, `year` the year it stands in.
  unfoldable pub cron_search : ℕ → Compiled → Policy → OccKey → ℕ → ℤ → WallPoint → Answer
  unfolding matches first_behind classify_emissions build_occurrence next_after
  cron_search zero c p k year deadline w = no_occurrence
  cron_search (suc fuel) c p k year deadline w =
      let further = go_on (λ n. cron_search fuel c p k year deadline n) (next_after c w) in
      let here = answer_at deadline w further (first_behind k w (classify_emissions w p)) in
      if ltb (year + 5) w.y || ltb 9999 w.y
      then no_occurrence
      else if matches c w
      then here
      else further

  -- cronNext, for the compiled expression.
  unfoldable pub cron_next : Compiled → Policy → ℤ → Answer
  unfolding cron_search key_of ◌+ℤ◌
  cron_next c p from =
      let start = tz.wall_of from in
      cron_search max_iterations c p (key_of start from) start.y (from +ℤ max_horizon) start
