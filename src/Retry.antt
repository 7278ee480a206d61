-- ===== src/Retry.antt =====
-- internal/retry/backoff.go: how long to wait before the next attempt of a step. A Duration is an
-- int64 of nanoseconds. The draw of the injected `math/rand/v2` source is an argument: `draw n` is
-- what `Int64N(n)` answers, and the source panics, here `none`, where `n` is not positive.
pub mod Backoff
mod Examples
use paceq.Base.{ℕ, zero, suc, Bool, true, false, not, ◌&&◌, ◌||◌, Option, none, some}
use paceq.Base.Tests.{if◌then◌else◌}
use paceq.Base.Int.{ℤ, pos, negsuc, ◌+ℤ◌, ◌*ℤ◌, ltb_ℤ, leb_ℤ, wrap64}

-- Kind: any text but "fixed" grows the delay.
pub data Kind : Type 0 where
  exponential fixed : Kind

-- The jitter vocabulary: any text but "none" is full jitter.
pub data Jitter : Type 0 where
  jitter_full jitter_none : Jitter

pub record Policy : Type 0 where
  pub backoff : Kind
  pub initial : ℤ
  pub max_delay : ℤ
  pub jitter : Jitter

-- The rounds of `for i := 1; i < attempt; i++`, where an attempt below one counts as the first.
unfoldable pub rounds : ℤ → ℕ
rounds (pos zero) = zero
rounds (pos (suc n)) = n
rounds (negsuc n) = zero

-- The loop: a round that overflows or meets the cap ends it at the cap.
unfoldable pub grow_delay : ℕ → ℤ → ℤ → ℤ
unfolding wrap64 ◌*ℤ◌
grow_delay zero max_delay base = base
grow_delay (suc n) max_delay base =
    let next = wrap64 (base *ℤ pos 2) in
    let rest = grow_delay n max_delay next in
    if ltb_ℤ next base || leb_ℤ max_delay next then max_delay else rest

unfoldable pub base_delay : Policy → ℤ → ℤ
unfolding grow_delay rounds
base_delay p attempt = elim p.backoff [
  | fixed ↦ p.initial
  | exponential ↦ grow_delay (rounds attempt) p.max_delay p.initial
]

-- The cap, and then the floor at zero.
unfoldable pub capped : ℤ → ℤ → ℤ
capped max_delay base =
    let low = if ltb_ℤ (pos 0) max_delay && ltb_ℤ max_delay base then max_delay else base in
    if ltb_ℤ low (pos 0) then pos 0 else low

-- `rnd.Int64N(int64(base) + 1)`.
unfoldable pub jittered : (ℤ → ℤ) → ℤ → Option ℤ
unfolding wrap64 ◌+ℤ◌
jittered draw base =
    let n = wrap64 (base +ℤ pos 1) in if leb_ℤ n (pos 0) then none else some (draw n)

-- Delay.
unfoldable pub delay : Policy → ℤ → (ℤ → ℤ) → Option ℤ
unfolding base_delay capped jittered
delay p attempt draw =
    let base = capped p.max_delay (base_delay p attempt) in
    elim p.jitter [ jitter_none ↦ some base | jitter_full ↦ jittered draw base ]
