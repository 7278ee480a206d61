-- ===== src/Retry/Examples.antt =====
-- The delays of the default policy: thirty seconds, doubled up to ten minutes.
use paceq.Base.{some, ◌≡◌, arith}
use paceq.Base.Int.{ℤ, pos, ◌-ℤ◌, ◌≤ℤ◌}
use paceq.Retry.{Policy, exponential, jitter_full, jitter_none, delay}
use paceq.Retry.Backoff.{Draws, delay_within}

abbrev steady : Policy
steady = record {
  backoff = exponential;
  initial = pos 30000000000;
  max_delay = pos 600000000000;
  jitter = jitter_none;
}

abbrev spread : Policy
spread = record steady { jitter = jitter_full }

-- A source that always draws the largest number.
abbrev largest : ℤ → ℤ
largest n = n -ℤ pos 1

largest-Draws : Draws largest
unfolding ◌-ℤ◌
largest-Draws n h = ground arith

delay_within_example :
    (d : ℤ) × (delay spread (pos 9) largest ≡ some d) × (pos 0 ≤ℤ d) × (d ≤ℤ pos 600000000000)
delay_within_example = delay_within spread (pos 9) largest (omega arith) (omega arith) largest-Draws
