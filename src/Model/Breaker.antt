-- ===== src/Model/Breaker.antt =====
-- internal/model/sensorbreaker.go: the circuit breaker of a sensor. A time.Time is its distance in
-- nanoseconds from the zero Time, so `IsZero` is equality with 0; a Go int is an integer with
-- wrap-around written out.
pub mod Histories
use paceq.Base.{Bool, true, not, ◌||◌}
use paceq.Base.Tests.{if◌then◌else◌}
use paceq.Base.Int.{ℤ, pos, ◌+ℤ◌, wrap64, leb_ℤ, ltb_ℤ, eqb_ℤ}

abbrev pub sensor_breaker_threshold : ℤ
sensor_breaker_threshold = pos 10

-- The zero Time.
abbrev pub zero_time : ℤ
zero_time = pos 0

unfoldable pub sensor_failures_after : ℤ → Bool → Bool → ℤ
unfolding ◌+ℤ◌ wrap64
sensor_failures_after before errored exempt =
    if not errored then pos 0 else if exempt then before else wrap64 (before +ℤ pos 1)

unfoldable pub sensor_breaker_open : ℤ → Bool
sensor_breaker_open failures = leb_ℤ sensor_breaker_threshold failures

unfoldable pub sensor_breaker_opened_at : ℤ → ℤ → ℤ → ℤ → ℤ
unfolding sensor_breaker_open
sensor_breaker_opened_at before after opened_at now =
    if not (sensor_breaker_open after)
    then zero_time
    else if ltb_ℤ before after
    then now
    else opened_at

unfoldable pub sensor_breaker_admits : ℤ → ℤ → ℤ → ℤ → Bool
unfolding sensor_breaker_open ◌+ℤ◌
sensor_breaker_admits failures opened_at now cooldown =
    if not (sensor_breaker_open failures)
    then true
    else if eqb_ℤ opened_at zero_time
    then true
    else not (ltb_ℤ now (opened_at +ℤ cooldown))
