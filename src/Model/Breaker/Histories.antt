-- ===== src/Model/Breaker/Histories.antt =====
-- The breaker over a history of evaluations: what its two columns mean.
use paceq.Base.{
  ℕ, suc, ◌+◌, ◌^◌, ◌≤◌, ◌<◌, Bool, true, false, List, [], ◌∷◌, ◌≡◌, refl, ◌≢◌, ◌↔◌, arith,
}
use paceq.Base.Tests.{if◌then◌else◌, leb}
use paceq.Base.Lists.{length}
use paceq.Base.Int.{ℤ, pos, ◌+ℤ◌, ◌<ℤ◌}
use paceq.Model.Breaker.{
  zero_time, sensor_failures_after, sensor_breaker_open, sensor_breaker_opened_at,
  sensor_breaker_admits,
}

-- One finished evaluation of a sensor, and when it was committed.
pub record Evaluation : Type 0 where
  pub errored : Bool
  pub exempt : Bool
  pub at : ℤ

-- The two columns of the sensor's row.
pub record Row : Type 0 where
  pub failures : ℤ
  pub opened_at : ℤ

unfoldable pub commit : Row → Evaluation → Row
commit r e =
    let after = sensor_failures_after r.failures e.errored e.exempt in
    record {
      failures = after;
      opened_at = sensor_breaker_opened_at r.failures after r.opened_at e.at;
    }

-- The row after a history that is written with its newest evaluation first.
unfoldable pub commit_all : List Evaluation → Row
unfolding commit
commit_all [] = record { failures = pos 0; opened_at = zero_time }
commit_all (e ∷ older) = commit (commit_all older) e

-- The errors that count since the sensor last answered.
unfoldable pub burned : List Evaluation → ℕ
burned [] = 0
burned (e ∷ older) =
    let rest = burned older in if e.errored then (if e.exempt then rest else rest + 1) else 0

-- When the open period began: the instant of the newest counting error, with nothing but exempt
-- errors after it, once the threshold is reached.
unfoldable pub last_burn : List Evaluation → ℤ
last_burn [] = zero_time
last_burn (e ∷ older) =
    let rest = last_burn older in if e.errored then (if e.exempt then rest else e.at) else zero_time

burned-le-length : (es : List Evaluation) → burned es ≤ length es
unfolding burned
burned-le-length [] = omega arith
burned-le-length (e ∷ older) = ground (arith, burned-le-length older)

sensor_failures_after-pos :
    (n : ℕ) (errored exempt : Bool)
    → suc n < 2 ^ 63
    → sensor_failures_after (pos n) errored exempt
      ≡ pos (if errored then (if exempt then n else n + 1) else 0)
unfolding sensor_failures_after
sensor_failures_after-pos n errored exempt h = ground arith

pub failures-commit_all :
    (es : List Evaluation) → length es < 2 ^ 63 → (commit_all es).failures ≡ pos (burned es)
unfolding commit_all burned
failures-commit_all [] h = refl
failures-commit_all (e ∷ older) h = ground (
  arith,
  failures-commit_all older,
  burned-le-length older,
  sensor_failures_after-pos (burned older) e.errored e.exempt,
)

opened_at-commit_all :
    (es : List Evaluation)
    → length es < 2 ^ 63
    → (commit_all es).opened_at ≡ (if leb 10 (burned es) then last_burn es else zero_time)
unfolding commit_all burned last_burn sensor_breaker_opened_at
opened_at-commit_all [] h = refl
opened_at-commit_all (e ∷ older) h = ground (
  arith,
  opened_at-commit_all older,
  failures-commit_all older,
  burned-le-length older,
  sensor_failures_after-pos (burned older) e.errored e.exempt,
)

-- After any history the row says what happened: the count is the number of counting errors since
-- the sensor last answered, the breaker is open from the tenth on, and the open period began at the
-- newest counting error.
pub commit_all_row :
    (es : List Evaluation)
    → length es < 2 ^ 63
    → let r = commit_all es in
      (r.failures ≡ pos (burned es))
      × ((sensor_breaker_open r.failures ≡ true) ↔ (10 ≤ burned es))
      × (r.opened_at ≡ (if leb 10 (burned es) then last_burn es else zero_time))
unfolding sensor_breaker_open
commit_all_row es h =
    (failures-commit_all es h, ground (arith, failures-commit_all es h), opened_at-commit_all es h)

-- A sensor is held back exactly while ten counting errors have come in a row and the cooldown since
-- the newest of them, which has a stamp, has not run out.
pub held_back_iff :
    (es : List Evaluation) (now cooldown : ℤ)
    → length es < 2 ^ 63
    → let r = commit_all es in
      (sensor_breaker_admits r.failures r.opened_at now cooldown ≡ false)
      ↔ ((10 ≤ burned es) × (last_burn es ≢ zero_time) × (now <ℤ last_burn es +ℤ cooldown))
unfolding sensor_breaker_admits
held_back_iff es now cooldown h =
    ground (arith, failures-commit_all es h, opened_at-commit_all es h)
