-- ===== src/Spec/Duration/Arithmetic.antt =====
-- The checked int64 arithmetic of a duration agrees with the exact one up to the longest duration.
use native.Mathlib.Nat.{mod-eq_of_lt, mod-le, mul-div_left, div-mul-le_self, mul-zero, zero-mul}
use paceq.Base.{ℕ, zero, ◌%◌, ap, suc, ◌+◌, ◌*◌, ◌/◌, ◌^◌, ◌≤◌, ◌≡◌, arith}
use paceq.Base.Int.{wrap64}
use paceq.Base.Result.{ok}
use paceq.Spec.Duration.{
  max_duration_millis, mul_checked, checked_product, add_checked, checked_sum,
}

pub add_checked_exact : (a b : ℕ) → a + b ≤ max_duration_millis → add_checked a b ≡ ok (a + b)
unfolding add_checked wrap64 checked_sum
add_checked_exact a b h = ground arith

pub add_checked_sound :
    (a b c : ℕ)
    → a ≤ max_duration_millis
    → b ≤ max_duration_millis
    → add_checked a b ≡ ok c
    → (c ≡ a + b) × (c ≤ max_duration_millis)
unfolding add_checked wrap64 checked_sum
add_checked_sound a b c ha hb h = ground arith

pub mul_checked_exact : (a b : ℕ) → a * b ≤ max_duration_millis → mul_checked a b ≡ ok (a * b)
unfolding mul_checked wrap64 checked_product
mul_checked_exact zero b h = ground arith
mul_checked_exact (suc a) zero h = ground (arith, mul-zero (suc a))
mul_checked_exact (suc a) (suc b) h =
    let n = suc a * suc b in
    ground (
      arith,
      mod-eq_of_lt {n = n} {m = 2 ^ 64} (omega arith),
      mul-div_left (suc a) {n = suc b} (omega arith),
    )

-- A quotient by b that is a again leaves no room for a wrap-around.
unwrapped : (a b p : ℕ) → p ≤ a * b → p / b ≡ a → p ≡ a * b
unwrapped a b p h e = omega (arith, div-mul-le_self p b, ap (λ q. q * b) e, h)

pub mul_checked_sound :
    (a b c : ℕ) → mul_checked a b ≡ ok c → (c ≡ a * b) × (c ≤ max_duration_millis)
unfolding mul_checked wrap64 checked_product
mul_checked_sound zero b c h = ground (arith, zero-mul b)
mul_checked_sound (suc a) zero c h = ground (arith, mul-zero (suc a))
mul_checked_sound (suc a) (suc b) c h =
    let n = suc a * suc b in
    ground (arith, unwrapped (suc a) (suc b) (n % 2 ^ 64) (mod-le n (2 ^ 64)))
