-- ===== src/Spec/Duration/Digits.antt =====
-- The digits and the units that FormatDuration writes, as ParseDuration reads them.
use paceq.Base.{
  ℕ, zero, suc, ◌+◌, ◌-◌, ◌*◌, ◌/◌, ◌%◌, ◌≤◌, ◌<◌, ◌≡◌, refl, ap, ◌∙◌, Bool, true, not, [], ◌∷◌,
  ◌++◌, inl, inr, arith,
}
use paceq.Base.Tests.{&&-true, Bool-cases, ltb}
use paceq.Base.Lists.{length, all}
use paceq.Base.Result.{ok}
use paceq.Base.Bytes.{Bytes}
use paceq.Spec.Duration.{
  DurationUnit, hours, minutes, seconds, milliseconds, max_duration_millis, has_prefix, is_digit,
  take_digits, take_fraction, try_units, take_unit, digits_value, write_digits,
}
use paceq.Spec.Duration.Arithmetic.{add_checked_exact, mul_checked_exact}

-- Reading the last digit of a number after the digits before it.
pub last_digit :
    (n : ℕ) (out : Bytes)
    → n ≤ max_duration_millis
    → digits_value ((b'0' + n % 10) ∷ out) (n / 10) ≡ digits_value out n
unfolding digits_value
last_digit n out h = rw (mul_checked_exact (n / 10) 10 (omega arith)) (
    rw (add_checked_exact (n / 10 * 10) (b'0' + n % 10 - b'0') (omega arith))
      (ap (λ v. digits_value out v) (omega arith)))

pub one_digit :
    (n : ℕ) (out : Bytes) → n < 10 → digits_value ((b'0' + n) ∷ out) 0 ≡ digits_value out n
one_digit n out h =
    let p : n % 10 ≡ n = omega arith in
    let q : n / 10 ≡ 0 = omega arith in rw (p, q) at (last_digit n out (omega arith))

pub write_digits_value :
    (fuel n : ℕ) (out : Bytes)
    → n ≤ fuel
    → n ≤ max_duration_millis
    → digits_value (write_digits fuel n out) 0 ≡ digits_value out n
unfolding write_digits
write_digits_value zero n out h fits = one_digit n out (omega arith)
write_digits_value (suc fuel) n out h fits = elim (Bool-cases (ltb n 10)) [
  | inl small ↦ rw small (one_digit n out (ground arith))
  | inr big ↦ rw big (
      write_digits_value fuel (n / 10) ((b'0' + n % 10) ∷ out) (omega arith) (omega arith)
      ∙ last_digit n out fits)
]

pub write_digits_append :
    (fuel n : ℕ) (s t : Bytes) → write_digits fuel n (s ++ t) ≡ write_digits fuel n s ++ t
unfolding write_digits
write_digits_append zero n s t = refl
write_digits_append (suc fuel) n s t =
    ground (arith, write_digits_append fuel (n / 10) ((b'0' + n % 10) ∷ s) t)

pub write_digits-all :
    (p : ℕ → Bool) (fuel n : ℕ) (s : Bytes)
    → n ≤ fuel
    → ((d : ℕ) → d < 10 → p (b'0' + d) ≡ true)
    → all p s ≡ true
    → all p (write_digits fuel n s) ≡ true
unfolding write_digits
write_digits-all p zero n s h digit e = ground (arith, digit n)
write_digits-all p (suc fuel) n s h digit e =
    ground (arith, digit n, digit (n % 10), write_digits-all p fuel (n / 10) ((b'0' + n % 10) ∷ s))

pub write_digits_some : (fuel n : ℕ) (s : Bytes) → 0 < length (write_digits fuel n s)
unfolding write_digits
write_digits_some zero n s = omega arith
write_digits_some (suc fuel) n s =
    ground (arith, write_digits_some fuel (n / 10) ((b'0' + n % 10) ∷ s))

-- Digits end where something else begins.
abbrev pub starts_other : Bytes → Bool
starts_other [] = true
starts_other (c ∷ s) = not (is_digit c)

pub take_digits-append :
    (ds t : Bytes)
    → all is_digit ds ≡ true
    → starts_other t ≡ true
    → take_digits (ds ++ t) ≡ (ds, t)
unfolding take_digits
take_digits-append [] [] h o = refl
take_digits-append [] (c ∷ t) h o = ground arith
take_digits-append (d ∷ ds) t h o =
    let (x, y) = &&-true (is_digit d) (all is_digit ds) h in
    rw (take_digits-append ds t y o) (rw x refl)

-- A unit in front of a digit, or of the end, is read back.
abbrev pub starts_digit : Bytes → Bool
starts_digit [] = true
starts_digit (c ∷ s) = is_digit c

unfoldable pub IsUnit : DurationUnit → Type 0
IsUnit u =
    (rest : Bytes)
    → starts_digit rest ≡ true
    → (take_unit (u.suffix ++ rest) ≡ ok (u, rest))
      × (starts_other (u.suffix ++ rest) ≡ true)
      × (take_fraction (u.suffix ++ rest) ≡ ok ([], u.suffix ++ rest))
      × (0 < u.millis)

pub IsUnit-hours : IsUnit hours
unfolding IsUnit take_unit try_units has_prefix take_fraction is_digit
IsUnit-hours rest h = (refl, refl, refl, omega arith)

pub IsUnit-minutes : IsUnit minutes
unfolding IsUnit take_unit try_units has_prefix take_fraction is_digit
IsUnit-minutes [] h = (refl, refl, refl, omega arith)
IsUnit-minutes (c ∷ s) h = (ground arith, refl, refl, omega arith)

pub IsUnit-seconds : IsUnit seconds
unfolding IsUnit take_unit try_units has_prefix take_fraction is_digit
IsUnit-seconds rest h = (refl, refl, refl, omega arith)

pub IsUnit-milliseconds : IsUnit milliseconds
unfolding IsUnit take_unit try_units has_prefix take_fraction is_digit
IsUnit-milliseconds rest h = (refl, refl, refl, omega arith)
