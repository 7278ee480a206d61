-- ===== src/Spec/Duration/RoundTrip.antt =====
-- What FormatDuration writes, ParseDuration reads back.
use native.Mathlib.Nat.{mul-le-mul_left, div-one, mod-one, div-mul-le_self, zero-mul}
use mathlib.Core.List.{append_assoc, append-nil}
use paceq.Base.{
  ℕ, zero, suc, ◌+◌, ◌-◌, ◌*◌, ◌/◌, ◌^◌, ◌≤◌, ◌<◌, ◌≡◌, refl, ap, ◌∙◌, true, false, List, [], ◌∷◌,
  ◌++◌, inl, inr, arith,
}
use paceq.Base.Tests.{&&-true, &&-true, Bool-cases, ltb, ◌==◌}
use paceq.Base.Lists.{length, all, length-append}
use paceq.Base.Int.{pos, wrap64}
use paceq.Base.Result.{ok}
use paceq.Base.Bytes.{Bytes}
use paceq.Spec.Duration.{
  DurationUnit, hours, minutes, seconds, milliseconds, max_duration_millis, is_digit, pow10,
  digits_value, whole_millis, parse_duration_part, parse_parts, to_duration, parse_duration,
  write_digits, write_units, format_duration,
}
use paceq.Spec.Duration.Arithmetic.{add_checked_exact, mul_checked_exact}
use paceq.Spec.Duration.Digits.{
  write_digits_value, write_digits_append, write_digits-all, write_digits_some, take_digits-append,
  starts_digit, IsUnit, IsUnit-hours, IsUnit-minutes, IsUnit-seconds, IsUnit-milliseconds,
}
use paceq.Spec.Duration.Plain.{left, write_units_passes}

digit-is_digit : (d : ℕ) → d < 10 → is_digit (b'0' + d) ≡ true
unfolding is_digit
digit-is_digit d h = ground arith

-- A count and its unit are read back.
parse_pair :
    (u : DurationUnit) (n : ℕ) (rest : Bytes)
    → IsUnit u
    → starts_digit rest ≡ true
    → n * u.millis ≤ max_duration_millis
    → parse_duration_part (write_digits n n [] ++ (u.suffix ++ rest)) ≡ ok (n * u.millis, rest)
unfolding parse_duration_part IsUnit pow10 digits_value
parse_pair u n rest known behind fits =
    let (unit, other, plain, positive) = known rest behind in
    let digits = write_digits-all is_digit n n [] (omega arith) digit-is_digit refl in
    let small : n * 1 ≤ n * u.millis = mul-le-mul_left n positive in
    let value = write_digits_value n n [] (omega arith) (omega arith) in
    let some : (length (write_digits n n []) == 0) ≡ false =
      ground (arith, write_digits_some n n []) in
    let exact : whole_millis (n * u.millis) 1 rest ≡ ok (n * u.millis, rest) =
      rw (mod-one (n * u.millis)) (rw (div-one (n * u.millis)) refl) in
    rw (take_digits-append (write_digits n n []) (u.suffix ++ rest) digits other) (
      rw some (
        rw plain (
          rw unit (
            rw (append-nil (write_digits n n []))
              (rw value (rw (mul_checked_exact n u.millis fits) exact))))))

parse_parts_step :
    (fuel : ℕ) (s rest : Bytes) (total m : ℕ)
    → 0 < length s
    → total + m ≤ max_duration_millis
    → parse_duration_part s ≡ ok (m, rest)
    → parse_parts (suc fuel) s total ≡ parse_parts fuel rest (total + m)
unfolding parse_parts
parse_parts_step fuel [] rest total m some fits e = absurd (omega arith)
parse_parts_step fuel (c ∷ s) rest total m some fits e =
    rw e (rw (add_checked_exact total m fits) refl)

abbrev AllUnits : List DurationUnit → Type 0
AllUnits [] = Unit {0}
AllUnits (u ∷ us) = IsUnit u × AllUnits us

starts_digit-append :
    (ds t : Bytes) → 0 < length ds → all is_digit ds ≡ true → starts_digit (ds ++ t) ≡ true
starts_digit-append [] t h e = absurd (omega arith)
starts_digit-append (c ∷ ds) t h e = (&&-true (is_digit c) (all is_digit ds) e).0

written :
    (n : ℕ) (suffix rest : Bytes)
    → write_digits n n suffix ++ rest ≡ write_digits n n [] ++ (suffix ++ rest)
written n suffix rest =
    rw (write_digits_append n n [] suffix) (append_assoc (write_digits n n []) suffix rest)

write_units_starts : (us : List DurationUnit) (m : ℕ) → starts_digit (write_units m us) ≡ true
unfolding write_units
write_units_starts [] m = refl
write_units_starts (u ∷ us) m =
    let n = m / u.millis in
    let rest = write_units (m - n * u.millis) us in
    elim (Bool-cases (ltb 0 n)) [
      | inl some ↦ rw some (
          rw (written n u.suffix rest) (
            starts_digit-append (write_digits n n []) (u.suffix ++ rest) (write_digits_some n n [])
              (write_digits-all is_digit n n [] (omega arith) digit-is_digit refl)))
      | inr none_of ↦ rw none_of (write_units_starts us (m - n * u.millis))
    ]

-- A pair at the front of a text with room for it.
parse_parts_pair :
    (u : DurationUnit) (n fuel total : ℕ) (rest : Bytes)
    → IsUnit u
    → starts_digit rest ≡ true
    → length (write_digits n n u.suffix ++ rest) ≤ fuel
    → total + n * u.millis ≤ max_duration_millis
    → (k : ℕ) × (length rest ≤ k)
      × (parse_parts fuel (write_digits n n u.suffix ++ rest) total
          ≡ parse_parts k rest (total + n * u.millis))
parse_parts_pair u n zero total rest unit starts long fits =
    absurd (
      omega (arith, length-append (write_digits n n u.suffix) rest, write_digits_some n n u.suffix))
parse_parts_pair u n (suc fuel) total rest unit starts long fits =
    let text = write_digits n n u.suffix ++ rest in
    let some = write_digits_some n n u.suffix in
    let size = length-append (write_digits n n u.suffix) rest in
    let read : parse_duration_part text ≡ ok (n * u.millis, rest) =
      rw (written n u.suffix rest) (parse_pair u n rest unit starts (omega arith)) in
    (
      fuel,
      omega (arith, size, some),
      parse_parts_step fuel text rest total (n * u.millis) (omega (arith, size, some)) fits read,
    )

write_units_read :
    (us : List DurationUnit) (fuel m total : ℕ)
    → AllUnits us
    → left us m ≡ 0
    → length (write_units m us) ≤ fuel
    → total + m ≤ max_duration_millis
    → parse_parts fuel (write_units m us) total ≡ ok (total + m)
unfolding write_units parse_parts
write_units_read [] fuel m total known none_left long fits = ground arith
write_units_read (u ∷ us) fuel m total (unit, known) none_left long fits =
    let n = m / u.millis in
    let behind = m - n * u.millis in
    let rest = write_units behind us in
    let le = div-mul-le_self m u.millis in
    elim (Bool-cases (ltb 0 n)) [
      | inl some ↦
          let (k, room, e) =
            parse_parts_pair u n fuel total rest unit (write_units_starts us behind)
              (rw some at long) (omega arith) in
          rw some (
            e
            ∙ (write_units_read us k behind (total + n * u.millis) known none_left room
                  (omega arith)
                ∙ ap ok (omega arith)))
      | inr none_of ↦
          let zero_count : n ≡ 0 = ground arith in
          let same : n * u.millis ≡ 0 = rw zero_count (zero-mul u.millis) in
          rw none_of (
            write_units_read us fuel behind total known none_left (rw none_of at long) (omega arith)
            ∙ ap ok (omega arith))
    ]

to_duration_exact :
    (total : ℕ)
    → 0 < total
    → total ≤ max_duration_millis
    → to_duration total ≡ ok (pos (total * 10 ^ 6))
unfolding wrap64
to_duration_exact total more le = ground arith

-- A duration of at least a millisecond, written with FormatDuration, is read back by ParseDuration,
-- less what it has below a millisecond.
pub parse_duration-format_duration :
    (d : ℕ)
    → 10 ^ 6 ≤ d
    → d < 2 ^ 63
    → parse_duration (format_duration (pos d)) ≡ ok (pos (d / 10 ^ 6 * 10 ^ 6))
unfolding parse_duration format_duration wrap64
parse_duration-format_duration d least most =
    let m = d / 10 ^ 6 in
    let units = hours ∷ minutes ∷ seconds ∷ milliseconds ∷ [] in
    let text = write_units m units in
    let positive : (m == 0) ≡ false = ground arith in
    let known : AllUnits units =
      (IsUnit-hours, (IsUnit-minutes, (IsUnit-seconds, (IsUnit-milliseconds, tt)))) in
    let read : parse_parts (length text) text 0 ≡ ok m =
      write_units_read units (length text) m 0 known (omega arith) (omega arith) (omega arith)
      ∙ ap ok {x = 0 + m} {y = m} (omega arith) in
    let (full, outer, minus, plus, blank) =
      write_units_passes units m (omega arith) (ground arith) refl in
    rw positive (
      rw full (
        rw outer (
          rw (minus, plus) (rw blank (rw read (to_duration_exact m (omega arith) (omega arith)))))))
