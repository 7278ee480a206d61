-- ===== src/Spec/Duration/Plain.antt =====
-- What FormatDuration writes passes the checks that ParseDuration makes on the whole text.
use native.Mathlib.Nat.{zero-mul}
use paceq.Base.{
  ℕ, ◌-◌, ◌*◌, ◌/◌, ◌<◌, ◌≡◌, refl, Bool, true, false, not, ◌&&◌, ◌||◌, List, [], ◌∷◌, ◌++◌, inl,
  inr, arith,
}
use paceq.Base.Tests.{&&-true, &&-true, Bool-cases, ltb, leb, ◌==◌}
use paceq.Base.Lists.{any, length, all, length-append}
use paceq.Base.Bytes.{Bytes, codes}
use paceq.Spec.Duration.{
  DurationUnit, has_prefix, same_bytes, has_suffix, spaces, has_outer_space, is_blank, write_digits,
  write_units,
}
use paceq.Spec.Duration.Digits.{write_digits-all, write_digits_some}

-- Neither white space, a sign nor a byte of a longer character.
abbrev is_plain : ℕ → Bool
is_plain c = leb 48 c && ltb c 128

abbrev is_foreign : Bytes → Bool
is_foreign [] = false
is_foreign (c ∷ s) = not (is_plain c)

foreign_prefix :
    (e s : Bytes) → is_foreign e ≡ true → all is_plain s ≡ true → has_prefix e s ≡ false
unfolding has_prefix
foreign_prefix [] s h p = absurd (cc)
foreign_prefix (c ∷ e) [] h p = refl
foreign_prefix (c ∷ e) (d ∷ s) h p = ground arith

foreign_same : (e s : Bytes) → is_foreign e ≡ true → all is_plain s ≡ true → same_bytes e s ≡ false
unfolding same_bytes
foreign_same [] s h p = absurd (cc)
foreign_same (c ∷ e) [] h p = refl
foreign_same (c ∷ e) (d ∷ s) h p = ground arith

foreign_suffix :
    (e s : Bytes) → is_foreign e ≡ true → all is_plain s ≡ true → has_suffix e s ≡ false
unfolding has_suffix
foreign_suffix e [] h p = foreign_same e [] h p
foreign_suffix e (c ∷ s) h p = ground (arith, foreign_same e (c ∷ s), foreign_suffix e s)

no_space :
    (es : List Bytes) (s : Bytes)
    → all is_foreign es ≡ true
    → all is_plain s ≡ true
    → any (λ e. has_prefix e s || has_suffix e s) es ≡ false
no_space [] s h p = refl
no_space (e ∷ es) s h p = ground (arith, foreign_prefix e s, foreign_suffix e s, no_space es s)

no_blank : (s : Bytes) → all is_plain s ≡ true → any is_blank s ≡ false
no_blank [] p = refl
no_blank (c ∷ s) p = ground (arith, no_blank s)

plain-append :
    (s t : Bytes) → all is_plain s ≡ true → all is_plain t ≡ true → all is_plain (s ++ t) ≡ true
plain-append [] t p q = q
plain-append (c ∷ s) t p q = ground (arith, plain-append s t)

abbrev are_plain : List DurationUnit → Bool
are_plain us = all (λ u. all is_plain u.suffix) us

write_units_plain :
    (us : List DurationUnit) (m : ℕ) → are_plain us ≡ true → all is_plain (write_units m us) ≡ true
unfolding write_units
write_units_plain [] m h = refl
write_units_plain (u ∷ us) m h =
    let n = m / u.millis in
    let behind = m - n * u.millis in
    let rest = write_units behind us in
    let (first, others) = &&-true (all is_plain u.suffix) (are_plain us) h in
    let tail = write_units_plain us behind others in
    elim (Bool-cases (ltb 0 n)) [
      | inl some ↦ rw some (
          plain-append (write_digits n n u.suffix) rest
            (write_digits-all is_plain n n u.suffix (omega arith) (λ d lt. ground arith) first)
            tail)
      | inr none_of ↦ rw none_of tail
    ]

-- What a count in the smallest unit leaves over.
abbrev pub left : List DurationUnit → ℕ → ℕ
left [] m = m
left (u ∷ us) m = left us (m - m / u.millis * u.millis)

-- What has a smallest unit writes something.
write_units_some :
    (us : List DurationUnit) (m : ℕ) → left us m ≡ 0 → 0 < m → 0 < length (write_units m us)
unfolding write_units
write_units_some [] m none_left some = absurd (omega arith)
write_units_some (u ∷ us) m none_left some =
    let n = m / u.millis in
    let behind = m - n * u.millis in
    elim (Bool-cases (ltb 0 n)) [
      | inl more ↦ rw more (
          omega (
            arith,
            length-append (write_digits n n u.suffix) (write_units behind us),
            write_digits_some n n u.suffix,
          ))
      | inr none_of ↦
          let zero_count : n ≡ 0 = ground arith in
          let same : n * u.millis ≡ 0 = rw zero_count (zero-mul u.millis) in
          rw none_of (write_units_some us behind none_left (omega arith))
    ]

pub write_units_passes :
    (us : List DurationUnit) (m : ℕ)
    → left us m ≡ 0
    → 0 < m
    → are_plain us ≡ true
    → let text = write_units m us in
      ((length text == 0) ≡ false)
      × (has_outer_space text ≡ false)
      × (has_prefix (codes "-") text ≡ false)
      × (has_prefix (codes "+") text ≡ false)
      × (any is_blank text ≡ false)
unfolding has_outer_space
write_units_passes us m none_left some h =
    let plain = write_units_plain us m h in
    let text = write_units m us in
    (
      ground (arith, write_units_some us m none_left some),
      no_space spaces text refl plain,
      foreign_prefix (codes "-") text refl plain,
      foreign_prefix (codes "+") text refl plain,
      no_blank text plain,
    )
