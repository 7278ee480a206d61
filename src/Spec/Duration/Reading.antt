-- ===== src/Spec/Duration/Reading.antt =====
-- What ParseDuration accepts: pairs of a decimal number and a unit, whose exact sum is the result.
use paceq.Base.{
  ℕ, zero, suc, ◌+◌, ◌-◌, ◌*◌, ◌^◌, ◌≤◌, ◌<◌, ◌≡◌, refl, sym, ap, ◌∙◌, ◌≢◌, true, ◌||◌, List, [],
  ◌∷◌, ◌++◌, inl, inr, arith,
}
use mathlib.Core.List.{Memᴰ, foldl}
use native.Mathlib.Nat.{div-add-mod', div-le_self}
use paceq.Base.Tests.{&&-true, Bool-cases, ◌==◌}
use paceq.Base.Lists.{any, length, all}
use paceq.Base.Int.{ℤ, pos, wrap64}
use paceq.Base.Result.{ok, bind_ok, then_ok}
use paceq.Base.Bytes.{Bytes, codes}
use paceq.Spec.Duration.{
  DurationUnit, no_number, max_duration_millis, has_prefix, is_digit, take_digits, take_fraction,
  behind_prefix, try_units, take_unit, duration_units, pow10, digits_value, whole_millis,
  mul_checked, add_checked, parse_duration_part, parse_parts, parse_duration, has_outer_space,
  to_duration, is_blank,
}
use paceq.Spec.Duration.Arithmetic.{add_checked_sound, mul_checked_sound}

-- The number that decimal digits spell behind `n`.
abbrev pub decimal : ℕ → Bytes → ℕ
decimal = foldl (λ n c. n * 10 + (c - b'0'))

-- The decimal point stands before a fraction that has digits.
abbrev pub pointed : Bytes → Bytes
pointed [] = []
pointed (c ∷ s) = b'.' ∷ c ∷ s

abbrev pub IsNumber : Bytes → Type 0
IsNumber s = all is_digit s ≡ true

-- `Spells text n`: the text is a run of number and unit pairs that are worth n milliseconds.
pub data Spells : Bytes → ℕ → Type 0 where
  nothing : Spells [] 0
  pair :
      (digits fraction rest : Bytes) (u : DurationUnit) (m n : ℕ)
      → digits ≢ []
      → IsNumber (digits ++ fraction)
      → length fraction ≤ 9
      → Memᴰ u duration_units
      → m * 10 ^ length fraction ≡ decimal 0 (digits ++ fraction) * u.millis
      → Spells rest n
      → Spells (digits ++ (pointed fraction ++ (u.suffix ++ rest))) (m + n)

take_digits_lem :
    (s : Bytes) → let (digits, rest) = take_digits s in IsNumber digits × (s ≡ digits ++ rest)
unfolding take_digits
take_digits_lem [] = (refl, refl)
take_digits_lem (c ∷ s) = ground (arith, take_digits_lem s)

take_fraction_lem :
    (s fraction after : Bytes)
    → take_fraction s ≡ ok (fraction, after)
    → IsNumber fraction × (length fraction ≤ 9) × (s ≡ pointed fraction ++ after)
unfolding take_fraction
take_fraction_lem [] fraction after h = ground arith
take_fraction_lem (c ∷ s) fraction after h = ground (arith, take_digits_lem s)

has_prefix_lem : (p s : Bytes) → has_prefix p s ≡ true → s ≡ p ++ behind_prefix p s
unfolding has_prefix
has_prefix_lem [] s h = refl
has_prefix_lem (p ∷ ps) [] h = absurd (cc)
has_prefix_lem (p ∷ ps) (c ∷ s) h = ground (arith, has_prefix_lem ps s)

try_units_lem :
    (us : List DurationUnit) (s : Bytes) (u : DurationUnit) (rest : Bytes)
    → try_units us s ≡ ok (u, rest)
    → Memᴰ u us × (s ≡ u.suffix ++ rest)
unfolding try_units
try_units_lem [] s u rest h = absurd (cc)
try_units_lem (v ∷ us) s u rest h = elim (Bool-cases (has_prefix v.suffix s)) [
  | inl p ↦ let e = rw p at h in (Memᴰ.head (cc), has_prefix_lem v.suffix s p ∙ cc)
  | inr p ↦ let (m, e) = try_units_lem us s u rest (rw p at h) in (Memᴰ.tail m, e)
]

digits_value_lem :
    (s : Bytes) (value n : ℕ)
    → IsNumber s
    → value ≤ max_duration_millis
    → digits_value s value ≡ ok n
    → n ≡ decimal value s
unfolding digits_value is_digit
digits_value_lem [] value n d b h = cc
digits_value_lem (c ∷ s) value n d b h = bind_ok (mul_checked value 10) _ h λ shifted e f.
    bind_ok (add_checked shifted (c - b'0')) _ f λ next e' f'.
      let (x, y) = mul_checked_sound value 10 shifted e in
      let (head, tail) = &&-true (is_digit c) (all is_digit s) d in
      let (z, w) = add_checked_sound shifted (c - b'0') next y (ground arith) e' in
      digits_value_lem s next n tail w f' ∙ ap (λ v. decimal v s) (omega arith)

-- One pair read off the front of a text.
pub record IsPair (s : Bytes) (m : ℕ) (rest : Bytes) : Type 0 where
  pub digits : Bytes
  pub fraction : Bytes
  pub unit : DurationUnit
  pub some_digits : digits ≢ []
  pub number : IsNumber (digits ++ fraction)
  pub short : length fraction ≤ 9
  pub known : Memᴰ unit duration_units
  pub worth : m * 10 ^ length fraction ≡ decimal 0 (digits ++ fraction) * unit.millis
  pub text : s ≡ digits ++ (pointed fraction ++ (unit.suffix ++ rest))
  pub fits : m ≤ max_duration_millis

pow10_lem : (n : ℕ) → pow10 n ≡ 10 ^ n
unfolding pow10
pow10_lem zero = refl
pow10_lem (suc n) = omega (arith, pow10_lem n)

positive : (n : ℕ) → 0 < pow10 n
unfolding pow10
positive zero = omega arith
positive (suc n) = omega (arith, positive n)

whole_millis_lem :
    (product scale m : ℕ) (after rest : Bytes)
    → 0 < scale
    → whole_millis product scale after ≡ ok (m, rest)
    → (m * scale ≡ product) × (m ≤ product) × (after ≡ rest)
whole_millis_lem product scale m after rest h e =
    ground (arith, div-add-mod' product scale, div-le_self product scale)

IsNumber-append : (s t : Bytes) → IsNumber s → IsNumber t → IsNumber (s ++ t)
IsNumber-append [] t hs ht = ht
IsNumber-append (c ∷ s) t hs ht = ground (arith, IsNumber-append s t)

pub parse_duration_part-IsPair :
    (s : Bytes) (m : ℕ) (rest : Bytes) → parse_duration_part s ≡ ok (m, rest) → IsPair s m rest
unfolding parse_duration_part take_unit
parse_duration_part-IsPair s m rest h =
    let (digits, after) = take_digits s in
    let (d, whole) = take_digits_lem s in
    let (e₀, h₀) = then_ok (length digits == 0) no_number _ h in
    bind_ok (take_fraction after) _ h₀ λ (fraction, behind) e₁ h₁.
      bind_ok (take_unit behind) _ h₁ λ (u, remaining) e₂ h₂.
        bind_ok (digits_value (digits ++ fraction) 0) _ h₂ λ scaled e₃ h₃.
          bind_ok (mul_checked scaled u.millis) _ h₃ λ product e₄ h₄.
            let (f, short, split) = take_fraction_lem after fraction behind e₁ in
            let (known, split') = try_units_lem duration_units behind u remaining e₂ in
            let (exact, le, same) =
              whole_millis_lem product (pow10 (length fraction)) m remaining rest
                (positive (length fraction)) h₄ in
            let number = IsNumber-append digits fraction d f in
            let value = digits_value_lem (digits ++ fraction) 0 scaled number (omega arith) e₃ in
            let (times, bound) = mul_checked_sound scaled u.millis product e₄ in
            record {
              digits = digits;
              fraction = fraction;
              unit = u;
              some_digits = λ e. absurd (ground (arith, e₀, ap length e));
              number = number;
              short = short;
              known = known;
              worth =
                  ap (λ q. m * q) (sym (pow10_lem (length fraction)))
                  ∙ (exact ∙ (times ∙ ap (λ q. q * u.millis) value));
              text =
                  whole
                  ∙ ap (λ t. digits ++ t)
                      (split
                        ∙ ap (λ t. pointed fraction ++ t) (split' ∙ ap (λ t. u.suffix ++ t) same));
              fits = omega arith;
            }

pub parse_parts-Spells :
    (fuel : ℕ) (s : Bytes) (total n : ℕ)
    → total ≤ max_duration_millis
    → parse_parts fuel s total ≡ ok n
    → (m : ℕ) × (n ≡ total + m) × (n ≤ max_duration_millis) × Spells s m
unfolding parse_parts
parse_parts-Spells fuel [] total n le h = (0, ground arith, ground arith, nothing)
parse_parts-Spells zero (c ∷ s) total n le h = absurd (cc)
parse_parts-Spells (suc fuel) (c ∷ s) total n le h =
    bind_ok (parse_duration_part (c ∷ s)) _ h λ (millis, remaining) e₁ h₁.
      bind_ok (add_checked total millis) _ h₁ λ sum e₂ h₂.
        let p = parse_duration_part-IsPair (c ∷ s) millis remaining e₁ in
        let (exact, fits) = add_checked_sound total millis sum le p.fits e₂ in
        let (m, e, top, spelled) = parse_parts-Spells fuel remaining sum n fits h₂ in
        let spells =
          pair p.digits p.fraction remaining p.unit millis m p.some_digits p.number p.short p.known
            p.worth spelled in
        (millis + m, omega arith, top, rw p.text spells)

-- The duration that an accepted text stands for: a whole number of milliseconds, more than none, that
-- the text spells, in nanoseconds that an int64 holds.
unfoldable pub IsRead : Bytes → ℤ → Type 0
IsRead text d = (n : ℕ) × (d ≡ pos (n * 10 ^ 6)) × (0 < n) × (n * 10 ^ 6 < 2 ^ 63) × Spells text n

to_duration_lem :
    (total : ℕ) (d : ℤ)
    → total ≤ max_duration_millis
    → to_duration total ≡ ok d
    → (d ≡ pos (total * 10 ^ 6)) × (0 < total)
unfolding wrap64
to_duration_lem total d le h = ground arith

-- A text that ParseDuration accepts is a run of pairs of a decimal number, of at most nine digits
-- after its point, and one of the four units; the result is the exact sum of what the pairs are
-- worth, a positive whole number of milliseconds that a time.Duration holds without a wrap-around.
pub parse_duration-IsRead : (text : Bytes) (d : ℤ) → parse_duration text ≡ ok d → IsRead text d
unfolding parse_duration IsRead
parse_duration-IsRead text d h =
    let (_, h₁) = then_ok (length text == 0) _ _ h in
    let (_, h₂) = then_ok (has_outer_space text) _ _ h₁ in
    let (_, h₃) = then_ok (has_prefix (codes "-") text || has_prefix (codes "+") text) _ _ h₂ in
    let (_, h₄) = then_ok (any is_blank text) _ _ h₃ in
    bind_ok (parse_parts (length text) text 0) _ h₄ λ total e h₅.
      let (m, same, top, spelled) = parse_parts-Spells (length text) text 0 total (omega arith) e in
      let (value, more) = to_duration_lem total d top h₅ in
      (
        m,
        value ∙ ap (λ n. pos (n * 10 ^ 6)) {x = total} {y = m} (omega arith),
        omega arith,
        omega arith,
        spelled,
      )
