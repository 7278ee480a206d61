-- ===== src/Spec/Duration/Ends.antt =====
-- The loop of ParseDuration ends: a round takes at least one digit off the text.
use paceq.Base.{
  ℕ, zero, suc, ◌-◌, ◌≤◌, ◌<◌, refl, ap, ◌≢◌, Bool, true, false, ◌||◌, List, [], ◌∷◌, ◌++◌, arith,
}
use paceq.Base.Tests.{◌==◌}
use paceq.Base.Lists.{length, any, length-append}
use paceq.Base.Int.{wrap64}
use paceq.Base.Result.{Result, err, ◌>>◌, refuse_if, bind_never}
use paceq.Base.Bytes.{Bytes, codes}
use paceq.Spec.Duration.{
  DurationUnit, endless, take_fraction, try_units, refuse_unit, take_digits, take_unit,
  duration_units, pow10, digits_value, whole_millis, mul_checked, checked_product, add_checked,
  checked_sum, parse_duration_part, parse_parts, parse_duration, no_number, has_outer_space,
  has_prefix, is_blank,
}
use paceq.Spec.Duration.Reading.{IsPair, pointed, parse_duration_part-IsPair}

never_mul : (a b : ℕ) → mul_checked a b ≢ err endless
unfolding mul_checked checked_product wrap64
never_mul a b = ground arith

never_add : (a b : ℕ) → add_checked a b ≢ err endless
unfolding add_checked checked_sum wrap64
never_add a b = ground arith

never_fraction : (s : Bytes) → take_fraction s ≢ err endless
unfolding take_fraction
never_fraction [] = cc
never_fraction (c ∷ s) = ground arith

never_refuse : (s : Bytes) → refuse_unit s ≢ endless
unfolding refuse_unit
never_refuse [] = cc
never_refuse (c ∷ s) = ground arith

never_units : (us : List DurationUnit) (s : Bytes) → try_units us s ≢ err endless
unfolding try_units
never_units [] s = ground (arith, never_refuse s)
never_units (u ∷ us) s = ground (arith, never_units us s)

never_digits : (s : Bytes) (value : ℕ) → digits_value s value ≢ err endless
unfolding digits_value
never_digits [] value = cc
never_digits (c ∷ s) value = bind_never (mul_checked value 10) _ (never_mul value 10) λ shifted _.
    bind_never (add_checked shifted (c - b'0')) _ (never_add shifted _)
      λ next _. never_digits s next

never_whole : (product scale : ℕ) (s : Bytes) → whole_millis product scale s ≢ err endless
never_whole product scale s = ground arith

then_never {κ μ} :
    {E : Type μ} {B : Type κ} (c : Bool) (d : E) (k : Result E B) {e : E}
    → d ≢ e
    → k ≢ err e
    → (refuse_if c d >> k) ≢ err e
then_never true d k other more = λ h. other (cc)
then_never false d k other more = more

never_part : (s : Bytes) → parse_duration_part s ≢ err endless
unfolding parse_duration_part take_unit
never_part s =
    let (digits, after) = take_digits s in
    then_never (length digits == 0) no_number _ (cc) (
      bind_never (take_fraction after) _ (never_fraction after) λ (fraction, behind) _.
        bind_never (take_unit behind) _ (never_units duration_units behind) λ (u, remaining) _.
          bind_never (digits_value (digits ++ fraction) 0) _ (never_digits (digits ++ fraction) 0)
            λ scaled _.
              bind_never (mul_checked scaled u.millis) _ (never_mul scaled u.millis)
                λ product _. never_whole product (pow10 (length fraction)) remaining)

IsPair-shorter : (s rest : Bytes) (m : ℕ) → IsPair s m rest → length rest < length s
IsPair-shorter s rest m p =
    let tail = p.unit.suffix ++ rest in
    let nonempty = go p.digits p.some_digits in
    omega (
      arith,
      ap length p.text,
      length-append p.digits (pointed p.fraction ++ tail),
      length-append (pointed p.fraction) tail,
      length-append p.unit.suffix rest,
      nonempty,
    )
  where
    go : (digits : Bytes) → digits ≢ [] → 0 < length digits
    go [] some = absurd (some refl)
    go (c ∷ ds) some = omega arith

parse_parts_ends :
    (fuel : ℕ) (s : Bytes) (total : ℕ) → length s ≤ fuel → parse_parts fuel s total ≢ err endless
unfolding parse_parts
parse_parts_ends fuel [] total h = cc
parse_parts_ends zero (c ∷ s) total h = absurd (omega arith)
parse_parts_ends (suc fuel) (c ∷ s) total h =
    bind_never (parse_duration_part (c ∷ s)) _ (never_part (c ∷ s)) λ (millis, remaining) e.
      let shorter =
        IsPair-shorter (c ∷ s) remaining millis
          (parse_duration_part-IsPair (c ∷ s) millis remaining e) in
      bind_never (add_checked total millis) _ (never_add total millis)
        λ sum _. parse_parts_ends fuel remaining sum (omega arith)

-- ParseDuration returns on every text: its loop comes to the end of the text, or to an error, within
-- as many rounds as the text has bytes.
pub parse_duration_ends : (text : Bytes) → parse_duration text ≢ err endless
unfolding parse_duration
parse_duration_ends text = then_never (length text == 0) _ _ (cc) (
    then_never (has_outer_space text) _ _ (cc) (
      then_never (has_prefix (codes "-") text || has_prefix (codes "+") text) _ _ (cc) (
        then_never (any is_blank text) _ _ (cc) (
          bind_never (parse_parts (length text) text 0) _
            (parse_parts_ends (length text) text 0 (omega arith)) λ total _. ground arith))))
