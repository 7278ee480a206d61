-- ===== src/Spec/Duration.antt =====
-- internal/spec/duration.go: ParseDuration and FormatDuration. A Go string is a list of bytes; a
-- time.Duration is an int64 of nanoseconds. An error is named by its message.
pub mod Arithmetic
pub mod Reading
pub mod Digits
pub mod Plain
pub mod RoundTrip
pub mod Ends
use paceq.Base.{
  ℕ, zero, suc, ◌+◌, ◌-◌, ◌*◌, ◌/◌, ◌%◌, ◌^◌, ◌≡◌, refl, String, Bool, true, false, not, ◌&&◌, ◌||◌,
  List, [], ◌∷◌, ◌++◌,
}
use paceq.Base.Tests.{if◌then◌else◌, ltb, leb, ◌==◌}
use paceq.Base.Lists.{length, any}
use paceq.Base.Bytes.{Bytes, codes}
use paceq.Base.Int.{ℤ, pos, negsuc, wrap64}
use paceq.Base.Result.{Result, ok, err, ◌>>=◌, ◌>>◌, refuse_if}

-- `endless` is not the source's: the loop would not have come to the end of the text.
pub data DurationError : Type 0 where
  empty_value outer_space signed inner_space : DurationError
  no_number no_fraction long_fraction : DurationError
  no_unit day_or_week unknown_unit : DurationError
  too_long below_milli zero_length endless : DurationError

pub record DurationUnit : Type 0 where
  pub suffix : Bytes
  pub millis : ℕ

abbrev pub hours : DurationUnit
hours = record { suffix = codes "h"; millis = 60 * 60 * 1000 }

abbrev pub minutes : DurationUnit
minutes = record { suffix = codes "m"; millis = 60 * 1000 }

abbrev pub seconds : DurationUnit
seconds = record { suffix = codes "s"; millis = 1000 }

abbrev pub milliseconds : DurationUnit
milliseconds = record { suffix = codes "ms"; millis = 1 }

-- durationUnits, in the order they are tried.
abbrev pub duration_units : List DurationUnit
duration_units = milliseconds ∷ seconds ∷ minutes ∷ hours ∷ []

abbrev pub max_fraction_digits : ℕ
max_fraction_digits = 9

abbrev pub max_duration_millis : ℕ
max_duration_millis = (2 ^ 63 - 1) / 10 ^ 6

-- strings.HasPrefix and what follows the prefix; strings.HasSuffix.
unfoldable pub has_prefix : Bytes → Bytes → Bool
has_prefix [] s = true
has_prefix (p ∷ ps) [] = false
has_prefix (p ∷ ps) (c ∷ s) = (c == p) && has_prefix ps s

unfoldable pub same_bytes : Bytes → Bytes → Bool
same_bytes [] [] = true
same_bytes [] (_ ∷ _) = false
same_bytes (_ ∷ _) [] = false
same_bytes (p ∷ ps) (c ∷ s) = (c == p) && same_bytes ps s

unfoldable pub has_suffix : Bytes → Bytes → Bool
unfolding same_bytes
has_suffix e [] = same_bytes e []
has_suffix e (c ∷ s) = same_bytes e (c ∷ s) || has_suffix e s

-- The UTF-8 encodings of Unicode's white space.
abbrev pub spaces : List Bytes
spaces =
    (9 ∷ [])
    ∷ (10 ∷ [])
    ∷ (11 ∷ [])
    ∷ (12 ∷ [])
    ∷ (13 ∷ [])
    ∷ (32 ∷ [])
    ∷ (194 ∷ 133 ∷ [])
    ∷ (194 ∷ 160 ∷ [])
    ∷ (225 ∷ 154 ∷ 128 ∷ [])
    ∷ (226 ∷ 128 ∷ 128 ∷ [])
    ∷ (226 ∷ 128 ∷ 129 ∷ [])
    ∷ (226 ∷ 128 ∷ 130 ∷ [])
    ∷ (226 ∷ 128 ∷ 131 ∷ [])
    ∷ (226 ∷ 128 ∷ 132 ∷ [])
    ∷ (226 ∷ 128 ∷ 133 ∷ [])
    ∷ (226 ∷ 128 ∷ 134 ∷ [])
    ∷ (226 ∷ 128 ∷ 135 ∷ [])
    ∷ (226 ∷ 128 ∷ 136 ∷ [])
    ∷ (226 ∷ 128 ∷ 137 ∷ [])
    ∷ (226 ∷ 128 ∷ 138 ∷ [])
    ∷ (226 ∷ 128 ∷ 168 ∷ [])
    ∷ (226 ∷ 128 ∷ 169 ∷ [])
    ∷ (226 ∷ 128 ∷ 175 ∷ [])
    ∷ (226 ∷ 129 ∷ 159 ∷ [])
    ∷ (227 ∷ 128 ∷ 128 ∷ [])
    ∷ []

-- `strings.TrimSpace(text) != text`.
unfoldable pub has_outer_space : Bytes → Bool
unfolding has_prefix has_suffix
has_outer_space text = any (λ e. has_prefix e text || has_suffix e text) spaces

unfoldable pub is_digit : ℕ → Bool
is_digit c = leb b'0' c && leb c b'9'

unfoldable pub take_digits : Bytes → Bytes × Bytes
unfolding is_digit
take_digits [] = ([], [])
take_digits (c ∷ s) =
    let (digits, rest) = take_digits s in if is_digit c then (c ∷ digits, rest) else ([], c ∷ s)

unfoldable pub is_letter : ℕ → Bool
is_letter c = (leb b'a' c && leb c b'z') || (leb b'A' c && leb c b'Z')

-- takeLetters without its last resort, one whole character, which only a message quotes.
unfoldable pub take_letters : Bytes → Bytes
unfolding is_letter
take_letters [] = []
take_letters (c ∷ s) = let rest = take_letters s in if is_letter c then c ∷ rest else []

unfoldable pub refuse_unit : Bytes → DurationError
unfolding take_letters same_bytes
refuse_unit [] = no_unit
refuse_unit (c ∷ s) =
    let name = take_letters (c ∷ s) in
    if same_bytes name (codes "d") || same_bytes name (codes "w") then day_or_week else unknown_unit

abbrev pub behind_prefix : Bytes → Bytes → Bytes
behind_prefix [] s = s
behind_prefix (p ∷ ps) [] = []
behind_prefix (p ∷ ps) (c ∷ s) = behind_prefix ps s

-- The loop of takeUnit.
unfoldable pub try_units : List DurationUnit → Bytes → Result DurationError (DurationUnit × Bytes)
unfolding has_prefix refuse_unit
try_units [] s = err (refuse_unit s)
try_units (u ∷ us) s =
    let rest = try_units us s in
    if has_prefix u.suffix s then ok (u, behind_prefix u.suffix s) else rest

unfoldable pub take_unit : Bytes → Result DurationError (DurationUnit × Bytes)
unfolding try_units
take_unit s = try_units duration_units s

unfoldable pub pow10 : ℕ → ℕ
pow10 zero = 1
pow10 (suc n) = pow10 n * 10

-- The product of two numbers that are not 0, as an int64. A quotient of a negative product by b is
-- negative or 0, so it is not a.
unfoldable pub checked_product : ℕ → ℕ → ℤ → Result DurationError ℕ
checked_product a b (pos p) =
    if not (p / b == a) || ltb max_duration_millis p then err too_long else ok p
checked_product a b (negsuc p) = err too_long

unfoldable pub mul_checked : ℕ → ℕ → Result DurationError ℕ
unfolding checked_product wrap64
mul_checked a b = if (a == 0) || (b == 0) then ok 0 else checked_product a b (wrap64 (pos (a * b)))

-- A negative sum is less than a.
unfoldable pub checked_sum : ℕ → ℤ → Result DurationError ℕ
checked_sum a (pos s) = if ltb s a || ltb max_duration_millis s then err too_long else ok s
checked_sum a (negsuc s) = err too_long

unfoldable pub add_checked : ℕ → ℕ → Result DurationError ℕ
unfolding checked_sum wrap64
add_checked a b = checked_sum a (wrap64 (pos (a + b)))

-- The loop of digitsValue, from the value so far.
unfoldable pub digits_value : Bytes → ℕ → Result DurationError ℕ
unfolding mul_checked add_checked
digits_value [] value = ok value
digits_value (c ∷ s) value = do
  shifted ← mul_checked value 10
  next ← add_checked shifted (c - b'0')
  digits_value s next

-- The fraction, and what follows it.
unfoldable pub take_fraction : Bytes → Result DurationError (Bytes × Bytes)
unfolding take_digits
take_fraction [] = ok ([], [])
take_fraction (c ∷ s) =
    let (fraction, after) = take_digits s in
    if not (c == b'.')
    then ok ([], c ∷ s)
    else if length fraction == 0
    then err no_fraction
    else if ltb max_fraction_digits (length fraction)
    then err long_fraction
    else ok (fraction, after)

abbrev pub whole_millis : ℕ → ℕ → Bytes → Result DurationError (ℕ × Bytes)
whole_millis product scale after =
    if not (product % scale == 0) then err below_milli else ok (product / scale, after)

-- parseDurationPart.
unfoldable pub parse_duration_part : Bytes → Result DurationError (ℕ × Bytes)
unfolding take_digits take_fraction take_unit digits_value mul_checked pow10
parse_duration_part rest =
    let (digits, after) = take_digits rest in
    do
      refuse_if (length digits == 0) no_number
      (fraction, behind) ← take_fraction after
      (unit, remaining) ← take_unit behind
      scaled ← digits_value (digits ++ fraction) 0
      product ← mul_checked scaled unit.millis
      whole_millis product (pow10 (length fraction)) remaining

-- The loop of ParseDuration; a round takes at least two bytes, so the length is fuel enough.
unfoldable pub parse_parts : ℕ → Bytes → ℕ → Result DurationError ℕ
unfolding parse_duration_part add_checked
parse_parts fuel [] total = ok total
parse_parts zero (c ∷ s) total = err endless
parse_parts (suc fuel) (c ∷ s) total = do
  (millis, remaining) ← parse_duration_part (c ∷ s)
  sum ← add_checked total millis
  parse_parts fuel remaining sum

abbrev pub is_blank : ℕ → Bool
is_blank c = (c == 32) || (c == 9)

-- `time.Duration(total) * time.Millisecond`.
abbrev pub to_duration : ℕ → Result DurationError ℤ
to_duration total = if total == 0 then err zero_length else ok (wrap64 (pos (total * 10 ^ 6)))

unfoldable pub parse_duration : Bytes → Result DurationError ℤ
unfolding has_outer_space has_prefix parse_parts wrap64
parse_duration text = do
  refuse_if (length text == 0) empty_value
  refuse_if (has_outer_space text) outer_space
  refuse_if (has_prefix (codes "-") text || has_prefix (codes "+") text) signed
  refuse_if (any is_blank text) inner_space
  total ← parse_parts (length text) text 0
  to_duration total

-- The decimal digits of a number in front of `out`; a round divides it by ten, so the number itself
-- is fuel enough.
unfoldable pub write_digits : ℕ → ℕ → Bytes → Bytes
write_digits zero n out = (b'0' + n) ∷ out
write_digits (suc fuel) n out =
    let rest = write_digits fuel (n / 10) ((b'0' + n % 10) ∷ out) in
    if ltb n 10 then (b'0' + n) ∷ out else rest

-- The loop of FormatDuration.
unfoldable pub write_units : ℕ → List DurationUnit → Bytes
unfolding write_digits
write_units millis [] = []
write_units millis (u ∷ us) =
    let count = millis / u.millis in
    let rest = write_units (millis - count * u.millis) us in
    if ltb 0 count then write_digits count count u.suffix ++ rest else rest

unfoldable pub format_duration : ℤ → Bytes
unfolding write_units
format_duration (pos n) =
    let millis = n / 10 ^ 6 in
    if millis == 0
    then codes "0ms"
    else write_units millis (hours ∷ minutes ∷ seconds ∷ milliseconds ∷ [])
format_duration (negsuc n) = codes "0ms"

reads : parse_duration (codes "1h30m") ≡ ok (pos 5400000000000)
unfolding parse_duration
reads = refl
