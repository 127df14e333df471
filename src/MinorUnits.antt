-- ===== src/MinorUnits.antt =====
-- Exact amounts in minor units: sovereign/src/utils/minor-units.ts, but for the conversion to a
-- floating-point number.
mod Rounding
mod Digits
mod Tests
use cashloom.Prelude.{
  ℕ, zero, suc, ◌+◌, ◌-◌, ◌*◌, ◌/◌, ◌%◌, ◌^◌, Bool, true, false, ◌&&◌, ◌||◌, not, List, [], ◌∷◌,
  ◌++◌, Text, lit, take, length, leb, ltb, ◌==◌, all, Result, ok, err, ◌>>=◌, ◌>>◌, require,
  if◌then◌else◌,
}

-- A BigInt: `negsuc n` is -(n + 1).
pub data ℤ : Type 0 where
  pos : ℕ → ℤ
  negsuc : ℕ → ℤ

pub data MinorError : Type 0 where
  invalid_amount invalid_decimals invalid_rate_scale division_by_zero : MinorError

abbrev pub is_negative : ℤ → Bool
is_negative (ℤ.pos n) = false
is_negative (ℤ.negsuc n) = true

abbrev pub magnitude : ℤ → ℕ
magnitude (ℤ.pos n) = n
magnitude (ℤ.negsuc n) = n + 1

-- `negative ? -n : n`
abbrev pub signed : Bool → ℕ → ℤ
signed false n = ℤ.pos n
signed true n = if n == 0 then ℤ.pos 0 else ℤ.negsuc (n - 1)

abbrev pub differ : Bool → Bool → Bool
differ true b = not b
differ false b = b

-- BigInt multiplication
unfoldable pub times : ℤ → ℤ → ℤ
times a b = signed (differ (is_negative a) (is_negative b)) (magnitude a * magnitude b)

abbrev pub is_digit : ℕ → Bool
is_digit c = leb b'0' c && leb c b'9'

abbrev pub is_digits : Text → Bool
is_digits s = not (length s == 0) && all is_digit s

-- `BigInt(digits)`, after the digits read so far
unfoldable pub value_from : ℕ → Text → ℕ
value_from n [] = n
value_from n (c ∷ s) = value_from (n * 10 + (c - b'0')) s

abbrev parse_digits : Bool → Text → Result MinorError ℤ
parse_digits negative s =
    if is_digits s then ok (signed negative (value_from 0 s)) else err MinorError.invalid_amount

-- `parseMinor`: `/^-?\d+$/`, and then `BigInt`
unfoldable pub parse_minor : Text → Result MinorError ℤ
parse_minor [] = err MinorError.invalid_amount
parse_minor (c ∷ s) = if c == b'-' then parse_digits true s else parse_digits false (c ∷ s)

unfoldable pub assert_decimals : ℕ → Result MinorError (Unit {0})
assert_decimals decimals = require (leb decimals 30) MinorError.invalid_decimals

-- `n.toString()`, on fuel: each step divides by ten.
unfoldable pub digits_of : ℕ → ℕ → Text
digits_of zero n = []
digits_of (suc fuel) n =
    let front = digits_of fuel (n / 10) in
    let last = (b'0' + n % 10) ∷ [] in if ltb n 10 then last else front ++ last

abbrev pub decimal : ℕ → Text
decimal n = digits_of (n + 1) n

abbrev pub sign_of : ℤ → Text
sign_of z = if is_negative z then lit "-" else []

abbrev pub to_text : ℤ → Text
to_text z = sign_of z ++ decimal (magnitude z)

unfoldable pub zeros : ℕ → Text
zeros zero = []
zeros (suc n) = b'0' ∷ zeros n

-- `digits.padStart(n, "0")`
abbrev pub pad_start : ℕ → Text → Text
pad_start n s = zeros (n - length s) ++ s

unfoldable pub drop : ℕ → Text → Text
drop zero s = s
drop (suc n) [] = []
drop (suc n) (c ∷ s) = drop n s

-- `padded.slice(0, -decimals)`, a point, and `padded.slice(-decimals)`
abbrev pub with_point : ℕ → Text → Text
with_point decimals padded =
    take (length padded - decimals) padded ++ b'.' ∷ drop (length padded - decimals) padded

abbrev pub format_digits : ℕ → Text → Text
format_digits decimals digits =
    if decimals == 0 then digits else with_point decimals (pad_start (decimals + 1) digits)

unfoldable pub format_minor : Text → ℕ → Result MinorError Text
format_minor balance_minor decimals = do
  scale ← assert_decimals decimals
  minor ← parse_minor balance_minor
  ok (sign_of minor ++ format_digits decimals (decimal (magnitude minor)))

-- The quotient of two magnitudes, rounded half to even.
unfoldable pub round_half_even : ℕ → ℕ → ℕ
round_half_even n d =
    let q = n / d in
    let twice = n % d * 2 in if ltb d twice || (twice == d && q % 2 == 1) then q + 1 else q

unfoldable pub div_half_even : ℤ → ℤ → Result MinorError ℤ
div_half_even numerator denominator =
    if magnitude denominator == 0
    then err MinorError.division_by_zero
    else ok (
        signed (differ (is_negative numerator) (is_negative denominator))
          (round_half_even (magnitude numerator) (magnitude denominator)))

-- The exponent `toDecimals - fromDecimals - rateScale` has the sign of the comparison.
abbrev scaled : ℤ → ℕ → ℕ → Result MinorError ℤ
scaled product to shift =
    if leb shift to
    then ok (times product (ℤ.pos (10 ^ (to - shift))))
    else div_half_even product (ℤ.pos (10 ^ (shift - to)))

unfoldable pub apply_rate : Text → ℕ → Text → ℕ → ℕ → Result MinorError Text
apply_rate amount_minor from_decimals rate_scaled rate_scale to_decimals = do
  from_scale ← assert_decimals from_decimals
  to_scale ← assert_decimals to_decimals
  rate_ok ← require (leb rate_scale 30) MinorError.invalid_rate_scale
  amount ← parse_minor amount_minor
  rate ← parse_minor rate_scaled
  result ← scaled (times amount rate) to_decimals (from_decimals + rate_scale)
  ok (to_text result)
