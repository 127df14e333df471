-- ===== src/MinorUnits/Tests.antt =====
-- Amounts at concrete values.
use cashloom.Prelude.{◌≡◌, refl, true, ◌&&◌, not, ◌==◌, lit, all, ok}
use cashloom.MinorUnits.{
  ℤ, is_negative, magnitude, differ, times, value_from, parse_minor, assert_decimals, digits_of,
  zeros, drop, format_minor, round_half_even, div_half_even, apply_rate,
}
use cashloom.MinorUnits.Rounding.{IsHalfEven, div_half_even-IsHalfEven}
use cashloom.MinorUnits.Digits.{without_point, HasFraction, format_minor-parse_minor}

formats : format_minor (lit "-5") 2 ≡ ok (lit "-0.05")
unfolding all value_from parse_minor assert_decimals digits_of zeros drop format_minor
formats = refl

-- 10.05 at a rate of 1.5, to whole units: 15.075 rounds to 15.
converts : apply_rate (lit "1005") 2 (lit "15") 1 0 ≡ ok (lit "15")
unfolding all value_from parse_minor assert_decimals digits_of times round_half_even div_half_even
    apply_rate
converts = refl

-- -2.5 rounds to the even -2.
halves : div_half_even (ℤ.negsuc 4) (ℤ.pos 2) ≡ ok (ℤ.negsuc 1)
unfolding round_half_even div_half_even
halves = refl

div_half_even-IsHalfEven_example :
    IsHalfEven 5 2 2
    × (true ≡ (differ true (is_negative (ℤ.pos 2)) && not (magnitude (ℤ.negsuc 1) == 0)))
div_half_even-IsHalfEven_example =
    div_half_even-IsHalfEven (ℤ.negsuc 4) (ℤ.pos 2) (ℤ.negsuc 1) halves

format_minor-parse_minor_example :
    (z : ℤ) × (parse_minor (lit "-5") ≡ ok z)
    × (parse_minor (without_point (lit "-0.05")) ≡ ok z)
    × HasFraction 2 (lit "-0.05")
format_minor-parse_minor_example = format_minor-parse_minor (lit "-5") 2 (lit "-0.05") formats
