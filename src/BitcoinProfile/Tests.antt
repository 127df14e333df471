-- ===== src/BitcoinProfile/Tests.antt =====
-- Runs of the Bitcoin profile, and its theorem at a concrete input.
use cashloom.Prelude.{
  ℕ, ◌≤◌, ◌≡◌, refl, some, Text, lit, text_eq, trim, drop_spaces, all, is_space, ok, err,
}
use cashloom.MinorUnits.{value_from}
use cashloom.BitcoinProfile.{
  ProfileError, BitcoinHost, max_satoshis, destination_dust, is_positive_satoshis, is_satoshis,
  parse_bitcoin_satoshis, parse_max_fee_satoshis, dust_floor, parse_bitcoin_address, canonical_case,
  parse_bitcoin_payment_terms,
}
use cashloom.BitcoinProfile.Bounds.{parse_terms-bounds}

-- All that a run computes with.
profile : Unit {0}
unfolding text_eq trim drop_spaces is_space all value_from destination_dust is_positive_satoshis
    is_satoshis parse_bitcoin_satoshis parse_max_fee_satoshis dust_floor parse_bitcoin_address
    canonical_case parse_bitcoin_payment_terms
profile = tt

abbrev host : BitcoinHost
host = record {
  output_type = λ t. some (lit "wpkh");
  to_upper = λ t. t;
  to_lower = λ t. lit "bc1q";
}

upper_case :
    parse_bitcoin_payment_terms host (lit " BC1Q ") (lit "294")
    ≡ ok (record { destination = lit "bc1q"; amount_sats = lit "294" })
unfolding profile
upper_case = refl

dust : parse_bitcoin_payment_terms host (lit "bc1q") (lit "293") ≡ err ProfileError.below_dust
unfolding profile
dust = refl

leading_zero : parse_max_fee_satoshis (lit "01") ≡ err ProfileError.invalid_max_fee
unfolding profile
leading_zero = refl

parse_terms-bounds_example :
    (lit "294" ≡ lit "294")
    × (type : Text) × (dust : ℕ) × (host.output_type (lit "bc1q") ≡ some type)
    × (destination_dust type ≡ some dust)
    × (294 ≤ dust)
    × (dust ≤ value_from 0 (lit "294"))
    × (value_from 0 (lit "294") ≤ max_satoshis)
parse_terms-bounds_example =
    parse_terms-bounds host (lit " BC1Q ") (lit "294")
      (record { destination = lit "bc1q"; amount_sats = lit "294" }) upper_case
