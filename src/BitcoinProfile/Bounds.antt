-- ===== src/BitcoinProfile/Bounds.antt =====
-- What the parsers of sovereign/src/protocol/v2/bitcoin-profile.ts let through.
use cashloom.Prelude.{
  ℕ, ◌≤◌, ◌≡◌, ◌∙◌, sym, ap, inl, inr, some, Text, ok, bind-eq-ok, require-eq-ok, Option-cases, leb,
  arith,
}
use cashloom.MinorUnits.{value_from}
use cashloom.BitcoinProfile.{
  BitcoinHost, BitcoinPaymentTerms, max_satoshis, max_fee_ceiling, destination_dust,
  is_positive_satoshis, is_satoshis, parse_bitcoin_satoshis, parse_max_fee_satoshis, dust_floor,
  parse_bitcoin_address, parse_bitcoin_payment_terms,
}

destination_dust-least : (type : Text) (dust : ℕ) → destination_dust type ≡ some dust → 294 ≤ dust
unfolding destination_dust
destination_dust-least type dust h = ground arith

parse_bitcoin_satoshis-same :
    (amount out : Text)
    → parse_bitcoin_satoshis amount ≡ ok out
    → (out ≡ amount) × (value_from 0 amount ≤ max_satoshis)
unfolding parse_bitcoin_satoshis
parse_bitcoin_satoshis-same amount out h =
    let (_, h1) = require-eq-ok (is_positive_satoshis amount) _ _ h in
    let (bound, h2) = require-eq-ok (leb (value_from 0 amount) max_satoshis) _ _ h1 in
    (ground arith, ground arith)

pub parse_max_fee-same :
    (amount out : Text)
    → parse_max_fee_satoshis amount ≡ ok out
    → (out ≡ amount) × (value_from 0 amount ≤ max_fee_ceiling)
unfolding parse_max_fee_satoshis
parse_max_fee-same amount out h =
    let (_, h1) = require-eq-ok (is_satoshis amount) _ _ h in
    let (bound, h2) = require-eq-ok (leb (value_from 0 amount) max_fee_ceiling) _ _ h1 in
    (ground arith, ground arith)

module _ (host : BitcoinHost) where
  dust_floor-known :
      (destination : Text) (dust : ℕ)
      → dust_floor host destination ≡ ok dust
      → (type : Text) × (host.output_type destination ≡ some type)
        × (destination_dust type ≡ some dust)
  unfolding dust_floor
  dust_floor-known destination dust h = elim (Option-cases (host.output_type destination)) [
    | inl e ↦ absurd (ground arith)
    | inr (type, e) ↦ elim (Option-cases (destination_dust type)) [
      | inl d ↦ absurd (ground arith)
      | inr (least, d) ↦ (type, e, ground arith)
    ]
  ]

  -- Terms that parse name an address of a supported output type, and an amount of at least that
  -- type's dust floor, so of 294 satoshis, and at most 21 million bitcoin.
  pub parse_terms-bounds :
      (destination_value amount_value : Text) (terms : BitcoinPaymentTerms)
      → parse_bitcoin_payment_terms host destination_value amount_value ≡ ok terms
      → (terms.amount_sats ≡ amount_value)
        × (type : Text) × (dust : ℕ) × (host.output_type terms.destination ≡ some type)
        × (destination_dust type ≡ some dust)
        × (294 ≤ dust)
        × (dust ≤ value_from 0 terms.amount_sats)
        × (value_from 0 terms.amount_sats ≤ max_satoshis)
  unfolding parse_bitcoin_payment_terms
  parse_terms-bounds destination_value amount_value terms h =
      let (destination, _, h1) = bind-eq-ok (parse_bitcoin_address host destination_value) _ h in
      let (amount, parsed, h2) = bind-eq-ok (parse_bitcoin_satoshis amount_value) _ h1 in
      let (dust, floor, h3) = bind-eq-ok (dust_floor host destination) _ h2 in
      let (above, h4) = require-eq-ok (leb dust (value_from 0 amount)) _ _ h3 in
      let (same, supply) = parse_bitcoin_satoshis-same amount_value amount parsed in
      let (type, known, listed) = dust_floor-known destination dust floor in
      let place : destination ≡ terms.destination = cc in
      let sum : amount ≡ terms.amount_sats = cc in
      (
        sym sum ∙ same,
        type,
        dust,
        ap host.output_type (sym place) ∙ known,
        listed,
        destination_dust-least type dust listed,
        ground arith,
        rw (sym sum, same) supply,
      )
