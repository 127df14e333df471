-- ===== src/BitcoinProfile.antt =====
-- The closed Bitcoin profile of sovereign/src/protocol/v2/bitcoin-profile.ts: addresses, amounts and
-- the fee ceiling of a Pay Link.
mod Bounds
mod Tests
use cashloom.Prelude.{
  ℕ, ◌*◌, ◌^◌, Bool, true, false, ◌&&◌, ◌||◌, not, Option, none, some, List, [], ◌∷◌, Text, lit,
  text_eq, trim, take, leb, ltb, ◌==◌, all, Result, ok, err, ◌>>=◌, ◌>>◌, require, if◌then◌else◌,
}
use cashloom.MinorUnits.{is_digit, value_from}

-- One constructor for each `throw`.
pub data ProfileError : Type 0 where
  invalid_address unsupported_output_type : ProfileError
  invalid_amount above_supply invalid_max_fee above_fee_ceiling below_dust : ProfileError

-- The address decoder of @scure/btc-signer (`none` where it throws, and the type of output
-- otherwise), and the engine's case mappings.
pub record BitcoinHost : Type 0 where
  pub output_type : Text → Option Text
  pub to_upper : Text → Text
  pub to_lower : Text → Text

pub record BitcoinPaymentTerms : Type 0 where
  pub destination : Text
  pub amount_sats : Text

abbrev pub bitcoin_mainnet_asset_id : Text
bitcoin_mainnet_asset_id = lit "bip122:000000000019d6689c085ae165831e93/slip44:0"

abbrev pub bitcoin_mainnet_rail : Text
bitcoin_mainnet_rail = lit "bitcoin-mainnet"

-- BITCOIN_MAX_SATOSHIS
abbrev pub max_satoshis : ℕ
max_satoshis = 21 * 10 ^ 14

-- BITCOIN_PAY_LINK_MAX_FEE_SATOSHIS
abbrev pub max_fee_ceiling : ℕ
max_fee_ceiling = 10 ^ 8

-- `DESTINATION_DUST_SATS[type]`
unfoldable pub destination_dust : Text → Option ℕ
destination_dust type =
    if text_eq type (lit "wpkh")
    then some 294
    else if text_eq type (lit "wsh") || text_eq type (lit "tr")
    then some 330
    else if text_eq type (lit "sh")
    then some 540
    else if text_eq type (lit "pkh")
    then some 546
    else none

-- `/^[1-9][0-9]*$/`
unfoldable pub is_positive_satoshis : Text → Bool
is_positive_satoshis [] = false
is_positive_satoshis (c ∷ s) = leb b'1' c && leb c b'9' && all is_digit s

-- `/^(0|[1-9][0-9]*)$/`
unfoldable pub is_satoshis : Text → Bool
unfolding is_positive_satoshis
is_satoshis s = text_eq s (lit "0") || is_positive_satoshis s

unfoldable pub parse_bitcoin_satoshis : Text → Result ProfileError Text
parse_bitcoin_satoshis amount = do
  require (is_positive_satoshis amount) ProfileError.invalid_amount
  require (leb (value_from 0 amount) max_satoshis) ProfileError.above_supply
  ok amount

unfoldable pub parse_max_fee_satoshis : Text → Result ProfileError Text
parse_max_fee_satoshis amount = do
  require (is_satoshis amount) ProfileError.invalid_max_fee
  require (leb (value_from 0 amount) max_fee_ceiling) ProfileError.above_fee_ceiling
  ok amount

module _ (host : BitcoinHost) where
  -- An upper-case Bech32 address, as a QR code may hold it, in lower case.
  unfoldable pub canonical_case : Text → Text
  canonical_case destination =
      if text_eq (take 3 destination) (lit "BC1") && text_eq destination (host.to_upper destination)
      then host.to_lower destination
      else destination

  unfoldable pub dust_floor : Text → Result ProfileError ℕ
  dust_floor destination = elim (host.output_type destination) [
    | none ↦ err ProfileError.invalid_address
    | some type ↦ elim (destination_dust type) [
      | none ↦ err ProfileError.unsupported_output_type
      | some dust ↦ ok dust
    ]
  ]

  unfoldable pub parse_bitcoin_address : Text → Result ProfileError Text
  parse_bitcoin_address value = do
    let destination = canonical_case (trim value)
    supported ← dust_floor destination
    ok destination

  unfoldable pub parse_bitcoin_payment_terms : Text → Text → Result ProfileError BitcoinPaymentTerms
  parse_bitcoin_payment_terms destination_value amount_value = do
    destination ← parse_bitcoin_address destination_value
    amount_sats ← parse_bitcoin_satoshis amount_value
    dust ← dust_floor destination
    require (leb dust (value_from 0 amount_sats)) ProfileError.below_dust
    ok (record { destination = destination; amount_sats = amount_sats })
