-- ===== src/BitcoinPayLink/Asserts.antt =====
-- The checks of sovereign/src/pay/bitcoin-pay-link.ts on an account, the asset policy and an intent.
use cashloom.Prelude.{
  Bool, true, false, ◌&&◌, Option, none, some, List, [], ◌∷◌, Text, lit, text_eq, trim, ◌==◌, find,
  Result, ok, err, ◌>>=◌, ◌>>◌, require, map_err, non_null,
}
use cashloom.Pay.{Account}
use cashloom.Records.{
  NodeRole, AssetTrustBinding, NodeDescriptor, PaymentIntent, Body, V2Record, ProtocolError,
}
use cashloom.Records.Link.{is_some_text, assert_immediate_link}
use cashloom.Records.Chain.{active_when}
use cashloom.RecordStore.{StoreDb}
use cashloom.RecordStore.Reads.{get_local}
use cashloom.AssetTrust.Evaluate.{evaluate_asset_trust}
use cashloom.BitcoinProfile.{
  bitcoin_mainnet_rail, bitcoin_mainnet_asset_id, parse_bitcoin_address, parse_max_fee_satoshis,
  parse_bitcoin_payment_terms,
}
use cashloom.BitcoinPayLink.{LinkCode, LinkError, VaultKey, Node, ExecutionAccountRow, LinkHost}

abbrev pub link_error : LinkCode → LinkError
link_error code = LinkError.link code

abbrev pub storage_failure : LinkError
storage_failure = LinkError.link LinkCode.storage_integrity_failure

abbrev pub is_payer : NodeRole → Bool
is_payer NodeRole.payer = true
is_payer _ = false

-- The store has checked the schema of what it returns as an intent or a descriptor, so that the
-- other cases are never met.
unfoldable pub as_intent : Body → Result LinkError PaymentIntent
as_intent (Body.payment_intent intent) = ok intent
as_intent _ = err storage_failure

unfoldable pub as_descriptor : Body → Result LinkError NodeDescriptor
as_descriptor (Body.node_descriptor descriptor) = ok descriptor
as_descriptor _ = err storage_failure

-- A manifest record's exact canonical text; any other schema is refused.
unfoldable pub as_manifest : Body → Result LinkError Text
as_manifest (Body.asset_trust_manifest text) = ok text
as_manifest _ = err (link_error LinkCode.asset_policy_rejected)

abbrev pub key_of : Option Text → List VaultKey → Option VaultKey
key_of none keys = none
key_of (some id) keys = find (λ (k : VaultKey). text_eq k.id id) keys

abbrev pub kind_of : Option VaultKey → Option Text
kind_of none = none
kind_of (some k) = some k.kind

abbrev pub address_of : Option VaultKey → Option Text
address_of none = none
address_of (some k) = k.address

-- The row of `accounts LEFT JOIN vault_keys`
unfoldable pub joined_row : List VaultKey → Account → ExecutionAccountRow
joined_row keys a =
    let key = key_of a.vault_key_id keys in
    record {
      id = a.id;
      rail = a.rail;
      display_name = a.display_name;
      currency = a.currency;
      decimals = a.decimals;
      external_account_id = a.external_account_id;
      vault_key_id = a.vault_key_id;
      status = a.active;
      key_kind = kind_of key;
      key_address = address_of key;
    }

unfoldable pub account_row : Text → Node → Result LinkError ExecutionAccountRow
account_row account_id node = do
  a ←
      non_null (link_error LinkCode.account_source_mismatch)
        (find (λ (x : Account). text_eq x.id account_id) node.pay.accounts)
  ok (joined_row node.vault_keys a)

abbrev pub is_non_null {ℓ} : {A : Type ℓ} → Option A → Bool
is_non_null none = false
is_non_null (some a) = true

unfoldable pub is_btc_account : ExecutionAccountRow → Bool
is_btc_account row =
    text_eq row.status (lit "ACTIVE")
    && text_eq row.rail (lit "CRYPTO")
    && text_eq row.currency (lit "BTC")
    && row.decimals == 8
    && is_non_null row.vault_key_id
    && is_some_text row.key_kind (lit "btc")

module _ (host : LinkHost) where
  -- An address of the account must parse, and be the source that the intent signs.
  unfoldable pub matches_source : Text → Text → Result LinkError (Unit {0})
  matches_source source address = do
    parsed ←
        map_err (λ _. link_error LinkCode.account_source_mismatch)
          (parse_bitcoin_address host.bitcoin address)
    require (text_eq parsed source) (link_error LinkCode.account_source_mismatch)

  -- NULL, and white space, are no configured address.
  abbrev pub external_matches : Text → Option Text → Result LinkError (Unit {0})
  external_matches source none = ok tt
  external_matches source (some address) = elim (trim address) [
    | [] ↦ ok tt
    | c ∷ s ↦ matches_source source address
  ]

  unfoldable pub assert_execution_account :
      ExecutionAccountRow → Text → Result LinkError ExecutionAccountRow
  assert_execution_account row source_account = do
    source ← map_err LinkError.profile (parse_bitcoin_address host.bitcoin source_account)
    require (is_btc_account row) (link_error LinkCode.account_source_mismatch)
    address ← non_null (link_error LinkCode.account_source_mismatch) row.key_address
    matches_source source address
    external_matches source row.external_account_id
    ok row

  -- `verifyV2Record` on a record in hand; `none` asks for no activity.
  unfoldable pub verify_at : V2Record → Option Text → Result ProtocolError V2Record
  verify_at value now = do r ← host.verify_record value; active_when host.protocol r now; ok r

  -- `verifyV2RecordLink` on records in hand
  unfoldable pub verify_link : V2Record → V2Record → Result ProtocolError (Unit {0})
  verify_link child_value parent_value = do
    child ← host.verify_record child_value
    parent ← host.verify_record parent_value
    assert_immediate_link host.protocol child parent

  unfoldable pub assert_id : Text → Result LinkError (Unit {0})
  assert_id id = require (host.protocol.is_sha256_id id) LinkError.assertion

  unfoldable pub assert_timestamp : Text → Result LinkError (Unit {0})
  assert_timestamp value = require (host.protocol.is_timestamp value) LinkError.assertion

  unfoldable pub assert_trust_binding :
      StoreDb → AssetTrustBinding → Text → Option Text → Result LinkError (Unit {0})
  assert_trust_binding store binding expected_asset now = do
    held ← map_err LinkError.store (get_local host.protocol binding.manifest_record_id store)
    stored ← non_null (link_error LinkCode.asset_policy_rejected) held
    a_manifest ← as_manifest stored.body
    r ← map_err LinkError.protocol (verify_at stored now)
    text ← as_manifest r.body
    let manifest = host.manifest_of text
    require
        (text_eq r.authority.key_id binding.manifest_authority_key_id
          && text_eq manifest.asset_id expected_asset
          && text_eq manifest.rail bitcoin_mainnet_rail)
        (link_error LinkCode.asset_policy_rejected)
    decision ←
        map_err LinkError.trust
          (evaluate_asset_trust host.trust manifest (host.policy_of binding.policy))
    require (decision.accepted && text_eq decision.policy_hash binding.policy_hash)
        (link_error LinkCode.asset_policy_rejected)

  unfoldable pub assert_bitcoin_intent :
      StoreDb → PaymentIntent → Option Text → Result LinkError (Unit {0})
  assert_bitcoin_intent store intent now = do
    require
        (text_eq intent.rail bitcoin_mainnet_rail
          && text_eq intent.asset_id bitcoin_mainnet_asset_id
          && text_eq intent.fee_asset_id bitcoin_mainnet_asset_id
          && text_eq intent.fee_limit_scope (lit "total_fee_asset_exposure"))
        (link_error LinkCode.wrong_bitcoin_profile)
    terms ←
        map_err LinkError.profile
          (parse_bitcoin_payment_terms host.bitcoin intent.destination intent.amount_atomic)
    source ← map_err LinkError.profile (parse_bitcoin_address host.bitcoin intent.source_account)
    max_fee ← map_err LinkError.profile (parse_max_fee_satoshis intent.max_fee_atomic)
    require
        (text_eq terms.destination intent.destination
          && text_eq terms.amount_sats intent.amount_atomic
          && text_eq source intent.source_account
          && text_eq max_fee intent.max_fee_atomic)
        (link_error LinkCode.wrong_bitcoin_profile)
    assert_trust_binding store intent.payment_asset_trust bitcoin_mainnet_asset_id now
    assert_trust_binding store intent.fee_asset_trust bitcoin_mainnet_asset_id now
