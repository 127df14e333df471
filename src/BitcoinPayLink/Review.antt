-- ===== src/BitcoinPayLink/Review.antt =====
-- The review of sovereign/src/pay/bitcoin-pay-link.ts: `reviewDigest`, `executionReview`,
-- `draftBinding`, `validateCommitment` and the comparison of the two expiries.
use cashloom.Prelude.{
  ℕ, ◌+◌, Bool, true, false, ◌&&◌, not, Option, none, some, List, [], ◌∷◌, Text, lit, text_eq, leb,
  Result, ok, err, ◌>>=◌, ◌>>◌, require, map_err, non_null, if◌then◌else◌,
}
use cashloom.Payments.{Payment}
use cashloom.Pay.{Binding}
use cashloom.Pay.Quote.{PaymentQuoteDraft}
use cashloom.Records.{Body, ExecutionCommitment, V2Record}
use cashloom.Records.Link.{reached}
use cashloom.MinorUnits.{value_from, decimal}
use cashloom.BitcoinProfile.{is_satoshis}
use cashloom.BitcoinPayLink.{
  LinkCode, LinkError, ExecutionContext, ReviewDigest, ExecutionReview, LinkHost,
  review_placeholder,
}
use cashloom.BitcoinPayLink.Asserts.{
  link_error, storage_failure, assert_id, assert_timestamp, verify_at, verify_link,
}

-- `BigInt(text)` of a text that `SATOSHIS` admits
abbrev pub sats : Text → ℕ
sats = value_from 0

-- `bindingBytes`
unfoldable pub binding_bytes : List ℕ → Result LinkError (List ℕ)
binding_bytes [] = err storage_failure
binding_bytes (b ∷ bytes) = ok (b ∷ bytes)

-- A stored fee, which must be a number of satoshis.
unfoldable pub stored_fee : Option Text → Result LinkError Text
stored_fee none = err storage_failure
stored_fee (some fee) = if is_satoshis fee then ok fee else err storage_failure

unfoldable pub row_matches : Binding → Payment → ExecutionContext → Bool
row_matches binding payment context =
    text_eq payment.id binding.payment_id
    && text_eq payment.account_id binding.account_id
    && text_eq payment.account_id context.account.id
    && text_eq binding.intent_record_id context.intent.record_id
    && text_eq payment.rail (lit "btc")
    && text_eq payment.asset (lit "BTC")
    && text_eq payment.to_addr context.terms.destination
    && text_eq payment.amount_minor context.terms.amount_atomic

abbrev same_text_option : Option Text → Option Text → Bool
same_text_option none none = true
same_text_option (some a) (some b) = text_eq a b
same_text_option _ _ = false

unfoldable pub draft_matches : PaymentQuoteDraft → ExecutionContext → Bool
draft_matches draft context =
    text_eq draft.payment.account_id context.account.id
    && same_text_option draft.vault_key_id context.account.vault_key_id
    && text_eq draft.payment.rail (lit "btc")
    && text_eq draft.payment.to_addr context.terms.destination
    && text_eq draft.payment.asset (lit "BTC")
    && text_eq draft.payment.amount_minor context.terms.amount_atomic
    && text_eq draft.fee_asset (lit "BTC")

unfoldable pub as_commitment : Body → Result LinkError ExecutionCommitment
as_commitment (Body.execution_commitment commitment) = ok commitment
as_commitment _ = err storage_failure

module _ (host : LinkHost) where
  -- `Date.parse(left) <= Date.parse(right) ? left : right`
  unfoldable pub earlier_timestamp : Text → Text → Text
  earlier_timestamp left right =
      if reached (host.engine.date_parse right) (host.engine.date_parse left) then left else right

  -- `Date.parse(now) >= Date.parse(deadline)`
  unfoldable pub is_over : Text → Text → Bool
  is_over now deadline = reached (host.engine.date_parse now) (host.engine.date_parse deadline)

  unfoldable pub check_identifiers : Binding → Result LinkError (Unit {0})
  check_identifiers binding = do
    assert_id host binding.intent_record_id
    assert_id host binding.review_id
    assert_id host binding.reservation_id
    assert_id host binding.unsigned_payload_hash

  unfoldable pub check_payload : Binding → Result LinkError (Unit {0})
  check_payload binding = do
    payload ← binding_bytes binding.unsigned_payload
    require (text_eq (host.engine.sha256_bytes_id payload) binding.unsigned_payload_hash)
        storage_failure

  unfoldable pub digest_of : Binding → Payment → ExecutionContext → Text → ReviewDigest
  digest_of binding payment context fee = record {
    payment_id = payment.id;
    intent_record_id = context.intent.record_id;
    request_record_id = context.request.record_id;
    merchant_key_id = context.intent.audience;
    account_id = context.account.id;
    source_address = context.terms.source_account;
    destination = context.terms.destination;
    amount_sats = context.terms.amount_atomic;
    fee_sats = fee;
    total_sats = decimal (sats context.terms.amount_atomic + sats fee);
    max_fee_sats = context.terms.max_fee_atomic;
    reservation_id = binding.reservation_id;
    unsigned_payload_hash = binding.unsigned_payload_hash;
    quote_expires_at = binding.quote_expires_at;
    intent_expires_at = context.intent.expires_at;
    confirm_before = earlier_timestamp binding.quote_expires_at context.intent.expires_at;
  }

  unfoldable pub review_digest :
      Binding → Payment → ExecutionContext → Result LinkError ReviewDigest
  review_digest binding payment context = do
    require (row_matches binding payment context) storage_failure
    fee ← stored_fee payment.fee_minor
    assert_timestamp host binding.quote_expires_at
    assert_timestamp host binding.created_at
    check_identifiers binding
    check_payload binding
    require (leb (sats fee) (sats context.terms.max_fee_atomic))
        (link_error LinkCode.fee_limit_exceeded)
    ok (digest_of binding payment context fee)

  unfoldable pub execution_review :
      Binding → Payment → ExecutionContext → Result LinkError ExecutionReview
  execution_review binding payment context = do
    digest ← review_digest binding payment context
    require (text_eq (host.review_sha256_id digest) binding.review_id) storage_failure
    ok (record {
      review_id = host.review_sha256_id digest;
      digest = digest;
      account_label = context.account.display_name;
    })

  unfoldable pub reservation_of : PaymentQuoteDraft → ExecutionContext → Text → Text
  reservation_of draft context hash = host.reservation_sha256_id (record {
    intent_record_id = context.intent.record_id;
    payment_id = draft.payment.id;
    account_id = context.account.id;
    unsigned_payload_hash = hash;
  })

  unfoldable pub unreviewed : PaymentQuoteDraft → ExecutionContext → List ℕ → Text → Binding
  unreviewed draft context payload hash = record {
    intent_record_id = context.intent.record_id;
    payment_id = draft.payment.id;
    account_id = context.account.id;
    review_id = review_placeholder;
    reservation_id = reservation_of draft context hash;
    unsigned_payload = payload;
    unsigned_payload_hash = hash;
    quote_expires_at = draft.expires_at;
    created_at = draft.payment.created_at;
  }

  -- The fee of a draft is the text of its row, which is never NULL there.
  unfoldable pub draft_binding :
      PaymentQuoteDraft → ExecutionContext → Text → Result LinkError Binding
  draft_binding draft context now = do
    let conflict = link_error LinkCode.execution_conflict
    require (draft_matches draft context) conflict
    fee ← map_err (λ _. conflict) (stored_fee draft.payment.fee_minor)
    payload ← non_null conflict draft.unsigned_payload
    hash ← non_null conflict draft.unsigned_payload_hash
    require (text_eq (host.engine.sha256_bytes_id payload) hash) conflict
    require (leb (sats fee) (sats context.terms.max_fee_atomic))
        (link_error LinkCode.fee_limit_exceeded)
    require (not (is_over now (earlier_timestamp draft.expires_at context.intent.expires_at)))
        (link_error LinkCode.review_expired)
    let binding = unreviewed draft context payload hash
    digest ← review_digest binding draft.payment context
    ok (record binding { review_id = host.review_sha256_id digest })

  unfoldable pub validate_commitment :
      V2Record → ExecutionContext → Binding → Text → Option Text → Result LinkError (Unit {0})
  validate_commitment commitment context binding confirm_before now = do
    verified ← map_err LinkError.protocol (verify_at host commitment now)
    map_err LinkError.protocol (verify_link host commitment context.intent)
    body ← as_commitment commitment.body
    require
        (text_eq body.reservation_id binding.reservation_id
          && text_eq body.unsigned_payload_hash binding.unsigned_payload_hash
          && text_eq commitment.expires_at confirm_before)
        (link_error LinkCode.execution_conflict)
