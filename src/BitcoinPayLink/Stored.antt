-- ===== src/BitcoinPayLink/Stored.antt =====
-- The stored outcome of a bound payment in sovereign/src/pay/bitcoin-pay-link.ts: the look-ups,
-- `resultFromPayment`, `assertStoredBindingPayment` and `assertHistoricalExecution`.
use cashloom.Prelude.{
  ℕ, Bool, true, ◌&&◌, ◌||◌, not, Option, none, some, Text, lit, text_eq, length, leb, ◌==◌, all,
  find, Result, ok, ◌>>=◌, ◌>>◌, require, map_err, non_null, if◌then◌else◌,
}
use cashloom.Payments.{Payment, PaymentStatus, status_eq}
use cashloom.Pay.{Binding}
use cashloom.Pay.Claim.{payment_of}
use cashloom.RecordStore.Reads.{local_execution_commitment_for}
use cashloom.BitcoinPayLink.{
  LinkError, Node, ExecutionContext, ExecutionReview, ExecutionStatus, OutcomeNote, ExecutionResult,
  LinkHost,
}
use cashloom.BitcoinPayLink.Asserts.{storage_failure, is_non_null, assert_timestamp}
use cashloom.BitcoinPayLink.Context.{historical_context}
use cashloom.BitcoinPayLink.Review.{
  binding_bytes, check_identifiers, check_payload, execution_review, validate_commitment,
}

unfoldable pub payment_row : Text → Node → Result LinkError Payment
payment_row payment_id node = non_null storage_failure (payment_of payment_id node.pay.payments)

unfoldable pub binding_for_intent : Text → Node → Option Binding
binding_for_intent intent_record_id node =
    find (λ (b : Binding). text_eq b.intent_record_id intent_record_id) node.pay.bindings

unfoldable pub binding_for_review : Text → Text → Node → Option Binding
binding_for_review payment_id review_id node =
    find (λ (b : Binding). text_eq b.payment_id payment_id && text_eq b.review_id review_id)
      node.pay.bindings

abbrev is_hex : ℕ → Bool
is_hex c = (leb b'0' c && leb c b'9') || (leb b'a' c && leb c b'f')

-- `BITCOIN_TXID`
unfoldable pub is_txid : Text → Bool
is_txid s = length s == 64 && all is_hex s

abbrev pub is_quoted : Payment → Bool
is_quoted p = status_eq p.status PaymentStatus.quoted

unfoldable pub execution_status : Payment → ExecutionStatus
execution_status p =
    if status_eq p.status PaymentStatus.broadcast
    then ExecutionStatus.broadcast
    else if status_eq p.status PaymentStatus.failed && not (is_non_null p.tx_hash)
    then ExecutionStatus.failed
    else ExecutionStatus.broadcast_unknown

abbrev outcome_note : ExecutionStatus → Option Text → OutcomeNote
outcome_note ExecutionStatus.broadcast tx_hash = OutcomeNote.needs_reconciliation
outcome_note ExecutionStatus.failed tx_hash = OutcomeNote.failed_before_egress
outcome_note ExecutionStatus.broadcast_unknown none = OutcomeNote.claim_began
outcome_note ExecutionStatus.broadcast_unknown (some t) = OutcomeNote.outcome_unknown

unfoldable pub result_from_payment : Payment → Text → ExecutionResult
result_from_payment p review_id = record {
  payment_id = p.id;
  review_id = review_id;
  status = execution_status p;
  tx_hash = p.tx_hash;
  error = elim p.error [
    | none ↦ none
    | some message ↦ some (outcome_note (execution_status p) p.tx_hash)
  ];
}

abbrev null_or_txid : Option Text → Bool
null_or_txid none = true
null_or_txid (some t) = is_txid t

-- The shapes of status, transaction and error that a row of the rite can have. The status is one of
-- the four, and an error is text, by the types.
unfoldable pub is_possible : Payment → Bool
is_possible p =
    null_or_txid p.tx_hash
    && not (is_quoted p && is_non_null p.tx_hash)
    && not (is_quoted p && is_non_null p.error)
    && not (status_eq p.status PaymentStatus.broadcast && not (is_non_null p.tx_hash))
    && not (status_eq p.status PaymentStatus.failed && not (is_non_null p.error))

module _ (host : LinkHost) where
  unfoldable pub assert_stored_binding_payment : Binding → Payment → Result LinkError (Unit {0})
  assert_stored_binding_payment binding p = do
    require
        (text_eq binding.payment_id p.id
          && text_eq binding.account_id p.account_id
          && text_eq p.rail (lit "btc")
          && text_eq p.asset (lit "BTC"))
        storage_failure
    require (is_possible p) storage_failure
    assert_timestamp host p.created_at
    check_identifiers host binding
    check_payload host binding

  abbrev committed :
      Node → Binding → ExecutionContext → ExecutionReview → Result LinkError (Unit {0})
  committed node binding context review = do
    held ← map_err LinkError.store (
        local_execution_commitment_for host.protocol context.intent.record_id
          context.intent.authority.key_id node.store)
    commitment ← non_null storage_failure held
    validate_commitment host commitment context binding review.digest.confirm_before none

  -- A claimed payment has its commitment; whatever is wrong with that is an integrity failure.
  unfoldable pub assert_committed :
      Node → Binding → Payment → ExecutionContext → ExecutionReview → Result LinkError (Unit {0})
  assert_committed node binding p context review =
      if is_quoted p
      then ok tt
      else map_err (λ _. storage_failure) (committed node binding context review)

  abbrev derives : Binding → Text → Result LinkError (Unit {0})
  derives binding tx_hash = do
    payload ← binding_bytes binding.unsigned_payload
    expected ← map_err (λ _. storage_failure) (host.txid_of payload)
    require (text_eq tx_hash expected) storage_failure

  -- A recorded transaction is the one that the reviewed payload signs to.
  unfoldable pub assert_txid : Binding → Payment → Result LinkError (Unit {0})
  assert_txid binding p = elim p.tx_hash [ none ↦ ok tt | some tx_hash ↦ derives binding tx_hash ]

  unfoldable pub assert_historical_execution :
      Node → Binding → Payment → Result LinkError (Unit {0})
  assert_historical_execution node binding p = do
    assert_stored_binding_payment binding p
    context ← historical_context host node binding.intent_record_id binding.account_id
    review ← execution_review host binding p context
    assert_committed node binding p context review
    assert_txid binding p
