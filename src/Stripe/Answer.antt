-- ===== src/Stripe/Answer.antt =====
-- What the answer of the transport leaves of a checkout in sovereign/src/processors/stripe-checkout.ts,
-- and the creation as a whole.
use cashloom.Prelude.{
  Bool, false, ◌&&◌, ◌||◌, not, Option, none, some, List, Text, lit, text_eq, any, update, Result,
  ok, err, ◌>>=◌, ◌>>◌, if◌then◌else◌,
}
use cashloom.Stripe.{
  StripeCheckoutStatus, CheckoutRow, StripeDb, PrepareStripeCheckout, StripeDirectCheckoutResponse,
  StripeHost, StripeError,
}
use cashloom.Stripe.Checkout.{
  status_eq, differs, coalesce, operation_of, checkout_row, validate_input,
  validate_return_base_url, account_for_checkout, committed_row, reserve, validate_response,
}

-- `CASE WHEN status = 'submitting' THEN … ELSE status END`
unfoldable pub when_submitting : StripeCheckoutStatus → StripeCheckoutStatus → StripeCheckoutStatus
when_submitting next s = if status_eq s StripeCheckoutStatus.submitting then next else s

unfoldable pub set_operation : Text → (CheckoutRow → CheckoutRow) → StripeDb → StripeDb
set_operation id f db = record db {
  operations = update (λ (r : CheckoutRow). text_eq r.id id) f db.operations;
}

abbrev pub set_unknown : Text → Text → CheckoutRow → CheckoutRow
set_unknown code now r = record r {
  status = when_submitting StripeCheckoutStatus.submission_unknown r.status;
  error_code = some code;
  updated_at = now;
}

unfoldable pub mark_submission_unknown : Text → Text → Text → StripeDb → StripeDb
mark_submission_unknown id code now = set_operation id (set_unknown code now)

abbrev pub set_submitted : Text → Option Text → Text → Text → CheckoutRow → CheckoutRow
set_submitted session payment_intent url now r = record r {
  checkout_session_id = coalesce r.checkout_session_id (some session);
  payment_intent_id = coalesce r.payment_intent_id payment_intent;
  checkout_url = some url;
  status = when_submitting StripeCheckoutStatus.submitted r.status;
  error_code = if status_eq r.status StripeCheckoutStatus.submitting then none else r.error_code;
  updated_at = now;
}

abbrev both_differ : Option Text → Option Text → Bool
both_differ held none = false
both_differ held (some id) = differs held id

-- The identifiers of the answer against those that a webhook has left.
unfoldable pub identity_conflict : CheckoutRow → Text → Option Text → Bool
identity_conflict current session payment_intent =
    differs current.checkout_session_id session
    || both_differ current.payment_intent_id payment_intent

-- The unique indexes: another operation with one of the identifiers that the row would have.
unfoldable pub index_conflict : CheckoutRow → List CheckoutRow → Bool
index_conflict row = any (λ (r : CheckoutRow).
    not (text_eq r.id row.id)
    && ((both_equal r.checkout_session_id row.checkout_session_id)
        || both_equal r.payment_intent_id row.payment_intent_id))
  where
    both_equal : Option Text → Option Text → Bool
    both_equal none b = false
    both_equal (some a) none = false
    both_equal (some a) (some b) = text_eq a b

-- The transaction `persist`, and the error note of its `catch`.
unfoldable pub persist_response : Text → Text → Option Text → Text → Text → StripeDb → StripeDb
persist_response id session payment_intent url now db = elim (operation_of id db.operations) [
  | none ↦ mark_submission_unknown id (lit "response_persistence_unknown") now db
  | some current ↦
      if identity_conflict current session payment_intent
      then mark_submission_unknown id (lit "provider_identity_conflict") now db
      else if index_conflict (set_submitted session payment_intent url now current) db.operations
      then mark_submission_unknown id (lit "response_persistence_unknown") now db
      else set_operation id (set_submitted session payment_intent url now) db
]

module _ (host : StripeHost) where
  -- What the answer of the transport leaves, or its failure.
  unfoldable pub settle_response :
      CheckoutRow
      → PrepareStripeCheckout
      → Option StripeDirectCheckoutResponse
      → Text
      → StripeDb
      → StripeDb
  settle_response row input none now db =
      mark_submission_unknown row.id (lit "transport_outcome_unknown") now db
  settle_response row input (some response) now db =
      elim (validate_response host response input row.currency) [
        | err e ↦ mark_submission_unknown row.id (lit "provider_response_mismatch") now db
        | ok url ↦ persist_response row.id response.id response.payment_intent url now db
      ]

  -- Everything before the egress.
  unfoldable pub start_checkout :
      PrepareStripeCheckout
      → Text
      → Text
      → Text
      → StripeDb
      → Result StripeError (CheckoutRow × Bool × StripeDb)
  start_checkout input base_url operation_id now db = do
    validate_input host input
    account ← account_for_checkout input.account_id db
    return_base_url ← validate_return_base_url host base_url
    reserve (committed_row host input account.0 account.1 return_base_url operation_id now) db

  -- `createStripeSandboxCheckout`: the transport sees the request, and leaves the database in which
  -- its answer arrives.
  unfoldable pub create_checkout :
      PrepareStripeCheckout
      → Text
      → Text
      → Text
      → (CheckoutRow → StripeDb → Option StripeDirectCheckoutResponse × StripeDb)
      → Text
      → StripeDb
      → Result StripeError (CheckoutRow × StripeDb)
  create_checkout input base_url operation_id now transport later db = do
    reserved ← start_checkout input base_url operation_id now db
    (if reserved.1
        then (let (response, arrived) = transport reserved.0 reserved.2 in
            let last = settle_response reserved.0 input response later arrived in
            checkout_row reserved.0.id last >>= λ row. ok (row, last))
        else ok (reserved.0, reserved.2))
