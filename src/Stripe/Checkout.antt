-- ===== src/Stripe/Checkout.antt =====
-- The creation of a hosted checkout in sovereign/src/processors/stripe-checkout.ts: the checks of the
-- input, the committed request, the reservation before egress, and what the answer leaves.
use cashloom.Prelude.{
  ℕ, Bool, true, false, ◌&&◌, ◌||◌, not, Option, none, some, List, [], ◌∷◌, ◌++◌, Text, lit,
  text_eq, trim, includes, length, leb, ◌==◌, all, any, find, Result, ok, err, ◌>>=◌, ◌>>◌, require,
  non_null, if◌then◌else◌,
}
use cashloom.Pay.{Account}
use cashloom.MinorUnits.{value_from, drop}
use cashloom.BitcoinProfile.{is_positive_satoshis}
use cashloom.Stripe.{
  StripeCheckoutStatus, CheckoutRow, StripeDb, PrepareStripeCheckout, StripeDirectCheckoutRequest,
  StripeDirectCheckoutResponse, Url, StripeHost, StripeError, is_upper, matches, each_of, is_uuid,
  is_connected_account, is_checkout_session, is_payment_intent, max_safe_integer,
  stripe_decimals_for,
}

unfoldable pub status_eq : StripeCheckoutStatus → StripeCheckoutStatus → Bool
status_eq StripeCheckoutStatus.prepared StripeCheckoutStatus.prepared = true
status_eq StripeCheckoutStatus.submitting StripeCheckoutStatus.submitting = true
status_eq StripeCheckoutStatus.submitted StripeCheckoutStatus.submitted = true
status_eq StripeCheckoutStatus.submission_unknown StripeCheckoutStatus.submission_unknown = true
status_eq StripeCheckoutStatus.provider_reported_paid StripeCheckoutStatus.provider_reported_paid =
    true
status_eq StripeCheckoutStatus.expired StripeCheckoutStatus.expired = true
status_eq StripeCheckoutStatus.rejected StripeCheckoutStatus.rejected = true
status_eq _ _ = false

abbrev pub option_is : Option Text → Text → Bool
option_is none t = false
option_is (some x) t = text_eq x t

-- A column that is set to something else: `a !== null && a !== b`.
abbrev pub differs : Option Text → Text → Bool
differs none t = false
differs (some x) t = not (text_eq x t)

-- `COALESCE(a, b)`
abbrev pub coalesce : Option Text → Option Text → Option Text
coalesce none b = b
coalesce (some a) b = some a

unfoldable pub operation_of : Text → List CheckoutRow → Option CheckoutRow
operation_of id = find (λ (r : CheckoutRow). text_eq r.id id)

unfoldable pub operation_for_intent : Text → List CheckoutRow → Option CheckoutRow
operation_for_intent intent_id = find (λ (r : CheckoutRow). text_eq r.intent_id intent_id)

unfoldable pub checkout_row : Text → StripeDb → Result StripeError CheckoutRow
checkout_row id db = non_null StripeError.operation_disappeared (operation_of id db.operations)

abbrev is_clean : ℕ → Bool
is_clean c = not (leb c 0x1f) && not (c == 0x7f)

-- `AMOUNT` is the pattern of a positive integer.
unfoldable pub validate_amount : Text → Result StripeError (Unit {0})
validate_amount amount =
    require
      (leb (length amount) 16
        && is_positive_satoshis amount
        && leb (value_from 0 amount) max_safe_integer)
      StripeError.bad_amount

-- The account, with its connected account's id.
unfoldable pub account_for_checkout : Text → StripeDb → Result StripeError (Account × Text)
account_for_checkout account_id db = do
  require (is_uuid account_id) StripeError.bad_account_id
  account ← non_null StripeError.no_account (
      find
        (λ (a : Account).
          text_eq a.id account_id
          && text_eq a.rail (lit "STRIPE")
          && text_eq a.active (lit "ACTIVE"))
        db.accounts)
  connected ← non_null StripeError.no_connected_account account.external_account_id
  require (is_connected_account connected) StripeError.no_connected_account
  require (matches (each_of 3 is_upper []) account.currency) StripeError.bad_currency
  require (account.decimals == stripe_decimals_for account.currency) StripeError.wrong_decimals
  ok (account, connected)

-- Whether a row commits to the same request as another.
unfoldable pub same_request : CheckoutRow → CheckoutRow → Bool
same_request held row =
    text_eq held.account_id row.account_id
    && text_eq held.connected_account_id row.connected_account_id
    && text_eq held.currency row.currency
    && text_eq held.amount_minor row.amount_minor
    && text_eq held.purpose row.purpose
    && text_eq held.return_base_url row.return_base_url
    && text_eq held.idempotency_key row.idempotency_key
    && text_eq held.request_sha256 row.request_sha256
    && text_eq held.request_json row.request_json

-- `INSERT INTO stripe_checkout_operations`, with its keys.
unfoldable pub insert_operation : CheckoutRow → StripeDb → Result StripeError StripeDb
insert_operation row db =
    if any
      (λ (r : CheckoutRow).
        text_eq r.id row.id
        || text_eq r.intent_id row.intent_id
        || text_eq r.idempotency_key row.idempotency_key)
      db.operations
    then err StripeError.duplicate_key
    else ok (record db { operations = db.operations ++ row ∷ [] })

-- The transaction `reserve`: the row, whether this call is to submit it, and the table.
unfoldable pub reserve : CheckoutRow → StripeDb → Result StripeError (CheckoutRow × Bool × StripeDb)
reserve row db = elim (operation_for_intent row.intent_id db.operations) [
  | some held ↦
      if same_request held row then ok (held, false, db) else err StripeError.different_request
  | none ↦ do next ← insert_operation row db; ok (row, true, next)
]

module _ (host : StripeHost) where
  unfoldable pub validate_purpose : Text → Result StripeError (Unit {0})
  validate_purpose purpose =
      require
        (text_eq purpose (trim purpose)
          && not (length purpose == 0)
          && leb (host.utf8_length purpose) 120
          && all is_clean purpose)
        StripeError.bad_purpose

  unfoldable pub validate_input : PrepareStripeCheckout → Result StripeError (Unit {0})
  validate_input input = do
    require (is_uuid input.intent_id) StripeError.bad_intent_id
    validate_amount input.amount_minor
    validate_purpose input.purpose

  abbrev is_loopback : Url → Bool
  is_loopback url = includes url.hostname (lit "127.0.0.1" ∷ lit "localhost" ∷ lit "[::1]" ∷ [])

  unfoldable pub validate_return_base_url : Text → Result StripeError Text
  validate_return_base_url value = do
    require (not (length value == 0) && leb (length value) 2048) StripeError.bad_return_url
    url ← non_null StripeError.bad_return_url (host.parse_url value)
    require
        ((text_eq url.protocol (lit "https:")
            || (text_eq url.protocol (lit "http:") && is_loopback url))
          && text_eq url.username []
          && text_eq url.password []
          && text_eq url.search []
          && text_eq url.hash []
          && (text_eq url.pathname [] || text_eq url.pathname (lit "/")))
        StripeError.bad_return_url
    ok url.origin

  unfoldable pub compile_request :
      PrepareStripeCheckout → Account → Text → Text → StripeDirectCheckoutRequest
  compile_request input account connected return_base_url = record {
    connected_account_id = connected;
    idempotency_key =
        lit "cashloom-checkout-v1-"
        ++ drop 7 (host.sha256_text (lit "cashloom.stripe-checkout/0.1" ++ 0 ∷ input.intent_id));
    form =
        (lit "mode", lit "payment")
        ∷ (lit "payment_method_types[0]", lit "card")
        ∷ (lit "line_items[0][price_data][currency]", host.to_lower account.currency)
        ∷ (lit "line_items[0][price_data][product_data][name]", input.purpose)
        ∷ (lit "line_items[0][price_data][unit_amount]", input.amount_minor)
        ∷ (lit "line_items[0][quantity]", lit "1")
        ∷ (lit "client_reference_id", input.intent_id)
        ∷ (lit "metadata[cashloom_intent_id]", input.intent_id)
        ∷ (lit "payment_intent_data[metadata][cashloom_intent_id]", input.intent_id)
        ∷ (
          lit "success_url",
          return_base_url ++ lit "/pay/stripe/return?session_id={CHECKOUT_SESSION_ID}",
        )
        ∷ (lit "cancel_url", return_base_url ++ lit "/pay/stripe/cancel")
        ∷ [];
  }

  -- The row that a request commits to, before any egress.
  unfoldable pub committed_row :
      PrepareStripeCheckout → Account → Text → Text → Text → Text → CheckoutRow
  committed_row input account connected return_base_url operation_id now =
      let request = compile_request input account connected return_base_url in
      record {
        id = operation_id;
        intent_id = input.intent_id;
        account_id = account.id;
        connected_account_id = connected;
        currency = account.currency;
        amount_minor = input.amount_minor;
        purpose = input.purpose;
        return_base_url = return_base_url;
        idempotency_key = request.idempotency_key;
        request_sha256 = host.sha256_text (host.canonical_json request);
        request_json = host.canonical_json request;
        status = StripeCheckoutStatus.submitting;
        checkout_session_id = none;
        payment_intent_id = none;
        checkout_url = none;
        error_code = none;
        created_at = now;
        updated_at = now;
      }

  unfoldable pub validate_checkout_url : Option Text → Result StripeError Text
  validate_checkout_url value = do
    text ← non_null StripeError.bad_checkout_url value
    require (leb (length text) 2048) StripeError.bad_checkout_url
    url ← non_null StripeError.bad_checkout_url (host.parse_url text)
    require
        (text_eq url.protocol (lit "https:")
          && text_eq url.hostname (lit "checkout.stripe.com")
          && text_eq url.username []
          && text_eq url.password [])
        StripeError.bad_checkout_url
    ok text

  abbrev null_or_payment_intent : Option Text → Bool
  null_or_payment_intent none = true
  null_or_payment_intent (some id) = is_payment_intent id

  abbrev upper_is : Option Text → Text → Bool
  upper_is none currency = false
  upper_is (some c) currency = text_eq (host.to_upper c) currency

  -- The URL of an answer that matches the request.
  unfoldable pub validate_response :
      StripeDirectCheckoutResponse → PrepareStripeCheckout → Text → Result StripeError Text
  validate_response response input currency = do
    require
        (response.is_checkout_session
          && response.is_sandbox
          && is_checkout_session response.id
          && option_is response.client_reference_id input.intent_id
          && upper_is response.currency currency
          && option_is response.amount_total input.amount_minor
          && option_is response.metadata_intent input.intent_id
          && null_or_payment_intent response.payment_intent)
        StripeError.response_mismatch
    validate_checkout_url response.url
