-- ===== src/Stripe/Judge.antt =====
-- What `ingestStripeSandboxWebhook` in sovereign/src/processors/stripe-checkout.ts reads in an event,
-- and its verdict on it.
use cashloom.Prelude.{
  Bool, true, false, ◌&&◌, ◌||◌, not, Option, none, some, List, [], Text, lit, text_eq, length, leb,
  any, Result, ok, ◌>>=◌, ◌>>◌, require, non_null, if◌then◌else◌,
}
use cashloom.Stripe.{
  CheckoutRow, Disposition, Nullable, StripeEvent, StripeHost, StripeError, is_uuid,
  is_connected_account, is_checkout_session, is_payment_intent, is_event_id,
}
use cashloom.Stripe.Checkout.{option_is, differs, operation_for_intent}

-- What an event asks of the operation: `transition`.
pub data Transition : Type 0 where
  paid expired nothing : Transition

-- A bounded event, with the fields that the code has found to be texts.
pub record BoundedEvent : Type 0 where
  pub id : Text
  pub type : Text
  pub account : Text
  pub payload_sha256 : Text
  pub event : StripeEvent

unfoldable pub bounded_event : StripeEvent → Text → Result StripeError BoundedEvent
bounded_event event payload_sha256 = do
  let e = StripeError.not_sandbox_event
  id ← non_null e event.id
  type ← non_null e event.type
  account ← non_null e event.account
  require
      (is_event_id id
        && event.is_event
        && event.is_sandbox
        && leb (length type) 160
        && is_connected_account account)
      e
  ok (record {
    id = id;
    type = type;
    account = account;
    payload_sha256 = payload_sha256;
    event = event;
  })

abbrev pub is_completed : Text → Bool
is_completed type = text_eq type (lit "checkout.session.completed")

abbrev pub is_expired_type : Text → Bool
is_expired_type type = text_eq type (lit "checkout.session.expired")

abbrev pub is_paid : StripeEvent → Bool
is_paid event = option_is event.payment_status (lit "paid")

-- The payment intent of an event: `none` for "__invalid__", and otherwise null or an id.
unfoldable pub read_payment_intent : Nullable → Option (Option Text)
read_payment_intent Nullable.is_null = some none
read_payment_intent (Nullable.text id) = if is_payment_intent id then some (some id) else none
read_payment_intent Nullable.other = none

abbrev pub intent_differs : Option Text → Option Text → Bool
intent_differs held none = false
intent_differs held (some id) = differs held id

abbrev pub is_null : Option Text → Bool
is_null none = true
is_null (some t) = false

abbrev pub claimed_intent : Option Text → List CheckoutRow → Option CheckoutRow
claimed_intent none rows = none
claimed_intent (some id) rows = if is_uuid id then operation_for_intent id rows else none

-- Another operation that holds one of the identifiers.
unfoldable pub identifier_taken : CheckoutRow → Text → Option Text → List CheckoutRow → Bool
identifier_taken operation session payment_intent = any (λ (r : CheckoutRow).
    not (text_eq r.id operation.id)
    && (option_is r.checkout_session_id session || same_intent r.payment_intent_id payment_intent))
  where
    same_intent : Option Text → Option Text → Bool
    same_intent held none = false
    same_intent held (some id) = option_is held id

-- What becomes of an event: its disposition, the operation that it is about, and the change.
pub record Verdict : Type 0 where
  pub disposition : Disposition
  pub operation : Option CheckoutRow
  pub transition : Transition
  pub session : Text
  pub payment_intent : Option Text

abbrev pub no_change : Disposition → Option CheckoutRow → Verdict
no_change disposition operation = record {
  disposition = disposition;
  operation = operation;
  transition = Transition.nothing;
  session = [];
  payment_intent = none;
}

abbrev pub asked_transition : BoundedEvent → Transition
asked_transition b =
    if is_completed b.type && is_paid b.event
    then Transition.paid
    else if is_expired_type b.type
    then Transition.expired
    else Transition.nothing

module _ (host : StripeHost) where
  abbrev pub currency_is : Option Text → Text → Bool
  currency_is none currency = false
  currency_is (some c) currency = text_eq (host.to_upper c) currency

  -- Whether an event about an operation agrees with what the operation has committed to.
  unfoldable pub agrees : BoundedEvent → CheckoutRow → Text → Option Text → Bool
  agrees b operation session payment_intent =
      text_eq b.account operation.connected_account_id
      && currency_is b.event.currency operation.currency
      && option_is b.event.amount_total operation.amount_minor
      && option_is b.event.metadata_intent operation.intent_id
      && not (is_completed b.type && is_paid b.event && is_null payment_intent)
      && is_checkout_session session
      && not (differs operation.checkout_session_id session)
      && not (intent_differs operation.payment_intent_id payment_intent)

  unfoldable pub judge_operation : BoundedEvent → CheckoutRow → List CheckoutRow → Verdict
  judge_operation b operation rows = elim b.event.object_id [
    | none ↦ no_change Disposition.refused (some operation)
    | some session ↦ elim (read_payment_intent b.event.payment_intent) [
      | none ↦ no_change Disposition.refused (some operation)
      | some payment_intent ↦
          if not (agrees b operation session payment_intent)
            || identifier_taken operation session payment_intent rows
          then no_change Disposition.refused (some operation)
          else record {
            disposition = Disposition.applied;
            operation = some operation;
            transition = asked_transition b;
            session = session;
            payment_intent = payment_intent;
          }
    ]
  ]

  unfoldable pub judge : BoundedEvent → List CheckoutRow → Verdict
  judge b rows =
      if is_completed b.type || is_expired_type b.type
      then elim (claimed_intent b.event.client_reference_id rows) [
        | none ↦ no_change Disposition.unmatched none
        | some operation ↦ judge_operation b operation rows
      ]
      else no_change Disposition.ignored none
