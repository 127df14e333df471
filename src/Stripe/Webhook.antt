-- ===== src/Stripe/Webhook.antt =====
-- The inbox and the transaction of `ingestStripeSandboxWebhook`, and the read of an operation in
-- sovereign/src/processors/stripe-checkout.ts.
use cashloom.Prelude.{
  ℕ, Bool, true, false, ◌&&◌, not, Option, none, some, List, [], ◌∷◌, ◌++◌, Text, text_eq, leb,
  ◌==◌, find, Result, ok, ◌>>=◌, ◌>>◌, require, non_null, if◌then◌else◌,
}
use cashloom.Stripe.{
  StripeCheckoutStatus, CheckoutRow, Disposition, InboxRow, StripeDb, StripeHost, StripeError,
  is_uuid,
}
use cashloom.Stripe.Checkout.{status_eq, coalesce, operation_of, checkout_row}
use cashloom.Stripe.Judge.{Transition, BoundedEvent, bounded_event, Verdict, judge}
use cashloom.Stripe.Answer.{set_operation}
use cashloom.Stripe.Signature.{webhook_bytes, verify_webhook_signature}

pub record StripeWebhookResult : Type 0 where
  pub event_id : Text
  pub duplicate : Bool
  pub disposition : Disposition
  pub operation_id : Option Text
  pub status : Option StripeCheckoutStatus

-- `CASE WHEN ? = 'paid' … END`
unfoldable pub projected : Transition → StripeCheckoutStatus → StripeCheckoutStatus
projected Transition.paid s = StripeCheckoutStatus.provider_reported_paid
projected Transition.expired s =
    if status_eq s StripeCheckoutStatus.provider_reported_paid
    then s
    else StripeCheckoutStatus.expired
projected Transition.nothing s = s

abbrev pub project : Transition → Text → Option Text → Text → CheckoutRow → CheckoutRow
project transition session payment_intent now r = record r {
  checkout_session_id = coalesce r.checkout_session_id (some session);
  payment_intent_id = coalesce r.payment_intent_id payment_intent;
  status = projected transition r.status;
  updated_at = now;
}

unfoldable pub existing_event : Text → List InboxRow → Option InboxRow
existing_event id = find (λ (r : InboxRow). text_eq r.event_id id)

abbrev pub id_of_operation : Option CheckoutRow → Option Text
id_of_operation none = none
id_of_operation (some r) = some r.id

unfoldable pub inbox_row : BoundedEvent → Verdict → Text → InboxRow
inbox_row b v now = record {
  event_id = b.id;
  payload_sha256 = b.payload_sha256;
  operation_id = id_of_operation v.operation;
  connected_account_id = b.account;
  event_type = b.type;
  object_id = b.event.object_id;
  disposition = v.disposition;
  received_at = now;
}

-- The `UPDATE` of an event that is applied.
unfoldable pub apply_as :
    Disposition → Option CheckoutRow → (CheckoutRow → CheckoutRow) → StripeDb → StripeDb
apply_as Disposition.applied (some operation) change db = set_operation operation.id change db
apply_as _ _ change db = db

unfoldable pub apply : Verdict → Text → StripeDb → StripeDb
apply v now =
    apply_as v.disposition v.operation (project v.transition v.session v.payment_intent now)

abbrev pub status_of : Option Text → StripeDb → Result StripeError (Option StripeCheckoutStatus)
status_of none db = ok none
status_of (some id) db = checkout_row id db >>= λ r. ok (some r.status)

-- An event that is in the inbox already.
unfoldable pub answer_duplicate :
    InboxRow → BoundedEvent → StripeDb → Result StripeError (StripeWebhookResult × StripeDb)
answer_duplicate held b db = do
  require (text_eq held.payload_sha256 b.payload_sha256) StripeError.replayed_with_different_bytes
  status ← status_of held.operation_id db
  ok (
    record {
      event_id = b.id;
      duplicate = true;
      disposition = held.disposition;
      operation_id = held.operation_id;
      status = status;
    },
    db,
  )

pub record WebhookInput : Type 0 where
  pub raw_body : List ℕ
  pub signature_header : Text
  pub endpoint_secret : Text

module _ (host : StripeHost) where
  unfoldable pub answer_new :
      BoundedEvent → Text → StripeDb → Result StripeError (StripeWebhookResult × StripeDb)
  answer_new b now db = do
    let v = judge host b db.operations
    let last = apply v now (record db { inbox = db.inbox ++ inbox_row b v now ∷ [] })
    status ← status_of (id_of_operation v.operation) last
    ok (
      record {
        event_id = b.id;
        duplicate = false;
        disposition = v.disposition;
        operation_id = id_of_operation v.operation;
        status = status;
      },
      last,
    )

  -- The transaction `persist`
  unfoldable pub persist_event :
      BoundedEvent → Text → StripeDb → Result StripeError (StripeWebhookResult × StripeDb)
  persist_event b now db = elim (existing_event b.id db.inbox) [
    | some held ↦ answer_duplicate held b db
    | none ↦ answer_new b now db
  ]

  -- `now_ms` and `now` are the same clock, in milliseconds and as text.
  unfoldable pub ingest_webhook :
      WebhookInput → ℕ → ℕ → Text → StripeDb → Result StripeError (StripeWebhookResult × StripeDb)
  ingest_webhook input tolerance now_ms now db = do
    webhook_bytes input.raw_body
    require (not (tolerance == 0) && leb tolerance 900) StripeError.bad_tolerance
    verify_webhook_signature host input.raw_body input.signature_header input.endpoint_secret now_ms
        tolerance
    event ← non_null StripeError.bad_json (host.parse_event input.raw_body)
    b ← bounded_event event (host.sha256_bytes input.raw_body)
    persist_event b now db

-- `getStripeCheckoutOperation`
unfoldable pub get_operation : Text → StripeDb → Option CheckoutRow
get_operation id db = if is_uuid id then operation_of id db.operations else none
