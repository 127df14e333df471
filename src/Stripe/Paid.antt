-- ===== src/Stripe/Paid.antt =====
-- Who can report a collection of sovereign/src/processors/stripe-checkout.ts as paid.
use cashloom.Prelude.{ℕ, ◌≡◌, true, some, Text, ok}
use cashloom.Stripe.{CheckoutRow, StripeDb, StripeHost}
use cashloom.Stripe.Signature.{verify_webhook_signature}
use cashloom.Stripe.Judge.{BoundedEvent, is_completed, is_paid}
use cashloom.Stripe.Webhook.{WebhookInput, StripeWebhookResult, persist_event}

-- An event that reports an operation paid: it is authentic, it says that the checkout is complete and
-- paid, and it agrees with what the operation has committed to.
pub record ReportsPaid (host : StripeHost) (input : WebhookInput) (tolerance now_ms : ℕ)
    (operation : CheckoutRow) : Type 0 where
  pub event : BoundedEvent
  pub authentic :
      verify_webhook_signature host input.raw_body input.signature_header input.endpoint_secret
        now_ms tolerance
      ≡ ok tt
  pub parsed : host.parse_event input.raw_body ≡ some event.event
  pub completed : is_completed event.type ≡ true
  pub paid : is_paid event.event ≡ true
  pub account : event.account ≡ operation.connected_account_id
  pub currency : Text
  pub currency_told : event.event.currency ≡ some currency
  pub currency_same : host.to_upper currency ≡ operation.currency
  pub amount : event.event.amount_total ≡ some operation.amount_minor
  pub intent : event.event.metadata_intent ≡ some operation.intent_id

-- An ingested webhook has passed the signature check.
record IsAuthentic (host : StripeHost) (input : WebhookInput) (tolerance now_ms : ℕ) (now : Text)
    (db : StripeDb) (out : StripeWebhookResult × StripeDb) : Type 0 where
  event : BoundedEvent
  authentic :
      verify_webhook_signature host input.raw_body input.signature_header input.endpoint_secret
        now_ms tolerance
      ≡ ok tt
  parsed : host.parse_event input.raw_body ≡ some event.event
  persisted : persist_event host event now db ≡ ok out
