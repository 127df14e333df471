-- ===== src/Stripe/Tests.antt =====
-- A checkout from its reservation to the webhook that reports it paid, and the theorems at its steps.
use cashloom.Prelude.{
  ◌≡◌, refl, true, false, Option, none, some, List, [], ◌∷◌, ◌++◌, Text, lit, ok, text_eq, trim,
  drop_spaces, is_space, to_lower, includes, length, all, any, find, update, Bool,
}
use cashloom.Pay.{Account}
use cashloom.MinorUnits.{value_from, drop}
use cashloom.BitcoinProfile.{is_positive_satoshis}
use cashloom.Stripe.{
  StripeCheckoutStatus, provider_reported_paid, submitting, submitted, CheckoutRow, StripeDb,
  PrepareStripeCheckout, StripeDirectCheckoutResponse, Nullable, StripeEvent, StripeHost, matches,
  is_uuid, has_prefix, stripe_decimals_for,
}
use cashloom.Stripe.Checkout.{
  status_eq, operation_of, operation_for_intent, checkout_row, validate_amount, validate_purpose,
  validate_input, validate_return_base_url, account_for_checkout, compile_request, committed_row,
  same_request, insert_operation, reserve, validate_checkout_url, validate_response,
}
use cashloom.Stripe.Answer.{
  when_submitting, set_operation, mark_submission_unknown, identity_conflict, index_conflict,
  persist_response, settle_response, start_checkout,
}
use cashloom.Stripe.Signature.{
  webhook_bytes, split_commas, at_equals, is_signature, read_fields, sole_timestamp,
  verify_webhook_signature,
}
use cashloom.Stripe.Judge.{
  bounded_event, read_payment_intent, identifier_taken, agrees, judge_operation, judge,
}
use cashloom.Stripe.Webhook.{
  WebhookInput, StripeWebhookResult, projected, existing_event, inbox_row, apply_as, apply,
  answer_duplicate, answer_new, persist_event, ingest_webhook,
}
use cashloom.Stripe.Moves.{IsLater}
use cashloom.Stripe.Once.{Event, step, run, run-IsLater, webhook_once, submitted_once}

-- All that a run computes with.
stripe : Unit {0}
unfolding text_eq trim drop_spaces is_space to_lower includes all any find update value_from drop
    is_positive_satoshis matches is_uuid has_prefix stripe_decimals_for status_eq operation_of
    operation_for_intent checkout_row validate_amount validate_purpose validate_input
    validate_return_base_url account_for_checkout compile_request committed_row same_request
    insert_operation reserve validate_checkout_url validate_response when_submitting set_operation
    mark_submission_unknown identity_conflict index_conflict persist_response settle_response
    start_checkout webhook_bytes split_commas at_equals is_signature read_fields sole_timestamp
    verify_webhook_signature bounded_event read_payment_intent identifier_taken projected
    existing_event agrees judge_operation judge inbox_row apply_as apply answer_duplicate answer_new
    persist_event ingest_webhook step run
stripe = tt

abbrev uuid : Text
uuid = lit "00000000-0000-1000-8000-000000000000"

abbrev eight : Text
eight = lit "aaaaaaaa"

abbrev hmac : Text
hmac = eight ++ (eight ++ (eight ++ (eight ++ (eight ++ (eight ++ (eight ++ eight))))))

abbrev event : StripeEvent
event = record {
  id = some (lit "evt_12345678");
  is_event = true;
  is_sandbox = true;
  type = some (lit "checkout.session.completed");
  account = some (lit "acct_12345678");
  object_id = some (lit "cs_test_12345678");
  client_reference_id = some uuid;
  currency = some (lit "EUR");
  amount_total = some (lit "5");
  metadata_intent = some uuid;
  payment_intent = Nullable.text (lit "pi_12345678");
  payment_status = some (lit "paid");
}

abbrev host : StripeHost
host = record {
  sha256_text = λ t. lit "sha256:h";
  sha256_bytes = λ b. lit "sha256:b";
  canonical_json = λ r. [];
  parse_url = λ t. some (record {
    protocol = lit "https:";
    hostname = lit "checkout.stripe.com";
    username = [];
    password = [];
    search = [];
    hash = [];
    pathname = [];
    origin = t;
  });
  utf8_length = length;
  to_upper = λ t. t;
  to_lower = λ t. t;
  parse_event = λ b. some event;
  hmac_hex = λ secret t b. hmac;
}

abbrev account : Account
account = record {
  id = uuid;
  rail = lit "STRIPE";
  display_name = lit "shop";
  currency = lit "EUR";
  decimals = 2;
  external_account_id = some (lit "acct_12345678");
  vault_key_id = none;
  active = lit "ACTIVE";
}

abbrev input : PrepareStripeCheckout
input = record { intent_id = uuid; account_id = uuid; amount_minor = lit "5"; purpose = lit "tea" }

abbrev empty : StripeDb
empty = record { accounts = account ∷ []; operations = []; inbox = [] }

abbrev row : CheckoutRow
row = record {
  id = lit "op";
  intent_id = uuid;
  account_id = uuid;
  connected_account_id = lit "acct_12345678";
  currency = lit "EUR";
  amount_minor = lit "5";
  purpose = lit "tea";
  return_base_url = lit "u";
  idempotency_key = lit "cashloom-checkout-v1-h";
  request_sha256 = lit "sha256:h";
  request_json = [];
  status = submitting;
  checkout_session_id = none;
  payment_intent_id = none;
  checkout_url = none;
  error_code = none;
  created_at = lit "n";
  updated_at = lit "n";
}

abbrev reserved : StripeDb
reserved = record empty { operations = row ∷ [] }

started : start_checkout host input (lit "u") (lit "op") (lit "n") empty ≡ ok (row, true, reserved)
unfolding stripe
started = refl

abbrev hook : WebhookInput
hook = record {
  raw_body = 1 ∷ [];
  signature_header = lit "t=1,v1=" ++ hmac;
  endpoint_secret = lit "whsec_12";
}

abbrev response : StripeDirectCheckoutResponse
response = record {
  is_checkout_session = true;
  is_sandbox = true;
  id = lit "cs_test_12345678";
  url = some (lit "c");
  client_reference_id = some uuid;
  currency = some (lit "EUR");
  amount_total = some (lit "5");
  payment_intent = none;
  metadata_intent = some uuid;
}

-- The webhook overtakes the answer of the transport.
abbrev events : List Event
events =
    Event.webhook hook 300 1000 (lit "w") ∷ Event.settle row input (some response) (lit "s") ∷ []

-- The status of an operation
abbrev status_in : Option CheckoutRow → Option StripeCheckoutStatus
status_in none = none
status_in (some r) = some r.status

ends_paid :
    status_in (operation_of (lit "op") (run host events reserved).operations)
    ≡ some provider_reported_paid
unfolding stripe
ends_paid = refl

answered_first :
    status_in (
      operation_of
        (lit "op")
        (run host (Event.settle row input (some response) (lit "s") ∷ []) reserved).operations)
    ≡ some submitted
unfolding stripe
answered_first = refl

in_table : operation_of (lit "op") reserved.operations ≡ some row
unfolding stripe
in_table = refl

run-IsLater_example :
    (q : CheckoutRow) × (operation_of (lit "op") (run host events reserved).operations ≡ some q)
    × IsLater row q
    × (row.status ≡ provider_reported_paid → q.status ≡ provider_reported_paid)
run-IsLater_example = run-IsLater host events reserved (lit "op") row in_table

first :
    (out : StripeWebhookResult × StripeDb) × (ingest_webhook host hook 300 1000 (lit "w") reserved
      ≡ ok out)
unfolding stripe
first = (_, refl)

second :
    (out : StripeWebhookResult × StripeDb) × (ingest_webhook host hook 300 2000
        (lit "x")
        (run host [] first.0.1)
      ≡ ok out)
    × (out.0.event_id ≡ first.0.0.event_id)
unfolding stripe first
second = (_, refl, refl)

webhook_once_example :
    (second.0.0.duplicate ≡ true)
    × (second.0.0.disposition ≡ first.0.0.disposition)
    × (second.0.1 ≡ run host [] first.0.1)
webhook_once_example =
    webhook_once host hook 300 1000 (lit "w") reserved first.0 [] hook 300 2000 (lit "x") second.0
      first.1 second.1 second.2

again :
    (out : CheckoutRow × Bool × StripeDb) × (start_checkout host input
        (lit "u")
        (lit "op2")
        (lit "later")
        (run host events reserved)
      ≡ ok out)
unfolding stripe
again = (_, refl)

submitted_once_example :
    (again.0.1 ≡ false) × (again.0.2 ≡ run host events reserved) × IsLater row again.0.0
submitted_once_example =
    submitted_once host input (lit "u") (lit "op") (lit "n") empty reserved row events input
      (lit "u") (lit "op2") (lit "later") again.0 started again.1 refl

abbrev opening : List Event
opening = Event.start input (lit "u") (lit "op") (lit "n") ∷ []
