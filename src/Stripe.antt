-- ===== src/Stripe.antt =====
-- The inbound collections of sovereign/src/processors/stripe-checkout.ts: their tables, with
-- sovereign/src/db.ts, the patterns of their identifiers, and the shapes that Stripe sends.
mod Checkout
mod Answer
mod Signature
mod Judge
mod Webhook
mod Moves
mod Steps
mod Answered
mod Once
mod Quiet
mod Verdicts
mod Paid
mod Tests
use cashloom.Prelude.{
  ℕ, zero, suc, ◌-◌, ◌^◌, Bool, true, false, ◌&&◌, ◌||◌, not, Option, none, some, List, [], ◌∷◌,
  ◌++◌, Text, lit, text_eq, take, includes, length, leb, ◌==◌, all, if◌then◌else◌,
}
use cashloom.Pay.{Account}
use cashloom.MinorUnits.{drop}

pub data StripeCheckoutStatus : Type 0 where
  prepared submitting submitted submission_unknown : StripeCheckoutStatus
  provider_reported_paid expired rejected : StripeCheckoutStatus

-- A row of `stripe_checkout_operations`; `livemode` is 0 by its CHECK.
pub record CheckoutRow : Type 0 where
  pub id : Text
  pub intent_id : Text
  pub account_id : Text
  pub connected_account_id : Text
  pub currency : Text
  pub amount_minor : Text
  pub purpose : Text
  pub return_base_url : Text
  pub idempotency_key : Text
  pub request_sha256 : Text
  pub request_json : Text
  pub status : StripeCheckoutStatus
  pub checkout_session_id : Option Text
  pub payment_intent_id : Option Text
  pub checkout_url : Option Text
  pub error_code : Option Text
  pub created_at : Text
  pub updated_at : Text

pub data Disposition : Type 0 where
  applied ignored refused unmatched : Disposition

-- A row of `stripe_webhook_inbox`
pub record InboxRow : Type 0 where
  pub event_id : Text
  pub payload_sha256 : Text
  pub operation_id : Option Text
  pub connected_account_id : Text
  pub event_type : Text
  pub object_id : Option Text
  pub disposition : Disposition
  pub received_at : Text

pub record StripeDb : Type 0 where
  pub accounts : List Account
  pub operations : List CheckoutRow
  pub inbox : List InboxRow

pub record PrepareStripeCheckout : Type 0 where
  pub intent_id : Text
  pub account_id : Text
  pub amount_minor : Text
  pub purpose : Text

-- The method and the path are constants.
pub record StripeDirectCheckoutRequest : Type 0 where
  pub connected_account_id : Text
  pub idempotency_key : Text
  pub form : List (Text × Text)

-- `amount_total` is the text of a safe integer, `none` for anything else; `metadata_intent` is the
-- field `cashloom_intent_id` of the metadata.
pub record StripeDirectCheckoutResponse : Type 0 where
  pub is_checkout_session : Bool
  pub is_sandbox : Bool
  pub id : Text
  pub url : Option Text
  pub client_reference_id : Option Text
  pub currency : Option Text
  pub amount_total : Option Text
  pub payment_intent : Option Text
  pub metadata_intent : Option Text

-- A field that is null, a text, or anything else.
pub data Nullable : Type 0 where
  is_null : Nullable
  text : Text → Nullable
  other : Nullable

-- A webhook's body, parsed; a field that is no text is `none`.
pub record StripeEvent : Type 0 where
  pub id : Option Text
  pub is_event : Bool
  pub is_sandbox : Bool
  pub type : Option Text
  pub account : Option Text
  pub object_id : Option Text
  pub client_reference_id : Option Text
  pub currency : Option Text
  pub amount_total : Option Text
  pub metadata_intent : Option Text
  pub payment_intent : Nullable
  pub payment_status : Option Text

-- The parts of a URL that the code reads.
pub record Url : Type 0 where
  pub protocol : Text
  pub hostname : Text
  pub username : Text
  pub password : Text
  pub search : Text
  pub hash : Text
  pub pathname : Text
  pub origin : Text

-- SHA-256 of the UTF-8 bytes, canonical JSON, `new URL` (`none` where it throws), the length in
-- UTF-8, upper and lower case, `JSON.parse` of decoded bytes, and the HMAC in lower-case hexadecimal.
pub record StripeHost : Type 0 where
  pub sha256_text : Text → Text
  pub sha256_bytes : List ℕ → Text
  pub canonical_json : StripeDirectCheckoutRequest → Text
  pub parse_url : Text → Option Url
  pub utf8_length : Text → ℕ
  pub to_upper : Text → Text
  pub to_lower : Text → Text
  pub parse_event : List ℕ → Option StripeEvent
  pub hmac_hex : Text → Text → List ℕ → Text

-- One constructor for each `throw`.
pub data StripeError : Type 0 where
  bad_intent_id bad_amount bad_purpose bad_account_id no_account : StripeError
  no_connected_account bad_currency wrong_decimals bad_return_url : StripeError
  different_request duplicate_key operation_disappeared : StripeError
  response_mismatch bad_checkout_url : StripeError
  bad_body bad_tolerance bad_signature bad_timestamp bad_json not_sandbox_event : StripeError
  replayed_with_different_bytes : StripeError

abbrev pub is_lower_hex : ℕ → Bool
is_lower_hex c = (leb b'0' c && leb c b'9') || (leb b'a' c && leb c b'f')

abbrev pub is_hex : ℕ → Bool
is_hex c = is_lower_hex c || (leb b'A' c && leb c b'F')

abbrev pub is_upper : ℕ → Bool
is_upper c = leb b'A' c && leb c b'Z'

abbrev pub is_alphanumeric : ℕ → Bool
is_alphanumeric c = (leb b'0' c && leb c b'9') || is_upper c || (leb b'a' c && leb c b'z')

-- A text whose units pass the tests, one by one.
unfoldable pub matches : List (ℕ → Bool) → Text → Bool
matches [] [] = true
matches [] (c ∷ s) = false
matches (p ∷ ps) [] = false
matches (p ∷ ps) (c ∷ s) = p c && matches ps s

abbrev pub each_of : ℕ → (ℕ → Bool) → List (ℕ → Bool) → List (ℕ → Bool)
each_of zero p rest = rest
each_of (suc n) p rest = p ∷ each_of n p rest

abbrev is_dash : ℕ → Bool
is_dash c = c == b'-'

-- `UUID`
unfoldable pub is_uuid : Text → Bool
unfolding matches
is_uuid = matches (
    each_of 8 is_hex (
      is_dash
      ∷ each_of 4 is_hex (
          is_dash
          ∷ (λ c. leb b'1' c && leb c b'5')
          ∷ each_of 3 is_hex (
              is_dash
              ∷ (λ c. c == b'8' || c == b'9' || c == b'a' || c == b'b' || c == b'A' || c == b'B')
              ∷ each_of 3 is_hex (is_dash ∷ each_of 12 is_hex [])))))

-- A prefix, and then 8 to 255 letters and digits.
unfoldable pub has_prefix : Text → Text → Bool
has_prefix prefix s =
    let rest = drop (length prefix) s in
    text_eq (take (length prefix) s) prefix
    && leb 8 (length rest)
    && leb (length rest) 255
    && all is_alphanumeric rest

abbrev pub is_connected_account : Text → Bool
is_connected_account s = has_prefix (lit "acct_") s

abbrev pub is_checkout_session : Text → Bool
is_checkout_session s = has_prefix (lit "cs_test_") s

abbrev pub is_payment_intent : Text → Bool
is_payment_intent s = has_prefix (lit "pi_") s

abbrev pub is_event_id : Text → Bool
is_event_id s = has_prefix (lit "evt_") s

-- `MAX_AMOUNT`, Number.MAX_SAFE_INTEGER
abbrev pub max_safe_integer : ℕ
max_safe_integer = 2 ^ 53 - 1

abbrev zero_decimal_currencies : List Text
zero_decimal_currencies =
    lit "BIF"
    ∷ lit "CLP"
    ∷ lit "DJF"
    ∷ lit "GNF"
    ∷ lit "JPY"
    ∷ lit "KMF"
    ∷ lit "KRW"
    ∷ lit "MGA"
    ∷ lit "PYG"
    ∷ lit "RWF"
    ∷ lit "UGX"
    ∷ lit "VND"
    ∷ lit "VUV"
    ∷ lit "XAF"
    ∷ lit "XOF"
    ∷ lit "XPF"
    ∷ []

abbrev three_decimal_currencies : List Text
three_decimal_currencies = lit "BHD" ∷ lit "JOD" ∷ lit "KWD" ∷ lit "OMR" ∷ lit "TND" ∷ []

-- `stripeDecimalsFor` of sovereign/src/stripe-currency.ts
unfoldable pub stripe_decimals_for : Text → ℕ
stripe_decimals_for currency =
    if includes currency zero_decimal_currencies
    then 0
    else if includes currency three_decimal_currencies
    then 3
    else 2
