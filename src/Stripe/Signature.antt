-- ===== src/Stripe/Signature.antt =====
-- The size and the signature of a webhook in sovereign/src/processors/stripe-checkout.ts.
use cashloom.Prelude.{
  ℕ, ◌+◌, ◌*◌, ◌-◌, ◌/◌, Bool, ◌&&◌, not, Option, none, some, List, [], ◌∷◌, ◌++◌, Text, lit,
  text_eq, trim, to_lower, length, leb, ◌==◌, all, any, Result, ok, err, ◌>>=◌, ◌>>◌, require,
  if◌then◌else◌,
}
use cashloom.MinorUnits.{value_from}
use cashloom.BitcoinProfile.{is_positive_satoshis}
use cashloom.Stripe.{StripeHost, StripeError, is_hex, max_safe_integer}

-- `MAX_WEBHOOK_BYTES`
abbrev pub max_webhook_bytes : ℕ
max_webhook_bytes = 128 * 1024

-- `DEFAULT_SIGNATURE_TOLERANCE_SECONDS`
abbrev pub default_tolerance : ℕ
default_tolerance = 300

unfoldable pub webhook_bytes : List ℕ → Result StripeError (Unit {0})
webhook_bytes body =
    require (not (length body == 0) && leb (length body) max_webhook_bytes) StripeError.bad_body

abbrev push_unit : ℕ → List Text → List Text
push_unit c [] = (c ∷ []) ∷ []
push_unit c (field ∷ fields) = (c ∷ field) ∷ fields

-- `split(",")`: at least one field
unfoldable pub split_commas : Text → List Text
split_commas [] = [] ∷ []
split_commas (c ∷ s) =
    let rest = split_commas s in if c == b',' then [] ∷ rest else push_unit c rest

abbrev consider : ℕ → Option (Text × Text) → Option (Text × Text)
consider c none = none
consider c (some (key, value)) = some (c ∷ key, value)

-- A field at its first `=`, if it has one.
unfoldable pub at_equals : Text → Option (Text × Text)
at_equals [] = none
at_equals (c ∷ s) = let rest = at_equals s in if c == b'=' then some ([], s) else consider c rest

-- `SIGNATURE`
unfoldable pub is_signature : Text → Bool
is_signature s = length s == 64 && all is_hex s

-- The timestamps and the well-formed signatures of a header, in order.
abbrev add_field : Option (Text × Text) → List Text × List Text → List Text × List Text
add_field none found = found
add_field (some ([], value)) found = found
add_field (some (c ∷ key, value)) found =
    let name = trim (c ∷ key) in
    let content = trim value in
    if text_eq name (lit "t")
    then (content ∷ found.0, found.1)
    else if text_eq name (lit "v1") && is_signature content
    then (found.0, to_lower content ∷ found.1)
    else found

unfoldable pub read_fields : List Text → List Text × List Text
read_fields [] = ([], [])
read_fields (field ∷ fields) = add_field (at_equals field) (read_fields fields)

-- `Math.abs(a - b)`
abbrev pub distance : ℕ → ℕ → ℕ
distance a b = (a - b) + (b - a)

-- The only timestamp of the header, if some signature stands beside it.
unfoldable pub sole_timestamp : List Text → List Text → Result StripeError Text
sole_timestamp (t ∷ []) (signature ∷ signatures) =
    if is_positive_satoshis t then ok t else err StripeError.bad_signature
sole_timestamp _ _ = err StripeError.bad_signature

module _ (host : StripeHost) where
  -- `verifyWebhookSignature`; the clock is in milliseconds.
  unfoldable pub verify_webhook_signature :
      List ℕ → Text → Text → ℕ → ℕ → Result StripeError (Unit {0})
  verify_webhook_signature bytes header secret now_ms tolerance = do
    require (leb 8 (length secret) && leb (length secret) 512 && leb (length header) 4096)
        StripeError.bad_signature
    let (timestamps, signatures) = read_fields (split_commas header)
    timestamp ← sole_timestamp timestamps signatures
    let sent = value_from 0 timestamp
    let now_seconds = now_ms / 1000
    require
        (leb sent max_safe_integer
          && leb now_seconds max_safe_integer
          && leb (distance now_seconds sent) tolerance)
        StripeError.bad_timestamp
    require (any (text_eq (host.hmac_hex secret (timestamp ++ lit ".") bytes)) signatures)
        StripeError.bad_signature
