-- ===== src/Pay/Claim.antt =====
-- The first half of `confirmPayment` of sovereign/src/pay.ts: the checks on the row as first read,
-- and the transaction that claims it.
use cashloom.Prelude.{
  ℕ, ◌+◌, Bool, true, false, ◌&&◌, ◌||◌, Option, none, some, List, Text, lit, text_eq, leb, ltb,
  ◌==◌, find, update, count, not, Result, ok, err, ◌>>=◌, ◌>>◌, if◌then◌else◌,
}
use cashloom.Payments.{Payment, PaymentStatus, status_eq}
use cashloom.Pay.{Account, Binding, PayDb, PayError, Callback, PaymentSender, Engine}
use cashloom.Pay.Accounts.{sender_for_asset, timestamp_now, sending_account}
use cashloom.Pay.Quote.{quote_ttl_ms, run_callback}

-- What `assertClaim` is given, beside the payment's id.
pub record BoundPaymentClaim : Type 0 where
  pub payment_id : Text
  pub binding : Binding
  pub claimed_at : Text

pub record BoundClaim : Type 0 where
  pub intent_record_id : Text
  pub review_id : Text
  pub unsigned_payload_hash : Text
  pub assert_claim : BoundPaymentClaim → Callback

-- `now` is what the clock returns inside the transaction.
pub record ConfirmRuntime : Type 0 where
  pub senders : List PaymentSender
  pub now : Text
  pub bound_claim : Option BoundClaim

-- A claimed row, with what the send needs.
pub record Claimed : Type 0 where
  pub row : Payment
  pub account : Account
  pub sender : PaymentSender
  pub expected : Option Binding

pub data ClaimResult : Type 0 where
  unavailable : Option PaymentStatus → ClaimResult
  expired : ClaimResult
  claimed : Claimed → ClaimResult

unfoldable pub payment_of : Text → List Payment → Option Payment
payment_of id = find (λ p. text_eq p.id id)

unfoldable pub binding_of : Text → PayDb → Option Binding
binding_of payment_id db = find (λ (b : Binding). text_eq b.payment_id payment_id) db.bindings

-- `status` of a row, `none` for a missing one
abbrev pub status_of : Option Payment → Option PaymentStatus
status_of none = none
status_of (some p) = some p.status

abbrev pub is_some {ℓ} : {A : Type ℓ} → Option A → Bool
is_some none = false
is_some (some a) = true

-- The row that is first read must be quoted, and the generic door shut for a bound payment.
unfoldable pub first_checks : Text → ConfirmRuntime → PayDb → Result PayError Payment
unfolding payment_of status_eq
first_checks payment_id runtime db = elim (payment_of payment_id db.payments) [
  | none ↦ err PayError.no_payment
  | some row ↦
      if not (status_eq row.status PaymentStatus.quoted)
      then err (PayError.unavailable (some row.status))
      else if is_some (binding_of payment_id db) && not (is_some runtime.bound_claim)
      then err PayError.bound_door
      else ok row
]

-- `WHERE id = ? AND status = 'quoted' AND created_at = ?`
unfoldable pub still_quoted : Payment → Payment → Bool
unfolding status_eq
still_quoted row p =
    text_eq p.id row.id
    && status_eq p.status PaymentStatus.quoted
    && text_eq p.created_at row.created_at

abbrev pub set_expired : Text → Payment → Payment
set_expired now p = record p {
  status = PaymentStatus.failed;
  error = some (lit "quote expired");
  updated_at = some now;
}

abbrev pub set_confirmed : Text → Payment → Payment
set_confirmed now p = record p { status = PaymentStatus.confirmed; updated_at = some now }

-- An `UPDATE` of the quoted row; if it changes no row the payment is unavailable.
unfoldable pub swap_status :
    Payment → (Payment → Payment) → ClaimResult → PayDb → Result PayError (ClaimResult × PayDb)
unfolding payment_of
swap_status row change outcome db =
    if count (still_quoted row) db.payments == 1
    then ok (outcome, record db { payments = update (still_quoted row) change db.payments })
    else ok (ClaimResult.unavailable (status_of (payment_of row.id db.payments)), db)

abbrev pub assert_bound :
    Payment → Option Binding → Option BoundClaim → Text → Result PayError (Unit {0})
assert_bound row none requested claimed_at = ok tt
assert_bound row (some b) none claimed_at = err PayError.bound_door
assert_bound row (some b) (some requested) claimed_at =
    run_callback (
      requested.assert_claim (record { payment_id = row.id; binding = b; claimed_at = claimed_at }))

module _ (engine : Engine) where
  -- The identifiers of the review, and the stored binding's own digest.
  unfoldable pub check_binding :
      Payment → Option Binding → Option BoundClaim → Result PayError (Unit {0})
  check_binding row none none = ok tt
  check_binding row none (some requested) = err PayError.no_binding
  check_binding row (some b) none = err PayError.bound_door
  check_binding row (some b) (some requested) =
      if not (text_eq requested.intent_record_id b.intent_record_id)
        || not (text_eq requested.review_id b.review_id)
        || not (text_eq requested.unsigned_payload_hash b.unsigned_payload_hash)
      then err PayError.binding_mismatch
      else if not (text_eq b.account_id row.account_id)
          || not (text_eq (engine.sha256_bytes_id b.unsigned_payload) b.unsigned_payload_hash)
      then err PayError.binding_stale
      else ok tt

  -- A binding's own expiry: NaN, or reached at the claim.
  abbrev pub binding_expired : ℕ → Option Binding → Bool
  binding_expired claimed_ms none = false
  binding_expired claimed_ms (some b) = elim (engine.date_parse b.quote_expires_at) [
    | none ↦ true
    | some expiry_ms ↦ leb expiry_ms claimed_ms
  ]

  -- The age of a quote, and the expiry of its binding. `claimed_at` has passed `timestampNow`.
  unfoldable pub is_expired : Payment → Option Binding → Text → Bool
  is_expired row binding claimed_at = elim (engine.date_parse claimed_at) [
    | none ↦ true
    | some claimed_ms ↦ elim (engine.date_parse row.created_at) [
      | none ↦ true
      | some created_ms ↦
          ltb (created_ms + quote_ttl_ms) claimed_ms || binding_expired claimed_ms binding
    ]
  ]

  unfoldable pub claim_fresh :
      Payment
      → Option Binding
      → ConfirmRuntime
      → Text
      → PayDb
      → Result PayError (ClaimResult × PayDb)
  claim_fresh row binding runtime claimed_at db = do
    assert_bound row binding runtime.bound_claim claimed_at
    account ← sending_account row.account_id db
    sender ← sender_for_asset engine row.asset runtime.senders
    swap_status row (set_confirmed claimed_at)
        (ClaimResult.claimed
          (record { row = row; account = account; sender = sender; expected = binding }))
        db

  -- What the transaction does with a quoted row.
  unfoldable pub claim_quoted :
      Payment → ConfirmRuntime → Text → PayDb → Result PayError (ClaimResult × PayDb)
  claim_quoted row runtime claimed_at db = do
    let binding = binding_of row.id db
    check_binding row binding runtime.bound_claim
    (if is_expired row binding claimed_at
        then swap_status row (set_expired claimed_at) ClaimResult.expired db
        else claim_fresh row binding runtime claimed_at db)

  -- `claimWrite`
  unfoldable pub claim : Text → ConfirmRuntime → PayDb → Result PayError (ClaimResult × PayDb)
  unfolding payment_of status_eq
  claim payment_id runtime db = do
    claimed_at ← timestamp_now engine runtime.now
    elim (payment_of payment_id db.payments) [
      | none ↦ ok (ClaimResult.unavailable none, db)
      | some row ↦
          if status_eq row.status PaymentStatus.quoted
          then claim_quoted row runtime claimed_at db
          else ok (ClaimResult.unavailable (some row.status), db)
    ]

  -- Everything up to the send. An unavailable or expired claim commits, and then throws.
  unfoldable pub confirm_start : Text → ConfirmRuntime → PayDb → Result PayError (Unit {0})
  confirm_start payment_id runtime db = do
    row ← first_checks payment_id runtime db
    account ← sending_account row.account_id db
    sender ← sender_for_asset engine row.asset runtime.senders
    ok tt
