-- ===== src/BitcoinPayLink/Confirm.antt =====
-- `confirm` of sovereign/src/pay/bitcoin-pay-link.ts: its synchronous stretches, the callback that
-- it gives to the one-time claim of the payment rite, and their sequence.
use cashloom.Prelude.{
  Bool, true, false, ◌&&◌, not, Option, none, some, Text, lit, text_eq, Result, ok, err, ◌>>=◌,
  ◌>>◌, require, map_err, non_null, if◌then◌else◌,
}
use cashloom.Payments.{Payment}
use cashloom.Pay.{Binding, Callback}
use cashloom.Pay.Claim.{BoundPaymentClaim, BoundClaim}
use cashloom.Records.{V2Record}
use cashloom.RecordStore.{StoreError}
use cashloom.RecordStore.Reads.{local_execution_commitment_for}
use cashloom.BitcoinPayLink.{
  LinkCode, LinkError, Node, Moment, ExecutionContext, ExecutionReview, ExecutionResult,
  ConfirmInput, UnsignedPayloadEvidence, LinkHost,
}
use cashloom.BitcoinPayLink.Asserts.{link_error, storage_failure, assert_id, assert_timestamp}
use cashloom.BitcoinPayLink.Context.{active_context}
use cashloom.BitcoinPayLink.Review.{binding_bytes, is_over, execution_review, validate_commitment}
use cashloom.BitcoinPayLink.Stored.{
  payment_row, binding_for_review, is_quoted, result_from_payment, assert_historical_execution,
}

-- What a confirmation of a quoted payment works with.
pub record Ready : Type 0 where
  pub binding : Binding
  pub payment : Payment
  pub context : ExecutionContext
  pub review : ExecutionReview

pub data Started : Type 0 where
  settled : ExecutionResult → Started
  ready : Ready → Started

-- `error instanceof V2RecordStoreError && error.code === "TRANSITION_CONFLICT"`
abbrev is_transition_conflict : LinkError → Bool
is_transition_conflict (LinkError.store (StoreError.transition_conflict id)) = true
is_transition_conflict _ = false

-- `assertClaim` throws, or returns.
abbrev as_callback : Result LinkError (Unit {0}) → Callback
as_callback (ok u) = Callback.returns
as_callback (err e) = Callback.throws (lit "claim refused")

-- What happens while `confirm` waits: the compiled payload, the commitment that the local service
-- creates, the instants between, and the payment rite, which is given the callback as it stands at
-- the node of its claim, and leaves a node.
pub record Between : Type 0 where
  pub compiled : Result LinkError UnsignedPayloadEvidence
  pub at_commitment : Node
  pub creation : Result LinkError V2Record
  pub after_creation : Moment
  pub confirm : (Node → BoundClaim) → Result LinkError (Unit {0}) × Node

module _ (host : LinkHost) where
  -- A claimed payment's durable outcome.
  unfoldable pub durable_outcome :
      Node → Binding → Payment → Text → Result LinkError ExecutionResult
  durable_outcome node b p review_id = do
    assert_historical_execution host node b p
    ok (result_from_payment p review_id)

  -- The checks of a quoted payment at the confirmation's own time.
  unfoldable pub make_ready : Moment → ConfirmInput → Binding → Payment → Result LinkError Started
  make_ready m input b p = do
    assert_timestamp host m.now
    context ← active_context host m.node b.intent_record_id b.account_id m.now
    review ← execution_review host b p context
    require (text_eq review.review_id input.review_id) storage_failure
    require (not (is_over host m.now review.digest.confirm_before))
        (link_error LinkCode.review_expired)
    ok (Started.ready (record { binding = b; payment = p; context = context; review = review }))

  unfoldable pub start_confirm : Moment → ConfirmInput → Result LinkError Started
  start_confirm m input = do
    assert_id host input.review_id
    b ←
        non_null (link_error LinkCode.payment_not_ready)
          (binding_for_review input.payment_id input.review_id m.node)
    p ← payment_row b.payment_id m.node
    (if is_quoted p
        then make_ready m input b p
        else (durable_outcome m.node b p b.review_id >>= λ r. ok (Started.settled r)))

  unfoldable pub check_compiled : Ready → UnsignedPayloadEvidence → Result LinkError (Unit {0})
  check_compiled r compiled = do
    expected ← binding_bytes r.binding.unsigned_payload
    require
        (text_eq compiled.hash r.binding.unsigned_payload_hash && text_eq compiled.payload expected)
        (link_error LinkCode.execution_conflict)

  unfoldable pub commitment_for : Node → ExecutionContext → Result LinkError (Option V2Record)
  commitment_for node context = map_err LinkError.store (
      local_execution_commitment_for host.protocol context.intent.record_id
        context.intent.authority.key_id node.store)

  -- A commitment that was created, or that another call has created meanwhile.
  abbrev created : ExecutionContext → Node → Result LinkError V2Record → Result LinkError V2Record
  created context after (ok commitment) = ok commitment
  created context after (err e) =
      if is_transition_conflict e
      then (commitment_for after context >>= λ held. non_null e held)
      else err e

  unfoldable pub obtain_commitment :
      Node → ExecutionContext → Result LinkError V2Record → Node → Result LinkError V2Record
  obtain_commitment node context creation after = do
    held ← commitment_for node context
    elim held [ none ↦ created context after creation | some commitment ↦ ok commitment ]

  -- `assertClaim`: everything again, at the time of the claim.
  unfoldable pub assert_claim : Ready → Node → Text → Result LinkError (Unit {0})
  assert_claim r node claimed_at = do
    fresh ← active_context host node r.binding.intent_record_id r.binding.account_id claimed_at
    p ← payment_row r.binding.payment_id node
    review ← execution_review host r.binding p fresh
    require
        (text_eq review.review_id r.review.review_id
          && not (is_over host claimed_at review.digest.confirm_before))
        (link_error LinkCode.review_expired)
    held ← commitment_for node fresh
    commitment ← non_null storage_failure held
    validate_commitment host commitment fresh r.binding review.digest.confirm_before
        (some claimed_at)

  unfoldable pub bound_claim : Ready → Node → BoundClaim
  bound_claim r node = record {
    intent_record_id = r.context.intent.record_id;
    review_id = r.review.review_id;
    unsigned_payload_hash = r.binding.unsigned_payload_hash;
    assert_claim =
        λ (claim : BoundPaymentClaim). as_callback (assert_claim r node claim.claimed_at);
  }

  -- The answer after the rite has ended: another confirmer may have won the claim.
  unfoldable pub end_confirm :
      Node → Ready → Result LinkError (Unit {0}) → Result LinkError ExecutionResult
  end_confirm node r outcome = do
    p ← payment_row r.binding.payment_id node
    elim outcome [
      | ok u ↦ durable_outcome node r.binding p r.review.review_id
      | err e ↦ if is_quoted p then err e else durable_outcome node r.binding p r.review.review_id
    ]

  unfoldable pub confirm_ready : Ready → Between → Result LinkError ExecutionResult
  confirm_ready r between = do
    compiled ← between.compiled
    check_compiled r compiled
    commitment ←
        obtain_commitment between.at_commitment r.context between.creation
          between.after_creation.node
    assert_timestamp host between.after_creation.now
    validate_commitment host commitment r.context r.binding r.review.digest.confirm_before
        (some between.after_creation.now)
    (let (outcome, last) = between.confirm (bound_claim r) in end_confirm last r outcome)

  unfoldable pub confirm : Moment → ConfirmInput → Between → Result LinkError ExecutionResult
  confirm m input between = do
    started ← start_confirm m input
    elim started [ Started.settled result ↦ ok result | Started.ready r ↦ confirm_ready r between ]
