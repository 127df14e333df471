-- ===== src/Records/Link.antt =====
-- One parent edge: `assertImmediateLink` of sovereign/src/protocol/v2/records.ts and the helpers
-- it calls.
use cashloom.Prelude.{
  ℕ, Bool, true, false, ◌&&◌, ◌||◌, not, Option, none, some, List, [], ◌∷◌, Text, lit, text_eq, ltb,
  leb, any, Result, ok, err, ◌>>=◌, ◌>>◌, require,
}
use cashloom.Records.{
  V2Disclosure, NodeRole, SelfCertifyingAuthority, Body, V2Record, ProtocolError, Protocol, Bytes,
  PaymentRequest, PaymentIntent, ExecutionCommitment, NodeDescriptor,
}

abbrev pub is_public : V2Disclosure → Bool
is_public V2Disclosure.open_to_all = true
is_public V2Disclosure.private_to_one = false

abbrev pub is_merchant : NodeRole → Bool
is_merchant NodeRole.merchant = true
is_merchant _ = false

unfoldable pub same_authority :
    SelfCertifyingAuthority → SelfCertifyingAuthority → Result ProtocolError (Unit {0})
same_authority left right =
    require (text_eq left.key_id right.key_id && text_eq left.public_key right.public_key)
      ProtocolError.authority_mismatch

-- `new Set(values).size === 1`
unfoldable pub all_same : Text → List Text → Bool
all_same value [] = true
all_same value (x ∷ xs) = text_eq value x && all_same value xs

unfoldable pub same_payment_field : Text → List Text → Result ProtocolError (Unit {0})
same_payment_field value values = require (all_same value values) ProtocolError.integrity_failure

abbrev pub is_some_text : Option Text → Text → Bool
is_some_text none id = false
is_some_text (some x) id = text_eq x id

-- `a < b` on the results of `Date.parse`: a NaN is before nothing.
abbrev pub before : Option ℕ → Option ℕ → Bool
before none b = false
before (some a) none = false
before (some a) (some b) = ltb a b

-- `a >= b` on the same
abbrev pub reached : Option ℕ → Option ℕ → Bool
reached none b = false
reached (some a) none = false
reached (some a) (some b) = leb b a

module _ (protocol : Protocol) where
  unfoldable pub parent_of : V2Record → V2Record → Bool → Result ProtocolError (Unit {0})
  parent_of child parent require_parent_active = do
    require (is_some_text child.parent_record_id parent.record_id) ProtocolError.integrity_failure
    let child_issued = protocol.date_parse child.issued_at
    require (not (before child_issued (protocol.date_parse parent.issued_at)))
        ProtocolError.invalid_input
    require
        (not
          (require_parent_active && reached child_issued (protocol.date_parse parent.expires_at)))
        ProtocolError.invalid_state_transition

  unfoldable pub request_link :
      V2Record → V2Record → NodeDescriptor → Result ProtocolError (Unit {0})
  request_link child parent descriptor = do
    parent_of child parent true
    require (any is_merchant descriptor.roles) ProtocolError.authority_mismatch
    same_authority child.authority parent.authority

  unfoldable pub intent_link :
      V2Record → V2Record → PaymentIntent → PaymentRequest → Result ProtocolError (Unit {0})
  intent_link child parent intent request = do
    parent_of child parent true
    require (text_eq child.audience parent.authority.key_id) ProtocolError.authority_mismatch
    require
        (text_eq parent.audience (lit "public") || text_eq parent.audience child.authority.key_id)
        ProtocolError.authority_mismatch
    same_payment_field request.asset_id (intent.asset_id ∷ [])
    same_payment_field request.amount_atomic (intent.amount_atomic ∷ [])
    same_payment_field request.rail (intent.rail ∷ [])
    same_payment_field request.destination (intent.destination ∷ [])

  unfoldable pub commitment_link :
      V2Record → V2Record → ExecutionCommitment → PaymentIntent → Result ProtocolError (Unit {0})
  commitment_link child parent commitment intent = do
    parent_of child parent true
    same_authority child.authority parent.authority
    require (text_eq child.audience parent.audience) ProtocolError.authority_mismatch
    same_payment_field intent.source_account (commitment.source_account ∷ [])
    same_payment_field intent.rail (commitment.rail ∷ [])
    same_payment_field intent.destination (commitment.destination ∷ [])
    same_payment_field intent.asset_id (commitment.asset_id ∷ [])
    same_payment_field intent.amount_atomic (commitment.amount_atomic ∷ [])
    same_payment_field intent.fee_asset_id (commitment.fee_asset_id ∷ [])
    same_payment_field intent.fee_limit_scope (commitment.fee_limit_scope ∷ [])
    same_payment_field intent.max_fee_atomic (commitment.max_fee_atomic ∷ [])

  -- The two times are those at which the child and the parent say that the operation happened.
  unfoldable pub submission_link : V2Record → V2Record → Text → Result ProtocolError (Unit {0})
  submission_link child parent submitted_at = do
    parent_of child parent true
    require (not (before (protocol.date_parse submitted_at) (protocol.date_parse parent.issued_at)))
        ProtocolError.invalid_state_transition
    same_authority child.authority parent.authority
    require (text_eq child.audience parent.audience) ProtocolError.authority_mismatch

  unfoldable pub settlement_link :
      V2Record → V2Record → Text → Text → Result ProtocolError (Unit {0})
  settlement_link child parent observed_at submitted_at = do
    parent_of child parent false
    require (not (before (protocol.date_parse observed_at) (protocol.date_parse submitted_at)))
        ProtocolError.invalid_state_transition
    require
        (text_eq child.authority.key_id parent.audience
          && text_eq child.audience parent.authority.key_id)
        ProtocolError.authority_mismatch

  -- The `switch` on the child's schema
  unfoldable pub link_by_schema :
      V2Record → V2Record → Body → Body → Result ProtocolError (Unit {0})
  link_by_schema child parent (Body.payment_request request) (Body.node_descriptor descriptor) =
      request_link child parent descriptor
  link_by_schema child parent (Body.payment_intent intent) (Body.payment_request request) =
      intent_link child parent intent request
  link_by_schema child parent (Body.execution_commitment commitment) (Body.payment_intent intent) =
      commitment_link child parent commitment intent
  link_by_schema child parent (Body.submission_receipt submission) (Body.execution_commitment _) =
      submission_link child parent submission.submitted_at
  link_by_schema child parent (Body.settlement_receipt settlement)
        (Body.submission_receipt submission) =
      settlement_link child parent settlement.observed_at submission.submitted_at
  link_by_schema child parent _ _ = err ProtocolError.invalid_input

  unfoldable pub assert_immediate_link : V2Record → V2Record → Result ProtocolError (Unit {0})
  assert_immediate_link child parent = do
    require (not (is_public child.disclosure) || is_public parent.disclosure)
        ProtocolError.invalid_state_transition
    require
        (not (
          text_eq child.authority.key_id parent.authority.key_id
          && text_eq child.nonce parent.nonce))
        ProtocolError.integrity_failure
    link_by_schema child parent child.body parent.body

  unfoldable pub verify_v2_record_link : Bytes → Bytes → Result ProtocolError (V2Record × V2Record)
  verify_v2_record_link child_value parent_value = do
    child ← protocol.verify child_value
    parent ← protocol.verify parent_value
    checked ← assert_immediate_link child parent
    ok (child, parent)
