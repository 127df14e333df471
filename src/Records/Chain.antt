-- ===== src/Records/Chain.antt =====
-- `verifyV2RecordChain` of sovereign/src/protocol/v2/records.ts: the six records from a merchant's
-- descriptor to the settlement receipt.
use cashloom.Prelude.{
  Bool, true, ◌&&◌, ◌||◌, not, Option, none, some, List, [], ◌∷◌, Text, lit, text_eq, any, Result,
  ok, err, ◌>>=◌, ◌>>◌, require, length, ◌==◌,
}
use cashloom.Records.{
  Body, V2Record, ProtocolError, Protocol, Bytes, NodeDescriptor, PaymentRequest, PaymentIntent,
  ExecutionCommitment,
}
use cashloom.Records.Link.{
  is_merchant, same_authority, same_payment_field, before, reached, assert_immediate_link,
}

pub record VerifiedV2Chain : Type 0 where
  pub node_descriptor : V2Record
  pub payment_request : V2Record
  pub payment_intent : V2Record
  pub execution_commitment : V2Record
  pub submission_receipt : V2Record
  pub settlement_receipt : V2Record

-- The four bodies that the chain's own comparisons read.
pub record Parts : Type 0 where
  pub descriptor : NodeDescriptor
  pub request : PaymentRequest
  pub intent : PaymentIntent
  pub commitment : ExecutionCommitment

abbrev by_schema : Body → Body → Body → Body → Body → Body → Result ProtocolError Parts
by_schema (Body.node_descriptor d) (Body.payment_request r) (Body.payment_intent i)
      (Body.execution_commitment c) (Body.submission_receipt s) (Body.settlement_receipt t) =
    ok (record { descriptor = d; request = r; intent = i; commitment = c })
by_schema _ _ _ _ _ _ = err ProtocolError.invalid_input

-- The six calls of `expectSchema`
unfoldable pub expect_schemas : VerifiedV2Chain → Result ProtocolError Parts
expect_schemas c =
    by_schema c.node_descriptor.body c.payment_request.body c.payment_intent.body
      c.execution_commitment.body c.submission_receipt.body c.settlement_receipt.body

unfoldable pub check_authorities : VerifiedV2Chain → Result ProtocolError (Unit {0})
check_authorities c = do
  let merchant = c.node_descriptor.authority
  let payer = c.payment_intent.authority
  let asked = c.payment_request.audience
  same_authority c.payment_request.authority merchant
  require (text_eq asked (lit "public") || text_eq asked payer.key_id)
      ProtocolError.authority_mismatch
  require (text_eq c.payment_intent.audience merchant.key_id) ProtocolError.authority_mismatch
  same_authority c.execution_commitment.authority payer
  same_authority c.submission_receipt.authority payer
  require
      (text_eq c.execution_commitment.audience merchant.key_id
        && text_eq c.submission_receipt.audience merchant.key_id)
      ProtocolError.authority_mismatch
  same_authority c.settlement_receipt.authority merchant
  require (text_eq c.settlement_receipt.audience payer.key_id) ProtocolError.authority_mismatch

unfoldable pub check_fields : Parts → Result ProtocolError (Unit {0})
check_fields p = do
  let request = p.request
  let intent = p.intent
  let commitment = p.commitment
  same_payment_field request.asset_id (intent.asset_id ∷ commitment.asset_id ∷ [])
  same_payment_field request.amount_atomic (intent.amount_atomic ∷ commitment.amount_atomic ∷ [])
  same_payment_field intent.source_account (commitment.source_account ∷ [])
  same_payment_field intent.fee_asset_id (commitment.fee_asset_id ∷ [])
  same_payment_field intent.fee_limit_scope (commitment.fee_limit_scope ∷ [])
  same_payment_field intent.max_fee_atomic (commitment.max_fee_atomic ∷ [])
  same_payment_field request.rail (commitment.rail ∷ [])
  same_payment_field request.destination (commitment.destination ∷ [])

-- A record under the same authority with the same nonce
abbrev pub same_nonce : V2Record → V2Record → Bool
same_nonce r s = text_eq r.authority.key_id s.authority.key_id && text_eq r.nonce s.nonce

-- The loop over `noncesByAuthority`, with the records seen so far.
unfoldable pub nonces_distinct : List V2Record → List V2Record → Bool
nonces_distinct seen [] = true
nonces_distinct seen (r ∷ rs) = not (any (same_nonce r) seen) && nonces_distinct (r ∷ seen) rs

-- The records in the order of the chain
abbrev pub chain_list : VerifiedV2Chain → List V2Record
chain_list c =
    c.node_descriptor ∷ c.payment_request ∷ c.payment_intent ∷ c.execution_commitment
    ∷ c.submission_receipt ∷ c.settlement_receipt ∷ []

module _ (protocol : Protocol) where
  unfoldable pub check_links : VerifiedV2Chain → Result ProtocolError (Unit {0})
  check_links c = do
    assert_immediate_link protocol c.payment_request c.node_descriptor
    assert_immediate_link protocol c.payment_intent c.payment_request
    assert_immediate_link protocol c.execution_commitment c.payment_intent
    assert_immediate_link protocol c.submission_receipt c.execution_commitment
    assert_immediate_link protocol c.settlement_receipt c.submission_receipt

  unfoldable pub active_at : V2Record → Text → Result ProtocolError (Unit {0})
  active_at r now = do
    require (protocol.is_timestamp now) (ProtocolError.wallet (lit "timestamp"))
    let at = protocol.date_parse now
    require
        (not (
          before at (protocol.date_parse r.issued_at)
          || reached at (protocol.date_parse r.expires_at)))
        ProtocolError.invalid_state_transition

  unfoldable pub active_when : V2Record → Option Text → Result ProtocolError (Unit {0})
  active_when r none = ok tt
  active_when r (some now) = active_at r now

  unfoldable pub check_chain : VerifiedV2Chain → Option Text → Result ProtocolError VerifiedV2Chain
  check_chain c now = do
    parts ← expect_schemas c
    merchant ← require (any is_merchant parts.descriptor.roles) ProtocolError.authority_mismatch
    links ← check_links c
    authorities ← check_authorities c
    fields ← check_fields parts
    nonces ← require (nonces_distinct [] (chain_list c)) ProtocolError.integrity_failure
    active ← active_when c.settlement_receipt now
    ok c

  -- `values.map(verifyV2Record)`
  unfoldable pub verify_all : List Bytes → Result ProtocolError (List V2Record)
  verify_all [] = ok []
  verify_all (v ∷ vs) = do r ← protocol.verify v; rs ← verify_all vs; ok (r ∷ rs)

  abbrev pub chain_of : List V2Record → Result ProtocolError VerifiedV2Chain
  chain_of (d ∷ r ∷ i ∷ c ∷ s ∷ t ∷ []) = ok (record {
    node_descriptor = d;
    payment_request = r;
    payment_intent = i;
    execution_commitment = c;
    submission_receipt = s;
    settlement_receipt = t;
  })
  chain_of _ = err ProtocolError.invalid_input

  unfoldable pub verify_v2_record_chain :
      List Bytes → Option Text → Result ProtocolError VerifiedV2Chain
  verify_v2_record_chain values now = do
    six ← require (length values == 6) ProtocolError.invalid_input
    rs ← verify_all values
    c ← chain_of rs
    check_chain c now
