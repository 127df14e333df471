-- ===== src/Records.antt =====
-- The signed records of sovereign/src/protocol/v2/records.ts, as their verifier returns them.
pub mod Link
pub mod Chain
mod Agreement
pub mod Samples
mod Tests
use cashloom.Prelude.{ℕ, Bool, true, false, Option, List, Text, Result, lit}

pub data V2Schema : Type 0 where
  node_descriptor payment_request payment_intent execution_commitment : V2Schema
  submission_receipt settlement_receipt asset_trust_manifest : V2Schema

pub data V2Disclosure : Type 0 where
  open_to_all private_to_one : V2Disclosure

pub data NodeRole : Type 0 where
  merchant payer relay watcher : NodeRole

pub data NodeEndpointRel : Type 0 where
  record_read records_ingest : NodeEndpointRel

pub data SubmissionState : Type 0 where
  submitted submission_unknown : SubmissionState

pub data SettlementOutcome : Type 0 where
  settled : SettlementOutcome

pub data SettlementEvidenceKind : Type 0 where
  chain_finality_reference provider_event_reference merchant_observation : SettlementEvidenceKind

-- `algorithm` has one value and is left out.
pub record SelfCertifyingAuthority : Type 0 where
  pub key_id : Text
  pub public_key : Text

pub record NodeEndpoint : Type 0 where
  pub rel : NodeEndpointRel
  pub path : Text

-- `policy` is the embedded policy's exact canonical text.
pub record AssetTrustBinding : Type 0 where
  pub manifest_record_id : Text
  pub manifest_authority_key_id : Text
  pub policy : Text
  pub policy_hash : Text

pub record NodeDescriptor : Type 0 where
  pub roles : List NodeRole
  pub endpoints : List NodeEndpoint

pub record PaymentRequest : Type 0 where
  pub rail : Text
  pub destination : Text
  pub asset_id : Text
  pub amount_atomic : Text
  pub purpose_hash : Text
  pub asset_trust : AssetTrustBinding

pub record PaymentIntent : Type 0 where
  pub rail : Text
  pub destination : Text
  pub source_account : Text
  pub asset_id : Text
  pub amount_atomic : Text
  pub fee_asset_id : Text
  pub fee_limit_scope : Text
  pub max_fee_atomic : Text
  pub payment_asset_trust : AssetTrustBinding
  pub fee_asset_trust : AssetTrustBinding

pub record ExecutionCommitment : Type 0 where
  pub rail : Text
  pub source_account : Text
  pub destination : Text
  pub asset_id : Text
  pub amount_atomic : Text
  pub fee_asset_id : Text
  pub fee_limit_scope : Text
  pub max_fee_atomic : Text
  pub reservation_id : Text
  pub unsigned_payload_hash : Text

pub record SubmissionReceipt : Type 0 where
  pub signed_payload_hash : Text
  pub operation_id : Text
  pub state : SubmissionState
  pub submitted_at : Text

pub record SettlementReceipt : Type 0 where
  pub asserted_outcome : SettlementOutcome
  pub attestation_scope : Text
  pub evidence_kind : SettlementEvidenceKind
  pub evidence_hash : Text
  pub observed_at : Text

-- What a schema adds to the common core; a manifest is its exact canonical text.
pub data Body : Type 0 where
  node_descriptor : NodeDescriptor → Body
  payment_request : PaymentRequest → Body
  payment_intent : PaymentIntent → Body
  execution_commitment : ExecutionCommitment → Body
  submission_receipt : SubmissionReceipt → Body
  settlement_receipt : SettlementReceipt → Body
  asset_trust_manifest : Text → Body

pub record V2Record : Type 0 where
  pub authority : SelfCertifyingAuthority
  pub audience : Text
  pub disclosure : V2Disclosure
  pub nonce : Text
  pub issued_at : Text
  pub expires_at : Text
  pub parent_record_id : Option Text
  pub body : Body
  pub signature : Text
  pub record_id : Text

abbrev pub schema_of : Body → V2Schema
schema_of (Body.node_descriptor _) = V2Schema.node_descriptor
schema_of (Body.payment_request _) = V2Schema.payment_request
schema_of (Body.payment_intent _) = V2Schema.payment_intent
schema_of (Body.execution_commitment _) = V2Schema.execution_commitment
schema_of (Body.submission_receipt _) = V2Schema.submission_receipt
schema_of (Body.settlement_receipt _) = V2Schema.settlement_receipt
schema_of (Body.asset_trust_manifest _) = V2Schema.asset_trust_manifest

-- `wallet` stands for the codes that the wallet package throws by itself.
pub data ProtocolError : Type 0 where
  invalid_input limit_exceeded integrity_failure signature_invalid : ProtocolError
  authority_mismatch invalid_state_transition : ProtocolError
  wallet : Text → ProtocolError

abbrev pub Bytes : Type 0
Bytes = List ℕ

-- The parser and signature check of a single record, which rest on the wallet package, and the
-- host's own functions: `Date.parse` (`none` for NaN), `TextEncoder`, a fatal `TextDecoder`
-- (`none` where it throws), and the wallet package's tests of a timestamp
-- and of a content id.
pub record Protocol : Type 0 where
  pub verify : Bytes → Result ProtocolError V2Record
  pub encode : Text → Bytes
  pub decode : Bytes → Option Text
  pub date_parse : Text → Option ℕ
  pub is_timestamp : Text → Bool
  pub is_sha256_id : Text → Bool
