-- ===== src/RecordStore.antt =====
-- The append-only store of signed records: the state of sovereign/src/protocol/v2/record-store.ts,
-- and the tables of sovereign/src/protocol/v2/schema.ts.
pub mod Insert
mod Append
pub mod Reads
mod Steps
mod Sound
mod Edges
mod Successors
mod Recall
mod Disclosure
mod Batch
mod Tests
use cashloom.Prelude.{ℕ, Bool, Option, List, Text, lit}
use cashloom.Records.{V2Schema, V2Disclosure, V2Record, ProtocolError, Bytes}

pub data V2RecordSource : Type 0 where
  from_local from_remote : V2RecordSource

pub record RemoteIngestLimits : Type 0 where
  pub max_record_count : ℕ
  pub max_canonical_bytes : ℕ

-- The options but for the database and the clock, which the operations take.
pub record StoreConfig : Type 0 where
  pub local_node_key_id : Option Text
  pub remote_limits : RemoteIngestLimits

-- A row of `cashloom_v2_records`
pub record StoredRow : Type 0 where
  pub record_id : Text
  pub schema : V2Schema
  pub kind : Text
  pub issuer_key_id : Text
  pub audience : Text
  pub nonce : Text
  pub disclosure : V2Disclosure
  pub canonical_json : Text
  pub created_at : Text
  pub expires_at : Text
  pub source : V2RecordSource
  pub received_at : Text

-- A row of `cashloom_v2_record_parents`
pub record ParentEdge : Type 0 where
  pub child_record_id : Text
  pub position : ℕ
  pub parent_record_id : Text

-- The row of `cashloom_v2_ingest_usage`
pub record UsageRow : Type 0 where
  pub remote_record_count : ℕ
  pub remote_canonical_bytes : ℕ
  pub updated_at : Text

-- Rows stand in insertion order; `usage` is `none` when the single row is missing.
pub record StoreDb : Type 0 where
  pub records : List StoredRow
  pub parents : List ParentEdge
  pub usage : Option UsageRow

-- The codes of `V2RecordStoreError`, with the record that a conflict names, and what a call lets
-- through: the protocol's errors, a constraint that SQLite refuses, and bytes that are no UTF-8.
-- `invalid_configuration` is thrown on values that the types here exclude.
pub data StoreError : Type 0 where
  invalid_configuration private_audience_mismatch parent_not_found : StoreError
  remote_limit_exceeded storage_integrity_failure : StoreError
  issuer_nonce_conflict transition_conflict : Text → StoreError
  protocol_error : ProtocolError → StoreError
  constraint_failed undecodable : StoreError

pub record AppendInput : Type 0 where
  pub canonical_bytes : Bytes
  pub source : V2RecordSource

pub record AppendResult : Type 0 where
  pub held : V2Record
  pub inserted : Bool
  pub canonical_bytes : ℕ
  pub source : V2RecordSource

-- `KIND_BY_SCHEMA`
abbrev pub kind_by_schema : V2Schema → Text
kind_by_schema V2Schema.node_descriptor = lit "node_descriptor"
kind_by_schema V2Schema.payment_request = lit "payment_request"
kind_by_schema V2Schema.payment_intent = lit "payment_intent"
kind_by_schema V2Schema.execution_commitment = lit "execution_commitment"
kind_by_schema V2Schema.submission_receipt = lit "submission_receipt"
kind_by_schema V2Schema.settlement_receipt = lit "settlement_receipt"
kind_by_schema V2Schema.asset_trust_manifest = lit "asset_trust_manifest"
