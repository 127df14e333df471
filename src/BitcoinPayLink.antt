-- ===== src/BitcoinPayLink.antt =====
-- The execution of Bitcoin payment links, sovereign/src/pay/bitcoin-pay-link.ts: its errors, its
-- reviews and results, and the state that it shares with the payment rite and the record store.
mod Asserts
mod Context
mod Review
mod Stored
mod Prepare
mod Confirm
mod Status
mod Kept
mod Admitted
mod Reviewed
mod Signed
mod Prepared
mod Confirmable
mod Offered
mod Granted
mod Told
mod SampleRecords
mod Samples
mod Tests
use cashloom.Prelude.{ℕ, Bool, Option, List, Text, Result, lit}
use cashloom.Pay.{PayDb, PayError, Engine}
use cashloom.Records.{V2Record, PaymentIntent, ProtocolError, Protocol}
use cashloom.RecordStore.{StoreConfig, StoreDb, StoreError}
use cashloom.AssetTrust.{AssetTrustManifest, AssetTrustPolicy, TrustHost}
use cashloom.AssetTrust.Parse.{TrustError}
use cashloom.BitcoinProfile.{ProfileError, BitcoinHost}

pub data LinkCode : Type 0 where
  node_not_activated intent_not_locally_authored intent_inactive wrong_bitcoin_profile : LinkCode
  asset_policy_rejected account_source_mismatch fee_limit_exceeded execution_conflict : LinkCode
  review_expired payment_not_ready storage_integrity_failure : LinkCode

-- The adapter's own errors, and those that its callees throw through it; `assertion` is the wallet
-- package's, `constraint_failed` SQLite's, and `threw` that of a sender.
pub data LinkError : Type 0 where
  link : LinkCode → LinkError
  store : StoreError → LinkError
  protocol : ProtocolError → LinkError
  profile : ProfileError → LinkError
  trust : TrustError → LinkError
  pay : PayError → LinkError
  assertion constraint_failed : LinkError
  threw : Text → LinkError

-- A row of `vault_keys`, but for its secret.
pub record VaultKey : Type 0 where
  pub id : Text
  pub kind : Text
  pub address : Option Text

-- The database and the node's own key.
pub record Node : Type 0 where
  pub pay : PayDb
  pub vault_keys : List VaultKey
  pub store : StoreDb
  pub config : StoreConfig

-- The node at one instant: what a synchronous stretch of the code sees.
pub record Moment : Type 0 where
  pub node : Node
  pub now : Text

pub record ExecutionAccountRow : Type 0 where
  pub id : Text
  pub rail : Text
  pub display_name : Text
  pub currency : Text
  pub decimals : ℕ
  pub external_account_id : Option Text
  pub vault_key_id : Option Text
  pub status : Text
  pub key_kind : Option Text
  pub key_address : Option Text

-- `terms` is the body of `intent`.
pub record ExecutionContext : Type 0 where
  pub intent : V2Record
  pub terms : PaymentIntent
  pub request : V2Record
  pub account : ExecutionAccountRow

pub record ReviewDigest : Type 0 where
  pub payment_id : Text
  pub intent_record_id : Text
  pub request_record_id : Text
  pub merchant_key_id : Text
  pub account_id : Text
  pub source_address : Text
  pub destination : Text
  pub amount_sats : Text
  pub fee_sats : Text
  pub total_sats : Text
  pub max_fee_sats : Text
  pub reservation_id : Text
  pub unsigned_payload_hash : Text
  pub quote_expires_at : Text
  pub intent_expires_at : Text
  pub confirm_before : Text

-- The fields that are not constant; those of the digest stand in it.
pub record ExecutionReview : Type 0 where
  pub review_id : Text
  pub digest : ReviewDigest
  pub account_label : Text

pub record ReservationDigest : Type 0 where
  pub intent_record_id : Text
  pub payment_id : Text
  pub account_id : Text
  pub unsigned_payload_hash : Text

pub record PreparedExecution : Type 0 where
  pub review : ExecutionReview
  pub reused : Bool

pub data ExecutionStatus : Type 0 where
  broadcast broadcast_unknown failed : ExecutionStatus

-- The four sentences of `resultFromPayment`
pub data OutcomeNote : Type 0 where
  needs_reconciliation failed_before_egress claim_began outcome_unknown : OutcomeNote

pub record ExecutionResult : Type 0 where
  pub payment_id : Text
  pub review_id : Text
  pub status : ExecutionStatus
  pub tx_hash : Option Text
  pub error : Option OutcomeNote

pub data SnapshotStatus : Type 0 where
  outcome : ExecutionStatus → SnapshotStatus
  awaiting_confirmation not_sent : SnapshotStatus

-- A sentence of the result, that of an expired review, or the message of the error that was caught.
pub data SnapshotNote : Type 0 where
  of_outcome : OutcomeNote → SnapshotNote
  review_expired : SnapshotNote
  refused : LinkCode → SnapshotNote

pub record ExecutionSnapshot : Type 0 where
  pub payment_id : Text
  pub review_id : Text
  pub intent_record_id : Text
  pub status : SnapshotStatus
  pub can_confirm : Bool
  pub tx_hash : Option Text
  pub error : Option SnapshotNote

-- `ConfirmBitcoinPayLinkExecutionInput`, which `status` takes too
pub record ConfirmInput : Type 0 where
  pub payment_id : Text
  pub review_id : Text

pub record PrepareInput : Type 0 where
  pub intent_record_id : Text
  pub account_id : Text

-- `unsignedPayloadFor` compiles one.
pub record UnsignedPayloadEvidence : Type 0 where
  pub payload : List ℕ
  pub hash : Text

-- What the adapter takes from its surroundings: the hosts of the modules that it calls, the
-- verification of a record that is already parsed, the manifest and the policy that a canonical
-- text holds, the content ids of the wallet package, and the transaction id that the Bitcoin
-- library derives from an unsigned payload.
pub record LinkHost : Type 0 where
  pub engine : Engine
  pub protocol : Protocol
  pub trust : TrustHost
  pub bitcoin : BitcoinHost
  pub verify_record : V2Record → Result ProtocolError V2Record
  pub manifest_of : Text → AssetTrustManifest
  pub policy_of : Text → AssetTrustPolicy
  pub review_sha256_id : ReviewDigest → Text
  pub reservation_sha256_id : ReservationDigest → Text
  pub txid_of : List ℕ → Result Text Text

abbrev pub review_placeholder : Text
review_placeholder = lit "sha256:0000000000000000000000000000000000000000000000000000000000000000"
