-- ===== src/Pay.antt =====
-- sovereign/src/pay.ts: the state of the payment rite, its errors, and the sender interface of
-- sovereign/src/senders/types.ts, behind which the BTC and EVM senders stand. The children model
-- the two steps of the rite, and what any interleaving of them keeps.
pub mod Accounts
pub mod Quote
pub mod Claim
pub mod Settle
pub mod Status
pub mod Claims
pub mod World
pub mod Rite
pub mod Once
mod Recorded
pub mod Outcomes
mod Tests
use cashloom.Prelude.{ℕ, Option, List, Text, Result}
use cashloom.Payments.{Payment, PaymentStatus}
use cashloom.Ledger.{Transaction}

pub record Account : Type 0 where
  pub id : Text
  pub rail : Text
  pub display_name : Text
  pub currency : Text
  pub decimals : ℕ
  pub external_account_id : Option Text
  pub vault_key_id : Option Text
  pub active : Text

-- A row of `cashloom_v2_btc_payment_bindings`.
pub record Binding : Type 0 where
  pub intent_record_id : Text
  pub payment_id : Text
  pub account_id : Text
  pub review_id : Text
  pub reservation_id : Text
  pub unsigned_payload : List ℕ
  pub unsigned_payload_hash : Text
  pub quote_expires_at : Text
  pub created_at : Text

pub record PayDb : Type 0 where
  pub accounts : List Account
  pub payments : List Payment
  pub bindings : List Binding
  pub transactions : List Transaction

-- One constructor for each `throw` of the rite, and for what a callee throws.
pub data PayError : Type 0 where
  no_active_account no_signing_key no_sender : PayError
  sender_threw : Text → PayError
  bad_clock date_out_of_range inconsistent_evidence : PayError
  duplicate_payment_id : PayError
  callback_threw : Text → PayError
  callback_is_async : PayError
  no_payment : PayError
  unavailable : Option PaymentStatus → PayError
  bound_door binding_mismatch binding_stale no_binding quote_expired : PayError

-- How a synchronous callback ends; `promise` stands for any thenable that it returns.
pub data Callback : Type 0 where
  returns : Callback
  throws : Text → Callback
  promise : Callback

pub record PaymentQuote : Type 0 where
  pub fee_minor : Text
  pub execution_fee_ceiling_minor : Option Text
  pub fee_asset : Text
  pub summary : Text
  pub detail : Option Text
  pub unsigned_payload : Option (List ℕ)
  pub unsigned_payload_hash : Option Text

pub record PaymentInstruction : Type 0 where
  pub to : Text
  pub amount_minor : Text
  pub asset : Text

pub record PaymentSender : Type 0 where
  pub type : Text
  pub assets : List Text
  pub quote : Text → PaymentInstruction → Result Text PaymentQuote

-- What the rite takes from its surroundings: the digest of @agenttool/wallet and the JavaScript
-- engine's case mapping and dates. A date is counted in milliseconds from the first instant that a
-- JavaScript date can hold, so that it is a natural number; `none` is NaN, or a RangeError.
pub record Engine : Type 0 where
  pub sha256_bytes_id : List ℕ → Text
  pub to_upper : Text → Text
  pub date_parse : Text → Option ℕ
  pub to_iso : ℕ → Option Text
