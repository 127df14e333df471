-- ===== src/Payments.antt =====
-- The `payments` table of sovereign/src/db.ts, which the payment rite (sovereign/src/pay.ts) and
-- the nonce coordinator (sovereign/src/senders/evm-nonce.ts) both write.
use cashloom.Prelude.{Option, Text, Bool, true, false}

-- The values that the code ever writes into `status`.
pub data PaymentStatus : Type 0 where
  quoted confirmed broadcast failed : PaymentStatus

unfoldable pub status_eq : PaymentStatus → PaymentStatus → Bool
status_eq quoted quoted = true
status_eq confirmed confirmed = true
status_eq broadcast broadcast = true
status_eq failed failed = true
status_eq _ _ = false

pub record Payment : Type 0 where
  pub id : Text
  pub account_id : Text
  pub rail : Text
  pub to_addr : Text
  pub asset : Text
  pub amount_minor : Text
  pub fee_minor : Option Text
  pub execution_fee_ceiling_minor : Option Text
  pub status : PaymentStatus
  pub tx_hash : Option Text
  pub error : Option Text
  pub detail : Option Text
  pub created_at : Text
  pub updated_at : Option Text
