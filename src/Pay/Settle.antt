-- ===== src/Pay/Settle.antt =====
-- The second half of `confirmPayment` of sovereign/src/pay.ts: what the signing hook and the
-- outcome of the one send leave in the payment's row and in the ledger.
use cashloom.Prelude.{
  Bool, Option, none, some, List, [], ◌∷◌, ◌++◌, Text, lit, text_eq, take, update, Result, ok, err,
  ◌>>=◌, if◌then◌else◌,
}
use cashloom.Payments.{Payment, PaymentStatus}
use cashloom.Ledger.{Transaction, Source, insert_or_ignore}
use cashloom.Pay.{PayDb, PayError, Engine}
use cashloom.Pay.Claim.{Claimed, ClaimResult, ConfirmRuntime, confirm_start, claim}

-- How `sender.send` ends: an AmbiguousBroadcastError, any other error, or a receipt.
pub data SendOutcome : Type 0 where
  ambiguous : Option Text → Text → SendOutcome
  refused : Text → SendOutcome
  sent : Text → Option Text → SendOutcome

-- Whether the bookkeeping after a broadcast succeeds, or which of its two statements throws. The
-- flag says whether the error note could be written.
pub data Recording : Type 0 where
  recorded : Recording
  status_write_threw : Text → Bool → Recording
  ledger_write_threw : Text → Bool → Recording

pub record ConfirmResult : Type 0 where
  pub payment_id : Text
  pub status : PaymentStatus
  pub tx_hash : Option Text
  pub error : Option Text

unfoldable pub set_where : Text → (Payment → Payment) → PayDb → PayDb
set_where id change db = record db { payments = update (λ p. text_eq p.id id) change db.payments }

-- The `onSigned` hook: the id of the signed transaction, before the network hears it.
unfoldable pub on_signed : Text → Text → Text → PayDb → PayDb
unfolding set_where
on_signed payment_id external_id now =
    set_where payment_id (λ p. record p { tx_hash = some external_id; updated_at = some now })

abbrev pub set_error : Text → Text → Payment → Payment
set_error message now p = record p { error = some message; updated_at = some now }

abbrev pub set_failed : Text → Text → Payment → Payment
set_failed message now p = record p {
  status = PaymentStatus.failed;
  error = some message;
  updated_at = some now;
}

abbrev pub set_broadcast : Text → Text → Payment → Payment
set_broadcast external_id now p = record p {
  status = PaymentStatus.broadcast;
  tx_hash = some external_id;
  updated_at = some now;
}

abbrev or_else : Option Text → Text → Text
or_else none t = t
or_else (some s) t = s

-- The ledger row of a send: money out, by the rail's exact total where it knows one.
unfoldable pub ledger_row : Payment → Text → Text → Option Text → Text → Text → Transaction
ledger_row row account_id external_id total_out new_id now = record {
  id = new_id;
  account_id = account_id;
  external_id = some external_id;
  title = lit "pay · " ++ (row.asset ++ (lit " → " ++ (take 12 row.to_addr ++ lit "…")));
  amount_minor = lit "-" ++ or_else total_out row.amount_minor;
  date = now;
  source = Source.payment;
  raw = none;
}

unfoldable pub note : Text → Text → Text
note external_id message =
    lit "Broadcast succeeded (txid "
    ++ (external_id
        ++ (lit "); recording it locally failed: "
            ++ (message ++ lit ". Do NOT re-quote — the payment is live.")))

unfoldable pub write_note : Text → Text → Text → Bool → Text → PayDb → PayDb
unfolding set_where
write_note payment_id external_id message written now db =
    if written then set_where payment_id (set_error (note external_id message) now) db else db

abbrev pub recording_failed : Text → Text → Text → ConfirmResult
recording_failed payment_id external_id message = record {
  payment_id = payment_id;
  status = PaymentStatus.confirmed;
  tx_hash = some external_id;
  error = some (note external_id message);
}

-- The bookkeeping after a broadcast that succeeded.
unfoldable pub record_sent :
    Claimed → Text → Option Text → Recording → Text → Text → PayDb → ConfirmResult × PayDb
unfolding set_where
record_sent c external_id total_out Recording.recorded new_id now db =
    let marked = set_where c.row.id (set_broadcast external_id now) db in
    (
      record {
        payment_id = c.row.id;
        status = PaymentStatus.broadcast;
        tx_hash = some external_id;
        error = none;
      },
      record marked {
        transactions =
            insert_or_ignore (ledger_row c.row c.account.id external_id total_out new_id now)
              marked.transactions;
      },
    )
record_sent c external_id total_out (Recording.status_write_threw message written) new_id now db = (
  recording_failed c.row.id external_id message,
  write_note c.row.id external_id message written now db,
)
record_sent c external_id total_out (Recording.ledger_write_threw message written) new_id now db = (
  recording_failed c.row.id external_id message,
  write_note c.row.id external_id message written now
      (set_where c.row.id (set_broadcast external_id now) db),
)

-- Everything after `sender.send`.
unfoldable pub settle :
    Claimed → SendOutcome → Recording → Text → Text → PayDb → ConfirmResult × PayDb
unfolding set_where
settle c (SendOutcome.ambiguous external_id message) recording new_id now db = (
  record {
    payment_id = c.row.id;
    status = PaymentStatus.confirmed;
    tx_hash = external_id;
    error = some message;
  },
  set_where c.row.id (set_error message now) db,
)
settle c (SendOutcome.refused message) recording new_id now db = (
  record {
    payment_id = c.row.id;
    status = PaymentStatus.failed;
    tx_hash = none;
    error = some message;
  },
  set_where c.row.id (set_failed message now) db,
)
settle c (SendOutcome.sent external_id total_out) recording new_id now db =
    record_sent c external_id total_out recording new_id now db

-- What the send does: the ids that it hands to `onSigned`, in order, and how it ends.
pub record Send : Type 0 where
  pub signed : List Text
  pub outcome : SendOutcome

unfoldable pub on_signed_all : Text → List Text → Text → PayDb → PayDb
on_signed_all payment_id [] now db = db
on_signed_all payment_id (t ∷ ts) now db =
    on_signed_all payment_id ts now (on_signed payment_id t now db)

-- The result with the database that the call leaves: an unavailable or an expired claim has
-- committed before `confirmPayment` throws.
unfoldable pub finish :
    (Claimed → Send)
    → Recording
    → Text
    → Text
    → ClaimResult × PayDb
    → Result PayError ConfirmResult × PayDb
finish send recording new_id now (ClaimResult.unavailable status, db) =
    (err (PayError.unavailable status), db)
finish send recording new_id now (ClaimResult.expired, db) = (err PayError.quote_expired, db)
finish send recording new_id now (ClaimResult.claimed c, db) =
    let outcome = (send c).outcome in
    let (result, last) =
      settle c outcome recording new_id now (on_signed_all c.row.id (send c).signed now db) in
    (ok result, last)

-- `confirmPayment` with nothing in between its steps.
unfoldable pub confirm_payment :
    Engine
    → Text
    → ConfirmRuntime
    → (Claimed → Send)
    → Recording
    → Text
    → Text
    → PayDb
    → Result PayError ConfirmResult × PayDb
confirm_payment engine payment_id runtime send recording new_id now db =
    elim (do u ← confirm_start engine payment_id runtime db; claim engine payment_id runtime db) [
      | err e ↦ (err e, db)
      | ok after ↦ finish send recording new_id now after
    ]
