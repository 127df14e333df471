-- ===== src/Pay/Quote.antt =====
-- `quotePayment` of sovereign/src/pay.ts.
use cashloom.Prelude.{
  ℕ, ◌+◌, ◌*◌, Bool, true, false, Option, none, some, List, [], ◌∷◌, ◌++◌, Text, text_eq, trim, any,
  Result, ok, err, ◌>>=◌, ◌>>◌, require, if◌then◌else◌,
}
use cashloom.Payments.{Payment, PaymentStatus}
use cashloom.Pay.{
  Account, PayDb, PayError, Callback, PaymentQuote, PaymentInstruction, PaymentSender, Engine,
}
use cashloom.Pay.Accounts.{sender_for_asset, timestamp_now, sending_account}

-- QUOTE_TTL_MS
abbrev pub quote_ttl_ms : ℕ
quote_ttl_ms = 5 * 60 * 1000

pub record QuotePaymentOptions : Type 0 where
  pub account_id : Text
  pub intent : PaymentInstruction

-- The fields of the draft that the binding callback reads, beside those of the payment's row.
pub record PaymentQuoteDraft : Type 0 where
  pub payment : Payment
  pub vault_key_id : Option Text
  pub fee_asset : Text
  pub summary : Text
  pub unsigned_payload : Option (List ℕ)
  pub unsigned_payload_hash : Option Text
  pub expires_at : Text

pub record QuoteResult : Type 0 where
  pub payment_id : Text
  pub fee_minor : Text
  pub execution_fee_ceiling_minor : Option Text
  pub fee_asset : Text
  pub summary : Text
  pub expires_at : Text

-- `runtime`: `bind` is `none` where the caller gives no callback.
pub record QuoteRuntime : Type 0 where
  pub senders : List PaymentSender
  pub now : Text
  pub new_id : Text
  pub bind : Option (PaymentQuoteDraft → Callback)

abbrev pub run_callback : Callback → Result PayError (Unit {0})
run_callback Callback.returns = ok tt
run_callback (Callback.throws message) = err (PayError.callback_threw message)
run_callback Callback.promise = err PayError.callback_is_async

abbrev pub bind_draft :
    Option (PaymentQuoteDraft → Callback) → PaymentQuoteDraft → Result PayError (Unit {0})
bind_draft none draft = ok tt
bind_draft (some bind) draft = run_callback (bind draft)

-- `INSERT INTO payments`, with its primary key.
unfoldable pub insert_payment : Payment → PayDb → Result PayError PayDb
insert_payment p db =
    if any (λ q. text_eq q.id p.id) db.payments
    then err PayError.duplicate_payment_id
    else ok (record db { payments = db.payments ++ p ∷ [] })

-- The transaction: the callback runs after the INSERT, and its throw rolls the INSERT back.
unfoldable pub persist_quote :
    Option (PaymentQuoteDraft → Callback) → PaymentQuoteDraft → PayDb → Result PayError PayDb
persist_quote bind draft db = do
  next ← insert_payment draft.payment db
  bind_draft bind draft
  ok next

-- An empty ceiling is left out of the result.
abbrev non_empty : Option Text → Option Text
non_empty (some []) = none
non_empty ceiling = ceiling

module _ (engine : Engine) where
  -- The payload and its hash stand together, and the hash is the payload's.
  unfoldable pub consistent : Option (List ℕ) → Option Text → Bool
  consistent none none = true
  consistent (some payload) (some hash) = text_eq (engine.sha256_bytes_id payload) hash
  consistent _ _ = false

  unfoldable pub expiry : Text → Result PayError Text
  expiry created_at = elim (engine.date_parse created_at) [
    | none ↦ err PayError.bad_clock
    | some ms ↦ elim (engine.to_iso (ms + quote_ttl_ms)) [
      | none ↦ err PayError.date_out_of_range
      | some text ↦ ok text
    ]
  ]

  unfoldable pub quoted_payment :
      QuotePaymentOptions → QuoteRuntime → Account → PaymentSender → PaymentQuote → Text → Payment
  quoted_payment opts runtime account sender quote created_at = record {
    id = runtime.new_id;
    account_id = account.id;
    rail = sender.type;
    to_addr = opts.intent.to;
    asset = engine.to_upper (trim opts.intent.asset);
    amount_minor = opts.intent.amount_minor;
    fee_minor = some quote.fee_minor;
    execution_fee_ceiling_minor = quote.execution_fee_ceiling_minor;
    status = PaymentStatus.quoted;
    tx_hash = none;
    error = none;
    detail = quote.detail;
    created_at = created_at;
    updated_at = none;
  }

  abbrev ask_sender : PaymentSender → Account → PaymentInstruction → Result PayError PaymentQuote
  ask_sender sender account intent = elim account.vault_key_id [
    | none ↦ err PayError.no_signing_key
    | some key ↦ elim (sender.quote key intent) [
      | err message ↦ err (PayError.sender_threw message)
      | ok quote ↦ ok quote
    ]
  ]

  unfoldable pub quote_payment :
      QuotePaymentOptions → QuoteRuntime → PayDb → Result PayError (QuoteResult × PayDb)
  quote_payment opts runtime db = do
    account ← sending_account opts.account_id db
    sender ← sender_for_asset engine opts.intent.asset runtime.senders
    quote ← ask_sender sender account opts.intent
    created_at ← timestamp_now engine runtime.now
    expires_at ← expiry created_at
    require (consistent quote.unsigned_payload quote.unsigned_payload_hash)
        PayError.inconsistent_evidence
    let payment = quoted_payment opts runtime account sender quote created_at
    next ←
        persist_quote runtime.bind
          (record {
            payment = payment;
            vault_key_id = account.vault_key_id;
            fee_asset = quote.fee_asset;
            summary = quote.summary;
            unsigned_payload = quote.unsigned_payload;
            unsigned_payload_hash = quote.unsigned_payload_hash;
            expires_at = expires_at;
          })
          db
    ok (
      record {
        payment_id = runtime.new_id;
        fee_minor = quote.fee_minor;
        execution_fee_ceiling_minor = non_empty quote.execution_fee_ceiling_minor;
        fee_asset = quote.fee_asset;
        summary = quote.summary;
        expires_at = expires_at;
      },
      next,
    )
