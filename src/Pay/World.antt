-- ===== src/Pay/World.antt =====
-- Any number of calls of sovereign/src/pay.ts in flight at once. Each atomic step of a call is an
-- event; between two of its steps any others may come, and other modules may change the accounts
-- and append bindings.
use cashloom.Prelude.{ℕ, zero, suc, Option, none, some, List, [], ◌∷◌, Text, Result, ok, err}
use cashloom.Pay.{Account, Binding, PayDb, PayError, PaymentQuote, PaymentSender, Engine}
use cashloom.Pay.Quote.{QuotePaymentOptions, QuoteRuntime, quoted_payment, persist_quote}
use cashloom.Pay.Claim.{ConfirmRuntime, Claimed, ClaimResult, claim}
use cashloom.Pay.Settle.{SendOutcome, Recording, on_signed, settle}

-- `pending` holds the claims whose send has not ended, `sends` the payments whose sender was called.
pub record World : Type 0 where
  pub db : PayDb
  pub pending : List Claimed
  pub sends : List Text

-- A quote is stored with whatever account, sender and quote were read before its transaction; a
-- signing hook and the end of a send belong to the claim at a place of `pending`.
pub data Event : Type 0 where
  store :
      QuotePaymentOptions
      → QuoteRuntime
      → Account
      → PaymentSender
      → PaymentQuote
      → (created_at : Text) → (expires_at : Text) → Event
  confirm : (payment_id : Text) → ConfirmRuntime → Event
  sign : (place : ℕ) → (external_id : Text) → (now : Text) → Event
  end : (place : ℕ) → SendOutcome → Recording → (new_id : Text) → (now : Text) → Event
  elsewhere : List Account → List Binding → Event

-- The element at a place, and the others.
unfoldable pub take_out {ℓ} : {A : Type ℓ} → ℕ → List A → Option (A × List A)
take_out n [] = none
take_out zero (x ∷ xs) = some (x, xs)
take_out (suc n) (x ∷ xs) = elim (take_out n xs) [ none ↦ none | some (y, ys) ↦ some (y, x ∷ ys) ]

abbrev pub keep : World → Result PayError PayDb → World
keep w (ok db) = record w { db = db }
keep w (err e) = w

-- The sender is called at once with what a won claim returns.
abbrev pub dispatch : World → Result PayError (ClaimResult × PayDb) → World
dispatch w (err e) = w
dispatch w (ok (ClaimResult.unavailable s, db)) = record w { db = db }
dispatch w (ok (ClaimResult.expired, db)) = record w { db = db }
dispatch w (ok (ClaimResult.claimed c, db)) = record {
  db = db;
  pending = c ∷ w.pending;
  sends = c.row.id ∷ w.sends;
}

abbrev pub sign_at : World → Option (Claimed × List Claimed) → Text → Text → World
sign_at w none external_id now = w
sign_at w (some (c, rest)) external_id now = record w {
  db = on_signed c.row.id external_id now w.db;
}

abbrev pub end_at :
    World → Option (Claimed × List Claimed) → SendOutcome → Recording → Text → Text → World
end_at w none outcome recording new_id now = w
end_at w (some (c, rest)) outcome recording new_id now = record w {
  db = (settle c outcome recording new_id now w.db).1;
  pending = rest;
}

module _ (engine : Engine) where
  unfoldable pub step : Event → World → World
  step (Event.store opts runtime account sender quote created_at expires_at) w = keep w (
      persist_quote runtime.bind
        (record {
          payment = quoted_payment engine opts runtime account sender quote created_at;
          vault_key_id = account.vault_key_id;
          fee_asset = quote.fee_asset;
          summary = quote.summary;
          unsigned_payload = quote.unsigned_payload;
          unsigned_payload_hash = quote.unsigned_payload_hash;
          expires_at = expires_at;
        })
        w.db)
  step (Event.confirm payment_id runtime) w = dispatch w (claim engine payment_id runtime w.db)
  step (Event.sign place external_id now) w = sign_at w (take_out place w.pending) external_id now
  step (Event.end place outcome recording new_id now) w =
      end_at w (take_out place w.pending) outcome recording new_id now
  step (Event.elsewhere accounts bindings) w = record w {
    db = record w.db { accounts = accounts; bindings = bindings };
  }

  unfoldable pub run : List Event → World → World
  run [] w = w
  run (e ∷ es) w = run es (step e w)
