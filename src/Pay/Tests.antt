-- ===== src/Pay/Tests.antt =====
-- Runs of the payment rite, and its theorems at concrete inputs.
use cashloom.Prelude.{
  ℕ, ◌≤◌, ◌+◌, ◌≡◌, ◌≢◌, refl, false, ◌⊎◌, List, [], ◌∷◌, Option, none, some, Text, lit, text_eq,
  trim, drop_spaces, includes, ok, any, find, update, count,
}
use cashloom.Payments.{Payment, PaymentStatus, status_eq}
use cashloom.Ledger.{collides, insert_or_ignore}
use cashloom.Pay.{Account, Binding, PayDb, Callback, PaymentQuote, PaymentSender, Engine}
use cashloom.Pay.Accounts.{sender_for_asset, timestamp_now, sending_account}
use cashloom.Pay.Quote.{
  QuotePaymentOptions, QuoteRuntime, quoted_payment, insert_payment, persist_quote, quote_ttl_ms,
  quote_payment, consistent, expiry,
}
use cashloom.Pay.Claim.{
  BoundClaim, ConfirmRuntime, Claimed, ClaimResult, payment_of, binding_of, check_binding,
  is_expired, still_quoted, swap_status, set_confirmed, claim_fresh, claim_quoted, claim,
  first_checks, confirm_start,
}
use cashloom.Pay.Settle.{
  SendOutcome, Recording, on_signed, on_signed_all, set_where, set_broadcast, ledger_row,
  write_note, record_sent, settle, finish, confirm_payment,
}
use cashloom.Pay.Status.{HasStatus}
use cashloom.Pay.Claims.{claim-fresh, claim-bound}
use cashloom.Pay.World.{Event, take_out, step, run}
use cashloom.Pay.Recorded.{IsRecorded}
use cashloom.Pay.Outcomes.{
  start, never_sent_twice, outcome_final, sent_never_failed, settle-recorded,
}

-- All that a run computes with.
rite : Unit {0}
unfolding text_eq trim drop_spaces includes any find update count status_eq collides
    insert_or_ignore sender_for_asset timestamp_now sending_account quoted_payment insert_payment
    persist_quote quote_payment consistent expiry payment_of binding_of check_binding is_expired
    still_quoted swap_status claim_fresh claim_quoted claim first_checks confirm_start on_signed
    on_signed_all set_where ledger_row write_note record_sent settle finish confirm_payment take_out
    step run
rite = tt

-- A date is its first code unit, and a digest the payload itself.
abbrev first_unit : Text → Option ℕ
first_unit [] = none
first_unit (c ∷ s) = some c

abbrev engine : Engine
engine = record {
  sha256_bytes_id = λ payload. payload;
  to_upper = λ t. t;
  date_parse = first_unit;
  to_iso = λ ms. some (ms ∷ []);
}

abbrev wallet : Account
wallet = record {
  id = lit "acct";
  rail = lit "CRYPTO";
  display_name = lit "wallet";
  currency = lit "BTC";
  decimals = 8;
  external_account_id = none;
  vault_key_id = some (lit "key");
  active = lit "ACTIVE";
}

abbrev quote : PaymentQuote
quote = record {
  fee_minor = lit "9";
  execution_fee_ceiling_minor = none;
  fee_asset = lit "BTC";
  summary = lit "s";
  detail = none;
  unsigned_payload = none;
  unsigned_payload_hash = none;
}

abbrev sender : PaymentSender
sender = record { type = lit "btc"; assets = lit "BTC" ∷ []; quote = λ key intent. ok quote }

abbrev opts : QuotePaymentOptions
opts = record {
  account_id = lit "acct";
  intent = record { to = lit "bc1q"; amount_minor = lit "100"; asset = lit " BTC " };
}

abbrev quoting : QuoteRuntime
quoting = record { senders = sender ∷ []; now = 5 ∷ []; new_id = lit "p1"; bind = none }

abbrev confirming : ConfirmRuntime
confirming = record { senders = sender ∷ []; now = 6 ∷ []; bound_claim = none }

abbrev empty_db : PayDb
empty_db = record { accounts = wallet ∷ []; payments = []; bindings = []; transactions = [] }

abbrev p1 : Payment
p1 = record {
  id = lit "p1";
  account_id = lit "acct";
  rail = lit "btc";
  to_addr = lit "bc1q";
  asset = lit "BTC";
  amount_minor = lit "100";
  fee_minor = some (lit "9");
  execution_fee_ceiling_minor = none;
  status = PaymentStatus.quoted;
  tx_hash = none;
  error = none;
  detail = none;
  created_at = 5 ∷ [];
  updated_at = none;
}

abbrev quoted_db : PayDb
quoted_db = record empty_db { payments = p1 ∷ [] }

quote_stores :
    quote_payment engine opts quoting empty_db
    ≡ ok (
      record {
        payment_id = lit "p1";
        fee_minor = lit "9";
        execution_fee_ceiling_minor = none;
        fee_asset = lit "BTC";
        summary = lit "s";
        expires_at = (5 + quote_ttl_ms) ∷ [];
      },
      quoted_db,
    )
unfolding rite
quote_stores = refl

abbrev won : Claimed
won = record { row = p1; account = wallet; sender = sender; expected = none }

abbrev confirmed_db : PayDb
confirmed_db = record quoted_db { payments = set_confirmed (6 ∷ []) p1 ∷ [] }

claim_wins :
    claim engine (lit "p1") confirming quoted_db ≡ ok (ClaimResult.claimed won, confirmed_db)
unfolding rite
claim_wins = refl

claim-fresh_example :
    (payment_of (lit "p1") quoted_db.payments ≡ some p1)
    × (p1.status ≡ PaymentStatus.quoted)
    × (claimed_ms : ℕ) × (created_ms : ℕ) × (engine.date_parse confirming.now ≡ some claimed_ms)
    × (engine.date_parse p1.created_at ≡ some created_ms)
    × (claimed_ms ≤ created_ms + quote_ttl_ms)
claim-fresh_example = claim-fresh engine (lit "p1") confirming quoted_db won confirmed_db claim_wins

abbrev bound : Binding
bound = record {
  intent_record_id = lit "i";
  payment_id = lit "p1";
  account_id = lit "acct";
  review_id = lit "r";
  reservation_id = lit "v";
  unsigned_payload = 1 ∷ [];
  unsigned_payload_hash = 1 ∷ [];
  quote_expires_at = 9 ∷ [];
  created_at = 5 ∷ [];
}

abbrev review : BoundClaim
review = record {
  intent_record_id = lit "i";
  review_id = lit "r";
  unsigned_payload_hash = 1 ∷ [];
  assert_claim = λ c. Callback.returns;
}

abbrev bound_db : PayDb
bound_db = record quoted_db { bindings = bound ∷ [] }

abbrev confirming_bound : ConfirmRuntime
confirming_bound = record confirming { bound_claim = some review }

abbrev bound_won : Claimed
bound_won = record won { expected = some bound }

bound_claim_wins :
    (claim engine (lit "p1") confirming_bound bound_db
      ≡ ok (ClaimResult.claimed bound_won, record bound_db { payments = confirmed_db.payments }))
    × (binding_of (lit "p1") bound_db ≡ some bound)
unfolding rite
bound_claim_wins = (refl, refl)

claim-bound_example :
    (requested : BoundClaim) × (confirming_bound.bound_claim ≡ some requested)
    × (requested.intent_record_id ≡ bound.intent_record_id)
    × (requested.review_id ≡ bound.review_id)
    × (requested.unsigned_payload_hash ≡ bound.unsigned_payload_hash)
    × (bound.account_id ≡ p1.account_id)
    × (engine.sha256_bytes_id bound.unsigned_payload ≡ bound.unsigned_payload_hash)
    × (bound_won.expected ≡ some bound)
claim-bound_example =
    claim-bound engine (lit "p1") confirming_bound bound_db bound_won
      (record bound_db { payments = confirmed_db.payments }) bound bound_claim_wins.0
      bound_claim_wins.1

-- Two calls race for one quote; the first one's send succeeds, and the ledger has its row.
abbrev race : List Event
race =
    Event.store opts quoting wallet sender quote (5 ∷ []) (9 ∷ [])
    ∷ Event.confirm (lit "p1") confirming
    ∷ Event.confirm (lit "p1") confirming
    ∷ Event.sign 0 (lit "tx") (7 ∷ [])
    ∷ Event.end 0 (SendOutcome.sent (lit "tx") (some (lit "109"))) Recording.recorded (lit "t1")
        (8 ∷ [])
    ∷ []

race_sends : (run engine race (start empty_db)).sends ≡ lit "p1" ∷ []
unfolding rite
race_sends = refl

never_sent_twice_example :
    count (λ t. text_eq t (lit "p1")) (run engine race (start empty_db)).sends ≤ 1
never_sent_twice_example = never_sent_twice engine race empty_db (lit "p1")

race_broadcast :
    HasStatus (lit "p1") PaymentStatus.broadcast (run engine race (start empty_db)).db.payments
unfolding rite
race_broadcast = (
  set_broadcast (lit "tx") (8 ∷ [])
      (record p1 { status = PaymentStatus.confirmed; tx_hash = some (lit "tx") }),
  refl,
  refl,
)

broadcast_settled :
    (PaymentStatus.broadcast ≢ PaymentStatus.quoted)
    × (PaymentStatus.broadcast ≢ PaymentStatus.confirmed)
broadcast_settled = (λ e. cc, λ e. cc)

outcome_final_example :
    HasStatus
      (lit "p1")
      PaymentStatus.broadcast
      (run engine
        (Event.confirm (lit "p1") confirming ∷ [])
        (run engine race (start empty_db))).db.payments
outcome_final_example =
    outcome_final engine (lit "p1") PaymentStatus.broadcast broadcast_settled.0 broadcast_settled.1
      race (Event.confirm (lit "p1") confirming ∷ []) empty_db race_broadcast

confirmed_found : payment_of (lit "p1") confirmed_db.payments ≡ some (set_confirmed (6 ∷ []) p1)
unfolding rite
confirmed_found = refl

sent_never_failed_example :
    ((settle won
        (SendOutcome.sent (lit "tx") none)
        (Recording.ledger_write_threw (lit "full") false)
        (lit "t1")
        (8 ∷ [])
        confirmed_db).0.status
      ≢ PaymentStatus.failed)
    × (HasStatus
          (lit "p1")
          PaymentStatus.confirmed
          (settle won
            (SendOutcome.sent (lit "tx") none)
            (Recording.ledger_write_threw (lit "full") false)
            (lit "t1")
            (8 ∷ [])
            confirmed_db).1.payments
        ⊎ HasStatus
            (lit "p1")
            PaymentStatus.broadcast
            (settle won
              (SendOutcome.sent (lit "tx") none)
              (Recording.ledger_write_threw (lit "full") false)
              (lit "t1")
              (8 ∷ [])
              confirmed_db).1.payments)
sent_never_failed_example =
    sent_never_failed won (lit "tx") none (Recording.ledger_write_threw (lit "full") false)
      (lit "t1") (8 ∷ []) confirmed_db (set_confirmed (6 ∷ []) p1, confirmed_found, refl)

ledger_empty : any (λ t. text_eq (lit "t1") t.id) confirmed_db.transactions ≡ false
unfolding any
ledger_empty = refl

settle-recorded_example :
    let done =
      settle won
        (SendOutcome.sent (lit "tx") none)
        Recording.recorded
        (lit "t1")
        (8 ∷ [])
        confirmed_db in
    (done.0.status ≡ PaymentStatus.broadcast)
    × (done.0.tx_hash ≡ some (lit "tx"))
    × (payment_of (lit "p1") done.1.payments
        ≡ some (record (set_confirmed (6 ∷ []) p1) {
          status = PaymentStatus.broadcast;
          tx_hash = some (lit "tx");
          updated_at = some (8 ∷ []);
        }))
    × IsRecorded won
        (lit "tx")
        none
        (lit "t1")
        (8 ∷ [])
        confirmed_db.transactions
        done.1.transactions
settle-recorded_example =
    settle-recorded won (lit "tx") none (lit "t1") (8 ∷ []) confirmed_db (set_confirmed (6 ∷ []) p1)
      confirmed_found ledger_empty

-- A late quote fails its payment, and the call throws after that has committed.
abbrev late : ConfirmRuntime
late = record confirming { now = (6 + quote_ttl_ms) ∷ [] }

late_confirm :
    (confirm_payment engine
      (lit "p1")
      late
      (λ c. record { signed = []; outcome = SendOutcome.sent (lit "tx") none })
      Recording.recorded
      (lit "t1")
      (8 ∷ [])
      quoted_db).1.payments
    ≡ record p1 {
      status = PaymentStatus.failed;
      error = some (lit "quote expired");
      updated_at = some late.now;
    }
      ∷ []
unfolding rite
late_confirm = refl
