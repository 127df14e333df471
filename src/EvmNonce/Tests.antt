-- ===== src/EvmNonce/Tests.antt =====
-- Runs of the nonce coordinator, and its theorems at concrete inputs.
use cashloom.Prelude.{
  ℕ, ◌≤◌, ◌≡◌, ◌≢◌, refl, true, false, ◌++◌, List, [], ◌∷◌, none, some, Text, lit, text_eq, ok, err,
  any, find, select, update, count, all, order_by, arith,
}
use cashloom.Payments.{Payment, PaymentStatus, status_eq}
use cashloom.EvmNonce.{
  NonceState, Reservation, NonceDb, NonceError, Number, max_safe_integer, holds, normalized_address,
  safe_nonce, safe_chain_id, safe_hash, safe_payload, safe_sha256, current_state,
}
use cashloom.EvmNonce.Reserve.{
  ReserveInput, new_reservation, reserve_evm_nonce, reserve_in, check_payment, first_gap,
  live_nonces, is_candidate, insert_reservation,
}
use cashloom.EvmNonce.Transitions.{
  ReservationIdentity, SignedEvidence, checked, is_at, move_state, hash_taken, insert_signed,
  set_payment_hash, persist_signed, mark_evm_nonce_signed, advance, mark_evm_nonce_submitting,
  mark_evm_nonce_submitted, release_evm_nonce_pre_submit,
}
use cashloom.EvmNonce.Freshness.{
  Checked, reserve-fresh, reserve-lowest, reserve-ne-violation, reserve_total,
}
use cashloom.EvmNonce.Sticky.{Held, perform_all-Held, no_nonce_reuse, reservation_of}
use cashloom.EvmNonce.Trace.{Call, perform, perform_all}
use cashloom.EvmNonce.Evidence.{AllEvidence, perform_all-AllEvidence}

-- All that a run computes with.
coordinator : Unit {0}
unfolding reserve_evm_nonce reserve_in check_payment first_gap live_nonces is_candidate
    insert_reservation safe_chain_id normalized_address safe_nonce safe_hash safe_payload
    safe_sha256 find text_eq status_eq current_state select order_by any holds all update count
    checked is_at move_state hash_taken insert_signed set_payment_hash persist_signed
    mark_evm_nonce_signed advance mark_evm_nonce_submitting mark_evm_nonce_submitted
    release_evm_nonce_pre_submit perform perform_all
coordinator = tt

abbrev sender : Text
sender = lit "0x00000000000000000000000000000000000000ab"

abbrev payment_at : Text → Payment
payment_at id = record {
  id = id;
  account_id = lit "acct";
  rail = lit "evm-base";
  to_addr = lit "0x";
  asset = lit "ETH";
  amount_minor = lit "1";
  fee_minor = none;
  execution_fee_ceiling_minor = none;
  status = PaymentStatus.confirmed;
  tx_hash = none;
  error = none;
  detail = none;
  created_at = lit "t0";
  updated_at = none;
}

abbrev held_at : Text → ℕ → NonceState → Reservation
held_at id nonce state = record {
  payment_id = id;
  chain_id = 8453;
  from_address = sender;
  nonce = nonce;
  state = state;
  tx_hash = none;
  created_at = lit "t0";
  updated_at = lit "t0";
}

abbrev gap_db : NonceDb
gap_db = record {
  payments = payment_at (lit "p") ∷ [];
  reservations =
      held_at (lit "a") 9 NonceState.reserved
      ∷ held_at (lit "b") 7 NonceState.reserved
      ∷ held_at (lit "c") 8 NonceState.released_pre_submit
      ∷ [];
  signed_transactions = [];
}

abbrev ask : ReserveInput
ask = record {
  payment_id = lit "p";
  chain_id = Number.nat 8453;
  from_address = lit "0x00000000000000000000000000000000000000AB";
  pending_nonce = Number.nat 7;
}

-- The released nonce 8 is the lowest free one.
abbrev gap_filled : NonceDb
gap_filled = record gap_db {
  reservations = gap_db.reservations ++ new_reservation (lit "p") 8453 sender 8 (lit "t1") ∷ [];
}

reserve_gap : reserve_evm_nonce ask (lit "t1") gap_db ≡ ok (8, gap_filled)
unfolding coordinator
reserve_gap = refl

ask-Checked : Checked ask 8453 sender 7
unfolding coordinator
ask-Checked = (refl, refl, refl, refl)

reserve-fresh_example :
    (7 ≤ 8) × (any (holds 8453 sender 8) gap_db.reservations ≡ false) × (gap_filled ≡ gap_filled)
reserve-fresh_example =
    reserve-fresh ask (lit "t1") gap_db 8453 sender 7 ask-Checked 8 gap_filled reserve_gap

reserve-lowest_example : any (holds 8453 sender 7) gap_db.reservations ≡ true
reserve-lowest_example =
    reserve-lowest ask (lit "t1") gap_db 8453 sender 7 ask-Checked 8 gap_filled reserve_gap 7
      (omega arith) (omega arith)

reserve-ne-violation_example :
    reserve_evm_nonce ask (lit "t1") gap_db ≢ err NonceError.unique_violation
reserve-ne-violation_example = reserve-ne-violation ask (lit "t1") gap_db

gap_db_ready :
    (find (λ r. text_eq r.id ask.payment_id) gap_db.payments ≡ some (payment_at (lit "p")))
    × (current_state gap_db.reservations ask.payment_id ≡ none)
    × (any (holds 8453 sender max_safe_integer) gap_db.reservations ≡ false)
unfolding coordinator
gap_db_ready = (refl, refl, refl)

reserve_total_example :
    (n : ℕ) × (db' : NonceDb) × (reserve_evm_nonce ask (lit "t1") gap_db ≡ ok (n, db'))
reserve_total_example =
    reserve_total ask (lit "t1") gap_db 8453 sender 7 (payment_at (lit "p")) ask-Checked
      gap_db_ready.0 refl refl gap_db_ready.1 (omega arith) gap_db_ready.2

-- A digest and a hash that meet the patterns of the guards, for every payload.
abbrev digest : List ℕ → Text
digest payload = lit "sha256:0000000000000000000000000000000000000000000000000000000000000000"

abbrev tx : Text
tx = lit "0x00000000000000000000000000000000000000000000000000000000000000cd"

abbrev who : Text → ℕ → ReservationIdentity
who id nonce = record {
  payment_id = id;
  chain_id = Number.nat 8453;
  from_address = sender;
  nonce = Number.nat nonce;
}

abbrev evidence : SignedEvidence
evidence = record {
  identity = who (lit "p") 7;
  tx_hash = tx;
  unsigned_payload = 1 ∷ [];
  unsigned_payload_sha256 = digest [];
  signed_payload = 2 ∷ [];
  signed_payload_sha256 = digest [];
}

abbrev fresh_db : NonceDb
fresh_db = record {
  payments = payment_at (lit "p") ∷ payment_at (lit "q") ∷ [];
  reservations = [];
  signed_transactions = [];
}

-- Reserve, sign, hand to the network, and try to release: the release is refused.
abbrev story : List Call
story =
    Call.reserve ask (lit "t1")
    ∷ Call.sign evidence (lit "t2")
    ∷ Call.submit (who (lit "p") 7) tx (lit "t3")
    ∷ Call.release (who (lit "p") 7) (lit "t4")
    ∷ []

told : NonceDb
told = perform_all digest (λ _. tx) story fresh_db

told_row :
    reservation_of (lit "p") told.reservations
    ≡ some (record (held_at (lit "p") 7 NonceState.submitting) {
      tx_hash = some tx;
      created_at = lit "t1";
      updated_at = lit "t3";
    })
unfolding coordinator told
told_row = refl

told-Held : Held (lit "p") 8453 sender 7 (some tx) told.reservations
told-Held = record {
  row = record (held_at (lit "p") 7 NonceState.submitting) {
    tx_hash = some tx;
    created_at = lit "t1";
    updated_at = lit "t3";
  };
  found = told_row;
  sticky = refl;
  chain_id = refl;
  from_address = refl;
  nonce = refl;
  tx_hash = refl;
}

abbrev ending : List Call
ending =
    Call.succeed (who (lit "p") 7) tx (lit "t5") ∷ Call.release (who (lit "p") 7) (lit "t6") ∷ []

perform_all-Held_example :
    Held (lit "p") 8453 sender 7 (some tx) (perform_all digest (λ _. tx) ending told).reservations
perform_all-Held_example =
    perform_all-Held (lit "p") 8453 sender 7 (some tx) digest (λ _. tx) ending told told-Held

abbrev ask_again : ReserveInput
ask_again = record ask { payment_id = lit "q" }

later_db : NonceDb
later_db =
    perform digest (λ _. tx) (Call.reserve ask_again (lit "t7"))
      (perform_all digest (λ _. tx) ending told)

reserve_again :
    reserve_evm_nonce ask_again (lit "t7") (perform_all digest (λ _. tx) ending told)
    ≡ ok (8, later_db)
unfolding coordinator told later_db
reserve_again = refl

ask_again-Checked : Checked ask_again 8453 sender 7
unfolding coordinator
ask_again-Checked = (refl, refl, refl, refl)

no_nonce_reuse_example : ◌≢◌ {A = ℕ} 8 7
no_nonce_reuse_example =
    no_nonce_reuse (lit "p") 8453 sender 7 (some tx) digest (λ _. tx) ending told ask_again
      (lit "t7") 7 8 later_db told-Held ask_again-Checked reserve_again

perform_all-AllEvidence_example : AllEvidence (perform_all digest (λ _. tx) story fresh_db)
perform_all-AllEvidence_example = perform_all-AllEvidence digest (λ _. tx) story fresh_db tt
