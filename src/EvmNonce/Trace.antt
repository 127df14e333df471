-- ===== src/EvmNonce/Trace.antt =====
-- Any sequence of calls of sovereign/src/senders/evm-nonce.ts, by any callers in any order.
use cashloom.Prelude.{
  ◌⊎◌, inl, inr, ℕ, ◌≡◌, sym, subst, true, List, [], ◌∷◌, Text, Result, ok, err, bind-eq-ok,
  require-eq-ok, &&-elim, arith, text_eq, refl, ◌&&◌,
}
use cashloom.EvmNonce.{
  NonceState, SignedTransaction, NonceDb, NonceError, safe_chain_id, normalized_address, safe_nonce,
  safe_hash, safe_payload, safe_sha256,
}
use cashloom.EvmNonce.Reserve.{ReserveInput, new_reservation, reserve_evm_nonce, reserve_in}
use cashloom.EvmNonce.Transitions.{
  Identity, ReservationIdentity, SignedEvidence, checked, is_at, hash_is_null, set_signed,
  persist_signed, mark_evm_nonce_signed, mark_evm_nonce_submitting, mark_evm_nonce_submitted,
  mark_evm_nonce_submission_unknown, release_evm_nonce_pre_submit,
}
use cashloom.EvmNonce.Freshness.{check_payment-none, reserve_in-eq-ok}
use cashloom.EvmNonce.Evolution.{
  Allowed, Evolves, is_at-state, Moved-set_signed, persist_signed-eq-ok, advance-Evolves,
  release-Evolves,
}

-- One call with its arguments; the text last is the clock.
pub data Call : Type 0 where
  reserve : ReserveInput → Text → Call
  sign : SignedEvidence → Text → Call
  submit succeed lose : ReservationIdentity → Text → Text → Call
  release : ReservationIdentity → Text → Call

-- A call that throws leaves the database as it was.
abbrev pub keep : NonceDb → Result NonceError NonceDb → NonceDb
keep db (ok db') = db'
keep db (err e) = db

abbrev pub keep_second : NonceDb → Result NonceError (ℕ × NonceDb) → NonceDb
keep_second db (ok (n, db')) = db'
keep_second db (err e) = db

module _ (sha256_id keccak256_hex : List ℕ → Text) where
  unfoldable pub perform : Call → NonceDb → NonceDb
  perform (reserve input now) db = keep_second db (reserve_evm_nonce input now db)
  perform (sign input now) db = keep db (mark_evm_nonce_signed sha256_id keccak256_hex input now db)
  perform (submit input hash now) db = keep db (mark_evm_nonce_submitting input hash now db)
  perform (succeed input hash now) db = keep db (mark_evm_nonce_submitted input hash now db)
  perform (lose input hash now) db = keep db (mark_evm_nonce_submission_unknown input hash now db)
  perform (release input now) db = keep db (release_evm_nonce_pre_submit input now db)

  unfoldable pub perform_all : List Call → NonceDb → NonceDb
  perform_all [] db = db
  perform_all (call ∷ calls) db = perform_all calls (perform call db)

safe_payload-same : (p q : List ℕ) → safe_payload p ≡ ok q → q ≡ p
unfolding safe_payload
safe_payload-same p q h = ground arith

-- What the checks of `markEvmNonceSigned` have established when it commits.
pub record IsSigning (sha256_id keccak256_hex : List ℕ → Text) (input : SignedEvidence) (now : Text)
    (db db' : NonceDb) : Type 0 where
  pub i : Identity
  pub row : SignedTransaction
  pub payment_id : row.payment_id ≡ i.payment_id
  pub nonce : row.nonce ≡ i.nonce
  pub signed_payload : row.signed_payload ≡ input.signed_payload
  pub hashed : text_eq (keccak256_hex row.signed_payload) row.tx_hash ≡ true
  pub persisted : persist_signed i row now db ≡ ok db'

module _ (sha256_id keccak256_hex : List ℕ → Text) where
  pub mark_signed-IsSigning :
      (input : SignedEvidence) (now : Text) (db db' : NonceDb)
      → mark_evm_nonce_signed sha256_id keccak256_hex input now db ≡ ok db'
      → IsSigning sha256_id keccak256_hex input now db db'
  unfolding mark_evm_nonce_signed
  mark_signed-IsSigning input now db db' h =
      let (i, ei, h1) = bind-eq-ok (checked input.identity) _ h in
      let (hash, eh, h2) = bind-eq-ok (safe_hash input.tx_hash) _ h1 in
      let (up, eu, h3) = bind-eq-ok (safe_payload input.unsigned_payload) _ h2 in
      let (sp, es, h4) = bind-eq-ok (safe_payload input.signed_payload) _ h3 in
      let (ud, eud, h5) =
        bind-eq-ok (safe_sha256 sha256_id input.unsigned_payload_sha256 up) _ h4 in
      let (sd, esd, h6) = bind-eq-ok (safe_sha256 sha256_id input.signed_payload_sha256 sp) _ h5 in
      let (matches, h7) = require-eq-ok _ _ _ h6 in
      record {
        i = i;
        row = record {
          payment_id = i.payment_id;
          chain_id = i.chain_id;
          from_address = i.from_address;
          nonce = i.nonce;
          unsigned_payload = up;
          unsigned_payload_sha256 = ud;
          signed_payload = sp;
          signed_payload_sha256 = sd;
          tx_hash = hash;
          created_at = now;
        };
        payment_id = refl;
        nonce = refl;
        signed_payload = safe_payload-same input.signed_payload sp es;
        hashed = matches;
        persisted = h7;
      }

  mark_signed-Evolves :
      (input : SignedEvidence) (now : Text) (db db' : NonceDb)
      → mark_evm_nonce_signed sha256_id keccak256_hex input now db ≡ ok db'
      → Evolves db.reservations db'.reservations
  mark_signed-Evolves input now db db' h =
      let s = mark_signed-IsSigning input now db db' h in
      let e = persist_signed-eq-ok s.i s.row now db db' s.persisted in
      subst (Evolves db.reservations) (sym e.0) (
        Evolves.move (λ r. is_at s.i NonceState.reserved r && hash_is_null r.tx_hash)
          (set_signed s.row.tx_hash now)
          (λ r m.
            Moved-set_signed s.row.tx_hash now r
              (is_at-state s.i NonceState.reserved r (&&-elim _ _ m).0)))

pub reserve-inversion :
    (input : ReserveInput) (now : Text) (db : NonceDb) (n : ℕ) (db' : NonceDb)
    → reserve_evm_nonce input now db ≡ ok (n, db')
    → (c : ℕ) × (a : Text) × (p : ℕ) × (reserve_in input.payment_id c a p now db ≡ ok (n, db'))
unfolding reserve_evm_nonce
reserve-inversion input now db n db' h =
    let (c, _, h1) = bind-eq-ok (safe_chain_id input.chain_id) _ h in
    let (a, _, h2) = bind-eq-ok (normalized_address input.from_address) _ h1 in
    let (p, _, h3) = bind-eq-ok (safe_nonce input.pending_nonce NonceError.invalid_nonce) _ h2 in
    let (_, h4) = require-eq-ok _ _ _ h3 in (c, a, p, h4)

reserve-Evolves :
    (input : ReserveInput) (now : Text) (db : NonceDb) (n : ℕ) (db' : NonceDb)
    → reserve_evm_nonce input now db ≡ ok (n, db')
    → Evolves db.reservations db'.reservations
reserve-Evolves input now db n db' h =
    let (c, a, p, h') = reserve-inversion input now db n db' h in
    let (checked_payment, _, same) = reserve_in-eq-ok input.payment_id c a p now db n db' h' in
    subst (λ (d : NonceDb). Evolves db.reservations d.reservations) (sym same)
      (Evolves.append (new_reservation input.payment_id c a n now)
        (check_payment-none input.payment_id db checked_payment) refl)

keep-Evolves :
    (db : NonceDb) (r : Result NonceError NonceDb)
    → ((db' : NonceDb) → r ≡ ok db' → Evolves db.reservations db'.reservations)
    → ((keep db r).reservations ≡ db.reservations)
      ⊎ Evolves db.reservations (keep db r).reservations
keep-Evolves db (ok db') f = inr (f db' refl)
keep-Evolves db (err e) f = inl refl

keep_second-Evolves :
    (db : NonceDb) (r : Result NonceError (ℕ × NonceDb))
    → ((n : ℕ) (db' : NonceDb) → r ≡ ok (n, db') → Evolves db.reservations db'.reservations)
    → ((keep_second db r).reservations ≡ db.reservations)
      ⊎ Evolves db.reservations (keep_second db r).reservations
keep_second-Evolves db (ok (n, db')) f = inr (f n db' refl)
keep_second-Evolves db (err e) f = inl refl

module _ (sha256_id keccak256_hex : List ℕ → Text) where
  -- Every call leaves the reservations alone or evolves them by one step.
  pub perform-Evolves :
      (call : Call) (db : NonceDb)
      → ((perform sha256_id keccak256_hex call db).reservations ≡ db.reservations)
        ⊎ Evolves db.reservations (perform sha256_id keccak256_hex call db).reservations
  unfolding perform mark_evm_nonce_submitting mark_evm_nonce_submitted
      mark_evm_nonce_submission_unknown
  perform-Evolves (Call.reserve input now) db =
      keep_second-Evolves db _ (reserve-Evolves input now db)
  perform-Evolves (Call.sign input now) db =
      keep-Evolves db _ (mark_signed-Evolves sha256_id keccak256_hex input now db)
  perform-Evolves (Call.submit input hash now) db =
      keep-Evolves db _ (λ db'. advance-Evolves _ _ input hash now db db' Allowed.submit)
  perform-Evolves (Call.succeed input hash now) db =
      keep-Evolves db _ (λ db'. advance-Evolves _ _ input hash now db db' Allowed.succeed)
  perform-Evolves (Call.lose input hash now) db =
      keep-Evolves db _ (λ db'. advance-Evolves _ _ input hash now db db' Allowed.lose)
  perform-Evolves (Call.release input now) db = keep-Evolves db _ (release-Evolves input now db)
