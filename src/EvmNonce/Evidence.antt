-- ===== src/EvmNonce/Evidence.antt =====
-- The durable evidence behind each reservation: `markEvmNonceSigned` commits the signed transaction
-- in the same SQLite transaction that moves the nonce to `signed`.

use cashloom.Prelude.{
  ℕ, ◌≡◌, refl, sym, ◌∙◌, ap, subst, ◌⊎◌, inl, inr, Bool, true, false, ◌&&◌, List, [], ◌∷◌, ◌++◌,
  Option, none, some, Text, text_eq, text_eq_refl, text_eq_iff, Result, ok, err, All, All-update,
  All-append, find, find-append, &&-elim, bind-eq-ok, any, arith,
}
use cashloom.EvmNonce.{NonceState, Reservation, SignedTransaction, NonceDb, NonceError, safe_hash}
use cashloom.EvmNonce.Reserve.{ReserveInput, new_reservation, reserve_evm_nonce}
use cashloom.EvmNonce.Transitions.{
  Identity, ReservationIdentity, is_at, hash_is_null, hash_is, set_signed, set_state, checked,
  move_state, persist_signed, advance, release_evm_nonce_pre_submit, mark_evm_nonce_submitting,
  mark_evm_nonce_submitted, mark_evm_nonce_submission_unknown,
}
use cashloom.EvmNonce.Evolution.{
  is_sticky, is_at-state, move_state-eq-ok, persist_signed-eq-ok, persist_signed-fresh,
}
use cashloom.EvmNonce.Trace.{
  Call, keep, keep_second, perform, perform_all, mark_signed-IsSigning, reserve-inversion,
}
use cashloom.EvmNonce.Freshness.{reserve_in-eq-ok}

-- The signed transaction of a payment.
abbrev pub transaction_of : Text → List SignedTransaction → Option SignedTransaction
transaction_of id = find (λ t. text_eq t.payment_id id)

-- A row past `reserved` has its transaction on record, for its nonce and its hash; any other row
-- has no hash.
abbrev pub HasEvidence : List SignedTransaction → Reservation → Type 0
HasEvidence txs r =
    ((is_sticky r.state ≡ false) × (r.tx_hash ≡ none))
    ⊎ ((t : SignedTransaction) × (is_sticky r.state ≡ true)
        × (transaction_of r.payment_id txs ≡ some t)
        × (r.tx_hash ≡ some t.tx_hash)
        × (t.nonce ≡ r.nonce))

HasEvidence-append :
    (txs more : List SignedTransaction) (r : Reservation)
    → HasEvidence txs r
    → HasEvidence (txs ++ more) r
HasEvidence-append txs more r (inl h) = inl h
HasEvidence-append txs more r (inr (t, past, found, hash, nonce)) =
    inr
      (t, past, find-append (λ x. text_eq x.payment_id r.payment_id) txs more t found, hash, nonce)

-- Any move but signing keeps the hash, and so the evidence.
HasEvidence-set_state :
    (s t : NonceState) (now : Text) (txs : List SignedTransaction) (r : Reservation)
    → is_sticky t ≡ is_sticky s
    → r.state ≡ s
    → HasEvidence txs r
    → HasEvidence txs (set_state t now r)
HasEvidence-set_state s t now txs r k e (inl (loose, h)) = inl (k ∙ ap is_sticky (sym e) ∙ loose, h)
HasEvidence-set_state s t now txs r k e (inr (x, past, found, hash, nonce)) =
    inr (x, k ∙ ap is_sticky (sym e) ∙ past, found, hash, nonce)

find-snoc :
    (row : SignedTransaction) (txs : List SignedTransaction)
    → any (λ t. text_eq t.payment_id row.payment_id) txs ≡ false
    → transaction_of row.payment_id (txs ++ row ∷ []) ≡ some row
unfolding find any
find-snoc row [] h = rw (text_eq_refl row.payment_id)
find-snoc row (t ∷ txs) h = ground (arith, find-snoc row txs)

abbrev pub AllEvidence : NonceDb → Type 0
AllEvidence db = All (HasEvidence db.signed_transactions) db.reservations

is_at-same :
    (i : Identity) (s : NonceState) (r : Reservation)
    → is_at i s r ≡ true
    → (r.payment_id ≡ i.payment_id) × (r.nonce ≡ i.nonce)
unfolding is_at
is_at-same i s r h = ground (arith, text_eq_iff r.payment_id i.payment_id)

persist_signed-AllEvidence :
    (i : Identity) (row : SignedTransaction) (now : Text) (db db' : NonceDb)
    → row.payment_id ≡ i.payment_id
    → row.nonce ≡ i.nonce
    → persist_signed i row now db ≡ ok db'
    → AllEvidence db
    → AllEvidence db'
persist_signed-AllEvidence i row now db db' same_id same_nonce h all =
    let (rows, txs) = persist_signed-eq-ok i row now db db' h in
    let fresh = persist_signed-fresh i row now db db' h in
    let older = db.signed_transactions in
    rw (rows, txs)
      (All-update (HasEvidence older) (HasEvidence (older ++ row ∷ []))
        (λ r. is_at i NonceState.reserved r && hash_is_null r.tx_hash) (set_signed row.tx_hash now)
        db.reservations
        (λ r m _.
          let (id, nonce) = is_at-same i NonceState.reserved r (&&-elim _ _ m).0 in
          inr (
            row,
            refl,
            rw (id ∙ sym same_id) (find-snoc row older fresh),
            refl,
            same_nonce ∙ sym nonce,
          ))
        (HasEvidence-append older (row ∷ [])) all)

move_state-AllEvidence :
    (matches : Reservation → Bool) (s t : NonceState) (now id : Text) (db db' : NonceDb)
    → is_sticky t ≡ is_sticky s
    → ((r : Reservation) → matches r ≡ true → r.state ≡ s)
    → move_state matches (set_state t now) id s t db ≡ ok db'
    → AllEvidence db
    → AllEvidence db'
move_state-AllEvidence matches s t now id db db' k at_s h all =
    subst AllEvidence (sym (move_state-eq-ok matches (set_state t now) id s t db db' h)) (
      All-update (HasEvidence db.signed_transactions) (HasEvidence db.signed_transactions) matches
        (set_state t now) db.reservations
        (λ r m. HasEvidence-set_state s t now db.signed_transactions r k (at_s r m)) (λ r e. e) all)

advance-AllEvidence :
    (s t : NonceState) (input : ReservationIdentity) (hash now : Text) (db db' : NonceDb)
    → is_sticky t ≡ is_sticky s
    → advance s t input hash now db ≡ ok db'
    → AllEvidence db
    → AllEvidence db'
unfolding advance
advance-AllEvidence s t input hash now db db' k h =
    let (i, _, h1) = bind-eq-ok (checked input) _ h in
    let (tx, _, h2) = bind-eq-ok (safe_hash hash) _ h1 in
    move_state-AllEvidence (λ r. is_at i s r && hash_is tx r.tx_hash) s t now i.payment_id db db' k
      (λ r m. is_at-state i s r (&&-elim _ _ m).0) h2

release-AllEvidence :
    (input : ReservationIdentity) (now : Text) (db db' : NonceDb)
    → release_evm_nonce_pre_submit input now db ≡ ok db'
    → AllEvidence db
    → AllEvidence db'
unfolding release_evm_nonce_pre_submit
release-AllEvidence input now db db' h =
    let (i, _, h1) = bind-eq-ok (checked input) _ h in
    move_state-AllEvidence (is_at i NonceState.reserved) NonceState.reserved
      NonceState.released_pre_submit now i.payment_id db db' refl
      (is_at-state i NonceState.reserved) h1

reserve-AllEvidence :
    (input : ReserveInput) (now : Text) (db : NonceDb) (n : ℕ) (db' : NonceDb)
    → reserve_evm_nonce input now db ≡ ok (n, db')
    → AllEvidence db
    → AllEvidence db'
reserve-AllEvidence input now db n db' h all =
    let (c, a, p, h') = reserve-inversion input now db n db' h in
    let (_, _, same) = reserve_in-eq-ok input.payment_id c a p now db n db' h' in
    subst AllEvidence (sym same) (
      All-append (HasEvidence db.signed_transactions) db.reservations
        (new_reservation input.payment_id c a n now ∷ []) all (inl (refl, refl), tt))

keep-all :
    (db : NonceDb) (r : Result NonceError NonceDb)
    → ((db' : NonceDb) → r ≡ ok db' → AllEvidence db')
    → AllEvidence db
    → AllEvidence (keep db r)
keep-all db (ok db') f h = f db' refl
keep-all db (err e) f h = h

keep_second-all :
    (db : NonceDb) (r : Result NonceError (ℕ × NonceDb))
    → ((n : ℕ) (db' : NonceDb) → r ≡ ok (n, db') → AllEvidence db')
    → AllEvidence db
    → AllEvidence (keep_second db r)
keep_second-all db (ok (n, db')) f h = f n db' refl
keep_second-all db (err e) f h = h

module _ (sha256_id keccak256_hex : List ℕ → Text) where
  perform-AllEvidence :
      (call : Call) (db : NonceDb)
      → AllEvidence db
      → AllEvidence (perform sha256_id keccak256_hex call db)
  unfolding perform mark_evm_nonce_submitting mark_evm_nonce_submitted
      mark_evm_nonce_submission_unknown
  perform-AllEvidence (Call.reserve input now) db h =
      keep_second-all db _ (λ n db' e. reserve-AllEvidence input now db n db' e h) h
  perform-AllEvidence (Call.sign input now) db h =
      keep-all db _
        (λ db' e.
          let s = mark_signed-IsSigning sha256_id keccak256_hex input now db db' e in
          persist_signed-AllEvidence s.i s.row now db db' s.payment_id s.nonce s.persisted h)
        h
  perform-AllEvidence (Call.submit input hash now) db h =
      keep-all db (mark_evm_nonce_submitting input hash now db)
        (λ db' e.
          advance-AllEvidence NonceState.signed NonceState.submitting input hash now db db' refl e
            h)
        h
  perform-AllEvidence (Call.succeed input hash now) db h =
      keep-all db (mark_evm_nonce_submitted input hash now db)
        (λ db' e.
          advance-AllEvidence NonceState.submitting NonceState.submitted input hash now db db' refl
            e h)
        h
  perform-AllEvidence (Call.lose input hash now) db h =
      keep-all db (mark_evm_nonce_submission_unknown input hash now db)
        (λ db' e.
          advance-AllEvidence NonceState.submitting NonceState.submission_unknown input hash now db
            db' refl e h)
        h
  perform-AllEvidence (Call.release input now) db h =
      keep-all db _ (λ db' e. release-AllEvidence input now db db' e h) h

  -- After any calls, a reservation past `reserved` has the signed transaction of its payment on
  -- record, with its nonce and its hash, and any other reservation has no hash, if that was so
  -- before the calls.
  pub perform_all-AllEvidence :
      (calls : List Call) (db : NonceDb)
      → AllEvidence db
      → AllEvidence (perform_all sha256_id keccak256_hex calls db)
  unfolding perform_all
  perform_all-AllEvidence [] db h = h
  perform_all-AllEvidence (call ∷ calls) db h =
      perform_all-AllEvidence calls (perform sha256_id keccak256_hex call db)
        (perform-AllEvidence call db h)
