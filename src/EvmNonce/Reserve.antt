-- ===== src/EvmNonce/Reserve.antt =====
-- `reserveEvmNonce` of sovereign/src/senders/evm-nonce.ts.
use cashloom.Prelude.{
  ℕ, ◌+◌, Bool, ◌&&◌, ◌||◌, none, some, List, [], ◌∷◌, ◌++◌, Text, lit, text_eq, map, leb, ltb,
  ◌==◌, if◌then◌else◌, Result, ok, err, ◌>>=◌, ◌>>◌, require, find, select, any, order_by, not,
  length,
}
use cashloom.Payments.{PaymentStatus, status_eq}
use cashloom.EvmNonce.{
  NonceState, Reservation, NonceDb, Number, NonceError, max_safe_integer, normalized_address,
  safe_nonce, safe_chain_id, current_state, is_live, holds,
}

-- The loop over the live nonces, in ascending order: the first free one at or above `nonce`.
unfoldable pub first_gap : ℕ → List ℕ → Result NonceError ℕ
first_gap nonce [] = ok nonce
first_gap nonce (held ∷ rest) =
    let next = first_gap (nonce + 1) rest in
    let same = first_gap nonce rest in
    if not (leb held max_safe_integer)
    then err NonceError.stored_nonce_unsafe
    else if held == nonce
    then (if nonce == max_safe_integer then err NonceError.nonces_exhausted else next)
    else if ltb nonce held
    then ok nonce
    else same

-- `chain_id = ? AND from_address = ? AND state != 'released_pre_submit' AND nonce >= ?`
unfoldable pub is_candidate : ℕ → Text → ℕ → Reservation → Bool
unfolding is_live
is_candidate chain_id address pending r =
    r.chain_id == chain_id && text_eq r.from_address address && is_live r && leb pending r.nonce

unfoldable pub live_nonces : ℕ → Text → ℕ → List Reservation → List ℕ
live_nonces chain_id address pending rows =
    order_by (map (λ r. r.nonce) (select (is_candidate chain_id address pending) rows))

-- `INSERT INTO evm_nonce_reservations`, with the table's primary key and its live-nonce index.
unfoldable pub insert_reservation : Reservation → NonceDb → Result NonceError NonceDb
insert_reservation row db =
    if any (λ r. text_eq r.payment_id row.payment_id) db.reservations
      || any (holds row.chain_id row.from_address row.nonce) db.reservations
    then err NonceError.unique_violation
    else ok (record db { reservations = db.reservations ++ row ∷ [] })

pub record ReserveInput : Type 0 where
  pub payment_id : Text
  pub chain_id : Number
  pub from_address : Text
  pub pending_nonce : Number

unfoldable pub check_payment : Text → NonceDb → Result NonceError (Unit {0})
unfolding current_state status_eq
check_payment payment_id db = elim (find (λ p. text_eq p.id payment_id) db.payments) [
  | none ↦ err NonceError.no_payment
  | some p ↦
      if text_eq p.rail (lit "evm-base") && status_eq p.status PaymentStatus.confirmed
      then elim (current_state db.reservations payment_id) [
        | none ↦ ok tt
        | some s ↦ err (NonceError.already_reserved s)
      ]
      else err NonceError.not_confirmed_evm
]

abbrev pub new_reservation : Text → ℕ → Text → ℕ → Text → Reservation
new_reservation payment_id chain_id address nonce now = record {
  payment_id = payment_id;
  chain_id = chain_id;
  from_address = address;
  nonce = nonce;
  state = NonceState.reserved;
  tx_hash = none;
  created_at = now;
  updated_at = now;
}

-- The transaction body, after the checks of the input.
unfoldable pub reserve_in : Text → ℕ → Text → ℕ → Text → NonceDb → Result NonceError (ℕ × NonceDb)
reserve_in payment_id chain_id address pending now db = do
  check_payment payment_id db
  nonce ← first_gap pending (live_nonces chain_id address pending db.reservations)
  next ← insert_reservation (new_reservation payment_id chain_id address nonce now) db
  ok (nonce, next)

unfoldable pub reserve_evm_nonce : ReserveInput → Text → NonceDb → Result NonceError (ℕ × NonceDb)
reserve_evm_nonce input now db = do
  chain_id ← safe_chain_id input.chain_id
  address ← normalized_address input.from_address
  pending ← safe_nonce input.pending_nonce NonceError.invalid_nonce
  require (not (length input.payment_id == 0)) NonceError.no_payment_id
  reserve_in input.payment_id chain_id address pending now db
