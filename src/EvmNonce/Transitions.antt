-- ===== src/EvmNonce/Transitions.antt =====
-- The transitions of a reservation in sovereign/src/senders/evm-nonce.ts: signing, submitting,
-- the two outcomes of a submission, and the release before one.
use cashloom.Prelude.{
  ℕ, Bool, true, false, ◌&&◌, ◌||◌, Option, none, some, List, [], ◌∷◌, ◌++◌, Text, text_eq, ◌==◌,
  if◌then◌else◌, Result, ok, err, ◌>>=◌, ◌>>◌, require, any, update, count, not,
}
use cashloom.Payments.{Payment, PaymentStatus, status_eq}
use cashloom.EvmNonce.{
  NonceState, state_eq, Reservation, SignedTransaction, NonceDb, Number, NonceError,
  normalized_address, safe_nonce, safe_chain_id, safe_hash, safe_payload, safe_sha256,
  current_state,
}

-- `payment_id`, `chain_id`, `from_address` and `nonce`, after the checks of the input.
pub record Identity : Type 0 where
  pub payment_id : Text
  pub chain_id : ℕ
  pub from_address : Text
  pub nonce : ℕ

pub record ReservationIdentity : Type 0 where
  pub payment_id : Text
  pub chain_id : Number
  pub from_address : Text
  pub nonce : Number

pub record SignedEvidence : Type 0 where
  pub identity : ReservationIdentity
  pub tx_hash : Text
  pub unsigned_payload : List ℕ
  pub unsigned_payload_sha256 : Text
  pub signed_payload : List ℕ
  pub signed_payload_sha256 : Text

unfoldable pub checked : ReservationIdentity → Result NonceError Identity
checked input = do
  chain_id ← safe_chain_id input.chain_id
  address ← normalized_address input.from_address
  nonce ← safe_nonce input.nonce NonceError.invalid_nonce
  ok (record {
    payment_id = input.payment_id;
    chain_id = chain_id;
    from_address = address;
    nonce = nonce;
  })

-- `tx_hash = ?`, which no NULL satisfies.
abbrev pub hash_is : Text → Option Text → Bool
hash_is hash none = false
hash_is hash (some h) = text_eq h hash

abbrev pub hash_is_null : Option Text → Bool
hash_is_null none = true
hash_is_null (some h) = false

-- `payment_id = ? AND chain_id = ? AND from_address = ? AND nonce = ? AND state = ?`
unfoldable pub is_at : Identity → NonceState → Reservation → Bool
unfolding state_eq
is_at i expected r =
    text_eq r.payment_id i.payment_id
    && r.chain_id == i.chain_id
    && text_eq r.from_address i.from_address
    && r.nonce == i.nonce
    && state_eq r.state expected

-- One `UPDATE` of the reservations that must change exactly one row.
unfoldable pub move_state :
    (Reservation → Bool)
    → (Reservation → Reservation)
    → Text
    → NonceState
    → NonceState
    → NonceDb
    → Result NonceError NonceDb
unfolding current_state
move_state matches change payment_id expected next db =
    if count matches db.reservations == 1
    then ok (record db { reservations = update matches change db.reservations })
    else err
        (NonceError.transition_refused (current_state db.reservations payment_id) expected next)

abbrev pub set_state : NonceState → Text → Reservation → Reservation
set_state next now r = record r { state = next; updated_at = now }

abbrev pub set_signed : Text → Text → Reservation → Reservation
set_signed hash now r = record r {
  state = NonceState.signed;
  tx_hash = some hash;
  updated_at = now;
}

-- `idx_evm_nonce_hash`: no other row of the chain has the hash that a matched row is given.
unfoldable pub hash_taken : Identity → Text → NonceDb → Bool
hash_taken i hash db =
    any
      (λ r.
        r.chain_id == i.chain_id
        && hash_is hash r.tx_hash
        && not (text_eq r.payment_id i.payment_id))
      db.reservations

unfoldable pub insert_signed : SignedTransaction → NonceDb → Result NonceError NonceDb
insert_signed row db =
    if any (λ t. text_eq t.payment_id row.payment_id || text_eq t.tx_hash row.tx_hash)
      db.signed_transactions
    then err NonceError.unique_violation
    else ok (record db { signed_transactions = db.signed_transactions ++ row ∷ [] })

unfoldable pub set_payment_hash : Text → Text → Text → NonceDb → Result NonceError NonceDb
unfolding status_eq
set_payment_hash payment_id hash now db =
    let confirmed_here =
      λ (p : Payment). text_eq p.id payment_id && status_eq p.status PaymentStatus.confirmed in
    if count confirmed_here db.payments == 1
    then ok (record db {
      payments =
          update confirmed_here (λ p. record p { tx_hash = some hash; updated_at = some now })
            db.payments;
    })
    else err NonceError.payment_not_confirmed

-- The transaction of `markEvmNonceSigned`, after the checks of the input.
unfoldable pub persist_signed :
    Identity → SignedTransaction → Text → NonceDb → Result NonceError NonceDb
persist_signed i row now db = do
  let matches = λ (r : Reservation). is_at i NonceState.reserved r && hash_is_null r.tx_hash
  require (not (any matches db.reservations && hash_taken i row.tx_hash db))
      NonceError.unique_violation
  moved ←
      move_state matches (set_signed row.tx_hash now) i.payment_id NonceState.reserved
        NonceState.signed db
  kept ← insert_signed row moved
  set_payment_hash i.payment_id row.tx_hash now kept

module _ (sha256_id keccak256_hex : List ℕ → Text) where
  unfoldable pub mark_evm_nonce_signed : SignedEvidence → Text → NonceDb → Result NonceError NonceDb
  mark_evm_nonce_signed input now db = do
    i ← checked input.identity
    hash ← safe_hash input.tx_hash
    unsigned_payload ← safe_payload input.unsigned_payload
    signed_payload ← safe_payload input.signed_payload
    unsigned_sha256 ← safe_sha256 sha256_id input.unsigned_payload_sha256 unsigned_payload
    signed_sha256 ← safe_sha256 sha256_id input.signed_payload_sha256 signed_payload
    require (text_eq (keccak256_hex signed_payload) hash) NonceError.hash_mismatch
    persist_signed i
        (record {
          payment_id = i.payment_id;
          chain_id = i.chain_id;
          from_address = i.from_address;
          nonce = i.nonce;
          unsigned_payload = unsigned_payload;
          unsigned_payload_sha256 = unsigned_sha256;
          signed_payload = signed_payload;
          signed_payload_sha256 = signed_sha256;
          tx_hash = hash;
          created_at = now;
        })
        now db

-- The `UPDATE` that the three operations after signing share.
unfoldable pub advance :
    NonceState
    → NonceState
    → ReservationIdentity
    → Text
    → Text
    → NonceDb
    → Result NonceError NonceDb
advance expected next input tx_hash now db = do
  i ← checked input
  hash ← safe_hash tx_hash
  move_state (λ r. is_at i expected r && hash_is hash r.tx_hash) (set_state next now) i.payment_id
      expected next db

unfoldable pub mark_evm_nonce_submitting :
    ReservationIdentity → Text → Text → NonceDb → Result NonceError NonceDb
mark_evm_nonce_submitting = advance NonceState.signed NonceState.submitting

unfoldable pub mark_evm_nonce_submitted :
    ReservationIdentity → Text → Text → NonceDb → Result NonceError NonceDb
mark_evm_nonce_submitted = advance NonceState.submitting NonceState.submitted

unfoldable pub mark_evm_nonce_submission_unknown :
    ReservationIdentity → Text → Text → NonceDb → Result NonceError NonceDb
mark_evm_nonce_submission_unknown = advance NonceState.submitting NonceState.submission_unknown

unfoldable pub release_evm_nonce_pre_submit :
    ReservationIdentity → Text → NonceDb → Result NonceError NonceDb
release_evm_nonce_pre_submit input now db = do
  i ← checked input
  move_state (is_at i NonceState.reserved) (set_state NonceState.released_pre_submit now)
      i.payment_id NonceState.reserved NonceState.released_pre_submit db
