-- ===== src/EvmNonce.antt =====
-- sovereign/src/senders/evm-nonce.ts: the state, the guards on inputs and the statements on rows
-- that the operations of the children share. A nonce is held in SQLite; each operation is one
-- `BEGIN IMMEDIATE` transaction, so it takes the database and returns the next one, or an error
-- that leaves the database as it was.
pub mod Reserve
pub mod Transitions
pub mod Gap
pub mod Freshness
pub mod Evolution
pub mod Sticky
pub mod Trace
pub mod Evidence
mod Tests
use cashloom.Prelude.{
  ℕ, ◌^◌, ◌-◌, Bool, true, false, ◌&&◌, ◌||◌, not, Option, none, some, List, [], ◌∷◌, Text, lit,
  text_eq, to_lower, leb, ltb, ◌==◌, if◌then◌else◌, Result, ok, err, ◌>>◌, require, length, all,
  find,
}
use cashloom.Payments.{Payment}

pub data NonceState : Type 0 where
  reserved signed submitting submitted submission_unknown released_pre_submit : NonceState

unfoldable pub state_eq : NonceState → NonceState → Bool
state_eq reserved reserved = true
state_eq signed signed = true
state_eq submitting submitting = true
state_eq submitted submitted = true
state_eq submission_unknown submission_unknown = true
state_eq released_pre_submit released_pre_submit = true
state_eq _ _ = false

pub record Reservation : Type 0 where
  pub payment_id : Text
  pub chain_id : ℕ
  pub from_address : Text
  pub nonce : ℕ
  pub state : NonceState
  pub tx_hash : Option Text
  pub created_at : Text
  pub updated_at : Text

pub record SignedTransaction : Type 0 where
  pub payment_id : Text
  pub chain_id : ℕ
  pub from_address : Text
  pub nonce : ℕ
  pub unsigned_payload : List ℕ
  pub unsigned_payload_sha256 : Text
  pub signed_payload : List ℕ
  pub signed_payload_sha256 : Text
  pub tx_hash : Text
  pub created_at : Text

-- The three tables that the coordinator reads and writes.
pub record NonceDb : Type 0 where
  pub payments : List Payment
  pub reservations : List Reservation
  pub signed_transactions : List SignedTransaction

-- A JavaScript number that should be a natural number: `other` stands for a negative, a fraction,
-- NaN or an infinity.
pub data Number : Type 0 where
  nat : ℕ → Number
  other : Number

-- One constructor for each `throw`, and one for an SQLite UNIQUE index that refuses a write.
pub data NonceError : Type 0 where
  invalid_address invalid_nonce invalid_chain_id invalid_hash : NonceError
  invalid_payload digest_mismatch hash_mismatch : NonceError
  no_payment_id no_payment not_confirmed_evm : NonceError
  already_reserved : NonceState → NonceError
  stored_nonce_unsafe nonces_exhausted : NonceError
  transition_refused : Option NonceState → NonceState → NonceState → NonceError
  payment_not_confirmed unique_violation : NonceError

-- `Number.MAX_SAFE_INTEGER`
abbrev pub max_safe_integer : ℕ
max_safe_integer = 2 ^ 53 - 1

is_digit : ℕ → Bool
is_digit c = leb b'0' c && leb c b'9'

is_hex : ℕ → Bool
unfolding is_digit
is_hex c = is_digit c || (leb b'a' c && leb c b'f') || (leb b'A' c && leb c b'F')

is_lower_hex : ℕ → Bool
unfolding is_digit
is_lower_hex c = is_digit c || (leb b'a' c && leb c b'f')

-- `/^0x[0-9a-fA-F]{n}$/`
is_prefixed_hex : ℕ → Text → Bool
unfolding is_hex
is_prefixed_hex n (z ∷ x ∷ rest) = z == b'0' && x == b'x' && length rest == n && all is_hex rest
is_prefixed_hex n _ = false

unfoldable pub normalized_address : Text → Result NonceError Text
unfolding is_prefixed_hex to_lower
normalized_address address =
    if is_prefixed_hex 40 address then ok (to_lower address) else err invalid_address

unfoldable pub safe_nonce : Number → NonceError → Result NonceError ℕ
safe_nonce (nat n) e = if leb n max_safe_integer then ok n else err e
safe_nonce other e = err e

unfoldable pub safe_chain_id : Number → Result NonceError ℕ
safe_chain_id (nat n) = if leb n max_safe_integer && ltb 0 n then ok n else err invalid_chain_id
safe_chain_id other = err invalid_chain_id

unfoldable pub safe_hash : Text → Result NonceError Text
unfolding is_prefixed_hex to_lower
safe_hash hash = if is_prefixed_hex 64 hash then ok (to_lower hash) else err invalid_hash

unfoldable pub safe_payload : List ℕ → Result NonceError (List ℕ)
safe_payload payload =
    if length payload == 0 || ltb 131072 (length payload) then err invalid_payload else ok payload

-- `/^sha256:[0-9a-f]{64}$/`
is_sha256_id : Text → Bool
unfolding is_lower_hex
is_sha256_id (s ∷ h ∷ a ∷ two ∷ five ∷ six ∷ colon ∷ rest) =
    text_eq (s ∷ h ∷ a ∷ two ∷ five ∷ six ∷ colon ∷ []) (lit "sha256:")
    && length rest == 64
    && all is_lower_hex rest
is_sha256_id _ = false

-- The digest is an argument: `@noble/hashes` is not part of the repository.
unfoldable pub safe_sha256 : (List ℕ → Text) → Text → List ℕ → Result NonceError Text
unfolding is_sha256_id
safe_sha256 sha256_id value payload =
    if is_sha256_id value && text_eq value (sha256_id payload)
    then ok value
    else err digest_mismatch

-- `currentState`: the state of a payment's reservation, `none` for "missing"
unfoldable pub current_state : List Reservation → Text → Option NonceState
current_state rows payment_id = elim (find (λ r. text_eq r.payment_id payment_id) rows) [
  | none ↦ none
  | some r ↦ some r.state
]

-- `state != 'released_pre_submit'`
unfoldable pub is_live : Reservation → Bool
unfolding state_eq
is_live r = not (state_eq r.state released_pre_submit)

-- A row that holds this nonce of this sender against reuse.
unfoldable pub holds : ℕ → Text → ℕ → Reservation → Bool
unfolding is_live
holds chain_id address nonce r =
    r.chain_id == chain_id && text_eq r.from_address address && is_live r && r.nonce == nonce
