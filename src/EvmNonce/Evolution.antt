-- ===== src/EvmNonce/Evolution.antt =====
-- How any operation of sovereign/src/senders/evm-nonce.ts changes the reservations: it appends one
-- fresh row, or moves the matched rows along the state machine. A nonce that was once signed for
-- stays held whatever happens later.

use cashloom.Prelude.{
  ◌≡◌, refl, ap, sym, ◌∙◌, subst, Bool, true, false, ◌&&◌, ◌||◌, ◌⊎◌, inl, inr, List, [], ◌∷◌, ◌++◌,
  Text, text_eq, ok, bind-eq-ok, require-eq-ok, &&-elim, any, update, arith,
}
use cashloom.EvmNonce.{NonceState, state_eq, Reservation, SignedTransaction, NonceDb, safe_hash}
use cashloom.EvmNonce.Transitions.{
  Identity, ReservationIdentity, checked, is_at, move_state, set_state, set_signed, hash_is,
  hash_is_null, insert_signed, set_payment_hash, persist_signed, advance,
  release_evm_nonce_pre_submit,
}

-- The state machine, as the operations' guards spell it.
pub data Allowed : NonceState → NonceState → Type 0 where
  sign : Allowed NonceState.reserved NonceState.signed
  release : Allowed NonceState.reserved NonceState.released_pre_submit
  submit : Allowed NonceState.signed NonceState.submitting
  succeed : Allowed NonceState.submitting NonceState.submitted
  lose : Allowed NonceState.submitting NonceState.submission_unknown

-- The states from which no operation frees the nonce.
abbrev pub is_sticky : NonceState → Bool
is_sticky NonceState.reserved = false
is_sticky NonceState.released_pre_submit = false
is_sticky _ = true

pub Allowed-sticky : (s t : NonceState) → Allowed s t → is_sticky s ≡ true → is_sticky t ≡ true
Allowed-sticky _ _ sign h = refl
Allowed-sticky _ _ release h = h
Allowed-sticky _ _ submit h = refl
Allowed-sticky _ _ succeed h = refl
Allowed-sticky _ _ lose h = refl

-- A row before and after one operation that matched it.
pub record Moved (r r' : Reservation) : Type 0 where
  pub payment_id : r'.payment_id ≡ r.payment_id
  pub chain_id : r'.chain_id ≡ r.chain_id
  pub from_address : r'.from_address ≡ r.from_address
  pub nonce : r'.nonce ≡ r.nonce
  pub state : Allowed r.state r'.state
  pub tx_hash : (r.state ≡ NonceState.reserved) ⊎ (r'.tx_hash ≡ r.tx_hash)

pub data Evolves (rows : List Reservation) : List Reservation → Type 0 where
  append :
      (row : Reservation)
      → any (λ r. text_eq r.payment_id row.payment_id) rows ≡ false
      → row.state ≡ NonceState.reserved
      → Evolves rows (rows ++ row ∷ [])
  move :
      (matches : Reservation → Bool) (change : Reservation → Reservation)
      → ((r : Reservation) → matches r ≡ true → Moved r (change r))
      → Evolves rows (update matches change rows)

pub state_eq_sound : (s t : NonceState) → state_eq s t ≡ true → s ≡ t
unfolding state_eq
state_eq_sound s t h = ground arith

pub is_at-state :
    (i : Identity) (s : NonceState) (r : Reservation) → is_at i s r ≡ true → r.state ≡ s
unfolding is_at
is_at-state i s r h = ground (arith, state_eq_sound r.state s)

pub move_state-eq-ok :
    (matches : Reservation → Bool) (change : Reservation → Reservation) (id : Text)
    (expected next : NonceState) (db db' : NonceDb)
    → move_state matches change id expected next db ≡ ok db'
    → db' ≡ record db { reservations = update matches change db.reservations }
unfolding move_state
move_state-eq-ok matches change id expected next db db' h = ground arith

pub insert_signed-eq-ok :
    (row : SignedTransaction) (db db' : NonceDb)
    → insert_signed row db ≡ ok db'
    → db' ≡ record db { signed_transactions = db.signed_transactions ++ row ∷ [] }
unfolding insert_signed
insert_signed-eq-ok row db db' h = ground arith

any-or-false :
    (p q : SignedTransaction → Bool) (txs : List SignedTransaction)
    → any (λ t. p t || q t) txs ≡ false
    → any p txs ≡ false
unfolding any
any-or-false p q [] h = refl
any-or-false p q (t ∷ txs) h = ground (arith, any-or-false p q txs)

insert_signed-fresh :
    (row : SignedTransaction) (db db' : NonceDb)
    → insert_signed row db ≡ ok db'
    → any (λ t. text_eq t.payment_id row.payment_id) db.signed_transactions ≡ false
unfolding insert_signed
insert_signed-fresh row db db' h =
    any-or-false (λ t. text_eq t.payment_id row.payment_id) (λ t. text_eq t.tx_hash row.tx_hash)
      db.signed_transactions (ground arith)

pub set_payment_hash-keeps :
    (id hash now : Text) (db db' : NonceDb)
    → set_payment_hash id hash now db ≡ ok db'
    → (db'.reservations ≡ db.reservations) × (db'.signed_transactions ≡ db.signed_transactions)
unfolding set_payment_hash
set_payment_hash-keeps id hash now db db' h = ground arith

Moved-set_state :
    (s t : NonceState) (now : Text) (r : Reservation)
    → Allowed s t
    → r.state ≡ s
    → Moved r (set_state t now r)
Moved-set_state s t now r a e = record {
  payment_id = refl;
  chain_id = refl;
  from_address = refl;
  nonce = refl;
  state = subst (λ z. Allowed z t) (sym e) a;
  tx_hash = inr refl;
}

pub Moved-set_signed :
    (hash now : Text) (r : Reservation)
    → r.state ≡ NonceState.reserved
    → Moved r (set_signed hash now r)
Moved-set_signed hash now r e = record {
  payment_id = refl;
  chain_id = refl;
  from_address = refl;
  nonce = refl;
  state = subst (λ z. Allowed z NonceState.signed) (sym e) Allowed.sign;
  tx_hash = inl e;
}

move_state-Evolves :
    (matches : Reservation → Bool) (change : Reservation → Reservation) (id : Text)
    (expected next : NonceState) (db db' : NonceDb)
    → ((r : Reservation) → matches r ≡ true → Moved r (change r))
    → move_state matches change id expected next db ≡ ok db'
    → Evolves db.reservations db'.reservations
move_state-Evolves matches change id expected next db db' moves h =
    let e = move_state-eq-ok matches change id expected next db db' h in
    subst (λ (d : NonceDb). Evolves db.reservations d.reservations) (sym e)
      (Evolves.move matches change moves)

pub advance-Evolves :
    (s t : NonceState) (input : ReservationIdentity) (hash now : Text) (db db' : NonceDb)
    → Allowed s t
    → advance s t input hash now db ≡ ok db'
    → Evolves db.reservations db'.reservations
unfolding advance
advance-Evolves s t input hash now db db' a h =
    let (i, _, h1) = bind-eq-ok (checked input) _ h in
    let (tx, _, h2) = bind-eq-ok (safe_hash hash) _ h1 in
    move_state-Evolves (λ r. is_at i s r && hash_is tx r.tx_hash) (set_state t now) i.payment_id s t
      db db' (λ r m. Moved-set_state s t now r a (is_at-state i s r (&&-elim _ _ m).0)) h2

pub release-Evolves :
    (input : ReservationIdentity) (now : Text) (db db' : NonceDb)
    → release_evm_nonce_pre_submit input now db ≡ ok db'
    → Evolves db.reservations db'.reservations
unfolding release_evm_nonce_pre_submit
release-Evolves input now db db' h =
    let (i, _, h1) = bind-eq-ok (checked input) _ h in
    move_state-Evolves (is_at i NonceState.reserved) (set_state NonceState.released_pre_submit now)
      i.payment_id NonceState.reserved NonceState.released_pre_submit db db'
      (λ r m. Moved-set_state _ _ now r Allowed.release (is_at-state i NonceState.reserved r m)) h1

-- A successful signing moves the one reserved row and appends the evidence.
pub persist_signed-eq-ok :
    (i : Identity) (row : SignedTransaction) (now : Text) (db db' : NonceDb)
    → persist_signed i row now db ≡ ok db'
    → (db'.reservations
        ≡ update
            (λ r. is_at i NonceState.reserved r && hash_is_null r.tx_hash)
            (set_signed row.tx_hash now)
            db.reservations)
      × (db'.signed_transactions ≡ db.signed_transactions ++ row ∷ [])
unfolding persist_signed
persist_signed-eq-ok i row now db db' h =
    let (_, h1) = require-eq-ok _ _ _ h in
    let (moved, m, h2) = bind-eq-ok (move_state _ _ _ _ _ db) _ h1 in
    let (kept, k, h3) = bind-eq-ok (insert_signed row moved) _ h2 in
    let em = move_state-eq-ok _ _ _ _ _ db moved m in
    let ek = insert_signed-eq-ok row moved kept k in
    let (er, es) = set_payment_hash-keeps i.payment_id row.tx_hash now kept db' h3 in
    (
      er ∙ ap (λ (d : NonceDb). d.reservations) ek ∙ ap (λ (d : NonceDb). d.reservations) em,
      es
          ∙ ap (λ (d : NonceDb). d.signed_transactions) ek
          ∙ ap (λ (d : NonceDb). d.signed_transactions ++ row ∷ []) em,
    )

pub persist_signed-fresh :
    (i : Identity) (row : SignedTransaction) (now : Text) (db db' : NonceDb)
    → persist_signed i row now db ≡ ok db'
    → any (λ t. text_eq t.payment_id row.payment_id) db.signed_transactions ≡ false
unfolding persist_signed
persist_signed-fresh i row now db db' h =
    let (_, h1) = require-eq-ok _ _ _ h in
    let (moved, m, h2) = bind-eq-ok (move_state _ _ _ _ _ db) _ h1 in
    let (kept, k, h3) = bind-eq-ok (insert_signed row moved) _ h2 in
    let em = ap (λ (d : NonceDb). d.signed_transactions) (move_state-eq-ok _ _ _ _ _ db moved m) in
    subst (λ ts. any (λ t. text_eq t.payment_id row.payment_id) ts ≡ false) em
      (insert_signed-fresh row moved kept k)
