-- ===== src/EvmNonce/Sticky.antt =====
-- What no sequence of calls of sovereign/src/senders/evm-nonce.ts undoes.

use cashloom.Prelude.{
  ℕ, ◌≡◌, ◌≢◌, refl, sym, ◌∙◌, ap, subst, ◌⊎◌, inl, inr, true, ◌&&◌, List, [], ◌∷◌, Option, some,
  Text, text_eq, text_eq_refl, ◌==◌, ok, Bool-cases, any, find, find-append, find-update,
  any_of_find, arith,
}
use cashloom.EvmNonce.{state_eq, Reservation, NonceDb, holds, is_live}
use cashloom.EvmNonce.Reserve.{ReserveInput, reserve_evm_nonce}
use cashloom.EvmNonce.Freshness.{Checked, reserve-fresh}
use cashloom.EvmNonce.Evolution.{Moved, Evolves, is_sticky, Allowed-sticky}
use cashloom.EvmNonce.Trace.{Call, perform, perform_all, perform-Evolves}

-- The reservation of a payment.
abbrev pub reservation_of : Text → List Reservation → Option Reservation
reservation_of id = find (λ r. text_eq r.payment_id id)

Moved-same_payment :
    (id : Text) (r r' : Reservation)
    → Moved r r'
    → text_eq r'.payment_id id ≡ text_eq r.payment_id id
Moved-same_payment id r r' m = ap (λ p. text_eq p id) m.payment_id

-- The reservation of a payment stays, and is the same or has moved along the state machine.
pub Evolves-reservation :
    (id : Text) (rows rows' : List Reservation) (r : Reservation)
    → Evolves rows rows'
    → reservation_of id rows ≡ some r
    → (r' : Reservation) × (reservation_of id rows' ≡ some r') × ((r' ≡ r) ⊎ Moved r r')
Evolves-reservation id rows _ r (Evolves.append row _ _) h =
    (r, find-append (λ x. text_eq x.payment_id id) rows (row ∷ []) r h, inl refl)
Evolves-reservation id rows _ r (Evolves.move matches change moves) h =
    let e =
      find-update (λ x. text_eq x.payment_id id) matches change
        (λ x m. Moved-same_payment id x (change x) (moves x m)) rows in
    elim (Bool-cases (matches r)) [
      | inl hit ↦ (change r, e ∙ rw (h, hit), inr (moves r hit))
      | inr miss ↦ (r, e ∙ rw (h, miss), inl refl)
    ]

sticky-live :
    (c n : ℕ) (r : Reservation)
    → is_sticky r.state ≡ true
    → (c == c && true && is_live r && n == n) ≡ true
unfolding is_live
sticky-live c n r h = ground arith

-- The payment's row is past `reserved`, and holds this nonce of this sender by this transaction.
pub record Held (id : Text) (c : ℕ) (a : Text) (n : ℕ) (hash : Option Text)
    (rows : List Reservation) : Type 0 where
  pub row : Reservation
  pub found : reservation_of id rows ≡ some row
  pub sticky : is_sticky row.state ≡ true
  pub chain_id : row.chain_id ≡ c
  pub from_address : row.from_address ≡ a
  pub nonce : row.nonce ≡ n
  pub tx_hash : row.tx_hash ≡ hash

module _ (id : Text) (c : ℕ) (a : Text) (n : ℕ) (hash : Option Text) where
  Held-Moved :
      (rows rows' : List Reservation) (h : Held id c a n hash rows) (r' : Reservation)
      → reservation_of id rows' ≡ some r'
      → Moved h.row r'
      → Held id c a n hash rows'
  Held-Moved rows rows' h r' found m = record {
    row = r';
    found = found;
    sticky = Allowed-sticky h.row.state r'.state m.state h.sticky;
    chain_id = m.chain_id ∙ h.chain_id;
    from_address = m.from_address ∙ h.from_address;
    nonce = m.nonce ∙ h.nonce;
    tx_hash = elim m.tx_hash [
      | inl fresh ↦ cc (rw fresh at h.sticky)
      | inr same ↦ same ∙ h.tx_hash
    ];
  }

  Held-Evolves :
      (rows rows' : List Reservation)
      → Evolves rows rows'
      → Held id c a n hash rows
      → Held id c a n hash rows'
  Held-Evolves rows rows' e h =
      let (r', found, change) = Evolves-reservation id rows rows' h.row e h.found in
      elim change [
        | inl same ↦ record {
          row = h.row;
          found = found ∙ ap some same;
          sticky = h.sticky;
          chain_id = h.chain_id;
          from_address = h.from_address;
          nonce = h.nonce;
          tx_hash = h.tx_hash;
        }
        | inr moved ↦ Held-Moved rows rows' h r' found moved
      ]

  Held-any : (rows : List Reservation) → Held id c a n hash rows → any (holds c a n) rows ≡ true
  unfolding holds state_eq
  Held-any rows h =
      any_of_find (holds c a n) (λ r. text_eq r.payment_id id) rows h.row h.found
        (rw (h.chain_id, h.from_address, h.nonce, text_eq_refl a) (sticky-live c n h.row h.sticky))

  module _ (sha256_id keccak256_hex : List ℕ → Text) where
    -- Whatever calls follow, in any order and from any caller, a nonce that was signed for stays
    -- with its payment, its sender and its transaction.
    pub perform_all-Held :
        (calls : List Call) (db : NonceDb)
        → Held id c a n hash db.reservations
        → Held id c a n hash (perform_all sha256_id keccak256_hex calls db).reservations
    unfolding perform_all
    perform_all-Held [] db h = h
    perform_all-Held (call ∷ calls) db h =
        let next = perform sha256_id keccak256_hex call db in
        perform_all-Held calls next (elim (perform-Evolves sha256_id keccak256_hex call db) [
          | inl same ↦ subst (Held id c a n hash) (sym same) h
          | inr step ↦ Held-Evolves db.reservations next.reservations step h
        ])

    -- Once a payment has signed for a nonce and still has its hash, no later reservation of the same
    -- sender on the same chain with valid inputs is given that nonce, whatever calls come in between.
    pub no_nonce_reuse :
        (calls : List Call) (db : NonceDb) (input : ReserveInput) (now : Text) (p m : ℕ)
        (db' : NonceDb)
        → Held id c a n hash db.reservations
        → Checked input c a p
        → reserve_evm_nonce input now (perform_all sha256_id keccak256_hex calls db) ≡ ok (m, db')
        → m ≢ n
    no_nonce_reuse calls db input now p m db' h valid done same =
        let later = perform_all sha256_id keccak256_hex calls db in
        let held = Held-any later.reservations (perform_all-Held calls db h) in
        let free = (reserve-fresh input now later c a p valid m db' done).1 in
        cc (sym held ∙ ap (λ k. any (holds c a k) later.reservations) (sym same) ∙ free)
