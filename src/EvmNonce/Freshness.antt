-- ===== src/EvmNonce/Freshness.antt =====
-- What `reserveEvmNonce` promises: a fresh nonce, the lowest one, and no collision.
use cashloom.Prelude.{
  insert_sorted, order_by, select, Bool-cases, bind-eq-err, text_eq_iff, lit, sym, ◌∙◌, ◌==◌,
  length, ℕ, ◌+◌, ◌≤◌, ◌<◌, ◌≡◌, ◌≢◌, true, false, ◌++◌, List, [], ◌∷◌, none, some, Text, text_eq,
  ok, err, bind-eq-ok, Result-cases, any, find, find-none, inl, inr, All, arith,
}
use cashloom.Payments.{Payment, PaymentStatus, status_eq}
use cashloom.EvmNonce.{
  Reservation, NonceDb, NonceError, safe_chain_id, normalized_address, safe_nonce, holds,
  current_state, max_safe_integer,
}
use cashloom.EvmNonce.Reserve.{
  ReserveInput, is_candidate, first_gap, live_nonces, insert_reservation, check_payment,
  new_reservation, reserve_in, reserve_evm_nonce,
}
use cashloom.EvmNonce.Gap.{gap-ge, gap-free, gap-lowest, contains-live_nonces, first_gap_total}

-- A payment that passes the check has no reservation.
pub check_payment-none :
    (id : Text) (db : NonceDb)
    → check_payment id db ≡ ok tt
    → any (λ r. text_eq r.payment_id id) db.reservations ≡ false
unfolding check_payment
check_payment-none id db h =
    find-none (λ (r : Reservation). text_eq r.payment_id id) db.reservations (ground arith)

check_payment-ne-violation :
    (id : Text) (db : NonceDb) → check_payment id db ≢ err NonceError.unique_violation
unfolding check_payment
check_payment-ne-violation id db h = ground arith

first_gap-ne-violation : (n : ℕ) (xs : List ℕ) → first_gap n xs ≢ err NonceError.unique_violation
unfolding first_gap
first_gap-ne-violation n [] h = cc
first_gap-ne-violation n (x ∷ xs) h =
    ground (arith, first_gap-ne-violation (n + 1) xs, first_gap-ne-violation n xs)

module _ (id : Text) (c : ℕ) (a : Text) (p : ℕ) (now : Text) (db : NonceDb) where
  -- The insertion never meets the primary key or the live-nonce index.
  insert-new :
      (n : ℕ)
      → check_payment id db ≡ ok tt
      → first_gap p (live_nonces c a p db.reservations) ≡ ok n
      → insert_reservation (new_reservation id c a n now) db
        ≡ ok (record db { reservations = db.reservations ++ new_reservation id c a n now ∷ [] })
  unfolding insert_reservation
  insert-new n checked found =
      rw (check_payment-none id db checked, gap-free c a p db.reservations n found)

  pub reserve_in-eq-ok :
      (n : ℕ) (db' : NonceDb)
      → reserve_in id c a p now db ≡ ok (n, db')
      → (check_payment id db ≡ ok tt)
        × (first_gap p (live_nonces c a p db.reservations) ≡ ok n)
        × (db' ≡ record db { reservations = db.reservations ++ new_reservation id c a n now ∷ [] })
  unfolding reserve_in
  reserve_in-eq-ok n db' h =
      let (u, checked, h1) = bind-eq-ok (check_payment id db) _ h in
      let (m, found, h2) = bind-eq-ok (first_gap p (live_nonces c a p db.reservations)) _ h1 in
      let h3 = rw (insert-new m checked found) at h2 in (checked, cc, cc)

  pub reserve_in-ne-violation : reserve_in id c a p now db ≢ err NonceError.unique_violation
  unfolding reserve_in
  reserve_in-ne-violation h = elim (Result-cases (check_payment id db)) [
    | inr (e, refused) ↦ check_payment-ne-violation id db (cc (rw refused at h))
    | inl (u, checked) ↦ elim (Result-cases (first_gap p (live_nonces c a p db.reservations))) [
      | inr (e, none_left) ↦
          first_gap-ne-violation p (live_nonces c a p db.reservations)
            (cc (rw (checked, none_left) at h))
      | inl (n, found) ↦ cc (rw (checked, found, insert-new n checked found) at h)
    ]
  ]

-- The three checks of the input, passed with these values.
abbrev pub Checked : ReserveInput → ℕ → Text → ℕ → Type 0
Checked input c a p =
    (safe_chain_id input.chain_id ≡ ok c)
    × (normalized_address input.from_address ≡ ok a)
    × (safe_nonce input.pending_nonce NonceError.invalid_nonce ≡ ok p)
    × ((length input.payment_id == 0) ≡ false)

reserve-eq-reserve_in :
    (input : ReserveInput) (now : Text) (db : NonceDb) (c : ℕ) (a : Text) (p : ℕ)
    → Checked input c a p
    → reserve_evm_nonce input now db ≡ reserve_in input.payment_id c a p now db
unfolding reserve_evm_nonce
reserve-eq-reserve_in input now db c a p (ec, ea, ep, ei) = rw (ec, ea, ep, ei)

module _ (input : ReserveInput) (now : Text) (db : NonceDb) (c : ℕ) (a : Text) (p : ℕ)
    (valid : Checked input c a p) where
  module _ (n : ℕ) (db' : NonceDb) (done : reserve_evm_nonce input now db ≡ ok (n, db')) where
    pub reserved_in : reserve_in input.payment_id c a p now db ≡ ok (n, db')
    reserved_in = sym (reserve-eq-reserve_in input now db c a p valid) ∙ done

    -- A reservation with valid inputs that succeeds returns a nonce at or above the pending one that no live row of
    -- the sender holds, and only appends the row that holds it.
    pub reserve-fresh :
        (p ≤ n)
        × (any (holds c a n) db.reservations ≡ false)
        × (db' ≡ record db {
          reservations = db.reservations ++ new_reservation input.payment_id c a n now ∷ [];
        })
    reserve-fresh =
        let (_, found, same) = reserve_in-eq-ok input.payment_id c a p now db n db' reserved_in in
        (gap-ge c a p db.reservations n found, gap-free c a p db.reservations n found, same)

    -- The nonce that it returns is the lowest free one: a live row of the sender holds each nonce from
    -- the pending one up to it.
    pub reserve-lowest : (m : ℕ) → p ≤ m → m < n → any (holds c a m) db.reservations ≡ true
    reserve-lowest m =
        let (_, found, _) = reserve_in-eq-ok input.payment_id c a p now db n db' reserved_in in
        gap-lowest c a p db.reservations n found m

inputs-ne-violation :
    (input : ReserveInput)
    → (safe_chain_id input.chain_id ≢ err NonceError.unique_violation)
      × (normalized_address input.from_address ≢ err NonceError.unique_violation)
      × (safe_nonce input.pending_nonce NonceError.invalid_nonce ≢ err NonceError.unique_violation)
unfolding safe_chain_id normalized_address safe_nonce
inputs-ne-violation input = (λ h. ground arith, λ h. ground arith, λ h. ground arith)

-- Whatever the database and the input, the row inserted never meets a UNIQUE index.
pub reserve-ne-violation :
    (input : ReserveInput) (now : Text) (db : NonceDb)
    → reserve_evm_nonce input now db ≢ err NonceError.unique_violation
unfolding reserve_evm_nonce
reserve-ne-violation input now db h =
    let (not_chain, not_address, not_nonce) = inputs-ne-violation input in
    elim (bind-eq-err (safe_chain_id input.chain_id) _ h) [
      | inl e ↦ not_chain e
      | inr (c, _, h1) ↦ elim (bind-eq-err (normalized_address input.from_address) _ h1) [
        | inl e ↦ not_address e
        | inr (a, _, h2) ↦
            elim (bind-eq-err (safe_nonce input.pending_nonce NonceError.invalid_nonce) _ h2) [
              | inl e ↦ not_nonce e
              | inr (p, _, h3) ↦
                  ground (arith, reserve_in-ne-violation input.payment_id c a p now db)
            ]
      ]
    ]

All-insert_sorted :
    (b n : ℕ) (xs : List ℕ) → n ≤ b → All (λ x. x ≤ b) xs → All (λ x. x ≤ b) (insert_sorted n xs)
unfolding insert_sorted
All-insert_sorted b n [] h t = (h, tt)
All-insert_sorted b n (x ∷ xs) h t = ground (arith, All-insert_sorted b n xs h t.1)

All-live_nonces :
    (c : ℕ) (a : Text) (p b : ℕ) (rows : List Reservation)
    → All (λ r. r.nonce ≤ b) rows
    → All (λ x. x ≤ b) (live_nonces c a p rows)
unfolding live_nonces select order_by
All-live_nonces c a p b [] t = tt
All-live_nonces c a p b (r ∷ rows) t = elim (Bool-cases (is_candidate c a p r)) [
  | inl e ↦ rw e (All-insert_sorted b r.nonce _ t.0 (All-live_nonces c a p b rows t.1))
  | inr e ↦ rw e (All-live_nonces c a p b rows t.1)
]

check_payment-eq-ok :
    (id : Text) (db : NonceDb) (payment : Payment)
    → find (λ r. text_eq r.id id) db.payments ≡ some payment
    → payment.rail ≡ lit "evm-base"
    → payment.status ≡ PaymentStatus.confirmed
    → current_state db.reservations id ≡ none
    → check_payment id db ≡ ok tt
unfolding check_payment status_eq
check_payment-eq-ok id db payment found on_evm confirmed fresh =
    ground (arith, text_eq_iff payment.rail (lit "evm-base"))

-- With valid inputs and stored nonces that are safe integers, a confirmed evm-base payment with no
-- reservation gets one, unless a live row of the sender holds the last safe integer.
pub reserve_total :
    (input : ReserveInput) (now : Text) (db : NonceDb) (c : ℕ) (a : Text) (p : ℕ)
    (payment : Payment)
    → Checked input c a p
    → find (λ r. text_eq r.id input.payment_id) db.payments ≡ some payment
    → payment.rail ≡ lit "evm-base"
    → payment.status ≡ PaymentStatus.confirmed
    → current_state db.reservations input.payment_id ≡ none
    → All (λ r. r.nonce ≤ max_safe_integer) db.reservations
    → any (holds c a max_safe_integer) db.reservations ≡ false
    → (n : ℕ) × (db' : NonceDb) × (reserve_evm_nonce input now db ≡ ok (n, db'))
unfolding reserve_in
reserve_total input now db c a p payment valid found on_evm confirmed fresh safe room =
    let live = live_nonces c a p db.reservations in
    let (n, gap) =
      first_gap_total p live (All-live_nonces c a p max_safe_integer db.reservations safe)
        (ground (arith, contains-live_nonces c a p max_safe_integer db.reservations)) in
    let passed = check_payment-eq-ok input.payment_id db payment found on_evm confirmed fresh in
    let row = new_reservation input.payment_id c a n now in
    (
      n,
      record db { reservations = db.reservations ++ row ∷ [] },
      reserve-eq-reserve_in input now db c a p valid
          ∙ (rw (passed, gap, insert-new input.payment_id c a p now db n passed gap)),
    )
