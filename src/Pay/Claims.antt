-- ===== src/Pay/Claims.antt =====
-- What a claim of sovereign/src/pay.ts has established when it hands a row to the sender.
use cashloom.Prelude.{
  ℕ, ◌+◌, ◌≤◌, ◌≡◌, refl, ◌∙◌, subst, false, inl, inr, Option, none, some, Text, text_eq_iff,
  Bool-cases, Option-cases, ok, bind-eq-ok, update, count, ◌==◌, arith,
}
use cashloom.Payments.{Payment, PaymentStatus, status_eq}
use cashloom.Pay.{Binding, PayDb, Engine}
use cashloom.Pay.Accounts.{sender_for_asset, timestamp_now, sending_account}
use cashloom.Pay.Quote.{quote_ttl_ms}
use cashloom.Pay.Claim.{
  BoundClaim, ConfirmRuntime, Claimed, ClaimResult, payment_of, binding_of, check_binding,
  is_expired, still_quoted, set_expired, set_confirmed, swap_status, status_of, claim_fresh,
  claim_quoted, claim, assert_bound,
}
use cashloom.Pay.Status.{status_eq_iff}

module _ (engine : Engine) where
  -- The three ways in which a claim commits.
  pub data Commits (runtime : ConfirmRuntime) (id : Text) (db : PayDb)
      : ClaimResult × PayDb → Type 0 where
    refused : (s : Option PaymentStatus) → Commits runtime id db (ClaimResult.unavailable s, db)
    lapsed :
        (row : Payment) (at : Text)
        → Commits runtime id db (
          ClaimResult.expired,
          record db { payments = update (still_quoted row) (set_expired at) db.payments },
        )
    won :
        (c : Claimed)
        → payment_of id db.payments ≡ some c.row
        → c.row.status ≡ PaymentStatus.quoted
        → check_binding engine c.row c.expected runtime.bound_claim ≡ ok tt
        → is_expired engine c.row c.expected runtime.now ≡ false
        → c.expected ≡ binding_of c.row.id db
        → assert_bound c.row c.expected runtime.bound_claim runtime.now ≡ ok tt
        → Commits runtime id db (
          ClaimResult.claimed c,
          record db {
            payments = update (still_quoted c.row) (set_confirmed runtime.now) db.payments;
          },
        )

  timestamp_now-same : (value at : Text) → timestamp_now engine value ≡ ok at → at ≡ value
  unfolding timestamp_now
  timestamp_now-same value at h = ground arith

  module _ (runtime : ConfirmRuntime) (id : Text) (db : PayDb) (row : Payment)
      (found : payment_of id db.payments ≡ some row)
      (quoted : row.status ≡ PaymentStatus.quoted) where
    swap_status-Commits :
        (change : Payment → Payment) (outcome : ClaimResult) (r : ClaimResult × PayDb)
        → swap_status row change outcome db ≡ ok r
        → Commits runtime id db
            (outcome, record db { payments = update (still_quoted row) change db.payments })
        → Commits runtime id db r
    unfolding swap_status
    swap_status-Commits change outcome r h wins =
        elim (Bool-cases (count (still_quoted row) db.payments == 1)) [
          | inl one ↦ subst (Commits runtime id db) (ground arith) wins
          | inr other ↦
              subst (Commits runtime id db) (ground arith)
                (Commits.refused (status_of (payment_of row.id db.payments)))
        ]

    claim_fresh-Commits :
        (binding : Option Binding) (r : ClaimResult × PayDb)
        → check_binding engine row binding runtime.bound_claim ≡ ok tt
        → is_expired engine row binding runtime.now ≡ false
        → binding ≡ binding_of row.id db
        → claim_fresh engine row binding runtime runtime.now db ≡ ok r
        → Commits runtime id db r
    unfolding claim_fresh
    claim_fresh-Commits binding r bound fresh same h =
        let (u, asserted, h1) =
          bind-eq-ok (assert_bound row binding runtime.bound_claim runtime.now) _ h in
        let (account, _, h2) = bind-eq-ok (sending_account row.account_id db) _ h1 in
        let (sender, _, h3) = bind-eq-ok (sender_for_asset engine row.asset runtime.senders) _ h2 in
        let c : Claimed = record {
          row = row;
          account = account;
          sender = sender;
          expected = binding;
        } in
        swap_status-Commits (set_confirmed runtime.now) (ClaimResult.claimed c) r h3
          (Commits.won c found quoted bound fresh same asserted)

    claim_quoted-Commits :
        (r : ClaimResult × PayDb)
        → claim_quoted engine row runtime runtime.now db ≡ ok r
        → Commits runtime id db r
    unfolding claim_quoted
    claim_quoted-Commits r h =
        let binding = binding_of row.id db in
        let (u, bound, h1) =
          bind-eq-ok (check_binding engine row binding runtime.bound_claim) _ h in
        elim (Bool-cases (is_expired engine row binding runtime.now)) [
          | inl old ↦
              swap_status-Commits (set_expired runtime.now) ClaimResult.expired r (rw old at h1)
                (Commits.lapsed row runtime.now)
          | inr fresh ↦ claim_fresh-Commits binding r bound fresh refl (rw fresh at h1)
        ]

  -- A claim that does not throw is refused and changes nothing, or lapses and fails the quoted row,
  -- or wins a quoted row that is fresh and that its binding admits.
  pub claim-Commits :
      (id : Text) (runtime : ConfirmRuntime) (db : PayDb) (r : ClaimResult × PayDb)
      → claim engine id runtime db ≡ ok r
      → Commits runtime id db r
  unfolding claim
  claim-Commits id runtime db r h =
      let (at, e, h1) = bind-eq-ok (timestamp_now engine runtime.now) _ h in
      let same = timestamp_now-same runtime.now at e in
      elim (Option-cases (payment_of id db.payments)) [
        | inl missing ↦ subst (Commits runtime id db) (cc (rw missing at h1)) (Commits.refused none)
        | inr (row, found) ↦ elim (Bool-cases (status_eq row.status PaymentStatus.quoted)) [
          | inl q ↦
              claim_quoted-Commits runtime id db row found
                (status_eq_iff row.status PaymentStatus.quoted q) r
                (rw same at (rw (found, q) at h1))
          | inr q ↦
              subst (Commits runtime id db) (cc (rw (found, q) at h1))
                (Commits.refused (some row.status))
        ]
      ]

  -- What a won claim has established about the row, the clock and the binding.
  pub record IsWon (runtime : ConfirmRuntime) (id : Text) (db : PayDb) (c : Claimed) : Type 0 where
    pub found : payment_of id db.payments ≡ some c.row
    pub quoted : c.row.status ≡ PaymentStatus.quoted
    pub bound : check_binding engine c.row c.expected runtime.bound_claim ≡ ok tt
    pub fresh : is_expired engine c.row c.expected runtime.now ≡ false
    pub expected : c.expected ≡ binding_of c.row.id db
    pub asserted : assert_bound c.row c.expected runtime.bound_claim runtime.now ≡ ok tt

  Commits-IsWon :
      (runtime : ConfirmRuntime) (id : Text) (db : PayDb) (r : ClaimResult × PayDb) (c : Claimed)
      → Commits runtime id db r
      → r.0 ≡ ClaimResult.claimed c
      → IsWon runtime id db c
  Commits-IsWon runtime id db _ c (Commits.refused s) e = cc
  Commits-IsWon runtime id db _ c (Commits.lapsed row at) e = cc
  Commits-IsWon runtime id db _ c (Commits.won c' found quoted bound fresh same asserted) e =
      let same_claim : c' ≡ c = cc in
      subst (IsWon runtime id db) same_claim (record {
        found = found;
        quoted = quoted;
        bound = bound;
        fresh = fresh;
        expected = same;
        asserted = asserted;
      })

  pub claim-IsWon :
      (id : Text) (runtime : ConfirmRuntime) (db : PayDb) (c : Claimed) (db' : PayDb)
      → claim engine id runtime db ≡ ok (ClaimResult.claimed c, db')
      → IsWon runtime id db c
  claim-IsWon id runtime db c db' h =
      Commits-IsWon runtime id db (ClaimResult.claimed c, db') c (claim-Commits id runtime db _ h)
        refl

  not_expired :
      (row : Payment) (binding : Option Binding) (now : Text)
      → is_expired engine row binding now ≡ false
      → (claimed_ms : ℕ) × (created_ms : ℕ) × (engine.date_parse now ≡ some claimed_ms)
        × (engine.date_parse row.created_at ≡ some created_ms)
        × (claimed_ms ≤ created_ms + quote_ttl_ms)
  unfolding is_expired
  not_expired row binding now h = elim (Option-cases (engine.date_parse now)) [
    | inl e ↦ absurd (ground arith)
    | inr (t, et) ↦ elim (Option-cases (engine.date_parse row.created_at)) [
      | inl e ↦ absurd (ground arith)
      | inr (t0, e0) ↦ (t, t0, et, e0, ground arith)
    ]
  ]

  binding_checked :
      (row : Payment) (b : Binding) (asked : Option BoundClaim)
      → check_binding engine row (some b) asked ≡ ok tt
      → (requested : BoundClaim) × (asked ≡ some requested)
        × (requested.intent_record_id ≡ b.intent_record_id)
        × (requested.review_id ≡ b.review_id)
        × (requested.unsigned_payload_hash ≡ b.unsigned_payload_hash)
        × (b.account_id ≡ row.account_id)
        × (engine.sha256_bytes_id b.unsigned_payload ≡ b.unsigned_payload_hash)
  unfolding check_binding
  binding_checked row b none h = cc
  binding_checked row b (some r) h = (
    r,
    refl,
    ground (arith, text_eq_iff r.intent_record_id b.intent_record_id),
    ground (arith, text_eq_iff r.review_id b.review_id),
    ground (arith, text_eq_iff r.unsigned_payload_hash b.unsigned_payload_hash),
    ground (arith, text_eq_iff b.account_id row.account_id),
    ground (arith, text_eq_iff (engine.sha256_bytes_id b.unsigned_payload) b.unsigned_payload_hash),
  )

  -- A payment is handed to its sender only if its row was still quoted, by a clock at most five
  -- minutes past the quote.
  pub claim-fresh :
      (id : Text) (runtime : ConfirmRuntime) (db : PayDb) (c : Claimed) (db' : PayDb)
      → claim engine id runtime db ≡ ok (ClaimResult.claimed c, db')
      → (payment_of id db.payments ≡ some c.row)
        × (c.row.status ≡ PaymentStatus.quoted)
        × (claimed_ms : ℕ) × (created_ms : ℕ) × (engine.date_parse runtime.now ≡ some claimed_ms)
        × (engine.date_parse c.row.created_at ≡ some created_ms)
        × (claimed_ms ≤ created_ms + quote_ttl_ms)
  claim-fresh id runtime db c db' h =
      let w = claim-IsWon id runtime db c db' h in
      let (t, t0, et, e0, le) = not_expired c.row c.expected runtime.now w.fresh in
      (w.found, w.quoted, t, t0, et, e0, le)

  -- A bound payment is handed to its sender only with the identifiers of its own review, by an
  -- account that has not changed, with the payload that its stored digest names.
  pub claim-bound :
      (id : Text) (runtime : ConfirmRuntime) (db : PayDb) (c : Claimed) (db' : PayDb) (b : Binding)
      → claim engine id runtime db ≡ ok (ClaimResult.claimed c, db')
      → binding_of c.row.id db ≡ some b
      → (requested : BoundClaim) × (runtime.bound_claim ≡ some requested)
        × (requested.intent_record_id ≡ b.intent_record_id)
        × (requested.review_id ≡ b.review_id)
        × (requested.unsigned_payload_hash ≡ b.unsigned_payload_hash)
        × (b.account_id ≡ c.row.account_id)
        × (engine.sha256_bytes_id b.unsigned_payload ≡ b.unsigned_payload_hash)
        × (c.expected ≡ some b)
  claim-bound id runtime db c db' b h found =
      let w = claim-IsWon id runtime db c db' h in
      let expected = w.expected ∙ found in
      let (r, asked, intent, review, hash, account, digest) =
        binding_checked c.row b runtime.bound_claim (
          subst (λ x. check_binding engine c.row x runtime.bound_claim ≡ ok tt) expected w.bound) in
      (r, asked, intent, review, hash, account, digest, expected)
