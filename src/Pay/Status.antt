-- ===== src/Pay/Status.antt =====
-- How the statements of sovereign/src/pay.ts move the status of a payment.

use cashloom.Prelude.{
  ◌≡◌, ◌∙◌, ap, Bool, true, false, some, List, ◌++◌, Text, text_eq, text_eq_iff, Bool-cases, inl,
  inr, update, updated, find-append, find-update, find-holds, arith,
}
use cashloom.Payments.{Payment, PaymentStatus, status_eq}
use cashloom.Pay.Claim.{payment_of}

pub status_eq_iff : (s t : PaymentStatus) → status_eq s t ≡ true → s ≡ t
unfolding status_eq
status_eq_iff s t h = ground arith

-- The payment has a row with this status.
abbrev pub HasStatus : Text → PaymentStatus → List Payment → Type 0
HasStatus id s rows = (p : Payment) × (payment_of id rows ≡ some p) × (p.status ≡ s)

-- The payment has a row that no claim can take.
abbrev pub IsSpent : Text → List Payment → Type 0
IsSpent id rows =
    (p : Payment) × (payment_of id rows ≡ some p)
    × (status_eq p.status PaymentStatus.quoted ≡ false)

pub payment_of-id :
    (id : Text) (rows : List Payment) (p : Payment) → payment_of id rows ≡ some p → p.id ≡ id
unfolding payment_of
payment_of-id id rows p h =
    (text_eq_iff p.id id).0 (find-holds (λ (q : Payment). text_eq q.id id) rows p h)

pub payment_of-append :
    (id : Text) (rows more : List Payment) (p : Payment)
    → payment_of id rows ≡ some p
    → payment_of id (rows ++ more) ≡ some p
unfolding payment_of
payment_of-append id rows more p h = find-append (λ (q : Payment). text_eq q.id id) rows more p h

module _ (q : Payment → Bool) (f : Payment → Payment)
    (same : (x : Payment) → q x ≡ true → (f x).id ≡ x.id) where
  pub payment_of-update :
      (id : Text) (rows : List Payment) (p : Payment)
      → payment_of id rows ≡ some p
      → payment_of id (update q f rows) ≡ some (updated q f p)
  unfolding payment_of
  payment_of-update id rows p h =
      find-update (λ x. text_eq x.id id) q f (λ x m. ap (λ t. text_eq t id) (same x m)) rows ∙ rw h

  pub HasStatus-update :
      (id : Text) (s : PaymentStatus) (rows : List Payment)
      → ((x : Payment) → q x ≡ true → x.id ≡ id → x.status ≡ s → (f x).status ≡ s)
      → HasStatus id s rows
      → HasStatus id s (update q f rows)
  HasStatus-update id s rows keeps (p, found, e) = (
    updated q f p,
    payment_of-update id rows p found,
    elim (Bool-cases (q p)) [
      | inl hit ↦ rw hit (keeps p hit (payment_of-id id rows p found) e)
      | inr miss ↦ rw miss e
    ],
  )

  pub IsSpent-update :
      (id : Text) (rows : List Payment)
      → ((x : Payment)
          → q x ≡ true
          → status_eq x.status PaymentStatus.quoted ≡ false
          → status_eq (f x).status PaymentStatus.quoted ≡ false)
      → IsSpent id rows
      → IsSpent id (update q f rows)
  IsSpent-update id rows keeps (p, found, e) = (
    updated q f p,
    payment_of-update id rows p found,
    elim (Bool-cases (q p)) [ inl hit ↦ rw hit (keeps p hit e) | inr miss ↦ rw miss e ],
  )
