-- ===== src/Pay/Rite.antt =====
-- What every interleaving of sovereign/src/pay.ts keeps: a payment is handed to its sender at most
-- once, and an outcome is final.
use cashloom.Prelude.{
  ◌≡◌, ◌≢◌, refl, sym, ◌∙◌, subst, Bool, true, false, Option, List, [], ◌∷◌, ◌++◌, Text, text_eq,
  text_eq_iff, ok, bind-eq-ok, update, All, AllPairs, All-implies, arith,
}
use cashloom.Payments.{Payment, PaymentStatus, status_eq}
use cashloom.Pay.{PayDb, Callback, Engine}
use cashloom.Pay.Quote.{PaymentQuoteDraft, insert_payment, persist_quote, bind_draft}
use cashloom.Pay.Claim.{
  Claimed, ClaimResult, ConfirmRuntime, still_quoted, set_expired, set_confirmed,
}
use cashloom.Pay.Settle.{
  SendOutcome, Recording, set_where, on_signed, set_broadcast, write_note, record_sent, settle,
}
use cashloom.Pay.Status.{
  HasStatus, IsSpent, HasStatus-update, IsSpent-update, payment_of-append, status_eq_iff,
}
use cashloom.Pay.Claims.{Commits}
use cashloom.Pay.World.{World}

-- One statement of the rite, as it bears on statuses: rows are appended, a quoted row is moved, or
-- the row of one payment is rewritten.
pub data Statement (rows : List Payment) : List Payment → Type 0 where
  nothing : Statement rows rows
  insert : (p : Payment) → Statement rows (rows ++ p ∷ [])
  swap :
      (row : Payment) (f : Payment → Payment)
      → ((x : Payment) → ((f x).id ≡ x.id) × (status_eq (f x).status PaymentStatus.quoted ≡ false))
      → Statement rows (update (still_quoted row) f rows)

still_quoted-quoted :
    (row x : Payment)
    → still_quoted row x ≡ true
    → (x.status ≡ PaymentStatus.quoted) × (x.id ≡ row.id)
unfolding still_quoted
still_quoted-quoted row x h =
    ground (arith, status_eq_iff x.status PaymentStatus.quoted, text_eq_iff x.id row.id)

-- A statement that is no rewrite leaves every row that is not quoted as it was.
pub Statement-HasStatus :
    (rows rows' : List Payment) (id : Text) (s : PaymentStatus)
    → s ≢ PaymentStatus.quoted
    → Statement rows rows'
    → HasStatus id s rows
    → HasStatus id s rows'
Statement-HasStatus rows _ id s ne Statement.nothing h = h
Statement-HasStatus rows _ id s ne (Statement.insert p) (q, found, e) =
    (q, payment_of-append id rows (p ∷ []) q found, e)
Statement-HasStatus rows _ id s ne (Statement.swap row f moves) h =
    HasStatus-update (still_quoted row) f (λ x _. (moves x).0) id s rows
      (λ x m _ e. absurd (ne (sym e ∙ (still_quoted-quoted row x m).0))) h

pub Statement-IsSpent :
    (rows rows' : List Payment) (id : Text)
    → Statement rows rows'
    → IsSpent id rows
    → IsSpent id rows'
Statement-IsSpent rows _ id Statement.nothing h = h
Statement-IsSpent rows _ id (Statement.insert p) (q, found, e) =
    (q, payment_of-append id rows (p ∷ []) q found, e)
Statement-IsSpent rows _ id (Statement.swap row f moves) h =
    IsSpent-update (still_quoted row) f (λ x _. (moves x).0) id rows (λ x _ _. (moves x).1) h

-- Rewrites of one payment's row: the status stays, or is one that no claim takes.
module _ (id : Text) (f : Payment → Payment) (same : (x : Payment) → (f x).id ≡ x.id)
    (rows : List Payment) where
  rewrite-other :
      (other : Text) (s : PaymentStatus)
      → other ≢ id
      → HasStatus other s rows
      → HasStatus other s (update (λ p. text_eq p.id id) f rows)
  rewrite-other other s ne =
      HasStatus-update (λ p. text_eq p.id id) f (λ x _. same x) other s rows
        (λ x m e _. absurd (ne (sym e ∙ (text_eq_iff x.id id).0 m)))

  rewrite-IsSpent :
      (other : Text)
      → ((x : Payment)
          → status_eq x.status PaymentStatus.quoted ≡ false
          → status_eq (f x).status PaymentStatus.quoted ≡ false)
      → IsSpent other rows
      → IsSpent other (update (λ p. text_eq p.id id) f rows)
  rewrite-IsSpent other keeps =
      IsSpent-update (λ p. text_eq p.id id) f (λ x _. same x) other rows (λ x _. keeps x)

pub data Rewrites (id : Text) (rows : List Payment) : List Payment → Type 0 where
  done : Rewrites id rows rows
  rewrite :
      {mid : List Payment} (f : Payment → Payment)
      → ((x : Payment) → (f x).id ≡ x.id)
      → ((x : Payment)
          → status_eq x.status PaymentStatus.quoted ≡ false
          → status_eq (f x).status PaymentStatus.quoted ≡ false)
      → Rewrites id rows mid
      → Rewrites id rows (update (λ p. text_eq p.id id) f mid)

pub Rewrites-other :
    (id other : Text) (s : PaymentStatus) (rows rows' : List Payment)
    → other ≢ id
    → Rewrites id rows rows'
    → HasStatus other s rows
    → HasStatus other s rows'
Rewrites-other id other s rows _ ne Rewrites.done h = h
Rewrites-other id other s rows _ ne (Rewrites.rewrite {mid} f same keeps before) h =
    rewrite-other id f same mid other s ne (Rewrites-other id other s rows mid ne before h)

pub Rewrites-IsSpent :
    (id other : Text) (rows rows' : List Payment)
    → Rewrites id rows rows'
    → IsSpent other rows
    → IsSpent other rows'
Rewrites-IsSpent id other rows _ Rewrites.done h = h
Rewrites-IsSpent id other rows _ (Rewrites.rewrite {mid} f same keeps before) h =
    rewrite-IsSpent id f same mid other keeps (Rewrites-IsSpent id other rows mid before h)

set_where-Rewrites :
    (id : Text) (f : Payment → Payment) (rows : List Payment) (db : PayDb)
    → ((x : Payment) → (f x).id ≡ x.id)
    → ((x : Payment)
        → status_eq x.status PaymentStatus.quoted ≡ false
        → status_eq (f x).status PaymentStatus.quoted ≡ false)
    → Rewrites id rows db.payments
    → Rewrites id rows (set_where id f db).payments
unfolding set_where
set_where-Rewrites id f rows db same keeps before = Rewrites.rewrite f same keeps before

write_note-Rewrites :
    (id external_id message : Text) (written : Bool) (now : Text) (rows : List Payment) (db : PayDb)
    → Rewrites id rows db.payments
    → Rewrites id rows (write_note id external_id message written now db).payments
unfolding write_note
write_note-Rewrites id external_id message true now rows db before =
    Rewrites.rewrite _ (λ x. refl) (λ x h. h) before
write_note-Rewrites id external_id message false now rows db before = before

pub on_signed-Rewrites :
    (id external_id now : Text) (db : PayDb)
    → Rewrites id db.payments (on_signed id external_id now db).payments
unfolding on_signed
on_signed-Rewrites id external_id now db = Rewrites.rewrite _ (λ x. refl) (λ x h. h) Rewrites.done

-- The end of a send rewrites the row of its own payment and no other.
pub settle-Rewrites :
    (c : Claimed) (outcome : SendOutcome) (recording : Recording) (new_id now : Text) (db : PayDb)
    → Rewrites c.row.id db.payments (settle c outcome recording new_id now db).1.payments
unfolding settle record_sent status_eq
settle-Rewrites c (SendOutcome.ambiguous external_id message) recording new_id now db =
    Rewrites.rewrite _ (λ x. refl) (λ x h. h) Rewrites.done
settle-Rewrites c (SendOutcome.refused message) recording new_id now db =
    Rewrites.rewrite _ (λ x. refl) (λ x h. refl) Rewrites.done
settle-Rewrites c (SendOutcome.sent external_id total_out) Recording.recorded new_id now db =
    Rewrites.rewrite (set_broadcast external_id now) (λ x. refl) (λ x h. refl) Rewrites.done
settle-Rewrites c (SendOutcome.sent external_id total_out) (Recording.status_write_threw m w) new_id
      now db =
    write_note-Rewrites c.row.id external_id m w now db.payments db Rewrites.done
settle-Rewrites c (SendOutcome.sent external_id total_out) (Recording.ledger_write_threw m w) new_id
      now db =
    write_note-Rewrites c.row.id external_id m w now db.payments
      (set_where c.row.id (set_broadcast external_id now) db)
      (set_where-Rewrites c.row.id (set_broadcast external_id now) db.payments db (λ x. refl)
        (λ x h. refl) Rewrites.done)

insert_payment-eq-ok :
    (p : Payment) (db db' : PayDb)
    → insert_payment p db ≡ ok db'
    → db' ≡ record db { payments = db.payments ++ p ∷ [] }
unfolding insert_payment
insert_payment-eq-ok p db db' h = ground arith

pub persist_quote-Statement :
    (bind : Option (PaymentQuoteDraft → Callback)) (draft : PaymentQuoteDraft) (db db' : PayDb)
    → persist_quote bind draft db ≡ ok db'
    → Statement db.payments db'.payments
unfolding persist_quote
persist_quote-Statement bind draft db db' h =
    let (next, inserted, h1) = bind-eq-ok (insert_payment draft.payment db) _ h in
    let (u, bound, h2) = bind-eq-ok (bind_draft bind draft) _ h1 in
    let same : next ≡ db' = cc h2 in
    subst (λ (d : PayDb). Statement db.payments d.payments)
      (sym (insert_payment-eq-ok draft.payment db next inserted) ∙ same)
      (Statement.insert draft.payment)

module _ (engine : Engine) (runtime : ConfirmRuntime) (id : Text) (db : PayDb) where
  pub Commits-Statement :
      (r : ClaimResult × PayDb)
      → Commits engine runtime id db r
      → Statement db.payments r.1.payments
  unfolding status_eq
  Commits-Statement _ (Commits.refused s) = Statement.nothing
  Commits-Statement _ (Commits.lapsed row at) =
      Statement.swap row (set_expired at) (λ x. (refl, refl))
  Commits-Statement _ (Commits.won c found quoted bound fresh same asserted) =
      Statement.swap c.row (set_confirmed runtime.now) (λ x. (refl, refl))

-- The payments whose sender was called are spent and called once; those in flight are confirmed,
-- and no two claims in flight are of one payment.
pub record IsSound (w : World) : Type 0 where
  pub in_flight : All (λ c. HasStatus c.row.id PaymentStatus.confirmed w.db.payments) w.pending
  pub apart : AllPairs (λ c d. c.row.id ≢ d.row.id) w.pending
  pub spent : All (λ id. IsSpent id w.db.payments) w.sends
  pub once : AllPairs (λ a b. a ≢ b) w.sends

pub confirmed≢quoted : PaymentStatus.confirmed ≢ PaymentStatus.quoted
confirmed≢quoted e = cc

-- A statement that is no rewrite keeps the invariant.
pub IsSound-Statement :
    (w : World) (db : PayDb)
    → Statement w.db.payments db.payments
    → IsSound w
    → IsSound (record w { db = db })
IsSound-Statement w db st h = record {
  in_flight =
      All-implies _ _ w.pending
        (λ c.
          Statement-HasStatus w.db.payments db.payments c.row.id PaymentStatus.confirmed
            confirmed≢quoted st)
        h.in_flight;
  apart = h.apart;
  spent = All-implies _ _ w.sends (λ id. Statement-IsSpent w.db.payments db.payments id st) h.spent;
  once = h.once;
}
