-- ===== src/BitcoinPayLink/Told.antt =====
-- What `resultFromPayment` of sovereign/src/pay/bitcoin-pay-link.ts tells of the rows that
-- sovereign/src/pay.ts leaves behind.
use cashloom.Prelude.{◌≡◌, refl, Bool, true, false, none, some, List, [], ◌∷◌, Text}
use cashloom.Payments.{Payment, PaymentStatus, status_eq}
use cashloom.Pay.{PayDb}
use cashloom.Pay.Claim.{Claimed, payment_of}
use cashloom.Pay.Settle.{
  SendOutcome, Recording, set_where, on_signed, on_signed_all, set_error, set_failed, set_broadcast,
  write_note, note, record_sent, settle,
}
use cashloom.Pay.Status.{payment_of-id}
use cashloom.Pay.Outcomes.{set_where-found}
use cashloom.BitcoinPayLink.{ExecutionStatus}
use cashloom.BitcoinPayLink.Asserts.{is_non_null}
use cashloom.BitcoinPayLink.Stored.{execution_status, result_from_payment}

-- What the payer is to be told of a send that signed these transactions and ended like this: a
-- failure only if nothing was signed, and a broadcast only if the row says so.
pub told_status : List Text → SendOutcome → Recording → ExecutionStatus
told_status signed (SendOutcome.ambiguous external_id message) recording =
    ExecutionStatus.broadcast_unknown
told_status [] (SendOutcome.refused message) recording = ExecutionStatus.failed
told_status (t ∷ ts) (SendOutcome.refused message) recording = ExecutionStatus.broadcast_unknown
told_status signed (SendOutcome.sent external_id total_out) (Recording.status_write_threw m w) =
    ExecutionStatus.broadcast_unknown
told_status signed (SendOutcome.sent external_id total_out) recording = ExecutionStatus.broadcast

-- The payment's row stands in the table, with this status, and with a transaction or without.
abbrev HasRow : Text → PaymentStatus → Bool → PayDb → Type 0
HasRow id s signed db =
    (p : Payment) × (payment_of id db.payments ≡ some p)
    × (p.status ≡ s)
    × (is_non_null p.tx_hash ≡ signed)

set_where-HasRow :
    (id : Text) (f : Payment → Payment) (s t : PaymentStatus) (a b : Bool) (db : PayDb)
    → ((x : Payment) → (f x).id ≡ x.id)
    → ((x : Payment) → x.status ≡ s → (f x).status ≡ t)
    → ((x : Payment) → is_non_null x.tx_hash ≡ a → is_non_null (f x).tx_hash ≡ b)
    → HasRow id s a db
    → HasRow id t b (set_where id f db)
set_where-HasRow id f s t a b db same becomes signs (p, found, e, signed) =
    (f p, set_where-found id f db p same found, becomes p e, signs p signed)

write_note-HasRow :
    (id external_id message : Text) (written : Bool) (now : Text) (s : PaymentStatus) (a : Bool)
    (db : PayDb)
    → HasRow id s a db
    → HasRow id s a (write_note id external_id message written now db)
unfolding write_note
write_note-HasRow id external_id message true now s a db h =
    set_where-HasRow id (set_error (note external_id message) now) s s a a db (λ x. refl) (λ x e. e)
      (λ x e. e) h
write_note-HasRow id external_id message false now s a db h = h

abbrev is_signed : List Text → Bool
is_signed [] = false
is_signed (t ∷ ts) = true

on_signed_all-HasRow :
    (id : Text) (ts : List Text) (now : Text) (s : PaymentStatus) (db : PayDb)
    → HasRow id s true db
    → HasRow id s true (on_signed_all id ts now db)
unfolding on_signed_all on_signed
on_signed_all-HasRow id [] now s db h = h
on_signed_all-HasRow id (t ∷ ts) now s db h =
    on_signed_all-HasRow id ts now s (on_signed id t now db)
      (set_where-HasRow id _ s s true true db (λ x. refl) (λ x e. e) (λ x e. refl) h)

first_signed-HasRow :
    (id : Text) (ts : List Text) (now : Text) (s : PaymentStatus) (db : PayDb)
    → HasRow id s false db
    → HasRow id s (is_signed ts) (on_signed_all id ts now db)
unfolding on_signed_all on_signed
first_signed-HasRow id [] now s db h = h
first_signed-HasRow id (t ∷ ts) now s db h =
    on_signed_all-HasRow id ts now s (on_signed id t now db)
      (set_where-HasRow id _ s s false true db (λ x. refl) (λ x e. e) (λ x e. refl) h)

-- The row that the end of the send leaves: its status, and whether it has a transaction.
abbrev Left : List Text → SendOutcome → Recording → PaymentStatus × Bool
Left ts (SendOutcome.ambiguous external_id message) recording =
    (PaymentStatus.confirmed, is_signed ts)
Left ts (SendOutcome.refused message) recording = (PaymentStatus.failed, is_signed ts)
Left ts (SendOutcome.sent external_id total_out) (Recording.status_write_threw m w) =
    (PaymentStatus.confirmed, is_signed ts)
Left ts (SendOutcome.sent external_id total_out) recording = (PaymentStatus.broadcast, true)

settle-HasRow :
    (c : Claimed) (ts : List Text) (outcome : SendOutcome) (recording : Recording)
    (new_id now : Text) (db : PayDb)
    → HasRow c.row.id PaymentStatus.confirmed (is_signed ts) db
    → HasRow c.row.id
        (Left ts outcome recording).0
        (Left ts outcome recording).1
        (settle c outcome recording new_id now db).1
unfolding settle record_sent
settle-HasRow c ts (SendOutcome.ambiguous external_id message) recording new_id now db h =
    set_where-HasRow c.row.id (set_error message now) _ _ _ _ db (λ x. refl) (λ x e. e) (λ x e. e) h
settle-HasRow c ts (SendOutcome.refused message) recording new_id now db h =
    set_where-HasRow c.row.id (set_failed message now) _ _ _ _ db (λ x. refl) (λ x e. refl)
      (λ x e. e) h
settle-HasRow c ts (SendOutcome.sent external_id total_out) Recording.recorded new_id now db h =
    set_where-HasRow c.row.id (set_broadcast external_id now) _ _ _ _ db (λ x. refl) (λ x e. refl)
      (λ x e. refl) h
settle-HasRow c ts (SendOutcome.sent external_id total_out) (Recording.status_write_threw m w)
      new_id now db h =
    write_note-HasRow c.row.id external_id m w now _ _ db h
settle-HasRow c ts (SendOutcome.sent external_id total_out) (Recording.ledger_write_threw m w)
      new_id now db h =
    write_note-HasRow c.row.id external_id m w now _ _ _ (
      set_where-HasRow c.row.id (set_broadcast external_id now) _ PaymentStatus.broadcast _ true db
        (λ x. refl) (λ x e. refl) (λ x e. refl) h)

row_told :
    (ts : List Text) (outcome : SendOutcome) (recording : Recording) (p : Payment)
    → p.status ≡ (Left ts outcome recording).0
    → is_non_null p.tx_hash ≡ (Left ts outcome recording).1
    → execution_status p ≡ told_status ts outcome recording
unfolding execution_status status_eq told_status
row_told ts (SendOutcome.ambiguous external_id message) recording p s t = rw s refl
row_told [] (SendOutcome.refused message) recording p s t = rw (s, t) refl
row_told (x ∷ ts) (SendOutcome.refused message) recording p s t = rw (s, t) refl
row_told ts (SendOutcome.sent external_id total_out) Recording.recorded p s t = rw s refl
row_told ts (SendOutcome.sent external_id total_out) (Recording.status_write_threw m w) p s t =
    rw s refl
row_told ts (SendOutcome.sent external_id total_out) (Recording.ledger_write_threw m w) p s t =
    rw s refl

-- After the one send of a claimed payment, whose row is confirmed and has no transaction yet, the row
-- is still there, and the result that is read from it tells the table above: a failure exactly when
-- the sender refused before it signed anything, a broadcast exactly when the row was marked so, and
-- otherwise an unknown outcome.
pub settle-result_from_payment :
    (c : Claimed) (ts : List Text) (outcome : SendOutcome) (recording : Recording)
    (new_id now review_id : Text) (db : PayDb) (p : Payment)
    → payment_of c.row.id db.payments ≡ some p
    → p.status ≡ PaymentStatus.confirmed
    → p.tx_hash ≡ none
    → (q : Payment) × (payment_of c.row.id
          (settle c outcome recording new_id now (on_signed_all c.row.id ts now db)).1.payments
        ≡ some q)
      × ((result_from_payment q review_id).payment_id ≡ c.row.id)
      × ((result_from_payment q review_id).status ≡ told_status ts outcome recording)
unfolding result_from_payment
settle-result_from_payment c ts outcome recording new_id now review_id db p found confirmed
      unsigned =
    let (q, left, s, t) =
      settle-HasRow c ts outcome recording new_id now (on_signed_all c.row.id ts now db) (
        first_signed-HasRow c.row.id ts now PaymentStatus.confirmed db
          (p, found, confirmed, rw unsigned refl)) in
    (q, left, payment_of-id c.row.id _ q left, row_told ts outcome recording q s t)
