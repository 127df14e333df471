-- ===== src/Pay/Outcomes.antt =====
-- The theorems on the rite of sovereign/src/pay.ts as a whole.

use cashloom.Prelude.{
  ℕ, ◌≤◌, ◌≡◌, ◌≢◌, refl, sym, ◌∙◌, ap, subst, Bool, true, false, ◌⊎◌, inl, inr, Option, none, some,
  List, [], ◌∷◌, Text, text_eq, Bool-cases, text_eq_iff, text_eq_refl, Result, ok, err, count, All,
  AllPairs, any, arith,
}
use cashloom.Payments.{Payment, PaymentStatus}
use cashloom.Pay.{PayDb, PayError, Engine}
use cashloom.Pay.Claim.{Claimed, ClaimResult, payment_of, claim}
use cashloom.Pay.Settle.{
  SendOutcome, Recording, settle, record_sent, set_where, set_broadcast, write_note,
}
use cashloom.Pay.Recorded.{IsRecorded, ledger_row-IsRecorded}
use cashloom.Pay.Status.{HasStatus, payment_of-update, payment_of-id}
use cashloom.Pay.Claims.{claim-Commits}
use cashloom.Pay.World.{World, Event, take_out, keep, dispatch, sign_at, end_at, step, run}
use cashloom.Pay.Rite.{
  Rewrites-other, settle-Rewrites, persist_quote-Statement, Commits-Statement, Statement,
  Statement-HasStatus, IsSound,
}
use cashloom.Pay.Once.{take_out-All, on_signed-HasStatus, run-IsSound, step-IsSound}

-- A node that has called no sender yet.
abbrev pub start : PayDb → World
start db = record { db = db; pending = []; sends = [] }

start-IsSound : (db : PayDb) → IsSound (start db)
start-IsSound db = record { in_flight = tt; apart = tt; spent = tt; once = tt }

count_absent :
    (id : Text) (ts : List Text) → All (λ t. id ≢ t) ts → count (λ t. text_eq t id) ts ≡ 0
unfolding count
count_absent id [] h = refl
count_absent id (t ∷ ts) (ne, h) = ground (arith, text_eq_iff t id, count_absent id ts h)

count_apart :
    (id : Text) (ts : List Text) → AllPairs (λ a b. a ≢ b) ts → count (λ t. text_eq t id) ts ≤ 1
unfolding count
count_apart id [] h = omega arith
count_apart id (t ∷ ts) (far, h) = elim (Bool-cases (text_eq t id)) [
  | inl same ↦ rw same (
      omega (
        arith,
        count_absent id ts (subst (λ x. All (λ t. x ≢ t) ts) ((text_eq_iff t id).0 same) far),
      ))
  | inr other ↦ rw other (omega (arith, count_apart id ts h))
]

module _ (engine : Engine) where
  -- Whatever calls are in flight, however their steps interleave and whatever each send reports, no
  -- payment is handed to its sender a second time.
  pub never_sent_twice :
      (es : List Event) (db : PayDb) (id : Text)
      → count (λ t. text_eq t id) (run engine es (start db)).sends ≤ 1
  never_sent_twice es db id =
      count_apart id _ (run-IsSound engine es (start db) (start-IsSound db)).once

  module _ (id : Text) (s : PaymentStatus) (settled : s ≢ PaymentStatus.quoted)
      (over : s ≢ PaymentStatus.confirmed) where
    end-HasStatus :
        (w : World) (place : ℕ) (taken : Option (Claimed × List Claimed)) (outcome : SendOutcome)
        (recording : Recording) (new_id now : Text)
        → take_out place w.pending ≡ taken
        → IsSound w
        → HasStatus id s w.db.payments
        → HasStatus id s (end_at w taken outcome recording new_id now).db.payments
    end-HasStatus w place none outcome recording new_id now e h k = k
    end-HasStatus w place (some (c, rest)) outcome recording new_id now e h (p, found, status) =
        let ((q, there, confirmed), _) =
          take_out-All (λ (d : Claimed). HasStatus d.row.id PaymentStatus.confirmed w.db.payments)
            place w.pending c rest e h.in_flight in
        Rewrites-other c.row.id id s w.db.payments _
          (λ same.
            let row : p ≡ q = cc (found, there, same) in
            over (sym status ∙ ap (λ (r : Payment). r.status) row ∙ confirmed))
          (settle-Rewrites c outcome recording new_id now w.db) (p, found, status)

    sign-HasStatus :
        (w : World) (taken : Option (Claimed × List Claimed)) (external_id now : Text)
        → HasStatus id s w.db.payments
        → HasStatus id s (sign_at w taken external_id now).db.payments
    sign-HasStatus w none external_id now h = h
    sign-HasStatus w (some (c, rest)) external_id now h =
        on_signed-HasStatus c.row.id external_id now w.db id s h

    keep-HasStatus :
        (w : World) (r : Result PayError PayDb)
        → ((db : PayDb) → r ≡ ok db → Statement w.db.payments db.payments)
        → HasStatus id s w.db.payments
        → HasStatus id s (keep w r).db.payments
    keep-HasStatus w (ok db) f h =
        Statement-HasStatus w.db.payments db.payments id s settled (f db refl) h
    keep-HasStatus w (err e) f h = h

    dispatch-HasStatus :
        (w : World) (r : Result PayError (ClaimResult × PayDb))
        → ((a : ClaimResult × PayDb) → r ≡ ok a → Statement w.db.payments a.1.payments)
        → HasStatus id s w.db.payments
        → HasStatus id s (dispatch w r).db.payments
    dispatch-HasStatus w (err e) f h = h
    dispatch-HasStatus w (ok (ClaimResult.unavailable x, db)) f h =
        Statement-HasStatus w.db.payments db.payments id s settled (f _ refl) h
    dispatch-HasStatus w (ok (ClaimResult.expired, db)) f h =
        Statement-HasStatus w.db.payments db.payments id s settled (f _ refl) h
    dispatch-HasStatus w (ok (ClaimResult.claimed c, db)) f h =
        Statement-HasStatus w.db.payments db.payments id s settled (f _ refl) h

    step-HasStatus :
        (e : Event) (w : World)
        → IsSound w
        → HasStatus id s w.db.payments
        → HasStatus id s (step engine e w).db.payments
    unfolding step
    step-HasStatus (Event.store opts runtime account sender quote created_at expires_at) w h k =
        keep-HasStatus w _ (persist_quote-Statement runtime.bind _ w.db) k
    step-HasStatus (Event.confirm id' runtime) w h k =
        dispatch-HasStatus w (claim engine id' runtime w.db)
          (λ a e.
            Commits-Statement engine runtime id' w.db a (claim-Commits engine id' runtime w.db a e))
          k
    step-HasStatus (Event.sign place external_id now) w h k =
        sign-HasStatus w (take_out place w.pending) external_id now k
    step-HasStatus (Event.end place outcome recording new_id now) w h k =
        end-HasStatus w place (take_out place w.pending) outcome recording new_id now refl h k
    step-HasStatus (Event.elsewhere accounts bindings) w h k = k

    run-HasStatus :
        (es : List Event) (w : World)
        → IsSound w
        → HasStatus id s w.db.payments
        → HasStatus id s (run engine es w).db.payments
    unfolding run
    run-HasStatus [] w h k = k
    run-HasStatus (e ∷ es) w h k =
        run-HasStatus es (step engine e w) (step-IsSound engine e w h) (step-HasStatus e w h k)

    -- An outcome is final: a payment that was broadcast or that failed stays so, whatever comes
    -- after, late ends of other sends included.
    pub outcome_final :
        (es fs : List Event) (db : PayDb)
        → HasStatus id s (run engine es (start db)).db.payments
        → HasStatus id s (run engine fs (run engine es (start db))).db.payments
    outcome_final es fs db =
        run-HasStatus fs (run engine es (start db))
          (run-IsSound engine es (start db) (start-IsSound db))

pub set_where-found :
    (id : Text) (f : Payment → Payment) (db : PayDb) (p : Payment)
    → ((x : Payment) → (f x).id ≡ x.id)
    → payment_of id db.payments ≡ some p
    → payment_of id (set_where id f db).payments ≡ some (f p)
unfolding set_where
set_where-found id f db p same found =
    payment_of-update (λ x. text_eq x.id id) f (λ x _. same x) id db.payments p found
    ∙ rw (payment_of-id id db.payments p found, text_eq_refl id)

set_where-HasStatus :
    (id : Text) (f : Payment → Payment) (s t : PaymentStatus) (db : PayDb)
    → ((x : Payment) → (f x).id ≡ x.id)
    → ((x : Payment) → x.status ≡ s → (f x).status ≡ t)
    → HasStatus id s db.payments
    → HasStatus id t (set_where id f db).payments
set_where-HasStatus id f s t db same becomes (p, found, e) =
    (f p, set_where-found id f db p same found, becomes p e)

write_note-HasStatus :
    (id external_id message : Text) (written : Bool) (now : Text) (s : PaymentStatus) (db : PayDb)
    → HasStatus id s db.payments
    → HasStatus id s (write_note id external_id message written now db).payments
unfolding write_note
write_note-HasStatus id external_id message true now s db h =
    set_where-HasStatus id _ s s db (λ x. refl) (λ x e. e) h
write_note-HasStatus id external_id message false now s db h = h

-- A broadcast that succeeded never reads "failed", whatever goes wrong in recording it: the result
-- and the row of a payment that was confirmed say "confirmed" or "broadcast".
pub sent_never_failed :
    (c : Claimed) (external_id : Text) (total_out : Option Text) (recording : Recording)
    (new_id now : Text) (db : PayDb)
    → HasStatus c.row.id PaymentStatus.confirmed db.payments
    → ((settle c (SendOutcome.sent external_id total_out) recording new_id now db).0.status
        ≢ PaymentStatus.failed)
      × (HasStatus c.row.id PaymentStatus.confirmed
            (settle c (SendOutcome.sent external_id total_out) recording new_id now db).1.payments
          ⊎ HasStatus c.row.id PaymentStatus.broadcast
              (settle c
                (SendOutcome.sent external_id total_out)
                recording
                new_id
                now
                db).1.payments)
unfolding settle record_sent
sent_never_failed c external_id total_out Recording.recorded new_id now db h = (
  λ e. cc,
  inr (
      set_where-HasStatus c.row.id (set_broadcast external_id now) PaymentStatus.confirmed
        PaymentStatus.broadcast db (λ x. refl) (λ x _. refl) h),
)
sent_never_failed c external_id total_out (Recording.status_write_threw m w) new_id now db h =
    (λ e. cc, inl (write_note-HasStatus c.row.id external_id m w now PaymentStatus.confirmed db h))
sent_never_failed c external_id total_out (Recording.ledger_write_threw m w) new_id now db h = (
  λ e. cc,
  inr (
      write_note-HasStatus c.row.id external_id m w now PaymentStatus.broadcast _ (
        set_where-HasStatus c.row.id (set_broadcast external_id now) PaymentStatus.confirmed
          PaymentStatus.broadcast db (λ x. refl) (λ x _. refl) h)),
)

set_where-transactions :
    (id : Text) (f : Payment → Payment) (db : PayDb)
    → (set_where id f db).transactions ≡ db.transactions
unfolding set_where
set_where-transactions id f db = refl

-- When the bookkeeping works, a payment that is there is told and stands as broadcast with its
-- transaction, otherwise as it was; and the ledger has a row of its account with the transaction's id,
-- an old one or a new one, which says that the exact total went out, or else the payment's amount, if
-- the new row's own id is not in use.
pub settle-recorded :
    (c : Claimed) (external_id : Text) (total_out : Option Text) (new_id now : Text) (db : PayDb)
    (p : Payment)
    → payment_of c.row.id db.payments ≡ some p
    → any (λ t. text_eq new_id t.id) db.transactions ≡ false
    → let done =
        settle c (SendOutcome.sent external_id total_out) Recording.recorded new_id now db in
      (done.0.status ≡ PaymentStatus.broadcast)
      × (done.0.tx_hash ≡ some external_id)
      × (payment_of c.row.id done.1.payments
          ≡ some (record p {
            status = PaymentStatus.broadcast;
            tx_hash = some external_id;
            updated_at = some now;
          }))
      × IsRecorded c external_id total_out new_id now db.transactions done.1.transactions
unfolding settle record_sent set_where
settle-recorded c external_id total_out new_id now db p found fresh = (
  refl,
  refl,
  set_where-found c.row.id (set_broadcast external_id now) db p (λ x. refl) found,
  ledger_row-IsRecorded c external_id total_out new_id now db.transactions fresh,
)
