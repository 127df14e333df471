-- ===== src/Stripe/Steps.antt =====
-- What one statement of sovereign/src/processors/stripe-checkout.ts does to the operations and to the
-- inbox.
use cashloom.Prelude.{
  ◌≡◌, refl, subst, Bool, ◌||◌, inl, inr, Option, none, some, Text, text_eq, any, any-or,
  Bool-cases, Option-cases, Result-cases, ok, bind-eq-ok, ok-injective, arith,
}
use cashloom.Stripe.{
  CheckoutRow, Disposition, InboxRow, StripeDb, PrepareStripeCheckout, StripeDirectCheckoutResponse,
  StripeHost,
}
use cashloom.Stripe.Checkout.{
  operation_of, operation_for_intent, insert_operation, same_request, reserve, validate_response,
  validate_input, account_for_checkout, validate_return_base_url, committed_row,
}
use cashloom.Stripe.Answer.{
  set_operation, set_unknown, set_submitted, mark_submission_unknown, identity_conflict,
  index_conflict, persist_response, settle_response, start_checkout,
}
use cashloom.Stripe.Webhook.{apply_as, existing_event}
use cashloom.Stripe.Moves.{Statement, IsLater, set_unknown-IsLater, set_submitted-IsLater}

-- An inbox that has only grown, and operations that a statement has moved.
pub record IsStep (db db' : StripeDb) : Type 0 where
  pub operations : Statement db.operations db'.operations
  pub inbox :
      (id : Text) (r : InboxRow)
      → existing_event id db.inbox ≡ some r
      → existing_event id db'.inbox ≡ some r

pub IsStep-refl : (db : StripeDb) → IsStep db db
IsStep-refl db = record { operations = Statement.nothing; inbox = λ id r e. e }

set_operation-IsStep :
    (id : Text) (f : CheckoutRow → CheckoutRow) (db : StripeDb)
    → ((r : CheckoutRow) → IsLater r (f r))
    → IsStep db (set_operation id f db)
unfolding set_operation
set_operation-IsStep id f db later = record {
  operations = Statement.change id f later;
  inbox = λ _ r e. e;
}

mark_unknown-IsStep :
    (id code now : Text) (db : StripeDb) → IsStep db (mark_submission_unknown id code now db)
unfolding mark_submission_unknown
mark_unknown-IsStep id code now db =
    set_operation-IsStep id (set_unknown code now) db (set_unknown-IsLater code now)

insert_operation-IsStep :
    (row : CheckoutRow) (db db' : StripeDb) → insert_operation row db ≡ ok db' → IsStep db db'
unfolding insert_operation
insert_operation-IsStep row db db' h =
    elim (Bool-cases (
      any
        (λ (r : CheckoutRow).
          text_eq r.id row.id
          || text_eq r.intent_id row.intent_id
          || text_eq r.idempotency_key row.idempotency_key)
        db.operations)) [
          | inl taken ↦ absurd (ground arith)
          | inr free ↦
              (let known =
                  any-or (λ (r : CheckoutRow). text_eq r.id row.id)
                    (λ (r : CheckoutRow).
                      text_eq r.intent_id row.intent_id
                      || text_eq r.idempotency_key row.idempotency_key)
                    db.operations in
                subst (IsStep db) (ok-injective refl (rw free at h)) (record {
                  operations = Statement.insert row (ground arith);
                  inbox = λ id r e. e;
                }))
        ]

reserve-IsStep :
    (row : CheckoutRow) (db : StripeDb) (out : CheckoutRow × Bool × StripeDb)
    → reserve row db ≡ ok out
    → IsStep db out.2
unfolding reserve
reserve-IsStep row db out h =
    elim (Option-cases (operation_for_intent row.intent_id db.operations)) [
      | inl new ↦
          (let (next, inserted, h1) =
              bind-eq-ok (insert_operation row db) _ (rw (reserve, new) at h) in
            subst (λ (x : CheckoutRow × Bool × StripeDb). IsStep db x.2) (ok-injective refl h1)
              (insert_operation-IsStep row db next inserted))
      | inr (held, found) ↦ elim (Bool-cases (same_request held row)) [
        | inl same ↦
            subst (λ (x : CheckoutRow × Bool × StripeDb). IsStep db x.2)
              (ok-injective refl (rw (reserve, found, same) at h)) (IsStep-refl db)
        | inr other ↦ absurd (let e = (rw (reserve, found, other) at h) in ground arith)
      ]
    ]

persist_response-IsStep :
    (id session : Text) (payment_intent : Option Text) (url now : Text) (db : StripeDb)
    → IsStep db (persist_response id session payment_intent url now db)
unfolding persist_response
persist_response-IsStep id session payment_intent url now db =
    elim (Option-cases (operation_of id db.operations)) [
      | inl missing ↦ rw (persist_response, missing) (mark_unknown-IsStep id _ now db)
      | inr (r, found) ↦ elim (Bool-cases (identity_conflict r session payment_intent)) [
        | inl conflict ↦ rw (persist_response, found, conflict) (mark_unknown-IsStep id _ now db)
        | inr agrees ↦
            elim (Bool-cases
              (index_conflict (set_submitted session payment_intent url now r) db.operations)) [
                | inl taken ↦
                    rw (persist_response, found, agrees, taken) (mark_unknown-IsStep id _ now db)
                | inr free ↦
                    rw (persist_response, found, agrees, free)
                      (set_operation-IsStep id (set_submitted session payment_intent url now) db
                        (set_submitted-IsLater session payment_intent url now))
              ]
      ]
    ]

pub apply_as-IsStep :
    (d : Disposition) (operation : Option CheckoutRow) (change : CheckoutRow → CheckoutRow)
    (db : StripeDb)
    → ((r : CheckoutRow) → IsLater r (change r))
    → IsStep db (apply_as d operation change db)
unfolding apply_as
apply_as-IsStep Disposition.applied (some operation) change db later =
    set_operation-IsStep operation.id change db later
apply_as-IsStep Disposition.applied none change db later = IsStep-refl db
apply_as-IsStep Disposition.ignored operation change db later = IsStep-refl db
apply_as-IsStep Disposition.refused operation change db later = IsStep-refl db
apply_as-IsStep Disposition.unmatched operation change db later = IsStep-refl db

module _ (host : StripeHost) where
  pub settle_response-IsStep :
      (row : CheckoutRow) (input : PrepareStripeCheckout)
      (response : Option StripeDirectCheckoutResponse) (now : Text) (db : StripeDb)
      → IsStep db (settle_response host row input response now db)
  unfolding settle_response
  settle_response-IsStep row input none now db = mark_unknown-IsStep row.id _ now db
  settle_response-IsStep row input (some response) now db =
      elim (Result-cases (validate_response host response input row.currency)) [
        | inl (url, valid) ↦
            rw (settle_response, valid)
              (persist_response-IsStep row.id response.id response.payment_intent url now db)
        | inr (e, invalid) ↦ rw (settle_response, invalid) (mark_unknown-IsStep row.id _ now db)
      ]

  pub start_checkout-IsStep :
      (input : PrepareStripeCheckout) (base_url operation_id now : Text) (db : StripeDb)
      (out : CheckoutRow × Bool × StripeDb)
      → start_checkout host input base_url operation_id now db ≡ ok out
      → IsStep db out.2
  unfolding start_checkout
  start_checkout-IsStep input base_url operation_id now db out h =
      let (_, _, h1) = bind-eq-ok (validate_input host input) _ h in
      let (account, _, h2) = bind-eq-ok (account_for_checkout input.account_id db) _ h1 in
      let (return_base_url, _, h3) = bind-eq-ok (validate_return_base_url host base_url) _ h2 in
      reserve-IsStep (committed_row host input account.0 account.1 return_base_url operation_id now)
        db out h3
