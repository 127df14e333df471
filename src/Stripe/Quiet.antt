-- ===== src/Stripe/Quiet.antt =====
-- The steps of sovereign/src/processors/stripe-checkout.ts that report no operation paid: all but a
-- webhook's.
use cashloom.Prelude.{
  ◌≡◌, ◌≢◌, ◌⊎◌, refl, sym, ◌∙◌, ap, subst, Bool, ◌||◌, inl, inr, Option, none, some, List, [], ◌∷◌,
  Text, text_eq, text_eq_iff, any, updated, find-append, find-update, find-holds, Bool-cases,
  Option-cases, Result-cases, ok, bind-eq-ok, ok-injective, arith,
}
use cashloom.Stripe.{
  StripeCheckoutStatus, submitted, submission_unknown, provider_reported_paid, CheckoutRow,
  StripeDb, PrepareStripeCheckout, StripeDirectCheckoutResponse, StripeHost,
}
use cashloom.Stripe.Checkout.{
  status_eq, operation_of, operation_for_intent, insert_operation, same_request, reserve,
  validate_response, committed_row, validate_input, account_for_checkout, validate_return_base_url,
}
use cashloom.Stripe.Answer.{
  when_submitting, set_operation, set_unknown, set_submitted, mark_submission_unknown,
  identity_conflict, index_conflict, persist_response, settle_response, start_checkout,
}
use cashloom.Stripe.Judge.{agrees}

pub some-injective {ℓ} : {A : Type ℓ} {x y : A} → some x ≡ some y → x ≡ y
some-injective e = cc

-- A step that makes no operation paid.
abbrev pub IsQuiet : StripeDb → StripeDb → Type 0
IsQuiet db db' =
    (id : Text) (r q : CheckoutRow)
    → operation_of id db.operations ≡ some r
    → operation_of id db'.operations ≡ some q
    → q.status ≡ provider_reported_paid
    → r.status ≡ provider_reported_paid

pub set_operation-found :
    (id other : Text) (f : CheckoutRow → CheckoutRow) (db : StripeDb) (r q : CheckoutRow)
    → ((x : CheckoutRow) → (f x).id ≡ x.id)
    → operation_of id db.operations ≡ some r
    → operation_of id (set_operation other f db).operations ≡ some q
    → ((r.id ≡ other) × (f r ≡ q)) ⊎ (r ≡ q)
unfolding operation_of set_operation
set_operation-found id other f db r q same found after =
    let moved =
      find-update (λ (x : CheckoutRow). text_eq x.id id) (λ (x : CheckoutRow). text_eq x.id other) f
        (λ x _. ap (λ t. text_eq t id) (same x)) db.operations
      ∙ rw found refl in
    let equal : updated (λ (x : CheckoutRow). text_eq x.id other) f r ≡ q =
      some-injective (sym moved ∙ after) in
    elim (Bool-cases (text_eq r.id other)) [
      | inl hit ↦ inl ((text_eq_iff r.id other).0 hit, rw hit at equal)
      | inr miss ↦ inr (rw miss at equal)
    ]

set_operation-IsQuiet :
    (other : Text) (f : CheckoutRow → CheckoutRow) (db : StripeDb)
    → ((x : CheckoutRow) → (f x).id ≡ x.id)
    → ((x : CheckoutRow)
        → (f x).status ≡ provider_reported_paid
        → x.status ≡ provider_reported_paid)
    → IsQuiet db (set_operation other f db)
set_operation-IsQuiet other f db same quiet id r q found after paid =
    elim (set_operation-found id other f db r q same found after) [
      | inl (_, e) ↦ quiet r (ap (λ (x : CheckoutRow). x.status) e ∙ paid)
      | inr e ↦ ap (λ (x : CheckoutRow). x.status) e ∙ paid
    ]

when_submitting-quiet :
    (next s : StripeCheckoutStatus)
    → next ≢ provider_reported_paid
    → when_submitting next s ≡ provider_reported_paid
    → s ≡ provider_reported_paid
unfolding when_submitting
when_submitting-quiet next s ne h =
    elim (Bool-cases (status_eq s StripeCheckoutStatus.submitting)) [
      | inl e ↦ absurd (ne (rw e at h))
      | inr e ↦ rw e at h
    ]

mark_unknown-IsQuiet :
    (other code now : Text) (db : StripeDb) → IsQuiet db (mark_submission_unknown other code now db)
unfolding mark_submission_unknown
mark_unknown-IsQuiet other code now db =
    set_operation-IsQuiet other (set_unknown code now) db (λ x. refl)
      (λ x. when_submitting-quiet submission_unknown x.status (λ e. cc))

-- The answer of the transport, or its failure, makes no operation paid.
persist_response-IsQuiet :
    (other session : Text) (payment_intent : Option Text) (url now : Text) (db : StripeDb)
    → IsQuiet db (persist_response other session payment_intent url now db)
unfolding persist_response
persist_response-IsQuiet other session payment_intent url now db =
    elim (Option-cases (operation_of other db.operations)) [
      | inl missing ↦ rw (persist_response, missing) (mark_unknown-IsQuiet other _ now db)
      | inr (r, found) ↦ elim (Bool-cases (identity_conflict r session payment_intent)) [
        | inl conflict ↦
            rw (persist_response, found, conflict) (mark_unknown-IsQuiet other _ now db)
        | inr agrees ↦
            elim (Bool-cases
              (index_conflict (set_submitted session payment_intent url now r) db.operations)) [
                | inl taken ↦
                    rw (persist_response, found, agrees, taken)
                      (mark_unknown-IsQuiet other _ now db)
                | inr free ↦
                    rw (persist_response, found, agrees, free)
                      (set_operation-IsQuiet other (set_submitted session payment_intent url now) db
                        (λ x. refl) (λ x. when_submitting-quiet submitted x.status (λ e. cc)))
              ]
      ]
    ]

pub unmoved :
    (id : Text) (db : StripeDb) (r q : CheckoutRow)
    → operation_of id db.operations ≡ some r
    → operation_of id db.operations ≡ some q
    → r.status ≡ q.status
unmoved id db r q found after =
    ap (λ (x : CheckoutRow). x.status) (some-injective (sym found ∙ after))

pub stays : (db : StripeDb) → IsQuiet db db
stays db id r q found after paid = unmoved id db r q found after ∙ paid

pub operation_of-id :
    (id : Text) (rows : List CheckoutRow) (r : CheckoutRow)
    → operation_of id rows ≡ some r
    → r.id ≡ id
unfolding operation_of
operation_of-id id rows r found =
    (text_eq_iff r.id id).0 (find-holds (λ (x : CheckoutRow). text_eq x.id id) rows r found)

insert_operation-keeps :
    (row : CheckoutRow) (db db' : StripeDb) (id : Text) (r : CheckoutRow)
    → insert_operation row db ≡ ok db'
    → operation_of id db.operations ≡ some r
    → operation_of id db'.operations ≡ some r
unfolding insert_operation operation_of
insert_operation-keeps row db db' id r h found =
    elim (Bool-cases (
      any
        (λ (x : CheckoutRow).
          text_eq x.id row.id
          || text_eq x.intent_id row.intent_id
          || text_eq x.idempotency_key row.idempotency_key)
        db.operations)) [
          | inl taken ↦ absurd (ground arith)
          | inr free ↦
              subst (λ (d : StripeDb). operation_of id d.operations ≡ some r)
                (ok-injective refl (rw free at h))
                (find-append (λ (x : CheckoutRow). text_eq x.id id) db.operations (row ∷ []) r
                  found)
        ]

insert_operation-IsQuiet :
    (row : CheckoutRow) (db db' : StripeDb) → insert_operation row db ≡ ok db' → IsQuiet db db'
unfolding operation_of
insert_operation-IsQuiet row db db' h id r q found after paid =
    ap (λ (x : CheckoutRow). x.status)
      (some-injective (sym (insert_operation-keeps row db db' id r h found) ∙ after))
    ∙ paid

reserve-IsQuiet :
    (row : CheckoutRow) (db : StripeDb) (out : CheckoutRow × Bool × StripeDb)
    → reserve row db ≡ ok out
    → IsQuiet db out.2
unfolding reserve
reserve-IsQuiet row db out h =
    elim (Option-cases (operation_for_intent row.intent_id db.operations)) [
      | inl new ↦
          (let (next, inserted, h1) =
              bind-eq-ok (insert_operation row db) _ (rw (reserve, new) at h) in
            subst (λ (x : CheckoutRow × Bool × StripeDb). IsQuiet db x.2) (ok-injective refl h1)
              (insert_operation-IsQuiet row db next inserted))
      | inr (held, found) ↦ elim (Bool-cases (same_request held row)) [
        | inl same ↦
            subst (λ (x : CheckoutRow × Bool × StripeDb). IsQuiet db x.2)
              (ok-injective refl (rw (reserve, found, same) at h)) (stays db)
        | inr other ↦ absurd (let e = (rw (reserve, found, other) at h) in ground arith)
      ]
    ]

module _ (host : StripeHost) where
  pub start_checkout-IsQuiet :
      (input : PrepareStripeCheckout) (base_url operation_id now : Text) (db : StripeDb)
      (out : CheckoutRow × Bool × StripeDb)
      → start_checkout host input base_url operation_id now db ≡ ok out
      → IsQuiet db out.2
  unfolding start_checkout
  start_checkout-IsQuiet input base_url operation_id now db out h =
      let (_, _, h1) = bind-eq-ok (validate_input host input) _ h in
      let (account, _, h2) = bind-eq-ok (account_for_checkout input.account_id db) _ h1 in
      let (return_base_url, _, h3) = bind-eq-ok (validate_return_base_url host base_url) _ h2 in
      reserve-IsQuiet
        (committed_row host input account.0 account.1 return_base_url operation_id now) db out h3

  pub settle_response-IsQuiet :
      (row : CheckoutRow) (input : PrepareStripeCheckout)
      (response : Option StripeDirectCheckoutResponse) (now : Text) (db : StripeDb)
      → IsQuiet db (settle_response host row input response now db)
  unfolding settle_response
  settle_response-IsQuiet row input none now db = mark_unknown-IsQuiet row.id _ now db
  settle_response-IsQuiet row input (some response) now db =
      elim (Result-cases (validate_response host response input row.currency)) [
        | inl (url, valid) ↦
            rw (settle_response, valid)
              (persist_response-IsQuiet row.id response.id response.payment_intent url now db)
        | inr (e, invalid) ↦ rw (settle_response, invalid) (mark_unknown-IsQuiet row.id _ now db)
      ]
