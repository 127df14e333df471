-- ===== src/Stripe/Once.antt =====
-- Any sequence of the atomic steps of sovereign/src/processors/stripe-checkout.ts: calls that wait for
-- their answer, late answers and webhooks may come in any order.
use cashloom.Prelude.{
  ℕ, ◌≡◌, refl, sym, ◌∙◌, ap, subst, Bool, true, false, ◌||◌, inl, inr, Option, none, some, List,
  [], ◌∷◌, Text, text_eq, text_eq_refl, any, find-append_none, Bool-cases, Option-cases,
  Result-cases, Result, ok, err, bind-eq-ok, ok-injective, arith,
}
use cashloom.Stripe.{
  provider_reported_paid, CheckoutRow, InboxRow, StripeDb, PrepareStripeCheckout,
  StripeDirectCheckoutResponse, StripeHost, StripeError,
}
use cashloom.Stripe.Checkout.{
  operation_of, operation_for_intent, insert_operation, same_request, reserve, validate_input,
  account_for_checkout, validate_return_base_url, committed_row,
}
use cashloom.Stripe.Answer.{settle_response, start_checkout}
use cashloom.Stripe.Webhook.{
  StripeWebhookResult, WebhookInput, existing_event, persist_event, ingest_webhook,
}
use cashloom.Stripe.Steps.{IsStep, IsStep-refl, start_checkout-IsStep, settle_response-IsStep}
use cashloom.Stripe.Answered.{duplicate-IsAnswered, persist_event-IsAnswered, ingest-event}
use cashloom.Stripe.Moves.{
  IsKeyed, Statement-IsKeyed, IsLater, IsLater-refl, IsLater-trans, Statement-IsLater,
  Statement-intent, ◌⟶*◌, paid-final,
}

-- A call up to its egress, the arrival of an answer or its failure, and a webhook.
pub data Event : Type 0 where
  start : PrepareStripeCheckout → (base_url operation_id now : Text) → Event
  settle :
      CheckoutRow
      → PrepareStripeCheckout
      → Option StripeDirectCheckoutResponse
      → (now : Text) → Event
  webhook : WebhookInput → (tolerance now_ms : ℕ) → (now : Text) → Event

-- A step that throws leaves the database as it was.
abbrev pub started : StripeDb → Result StripeError (CheckoutRow × Bool × StripeDb) → StripeDb
started db (ok (row, submit, next)) = next
started db (err e) = db

abbrev pub ingested : StripeDb → Result StripeError (StripeWebhookResult × StripeDb) → StripeDb
ingested db (ok (result, next)) = next
ingested db (err e) = db

inserted-row :
    (row : CheckoutRow) (db db' : StripeDb)
    → insert_operation row db ≡ ok db'
    → operation_for_intent row.intent_id db.operations ≡ none
    → operation_for_intent row.intent_id db'.operations ≡ some row
unfolding insert_operation operation_for_intent
inserted-row row db db' h new =
    elim (Bool-cases (
      any
        (λ (r : CheckoutRow).
          text_eq r.id row.id
          || text_eq r.intent_id row.intent_id
          || text_eq r.idempotency_key row.idempotency_key)
        db.operations)) [
          | inl taken ↦ absurd (ground arith)
          | inr free ↦
              subst (λ (d : StripeDb). operation_for_intent row.intent_id d.operations ≡ some row)
                (ok-injective refl (rw free at h))
                (find-append_none (λ (x : CheckoutRow). text_eq x.intent_id row.intent_id)
                  db.operations row new (text_eq_refl row.intent_id))
        ]

-- The row that a call has reserved for submission is the one of its intent.
reserve-first :
    (row held : CheckoutRow) (db db' : StripeDb)
    → reserve row db ≡ ok (held, true, db')
    → operation_for_intent row.intent_id db'.operations ≡ some held
unfolding reserve insert_operation operation_for_intent
reserve-first row held db db' h =
    elim (Option-cases (operation_for_intent row.intent_id db.operations)) [
      | inl new ↦
          (let (next, inserted, h1) =
              bind-eq-ok (insert_operation row db) _ (rw (reserve, new) at h) in
            let out = ok-injective refl h1 in
            let own : row ≡ held = ap (λ (x : CheckoutRow × Bool × StripeDb). x.0) out in
            let last : next ≡ db' = ap (λ (x : CheckoutRow × Bool × StripeDb). x.2) out in
            subst (λ (d : StripeDb). operation_for_intent row.intent_id d.operations ≡ some held)
              last (inserted-row row db next inserted new ∙ ap some own))
      | inr (old, found) ↦ elim (Bool-cases (same_request old row)) [
        | inl same ↦ absurd (
            let e =
              ap (λ (x : CheckoutRow × Bool × StripeDb). x.1)
                (ok-injective refl (rw (reserve, found, same) at h)) in
            ground arith)
        | inr other ↦ absurd (let e = (rw (reserve, found, other) at h) in ground arith)
      ]
    ]

-- A row of the same intent is never submitted again.
reserve-again :
    (row held : CheckoutRow) (db : StripeDb) (out : CheckoutRow × Bool × StripeDb)
    → operation_for_intent row.intent_id db.operations ≡ some held
    → reserve row db ≡ ok out
    → out ≡ (held, false, db)
unfolding reserve
reserve-again row held db out found h = elim (Bool-cases (same_request held row)) [
  | inl same ↦ sym (ok-injective refl (rw (reserve, found, same) at h))
  | inr other ↦ absurd (let e = (rw (reserve, found, other) at h) in ground arith)
]

module _ (host : StripeHost) where
  unfoldable pub step : Event → StripeDb → StripeDb
  step (Event.start input base_url operation_id now) db =
      started db (start_checkout host input base_url operation_id now db)
  step (Event.settle row input response now) db = settle_response host row input response now db
  step (Event.webhook input tolerance now_ms now) db =
      ingested db (ingest_webhook host input tolerance now_ms now db)

  unfoldable pub run : List Event → StripeDb → StripeDb
  run [] db = db
  run (e ∷ es) db = run es (step e db)

  step-IsStep : (e : Event) (db : StripeDb) → IsStep db (step e db)
  unfolding step
  step-IsStep (Event.start input base_url operation_id now) db =
      elim (Result-cases (start_checkout host input base_url operation_id now db)) [
        | inl (out, done) ↦
            rw (step, done) (start_checkout-IsStep host input base_url operation_id now db out done)
        | inr (e, threw) ↦ rw (step, threw) (IsStep-refl db)
      ]
  step-IsStep (Event.settle row input response now) db =
      settle_response-IsStep host row input response now db
  step-IsStep (Event.webhook input tolerance now_ms now) db =
      elim (Result-cases (ingest_webhook host input tolerance now_ms now db)) [
        | inl (out, done) ↦
            (let (b, persisted) = ingest-event host input tolerance now_ms now db out done in
              rw (step, done) (persist_event-IsAnswered host b now db out persisted).step)
        | inr (e, threw) ↦ rw (step, threw) (IsStep-refl db)
      ]

  -- Whatever calls, answers and webhooks come in whatever order, an operation never disappears, the
  -- request that it commits to stands, an identifier that it has stays, and its status moves along the
  -- edges only; so an operation that the provider has reported paid stays paid.
  pub run-IsLater :
      (es : List Event) (db : StripeDb) (id : Text) (r : CheckoutRow)
      → operation_of id db.operations ≡ some r
      → (q : CheckoutRow) × (operation_of id (run es db).operations ≡ some q)
        × IsLater r q
        × (r.status ≡ provider_reported_paid → q.status ≡ provider_reported_paid)
  unfolding run
  run-IsLater [] db id r found = (r, found, IsLater-refl r, λ e. e)
  run-IsLater (e ∷ es) db id r found =
      let (p, here, first) =
        Statement-IsLater db.operations (step e db).operations id r (step-IsStep e db).operations
          found in
      let (q, there, rest, _) = run-IsLater es (step e db) id p here in
      let all_steps = IsLater-trans r p q first rest in
      (q, there, all_steps, λ paid. paid-final (subst (λ s. s ⟶* q.status) paid all_steps.status))

  pub run-IsKeyed :
      (es : List Event) (db : StripeDb) → IsKeyed db.operations → IsKeyed (run es db).operations
  unfolding run
  run-IsKeyed [] db h = h
  run-IsKeyed (e ∷ es) db h =
      run-IsKeyed es (step e db)
        (Statement-IsKeyed db.operations (step e db).operations (step-IsStep e db).operations h)

  run-inbox :
      (es : List Event) (db : StripeDb) (id : Text) (r : InboxRow)
      → existing_event id db.inbox ≡ some r
      → existing_event id (run es db).inbox ≡ some r
  unfolding run
  run-inbox [] db id r found = found
  run-inbox (e ∷ es) db id r found =
      run-inbox es (step e db) id r ((step-IsStep e db).inbox id r found)

  -- An event counts once: after a webhook was answered, and any steps, a webhook with the same event
  -- id that is answered is a duplicate with the first answer's disposition, and changes nothing.
  pub webhook_once :
      (input : WebhookInput) (tolerance now_ms : ℕ) (now : Text) (db : StripeDb)
      (first : StripeWebhookResult × StripeDb) (es : List Event) (again : WebhookInput)
      (tolerance' now_ms' : ℕ) (now' : Text) (second : StripeWebhookResult × StripeDb)
      → ingest_webhook host input tolerance now_ms now db ≡ ok first
      → ingest_webhook host again tolerance' now_ms' now' (run es first.1) ≡ ok second
      → second.0.event_id ≡ first.0.event_id
      → (second.0.duplicate ≡ true)
        × (second.0.disposition ≡ first.0.disposition)
        × (second.1 ≡ run es first.1)
  unfolding persist_event
  webhook_once input tolerance now_ms now db first es again tolerance' now_ms' now' second h k
        same =
      let (b, persisted) = ingest-event host input tolerance now_ms now db first h in
      let (c, repeated) =
        ingest-event host again tolerance' now_ms' now' (run es first.1) second k in
      let one = persist_event-IsAnswered host b now db first persisted in
      let two = persist_event-IsAnswered host c now' (run es first.1) second repeated in
      let ids : c.id ≡ b.id = sym two.event_id ∙ same ∙ one.event_id in
      let found : existing_event c.id (run es first.1).inbox ≡ some one.held =
        ap (λ id. existing_event id (run es first.1).inbox) ids
        ∙ run-inbox es first.1 b.id one.held one.kept in
      let (duplicate, disposition, unchanged, _) =
        duplicate-IsAnswered host one.held c (run es first.1) second found
          (rw (persist_event, found) at repeated) in
      (duplicate, disposition ∙ one.disposition, unchanged)

  run-intent :
      (es : List Event) (db : StripeDb) (intent_id : Text) (r : CheckoutRow)
      → operation_for_intent intent_id db.operations ≡ some r
      → (q : CheckoutRow) × (operation_for_intent intent_id (run es db).operations ≡ some q)
        × IsLater r q
  unfolding run
  run-intent [] db intent_id r found = (r, found, IsLater-refl r)
  run-intent (e ∷ es) db intent_id r found =
      let (p, here, first) =
        Statement-intent db.operations (step e db).operations intent_id r
          (step-IsStep e db).operations found in
      let (q, there, rest) = run-intent es (step e db) intent_id p here in
      (q, there, IsLater-trans r p q first rest)

  -- The reservation that a start makes, for a row of the intent that was asked for.
  start_checkout-reserve :
      (input : PrepareStripeCheckout) (base_url operation_id now : Text) (db : StripeDb)
      (out : CheckoutRow × Bool × StripeDb)
      → start_checkout host input base_url operation_id now db ≡ ok out
      → (row : CheckoutRow) × (row.intent_id ≡ input.intent_id) × (reserve row db ≡ ok out)
  unfolding start_checkout committed_row
  start_checkout-reserve input base_url operation_id now db out h =
      let (_, _, h1) = bind-eq-ok (validate_input host input) _ h in
      let (account, _, h2) = bind-eq-ok (account_for_checkout input.account_id db) _ h1 in
      let (return_base_url, _, h3) = bind-eq-ok (validate_return_base_url host base_url) _ h2 in
      (committed_row host input account.0 account.1 return_base_url operation_id now, refl, h3)

  -- At most one request leaves the node for an intent: when a call has reserved one for submission,
  -- then, whatever steps come in between, a later call for the same intent that does not throw submits
  -- nothing, changes nothing, and answers with the same operation as it is by then.
  pub submitted_once :
      (input : PrepareStripeCheckout) (base_url operation_id now : Text) (db db' : StripeDb)
      (row : CheckoutRow) (es : List Event) (again : PrepareStripeCheckout)
      (base_url' operation_id' now' : Text) (out : CheckoutRow × Bool × StripeDb)
      → start_checkout host input base_url operation_id now db ≡ ok (row, true, db')
      → start_checkout host again base_url' operation_id' now' (run es db') ≡ ok out
      → again.intent_id ≡ input.intent_id
      → (out.1 ≡ false) × (out.2 ≡ run es db') × IsLater row out.0
  submitted_once input base_url operation_id now db db' row es again base_url' operation_id' now'
        out h k same =
      let (first, of_input, reserved) =
        start_checkout-reserve input base_url operation_id now db _ h in
      let (second, of_again, repeated) =
        start_checkout-reserve again base_url' operation_id' now' (run es db') out k in
      let (q, found, later) =
        run-intent es db' first.intent_id row (reserve-first first row db db' reserved) in
      let ids : second.intent_id ≡ first.intent_id = of_again ∙ same ∙ sym of_input in
      let answer =
        reserve-again second q (run es db') out
          (ap (λ id. operation_for_intent id (run es db').operations) ids ∙ found) repeated in
      (
        ap (λ (x : CheckoutRow × Bool × StripeDb). x.1) answer,
        ap (λ (x : CheckoutRow × Bool × StripeDb). x.2) answer,
        subst (IsLater row) (sym (ap (λ (x : CheckoutRow × Bool × StripeDb). x.0) answer)) later,
      )
