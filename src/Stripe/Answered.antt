-- ===== src/Stripe/Answered.antt =====
-- What an answered webhook of sovereign/src/processors/stripe-checkout.ts leaves in the inbox.
use cashloom.Prelude.{
  ℕ, ◌≡◌, refl, sym, ◌∙◌, ap, subst, true, false, ◌&&◌, not, inl, inr, Option, none, some, List, [],
  ◌∷◌, ◌++◌, Text, text_eq, text_eq_refl, leb, ◌==◌, find-append, find-append_none, Option-cases,
  ok, non_null, bind-eq-ok, require-eq-ok, ok-injective,
}
use cashloom.Stripe.{CheckoutRow, Disposition, InboxRow, StripeDb, StripeHost, StripeError}
use cashloom.Stripe.Answer.{set_operation}
use cashloom.Stripe.Signature.{webhook_bytes, verify_webhook_signature}
use cashloom.Stripe.Judge.{BoundedEvent, Verdict, judge, bounded_event}
use cashloom.Stripe.Webhook.{
  StripeWebhookResult, WebhookInput, project, apply_as, apply, inbox_row, existing_event,
  answer_duplicate, answer_new, id_of_operation, status_of, persist_event, ingest_webhook,
}
use cashloom.Stripe.Moves.{project-IsLater}
use cashloom.Stripe.Steps.{IsStep, IsStep-refl, apply_as-IsStep}

module _ (host : StripeHost) where
  inbox-append :
      (id : Text) (rows : List InboxRow) (row r : InboxRow)
      → existing_event id rows ≡ some r
      → existing_event id (rows ++ row ∷ []) ≡ some r
  unfolding existing_event
  inbox-append id rows row r e =
      find-append (λ (x : InboxRow). text_eq x.event_id id) rows (row ∷ []) r e

  -- What an answered event leaves: the inbox has its row, with the answer's disposition.
  pub record IsAnswered (b : BoundedEvent) (db : StripeDb) (out : StripeWebhookResult × StripeDb)
      : Type 0 where
    pub step : IsStep db out.1
    pub event_id : out.0.event_id ≡ b.id
    pub held : InboxRow
    pub kept : existing_event b.id out.1.inbox ≡ some held
    pub disposition : held.disposition ≡ out.0.disposition

  pub duplicate-IsAnswered :
      (held : InboxRow) (b : BoundedEvent) (db : StripeDb) (out : StripeWebhookResult × StripeDb)
      → existing_event b.id db.inbox ≡ some held
      → answer_duplicate held b db ≡ ok out
      → (out.0.duplicate ≡ true)
        × (out.0.disposition ≡ held.disposition)
        × (out.1 ≡ db)
        × IsAnswered b db out
  unfolding answer_duplicate
  duplicate-IsAnswered held b db out found h =
      let (_, h1) = require-eq-ok (text_eq held.payload_sha256 b.payload_sha256) _ _ h in
      let (status, _, h2) = bind-eq-ok (status_of held.operation_id db) _ h1 in
      let first : StripeWebhookResult = record {
        event_id = b.id;
        duplicate = true;
        disposition = held.disposition;
        operation_id = held.operation_id;
        status = status;
      } in
      same (first, db) refl refl refl refl (ok-injective refl h2)
    where
      same :
          (x : StripeWebhookResult × StripeDb)
          → x.0.duplicate ≡ true
          → x.0.disposition ≡ held.disposition
          → x.1 ≡ db
          → x.0.event_id ≡ b.id
          → x ≡ out
          → (out.0.duplicate ≡ true)
            × (out.0.disposition ≡ held.disposition)
            × (out.1 ≡ db)
            × IsAnswered b db out
      same x duplicate disposition unchanged event_id e =
          let unmoved = ap (λ (y : StripeWebhookResult × StripeDb). y.1) (sym e) ∙ unchanged in
          let told =
            ap (λ (y : StripeWebhookResult × StripeDb). y.0.disposition) (sym e) ∙ disposition in
          (
            ap (λ (y : StripeWebhookResult × StripeDb). y.0.duplicate) (sym e) ∙ duplicate,
            told,
            unmoved,
            record {
              step = subst (IsStep db) (sym unmoved) (IsStep-refl db);
              event_id =
                  ap (λ (y : StripeWebhookResult × StripeDb). y.0.event_id) (sym e) ∙ event_id;
              held = held;
              kept = ap (λ (d : StripeDb). existing_event b.id d.inbox) unmoved ∙ found;
              disposition = sym told;
            },
          )

  -- The database of a new event, before and after its `UPDATE`.
  abbrev filed : BoundedEvent → Text → StripeDb → StripeDb
  filed b now db = record db {
    inbox = db.inbox ++ inbox_row b (judge host b db.operations) now ∷ [];
  }

  apply_as-inbox :
      (v : Verdict) (now : Text) (db : StripeDb) (d : Disposition) (o : Option CheckoutRow)
      → (apply_as d o (project v.transition v.session v.payment_intent now) db).inbox ≡ db.inbox
  unfolding apply_as set_operation
  apply_as-inbox v now db Disposition.applied (some r) = refl
  apply_as-inbox v now db Disposition.applied none = refl
  apply_as-inbox v now db Disposition.ignored o = refl
  apply_as-inbox v now db Disposition.refused o = refl
  apply_as-inbox v now db Disposition.unmatched o = refl

  apply-inbox : (v : Verdict) (now : Text) (db : StripeDb) → (apply v now db).inbox ≡ db.inbox
  unfolding apply
  apply-inbox v now db = apply_as-inbox v now db v.disposition v.operation

  filed-IsStep :
      (b : BoundedEvent) (v : Verdict) (now : Text) (db : StripeDb) (row : InboxRow)
      → IsStep db (apply v now (record db { inbox = db.inbox ++ row ∷ [] }))
  unfolding apply
  filed-IsStep b v now db row =
      let mid : StripeDb = record db { inbox = db.inbox ++ row ∷ [] } in
      let s =
        apply_as-IsStep v.disposition v.operation
          (project v.transition v.session v.payment_intent now) mid
          (project-IsLater v.transition v.session v.payment_intent now) in
      record {
        operations = s.operations;
        inbox = λ id r e. s.inbox id r (inbox-append id db.inbox row r e);
      }

  row_disposition :
      (b : BoundedEvent) (v : Verdict) (now : Text)
      → (inbox_row b v now).disposition ≡ v.disposition
  unfolding inbox_row
  row_disposition b v now = refl

  found_row :
      (b : BoundedEvent) (v : Verdict) (now : Text) (db : StripeDb)
      → existing_event b.id db.inbox ≡ none
      → existing_event b.id (db.inbox ++ inbox_row b v now ∷ []) ≡ some (inbox_row b v now)
  unfolding existing_event inbox_row
  found_row b v now db absent =
      find-append_none (λ (x : InboxRow). text_eq x.event_id b.id) db.inbox (inbox_row b v now)
        absent (text_eq_refl b.id)

  new-IsAnswered :
      (b : BoundedEvent) (now : Text) (db : StripeDb) (out : StripeWebhookResult × StripeDb)
      → existing_event b.id db.inbox ≡ none
      → answer_new host b now db ≡ ok out
      → IsAnswered b db out
  unfolding answer_new
  new-IsAnswered b now db out absent h =
      let v = judge host b db.operations in
      let last = apply v now (filed b now db) in
      let (status, _, h1) = bind-eq-ok (status_of (id_of_operation v.operation) last) _ h in
      let result : StripeWebhookResult = record {
        event_id = b.id;
        duplicate = false;
        disposition = v.disposition;
        operation_id = id_of_operation v.operation;
        status = status;
      } in
      subst (IsAnswered b db) (ok-injective {r = ok (result, last)} refl h1) (record {
        step = filed-IsStep b v now db (inbox_row b v now);
        event_id = refl;
        held = inbox_row b v now;
        kept =
            ap (existing_event b.id) (apply-inbox v now (filed b now db))
            ∙ found_row b v now db absent;
        disposition = row_disposition b v now;
      })

  pub persist_event-IsAnswered :
      (b : BoundedEvent) (now : Text) (db : StripeDb) (out : StripeWebhookResult × StripeDb)
      → persist_event host b now db ≡ ok out
      → IsAnswered b db out
  unfolding persist_event
  persist_event-IsAnswered b now db out h = elim (Option-cases (existing_event b.id db.inbox)) [
    | inl absent ↦ new-IsAnswered b now db out absent (rw (persist_event, absent) at h)
    | inr (held, found) ↦
        (duplicate-IsAnswered held b db out found (rw (persist_event, found) at h)).3
  ]

  pub ingest-event :
      (input : WebhookInput) (tolerance now_ms : ℕ) (now : Text) (db : StripeDb)
      (out : StripeWebhookResult × StripeDb)
      → ingest_webhook host input tolerance now_ms now db ≡ ok out
      → (b : BoundedEvent) × (persist_event host b now db ≡ ok out)
  unfolding ingest_webhook
  ingest-event input tolerance now_ms now db out h =
      let (_, _, h1) = bind-eq-ok (webhook_bytes input.raw_body) _ h in
      let (_, h2) = require-eq-ok (not (tolerance == 0) && leb tolerance 900) _ _ h1 in
      let (_, _, h3) =
        bind-eq-ok
          (verify_webhook_signature host input.raw_body input.signature_header input.endpoint_secret
            now_ms tolerance)
          _ h2 in
      let (event, _, h4) =
        bind-eq-ok (non_null StripeError.bad_json (host.parse_event input.raw_body)) _ h3 in
      let (b, _, h5) = bind-eq-ok (bounded_event event (host.sha256_bytes input.raw_body)) _ h4 in
      (b, h5)
