-- ===== src/BitcoinPayLink/Prepare.antt =====
-- `prepare` of sovereign/src/pay/bitcoin-pay-link.ts: the reuse of a bound review, the transaction
-- that stores a quote with its binding, and the answer of a call that lost a race.
use cashloom.Prelude.{
  ◌^◌, Bool, true, false, ◌&&◌, ◌||◌, not, Option, none, some, [], ◌∷◌, ◌++◌, Text, lit, text_eq,
  take, length, leb, ◌==◌, any, Result, ok, err, ◌>>=◌, ◌>>◌, require, map_err, non_null,
}
use cashloom.Payments.{Payment}
use cashloom.Pay.{Account, Binding}
use cashloom.Pay.Quote.{PaymentQuoteDraft, insert_payment}
use cashloom.RecordStore.{StoredRow}
use cashloom.BitcoinPayLink.{
  LinkCode, LinkError, Node, Moment, ExecutionContext, ExecutionReview, PrepareInput,
  PreparedExecution, LinkHost,
}
use cashloom.BitcoinPayLink.Asserts.{link_error, storage_failure, assert_timestamp}
use cashloom.BitcoinPayLink.Context.{active_context}
use cashloom.BitcoinPayLink.Review.{draft_binding, execution_review}
use cashloom.BitcoinPayLink.Stored.{
  payment_row, binding_for_intent, is_quoted, assert_stored_binding_payment,
}

abbrev conflict : LinkError
conflict = link_error LinkCode.execution_conflict

-- `CHECK (length(id) = 71 AND substr(id, 1, 7) = 'sha256:')`
abbrev id_shape : Text → Bool
id_shape id = length id == 71 && text_eq (take 7 id) (lit "sha256:")

-- Two rows that the table cannot both hold.
unfoldable pub same_binding_key : Binding → Binding → Bool
same_binding_key b c =
    text_eq b.intent_record_id c.intent_record_id
    || text_eq b.payment_id c.payment_id
    || text_eq b.review_id c.review_id
    || text_eq b.reservation_id c.reservation_id

unfoldable pub binding_checks : Binding → Bool
binding_checks b =
    id_shape b.intent_record_id
    && id_shape b.review_id
    && id_shape b.reservation_id
    && not (length b.unsigned_payload == 0)
    && leb (length b.unsigned_payload) (2 ^ 20)
    && id_shape b.unsigned_payload_hash

-- The foreign keys
unfoldable pub binding_references : Binding → Node → Bool
binding_references b node =
    any (λ (r : StoredRow). text_eq r.record_id b.intent_record_id) node.store.records
    && any (λ (p : Payment). text_eq p.id b.payment_id) node.pay.payments
    && any (λ (a : Account). text_eq a.id b.account_id) node.pay.accounts

-- `INSERT INTO cashloom_v2_btc_payment_bindings`, with the constraints of sovereign/src/db.ts
unfoldable pub insert_binding : Binding → Node → Result LinkError Node
insert_binding b node = do
  require
      (not (any (same_binding_key b) node.pay.bindings)
        && binding_checks b
        && binding_references b node)
      LinkError.constraint_failed
  ok (record node { pay = record node.pay { bindings = node.pay.bindings ++ b ∷ [] } })

-- What `prepare` has found before it asks for a quote.
pub data Begun : Type 0 where
  found : PreparedExecution → Begun
  to_quote : ExecutionContext → Begun

-- What happens while `prepare` waits: the sender's draft, or its failure, the instant of the
-- transaction, and the instant at which the call goes on.
pub record Quoting : Type 0 where
  pub draft : Result LinkError PaymentQuoteDraft
  pub at : Moment
  pub after : Node → Moment

module _ (host : LinkHost) where
  -- The quoted row of a binding of this account.
  unfoldable pub bound_payment : Node → Binding → Text → Result LinkError Payment
  bound_payment node b account_id = do
    require (text_eq b.account_id account_id) conflict
    p ← payment_row b.payment_id node
    assert_stored_binding_payment host b p
    require (is_quoted p) conflict
    ok p

  abbrev pub reuse : ExecutionReview → PreparedExecution
  reuse review = record { review = review; reused = true }

  unfoldable pub begin_prepare : Moment → PrepareInput → Result LinkError Begun
  begin_prepare m input = do
    assert_timestamp host m.now
    context ← active_context host m.node input.intent_record_id input.account_id m.now
    elim (binding_for_intent context.intent.record_id m.node) [
      | none ↦ ok (Begun.to_quote context)
      | some b ↦ do
        p ← bound_payment m.node b context.account.id
        review ← execution_review host b p context
        ok (Begun.found (reuse review))
    ]

  -- The callback `bind`, inside the transaction of `quotePayment`.
  unfoldable pub bind :
      ExecutionContext → PaymentQuoteDraft → Moment → Result LinkError (Binding × Node)
  bind context draft m = do
    assert_timestamp host m.now
    fresh ← active_context host m.node context.intent.record_id context.account.id m.now
    b ← draft_binding host draft fresh m.now
    node ← insert_binding b m.node
    ok (b, node)

  -- The transaction: the payment's row, and its binding, or neither.
  unfoldable pub store_quote :
      ExecutionContext → PaymentQuoteDraft → Moment → Result LinkError (Binding × Node)
  store_quote context draft m = do
    pay ← map_err LinkError.pay (insert_payment draft.payment m.node.pay)
    bind context draft (record m { node = record m.node { pay = pay } })

  -- Every answer ends with a review of the row as it is then.
  abbrev pub review_now :
      Moment → ExecutionContext → Binding → Payment → Result LinkError ExecutionReview
  review_now m context b p = do
    assert_timestamp host m.now
    fresh ← active_context host m.node context.intent.record_id context.account.id m.now
    execution_review host b p fresh

  -- `insertedBinding ?? bindingForIntent(…)`
  abbrev pub inserted_or_held : ExecutionContext → Option Binding → Node → Option Binding
  inserted_or_held context none node = binding_for_intent context.intent.record_id node
  inserted_or_held context (some b) node = some b

  -- `finalizePrepared`
  unfoldable pub finalize_prepared :
      ExecutionContext → Option Binding → Moment → Result LinkError PreparedExecution
  finalize_prepared context inserted m = do
    b ← non_null storage_failure (inserted_or_held context inserted m.node)
    p ← payment_row b.payment_id m.node
    assert_stored_binding_payment host b p
    require (is_quoted p) conflict
    review ← review_now m context b p
    ok (record { review = review; reused = false })

  -- The `catch`: another call may have bound the intent first.
  unfoldable pub answer_race :
      ExecutionContext → LinkError → Moment → Result LinkError PreparedExecution
  answer_race context e m = do
    raced ← non_null e (binding_for_intent context.intent.record_id m.node)
    p ← bound_payment m.node raced context.account.id
    review ← review_now m context raced p
    ok (reuse review)

  abbrev pub quoted : ExecutionContext → Quoting → Result LinkError (Binding × Node)
  quoted context q = do draft ← q.draft; store_quote context draft q.at

  abbrev pub go_on :
      ExecutionContext
      → Quoting
      → Result LinkError (Binding × Node)
      → Result LinkError (PreparedExecution × Node)
  go_on context q (ok (b, node)) = do
    prepared ← finalize_prepared context (some b) (q.after node)
    ok (prepared, (q.after node).node)
  go_on context q (err e) = do
    prepared ← answer_race context e (q.after q.at.node)
    ok (prepared, (q.after q.at.node).node)

  unfoldable pub prepare :
      Moment
      → PrepareInput
      → (ExecutionContext → Quoting)
      → Result LinkError (PreparedExecution × Node)
  prepare m input quoting = do
    begun ← begin_prepare m input
    elim begun [
      | Begun.found prepared ↦ ok (prepared, m.node)
      | Begun.to_quote context ↦ go_on context (quoting context) (quoted context (quoting context))
    ]
