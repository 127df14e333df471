-- ===== src/BitcoinPayLink/Prepared.antt =====
-- Every answer of `prepare` in sovereign/src/pay/bitcoin-pay-link.ts: a review found at once, a new one,
-- or that of a call that bound the intent first.
use cashloom.Prelude.{
  ◌≡◌, refl, ◌∙◌, ap, subst, true, inl, inr, Option, some, Text, text_eq, Option-cases, Result, ok,
  err, non_null, bind-eq-ok, require-eq-ok, non_null-eq-ok, ok-injective,
}
use cashloom.Payments.{Payment}
use cashloom.Pay.{Binding}
use cashloom.Pay.Claim.{payment_of}
use cashloom.BitcoinPayLink.{
  LinkError, Node, Moment, ExecutionContext, ExecutionReview, PrepareInput, PreparedExecution,
  LinkHost,
}
use cashloom.BitcoinPayLink.Asserts.{storage_failure, assert_timestamp}
use cashloom.BitcoinPayLink.Context.{active_context}
use cashloom.BitcoinPayLink.Review.{execution_review}
use cashloom.BitcoinPayLink.Stored.{
  payment_row, binding_for_intent, is_quoted, assert_stored_binding_payment,
}
use cashloom.BitcoinPayLink.Prepare.{
  Begun, Quoting, bound_payment, begin_prepare, inserted_or_held, review_now, finalize_prepared,
  answer_race, quoted, go_on, prepare,
}
use cashloom.BitcoinPayLink.Signed.{active_context-ids}

module _ (host : LinkHost) where
  -- A review of a sound quoted row, in a context that is active at some time for this intent and account.
  pub record IsPrepared (node : Node) (intent_record_id account_id : Text)
      (review : ExecutionReview) : Type 0 where
    pub at : Text
    pub context : ExecutionContext
    pub binding : Binding
    pub payment : Payment
    pub active : active_context host node intent_record_id account_id at ≡ ok context
    pub row : payment_of binding.payment_id node.pay.payments ≡ some payment
    pub sound : assert_stored_binding_payment host binding payment ≡ ok tt
    pub quoted : is_quoted payment ≡ true
    pub reviewed : execution_review host binding payment context ≡ ok review

  bound_payment-row :
      (node : Node) (b : Binding) (account_id : Text) (p : Payment)
      → bound_payment host node b account_id ≡ ok p
      → (payment_of b.payment_id node.pay.payments ≡ some p)
        × (assert_stored_binding_payment host b p ≡ ok tt)
        × (is_quoted p ≡ true)
  unfolding bound_payment payment_row
  bound_payment-row node b account_id p h =
      let (_, h1) = require-eq-ok (text_eq b.account_id account_id) _ _ h in
      let (q, row, h2) = bind-eq-ok (payment_row b.payment_id node) _ h1 in
      let (_, sound, h3) = bind-eq-ok (assert_stored_binding_payment host b q) _ h2 in
      let (quoted_row, h4) = require-eq-ok (is_quoted q) _ _ h3 in
      let same = ok-injective refl h4 in
      (
        non_null-eq-ok _ _ row ∙ ap some same,
        subst (λ x. assert_stored_binding_payment host b x ≡ ok tt) same sound,
        subst (λ x. is_quoted x ≡ true) same quoted_row,
      )

  review_now-IsPrepared :
      (m : Moment) (context : ExecutionContext) (b : Binding) (p : Payment)
      (review : ExecutionReview)
      → payment_of b.payment_id m.node.pay.payments ≡ some p
      → assert_stored_binding_payment host b p ≡ ok tt
      → is_quoted p ≡ true
      → review_now host m context b p ≡ ok review
      → IsPrepared m.node context.intent.record_id context.account.id review
  review_now-IsPrepared m context b p review row sound quoted_row h =
      let (_, _, h1) = bind-eq-ok (assert_timestamp host m.now) _ h in
      let (fresh, active, reviewed) =
        bind-eq-ok (active_context host m.node context.intent.record_id context.account.id m.now) _
          h1 in
      record {
        at = m.now;
        context = fresh;
        binding = b;
        payment = p;
        active = active;
        row = row;
        sound = sound;
        quoted = quoted_row;
        reviewed = reviewed;
      }

  finalize_prepared-IsPrepared :
      (context : ExecutionContext) (inserted : Option Binding) (m : Moment)
      (prepared : PreparedExecution)
      → finalize_prepared host context inserted m ≡ ok prepared
      → IsPrepared m.node context.intent.record_id context.account.id prepared.review
  unfolding finalize_prepared payment_row
  finalize_prepared-IsPrepared context inserted m prepared h =
      let (b, _, h1) =
        bind-eq-ok (non_null storage_failure (inserted_or_held host context inserted m.node)) _ h in
      let (p, row, h2) = bind-eq-ok (payment_row b.payment_id m.node) _ h1 in
      let (_, sound, h3) = bind-eq-ok (assert_stored_binding_payment host b p) _ h2 in
      let (quoted_row, h4) = require-eq-ok (is_quoted p) _ _ h3 in
      let (review, reviewed, h5) = bind-eq-ok (review_now host m context b p) _ h4 in
      subst
        (λ (x : PreparedExecution).
          IsPrepared m.node context.intent.record_id context.account.id x.review)
        (ok-injective refl h5)
        (review_now-IsPrepared m context b p review (non_null-eq-ok _ _ row) sound quoted_row
          reviewed)

  answer_race-IsPrepared :
      (context : ExecutionContext) (e : LinkError) (m : Moment) (prepared : PreparedExecution)
      → answer_race host context e m ≡ ok prepared
      → IsPrepared m.node context.intent.record_id context.account.id prepared.review
  unfolding answer_race
  answer_race-IsPrepared context e m prepared h =
      let (raced, _, h1) =
        bind-eq-ok (non_null e (binding_for_intent context.intent.record_id m.node)) _ h in
      let (p, bound, h2) = bind-eq-ok (bound_payment host m.node raced context.account.id) _ h1 in
      let (review, reviewed, h3) = bind-eq-ok (review_now host m context raced p) _ h2 in
      let (row, sound, quoted_row) = bound_payment-row m.node raced context.account.id p bound in
      subst
        (λ (x : PreparedExecution).
          IsPrepared m.node context.intent.record_id context.account.id x.review)
        (ok-injective refl h3)
        (review_now-IsPrepared m context raced p review row sound quoted_row reviewed)

  go_on-IsPrepared :
      (context : ExecutionContext) (q : Quoting) (outcome : Result LinkError (Binding × Node))
      (out : PreparedExecution × Node)
      → go_on host context q outcome ≡ ok out
      → IsPrepared out.1 context.intent.record_id context.account.id out.0.review
  go_on-IsPrepared context q (ok (b, node)) out h =
      let (prepared, done, h1) =
        bind-eq-ok (finalize_prepared host context (some b) (q.after node)) _ h in
      subst
        (λ (x : PreparedExecution × Node).
          IsPrepared x.1 context.intent.record_id context.account.id x.0.review)
        (ok-injective refl h1)
        (finalize_prepared-IsPrepared context (some b) (q.after node) prepared done)
  go_on-IsPrepared context q (err e) out h =
      let (prepared, done, h1) = bind-eq-ok (answer_race host context e (q.after q.at.node)) _ h in
      subst
        (λ (x : PreparedExecution × Node).
          IsPrepared x.1 context.intent.record_id context.account.id x.0.review)
        (ok-injective refl h1) (answer_race-IsPrepared context e (q.after q.at.node) prepared done)

  -- What the first stretch leaves: a review of what is bound already, or the context of a quote.
  abbrev IsBegun : Moment → PrepareInput → Begun → Type 0
  IsBegun m input (Begun.found prepared) =
      IsPrepared m.node input.intent_record_id input.account_id prepared.review
  IsBegun m input (Begun.to_quote context) =
      (context.intent.record_id ≡ input.intent_record_id) × (context.account.id ≡ input.account_id)

  begin_prepare-IsBegun :
      (m : Moment) (input : PrepareInput) (begun : Begun)
      → begin_prepare host m input ≡ ok begun
      → IsBegun m input begun
  unfolding begin_prepare
  begin_prepare-IsBegun m input begun h =
      let (_, timed, h1) = bind-eq-ok (assert_timestamp host m.now) _ h in
      let (context, active, h2) =
        bind-eq-ok (active_context host m.node input.intent_record_id input.account_id m.now) _
          h1 in
      elim (Option-cases (binding_for_intent context.intent.record_id m.node)) [
        | inl free ↦ subst (IsBegun m input) (ok-injective refl (rw free at h2)) (
            active_context-ids host m.node input.intent_record_id input.account_id m.now context
              active)
        | inr (b, held) ↦
            (let (p, bound, h3) =
                bind-eq-ok (bound_payment host m.node b context.account.id) _ (rw held at h2) in
              let (review, reviewed, h4) = bind-eq-ok (execution_review host b p context) _ h3 in
              let (row, sound, quoted_row) =
                bound_payment-row m.node b context.account.id p bound in
              subst (IsBegun m input) (ok-injective refl h4) (record {
                at = m.now;
                context = context;
                binding = b;
                payment = p;
                active = active;
                row = row;
                sound = sound;
                quoted = quoted_row;
                reviewed = reviewed;
              }))
      ]

  -- Whatever `prepare` answers, at once, after a quote of its own, or when another call was first, is the
  -- review of a sound and quoted row of the node that it leaves, in a context that is active there for
  -- the intent and the account that were asked for; so that no answer shows a claimed payment.
  pub prepare-IsPrepared :
      (m : Moment) (input : PrepareInput) (quoting : ExecutionContext → Quoting)
      (out : PreparedExecution × Node)
      → prepare host m input quoting ≡ ok out
      → IsPrepared out.1 input.intent_record_id input.account_id out.0.review
  unfolding prepare
  prepare-IsPrepared m input quoting out h =
      let (begun, first, h1) = bind-eq-ok (begin_prepare host m input) _ h in
      ended begun (begin_prepare-IsBegun m input begun first) h1
    where
      ended :
          (begun : Begun)
          → IsBegun m input begun
          → elim begun as (λ _. Result LinkError (PreparedExecution × Node)) [
            | Begun.found prepared ↦ ok (prepared, m.node)
            | Begun.to_quote context ↦
                go_on host context (quoting context) (quoted host context (quoting context))
          ]
            ≡ ok out
          → IsPrepared out.1 input.intent_record_id input.account_id out.0.review
      ended (Begun.found prepared) is e =
          subst
            (λ (x : PreparedExecution × Node).
              IsPrepared x.1 input.intent_record_id input.account_id x.0.review)
            (ok-injective refl e) is
      ended (Begun.to_quote context) (intent, account) e =
          subst (λ id. IsPrepared out.1 id input.account_id out.0.review) intent
            (subst (λ id. IsPrepared out.1 context.intent.record_id id out.0.review) account
              (go_on-IsPrepared context (quoting context) (quoted host context (quoting context))
                out e))
