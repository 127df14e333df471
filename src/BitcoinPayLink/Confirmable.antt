-- ===== src/BitcoinPayLink/Confirmable.antt =====
-- What the transaction of `prepare` in sovereign/src/pay/bitcoin-pay-link.ts stores, `confirm` finds.
use cashloom.Prelude.{
  ◌≡◌, refl, sym, ◌∙◌, ap, true, false, ◌&&◌, not, inl, inr, none, some, List, [], ◌∷◌, ◌++◌, Text,
  text_eq, text_eq_refl, text_eq_iff, any, find, find-append_none, ok, map_err, bind-eq-ok,
  require-eq-ok, map_err-eq-ok, ok-injective, Bool-cases, arith,
}
use cashloom.Payments.{Payment}
use cashloom.Pay.{Binding, PayDb}
use cashloom.Pay.Claim.{payment_of}
use cashloom.Pay.Quote.{PaymentQuoteDraft, insert_payment}
use cashloom.BitcoinPayLink.{
  LinkError, Node, Moment, ExecutionContext, ReviewDigest, ExecutionReview, LinkHost,
}
use cashloom.BitcoinPayLink.Asserts.{account_row, assert_id, assert_timestamp}
use cashloom.BitcoinPayLink.Context.{
  active_descriptor, active_intent, intent_context, active_context,
}
use cashloom.BitcoinPayLink.Review.{draft_binding, execution_review}
use cashloom.BitcoinPayLink.Stored.{payment_row, binding_for_review, is_quoted}
use cashloom.BitcoinPayLink.Prepare.{
  same_binding_key, binding_checks, binding_references, insert_binding, bind, store_quote,
}
use cashloom.BitcoinPayLink.Confirm.{Ready, Started, make_ready, start_confirm}
use cashloom.BitcoinPayLink.Admitted.{execution_review-digest}
use cashloom.BitcoinPayLink.Signed.{active_context-ids}
use cashloom.BitcoinPayLink.Kept.{draft_binding-execution_review, draft_binding-row}

find-new :
    (b : Binding) (bs : List Binding)
    → any (same_binding_key b) bs ≡ false
    → find
        (λ (x : Binding). text_eq x.payment_id b.payment_id && text_eq x.review_id b.review_id)
        bs
      ≡ none
unfolding any find same_binding_key
find-new b [] h = refl
find-new b (c ∷ bs) h = ground (
  arith,
  text_eq_iff c.payment_id b.payment_id,
  text_eq_iff b.payment_id c.payment_id,
  find-new b bs,
)

find-new_payment :
    (p : Payment) (ps : List Payment)
    → any (λ (q : Payment). text_eq q.id p.id) ps ≡ false
    → find (λ (q : Payment). text_eq q.id p.id) ps ≡ none
unfolding any find
find-new_payment p [] h = refl
find-new_payment p (q ∷ ps) h = ground (arith, find-new_payment p ps)

-- A row that is new to its table is the one that a look-up by its key finds.
insert_payment-found :
    (p : Payment) (db db' : PayDb)
    → insert_payment p db ≡ ok db'
    → (db' ≡ record db { payments = db.payments ++ p ∷ [] })
      × (payment_of p.id db'.payments ≡ some p)
unfolding insert_payment payment_of
insert_payment-found p db db' h =
    elim (Bool-cases (any (λ (q : Payment). text_eq q.id p.id) db.payments)) [
      | inl old ↦ absurd (ground arith)
      | inr new ↦
          (let same = sym (ok-injective refl (rw new at h)) in
            (
              same,
              rw same (
                  find-append_none (λ (q : Payment). text_eq q.id p.id) db.payments p
                    (find-new_payment p db.payments new) (text_eq_refl p.id)),
            ))
    ]

insert_binding-found :
    (b : Binding) (node node' : Node)
    → insert_binding b node ≡ ok node'
    → (node' ≡ record node { pay = record node.pay { bindings = node.pay.bindings ++ b ∷ [] } })
      × (any (same_binding_key b) node.pay.bindings ≡ false)
      × (binding_for_review b.payment_id b.review_id node' ≡ some b)
unfolding insert_binding binding_for_review
insert_binding-found b node node' h =
    let (fits, h1) =
      require-eq-ok
        (not (any (same_binding_key b) node.pay.bindings)
          && binding_checks b
          && binding_references b node)
        _ _ h in
    let new : any (same_binding_key b) node.pay.bindings ≡ false = ground arith in
    let same = sym (ok-injective refl h1) in
    (
      same,
      new,
      rw same (
          find-append_none
            (λ (x : Binding). text_eq x.payment_id b.payment_id && text_eq x.review_id b.review_id)
            node.pay.bindings b (find-new b node.pay.bindings new)
            (rw (text_eq_refl b.payment_id, text_eq_refl b.review_id) refl)),
    )

module _ (host : LinkHost) where
  -- The context is read from the accounts, the keys and the records only.
  active_context-tables :
      (node : Node) (pay : PayDb) (intent_record_id account_id now : Text)
      → pay.accounts ≡ node.pay.accounts
      → active_context host (record node { pay = pay }) intent_record_id account_id now
        ≡ active_context host node intent_record_id account_id now
  unfolding active_context active_descriptor active_intent intent_context account_row
  active_context-tables node pay intent_record_id account_id now same = rw same refl

  -- What the transaction has established when it commits.
  record IsStored (context : ExecutionContext) (draft : PaymentQuoteDraft) (m : Moment)
      (b : Binding) (node : Node) : Type 0 where
    fresh : ExecutionContext
    timed : assert_timestamp host m.now ≡ ok tt
    active : active_context host node context.intent.record_id context.account.id m.now ≡ ok fresh
    drafted : draft_binding host draft fresh m.now ≡ ok b
    row : payment_of draft.payment.id node.pay.payments ≡ some draft.payment
    bound : binding_for_review b.payment_id b.review_id node ≡ some b

  -- The callback, from the node that has the payment's row already.
  bind-IsStored :
      (context : ExecutionContext) (draft : PaymentQuoteDraft) (m : Moment) (b : Binding)
      (node : Node)
      → payment_of draft.payment.id m.node.pay.payments ≡ some draft.payment
      → bind host context draft m ≡ ok (b, node)
      → IsStored context draft m b node
  unfolding bind
  bind-IsStored context draft m b node row h =
      let (_, timed, h2) = bind-eq-ok (assert_timestamp host m.now) _ h in
      let (fresh, active, h3) =
        bind-eq-ok (active_context host m.node context.intent.record_id context.account.id m.now) _
          h2 in
      let (c, drafted, h4) = bind-eq-ok (draft_binding host draft fresh m.now) _ h3 in
      let (last, inserted, h5) = bind-eq-ok (insert_binding c m.node) _ h4 in
      let pair = ok-injective refl h5 in
      committed fresh c last timed active drafted inserted (ap (λ (x : Binding × Node). x.0) pair)
        (ap (λ (x : Binding × Node). x.1) pair)
    where
      committed :
          (fresh : ExecutionContext) (c : Binding) (last : Node)
          → assert_timestamp host m.now ≡ ok tt
          → active_context host m.node context.intent.record_id context.account.id m.now ≡ ok fresh
          → draft_binding host draft fresh m.now ≡ ok c
          → insert_binding c m.node ≡ ok last
          → c ≡ b
          → last ≡ node
          → IsStored context draft m b node
      committed fresh c last timed active drafted inserted same ends =
          let (left, _, bound) = insert_binding-found c m.node last inserted in
          let after = sym ends ∙ left in
          record {
            fresh = fresh;
            timed = timed;
            active =
                ap
                  (λ (n : Node).
                    active_context host n context.intent.record_id context.account.id m.now)
                  after
                ∙ active_context-tables m.node
                    (record m.node.pay { bindings = m.node.pay.bindings ++ c ∷ [] })
                    context.intent.record_id context.account.id m.now refl
                ∙ active;
            drafted = drafted ∙ ap ok same;
            row = ap (λ (n : Node). payment_of draft.payment.id n.pay.payments) after ∙ row;
            bound =
                ap (λ (n : Node). binding_for_review b.payment_id b.review_id n) (sym ends)
                ∙ ap (λ (x : Binding). binding_for_review x.payment_id x.review_id last) (sym same)
                ∙ bound
                ∙ ap some same;
          }

  store_quote-IsStored :
      (context : ExecutionContext) (draft : PaymentQuoteDraft) (m : Moment) (b : Binding)
      (node : Node)
      → store_quote host context draft m ≡ ok (b, node)
      → IsStored context draft m b node
  unfolding store_quote
  store_quote-IsStored context draft m b node h =
      let (pay, stored, h1) =
        bind-eq-ok (map_err LinkError.pay (insert_payment draft.payment m.node.pay)) _ h in
      let (_, row) = insert_payment-found draft.payment m.node.pay pay (map_err-eq-ok _ _ stored) in
      moved (
        bind-IsStored context draft (record m { node = record m.node { pay = pay } }) b node row h1)
    where
      moved :
          {pay : PayDb}
          → IsStored context draft (record m { node = record m.node { pay = pay } }) b node
          → IsStored context draft m b node
      moved s = record {
        fresh = s.fresh;
        timed = s.timed;
        active = s.active;
        drafted = s.drafted;
        row = s.row;
        bound = s.bound;
      }

  -- The review of a quote that is stored with its binding can be confirmed at once: at the node that
  -- the transaction leaves and at its time, the first stretch of `confirm` finds it ready, if the row
  -- of the draft is quoted and what the digest function gives are content ids.
  pub store_quote-start_confirm :
      (context : ExecutionContext) (draft : PaymentQuoteDraft) (m : Moment) (b : Binding)
      (node : Node)
      → ((d : ReviewDigest) → host.protocol.is_sha256_id (host.review_sha256_id d) ≡ true)
      → is_quoted draft.payment ≡ true
      → store_quote host context draft m ≡ ok (b, node)
      → (r : Ready) × (start_confirm host
            (record { node = node; now = m.now })
            (record { payment_id = b.payment_id; review_id = b.review_id })
          ≡ ok (Started.ready r))
        × (r.binding ≡ b)
        × (r.payment ≡ draft.payment)
  unfolding start_confirm make_ready payment_row assert_id
  store_quote-start_confirm context draft m b node ids quoted h =
      let s = store_quote-IsStored context draft m b node h in
      let (intent_id, account_id) =
        active_context-ids host node context.intent.record_id context.account.id m.now s.fresh
          s.active in
      let (payment, intent, account) = draft_binding-row host draft s.fresh m.now b s.drafted in
      let (review, reviewed, own, ahead) =
        draft_binding-execution_review host draft s.fresh m.now b ids s.drafted in
      let (d, named) = review_named b review own s.fresh draft.payment reviewed in
      let valid : host.protocol.is_sha256_id b.review_id ≡ true = rw (sym named) (ids d) in
      let row : payment_of b.payment_id node.pay.payments ≡ some draft.payment = rw payment s.row in
      let active : active_context host node b.intent_record_id b.account_id m.now ≡ ok s.fresh =
        rw (intent ∙ intent_id, account ∙ account_id) s.active in
      let asked : text_eq review.review_id b.review_id ≡ true =
        (text_eq_iff review.review_id b.review_id).1 own in
      let bound = s.bound in
      let timed = s.timed in
      (
        record { binding = b; payment = draft.payment; context = s.fresh; review = review },
        rw (valid, bound, row, quoted, timed, active, reviewed, asked, ahead) refl,
        refl,
        refl,
      )
    where
      review_named :
          (b : Binding) (review : ExecutionReview)
          → review.review_id ≡ b.review_id
          → (fresh : ExecutionContext) (p : Payment) → execution_review host b p fresh ≡ ok review
          → (d : ReviewDigest) × (host.review_sha256_id d ≡ b.review_id)
      review_named b review own fresh p h =
          let (_, hashed, same) = execution_review-digest host b p fresh review h in
          (review.digest, sym hashed ∙ same)
