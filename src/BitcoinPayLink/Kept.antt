-- ===== src/BitcoinPayLink/Kept.antt =====
-- What `prepare` of sovereign/src/pay/bitcoin-pay-link.ts stores, and that its own checks accept it.
use cashloom.Prelude.{
  ℕ, ◌≡◌, refl, sym, ◌∙◌, ap, true, false, not, List, Text, text_eq, text_eq_refl, text_eq_iff, leb,
  ok, bind-eq-ok, require-eq-ok, ok-injective, map_err, non_null, arith,
}
use cashloom.Payments.{Payment}
use cashloom.Pay.{Binding}
use cashloom.Pay.Quote.{PaymentQuoteDraft}
use cashloom.BitcoinPayLink.{ExecutionContext, ReviewDigest, ExecutionReview, LinkHost}
use cashloom.BitcoinPayLink.Asserts.{assert_id, assert_timestamp}
use cashloom.BitcoinPayLink.Review.{
  check_identifiers, check_payload, row_matches, stored_fee, sats, digest_of, review_digest,
  execution_review, unreviewed, draft_binding, draft_matches, is_over, earlier_timestamp,
}

row_matches-keys :
    (b : Binding) (p : Payment) (context : ExecutionContext)
    → row_matches b p context ≡ true
    → (b.payment_id ≡ p.id)
      × (b.intent_record_id ≡ context.intent.record_id)
      × (b.account_id ≡ context.account.id)
unfolding row_matches
row_matches-keys b p context h = (
  ground (arith, text_eq_iff p.id b.payment_id),
  ground (arith, text_eq_iff b.intent_record_id context.intent.record_id),
  ground
      (arith, text_eq_iff p.account_id b.account_id, text_eq_iff p.account_id context.account.id),
)

module _ (host : LinkHost) where
  -- What the digest of a review is made of.
  pub record IsDigest (b : Binding) (p : Payment) (context : ExecutionContext) (d : ReviewDigest)
      : Type 0 where
    pub matched : row_matches b p context ≡ true
    pub fee : Text
    pub priced : stored_fee p.fee_minor ≡ ok fee
    pub exact : check_payload host b ≡ ok tt
    pub affordable : leb (sats fee) (sats context.terms.max_fee_atomic) ≡ true
    pub made : d ≡ digest_of host b p context fee

  pub review_digest-IsDigest :
      (b : Binding) (p : Payment) (context : ExecutionContext) (d : ReviewDigest)
      → review_digest host b p context ≡ ok d
      → IsDigest b p context d
  unfolding review_digest
  review_digest-IsDigest b p context d h =
      let (matched, h1) = require-eq-ok (row_matches b p context) _ _ h in
      let (fee, priced, h2) = bind-eq-ok (stored_fee p.fee_minor) _ h1 in
      let (u1, quote, h3) = bind-eq-ok (assert_timestamp host b.quote_expires_at) _ h2 in
      let (u2, made, h4) = bind-eq-ok (assert_timestamp host b.created_at) _ h3 in
      let (u3, ids, h5) = bind-eq-ok (check_identifiers host b) _ h4 in
      let (u4, exact, h6) = bind-eq-ok (check_payload host b) _ h5 in
      let (affordable, h7) =
        require-eq-ok (leb (sats fee) (sats context.terms.max_fee_atomic)) _ _ h6 in
      record {
        matched = matched;
        fee = fee;
        priced = priced;
        exact = exact;
        affordable = affordable;
        made = sym (ok-injective refl h7);
      }

  -- A binding whose review id is replaced by another content id has the same digest.
  module _ (b : Binding) (id : Text) (valid : host.protocol.is_sha256_id id ≡ true) where
    check_identifiers-renamed :
        check_identifiers host b ≡ ok tt
        → check_identifiers host (record b { review_id = id }) ≡ ok tt
    unfolding check_identifiers assert_id
    check_identifiers-renamed h =
        let (u1, intent, h1) = bind-eq-ok (assert_id host b.intent_record_id) _ h in
        let (u2, review, h2) = bind-eq-ok (assert_id host b.review_id) _ h1 in
        let named : assert_id host id ≡ ok tt = rw (assert_id, valid) refl in rw (intent, named) h2

    row_matches-renamed :
        (p : Payment) (context : ExecutionContext)
        → row_matches (record b { review_id = id }) p context ≡ row_matches b p context
    unfolding row_matches
    row_matches-renamed p context = refl

    check_payload-renamed : check_payload host (record b { review_id = id }) ≡ check_payload host b
    unfolding check_payload
    check_payload-renamed = refl

    digest_of-renamed :
        (p : Payment) (context : ExecutionContext) (fee : Text)
        → digest_of host (record b { review_id = id }) p context fee
          ≡ digest_of host b p context fee
    unfolding digest_of
    digest_of-renamed p context fee = refl

    review_digest-renamed :
        (p : Payment) (context : ExecutionContext) (d : ReviewDigest)
        → review_digest host b p context ≡ ok d
        → review_digest host (record b { review_id = id }) p context ≡ ok d
    unfolding review_digest
    review_digest-renamed p context d h =
        let (matched, h1) = require-eq-ok (row_matches b p context) _ _ h in
        let (fee, priced, h2) = bind-eq-ok (stored_fee p.fee_minor) _ h1 in
        let (u1, quote, h3) = bind-eq-ok (assert_timestamp host b.quote_expires_at) _ h2 in
        let (u2, made, h4) = bind-eq-ok (assert_timestamp host b.created_at) _ h3 in
        let (u3, ids, h5) = bind-eq-ok (check_identifiers host b) _ h4 in
        let named = check_identifiers-renamed ids in
        rw
          (
            row_matches-renamed, matched, priced, quote, made, named, check_payload-renamed,
            digest_of-renamed,
          )
          h5

  unreviewed-deadline :
      (draft : PaymentQuoteDraft) (context : ExecutionContext) (payload : List ℕ) (hash fee : Text)
      (d : ReviewDigest)
      → d ≡ digest_of host (unreviewed host draft context payload hash) draft.payment context fee
      → d.confirm_before ≡ earlier_timestamp host draft.expires_at context.intent.expires_at
  unfolding digest_of unreviewed
  unreviewed-deadline draft context payload hash fee d made =
      ap (λ (x : ReviewDigest). x.confirm_before) made

  unreviewed-review :
      (draft : PaymentQuoteDraft) (context : ExecutionContext) (now : Text) (b : Binding)
      → draft_binding host draft context now ≡ ok b
      → (blank : Binding) × (d : ReviewDigest) × (review_digest host blank draft.payment context
          ≡ ok d)
        × (b ≡ record blank { review_id = host.review_sha256_id d })
        × (is_over host now d.confirm_before ≡ false)
  unfolding draft_binding
  unreviewed-review draft context now b h =
      let (matched, h1) = require-eq-ok (draft_matches draft context) _ _ h in
      let (fee, priced, h2) = bind-eq-ok (map_err _ (stored_fee draft.payment.fee_minor)) _ h1 in
      let (payload, has_payload, h3) = bind-eq-ok (non_null _ draft.unsigned_payload) _ h2 in
      let (hash, has_hash, h4) = bind-eq-ok (non_null _ draft.unsigned_payload_hash) _ h3 in
      let (exact, h5) = require-eq-ok (text_eq (host.engine.sha256_bytes_id payload) hash) _ _ h4 in
      let (affordable, h6) =
        require-eq-ok (leb (sats fee) (sats context.terms.max_fee_atomic)) _ _ h5 in
      let before = earlier_timestamp host draft.expires_at context.intent.expires_at in
      let (timely, h7) = require-eq-ok (not (is_over host now before)) _ _ h6 in
      let blank = unreviewed host draft context payload hash in
      let (d, digested, h8) = bind-eq-ok (review_digest host blank draft.payment context) _ h7 in
      let made = (review_digest-IsDigest blank draft.payment context d digested).made in
      let deadline : d.confirm_before ≡ before =
        unreviewed-deadline draft context payload hash _ d made in
      (blank, d, digested, sym (ok-injective refl h8), rw deadline (ground arith))

  -- A binding that is made of a draft passes the review of the row that is stored beside it, in the
  -- same context, with its own review id and a deadline that is still ahead, if what the digest
  -- function gives are content ids.
  pub draft_binding-execution_review :
      (draft : PaymentQuoteDraft) (context : ExecutionContext) (now : Text) (b : Binding)
      → ((d : ReviewDigest) → host.protocol.is_sha256_id (host.review_sha256_id d) ≡ true)
      → draft_binding host draft context now ≡ ok b
      → (review : ExecutionReview) × (execution_review host b draft.payment context ≡ ok review)
        × (review.review_id ≡ b.review_id)
        × (is_over host now review.digest.confirm_before ≡ false)
  unfolding execution_review
  draft_binding-execution_review draft context now b ids h =
      let (blank, d, digested, named, ahead) = unreviewed-review draft context now b h in
      let id = host.review_sha256_id d in
      let again = review_digest-renamed blank id (ids d) draft.payment context d digested in
      let review : ExecutionReview = record {
        review_id = id;
        digest = d;
        account_label = context.account.display_name;
      } in
      (
        review,
        rw named (rw (again, text_eq_refl id) refl),
        ap (λ (x : Binding). x.review_id) (sym named),
        ahead,
      )

  -- Whose binding a draft becomes.
  pub draft_binding-row :
      (draft : PaymentQuoteDraft) (context : ExecutionContext) (now : Text) (b : Binding)
      → draft_binding host draft context now ≡ ok b
      → (b.payment_id ≡ draft.payment.id)
        × (b.intent_record_id ≡ context.intent.record_id)
        × (b.account_id ≡ context.account.id)
  draft_binding-row draft context now b h =
      let (blank, d, digested, named, _) = unreviewed-review draft context now b h in
      let (payment, intent, account) =
        row_matches-keys blank draft.payment context
          (review_digest-IsDigest blank draft.payment context d digested).matched in
      (
        ap (λ (x : Binding). x.payment_id) named ∙ payment,
        ap (λ (x : Binding). x.intent_record_id) named ∙ intent,
        ap (λ (x : Binding). x.account_id) named ∙ account,
      )
