-- ===== src/BitcoinPayLink/Admitted.antt =====
-- What the two looks of `confirm` in sovereign/src/pay/bitcoin-pay-link.ts have established: the first,
-- and the callback of the one-time claim.
use cashloom.Prelude.{
  ◌≡◌, ◌≢◌, refl, ◌∙◌, ap, subst, true, false, ◌&&◌, not, inl, inr, Option, none, some, Text,
  text_eq, text_eq_iff, Bool-cases, &&-elim, ok, map_err, non_null, bind-eq-ok, require-eq-ok,
  non_null-eq-ok, ok-injective, Result-cases, arith,
}
use cashloom.Payments.{Payment}
use cashloom.Pay.{Binding}
use cashloom.Pay.Claim.{payment_of, check_binding, assert_bound}
use cashloom.Records.{ExecutionCommitment, V2Record}
use cashloom.BitcoinPayLink.{
  LinkCode, LinkError, Node, Moment, ExecutionContext, ExecutionReview, ExecutionResult,
  ConfirmInput, LinkHost,
}
use cashloom.BitcoinPayLink.Asserts.{
  link_error, storage_failure, assert_id, assert_timestamp, verify_at, verify_link,
}
use cashloom.BitcoinPayLink.Context.{active_context}
use cashloom.BitcoinPayLink.Review.{
  is_over, review_digest, execution_review, as_commitment, validate_commitment,
}
use cashloom.BitcoinPayLink.Stored.{payment_row, binding_for_review, is_quoted}
use cashloom.BitcoinPayLink.Confirm.{
  Ready, Started, make_ready, start_confirm, commitment_for, assert_claim, bound_claim,
  durable_outcome,
}

settled≢ready : (x : ExecutionResult) (r : Ready) → Started.settled x ≢ Started.ready r
settled≢ready x r e = cc

module _ (host : LinkHost) where
  -- A commitment that is the binding's own, with the review's deadline for its expiry.
  pub record IsCommitted (b : Binding) (confirm_before : Text) (commitment : V2Record)
      : Type 0 where
    pub body : ExecutionCommitment
    pub of_record : as_commitment commitment.body ≡ ok body
    pub reservation : body.reservation_id ≡ b.reservation_id
    pub payload : body.unsigned_payload_hash ≡ b.unsigned_payload_hash
    pub deadline : commitment.expires_at ≡ confirm_before

  validate_commitment-IsCommitted :
      (commitment : V2Record) (context : ExecutionContext) (b : Binding) (deadline : Text)
      (now : Option Text)
      → validate_commitment host commitment context b deadline now ≡ ok tt
      → IsCommitted b deadline commitment
  unfolding validate_commitment
  validate_commitment-IsCommitted commitment context b deadline now h =
      let (v, _, h1) =
        bind-eq-ok (map_err LinkError.protocol (verify_at host commitment now)) _ h in
      let (u, _, h2) =
        bind-eq-ok (map_err LinkError.protocol (verify_link host commitment context.intent)) _ h1 in
      let (body, typed, h3) = bind-eq-ok (as_commitment commitment.body) _ h2 in
      record {
        body = body;
        of_record = typed;
        reservation = ground (arith, text_eq_iff body.reservation_id b.reservation_id);
        payload = ground (arith, text_eq_iff body.unsigned_payload_hash b.unsigned_payload_hash);
        deadline = ground (arith, text_eq_iff commitment.expires_at deadline);
      }

  pub execution_review-digest :
      (b : Binding) (p : Payment) (context : ExecutionContext) (review : ExecutionReview)
      → execution_review host b p context ≡ ok review
      → (review_digest host b p context ≡ ok review.digest)
        × (review.review_id ≡ host.review_sha256_id review.digest)
        × (review.review_id ≡ b.review_id)
  unfolding execution_review
  execution_review-digest b p context review h =
      let (d, digested, h1) = bind-eq-ok (review_digest host b p context) _ h in
      let (own, h2) = require-eq-ok (text_eq (host.review_sha256_id d) b.review_id) _ _ h1 in
      let same = ok-injective refl h2 in
      let id = (text_eq_iff (host.review_sha256_id d) b.review_id).0 own in
      (
        subst (λ (x : ExecutionReview). review_digest host b p context ≡ ok x.digest) same digested,
        subst (λ (x : ExecutionReview). x.review_id ≡ host.review_sha256_id x.digest) same refl,
        subst (λ (x : ExecutionReview). x.review_id ≡ b.review_id) same id,
      )

  -- What the first stretch of `confirm` has established about a quoted payment.
  pub record IsReady (m : Moment) (input : ConfirmInput) (r : Ready) : Type 0 where
    pub bound : binding_for_review input.payment_id input.review_id m.node ≡ some r.binding
    pub row : payment_of r.binding.payment_id m.node.pay.payments ≡ some r.payment
    pub quoted : is_quoted r.payment ≡ true
    pub active :
        active_context host m.node r.binding.intent_record_id r.binding.account_id m.now
        ≡ ok r.context
    pub reviewed : execution_review host r.binding r.payment r.context ≡ ok r.review
    pub asked : r.review.review_id ≡ input.review_id
    pub ahead : is_over host m.now r.review.digest.confirm_before ≡ false

  make_ready-IsReady :
      (m : Moment) (input : ConfirmInput) (b : Binding) (p : Payment) (r : Ready)
      → binding_for_review input.payment_id input.review_id m.node ≡ some b
      → payment_of b.payment_id m.node.pay.payments ≡ some p
      → is_quoted p ≡ true
      → make_ready host m input b p ≡ ok (Started.ready r)
      → IsReady m input r
  unfolding make_ready
  make_ready-IsReady m input b p r bound row quoted h =
      let (u, timed, h1) = bind-eq-ok (assert_timestamp host m.now) _ h in
      let (context, active, h2) =
        bind-eq-ok (active_context host m.node b.intent_record_id b.account_id m.now) _ h1 in
      let (review, reviewed, h3) = bind-eq-ok (execution_review host b p context) _ h2 in
      let (asked, h4) = require-eq-ok (text_eq review.review_id input.review_id) _ _ h3 in
      let (ahead, h5) =
        require-eq-ok (not (is_over host m.now review.digest.confirm_before)) _ _ h4 in
      let made : Ready = record { binding = b; payment = p; context = context; review = review } in
      let same : made ≡ r = ready-injective made r (ok-injective refl h5) in
      subst (IsReady m input) same (record {
        bound = bound;
        row = row;
        quoted = quoted;
        active = active;
        reviewed = reviewed;
        asked = (text_eq_iff review.review_id input.review_id).0 asked;
        ahead = ground arith;
      })
    where
      ready-injective : (a b : Ready) → Started.ready a ≡ Started.ready b → a ≡ b
      ready-injective a b e = cc

  pub start_confirm-IsReady :
      (m : Moment) (input : ConfirmInput) (r : Ready)
      → start_confirm host m input ≡ ok (Started.ready r)
      → IsReady m input r
  unfolding start_confirm payment_row
  start_confirm-IsReady m input r h =
      let (u, valid, h1) = bind-eq-ok (assert_id host input.review_id) _ h in
      let found = binding_for_review input.payment_id input.review_id m.node in
      let (b, bound, h2) =
        bind-eq-ok (non_null (link_error LinkCode.payment_not_ready) found) _ h1 in
      let (p, row, h3) = bind-eq-ok (payment_row b.payment_id m.node) _ h2 in
      elim (Bool-cases (is_quoted p)) [
        | inl q ↦
            make_ready-IsReady m input b p r (non_null-eq-ok _ _ bound) (non_null-eq-ok _ _ row) q
              (rw q at h3)
        | inr q ↦
            (let (result, _, h4) =
                bind-eq-ok (durable_outcome host m.node b p b.review_id) _ (rw q at h3) in
              absurd (settled≢ready result r (ok-injective refl h4)))
      ]

  -- What the callback has established at the node and the time of the claim.
  pub record IsAdmitted (r : Ready) (node : Node) (at : Text) : Type 0 where
    pub fresh : ExecutionContext
    pub payment : Payment
    pub review : ExecutionReview
    pub commitment : V2Record
    pub active :
        active_context host node r.binding.intent_record_id r.binding.account_id at ≡ ok fresh
    pub row : payment_of r.binding.payment_id node.pay.payments ≡ some payment
    pub reviewed : execution_review host r.binding payment fresh ≡ ok review
    pub same_review : review.review_id ≡ r.review.review_id
    pub ahead : is_over host at review.digest.confirm_before ≡ false
    pub held : commitment_for host node fresh ≡ ok (some commitment)
    pub committed : IsCommitted r.binding review.digest.confirm_before commitment

  assert_claim-IsAdmitted :
      (r : Ready) (node : Node) (at : Text)
      → assert_claim host r node at ≡ ok tt
      → IsAdmitted r node at
  unfolding assert_claim payment_row
  assert_claim-IsAdmitted r node at h =
      let b = r.binding in
      let (fresh, active, h1) =
        bind-eq-ok (active_context host node b.intent_record_id b.account_id at) _ h in
      let (p, row, h2) = bind-eq-ok (payment_row b.payment_id node) _ h1 in
      let (review, reviewed, h3) = bind-eq-ok (execution_review host b p fresh) _ h2 in
      let (passed, h4) =
        require-eq-ok
          (text_eq review.review_id r.review.review_id
            && not (is_over host at review.digest.confirm_before))
          _ _ h3 in
      let (same, ahead) = &&-elim _ _ passed in
      let (held, found, h5) = bind-eq-ok (commitment_for host node fresh) _ h4 in
      let (commitment, some_held, h6) = bind-eq-ok (non_null storage_failure held) _ h5 in
      record {
        fresh = fresh;
        payment = p;
        review = review;
        commitment = commitment;
        active = active;
        row = non_null-eq-ok _ _ row;
        reviewed = reviewed;
        same_review = (text_eq_iff review.review_id r.review.review_id).0 same;
        ahead = ground arith;
        held = found ∙ ap ok (non_null-eq-ok _ _ some_held);
        committed =
            validate_commitment-IsCommitted commitment fresh b review.digest.confirm_before
              (some at) h6;
      }

  -- The rite has run the callback, and it returned.
  pub asserted-IsAdmitted :
      (row : Payment) (expected : Option Binding) (r : Ready) (node : Node) (at : Text)
      → check_binding host.engine row expected (some (bound_claim host r node)) ≡ ok tt
      → assert_bound row expected (some (bound_claim host r node)) at ≡ ok tt
      → (b : Binding) × (expected ≡ some b) × IsAdmitted r node at
  unfolding check_binding bound_claim
  asserted-IsAdmitted row none r node at checked asserted = absurd (ground arith)
  asserted-IsAdmitted row (some b) r node at checked asserted = (
    b,
    refl,
    elim (Result-cases (assert_claim host r node at)) [
      | inl (u, e) ↦ assert_claim-IsAdmitted r node at e
      | inr (x, e) ↦ absurd (ground arith)
    ],
  )
