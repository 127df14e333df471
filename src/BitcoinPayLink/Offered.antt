-- ===== src/BitcoinPayLink/Offered.antt =====
-- `status` and `confirm` of sovereign/src/pay/bitcoin-pay-link.ts agree, and what `status` offers the
-- one-time claim of sovereign/src/pay.ts grants.
use cashloom.Prelude.{
  ◌≡◌, ◌≢◌, ◌↔◌, refl, sym, ◌∙◌, ap, true, false, ◌&&◌, inl, inr, Option, some, Text, text_eq,
  text_eq_iff, Bool-cases, find-holds, &&-elim, Result, ok, err, non_null, bind-eq-ok,
  non_null-eq-ok, ok-injective, arith,
}
use cashloom.Payments.{Payment}
use cashloom.Pay.{Binding}
use cashloom.BitcoinPayLink.{
  LinkCode, LinkError, Node, Moment, ExecutionContext, ExecutionReview, SnapshotStatus,
  SnapshotNote, ExecutionSnapshot, ConfirmInput, LinkHost,
}
use cashloom.BitcoinPayLink.Asserts.{link_error, assert_id, assert_timestamp}
use cashloom.BitcoinPayLink.Context.{active_context}
use cashloom.BitcoinPayLink.Review.{is_over, execution_review}
use cashloom.BitcoinPayLink.Stored.{
  payment_row, binding_for_review, is_quoted, assert_historical_execution,
}
use cashloom.BitcoinPayLink.Confirm.{Ready, Started, make_ready, start_confirm}
use cashloom.BitcoinPayLink.Status.{unclaimed, offer, status, told, snapshot_from_result}
use cashloom.BitcoinPayLink.Admitted.{IsReady, start_confirm-IsReady, execution_review-digest}

-- An offer is not one of the errors that the `catch` tells.
told-offers :
    (b : Binding) (p : Payment) (r : Result LinkError ExecutionSnapshot) (s : ExecutionSnapshot)
    → told b p r ≡ ok s
    → s.can_confirm ≡ true
    → r ≡ ok s
unfolding unclaimed
told-offers b p (ok x) s h can = h
told-offers b p (err e) s h can = ground arith

module _ (host : LinkHost) where
  -- A snapshot that offers a confirmation has found a review whose deadline is ahead.
  offer-ahead :
      (m : Moment) (b : Binding) (p : Payment) (s : ExecutionSnapshot)
      → told b p (offer host m b p) ≡ ok s
      → s.can_confirm ≡ true
      → (context : ExecutionContext) × (review : ExecutionReview) × (active_context host m.node
            b.intent_record_id b.account_id m.now
          ≡ ok context)
        × (execution_review host b p context ≡ ok review)
        × (is_over host m.now review.digest.confirm_before ≡ false)
  unfolding offer unclaimed
  offer-ahead m b p s h can =
      let (context, active, h1) =
        bind-eq-ok (active_context host m.node b.intent_record_id b.account_id m.now) _
          (told-offers b p _ s h can) in
      let (review, reviewed, h2) = bind-eq-ok (execution_review host b p context) _ h1 in
      (
        context,
        review,
        active,
        reviewed,
        elim (Bool-cases (is_over host m.now review.digest.confirm_before)) [
          | inl over ↦ absurd (
              late (unclaimed b p SnapshotStatus.not_sent (some SnapshotNote.review_expired))
                (ok-injective refl (rw over at h2)) refl)
          | inr ahead ↦ ahead
        ],
      )
    where
      late : (x : ExecutionSnapshot) → x ≡ s → x.can_confirm ≢ false
      late x e f = cc

  -- The parts of a status that is told.
  record IsLook (m : Moment) (input : ConfirmInput) (s : ExecutionSnapshot) : Type 0 where
    binding : Binding
    payment : Payment
    valid : assert_id host input.review_id ≡ ok tt
    bound : binding_for_review input.payment_id input.review_id m.node ≡ some binding
    row : payment_row binding.payment_id m.node ≡ ok payment
    claimed : is_quoted payment ≡ false → s.can_confirm ≡ false
    quoted :
        is_quoted payment ≡ true
        → (assert_timestamp host m.now ≡ ok tt)
          × (told binding payment (offer host m binding payment) ≡ ok s)

  status-IsLook :
      (m : Moment) (input : ConfirmInput) (s : ExecutionSnapshot)
      → status host m input ≡ ok s
      → IsLook m input s
  unfolding status snapshot_from_result
  status-IsLook m input s h =
      let (u, valid, h1) = bind-eq-ok (assert_id host input.review_id) _ h in
      let found = binding_for_review input.payment_id input.review_id m.node in
      let (b, bound, h2) =
        bind-eq-ok (non_null (link_error LinkCode.payment_not_ready) found) _ h1 in
      let (p, row, h3) = bind-eq-ok (payment_row b.payment_id m.node) _ h2 in
      let (v, kept, h4) = bind-eq-ok (assert_historical_execution host m.node b p) _ h3 in
      record {
        binding = b;
        payment = p;
        valid = valid;
        bound = non_null-eq-ok _ _ bound;
        row = row;
        claimed = λ no_quote.
            ap (λ (x : ExecutionSnapshot). x.can_confirm)
              (sym (ok-injective refl (rw no_quote at h4)));
        quoted = λ q.
            let (w, timed, h5) = bind-eq-ok (assert_timestamp host m.now) _ (rw q at h4) in
            (timed, h5);
      }

  binding_for_review-review :
      (payment_id review_id : Text) (node : Node) (b : Binding)
      → binding_for_review payment_id review_id node ≡ some b
      → b.review_id ≡ review_id
  unfolding binding_for_review
  binding_for_review-review payment_id review_id node b h =
      let (_, same) = &&-elim _ _ (
        find-holds
          (λ (x : Binding). text_eq x.payment_id payment_id && text_eq x.review_id review_id)
          node.pay.bindings b h) in
      (text_eq_iff b.review_id review_id).0 same

  IsLook-ready :
      (m : Moment) (input : ConfirmInput) (s : ExecutionSnapshot)
      → IsLook m input s
      → s.can_confirm ≡ true
      → (r : Ready) × (start_confirm host m input ≡ ok (Started.ready r))
  unfolding start_confirm make_ready
  IsLook-ready m input s look can =
      let b = look.binding in
      let p = look.payment in
      elim (Bool-cases (is_quoted p)) [
        | inl q ↦
            (let (timed, offered) = look.quoted q in
              let (context, review, active, reviewed, ahead) = offer-ahead m b p s offered can in
              let r : Ready = record {
                binding = b;
                payment = p;
                context = context;
                review = review;
              } in
              let (_, _, own) = execution_review-digest host b p context review reviewed in
              let same : text_eq review.review_id input.review_id ≡ true =
                (text_eq_iff review.review_id input.review_id).1 (
                  own
                  ∙ binding_for_review-review input.payment_id input.review_id m.node b
                      look.bound) in
              let valid = look.valid in
              let bound = look.bound in
              let row = look.row in
              (r, rw (valid, bound, row, q, timed, active, reviewed, same, ahead) refl))
        | inr claimed ↦ (let shut = look.claimed claimed in absurd (ground arith))
      ]

  IsLook-can :
      (m : Moment) (input : ConfirmInput) (s : ExecutionSnapshot) (r : Ready)
      → IsLook m input s
      → IsReady host m input r
      → s.can_confirm ≡ true
  unfolding payment_row offer unclaimed
  IsLook-can m input s r look ready =
      let bound : look.binding ≡ r.binding = some-injective look.bound ready.bound in
      let row : look.payment ≡ r.payment =
        some-injective (non_null-eq-ok _ _ (rw bound at look.row)) ready.row in
      let (timed, offered) = look.quoted (rw row ready.quoted) in
      let active = ready.active in
      let reviewed = ready.reviewed in
      let ahead = ready.ahead in
      ap (λ (x : ExecutionSnapshot). x.can_confirm)
        (sym (ok-injective refl (rw (bound, row, active, reviewed, ahead) at offered)))
    where
      some-injective : {A : Type 0} {o : Option A} {x y : A} → o ≡ some x → o ≡ some y → x ≡ y
      some-injective h k = cc

  -- A status that is told offers a confirmation exactly when the first stretch of `confirm`, for the
  -- same payment and review at the same node and time, finds the review ready.
  pub status-start_confirm :
      (m : Moment) (input : ConfirmInput) (s : ExecutionSnapshot)
      → status host m input ≡ ok s
      → (s.can_confirm ≡ true) ↔ ((r : Ready) × (start_confirm host m input ≡ ok (Started.ready r)))
  status-start_confirm m input s h =
      let look = status-IsLook m input s h in
      (
        IsLook-ready m input s look,
        λ (r, started). IsLook-can m input s r look (start_confirm-IsReady host m input r started),
      )
