-- ===== src/BitcoinPayLink/Reviewed.antt =====
-- A payment link is paid only as it was reviewed: what the callback of
-- sovereign/src/pay/bitcoin-pay-link.ts has established when sovereign/src/pay.ts wins the claim.
use cashloom.Prelude.{
  ◌≤◌, ◌≡◌, sym, ◌∙◌, ap, subst, true, false, ◌&&◌, Option, none, some, Text, text_eq, text_eq_iff,
  leb→le, &&-elim, find-holds, ok, arith,
}
use cashloom.Payments.{Payment}
use cashloom.Pay.{Binding, PayDb}
use cashloom.Pay.Claim.{ConfirmRuntime, Claimed, ClaimResult, payment_of, claim}
use cashloom.Pay.Status.{payment_of-id}
use cashloom.Pay.Claims.{claim-IsWon}
use cashloom.Records.{V2Record}
use cashloom.BitcoinPayLink.{
  Node, Moment, ExecutionContext, ExecutionReview, ConfirmInput, LinkHost,
}
use cashloom.BitcoinPayLink.Context.{active_context}
use cashloom.BitcoinPayLink.Review.{sats, stored_fee, row_matches, is_over, execution_review}
use cashloom.BitcoinPayLink.Stored.{binding_for_review}
use cashloom.BitcoinPayLink.Confirm.{Ready, Started, start_confirm, commitment_for, bound_claim}
use cashloom.BitcoinPayLink.Kept.{review_digest-IsDigest}
use cashloom.BitcoinPayLink.Admitted.{
  IsCommitted, execution_review-digest, IsReady, start_confirm-IsReady, asserted-IsAdmitted,
}

stored_fee-some :
    (fee_minor : Option Text) (fee : Text) → stored_fee fee_minor ≡ ok fee → fee_minor ≡ some fee
unfolding stored_fee
stored_fee-some none fee h = cc
stored_fee-some (some x) fee h = ground arith

row_matches-terms :
    (b : Binding) (p : Payment) (context : ExecutionContext)
    → row_matches b p context ≡ true
    → (p.to_addr ≡ context.terms.destination)
      × (p.amount_minor ≡ context.terms.amount_atomic)
      × (p.account_id ≡ b.account_id)
unfolding row_matches
row_matches-terms b p context h = (
  ground (arith, text_eq_iff p.to_addr context.terms.destination),
  ground (arith, text_eq_iff p.amount_minor context.terms.amount_atomic),
  ground (arith, text_eq_iff p.account_id b.account_id),
)

-- A row that passes its review pays what the intent signs, for a fee within the signed limit.
pub record PaysTerms (p : Payment) (context : ExecutionContext) : Type 0 where
  pub destination : p.to_addr ≡ context.terms.destination
  pub amount : p.amount_minor ≡ context.terms.amount_atomic
  pub fee : Text
  pub priced : p.fee_minor ≡ some fee
  pub affordable : sats fee ≤ sats context.terms.max_fee_atomic

module _ (host : LinkHost) where
  execution_review-PaysTerms :
      (b : Binding) (p : Payment) (context : ExecutionContext) (review : ExecutionReview)
      → execution_review host b p context ≡ ok review
      → PaysTerms p context
  execution_review-PaysTerms b p context review h =
      let (digested, _, _) = execution_review-digest host b p context review h in
      let d = review_digest-IsDigest host b p context review.digest digested in
      let (destination, amount, _) = row_matches-terms b p context d.matched in
      record {
        destination = destination;
        amount = amount;
        fee = d.fee;
        priced = stored_fee-some p.fee_minor d.fee d.priced;
        affordable = leb→le _ _ d.affordable;
      }

  pub IsReady-id :
      (m : Moment) (input : ConfirmInput) (r : Ready)
      → IsReady host m input r
      → (r.payment.id ≡ r.binding.payment_id) × (r.payment.id ≡ input.payment_id)
  unfolding binding_for_review
  IsReady-id m input r h =
      let b = r.binding in
      let own = payment_of-id b.payment_id m.node.pay.payments r.payment h.row in
      let (asked, _) = &&-elim _ _ (
        find-holds
          (λ (x : Binding).
            text_eq x.payment_id input.payment_id && text_eq x.review_id input.review_id)
          m.node.pay.bindings b h.bound) in
      (own, own ∙ (text_eq_iff b.payment_id input.payment_id).0 asked)

  -- When a confirmation that found its review ready wins the one-time claim of its payment, whatever
  -- the node has become since, the row that is handed to the sender is the asked payment's; in the
  -- context that is active at the time of the claim it pays the destination and the amount that the
  -- intent signs, for a fee within the signed limit; its review has the id that was asked for and a
  -- deadline that is still ahead; and the node holds the execution commitment of this binding.
  pub claim-reviewed :
      (m : Moment) (input : ConfirmInput) (r : Ready) (node : Node) (runtime : ConfirmRuntime)
      (c : Claimed) (db' : PayDb)
      → start_confirm host m input ≡ ok (Started.ready r)
      → runtime.bound_claim ≡ some (bound_claim host r node)
      → claim host.engine r.payment.id runtime node.pay ≡ ok (ClaimResult.claimed c, db')
      → (c.row.id ≡ input.payment_id)
        × (context : ExecutionContext) × (review : ExecutionReview) × (commitment : V2Record)
        × (active_context host node r.binding.intent_record_id r.binding.account_id runtime.now
            ≡ ok context)
        × PaysTerms c.row context
        × (execution_review host r.binding c.row context ≡ ok review)
        × (review.review_id ≡ input.review_id)
        × (is_over host runtime.now review.digest.confirm_before ≡ false)
        × (commitment_for host node context ≡ ok (some commitment))
        × IsCommitted host r.binding review.digest.confirm_before commitment
  claim-reviewed m input r node runtime c db' started bound won =
      let ready = start_confirm-IsReady host m input r started in
      let (own, asked) = IsReady-id m input r ready in
      let w = claim-IsWon host.engine r.payment.id runtime node.pay c db' won in
      let (b, _, a) =
        asserted-IsAdmitted host c.row c.expected r node runtime.now (rw bound at w.bound)
          (rw bound at w.asserted) in
      let same : a.payment ≡ c.row =
        some-injective (sym a.row)
          (ap (λ id. payment_of id node.pay.payments) (sym own) ∙ w.found) in
      let reviewed =
        subst (λ p. execution_review host r.binding p a.fresh ≡ ok a.review) same a.reviewed in
      (
        payment_of-id r.payment.id node.pay.payments c.row w.found ∙ asked,
        a.fresh,
        a.review,
        a.commitment,
        a.active,
        execution_review-PaysTerms r.binding c.row a.fresh a.review reviewed,
        reviewed,
        a.same_review ∙ ready.asked,
        a.ahead,
        a.held,
        a.committed,
      )
    where
      some-injective : {o : Option Payment} {x y : Payment} → some x ≡ o → o ≡ some y → x ≡ y
      some-injective h k = cc
