-- ===== src/BitcoinPayLink/Granted.antt =====
-- Progress: what the first stretch of `confirm` in sovereign/src/pay/bitcoin-pay-link.ts finds ready,
-- the claim of sovereign/src/pay.ts grants at the same instant.
use cashloom.Prelude.{
  ◌≡◌, refl, ◌∙◌, ap, true, false, some, List, Text, text_eq, text_eq_iff, text_eq_refl, ok, count,
  update, arith,
}
use cashloom.Payments.{Payment}
use cashloom.Pay.{Account, Binding, PaymentSender}
use cashloom.Pay.Accounts.{sender_for_asset, sending_account, timestamp_now}
use cashloom.Pay.Claim.{
  ClaimResult, payment_of, binding_of, check_binding, is_expired, still_quoted, set_confirmed,
  swap_status, assert_bound, claim_fresh, claim_quoted, claim,
}
use cashloom.Records.{V2Record}
use cashloom.BitcoinPayLink.{Moment, Node, ExecutionContext, ConfirmInput, LinkHost}
use cashloom.BitcoinPayLink.Review.{row_matches, check_payload, binding_bytes, validate_commitment}
use cashloom.BitcoinPayLink.Stored.{payment_row}
use cashloom.BitcoinPayLink.Confirm.{
  Ready, Started, start_confirm, commitment_for, assert_claim, bound_claim,
}
use cashloom.BitcoinPayLink.Kept.{review_digest-IsDigest}
use cashloom.BitcoinPayLink.Admitted.{IsReady, start_confirm-IsReady, execution_review-digest}
use cashloom.BitcoinPayLink.Reviewed.{IsReady-id}

module _ (host : LinkHost) where
  ready-assert_claim :
      (m : Moment) (input : ConfirmInput) (r : Ready) (commitment : V2Record)
      → IsReady host m input r
      → commitment_for host m.node r.context ≡ ok (some commitment)
      → validate_commitment host commitment r.context r.binding r.review.digest.confirm_before
          (some m.now)
        ≡ ok tt
      → assert_claim host r m.node m.now ≡ ok tt
  unfolding assert_claim payment_row
  ready-assert_claim m input r commitment ready held valid =
      let active = ready.active in
      let row = ready.row in
      let reviewed = ready.reviewed in
      let ahead = ready.ahead in rw (active, row, reviewed, text_eq_refl, ahead, held) valid

  check_payload-digest :
      (b : Binding)
      → check_payload host b ≡ ok tt
      → text_eq (host.engine.sha256_bytes_id b.unsigned_payload) b.unsigned_payload_hash ≡ true
  unfolding check_payload binding_bytes
  check_payload-digest b h = ground arith

  row_matches-binding :
      (b : Binding) (p : Payment) (context : ExecutionContext)
      → row_matches b p context ≡ true
      → (text_eq context.intent.record_id b.intent_record_id ≡ true)
        × (text_eq b.account_id p.account_id ≡ true)
  unfolding row_matches
  row_matches-binding b p context h = (
    ground (
      arith,
      text_eq_iff b.intent_record_id context.intent.record_id,
      text_eq_iff context.intent.record_id b.intent_record_id,
    ),
    ground (arith, text_eq_iff p.account_id b.account_id, text_eq_iff b.account_id p.account_id),
  )

  ready-check_binding :
      (m : Moment) (input : ConfirmInput) (r : Ready)
      → IsReady host m input r
      → check_binding host.engine r.payment (some r.binding) (some (bound_claim host r m.node))
        ≡ ok tt
  unfolding check_binding bound_claim
  ready-check_binding m input r ready =
      let (digested, _, own) =
        execution_review-digest host r.binding r.payment r.context r.review ready.reviewed in
      let d = review_digest-IsDigest host r.binding r.payment r.context r.review.digest digested in
      let (intent, account) = row_matches-binding r.binding r.payment r.context d.matched in
      let payload = check_payload-digest r.binding d.exact in
      let review = (text_eq_iff r.review.review_id r.binding.review_id).1 own in
      rw (intent, review, text_eq_refl, account, payload) refl

  ready-assert_bound :
      (r : Ready) (node : Node) (at : Text)
      → assert_claim host r node at ≡ ok tt
      → assert_bound r.payment (some r.binding) (some (bound_claim host r node)) at ≡ ok tt
  unfolding bound_claim
  ready-assert_bound r node at h = rw h refl

  -- When a confirmation finds its review ready, the node holds its commitment, the payment rite knows
  -- the account and the sender, and the quote has not expired, then the one-time claim at the same
  -- node and time is won: the row is handed to the sender with its binding, and stands confirmed. The
  -- rows of the payment and of its binding are the only ones of their keys.
  pub claim-granted :
      (m : Moment) (input : ConfirmInput) (r : Ready) (commitment : V2Record) (account : Account)
      (sender : PaymentSender) (senders : List PaymentSender)
      → start_confirm host m input ≡ ok (Started.ready r)
      → commitment_for host m.node r.context ≡ ok (some commitment)
      → validate_commitment host commitment r.context r.binding r.review.digest.confirm_before
          (some m.now)
        ≡ ok tt
      → timestamp_now host.engine m.now ≡ ok m.now
      → sending_account r.payment.account_id m.node.pay ≡ ok account
      → sender_for_asset host.engine r.payment.asset senders ≡ ok sender
      → is_expired host.engine r.payment (some r.binding) m.now ≡ false
      → binding_of r.payment.id m.node.pay ≡ some r.binding
      → count (still_quoted r.payment) m.node.pay.payments ≡ 1
      → claim host.engine r.payment.id
          (record {
            senders = senders;
            now = m.now;
            bound_claim = some (bound_claim host r m.node);
          })
          m.node.pay
        ≡ ok (
          ClaimResult.claimed (record {
            row = r.payment;
            account = account;
            sender = sender;
            expected = some r.binding;
          }),
          record m.node.pay {
            payments = update (still_quoted r.payment) (set_confirmed m.now) m.node.pay.payments;
          },
        )
  unfolding claim claim_quoted claim_fresh swap_status
  claim-granted m input r commitment account sender senders started held valid timed sends sent
        fresh own sole =
      let ready = start_confirm-IsReady host m input r started in
      let (same, _) = IsReady-id host m input r ready in
      let row : payment_of r.payment.id m.node.pay.payments ≡ some r.payment =
        ap (λ id. payment_of id m.node.pay.payments) same ∙ ready.row in
      let quoted = ready.quoted in
      let checked = ready-check_binding m input r ready in
      let asserted =
        ready-assert_bound r m.node m.now
          (ready-assert_claim m input r commitment ready held valid) in
      rw (timed, row, quoted, own, checked, fresh, asserted, sends, sent, sole) refl
