-- ===== src/BitcoinPayLink/Status.antt =====
-- `status` of sovereign/src/pay/bitcoin-pay-link.ts: one point-in-time look at a payment.
use cashloom.Prelude.{
  true, false, Option, none, some, Text, Result, ok, err, ◌>>=◌, ◌>>◌, non_null, if◌then◌else◌,
}
use cashloom.Payments.{Payment}
use cashloom.Pay.{Binding}
use cashloom.BitcoinPayLink.{
  LinkCode, LinkError, Moment, ExecutionResult, SnapshotStatus, SnapshotNote, OutcomeNote,
  ExecutionSnapshot, ConfirmInput, LinkHost,
}
use cashloom.BitcoinPayLink.Asserts.{link_error, storage_failure, assert_id, assert_timestamp}
use cashloom.BitcoinPayLink.Context.{active_context}
use cashloom.BitcoinPayLink.Review.{is_over, execution_review}
use cashloom.BitcoinPayLink.Stored.{
  payment_row, binding_for_review, is_quoted, result_from_payment, assert_historical_execution,
}

abbrev note_of : Option OutcomeNote → Option SnapshotNote
note_of none = none
note_of (some n) = some (SnapshotNote.of_outcome n)

unfoldable pub snapshot_from_result : ExecutionResult → Text → ExecutionSnapshot
snapshot_from_result result intent_record_id = record {
  payment_id = result.payment_id;
  review_id = result.review_id;
  intent_record_id = intent_record_id;
  status = SnapshotStatus.outcome result.status;
  can_confirm = false;
  tx_hash = result.tx_hash;
  error = note_of result.error;
}

-- A payment that nothing has claimed.
unfoldable pub unclaimed :
    Binding → Payment → SnapshotStatus → Option SnapshotNote → ExecutionSnapshot
unclaimed b p status error = record {
  payment_id = p.id;
  review_id = b.review_id;
  intent_record_id = b.intent_record_id;
  status = status;
  can_confirm = elim status [ SnapshotStatus.awaiting_confirmation ↦ true | _ ↦ false ];
  tx_hash = none;
  error = error;
}

-- The `catch`: an adapter's error is told, but for an integrity failure; any other is thrown on.
abbrev pub told :
    Binding → Payment → Result LinkError ExecutionSnapshot → Result LinkError ExecutionSnapshot
told b p (err (LinkError.link LinkCode.storage_integrity_failure)) = err storage_failure
told b p (err (LinkError.link code)) =
    ok (unclaimed b p SnapshotStatus.not_sent (some (SnapshotNote.refused code)))
told b p outcome = outcome

module _ (host : LinkHost) where
  -- Whether a quoted payment can be confirmed now.
  unfoldable pub offer : Moment → Binding → Payment → Result LinkError ExecutionSnapshot
  offer m b p = do
    context ← active_context host m.node b.intent_record_id b.account_id m.now
    review ← execution_review host b p context
    ok (
        if is_over host m.now review.digest.confirm_before
        then unclaimed b p SnapshotStatus.not_sent (some SnapshotNote.review_expired)
        else unclaimed b p SnapshotStatus.awaiting_confirmation none)

  unfoldable pub status : Moment → ConfirmInput → Result LinkError ExecutionSnapshot
  status m input = do
    assert_id host input.review_id
    b ←
        non_null (link_error LinkCode.payment_not_ready)
          (binding_for_review input.payment_id input.review_id m.node)
    p ← payment_row b.payment_id m.node
    assert_historical_execution host m.node b p
    (if is_quoted p
        then (assert_timestamp host m.now >> told b p (offer m b p))
        else ok (snapshot_from_result (result_from_payment p b.review_id) b.intent_record_id))
