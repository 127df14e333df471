-- ===== src/BitcoinPayLink/Tests.antt =====
-- Runs of the Bitcoin payment links, and their theorems at concrete inputs.
use cashloom.Prelude.{
  ◌≡◌, refl, ◌↔◌, true, false, some, [], ◌∷◌, lit, ok, err, text_eq, trim, drop_spaces, is_space,
  includes, find, select, any, all, count, update,
}
use cashloom.Payments.{Payment, PaymentStatus, status_eq}
use cashloom.MinorUnits.{value_from, digits_of}
use cashloom.Pay.{PaymentSender, PayDb}
use cashloom.Pay.Accounts.{sender_for_asset, sending_account, timestamp_now}
use cashloom.Pay.Quote.{insert_payment}
use cashloom.Pay.Claim.{
  ConfirmRuntime, Claimed, ClaimResult, payment_of, binding_of, check_binding, is_expired,
  still_quoted, set_confirmed, swap_status, claim_fresh, claim_quoted, claim,
}
use cashloom.Pay.Settle.{SendOutcome, Recording, settle, on_signed_all}
use cashloom.Records.Samples.{id_of}
use cashloom.Records.Link.{
  all_same, same_authority, same_payment_field, parent_of, intent_link, commitment_link,
  link_by_schema, assert_immediate_link,
}
use cashloom.Records.Chain.{active_at, active_when}
use cashloom.RecordStore.Insert.{by_id}
use cashloom.RecordStore.Reads.{
  text_before, newest, stored_record, indexed_stored_record, get_local, local_payment_intent_by_id,
  checked_commitment, local_execution_commitment_for, latest_public_node_descriptor,
}
use cashloom.AssetTrust.Parse.{
  is_token, is_rail, bounded_token, rail_identifier, enum_value, no_duplicates, unique_enum_array,
  check_provider, check_egress, parse_evidence, parse_evidences, check_manifest,
  parse_asset_trust_manifest, check_policy, parse_asset_trust_policy,
}
use cashloom.AssetTrust.Evaluate.{
  findings_of, control_checks, egress_checks, unknown_controls, settlement_checks, access_checks,
  first_unknowns, last_unknowns, unknown_checks, all_checks, evaluate_asset_trust,
}
use cashloom.BitcoinProfile.{
  destination_dust, is_positive_satoshis, is_satoshis, parse_bitcoin_satoshis,
  parse_max_fee_satoshis, dust_floor, parse_bitcoin_address, canonical_case,
  parse_bitcoin_payment_terms,
}
use cashloom.Records.{V2Record}
use cashloom.BitcoinPayLink.{
  Node, PreparedExecution, ExecutionContext, ExecutionReview, ExecutionSnapshot, ConfirmInput,
}
use cashloom.BitcoinPayLink.Asserts.{
  as_intent, as_descriptor, as_manifest, joined_row, account_row, is_btc_account, matches_source,
  assert_execution_account, verify_at, verify_link, assert_id, assert_timestamp,
  assert_trust_binding, assert_bitcoin_intent,
}
use cashloom.BitcoinPayLink.Context.{
  request_parent, active_descriptor, active_intent, intent_context, active_context,
  historical_context,
}
use cashloom.BitcoinPayLink.Review.{
  binding_bytes, stored_fee, row_matches, draft_matches, as_commitment, earlier_timestamp, is_over,
  check_identifiers, check_payload, digest_of, review_digest, execution_review, reservation_of,
  unreviewed, draft_binding, validate_commitment,
}
use cashloom.BitcoinPayLink.Stored.{
  payment_row, binding_for_intent, binding_for_review, is_txid, execution_status,
  result_from_payment, is_possible, assert_stored_binding_payment, assert_committed, assert_txid,
  assert_historical_execution,
}
use cashloom.BitcoinPayLink.Prepare.{
  same_binding_key, binding_checks, binding_references, insert_binding, bound_payment,
  begin_prepare, bind, store_quote, finalize_prepared, answer_race, prepare, Quoting,
}
use cashloom.BitcoinPayLink.Confirm.{
  Ready, Started, make_ready, start_confirm, commitment_for, assert_claim, bound_claim,
}
use cashloom.BitcoinPayLink.Status.{unclaimed, offer, status}
use cashloom.BitcoinPayLink.Prepared.{IsPrepared, prepare-IsPrepared}
use cashloom.BitcoinPayLink.Confirmable.{store_quote-start_confirm}
use cashloom.BitcoinPayLink.Admitted.{IsCommitted}
use cashloom.BitcoinPayLink.Reviewed.{PaysTerms, claim-reviewed}
use cashloom.BitcoinPayLink.Offered.{status-start_confirm}
use cashloom.BitcoinPayLink.Granted.{claim-granted}
use cashloom.BitcoinPayLink.Told.{told_status, settle-result_from_payment}
use cashloom.BitcoinPayLink.SampleRecords.{commitment}
use cashloom.BitcoinPayLink.Samples.{
  host, before, after, draft, payment, binding, context, ready, wallet, at_three,
}

-- All that a run computes with.
links : Unit {0}
unfolding text_eq trim drop_spaces is_space includes find select any all count update status_eq
    value_from digits_of sender_for_asset sending_account timestamp_now insert_payment payment_of
    binding_of check_binding is_expired still_quoted swap_status claim_fresh claim_quoted claim
    all_same same_authority same_payment_field parent_of intent_link commitment_link link_by_schema
    assert_immediate_link by_id text_before newest stored_record indexed_stored_record get_local
    local_payment_intent_by_id checked_commitment local_execution_commitment_for
    latest_public_node_descriptor is_token is_rail bounded_token rail_identifier enum_value
    no_duplicates unique_enum_array check_provider check_egress parse_evidence parse_evidences
    check_manifest parse_asset_trust_manifest check_policy parse_asset_trust_policy findings_of
    control_checks egress_checks unknown_controls settlement_checks access_checks first_unknowns
    last_unknowns unknown_checks all_checks evaluate_asset_trust destination_dust
    is_positive_satoshis is_satoshis parse_bitcoin_satoshis parse_max_fee_satoshis dust_floor
    parse_bitcoin_address canonical_case parse_bitcoin_payment_terms as_intent as_descriptor
    as_manifest joined_row account_row is_btc_account matches_source assert_execution_account
    active_at active_when verify_at verify_link assert_id assert_timestamp assert_trust_binding
    assert_bitcoin_intent request_parent active_descriptor active_intent intent_context
    active_context historical_context binding_bytes stored_fee row_matches draft_matches
    as_commitment earlier_timestamp is_over check_identifiers check_payload digest_of review_digest
    execution_review reservation_of unreviewed draft_binding validate_commitment payment_row
    binding_for_intent binding_for_review is_txid execution_status result_from_payment is_possible
    assert_stored_binding_payment assert_committed assert_txid assert_historical_execution
    same_binding_key binding_checks binding_references insert_binding bound_payment begin_prepare
    bind store_quote finalize_prepared answer_race prepare make_ready start_confirm commitment_for
    assert_claim bound_claim unclaimed offer status
links = tt

read : active_context host before (id_of 3) (lit "acct") (3 ∷ []) ≡ ok context
unfolding links
read = refl

stored : store_quote host context draft (at_three before) ≡ ok (binding, after)
unfolding links
stored = refl

started :
    start_confirm host (at_three after) (record { payment_id = lit "p"; review_id = id_of 90 })
    ≡ ok (Started.ready ready)
unfolding links
started = refl

abbrev input : ConfirmInput
input = record { payment_id = lit "p"; review_id = id_of 90 }

abbrev quoting : ExecutionContext → Quoting
quoting c = record { draft = ok draft; at = at_three before; after = at_three }

prepared :
    (out : PreparedExecution × Node) × (prepare host
        (at_three before)
        (record { intent_record_id = id_of 3; account_id = lit "acct" })
        quoting
      ≡ ok out)
unfolding links
prepared = (_, refl)

prepare-IsPrepared_example : IsPrepared host prepared.0.1 (id_of 3) (lit "acct") prepared.0.0.review
prepare-IsPrepared_example =
    prepare-IsPrepared host (at_three before)
      (record { intent_record_id = id_of 3; account_id = lit "acct" }) quoting prepared.0 prepared.1

is_fresh : status_eq payment.status PaymentStatus.quoted ≡ true
unfolding links
is_fresh = refl

store_quote-start_confirm_example :
    (r : Ready) × (start_confirm host (at_three after) input ≡ ok (Started.ready r))
    × (r.binding ≡ binding)
    × (r.payment ≡ payment)
store_quote-start_confirm_example =
    store_quote-start_confirm host context draft (at_three before) binding after (λ d. refl)
      is_fresh stored

-- The deadline is 8.
offered : (s : ExecutionSnapshot) × (status host (at_three after) input ≡ ok s)
unfolding links
offered = (_, refl)

status-start_confirm_example :
    (offered.0.can_confirm ≡ true)
    ↔ ((r : Ready) × (start_confirm host (at_three after) input ≡ ok (Started.ready r)))
status-start_confirm_example = status-start_confirm host (at_three after) input offered.0 offered.1

abbrev sender : PaymentSender
sender = record {
  type = lit "btc";
  assets = lit "BTC" ∷ [];
  quote = λ key asked. err (lit "no quote");
}

abbrev runtime : ConfirmRuntime
runtime = record {
  senders = sender ∷ [];
  now = 3 ∷ [];
  bound_claim = some (bound_claim host ready after);
}

abbrev claimed : Claimed
claimed = record { row = payment; account = wallet; sender = sender; expected = some binding }

held : commitment_for host after context ≡ ok (some commitment)
unfolding links
held = refl

valid : validate_commitment host commitment context binding (8 ∷ []) (some (3 ∷ [])) ≡ ok tt
unfolding links
valid = refl

timed : timestamp_now host.engine (3 ∷ []) ≡ ok (3 ∷ [])
unfolding links
timed = refl

sends : sending_account (lit "acct") after.pay ≡ ok wallet
unfolding links
sends = refl

sent : sender_for_asset host.engine (lit "BTC") (sender ∷ []) ≡ ok sender
unfolding links
sent = refl

unexpired : is_expired host.engine payment (some binding) (3 ∷ []) ≡ false
unfolding links
unexpired = refl

own : binding_of (lit "p") after.pay ≡ some binding
unfolding links
own = refl

sole : count (still_quoted payment) after.pay.payments ≡ 1
unfolding links
sole = refl

claim-granted_example :
    claim host.engine (lit "p") runtime after.pay
    ≡ ok (
      ClaimResult.claimed claimed,
      record after.pay {
        payments = update (still_quoted payment) (set_confirmed (3 ∷ [])) after.pay.payments;
      },
    )
claim-granted_example =
    claim-granted host (at_three after) input ready commitment wallet sender (sender ∷ []) started
      held valid timed sends sent unexpired own sole

won :
    (db : PayDb) × (claim host.engine (lit "p") runtime after.pay
      ≡ ok (ClaimResult.claimed claimed, db))
unfolding links
won = (_, refl)

claim-reviewed_example :
    (payment.id ≡ lit "p")
    × (fresh : ExecutionContext) × (review : ExecutionReview) × (promise : V2Record)
    × (active_context host after (id_of 3) (lit "acct") (3 ∷ []) ≡ ok fresh)
    × PaysTerms payment fresh
    × (execution_review host binding payment fresh ≡ ok review)
    × (review.review_id ≡ id_of 90)
    × (is_over host (3 ∷ []) review.digest.confirm_before ≡ false)
    × (commitment_for host after fresh ≡ ok (some promise))
    × IsCommitted host binding review.digest.confirm_before promise
claim-reviewed_example =
    claim-reviewed host (at_three after) input ready after runtime claimed won.0 started refl won.1

abbrev confirmed : PayDb
confirmed = record after.pay { payments = record payment { status = PaymentStatus.confirmed } ∷ [] }

is_there :
    payment_of (lit "p") confirmed.payments
    ≡ some (record payment { status = PaymentStatus.confirmed })
unfolding links
is_there = refl

settle-result_from_payment_example :
    (q : Payment) × (payment_of
        (lit "p")
        (settle claimed
          (SendOutcome.refused (lit "no"))
          Recording.recorded
          (lit "n")
          (4 ∷ [])
          (on_signed_all (lit "p") (lit "t" ∷ []) (4 ∷ []) confirmed)).1.payments
      ≡ some q)
    × ((result_from_payment q (id_of 90)).payment_id ≡ lit "p")
    × ((result_from_payment q (id_of 90)).status
        ≡ told_status (lit "t" ∷ []) (SendOutcome.refused (lit "no")) Recording.recorded)
settle-result_from_payment_example =
    settle-result_from_payment claimed (lit "t" ∷ []) (SendOutcome.refused (lit "no"))
      Recording.recorded (lit "n") (4 ∷ []) (id_of 90) confirmed
      (record payment { status = PaymentStatus.confirmed }) is_there refl refl
