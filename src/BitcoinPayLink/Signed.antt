-- ===== src/BitcoinPayLink/Signed.antt =====
-- The context that sovereign/src/pay/bitcoin-pay-link.ts reads is the asked intent's and account's.
use cashloom.Prelude.{
  ◌≡◌, refl, sym, ◌∙◌, ap, ◌&&◌, ◌||◌, not, inl, inr, some, Text, text_eq, text_eq_iff, find,
  find-holds, ok, map_err, non_null, bind-eq-ok, require-eq-ok, map_err-eq-ok, non_null-eq-ok,
  ok-injective, Option-cases, arith,
}
use cashloom.Pay.{Account}
use cashloom.Records.{V2Record, Protocol, schema_of}
use cashloom.Records.Link.{before, reached}
use cashloom.RecordStore.{StoreDb, StoredRow}
use cashloom.RecordStore.Insert.{by_id, schema_eq}
use cashloom.RecordStore.Reads.{stored_record, indexed_stored_record, local_payment_intent_by_id}
use cashloom.BitcoinProfile.{parse_bitcoin_address}
use cashloom.BitcoinPayLink.{
  LinkCode, LinkError, Node, ExecutionContext, ExecutionAccountRow, LinkHost,
}
use cashloom.BitcoinPayLink.Asserts.{
  link_error, as_intent, account_row, joined_row, assert_execution_account, is_btc_account,
  matches_source, external_matches, assert_id, verify_at, verify_link, assert_bitcoin_intent,
}
use cashloom.BitcoinPayLink.Context.{
  request_parent, active_descriptor, active_intent, intent_context, active_context,
}

indexed_stored_record-id :
    (protocol : Protocol) (row : StoredRow) (r : V2Record)
    → indexed_stored_record protocol row ≡ ok r
    → r.record_id ≡ row.record_id
unfolding indexed_stored_record
indexed_stored_record-id protocol row r h =
    let (x, _, h1) = bind-eq-ok (stored_record protocol row.canonical_json) _ h in
    let (agrees, h2) =
      require-eq-ok
        (text_eq x.record_id row.record_id
          && schema_eq (schema_of x.body) row.schema
          && text_eq x.authority.key_id row.issuer_key_id)
        _ _ h1 in
    let same = ok-injective refl h2 in
    ap (λ (y : V2Record). y.record_id) (sym same)
    ∙ (text_eq_iff x.record_id row.record_id).0 (ground arith)

pub local_payment_intent_by_id-id :
    (protocol : Protocol) (id issuer : Text) (db : StoreDb) (r : V2Record)
    → local_payment_intent_by_id protocol id issuer db ≡ ok (some r)
    → r.record_id ≡ id
unfolding local_payment_intent_by_id by_id
local_payment_intent_by_id-id protocol id issuer db r h =
    let (_, h1) = require-eq-ok (protocol.is_sha256_id id) _ _ h in
    let (_, h2) = require-eq-ok (protocol.is_sha256_id issuer) _ _ h1 in
    elim (Option-cases (by_id id db.records)) [
      | inl missing ↦ absurd (ground arith)
      | inr (row, found) ↦
          (let (x, indexed, h3) =
              bind-eq-ok (indexed_stored_record protocol row) _ (rw found at h2) in
            let own =
              (text_eq_iff row.record_id id).0
                (find-holds (λ (s : StoredRow). text_eq s.record_id id) db.records row found) in
            let same : x ≡ r = ground arith in
            ap (λ (y : V2Record). y.record_id) (sym same)
            ∙ indexed_stored_record-id protocol row x indexed
            ∙ own)
    ]

account_row-id :
    (account_id : Text) (node : Node) (row : ExecutionAccountRow)
    → account_row account_id node ≡ ok row
    → row.id ≡ account_id
unfolding account_row joined_row
account_row-id account_id node row h =
    let (a, found, h1) =
      bind-eq-ok
        (non_null (link_error LinkCode.account_source_mismatch)
          (find (λ (x : Account). text_eq x.id account_id) node.pay.accounts))
        _ h in
    let own = (text_eq_iff a.id account_id).0 (
      find-holds (λ (x : Account). text_eq x.id account_id) node.pay.accounts a
        (non_null-eq-ok _ _ found)) in
    ap (λ (x : ExecutionAccountRow). x.id) (sym (ok-injective refl h1)) ∙ own

module _ (host : LinkHost) where
  assert_execution_account-same :
      (row out : ExecutionAccountRow) (source : Text)
      → assert_execution_account host row source ≡ ok out
      → out ≡ row
  unfolding assert_execution_account
  assert_execution_account-same row out source_account h =
      let (source, _, h1) =
        bind-eq-ok (map_err LinkError.profile (parse_bitcoin_address host.bitcoin source_account)) _
          h in
      let (_, h2) = require-eq-ok (is_btc_account row) _ _ h1 in
      let (address, _, h3) =
        bind-eq-ok (non_null (link_error LinkCode.account_source_mismatch) row.key_address) _ h2 in
      let (u, _, h4) = bind-eq-ok (matches_source host source address) _ h3 in
      let (v, _, h5) = bind-eq-ok (external_matches host source row.external_account_id) _ h4 in
      sym (ok-injective refl h5)

  active_intent-id :
      (node : Node) (intent_record_id key_id now : Text) (intent : V2Record)
      → active_intent host node intent_record_id key_id now ≡ ok intent
      → intent.record_id ≡ intent_record_id
  unfolding active_intent
  active_intent-id node intent_record_id key_id now intent h =
      let protocol = host.protocol in
      let (authored, local, h1) =
        bind-eq-ok
          (map_err LinkError.store
            (local_payment_intent_by_id protocol intent_record_id key_id node.store))
          _ h in
      let (own, is_there, h2) =
        bind-eq-ok (non_null (link_error LinkCode.intent_not_locally_authored) authored) _ h1 in
      let (_, h3) =
        require-eq-ok
          (not (
            before (protocol.date_parse now) (protocol.date_parse own.issued_at)
            || reached (protocol.date_parse now) (protocol.date_parse own.expires_at)))
          _ _ h2 in
      let (_, _, h4) =
        bind-eq-ok
          (map_err (λ _. link_error LinkCode.intent_inactive) (verify_at host own (some now))) _
          h3 in
      let found = map_err-eq-ok _ _ local ∙ ap ok (non_null-eq-ok _ _ is_there) in
      ap (λ (x : V2Record). x.record_id) (sym (ok-injective refl h4))
      ∙ local_payment_intent_by_id-id protocol intent_record_id key_id node.store own found

  intent_context-ids :
      (node : Node) (intent : V2Record) (account_id now : Text) (context : ExecutionContext)
      → intent_context host node intent account_id now ≡ ok context
      → (context.intent ≡ intent) × (context.account.id ≡ account_id)
  unfolding intent_context
  intent_context-ids node intent account_id now context h =
      let (terms, _, h1) = bind-eq-ok (as_intent intent.body) _ h in
      let (_, _, h2) = bind-eq-ok (assert_bitcoin_intent host node.store terms (some now)) _ h1 in
      let (request, _, h3) = bind-eq-ok (request_parent host node.store intent) _ h2 in
      let (_, _, h4) =
        bind-eq-ok (map_err LinkError.protocol (verify_link host intent request)) _ h3 in
      let (row, joined, h5) = bind-eq-ok (account_row account_id node) _ h4 in
      let (account, checked, h6) =
        bind-eq-ok (assert_execution_account host row terms.source_account) _ h5 in
      let same = sym (ok-injective refl h6) in
      (
        ap (λ (x : ExecutionContext). x.intent) same,
        ap (λ (x : ExecutionContext). x.account.id) same
            ∙ ap (λ (x : ExecutionAccountRow). x.id)
                (assert_execution_account-same row account terms.source_account checked)
            ∙ account_row-id account_id node row joined,
      )

  -- A context that is active is that of the intent and the account that were asked for.
  pub active_context-ids :
      (node : Node) (intent_record_id account_id now : Text) (context : ExecutionContext)
      → active_context host node intent_record_id account_id now ≡ ok context
      → (context.intent.record_id ≡ intent_record_id) × (context.account.id ≡ account_id)
  unfolding active_context
  active_context-ids node intent_record_id account_id now context h =
      let (_, _, h1) = bind-eq-ok (assert_id host intent_record_id) _ h in
      let (d, _, h2) = bind-eq-ok (active_descriptor host node now) _ h1 in
      let (intent, own, h3) =
        bind-eq-ok (active_intent host node intent_record_id d.authority.key_id now) _ h2 in
      let (same, account) = intent_context-ids node intent account_id now context h3 in
      (
        ap (λ (x : V2Record). x.record_id) same
            ∙ active_intent-id node intent_record_id d.authority.key_id now intent own,
        account,
      )
