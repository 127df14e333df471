-- ===== src/BitcoinPayLink/Context.antt =====
-- `activeContext` and `historicalContext` of sovereign/src/pay/bitcoin-pay-link.ts.
use cashloom.Prelude.{
  ◌||◌, not, none, some, Text, any, Result, ok, ◌>>=◌, ◌>>◌, require, map_err, non_null,
}
use cashloom.Records.{V2Record, V2Schema, schema_of}
use cashloom.Records.Link.{before, reached}
use cashloom.RecordStore.{StoreDb}
use cashloom.RecordStore.Insert.{schema_eq}
use cashloom.RecordStore.Reads.{
  get_local, local_payment_intent_by_id, latest_public_node_descriptor,
}
use cashloom.BitcoinPayLink.{LinkCode, LinkError, Node, ExecutionContext, LinkHost}
use cashloom.BitcoinPayLink.Asserts.{
  assert_execution_account, verify_at, verify_link, assert_id, assert_bitcoin_intent, link_error,
  storage_failure, is_payer, as_intent, as_descriptor, account_row,
}

module _ (host : LinkHost) where
  -- The request that a locally authored intent answers.
  unfoldable pub request_parent : StoreDb → V2Record → Result LinkError V2Record
  request_parent store intent = do
    parent_id ← non_null storage_failure intent.parent_record_id
    held ← map_err LinkError.store (get_local host.protocol parent_id store)
    parent ← non_null storage_failure held
    require (schema_eq (schema_of parent.body) V2Schema.payment_request) storage_failure
    ok parent

  -- The node's own descriptor, which must be active and declare the payer's role.
  unfoldable pub active_descriptor : Node → Text → Result LinkError V2Record
  active_descriptor node now = do
    held ←
        map_err LinkError.store (latest_public_node_descriptor host.protocol node.config node.store)
    stored ← non_null (link_error LinkCode.node_not_activated) held
    d ← map_err (λ _. link_error LinkCode.node_not_activated) (verify_at host stored (some now))
    descriptor ← as_descriptor d.body
    require (any is_payer descriptor.roles) (link_error LinkCode.node_not_activated)
    ok d

  -- The intent that this node has signed, while it is active.
  unfoldable pub active_intent : Node → Text → Text → Text → Result LinkError V2Record
  active_intent node intent_record_id key_id now = do
    authored ←
        map_err LinkError.store
          (local_payment_intent_by_id host.protocol intent_record_id key_id node.store)
    intent ← non_null (link_error LinkCode.intent_not_locally_authored) authored
    let at = host.protocol.date_parse now
    require
        (not (
          before at (host.protocol.date_parse intent.issued_at)
          || reached at (host.protocol.date_parse intent.expires_at)))
        (link_error LinkCode.intent_inactive)
    verified ← map_err (λ _. link_error LinkCode.intent_inactive) (verify_at host intent (some now))
    ok intent

  -- The request and the account of an active intent.
  unfoldable pub intent_context : Node → V2Record → Text → Text → Result LinkError ExecutionContext
  intent_context node intent account_id now = do
    terms ← as_intent intent.body
    assert_bitcoin_intent host node.store terms (some now)
    request ← request_parent node.store intent
    map_err LinkError.protocol (verify_link host intent request)
    row ← account_row account_id node
    account ← assert_execution_account host row terms.source_account
    ok (record { intent = intent; terms = terms; request = request; account = account })

  unfoldable pub active_context : Node → Text → Text → Text → Result LinkError ExecutionContext
  active_context node intent_record_id account_id now = do
    assert_id host intent_record_id
    d ← active_descriptor node now
    intent ← active_intent node intent_record_id d.authority.key_id now
    intent_context node intent account_id now

  abbrev signed_history : Node → Text → Text → Result LinkError ExecutionContext
  signed_history node intent_record_id account_id = do
    assert_id host intent_record_id
    held ←
        map_err LinkError.store (latest_public_node_descriptor host.protocol node.config node.store)
    stored ← non_null storage_failure held
    descriptor ← map_err LinkError.protocol (verify_at host stored none)
    authored ← map_err LinkError.store (
        local_payment_intent_by_id host.protocol intent_record_id descriptor.authority.key_id
          node.store)
    stored_intent ← non_null storage_failure authored
    intent ← map_err LinkError.protocol (verify_at host stored_intent none)
    terms ← as_intent intent.body
    assert_bitcoin_intent host node.store terms none
    stored_request ← request_parent node.store intent
    request ← map_err LinkError.protocol (verify_at host stored_request none)
    map_err LinkError.protocol (verify_link host intent request)
    account ← account_row account_id node
    ok (record { intent = intent; terms = terms; request = request; account = account })

  -- Whatever goes wrong is a failure of the storage's integrity.
  unfoldable pub historical_context : Node → Text → Text → Result LinkError ExecutionContext
  historical_context node intent_record_id account_id =
      map_err (λ _. storage_failure) (signed_history node intent_record_id account_id)
