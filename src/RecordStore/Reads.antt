-- ===== src/RecordStore/Reads.antt =====
-- The look-ups of sovereign/src/protocol/v2/record-store.ts, and `remoteUsage`.
use cashloom.Prelude.{
  ℕ, Bool, true, false, ◌&&◌, ◌||◌, not, Option, none, some, List, [], ◌∷◌, Text, lit, text_eq, ltb,
  ◌==◌, find, select, Result, ok, err, ◌>>=◌, require, if◌then◌else◌,
}
use cashloom.Records.{V2Schema, V2Record, Protocol, ProtocolError, schema_of}
use cashloom.Records.Link.{is_public, is_some_text, assert_immediate_link}
use cashloom.RecordStore.{StoreConfig, StoredRow, StoreDb, StoreError}
use cashloom.RecordStore.Insert.{
  by_id, is_child, is_intent_of, is_remote, schema_eq, read_usage_row,
}

abbrev as_integrity {ℓ} : {A : Type ℓ} → Result ProtocolError A → Result StoreError A
as_integrity (ok a) = ok a
as_integrity (err e) = err StoreError.storage_integrity_failure

-- `a < b` on strings of UTF-16 code units
unfoldable pub text_before : Text → Text → Bool
text_before [] [] = false
text_before [] (y ∷ ys) = true
text_before (x ∷ xs) [] = false
text_before (x ∷ xs) (y ∷ ys) = ltb x y || (x == y && text_before xs ys)

-- `ORDER BY created_at DESC, received_at DESC, rowid DESC`: the earlier row comes first only if it
-- is strictly newer.
abbrev pub newer : StoredRow → StoredRow → Bool
newer x y =
    text_before y.created_at x.created_at
    || (text_eq x.created_at y.created_at && text_before y.received_at x.received_at)

abbrev newest_of : StoredRow → Option StoredRow → StoredRow
newest_of x none = x
newest_of x (some y) = if newer x y then x else y

unfoldable pub newest : List StoredRow → Option StoredRow
newest [] = none
newest (x ∷ xs) = some (newest_of x (newest xs))

module _ (protocol : Protocol) where
  unfoldable pub stored_record : Text → Result StoreError V2Record
  stored_record json = as_integrity (protocol.verify (protocol.encode json))

  -- The column `source` holds one of the two sources by its type.
  unfoldable pub indexed_stored_record : StoredRow → Result StoreError V2Record
  indexed_stored_record row = do
    r ← stored_record row.canonical_json
    agrees ←
        require
          (text_eq r.record_id row.record_id
            && schema_eq (schema_of r.body) row.schema
            && text_eq r.authority.key_id row.issuer_key_id)
          StoreError.storage_integrity_failure
    ok r

  abbrev check_id : Text → Result StoreError (Unit {0})
  check_id id =
      require (protocol.is_sha256_id id) (StoreError.protocol_error (ProtocolError.wallet id))

  abbrev pub returned : Option StoredRow → Result StoreError (Option V2Record)
  returned none = ok none
  returned (some row) = stored_record row.canonical_json >>= λ r. ok (some r)

  unfoldable pub get_local : Text → StoreDb → Result StoreError (Option V2Record)
  get_local id db = do valid ← check_id id; returned (by_id id db.records)

  abbrev public_only : V2Record → Result StoreError (Option V2Record)
  public_only r =
      if is_public r.disclosure then ok (some r) else err StoreError.storage_integrity_failure

  abbrev pub returned_public : Option StoredRow → Result StoreError (Option V2Record)
  returned_public none = ok none
  returned_public (some row) = stored_record row.canonical_json >>= λ r. public_only r

  unfoldable pub get_public : Text → StoreDb → Result StoreError (Option V2Record)
  get_public id db = do
    valid ← check_id id
    returned_public (find (λ r. text_eq r.record_id id && is_public r.disclosure) db.records)

  -- `ORDER BY … LIMIT 2` with a refusal of two rows: the order decides nothing.
  abbrev sole_intent : Text → Text → List StoredRow → Result StoreError (Option V2Record)
  sole_intent request_id issuer [] = ok none
  sole_intent request_id issuer (row ∷ []) = do
    r ← stored_record row.canonical_json
    agrees ←
        require
          (schema_eq (schema_of r.body) V2Schema.payment_intent
            && is_some_text r.parent_record_id request_id
            && text_eq r.authority.key_id issuer)
          StoreError.storage_integrity_failure
    ok (some r)
  sole_intent request_id issuer (row ∷ other ∷ rows) = err StoreError.storage_integrity_failure

  unfoldable pub local_payment_intent_for :
      Text → Text → StoreDb → Result StoreError (Option V2Record)
  local_payment_intent_for request_id issuer db = do
    request_valid ← check_id request_id
    issuer_valid ← check_id issuer
    sole_intent request_id issuer (
        select
          (is_child db.parents request_id (λ r. is_intent_of issuer r && not (is_remote r.source)))
          db.records)

  abbrev intent_row : Text → Option StoredRow → Result StoreError (Option V2Record)
  intent_row issuer none = ok none
  intent_row issuer (some row) = do
    r ← indexed_stored_record row
    ok (
        if is_remote row.source
          || not (schema_eq (schema_of r.body) V2Schema.payment_intent)
          || not (text_eq r.authority.key_id issuer)
        then none
        else some r)

  unfoldable pub local_payment_intent_by_id :
      Text → Text → StoreDb → Result StoreError (Option V2Record)
  local_payment_intent_by_id id issuer db = do
    id_valid ← check_id id
    issuer_valid ← check_id issuer
    intent_row issuer (by_id id db.records)

  -- The edge has this parent by the statement that selected it.
  unfoldable pub checked_commitment :
      Text → Text → StoredRow → StoredRow → Result StoreError (Option V2Record)
  checked_commitment intent_id issuer row parent = do
    commitment ← indexed_stored_record row
    intent ← indexed_stored_record parent
    agrees ←
        require
          (text_eq intent.record_id intent_id
            && schema_eq (schema_of intent.body) V2Schema.payment_intent
            && schema_eq (schema_of commitment.body) V2Schema.execution_commitment
            && is_some_text commitment.parent_record_id intent_id)
          StoreError.storage_integrity_failure
    link ← as_integrity (assert_immediate_link protocol commitment intent)
    ok (
        if is_remote row.source
          || not (text_eq intent.authority.key_id issuer)
          || not (text_eq commitment.authority.key_id issuer)
        then none
        else some commitment)

  abbrev sole_commitment :
      Text → Text → List StoredRow → Option StoredRow → Result StoreError (Option V2Record)
  sole_commitment intent_id issuer [] parent = ok none
  sole_commitment intent_id issuer (row ∷ rows) none = ok none
  sole_commitment intent_id issuer (row ∷ []) (some parent) =
      checked_commitment intent_id issuer row parent
  sole_commitment intent_id issuer (row ∷ other ∷ rows) (some parent) =
      err StoreError.storage_integrity_failure

  -- The join with the parent: no row without one. The source verifies the two records a second time,
  -- which `indexed_stored_record` has just done.
  unfoldable pub local_execution_commitment_for :
      Text → Text → StoreDb → Result StoreError (Option V2Record)
  local_execution_commitment_for intent_id issuer db = do
    intent_valid ← check_id intent_id
    issuer_valid ← check_id issuer
    sole_commitment intent_id issuer (select (is_child db.parents intent_id (λ r. true)) db.records)
        (by_id intent_id db.records)

  abbrev descriptor_row : Option StoredRow → Result StoreError (Option V2Record)
  descriptor_row none = ok none
  descriptor_row (some row) = do
    r ← stored_record row.canonical_json
    agrees ←
        require (schema_eq (schema_of r.body) V2Schema.node_descriptor)
          StoreError.storage_integrity_failure
    ok (some r)

  abbrev pub is_own_descriptor : Text → StoredRow → Bool
  is_own_descriptor key r =
      text_eq r.kind (lit "node_descriptor")
      && text_eq r.issuer_key_id key
      && is_public r.disclosure
      && not (is_remote r.source)

  unfoldable pub latest_public_node_descriptor :
      StoreConfig → StoreDb → Result StoreError (Option V2Record)
  latest_public_node_descriptor config db = elim config.local_node_key_id [
    | none ↦ ok none
    | some key ↦ descriptor_row (newest (select (is_own_descriptor key) db.records))
  ]

-- `remoteUsage`: the two counters
unfoldable pub remote_usage : StoreDb → Result StoreError (ℕ × ℕ)
remote_usage db = do u ← read_usage_row db; ok (u.remote_record_count, u.remote_canonical_bytes)
