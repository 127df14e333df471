-- ===== src/RecordStore/Append.antt =====
-- `append` and `appendBatch` of sovereign/src/protocol/v2/record-store.ts.
use cashloom.Prelude.{
  ℕ, ◌+◌, Bool, true, false, ◌&&◌, ◌||◌, not, Option, none, some, List, [], ◌∷◌, Text, lit, text_eq,
  length, leb, Result, ok, err, ◌>>=◌, require, if◌then◌else◌,
}
use cashloom.Records.{V2Schema, V2Record, Bytes, Protocol, ProtocolError, schema_of}
use cashloom.Records.Link.{is_public, verify_v2_record_link}
use cashloom.RecordStore.{
  V2RecordSource, StoreConfig, StoredRow, StoreDb, StoreError, AppendInput, AppendResult,
}
use cashloom.RecordStore.Insert.{
  by_id, by_nonce, find_child, is_intent_of, schema_eq, is_remote, read_usage_row, write_all,
}

-- An error of the protocol, as the store lets it through.
abbrev pub thrown {ℓ} : {A : Type ℓ} → Result ProtocolError A → Result StoreError A
thrown (ok a) = ok a
thrown (err e) = err (StoreError.protocol_error e)

abbrev pub is_audience : Option Text → Text → Bool
is_audience none audience = false
is_audience (some key) audience = text_eq audience key

-- A remote private record is for its named audience only.
unfoldable pub admissible : Option Text → V2RecordSource → V2Record → Bool
admissible local_key source r =
    not (is_remote source && not (is_public r.disclosure) && not (is_audience local_key r.audience))

unfoldable pub check_nonce : V2Record → StoreDb → Result StoreError (Unit {0})
check_nonce r db = elim (by_nonce r.authority.key_id r.nonce db.records) [
  | none ↦ ok tt
  | some row ↦ err (StoreError.issuer_nonce_conflict row.record_id)
]

-- `EXCLUSIVE_CHILD_SCHEMAS`
abbrev pub is_exclusive : V2Schema → Bool
is_exclusive V2Schema.execution_commitment = true
is_exclusive V2Schema.submission_receipt = true
is_exclusive V2Schema.settlement_receipt = true
is_exclusive _ = false

abbrev pub refuse_child : Option StoredRow → Result StoreError (Unit {0})
refuse_child none = ok tt
refuse_child (some row) = err (StoreError.transition_conflict row.record_id)

-- The earlier children that a new one of this schema and issuer competes with.
abbrev pub competes : V2Schema → Text → StoredRow → Bool
competes schema issuer row =
    if schema_eq schema V2Schema.payment_intent
    then is_intent_of issuer row
    else schema_eq row.schema schema

unfoldable pub check_successor : V2Record → Text → StoreDb → Result StoreError (Unit {0})
check_successor r parent_id db =
    if schema_eq (schema_of r.body) V2Schema.payment_intent || is_exclusive (schema_of r.body)
    then refuse_child (find_child parent_id (competes (schema_of r.body) r.authority.key_id) db)
    else ok tt

module _ (protocol : Protocol) (config : StoreConfig) where
  unfoldable pub check_link : Bytes → V2Record → Text → StoreDb → Result StoreError (Unit {0})
  check_link bytes r parent_id db = elim (by_id parent_id db.records) [
    | none ↦ err StoreError.parent_not_found
    | some parent ↦ do
      link ← thrown (verify_v2_record_link protocol bytes (protocol.encode parent.canonical_json))
      check_successor r parent_id db
  ]

  unfoldable pub check_parent : Bytes → V2Record → StoreDb → Result StoreError (Unit {0})
  check_parent bytes r db = elim r.parent_record_id [
    | none ↦ ok tt
    | some parent_id ↦ check_link bytes r parent_id db
  ]

  unfoldable pub check_quota : ℕ → V2RecordSource → StoreDb → Result StoreError (Unit {0})
  check_quota bytes source db =
      if is_remote source
      then (read_usage_row db >>= λ u.
          require
            (leb (u.remote_record_count + 1) config.remote_limits.max_record_count
              && leb (u.remote_canonical_bytes + bytes) config.remote_limits.max_canonical_bytes)
            StoreError.remote_limit_exceeded)
      else ok tt

  -- The transaction past the look-up by content id.
  unfoldable pub append_new :
      Bytes
      → V2Record
      → Text
      → V2RecordSource
      → Text
      → StoreDb
      → Result StoreError (AppendResult × StoreDb)
  append_new bytes r json source now db = do
    admitted ←
        require (admissible config.local_node_key_id source r) StoreError.private_audience_mismatch
    nonce ← check_nonce r db
    parent ← check_parent bytes r db
    quota ← check_quota (length bytes) source db
    written ← write_all r json (length bytes) source now db
    ok (
      record { held = r; inserted = true; canonical_bytes = length bytes; source = source },
      written,
    )

  unfoldable pub append_in :
      Bytes
      → V2Record
      → Text
      → V2RecordSource
      → Text
      → StoreDb
      → Result StoreError (AppendResult × StoreDb)
  append_in bytes r json source now db = elim (by_id r.record_id db.records) [
    | none ↦ append_new bytes r json source now db
    | some row ↦
        if text_eq row.canonical_json json
        then ok (
          record {
            held = r;
            inserted = false;
            canonical_bytes = length bytes;
            source = row.source;
          },
          db,
        )
        else err StoreError.storage_integrity_failure
  ]

  abbrev pub decoded : Option Text → Result StoreError Text
  decoded none = err StoreError.undecodable
  decoded (some json) = ok json

  -- A transaction that throws is rolled back: an error carries no state.
  unfoldable pub append :
      Bytes → V2RecordSource → Text → StoreDb → Result StoreError (AppendResult × StoreDb)
  append bytes source now db = do
    r ← thrown (protocol.verify bytes)
    json ← decoded (protocol.decode bytes)
    clock ←
        require (protocol.is_timestamp now)
          (StoreError.protocol_error (ProtocolError.wallet (lit "receivedAt")))
    append_in bytes r json source now db

  -- `prepared`
  unfoldable pub prepare : List AppendInput → Result StoreError (Unit {0})
  prepare [] = ok tt
  prepare (entry ∷ entries) = do r ← thrown (protocol.verify entry.canonical_bytes); prepare entries

  -- The nested transactions, in order, with what the clock returns for each.
  unfoldable pub append_each :
      List (AppendInput × Text) → StoreDb → Result StoreError (List AppendResult × StoreDb)
  append_each [] db = ok ([], db)
  append_each ((entry, now) ∷ rest) db = do
    first ← append entry.canonical_bytes entry.source now db
    others ← append_each rest first.1
    ok (first.0 ∷ others.0, others.1)

  abbrev pub inputs : List (AppendInput × Text) → List AppendInput
  inputs [] = []
  inputs ((entry, now) ∷ rest) = entry ∷ inputs rest

  unfoldable pub append_batch :
      List (AppendInput × Text) → StoreDb → Result StoreError (List AppendResult × StoreDb)
  append_batch entries db = do ready ← prepare (inputs entries); append_each entries db
