-- ===== src/RecordStore/Insert.antt =====
-- The statements of the store's writer transaction, with the constraints of
-- sovereign/src/protocol/v2/schema.ts.
use cashloom.Prelude.{
  ℕ, ◌+◌, Bool, true, false, ◌&&◌, ◌||◌, not, Option, none, some, List, [], ◌∷◌, ◌++◌, Text, lit,
  text_eq, take, length, leb, ◌==◌, find, any, Result, ok, err, ◌>>=◌, if◌then◌else◌,
}
use cashloom.Records.{V2Schema, V2Record, schema_of}
use cashloom.RecordStore.{
  V2RecordSource, StoredRow, ParentEdge, UsageRow, StoreDb, StoreError, kind_by_schema,
}

abbrev pub schema_eq : V2Schema → V2Schema → Bool
schema_eq a b = text_eq (kind_by_schema a) (kind_by_schema b)

abbrev pub is_remote : V2RecordSource → Bool
is_remote V2RecordSource.from_remote = true
is_remote V2RecordSource.from_local = false

unfoldable pub by_id : Text → List StoredRow → Option StoredRow
by_id id = find (λ r. text_eq r.record_id id)

unfoldable pub by_nonce : Text → Text → List StoredRow → Option StoredRow
by_nonce issuer nonce = find (λ r. text_eq r.issuer_key_id issuer && text_eq r.nonce nonce)

-- The join of an edge and its child, for the rows that `test` admits.
abbrev pub is_child : List ParentEdge → Text → (StoredRow → Bool) → StoredRow → Bool
is_child edges parent_id test row =
    any (λ e. text_eq e.child_record_id row.record_id && text_eq e.parent_record_id parent_id) edges
    && test row

abbrev pub is_intent_of : Text → StoredRow → Bool
is_intent_of issuer row =
    schema_eq row.schema V2Schema.payment_intent && text_eq row.issuer_key_id issuer

unfoldable pub find_child : Text → (StoredRow → Bool) → StoreDb → Option StoredRow
find_child parent_id test db = find (is_child db.parents parent_id test) db.records

-- `CHECK (length(id) = 71 AND substr(id, 1, 7) = 'sha256:')`
unfoldable pub is_content_id : Text → Bool
is_content_id id = length id == 71 && text_eq (take 7 id) (lit "sha256:")

-- The primary key and the unique columns of `cashloom_v2_records`
abbrev pub row_collides : StoredRow → StoredRow → Bool
row_collides new r =
    text_eq r.record_id new.record_id
    || (text_eq r.issuer_key_id new.issuer_key_id && text_eq r.nonce new.nonce)
    || text_eq r.canonical_json new.canonical_json

-- Lengths here count UTF-16 units.
unfoldable pub row_checks : StoredRow → Bool
row_checks row =
    is_content_id row.record_id
    && is_content_id row.issuer_key_id
    && leb (length row.canonical_json) 65536

unfoldable pub insert_row : StoredRow → StoreDb → Result StoreError StoreDb
insert_row row db =
    if row_checks row && not (any (row_collides row) db.records)
    then ok (record db { records = db.records ++ row ∷ [] })
    else err StoreError.constraint_failed

-- The primary key and the foreign keys of `cashloom_v2_record_parents`
unfoldable pub insert_edge : ParentEdge → StoreDb → Result StoreError StoreDb
insert_edge edge db =
    if edge.position == 0
      && not (any (λ (e : ParentEdge). text_eq e.child_record_id edge.child_record_id) db.parents)
      && any (λ r. text_eq r.record_id edge.child_record_id) db.records
      && any (λ r. text_eq r.record_id edge.parent_record_id) db.records
    then ok (record db { parents = db.parents ++ edge ∷ [] })
    else err StoreError.constraint_failed

abbrev pub insert_edge_of : Text → Option Text → StoreDb → Result StoreError StoreDb
insert_edge_of child_id none db = ok db
insert_edge_of child_id (some parent_id) db =
    insert_edge (record { child_record_id = child_id; position = 0; parent_record_id = parent_id })
      db

abbrev pub bump : ℕ → Text → UsageRow → UsageRow
bump bytes now u = record {
  remote_record_count = u.remote_record_count + 1;
  remote_canonical_bytes = u.remote_canonical_bytes + bytes;
  updated_at = now;
}

-- The `UPDATE` of the usage row, which meets no row when it is missing.
abbrev pub bump_usage : ℕ → Text → Option UsageRow → Option UsageRow
bump_usage bytes now none = none
bump_usage bytes now (some u) = some (bump bytes now u)

unfoldable pub count_remote : V2RecordSource → ℕ → Text → StoreDb → StoreDb
count_remote source bytes now db =
    if is_remote source then record db { usage = bump_usage bytes now db.usage } else db

abbrev pub max_safe_integer : ℕ
max_safe_integer = 9007199254740991

-- `#readUsageRow`
unfoldable pub read_usage_row : StoreDb → Result StoreError UsageRow
read_usage_row db = elim db.usage [
  | none ↦ err StoreError.storage_integrity_failure
  | some u ↦
      if leb u.remote_record_count max_safe_integer && leb u.remote_canonical_bytes max_safe_integer
      then ok u
      else err StoreError.storage_integrity_failure
]

-- The row that the transaction stores for a verified record.
abbrev pub row_of : V2Record → Text → V2RecordSource → Text → StoredRow
row_of r json source now = record {
  record_id = r.record_id;
  schema = schema_of r.body;
  kind = kind_by_schema (schema_of r.body);
  issuer_key_id = r.authority.key_id;
  audience = r.audience;
  nonce = r.nonce;
  disclosure = r.disclosure;
  canonical_json = json;
  created_at = r.issued_at;
  expires_at = r.expires_at;
  source = source;
  received_at = now;
}

-- `KIND_BY_SCHEMA`'s insert, the edge and the usage, in the order of the transaction.
unfoldable pub write_all :
    V2Record → Text → ℕ → V2RecordSource → Text → StoreDb → Result StoreError StoreDb
write_all r json bytes source now db = do
  with_row ← insert_row (row_of r json source now) db
  with_edge ← insert_edge_of r.record_id r.parent_record_id with_row
  ok (count_remote source bytes now with_edge)
