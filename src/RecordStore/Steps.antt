-- ===== src/RecordStore/Steps.antt =====
-- What a successful append of sovereign/src/protocol/v2/record-store.ts has checked and written.
use cashloom.Prelude.{
  ℕ, ◌≡◌, refl, ap, subst, true, false, Option, none, some, List, [], ◌∷◌, ◌++◌, Text, text_eq,
  length, any, Result, ok, err, require, require-eq-ok, bind-eq-ok, Bool-cases, Option-cases,
  if◌then◌else◌, inl, inr, arith, text_eq_iff,
}
use cashloom.Records.{V2Record, Bytes, Protocol, ProtocolError}
use cashloom.RecordStore.{
  V2RecordSource, StoreConfig, StoredRow, ParentEdge, StoreDb, StoreError, AppendResult,
}
use cashloom.RecordStore.Insert.{
  by_id, row_of, row_collides, insert_row, insert_edge, insert_edge_of, bump_usage, is_remote,
  count_remote, write_all,
}
use cashloom.RecordStore.Append.{
  admissible, check_nonce, check_parent, check_quota, append_new, append_in, append, thrown,
  decoded,
}

abbrev pub edges_of : Text → Option Text → List ParentEdge
edges_of child none = []
edges_of child (some parent) =
    record { child_record_id = child; position = 0; parent_record_id = parent } ∷ []

-- The store after the transaction's three statements.
abbrev pub written : StoredRow → Option Text → ℕ → StoreDb → StoreDb
written row parent bytes db = record {
  records = db.records ++ row ∷ [];
  parents = db.parents ++ edges_of row.record_id parent;
  usage = if is_remote row.source then bump_usage bytes row.received_at db.usage else db.usage;
}

insert_row-ok :
    (row : StoredRow) (db db' : StoreDb)
    → insert_row row db ≡ ok db'
    → (any (row_collides row) db.records ≡ false)
      × (db' ≡ record db { records = db.records ++ row ∷ [] })
unfolding insert_row
insert_row-ok row db db' h = ground arith

insert_edge-ok :
    (edge : ParentEdge) (db db' : StoreDb)
    → insert_edge edge db ≡ ok db'
    → db' ≡ record db { parents = db.parents ++ edge ∷ [] }
unfolding insert_edge
insert_edge-ok edge db db' h = ground arith

append_nil {ℓ} : {A : Type ℓ} (xs : List A) → xs ++ [] ≡ xs
append_nil [] = refl
append_nil (x ∷ xs) = ap (λ ys. x ∷ ys) (append_nil xs)

insert_edge_of-ok :
    (child : Text) (parent : Option Text) (db db' : StoreDb)
    → insert_edge_of child parent db ≡ ok db'
    → db' ≡ record db { parents = db.parents ++ edges_of child parent }
insert_edge_of-ok child none db db' h = ground (arith, append_nil db.parents)
insert_edge_of-ok child (some p) db db' h = insert_edge-ok _ db db' h

write_all-ok :
    (r : V2Record) (json : Text) (bytes : ℕ) (source : V2RecordSource) (now : Text)
    (db db' : StoreDb)
    → write_all r json bytes source now db ≡ ok db'
    → (any (row_collides (row_of r json source now)) db.records ≡ false)
      × (db' ≡ written (row_of r json source now) r.parent_record_id bytes db)
unfolding write_all count_remote
write_all-ok r json bytes source now db db' h =
    let row = row_of r json source now in
    let (with_row, h1, k1) = bind-eq-ok (insert_row row db) _ h in
    let (with_edge, h2, k2) =
      bind-eq-ok (insert_edge_of r.record_id r.parent_record_id with_row) _ k1 in
    let (fresh, e1) = insert_row-ok row db with_row h1 in
    let e2 = insert_edge_of-ok r.record_id r.parent_record_id with_row with_edge h2 in
    (fresh, ground arith)

module _ (protocol : Protocol) (config : StoreConfig) where
  -- What the transaction has established when it stores a record.
  pub record IsAdded (bytes : Bytes) (r : V2Record) (json : Text) (source : V2RecordSource)
      (now : Text) (db : StoreDb) : Type 0 where
    pub verified : protocol.verify bytes ≡ ok r
    pub decoded : protocol.decode bytes ≡ some json
    pub unknown : by_id r.record_id db.records ≡ none
    pub admitted : admissible config.local_node_key_id source r ≡ true
    pub nonce_free : check_nonce r db ≡ ok tt
    pub linked : check_parent protocol config bytes r db ≡ ok tt
    pub in_quota : check_quota protocol config (length bytes) source db ≡ ok tt
    pub apart : any (row_collides (row_of r json source now)) db.records ≡ false

  -- The two ways in which an append commits.
  pub data Appends (bytes : Bytes) (source : V2RecordSource) (now : Text) (db : StoreDb)
      : AppendResult × StoreDb → Type 0 where
    again :
        (r : V2Record) (json : Text) (row : StoredRow)
        → protocol.verify bytes ≡ ok r
        → protocol.decode bytes ≡ some json
        → by_id r.record_id db.records ≡ some row
        → row.canonical_json ≡ json
        → Appends bytes source now db (
          record {
            held = r;
            inserted = false;
            canonical_bytes = length bytes;
            source = row.source;
          },
          db,
        )
    added :
        (r : V2Record) (json : Text)
        → IsAdded bytes r json source now db
        → Appends bytes source now db (
          record { held = r; inserted = true; canonical_bytes = length bytes; source = source },
          written (row_of r json source now) r.parent_record_id (length bytes) db,
        )

  append_new-Appends :
      (bytes : Bytes) (r : V2Record) (json : Text) (source : V2RecordSource) (now : Text)
      (db : StoreDb) (out : AppendResult × StoreDb)
      → protocol.verify bytes ≡ ok r
      → protocol.decode bytes ≡ some json
      → by_id r.record_id db.records ≡ none
      → append_new protocol config bytes r json source now db ≡ ok out
      → Appends bytes source now db out
  unfolding append_new
  append_new-Appends bytes r json source now db out v d unknown h =
      let (h1, k1) =
        require-eq-ok (admissible config.local_node_key_id source r)
          StoreError.private_audience_mismatch _ h in
      let (_, h2, k2) = bind-eq-ok (check_nonce r db) _ k1 in
      let (_, h3, k3) = bind-eq-ok (check_parent protocol config bytes r db) _ k2 in
      let (_, h4, k4) = bind-eq-ok (check_quota protocol config (length bytes) source db) _ k3 in
      let (db', h5, k5) = bind-eq-ok (write_all r json (length bytes) source now db) _ k4 in
      let (apart, same) = write_all-ok r json (length bytes) source now db db' h5 in
      subst (Appends bytes source now db) (cc) (
        Appends.added r json (record {
          verified = v;
          decoded = d;
          unknown = unknown;
          admitted = h1;
          nonce_free = h2;
          linked = h3;
          in_quota = h4;
          apart = apart;
        }))

  thrown-eq-ok {ℓ} : {A : Type ℓ} (m : Result ProtocolError A) (a : A) → thrown m ≡ ok a → m ≡ ok a
  thrown-eq-ok (ok x) a h = cc
  thrown-eq-ok (err e) a h = cc

  decoded-eq-ok :
      (o : Option Text) (json : Text) → decoded protocol config o ≡ ok json → o ≡ some json
  decoded-eq-ok none json h = cc
  decoded-eq-ok (some x) json h = cc

  append_in-Appends :
      (bytes : Bytes) (r : V2Record) (json : Text) (source : V2RecordSource) (now : Text)
      (db : StoreDb) (out : AppendResult × StoreDb)
      → protocol.verify bytes ≡ ok r
      → protocol.decode bytes ≡ some json
      → append_in protocol config bytes r json source now db ≡ ok out
      → Appends bytes source now db out
  unfolding append_in
  append_in-Appends bytes r json source now db out v d h =
      elim (Option-cases (by_id r.record_id db.records)) [
        | inl unknown ↦
            append_new-Appends bytes r json source now db out v d unknown
              (rw (append_in, unknown) at h)
        | inr (row, found) ↦ elim (Bool-cases (text_eq row.canonical_json json)) [
          | inl same ↦
              subst (Appends bytes source now db) (cc (rw (append_in, found, same) at h))
                (Appends.again r json row v d found ((text_eq_iff row.canonical_json json).0 same))
          | inr other ↦ cc (rw (append_in, found, other) at h)
        ]
      ]

  -- An append that does not throw finds the record, or has passed every check and stores it.
  pub append-Appends :
      (bytes : Bytes) (source : V2RecordSource) (now : Text) (db : StoreDb)
      (out : AppendResult × StoreDb)
      → append protocol config bytes source now db ≡ ok out
      → Appends bytes source now db out
  unfolding append
  append-Appends bytes source now db out h =
      let (r, h1, k1) = bind-eq-ok (thrown (protocol.verify bytes)) _ h in
      let (json, h2, k2) = bind-eq-ok (decoded protocol config (protocol.decode bytes)) _ k1 in
      let (_, _, k3) = bind-eq-ok (require (protocol.is_timestamp now) _) _ k2 in
      append_in-Appends bytes r json source now db out (thrown-eq-ok (protocol.verify bytes) r h1)
        (decoded-eq-ok (protocol.decode bytes) json h2) k3
