-- ===== src/RecordStore/Recall.antt =====
-- A record that the store of sovereign/src/protocol/v2/record-store.ts has taken in stays there.
use cashloom.Prelude.{
  ◌≡◌, refl, sym, ap, ◌∙◌, true, false, some, List, [], ◌∷◌, Text, text_eq, text_eq_refl, length,
  find-append, find-append_none, Result-cases, ok, inl, inr,
}
use cashloom.Records.{V2Record, Bytes, Protocol}
use cashloom.RecordStore.{V2RecordSource, StoreConfig, StoredRow, StoreDb, AppendResult}
use cashloom.RecordStore.Insert.{by_id, row_of}
use cashloom.RecordStore.Append.{append_in, append}
use cashloom.RecordStore.Reads.{stored_record, get_local}
use cashloom.RecordStore.Steps.{Appends, append-Appends}
use cashloom.RecordStore.Sound.{Call, append_calls}

-- What an append returns for a record that the store holds.
abbrev pub known : Bytes → V2Record → StoredRow → StoreDb → AppendResult × StoreDb
known bytes r row db =
    (record { held = r; inserted = false; canonical_bytes = length bytes; source = row.source }, db)

module _ (protocol : Protocol) (config : StoreConfig) where
  -- A record of these bytes is in the store, under its content id.
  pub record IsHeld (bytes : Bytes) (r : V2Record) (db : StoreDb) : Type 0 where
    pub json : Text
    pub row : StoredRow
    pub verified : protocol.verify bytes ≡ ok r
    pub decoded : protocol.decode bytes ≡ some json
    pub found : by_id r.record_id db.records ≡ some row
    pub text : row.canonical_json ≡ json

  Appends-IsHeld :
      (bytes : Bytes) (source : V2RecordSource) (now : Text) (db : StoreDb)
      (out : AppendResult × StoreDb)
      → Appends protocol config bytes source now db out
      → IsHeld bytes out.0.held out.1
  unfolding by_id
  Appends-IsHeld bytes source now db _ (Appends.again r json row v d found same) = record {
    json = json;
    row = row;
    verified = v;
    decoded = d;
    found = found;
    text = same;
  }
  Appends-IsHeld bytes source now db _ (Appends.added r json a) = record {
    json = json;
    row = row_of r json source now;
    verified = a.verified;
    decoded = a.decoded;
    found =
        find-append_none (λ (x : StoredRow). text_eq x.record_id r.record_id) db.records
          (row_of r json source now) a.unknown (text_eq_refl r.record_id);
    text = refl;
  }

  pub by_id-Appends :
      (bytes : Bytes) (source : V2RecordSource) (now : Text) (db : StoreDb)
      (out : AppendResult × StoreDb) (id : Text) (row : StoredRow)
      → Appends protocol config bytes source now db out
      → by_id id db.records ≡ some row
      → by_id id out.1.records ≡ some row
  unfolding by_id
  by_id-Appends bytes source now db _ id row (Appends.again r json x v d found same) h = h
  by_id-Appends bytes source now db _ id row (Appends.added r json a) h =
      find-append (λ (x : StoredRow). text_eq x.record_id id) db.records
        (row_of r json source now ∷ []) row h

  -- The store is append-only: a row that is there stays as it is.
  by_id-append_calls :
      (id : Text) (row : StoredRow) (cs : List Call) (db : StoreDb)
      → by_id id db.records ≡ some row
      → by_id id (append_calls protocol config cs db).records ≡ some row
  unfolding append_calls
  by_id-append_calls id row [] db h = h
  by_id-append_calls id row (c ∷ cs) db h =
      by_id-append_calls id row cs _
        (elim (Result-cases (append protocol config c.bytes c.source c.now db)) [
          | inl (out, e) ↦ rw e (
              by_id-Appends c.bytes c.source c.now db out id row
                (append-Appends protocol config c.bytes c.source c.now db out e) h)
          | inr (_, e) ↦ rw e h
        ])

  pub append-IsHeld :
      (bytes : Bytes) (r : V2Record) (db : StoreDb) (source : V2RecordSource) (now : Text)
      (h : IsHeld bytes r db)
      → protocol.is_timestamp now ≡ true
      → append protocol config bytes source now db ≡ ok (known bytes r h.row db)
  unfolding append append_in
  append-IsHeld bytes r db source now h clock =
      let same =
        ap (text_eq h.row.canonical_json) (sym h.text) ∙ text_eq_refl h.row.canonical_json in
      rw (append, append_in, h.verified, h.decoded, clock, h.found, same) refl

  -- The hypothesis says that `TextEncoder` gives back the bytes of a verified text.
  module _
      (exact : (bytes : Bytes) (json : Text) (r : V2Record)
        → protocol.verify bytes ≡ ok r
        → protocol.decode bytes ≡ some json
        → protocol.encode json ≡ bytes) where
    get_local-IsHeld :
        (bytes : Bytes) (r : V2Record) (db : StoreDb)
        → IsHeld bytes r db
        → protocol.is_sha256_id r.record_id ≡ true
        → get_local protocol r.record_id db ≡ ok (some r)
    unfolding get_local stored_record
    get_local-IsHeld bytes r db h valid =
        let whole = ap protocol.encode h.text ∙ exact bytes h.json r h.verified h.decoded in
        rw (get_local, stored_record, valid, h.found, whole, h.verified) refl

    -- A record that an append has returned is there for good: after any later calls `getLocal` returns
    -- it under its content id, if that passes as one, and appending its bytes again, from either door at
    -- a valid time, stores nothing, provided the encoder gives back the bytes of a verified text.
    pub append-recall :
        (bytes : Bytes) (source : V2RecordSource) (now : Text) (db : StoreDb)
        (out : AppendResult × StoreDb) (cs : List Call) (door : V2RecordSource) (at : Text)
        → append protocol config bytes source now db ≡ ok out
        → protocol.is_sha256_id out.0.held.record_id ≡ true
        → protocol.is_timestamp at ≡ true
        → let later = append_calls protocol config cs out.1 in
          (get_local protocol out.0.held.record_id later ≡ ok (some out.0.held))
          × ((row : StoredRow) × (append protocol config bytes door at later
                ≡ ok (known bytes out.0.held row later)))
    append-recall bytes source now db out cs door at h valid clock =
        let held =
          Appends-IsHeld bytes source now db out
            (append-Appends protocol config bytes source now db out h) in
        let later = append_calls protocol config cs out.1 in
        let still : IsHeld bytes out.0.held later = record {
          json = held.json;
          row = held.row;
          verified = held.verified;
          decoded = held.decoded;
          found = by_id-append_calls out.0.held.record_id held.row cs out.1 held.found;
          text = held.text;
        } in
        (
          get_local-IsHeld bytes out.0.held later still valid,
          (held.row, append-IsHeld bytes out.0.held later door at still clock),
        )
