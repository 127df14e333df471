-- ===== src/RecordStore/Disclosure.antt =====
-- The public getter of sovereign/src/protocol/v2/record-store.ts against the local one.
use cashloom.Prelude.{
  ◌≡◌, refl, ap, false, ◌&&◌, Option, none, some, Text, text_eq, text_eq_iff, find, find-and,
  keep_if, AllPairs-implies, All-every, All-find, Result, ok, err, Bool-cases, if◌then◌else◌, inl,
  inr, arith,
}
use cashloom.Records.{V2Record, Protocol}
use cashloom.Records.Link.{is_public}
use cashloom.RecordStore.{StoreConfig, StoredRow, StoreDb, StoreError}
use cashloom.RecordStore.Insert.{by_id, row_collides}
use cashloom.RecordStore.Reads.{stored_record, get_local, get_public, returned, returned_public}
use cashloom.RecordStore.Sound.{IsFaithful, IsSound}

-- The answer of `getLocal`, with what is private withheld.
abbrev pub withheld : Result StoreError (Option V2Record) → Result StoreError (Option V2Record)
withheld (ok none) = ok none
withheld (ok (some r)) = ok (if is_public r.disclosure then some r else none)
withheld (err e) = err e

ids_apart :
    (id : Text) (x y : StoredRow)
    → row_collides y x ≡ false
    → (text_eq x.record_id id && text_eq y.record_id id) ≡ false
ids_apart id x y h = ground (
  arith,
  text_eq_iff x.record_id id,
  text_eq_iff y.record_id id,
  text_eq_iff x.record_id y.record_id,
)

module _ (protocol : Protocol) (config : StoreConfig) where
  stored-disclosure :
      (row : StoredRow)
      → IsFaithful protocol config row
      → (r : V2Record) × (stored_record protocol row.canonical_json ≡ ok r)
        × (row.disclosure ≡ r.disclosure)
  unfolding stored_record
  stored-disclosure row f = (
    f.signed,
    rw (stored_record, f.verified) refl,
    ap (λ (x : StoredRow). x.disclosure) f.columns,
  )

  public-row :
      (id : Text) (db : StoreDb)
      → IsSound protocol config db
      → find (λ r. text_eq r.record_id id && is_public r.disclosure) db.records
        ≡ keep_if (λ (r : StoredRow). is_public r.disclosure) (by_id id db.records)
  unfolding by_id
  public-row id db h =
      find-and (λ (r : StoredRow). text_eq r.record_id id)
        (λ (r : StoredRow). is_public r.disclosure) db.records
        (AllPairs-implies (λ _. Unit {0}) (λ x y. row_collides y x ≡ false) _ db.records
          (λ x y _ _ e. ids_apart id x y e) (All-every _ db.records (λ _. tt)) h.distinct)

  answers :
      (o : Option StoredRow)
      → ((row : StoredRow) → o ≡ some row → IsFaithful protocol config row)
      → returned_public protocol (keep_if (λ (r : StoredRow). is_public r.disclosure) o)
        ≡ withheld (returned protocol o)
  answers none f = refl
  answers (some row) f =
      let (r, e, d) = stored-disclosure row (f row refl) in
      elim (Bool-cases (is_public row.disclosure)) [
        | inl open_row ↦ rw (open_row, e) (ground arith)
        | inr private_row ↦ rw (private_row, e) (ground arith)
      ]

  -- On a sound store the public getter answers as the local one, with private records withheld.
  pub get_public-get_local :
      (id : Text) (db : StoreDb)
      → IsSound protocol config db
      → get_public protocol id db ≡ withheld (get_local protocol id db)
  unfolding get_public get_local by_id
  get_public-get_local id db h = elim (Bool-cases (protocol.is_sha256_id id)) [
    | inl valid ↦
        rw (get_public, get_local, valid, public-row id db h)
          (answers (by_id id db.records) (λ row e.
            All-find _ (λ (x : StoredRow). text_eq x.record_id id) db.records row h.faithful e))
    | inr invalid ↦ rw (get_public, get_local, invalid) refl
  ]
