-- ===== src/RecordStore/Sound.antt =====
-- The rows and the usage counters of the store of sovereign/src/protocol/v2/record-store.ts, over
-- any calls.
use cashloom.Prelude.{
  ℕ, ◌+◌, ◌≤◌, ◌≡◌, refl, sym, ap, subst, Bool, true, false, not, ◌||◌, some, List, [], ◌∷◌, ◌++◌,
  Text, length, count, sum_of, count-append, sum_of-append, All, AllPairs, All-append, All_of_any,
  AllPairs-append, Result, Result-cases, ok, err, if◌then◌else◌, Bool-cases, inl, inr, arith,
}
use cashloom.Records.{V2Record, Bytes, Protocol}
use cashloom.Records.Link.{is_public}
use cashloom.RecordStore.{
  V2RecordSource, StoreConfig, StoredRow, UsageRow, StoreDb, StoreError, AppendResult,
}
use cashloom.RecordStore.Insert.{row_of, row_collides, bump, is_remote, read_usage_row}
use cashloom.RecordStore.Append.{admissible, is_audience, check_quota, append}
use cashloom.RecordStore.Steps.{written, IsAdded, Appends, append-Appends}

-- The store as `installCashLoomV2Schema` leaves it.
abbrev pub fresh : Text → StoreDb
fresh now = record {
  records = [];
  parents = [];
  usage = some (record { remote_record_count = 0; remote_canonical_bytes = 0; updated_at = now });
}

-- A call of `append`, with what the clock returns.
pub record Call : Type 0 where
  pub bytes : Bytes
  pub source : V2RecordSource
  pub now : Text

abbrev remote_row : StoredRow → Bool
remote_row row = is_remote row.source

module _ (protocol : Protocol) (config : StoreConfig) where
  abbrev pub after : StoreDb → Result StoreError (AppendResult × StoreDb) → StoreDb
  after db (ok out) = out.1
  after db (err e) = db

  -- The calls one after the other; one that throws is rolled back.
  unfoldable pub append_calls : List Call → StoreDb → StoreDb
  append_calls [] db = db
  append_calls (c ∷ cs) db =
      append_calls cs (after db (append protocol config c.bytes c.source c.now db))

  -- The stored text verifies as the record that the columns were taken from, and a private record from
  -- a peer is for this node.
  pub record IsFaithful (row : StoredRow) : Type 0 where
    pub signed : V2Record
    pub verified : protocol.verify (protocol.encode row.canonical_json) ≡ ok signed
    pub columns : row ≡ row_of signed row.canonical_json row.source row.received_at
    pub admitted :
        (not (is_remote row.source)
          || is_public row.disclosure
          || is_audience config.local_node_key_id row.audience)
        ≡ true

  abbrev pub row_bytes : StoredRow → ℕ
  row_bytes row = length (protocol.encode row.canonical_json)

  -- The counters are those of the rows that came from peers, and within the limits.
  pub record IsCounted (db : StoreDb) : Type 0 where
    pub usage : UsageRow
    pub current : db.usage ≡ some usage
    pub counted : usage.remote_record_count ≡ count remote_row db.records
    pub summed : usage.remote_canonical_bytes ≡ sum_of remote_row row_bytes db.records
    pub few : usage.remote_record_count ≤ config.remote_limits.max_record_count
    pub small : usage.remote_canonical_bytes ≤ config.remote_limits.max_canonical_bytes

  pub record IsSound (db : StoreDb) : Type 0 where
    pub faithful : All IsFaithful db.records
    pub distinct : AllPairs (λ x y. row_collides y x ≡ false) db.records
    pub counted : IsCounted db

  fresh-IsSound : (now : Text) → IsSound (fresh now)
  unfolding count sum_of
  fresh-IsSound now = record {
    faithful = tt;
    distinct = tt;
    counted = record {
      usage = _;
      current = refl;
      counted = refl;
      summed = refl;
      few = omega arith;
      small = omega arith;
    };
  }

  quota-holds :
      (bytes : ℕ) (source : V2RecordSource) (db : StoreDb) (u : UsageRow)
      → check_quota protocol config bytes source db ≡ ok tt
      → db.usage ≡ some u
      → is_remote source ≡ true
      → (u.remote_record_count + 1 ≤ config.remote_limits.max_record_count)
        × (u.remote_canonical_bytes + bytes ≤ config.remote_limits.max_canonical_bytes)
  unfolding check_quota read_usage_row
  quota-holds bytes source db u h e remote = ground arith

  -- The hypothesis says that `TextEncoder` gives back the bytes of a verified text.
  module _
      (exact : (bytes : Bytes) (json : Text) (r : V2Record)
        → protocol.verify bytes ≡ ok r
        → protocol.decode bytes ≡ some json
        → protocol.encode json ≡ bytes) where
    module _ (bytes : Bytes) (r : V2Record) (json : Text) (source : V2RecordSource) (now : Text)
        (db : StoreDb) (a : IsAdded protocol config bytes r json source now db) where
      added-IsFaithful : IsFaithful (row_of r json source now)
      unfolding admissible
      added-IsFaithful = record {
        signed = r;
        verified =
            subst (λ x. protocol.verify x ≡ ok r) (sym (exact bytes json r a.verified a.decoded))
              a.verified;
        columns = refl;
        admitted = (let ad = a.admitted in ground arith);
      }

      count-written :
          count remote_row (db.records ++ row_of r json source now ∷ [])
          ≡ count remote_row db.records + (if is_remote source then 1 else 0)
      unfolding count
      count-written =
          ground (arith, count-append remote_row db.records (row_of r json source now ∷ []))

      sum-written :
          sum_of remote_row row_bytes (db.records ++ row_of r json source now ∷ [])
          ≡ sum_of remote_row row_bytes db.records + (if is_remote source then length bytes else 0)
      unfolding sum_of
      sum-written =
          let size = ap length (exact bytes json r a.verified a.decoded) in
          ground
            (arith, sum_of-append remote_row row_bytes db.records (row_of r json source now ∷ []))

      added-IsCounted :
          IsCounted db
          → IsCounted (written (row_of r json source now) r.parent_record_id (length bytes) db)
      added-IsCounted c =
          let u = c.usage in
          let n = count-written in
          let m = sum-written in
          let e = c.counted in
          let f = c.summed in
          elim (Bool-cases (is_remote source)) [
            | inl remote ↦
                (let (few, small) =
                    quota-holds (length bytes) source db u a.in_quota c.current remote in
                  record {
                    usage = bump (length bytes) now u;
                    current = rw (remote, c.current) refl;
                    counted = ground arith;
                    summed = ground arith;
                    few = few;
                    small = small;
                  })
            | inr local ↦ record {
              usage = u;
              current = rw local c.current;
              counted = ground arith;
              summed = ground arith;
              few = c.few;
              small = c.small;
            }
          ]

    Appends-IsSound :
        (c : Call) (db : StoreDb) (out : AppendResult × StoreDb)
        → Appends protocol config c.bytes c.source c.now db out
        → IsSound db
        → IsSound out.1
    Appends-IsSound c db _ (Appends.again r json row v d found same) h = h
    Appends-IsSound c db _ (Appends.added r json a) h =
        let row = row_of r json c.source c.now in
        record {
          faithful =
              All-append IsFaithful db.records (row ∷ []) h.faithful
                (added-IsFaithful c.bytes r json c.source c.now db a, tt);
          distinct =
              AllPairs-append (λ x y. row_collides y x ≡ false) db.records row
                (All_of_any (row_collides row) db.records a.apart) h.distinct;
          counted = added-IsCounted c.bytes r json c.source c.now db a h.counted;
        }

    after-IsSound :
        (c : Call) (db : StoreDb)
        → IsSound db
        → IsSound (after db (append protocol config c.bytes c.source c.now db))
    after-IsSound c db h = elim (Result-cases (append protocol config c.bytes c.source c.now db)) [
      | inl (out, e) ↦ rw e (
          Appends-IsSound c db out (append-Appends protocol config c.bytes c.source c.now db out e)
            h)
      | inr (_, e) ↦ rw e h
    ]

    append_calls-IsSound :
        (cs : List Call) (db : StoreDb) → IsSound db → IsSound (append_calls cs db)
    unfolding append_calls
    append_calls-IsSound [] db h = h
    append_calls-IsSound (c ∷ cs) db h = append_calls-IsSound cs _ (after-IsSound c db h)

    -- After any calls of `append` on a fresh store, every row verifies as the record its columns come
    -- from, a peer's private record is there only for its audience, no two rows share a content id, an
    -- issuer's nonce or a text, and the usage counters are those of the peers' rows and within limits,
    -- provided the encoder gives back the bytes of a verified text.
    pub calls-IsSound : (now : Text) (cs : List Call) → IsSound (append_calls cs (fresh now))
    calls-IsSound now cs = append_calls-IsSound cs (fresh now) (fresh-IsSound now)
