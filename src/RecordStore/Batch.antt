-- ===== src/RecordStore/Batch.antt =====
-- `appendBatch` of sovereign/src/protocol/v2/record-store.ts: what a batch that commits has taken in.
use cashloom.Prelude.{
  ℕ, ◌+◌, ◌≡◌, refl, sym, ap, ◌∙◌, true, false, some, List, [], ◌∷◌, map, Text, text_eq, length,
  length-append, count, ok, bind-eq-ok, require-eq-ok, ok-injective, find-append_none, text_eq_refl,
  arith, subst,
}
use cashloom.Records.{Protocol, Bytes}
use cashloom.RecordStore.{StoreConfig, StoredRow, StoreDb, AppendInput, AppendResult}
use cashloom.RecordStore.Insert.{by_id, row_of}
use cashloom.RecordStore.Append.{
  append, append_each, append_batch, prepare, inputs, thrown, decoded,
}
use cashloom.RecordStore.Steps.{Appends, append-Appends}
use cashloom.RecordStore.Recall.{known, IsHeld, by_id-Appends, append-IsHeld}

-- The answer for a record that the store holds already.
abbrev pub again : AppendResult → AppendResult
again r = record r { inserted = false }

known_again :
    (bytes : Bytes) (result : AppendResult) (row : StoredRow) (db : StoreDb)
    → result.canonical_bytes ≡ length bytes
    → result.source ≡ row.source
    → known bytes result.held row db ≡ (again result, db)
known_again bytes result row db size source = rw (size, source) refl

-- Rows of the first result and of the others add up.
new_rows :
    (first : AppendResult) (others : List AppendResult) (before between after : ℕ)
    → between ≡ before + count (λ (r : AppendResult). r.inserted) (first ∷ [])
    → after ≡ between + count (λ (r : AppendResult). r.inserted) others
    → after ≡ before + count (λ (r : AppendResult). r.inserted) (first ∷ others)
unfolding count
new_rows first others before between after one sum = ground arith

module _ (protocol : Protocol) (config : StoreConfig) where
  -- The result of an entry against the store: the record that the entry's bytes verify to is there, with
  -- their text; the result says its length and where it came from, and a row that is new came from the
  -- entry's door at the entry's time.
  pub record IsStored (entry : AppendInput) (now : Text) (result : AppendResult) (db : StoreDb)
      : Type 0 where
    pub verified : protocol.verify entry.canonical_bytes ≡ ok result.held
    pub size : result.canonical_bytes ≡ length entry.canonical_bytes
    pub clock : protocol.is_timestamp now ≡ true
    pub row : StoredRow
    pub found : by_id result.held.record_id db.records ≡ some row
    pub text : protocol.decode entry.canonical_bytes ≡ some row.canonical_json
    pub source : result.source ≡ row.source
    pub own : result.inserted ≡ true → (row.source ≡ entry.source) × (row.received_at ≡ now)

  -- A result for each entry, in their order.
  pub data AllStored (db : StoreDb) : List (AppendInput × Text) → List AppendResult → Type 0 where
    done : AllStored db [] []
    also :
        (entry : AppendInput) (now : Text) (result : AppendResult)
        (entries : List (AppendInput × Text)) (results : List AppendResult)
        → IsStored entry now result db
        → AllStored db entries results
        → AllStored db ((entry, now) ∷ entries) (result ∷ results)

  append-clock :
      (entry : AppendInput) (now : Text) (db : StoreDb) (out : AppendResult × StoreDb)
      → append protocol config entry.canonical_bytes entry.source now db ≡ ok out
      → protocol.is_timestamp now ≡ true
  unfolding append
  append-clock entry now db out h =
      let (_, _, k1) = bind-eq-ok (thrown (protocol.verify entry.canonical_bytes)) _ h in
      let (_, _, k2) =
        bind-eq-ok (decoded protocol config (protocol.decode entry.canonical_bytes)) _ k1 in
      (require-eq-ok (protocol.is_timestamp now) _ _ k2).0

  Appends-IsStored :
      (entry : AppendInput) (now : Text) (db : StoreDb) (out : AppendResult × StoreDb)
      → protocol.is_timestamp now ≡ true
      → Appends protocol config entry.canonical_bytes entry.source now db out
      → IsStored entry now out.0 out.1
  unfolding by_id
  Appends-IsStored entry now db _ clock (Appends.again r json row v d found same) = record {
    verified = v;
    size = refl;
    clock = clock;
    row = row;
    found = found;
    text = d ∙ ap some (sym same);
    source = refl;
    own = λ e. cc;
  }
  Appends-IsStored entry now db _ clock (Appends.added r json a) = record {
    verified = a.verified;
    size = refl;
    clock = clock;
    row = row_of r json entry.source now;
    found =
        find-append_none (λ (x : StoredRow). text_eq x.record_id r.record_id) db.records
          (row_of r json entry.source now) a.unknown (text_eq_refl r.record_id);
    text = a.decoded;
    source = refl;
    own = λ e. (refl, refl);
  }

  Appends-length :
      (entry : AppendInput) (now : Text) (db : StoreDb) (out : AppendResult × StoreDb)
      → Appends protocol config entry.canonical_bytes entry.source now db out
      → length out.1.records
        ≡ length db.records + count (λ (r : AppendResult). r.inserted) (out.0 ∷ [])
  unfolding count
  Appends-length entry now db _ (Appends.again r json row v d found same) = omega arith
  Appends-length entry now db _ (Appends.added r json a) =
      length-append db.records (row_of r json entry.source now ∷ [])

  append_each-by_id :
      (entries : List (AppendInput × Text)) (db : StoreDb) (out : List AppendResult × StoreDb)
      (id : Text) (row : StoredRow)
      → append_each protocol config entries db ≡ ok out
      → by_id id db.records ≡ some row
      → by_id id out.1.records ≡ some row
  unfolding append_each
  append_each-by_id [] db out id row h there =
      subst (λ (x : List AppendResult × StoreDb). by_id id x.1.records ≡ some row)
        (ok-injective refl h) there
  append_each-by_id ((entry, now) ∷ rest) db out id row h there =
      let (first, h1, k1) =
        bind-eq-ok (append protocol config entry.canonical_bytes entry.source now db) _ h in
      let (others, h2, k2) = bind-eq-ok (append_each protocol config rest first.1) _ k1 in
      let last = ap (λ (x : List AppendResult × StoreDb). x.1) (ok-injective refl k2) in
      subst (λ (x : StoreDb). by_id id x.records ≡ some row) last
        (append_each-by_id rest first.1 others id row h2 (
          by_id-Appends protocol config entry.canonical_bytes entry.source now db first id row
            (append-Appends protocol config entry.canonical_bytes entry.source now db first h1)
            there))

  append_each-AllStored :
      (entries : List (AppendInput × Text)) (db : StoreDb) (out : List AppendResult × StoreDb)
      → append_each protocol config entries db ≡ ok out
      → AllStored out.1 entries out.0
        × (length out.1.records
            ≡ length db.records + count (λ (r : AppendResult). r.inserted) out.0)
  unfolding append_each count
  append_each-AllStored [] db out h =
      subst
        (λ (x : List AppendResult × StoreDb).
          AllStored x.1 [] x.0
          × (length x.1.records ≡ length db.records + count (λ (r : AppendResult). r.inserted) x.0))
        (ok-injective refl h) (AllStored.done, omega arith)
  append_each-AllStored ((entry, now) ∷ rest) db out h =
      let (first, h1, k1) =
        bind-eq-ok (append protocol config entry.canonical_bytes entry.source now db) _ h in
      let (others, h2, k2) = bind-eq-ok (append_each protocol config rest first.1) _ k1 in
      let step =
        append-Appends protocol config entry.canonical_bytes entry.source now db first h1 in
      let s = Appends-IsStored entry now db first (append-clock entry now db first h1) step in
      let (tail, sum) = append_each-AllStored rest first.1 others h2 in
      let one = Appends-length entry now db first step in
      let here : IsStored entry now first.0 others.1 = record {
        verified = s.verified;
        size = s.size;
        clock = s.clock;
        row = s.row;
        found = append_each-by_id rest first.1 others first.0.held.record_id s.row h2 s.found;
        text = s.text;
        source = s.source;
        own = s.own;
      } in
      subst
        (λ (x : List AppendResult × StoreDb).
          AllStored x.1 ((entry, now) ∷ rest) x.0
          × (length x.1.records ≡ length db.records + count (λ (r : AppendResult). r.inserted) x.0))
        (ok-injective refl k2)
        (
          AllStored.also entry now first.0 rest others.0 here tail,
          new_rows first.0 others.0 _ _ _ one sum,
        )

  IsStored-again :
      (entry : AppendInput) (now : Text) (result : AppendResult) (db : StoreDb)
      → IsStored entry now result db
      → append protocol config entry.canonical_bytes entry.source now db ≡ ok (again result, db)
  IsStored-again entry now result db s =
      let held : IsHeld protocol config entry.canonical_bytes result.held db = record {
        json = s.row.canonical_json;
        row = s.row;
        verified = s.verified;
        decoded = s.text;
        found = s.found;
        text = refl;
      } in
      append-IsHeld protocol config entry.canonical_bytes result.held db entry.source now held
        s.clock
      ∙ ap ok (known_again entry.canonical_bytes result s.row db s.size s.source)

  AllStored-again :
      (db : StoreDb) (entries : List (AppendInput × Text)) (results : List AppendResult)
      → AllStored db entries results
      → append_each protocol config entries db ≡ ok (map again results, db)
  unfolding append_each
  AllStored-again db _ _ AllStored.done = refl
  AllStored-again db _ _ (AllStored.also entry now result entries results s all) =
      rw (IsStored-again entry now result db s, AllStored-again db entries results all) refl

  -- A batch that commits has taken in every entry: in the store that it leaves each entry's result, in
  -- order, tells of the record that the entry's bytes verify to; there are as many new rows as results
  -- that say so; and the same batch again commits, changes nothing, and returns the same results as
  -- known ones.
  pub append_batch-AllStored :
      (entries : List (AppendInput × Text)) (db : StoreDb) (out : List AppendResult × StoreDb)
      → append_batch protocol config entries db ≡ ok out
      → AllStored out.1 entries out.0
        × (length out.1.records
            ≡ length db.records + count (λ (r : AppendResult). r.inserted) out.0)
        × (append_batch protocol config entries out.1 ≡ ok (map again out.0, out.1))
  unfolding append_batch
  append_batch-AllStored entries db out h =
      let (u, ready, k) =
        bind-eq-ok (prepare protocol config (inputs protocol config entries)) _ h in
      let (all, sum) = append_each-AllStored entries db out k in
      (all, sum, rw ready (AllStored-again out.1 entries out.0 all))
