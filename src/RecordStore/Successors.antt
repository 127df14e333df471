-- ===== src/RecordStore/Successors.antt =====
-- One successor for each parent in the store of sovereign/src/protocol/v2/record-store.ts.
use cashloom.Prelude.{
  ◌≡◌, ◌≢◌, refl, Bool, true, false, ◌&&◌, ◌||◌, Option, none, some, List, [], ◌∷◌, ◌++◌, Text,
  text_eq, text_eq_iff, length, All, AllPairs, All-every, All_of_any, All-implies, All-both,
  AllPairs-append, AllPairs-implies, find-none, Result-cases, ok, bind-eq-ok, Bool-cases,
  Option-cases, inl, inr, arith,
}
use cashloom.Records.{V2Schema, V2Record, Bytes, Protocol, schema_of}
use cashloom.Records.Link.{verify_v2_record_link}
use cashloom.RecordStore.{V2RecordSource, StoreConfig, StoredRow, ParentEdge, StoreDb, AppendResult}
use cashloom.RecordStore.Insert.{by_id, row_of, is_child, find_child, schema_eq}
use cashloom.RecordStore.Append.{
  is_exclusive, competes, check_successor, thrown, check_link, check_parent, append,
}
use cashloom.RecordStore.Steps.{edges_of, written, IsAdded, Appends, append-Appends}
use cashloom.RecordStore.Sound.{fresh, Call, append_calls}
use cashloom.RecordStore.Edges.{has_edge, KnownChild, has_edge-old, has_edge-new, known-written}

-- The later row could only stand beside the earlier one under different parents: it is an intent of
-- the same payer, or evidence of the same schema.
abbrev pub rivals : StoredRow → StoredRow → Bool
rivals earlier later =
    (schema_eq later.schema V2Schema.payment_intent || is_exclusive later.schema)
    && competes later.schema later.issuer_key_id earlier

abbrev pub Apart : List ParentEdge → StoredRow → StoredRow → Type 0
Apart edges x y =
    (parent : Text)
    → (has_edge edges x.record_id parent && has_edge edges y.record_id parent && rivals x y) ≡ false

-- What the appends keep: every edge has its child in the table, and rivals have different parents.
record IsApart (db : StoreDb) : Type 0 where
  known : All (KnownChild db.records) db.parents
  apart : AllPairs (Apart db.parents) db.records

-- Two children of one parent are not both commitments, both submissions or both settlements, and two
-- intents have different issuers.
pub record AreSuccessors (earlier later : StoredRow) : Type 0 where
  pub intents :
      earlier.schema ≡ V2Schema.payment_intent
      → later.schema ≡ V2Schema.payment_intent
      → earlier.issuer_key_id ≢ later.issuer_key_id
  pub commitments :
      earlier.schema ≡ V2Schema.execution_commitment → later.schema ≢ V2Schema.execution_commitment
  pub submissions :
      earlier.schema ≡ V2Schema.submission_receipt → later.schema ≢ V2Schema.submission_receipt
  pub settlements :
      earlier.schema ≡ V2Schema.settlement_receipt → later.schema ≢ V2Schema.settlement_receipt

-- Any two rows of the table, the earlier first, with an edge to the same parent.
abbrev pub IsLinear : StoreDb → Type 0
IsLinear db =
    AllPairs
      (λ earlier later.
        (parent : Text)
        → has_edge db.parents earlier.record_id parent ≡ true
        → has_edge db.parents later.record_id parent ≡ true
        → AreSuccessors earlier later)
      db.records

rivals-AreSuccessors : (x y : StoredRow) → rivals x y ≡ false → AreSuccessors x y
unfolding text_eq
rivals-AreSuccessors x y h = record {
  intents = λ ex ey same. cc (rw (ex, ey, (text_eq_iff _ _).1 same) at h);
  commitments = λ ex ey. cc (rw (ex, ey) at h);
  submissions = λ ex ey. cc (rw (ex, ey) at h);
  settlements = λ ex ey. cc (rw (ex, ey) at h);
}

IsApart-IsLinear : (db : StoreDb) → IsApart db → IsLinear db
IsApart-IsLinear db h =
    AllPairs-implies (λ (x : StoredRow). Unit {0}) (Apart db.parents) _ db.records
      (λ x y _ _ apart parent mine yours.
        let e = apart parent in rivals-AreSuccessors x y (ground arith))
      (All-every _ db.records (λ _. tt)) h.apart

-- Whether a new record of the schema competes with earlier children at all.
abbrev is_single : V2Schema → Bool
is_single schema = schema_eq schema V2Schema.payment_intent || is_exclusive schema

successor-alone :
    (r : V2Record) (pid : Text) (db : StoreDb)
    → check_successor r pid db ≡ ok tt
    → is_single (schema_of r.body) ≡ true
    → find_child pid (competes (schema_of r.body) r.authority.key_id) db ≡ none
unfolding check_successor
successor-alone r pid db h single =
    elim (Option-cases (find_child pid (competes (schema_of r.body) r.authority.key_id) db)) [
      | inl e ↦ e
      | inr (row, e) ↦ absurd (cc (rw (check_successor, single, e) at h))
    ]

-- No child of this parent is a rival of a record that has passed the check.
no_rival :
    (r : V2Record) (json : Text) (source : V2RecordSource) (now : Text) (db : StoreDb) (pid : Text)
    → check_successor r pid db ≡ ok tt
    → All
        (λ x. (has_edge db.parents x.record_id pid && rivals x (row_of r json source now)) ≡ false)
        db.records
unfolding find_child
no_rival r json source now db pid h = elim (Bool-cases (is_single (schema_of r.body))) [
  | inl single ↦
      (let test = is_child db.parents pid (competes (schema_of r.body) r.authority.key_id) in
        All-implies (λ x. test x ≡ false) _ db.records (λ x e. ground arith)
          (All_of_any test db.records
            (find-none test db.records (successor-alone r pid db h single))))
  | inr free ↦ All-every _ db.records (λ x. ground arith)
]

module _ (protocol : Protocol) (config : StoreConfig) where
  check_link-successor :
      (bytes : Bytes) (r : V2Record) (pid : Text) (db : StoreDb)
      → check_link protocol config bytes r pid db ≡ ok tt
      → check_successor r pid db ≡ ok tt
  unfolding check_link
  check_link-successor bytes r pid db h = elim (Option-cases (by_id pid db.records)) [
    | inl none_there ↦ absurd (cc (rw (check_link, none_there) at h))
    | inr (parent, e) ↦
        (let link =
            thrown (verify_v2_record_link protocol bytes (protocol.encode parent.canonical_json)) in
          let (_, _, k) =
            bind-eq-ok link (λ _. check_successor r pid db) (rw (check_link, e) at h) in
          k)
  ]

  check_parent-successor :
      (bytes : Bytes) (r : V2Record) (pid : Text) (db : StoreDb)
      → check_parent protocol config bytes r db ≡ ok tt
      → r.parent_record_id ≡ some pid
      → check_successor r pid db ≡ ok tt
  unfolding check_parent
  check_parent-successor bytes r pid db h e =
      check_link-successor bytes r pid db (rw (check_parent, e) at h)

  module _ (bytes : Bytes) (r : V2Record) (json : Text) (source : V2RecordSource) (now : Text)
      (db : StoreDb) (a : IsAdded protocol config bytes r json source now db) (h : IsApart db) where
    unrivalled :
        (parent : Option Text)
        → r.parent_record_id ≡ parent
        → All
            (λ x.
              (pid : Text)
              → parent ≡ some pid
              → (has_edge db.parents x.record_id pid && rivals x (row_of r json source now))
                ≡ false)
            db.records
    unrivalled none e = All-every _ db.records (λ x pid k. cc)
    unrivalled (some p) e =
        All-implies _ _ db.records (λ x k pid same. ground arith)
          (no_rival r json source now db p (check_parent-successor bytes r p db a.linked e))

    far :
        (x : StoredRow)
        → text_eq x.record_id r.record_id ≡ false
        → ((pid : Text)
            → r.parent_record_id ≡ some pid
            → (has_edge db.parents x.record_id pid && rivals x (row_of r json source now)) ≡ false)
        → Apart (db.parents ++ edges_of r.record_id r.parent_record_id) x (row_of r json source now)
    unfolding by_id
    far x other alone pid =
        let edges = db.parents ++ edges_of r.record_id r.parent_record_id in
        let unknown =
          find-none (λ (y : StoredRow). text_eq y.record_id r.record_id) db.records a.unknown in
        elim (Bool-cases (has_edge edges r.record_id pid)) [
          | inl mine ↦
              (let e =
                  has_edge-new db.records db.parents r.record_id r.parent_record_id pid unknown
                    h.known mine in
                let none_yet = alone pid e in
                let old =
                  has_edge-old db.parents r.record_id r.parent_record_id x.record_id pid other in
                ground arith)
          | inr elsewhere ↦ ground arith
        ]

    added-IsApart :
        IsApart (written (row_of r json source now) r.parent_record_id (length bytes) db)
    unfolding by_id
    added-IsApart =
        let row = row_of r json source now in
        let edges = db.parents ++ edges_of r.record_id r.parent_record_id in
        let unknown =
          find-none (λ (x : StoredRow). text_eq x.record_id r.record_id) db.records a.unknown in
        let other =
          All_of_any (λ (x : StoredRow). text_eq x.record_id r.record_id) db.records unknown in
        record {
          known = known-written db.records row db.parents r.parent_record_id h.known;
          apart =
              AllPairs-append (Apart edges) db.records row
                (All-both _ _ (λ x. Apart edges x row) db.records far other
                  (unrivalled r.parent_record_id refl))
                (AllPairs-implies (λ x. text_eq x.record_id r.record_id ≡ false) (Apart db.parents)
                  (Apart edges) db.records
                  (λ x y ox oy k pid.
                    (let ex =
                        has_edge-old db.parents r.record_id r.parent_record_id x.record_id pid ox in
                      let ey =
                        has_edge-old db.parents r.record_id r.parent_record_id y.record_id pid oy in
                      let before = k pid in ground arith))
                  other h.apart);
        }

  Appends-IsApart :
      (c : Call) (db : StoreDb) (out : AppendResult × StoreDb)
      → Appends protocol config c.bytes c.source c.now db out
      → IsApart db
      → IsApart out.1
  Appends-IsApart c db _ (Appends.again r json row v d found same) h = h
  Appends-IsApart c db _ (Appends.added r json a) h =
      added-IsApart c.bytes r json c.source c.now db a h

  append_calls-IsApart :
      (cs : List Call) (db : StoreDb) → IsApart db → IsApart (append_calls protocol config cs db)
  unfolding append_calls
  append_calls-IsApart [] db h = h
  append_calls-IsApart (c ∷ cs) db h =
      append_calls-IsApart cs _
        (elim (Result-cases (append protocol config c.bytes c.source c.now db)) [
          | inl (out, e) ↦ rw e (
              Appends-IsApart c db out
                (append-Appends protocol config c.bytes c.source c.now db out e) h)
          | inr (_, e) ↦ rw e h
        ])

  -- After any calls of `append` on a fresh store, two children of one parent are not both commitments,
  -- both submissions or both settlements, and if both are intents then of different issuers.
  pub calls-IsLinear :
      (now : Text) (cs : List Call) → IsLinear (append_calls protocol config cs (fresh now))
  calls-IsLinear now cs =
      IsApart-IsLinear _ (append_calls-IsApart cs (fresh now) (record { known = tt; apart = tt }))
