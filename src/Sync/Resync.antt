-- ===== src/Sync/Resync.antt =====
-- Synchronising again what sovereign/src/sync.ts has recorded changes nothing.
use cashloom.Prelude.{
  suc, ◌+◌, ◌≡◌, refl, sym, ap, subst, ◌∙◌, true, false, ◌||◌, not, ◌⊎◌, inl, inr, List, [], ◌∷◌,
  ◌++◌, Text, text_eq, any, any-append, length, All, AllPairs, All-both, Bool-cases, arith,
}
use cashloom.Ledger.{Transaction, collides, insert_or_ignore}
use cashloom.Ledger.Laws.{insert-collides}
use cashloom.Sync.{
  AccountRow, NormalizedBalance, NormalizedTransaction, SyncDb, Counts, same_currency,
  connector_row, is_known, record_row, record_rows, record_sync,
}

abbrev pub Fetched : Type 0
Fetched = NormalizedTransaction × Text

module _ (to_upper : Text → Text) (account : AccountRow) where
  -- The rows of the account's currency are all in the table.
  abbrev IsCovered : List Transaction → Fetched → Type 0
  IsCovered rows f =
      (not (same_currency to_upper f.0.currency account.currency)
        || any (collides (connector_row account.id f.0 f.1)) rows)
      ≡ true

  known_of_collides :
      (t : Transaction) (rows : List Transaction)
      → any (collides t) rows ≡ true
      → is_known t rows ≡ true
  unfolding any
  known_of_collides t [] h = h
  known_of_collides t (u ∷ us) h = ground (arith, known_of_collides t us)

  ignored :
      (t : Transaction) (rows : List Transaction)
      → is_known t rows ≡ true
      → insert_or_ignore t rows ≡ rows
  unfolding insert_or_ignore
  ignored t rows h = rw (insert_or_ignore, h) refl

  covered-row :
      (tx : NormalizedTransaction) (new_id : Text) (n : Counts) (rows : List Transaction)
      → IsCovered rows (tx, new_id)
      → record_row to_upper account tx new_id n rows ≡ (record n { skipped = n.skipped + 1 }, rows)
  unfolding record_row
  covered-row tx new_id n rows h =
      let row = connector_row account.id tx new_id in
      elim (Bool-cases (same_currency to_upper tx.currency account.currency)) [
        | inl same ↦
            (let known = known_of_collides row rows (ground arith) in
              let keep = ignored row rows known in rw (record_row, same, known, keep) refl)
        | inr foreign ↦ rw (record_row, foreign) refl
      ]

  -- Rows that are covered are all skipped.
  covered-skipped :
      (fs : List Fetched) (n : Counts) (rows : List Transaction)
      → All (IsCovered rows) fs
      → record_rows to_upper account fs n rows
        ≡ (record { imported = n.imported; skipped = n.skipped + length fs }, rows)
  unfolding record_rows
  covered-skipped [] n rows h = ground arith
  covered-skipped ((tx, new_id) ∷ fs) n rows (h, t) =
      rw (record_rows, covered-row tx new_id n rows h)
        (covered-skipped fs (record n { skipped = n.skipped + 1 }) rows t ∙ ground arith)

  -- A new id is in no row.
  abbrev IsNewId : List Transaction → Fetched → Type 0
  IsNewId rows f = any (λ u. text_eq f.1 u.id) rows ≡ false

  record_row-covers :
      (tx : NormalizedTransaction) (new_id : Text) (n : Counts) (rows : List Transaction)
      → IsNewId rows (tx, new_id)
      → IsCovered (record_row to_upper account tx new_id n rows).1 (tx, new_id)
  unfolding record_row
  record_row-covers tx new_id n rows h =
      let row = connector_row account.id tx new_id in
      elim (Bool-cases (same_currency to_upper tx.currency account.currency)) [
        | inl same ↦
            (let there = insert-collides row tx.external_id rows refl h in
              rw (record_row, same) (ground arith))
        | inr foreign ↦ ground arith
      ]

  -- The table only grows, by a row with the new id.
  record_row-grows :
      (tx : NormalizedTransaction) (new_id : Text) (n : Counts) (rows : List Transaction)
      → ((record_row to_upper account tx new_id n rows).1 ≡ rows)
        ⊎ ((record_row to_upper account tx new_id n rows).1
            ≡ rows ++ connector_row account.id tx new_id ∷ [])
  unfolding record_row insert_or_ignore
  record_row-grows tx new_id n rows = ground arith

  IsCovered-grows :
      (f : Fetched) (rows : List Transaction) (x : Transaction)
      → IsCovered rows f
      → IsCovered (rows ++ x ∷ []) f
  IsCovered-grows f rows x h =
      ground (arith, any-append (collides (connector_row account.id f.0 f.1)) rows (x ∷ []))

  record_row-keeps :
      (f : Fetched) (tx : NormalizedTransaction) (new_id : Text) (n : Counts)
      (rows : List Transaction)
      → IsCovered rows f
      → IsCovered (record_row to_upper account tx new_id n rows).1 f
  record_row-keeps f tx new_id n rows h = elim (record_row-grows tx new_id n rows) [
    | inl same ↦ subst (λ xs. IsCovered xs f) (sym same) h
    | inr more ↦
        subst (λ xs. IsCovered xs f) (sym more)
          (IsCovered-grows f rows (connector_row account.id tx new_id) h)
  ]

  record_rows-keeps :
      (f : Fetched) (fs : List Fetched) (n : Counts) (rows : List Transaction)
      → IsCovered rows f
      → IsCovered (record_rows to_upper account fs n rows).1 f
  unfolding record_rows
  record_rows-keeps f [] n rows h = h
  record_rows-keeps f ((tx, new_id) ∷ fs) n rows h =
      record_rows-keeps f fs _ _ (record_row-keeps f tx new_id n rows h)

  abbrev Differ : Fetched → Fetched → Type 0
  Differ f g = text_eq g.1 f.1 ≡ false

  record_row-IsNewId :
      (f : Fetched) (tx : NormalizedTransaction) (new_id : Text) (n : Counts)
      (rows : List Transaction)
      → IsNewId rows f
      → Differ (tx, new_id) f
      → IsNewId (record_row to_upper account tx new_id n rows).1 f
  unfolding any
  record_row-IsNewId f tx new_id n rows h other = elim (record_row-grows tx new_id n rows) [
    | inl same ↦ subst (λ xs. IsNewId xs f) (sym same) h
    | inr more ↦
        subst (λ xs. IsNewId xs f) (sym more)
          (ground (
            arith,
            any-append (λ (u : Transaction). text_eq f.1 u.id) rows
                (connector_row account.id tx new_id ∷ []),
          ))
  ]

  record_rows-covers :
      (fs : List Fetched) (n : Counts) (rows : List Transaction)
      → All (IsNewId rows) fs
      → AllPairs Differ fs
      → All (IsCovered (record_rows to_upper account fs n rows).1) fs
  unfolding record_rows
  record_rows-covers [] n rows h k = tt
  record_rows-covers ((tx, new_id) ∷ fs) n rows (h, t) (k, u) =
      let next = record_row to_upper account tx new_id n rows in
      (
        record_rows-keeps (tx, new_id) fs next.0 next.1 (record_row-covers tx new_id n rows h),
        record_rows-covers fs next.0 next.1
            (All-both (IsNewId rows) (Differ (tx, new_id)) (IsNewId next.1) fs
              (λ f new other. record_row-IsNewId f tx new_id n rows new other) t k)
            u,
      )

  -- The same rows fetched again, with other new ids
  abbrev pub refetched : (Text → Text) → List Fetched → List Fetched
  refetched other [] = []
  refetched other ((tx, new_id) ∷ fs) = (tx, other new_id) ∷ refetched other fs

  any-collides_id :
      (tx : NormalizedTransaction) (i j : Text) (rows : List Transaction)
      → any (collides (connector_row account.id tx i)) rows
        ≡ any (collides (connector_row account.id tx j)) rows
  unfolding any collides
  any-collides_id tx i j [] = refl
  any-collides_id tx i j (u ∷ us) = ground (arith, any-collides_id tx i j us)

  refetched-IsCovered :
      (other : Text → Text) (fs : List Fetched) (rows : List Transaction)
      → All (IsCovered rows) fs
      → All (IsCovered rows) (refetched other fs)
  refetched-IsCovered other [] rows h = tt
  refetched-IsCovered other ((tx, new_id) ∷ fs) rows (h, t) = (
    (let same = any-collides_id tx (other new_id) new_id rows in ground arith),
    refetched-IsCovered other fs rows t,
  )

  length-refetched :
      (other : Text → Text) (fs : List Fetched) → length (refetched other fs) ≡ length fs
  length-refetched other [] = refl
  length-refetched other (f ∷ fs) = ap suc (length-refetched other fs)

  -- A synchronisation that fetches again what the last one recorded imports nothing, skips every row,
  -- and leaves the ledger as it is, provided the first run's new ids were new and distinct.
  pub resync-idle :
      (balance again : NormalizedBalance) (fs : List Fetched) (other : Text → Text) (db : SyncDb)
      → All (λ f. any (λ u. text_eq f.1 u.id) db.transactions ≡ false) fs
      → AllPairs (λ f g. text_eq g.1 f.1 ≡ false) fs
      → let first = record_sync to_upper account balance fs db in
        let second = record_sync to_upper account again (refetched other fs) first.1 in
        (second.1.transactions ≡ first.1.transactions)
        × (second.0.imported ≡ 0)
        × (second.0.skipped ≡ length fs)
  unfolding record_sync
  resync-idle balance again fs other db h k =
      let rows =
        (record_rows to_upper account fs (record { imported = 0; skipped = 0 })
          db.transactions).1 in
      let covered =
        record_rows-covers fs (record { imported = 0; skipped = 0 }) db.transactions h k in
      let idle =
        covered-skipped (refetched other fs) (record { imported = 0; skipped = 0 }) rows
          (refetched-IsCovered other fs rows covered) in
      let size = length-refetched other fs in
      (
        ap (λ (x : Counts × List Transaction). x.1) idle,
        ap (λ (x : Counts × List Transaction). x.0.imported) idle,
        ap (λ (x : Counts × List Transaction). x.0.skipped) idle ∙ omega arith,
      )
