-- ===== src/Sync/Bookkeeping.antt =====
-- What a run of sovereign/src/sync.ts counts, and that it doubles no row.
use cashloom.Prelude.{
  ◌+◌, ◌≡◌, refl, List, [], ◌∷◌, Text, length, length-append, Bool-cases, inl, inr, arith,
}
use cashloom.Ledger.{Transaction, insert_or_ignore}
use cashloom.Ledger.Laws.{IsDeduped, insert-IsDeduped}
use cashloom.Sync.{
  AccountRow, NormalizedBalance, NormalizedTransaction, SyncDb, Counts, same_currency,
  connector_row, record_row, record_rows, record_sync,
}
use cashloom.Sync.Resync.{Fetched}

module _ (to_upper : Text → Text) (account : AccountRow) where
  record_row-IsDeduped :
      (tx : NormalizedTransaction) (new_id : Text) (n : Counts) (rows : List Transaction)
      → IsDeduped rows
      → IsDeduped (record_row to_upper account tx new_id n rows).1
  unfolding record_row
  record_row-IsDeduped tx new_id n rows h =
      elim (Bool-cases (same_currency to_upper tx.currency account.currency)) [
        | inl same ↦
            rw (record_row, same) (insert-IsDeduped (connector_row account.id tx new_id) rows h)
        | inr foreign ↦ rw (record_row, foreign) h
      ]

  -- One row more is counted.
  record_row-counts :
      (tx : NormalizedTransaction) (new_id : Text) (n : Counts) (rows : List Transaction)
      → (record_row to_upper account tx new_id n rows).0.imported
          + (record_row to_upper account tx new_id n rows).0.skipped
        ≡ n.imported + n.skipped + 1
  unfolding record_row
  record_row-counts tx new_id n rows = ground arith

  -- Every imported row is a row more in the table.
  record_row-length :
      (tx : NormalizedTransaction) (new_id : Text) (n : Counts) (rows : List Transaction)
      → (record_row to_upper account tx new_id n rows).0.imported + length rows
        ≡ n.imported + length (record_row to_upper account tx new_id n rows).1
  unfolding record_row insert_or_ignore
  record_row-length tx new_id n rows =
      ground (arith, length-append rows (connector_row account.id tx new_id ∷ []))

  record_rows-IsDeduped :
      (fs : List Fetched) (n : Counts) (rows : List Transaction)
      → IsDeduped rows
      → IsDeduped (record_rows to_upper account fs n rows).1
  unfolding record_rows
  record_rows-IsDeduped [] n rows h = h
  record_rows-IsDeduped ((tx, new_id) ∷ fs) n rows h =
      record_rows-IsDeduped fs _ _ (record_row-IsDeduped tx new_id n rows h)

  record_rows-counts :
      (fs : List Fetched) (n : Counts) (rows : List Transaction)
      → ((record_rows to_upper account fs n rows).0.imported
            + (record_rows to_upper account fs n rows).0.skipped
          ≡ n.imported + n.skipped + length fs)
        × ((record_rows to_upper account fs n rows).0.imported + length rows
            ≡ n.imported + length (record_rows to_upper account fs n rows).1)
  unfolding record_rows
  record_rows-counts [] n rows = (omega arith, refl)
  record_rows-counts ((tx, new_id) ∷ fs) n rows =
      let next = record_row to_upper account tx new_id n rows in
      let (sum, size) = record_rows-counts fs next.0 next.1 in
      let one = record_row-counts tx new_id n rows in
      let grown = record_row-length tx new_id n rows in (omega arith, omega arith)

  -- A synchronisation keeps the ledger free of doubled external ids, counts each fetched row once, as
  -- imported or as skipped, and counts as imported the rows that it added.
  pub record_sync-IsDeduped :
      (balance : NormalizedBalance) (fs : List Fetched) (db : SyncDb)
      → IsDeduped db.transactions
      → let run = record_sync to_upper account balance fs db in
        IsDeduped run.1.transactions
        × (run.0.imported + run.0.skipped ≡ length fs)
        × (run.0.imported + length db.transactions ≡ length run.1.transactions)
  unfolding record_sync
  record_sync-IsDeduped balance fs db h =
      let (sum, size) =
        record_rows-counts fs (record { imported = 0; skipped = 0 }) db.transactions in
      (
        record_rows-IsDeduped fs (record { imported = 0; skipped = 0 }) db.transactions h,
        omega arith,
        omega arith,
      )
