-- ===== src/Sync/Tests.antt =====
-- Synchronisations at concrete rows.
use cashloom.Prelude.{
  ◌+◌, ◌≡◌, refl, none, some, List, [], ◌∷◌, ◌++◌, Text, lit, text_eq, trim, drop_spaces, is_space,
  any, length,
}
use cashloom.Ledger.{collides, insert_or_ignore}
use cashloom.Ledger.Laws.{IsDeduped}
use cashloom.Sync.{
  AccountRow, NormalizedBalance, NormalizedTransaction, SyncDb, record_row, record_rows,
  record_sync,
}
use cashloom.Sync.Resync.{Fetched, refetched, resync-idle}
use cashloom.Sync.Bookkeeping.{record_sync-IsDeduped}

abbrev account : AccountRow
account = record {
  id = lit "a";
  connector_type = some (lit "stripe");
  currency = lit "GBP";
  decimals = 2;
  external_account_id = some (lit "x");
  credential_ref = none;
  status = lit "ACTIVE";
  balance_minor = lit "0";
  balance_as_of = none;
}

abbrev balance : NormalizedBalance
balance = record { balance_minor = lit "12"; currency = lit "GBP"; decimals = 2; as_of = lit "t" }

abbrev row : Text → Text → NormalizedTransaction
row external_id currency = record {
  external_id = external_id;
  title = lit "n";
  amount_minor = lit "5";
  currency = currency;
  date = lit "t";
  raw = none;
}

-- Two rows, one of them twice, and one in another currency.
abbrev fetched : List Fetched
fetched =
    (row (lit "e1") (lit "GBP"), lit "1")
    ∷ (row (lit "e2") (lit "GBP"), lit "2")
    ∷ (row (lit "e1") (lit "GBP"), lit "3")
    ∷ (row (lit "e3") (lit "USD"), lit "4")
    ∷ []

abbrev empty_ledger : SyncDb
empty_ledger = record { accounts = account ∷ []; transactions = [] }

two_imported : (record_sync (λ t. t) account balance fetched empty_ledger).0.imported ≡ 2
unfolding text_eq trim drop_spaces is_space any collides insert_or_ignore record_row record_rows
    record_sync
two_imported = refl

resync-idle_example :
    let first = record_sync (λ t. t) account balance fetched empty_ledger in
    let second =
      record_sync
        (λ t. t)
        account
        balance
        (refetched (λ t. t) account (λ i. lit "n" ++ i) fetched)
        first.1 in
    (second.1.transactions ≡ first.1.transactions)
    × (second.0.imported ≡ 0)
    × (second.0.skipped ≡ 4)
unfolding text_eq any
resync-idle_example =
    resync-idle (λ t. t) account balance balance fetched (λ i. lit "n" ++ i) empty_ledger
      (refl, (refl, (refl, (refl, tt))))
      ((refl, (refl, (refl, tt))), ((refl, (refl, tt)), ((refl, tt), (tt, tt))))

record_sync-IsDeduped_example :
    let run = record_sync (λ t. t) account balance fetched empty_ledger in
    IsDeduped run.1.transactions
    × (run.0.imported + run.0.skipped ≡ 4)
    × (run.0.imported + 0 ≡ length run.1.transactions)
record_sync-IsDeduped_example =
    record_sync-IsDeduped (λ t. t) account balance fetched empty_ledger tt
