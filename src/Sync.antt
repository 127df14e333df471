-- ===== src/Sync.antt =====
-- Synchronisation of an account with its read-only connector: sovereign/src/sync.ts.
mod Resync
mod Bookkeeping
mod Tests
use cashloom.Prelude.{
  ℕ, ◌+◌, Bool, true, false, ◌&&◌, ◌||◌, not, Option, none, some, List, [], ◌∷◌, ◌++◌, Text, lit,
  text_eq, trim, ◌==◌, any, find, update, Result, ok, err, ◌>>=◌, ◌>>◌, require, if◌then◌else◌,
}
use cashloom.Ledger.{Source, Transaction, collides, insert_or_ignore}

-- The columns of `accounts` that a synchronisation reads or writes.
pub record AccountRow : Type 0 where
  pub id : Text
  pub connector_type : Option Text
  pub currency : Text
  pub decimals : ℕ
  pub external_account_id : Option Text
  pub credential_ref : Option Text
  pub status : Text
  pub balance_minor : Text
  pub balance_as_of : Option Text

-- Dates are held as the text that `toISOString` gives.
pub record NormalizedBalance : Type 0 where
  pub balance_minor : Text
  pub currency : Text
  pub decimals : ℕ
  pub as_of : Text

pub record NormalizedTransaction : Type 0 where
  pub external_id : Text
  pub title : Text
  pub amount_minor : Text
  pub currency : Text
  pub date : Text
  pub raw : Option Text

pub record SyncDb : Type 0 where
  pub accounts : List AccountRow
  pub transactions : List Transaction

pub data SyncError : Type 0 where
  no_active_account no_connector currency_mixed decimals_mixed : SyncError

pub record SyncResult : Type 0 where
  pub account_id : Text
  pub balance_minor : Text
  pub imported : ℕ
  pub skipped : ℕ

unfoldable pub active_account : Text → SyncDb → Option AccountRow
active_account id db =
    find (λ (a : AccountRow). text_eq a.id id && text_eq a.status (lit "ACTIVE")) db.accounts

-- `!text`: NULL, or the empty string
abbrev is_missing : Option Text → Bool
is_missing none = true
is_missing (some t) = text_eq t []

abbrev pub same_currency : (Text → Text) → Text → Text → Bool
same_currency to_upper a b = text_eq (to_upper (trim a)) (to_upper (trim b))

-- Up to the connector: the account, if it is active and has one.
unfoldable pub syncable_account : Text → SyncDb → Result SyncError AccountRow
syncable_account id db = elim (active_account id db) [
  | none ↦ err SyncError.no_active_account
  | some account ↦
      if is_missing account.connector_type || is_missing account.external_account_id
      then err SyncError.no_connector
      else ok account
]

unfoldable pub check_balance :
    (Text → Text) → AccountRow → NormalizedBalance → Result SyncError (Unit {0})
check_balance to_upper account balance = do
  require (same_currency to_upper balance.currency account.currency) SyncError.currency_mixed
  require (balance.decimals == account.decimals) SyncError.decimals_mixed

abbrev pub connector_row : Text → NormalizedTransaction → Text → Transaction
connector_row account_id tx new_id = record {
  id = new_id;
  account_id = account_id;
  external_id = some tx.external_id;
  title = tx.title;
  amount_minor = tx.amount_minor;
  date = tx.date;
  source = Source.connector;
  raw = tx.raw;
}

-- Whether `INSERT OR IGNORE` changes nothing
abbrev pub is_known : Transaction → List Transaction → Bool
is_known t rows = any (λ u. text_eq t.id u.id || collides t u) rows

pub record Counts : Type 0 where
  pub imported : ℕ
  pub skipped : ℕ

-- One turn of the loop: the counters and the table after a fetched row with its new id.
unfoldable pub record_row :
    (Text → Text)
    → AccountRow
    → NormalizedTransaction
    → Text
    → Counts
    → List Transaction
    → Counts × List Transaction
record_row to_upper account tx new_id n rows =
    let row = connector_row account.id tx new_id in
    let skipped = record n { skipped = n.skipped + 1 } in
    if not (same_currency to_upper tx.currency account.currency) then (skipped, rows) else (
      if is_known row rows then skipped else record n { imported = n.imported + 1 },
      insert_or_ignore row rows,
    )

unfoldable pub record_rows :
    (Text → Text)
    → AccountRow
    → List (NormalizedTransaction × Text)
    → Counts
    → List Transaction
    → Counts × List Transaction
record_rows to_upper account [] n rows = (n, rows)
record_rows to_upper account ((tx, new_id) ∷ rest) n rows =
    let next = record_row to_upper account tx new_id n rows in
    record_rows to_upper account rest next.0 next.1

abbrev set_balance : NormalizedBalance → AccountRow → AccountRow
set_balance balance a = record a {
  balance_minor = balance.balance_minor;
  balance_as_of = some balance.as_of;
}

-- What follows the connector's last answer.
unfoldable pub record_sync :
    (Text → Text)
    → AccountRow
    → NormalizedBalance
    → List (NormalizedTransaction × Text)
    → SyncDb
    → SyncResult × SyncDb
record_sync to_upper account balance fetched db =
    let done =
      record_rows to_upper account fetched (record { imported = 0; skipped = 0 }) db.transactions in
    (
      record {
        account_id = account.id;
        balance_minor = balance.balance_minor;
        imported = done.0.imported;
        skipped = done.0.skipped;
      },
      record {
        accounts = update (λ a. text_eq a.id account.id) (set_balance balance) db.accounts;
        transactions = done.1;
      },
    )
