-- ===== src/Ledger.antt =====
-- The `transactions` table of sovereign/src/db.ts, the ledger that payments (sovereign/src/pay.ts)
-- and connectors (sovereign/src/sync.ts) append to, with its dedupe index.
pub mod Laws
use cashloom.Prelude.{
  ◌≡◌, Bool, true, false, ◌&&◌, ◌||◌, Option, none, some, List, [], ◌∷◌, ◌++◌, Text, text_eq, any,
  if◌then◌else◌,
}

pub data Source : Type 0 where
  manual connector csv payment : Source

pub record Transaction : Type 0 where
  pub id : Text
  pub account_id : Text
  pub external_id : Option Text
  pub title : Text
  pub amount_minor : Text
  pub date : Text
  pub source : Source
  pub raw : Option Text

-- Equal and neither NULL.
abbrev pub same_id : Option Text → Option Text → Bool
same_id (some a) (some b) = text_eq a b
same_id (some a) none = false
same_id none b = false

-- The rows that `idx_tx_dedupe` keeps apart.
unfoldable pub collides : Transaction → Transaction → Bool
collides t u = text_eq t.account_id u.account_id && same_id t.external_id u.external_id

-- `INSERT OR IGNORE INTO transactions`: a row with a known id, or with the account and the external
-- id of another, changes nothing.
unfoldable pub insert_or_ignore : Transaction → List Transaction → List Transaction
insert_or_ignore t rows =
    if any (λ u. text_eq t.id u.id || collides t u) rows then rows else rows ++ t ∷ []
