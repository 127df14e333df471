-- ===== src/Pay/Recorded.antt =====
-- What the end of a payment in sovereign/src/pay.ts leaves in the ledger.
use cashloom.Prelude.{
  ◌≡◌, refl, sym, ap, subst, false, ◌⊎◌, inl, inr, Option, none, some, List, [], ◌∷◌, ◌++◌, lit,
  Memᴰ, Memᴰ-append_self, Text, text_eq, any,
}
use cashloom.Payments.{Payment}
use cashloom.Ledger.{Transaction, Source, insert_or_ignore}
use cashloom.Ledger.Laws.{insert-cases}
use cashloom.Pay.Claim.{Claimed}
use cashloom.Pay.Settle.{ledger_row}

-- A ledger row that says what went out: the rail's exact total, or else the payment's amount.
pub record IsSpend (amount_minor : Text) (total_out : Option Text) (new_id now : Text)
    (row : Transaction) : Type 0 where
  pub id : row.id ≡ new_id
  pub date : row.date ≡ now
  pub source : row.source ≡ Source.payment
  pub exact : (total : Text) → total_out ≡ some total → row.amount_minor ≡ lit "-" ++ total
  pub plain : total_out ≡ none → row.amount_minor ≡ lit "-" ++ amount_minor

ledger_row-IsSpend :
    (p : Payment) (account_id external_id : Text) (total_out : Option Text) (new_id now : Text)
    → IsSpend p.amount_minor total_out new_id now
        (ledger_row p account_id external_id total_out new_id now)
unfolding ledger_row
ledger_row-IsSpend p account_id external_id none new_id now = record {
  id = refl;
  date = refl;
  source = refl;
  exact = λ total e. cc;
  plain = λ e. refl;
}
ledger_row-IsSpend p account_id external_id (some s) new_id now = record {
  id = refl;
  date = refl;
  source = refl;
  exact = λ total e. let same : s ≡ total = cc in ap (λ t. lit "-" ++ t) same;
  plain = λ e. cc;
}

-- What a payment's end has left in the ledger: a row of its account with the transaction's id, which
-- was there before, or is new and tells what went out.
pub record IsRecorded (c : Claimed) (external_id : Text) (total_out : Option Text)
    (new_id now : Text) (before after : List Transaction) : Type 0 where
  pub row : Transaction
  pub there : Memᴰ row after
  pub account : row.account_id ≡ c.account.id
  pub external : row.external_id ≡ some external_id
  pub known_or_new :
      ((after ≡ before) × Memᴰ row before)
      ⊎ ((after ≡ before ++ row ∷ []) × IsSpend c.row.amount_minor total_out new_id now row)

pub ledger_row-IsRecorded :
    (c : Claimed) (external_id : Text) (total_out : Option Text) (new_id now : Text)
    (rows : List Transaction)
    → any (λ t. text_eq new_id t.id) rows ≡ false
    → IsRecorded c external_id total_out new_id now rows
        (insert_or_ignore (ledger_row c.row c.account.id external_id total_out new_id now) rows)
unfolding ledger_row
ledger_row-IsRecorded c external_id total_out new_id now rows fresh =
    let t = ledger_row c.row c.account.id external_id total_out new_id now in
    elim (insert-cases t external_id rows refl fresh) [
      | inl added ↦ record {
        row = t;
        there = subst (Memᴰ t) (sym added) (Memᴰ-append_self rows t);
        account = refl;
        external = refl;
        known_or_new =
            inr (added, ledger_row-IsSpend c.row c.account.id external_id total_out new_id now);
      }
      | inr (same, u, old, account, external) ↦ record {
        row = u;
        there = subst (Memᴰ u) (sym same) old;
        account = account;
        external = external;
        known_or_new = inl (same, old);
      }
    ]
