-- ===== src/AgentPay/Totals.antt =====
-- `aggregateSpent` of sovereign/src/pay/agent-pay.ts keeps what is spent of each asset.
use cashloom.Prelude.{
  ℕ, ◌+◌, ◌≡◌, refl, ap, ◌∙◌, Option, none, some, List, [], ◌∷◌, ◌++◌, Text, text_eq, text_eq_iff,
  ok, bind-eq-ok, if◌then◌else◌, Bool-cases, Option-cases, inl, inr, arith,
}
use cashloom.AgentPay.{AssetAmount, AgentHost}
use cashloom.AgentPay.Usage.{
  Total, add_total, sum_entries, place_total, sort_totals, entries_of, aggregate_spent,
}

abbrev amount_or_zero : Option ℕ → ℕ
amount_or_zero none = 0
amount_or_zero (some n) = n

-- What the entries spend of an asset
unfoldable pub spent_of : Text → List AssetAmount → ℕ
spent_of id [] = 0
spent_of id (e ∷ es) =
    (if text_eq e.asset_id id then amount_or_zero e.amount_atomic else 0) + spent_of id es

-- The same on the `Map` of totals
unfoldable pub total_of : Text → List Total → ℕ
total_of id [] = 0
total_of id (t ∷ ts) = (if text_eq t.asset_id id then t.amount else 0) + total_of id ts

pub spent_of-append :
    (id : Text) (xs ys : List AssetAmount)
    → spent_of id (xs ++ ys) ≡ spent_of id xs + spent_of id ys
unfolding spent_of
spent_of-append id [] ys = omega arith
spent_of-append id (x ∷ xs) ys = ground (arith, spent_of-append id xs ys)

total_of-add_total :
    (id key : Text) (amount : ℕ) (ts : List Total)
    → total_of id (add_total key amount ts)
      ≡ (if text_eq key id then amount else 0) + total_of id ts
unfolding total_of add_total
total_of-add_total id key amount [] = refl
total_of-add_total id key amount (t ∷ ts) = elim (Bool-cases (text_eq t.asset_id key)) [
  | inl same ↦
      (let eq = ap (λ k. text_eq k id) ((text_eq_iff t.asset_id key).0 same) in ground arith)
  | inr other ↦ ground (arith, total_of-add_total id key amount ts)
]

total_of-sum_entries :
    (id : Text) (es : List AssetAmount) (ts out : List Total)
    → sum_entries es ts ≡ ok out
    → total_of id out ≡ spent_of id es + total_of id ts
unfolding sum_entries spent_of
total_of-sum_entries id [] ts out h = ground arith
total_of-sum_entries id (e ∷ es) ts out h = elim (Option-cases e.amount_atomic) [
  | inl bad ↦ absurd (cc (rw (sum_entries, bad) at h))
  | inr (n, good) ↦
      (let rest =
          total_of-sum_entries id es (add_total e.asset_id n ts) out
            (rw (sum_entries, good) at h) in
        let step = total_of-add_total id e.asset_id n ts in rw good (ground arith))
]

module _ (host : AgentHost) where
  total_of-place_total :
      (id : Text) (t : Total) (ts : List Total)
      → total_of id (place_total host t ts)
        ≡ (if text_eq t.asset_id id then t.amount else 0) + total_of id ts
  unfolding total_of place_total
  total_of-place_total id t [] = refl
  total_of-place_total id t (u ∷ us) = ground (arith, total_of-place_total id t us)

  total_of-sort_totals :
      (id : Text) (ts : List Total) → total_of id (sort_totals host ts) ≡ total_of id ts
  unfolding total_of sort_totals
  total_of-sort_totals id [] = refl
  total_of-sort_totals id (t ∷ ts) =
      ground (arith, total_of-place_total id t (sort_totals host ts), total_of-sort_totals id ts)

  spent_of-entries_of :
      (id : Text) (ts : List Total) → spent_of id (entries_of host ts) ≡ total_of id ts
  unfolding spent_of entries_of total_of
  spent_of-entries_of id [] = refl
  spent_of-entries_of id (t ∷ ts) = ground (arith, spent_of-entries_of id ts)

  -- Aggregation changes no asset's total.
  pub spent_of-aggregate_spent :
      (id : Text) (es out : List AssetAmount)
      → aggregate_spent host es ≡ ok out
      → spent_of id out ≡ spent_of id es
  unfolding aggregate_spent total_of
  spent_of-aggregate_spent id es out h =
      let (totals, e, k) = bind-eq-ok (sum_entries es []) _ h in
      let sum = total_of-sum_entries id es [] totals e in
      let sorted = total_of-sort_totals id totals in
      let entries = spent_of-entries_of id (sort_totals host totals) in
      let same : out ≡ entries_of host (sort_totals host totals) = cc in
      ap (spent_of id) same ∙ omega arith
