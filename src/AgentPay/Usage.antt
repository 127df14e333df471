-- ===== src/AgentPay/Usage.antt =====
-- The usage of a capability as CashLoom's tables show it: `aggregateSpent`, `parseStoredSpent`,
-- `legacyUsage` and `usageContext` of sovereign/src/pay/agent-pay.ts.
use cashloom.Prelude.{
  ℕ, ◌+◌, Bool, false, ◌&&◌, ◌||◌, Option, none, some, List, [], ◌∷◌, ◌++◌, Text, lit, text_eq, ltb,
  length, find, select, Result, ok, err, ◌>>=◌, require, if◌then◌else◌,
}
use cashloom.AgentPay.{
  AssetAmount, AuthorizationRow, WalletStateRow, CapabilityUsageRow, AgentDb, VerifiedAgentRecords,
  AuthorizationContext, AgentError, AgentHost,
}

-- An entry of the `Map` of totals
pub record Total : Type 0 where
  pub asset_id : Text
  pub amount : ℕ

-- `totals.set(id, (totals.get(id) ?? 0n) + amount)`
unfoldable pub add_total : Text → ℕ → List Total → List Total
add_total id amount [] = record { asset_id = id; amount = amount } ∷ []
add_total id amount (t ∷ ts) =
    let rest = add_total id amount ts in
    if text_eq t.asset_id id
    then record { asset_id = t.asset_id; amount = t.amount + amount } ∷ ts
    else t ∷ rest

-- The loop over the entries, with the totals so far.
unfoldable pub sum_entries : List AssetAmount → List Total → Result AgentError (List Total)
sum_entries [] totals = ok totals
sum_entries (e ∷ es) totals = elim e.amount_atomic [
  | none ↦ err AgentError.malformed_usage
  | some amount ↦ sum_entries es (add_total e.asset_id amount totals)
]

abbrev pub entry_of : Total → AssetAmount
entry_of t = record { asset_id = t.asset_id; amount_atomic = some t.amount }

-- SQL's `=` on a nullable column
abbrev pub has_text : Option Text → Text → Bool
has_text none t = false
has_text (some s) t = text_eq s t

module _ (host : AgentHost) where
  unfoldable pub place_total : Total → List Total → List Total
  place_total t [] = t ∷ []
  place_total t (u ∷ us) =
      let rest = place_total t us in
      if host.locale_before u.asset_id t.asset_id then u ∷ rest else t ∷ u ∷ us

  -- `.sort(([left], [right]) => left.localeCompare(right))`
  unfoldable pub sort_totals : List Total → List Total
  sort_totals [] = []
  sort_totals (t ∷ ts) = place_total t (sort_totals ts)

  unfoldable pub entries_of : List Total → List AssetAmount
  entries_of [] = []
  entries_of (t ∷ ts) = entry_of t ∷ entries_of ts

  unfoldable pub aggregate_spent : List AssetAmount → Result AgentError (List AssetAmount)
  aggregate_spent entries = do totals ← sum_entries entries []; ok (entries_of (sort_totals totals))

  unfoldable pub parse_stored_spent :
      Option (List AssetAmount) → Result AgentError (List AssetAmount)
  parse_stored_spent none = err AgentError.unreadable_usage
  parse_stored_spent (some entries) = aggregate_spent entries

  abbrev pub is_legacy : Text → AuthorizationRow → Bool
  is_legacy grant_id row =
      has_text row.grant_id grant_id
      && (text_eq row.status (lit "authorized-not-broadcast")
          || text_eq row.status (lit "authorized-not-bound"))

  -- `rows.flatMap(…)`
  unfoldable pub all_spends : List AuthorizationRow → Result AgentError (List AssetAmount)
  all_spends [] = ok []
  all_spends (row ∷ rows) = do
    first ← parse_stored_spent row.declared_spends
    rest ← all_spends rows
    ok (first ++ rest)

  -- `legacyUsage`: the count and the spend
  unfoldable pub legacy_usage : Text → AgentDb → Result AgentError (ℕ × List AssetAmount)
  legacy_usage grant_id db = do
    let rows = select (is_legacy grant_id) db.authorizations
    entries ← all_spends rows
    spent ← aggregate_spent entries
    ok (length rows, spent)

  unfoldable pub wallet_of : Text → AgentDb → Option WalletStateRow
  wallet_of id db = find (λ (w : WalletStateRow). text_eq w.wallet_id id) db.wallets

  unfoldable pub usage_of : Text → AgentDb → Option CapabilityUsageRow
  usage_of grant_id db = find (λ (u : CapabilityUsageRow). text_eq u.grant_id grant_id) db.usages

  abbrev pub check_descriptor :
      VerifiedAgentRecords → Option WalletStateRow → Result AgentError (Unit {0})
  check_descriptor r none = ok tt
  check_descriptor r (some w) =
      require (text_eq w.descriptor_id r.descriptor_record_id) AgentError.rotation_refused

  abbrev pub stored_usage :
      VerifiedAgentRecords
      → AgentDb
      → Option CapabilityUsageRow
      → Result AgentError (ℕ × List AssetAmount)
  stored_usage r db none = legacy_usage r.grant_id db
  stored_usage r db (some u) = do
    bound ←
        require
          (text_eq u.wallet_id r.wallet_id && text_eq u.capability_record_id r.capability_record_id)
          AgentError.grant_rebound
    spent ← parse_stored_spent u.spent_json
    ok (u.intent_count, spent)

  -- `Math.max`
  abbrev pub max_of : ℕ → ℕ → ℕ
  max_of a b = if ltb a b then b else a

  abbrev pub known_nonce : VerifiedAgentRecords → Option WalletStateRow → ℕ
  known_nonce r none = r.capability_revocation_nonce
  known_nonce r (some w) = max_of w.revocation_nonce r.capability_revocation_nonce

  unfoldable pub usage_context :
      VerifiedAgentRecords → Text → AgentDb → Result AgentError AuthorizationContext
  usage_context r now db = do
    continuous ← check_descriptor r (wallet_of r.wallet_id db)
    usage ← stored_usage r db (usage_of r.grant_id db)
    ok (record {
      now = now;
      revocation_nonce = known_nonce r (wallet_of r.wallet_id db);
      intent_count = usage.0;
      spent = usage.1;
      host_verified_approval_ids = [];
    })
