-- ===== src/AgentPay/Reserve.antt =====
-- `reserveAndRecord` and `authorizeAgentPayment_wired` of sovereign/src/pay/agent-pay.ts.
use cashloom.Prelude.{
  ℕ, ◌+◌, Bool, ◌&&◌, ◌||◌, not, none, some, List, [], ◌∷◌, ◌++◌, Text, lit, text_eq, ltb, ◌==◌,
  length, includes, any, update, Result, ok, err, ◌>>=◌, require, if◌then◌else◌,
}
use cashloom.AgentPay.{
  AssetAmount, AuthorizationRow, WalletStateRow, CapabilityUsageRow, AgentDb, VerifiedAgentRecords,
  AgentError, AgentHost,
}
use cashloom.AgentPay.Usage.{has_text, aggregate_spent, wallet_of, usage_of, usage_context}

-- What the caller of the reservation has signed, and the fresh row id.
pub record Attestation : Type 0 where
  pub id : Text
  pub host_authority : Text
  pub body_sha256 : Text
  pub signature : Text

-- The intent's record, its id, or its signed nonce is there already.
abbrev pub replays : VerifiedAgentRecords → AuthorizationRow → Bool
replays r row =
    has_text row.intent_record_id r.intent_record_id
    || text_eq row.intent_id r.intent_id
    || (has_text row.wallet_id r.wallet_id
        && has_text row.grant_id r.grant_id
        && has_text row.source_account r.source_account
        && has_text row.intent_nonce r.intent_nonce)

abbrev pub authorization_row : VerifiedAgentRecords → Text → Attestation → AuthorizationRow
authorization_row r now a = record {
  id = a.id;
  intent_id = r.intent_id;
  grant_id = some r.grant_id;
  source_account = some r.source_account;
  declared_spends = some r.declared_spends;
  payees = r.payees;
  host_authority = a.host_authority;
  body_sha256 = a.body_sha256;
  signature = a.signature;
  status = lit "authorized-not-bound";
  created_at = now;
  wallet_id = some r.wallet_id;
  capability_record_id = some r.capability_record_id;
  intent_record_id = some r.intent_record_id;
  simulation_record_id = some r.simulation_record_id;
  policy_hash = some r.policy_hash;
  simulation_adapter_key_id = some r.simulation_adapter_key_id;
  authorized_at = some now;
  intent_nonce = some r.intent_nonce;
}

-- The primary key; the unique indexes are what `replays` has looked for.
unfoldable pub insert_authorization : AuthorizationRow → AgentDb → Result AgentError AgentDb
insert_authorization row db =
    if any (λ (x : AuthorizationRow). text_eq x.id row.id) db.authorizations
    then err AgentError.constraint_failed
    else ok (record db { authorizations = db.authorizations ++ row ∷ [] })

module _ (host : AgentHost) where
  abbrev pub new_wallet : VerifiedAgentRecords → Text → WalletStateRow
  new_wallet r now = record {
    wallet_id = r.wallet_id;
    descriptor_id = r.descriptor_record_id;
    revocation_nonce = r.capability_revocation_nonce;
    updated_at = now;
  }

  abbrev pub advance_wallet :
      VerifiedAgentRecords → Text → WalletStateRow → AgentDb → Result AgentError AgentDb
  advance_wallet r now w db =
      if not (text_eq w.descriptor_id r.descriptor_record_id)
      then err AgentError.rotation_refused
      else if ltb w.revocation_nonce r.capability_revocation_nonce
      then ok (record db {
        wallets =
            update (λ x. text_eq x.wallet_id r.wallet_id)
              (λ x. record x { revocation_nonce = r.capability_revocation_nonce; updated_at = now })
              db.wallets;
      })
      else ok db

  -- The wallet's row, inserted or moved to a newer epoch.
  unfoldable pub store_wallet : VerifiedAgentRecords → Text → AgentDb → Result AgentError AgentDb
  store_wallet r now db = elim (wallet_of host r.wallet_id db) [
    | none ↦ ok (record db { wallets = db.wallets ++ new_wallet r now ∷ [] })
    | some w ↦ advance_wallet r now w db
  ]

  abbrev pub usage_row : VerifiedAgentRecords → ℕ → List AssetAmount → Text → CapabilityUsageRow
  usage_row r n spent now = record {
    grant_id = r.grant_id;
    wallet_id = r.wallet_id;
    capability_record_id = r.capability_record_id;
    intent_count = n;
    spent_json = some spent;
    updated_at = now;
  }

  -- `ON CONFLICT(grant_id) DO UPDATE`
  unfoldable pub store_usage : CapabilityUsageRow → AgentDb → AgentDb
  store_usage u db = elim (usage_of host u.grant_id db) [
    | none ↦ record db { usages = db.usages ++ u ∷ [] }
    | some old ↦ record db {
      usages =
          update (λ x. text_eq x.grant_id u.grant_id)
            (λ x. record x {
              intent_count = u.intent_count;
              spent_json = u.spent_json;
              updated_at = u.updated_at;
            })
            db.usages;
    }
  ]

  -- A transaction that throws is rolled back: an error carries no state.
  unfoldable pub reserve_and_record :
      VerifiedAgentRecords → Text → Attestation → AgentDb → Result AgentError AgentDb
  reserve_and_record r now a db = do
    unused ← require (not (any (replays r) db.authorizations)) AgentError.replay_refused
    with_wallet ← store_wallet r now db
    context ← usage_context host r now with_wallet
    allowed ← require (host.within_capability r context) AgentError.outside_capability
    next_spent ← aggregate_spent host (context.spent ++ r.declared_spends)
    with_row ← insert_authorization (authorization_row r now a) with_wallet
    ok (store_usage (usage_row r (context.intent_count + 1) next_spent now) with_row)

  -- The first half of an authorization, up to the vault: the trusted signer, and the fail-fast gate.
  unfoldable pub authorize_start :
      VerifiedAgentRecords → List Text → Text → AgentDb → Result AgentError (Unit {0})
  authorize_start r trusted now db = do
    some_trusted ← require (not (length trusted == 0)) AgentError.no_trusted_adapters
    signer ← require (includes r.simulation_adapter_key_id trusted) AgentError.untrusted_adapter
    context ← usage_context host r now db
    require (host.within_capability r context) AgentError.outside_capability
