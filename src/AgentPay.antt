-- ===== src/AgentPay.antt =====
-- The authorization tables of sovereign/src/pay/agent-pay.ts, and the records that it reserves. A JSON
-- column is held decoded: `none` where it does not parse or is no array, and an amount is the number of
-- its canonical decimal, `none` where it is none.
mod Usage
mod Reserve
mod Totals
mod Replay
mod Accounts
mod Epoch
mod Tests
use cashloom.Prelude.{ℕ, Bool, Option, List, Text}

pub record AssetAmount : Type 0 where
  pub asset_id : Text
  pub amount_atomic : Option ℕ

-- A row of `agent_authorizations`
pub record AuthorizationRow : Type 0 where
  pub id : Text
  pub intent_id : Text
  pub grant_id : Option Text
  pub source_account : Option Text
  pub declared_spends : Option (List AssetAmount)
  pub payees : List Text
  pub host_authority : Text
  pub body_sha256 : Text
  pub signature : Text
  pub status : Text
  pub created_at : Text
  pub wallet_id : Option Text
  pub capability_record_id : Option Text
  pub intent_record_id : Option Text
  pub simulation_record_id : Option Text
  pub policy_hash : Option Text
  pub simulation_adapter_key_id : Option Text
  pub authorized_at : Option Text
  pub intent_nonce : Option Text

-- A row of `agent_wallet_state`
pub record WalletStateRow : Type 0 where
  pub wallet_id : Text
  pub descriptor_id : Text
  pub revocation_nonce : ℕ
  pub updated_at : Text

-- A row of `agent_capability_usage`
pub record CapabilityUsageRow : Type 0 where
  pub grant_id : Text
  pub wallet_id : Text
  pub capability_record_id : Text
  pub intent_count : ℕ
  pub spent_json : Option (List AssetAmount)
  pub updated_at : Text

pub record AgentDb : Type 0 where
  pub authorizations : List AuthorizationRow
  pub wallets : List WalletStateRow
  pub usages : List CapabilityUsageRow

-- The fields of the verified descriptor, capability, intent and simulation that are read here.
pub record VerifiedAgentRecords : Type 0 where
  pub wallet_id : Text
  pub descriptor_record_id : Text
  pub grant_id : Text
  pub capability_record_id : Text
  pub capability_revocation_nonce : ℕ
  pub policy_hash : Text
  pub intent_id : Text
  pub intent_record_id : Text
  pub source_account : Text
  pub intent_nonce : Text
  pub declared_spends : List AssetAmount
  pub payees : List Text
  pub simulation_record_id : Text
  pub simulation_adapter_key_id : Text

-- `AuthorizationContext`: the clock, and the usage that CashLoom's own tables show. No approval is
-- ever passed on.
pub record AuthorizationContext : Type 0 where
  pub now : Text
  pub revocation_nonce : ℕ
  pub intent_count : ℕ
  pub spent : List AssetAmount
  pub host_verified_approval_ids : List Text

pub data AgentError : Type 0 where
  malformed_usage unreadable_usage rotation_refused grant_rebound replay_refused : AgentError
  no_trusted_adapters untrusted_adapter outside_capability constraint_failed : AgentError

-- The wallet package's gate, whether it lets the records pass in a context, and `localeCompare`.
pub record AgentHost : Type 0 where
  pub within_capability : VerifiedAgentRecords → AuthorizationContext → Bool
  pub locale_before : Text → Text → Bool
