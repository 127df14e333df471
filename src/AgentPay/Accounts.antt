-- ===== src/AgentPay/Accounts.antt =====
-- What a reservation of sovereign/src/pay/agent-pay.ts counts.
use cashloom.Prelude.{ℕ, List, Result}
use cashloom.AgentPay.{
  AssetAmount, CapabilityUsageRow, AgentDb, VerifiedAgentRecords, AgentError, AgentHost,
}
use cashloom.AgentPay.Usage.{usage_of, stored_usage}

module _ (host : AgentHost) where
  -- The usage that a grant shows
  abbrev pub usage_before :
      VerifiedAgentRecords → AgentDb → Result AgentError (ℕ × List AssetAmount)
  usage_before r db = stored_usage host r db (usage_of host r.grant_id db)

  abbrev counted : CapabilityUsageRow → CapabilityUsageRow → CapabilityUsageRow
  counted u x = record x {
    intent_count = u.intent_count;
    spent_json = u.spent_json;
    updated_at = u.updated_at;
  }
