-- ===== src/AssetTrust.antt =====
-- The manifests and policies of sovereign/src/protocol/v2/asset-trust.ts. An enumeration is the string
-- that the code compares, with the list of its values that the parser admits.
pub mod Parse
pub mod Evaluate
mod Compliance
mod Acceptance
mod Policies
mod Tests
use cashloom.Prelude.{ℕ, Bool, true, Option, List, [], ◌∷◌, Text, lit}

-- `undisclosed` is the string "unknown".
pub data DisclosedBoolean : Type 0 where
  yes no undisclosed : DisclosedBoolean

pub data IssuerControl : Type 0 where
  mint freeze denylist pause upgrade : IssuerControl

pub record AssetTrustEvidence : Type 0 where
  pub kind : Text
  pub sha256 : Text
  pub url : Option Text

pub record SettlementClaims : Type 0 where
  pub model : Text
  pub finality : Text
  pub single_sequencer : DisclosedBoolean

pub record ProviderClaims : Type 0 where
  pub required : DisclosedBoolean
  pub role : Text

pub record InfrastructureClaims : Type 0 where
  pub self_hostable_read : DisclosedBoolean
  pub self_hostable_broadcast : DisclosedBoolean

-- `data_egress` is its categories.
pub record AssetTrustManifest : Type 0 where
  pub schema : Text
  pub rail : Text
  pub asset_id : Text
  pub chain_id : Text
  pub provenance_kind : Text
  pub assessed_at : Text
  pub settlement : SettlementClaims
  pub regulated_provider : ProviderClaims
  pub issuer_controls : IssuerControl → DisclosedBoolean
  pub bridge_dependency : Text
  pub identity_requirement : Text
  pub custody : Text
  pub infrastructure : InfrastructureClaims
  pub data_egress : List Text
  pub evidence : List AssetTrustEvidence

pub record AssetTrustPolicy : Type 0 where
  pub schema : Text
  pub policy_id : Text
  pub allowed_settlement_models : List Text
  pub allowed_finality_models : List Text
  pub reject_single_sequencer : Bool
  pub reject_regulated_provider : Bool
  pub denied_issuer_controls : List IssuerControl
  pub reject_identity_requirement : Bool
  pub require_self_hostable_read : Bool
  pub require_self_hostable_broadcast : Bool
  pub reject_unknowns : Bool
  pub allowed_bridge_dependencies : List Text
  pub allowed_custody_models : List Text
  pub allowed_data_egress_categories : List Text

pub data FindingCode : Type 0 where
  settlement_model finality_model single_sequencer regulated_provider : FindingCode
  issuer_control identity_required non_self_hostable_read non_self_hostable_broadcast : FindingCode
  bridge_dependency custody_model data_egress unknown : FindingCode

-- `detail`, a sentence for the reader, is left out.
pub record AssetTrustFinding : Type 0 where
  pub code : FindingCode
  pub path : Text

pub record AssetTrustDecision : Type 0 where
  pub accepted : Bool
  pub asset_id : Text
  pub policy_id : Text
  pub policy_hash : Text
  pub findings : List AssetTrustFinding

-- What the wallet package and the host's `URL` compute: the tests of a chain, an asset, a timestamp and
-- a digest, the chain of an asset, the digest of a policy, and whether a string is an HTTPS URL
-- without credentials or a fragment.
pub record TrustHost : Type 0 where
  pub is_caip2 : Text → Bool
  pub is_caip19 : Text → Bool
  pub is_timestamp : Text → Bool
  pub is_sha256_id : Text → Bool
  pub chain_from_asset : Text → Text
  pub policy_digest : AssetTrustPolicy → Text
  pub is_plain_https : Text → Bool

abbrev pub issuer_control_values : List IssuerControl
issuer_control_values =
    IssuerControl.mint ∷ IssuerControl.freeze ∷ IssuerControl.denylist ∷ IssuerControl.pause
    ∷ IssuerControl.upgrade ∷ []

abbrev pub settlement_models : List Text
settlement_models =
    lit "layer-1-proof-of-work"
    ∷ lit "layer-1-proof-of-stake"
    ∷ lit "optimistic-rollup"
    ∷ lit "zk-rollup"
    ∷ lit "federated-consensus"
    ∷ lit "regulated-ledger"
    ∷ lit "other"
    ∷ lit "unknown"
    ∷ []

abbrev pub finality_models : List Text
finality_models =
    lit "probabilistic"
    ∷ lit "economic"
    ∷ lit "deterministic"
    ∷ lit "provider-attested"
    ∷ lit "unknown"
    ∷ []

abbrev pub regulated_provider_roles : List Text
regulated_provider_roles =
    lit "none"
    ∷ lit "issuer"
    ∷ lit "settlement"
    ∷ lit "custody"
    ∷ lit "multiple"
    ∷ lit "unknown"
    ∷ []

abbrev pub bridge_dependencies : List Text
bridge_dependencies =
    lit "none" ∷ lit "canonical" ∷ lit "third-party" ∷ lit "multiple" ∷ lit "unknown" ∷ []

abbrev pub identity_requirements : List Text
identity_requirements =
    lit "none"
    ∷ lit "issuance-redemption"
    ∷ lit "provider-account"
    ∷ lit "transaction"
    ∷ lit "unknown"
    ∷ []

abbrev pub custody_models : List Text
custody_models =
    lit "self-custody-capable" ∷ lit "provider-custody-required" ∷ lit "mixed" ∷ lit "unknown" ∷ []

abbrev pub data_egress_categories : List Text
data_egress_categories =
    lit "none"
    ∷ lit "public-ledger"
    ∷ lit "peer-network"
    ∷ lit "sequencer-operator"
    ∷ lit "third-party-infrastructure"
    ∷ lit "regulated-provider"
    ∷ lit "unknown"
    ∷ []

-- `FAIL_CLOSED_ASSET_TRUST_POLICY`
abbrev pub fail_closed : AssetTrustPolicy
fail_closed = record {
  schema = lit "cashloom.asset-trust-policy/v2";
  policy_id = lit "cashloom-local-fail-closed/v2";
  allowed_settlement_models = lit "layer-1-proof-of-work" ∷ lit "layer-1-proof-of-stake" ∷ [];
  allowed_finality_models = lit "probabilistic" ∷ lit "economic" ∷ lit "deterministic" ∷ [];
  reject_single_sequencer = true;
  reject_regulated_provider = true;
  denied_issuer_controls = issuer_control_values;
  reject_identity_requirement = true;
  require_self_hostable_read = true;
  require_self_hostable_broadcast = true;
  reject_unknowns = true;
  allowed_bridge_dependencies = lit "none" ∷ [];
  allowed_custody_models = lit "self-custody-capable" ∷ [];
  allowed_data_egress_categories = lit "none" ∷ lit "public-ledger" ∷ lit "peer-network" ∷ [];
}
