-- ===== src/AssetTrust/Evaluate.antt =====
-- `evaluateAssetTrust` of sovereign/src/protocol/v2/asset-trust.ts.
use cashloom.Prelude.{
  Bool, true, false, ◌&&◌, not, List, [], ◌∷◌, ◌++◌, Text, lit, text_eq, includes, Result, ok,
  ◌>>=◌, if◌then◌else◌, any,
}
use cashloom.AssetTrust.{
  IssuerControl, AssetTrustManifest, AssetTrustPolicy, FindingCode, AssetTrustFinding,
  AssetTrustDecision, TrustHost, issuer_control_values,
}
use cashloom.AssetTrust.Parse.{
  TrustError, is_yes, is_no, is_undisclosed, control_name, parse_asset_trust_manifest,
  parse_asset_trust_policy,
}

abbrev pub is_unknown : Text → Bool
is_unknown value = text_eq value (lit "unknown")

-- A known value that is not in the list
abbrev pub is_barred : Text → List Text → Bool
is_barred value allowed = not (is_unknown value) && not (includes value allowed)

-- `policy.denied_issuer_controls.includes(control)`
abbrev pub is_denied : List IssuerControl → IssuerControl → Bool
is_denied denied control = any (λ d. text_eq (control_name d) (control_name control)) denied

-- An `if` whose body is one `add`
abbrev pub Check : Type 0
Check = Bool × AssetTrustFinding

abbrev check : Bool → FindingCode → Text → Check
check test code path = (test, record { code = code; path = path })

-- The `if`s in order: the findings of those that hold.
unfoldable pub findings_of : List Check → List AssetTrustFinding
findings_of [] = []
findings_of ((test, finding) ∷ rest) =
    let others = findings_of rest in if test then finding ∷ others else others

unfoldable pub control_checks :
    AssetTrustManifest → AssetTrustPolicy → List IssuerControl → List Check
control_checks m p [] = []
control_checks m p (c ∷ cs) =
    check (is_yes (m.issuer_controls c) && is_denied p.denied_issuer_controls c)
      FindingCode.issuer_control (lit "issuer_controls." ++ control_name c)
    ∷ control_checks m p cs

unfoldable pub egress_checks : AssetTrustPolicy → List Text → List Check
egress_checks p [] = []
egress_checks p (c ∷ cs) =
    check (is_barred c p.allowed_data_egress_categories) FindingCode.data_egress
      (lit "data_egress.categories")
    ∷ egress_checks p cs

unfoldable pub unknown_controls : AssetTrustManifest → List IssuerControl → List Check
unknown_controls m [] = []
unknown_controls m (c ∷ cs) =
    check (is_undisclosed (m.issuer_controls c)) FindingCode.unknown
      (lit "issuer_controls." ++ control_name c)
    ∷ unknown_controls m cs

unfoldable pub settlement_checks : AssetTrustManifest → AssetTrustPolicy → List Check
settlement_checks m p =
    check (is_barred m.settlement.model p.allowed_settlement_models) FindingCode.settlement_model
      (lit "settlement.model")
    ∷ check (is_barred m.settlement.finality p.allowed_finality_models) FindingCode.finality_model
        (lit "settlement.finality")
    ∷ check (is_yes m.settlement.single_sequencer && p.reject_single_sequencer)
        FindingCode.single_sequencer (lit "settlement.single_sequencer")
    ∷ check (is_yes m.regulated_provider.required && p.reject_regulated_provider)
        FindingCode.regulated_provider (lit "regulated_provider.required")
    ∷ []

unfoldable pub access_checks : AssetTrustManifest → AssetTrustPolicy → List Check
access_checks m p =
    check
      (not (text_eq m.identity_requirement (lit "none"))
        && not (is_unknown m.identity_requirement)
        && p.reject_identity_requirement)
      FindingCode.identity_required (lit "identity_requirement")
    ∷ check (is_no m.infrastructure.self_hostable_read && p.require_self_hostable_read)
        FindingCode.non_self_hostable_read (lit "infrastructure.self_hostable_read")
    ∷ check (is_no m.infrastructure.self_hostable_broadcast && p.require_self_hostable_broadcast)
        FindingCode.non_self_hostable_broadcast (lit "infrastructure.self_hostable_broadcast")
    ∷ check (is_barred m.bridge_dependency p.allowed_bridge_dependencies)
        FindingCode.bridge_dependency (lit "bridge_dependency")
    ∷ check (is_barred m.custody p.allowed_custody_models) FindingCode.custody_model (lit "custody")
    ∷ []

unfoldable pub first_unknowns : AssetTrustManifest → List Check
first_unknowns m =
    check (is_unknown m.settlement.model) FindingCode.unknown (lit "settlement.model")
    ∷ check (is_unknown m.settlement.finality) FindingCode.unknown (lit "settlement.finality")
    ∷ check (is_undisclosed m.settlement.single_sequencer) FindingCode.unknown
        (lit "settlement.single_sequencer")
    ∷ check (is_undisclosed m.regulated_provider.required) FindingCode.unknown
        (lit "regulated_provider.required")
    ∷ check (is_unknown m.regulated_provider.role) FindingCode.unknown
        (lit "regulated_provider.role")
    ∷ []

unfoldable pub last_unknowns : AssetTrustManifest → List Check
last_unknowns m =
    check (is_unknown m.bridge_dependency) FindingCode.unknown (lit "bridge_dependency")
    ∷ check (is_unknown m.identity_requirement) FindingCode.unknown (lit "identity_requirement")
    ∷ check (is_unknown m.custody) FindingCode.unknown (lit "custody")
    ∷ check (is_undisclosed m.infrastructure.self_hostable_read) FindingCode.unknown
        (lit "infrastructure.self_hostable_read")
    ∷ check (is_undisclosed m.infrastructure.self_hostable_broadcast) FindingCode.unknown
        (lit "infrastructure.self_hostable_broadcast")
    ∷ check (includes (lit "unknown") m.data_egress) FindingCode.unknown
        (lit "data_egress.categories")
    ∷ []

-- `if (policy.reject_unknowns)`
unfoldable pub unknown_checks : AssetTrustManifest → AssetTrustPolicy → List Check
unknown_checks m p =
    if p.reject_unknowns
    then first_unknowns m ++ (unknown_controls m issuer_control_values ++ last_unknowns m)
    else []

unfoldable pub all_checks : AssetTrustManifest → AssetTrustPolicy → List Check
all_checks m p =
    settlement_checks m p
    ++ (control_checks m p issuer_control_values
        ++ (access_checks m p ++ (egress_checks p m.data_egress ++ unknown_checks m p)))

-- `findings.length === 0`
abbrev pub is_empty : List AssetTrustFinding → Bool
is_empty [] = true
is_empty _ = false

module _ (host : TrustHost) where
  abbrev pub decide : AssetTrustManifest → AssetTrustPolicy → AssetTrustDecision
  decide m p =
      let findings = findings_of (all_checks m p) in
      record {
        accepted = is_empty findings;
        asset_id = m.asset_id;
        policy_id = p.policy_id;
        policy_hash = host.policy_digest p;
        findings = findings;
      }

  unfoldable pub evaluate_asset_trust :
      AssetTrustManifest → AssetTrustPolicy → Result TrustError AssetTrustDecision
  evaluate_asset_trust manifest_value policy_value = do
    manifest ← parse_asset_trust_manifest host manifest_value
    policy ← parse_asset_trust_policy host policy_value
    ok (decide manifest policy)
