-- ===== src/AssetTrust/Acceptance.antt =====
-- `evaluateAssetTrust` of sovereign/src/protocol/v2/asset-trust.ts accepts exactly the manifests that
-- meet the policy.
use cashloom.Prelude.{◌≡◌, sym, subst, true, false, ◌⊎◌, ◌↔◌, ok, bind-eq-ok}
use cashloom.AssetTrust.{
  AssetTrustManifest, AssetTrustPolicy, AssetTrustDecision, TrustHost, issuer_control_values,
}
use cashloom.AssetTrust.Parse.{
  is_yes, is_no, parse_asset_trust_manifest, parse_asset_trust_policy, check_manifest, check_policy,
}
use cashloom.AssetTrust.Compliance.{
  Silent, findings_of-Silent, Meets, IsDisclosed, Silent-append, not_barred, not_both,
  controls-Silent, egress-Silent, Disclosed, identity-silent, unknowns-Silent,
}
use cashloom.AssetTrust.Evaluate.{
  control_checks, egress_checks, settlement_checks, access_checks, unknown_checks, all_checks,
  decide, evaluate_asset_trust,
}

Silent-Meets :
    (m : AssetTrustManifest) (p : AssetTrustPolicy)
    → Silent (all_checks m p)
    → Meets m p × Disclosed m p
unfolding all_checks settlement_checks access_checks
Silent-Meets m p h =
    let (first, rest1) = (Silent-append (settlement_checks m p) _).0 h in
    let (controls, rest2) = (Silent-append (control_checks m p issuer_control_values) _).0 rest1 in
    let (access, rest3) = (Silent-append (access_checks m p) _).0 rest2 in
    let (egress, unknowns) =
      (Silent-append (egress_checks p m.data_egress) (unknown_checks m p)).0 rest3 in
    let (model, first1) = first in
    let (finality, first2) = first1 in
    let (sequencer, first3) = first2 in
    let (identity, access1) = access in
    let (read, access2) = access1 in
    let (broadcast, access3) = access2 in
    let (bridge, access4) = access3 in
    (
      record {
        model = (not_barred m.settlement.model p.allowed_settlement_models).0 model;
        finality = (not_barred m.settlement.finality p.allowed_finality_models).0 finality;
        sequencer =
            (not_both (is_yes m.settlement.single_sequencer) p.reject_single_sequencer).0 sequencer;
        provider =
            (not_both (is_yes m.regulated_provider.required) p.reject_regulated_provider).0
              first3.0;
        controls = (controls-Silent m p issuer_control_values).0 controls;
        identity = (identity-silent m p).0 identity;
        read =
            (not_both (is_no m.infrastructure.self_hostable_read) p.require_self_hostable_read).0
              read;
        broadcast =
            (not_both (is_no m.infrastructure.self_hostable_broadcast)
                p.require_self_hostable_broadcast).0
              broadcast;
        bridge = (not_barred m.bridge_dependency p.allowed_bridge_dependencies).0 bridge;
        custody = (not_barred m.custody p.allowed_custody_models).0 access4.0;
        egress = (egress-Silent p m.data_egress).0 egress;
      },
      (unknowns-Silent m p).0 unknowns,
    )

Meets-Silent :
    (m : AssetTrustManifest) (p : AssetTrustPolicy)
    → Meets m p
    → Disclosed m p
    → Silent (all_checks m p)
unfolding all_checks settlement_checks access_checks
Meets-Silent m p a d = (Silent-append (settlement_checks m p) _).1 (
  (
    (not_barred m.settlement.model p.allowed_settlement_models).1 a.model,
    (
      (not_barred m.settlement.finality p.allowed_finality_models).1 a.finality,
      (
        (not_both (is_yes m.settlement.single_sequencer) p.reject_single_sequencer).1 a.sequencer,
        (
          (not_both (is_yes m.regulated_provider.required) p.reject_regulated_provider).1
              a.provider,
          tt,
        ),
      ),
    ),
  ),
  (Silent-append (control_checks m p issuer_control_values) _).1 (
    (controls-Silent m p issuer_control_values).1 a.controls,
    (Silent-append (access_checks m p) _).1 (
      (
        (identity-silent m p).1 a.identity,
        (
          (not_both (is_no m.infrastructure.self_hostable_read) p.require_self_hostable_read).1
              a.read,
          (
            (not_both (is_no m.infrastructure.self_hostable_broadcast)
                  p.require_self_hostable_broadcast).1
                a.broadcast,
            (
              (not_barred m.bridge_dependency p.allowed_bridge_dependencies).1 a.bridge,
              ((not_barred m.custody p.allowed_custody_models).1 a.custody, tt),
            ),
          ),
        ),
      ),
      (Silent-append (egress_checks p m.data_egress) (unknown_checks m p)).1
          ((egress-Silent p m.data_egress).1 a.egress, (unknowns-Silent m p).1 d),
    ),
  ),
)

module _ (host : TrustHost) where
  evaluate-decide :
      (m : AssetTrustManifest) (p : AssetTrustPolicy) (d : AssetTrustDecision)
      → evaluate_asset_trust host m p ≡ ok d
      → d ≡ decide host m p
  unfolding evaluate_asset_trust parse_asset_trust_manifest parse_asset_trust_policy
  evaluate-decide m p d h =
      let (m', e1, k1) = bind-eq-ok (parse_asset_trust_manifest host m) _ h in
      let (_, _, j1) = bind-eq-ok (check_manifest host m) _ e1 in
      let (p', e2, k2) = bind-eq-ok (parse_asset_trust_policy host p) _ k1 in
      let (_, _, j2) = bind-eq-ok (check_policy host p) _ e2 in
      let same_m : m ≡ m' = cc in let same_p : p ≡ p' = cc in cc

  -- A manifest and a policy that parse: the decision accepts exactly when the manifest meets every
  -- clause of the policy, and leaves nothing unknown where the policy rejects unknowns.
  pub accepted-Meets :
      (m : AssetTrustManifest) (p : AssetTrustPolicy) (d : AssetTrustDecision)
      → evaluate_asset_trust host m p ≡ ok d
      → (d.accepted ≡ true) ↔ (Meets m p × ((p.reject_unknowns ≡ false) ⊎ IsDisclosed m))
  accepted-Meets m p d h =
      let same = evaluate-decide m p d h in
      let (silent, back) = findings_of-Silent (all_checks m p) in
      (
        (λ e.
            Silent-Meets m p
              (silent (subst (λ (x : AssetTrustDecision). x.accepted ≡ true) same e))),
        λ a.
            subst (λ (x : AssetTrustDecision). x.accepted ≡ true) (sym same)
              (back (Meets-Silent m p a.0 a.1)),
      )
