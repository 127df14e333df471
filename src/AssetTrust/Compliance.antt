-- ===== src/AssetTrust/Compliance.antt =====
-- What it means that a manifest meets a policy, in terms of the checks of `evaluateAssetTrust` of
-- sovereign/src/protocol/v2/asset-trust.ts.
use cashloom.Prelude.{
  ◌≡◌, refl, Bool, true, false, ◌&&◌, not, ◌⊎◌, inl, inr, ◌↔◌, List, [], ◌∷◌, ◌++◌, Text, lit,
  text_eq, includes, All, arith, Bool-cases,
}
use cashloom.AssetTrust.{IssuerControl, AssetTrustManifest, AssetTrustPolicy, issuer_control_values}
use cashloom.AssetTrust.Parse.{is_yes, is_no, is_undisclosed}
use cashloom.AssetTrust.Evaluate.{
  is_unknown, is_barred, is_denied, Check, findings_of, control_checks, egress_checks,
  unknown_controls, first_unknowns, last_unknowns, unknown_checks, is_empty,
}

-- No test of the list holds.
abbrev pub Silent : List Check → Type 0
Silent = All (λ c. c.0 ≡ false)

pub findings_of-Silent : (cs : List Check) → (is_empty (findings_of cs) ≡ true) ↔ Silent cs
unfolding findings_of
findings_of-Silent [] = (λ _. tt, λ _. refl)
findings_of-Silent ((true, f) ∷ cs) = (λ h. cc, λ h. cc)
findings_of-Silent ((false, f) ∷ cs) =
    let (to, from) = findings_of-Silent cs in (λ h. (refl, to h), λ h. from h.1)

-- A value that the policy lists, or that the manifest leaves unknown.
abbrev pub Permitted : Text → List Text → Type 0
Permitted value allowed = (is_unknown value ≡ true) ⊎ (includes value allowed ≡ true)

-- What the manifest says of itself, against what the policy asks.
pub record Meets (m : AssetTrustManifest) (p : AssetTrustPolicy) : Type 0 where
  pub model : Permitted m.settlement.model p.allowed_settlement_models
  pub finality : Permitted m.settlement.finality p.allowed_finality_models
  pub sequencer :
      (is_yes m.settlement.single_sequencer ≡ false) ⊎ (p.reject_single_sequencer ≡ false)
  pub provider :
      (is_yes m.regulated_provider.required ≡ false) ⊎ (p.reject_regulated_provider ≡ false)
  pub controls :
      All
        (λ c.
          (is_yes (m.issuer_controls c) ≡ false) ⊎ (is_denied p.denied_issuer_controls c ≡ false))
        issuer_control_values
  pub identity :
      (text_eq m.identity_requirement (lit "none") ≡ true)
      ⊎ ((is_unknown m.identity_requirement ≡ true) ⊎ (p.reject_identity_requirement ≡ false))
  pub read :
      (is_no m.infrastructure.self_hostable_read ≡ false) ⊎ (p.require_self_hostable_read ≡ false)
  pub broadcast :
      (is_no m.infrastructure.self_hostable_broadcast ≡ false)
      ⊎ (p.require_self_hostable_broadcast ≡ false)
  pub bridge : Permitted m.bridge_dependency p.allowed_bridge_dependencies
  pub custody : Permitted m.custody p.allowed_custody_models
  pub egress : All (λ c. Permitted c p.allowed_data_egress_categories) m.data_egress

-- The manifest leaves nothing unknown.
pub record IsDisclosed (m : AssetTrustManifest) : Type 0 where
  pub model : is_unknown m.settlement.model ≡ false
  pub finality : is_unknown m.settlement.finality ≡ false
  pub sequencer : is_undisclosed m.settlement.single_sequencer ≡ false
  pub provider : is_undisclosed m.regulated_provider.required ≡ false
  pub role : is_unknown m.regulated_provider.role ≡ false
  pub controls : All (λ c. is_undisclosed (m.issuer_controls c) ≡ false) issuer_control_values
  pub bridge : is_unknown m.bridge_dependency ≡ false
  pub identity : is_unknown m.identity_requirement ≡ false
  pub custody : is_unknown m.custody ≡ false
  pub read : is_undisclosed m.infrastructure.self_hostable_read ≡ false
  pub broadcast : is_undisclosed m.infrastructure.self_hostable_broadcast ≡ false
  pub egress : includes (lit "unknown") m.data_egress ≡ false

pub Silent-append : (xs ys : List Check) → Silent (xs ++ ys) ↔ (Silent xs × Silent ys)
Silent-append [] ys = (λ h. (tt, h), λ h. h.1)
Silent-append (x ∷ xs) ys =
    let (to, from) = Silent-append xs ys in
    (λ h. ((h.0, (to h.1).0), (to h.1).1), λ h. (h.0.0, from (h.0.1, h.1)))

pub not_barred :
    (value : Text) (allowed : List Text)
    → (is_barred value allowed ≡ false) ↔ Permitted value allowed
not_barred value allowed = ground arith

pub not_both : (a b : Bool) → ((a && b) ≡ false) ↔ ((a ≡ false) ⊎ (b ≡ false))
not_both a b = ground arith

pub controls-Silent :
    (m : AssetTrustManifest) (p : AssetTrustPolicy) (cs : List IssuerControl)
    → Silent (control_checks m p cs)
      ↔ All
          (λ c.
            (is_yes (m.issuer_controls c) ≡ false) ⊎ (is_denied p.denied_issuer_controls c ≡ false))
          cs
unfolding control_checks
controls-Silent m p [] = (λ h. h, λ h. h)
controls-Silent m p (c ∷ cs) =
    let (to, from) = controls-Silent m p cs in
    let (there, back) =
      not_both (is_yes (m.issuer_controls c)) (is_denied p.denied_issuer_controls c) in
    (λ h. (there h.0, to h.1), λ h. (back h.0, from h.1))

pub egress-Silent :
    (p : AssetTrustPolicy) (cs : List Text)
    → Silent (egress_checks p cs) ↔ All (λ c. Permitted c p.allowed_data_egress_categories) cs
unfolding egress_checks
egress-Silent p [] = (λ h. h, λ h. h)
egress-Silent p (c ∷ cs) =
    let (to, from) = egress-Silent p cs in
    let (there, back) = not_barred c p.allowed_data_egress_categories in
    (λ h. (there h.0, to h.1), λ h. (back h.0, from h.1))

unknown_controls-Silent :
    (m : AssetTrustManifest) (cs : List IssuerControl)
    → Silent (unknown_controls m cs) ↔ All (λ c. is_undisclosed (m.issuer_controls c) ≡ false) cs
unfolding unknown_controls
unknown_controls-Silent m [] = (λ h. h, λ h. h)
unknown_controls-Silent m (c ∷ cs) =
    let (to, from) = unknown_controls-Silent m cs in (λ h. (h.0, to h.1), λ h. (h.0, from h.1))

abbrev pub Disclosed : AssetTrustManifest → AssetTrustPolicy → Type 0
Disclosed m p = (p.reject_unknowns ≡ false) ⊎ IsDisclosed m

pub identity-silent :
    (m : AssetTrustManifest) (p : AssetTrustPolicy)
    → ((not (text_eq m.identity_requirement (lit "none"))
          && not (is_unknown m.identity_requirement)
          && p.reject_identity_requirement)
        ≡ false)
      ↔ ((text_eq m.identity_requirement (lit "none") ≡ true)
          ⊎ ((is_unknown m.identity_requirement ≡ true) ⊎ (p.reject_identity_requirement ≡ false)))
identity-silent m p = ground arith

unknown_list : AssetTrustManifest → List Check
unknown_list m = first_unknowns m ++ (unknown_controls m issuer_control_values ++ last_unknowns m)

IsDisclosed-Silent : (m : AssetTrustManifest) → Silent (unknown_list m) → IsDisclosed m
unfolding unknown_list first_unknowns last_unknowns
IsDisclosed-Silent m h =
    let (first, rest) = (Silent-append (first_unknowns m) _).0 h in
    let (controls, last) =
      (Silent-append (unknown_controls m issuer_control_values) (last_unknowns m)).0 rest in
    let (model, first1) = first in
    let (finality, first2) = first1 in
    let (sequencer, first3) = first2 in
    let (provider, first4) = first3 in
    let (role, first5) = first4 in
    let (bridge, last1) = last in
    let (identity, last2) = last1 in
    let (custody, last3) = last2 in
    let (read, last4) = last3 in
    let (broadcast, last5) = last4 in
    record {
      model = model;
      finality = finality;
      sequencer = sequencer;
      provider = provider;
      role = role;
      controls = (unknown_controls-Silent m issuer_control_values).0 controls;
      bridge = bridge;
      identity = identity;
      custody = custody;
      read = read;
      broadcast = broadcast;
      egress = last5.0;
    }

Silent-IsDisclosed : (m : AssetTrustManifest) → IsDisclosed m → Silent (unknown_list m)
unfolding unknown_list first_unknowns last_unknowns
Silent-IsDisclosed m d = (Silent-append (first_unknowns m) _).1 (
  (d.model, (d.finality, (d.sequencer, (d.provider, (d.role, tt))))),
  (Silent-append (unknown_controls m issuer_control_values) (last_unknowns m)).1 (
    (unknown_controls-Silent m issuer_control_values).1 d.controls,
    (d.bridge, (d.identity, (d.custody, (d.read, (d.broadcast, (d.egress, tt)))))),
  ),
)

pub unknowns-Silent :
    (m : AssetTrustManifest) (p : AssetTrustPolicy) → Silent (unknown_checks m p) ↔ Disclosed m p
unfolding unknown_checks unknown_list
unknowns-Silent m p = elim (Bool-cases p.reject_unknowns) [
  | inl on ↦ (
    (λ h. inr (IsDisclosed-Silent m (rw (unknown_checks, on) at h))),
    λ d.
        rw (unknown_checks, on)
          (elim d [ inl off ↦ absurd (cc) | inr all ↦ Silent-IsDisclosed m all ]),
  )
  | inr off ↦ ((λ h. inl off), λ d. rw (unknown_checks, off) tt)
]
