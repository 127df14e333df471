-- ===== src/AssetTrust/Policies.antt =====
-- Policies compared, and the built-in fail-closed policy of sovereign/src/protocol/v2/asset-trust.ts.
use cashloom.Prelude.{
  ◌≡◌, refl, Bool, true, false, ◌⊎◌, inl, inr, List, [], ◌∷◌, Text, lit, text_eq, text_eq_iff,
  includes, All, All-implies, All-both, arith, ok, any,
}
use cashloom.AssetTrust.{
  DisclosedBoolean, IssuerControl, AssetTrustManifest, AssetTrustPolicy, AssetTrustDecision,
  TrustHost, issuer_control_values, fail_closed,
}
use cashloom.AssetTrust.Parse.{is_yes, is_no, is_undisclosed}
use cashloom.AssetTrust.Evaluate.{is_unknown, is_denied, evaluate_asset_trust}
use cashloom.AssetTrust.Compliance.{Permitted, Meets, IsDisclosed}
use cashloom.AssetTrust.Acceptance.{accepted-Meets}

-- Every value of the first list is in the second.
abbrev pub Within : List Text → List Text → Type 0
Within xs ys = (v : Text) → includes v xs ≡ true → includes v ys ≡ true

-- The first policy asks at least what the second does.
pub record IsStricter (p q : AssetTrustPolicy) : Type 0 where
  pub models : Within p.allowed_settlement_models q.allowed_settlement_models
  pub finalities : Within p.allowed_finality_models q.allowed_finality_models
  pub sequencer : (p.reject_single_sequencer ≡ true) ⊎ (q.reject_single_sequencer ≡ false)
  pub provider : (p.reject_regulated_provider ≡ true) ⊎ (q.reject_regulated_provider ≡ false)
  pub controls :
      (c : IssuerControl)
      → (is_denied p.denied_issuer_controls c ≡ true)
        ⊎ (is_denied q.denied_issuer_controls c ≡ false)
  pub identity : (p.reject_identity_requirement ≡ true) ⊎ (q.reject_identity_requirement ≡ false)
  pub read : (p.require_self_hostable_read ≡ true) ⊎ (q.require_self_hostable_read ≡ false)
  pub broadcast :
      (p.require_self_hostable_broadcast ≡ true) ⊎ (q.require_self_hostable_broadcast ≡ false)
  pub unknowns : (p.reject_unknowns ≡ true) ⊎ (q.reject_unknowns ≡ false)
  pub bridges : Within p.allowed_bridge_dependencies q.allowed_bridge_dependencies
  pub custodies : Within p.allowed_custody_models q.allowed_custody_models
  pub egress : Within p.allowed_data_egress_categories q.allowed_data_egress_categories

widen : (v : Text) (xs ys : List Text) → Within xs ys → Permitted v xs → Permitted v ys
widen v xs ys w (inl unknown) = inl unknown
widen v xs ys w (inr there) = inr (w v there)

loosen :
    (P : Type 0) (strict loose : Bool)
    → (strict ≡ true) ⊎ (loose ≡ false)
    → P ⊎ (strict ≡ false)
    → P ⊎ (loose ≡ false)
loosen P strict loose h (inl holds) = inl holds
loosen P strict loose (inl on) (inr off) = absurd (ground arith)
loosen P strict loose (inr off') (inr off) = inr off'

identity_shape : (A B C : Type 0) → A ⊎ (B ⊎ C) → (A ⊎ B) ⊎ C
identity_shape A B C (inl a) = inl (inl a)
identity_shape A B C (inr (inl b)) = inl (inr b)
identity_shape A B C (inr (inr c)) = inr c

identity_back : (A B C : Type 0) → (A ⊎ B) ⊎ C → A ⊎ (B ⊎ C)
identity_back A B C (inl (inl a)) = inl a
identity_back A B C (inl (inr b)) = inr (inl b)
identity_back A B C (inr c) = inr (inr c)

Meets-IsStricter :
    (m : AssetTrustManifest) (p q : AssetTrustPolicy) → IsStricter p q → Meets m p → Meets m q
Meets-IsStricter m p q s a = record {
  model = widen m.settlement.model _ _ s.models a.model;
  finality = widen m.settlement.finality _ _ s.finalities a.finality;
  sequencer = loosen _ p.reject_single_sequencer q.reject_single_sequencer s.sequencer a.sequencer;
  provider = loosen _ p.reject_regulated_provider q.reject_regulated_provider s.provider a.provider;
  controls =
      All-implies
        (λ c.
          (is_yes (m.issuer_controls c) ≡ false) ⊎ (is_denied p.denied_issuer_controls c ≡ false))
        (λ c.
          (is_yes (m.issuer_controls c) ≡ false) ⊎ (is_denied q.denied_issuer_controls c ≡ false))
        issuer_control_values
        (λ c.
          loosen (is_yes (m.issuer_controls c) ≡ false) (is_denied p.denied_issuer_controls c)
            (is_denied q.denied_issuer_controls c) (s.controls c))
        a.controls;
  identity = identity_back _ _ _ (
      loosen _ p.reject_identity_requirement q.reject_identity_requirement s.identity
        (identity_shape _ _ _ a.identity));
  read = loosen _ p.require_self_hostable_read q.require_self_hostable_read s.read a.read;
  broadcast =
      loosen _ p.require_self_hostable_broadcast q.require_self_hostable_broadcast s.broadcast
        a.broadcast;
  bridge = widen m.bridge_dependency _ _ s.bridges a.bridge;
  custody = widen m.custody _ _ s.custodies a.custody;
  egress = All-implies _ _ m.data_egress (λ c. widen c _ _ s.egress) a.egress;
}

swap : (A B : Type 0) → A ⊎ B → B ⊎ A
swap A B (inl a) = inr a
swap A B (inr b) = inl b

only_no :
    (b : DisclosedBoolean) → is_yes b ≡ false → is_undisclosed b ≡ false → b ≡ DisclosedBoolean.no
only_no DisclosedBoolean.yes h k = cc
only_no DisclosedBoolean.no h k = refl
only_no DisclosedBoolean.undisclosed h k = cc

only_yes :
    (b : DisclosedBoolean) → is_no b ≡ false → is_undisclosed b ≡ false → b ≡ DisclosedBoolean.yes
only_yes DisclosedBoolean.yes h k = refl
only_yes DisclosedBoolean.no h k = cc
only_yes DisclosedBoolean.undisclosed h k = cc

-- The first of two, where the second is refuted.
first_of : (P : Type 0) (b : Bool) → b ≡ true → P ⊎ (b ≡ false) → P
first_of P b on (inl p) = p
first_of P b on (inr off) = absurd (ground arith)

listed : (v : Text) (xs : List Text) → is_unknown v ≡ false → Permitted v xs → includes v xs ≡ true
listed v xs h (inl unknown) = absurd (ground arith)
listed v xs h (inr there) = there

only_value : (v w : Text) → includes v (w ∷ []) ≡ true → v ≡ w
unfolding includes
only_value v w h = ground (arith, text_eq_iff w v)

every_control : (c : IssuerControl) → is_denied issuer_control_values c ≡ true
unfolding any text_eq
every_control IssuerControl.mint = refl
every_control IssuerControl.freeze = refl
every_control IssuerControl.denylist = refl
every_control IssuerControl.pause = refl
every_control IssuerControl.upgrade = refl

no_identity :
    (v : Text)
    → is_unknown v ≡ false
    → (text_eq v (lit "none") ≡ true) ⊎ ((is_unknown v ≡ true) ⊎ (true ≡ false))
    → v ≡ lit "none"
no_identity v h (inl same) = (text_eq_iff v (lit "none")).0 same
no_identity v h (inr (inl unknown)) = absurd (ground arith)
no_identity v h (inr (inr never)) = absurd (ground arith)

module _ (host : TrustHost) where
  -- What a policy accepts, a policy that asks no more of it accepts too, if both parse.
  pub accepted-IsStricter :
      (m : AssetTrustManifest) (p q : AssetTrustPolicy) (d e : AssetTrustDecision)
      → IsStricter p q
      → evaluate_asset_trust host m p ≡ ok d
      → evaluate_asset_trust host m q ≡ ok e
      → d.accepted ≡ true
      → e.accepted ≡ true
  accepted-IsStricter m p q d e s hp hq accepted =
      let (meets, disclosed) = (accepted-Meets host m p d hp).0 accepted in
      (accepted-Meets host m q e hq).1 (
        Meets-IsStricter m p q s meets,
        swap _ _ (loosen _ p.reject_unknowns q.reject_unknowns s.unknowns (swap _ _ disclosed)),
      )

  -- The built-in policy accepts only a manifest that denies all five issuer controls, a single
  -- sequencer and a regulated provider, says that reads and broadcasts can be self-hosted, and names a
  -- layer-1 settlement, no bridge, no identity requirement and self-custody.
  pub fail_closed-accepted :
      (m : AssetTrustManifest) (d : AssetTrustDecision)
      → evaluate_asset_trust host m fail_closed ≡ ok d
      → d.accepted ≡ true
      → All (λ c. m.issuer_controls c ≡ DisclosedBoolean.no) issuer_control_values
        × (m.settlement.single_sequencer ≡ DisclosedBoolean.no)
        × (m.regulated_provider.required ≡ DisclosedBoolean.no)
        × (m.infrastructure.self_hostable_read ≡ DisclosedBoolean.yes)
        × (m.infrastructure.self_hostable_broadcast ≡ DisclosedBoolean.yes)
        × (includes m.settlement.model
              (lit "layer-1-proof-of-work" ∷ lit "layer-1-proof-of-stake" ∷ [])
            ≡ true)
        × (m.bridge_dependency ≡ lit "none")
        × (m.identity_requirement ≡ lit "none")
        × (m.custody ≡ lit "self-custody-capable")
  fail_closed-accepted m d h accepted =
      let (a, disclosed) = (accepted-Meets host m fail_closed d h).0 accepted in
      let k = first_of (IsDisclosed m) true refl (swap _ _ disclosed) in
      let s = m.settlement in
      let i = m.infrastructure in
      (
        All-both
            (λ c.
              (is_yes (m.issuer_controls c) ≡ false) ⊎ (is_denied issuer_control_values c ≡ false))
            (λ c. is_undisclosed (m.issuer_controls c) ≡ false)
            (λ c. m.issuer_controls c ≡ DisclosedBoolean.no) issuer_control_values
            (λ c x y.
              only_no (m.issuer_controls c)
                (first_of _ (is_denied issuer_control_values c) (every_control c) x) y)
            a.controls k.controls,
        only_no s.single_sequencer (first_of _ true refl a.sequencer) k.sequencer,
        only_no m.regulated_provider.required (first_of _ true refl a.provider) k.provider,
        only_yes i.self_hostable_read (first_of _ true refl a.read) k.read,
        only_yes i.self_hostable_broadcast (first_of _ true refl a.broadcast) k.broadcast,
        listed s.model fail_closed.allowed_settlement_models k.model a.model,
        only_value m.bridge_dependency (lit "none")
            (listed m.bridge_dependency fail_closed.allowed_bridge_dependencies k.bridge a.bridge),
        no_identity m.identity_requirement k.identity a.identity,
        only_value m.custody (lit "self-custody-capable")
            (listed m.custody fail_closed.allowed_custody_models k.custody a.custody),
      )
