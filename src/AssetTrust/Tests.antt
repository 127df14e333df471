-- ===== src/AssetTrust/Tests.antt =====
-- The decisions of the asset-trust policies at concrete manifests.
use cashloom.Prelude.{
  ◌≡◌, refl, ◌↔◌, ◌⊎◌, inl, inr, true, false, none, [], ◌∷◌, lit, text_eq, trim, drop_spaces,
  is_space, includes, all, any, select, All, ok,
}
use cashloom.AssetTrust.{
  DisclosedBoolean, AssetTrustManifest, AssetTrustPolicy, TrustHost, issuer_control_values,
  fail_closed,
}
use cashloom.AssetTrust.Parse.{
  is_token, is_rail, bounded_token, rail_identifier, enum_value, no_duplicates, unique_enum_array,
  check_provider, check_egress, parse_evidence, parse_evidences, check_manifest,
  parse_asset_trust_manifest, check_policy, parse_asset_trust_policy,
}
use cashloom.AssetTrust.Evaluate.{
  findings_of, control_checks, egress_checks, unknown_controls, settlement_checks, access_checks,
  first_unknowns, last_unknowns, unknown_checks, all_checks, decide, evaluate_asset_trust,
}
use cashloom.AssetTrust.Compliance.{Meets, IsDisclosed}
use cashloom.AssetTrust.Acceptance.{accepted-Meets}
use cashloom.AssetTrust.Policies.{IsStricter, accepted-IsStricter, fail_closed-accepted}

abbrev host : TrustHost
host = record {
  is_caip2 = λ _. true;
  is_caip19 = λ _. true;
  is_timestamp = λ _. true;
  is_sha256_id = λ _. true;
  chain_from_asset = λ _. lit "bip122:0";
  policy_digest = λ p. p.policy_id;
  is_plain_https = λ _. true;
}

abbrev bitcoin : AssetTrustManifest
bitcoin = record {
  schema = lit "cashloom.asset-trust/v2";
  rail = lit "btc";
  asset_id = lit "bip122:0/slip44:0";
  chain_id = lit "bip122:0";
  provenance_kind = lit "unsigned-local-assertion";
  assessed_at = lit "t";
  settlement = record {
    model = lit "layer-1-proof-of-work";
    finality = lit "probabilistic";
    single_sequencer = DisclosedBoolean.no;
  };
  regulated_provider = record { required = DisclosedBoolean.no; role = lit "none" };
  issuer_controls = λ _. DisclosedBoolean.no;
  bridge_dependency = lit "none";
  identity_requirement = lit "none";
  custody = lit "self-custody-capable";
  infrastructure = record {
    self_hostable_read = DisclosedBoolean.yes;
    self_hostable_broadcast = DisclosedBoolean.yes;
  };
  data_egress = lit "public-ledger" ∷ lit "peer-network" ∷ [];
  evidence = record { kind = lit "doc"; sha256 = lit "h"; url = none } ∷ [];
}

-- A policy that lets unknowns and issuer controls pass.
abbrev lax : AssetTrustPolicy
lax = record fail_closed {
  policy_id = lit "lax";
  denied_issuer_controls = [];
  reject_unknowns = false;
}

decided : evaluate_asset_trust host bitcoin fail_closed ≡ ok (decide host bitcoin fail_closed)
unfolding text_eq trim drop_spaces is_space includes all any select is_token is_rail bounded_token
    rail_identifier enum_value no_duplicates unique_enum_array check_provider check_egress
    parse_evidence parse_evidences check_manifest parse_asset_trust_manifest check_policy
    parse_asset_trust_policy evaluate_asset_trust
decided = refl

decided_lax : evaluate_asset_trust host bitcoin lax ≡ ok (decide host bitcoin lax)
unfolding text_eq trim drop_spaces is_space includes all any select is_token is_rail bounded_token
    rail_identifier enum_value no_duplicates unique_enum_array check_provider check_egress
    parse_evidence parse_evidences check_manifest parse_asset_trust_manifest check_policy
    parse_asset_trust_policy evaluate_asset_trust
decided_lax = refl

accepts : (decide host bitcoin fail_closed).accepted ≡ true
unfolding text_eq includes any findings_of control_checks egress_checks unknown_controls
    settlement_checks access_checks first_unknowns last_unknowns unknown_checks all_checks
accepts = refl

lax_is_laxer : IsStricter fail_closed lax
unfolding any
lax_is_laxer = record {
  models = λ v h. h;
  finalities = λ v h. h;
  sequencer = inl refl;
  provider = inl refl;
  controls = λ c. inr refl;
  identity = inl refl;
  read = inl refl;
  broadcast = inl refl;
  unknowns = inl refl;
  bridges = λ v h. h;
  custodies = λ v h. h;
  egress = λ v h. h;
}

accepted-Meets_example :
    ((decide host bitcoin fail_closed).accepted ≡ true)
    ↔ (Meets bitcoin fail_closed × ((true ≡ false) ⊎ IsDisclosed bitcoin))
accepted-Meets_example =
    accepted-Meets host bitcoin fail_closed (decide host bitcoin fail_closed) decided

accepted-IsStricter_example : (decide host bitcoin lax).accepted ≡ true
accepted-IsStricter_example =
    accepted-IsStricter host bitcoin fail_closed lax (decide host bitcoin fail_closed)
      (decide host bitcoin lax) lax_is_laxer decided decided_lax accepts

fail_closed-accepted_example :
    All (λ c. bitcoin.issuer_controls c ≡ DisclosedBoolean.no) issuer_control_values
    × (bitcoin.settlement.single_sequencer ≡ DisclosedBoolean.no)
    × (bitcoin.regulated_provider.required ≡ DisclosedBoolean.no)
    × (bitcoin.infrastructure.self_hostable_read ≡ DisclosedBoolean.yes)
    × (bitcoin.infrastructure.self_hostable_broadcast ≡ DisclosedBoolean.yes)
    × (includes bitcoin.settlement.model
          (lit "layer-1-proof-of-work" ∷ lit "layer-1-proof-of-stake" ∷ [])
        ≡ true)
    × (bitcoin.bridge_dependency ≡ lit "none")
    × (bitcoin.identity_requirement ≡ lit "none")
    × (bitcoin.custody ≡ lit "self-custody-capable")
fail_closed-accepted_example =
    fail_closed-accepted host bitcoin (decide host bitcoin fail_closed) decided accepts
