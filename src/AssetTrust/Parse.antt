-- ===== src/AssetTrust/Parse.antt =====
-- The checks of `parseAssetTrustManifest` and `parseAssetTrustPolicy` of
-- sovereign/src/protocol/v2/asset-trust.ts on values of the right shape.
use cashloom.Prelude.{
  ℕ, Bool, true, false, ◌&&◌, ◌||◌, not, Option, none, some, List, [], ◌∷◌, map, Text, lit, text_eq,
  trim, includes, length, leb, ◌==◌, all, select, Result, ok, ◌>>=◌, ◌>>◌, require,
}
use cashloom.AssetTrust.{
  DisclosedBoolean, IssuerControl, AssetTrustEvidence, AssetTrustManifest, AssetTrustPolicy,
  TrustHost, settlement_models, finality_models, regulated_provider_roles, bridge_dependencies,
  identity_requirements, custody_models, data_egress_categories, fail_closed,
}

-- What a `TypeError` names, the path of the field; `wallet` is an error of the wallet package.
pub data TrustError : Type 0 where
  invalid : Text → TrustError
  wallet : Text → TrustError

abbrev pub is_yes : DisclosedBoolean → Bool
is_yes DisclosedBoolean.yes = true
is_yes _ = false

abbrev pub is_no : DisclosedBoolean → Bool
is_no DisclosedBoolean.no = true
is_no _ = false

abbrev pub is_undisclosed : DisclosedBoolean → Bool
is_undisclosed DisclosedBoolean.undisclosed = true
is_undisclosed _ = false

abbrev is_lower : ℕ → Bool
is_lower c = leb b'a' c && leb c b'z'

abbrev is_alphanumeric : ℕ → Bool
is_alphanumeric c = is_lower c || (leb b'A' c && leb c b'Z') || (leb b'0' c && leb c b'9')

abbrev is_token_unit : ℕ → Bool
is_token_unit c = is_alphanumeric c || c == b'.' || c == b'_' || c == b':' || c == b'/' || c == b'-'

abbrev is_rail_unit : ℕ → Bool
is_rail_unit c =
    is_lower c || (leb b'0' c && leb c b'9') || c == b'.' || c == b'_' || c == b':' || c == b'-'

-- `/^[a-zA-Z0-9][a-zA-Z0-9._:/-]*$/u`
unfoldable pub is_token : Text → Bool
is_token [] = false
is_token (c ∷ s) = is_alphanumeric c && all is_token_unit s

-- `/^[a-z][a-z0-9._:-]{0,63}$/u`
unfoldable pub is_rail : Text → Bool
is_rail [] = false
is_rail (c ∷ s) = is_lower c && all is_rail_unit s && leb (length s) 63

unfoldable pub bounded_token : Text → Text → ℕ → Result TrustError (Unit {0})
bounded_token value path maximum =
    require
      (not (length value == 0)
        && leb (length value) maximum
        && text_eq (trim value) value
        && is_token value)
      (TrustError.invalid path)

unfoldable pub rail_identifier : Text → Text → Result TrustError (Unit {0})
rail_identifier value path = do
  bounded_token value path 64
  require (is_rail value) (TrustError.invalid path)

unfoldable pub enum_value : Text → List Text → Text → Result TrustError (Unit {0})
enum_value value allowed path = require (includes value allowed) (TrustError.invalid path)

-- `new Set(values).size === values.length`
unfoldable pub no_duplicates : List Text → Bool
no_duplicates [] = true
no_duplicates (x ∷ xs) = not (includes x xs) && no_duplicates xs

unfoldable pub unique_enum_array : List Text → List Text → Text → Result TrustError (Unit {0})
unique_enum_array values allowed path = do
  require (leb (length values) (length allowed)) (TrustError.invalid path)
  require (all (λ v. includes v allowed) values) (TrustError.invalid path)
  require (no_duplicates values) (TrustError.invalid path)

-- The provider's role says what its requirement says, and a regulated ledger requires one.
unfoldable pub check_provider : AssetTrustManifest → Result TrustError (Unit {0})
check_provider m = do
  let required = m.regulated_provider.required
  let role = m.regulated_provider.role
  let role_path = lit "manifest.regulated_provider.role"
  require (not (is_no required && not (text_eq role (lit "none")))) (TrustError.invalid role_path)
  require (not (is_yes required && (text_eq role (lit "none") || text_eq role (lit "unknown"))))
      (TrustError.invalid role_path)
  require (not (is_undisclosed required && not (text_eq role (lit "unknown"))))
      (TrustError.invalid role_path)
  require (not (text_eq m.settlement.model (lit "regulated-ledger") && not (is_yes required)))
      (TrustError.invalid (lit "manifest.regulated_provider.required"))

unfoldable pub check_egress : List Text → Result TrustError (Unit {0})
check_egress categories = do
  let path = lit "manifest.data_egress.categories"
  unique_enum_array categories data_egress_categories path
  require (not (length categories == 0)) (TrustError.invalid path)
  require (not (includes (lit "none") categories && not (length categories == 1)))
      (TrustError.invalid path)

-- The values of an enumeration but for "unknown"
abbrev pub known : List Text → List Text
known = select (λ v. not (text_eq v (lit "unknown")))

abbrev pub control_name : IssuerControl → Text
control_name IssuerControl.mint = lit "mint"
control_name IssuerControl.freeze = lit "freeze"
control_name IssuerControl.denylist = lit "denylist"
control_name IssuerControl.pause = lit "pause"
control_name IssuerControl.upgrade = lit "upgrade"

module _ (host : TrustHost) where
  abbrev check_url : Option Text → Result TrustError (Unit {0})
  check_url none = ok tt
  check_url (some url) =
      require (leb (length url) 2048 && host.is_plain_https url)
        (TrustError.invalid (lit "manifest.evidence.url"))

  unfoldable pub parse_evidence : AssetTrustEvidence → Result TrustError (Unit {0})
  parse_evidence e = do
    bounded_token e.kind (lit "manifest.evidence.kind") 64
    require (host.is_sha256_id e.sha256) (TrustError.wallet (lit "manifest.evidence.sha256"))
    check_url e.url

  unfoldable pub parse_evidences : List AssetTrustEvidence → Result TrustError (Unit {0})
  parse_evidences [] = ok tt
  parse_evidences (e ∷ es) = do parse_evidence e; parse_evidences es

  abbrev digest_of : AssetTrustEvidence → Text
  digest_of e = e.sha256

  unfoldable pub check_manifest : AssetTrustManifest → Result TrustError (Unit {0})
  check_manifest m = do
    require (text_eq m.schema (lit "cashloom.asset-trust/v2"))
        (TrustError.invalid (lit "manifest.schema"))
    rail_identifier m.rail (lit "manifest.rail")
    require (host.is_caip19 m.asset_id) (TrustError.wallet (lit "manifest.asset_id"))
    require (host.is_caip2 m.chain_id) (TrustError.wallet (lit "manifest.chain_id"))
    require (text_eq (host.chain_from_asset m.asset_id) m.chain_id)
        (TrustError.invalid (lit "manifest.chain_id"))
    require (text_eq m.provenance_kind (lit "unsigned-local-assertion"))
        (TrustError.invalid (lit "manifest.provenance.kind"))
    require (host.is_timestamp m.assessed_at)
        (TrustError.wallet (lit "manifest.provenance.assessed_at"))
    enum_value m.settlement.model settlement_models (lit "manifest.settlement.model")
    enum_value m.settlement.finality finality_models (lit "manifest.settlement.finality")
    enum_value m.regulated_provider.role regulated_provider_roles
        (lit "manifest.regulated_provider.role")
    check_provider m
    enum_value m.bridge_dependency bridge_dependencies (lit "manifest.bridge_dependency")
    enum_value m.identity_requirement identity_requirements (lit "manifest.identity_requirement")
    enum_value m.custody custody_models (lit "manifest.custody")
    check_egress m.data_egress
    require (leb (length m.evidence) 16) (TrustError.invalid (lit "manifest.evidence"))
    parse_evidences m.evidence
    require (no_duplicates (map digest_of m.evidence))
        (TrustError.invalid (lit "manifest.evidence"))

  unfoldable pub parse_asset_trust_manifest :
      AssetTrustManifest → Result TrustError AssetTrustManifest
  parse_asset_trust_manifest m = check_manifest m >>= λ _. ok m

  unfoldable pub check_policy : AssetTrustPolicy → Result TrustError (Unit {0})
  check_policy p = do
    require (text_eq p.schema (lit "cashloom.asset-trust-policy/v2"))
        (TrustError.invalid (lit "policy.schema"))
    bounded_token p.policy_id (lit "policy.policy_id") 128
    unique_enum_array p.allowed_settlement_models (known settlement_models)
        (lit "policy.allowed_settlement_models")
    unique_enum_array p.allowed_finality_models (known finality_models)
        (lit "policy.allowed_finality_models")
    require (no_duplicates (map control_name p.denied_issuer_controls))
        (TrustError.invalid (lit "policy.denied_issuer_controls"))
    unique_enum_array p.allowed_bridge_dependencies (known bridge_dependencies)
        (lit "policy.allowed_bridge_dependencies")
    unique_enum_array p.allowed_custody_models (known custody_models)
        (lit "policy.allowed_custody_models")
    unique_enum_array p.allowed_data_egress_categories (known data_egress_categories)
        (lit "policy.allowed_data_egress_categories")
    require
        (not (
          text_eq p.policy_id fail_closed.policy_id
          && not (text_eq (host.policy_digest p) (host.policy_digest fail_closed))))
        (TrustError.invalid (lit "policy.policy_id"))

  unfoldable pub parse_asset_trust_policy : AssetTrustPolicy → Result TrustError AssetTrustPolicy
  parse_asset_trust_policy p = check_policy p >>= λ _. ok p
