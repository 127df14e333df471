-- ===== src/Records/Agreement.antt =====
-- What a verified chain of sovereign/src/protocol/v2/records.ts has settled between the merchant
-- and the payer.
use cashloom.Prelude.{
  ◌≡◌, true, false, ◌&&◌, ◌||◌, ◌⊎◌, Option, List, [], ◌∷◌, Text, lit, text_eq, text_eq_iff, any,
  subst, All-implies, ok, require-eq-ok, bind-eq-ok, All, AllPairs, arith, length, ◌==◌,
}
use cashloom.Records.{V2Record, ProtocolError, Protocol, Bytes, SelfCertifyingAuthority}
use cashloom.Records.Link.{is_merchant, same_authority, same_payment_field, all_same}
use cashloom.Records.Chain.{
  VerifiedV2Chain, Parts, expect_schemas, check_authorities, check_fields, check_links, same_nonce,
  nonces_distinct, chain_list, check_chain, verify_all, chain_of, active_when,
  verify_v2_record_chain,
}

same_authority-eq :
    (a b : SelfCertifyingAuthority)
    → same_authority a b ≡ ok tt
    → (a.key_id ≡ b.key_id) × (a.public_key ≡ b.public_key)
unfolding same_authority
same_authority-eq a b h =
    ground (arith, text_eq_iff a.key_id b.key_id, text_eq_iff a.public_key b.public_key)

same_payment_field-one : (x y : Text) → same_payment_field x (y ∷ []) ≡ ok tt → x ≡ y
unfolding same_payment_field all_same
same_payment_field-one x y h = ground (arith, text_eq_iff x y)

same_payment_field-two :
    (x y z : Text) → same_payment_field x (y ∷ z ∷ []) ≡ ok tt → (x ≡ y) × (x ≡ z)
unfolding same_payment_field all_same
same_payment_field-two x y z h = ground (arith, text_eq_iff x y, text_eq_iff x z)

-- The two sides of a chain, the merchant's and the payer's, as its records name them.
pub record IsBetween (c : VerifiedV2Chain) : Type 0 where
  pub asked_by : c.payment_request.authority.key_id ≡ c.node_descriptor.authority.key_id
  pub asked_of :
      (c.payment_request.audience ≡ lit "public")
      ⊎ (c.payment_request.audience ≡ c.payment_intent.authority.key_id)
  pub intended_for : c.payment_intent.audience ≡ c.node_descriptor.authority.key_id
  pub committed_by : c.execution_commitment.authority.key_id ≡ c.payment_intent.authority.key_id
  pub submitted_by : c.submission_receipt.authority.key_id ≡ c.payment_intent.authority.key_id
  pub settled_by : c.settlement_receipt.authority.key_id ≡ c.node_descriptor.authority.key_id
  pub settled_for : c.settlement_receipt.audience ≡ c.payment_intent.authority.key_id

check_authorities-IsBetween : (c : VerifiedV2Chain) → check_authorities c ≡ ok tt → IsBetween c
unfolding check_authorities
check_authorities-IsBetween c h =
    let merchant = c.node_descriptor.authority in
    let payer = c.payment_intent.authority in
    let (_, h1, k1) = bind-eq-ok (same_authority c.payment_request.authority merchant) _ h in
    let (h2, k2) =
      require-eq-ok
        (text_eq c.payment_request.audience (lit "public")
          || text_eq c.payment_request.audience payer.key_id)
        ProtocolError.authority_mismatch _ k1 in
    let (h3, k3) =
      require-eq-ok (text_eq c.payment_intent.audience merchant.key_id)
        ProtocolError.authority_mismatch _ k2 in
    let (_, h4, k4) = bind-eq-ok (same_authority c.execution_commitment.authority payer) _ k3 in
    let (_, h5, k5) = bind-eq-ok (same_authority c.submission_receipt.authority payer) _ k4 in
    let (h6, k6) =
      require-eq-ok
        (text_eq c.execution_commitment.audience merchant.key_id
          && text_eq c.submission_receipt.audience merchant.key_id)
        ProtocolError.authority_mismatch _ k5 in
    let (_, h7, k7) = bind-eq-ok (same_authority c.settlement_receipt.authority merchant) _ k6 in
    record {
      asked_by = (same_authority-eq c.payment_request.authority merchant h1).0;
      asked_of = ground (
        arith,
        text_eq_iff c.payment_request.audience (lit "public"),
        text_eq_iff c.payment_request.audience payer.key_id,
      );
      intended_for = (text_eq_iff c.payment_intent.audience merchant.key_id).0 h3;
      committed_by = (same_authority-eq c.execution_commitment.authority payer h4).0;
      submitted_by = (same_authority-eq c.submission_receipt.authority payer h5).0;
      settled_by = (same_authority-eq c.settlement_receipt.authority merchant h7).0;
      settled_for = ground (arith, text_eq_iff c.settlement_receipt.audience payer.key_id);
    }

-- The payment that the request asks for is the one that the payer committed to, with the intent's
-- account and fee limit.
pub record AgreesOn (p : Parts) : Type 0 where
  pub asset : p.request.asset_id ≡ p.commitment.asset_id
  pub amount : p.request.amount_atomic ≡ p.commitment.amount_atomic
  pub rail : p.request.rail ≡ p.commitment.rail
  pub destination : p.request.destination ≡ p.commitment.destination
  pub source_account : p.intent.source_account ≡ p.commitment.source_account
  pub fee_asset : p.intent.fee_asset_id ≡ p.commitment.fee_asset_id
  pub max_fee : p.intent.max_fee_atomic ≡ p.commitment.max_fee_atomic

check_fields-AgreesOn : (p : Parts) → check_fields p ≡ ok tt → AgreesOn p
unfolding check_fields
check_fields-AgreesOn p h =
    let r = p.request in
    let i = p.intent in
    let c = p.commitment in
    let (_, h1, k1) =
      bind-eq-ok (same_payment_field r.asset_id (i.asset_id ∷ c.asset_id ∷ [])) _ h in
    let (_, h2, k2) =
      bind-eq-ok (same_payment_field r.amount_atomic (i.amount_atomic ∷ c.amount_atomic ∷ [])) _
        k1 in
    let (_, h3, k3) =
      bind-eq-ok (same_payment_field i.source_account (c.source_account ∷ [])) _ k2 in
    let (_, h4, k4) = bind-eq-ok (same_payment_field i.fee_asset_id (c.fee_asset_id ∷ [])) _ k3 in
    let (_, h5, k5) =
      bind-eq-ok (same_payment_field i.fee_limit_scope (c.fee_limit_scope ∷ [])) _ k4 in
    let (_, h6, k6) =
      bind-eq-ok (same_payment_field i.max_fee_atomic (c.max_fee_atomic ∷ [])) _ k5 in
    let (_, h7, k7) = bind-eq-ok (same_payment_field r.rail (c.rail ∷ [])) _ k6 in
    record {
      asset = (same_payment_field-two r.asset_id i.asset_id c.asset_id h1).1;
      amount = (same_payment_field-two r.amount_atomic i.amount_atomic c.amount_atomic h2).1;
      rail = same_payment_field-one r.rail c.rail h7;
      destination = same_payment_field-one r.destination c.destination k7;
      source_account = same_payment_field-one i.source_account c.source_account h3;
      fee_asset = same_payment_field-one i.fee_asset_id c.fee_asset_id h4;
      max_fee = same_payment_field-one i.max_fee_atomic c.max_fee_atomic h6;
    }

abbrev NoReplay : List V2Record → Type 0
NoReplay = AllPairs (λ r s. same_nonce s r ≡ false)

nonces_distinct-NoReplay :
    (seen rs : List V2Record)
    → nonces_distinct seen rs ≡ true
    → All (λ r. any (same_nonce r) seen ≡ false) rs × NoReplay rs
unfolding nonces_distinct any
nonces_distinct-NoReplay seen [] h = (tt, tt)
nonces_distinct-NoReplay seen (r ∷ rs) h =
    let (later, apart) = nonces_distinct-NoReplay (r ∷ seen) rs (ground arith) in
    (
      (
        ground arith,
        All-implies (λ s. any (same_nonce s) (r ∷ seen) ≡ false)
            (λ s. any (same_nonce s) seen ≡ false) rs (λ s e. ground arith) later,
      ),
      (
        All-implies (λ s. any (same_nonce s) (r ∷ seen) ≡ false) (λ s. same_nonce s r ≡ false) rs
            (λ s e. ground arith) later,
        apart,
      ),
    )

module _ (protocol : Protocol) where
  -- Six records that verify as a chain name one merchant and one payer, agree on the payment from the
  -- request to the commitment, and reuse no nonce of an issuer.
  pub chain-agrees :
      (values : List Bytes) (now : Option Text) (c : VerifiedV2Chain)
      → verify_v2_record_chain protocol values now ≡ ok c
      → IsBetween c
        × ((p : Parts) × (expect_schemas c ≡ ok p)
            × AgreesOn p
            × (any is_merchant p.descriptor.roles ≡ true))
        × AllPairs (λ r s. same_nonce s r ≡ false) (chain_list c)
  unfolding verify_v2_record_chain check_chain
  chain-agrees values now c h =
      let (_, k0) = require-eq-ok (length values == 6) ProtocolError.invalid_input _ h in
      let (rs, _, k1) = bind-eq-ok (verify_all protocol values) _ k0 in
      let (c', _, k2) = bind-eq-ok (chain_of protocol rs) _ k1 in
      let (p, h3, k3) = bind-eq-ok (expect_schemas c') _ k2 in
      let (h4, k4) =
        require-eq-ok (any is_merchant p.descriptor.roles) ProtocolError.authority_mismatch _ k3 in
      let (_, _, k5) = bind-eq-ok (check_links protocol c') _ k4 in
      let (_, h6, k6) = bind-eq-ok (check_authorities c') _ k5 in
      let (_, h7, k7) = bind-eq-ok (check_fields p) _ k6 in
      let (h8, k8) =
        require-eq-ok (nonces_distinct [] (chain_list c')) ProtocolError.integrity_failure _ k7 in
      let (_, _, k9) = bind-eq-ok (active_when protocol c'.settlement_receipt now) _ k8 in
      let same : c' ≡ c = cc in
      subst
        (λ x.
          IsBetween x
          × ((q : Parts) × (expect_schemas x ≡ ok q)
              × AgreesOn q
              × (any is_merchant q.descriptor.roles ≡ true))
          × NoReplay (chain_list x))
        same
        (
          check_authorities-IsBetween c' h6,
          (p, h3, check_fields-AgreesOn p h7, h4),
          (nonces_distinct-NoReplay [] (chain_list c') h8).1,
        )
