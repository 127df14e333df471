-- ===== src/Records/Tests.antt =====
-- The chain's theorem at concrete records.
use cashloom.Prelude.{◌≡◌, refl, true, some, [], ◌∷◌, List, Text, text_eq, any, ok, AllPairs, false}
use cashloom.Records.Link.{
  all_same, same_authority, same_payment_field, parent_of, request_link, intent_link,
  commitment_link, submission_link, settlement_link, link_by_schema, assert_immediate_link,
  is_merchant,
}
use cashloom.Records.Chain.{
  VerifiedV2Chain, Parts, expect_schemas, check_authorities, check_fields, check_links, active_at,
  active_when, nonces_distinct, check_chain, verify_all, verify_v2_record_chain, same_nonce,
  chain_list,
}
use cashloom.Records.Agreement.{IsBetween, AgreesOn, chain-agrees}
use cashloom.Records.Samples.{
  protocol, descriptor, request, intent, commitment, submission, settlement,
}

abbrev values : List Text
values = (1 ∷ []) ∷ (2 ∷ []) ∷ (3 ∷ []) ∷ (4 ∷ []) ∷ (5 ∷ []) ∷ (6 ∷ []) ∷ []

abbrev chain : VerifiedV2Chain
chain = record {
  node_descriptor = descriptor;
  payment_request = request;
  payment_intent = intent 3;
  execution_commitment = commitment;
  submission_receipt = submission;
  settlement_receipt = settlement;
}

verifies : verify_v2_record_chain protocol values (some (3 ∷ [])) ≡ ok chain
unfolding text_eq any all_same same_authority same_payment_field parent_of request_link intent_link
    commitment_link submission_link settlement_link link_by_schema assert_immediate_link
    expect_schemas check_authorities check_fields check_links active_at active_when nonces_distinct
    check_chain verify_all verify_v2_record_chain
verifies = refl

chain-agrees_example :
    IsBetween chain
    × ((p : Parts) × (expect_schemas chain ≡ ok p)
        × AgreesOn p
        × (any is_merchant p.descriptor.roles ≡ true))
    × AllPairs (λ r s. same_nonce s r ≡ false) (chain_list chain)
chain-agrees_example = chain-agrees protocol values (some (3 ∷ [])) chain verifies
