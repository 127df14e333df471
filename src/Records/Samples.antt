-- ===== src/Records/Samples.antt =====
-- A merchant's and a payer's records, from the descriptor to the settlement receipt, under a protocol
-- in which a record's bytes are its number.
use cashloom.Prelude.{
  ℕ, zero, suc, ◌≡◌, Option, none, some, [], ◌∷◌, ◌++◌, Text, lit, Result, ok, err, true, ◌==◌,
  if◌then◌else◌,
}
use cashloom.Records.{
  V2Disclosure, NodeRole, SubmissionState, SettlementOutcome, SettlementEvidenceKind,
  SelfCertifyingAuthority, AssetTrustBinding, Body, V2Record, ProtocolError, Bytes, Protocol,
}

abbrev repeat : ℕ → ℕ → Text
repeat zero c = []
repeat (suc n) c = c ∷ repeat n c

-- A content id with one digit throughout
abbrev pub id_of : ℕ → Text
id_of c = lit "sha256:" ++ repeat 64 c

abbrev merchant_key : SelfCertifyingAuthority
merchant_key = record { key_id = id_of 100; public_key = lit "m" }

abbrev payer_key : SelfCertifyingAuthority
payer_key = record { key_id = id_of 101; public_key = lit "p" }

abbrev trust : AssetTrustBinding
trust = record {
  manifest_record_id = id_of 50;
  manifest_authority_key_id = id_of 51;
  policy = [];
  policy_hash = id_of 52;
}

-- Issued at 1, expired at 9
abbrev signed : ℕ → SelfCertifyingAuthority → Text → V2Disclosure → Option Text → Body → V2Record
signed n authority audience disclosure parent body = record {
  authority = authority;
  audience = audience;
  disclosure = disclosure;
  nonce = n ∷ [];
  issued_at = 1 ∷ [];
  expires_at = 9 ∷ [];
  parent_record_id = parent;
  body = body;
  signature = [];
  record_id = id_of n;
}

abbrev pub descriptor : V2Record
descriptor =
    signed 1 merchant_key (lit "public") V2Disclosure.open_to_all none
      (Body.node_descriptor (record { roles = NodeRole.merchant ∷ []; endpoints = [] }))

abbrev pub request : V2Record
request = signed 2 merchant_key (lit "public") V2Disclosure.open_to_all (some (id_of 1)) (
    Body.payment_request (record {
      rail = lit "btc";
      destination = lit "d";
      asset_id = lit "BTC";
      amount_atomic = lit "7";
      purpose_hash = id_of 60;
      asset_trust = trust;
    }))

-- The payer's intent, numbered
abbrev pub intent : ℕ → V2Record
intent n = signed n payer_key (id_of 100) V2Disclosure.private_to_one (some (id_of 2)) (
    Body.payment_intent (record {
      rail = lit "btc";
      destination = lit "d";
      source_account = lit "s";
      asset_id = lit "BTC";
      amount_atomic = lit "7";
      fee_asset_id = lit "BTC";
      fee_limit_scope = lit "total_fee_asset_exposure";
      max_fee_atomic = lit "1";
      payment_asset_trust = trust;
      fee_asset_trust = trust;
    }))

abbrev pub commitment : V2Record
commitment = signed 4 payer_key (id_of 100) V2Disclosure.private_to_one (some (id_of 3)) (
    Body.execution_commitment (record {
      rail = lit "btc";
      source_account = lit "s";
      destination = lit "d";
      asset_id = lit "BTC";
      amount_atomic = lit "7";
      fee_asset_id = lit "BTC";
      fee_limit_scope = lit "total_fee_asset_exposure";
      max_fee_atomic = lit "1";
      reservation_id = id_of 61;
      unsigned_payload_hash = id_of 62;
    }))

abbrev pub submission : V2Record
submission = signed 5 payer_key (id_of 100) V2Disclosure.private_to_one (some (id_of 4)) (
    Body.submission_receipt (record {
      signed_payload_hash = id_of 63;
      operation_id = lit "tx";
      state = SubmissionState.submitted;
      submitted_at = 1 ∷ [];
    }))

abbrev pub settlement : V2Record
settlement = signed 6 merchant_key (id_of 101) V2Disclosure.private_to_one (some (id_of 5)) (
    Body.settlement_receipt (record {
      asserted_outcome = SettlementOutcome.settled;
      attestation_scope = lit "issuer_assertion_only";
      evidence_kind = SettlementEvidenceKind.merchant_observation;
      evidence_hash = id_of 64;
      observed_at = 2 ∷ [];
    }))

-- Number 7 is the same payer's second intent.
abbrev numbered : ℕ → Result ProtocolError V2Record
numbered n =
    if n == 1
    then ok descriptor
    else if n == 2
    then ok request
    else if n == 3
    then ok (intent 3)
    else if n == 4
    then ok commitment
    else if n == 5
    then ok submission
    else if n == 6
    then ok settlement
    else if n == 7
    then ok (intent 7)
    else err ProtocolError.signature_invalid

abbrev read_number : Bytes → Result ProtocolError V2Record
read_number (n ∷ []) = numbered n
read_number _ = err ProtocolError.invalid_input

abbrev first_unit : Text → Option ℕ
first_unit [] = none
first_unit (c ∷ s) = some c

abbrev pub protocol : Protocol
protocol = record {
  verify = read_number;
  encode = λ t. t;
  decode = λ bytes. some bytes;
  date_parse = first_unit;
  is_timestamp = λ _. true;
  is_sha256_id = λ _. true;
}

pub protocol-exact :
    (bytes : Bytes) (json : Text) (r : V2Record)
    → protocol.verify bytes ≡ ok r
    → protocol.decode bytes ≡ some json
    → protocol.encode json ≡ bytes
protocol-exact bytes json r v d = cc
