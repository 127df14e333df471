-- ===== src/BitcoinPayLink/SampleRecords.antt =====
-- Five records of a payer's and a merchant's node, under a protocol in which a record's bytes are its
-- number.
use cashloom.Prelude.{
  ℕ, true, Option, none, some, [], ◌∷◌, Text, lit, Result, ok, err, ◌==◌, if◌then◌else◌,
}
use cashloom.Records.{
  V2Disclosure, NodeRole, SelfCertifyingAuthority, AssetTrustBinding, PaymentIntent, Body, V2Record,
  ProtocolError, Bytes, Protocol,
}
use cashloom.Records.Samples.{id_of}
use cashloom.AssetTrust.{DisclosedBoolean, AssetTrustManifest}
use cashloom.BitcoinProfile.{bitcoin_mainnet_asset_id, bitcoin_mainnet_rail}

abbrev pub merchant : SelfCertifyingAuthority
merchant = record { key_id = id_of 100; public_key = lit "m" }

abbrev pub payer : SelfCertifyingAuthority
payer = record { key_id = id_of 101; public_key = lit "p" }

abbrev pub trusted : AssetTrustBinding
trusted = record {
  manifest_record_id = id_of 5;
  manifest_authority_key_id = id_of 101;
  policy = [];
  policy_hash = lit "cashloom-local-fail-closed/v2";
}

abbrev pub signed :
    ℕ → SelfCertifyingAuthority → Text → Text → V2Disclosure → Option Text → Body → V2Record
signed n authority audience expires_at disclosure parent body = record {
  authority = authority;
  audience = audience;
  disclosure = disclosure;
  nonce = n ∷ [];
  issued_at = 1 ∷ [];
  expires_at = expires_at;
  parent_record_id = parent;
  body = body;
  signature = [];
  record_id = id_of n;
}

abbrev pub descriptor : V2Record
descriptor =
    signed 1 payer (lit "public") (9 ∷ []) V2Disclosure.open_to_all none
      (Body.node_descriptor (record { roles = NodeRole.payer ∷ []; endpoints = [] }))

abbrev pub request : V2Record
request = signed 2 merchant (lit "public") (9 ∷ []) V2Disclosure.open_to_all none (
    Body.payment_request (record {
      rail = bitcoin_mainnet_rail;
      destination = lit "d";
      asset_id = bitcoin_mainnet_asset_id;
      amount_atomic = lit "700";
      purpose_hash = id_of 60;
      asset_trust = trusted;
    }))

abbrev pub terms : PaymentIntent
terms = record {
  rail = bitcoin_mainnet_rail;
  destination = lit "d";
  source_account = lit "s";
  asset_id = bitcoin_mainnet_asset_id;
  amount_atomic = lit "700";
  fee_asset_id = bitcoin_mainnet_asset_id;
  fee_limit_scope = lit "total_fee_asset_exposure";
  max_fee_atomic = lit "9";
  payment_asset_trust = trusted;
  fee_asset_trust = trusted;
}

abbrev pub intent : V2Record
intent =
    signed 3 payer (id_of 100) (9 ∷ []) V2Disclosure.private_to_one (some (id_of 2))
      (Body.payment_intent terms)

-- It expires when the review does.
abbrev pub commitment : V2Record
commitment = signed 4 payer (id_of 100) (8 ∷ []) V2Disclosure.private_to_one (some (id_of 3)) (
    Body.execution_commitment (record {
      rail = bitcoin_mainnet_rail;
      source_account = lit "s";
      destination = lit "d";
      asset_id = bitcoin_mainnet_asset_id;
      amount_atomic = lit "700";
      fee_asset_id = bitcoin_mainnet_asset_id;
      fee_limit_scope = lit "total_fee_asset_exposure";
      max_fee_atomic = lit "9";
      reservation_id = id_of 61;
      unsigned_payload_hash = id_of 62;
    }))

abbrev pub manifest_record : V2Record
manifest_record =
    signed 5 payer (lit "public") (9 ∷ []) V2Disclosure.open_to_all none
      (Body.asset_trust_manifest [])

abbrev pub numbered : ℕ → Result ProtocolError V2Record
numbered n =
    if n == 1
    then ok descriptor
    else if n == 2
    then ok request
    else if n == 3
    then ok intent
    else if n == 4
    then ok commitment
    else if n == 5
    then ok manifest_record
    else err ProtocolError.signature_invalid

abbrev pub read_number : Bytes → Result ProtocolError V2Record
read_number (n ∷ []) = numbered n
read_number _ = err ProtocolError.invalid_input

abbrev pub first_unit : Text → Option ℕ
first_unit [] = none
first_unit (c ∷ s) = some c

abbrev pub protocol : Protocol
protocol = record {
  verify = read_number;
  encode = λ t. t;
  decode = λ bytes. some bytes;
  date_parse = first_unit;
  is_timestamp = λ _. true;
  is_sha256_id = λ _. true;
}

abbrev pub manifest : AssetTrustManifest
manifest = record {
  schema = lit "cashloom.asset-trust/v2";
  rail = bitcoin_mainnet_rail;
  asset_id = bitcoin_mainnet_asset_id;
  chain_id = lit "c";
  provenance_kind = lit "unsigned-local-assertion";
  assessed_at = lit "t";
  settlement = record {
    model = lit "layer-1-proof-of-work";
    finality = lit "probabilistic";
    single_sequencer = DisclosedBoolean.no;
  };
  regulated_provider = record { required = DisclosedBoolean.no; role = lit "none" };
  issuer_controls = λ _. DisclosedBoolean.no;
  bridge_dependency = lit "none";
  identity_requirement = lit "none";
  custody = lit "self-custody-capable";
  infrastructure = record {
    self_hostable_read = DisclosedBoolean.yes;
    self_hostable_broadcast = DisclosedBoolean.yes;
  };
  data_egress = lit "public-ledger" ∷ lit "peer-network" ∷ [];
  evidence = [];
}
