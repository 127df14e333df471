-- ===== src/BitcoinPayLink/Samples.antt =====
-- A payer's node with one intent, before and after its quote is stored, in which a digest does not
-- depend on what is digested.
use cashloom.Prelude.{ℕ, true, none, some, [], ◌∷◌, Text, lit, ok}
use cashloom.Payments.{Payment, PaymentStatus}
use cashloom.Pay.{Account, Binding}
use cashloom.Pay.Quote.{PaymentQuoteDraft}
use cashloom.Records.{V2Disclosure, V2Schema, SelfCertifyingAuthority}
use cashloom.Records.Samples.{id_of}
use cashloom.RecordStore.{V2RecordSource, StoredRow, StoreDb}
use cashloom.AssetTrust.{fail_closed}
use cashloom.BitcoinPayLink.{Node, Moment, ExecutionContext, ReviewDigest, LinkHost}
use cashloom.BitcoinPayLink.Confirm.{Ready}
use cashloom.BitcoinPayLink.SampleRecords.{
  merchant, payer, request, terms, intent, first_unit, protocol, manifest,
}

abbrev pub host : LinkHost
host = record {
  engine = record {
    sha256_bytes_id = λ payload. id_of 62;
    to_upper = λ t. t;
    date_parse = first_unit;
    to_iso = λ ms. some (ms ∷ []);
  };
  protocol = protocol;
  trust = record {
    is_caip2 = λ _. true;
    is_caip19 = λ _. true;
    is_timestamp = λ _. true;
    is_sha256_id = λ _. true;
    chain_from_asset = λ _. lit "c";
    policy_digest = λ p. p.policy_id;
    is_plain_https = λ _. true;
  };
  bitcoin = record { output_type = λ t. some (lit "wpkh"); to_upper = λ t. t; to_lower = λ t. t };
  verify_record = λ r. ok r;
  manifest_of = λ text. manifest;
  policy_of = λ text. fail_closed;
  review_sha256_id = λ d. id_of 90;
  reservation_sha256_id = λ d. id_of 61;
  txid_of = λ payload. ok (lit "t");
}

abbrev row :
    ℕ → V2Schema → Text → SelfCertifyingAuthority → V2Disclosure → V2RecordSource → StoredRow
row n schema kind authority disclosure source = record {
  record_id = id_of n;
  schema = schema;
  kind = kind;
  issuer_key_id = authority.key_id;
  audience = [];
  nonce = n ∷ [];
  disclosure = disclosure;
  canonical_json = n ∷ [];
  created_at = 1 ∷ [];
  expires_at = 9 ∷ [];
  source = source;
  received_at = 1 ∷ [];
}

abbrev store : StoreDb
store = record {
  records =
      row 1 V2Schema.node_descriptor (lit "node_descriptor") payer V2Disclosure.open_to_all
        V2RecordSource.from_local
      ∷ row 2 V2Schema.payment_request (lit "payment_request") merchant V2Disclosure.open_to_all
          V2RecordSource.from_remote
      ∷ row 3 V2Schema.payment_intent (lit "payment_intent") payer V2Disclosure.private_to_one
          V2RecordSource.from_local
      ∷ row 4 V2Schema.execution_commitment (lit "execution_commitment") payer
          V2Disclosure.private_to_one V2RecordSource.from_local
      ∷ row 5 V2Schema.asset_trust_manifest (lit "asset_trust_manifest") payer
          V2Disclosure.open_to_all V2RecordSource.from_local
      ∷ [];
  parents =
      record { child_record_id = id_of 3; position = 0; parent_record_id = id_of 2 }
      ∷ record { child_record_id = id_of 4; position = 0; parent_record_id = id_of 3 }
      ∷ [];
  usage = none;
}

abbrev pub wallet : Account
wallet = record {
  id = lit "acct";
  rail = lit "CRYPTO";
  display_name = lit "wallet";
  currency = lit "BTC";
  decimals = 8;
  external_account_id = none;
  vault_key_id = some (lit "key");
  active = lit "ACTIVE";
}

abbrev pub before : Node
before = record {
  pay = record { accounts = wallet ∷ []; payments = []; bindings = []; transactions = [] };
  vault_keys = record { id = lit "key"; kind = lit "btc"; address = some (lit "s") } ∷ [];
  store = store;
  config = record {
    local_node_key_id = some (id_of 101);
    remote_limits = record { max_record_count = 9; max_canonical_bytes = 900 };
  };
}

abbrev pub payment : Payment
payment = record {
  id = lit "p";
  account_id = lit "acct";
  rail = lit "btc";
  to_addr = lit "d";
  asset = lit "BTC";
  amount_minor = lit "700";
  fee_minor = some (lit "9");
  execution_fee_ceiling_minor = none;
  status = PaymentStatus.quoted;
  tx_hash = none;
  error = none;
  detail = none;
  created_at = 2 ∷ [];
  updated_at = none;
}

abbrev pub draft : PaymentQuoteDraft
draft = record {
  payment = payment;
  vault_key_id = some (lit "key");
  fee_asset = lit "BTC";
  summary = [];
  unsigned_payload = some (1 ∷ 2 ∷ []);
  unsigned_payload_hash = some (id_of 62);
  expires_at = 8 ∷ [];
}

abbrev pub binding : Binding
binding = record {
  intent_record_id = id_of 3;
  payment_id = lit "p";
  account_id = lit "acct";
  review_id = id_of 90;
  reservation_id = id_of 61;
  unsigned_payload = 1 ∷ 2 ∷ [];
  unsigned_payload_hash = id_of 62;
  quote_expires_at = 8 ∷ [];
  created_at = 2 ∷ [];
}

abbrev pub after : Node
after = record before {
  pay = record before.pay { payments = payment ∷ []; bindings = binding ∷ [] };
}

abbrev pub context : ExecutionContext
context = record {
  intent = intent;
  terms = terms;
  request = request;
  account = record {
    id = lit "acct";
    rail = lit "CRYPTO";
    display_name = lit "wallet";
    currency = lit "BTC";
    decimals = 8;
    external_account_id = none;
    vault_key_id = some (lit "key");
    status = lit "ACTIVE";
    key_kind = some (lit "btc");
    key_address = some (lit "s");
  };
}

abbrev digest : ReviewDigest
digest = record {
  payment_id = lit "p";
  intent_record_id = id_of 3;
  request_record_id = id_of 2;
  merchant_key_id = id_of 100;
  account_id = lit "acct";
  source_address = lit "s";
  destination = lit "d";
  amount_sats = lit "700";
  fee_sats = lit "9";
  total_sats = lit "709";
  max_fee_sats = lit "9";
  reservation_id = id_of 61;
  unsigned_payload_hash = id_of 62;
  quote_expires_at = 8 ∷ [];
  intent_expires_at = 9 ∷ [];
  confirm_before = 8 ∷ [];
}

abbrev pub ready : Ready
ready = record {
  binding = binding;
  payment = payment;
  context = context;
  review = record { review_id = id_of 90; digest = digest; account_label = lit "wallet" };
}

-- At 3, while everything is active
abbrev pub at_three : Node → Moment
at_three node = record { node = node; now = 3 ∷ [] }
