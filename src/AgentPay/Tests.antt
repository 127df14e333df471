-- ===== src/AgentPay/Tests.antt =====
-- Reservations at concrete records.
use cashloom.Prelude.{
  ℕ, ◌≤◌, ◌≡◌, refl, inl, inr, false, some, [], ◌∷◌, Text, lit, text_eq, ltb, find, any, select,
  update, ok, err,
}
use cashloom.AgentPay.{AgentDb, VerifiedAgentRecords, AgentError, AgentHost}
use cashloom.AgentPay.Usage.{
  add_total, sum_entries, place_total, sort_totals, entries_of, aggregate_spent, parse_stored_spent,
  all_spends, legacy_usage, wallet_of, usage_of, usage_context,
}
use cashloom.AgentPay.Reserve.{
  Attestation, insert_authorization, store_wallet, store_usage, reserve_and_record,
}
use cashloom.AgentPay.Replay.{attempt_all, replay-refused}
use cashloom.AgentPay.Epoch.{epoch, attempt_all-epoch}

-- A gate that lets three intents pass.
abbrev host : AgentHost
host = record { within_capability = λ _ c. ltb c.intent_count 3; locale_before = λ _ _. false }

abbrev intent : ℕ → VerifiedAgentRecords
intent n = record {
  wallet_id = lit "w";
  descriptor_record_id = lit "d";
  grant_id = lit "g";
  capability_record_id = lit "c";
  capability_revocation_nonce = 1;
  policy_hash = lit "p";
  intent_id = lit "i";
  intent_record_id = n ∷ [];
  source_account = lit "s";
  intent_nonce = n ∷ [];
  declared_spends = record { asset_id = lit "BTC"; amount_atomic = some 7 } ∷ [];
  payees = [];
  simulation_record_id = lit "m";
  simulation_adapter_key_id = lit "k";
}

abbrev attestation : Text → Attestation
attestation id = record {
  id = id;
  host_authority = lit "h";
  body_sha256 = lit "b";
  signature = lit "s";
}

-- The grant has one intent behind it, with five spent.
abbrev before : AgentDb
before = record {
  authorizations = [];
  wallets =
      record {
        wallet_id = lit "w";
        descriptor_id = lit "d";
        revocation_nonce = 0;
        updated_at = lit "t";
      }
      ∷ [];
  usages =
      record {
        grant_id = lit "g";
        wallet_id = lit "w";
        capability_record_id = lit "c";
        intent_count = 1;
        spent_json = some (record { asset_id = lit "BTC"; amount_atomic = some 5 } ∷ []);
        updated_at = lit "t";
      }
      ∷ [];
}

reserved :
    (db : AgentDb) × (reserve_and_record host (intent 1) (lit "n") (attestation (lit "1")) before
      ≡ ok db)
unfolding text_eq find any select update add_total sum_entries place_total sort_totals entries_of
    aggregate_spent parse_stored_spent all_spends legacy_usage wallet_of usage_of usage_context
    insert_authorization store_wallet store_usage reserve_and_record
reserved = (_, refl)

-- The same intent under another record and nonce
replay-refused_example :
    reserve_and_record host (intent 2) (lit "n") (attestation (lit "3")) (
      attempt_all host
        (record { records = intent 1; now = lit "n"; attestation = attestation (lit "2") } ∷ [])
        reserved.0)
    ≡ err AgentError.replay_refused
replay-refused_example =
    replay-refused host (intent 1) (intent 2) (lit "n") (lit "n") (attestation (lit "1"))
      (attestation (lit "3")) before reserved.0
      (record { records = intent 1; now = lit "n"; attestation = attestation (lit "2") } ∷ [])
      reserved.1 (inr (inl refl))

attempt_all-epoch_example :
    epoch host (lit "w") before
    ≤ epoch host (lit "w") (
        attempt_all host
          (record { records = intent 1; now = lit "n"; attestation = attestation (lit "1") } ∷ [])
          before)
attempt_all-epoch_example =
    attempt_all-epoch host (lit "w")
      (record { records = intent 1; now = lit "n"; attestation = attestation (lit "1") } ∷ [])
      before

-- The reservation moves the wallet from epoch 0 to the capability's.
epoch_moves : epoch host (lit "w") reserved.0 ≡ 1
unfolding text_eq find any select update add_total sum_entries place_total sort_totals entries_of
    aggregate_spent parse_stored_spent all_spends legacy_usage wallet_of usage_of usage_context
    insert_authorization store_wallet store_usage reserve_and_record epoch reserved
epoch_moves = refl
