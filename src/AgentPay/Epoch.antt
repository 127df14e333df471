-- ===== src/AgentPay/Epoch.antt =====
-- The revocation epoch of a wallet in sovereign/src/pay/agent-pay.ts never goes back.
use cashloom.Prelude.{
  ℕ, ◌+◌, ◌≤◌, ◌≡◌, refl, sym, ap, subst, ◌∙◌, true, Option, none, some, List, [], ◌∷◌, ◌++◌, Text,
  text_eq, text_eq_iff, find, find-append, find-update, find-holds, update, updated, Result-cases,
  ok, ltb, Option-cases, Bool-cases, inl, inr, arith,
}
use mathlib.Core.Option
use cashloom.AgentPay.{
  AuthorizationRow, WalletStateRow, CapabilityUsageRow, AgentDb, VerifiedAgentRecords, AgentHost,
}
use cashloom.AgentPay.Usage.{wallet_of, usage_of}
use cashloom.AgentPay.Reserve.{
  Attestation, authorization_row, insert_authorization, advance_wallet, new_wallet, store_wallet,
  store_usage, usage_row, reserve_and_record,
}
use cashloom.AgentPay.Replay.{reserve-IsReserved, Attempt, attempt_all}

abbrev epoch_of : Option WalletStateRow → ℕ
epoch_of none = 0
epoch_of (some w) = w.revocation_nonce

insert_authorization-wallets :
    (row : AuthorizationRow) (db db' : AgentDb)
    → insert_authorization row db ≡ ok db'
    → db'.wallets ≡ db.wallets
unfolding insert_authorization
insert_authorization-wallets row db db' h = ground arith

module _ (host : AgentHost) where
  -- The epoch that the node knows of a wallet, zero for a wallet it has not met
  unfoldable pub epoch : Text → AgentDb → ℕ
  epoch id db = epoch_of (wallet_of host id db)

  store_usage-wallets :
      (u : CapabilityUsageRow) (db : AgentDb) → (store_usage host u db).wallets ≡ db.wallets
  unfolding store_usage
  store_usage-wallets u db = elim (Option-cases (usage_of host u.grant_id db)) [
    | inl e ↦ rw (store_usage, e) refl
    | inr (old, e) ↦ rw (store_usage, e) refl
  ]

  epoch-append :
      (id : Text) (w : WalletStateRow) (db : AgentDb)
      → epoch id db ≤ epoch id (record db { wallets = db.wallets ++ w ∷ [] })
  unfolding epoch wallet_of
  epoch-append id w db = elim (Option-cases (wallet_of host id db)) [
    | inl e ↦ rw (epoch, e) (omega arith)
    | inr (x, e) ↦
        (let there =
            find-append (λ (y : WalletStateRow). text_eq y.wallet_id id) db.wallets (w ∷ []) x e in
          rw (epoch, e, there) (omega arith))
  ]

  abbrev raised : VerifiedAgentRecords → Text → AgentDb → AgentDb
  raised r now db = record db {
    wallets =
        update (λ x. text_eq x.wallet_id r.wallet_id)
          (λ x. record x { revocation_nonce = r.capability_revocation_nonce; updated_at = now })
          db.wallets;
  }

  raised-found :
      (r : VerifiedAgentRecords) (now : Text) (db : AgentDb) (id : Text)
      → wallet_of host id (raised r now db)
        ≡ Option.map
            (updated
              (λ x. text_eq x.wallet_id r.wallet_id)
              (λ x. record x {
                revocation_nonce = r.capability_revocation_nonce;
                updated_at = now;
              }))
            (wallet_of host id db)
  unfolding wallet_of
  raised-found r now db id =
      find-update (λ (x : WalletStateRow). text_eq x.wallet_id id)
        (λ x. text_eq x.wallet_id r.wallet_id)
        (λ x. record x { revocation_nonce = r.capability_revocation_nonce; updated_at = now })
        (λ x _. refl) db.wallets

  wallet_of-id :
      (id : Text) (db : AgentDb) (x : WalletStateRow)
      → wallet_of host id db ≡ some x
      → x.wallet_id ≡ id
  unfolding wallet_of
  wallet_of-id id db x h =
      (text_eq_iff x.wallet_id id).0
        (find-holds (λ (y : WalletStateRow). text_eq y.wallet_id id) db.wallets x h)

  epoch-raised :
      (r : VerifiedAgentRecords) (now : Text) (db : AgentDb) (w : WalletStateRow) (id : Text)
      → wallet_of host r.wallet_id db ≡ some w
      → ltb w.revocation_nonce r.capability_revocation_nonce ≡ true
      → epoch id db ≤ epoch id (raised r now db)
  unfolding epoch
  epoch-raised r now db w id found newer = elim (Option-cases (wallet_of host id db)) [
    | inl e ↦ rw (epoch, e) (omega arith)
    | inr (x, e) ↦ elim (Bool-cases (text_eq x.wallet_id r.wallet_id)) [
      | inl hit ↦
          (let same_id =
              sym (wallet_of-id id db x e) ∙ (text_eq_iff x.wallet_id r.wallet_id).0 hit in
            let same = ap (λ i. wallet_of host i db) same_id in
            let same_row : x ≡ w = cc in
            let older = ap (λ (y : WalletStateRow). y.revocation_nonce) same_row in
            rw (epoch, raised-found r now db id, e, hit) (ground arith))
      | inr miss ↦ rw (epoch, raised-found r now db id, e, miss) (omega arith)
    ]
  ]

  advance_wallet-epoch :
      (r : VerifiedAgentRecords) (now : Text) (db db' : AgentDb) (w : WalletStateRow) (id : Text)
      → wallet_of host r.wallet_id db ≡ some w
      → advance_wallet host r now w db ≡ ok db'
      → epoch id db ≤ epoch id db'
  advance_wallet-epoch r now db db' w id found h =
      elim (Bool-cases (ltb w.revocation_nonce r.capability_revocation_nonce)) [
        | inl newer ↦
            (let same : raised r now db ≡ db' = ground arith in
              subst (λ d. epoch id db ≤ epoch id d) same (epoch-raised r now db w id found newer))
        | inr older ↦
            (let same : db ≡ db' = ground arith in
              subst (λ d. epoch id db ≤ epoch id d) same (omega arith))
      ]

  store_wallet-epoch :
      (r : VerifiedAgentRecords) (now : Text) (db db' : AgentDb) (id : Text)
      → store_wallet host r now db ≡ ok db'
      → epoch id db ≤ epoch id db'
  unfolding store_wallet
  store_wallet-epoch r now db db' id h = elim (Option-cases (wallet_of host r.wallet_id db)) [
    | inl e ↦
        (let same : record db { wallets = db.wallets ++ new_wallet host r now ∷ [] } ≡ db' =
            cc (rw (store_wallet, e) at h) in
          subst (λ d. epoch id db ≤ epoch id d) same (epoch-append id (new_wallet host r now) db))
    | inr (w, e) ↦ advance_wallet-epoch r now db db' w id e (rw (store_wallet, e) at h)
  ]

  epoch-same :
      (id : Text) (db db' : AgentDb) → db'.wallets ≡ db.wallets → epoch id db' ≡ epoch id db
  unfolding epoch wallet_of
  epoch-same id db db' h =
      ap (λ ws. epoch_of (find (λ (x : WalletStateRow). text_eq x.wallet_id id) ws)) h

  reserve-epoch :
      (r : VerifiedAgentRecords) (now : Text) (a : Attestation) (db db' : AgentDb) (id : Text)
      → reserve_and_record host r now a db ≡ ok db'
      → epoch id db ≤ epoch id db'
  reserve-epoch r now a db db' id h =
      let s = reserve-IsReserved host r now a db db' h in
      let first = store_wallet-epoch r now db s.with_wallet id s.wallet in
      let second =
        epoch-same id s.with_wallet s.with_row (
          insert_authorization-wallets (authorization_row r now a) s.with_wallet s.with_row
            s.row) in
      let row = usage_row host r (s.context.intent_count + 1) s.spent now in
      let third =
        epoch-same id s.with_row db'
          (ap (λ (x : AgentDb). x.wallets) s.result ∙ store_usage-wallets row s.with_row) in
      omega arith

  -- Whatever reservations are tried, the revocation epoch that the node knows of a wallet never goes
  -- back.
  pub attempt_all-epoch :
      (id : Text) (ts : List (Attempt host)) (db : AgentDb)
      → epoch id db ≤ epoch id (attempt_all host ts db)
  unfolding attempt_all
  attempt_all-epoch id [] db = omega arith
  attempt_all-epoch id (t ∷ ts) db =
      elim (Result-cases (reserve_and_record host t.records t.now t.attestation db)) [
        | inl (db', e) ↦
            (let one = reserve-epoch t.records t.now t.attestation db db' id e in
              let more = attempt_all-epoch id ts db' in rw e (omega arith))
        | inr (x, e) ↦ rw e (attempt_all-epoch id ts db)
      ]
