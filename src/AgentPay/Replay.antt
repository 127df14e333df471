-- ===== src/AgentPay/Replay.antt =====
-- An intent that sovereign/src/pay/agent-pay.ts has reserved is never reserved again.
use cashloom.Prelude.{
  ◌+◌, ◌≡◌, refl, ap, ◌∙◌, true, false, not, ◌⊎◌, inl, inr, List, [], ◌∷◌, ◌++◌, Text, text_eq_iff,
  any, any-append, Result, Result-cases, ok, err, require-eq-ok, bind-eq-ok, Option-cases, arith,
}
use cashloom.AgentPay.{
  AuthorizationRow, CapabilityUsageRow, AgentDb, VerifiedAgentRecords, AgentError, AgentHost,
  AuthorizationContext, AssetAmount,
}
use cashloom.AgentPay.Usage.{wallet_of, usage_of, usage_context, aggregate_spent}
use cashloom.AgentPay.Reserve.{
  Attestation, replays, authorization_row, insert_authorization, store_wallet, store_usage,
  usage_row, reserve_and_record,
}

module _ (host : AgentHost) where
  pub store_wallet-authorizations :
      (r : VerifiedAgentRecords) (now : Text) (db db' : AgentDb)
      → store_wallet host r now db ≡ ok db'
      → (db'.authorizations ≡ db.authorizations) × (db'.usages ≡ db.usages)
  unfolding store_wallet
  store_wallet-authorizations r now db db' h = elim (Option-cases (wallet_of host r.wallet_id db)) [
    | inl e ↦ (let k = rw (store_wallet, e) at h in (ground arith, ground arith))
    | inr (w, e) ↦ (let k = rw (store_wallet, e) at h in (ground arith, ground arith))
  ]

  pub insert_authorization-ok :
      (row : AuthorizationRow) (db db' : AgentDb)
      → insert_authorization row db ≡ ok db'
      → (db'.authorizations ≡ db.authorizations ++ row ∷ []) × (db'.usages ≡ db.usages)
  unfolding insert_authorization
  insert_authorization-ok row db db' h = (ground arith, ground arith)

  store_usage-authorizations :
      (u : CapabilityUsageRow) (db : AgentDb)
      → (store_usage host u db).authorizations ≡ db.authorizations
  unfolding store_usage
  store_usage-authorizations u db = elim (Option-cases (usage_of host u.grant_id db)) [
    | inl e ↦ rw (store_usage, e) refl
    | inr (old, e) ↦ rw (store_usage, e) refl
  ]

  -- What a reservation has read, checked and written.
  pub record IsReserved (r : VerifiedAgentRecords) (now : Text) (a : Attestation) (db db' : AgentDb)
      : Type 0 where
    pub with_wallet : AgentDb
    pub context : AuthorizationContext
    pub spent : List AssetAmount
    pub with_row : AgentDb
    pub unused : any (replays r) db.authorizations ≡ false
    pub wallet : store_wallet host r now db ≡ ok with_wallet
    pub read : usage_context host r now with_wallet ≡ ok context
    pub allowed : host.within_capability r context ≡ true
    pub summed : aggregate_spent host (context.spent ++ r.declared_spends) ≡ ok spent
    pub row : insert_authorization (authorization_row r now a) with_wallet ≡ ok with_row
    pub result :
        db' ≡ store_usage host (usage_row host r (context.intent_count + 1) spent now) with_row

  pub reserve-IsReserved :
      (r : VerifiedAgentRecords) (now : Text) (a : Attestation) (db db' : AgentDb)
      → reserve_and_record host r now a db ≡ ok db'
      → IsReserved r now a db db'
  unfolding reserve_and_record
  reserve-IsReserved r now a db db' h =
      let (h1, k1) =
        require-eq-ok (not (any (replays r) db.authorizations)) AgentError.replay_refused _ h in
      let (w, h2, k2) = bind-eq-ok (store_wallet host r now db) _ k1 in
      let (c, h3, k3) = bind-eq-ok (usage_context host r now w) _ k2 in
      let (h4, k4) =
        require-eq-ok (host.within_capability r c) AgentError.outside_capability _ k3 in
      let (s, h5, k5) = bind-eq-ok (aggregate_spent host (c.spent ++ r.declared_spends)) _ k4 in
      let (d, h6, k6) = bind-eq-ok (insert_authorization (authorization_row r now a) w) _ k5 in
      record {
        with_wallet = w;
        context = c;
        spent = s;
        with_row = d;
        unused = ground arith;
        wallet = h2;
        read = h3;
        allowed = h4;
        summed = h5;
        row = h6;
        result = cc;
      }

  reserve-authorizations :
      (r : VerifiedAgentRecords) (now : Text) (a : Attestation) (db db' : AgentDb)
      → reserve_and_record host r now a db ≡ ok db'
      → db'.authorizations ≡ db.authorizations ++ authorization_row r now a ∷ []
  reserve-authorizations r now a db db' h =
      let s = reserve-IsReserved r now a db db' h in
      ap (λ (x : AgentDb). x.authorizations) s.result
      ∙ store_usage-authorizations _ s.with_row
      ∙ (insert_authorization-ok _ s.with_wallet s.with_row s.row).0
      ∙ ap (λ xs. xs ++ authorization_row r now a ∷ [])
          (store_wallet-authorizations r now db s.with_wallet s.wallet).0

  -- A later call, with what it signs and what its clock returns.
  pub record Attempt : Type 0 where
    pub records : VerifiedAgentRecords
    pub now : Text
    pub attestation : Attestation

  abbrev pub after : AgentDb → Result AgentError AgentDb → AgentDb
  after db (ok db') = db'
  after db (err e) = db

  -- The calls one after the other; one that throws is rolled back.
  unfoldable pub attempt_all : List Attempt → AgentDb → AgentDb
  attempt_all [] db = db
  attempt_all (t ∷ ts) db =
      attempt_all ts (after db (reserve_and_record host t.records t.now t.attestation db))

  attempt-any :
      (s : VerifiedAgentRecords) (t : Attempt) (db : AgentDb)
      → any (replays s) db.authorizations ≡ true
      → any
          (replays s)
          (after db (reserve_and_record host t.records t.now t.attestation db)).authorizations
        ≡ true
  attempt-any s t db h =
      elim (Result-cases (reserve_and_record host t.records t.now t.attestation db)) [
        | inl (db', e) ↦
            rw
              (
                e,
                reserve-authorizations t.records t.now t.attestation db db' e,
                any-append (replays s) db.authorizations
                    (authorization_row t.records t.now t.attestation ∷ []),
                h,
              )
              refl
        | inr (x, e) ↦ rw e h
      ]

  attempt_all-any :
      (s : VerifiedAgentRecords) (ts : List Attempt) (db : AgentDb)
      → any (replays s) db.authorizations ≡ true
      → any (replays s) (attempt_all ts db).authorizations ≡ true
  unfolding attempt_all
  attempt_all-any s [] db h = h
  attempt_all-any s (t ∷ ts) db h = attempt_all-any s ts _ (attempt-any s t db h)

  refused :
      (s : VerifiedAgentRecords) (now : Text) (a : Attestation) (db : AgentDb)
      → any (replays s) db.authorizations ≡ true
      → reserve_and_record host s now a db ≡ err AgentError.replay_refused
  unfolding reserve_and_record
  refused s now a db h = rw (reserve_and_record, h) refl

  -- The two name one intent: by its record, by its id, or by the nonce that was signed for.
  abbrev pub SameIntent : VerifiedAgentRecords → VerifiedAgentRecords → Type 0
  SameIntent r s =
      (r.intent_record_id ≡ s.intent_record_id)
      ⊎ ((r.intent_id ≡ s.intent_id)
          ⊎ ((r.wallet_id ≡ s.wallet_id)
              × (r.grant_id ≡ s.grant_id)
              × (r.source_account ≡ s.source_account)
              × (r.intent_nonce ≡ s.intent_nonce)))

  replays-SameIntent :
      (r s : VerifiedAgentRecords) (now : Text) (a : Attestation)
      → SameIntent r s
      → replays s (authorization_row r now a) ≡ true
  replays-SameIntent r s now a (inl record_id) =
      ground (arith, text_eq_iff r.intent_record_id s.intent_record_id)
  replays-SameIntent r s now a (inr (inl id)) = ground (arith, text_eq_iff r.intent_id s.intent_id)
  replays-SameIntent r s now a (inr (inr (wallet, grant, account, nonce))) = ground (
    arith,
    text_eq_iff r.wallet_id s.wallet_id,
    text_eq_iff r.grant_id s.grant_id,
    text_eq_iff r.source_account s.source_account,
    text_eq_iff r.intent_nonce s.intent_nonce,
  )

  -- Once an intent is reserved, every later reservation of that intent is refused as a replay, by its
  -- record, its id or its signed nonce, whatever reservations were tried in between.
  pub replay-refused :
      (r s : VerifiedAgentRecords) (now later : Text) (a b : Attestation) (db db' : AgentDb)
      (ts : List Attempt)
      → reserve_and_record host r now a db ≡ ok db'
      → SameIntent r s
      → reserve_and_record host s later b (attempt_all ts db') ≡ err AgentError.replay_refused
  unfolding any
  replay-refused r s now later a b db db' ts h same = refused s later b (attempt_all ts db') (
      attempt_all-any s ts db' (
        rw
          (
            reserve-authorizations r now a db db' h,
            any-append (replays s) db.authorizations (authorization_row r now a ∷ []),
          )
          (let there = replays-SameIntent r s now a same in ground arith)))
