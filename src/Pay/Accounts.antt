-- ===== src/Pay/Accounts.antt =====
-- `senderForAsset`, `sendingAccount` and `timestampNow` of sovereign/src/pay.ts.
use cashloom.Prelude.{
  Bool, true, false, ◌&&◌, Option, none, some, List, [], ◌∷◌, Text, lit, text_eq, trim, includes,
  find, Result, ok, err, if◌then◌else◌,
}
use cashloom.Pay.{Account, PayDb, PayError, PaymentSender, Engine}

module _ (engine : Engine) where
  unfoldable pub sender_for_asset : Text → List PaymentSender → Result PayError PaymentSender
  sender_for_asset asset senders =
      let normalized = engine.to_upper (trim asset) in
      elim (find (λ (s : PaymentSender). includes normalized s.assets) senders) [
        | none ↦ err PayError.no_sender
        | some sender ↦ ok sender
      ]

  unfoldable pub timestamp_now : Text → Result PayError Text
  timestamp_now value = elim (engine.date_parse value) [
    | none ↦ err PayError.bad_clock
    | some ms ↦ ok value
  ]

-- `!row.vault_key_id`: NULL, and the empty text too
abbrev has_key : Option Text → Bool
has_key none = false
has_key (some []) = false
has_key (some (c ∷ s)) = true

unfoldable pub sending_account : Text → PayDb → Result PayError Account
sending_account account_id db =
    elim (find (λ (a : Account). text_eq a.id account_id && text_eq a.active (lit "ACTIVE"))
      db.accounts) [
        | none ↦ err PayError.no_active_account
        | some row ↦ if has_key row.vault_key_id then ok row else err PayError.no_signing_key
      ]
