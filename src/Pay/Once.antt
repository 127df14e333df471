-- ===== src/Pay/Once.antt =====
-- No interleaving of sovereign/src/pay.ts calls a payment's sender twice or undoes an outcome.
use cashloom.Prelude.{
  ℕ, zero, suc, ◌≡◌, ◌≢◌, refl, sym, ◌∙◌, ap, subst, true, false, inl, inr, Option, none, some,
  List, [], ◌∷◌, Text, text_eq, text_eq_refl, Result, ok, err, Result-cases, Option-cases, update,
  All, AllPairs, All-implies, All-both,
}
use cashloom.Payments.{Payment, PaymentStatus, status_eq}
use cashloom.Pay.{PayDb, PayError, Engine}
use cashloom.Pay.Claim.{
  ConfirmRuntime, Claimed, ClaimResult, payment_of, still_quoted, set_confirmed, claim,
}
use cashloom.Pay.Settle.{SendOutcome, Recording, settle, on_signed}
use cashloom.Pay.Status.{HasStatus, HasStatus-update, IsSpent, payment_of-update, payment_of-id}
use cashloom.Pay.Claims.{Commits, claim-Commits}
use cashloom.Pay.World.{World, Event, take_out, keep, dispatch, sign_at, end_at, step, run}
use cashloom.Pay.Rite.{
  Statement, Rewrites, Rewrites-other, Rewrites-IsSpent, on_signed-Rewrites, settle-Rewrites,
  persist_quote-Statement, Commits-Statement, IsSound, IsSound-Statement,
}

module _ {ℓ κ} {A : Type ℓ} (P : A → Type κ) where
  pub take_out-All :
      (n : ℕ) (xs : List A) (y : A) (ys : List A)
      → take_out n xs ≡ some (y, ys)
      → All P xs
      → P y × All P ys
  unfolding take_out
  take_out-All n [] y ys e h = cc
  take_out-All zero (x ∷ xs) y ys e (p, h) =
      let here : x ≡ y = cc in let rest : xs ≡ ys = cc in (subst P here p, subst (All P) rest h)
  take_out-All (suc n) (x ∷ xs) y ys e (p, h) = elim (Option-cases (take_out n xs)) [
    | inl gone ↦ cc (rw gone at e)
    | inr ((z, zs), taken) ↦
        let (q, t) = take_out-All n xs z zs taken h in
        let same : z ≡ y = cc (rw taken at e) in
        let rest : ◌≡◌ {A = List A} (x ∷ zs) ys = cc (rw taken at e) in
        (subst P same q, subst (All P) rest (p, t))
  ]

module _ {A : Type 0} (R : A → A → Type 0) (flip : (x y : A) → R x y → R y x) where
  take_out-AllPairs :
      (n : ℕ) (xs : List A) (y : A) (ys : List A)
      → take_out n xs ≡ some (y, ys)
      → AllPairs R xs
      → All (R y) ys × AllPairs R ys
  unfolding take_out
  take_out-AllPairs n [] y ys e h = cc
  take_out-AllPairs zero (x ∷ xs) y ys e (p, h) =
      let here : x ≡ y = cc in
      let rest : xs ≡ ys = cc in
      (subst (λ z. All (R z) ys) here (subst (All (R x)) rest p), subst (AllPairs R) rest h)
  take_out-AllPairs (suc n) (x ∷ xs) y ys e (p, h) = elim (Option-cases (take_out n xs)) [
    | inl gone ↦ cc (rw gone at e)
    | inr ((z, zs), taken) ↦
        let (far, t) = take_out-AllPairs n xs z zs taken h in
        let (near, others) = take_out-All (R x) n xs z zs taken p in
        let same : z ≡ y = cc (rw taken at e) in
        let rest : ◌≡◌ {A = List A} (x ∷ zs) ys = cc (rw taken at e) in
        (
          subst (λ w. All (R w) ys) same (subst (All (R z)) rest (flip x z near, far)),
          subst (AllPairs R) rest (others, t),
        )
  ]

confirmed-not_quoted :
    (p : Payment)
    → p.status ≡ PaymentStatus.confirmed
    → status_eq p.status PaymentStatus.quoted ≡ false
unfolding status_eq
confirmed-not_quoted p e = rw e

still_quoted_self :
    (row : Payment) → row.status ≡ PaymentStatus.quoted → still_quoted row row ≡ true
unfolding still_quoted status_eq
still_quoted_self row e = rw (text_eq_refl row.id, text_eq_refl row.created_at, e)

-- A won claim is of a payment that is neither spent nor in flight, and confirms it.
module _ (w : World) (h : IsSound w) (id : Text) (now : Text) (c : Claimed)
    (found : payment_of id w.db.payments ≡ some c.row)
    (quoted : c.row.status ≡ PaymentStatus.quoted) where
  row-found : payment_of c.row.id w.db.payments ≡ some c.row
  row-found =
      ap (λ t. payment_of t w.db.payments) (payment_of-id id w.db.payments c.row found) ∙ found

  not_spent : (other : Text) → IsSpent other w.db.payments → c.row.id ≢ other
  unfolding status_eq
  not_spent other (p, there, spent) same =
      let e : c.row ≡ p = cc (row-found, there, same) in cc (rw (sym e, quoted) at spent)

  not_in_flight :
      (d : Claimed) → HasStatus d.row.id PaymentStatus.confirmed w.db.payments → c.row.id ≢ d.row.id
  not_in_flight d (p, there, confirmed) same =
      let e : c.row ≡ p = cc (row-found, there, same) in cc (rw (sym e, quoted) at confirmed)

  won-IsSound :
      (db : PayDb)
      → db.payments ≡ update (still_quoted c.row) (set_confirmed now) w.db.payments
      → Statement w.db.payments db.payments
      → IsSound (record { db = db; pending = c ∷ w.pending; sends = c.row.id ∷ w.sends })
  won-IsSound db rows st =
      let base = IsSound-Statement w db st h in
      let hit = still_quoted_self c.row quoted in
      let moved =
        payment_of-update (still_quoted c.row) (set_confirmed now) (λ x _. refl) c.row.id
          w.db.payments c.row row-found in
      let here : HasStatus c.row.id PaymentStatus.confirmed db.payments =
        (set_confirmed now c.row, rw rows (moved ∙ rw hit), refl) in
      let (p, there, e) = here in
      record {
        in_flight = (here, base.in_flight);
        apart = (All-implies _ _ w.pending not_in_flight h.in_flight, h.apart);
        spent = ((p, there, confirmed-not_quoted p e), base.spent);
        once = (All-implies _ _ w.sends not_spent h.spent, h.once);
      }

Rewrites-IsSound :
    (w : World) (c : Claimed) (pending : List Claimed) (db : PayDb)
    → Rewrites c.row.id w.db.payments db.payments
    → All (λ d. HasStatus d.row.id PaymentStatus.confirmed w.db.payments) pending
    → All (λ d. c.row.id ≢ d.row.id) pending
    → AllPairs (λ d e. d.row.id ≢ e.row.id) pending
    → IsSound w
    → IsSound (record { db = db; pending = pending; sends = w.sends })
Rewrites-IsSound w c pending db rs confirmed others apart h = record {
  in_flight =
      All-both _ _ _ pending
        (λ d e ne.
          Rewrites-other c.row.id d.row.id PaymentStatus.confirmed w.db.payments db.payments
            (λ same. ne (sym same)) rs e)
        confirmed others;
  apart = apart;
  spent =
      All-implies _ _ w.sends (λ id. Rewrites-IsSpent c.row.id id w.db.payments db.payments rs)
        h.spent;
  once = h.once;
}

pub on_signed-HasStatus :
    (id external_id now : Text) (db : PayDb) (other : Text) (s : PaymentStatus)
    → HasStatus other s db.payments
    → HasStatus other s (on_signed id external_id now db).payments
unfolding on_signed
on_signed-HasStatus id external_id now db other s =
    HasStatus-update (λ p. text_eq p.id id) _ (λ x _. refl) other s db.payments (λ x _ _ e. e)

sign-IsSound :
    (w : World) (taken : Option (Claimed × List Claimed)) (external_id now : Text)
    → IsSound w
    → IsSound (sign_at w taken external_id now)
sign-IsSound w none external_id now h = h
sign-IsSound w (some (c, rest)) external_id now h = record {
  in_flight =
      All-implies _ _ w.pending
        (λ d. on_signed-HasStatus c.row.id external_id now w.db d.row.id PaymentStatus.confirmed)
        h.in_flight;
  apart = h.apart;
  spent =
      All-implies _ _ w.sends
        (λ id.
          Rewrites-IsSpent c.row.id id w.db.payments _
            (on_signed-Rewrites c.row.id external_id now w.db))
        h.spent;
  once = h.once;
}

apart-flip : (c d : Claimed) → c.row.id ≢ d.row.id → d.row.id ≢ c.row.id
apart-flip c d ne e = ne (sym e)

end-IsSound :
    (w : World) (place : ℕ) (taken : Option (Claimed × List Claimed)) (outcome : SendOutcome)
    (recording : Recording) (new_id now : Text)
    → take_out place w.pending ≡ taken
    → IsSound w
    → IsSound (end_at w taken outcome recording new_id now)
end-IsSound w place none outcome recording new_id now e h = h
end-IsSound w place (some (c, rest)) outcome recording new_id now e h =
    let (_, confirmed) =
      take_out-All (λ (d : Claimed). HasStatus d.row.id PaymentStatus.confirmed w.db.payments) place
        w.pending c rest e h.in_flight in
    let (others, apart) =
      take_out-AllPairs (λ (c d : Claimed). c.row.id ≢ d.row.id) apart-flip place w.pending c rest e
        h.apart in
    Rewrites-IsSound w c rest (settle c outcome recording new_id now w.db).1
      (settle-Rewrites c outcome recording new_id now w.db) confirmed others apart h

module _ (engine : Engine) where
  confirm-IsSound :
      (w : World) (id : Text) (runtime : ConfirmRuntime) (r : ClaimResult × PayDb)
      → IsSound w
      → Commits engine runtime id w.db r
      → IsSound (dispatch w (ok r))
  confirm-IsSound w id runtime _ h (Commits.refused s) = h
  confirm-IsSound w id runtime _ h (Commits.lapsed row at) =
      IsSound-Statement w _ (Commits-Statement engine runtime id w.db _ (Commits.lapsed row at)) h
  confirm-IsSound w id runtime _ h (Commits.won c found quoted bound fresh same asserted) =
      won-IsSound w h id runtime.now c found quoted _ refl (
        Commits-Statement engine runtime id w.db _
          (Commits.won c found quoted bound fresh same asserted))

  keep-IsSound :
      (w : World) (r : Result PayError PayDb)
      → ((db : PayDb) → r ≡ ok db → Statement w.db.payments db.payments)
      → IsSound w
      → IsSound (keep w r)
  keep-IsSound w (ok db) f h = IsSound-Statement w db (f db refl) h
  keep-IsSound w (err e) f h = h

  -- Each step keeps the invariant.
  pub step-IsSound : (e : Event) (w : World) → IsSound w → IsSound (step engine e w)
  unfolding step
  step-IsSound (Event.store opts runtime account sender quote created_at expires_at) w h =
      keep-IsSound w _ (persist_quote-Statement runtime.bind _ w.db) h
  step-IsSound (Event.confirm id runtime) w h = elim (Result-cases (claim engine id runtime w.db)) [
    | inl (r, e) ↦
        rw e (confirm-IsSound w id runtime r h (claim-Commits engine id runtime w.db r e))
    | inr (x, e) ↦ rw e h
  ]
  step-IsSound (Event.sign place external_id now) w h =
      sign-IsSound w (take_out place w.pending) external_id now h
  step-IsSound (Event.end place outcome recording new_id now) w h =
      end-IsSound w place (take_out place w.pending) outcome recording new_id now refl h
  step-IsSound (Event.elsewhere accounts bindings) w h = record {
    in_flight = h.in_flight;
    apart = h.apart;
    spent = h.spent;
    once = h.once;
  }

  pub run-IsSound : (es : List Event) (w : World) → IsSound w → IsSound (run engine es w)
  unfolding run
  run-IsSound [] w h = h
  run-IsSound (e ∷ es) w h = run-IsSound es (step engine e w) (step-IsSound e w h)
