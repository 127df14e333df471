-- ===== src/Stripe/Moves.antt =====
-- How the steps of sovereign/src/processors/stripe-checkout.ts move an operation: every statement
-- appends a row, or moves one along the edges below.
use cashloom.Prelude.{
  ◌≡◌, ◌≢◌, refl, ◌∙◌, ap, inl, inr, Option, none, some, List, [], ◌∷◌, ◌++◌, Text, text_eq,
  text_eq_refl, any, find, false, Bool, All-find, AllPairs, AllPairs-append, AllPairs-update,
  All_of_any, update, updated, find-update, find-append, Bool-cases,
}
use cashloom.Stripe.{
  StripeCheckoutStatus, submitting, submitted, submission_unknown, provider_reported_paid, expired,
  CheckoutRow,
}
use cashloom.Stripe.Checkout.{status_eq, coalesce, operation_of, operation_for_intent}
use cashloom.Stripe.Answer.{when_submitting, set_unknown, set_submitted}
use cashloom.Stripe.Judge.{Transition}
use cashloom.Stripe.Webhook.{projected, project}

infix 40 ◌⟶◌ ◌⟶*◌
pub data ◌⟶◌ : StripeCheckoutStatus → StripeCheckoutStatus → Type 0 where
  answer : submitting ⟶ submitted
  lose : submitting ⟶ submission_unknown
  pay : (s : StripeCheckoutStatus) → s ⟶ provider_reported_paid
  lapse : {s : StripeCheckoutStatus} → s ≢ provider_reported_paid → s ⟶ expired

pub data ◌⟶*◌ : StripeCheckoutStatus → StripeCheckoutStatus → Type 0 where
  here : {s : StripeCheckoutStatus} → s ⟶* s
  more : {s t u : StripeCheckoutStatus} → s ⟶ t → t ⟶* u → s ⟶* u

pub ⟶*-trans : {s t u : StripeCheckoutStatus} → s ⟶* t → t ⟶* u → s ⟶* u
⟶*-trans here k = k
⟶*-trans (more e h) k = more e (⟶*-trans h k)

-- Nothing leaves "paid" but "paid" again.
pub paid-final :
    {s : StripeCheckoutStatus} → provider_reported_paid ⟶* s → s ≡ provider_reported_paid
paid-final here = refl
paid-final (more (pay s) h) = paid-final h
paid-final (more (lapse ne) h) = absurd (ne refl)

-- The row of an operation after any steps: the request that it commits to stands, its status has
-- moved along the edges, and an identifier that it has stays.
pub record IsLater (r q : CheckoutRow) : Type 0 where
  pub id : q.id ≡ r.id
  pub intent_id : q.intent_id ≡ r.intent_id
  pub account_id : q.account_id ≡ r.account_id
  pub connected_account_id : q.connected_account_id ≡ r.connected_account_id
  pub currency : q.currency ≡ r.currency
  pub amount_minor : q.amount_minor ≡ r.amount_minor
  pub idempotency_key : q.idempotency_key ≡ r.idempotency_key
  pub request_json : q.request_json ≡ r.request_json
  pub status : r.status ⟶* q.status
  pub session : (t : Text) → r.checkout_session_id ≡ some t → q.checkout_session_id ≡ some t
  pub payment_intent : (t : Text) → r.payment_intent_id ≡ some t → q.payment_intent_id ≡ some t

pub IsLater-refl : (r : CheckoutRow) → IsLater r r
IsLater-refl r = record {
  id = refl;
  intent_id = refl;
  account_id = refl;
  connected_account_id = refl;
  currency = refl;
  amount_minor = refl;
  idempotency_key = refl;
  request_json = refl;
  status = here;
  session = λ t e. e;
  payment_intent = λ t e. e;
}

pub IsLater-trans : (r q p : CheckoutRow) → IsLater r q → IsLater q p → IsLater r p
IsLater-trans r q p h k = record {
  id = k.id ∙ h.id;
  intent_id = k.intent_id ∙ h.intent_id;
  account_id = k.account_id ∙ h.account_id;
  connected_account_id = k.connected_account_id ∙ h.connected_account_id;
  currency = k.currency ∙ h.currency;
  amount_minor = k.amount_minor ∙ h.amount_minor;
  idempotency_key = k.idempotency_key ∙ h.idempotency_key;
  request_json = k.request_json ∙ h.request_json;
  status = ⟶*-trans h.status k.status;
  session = λ t e. k.session t (h.session t e);
  payment_intent = λ t e. k.payment_intent t (h.payment_intent t e);
}

when_submitting-⟶* :
    (next s : StripeCheckoutStatus) → submitting ⟶ next → s ⟶* when_submitting next s
unfolding when_submitting status_eq
when_submitting-⟶* next submitting e = more e here
when_submitting-⟶* next StripeCheckoutStatus.prepared e = here
when_submitting-⟶* next submitted e = here
when_submitting-⟶* next submission_unknown e = here
when_submitting-⟶* next provider_reported_paid e = here
when_submitting-⟶* next expired e = here
when_submitting-⟶* next StripeCheckoutStatus.rejected e = here

projected-⟶* : (t : Transition) (s : StripeCheckoutStatus) → s ⟶* projected t s
unfolding projected status_eq
projected-⟶* Transition.paid s = more (pay s) here
projected-⟶* Transition.nothing s = here
projected-⟶* Transition.expired provider_reported_paid = here
projected-⟶* Transition.expired StripeCheckoutStatus.prepared = more (lapse (λ e. cc)) here
projected-⟶* Transition.expired submitting = more (lapse (λ e. cc)) here
projected-⟶* Transition.expired submitted = more (lapse (λ e. cc)) here
projected-⟶* Transition.expired submission_unknown = more (lapse (λ e. cc)) here
projected-⟶* Transition.expired expired = more (lapse (λ e. cc)) here
projected-⟶* Transition.expired StripeCheckoutStatus.rejected = more (lapse (λ e. cc)) here

coalesce-keeps : (a b : Option Text) (t : Text) → a ≡ some t → coalesce a b ≡ some t
coalesce-keeps none b t e = cc
coalesce-keeps (some x) b t e = e

-- The three changes of a row.
pub set_unknown-IsLater : (code now : Text) (r : CheckoutRow) → IsLater r (set_unknown code now r)
set_unknown-IsLater code now r = record {
  id = refl;
  intent_id = refl;
  account_id = refl;
  connected_account_id = refl;
  currency = refl;
  amount_minor = refl;
  idempotency_key = refl;
  request_json = refl;
  status = when_submitting-⟶* submission_unknown r.status lose;
  session = λ t e. e;
  payment_intent = λ t e. e;
}

pub set_submitted-IsLater :
    (session : Text) (payment_intent : Option Text) (url now : Text) (r : CheckoutRow)
    → IsLater r (set_submitted session payment_intent url now r)
set_submitted-IsLater session payment_intent url now r = record {
  id = refl;
  intent_id = refl;
  account_id = refl;
  connected_account_id = refl;
  currency = refl;
  amount_minor = refl;
  idempotency_key = refl;
  request_json = refl;
  status = when_submitting-⟶* submitted r.status answer;
  session = coalesce-keeps r.checkout_session_id (some session);
  payment_intent = coalesce-keeps r.payment_intent_id payment_intent;
}

pub project-IsLater :
    (transition : Transition) (session : Text) (payment_intent : Option Text) (now : Text)
    (r : CheckoutRow)
    → IsLater r (project transition session payment_intent now r)
project-IsLater transition session payment_intent now r = record {
  id = refl;
  intent_id = refl;
  account_id = refl;
  connected_account_id = refl;
  currency = refl;
  amount_minor = refl;
  idempotency_key = refl;
  request_json = refl;
  status = projected-⟶* transition r.status;
  session = coalesce-keeps r.checkout_session_id (some session);
  payment_intent = coalesce-keeps r.payment_intent_id payment_intent;
}

-- One statement on the operations.
pub data Statement (rows : List CheckoutRow) : List CheckoutRow → Type 0 where
  nothing : Statement rows rows
  insert :
      (r : CheckoutRow)
      → any (λ x. text_eq x.id r.id) rows ≡ false
      → Statement rows (rows ++ r ∷ [])
  change :
      (id : Text) (f : CheckoutRow → CheckoutRow)
      → ((r : CheckoutRow) → IsLater r (f r))
      → Statement rows (update (λ r. text_eq r.id id) f rows)

pub Statement-IsLater :
    (rows rows' : List CheckoutRow) (id : Text) (r : CheckoutRow)
    → Statement rows rows'
    → operation_of id rows ≡ some r
    → (q : CheckoutRow) × (operation_of id rows' ≡ some q) × IsLater r q
unfolding operation_of
Statement-IsLater rows _ id r nothing found = (r, found, IsLater-refl r)
Statement-IsLater rows _ id r (insert new fresh) found =
    (r, find-append (λ (x : CheckoutRow). text_eq x.id id) rows (new ∷ []) r found, IsLater-refl r)
Statement-IsLater rows _ id r (change other f later) found = (
  updated (λ (x : CheckoutRow). text_eq x.id other) f r,
  find-update (λ (x : CheckoutRow). text_eq x.id id) (λ (x : CheckoutRow). text_eq x.id other) f
        (λ x _. ap (λ t. text_eq t id) (later x).id) rows
      ∙ rw found refl,
  elim (Bool-cases (text_eq r.id other)) [
    | inl hit ↦ rw hit (later r)
    | inr miss ↦ rw miss (IsLater-refl r)
  ],
)

-- The same for the look-up by intent.
pub Statement-intent :
    (rows rows' : List CheckoutRow) (intent_id : Text) (r : CheckoutRow)
    → Statement rows rows'
    → operation_for_intent intent_id rows ≡ some r
    → (q : CheckoutRow) × (operation_for_intent intent_id rows' ≡ some q) × IsLater r q
unfolding operation_for_intent
Statement-intent rows _ id r nothing found = (r, found, IsLater-refl r)
Statement-intent rows _ id r (insert new fresh) found = (
  r,
  find-append (λ (x : CheckoutRow). text_eq x.intent_id id) rows (new ∷ []) r found,
  IsLater-refl r,
)
Statement-intent rows _ id r (change other f later) found = (
  updated (λ (x : CheckoutRow). text_eq x.id other) f r,
  find-update (λ (x : CheckoutRow). text_eq x.intent_id id)
        (λ (x : CheckoutRow). text_eq x.id other) f
        (λ x _. ap (λ t. text_eq t id) (later x).intent_id) rows
      ∙ rw found refl,
  elim (Bool-cases (text_eq r.id other)) [
    | inl hit ↦ rw hit (later r)
    | inr miss ↦ rw miss (IsLater-refl r)
  ],
)

-- The primary key of the table.
abbrev pub IsKeyed : List CheckoutRow → Type 0
IsKeyed = AllPairs (λ x y. text_eq x.id y.id ≡ false)

pub Statement-IsKeyed :
    (rows rows' : List CheckoutRow) → Statement rows rows' → IsKeyed rows → IsKeyed rows'
Statement-IsKeyed rows _ nothing h = h
Statement-IsKeyed rows _ (insert new fresh) h =
    AllPairs-append (λ (x y : CheckoutRow). text_eq x.id y.id ≡ false) rows new
      (All_of_any (λ (x : CheckoutRow). text_eq x.id new.id) rows fresh) h
Statement-IsKeyed rows _ (change id f later) h =
    AllPairs-update (λ (x y : CheckoutRow). text_eq x.id y.id ≡ false) (λ r. text_eq r.id id) f
      (λ x y k. ap (λ t. text_eq t y.id) (later x).id ∙ k)
      (λ x y k. ap (text_eq x.id) (later y).id ∙ k) rows h

-- A row that any look-up finds is the one of its id.
pub operation_of-keyed :
    (p : CheckoutRow → Bool) (rows : List CheckoutRow) (held : CheckoutRow)
    → IsKeyed rows
    → find p rows ≡ some held
    → operation_of held.id rows ≡ some held
unfolding operation_of find
operation_of-keyed p [] held h found = cc
operation_of-keyed p (x ∷ rows) held (far, h) found = elim (Bool-cases (p x)) [
  | inl hit ↦
      (let own : x ≡ held = cc (rw hit at found) in
        rw (ap (λ (r : CheckoutRow). text_eq r.id held.id) own ∙ text_eq_refl held.id)
          (ap some own))
  | inr miss ↦
      (let rest = rw miss at found in
        let other =
          All-find (λ (y : CheckoutRow). text_eq x.id y.id ≡ false) p rows held far rest in
        rw other (operation_of-keyed p rows held h rest))
]
