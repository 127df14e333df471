-- ===== src/Stripe/Verdicts.antt =====
-- Which verdict on a webhook of sovereign/src/processors/stripe-checkout.ts moves an operation to paid.
use cashloom.Stripe.{is_uuid}
use cashloom.Stripe.Checkout.{operation_of, operation_for_intent}
use cashloom.Stripe.Moves.{IsKeyed, operation_of-keyed}
use cashloom.Prelude.{
  ◌≡◌, ◌≢◌, refl, ◌∙◌, ap, Bool, true, false, ◌&&◌, ◌||◌, not, inl, inr, Option, none, some, List,
  Text, text_eq, subst, text_eq_iff, &&-elim, Bool-cases, Option-cases, arith,
}
use cashloom.Stripe.{StripeCheckoutStatus, provider_reported_paid, CheckoutRow, StripeHost}
use cashloom.Stripe.Checkout.{status_eq, option_is}
use cashloom.Stripe.Quiet.{some-injective}
use cashloom.Stripe.Judge.{
  currency_is, Transition, BoundedEvent, agrees, identifier_taken, judge, judge_operation,
  claimed_intent, asked_transition, is_completed, is_expired_type, is_paid, read_payment_intent,
}
use cashloom.Stripe.Webhook.{projected}

-- A verdict that moves an operation to "paid".
abbrev pub PaysFor : StripeHost → BoundedEvent → CheckoutRow → Type 0
PaysFor host b operation =
    (is_completed b.type ≡ true)
    × (is_paid b.event ≡ true)
    × (b.account ≡ operation.connected_account_id)
    × ((currency : Text) × (b.event.currency ≡ some currency)
        × (host.to_upper currency ≡ operation.currency))
    × (b.event.amount_total ≡ some operation.amount_minor)
    × (b.event.metadata_intent ≡ some operation.intent_id)

option_is-some : (o : Option Text) (t : Text) → option_is o t ≡ true → o ≡ some t
option_is-some none t h = cc
option_is-some (some x) t h = ap some ((text_eq_iff x t).0 h)

currency_is-some :
    (host : StripeHost) (o : Option Text) (t : Text)
    → currency_is host o t ≡ true
    → (c : Text) × (o ≡ some c) × (host.to_upper c ≡ t)
currency_is-some host none t h = cc
currency_is-some host (some c) t h = (c, refl, (text_eq_iff (host.to_upper c) t).0 h)

agrees-terms :
    (host : StripeHost) (b : BoundedEvent) (operation : CheckoutRow) (session : Text)
    (payment_intent : Option Text)
    → agrees host b operation session payment_intent ≡ true
    → (b.account ≡ operation.connected_account_id)
      × (currency_is host b.event.currency operation.currency ≡ true)
      × (option_is b.event.amount_total operation.amount_minor ≡ true)
      × (option_is b.event.metadata_intent operation.intent_id ≡ true)
unfolding agrees
agrees-terms host b operation session payment_intent h = (
  ground (arith, text_eq_iff b.account operation.connected_account_id),
  ground arith,
  ground arith,
  ground arith,
)

not_refused : (a b : Bool) → (not a || b) ≡ false → a ≡ true
not_refused true b h = refl
not_refused false b h = cc

asked-paid :
    (b : BoundedEvent)
    → asked_transition b ≡ Transition.paid
    → (is_completed b.type && is_paid b.event) ≡ true
asked-paid b h = ground arith

nothing≢paid : Transition.nothing ≢ Transition.paid
nothing≢paid e = cc

judge_operation-PaysFor :
    (host : StripeHost) (b : BoundedEvent) (held operation : CheckoutRow) (rows : List CheckoutRow)
    → (judge_operation host b held rows).operation ≡ some operation
    → (judge_operation host b held rows).transition ≡ Transition.paid
    → PaysFor host b operation
unfolding judge_operation
judge_operation-PaysFor host b held operation rows same pays =
    elim (Option-cases b.event.object_id) [
      | inl e ↦ absurd (nothing≢paid (rw (judge_operation, e) at pays))
      | inr (session, e) ↦ elim (Option-cases (read_payment_intent b.event.payment_intent)) [
        | inl i ↦ absurd (nothing≢paid (rw (judge_operation, e, i) at pays))
        | inr (payment_intent, i) ↦
            elim (Bool-cases (
              not (agrees host b held session payment_intent)
              || identifier_taken held session payment_intent rows)) [
                | inl refused ↦ absurd (nothing≢paid (rw (judge_operation, e, i, refused) at pays))
                | inr applied ↦
                    (let own : held ≡ operation =
                        some-injective (rw (judge_operation, e, i, applied) at same) in
                      let (completed, paid) =
                        &&-elim _ _ (asked-paid b (rw (judge_operation, e, i, applied) at pays)) in
                      let (account, currency, amount, intent) =
                        agrees-terms host b held session payment_intent (not_refused _ _ applied) in
                      (
                        completed,
                        paid,
                        account ∙ ap (λ (r : CheckoutRow). r.connected_account_id) own,
                        (let (c, told, same) = currency_is-some host _ _ currency in
                            (c, told, same ∙ ap (λ (r : CheckoutRow). r.currency) own)),
                        option_is-some _ _ amount
                            ∙ ap (λ (r : CheckoutRow). some r.amount_minor) own,
                        option_is-some _ _ intent ∙ ap (λ (r : CheckoutRow). some r.intent_id) own,
                      ))
              ]
      ]
    ]

pub judge-PaysFor :
    (host : StripeHost) (b : BoundedEvent) (operation : CheckoutRow) (rows : List CheckoutRow)
    → (judge host b rows).operation ≡ some operation
    → (judge host b rows).transition ≡ Transition.paid
    → PaysFor host b operation
unfolding judge
judge-PaysFor host b operation rows same pays =
    elim (Bool-cases (is_completed b.type || is_expired_type b.type)) [
      | inr other ↦ absurd (nothing≢paid (rw (judge, other) at pays))
      | inl known ↦ elim (Option-cases (claimed_intent b.event.client_reference_id rows)) [
        | inl e ↦ absurd (nothing≢paid (rw (judge, known, e) at pays))
        | inr (held, e) ↦
            judge_operation-PaysFor host b held operation rows (rw (judge, known, e) at same)
              (rw (judge, known, e) at pays)
      ]
    ]

expired≢paid : StripeCheckoutStatus.expired ≢ provider_reported_paid
expired≢paid e = cc

pub projected-paid :
    (t : Transition) (s : StripeCheckoutStatus)
    → s ≢ provider_reported_paid
    → projected t s ≡ provider_reported_paid
    → t ≡ Transition.paid
unfolding projected
projected-paid Transition.paid s ne h = refl
projected-paid Transition.nothing s ne h = absurd (ne h)
projected-paid Transition.expired s ne h = elim (Bool-cases (status_eq s provider_reported_paid)) [
  | inl e ↦ absurd (ne (rw e at h))
  | inr e ↦ absurd (expired≢paid (rw e at h))
]

claimed_intent-found :
    (id : Option Text) (rows : List CheckoutRow) (held : CheckoutRow)
    → claimed_intent id rows ≡ some held
    → IsKeyed rows
    → operation_of held.id rows ≡ some held
unfolding operation_for_intent
claimed_intent-found none rows held found keyed = cc
claimed_intent-found (some id) rows held found keyed = elim (Bool-cases (is_uuid id)) [
  | inl valid ↦
      operation_of-keyed (λ (r : CheckoutRow). text_eq r.intent_id id) rows held keyed
        (rw valid at found)
  | inr bad ↦ absurd (cc (rw bad at found))
]

judge_operation-own :
    (host : StripeHost) (b : BoundedEvent) (held operation : CheckoutRow) (rows : List CheckoutRow)
    → (judge_operation host b held rows).operation ≡ some operation
    → held ≡ operation
unfolding judge_operation
judge_operation-own host b held operation rows same = elim (Option-cases b.event.object_id) [
  | inl e ↦ some-injective (rw (judge_operation, e) at same)
  | inr (session, e) ↦ elim (Option-cases (read_payment_intent b.event.payment_intent)) [
    | inl i ↦ some-injective (rw (judge_operation, e, i) at same)
    | inr (payment_intent, i) ↦
        elim (Bool-cases (
          not (agrees host b held session payment_intent)
          || identifier_taken held session payment_intent rows)) [
            | inl refused ↦ some-injective (rw (judge_operation, e, i, refused) at same)
            | inr applied ↦ some-injective (rw (judge_operation, e, i, applied) at same)
          ]
  ]
]

-- The operation of a verdict is the row of its id.
pub judge-found :
    (host : StripeHost) (b : BoundedEvent) (operation : CheckoutRow) (rows : List CheckoutRow)
    → IsKeyed rows
    → (judge host b rows).operation ≡ some operation
    → operation_of operation.id rows ≡ some operation
unfolding judge
judge-found host b operation rows keyed same =
    elim (Bool-cases (is_completed b.type || is_expired_type b.type)) [
      | inr other ↦ absurd (cc (rw (judge, other) at same))
      | inl known ↦ elim (Option-cases (claimed_intent b.event.client_reference_id rows)) [
        | inl e ↦ absurd (cc (rw (judge, known, e) at same))
        | inr (held, e) ↦
            (let own =
                judge_operation-own host b held operation rows (rw (judge, known, e) at same) in
              subst (λ (x : CheckoutRow). operation_of x.id rows ≡ some x) own
                (claimed_intent-found b.event.client_reference_id rows held e keyed))
      ]
    ]
