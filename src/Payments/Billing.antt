-- ===== src/Payments/Billing.antt =====
-- The later events of a subscription in StripeWebhookService, its invoices, and a refund made at the provider:
-- src/modules/payments/services/stripe-webhook.service.ts.
use innovents.Payments.Renewal.{paid_row, add_payment, find_stripe}
use innovents.Payments.Webhook.{
  StripeStatus, StripeSubscription, Invoice, Charge, stripe_active, stripe_trialing,
  stripe_past_due, stripe_canceled, stripe_unpaid, stripe_incomplete, other_status,
}
use innovents.Payments.Tables.{
  payment_key, subscription_key, is_id, is_refunded, PaymentStatus, SubscriptionStatus, Payment,
  Subscription, State, Error, incomplete, past_due, unpaid, trialing, payment_refunded,
  subscription_cancelled, subscription_payment_failed, subscription_renewed,
}
use innovents.Shared.{
  if◌then◌else◌, map_option, or_default, bind_option, or_else, find, update_by, Action, pure, gets,
  modify, ◌>>=◌, ◌>>◌, transaction, to_number, ℕ, ◌*◌, false, Option, none, some, ◌∷◌,
}

-- `statusMap`; what it does not list is taken for ACTIVE.
abbrev pub target_status : StripeStatus → SubscriptionStatus
target_status stripe_active = SubscriptionStatus.active
target_status stripe_trialing = trialing
target_status stripe_past_due = past_due
target_status stripe_canceled = SubscriptionStatus.cancelled
target_status stripe_unpaid = unpaid
target_status stripe_incomplete = incomplete
target_status other_status = SubscriptionStatus.active

abbrev pub follow : StripeSubscription → Subscription → Subscription
follow e u = record u {
  status = target_status e.status;
  cancel_at_period_end = or_default e.cancel_at_period_end false;
  period_start = or_else (map_option (λ t. t * 1000) e.period_start) u.period_start;
  period_end = or_else (map_option (λ t. t * 1000) e.period_end) u.period_end;
}

unfoldable pub handle_updated : StripeSubscription → State → State
handle_updated e s = record s {
  subscriptions = update_by (λ u. u.stripe_id) e.id (follow e) s.subscriptions;
}

abbrev pub cancel_now : ℕ → Subscription → Subscription
cancel_now now u = record u { status = SubscriptionStatus.cancelled; canceled_at = some now }

abbrev pub set_subscription : SubscriptionStatus → Subscription → Subscription
set_subscription st u = record u { status = st }

-- What the rest of a handler does to the subscription that it found, if it found one.
abbrev pub on_found :
    (Subscription → Action State Error (Unit {0}))
    → Option Subscription
    → Action State Error (Unit {0})
on_found f none = pure tt
on_found f (some u) = f u

abbrev pub delete_commit : ℕ → Subscription → Action State Error (Unit {0})
delete_commit now u = modify (λ s. record s {
  subscriptions = update_by subscription_key u.id (cancel_now now) s.subscriptions;
  outbox = subscription_cancelled u.id ∷ s.outbox;
})

unfoldable pub handle_deleted : ℕ → ℕ → Action State Error (Unit {0})
handle_deleted stripe_id now = do
  found ← gets (find_stripe stripe_id)
  on_found (delete_commit now) found

abbrev pub extend : ℕ → Subscription → Subscription
extend end u = record u { status = SubscriptionStatus.active; period_end = some (end * 1000) }

-- The new end of the period, if the invoice has one, and the event.
abbrev pub note_renewal : Option ℕ → ℕ → ℕ → Action State Error (Unit {0})
note_renewal none id amount =
    modify (λ s. record s { outbox = subscription_renewed id amount ∷ s.outbox })
note_renewal (some end) id amount = do
  modify
      (λ s. record s { subscriptions = update_by subscription_key id (extend end) s.subscriptions })
  modify (λ s. record s { outbox = subscription_renewed id amount ∷ s.outbox })

-- The row of the payment for an invoice.
abbrev pub invoice_payment : Invoice → Subscription → ℕ → ℕ → Payment
invoice_payment e u now k =
    paid_row k u.user_id u.sponsor_profile_id u.vendor_profile_id u.id
      (or_default e.amount_paid u.amount) none none e.id now

abbrev pub invoice_commit : Invoice → ℕ → Subscription → Action State Error (Unit {0})
invoice_commit e now u = do
  add_payment (invoice_payment e u now)
  note_renewal e.period_end u.id (or_default e.amount_paid u.amount)

unfoldable pub handle_invoice_paid : Invoice → ℕ → Action State Error (Unit {0})
handle_invoice_paid e now = do
  found ← gets (λ s. bind_option e.subscription (λ k. find_stripe k s))
  transaction (on_found (invoice_commit e now) found)

abbrev pub fail_commit : Subscription → Action State Error (Unit {0})
fail_commit u = modify (λ s. record s {
  subscriptions = update_by subscription_key u.id (set_subscription past_due) s.subscriptions;
  outbox = subscription_payment_failed u.id ∷ s.outbox;
})

unfoldable pub handle_invoice_failed : Option ℕ → Action State Error (Unit {0})
handle_invoice_failed stripe_id = do
  found ← gets (λ s. bind_option stripe_id (λ k. find_stripe k s))
  on_found fail_commit found

abbrev pub set_charge_refunded : ℕ → ℕ → Payment → Payment
set_charge_refunded total now p = record p {
  status = PaymentStatus.refunded;
  refund_amount = some total;
  refunded_at = some now;
}

-- A payment that is REFUNDED already is left alone.
abbrev pub charge_commit : Charge → ℕ → Option Payment → State → State
charge_commit e now none s = s
charge_commit e now (some p) s =
    let total : ℕ = or_default e.amount_refunded p.amount in
    if is_refunded p.status then s else record s {
      payments = update_by payment_key p.id (set_charge_refunded total now) s.payments;
      outbox = payment_refunded p.id (to_number total) ∷ s.outbox;
    }

unfoldable pub handle_charge_refunded : Charge → ℕ → State → State
handle_charge_refunded e now s =
    charge_commit e now (bind_option e.intent_id (λ i. find (λ p. is_id i p.intent_id) s.payments))
      s
