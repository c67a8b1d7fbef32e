-- ===== src/Payments/Renewal.antt =====
-- A subscription that was paid for, in StripeWebhookService:
-- src/modules/payments/services/stripe-webhook.service.ts.
use innovents.Shared.{
  if◌then◌else◌, is_some, test_or, find, find_by, update_by, Action, pure, raise, gets, modify,
  raise_if, ◌>>=◌, ◌>>◌, transaction, ℕ, suc, ◌+◌, ◌*◌, Bool, true, false, ◌||◌, Option, none, some,
  ◌∷◌,
}
use innovents.Payments.Tables.{
  subscription_key, is_id, PaymentPurpose, SubscriptionStatus, SubscriptionPlan, Payment,
  PlanConfig, Subscription, State, Error, succeeded, sponsor_monthly, sponsor_annual,
  vendor_monthly, vendor_annual, subscription_activated, audit_subscription_activated,
  plan_config_missing, duplicate_key,
}
use innovents.Payments.Webhook.{Session}

abbrev pub is_plan : SubscriptionPlan → SubscriptionPlan → Bool
is_plan sponsor_monthly sponsor_monthly = true
is_plan sponsor_annual sponsor_annual = true
is_plan vendor_monthly vendor_monthly = true
is_plan vendor_annual vendor_annual = true
is_plan _ _ = false

-- `startsWith('SPONSOR_')`; all others start with `VENDOR_`.
abbrev pub is_sponsor_plan : SubscriptionPlan → Bool
is_sponsor_plan sponsor_monthly = true
is_sponsor_plan sponsor_annual = true
is_sponsor_plan _ = false

abbrev pub sponsor_profile_of : SubscriptionPlan → Option ℕ → Option ℕ
sponsor_profile_of plan profile = if is_sponsor_plan plan then profile else none

abbrev pub vendor_profile_of : SubscriptionPlan → Option ℕ → Option ℕ
vendor_profile_of plan profile = if is_sponsor_plan plan then none else profile

abbrev pub period_length : PlanConfig → ℕ
period_length c = (if c.is_yearly then 365 else 30) * 86400000

abbrev pub renew : PlanConfig → ℕ → Subscription → Subscription
renew c now u = record u {
  status = SubscriptionStatus.active;
  period_start = some now;
  period_end = some (now + period_length c);
  cancel_at_period_end = false;
}

abbrev pub new_subscription : ℕ → PlanConfig → ℕ → Option ℕ → ℕ → ℕ → Subscription
new_subscription id c user_id profile stripe_id now = record {
  id = id;
  user_id = user_id;
  sponsor_profile_id = sponsor_profile_of c.plan profile;
  vendor_profile_id = vendor_profile_of c.plan profile;
  plan = c.plan;
  status = SubscriptionStatus.active;
  amount = c.price;
  stripe_id = stripe_id;
  period_start = some now;
  period_end = some (now + period_length c);
  cancel_at_period_end = false;
  canceled_at = none;
}

-- `upsert`: the id of the row that was there, or of a new one.
abbrev pub upsert_found :
    Option Subscription → PlanConfig → ℕ → Option ℕ → ℕ → ℕ → Action State Error ℕ
upsert_found (some u) c user_id profile stripe_id now = do
  modify (λ s. record s {
    subscriptions = update_by subscription_key u.id (renew c now) s.subscriptions;
  })
  pure u.id
upsert_found none c user_id profile stripe_id now = do
  id ← gets (λ s. s.next_id)
  modify (λ s. record s {
    subscriptions = new_subscription id c user_id profile stripe_id now ∷ s.subscriptions;
    next_id = suc s.next_id;
  })
  pure id

-- A payment that has succeeded, as the webhook records it.
abbrev pub paid_row :
    ℕ → ℕ → Option ℕ → Option ℕ → ℕ → ℕ → Option ℕ → Option ℕ → Option ℕ → ℕ → Payment
paid_row id user_id sponsor_profile vendor_profile subscription_id amount session intent invoice
      now =
    record {
      id = id;
      user_id = user_id;
      sponsor_profile_id = sponsor_profile;
      vendor_profile_id = vendor_profile;
      subscription_id = some subscription_id;
      amount = amount;
      status = succeeded;
      purpose = PaymentPurpose.subscription;
      intent_id = intent;
      session_id = session;
      invoice_id = invoice;
      community_id = none;
      plan_id = none;
      paid_at = some now;
      failed_at = none;
      refunded_at = none;
      refund_amount = none;
      refund_reason = none;
      created_at = now;
    }

-- A unique column of the payments already holds the value.
abbrev pub payment_taken : Option ℕ → Option ℕ → State → Bool
payment_taken session intent s =
    test_or false (λ i. is_some (find (λ p. is_id i p.session_id) s.payments)) session
    || test_or false (λ i. is_some (find (λ p. is_id i p.intent_id) s.payments)) intent

unfoldable pub add_payment : (ℕ → Payment) → Action State Error (Unit {0})
add_payment row = do
  id ← gets (λ s. s.next_id)
  raise_if (← gets (payment_taken (row id).session_id (row id).intent_id)) duplicate_key
  modify (λ s. record s { payments = row id ∷ s.payments; next_id = suc s.next_id })

abbrev pub find_stripe : ℕ → State → Option Subscription
find_stripe stripe_id s = find_by (λ u. u.stripe_id) stripe_id s.subscriptions

abbrev pub note_activation : ℕ → Action State Error ℕ
note_activation id = do
  modify (λ s. record s { outbox = subscription_activated id ∷ s.outbox })
  pure id

-- The row of the payment for a plan.
abbrev pub plan_payment : Session → ℕ → SubscriptionPlan → ℕ → PlanConfig → ℕ → ℕ → Payment
plan_payment e user_id plan subscription_id c now k =
    paid_row k user_id (sponsor_profile_of plan e.profile_id) (vendor_profile_of plan e.profile_id)
      subscription_id c.price e.id e.intent_id none now

-- The subscription of a plan, its payment and its event.
abbrev pub subscribe_with :
    Session → ℕ → SubscriptionPlan → ℕ → ℕ → PlanConfig → Option Subscription → Action State Error ℕ
subscribe_with e user_id plan stripe_id now c found = do
  id ← upsert_found found c user_id e.profile_id stripe_id now
  add_payment (plan_payment e user_id plan id c now)
  note_activation id

abbrev pub subscribe_planned :
    Session → ℕ → SubscriptionPlan → ℕ → ℕ → Option PlanConfig → Action State Error ℕ
subscribe_planned e user_id plan stripe_id now none = raise plan_config_missing
subscribe_planned e user_id plan stripe_id now (some c) = do
  found ← gets (find_stripe stripe_id)
  subscribe_with e user_id plan stripe_id now c found

unfoldable pub subscribe_commit : Session → ℕ → SubscriptionPlan → ℕ → ℕ → Action State Error ℕ
subscribe_commit e user_id plan stripe_id now = do
  c ← gets (λ s. find (λ c. is_plan c.plan plan) s.plan_configs)
  subscribe_planned e user_id plan stripe_id now c

-- A session without a user, a plan or a subscription is left alone.
abbrev pub subscribe_known :
    Session → Option ℕ → Option SubscriptionPlan → Option ℕ → ℕ → Action State Error (Unit {0})
subscribe_known e (some user_id) (some plan) (some stripe_id) now = do
  id ← transaction (subscribe_commit e user_id plan stripe_id now)
  modify (λ s. record s { audit = audit_subscription_activated id ∷ s.audit })
subscribe_known e _ _ _ now = pure tt

unfoldable pub activate_subscription : Session → ℕ → Action State Error (Unit {0})
activate_subscription e now = subscribe_known e e.user_id e.plan e.subscription now
