-- ===== src/Payments/Checkout.antt =====
-- The checkouts and the cancellation of a subscription: PaymentsService
-- (src/modules/payments/services/payments.service.ts) and SubscriptionsService
-- (src/modules/subscriptions/services/subscriptions.service.ts). What the payment provider returns is
-- an argument; none stands for an exception of its client.
use innovents.Shared.{
  ◌==◌, if◌then◌else◌, is_some, or_default, or_else, find, find_by, update_by, Action, pure, gets,
  modify, raise_if, or_raise, when, ◌>>=◌, ◌>>◌, ℕ, suc, Bool, true, false, not, ◌&&◌, Option, none,
  some, List, [], ◌∷◌,
}
use innovents.Accounts.{is_active, is_sponsor, is_vendor, some_role, find_user, Role}
use innovents.Payments.Tables.{
  payment_key, subscription_key, is_running, PaymentStatus, SubscriptionStatus, SubscriptionPlan,
  Payment, SponsorshipPlan, Subscription, Profile, State, Error, community_sponsorship, trialing,
  subscription_cancelled, sponsorship_checkout, subscription_checkout, audit_subscription_cancelled,
  user_not_found, account_inactive, not_sponsor, not_vendor, community_not_found, already_sponsored,
  plan_not_found, already_subscribed, subscription_not_found, not_owner, already_cancelled,
  duplicate_key, provider_failed,
}
use innovents.Payments.Renewal.{is_plan, is_sponsor_plan, payment_taken}

-- The provider's answers: a new customer, and a session.
pub record Provider : Type 0 where
  pub customer : Option ℕ
  pub session : Option ℕ

abbrev pub profile_of : ℕ → List Profile → Option Profile
profile_of user_id ps = find_by (λ q. q.user_id) user_id ps

abbrev pub profile_key : Profile → ℕ
profile_key q = q.id

abbrev pub set_customer : ℕ → Profile → Profile
set_customer customer q = record q { customer_id = some customer }

-- The customer of a profile, or a new one, which is kept in its row.
abbrev pub get_customer : Provider → Bool → Profile → Option ℕ → Action State Error (Unit {0})
get_customer stripe is_sponsor_profile q (some customer) = pure tt
get_customer stripe is_sponsor_profile q none = do
  customer ← or_raise stripe.customer provider_failed
  when is_sponsor_profile (
      modify (λ s. record s {
        sponsor_profiles = update_by profile_key q.id (set_customer customer) s.sponsor_profiles;
      }))
  when (not is_sponsor_profile) (
      modify (λ s. record s {
        vendor_profiles = update_by profile_key q.id (set_customer customer) s.vendor_profiles;
      }))

-- The plan that is named, or the oldest; rows stand newest first.
unfoldable pub oldest_plan : List SponsorshipPlan → Option SponsorshipPlan
oldest_plan [] = none
oldest_plan (q ∷ qs) = or_else (oldest_plan qs) (if q.is_active then some q else none)

abbrev pub choose_plan : Option ℕ → State → Option SponsorshipPlan
choose_plan none s = oldest_plan s.plans
choose_plan (some k) s = find (λ q. q.id == k && q.is_active) s.plans

abbrev pub pending_payment : ℕ → ℕ → Profile → ℕ → SponsorshipPlan → ℕ → Payment
pending_payment id user_id q community_id plan now = record {
  id = id;
  user_id = user_id;
  sponsor_profile_id = some q.id;
  vendor_profile_id = none;
  subscription_id = none;
  amount = plan.price;
  status = PaymentStatus.pending;
  purpose = community_sponsorship;
  intent_id = none;
  session_id = none;
  invoice_id = none;
  community_id = some community_id;
  plan_id = some plan.id;
  paid_at = none;
  failed_at = none;
  refunded_at = none;
  refund_amount = none;
  refund_reason = none;
  created_at = now;
}

abbrev pub set_session : ℕ → Payment → Payment
set_session session p = record p { session_id = some session }

-- The checks of a sponsorship checkout: the sponsor's profile and the plan.
unfoldable pub check_checkout :
    ℕ → ℕ → Option ℕ → ℕ → Action State Error (Profile × SponsorshipPlan)
check_checkout user_id community_id plan_id now = do
  user ← or_raise (← gets (λ s. find_user user_id s.users)) user_not_found
  raise_if (not (is_active user.status)) account_inactive
  found ← gets (λ s. profile_of user_id s.sponsor_profiles)
  raise_if (not (some_role is_sponsor user.roles)) not_sponsor
  q ← or_raise found not_sponsor
  community ←
      or_raise
        (← gets (λ s. find (λ c. c.id == community_id && not (is_some c.deleted_at)) s.communities))
        community_not_found
  raise_if (← gets (λ s. is_some (find (is_running community_id now) s.sponsorships)))
      already_sponsored
  plan ← or_raise (← gets (choose_plan plan_id)) plan_not_found
  pure (q, plan)

-- The session of a new payment, which is noted on its row.
abbrev pub open_session : Option ℕ → ℕ → Action State Error ℕ
open_session answer id = do
  session ← or_raise answer provider_failed
  raise_if (← gets (payment_taken (some session) none)) duplicate_key
  modify (λ s. record s { payments = update_by payment_key id (set_session session) s.payments })
  modify (λ s. record s { audit = sponsorship_checkout id ∷ s.audit })
  pure id

abbrev pub start_payment : Option ℕ → ℕ → ℕ → ℕ → Profile × SponsorshipPlan → Action State Error ℕ
start_payment answer user_id community_id now (q, plan) = do
  id ← gets (λ s. s.next_id)
  modify (λ s. record s {
    payments = pending_payment id user_id q community_id plan now ∷ s.payments;
    next_id = suc s.next_id;
  })
  open_session answer id

-- `createCommunitySponsorshipCheckout`: the id of the payment.
unfoldable pub sponsorship_checkout_session : Provider → ℕ → ℕ → Option ℕ → ℕ → Action State Error ℕ
sponsorship_checkout_session stripe user_id community_id plan_id now = do
  found ← check_checkout user_id community_id plan_id now
  get_customer stripe true found.0 found.0.customer_id
  start_payment stripe.session user_id community_id now found

abbrev pub is_current : SubscriptionStatus → Bool
is_current SubscriptionStatus.active = true
is_current trialing = true
is_current _ = false

-- ACTIVE or TRIALING, and not to be cancelled.
abbrev pub runs_on : ℕ → SubscriptionPlan → Subscription → Bool
runs_on user_id plan u =
    u.user_id == user_id && is_plan u.plan plan && is_current u.status && not u.cancel_at_period_end

abbrev pub is_plan_role : SubscriptionPlan → Role → Bool
is_plan_role plan r = if is_sponsor_plan plan then is_sponsor r else is_vendor r

abbrev pub plan_profile : SubscriptionPlan → ℕ → State → Option Profile
plan_profile plan user_id s =
    if is_sponsor_plan plan
    then profile_of user_id s.sponsor_profiles
    else profile_of user_id s.vendor_profiles

abbrev pub profile_error : SubscriptionPlan → Error
profile_error plan = if is_sponsor_plan plan then not_sponsor else not_vendor

-- The checks of a subscription checkout: the profile of the role that the plan is for.
unfoldable pub check_subscriber : ℕ → SubscriptionPlan → Action State Error Profile
check_subscriber user_id plan = do
  user ← or_raise (← gets (λ s. find_user user_id s.users)) account_inactive
  raise_if (not (is_active user.status)) account_inactive
  c ← or_raise (← gets (λ s. find (λ c. is_plan c.plan plan) s.plan_configs)) plan_not_found
  raise_if (not c.is_active) plan_not_found
  raise_if (not (some_role (is_plan_role plan) user.roles)) (profile_error plan)
  q ← or_raise (← gets (plan_profile plan user_id)) (profile_error plan)
  raise_if (← gets (λ s. is_some (find (runs_on user_id plan) s.subscriptions))) already_subscribed
  pure q

-- SubscriptionsService.createCheckout: the session.
unfoldable pub subscription_checkout_session :
    Provider → ℕ → SubscriptionPlan → Action State Error ℕ
subscription_checkout_session stripe user_id plan = do
  q ← check_subscriber user_id plan
  get_customer stripe (is_sponsor_plan plan) q q.customer_id
  session ← or_raise stripe.session provider_failed
  modify (λ s. record s { audit = subscription_checkout session ∷ s.audit })
  pure session

abbrev pub cancel_at_once : ℕ → Subscription → Subscription
cancel_at_once now u = record u {
  status = SubscriptionStatus.cancelled;
  canceled_at = some now;
  cancel_at_period_end = false;
}

abbrev pub cancel_at_end : Subscription → Subscription
cancel_at_end u = record u { cancel_at_period_end = true }

-- The transaction of `cancelSubscription`.
abbrev pub cancel_writes : ℕ → Bool → ℕ → State → State
cancel_writes id true now s = record s {
  subscriptions = update_by subscription_key id (cancel_at_once now) s.subscriptions;
  outbox = subscription_cancelled id ∷ s.outbox;
}
cancel_writes id false now s = record s {
  subscriptions = update_by subscription_key id cancel_at_end s.subscriptions;
}

abbrev pub is_cancelled : SubscriptionStatus → Bool
is_cancelled SubscriptionStatus.cancelled = true
is_cancelled _ = false

-- `accepts` says whether the provider cancels too; it throws if not.
unfoldable pub cancel_subscription :
    Bool → ℕ → ℕ → Bool → Option Bool → ℕ → Action State Error (Unit {0})
cancel_subscription accepts id user_id by_admin immediately now = do
  u ← or_raise (← gets (λ s. find_by subscription_key id s.subscriptions)) subscription_not_found
  raise_if (not by_admin && not (u.user_id == user_id)) not_owner
  raise_if (is_cancelled u.status) already_cancelled
  raise_if (not accepts) provider_failed
  modify (cancel_writes id (or_default immediately false) now)
  modify (λ s. record s { audit = audit_subscription_cancelled id ∷ s.audit })
