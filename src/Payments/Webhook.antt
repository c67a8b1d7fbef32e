-- ===== src/Payments/Webhook.antt =====
-- StripeWebhookService: src/modules/payments/services/stripe-webhook.service.ts. The payload of an
-- event is given field by field, as the handlers read it; the check of its signature is the provider's.
use innovents.Shared.{
  ◌==◌, if◌then◌else◌, is_some, or_default, bind_option, or_else, find, find_by, update_by, Action,
  pure, gets, modify, raise_if, or_raise, when, ◌>>=◌, ◌>>◌, transaction, ℕ, suc, ◌+◌, ◌*◌, Bool,
  true, false, not, ◌&&◌, ◌||◌, Option, none, some, ◌∷◌,
}
use innovents.Payments.Tables.{
  payment_key, community_key, is_id, is_succeeded, SponsorshipStatus, SubscriptionPlan, Payment,
  Sponsorship, SponsorshipPlan, Community, State, Error, succeeded, sponsorship_paid,
  sponsorship_activated, audit_sponsorship_activated, broken_reference, duplicate_key,
}

-- `mode`
pub data Mode : Type 0 where
  one_payment recurring other_mode : Mode

-- A checkout session; the last fields stand in its `metadata`.
pub record Session : Type 0 where
  pub id : Option ℕ
  pub mode : Mode
  pub subscription : Option ℕ
  pub intent_id : Option ℕ
  pub pays_sponsorship : Bool
  pub pays_subscription : Bool
  pub payment_id : Option ℕ
  pub community_id : Option ℕ
  pub plan_id : Option ℕ
  pub sponsor_profile_id : Option ℕ
  pub user_id : Option ℕ
  pub plan : Option SubscriptionPlan
  pub profile_id : Option ℕ

-- `status` of a subscription at the provider; any other text is `other_status`.
pub data StripeStatus : Type 0 where
  stripe_active stripe_trialing stripe_past_due stripe_canceled stripe_unpaid : StripeStatus
  stripe_incomplete other_status : StripeStatus

-- A subscription; times are in seconds.
pub record StripeSubscription : Type 0 where
  pub id : ℕ
  pub status : StripeStatus
  pub cancel_at_period_end : Option Bool
  pub period_start : Option ℕ
  pub period_end : Option ℕ

-- An invoice; `amount_paid` is in cents.
pub record Invoice : Type 0 where
  pub id : Option ℕ
  pub subscription : Option ℕ
  pub amount_paid : Option ℕ
  pub period_end : Option ℕ

pub record Charge : Type 0 where
  pub intent_id : Option ℕ
  pub amount_refunded : Option ℕ

-- What the event is about, by its `type`.
pub data Payload : Type 0 where
  checkout_completed : Session → Payload
  subscription_updated : StripeSubscription → Payload
  subscription_deleted : ℕ → Payload
  invoice_paid : Invoice → Payload
  invoice_payment_failed : Option ℕ → Payload
  charge_refunded : Charge → Payload
  unhandled : Payload

pub record WebhookEvent : Type 0 where
  pub id : ℕ
  pub payload : Payload

-- By the id in the metadata, or else by the session.
unfoldable pub find_session_payment : Session → State → Option Payment
find_session_payment e s =
    or_else (bind_option e.payment_id (λ k. find_by payment_key k s.payments))
      (bind_option e.id (λ j. find (λ p. is_id j p.session_id) s.payments))

abbrev pub set_paid : Option ℕ → ℕ → Payment → Payment
set_paid intent now p = record p { status = succeeded; paid_at = some now; intent_id = intent }

-- `c || d`, which takes 0 for absent.
abbrev pub or_nonzero : ℕ → ℕ → ℕ
or_nonzero n d = if n == 0 then d else n

abbrev pub sponsor_community : ℕ → Community → Community
sponsor_community capacity c = record c {
  is_sponsored = true;
  is_pinned = true;
  member_capacity = capacity;
}

abbrev pub new_sponsorship : ℕ → Session → Payment → SponsorshipPlan → ℕ → ℕ → ℕ → ℕ → Sponsorship
new_sponsorship id e p plan community_id sponsor_id user_id now = record {
  id = id;
  community_id = community_id;
  sponsor_id = sponsor_id;
  user_id = user_id;
  plan_id = plan.id;
  payment_id = p.id;
  status = SponsorshipStatus.active;
  amount = p.amount;
  sponsored_capacity = or_nonzero plan.member_capacity 500;
  starts_at = now;
  ends_at = now + or_nonzero plan.duration_days 30 * 24 * 60 * 60 * 1000;
  session_id = e.id;
}

-- Another payment has the intent, or another sponsorship has the payment or the session.
abbrev pub intent_taken : ℕ → Option ℕ → State → Bool
intent_taken payment_id none s = false
intent_taken payment_id (some i) s =
    is_some (find (λ p. is_id i p.intent_id && not (p.id == payment_id)) s.payments)

abbrev pub session_taken : Option ℕ → State → Bool
session_taken none s = false
session_taken (some i) s = is_some (find (λ h. is_id i h.session_id) s.sponsorships)

abbrev pub sponsorship_taken : ℕ → Option ℕ → State → Bool
sponsorship_taken payment_id session s =
    is_some (find_by (λ h. h.payment_id) payment_id s.sponsorships) || session_taken session s

-- The writes that activate a sponsorship. The row of the plan and the ids must exist, and the unique
-- columns be free: the database refuses the row if not.
unfoldable pub activate_writes : Session → Payment → ℕ → Action State Error (Option ℕ)
activate_writes e p now = do
  plan_id ← or_raise (or_else e.plan_id p.plan_id) broken_reference
  found ← gets (λ s. find (λ q. q.id == plan_id) s.plans)
  raise_if (← gets (intent_taken p.id e.intent_id)) duplicate_key
  modify (λ s. record s {
    payments = update_by payment_key p.id (set_paid e.intent_id now) s.payments;
  })
  plan ← or_raise found broken_reference
  owner_community ← or_raise (or_else e.community_id p.community_id) broken_reference
  sponsor_id ← or_raise (or_else e.sponsor_profile_id p.sponsor_profile_id) broken_reference
  raise_if (← gets (sponsorship_taken p.id e.id)) duplicate_key
  id ← gets (λ s. s.next_id)
  modify (λ s. record s {
    sponsorships =
        new_sponsorship id e p plan owner_community sponsor_id (or_default e.user_id p.user_id) now
        ∷ s.sponsorships;
    next_id = suc s.next_id;
  })
  community_id ← or_raise e.community_id broken_reference
  raise_if (not (is_some (← gets (λ s. find_by community_key community_id s.communities))))
      broken_reference
  modify (λ s. record s {
    communities =
        update_by community_key community_id
          (sponsor_community (or_nonzero plan.member_capacity 500)) s.communities;
    outbox = sponsorship_activated id ∷ sponsorship_paid id ∷ s.outbox;
  })
  pure (some id)

-- Nothing happens for a payment that has succeeded, nor for a session without a payment.
abbrev pub activate_unless : Bool → Session → Payment → ℕ → Action State Error (Option ℕ)
activate_unless true e p now = pure none
activate_unless false e p now = activate_writes e p now

abbrev pub activate_found : Session → Option Payment → ℕ → Action State Error (Option ℕ)
activate_found e none now = pure none
activate_found e (some p) now = activate_unless (is_succeeded p.status) e p now

unfoldable pub activate_sponsorship : Session → ℕ → Action State Error (Unit {0})
activate_sponsorship e now = do
  created ← transaction (gets (find_session_payment e) >>= λ p. activate_found e p now)
  when (is_some created) (
      modify
        (λ s. record s { audit = audit_sponsorship_activated (or_default created 0) ∷ s.audit }))
