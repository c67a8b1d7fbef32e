-- ===== src/Payments/Tables.antt =====
-- The tables that the payment services share (prisma/schema.prisma). Amounts are whole cents; ids of
-- the payment provider are only compared, and are numbers like the uuids.
use innovents.Accounts.{User}
use innovents.Shared.{
  ltb, ◌==◌, if◌then◌else◌, is_some, test_or, find, update_by, HttpStatus, Text, ℕ, Bool, true,
  false, not, ◌&&◌, Option, List,
}

pub data PaymentStatus : Type 0 where
  pending requires_action succeeded failed cancelled refunded partially_refunded : PaymentStatus

pub data PaymentPurpose : Type 0 where
  community_sponsorship subscription : PaymentPurpose

pub data SponsorshipStatus : Type 0 where
  pending_payment active expired cancelled refunded : SponsorshipStatus

pub data SubscriptionStatus : Type 0 where
  incomplete active past_due cancelled unpaid trialing : SubscriptionStatus

pub data SubscriptionPlan : Type 0 where
  sponsor_monthly sponsor_annual vendor_monthly vendor_annual : SubscriptionPlan

pub data WebhookStatus : Type 0 where
  pending processed failed ignored : WebhookStatus

-- `metadata` holds the community and the plan that a sponsorship is paid for.
pub record Payment : Type 0 where
  pub id : ℕ
  pub user_id : ℕ
  pub sponsor_profile_id : Option ℕ
  pub vendor_profile_id : Option ℕ
  pub subscription_id : Option ℕ
  pub amount : ℕ
  pub status : PaymentStatus
  pub purpose : PaymentPurpose
  pub intent_id : Option ℕ
  pub session_id : Option ℕ
  pub invoice_id : Option ℕ
  pub community_id : Option ℕ
  pub plan_id : Option ℕ
  pub paid_at : Option ℕ
  pub failed_at : Option ℕ
  pub refunded_at : Option ℕ
  pub refund_amount : Option ℕ
  pub refund_reason : Option Text
  pub created_at : ℕ

pub record Sponsorship : Type 0 where
  pub id : ℕ
  pub community_id : ℕ
  pub sponsor_id : ℕ
  pub user_id : ℕ
  pub plan_id : ℕ
  pub payment_id : ℕ
  pub status : SponsorshipStatus
  pub amount : ℕ
  pub sponsored_capacity : ℕ
  pub starts_at : ℕ
  pub ends_at : ℕ
  pub session_id : Option ℕ

pub record SponsorshipPlan : Type 0 where
  pub id : ℕ
  pub price : ℕ
  pub member_capacity : ℕ
  pub duration_days : ℕ
  pub is_active : Bool

pub record PlanConfig : Type 0 where
  pub id : ℕ
  pub plan : SubscriptionPlan
  pub price : ℕ
  pub is_yearly : Bool
  pub is_active : Bool

pub record Subscription : Type 0 where
  pub id : ℕ
  pub user_id : ℕ
  pub sponsor_profile_id : Option ℕ
  pub vendor_profile_id : Option ℕ
  pub plan : SubscriptionPlan
  pub status : SubscriptionStatus
  pub amount : ℕ
  pub stripe_id : ℕ
  pub period_start : Option ℕ
  pub period_end : Option ℕ
  pub cancel_at_period_end : Bool
  pub canceled_at : Option ℕ

pub record Community : Type 0 where
  pub id : ℕ
  pub member_capacity : ℕ
  pub is_sponsored : Bool
  pub is_pinned : Bool
  pub deleted_at : Option ℕ

-- A sponsor's or a vendor's profile.
pub record Profile : Type 0 where
  pub id : ℕ
  pub user_id : ℕ
  pub customer_id : Option ℕ

pub record WebhookRow : Type 0 where
  pub id : ℕ
  pub event_id : ℕ
  pub status : WebhookStatus
  pub processed_at : Option ℕ

-- The outbox events, by the row that they are about; a refund also with its amount, a number of
-- JavaScript.
pub data Message : Type 0 where
  payment_refunded : ℕ → ℕ → Message
  sponsorship_paid sponsorship_activated sponsorship_expired : ℕ → Message
  subscription_activated subscription_cancelled subscription_payment_failed : ℕ → Message
  subscription_renewed : ℕ → ℕ → Message

-- The audit entries, by the row that they are about.
pub data AuditEntry : Type 0 where
  sponsorship_checkout subscription_checkout audit_refunded : ℕ → AuditEntry
  audit_sponsorship_activated audit_sponsorship_expired : ℕ → AuditEntry
  audit_subscription_activated audit_subscription_cancelled : ℕ → AuditEntry

pub record State : Type 0 where
  pub users : List User
  pub sponsor_profiles : List Profile
  pub vendor_profiles : List Profile
  pub payments : List Payment
  pub sponsorships : List Sponsorship
  pub communities : List Community
  pub plans : List SponsorshipPlan
  pub plan_configs : List PlanConfig
  pub subscriptions : List Subscription
  pub webhooks : List WebhookRow
  pub outbox : List Message
  pub audit : List AuditEntry
  pub next_id : ℕ

pub data Error : Type 0 where
  user_not_found account_inactive not_sponsor not_vendor : Error
  community_not_found already_sponsored plan_not_found : Error
  payment_not_found not_refundable invalid_refund : Error
  already_subscribed subscription_not_found not_owner already_cancelled : Error
  invalid_signature plan_config_missing broken_reference duplicate_key provider_failed : Error

unfoldable pub http_status : Error → HttpStatus
http_status user_not_found = HttpStatus.not_found
http_status community_not_found = HttpStatus.not_found
http_status plan_not_found = HttpStatus.not_found
http_status payment_not_found = HttpStatus.not_found
http_status subscription_not_found = HttpStatus.not_found
http_status account_inactive = HttpStatus.forbidden
http_status not_sponsor = HttpStatus.forbidden
http_status not_vendor = HttpStatus.forbidden
http_status not_owner = HttpStatus.forbidden
http_status already_sponsored = HttpStatus.conflict
http_status already_subscribed = HttpStatus.conflict
http_status already_cancelled = HttpStatus.conflict
http_status not_refundable = HttpStatus.bad_request
http_status invalid_refund = HttpStatus.bad_request
http_status invalid_signature = HttpStatus.bad_request
http_status plan_config_missing = HttpStatus.bad_request
http_status _ = HttpStatus.internal

abbrev pub payment_key : Payment → ℕ
payment_key p = p.id

abbrev pub sponsorship_key : Sponsorship → ℕ
sponsorship_key h = h.id

abbrev pub community_key : Community → ℕ
community_key c = c.id

abbrev pub subscription_key : Subscription → ℕ
subscription_key u = u.id

abbrev pub webhook_key : WebhookRow → ℕ
webhook_key w = w.id

-- An optional id is that one.
abbrev pub is_id : ℕ → Option ℕ → Bool
is_id k o = test_or false (λ j. j == k) o

abbrev pub is_succeeded : PaymentStatus → Bool
is_succeeded succeeded = true
is_succeeded _ = false

abbrev pub is_pending : PaymentStatus → Bool
is_pending PaymentStatus.pending = true
is_pending _ = false

abbrev pub is_refunded : PaymentStatus → Bool
is_refunded PaymentStatus.refunded = true
is_refunded _ = false

abbrev pub is_active_sponsorship : SponsorshipStatus → Bool
is_active_sponsorship SponsorshipStatus.active = true
is_active_sponsorship _ = false

-- An active sponsorship of the community `c` that ends after `now`.
abbrev pub is_running : ℕ → ℕ → Sponsorship → Bool
is_running c now h = h.community_id == c && is_active_sponsorship h.status && ltb now h.ends_at

-- What a community is without a sponsor.
abbrev pub unsponsor : Community → Community
unsponsor c = record c { is_sponsored = false; is_pinned = false; member_capacity = 20 }

-- `if (!remaining) community.update(...)`, where `remaining` is another running sponsorship.
unfoldable pub release_community : ℕ → ℕ → ℕ → State → State
release_community sponsorship_id community_id now s =
    if is_some
      (find (λ h. is_running community_id now h && not (h.id == sponsorship_id)) s.sponsorships)
    then s
    else record s { communities = update_by community_key community_id unsponsor s.communities }

abbrev pub set_sponsorship : SponsorshipStatus → Sponsorship → Sponsorship
set_sponsorship st h = record h { status = st }
