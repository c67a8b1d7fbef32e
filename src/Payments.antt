-- ===== src/Payments.antt =====
-- Payments, sponsorships and subscriptions: src/modules/payments/services/,
-- src/modules/subscriptions/services/subscriptions.service.ts and
-- src/modules/communities/services/community-sponsorship-expiration.service.ts.
pub mod Tables
pub mod Refunds
pub mod Webhook
pub mod Renewal
pub mod Billing
pub mod Dispatch
pub mod Reconciliation
pub mod Sponsorships
pub mod Checkout
pub mod Sound
pub mod Flow
pub mod Events
pub mod Calls
pub mod Jobs
pub mod Run
pub mod Delivery
pub mod Once
pub mod Settlement
pub mod Tests
