-- ===== src/Rfq.antt =====
-- Requests for quotation between sponsors and vendors: src/modules/b2b-marketplace/services/, the
-- files rfq.service.ts, quotation.service.ts and rfq-expiration.service.ts.
pub mod Tables
pub mod Requests
pub mod Quotations
pub mod Expiration
pub mod Acceptance
pub mod Settled
pub mod Offers
pub mod Calls
pub mod Pricing
pub mod Versions
pub mod Finality
pub mod Gaps
pub mod Tests
pub mod Sweep
