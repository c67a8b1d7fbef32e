-- ===== src/Lib.antt =====
-- The backend of INOVENT, a modular monolith over one PostgreSQL database: services that read and
-- write tables inside transactions, enqueue outbox events in the same transactions and write audit
-- entries after them.
--
-- How the program is modelled. Shared has the helpers. The state of a service is a record with a list
-- for each table that it reads or writes, newest row first, with the outbox and the audit log beside
-- them (Shared.Lists has the queries of the Prisma client over such lists). A method is an action on
-- that state (Shared.Method): it ends in a value or in a thrown exception, and what it wrote before a
-- throw stays written, unless it stood in a transaction, which rolls back. A method whose checks come
-- before its transaction has that transaction as a definition of its own, which takes the rows read
-- before it, so that statements about concurrent calls can give it rows that are out of date.
-- Transactions run one after another. Uuids and other identifiers are numbers, drawn for new rows from
-- the counter next_id; a time is a number of milliseconds and an argument of the call, the same at
-- each reading of one clock; money is whole cents, except where refunds calculate with JavaScript's
-- floating-point numbers (Shared.Double, which takes those that are finite and not negative as
-- multiples of 2^-1074); text is a list of character codes. Exceptions are the constructors of each
-- component's Error; http_status gives their class. Row data that a method
-- neither tests nor reports may be left out of a table.
--
--   Accounts      the account data that services test (prisma/schema.prisma: User, UserRole)
--   Payments      src/modules/payments/services/: payments.service.ts (Payments.Refunds and
--                 Payments.Checkout), stripe-webhook.service.ts (Payments.Dispatch, with the events of
--                 a sponsorship in Payments.Webhook, a subscription's start in Payments.Renewal and
--                 the others in Payments.Billing),
--                 payment-reconciliation.service.ts (Payments.Reconciliation);
--                 src/modules/subscriptions/services/subscriptions.service.ts (Payments.Checkout);
--                 src/modules/communities/services/community-sponsorship-expiration.service.ts
--                 (Payments.Sponsorships); and the tables that they share (Payments.Tables). What the
--                 payment provider answers is an argument of the call. Users and profiles that a
--                 session's metadata names are taken to exist
--   Communities   src/modules/communities/services/: communities.service.ts (Communities.Lifecycle),
--                 community-members.service.ts (Communities.Members), community-meetups.service.ts
--                 (Communities.Meetups), community-posts.service.ts and togglePostLike
--                 (Communities.Posts), community-replies.service.ts and toggleReplyLike
--                 (Communities.Replies), community-authorization.service.ts (Communities.Access) and
--                 the tables that they share (Communities.Tables), with the sponsorships of Payments
--   Registration  src/modules/events/services/event-registration.service.ts
--   Bookings      src/modules/c2b-marketplace/services/c2b-bookings.service.ts
--   Coupons       src/modules/c2b-marketplace/services/coupons.service.ts
--   Tokens        src/modules/auth/services/token.service.ts (Tokens.Ttl: its parsing of a token life),
--                 with set and exists of src/infrastructure/cache/redis.service.ts; a refresh
--                 token lives whole days of 24 hours, as in UTC; only logins without a family
--                 of their own stand in the sequences of calls, as in the callers
--   Csv           src/modules/admin/utils/csv-export.util.ts; the text of a cell by String(val) is
--                 given
--   Otp           src/modules/auth/services/otp.service.ts; the hash is a parameter and the random
--                 code an argument
--   Rfq           src/modules/b2b-marketplace/services/: rfq.service.ts (Rfq.Requests),
--                 quotation.service.ts (Rfq.Quotations), rfq-expiration.service.ts (Rfq.Expiration)
--                 and the tables that they share (Rfq.Tables). The queue service, which is
--                 injected optionally, is taken to be there. The query of a sweep has no order; the
--                 model takes the newest RFQs first. The sweep's catch of a database error has no
--                 counterpart, since no write of the model fails.
--
-- Not modelled: paginated reads, the mapping of rows to response objects, logging, IP addresses and
-- user agents of audit entries, and the third-party services. The loops of the modelled code run over
-- lists, so no fuel is needed; the rounding of Shared.Double halves a number 2100 times at most, which
-- is enough for all numbers below 2^2153, while the greatest one is below 2^2098.
pub mod Shared
pub mod Accounts
pub mod Payments
pub mod Communities
pub mod Registration
pub mod Bookings
pub mod Coupons
pub mod Rfq
pub mod Otp
pub mod Tokens
pub mod Csv
