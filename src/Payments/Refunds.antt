-- ===== src/Payments/Refunds.antt =====
-- PaymentsService.refundPayment: src/modules/payments/services/payments.service.ts.
use innovents.Shared.{
  ltb, leb, if◌then◌else◌, is_some, or_default, find_by, update_by, Action, gets, modify, raise_if,
  or_raise, when, ◌>>=◌, ◌>>◌, Text, codes, or_text, pos_part, is_nonpositive, ℤ, pos, add_double,
  subtract_double, to_number, to_hundredths, ℕ, Bool, true, false, not, ◌&&◌, ◌||◌, Option, none,
  some, ◌∷◌,
}
use innovents.Payments.Tables.{
  payment_key, sponsorship_key, release_community, set_sponsorship, PaymentStatus,
  SponsorshipStatus, Payment, Sponsorship, State, Error, succeeded, partially_refunded,
  payment_refunded, audit_refunded, payment_not_found, not_refundable, invalid_refund,
  provider_failed,
}

-- SUCCEEDED and PARTIALLY_REFUNDED.
abbrev pub is_refundable : PaymentStatus → Bool
is_refundable succeeded = true
is_refundable partially_refunded = true
is_refundable _ = false

-- The amounts of the rows are hundredths, those of the request and of the calculation JavaScript's
-- numbers, which Shared/Double.antt says how to read.
abbrev pub refunded_so_far : Payment → ℕ
refunded_so_far p = to_number (or_default p.refund_amount 0)

-- A negative rest is cut off at 0, which is refused as well.
abbrev pub max_refundable : Payment → ℕ
max_refundable p = subtract_double (to_number p.amount) (refunded_so_far p)

-- The amount that is asked for, or all that is left.
abbrev pub target_refund : Payment → Option ℤ → ℤ
target_refund p amount = or_default amount (pos (max_refundable p))

unfoldable pub default_reason : Text
default_reason = codes "Admin processed refund"

abbrev pub set_refund : ℕ → Option Text → ℕ → Payment → Payment
set_refund total reason now p = record p {
  status = if leb (to_number p.amount) total then PaymentStatus.refunded else partially_refunded;
  refund_amount = some (to_hundredths total);
  refund_reason = or_text reason (some default_reason);
  refunded_at = some now;
}

-- What a full refund does to the sponsorship that was paid for.
unfoldable pub cancel_sponsorship : Option Sponsorship → ℕ → State → State
cancel_sponsorship none now s = s
cancel_sponsorship (some h) now s = release_community h.id h.community_id now (record s {
  sponsorships =
      update_by sponsorship_key h.id (set_sponsorship SponsorshipStatus.cancelled) s.sponsorships;
})

-- The transaction of `refundPayment`, on the rows that were read before it.
unfoldable pub refund_commit :
    Payment → Option Sponsorship → ℕ → Option Text → ℕ → Action State Error (Unit {0})
refund_commit p sponsorship target reason now = do
  let total = add_double (refunded_so_far p) target
  modify (λ s. record s {
    payments = update_by payment_key p.id (set_refund total reason now) s.payments;
  })
  when (leb (to_number p.amount) total) (modify (cancel_sponsorship sponsorship now))
  modify (λ s. record s { outbox = payment_refunded p.id target ∷ s.outbox })

-- `refundPayment` on the rows that it read. `accepts` says whether the payment provider makes the
-- refund; it throws if not.
abbrev pub refund_read :
    Bool → Payment → Option Sponsorship → ℤ → Option Text → ℕ → Action State Error (Unit {0})
refund_read accepts p sponsorship target reason now = do
  raise_if (not (is_refundable p.status)) not_refundable
  raise_if (is_nonpositive target || ltb (max_refundable p) (pos_part target)) invalid_refund
  raise_if (is_some p.intent_id && not accepts) provider_failed
  refund_commit p sponsorship (pos_part target) reason now
  modify (λ s. record s { audit = audit_refunded p.id ∷ s.audit })

unfoldable pub refund_payment :
    Bool → ℕ → Option ℤ → Option Text → ℕ → Action State Error (Unit {0})
refund_payment accepts payment_id amount reason now = do
  p ← or_raise (← gets (λ s. find_by payment_key payment_id s.payments)) payment_not_found
  sponsorship ← gets (λ s. find_by (λ h. h.payment_id) p.id s.sponsorships)
  refund_read accepts p sponsorship (target_refund p amount) reason now
