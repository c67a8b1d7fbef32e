-- ===== src/Payments/Calls.antt =====
-- The methods that are called from outside keep the invariant of a payment and a community: refunds,
-- checkouts, cancellations and the provider's events.
use innovents.Payments.Checkout.{check_checkout, check_subscriber}
use innovents.Payments.Sound.{IsSound, payment-IsSound, close_sponsorship-IsSound, next-IsSound}
use innovents.Payments.Events.{dispatch-IsSound}
use innovents.Payments.Refunds.{
  is_refundable, refunded_so_far, max_refundable, target_refund, set_refund, cancel_sponsorship,
  refund_commit, refund_read, refund_payment,
}
use innovents.Payments.Dispatch.{
  dispatch, is_processed, set_processed, set_failed, find_webhook, claim_row, process_row,
  process_event, process_unless, handle_webhook, received,
}
use innovents.Payments.Webhook.{WebhookEvent}
use innovents.Payments.Tables.{
  payment_key, sponsorship_key, webhook_key, SponsorshipStatus, SubscriptionPlan, Payment,
  Sponsorship, WebhookRow, State, Error, payment_refunded, audit_refunded, payment_not_found,
  not_refundable, invalid_refund, provider_failed,
}
use innovents.Shared.{
  ltb, leb, ◌==◌, is_some, test_or, find_by, update_by, find_by_found, Action, gets, modify,
  raise_if, or_raise, when, ◌>>=◌, ◌>>◌, bind_keeps, noted_keeps, ok, Text, pos_part,
  is_nonpositive, ℤ, add_double, to_number, ℕ, ◌≡◌, refl, Bool, true, false, not, ◌&&◌, ◌||◌,
  Option, none, some, ◌∷◌, arith,
}

pub check_checkout_keeps :
    (user_id community_id : ℕ) (plan_id : Option ℕ) (now : ℕ) (s : State)
    → (check_checkout user_id community_id plan_id now s).1 ≡ s
unfolding check_checkout
check_checkout_keeps user_id community_id plan_id now s = ground arith

pub check_subscriber_keeps :
    (user_id : ℕ) (plan : SubscriptionPlan) (s : State) → (check_subscriber user_id plan s).1 ≡ s
unfolding check_subscriber
check_subscriber_keeps user_id plan s = ground arith

module _ (k c : ℕ) where
  cancel_sponsorship-IsSound :
      (o : Option Sponsorship) (payment_id now : ℕ) (s : State)
      → find_by (λ h. h.payment_id) payment_id s.sponsorships ≡ o
      → IsSound k c s
      → IsSound k c (cancel_sponsorship o now s)
  unfolding cancel_sponsorship
  cancel_sponsorship-IsSound none payment_id now s found h = h
  cancel_sponsorship-IsSound (some x) payment_id now s found h =
      close_sponsorship-IsSound k c SponsorshipStatus.cancelled x now s refl
        (ground (
          arith,
          find_by_found sponsorship_key (λ z. z.payment_id == payment_id) s.sponsorships x
              h.sponsorship_keys found,
        ))
        h

  refund_commit-IsSound :
      (p : Payment) (o : Option Sponsorship) (target : ℕ) (reason : Option Text)
      (payment_id now : ℕ) (s : State)
      → find_by (λ h. h.payment_id) payment_id s.sponsorships ≡ o
      → IsSound k c s
      → IsSound k c (refund_commit p o target reason now s).1
  unfolding refund_commit
  refund_commit-IsSound p o target reason payment_id now s found h =
      closed (leb (to_number p.amount) total)
    where
      total : ℕ
      total = add_double (refunded_so_far p) target

      t : State
      t = record s {
        payments = update_by payment_key p.id (set_refund total reason now) s.payments;
      }

      written : IsSound k c t
      written =
          payment-IsSound k c p.id (set_refund total reason now) s (λ x. refl) (λ x _. ground arith)
            h

      sent : Action State Error (Unit {0})
      sent r = (ok tt, record r { outbox = payment_refunded p.id target ∷ r.outbox })

      cancelled : Action State Error (Unit {0})
      cancelled r = (ok tt, cancel_sponsorship o now r)

      closed : (b : Bool) → IsSound k c ((when b cancelled >> sent) t).1
      closed true = cancel_sponsorship-IsSound o payment_id now t found written
      closed false = written

  refund_read-IsSound :
      (accepts : Bool) (p : Payment) (o : Option Sponsorship) (target : ℤ) (reason : Option Text)
      (now : ℕ) (s : State)
      → find_by (λ h. h.payment_id) p.id s.sponsorships ≡ o
      → IsSound k c s
      → IsSound k c (refund_read accepts p o target reason now s).1
  refund_read-IsSound accepts p o target reason now s found h =
      guarded (not (is_refundable p.status))
        (is_nonpositive target || ltb (max_refundable p) (pos_part target))
        (is_some p.intent_id && not accepts)
    where
      rest : Action State Error (Unit {0})
      rest =
          refund_commit p o (pos_part target) reason now
          >> modify (λ s. record s { audit = audit_refunded p.id ∷ s.audit })

      guarded :
          (x y z : Bool)
          → IsSound k c
              ((raise_if x not_refundable
                  >> (raise_if y invalid_refund >> (raise_if z provider_failed >> rest)))
                s).1
      guarded true y z = h
      guarded false true z = h
      guarded false false true = h
      guarded false false false =
          bind_keeps (IsSound k c) (refund_commit p o (pos_part target) reason now)
            (λ _. modify (λ s. record s { audit = audit_refunded p.id ∷ s.audit })) s
            (refund_commit-IsSound p o (pos_part target) reason p.id now s found h) (λ a t j. j)

  pub refund_payment-IsSound :
      (accepts : Bool) (payment_id : ℕ) (amount : Option ℤ) (reason : Option Text) (now : ℕ)
      (s : State)
      → IsSound k c s
      → IsSound k c (refund_payment accepts payment_id amount reason now s).1
  unfolding refund_payment
  refund_payment-IsSound accepts payment_id amount reason now s h =
      found (find_by payment_key payment_id s.payments)
    where
      found :
          (o : Option Payment)
          → IsSound k c
              ((or_raise o payment_not_found >>= λ p.
                  gets (λ s. find_by (λ h. h.payment_id) p.id s.sponsorships) >>= λ x.
                  refund_read accepts p x (target_refund p amount) reason now)
                s).1
      found none = h
      found (some p) =
          refund_read-IsSound accepts p (find_by (λ h. h.payment_id) p.id s.sponsorships)
            (target_refund p amount) reason now s refl h

  process_row-IsSound :
      (e : WebhookEvent) (now : ℕ) (s : State) (row : ℕ)
      → IsSound k c s
      → IsSound k c (process_row e now row s).1
  process_row-IsSound e now s row h =
      noted_keeps (IsSound k c) (dispatch e.payload now)
        (λ _ t. record t { webhooks = update_by webhook_key row (set_processed now) t.webhooks })
        (λ t. record t { webhooks = update_by webhook_key row set_failed t.webhooks }) received s
        (dispatch-IsSound k c e.payload now s h) (λ a t j. j) (λ t j. j)

  process_event-IsSound :
      (e : WebhookEvent) (now : ℕ) (s : State)
      → IsSound k c s
      → IsSound k c (process_event e now s).1
  unfolding process_event
  process_event-IsSound e now s h = claimed (find_webhook e.id s)
    where
      claimed :
          (o : Option WebhookRow)
          → IsSound k c ((claim_row e.id o >>= λ row. process_row e now row) s).1
      claimed (some w) = process_row-IsSound e now s w.id h
      claimed none =
          process_row-IsSound e now (claim_row e.id none s).1 s.next_id (next-IsSound k c s h)

  pub handle_webhook-IsSound :
      (o : Option WebhookEvent) (now : ℕ) (s : State)
      → IsSound k c s
      → IsSound k c (handle_webhook o now s).1
  unfolding handle_webhook
  handle_webhook-IsSound none now s h = h
  handle_webhook-IsSound (some e) now s h = seen (test_or false is_processed (find_webhook e.id s))
    where
      seen : (b : Bool) → IsSound k c (process_unless b e now s).1
      seen true = h
      seen false = process_event-IsSound e now s h
