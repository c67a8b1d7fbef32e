-- ===== src/Payments/Tests.antt =====
-- Runs of the payment services on a sponsor, a community and one payment.
use innovents.Payments.Billing.{handle_charge_refunded}
use innovents.Accounts.{AccountStatus, User, sponsor}
use innovents.Payments.Checkout.{pending_payment, Provider}
use innovents.Payments.Sound.{IsSound}
use innovents.Payments.Run.{
  serve_all, serve_all-IsSound, Call, checkout_sponsorship, refund_one, receive, reconcile, expire,
}
use innovents.Payments.Once.{handle_webhook-again, handle_webhook-failed}
use innovents.Payments.Settlement.{
  activate_sponsorship-reconcile_by, refund_payment-handle_charge_refunded, refund_payment-short,
  activate_sponsorship-done, Activated,
}
use innovents.Payments.Reconciliation.{reconcile_by, Report, paid, session_expired}
use innovents.Payments.Refunds.{refunded_so_far, max_refundable, refund_payment}
use innovents.Payments.Dispatch.{
  handle_checkout, dispatch, process_event, handle_webhook, received, deduplicated,
}
use innovents.Payments.Webhook.{
  find_session_payment, set_paid, activate_writes, activate_sponsorship, Session, WebhookEvent,
  one_payment, checkout_completed,
}
use innovents.Payments.Tables.{
  payment_key, PaymentStatus, Payment, Sponsorship, SponsorshipPlan, Community, Profile, State,
  not_refundable, invalid_refund, broken_reference,
}
use innovents.Shared.{
  find_by, ok, err, pos, add_double, subtract_double, to_number, to_hundredths, ◌<◌, ◌≡◌, refl,
  true, false, none, some, List, [], ◌∷◌, map, arith,
}

abbrev buyer : User
buyer = record { id = 1; status = AccountStatus.active; deleted_at = none; roles = sponsor ∷ [] }

abbrev club : Community
club = record {
  id = 3;
  member_capacity = 20;
  is_sponsored = false;
  is_pinned = false;
  deleted_at = none;
}

abbrev month : SponsorshipPlan
month = record { id = 4; price = 5000; member_capacity = 100; duration_days = 30; is_active = true }

abbrev shop : Profile
shop = record { id = 2; user_id = 1; customer_id = none }

-- A payment of the session 7 for the community 3, which waits for the provider.
abbrev open_payment : Payment
open_payment = record (pending_payment 6 1 shop 3 month 50) { session_id = some 7 }

abbrev waiting : State
waiting = record {
  users = buyer ∷ [];
  sponsor_profiles = shop ∷ [];
  vendor_profiles = [];
  payments = open_payment ∷ [];
  sponsorships = [];
  communities = club ∷ [];
  plans = month ∷ [];
  plan_configs = [];
  subscriptions = [];
  webhooks = [];
  outbox = [];
  audit = [];
  next_id = 10;
}

-- The same payment when its money has come in, with the intent 8.
abbrev settled : State
settled = record waiting { payments = set_paid (some 8) 55 open_payment ∷ [] }

abbrev paid_session : Session
paid_session = record {
  id = some 7;
  mode = one_payment;
  subscription = none;
  intent_id = some 8;
  pays_sponsorship = true;
  pays_subscription = false;
  payment_id = some 6;
  community_id = some 3;
  plan_id = some 4;
  sponsor_profile_id = some 2;
  user_id = some 1;
  plan = none;
  profile_id = none;
}

abbrev paid_event : WebhookEvent
paid_event = record { id = 90; payload = checkout_completed paid_session }

abbrev answers : Provider
answers = record { customer = some 5; session = some 21 }

-- Another checkout, the event of the open payment twice, its refund, and the two jobs.
abbrev calls : List Call
calls =
    checkout_sponsorship answers 1 3 none 60
    ∷ receive (some paid_event) 70
    ∷ receive (some paid_event) 71
    ∷ refund_one true 6 none none 80
    ∷ reconcile (λ _. session_expired) (some 1) false 9000000
    ∷ expire 9000000
    ∷ []

waiting-IsSound : IsSound 6 3 waiting
waiting-IsSound = record {
  payment_keys = (tt, tt);
  payment_fresh = (omega arith, tt);
  sponsorship_keys = tt;
  sponsorship_fresh = tt;
  paid_once = omega arith;
  backed = omega arith;
}

serve_all-IsSound_example : IsSound 6 3 (serve_all calls waiting)
serve_all-IsSound_example = serve_all-IsSound 6 3 calls waiting waiting-IsSound

-- The first event makes one sponsorship of the community 3.
activated :
    map
      (λ (h : Sponsorship). h.community_id)
      (handle_webhook (some paid_event) 70 waiting).1.sponsorships
    ≡ 3 ∷ []
unfolding handle_webhook process_event dispatch handle_checkout activate_sponsorship activate_writes
    find_session_payment
activated = refl

handle_webhook-again_example :
    handle_webhook (some paid_event) 71 (handle_webhook (some paid_event) 70 waiting).1
    ≡ (ok deduplicated, (handle_webhook (some paid_event) 70 waiting).1)
unfolding handle_webhook process_event dispatch handle_checkout activate_sponsorship activate_writes
    find_session_payment
handle_webhook-again_example =
    handle_webhook-again paid_event 70 71 waiting (handle_webhook (some paid_event) 70 waiting).1
      received refl

-- The community was removed: the event fails.
abbrev orphaned : State
orphaned = record waiting { communities = [] }

handle_webhook-failed_example :
    ((handle_webhook (some paid_event) 70 orphaned).1 ≡ record orphaned {
      webhooks = (handle_webhook (some paid_event) 70 orphaned).1.webhooks;
      next_id = (handle_webhook (some paid_event) 70 orphaned).1.next_id;
    })
    × (handle_webhook (some paid_event) 71 (handle_webhook (some paid_event) 70 orphaned).1
        ≡ process_event paid_event 71 (handle_webhook (some paid_event) 70 orphaned).1)
unfolding handle_webhook process_event dispatch handle_checkout activate_sponsorship activate_writes
    find_session_payment
handle_webhook-failed_example =
    handle_webhook-failed paid_event 70 71 orphaned (handle_webhook (some paid_event) 70 orphaned).1
      broken_reference refl

abbrev blank : Report
blank = record { scanned = 1; succeeded = 0; failed = 0; unresolved = 0; errors = 0 }

activate_sponsorship-reconcile_by_example :
    ((reconcile_by false 55 open_payment (paid (some 8)) (blank, waiting)).1.sponsorships ≡ [])
    × (activate_sponsorship paid_session 70
          (reconcile_by false 55 open_payment (paid (some 8)) (blank, waiting)).1
        ≡ (ok tt, (reconcile_by false 55 open_payment (paid (some 8)) (blank, waiting)).1))
unfolding find_session_payment
activate_sponsorship-reconcile_by_example =
    activate_sponsorship-reconcile_by paid_session open_payment (some 8) 55 70 blank waiting
      (tt, tt) refl refl

refund_payment-handle_charge_refunded_example :
    refund_payment true 6 none none 80
      (handle_charge_refunded (record { intent_id = some 8; amount_refunded = some 1 }) 70 settled)
    ≡ (
      err not_refundable,
      handle_charge_refunded (record { intent_id = some 8; amount_refunded = some 1 }) 70 settled,
    )
refund_payment-handle_charge_refunded_example =
    refund_payment-handle_charge_refunded true 8 (some 1) none none 70 80 settled
      (set_paid (some 8) 55 open_payment) (tt, tt) refl

-- A payment of 476.31 that 142.79 was refunded of.
abbrev part_refunded : Payment
part_refunded = record (set_paid (some 8) 55 open_payment) {
  amount = 47631;
  status = PaymentStatus.partially_refunded;
  refund_amount = some 14279;
}

abbrev rest_open : State
rest_open = record waiting { payments = part_refunded ∷ [] }

rest_falls_short :
    add_double (refunded_so_far part_refunded) (max_refundable part_refunded) < to_number 47631
unfolding add_double subtract_double to_number
rest_falls_short = omega arith

rest_is_positive : 0 < max_refundable part_refunded
unfolding subtract_double to_number
rest_is_positive = omega arith

rest_is_stored :
    to_hundredths (add_double (refunded_so_far part_refunded) (max_refundable part_refunded))
    ≡ part_refunded.amount
unfolding add_double subtract_double to_number to_hundredths
rest_is_stored = refl

refund_payment-short_example :
    let t = (refund_payment true 6 none none 80 rest_open).1 in
    ((refund_payment true 6 none none 80 rest_open).0 ≡ ok tt)
    × ((q : Payment) × (find_by payment_key 6 t.payments ≡ some q)
        × (q.status ≡ PaymentStatus.partially_refunded)
        × (q.refund_amount ≡ some 47631))
    × (t.sponsorships ≡ rest_open.sponsorships)
    × (t.communities ≡ rest_open.communities)
    × (refund_payment true 6 (some (pos 1)) none 90 t ≡ (err invalid_refund, t))
refund_payment-short_example =
    refund_payment-short true 6 80 90 none none (some (pos 1)) rest_open part_refunded refl refl
      rest_is_positive rest_falls_short rest_is_stored

activate_sponsorship-done_example :
    ((activate_sponsorship paid_session 70 waiting).0 ≡ ok tt)
    × Activated paid_session open_payment month 3 2 70
        (activate_sponsorship paid_session 70 waiting).1
unfolding find_session_payment
activate_sponsorship-done_example =
    activate_sponsorship-done paid_session open_payment month club 4 3 2 70 waiting refl refl refl
      refl refl refl refl refl refl refl
