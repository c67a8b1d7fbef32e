-- ===== src/Payments/Run.antt =====
-- The calls of the payment services in sequence: requests, the provider's events and the scheduled
-- jobs, on the tables that they share.
use innovents.Payments.Renewal.{is_sponsor_plan, payment_taken}
use innovents.Payments.Refunds.{refund_payment}
use innovents.Payments.Dispatch.{handle_webhook}
use innovents.Payments.Jobs.{sweep-IsSound, reconcile_stale-IsSound}
use innovents.Payments.Calls.{
  check_checkout_keeps, check_subscriber_keeps, refund_payment-IsSound, handle_webhook-IsSound,
}
use innovents.Payments.Checkout.{
  get_customer, pending_payment, set_session, check_checkout, open_session, start_payment,
  sponsorship_checkout_session, check_subscriber, subscription_checkout_session, cancel_writes,
  is_cancelled, cancel_subscription, Provider,
}
use innovents.Payments.Webhook.{WebhookEvent}
use innovents.Payments.Reconciliation.{reconcile_stale, Lookup}
use innovents.Payments.Sponsorships.{sweep_expired_sponsorships}
use innovents.Payments.Sound.{IsSound, payment-IsSound, new_payment-IsSound}
use innovents.Payments.Tables.{
  payment_key, subscription_key, SubscriptionPlan, Subscription, Profile, State, Error,
  sponsorship_checkout, subscription_checkout, audit_subscription_cancelled, subscription_not_found,
  not_owner, already_cancelled, duplicate_key, provider_failed,
}
use innovents.Shared.{
  ◌==◌, or_default, find_by, update_by, Action, pure, modify, raise_if, or_raise, ◌>>=◌, ◌>>◌,
  bind_keeps, ok, Text, ℤ, ℕ, suc, refl, sym, subst, Bool, true, false, not, ◌&&◌, Option, none,
  some, List, [], ◌∷◌,
}

pub data Call : Type 0 where
  -- the provider's answers, the user, the community, the plan and the time
  checkout_sponsorship : Provider → ℕ → ℕ → Option ℕ → ℕ → Call
  checkout_subscription : Provider → ℕ → SubscriptionPlan → Call
  -- the provider's answer, the subscription, the user, whether it is an administrator, and the time
  cancel_one : Bool → ℕ → ℕ → Bool → Option Bool → ℕ → Call
  -- the provider's answer, the payment, the amount, the reason and the time
  refund_one : Bool → ℕ → Option ℤ → Option Text → ℕ → Call
  receive : Option WebhookEvent → ℕ → Call
  -- the provider's answers by session, the age in minutes, and the time
  reconcile : (ℕ → Lookup) → Option ℕ → Bool → ℕ → Call
  expire : ℕ → Call

-- The tables after a call, whether it returned or threw.
unfoldable pub serve : Call → State → State
serve (checkout_sponsorship stripe user_id community_id plan_id now) s =
    (sponsorship_checkout_session stripe user_id community_id plan_id now s).1
serve (checkout_subscription stripe user_id plan) s =
    (subscription_checkout_session stripe user_id plan s).1
serve (cancel_one accepts id user_id by_admin immediately now) s =
    (cancel_subscription accepts id user_id by_admin immediately now s).1
serve (refund_one accepts payment_id amount reason now) s =
    (refund_payment accepts payment_id amount reason now s).1
serve (receive verified now) s = (handle_webhook verified now s).1
serve (reconcile stripe minutes dry_run now) s = (reconcile_stale stripe minutes dry_run now s).1
serve (expire now) s = (sweep_expired_sponsorships now s).1

unfoldable pub serve_all : List Call → State → State
serve_all [] s = s
serve_all (r ∷ rs) s = serve_all rs (serve r s)

module _ (k c : ℕ) where
  get_customer-IsSound :
      (stripe : Provider) (is_sponsor_profile : Bool) (q : Profile) (o : Option ℕ) (s : State)
      → IsSound k c s
      → IsSound k c (get_customer stripe is_sponsor_profile q o s).1
  get_customer-IsSound stripe is_sponsor_profile q (some customer) s h = h
  get_customer-IsSound stripe is_sponsor_profile q none s h =
      answered stripe.customer is_sponsor_profile
    where
      answered :
          (o : Option ℕ) (b : Bool)
          → IsSound k c (get_customer (record stripe { customer = o }) b q none s).1
      answered none b = h
      answered (some j) true = h
      answered (some j) false = h

  open_session-IsSound :
      (answer : Option ℕ) (id : ℕ) (s : State)
      → IsSound k c s
      → IsSound k c (open_session answer id s).1
  open_session-IsSound none id s h = h
  open_session-IsSound (some session) id s h = free (payment_taken (some session) none s)
    where
      noted : Action State Error ℕ
      noted t = (
        ok id,
        record t {
          payments = update_by payment_key id (set_session session) t.payments;
          audit = sponsorship_checkout id ∷ t.audit;
        },
      )

      free : (b : Bool) → IsSound k c ((raise_if b duplicate_key >> noted) s).1
      free true = h
      free false = payment-IsSound k c id (set_session session) s (λ x. refl) (λ x paid. paid) h

  checkout_sponsorship-IsSound :
      (stripe : Provider) (user_id community_id : ℕ) (plan_id : Option ℕ) (now : ℕ) (s : State)
      → IsSound k c s
      → IsSound k c (sponsorship_checkout_session stripe user_id community_id plan_id now s).1
  unfolding sponsorship_checkout_session
  checkout_sponsorship-IsSound stripe user_id community_id plan_id now s h =
      bind_keeps (IsSound k c) (check_checkout user_id community_id plan_id now)
        (λ found.
          get_customer stripe true found.0 found.0.customer_id
          >> start_payment stripe.session user_id community_id now found)
        s (subst (IsSound k c) (sym (check_checkout_keeps user_id community_id plan_id now s)) h)
        (λ found t sound.
          bind_keeps (IsSound k c) (get_customer stripe true found.0 found.0.customer_id)
            (λ _. start_payment stripe.session user_id community_id now found) t
            (get_customer-IsSound stripe true found.0 found.0.customer_id t sound)
            (λ _ u started.
              open_session-IsSound stripe.session u.next_id
                (record u {
                  payments =
                      pending_payment u.next_id user_id found.0 community_id found.1 now
                      ∷ u.payments;
                  next_id = suc u.next_id;
                })
                (new_payment-IsSound k c
                  (pending_payment u.next_id user_id found.0 community_id found.1 now) u refl
                  started)))

  checkout_subscription-IsSound :
      (stripe : Provider) (user_id : ℕ) (plan : SubscriptionPlan) (s : State)
      → IsSound k c s
      → IsSound k c (subscription_checkout_session stripe user_id plan s).1
  unfolding subscription_checkout_session
  checkout_subscription-IsSound stripe user_id plan s h =
      bind_keeps (IsSound k c) (check_subscriber user_id plan)
        (λ q. get_customer stripe (is_sponsor_plan plan) q q.customer_id >> opened stripe.session) s
        (subst (IsSound k c) (sym (check_subscriber_keeps user_id plan s)) h)
        (λ q t sound.
          bind_keeps (IsSound k c) (get_customer stripe (is_sponsor_plan plan) q q.customer_id)
            (λ _. opened stripe.session) t
            (get_customer-IsSound stripe (is_sponsor_plan plan) q q.customer_id t sound)
            (λ _ u started. opened-IsSound stripe.session u started))
    where
      opened : Option ℕ → Action State Error ℕ
      opened o = or_raise o provider_failed >>= λ session.
          modify (λ s. record s { audit = subscription_checkout session ∷ s.audit }) >> pure session

      opened-IsSound : (o : Option ℕ) (u : State) → IsSound k c u → IsSound k c (opened o u).1
      opened-IsSound none u j = j
      opened-IsSound (some session) u j = j

  cancel_subscription-IsSound :
      (accepts : Bool) (id user_id : ℕ) (by_admin : Bool) (immediately : Option Bool) (now : ℕ)
      (s : State)
      → IsSound k c s
      → IsSound k c (cancel_subscription accepts id user_id by_admin immediately now s).1
  unfolding cancel_subscription
  cancel_subscription-IsSound accepts id user_id by_admin immediately now s h =
      found (find_by subscription_key id s.subscriptions)
    where
      noted : Bool → Action State Error (Unit {0})
      noted b =
          modify (cancel_writes id b now)
          >> modify (λ s. record s { audit = audit_subscription_cancelled id ∷ s.audit })

      guarded :
          (x y z b : Bool)
          → IsSound k c
              ((raise_if x not_owner
                  >> (raise_if y already_cancelled >> (raise_if z provider_failed >> noted b)))
                s).1
      guarded true y z b = h
      guarded false true z b = h
      guarded false false true b = h
      guarded false false false true = h
      guarded false false false false = h

      found :
          (o : Option Subscription)
          → IsSound k c
              ((or_raise o subscription_not_found >>= λ u.
                  raise_if (not by_admin && not (u.user_id == user_id)) not_owner
                  >> (raise_if (is_cancelled u.status) already_cancelled
                      >> (raise_if (not accepts) provider_failed
                          >> noted (or_default immediately false))))
                s).1
      found none = h
      found (some u) =
          guarded (not by_admin && not (u.user_id == user_id)) (is_cancelled u.status) (not accepts)
            (or_default immediately false)

  serve-IsSound : (r : Call) (s : State) → IsSound k c s → IsSound k c (serve r s)
  unfolding serve
  serve-IsSound (checkout_sponsorship stripe user_id community_id plan_id now) s h =
      checkout_sponsorship-IsSound stripe user_id community_id plan_id now s h
  serve-IsSound (checkout_subscription stripe user_id plan) s h =
      checkout_subscription-IsSound stripe user_id plan s h
  serve-IsSound (cancel_one accepts id user_id by_admin immediately now) s h =
      cancel_subscription-IsSound accepts id user_id by_admin immediately now s h
  serve-IsSound (refund_one accepts payment_id amount reason now) s h =
      refund_payment-IsSound k c accepts payment_id amount reason now s h
  serve-IsSound (receive verified now) s h = handle_webhook-IsSound k c verified now s h
  serve-IsSound (reconcile stripe minutes dry_run now) s h =
      reconcile_stale-IsSound k c stripe minutes dry_run now s h
  serve-IsSound (expire now) s h = sweep-IsSound k c now s h

-- Whatever is called, and in whatever order, a payment has at most one sponsorship and none before its
-- money came in, and a community is sponsored only while one of its sponsorships is active.
pub serve_all-IsSound :
    (k c : ℕ) (rs : List Call) (s : State) → IsSound k c s → IsSound k c (serve_all rs s)
unfolding serve_all
serve_all-IsSound k c [] s h = h
serve_all-IsSound k c (r ∷ rs) s h = serve_all-IsSound k c rs (serve r s) (serve-IsSound k c r s h)
