-- ===== src/Payments/Delivery.antt =====
-- What an event of the provider leaves: nothing where it threw, and never a change of the webhook table
-- (StripeWebhookService.dispatch).
use innovents.Payments.Billing.{
  handle_updated, on_found, delete_commit, handle_deleted, invoice_commit, handle_invoice_paid,
  fail_commit, handle_invoice_failed, handle_charge_refunded,
}
use innovents.Payments.Flow.{activate_writes_keeps}
use innovents.Payments.Renewal.{
  add_payment, find_stripe, subscribe_commit, subscribe_known, activate_subscription,
}
use innovents.Payments.Dispatch.{is_mode, handle_checkout, dispatch}
use innovents.Payments.Webhook.{
  find_session_payment, activate_unless, activate_found, activate_sponsorship, Session, Payload,
  one_payment, recurring, checkout_completed, subscription_updated, subscription_deleted,
  invoice_paid, invoice_payment_failed, charge_refunded, unhandled,
}
use innovents.Payments.Tables.{
  is_succeeded, SubscriptionPlan, Payment, Subscription, State, Error, audit_sponsorship_activated,
  audit_subscription_activated,
}
use innovents.Shared.{
  if◌then◌else◌, is_some, or_default, bind_option, Action, pure, gets, modify, when, ◌>>=◌,
  transaction, Result, ok, err, ℕ, ◌≡◌, refl, Bool, true, false, ◌&&◌, ◌||◌, Option, none, some,
  ◌∷◌, arith,
}

-- A method that threw wrote nothing.
abbrev pub Unwritten : {A : Type 0} → State → Result Error A × State → Type 0
Unwritten s (ok a, t) = Unit
Unwritten s (err e, t) = t ≡ s

transaction-Unwritten :
    {A : Type 0} (m : Action State Error A) (s : State) → Unwritten s (transaction m s)
transaction-Unwritten {A} m s = go (m s)
  where
    go : (r : Result Error A × State) → Unwritten s (transaction (λ _. r) s)
    go (ok a, t) = tt
    go (err e, t) = refl

-- A write after a transaction does not throw.
written_after :
    {A : Type 0} (m : Action State Error A) (f : A → State → State) (s : State)
    → Unwritten s (m s)
    → Unwritten s ((m >>= λ a. modify (f a)) s)
written_after {A} m f s h = go (m s) h
  where
    go :
        (r : Result Error A × State)
        → Unwritten s r
        → Unwritten s (((λ _. r) >>= λ a. modify (f a)) s)
    go (ok a, t) j = tt
    go (err e, t) j = j

handle_checkout-Unwritten :
    (e : Session) (now : ℕ) (s : State) → Unwritten s (handle_checkout e now s)
unfolding handle_checkout activate_sponsorship activate_subscription
handle_checkout-Unwritten e now s =
    either (is_mode e.mode one_payment && e.pays_sponsorship)
      (is_mode e.mode recurring || e.pays_subscription)
  where
    activation : Action State Error (Option ℕ)
    activation = gets (find_session_payment e) >>= λ p. activate_found e p now

    note : Option ℕ → State → State
    note o t =
        (when {E = Error} (is_some o)
          (modify
            (λ t. record t { audit = audit_sponsorship_activated (or_default o 0) ∷ t.audit }))
          t).1

    noted :
        (o : Option ℕ) (t : State)
        → Unwritten s (
            when {E = Error}
              (is_some o)
              (modify
                (λ t. record t { audit = audit_sponsorship_activated (or_default o 0) ∷ t.audit }))
              t)
    noted none t = tt
    noted (some j) t = tt

    sponsored :
        (r : Result Error (Option ℕ) × State)
        → Unwritten s r
        → Unwritten s (
            ((λ _. r) >>= λ o. when (is_some o) (
                modify (λ t. record t {
                  audit = audit_sponsorship_activated (or_default o 0) ∷ t.audit;
                })))
              s)
    sponsored (ok o, t) h = noted o t
    sponsored (err x, t) h = h

    subscribed :
        (user_id : Option ℕ) (plan : Option SubscriptionPlan) (stripe_id : Option ℕ)
        → Unwritten s (subscribe_known e user_id plan stripe_id now s)
    subscribed none plan stripe_id = tt
    subscribed (some user_id) none stripe_id = tt
    subscribed (some user_id) (some plan) none = tt
    subscribed (some user_id) (some plan) (some stripe_id) =
        written_after (transaction (subscribe_commit e user_id plan stripe_id now))
          (λ id t. record t { audit = audit_subscription_activated id ∷ t.audit }) s
          (transaction-Unwritten (subscribe_commit e user_id plan stripe_id now) s)

    either :
        (a b : Bool)
        → Unwritten s (
            (if a
                then activate_sponsorship e now
                else if b
                then activate_subscription e now
                else pure tt)
              s)
    either true b = sponsored (transaction activation s) (transaction-Unwritten activation s)
    either false true = subscribed e.user_id e.plan e.subscription
    either false false = tt

pub dispatch-Unwritten : (e : Payload) (now : ℕ) (s : State) → Unwritten s (dispatch e now s)
unfolding dispatch handle_updated handle_deleted handle_invoice_paid handle_invoice_failed
    handle_charge_refunded
dispatch-Unwritten (checkout_completed e) now s = handle_checkout-Unwritten e now s
dispatch-Unwritten (subscription_updated e) now s = tt
dispatch-Unwritten (subscription_deleted stripe_id) now s = found (find_stripe stripe_id s)
  where
    found : (o : Option Subscription) → Unwritten s (on_found (delete_commit now) o s)
    found none = tt
    found (some u) = tt
dispatch-Unwritten (invoice_paid e) now s =
    transaction-Unwritten
      (on_found (invoice_commit e now) (bind_option e.subscription (λ j. find_stripe j s))) s
dispatch-Unwritten (invoice_payment_failed stripe_id) now s =
    found (bind_option stripe_id (λ j. find_stripe j s))
  where
    found : (o : Option Subscription) → Unwritten s (on_found fail_commit o s)
    found none = tt
    found (some u) = tt
dispatch-Unwritten (charge_refunded e) now s = tt
dispatch-Unwritten unhandled now s = tt

activate_webhooks :
    (e : Session) (o : Option Payment) (now : ℕ) (s : State)
    → (activate_found e o now s).1.webhooks ≡ s.webhooks
activate_webhooks e none now s = refl
activate_webhooks e (some p) now s = unless (is_succeeded p.status)
  where
    unless : (b : Bool) → (activate_unless b e p now s).1.webhooks ≡ s.webhooks
    unless true = refl
    unless false =
        activate_writes_keeps (λ t. t.webhooks ≡ s.webhooks) e p now s refl refl
          (λ plan owner_community sponsor_id owned free. refl)
          (λ plan owner_community sponsor_id community_id owned free named. refl)

activate_sponsorship_webhooks :
    (e : Session) (now : ℕ) (s : State) → (activate_sponsorship e now s).1.webhooks ≡ s.webhooks
unfolding activate_sponsorship
activate_sponsorship_webhooks e now s =
    noted (activate_found e (find_session_payment e s) now s)
      (activate_webhooks e (find_session_payment e s) now s)
  where
    noted :
        (r : Result Error (Option ℕ) × State)
        → r.1.webhooks ≡ s.webhooks
        → ((transaction (λ _. r) >>= λ o. when (is_some o) (
              modify
                (λ t. record t { audit = audit_sponsorship_activated (or_default o 0) ∷ t.audit })))
            s).1.webhooks
          ≡ s.webhooks
    noted (ok none, t) h = h
    noted (ok (some j), t) h = h
    noted (err x, t) h = refl

activate_subscription_webhooks :
    (e : Session) (now : ℕ) (s : State) → (activate_subscription e now s).1.webhooks ≡ s.webhooks
unfolding activate_subscription subscribe_commit add_payment
activate_subscription_webhooks e now s = ground arith

pub dispatch_webhooks :
    (e : Payload) (now : ℕ) (s : State) → (dispatch e now s).1.webhooks ≡ s.webhooks
unfolding dispatch handle_updated handle_deleted handle_invoice_paid handle_invoice_failed
    handle_charge_refunded handle_checkout add_payment
dispatch_webhooks (checkout_completed e) now s =
    ground (arith, activate_sponsorship_webhooks e now s, activate_subscription_webhooks e now s)
dispatch_webhooks (subscription_updated e) now s = ground arith
dispatch_webhooks (subscription_deleted stripe_id) now s = ground arith
dispatch_webhooks (invoice_paid e) now s = ground arith
dispatch_webhooks (invoice_payment_failed stripe_id) now s = ground arith
dispatch_webhooks (charge_refunded e) now s = ground arith
dispatch_webhooks unhandled now s = ground arith
