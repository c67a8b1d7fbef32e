-- ===== src/Payments/Events.antt =====
-- Every event of the payment provider keeps the invariant of a payment and a community.
use innovents.Payments.Billing.{
  handle_updated, on_found, delete_commit, handle_deleted, note_renewal, invoice_payment,
  invoice_commit, handle_invoice_paid, fail_commit, handle_invoice_failed, set_charge_refunded,
  charge_commit, handle_charge_refunded,
}
use innovents.Payments.Dispatch.{is_mode, handle_checkout, dispatch}
use innovents.Payments.Flow.{activate_writes-IsSound}
use innovents.Payments.Sound.{IsSound, payment-IsSound, new_payment-IsSound, next-IsSound}
use innovents.Payments.Renewal.{
  is_plan, upsert_found, add_payment, find_stripe, note_activation, plan_payment, subscribe_with,
  subscribe_planned, subscribe_commit, subscribe_known, activate_subscription,
}
use innovents.Payments.Webhook.{
  find_session_payment, activate_unless, activate_found, activate_sponsorship, Session, Invoice,
  Charge, Payload, one_payment, recurring, checkout_completed, subscription_updated,
  subscription_deleted, invoice_paid, invoice_payment_failed, charge_refunded, unhandled,
}
use innovents.Shared.{
  ◌==◌, if◌then◌else◌, is_some, or_default, bind_option, Option-cases, find, find_by, update_by,
  Unique, find_by_found, Action, pure, gets, modify, when, ◌>>=◌, ◌>>◌, transaction,
  transaction_keeps, Result, ok, err, to_number, ℕ, suc, ◌≡◌, refl, inl, inr, Bool, true, false,
  ◌&&◌, ◌||◌, Option, none, some, ◌∷◌, arith,
}
use innovents.Payments.Tables.{
  payment_key, is_id, is_succeeded, is_refunded, SubscriptionPlan, Payment, PlanConfig,
  Subscription, State, Error, payment_refunded, audit_sponsorship_activated,
  audit_subscription_activated,
}

-- The payment of a session is the row with its id.
pub find_session_payment-found :
    (e : Session) (s : State) (p : Payment)
    → Unique payment_key s.payments
    → find_session_payment e s ≡ some p
    → find_by payment_key p.id s.payments ≡ some p
unfolding find_session_payment
find_session_payment-found e s p u found =
    elim (Option-cases (bind_option e.payment_id (λ k. find_by payment_key k s.payments))) [
      | inl unnamed ↦ elim (Option-cases e.id) [
        | inl none_named ↦ ground arith
        | inr (j, named) ↦
            find_by_found payment_key (λ x. is_id j x.session_id) s.payments p u (ground arith)
      ]
      | inr (q, first) ↦ elim (Option-cases e.payment_id) [
        | inl none_named ↦ ground arith
        | inr (j, named) ↦
            find_by_found payment_key (λ x. payment_key x == j) s.payments p u (ground arith)
      ]
    ]

add_payment_keeps :
    (P : State → Type 0) (row : ℕ → Payment) (s : State)
    → P s
    → P (record s { payments = row s.next_id ∷ s.payments; next_id = suc s.next_id })
    → P (add_payment row s).1
unfolding add_payment
add_payment_keeps P row s before after = ground arith

-- What comes after a new payment.
add_payment_then_keeps :
    {A : Type 0} (P : State → Type 0) (row : ℕ → Payment) (f : Action State Error A) (s : State)
    → P (add_payment row s).1
    → ((t : State) → P t → P (f t).1)
    → P ((add_payment row >> f) s).1
add_payment_then_keeps {A} P row f s after keep = go (add_payment row s) after
  where
    go : (out : Result Error (Unit {0}) × State) → P out.1 → P (((λ _. out) >> f) s).1
    go (ok a, t) h = keep t h
    go (err e, t) h = h

-- A write after a method that names its result.
audited_keeps :
    {A : Type 0} (P : State → Type 0) (m : Action State Error (Option A))
    (f : Option A → State → State) (s : State)
    → P (m s).1
    → ((o : Option A) (t : State) → P t → P (f o t))
    → P ((m >>= λ o. when (is_some o) (modify (f o))) s).1
audited_keeps {A} P m f s after keep = go (m s) after
  where
    go :
        (out : Result Error (Option A) × State)
        → P out.1
        → P (((λ _. out) >>= λ o. when (is_some o) (modify (f o))) s).1
    go (ok none, t) h = h
    go (ok (some a), t) h = keep (some a) t h
    go (err e, t) h = h

named_keeps :
    {A : Type 0} (P : State → Type 0) (m : Action State Error A) (f : A → State → State) (s : State)
    → P (m s).1
    → ((a : A) (t : State) → P t → P (f a t))
    → P ((m >>= λ a. modify (f a)) s).1
named_keeps {A} P m f s after keep = go (m s) after
  where
    go : (out : Result Error A × State) → P out.1 → P (((λ _. out) >>= λ a. modify (f a)) s).1
    go (ok a, t) h = keep a t h
    go (err e, t) h = h

module _ (k c : ℕ) where
  activate_found-IsSound :
      (e : Session) (o : Option Payment) (now : ℕ) (s : State)
      → find_session_payment e s ≡ o
      → IsSound k c s
      → IsSound k c (activate_found e o now s).1
  activate_found-IsSound e none now s found h = h
  activate_found-IsSound e (some p) now s found h = unless (is_succeeded p.status)
    where
      unless : (b : Bool) → IsSound k c (activate_unless b e p now s).1
      unless true = h
      unless false =
          activate_writes-IsSound k c e p now s
            (find_session_payment-found e s p h.payment_keys found) h

  activate_sponsorship-IsSound :
      (e : Session) (now : ℕ) (s : State)
      → IsSound k c s
      → IsSound k c (activate_sponsorship e now s).1
  unfolding activate_sponsorship
  activate_sponsorship-IsSound e now s h =
      audited_keeps (IsSound k c)
        (transaction (gets (find_session_payment e) >>= λ p. activate_found e p now))
        (λ o t. record t { audit = audit_sponsorship_activated (or_default o 0) ∷ t.audit }) s
        (transaction_keeps (IsSound k c)
          (gets (find_session_payment e) >>= λ p. activate_found e p now) s h
          (activate_found-IsSound e (find_session_payment e s) now s refl h))
        (λ o t j. j)

  add_payment-IsSound :
      (row : ℕ → Payment) (s : State)
      → ((j : ℕ) → (row j).id ≡ j)
      → IsSound k c s
      → IsSound k c (add_payment row s).1
  add_payment-IsSound row s own h =
      add_payment_keeps (IsSound k c) row s h
        (new_payment-IsSound k c (row s.next_id) s (own s.next_id) h)

  charge_commit-IsSound :
      (e : Charge) (now : ℕ) (o : Option Payment) (s : State)
      → IsSound k c s
      → IsSound k c (charge_commit e now o s)
  charge_commit-IsSound e now none s h = h
  charge_commit-IsSound e now (some p) s h = unless (is_refunded p.status)
    where
      total : ℕ
      total = or_default e.amount_refunded p.amount

      unless :
          (b : Bool)
          → IsSound k c (
              if b then s else record s {
                payments = update_by payment_key p.id (set_charge_refunded total now) s.payments;
                outbox = payment_refunded p.id (to_number total) ∷ s.outbox;
              })
      unless true = h
      unless false =
          payment-IsSound k c p.id (set_charge_refunded total now) s (λ x. refl) (λ x _. refl) h

  upsert_found-IsSound :
      (o : Option Subscription) (g : PlanConfig) (user_id : ℕ) (profile : Option ℕ)
      (stripe_id now : ℕ) (s : State)
      → IsSound k c s
      → IsSound k c (upsert_found o g user_id profile stripe_id now s).1
  upsert_found-IsSound none g user_id profile stripe_id now s h = next-IsSound k c s h
  upsert_found-IsSound (some u) g user_id profile stripe_id now s h = h

  note_renewal-IsSound :
      (end : Option ℕ) (id amount : ℕ) (s : State)
      → IsSound k c s
      → IsSound k c (note_renewal end id amount s).1
  note_renewal-IsSound none id amount s h = h
  note_renewal-IsSound (some end) id amount s h = h

  invoice_commit-IsSound :
      (e : Invoice) (now : ℕ) (u : Subscription) (s : State)
      → IsSound k c s
      → IsSound k c (invoice_commit e now u s).1
  invoice_commit-IsSound e now u s h =
      add_payment_then_keeps (IsSound k c) (invoice_payment e u now)
        (note_renewal e.period_end u.id (or_default e.amount_paid u.amount)) s
        (add_payment-IsSound (invoice_payment e u now) s (λ j. refl) h)
        (note_renewal-IsSound e.period_end u.id (or_default e.amount_paid u.amount))

  subscribe_with-IsSound :
      (e : Session) (user_id : ℕ) (plan : SubscriptionPlan) (stripe_id now : ℕ) (g : PlanConfig)
      (o : Option Subscription) (s : State)
      → IsSound k c s
      → IsSound k c (subscribe_with e user_id plan stripe_id now g o s).1
  subscribe_with-IsSound e user_id plan stripe_id now g none s h =
      let t : State = (upsert_found none g user_id e.profile_id stripe_id now s).1 in
      add_payment_then_keeps (IsSound k c) (plan_payment e user_id plan s.next_id g now)
        (note_activation s.next_id) t
        (add_payment-IsSound (plan_payment e user_id plan s.next_id g now) t (λ j. refl)
          (next-IsSound k c s h))
        (λ u j. j)
  subscribe_with-IsSound e user_id plan stripe_id now g (some u) s h =
      let t : State = (upsert_found (some u) g user_id e.profile_id stripe_id now s).1 in
      add_payment_then_keeps (IsSound k c) (plan_payment e user_id plan u.id g now)
        (note_activation u.id) t
        (add_payment-IsSound (plan_payment e user_id plan u.id g now) t (λ j. refl) h) (λ u j. j)

  subscribe_planned-IsSound :
      (e : Session) (user_id : ℕ) (plan : SubscriptionPlan) (stripe_id now : ℕ)
      (o : Option PlanConfig) (s : State)
      → IsSound k c s
      → IsSound k c (subscribe_planned e user_id plan stripe_id now o s).1
  subscribe_planned-IsSound e user_id plan stripe_id now none s h = h
  subscribe_planned-IsSound e user_id plan stripe_id now (some g) s h =
      subscribe_with-IsSound e user_id plan stripe_id now g (find_stripe stripe_id s) s h

  subscribe_known-IsSound :
      (e : Session) (user_id : Option ℕ) (plan : Option SubscriptionPlan) (stripe_id : Option ℕ)
      (now : ℕ) (s : State)
      → IsSound k c s
      → IsSound k c (subscribe_known e user_id plan stripe_id now s).1
  unfolding subscribe_commit
  subscribe_known-IsSound e none plan stripe_id now s h = h
  subscribe_known-IsSound e (some user_id) none stripe_id now s h = h
  subscribe_known-IsSound e (some user_id) (some plan) none now s h = h
  subscribe_known-IsSound e (some user_id) (some plan) (some stripe_id) now s h =
      named_keeps (IsSound k c) (transaction (subscribe_commit e user_id plan stripe_id now))
        (λ id t. record t { audit = audit_subscription_activated id ∷ t.audit }) s
        (transaction_keeps (IsSound k c) (subscribe_commit e user_id plan stripe_id now) s h (
          subscribe_planned-IsSound e user_id plan stripe_id now
            (find (λ x. is_plan x.plan plan) s.plan_configs) s h))
        (λ id t j. j)

  handle_checkout-IsSound :
      (e : Session) (now : ℕ) (s : State) → IsSound k c s → IsSound k c (handle_checkout e now s).1
  unfolding handle_checkout activate_subscription
  handle_checkout-IsSound e now s h =
      either (is_mode e.mode one_payment && e.pays_sponsorship)
        (is_mode e.mode recurring || e.pays_subscription)
    where
      either :
          (a b : Bool)
          → IsSound k c
              ((if a
                  then activate_sponsorship e now
                  else if b
                  then activate_subscription e now
                  else pure tt)
                s).1
      either true b = activate_sponsorship-IsSound e now s h
      either false true = subscribe_known-IsSound e e.user_id e.plan e.subscription now s h
      either false false = h

  on_found-IsSound :
      (f : Subscription → Action State Error (Unit {0})) (o : Option Subscription) (s : State)
      → ((u : Subscription) → IsSound k c (f u s).1)
      → IsSound k c s
      → IsSound k c (on_found f o s).1
  on_found-IsSound f none s keep h = h
  on_found-IsSound f (some u) s keep h = keep u

  pub dispatch-IsSound :
      (e : Payload) (now : ℕ) (s : State) → IsSound k c s → IsSound k c (dispatch e now s).1
  unfolding dispatch handle_updated handle_deleted handle_invoice_paid handle_invoice_failed
      handle_charge_refunded
  dispatch-IsSound (checkout_completed e) now s h = handle_checkout-IsSound e now s h
  dispatch-IsSound (subscription_updated e) now s h = h
  dispatch-IsSound (subscription_deleted stripe_id) now s h =
      on_found-IsSound (delete_commit now) (find_stripe stripe_id s) s (λ u. h) h
  dispatch-IsSound (invoice_paid e) now s h =
      let found : Option Subscription = bind_option e.subscription (λ j. find_stripe j s) in
      transaction_keeps (IsSound k c) (on_found (invoice_commit e now) found) s h (
        on_found-IsSound (invoice_commit e now) found s (λ u. invoice_commit-IsSound e now u s h) h)
  dispatch-IsSound (invoice_payment_failed stripe_id) now s h =
      on_found-IsSound fail_commit (bind_option stripe_id (λ j. find_stripe j s)) s (λ u. h) h
  dispatch-IsSound (charge_refunded e) now s h =
      charge_commit-IsSound e now
        (bind_option e.intent_id (λ i. find (λ x. is_id i x.intent_id) s.payments)) s h
  dispatch-IsSound unhandled now s h = h
