-- ===== src/Payments/Settlement.antt =====
-- Refunds, the reconciliation and the provider's events, on one payment.
use innovents.Payments.Billing.{set_charge_refunded, handle_charge_refunded}
use innovents.Payments.Reconciliation.{reconcile_by, Report, paid}
use innovents.Payments.Refunds.{
  is_refundable, refunded_so_far, max_refundable, set_refund, refund_commit, refund_payment,
}
use innovents.Payments.Webhook.{
  find_session_payment, set_paid, or_nonzero, sponsor_community, new_sponsorship, intent_taken,
  sponsorship_taken, activate_writes, activate_sponsorship, Session,
}
use innovents.Payments.Tables.{
  payment_key, community_key, is_id, is_succeeded, PaymentStatus, SponsorshipStatus, Payment,
  Sponsorship, SponsorshipPlan, Community, State, not_refundable, invalid_refund,
}
use innovents.Shared.{
  ◌==◌, if◌then◌else◌, or_default, bind_option, or_else, Option-cases, find, find_holds, find_by,
  update_by, Unique, find_by_found, find_by-update, find-update, find_by-update_if, ok, err, Text,
  ℤ, pos, negsuc, add_double, subtract_double, to_number, to_hundredths, subtract_double_self, ℕ,
  zero, suc, ◌+◌, ◌*◌, ◌≤◌, ◌<◌, ◌≡◌, refl, ap, ◌∙◌, inl, inr, Bool, true, false, Option, none,
  some, arith,
}

-- A payment of a session, after an update of its row that keeps its id and its session.
find_session_payment-update :
    (e : Session) (f : Payment → Payment) (s : State) (p : Payment)
    → ((x : Payment) → (f x).id ≡ x.id)
    → ((x : Payment) → (f x).session_id ≡ x.session_id)
    → Unique payment_key s.payments
    → find_session_payment e s ≡ some p
    → find_session_payment e (record s { payments = update_by payment_key p.id f s.payments })
      ≡ some (f p)
unfolding find_session_payment
find_session_payment-update e f s p same_id same_session u found =
    elim (Option-cases e.payment_id) [
      | inl unnamed ↦ by_session (ground arith) (ground arith)
      | inr (j, named) ↦ elim (Option-cases (find_by payment_key j s.payments)) [
        | inl missing ↦
            by_session (ground arith)
              (ground (arith, find_by-update_if payment_key j p.id f s.payments same_id))
        | inr (q, first) ↦ ground (
          arith,
          find_by-update_if payment_key j p.id f s.payments same_id,
          find_holds (λ x. payment_key x == j) s.payments q first,
        )
      ]
    ]
  where
    t : State
    t = record s { payments = update_by payment_key p.id f s.payments }

    by_session :
        bind_option e.payment_id (λ j. find_by payment_key j s.payments) ≡ none
        → bind_option e.payment_id (λ j. find_by payment_key j t.payments) ≡ none
        → find_session_payment e t ≡ some (f p)
    by_session before after = elim (Option-cases e.id) [
      | inl unnamed ↦ ground arith
      | inr (i, named) ↦ ground (
        arith,
        find-update payment_key (λ x. is_id i x.session_id) f s.payments p
            (λ x. ap (λ (o : Option ℕ). is_id i o) (same_session x)) u,
      )
    ]

-- Where the reconciliation finds that a session was paid, it marks the payment as paid and creates no
-- sponsorship; and the provider's own event for that session, when it comes, does nothing any more.
pub activate_sponsorship-reconcile_by :
    (e : Session) (p : Payment) (intent : Option ℕ) (now later : ℕ) (r : Report) (s : State)
    → Unique payment_key s.payments
    → find_session_payment e s ≡ some p
    → intent_taken p.id intent s ≡ false
    → ((reconcile_by false now p (paid intent) (r, s)).1.sponsorships ≡ s.sponsorships)
      × (activate_sponsorship e later (reconcile_by false now p (paid intent) (r, s)).1
          ≡ (ok tt, (reconcile_by false now p (paid intent) (r, s)).1))
unfolding activate_sponsorship
activate_sponsorship-reconcile_by e p intent now later r s u found free = (
  ground arith,
  ground (
    arith,
    find_session_payment-update e (set_paid intent now) s p (λ x. refl) (λ x. refl) u found,
  ),
)

-- The provider's event for a refund, be it of a part of the money, makes a payment REFUNDED that was not
-- yet, whose rest can then no longer be refunded: not with any amount.
pub refund_payment-handle_charge_refunded :
    (accepts : Bool) (i : ℕ) (part : Option ℕ) (amount : Option ℤ) (reason : Option Text)
    (now later : ℕ) (s : State) (p : Payment)
    → Unique payment_key s.payments
    → find (λ x. is_id i x.intent_id) s.payments ≡ some p
    → refund_payment accepts p.id amount reason later
        (handle_charge_refunded (record { intent_id = some i; amount_refunded = part }) now s)
      ≡ (
        err not_refundable,
        handle_charge_refunded (record { intent_id = some i; amount_refunded = part }) now s,
      )
unfolding refund_payment handle_charge_refunded
refund_payment-handle_charge_refunded accepts i part amount reason now later s p u found = ground (
  arith,
  find_by_found payment_key (λ x. is_id i x.intent_id) s.payments p u found,
  find_by-update payment_key p.id (set_charge_refunded (or_default part p.amount) now) s.payments p
      (λ x. refl),
)

-- Of a payment that nothing can be refunded of any more, every refund is refused.
spent-refused :
    (accepts : Bool) (k later : ℕ) (again : Option ℤ) (why : Option Text) (t : State) (q : Payment)
    → find_by payment_key k t.payments ≡ some q
    → is_refundable q.status ≡ true
    → max_refundable q ≡ 0
    → refund_payment accepts k again why later t ≡ (err invalid_refund, t)
unfolding refund_payment
spent-refused accepts k later none why t q found open_for left = ground arith
spent-refused accepts k later (some (pos zero)) why t q found open_for left = ground arith
spent-refused accepts k later (some (pos (suc n))) why t q found open_for left = ground arith
spent-refused accepts k later (some (negsuc n)) why t q found open_for left = ground arith

-- Where the numbers of a payment that may be refunded are such that what was refunded and the rest of the
-- amount add up to less than the amount, but are stored as the amount, and the rest is positive, then
-- refunding the rest, which the provider makes, succeeds and leaves the payment PARTIALLY_REFUNDED with
-- all of its amount refunded, and its sponsorship and the community as they were; and every later refund
-- of it is refused, whatever the amount.
pub refund_payment-short :
    (accepts : Bool) (k now later : ℕ) (reason why : Option Text) (again : Option ℤ) (s : State)
    (p : Payment)
    → find_by payment_key k s.payments ≡ some p
    → is_refundable p.status ≡ true
    → 0 < max_refundable p
    → add_double (refunded_so_far p) (max_refundable p) < to_number p.amount
    → to_hundredths (add_double (refunded_so_far p) (max_refundable p)) ≡ p.amount
    → let t = (refund_payment true k none reason now s).1 in
      ((refund_payment true k none reason now s).0 ≡ ok tt)
      × ((q : Payment) × (find_by payment_key k t.payments ≡ some q)
          × (q.status ≡ PaymentStatus.partially_refunded)
          × (q.refund_amount ≡ some p.amount))
      × (t.sponsorships ≡ s.sponsorships)
      × (t.communities ≡ s.communities)
      × (refund_payment accepts k again why later t ≡ (err invalid_refund, t))
unfolding refund_payment refund_commit
refund_payment-short accepts k now later reason why again s p found open_for rest short stored =
    let total : ℕ = add_double (refunded_so_far p) (max_refundable p) in
    let q : Payment = set_refund total reason now p in
    let row : find_by payment_key k
          (update_by payment_key p.id (set_refund total reason now) s.payments)
        ≡ some q =
      ground (
        arith,
        find_holds (λ x. payment_key x == k) s.payments p found,
        find_by-update_if payment_key k p.id (set_refund total reason now) s.payments (λ x. refl),
      ) in
    let part : q.status ≡ PaymentStatus.partially_refunded = ground arith in
    let all : q.refund_amount ≡ some p.amount = ap some stored in
    let left : max_refundable q ≡ 0 =
      ap (λ (n : ℕ). subtract_double (to_number p.amount) (to_number n)) stored
      ∙ subtract_double_self (to_number p.amount) in
    (
      ground arith,
      (q, ground (arith, row), part, all),
      ground arith,
      ground arith,
      spent-refused accepts k later again why (refund_payment true k none reason now s).1 q
          (ground (arith, row)) (ground (arith, part)) left,
    )

-- What the activation of a paid session leaves in `t`: the payment is SUCCEEDED, of the same amount, with
-- the time and the intent; it has an active sponsorship by the sponsor, of the community and the plan,
-- for at least the length of the plan; and the community is sponsored, pinned and as large as the plan
-- says, 500 if it says nothing.
pub record Activated (e : Session) (p : Payment) (plan : SponsorshipPlan)
    (community_id sponsor_id now : ℕ) (t : State) : Type 0 where
  pub payment : Payment
  pub payment_row : find_by payment_key p.id t.payments ≡ some payment
  pub is_paid : payment.status ≡ PaymentStatus.succeeded
  pub paid_when : payment.paid_at ≡ some now
  pub paid_intent : payment.intent_id ≡ e.intent_id
  pub same_amount : payment.amount ≡ p.amount
  pub sponsorship : Sponsorship
  pub sponsorship_row : find_by (λ z. z.payment_id) p.id t.sponsorships ≡ some sponsorship
  pub is_running : sponsorship.status ≡ SponsorshipStatus.active
  pub of_community : sponsorship.community_id ≡ community_id
  pub by_sponsor : sponsorship.sponsor_id ≡ sponsor_id
  pub of_plan : sponsorship.plan_id ≡ plan.id
  pub paid_amount : sponsorship.amount ≡ p.amount
  pub from_now : sponsorship.starts_at ≡ now
  pub long_enough : now + plan.duration_days * 24 * 60 * 60 * 1000 ≤ sponsorship.ends_at
  pub community : Community
  pub community_row : find_by community_key community_id t.communities ≡ some community
  pub is_sponsored : community.is_sponsored ≡ true
  pub is_pinned : community.is_pinned ≡ true
  pub as_planned :
      community.member_capacity ≡ (if plan.member_capacity == 0 then 500 else plan.member_capacity)

-- When the provider reports a paid session, whose payment is not paid yet, whose plan, community and
-- sponsor are known, and whose intent, session and payment no other row has taken, then the event
-- succeeds and is activated: the payment is paid, it has an active sponsorship for at least the length
-- of the plan, and the community is sponsored, pinned and as large as the plan says.
pub activate_sponsorship-done :
    (e : Session) (p : Payment) (plan : SponsorshipPlan) (x : Community)
    (plan_id community_id sponsor_id now : ℕ) (s : State)
    → find_session_payment e s ≡ some p
    → find_by payment_key p.id s.payments ≡ some p
    → is_succeeded p.status ≡ false
    → or_else e.plan_id p.plan_id ≡ some plan_id
    → find (λ (q : SponsorshipPlan). q.id == plan_id) s.plans ≡ some plan
    → e.community_id ≡ some community_id
    → find_by community_key community_id s.communities ≡ some x
    → or_else e.sponsor_profile_id p.sponsor_profile_id ≡ some sponsor_id
    → intent_taken p.id e.intent_id s ≡ false
    → sponsorship_taken p.id e.id s ≡ false
    → ((activate_sponsorship e now s).0 ≡ ok tt)
      × Activated e p plan community_id sponsor_id now (activate_sponsorship e now s).1
unfolding activate_sponsorship activate_writes
activate_sponsorship-done e p plan x plan_id community_id sponsor_id now s found row not_paid
      planned plan_row named community_row paid_by intent_free free =
    (
      ground arith,
      record {
        payment = set_paid e.intent_id now p;
        payment_row = ground (
          arith,
          find_by-update payment_key p.id (set_paid e.intent_id now) s.payments p (λ z. refl),
        );
        is_paid = refl;
        paid_when = refl;
        paid_intent = refl;
        same_amount = refl;
        sponsorship =
            new_sponsorship s.next_id e p plan community_id sponsor_id
              (or_default e.user_id p.user_id) now;
        sponsorship_row = ground arith;
        is_running = refl;
        of_community = refl;
        by_sponsor = refl;
        of_plan = refl;
        paid_amount = refl;
        from_now = refl;
        long_enough = ground arith;
        community = sponsor_community (or_nonzero plan.member_capacity 500) x;
        community_row = ground (
          arith,
          find_by-update community_key community_id
              (sponsor_community (or_nonzero plan.member_capacity 500)) s.communities x (λ z. refl),
        );
        is_sponsored = refl;
        is_pinned = refl;
        as_planned = refl;
      },
    )
