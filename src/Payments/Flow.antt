-- ===== src/Payments/Flow.antt =====
-- Every method of the payment services keeps the invariant of a payment and a community.
use innovents.Payments.Sound.{
  IsSound, payment-IsSound, new_sponsorship-IsSound, sponsor_community-IsSound,
}
use innovents.Shared.{
  ◌==◌, or_default, or_else, Option-cases, find, find_by, update_by, find_by-update_if, ℕ, suc, ◌≡◌,
  refl, inl, inr, false, some, ◌∷◌, arith,
}
use innovents.Payments.Tables.{
  payment_key, community_key, Payment, SponsorshipPlan, State, sponsorship_paid,
  sponsorship_activated,
}
use innovents.Payments.Webhook.{
  set_paid, or_nonzero, sponsor_community, new_sponsorship, sponsorship_taken, activate_writes,
  Session,
}

-- What an activation does to a property of the state.
pub activate_writes_keeps :
    (P : State → Type 0) (e : Session) (p : Payment) (now : ℕ) (s : State)
    → P s
    → P (record s { payments = update_by payment_key p.id (set_paid e.intent_id now) s.payments })
    → ((plan : SponsorshipPlan) (owner_community sponsor_id : ℕ)
        → or_else e.community_id p.community_id ≡ some owner_community
        → sponsorship_taken p.id e.id s ≡ false
        → P (record s {
          payments = update_by payment_key p.id (set_paid e.intent_id now) s.payments;
          sponsorships =
              new_sponsorship s.next_id e p plan owner_community sponsor_id
                (or_default e.user_id p.user_id)
                now
              ∷ s.sponsorships;
          next_id = suc s.next_id;
        }))
    → ((plan : SponsorshipPlan) (owner_community sponsor_id community_id : ℕ)
        → or_else e.community_id p.community_id ≡ some owner_community
        → sponsorship_taken p.id e.id s ≡ false
        → e.community_id ≡ some community_id
        → P (record s {
          payments = update_by payment_key p.id (set_paid e.intent_id now) s.payments;
          sponsorships =
              new_sponsorship s.next_id e p plan owner_community sponsor_id
                (or_default e.user_id p.user_id)
                now
              ∷ s.sponsorships;
          next_id = suc s.next_id;
          communities =
              update_by community_key community_id
                (sponsor_community (or_nonzero plan.member_capacity 500))
                s.communities;
          outbox = sponsorship_activated s.next_id ∷ sponsorship_paid s.next_id ∷ s.outbox;
        }))
    → P (activate_writes e p now s).1
unfolding activate_writes
activate_writes_keeps P e p now s before paid added done =
    elim (Option-cases (or_else e.plan_id p.plan_id)) [
      | inl missing ↦ ground arith
      | inr (plan_id, planned) ↦
          elim (Option-cases (find (λ (q : SponsorshipPlan). q.id == plan_id) s.plans)) [
            | inl missing ↦ ground arith
            | inr (plan, found) ↦ elim (Option-cases (or_else e.community_id p.community_id)) [
              | inl missing ↦ ground arith
              | inr (owner_community, owned) ↦
                  elim (Option-cases (or_else e.sponsor_profile_id p.sponsor_profile_id)) [
                    | inl missing ↦ ground arith
                    | inr (sponsor_id, paid_by) ↦ elim (Option-cases e.community_id) [
                      | inl unnamed ↦ ground (arith, added plan owner_community sponsor_id owned)
                      | inr (community_id, named) ↦ ground (
                        arith,
                        added plan owner_community sponsor_id owned,
                        done plan owner_community sponsor_id community_id owned,
                      )
                    ]
                  ]
            ]
          ]
    ]

module _ (k c : ℕ) where
  pub activate_writes-IsSound :
      (e : Session) (p : Payment) (now : ℕ) (s : State)
      → find_by payment_key p.id s.payments ≡ some p
      → IsSound k c s
      → IsSound k c (activate_writes e p now s).1
  activate_writes-IsSound e p now s found h =
      activate_writes_keeps (IsSound k c) e p now s h paid_sound
        (λ plan owner sponsor_id owned free. added plan owner sponsor_id free)
        (λ plan owner sponsor_id community_id owned free named.
          sponsor_community-IsSound k c community_id (or_nonzero plan.member_capacity 500)
            (ground arith) (added plan owner sponsor_id free))
    where
      paid_sound :
          IsSound k c (record s {
            payments = update_by payment_key p.id (set_paid e.intent_id now) s.payments;
          })
      paid_sound = payment-IsSound k c p.id (set_paid e.intent_id now) s (λ x. refl) (λ x _. refl) h

      added :
          (plan : SponsorshipPlan) (owner_community sponsor_id : ℕ)
          → sponsorship_taken p.id e.id s ≡ false
          → IsSound k c (record s {
            payments = update_by payment_key p.id (set_paid e.intent_id now) s.payments;
            sponsorships =
                new_sponsorship s.next_id e p plan owner_community sponsor_id
                  (or_default e.user_id p.user_id)
                  now
                ∷ s.sponsorships;
            next_id = suc s.next_id;
          })
      added plan owner_community sponsor_id free =
          new_sponsorship-IsSound k c
            (new_sponsorship s.next_id e p plan owner_community sponsor_id
              (or_default e.user_id p.user_id) now)
            (record s {
              payments = update_by payment_key p.id (set_paid e.intent_id now) s.payments;
            })
            refl (ground arith)
            (ground (
              arith,
              find_by-update_if payment_key p.id p.id (set_paid e.intent_id now) s.payments
                  (λ x. refl),
            ))
            paid_sound
