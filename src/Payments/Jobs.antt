-- ===== src/Payments/Jobs.antt =====
-- The scheduled jobs and the checkouts keep the invariant of a payment and a community.
use innovents.Payments.Webhook.{set_paid, or_nonzero, intent_taken}
use innovents.Payments.Reconciliation.{
  set_failed, count_succeeded, count_error, update_payment, reconcile_by, reconcile_session,
  is_stale, reconcile_rows, reconcile_stale, Lookup, Report, paid, session_expired, unsettled,
  unavailable,
}
use innovents.Payments.Sponsorships.{
  is_over, expire_sponsorship, expire_rows, sweep_expired_sponsorships,
}
use innovents.Payments.Sound.{
  is_for, IsSound, KnownSponsorship, release_community_keeps, payment-IsSound,
  close_sponsorship-IsSound,
}
use innovents.Payments.Tables.{
  payment_key, sponsorship_key, is_pending, set_sponsorship, SponsorshipStatus, Payment,
  Sponsorship, State,
}
use innovents.Shared.{
  ◌==◌, if◌then◌else◌, test_or, or_default, Bool-cases, Option-cases, ==_iff, count_where, All,
  All-weaken, find_by, update_by, All-find_by, Unique-update, find_by-update_if, Below-update, ℕ,
  ◌+◌, ◌-◌, ◌*◌, ◌≡◌, refl, sym, ◌∙◌, subst, inl, inr, Bool, true, false, not, ◌&&◌, Option, none,
  some, List, [], ◌∷◌, arith,
}

-- The row of a job's query still has its community when another row is closed.
known_step :
    (x y : Sponsorship) (now : ℕ) (s : State)
    → KnownSponsorship y s
    → KnownSponsorship y (expire_sponsorship now x s)
unfolding expire_sponsorship
known_step x y now s known =
    release_community_keeps (KnownSponsorship y) x.id x.community_id now
      (record s {
        sponsorships =
            update_by sponsorship_key x.id (set_sponsorship SponsorshipStatus.expired)
              s.sponsorships;
      })
      (λ z found. still) (λ missing. still)
  where
    still :
        test_or true
          (λ r. r.community_id == y.community_id)
          (find_by sponsorship_key y.id (
            update_by sponsorship_key x.id
              (set_sponsorship SponsorshipStatus.expired)
              s.sponsorships))
        ≡ true
    still = elim (Option-cases (find_by sponsorship_key y.id s.sponsorships)) [
      | inl missing ↦ ground (
        arith,
        known,
        find_by-update_if sponsorship_key y.id x.id (set_sponsorship SponsorshipStatus.expired)
            s.sponsorships (λ z. refl),
      )
      | inr (r, found) ↦ ground (
        arith,
        known,
        find_by-update_if sponsorship_key y.id x.id (set_sponsorship SponsorshipStatus.expired)
            s.sponsorships (λ z. refl),
      )
    ]

module _ (k c : ℕ) where
  expire_rows-IsSound :
      (now : ℕ) (hs : List Sponsorship) (n : ℕ) (s : State)
      → All (λ x. KnownSponsorship x s) hs
      → IsSound k c s
      → IsSound k c (expire_rows now hs n s).1
  unfolding expire_rows expire_sponsorship
  expire_rows-IsSound now [] n s known h = h
  expire_rows-IsSound now (x ∷ hs) n s known h =
      let done : IsSound k c (if is_over now x then expire_sponsorship now x s else s)
          × All (λ y. KnownSponsorship y (if is_over now x then expire_sponsorship now x s else s))
              hs =
        closed (is_over now x) in
      expire_rows-IsSound now hs (if is_over now x then n + 1 else n)
        (if is_over now x then expire_sponsorship now x s else s) done.1 done.0
    where
      closed :
          (b : Bool)
          → IsSound k c (if b then expire_sponsorship now x s else s)
            × All (λ y. KnownSponsorship y (if b then expire_sponsorship now x s else s)) hs
      closed true = (
        close_sponsorship-IsSound k c SponsorshipStatus.expired x now s refl known.0 h,
        All-weaken (λ y. KnownSponsorship y s)
            (λ y. KnownSponsorship y (expire_sponsorship now x s)) hs (λ y. known_step x y now s)
            known.1,
      )
      closed false = (h, known.1)

  pub sweep-IsSound :
      (now : ℕ) (s : State) → IsSound k c s → IsSound k c (sweep_expired_sponsorships now s).1
  unfolding sweep_expired_sponsorships
  sweep-IsSound now s h =
      expire_rows-IsSound now s.sponsorships 0 s
        (All-find_by sponsorship_key (λ x. KnownSponsorship x s) s.sponsorships h.sponsorship_keys
          (λ x found. ground arith))
        h

  -- A row that was pending when the job read it has no sponsorship.
  abbrev Unsponsored : List Sponsorship → Payment → Type 0
  Unsponsored hs p = is_pending p.status ≡ true → p.id ≡ k → count_where (is_for k) hs ≡ 0

  pending-Unsponsored :
      (s : State) (p : Payment)
      → find_by payment_key p.id s.payments ≡ some p
      → IsSound k c s
      → Unsponsored s.sponsorships p
  pending-Unsponsored s p found h waiting mine =
      ground (
        arith,
        h.paid_once,
        subst (λ (j : ℕ). find_by payment_key j s.payments ≡ some p) mine found,
      )

  -- An update of a payment that has no sponsorship, if it is the one that is followed.
  settle_payment-IsSound :
      (j : ℕ) (f : Payment → Payment) (s : State)
      → ((p : Payment) → (f p).id ≡ p.id)
      → (j ≡ k → count_where (is_for k) s.sponsorships ≡ 0)
      → IsSound k c s
      → IsSound k c (record s { payments = update_by payment_key j f s.payments })
  settle_payment-IsSound j f s same none_for h = record {
    payment_keys = Unique-update payment_key j f s.payments same h.payment_keys;
    payment_fresh = Below-update payment_key s.next_id j f s.payments same h.payment_fresh;
    sponsorship_keys = h.sponsorship_keys;
    sponsorship_fresh = h.sponsorship_fresh;
    paid_once = elim (Bool-cases (j == k)) [
      | inl mine ↦ ground (arith, none_for ((==_iff j k).0 mine))
      | inr other ↦ ground (arith, h.paid_once, find_by-update_if payment_key k j f s.payments same)
    ];
    backed = h.backed;
  }

  reconcile_by-IsSound :
      (dry_run : Bool) (now : ℕ) (p : Payment) (a : Lookup) (r : Report) (s : State)
      → (p.id ≡ k → count_where (is_for k) s.sponsorships ≡ 0)
      → IsSound k c s
      → IsSound k c (reconcile_by dry_run now p a (r, s)).1
        × ((reconcile_by dry_run now p a (r, s)).1.sponsorships ≡ s.sponsorships)
  reconcile_by-IsSound dry_run now p (paid intent) r s fresh h =
      (settled dry_run (not dry_run && intent_taken p.id intent s), ground arith)
    where
      paid_outcome : Bool → Bool → Report × State
      paid_outcome b d =
          if d
          then (count_error r, s)
          else (count_succeeded r, update_payment b p.id (set_paid intent now) s)

      settled : (b d : Bool) → IsSound k c (paid_outcome b d).1
      settled b true = h
      settled true false = h
      settled false false =
          payment-IsSound k c p.id (set_paid intent now) s (λ x. refl) (λ x _. refl) h
  reconcile_by-IsSound true now p session_expired r s fresh h = (h, refl)
  reconcile_by-IsSound false now p session_expired r s fresh h =
      (settle_payment-IsSound p.id (set_failed now) s (λ x. refl) fresh h, refl)
  reconcile_by-IsSound dry_run now p unsettled r s fresh h = (h, refl)
  reconcile_by-IsSound dry_run now p unavailable r s fresh h = (h, refl)

  reconcile_session-IsSound :
      (stripe : ℕ → Lookup) (dry_run : Bool) (now : ℕ) (p : Payment) (o : Option ℕ) (r : Report)
      (s : State)
      → (p.id ≡ k → count_where (is_for k) s.sponsorships ≡ 0)
      → IsSound k c s
      → IsSound k c (reconcile_session stripe dry_run now p o (r, s)).1
        × ((reconcile_session stripe dry_run now p o (r, s)).1.sponsorships ≡ s.sponsorships)
  reconcile_session-IsSound stripe dry_run now p none r s fresh h = (h, refl)
  reconcile_session-IsSound stripe dry_run now p (some j) r s fresh h =
      reconcile_by-IsSound dry_run now p (stripe j) r s fresh h

  reconcile_rows-IsSound :
      (stripe : ℕ → Lookup) (dry_run : Bool) (now cutoff : ℕ) (ps : List Payment)
      (hs : List Sponsorship) (out : Report × State)
      → out.1.sponsorships ≡ hs
      → All (Unsponsored hs) ps
      → IsSound k c out.1
      → IsSound k c (reconcile_rows stripe dry_run now (is_stale cutoff) ps out).1
  unfolding reconcile_rows
  reconcile_rows-IsSound stripe dry_run now cutoff [] hs out same fresh h = h
  reconcile_rows-IsSound stripe dry_run now cutoff (p ∷ ps) hs (r, s) same fresh h =
      let step : IsSound k c (outcome (is_stale cutoff p)).1
          × ((outcome (is_stale cutoff p)).1.sponsorships ≡ s.sponsorships) =
        read (is_stale cutoff p) (λ stale. ground arith) in
      reconcile_rows-IsSound stripe dry_run now cutoff ps hs (outcome (is_stale cutoff p))
        (step.1 ∙ same) fresh.1 step.0
    where
      outcome : Bool → Report × State
      outcome b = if b then reconcile_session stripe dry_run now p p.session_id (r, s) else (r, s)

      read :
          (b : Bool)
          → (b ≡ true → is_pending p.status ≡ true)
          → IsSound k c (outcome b).1 × ((outcome b).1.sponsorships ≡ s.sponsorships)
      read true waiting =
          reconcile_session-IsSound stripe dry_run now p p.session_id r s
            (λ mine.
              subst (λ (xs : List Sponsorship). count_where (is_for k) xs ≡ 0) (sym same)
                (fresh.0 (waiting refl) mine))
            h
      read false waiting = (h, refl)

  pub reconcile_stale-IsSound :
      (stripe : ℕ → Lookup) (minutes : Option ℕ) (dry_run : Bool) (now : ℕ) (s : State)
      → IsSound k c s
      → IsSound k c (reconcile_stale stripe minutes dry_run now s).1
  unfolding reconcile_stale
  reconcile_stale-IsSound stripe minutes dry_run now s h =
      let cutoff : ℕ = now - or_nonzero (or_default minutes 0) 15 * 60 * 1000 in
      reconcile_rows-IsSound stripe dry_run now cutoff s.payments s.sponsorships
        (
          record {
            scanned = count_where (is_stale cutoff) s.payments;
            succeeded = 0;
            failed = 0;
            unresolved = 0;
            errors = 0;
          },
          s,
        )
        refl
        (All-find_by payment_key (Unsponsored s.sponsorships) s.payments h.payment_keys
          (λ p found. pending-Unsponsored s p found h))
        h
