-- ===== src/Payments/Sound.antt =====
-- The invariant of a payment and a community, and the writes that keep it.
use innovents.Shared.{
  ◌==◌, to_ℕ, test_or, Bool-cases, Option-cases, ==_iff, find, count_where, find_holds,
  count-find-none, count_where-found, count-update_where, find_by, update_by, Absent, Unique,
  Unique-update, find_by-update_if, count-update_if, Below, Below-Absent, find_by-Below, Below-suc,
  Below-update, ℕ, suc, ◌≤◌, ◌≡◌, refl, sym, ap, subst, inl, inr, Bool, true, false, not, ◌&&◌,
  none, some, List, ◌∷◌, arith,
}
use innovents.Payments.Webhook.{sponsor_community}
use innovents.Payments.Tables.{
  payment_key, sponsorship_key, community_key, is_active_sponsorship, is_running, unsponsor,
  release_community, set_sponsorship, PaymentStatus, SponsorshipStatus, Payment, Sponsorship,
  Community, State, succeeded, partially_refunded,
}

abbrev pub is_for : ℕ → Sponsorship → Bool
is_for k h = h.payment_id == k

abbrev pub is_active_of : ℕ → Sponsorship → Bool
is_active_of c h = h.community_id == c && is_active_sponsorship h.status

-- SUCCEEDED, REFUNDED and PARTIALLY_REFUNDED: money came in.
abbrev pub is_paid : PaymentStatus → Bool
is_paid succeeded = true
is_paid PaymentStatus.refunded = true
is_paid partially_refunded = true
is_paid _ = false

abbrev pub paid_of : ℕ → State → Bool
paid_of k s = test_or false (λ p. is_paid p.status) (find_by payment_key k s.payments)

-- The payment `k` has one sponsorship at most, and none before its money came in; and the community
-- `c` is sponsored only while one of its sponsorships is active.
pub record IsSoundIn (k c : ℕ) (ps : List Payment) (hs : List Sponsorship) (cs : List Community)
    (n : ℕ) : Type 0 where
  pub payment_keys : Unique payment_key ps
  pub payment_fresh : Below payment_key n ps
  pub sponsorship_keys : Unique sponsorship_key hs
  pub sponsorship_fresh : Below sponsorship_key n hs
  pub paid_once :
      count_where (is_for k) hs
      ≤ to_ℕ (test_or false (λ p. is_paid p.status) (find_by payment_key k ps))
  pub backed :
      to_ℕ (test_or false (λ x. x.is_sponsored) (find_by community_key c cs))
      ≤ count_where (is_active_of c) hs

abbrev pub IsSound : ℕ → ℕ → State → Type 0
IsSound k c s = IsSoundIn k c s.payments s.sponsorships s.communities s.next_id

-- The row of a sponsorship that was read before still has its community.
abbrev pub KnownSponsorship : Sponsorship → State → Type 0
KnownSponsorship h s =
    test_or true (λ r. r.community_id == h.community_id)
      (find_by sponsorship_key h.id s.sponsorships)
    ≡ true

-- What a release does to a property of the state.
pub release_community_keeps :
    (P : State → Type 0) (id community_id now : ℕ) (s : State)
    → ((y : Sponsorship)
        → find (λ z. is_running community_id now z && not (z.id == id)) s.sponsorships ≡ some y
        → P s)
    → (find (λ z. is_running community_id now z && not (z.id == id)) s.sponsorships ≡ none
        → P (record s {
          communities = update_by community_key community_id unsponsor s.communities;
        }))
    → P (release_community id community_id now s)
unfolding release_community
release_community_keeps P id community_id now s runs_on ends =
    elim (Option-cases
      (find (λ z. is_running community_id now z && not (z.id == id)) s.sponsorships)) [
        | inl missing ↦ ground (arith, ends missing)
        | inr (y, found) ↦ ground (arith, runs_on y found)
      ]

module _ (k c : ℕ) where
  -- An update of one payment that keeps the ids, and leaves money that came in.
  pub payment-IsSound :
      (j : ℕ) (f : Payment → Payment) (s : State)
      → ((p : Payment) → (f p).id ≡ p.id)
      → ((p : Payment) → is_paid p.status ≡ true → is_paid (f p).status ≡ true)
      → IsSound k c s
      → IsSound k c (record s { payments = update_by payment_key j f s.payments })
  payment-IsSound j f s same stays h = record {
    payment_keys = Unique-update payment_key j f s.payments same h.payment_keys;
    payment_fresh = Below-update payment_key s.next_id j f s.payments same h.payment_fresh;
    sponsorship_keys = h.sponsorship_keys;
    sponsorship_fresh = h.sponsorship_fresh;
    paid_once = elim (Option-cases (find_by payment_key k s.payments)) [
      | inl missing ↦
          ground (arith, h.paid_once, find_by-update_if payment_key k j f s.payments same)
      | inr (p, found) ↦
          ground (arith, h.paid_once, stays p, find_by-update_if payment_key k j f s.payments same)
    ];
    backed = h.backed;
  }

  -- A new payment.
  pub new_payment-IsSound :
      (p : Payment) (s : State)
      → p.id ≡ s.next_id
      → IsSound k c s
      → IsSound k c (record s { payments = p ∷ s.payments; next_id = suc s.next_id })
  new_payment-IsSound p s new h = record {
    payment_keys = (
      subst (λ (j : ℕ). Absent payment_key j s.payments) (sym new)
          (Below-Absent payment_key s.next_id s.payments h.payment_fresh),
      h.payment_keys,
    );
    payment_fresh =
        (omega (arith, new), Below-suc payment_key s.next_id s.payments h.payment_fresh);
    sponsorship_keys = h.sponsorship_keys;
    sponsorship_fresh = Below-suc sponsorship_key s.next_id s.sponsorships h.sponsorship_fresh;
    paid_once = elim (Option-cases (find_by payment_key k s.payments)) [
      | inl missing ↦ ground (arith, h.paid_once)
      | inr (q, found) ↦ ground (
        arith,
        h.paid_once,
        find_by-Below payment_key s.next_id k s.payments q h.payment_fresh found,
      )
    ];
    backed = h.backed;
  }

  -- A new sponsorship for a paid payment that has none.
  pub new_sponsorship-IsSound :
      (n : Sponsorship) (s : State)
      → n.id ≡ s.next_id
      → find_by (λ h. h.payment_id) n.payment_id s.sponsorships ≡ none
      → paid_of n.payment_id s ≡ true
      → IsSound k c s
      → IsSound k c (record s { sponsorships = n ∷ s.sponsorships; next_id = suc s.next_id })
  new_sponsorship-IsSound n s new free paid h = record {
    payment_keys = h.payment_keys;
    payment_fresh = Below-suc payment_key s.next_id s.payments h.payment_fresh;
    sponsorship_keys = (
      subst (λ (j : ℕ). Absent sponsorship_key j s.sponsorships) (sym new)
          (Below-Absent sponsorship_key s.next_id s.sponsorships h.sponsorship_fresh),
      h.sponsorship_keys,
    );
    sponsorship_fresh = (
      omega (arith, new),
      Below-suc sponsorship_key s.next_id s.sponsorships h.sponsorship_fresh,
    );
    paid_once = elim (Bool-cases (n.payment_id == k)) [
      | inl mine ↦
          let same : n.payment_id ≡ k = (==_iff n.payment_id k).0 mine in
          ground (
            arith,
            h.paid_once,
            count-find-none (is_for n.payment_id) s.sponsorships free,
            ap (λ (j : ℕ). count_where (is_for j) s.sponsorships) same,
            ap (λ (j : ℕ). paid_of j s) same,
          )
      | inr other ↦ ground (arith, h.paid_once)
    ];
    backed = ground (arith, h.backed);
  }

  -- A sponsorship that is closed counts no more for its own community, and as before for the others.
  closed-active :
      (st : SponsorshipStatus) (x : Sponsorship) (s : State)
      → is_active_sponsorship st ≡ false
      → KnownSponsorship x s
      → Unique sponsorship_key s.sponsorships
      → (x.community_id == c) ≡ false
      → count_where
          (is_active_of c)
          (update_by sponsorship_key x.id (set_sponsorship st) s.sponsorships)
        ≡ count_where (is_active_of c) s.sponsorships
  closed-active st x s closed known u other =
      elim (Option-cases (find_by sponsorship_key x.id s.sponsorships)) [
        | inl missing ↦ ground (
          arith,
          count-update_if sponsorship_key (is_active_of c) (set_sponsorship st) x.id s.sponsorships
              u,
        )
        | inr (r, found) ↦ ground (
          arith,
          known,
          count-update_if sponsorship_key (is_active_of c) (set_sponsorship st) x.id s.sponsorships
              u,
        )
      ]

  -- A sponsorship ends, and its community is released where no other one runs on.
  pub close_sponsorship-IsSound :
      (st : SponsorshipStatus) (x : Sponsorship) (now : ℕ) (s : State)
      → is_active_sponsorship st ≡ false
      → KnownSponsorship x s
      → IsSound k c s
      → IsSound k c (
          release_community x.id x.community_id now (record s {
            sponsorships = update_by sponsorship_key x.id (set_sponsorship st) s.sponsorships;
          }))
  close_sponsorship-IsSound st x now s closed known h =
      let hs : List Sponsorship =
        update_by sponsorship_key x.id (set_sponsorship st) s.sponsorships in
      release_community_keeps (IsSound k c) x.id x.community_id now (record s { sponsorships = hs })
        (λ y found. closed_with s.communities (
          ground (
            arith,
            h.backed,
            closed-active st x s closed known h.sponsorship_keys,
            count_where-found (λ z. is_running x.community_id now z && not (z.id == x.id))
                (is_active_of c) hs y found,
            find_holds (λ z. is_running x.community_id now z && not (z.id == x.id)) hs y found,
          )))
        (λ missing. closed_with (update_by community_key x.community_id unsponsor s.communities) (
          ground (
            arith,
            h.backed,
            closed-active st x s closed known h.sponsorship_keys,
            find_by-update_if community_key c x.community_id unsponsor s.communities (λ z. refl),
          )))
    where
      closed_with :
          (cs : List Community)
          → to_ℕ (test_or false (λ z. z.is_sponsored) (find_by community_key c cs))
            ≤ count_where
                (is_active_of c)
                (update_by sponsorship_key x.id (set_sponsorship st) s.sponsorships)
          → IsSound k c (record s {
            sponsorships = update_by sponsorship_key x.id (set_sponsorship st) s.sponsorships;
            communities = cs;
          })
      closed_with cs holds = record {
        payment_keys = h.payment_keys;
        payment_fresh = h.payment_fresh;
        sponsorship_keys =
            Unique-update sponsorship_key x.id (set_sponsorship st) s.sponsorships (λ z. refl)
              h.sponsorship_keys;
        sponsorship_fresh =
            Below-update sponsorship_key s.next_id x.id (set_sponsorship st) s.sponsorships
              (λ z. refl) h.sponsorship_fresh;
        paid_once = ground (
          arith,
          h.paid_once,
          count-update_where (is_for k) (λ z. sponsorship_key z == x.id) (is_for k)
              (set_sponsorship st) s.sponsorships (λ z. ground arith),
        );
        backed = holds;
      }

  -- A community is sponsored, which has an active sponsorship.
  pub sponsor_community-IsSound :
      (j capacity : ℕ) {ps : List Payment} {hs : List Sponsorship} {cs : List Community} {n : ℕ}
      → 1 ≤ count_where (is_active_of j) hs
      → IsSoundIn k c ps hs cs n
      → IsSoundIn k c ps hs (update_by community_key j (sponsor_community capacity) cs) n
  sponsor_community-IsSound j capacity {hs} {cs} one h = record {
    payment_keys = h.payment_keys;
    payment_fresh = h.payment_fresh;
    sponsorship_keys = h.sponsorship_keys;
    sponsorship_fresh = h.sponsorship_fresh;
    paid_once = h.paid_once;
    backed = elim (Bool-cases (c == j)) [
      | inl mine ↦
          let same : c ≡ j = (==_iff c j).0 mine in
          ground (
            arith,
            h.backed,
            one,
            ap (λ (i : ℕ). count_where (is_active_of i) hs) same,
            find_by-update_if community_key c j (sponsor_community capacity) cs (λ z. refl),
          )
      | inr other ↦ ground (
        arith,
        h.backed,
        find_by-update_if community_key c j (sponsor_community capacity) cs (λ z. refl),
      )
    ];
  }

  -- Another table takes an id.
  pub next-IsSound :
      (s : State)
      → IsSound k c s
      → IsSoundIn k c s.payments s.sponsorships s.communities (suc s.next_id)
  next-IsSound s h = record {
    payment_keys = h.payment_keys;
    payment_fresh = Below-suc payment_key s.next_id s.payments h.payment_fresh;
    sponsorship_keys = h.sponsorship_keys;
    sponsorship_fresh = Below-suc sponsorship_key s.next_id s.sponsorships h.sponsorship_fresh;
    paid_once = h.paid_once;
    backed = h.backed;
  }
