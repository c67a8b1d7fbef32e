-- ===== src/Coupons/Redemptions.antt =====
-- The redemptions of a coupon, its counter and its limit.
use innovents.Shared.{
  leb, ◌==◌, test_or, map_option, Option-cases, count_where, count-find-none, find_by, update_by,
  find_by-update_if, Below, find_by-Below, Below-suc, Below-update, transaction, ℕ, ◌≤◌, ◌≡◌, refl,
  inl, inr, Bool, true, Option, some, List, [], ◌∷◌, arith,
}
use innovents.Coupons.{
  coupon_key, assert_active_provider, create_coupon, apply_update, update_coupon, is_redemption_of,
  validate_coupon, count_redemption, redeem_commit, redeem_new, redeem_coupon, run, Coupon,
  CreateCoupon, UpdateCoupon, RedeemCoupon, State, Call, creates, updates, redeems,
}

abbrev pub redemption_count_of : ℕ → State → Option ℕ
redemption_count_of k s = map_option (λ c. c.redemption_count) (find_by coupon_key k s.coupons)

-- The counter of the coupon `k` is the number of its redemptions, and the attendee `a` has at most
-- one of them.
pub record IsTallied (k a : ℕ) (s : State) : Type 0 where
  pub fresh : Below coupon_key s.next_id s.coupons
  pub tally : redemption_count_of k s ≡ some (count_where (λ r. r.coupon_id == k) s.redemptions)
  pub once : count_where (is_redemption_of k a) s.redemptions ≤ 1

redeem_commit-IsTallied :
    (k a : ℕ) (c : Coupon) (attendee_id : ℕ) (dto : RedeemCoupon) (db_now : ℕ) (s : State)
    → IsTallied k a s
    → IsTallied k a (transaction (redeem_commit c attendee_id dto db_now) s).1
unfolding redeem_commit
redeem_commit-IsTallied k a c attendee_id dto db_now s h = ground (
  arith,
  find_by-update_if coupon_key k c.id count_redemption s.coupons (λ x. refl),
  Below-update coupon_key s.next_id c.id count_redemption s.coupons (λ x. refl) h.fresh,
  Below-suc coupon_key s.next_id (update_by coupon_key c.id count_redemption s.coupons),
  count-find-none (is_redemption_of c.id attendee_id) s.redemptions,
)

pub validate_coupon-state :
    (dto : RedeemCoupon) (attendee_id : Option ℕ) (now : ℕ) (s : State)
    → (validate_coupon dto attendee_id now s).1 ≡ s
unfolding validate_coupon
validate_coupon-state dto attendee_id now s = ground arith

redeem_new-IsTallied :
    (k a attendee_id : ℕ) (dto : RedeemCoupon) (now db_now : ℕ) (s : State)
    → IsTallied k a s
    → IsTallied k a (redeem_new attendee_id dto now db_now s).1
unfolding redeem_new
redeem_new-IsTallied k a attendee_id dto now db_now s h = grind (
  arith,
  λ (c : Coupon). redeem_commit-IsTallied k a c attendee_id dto db_now s h,
  validate_coupon-state dto (some attendee_id) now s,
)

-- A redemption, a replay or a refusal keeps the tally of every coupon and attendee.
pub redeem_coupon-IsTallied :
    (k a attendee_id : ℕ) (dto : RedeemCoupon) (now db_now : ℕ) (s : State)
    → IsTallied k a s
    → IsTallied k a (redeem_coupon attendee_id dto now db_now s).1
unfolding redeem_coupon
redeem_coupon-IsTallied k a attendee_id dto now db_now s h =
    ground (arith, redeem_new-IsTallied k a attendee_id dto now db_now s h)

-- A new coupon, or a refused one, keeps the tally of the coupons that there are.
pub create_coupon-IsTallied :
    (k a provider_id : ℕ) (dto : CreateCoupon) (now : ℕ) (s : State)
    → IsTallied k a s
    → IsTallied k a (create_coupon provider_id dto now s).1
unfolding create_coupon assert_active_provider
create_coupon-IsTallied k a provider_id dto now s h =
    elim (Option-cases (find_by coupon_key k s.coupons)) [
      | inl missing ↦ absurd (ground arith)
      | inr (c, found) ↦ ground (
        arith,
        find_by-Below coupon_key s.next_id k s.coupons c h.fresh found,
        Below-suc coupon_key s.next_id s.coupons h.fresh,
      )
    ]

-- So does an update of a coupon, which never touches its counter.
pub update_coupon-IsTallied :
    (k a provider_id coupon_id : ℕ) (dto : UpdateCoupon) (s : State)
    → IsTallied k a s
    → IsTallied k a (update_coupon provider_id coupon_id dto s).1
unfolding update_coupon assert_active_provider
update_coupon-IsTallied k a provider_id coupon_id dto s h = grind (
  arith,
  λ (t : ℕ). find_by-update_if coupon_key k coupon_id (apply_update dto t) s.coupons (λ x. refl),
  λ (t : ℕ).
      Below-update coupon_key s.next_id coupon_id (apply_update dto t) s.coupons (λ x. refl)
        h.fresh,
)

-- Through any calls the counter of a coupon stays the number of its redemptions, and no attendee
-- gets a second one.
pub run-IsTallied :
    (k a : ℕ) (cs : List (ℕ × Call)) (s : State) → IsTallied k a s → IsTallied k a (run cs s)
unfolding run
run-IsTallied k a [] s h = h
run-IsTallied k a ((now, creates p dto) ∷ cs) s h =
    run-IsTallied k a cs (create_coupon p dto now s).1 (create_coupon-IsTallied k a p dto now s h)
run-IsTallied k a ((now, updates p c dto) ∷ cs) s h =
    run-IsTallied k a cs (update_coupon p c dto s).1 (update_coupon-IsTallied k a p c dto s h)
run-IsTallied k a ((now, redeems b dto) ∷ cs) s h =
    run-IsTallied k a cs (redeem_coupon b dto now now s).1
      (redeem_coupon-IsTallied k a b dto now now s h)

abbrev fits : Coupon → Bool
fits c = test_or true (λ max. leb c.redemption_count max) c.max_redemptions

-- The coupon `k`, if there is one, has no more redemptions than its limit.
abbrev pub IsLimited : ℕ → State → Type 0
IsLimited k s = test_or true fits (find_by coupon_key k s.coupons) ≡ true

-- A redemption never takes a coupon past its limit, whatever coupon was validated before the
-- transaction and however long ago.
pub redeem_commit-IsLimited :
    (k : ℕ) (c : Coupon) (attendee_id : ℕ) (dto : RedeemCoupon) (db_now : ℕ) (s : State)
    → IsLimited k s
    → IsLimited k (transaction (redeem_commit c attendee_id dto db_now) s).1
unfolding redeem_commit
redeem_commit-IsLimited k c attendee_id dto db_now s h =
    ground (arith, find_by-update_if coupon_key k c.id count_redemption s.coupons (λ x. refl))
