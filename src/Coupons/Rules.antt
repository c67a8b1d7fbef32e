-- ===== src/Coupons/Rules.antt =====
-- When a coupon is valid, and what a repeated request gets.
use innovents.Shared.{
  Option-cases, transaction, Result, ok, err, Text, truthy, text_eq_refl, ℕ, ◌≤◌, ◌<◌, ◌≡◌, refl,
  ◌≢◌, inl, inr, true, none, some, arith,
}
use innovents.Accounts.{User, active}
use innovents.Coupons.Redemptions.{validate_coupon-state}
use innovents.Coupons.{
  redeemed, validate_coupon, find_key, redeem_commit, redeem_new, redeem_coupon, Event, Coupon,
  Redemption, RedeemCoupon, State, Error,
}

-- What makes a coupon valid for a request, stated without the order of the checks.
pub record IsValidFor (c : Coupon) (event : Event) (host : User) (dto : RedeemCoupon) (now : ℕ)
    : Type 0 where
  pub active_coupon : c.is_active ≡ true
  pub unexpired : now < c.expires_at
  pub event_ahead : now < event.ends_at
  pub started : (t : ℕ) → c.starts_at ≡ some t → t ≤ now
  pub same_event : c.event_id ≡ dto.event_id
  pub same_service : (a b : ℕ) → c.service_id ≡ some a → dto.service_id ≡ some b → a ≡ b
  pub room : (max : ℕ) → c.max_redemptions ≡ some max → c.redemption_count < max
  pub host_active : host.status ≡ active

redeem_commit_found :
    (c : Coupon) (attendee_id : ℕ) (dto : RedeemCoupon) (db_now : ℕ) (r : Redemption) (s : State)
    → (transaction (redeem_commit c attendee_id dto db_now) s).0 ≡ ok r
    → let s' = (transaction (redeem_commit c attendee_id dto db_now) s).1 in
      (redeemed r.coupon_id attendee_id s' ≡ some r)
      × ((key : Text) → truthy dto.idempotency_key ≡ some key → find_key (some key) s' ≡ some r)
unfolding redeem_commit
redeem_commit_found c attendee_id dto db_now r s h =
    (ground arith, λ key e. ground (arith, text_eq_refl key))

-- A redemption that succeeded and was no replay committed its transaction on the validated coupon.
redeem_new_ok :
    (attendee_id : ℕ) (dto : RedeemCoupon) (now db_now : ℕ) (r : Redemption) (s : State)
    → (redeem_new attendee_id dto now db_now s).0 ≡ ok r
    → (c : Coupon) × ((transaction (redeem_commit c attendee_id dto db_now) s).0 ≡ ok r)
      × ((redeem_new attendee_id dto now db_now s).1.redemptions
          ≡ (transaction (redeem_commit c attendee_id dto db_now) s).1.redemptions)
unfolding redeem_new
redeem_new_ok attendee_id dto now db_now r s h =
    go (validate_coupon dto (some attendee_id) now s) refl
      (validate_coupon-state dto (some attendee_id) now s)
  where
    go :
        (v : Result Error Coupon × State)
        → validate_coupon dto (some attendee_id) now s ≡ v
        → (validate_coupon dto (some attendee_id) now s).1 ≡ s
        → (c : Coupon) × ((transaction (redeem_commit c attendee_id dto db_now) s).0 ≡ ok r)
          × ((redeem_new attendee_id dto now db_now s).1.redemptions
              ≡ (transaction (redeem_commit c attendee_id dto db_now) s).1.redemptions)
    go (ok c, s') e same = (c, ground arith, ground arith)
    go (err x, s') e same = absurd (ground arith)

redeem_commit_new :
    (c : Coupon) (attendee_id : ℕ) (dto : RedeemCoupon) (db_now : ℕ) (r : Redemption) (s : State)
    → (transaction (redeem_commit c attendee_id dto db_now) s).0 ≡ ok r
    → redeemed r.coupon_id attendee_id s ≡ none
unfolding redeem_commit
redeem_commit_new c attendee_id dto db_now r s h = ground arith

-- What the tables hold after a redemption that was no replay.
redeem_new_found :
    (attendee_id : ℕ) (dto : RedeemCoupon) (now db_now : ℕ) (r : Redemption) (s : State)
    → (redeem_new attendee_id dto now db_now s).0 ≡ ok r
    → let s' = (redeem_new attendee_id dto now db_now s).1 in
      (redeemed r.coupon_id attendee_id s ≡ none)
      × (redeemed r.coupon_id attendee_id s' ≡ some r)
      × ((key : Text) → truthy dto.idempotency_key ≡ some key → find_key (some key) s' ≡ some r)
redeem_new_found attendee_id dto now db_now r s h =
    let (c, done, rows) = redeem_new_ok attendee_id dto now db_now r s h in
    let (kept, keyed) = redeem_commit_found c attendee_id dto db_now r s done in
    (
      redeem_commit_new c attendee_id dto db_now r s done,
      rw rows kept,
      λ key e. rw rows (keyed key e),
    )

redeem_coupon_key :
    (attendee_id : ℕ) (dto : RedeemCoupon) (now db_now : ℕ) (key : Text) (r : Redemption)
    (s : State)
    → truthy dto.idempotency_key ≡ some key
    → (redeem_coupon attendee_id dto now db_now s).0 ≡ ok r
    → find_key (some key) (redeem_coupon attendee_id dto now db_now s).1 ≡ some r
unfolding redeem_coupon
redeem_coupon_key attendee_id dto now db_now key r s e h =
    elim (Option-cases (find_key (truthy dto.idempotency_key) s)) [
      | inl fresh ↦ ground (
        arith,
        λ (h' : (redeem_new attendee_id dto now db_now s).0 ≡ ok r).
            (redeem_new_found attendee_id dto now db_now r s h').2 key e,
      )
      | inr (old, found) ↦ ground arith
    ]

-- A request that is sent again with the idempotency key of a redemption gets that redemption and
-- writes nothing, at any later time.
pub redeem_replay :
    (attendee_id caller : ℕ) (dto again : RedeemCoupon) (now db_now later : ℕ) (key : Text)
    (r : Redemption) (s : State)
    → truthy dto.idempotency_key ≡ some key
    → truthy again.idempotency_key ≡ some key
    → (redeem_coupon attendee_id dto now db_now s).0 ≡ ok r
    → let s' = (redeem_coupon attendee_id dto now db_now s).1 in
      redeem_coupon caller again later later s' ≡ (ok r, s')
unfolding redeem_coupon
redeem_replay attendee_id caller dto again now db_now later key r s e e' h =
    ground (arith, redeem_coupon_key attendee_id dto now db_now key r s e h)

-- Without an idempotency key an attendee redeems a coupon once: a second redemption that succeeds
-- is one of another coupon.
redeem_once :
    (attendee_id : ℕ) (dto again : RedeemCoupon) (now db_now later : ℕ) (r r' : Redemption)
    (s : State)
    → truthy dto.idempotency_key ≡ none
    → truthy again.idempotency_key ≡ none
    → (redeem_coupon attendee_id dto now db_now s).0 ≡ ok r
    → (redeem_coupon attendee_id again later later (redeem_coupon attendee_id dto now db_now s).1).0
      ≡ ok r'
    → r'.coupon_id ≢ r.coupon_id
unfolding redeem_coupon
redeem_once attendee_id dto again now db_now later r r' s e e' h h' same =
    let s' = (redeem_new attendee_id dto now db_now s).1 in
    let first = redeem_new_found attendee_id dto now db_now r s (ground arith) in
    let second = redeem_new_found attendee_id again later later r' s' (ground arith) in
    cc (first.1, second.0, same)
