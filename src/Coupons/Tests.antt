-- ===== src/Coupons/Tests.antt =====
-- Runs of the coupon methods on one coupon with one redemption left.
use innovents.Shared.{
  transaction, ok, err, Text, ℕ, ◌≡◌, refl, true, Option, none, some, List, [], ◌∷◌, arith,
}
use innovents.Accounts.{User, active, provider}
use innovents.Coupons.{
  validate_coupon, new_redemption, redeem_commit, redeem_new, redeem_coupon, run, Event, Coupon,
  Redemption, RedeemCoupon, State, Call, fixed_amount, limit_reached, refused, redeems,
}
use innovents.Coupons.Redemptions.{run-IsTallied, IsLimited, redeem_commit-IsLimited, IsTallied}
use innovents.Coupons.Rules.{redeem_replay}

abbrev host : User
host = record { id = 7; status = active; deleted_at = none; roles = provider ∷ [] }

abbrev summit : Event
summit = record { id = 10; ends_at = 1000; deleted_at = none }

-- The code "AB", as typed and normalized.
abbrev typed : Text
typed = 32 ∷ b'a' ∷ b'B' ∷ []

abbrev coupon : Coupon
coupon = record {
  id = 20;
  provider_id = 7;
  event_id = 10;
  service_id = none;
  code = typed;
  normalized_code = b'A' ∷ b'B' ∷ [];
  description = none;
  discount_type = fixed_amount;
  discount_value = 500;
  max_redemptions = some 1;
  redemption_count = 0;
  starts_at = none;
  expires_at = 900;
  is_active = true;
  deleted_at = none;
}

abbrev start : State
start = record {
  users = host ∷ [];
  events = summit ∷ [];
  coupons = coupon ∷ [];
  redemptions = [];
  outbox = [];
  audit = [];
  next_id = 100;
}

abbrev request : Option Text → RedeemCoupon
request key = record { code = typed; event_id = 10; service_id = none; idempotency_key = key }

abbrev bought : Option Text → Redemption
bought key = new_redemption 100 coupon 1 (request key) 5

redeemed_once : (redeem_coupon 1 (request none) 5 5 start).0 ≡ ok (bought none)
unfolding redeem_coupon redeem_new validate_coupon redeem_commit
redeemed_once = refl

second_is_refused :
    (redeem_coupon 2 (request none) 6 6 (redeem_coupon 1 (request none) 5 5 start).1).0
    ≡ err (refused limit_reached)
unfolding redeem_coupon redeem_new validate_coupon redeem_commit
second_is_refused = refl

start-IsTallied : IsTallied 20 1 start
start-IsTallied = ground arith

abbrev calls : List (ℕ × Call)
calls = (5, redeems 1 (request none)) ∷ (6, redeems 2 (request none)) ∷ []

run-IsTallied_example : IsTallied 20 1 (run calls start)
run-IsTallied_example = run-IsTallied 20 1 calls start start-IsTallied

redeem_commit-IsLimited_example :
    IsLimited 20 (transaction (redeem_commit coupon 1 (request none) 5) start).1
redeem_commit-IsLimited_example = redeem_commit-IsLimited 20 coupon 1 (request none) 5 start refl

abbrev key : Text
key = b'k' ∷ []

redeem_replay_example :
    let s' = (redeem_coupon 1 (request (some key)) 5 5 start).1 in
    redeem_coupon 2 (request (some key)) 9 9 s' ≡ (ok (bought (some key)), s')
unfolding redeem_coupon redeem_new validate_coupon redeem_commit
redeem_replay_example =
    redeem_replay 1 2 (request (some key)) (request (some key)) 5 5 9 key (bought (some key)) start
      refl refl refl

-- A second coupon of the same event, for the same attendee.
abbrev other : Coupon
other = record coupon { id = 21; normalized_code = b'C' ∷ [] }
