-- ===== src/Coupons.antt =====
-- Coupons: src/modules/c2b-marketplace/services/coupons.service.ts. `now` is the clock of the
-- server and `db_now` that of the database. Discounts are whole cents. The transaction of a
-- redemption is a definition of its own, since the coupon is validated before it.
pub mod Redemptions
pub mod Rules
mod Tests
use innovents.Accounts.{is_active, is_provider, some_role, find_user, User}
use innovents.Shared.{
  ltb, leb, ◌==◌, if◌then◌else◌, is_some, test_or, map_option, find, find_by, update_by, Action,
  pure, gets, modify, raise_if, or_raise, ◌>>=◌, ◌>>◌, transaction, Result, HttpStatus, ok, err,
  Text, trim, to_upper_case, text_eq, truthy, ℕ, suc, ◌+◌, max, Bool, true, false, not, ◌&&◌, ◌||◌,
  Option, none, some, List, [], ◌∷◌,
}

pub data DiscountType : Type 0 where
  percentage fixed_amount : DiscountType

pub record Event : Type 0 where
  pub id : ℕ
  pub ends_at : ℕ
  pub deleted_at : Option ℕ

pub record Coupon : Type 0 where
  pub id : ℕ
  pub provider_id : ℕ
  pub event_id : ℕ
  pub service_id : Option ℕ
  pub code : Text
  pub normalized_code : Text
  pub description : Option Text
  pub discount_type : DiscountType
  pub discount_value : ℕ
  pub max_redemptions : Option ℕ
  pub redemption_count : ℕ
  pub starts_at : Option ℕ
  pub expires_at : ℕ
  pub is_active : Bool
  pub deleted_at : Option ℕ

pub record Redemption : Type 0 where
  pub id : ℕ
  pub coupon_id : ℕ
  pub attendee_id : ℕ
  pub event_id : ℕ
  pub service_id : Option ℕ
  pub discount_amount : ℕ
  pub idempotency_key : Option Text
  pub redeemed_at : ℕ

-- CreateCouponDto
pub record CreateCoupon : Type 0 where
  pub event_id : ℕ
  pub service_id : Option ℕ
  pub code : Text
  pub description : Option Text
  pub discount_type : DiscountType
  pub discount_value : ℕ
  pub max_redemptions : Option ℕ
  pub starts_at : Option ℕ
  pub expires_at : ℕ
  pub is_active : Option Bool

-- UpdateCouponDto; an absent field is `none`, and where it makes a difference a null is `some none`.
pub record UpdateCoupon : Type 0 where
  pub description : Option (Option Text)
  pub discount_type : Option DiscountType
  pub discount_value : Option (Option ℕ)
  pub max_redemptions : Option (Option ℕ)
  pub starts_at : Option ℕ
  pub expires_at : Option ℕ
  pub is_active : Option (Option Bool)

-- RedeemCouponDto; ValidateCouponDto is the same without the key.
pub record RedeemCoupon : Type 0 where
  pub code : Text
  pub event_id : ℕ
  pub service_id : Option ℕ
  pub idempotency_key : Option Text

-- COUPON_REDEEMED with the redemption, the provider and the attendee.
pub data Message : Type 0 where
  coupon_redeemed : ℕ → ℕ → ℕ → Message

-- The audit entries: actor and coupon or redemption.
pub data AuditEntry : Type 0 where
  audit_created audit_updated audit_redeemed : ℕ → ℕ → AuditEntry

pub record State : Type 0 where
  pub users : List User
  pub events : List Event
  pub coupons : List Coupon
  pub redemptions : List Redemption
  pub outbox : List Message
  pub audit : List AuditEntry
  pub next_id : ℕ

-- Why `validateCoupon` says that a coupon is not valid.
pub data Refusal : Type 0 where
  invalid_code coupon_inactive coupon_expired coupon_early wrong_event wrong_service : Refusal
  limit_reached provider_inactive already_redeemed : Refusal

pub data Error : Type 0 where
  provider_not_found account_inactive not_provider event_not_found event_ended : Error
  code_exists coupon_not_found not_authorized redeemed_before coupon_exhausted : Error
  broken_reference duplicate_row null_refused : Error
  refused : Refusal → Error

unfoldable pub http_status : Error → HttpStatus
http_status provider_not_found = HttpStatus.not_found
http_status event_not_found = HttpStatus.not_found
http_status coupon_not_found = HttpStatus.not_found
http_status account_inactive = HttpStatus.forbidden
http_status not_provider = HttpStatus.forbidden
http_status not_authorized = HttpStatus.forbidden
http_status code_exists = HttpStatus.conflict
http_status redeemed_before = HttpStatus.conflict
http_status coupon_exhausted = HttpStatus.conflict
http_status broken_reference = HttpStatus.internal
http_status duplicate_row = HttpStatus.internal
http_status _ = HttpStatus.bad_request

abbrev pub coupon_key : Coupon → ℕ
coupon_key c = c.id

abbrev pub redemption_key : Redemption → ℕ
redemption_key r = r.id

abbrev pub normalize : Text → Text
normalize code = to_upper_case (trim code)

abbrev pub get_or {ℓ} : {A : Type ℓ} → Option A → A → A
get_or none d = d
get_or (some a) d = a

-- `new.x && { x: new.x }`, for a column that may be null.
abbrev pub or_keep {ℓ} : {A : Type ℓ} → Option A → Option A → Option A
or_keep none old = old
or_keep (some a) old = some a

pub assert_active_provider : ℕ → Action State Error (Unit {0})
assert_active_provider user_id = do
  user ← or_raise (← gets (λ s. find_user user_id s.users)) provider_not_found
  raise_if (not (is_active user.status)) account_inactive
  raise_if (not (some_role is_provider user.roles)) not_provider

abbrev pub new_coupon : ℕ → ℕ → CreateCoupon → ℕ → Coupon
new_coupon id provider_id dto ends_at = record {
  id = id;
  provider_id = provider_id;
  event_id = dto.event_id;
  service_id = dto.service_id;
  code = trim dto.code;
  normalized_code = normalize dto.code;
  description = dto.description;
  discount_type = dto.discount_type;
  discount_value = dto.discount_value;
  max_redemptions = dto.max_redemptions;
  redemption_count = 0;
  starts_at = dto.starts_at;
  expires_at = if ltb ends_at dto.expires_at then ends_at else dto.expires_at;
  is_active = get_or dto.is_active true;
  deleted_at = none;
}

-- `coupon.findUnique({ where: { normalizedCode } })`
abbrev pub find_code : Text → State → Option Coupon
find_code code s = find (λ c. text_eq c.normalized_code code) s.coupons

pub create_coupon : ℕ → CreateCoupon → ℕ → Action State Error Coupon
create_coupon provider_id dto now = do
  assert_active_provider provider_id
  event ←
      or_raise
        (← gets (λ s. find (λ e. e.id == dto.event_id && not (is_some e.deleted_at)) s.events))
        event_not_found
  raise_if (leb event.ends_at now) event_ended
  existing ← gets (find_code (normalize dto.code))
  raise_if (is_some existing) code_exists
  id ← gets (λ s. s.next_id)
  let c = new_coupon id provider_id dto event.ends_at
  modify (λ s. record s { coupons = c ∷ s.coupons; next_id = suc s.next_id })
  modify (λ s. record s { audit = audit_created provider_id id ∷ s.audit })
  pure c

abbrev pub apply_update : UpdateCoupon → ℕ → Coupon → Coupon
apply_update dto ends_at c = record c {
  description = get_or dto.description c.description;
  discount_type = get_or dto.discount_type c.discount_type;
  discount_value = get_or (get_or dto.discount_value none) c.discount_value;
  max_redemptions = get_or dto.max_redemptions c.max_redemptions;
  starts_at = or_keep dto.starts_at c.starts_at;
  expires_at =
      get_or (map_option (λ t. if ltb ends_at t then ends_at else t) dto.expires_at) c.expires_at;
  is_active = get_or (get_or dto.is_active none) c.is_active;
}

abbrev pub is_null {ℓ} : {A : Type ℓ} → Option (Option A) → Bool
is_null (some none) = true
is_null _ = false

-- A null for the value makes `new Prisma.Decimal` throw, and one for the flag the update of its column.
pub update_coupon : ℕ → ℕ → UpdateCoupon → Action State Error (Unit {0})
update_coupon provider_id coupon_id dto = do
  assert_active_provider provider_id
  c ←
      or_raise (← gets (λ s. find (λ c. c.id == coupon_id && not (is_some c.deleted_at)) s.coupons))
        coupon_not_found
  raise_if (not (c.provider_id == provider_id)) not_authorized
  event ← or_raise (← gets (λ s. find_by (λ e. e.id) c.event_id s.events)) broken_reference
  raise_if (is_null dto.discount_value || is_null dto.is_active) null_refused
  modify (λ s. record s {
    coupons = update_by coupon_key coupon_id (apply_update dto event.ends_at) s.coupons;
    audit = audit_updated provider_id coupon_id ∷ s.audit;
  })

-- `where: { couponId_attendeeId: { couponId, attendeeId } }`
abbrev pub is_redemption_of : ℕ → ℕ → Redemption → Bool
is_redemption_of coupon_id attendee_id r = r.coupon_id == coupon_id && r.attendee_id == attendee_id

abbrev pub redeemed : ℕ → ℕ → State → Option Redemption
redeemed coupon_id attendee_id s = find (is_redemption_of coupon_id attendee_id) s.redemptions

-- `if (c) return { valid: false, message }`
abbrev pub deny : Bool → Refusal → Result Refusal (Unit {0}) → Result Refusal (Unit {0})
deny true why rest = err why
deny false why rest = rest

-- `coupon.serviceId && dto.serviceId && coupon.serviceId !== dto.serviceId`
abbrev pub differs : Option ℕ → Option ℕ → Bool
differs none _ = false
differs (some a) none = false
differs (some a) (some b) = not (a == b)

-- The checks of `validateCoupon` on the coupon that was found, in their order. `used` says whether
-- a caller who is known has redeemed it.
pub check_coupon : Coupon → Event → User → RedeemCoupon → ℕ → Bool → Result Refusal (Unit {0})
check_coupon c event host dto now used = deny (not c.is_active) coupon_inactive (
    deny (leb c.expires_at now || leb event.ends_at now) coupon_expired (
      deny (test_or false (λ t. ltb now t) c.starts_at) coupon_early (
        deny (not (c.event_id == dto.event_id)) wrong_event (
          deny (differs c.service_id dto.service_id) wrong_service (
            deny (test_or false (λ max. leb max c.redemption_count) c.max_redemptions) limit_reached
              (deny (not (is_active host.status)) provider_inactive
                (deny used already_redeemed (ok tt))))))))

-- `coupon.findFirst({ where: { normalizedCode, deletedAt: null } })`
abbrev pub find_live_code : Text → State → Option Coupon
find_live_code code s =
    find (λ c. text_eq c.normalized_code code && not (is_some c.deleted_at)) s.coupons

abbrev pub lift : {A : Type 0} → Result Refusal A → Action State Error A
lift (ok a) s = (ok a, s)
lift (err why) s = (err (refused why), s)

-- `validateCoupon`; a refusal is an error here, and the caller rethrows it.
pub validate_coupon : RedeemCoupon → Option ℕ → ℕ → Action State Error Coupon
unfolding check_coupon
validate_coupon dto attendee_id now = do
  c ← or_raise (← gets (find_live_code (normalize dto.code))) (refused invalid_code)
  event ← or_raise (← gets (λ s. find_by (λ e. e.id) c.event_id s.events)) broken_reference
  host ← or_raise (← gets (λ s. find_by (λ u. u.id) c.provider_id s.users)) broken_reference
  used ← gets (λ s. test_or false (λ a. is_some (redeemed c.id a s)) attendee_id)
  lift (check_coupon c event host dto now used)
  pure c

-- The WHERE clause of the guarded `UPDATE coupons SET redemption_count = redemption_count + 1`.
abbrev pub can_redeem : ℕ → Coupon → Bool
can_redeem db_now c =
    c.is_active
    && ltb db_now c.expires_at
    && test_or true (λ t. leb t db_now) c.starts_at
    && test_or true (λ max. ltb c.redemption_count max) c.max_redemptions
    && not (is_some c.deleted_at)

abbrev pub count_redemption : Coupon → Coupon
count_redemption c = record c { redemption_count = c.redemption_count + 1 }

-- `couponRedemption.findUnique({ where: { idempotencyKey } })`
abbrev pub find_key : Option Text → State → Option Redemption
find_key none s = none
find_key (some key) s =
    find (λ r. test_or false (λ k. text_eq k key) r.idempotency_key) s.redemptions

abbrev pub new_redemption : ℕ → Coupon → ℕ → RedeemCoupon → ℕ → Redemption
new_redemption id c attendee_id dto now = record {
  id = id;
  coupon_id = c.id;
  attendee_id = attendee_id;
  event_id = dto.event_id;
  service_id = dto.service_id;
  discount_amount = c.discount_value;
  idempotency_key = truthy dto.idempotency_key;
  redeemed_at = now;
}

-- The transaction of `redeemCoupon`, with the coupon that was validated before it. The key of a
-- redemption is unique.
pub redeem_commit : Coupon → ℕ → RedeemCoupon → ℕ → Action State Error Redemption
redeem_commit c attendee_id dto db_now = do
  raise_if (is_some (← gets (redeemed c.id attendee_id))) redeemed_before
  row ← gets (λ s. find_by coupon_key c.id s.coupons)
  raise_if (not (test_or false (can_redeem db_now) row)) coupon_exhausted
  modify (λ s. record s { coupons = update_by coupon_key c.id count_redemption s.coupons })
  raise_if (is_some (← gets (find_key (truthy dto.idempotency_key)))) duplicate_row
  id ← gets (λ s. s.next_id)
  modify (λ s. record s {
    redemptions = new_redemption id c attendee_id dto db_now ∷ s.redemptions;
    outbox = coupon_redeemed id c.provider_id attendee_id ∷ s.outbox;
    next_id = suc s.next_id;
  })
  pure (new_redemption id c attendee_id dto db_now)

-- A redemption that is not a replay of an earlier request.
pub redeem_new : ℕ → RedeemCoupon → ℕ → ℕ → Action State Error Redemption
redeem_new attendee_id dto now db_now = do
  c ← validate_coupon dto (some attendee_id) now
  r ← transaction (redeem_commit c attendee_id dto db_now)
  modify (λ s. record s { audit = audit_redeemed attendee_id r.id ∷ s.audit })
  pure r

-- With the key of an earlier request, the redemption of that request is returned.
abbrev pub or_replay :
    Option Redemption → Action State Error Redemption → Action State Error Redemption
or_replay (some r) m s = (ok r, s)
or_replay none m s = m s

pub redeem_coupon : ℕ → RedeemCoupon → ℕ → ℕ → Action State Error Redemption
redeem_coupon attendee_id dto now db_now = do
  earlier ← gets (find_key (truthy dto.idempotency_key))
  or_replay earlier (redeem_new attendee_id dto now db_now)

pub data Call : Type 0 where
  creates : ℕ → CreateCoupon → Call
  updates : ℕ → ℕ → UpdateCoupon → Call
  redeems : ℕ → RedeemCoupon → Call

-- Calls one after another, each at its time.
pub run : List (ℕ × Call) → State → State
run [] s = s
run ((now, creates provider_id dto) ∷ cs) s = run cs (create_coupon provider_id dto now s).1
run ((now, updates provider_id coupon_id dto) ∷ cs) s =
    run cs (update_coupon provider_id coupon_id dto s).1
run ((now, redeems attendee_id dto) ∷ cs) s = run cs (redeem_coupon attendee_id dto now now s).1
