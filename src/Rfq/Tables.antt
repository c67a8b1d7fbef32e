-- ===== src/Rfq/Tables.antt =====
-- The tables that the three services share (prisma/schema.prisma), and assertActiveUser.
use innovents.Accounts.{is_active, some_role, find_user, Role, User}
use innovents.Shared.{
  ◌==◌, find_by, Action, gets, raise_if, or_raise, ◌>>=◌, ◌>>◌, HttpStatus, Text, ℕ, ◌≡◌, Bool,
  true, false, not, ◌&&◌, Option, List, arith,
}

pub data RfqStatus : Type 0 where
  draft sent viewed clarification_requested quoted accepted rejected expired cancelled : RfqStatus

pub data QuotationStatus : Type 0 where
  pending accepted rejected superseded expired : QuotationStatus

pub record RfqItem : Type 0 where
  pub vendor_service_id : Option ℕ
  pub description : Text
  pub quantity : ℕ
  pub target_price : Option ℕ

pub record Rfq : Type 0 where
  pub id : ℕ
  pub sponsor_id : ℕ
  pub vendor_id : ℕ
  pub event_id : Option ℕ
  pub title : Text
  pub status : RfqStatus
  pub expires_at : ℕ
  pub sent_at : Option ℕ
  pub viewed_at : Option ℕ
  pub accepted_at : Option ℕ
  pub rejected_at : Option ℕ
  pub cancelled_at : Option ℕ
  pub cancellation_reason : Option Text
  pub rejection_reason : Option Text
  pub items : List RfqItem

pub record Clarification : Type 0 where
  pub rfq_id : ℕ
  pub sender_id : ℕ
  pub message : Text

pub record QuotationItem : Type 0 where
  pub rfq_item_id : Option ℕ
  pub description : Text
  pub quantity : ℕ
  pub unit_price : ℕ
  pub total : ℕ

pub record Quotation : Type 0 where
  pub id : ℕ
  pub rfq_id : ℕ
  pub vendor_id : ℕ
  pub version : ℕ
  pub status : QuotationStatus
  pub subtotal : ℕ
  pub tax : ℕ
  pub discount : ℕ
  pub total : ℕ
  pub valid_until : ℕ
  pub accepted_at : Option ℕ
  pub rejected_at : Option ℕ
  pub rejection_reason : Option Text
  pub items : List QuotationItem

pub record VendorService : Type 0 where
  pub id : ℕ
  pub vendor_id : ℕ
  pub is_active : Bool
  pub deleted_at : Option ℕ

pub record Event : Type 0 where
  pub id : ℕ
  pub deleted_at : Option ℕ

-- The outbox events, by the RFQ or quotation that they are about.
pub data Message : Type 0 where
  rfq_sent rfq_viewed rfq_expired rfq_cancelled rfq_rejected : ℕ → Message
  rfq_clarification : ℕ → ℕ → Message
  rfq_quoted rfq_accepted quotation_rejected : ℕ → ℕ → Message

-- The audit entries: actor and RFQ or quotation.
pub data AuditEntry : Type 0 where
  audit_sent audit_draft audit_viewed audit_clarification : ℕ → ℕ → AuditEntry
  audit_cancelled audit_rejected : ℕ → ℕ → AuditEntry
  audit_quoted audit_accepted audit_quotation_rejected : ℕ → ℕ → AuditEntry

-- A delayed job of the queue: `expire-rfq` for an RFQ, and its delay.
pub record Job : Type 0 where
  pub rfq_id : ℕ
  pub delay : ℕ

pub record State : Type 0 where
  pub users : List User
  pub events : List Event
  pub vendor_services : List VendorService
  pub rfqs : List Rfq
  pub clarifications : List Clarification
  pub quotations : List Quotation
  pub jobs : List Job
  pub outbox : List Message
  pub audit : List AuditEntry
  pub next_id : ℕ

pub data Error : Type 0 where
  user_not_found account_inactive missing_role : Error
  vendor_inactive not_vendor own_rfq event_missing expiration_passed no_items service_missing :
      Error
  rfq_not_found not_permitted wrong_status rfq_expired_error : Error
  validity_passed bad_quantity negative_price negative_tax negative_discount negative_total : Error
  quotation_not_found already_accepted broken_reference : Error

unfoldable pub http_status : Error → HttpStatus
http_status user_not_found = HttpStatus.not_found
http_status rfq_not_found = HttpStatus.not_found
http_status quotation_not_found = HttpStatus.not_found
http_status account_inactive = HttpStatus.forbidden
http_status missing_role = HttpStatus.forbidden
http_status not_permitted = HttpStatus.forbidden
http_status already_accepted = HttpStatus.conflict
http_status broken_reference = HttpStatus.internal
http_status _ = HttpStatus.bad_request

abbrev pub rfq_key : Rfq → ℕ
rfq_key r = r.id

abbrev pub quotation_key : Quotation → ℕ
quotation_key q = q.id

abbrev pub find_rfq : ℕ → State → Option Rfq
find_rfq k s = find_by rfq_key k s.rfqs

abbrev pub find_quotation : ℕ → State → Option Quotation
find_quotation k s = find_by quotation_key k s.quotations

abbrev pub is_draft : RfqStatus → Bool
is_draft draft = true
is_draft _ = false

abbrev pub is_sent : RfqStatus → Bool
is_sent sent = true
is_sent _ = false

abbrev pub is_accepted : RfqStatus → Bool
is_accepted RfqStatus.accepted = true
is_accepted _ = false

-- DRAFT, SENT, VIEWED and CLARIFICATION_REQUESTED: what may still expire.
abbrev pub is_open : RfqStatus → Bool
is_open draft = true
is_open sent = true
is_open viewed = true
is_open clarification_requested = true
is_open _ = false

-- ACCEPTED, REJECTED, CANCELLED and EXPIRED.
abbrev pub is_terminal : RfqStatus → Bool
is_terminal RfqStatus.accepted = true
is_terminal RfqStatus.rejected = true
is_terminal RfqStatus.expired = true
is_terminal cancelled = true
is_terminal _ = false

abbrev pub is_pending : QuotationStatus → Bool
is_pending pending = true
is_pending _ = false

abbrev pub is_accepted_quotation : QuotationStatus → Bool
is_accepted_quotation QuotationStatus.accepted = true
is_accepted_quotation _ = false

abbrev pub is_pending_of : ℕ → Quotation → Bool
is_pending_of k q = q.rfq_id == k && is_pending q.status

-- `assertActiveUser` without a role, and with one.
unfoldable pub assert_active : ℕ → Action State Error (Unit {0})
assert_active user_id = do
  user ← or_raise (← gets (λ s. find_user user_id s.users)) user_not_found
  raise_if (not (is_active user.status)) account_inactive

unfoldable pub assert_active_role : ℕ → (Role → Bool) → Action State Error (Unit {0})
assert_active_role user_id role = do
  user ← or_raise (← gets (λ s. find_user user_id s.users)) user_not_found
  raise_if (not (is_active user.status)) account_inactive
  raise_if (not (some_role role user.roles)) missing_role

pub assert_active_state : (user_id : ℕ) (s : State) → (assert_active user_id s).1 ≡ s
unfolding assert_active
assert_active_state user_id s = ground arith

pub assert_active_role_state :
    (user_id : ℕ) (role : Role → Bool) (s : State) → (assert_active_role user_id role s).1 ≡ s
unfolding assert_active_role
assert_active_role_state user_id role s = ground arith
