-- ===== src/Rfq/Requests.antt =====
-- RfqService: src/modules/b2b-marketplace/services/rfq.service.ts.
use innovents.Shared.{
  leb, ◌==◌, if◌then◌else◌, is_some, length, find, count_where, update_where, update_by, Action,
  pure, gets, modify, raise_if, or_raise, when, ◌>>=◌, ◌>>◌, Text, codes, truthy, ℕ, suc, ◌-◌, ◌≡◌,
  Bool, true, false, not, ◌&&◌, ◌||◌, Option, none, some, List, [], ◌∷◌, arith,
}
use innovents.Accounts.{is_active, is_sponsor, is_vendor, some_role, find_user}
use innovents.Rfq.Tables.{
  rfq_key, find_rfq, is_draft, is_sent, is_open, is_terminal, is_pending_of, assert_active,
  assert_active_role, RfqStatus, QuotationStatus, RfqItem, Rfq, Quotation, VendorService, State,
  Error, draft, sent, viewed, clarification_requested, cancelled, rfq_sent, rfq_viewed, rfq_expired,
  rfq_cancelled, rfq_rejected, rfq_clarification, audit_sent, audit_draft, audit_viewed,
  audit_clarification, audit_cancelled, audit_rejected, vendor_inactive, not_vendor, own_rfq,
  event_missing, expiration_passed, no_items, service_missing, rfq_not_found, not_permitted,
  wrong_status, rfq_expired_error,
}

-- CreateRfqDto; a date that does not parse is `none`.
pub record CreateRfq : Type 0 where
  pub vendor_id : ℕ
  pub event_id : Option ℕ
  pub title : Text
  pub expires_at : Option ℕ
  pub items : List RfqItem

-- `dto.items.map((i) => i.vendorServiceId).filter(Boolean)`
abbrev pub service_ids : List RfqItem → List ℕ
service_ids [] = []
service_ids (i ∷ is) = elim i.vendor_service_id [
  | none ↦ service_ids is
  | some k ↦ k ∷ service_ids is
]

abbrev pub includes : ℕ → List ℕ → Bool
includes k [] = false
includes k (j ∷ js) = j == k || includes k js

-- The services that `vendorService.findMany` returns for the ids.
abbrev pub is_offered : ℕ → List ℕ → VendorService → Bool
is_offered vendor_id ids v =
    includes v.id ids && v.vendor_id == vendor_id && v.is_active && not (is_some v.deleted_at)

abbrev pub new_rfq : ℕ → ℕ → CreateRfq → Bool → ℕ → ℕ → Rfq
new_rfq id sponsor_id dto as_draft expires_at now = record {
  id = id;
  sponsor_id = sponsor_id;
  vendor_id = dto.vendor_id;
  event_id = dto.event_id;
  title = dto.title;
  status = if as_draft then draft else sent;
  expires_at = expires_at;
  sent_at = if as_draft then none else some now;
  viewed_at = none;
  accepted_at = none;
  rejected_at = none;
  cancelled_at = none;
  cancellation_reason = none;
  rejection_reason = none;
  items = dto.items;
}

-- The recipient: an active vendor, and not the sponsor.
unfoldable pub check_vendor : ℕ → ℕ → Action State Error (Unit {0})
check_vendor sponsor_id vendor_id = do
  user ← or_raise (← gets (λ s. find_user vendor_id s.users)) vendor_inactive
  raise_if (not (is_active user.status)) vendor_inactive
  raise_if (not (some_role is_vendor user.roles)) not_vendor
  raise_if (sponsor_id == vendor_id) own_rfq

abbrev pub event_exists : Option ℕ → State → Bool
event_exists none s = true
event_exists (some k) s = is_some (find (λ e. e.id == k && not (is_some e.deleted_at)) s.events)

-- The ids of the items must be as many as the services found for them.
abbrev pub services_exist : CreateRfq → State → Bool
services_exist dto s =
    count_where (is_offered dto.vendor_id (service_ids dto.items)) s.vendor_services
    == length (service_ids dto.items)

-- The checks of `createRfq` on its request; the result is the expiration date.
unfoldable pub check_request : CreateRfq → ℕ → Action State Error ℕ
check_request dto now = do
  raise_if (not (← gets (event_exists dto.event_id))) event_missing
  expires_at ← or_raise dto.expires_at expiration_passed
  raise_if (leb expires_at now) expiration_passed
  raise_if (length dto.items == 0) no_items
  raise_if (not (← gets (services_exist dto))) service_missing
  pure expires_at

-- The delayed job that expires an RFQ.
abbrev pub add_job : ℕ → ℕ → ℕ → State → State
add_job rfq_id expires_at now s = record s {
  jobs = record { rfq_id = rfq_id; delay = expires_at - now } ∷ s.jobs;
}

-- The writes of `createRfq`: the row, and for one that is sent its event and its job.
unfoldable pub insert_rfq : ℕ → CreateRfq → Bool → ℕ → ℕ → Action State Error Rfq
insert_rfq sponsor_id dto as_draft expires_at now = do
  id ← gets (λ s. s.next_id)
  let r = new_rfq id sponsor_id dto as_draft expires_at now
  modify (λ s. record s { rfqs = r ∷ s.rfqs; next_id = suc s.next_id })
  when (not as_draft) (modify (λ s. record s { outbox = rfq_sent id ∷ s.outbox }))
  when (not as_draft) (modify (add_job id expires_at now))
  pure r

unfoldable pub create_rfq : ℕ → CreateRfq → Bool → ℕ → Action State Error Rfq
create_rfq sponsor_id dto as_draft now = do
  assert_active_role sponsor_id is_sponsor
  check_vendor sponsor_id dto.vendor_id
  expires_at ← check_request dto now
  r ← insert_rfq sponsor_id dto as_draft expires_at now
  modify (λ s. record s {
    audit =
        (if as_draft then audit_draft sponsor_id r.id else audit_sent sponsor_id r.id) ∷ s.audit;
  })
  pure r

abbrev pub set_sent : ℕ → Rfq → Rfq
set_sent now r = record r { status = sent; sent_at = some now }

unfoldable pub send_rfq : ℕ → ℕ → ℕ → Action State Error (Unit {0})
send_rfq sponsor_id rfq_id now = do
  assert_active_role sponsor_id is_sponsor
  r ← or_raise (← gets (find_rfq rfq_id)) rfq_not_found
  raise_if (not (r.sponsor_id == sponsor_id)) not_permitted
  raise_if (not (is_draft r.status)) wrong_status
  raise_if (leb r.expires_at now) expiration_passed
  modify (λ s. record s {
    rfqs = update_by rfq_key rfq_id (set_sent now) s.rfqs;
    outbox = rfq_sent rfq_id ∷ s.outbox;
  })
  modify (add_job rfq_id r.expires_at now)
  modify (λ s. record s { audit = audit_sent sponsor_id rfq_id ∷ s.audit })

abbrev pub set_status : RfqStatus → Rfq → Rfq
set_status st r = record r { status = st }

abbrev pub set_viewed : ℕ → Rfq → Rfq
set_viewed now r = record r { status = viewed; viewed_at = some now }

-- What `getRfqById` writes: an open RFQ past its date expires, and the first view by the vendor is
-- noted.
unfoldable pub note_view : ℕ → Rfq → ℕ → Action State Error Rfq
note_view user_id r now = do
  let past = leb r.expires_at now && is_open r.status
  let first = not past && r.vendor_id == user_id && is_sent r.status
  when past (
      modify (λ s. record s {
        rfqs = update_by rfq_key r.id (set_status RfqStatus.expired) s.rfqs;
        outbox = rfq_expired r.id ∷ s.outbox;
      }))
  when first (
      modify (λ s. record s {
        rfqs = update_by rfq_key r.id (set_viewed now) s.rfqs;
        outbox = rfq_viewed r.id ∷ s.outbox;
        audit = audit_viewed user_id r.id ∷ s.audit;
      }))
  pure (if past then set_status RfqStatus.expired r else if first then set_viewed now r else r)

unfoldable pub get_rfq_by_id : ℕ → ℕ → ℕ → Action State Error Rfq
get_rfq_by_id user_id rfq_id now = do
  assert_active user_id
  r ← or_raise (← gets (find_rfq rfq_id)) rfq_not_found
  raise_if (not (r.sponsor_id == user_id) && not (r.vendor_id == user_id)) not_permitted
  note_view user_id r now

-- SENT or VIEWED, when the vendor asks.
abbrev pub moves_to_clarification : RfqStatus → Bool
moves_to_clarification sent = true
moves_to_clarification viewed = true
moves_to_clarification _ = false

-- The transaction of `requestClarification`.
unfoldable pub clarify_commit : ℕ → Rfq → Text → Action State Error (Unit {0})
clarify_commit user_id r message = do
  modify (λ s. record s {
    clarifications =
        record { rfq_id = r.id; sender_id = user_id; message = message } ∷ s.clarifications;
  })
  when (r.vendor_id == user_id && moves_to_clarification r.status) (
      modify (λ s. record s {
        rfqs = update_by rfq_key r.id (set_status clarification_requested) s.rfqs;
      }))
  modify (λ s. record s {
    outbox =
        rfq_clarification r.id (if r.vendor_id == user_id then r.sponsor_id else r.vendor_id)
        ∷ s.outbox;
  })

-- Only the two parties ask, while the RFQ is neither closed nor past its date.
unfoldable pub check_clarification : ℕ → Rfq → ℕ → Action State Error (Unit {0})
check_clarification user_id r now = do
  raise_if (not (r.sponsor_id == user_id) && not (r.vendor_id == user_id)) not_permitted
  raise_if (is_terminal r.status) wrong_status
  raise_if (leb r.expires_at now) rfq_expired_error

unfoldable pub request_clarification : ℕ → ℕ → Text → ℕ → Action State Error (Unit {0})
request_clarification user_id rfq_id message now = do
  assert_active user_id
  r ← or_raise (← gets (find_rfq rfq_id)) rfq_not_found
  check_clarification user_id r now
  clarify_commit user_id r message
  modify (λ s. record s { audit = audit_clarification user_id rfq_id ∷ s.audit })

abbrev pub set_cancelled : Option Text → ℕ → Rfq → Rfq
set_cancelled reason now r = record r {
  status = cancelled;
  cancelled_at = some now;
  cancellation_reason = truthy reason;
}

unfoldable pub cancelled_by_sponsor : Text
cancelled_by_sponsor = codes "RFQ was cancelled by sponsor"

abbrev pub drop_quotation : ℕ → Quotation → Quotation
drop_quotation now q = record q {
  status = QuotationStatus.rejected;
  rejected_at = some now;
  rejection_reason = some cancelled_by_sponsor;
}

unfoldable pub cancel_rfq : ℕ → ℕ → Option Text → ℕ → Action State Error (Unit {0})
cancel_rfq sponsor_id rfq_id reason now = do
  assert_active_role sponsor_id is_sponsor
  r ← or_raise (← gets (find_rfq rfq_id)) rfq_not_found
  raise_if (not (r.sponsor_id == sponsor_id)) not_permitted
  raise_if (is_terminal r.status) wrong_status
  modify (λ s. record s {
    rfqs = update_by rfq_key rfq_id (set_cancelled reason now) s.rfqs;
    quotations = update_where (is_pending_of rfq_id) (drop_quotation now) s.quotations;
    outbox = rfq_cancelled rfq_id ∷ s.outbox;
  })
  modify (λ s. record s { audit = audit_cancelled sponsor_id rfq_id ∷ s.audit })

abbrev pub set_rejected : Option Text → ℕ → Rfq → Rfq
set_rejected reason now r = record r {
  status = RfqStatus.rejected;
  rejected_at = some now;
  rejection_reason = truthy reason;
}

unfoldable pub reject_rfq : ℕ → ℕ → Option Text → ℕ → Action State Error (Unit {0})
reject_rfq vendor_id rfq_id reason now = do
  assert_active_role vendor_id is_vendor
  r ← or_raise (← gets (find_rfq rfq_id)) rfq_not_found
  raise_if (not (r.vendor_id == vendor_id)) not_permitted
  raise_if (is_terminal r.status) wrong_status
  modify (λ s. record s {
    rfqs = update_by rfq_key rfq_id (set_rejected reason now) s.rfqs;
    outbox = rfq_rejected rfq_id ∷ s.outbox;
  })
  modify (λ s. record s { audit = audit_rejected vendor_id rfq_id ∷ s.audit })

pub check_vendor_state :
    (sponsor_id vendor_id : ℕ) (s : State) → (check_vendor sponsor_id vendor_id s).1 ≡ s
unfolding check_vendor
check_vendor_state sponsor_id vendor_id s = ground arith

pub check_request_state : (dto : CreateRfq) (now : ℕ) (s : State) → (check_request dto now s).1 ≡ s
unfolding check_request
check_request_state dto now s = ground arith

pub check_clarification_state :
    (user_id : ℕ) (r : Rfq) (now : ℕ) (s : State) → (check_clarification user_id r now s).1 ≡ s
unfolding check_clarification
check_clarification_state user_id r now s = ground arith
