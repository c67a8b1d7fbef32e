-- ===== src/Bookings.antt =====
-- C2B bookings: src/modules/c2b-marketplace/services/c2b-bookings.service.ts. A method reads its
-- rows before its transaction, so each transaction is a definition of its own that takes what was
-- read: two calls that interleave are two transactions that took the same row. `now` is the clock
-- of the server and `db_now` that of the database.
pub mod Count
pub mod Limit
pub mod Drift
mod Tests
use innovents.Accounts.{is_active, User}
use innovents.Shared.{
  ltb, leb, ◌==◌, if◌then◌else◌, is_some, test_or, find, find_by, update_by, Action, pure, gets,
  modify, raise_if, or_raise, when, ◌>>=◌, ◌>>◌, transaction, HttpStatus, ok, Text, or_text, ℕ, suc,
  ◌+◌, ◌-◌, max, Bool, true, false, not, ◌&&◌, Option, none, some, List, ◌∷◌,
}

pub data BookingStatus : Type 0 where
  pending confirmed rejected cancelled completed : BookingStatus

pub record Event : Type 0 where
  pub id : ℕ
  pub ends_at : ℕ

pub record Service : Type 0 where
  pub id : ℕ
  pub provider_id : ℕ
  pub event_id : ℕ
  pub is_available : Bool
  pub expires_at : ℕ
  pub deleted_at : Option ℕ
  pub max_bookings : Option ℕ
  pub booking_count : ℕ
  pub contact_method : Text

pub record Booking : Type 0 where
  pub id : ℕ
  pub service_id : ℕ
  pub attendee_id : ℕ
  pub provider_id : ℕ
  pub event_id : ℕ
  pub status : BookingStatus
  pub notes : Option Text
  pub provider_notes : Option Text
  pub contact_method : Option Text
  pub contact_value : Option Text
  pub requested_date : Option ℕ
  pub confirmed_at : Option ℕ
  pub cancelled_at : Option ℕ
  pub completed_at : Option ℕ

-- CreateC2bBookingDto
pub record CreateBooking : Type 0 where
  pub service_id : ℕ
  pub notes : Option Text
  pub contact_method : Option Text
  pub contact_value : Option Text
  pub requested_date : Option ℕ

-- UpdateC2bBookingStatusDto
pub record UpdateStatus : Type 0 where
  pub status : BookingStatus
  pub provider_notes : Option Text

-- C2B_BOOKING_REQUESTED with the booking, the provider and the attendee;
-- C2B_BOOKING_STATUS_CHANGED with the booking, the attendee and the status.
pub data Message : Type 0 where
  booking_requested : ℕ → ℕ → ℕ → Message
  status_changed : ℕ → ℕ → BookingStatus → Message

-- The audit entries: actor and booking.
pub data AuditEntry : Type 0 where
  audit_created audit_cancelled : ℕ → ℕ → AuditEntry
  audit_updated : ℕ → ℕ → BookingStatus → AuditEntry

pub record State : Type 0 where
  pub users : List User
  pub events : List Event
  pub services : List Service
  pub bookings : List Booking
  pub outbox : List Message
  pub audit : List AuditEntry
  pub next_id : ℕ

pub data Error : Type 0 where
  service_not_found service_unavailable service_expired event_ended provider_inactive : Error
  capacity_reached booking_not_found not_authorized booking_completed broken_reference : Error

-- The class of each exception; a dangling foreign key is none of the service's own.
unfoldable pub http_status : Error → HttpStatus
http_status service_not_found = HttpStatus.not_found
http_status booking_not_found = HttpStatus.not_found
http_status capacity_reached = HttpStatus.conflict
http_status not_authorized = HttpStatus.forbidden
http_status broken_reference = HttpStatus.internal
http_status _ = HttpStatus.bad_request

abbrev pub service_key : Service → ℕ
service_key v = v.id

abbrev pub booking_key : Booking → ℕ
booking_key b = b.id

abbrev pub find_service : ℕ → State → Option Service
find_service k s = find_by service_key k s.services

abbrev pub find_booking : ℕ → State → Option Booking
find_booking k s = find_by booking_key k s.bookings

abbrev pub is_completed : BookingStatus → Bool
is_completed completed = true
is_completed _ = false

abbrev pub is_confirmed : BookingStatus → Bool
is_confirmed confirmed = true
is_confirmed _ = false

abbrev pub is_cancelled : BookingStatus → Bool
is_cancelled BookingStatus.cancelled = true
is_cancelled _ = false

-- REJECTED and CANCELLED: the bookings that give their place back.
abbrev pub is_closed : BookingStatus → Bool
is_closed BookingStatus.rejected = true
is_closed BookingStatus.cancelled = true
is_closed _ = false

-- The guarded `UPDATE c2b_services SET booking_count = booking_count + 1` and its WHERE clause.
abbrev pub has_room : ℕ → Service → Bool
has_room db_now v =
    v.is_available
    && ltb db_now v.expires_at
    && not (is_some v.deleted_at)
    && test_or true (λ max. ltb v.booking_count max) v.max_bookings

abbrev pub add_booking : Service → Service
add_booking v = record v { booking_count = v.booking_count + 1 }

-- `GREATEST(0, booking_count - 1)`
abbrev pub drop_booking : Service → Service
drop_booking v = record v { booking_count = v.booking_count - 1 }

-- One more booking is counted: with a limit only if the row still has room.
pub count_booking : Service → ℕ → Action State Error (Unit {0})
count_booking v db_now = do
  row ← gets (find_service v.id)
  raise_if (is_some v.max_bookings && not (test_or false (has_room db_now) row)) capacity_reached
  modify (λ s. record s { services = update_by service_key v.id add_booking s.services })

pub insert_booking : Service → ℕ → CreateBooking → Action State Error Booking
insert_booking v attendee_id dto s =
    (ok row, record s { bookings = row ∷ s.bookings; next_id = suc s.next_id })
  where
    row : Booking
    row = record {
      id = s.next_id;
      service_id = dto.service_id;
      attendee_id = attendee_id;
      provider_id = v.provider_id;
      event_id = v.event_id;
      status = pending;
      notes = dto.notes;
      provider_notes = none;
      contact_method = or_text dto.contact_method (some v.contact_method);
      contact_value = dto.contact_value;
      requested_date = dto.requested_date;
      confirmed_at = none;
      cancelled_at = none;
      completed_at = none;
    }

-- The transaction of `createBooking`, with the service read before it.
pub create_commit : Service → ℕ → CreateBooking → ℕ → Action State Error Booking
unfolding count_booking insert_booking
create_commit v attendee_id dto db_now = do
  count_booking v db_now
  row ← insert_booking v attendee_id dto
  modify (λ s. record s { outbox = booking_requested row.id v.provider_id attendee_id ∷ s.outbox })
  pure row

-- The checks of `createBooking` before its transaction.
pub check_service : CreateBooking → ℕ → Action State Error Service
check_service dto now = do
  v ←
      or_raise
        (← gets (λ s. find (λ v. v.id == dto.service_id && not (is_some v.deleted_at)) s.services))
        service_not_found
  event ← or_raise (← gets (λ s. find_by (λ e. e.id) v.event_id s.events)) broken_reference
  host ← or_raise (← gets (λ s. find_by (λ u. u.id) v.provider_id s.users)) broken_reference
  raise_if (not v.is_available) service_unavailable
  raise_if (leb v.expires_at now) service_expired
  raise_if (leb event.ends_at now) event_ended
  raise_if (not (is_active host.status)) provider_inactive
  pure v

pub create_booking : ℕ → CreateBooking → ℕ → ℕ → Action State Error Booking
create_booking attendee_id dto now db_now = do
  v ← check_service dto now
  row ← transaction (create_commit v attendee_id dto db_now)
  modify (λ s. record s { audit = audit_created attendee_id row.id ∷ s.audit })
  pure row

abbrev pub set_status : UpdateStatus → ℕ → Booking → Booking
set_status dto now b = record b {
  status = dto.status;
  provider_notes = if is_some dto.provider_notes then dto.provider_notes else b.provider_notes;
  confirmed_at = if is_confirmed dto.status then some now else b.confirmed_at;
  cancelled_at = if is_cancelled dto.status then some now else b.cancelled_at;
  completed_at = if is_completed dto.status then some now else b.completed_at;
}

-- The transaction of `updateBookingStatus`, with the booking read before it.
pub update_commit : Booking → UpdateStatus → ℕ → Action State Error (Unit {0})
update_commit b dto now = do
  when (is_closed dto.status && not (is_closed b.status)) (
      modify
        (λ s. record s { services = update_by service_key b.service_id drop_booking s.services }))
  or_raise (← gets (find_booking b.id)) booking_not_found
  modify (λ s. record s {
    bookings = update_by booking_key b.id (set_status dto now) s.bookings;
    outbox = status_changed b.id b.attendee_id dto.status ∷ s.outbox;
  })

pub update_booking_status : ℕ → ℕ → UpdateStatus → ℕ → Action State Error (Unit {0})
update_booking_status provider_id booking_id dto now = do
  b ← or_raise (← gets (find_booking booking_id)) booking_not_found
  raise_if (not (b.provider_id == provider_id)) not_authorized
  transaction (update_commit b dto now)
  modify (λ s. record s { audit = audit_updated provider_id booking_id dto.status ∷ s.audit })

abbrev pub set_cancelled : ℕ → Booking → Booking
set_cancelled now b = record b { status = BookingStatus.cancelled; cancelled_at = some now }

-- The transaction of `cancelBooking`, with the booking read before it.
pub cancel_commit : Booking → ℕ → Action State Error (Unit {0})
cancel_commit b now = do
  modify (λ s. record s { services = update_by service_key b.service_id drop_booking s.services })
  or_raise (← gets (find_booking b.id)) booking_not_found
  modify (λ s. record s {
    bookings = update_by booking_key b.id (set_cancelled now) s.bookings;
    outbox = status_changed b.id b.attendee_id BookingStatus.cancelled ∷ s.outbox;
  })

-- What is done after the checks: a cancelled booking is returned as it is.
pub cancel_open : Booking → ℕ → ℕ → Action State Error (Unit {0})
unfolding cancel_commit
cancel_open b attendee_id now = when (not (is_cancelled b.status)) (do
  raise_if (is_completed b.status) booking_completed
  transaction (cancel_commit b now)
  modify (λ s. record s { audit = audit_cancelled attendee_id b.id ∷ s.audit }))

pub cancel_booking : ℕ → ℕ → ℕ → Action State Error (Unit {0})
unfolding cancel_open
cancel_booking attendee_id booking_id now = do
  b ← or_raise (← gets (find_booking booking_id)) booking_not_found
  raise_if (not (b.attendee_id == attendee_id)) not_authorized
  cancel_open b attendee_id now

-- `getBookingById`
pub get_booking_by_id : ℕ → ℕ → Action State Error Booking
get_booking_by_id user_id booking_id = do
  b ← or_raise (← gets (find_booking booking_id)) booking_not_found
  raise_if (not (b.attendee_id == user_id) && not (b.provider_id == user_id)) not_authorized
  pure b
