-- ===== src/Bookings/Count.antt =====
-- How the counter of a service relates to its bookings.
use innovents.Shared.{
  ◌==◌, is_some, map_option, Option-cases, ==_iff, find, count_where, find_holds, Unique,
  Unique-update, find_by-update_if, count-update_if, Below, Below-Absent, Below-suc, Below-update,
  ℕ, ◌≡◌, refl, sym, subst, ◌≢◌, inl, inr, Bool, false, not, ◌&&◌, Option, some, arith,
}
use innovents.Bookings.{
  service_key, booking_key, find_service, find_booking, is_closed, add_booking, drop_booking,
  create_commit, check_service, create_booking, set_status, update_commit, update_booking_status,
  set_cancelled, cancel_commit, cancel_booking, BookingStatus, Service, Booking, CreateBooking,
  UpdateStatus, State,
}

abbrev pub is_live_of : ℕ → Booking → Bool
is_live_of k b = b.service_id == k && not (is_closed b.status)

-- The bookings of the service `k` that are neither rejected nor cancelled.
abbrev pub live_bookings : ℕ → State → ℕ
live_bookings k s = count_where (is_live_of k) s.bookings

abbrev pub counter : ℕ → State → Option ℕ
counter k s = map_option (λ v. v.booking_count) (find_service k s)

pub record HasKeys (s : State) : Type 0 where
  pub keys : Unique booking_key s.bookings
  pub fresh : Below booking_key s.next_id s.bookings

-- The counter of the service `k` is the number of its live bookings.
pub record IsCounted (k : ℕ) (s : State) : Type 0 where
  pub keys : Unique booking_key s.bookings
  pub fresh : Below booking_key s.next_id s.bookings
  pub counted : counter k s ≡ some (live_bookings k s)

create_commit-IsCounted :
    (k : ℕ) (v : Service) (attendee_id : ℕ) (dto : CreateBooking) (db_now : ℕ) (s : State)
    → v.id ≡ dto.service_id
    → IsCounted k s
    → IsCounted k (create_commit v attendee_id dto db_now s).1
unfolding create_commit
create_commit-IsCounted k v attendee_id dto db_now s same h = ground (
  arith,
  find_by-update_if service_key k v.id add_booking s.services (λ x. refl),
  Below-Absent booking_key s.next_id s.bookings h.fresh,
  Below-suc booking_key s.next_id s.bookings h.fresh,
)

-- A new booking, or a refused one, keeps the counter of every service exact.
create_booking-IsCounted :
    (k attendee_id : ℕ) (dto : CreateBooking) (now db_now : ℕ) (s : State)
    → IsCounted k s
    → IsCounted k (create_booking attendee_id dto now db_now s).1
unfolding create_booking check_service
create_booking-IsCounted k attendee_id dto now db_now s h =
    elim (Option-cases
      (find (λ v. v.id == dto.service_id && not (is_some v.deleted_at)) s.services)) [
        | inl missing ↦ ground arith
        | inr (v, found) ↦ ground (
          arith,
          find_holds (λ v. v.id == dto.service_id && not (is_some v.deleted_at)) s.services v found,
          create_commit-IsCounted k v attendee_id dto db_now s,
        )
      ]

module _ (k : ℕ) (b : Booking) (now : ℕ) (s : State) (found : find_booking b.id s ≡ some b)
    (h : IsCounted k s) where
  update_commit-IsCounted :
      (dto : UpdateStatus)
      → is_closed b.status && not (is_closed dto.status) ≡ false
      → IsCounted k (update_commit b dto now s).1
  unfolding update_commit
  update_commit-IsCounted dto closed = ground (
    arith,
    find_by-update_if service_key k b.service_id drop_booking s.services (λ x. refl),
    count-update_if booking_key (is_live_of k) (set_status dto now) b.id s.bookings h.keys,
    Unique-update booking_key b.id (set_status dto now) s.bookings (λ x. refl) h.keys,
    Below-update booking_key s.next_id b.id (set_status dto now) s.bookings (λ x. refl) h.fresh,
  )

  cancel_commit-IsCounted : is_closed b.status ≡ false → IsCounted k (cancel_commit b now s).1
  unfolding cancel_commit
  cancel_commit-IsCounted live = ground (
    arith,
    find_by-update_if service_key k b.service_id drop_booking s.services (λ x. refl),
    count-update_if booking_key (is_live_of k) (set_cancelled now) b.id s.bookings h.keys,
    Unique-update booking_key b.id (set_cancelled now) s.bookings (λ x. refl) h.keys,
    Below-update booking_key s.next_id b.id (set_cancelled now) s.bookings (λ x. refl) h.fresh,
  )

-- A status update by the provider keeps the counter of every service exact, unless it takes a
-- rejected or cancelled booking back.
update_booking_status-IsCounted :
    (k provider_id booking_id : ℕ) (dto : UpdateStatus) (now : ℕ) (b : Booking) (s : State)
    → find_booking booking_id s ≡ some b
    → is_closed b.status && not (is_closed dto.status) ≡ false
    → IsCounted k s
    → IsCounted k (update_booking_status provider_id booking_id dto now s).1
unfolding update_booking_status
update_booking_status-IsCounted k provider_id booking_id dto now b s found closed h =
    let id : b.id ≡ booking_id =
      (==_iff b.id booking_id).0
        (find_holds (λ (x : Booking). x.id == booking_id) s.bookings b found) in
    ground (
      arith,
      update_commit-IsCounted k b now s
          (subst (λ (j : ℕ). find_booking j s ≡ some b) (sym id) found) h dto closed,
    )

-- A cancellation by the attendee keeps the counter of every service exact, unless the booking was
-- rejected.
cancel_booking-IsCounted :
    (k attendee_id booking_id now : ℕ) (b : Booking) (s : State)
    → find_booking booking_id s ≡ some b
    → b.status ≢ BookingStatus.rejected
    → IsCounted k s
    → IsCounted k (cancel_booking attendee_id booking_id now s).1
unfolding cancel_booking
cancel_booking-IsCounted k attendee_id booking_id now b s found live h =
    let id : b.id ≡ booking_id =
      (==_iff b.id booking_id).0
        (find_holds (λ (x : Booking). x.id == booking_id) s.bookings b found) in
    ground (
      arith,
      cancel_commit-IsCounted k b now s
          (subst (λ (j : ℕ). find_booking j s ≡ some b) (sym id) found) h,
    )

-- The calls that keep a rejected or cancelled booking closed: bookings, status updates that revive
-- none, and cancellations of bookings that were not rejected.
pub data Orderly (s : State) : State → Type 0 where
  books :
      (attendee_id : ℕ) (dto : CreateBooking) (now db_now : ℕ)
      → Orderly s (create_booking attendee_id dto now db_now s).1
  answers :
      (provider_id booking_id : ℕ) (dto : UpdateStatus) (now : ℕ) (b : Booking)
      → find_booking booking_id s ≡ some b
      → is_closed b.status && not (is_closed dto.status) ≡ false
      → Orderly s (update_booking_status provider_id booking_id dto now s).1
  withdraws :
      (attendee_id booking_id now : ℕ) (b : Booking)
      → find_booking booking_id s ≡ some b
      → b.status ≢ BookingStatus.rejected
      → Orderly s (cancel_booking attendee_id booking_id now s).1

pub data Run (s : State) : State → Type 0 where
  at_start : Run s s
  followed : {t u : State} → Run s t → Orderly t u → Run s u

Orderly-IsCounted : {s t : State} (k : ℕ) → Orderly s t → IsCounted k s → IsCounted k t
Orderly-IsCounted {s} k (books attendee_id dto now db_now) h =
    create_booking-IsCounted k attendee_id dto now db_now s h
Orderly-IsCounted {s} k (answers provider_id booking_id dto now b found closed) h =
    update_booking_status-IsCounted k provider_id booking_id dto now b s found closed h
Orderly-IsCounted {s} k (withdraws attendee_id booking_id now b found live) h =
    cancel_booking-IsCounted k attendee_id booking_id now b s found live h

-- Through any sequence of bookings, status updates that revive no rejected or cancelled booking, and
-- cancellations of bookings that were not rejected, the counter of every service stays the number of
-- its live bookings.
pub Run-IsCounted : {s t : State} (k : ℕ) → Run s t → IsCounted k s → IsCounted k t
Run-IsCounted k at_start h = h
Run-IsCounted k (followed r st) h = Orderly-IsCounted k st (Run-IsCounted k r h)
