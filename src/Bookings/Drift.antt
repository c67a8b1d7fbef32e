-- ===== src/Bookings/Drift.antt =====
-- Where the counter of a service leaves the number of its live bookings.
use innovents.Shared.{
  update_by, Unique-update, find_by-update_if, count-update_if, ℕ, suc, ◌+◌, ◌≡◌, refl, true, false,
  some, List, arith,
}
use innovents.Bookings.{
  service_key, booking_key, find_booking, is_closed, drop_booking, set_status, update_commit,
  update_booking_status, set_cancelled, cancel_commit, cancel_booking, BookingStatus, Booking,
  UpdateStatus, State,
}
use innovents.Bookings.Count.{is_live_of, live_bookings, counter, IsCounted}

-- When the provider takes a rejected or cancelled booking back, one booking more is live and the
-- counter stays: it is one short, and the service accepts one booking more than its limit.
update_revives_uncounted :
    (provider_id : ℕ) (dto : UpdateStatus) (now : ℕ) (b : Booking) (s : State)
    → find_booking b.id s ≡ some b
    → b.provider_id ≡ provider_id
    → is_closed b.status ≡ true
    → is_closed dto.status ≡ false
    → IsCounted b.service_id s
    → let s' = (update_booking_status provider_id b.id dto now s).1 in
      (counter b.service_id s' ≡ counter b.service_id s)
      × (live_bookings b.service_id s' ≡ live_bookings b.service_id s + 1)
unfolding update_booking_status update_commit
update_revives_uncounted provider_id dto now b s found mine was is h = ground (
  arith,
  count-update_if booking_key (is_live_of b.service_id) (set_status dto now) b.id s.bookings h.keys,
)

-- When an attendee cancels a booking that the provider has rejected, its place is given back a
-- second time: no live booking has gone, and the counter falls.
cancel_rejected_drops :
    (attendee_id now n : ℕ) (b : Booking) (s : State)
    → find_booking b.id s ≡ some b
    → b.attendee_id ≡ attendee_id
    → b.status ≡ BookingStatus.rejected
    → IsCounted b.service_id s
    → counter b.service_id s ≡ some (suc n)
    → let s' = (cancel_booking attendee_id b.id now s).1 in
      (counter b.service_id s' ≡ some n) × (live_bookings b.service_id s' ≡ suc n)
unfolding cancel_booking cancel_commit
cancel_rejected_drops attendee_id now n b s found mine was h count = ground (
  arith,
  find_by-update_if service_key b.service_id b.service_id drop_booking s.services (λ x. refl),
  count-update_if booking_key (is_live_of b.service_id) (set_cancelled now) b.id s.bookings h.keys,
)

-- Two cancellations of one live booking that both read it before either commits give its place
-- back twice.
pub cancel_race_drops :
    (now later n : ℕ) (b : Booking) (s : State)
    → find_booking b.id s ≡ some b
    → is_closed b.status ≡ false
    → IsCounted b.service_id s
    → counter b.service_id s ≡ some (suc (suc n))
    → let s' = (cancel_commit b later (cancel_commit b now s).1).1 in
      (counter b.service_id s' ≡ some n) × (live_bookings b.service_id s' ≡ suc n)
unfolding cancel_commit
cancel_race_drops now later n b s found live h count =
    let rows : List Booking = update_by booking_key b.id (set_cancelled now) s.bookings in
    ground (
      arith,
      find_by-update_if service_key b.service_id b.service_id drop_booking s.services (λ x. refl),
      find_by-update_if service_key b.service_id b.service_id drop_booking
          (update_by service_key b.service_id drop_booking s.services) (λ x. refl),
      find_by-update_if booking_key b.id b.id (set_cancelled now) s.bookings (λ x. refl),
      count-update_if booking_key (is_live_of b.service_id) (set_cancelled now) b.id s.bookings
          h.keys,
      Unique-update booking_key b.id (set_cancelled now) s.bookings (λ x. refl) h.keys,
      count-update_if booking_key (is_live_of b.service_id) (set_cancelled later) b.id rows,
    )
