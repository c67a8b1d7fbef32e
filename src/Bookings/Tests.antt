-- ===== src/Bookings/Tests.antt =====
-- Runs of the booking methods on one service with two places.
use innovents.Shared.{transaction, err, ℕ, ◌≡◌, refl, true, false, none, some, List, [], ◌∷◌, arith}
use innovents.Accounts.{User, active, provider}
use innovents.Bookings.{
  is_closed, create_commit, check_service, create_booking, set_status, update_commit,
  update_booking_status, cancel_commit, cancel_booking, BookingStatus, Service, Booking,
  CreateBooking, UpdateStatus, State, pending, confirmed, capacity_reached,
}
use innovents.Bookings.Count.{
  live_bookings, counter, Run-IsCounted, IsCounted, books, answers, withdraws, at_start, followed,
}
use innovents.Bookings.Limit.{IsLimited, Reach-IsLimited, creates, cancels, here, next}
use innovents.Bookings.Drift.{cancel_race_drops}

abbrev host : User
host = record { id = 7; status = active; deleted_at = none; roles = provider ∷ [] }

abbrev shuttle : Service
shuttle = record {
  id = 20;
  provider_id = 7;
  event_id = 10;
  is_available = true;
  expires_at = 500;
  deleted_at = none;
  max_bookings = some 2;
  booking_count = 0;
  contact_method = [];
}

abbrev start : State
start = record {
  users = host ∷ [];
  events = record { id = 10; ends_at = 1000 } ∷ [];
  services = shuttle ∷ [];
  bookings = [];
  outbox = [];
  audit = [];
  next_id = 100;
}

abbrev request : CreateBooking
request = record {
  service_id = 20;
  notes = none;
  contact_method = none;
  contact_value = none;
  requested_date = none;
}

abbrev row : ℕ → BookingStatus → Booking
row id status = record {
  id = id;
  service_id = 20;
  attendee_id = 1;
  provider_id = 7;
  event_id = 10;
  status = status;
  notes = none;
  provider_notes = none;
  contact_method = none;
  contact_value = none;
  requested_date = none;
  confirmed_at = none;
  cancelled_at = none;
  completed_at = none;
}

-- The state in which the bookings of a list stand, and the counter says `n`.
abbrev holding : ℕ → List Booking → State
holding n bs = record start {
  services = record shuttle { booking_count = n } ∷ [];
  bookings = bs;
  next_id = 110;
}

abbrev confirm : UpdateStatus
confirm = record { status = confirmed; provider_notes = none }

booking_is_counted : counter 20 (create_booking 1 request 5 5 start).1 ≡ some 1
unfolding create_booking create_commit check_service
booking_is_counted = refl

full_is_refused :
    (create_booking 1 request 5 5 (holding 2 (row 101 pending ∷ row 100 confirmed ∷ []))).0
    ≡ err capacity_reached
unfolding create_booking create_commit check_service
full_is_refused = refl

two-IsCounted :
    (s : BookingStatus)
    → is_closed s ≡ false
    → IsCounted 20 (holding 2 (row 101 pending ∷ row 100 s ∷ []))
two-IsCounted s live = ground arith

one-IsCounted :
    (s : BookingStatus)
    → is_closed s ≡ true
    → IsCounted 20 (holding 1 (row 101 pending ∷ row 100 s ∷ []))
one-IsCounted s closed = ground arith

Run-IsCounted_example :
    IsCounted 20
      (cancel_booking 1 100 7
        (update_booking_status 7 100 confirm 6
          (create_booking 1 request 5 5
            (holding 2 (row 101 pending ∷ row 100 pending ∷ []))).1).1).1
unfolding create_booking check_service create_commit update_booking_status update_commit
Run-IsCounted_example =
    Run-IsCounted 20
      (followed
        (followed (followed at_start (books 1 request 5 5))
          (answers 7 100 confirm 6 (row 100 pending) refl refl))
        (withdraws 1 100 7 (set_status confirm 6 (row 100 pending)) refl (λ e. cc)))
      (two-IsCounted pending refl)

Reach-IsLimited_example :
    IsLimited 20
      (transaction
        (cancel_commit (row 100 pending) 6)
        (transaction (create_commit shuttle 1 request 5) start).1).1
Reach-IsLimited_example =
    Reach-IsLimited 20
      (next (next here (creates shuttle shuttle 1 request 5 refl refl))
        (cancels (row 100 pending) 6))
      refl

cancel_race_drops_example :
    let s = holding 2 (row 101 pending ∷ row 100 pending ∷ []) in
    let s' = (cancel_commit (row 100 pending) 7 (cancel_commit (row 100 pending) 6 s).1).1 in
    (counter 20 s' ≡ some 0) × (live_bookings 20 s' ≡ 1)
cancel_race_drops_example =
    cancel_race_drops 6 7 0 (row 100 pending) (holding 2 (row 101 pending ∷ row 100 pending ∷ []))
      refl refl (two-IsCounted pending refl) refl
