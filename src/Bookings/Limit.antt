-- ===== src/Bookings/Limit.antt =====
-- The counter of a service and its limit, however transactions interleave.
use innovents.Shared.{
  leb, test_or, find_by-update_if, transaction, ℕ, ◌≡◌, refl, Bool, true, some, arith,
}
use innovents.Bookings.{
  service_key, find_service, add_booking, drop_booking, create_commit, update_commit, cancel_commit,
  Service, Booking, CreateBooking, UpdateStatus, State,
}

abbrev fits : Service → Bool
fits v = test_or true (λ max. leb v.booking_count max) v.max_bookings

-- The service with id `k`, if there is one, counts no more bookings than its limit.
abbrev pub IsLimited : ℕ → State → Type 0
IsLimited k s = test_or true fits (find_service k s) ≡ true

-- One committed transaction, whatever rows the call had read before it. Of a service that was read
-- it matters only that its limit has not changed since.
pub data Step (s : State) : State → Type 0 where
  creates :
      (v row : Service) (attendee_id : ℕ) (dto : CreateBooking) (db_now : ℕ)
      → find_service v.id s ≡ some row
      → row.max_bookings ≡ v.max_bookings
      → Step s (transaction (create_commit v attendee_id dto db_now) s).1
  updates :
      (b : Booking) (dto : UpdateStatus) (now : ℕ)
      → Step s (transaction (update_commit b dto now) s).1
  cancels : (b : Booking) (now : ℕ) → Step s (transaction (cancel_commit b now) s).1

pub data Reach (s : State) : State → Type 0 where
  here : Reach s s
  next : {t u : State} → Reach s t → Step t u → Reach s u

create_commit-IsLimited :
    (k : ℕ) (v row : Service) (attendee_id : ℕ) (dto : CreateBooking) (db_now : ℕ) (s : State)
    → find_service v.id s ≡ some row
    → row.max_bookings ≡ v.max_bookings
    → IsLimited k s
    → IsLimited k (transaction (create_commit v attendee_id dto db_now) s).1
unfolding create_commit
create_commit-IsLimited k v row attendee_id dto db_now s found same h =
    ground (arith, find_by-update_if service_key k v.id add_booking s.services (λ x. refl))

update_commit-IsLimited :
    (k : ℕ) (b : Booking) (dto : UpdateStatus) (now : ℕ) (s : State)
    → IsLimited k s
    → IsLimited k (transaction (update_commit b dto now) s).1
unfolding update_commit
update_commit-IsLimited k b dto now s h =
    ground (arith, find_by-update_if service_key k b.service_id drop_booking s.services (λ x. refl))

cancel_commit-IsLimited :
    (k : ℕ) (b : Booking) (now : ℕ) (s : State)
    → IsLimited k s
    → IsLimited k (transaction (cancel_commit b now) s).1
unfolding cancel_commit
cancel_commit-IsLimited k b now s h =
    ground (arith, find_by-update_if service_key k b.service_id drop_booking s.services (λ x. refl))

Step-IsLimited : {s t : State} (k : ℕ) → Step s t → IsLimited k s → IsLimited k t
Step-IsLimited {s} k (creates v row attendee_id dto db_now found same) h =
    create_commit-IsLimited k v row attendee_id dto db_now s found same h
Step-IsLimited {s} k (updates b dto now) h = update_commit-IsLimited k b dto now s h
Step-IsLimited {s} k (cancels b now) h = cancel_commit-IsLimited k b now s h

-- However the transactions of bookings, status updates and cancellations interleave, and whatever
-- stale rows they carry, no service that counts no more bookings than its limit ever counts more, as
-- long as each booking has read its service with the limit that the service has when it commits.
pub Reach-IsLimited : {s t : State} (k : ℕ) → Reach s t → IsLimited k s → IsLimited k t
Reach-IsLimited k here h = h
Reach-IsLimited k (next r st) h = Step-IsLimited k st (Reach-IsLimited k r h)
