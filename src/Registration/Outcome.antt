-- ===== src/Registration/Outcome.antt =====
-- What a registration does, by how it ends.
use innovents.Accounts.{find_user, User, active}
use innovents.Shared.{
  ◌==◌, to_ℕ, Option-cases, find, find_holds, Unique, find_by_found, count-update, find-update, ok,
  err, ℕ, ◌+◌, ◌≤◌, ◌<◌, ◌≡◌, refl, ◌≢◌, ◌⊎◌, inl, inr, Option, none, some, ◌∷◌, arith,
}
use innovents.Registration.{
  registration_id, find_event, is_row_of, is_place_of, active_registrations, reactivate,
  save_registration, register_tx, register, withdraw_row, cancel, EventStatus, Event, Registration,
  State, registered, attended, no_show, registration_created, audit_created, duplicate_row,
}

-- The event is open for registration at the time `now`.
pub record IsOpen (e : Event) (now : ℕ) : Type 0 where
  pub kept : e.deleted_at ≡ none
  pub status : (e.status ≡ EventStatus.published) ⊎ (e.status ≡ EventStatus.ongoing)
  pub ahead : now ≤ e.ends_at

save_registration_found :
    (event_id user_id now : ℕ) (existing : Option Registration) (s : State) (row : Registration)
    → Unique registration_id s.registrations
    → find (is_row_of event_id user_id) s.registrations ≡ existing
    → (save_registration existing event_id user_id now s).0 ≡ ok row
    → let s' = (save_registration existing event_id user_id now s).1 in
      (find (is_row_of event_id user_id) s'.registrations ≡ some row)
      × (row.status ≡ registered)
      × (s'.users ≡ s.users)
      × (s'.events ≡ s.events)
      × (s'.outbox ≡ s.outbox)
unfolding save_registration
save_registration_found event_id user_id now none s row u e h = ground arith
save_registration_found event_id user_id now (some r) s row u e h = ground (
  arith,
  find_holds (is_row_of event_id user_id) s.registrations r,
  find-update registration_id (is_row_of event_id user_id) (reactivate now) s.registrations r
      (λ x. refl) u e,
)

-- What a successful registration at the event `e` has done, from the state `s` to `s'`.
pub record Registered (event_id user_id now : ℕ) (row : Registration) (e : Event) (s s' : State)
    : Type 0 where
  pub event : find_event event_id s ≡ some e
  pub open_event : IsOpen e now
  pub room : active_registrations event_id s < e.capacity
  pub row_found : find (is_row_of event_id user_id) s'.registrations ≡ some row
  pub row_status : row.status ≡ registered
  pub events_kept : s'.events ≡ s.events
  pub notified : s'.outbox ≡ registration_created row.id event_id user_id ∷ s.outbox

module _ (event_id user_id now : ℕ) (s : State) (row : Registration)
    (u : Unique registration_id s.registrations) where
  register_tx-Registered :
      (e : Event)
      → find_event event_id s ≡ some e
      → (register_tx event_id user_id now s).0 ≡ ok row
      → Registered event_id user_id now row e s (register_tx event_id user_id now s).1
  unfolding register_tx
  register_tx-Registered e found h = ground (
    arith,
    save_registration_found event_id user_id now (find (is_row_of event_id user_id) s.registrations)
        s row u refl,
  )

  register_tx_event :
      (register_tx event_id user_id now s).0 ≡ ok row
      → (e : Event) × (find_event event_id s ≡ some e)
  unfolding register_tx
  register_tx_event h = ground arith

  register_ok :
      (register event_id user_id now s).0 ≡ ok row
      → let s' = (register_tx event_id user_id now s).1 in
        ((register_tx event_id user_id now s).0 ≡ ok row)
        × ((register event_id user_id now s).1
            ≡ record s' { audit = audit_created user_id row.id event_id ∷ s'.audit })
  unfolding register
  register_ok h = ground arith

  -- A registration that succeeds found the event open and with room, and leaves the user with a
  -- registered row and the outbox with its event.
  pub register_success :
      (register event_id user_id now s).0 ≡ ok row
      → (e : Event) × Registered event_id user_id now row e s (register event_id user_id now s).1
  register_success h =
      let (tx, after) = register_ok h in
      let (e, found) = register_tx_event tx in
      let done = register_tx-Registered e found tx in
      (
        e,
        rw after (record {
          event = done.event;
          open_event = done.open_event;
          room = done.room;
          row_found = done.row_found;
          row_status = done.row_status;
          events_kept = done.events_kept;
          notified = done.notified;
        }),
      )

register_held :
    (event_id user_id now : ℕ) (s : State) (row r : Registration)
    → find (is_row_of event_id user_id) s.registrations ≡ some row
    → row.status ≡ registered
    → (register event_id user_id now s).0 ≢ ok r
unfolding register register_tx
register_held event_id user_id now s row r found held = ground arith

-- Whoever has registered cannot register again at that event, and the second call writes nothing.
register_twice :
    (event_id user_id now later : ℕ) (s : State) (row r : Registration)
    → Unique registration_id s.registrations
    → (register event_id user_id now s).0 ≡ ok row
    → (register event_id user_id later (register event_id user_id now s).1).0 ≢ ok r
register_twice event_id user_id now later s row r u h =
    let (e, done) = register_success event_id user_id now s row u h in
    register_held event_id user_id later (register event_id user_id now s).1 row r done.row_found
      done.row_status

-- A user whose row says attended or no-show is not told that the place is taken: the code goes on
-- to create a second row, which the unique index refuses.
pub register_attended :
    (event_id user_id now : ℕ) (s : State) (user : User) (e : Event) (row : Registration)
    → find_user user_id s.users ≡ some user
    → user.status ≡ active
    → find_event event_id s ≡ some e
    → IsOpen e now
    → active_registrations event_id s < e.capacity
    → find (is_row_of event_id user_id) s.registrations ≡ some row
    → (row.status ≡ attended) ⊎ (row.status ≡ no_show)
    → register event_id user_id now s ≡ (err duplicate_row, s)
unfolding register register_tx save_registration
register_attended event_id user_id now s user e row h a found o room r st = ground arith

-- A cancellation that succeeds gives one place of the event back, and those of no other event.
pub cancel_frees_place :
    (k event_id user_id now : ℕ) (s : State)
    → Unique registration_id s.registrations
    → (cancel event_id user_id now s).0 ≡ ok tt
    → active_registrations k (cancel event_id user_id now s).1 + to_ℕ (event_id == k)
      ≡ active_registrations k s
unfolding cancel
cancel_frees_place k event_id user_id now s u h =
    elim (Option-cases (find (is_row_of event_id user_id) s.registrations)) [
      | inl missing ↦ absurd (ground arith)
      | inr (r, found) ↦ ground (
        arith,
        find_holds (is_row_of event_id user_id) s.registrations r found,
        count-update registration_id (is_place_of k) (withdraw_row now) r.id s.registrations r u
            (find_by_found registration_id (is_row_of event_id user_id) s.registrations r u found),
      )
    ]
