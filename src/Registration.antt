-- ===== src/Registration.antt =====
-- Event registration: src/modules/events/services/event-registration.service.ts. A call takes the
-- time of its clock as an argument; `SELECT … FOR UPDATE` and its fallback read the same row.
pub mod Capacity
pub mod Outcome
mod Tests
use innovents.Shared.{
  ltb, leb, ◌==◌, if◌then◌else◌, is_some, test_or, find, count_where, find_by, update_by, Action,
  pure, gets, modify, raise_if, or_raise, ◌>>=◌, ◌>>◌, transaction, HttpStatus, ok, err, ℕ, suc,
  Bool, true, false, not, ◌&&◌, Option, none, some, List, [], ◌∷◌,
}
use innovents.Accounts.{is_active, find_user, User}

pub data EventStatus : Type 0 where
  draft published ongoing completed cancelled : EventStatus

pub record Event : Type 0 where
  pub id : ℕ
  pub capacity : ℕ
  pub status : EventStatus
  pub deleted_at : Option ℕ
  pub ends_at : ℕ

pub data RegistrationStatus : Type 0 where
  registered cancelled attended no_show : RegistrationStatus

pub record Registration : Type 0 where
  pub id : ℕ
  pub event_id : ℕ
  pub user_id : ℕ
  pub status : RegistrationStatus
  pub registered_at : ℕ
  pub cancelled_at : Option ℕ

-- The outbox events, with their payload.
pub data Message : Type 0 where
  registration_created registration_cancelled : ℕ → ℕ → ℕ → Message

-- The audit entries: actor, registration, event.
pub data AuditEntry : Type 0 where
  audit_created audit_cancelled : ℕ → ℕ → ℕ → AuditEntry

pub record State : Type 0 where
  pub users : List User
  pub events : List Event
  pub registrations : List Registration
  pub outbox : List Message
  pub audit : List AuditEntry
  pub next_id : ℕ

pub data Error : Type 0 where
  inactive_user event_not_found event_cancelled event_completed event_draft event_ended : Error
  already_registered capacity_reached duplicate_row registration_not_found : Error

-- The class of each exception; a violated unique index is no HttpException.
unfoldable pub http_status : Error → HttpStatus
http_status inactive_user = HttpStatus.bad_request
http_status event_not_found = HttpStatus.not_found
http_status registration_not_found = HttpStatus.not_found
http_status duplicate_row = HttpStatus.internal
http_status _ = HttpStatus.conflict

abbrev pub is_registered : RegistrationStatus → Bool
is_registered registered = true
is_registered _ = false

abbrev pub is_withdrawn : RegistrationStatus → Bool
is_withdrawn RegistrationStatus.cancelled = true
is_withdrawn _ = false

abbrev pub is_cancelled : EventStatus → Bool
is_cancelled EventStatus.cancelled = true
is_cancelled _ = false

abbrev pub is_completed : EventStatus → Bool
is_completed completed = true
is_completed _ = false

abbrev pub is_draft : EventStatus → Bool
is_draft draft = true
is_draft _ = false

abbrev pub registration_id : Registration → ℕ
registration_id r = r.id

abbrev pub find_event : ℕ → State → Option Event
find_event k s = find_by (λ e. e.id) k s.events

-- `where: { eventId_userId: { eventId, userId } }`
abbrev pub is_row_of : ℕ → ℕ → Registration → Bool
is_row_of event_id user_id r = r.event_id == event_id && r.user_id == user_id

-- `where: { eventId, status: REGISTERED }`
abbrev pub is_place_of : ℕ → Registration → Bool
is_place_of event_id r = r.event_id == event_id && is_registered r.status

abbrev pub active_registrations : ℕ → State → ℕ
active_registrations event_id s = count_where (is_place_of event_id) s.registrations

-- The checks on the locked event row, in the order of the code.
pub check_event : Event → ℕ → Action State Error (Unit {0})
check_event e now = do
  raise_if (is_some e.deleted_at) event_not_found
  raise_if (is_cancelled e.status) event_cancelled
  raise_if (is_completed e.status) event_completed
  raise_if (is_draft e.status) event_draft
  raise_if (ltb e.ends_at now) event_ended

abbrev pub reactivate : ℕ → Registration → Registration
reactivate now r = record r { status = registered; cancelled_at = none; registered_at = now }

-- `eventRegistration.create`, under the unique index on the event and the user.
pub create_registration : ℕ → ℕ → ℕ → Action State Error Registration
create_registration event_id user_id now s =
    if is_some (find (is_row_of event_id user_id) s.registrations)
    then (err duplicate_row, s)
    else (ok row, record s { registrations = row ∷ s.registrations; next_id = suc s.next_id })
  where
    row : Registration
    row = record {
      id = s.next_id;
      event_id = event_id;
      user_id = user_id;
      status = registered;
      registered_at = now;
      cancelled_at = none;
    }

-- A withdrawn row is registered again; otherwise a row is created.
pub save_registration : Option Registration → ℕ → ℕ → ℕ → Action State Error Registration
unfolding create_registration
save_registration none event_id user_id now s = create_registration event_id user_id now s
save_registration (some r) event_id user_id now s =
    if is_withdrawn r.status
    then (
      ok (reactivate now r),
      record s { registrations = update_by registration_id r.id (reactivate now) s.registrations },
    )
    else create_registration event_id user_id now s

pub register_tx : ℕ → ℕ → ℕ → Action State Error Registration
unfolding check_event save_registration
register_tx event_id user_id now = do
  event ← or_raise (← gets (find_event event_id)) event_not_found
  check_event event now
  existing ← gets (λ s. find (is_row_of event_id user_id) s.registrations)
  raise_if (test_or false (λ r. is_registered r.status) existing) already_registered
  taken ← gets (active_registrations event_id)
  raise_if (leb event.capacity taken) capacity_reached
  row ← save_registration existing event_id user_id now
  modify (λ s. record s { outbox = registration_created row.id event_id user_id ∷ s.outbox })
  pure row

pub register : ℕ → ℕ → ℕ → Action State Error Registration
unfolding register_tx
register event_id user_id now = do
  user ← or_raise (← gets (λ s. find_user user_id s.users)) inactive_user
  raise_if (not (is_active user.status)) inactive_user
  row ← transaction (register_tx event_id user_id now)
  modify (λ s. record s { audit = audit_created user_id row.id event_id ∷ s.audit })
  pure row

abbrev pub withdraw_row : ℕ → Registration → Registration
withdraw_row now r = record r { status = RegistrationStatus.cancelled; cancelled_at = some now }

pub cancel_tx : Registration → ℕ → ℕ → ℕ → Action State Error (Unit {0})
cancel_tx r event_id user_id now = modify λ s. record s {
  registrations = update_by registration_id r.id (withdraw_row now) s.registrations;
  outbox = registration_cancelled r.id event_id user_id ∷ s.outbox;
}

pub cancel : ℕ → ℕ → ℕ → Action State Error (Unit {0})
unfolding cancel_tx
cancel event_id user_id now = do
  row ←
      or_raise (← gets (λ s. find (is_row_of event_id user_id) s.registrations))
        registration_not_found
  raise_if (not (is_registered row.status)) registration_not_found
  transaction (cancel_tx row event_id user_id now)
  modify (λ s. record s { audit = audit_cancelled user_id row.id event_id ∷ s.audit })

-- A request that the controller passes on, with the event and the user.
pub data Call : Type 0 where
  registers cancels : ℕ → ℕ → Call

-- Requests one after another, as the row lock orders them; the first of a pair is the time.
pub run : List (ℕ × Call) → State → State
run [] s = s
run ((now, registers event_id user_id) ∷ cs) s = run cs (register event_id user_id now s).1
run ((now, cancels event_id user_id) ∷ cs) s = run cs (cancel event_id user_id now s).1
