-- ===== src/Registration/Tests.antt =====
-- Runs of the registration methods on two events.
use innovents.Shared.{◌==◌, to_ℕ, ok, err, ℕ, ◌+◌, ◌≡◌, refl, inl, none, List, [], ◌∷◌, arith}
use innovents.Accounts.{User, active}
use innovents.Registration.{
  active_registrations, save_registration, register_tx, register, cancel, run, EventStatus, Event,
  Registration, State, Call, registered, attended, registration_created, audit_created,
  capacity_reached, duplicate_row, registers, cancels,
}
use innovents.Registration.Capacity.{run-IsWithin, IsWithin}
use innovents.Registration.Outcome.{
  register_success, register_attended, cancel_frees_place, Registered,
}

abbrev alice : User
alice = record { id = 1; status = active; deleted_at = none; roles = [] }

abbrev bob : User
bob = record { id = 2; status = active; deleted_at = none; roles = [] }

abbrev talk : Event
talk = record {
  id = 10;
  capacity = 1;
  status = EventStatus.published;
  deleted_at = none;
  ends_at = 1000;
}

abbrev start : State
start = record {
  users = alice ∷ bob ∷ [];
  events = talk ∷ [];
  registrations = [];
  outbox = [];
  audit = [];
  next_id = 100;
}

abbrev alice_row : Registration
alice_row = record {
  id = 100;
  event_id = 10;
  user_id = 1;
  status = registered;
  registered_at = 5;
  cancelled_at = none;
}

abbrev full : State
full = record {
  users = alice ∷ bob ∷ [];
  events = talk ∷ [];
  registrations = alice_row ∷ [];
  outbox = registration_created 100 10 1 ∷ [];
  audit = audit_created 1 100 10 ∷ [];
  next_id = 101;
}

alice_registers : register 10 1 5 start ≡ (ok alice_row, full)
unfolding register register_tx save_registration
alice_registers = refl

bob_is_refused : register 10 2 6 full ≡ (err capacity_reached, full)
unfolding register register_tx save_registration
bob_is_refused = refl

start-IsWithin : IsWithin 10 talk start
start-IsWithin = record { keys = tt; fresh = tt; event = refl; places = omega arith }

abbrev calls : List (ℕ × Call)
calls = (5, registers 10 1) ∷ (6, registers 10 2) ∷ (7, cancels 10 1) ∷ (8, registers 10 2) ∷ []

run-IsWithin_example : IsWithin 10 talk (run calls start)
run-IsWithin_example = run-IsWithin 10 talk calls start start-IsWithin

register_success_example :
    (e : Event) × Registered 10 1 5 alice_row e start (register 10 1 5 start).1
unfolding register register_tx save_registration
register_success_example = register_success 10 1 5 start alice_row tt refl

cancel_frees_place_example :
    active_registrations 10 (cancel 10 1 9 full).1 + to_ℕ (10 == 10) ≡ active_registrations 10 full
unfolding cancel
cancel_frees_place_example = cancel_frees_place 10 10 1 9 full (tt, tt) refl

abbrev visited : State
visited = record full {
  registrations = record alice_row { status = attended } ∷ [];
  events = record talk { capacity = 5 } ∷ [];
}

register_attended_example : register 10 1 9 visited ≡ (err duplicate_row, visited)
register_attended_example =
    register_attended 10 1 9 visited alice (record talk { capacity = 5 })
      (record alice_row { status = attended }) refl refl refl
      (record { kept = refl; status = inl refl; ahead = omega arith }) (omega arith) refl (inl refl)
