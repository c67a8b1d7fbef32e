-- ===== src/Registration/Capacity.antt =====
-- No event holds more active registrations than its capacity.
use innovents.Shared.{
  ◌==◌, to_ℕ, Option-cases, find, find_holds, Unique, find_by_found, count-update, Unique-update,
  Below, Below-Absent, Below-suc, Below-update, ℕ, ◌+◌, ◌≤◌, ◌≡◌, refl, inl, inr, Option, none,
  some, List, [], ◌∷◌, arith,
}
use innovents.Registration.{
  registration_id, find_event, is_row_of, is_place_of, active_registrations, reactivate,
  save_registration, register_tx, register, withdraw_row, cancel, run, Event, Registration, State,
  Call,
}

-- Row ids are distinct, and the event with id `k` is `e`, which has no more places taken than its
-- capacity.
pub record IsWithin (k : ℕ) (e : Event) (s : State) : Type 0 where
  pub keys : Unique registration_id s.registrations
  pub fresh : Below registration_id s.next_id s.registrations
  pub event : find_event k s ≡ some e
  pub places : active_registrations k s ≤ e.capacity

-- A saved row takes at most one place, and only at its event.
save_registration_places :
    (k event_id user_id now : ℕ) (existing : Option Registration) (s : State)
    → Unique registration_id s.registrations
    → find (is_row_of event_id user_id) s.registrations ≡ existing
    → active_registrations k (save_registration existing event_id user_id now s).1
      ≤ active_registrations k s + to_ℕ (event_id == k)
unfolding save_registration
save_registration_places k event_id user_id now none s u e = ground arith
save_registration_places k event_id user_id now (some r) s u e = ground (
  arith,
  find_holds (is_row_of event_id user_id) s.registrations r,
  count-update registration_id (is_place_of k) (reactivate now) r.id s.registrations r u
      (find_by_found registration_id (is_row_of event_id user_id) s.registrations r u e),
)

save_registration-keys :
    (event_id user_id now : ℕ) (existing : Option Registration) (s : State)
    → Unique registration_id s.registrations
    → Below registration_id s.next_id s.registrations
    → let s' = (save_registration existing event_id user_id now s).1 in
      Unique registration_id s'.registrations × Below registration_id s'.next_id s'.registrations
unfolding save_registration
save_registration-keys event_id user_id now none s u b = ground (
  arith,
  Below-Absent registration_id s.next_id s.registrations b,
  Below-suc registration_id s.next_id s.registrations b,
)
save_registration-keys event_id user_id now (some r) s u b = ground (
  arith,
  Below-Absent registration_id s.next_id s.registrations b,
  Below-suc registration_id s.next_id s.registrations b,
  Unique-update registration_id r.id (reactivate now) s.registrations (λ x. refl) u,
  Below-update registration_id s.next_id r.id (reactivate now) s.registrations (λ x. refl) b,
)

save_registration-events :
    (event_id user_id now : ℕ) (existing : Option Registration) (s : State)
    → (save_registration existing event_id user_id now s).1.events ≡ s.events
unfolding save_registration
save_registration-events event_id user_id now none s = ground arith
save_registration-events event_id user_id now (some r) s = ground arith

register_tx-IsWithin :
    (k event_id user_id now : ℕ) (e : Event) (s : State)
    → IsWithin k e s
    → IsWithin k e (register_tx event_id user_id now s).1
unfolding register_tx
register_tx-IsWithin k event_id user_id now e s v =
    let existing : Option Registration = find (is_row_of event_id user_id) s.registrations in
    ground (
      arith,
      save_registration_places k event_id user_id now existing s v.keys refl,
      save_registration-keys event_id user_id now existing s v.keys v.fresh,
      save_registration-events event_id user_id now existing s,
    )

-- A registration, whether it succeeds or throws, leaves every event within its capacity.
pub register-IsWithin :
    (k event_id user_id now : ℕ) (e : Event) (s : State)
    → IsWithin k e s
    → IsWithin k e (register event_id user_id now s).1
unfolding register
register-IsWithin k event_id user_id now e s v =
    ground (arith, register_tx-IsWithin k event_id user_id now e s v)

-- So does a cancellation.
pub cancel-IsWithin :
    (k event_id user_id now : ℕ) (e : Event) (s : State)
    → IsWithin k e s
    → IsWithin k e (cancel event_id user_id now s).1
unfolding cancel
cancel-IsWithin k event_id user_id now e s v =
    elim (Option-cases (find (is_row_of event_id user_id) s.registrations)) [
      | inl missing ↦ ground arith
      | inr (r, found) ↦ ground (
        arith,
        count-update registration_id (is_place_of k) (withdraw_row now) r.id s.registrations r
            v.keys
            (find_by_found registration_id (is_row_of event_id user_id) s.registrations r v.keys
              found),
        Unique-update registration_id r.id (withdraw_row now) s.registrations (λ x. refl) v.keys,
        Below-update registration_id s.next_id r.id (withdraw_row now) s.registrations (λ x. refl)
            v.fresh,
      )
    ]

-- Through any sequence of registrations and cancellations, an event never has more places taken
-- than its capacity.
pub run-IsWithin :
    (k : ℕ) (e : Event) (cs : List (ℕ × Call)) (s : State)
    → IsWithin k e s
    → IsWithin k e (run cs s)
unfolding run
run-IsWithin k e [] s v = v
run-IsWithin k e ((now, Call.registers ev us) ∷ cs) s v =
    run-IsWithin k e cs (register ev us now s).1 (register-IsWithin k ev us now e s v)
run-IsWithin k e ((now, Call.cancels ev us) ∷ cs) s v =
    run-IsWithin k e cs (cancel ev us now s).1 (cancel-IsWithin k ev us now e s v)
