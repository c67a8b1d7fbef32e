-- ===== src/Communities/Attendance.antt =====
-- What every call of the meetup service keeps, by what each of its transactions keeps.
use innovents.Communities.Methods.{assert_can_manage_keeps, checked_keeps}
use innovents.Communities.Meeting.{
  serve_meetup, serve_meetups, seat_key, is_seated, IsAttended, MeetupCall, plan, take_part,
  drop_out, change, call_off,
}
use innovents.Communities.Counted.{IsCounted, later-IsCounted}
use innovents.Communities.Meetups.{
  new_meetup, is_outside, create_meetup_commit, create_as, create_meetup, add_participant,
  drop_participant, join_meetup_commit, join_meetup_known, join_meetup_tx, join_meetup,
  leave_meetup_commit, leave_as, leave_meetup, edit_meetup, assert_can_edit, edit_as, update_write,
  update_meetup, set_cancelled, cancel_write, cancel_meetup, CreateMeetup, UpdateMeetup,
}
use innovents.Communities.Access.{assert_active_member}
use innovents.Accounts.{Role}
use innovents.Communities.Tables.{
  meetup_key, participant_key, is_scheduled, find_meetup, find_participant, Community, Meetup,
  Participant, HostEvent, State, meetup_not_found, not_participant, not_scheduled,
  already_participant, meetup_full, invalid_period, outside_event, creator_leaves,
}
use innovents.Shared.{
  leb, ◌==◌, is_some, test_or, find, find_holds, find_by_found, find_by-Below, new_pair-IsTallied,
  new_child-IsTallied, remove_child-IsTallied, edit_row-IsTallied, modify, raise_if, or_raise,
  ◌>>=◌, ◌>>◌, transaction, transaction_keeps, ok, ℕ, suc, ◌≡◌, refl, Bool, true, false, not, ◌&&◌,
  Option, none, some, List, [], ◌∷◌, arith,
}

-- The transactions of the meetup service keep `P`.
pub record Keeps (P : State → Type 0) : Type 0 where
  pub plans :
      (c : Community) (creator_id : ℕ) (dto : CreateMeetup) (starts_at : ℕ) (s : State)
      → P s
      → P (create_meetup_commit c creator_id dto starts_at s).1
  pub seats :
      (community_id i user_id : ℕ) (m : Meetup) (s : State)
      → find_meetup community_id i s ≡ some m
      → P s
      → P (join_meetup_commit i user_id s).1
  pub unseats :
      (i user_id : ℕ) (p : Participant) (s : State)
      → find_participant i user_id s ≡ some p
      → P s
      → P (leave_meetup_commit p i s).1
  pub edits : (i : ℕ) (dto : UpdateMeetup) (s : State) → P s → P (update_write i dto s)
  pub cancels : (i : ℕ) (s : State) → P s → P (cancel_write i s)

pub assert_active_member_keeps :
    (user_id community_id : ℕ) (s : State) → (assert_active_member user_id community_id s).1 ≡ s
unfolding assert_active_member
assert_active_member_keeps user_id community_id s = ground arith

assert_can_edit_keeps :
    (m : Meetup) (community_id user_id : ℕ) (roles : List Role) (s : State)
    → (assert_can_edit m community_id user_id roles s).1 ≡ s
unfolding assert_can_edit
assert_can_edit_keeps m community_id user_id roles s =
    ground (arith, assert_can_manage_keeps user_id roles community_id s)

module _ (P : State → Type 0) (keep : Keeps P) where
  create_as_keeps :
      (creator_id : ℕ) (dto : CreateMeetup) (c : Community) (s : State)
      → P s
      → P (create_as creator_id dto c s).1
  create_as_keeps creator_id dto c s h = dated dto.starts_at
    where
      event : Option HostEvent
      event = find (λ e. e.id == c.event_id) s.events

      guarded :
          (x y : Bool) (starts_at : ℕ)
          → P
              ((raise_if x invalid_period
                  >> (raise_if y outside_event >> create_meetup_commit c creator_id dto starts_at))
                s).1
      guarded true y starts_at = h
      guarded false true starts_at = h
      guarded false false starts_at = keep.plans c creator_id dto starts_at s h

      dated :
          (o : Option ℕ)
          → P
              ((or_raise o invalid_period >>= λ starts_at.
                  raise_if (test_or false (λ e. leb e starts_at) dto.ends_at) invalid_period
                  >> (raise_if (test_or false (is_outside starts_at) event) outside_event
                      >> create_meetup_commit c creator_id dto starts_at))
                s).1
      dated none = h
      dated (some t) =
          guarded (test_or false (λ e. leb e t) dto.ends_at) (test_or false (is_outside t) event) t

  join_tx_keeps :
      (community_id i user_id : ℕ) (s : State) → P s → P (join_meetup_tx community_id i user_id s).1
  unfolding join_meetup_tx
  join_tx_keeps community_id i user_id s h = known (find_meetup community_id i s) refl
    where
      guarded :
          (x y z : Bool) (m : Meetup)
          → find_meetup community_id i s ≡ some m
          → P
              ((raise_if x not_scheduled
                  >> (raise_if y already_participant
                      >> (raise_if z meetup_full >> join_meetup_commit i user_id)))
                s).1
      guarded true y z m found = h
      guarded false true z m found = h
      guarded false false true m found = h
      guarded false false false m found = keep.seats community_id i user_id m s found h

      known :
          (o : Option Meetup)
          → find_meetup community_id i s ≡ o
          → P ((or_raise o meetup_not_found >>= join_meetup_known i user_id) s).1
      known none found = h
      known (some m) found =
          guarded (not (is_scheduled m.status)) (is_some (find_participant i user_id s))
            (test_or false (λ n. leb n m.participant_count) m.participant_limit) m found

  leave_as_keeps :
      (community_id i user_id : ℕ) (s : State) → P s → P (leave_as community_id i user_id s).1
  leave_as_keeps community_id i user_id s h =
      known (find_meetup community_id i s) (find_participant i user_id s) refl
    where
      unseated :
          (x : Bool) (o : Option Participant)
          → find_participant i user_id s ≡ o
          → P
              ((raise_if x creator_leaves
                  >> (or_raise o not_participant >>= λ p. leave_meetup_commit p i))
                s).1
      unseated true o found = h
      unseated false none found = h
      unseated false (some p) found = keep.unseats i user_id p s found h

      known :
          (r : Option Meetup) (o : Option Participant)
          → find_participant i user_id s ≡ o
          → P
              ((or_raise r meetup_not_found >>= λ m.
                  raise_if (m.created_by == user_id) creator_leaves
                  >> (or_raise o not_participant >>= λ p. leave_meetup_commit p i))
                s).1
      known none o found = h
      known (some m) o found = unseated (m.created_by == user_id) o found

  edit_as_keeps :
      (community_id i user_id : ℕ) (roles : List Role) (write : State → State) (s : State)
      → P s
      → ((t : State) → P t → P (write t))
      → P (edit_as community_id i user_id roles write s).1
  edit_as_keeps community_id i user_id roles write s h writes = known (find_meetup community_id i s)
    where
      known :
          (o : Option Meetup)
          → P
              ((or_raise o meetup_not_found >>= λ m.
                  assert_can_edit m community_id user_id roles >> modify write)
                s).1
      known none = h
      known (some m) =
          checked_keeps P (assert_can_edit m community_id user_id roles) (λ _ t. (ok tt, write t)) s
            (assert_can_edit_keeps m community_id user_id roles s) h (λ _ t. writes t)

  pub serve_meetup_keeps : (r : MeetupCall) (s : State) → P s → P (serve_meetup r s)
  unfolding serve_meetup create_meetup join_meetup leave_meetup update_meetup cancel_meetup
  serve_meetup_keeps (plan community_id user_id dto) s h =
      checked_keeps P (assert_active_member user_id community_id) (create_as user_id dto) s
        (assert_active_member_keeps user_id community_id s) h (create_as_keeps user_id dto)
  serve_meetup_keeps (take_part community_id i user_id) s h =
      checked_keeps P (assert_active_member user_id community_id)
        (λ _. transaction (join_meetup_tx community_id i user_id)) s
        (assert_active_member_keeps user_id community_id s) h
        (λ _ t j.
          transaction_keeps P (join_meetup_tx community_id i user_id) t j
            (join_tx_keeps community_id i user_id t j))
  serve_meetup_keeps (drop_out community_id i user_id) s h =
      checked_keeps P (assert_active_member user_id community_id)
        (λ _. leave_as community_id i user_id) s (assert_active_member_keeps user_id community_id s)
        h (λ _. leave_as_keeps community_id i user_id)
  serve_meetup_keeps (change community_id i user_id roles dto) s h =
      edit_as_keeps community_id i user_id roles (update_write i dto) s h (keep.edits i dto)
  serve_meetup_keeps (call_off community_id i user_id roles) s h =
      edit_as_keeps community_id i user_id roles (cancel_write i) s h (keep.cancels i)

-- The meetups leave the members alone.
IsCounted-Keeps : (k : ℕ) → Keeps (IsCounted k)
unfolding create_meetup_commit join_meetup_commit leave_meetup_commit
IsCounted-Keeps k = record {
  plans = λ c creator_id dto starts_at s h. later-IsCounted k (later-IsCounted k h);
  seats = λ community_id i user_id m s found h. later-IsCounted k h;
  unseats = λ i user_id p s found h. h;
  edits = λ i dto s h. h;
  cancels = λ i s h. h;
}

pub serve_meetup-IsCounted :
    (k : ℕ) (r : MeetupCall) (s : State) → IsCounted k s → IsCounted k (serve_meetup r s)
serve_meetup-IsCounted k r s h = serve_meetup_keeps (IsCounted k) (IsCounted-Keeps k) r s h

IsAttended-Keeps : (j : ℕ) → Keeps (IsAttended j)
unfolding create_meetup_commit join_meetup_commit leave_meetup_commit
IsAttended-Keeps j = record {
  plans = λ c creator_id dto starts_at s h.
      new_pair-IsTallied meetup_key (λ m. m.participant_count) participant_key seat_key is_seated j
        h (new_meetup s.next_id c creator_id dto starts_at)
        (record { id = suc s.next_id; meetup_id = s.next_id; user_id = creator_id }) refl refl refl
        refl refl;
  seats = λ community_id i user_id m s found h.
      new_child-IsTallied meetup_key (λ m. m.participant_count) participant_key seat_key is_seated j
        h (record { id = s.next_id; meetup_id = i; user_id = user_id }) i add_participant refl refl
        refl
        (ground (
          arith,
          find_holds
              (λ x. x.id == i && (x.community_id == community_id && not (is_some x.deleted_at)))
              s.meetups m found,
          find_by-Below meetup_key s.next_id m.id s.meetups m h.fresh,
          find_by_found meetup_key
              (λ x. x.id == i && (x.community_id == community_id && not (is_some x.deleted_at)))
              s.meetups m h.keys found,
        ))
        (λ x. refl) (λ x. refl);
  unseats = λ i user_id p s found h.
      remove_child-IsTallied meetup_key (λ m. m.participant_count) participant_key seat_key
        is_seated j h p i drop_participant
        (find_by_found participant_key (λ x. x.meetup_id == i && x.user_id == user_id)
          s.participants p h.child_keys found)
        (ground (
          arith,
          find_holds (λ x. x.meetup_id == i && x.user_id == user_id) s.participants p found,
        ))
        refl (λ x. refl) (λ x. refl);
  edits = λ i dto s h.
      edit_row-IsTallied meetup_key (λ m. m.participant_count) participant_key seat_key is_seated j
        h i (edit_meetup dto) (λ x. refl) (λ x. refl);
  cancels = λ i s h.
      edit_row-IsTallied meetup_key (λ m. m.participant_count) participant_key seat_key is_seated j
        h i set_cancelled (λ x. refl) (λ x. refl);
}

-- Through any sequence of calls of the meetup service the counter of each meetup is the number of its
-- participants.
pub serve_meetups-IsAttended :
    (j : ℕ) (rs : List MeetupCall) (s : State) → IsAttended j s → IsAttended j (serve_meetups rs s)
unfolding serve_meetups
serve_meetups-IsAttended j [] s h = h
serve_meetups-IsAttended j (r ∷ rs) s h =
    serve_meetups-IsAttended j rs (serve_meetup r s)
      (serve_meetup_keeps (IsAttended j) (IsAttended-Keeps j) r s h)
