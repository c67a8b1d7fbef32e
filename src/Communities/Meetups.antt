-- ===== src/Communities/Meetups.antt =====
-- CommunityMeetupsService: src/modules/communities/services/community-meetups.service.ts.
use innovents.Communities.Access.{is_admin, assert_can_manage_community, assert_active_member}
use innovents.Communities.Tables.{
  meetup_key, participant_key, is_scheduled, find_meetup, find_participant, MeetupStatus, Community,
  Meetup, Participant, HostEvent, State, Error, scheduled, meetup_created, meetup_joined,
  meetup_left, meetup_status_updated, meetup_create, meetup_cancel, meetup_not_found,
  not_participant, not_scheduled, already_participant, meetup_full, invalid_period, outside_event,
  creator_leaves,
}
use innovents.Accounts.{some_role, Role}
use innovents.Shared.{
  ltb, leb, ◌==◌, is_some, test_or, or_default, or_else, find, update_by, remove_by, Action, pure,
  gets, modify, raise_if, or_raise, when, ◌>>=◌, ◌>>◌, transaction, ℕ, suc, ◌+◌, ◌-◌, ◌*◌, Bool,
  false, not, ◌&&◌, ◌||◌, Option, none, List, ◌∷◌,
}

-- `starts_at` is nothing where the text is no date.
pub record CreateMeetup : Type 0 where
  pub starts_at : Option ℕ
  pub ends_at : Option ℕ
  pub participant_limit : Option ℕ

abbrev pub new_meetup : ℕ → Community → ℕ → CreateMeetup → ℕ → Meetup
new_meetup id c creator_id dto starts_at = record {
  id = id;
  community_id = c.id;
  event_id = c.event_id;
  created_by = creator_id;
  starts_at = starts_at;
  ends_at = dto.ends_at;
  participant_limit = dto.participant_limit;
  participant_count = 1;
  status = scheduled;
  deleted_at = none;
}

-- From the start of the event to 7 days after its end.
abbrev pub is_outside : ℕ → HostEvent → Bool
is_outside starts_at e =
    ltb starts_at e.starts_at || ltb (e.ends_at + 7 * 24 * 60 * 60 * 1000) starts_at

-- The transaction of `create`: the meetup and its first participant.
unfoldable pub create_meetup_commit : Community → ℕ → CreateMeetup → ℕ → Action State Error ℕ
create_meetup_commit c creator_id dto starts_at = do
  id ← gets (λ s. s.next_id)
  modify (λ s. record s {
    meetups = new_meetup id c creator_id dto starts_at ∷ s.meetups;
    participants = record { id = suc id; meetup_id = id; user_id = creator_id } ∷ s.participants;
    outbox = meetup_created id ∷ s.outbox;
    audit = meetup_create id ∷ s.audit;
    next_id = suc (suc id);
  })
  pure id

-- `create` for an active member of the community.
abbrev pub create_as : ℕ → CreateMeetup → Community → Action State Error ℕ
create_as creator_id dto c = do
  event ← gets (λ s. find (λ e. e.id == c.event_id) s.events)
  starts_at ← or_raise dto.starts_at invalid_period
  raise_if (test_or false (λ e. leb e starts_at) dto.ends_at) invalid_period
  raise_if (test_or false (is_outside starts_at) event) outside_event
  create_meetup_commit c creator_id dto starts_at

unfoldable pub create_meetup : ℕ → ℕ → CreateMeetup → Action State Error ℕ
create_meetup community_id creator_id dto = do
  c ← assert_active_member creator_id community_id
  create_as creator_id dto c

abbrev pub add_participant : Meetup → Meetup
add_participant m = record m { participant_count = m.participant_count + 1 }

-- `decrement: 1`. The column is signed: on a count that is 0 the program would go below it.
abbrev pub drop_participant : Meetup → Meetup
drop_participant m = record m { participant_count = m.participant_count - 1 }

unfoldable pub join_meetup_commit : ℕ → ℕ → Action State Error (Unit {0})
join_meetup_commit meetup_id user_id = modify (λ s. record s {
  participants =
      record { id = s.next_id; meetup_id = meetup_id; user_id = user_id } ∷ s.participants;
  meetups = update_by meetup_key meetup_id add_participant s.meetups;
  outbox = meetup_joined meetup_id ∷ s.outbox;
  next_id = suc s.next_id;
})

-- `join` on the meetup that is locked. What it reads is read first.
abbrev pub join_meetup_known : ℕ → ℕ → Meetup → Action State Error (Unit {0})
join_meetup_known meetup_id user_id m = do
  existing ← gets (find_participant meetup_id user_id)
  raise_if (not (is_scheduled m.status)) not_scheduled
  raise_if (is_some existing) already_participant
  raise_if (test_or false (λ n. leb n m.participant_count) m.participant_limit) meetup_full
  join_meetup_commit meetup_id user_id

-- The transaction of `join`.
unfoldable pub join_meetup_tx : ℕ → ℕ → ℕ → Action State Error (Unit {0})
join_meetup_tx community_id meetup_id user_id = do
  m ← or_raise (← gets (find_meetup community_id meetup_id)) meetup_not_found
  join_meetup_known meetup_id user_id m

unfoldable pub join_meetup : ℕ → ℕ → ℕ → Action State Error (Unit {0})
join_meetup community_id meetup_id user_id = do
  c ← assert_active_member user_id community_id
  transaction (join_meetup_tx community_id meetup_id user_id)

-- The transaction of `leave`, on the participation that was read before it.
unfoldable pub leave_meetup_commit : Participant → ℕ → Action State Error (Unit {0})
leave_meetup_commit p meetup_id = modify (λ s. record s {
  participants = remove_by participant_key p.id s.participants;
  meetups = update_by meetup_key meetup_id drop_participant s.meetups;
  outbox = meetup_left meetup_id ∷ s.outbox;
})

-- `leave` for an active member.
abbrev pub leave_as : ℕ → ℕ → ℕ → Action State Error (Unit {0})
leave_as community_id meetup_id user_id = do
  found ← gets (find_participant meetup_id user_id)
  m ← or_raise (← gets (find_meetup community_id meetup_id)) meetup_not_found
  raise_if (m.created_by == user_id) creator_leaves
  p ← or_raise found not_participant
  leave_meetup_commit p meetup_id

unfoldable pub leave_meetup : ℕ → ℕ → ℕ → Action State Error (Unit {0})
leave_meetup community_id meetup_id user_id = do
  c ← assert_active_member user_id community_id
  leave_as community_id meetup_id user_id

pub record UpdateMeetup : Type 0 where
  pub starts_at : Option ℕ
  pub ends_at : Option (Option ℕ)
  pub participant_limit : Option ℕ
  pub status : Option MeetupStatus

abbrev pub edit_meetup : UpdateMeetup → Meetup → Meetup
edit_meetup dto m = record m {
  starts_at = or_default dto.starts_at m.starts_at;
  ends_at = or_default dto.ends_at m.ends_at;
  participant_limit = or_else dto.participant_limit m.participant_limit;
  status = or_default dto.status m.status;
}

-- The creator of the meetup, an administrator, or who may manage the community.
unfoldable pub assert_can_edit : Meetup → ℕ → ℕ → List Role → Action State Error (Unit {0})
assert_can_edit m community_id user_id roles =
    when (not (m.created_by == user_id) && not (some_role is_admin roles))
      (assert_can_manage_community user_id roles community_id >> pure tt)

-- A change of a meetup that is found by who may edit it.
abbrev pub edit_as : ℕ → ℕ → ℕ → List Role → (State → State) → Action State Error (Unit {0})
edit_as community_id meetup_id user_id roles write = do
  m ← or_raise (← gets (find_meetup community_id meetup_id)) meetup_not_found
  assert_can_edit m community_id user_id roles
  modify write

abbrev pub update_write : ℕ → UpdateMeetup → State → State
update_write meetup_id dto s = record s {
  meetups = update_by meetup_key meetup_id (edit_meetup dto) s.meetups;
}

unfoldable pub update_meetup : ℕ → ℕ → ℕ → List Role → UpdateMeetup → Action State Error (Unit {0})
update_meetup community_id meetup_id user_id roles dto =
    edit_as community_id meetup_id user_id roles (update_write meetup_id dto)

abbrev pub set_cancelled : Meetup → Meetup
set_cancelled m = record m { status = MeetupStatus.cancelled }

abbrev pub cancel_write : ℕ → State → State
cancel_write meetup_id s = record s {
  meetups = update_by meetup_key meetup_id set_cancelled s.meetups;
  outbox = meetup_status_updated meetup_id ∷ s.outbox;
  audit = meetup_cancel meetup_id ∷ s.audit;
}

unfoldable pub cancel_meetup : ℕ → ℕ → ℕ → List Role → Action State Error (Unit {0})
cancel_meetup community_id meetup_id user_id roles =
    edit_as community_id meetup_id user_id roles (cancel_write meetup_id)
