-- ===== src/Communities/Meeting.antt =====
-- A meetup counts its participants, through every sequence of calls of the meetup service.
use innovents.Communities.Meetups.{
  create_meetup, join_meetup, leave_meetup, update_meetup, cancel_meetup, CreateMeetup,
  UpdateMeetup,
}
use innovents.Accounts.{Role}
use innovents.Communities.Tables.{meetup_key, participant_key, Participant, State}
use innovents.Shared.{IsTallied, ℕ, Bool, true, List, [], ◌∷◌}

pub data MeetupCall : Type 0 where
  plan : ℕ → ℕ → CreateMeetup → MeetupCall
  take_part drop_out : ℕ → ℕ → ℕ → MeetupCall
  change : ℕ → ℕ → ℕ → List Role → UpdateMeetup → MeetupCall
  call_off : ℕ → ℕ → ℕ → List Role → MeetupCall

unfoldable pub serve_meetup : MeetupCall → State → State
serve_meetup (plan community_id user_id dto) s = (create_meetup community_id user_id dto s).1
serve_meetup (take_part community_id meetup_id user_id) s =
    (join_meetup community_id meetup_id user_id s).1
serve_meetup (drop_out community_id meetup_id user_id) s =
    (leave_meetup community_id meetup_id user_id s).1
serve_meetup (change community_id meetup_id user_id roles dto) s =
    (update_meetup community_id meetup_id user_id roles dto s).1
serve_meetup (call_off community_id meetup_id user_id roles) s =
    (cancel_meetup community_id meetup_id user_id roles s).1

unfoldable pub serve_meetups : List MeetupCall → State → State
serve_meetups [] s = s
serve_meetups (r ∷ rs) s = serve_meetups rs (serve_meetup r s)

abbrev pub seat_key : Participant → ℕ
seat_key p = p.meetup_id

abbrev pub is_seated : Participant → Bool
is_seated p = true

-- The counter of the meetup `j` is the number of its participants.
abbrev pub IsAttended : ℕ → State → Type 0
IsAttended j s =
    IsTallied meetup_key (λ m. m.participant_count) participant_key seat_key is_seated j s.meetups
      s.participants s.next_id
