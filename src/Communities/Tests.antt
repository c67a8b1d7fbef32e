-- ===== src/Communities/Tests.antt =====
-- Runs of the community services on a community, its owner and two more users.
use innovents.Communities.Moderation.{delete_reply-elsewhere}
use innovents.Communities.Tallies.{IsLiked, IsAnswered, serve_posts-IsLiked}
use innovents.Communities.Discussion.{serve_posts, PostCall, publish, toggle, answer, withdraw}
use innovents.Communities.Replies.{new_reply, delete_reply}
use innovents.Communities.Meetups.{CreateMeetup}
use innovents.Communities.Attendance.{serve_meetups-IsAttended}
use innovents.Communities.Meeting.{
  serve_meetups, IsAttended, MeetupCall, plan, take_part, drop_out, call_off,
}
use innovents.Communities.Run.{
  serve_calls, serve_calls-IsCounted, Call, create, delete, enter, go, ban, unban, meet,
}
use innovents.Communities.Limits.{join-Entered, join-full}
use innovents.Communities.Lifecycle.{new_community, new_member, CreateCommunity}
use innovents.Communities.Members.{join_commit, join_tx, join}
use innovents.Communities.Counted.{is_member_of, IsCounted}
use innovents.Accounts.{AccountStatus, User, attendee}
use innovents.Communities.Tables.{
  find_reply, effective_capacity, MemberRole, Community, Member, HostEvent, State, sponsored,
  member,
}
use innovents.Shared.{count_where, ok, suc, ◌≤◌, ◌≡◌, refl, ◌≢◌, none, some, List, [], ◌∷◌, arith}

abbrev ann : User
ann = record { id = 1; status = AccountStatus.active; deleted_at = none; roles = attendee ∷ [] }

abbrev ben : User
ben = record { id = 2; status = AccountStatus.active; deleted_at = none; roles = attendee ∷ [] }

abbrev fair : HostEvent
fair = record { id = 5; starts_at = 100; ends_at = 200; deleted_at = none }

abbrev empty : State
empty = record {
  users = ann ∷ ben ∷ [];
  events = fair ∷ [];
  communities = [];
  members = [];
  sponsorships = [];
  meetups = [];
  participants = [];
  posts = [];
  replies = [];
  post_likes = [];
  reply_likes = [];
  mentions = [];
  outbox = [];
  audit = [];
  next_id = 10;
}

abbrev club_dto : CreateCommunity
club_dto = record { event_id = 5; kind = none; visibility = none; member_capacity = none }

abbrev walk : CreateMeetup
walk = record { starts_at = some 150; ends_at = some 160; participant_limit = some 2 }

abbrev meetings : List MeetupCall
meetings = plan 10 1 walk ∷ take_part 10 13 2 ∷ drop_out 10 13 2 ∷ call_off 10 13 1 [] ∷ []

-- A community is founded, a user joins it, meets others, is banned, let in again and leaves.
abbrev calls : List Call
calls =
    create 1 [] club_dto 20
    ∷ enter 2 10 [] 30
    ∷ meet (plan 10 1 walk)
    ∷ meet (take_part 10 13 2)
    ∷ ban 10 2 1 [] 40
    ∷ unban 10 2 1 [] 50
    ∷ enter 2 10 [] 60
    ∷ go 2 10 70
    ∷ delete 10 1 [] 80
    ∷ []

empty-IsCounted : IsCounted 10 empty
empty-IsCounted = record {
  community_keys = tt;
  community_fresh = tt;
  member_keys = tt;
  member_fresh = tt;
  homes = tt;
  counted = refl;
}

serve_calls-IsCounted_example : IsCounted 10 (serve_calls calls empty)
serve_calls-IsCounted_example = serve_calls-IsCounted 10 calls empty empty-IsCounted

-- The community of ann, with its one member.
abbrev club : Community
club = new_community 10 1 club_dto

abbrev founded : State
founded = record empty {
  communities = club ∷ [];
  members = new_member 11 10 1 MemberRole.owner 20 ∷ [];
  next_id = 12;
}

founded-IsAttended : IsAttended 13 founded
founded-IsAttended = record {
  keys = tt;
  fresh = tt;
  child_keys = tt;
  child_fresh = tt;
  targets = tt;
  tallied = refl;
}

serve_meetups-IsAttended_example : IsAttended 13 (serve_meetups meetings founded)
serve_meetups-IsAttended_example = serve_meetups-IsAttended 13 meetings founded founded-IsAttended

founded-IsCounted : IsCounted 10 founded
founded-IsCounted = record {
  community_keys = (tt, tt);
  community_fresh = (omega arith, tt);
  member_keys = (tt, tt);
  member_fresh = (omega arith, tt);
  homes = (omega arith, tt);
  counted = refl;
}

join-Entered_example :
    (count_where (is_member_of 10) (join 2 10 [] 30 founded).1.members
      ≡ suc (count_where (is_member_of 10) founded.members))
    × (count_where (is_member_of 10) (join 2 10 [] 30 founded).1.members
        ≤ effective_capacity 10 30 founded)
unfolding join join_tx join_commit
join-Entered_example =
    join-Entered 2 10 30 12 [] founded (join 2 10 [] 30 founded).1 founded-IsCounted refl

-- A sponsored community for 500 members that has 20.
abbrev large : Community
large = record (new_community 10 1 (record club_dto { kind = some sponsored })) {
  member_count = 20;
}

abbrev crowded : State
crowded = record founded { communities = large ∷ [] }

join-full_example : join 2 10 [] 30 crowded ≢ (ok 12, founded)
join-full_example = join-full 2 10 30 12 [] large crowded founded refl refl (omega arith)

-- ben is a member too.
abbrev guest : Member
guest = new_member 12 10 2 member 30

abbrev visited : State
visited = record founded {
  communities = record club { member_count = 2 } ∷ [];
  members = guest ∷ new_member 11 10 1 MemberRole.owner 20 ∷ [];
  next_id = 13;
}

visited-IsCounted : IsCounted 10 visited
visited-IsCounted = record {
  community_keys = (tt, tt);
  community_fresh = (omega arith, tt);
  member_keys = ((λ (e : 11 ≡ 12). omega (arith, e), tt), (tt, tt));
  member_fresh = (omega arith, (omega arith, tt));
  homes = (omega arith, (omega arith, tt));
  counted = refl;
}

-- ann writes a post, ben answers and likes it twice, and deletes his answer.
abbrev posts : List PostCall
posts =
    publish 10 1 (2 ∷ 1 ∷ 2 ∷ [])
    ∷ toggle 10 13 2
    ∷ answer 10 13 2 none []
    ∷ toggle 10 13 2
    ∷ withdraw 10 13 16 2 [] 90
    ∷ []

serve_posts-IsLiked_example :
    IsLiked 13 (serve_posts posts visited) × IsAnswered 13 (serve_posts posts visited)
serve_posts-IsLiked_example =
    serve_posts-IsLiked 13 posts visited
      (record {
        keys = tt;
        fresh = tt;
        child_keys = tt;
        child_fresh = tt;
        targets = tt;
        tallied = refl;
      })
      (record {
        keys = tt;
        fresh = tt;
        child_keys = tt;
        child_fresh = tt;
        targets = tt;
        tallied = refl;
      })

-- A reply of another community, 30, to its post 31.
abbrev elsewhere : State
elsewhere = record visited { replies = new_reply 32 31 5 none ∷ [] }

delete_reply-elsewhere_example :
    (t : State) × (delete_reply 10 31 32 1 [] 90 elsewhere ≡ (ok tt, t))
    × (find_reply 31 32 t ≡ none)
delete_reply-elsewhere_example =
    delete_reply-elsewhere 10 31 32 1 90 [] (record club { member_count = 2 })
      (new_reply 32 31 5 none) elsewhere refl refl refl
