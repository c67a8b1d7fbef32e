-- ===== src/Communities/Tables.antt =====
-- The tables of the community services (prisma/schema.prisma), and their queries.
use innovents.Payments.Tables.{is_running, Sponsorship}
use innovents.Accounts.{User}
use innovents.Shared.{
  ◌==◌, is_some, map_option, or_default, find, HttpStatus, ℕ, Bool, true, false, not, ◌&&◌, Option,
  List,
}

pub data CommunityType : Type 0 where
  free sponsored : CommunityType

pub data Visibility : Type 0 where
  public_community private_community : Visibility

pub data CommunityStatus : Type 0 where
  active suspended archived : CommunityStatus

pub data MemberRole : Type 0 where
  owner moderator speaker member : MemberRole

pub data MemberStatus : Type 0 where
  active left banned : MemberStatus

pub data MeetupStatus : Type 0 where
  scheduled completed cancelled : MeetupStatus

-- Names, texts and images are left out.
pub record Community : Type 0 where
  pub id : ℕ
  pub event_id : ℕ
  pub created_by : ℕ
  pub kind : CommunityType
  pub visibility : Visibility
  pub status : CommunityStatus
  pub member_capacity : ℕ
  pub member_count : ℕ
  pub is_sponsored : Bool
  pub is_pinned : Bool
  pub deleted_at : Option ℕ

pub record Member : Type 0 where
  pub id : ℕ
  pub community_id : ℕ
  pub user_id : ℕ
  pub role : MemberRole
  pub status : MemberStatus
  pub joined_at : ℕ
  pub left_at : Option ℕ
  pub banned_at : Option ℕ
  pub banned_by : Option ℕ

pub record Meetup : Type 0 where
  pub id : ℕ
  pub community_id : ℕ
  pub event_id : ℕ
  pub created_by : ℕ
  pub starts_at : ℕ
  pub ends_at : Option ℕ
  pub participant_limit : Option ℕ
  pub participant_count : ℕ
  pub status : MeetupStatus
  pub deleted_at : Option ℕ

pub record Participant : Type 0 where
  pub id : ℕ
  pub meetup_id : ℕ
  pub user_id : ℕ

pub data PostStatus : Type 0 where
  published hidden deleted : PostStatus

-- Texts, attachments and links are left out.
pub record Post : Type 0 where
  pub id : ℕ
  pub community_id : ℕ
  pub author_id : ℕ
  pub is_pinned : Bool
  pub status : PostStatus
  pub like_count : ℕ
  pub reply_count : ℕ
  pub deleted_at : Option ℕ

pub record PostReply : Type 0 where
  pub id : ℕ
  pub post_id : ℕ
  pub author_id : ℕ
  pub parent_id : Option ℕ
  pub status : PostStatus
  pub like_count : ℕ
  pub deleted_at : Option ℕ

-- A like of the post or the reply `target`, by the table that it stands in.
pub record Like : Type 0 where
  pub id : ℕ
  pub target : ℕ
  pub user_id : ℕ

-- A mention in the post or the reply `target`.
pub record Mention : Type 0 where
  pub id : ℕ
  pub actor_id : ℕ
  pub user_id : ℕ
  pub target : ℕ

-- The event of a community, as these services read it.
pub record HostEvent : Type 0 where
  pub id : ℕ
  pub starts_at : ℕ
  pub ends_at : ℕ
  pub deleted_at : Option ℕ

-- The outbox events, by the row that they are about.
pub data Message : Type 0 where
  community_created community_updated community_deleted : ℕ → Message
  member_joined member_left member_role_updated member_banned member_unbanned : ℕ → Message
  meetup_created meetup_joined meetup_left meetup_status_updated : ℕ → Message
  post_created post_deleted post_pinned post_unpinned reply_created : ℕ → Message
  post_liked post_unliked mention_created : ℕ → ℕ → Message

pub data AuditEntry : Type 0 where
  community_create community_update community_delete : ℕ → AuditEntry
  member_join member_leave member_role_update member_ban member_unban : ℕ → AuditEntry
  meetup_create meetup_cancel : ℕ → AuditEntry
  post_create post_delete post_pin post_unpin : ℕ → AuditEntry

pub record State : Type 0 where
  pub users : List User
  pub events : List HostEvent
  pub communities : List Community
  pub members : List Member
  pub sponsorships : List Sponsorship
  pub meetups : List Meetup
  pub participants : List Participant
  pub posts : List Post
  pub replies : List PostReply
  pub post_likes : List Like
  pub reply_likes : List Like
  pub mentions : List Mention
  pub outbox : List Message
  pub audit : List AuditEntry
  pub next_id : ℕ

pub data Error : Type 0 where
  inactive_user sponsor_required private_only not_manager not_moderator not_active_member : Error
  owner_ban fellow_ban free_capacity : Error
  event_not_found community_not_found member_not_found not_banned meetup_not_found not_participant :
      Error
  not_active already_member banned_member community_full : Error
  not_scheduled already_participant meetup_full : Error
  owner_leaves own_role self_ban invalid_period outside_event creator_leaves : Error
  duplicate_key : Error
  post_not_found reply_not_found parent_not_found not_author not_published : Error

unfoldable pub http_status : Error → HttpStatus
http_status inactive_user = HttpStatus.forbidden
http_status sponsor_required = HttpStatus.forbidden
http_status private_only = HttpStatus.forbidden
http_status not_manager = HttpStatus.forbidden
http_status not_moderator = HttpStatus.forbidden
http_status not_active_member = HttpStatus.forbidden
http_status owner_ban = HttpStatus.forbidden
http_status fellow_ban = HttpStatus.forbidden
http_status free_capacity = HttpStatus.forbidden
http_status event_not_found = HttpStatus.not_found
http_status community_not_found = HttpStatus.not_found
http_status member_not_found = HttpStatus.not_found
http_status not_banned = HttpStatus.not_found
http_status meetup_not_found = HttpStatus.not_found
http_status not_participant = HttpStatus.not_found
http_status not_active = HttpStatus.conflict
http_status already_member = HttpStatus.conflict
http_status banned_member = HttpStatus.conflict
http_status community_full = HttpStatus.conflict
http_status not_scheduled = HttpStatus.conflict
http_status already_participant = HttpStatus.conflict
http_status meetup_full = HttpStatus.conflict
http_status post_not_found = HttpStatus.not_found
http_status reply_not_found = HttpStatus.not_found
http_status parent_not_found = HttpStatus.not_found
http_status not_author = HttpStatus.forbidden
http_status duplicate_key = HttpStatus.internal
http_status _ = HttpStatus.bad_request

abbrev pub community_key : Community → ℕ
community_key c = c.id

abbrev pub member_key : Member → ℕ
member_key m = m.id

abbrev pub meetup_key : Meetup → ℕ
meetup_key m = m.id

abbrev pub participant_key : Participant → ℕ
participant_key p = p.id

abbrev pub is_open : CommunityStatus → Bool
is_open CommunityStatus.active = true
is_open _ = false

abbrev pub is_private : Visibility → Bool
is_private private_community = true
is_private public_community = false

abbrev pub is_free : CommunityType → Bool
is_free free = true
is_free sponsored = false

abbrev pub is_joined : MemberStatus → Bool
is_joined MemberStatus.active = true
is_joined _ = false

abbrev pub is_left : MemberStatus → Bool
is_left left = true
is_left _ = false

abbrev pub is_banned : MemberStatus → Bool
is_banned banned = true
is_banned _ = false

abbrev pub is_owner : MemberRole → Bool
is_owner MemberRole.owner = true
is_owner _ = false

abbrev pub is_moderator : MemberRole → Bool
is_moderator moderator = true
is_moderator _ = false

abbrev pub is_scheduled : MeetupStatus → Bool
is_scheduled scheduled = true
is_scheduled _ = false

-- `findFirst({ id, deletedAt: null })`
abbrev pub find_community : ℕ → State → Option Community
find_community k s = find (λ c. c.id == k && not (is_some c.deleted_at)) s.communities

-- The unique index on the community and the user.
abbrev pub find_member : ℕ → ℕ → State → Option Member
find_member k u s = find (λ m. m.community_id == k && m.user_id == u) s.members

abbrev pub find_meetup : ℕ → ℕ → State → Option Meetup
find_meetup k j s =
    find (λ m. m.id == j && (m.community_id == k && not (is_some m.deleted_at))) s.meetups

abbrev pub find_participant : ℕ → ℕ → State → Option Participant
find_participant j u s = find (λ p. p.meetup_id == j && p.user_id == u) s.participants

abbrev pub post_key : Post → ℕ
post_key p = p.id

abbrev pub reply_key : PostReply → ℕ
reply_key r = r.id

abbrev pub like_key : Like → ℕ
like_key l = l.id

abbrev pub find_post : ℕ → ℕ → State → Option Post
find_post k i s =
    find (λ p. p.id == i && (p.community_id == k && not (is_some p.deleted_at))) s.posts

abbrev pub find_reply : ℕ → ℕ → State → Option PostReply
find_reply i j s = find (λ r. r.id == j && (r.post_id == i && not (is_some r.deleted_at))) s.replies

abbrev pub find_like : ℕ → ℕ → List Like → Option Like
find_like i u ls = find (λ l. l.target == i && l.user_id == u) ls

-- A sponsorship that runs.
abbrev pub running_sponsorship : ℕ → ℕ → State → Option Sponsorship
running_sponsorship community_id now s = find (is_running community_id now) s.sponsorships

-- What it grants, or 20.
abbrev pub effective_capacity : ℕ → ℕ → State → ℕ
effective_capacity community_id now s =
    or_default (map_option (λ h. h.sponsored_capacity) (running_sponsorship community_id now s)) 20
