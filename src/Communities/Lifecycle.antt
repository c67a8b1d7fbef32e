-- ===== src/Communities/Lifecycle.antt =====
-- CommunitiesService: src/modules/communities/services/communities.service.ts.
use innovents.Communities.Access.{is_admin, assert_can_manage_community}
use innovents.Communities.Tables.{
  community_key, is_free, CommunityType, Visibility, CommunityStatus, MemberRole, MemberStatus,
  Community, Member, State, Error, free, sponsored, public_community, archived, community_created,
  community_updated, community_deleted, community_create, community_update, community_delete,
  inactive_user, sponsor_required, free_capacity, event_not_found,
}
use innovents.Accounts.{is_active, is_sponsor, some_role, find_user, Role}
use innovents.Shared.{
  ltb, ◌==◌, if◌then◌else◌, is_some, test_or, or_default, find, update_by, Action, pure, gets,
  modify, raise_if, ◌>>=◌, ◌>>◌, ℕ, suc, Bool, true, false, not, ◌&&◌, ◌||◌, Option, none, some,
  List, ◌∷◌,
}

-- COMMUNITY_LIMITS
abbrev pub free_community_max_members : ℕ
free_community_max_members = 20

abbrev pub default_sponsored_capacity : ℕ
default_sponsored_capacity = 500

pub record CreateCommunity : Type 0 where
  pub event_id : ℕ
  pub kind : Option CommunityType
  pub visibility : Option Visibility
  pub member_capacity : Option ℕ

abbrev pub is_sponsored_type : Option CommunityType → Bool
is_sponsored_type (some sponsored) = true
is_sponsored_type _ = false

abbrev pub new_community : ℕ → ℕ → CreateCommunity → Community
new_community id user_id dto = record {
  id = id;
  event_id = dto.event_id;
  created_by = user_id;
  kind = or_default dto.kind free;
  visibility = or_default dto.visibility public_community;
  status = CommunityStatus.active;
  member_capacity =
      if is_sponsored_type dto.kind
      then or_default dto.member_capacity default_sponsored_capacity
      else free_community_max_members;
  member_count = 1;
  is_sponsored = is_sponsored_type dto.kind;
  is_pinned = is_sponsored_type dto.kind;
  deleted_at = none;
}

abbrev pub new_member : ℕ → ℕ → ℕ → MemberRole → ℕ → Member
new_member id community_id user_id role now = record {
  id = id;
  community_id = community_id;
  user_id = user_id;
  role = role;
  status = MemberStatus.active;
  joined_at = now;
  left_at = none;
  banned_at = none;
  banned_by = none;
}

-- The transaction of `create`: the community and its owner.
unfoldable pub create_commit : ℕ → CreateCommunity → ℕ → Action State Error ℕ
create_commit user_id dto now = do
  id ← gets (λ s. s.next_id)
  modify (λ s. record s {
    communities = new_community id user_id dto ∷ s.communities;
    members = new_member (suc id) id user_id MemberRole.owner now ∷ s.members;
    outbox = community_created id ∷ s.outbox;
    audit = community_create id ∷ s.audit;
    next_id = suc (suc id);
  })
  pure id

unfoldable pub create_community : ℕ → List Role → CreateCommunity → ℕ → Action State Error ℕ
create_community user_id roles dto now = do
  creator ← gets (λ s. find_user user_id s.users)
  raise_if (not (test_or false (λ u. is_active u.status) creator)) inactive_user
  event ← gets (λ s. find (λ e. e.id == dto.event_id && not (is_some e.deleted_at)) s.events)
  raise_if (not (is_some event)) event_not_found
  raise_if
      (is_sponsored_type dto.kind && not (some_role is_sponsor roles || some_role is_admin roles))
      sponsor_required
  create_commit user_id dto now

pub record UpdateCommunity : Type 0 where
  pub visibility : Option Visibility
  pub member_capacity : Option ℕ

-- The capacity that is written: 20 for a free community, and else what is given.
abbrev pub new_capacity : CommunityType → Option ℕ → Option ℕ
new_capacity kind capacity = if is_free kind then some free_community_max_members else capacity

abbrev pub edit : UpdateCommunity → Option ℕ → Community → Community
edit dto capacity c = record c {
  visibility = or_default dto.visibility c.visibility;
  member_capacity = or_default capacity c.member_capacity;
}

-- `update` on the community that was read before it.
abbrev pub update_as : ℕ → UpdateCommunity → Community → Action State Error (Unit {0})
update_as community_id dto c = do
  raise_if
      (is_free c.kind && test_or false (λ n. ltb free_community_max_members n) dto.member_capacity)
      free_capacity
  modify (λ s. record s {
    communities =
        update_by community_key community_id (edit dto (new_capacity c.kind dto.member_capacity))
          s.communities;
    outbox = community_updated community_id ∷ s.outbox;
    audit = community_update community_id ∷ s.audit;
  })

unfoldable pub update_community :
    ℕ → ℕ → List Role → UpdateCommunity → Action State Error (Unit {0})
update_community community_id user_id roles dto = do
  c ← assert_can_manage_community user_id roles community_id
  update_as community_id dto c

abbrev pub archive : ℕ → Community → Community
archive now c = record c { deleted_at = some now; status = archived }

unfoldable pub delete_community : ℕ → ℕ → List Role → ℕ → Action State Error (Unit {0})
delete_community community_id user_id roles now = do
  c ← assert_can_manage_community user_id roles community_id
  modify (λ s. record s {
    communities = update_by community_key community_id (archive now) s.communities;
    outbox = community_deleted community_id ∷ s.outbox;
    audit = community_delete community_id ∷ s.audit;
  })
