-- ===== src/Communities/Access.antt =====
-- CommunityAuthorizationService: src/modules/communities/services/community-authorization.service.ts.
use innovents.Communities.Tables.{
  is_joined, is_moderator, find_community, find_member, MemberRole, Community, State, Error,
  moderator, not_manager, not_moderator, not_active_member, community_not_found,
}
use innovents.Accounts.{some_role, Role, admin}
use innovents.Shared.{
  ◌==◌, if◌then◌else◌, test_or, Action, pure, gets, raise_if, or_raise, ◌>>=◌, ◌>>◌, ℕ, Bool, true,
  false, not, ◌&&◌, ◌||◌, List,
}

-- `userRoles.includes('ADMIN')`
abbrev pub is_admin : Role → Bool
is_admin admin = true
is_admin _ = false

abbrev pub may_manage : ℕ → List Role → Community → Bool
may_manage user_id roles c = some_role is_admin roles || c.created_by == user_id

unfoldable pub assert_can_manage_community : ℕ → List Role → ℕ → Action State Error Community
assert_can_manage_community user_id roles community_id = do
  c ← or_raise (← gets (find_community community_id)) community_not_found
  raise_if (not (may_manage user_id roles c)) not_manager
  pure c

-- The role of the operator: OWNER for who may manage the community, or MODERATOR.
unfoldable pub assert_can_moderate_community : ℕ → List Role → ℕ → Action State Error MemberRole
assert_can_moderate_community user_id roles community_id = do
  c ← or_raise (← gets (find_community community_id)) community_not_found
  found ← gets (find_member community_id user_id)
  let moderates = test_or false (λ m. is_joined m.status && is_moderator m.role) found
  raise_if (not (may_manage user_id roles c) && not moderates) not_moderator
  pure (if may_manage user_id roles c then MemberRole.owner else moderator)

unfoldable pub assert_active_member : ℕ → ℕ → Action State Error Community
assert_active_member user_id community_id = do
  c ← or_raise (← gets (find_community community_id)) community_not_found
  found ← gets (find_member community_id user_id)
  raise_if (not (test_or false (λ m. is_joined m.status) found)) not_active_member
  pure c
