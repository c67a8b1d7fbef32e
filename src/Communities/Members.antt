-- ===== src/Communities/Members.antt =====
-- CommunityMembersService: src/modules/communities/services/community-members.service.ts.
use innovents.Communities.Lifecycle.{new_member}
use innovents.Communities.Access.{
  is_admin, assert_can_manage_community, assert_can_moderate_community,
}
use innovents.Communities.Tables.{
  community_key, member_key, is_open, is_private, is_joined, is_left, is_banned, is_owner,
  is_moderator, find_community, find_member, effective_capacity, MemberRole, MemberStatus,
  Community, Member, State, Error, member, left, banned, member_joined, member_left,
  member_role_updated, member_banned, member_unbanned, member_join, member_leave,
  member_role_update, member_ban, member_unban, inactive_user, private_only, owner_ban, fellow_ban,
  community_not_found, member_not_found, not_banned, not_active, already_member, banned_member,
  community_full, owner_leaves, own_role, self_ban, duplicate_key,
}
use innovents.Accounts.{is_active, some_role, find_user, Role}
use innovents.Shared.{
  leb, ◌==◌, test_or, update_by, Action, pure, gets, modify, raise_if, or_raise, when, ◌>>=◌, ◌>>◌,
  transaction, ℕ, suc, ◌+◌, ◌-◌, Bool, false, not, ◌&&◌, Option, none, some, List, ◌∷◌,
}

abbrev pub count_in : Community → Community
count_in c = record c { member_count = c.member_count + 1 }

-- `decrement: 1`. The column is signed: on a count that is 0 the program would go below it.
abbrev pub count_out : Community → Community
count_out c = record c { member_count = c.member_count - 1 }

abbrev pub rejoin : ℕ → Member → Member
rejoin now m = record m { status = MemberStatus.active; left_at = none; joined_at = now }

abbrev pub set_left : ℕ → Member → Member
set_left now m = record m { status = left; left_at = some now }

-- The membership of who joins: the row of a former member, or a new one. The unique index refuses a
-- second row.
abbrev pub save_member : Option Member → ℕ → ℕ → ℕ → Action State Error ℕ
save_member none community_id user_id now = do
  id ← gets (λ s. s.next_id)
  modify (λ s. record s {
    members = new_member id community_id user_id member now ∷ s.members;
    next_id = suc s.next_id;
  })
  pure id
save_member (some m) community_id user_id now = do
  raise_if (not (is_left m.status)) duplicate_key
  modify (λ s. record s { members = update_by member_key m.id (rejoin now) s.members })
  pure m.id

-- The end of the transaction of `join`, when its checks have passed.
unfoldable pub join_commit : Option Member → ℕ → ℕ → ℕ → Action State Error ℕ
join_commit existing community_id user_id now = do
  id ← save_member existing community_id user_id now
  modify (λ s. record s {
    communities = update_by community_key community_id count_in s.communities;
    outbox = member_joined id ∷ s.outbox;
    audit = member_join id ∷ s.audit;
  })
  pure id

abbrev pub has_status : (MemberStatus → Bool) → Option Member → Bool
has_status p o = test_or false (λ m. p m.status) o

-- `join` on the community that is locked. What it reads is read first.
abbrev pub join_known : ℕ → ℕ → List Role → ℕ → Community → Action State Error ℕ
join_known user_id community_id roles now c = do
  existing ← gets (find_member community_id user_id)
  capacity ← gets (effective_capacity community_id now)
  raise_if (not (is_open c.status)) not_active
  raise_if (is_private c.visibility && not (some_role is_admin roles)) private_only
  raise_if (has_status is_joined existing) already_member
  raise_if (has_status is_banned existing) banned_member
  raise_if (leb capacity c.member_count) community_full
  join_commit existing community_id user_id now

-- The transaction of `join`.
unfoldable pub join_tx : ℕ → ℕ → List Role → ℕ → Action State Error ℕ
join_tx user_id community_id roles now = do
  c ← or_raise (← gets (find_community community_id)) community_not_found
  join_known user_id community_id roles now c

unfoldable pub join : ℕ → ℕ → List Role → ℕ → Action State Error ℕ
join user_id community_id roles now = do
  user ← gets (λ s. find_user user_id s.users)
  raise_if (not (test_or false (λ u. is_active u.status) user)) inactive_user
  transaction (join_tx user_id community_id roles now)

-- The transaction of `leave`, on the membership that was read before it.
unfoldable pub leave_commit : Member → ℕ → ℕ → Action State Error (Unit {0})
leave_commit m community_id now = modify (λ s. record s {
  members = update_by member_key m.id (set_left now) s.members;
  communities = update_by community_key community_id count_out s.communities;
  outbox = member_left m.id ∷ s.outbox;
  audit = member_leave m.id ∷ s.audit;
})

unfoldable pub leave : ℕ → ℕ → ℕ → Action State Error (Unit {0})
leave user_id community_id now = do
  m ← or_raise (← gets (find_member community_id user_id)) member_not_found
  raise_if (not (is_joined m.status)) member_not_found
  raise_if (is_owner m.role) owner_leaves
  leave_commit m community_id now

abbrev pub set_role : MemberRole → Member → Member
set_role role m = record m { role = role }

abbrev pub update_role_of : Member → MemberRole → Action State Error (Unit {0})
update_role_of m role = modify (λ s. record s {
  members = update_by member_key m.id (set_role role) s.members;
  outbox = member_role_updated m.id ∷ s.outbox;
  audit = member_role_update m.id ∷ s.audit;
})

-- `updateRole` for an operator who may manage the community.
abbrev pub update_role_as : ℕ → ℕ → ℕ → MemberRole → Action State Error (Unit {0})
update_role_as community_id target_user_id operator_id role = do
  found ← gets (find_member community_id target_user_id)
  raise_if (target_user_id == operator_id) own_role
  m ← or_raise found member_not_found
  raise_if (not (is_joined m.status)) member_not_found
  update_role_of m role

unfoldable pub update_role : ℕ → ℕ → ℕ → List Role → MemberRole → Action State Error (Unit {0})
update_role community_id target_user_id operator_id roles role = do
  c ← assert_can_manage_community operator_id roles community_id
  update_role_as community_id target_user_id operator_id role

abbrev pub set_banned : ℕ → ℕ → Member → Member
set_banned operator_id now m = record m {
  status = banned;
  banned_at = some now;
  banned_by = some operator_id;
}

-- The transaction of `banMember`, on the membership that was read before it.
unfoldable pub ban_commit : Member → ℕ → ℕ → ℕ → Action State Error (Unit {0})
ban_commit m community_id operator_id now = do
  modify
      (λ s. record s { members = update_by member_key m.id (set_banned operator_id now) s.members })
  when (is_joined m.status) (
      modify (λ s. record s {
        communities = update_by community_key community_id count_out s.communities;
      }))
  modify
      (λ s. record s { outbox = member_banned m.id ∷ s.outbox; audit = member_ban m.id ∷ s.audit })

-- `banMember` for an operator with the role that moderates.
abbrev pub ban_as : ℕ → ℕ → ℕ → List Role → ℕ → MemberRole → Action State Error (Unit {0})
ban_as community_id target_user_id operator_id roles now operator_role = do
  found ← gets (find_member community_id target_user_id)
  raise_if (target_user_id == operator_id) self_ban
  m ← or_raise found member_not_found
  raise_if (is_owner m.role) owner_ban
  raise_if (is_moderator m.role && is_moderator operator_role && not (some_role is_admin roles))
      fellow_ban
  ban_commit m community_id operator_id now

unfoldable pub ban_member : ℕ → ℕ → ℕ → List Role → ℕ → Action State Error (Unit {0})
ban_member community_id target_user_id operator_id roles now = do
  operator_role ← assert_can_moderate_community operator_id roles community_id
  ban_as community_id target_user_id operator_id roles now operator_role

abbrev pub set_unbanned : ℕ → Member → Member
set_unbanned now m = record m {
  status = left;
  banned_at = none;
  banned_by = none;
  left_at = some now;
}

abbrev pub unban_of : Member → ℕ → Action State Error (Unit {0})
unban_of m now = modify (λ s. record s {
  members = update_by member_key m.id (set_unbanned now) s.members;
  outbox = member_unbanned m.id ∷ s.outbox;
  audit = member_unban m.id ∷ s.audit;
})

-- `unbanMember` for an operator who may moderate.
abbrev pub unban_as : ℕ → ℕ → ℕ → Action State Error (Unit {0})
unban_as community_id target_user_id now = do
  m ← or_raise (← gets (find_member community_id target_user_id)) not_banned
  raise_if (not (is_banned m.status)) not_banned
  unban_of m now

unfoldable pub unban_member : ℕ → ℕ → ℕ → List Role → ℕ → Action State Error (Unit {0})
unban_member community_id target_user_id operator_id roles now = do
  operator_role ← assert_can_moderate_community operator_id roles community_id
  unban_as community_id target_user_id now
