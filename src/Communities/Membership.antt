-- ===== src/Communities/Membership.antt =====
-- Each method of the communities and their members keeps the counts of members.
use innovents.Communities.Access.{is_admin}
use innovents.Accounts.{some_role, Role}
use innovents.Communities.Counted.{
  IsCounted, joined-IsCounted, relabel-IsCounted, move-IsCounted, IsCountedIn,
}
use innovents.Communities.Lifecycle.{new_member}
use innovents.Communities.Members.{
  count_in, count_out, rejoin, set_left, join_commit, has_status, join_known, join_tx, leave_commit,
  leave, set_role, update_role_of, update_role_as, set_banned, ban_commit, ban_as, set_unbanned,
  unban_of, unban_as,
}
use innovents.Communities.Tables.{
  community_key, member_key, is_open, is_private, is_joined, is_left, is_banned, is_owner,
  is_moderator, find_community, find_member, effective_capacity, MemberRole, Community, Member,
  State, member, private_only, owner_ban, fellow_ban, community_not_found, member_not_found,
  not_banned, not_active, already_member, banned_member, community_full, own_role, self_ban,
}
use innovents.Shared.{
  leb, ◌==◌, is_some, Bool-cases, Option-cases, find_holds, find_by, update_by, Unique,
  find_by_found, raise_if, or_raise, ◌>>=◌, ◌>>◌, ℕ, ◌≡◌, refl, inl, inr, Bool, true, false, not,
  ◌&&◌, Option, none, some, List, arith,
}

-- The row of a membership, which is found by its id as well.
member_row :
    (j u : ℕ) (s : State) (m : Member)
    → Unique member_key s.members
    → find_member j u s ≡ some m
    → (find_by member_key m.id s.members ≡ some m) × (m.community_id ≡ j)
member_row j u s m keys found = (
  find_by_found member_key (λ x. x.community_id == j && x.user_id == u) s.members m keys found,
  ground (arith, find_holds (λ x. x.community_id == j && x.user_id == u) s.members m found),
)

module _ (k : ℕ) (s : State) (h : IsCounted k s) where
  pub join_commit-IsCounted :
      (o : Option Member) (community_id user_id now : ℕ) (c : Community)
      → find_community community_id s ≡ some c
      → find_member community_id user_id s ≡ o
      → IsCounted k (join_commit o community_id user_id now s).1
  unfolding join_commit
  join_commit-IsCounted none community_id user_id now c known found =
      joined-IsCounted k h (new_member s.next_id community_id user_id member now) count_in c refl
        refl
        (ground (
          arith,
          find_holds (λ x. x.id == community_id && not (is_some x.deleted_at)) s.communities c
              known,
          find_by_found community_key (λ x. x.id == community_id && not (is_some x.deleted_at))
              s.communities c h.community_keys known,
        ))
        (λ x. refl) (λ x. refl)
  join_commit-IsCounted (some m) community_id user_id now c known found = ground (arith, rejoined)
    where
      row : (find_by member_key m.id s.members ≡ some m) × (m.community_id ≡ community_id)
      row = member_row community_id user_id s m h.member_keys found

      rejoined :
          is_left m.status ≡ true
          → IsCountedIn k
              (update_by community_key community_id count_in s.communities)
              (update_by member_key m.id (rejoin now) s.members)
              s.next_id
      rejoined gone =
          move-IsCounted k h m community_id (rejoin now) count_in row.1 row.0 (λ x. refl)
            (λ x. refl) (λ x. refl) (λ x one. ground arith)

  pub join_tx-IsCounted :
      (user_id community_id : ℕ) (roles : List Role) (now : ℕ)
      → IsCounted k (join_tx user_id community_id roles now s).1
  unfolding join_tx
  join_tx-IsCounted user_id community_id roles now = known (find_community community_id s) refl
    where
      o : Option Member
      o = find_member community_id user_id s

      guarded :
          (x y z v w : Bool) (c : Community)
          → find_community community_id s ≡ some c
          → IsCounted k
              ((raise_if x not_active
                  >> (raise_if y private_only
                      >> (raise_if z already_member
                          >> (raise_if v banned_member
                              >> (raise_if w community_full
                                  >> join_commit o community_id user_id now)))))
                s).1
      guarded true y z v w c found = h
      guarded false true z v w c found = h
      guarded false false true v w c found = h
      guarded false false false true w c found = h
      guarded false false false false true c found = h
      guarded false false false false false c found =
          join_commit-IsCounted o community_id user_id now c found refl

      known :
          (r : Option Community)
          → find_community community_id s ≡ r
          → IsCounted k
              ((or_raise r community_not_found >>= join_known user_id community_id roles now) s).1
      known none found = h
      known (some c) found =
          guarded (not (is_open c.status))
            (is_private c.visibility && not (some_role is_admin roles)) (has_status is_joined o)
            (has_status is_banned o) (leb (effective_capacity community_id now s) c.member_count) c
            found

  leave_commit-IsCounted :
      (m : Member) (community_id user_id now : ℕ)
      → find_member community_id user_id s ≡ some m
      → is_joined m.status ≡ true
      → IsCounted k (leave_commit m community_id now s).1
  unfolding leave_commit
  leave_commit-IsCounted m community_id user_id now found joined =
      let row : (find_by member_key m.id s.members ≡ some m) × (m.community_id ≡ community_id) =
        member_row community_id user_id s m h.member_keys found in
      move-IsCounted k h m community_id (set_left now) count_out row.1 row.0 (λ x. refl) (λ x. refl)
        (λ x. refl) (λ x one. ground arith)

  pub leave-IsCounted :
      (user_id community_id now : ℕ) → IsCounted k (leave user_id community_id now s).1
  unfolding leave
  leave-IsCounted user_id community_id now =
      elim (Option-cases (find_member community_id user_id s)) [
        | inl missing ↦ ground arith
        | inr (m, found) ↦ ground (arith, leave_commit-IsCounted m community_id user_id now found)
      ]

  pub update_role_as-IsCounted :
      (community_id target_user_id operator_id : ℕ) (role : MemberRole)
      → IsCounted k (update_role_as community_id target_user_id operator_id role s).1
  update_role_as-IsCounted community_id target_user_id operator_id role =
      known (target_user_id == operator_id) (find_member community_id target_user_id s) refl
    where
      joined :
          (b : Bool) (m : Member)
          → find_member community_id target_user_id s ≡ some m
          → IsCounted k ((raise_if b member_not_found >> update_role_of m role) s).1
      joined true m found = h
      joined false m found =
          relabel-IsCounted k h m (set_role role)
            (member_row community_id target_user_id s m h.member_keys found).0 (λ x. refl)
            (λ x. refl) refl

      known :
          (b : Bool) (o : Option Member)
          → find_member community_id target_user_id s ≡ o
          → IsCounted k
              ((raise_if b own_role
                  >> (or_raise o member_not_found >>= λ m.
                      raise_if (not (is_joined m.status)) member_not_found
                      >> update_role_of m role))
                s).1
      known true o found = h
      known false none found = h
      known false (some m) found = joined (not (is_joined m.status)) m found

  ban_commit-IsCounted :
      (m : Member) (community_id user_id operator_id now : ℕ)
      → find_member community_id user_id s ≡ some m
      → IsCounted k (ban_commit m community_id operator_id now s).1
  unfolding ban_commit
  ban_commit-IsCounted m community_id user_id operator_id now found =
      let row : (find_by member_key m.id s.members ≡ some m) × (m.community_id ≡ community_id) =
        member_row community_id user_id s m h.member_keys found in
      elim (Bool-cases (is_joined m.status)) [
        | inl joined ↦ ground (
          arith,
          move-IsCounted k h m community_id (set_banned operator_id now) count_out row.1 row.0
              (λ x. refl) (λ x. refl) (λ x. refl) (λ x one. ground arith),
        )
        | inr apart ↦ ground (
          arith,
          relabel-IsCounted k h m (set_banned operator_id now) row.0 (λ x. refl) (λ x. refl)
              (ground arith),
        )
      ]

  pub ban_as-IsCounted :
      (community_id target_user_id operator_id : ℕ) (roles : List Role) (now : ℕ)
      (operator_role : MemberRole)
      → IsCounted k (ban_as community_id target_user_id operator_id roles now operator_role s).1
  ban_as-IsCounted community_id target_user_id operator_id roles now operator_role =
      known (target_user_id == operator_id) (find_member community_id target_user_id s) refl
    where
      allowed :
          (x y : Bool) (m : Member)
          → find_member community_id target_user_id s ≡ some m
          → IsCounted k
              ((raise_if x owner_ban
                  >> (raise_if y fellow_ban >> ban_commit m community_id operator_id now))
                s).1
      allowed true y m found = h
      allowed false true m found = h
      allowed false false m found =
          ban_commit-IsCounted m community_id target_user_id operator_id now found

      known :
          (b : Bool) (o : Option Member)
          → find_member community_id target_user_id s ≡ o
          → IsCounted k
              ((raise_if b self_ban
                  >> (or_raise o member_not_found >>= λ m.
                      raise_if (is_owner m.role) owner_ban
                      >> (raise_if
                            (is_moderator m.role
                              && is_moderator operator_role
                              && not (some_role is_admin roles))
                            fellow_ban
                          >> ban_commit m community_id operator_id now)))
                s).1
      known true o found = h
      known false none found = h
      known false (some m) found =
          allowed (is_owner m.role)
            (is_moderator m.role && is_moderator operator_role && not (some_role is_admin roles)) m
            found

  pub unban_as-IsCounted :
      (community_id target_user_id now : ℕ)
      → IsCounted k (unban_as community_id target_user_id now s).1
  unban_as-IsCounted community_id target_user_id now =
      known (find_member community_id target_user_id s) refl
    where
      barred :
          (b : Bool) (m : Member)
          → find_member community_id target_user_id s ≡ some m
          → (not b ≡ true → is_banned m.status ≡ true)
          → IsCounted k ((raise_if b not_banned >> unban_of m now) s).1
      barred true m found was = h
      barred false m found was =
          relabel-IsCounted k h m (set_unbanned now)
            (member_row community_id target_user_id s m h.member_keys found).0 (λ x. refl)
            (λ x. refl) (ground (arith, was refl))

      known :
          (o : Option Member)
          → find_member community_id target_user_id s ≡ o
          → IsCounted k
              ((or_raise o not_banned >>= λ m.
                  raise_if (not (is_banned m.status)) not_banned >> unban_of m now)
                s).1
      known none found = h
      known (some m) found = barred (not (is_banned m.status)) m found (λ e. ground arith)
