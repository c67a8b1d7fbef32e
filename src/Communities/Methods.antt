-- ===== src/Communities/Methods.antt =====
-- Each method of the members keeps the counts of members: its checks and its transaction together.
use innovents.Accounts.{is_active, find_user, Role}
use innovents.Communities.Membership.{
  join_tx-IsCounted, update_role_as-IsCounted, ban_as-IsCounted, unban_as-IsCounted,
}
use innovents.Communities.Counted.{IsCounted}
use innovents.Communities.Members.{
  join_tx, join, update_role_as, update_role, ban_as, ban_member, unban_as, unban_member,
}
use innovents.Communities.Access.{assert_can_manage_community, assert_can_moderate_community}
use innovents.Communities.Tables.{MemberRole, State, Error, inactive_user}
use innovents.Shared.{
  test_or, Action, raise_if, ◌>>=◌, ◌>>◌, transaction, transaction_keeps, bind_keeps, ℕ, ◌≡◌, sym,
  subst, Bool, true, false, not, List, arith,
}

pub assert_can_manage_keeps :
    (user_id : ℕ) (roles : List Role) (community_id : ℕ) (s : State)
    → (assert_can_manage_community user_id roles community_id s).1 ≡ s
unfolding assert_can_manage_community
assert_can_manage_keeps user_id roles community_id s = ground arith

pub assert_can_moderate_keeps :
    (user_id : ℕ) (roles : List Role) (community_id : ℕ) (s : State)
    → (assert_can_moderate_community user_id roles community_id s).1 ≡ s
unfolding assert_can_moderate_community
assert_can_moderate_keeps user_id roles community_id s = ground arith

-- What comes after a check that changes nothing.
pub checked_keeps :
    {A B : Type 0} (P : State → Type 0) (m : Action State Error A) (f : A → Action State Error B)
    (s : State)
    → (m s).1 ≡ s
    → P s
    → ((a : A) (t : State) → P t → P (f a t).1)
    → P ((m >>= f) s).1
checked_keeps P m f s kept h keep = bind_keeps P m f s (subst P (sym kept) h) keep

module _ (k : ℕ) (s : State) (h : IsCounted k s) where
  pub update_role-IsCounted :
      (community_id target_user_id operator_id : ℕ) (roles : List Role) (role : MemberRole)
      → IsCounted k (update_role community_id target_user_id operator_id roles role s).1
  unfolding update_role
  update_role-IsCounted community_id target_user_id operator_id roles role =
      checked_keeps (IsCounted k) (assert_can_manage_community operator_id roles community_id)
        (λ _. update_role_as community_id target_user_id operator_id role) s
        (assert_can_manage_keeps operator_id roles community_id s) h
        (λ _ t j. update_role_as-IsCounted k t j community_id target_user_id operator_id role)

  pub ban_member-IsCounted :
      (community_id target_user_id operator_id : ℕ) (roles : List Role) (now : ℕ)
      → IsCounted k (ban_member community_id target_user_id operator_id roles now s).1
  unfolding ban_member
  ban_member-IsCounted community_id target_user_id operator_id roles now =
      checked_keeps (IsCounted k) (assert_can_moderate_community operator_id roles community_id)
        (ban_as community_id target_user_id operator_id roles now) s
        (assert_can_moderate_keeps operator_id roles community_id s) h
        (λ r t j. ban_as-IsCounted k t j community_id target_user_id operator_id roles now r)

  pub unban_member-IsCounted :
      (community_id target_user_id operator_id : ℕ) (roles : List Role) (now : ℕ)
      → IsCounted k (unban_member community_id target_user_id operator_id roles now s).1
  unfolding unban_member
  unban_member-IsCounted community_id target_user_id operator_id roles now =
      checked_keeps (IsCounted k) (assert_can_moderate_community operator_id roles community_id)
        (λ _. unban_as community_id target_user_id now) s
        (assert_can_moderate_keeps operator_id roles community_id s) h
        (λ _ t j. unban_as-IsCounted k t j community_id target_user_id now)

  pub join-IsCounted :
      (user_id community_id : ℕ) (roles : List Role) (now : ℕ)
      → IsCounted k (join user_id community_id roles now s).1
  unfolding join
  join-IsCounted user_id community_id roles now =
      allowed (not (test_or false (λ u. is_active u.status) (find_user user_id s.users)))
    where
      allowed :
          (b : Bool)
          → IsCounted k
              ((raise_if b inactive_user >> transaction (join_tx user_id community_id roles now))
                s).1
      allowed true = h
      allowed false =
          transaction_keeps (IsCounted k) (join_tx user_id community_id roles now) s h
            (join_tx-IsCounted k s h user_id community_id roles now)
