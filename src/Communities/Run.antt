-- ===== src/Communities/Run.antt =====
-- The calls of the communities, their members and their meetups in sequence.
use innovents.Communities.Methods.{
  assert_can_manage_keeps, checked_keeps, update_role-IsCounted, ban_member-IsCounted,
  unban_member-IsCounted, join-IsCounted,
}
use innovents.Communities.Attendance.{serve_meetup-IsCounted}
use innovents.Communities.Meeting.{serve_meetup, MeetupCall}
use innovents.Communities.Membership.{leave-IsCounted}
use innovents.Communities.Access.{is_admin, assert_can_manage_community}
use innovents.Accounts.{is_active, is_sponsor, some_role, find_user, Role}
use innovents.Communities.Counted.{IsCounted, found-IsCounted, edit-IsCounted}
use innovents.Communities.Lifecycle.{
  is_sponsored_type, new_community, new_member, create_commit, create_community, new_capacity, edit,
  update_as, update_community, archive, delete_community, CreateCommunity, UpdateCommunity,
}
use innovents.Communities.Members.{join, leave, update_role, ban_member, unban_member}
use innovents.Communities.Tables.{
  community_key, MemberRole, Community, HostEvent, State, community_deleted, community_delete,
  inactive_user, sponsor_required, event_not_found,
}
use innovents.Shared.{
  ◌==◌, is_some, test_or, find, update_by, gets, raise_if, ◌>>=◌, ◌>>◌, ok, ℕ, suc, refl, Bool,
  true, false, not, ◌&&◌, ◌||◌, Option, none, some, List, [], ◌∷◌, arith,
}

pub data Call : Type 0 where
  -- the user and its roles come first but for the operator's, and the time last
  create : ℕ → List Role → CreateCommunity → ℕ → Call
  update : ℕ → ℕ → List Role → UpdateCommunity → Call
  delete : ℕ → ℕ → List Role → ℕ → Call
  enter : ℕ → ℕ → List Role → ℕ → Call
  go : ℕ → ℕ → ℕ → Call
  assign : ℕ → ℕ → ℕ → List Role → MemberRole → Call
  ban : ℕ → ℕ → ℕ → List Role → ℕ → Call
  unban : ℕ → ℕ → ℕ → List Role → ℕ → Call
  meet : MeetupCall → Call

unfoldable pub serve : Call → State → State
serve (create user_id roles dto now) s = (create_community user_id roles dto now s).1
serve (update community_id user_id roles dto) s =
    (update_community community_id user_id roles dto s).1
serve (delete community_id user_id roles now) s =
    (delete_community community_id user_id roles now s).1
serve (enter user_id community_id roles now) s = (join user_id community_id roles now s).1
serve (go user_id community_id now) s = (leave user_id community_id now s).1
serve (assign community_id user_id operator_id roles role) s =
    (update_role community_id user_id operator_id roles role s).1
serve (ban community_id user_id operator_id roles now) s =
    (ban_member community_id user_id operator_id roles now s).1
serve (unban community_id user_id operator_id roles now) s =
    (unban_member community_id user_id operator_id roles now s).1
serve (meet r) s = serve_meetup r s

unfoldable pub serve_calls : List Call → State → State
serve_calls [] s = s
serve_calls (r ∷ rs) s = serve_calls rs (serve r s)

update_as-IsCounted :
    (k : ℕ) (s : State)
    → IsCounted k s
    → (community_id : ℕ) (dto : UpdateCommunity) (c : Community)
    → IsCounted k (update_as community_id dto c s).1
update_as-IsCounted k s h community_id dto c = ground (
  arith,
  edit-IsCounted k h community_id (edit dto (new_capacity c.kind dto.member_capacity)) (λ x. refl)
      (λ x. refl),
)

module _ (k : ℕ) (s : State) (h : IsCounted k s) where
  create_community-IsCounted :
      (user_id : ℕ) (roles : List Role) (dto : CreateCommunity) (now : ℕ)
      → IsCounted k (create_community user_id roles dto now s).1
  unfolding create_community create_commit
  create_community-IsCounted user_id roles dto now =
      guarded (not (test_or false (λ u. is_active u.status) (find_user user_id s.users)))
    where
      created : IsCounted k (create_commit user_id dto now s).1
      created =
          found-IsCounted k h (new_community s.next_id user_id dto)
            (new_member (suc s.next_id) s.next_id user_id MemberRole.owner now) refl refl refl refl
            refl

      allowed :
          (x : Bool)
          → IsCounted k ((raise_if x sponsor_required >> create_commit user_id dto now) s).1
      allowed true = h
      allowed false = created

      hosted :
          (o : Option HostEvent)
          → IsCounted k
              ((raise_if (not (is_some o)) event_not_found
                  >> (raise_if
                        (is_sponsored_type dto.kind
                          && not (some_role is_sponsor roles || some_role is_admin roles))
                        sponsor_required
                      >> create_commit user_id dto now))
                s).1
      hosted none = h
      hosted (some e) = allowed (
          is_sponsored_type dto.kind
          && not (some_role is_sponsor roles || some_role is_admin roles))

      guarded :
          (x : Bool)
          → IsCounted k
              ((raise_if x inactive_user
                  >> (gets (λ s.
                        find (λ e. e.id == dto.event_id && not (is_some e.deleted_at)) s.events)
                      >>= λ o.
                          raise_if (not (is_some o)) event_not_found
                          >> (raise_if
                                (is_sponsored_type dto.kind
                                  && not (some_role is_sponsor roles || some_role is_admin roles))
                                sponsor_required
                              >> create_commit user_id dto now)))
                s).1
      guarded true = h
      guarded false =
          hosted (find (λ e. e.id == dto.event_id && not (is_some e.deleted_at)) s.events)

  update_community-IsCounted :
      (community_id user_id : ℕ) (roles : List Role) (dto : UpdateCommunity)
      → IsCounted k (update_community community_id user_id roles dto s).1
  unfolding update_community
  update_community-IsCounted community_id user_id roles dto =
      checked_keeps (IsCounted k) (assert_can_manage_community user_id roles community_id)
        (update_as community_id dto) s (assert_can_manage_keeps user_id roles community_id s) h
        (λ c t j. update_as-IsCounted k t j community_id dto c)

  delete_community-IsCounted :
      (community_id user_id : ℕ) (roles : List Role) (now : ℕ)
      → IsCounted k (delete_community community_id user_id roles now s).1
  unfolding delete_community
  delete_community-IsCounted community_id user_id roles now =
      checked_keeps (IsCounted k) (assert_can_manage_community user_id roles community_id)
        (λ _ t. (
          ok tt,
          record t {
            communities = update_by community_key community_id (archive now) t.communities;
            outbox = community_deleted community_id ∷ t.outbox;
            audit = community_delete community_id ∷ t.audit;
          },
        ))
        s (assert_can_manage_keeps user_id roles community_id s) h
        (λ c t j. edit-IsCounted k j community_id (archive now) (λ x. refl) (λ x. refl))

  serve-IsCounted : (r : Call) → IsCounted k (serve r s)
  unfolding serve
  serve-IsCounted (create user_id roles dto now) = create_community-IsCounted user_id roles dto now
  serve-IsCounted (update community_id user_id roles dto) =
      update_community-IsCounted community_id user_id roles dto
  serve-IsCounted (delete community_id user_id roles now) =
      delete_community-IsCounted community_id user_id roles now
  serve-IsCounted (enter user_id community_id roles now) =
      join-IsCounted k s h user_id community_id roles now
  serve-IsCounted (go user_id community_id now) = leave-IsCounted k s h user_id community_id now
  serve-IsCounted (assign community_id user_id operator_id roles role) =
      update_role-IsCounted k s h community_id user_id operator_id roles role
  serve-IsCounted (ban community_id user_id operator_id roles now) =
      ban_member-IsCounted k s h community_id user_id operator_id roles now
  serve-IsCounted (unban community_id user_id operator_id roles now) =
      unban_member-IsCounted k s h community_id user_id operator_id roles now
  serve-IsCounted (meet r) = serve_meetup-IsCounted k r s h

-- Through any sequence of calls of the communities, their members and their meetups, the counter of
-- each community is the number of its active members.
pub serve_calls-IsCounted :
    (k : ℕ) (rs : List Call) (s : State) → IsCounted k s → IsCounted k (serve_calls rs s)
unfolding serve_calls
serve_calls-IsCounted k [] s h = h
serve_calls-IsCounted k (r ∷ rs) s h =
    serve_calls-IsCounted k rs (serve r s) (serve-IsCounted k s h r)
