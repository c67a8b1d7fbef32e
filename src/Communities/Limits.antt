-- ===== src/Communities/Limits.antt =====
-- How many members a community takes.
use innovents.Communities.Membership.{join_commit-IsCounted}
use innovents.Communities.Access.{is_admin}
use innovents.Communities.Members.{count_in, join_commit, has_status, join_known, join_tx, join}
use innovents.Communities.Counted.{is_member_of, IsCounted}
use innovents.Accounts.{is_active, some_role, find_user, Role}
use innovents.Communities.Tables.{
  community_key, is_open, is_private, is_joined, is_banned, find_community, find_member,
  running_sponsorship, effective_capacity, Community, Member, State, Error, inactive_user,
  private_only, community_not_found, not_active, already_member, banned_member, community_full,
}
use innovents.Shared.{
  leb, ◌==◌, is_some, test_or, map_option, count_where, find_holds, find_by, find_by_found,
  find_by-update_if, raise_if, or_raise, ◌>>=◌, ◌>>◌, transaction, Result, ok, err, ℕ, suc, ◌+◌,
  ◌≤◌, ◌≡◌, refl, subst, ◌≢◌, Bool, true, false, not, ◌&&◌, Option, none, some, List, arith,
}

abbrev members_of : ℕ → State → ℕ
members_of k s = count_where (is_member_of k) s.members

abbrev counter : ℕ → State → Option ℕ
counter k s = map_option (λ c. c.member_count) (find_by community_key k s.communities)

-- Who enters is counted, and fits in the capacity.
abbrev Entered : ℕ → ℕ → State → Result Error ℕ × State → Type 0
Entered k now s (ok a, t) =
    (members_of k t ≡ suc (members_of k s)) × (members_of k t ≤ effective_capacity k now s)
Entered k now s (err e, t) = Unit

-- What holds of every error and of a join that passed its checks holds of `join`.
join_cases :
    (Q : Result Error ℕ × State → Type 0) (user_id k now : ℕ) (roles : List Role) (s : State)
    → ((e : Error) → Q (err e, s))
    → ((c : Community)
        → find_community k s ≡ some c
        → has_status is_joined (find_member k user_id s) ≡ false
        → has_status is_banned (find_member k user_id s) ≡ false
        → leb (effective_capacity k now s) c.member_count ≡ false
        → Q (join_commit (find_member k user_id s) k user_id now s))
    → Q (join user_id k roles now s)
unfolding join join_tx
join_cases Q user_id k now roles s thrown passed =
    allowed (not (test_or false (λ u. is_active u.status) (find_user user_id s.users)))
  where
    o : Option Member
    o = find_member k user_id s

    settled : (r : Result Error ℕ × State) → Q r → Q (transaction (λ _. r) s)
    settled (ok a, t) q = q
    settled (err e, t) q = thrown e

    guarded :
        (c : Community) (x y z v w : Bool)
        → find_community k s ≡ some c
        → has_status is_joined o ≡ z
        → has_status is_banned o ≡ v
        → leb (effective_capacity k now s) c.member_count ≡ w
        → Q (
            transaction
              (raise_if x not_active
                >> (raise_if y private_only
                    >> (raise_if z already_member
                        >> (raise_if v banned_member
                            >> (raise_if w community_full >> join_commit o k user_id now)))))
              s)
    guarded c true y z v w found fresh free_to_join room = thrown not_active
    guarded c false true z v w found fresh free_to_join room = thrown private_only
    guarded c false false true v w found fresh free_to_join room = thrown already_member
    guarded c false false false true w found fresh free_to_join room = thrown banned_member
    guarded c false false false false true found fresh free_to_join room = thrown community_full
    guarded c false false false false false found fresh free_to_join room =
        settled (join_commit o k user_id now s) (passed c found fresh free_to_join room)

    known :
        (r : Option Community)
        → find_community k s ≡ r
        → Q (transaction (or_raise r community_not_found >>= join_known user_id k roles now) s)
    known none found = thrown community_not_found
    known (some c) found =
        guarded c (not (is_open c.status))
          (is_private c.visibility && not (some_role is_admin roles)) (has_status is_joined o)
          (has_status is_banned o) (leb (effective_capacity k now s) c.member_count) found refl refl
          refl

    allowed :
        (b : Bool) → Q ((raise_if b inactive_user >> transaction (join_tx user_id k roles now)) s)
    allowed true = thrown inactive_user
    allowed false = known (find_community k s) refl

module _ (k : ℕ) (s : State) (h : IsCounted k s) where
  join_commit-counter :
      (o : Option Member) (user_id now : ℕ) (c : Community)
      → find_by community_key k s.communities ≡ some c
      → find_member k user_id s ≡ o
      → has_status is_joined o ≡ false
      → has_status is_banned o ≡ false
      → counter k (join_commit o k user_id now s).1 ≡ some (c.member_count + 1)
  unfolding join_commit
  join_commit-counter none user_id now c row found fresh allowed =
      ground (arith, find_by-update_if community_key k k count_in s.communities (λ x. refl))
  join_commit-counter (some m) user_id now c row found fresh allowed =
      ground (arith, find_by-update_if community_key k k count_in s.communities (λ x. refl))

  join_commit-Entered :
      (o : Option Member) (user_id now : ℕ) (c : Community)
      → find_community k s ≡ some c
      → find_member k user_id s ≡ o
      → has_status is_joined o ≡ false
      → has_status is_banned o ≡ false
      → leb (effective_capacity k now s) c.member_count ≡ false
      → Entered k now s (join_commit o k user_id now s)
  join_commit-Entered o user_id now c known found fresh allowed room =
      counted (join_commit o k user_id now s)
        (join_commit-IsCounted k s h o k user_id now c known found)
        (join_commit-counter o user_id now c row found fresh allowed)
    where
      row : find_by community_key k s.communities ≡ some c
      row = ground (
        arith,
        find_holds (λ x. x.id == k && not (is_some x.deleted_at)) s.communities c known,
        find_by_found community_key (λ x. x.id == k && not (is_some x.deleted_at)) s.communities c
            h.community_keys known,
      )

      counted :
          (r : Result Error ℕ × State)
          → IsCounted k r.1
          → counter k r.1 ≡ some (c.member_count + 1)
          → Entered k now s r
      counted (ok a, t) j grown =
          (ground (arith, row, h.counted, j.counted), ground (arith, row, h.counted, j.counted))
      counted (err e, t) j grown = tt

-- Where `join` returns, the community has one active member more, and not more than the capacity that a
-- running sponsorship grants, or 20.
pub join-Entered :
    (user_id k now a : ℕ) (roles : List Role) (s t : State)
    → IsCounted k s
    → join user_id k roles now s ≡ (ok a, t)
    → (count_where (is_member_of k) t.members ≡ suc (count_where (is_member_of k) s.members))
      × (count_where (is_member_of k) t.members ≤ effective_capacity k now s)
join-Entered user_id k now a roles s t h done = subst (Entered k now s) done (
    join_cases (Entered k now s) user_id k now roles s (λ e. tt)
      (λ c known. join_commit-Entered k s h (find_member k user_id s) user_id now c known refl))

-- The outcome is an error.
abbrev Refused : Result Error ℕ × State → Type 0
Refused (ok a, t) = ⊥
Refused (err e, t) = Unit

-- A community that no running sponsorship enlarges takes no new member once it has 20, whatever the
-- capacity in its own row: its `join` throws.
pub join-full :
    (user_id k now a : ℕ) (roles : List Role) (c : Community) (s t : State)
    → find_community k s ≡ some c
    → running_sponsorship k now s ≡ none
    → 20 ≤ c.member_count
    → join user_id k roles now s ≢ (ok a, t)
join-full user_id k now a roles c s t found unsponsored many done = subst Refused done (
    join_cases Refused user_id k now roles s (λ e. tt) (λ x known fresh allowed room. ground arith))
