-- ===== src/Communities/Moderation.antt =====
-- Who deletes the replies of a community.
use innovents.Communities.Replies.{set_reply_deleted, delete_reply_commit, delete_reply}
use innovents.Communities.Tables.{
  find_community, reply_key, find_reply, Community, PostReply, State,
}
use innovents.Communities.Access.{assert_can_moderate_community}
use innovents.Accounts.{Role}
use innovents.Shared.{
  ◌==◌, is_some, find, update_by, ok, ℕ, ◌≡◌, refl, not, ◌&&◌, none, some, List, [], ◌∷◌, arith,
}

gone :
    (i j now : ℕ) (rs : List PostReply)
    → find
        (λ r. r.id == j && (r.post_id == i && not (is_some r.deleted_at)))
        (update_by reply_key j (set_reply_deleted now) rs)
      ≡ none
gone i j now [] = refl
gone i j now (r ∷ rs) = ground (arith, gone i j now rs)

-- Who may manage any community deletes the replies of every other one, by naming their own community
-- with the ids of a post and a reply that stand elsewhere.
pub delete_reply-elsewhere :
    (own post_id reply_id user_id now : ℕ) (roles : List Role) (c : Community) (r : PostReply)
    (s : State)
    → find_community own s ≡ some c
    → c.created_by ≡ user_id
    → find_reply post_id reply_id s ≡ some r
    → (t : State) × (delete_reply own post_id reply_id user_id roles now s ≡ (ok tt, t))
      × (find_reply post_id reply_id t ≡ none)
unfolding delete_reply assert_can_moderate_community delete_reply_commit
delete_reply-elsewhere own post_id reply_id user_id now roles c r s found mine known = (
  (delete_reply_commit post_id reply_id now s).1,
  ground arith,
  gone post_id reply_id now s.replies,
)
