-- ===== src/Communities/Replies.antt =====
-- CommunityRepliesService, and the likes of replies of CommunityLikesService:
-- community-replies.service.ts and community-likes.service.ts of src/modules/communities/services.
use innovents.Communities.Posts.{distinct, mention_all}
use innovents.Communities.Tables.{
  post_key, reply_key, like_key, find_post, find_reply, find_like, PostStatus, Post, PostReply,
  Like, State, Error, published, reply_created, post_not_found, reply_not_found, parent_not_found,
  not_published,
}
use innovents.Communities.Access.{assert_can_moderate_community, assert_active_member}
use innovents.Accounts.{Role}
use innovents.Shared.{
  ◌==◌, is_some, test_or, update_by, remove_by, Action, pure, gets, modify, raise_if, or_raise,
  when, ◌>>=◌, ◌>>◌, ℕ, suc, ◌+◌, ◌-◌, Bool, true, false, not, Option, none, some, List, ◌∷◌,
}

abbrev pub is_published : PostStatus → Bool
is_published published = true
is_published _ = false

abbrev pub count_reply : Post → Post
count_reply p = record p { reply_count = p.reply_count + 1 }

-- `decrement: 1`. The column is signed: on a count that is 0 the program would go below it.
abbrev pub drop_reply : Post → Post
drop_reply p = record p { reply_count = p.reply_count - 1 }

abbrev pub new_reply : ℕ → ℕ → ℕ → Option ℕ → PostReply
new_reply id post_id author_id parent_id = record {
  id = id;
  post_id = post_id;
  author_id = author_id;
  parent_id = parent_id;
  status = published;
  like_count = 0;
  deleted_at = none;
}

unfoldable pub create_reply_commit : ℕ → ℕ → Option ℕ → List ℕ → Action State Error ℕ
create_reply_commit post_id author_id parent_id mentioned = do
  id ← gets (λ s. s.next_id)
  modify (λ s. record s {
    replies = new_reply id post_id author_id parent_id ∷ s.replies;
    posts = update_by post_key post_id count_reply s.posts;
    next_id = suc id;
  })
  modify (mention_all author_id id (distinct mentioned))
  modify (λ s. record s { outbox = reply_created id ∷ s.outbox })
  pure id

abbrev pub parent_missing : ℕ → Option ℕ → State → Bool
parent_missing post_id parent_id s =
    test_or false (λ j. not (is_some (find_reply post_id j s))) parent_id

-- `create` for an active member. What it reads is read first.
abbrev pub answer_as : ℕ → ℕ → ℕ → Option ℕ → List ℕ → Action State Error ℕ
answer_as community_id post_id author_id parent_id mentioned = do
  missing ← gets (parent_missing post_id parent_id)
  p ← or_raise (← gets (find_post community_id post_id)) post_not_found
  raise_if (not (is_published p.status)) not_published
  raise_if missing parent_not_found
  create_reply_commit post_id author_id parent_id mentioned

unfoldable pub create_reply : ℕ → ℕ → ℕ → Option ℕ → List ℕ → Action State Error ℕ
create_reply community_id post_id author_id parent_id mentioned = do
  c ← assert_active_member author_id community_id
  answer_as community_id post_id author_id parent_id mentioned

abbrev pub set_reply_deleted : ℕ → PostReply → PostReply
set_reply_deleted now r = record r { deleted_at = some now; status = PostStatus.deleted }

unfoldable pub delete_reply_commit : ℕ → ℕ → ℕ → Action State Error (Unit {0})
delete_reply_commit post_id reply_id now = modify (λ s. record s {
  replies = update_by reply_key reply_id (set_reply_deleted now) s.replies;
  posts = update_by post_key post_id drop_reply s.posts;
})

-- The post is not looked up, so nothing says that it belongs to the community.
unfoldable pub delete_reply : ℕ → ℕ → ℕ → ℕ → List Role → ℕ → Action State Error (Unit {0})
delete_reply community_id post_id reply_id user_id roles now = do
  r ← or_raise (← gets (find_reply post_id reply_id)) reply_not_found
  when (not (r.author_id == user_id))
      (assert_can_moderate_community user_id roles community_id >> pure tt)
  delete_reply_commit post_id reply_id now

abbrev pub like_reply : PostReply → PostReply
like_reply r = record r { like_count = r.like_count + 1 }

abbrev pub unlike_reply : PostReply → PostReply
unlike_reply r = record r { like_count = r.like_count - 1 }

abbrev pub toggle_reply_found : ℕ → ℕ → Option Like → Action State Error Bool
toggle_reply_found reply_id user_id (some l) = do
  modify (λ s. record s {
    reply_likes = remove_by like_key l.id s.reply_likes;
    replies = update_by reply_key reply_id unlike_reply s.replies;
  })
  pure false
toggle_reply_found reply_id user_id none = do
  modify (λ s. record s {
    reply_likes = record { id = s.next_id; target = reply_id; user_id = user_id } ∷ s.reply_likes;
    replies = update_by reply_key reply_id like_reply s.replies;
    next_id = suc s.next_id;
  })
  pure true

abbrev pub toggle_reply_as : ℕ → ℕ → ℕ → Action State Error Bool
toggle_reply_as post_id reply_id user_id = do
  found ← gets (λ s. find_like reply_id user_id s.reply_likes)
  r ← or_raise (← gets (find_reply post_id reply_id)) reply_not_found
  toggle_reply_found reply_id user_id found

-- The community is asked for the membership only.
unfoldable pub toggle_reply_like : ℕ → ℕ → ℕ → ℕ → Action State Error Bool
toggle_reply_like community_id post_id reply_id user_id = do
  c ← assert_active_member user_id community_id
  toggle_reply_as post_id reply_id user_id
