-- ===== src/Communities/Posts.antt =====
-- CommunityPostsService and CommunityLikesService: community-posts.service.ts and
-- community-likes.service.ts of src/modules/communities/services.
use innovents.Communities.Tables.{
  post_key, like_key, find_post, find_like, PostStatus, Post, Like, State, Error, published,
  post_created, post_deleted, post_pinned, post_unpinned, post_liked, post_unliked, mention_created,
  post_create, post_delete, post_pin, post_unpin, post_not_found, not_author,
}
use innovents.Communities.Access.{is_admin, assert_can_moderate_community, assert_active_member}
use innovents.Accounts.{some_role, Role}
use innovents.Shared.{
  ◌==◌, if◌then◌else◌, is_some, find, update_by, remove_by, Action, pure, gets, modify, raise_if,
  or_raise, when, ◌>>=◌, ◌>>◌, ℕ, suc, ◌+◌, ◌-◌, Bool, true, false, not, ◌&&◌, Option, none, some,
  List, [], ◌∷◌,
}

-- `Array.from(new Set(ids))`
unfoldable pub distinct : List ℕ → List ℕ
distinct [] = []
distinct (i ∷ is) = i ∷ remove_by (λ j. j) i (distinct is)

-- A mention of a user who exists and is not the author.
abbrev pub mention : ℕ → ℕ → ℕ → State → State
mention author_id target user_id s =
    if not (user_id == author_id) && is_some (find (λ u. u.id == user_id) s.users)
    then record s {
      mentions =
          record { id = s.next_id; actor_id = author_id; user_id = user_id; target = target }
          ∷ s.mentions;
      outbox = mention_created target user_id ∷ s.outbox;
      next_id = suc s.next_id;
    }
    else s

unfoldable pub mention_all : ℕ → ℕ → List ℕ → State → State
mention_all author_id target [] s = s
mention_all author_id target (u ∷ us) s =
    mention_all author_id target us (mention author_id target u s)

abbrev pub new_post : ℕ → ℕ → ℕ → Post
new_post id community_id author_id = record {
  id = id;
  community_id = community_id;
  author_id = author_id;
  is_pinned = false;
  status = published;
  like_count = 0;
  reply_count = 0;
  deleted_at = none;
}

unfoldable pub create_post_commit : ℕ → ℕ → List ℕ → Action State Error ℕ
create_post_commit community_id author_id mentioned = do
  id ← gets (λ s. s.next_id)
  modify (λ s. record s { posts = new_post id community_id author_id ∷ s.posts; next_id = suc id })
  modify (mention_all author_id id (distinct mentioned))
  modify (λ s. record s { outbox = post_created id ∷ s.outbox; audit = post_create id ∷ s.audit })
  pure id

unfoldable pub create_post : ℕ → ℕ → List ℕ → Action State Error ℕ
create_post community_id author_id mentioned = do
  c ← assert_active_member author_id community_id
  create_post_commit community_id author_id mentioned

-- `update`: the author or an administrator; it changes nothing that the model keeps.
unfoldable pub update_post : ℕ → ℕ → ℕ → List Role → Action State Error (Unit {0})
update_post community_id post_id user_id roles = do
  p ← or_raise (← gets (find_post community_id post_id)) post_not_found
  raise_if (not (p.author_id == user_id) && not (some_role is_admin roles)) not_author

abbrev pub set_post_deleted : ℕ → Post → Post
set_post_deleted now p = record p { deleted_at = some now; status = PostStatus.deleted }

unfoldable pub delete_post : ℕ → ℕ → ℕ → List Role → ℕ → Action State Error (Unit {0})
delete_post community_id post_id user_id roles now = do
  p ← or_raise (← gets (find_post community_id post_id)) post_not_found
  when (not (p.author_id == user_id))
      (assert_can_moderate_community user_id roles community_id >> pure tt)
  modify (λ s. record s {
    posts = update_by post_key post_id (set_post_deleted now) s.posts;
    outbox = post_deleted post_id ∷ s.outbox;
    audit = post_delete post_id ∷ s.audit;
  })

abbrev pub set_pinned : Bool → Post → Post
set_pinned pinned p = record p { is_pinned = pinned }

abbrev pub pin_write : Bool → ℕ → State → State
pin_write pinned post_id s = record s {
  posts = update_by post_key post_id (set_pinned pinned) s.posts;
  outbox = (if pinned then post_pinned post_id else post_unpinned post_id) ∷ s.outbox;
  audit = (if pinned then post_pin post_id else post_unpin post_id) ∷ s.audit;
}

abbrev pub pin_as : Bool → ℕ → ℕ → Action State Error (Unit {0})
pin_as pinned community_id post_id = do
  p ← or_raise (← gets (find_post community_id post_id)) post_not_found
  modify (pin_write pinned post_id)

-- `pin` and `unpin`
unfoldable pub pin_post : Bool → ℕ → ℕ → ℕ → List Role → Action State Error (Unit {0})
pin_post pinned community_id post_id user_id roles = do
  role ← assert_can_moderate_community user_id roles community_id
  pin_as pinned community_id post_id

abbrev pub like : Post → Post
like p = record p { like_count = p.like_count + 1 }

-- `decrement: 1`. The column is signed: on a count that is 0 the program would go below it.
abbrev pub unlike : Post → Post
unlike p = record p { like_count = p.like_count - 1 }

-- The transaction of `togglePostLike`: whether the post is liked afterwards.
abbrev pub toggle_found : ℕ → ℕ → Option Like → Action State Error Bool
toggle_found post_id user_id (some l) = do
  modify (λ s. record s {
    post_likes = remove_by like_key l.id s.post_likes;
    posts = update_by post_key post_id unlike s.posts;
    outbox = post_unliked post_id user_id ∷ s.outbox;
  })
  pure false
toggle_found post_id user_id none = do
  modify (λ s. record s {
    post_likes = record { id = s.next_id; target = post_id; user_id = user_id } ∷ s.post_likes;
    posts = update_by post_key post_id like s.posts;
    outbox = post_liked post_id user_id ∷ s.outbox;
    next_id = suc s.next_id;
  })
  pure true

abbrev pub toggle_as : ℕ → ℕ → ℕ → Action State Error Bool
toggle_as community_id post_id user_id = do
  found ← gets (λ s. find_like post_id user_id s.post_likes)
  p ← or_raise (← gets (find_post community_id post_id)) post_not_found
  toggle_found post_id user_id found

unfoldable pub toggle_post_like : ℕ → ℕ → ℕ → Action State Error Bool
toggle_post_like community_id post_id user_id = do
  c ← assert_active_member user_id community_id
  toggle_as community_id post_id user_id
