-- ===== src/Communities/Tallies.antt =====
-- A post counts its likes and its replies, through every sequence of calls.
use innovents.Communities.Discussion.{
  serve_post, serve_posts, serve_post_keeps, PostCall, KeepsPosts,
}
use innovents.Communities.Replies.{
  count_reply, drop_reply, new_reply, create_reply_commit, set_reply_deleted, delete_reply_commit,
  like_reply, unlike_reply, toggle_reply_found,
}
use innovents.Communities.Posts.{
  distinct, mention, mention_all, new_post, create_post_commit, set_post_deleted, set_pinned, like,
  unlike, toggle_found,
}
use innovents.Communities.Tables.{
  post_key, reply_key, like_key, find_post, find_reply, find_like, Post, PostReply, Like, State,
  mention_created,
}
use innovents.Shared.{
  ◌==◌, if◌then◌else◌, is_some, find, find_holds, find_by, update_by, Unique, find_by_found, Below,
  find_by-Below, new_row-IsTallied, new_child-IsTallied, remove_child-IsTallied,
  retire_child-IsTallied, edit_row-IsTallied, edit_child-IsTallied, later-IsTallied, IsTallied, ℕ,
  suc, ◌<◌, ◌≡◌, refl, sym, subst, Bool, true, false, not, ◌&&◌, Option, none, some, List, [], ◌∷◌,
  arith,
}

abbrev pub always : Like → Bool
always l = true

abbrev pub is_live : PostReply → Bool
is_live r = not (is_some r.deleted_at)

-- The counters of the post `i`: its likes, and its replies that were not deleted.
abbrev pub IsLiked : ℕ → State → Type 0
IsLiked i s =
    IsTallied post_key (λ p. p.like_count) like_key (λ l. l.target) always i s.posts s.post_likes
      s.next_id

abbrev pub IsAnswered : ℕ → State → Type 0
IsAnswered i s =
    IsTallied post_key (λ p. p.reply_count) reply_key (λ r. r.post_id) is_live i s.posts s.replies
      s.next_id

-- Mentions take ids and nothing else of the tables of posts.
mention_all_keeps :
    (P : State → Type 0) (author_id target : ℕ) (us : List ℕ) (s : State)
    → ((u : ℕ) (t : State)
        → P t
        → P (record t {
          mentions =
              record { id = t.next_id; actor_id = author_id; user_id = u; target = target }
              ∷ t.mentions;
          outbox = mention_created target u ∷ t.outbox;
          next_id = suc t.next_id;
        }))
    → P s
    → P (mention_all author_id target us s)
unfolding mention_all
mention_all_keeps P author_id target [] s noted h = h
mention_all_keeps P author_id target (u ∷ us) s noted h =
    mention_all_keeps P author_id target us (mention author_id target u s) noted
      (named (not (u == author_id) && is_some (find (λ x. x.id == u) s.users)))
  where
    named :
        (b : Bool)
        → P (
            if b
            then record s {
              mentions =
                  record { id = s.next_id; actor_id = author_id; user_id = u; target = target }
                  ∷ s.mentions;
              outbox = mention_created target u ∷ s.outbox;
              next_id = suc s.next_id;
            }
            else s)
    named true = noted u s h
    named false = h

-- The row of a post that is found, and its id.
post_known :
    (community_id i n : ℕ) (p : Post) (s : State)
    → Unique post_key s.posts
    → Below post_key n s.posts
    → find_post community_id i s ≡ some p
    → i < n
post_known community_id i n p s keys fresh found = ground (
  arith,
  find_holds (λ x. x.id == i && (x.community_id == community_id && not (is_some x.deleted_at)))
      s.posts p found,
  find_by-Below post_key n p.id s.posts p fresh,
  find_by_found post_key
      (λ x. x.id == i && (x.community_id == community_id && not (is_some x.deleted_at))) s.posts p
      keys found,
)

like_known :
    (i u : ℕ) (l : Like) (ls : List Like)
    → Unique like_key ls
    → find_like i u ls ≡ some l
    → (find_by like_key l.id ls ≡ some l) × (l.target ≡ i)
like_known i u l ls keys found = (
  find_by_found like_key (λ x. x.target == i && x.user_id == u) ls l keys found,
  ground (arith, find_holds (λ x. x.target == i && x.user_id == u) ls l found),
)

reply_known :
    (i j : ℕ) (r : PostReply) (s : State)
    → Unique reply_key s.replies
    → find_reply i j s ≡ some r
    → (find_by reply_key j s.replies ≡ some r) × (r.id ≡ j) × (r.post_id ≡ i) × (is_live r ≡ true)
reply_known i j r s keys found =
    let holds : (r.id == j && (r.post_id == i && not (is_some r.deleted_at))) ≡ true =
      find_holds (λ x. x.id == j && (x.post_id == i && not (is_some x.deleted_at))) s.replies r
        found in
    let row : find_by reply_key r.id s.replies ≡ some r =
      find_by_found reply_key (λ x. x.id == j && (x.post_id == i && not (is_some x.deleted_at)))
        s.replies r keys found in
    let same : r.id ≡ j = ground arith in
    (
      subst (λ (z : ℕ). find_by reply_key z s.replies ≡ some r) same row,
      same,
      ground arith,
      ground arith,
    )

module _ (i : ℕ) where
  IsLiked-toggle_found :
      (community_id k user_id : ℕ) (p : Post) (o : Option Like) (s : State)
      → find_post community_id k s ≡ some p
      → find_like k user_id s.post_likes ≡ o
      → IsLiked i s
      → IsLiked i (toggle_found k user_id o s).1
  IsLiked-toggle_found community_id k user_id p none s known found h =
      new_child-IsTallied post_key (λ p. p.like_count) like_key (λ l. l.target) always i h
        (record { id = s.next_id; target = k; user_id = user_id }) k like refl refl refl
        (post_known community_id k s.next_id p s h.keys h.fresh known) (λ x. refl) (λ x. refl)
  IsLiked-toggle_found community_id k user_id p (some l) s known found h =
      remove_child-IsTallied post_key (λ p. p.like_count) like_key (λ l. l.target) always i h l k
        unlike (like_known k user_id l s.post_likes h.child_keys found).0
        (like_known k user_id l s.post_likes h.child_keys found).1 refl (λ x. refl) (λ x. refl)

  IsLiked-KeepsPosts : KeepsPosts (IsLiked i)
  unfolding create_post_commit create_reply_commit delete_reply_commit
  IsLiked-KeepsPosts = record {
    publishes = λ community_id author_id mentioned s h.
        mention_all_keeps (IsLiked i) author_id s.next_id (distinct mentioned)
          (record s {
            posts = new_post s.next_id community_id author_id ∷ s.posts;
            next_id = suc s.next_id;
          })
          (λ u t q.
            later-IsTallied post_key (λ p. p.like_count) like_key (λ l. l.target) always i q)
          (new_row-IsTallied post_key (λ p. p.like_count) like_key (λ l. l.target) always i h
            (new_post s.next_id community_id author_id) refl refl);
    takes_down = λ k now s h.
        edit_row-IsTallied post_key (λ p. p.like_count) like_key (λ l. l.target) always i h k
          (set_post_deleted now) (λ x. refl) (λ x. refl);
    pins = λ pinned k s h.
        edit_row-IsTallied post_key (λ p. p.like_count) like_key (λ l. l.target) always i h k
          (set_pinned pinned) (λ x. refl) (λ x. refl);
    toggles = IsLiked-toggle_found;
    answers = λ community_id k author_id parent_id mentioned p s known h.
        mention_all_keeps (IsLiked i) author_id s.next_id (distinct mentioned)
          (record s {
            replies = new_reply s.next_id k author_id parent_id ∷ s.replies;
            posts = update_by post_key k count_reply s.posts;
            next_id = suc s.next_id;
          })
          (λ u t q.
            later-IsTallied post_key (λ p. p.like_count) like_key (λ l. l.target) always i q)
          (later-IsTallied post_key (λ p. p.like_count) like_key (λ l. l.target) always i
            (edit_row-IsTallied post_key (λ p. p.like_count) like_key (λ l. l.target) always i h k
              count_reply (λ x. refl) (λ x. refl)));
    withdraws = λ k j now r s found h.
        edit_row-IsTallied post_key (λ p. p.like_count) like_key (λ l. l.target) always i h k
          drop_reply (λ x. refl) (λ x. refl);
    toggles_reply = λ k j user_id r o s known found h. liked_reply j user_id o s h;
  }
    where
      liked_reply :
          (j user_id : ℕ) (o : Option Like) (s : State)
          → IsLiked i s
          → IsLiked i (toggle_reply_found j user_id o s).1
      liked_reply j user_id none s h =
          later-IsTallied post_key (λ p. p.like_count) like_key (λ l. l.target) always i h
      liked_reply j user_id (some l) s h = h

  IsAnswered-KeepsPosts : KeepsPosts (IsAnswered i)
  unfolding create_post_commit create_reply_commit delete_reply_commit
  IsAnswered-KeepsPosts = record {
    publishes = λ community_id author_id mentioned s h.
        mention_all_keeps (IsAnswered i) author_id s.next_id (distinct mentioned)
          (record s {
            posts = new_post s.next_id community_id author_id ∷ s.posts;
            next_id = suc s.next_id;
          })
          (λ u t q.
            later-IsTallied post_key (λ p. p.reply_count) reply_key (λ r. r.post_id) is_live i q)
          (new_row-IsTallied post_key (λ p. p.reply_count) reply_key (λ r. r.post_id) is_live i h
            (new_post s.next_id community_id author_id) refl refl);
    takes_down = λ k now s h.
        edit_row-IsTallied post_key (λ p. p.reply_count) reply_key (λ r. r.post_id) is_live i h k
          (set_post_deleted now) (λ x. refl) (λ x. refl);
    pins = λ pinned k s h.
        edit_row-IsTallied post_key (λ p. p.reply_count) reply_key (λ r. r.post_id) is_live i h k
          (set_pinned pinned) (λ x. refl) (λ x. refl);
    toggles = λ community_id k user_id p o s known found h. liked k user_id o s h;
    answers = λ community_id k author_id parent_id mentioned p s known h.
        mention_all_keeps (IsAnswered i) author_id s.next_id (distinct mentioned)
          (record s {
            replies = new_reply s.next_id k author_id parent_id ∷ s.replies;
            posts = update_by post_key k count_reply s.posts;
            next_id = suc s.next_id;
          })
          (λ u t q.
            later-IsTallied post_key (λ p. p.reply_count) reply_key (λ r. r.post_id) is_live i q)
          (new_child-IsTallied post_key (λ p. p.reply_count) reply_key (λ r. r.post_id) is_live i h
            (new_reply s.next_id k author_id parent_id) k count_reply refl refl refl
            (post_known community_id k s.next_id p s h.keys h.fresh known) (λ x. refl) (λ x. refl));
    withdraws =
        λ k j now r s found h. retired k j now r s h (reply_known k j r s h.child_keys found);
    toggles_reply = λ k j user_id r o s known found h. liked_reply j user_id o s h;
  }
    where
      liked :
          (k user_id : ℕ) (o : Option Like) (s : State)
          → IsAnswered i s
          → IsAnswered i (toggle_found k user_id o s).1
      liked k user_id none s h =
          later-IsTallied post_key (λ p. p.reply_count) reply_key (λ r. r.post_id) is_live i
            (edit_row-IsTallied post_key (λ p. p.reply_count) reply_key (λ r. r.post_id) is_live i h
              k like (λ x. refl) (λ x. refl))
      liked k user_id (some l) s h =
          edit_row-IsTallied post_key (λ p. p.reply_count) reply_key (λ r. r.post_id) is_live i h k
            unlike (λ x. refl) (λ x. refl)

      liked_reply :
          (j user_id : ℕ) (o : Option Like) (s : State)
          → IsAnswered i s
          → IsAnswered i (toggle_reply_found j user_id o s).1
      liked_reply j user_id none s h =
          later-IsTallied post_key (λ p. p.reply_count) reply_key (λ r. r.post_id) is_live i
            (edit_child-IsTallied post_key (λ p. p.reply_count) reply_key (λ r. r.post_id) is_live i
              h j like_reply (λ z. refl) (λ z. refl) (λ z. refl))
      liked_reply j user_id (some l) s h =
          edit_child-IsTallied post_key (λ p. p.reply_count) reply_key (λ r. r.post_id) is_live i h
            j unlike_reply (λ z. refl) (λ z. refl) (λ z. refl)

      retired :
          (k j now : ℕ) (r : PostReply) (s : State)
          → IsAnswered i s
          → (find_by reply_key j s.replies ≡ some r)
            × (r.id ≡ j)
            × (r.post_id ≡ k)
            × (is_live r ≡ true)
          → IsAnswered i (delete_reply_commit k j now s).1
      retired k j now r s h row =
          subst
            (λ (e : ℕ).
              IsTallied post_key (λ p. p.reply_count) reply_key (λ r. r.post_id) is_live i
                (update_by post_key k drop_reply s.posts)
                (update_by reply_key e (set_reply_deleted now) s.replies) s.next_id)
            row.1
            (retire_child-IsTallied post_key (λ p. p.reply_count) reply_key (λ r. r.post_id) is_live
              i h r k (set_reply_deleted now) drop_reply
              (subst (λ (e : ℕ). find_by reply_key e s.replies ≡ some r) (sym row.1) row.0) row.2
              row.3 refl (λ z. refl) (λ z. refl) (λ x. refl) (λ x. refl))

-- Through any sequence of calls of the post, reply and like services the counters of each post are the
-- numbers of its likes, and of its replies that were not deleted.
pub serve_posts-IsLiked :
    (i : ℕ) (rs : List PostCall) (s : State)
    → IsLiked i s
    → IsAnswered i s
    → IsLiked i (serve_posts rs s) × IsAnswered i (serve_posts rs s)
unfolding serve_posts
serve_posts-IsLiked i [] s h j = (h, j)
serve_posts-IsLiked i (r ∷ rs) s h j =
    serve_posts-IsLiked i rs (serve_post r s)
      (serve_post_keeps (IsLiked i) (IsLiked-KeepsPosts i) r s h)
      (serve_post_keeps (IsAnswered i) (IsAnswered-KeepsPosts i) r s j)
