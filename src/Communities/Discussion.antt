-- ===== src/Communities/Discussion.antt =====
-- What every call of the post, reply and like services keeps, by what each of its transactions keeps.
use innovents.Communities.Methods.{assert_can_moderate_keeps, checked_keeps}
use innovents.Communities.Attendance.{assert_active_member_keeps}
use innovents.Communities.Replies.{
  is_published, create_reply_commit, parent_missing, answer_as, create_reply, delete_reply_commit,
  delete_reply, toggle_reply_found, toggle_reply_as, toggle_reply_like,
}
use innovents.Communities.Posts.{
  create_post_commit, create_post, update_post, set_post_deleted, delete_post, pin_write, pin_as,
  pin_post, toggle_found, toggle_as, toggle_post_like,
}
use innovents.Communities.Tables.{
  post_key, find_post, find_reply, find_like, MemberRole, Post, PostReply, Like, State, Error,
  post_deleted, post_delete, post_not_found, reply_not_found, parent_not_found, not_author,
  not_published,
}
use innovents.Communities.Access.{is_admin, assert_can_moderate_community, assert_active_member}
use innovents.Accounts.{some_role, Role}
use innovents.Shared.{
  ◌==◌, update_by, Action, pure, modify, raise_if, or_raise, when, ◌>>=◌, ◌>>◌, Result, ok, err, ℕ,
  ◌≡◌, refl, sym, subst, Bool, true, false, not, ◌&&◌, Option, none, some, List, [], ◌∷◌,
}

pub data PostCall : Type 0 where
  publish : ℕ → ℕ → List ℕ → PostCall
  edit_text : ℕ → ℕ → ℕ → List Role → PostCall
  take_down : ℕ → ℕ → ℕ → List Role → ℕ → PostCall
  pin : Bool → ℕ → ℕ → ℕ → List Role → PostCall
  toggle : ℕ → ℕ → ℕ → PostCall
  answer : ℕ → ℕ → ℕ → Option ℕ → List ℕ → PostCall
  withdraw : ℕ → ℕ → ℕ → ℕ → List Role → ℕ → PostCall
  toggle_reply : ℕ → ℕ → ℕ → ℕ → PostCall

unfoldable pub serve_post : PostCall → State → State
serve_post (publish community_id user_id mentioned) s =
    (create_post community_id user_id mentioned s).1
serve_post (edit_text community_id post_id user_id roles) s =
    (update_post community_id post_id user_id roles s).1
serve_post (take_down community_id post_id user_id roles now) s =
    (delete_post community_id post_id user_id roles now s).1
serve_post (pin pinned community_id post_id user_id roles) s =
    (pin_post pinned community_id post_id user_id roles s).1
serve_post (toggle community_id post_id user_id) s =
    (toggle_post_like community_id post_id user_id s).1
serve_post (answer community_id post_id user_id parent_id mentioned) s =
    (create_reply community_id post_id user_id parent_id mentioned s).1
serve_post (withdraw community_id post_id reply_id user_id roles now) s =
    (delete_reply community_id post_id reply_id user_id roles now s).1
serve_post (toggle_reply community_id post_id reply_id user_id) s =
    (toggle_reply_like community_id post_id reply_id user_id s).1

unfoldable pub serve_posts : List PostCall → State → State
serve_posts [] s = s
serve_posts (r ∷ rs) s = serve_posts rs (serve_post r s)

-- The transactions of the three services keep `P`.
pub record KeepsPosts (P : State → Type 0) : Type 0 where
  pub publishes :
      (community_id author_id : ℕ) (mentioned : List ℕ) (s : State)
      → P s
      → P (create_post_commit community_id author_id mentioned s).1
  pub takes_down :
      (i now : ℕ) (s : State)
      → P s
      → P (record s {
        posts = update_by post_key i (set_post_deleted now) s.posts;
        outbox = post_deleted i ∷ s.outbox;
        audit = post_delete i ∷ s.audit;
      })
  pub pins : (pinned : Bool) (i : ℕ) (s : State) → P s → P (pin_write pinned i s)
  pub toggles :
      (community_id i user_id : ℕ) (p : Post) (o : Option Like) (s : State)
      → find_post community_id i s ≡ some p
      → find_like i user_id s.post_likes ≡ o
      → P s
      → P (toggle_found i user_id o s).1
  pub answers :
      (community_id i author_id : ℕ) (parent_id : Option ℕ) (mentioned : List ℕ) (p : Post)
      (s : State)
      → find_post community_id i s ≡ some p
      → P s
      → P (create_reply_commit i author_id parent_id mentioned s).1
  pub withdraws :
      (i j now : ℕ) (r : PostReply) (s : State)
      → find_reply i j s ≡ some r
      → P s
      → P (delete_reply_commit i j now s).1
  pub toggles_reply :
      (i j user_id : ℕ) (r : PostReply) (o : Option Like) (s : State)
      → find_reply i j s ≡ some r
      → find_like j user_id s.reply_likes ≡ o
      → P s
      → P (toggle_reply_found j user_id o s).1

module _ (P : State → Type 0) (keep : KeepsPosts P) where
  -- A check under a condition, which changes nothing.
  moderated :
      {A : Type 0} (b : Bool) (user_id : ℕ) (roles : List Role) (community_id : ℕ)
      (f : Action State Error A) (s : State)
      → P s
      → P (f s).1
      → P ((when b (assert_can_moderate_community user_id roles community_id >> pure tt) >> f) s).1
  moderated false user_id roles community_id f s h after = after
  moderated true user_id roles community_id f s h after =
      go (assert_can_moderate_community user_id roles community_id s)
        (assert_can_moderate_keeps user_id roles community_id s)
    where
      go : (r : Result Error MemberRole × State) → r.1 ≡ s → P ((((λ _. r) >> pure tt) >> f) s).1
      go (ok a, t) same = subst (λ (z : State). P (f z).1) (sym same) after
      go (err e, t) same = subst P (sym same) h

  pub serve_post_keeps : (r : PostCall) (s : State) → P s → P (serve_post r s)
  unfolding serve_post create_post update_post delete_post pin_post toggle_post_like create_reply
      delete_reply toggle_reply_like
  serve_post_keeps (publish community_id user_id mentioned) s h =
      checked_keeps P (assert_active_member user_id community_id)
        (λ _. create_post_commit community_id user_id mentioned) s
        (assert_active_member_keeps user_id community_id s) h
        (λ _. keep.publishes community_id user_id mentioned)
  serve_post_keeps (edit_text community_id i user_id roles) s h = known (find_post community_id i s)
    where
      refused : (b : Bool) → P (raise_if b not_author s).1
      refused true = h
      refused false = h

      known :
          (o : Option Post)
          → P
              ((or_raise o post_not_found >>= λ p.
                  raise_if
                    (not (p.author_id == user_id) && not (some_role is_admin roles))
                    not_author)
                s).1
      known none = h
      known (some p) = refused (not (p.author_id == user_id) && not (some_role is_admin roles))
  serve_post_keeps (take_down community_id i user_id roles now) s h =
      known (find_post community_id i s)
    where
      write : Action State Error (Unit {0})
      write t = (
        ok tt,
        record t {
          posts = update_by post_key i (set_post_deleted now) t.posts;
          outbox = post_deleted i ∷ t.outbox;
          audit = post_delete i ∷ t.audit;
        },
      )

      known :
          (o : Option Post)
          → P
              ((or_raise o post_not_found >>= λ p.
                  when
                    (not (p.author_id == user_id))
                    (assert_can_moderate_community user_id roles community_id >> pure tt)
                  >> write)
                s).1
      known none = h
      known (some p) =
          moderated (not (p.author_id == user_id)) user_id roles community_id write s h
            (keep.takes_down i now s h)
  serve_post_keeps (pin pinned community_id i user_id roles) s h =
      checked_keeps P (assert_can_moderate_community user_id roles community_id)
        (λ _. pin_as pinned community_id i) s
        (assert_can_moderate_keeps user_id roles community_id s) h
        (λ _ t j. known (find_post community_id i t) t j)
    where
      known :
          (o : Option Post) (t : State)
          → P t
          → P ((or_raise o post_not_found >> modify (pin_write pinned i)) t).1
      known none t j = j
      known (some p) t j = keep.pins pinned i t j
  serve_post_keeps (toggle community_id i user_id) s h =
      checked_keeps P (assert_active_member user_id community_id)
        (λ _. toggle_as community_id i user_id) s
        (assert_active_member_keeps user_id community_id s) h
        (λ _ t j. known t j (find_post community_id i t) refl)
    where
      known :
          (t : State)
          → P t
          → (o : Option Post) → find_post community_id i t ≡ o
          → P
              ((or_raise o post_not_found
                  >> toggle_found i user_id (find_like i user_id t.post_likes))
                t).1
      known t j none found = j
      known t j (some p) found =
          keep.toggles community_id i user_id p (find_like i user_id t.post_likes) t found refl j
  serve_post_keeps (answer community_id i user_id parent_id mentioned) s h =
      checked_keeps P (assert_active_member user_id community_id)
        (λ _. answer_as community_id i user_id parent_id mentioned) s
        (assert_active_member_keeps user_id community_id s) h
        (λ _ t j. known t j (find_post community_id i t) refl)
    where
      commit : Action State Error ℕ
      commit = create_reply_commit i user_id parent_id mentioned

      guarded :
          (t : State)
          → P t
          → (x y : Bool) (p : Post) → find_post community_id i t ≡ some p
          → P ((raise_if x not_published >> (raise_if y parent_not_found >> commit)) t).1
      guarded t j true y p found = j
      guarded t j false true p found = j
      guarded t j false false p found =
          keep.answers community_id i user_id parent_id mentioned p t found j

      known :
          (t : State)
          → P t
          → (o : Option Post) → find_post community_id i t ≡ o
          → P
              ((or_raise o post_not_found >>= λ p.
                  raise_if (not (is_published p.status)) not_published
                  >> (raise_if (parent_missing i parent_id t) parent_not_found >> commit))
                t).1
      known t j none found = j
      known t j (some p) found =
          guarded t j (not (is_published p.status)) (parent_missing i parent_id t) p found
  serve_post_keeps (withdraw community_id i j user_id roles now) s h = known (find_reply i j s) refl
    where
      known :
          (o : Option PostReply)
          → find_reply i j s ≡ o
          → P
              ((or_raise o reply_not_found >>= λ r.
                  when
                    (not (r.author_id == user_id))
                    (assert_can_moderate_community user_id roles community_id >> pure tt)
                  >> delete_reply_commit i j now)
                s).1
      known none found = h
      known (some r) found =
          moderated (not (r.author_id == user_id)) user_id roles community_id
            (delete_reply_commit i j now) s h (keep.withdraws i j now r s found h)
  serve_post_keeps (toggle_reply community_id i j user_id) s h =
      checked_keeps P (assert_active_member user_id community_id) (λ _. toggle_reply_as i j user_id)
        s (assert_active_member_keeps user_id community_id s) h
        (λ _ t q. known t q (find_reply i j t) refl)
    where
      known :
          (t : State)
          → P t
          → (o : Option PostReply) → find_reply i j t ≡ o
          → P
              ((or_raise o reply_not_found
                  >> toggle_reply_found j user_id (find_like j user_id t.reply_likes))
                t).1
      known t q none found = q
      known t q (some r) found =
          keep.toggles_reply i j user_id r (find_like j user_id t.reply_likes) t found refl q
