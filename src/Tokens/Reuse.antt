-- ===== src/Tokens/Reuse.antt =====
-- A token that is used twice, and sessions that are ended.
use innovents.Shared.{
  ◌==◌, if◌then◌else◌, is_some, Option-cases, find, count_where, count_where-found,
  count-update_where, find_by, update_by, find_by-update_if, find_by-Below, ok, err, Text, ℕ, ◌+◌,
  ◌*◌, ◌≤◌, ◌<◌, ◌≡◌, refl, ◌∙◌, inl, inr, Bool, true, false, not, ◌&&◌, Option, some, List, [],
  ◌∷◌, arith,
}
use innovents.Accounts.{User}
use innovents.Tokens.{
  token_key, has_hash, is_session_of, revoke, new_token, is_claimable, claim, link, blacklist_jtis,
  is_access_token_revoked, blacklist_until, blacklist_access_tokens, rotate_commit, rotate_claimed,
  check_token, rotate_refresh_token, revoke_all_user_sessions, RefreshToken, Blacklisted, State,
  AuthTokens, Config, token_reuse,
}
use innovents.Tokens.Families.{is_live_of, revoke_family-live, IsSingle}
use innovents.Tokens.Ttl.{ttl_seconds}

-- The keys that were written together are found before the older ones.
blacklist_jtis-find :
    (until : Option ℕ) (p : RefreshToken → Bool) (jti : ℕ) (ts : List RefreshToken)
    (rest : List Blacklisted)
    → 1 ≤ count_where (λ t. p t && t.jti == jti) ts
    → find (λ (b : Blacklisted). b.jti == jti) (blacklist_jtis until p ts rest)
      ≡ some (record { jti = jti; until = until })
blacklist_jtis-find until p jti [] rest h = ground arith
blacklist_jtis-find until p jti (t ∷ ts) rest h =
    ground (arith, blacklist_jtis-find until p jti ts rest)

-- Revoking the sessions of one user ends those, and none of anybody else.
session_left :
    (user_id other : ℕ) (ts : List RefreshToken)
    → count_where (λ t. is_session_of other t && not (is_session_of user_id t)) ts
      ≡ (if other == user_id then 0 else count_where (is_session_of other) ts)
session_left user_id other [] = ground arith
session_left user_id other (t ∷ ts) = ground (arith, session_left user_id other ts)

module _ (sha256 : Text → Text) (config : Config) where
  -- A claim that comes too late ends the whole family.
  late_claim :
      (t : RefreshToken) (raw : Text) (now : ℕ) (s : State)
      → is_claimable t.id now s ≡ false
      → ((rotate_claimed sha256 config t raw now s).0 ≡ err token_reuse)
        × (count_where (is_live_of t.family_id) (rotate_claimed sha256 config t raw now s).1.tokens
            ≡ 0)
  unfolding rotate_claimed rotate_commit
  late_claim t raw now s late = (ground arith, ground (arith, revoke_family-live t.family_id now s))

  -- A token that was rotated cannot be claimed again.
  rotated-not-claimable :
      (f : ℕ) (t : RefreshToken) (raw : Text) (now now' : ℕ) (s : State) (made : AuthTokens)
      → IsSingle f s
      → (rotate_claimed sha256 config t raw now s).0 ≡ ok made
      → is_claimable t.id now' (rotate_claimed sha256 config t raw now s).1 ≡ false
  unfolding rotate_claimed rotate_commit
  rotated-not-claimable f t raw now now' s made h e =
      elim (Option-cases (find_by token_key t.id s.tokens)) [
        | inl missing ↦ ground arith
        | inr (r, found) ↦ ground (
          arith,
          find_by-Below token_key s.next_id t.id s.tokens r h.fresh found,
          find_by-update_if token_key t.id t.id (claim now) s.tokens (λ x. refl),
          find_by-update_if token_key t.id t.id (link s.next_id)
              (new_token config s.next_id t.user_id t.family_id (sha256 raw) now
                ∷ update_by token_key t.id (claim now) s.tokens)
              (λ x. refl),
        )
      ]

  -- Of two rotations that read the same token before either claimed it, one at most succeeds: after
  -- the first has, the second is refused as a reuse, and no token of the family is live any more.
  pub rotate_claimed-twice :
      (f : ℕ) (t : RefreshToken) (raw : Text) (now : ℕ) (raw' : Text) (now' : ℕ) (s : State)
      (made : AuthTokens)
      → IsSingle f s
      → (rotate_claimed sha256 config t raw now s).0 ≡ ok made
      → ((rotate_claimed sha256 config t raw' now' (rotate_claimed sha256 config t raw now s).1).0
          ≡ err token_reuse)
        × (count_where
              (is_live_of t.family_id)
              (rotate_claimed sha256 config t raw' now'
                (rotate_claimed sha256 config t raw now s).1).1.tokens
            ≡ 0)
  rotate_claimed-twice f t raw now raw' now' s made h e =
      late_claim t raw' now' (rotate_claimed sha256 config t raw now s).1
        (rotated-not-claimable f t raw now now' s made h e)

  -- A refresh token that was revoked, by rotation or by logout, is refused when it is presented
  -- again, and no token of its family is live afterwards.
  pub rotate_refresh_token-reused :
      (raw new_raw : Text) (now : ℕ) (s : State) (t : RefreshToken) (user : User)
      → find (has_hash (sha256 raw)) s.tokens ≡ some t
      → find (λ (u : User). u.id == t.user_id) s.users ≡ some user
      → is_some t.revoked_at ≡ true
      → ((rotate_refresh_token sha256 config raw new_raw now s).0 ≡ err token_reuse)
        × (count_where
              (is_live_of t.family_id)
              (rotate_refresh_token sha256 config raw new_raw now s).1.tokens
            ≡ 0)
  unfolding rotate_refresh_token check_token
  rotate_refresh_token-reused raw new_raw now s t user found found_user reused =
      (ground arith, ground (arith, revoke_family-live t.family_id now s))

  -- Ending all sessions of a user leaves that user no unrevoked refresh token, whatever the connection
  -- to Redis is, and leaves every other user as many as before.
  pub revoke_all_user_sessions-revoked :
      (user_id other now : ℕ) (s : State)
      → count_where
          (is_session_of other)
          (revoke_all_user_sessions sha256 config user_id now s).tokens
        ≡ (if other == user_id then 0 else count_where (is_session_of other) s.tokens)
  unfolding revoke_all_user_sessions
  revoke_all_user_sessions-revoked user_id other now s =
      count-update_where (is_session_of other) (is_session_of user_id)
        (λ x. is_session_of other x && not (is_session_of user_id x)) (revoke now) s.tokens
        (λ x. ground arith)
      ∙ session_left user_id other s.tokens

  -- Where access tokens live for longer than nothing, ending all sessions of a user revokes the access
  -- token of each of the user's token rows until that life, counted from now, is over, if there is a
  -- connection to Redis; without one, no access token is revoked.
  pub revoke_all_user_sessions-denied :
      (user_id now now' k : ℕ) (t : RefreshToken) (s : State)
      → 0 < ttl_seconds config.access_expires_in
      → find_by token_key k s.tokens ≡ some t
      → t.user_id ≡ user_id
      → now' < now + ttl_seconds config.access_expires_in * 1000
      → is_access_token_revoked t.jti now' (revoke_all_user_sessions sha256 config user_id now s)
        ≡ s.redis_up
  unfolding revoke_all_user_sessions is_access_token_revoked blacklist_until blacklist_access_tokens
  revoke_all_user_sessions-denied user_id now now' k t s life found mine soon = ground (
    arith,
    blacklist_jtis-find (blacklist_until config now) (λ x. x.user_id == user_id) t.jti s.tokens
        s.blacklist
        (count_where-found (λ (x : RefreshToken). x.id == k)
          (λ x. x.user_id == user_id && x.jti == t.jti) s.tokens t found (ground arith)),
  )
