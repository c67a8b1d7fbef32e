-- ===== src/Tokens.antt =====
-- TokenService: src/modules/auth/services/token.service.ts. The hash of CryptoUtil (node's crypto) is
-- the parameter sha256, and a random refresh token is an argument of the call. An access token is
-- the jti that is signed into it; a jti and a family are numbered as the token row that they are
-- made with.
pub mod Ttl
pub mod Families
pub mod Sessions
pub mod Reuse
pub mod Tests
use innovents.Shared.{
  ltb, ◌==◌, if◌then◌else◌, is_some, test_or, find, update_where, find_by, update_by, Action, pure,
  gets, modify, raise_if, or_raise, when, ◌>>=◌, ◌>>◌, transaction, Text, text_eq, ℕ, suc, ◌+◌, ◌*◌,
  Bool, true, false, not, ◌&&◌, ◌||◌, Option, none, some, List, [], ◌∷◌,
}
use innovents.Accounts.{AccountStatus, User, suspended, deactivated}
use innovents.Tokens.Ttl.{ttl_seconds}

pub record RefreshToken : Type 0 where
  pub id : ℕ
  pub user_id : ℕ
  pub token_hash : Text
  pub family_id : ℕ
  pub jti : ℕ
  pub expires_at : ℕ
  pub revoked_at : Option ℕ
  pub replaced_by : Option ℕ
  pub last_used_at : Option ℕ

pub data AuditEntry : Type 0 where
  token_reuse_detected token_refreshed : ℕ → ℕ → AuditEntry

-- A key of the blacklist in Redis, with the time at which it expires, if it does.
pub record Blacklisted : Type 0 where
  pub jti : ℕ
  pub until : Option ℕ

pub record State : Type 0 where
  pub users : List User
  pub tokens : List RefreshToken
  pub redis_up : Bool
  pub blacklist : List Blacklisted
  pub audit : List AuditEntry
  pub next_id : ℕ

pub data Error : Type 0 where
  invalid_token token_reuse token_expired session_invalid : Error
  broken_reference duplicate_hash : Error

pub record AuthTokens : Type 0 where
  pub user_id : ℕ
  pub jti : ℕ
  pub refresh_token : Text

abbrev pub token_key : RefreshToken → ℕ
token_key t = t.id

abbrev pub family_key : RefreshToken → ℕ
family_key t = t.family_id

abbrev pub has_hash : Text → RefreshToken → Bool
has_hash hash t = text_eq t.token_hash hash

abbrev pub is_unrevoked : RefreshToken → Bool
is_unrevoked t = not (is_some t.revoked_at)

abbrev pub is_of_family : ℕ → RefreshToken → Bool
is_of_family f t = t.family_id == f

abbrev pub is_session_of : ℕ → RefreshToken → Bool
is_session_of user_id t = t.user_id == user_id && is_unrevoked t

abbrev pub revoke : ℕ → RefreshToken → RefreshToken
revoke now t = record t { revoked_at = some now }

abbrev pub revoke_family : ℕ → ℕ → State → State
revoke_family f now s = record s { tokens = update_where (is_of_family f) (revoke now) s.tokens }

-- DEACTIVATED, SUSPENDED and REJECTED; a pending account keeps its sessions.
abbrev pub is_barred : AccountStatus → Bool
is_barred deactivated = true
is_barred suspended = true
is_barred AccountStatus.rejected = true
is_barred _ = false

-- `existingFamilyId || uuidv4()`
abbrev pub or_fresh : Option ℕ → ℕ → ℕ
or_fresh none id = id
or_fresh (some f) id = f

-- `accessExpiresIn`, and the days that a refresh token lives.
pub record Config : Type 0 where
  pub access_expires_in : Text
  pub refresh_expires_in_days : ℕ

abbrev pub refresh_expiry : Config → ℕ → ℕ
refresh_expiry config now = now + config.refresh_expires_in_days * 24 * 60 * 60 * 1000

abbrev pub new_token : Config → ℕ → ℕ → ℕ → Text → ℕ → RefreshToken
new_token config id user_id family_id hash now = record {
  id = id;
  user_id = user_id;
  token_hash = hash;
  family_id = family_id;
  jti = id;
  expires_at = refresh_expiry config now;
  revoked_at = none;
  replaced_by = none;
  last_used_at = none;
}

-- `updateMany` on the row, if it is unrevoked and unexpired: whether the token can be claimed.
abbrev pub is_claimable : ℕ → ℕ → State → Bool
is_claimable token_id now s =
    test_or false (λ t. is_unrevoked t && ltb now t.expires_at)
      (find_by token_key token_id s.tokens)

abbrev pub claim : ℕ → RefreshToken → RefreshToken
claim now t = record t { revoked_at = some now; last_used_at = some now }

abbrev pub link : ℕ → RefreshToken → RefreshToken
link id t = record t { replaced_by = some id }

-- `jtis.map((jti) => this.redisService.set(key, '1', ttl))`
abbrev pub blacklist_jtis :
    Option ℕ → (RefreshToken → Bool) → List RefreshToken → List Blacklisted → List Blacklisted
blacklist_jtis until p [] rest = rest
blacklist_jtis until p (t ∷ ts) rest =
    if p t
    then record { jti = t.jti; until = until } ∷ blacklist_jtis until p ts rest
    else blacklist_jtis until p ts rest

-- `RedisService.exists`: false without a connection.
unfoldable pub is_access_token_revoked : ℕ → ℕ → State → Bool
is_access_token_revoked jti now s =
    s.redis_up
    && test_or false (λ b. test_or true (λ t. ltb now t) b.until)
        (find (λ b. b.jti == jti) s.blacklist)

-- When a key that `RedisService.set` writes now expires; a life of 0 seconds is none.
unfoldable pub blacklist_until : Config → ℕ → Option ℕ
blacklist_until config now =
    if ttl_seconds config.access_expires_in == 0
    then none
    else some (now + ttl_seconds config.access_expires_in * 1000)

-- `blacklistAccessTokenJtis`, which writes nothing without a connection.
unfoldable pub blacklist_access_tokens :
    Config → ℕ → (RefreshToken → Bool) → State → List Blacklisted
blacklist_access_tokens config now p s =
    if s.redis_up
    then blacklist_jtis (blacklist_until config now) p s.tokens s.blacklist
    else s.blacklist

module _ (sha256 : Text → Text) (config : Config) where
  unfoldable pub generate_tokens : ℕ → Option ℕ → Text → ℕ → Action State Error AuthTokens
  generate_tokens user_id existing_family raw now = do
    id ← gets (λ s. s.next_id)
    raise_if (is_some (← gets (λ s. find (has_hash (sha256 raw)) s.tokens))) duplicate_hash
    modify (λ s. record s {
      tokens =
          new_token config id user_id (or_fresh existing_family id) (sha256 raw) now ∷ s.tokens;
      next_id = suc s.next_id;
    })
    pure (record { user_id = user_id; jti = id; refresh_token = raw })

  -- The transaction that claims a token, which was read before, and replaces it.
  unfoldable pub rotate_commit : RefreshToken → Text → ℕ → Action State Error (Option ℕ)
  rotate_commit t raw now = do
    claimed ← gets (is_claimable t.id now)
    id ← gets (λ s. s.next_id)
    taken ← gets (λ s. is_some (find (has_hash (sha256 raw)) s.tokens))
    when claimed (modify (λ s. record s { tokens = update_by token_key t.id (claim now) s.tokens }))
    raise_if (claimed && taken) duplicate_hash
    when claimed (
        modify (λ s. record s {
          tokens =
              update_by token_key t.id (link id)
                (new_token config id t.user_id t.family_id (sha256 raw) now ∷ s.tokens);
          next_id = suc s.next_id;
        }))
    pure (if claimed then some id else none)

  -- After the checks: the claim, and the answer to a claim that came too late.
  unfoldable pub rotate_claimed : RefreshToken → Text → ℕ → Action State Error AuthTokens
  rotate_claimed t raw now = do
    replacement ← transaction (rotate_commit t raw now)
    when (not (is_some replacement)) (
        modify (λ s. record (revoke_family t.family_id now s) {
          audit = token_reuse_detected t.user_id t.id ∷ s.audit;
        }))
    id ← or_raise replacement token_reuse
    modify (λ s. record s { audit = token_refreshed t.user_id t.id ∷ s.audit })
    pure (record { user_id = t.user_id; jti = id; refresh_token = raw })

  -- The checks on the token that was found, each with what it writes before it throws.
  unfoldable pub check_token : RefreshToken → User → ℕ → Action State Error (Unit {0})
  check_token t user now = do
    let reused = is_some t.revoked_at
    let late = not reused && ltb t.expires_at now
    let barred = not reused && not late && (is_some user.deleted_at || is_barred user.status)
    when reused (
        modify (λ s. record (revoke_family t.family_id now s) {
          audit = token_reuse_detected t.user_id t.id ∷ s.audit;
        }))
    raise_if reused token_reuse
    when late (modify (λ s. record s { tokens = update_by token_key t.id (revoke now) s.tokens }))
    raise_if late token_expired
    when barred (
        modify
          (λ s. record s { tokens = update_where (is_session_of t.user_id) (revoke now) s.tokens }))
    raise_if barred session_invalid

  unfoldable pub rotate_refresh_token : Text → Text → ℕ → Action State Error AuthTokens
  rotate_refresh_token raw new_raw now = do
    t ← or_raise (← gets (λ s. find (has_hash (sha256 raw)) s.tokens)) invalid_token
    user ← or_raise (← gets (λ s. find (λ u. u.id == t.user_id) s.users)) broken_reference
    check_token t user now
    rotate_claimed t new_raw now

  unfoldable pub revoke_all_user_sessions : ℕ → ℕ → State → State
  revoke_all_user_sessions user_id now s = record s {
    tokens = update_where (is_session_of user_id) (revoke now) s.tokens;
    blacklist = blacklist_access_tokens config now (λ t. t.user_id == user_id) s;
  }

  -- The family of the token, if it is known.
  abbrev pub revoke_found : ℕ → Option RefreshToken → State → State
  revoke_found now none s = s
  revoke_found now (some t) s = record s {
    tokens = update_where (is_of_family t.family_id) (revoke now) s.tokens;
    blacklist = blacklist_access_tokens config now (is_of_family t.family_id) s;
  }

  unfoldable pub revoke_refresh_token : Text → ℕ → State → State
  revoke_refresh_token raw now s = revoke_found now (find (has_hash (sha256 raw)) s.tokens) s
