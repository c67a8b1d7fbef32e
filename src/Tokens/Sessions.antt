-- ===== src/Tokens/Sessions.antt =====
-- The methods of TokenService keep a single live token in each family, and end the family of a token
-- that is used twice.
use innovents.Shared.{
  ◌==◌, Bool-cases, Option-cases, find, find_by_found, Below, transaction, ok, Text, ℕ, ◌<◌, ◌≡◌,
  subst, inl, inr, Bool, Option, none, some, List, [], ◌∷◌, arith,
}
use innovents.Accounts.{User}
use innovents.Tokens.{
  token_key, family_key, has_hash, is_of_family, is_session_of, revoke_family, generate_tokens,
  rotate_commit, rotate_claimed, check_token, rotate_refresh_token, revoke_all_user_sessions,
  revoke_found, revoke_refresh_token, RefreshToken, AuditEntry, State, Config, token_reuse_detected,
  token_refreshed,
}
use innovents.Tokens.Families.{
  revoke_group-IsSingle, generate_tokens-IsSingle, rotate_commit-IsSingle, IsSingle, IsKnown,
}

pub data Call : Type 0 where
  log_in : ℕ → Text → ℕ → Call
  rotate : Text → Text → ℕ → Call
  log_out : Text → ℕ → Call
  log_out_all : ℕ → ℕ → Call

find-Below :
    (p : RefreshToken → Bool) (n : ℕ) (ts : List RefreshToken) (t : RefreshToken)
    → Below family_key n ts
    → find p ts ≡ some t
    → t.family_id < n
find-Below p n [] t h e = cc
find-Below p n (x ∷ ts) t h e = elim (Bool-cases (p x)) [
  | inl hit ↦
      let same : x ≡ t = ground arith in subst (λ (y : RefreshToken). y.family_id < n) same h.0
  | inr miss ↦ find-Below p n ts t h.1 (ground arith)
]

-- A token that a query finds is known.
found-IsKnown :
    (f : ℕ) (p : RefreshToken → Bool) (t : RefreshToken) (s : State)
    → find p s.tokens ≡ some t
    → IsSingle f s
    → IsKnown t s
found-IsKnown f p t s found h =
    let by_id = find_by_found token_key p s.tokens t h.keys found in
    record {
      same_family = ground arith;
      family_fresh = find-Below p s.next_id s.tokens t h.families found;
    }

module _ (sha256 : Text → Text) (config : Config) where
  unfoldable pub step : Call → State → State
  step (log_in user_id raw now) s = (generate_tokens sha256 config user_id none raw now s).1
  step (rotate raw new_raw now) s = (rotate_refresh_token sha256 config raw new_raw now s).1
  step (log_out raw now) s = revoke_refresh_token sha256 config raw now s
  step (log_out_all user_id now) s = revoke_all_user_sessions sha256 config user_id now s

  unfoldable pub run : List Call → State → State
  run [] s = s
  run (c ∷ cs) s = run cs (step c s)

  pub rotate_claimed_keeps :
      (P : State → Type 0) (t : RefreshToken) (raw : Text) (now : ℕ) (s : State)
      → P (transaction (rotate_commit sha256 config t raw now) s).1
      → ((u : State) (es : List AuditEntry) → P u → P (record u { audit = es }))
      → ((u : State) (es : List AuditEntry)
          → P u
          → P (record (revoke_family t.family_id now u) { audit = es }))
      → P (rotate_claimed sha256 config t raw now s).1
  unfolding rotate_claimed
  rotate_claimed_keeps P t raw now s after audited revoked =
      let u : State = (transaction (rotate_commit sha256 config t raw now) s).1 in
      ground (
        arith,
        after,
        audited u (token_refreshed t.user_id t.id ∷ u.audit) after,
        revoked u (token_reuse_detected t.user_id t.id ∷ u.audit) after,
      )

  -- The checks of a rotation that passes write nothing.
  check_token-passed :
      (t : RefreshToken) (user : User) (now : ℕ) (s : State)
      → (check_token sha256 config t user now s).0 ≡ ok tt
      → (check_token sha256 config t user now s).1 ≡ s
  unfolding check_token
  check_token-passed t user now s e = ground arith

  rotate_refresh_token_keeps :
      (P : State → Type 0) (raw new_raw : Text) (now : ℕ) (s : State)
      → P s
      → ((t : RefreshToken) (user : User)
          → find (has_hash (sha256 raw)) s.tokens ≡ some t
          → P (check_token sha256 config t user now s).1)
      → ((t : RefreshToken)
          → find (has_hash (sha256 raw)) s.tokens ≡ some t
          → P (rotate_claimed sha256 config t new_raw now s).1)
      → P (rotate_refresh_token sha256 config raw new_raw now s).1
  unfolding rotate_refresh_token
  rotate_refresh_token_keeps P raw new_raw now s before checked claimed =
      elim (Option-cases (find (has_hash (sha256 raw)) s.tokens)) [
        | inl missing ↦ ground arith
        | inr (t, found) ↦ elim (Option-cases (find (λ (u : User). u.id == t.user_id) s.users)) [
          | inl dangling ↦ ground arith
          | inr (user, found_user) ↦
              ground (arith, check_token-passed t user now s, checked t user found, claimed t found)
        ]
      ]

  module _ (f : ℕ) where
    revoke_found-IsSingle :
        (now : ℕ) (o : Option RefreshToken) (s : State)
        → IsSingle f s
        → IsSingle f (revoke_found sha256 config now o s)
    revoke_found-IsSingle now none s h = h
    revoke_found-IsSingle now (some t) s h =
        let k = revoke_group-IsSingle f (is_of_family t.family_id) now s s.audit h in
        record { keys = k.keys; fresh = k.fresh; families = k.families; live_once = k.live_once }

    check_token-IsSingle :
        (t : RefreshToken) (user : User) (now : ℕ) (s : State)
        → IsSingle f s
        → IsSingle f (check_token sha256 config t user now s).1
    unfolding check_token
    check_token-IsSingle t user now s h = ground (
      arith,
      revoke_group-IsSingle f (is_of_family t.family_id) now s
          (token_reuse_detected t.user_id t.id ∷ s.audit) h,
      revoke_group-IsSingle f (λ x. token_key x == t.id) now s s.audit h,
      revoke_group-IsSingle f (is_session_of t.user_id) now s s.audit h,
    )

    rotate_claimed-IsSingle :
        (t : RefreshToken) (raw : Text) (now : ℕ) (s : State)
        → IsKnown t s
        → IsSingle f s
        → IsSingle f (rotate_claimed sha256 config t raw now s).1
    rotate_claimed-IsSingle t raw now s known h =
        rotate_claimed_keeps (IsSingle f) t raw now s
          (rotate_commit-IsSingle sha256 config f t raw now s known h)
          (λ u es k. record {
            keys = k.keys;
            fresh = k.fresh;
            families = k.families;
            live_once = k.live_once;
          })
          (λ u es k. revoke_group-IsSingle f (is_of_family t.family_id) now u es k)

    rotate_refresh_token-IsSingle :
        (raw new_raw : Text) (now : ℕ) (s : State)
        → IsSingle f s
        → IsSingle f (rotate_refresh_token sha256 config raw new_raw now s).1
    rotate_refresh_token-IsSingle raw new_raw now s h =
        rotate_refresh_token_keeps (IsSingle f) raw new_raw now s h
          (λ t user found. check_token-IsSingle t user now s h)
          (λ t found.
            rotate_claimed-IsSingle t new_raw now s
              (found-IsKnown f (has_hash (sha256 raw)) t s found h) h)

    step-IsSingle : (c : Call) (s : State) → IsSingle f s → IsSingle f (step c s)
    unfolding step revoke_refresh_token revoke_all_user_sessions
    step-IsSingle (log_in user_id raw now) s h =
        generate_tokens-IsSingle sha256 config f user_id raw now s h
    step-IsSingle (rotate raw new_raw now) s h = rotate_refresh_token-IsSingle raw new_raw now s h
    step-IsSingle (log_out raw now) s h =
        revoke_found-IsSingle now (find (has_hash (sha256 raw)) s.tokens) s h
    step-IsSingle (log_out_all user_id now) s h =
        let k = revoke_group-IsSingle f (is_session_of user_id) now s s.audit h in
        record { keys = k.keys; fresh = k.fresh; families = k.families; live_once = k.live_once }

    -- From tables where it holds, through any sequence of logins, rotations and logouts, whatever the hash and the tokens drawn
    -- are, no family has more than one unrevoked token.
    pub run-IsSingle : (cs : List Call) (s : State) → IsSingle f s → IsSingle f (run cs s)
    unfolding run
    run-IsSingle [] s h = h
    run-IsSingle (c ∷ cs) s h = run-IsSingle cs (step c s) (step-IsSingle c s h)
