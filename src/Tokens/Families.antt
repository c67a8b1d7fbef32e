-- ===== src/Tokens/Families.antt =====
-- One live token in a family at most, and none after a token of it was used twice.
use innovents.Shared.{
  ◌==◌, to_ℕ, is_some, test_or, Bool-cases, find, count_where, update_where, count-update_where,
  count_where-and-le, find_by, update_by, Unique, Unique-update, count-update_if, Below,
  Below-Absent, Below-suc, Below-update, Unique-update_where, Below-update_where, transaction, Text,
  ℕ, suc, ◌+◌, ◌≤◌, ◌<◌, ◌≡◌, refl, subst, inl, inr, Bool, true, not, ◌&&◌, none, List, [], ◌∷◌,
  arith,
}
use innovents.Tokens.{
  token_key, family_key, has_hash, is_unrevoked, is_of_family, revoke, revoke_family, new_token,
  is_claimable, claim, link, generate_tokens, rotate_commit, RefreshToken, AuditEntry, State,
  Config,
}

-- A token of the family that can still be claimed.
abbrev pub is_live_of : ℕ → RefreshToken → Bool
is_live_of f t = t.family_id == f && is_unrevoked t

-- Ids and families are drawn from the counter, and a family has one unrevoked token at most.
pub record IsSingle (f : ℕ) (s : State) : Type 0 where
  pub keys : Unique token_key s.tokens
  pub fresh : Below token_key s.next_id s.tokens
  pub families : Below family_key s.next_id s.tokens
  pub live_once : count_where (is_live_of f) s.tokens ≤ 1

-- What revoking a group of tokens does to the live ones of a family.
pub revoked_live :
    (f : ℕ) (q : RefreshToken → Bool) (now : ℕ) (ts : List RefreshToken)
    → count_where (is_live_of f) (update_where q (revoke now) ts)
      ≡ count_where (λ t. is_live_of f t && not (q t)) ts
revoked_live f q now ts =
    count-update_where (is_live_of f) q (λ t. is_live_of f t && not (q t)) (revoke now) ts
      (λ t. ground arith)

pub revoke_group-IsSingle :
    (f : ℕ) (q : RefreshToken → Bool) (now : ℕ) (s : State) (es : List AuditEntry)
    → IsSingle f s
    → IsSingle f (record s { tokens = update_where q (revoke now) s.tokens; audit = es })
revoke_group-IsSingle f q now s es h = record {
  keys = Unique-update_where token_key q (revoke now) s.tokens (λ t. refl) h.keys;
  fresh = Below-update_where token_key s.next_id q (revoke now) s.tokens (λ t. refl) h.fresh;
  families = Below-update_where family_key s.next_id q (revoke now) s.tokens (λ t. refl) h.families;
  live_once = ground (
    arith,
    revoked_live f q now s.tokens,
    count_where-and-le (is_live_of f) (λ t. not (q t)) s.tokens,
    h.live_once,
  );
}

count_where-live-revoked :
    (f : ℕ) (ts : List RefreshToken)
    → count_where (λ t. is_live_of f t && not (is_of_family f t)) ts ≡ 0
count_where-live-revoked f [] = refl
count_where-live-revoked f (t ∷ ts) = ground (arith, count_where-live-revoked f ts)

-- After its family was revoked, none of its tokens is live.
pub revoke_family-live :
    (f now : ℕ) (s : State) → count_where (is_live_of f) (revoke_family f now s).tokens ≡ 0
revoke_family-live f now s =
    ground
      (arith, revoked_live f (is_of_family f) now s.tokens, count_where-live-revoked f s.tokens)

Below-live :
    (f n : ℕ) (ts : List RefreshToken)
    → Below family_key n ts
    → n ≤ f
    → count_where (is_live_of f) ts ≡ 0
Below-live f n [] h le = refl
Below-live f n (t ∷ ts) h le = ground (arith, Below-live f n ts h.1 le)

-- A row that a method read before: a row with its id still has its family.
pub record IsKnown (t : RefreshToken) (s : State) : Type 0 where
  pub same_family :
      test_or true (λ r. r.family_id == t.family_id) (find_by token_key t.id s.tokens) ≡ true
  pub family_fresh : t.family_id < s.next_id

module _ (sha256 : Text → Text) (config : Config) (f : ℕ) where
  pub generate_tokens-IsSingle :
      (user_id : ℕ) (raw : Text) (now : ℕ) (s : State)
      → IsSingle f s
      → IsSingle f (generate_tokens sha256 config user_id none raw now s).1
  unfolding generate_tokens
  generate_tokens-IsSingle user_id raw now s h = ground (
    arith,
    Below-suc token_key s.next_id s.tokens h.fresh,
    Below-suc family_key s.next_id s.tokens h.families,
    Below-Absent token_key s.next_id s.tokens h.fresh,
    Below-live f s.next_id s.tokens h.families,
  )

  -- The tokens that a claim leaves.
  abbrev claimed_tokens : RefreshToken → ℕ → State → List RefreshToken
  claimed_tokens t now s = update_by token_key t.id (claim now) s.tokens

  claimed-live :
      (t : RefreshToken) (now : ℕ) (s : State)
      → IsKnown t s
      → is_claimable t.id now s ≡ true
      → IsSingle f s
      → to_ℕ (t.family_id == f) + count_where (is_live_of f) (claimed_tokens t now s) ≤ 1
  claimed-live t now s known claimable h = ground (
    arith,
    count-update_if token_key (is_live_of f) (claim now) t.id s.tokens h.keys,
    known.same_family,
    h.live_once,
  )

  replaced-IsSingle :
      (t : RefreshToken) (raw : Text) (now : ℕ) (s : State)
      → IsKnown t s
      → is_claimable t.id now s ≡ true
      → IsSingle f s
      → IsSingle f (record s {
        tokens = update_by token_key t.id (link s.next_id) (
            new_token config s.next_id t.user_id t.family_id (sha256 raw) now
            ∷ claimed_tokens t now s);
        next_id = suc s.next_id;
      })
  replaced-IsSingle t raw now s known claimable h =
      let new : RefreshToken = new_token config s.next_id t.user_id t.family_id (sha256 raw) now in
      let ts : List RefreshToken = claimed_tokens t now s in
      let fresh : Below token_key s.next_id ts =
        Below-update token_key s.next_id t.id (claim now) s.tokens (λ x. refl) h.fresh in
      let families : Below family_key s.next_id ts =
        Below-update_where family_key s.next_id (λ x. token_key x == t.id) (claim now) s.tokens
          (λ x. refl) h.families in
      record {
        keys =
            Unique-update token_key t.id (link s.next_id) (new ∷ ts) (λ x. refl)
              (
                Below-Absent token_key s.next_id ts fresh,
                Unique-update token_key t.id (claim now) s.tokens (λ x. refl) h.keys,
              );
        fresh =
            Below-update token_key (suc s.next_id) t.id (link s.next_id) (new ∷ ts) (λ x. refl)
              (omega arith, Below-suc token_key s.next_id ts fresh);
        families =
            Below-update_where family_key (suc s.next_id) (λ x. token_key x == t.id)
              (link s.next_id) (new ∷ ts) (λ x. refl)
              (omega (arith, known.family_fresh), Below-suc family_key s.next_id ts families);
        live_once = ground (
          arith,
          count-update_where (is_live_of f) (λ x. token_key x == t.id) (is_live_of f)
              (link s.next_id) (new ∷ ts) (λ x. ground arith),
          claimed-live t now s known claimable h,
        );
      }

  pub rotate_commit-IsSingle :
      (t : RefreshToken) (raw : Text) (now : ℕ) (s : State)
      → IsKnown t s
      → IsSingle f s
      → IsSingle f (transaction (rotate_commit sha256 config t raw now) s).1
  unfolding rotate_commit
  rotate_commit-IsSingle t raw now s known h = elim (Bool-cases (is_claimable t.id now s)) [
    | inl claimable ↦ elim (Bool-cases (is_some (find (has_hash (sha256 raw)) s.tokens))) [
      | inl taken ↦ subst (IsSingle f) {x = s} (ground arith) h
      | inr free ↦
          subst (IsSingle f) (ground arith) (replaced-IsSingle t raw now s known claimable h)
    ]
    | inr gone ↦ subst (IsSingle f) {x = s} (ground arith) h
  ]
