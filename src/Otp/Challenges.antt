-- ===== src/Otp/Challenges.antt =====
-- Attempts are bounded, and one challenge at most is live.
use innovents.Shared.{
  leb, ◌==◌, to_ℕ, test_or, Bool-cases, Option-cases, find, count_where, update_where,
  count-update_where, count_where-and-le, find_by, Unique, find_by_found, count-update,
  Unique-update, find_by-update_if, Below, Below-Absent, Below-suc, Below-update,
  Unique-update_where, Below-update_where, Text, text_eq, text_eq→eq, ℕ, ◌+◌, ◌≤◌, ◌≡◌, refl, sym,
  subst, inl, inr, Bool, true, false, not, ◌&&◌, Option, none, some, List, [], ◌∷◌, arith,
}
use innovents.Otp.{
  purpose_eq, challenge_key, is_live, normalize, consume, count_attempt, create_challenge,
  check_code, verify_challenge, step, run, OtpPurpose, OtpChallenge, AuditEntry, Config, State,
  Call, otp_failed, create, verify,
}

purpose_eq→eq : (a b : OtpPurpose) → purpose_eq a b ≡ true → a ≡ b
purpose_eq→eq a b h = ground arith

-- The verification failed by a wrong code for challenge `j`.
abbrev pub is_failure_of : ℕ → AuditEntry → Bool
is_failure_of j (otp_failed k) = k == j
is_failure_of j _ = false

abbrev pub attempts_of : Option OtpChallenge → ℕ
attempts_of none = 0
attempts_of (some c) = c.attempts

-- At most one challenge of an identifier and a purpose is live, and challenge `j` has as many attempts
-- as the audit records wrong codes for it, and no more than it may.
pub record IsGuarded (identifier : Text) (purpose : OtpPurpose) (j : ℕ) (s : State) : Type 0 where
  pub keys : Unique challenge_key s.challenges
  pub fresh : Below challenge_key s.next_id s.challenges
  pub one_live : count_where (is_live identifier purpose) s.challenges ≤ 1
  pub bounded :
      test_or true (λ c. leb c.attempts c.max_attempts) (find_by challenge_key j s.challenges)
      ≡ true
  pub counted :
      count_where (is_failure_of j) s.audit ≡ attempts_of (find_by challenge_key j s.challenges)

count_where-diff :
    (p q : OtpChallenge → Bool) (cs : List OtpChallenge)
    → ((c : OtpChallenge) → p c ≡ q c)
    → count_where (λ c. p c && not (q c)) cs ≡ 0
count_where-diff p q [] same = refl
count_where-diff p q (c ∷ cs) same = ground (arith, same c, count_where-diff p q cs same)

same_live :
    (i i' : Text) (p p' : OtpPurpose) (c : OtpChallenge)
    → text_eq i' i ≡ true
    → purpose_eq p' p ≡ true
    → is_live i p c ≡ is_live i' p' c
same_live i i' p p' c same_text same_purpose =
    subst (λ (x : Text). is_live i p c ≡ is_live x p' c) (sym (text_eq→eq i' i same_text))
      (subst (λ (x : OtpPurpose). is_live i p c ≡ is_live i x c)
        (sym (purpose_eq→eq p' p same_purpose)) refl)

-- A new challenge takes the place of the one that was live.
consumed_live :
    (i i' : Text) (p p' : OtpPurpose) (now : ℕ) (cs : List OtpChallenge)
    → count_where (is_live i p) cs ≤ 1
    → to_ℕ (text_eq i' i && purpose_eq p' p)
        + count_where (is_live i p) (update_where (is_live i' p') (consume now) cs)
      ≤ 1
consumed_live i i' p p' now cs one =
    let left : (count_where (is_live i p) (update_where (is_live i' p') (consume now) cs)
        ≡ count_where (λ c. is_live i p c && not (is_live i' p' c)) cs) =
      count-update_where (is_live i p) (is_live i' p') (λ c. is_live i p c && not (is_live i' p' c))
        (consume now) cs (λ c. ground arith) in
    elim (Bool-cases (text_eq i' i && purpose_eq p' p)) [
      | inl same ↦ ground (
        arith,
        left,
        count_where-diff (is_live i p) (is_live i' p') cs
            (λ c. same_live i i' p p' c (ground arith) (ground arith)),
      )
      | inr other ↦
          ground (arith, left, count_where-and-le (is_live i p) (λ c. not (is_live i' p' c)) cs)
    ]

-- Consuming leaves the attempts of each challenge.
find-consumed :
    (j : ℕ) (q : OtpChallenge → Bool) (now : ℕ) (cs : List OtpChallenge)
    → test_or true
        (λ c. leb c.attempts c.max_attempts)
        (find_by challenge_key j (update_where q (consume now) cs))
      ≡ test_or true (λ c. leb c.attempts c.max_attempts) (find_by challenge_key j cs)
find-consumed j q now [] = refl
find-consumed j q now (c ∷ cs) = ground (arith, find-consumed j q now cs)

attempts-consumed :
    (j : ℕ) (q : OtpChallenge → Bool) (now : ℕ) (cs : List OtpChallenge)
    → attempts_of (find_by challenge_key j (update_where q (consume now) cs))
      ≡ attempts_of (find_by challenge_key j cs)
attempts-consumed j q now [] = refl
attempts-consumed j q now (c ∷ cs) = ground (arith, attempts-consumed j q now cs)

-- An id that was not given yet has no attempts.
attempts-Below :
    (n : ℕ) (cs : List OtpChallenge)
    → Below challenge_key n cs
    → attempts_of (find_by challenge_key n cs) ≡ 0
attempts-Below n [] h = refl
attempts-Below n (c ∷ cs) h = ground (arith, h.0, attempts-Below n cs h.1)

module _ (sha256 : Text → Text) (i : Text) (p : OtpPurpose) (j : ℕ) where
  create_challenge-IsGuarded :
      (config : Config) (identifier : Text) (purpose : OtpPurpose) (user_id : Option ℕ)
      (code : Text) (now : ℕ) (s : State)
      → IsGuarded i p j s
      → IsGuarded i p j (create_challenge sha256 config identifier purpose user_id code now s).1
  unfolding create_challenge
  create_challenge-IsGuarded config identifier purpose user_id code now s h =
      let cs : List OtpChallenge =
        update_where (is_live (normalize identifier) purpose) (consume now) s.challenges in
      let fresh : Below challenge_key s.next_id cs =
        Below-update_where challenge_key s.next_id (is_live (normalize identifier) purpose)
          (consume now) s.challenges (λ c. refl) h.fresh in
      let keys : Unique challenge_key cs =
        Unique-update_where challenge_key (is_live (normalize identifier) purpose) (consume now)
          s.challenges (λ c. refl) h.keys in
      ground (
        arith,
        keys,
        fresh,
        Below-suc challenge_key s.next_id cs fresh,
        Below-Absent challenge_key s.next_id cs fresh,
        consumed_live i (normalize identifier) p purpose now s.challenges h.one_live,
        find-consumed j (is_live (normalize identifier) purpose) now s.challenges,
        attempts-consumed j (is_live (normalize identifier) purpose) now s.challenges,
        attempts-Below s.next_id s.challenges h.fresh,
      )

  check_code-IsGuarded :
      (c : OtpChallenge) (code : Text) (now : ℕ) (s : State)
      → find_by challenge_key c.id s.challenges ≡ some c
      → IsGuarded i p j s
      → IsGuarded i p j (check_code sha256 c code now s).1
  unfolding check_code
  check_code-IsGuarded c code now s found h = ground (
    arith,
    Unique-update challenge_key c.id (consume now) s.challenges (λ x. refl) h.keys,
    Unique-update challenge_key c.id count_attempt s.challenges (λ x. refl) h.keys,
    Below-update challenge_key s.next_id c.id (consume now) s.challenges (λ x. refl) h.fresh,
    Below-update challenge_key s.next_id c.id count_attempt s.challenges (λ x. refl) h.fresh,
    count-update challenge_key (is_live i p) (consume now) c.id s.challenges c h.keys found,
    count-update challenge_key (is_live i p) count_attempt c.id s.challenges c h.keys found,
    find_by-update_if challenge_key j c.id (consume now) s.challenges (λ x. refl),
    find_by-update_if challenge_key j c.id count_attempt s.challenges (λ x. refl),
  )

  verify_challenge-IsGuarded :
      (identifier code : Text) (purpose : OtpPurpose) (now : ℕ) (s : State)
      → IsGuarded i p j s
      → IsGuarded i p j (verify_challenge sha256 identifier code purpose now s).1
  unfolding verify_challenge
  verify_challenge-IsGuarded identifier code purpose now s h =
      elim (Option-cases (find (is_live (normalize identifier) purpose) s.challenges)) [
        | inl missing ↦ ground arith
        | inr (c, found) ↦ ground (
          arith,
          check_code-IsGuarded c code now s
              (find_by_found challenge_key (is_live (normalize identifier) purpose) s.challenges c
                h.keys found)
              h,
        )
      ]

  -- From tables with different ids where it holds, through any sequence of requests and verifications,
  -- whatever the hash and the limits are, at most one challenge of each identifier and purpose is live,
  -- and each challenge has as many attempts as the audit records wrong codes for it, which are no more
  -- than its maximum.
  pub run-IsGuarded :
      (config : Config) (calls : List Call) (s : State)
      → IsGuarded i p j s
      → IsGuarded i p j (run sha256 config calls s)
  unfolding run step
  run-IsGuarded config [] s h = h
  run-IsGuarded config (create identifier purpose user_id code now ∷ calls) s h =
      run-IsGuarded config calls (step sha256 config (create identifier purpose user_id code now) s)
        (create_challenge-IsGuarded config identifier purpose user_id code now s h)
  run-IsGuarded config (verify identifier code purpose now ∷ calls) s h =
      run-IsGuarded config calls (step sha256 config (verify identifier code purpose now) s)
        (verify_challenge-IsGuarded identifier code purpose now s h)
