-- ===== src/Otp/Codes.antt =====
-- When a code opens, once, and when the next one may be asked for.
use innovents.Shared.{
  Option-cases, find, count_where, find_holds, update_by, find_by_found, count-update, ok, err,
  Text, trim, text_eq, text_eq→eq, text_eq_refl, ℕ, ◌+◌, ◌-◌, ◌*◌, ◌≤◌, ◌<◌, ◌≡◌, refl, subst, ◌↔◌,
  inl, inr, Bool, true, Option, none, some, List, [], ◌∷◌, arith,
}
use innovents.Otp.{
  purpose_eq, challenge_key, is_live, normalize, consume, ceil_seconds, create_challenge,
  check_code, verify_challenge, OtpPurpose, OtpChallenge, Config, State, wait, no_challenge,
  attempts_exceeded,
}
use innovents.Otp.Challenges.{IsGuarded}

find-count-zero :
    (p : OtpChallenge → Bool) (cs : List OtpChallenge) → count_where p cs ≡ 0 → find p cs ≡ none
find-count-zero p [] e = refl
find-count-zero p (c ∷ cs) e = ground (arith, find-count-zero p cs)

purpose_eq_refl : (p : OtpPurpose) → purpose_eq p p ≡ true
purpose_eq_refl p = ground arith

module _ (sha256 : Text → Text) where
  -- The challenge `c` is opened by `code`: in time, with attempts left, and by its own code.
  pub record Opens (c : OtpChallenge) (code : Text) (now : ℕ) : Type 0 where
    pub in_time : now ≤ c.expires_at
    pub attempts_left : c.attempts < c.max_attempts
    pub matches : c.code_hash ≡ sha256 (trim code)

  -- Where a challenge is live for the identifier and the purpose, the newest such challenge decides:
  -- the verification succeeds exactly if that challenge is in time, has attempts left and was made
  -- for a code with the same hash.
  pub verify_challenge_iff :
      (identifier code : Text) (purpose : OtpPurpose) (now : ℕ) (s : State) (c : OtpChallenge)
      → find (is_live (normalize identifier) purpose) s.challenges ≡ some c
      → ((verify_challenge sha256 identifier code purpose now s).0 ≡ ok true) ↔ Opens c code now
  unfolding verify_challenge check_code
  verify_challenge_iff identifier code purpose now s c found = (to, from)
    where
      to : (verify_challenge sha256 identifier code purpose now s).0 ≡ ok true → Opens c code now
      to e = record {
        in_time = ground arith;
        attempts_left = ground arith;
        matches = text_eq→eq c.code_hash (sha256 (trim code)) (ground arith);
      }

      from : Opens c code now → (verify_challenge sha256 identifier code purpose now s).0 ≡ ok true
      from h =
          let same : text_eq c.code_hash (sha256 (trim code)) ≡ true =
            subst (λ (x : Text). text_eq c.code_hash x ≡ true) h.matches
              (text_eq_refl c.code_hash) in
          ground (arith, h.in_time, h.attempts_left)

  -- A verification that succeeds uses the code up: every later one for the same identifier and
  -- purpose finds no challenge, whatever its code and time.
  pub verify_challenge_once :
      (identifier code : Text) (purpose : OtpPurpose) (now : ℕ) (code' : Text) (now' j : ℕ)
      (s : State)
      → IsGuarded (normalize identifier) purpose j s
      → (verify_challenge sha256 identifier code purpose now s).0 ≡ ok true
      → (verify_challenge sha256 identifier code' purpose now'
          (verify_challenge sha256 identifier code purpose now s).1).0
        ≡ err no_challenge
  unfolding verify_challenge check_code
  verify_challenge_once identifier code purpose now code' now' j s h e =
      elim (Option-cases (find (is_live (normalize identifier) purpose) s.challenges)) [
        | inl missing ↦ ground arith
        | inr (c, found) ↦
            let live : is_live (normalize identifier) purpose c ≡ true =
              find_holds (is_live (normalize identifier) purpose) s.challenges c found in
            let by_id =
              find_by_found challenge_key (is_live (normalize identifier) purpose) s.challenges c
                h.keys found in
            let gone : find (is_live (normalize identifier) purpose)
                  (update_by challenge_key c.id (consume now) s.challenges)
                ≡ none =
              find-count-zero (is_live (normalize identifier) purpose)
                (update_by challenge_key c.id (consume now) s.challenges)
                (ground (
                  arith,
                  count-update challenge_key (is_live (normalize identifier) purpose) (consume now)
                      c.id s.challenges c h.keys by_id,
                  h.one_live,
                )) in
            ground arith
      ]

  -- Once its attempts are used up and it has not expired, a challenge does not open even for its own
  -- code, and it is closed: what is verified afterwards finds no challenge.
  verify_challenge-spent :
      (identifier code : Text) (purpose : OtpPurpose) (now : ℕ) (code' : Text) (now' j : ℕ)
      (s : State) (c : OtpChallenge)
      → IsGuarded (normalize identifier) purpose j s
      → find (is_live (normalize identifier) purpose) s.challenges ≡ some c
      → now ≤ c.expires_at
      → c.max_attempts ≤ c.attempts
      → ((verify_challenge sha256 identifier code purpose now s).0 ≡ err attempts_exceeded)
        × ((verify_challenge sha256 identifier code' purpose now'
              (verify_challenge sha256 identifier code purpose now s).1).0
            ≡ err no_challenge)
  unfolding verify_challenge check_code
  verify_challenge-spent identifier code purpose now code' now' j s c h found in_time spent =
      let live : is_live (normalize identifier) purpose c ≡ true =
        find_holds (is_live (normalize identifier) purpose) s.challenges c found in
      let by_id =
        find_by_found challenge_key (is_live (normalize identifier) purpose) s.challenges c h.keys
          found in
      let gone : find (is_live (normalize identifier) purpose)
            (update_by challenge_key c.id (consume now) s.challenges)
          ≡ none =
        find-count-zero (is_live (normalize identifier) purpose)
          (update_by challenge_key c.id (consume now) s.challenges)
          (ground (
            arith,
            count-update challenge_key (is_live (normalize identifier) purpose) (consume now) c.id
                s.challenges c h.keys by_id,
            h.one_live,
          )) in
      (ground arith, ground arith)

  -- After a challenge was created, another request for the same identifier and purpose within the
  -- cooldown is refused, with the seconds that are left, and changes nothing.
  pub create_challenge-cooldown :
      (config : Config) (identifier : Text) (purpose : OtpPurpose) (user_id : Option ℕ)
      (code : Text) (now : ℕ) (code' : Text) (now' : ℕ) (s : State) (made : Text × ℕ)
      → (create_challenge sha256 config identifier purpose user_id code now s).0 ≡ ok made
      → now' < now + config.cooldown_seconds * 1000
      → create_challenge sha256 config identifier purpose user_id code' now'
          (create_challenge sha256 config identifier purpose user_id code now s).1
        ≡ (
          err (wait (ceil_seconds (now + config.cooldown_seconds * 1000 - now'))),
          (create_challenge sha256 config identifier purpose user_id code now s).1,
        )
  unfolding create_challenge
  create_challenge-cooldown config identifier purpose user_id code now code' now' s made e early =
      ground (arith, text_eq_refl (normalize identifier), purpose_eq_refl purpose)
