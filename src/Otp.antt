-- ===== src/Otp.antt =====
-- OtpService: src/modules/auth/services/otp.service.ts. The hash of CryptoUtil (node's crypto) is the
-- parameter sha256, and the random code of a new challenge is an argument of the call.
pub mod Challenges
pub mod Codes
pub mod Tests
use innovents.Shared.{
  ltb, leb, is_some, test_or, find, update_where, update_by, Action, pure, gets, modify, raise_if,
  or_raise, when, ◌>>=◌, ◌>>◌, Text, trim, to_lower_case, text_eq, ℕ, suc, ◌+◌, ◌-◌, ◌*◌, ◌/◌, Bool,
  true, false, not, ◌&&◌, Option, none, some, List, [], ◌∷◌,
}

pub data OtpPurpose : Type 0 where
  email_verification password_reset login_verification : OtpPurpose

abbrev pub purpose_eq : OtpPurpose → OtpPurpose → Bool
purpose_eq email_verification email_verification = true
purpose_eq password_reset password_reset = true
purpose_eq login_verification login_verification = true
purpose_eq _ _ = false

pub record OtpChallenge : Type 0 where
  pub id : ℕ
  pub user_id : Option ℕ
  pub identifier : Text
  pub purpose : OtpPurpose
  pub code_hash : Text
  pub expires_at : ℕ
  pub attempts : ℕ
  pub max_attempts : ℕ
  pub consumed_at : Option ℕ
  pub resend_after : ℕ

-- The audit entries, by the challenge that they are about.
pub data AuditEntry : Type 0 where
  otp_requested account_locked otp_failed otp_verified : ℕ → AuditEntry

-- `otp.expiresInMinutes`, `otp.maxAttempts` and `otp.cooldownSeconds`.
pub record Config : Type 0 where
  pub expires_in_minutes : ℕ
  pub max_attempts : ℕ
  pub cooldown_seconds : ℕ

pub record State : Type 0 where
  pub challenges : List OtpChallenge
  pub audit : List AuditEntry
  pub next_id : ℕ

-- `wait` carries the seconds left, `wrong_code` the attempts left.
pub data Error : Type 0 where
  wait : ℕ → Error
  no_challenge code_expired attempts_exceeded : Error
  wrong_code : ℕ → Error

abbrev pub challenge_key : OtpChallenge → ℕ
challenge_key c = c.id

-- `where: { identifier, purpose, consumedAt: null }`
abbrev pub is_live : Text → OtpPurpose → OtpChallenge → Bool
is_live identifier purpose c =
    text_eq c.identifier identifier && purpose_eq c.purpose purpose && not (is_some c.consumed_at)

abbrev pub normalize : Text → Text
normalize identifier = to_lower_case (trim identifier)

abbrev pub consume : ℕ → OtpChallenge → OtpChallenge
consume now c = record c { consumed_at = some now }

abbrev pub count_attempt : OtpChallenge → OtpChallenge
count_attempt c = record c { attempts = c.attempts + 1 }

-- `Math.ceil(ms / 1000)`
abbrev pub ceil_seconds : ℕ → ℕ
ceil_seconds ms = (ms + 999) / 1000

-- The challenge is still in its cooldown, by its last code.
abbrev pub cools_down : ℕ → Option OtpChallenge → Bool
cools_down now recent = test_or false (λ c. ltb now c.resend_after) recent

abbrev pub resend_in : ℕ → Option OtpChallenge → ℕ
resend_in now none = 0
resend_in now (some c) = ceil_seconds (c.resend_after - now)

module _ (sha256 : Text → Text) where
  abbrev pub new_challenge : Config → ℕ → Text → OtpPurpose → Option ℕ → Text → ℕ → OtpChallenge
  new_challenge config id identifier purpose user_id code now = record {
    id = id;
    user_id = user_id;
    identifier = identifier;
    purpose = purpose;
    code_hash = sha256 code;
    expires_at = now + config.expires_in_minutes * 60 * 1000;
    attempts = 0;
    max_attempts = config.max_attempts;
    consumed_at = none;
    resend_after = now + config.cooldown_seconds * 1000;
  }

  -- `createChallenge`: the code, and the id of the challenge.
  unfoldable pub create_challenge :
      Config → Text → OtpPurpose → Option ℕ → Text → ℕ → Action State Error (Text × ℕ)
  create_challenge config identifier purpose user_id code now = do
    recent ← gets (λ s. find (is_live (normalize identifier) purpose) s.challenges)
    raise_if (cools_down now recent) (wait (resend_in now recent))
    modify (λ s. record s {
      challenges = update_where (is_live (normalize identifier) purpose) (consume now) s.challenges;
    })
    id ← gets (λ s. s.next_id)
    modify (λ s. record s {
      challenges =
          new_challenge config id (normalize identifier) purpose user_id code now ∷ s.challenges;
      next_id = suc s.next_id;
      audit = otp_requested id ∷ s.audit;
    })
    pure (code, id)

  -- The checks of `verifyChallenge` on the challenge that it found, each with what it writes.
  unfoldable pub check_code : OtpChallenge → Text → ℕ → Action State Error Bool
  check_code c code now = do
    let late = ltb c.expires_at now
    let spent = not late && leb c.max_attempts c.attempts
    let wrong = not late && not spent && not (text_eq c.code_hash (sha256 (trim code)))
    when late (
        modify
          (λ s. record s { challenges = update_by challenge_key c.id (consume now) s.challenges }))
    raise_if late code_expired
    when spent (
        modify (λ s. record s {
          challenges = update_by challenge_key c.id (consume now) s.challenges;
          audit = account_locked c.id ∷ s.audit;
        }))
    raise_if spent attempts_exceeded
    when wrong (
        modify (λ s. record s {
          challenges = update_by challenge_key c.id count_attempt s.challenges;
          audit = otp_failed c.id ∷ s.audit;
        }))
    raise_if wrong (wrong_code (c.max_attempts - (c.attempts + 1)))
    modify (λ s. record s {
      challenges = update_by challenge_key c.id (consume now) s.challenges;
      audit = otp_verified c.id ∷ s.audit;
    })
    pure true

  unfoldable pub verify_challenge : Text → Text → OtpPurpose → ℕ → Action State Error Bool
  verify_challenge identifier code purpose now = do
    c ←
        or_raise (← gets (λ s. find (is_live (normalize identifier) purpose) s.challenges))
          no_challenge
    check_code c code now

pub data Call : Type 0 where
  create : Text → OtpPurpose → Option ℕ → Text → ℕ → Call
  verify : Text → Text → OtpPurpose → ℕ → Call

module _ (sha256 : Text → Text) (config : Config) where
  unfoldable pub step : Call → State → State
  step (create identifier purpose user_id code now) s =
      (create_challenge sha256 config identifier purpose user_id code now s).1
  step (verify identifier code purpose now) s =
      (verify_challenge sha256 identifier code purpose now s).1

  unfoldable pub run : List Call → State → State
  run [] s = s
  run (c ∷ cs) s = run cs (step c s)
