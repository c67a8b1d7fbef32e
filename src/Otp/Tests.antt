-- ===== src/Otp/Tests.antt =====
-- Runs of the one-time passwords, with the text itself as its hash.
use innovents.Shared.{
  ok, err, Text, ◌+◌, ◌-◌, ◌*◌, ◌≡◌, refl, ◌↔◌, true, none, some, List, [], ◌∷◌, arith,
}
use innovents.Otp.{
  normalize, ceil_seconds, new_challenge, create_challenge, check_code, verify_challenge, step, run,
  OtpChallenge, Config, State, Call, password_reset, otp_requested, wait, no_challenge, wrong_code,
  create, verify,
}
use innovents.Otp.Challenges.{run-IsGuarded, IsGuarded}
use innovents.Otp.Codes.{
  verify_challenge_iff, verify_challenge_once, create_challenge-cooldown, Opens,
}

abbrev plain : Text → Text
plain t = t

abbrev config : Config
config = record { expires_in_minutes = 5; max_attempts = 2; cooldown_seconds = 60 }

-- "Ab" is typed with a space, and stored as "ab".
abbrev typed : Text
typed = 32 ∷ b'A' ∷ b'b' ∷ []

abbrev stored : Text
stored = b'a' ∷ b'b' ∷ []

abbrev code : Text
code = b'7' ∷ []

abbrev guess : Text
guess = b'8' ∷ []

abbrev start : State
start = record { challenges = []; audit = []; next_id = 100 }

abbrev challenge : OtpChallenge
challenge = new_challenge plain config 100 stored password_reset (some 1) code 1000

abbrev sent_code : State
sent_code = record start { challenges = challenge ∷ []; next_id = 101 }

abbrev spent : OtpChallenge
spent = record challenge { attempts = 2 }

abbrev spent_code : State
spent_code = record start { challenges = spent ∷ []; next_id = 101 }

abbrev calls : List Call
calls =
    create typed password_reset (some 1) code 1000
    ∷ verify typed guess password_reset 2000
    ∷ create typed password_reset none guess 3000
    ∷ verify typed guess password_reset 4000
    ∷ verify typed code password_reset 5000
    ∷ []

create_runs :
    create_challenge plain config typed password_reset (some 1) code 1000 start
    ≡ (ok (code, 100), record sent_code { audit = otp_requested 100 ∷ [] })
unfolding create_challenge
create_runs = refl

verify_runs : (verify_challenge plain typed code password_reset 2000 sent_code).0 ≡ ok true
unfolding verify_challenge check_code
verify_runs = refl

guess_is_wrong :
    (verify_challenge plain typed guess password_reset 2000 sent_code).0 ≡ err (wrong_code 1)
unfolding verify_challenge check_code
guess_is_wrong = refl

locks_out :
    (verify_challenge plain typed code password_reset 5000 (run plain config calls start)).0
    ≡ err no_challenge
unfolding run step create_challenge verify_challenge check_code
locks_out = refl

start-IsGuarded : IsGuarded stored password_reset 100 start
start-IsGuarded = record {
  keys = tt;
  fresh = tt;
  one_live = omega arith;
  bounded = refl;
  counted = refl;
}

sent-IsGuarded : IsGuarded (normalize typed) password_reset 100 sent_code
sent-IsGuarded = record {
  keys = (tt, tt);
  fresh = (omega arith, tt);
  one_live = omega arith;
  bounded = refl;
  counted = refl;
}

run-IsGuarded_example : IsGuarded stored password_reset 100 (run plain config calls start)
run-IsGuarded_example =
    run-IsGuarded plain stored password_reset 100 config calls start start-IsGuarded

verify_challenge_iff_example :
    ((verify_challenge plain typed code password_reset 2000 sent_code).0 ≡ ok true)
    ↔ Opens plain challenge code 2000
verify_challenge_iff_example =
    verify_challenge_iff plain typed code password_reset 2000 sent_code challenge refl

verify_challenge_once_example :
    (verify_challenge plain typed code password_reset 3000
      (verify_challenge plain typed code password_reset 2000 sent_code).1).0
    ≡ err no_challenge
verify_challenge_once_example =
    verify_challenge_once plain typed code password_reset 2000 code 3000 100 sent_code
      sent-IsGuarded verify_runs

created_runs :
    (create_challenge plain config typed password_reset (some 1) code 1000 start).0 ≡ ok (code, 100)
unfolding create_challenge
created_runs = refl

create_challenge-cooldown_example :
    create_challenge plain config typed password_reset
      (some 1)
      guess
      2000
      (create_challenge plain config typed password_reset (some 1) code 1000 start).1
    ≡ (
      err (wait (ceil_seconds (1000 + 60 * 1000 - 2000))),
      (create_challenge plain config typed password_reset (some 1) code 1000 start).1,
    )
create_challenge-cooldown_example =
    create_challenge-cooldown plain config typed password_reset (some 1) code 1000 guess 2000 start
      (code, 100) created_runs (omega arith)
