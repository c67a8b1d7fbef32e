-- ===== src/Tokens/Tests.antt =====
-- Runs of the token methods on one user, with the text itself as its hash.
use innovents.Shared.{
  count_where, ok, err, Text, ◌+◌, ◌*◌, ◌<◌, ◌≡◌, refl, true, none, List, [], ◌∷◌, arith,
}
use innovents.Accounts.{User, active}
use innovents.Tokens.{
  is_session_of, revoke, new_token, is_access_token_revoked, generate_tokens, rotate_commit,
  rotate_claimed, check_token, rotate_refresh_token, revoke_all_user_sessions, RefreshToken, State,
  AuthTokens, Config, token_reuse,
}
use innovents.Tokens.Ttl.{match_ttl, ttl_seconds}
use innovents.Tokens.Families.{is_live_of, IsSingle}
use innovents.Tokens.Sessions.{run, run-IsSingle, Call, log_in, rotate, log_out, log_out_all}
use innovents.Tokens.Reuse.{
  rotate_claimed-twice, rotate_refresh_token-reused, revoke_all_user_sessions-revoked,
  revoke_all_user_sessions-denied,
}

abbrev plain : Text → Text
plain t = t

-- "15m" and 7 days.
abbrev config : Config
config = record { access_expires_in = b'1' ∷ b'5' ∷ b'm' ∷ []; refresh_expires_in_days = 7 }

abbrev member : User
member = record { id = 1; status = active; deleted_at = none; roles = [] }

abbrev first_raw : Text
first_raw = b'A' ∷ []

abbrev second_raw : Text
second_raw = b'B' ∷ []

abbrev third_raw : Text
third_raw = b'C' ∷ []

abbrev start : State
start = record {
  users = member ∷ [];
  tokens = [];
  redis_up = true;
  blacklist = [];
  audit = [];
  next_id = 100;
}

abbrev token : RefreshToken
token = new_token config 100 1 100 first_raw 1000

abbrev logged_in : State
logged_in = record start { tokens = token ∷ []; next_id = 101 }

abbrev revoked_token : RefreshToken
revoked_token = revoke 2000 token

abbrev logged_out : State
logged_out = record start { tokens = revoked_token ∷ []; next_id = 101 }

abbrev second_pair : AuthTokens
second_pair = record { user_id = 1; jti = 101; refresh_token = second_raw }

abbrev calls : List Call
calls =
    log_in 1 first_raw 1000
    ∷ rotate first_raw second_raw 2000
    ∷ rotate first_raw third_raw 3000
    ∷ log_in 1 first_raw 4000
    ∷ log_out second_raw 5000
    ∷ log_out_all 1 6000
    ∷ []

log_in_runs :
    generate_tokens plain config 1 none first_raw 1000 start
    ≡ (ok (record { user_id = 1; jti = 100; refresh_token = first_raw }), logged_in)
unfolding generate_tokens
log_in_runs = refl

ttl_runs : ttl_seconds config.access_expires_in ≡ 900
unfolding ttl_seconds match_ttl
ttl_runs = refl

ttl_of_days : ttl_seconds (b'2' ∷ b'd' ∷ []) ≡ 172800
unfolding ttl_seconds match_ttl
ttl_of_days = refl

ttl_without_amount : ttl_seconds (b'm' ∷ []) ≡ 900
unfolding ttl_seconds match_ttl
ttl_without_amount = refl

rotation_runs : (rotate_claimed plain config token second_raw 2000 logged_in).0 ≡ ok second_pair
unfolding rotate_claimed rotate_commit
rotation_runs = refl

rotate_runs :
    (rotate_refresh_token plain config first_raw second_raw 2000 logged_in).0 ≡ ok second_pair
unfolding rotate_refresh_token check_token rotate_claimed rotate_commit
rotate_runs = refl

start-IsSingle : IsSingle 100 start
start-IsSingle = record { keys = tt; fresh = tt; families = tt; live_once = omega arith }

logged_in-IsSingle : IsSingle 100 logged_in
logged_in-IsSingle = record {
  keys = (tt, tt);
  fresh = (omega arith, tt);
  families = (omega arith, tt);
  live_once = omega arith;
}

run-IsSingle_example : IsSingle 100 (run plain config calls start)
run-IsSingle_example = run-IsSingle plain config 100 calls start start-IsSingle

rotate_claimed-twice_example :
    ((rotate_claimed plain config token third_raw 2001
        (rotate_claimed plain config token second_raw 2000 logged_in).1).0
      ≡ err token_reuse)
    × (count_where
          (is_live_of 100)
          (rotate_claimed plain config token third_raw 2001
            (rotate_claimed plain config token second_raw 2000 logged_in).1).1.tokens
        ≡ 0)
rotate_claimed-twice_example =
    rotate_claimed-twice plain config 100 token second_raw 2000 third_raw 2001 logged_in second_pair
      logged_in-IsSingle rotation_runs

rotate_refresh_token-reused_example :
    ((rotate_refresh_token plain config first_raw third_raw 3000 logged_out).0 ≡ err token_reuse)
    × (count_where
          (is_live_of 100)
          (rotate_refresh_token plain config first_raw third_raw 3000 logged_out).1.tokens
        ≡ 0)
rotate_refresh_token-reused_example =
    rotate_refresh_token-reused plain config first_raw third_raw 3000 logged_out revoked_token
      member refl refl refl

life_is_positive : 0 < ttl_seconds config.access_expires_in
life_is_positive = omega (arith, ttl_runs)

in_the_life : 3000 < 2000 + ttl_seconds config.access_expires_in * 1000
in_the_life = omega (arith, ttl_runs)

revoke_all_user_sessions-revoked_example :
    count_where (is_session_of 1) (revoke_all_user_sessions plain config 1 2000 logged_in).tokens
    ≡ 0
revoke_all_user_sessions-revoked_example =
    revoke_all_user_sessions-revoked plain config 1 1 2000 logged_in

revoke_all_user_sessions-denied_example :
    is_access_token_revoked 100 3000 (revoke_all_user_sessions plain config 1 2000 logged_in) ≡ true
revoke_all_user_sessions-denied_example =
    revoke_all_user_sessions-denied plain config 1 2000 3000 100 token logged_in life_is_positive
      refl refl in_the_life
