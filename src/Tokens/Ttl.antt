-- ===== src/Tokens/Ttl.antt =====
-- getAccessTokenTtlSeconds: the life of an access token, as `15m` or `2h`.
use innovents.Shared.{
  leb, ◌==◌, if◌then◌else◌, map_option, Text, trim, ℕ, ◌+◌, ◌-◌, ◌*◌, Bool, true, false, ◌&&◌,
  Option, none, some, [], ◌∷◌,
}

abbrev pub is_digit : ℕ → Bool
is_digit c = leb 48 c && leb c 57

-- `s`, `m`, `h` and `d`, in seconds.
abbrev pub unit_seconds : ℕ → Option ℕ
unit_seconds c =
    if c == 115
    then some 1
    else if c == 109
    then some 60
    else if c == 104
    then some (60 * 60)
    else if c == 100
    then some (24 * 60 * 60)
    else none

-- `/^(\d+)(s|m|h|d)$/` from a digit on: `seen` says that one was read.
unfoldable pub match_ttl : Bool → ℕ → Text → Option ℕ
match_ttl seen amount [] = none
match_ttl seen amount (c ∷ []) =
    if seen then map_option (λ unit. amount * unit) (unit_seconds c) else none
match_ttl seen amount (c ∷ d ∷ cs) =
    let rest = match_ttl true (amount * 10 + (c - 48)) (d ∷ cs) in if is_digit c then rest else none

-- 15 minutes for what does not match.
unfoldable pub ttl_seconds : Text → ℕ
ttl_seconds value = elim (match_ttl false 0 (trim value)) [
  | none ↦ 15 * 60
  | some seconds ↦ seconds
]
