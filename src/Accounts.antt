-- ===== src/Accounts.antt =====
-- User accounts as the services read them: prisma/schema.prisma (User, UserRole, AccountStatus).
-- Identifiers are uuids in the program and only compared, so they are numbers here; a time is a
-- number of milliseconds.
use innovents.Shared.{
  ◌==◌, is_some, find, ℕ, Bool, true, false, not, ◌&&◌, ◌||◌, Option, List, [], ◌∷◌,
}

pub data AccountStatus : Type 0 where
  pending active rejected suspended deactivated : AccountStatus

abbrev pub is_active : AccountStatus → Bool
is_active active = true
is_active _ = false

-- The role names that the services test.
pub data Role : Type 0 where
  attendee sponsor vendor provider organizer owner press admin super_admin : Role

abbrev pub is_sponsor : Role → Bool
is_sponsor sponsor = true
is_sponsor _ = false

abbrev pub is_vendor : Role → Bool
is_vendor vendor = true
is_vendor _ = false

abbrev pub is_provider : Role → Bool
is_provider provider = true
is_provider _ = false

pub record User : Type 0 where
  pub id : ℕ
  pub status : AccountStatus
  pub deleted_at : Option ℕ
  pub roles : List Role

-- `userRoles.some(...)`
abbrev pub some_role : (Role → Bool) → List Role → Bool
some_role p [] = false
some_role p (r ∷ rs) = p r || some_role p rs

-- `user.findFirst({ where: { id, deletedAt: null } })`
abbrev pub find_user : ℕ → List User → Option User
find_user id users = find (λ u. u.id == id && not (is_some u.deleted_at)) users
