-- ===== src/Shared.antt =====
-- The names that every component shares: the libraries', passed on, and those of the children.
mod Tests
mod Lists
mod Removal
mod Counter
mod Method
mod Strings
mod Int
mod Double
pub use Tests.*
pub use Lists.*
pub use Removal.*
pub use Counter.*
pub use Method.*
pub use Strings.*
pub use Int.*
unfoldable pub use Double.{add_double, subtract_double, to_number, to_hundredths}
pub use Double.{subtract_double_self}
pub use Prim.Native.Nat.{ℕ, zero, suc, ◌+◌, ◌-◌, ◌*◌, ◌/◌, ◌%◌, ◌≤◌, ◌<◌, min, max}
pub use mathlib.Core.Path.{◌≡◌, refl, sym, ap, ◌∙◌, subst}
pub use mathlib.Core.Logic.{◌≢◌, ◌↔◌, ◌⊎◌, inl, inr}
pub use mathlib.Core.Bool.{Bool, true, false, not, ◌&&◌, ◌||◌}
pub use mathlib.Core.Option.{Option, none, some}
pub use mathlib.Core.List.{List, [], ◌∷◌, ◌++◌, map}
pub use native.Mathlib.Omega.{arith}
