-- ===== src/Shared/Double.antt =====
-- The numbers of JavaScript, IEEE doubles, as far as the services calculate with them: those that are
-- finite and not negative, each as the number of times that it holds the smallest of them, 2^-1074.
-- Prisma's Decimal takes a number by its shortest decimal text, which reads back to that number; so a
-- text of at most 15 digits, such as an amount of the database, is no greater than that of a number
-- exactly if the number nearest to it is no greater.
use Prim.Native.Nat.{ℕ, zero, suc, ◌+◌, ◌-◌, ◌*◌, ◌/◌, ◌%◌, ◌^◌}
use mathlib.Core.Path.{◌≡◌, ap}
use mathlib.Core.Bool.{◌&&◌, ◌||◌}
use native.Mathlib.Omega.{arith}
use innovents.Shared.Tests.{ltb, leb, ◌==◌, if◌then◌else◌}

-- 1 as a double.
unfoldable pub one : ℕ
one = 2 ^ 1074

-- How often `n` is halved until it has 53 bits. The fuel of `round_ratio` is enough for all numbers
-- below 2^2153, and the greatest double is below 2^2098.
unfoldable pub excess_bits : ℕ → ℕ → ℕ
excess_bits zero n = 0
excess_bits (suc fuel) n =
    let more = suc (excess_bits fuel (n / 2)) in if ltb n (2 ^ 53) then 0 else more

-- The whole number that is nearest to `n / d`, the even one of two.
unfoldable pub nearest : ℕ → ℕ → ℕ
nearest n d =
    if ltb d (2 * (n % d)) || (2 * (n % d) == d && n / d % 2 == 1) then n / d + 1 else n / d

-- The double that is nearest to `n / d` times the smallest one.
unfoldable pub round_ratio : ℕ → ℕ → ℕ
unfolding excess_bits nearest
round_ratio n d = let step = 2 ^ excess_bits 2100 (n / d) in nearest n (d * step) * step

-- `x + y`
unfoldable pub add_double : ℕ → ℕ → ℕ
unfolding round_ratio
add_double x y = round_ratio (x + y) 1

-- `x - y`, cut off at 0.
unfoldable pub subtract_double : ℕ → ℕ → ℕ
unfolding round_ratio
subtract_double x y = round_ratio (x - y) 1

-- `toNumber()` of a decimal with `n` hundredths.
unfoldable pub to_number : ℕ → ℕ
unfolding one round_ratio
to_number n = round_ratio (n * one) 100

-- The hundredths of the decimal of a number, as a column with two places rounds them, half up.
unfoldable pub to_hundredths : ℕ → ℕ
unfolding one round_ratio
to_hundredths x =
    let whole = x * 100 / one in
    if leb (round_ratio ((2 * whole + 1) * one) 200) x then whole + 1 else whole

pub subtract_double_self : (x : ℕ) → subtract_double x x ≡ 0
unfolding subtract_double
subtract_double_self x =
    let none_left : x - x ≡ 0 = omega arith in ap (λ (n : ℕ). round_ratio n 1) none_left
