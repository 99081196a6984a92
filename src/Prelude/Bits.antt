-- ===== src/Prelude/Bits.antt =====
-- Laws of `bit_and` on words that the program masks, which the tactics take for an unknown.
use Prim.Native.Nat.{
  ℕ, zero, suc, ◌+◌, ◌*◌, ◌/◌, ◌%◌, ◌≤◌, min, max, bit_and, bit_or, digits, bit_and-bitwise,
  bit_or-bitwise,
}
use mathlib.Core.Path.{◌≡◌, refl}
use native.Mathlib.Omega.{arith}

-- The binary digits that both numbers have, for numbers of up to `fuel` digits.
abbrev common : ℕ → ℕ → ℕ → ℕ
common fuel = digits (λ y. zero) min fuel

common-zero : (fuel y : ℕ) → common fuel zero y ≡ zero
common-zero zero y = refl
common-zero (suc fuel) y = refl

-- Spare fuel makes no difference.
spare : (most fuel x y : ℕ) → x ≤ fuel → fuel ≤ most → common most x y ≡ common fuel x y
spare most zero zero y enough more = common-zero most y
spare most (suc fuel) zero y enough more = common-zero most y
spare most zero (suc x) y enough more = absurd (omega arith)
spare zero (suc fuel) (suc x) y enough more = absurd (omega arith)
spare (suc most) (suc fuel) (suc x) y enough more =
    let rest = spare most fuel (suc x / 2) (y / 2) (omega arith) (omega arith) in omega arith

-- The lowest digit of `x & y`, and the rest.
pub bit_and_step : (x y : ℕ) → bit_and x y ≡ bit_and (x / 2) (y / 2) * 2 + min (x % 2) (y % 2)
bit_and_step zero y = omega (arith, bit_and-bitwise zero y, bit_and-bitwise zero (y / 2))
bit_and_step (suc x) y =
    let half = suc x / 2 in
    let enough = spare x half half (y / 2) (omega arith) (omega arith) in
    omega (arith, bit_and-bitwise (suc x) y, bit_and-bitwise half (y / 2), enough)

bounded-zero : (bound x : ℕ) → x ≤ bound → bit_and x zero ≡ zero
bounded-zero bound zero small = refl
bounded-zero zero (suc x) small = absurd (omega arith)
bounded-zero (suc bound) (suc x) small =
    let rest = bounded-zero bound (suc x / 2) (omega arith) in
    omega (arith, bit_and_step (suc x) zero, rest)

pub bit_and-zero : (x : ℕ) → bit_and x zero ≡ zero
bit_and-zero x = bounded-zero x x (omega arith)

-- The lowest digit of `x | y`.
pub bit_or_low : (x y : ℕ) → bit_or x y % 2 ≡ max (x % 2) (y % 2)
bit_or_low zero y = omega (arith, bit_or-bitwise zero y)
bit_or_low (suc x) y = omega (arith, bit_or-bitwise (suc x) y)

pub bit_and_one : (x : ℕ) → bit_and x 1 ≡ x % 2
bit_and_one x = omega (arith, bit_and_step x 1, bit_and-zero (x / 2))
