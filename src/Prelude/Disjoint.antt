-- ===== src/Prelude/Disjoint.antt =====
-- `bit_or` of numbers without a common binary digit is their sum.
use Prim.Native.Nat.{
  ℕ, zero, suc, ◌+◌, ◌*◌, ◌/◌, ◌%◌, ◌^◌, ◌≤◌, ◌<◌, max, bit_or, digits, bit_or-bitwise,
}
use mathlib.Core.Path.{◌≡◌, refl, ap}
use native.Mathlib.Omega.{arith}
use native.Mathlib.Nat.{two-pow-succ}

-- The binary digits that one of the numbers has, for a first number of up to `fuel` digits.
abbrev either : ℕ → ℕ → ℕ → ℕ
either fuel = digits (λ y. y) max fuel

either-zero : (fuel y : ℕ) → either fuel zero y ≡ y
either-zero zero y = refl
either-zero (suc fuel) y = refl

spare : (most fuel x y : ℕ) → x ≤ fuel → fuel ≤ most → either most x y ≡ either fuel x y
spare most zero zero y enough more = either-zero most y
spare most (suc fuel) zero y enough more = either-zero most y
spare most zero (suc x) y enough more = absurd (omega arith)
spare zero (suc fuel) (suc x) y enough more = absurd (omega arith)
spare (suc most) (suc fuel) (suc x) y enough more =
    let rest = spare most fuel (suc x / 2) (y / 2) (omega arith) (omega arith) in omega arith

-- The lowest digit of `x | y`, and the rest.
pub bit_or_step : (x y : ℕ) → bit_or x y ≡ bit_or (x / 2) (y / 2) * 2 + max (x % 2) (y % 2)
bit_or_step zero y = omega (arith, bit_or-bitwise zero y, bit_or-bitwise zero (y / 2))
bit_or_step (suc x) y =
    let half = suc x / 2 in
    let enough = spare x half half (y / 2) (omega arith) (omega arith) in
    omega (arith, bit_or-bitwise (suc x) y, bit_or-bitwise half (y / 2), enough)

bounded-zero : (bound x : ℕ) → x ≤ bound → bit_or x zero ≡ x
bounded-zero bound zero small = refl
bounded-zero zero (suc x) small = absurd (omega arith)
bounded-zero (suc bound) (suc x) small =
    let rest = bounded-zero bound (suc x / 2) (omega arith) in
    omega (arith, bit_or_step (suc x) zero, rest)

pub bit_or-zero : (x : ℕ) → bit_or x zero ≡ x
bit_or-zero x = bounded-zero x x (omega arith)

-- High digits on the right.
pub bit_or_high : (k x y : ℕ) → x < 2 ^ k → bit_or x (y * 2 ^ k) ≡ x + y * 2 ^ k
bit_or_high zero zero y h = omega (arith, bit_or-bitwise zero (y * 1))
bit_or_high zero (suc x) y h = absurd (omega arith)
bit_or_high (suc k) x y h =
    let half : y * 2 ^ suc k / 2 ≡ y * 2 ^ k =
      omega (arith, ap (λ (t : ℕ). y * t) (two-pow-succ k)) in
    omega (
      arith,
      two-pow-succ k,
      ap (λ (t : ℕ). y * t) (two-pow-succ k),
      bit_or_step x (y * 2 ^ suc k),
      ap (bit_or (x / 2)) half,
      bit_or_high k (x / 2) y (omega (arith, two-pow-succ k)),
    )

-- High digits on the left stay.
pub bit_or_low_part :
    (k b c d : ℕ) → c < 2 ^ k → d < 2 ^ k → bit_or (b * 2 ^ k + c) d ≡ b * 2 ^ k + bit_or c d
bit_or_low_part zero b zero zero hc hd = omega (arith, bit_or-zero (b * 1 + 0))
bit_or_low_part zero b (suc c) d hc hd = absurd (omega arith)
bit_or_low_part zero b zero (suc d) hc hd = absurd (omega arith)
bit_or_low_part (suc k) b c d hc hd =
    let twice = ap (λ (t : ℕ). b * t) (two-pow-succ k) in
    let half : (b * 2 ^ suc k + c) / 2 ≡ b * 2 ^ k + c / 2 = omega (arith, twice) in
    omega (
      arith,
      twice,
      bit_or_step (b * 2 ^ suc k + c) d,
      ap (λ t. bit_or t (d / 2)) half,
      bit_or_low_part k b (c / 2) (d / 2) (omega (arith, two-pow-succ k))
          (omega (arith, two-pow-succ k)),
      bit_or_step c d,
    )
