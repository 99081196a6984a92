-- ===== src/Prelude/Digits.antt =====
-- `bit_and` with the lowest digits set, and with digits that the word has not.
use Prim.Native.Nat.{ℕ, zero, suc, ◌*◌, ◌/◌, ◌%◌, ◌^◌, ◌<◌, bit_and, bit_and-bitwise}
use mathlib.Core.Path.{◌≡◌, ap}
use native.Mathlib.Omega.{arith}
use native.Mathlib.Nat.{two-pow-succ}
use micro_kernel_using_c_plu.Prelude.Bits.{bit_and_step, bit_and-zero}

pub bit_and_three : (x : ℕ) → bit_and x 3 ≡ x % 4
bit_and_three x = omega (arith, bit_and_step x 3, bit_and_step (x / 2) 1, bit_and-zero (x / 2 / 2))

pub bit_and_seven : (x : ℕ) → bit_and x 7 ≡ x % 8
bit_and_seven x = omega (arith, bit_and_step x 7, bit_and_three (x / 2))

pub bit_and_high : (k x y : ℕ) → x < 2 ^ k → bit_and x (y * 2 ^ k) ≡ 0
bit_and_high zero zero y h = omega (arith, bit_and-bitwise 0 (y * 1))
bit_and_high zero (suc x) y h = absurd (omega arith)
bit_and_high (suc k) x y h =
    let half : y * 2 ^ suc k / 2 ≡ y * 2 ^ k =
      omega (arith, ap (λ (t : ℕ). y * t) (two-pow-succ k)) in
    omega (
      arith,
      two-pow-succ k,
      ap (λ (t : ℕ). y * t) (two-pow-succ k),
      bit_and_step x (y * 2 ^ suc k),
      ap (bit_and (x / 2)) half,
      bit_and_high k (x / 2) y (omega (arith, two-pow-succ k)),
    )
