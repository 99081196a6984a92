-- ===== src/Prelude/Align.antt =====
-- Rounding addresses by masks: `x & ~(a - 1)` where a is a power of two.
use Prim.Native.Nat.{ℕ, zero, suc, ◌+◌, ◌-◌, ◌*◌, ◌/◌, ◌%◌, ◌^◌, ◌≤◌, ◌<◌, bit_and}
use mathlib.Core.Path.{◌≡◌, ap, sym, subst, ◌∙◌}
use mathlib.Core.Logic.{◌≢◌}
use mathlib.Core.Bool.{Bool, true, ◌&&◌, not}
use native.Mathlib.Omega.{arith}
use native.Mathlib.Nat.{two-pow-succ, mul-mod_left}
use native.Mathlib.Decide.{ℕ_discrete}
use micro_kernel_using_c_plu.Prelude.Tests.{◌==◌}
use micro_kernel_using_c_plu.Prelude.Bits.{bit_and_step, bit_and-zero}

one-le-two_pow : (k : ℕ) → 1 ≤ 2 ^ k
one-le-two_pow zero = omega arith
one-le-two_pow (suc k) = omega (arith, two-pow-succ k, one-le-two_pow k)

-- All ones keep a word.
bit_and-ones : (w x : ℕ) → x < 2 ^ w → bit_and x (2 ^ w - 1) ≡ x
bit_and-ones zero x h = omega (arith, bit_and-zero x)
bit_and-ones (suc w) x h = omega (
  arith,
  two-pow-succ w,
  one-le-two_pow w,
  bit_and_step x (2 ^ suc w - 1),
  half_ones w,
  bit_and-ones w (x / 2) (omega (arith, two-pow-succ w)),
  ap (bit_and (x / 2)) (half_ones w),
)
  where
    half_ones : (v : ℕ) → (2 ^ suc v - 1) / 2 ≡ 2 ^ v - 1
    half_ones v = omega (arith, two-pow-succ v, one-le-two_pow v)

-- `y` is `x` rounded down to a multiple of `a`.
pub record IsRounded (a x y : ℕ) : Type 0 where
  pub below : y ≤ x
  pub near : x < y + a
  pub count : ℕ
  pub multiple : y ≡ count * a

half_mask : (k w : ℕ) → (2 ^ suc w - 2 ^ suc k) / 2 ≡ 2 ^ w - 2 ^ k
half_mask k w = omega (arith, two-pow-succ w, two-pow-succ k)

pub mask-IsRounded :
    (k n w x : ℕ) → w ≡ k + n → x < 2 ^ w → IsRounded (2 ^ k) x (bit_and x (2 ^ w - 2 ^ k))
mask-IsRounded zero n w x e h =
    let same = bit_and-ones w x h in
    record {
      below = omega (arith, same);
      near = omega (arith, same);
      count = x;
      multiple = omega (arith, same);
    }
mask-IsRounded (suc k) n zero x e h = absurd (omega arith)
mask-IsRounded (suc k) n (suc w) x e h =
    let i = mask-IsRounded k n w (x / 2) (omega arith) (omega (arith, two-pow-succ w)) in
    let step = bit_and_step x (2 ^ suc w - 2 ^ suc k) in
    let half = ap (bit_and (x / 2)) (half_mask k w) in
    let even : (2 ^ suc w - 2 ^ suc k) % 2 ≡ 0 = omega (arith, two-pow-succ w, two-pow-succ k) in
    record {
      below = omega (arith, step, half, i.below);
      near = omega (arith, step, half, i.near, two-pow-succ k);
      count = i.count;
      multiple =
          omega (arith, step, half, i.multiple, ap (λ (t : ℕ). i.count * t) (two-pow-succ k));
    }

unfoldable pub is_pow2 : ℕ → Bool
is_pow2 v = not (v == 0) && (bit_and v (v - 1) == 0)

bit_and_self : (f x : ℕ) → x ≤ f → bit_and x x ≡ x
bit_and_self zero zero h = bit_and-zero 0
bit_and_self zero (suc x) h = absurd (omega arith)
bit_and_self (suc f) zero h = omega (arith, bit_and-zero 0)
bit_and_self (suc f) (suc x) h =
    omega (arith, bit_and_step (suc x) (suc x), bit_and_self f (suc x / 2) (omega arith))

pow2_fuel : (f v : ℕ) → v ≤ f → v ≢ 0 → bit_and v (v - 1) ≡ 0 → (k : ℕ) × (v ≡ 2 ^ k)
pow2_fuel zero v h nz e = absurd (omega arith)
pow2_fuel (suc f) v h nz e = elim (ℕ_discrete (v % 2) 0) [
  | yes even ↦
      let half : (v - 1) / 2 ≡ v / 2 - 1 = omega arith in
      let (k, p) =
        pow2_fuel f (v / 2) (omega arith) (omega arith)
          (omega (arith, bit_and_step v (v - 1), ap (bit_and (v / 2)) half)) in
      (suc k, omega (arith, two-pow-succ k))
  | no odd ↦
      let half : (v - 1) / 2 ≡ v / 2 = omega arith in
      (
        0,
        omega (
          arith,
          bit_and_step v (v - 1),
          ap (bit_and (v / 2)) half,
          bit_and_self v (v / 2) (omega arith),
        ),
      )
]

-- The test passes only at powers of two.
pub is_pow2-pow : (v : ℕ) → is_pow2 v ≡ true → (k : ℕ) × (v ≡ 2 ^ k)
unfolding is_pow2
is_pow2-pow v h = pow2_fuel v v (omega arith) (ground arith) (ground arith)

two_pow-lt : (k w : ℕ) → 2 ^ k < 2 ^ w → k < w
two_pow-lt zero zero h = absurd (omega arith)
two_pow-lt zero (suc w) h = omega arith
two_pow-lt (suc k) zero h = absurd (omega (arith, two-pow-succ k, one-le-two_pow k))
two_pow-lt (suc k) (suc w) h =
    let r = two_pow-lt k w (omega (arith, two-pow-succ k, two-pow-succ w)) in omega arith

-- `x & ~(a - 1)` in 64 bits.
unfoldable pub align_down : ℕ → ℕ → ℕ
align_down x a = bit_and x (2 ^ 64 - a)

-- `(v + a - 1) & ~(a - 1)` in 64 bits.
unfoldable pub align_up : ℕ → ℕ → ℕ
unfolding align_down
align_up v a = align_down ((v + a - 1) % 2 ^ 64) a

pub align_down-IsRounded :
    (x a : ℕ) → x < 2 ^ 64 → a < 2 ^ 64 → is_pow2 a ≡ true → IsRounded a x (align_down x a)
unfolding align_down
align_down-IsRounded x a hx ha p =
    let (k, e) = is_pow2-pow a p in
    let lt : k < 64 = two_pow-lt k 64 (omega arith) in
    subst (λ b. IsRounded b x (bit_and x (2 ^ 64 - b))) (sym e)
      (mask-IsRounded k (64 - k) 64 x (omega arith) hx)

-- Without overflow, rounding up gives the next multiple.
pub align_up_lem :
    (v a : ℕ)
    → v + a - 1 < 2 ^ 64
    → a < 2 ^ 64
    → is_pow2 a ≡ true
    → 0 < a
    → (v ≤ align_up v a) × (align_up v a < v + a) × (align_up v a % a ≡ 0)
unfolding align_up
align_up_lem v a fits ha p pos =
    let small : (v + a - 1) % 2 ^ 64 ≡ v + a - 1 = omega arith in
    let r = align_down-IsRounded (v + a - 1) a fits ha p in
    rw small (
      omega (arith, r.near),
      omega (arith, r.below),
      ap (λ t. t % a) r.multiple ∙ mul-mod_left r.count a,
    )
