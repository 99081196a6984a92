-- ===== src/Libc/Compare.antt =====
-- Comparing memory, src/libc.cc.
use micro_kernel_using_c_plu.Prelude.{ℕ, zero, suc, ◌+◌, ◌<◌, ◌≡◌, ◌↔◌, refl, arith}
use micro_kernel_using_c_plu.Prelude.Int.{pos}
use micro_kernel_using_c_plu.Stack.{Memory}
use micro_kernel_using_c_plu.Libc.{compare_up, memcmp}

-- The n bytes from byte i on are the same in both ranges.
abbrev Same : Memory → ℕ → ℕ → ℕ → ℕ → Type 0
Same m a b i n = (j : ℕ) → j < n → m (a + i + j) ≡ m (b + i + j)

compare_up-Same : (n a b i : ℕ) (m : Memory) → compare_up n a b i m ≡ pos 0 → Same m a b i n
unfolding compare_up
compare_up-Same zero a b i m e j lt = absurd (omega arith)
compare_up-Same (suc n) a b i m e zero lt = ground arith
compare_up-Same (suc n) a b i m e (suc j) lt =
    ground (arith, compare_up-Same n a b (i + 1) m (ground arith) j (omega arith))

Same-compare_up : (n a b i : ℕ) (m : Memory) → Same m a b i n → compare_up n a b i m ≡ pos 0
unfolding compare_up
Same-compare_up zero a b i m same = refl
Same-compare_up (suc n) a b i m same = ground (
  arith,
  same 0,
  Same-compare_up n a b (i + 1) m (λ j lt. ground (arith, same (suc j) (omega arith))),
)

-- memcmp answers 0 exactly if the two ranges hold the same bytes.
pub memcmp_iff :
    (a b n : ℕ) (m : Memory) → (memcmp a b n m ≡ pos 0) ↔ ((j : ℕ) → j < n → m (a + j) ≡ m (b + j))
unfolding memcmp
memcmp_iff a b n m = (
  (λ e j lt. ground (arith, compare_up-Same n a b 0 m e j lt)),
  λ same. Same-compare_up n a b 0 m (λ j lt. ground (arith, same j lt)),
)
