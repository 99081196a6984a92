-- ===== src/Stack/Watermark.antt =====
-- `thread_stack_high_watermark_bytes` of src/thread.cc measures the deepest byte that was written.
use micro_kernel_using_c_plu.Prelude.{ℕ, zero, suc, ◌+◌, ◌-◌, ◌≤◌, ◌<◌, ◌≡◌, ◌≢◌, arith}
use micro_kernel_using_c_plu.Stack.{
  Memory, stack_watermark, stack_guard_bytes, count_unused, stack_high_watermark_bytes,
}

count_unused-le : (n : ℕ) (m : Memory) (at : ℕ) → count_unused n m at ≤ n
unfolding count_unused
count_unused-le zero m at = omega arith
count_unused-le (suc n) m at = ground (arith, count_unused-le n m (at + 1))

count_unused-clean :
    (n : ℕ) (m : Memory) (at j : ℕ) → j < count_unused n m at → m (at + j) ≡ stack_watermark
unfolding count_unused
count_unused-clean zero m at j h = absurd (omega arith)
count_unused-clean (suc n) m at zero h = ground arith
count_unused-clean (suc n) m at (suc j) h = ground (arith, count_unused-clean n m (at + 1) j)

count_unused-stop :
    (n : ℕ) (m : Memory) (at : ℕ)
    → count_unused n m at < n
    → m (at + count_unused n m at) ≢ stack_watermark
unfolding count_unused
count_unused-stop zero m at h = absurd (omega arith)
count_unused-stop (suc n) m at h = ground (arith, count_unused-stop n m (at + 1))

pub used_eq :
    (m : Memory) (base size : ℕ)
    → base ≢ 0
    → stack_guard_bytes < size
    → stack_high_watermark_bytes m base size
      ≡ size
        - stack_guard_bytes
        - count_unused (size - stack_guard_bytes) m (base + stack_guard_bytes)
unfolding stack_high_watermark_bytes
used_eq m base size nn big =
    ground (arith, count_unused-le (size - stack_guard_bytes) m (base + stack_guard_bytes))

-- Of a stack of more than 64 bytes, the count of used bytes is exact: all bytes above the guard and
-- below the used part hold the watermark, and the lowest used byte does not.
pub stack_high_watermark_bytes-exact :
    (m : Memory) (base size : ℕ)
    → base ≢ 0
    → stack_guard_bytes < size
    → let used = stack_high_watermark_bytes m base size in
      (used ≤ size - stack_guard_bytes)
      × ((j : ℕ)
          → j + used < size - stack_guard_bytes
          → m (base + stack_guard_bytes + j) ≡ stack_watermark)
      × (0 < used → m (base + size - used) ≢ stack_watermark)
stack_high_watermark_bytes-exact m base size nn big = (
  omega (arith, used_eq m base size nn big),
  (λ j h. clean (base + stack_guard_bytes) j (omega (arith, used_eq m base size nn big))),
  λ pos e. ground (
    arith,
    used_eq m base size nn big,
    count_unused-stop (size - stack_guard_bytes) m (base + stack_guard_bytes),
  ),
)
  where
    clean :
        (at j : ℕ) → j < count_unused (size - stack_guard_bytes) m at → m (at + j) ≡ stack_watermark
    clean at j h = count_unused-clean (size - stack_guard_bytes) m at j h
