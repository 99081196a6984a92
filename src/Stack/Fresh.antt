-- ===== src/Stack/Fresh.antt =====
-- A stack as `thread_create_prio` of src/thread.cc prepares it.
use micro_kernel_using_c_plu.Prelude.{
  ℕ, zero, suc, ◌+◌, ◌-◌, ◌/◌, ◌≤◌, ◌<◌, ◌≡◌, ◌≢◌, refl, true, false, arith, ◌==◌, ◌||◌, ◌⊎◌,
}
use micro_kernel_using_c_plu.Stack.{
  Memory, stack_watermark, stack_guard_bytes, guard_size, stack_init_guard_and_watermark,
  stack_guard_ok, count_unused, stack_high_watermark_bytes,
}
use micro_kernel_using_c_plu.Stack.Guard.{init_lem, guard_size-le, Intact-check_guard}
use micro_kernel_using_c_plu.Stack.Watermark.{used_eq}

count_unused-all :
    (n : ℕ) (m : Memory) (at : ℕ)
    → ((j : ℕ) → j < n → m (at + j) ≡ stack_watermark)
    → count_unused n m at ≡ n
unfolding count_unused
count_unused-all zero m at h = refl
count_unused-all (suc n) m at h = ground (
  arith,
  h 0 (omega arith),
  count_unused-all n m (at + 1) (λ j lt. ground (arith, h (suc j) (omega arith))),
)

fresh_guard :
    (m : Memory) (base size : ℕ)
    → base ≢ 0
    → size ≢ 0
    → stack_guard_ok (stack_init_guard_and_watermark m base size) base size ≡ true
unfolding stack_guard_ok
fresh_guard m base size nb ns =
    let g = guard_size size in
    let open_tests : ((base == 0) || (size == 0)) ≡ false = ground arith in
    rw open_tests (
      Intact-check_guard ((g + 7) / 8) (stack_init_guard_and_watermark m base size) base g 0
        (λ a lt. ground (arith, init_lem m base size (base + a) nb ns)) (omega arith) (omega arith))

fresh_unused :
    (m : Memory) (base size : ℕ)
    → base ≢ 0
    → stack_guard_bytes < size
    → stack_high_watermark_bytes (stack_init_guard_and_watermark m base size) base size ≡ 0
unfolding guard_size
fresh_unused m base size nb big =
    let n = size - stack_guard_bytes in
    let m' = stack_init_guard_and_watermark m base size in
    omega (
      arith,
      used_eq m' base size nb big,
      count_unused-all n m' (base + stack_guard_bytes)
          (λ j lt. ground (arith, init_lem m base size (base + 64 + j) nb (omega arith))),
    )

-- A prepared stack of more than 64 bytes passes the test of its guard and counts no byte as used;
-- no byte outside the stack changes.
pub stack_init_lem :
    (m : Memory) (base size : ℕ)
    → base ≢ 0
    → stack_guard_bytes < size
    → let m' = stack_init_guard_and_watermark m base size in
      (stack_guard_ok m' base size ≡ true)
      × (stack_high_watermark_bytes m' base size ≡ 0)
      × ((a : ℕ) → (a < base) ⊎ (base + size ≤ a) → m' a ≡ m a)
stack_init_lem m base size nb big = (
  fresh_guard m base size nb (omega arith),
  fresh_unused m base size nb big,
  λ a out. ground (arith, init_lem m base size a nb (omega arith), guard_size-le size),
)
