-- ===== src/Create/Stacked.antt =====
-- The stack that thread_create_prio of src/thread.cc prepares for a new thread.
use micro_kernel_using_c_plu.Prelude.{
  ℕ, zero, suc, ◌+◌, ◌-◌, ◌*◌, ◌/◌, ◌%◌, ◌^◌, ◌≤◌, ◌<◌, ◌≡◌, ◌≢◌, ◌⊎◌, refl, ap, sym, Bool, true,
  some, List, ◌∷◌, leb, ltb, ◌&&◌, ◌||◌, ◌==◌, false, if◌then◌else◌, arith,
}
use mathlib.Core.Path.{subst}
use micro_kernel_using_c_plu.Prelude.Int.{ℤ}
use micro_kernel_using_c_plu.Prelude.Store.{Ptr}
use micro_kernel_using_c_plu.Prelude.Align.{is_pow2, align_down, align_down-IsRounded}
use micro_kernel_using_c_plu.Kmem.{Heap, kmem_alloc_aligned}
use micro_kernel_using_c_plu.Pool.Blocks.{IsPool}
use micro_kernel_using_c_plu.Stack.{
  Memory, stack_watermark, stack_guard_bytes, guard_size, store64, stack_guard_ok,
  stack_init_guard_and_watermark,
}
use micro_kernel_using_c_plu.Stack.Guard.{init_lem, Intact-check_guard}
use micro_kernel_using_c_plu.Create.{
  Machine, stack_guard_page_bytes, push_pairs, thread_create_prio,
}
use micro_kernel_using_c_plu.Create.Created.{IsCreated, thread_create_prio-IsCreated}

-- A byte of the word v at p.
abbrev word_byte : ℕ → ℕ → ℕ → ℕ
word_byte v p x = v / 2 ^ ((x - p) * 8) % 256

zero_byte : (y : ℕ) → 0 / y % 256 ≡ 0
zero_byte zero = refl
zero_byte (suc y) = omega arith

store64-zero :
    (m : Memory) (p x : ℕ) → store64 m p 0 x ≡ (if leb p x && ltb x (p + 8) then 0 else m x)
unfolding store64
store64-zero m p x = ground (arith, zero_byte (2 ^ ((x - p) * 8)))

-- n + 1 pairs of words below `sp`: zeros, but the second word of the last pair.
push_pairs_lem :
    (n sp lr : ℕ) (m : Memory) (x : ℕ)
    → 16 * n + 16 ≤ sp
    → let low = sp - (16 * n + 16) in
      push_pairs (suc n) sp lr m x ≡ (
        if leb low x && ltb x sp
        then (if leb (low + 8) x && ltb x (low + 16) then word_byte lr (low + 8) x else 0)
        else m x)
unfolding push_pairs store64
push_pairs_lem zero sp lr m x fits =
    let at : sp - 8 ≡ sp - 16 + 8 = omega arith in
    ground (arith, store64-zero m (sp - 16) x, ap (λ z. word_byte lr z x) at)
push_pairs_lem (suc n) sp lr m x fits = ground (
  arith,
  push_pairs_lem n (sp - 16) lr (store64 (store64 m (sp - 16) 0) (sp - 8) 0) x (omega arith),
  store64-zero m (sp - 16) x,
  store64-zero (store64 m (sp - 16) 0) (sp - 8) x,
)

-- What the memory m' holds for a stack at `base` with the first frame of the thread below `top`,
-- where 12 words are restored from at the first switch: zeros, but the address `lr`, where the
-- thread starts, in the last pair.
pub record IsStacked (m m' : Memory) (lr base size top : ℕ) : Type 0 where
  pub below : top ≤ base + size
  pub near : base + size < top + 16
  pub aligned : top % 16 ≡ 0
  pub guard : stack_guard_ok m' base size ≡ true
  pub unused : (x : ℕ) → base + stack_guard_bytes ≤ x → x < top - 96 → m' x ≡ stack_watermark
  pub start : (i : ℕ) → i < 8 → m' (top - 88 + i) ≡ lr / 2 ^ (i * 8) % 256
  pub zeros : (x : ℕ) → (top - 96 ≤ x) → (x < top - 88) ⊎ (top - 80 ≤ x) → x < top → m' x ≡ 0
  pub outside : (x : ℕ) → (x < base) ⊎ (base + size ≤ x) → m' x ≡ m x

stacked :
    (m : Memory) (lr base size : ℕ)
    → base ≢ 0
    → 176 ≤ size
    → base + size < 2 ^ 64
    → let top = align_down (base + size) 16 in
      IsStacked m
        (push_pairs 6 top lr (stack_init_guard_and_watermark m base size))
        lr
        base
        size
        top
unfolding is_pow2 guard_size stack_guard_ok
stacked m lr base size nb big fits =
    let top = align_down (base + size) 16 in
    let fresh = stack_init_guard_and_watermark m base size in
    let r = align_down-IsRounded (base + size) 16 fits (omega arith) refl in
    let full : 16 * 5 + 16 ≤ top = omega (arith, r.near, r.below) in
    let some_size : size ≢ 0 = omega arith in
    let at = λ (x : ℕ). push_pairs_lem 5 top lr fresh x full in
    let old = λ (x : ℕ). init_lem m base size x nb some_size in
    let g = guard_size size in
    let g64 : g ≡ 64 = ground arith in
    let open_tests : ((base == 0) || (size == 0)) ≡ false = ground arith in
    record {
      below = r.below;
      near = r.near;
      aligned = omega (arith, r.multiple);
      guard = rw open_tests (
          Intact-check_guard ((g + 7) / 8) (push_pairs 6 top lr fresh) base g 0
            (λ a lt. ground (arith, at (base + a), old (base + a), r.near, r.below, lt))
            (omega arith) (omega arith));
      unused = λ x lo hi. ground (arith, at x, old x, r.near, r.below);
      start = λ i lt.
          let shift : top - 88 + i - (top - 96 + 8) ≡ i = omega (arith, r.near, r.below) in
          ground
            (arith, at (top - 88 + i), r.near, r.below, ap (λ z. lr / 2 ^ (z * 8) % 256) shift);
      zeros = λ x lo out hi. ground (arith, at x, r.near, r.below);
      outside = λ x out. ground (arith, at x, old x, r.near, r.below);
    }

-- Where thread_create_prio takes the thread from the pool and the heap has room for a stack of at
-- least 176 bytes, at an address below 2 ^ 64, it makes a thread with the entry, the argument, the
-- priorities (clamped), the slice, the number and the stack that IsCreated lists, READY and not
-- linked yet, and changes no other thread. Its stack has an intact guard, watermarks up to the
-- frame, and below its top, rounded down to 16, the frame with `lr` as the address to start at; no
-- byte outside the stack changes.
pub thread_create_prio-IsStacked :
    (debug : Bool) (f lr entry arg stack_size : ℕ) (p : ℤ) (m : Machine) (t : Ptr) (xs : List Ptr)
    (a : ℕ) (h : Heap)
    → entry ≢ 0
    → 176 ≤ stack_size
    → a + stack_guard_page_bytes + stack_size < 2 ^ 64
    → m.pool_inited ≡ true
    → IsPool m.pool (t ∷ xs)
    → kmem_alloc_aligned (stack_size + stack_guard_page_bytes) stack_guard_page_bytes m.heap
      ≡ (some a, h)
    → (m' : Machine) × (thread_create_prio debug f lr entry arg stack_size p m ≡ some (t, m'))
      × IsCreated m m' lr entry arg stack_size p t xs a h
      × IsStacked m.memory m'.memory lr
          (m'.kernel.thread t).stack_base
          stack_size
          (align_down ((m'.kernel.thread t).stack_base + stack_size) 16)
thread_create_prio-IsStacked debug f lr entry arg stack_size p m t xs a h ne big fits inited is
      granted =
    let (m', made, created) =
      thread_create_prio-IsCreated debug f lr entry arg stack_size p m t xs a h ne (omega arith)
        (omega arith) inited is granted in
    let base = a + stack_guard_page_bytes in
    let there : IsStacked m.memory m'.memory lr base stack_size
        (align_down (base + stack_size) 16) =
      subst (λ z. IsStacked m.memory z lr base stack_size (align_down (base + stack_size) 16))
        (sym created.memory) (stacked m.memory lr base stack_size (omega arith) big fits) in
    (
      m',
      made,
      created,
      subst (λ b. IsStacked m.memory m'.memory lr b stack_size (align_down (b + stack_size) 16))
          (sym created.stack) there,
    )
