-- ===== src/Examples/Memories.antt =====
-- The theorems on stacks, allocators and DMA at concrete addresses.
use micro_kernel_using_c_plu.Prelude.{
  ℕ, ◌+◌, ◌-◌, ◌≤◌, ◌<◌, ◌^◌, ◌%◌, ◌≡◌, ◌≢◌, ◌↔◌, refl, true, false, some, [], ◌∷◌, arith,
}
use micro_kernel_using_c_plu.Prelude.Store.{has, null, update}
use micro_kernel_using_c_plu.Prelude.Int.{ℤ, pos}
use micro_kernel_using_c_plu.Prelude.Align.{is_pow2, align_up, align_down}
use micro_kernel_using_c_plu.Stack.{
  Memory, stack_watermark, magic_byte, guard_size, stack_guard_ok, stack_high_watermark_bytes,
}
use micro_kernel_using_c_plu.Stack.Guard.{stack_guard_ok_iff}
use micro_kernel_using_c_plu.Stack.Watermark.{stack_high_watermark_bytes-exact}
use micro_kernel_using_c_plu.Kmem.{Heap, kmem_align, kmem_alloc_aligned}
use micro_kernel_using_c_plu.Kmem.Bump.{Answer, kmem_alloc_aligned-Answer, kmem_alloc_aligned-wraps}
use micro_kernel_using_c_plu.Pool.{
  MemPool, PoolState, mem_pool_init, mem_pool_alloc, mem_pool_owns, mem_pool_free, push_block,
  clamp_align, shift_to, fill_pool, link_blocks,
}
use micro_kernel_using_c_plu.Pool.Init.{Layout, mem_pool_init-Layout}
use micro_kernel_using_c_plu.Pool.Blocks.{
  IsPool, Freed, accepts, mem_pool_free-Freed, mem_pool_free-twice,
}
use micro_kernel_using_c_plu.Dma.{Setup, Dma}

abbrev zeros : Memory
zeros a = 0

stack_guard_ok_iff_example :
    (stack_guard_ok zeros 4096 128 ≡ true)
    ↔ ((a : ℕ) → a < guard_size 128 → zeros (4096 + a) ≡ magic_byte (a % 8))
stack_guard_ok_iff_example =
    stack_guard_ok_iff zeros 4096 128 (λ a. omega arith) (omega arith) (omega arith)

stack_high_watermark_bytes-exact_example :
    let used = stack_high_watermark_bytes zeros 4096 128 in
    (used ≤ 64)
    × ((j : ℕ) → j + used < 64 → zeros (4160 + j) ≡ stack_watermark)
    × (0 < used → zeros (4224 - used) ≢ stack_watermark)
stack_high_watermark_bytes-exact_example =
    stack_high_watermark_bytes-exact zeros 4096 128 (omega arith) (omega arith)

abbrev heap : Heap
heap = record { cur = 4100; end = 8192 }

kmem_alloc_aligned-Answer_example : Answer heap 100 64 (kmem_alloc_aligned 100 64 heap)
unfolding is_pow2
kmem_alloc_aligned-Answer_example = kmem_alloc_aligned-Answer heap 100 64 refl (omega arith)

abbrev pool : MemPool
pool = record { base = 4096; block_size = 32; block_count = 3; free_list = 4096; free_count = 2 }

-- Block 4160 is in use.
abbrev pool_state : PoolState
pool_state = record { pool = pool; links = update (λ a. 0) 4096 4128 }

pool_state-IsPool : IsPool pool_state (4096 ∷ 4128 ∷ [])
unfolding mem_pool_owns
pool_state-IsPool = record {
  chain = (refl, omega arith, (refl, omega arith, refl));
  distinct = (refl, (refl, tt));
  owned = λ a h. ground (arith, h);
  counted = refl;
  bounded = omega arith;
}

mem_pool_free-Freed_example :
    (r : ℤ × PoolState) × (mem_pool_free true 3 4160 pool_state ≡ some r)
    × Freed true pool_state
        (4096 ∷ 4128 ∷ [])
        4160
        (accepts pool_state 4160)
        (has 4160 (4096 ∷ 4128 ∷ []))
        r
mem_pool_free-Freed_example =
    mem_pool_free-Freed true 3 pool_state 4160 (4096 ∷ 4128 ∷ []) pool_state-IsPool (omega arith)

mem_pool_free-twice_example :
    let s = push_block 4096 pool_state in
    (mem_pool_free false 3 4096 pool_state ≡ some (pos 0, s))
    × ((mem_pool_alloc s).0 ≡ 4096)
    × ((mem_pool_alloc (mem_pool_alloc s).1).0 ≡ 4096)
mem_pool_free-twice_example =
    mem_pool_free-twice 3 pool_state 4096 (4128 ∷ []) pool_state-IsPool (omega arith)

abbrev setup : Setup
setup = record {
  noncacheable = false;
  window_start = 0x4100_0000;
  window_end = 0x4110_0000;
  translation = true;
}

abbrev dma : Dma
dma = record {
  desc = λ p. record { src = 0; dst = 0; len = 0; status = 0; cb = 0; user = 0; next = null };
  memory = zeros;
  desc_next = 0x4100_0004;
  buf_end = 0x4110_0000;
  pending_head = null;
  pending_tail = null;
  maintenance = [];
}

abbrev fresh_pool : PoolState
fresh_pool = record {
  pool = record { base = 4096; block_size = 32; block_count = 3; free_list = 4160; free_count = 3 };
  links = update (update (update (λ a. 0) 4096 0) 4128 4096) 4160 4128;
}

mem_pool_init-Layout_example : Layout 4090 110 20 fresh_pool
unfolding mem_pool_init clamp_align shift_to fill_pool link_blocks is_pow2 align_up align_down
mem_pool_init-Layout_example =
    mem_pool_init-Layout 4090 110 20 (λ a. 0) fresh_pool (omega arith) (omega arith) refl

abbrev huge : ℕ
huge = 2 ^ 64 - 1000

kmem_alloc_aligned-wraps_example :
    let p = align_up heap.cur (kmem_align 16) in
    ((kmem_alloc_aligned huge 16 heap).0 ≡ some p) × ((kmem_alloc_aligned huge 16 heap).1.cur < p)
unfolding kmem_align align_up align_down is_pow2
kmem_alloc_aligned-wraps_example =
    kmem_alloc_aligned-wraps heap huge 16 (omega arith) (omega arith) (omega arith) (omega arith)
