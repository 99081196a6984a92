-- ===== src/Kmem.antt =====
-- src/kmem.cc: the bump allocator over the kernel heap. `_heap_start` and `_heap_end`, which the
-- linker gives, are arguments of `kmem_init`. Addresses are 64 bits wide and wrap round.
pub mod Bump
use Prim.Native.Nat.{bit_or}
use micro_kernel_using_c_plu.Prelude.{
  ℕ, ◌+◌, ◌-◌, ◌/◌, ◌%◌, ◌^◌, Bool, true, false, not, Option, none, some, ltb, leb, if◌then◌else◌,
}
use micro_kernel_using_c_plu.Prelude.Align.{is_pow2, align_up}

pub record Heap : Type 0 where
  pub cur : ℕ
  pub end : ℕ

-- `a |= a >> s`
pub smear : ℕ → ℕ → ℕ
smear s a = bit_or a (a / 2 ^ s)

pub round_up_pow2 : ℕ → ℕ
round_up_pow2 a =
    if leb a 1
    then 1
    else (smear 32 (smear 16 (smear 8 (smear 4 (smear 2 (smear 1 (a - 1)))))) + 1) % 2 ^ 64

pub kmem_init : ℕ → ℕ → Heap
kmem_init heap_start heap_end = record { cur = heap_start; end = heap_end }

-- The alignment in use: at least 16, and a power of two.
unfoldable pub kmem_align : ℕ → ℕ
kmem_align align =
    let a = if ltb align 16 then 16 else align in if not (is_pow2 a) then round_up_pow2 a else a

-- `p + sz > end`, and `cur = p + sz`, in 64 bits.
unfoldable pub kmem_alloc_aligned : ℕ → ℕ → Heap → Option ℕ × Heap
kmem_alloc_aligned sz align h =
    let p = align_up h.cur (kmem_align align) in
    let top = (p + sz) % 2 ^ 64 in
    if ltb h.end top then (none, h) else (some p, record h { cur = top })
