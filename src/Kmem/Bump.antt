-- ===== src/Kmem/Bump.antt =====
-- What `kmem_alloc_aligned` of src/kmem.cc hands out.
use micro_kernel_using_c_plu.Prelude.{
  Option, ℕ, ◌+◌, ◌%◌, ◌^◌, ◌≤◌, ◌<◌, ◌≡◌, refl, true, none, some, ltb, inl, inr, Bool-cases, arith,
}
use micro_kernel_using_c_plu.Prelude.Align.{is_pow2, align_up, align_up_lem}
use micro_kernel_using_c_plu.Kmem.{Heap, kmem_align, kmem_alloc_aligned}

kmem_align_lem :
    (a : ℕ)
    → is_pow2 a ≡ true
    → (16 ≤ kmem_align a)
      × (a ≤ kmem_align a)
      × (is_pow2 (kmem_align a) ≡ true)
      × (kmem_align a ≤ a + 16)
unfolding kmem_align is_pow2
kmem_align_lem a p = elim (Bool-cases (ltb a 16)) [
  | inl small ↦ rw (small, sixteen) (omega arith, ground arith, sixteen, omega arith)
  | inr big ↦ rw (big, p) (ground arith, omega arith, p, omega arith)
]
  where
    sixteen : is_pow2 16 ≡ true
    sixteen = refl

-- What an answer of the allocator means: a block at an aligned address inside the heap, behind all
-- that was handed out before; or no change, if the block does not fit.
abbrev pub Answer : Heap → ℕ → ℕ → Option ℕ × Heap → Type 0
Answer h sz a (none, h') = (h' ≡ h) × (h.end < align_up h.cur (kmem_align a) + sz)
Answer h sz a (some p, h') =
    (h.cur ≤ p)
    × (p % kmem_align a ≡ 0)
    × (a ≤ kmem_align a)
    × (p + sz ≤ h.end)
    × (h' ≡ record { cur = p + sz; end = h.end })

-- With a power of two as the alignment, and a request that does not wrap round the address space,
-- the answer is an aligned block inside the heap behind all others, or no change if none fits.
pub kmem_alloc_aligned-Answer :
    (h : Heap) (sz a : ℕ)
    → is_pow2 a ≡ true
    → h.cur + (a + 16) + sz < 2 ^ 64
    → Answer h sz a (kmem_alloc_aligned sz a h)
unfolding kmem_alloc_aligned
kmem_alloc_aligned-Answer h sz a p room =
    let al = kmem_align_lem a p in
    let up = align_up_lem h.cur (kmem_align a) (omega arith) (omega arith) al.2 (omega arith) in
    let top : (align_up h.cur (kmem_align a) + sz) % 2 ^ 64 ≡ align_up h.cur (kmem_align a) + sz =
      omega arith in
    elim (Bool-cases (ltb h.end (align_up h.cur (kmem_align a) + sz))) [
      | inl full ↦ rw (top, full) (refl, ground arith)
      | inr fits ↦ rw (top, fits) (up.0, up.2, al.1, ground arith, refl)
    ]

-- The test misses a request so large that its end wraps round to an address inside the heap: the
-- block is granted, and the next free address moves down below it.
pub kmem_alloc_aligned-wraps :
    (h : Heap) (sz a : ℕ)
    → let p = align_up h.cur (kmem_align a) in
      p < 2 ^ 64
      → sz < 2 ^ 64
      → 2 ^ 64 ≤ p + sz
      → p + sz ≤ 2 ^ 64 + h.end
      → ((kmem_alloc_aligned sz a h).0 ≡ some p) × ((kmem_alloc_aligned sz a h).1.cur < p)
unfolding kmem_alloc_aligned
kmem_alloc_aligned-wraps h sz a hp hs over inside = ground arith
