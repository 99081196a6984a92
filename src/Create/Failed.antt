-- ===== src/Create/Failed.antt =====
-- thread_create_prio of src/thread.cc where the heap has no room for the stack.
use mathlib.Core.Path.{subst}
use micro_kernel_using_c_plu.Prelude.{
  ℕ, ◌+◌, ◌-◌, ◌<◌, ◌^◌, ◌≡◌, ◌≢◌, refl, ap, ◌∙◌, Bool, true, false, ltb, ==-false, none, some,
  List, ◌∷◌, arith,
}
use micro_kernel_using_c_plu.Prelude.Int.{ℤ}
use micro_kernel_using_c_plu.Prelude.Store.{Ptr, null, length}
use micro_kernel_using_c_plu.Kmem.{Heap, kmem_alloc_aligned}
use micro_kernel_using_c_plu.Pool.{PoolState, mem_pool_alloc, mem_pool_free, mem_pool_owns}
use micro_kernel_using_c_plu.Pool.Blocks.{
  IsPool, Freed, accepts, mem_pool_alloc-Allocated, mem_pool_alloc-accepts, mem_pool_free-Freed,
}
use micro_kernel_using_c_plu.Create.{
  Machine, stack_guard_page_bytes, create_in, place_stack, release_thread, thread_create_prio,
  clear_thread,
}
use micro_kernel_using_c_plu.Create.Created.{alloc_thread_lem}

-- The block given back is free again, in front of the others.
released :
    (debug : Bool) (f : ℕ) (s : PoolState) (t : Ptr) (xs : List Ptr)
    → IsPool s (t ∷ xs)
    → length xs < f
    → (r : ℤ × PoolState) × (mem_pool_free debug f t (mem_pool_alloc s).1 ≡ some r)
      × IsPool r.1 (t ∷ xs)
released debug f s t xs is fuel =
    let got = mem_pool_alloc-Allocated s (t ∷ xs) is in
    let s' = (mem_pool_alloc s).1 in
    let (r, e, back) = mem_pool_free-Freed debug f s' t xs got.1 fuel in
    let fresh = subst (λ z. Freed debug s' xs t (accepts s' t) z r) is.distinct.0 back in
    let good =
      subst (λ z. Freed debug s' xs t z false r) (mem_pool_alloc-accepts s t xs is) fresh in
    (r, e, good.1)

-- If there is a free block for the thread but no room on the heap for its stack, thread_create_prio
-- gives null, with the block in front of the free list again. Of the kernel only the struct in that
-- block has changed, which is zeroed; the memory, the page tables and the next thread's number are
-- as they were.
pub thread_create_prio-fails :
    (debug : Bool) (f lr entry arg stack_size : ℕ) (p : ℤ) (m : Machine) (t : Ptr) (xs : List Ptr)
    (h : Heap)
    → entry ≢ 0
    → stack_size ≢ 0
    → stack_size + stack_guard_page_bytes < 2 ^ 64
    → length xs < f
    → m.pool_inited ≡ true
    → IsPool m.pool (t ∷ xs)
    → kmem_alloc_aligned (stack_size + stack_guard_page_bytes) stack_guard_page_bytes m.heap
      ≡ (none, h)
    → (m' : Machine) × (thread_create_prio debug f lr entry arg stack_size p m ≡ some (null, m'))
      × IsPool m'.pool (t ∷ xs)
      × (m'.kernel ≡ (clear_thread t m).kernel)
      × (m'.memory ≡ m.memory)
      × (m'.tables ≡ m.tables)
      × (m'.next_thread_id ≡ m.next_thread_id)
unfolding clear_thread thread_create_prio create_in place_stack release_thread
thread_create_prio-fails debug f lr entry arg stack_size p m t xs h ne ns fits fuel inited is
      refused =
    let s' = (mem_pool_alloc m.pool).1 in
    let (r, e, back) = released debug f m.pool t xs is fuel in
    let accepted = mem_pool_alloc-accepts m.pool t xs is in
    let owned : mem_pool_owns s'.pool t ≡ true = ground arith in
    let below : ltb (2 ^ 64 - 1 - stack_guard_page_bytes) stack_size ≡ false = ground arith in
    (
      record (clear_thread t m) { pool = r.1; heap = h },
      rw (==-false entry 0 ne, ==-false stack_size 0 ns)
          (ap (create_in debug f lr entry arg stack_size p) (alloc_thread_lem m t xs inited is)
            ∙ rw (==-false t null is.chain.1, below)
                (ap
                    (place_stack debug f lr entry arg stack_size p t
                      (clear_thread t (record m { pool = s' })))
                    refused
                  ∙ rw (inited, owned, e) refl)),
      back,
      refl,
      refl,
      refl,
      refl,
    )
