-- ===== src/Create/Created.antt =====
-- A thread that thread_create_prio of src/thread.cc makes.
use micro_kernel_using_c_plu.Prelude.{
  ℕ, ◌+◌, ◌-◌, ◌<◌, ◌^◌, ◌≡◌, ◌≢◌, refl, ap, ◌∙◌, Bool, true, false, ltb, ==-false, some, List, ◌∷◌,
  arith,
}
use micro_kernel_using_c_plu.Prelude.Int.{ℤ}
use micro_kernel_using_c_plu.Prelude.Store.{Ptr, null}
use micro_kernel_using_c_plu.Kernel.{ready, trampoline}
use micro_kernel_using_c_plu.Kmem.{Heap, kmem_alloc_aligned}
use micro_kernel_using_c_plu.Pool.{mem_pool_alloc}
use micro_kernel_using_c_plu.Pool.Blocks.{IsPool, mem_pool_alloc-Allocated}
use micro_kernel_using_c_plu.Sched.{quantum_ticks}
use micro_kernel_using_c_plu.Sched.Priority.{IsPriority, clamp_priority-le}
use micro_kernel_using_c_plu.Prelude.Align.{align_down}
use micro_kernel_using_c_plu.Stack.{stack_init_guard_and_watermark}
use micro_kernel_using_c_plu.Mmu.{mmu_guard_page}
use micro_kernel_using_c_plu.Sched.{clamp_priority}
use micro_kernel_using_c_plu.Create.{
  Machine, stack_guard_page_bytes, push_pairs, alloc_thread, clear_thread, create_in, place_stack,
  new_thread, set_up_thread, thread_create_prio,
}

-- The thread stands in the first free block of the pool, ready, with its priority in range, a full
-- time slice and a stack behind its guard page; no other thread changes, and the rest of the pool
-- stays free.
pub record IsCreated (m m' : Machine) (lr entry arg stack_size : ℕ) (p : ℤ) (t : Ptr)
    (xs : List Ptr) (a : ℕ) (h : Heap) : Type 0 where
  pub pool : IsPool m'.pool xs
  pub is_ready : (m'.kernel.thread t).state ≡ ready
  pub starts : (m'.kernel.thread t).resume ≡ trampoline
  pub enters : (m'.kernel.thread t).entry ≡ entry
  pub passes : (m'.kernel.thread t).arg ≡ arg
  pub priority : IsPriority (m'.kernel.thread t)
  pub base : (m'.kernel.thread t).base_priority ≡ clamp_priority p
  pub effective : (m'.kernel.thread t).effective_priority ≡ clamp_priority p
  pub size : (m'.kernel.thread t).stack_size ≡ stack_size
  pub budget : (m'.kernel.thread t).budget ≡ quantum_ticks
  pub stack : (m'.kernel.thread t).stack_base ≡ a + stack_guard_page_bytes
  pub unlinked : (m'.kernel.thread t).next ≡ null
  pub id : (m'.kernel.thread t).id ≡ m.next_thread_id
  pub next_id : m'.next_thread_id ≡ m.next_thread_id + 1
  pub others : (b : Ptr) → b ≢ t → m'.kernel.thread b ≡ m.kernel.thread b
  pub kept : m'.kernel ≡ record (m.kernel) { thread = m'.kernel.thread }
  pub memory :
      m'.memory
      ≡ push_pairs 6
          (align_down (a + stack_guard_page_bytes + stack_size) 16)
          lr
          (stack_init_guard_and_watermark m.memory (a + stack_guard_page_bytes) stack_size)
  pub heap : m'.heap ≡ h
  pub inited : m'.pool_inited ≡ m.pool_inited
  pub place : m'.place ≡ m.place
  pub tables : m'.tables ≡ (mmu_guard_page m.place m.mmu_on a m.tables).1

pub alloc_thread_lem :
    (m : Machine) (t : Ptr) (xs : List Ptr)
    → m.pool_inited ≡ true
    → IsPool m.pool (t ∷ xs)
    → alloc_thread m ≡ (t, record m { pool = (mem_pool_alloc m.pool).1 })
unfolding alloc_thread
alloc_thread_lem m t xs inited is =
    let got : (mem_pool_alloc m.pool).0 ≡ t = (mem_pool_alloc-Allocated m.pool (t ∷ xs) is).0 in
    rw (got, inited, ==-false t null is.chain.1) refl

-- With a free block in the pool and room on the heap, thread_create_prio makes the thread that
-- IsCreated describes.
pub thread_create_prio-IsCreated :
    (debug : Bool) (f lr entry arg stack_size : ℕ) (p : ℤ) (m : Machine) (t : Ptr) (xs : List Ptr)
    (a : ℕ) (h : Heap)
    → entry ≢ 0
    → stack_size ≢ 0
    → stack_size + stack_guard_page_bytes < 2 ^ 64
    → m.pool_inited ≡ true
    → IsPool m.pool (t ∷ xs)
    → kmem_alloc_aligned (stack_size + stack_guard_page_bytes) stack_guard_page_bytes m.heap
      ≡ (some a, h)
    → (m' : Machine) × (thread_create_prio debug f lr entry arg stack_size p m ≡ some (t, m'))
      × IsCreated m m' lr entry arg stack_size p t xs a h
unfolding clear_thread thread_create_prio set_up_thread new_thread create_in place_stack
thread_create_prio-IsCreated debug f lr entry arg stack_size p m t xs a h ne ns fits inited is
      granted =
    let got = mem_pool_alloc-Allocated m.pool (t ∷ xs) is in
    let m1 : Machine = record (clear_thread t m) { pool = (mem_pool_alloc m.pool).1; heap = h } in
    (
      set_up_thread lr entry arg stack_size p t a m1,
      rw (==-false entry 0 ne, ==-false stack_size 0 ns)
          (ap (create_in debug f lr entry arg stack_size p) (alloc_thread_lem m t xs inited is)
            ∙ rw (==-false t null is.chain.1, below)
                (ap
                  (place_stack debug f lr entry arg stack_size p t
                    (clear_thread t (record m { pool = (mem_pool_alloc m.pool).1 })))
                  granted)),
      record {
        pool = got.1;
        is_ready = ground arith;
        starts = ground arith;
        enters = ground arith;
        passes = ground arith;
        priority = record {
          at_least = ground arith;
          at_most = ground (arith, clamp_priority-le p);
        };
        base = ground arith;
        effective = ground arith;
        size = ground arith;
        budget = ground arith;
        stack = ground arith;
        unlinked = ground arith;
        id = ground arith;
        next_id = refl;
        others = λ b n. ground arith;
        kept = refl;
        memory = refl;
        heap = refl;
        inited = refl;
        place = refl;
        tables = refl;
      },
    )
  where
    below : ltb (2 ^ 64 - 1 - stack_guard_page_bytes) stack_size ≡ false
    below = ground arith
