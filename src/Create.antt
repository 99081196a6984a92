-- ===== src/Create.antt =====
-- sched_init and thread_create_prio of src/thread.cc, over the pool of threads, the heap, and the
-- memory of the stacks. A Thread is 640 bytes wide and aligned to 16. The page tables, where the
-- linker put them and whether the MMU is on are those of src/arch/aarch64/mmu.cc.
pub mod Created
pub mod Failed
pub mod Fenced
pub mod Stacked
use Prim.Native.Nat.{bit_and}
use micro_kernel_using_c_plu.Prelude.{
  ℕ, zero, suc, ◌+◌, ◌-◌, ◌*◌, ◌^◌, Bool, true, false, not, ◌&&◌, ◌||◌, Option, none, some, ltb,
  ◌==◌, if◌then◌else◌, ◌>>=◌,
}
use micro_kernel_using_c_plu.Prelude.Int.{ℤ, pos, negsuc}
use micro_kernel_using_c_plu.Prelude.Align.{align_down}
use micro_kernel_using_c_plu.Prelude.Store.{Ptr, null, update}
use micro_kernel_using_c_plu.Kernel.{Thread, Kernel, ready, trampoline, put_thread}
use micro_kernel_using_c_plu.Stack.{Memory, store64, stack_init_guard_and_watermark}
use micro_kernel_using_c_plu.Kmem.{Heap, kmem_alloc_aligned}
use micro_kernel_using_c_plu.Pool.{
  PoolState, mem_pool_init, mem_pool_alloc, mem_pool_owns, mem_pool_free,
}
use micro_kernel_using_c_plu.Mmu.{Place, Tables, mmu_guard_page}
use micro_kernel_using_c_plu.Sched.{clamp_priority, quantum_ticks}

abbrev pub thread_size : ℕ
thread_size = 640

abbrev pub thread_pool_align : ℕ
thread_pool_align = 16

abbrev pub thread_pool_bytes : ℕ
thread_pool_bytes = 640 * 32 + 16

abbrev pub stack_guard_page_bytes : ℕ
stack_guard_page_bytes = 4096

abbrev pub default_priority : ℤ
default_priority = pos 10

pub record Machine : Type 0 where
  pub kernel : Kernel
  pub pool : PoolState
  pub pool_inited : Bool
  pub heap : Heap
  pub memory : Memory
  pub next_thread_id : ℕ
  pub place : Place
  pub mmu_on : Bool
  pub tables : Tables

abbrev no_threads : Kernel → Kernel
no_threads k = record k { rq_head = null; rq_tail = null }

-- The pool over a block of the heap, if both are there.
pub use_backing : Option ℕ → Machine → Machine
use_backing none m = m
use_backing (some backing) m =
    elim (mem_pool_init backing thread_pool_bytes thread_size m.pool.links) [
      | none ↦ m
      | some s ↦ record m { pool = s; pool_inited = true }
    ]

pub sched_init : Machine → Machine
sched_init m =
    let (backing, h) = kmem_alloc_aligned thread_pool_bytes thread_pool_align m.heap in
    use_backing backing
      (record m { kernel = no_threads m.kernel; next_thread_id = 1; pool_inited = false; heap = h })

-- Where a new thread's struct lies: in the pool, or else on the heap.
pub alloc_thread : Machine → Ptr × Machine
alloc_thread m =
    let (p, s) = mem_pool_alloc m.pool in
    let m1 = if m.pool_inited then record m { pool = s } else m in
    let (q, h) = kmem_alloc_aligned thread_size thread_pool_align m1.heap in
    if m.pool_inited && not (p == null)
    then (p, m1)
    else (elim q [ none ↦ null | some a ↦ a ], record m1 { heap = h })

-- The struct goes back to the pool if it came from there. MEM_POOL_DEBUG and the fuel of its walk
-- are arguments.
pub release_thread : Bool → ℕ → Ptr → Machine → Option (Ptr × Machine)
release_thread debug f t m =
    if m.pool_inited && mem_pool_owns m.pool.pool t
    then (mem_pool_free debug f t m.pool >>= λ r. some (null, record m { pool = r.1 }))
    else some (null, m)

-- The n pairs of words below `sp`: zeros, and in the last pair the address of thread_trampoline.
pub push_pairs : ℕ → ℕ → ℕ → Memory → Memory
push_pairs zero sp lr m = m
push_pairs (suc zero) sp lr m = store64 (store64 m (sp - 16) 0) (sp - 8) lr
push_pairs (suc (suc n)) sp lr m =
    push_pairs (suc n) (sp - 16) lr (store64 (store64 m (sp - 16) 0) (sp - 8) 0)

pub new_thread : ℕ → ℕ → ℕ → ℕ → ℕ → ℤ → Thread
new_thread entry arg id stack stack_size base_priority = record {
  resume = trampoline;
  entry = entry;
  arg = arg;
  next = null;
  id = id;
  stack_base = stack;
  stack_size = stack_size;
  budget = quantum_ticks;
  base_priority = clamp_priority base_priority;
  effective_priority = clamp_priority base_priority;
  state = ready;
  wait_next = null;
  waiting_on = null;
  owned_mutexes = null;
  fpsimd_valid = false;
  fpsimd_vregs = λ i. 0;
  fpcr = 0;
  fpsr = 0;
}

-- The lines behind the second allocation.
pub set_up_thread : ℕ → ℕ → ℕ → ℕ → ℤ → Ptr → ℕ → Machine → Machine
set_up_thread lr entry arg stack_size base_priority t stack_alloc m =
    let stack = stack_alloc + stack_guard_page_bytes in
    record m {
      tables = (mmu_guard_page m.place m.mmu_on stack_alloc m.tables).1;
      memory =
          push_pairs 6 (align_down (stack + stack_size) 16) lr
            (stack_init_guard_and_watermark m.memory stack stack_size);
      kernel =
          put_thread t (new_thread entry arg m.next_thread_id stack stack_size base_priority)
            m.kernel;
      next_thread_id = m.next_thread_id + 1;
    }

-- What follows the request for a stack.
pub place_stack :
    Bool → ℕ → ℕ → ℕ → ℕ → ℕ → ℤ → Ptr → Machine → Option ℕ × Heap → Option (Ptr × Machine)
place_stack debug f lr entry arg stack_size base_priority t m (none, h) =
    release_thread debug f t (record m { heap = h })
place_stack debug f lr entry arg stack_size base_priority t m (some a, h) =
    some (t, set_up_thread lr entry arg stack_size base_priority t a (record m { heap = h }))

-- The loop that zeroes the struct; where the thread goes on is no field of it.
pub clear_thread : Ptr → Machine → Machine
clear_thread t m = record m {
  kernel =
      put_thread t
        (record {
          resume = (m.kernel.thread t).resume;
          entry = 0;
          arg = 0;
          next = null;
          id = 0;
          stack_base = 0;
          stack_size = 0;
          budget = 0;
          base_priority = 0;
          effective_priority = 0;
          state = ready;
          wait_next = null;
          waiting_on = null;
          owned_mutexes = null;
          fpsimd_valid = false;
          fpsimd_vregs = λ i. 0;
          fpcr = 0;
          fpsr = 0;
        })
        m.kernel;
}

-- The function from the test of `t` on.
pub create_in : Bool → ℕ → ℕ → ℕ → ℕ → ℕ → ℤ → Ptr × Machine → Option (Ptr × Machine)
create_in debug f lr entry arg stack_size base_priority (t, m) =
    if t == null
    then some (null, m)
    else if ltb (2 ^ 64 - 1 - stack_guard_page_bytes) stack_size
    then release_thread debug f t (clear_thread t m)
    else place_stack debug f lr entry arg stack_size base_priority t (clear_thread t m)
        (kmem_alloc_aligned (stack_size + stack_guard_page_bytes) stack_guard_page_bytes m.heap)

pub thread_create_prio : Bool → ℕ → ℕ → ℕ → ℕ → ℕ → ℤ → Machine → Option (Ptr × Machine)
thread_create_prio debug f lr entry arg stack_size base_priority m =
    if (entry == 0) || (stack_size == 0)
    then some (null, m)
    else create_in debug f lr entry arg stack_size base_priority (alloc_thread m)

unfoldable pub thread_create : Bool → ℕ → ℕ → ℕ → ℕ → ℕ → Machine → Option (Ptr × Machine)
thread_create debug f lr entry arg stack_size m =
    thread_create_prio debug f lr entry arg stack_size default_priority m
