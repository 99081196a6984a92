-- ===== src/Kernel.antt =====
-- The data that thread.cc, sync.cc, preempt.cc and fpsimd.cc share: the structs of
-- include/thread.h, include/sync.h and include/arch/cpu_local.h, and the globals of src/thread.cc.
-- One store for each type of object stands for memory; a pointer is an index into it.
use micro_kernel_using_c_plu.Prelude.{ℕ, Bool, true, false, ◌==◌}
use micro_kernel_using_c_plu.Prelude.Store.{Ptr, null, update}
use micro_kernel_using_c_plu.Prelude.Int.{ℤ}

-- The registers q0..q31 by number, and the two control registers.
pub record FpRegs : Type 0 where
  pub q : ℕ → ℕ
  pub fpcr : ℕ
  pub fpsr : ℕ

pub data ThreadState : Type 0 where
  ready blocked : ThreadState

-- What a saved stack pointer leads to when the thread is switched in: the trampoline of a thread
-- that never ran, or the rest of a call of `do_switch`, in `thread_yield` or in
-- `sched_resched_from_irq_tail`.
pub data Resume : Type 0 where
  trampoline in_yield in_resched : Resume

-- `resume` stands for `sp`. A priority is at least 0: every store of one goes through `clamp_priority`. A slot of
-- `fpsimd_vregs` is 16 bytes wide.
pub record Thread : Type 0 where
  pub resume : Resume
  pub entry : ℕ
  pub arg : ℕ
  pub next : Ptr
  pub id : ℕ
  pub stack_base : ℕ
  pub stack_size : ℕ
  pub budget : ℕ
  pub base_priority : ℕ
  pub effective_priority : ℕ
  pub state : ThreadState
  pub wait_next : Ptr
  pub waiting_on : Ptr
  pub owned_mutexes : Ptr
  pub fpsimd_valid : Bool
  pub fpsimd_vregs : ℕ → ℕ
  pub fpcr : ℕ
  pub fpsr : ℕ

pub record Mutex : Type 0 where
  pub owner : Ptr
  pub waiters : Ptr
  pub owner_next : Ptr
  pub pi_enabled : Bool

pub record Semaphore : Type 0 where
  pub count : ℤ
  pub waiters : Ptr

-- `preempt_cnt` and `irq_depth` are 32-bit counters.
pub record CpuLocal : Type 0 where
  pub current_thread : Ptr
  pub preempt_cnt : ℕ
  pub need_resched : ℕ
  pub ticks : ℕ
  pub irq_depth : ℕ

pub record Kernel : Type 0 where
  pub thread : Ptr → Thread
  pub mutex : Ptr → Mutex
  pub sem : Ptr → Semaphore
  pub rq_head : Ptr
  pub rq_tail : Ptr
  pub cpu : CpuLocal
  pub regs : FpRegs

-- SCHED_POLICY_RR or SCHED_POLICY_PRIO, chosen when the kernel is built.
pub data Policy : Type 0 where
  rr prio : Policy

abbrev pub is_null : Ptr → Bool
is_null p = p == null

-- The assignments to fields through a pointer.
module _ (p : Ptr) where
  abbrev pub put_thread : Thread → Kernel → Kernel
  put_thread t k = record k { thread = update k.thread p t }

  abbrev pub put_mutex : Mutex → Kernel → Kernel
  put_mutex m k = record k { mutex = update k.mutex p m }

  abbrev pub put_sem : Semaphore → Kernel → Kernel
  put_sem s k = record k { sem = update k.sem p s }

abbrev pub set_next : Ptr → Ptr → Kernel → Kernel
set_next t p k = put_thread t (record (k.thread t) { next = p }) k

abbrev pub set_wait_next : Ptr → Ptr → Kernel → Kernel
set_wait_next t p k = put_thread t (record (k.thread t) { wait_next = p }) k

abbrev pub set_waiting_on : Ptr → Ptr → Kernel → Kernel
set_waiting_on t m k = put_thread t (record (k.thread t) { waiting_on = m }) k

abbrev pub set_state : Ptr → ThreadState → Kernel → Kernel
set_state t s k = put_thread t (record (k.thread t) { state = s }) k

abbrev pub set_budget : Ptr → ℕ → Kernel → Kernel
set_budget t n k = put_thread t (record (k.thread t) { budget = n }) k

abbrev pub set_owned_mutexes : Ptr → Ptr → Kernel → Kernel
set_owned_mutexes t m k = put_thread t (record (k.thread t) { owned_mutexes = m }) k

abbrev pub set_owner : Ptr → Ptr → Kernel → Kernel
set_owner m t k = put_mutex m (record (k.mutex m) { owner = t }) k

abbrev pub set_waiters : Ptr → Ptr → Kernel → Kernel
set_waiters m t k = put_mutex m (record (k.mutex m) { waiters = t }) k

abbrev pub set_owner_next : Ptr → Ptr → Kernel → Kernel
set_owner_next m n k = put_mutex m (record (k.mutex m) { owner_next = n }) k

abbrev pub set_need_resched : ℕ → Kernel → Kernel
set_need_resched n k = record k { cpu = record (k.cpu) { need_resched = n } }

abbrev pub set_preempt_cnt : ℕ → Kernel → Kernel
set_preempt_cnt n k = record k { cpu = record (k.cpu) { preempt_cnt = n } }

-- `t->next`, as a function of the pointer.
abbrev pub next_of : Kernel → Ptr → Ptr
next_of k t = (k.thread t).next

abbrev pub is_ready_state : ThreadState → Bool
is_ready_state ready = true
is_ready_state blocked = false
