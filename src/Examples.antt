-- ===== src/Examples.antt =====
-- A small system, on which the modules below run the theorems: the threads 1 and 2 are ready and
-- queued, 1 runs, and 3 waits for the mutex 10, which 1 owns.
pub mod Queues
pub mod Switches
pub mod Tables
pub mod Fences
pub mod Locks
pub mod Mutexes
pub mod Memories
pub mod Heaps
pub mod Devices
pub mod Boards
pub mod Boots
pub mod Labs
pub mod Spins
use micro_kernel_using_c_plu.Prelude.{
  ℕ, zero, ◌+◌, Bool, true, false, ◌==◌, if◌then◌else◌, List, [], ◌∷◌, refl, arith, ◌≡◌, ◌≢◌,
}
use micro_kernel_using_c_plu.Prelude.Store.{Ptr, null, update}
use micro_kernel_using_c_plu.Prelude.Int.{pos}
use micro_kernel_using_c_plu.Kernel.{
  FpRegs, ThreadState, ready, blocked, Resume, trampoline, in_yield, in_resched, Thread, Mutex,
  Semaphore, CpuLocal, Kernel,
}
use micro_kernel_using_c_plu.Runqueue.{IsQueue}

abbrev pub thread_of : Resume → Ptr → ℕ → ThreadState → Thread
thread_of resume next prio state = record {
  resume = resume;
  entry = 0;
  arg = 0;
  next = next;
  id = 0;
  stack_base = 4096;
  stack_size = 128;
  budget = 2;
  base_priority = prio;
  effective_priority = prio;
  state = state;
  wait_next = null;
  waiting_on = null;
  owned_mutexes = null;
  fpsimd_valid = false;
  fpsimd_vregs = λ i. 0;
  fpcr = 0;
  fpsr = 0;
}

abbrev pub threads : Ptr → Thread
threads =
    update
      (update
        (update (λ a. thread_of trampoline null 0 blocked) 1
          (record (thread_of in_yield 2 3 ready) { owned_mutexes = 10 }))
        2 (thread_of in_resched 1 5 ready))
      3 (record (thread_of in_yield null 7 blocked) { waiting_on = 10 })

abbrev free_mutex : Mutex
free_mutex = record { owner = null; waiters = null; owner_next = null; pi_enabled = true }

abbrev pub sample : Kernel
sample = record {
  thread = threads;
  mutex = update (λ a. free_mutex) 10 (record free_mutex { owner = 1; waiters = 3 });
  sem = λ a. record { count = pos 1; waiters = null };
  rq_head = 1;
  rq_tail = 2;
  cpu = record { current_thread = 1; preempt_cnt = 0; need_resched = 0; ticks = 0; irq_depth = 0 };
  regs = record { q = λ i. i + 100; fpcr = 7; fpsr = 9 };
}

abbrev pub queued : List Ptr
queued = 1 ∷ 2 ∷ []

abbrev pub sample-IsQueue : IsQueue sample queued
sample-IsQueue = (refl, refl, (refl, omega arith, (refl, omega arith, refl)), (refl, (refl, tt)))
