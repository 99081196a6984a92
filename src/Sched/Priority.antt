-- ===== src/Sched/Priority.antt =====
-- Priorities of src/thread.cc stay in 0..31, the effective one not below the base priority.
use micro_kernel_using_c_plu.Prelude.{ℕ, ◌≤◌, ◌≡◌, ◌≢◌, arith}
use micro_kernel_using_c_plu.Prelude.Int.{ℤ, pos, negsuc}
use micro_kernel_using_c_plu.Prelude.Store.{Ptr, null}
use micro_kernel_using_c_plu.Kernel.{Thread, Kernel, put_thread}
use micro_kernel_using_c_plu.Sched.{
  max_priority, clamp_priority, thread_base_priority, thread_effective_priority,
  thread_set_base_priority, thread_set_effective_priority,
}

pub record IsPriority (t : Thread) : Type 0 where
  pub at_least : t.base_priority ≤ t.effective_priority
  pub at_most : t.effective_priority ≤ max_priority

pub clamp_priority-le : (p : ℤ) → clamp_priority p ≤ max_priority
unfolding clamp_priority
clamp_priority-le (negsuc n) = omega arith
clamp_priority-le (pos n) = ground arith

-- Setting either priority of any thread to any `int` keeps every thread's priorities in order and
-- in range.
pub thread_set_base_priority-IsPriority :
    (k : Kernel) (t a : Ptr) (p : ℤ)
    → IsPriority (k.thread a)
    → IsPriority ((thread_set_base_priority t p k).thread a)
      × IsPriority ((thread_set_effective_priority t p k).thread a)
unfolding thread_set_base_priority thread_set_effective_priority
thread_set_base_priority-IsPriority k t a p is = ground (arith, clamp_priority-le p)

pub set_effective_lem :
    (k : Kernel) (t : Ptr) (e : ℕ)
    → t ≢ null
    → (k.thread t).base_priority ≤ e
    → e ≤ max_priority
    → thread_set_effective_priority t (pos e) k
      ≡ put_thread t (record (k.thread t) { effective_priority = e }) k
unfolding thread_set_effective_priority clamp_priority
set_effective_lem k t e nn lo hi = ground arith

pub thread_base_priority_lem :
    (k : Kernel) (t : Ptr) → t ≢ null → thread_base_priority k t ≡ (k.thread t).base_priority
unfolding thread_base_priority
thread_base_priority_lem k t nn = ground arith

pub thread_effective_priority-le :
    (k : Kernel) (t : Ptr) → IsPriority (k.thread t) → thread_effective_priority k t ≤ max_priority
unfolding thread_effective_priority
thread_effective_priority-le k t is = ground arith
