-- ===== src/Sem.antt =====
-- The semaphores of src/sync.cc, with the wait queues of the mutexes.
pub mod Woken
pub mod Up
pub mod Down
use micro_kernel_using_c_plu.Prelude.{ℕ, not, ◌&&◌, Option, some, ltb, ◌==◌, if◌then◌else◌, ◌>>=◌}
use micro_kernel_using_c_plu.Prelude.Store.{Ptr, null}
use micro_kernel_using_c_plu.Prelude.Int.{ℤ, succ, pred, is_negative, is_nonpositive}
use micro_kernel_using_c_plu.Kernel.{
  Kernel, is_null, put_sem, set_wait_next, set_waiting_on, set_need_resched,
}
use micro_kernel_using_c_plu.Sched.{
  thread_effective_priority, sched_block_current, sched_make_runnable, preempt_disable,
  preempt_enable,
}
use micro_kernel_using_c_plu.Sync.{Config, Popped, waitq_pop_highest}

pub sem_init : Ptr → ℤ → Kernel → Kernel
sem_init s initial_count k =
    if is_null s then k else put_sem s (record { count = initial_count; waiters = null }) k

pub block_on_sem : Config → ℕ → Ptr → Ptr → Kernel → Option Kernel
block_on_sem c f cur s k =
    let k1 = set_waiting_on cur null k in
    let k2 = set_wait_next cur (k1.sem s).waiters k1 in
    let k3 = put_sem s (record (k2.sem s) { waiters = cur }) k2 in
    sched_block_current f k3 >>= λ k4. preempt_enable c.policy f (set_need_resched 1 k4)

-- `count` is an `int`; that it does not overflow is not modelled.
pub sem_down : Config → ℕ → Ptr → Kernel → Option Kernel
sem_down c f s k =
    if is_null s
    then some k
    else (let k1 = preempt_disable k in
        let k2 = put_sem s (record (k1.sem s) { count = pred (k1.sem s).count }) k1 in
        let cur = k2.cpu.current_thread in
        if not (is_negative (k2.sem s).count)
        then preempt_enable c.policy f k2
        else if is_null cur
        then preempt_enable c.policy f k2
        else block_on_sem c f cur s k2)

pub wake_waiter : Ptr → Popped → Kernel
wake_waiter s p =
    let k1 = put_sem s (record (p.kernel.sem s) { waiters = p.head }) p.kernel in
    if is_null p.thread
    then k1
    else (let k2 = sched_make_runnable p.thread k1 in
        if not (is_null k2.cpu.current_thread)
          && ltb (thread_effective_priority k2 k2.cpu.current_thread)
              (thread_effective_priority k2 p.thread)
        then set_need_resched 1 k2
        else k2)

pub sem_up : Config → ℕ → Ptr → Kernel → Option Kernel
sem_up c f s k =
    if is_null s
    then some k
    else (let k1 = preempt_disable k in
        let k2 = put_sem s (record (k1.sem s) { count = succ (k1.sem s).count }) k1 in
        if is_nonpositive (k2.sem s).count
        then (waitq_pop_highest f (k2.sem s).waiters k2 >>= λ p.
            preempt_enable c.policy f (wake_waiter s p))
        else preempt_enable c.policy f k2)
