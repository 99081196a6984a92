-- ===== src/Sync.antt =====
-- Mutexes with priority inheritance: src/sync.cc. The wait queue of a mutex is a
-- list through `Thread::wait_next`, the mutexes that a thread owns one through `mutex::owner_next`.
-- A walk takes fuel; `none` means that the fuel ran out. The build knobs are the record `Config`.
pub mod Waitq
pub mod MaxWaiter
pub mod Pop
pub mod Inherit
pub mod Trylock
pub mod Blocked
pub mod Owned
pub mod Locked
pub mod Moved
pub mod Raising
pub mod Spared
pub mod Released
pub mod Dropped
pub mod Handing
pub mod Unlock
pub mod Taken
pub mod Enqueued
pub mod Waiting
pub mod Lock
pub mod Steps
pub mod Reach
pub mod Lockdep
pub mod Ordered
use micro_kernel_using_c_plu.Prelude.{
  ℕ, zero, suc, ◌+◌, Bool, true, false, not, ◌&&◌, ◌||◌, Option, none, some, ltb, ◌==◌,
  if◌then◌else◌, ◌>>=◌,
}
use micro_kernel_using_c_plu.Prelude.Store.{Ptr, null, update}
use micro_kernel_using_c_plu.Prelude.Int.{ℤ, pos, negsuc, succ, pred, is_negative, is_nonpositive}
use micro_kernel_using_c_plu.Kernel.{
  Thread, Mutex, Semaphore, Kernel, Policy, is_null, put_mutex, put_sem, set_wait_next,
  set_waiting_on, set_owned_mutexes, set_owner, set_waiters, set_owner_next, set_need_resched,
}
use micro_kernel_using_c_plu.Runqueue.{exceeds}
use micro_kernel_using_c_plu.Sched.{
  thread_base_priority, thread_effective_priority, thread_set_effective_priority,
  sched_block_current, sched_make_runnable, preempt_disable, preempt_enable,
}

-- The scheduling policy, MUTEX_PI and LOCKDEP_ENABLED.
pub record Config : Type 0 where
  pub policy : Policy
  pub mutex_pi : Bool
  pub lockdep : Bool

-- The locals of the search in `waitq_pop_highest`.
pub record Best : Type 0 where
  pub best_prev : Ptr
  pub best : Ptr
  pub best_prio : ℕ

pub consider : Kernel → Ptr → Ptr → Best → Best
consider k prev t b =
    if ltb b.best_prio (thread_effective_priority k t)
    then record { best_prev = prev; best = t; best_prio = thread_effective_priority k t }
    else b

pub best_loop : ℕ → Kernel → Ptr → Ptr → Best → Option Best
best_loop zero k prev t b = none
best_loop (suc f) k prev t b =
    let rest = best_loop f k t (k.thread t).wait_next (consider k prev t b) in
    if is_null t then some b else rest

-- The thread taken out, the new head of the queue and the kernel.
pub record Popped : Type 0 where
  pub thread : Ptr
  pub head : Ptr
  pub kernel : Kernel

pub unlink_waiter : Best → Ptr → Kernel → Popped
unlink_waiter b head k =
    let after = (k.thread b.best).wait_next in
    let k1 = if is_null b.best_prev then k else set_wait_next b.best_prev after k in
    record {
      thread = b.best;
      head = if is_null b.best_prev then after else head;
      kernel = set_wait_next b.best null k1;
    }

-- The search starts with the first waiter as the best.
abbrev pub first_best : Kernel → Ptr → Best
first_best k head = record {
  best_prev = null;
  best = head;
  best_prio = thread_effective_priority k head;
}

pub waitq_pop_highest : ℕ → Ptr → Kernel → Option Popped
waitq_pop_highest f head k =
    if is_null head
    then some (record { thread = null; head = head; kernel = k })
    else (best_loop f k null head (first_best k head) >>= λ b. some (unlink_waiter b head k))

pub max_waiter : Kernel → Ptr → Option ℕ → Option ℕ
max_waiter k t best =
    if exceeds (thread_effective_priority k t) best
    then some (thread_effective_priority k t)
    else best

pub max_waiter_loop : ℕ → Kernel → Ptr → Option ℕ → Option (Option ℕ)
max_waiter_loop zero k t best = none
max_waiter_loop (suc f) k t best =
    let rest = max_waiter_loop f k (k.thread t).wait_next (max_waiter k t best) in
    if is_null t then some best else rest

-- `some none` is the result -1, for an empty queue.
pub waitq_max_priority : ℕ → Kernel → Ptr → Option (Option ℕ)
waitq_max_priority f k head = max_waiter_loop f k head none

unfoldable pub thread_owned_mutex_add : Ptr → Ptr → Kernel → Kernel
thread_owned_mutex_add t m k =
    if is_null t || is_null m
    then k
    else set_owned_mutexes t m (set_owner_next m (k.thread t).owned_mutexes k)

pub unlink_owned : Ptr → Ptr → Ptr → Kernel → Kernel
unlink_owned t prev it k =
    let after = (k.mutex it).owner_next in
    set_owner_next it null
      (if is_null prev then set_owned_mutexes t after k else set_owner_next prev after k)

pub owned_loop : ℕ → Ptr → Ptr → Ptr → Ptr → Kernel → Option Kernel
owned_loop zero t m prev it k = none
owned_loop (suc f) t m prev it k =
    let rest = owned_loop f t m it (k.mutex it).owner_next k in
    if is_null it then some k else if it == m then some (unlink_owned t prev it k) else rest

pub thread_owned_mutex_remove : ℕ → Ptr → Ptr → Kernel → Option Kernel
thread_owned_mutex_remove f t m k =
    if is_null t || is_null m then some k else owned_loop f t m null (k.thread t).owned_mutexes k

-- `if (w > eff) eff = w;`
pub raise : ℕ → Option ℕ → ℕ
raise eff none = eff
raise eff (some w) = if ltb eff w then w else eff

-- The loop over the mutexes that a thread owns, from `m` on.
pub inherit_loop : ℕ → Kernel → Ptr → ℕ → Option ℕ
inherit_loop zero k m eff = none
inherit_loop (suc f) k m eff =
    let after = (k.mutex m).owner_next in
    let skip = inherit_loop f k after eff in
    let visit =
      waitq_max_priority f k (k.mutex m).waiters >>= λ w. inherit_loop f k after (raise eff w) in
    if is_null m then some eff else if not (k.mutex m).pi_enabled then skip else visit

pub recompute_effective_priority : Config → ℕ → Ptr → Kernel → Option Kernel
recompute_effective_priority c f t k =
    if is_null t
    then some k
    else ((if c.mutex_pi
          then inherit_loop f k (k.thread t).owned_mutexes (thread_base_priority k t)
          else some (thread_base_priority k t))
        >>= λ eff. some (thread_set_effective_priority t (pos eff) k))

pub mutex_apply_pi : Config → ℕ → Ptr → Kernel → Option Kernel
mutex_apply_pi c f m k =
    if is_null m || not (k.mutex m).pi_enabled
    then some k
    else if is_null (k.mutex m).owner
    then some k
    else recompute_effective_priority c f (k.mutex m).owner k

pub mutex_init : Config → Ptr → Kernel → Kernel
mutex_init c m k =
    if is_null m
    then k
    else put_mutex m
        (record { owner = null; waiters = null; owner_next = null; pi_enabled = c.mutex_pi }) k

pub mutex_set_pi_enabled : Config → ℕ → Ptr → Bool → Kernel → Option Kernel
mutex_set_pi_enabled c f m enabled k =
    if is_null m
    then some k
    else (let k1 = preempt_disable k in
        let k2 = put_mutex m (record (k1.mutex m) { pi_enabled = enabled }) k1 in
        (if is_null (k2.mutex m).owner
          then some k2
          else recompute_effective_priority c f (k2.mutex m).owner k2)
        >>= λ k3. preempt_enable c.policy f k3)

-- At most 16 steps along owner and `waiting_on`, looking for `cur`.
pub lockdep_loop : ℕ → Kernel → Ptr → Ptr → Bool
lockdep_loop zero k cur owner = false
lockdep_loop (suc depth) k cur owner =
    let wait = (k.thread owner).waiting_on in
    let rest = lockdep_loop depth k cur (k.mutex wait).owner in
    if is_null owner
    then false
    else if owner == cur
    then true
    else if is_null wait
    then false
    else rest

pub lockdep_would_deadlock : Kernel → Ptr → Ptr → Bool
lockdep_would_deadlock k cur m =
    if is_null cur || is_null m then false else lockdep_loop 16 k cur (k.mutex m).owner

-- One round of the loop of `mutex_lock`: it returns, or the thread has blocked and goes round
-- again when it next runs, or lockdep halts the kernel.
pub data LockStep : Type 0 where
  returned : Kernel → LockStep
  again : Kernel → LockStep
  deadlock : LockStep

unfoldable pub take_mutex : Ptr → Ptr → Kernel → Kernel
take_mutex cur m k = set_waiting_on cur null (thread_owned_mutex_add cur m (set_owner m cur k))

-- `cur` becomes the first waiter.
pub enqueue_waiter : Ptr → Ptr → Kernel → Kernel
enqueue_waiter cur m k =
    let k1 = set_waiting_on cur m k in
    let k2 = set_wait_next cur (k1.mutex m).waiters k1 in set_waiters m cur k2

pub block_on_mutex : Config → ℕ → Ptr → Ptr → Kernel → Option LockStep
block_on_mutex c f cur m k = mutex_apply_pi c f m (enqueue_waiter cur m k) >>= λ k1.
    (sched_block_current f k1 >>= λ k2.
    (preempt_enable c.policy f (set_need_resched 1 k2) >>= λ k3. some (again k3)))

pub mutex_lock_round : Config → ℕ → Ptr → Kernel → Option LockStep
mutex_lock_round c f m k =
    if is_null m
    then some (returned k)
    else (let k1 = preempt_disable k in
        let cur = k1.cpu.current_thread in
        let leave = λ (k2 : Kernel). preempt_enable c.policy f k2 >>= λ k3. some (returned k3) in
        if is_null cur
        then leave k1
        else if (k1.mutex m).owner == cur
        then leave (set_waiting_on cur null k1)
        else if is_null (k1.mutex m).owner
        then leave (take_mutex cur m k1)
        else if c.lockdep && lockdep_would_deadlock k1 cur m
        then some deadlock
        else block_on_mutex c f cur m k1)

-- The result is 0 or -1.
pub record Tried : Type 0 where
  pub result : ℤ
  pub kernel : Kernel

abbrev tried : ℤ → Kernel → Tried
tried r k = record { result = r; kernel = k }

pub mutex_trylock : Config → ℕ → Ptr → Kernel → Option Tried
mutex_trylock c f m k =
    if is_null m
    then some (tried (negsuc 0) k)
    else (let k1 = preempt_disable k in
        let cur = k1.cpu.current_thread in
        let leave =
          λ (r : ℤ) (k2 : Kernel). preempt_enable c.policy f k2 >>= λ k3. some (tried r k3) in
        if is_null cur
        then leave (negsuc 0) k1
        else if is_null (k1.mutex m).owner
        then leave (pos 0) (take_mutex cur m k1)
        else if (k1.mutex m).owner == cur
        then leave (pos 0) (set_waiting_on cur null k1)
        else leave (negsuc 0) k1)

-- The waiter taken out becomes the owner and is woken; with no waiter the mutex is free.
pub hand_over : Config → ℕ → Ptr → Popped → Option Kernel
hand_over c f m p =
    let k1 = set_waiters m p.head p.kernel in
    if is_null p.thread
    then some (set_owner m null k1)
    else (let k2 = set_waiting_on p.thread null (set_owner m p.thread k1) in
        mutex_apply_pi c f m (sched_make_runnable p.thread (thread_owned_mutex_add p.thread m k2)))

-- Whether the thread woken is to run at once.
pub request_switch : Ptr → Ptr → Kernel → Kernel
request_switch woken cur k =
    if not (is_null woken)
      && k.cpu.current_thread == cur
      && ltb (thread_effective_priority k cur) (thread_effective_priority k woken)
    then set_need_resched 1 k
    else k

-- What `mutex_unlock` does between `preempt_disable` and `preempt_enable` if `cur` is the owner.
pub release_mutex : Config → ℕ → Ptr → Ptr → Kernel → Option Kernel
release_mutex c f cur m k = thread_owned_mutex_remove f cur m k >>= λ k2.
    (waitq_pop_highest f (k2.mutex m).waiters k2 >>= λ p.
    (hand_over c f m p >>= λ k3.
    (recompute_effective_priority c f cur k3 >>= λ k4. some (request_switch p.thread cur k4))))

pub mutex_unlock : Config → ℕ → Ptr → Kernel → Option Kernel
mutex_unlock c f m k =
    if is_null m
    then some k
    else (let k1 = preempt_disable k in
        let cur = k1.cpu.current_thread in
        if is_null cur || not ((k1.mutex m).owner == cur)
        then preempt_enable c.policy f k1
        else (release_mutex c f cur m k1 >>= λ k2. preempt_enable c.policy f k2))
