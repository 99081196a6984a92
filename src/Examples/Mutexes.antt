-- ===== src/Examples/Mutexes.antt =====
-- The theorems on locking, unlocking and semaphores, on the sample.
use micro_kernel_using_c_plu.Prelude.{
  ℕ, ◌≡◌, ◌⊎◌, ◌↔◌, ◌<◌, refl, true, false, some, List, [], ◌∷◌, arith, ◌>>=◌,
}
use micro_kernel_using_c_plu.Prelude.Int.{negsuc, pred, succ, is_negative, is_nonpositive}
use micro_kernel_using_c_plu.Prelude.Store.{Ptr, null, update}
use micro_kernel_using_c_plu.Kernel.{Kernel, prio, put_sem, put_mutex, set_need_resched}
use micro_kernel_using_c_plu.Sched.{preempt_disable, preempt_enable}
use micro_kernel_using_c_plu.Sched.Blocking.{IsRunning}
use micro_kernel_using_c_plu.Sched.Priority.{IsPriority}
use micro_kernel_using_c_plu.Sync.{
  Config, again, mutex_unlock, mutex_lock_round, take_mutex, thread_owned_mutex_add,
}
use micro_kernel_using_c_plu.Sync.Waitq.{IsWaitq}
use micro_kernel_using_c_plu.Sync.Locked.{IsLocked}
use micro_kernel_using_c_plu.Sync.Raising.{IsShort}
use micro_kernel_using_c_plu.Sync.Released.{IsHandedOver, IsFreed}
use micro_kernel_using_c_plu.Sync.Unlock.{mutex_unlock-IsReleased}
use micro_kernel_using_c_plu.Sync.Waiting.{IsWaiting}
use micro_kernel_using_c_plu.Sync.Lock.{mutex_lock_round-IsWaiting}
use micro_kernel_using_c_plu.Sync.{lockdep_would_deadlock}
use micro_kernel_using_c_plu.Sync.Lockdep.{WaitsFor, lockdep_would_deadlock_iff}
use micro_kernel_using_c_plu.Sync.Steps.{Reach, here, next, take, switch}
use micro_kernel_using_c_plu.Sync.Reach.{IsSound, Reach-IsSound}
use micro_kernel_using_c_plu.Sem.{sem_up, sem_down}
use micro_kernel_using_c_plu.Sem.Up.{sem_up-IsWokenUp}
use micro_kernel_using_c_plu.Sem.Woken.{IsWokenUp, raised}
use micro_kernel_using_c_plu.Sem.Down.{IsDown, sem_down-IsDown, lowered}
use micro_kernel_using_c_plu.Examples.{sample, queued, sample-IsQueue}

abbrev pub settings : Config
settings = record { policy = prio; mutex_pi = true; lockdep = false }

abbrev own : Ptr → List Ptr
own = update (λ t. []) 1 (10 ∷ [])

abbrev ws : Ptr → List Ptr
ws = update (λ m. []) 10 (3 ∷ [])

-- Thread 2 runs.
abbrev second : Kernel
second = record sample { cpu = record (sample.cpu) { current_thread = 2 } }

second-IsLocked : IsLocked second own ws null
second-IsLocked = record {
  owned = λ t nt. ground arith;
  distinct = λ t. ground arith;
  owner = λ t m nt h. ground arith;
  listed = λ m t nm ne e nt. ground arith;
  waitq = λ m nm. record { chain = ground arith; distinct = ground arith };
  waiting = λ m a nm h. ground arith;
  waited = λ m a nm ne h. ground arith;
}

first-IsLocked : IsLocked sample own ws null
first-IsLocked = record {
  owned = second-IsLocked.owned;
  distinct = second-IsLocked.distinct;
  owner = second-IsLocked.owner;
  listed = second-IsLocked.listed;
  waitq = λ m nm. record {
    chain = (second-IsLocked.waitq m nm).chain;
    distinct = (second-IsLocked.waitq m nm).distinct;
  };
  waiting = second-IsLocked.waiting;
  waited = second-IsLocked.waited;
}

first-IsRunning : IsRunning sample queued
first-IsRunning = record { queue = sample-IsQueue; all_ready = λ a h. ground arith }

second-IsRunning : IsRunning second queued
second-IsRunning = record { queue = sample-IsQueue; all_ready = λ a h. ground arith }

sane : (a : Ptr) → IsPriority (sample.thread a)
sane a = record { at_least = ground arith; at_most = ground arith }

short : IsShort own ws 5
short t m = ground arith

mutex_unlock-IsReleased_example :
    let k1 = preempt_disable sample in
    (k' : Kernel) × (mutex_unlock settings 6 10 sample ≡ preempt_enable prio 6 k')
    × (IsFreed k1 k' own ws queued 1 10 ⊎ ((n : Ptr) × IsHandedOver k1 k' own ws queued 1 10 n))
mutex_unlock-IsReleased_example =
    mutex_unlock-IsReleased settings 5 sample own ws queued 10 first-IsLocked first-IsRunning sane
      short (omega arith) (omega arith) refl refl

mutex_lock_round-IsWaiting_example :
    (k' : Kernel) × (mutex_lock_round settings 7 10 second
      ≡ (preempt_enable prio 7 (set_need_resched 1 k') >>= λ k3. some (again k3)))
    × IsWaiting settings (preempt_disable second) k' own ws queued 2 10
mutex_lock_round-IsWaiting_example =
    mutex_lock_round-IsWaiting settings 5 second own ws queued 10 second-IsLocked second-IsRunning
      sane short (omega arith) (omega arith) (omega arith) refl (omega arith) (omega arith) refl

pub first-IsSound : IsSound sample
first-IsSound = record {
  own = own;
  ws = ws;
  q = queued;
  bound = 5;
  locked = first-IsLocked;
  running = first-IsRunning;
  prios = sane;
  short = short;
  few = omega arith;
}

-- Thread 1 takes the mutex 11, thread 2 runs, and takes the mutex 12.
abbrev one_taken : Kernel
one_taken = take_mutex 1 11 sample

abbrev two_runs : Kernel
two_runs = record one_taken { cpu = record (one_taken.cpu) { current_thread = 2 } }

abbrev two_taken : Kernel
two_taken = take_mutex 2 12 two_runs

path : Reach settings sample two_taken
unfolding take_mutex thread_owned_mutex_add
path =
    next
      (next (next here (take sample 11 (omega arith, refl) (omega arith) refl))
        (switch one_taken 2 refl))
      (take two_runs 12 (omega arith, refl) (omega arith) refl)

Reach-IsSound_example : IsSound two_taken
Reach-IsSound_example = Reach-IsSound settings path first-IsSound

-- Thread 3, which waits for the mutex 10 of thread 1, owns the mutex 20.
abbrev crossed : Kernel
crossed =
    put_mutex 20 (record { owner = 3; waiters = null; owner_next = null; pi_enabled = true }) sample

lockdep_would_deadlock_iff_example :
    (lockdep_would_deadlock crossed 1 20 ≡ true) ↔ ((n : ℕ) × (n < 16) × WaitsFor crossed 1 n 3)
lockdep_would_deadlock_iff_example =
    lockdep_would_deadlock_iff crossed 1 20 (omega arith) (omega arith)

-- Thread 3 waits for the semaphore 4.
abbrev lacking : Kernel
lacking = put_sem 4 (record { count = negsuc 0; waiters = 3 }) sample

lacking-IsRunning : IsRunning lacking queued
lacking-IsRunning = record { queue = sample-IsQueue; all_ready = λ a h. ground arith }

lacking-IsWaitq : IsWaitq lacking 3 (3 ∷ [])
lacking-IsWaitq = record { chain = (refl, omega arith, refl); distinct = (refl, tt) }

abbrev third : List Ptr
third = 3 ∷ []

sem_up-IsWokenUp_example :
    let k1 = preempt_disable lacking in
    ((is_nonpositive (succ (lacking.sem 4).count) ≡ false)
      × (sem_up settings 5 4 lacking ≡ preempt_enable prio 5 (raised 4 k1)))
    ⊎ ((is_nonpositive (succ (lacking.sem 4).count) ≡ true)
        × (((third ≡ [])
              × (sem_up settings 5 4 lacking
                  ≡ preempt_enable prio 5 (
                      put_sem 4
                        (record { count = succ (lacking.sem 4).count; waiters = null })
                        k1)))
            ⊎ ((k' : Kernel) × (sem_up settings 5 4 lacking ≡ preempt_enable prio 5 k')
                × ((n : Ptr) × IsWokenUp k1 k' 4 third queued n))))
sem_up-IsWokenUp_example =
    sem_up-IsWokenUp settings 5 lacking 4 third queued lacking-IsWaitq lacking-IsRunning
      (λ a h. ground arith) (omega arith) (omega arith)

sem_down-IsDown_example :
    let k1 = preempt_disable lacking in
    ((is_negative (pred (lacking.sem 4).count) ≡ false)
      × (sem_down settings 5 4 lacking ≡ preempt_enable prio 5 (lowered 4 k1)))
    ⊎ ((is_negative (pred (lacking.sem 4).count) ≡ true)
        × ((k' : Kernel) × (sem_down settings 5 4 lacking
              ≡ preempt_enable prio 5 (set_need_resched 1 k'))
            × IsDown k1 k' 4 1 queued))
sem_down-IsDown_example =
    sem_down-IsDown settings 5 lacking 4 queued lacking-IsRunning (omega arith) (omega arith)
      (omega arith) refl
