-- ===== src/Examples/Locks.antt =====
-- The theorems on wait queues, inheritance and trials, on the sample.
use micro_kernel_using_c_plu.Prelude.{ℕ, ◌≡◌, refl, true, false, none, some, List, [], ◌∷◌, arith}
use micro_kernel_using_c_plu.Prelude.Store.{Ptr}
use micro_kernel_using_c_plu.Kernel.{Kernel, prio, put_thread}
use micro_kernel_using_c_plu.Sync.{Config, mutex_lock_round, recompute_effective_priority}
use micro_kernel_using_c_plu.Sync.Waitq.{IsWaitq}
use micro_kernel_using_c_plu.Sync.Inherit.{IsOwned, IsInherited, recompute-IsInherited}
use micro_kernel_using_c_plu.Sync.Blocked.{mutex_lock_round-hangs}
use micro_kernel_using_c_plu.Sched.Priority.{IsPriority}
use micro_kernel_using_c_plu.Examples.{sample, threads}

-- Thread 2 waits behind thread 3.
abbrev two_wait : Kernel
two_wait = put_thread 3 (record (threads 3) { wait_next = 2 }) sample

two_wait-IsWaitq : IsWaitq two_wait 3 (3 ∷ 2 ∷ [])
two_wait-IsWaitq = record {
  chain = (refl, omega arith, (refl, omega arith, refl));
  distinct = (refl, (refl, tt));
}

abbrev config : Config
config = record { policy = prio; mutex_pi = true; lockdep = true }

abbrev waiters_of : Ptr → List Ptr
waiters_of m = 3 ∷ []

sample-IsOwned : IsOwned sample 5 10 (10 ∷ []) waiters_of
sample-IsOwned = record {
  chain = (refl, omega arith, refl);
  waitq = λ m h. record { chain = (ground arith, omega arith, refl); distinct = (refl, tt) };
  short = λ m h. omega arith;
}

sample-IsPriority : (a : Ptr) → IsPriority (sample.thread a)
sample-IsPriority a = record { at_least = ground arith; at_most = ground arith }

recompute-IsInherited_example :
    (e : ℕ) × (recompute_effective_priority config 5 1 sample
      ≡ some (put_thread 1 (record (threads 1) { effective_priority = e }) sample))
    × IsInherited sample (10 ∷ []) waiters_of 3 e
recompute-IsInherited_example =
    recompute-IsInherited config 5 sample 1 (10 ∷ []) waiters_of refl (omega arith) sample-IsOwned
      (omega arith) sample-IsPriority

-- Thread 3 runs on, though it is blocked.
abbrev runs_on : Kernel
runs_on = record sample { cpu = record (sample.cpu) { current_thread = 3 } }

mutex_lock_round-hangs_example :
    mutex_lock_round (record config { lockdep = false }) 9 10 runs_on ≡ none
mutex_lock_round-hangs_example =
    mutex_lock_round-hangs (record config { lockdep = false }) 9 runs_on 10 (omega arith)
      (omega arith) refl (omega arith) (omega arith) refl refl refl refl
