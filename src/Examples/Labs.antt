-- ===== src/Examples/Labs.antt =====
-- The theorems on the labs, and on locking in order, on the sample and on a deadlock.
use micro_kernel_using_c_plu.Prelude.{◌≡◌, ◌||◌, ◌==◌, refl, true, false, List, [], ◌∷◌, arith}
use mathlib.Core.List.{reverse}
use micro_kernel_using_c_plu.Prelude.Store.{Ptr, null, has, update}
use micro_kernel_using_c_plu.Kernel.{Kernel, Mutex, ready, blocked, in_yield}
use micro_kernel_using_c_plu.Sched.Blocking.{IsRunning}
use micro_kernel_using_c_plu.Sync.{take_mutex, thread_owned_mutex_add, lockdep_would_deadlock}
use micro_kernel_using_c_plu.Sync.Locked.{IsLocked}
use micro_kernel_using_c_plu.Sync.Steps.{here, next, take}
use micro_kernel_using_c_plu.Sync.Reach.{IsSound}
use micro_kernel_using_c_plu.Sync.Ordered.{
  AllBelow, IsOrderly, Climbs, start, climb, Climbs-no_deadlock,
}
use micro_kernel_using_c_plu.SyncLab.{
  Place, Lab, dl_lock_two_ordered, dl_unlock_two_ordered, dl_deadlock_observed,
}
use micro_kernel_using_c_plu.SyncLab.Order.{
  Increasing, lock_all, unlock_all, dl_lock_two_ordered-Increasing,
}
use micro_kernel_using_c_plu.SyncLab.Deadlock.{dl_deadlock_observed-stays}
use micro_kernel_using_c_plu.Examples.{sample, thread_of}
use micro_kernel_using_c_plu.Examples.Mutexes.{settings, first-IsSound}

sample-IsOrderly : IsOrderly sample
sample-IsOrderly t nt nw x nx e = ground (arith, nw)

-- Thread 1, which owns the mutex 10, takes 11.
climbed : Climbs settings sample (take_mutex 1 11 sample)
climbed =
    climb start (take sample 11 (omega arith, refl) (omega arith) refl) (λ x nx e. ground arith)

climbed-AllBelow : AllBelow (take_mutex 1 11 sample) 1 12
unfolding take_mutex thread_owned_mutex_add
climbed-AllBelow x nx e = ground arith

Climbs-no_deadlock_example :
    lockdep_would_deadlock (take_mutex 1 11 sample) (take_mutex 1 11 sample).cpu.current_thread 12
    ≡ false
unfolding take_mutex thread_owned_mutex_add
Climbs-no_deadlock_example =
    Climbs-no_deadlock settings sample (take_mutex 1 11 sample) 12 first-IsSound sample-IsOrderly
      climbed (omega arith) (omega arith) climbed-AllBelow

dl_lock_two_ordered-Increasing_example :
    (up : List Ptr) × (down : List Ptr) × Increasing up
    × (dl_lock_two_ordered 7 5 ≡ lock_all up)
    × (dl_lock_two_ordered 5 7 ≡ lock_all up)
    × (dl_unlock_two_ordered 7 5 ≡ unlock_all down)
    × (dl_unlock_two_ordered 5 7 ≡ unlock_all down)
    × (down ≡ reverse up)
    × ((x : Ptr) → has x up ≡ ((x == 7) || (x == 5)))
dl_lock_two_ordered-Increasing_example =
    dl_lock_two_ordered-Increasing 7 5 (omega arith) (omega arith)

abbrev place : Place
place = record {
  lock = 30;
  start = 31;
  hold_high = 32;
  a = 20;
  b = 21;
  hold = 33;
  low_thread = 0x40_0000;
  medium_thread = 0x40_1000;
  high_thread = 0x40_2000;
  worker = 0x40_3000;
  watchdog = 0x40_4000;
}

abbrev lab : Lab
lab = record {
  pi_enabled = false;
  high_done = false;
  mode = 2;
  ready = 2;
  done = 0;
  t1 = 2;
  t2 = 3;
}

abbrev owned_mutex : Ptr → Ptr → Mutex
owned_mutex owner waiter = record {
  owner = owner;
  waiters = waiter;
  owner_next = null;
  pi_enabled = true;
}

-- The watchdog, 1, runs; the workers 2 and 3 own a mutex each, and wait for the other's.
abbrev tangled : Kernel
tangled = record sample {
  thread =
      update
        (update (update (λ a. thread_of in_yield null 0 blocked) 1 (thread_of in_yield 1 5 ready)) 2
          (record (thread_of in_yield null 20 blocked) { owned_mutexes = 20; waiting_on = 21 }))
        3 (record (thread_of in_yield null 20 blocked) { owned_mutexes = 21; waiting_on = 20 });
  mutex = update (update (λ a. owned_mutex null null) 20 (owned_mutex 2 3)) 21 (owned_mutex 3 2);
  rq_head = 1;
  rq_tail = 1;
}

abbrev own : Ptr → List Ptr
own = update (update (λ t. []) 2 (20 ∷ [])) 3 (21 ∷ [])

abbrev ws : Ptr → List Ptr
ws = update (update (λ m. []) 20 (3 ∷ [])) 21 (2 ∷ [])

tangled-IsLocked : IsLocked tangled own ws null
tangled-IsLocked = record {
  owned = λ t nt. ground arith;
  distinct = λ t. ground arith;
  owner = λ t m nt h. ground arith;
  listed = λ m t nm ne e nt. ground arith;
  waitq = λ m nm. record { chain = ground arith; distinct = ground arith };
  waiting = λ m a nm h. ground arith;
  waited = λ m a nm ne h. ground arith;
}

tangled-IsRunning : IsRunning tangled (1 ∷ [])
tangled-IsRunning = record {
  queue = (refl, refl, (refl, omega arith, refl), (refl, tt));
  all_ready = λ a h. ground arith;
}

tangled-IsSound : IsSound tangled
tangled-IsSound = record {
  own = own;
  ws = ws;
  q = 1 ∷ [];
  bound = 3;
  locked = tangled-IsLocked;
  running = tangled-IsRunning;
  prios = λ a. record { at_least = ground arith; at_most = ground arith };
  short = λ a b. ground arith;
  few = omega arith;
}

-- The watchdog takes the mutex 25.
dl_deadlock_observed-stays_example :
    let k' = take_mutex 1 25 tangled in
    (dl_deadlock_observed place lab k' ≡ true)
    × (lockdep_would_deadlock k' 2 21 ≡ true)
    × (lockdep_would_deadlock k' 3 20 ≡ true)
unfolding dl_deadlock_observed
dl_deadlock_observed-stays_example =
    dl_deadlock_observed-stays settings place lab tangled (take_mutex 1 25 tangled) (omega arith)
      (omega arith) tangled-IsSound refl
      (next here (take tangled 25 (omega arith, refl) (omega arith) refl))
