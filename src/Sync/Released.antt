-- ===== src/Sync/Released.antt =====
-- What `mutex_unlock` of src/sync.cc leaves behind.
use micro_kernel_using_c_plu.Prelude.{
  ◌≤◌, ◌≡◌, ◌≢◌, refl, true, List, [], ◌∷◌, ◌++◌, arith, if◌then◌else◌, ltb,
}
use micro_kernel_using_c_plu.Prelude.Store.{Ptr, null, has, update, erase}
use micro_kernel_using_c_plu.Kernel.{CpuLocal, Kernel}
use micro_kernel_using_c_plu.Sched.{thread_effective_priority}
use micro_kernel_using_c_plu.Sched.Priority.{IsPriority}
use micro_kernel_using_c_plu.Sched.Blocking.{IsRunning, IsQueue-same}
use micro_kernel_using_c_plu.Sync.{request_switch}
use micro_kernel_using_c_plu.Sync.Spared.{SameWait}
use micro_kernel_using_c_plu.Sync.Locked.{IsLocked, IsLocked-frame}

-- `m` had waiters: one of the highest priority among them, `n`, is the new owner, and stands READY
-- at the end of the run queue; the others wait on. A switch is asked for if `n` is to run before
-- the old owner `t`. The invariant holds again. No other thread starts or stops to wait.
pub record IsHandedOver (k k' : Kernel) (own ws : Ptr → List Ptr) (q : List Ptr) (t m n : Ptr)
    : Type 0 where
  pub waited : has n (ws m) ≡ true
  pub highest :
      (a : Ptr)
      → has a (ws m) ≡ true
      → thread_effective_priority k a ≤ thread_effective_priority k n
  pub owner : (k'.mutex m).owner ≡ n
  pub locked :
      IsLocked k'
        (update (update own t (erase m (own t))) n (m ∷ own n))
        (update ws m (erase n (ws m)))
        null
  pub running : IsRunning k' (q ++ n ∷ [])
  pub served : (k'.thread n).waiting_on ≡ null
  pub others : (a : Ptr) → a ≢ n → SameWait k k' a
  pub prios : (a : Ptr) → IsPriority (k'.thread a)
  pub cpu : k'.cpu ≡ (
      if ltb (thread_effective_priority k' t) (thread_effective_priority k' n)
      then record (k.cpu) { need_resched = 1 }
      else k.cpu)

-- `m` had no waiter: it is free.
pub record IsFreed (k k' : Kernel) (own ws : Ptr → List Ptr) (q : List Ptr) (t m : Ptr)
    : Type 0 where
  pub empty : ws m ≡ []
  pub owner : (k'.mutex m).owner ≡ null
  pub locked : IsLocked k' (update own t (erase m (own t))) ws null
  pub running : IsRunning k' q
  pub others : (a : Ptr) → SameWait k k' a
  pub prios : (a : Ptr) → IsPriority (k'.thread a)
  pub cpu : k'.cpu ≡ k.cpu

-- The processor's state has no part in the invariants.
pub cpu-IsLocked :
    (k : Kernel) (cpu : CpuLocal) (own ws : Ptr → List Ptr) (moving : Ptr)
    → IsLocked k own ws moving
    → IsLocked (record k { cpu = cpu }) own ws moving
cpu-IsLocked k cpu own ws moving l =
    IsLocked-frame k (record k { cpu = cpu }) own ws moving l (λ a. refl) (λ a. refl)
      (λ m a nm h. (refl, refl, refl))

pub cpu-IsRunning :
    (k : Kernel) (cpu : CpuLocal) (q : List Ptr)
    → IsRunning k q
    → IsRunning (record k { cpu = cpu }) q
cpu-IsRunning k cpu q run = record {
  queue = IsQueue-same k (record k { cpu = cpu }) q run.queue refl refl (λ a. refl);
  all_ready = run.all_ready;
}

abbrev pub switched : Ptr → Ptr → Kernel → CpuLocal
switched n t k =
    if ltb (thread_effective_priority k t) (thread_effective_priority k n)
    then record (k.cpu) { need_resched = 1 }
    else k.cpu

pub request_switch-switched :
    (n t : Ptr) (k : Kernel)
    → n ≢ null
    → k.cpu.current_thread ≡ t
    → request_switch n t k ≡ record k { cpu = switched n t k }
unfolding request_switch
request_switch-switched n t k nn e = ground arith

pub request_switch-none : (t : Ptr) (k : Kernel) → request_switch null t k ≡ k
unfolding request_switch
request_switch-none t k = refl
