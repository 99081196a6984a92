-- ===== src/Sync/Lock.antt =====
-- A round of `mutex_lock` of src/sync.cc: taking a free mutex, and blocking on one that is owned.
use micro_kernel_using_c_plu.Prelude.{
  ℕ, suc, ◌≤◌, ◌≡◌, ◌≢◌, refl, false, true, ◌&&◌, List, ◌∷◌, arith, ◌==◌, ==-false, some, ◌>>=◌,
}
use micro_kernel_using_c_plu.Prelude.Store.{Ptr, null, update, length}
use micro_kernel_using_c_plu.Kernel.{Kernel, ready, set_need_resched}
use micro_kernel_using_c_plu.Sched.{preempt_disable, preempt_enable}
use micro_kernel_using_c_plu.Sched.Priority.{IsPriority}
use micro_kernel_using_c_plu.Sched.Blocking.{IsRunning}
use micro_kernel_using_c_plu.Sync.{
  Config, returned, again, take_mutex, lockdep_would_deadlock, mutex_lock_round,
}
use micro_kernel_using_c_plu.Sync.Locked.{IsLocked}
use micro_kernel_using_c_plu.Sync.Raising.{IsShort}
use micro_kernel_using_c_plu.Sync.Spared.{spared-IsRunning}
use micro_kernel_using_c_plu.Sync.Released.{cpu-IsLocked, cpu-IsRunning}
use micro_kernel_using_c_plu.Sync.Taken.{take_mutex-IsLocked, take_mutex-IsSpared}
use micro_kernel_using_c_plu.Sync.Waiting.{IsWaiting, block-IsWaiting}

-- A mutex_lock of a free mutex, by a READY thread, takes it and returns; the invariant on mutexes
-- and the run queue are kept.
pub mutex_lock_round-take :
    (c : Config) (f : ℕ) (k : Kernel) (own ws : Ptr → List Ptr) (q : List Ptr) (m : Ptr)
    → IsLocked k own ws null
    → IsRunning k q
    → m ≢ null
    → k.cpu.current_thread ≢ null
    → (k.thread k.cpu.current_thread).state ≡ ready
    → (k.mutex m).owner ≡ null
    → let t = k.cpu.current_thread in
      (k' : Kernel) × (mutex_lock_round c f m k
        ≡ (preempt_enable c.policy f k' >>= λ k3. some (returned k3)))
      × IsLocked k' (update own t (m ∷ own t)) ws null
      × IsRunning k' q
      × ((k'.mutex m).owner ≡ t)
unfolding mutex_lock_round preempt_disable
mutex_lock_round-take c f k own ws q m l run nm nt alive vacant =
    let t = k.cpu.current_thread in
    let k1 = preempt_disable k in
    let l2 =
      take_mutex-IsLocked k1 own ws t m (cpu-IsLocked k k1.cpu own ws null l) nt nm vacant alive in
    let not_mine : ((k.mutex m).owner == t) ≡ false = ground arith in
    let vacant_test : ((k.mutex m).owner == null) ≡ true = ground arith in
    (
      take_mutex t m k1,
      rw (==-false m null nm, ==-false t null nt, not_mine, vacant_test) refl,
      l2,
      spared-IsRunning k1 (take_mutex t m k1) q (cpu-IsRunning k k1.cpu q run)
          (take_mutex-IsSpared t m k1),
      l2.owner t m nt (ground arith),
    )

-- A mutex_lock of a mutex that another thread owns, where lockdep sees no cycle, blocks the
-- current thread: it leaves the run queue, and with priority inheritance the owner runs at no less
-- than its priority. The invariant is kept, but the wait queue then holds the new waiter alone:
-- those who waited before are in no queue.
pub mutex_lock_round-IsWaiting :
    (c : Config) (f : ℕ) (k : Kernel) (own ws : Ptr → List Ptr) (q : List Ptr) (m : Ptr)
    → IsLocked k own ws null
    → IsRunning k q
    → ((a : Ptr) → IsPriority (k.thread a))
    → IsShort own ws f
    → length q ≤ f
    → m ≢ null
    → k.cpu.current_thread ≢ null
    → (k.thread k.cpu.current_thread).state ≡ ready
    → (k.mutex m).owner ≢ null
    → (k.mutex m).owner ≢ k.cpu.current_thread
    → (c.lockdep && lockdep_would_deadlock (preempt_disable k) k.cpu.current_thread m) ≡ false
    → let k1 = preempt_disable k in
      let t = k.cpu.current_thread in
      (k' : Kernel) × (mutex_lock_round c (suc (suc f)) m k
        ≡ (preempt_enable c.policy (suc (suc f)) (set_need_resched 1 k') >>= λ k3. some (again k3)))
      × IsWaiting c k1 k' own ws q t m
unfolding mutex_lock_round preempt_disable
mutex_lock_round-IsWaiting c f k own ws q m l run prios short fuel nm nt alive owned ne sound =
    let t = k.cpu.current_thread in
    let k1 = preempt_disable k in
    let (k', e, w) =
      block-IsWaiting c f k1 own ws q t m (cpu-IsLocked k k1.cpu own ws null l)
        (cpu-IsRunning k k1.cpu q run) prios short nm nt owned alive refl (omega arith) in
    let other : ((k.mutex m).owner == t) ≡ false = ==-false (k.mutex m).owner t ne in
    (
      k',
      rw
          (
            ==-false m null nm,
            ==-false t null nt,
            other,
            ==-false (k.mutex m).owner null owned,
            sound,
          )
          e,
      w,
    )
