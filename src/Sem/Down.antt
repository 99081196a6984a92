-- ===== src/Sem/Down.antt =====
-- `sem_down` of src/sync.cc.
use micro_kernel_using_c_plu.Prelude.{
  ℕ, ◌≤◌, ◌≡◌, ◌≢◌, refl, false, true, List, [], ◌∷◌, arith, inl, inr, Bool-cases, ==-false, ap,
  ◌⊎◌, ◌∙◌,
}
use micro_kernel_using_c_plu.Prelude.Int.{pred, is_negative}
use micro_kernel_using_c_plu.Prelude.Store.{Ptr, null, erase, length}
use micro_kernel_using_c_plu.Kernel.{
  Kernel, ready, blocked, put_sem, set_wait_next, set_waiting_on, set_need_resched,
}
use micro_kernel_using_c_plu.Sched.{preempt_disable, preempt_enable}
use micro_kernel_using_c_plu.Sched.Blocking.{IsRunning, sched_block_current-IsBlocked}
use micro_kernel_using_c_plu.Sync.{Config}
use micro_kernel_using_c_plu.Sync.Waitq.{IsWaitq}
use micro_kernel_using_c_plu.Sync.Spared.{IsSpared, spared-IsRunning}
use micro_kernel_using_c_plu.Sync.Released.{cpu-IsRunning}
use micro_kernel_using_c_plu.Sem.{block_on_sem, sem_down}

-- The kernel with the count lowered.
abbrev pub lowered : Ptr → Kernel → Kernel
lowered s k = put_sem s (record (k.sem s) { count = pred (k.sem s).count }) k

-- `t` has blocked on the semaphore, whose queue holds it alone.
pub record IsDown (k k' : Kernel) (s t : Ptr) (q : List Ptr) : Type 0 where
  pub count : (k'.sem s).count ≡ pred (k.sem s).count
  pub queue : IsWaitq k' (k'.sem s).waiters (t ∷ [])
  pub running : IsRunning k' (erase t q)
  pub is_blocked : (k'.thread t).state ≡ blocked
  pub others : (a : Ptr) → a ≢ t → (k'.thread a).state ≡ (k.thread a).state

-- The thread in front of the queue of the semaphore.
abbrev enqueued : Ptr → Ptr → Kernel → Kernel
enqueued t s k =
    let k2 = set_wait_next t (k.sem s).waiters (set_waiting_on t null k) in
    put_sem s (record (k2.sem s) { waiters = t }) k2

enqueued-IsSpared : (t s : Ptr) (k : Kernel) → IsSpared k (enqueued t s (lowered s k))
enqueued-IsSpared t s k = record {
  next = λ a. ground arith;
  state = λ a. ground arith;
  base = λ a. ground arith;
  effective = λ a. ground arith;
  head = refl;
  tail = refl;
}

block_on_sem-IsDown :
    (c : Config) (f : ℕ) (k : Kernel) (s : Ptr) (q : List Ptr)
    → IsRunning k q
    → length q ≤ f
    → k.cpu.current_thread ≢ null
    → (k.thread k.cpu.current_thread).state ≡ ready
    → let t = k.cpu.current_thread in
      (k' : Kernel) × (block_on_sem c f t s (lowered s k)
        ≡ preempt_enable c.policy f (set_need_resched 1 k'))
      × IsDown k k' s t q
unfolding block_on_sem
block_on_sem-IsDown c f k s q run fuel nt alive =
    let t = k.cpu.current_thread in
    let k1 = enqueued t s (lowered s k) in
    let (k2, e, b) =
      sched_block_current-IsBlocked f k1 q (spared-IsRunning k k1 q run (enqueued-IsSpared t s k))
        fuel nt (ground arith) in
    (
      k2,
      rw e refl,
      record {
        count = ap (λ z. (z.sem s).count) b.kept ∙ ground arith;
        queue = record {
          chain = ground (arith, b.self, ap (λ z. z.sem) b.kept);
          distinct = (refl, tt);
        };
        running = b.running;
        is_blocked = ap (λ z. z.state) b.self;
        others = λ a ne. ground (arith, b.others a ne);
      },
    )

lowered-count : (s : Ptr) (k : Kernel) → ((lowered s k).sem s).count ≡ pred (k.sem s).count
lowered-count s k = ground arith

-- A sem_down takes a unit and returns if there is one; if not, it blocks the current thread, which
-- leaves the run queue. The wait queue then holds this thread alone, whoever waited before.
pub sem_down-IsDown :
    (c : Config) (f : ℕ) (k : Kernel) (s : Ptr) (q : List Ptr)
    → IsRunning k q
    → length q ≤ f
    → s ≢ null
    → k.cpu.current_thread ≢ null
    → (k.thread k.cpu.current_thread).state ≡ ready
    → let k1 = preempt_disable k in
      ((is_negative (pred (k.sem s).count) ≡ false)
        × (sem_down c f s k ≡ preempt_enable c.policy f (lowered s k1)))
      ⊎ ((is_negative (pred (k.sem s).count) ≡ true)
          × ((k' : Kernel) × (sem_down c f s k ≡ preempt_enable c.policy f (set_need_resched 1 k'))
              × IsDown k1 k' s k.cpu.current_thread q))
unfolding sem_down preempt_disable
sem_down-IsDown c f k s q run fuel ns nt alive =
    let t = k.cpu.current_thread in
    let k1 = preempt_disable k in
    let same = ap is_negative (lowered-count s k) in
    elim (Bool-cases (is_negative (pred (k.sem s).count))) [
      | inl lack ↦
          let (k', e, d) =
            block_on_sem-IsDown c f k1 s q (cpu-IsRunning k k1.cpu q run) fuel nt alive in
          inr (lack, (k', rw (==-false s null ns, ==-false t null nt, same ∙ lack) e, d))
      | inr has_one ↦ inl (has_one, rw (==-false s null ns, same ∙ has_one) refl)
    ]
