-- ===== src/Sem/Woken.antt =====
-- The waiter that `sem_up` of src/sync.cc wakes.
use micro_kernel_using_c_plu.Prelude.{
  ◌≤◌, ◌≡◌, ◌≢◌, refl, true, List, [], ◌∷◌, ◌++◌, arith, inl, inr, Bool-cases, not, ltb, ◌&&◌,
  ==-false, ap, ◌∙◌,
}
use micro_kernel_using_c_plu.Prelude.Int.{succ}
use micro_kernel_using_c_plu.Prelude.Store.{
  Ptr, null, has, erase, Chain, Distinct, Chain-frame, has-erase_self,
}
use micro_kernel_using_c_plu.Kernel.{Kernel, CpuLocal, is_null, blocked, put_sem}
use micro_kernel_using_c_plu.Sched.{thread_effective_priority, sched_make_runnable}
use micro_kernel_using_c_plu.Sched.Blocking.{IsRunning, IsWoken, sched_make_runnable-IsWoken}
use micro_kernel_using_c_plu.Sync.{Popped}
use micro_kernel_using_c_plu.Sync.Waitq.{wait_next_of, IsWaitq}
use micro_kernel_using_c_plu.Sync.Pop.{IsPop}
use micro_kernel_using_c_plu.Sync.Spared.{IsSpared, spared-IsRunning}
use micro_kernel_using_c_plu.Sync.Released.{cpu-IsRunning}
use micro_kernel_using_c_plu.Sem.{wake_waiter}

-- A waiter of the highest priority, `n`, is woken; the others wait on.
pub record IsWokenUp (k k' : Kernel) (s : Ptr) (xs q : List Ptr) (n : Ptr) : Type 0 where
  pub waited : has n xs ≡ true
  pub highest :
      (a : Ptr) → has a xs ≡ true → thread_effective_priority k a ≤ thread_effective_priority k n
  pub count : (k'.sem s).count ≡ succ (k.sem s).count
  pub queue : IsWaitq k' (k'.sem s).waiters (erase n xs)
  pub running : IsRunning k' (q ++ n ∷ [])

-- The kernel with the count raised.
abbrev pub raised : Ptr → Kernel → Kernel
raised s k = put_sem s (record (k.sem s) { count = succ (k.sem s).count }) k

-- The semaphore without the waiter that was taken out.
abbrev pub emptied : Ptr → Popped → Kernel
emptied s p = put_sem s (record (p.kernel.sem s) { waiters = p.head }) p.kernel

module _ (k : Kernel) (s : Ptr) (xs q : List Ptr) (p : Popped) (pop : IsPop (raised s k) xs p)
    (run : IsRunning k q) (asleep : (a : Ptr) → has a xs ≡ true → (k.thread a).state ≡ blocked)
    (nn : p.thread ≢ null) (d : Distinct xs) where
  emptied-IsSpared : IsSpared k (emptied s p)
  emptied-IsSpared = record {
    next = λ a. ground (arith, pop.others a);
    state = λ a. ground (arith, pop.others a);
    base = λ a. ground (arith, pop.others a);
    effective = λ a. ground (arith, pop.others a);
    head = ap (λ z. z.rq_head) pop.kept;
    tail = ap (λ z. z.rq_tail) pop.kept;
  }

  woken : IsWoken (emptied s p) (sched_make_runnable p.thread (emptied s p)) q p.thread
  woken =
      sched_make_runnable-IsWoken (emptied s p) q p.thread
        (spared-IsRunning k (emptied s p) q run emptied-IsSpared) nn
        (emptied-IsSpared.state p.thread ∙ asleep p.thread pop.member)

  woken-IsWaitq :
      let k' = sched_make_runnable p.thread (emptied s p) in
      IsWaitq k' (k'.sem s).waiters (erase p.thread xs)
  woken-IsWaitq =
      let k' = sched_make_runnable p.thread (emptied s p) in
      let rest : Chain (wait_next_of k') p.head (erase p.thread xs) null =
        Chain-frame (wait_next_of p.kernel) (wait_next_of k') p.head (erase p.thread xs) null
          pop.queue.chain (λ a i. ground (arith, woken.others a, has-erase_self p.thread xs d)) in
      record { chain = ground (arith, ap (λ z. z.sem) woken.kept); distinct = pop.queue.distinct }

  pub woken-IsWokenUp : IsWokenUp k (sched_make_runnable p.thread (emptied s p)) s xs q p.thread
  unfolding thread_effective_priority
  woken-IsWokenUp = record {
    waited = pop.member;
    highest = λ a h. ground (arith, pop.highest a h);
    count = ground (arith, ap (λ z. z.sem) woken.kept, ap (λ z. z.sem) pop.kept);
    queue = woken-IsWaitq;
    running = woken.running;
  }

pub cpu-IsWokenUp :
    (k k' : Kernel) (cpu : CpuLocal) (s : Ptr) (xs q : List Ptr) (n : Ptr)
    → IsWokenUp k k' s xs q n
    → IsWokenUp k (record k' { cpu = cpu }) s xs q n
cpu-IsWokenUp k k' cpu s xs q n up = record {
  waited = up.waited;
  highest = up.highest;
  count = up.count;
  queue = record { chain = up.queue.chain; distinct = up.queue.distinct };
  running = cpu-IsRunning k' cpu (q ++ n ∷ []) up.running;
}

-- The request for a switch at the end of `wake_waiter` touches nothing but the processor's state.
pub wake_waiter-cpu :
    (s : Ptr) (p : Popped)
    → p.thread ≢ null
    → (cpu : CpuLocal) × (wake_waiter s p
        ≡ record (sched_make_runnable p.thread (emptied s p)) { cpu = cpu })
unfolding wake_waiter
wake_waiter-cpu s p nn =
    let k2 = sched_make_runnable p.thread (emptied s p) in
    elim (Bool-cases (
      not (is_null k2.cpu.current_thread)
      && ltb (thread_effective_priority k2 k2.cpu.current_thread)
          (thread_effective_priority k2 p.thread))) [
            | inl e ↦ (record (k2.cpu) { need_resched = 1 }, rw (==-false p.thread null nn, e) refl)
            | inr n ↦ (k2.cpu, rw (==-false p.thread null nn, n) refl)
          ]
