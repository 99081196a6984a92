-- ===== src/Sync/Unlock.antt =====
-- `mutex_unlock` of src/sync.cc by the owner: the invariant on mutexes, and who gets the mutex.
use mathlib.Core.Path.{subst}
use micro_kernel_using_c_plu.Prelude.{
  ℕ, suc, ◌≡◌, ◌≢◌, refl, true, List, [], ◌∷◌, arith, ◌==◌, inl, inr, ==-false, ap, ◌⊎◌, some, sym,
  ◌∙◌,
}
use micro_kernel_using_c_plu.Prelude.Store.{Ptr, null, has, length, Chain, Distinct, length-erase}
use micro_kernel_using_c_plu.Kernel.{Kernel, ready, set_waiters, set_owner}
use micro_kernel_using_c_plu.Sched.{preempt_disable, preempt_enable}
use micro_kernel_using_c_plu.Sched.Priority.{IsPriority}
use micro_kernel_using_c_plu.Sched.Blocking.{IsRunning}
use micro_kernel_using_c_plu.Sync.{
  Config, Popped, thread_owned_mutex_remove, waitq_pop_highest, recompute_effective_priority,
  hand_over, release_mutex, request_switch, mutex_unlock,
}
use micro_kernel_using_c_plu.Sync.Waitq.{wait_next_of, IsWaitq}
use micro_kernel_using_c_plu.Sync.Pop.{IsPop, waitq_pop_highest-IsPop, waitq_pop_highest-empty}
use micro_kernel_using_c_plu.Sync.Owned.{IsRemoved, thread_owned_mutex_remove-IsRemoved}
use micro_kernel_using_c_plu.Sync.Locked.{IsLocked, IsLocked-frame}
use micro_kernel_using_c_plu.Sync.Moved.{free-IsLocked}
use micro_kernel_using_c_plu.Sync.Raising.{
  IsShort, raising-IsLocked, raising-IsRunning, recompute-IsRaising,
}
use micro_kernel_using_c_plu.Sync.Spared.{
  IsSpared, spared-IsRunning, spared-IsPriority, remove-IsSpared, remove-SameWait,
}
use micro_kernel_using_c_plu.Sync.Released.{
  IsHandedOver, IsFreed, cpu-IsLocked, cpu-IsRunning, request_switch-none,
}
use micro_kernel_using_c_plu.Sync.Dropped.{remaining, remaining-unowned, remaining-IsLocked}
use micro_kernel_using_c_plu.Sync.Handing.{handing-IsHandedOver}

-- The calls of `mutex_unlock` in their order.
release-runs :
    (c : Config) (f : ℕ) (t m : Ptr) (k k2 k3 k4 : Kernel) (p : Popped)
    → thread_owned_mutex_remove f t m k ≡ some k2
    → waitq_pop_highest f (k2.mutex m).waiters k2 ≡ some p
    → hand_over c f m p ≡ some k3
    → recompute_effective_priority c f t k3 ≡ some k4
    → release_mutex c f t m k ≡ some (request_switch p.thread t k4)
unfolding release_mutex
release-runs c f t m k k2 k3 k4 p a b d e = rw (a, b, d, e) refl

module _ (c : Config) (f : ℕ) (k : Kernel) (own ws : Ptr → List Ptr) (q : List Ptr) (m : Ptr)
    (l : IsLocked k own ws null) (run : IsRunning k q) (prios : (a : Ptr) → IsPriority (k.thread a))
    (short : IsShort own ws f) (nm : m ≢ null) (nt : k.cpu.current_thread ≢ null)
    (mine : (k.mutex m).owner ≡ k.cpu.current_thread)
    (alive : (k.thread k.cpu.current_thread).state ≡ ready) where
  module _ (k2 : Kernel)
      (r : IsRemoved k k.cpu.current_thread m (own k.cpu.current_thread) k2) where
    locked2 : IsLocked k2 (remaining own k.cpu.current_thread m) ws m
    locked2 = remaining-IsLocked k own ws k.cpu.current_thread m l k2 nt r

    no_head : ws m ≡ [] → (k2.mutex m).waiters ≡ null
    no_head none_wait =
        subst (λ xs. Chain (wait_next_of k2) (k2.mutex m).waiters xs null) none_wait
          (locked2.waitq m nm).chain

    -- With no waiter the mutex is freed.
    freed :
        ws m ≡ []
        → IsLocked
            (set_owner m null (set_waiters m null k2))
            (remaining own k.cpu.current_thread m)
            ws
            null
    freed none_wait =
        free-IsLocked (set_waiters m null k2) (remaining own k.cpu.current_thread m) ws m
          (IsLocked-frame k2 (set_waiters m null k2) (remaining own k.cpu.current_thread m) ws m
            locked2 (λ a. ground (arith, no_head none_wait)) (λ a. refl)
            (λ x a nx h. (refl, refl, refl)))
          (remaining-unowned k own ws k.cpu.current_thread m l mine) (λ a. ap (has a) none_wait)

    short1 : IsShort (remaining own k.cpu.current_thread m) ws (suc f)
    unfolding remaining
    short1 a b =
        ground (
          arith,
          short a b,
          length-erase m (own k.cpu.current_thread),
          short k.cpu.current_thread b,
        )

    release-free :
        thread_owned_mutex_remove (suc f) k.cpu.current_thread m k ≡ some k2
        → ws m ≡ []
        → (k' : Kernel) × (release_mutex c (suc f) k.cpu.current_thread m k ≡ some k')
          × IsFreed k k' own ws q k.cpu.current_thread m
    unfolding hand_over remaining
    release-free removed none_wait =
        let t = k.cpu.current_thread in
        let k3 = set_owner m null (set_waiters m null k2) in
        let s = remove-IsSpared k k2 t m (own t) r in
        let s3 : IsSpared k k3 = record {
          next = s.next;
          state = s.state;
          base = s.base;
          effective = s.effective;
          head = s.head;
          tail = s.tail;
        } in
        let (k4, e, raised) =
          recompute-IsRaising c (suc f) k3 (remaining own k.cpu.current_thread m) ws t
            (freed none_wait) (spared-IsPriority k k3 prios s3) short1 nt in
        (
          k4,
          release-runs c (suc f) t m k k2 k3 k4 (record { thread = null; head = null; kernel = k2 })
                removed
                (ap (λ h. waitq_pop_highest (suc f) h k2) (no_head none_wait)
                  ∙ waitq_pop_highest-empty (suc f) k2)
                refl e
              ∙ ap some (request_switch-none t k4),
          record {
            empty = none_wait;
            owner = ap (λ z. (z.mutex m).owner) raised.kept ∙ ground arith;
            locked =
                raising-IsLocked k3 k4 (remaining own k.cpu.current_thread m) ws (freed none_wait)
                  raised;
            running = raising-IsRunning k3 k4 q (spared-IsRunning k k3 q run s3) raised;
            others = λ a. ground (arith, raised.threads a, remove-SameWait k k2 t m (own t) r a);
            prios = raised.prios;
            cpu = ap (λ z. z.cpu) raised.kept ∙ ap (λ z. z.cpu) r.kept;
          },
        )

    release-handed :
        (x : Ptr) (xs : List Ptr)
        → thread_owned_mutex_remove (suc f) k.cpu.current_thread m k ≡ some k2
        → ws m ≡ x ∷ xs
        → (k' : Kernel) × (release_mutex c (suc f) k.cpu.current_thread m k ≡ some k')
          × ((n : Ptr) × IsHandedOver k k' own ws q k.cpu.current_thread m n)
    release-handed x xs removed wait =
        let t = k.cpu.current_thread in
        let chain : Chain (wait_next_of k2) (k2.mutex m).waiters (x ∷ xs) null =
          subst (λ z. Chain (wait_next_of k2) (k2.mutex m).waiters z null) wait
            (locked2.waitq m nm).chain in
        let queue : IsWaitq k2 x (x ∷ xs) = record {
          chain = (refl, chain.1, chain.2);
          distinct = subst Distinct wait (locked2.waitq m nm).distinct;
        } in
        let fuel = ap length wait in
        let few = short t m in
        let (p, popped, is) = waitq_pop_highest-IsPop (suc f) k2 x xs queue (omega arith) in
        let pop = subst (λ z. IsPop k2 z p) (sym wait) is in
        let (k5, k6, given, e, over) =
          handing-IsHandedOver c f k own ws q m l run prios short nm nt mine alive k2 r p pop in
        (
          request_switch p.thread t k6,
          release-runs c (suc f) t m k k2 k5 k6 p removed
              (ap (λ h. waitq_pop_highest (suc f) h k2) chain.0 ∙ popped) given e,
          (p.thread, over),
        )

  pub release_mutex-IsReleased :
      (xs : List Ptr)
      → ws m ≡ xs
      → (k' : Kernel) × (release_mutex c (suc f) k.cpu.current_thread m k ≡ some k')
        × (IsFreed k k' own ws q k.cpu.current_thread m
            ⊎ ((n : Ptr) × IsHandedOver k k' own ws q k.cpu.current_thread m n))
  release_mutex-IsReleased xs e =
      let t = k.cpu.current_thread in
      let few = short t m in
      let (k2, removed, r) =
        thread_owned_mutex_remove-IsRemoved (suc f) k t m (own t) (l.owned t nt) (l.distinct t)
          (l.listed m t nm nm mine nt) nt (omega arith) in
      go k2 removed r xs e
    where
      go :
          (k2 : Kernel)
          → thread_owned_mutex_remove (suc f) k.cpu.current_thread m k ≡ some k2
          → IsRemoved k k.cpu.current_thread m (own k.cpu.current_thread) k2
          → (xs : List Ptr) → ws m ≡ xs
          → (k' : Kernel) × (release_mutex c (suc f) k.cpu.current_thread m k ≡ some k')
            × (IsFreed k k' own ws q k.cpu.current_thread m
                ⊎ ((n : Ptr) × IsHandedOver k k' own ws q k.cpu.current_thread m n))
      go k2 removed r [] e = let (k', a, b) = release-free k2 r removed e in (k', a, inl b)
      go k2 removed r (x ∷ xs) e =
          let (k', a, b) = release-handed k2 r x xs removed e in (k', a, inr b)

-- The owner's mutex_unlock keeps the invariant on mutexes, the run queue and the priorities: it
-- ends, with a mutex that is free if nobody waited, and otherwise belongs to a waiter of the highest
-- priority, that now stands READY at the end of the run queue.
pub mutex_unlock-IsReleased :
    (c : Config) (f : ℕ) (k : Kernel) (own ws : Ptr → List Ptr) (q : List Ptr) (m : Ptr)
    → IsLocked k own ws null
    → IsRunning k q
    → ((a : Ptr) → IsPriority (k.thread a))
    → IsShort own ws f
    → m ≢ null
    → k.cpu.current_thread ≢ null
    → (k.mutex m).owner ≡ k.cpu.current_thread
    → (k.thread k.cpu.current_thread).state ≡ ready
    → let k1 = preempt_disable k in
      let t = k.cpu.current_thread in
      (k' : Kernel) × (mutex_unlock c (suc f) m k ≡ preempt_enable c.policy (suc f) k')
      × (IsFreed k1 k' own ws q t m ⊎ ((n : Ptr) × IsHandedOver k1 k' own ws q t m n))
unfolding mutex_unlock preempt_disable
mutex_unlock-IsReleased c f k own ws q m l run prios short nm nt mine alive =
    let k1 = preempt_disable k in
    let t = k.cpu.current_thread in
    let (k', e, is) =
      release_mutex-IsReleased c f k1 own ws q m (cpu-IsLocked k k1.cpu own ws null l)
        (cpu-IsRunning k k1.cpu q run) prios short nm nt mine alive (ws m) refl in
    let owns : ((k.mutex m).owner == t) ≡ true = ground arith in
    (k', rw (==-false m null nm, ==-false t null nt, owns, e) refl, is)
