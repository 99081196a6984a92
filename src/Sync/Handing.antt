-- ===== src/Sync/Handing.antt =====
-- `hand_over` of mutex_unlock in src/sync.cc: a mutex goes from its owner to a waiter.
use mathlib.Core.Path.{subst}
use micro_kernel_using_c_plu.Prelude.{
  ℕ, suc, ◌≡◌, ◌≢◌, List, [], ◌∷◌, ◌++◌, arith, ◌==◌, inl, inr, Bool-cases, ==-false, ap, some, sym,
  ◌∙◌,
}
use micro_kernel_using_c_plu.Prelude.Store.{Ptr, null, update, erase, Chain-ne_null, length-erase}
use micro_kernel_using_c_plu.Kernel.{Kernel, ready, blocked, set_waiters}
use micro_kernel_using_c_plu.Sched.{thread_effective_priority, sched_make_runnable}
use micro_kernel_using_c_plu.Sched.Priority.{IsPriority}
use micro_kernel_using_c_plu.Sched.Blocking.{IsRunning, IsWoken, sched_make_runnable-IsWoken}
use micro_kernel_using_c_plu.Sync.{
  Config, Popped, recompute_effective_priority, hand_over, request_switch,
}
use micro_kernel_using_c_plu.Sync.Pop.{IsPop}
use micro_kernel_using_c_plu.Sync.Owned.{IsRemoved}
use micro_kernel_using_c_plu.Sync.Locked.{IsLocked}
use micro_kernel_using_c_plu.Sync.Moved.{
  IsFree, pop-IsLocked, pop-IsFree, add-IsLocked, woken-IsLocked,
}
use micro_kernel_using_c_plu.Sync.Raising.{
  IsShort, IsRaising, raising-IsLocked, raising-IsRunning, recompute-IsRaising, apply_pi-IsRaising,
}
use micro_kernel_using_c_plu.Sync.Spared.{
  IsSpared, spared-IsRunning, spared-IsPriority, remove-IsSpared, handed, handed-IsSpared,
  handed-owner, handed-cpu, handed-served, handed-SameWait, remove-SameWait,
}
use micro_kernel_using_c_plu.Sync.Released.{
  IsHandedOver, cpu-IsLocked, cpu-IsRunning, switched, request_switch-switched,
}
use micro_kernel_using_c_plu.Sync.Dropped.{remaining, remaining-unowned, remaining-IsLocked}

module _ (c : Config) (f : ℕ) (k : Kernel) (own ws : Ptr → List Ptr) (q : List Ptr) (m : Ptr)
    (l : IsLocked k own ws null) (run : IsRunning k q) (prios : (a : Ptr) → IsPriority (k.thread a))
    (short : IsShort own ws f) (nm : m ≢ null) (nt : k.cpu.current_thread ≢ null)
    (mine : (k.mutex m).owner ≡ k.cpu.current_thread)
    (alive : (k.thread k.cpu.current_thread).state ≡ ready) where
  module _ (k2 : Kernel)
      (r : IsRemoved k k.cpu.current_thread m (own k.cpu.current_thread) k2) where
    locked2 : IsLocked k2 (remaining own k.cpu.current_thread m) ws m
    locked2 = remaining-IsLocked k own ws k.cpu.current_thread m l k2 nt r

    module _ (p : Popped) (pop : IsPop k2 (ws m) p) where
      spared : IsSpared k (handed m p)
      spared =
          let a = remove-IsSpared k k2 k.cpu.current_thread m (own k.cpu.current_thread) r in
          let b = handed-IsSpared k2 m (ws m) p pop in
          record {
            next = λ x. b.next x ∙ a.next x;
            state = λ x. b.state x ∙ a.state x;
            base = λ x. b.base x ∙ a.base x;
            effective = λ x. b.effective x ∙ a.effective x;
            head = b.head ∙ a.head;
            tail = b.tail ∙ a.tail;
          }

      waits : (k.thread p.thread).state ≡ blocked
      waits = (l.waiting m p.thread nm pop.member).1

      new_owner : p.thread ≢ null
      new_owner =
          Chain-ne_null _ (k2.mutex m).waiters p.thread (ws m) null (locked2.waitq m nm).chain
            pop.member

      ws2 : Ptr → List Ptr
      ws2 = update ws m (erase p.thread (ws m))

      own2 : Ptr → List Ptr
      own2 = update (remaining own k.cpu.current_thread m) p.thread (m ∷ own p.thread)

      elsewhere : remaining own k.cpu.current_thread m p.thread ≡ own p.thread
      unfolding remaining
      elsewhere = ground (arith, waits)

      free : IsFree ws2 p.thread
      unfolding ws2
      free = pop-IsFree k2 (remaining own k.cpu.current_thread m) ws m m p locked2 nm pop

      locked3 : IsLocked (handed m p) own2 ws2 null
      unfolding own2 ws2
      locked3 =
          subst
            (λ ms.
              IsLocked (handed m p)
                (update (remaining own k.cpu.current_thread m) p.thread (m ∷ ms)) ws2 null)
            elsewhere
            (add-IsLocked (set_waiters m p.head p.kernel) (remaining own k.cpu.current_thread m) ws2
              p.thread m
              (pop-IsLocked k2 (remaining own k.cpu.current_thread m) ws m m p locked2 nm pop)
              new_owner nm free (remaining-unowned k own ws k.cpu.current_thread m l mine))

      short2 : IsShort own2 ws2 (suc f)
      unfolding remaining own2 ws2
      short2 a b = ground (
        arith,
        short a b,
        length-erase p.thread (ws m),
        length-erase m (own k.cpu.current_thread),
      )

      woken : IsWoken (handed m p) (sched_make_runnable p.thread (handed m p)) q p.thread
      woken =
          sched_make_runnable-IsWoken (handed m p) q p.thread
            (spared-IsRunning k (handed m p) q run spared) new_owner (spared.state p.thread ∙ waits)

      -- What `hand_over` does once the new owner is woken, and the rest of the section.
      handed_over :
          (k5 : Kernel) × (hand_over c (suc f) m p ≡ some k5)
          × IsRaising (sched_make_runnable p.thread (handed m p)) k5
      unfolding hand_over
      handed_over =
          let k4 = sched_make_runnable p.thread (handed m p) in
          let l4 = woken-IsLocked (handed m p) k4 own2 ws2 null p.thread q locked3 free woken in
          let (k5, e, raised) =
            apply_pi-IsRaising c (suc f) k4 own2 ws2 m l4 woken_prios short2 nm given in
          (k5, rw (==-false p.thread null new_owner) e, raised)
        where
          woken_prios :
              (a : Ptr) → IsPriority ((sched_make_runnable p.thread (handed m p)).thread a)
          woken_prios a =
              let s = spared-IsPriority k (handed m p) prios spared in
              elim (Bool-cases (a == p.thread)) [
                | inl e ↦ record {
                  at_least = ground (arith, woken.self, (s p.thread).at_least);
                  at_most = ground (arith, woken.self, (s p.thread).at_most);
                }
                | inr n ↦ record {
                  at_least = ground (arith, woken.others a, (s a).at_least);
                  at_most = ground (arith, woken.others a, (s a).at_most);
                }
              ]

          given : ((sched_make_runnable p.thread (handed m p)).mutex m).owner ≢ null
          given =
              let same = ap (λ z. (z.mutex m).owner) woken.kept in
              λ z. new_owner (sym (handed-owner k2 m (ws m) p pop) ∙ sym same ∙ z)

      ranks : (a : Ptr) → thread_effective_priority k2 a ≡ thread_effective_priority k a
      unfolding thread_effective_priority
      ranks a =
          let s = remove-IsSpared k k2 k.cpu.current_thread m (own k.cpu.current_thread) r in
          ground (arith, s.effective a)

      switched-IsHandedOver :
          (k5 k6 : Kernel)
          → IsRaising (sched_make_runnable p.thread (handed m p)) k5
          → IsRaising k5 k6
          → IsHandedOver k
              (request_switch p.thread k.cpu.current_thread k6)
              own
              ws
              q
              k.cpu.current_thread
              m
              p.thread
      unfolding remaining own2 ws2 thread_effective_priority
      switched-IsHandedOver k5 k6 r5 r6 =
          let t = k.cpu.current_thread in
          let n = p.thread in
          let k4 = sched_make_runnable n (handed m p) in
          let l4 = woken-IsLocked (handed m p) k4 own2 ws2 null n q locked3 free woken in
          let l6 = raising-IsLocked k5 k6 own2 ws2 (raising-IsLocked k4 k5 own2 ws2 l4 r5) r6 in
          let run6 =
            raising-IsRunning k5 k6 (q ++ n ∷ [])
              (raising-IsRunning k4 k5 (q ++ n ∷ []) woken.running r5) r6 in
          let cpu6 : k6.cpu ≡ k.cpu =
            ap (λ z. z.cpu) r6.kept
            ∙ ap (λ z. z.cpu) r5.kept
            ∙ ap (λ z. z.cpu) woken.kept
            ∙ handed-cpu k2 m (ws m) p pop
            ∙ ap (λ z. z.cpu) r.kept in
          subst (λ z. IsHandedOver k z own ws q t m n)
            (sym (request_switch-switched n t k6 new_owner (ap (λ z. z.current_thread) cpu6)))
            (record {
              waited = pop.member;
              highest = λ a h. ground (arith, pop.highest a h, ranks a, ranks n);
              owner =
                  ap (λ z. (z.mutex m).owner) r6.kept
                  ∙ ap (λ z. (z.mutex m).owner) r5.kept
                  ∙ ap (λ z. (z.mutex m).owner) woken.kept
                  ∙ handed-owner k2 m (ws m) p pop;
              locked = cpu-IsLocked k6 (switched n t k6) own2 ws2 null l6;
              running = cpu-IsRunning k6 (switched n t k6) (q ++ n ∷ []) run6;
              served = ground (
                arith,
                r6.threads n,
                r5.threads n,
                ap (λ z. z.waiting_on) woken.self,
                handed-served m p,
              );
              others = λ a na. ground (
                arith,
                r6.threads a,
                r5.threads a,
                woken.others a na,
                handed-SameWait k2 m (ws m) p pop a na,
                remove-SameWait k k2 t m (own t) r a,
              );
              prios = r6.prios;
              cpu = ground (arith, cpu6);
            })

      -- Once the mutex is off the owner's list and `p` is popped, the rest of the unlock hands over.
      pub handing-IsHandedOver :
          (k5 : Kernel) × (k6 : Kernel) × (hand_over c (suc f) m p ≡ some k5)
          × (recompute_effective_priority c (suc f) k.cpu.current_thread k5 ≡ some k6)
          × IsHandedOver k
              (request_switch p.thread k.cpu.current_thread k6)
              own
              ws
              q
              k.cpu.current_thread
              m
              p.thread
      handing-IsHandedOver =
          let k4 = sched_make_runnable p.thread (handed m p) in
          let (k5, given, r5) = handed_over in
          let l4 = woken-IsLocked (handed m p) k4 own2 ws2 null p.thread q locked3 free woken in
          let l5 = raising-IsLocked k4 k5 own2 ws2 l4 r5 in
          let (k6, e, r6) =
            recompute-IsRaising c (suc f) k5 own2 ws2 k.cpu.current_thread l5 r5.prios short2 nt in
          (k5, k6, given, e, switched-IsHandedOver k5 k6 r5 r6)
