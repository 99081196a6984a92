-- ===== src/Sem/Up.antt =====
-- `sem_up` of src/sync.cc.
use mathlib.Core.Path.{subst}
use micro_kernel_using_c_plu.Prelude.{
  ℕ, ◌<◌, ◌≡◌, ◌≢◌, refl, false, true, List, [], ◌∷◌, arith, inl, inr, Bool-cases, ==-false, ap,
  ◌⊎◌, Option, none, some, sym, ◌∙◌, ◌>>=◌,
}
use micro_kernel_using_c_plu.Prelude.Int.{succ, is_nonpositive}
use micro_kernel_using_c_plu.Prelude.Store.{Ptr, null, has, length, Chain, Chain-ne_null}
use micro_kernel_using_c_plu.Kernel.{Kernel, blocked, put_sem}
use micro_kernel_using_c_plu.Sched.{sched_make_runnable, preempt_disable, preempt_enable}
use micro_kernel_using_c_plu.Sched.Blocking.{IsRunning}
use micro_kernel_using_c_plu.Sync.{Config, Popped, waitq_pop_highest}
use micro_kernel_using_c_plu.Sync.Waitq.{wait_next_of, IsWaitq}
use micro_kernel_using_c_plu.Sync.Pop.{IsPop, waitq_pop_highest-IsPop, waitq_pop_highest-empty}
use micro_kernel_using_c_plu.Sync.Released.{cpu-IsRunning}
use micro_kernel_using_c_plu.Sem.{wake_waiter, sem_up}
use micro_kernel_using_c_plu.Sem.Woken.{
  IsWokenUp, raised, emptied, woken-IsWokenUp, cpu-IsWokenUp, wake_waiter-cpu,
}

module _ (c : Config) (f : ℕ) (k : Kernel) (s : Ptr) (xs q : List Ptr)
    (wait : IsWaitq k (k.sem s).waiters xs) (run : IsRunning k q)
    (asleep : (a : Ptr) → has a xs ≡ true → (k.thread a).state ≡ blocked) where
  raised-IsWaitq : (ys : List Ptr) → xs ≡ ys → IsWaitq (raised s k) ((raised s k).sem s).waiters ys
  raised-IsWaitq ys e =
      let head : ((raised s k).sem s).waiters ≡ (k.sem s).waiters = ground arith in
      subst (IsWaitq (raised s k) ((raised s k).sem s).waiters) e (record {
        chain = subst (λ h. Chain (wait_next_of k) h xs null) (sym head) wait.chain;
        distinct = wait.distinct;
      })

  -- The section of `sem_up` on a queue that is not empty.
  pop-IsWokenUp :
      (x : Ptr) (ys : List Ptr)
      → xs ≡ x ∷ ys
      → length xs < f
      → (k' : Kernel) × ((waitq_pop_highest f ((raised s k).sem s).waiters (raised s k) >>= λ p.
            some (wake_waiter s p))
          ≡ some k')
        × ((n : Ptr) × IsWokenUp k k' s xs q n)
  pop-IsWokenUp x ys e fuel =
      let w = raised-IsWaitq (x ∷ ys) e in
      let w' : IsWaitq (raised s k) x (x ∷ ys) = record {
        chain = (refl, w.chain.1, w.chain.2);
        distinct = w.distinct;
      } in
      let few = ap length e in
      let (p, popped, is) = waitq_pop_highest-IsPop f (raised s k) x ys w' (omega arith) in
      let pop = subst (λ z. IsPop (raised s k) z p) (sym e) is in
      let nn =
        Chain-ne_null (wait_next_of k) (k.sem s).waiters p.thread xs null wait.chain pop.member in
      let up = woken-IsWokenUp k s xs q p pop run asleep nn wait.distinct in
      let found = ap (λ h. waitq_pop_highest f h (raised s k)) w.chain.0 ∙ popped in
      let (cpu, same) = wake_waiter-cpu s p nn in
      (
        record (sched_make_runnable p.thread (emptied s p)) { cpu = cpu },
        rw found (ap some same),
        (
          p.thread,
          cpu-IsWokenUp k (sched_make_runnable p.thread (emptied s p)) cpu s xs q p.thread up,
        ),
      )

  pop-none :
      xs ≡ []
      → (waitq_pop_highest f ((raised s k).sem s).waiters (raised s k) >>= λ p.
          some (wake_waiter s p))
        ≡ some (put_sem s (record ((raised s k).sem s) { waiters = null }) (raised s k))
  unfolding wake_waiter
  pop-none e =
      let w = raised-IsWaitq [] e in rw (w.chain, waitq_pop_highest-empty f (raised s k)) refl

raised-count : (s : Ptr) (k : Kernel) → ((raised s k).sem s).count ≡ succ (k.sem s).count
raised-count s k = ground arith

bind-some :
    (o : Option Popped) (g : Popped → Kernel) (h : Kernel → Option Kernel) (k : Kernel)
    → (o >>= λ p. some (g p)) ≡ some k
    → (o >>= λ p. h (g p)) ≡ h k
bind-some none g h k e = absurd cc
bind-some (some p) g h k e = cc

put_sem-twice :
    (k : Kernel) (s : Ptr)
    → put_sem s (record ((raised s k).sem s) { waiters = null }) (raised s k)
      ≡ put_sem s (record { count = succ (k.sem s).count; waiters = null }) k
put_sem-twice k s = ground arith

sem_up-enough :
    (c : Config) (f : ℕ) (k : Kernel) (s : Ptr)
    → s ≢ null
    → is_nonpositive (succ (k.sem s).count) ≡ false
    → sem_up c f s k ≡ preempt_enable c.policy f (raised s (preempt_disable k))
unfolding sem_up preempt_disable
sem_up-enough c f k s ns e = rw (==-false s null ns, ap is_nonpositive (raised-count s k) ∙ e) refl

sem_up-short :
    (c : Config) (f : ℕ) (k k' : Kernel) (s : Ptr)
    → s ≢ null
    → is_nonpositive (succ (k.sem s).count) ≡ true
    → (let k2 = raised s (preempt_disable k) in
        waitq_pop_highest f (k2.sem s).waiters k2 >>= λ p. some (wake_waiter s p))
      ≡ some k'
    → sem_up c f s k ≡ preempt_enable c.policy f k'
unfolding sem_up preempt_disable
sem_up-short c f k k' s ns e run =
    let k2 = raised s (preempt_disable k) in
    rw (==-false s null ns, ap is_nonpositive (raised-count s k) ∙ e)
      (bind-some (waitq_pop_highest f (k2.sem s).waiters k2) (wake_waiter s)
        (preempt_enable c.policy f) k' run)

-- A sem_up raises the count. If the count was negative and threads wait, one of the highest
-- priority is woken, and stands READY at the end of the run queue; in the other cases nothing else
-- changes.
pub sem_up-IsWokenUp :
    (c : Config) (f : ℕ) (k : Kernel) (s : Ptr) (xs q : List Ptr)
    → IsWaitq k (k.sem s).waiters xs
    → IsRunning k q
    → ((a : Ptr) → has a xs ≡ true → (k.thread a).state ≡ blocked)
    → length xs < f
    → s ≢ null
    → let k1 = preempt_disable k in
      ((is_nonpositive (succ (k.sem s).count) ≡ false)
        × (sem_up c f s k ≡ preempt_enable c.policy f (raised s k1)))
      ⊎ ((is_nonpositive (succ (k.sem s).count) ≡ true)
          × (((xs ≡ [])
                × (sem_up c f s k
                    ≡ preempt_enable c.policy f
                        (put_sem s (record { count = succ (k.sem s).count; waiters = null }) k1)))
              ⊎ ((k' : Kernel) × (sem_up c f s k ≡ preempt_enable c.policy f k')
                  × ((n : Ptr) × IsWokenUp k1 k' s xs q n))))
unfolding preempt_disable
sem_up-IsWokenUp c f k s xs q wait run asleep fuel ns =
    elim (Bool-cases (is_nonpositive (succ (k.sem s).count))) [
      | inl short ↦ inr (short, go xs refl short)
      | inr enough ↦ inl (enough, sem_up-enough c f k s ns enough)
    ]
  where
    k1 : Kernel
    k1 = preempt_disable k

    wait1 : IsWaitq k1 (k1.sem s).waiters xs
    wait1 = record { chain = wait.chain; distinct = wait.distinct }

    run1 : IsRunning k1 q
    run1 = cpu-IsRunning k k1.cpu q run

    go :
        (ys : List Ptr)
        → xs ≡ ys
        → is_nonpositive (succ (k.sem s).count) ≡ true
        → ((xs ≡ [])
            × (sem_up c f s k
                ≡ preempt_enable c.policy f
                    (put_sem s (record { count = succ (k.sem s).count; waiters = null }) k1)))
          ⊎ ((k' : Kernel) × (sem_up c f s k ≡ preempt_enable c.policy f k')
              × ((n : Ptr) × IsWokenUp k1 k' s xs q n))
    go [] e short = inl (
      e,
      sem_up-short c f k (put_sem s (record { count = succ (k.sem s).count; waiters = null }) k1) s
          ns short (pop-none c f k1 s xs q wait1 run1 asleep e ∙ ap some (put_sem-twice k1 s)),
    )
    go (y ∷ ys) e short =
        let (k', r, up) = pop-IsWokenUp c f k1 s xs q wait1 run1 asleep y ys e fuel in
        inr (k', sem_up-short c f k k' s ns short r, up)
