-- ===== src/Sched/Rounds.antt =====
-- One switch of the round robin of src/thread.cc, and what holds over all of them.
use mathlib.Core.Path.{subst}
use micro_kernel_using_c_plu.Prelude.{
  ℕ, zero, suc, ◌≡◌, ◌≢◌, refl, true, List, [], ◌∷◌, some, arith, ◌==◌, inl, inr, Bool-cases, ap,
  sym, ◌∙◌,
}
use micro_kernel_using_c_plu.Prelude.Store.{Ptr, null, has}
use micro_kernel_using_c_plu.Kernel.{
  Kernel, rr, ready, next_of, trampoline, in_yield, in_resched, Resume, put_thread,
  set_need_resched,
}
use micro_kernel_using_c_plu.Runqueue.{is_ready}
use micro_kernel_using_c_plu.Runqueue.Turn.{Turned, turn}
use micro_kernel_using_c_plu.Fpsimd.{fpsimd_save}
use micro_kernel_using_c_plu.Fpsimd.RoundTrip.{fpsimd_save-links, fpsimd_save-cpu, fpsimd_load-cpu}
use micro_kernel_using_c_plu.Sched.{
  need_resched_none, do_switch, switch_in, resched_next, yield_next, sched_resched_from_irq_tail,
  thread_yield,
}
use micro_kernel_using_c_plu.Sched.Switching.{switch_in-thread, do_switch-current}
use micro_kernel_using_c_plu.Sched.Blocking.{IsRunning}

-- `k'` has the queue, the states and the processor's thread of `k`, with preemption enabled.
pub record Keeps (k k' : Kernel) : Type 0 where
  pub next : (a : Ptr) → next_of k' a ≡ next_of k a
  pub state : (a : Ptr) → (k'.thread a).state ≡ (k.thread a).state
  pub enabled : k'.cpu.preempt_cnt ≡ 0

-- A switch of the round robin, at the end of an interrupt or by thread_yield, and the slice of the
-- thread that runs then, in which no thread is queued, blocked or woken.
pub data Switch : Kernel → Kernel → Type 0 where
  resched :
      (k k1 k2 : Kernel) (f : ℕ)
      → sched_resched_from_irq_tail rr f k ≡ some k1
      → Keeps k1 k2
      → k2.cpu.current_thread ≡ k1.cpu.current_thread
      → Switch k k2
  yield :
      (k k1 k2 : Kernel) (f : ℕ)
      → thread_yield rr f k ≡ some k1
      → Keeps k1 k2
      → k2.cpu.current_thread ≡ k1.cpu.current_thread
      → Switch k k2

pub data Switches : ℕ → Kernel → Kernel → Type 0 where
  done : {k : Kernel} → Switches 0 k k
  turns : {n : ℕ} {k k1 k2 : Kernel} → Switch k k1 → Switches n k1 k2 → Switches (suc n) k k2

switch_in-preempt : (s : Resume) (k : Kernel) → (switch_in s k).cpu.preempt_cnt ≡ k.cpu.preempt_cnt
unfolding switch_in
switch_in-preempt trampoline k = refl
switch_in-preempt in_yield k = ap (λ c. c.preempt_cnt) (fpsimd_load-cpu k)
switch_in-preempt in_resched k = ap (λ c. c.preempt_cnt) (fpsimd_load-cpu k)

do_switch-Keeps :
    (site : Resume) (cur t : Ptr) (k : Kernel)
    → k.cpu.preempt_cnt ≡ 0
    → Keeps k (do_switch site cur t k)
unfolding do_switch
do_switch-Keeps site cur t k en =
    let k1 = fpsimd_save k in
    let k2 = record k1 { cpu = record (k1.cpu) { current_thread = t } } in
    let k3 = put_thread cur (record (k2.thread cur) { resume = site }) k2 in
    let same = switch_in-thread (k2.thread t).resume k3 in
    record {
      next = λ a. ground (arith, ap (λ h. (h a).next) same, fpsimd_save-links k a);
      state = λ a. ground (arith, ap (λ h. (h a).state) same, fpsimd_save-links k a);
      enabled =
          switch_in-preempt (k2.thread t).resume k3
          ∙ ap (λ z. z.preempt_cnt) (fpsimd_save-cpu k)
          ∙ en;
    }

-- A round: from a READY thread of the ring to the one behind it.
pub record Goes (k k1 : Kernel) : Type 0 where
  pub keeps : Keeps k k1
  pub moved : k1.cpu.current_thread ≡ next_of k k.cpu.current_thread

module _ (f : ℕ) (k : Kernel) (nc : k.cpu.current_thread ≢ null)
    (nn : next_of k k.cpu.current_thread ≢ null)
    (alive : (k.thread k.cpu.current_thread).state ≡ ready) (en : k.cpu.preempt_cnt ≡ 0) where
  resched-Goes : (k1 : Kernel) × (sched_resched_from_irq_tail rr f k ≡ some k1) × Goes k k1
  unfolding sched_resched_from_irq_tail resched_next is_ready
  resched-Goes =
      let cur = k.cpu.current_thread in
      elim (Bool-cases (next_of k cur == cur)) [
        | inl e ↦ (
          set_need_resched need_resched_none k,
          ground arith,
          record {
            keeps = record { next = λ a. refl; state = λ a. refl; enabled = en };
            moved = ground arith;
          },
        )
        | inr n ↦ (
          do_switch in_resched cur (next_of k cur) k,
          ground arith,
          record {
            keeps = do_switch-Keeps in_resched cur (next_of k cur) k en;
            moved = do_switch-current in_resched cur (next_of k cur) k;
          },
        )
      ]

  yield-Goes : (k1 : Kernel) × (thread_yield rr f k ≡ some k1) × Goes k k1
  unfolding thread_yield yield_next
  yield-Goes =
      let cur = k.cpu.current_thread in
      elim (Bool-cases (next_of k cur == cur)) [
        | inl e ↦ (
          k,
          ground arith,
          record {
            keeps = record { next = λ a. refl; state = λ a. refl; enabled = en };
            moved = ground arith;
          },
        )
        | inr n ↦ (
          do_switch in_yield cur (next_of k cur) k,
          ground arith,
          record {
            keeps = do_switch-Keeps in_yield cur (next_of k cur) k en;
            moved = do_switch-current in_yield cur (next_of k cur) k;
          },
        )
      ]

-- What holds throughout: the processor's thread is one of `q`, a ring of READY threads.
pub record Round (k : Kernel) (q : List Ptr) : Type 0 where
  pub current : has k.cpu.current_thread q ≡ true
  pub alive : (a : Ptr) → has a q ≡ true → a ≢ null × ((k.thread a).state ≡ ready)
  pub linked : (a : Ptr) → has a q ≡ true → has (next_of k a) q ≡ true
  pub enabled : k.cpu.preempt_cnt ≡ 0

Turned-linked :
    (k : Kernel) (q : List Ptr) (a : Ptr) (ys : List Ptr)
    → has a q ≡ true
    → Turned (next_of k) q a ys
    → (a ≢ null) × (has (next_of k a) q ≡ true)
Turned-linked k q a [] h t = (t.chain.1, ground (arith, t.chain, h))
Turned-linked k q a (y ∷ ys) h t = (t.chain.1, ground (arith, t.chain, t.same y))

pub queue-Round :
    (k : Kernel) (q : List Ptr)
    → IsRunning k q
    → has k.cpu.current_thread q ≡ true
    → k.cpu.preempt_cnt ≡ 0
    → Round k q
queue-Round k q run h en = record {
  current = h;
  alive = λ a i.
      let (ys, t) = turn k q a run.queue i in ((Turned-linked k q a ys i t).0, run.all_ready a i);
  linked = λ a i. let (ys, t) = turn k q a run.queue i in (Turned-linked k q a ys i t).1;
  enabled = en;
}

pub Goes-Round : (k k1 : Kernel) (q : List Ptr) → Round k q → Goes k k1 → Round k1 q
Goes-Round k k1 q r g = record {
  current = ground (arith, g.moved, r.linked k.cpu.current_thread r.current);
  alive = λ a h. ((r.alive a h).0, g.keeps.state a ∙ (r.alive a h).1);
  linked = λ a h. ground (arith, g.keeps.next a, r.linked a h);
  enabled = g.keeps.enabled;
}

slice-Goes :
    (k k1 k2 : Kernel)
    → Goes k k1
    → Keeps k1 k2
    → k2.cpu.current_thread ≡ k1.cpu.current_thread
    → Goes k k2
slice-Goes k k1 k2 g s same = record {
  keeps = record {
    next = λ a. s.next a ∙ g.keeps.next a;
    state = λ a. s.state a ∙ g.keeps.state a;
    enabled = s.enabled;
  };
  moved = same ∙ g.moved;
}

some-inj : {k k' : Kernel} → some k ≡ some k' → k ≡ k'
some-inj e = cc

module _ (k : Kernel) (q : List Ptr) (r : Round k q) (f : ℕ) where
  pub resched-Goes_of : (k1 : Kernel) × (sched_resched_from_irq_tail rr f k ≡ some k1) × Goes k k1
  resched-Goes_of =
      let cur = k.cpu.current_thread in
      let here = r.alive cur r.current in
      let behind = r.alive (next_of k cur) (r.linked cur r.current) in
      resched-Goes f k here.0 behind.0 here.1 r.enabled

  pub yield-Goes_of : (k1 : Kernel) × (thread_yield rr f k ≡ some k1) × Goes k k1
  yield-Goes_of =
      let cur = k.cpu.current_thread in
      let here = r.alive cur r.current in
      let behind = r.alive (next_of k cur) (r.linked cur r.current) in
      yield-Goes f k here.0 behind.0 here.1 r.enabled

pub Switch-Goes : (q : List Ptr) (k k' : Kernel) → Switch k k' → Round k q → Goes k k'
Switch-Goes q k k' (resched _ k1 _ f e s same) r =
    let (k1', e', g) = resched-Goes_of k q r f in
    slice-Goes k k1 k' (subst (Goes k) (some-inj (sym e' ∙ e)) g) s same
Switch-Goes q k k' (yield _ k1 _ f e s same) r =
    let (k1', e', g) = yield-Goes_of k q r f in
    slice-Goes k k1 k' (subst (Goes k) (some-inj (sym e' ∙ e)) g) s same

pub Switches-Round :
    (n : ℕ) (k k' : Kernel) (q : List Ptr) → Round k q → Switches n k k' → Round k' q
Switches-Round zero k k' q r done = r
Switches-Round (suc n) k k' q r (turns {k1 = k1} s rest) =
    Switches-Round n k1 k' q (Goes-Round k k1 q r (Switch-Goes q k k1 s r)) rest
