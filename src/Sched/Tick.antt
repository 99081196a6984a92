-- ===== src/Sched/Tick.antt =====
-- `sched_on_tick` of src/thread.cc: the time slice and the request for a switch.
use micro_kernel_using_c_plu.Prelude.{
  ℕ, zero, suc, ◌-◌, ◌≤◌, ◌<◌, ◌≡◌, ◌≢◌, ap, ◌∙◌, ◌⊎◌, inl, inr, Bool-cases, ltb, refl, Bool, true,
  false, List, some, arith, ==-false, if◌then◌else◌,
}
use micro_kernel_using_c_plu.Prelude.Store.{Ptr, null, length}
use micro_kernel_using_c_plu.Kernel.{Kernel, Policy, rr, prio, set_need_resched}
use micro_kernel_using_c_plu.Runqueue.{is_ready, IsQueue}
use micro_kernel_using_c_plu.Runqueue.Scan.{prio_of, SaysGt, rq_has_ready_prio_gt-SaysGt}
use micro_kernel_using_c_plu.Stack.{Memory, stack_guard_ok}
use micro_kernel_using_c_plu.Sched.{
  returns, halts, quantum_ticks, need_resched_normal, need_resched_rotate, use_budget, preempted,
  sched_on_tick,
}

-- n ticks of the time slice of `cur`, with nothing else in between.
abbrev pub slice : ℕ → Policy → Ptr → Kernel → Kernel
slice zero policy cur k = k
slice (suc n) policy cur k = use_budget policy cur (slice n policy cur k)

slice-running :
    (n b : ℕ) (policy : Policy) (cur : Ptr) (k : Kernel)
    → (k.thread cur).budget ≡ b
    → n < b
    → (((slice n policy cur k).thread cur).budget ≡ b - n)
      × ((slice n policy cur k).cpu.need_resched ≡ k.cpu.need_resched)
unfolding use_budget
slice-running zero b policy cur k e lt = (omega arith, refl)
slice-running (suc n) b policy cur k e lt =
    ground (arith, slice-running n b policy cur k e (omega arith))

-- What asks for the switch at the end of a slice.
abbrev pub slice_end : Policy → ℕ
slice_end rr = need_resched_normal
slice_end prio = need_resched_rotate

-- A thread with b ticks left keeps the processor for b - 1 ticks, with no request for a switch;
-- the b-th tick asks for one and gives the thread a new slice.
pub slice-ends :
    (b : ℕ) (policy : Policy) (cur : Ptr) (k : Kernel)
    → (k.thread cur).budget ≡ suc b
    → ((slice b policy cur k).cpu.need_resched ≡ k.cpu.need_resched)
      × (((slice b policy cur k).thread cur).budget ≡ 1)
      × ((slice (suc b) policy cur k).cpu.need_resched ≡ slice_end policy)
      × (((slice (suc b) policy cur k).thread cur).budget ≡ quantum_ticks)
unfolding use_budget
slice-ends b rr cur k e = ground (arith, slice-running b (suc b) rr cur k e (omega arith))
slice-ends b prio cur k e = ground (arith, slice-running b (suc b) prio cur k e (omega arith))

-- The kernel `k'` after a tick of the slice of `cur` in `k`, under the priority policy.
pub record IsSliced (cur : Ptr) (k k' : Kernel) : Type 0 where
  pub running :
      ((1 < (k.thread cur).budget)
        × ((k'.thread cur).budget ≡ (k.thread cur).budget - 1)
        × (k'.cpu.need_resched ≡ k.cpu.need_resched))
      ⊎ (((k.thread cur).budget ≤ 1)
          × ((k'.thread cur).budget ≡ quantum_ticks)
          × (k'.cpu.need_resched ≡ need_resched_rotate))
  pub own : k'.thread cur ≡ record (k.thread cur) { budget = (k'.thread cur).budget }
  pub others : (a : Ptr) → a ≢ cur → k'.thread a ≡ k.thread a
  pub kept :
      k'
      ≡ record k { thread = k'.thread; cpu = record (k.cpu) { need_resched = k'.cpu.need_resched } }

use_budget-IsSliced : (cur : Ptr) (k : Kernel) → IsSliced cur k (use_budget prio cur k)
unfolding use_budget
use_budget-IsSliced cur k = elim (Bool-cases (ltb 1 (k.thread cur).budget)) [
  | inl more ↦
      let some_left : ltb 0 (k.thread cur).budget ≡ true = ground arith in
      record {
        running = inl (ground arith, ground arith, ground arith);
        own = ground arith;
        others = λ a ne. ground arith;
        kept = ground arith;
      }
  | inr last ↦ record {
    running = inr (ground arith, ground arith, ground arith);
    own = ground arith;
    others = λ a ne. ground arith;
    kept = ground arith;
  }
]

-- What a tick does to a READY running thread under the priority policy, with the guard of its stack
-- intact and preemption enabled: it asks for a switch, and changes nothing else, if some ready
-- thread has a higher priority. Else the thread's budget goes down by one; at the end of the slice
-- it is filled up again, and a switch with rotation is asked for. Nothing else changes.
pub sched_on_tick-prio :
    (f : ℕ) (m : Memory) (k : Kernel) (q : List Ptr)
    → IsQueue k q
    → length q ≤ f
    → k.cpu.current_thread ≢ null
    → stack_guard_ok m
        (k.thread k.cpu.current_thread).stack_base
        (k.thread k.cpu.current_thread).stack_size
      ≡ true
    → k.cpu.preempt_cnt ≡ 0
    → is_ready k k.cpu.current_thread ≡ true
    → (b : Bool) × SaysGt k q (prio_of k k.cpu.current_thread) b
      × (k' : Kernel) × (sched_on_tick prio f m k ≡ some (returns k'))
      × (((b ≡ true)
            × (k' ≡ record k { cpu = record (k.cpu) { need_resched = need_resched_normal } }))
          ⊎ ((b ≡ false) × IsSliced k.cpu.current_thread k k'))
unfolding sched_on_tick preempted
sched_on_tick-prio f m k q r fuel cur guard en is =
    let (b, e, says) = rq_has_ready_prio_gt-SaysGt f k q (prio_of k k.cpu.current_thread) r fuel in
    let asks = set_need_resched need_resched_normal k in
    let goes = use_budget prio k.cpu.current_thread k in
    let run : sched_on_tick prio f m k ≡ some (returns (if b then asks else goes)) =
      ground (arith, e) in
    elim (Bool-cases b) [
      | inl ask ↦ (
        b,
        says,
        asks,
        run ∙ ap (λ c. some (returns (if c then asks else goes))) ask,
        inl (ask, refl),
      )
      | inr keep ↦ (
        b,
        says,
        goes,
        run ∙ ap (λ c. some (returns (if c then asks else goes))) keep,
        inr (keep, use_budget-IsSliced k.cpu.current_thread k),
      )
    ]

-- A damaged stack guard halts the kernel at the next tick, under either policy.
pub sched_on_tick-overflow :
    (policy : Policy) (f : ℕ) (m : Memory) (k : Kernel)
    → k.cpu.current_thread ≢ null
    → stack_guard_ok m
        (k.thread k.cpu.current_thread).stack_base
        (k.thread k.cpu.current_thread).stack_size
      ≡ false
    → sched_on_tick policy f m k ≡ some halts
unfolding sched_on_tick
sched_on_tick-overflow policy f m k cur guard = rw (==-false k.cpu.current_thread null cur, guard)
