-- ===== src/Sched/Ticked.antt =====
-- What `sched_on_tick` of src/thread.cc leaves of the processor's state, on every branch.
use micro_kernel_using_c_plu.Prelude.{
  ℕ, ◌≤◌, ◌≡◌, ◌≢◌, ◌⊎◌, refl, Bool, true, false, not, List, some, arith, ◌==◌, if◌then◌else◌,
  Bool-cases, inl, inr,
}
use micro_kernel_using_c_plu.Prelude.Store.{Ptr, null, length}
use micro_kernel_using_c_plu.Kernel.{Kernel, Policy, rr, prio, set_need_resched, is_null}
use micro_kernel_using_c_plu.Runqueue.{is_ready, IsQueue}
use micro_kernel_using_c_plu.Runqueue.Scan.{rq_has_ready_prio_gt-SaysGt}
use micro_kernel_using_c_plu.Stack.{Memory, stack_guard_ok}
use micro_kernel_using_c_plu.Sched.{
  Outcome, returns, halts, need_resched_normal, use_budget, preempted, sched_on_tick,
}

preempted-some :
    (policy : Policy) (f : ℕ) (k : Kernel) (q : List Ptr)
    → IsQueue k q
    → length q ≤ f
    → (b : Bool) × (preempted policy f k.cpu.current_thread k ≡ some b)
unfolding preempted
preempted-some rr f k q r fuel = (false, refl)
preempted-some prio f k q r fuel =
    let cur = k.cpu.current_thread in
    let (b, e, says) = rq_has_ready_prio_gt-SaysGt f k q (k.thread cur).effective_priority r fuel in
    (if not (is_ready k cur) then true else b, ground (arith, e))

-- Whether the guard of the running thread's stack is intact.
abbrev pub runs_safe : Memory → Kernel → Bool
runs_safe m k =
    stack_guard_ok m (k.thread k.cpu.current_thread).stack_base
      (k.thread k.cpu.current_thread).stack_size

-- What a tick leaves of the processor's state, and when it halts.
abbrev pub Ticked : Memory → Kernel → Outcome → Type 0
Ticked m k (returns k') =
    (k'.cpu ≡ record (k.cpu) { need_resched = k'.cpu.need_resched })
    × ((k.cpu.current_thread ≡ null) ⊎ (runs_safe m k ≡ true))
Ticked m k halts = (k.cpu.current_thread ≢ null) × (runs_safe m k ≡ false)

use_budget-cpu :
    (policy : Policy) (cur : Ptr) (k : Kernel)
    → (use_budget policy cur k).cpu
      ≡ record (k.cpu) { need_resched = (use_budget policy cur k).cpu.need_resched }
unfolding use_budget
use_budget-cpu policy cur k = ground arith

-- A tick ends under either policy; of the processor's state it changes nothing but the request for
-- a switch, and it halts exactly if a thread runs with a damaged guard of its stack.
pub sched_on_tick-Ticked :
    (policy : Policy) (f : ℕ) (m : Memory) (k : Kernel) (q : List Ptr)
    → IsQueue k q
    → length q ≤ f
    → (o : Outcome) × (sched_on_tick policy f m k ≡ some o) × Ticked m k o
unfolding sched_on_tick
sched_on_tick-Ticked policy f m k q r fuel =
    let cur = k.cpu.current_thread in
    let (b, e) = preempted-some policy f k q r fuel in
    elim (Bool-cases (is_null cur)) [
      | inl none_runs ↦ (returns k, rw none_runs refl, (refl, inl (ground arith)))
      | inr runs ↦
          elim (Bool-cases (stack_guard_ok m (k.thread cur).stack_base (k.thread cur).stack_size)) [
            | inr bad ↦ (halts, rw (runs, bad) refl, (ground arith, bad))
            | inl ok ↦ elim (Bool-cases (k.cpu.preempt_cnt == 0)) [
              | inr off ↦ (returns k, rw (runs, ok, off) refl, (refl, inr ok))
              | inl on ↦ elim (Bool-cases b) [
                | inl ask ↦ (
                  returns (set_need_resched need_resched_normal k),
                  rw (runs, ok, on, e, ask) refl,
                  (refl, inr ok),
                )
                | inr keep ↦ (
                  returns (use_budget policy cur k),
                  rw (runs, ok, on, e, keep) refl,
                  (use_budget-cpu policy cur k, inr ok),
                )
              ]
            ]
          ]
    ]
