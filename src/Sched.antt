-- ===== src/Sched.antt =====
-- The scheduler of src/thread.cc and the preemption counter of src/preempt.cc, over the run queue.
-- `cpu_local()` is never null. A halt in `wfe` for ever is the outcome `halts`.
pub mod Tick
pub mod Ticked
pub mod Blocking
pub mod Switching
pub mod Priority
pub mod Preempt
pub mod Rounds
pub mod Fair
use micro_kernel_using_c_plu.Prelude.{
  ℕ, zero, suc, ◌+◌, ◌-◌, ◌%◌, ◌^◌, Bool, true, false, not, ◌&&◌, ◌||◌, Option, none, some, ltb,
  leb, ◌==◌, if◌then◌else◌, ◌>>=◌,
}
use micro_kernel_using_c_plu.Prelude.Store.{Ptr, null}
use micro_kernel_using_c_plu.Prelude.Int.{ℤ, pos, negsuc}
use micro_kernel_using_c_plu.Kernel.{
  Thread, Kernel, ThreadState, ready, blocked, Resume, trampoline, in_yield, in_resched, Policy, rr,
  prio, is_null, put_thread, set_wait_next, set_state, set_budget, set_need_resched,
  set_preempt_cnt, next_of, is_ready_state,
}
use micro_kernel_using_c_plu.Runqueue.{
  is_ready, rq_append, rq_remove, rq_has_ready_prio_gt, prio_pick_next,
}
use micro_kernel_using_c_plu.Fpsimd.{fpsimd_save, fpsimd_load}
use micro_kernel_using_c_plu.Stack.{Memory, stack_guard_ok}

abbrev pub max_priority : ℕ
max_priority = 31

abbrev pub quantum_ticks : ℕ
quantum_ticks = 5

-- need_resched: none 0, normal 1, rotate 2.
abbrev pub need_resched_none : ℕ
need_resched_none = 0

abbrev pub need_resched_normal : ℕ
need_resched_normal = 1

abbrev pub need_resched_rotate : ℕ
need_resched_rotate = 2

pub data Outcome : Type 0 where
  returns : Kernel → Outcome
  halts : Outcome

pub clamp_priority : ℤ → ℕ
clamp_priority (negsuc n) = 0
clamp_priority (pos n) = if ltb max_priority n then max_priority else n

pub thread_base_priority : Kernel → Ptr → ℕ
thread_base_priority k t = if is_null t then 0 else (k.thread t).base_priority

unfoldable pub thread_effective_priority : Kernel → Ptr → ℕ
thread_effective_priority k t = if is_null t then 0 else (k.thread t).effective_priority

pub thread_set_base_priority : Ptr → ℤ → Kernel → Kernel
thread_set_base_priority t p k =
    if is_null t
    then k
    else put_thread t
        (record (k.thread t) {
          base_priority = clamp_priority p;
          effective_priority =
              if ltb (k.thread t).effective_priority (clamp_priority p)
              then clamp_priority p
              else (k.thread t).effective_priority;
        })
        k

pub thread_set_effective_priority : Ptr → ℤ → Kernel → Kernel
thread_set_effective_priority t p k =
    if is_null t
    then k
    else put_thread t
        (record (k.thread t) {
          effective_priority =
              if ltb (clamp_priority p) (k.thread t).base_priority
              then (k.thread t).base_priority
              else clamp_priority p;
        })
        k

-- What runs when a thread is switched in: nothing of the kernel's for a new thread; else the
-- lines of its own call behind `arch_switch`.
pub switch_in : Resume → Kernel → Kernel
switch_in trampoline k = k
switch_in in_yield k = fpsimd_load k
switch_in in_resched k = set_need_resched need_resched_none (fpsimd_load k)

-- `do_switch(cur, next)`, called in `site`, up to the point where `next` goes on.
pub do_switch : Resume → Ptr → Ptr → Kernel → Kernel
do_switch site cur next k =
    let k1 = fpsimd_save k in
    let k2 = record k1 { cpu = record (k1.cpu) { current_thread = next } } in
    let k3 = put_thread cur (record (k2.thread cur) { resume = site }) k2 in
    switch_in (k2.thread next).resume k3

unfoldable pub sched_add : Ptr → Kernel → Kernel
sched_add t k =
    if is_null t
    then k
    else rq_append t (if is_ready_state (k.thread t).state then k else set_state t ready k)

unfoldable pub first_thread : Policy → ℕ → Kernel → Option Ptr
first_thread rr f k = some k.rq_head
first_thread prio f k = prio_pick_next f k null false false

abbrev pub start_in : Ptr → Kernel → Kernel
start_in cur k = record k { cpu = record (k.cpu) { current_thread = cur } }

-- The switch into the first thread, which runs through its trampoline. With no thread to start
-- the kernel halts.
unfoldable pub sched_start : Policy → ℕ → Kernel → Option Outcome
sched_start policy f k = first_thread policy f k >>= λ cur.
    some (if is_null cur then halts else returns (start_in cur (set_budget cur quantum_ticks k)))

pub yield_next : Policy → ℕ → Kernel → Option Ptr
yield_next rr f k =
    let cur = k.cpu.current_thread in some (if is_null (next_of k cur) then cur else next_of k cur)
yield_next prio f k = prio_pick_next f k k.cpu.current_thread true true

pub thread_yield : Policy → ℕ → Kernel → Option Kernel
thread_yield policy f k =
    if not (k.cpu.preempt_cnt == 0) || is_null k.cpu.current_thread
    then some k
    else (yield_next policy f k >>= λ next. some (
        if not (is_null next) && not (next == k.cpu.current_thread)
        then do_switch in_yield k.cpu.current_thread next k
        else k))

-- The end of `sched_on_tick`: the time slice.
pub use_budget : Policy → Ptr → Kernel → Kernel
use_budget policy cur k =
    let k1 =
      if ltb 0 (k.thread cur).budget then set_budget cur ((k.thread cur).budget - 1) k else k in
    if leb (k1.thread cur).budget 0
    then set_budget cur quantum_ticks (
        set_need_resched (elim policy [ rr ↦ need_resched_normal | prio ↦ need_resched_rotate ]) k1)
    else k1

-- The part of `sched_on_tick` that the priority policy adds: whether to ask for a switch.
pub preempted : Policy → ℕ → Ptr → Kernel → Option Bool
preempted rr f cur k = some false
preempted prio f cur k =
    if not (is_ready k cur)
    then some true
    else rq_has_ready_prio_gt f k (k.thread cur).effective_priority

pub sched_on_tick : Policy → ℕ → Memory → Kernel → Option Outcome
sched_on_tick policy f m k =
    let cur = k.cpu.current_thread in
    if is_null cur
    then some (returns k)
    else if not (stack_guard_ok m (k.thread cur).stack_base (k.thread cur).stack_size)
    then some halts
    else if not (k.cpu.preempt_cnt == 0)
    then some (returns k)
    else (preempted policy f cur k >>= λ b.
        some
          (returns (if b then set_need_resched need_resched_normal k else use_budget policy cur k)))

pub resched_next : Policy → ℕ → Kernel → Option Ptr
resched_next rr f k =
    let cur = k.cpu.current_thread in
    some (
      if not (is_null cur) && is_ready k cur && not (is_null (next_of k cur))
      then next_of k cur
      else k.rq_head)
resched_next prio f k =
    let rotate = k.cpu.need_resched == need_resched_rotate in
    prio_pick_next f k k.cpu.current_thread rotate rotate

pub sched_resched_from_irq_tail : Policy → ℕ → Kernel → Option Kernel
sched_resched_from_irq_tail policy f k =
    let cur = k.cpu.current_thread in
    if not (k.cpu.preempt_cnt == 0)
    then some k
    else (resched_next policy f k >>= λ next. some (
        if is_null cur || is_null next || next == cur
        then set_need_resched need_resched_none k
        else do_switch in_resched cur next k))

pub sched_block_current : ℕ → Kernel → Option Kernel
sched_block_current f k =
    let cur = k.cpu.current_thread in
    if is_null cur || not (is_ready_state (k.thread cur).state)
    then some k
    else (rq_remove f cur k >>= λ k1. some (set_wait_next cur null (set_state cur blocked k1)))

pub sched_make_runnable : Ptr → Kernel → Kernel
sched_make_runnable t k =
    if is_null t || is_ready_state (k.thread t).state
    then k
    else rq_append t (set_budget t quantum_ticks (set_wait_next t null (set_state t ready k)))

unfoldable pub preempt_disable : Kernel → Kernel
preempt_disable k = set_preempt_cnt ((k.cpu.preempt_cnt + 1) % 2 ^ 32) k

pub preempt_enable : Policy → ℕ → Kernel → Option Kernel
preempt_enable policy f k =
    if k.cpu.preempt_cnt == 0
    then some k
    else (let k1 = set_preempt_cnt (k.cpu.preempt_cnt - 1) k in
        if (k1.cpu.preempt_cnt == 0) && not (k1.cpu.need_resched == 0) && (k1.cpu.irq_depth == 0)
        then sched_resched_from_irq_tail policy f k1
        else some k1)

pub preempt_return : Policy → ℕ → Kernel → Option Kernel
preempt_return policy f k =
    if (k.cpu.preempt_cnt == 0) && not (k.cpu.need_resched == 0)
    then sched_resched_from_irq_tail policy f k
    else some k
