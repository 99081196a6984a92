-- ===== src/LockLab.antt =====
-- src/lock_lab.cc: the labs on preemption and on interrupts under a spinlock. What is printed, the
-- delays, and the endless waits at the end of the threads are left out.
pub mod Reentry
use micro_kernel_using_c_plu.Prelude.{
  ℕ, ◌+◌, ◌-◌, ◌*◌, ◌%◌, ◌^◌, Bool, true, false, not, ◌||◌, Option, some, leb, ◌==◌, if◌then◌else◌,
  ◌>>=◌,
}
use micro_kernel_using_c_plu.Prelude.Int.{pos}
use micro_kernel_using_c_plu.Prelude.Store.{Ptr}
use micro_kernel_using_c_plu.Kernel.{Policy, is_null}
use micro_kernel_using_c_plu.Sched.{sched_add}
use micro_kernel_using_c_plu.Spinlock.{
  Spin, raw_spin_lock, raw_spin_unlock, spin_init, spin_lock, spin_lock_irqsave,
  spin_unlock_irqrestore,
}
use micro_kernel_using_c_plu.Sem.{sem_init}
use micro_kernel_using_c_plu.Create.{Machine, thread_create_prio}

-- The addresses of g_preempt_lock, g_preempt_start and g_irq_lock, and of the threads' functions.
pub record Place : Type 0 where
  pub preempt_lock : Ptr
  pub preempt_start : Ptr
  pub irq_lock : Ptr
  pub low_thread : ℕ
  pub high_thread : ℕ
  pub worker_thread : ℕ

-- The other globals.
pub record Lab : Type 0 where
  pub mode : ℕ
  pub low_locked : Bool
  pub low_unlocked : Bool
  pub high_started : Bool
  pub high_acquired : Bool
  pub high_start_tick : ℕ
  pub deadlock_reported : Bool
  pub worker_holding : Bool
  pub isr_acquired : Bool
  pub irq_deadlock_reported : Bool

abbrev deadlock_detect_ticks : ℕ
deadlock_detect_ticks = 40

-- The end of the branch for mode 1; a start of 0 is taken for `now`.
pub watch_high : ℕ → Lab → Lab
watch_high now l =
    let start = if l.high_start_tick == 0 then now else l.high_start_tick in
    record l {
      high_start_tick = start;
      deadlock_reported =
          l.deadlock_reported || leb deadlock_detect_ticks ((now + 2 ^ 64 - start) % 2 ^ 64);
    }

-- `now` is the processor's count of ticks.
pub lock_lab_irq_tick : ℕ → (ℕ → Bool) → Place → ℕ → Lab → Spin → Option (Lab × Spin)
lock_lab_irq_tick n fails p now l x =
    if l.mode == 1
    then (if l.deadlock_reported
          || not l.low_locked
          || l.low_unlocked
          || not l.high_started
          || l.high_acquired
        then some (l, x)
        else some (watch_high now l, x))
    else if l.mode == 3
    then (if l.irq_deadlock_reported || not l.worker_holding
        then some (l, x)
        else (raw_spin_lock n fails p.irq_lock x >>= λ y.
            some (record l { irq_deadlock_reported = true }, y)))
    else if l.mode == 4
    then (if l.isr_acquired || l.worker_holding
        then some (l, x)
        else (raw_spin_lock n fails p.irq_lock x >>= λ y.
            some (record l { isr_acquired = true }, raw_spin_unlock p.irq_lock y)))
    else some (l, x)

-- irq_worker_thread up to where it has the lock, with the flags to restore.
pub irq_worker_takes : ℕ → (ℕ → Bool) → Policy → ℕ → Place → Lab → Spin → Option (Lab × ℕ × Spin)
irq_worker_takes n fails policy f p l x =
    if l.mode == 3
    then (spin_lock n fails policy f p.irq_lock x >>= λ y.
        some (record l { worker_holding = true }, 0, y))
    else if l.mode == 4
    then (spin_lock_irqsave n fails p.irq_lock x >>= λ (flags, y).
        some (record l { worker_holding = true }, flags, y))
    else some (l, 0, x)

-- The release in mode 4.
pub irq_worker_gives : Policy → ℕ → Place → ℕ → Lab → Spin → Option (Lab × Spin)
irq_worker_gives policy f p flags l x = spin_unlock_irqrestore policy f p.irq_lock flags x >>= λ y.
    some (record l { worker_holding = false }, y)

-- lock_lab_setup returns, or halts.
pub data Setup : Type 0 where
  sets_up : Lab → Spin → Machine → Setup
  halts : Setup

abbrev lab_stack_bytes : ℕ
lab_stack_bytes = 16 * 1024

abbrev fresh : ℕ → Lab
fresh mode = record {
  mode = mode;
  low_locked = false;
  low_unlocked = false;
  high_started = false;
  high_acquired = false;
  high_start_tick = 0;
  deadlock_reported = false;
  worker_holding = false;
  isr_acquired = false;
  irq_deadlock_reported = false;
}

abbrev put_kernel : Machine → Spin → Spin
put_kernel m x = record x { kernel = m.kernel }

-- The threads of the modes 1 and 2.
pub start_pair : Place → Bool → ℕ → ℕ → ℕ → Spin → Machine → Option Setup
start_pair p debug f lr mode x m =
    thread_create_prio debug f lr p.low_thread 0 lab_stack_bytes (pos 5) m >>= λ (low, m1).
    (thread_create_prio debug f lr p.high_thread 0 lab_stack_bytes (pos 20) m1 >>= λ (high, m2).
    (let m3 = record m2 { kernel = sched_add high (sched_add low m2.kernel) } in
      some
        (if is_null low || is_null high then halts else sets_up (fresh mode) (put_kernel m3 x) m3)))

-- The thread of the modes 3 and 4.
pub start_worker : Place → Bool → ℕ → ℕ → ℕ → Spin → Machine → Option Setup
start_worker p debug f lr mode x m =
    thread_create_prio debug f lr p.worker_thread 0 lab_stack_bytes (pos 10) m >>= λ (w, m1).
    (let m2 = record m1 { kernel = sched_add w m1.kernel } in
      some (if is_null w then halts else sets_up (fresh mode) (put_kernel m2 x) m2))

-- The kernel is that of `m`.
pub lock_lab_setup : Place → Bool → ℕ → ℕ → ℕ → Spin → Machine → Option Setup
lock_lab_setup p debug f lr mode x m =
    let x1 = spin_init p.irq_lock (spin_init p.preempt_lock (put_kernel m x)) in
    let m1 = record m { kernel = sem_init p.preempt_start (pos 0) m.kernel } in
    if (mode == 1) || (mode == 2)
    then start_pair p debug f lr mode x1 m1
    else if (mode == 3) || (mode == 4)
    then start_worker p debug f lr mode x1 m1
    else some halts
