-- ===== src/Examples/Spins.antt =====
-- The lab on spinlocks and interrupts, on a free lock.
use micro_kernel_using_c_plu.Prelude.{ℕ, ◌≡◌, refl, false, none, some, arith}
use micro_kernel_using_c_plu.Kernel.{prio}
use micro_kernel_using_c_plu.Spinlock.{Spin}
use micro_kernel_using_c_plu.LockLab.{Place, Lab, lock_lab_irq_tick, irq_worker_takes}
use micro_kernel_using_c_plu.LockLab.Reentry.{lock_lab_irq_tick-deadlock}
use micro_kernel_using_c_plu.Examples.{sample}

abbrev place : Place
place = record {
  preempt_lock = 40;
  preempt_start = 41;
  irq_lock = 42;
  low_thread = 0x40_0000;
  high_thread = 0x40_1000;
  worker_thread = 0x40_2000;
}

abbrev lab : ℕ → Lab
lab mode = record {
  mode = mode;
  low_locked = false;
  low_unlocked = false;
  high_started = false;
  high_acquired = false;
  high_start_tick = 0;
  deadlock_reported = false;
  worker_holding = false;
  isr_acquired = false;
  irq_deadlock_reported = false;
}

abbrev spin : Spin
spin = record { locks = λ l. 0; kernel = sample; daif = 0 }

lock_lab_irq_tick-deadlock_example :
    (l' : Lab) × (y : Spin) × (irq_worker_takes 1 (λ n. false) prio 2 place (lab 3) spin
      ≡ some (l', 0, y))
    × (y.daif ≡ 0)
    × (lock_lab_irq_tick 1000 (λ n. false) place 7 l' y ≡ none)
lock_lab_irq_tick-deadlock_example =
    lock_lab_irq_tick-deadlock 0 2 (λ n. false) prio place (lab 3) spin (omega arith) refl refl 1000
      7 (λ n. false) refl refl
