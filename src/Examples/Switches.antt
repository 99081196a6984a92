-- ===== src/Examples/Switches.antt =====
-- The scheduler's theorems on the sample.
use micro_kernel_using_c_plu.Prelude.{
  ℕ, ◌+◌, ◌<◌, ◌≡◌, refl, Bool, true, false, ◌⊎◌, ◌==◌, some, arith, inl, inr, Bool-cases,
}
use micro_kernel_using_c_plu.Kernel.{Kernel, rr, prio, in_yield, in_resched}
use micro_kernel_using_c_plu.Runqueue.{is_ready}
use micro_kernel_using_c_plu.Runqueue.Scan.{SaysGt, prio_of}
use micro_kernel_using_c_plu.Runqueue.Pick.{IsPick}
use micro_kernel_using_c_plu.Fpsimd.{load_regs}
use micro_kernel_using_c_plu.Fpsimd.RoundTrip.{load_regs-cleared}
use micro_kernel_using_c_plu.Stack.{
  Memory, stack_init_guard_and_watermark, stack_guard_ok, guard_size, magic_byte,
}
use micro_kernel_using_c_plu.Stack.Guard.{stack_guard_ok_iff}
use micro_kernel_using_c_plu.Stack.Fresh.{stack_init_lem}
use micro_kernel_using_c_plu.Sched.{
  returns, need_resched_rotate, need_resched_normal, do_switch, sched_on_tick,
  sched_resched_from_irq_tail, thread_yield,
}
use micro_kernel_using_c_plu.Sched.Blocking.{IsRunning}
use micro_kernel_using_c_plu.Sched.Switching.{
  sched_resched_from_irq_tail-IsPick, do_switch-preserves,
}
use micro_kernel_using_c_plu.Sched.Tick.{IsSliced, sched_on_tick-prio}
use micro_kernel_using_c_plu.Sched.Rounds.{Switches, Keeps}
use micro_kernel_using_c_plu.Sched.Fair.{switches_of, round_robin-runs}
use micro_kernel_using_c_plu.Examples.{sample, threads, queued, sample-IsQueue}

sample-IsRunning : IsRunning sample queued
sample-IsRunning = record { queue = sample-IsQueue; all_ready = λ a h. ground (arith, h) }

sched_resched_from_irq_tail-IsPick_example :
    (k : Kernel) × (sched_resched_from_irq_tail prio 2 sample ≡ some k)
    × IsPick sample queued 1 (sample.cpu.need_resched == need_resched_rotate) k.cpu.current_thread
unfolding is_ready
sched_resched_from_irq_tail-IsPick_example =
    sched_resched_from_irq_tail-IsPick 2 sample queued 2 sample-IsQueue (omega arith) (omega arith)
      (inl refl) refl refl refl

-- Thread 2 runs next, and changes the registers.
abbrev later : Kernel
later = record sample {
  thread = (do_switch in_yield 1 2 sample).thread;
  cpu = record (sample.cpu) { current_thread = 2 };
  regs = record { q = λ i. 0; fpcr = 0; fpsr = 0 };
}

do_switch-preserves_example :
    let r = (do_switch in_resched 2 1 later).regs in (r.q 31 ≡ 131) × (r.fpcr ≡ 7) × (r.fpsr ≡ 9)
do_switch-preserves_example =
    do_switch-preserves in_yield in_resched 2 2 sample later 31 (omega arith) (λ e. cc) refl
      (omega arith) (record { resume = refl; valid = refl; vregs = refl; fpcr = refl; fpsr = refl })
      (omega arith)

abbrev stack : Memory
stack = stack_init_guard_and_watermark (λ a. 0) 4096 128

sched_on_tick-prio_example :
    (b : Bool) × SaysGt sample queued (prio_of sample 1) b
    × (k : Kernel) × (sched_on_tick prio 2 stack sample ≡ some (returns k))
    × (((b ≡ true)
          × (k
              ≡ record sample { cpu = record (sample.cpu) { need_resched = need_resched_normal } }))
        ⊎ ((b ≡ false) × IsSliced 1 sample k))
unfolding is_ready
sched_on_tick-prio_example =
    sched_on_tick-prio 2 stack sample queued sample-IsQueue (omega arith) (omega arith)
      (stack_init_lem (λ a. 0) 4096 128 (omega arith) (omega arith)).0 refl refl

load_regs-cleared_example : (load_regs (threads 2) sample.regs).q 31 ≡ 0
load_regs-cleared_example = load_regs-cleared (threads 2) sample.regs 31 refl (omega arith)

bad_guard : stack_guard_ok (λ a. 0) 4096 128 ≡ false
unfolding guard_size magic_byte
bad_guard = elim (Bool-cases (stack_guard_ok (λ a. 0) 4096 128)) [
  | inl ok ↦ absurd (
      omega (
        arith,
        (stack_guard_ok_iff (λ a. 0) 4096 128 (λ a. omega arith) (omega arith) (omega arith)).0 ok 0
            (omega arith),
      ))
  | inr n ↦ n
]

-- Thread 2 runs within two switches.
abbrev two_switches : (k : Kernel) × Switches 2 sample k
two_switches = switches_of 2 0 sample queued sample-IsRunning refl refl

round_robin-runs_example :
    let k' = two_switches.0 in
    ((n : ℕ) × (n < 2)
      × ((j : ℕ) × (n + j ≡ 2)
          × ((k1 : Kernel) × Switches n sample k1
              × Switches j k1 k'
              × (k1.cpu.current_thread ≡ 2))))
    × ((k2 : Kernel) × (sched_resched_from_irq_tail rr 0 k' ≡ some k2) × Keeps k' k2)
    × ((k3 : Kernel) × (thread_yield rr 0 k' ≡ some k3) × Keeps k' k3)
round_robin-runs_example =
    round_robin-runs sample queued 2 2 0 two_switches.0 sample-IsRunning refl refl refl
      (omega arith) two_switches.1
