-- ===== src/Sched/Preempt.antt =====
-- The preemption counter of src/preempt.cc where no switch follows.
use micro_kernel_using_c_plu.Prelude.{ℕ, ◌+◌, ◌<◌, ◌^◌, ◌≡◌, ◌⊎◌, some, arith}
use micro_kernel_using_c_plu.Kernel.{Kernel, Policy, set_preempt_cnt}
use micro_kernel_using_c_plu.Sched.{preempt_disable, preempt_enable}

-- Enabling preemption causes no switch: it was disabled before, or none was asked for; and the
-- counter has room for one more.
pub record IsQuiet (k : Kernel) : Type 0 where
  pub room : k.cpu.preempt_cnt + 1 < 2 ^ 32
  pub quiet : (0 < k.cpu.preempt_cnt) ⊎ (k.cpu.need_resched ≡ 0)

pub preempt_disable_lem :
    (k : Kernel) → IsQuiet k → preempt_disable k ≡ set_preempt_cnt (k.cpu.preempt_cnt + 1) k
unfolding preempt_disable
preempt_disable_lem k q = ground arith

-- Leaving a section that changed nothing of the processor's state gives that state back.
pub preempt_enable-leave :
    (policy : Policy) (f : ℕ) (k k1 : Kernel)
    → IsQuiet k
    → k1.cpu ≡ record (k.cpu) { preempt_cnt = k.cpu.preempt_cnt + 1 }
    → preempt_enable policy f k1 ≡ some (record k1 { cpu = k.cpu })
unfolding preempt_enable
preempt_enable-leave policy f k k1 q e = ground arith
