-- ===== src/Irq.antt =====
-- irq_handler_el1 of src/irq.cc, over the scheduler and the DMA queue. The interrupt number that
-- the controller gives is an argument; what the handler prints, the budgets for that and the
-- timer's own registers are left out, and so is LOCK_LAB_MODE. What the callbacks of the DMA queue do
-- to the queue and to the kernel are the arguments `call` and `wakes`.
pub mod Tail
use micro_kernel_using_c_plu.Prelude.{
  ℕ, ◌+◌, ◌-◌, ◌%◌, ◌^◌, Bool, true, false, not, ◌&&◌, ◌||◌, Option, none, some, ◌==◌,
  if◌then◌else◌, ◌>>=◌,
}
use micro_kernel_using_c_plu.Kernel.{Kernel, Policy, is_null}
use micro_kernel_using_c_plu.Sched.{Outcome, returns, halts, sched_on_tick}
use micro_kernel_using_c_plu.Dma.{Setup, Dma, dma_poll_complete}

-- Where the handler leaves: the kernel, the DMA queue, whether the interrupt was acknowledged at
-- its end (gic_eoi), and whether the interrupted thread goes on in `preempt_return`.
pub record Left : Type 0 where
  pub kernel : Kernel
  pub dma : Dma
  pub ended : Bool
  pub preempts : Bool

pub data Handled : Type 0 where
  leaves : Left → Handled
  stops : Handled

abbrev pub set_irq_depth : ℕ → Kernel → Kernel
set_irq_depth n k = record k { cpu = record (k.cpu) { irq_depth = n } }

pub enter_irq : Kernel → Kernel
enter_irq k = set_irq_depth ((k.cpu.irq_depth + 1) % 2 ^ 32) k

pub leave_irq : Kernel → Kernel
leave_irq k = set_irq_depth ((k.cpu.irq_depth + 2 ^ 32 - 1) % 2 ^ 32) k

abbrev pub count_tick : Kernel → Kernel
count_tick k = record k { cpu = record (k.cpu) { ticks = (k.cpu.ticks + 1) % 2 ^ 64 } }

pub wants_switch : Kernel → Bool
wants_switch k =
    not (is_null k.cpu.current_thread) && k.cpu.preempt_cnt == 0 && not (k.cpu.need_resched == 0)

-- Either timer's branch.
pub timer_tick :
    Policy
    → ℕ
    → ℕ
    → Setup
    → (ℕ → ℕ → Dma → Dma)
    → (Dma → Kernel → Kernel)
    → Kernel
    → Dma
    → Option Handled
timer_tick policy f g s call wakes k d = sched_on_tick policy f d.memory (count_tick k) >>= λ o.
    elim o [
      | returns k' ↦
          (dma_poll_complete g s call d >>= λ d'. some (
            leaves (record {
              kernel = leave_irq (wakes d k');
              dma = d';
              ended = true;
              preempts = wants_switch (wakes d k');
            })))
      | halts ↦ some stops
    ]

pub irq_handler_el1 :
    Policy
    → ℕ
    → ℕ
    → Setup
    → (ℕ → ℕ → Dma → Dma)
    → (Dma → Kernel → Kernel)
    → ℕ
    → Kernel
    → Dma
    → Option Handled
irq_handler_el1 policy f g s call wakes intid k d =
    if (intid == 27) || (intid == 30)
    then timer_tick policy f g s call wakes (enter_irq k) d
    else some (
        leaves (record {
          kernel = leave_irq (enter_irq k);
          dma = d;
          ended = not (intid == 1023);
          preempts = false;
        }))
