-- ===== src/Examples/Devices.antt =====
-- The theorems on interrupts, spinlocks, thread creation and moves of memory, on the sample.
use micro_kernel_using_c_plu.Prelude.{
  ℕ, ◌+◌, ◌%◌, ◌≡◌, refl, true, false, some, [], ◌∷◌, arith, inr,
}
use micro_kernel_using_c_plu.Prelude.Int.{pos}
use micro_kernel_using_c_plu.Prelude.Store.{Ptr, null, update}
use micro_kernel_using_c_plu.Prelude.Align.{is_pow2, align_up, align_down}
use micro_kernel_using_c_plu.Kernel.{Kernel, set_need_resched, prio}
use micro_kernel_using_c_plu.Sched.Preempt.{IsQuiet}
use micro_kernel_using_c_plu.Stack.{Memory}
use micro_kernel_using_c_plu.Kmem.{kmem_align, kmem_alloc_aligned}
use micro_kernel_using_c_plu.Pool.{PoolState, mem_pool_owns}
use micro_kernel_using_c_plu.Pool.Blocks.{IsPool}
use micro_kernel_using_c_plu.Dma.{Setup, Dma, dma_poll_complete}
use micro_kernel_using_c_plu.Irq.{Handled, irq_handler_el1}
use micro_kernel_using_c_plu.Irq.Tail.{IsPolite, HandledWell, irq_handler_el1-HandledWell}
use Prim.Native.Nat.{bit_or}
use micro_kernel_using_c_plu.Sched.{preempt_disable}
use micro_kernel_using_c_plu.Spinlock.{irq_mask, Spin, spin_lock_irqsave, spin_unlock_irqrestore}
use micro_kernel_using_c_plu.Spinlock.Held.{spin_lock_irqsave-restore}
use micro_kernel_using_c_plu.Examples.Tables.{linked, noise}
use micro_kernel_using_c_plu.Create.{Machine, clear_thread, thread_create_prio}
use micro_kernel_using_c_plu.Create.Created.{IsCreated}
use micro_kernel_using_c_plu.Create.Stacked.{IsStacked, thread_create_prio-IsStacked}
use micro_kernel_using_c_plu.Create.Failed.{thread_create_prio-fails}
use micro_kernel_using_c_plu.Libc.{memmove}
use micro_kernel_using_c_plu.Libc.Moves.{moved, memmove-moved}
use micro_kernel_using_c_plu.Examples.{sample, queued, sample-IsQueue}

abbrev idle_setup : Setup
idle_setup = record {
  noncacheable = false;
  window_start = 0x4100_0000;
  window_end = 0x4110_0000;
  translation = true;
}

abbrev idle : Dma
idle = record {
  desc = λ p. record { src = 0; dst = 0; len = 0; status = 0; cb = 0; user = 0; next = null };
  memory = λ a. 0;
  desc_next = 0x4100_0000;
  buf_end = 0x4110_0000;
  pending_head = null;
  pending_tail = null;
  maintenance = [];
}

-- The callbacks ask for a switch.
abbrev wakes : Dma → Kernel → Kernel
wakes d k = set_need_resched 1 k

wakes-IsPolite : IsPolite wakes
wakes-IsPolite d k = refl

irq_handler_el1-HandledWell_example :
    (h : Handled) × (irq_handler_el1 prio 2 1 idle_setup (λ cb user d. d) wakes 27 sample idle
      ≡ some h)
    × HandledWell sample idle idle 27 h
unfolding dma_poll_complete
irq_handler_el1-HandledWell_example =
    irq_handler_el1-HandledWell prio 2 1 idle_setup (λ cb user d. d) wakes 27 sample idle idle
      queued wakes-IsPolite sample-IsQueue (omega arith) (omega arith) refl

-- One descriptor waits, for a copy of 16 bytes.
abbrev busy : Dma
busy = record idle {
  desc = update (idle.desc) 0x4100_0000 (record {
    src = 0x4200_0000;
    dst = 0x4300_0000;
    len = 16;
    status = 1;
    cb = 5;
    user = 0;
    next = null;
  });
  pending_head = 0x4100_0000;
  pending_tail = 0x4100_0000;
}

abbrev spin : ℕ → Spin
spin v = record { locks = λ l. v; kernel = sample; daif = 0 }

sample-IsQuiet : IsQuiet sample
sample-IsQuiet = record { room = omega arith; quiet = inr refl }

spin_lock_irqsave-restore_example :
    (flags : ℕ) × (y : Spin) × (z : Spin) × (spin_lock_irqsave 1 (λ n. false) 8 (spin 0)
      ≡ some (flags, y))
    × (flags ≡ 0)
    × (y.locks 8 ≡ 1)
    × (y.kernel ≡ preempt_disable sample)
    × (y.daif ≡ bit_or 0 irq_mask)
    × (spin_unlock_irqrestore prio 0 8 flags y ≡ some z)
    × (z.kernel ≡ sample)
    × (z.daif ≡ 0)
    × ((a : Ptr) → z.locks a ≡ 0)
spin_lock_irqsave-restore_example =
    spin_lock_irqsave-restore 0 0 (λ n. false) prio 8 (spin 0) (omega arith) refl refl
      sample-IsQuiet

abbrev pub free_blocks : PoolState
free_blocks = record {
  pool = record {
    base = 4096;
    block_size = 640;
    block_count = 2;
    free_list = 4096;
    free_count = 1;
  };
  links = λ a. 0;
}

pub free_blocks-IsPool : IsPool free_blocks (4096 ∷ [])
unfolding mem_pool_owns
free_blocks-IsPool = record {
  chain = (refl, omega arith, refl);
  distinct = (refl, tt);
  owned = λ a h. ground (arith, h);
  counted = refl;
  bounded = omega arith;
}

abbrev pub machine : Machine
machine = record {
  kernel = sample;
  pool = free_blocks;
  pool_inited = true;
  heap = record { cur = 8192; end = 65536 };
  memory = λ a. 0;
  next_thread_id = 3;
  place = linked;
  mmu_on = false;
  tables = noise;
}

thread_create_prio-IsStacked_example :
    (m : Machine) × (thread_create_prio false 0 0x40_0000 0x40_1000 0 4096 (pos 40) machine
      ≡ some (4096, m))
    × IsCreated machine m 0x40_0000 0x40_1000 0 4096
        (pos 40)
        4096
        []
        8192
        (record { cur = 16384; end = 65536 })
    × IsStacked machine.memory m.memory 0x40_0000
        (m.kernel.thread 4096).stack_base
        4096
        (align_down ((m.kernel.thread 4096).stack_base + 4096) 16)
unfolding kmem_alloc_aligned kmem_align align_up align_down is_pow2
thread_create_prio-IsStacked_example =
    thread_create_prio-IsStacked false 0 0x40_0000 0x40_1000 0 4096 (pos 40) machine 4096 [] 8192
      (record { cur = 16384; end = 65536 }) (omega arith) (omega arith) (omega arith) refl
      free_blocks-IsPool refl

-- The heap ends before a stack of 8192 bytes does.
abbrev full_machine : Machine
full_machine = record machine { heap = record { cur = 61440; end = 65536 } }

thread_create_prio-fails_example :
    (m' : Machine) × (thread_create_prio true 1 0x40_0000 0x40_1000 0 4096 (pos 40) full_machine
      ≡ some (null, m'))
    × IsPool m'.pool (4096 ∷ [])
    × (m'.kernel ≡ (clear_thread 4096 full_machine).kernel)
    × (m'.memory ≡ full_machine.memory)
    × (m'.tables ≡ full_machine.tables)
    × (m'.next_thread_id ≡ 3)
unfolding kmem_alloc_aligned kmem_align align_up align_down is_pow2
thread_create_prio-fails_example =
    thread_create_prio-fails true 1 0x40_0000 0x40_1000 0 4096 (pos 40) full_machine 4096 []
      (record { cur = 61440; end = 65536 }) (omega arith) (omega arith) (omega arith) (omega arith)
      refl free_blocks-IsPool refl

-- The ranges overlap.
memmove-moved_example : memmove 2 0 3 (λ a. a + 7) 4 ≡ moved 2 0 3 (λ a. a + 7) 4
memmove-moved_example = memmove-moved 2 0 3 (λ a. a + 7) 4

abbrev bytes : Memory
bytes a = a % 8
