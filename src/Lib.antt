-- ===== src/Lib.antt =====
-- A verification library for the kernel of this repository: a small AArch64 kernel for one core,
-- with a preemptive scheduler, mutexes with priority inheritance, semaphores, a bump allocator, a
-- fixed-size memory pool, and a software model of a DMA engine.
--
-- The parts, and the files that model them:
--   Kernel: the structs of include/thread.h, include/sync.h and include/arch/cpu_local.h and the
--     globals of src/thread.cc, as one record `Kernel` with a store for each type of object. A
--     pointer is an index into its store, and null is 0.
--   Runqueue: the circular run queue of src/thread.cc (rq_append, rq_remove, prio_pick_next and
--     the scans). Its children relate it to the list of the queued threads.
--   Stack: the guard pattern and the watermark of a thread's stack, src/thread.cc, over memory as
--     a function from addresses to bytes.
--   Fpsimd: fpsimd_save and fpsimd_load of src/arch/aarch64/fpsimd.cc.
--   Sched: the rest of the scheduler of src/thread.cc, and src/preempt.cc, over Runqueue, Stack
--     and Fpsimd. Both policies, SCHED_POLICY_RR and SCHED_POLICY_PRIO, are modelled.
--   Sync: src/sync.cc over Sched. A call of mutex_lock is a sequence of rounds, each from one
--     point where the thread runs to the next (`mutex_lock_round`). Sync/Locked holds the
--     invariant on all mutexes, Unlock and Lock the operations that keep it, and Steps the state
--     machine of such operations and thread switches, along which Reach carries the invariant.
--   Sem: the semaphores of src/sync.cc, on the wait queues of Sync.
--   Kmem and Pool: src/kmem.cc and src/mem_pool.cc, on 64-bit addresses that wrap round.
--   Dma: src/dma.cc and include/dma.h: the DMA window, its two allocators, and the queue of
--     descriptors that dma_poll_complete empties.
--   Libc: src/libc.cc.
--   Spinlock: src/spinlock.cc, where a trial of the lock may fail spuriously.
--   Irq: irq_handler_el1 of src/irq.cc over Sched and Dma.
--   Create: thread_create_prio and sched_init of src/thread.cc over Pool, Kmem, Stack and Mmu;
--     Created and Stacked are its success, with the thread and its stack, Failed the way back when
--     the heap is full, and Fenced the page below the stack.
--   Boot: the threads that kmain of src/kmain.cc makes and queues, over Create and Sched.
--   Mmu: src/arch/aarch64/mmu.cc: build_identity_map, mmu_guard_page and mmu_init. MmuRpi4 is the
--     same for src/arch/aarch64/mmu_rpi4.cc. Mmu.Walk is the processor's walk through the tables,
--     as the architecture documents it for 48-bit addresses and pages of 4 KB.
--   Heap: the first-fit heap of src/mem_lab.cc. First is the search for a block, Taken the split of
--     the block found, and Coalesce the merge of neighbours.
--   SyncLab: src/sync_lab.cc. Order is about dl_lock_two_ordered, Deadlock about the deadlock that
--     the watchdog looks for. Sync/Ordered is the discipline of locking in the order of addresses.
--   LockLab: src/lock_lab.cc, on Spinlock; Reentry is about a lock that an interrupt takes too.
--   Uart and Timer: src/drivers/uart_pl011.cc and src/arch/aarch64/timer.cc, as register writes.
--   Examples: a small concrete system on which the theorems are run.
--
-- A machine-width value is a natural number with its wrap-around written out. A walk through links
-- takes fuel; `none` is the answer when it runs out. The theorems take one unit of fuel for each
-- element of the list, which is enough, and prove that the walk then ends. `switch_in` stands for
-- the code that runs behind arch_switch in the thread that is switched in.
--
-- Not modelled: what other code prints, caches and the order of memory accesses, the registers that
-- arch_switch moves, the interrupt controller, the boot code, and of the labs, which are test programs run on the kernel,
-- those of the data cache and of stack overflow, and the threads that only wait or print. They are
-- device I/O, assembly, or code that only calls what is modelled.
pub mod Prelude
pub mod Kernel
pub mod Runqueue
pub mod Fpsimd
pub mod Stack
pub mod Sched
pub mod Sync
pub mod Sem
pub mod Kmem
pub mod Pool
pub mod Heap
pub mod Dma
pub mod Libc
pub mod Spinlock
pub mod Irq
pub mod Create
pub mod Boot
pub mod Mmu
pub mod MmuRpi4
pub mod Uart
pub mod Timer
pub mod SyncLab
pub mod LockLab
pub mod Examples
