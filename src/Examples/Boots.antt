-- ===== src/Examples/Boots.antt =====
-- The theorem on the start of the system, with a pool of two free blocks and an empty run queue.
use micro_kernel_using_c_plu.Prelude.{
  ◌≡◌, refl, true, false, some, [], ◌∷◌, arith, ◌==◌, if◌then◌else◌,
}
use micro_kernel_using_c_plu.Prelude.Align.{align_up, align_down, is_pow2}
use micro_kernel_using_c_plu.Prelude.Store.{null}
use micro_kernel_using_c_plu.Kernel.{Kernel, rr}
use micro_kernel_using_c_plu.Kmem.{kmem_alloc_aligned, kmem_align}
use micro_kernel_using_c_plu.Pool.{PoolState, mem_pool_owns}
use micro_kernel_using_c_plu.Pool.Blocks.{IsPool}
use micro_kernel_using_c_plu.Sched.{returns, sched_start}
use micro_kernel_using_c_plu.Examples.Tables.{linked, noise}
use micro_kernel_using_c_plu.Create.{Machine}
use micro_kernel_using_c_plu.Boot.{goes_on, start_threads}
use micro_kernel_using_c_plu.Boot.Started.{IsStarted, start_threads-IsStarted}
use micro_kernel_using_c_plu.Examples.{sample}

abbrev two_blocks : PoolState
two_blocks = record {
  pool = record {
    base = 4096;
    block_size = 640;
    block_count = 2;
    free_list = 4096;
    free_count = 2;
  };
  links = λ a. if a == 4096 then 4736 else null;
}

two_blocks-IsPool : IsPool two_blocks (4096 ∷ 4736 ∷ [])
unfolding mem_pool_owns
two_blocks-IsPool = record {
  chain = (refl, omega arith, (refl, omega arith, refl));
  distinct = (refl, (refl, tt));
  owned = λ a h. ground (arith, h);
  counted = refl;
  bounded = omega arith;
}

abbrev initial : Machine
initial = record {
  kernel = record sample { rq_head = null; rq_tail = null };
  pool = two_blocks;
  pool_inited = true;
  heap = record { cur = 8192; end = 65536 };
  memory = λ a. 0;
  next_thread_id = 1;
  place = linked;
  mmu_on = false;
  tables = noise;
}

start_threads-IsStarted_example :
    (m : Machine) × (start_threads false 0 0x40_0000 0x40_1000 0x40_2000 initial ≡ some (goes_on m))
    × IsStarted m 0x40_1000 0x40_2000 4096 4736
    × ((k : Kernel) × (sched_start rr 0 m.kernel ≡ some (returns k))
        × (k.cpu.current_thread ≡ 4096))
unfolding kmem_alloc_aligned kmem_align align_up align_down is_pow2
start_threads-IsStarted_example =
    start_threads-IsStarted false 0 0x40_0000 0x40_1000 0x40_2000 initial 4096 4736 8192 28672 []
      (record { cur = 28672; end = 65536 }) (record { cur = 49152; end = 65536 }) (omega arith)
      (omega arith) refl two_blocks-IsPool (refl, refl) refl refl
