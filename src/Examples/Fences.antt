-- ===== src/Examples/Fences.antt =====
-- The theorem on the page below a new stack, with the MMU on and the heap in the memory.
use micro_kernel_using_c_plu.Prelude.{◌≡◌, refl, true, false, some, [], arith}
use micro_kernel_using_c_plu.Prelude.Int.{pos}
use micro_kernel_using_c_plu.Prelude.Align.{is_pow2, align_up, align_down}
use micro_kernel_using_c_plu.Kmem.{kmem_align, kmem_alloc_aligned}
use micro_kernel_using_c_plu.Create.{Machine, thread_create_prio}
use micro_kernel_using_c_plu.Create.Fenced.{IsFenced, thread_create_prio-IsFenced}
use micro_kernel_using_c_plu.Mmu.Tree.{built_table}
use micro_kernel_using_c_plu.Examples.Tables.{
  linked, linked-IsSpread, first_tables, first_tables-IsTree,
}
use micro_kernel_using_c_plu.Examples.Devices.{machine, free_blocks-IsPool}

abbrev mapped : Machine
mapped = record machine {
  heap = record { cur = 0x4001_0000; end = 0x4010_0000 };
  mmu_on = true;
  tables = first_tables;
}

thread_create_prio-IsFenced_example :
    (m : Machine) × (thread_create_prio false 0 0x40_0000 0x40_1000 0 4096 (pos 40) mapped
      ≡ some (4096, m))
    × IsFenced linked
        (built_table linked)
        true
        (m.kernel.thread 4096).stack_base
        4096
        first_tables
        m.tables
unfolding kmem_alloc_aligned kmem_align align_up align_down is_pow2
thread_create_prio-IsFenced_example =
    thread_create_prio-IsFenced false 0 0x40_0000 0x40_1000 0 4096 (pos 40) mapped 4096 []
      0x4001_0000 (record { cur = 0x4001_2000; end = 0x4010_0000 }) (built_table linked)
      (omega arith) (omega arith) (omega arith) (omega arith) refl free_blocks-IsPool refl
      linked-IsSpread first_tables-IsTree
