-- ===== src/Examples/Tables.antt =====
-- The theorems on the page tables, on the tables that the processor finds after a reset.
use micro_kernel_using_c_plu.Prelude.{refl, ap, true, [], ◌∷◌, inl, arith}
use micro_kernel_using_c_plu.Mmu.{Place, Tables, mmu_guard_page, build_identity_map}
use micro_kernel_using_c_plu.Mmu.Window.{IsPlace}
use micro_kernel_using_c_plu.Mmu.Built.{build_identity_map-IsBuilt}
use micro_kernel_using_c_plu.Mmu.Tree.{IsSpread, IsTree, built_table, build_identity_map-IsTree}
use micro_kernel_using_c_plu.Mmu.Unmapped.{Answer, mmu_guard_page-Answer, mmu_guard_page-succeeds}
use micro_kernel_using_c_plu.Mmu.Sequence.{Reached, built, unmapped, IsReached, Reached-IsReached}

abbrev pub linked : Place
linked = record {
  l0 = 0x4020_0000;
  l1 = 0x4020_1000;
  l2_ram = 0x4020_2000;
  l3_dma0 = 0x4020_3000;
  l3_dma1 = 0x4020_4000;
  l3_extra = 0x4020_5000;
  dma_start = 0x4100_0000;
  dma_end = 0x4102_0000;
  noncacheable = true;
}

linked-IsPlace : IsPlace linked
linked-IsPlace = record {
  l1_aligned = (refl, omega arith);
  l2_aligned = (refl, omega arith);
  dma0_aligned = (refl, omega arith);
  dma1_aligned = (refl, omega arith);
  l0_l1 = inl (omega arith);
  l0_l2 = inl (omega arith);
  l1_l2 = inl (omega arith);
  l0_dma0 = inl (omega arith);
  l1_dma0 = inl (omega arith);
  l2_dma0 = inl (omega arith);
  l0_dma1 = inl (omega arith);
  l1_dma1 = inl (omega arith);
  l2_dma1 = inl (omega arith);
  dma0_dma1 = inl (omega arith);
}

abbrev pub noise : Tables
noise = record { word = λ a. a; extra_next = 5 }

pub linked-IsSpread : IsSpread linked
linked-IsSpread = record {
  place = linked-IsPlace;
  extra_aligned = refl;
  extra_fits = omega arith;
  l0_off = inl (omega arith);
  l1_off = inl (omega arith);
  l2_off = inl (omega arith);
  dma0_off = inl (omega arith);
  dma1_off = inl (omega arith);
}

-- The tables that are built, and after the page at 0x4030_0000 is unmapped.
abbrev pub first_tables : Tables
first_tables = build_identity_map linked noise

pub first_tables-IsTree : IsTree linked (built_table linked) first_tables
first_tables-IsTree = build_identity_map-IsTree linked noise linked-IsSpread

mmu_guard_page-Answer_example :
    Answer linked
      (built_table linked)
      true
      0x4030_0000
      first_tables
      (mmu_guard_page linked true 0x4030_0000 first_tables)
mmu_guard_page-Answer_example =
    mmu_guard_page-Answer linked true 0x4030_0000 (built_table linked) first_tables linked-IsSpread
      first_tables-IsTree (omega arith)

abbrev guarded_tables : Tables
guarded_tables = (mmu_guard_page linked true 0x4030_0000 first_tables).1

guarded_tables-Reached : Reached linked (0x4030_0000 ∷ []) guarded_tables
guarded_tables-Reached =
    unmapped [] first_tables guarded_tables true 0x4030_0000 (built noise) (omega arith) (
      ap (λ r. (r, guarded_tables))
        (mmu_guard_page-succeeds linked 0x4030_0000 (built_table linked) first_tables
          linked-IsSpread first_tables-IsTree (omega arith) (omega arith)
          (omega (arith, (build_identity_map-IsBuilt linked noise linked-IsPlace).unused))))

Reached-IsReached_example : IsReached linked (0x4030_0000 ∷ []) guarded_tables
Reached-IsReached_example =
    Reached-IsReached linked (0x4030_0000 ∷ []) guarded_tables linked-IsSpread
      guarded_tables-Reached
