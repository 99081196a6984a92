-- ===== src/Mmu/Tree.antt =====
-- The page tables as mmu_guard_page of src/arch/aarch64/mmu.cc finds and leaves them: which table
-- each block of the memory is mapped by, and what a walk depends on.
use micro_kernel_using_c_plu.Prelude.{
  ℕ, ◌+◌, ◌*◌, ◌%◌, ◌^◌, ◌≤◌, ◌<◌, ◌≡◌, ◌≢◌, ◌⊎◌, inl, inr, ◌==◌, Bool-cases, Option, none, some,
  if◌then◌else◌, arith,
}
use micro_kernel_using_c_plu.Mmu.{
  Place, Tables, entry, extra_tables, pte_table, l2_block_size, ram_base, build_identity_map,
}
use micro_kernel_using_c_plu.Mmu.Window.{IsPlace, Apart}
use micro_kernel_using_c_plu.Mmu.Rooted.{IsRooted}
use micro_kernel_using_c_plu.Mmu.Built.{
  IsBuilt, InBlocks, window_table, window_first, in_window_block, build_identity_map-IsBuilt,
}

-- The eight extra tables are aligned, lie below 2 ^ 48 and do not overlap `table`.
abbrev pub OffExtra : Place → ℕ → Type 0
OffExtra p table = (table + 4096 ≤ p.l3_extra) ⊎ (p.l3_extra + 4096 * extra_tables ≤ table)

pub record IsSpread (p : Place) : Type 0 where
  pub place : IsPlace p
  pub extra_aligned : p.l3_extra % 4096 ≡ 0
  pub extra_fits : p.l3_extra + 4096 * extra_tables < 2 ^ 48
  pub l0_off : OffExtra p p.l0
  pub l1_off : OffExtra p p.l1
  pub l2_off : OffExtra p p.l2_ram
  pub dma0_off : OffExtra p p.l3_dma0
  pub dma1_off : OffExtra p p.l3_dma1

-- A table of pages in use, when the extra tables from number `next` on are free.
pub record IsL3 (p : Place) (next l3 : ℕ) : Type 0 where
  pub aligned : l3 % 4096 ≡ 0
  pub fits : l3 < 2 ^ 48
  pub off0 : Apart p.l0 l3
  pub off1 : Apart p.l1 l3
  pub off2 : Apart p.l2_ram l3
  pub used : (l3 + 4096 ≤ p.l3_extra + 4096 * next) ⊎ (p.l3_extra + 4096 * extra_tables ≤ l3)

-- How block i is mapped: by a block, or by the table given.
unfoldable pub NodeAt : Place → Tables → ℕ → Option ℕ → Type 0
NodeAt p t i none = InBlocks p t.word i
NodeAt p t i (some l3) = IsL3 p t.extra_next l3 × (t.word (entry p.l2_ram i) ≡ pte_table l3)

pub record IsTree (p : Place) (table : ℕ → Option ℕ) (t : Tables) : Type 0 where
  pub rooted : IsRooted p t
  pub bounded : t.extra_next ≤ extra_tables
  pub node : (i : ℕ) → i < 512 → NodeAt p t i (table i)
  pub apart :
      (i j l m : ℕ) → i < 512 → j < 512 → i ≢ j → table i ≡ some l → table j ≡ some m → Apart l m

abbrev pub built_table : Place → ℕ → Option ℕ
built_table p i = if in_window_block p i then some (window_table p i) else none

window_table-IsL3 : (p : Place) (i : ℕ) → IsSpread p → IsL3 p 0 (window_table p i)
window_table-IsL3 p i is = elim (Bool-cases (ram_base + i * l2_block_size == window_first p)) [
  | inl first ↦ rw first (record {
    aligned = is.place.dma0_aligned.0;
    fits = is.place.dma0_aligned.1;
    off0 = is.place.l0_dma0;
    off1 = is.place.l1_dma0;
    off2 = is.place.l2_dma0;
    used = ground (arith, is.dma0_off);
  })
  | inr other ↦ rw other (record {
    aligned = is.place.dma1_aligned.0;
    fits = is.place.dma1_aligned.1;
    off0 = is.place.l0_dma1;
    off1 = is.place.l1_dma1;
    off2 = is.place.l2_dma1;
    used = ground (arith, is.dma1_off);
  })
]

-- The tables that build_identity_map leaves.
pub built-IsTree : (p : Place) (t : Tables) → IsSpread p → IsBuilt p t → IsTree p (built_table p) t
unfolding NodeAt
built-IsTree p t is built = record {
  rooted = built.rooted;
  bounded = omega (arith, built.unused);
  node = λ i lt. elim (Bool-cases (in_window_block p i)) [
    | inr out ↦ rw out (built.plain i lt out)
    | inl here ↦ rw here (rw built.unused (window_table-IsL3 p i is), (built.paged i lt here).0)
  ];
  apart = λ i j l m hi hj ne at there. ground (arith, is.place.dma0_dma1);
}

pub build_identity_map-IsTree :
    (p : Place) (t : Tables) → IsSpread p → IsTree p (built_table p) (build_identity_map p t)
build_identity_map-IsTree p t is =
    built-IsTree p (build_identity_map p t) is (build_identity_map-IsBuilt p t is.place)
