-- ===== src/Mmu/Window.antt =====
-- Tables of 4 KB that do not overlap, and what map_dma_block of src/arch/aarch64/mmu.cc writes.
use micro_kernel_using_c_plu.Prelude.{
  ℕ, zero, suc, ◌+◌, ◌-◌, ◌*◌, ◌/◌, ◌%◌, ◌^◌, ◌≤◌, ◌<◌, ◌≡◌, ◌≢◌, ◌⊎◌, inl, inr, refl, ap, ◌==◌,
  Bool-cases, arith,
}
use micro_kernel_using_c_plu.Mmu.{
  Place, Tables, entry, set_entry, ram_base, l2_block_size, pte_table, fill_table, dma_page,
  map_dma_block,
}
use micro_kernel_using_c_plu.Mmu.Outside.{fill_table-outside}

-- Two tables of 4 KB.
abbrev pub Apart : ℕ → ℕ → Type 0
Apart x y = (x + 4096 ≤ y) ⊎ (y + 4096 ≤ x)

-- The tables are aligned, lie below 2 ^ 48, and do not overlap.
pub record IsPlace (p : Place) : Type 0 where
  pub l1_aligned : (p.l1 % 4096 ≡ 0) × (p.l1 < 2 ^ 48)
  pub l2_aligned : (p.l2_ram % 4096 ≡ 0) × (p.l2_ram < 2 ^ 48)
  pub dma0_aligned : (p.l3_dma0 % 4096 ≡ 0) × (p.l3_dma0 < 2 ^ 48)
  pub dma1_aligned : (p.l3_dma1 % 4096 ≡ 0) × (p.l3_dma1 < 2 ^ 48)
  pub l0_l1 : Apart p.l0 p.l1
  pub l0_l2 : Apart p.l0 p.l2_ram
  pub l1_l2 : Apart p.l1 p.l2_ram
  pub l0_dma0 : Apart p.l0 p.l3_dma0
  pub l1_dma0 : Apart p.l1 p.l3_dma0
  pub l2_dma0 : Apart p.l2_ram p.l3_dma0
  pub l0_dma1 : Apart p.l0 p.l3_dma1
  pub l1_dma1 : Apart p.l1 p.l3_dma1
  pub l2_dma1 : Apart p.l2_ram p.l3_dma1
  pub dma0_dma1 : Apart p.l3_dma0 p.l3_dma1

fill_table-before :
    (n table i j : ℕ) (value : ℕ → ℕ) (t : Tables)
    → j < i
    → (fill_table n table i value t).word (entry table j) ≡ t.word (entry table j)
unfolding fill_table
fill_table-before zero table i j value t low = refl
fill_table-before (suc n) table i j value t low =
    let rest =
      fill_table-before n table (i + 1) j value (set_entry table i (value i) t) (omega arith) in
    ground (arith, rest)

pub fill_table-inside :
    (n table i j : ℕ) (value : ℕ → ℕ) (t : Tables)
    → i ≤ j
    → j < i + n
    → (fill_table n table i value t).word (entry table j) ≡ value j
unfolding fill_table
fill_table-inside zero table i j value t low high = absurd (omega arith)
fill_table-inside (suc n) table i j value t low high = elim (Bool-cases (i == j)) [
  | inl same ↦ ground (
    arith,
    fill_table-before n table (i + 1) j value (set_entry table i (value i) t) (ground arith),
  )
  | inr apart ↦
      fill_table-inside n table (i + 1) j value (set_entry table i (value i) t) (ground arith)
        (omega arith)
]

-- The block number k of the memory is mapped by pages, in the table `l3`.
pub record IsWindowed (p : Place) (k l3 : ℕ) (t t' : Tables) : Type 0 where
  pub outside : (a : ℕ) → a ≢ entry p.l2_ram k → (a < l3) ⊎ (l3 + 4096 ≤ a) → t'.word a ≡ t.word a
  pub table : t'.word (entry p.l2_ram k) ≡ pte_table l3
  pub kept : t'.extra_next ≡ t.extra_next
  pub pages : (j : ℕ) → j < 512 → t'.word (entry l3 j) ≡ dma_page p (ram_base + k * l2_block_size) j

pub map_dma_block-IsWindowed :
    (p : Place) (k base l3 : ℕ) (t : Tables)
    → base ≡ ram_base + k * l2_block_size
    → k < 512
    → Apart p.l2_ram l3
    → IsWindowed p k l3 t (map_dma_block p base l3 t)
unfolding map_dma_block
map_dma_block-IsWindowed p k base l3 t e lt apart =
    let index : (base - ram_base) / l2_block_size ≡ k = omega (arith, e) in
    record {
      outside = λ a ne out.
          ground (arith, index, fill_table-outside 512 l3 0 a (dma_page p base) t (ground arith));
      table = ground (arith, index);
      kept = (fill_table-outside 512 l3 0 (l3 + 4096) (dma_page p base) t (inr (omega arith))).1;
      pages = λ j h. ground (
        arith,
        index,
        fill_table-inside 512 l3 0 j (dma_page p base) t (omega arith) (omega arith),
        ap (λ b. dma_page p b j) e,
      );
    }
