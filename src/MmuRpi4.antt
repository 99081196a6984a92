-- ===== src/MmuRpi4.antt =====
-- src/arch/aarch64/mmu_rpi4.cc: the page tables of the Raspberry Pi 4, and mmu_init. The file has
-- the helpers of src/arch/aarch64/mmu.cc again, word for word; those of Mmu stand for both. The table
-- g_l2_lowram is the field `l2_ram` of a `Place`.
pub mod Guarded
pub mod Enabled
use Prim.Native.Nat.{bit_and, bit_or}
use micro_kernel_using_c_plu.Prelude.{
  ℕ, ◌+◌, ◌-◌, ◌*◌, ◌/◌, ◌%◌, ◌^◌, Bool, not, ◌&&◌, ◌||◌, Option, none, some, ltb, leb, ◌==◌,
  if◌then◌else◌,
}
use micro_kernel_using_c_plu.Prelude.Int.{ℤ, pos, negsuc}
use micro_kernel_using_c_plu.Prelude.Align.{align_down}
use micro_kernel_using_c_plu.Mmu.{
  Place, Tables, entry, set_entry, address_bits, never_execute, attr_normal, attr_device,
  attr_normal_nc, l2_block_size, page_size, extra_tables, pte_table, pte_page, pte_block,
  fill_table, clear_table, clear_extra, dma_page, forbid_page, MmuRegs, mair_value, tcr_value,
  mmu_enabled,
}

abbrev pub l1_block_size : ℕ
l1_block_size = 2 ^ 30

-- kPeriphL1Base
abbrev periph_base : ℕ
periph_base = 0xc000_0000

pub map_lowram_block : Place → ℕ → ℕ → Tables → Tables
map_lowram_block p base l3 t =
    set_entry p.l2_ram (base / l2_block_size) (pte_table l3)
      (fill_table 512 l3 0 (dma_page p base) t)

pub map_lowram_window : Place → Tables → Tables
map_lowram_window p t =
    let dma_last = p.dma_end - 1 in
    let first = align_down p.dma_start l2_block_size in
    let last = align_down dma_last l2_block_size in
    let t1 = map_lowram_block p first p.l3_dma0 t in
    if ltb p.dma_start p.dma_end
      && p.dma_start / l1_block_size == 0
      && dma_last / l1_block_size == 0
    then (if first == last then t1 else map_lowram_block p last p.l3_dma1 t1)
    else t

pub build_map : Place → Tables → Tables
build_map p t =
    let t1 =
      clear_table p.l3_dma1
        (clear_table p.l3_dma0 (clear_table p.l2_ram (clear_table p.l1 (clear_table p.l0 t)))) in
    let t2 = record (clear_extra extra_tables p.l3_extra t1) { extra_next = 0 } in
    let t3 = set_entry p.l0 0 (pte_table p.l1) t2 in
    let t4 = set_entry p.l1 0 (pte_table p.l2_ram) t3 in
    let t5 = set_entry p.l1 1 (bit_or (pte_block 0 attr_normal_nc 3) never_execute) t4 in
    let t6 = set_entry p.l1 3 (bit_or (pte_block periph_base attr_device 0) never_execute) t5 in
    let t7 = fill_table 512 p.l2_ram 0 (λ i. pte_block (i * l2_block_size) attr_normal 3) t6 in
    map_lowram_window p t7

pub split_lowram_page : ℕ → ℕ → ℕ → ℕ
split_lowram_page e l2_index i =
    bit_or
      (pte_page (l2_index * l2_block_size + i * page_size) (bit_and (e / 4) 7)
        (bit_and (e / 2 ^ 8) 3))
      (bit_and e never_execute)

pub split_lowram_block : Place → ℕ → Tables → Tables
split_lowram_block p l2_index t =
    let l3 = p.l3_extra + 4096 * t.extra_next in
    set_entry p.l2_ram l2_index (pte_table l3) (
      fill_table 512 l3 0 (split_lowram_page (t.word (entry p.l2_ram l2_index)) l2_index)
        (record t { extra_next = t.extra_next + 1 }))

-- The table, or `none` for the null pointer.
pub ensure_l3_for_lowram_block : Place → ℕ → Tables → Option ℕ × Tables
ensure_l3_for_lowram_block p l2_index t =
    let e = t.word (entry p.l2_ram l2_index) in
    if leb 512 l2_index
    then (none, t)
    else if bit_and e 3 == 3
    then (some (bit_and e address_bits), t)
    else if not (bit_and e 3 == 1)
    then (none, t)
    else if leb extra_tables t.extra_next
    then (none, t)
    else (some (p.l3_extra + 4096 * t.extra_next), split_lowram_block p l2_index t)

-- The result is 0 or -1; `enabled` is the answer of mmu_enabled.
pub mmu_guard_page : Place → Bool → ℕ → Tables → ℤ × Tables
mmu_guard_page p enabled addr t =
    let va = align_down addr page_size in
    if (addr == 0) || not enabled
    then (negsuc 0, t)
    else if leb l1_block_size va
    then (negsuc 0, t)
    else forbid_page (va % l2_block_size / page_size)
        (ensure_l3_for_lowram_block p (va / l2_block_size) t)

pub mmu_init : Place → ℕ → Bool → MmuRegs → Tables → MmuRegs × Tables
mmu_init p mmfr0 enable r t =
    let on = bit_or (bit_or (bit_or r.sctlr 1) 4) (2 ^ 12) in
    let written : MmuRegs = record {
      sctlr = on;
      mair = mair_value;
      tcr = tcr_value mmfr0;
      ttbr0 = p.l0;
    } in
    if not enable || mmu_enabled r then (r, t) else (written, build_map p t)
