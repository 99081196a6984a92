-- ===== src/Mmu.antt =====
-- src/arch/aarch64/mmu.cc: the identity map and the guard pages. The page tables are words of 64
-- bits by their address. Where the linker puts the tables and the DMA window is the record
-- `Place`; an access through a table descriptor goes to the address in it. The
-- barriers and the upkeep of the TLB are not modelled.
pub mod Outside
pub mod Walk
pub mod Window
pub mod Rooted
pub mod Built
pub mod Paths
pub mod Tree
pub mod Pages
pub mod Forbid
pub mod Split
pub mod Unmapped
pub mod Sequence
pub mod Identity
use Prim.Native.Nat.{bit_and, bit_or}
use micro_kernel_using_c_plu.Prelude.{
  ℕ, zero, suc, ◌+◌, ◌-◌, ◌*◌, ◌/◌, ◌%◌, ◌^◌, Bool, true, false, not, ◌&&◌, ◌||◌, Option, none,
  some, ltb, leb, ◌==◌, if◌then◌else◌,
}
use micro_kernel_using_c_plu.Prelude.Int.{ℤ, pos, negsuc}
use micro_kernel_using_c_plu.Prelude.Align.{align_down}
use micro_kernel_using_c_plu.Prelude.Store.{update}

pub record Place : Type 0 where
  pub l0 : ℕ
  pub l1 : ℕ
  pub l2_ram : ℕ
  pub l3_dma0 : ℕ
  pub l3_dma1 : ℕ
  pub l3_extra : ℕ
  pub dma_start : ℕ
  pub dma_end : ℕ
  pub noncacheable : Bool

pub record Tables : Type 0 where
  pub word : ℕ → ℕ
  pub extra_next : ℕ

abbrev pub entry : ℕ → ℕ → ℕ
entry table i = table + 8 * i

abbrev pub set_entry : ℕ → ℕ → ℕ → Tables → Tables
set_entry table i v t = record t { word = update t.word (entry table i) v }

abbrev pub address_bits : ℕ
address_bits = 0x0000_ffff_ffff_f000

-- kPtePxN | kPteUxN
abbrev pub never_execute : ℕ
never_execute = 2 ^ 53 + 2 ^ 54

abbrev pub attr_normal : ℕ
attr_normal = 0

abbrev pub attr_device : ℕ
attr_device = 1

abbrev pub attr_normal_nc : ℕ
attr_normal_nc = 2

abbrev pub ram_base : ℕ
ram_base = 0x4000_0000

abbrev pub ram_limit : ℕ
ram_limit = 0x8000_0000

abbrev pub l2_block_size : ℕ
l2_block_size = 2 ^ 21

abbrev pub page_size : ℕ
page_size = 2 ^ 12

abbrev pub extra_tables : ℕ
extra_tables = 8

pub pte_table : ℕ → ℕ
pte_table next = bit_or (bit_and next address_bits) 3

-- Bit 10 is the access flag.
pub pte_leaf : ℕ → ℕ → ℕ → ℕ → ℕ
pte_leaf kind base attr sh =
    bit_or (bit_or (bit_or (bit_or (bit_and base address_bits) kind) (attr * 4)) (sh * 2 ^ 8))
      (2 ^ 10)

pub pte_page : ℕ → ℕ → ℕ → ℕ
pte_page = pte_leaf 3

pub pte_block : ℕ → ℕ → ℕ → ℕ
pte_block = pte_leaf 1

-- The entries from i on of a table, n of them.
unfoldable pub fill_table : ℕ → ℕ → ℕ → (ℕ → ℕ) → Tables → Tables
fill_table zero table i value t = t
fill_table (suc n) table i value t =
    fill_table n table (i + 1) value (set_entry table i (value i) t)

abbrev pub clear_table : ℕ → Tables → Tables
clear_table table = fill_table 512 table 0 (λ i. 0)

pub clear_extra : ℕ → ℕ → Tables → Tables
clear_extra zero table t = t
clear_extra (suc n) table t = clear_extra n (table + 4096) (clear_table table t)

-- What a page of the block at `base` gets: the window's pages are never executed.
pub dma_page : Place → ℕ → ℕ → ℕ
dma_page p base i =
    let va = base + i * page_size in
    let inside = leb p.dma_start va && ltb va p.dma_end in
    bit_or (pte_page va (if inside && p.noncacheable then attr_normal_nc else attr_normal) 3)
      (if inside then never_execute else 0)

pub map_dma_block : Place → ℕ → ℕ → Tables → Tables
map_dma_block p base l3 t =
    set_entry p.l2_ram ((base - ram_base) / l2_block_size) (pte_table l3)
      (fill_table 512 l3 0 (dma_page p base) t)

pub map_dma_window : Place → Tables → Tables
map_dma_window p t =
    let first = align_down p.dma_start l2_block_size in
    let last = align_down (p.dma_end - 1) l2_block_size in
    let t1 = map_dma_block p first p.l3_dma0 t in
    if leb ram_base p.dma_start && ltb p.dma_start p.dma_end && leb p.dma_end ram_limit
    then (if first == last then t1 else map_dma_block p last p.l3_dma1 t1)
    else t

pub build_identity_map : Place → Tables → Tables
build_identity_map p t =
    let t1 =
      clear_table p.l3_dma1
        (clear_table p.l3_dma0 (clear_table p.l2_ram (clear_table p.l1 (clear_table p.l0 t)))) in
    let t2 = record (clear_extra extra_tables p.l3_extra t1) { extra_next = 0 } in
    let t3 = set_entry p.l0 0 (pte_table p.l1) t2 in
    let t4 = set_entry p.l1 0 (bit_or (pte_block 0 attr_device 0) never_execute) t3 in
    let t5 = set_entry p.l1 1 (pte_table p.l2_ram) t4 in
    let t6 = set_entry p.l1 2 (bit_or (pte_block ram_base attr_normal_nc 3) never_execute) t5 in
    let t7 =
      fill_table 512 p.l2_ram 0 (λ i. pte_block (ram_base + i * l2_block_size) attr_normal 3) t6 in
    map_dma_window p t7

-- The pages of a block, with the attributes of the block's descriptor `e`.
pub split_page : ℕ → ℕ → ℕ → ℕ
split_page e l2_index i =
    bit_or
      (pte_page (ram_base + l2_index * l2_block_size + i * page_size) (bit_and (e / 4) 7)
        (bit_and (e / 2 ^ 8) 3))
      (bit_and e never_execute)

pub split_block : Place → ℕ → Tables → Tables
split_block p l2_index t =
    let l3 = p.l3_extra + 4096 * t.extra_next in
    set_entry p.l2_ram l2_index (pte_table l3) (
      fill_table 512 l3 0 (split_page (t.word (entry p.l2_ram l2_index)) l2_index)
        (record t { extra_next = t.extra_next + 1 }))

-- The table, or `none` for the null pointer.
pub ensure_l3_for_ram_block : Place → ℕ → Tables → Option ℕ × Tables
ensure_l3_for_ram_block p l2_index t =
    let e = t.word (entry p.l2_ram l2_index) in
    if leb 512 l2_index
    then (none, t)
    else if bit_and e 3 == 3
    then (some (bit_and e address_bits), t)
    else if not (bit_and e 3 == 1)
    then (none, t)
    else if leb extra_tables t.extra_next
    then (none, t)
    else (some (p.l3_extra + 4096 * t.extra_next), split_block p l2_index t)

pub block_of : ℕ → ℕ
block_of addr = (align_down addr page_size - ram_base) / l2_block_size

pub page_of : ℕ → ℕ
page_of addr = (align_down addr page_size - ram_base) % l2_block_size / page_size

unfoldable pub forbid_page : ℕ → Option ℕ × Tables → ℤ × Tables
forbid_page i (none, t) = (negsuc 0, t)
forbid_page i (some l3, t) = (pos 0, set_entry l3 i 0 t)

-- The result is 0 or -1; `enabled` is the answer of mmu_enabled.
pub mmu_guard_page : Place → Bool → ℕ → Tables → ℤ × Tables
mmu_guard_page p enabled addr t =
    let va = align_down addr page_size in
    if (addr == 0) || not enabled
    then (negsuc 0, t)
    else if ltb va ram_base || leb ram_limit va
    then (negsuc 0, t)
    else forbid_page (page_of addr) (ensure_l3_for_ram_block p (block_of addr) t)

-- The system registers that mmu_init writes.
pub record MmuRegs : Type 0 where
  pub sctlr : ℕ
  pub mair : ℕ
  pub tcr : ℕ
  pub ttbr0 : ℕ

pub mair_value : ℕ
mair_value = bit_or (bit_or 0xff (0x04 * 2 ^ 8)) (0x44 * 2 ^ 16)

-- `mmfr0` is what ID_AA64MMFR0_EL1 reads.
pub tcr_value : ℕ → ℕ
tcr_value mmfr0 =
    let low = bit_and mmfr0 15 in
    let parange = if ltb 6 low then 5 else low in
    16 + 2 ^ 23 + 2 ^ 8 + 2 ^ 10 + 3 * 2 ^ 12 + parange * 2 ^ 32

unfoldable pub mmu_enabled : MmuRegs → Bool
mmu_enabled r = not (bit_and r.sctlr 1 == 0)

pub mmu_init : Place → ℕ → Bool → MmuRegs → Tables → MmuRegs × Tables
mmu_init p mmfr0 enable r t =
    let on = bit_or (bit_or (bit_or r.sctlr 1) 4) (2 ^ 12) in
    let written : MmuRegs = record {
      sctlr = on;
      mair = mair_value;
      tcr = tcr_value mmfr0;
      ttbr0 = p.l0;
    } in
    if not enable || mmu_enabled r then (r, t) else (written, build_identity_map p t)
