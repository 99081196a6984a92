-- ===== src/MmuRpi4/Guarded.antt =====
-- What mmu_guard_page of src/arch/aarch64/mmu_rpi4.cc does to the page tables.
use Prim.Native.Nat.{bit_and}
use micro_kernel_using_c_plu.Prelude.{
  ℕ, ◌+◌, ◌*◌, ◌/◌, ◌%◌, ◌≤◌, ◌<◌, ◌≡◌, ◌⊎◌, inl, inr, refl, Bool, not, ◌||◌, leb, ◌==◌, Bool-cases,
  Option, none, some, arith,
}
use micro_kernel_using_c_plu.Prelude.Int.{ℤ, pos, negsuc}
use micro_kernel_using_c_plu.Prelude.Align.{align_down}
use micro_kernel_using_c_plu.Mmu.{
  Place, Tables, entry, extra_tables, page_size, l2_block_size, forbid_page,
}
use micro_kernel_using_c_plu.Mmu.Outside.{SameOutside, fill_table-outside}
use micro_kernel_using_c_plu.MmuRpi4.{
  l1_block_size, split_lowram_page, split_lowram_block, ensure_l3_for_lowram_block, mmu_guard_page,
}

-- The answer of `ensure_l3_for_lowram_block`.
abbrev Ensured : Place → ℕ → Tables → Option ℕ × Tables → Type 0
Ensured p block t (none, t') = t' ≡ t
Ensured p block t (some l3, t') = SameOutside p block l3 t t'

split-SameOutside :
    (p : Place) (block : ℕ) (t : Tables)
    → t.extra_next < extra_tables
    → SameOutside p block (p.l3_extra + 4096 * t.extra_next) t (split_lowram_block p block t)
unfolding split_lowram_block
split-SameOutside p block t room =
    let l3 = p.l3_extra + 4096 * t.extra_next in
    let value = split_lowram_page (t.word (entry p.l2_ram block)) block in
    let t1 : Tables = record t { extra_next = t.extra_next + 1 } in
    record {
      words = λ a ne out. ground (arith, fill_table-outside 512 l3 0 a value t1 (ground arith));
      bounded = ground (arith, fill_table-outside 512 l3 0 (l3 + 4096) value t1 (ground arith));
    }

ensure-Ensured :
    (p : Place) (block : ℕ) (t : Tables)
    → t.extra_next ≤ extra_tables
    → Ensured p block t (ensure_l3_for_lowram_block p block t)
unfolding ensure_l3_for_lowram_block
ensure-Ensured p block t fits =
    let e = t.word (entry p.l2_ram block) in
    elim (Bool-cases (leb 512 block)) [
      | inl out ↦ rw out refl
      | inr block_lt ↦ rw block_lt (elim (Bool-cases (bit_and e 3 == 3)) [
        | inl split ↦ rw split (record { words = λ a ne o. refl; bounded = fits })
        | inr whole ↦ rw whole (elim (Bool-cases (not (bit_and e 3 == 1))) [
          | inl other ↦ rw other refl
          | inr is_block ↦ rw is_block (elim (Bool-cases (leb extra_tables t.extra_next)) [
            | inl full ↦ rw full refl
            | inr room ↦ rw room (split-SameOutside p block t (ground arith))
          ])
        ])
      ])
    ]

-- The block and the page of an address of low memory.
abbrev pub low_block_of : ℕ → ℕ
low_block_of addr = align_down addr page_size / l2_block_size

abbrev pub low_page_of : ℕ → ℕ
low_page_of addr = align_down addr page_size % l2_block_size / page_size

-- What the two answers mean: -1 with no change, or 0 with the page's entry invalid, in the table
-- at `l3`, and nothing changed outside that table and the entry of its block.
abbrev pub LowramGuarded : Place → ℕ → Tables → ℤ × Tables → Type 0
LowramGuarded p addr t (r, t') =
    ((r ≡ negsuc 0) × (t' ≡ t))
    ⊎ ((r ≡ pos 0)
        × (l3 : ℕ) × (t'.word (entry l3 (low_page_of addr)) ≡ 0)
        × SameOutside p (low_block_of addr) l3 t t')

forbid_page-LowramGuarded :
    (p : Place) (addr : ℕ) (t : Tables) (r : Option ℕ × Tables)
    → Ensured p (low_block_of addr) t r
    → LowramGuarded p addr t (forbid_page (low_page_of addr) r)
unfolding forbid_page
forbid_page-LowramGuarded p addr t (none, t') same = inl (refl, same)
forbid_page-LowramGuarded p addr t (some l3, t') same =
    let small : low_page_of addr < 512 = omega arith in
    inr (
      refl,
      l3,
      ground arith,
      record {
        words = λ a ne out. ground (arith, same.words a ne out, small);
        bounded = same.bounded;
      },
    )

-- On the Raspberry Pi 4 too, with at most eight extra tables in use, mmu_guard_page gives one of
-- the two answers of LowramGuarded, at any address, and no more than eight are in use afterwards.
pub mmu_guard_page-LowramGuarded :
    (p : Place) (enabled : Bool) (addr : ℕ) (t : Tables)
    → t.extra_next ≤ extra_tables
    → LowramGuarded p addr t (mmu_guard_page p enabled addr t)
unfolding mmu_guard_page
mmu_guard_page-LowramGuarded p enabled addr t fits =
    elim (Bool-cases ((addr == 0) || not enabled)) [
      | inl off ↦ rw off (inl (refl, refl))
      | inr on ↦ rw on (elim (Bool-cases (leb l1_block_size (align_down addr page_size))) [
        | inl outside ↦ rw outside (inl (refl, refl))
        | inr ram ↦ rw ram (
            forbid_page-LowramGuarded p addr t (ensure_l3_for_lowram_block p (low_block_of addr) t)
              (ensure-Ensured p (low_block_of addr) t fits))
      ])
    ]
