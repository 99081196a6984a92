-- ===== src/Mmu/Pages.antt =====
-- How the tests and shifts of src/arch/aarch64/mmu.cc read an address and the words of the tables.
use Prim.Native.Nat.{bit_and, bit_or}
use micro_kernel_using_c_plu.Prelude.{refl, ap, ◌∙◌, ◌+◌, ◌*◌, ◌/◌, ◌%◌, ◌^◌, ◌<◌, ◌≡◌, ℕ, arith}
use micro_kernel_using_c_plu.Prelude.Digits.{bit_and_three, bit_and_seven, bit_and_high}
use micro_kernel_using_c_plu.Mmu.{
  pte_table, pte_leaf, pte_block, pte_page, l2_block_size, page_size, ram_base, never_execute,
  split_page, address_bits,
}
use micro_kernel_using_c_plu.Mmu.Walk.{pte_leaf_lem, pte_table_lem, address_bits_lem}
use micro_kernel_using_c_plu.Mmu.Rooted.{plain_block}
use micro_kernel_using_c_plu.Prelude.Align.{is_pow2, align_down, align_down-IsRounded}

pub page_lem : (addr : ℕ) → addr < 2 ^ 64 → align_down addr page_size ≡ addr / 2 ^ 12 * 2 ^ 12
unfolding is_pow2
page_lem addr fits =
    let r = align_down-IsRounded addr page_size fits (omega arith) refl in
    omega (arith, r.below, r.near, r.multiple)

-- The words of the second level, as ensure_l3_for_ram_block tells them apart.
pub plain_block_kind : (i : ℕ) → i < 512 → bit_and (plain_block i) 3 ≡ 1
unfolding pte_block
plain_block_kind i lt =
    let b = 2 ^ 18 + i * 2 ^ 9 in
    let base : ram_base + i * l2_block_size ≡ b * 2 ^ 12 = omega arith in
    let sum =
      ap (λ a. pte_leaf 1 a 0 3) base
      ∙ pte_leaf_lem 1 b 0 3 (omega arith) (omega arith) (omega arith) (omega arith) in
    omega (arith, bit_and_three (plain_block i), sum)

pub pte_table_kind :
    (l : ℕ)
    → l % 2 ^ 12 ≡ 0
    → l < 2 ^ 48
    → (bit_and (pte_table l) 3 ≡ 3) × (bit_and (pte_table l) address_bits ≡ l)
pte_table_kind l al fits =
    let e = pte_table_lem l al fits in
    (
      omega (arith, bit_and_three (pte_table l), e),
      omega (arith, address_bits_lem (pte_table l) (omega (arith, e, al)), e),
    )

-- The entry for page j of the block i, if that was mapped as a block of memory.
pub split_page_lem :
    (i j : ℕ)
    → i < 512
    → split_page (plain_block i) i j
      ≡ bit_or (pte_leaf 3 ((2 ^ 18 + i * 2 ^ 9 + j) * 2 ^ 12) 0 3) (0 * never_execute)
unfolding split_page pte_block pte_page
split_page_lem i j lt =
    let e = plain_block i in
    let base : ram_base + i * l2_block_size ≡ (2 ^ 18 + i * 2 ^ 9) * 2 ^ 12 = omega arith in
    let sum =
      ap (λ a. pte_leaf 1 a 0 3) base
      ∙ pte_leaf_lem 1 (2 ^ 18 + i * 2 ^ 9) 0 3 (omega arith) (omega arith) (omega arith)
          (omega arith) in
    let attr : bit_and (e / 4) 7 ≡ 0 = omega (arith, bit_and_seven (e / 4), sum) in
    let sh : bit_and (e / 2 ^ 8) 3 ≡ 3 = omega (arith, bit_and_three (e / 2 ^ 8), sum) in
    let xn : bit_and e never_execute ≡ 0 = bit_and_high 53 e 3 (omega (arith, sum)) in
    let page : ram_base + i * l2_block_size + j * page_size ≡ (2 ^ 18 + i * 2 ^ 9 + j) * 2 ^ 12 =
      omega arith in
    ap
      (λ a.
        bit_or (pte_leaf 3 a (bit_and (e / 4) 7) (bit_and (e / 2 ^ 8) 3)) (bit_and e never_execute))
      page
    ∙ ap
        (λ x.
          bit_or (pte_leaf 3 ((2 ^ 18 + i * 2 ^ 9 + j) * 2 ^ 12) x (bit_and (e / 2 ^ 8) 3))
            (bit_and e never_execute))
        attr
    ∙ ap
        (λ x. bit_or (pte_leaf 3 ((2 ^ 18 + i * 2 ^ 9 + j) * 2 ^ 12) 0 x) (bit_and e never_execute))
        sh
    ∙ ap (bit_or (pte_leaf 3 ((2 ^ 18 + i * 2 ^ 9 + j) * 2 ^ 12) 0 3)) xn
