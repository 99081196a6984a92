-- ===== src/Mmu/Walk.antt =====
-- The walk of the processor through page tables for 48-bit addresses in pages of 4 KB, as the
-- architecture documents it, and how the descriptors of src/arch/aarch64/mmu.cc read in it.
use Prim.Native.Nat.{bit_and, bit_or, bit_or-bitwise}
use micro_kernel_using_c_plu.Prelude.{
  ℕ, zero, suc, ◌+◌, ◌*◌, ◌/◌, ◌%◌, ◌^◌, ◌<◌, ◌≡◌, refl, ap, ◌∙◌, Option, none, some, true, ◌==◌,
  ◌&&◌, ltb, if◌then◌else◌, arith,
}
use micro_kernel_using_c_plu.Prelude.Disjoint.{bit_or_high, bit_or_low_part}
use micro_kernel_using_c_plu.Prelude.Align.{mask-IsRounded}
use micro_kernel_using_c_plu.Mmu.{entry, address_bits, never_execute, pte_leaf, pte_table}

-- What an address is translated to: the address in memory, the index of the attributes, and the
-- two bits that forbid to execute.
pub record Leaf : Type 0 where
  pub address : ℕ
  pub attr : ℕ
  pub forbidden : ℕ

abbrev pub leaf_of : ℕ → ℕ → ℕ → Leaf
leaf_of e size va = record {
  address = e % 2 ^ 48 / size * size + va % size;
  attr = e / 4 % 8;
  forbidden = e / 2 ^ 53 % 4;
}

-- The address in a table descriptor.
abbrev pub next_table : ℕ → ℕ
next_table e = e % 2 ^ 48 / 2 ^ 12 * 2 ^ 12

-- The size of what an entry maps, by how many levels of tables are below it.
abbrev pub size_at : ℕ → ℕ
size_at zero = 2 ^ 12
size_at (suc zero) = 2 ^ 21
size_at (suc (suc zero)) = 2 ^ 30
size_at (suc (suc (suc n))) = 2 ^ 39

-- Descriptors end in 11 for a table, or a page at the last level, and in 01 for a block, which the
-- first level has not.
unfoldable pub walk : ℕ → (ℕ → ℕ) → ℕ → ℕ → Option Leaf
walk zero word table va =
    let e = word (entry table (va / 2 ^ 12 % 512)) in
    if e % 4 == 3 then some (leaf_of e (2 ^ 12) va) else none
walk (suc n) word table va =
    let e = word (entry table (va / size_at (suc n) % 512)) in
    let rest = walk n word (next_table e) va in
    if e % 4 == 3
    then rest
    else if (e % 4 == 1) && ltb n 2
    then some (leaf_of e (size_at (suc n)) va)
    else none

pub address_bits_lem : (x : ℕ) → x < 2 ^ 48 → bit_and x address_bits ≡ x / 2 ^ 12 * 2 ^ 12
address_bits_lem x h =
    let r = mask-IsRounded 12 36 48 x refl h in omega (arith, r.near, r.below, r.multiple)

-- A field that lies above the digits that are set below bit 12.
or_field :
    (k b c y : ℕ)
    → c < 2 ^ k
    → c < 2 ^ 12
    → y * 2 ^ k < 2 ^ 12
    → bit_or (b * 2 ^ 12 + c) (y * 2 ^ k) ≡ b * 2 ^ 12 + (c + y * 2 ^ k)
or_field k b c y above low high =
    bit_or_low_part 12 b c (y * 2 ^ k) low high ∙ ap (λ t. b * 2 ^ 12 + t) (bit_or_high k c y above)

module _ (kind b attr sh : ℕ) (hk : kind < 4) (ha : attr < 8) (hs : sh < 4) (hb : b < 2 ^ 36) where
  -- A leaf descriptor as a sum.
  pub pte_leaf_lem :
      pte_leaf kind (b * 2 ^ 12) attr sh
      ≡ b * 2 ^ 12 + (kind + attr * 2 ^ 2 + sh * 2 ^ 8 + 1 * 2 ^ 10)
  unfolding pte_leaf
  pte_leaf_lem =
      let base : bit_and (b * 2 ^ 12) address_bits ≡ b * 2 ^ 12 + 0 =
        omega (arith, address_bits_lem (b * 2 ^ 12) (omega arith)) in
      let one : bit_or (b * 2 ^ 12 + 0) kind ≡ b * 2 ^ 12 + kind =
        bit_or_low_part 12 b 0 kind (omega arith) (omega arith)
        ∙ omega (arith, bit_or-bitwise 0 kind) in
      let two = or_field 2 b kind attr (omega arith) (omega arith) (omega arith) in
      let three = or_field 8 b (kind + attr * 2 ^ 2) sh (omega arith) (omega arith) (omega arith) in
      let four =
        or_field 10 b (kind + attr * 2 ^ 2 + sh * 2 ^ 8) 1 (omega arith) (omega arith)
          (omega arith) in
      ap (λ t. bit_or (bit_or (bit_or (bit_or t kind) (attr * 2 ^ 2)) (sh * 2 ^ 8)) (1 * 2 ^ 10))
        base
      ∙ ap (λ t. bit_or (bit_or (bit_or t (attr * 2 ^ 2)) (sh * 2 ^ 8)) (1 * 2 ^ 10)) one
      ∙ ap (λ t. bit_or (bit_or t (sh * 2 ^ 8)) (1 * 2 ^ 10)) two
      ∙ ap (λ t. bit_or t (1 * 2 ^ 10)) three
      ∙ four

  -- With or without the bits that forbid to execute, it reads as what it was made from.
  pub leaf_reads :
      (x : ℕ)
      → x < 2
      → let e = bit_or (pte_leaf kind (b * 2 ^ 12) attr sh) (x * never_execute) in
        (e % 4 ≡ kind) × (e % 2 ^ 48 / 2 ^ 12 ≡ b) × (e / 4 % 8 ≡ attr) × (e / 2 ^ 53 % 4 ≡ x * 3)
  leaf_reads x hx =
      let leaf = pte_leaf kind (b * 2 ^ 12) attr sh in
      let low = pte_leaf_lem in
      let sum : bit_or leaf (x * never_execute) ≡ leaf + x * 3 * 2 ^ 53 =
        ap (bit_or leaf) (omega arith) ∙ bit_or_high 53 leaf (x * 3) (omega (arith, low)) in
      (
        omega (arith, sum, low),
        omega (arith, sum, low),
        omega (arith, sum, low),
        omega (arith, sum, low),
      )

-- A table descriptor is its table's address with the lowest digits set.
pub pte_table_lem : (table : ℕ) → table % 2 ^ 12 ≡ 0 → table < 2 ^ 48 → pte_table table ≡ table + 3
unfolding pte_table
pte_table_lem table al fits =
    let b = table / 2 ^ 12 in
    ap (λ t. bit_or t 3) (omega (arith, address_bits_lem table fits))
    ∙ bit_or_low_part 12 b 0 3 (omega arith) (omega arith)
    ∙ omega (arith, bit_or-bitwise 0 3)

-- It leads to its table.
pub pte_table_reads :
    (table : ℕ)
    → table % 2 ^ 12 ≡ 0
    → table < 2 ^ 48
    → (pte_table table % 4 ≡ 3) × (next_table (pte_table table) ≡ table)
pte_table_reads table al fits =
    let e = pte_table_lem table al fits in (omega (arith, e), omega (arith, e))

-- The steps of a walk.
module _ (word : ℕ → ℕ) (table va : ℕ) where
  pub walk-table :
      (n next : ℕ)
      → next % 2 ^ 12 ≡ 0
      → next < 2 ^ 48
      → word (entry table (va / size_at (suc n) % 512)) ≡ pte_table next
      → walk (suc n) word table va ≡ walk n word next va
  unfolding walk
  walk-table n next al fits e =
      let (kind, down) = pte_table_reads next al fits in rw (e, kind, down) refl

  pub walk-block :
      (n e : ℕ)
      → n < 2
      → word (entry table (va / size_at (suc n) % 512)) ≡ e
      → e % 4 ≡ 1
      → walk (suc n) word table va ≡ some (leaf_of e (size_at (suc n)) va)
  unfolding walk
  walk-block n e lt at kind = let few : ltb n 2 ≡ true = ground arith in rw (at, kind, few) refl

  pub walk-page :
      (e : ℕ)
      → word (entry table (va / 2 ^ 12 % 512)) ≡ e
      → e % 4 ≡ 3
      → walk zero word table va ≡ some (leaf_of e (2 ^ 12) va)
  unfolding walk
  walk-page e at kind = rw (at, kind) refl
