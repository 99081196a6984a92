-- ===== src/Mmu/Paths.antt =====
-- The walks through the tables of build_identity_map of src/arch/aarch64/mmu.cc, by region.
use Prim.Native.Nat.{bit_or}
use micro_kernel_using_c_plu.Prelude.{
  ◌==◌, ℕ, ◌+◌, ◌-◌, ◌*◌, ◌/◌, ◌%◌, ◌^◌, ◌≤◌, ◌<◌, ◌≡◌, refl, ◌∙◌, ap, sym, Bool, ◌&&◌, ltb, leb,
  Bool-cases, some, if◌then◌else◌, inl, inr, arith,
}
use micro_kernel_using_c_plu.Prelude.Disjoint.{bit_or-zero}
use micro_kernel_using_c_plu.Mmu.{
  Place, Tables, entry, never_execute, attr_device, attr_normal, attr_normal_nc, ram_base,
  l2_block_size, pte_leaf, pte_block, pte_page, dma_page,
}
use micro_kernel_using_c_plu.Mmu.Walk.{
  Leaf, leaf_of, size_at, walk, leaf_reads, walk-table, walk-block, walk-page,
}
use micro_kernel_using_c_plu.Mmu.Window.{IsPlace}
use micro_kernel_using_c_plu.Mmu.Rooted.{IsRooted}
use micro_kernel_using_c_plu.Mmu.Built.{IsBuilt, in_window_block, window_table, window_first}

abbrev pub leaf : ℕ → ℕ → ℕ → Leaf
leaf address attr forbidden = record { address = address; attr = attr; forbidden = forbidden }

-- The page of an address, and whether it is one of the window's that gets its own attributes.
abbrev pub page_at : ℕ → ℕ
page_at va = va / 2 ^ 12 * 2 ^ 12

abbrev pub in_window : Place → ℕ → Bool
in_window p va =
    in_window_block p (va / 2 ^ 21 - 512)
    && leb p.dma_start (page_at va)
    && ltb (page_at va) p.dma_end

leaf_same :
    (a b attr attr' x x' : ℕ)
    → a ≡ b
    → attr ≡ attr'
    → x ≡ x'
    → some (leaf a attr x) ≡ some (leaf b attr' x')
leaf_same a b attr attr' x x' e f g = rw (e, f, g) refl

-- A leaf descriptor at the end of a walk.
pub leaf_of_lem :
    (kind b attr sh x size va a : ℕ)
    → kind < 4
    → attr < 8
    → sh < 4
    → b < 2 ^ 36
    → x < 2
    → ((y : ℕ) → y / 2 ^ 12 ≡ b → y / size * size + va % size ≡ a)
    → some (leaf_of (bit_or (pte_leaf kind (b * 2 ^ 12) attr sh) (x * never_execute)) size va)
      ≡ some (leaf a attr (x * 3))
leaf_of_lem kind b attr sh x size va a hk ha hs hb hx e =
    let (k, base, at, forbidden) = leaf_reads kind b attr sh hk ha hs hb x hx in
    let word = bit_or (pte_leaf kind (b * 2 ^ 12) attr sh) (x * never_execute) in
    leaf_same (word % 2 ^ 48 / size * size + va % size) a (word / 4 % 8) attr (word / 2 ^ 53 % 4)
      (x * 3) (e (word % 2 ^ 48) base) at forbidden

module _ (p : Place) (is : IsPlace p) (t : Tables) (rooted : IsRooted p t) (va : ℕ) where
  pub walk-device : va < 0x4000_0000 → walk 3 t.word p.l0 va ≡ some (leaf va attr_device 3)
  unfolding pte_block
  walk-device lt =
      let e = bit_or (pte_block 0 attr_device 0) never_execute in
      let kind =
        (leaf_reads 1 0 1 0 (omega arith) (omega arith) (omega arith) (omega arith) 1
          (omega arith)).0 in
      let top : va / size_at 3 % 512 ≡ 0 = omega arith in
      let next : va / size_at 2 % 512 ≡ 0 = omega arith in
      walk-table t.word p.l0 va 2 p.l1 is.l1_aligned.0 is.l1_aligned.1
        (ap (λ i. t.word (entry p.l0 i)) top ∙ rooted.root)
      ∙ walk-block t.word p.l1 va 1 e (omega arith)
          (ap (λ i. t.word (entry p.l1 i)) next ∙ rooted.devices) kind
      ∙ leaf_of_lem 1 0 1 0 1 (2 ^ 30) va va (omega arith) (omega arith) (omega arith) (omega arith)
          (omega arith) (λ y h. omega (arith, h, lt))

  pub walk-uncached :
      0x8000_0000 ≤ va
      → va < 0xc000_0000
      → walk 3 t.word p.l0 va ≡ some (leaf (va - ram_base) attr_normal_nc 3)
  unfolding pte_block
  walk-uncached low lt =
      let e = bit_or (pte_block ram_base attr_normal_nc 3) never_execute in
      let b = 2 ^ 18 in
      let kind =
        (leaf_reads 1 b 2 3 (omega arith) (omega arith) (omega arith) (omega arith) 1
          (omega arith)).0 in
      let top : va / size_at 3 % 512 ≡ 0 = omega arith in
      let next : va / size_at 2 % 512 ≡ 2 = omega arith in
      walk-table t.word p.l0 va 2 p.l1 is.l1_aligned.0 is.l1_aligned.1
        (ap (λ i. t.word (entry p.l0 i)) top ∙ rooted.root)
      ∙ walk-block t.word p.l1 va 1 e (omega arith)
          (ap (λ i. t.word (entry p.l1 i)) next ∙ rooted.uncached) kind
      ∙ leaf_of_lem 1 b 2 3 1 (2 ^ 30) va (va - ram_base) (omega arith) (omega arith) (omega arith)
          (omega arith) (omega arith) (λ y h. omega (arith, h, low, lt))

  -- The walk in the memory goes on in the second level.
  pub walk-memory :
      0x4000_0000 ≤ va → va < 0x8000_0000 → walk 3 t.word p.l0 va ≡ walk 1 t.word p.l2_ram va
  walk-memory low lt =
      let top : va / size_at 3 % 512 ≡ 0 = omega arith in
      let next : va / size_at 2 % 512 ≡ 1 = omega arith in
      walk-table t.word p.l0 va 2 p.l1 is.l1_aligned.0 is.l1_aligned.1
        (ap (λ i. t.word (entry p.l0 i)) top ∙ rooted.root)
      ∙ walk-table t.word p.l1 va 1 p.l2_ram is.l2_aligned.0 is.l2_aligned.1
          (ap (λ i. t.word (entry p.l1 i)) next ∙ rooted.memory)

-- The block of an address in the memory.
abbrev pub block : ℕ → ℕ
block va = va / 2 ^ 21 - 512

pub walk-plain :
    (p : Place) (word : ℕ → ℕ) (va : ℕ)
    → 0x4000_0000 ≤ va
    → va < 0x8000_0000
    → word (entry p.l2_ram (block va))
      ≡ pte_block (ram_base + block va * l2_block_size) attr_normal 3
    → walk 1 word p.l2_ram va ≡ some (leaf va attr_normal 0)
unfolding pte_block
walk-plain p word va low lt at =
    let b = 2 ^ 18 + block va * 2 ^ 9 in
    let e = bit_or (pte_leaf 1 (b * 2 ^ 12) 0 3) (0 * never_execute) in
    let kind =
      (leaf_reads 1 b 0 3 (omega arith) (omega arith) (omega arith) (omega arith) 0
        (omega arith)).0 in
    let index : va / size_at 1 % 512 ≡ block va = omega arith in
    let base : ram_base + block va * l2_block_size ≡ b * 2 ^ 12 = omega arith in
    walk-block word p.l2_ram va 0 e (omega arith)
      (ap (λ i. word (entry p.l2_ram i)) index
        ∙ at
        ∙ ap (λ a. pte_leaf 1 a 0 3) base
        ∙ sym (bit_or-zero (pte_leaf 1 (b * 2 ^ 12) 0 3)))
      kind
    ∙ leaf_of_lem 1 b 0 3 0 (2 ^ 21) va va (omega arith) (omega arith) (omega arith) (omega arith)
        (omega arith) (λ y h. omega (arith, h, low, lt))

-- Whether a page lies between the bounds of the window.
abbrev between : Place → ℕ → Bool
between p page = leb p.dma_start page && ltb page p.dma_end

abbrev page_attr : Place → Bool → ℕ
page_attr p inside = if inside && p.noncacheable then attr_normal_nc else attr_normal

dma_page_lem :
    (p : Place) (base j b x : ℕ)
    → base + j * 2 ^ 12 ≡ b * 2 ^ 12
    → (if between p (b * 2 ^ 12) then 1 else 0) ≡ x
    → dma_page p base j
      ≡ bit_or
          (pte_leaf 3 (b * 2 ^ 12) (page_attr p (between p (b * 2 ^ 12))) 3)
          (x * never_execute)
unfolding dma_page pte_page
dma_page_lem p base j b x e is =
    let leaf_at = λ (page : ℕ). pte_leaf 3 page (page_attr p (between p page)) 3 in
    ap (λ page. bit_or (leaf_at page) (if between p page then never_execute else 0)) e
    ∙ ap (bit_or (leaf_at (b * 2 ^ 12))) (ground (arith, is))

-- The walk in a table of pages, for an address of the block number i.
walk-pages :
    (p : Place) (word : ℕ → ℕ) (l3 va : ℕ)
    → 0x4000_0000 ≤ va
    → va < 0x8000_0000
    → ((j : ℕ) → j < 512 → word (entry l3 j) ≡ dma_page p (ram_base + block va * l2_block_size) j)
    → let inside = between p (page_at va) in
      walk 0 word l3 va ≡ some (leaf va (page_attr p inside) (if inside then 3 else 0))
walk-pages p word l3 va low lt pages =
    let b = va / 2 ^ 12 in
    let j = va / 2 ^ 12 % 512 in
    let inside = between p (page_at va) in
    let x : ℕ = if inside then 1 else 0 in
    let few : x < 2 = ground arith in
    let known : page_attr p inside < 8 = ground arith in
    let e = bit_or (pte_leaf 3 (b * 2 ^ 12) (page_attr p inside) 3) (x * never_execute) in
    let kind =
      (leaf_reads 3 b (page_attr p inside) 3 (omega arith) known (omega arith) (omega (arith, lt)) x
        few).0 in
    walk-page word l3 va e
      (pages j (omega arith)
        ∙ dma_page_lem p (ram_base + block va * l2_block_size) j b x (omega (arith, low, lt)) refl)
      kind
    ∙ leaf_of_lem 3 b (page_attr p inside) 3 x (2 ^ 12) va va (omega arith) known (omega arith)
        (omega (arith, lt)) few (λ y h. omega (arith, h))
    ∙ ap (λ y. some (leaf va (page_attr p inside) y)) (ground arith)

pub window_table_aligned :
    (p : Place) (i : ℕ) → IsPlace p → (window_table p i % 4096 ≡ 0) × (window_table p i < 2 ^ 48)
window_table_aligned p i is = elim (Bool-cases (ram_base + i * l2_block_size == window_first p)) [
  | inl first ↦ rw first is.dma0_aligned
  | inr other ↦ rw other is.dma1_aligned
]

pub memory-translates :
    (p : Place) (t : Tables) (va : ℕ)
    → 0x4000_0000 ≤ va
    → va < 0x8000_0000
    → IsPlace p
    → IsBuilt p t
    → walk 1 t.word p.l2_ram va
      ≡ some (leaf va (page_attr p (in_window p va)) (if in_window p va then 3 else 0))
memory-translates p t va low lt is built = elim (Bool-cases (in_window_block p (block va))) [
  | inr out ↦
      rw out (walk-plain p t.word va low lt (built.plain (block va) (omega (arith, low, lt)) out))
  | inl here ↦
      let l3 = window_table p (block va) in
      let (table, pages) = built.paged (block va) (omega (arith, low, lt)) here in
      let (al, fits) = window_table_aligned p (block va) is in
      let index : va / size_at 1 % 512 ≡ block va = omega (arith, low, lt) in
      rw here (
        walk-table t.word p.l2_ram va 0 l3 al fits
          (ap (λ i. t.word (entry p.l2_ram i)) index ∙ table)
        ∙ walk-pages p t.word l3 va low lt pages)
]
