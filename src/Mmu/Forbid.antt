-- ===== src/Mmu/Forbid.antt =====
-- The walks after the two writes of mmu_guard_page of src/arch/aarch64/mmu.cc: a page's entry is
-- made invalid, and a block is split into pages.
use mathlib.Core.Path.{subst}
use micro_kernel_using_c_plu.Prelude.{
  ℕ, ◌+◌, ◌*◌, ◌/◌, ◌%◌, ◌^◌, ◌≤◌, ◌<◌, ◌≡◌, ◌≢◌, ◌⊎◌, inl, inr, refl, ◌∙◌, ap, sym, ◌==◌, ltb,
  Bool-cases, Option, none, some, if◌then◌else◌, arith,
}
use micro_kernel_using_c_plu.Mmu.{
  Place, Tables, entry, set_entry, l2_block_size, ram_base, attr_normal,
}
use micro_kernel_using_c_plu.Mmu.Walk.{size_at, walk, walk-table, Leaf}
use micro_kernel_using_c_plu.Mmu.Window.{IsPlace}
use micro_kernel_using_c_plu.Mmu.Rooted.{IsRooted}
use micro_kernel_using_c_plu.Mmu.Paths.{
  leaf, block, walk-plain, walk-device, walk-uncached, walk-memory,
}
use micro_kernel_using_c_plu.Mmu.Tree.{IsL3, NodeAt, IsTree}

-- What the walk meets in block i, for an address in it.
unfoldable pub node_walk : Option ℕ → (ℕ → ℕ) → ℕ → Option Leaf
node_walk none word va = some (leaf va attr_normal 0)
node_walk (some l3) word va = walk 0 word l3 va

pub walk-node :
    (p : Place) (t : Tables) (n : Option ℕ) (va : ℕ)
    → 0x4000_0000 ≤ va
    → va < 0x8000_0000
    → NodeAt p t (block va) n
    → walk 1 t.word p.l2_ram va ≡ node_walk n t.word va
unfolding NodeAt node_walk
walk-node p t none va low lt at = walk-plain p t.word va low lt at
walk-node p t (some l3) va low lt (is, at) =
    let index : va / size_at 1 % 512 ≡ block va = omega (arith, low, lt) in
    walk-table t.word p.l2_ram va 0 l3 is.aligned is.fits
      (ap (λ i. t.word (entry p.l2_ram i)) index ∙ at)

-- Two states whose walks agree on every block of the memory agree everywhere.
pub walks-agree :
    (p : Place) (t t' : Tables) (f : ℕ → Option Leaf → Option Leaf) (va : ℕ)
    → IsPlace p
    → IsRooted p t
    → IsRooted p t'
    → ((va < 0x4000_0000) ⊎ (0x8000_0000 ≤ va) → (o : Option Leaf) → f va o ≡ o)
    → (0x4000_0000 ≤ va
        → va < 0x8000_0000
        → walk 1 t'.word p.l2_ram va ≡ f va (walk 1 t.word p.l2_ram va))
    → va < 0xc000_0000
    → walk 3 t'.word p.l0 va ≡ f va (walk 3 t.word p.l0 va)
walks-agree p t t' f va is r r' out same lt = elim (Bool-cases (ltb va 0x4000_0000)) [
  | inl device ↦
      let low : va < 0x4000_0000 = ground arith in
      walk-device p is t' r' va low
      ∙ sym (walk-device p is t r va low)
      ∙ sym (out (inl low) (walk 3 t.word p.l0 va))
  | inr no_device ↦ elim (Bool-cases (ltb va 0x8000_0000)) [
    | inl memory ↦
        let low : 0x4000_0000 ≤ va = ground arith in
        let high : va < 0x8000_0000 = ground arith in
        walk-memory p is t' r' va low high
        ∙ same low high
        ∙ ap (f va) (sym (walk-memory p is t r va low high))
    | inr above ↦
        let low : 0x8000_0000 ≤ va = ground arith in
        walk-uncached p is t' r' va low lt
        ∙ sym (walk-uncached p is t r va low lt)
        ∙ sym (out (inr low) (walk 3 t.word p.l0 va))
  ]
]

pub walk_last-same :
    (word word' : ℕ → ℕ) (l3 va : ℕ)
    → word' (entry l3 (va / 2 ^ 12 % 512)) ≡ word (entry l3 (va / 2 ^ 12 % 512))
    → walk 0 word' l3 va ≡ walk 0 word l3 va
unfolding walk
walk_last-same word word' l3 va e = rw e refl

walk_last-invalid :
    (word : ℕ → ℕ) (l3 va : ℕ) → word (entry l3 (va / 2 ^ 12 % 512)) ≡ 0 → walk 0 word l3 va ≡ none
unfolding walk
walk_last-invalid word l3 va e = rw e refl

-- The page number n of the block i, in its table l3, is made invalid.
module _ (p : Place) (table : ℕ → Option ℕ) (t : Tables) (is : IsTree p table t) (i j l3 : ℕ)
    (ilt : i < 512) (jlt : j < 512) (at : table i ≡ some l3) where
  here : IsL3 p t.extra_next l3
  unfolding NodeAt
  here = (subst (NodeAt p t i) at (is.node i ilt)).0

  set_entry-outside : (a : ℕ) → (a < l3) ⊎ (l3 + 4096 ≤ a) → (set_entry l3 j 0 t).word a ≡ t.word a
  set_entry-outside a out = ground arith

  forbidden-IsRooted : IsRooted p (set_entry l3 j 0 t)
  forbidden-IsRooted =
      let h = here in
      record {
        root = set_entry-outside (entry p.l0 0) (ground (arith, h.off0)) ∙ is.rooted.root;
        devices = set_entry-outside (entry p.l1 0) (ground (arith, h.off1)) ∙ is.rooted.devices;
        memory = set_entry-outside (entry p.l1 1) (ground (arith, h.off1)) ∙ is.rooted.memory;
        uncached = set_entry-outside (entry p.l1 2) (ground (arith, h.off1)) ∙ is.rooted.uncached;
      }

  forbidden-NodeAt :
      (k : ℕ) (n : Option ℕ) → k < 512 → NodeAt p t k n → NodeAt p (set_entry l3 j 0 t) k n
  unfolding NodeAt
  forbidden-NodeAt k none lt n =
      set_entry-outside (entry p.l2_ram k) (ground (arith, here.off2)) ∙ n
  forbidden-NodeAt k (some m) lt (is_l3, n) =
      (is_l3, set_entry-outside (entry p.l2_ram k) (ground (arith, here.off2)) ∙ n)

  pub forbidden-IsTree : IsTree p table (set_entry l3 j 0 t)
  forbidden-IsTree = record {
    rooted = forbidden-IsRooted;
    bounded = is.bounded;
    node = λ k lt. forbidden-NodeAt k (table k) lt (is.node k lt);
    apart = is.apart;
  }

  -- What the walk of `va` gives then, if it gave `o`.
  abbrev pub without : ℕ → Option Leaf → Option Leaf
  without va o = if va / 2 ^ 12 == (ram_base + i * l2_block_size) / 2 ^ 12 + j then none else o

  forbidden-walk :
      (va : ℕ) (n : Option ℕ)
      → 0x4000_0000 ≤ va
      → va < 0x8000_0000
      → table (block va) ≡ n
      → node_walk n (set_entry l3 j 0 t).word va ≡ without va (node_walk n t.word va)
  unfolding node_walk
  forbidden-walk va none low lt e =
      let other : block va ≢ i = λ s.
        let clash : Option.none ≡ some l3 = sym e ∙ ap table s ∙ at in
        absurd (ground (arith, clash)) in
      ground arith
  forbidden-walk va (some m) low lt e = elim (Bool-cases (block va == i)) [
    | inl same ↦
        let s : block va ≡ i = ground arith in
        let both : some m ≡ some l3 = sym e ∙ ap table s ∙ at in
        let m_is : m ≡ l3 = ground (arith, both) in
        elim (Bool-cases (va / 2 ^ 12 % 512 == j)) [
          | inl page ↦
              let hit : va / 2 ^ 12 ≡ (ram_base + i * l2_block_size) / 2 ^ 12 + j = ground arith in
              walk_last-invalid (set_entry l3 j 0 t).word m va (ground arith) ∙ ground arith
          | inr page ↦
              walk_last-same t.word (set_entry l3 j 0 t).word m va (ground arith) ∙ ground arith
        ]
    | inr other ↦
        let away = is.apart (block va) i m l3 (omega (arith, lt)) ilt (ground arith) e at in
        walk_last-same t.word (set_entry l3 j 0 t).word m va
          (set_entry-outside (entry m (va / 2 ^ 12 % 512)) (ground (arith, away)))
        ∙ ground arith
  ]

  pub forbidden-walks :
      (va : ℕ)
      → IsPlace p
      → va < 0xc000_0000
      → walk 3 (set_entry l3 j 0 t).word p.l0 va ≡ without va (walk 3 t.word p.l0 va)
  forbidden-walks va place lt =
      let t' = set_entry l3 j 0 t in
      let tree = forbidden-IsTree in
      walks-agree p t t' without va place is.rooted tree.rooted (λ out o. ground arith)
        (λ low high.
          let n = table (block va) in
          let b : block va < 512 = omega (arith, high) in
          walk-node p t' n va low high (tree.node (block va) b)
          ∙ forbidden-walk va n low high refl
          ∙ ap (without va) (sym (walk-node p t n va low high (is.node (block va) b))))
        lt
