-- ===== src/Mmu/Split.antt =====
-- split_block of src/arch/aarch64/mmu.cc: the pages of a block are mapped as the block was.
use Prim.Native.Nat.{bit_or}
use mathlib.Core.Path.{subst}
use micro_kernel_using_c_plu.Prelude.{
  ℕ, ◌+◌, ◌*◌, ◌/◌, ◌%◌, ◌^◌, ◌≤◌, ◌<◌, ◌≡◌, ◌≢◌, ◌⊎◌, inl, inr, refl, ◌∙◌, ap, sym, ◌==◌,
  Bool-cases, Option, none, some, if◌then◌else◌, arith,
}
use micro_kernel_using_c_plu.Mmu.{
  Place, Tables, entry, extra_tables, pte_table, pte_leaf, attr_normal, never_execute, split_page,
  split_block,
}
use micro_kernel_using_c_plu.Mmu.Outside.{fill_table-outside, split_block-SameOutside}
use micro_kernel_using_c_plu.Mmu.Walk.{walk, walk-page, leaf_reads}
use micro_kernel_using_c_plu.Mmu.Window.{Apart, fill_table-inside}
use micro_kernel_using_c_plu.Mmu.Rooted.{IsRooted}
use micro_kernel_using_c_plu.Mmu.Built.{InBlocks}
use micro_kernel_using_c_plu.Mmu.Paths.{leaf, leaf_of_lem, block}
use micro_kernel_using_c_plu.Mmu.Tree.{IsSpread, IsL3, NodeAt, IsTree}
use micro_kernel_using_c_plu.Mmu.Forbid.{node_walk, walk-node, walks-agree, walk_last-same}
use micro_kernel_using_c_plu.Mmu.Pages.{split_page_lem}

later-IsL3 : (p : Place) (next l3 : ℕ) → IsL3 p next l3 → IsL3 p (next + 1) l3
later-IsL3 p next l3 is = record {
  aligned = is.aligned;
  fits = is.fits;
  off0 = is.off0;
  off1 = is.off1;
  off2 = is.off2;
  used = ground (arith, is.used);
}

module _ (p : Place) (table : ℕ → Option ℕ) (t : Tables) (spread : IsSpread p)
    (is : IsTree p table t) (i : ℕ) (ilt : i < 512) (at : table i ≡ none)
    (room : t.extra_next < extra_tables) where
  -- The table that the block gets.
  abbrev new_table : ℕ
  new_table = p.l3_extra + 4096 * t.extra_next

  abbrev pub split_table : ℕ → Option ℕ
  split_table k = if k == i then some new_table else table k

  whole : InBlocks p t.word i
  unfolding NodeAt
  whole = subst (NodeAt p t i) at (is.node i ilt)

  whole_node : NodeAt p t i none
  whole_node = subst (NodeAt p t i) at (is.node i ilt)

  new_table-IsL3 : IsL3 p (t.extra_next + 1) new_table
  new_table-IsL3 = record {
    aligned = omega (arith, spread.extra_aligned);
    fits = omega (arith, spread.extra_fits);
    off0 = ground (arith, spread.l0_off);
    off1 = ground (arith, spread.l1_off);
    off2 = ground (arith, spread.l2_off);
    used = inl (omega arith);
  }

  split-outside :
      (a : ℕ)
      → a ≢ entry p.l2_ram i
      → (a < new_table) ⊎ (new_table + 4096 ≤ a)
      → (split_block p i t).word a ≡ t.word a
  split-outside = (split_block-SameOutside p i t room).words

  split-next : (split_block p i t).extra_next ≡ t.extra_next + 1
  unfolding split_block
  split-next =
      (fill_table-outside 512 new_table 0 (new_table + 4096)
        (split_page (t.word (entry p.l2_ram i)) i) (record t { extra_next = t.extra_next + 1 })
        (inr (omega arith))).1

  split-entry : (split_block p i t).word (entry p.l2_ram i) ≡ pte_table new_table
  unfolding split_block
  split-entry = ground arith

  split-page :
      (j : ℕ)
      → j < 512
      → (split_block p i t).word (entry new_table j)
        ≡ bit_or (pte_leaf 3 ((2 ^ 18 + i * 2 ^ 9 + j) * 2 ^ 12) 0 3) (0 * never_execute)
  unfolding split_block
  split-page j lt =
      let e = t.word (entry p.l2_ram i) in
      let t1 = record t { extra_next = t.extra_next + 1 } in
      let inside =
        fill_table-inside 512 new_table 0 j (split_page e i) t1 (omega arith) (omega arith) in
      let other : entry new_table j ≢ entry p.l2_ram i = λ s. ground (arith, new_table-IsL3.off2) in
      ground (arith, inside, other) ∙ ap (λ w. split_page w i j) whole ∙ split_page_lem i j ilt

  split-IsRooted : IsRooted p (split_block p i t)
  split-IsRooted =
      let h = new_table-IsL3 in
      let place = spread.place in
      record {
        root =
            split-outside (entry p.l0 0) (λ s. ground (arith, place.l0_l2)) (ground (arith, h.off0))
            ∙ is.rooted.root;
        devices =
            split-outside (entry p.l1 0) (λ s. ground (arith, place.l1_l2)) (ground (arith, h.off1))
            ∙ is.rooted.devices;
        memory =
            split-outside (entry p.l1 1) (λ s. ground (arith, place.l1_l2)) (ground (arith, h.off1))
            ∙ is.rooted.memory;
        uncached =
            split-outside (entry p.l1 2) (λ s. ground (arith, place.l1_l2)) (ground (arith, h.off1))
            ∙ is.rooted.uncached;
      }

  split-NodeAt :
      (k : ℕ) (n : Option ℕ) → k < 512 → k ≢ i → NodeAt p t k n → NodeAt p (split_block p i t) k n
  unfolding NodeAt
  split-NodeAt k none lt ne at =
      split-outside (entry p.l2_ram k) (λ s. ne (omega arith)) (ground (arith, new_table-IsL3.off2))
      ∙ at
  split-NodeAt k (some m) lt ne (is_l3, at) = (
    rw split-next (later-IsL3 p t.extra_next m is_l3),
    split-outside (entry p.l2_ram k) (λ s. ne (omega arith)) (ground (arith, new_table-IsL3.off2))
        ∙ at,
  )

  new_table-NodeAt : NodeAt p (split_block p i t) i (some new_table)
  unfolding NodeAt
  new_table-NodeAt = (rw split-next new_table-IsL3, split-entry)

  table_at : (k m : ℕ) → k < 512 → table k ≡ some m → IsL3 p t.extra_next m
  unfolding NodeAt
  table_at k m lt e = (subst (NodeAt p t k) e (is.node k lt)).0

  table_used :
      (k m : ℕ)
      → k < 512
      → table k ≡ some m
      → (m + 4096 ≤ new_table) ⊎ (p.l3_extra + 4096 * extra_tables ≤ m)
  table_used k m lt e = (table_at k m lt e).used

  split-Apart :
      (k h l m : ℕ)
      → k < 512
      → h < 512
      → k ≢ h
      → split_table k ≡ some l
      → split_table h ≡ some m
      → Apart l m
  split-Apart k h l m hk hh ne ek eh = elim (Bool-cases (k == i)) [
    | inl here ↦
        let old : table h ≡ some m = ground (arith, eh, ne) in
        let l_is : new_table ≡ l = ground (arith, ek) in ground (arith, table_used h m hh old)
    | inr there ↦
        let old : table k ≡ some l = ground (arith, ek) in
        elim (Bool-cases (h == i)) [
          | inl here ↦
              let m_is : new_table ≡ m = ground (arith, eh) in ground (arith, table_used k l hk old)
          | inr far ↦ is.apart k h l m hk hh ne old (ground (arith, eh))
        ]
  ]

  pub split-IsTree : IsTree p split_table (split_block p i t)
  split-IsTree = record {
    rooted = split-IsRooted;
    bounded = omega (arith, split-next);
    node = λ k lt. elim (Bool-cases (k == i)) [
      | inl here ↦
          let same : i ≡ k = ground arith in
          rw here
            (subst (λ h. NodeAt p (split_block p i t) h (some new_table)) same new_table-NodeAt)
      | inr there ↦ rw there (split-NodeAt k (table k) lt (ground arith) (is.node k lt))
    ];
    apart = split-Apart;
  }

  -- A page of the block, through its new entry.
  new_walk :
      (va : ℕ)
      → 0x4000_0000 ≤ va
      → va < 0x8000_0000
      → block va ≡ i
      → walk 0 (split_block p i t).word new_table va ≡ some (leaf va attr_normal 0)
  new_walk va low lt same =
      let b = va / 2 ^ 12 in
      let j = va / 2 ^ 12 % 512 in
      let page : 2 ^ 18 + i * 2 ^ 9 + j ≡ b = omega (arith, low, same) in
      let e = bit_or (pte_leaf 3 (b * 2 ^ 12) 0 3) (0 * never_execute) in
      walk-page (split_block p i t).word new_table va e
        (split-page j (omega arith)
          ∙ ap (λ n. bit_or (pte_leaf 3 (n * 2 ^ 12) 0 3) (0 * never_execute)) page)
        (leaf_reads 3 b 0 3 (omega arith) (omega arith) (omega arith) (omega (arith, lt)) 0
          (omega arith)).0
      ∙ leaf_of_lem 3 b 0 3 0 (2 ^ 12) va va (omega arith) (omega arith) (omega arith)
          (omega (arith, lt)) (omega arith) (λ y h. omega (arith, h))

  old_walk :
      (va : ℕ) (n : Option ℕ)
      → 0x4000_0000 ≤ va
      → va < 0x8000_0000
      → block va ≢ i
      → table (block va) ≡ n
      → node_walk n (split_block p i t).word va ≡ node_walk n t.word va
  unfolding node_walk
  old_walk va none low lt ne e = refl
  old_walk va (some m) low lt ne e =
      let used = table_used (block va) m (omega (arith, lt)) e in
      let off : IsL3 p t.extra_next m = table_at (block va) m (omega (arith, lt)) e in
      walk_last-same t.word (split_block p i t).word m va (
        split-outside (entry m (va / 2 ^ 12 % 512)) (λ s. ground (arith, off.off2))
          (ground (arith, used)))

  pub split-walks :
      (va : ℕ) → va < 0xc000_0000 → walk 3 (split_block p i t).word p.l0 va ≡ walk 3 t.word p.l0 va
  unfolding node_walk
  split-walks va lt =
      let t' = split_block p i t in
      let tree = split-IsTree in
      walks-agree p t t' (λ a o. o) va spread.place is.rooted tree.rooted (λ out o. refl)
        (λ low high. elim (Bool-cases (block va == i)) [
          | inl here ↦
              let same : block va ≡ i = ground arith in
              let whole_at : NodeAt p t (block va) none =
                subst (λ h. NodeAt p t h none) (sym same) whole_node in
              let split_at : NodeAt p t' (block va) (some new_table) =
                subst (λ h. NodeAt p t' h (some new_table)) (sym same) new_table-NodeAt in
              walk-node p t' (some new_table) va low high split_at
              ∙ new_walk va low high same
              ∙ sym (walk-node p t none va low high whole_at)
          | inr there ↦
              let ne : block va ≢ i = ground arith in
              let b : block va < 512 = omega (arith, high) in
              let n = table (block va) in
              walk-node p t' n va low high (split-NodeAt (block va) n b ne (is.node (block va) b))
              ∙ old_walk va n low high ne refl
              ∙ sym (walk-node p t n va low high (is.node (block va) b))
        ])
        lt
