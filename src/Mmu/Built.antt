-- ===== src/Mmu/Built.antt =====
-- The words that build_identity_map of src/arch/aarch64/mmu.cc writes.
use mathlib.Core.Path.{subst}
use micro_kernel_using_c_plu.Prelude.{
  if◌then◌else◌, ℕ, ◌+◌, ◌-◌, ◌*◌, ◌≤◌, ◌<◌, ◌≡◌, ◌≢◌, inl, inr, refl, sym, ◌∙◌, Bool, true, false,
  ◌&&◌, ◌||◌, ltb, leb, ◌==◌, Bool-cases, arith,
}
use micro_kernel_using_c_plu.Prelude.Align.{is_pow2, align_down, align_down-IsRounded}
use micro_kernel_using_c_plu.Mmu.{
  Place, Tables, entry, ram_base, ram_limit, l2_block_size, pte_table, fill_table, clear_table,
  clear_extra, extra_tables, dma_page, map_dma_block, map_dma_window, build_identity_map,
}
use micro_kernel_using_c_plu.Mmu.Outside.{fill_table-outside}
use micro_kernel_using_c_plu.Mmu.Window.{
  IsPlace, fill_table-inside, IsWindowed, map_dma_block-IsWindowed,
}
use micro_kernel_using_c_plu.Mmu.Rooted.{
  IsRooted, plain_block, windowed-IsRooted, root_words, root_words-IsRooted, filled-IsRooted,
}

-- What the second level holds for block i: a block, or a table of its pages.
abbrev pub InBlocks : Place → (ℕ → ℕ) → ℕ → Type 0
InBlocks p word i = word (entry p.l2_ram i) ≡ plain_block i

-- The window's blocks: its first and its last one.
abbrev pub has_window : Place → Bool
has_window p = leb ram_base p.dma_start && ltb p.dma_start p.dma_end && leb p.dma_end ram_limit

abbrev pub window_first : Place → ℕ
window_first p = align_down p.dma_start l2_block_size

abbrev pub window_last : Place → ℕ
window_last p = align_down (p.dma_end - 1) l2_block_size

abbrev pub in_window_block : Place → ℕ → Bool
in_window_block p i =
    has_window p
    && ((ram_base + i * l2_block_size == window_first p)
        || (ram_base + i * l2_block_size == window_last p))

-- The table of a window's block.
abbrev pub window_table : Place → ℕ → ℕ
window_table p i = if ram_base + i * l2_block_size == window_first p then p.l3_dma0 else p.l3_dma1

-- Block i is mapped by the pages of the table at l3.
abbrev pub InPagesAt : Place → (ℕ → ℕ) → ℕ → ℕ → Type 0
InPagesAt p word l3 i =
    (word (entry p.l2_ram i) ≡ pte_table l3)
    × ((j : ℕ) → j < 512 → word (entry l3 j) ≡ dma_page p (ram_base + i * l2_block_size) j)

abbrev pub InPages : Place → (ℕ → ℕ) → ℕ → Type 0
InPages p word i = InPagesAt p word (window_table p i) i

in_pages :
    (p : Place) (word : ℕ → ℕ) (l3 k i : ℕ)
    → k ≡ i
    → window_table p k ≡ l3
    → InPagesAt p word l3 k
    → InPages p word i
in_pages p word l3 k i same table at =
    subst (InPages p word) same (subst (λ l. InPagesAt p word l k) (sym table) at)

pub record IsBuilt (p : Place) (t : Tables) : Type 0 where
  pub rooted : IsRooted p t
  pub unused : t.extra_next ≡ 0
  pub plain : (i : ℕ) → i < 512 → in_window_block p i ≡ false → InBlocks p t.word i
  pub paged : (i : ℕ) → i < 512 → in_window_block p i ≡ true → InPages p t.word i

-- The number of a window's block.
block_number :
    (a : ℕ)
    → ram_base ≤ a
    → a < ram_limit
    → (k : ℕ) × (k < 512) × (align_down a l2_block_size ≡ ram_base + k * l2_block_size)
unfolding is_pow2
block_number a low high =
    let r = align_down-IsRounded a l2_block_size (omega arith) (omega arith) refl in
    (
      r.count - 512,
      omega (arith, r.below, r.near, r.multiple),
      omega (arith, r.below, r.near, r.multiple),
    )

module _ (p : Place) (is : IsPlace p) (t : Tables) (rooted : IsRooted p t)
    (unused : t.extra_next ≡ 0) (blocks : (i : ℕ) → i < 512 → InBlocks p t.word i) where
  no_window-IsBuilt : has_window p ≡ false → IsBuilt p t
  no_window-IsBuilt none_ = record {
    rooted = rooted;
    unused = unused;
    plain = λ i lt e. blocks i lt;
    paged = λ i lt e. absurd (ground arith);
  }

  module _ (valid : has_window p ≡ true) (k : ℕ) (klt : k < 512)
      (first : window_first p ≡ ram_base + k * l2_block_size) where
    one_block-IsBuilt :
        (t' : Tables)
        → IsWindowed p k p.l3_dma0 t t'
        → window_last p ≡ ram_base + k * l2_block_size
        → IsBuilt p t'
    one_block-IsBuilt t' w last = record {
      rooted =
          windowed-IsRooted p k p.l3_dma0 t t' klt is.l0_l2 is.l1_l2 is.l0_dma0 is.l1_dma0 w rooted;
      unused = w.kept ∙ unused;
      plain = λ i lt e.
          let ne : i ≢ k = λ s. ground arith in
          w.outside (entry p.l2_ram i) (λ s. ne (omega arith)) (ground (arith, is.l2_dma0))
          ∙ blocks i lt;
      paged = λ i lt e.
          let same : k ≡ i = ground arith in
          in_pages p t'.word p.l3_dma0 k i same (ground (arith, first)) (w.table, w.pages);
    }

    two_blocks-IsBuilt :
        (t1 t2 : Tables) (n : ℕ)
        → IsWindowed p k p.l3_dma0 t t1
        → n < 512
        → window_last p ≡ ram_base + n * l2_block_size
        → k ≢ n
        → IsWindowed p n p.l3_dma1 t1 t2
        → IsBuilt p t2
    two_blocks-IsBuilt t1 t2 n w1 nlt last apart w2 = record {
      rooted =
          windowed-IsRooted p n p.l3_dma1 t1 t2 nlt is.l0_l2 is.l1_l2 is.l0_dma1 is.l1_dma1 w2 (
            windowed-IsRooted p k p.l3_dma0 t t1 klt is.l0_l2 is.l1_l2 is.l0_dma0 is.l1_dma0 w1
              rooted);
      unused = w2.kept ∙ w1.kept ∙ unused;
      plain = λ i lt e.
          let nk : i ≢ k = λ s. ground arith in
          let nn : i ≢ n = λ s. ground arith in
          w2.outside (entry p.l2_ram i) (λ s. nn (omega arith)) (ground (arith, is.l2_dma1))
          ∙ w1.outside (entry p.l2_ram i) (λ s. nk (omega arith)) (ground (arith, is.l2_dma0))
          ∙ blocks i lt;
      paged = λ i lt e. elim (Bool-cases (i == k)) [
        | inl here ↦
            let same : k ≡ i = ground arith in
            in_pages p t2.word p.l3_dma0 k i same (ground (arith, first)) (
              w2.outside (entry p.l2_ram k) (λ s. apart (omega arith)) (ground (arith, is.l2_dma1))
                  ∙ w1.table,
              λ j h.
                  w2.outside (entry p.l3_dma0 j) (λ s. ground (arith, is.l2_dma0))
                    (ground (arith, is.dma0_dma1))
                  ∙ w1.pages j h,
            )
        | inr there ↦
            let same : n ≡ i = ground arith in
            in_pages p t2.word p.l3_dma1 n i same (ground (arith, first, apart))
              (w2.table, w2.pages)
      ];
    }

map_dma_window-IsBuilt :
    (p : Place) (t : Tables)
    → IsPlace p
    → IsRooted p t
    → t.extra_next ≡ 0
    → ((i : ℕ) → i < 512 → InBlocks p t.word i)
    → IsBuilt p (map_dma_window p t)
unfolding map_dma_window
map_dma_window-IsBuilt p t is r unused blocks = elim (Bool-cases (has_window p)) [
  | inr none_ ↦ rw none_ (no_window-IsBuilt p is t r unused blocks none_)
  | inl valid ↦
      let (k, klt, first) = block_number p.dma_start (ground arith) (ground arith) in
      let (n, nlt, last) = block_number (p.dma_end - 1) (ground arith) (ground arith) in
      let w1 = map_dma_block-IsWindowed p k (window_first p) p.l3_dma0 t first klt is.l2_dma0 in
      let t1 = map_dma_block p (window_first p) p.l3_dma0 t in
      elim (Bool-cases (window_first p == window_last p)) [
        | inl one ↦
            let last_first : window_last p ≡ ram_base + k * l2_block_size = ground (arith, first) in
            rw (valid, one)
              (one_block-IsBuilt p is t r unused blocks valid k klt first t1 w1 last_first)
        | inr two ↦
            let apart : k ≢ n = λ e. ground (arith, first, last) in
            rw (valid, two)
              (two_blocks-IsBuilt p is t r unused blocks valid k klt first t1
                (map_dma_block p (window_last p) p.l3_dma1 t1) n w1 nlt last apart
                (map_dma_block-IsWindowed p n (window_last p) p.l3_dma1 t1 last nlt is.l2_dma1))
      ]
]

-- Whatever the tables held, build_identity_map leaves what IsBuilt says.
pub build_identity_map-IsBuilt :
    (p : Place) (t : Tables) → IsPlace p → IsBuilt p (build_identity_map p t)
unfolding build_identity_map root_words
build_identity_map-IsBuilt p t is =
    let t1 =
      clear_table p.l3_dma1
        (clear_table p.l3_dma0 (clear_table p.l2_ram (clear_table p.l1 (clear_table p.l0 t)))) in
    let t6 = root_words p (record (clear_extra extra_tables p.l3_extra t1) { extra_next = 0 }) in
    map_dma_window-IsBuilt p (fill_table 512 p.l2_ram 0 plain_block t6) is
      (filled-IsRooted p t6 is (
        root_words-IsRooted p (record (clear_extra extra_tables p.l3_extra t1) { extra_next = 0 })
          is))
      (fill_table-outside 512 p.l2_ram 0 (p.l2_ram + 4096) plain_block t6 (inr (omega arith))).1
      (λ i lt. fill_table-inside 512 p.l2_ram 0 i plain_block t6 (omega arith) (omega arith))
