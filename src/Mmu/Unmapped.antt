-- ===== src/Mmu/Unmapped.antt =====
-- What mmu_guard_page of src/arch/aarch64/mmu.cc unmaps, after any number of earlier calls.
use micro_kernel_using_c_plu.Prelude.{
  ℕ, ◌+◌, ◌*◌, ◌/◌, ◌^◌, ◌≤◌, ◌<◌, ◌≡◌, ◌⊎◌, inl, inr, refl, ◌∙◌, ap, Bool, true, false, not, ◌||◌,
  ◌==◌, ltb, leb, Bool-cases, Option, none, some, if◌then◌else◌, arith,
}
use micro_kernel_using_c_plu.Prelude.Int.{ℤ, pos, negsuc}
use micro_kernel_using_c_plu.Prelude.Align.{align_down}
use micro_kernel_using_c_plu.Mmu.{
  Place, Tables, set_entry, extra_tables, l2_block_size, page_size, ram_base, ram_limit,
  split_block, ensure_l3_for_ram_block, block_of, page_of, forbid_page, mmu_guard_page,
}
use micro_kernel_using_c_plu.Mmu.Walk.{walk}
use micro_kernel_using_c_plu.Mmu.Paths.{block}
use micro_kernel_using_c_plu.Mmu.Tree.{IsSpread, NodeAt, IsTree}
use micro_kernel_using_c_plu.Mmu.Forbid.{forbidden-IsTree, forbidden-walks}
use micro_kernel_using_c_plu.Mmu.Split.{split_table, split-IsTree, split-walks}
use micro_kernel_using_c_plu.Mmu.Pages.{page_lem, plain_block_kind, pte_table_kind}

-- What an access to `va` meets once the page of `addr` is unmapped.
pub record IsUnmapped (p : Place) (addr : ℕ) (t t' : Tables) : Type 0 where
  pub walks :
      (va : ℕ)
      → va < 0xc000_0000
      → walk 3 t'.word p.l0 va
        ≡ (if va / 2 ^ 12 == addr / 2 ^ 12 then none else walk 3 t.word p.l0 va)

-- Why a page stays mapped.
abbrev pub Refused : (ℕ → Option ℕ) → Bool → ℕ → Tables → Type 0
Refused table enabled addr t =
    (addr ≡ 0)
    ⊎ (enabled ≡ false)
    ⊎ (addr < ram_base)
    ⊎ (ram_limit ≤ addr)
    ⊎ ((t.extra_next ≡ extra_tables) × (table (block addr) ≡ none))

abbrev pub Answer : Place → (ℕ → Option ℕ) → Bool → ℕ → Tables → ℤ × Tables → Type 0
Answer p table enabled addr t (r, t') =
    ((r ≡ negsuc 0) × (t' ≡ t) × Refused table enabled addr t)
    ⊎ ((r ≡ pos 0) × (table' : ℕ → Option ℕ) × IsTree p table' t' × IsUnmapped p addr t t')

module _ (p : Place) (spread : IsSpread p) (enabled : Bool) (addr : ℕ) (low : ram_base ≤ addr)
    (high : addr < ram_limit) where
  block_lem : block_of addr ≡ block addr
  unfolding block_of
  block_lem = omega (arith, page_lem addr (omega (arith, high)))

  page_number : (ram_base + block addr * l2_block_size) / 2 ^ 12 + page_of addr ≡ addr / 2 ^ 12
  unfolding page_of
  page_number = omega (arith, page_lem addr (omega (arith, high)))

  page_lt : page_of addr < 512
  unfolding page_of
  page_lt = omega arith

  -- The write, once the block has a table.
  write-IsUnmapped :
      (table : ℕ → Option ℕ) (t : Tables) (l3 : ℕ)
      → IsTree p table t
      → table (block addr) ≡ some l3
      → IsTree p table (set_entry l3 (page_of addr) 0 t)
        × IsUnmapped p addr t (set_entry l3 (page_of addr) 0 t)
  write-IsUnmapped table t l3 tree at =
      let b : block addr < 512 = omega (arith, high) in
      let j = page_of addr in
      (
        forbidden-IsTree p table t tree (block addr) j l3 b page_lt at,
        record {
          walks = λ va lt.
              forbidden-walks p table t tree (block addr) j l3 b page_lt at va spread.place lt
              ∙ ap (λ n. if va / 2 ^ 12 == n then none else walk 3 t.word p.l0 va) page_number;
        },
      )

  abbrev Ensured : (ℕ → Option ℕ) → Tables → Option ℕ × Tables → Type 0
  Ensured table t r = Answer p table enabled addr t (forbid_page (page_of addr) r)

  has_table :
      (table : ℕ → Option ℕ) (t : Tables) (l3 : ℕ)
      → IsTree p table t
      → NodeAt p t (block addr) (some l3)
      → table (block addr) ≡ some l3
      → Ensured table t (ensure_l3_for_ram_block p (block addr) t)
  unfolding ensure_l3_for_ram_block forbid_page NodeAt
  has_table table t l3 tree (is, e) at =
      let b : leb 512 (block addr) ≡ false = ground (arith, high) in
      let (kind, address) = pte_table_kind l3 is.aligned is.fits in
      let (tree', un) = write-IsUnmapped table t l3 tree at in
      rw (b, e, kind, address) (inr (refl, table, tree', un))

  is_block :
      (table : ℕ → Option ℕ) (t : Tables)
      → IsTree p table t
      → NodeAt p t (block addr) none
      → table (block addr) ≡ none
      → Ensured table t (ensure_l3_for_ram_block p (block addr) t)
  unfolding ensure_l3_for_ram_block forbid_page NodeAt
  is_block table t tree e at =
      let i = block addr in
      let lt : i < 512 = omega (arith, high) in
      let b : leb 512 i ≡ false = ground (arith, high) in
      let kind = plain_block_kind i lt in
      elim (Bool-cases (leb extra_tables t.extra_next)) [
        | inl full ↦
            rw (b, e, kind, full)
              (inl (refl, refl, inr (inr (inr (inr (ground (arith, tree.bounded), at))))))
        | inr room ↦
            let more : t.extra_next < extra_tables = ground arith in
            let new = p.l3_extra + 4096 * t.extra_next in
            let table' = split_table p table t spread tree i lt at more in
            let (tree', un) =
              write-IsUnmapped table' (split_block p i t) new
                (split-IsTree p table t spread tree i lt at more) (ground arith) in
            rw (b, e, kind, room)
              (inr (
                refl,
                table',
                tree',
                record {
                  walks = λ va h.
                      un.walks va h
                      ∙ ap (λ o. if va / 2 ^ 12 == addr / 2 ^ 12 then none else o)
                          (split-walks p table t spread tree i lt at more va h);
                },
              ))
      ]

  Ensured-Answer :
      (table : ℕ → Option ℕ) (t : Tables) (n : Option ℕ)
      → IsTree p table t
      → NodeAt p t (block addr) n
      → table (block addr) ≡ n
      → Ensured table t (ensure_l3_for_ram_block p (block addr) t)
  Ensured-Answer table t none tree node at = is_block table t tree node at
  Ensured-Answer table t (some l3) tree node at = has_table table t l3 tree node at

-- Let the tables be as build_identity_map leaves them, or as earlier calls of mmu_guard_page left
-- them after that, `table` giving the table of pages of each block that has one. Then
-- mmu_guard_page either returns -1 and changes nothing, which happens only at the null pointer,
-- with the MMU off, at an address outside the memory, or when the block has no table and the
-- eight extra tables are used up; or it returns 0, the walk of every address of the page then
-- fails, the walk of every other address below 0xc000_0000 gives what it gave before, and the
-- tables are again such that this theorem applies.
pub mmu_guard_page-Answer :
    (p : Place) (enabled : Bool) (addr : ℕ) (table : ℕ → Option ℕ) (t : Tables)
    → IsSpread p
    → IsTree p table t
    → addr < 2 ^ 64
    → Answer p table enabled addr t (mmu_guard_page p enabled addr t)
unfolding mmu_guard_page
mmu_guard_page-Answer p enabled addr table t spread tree fits =
    let va = align_down addr page_size in
    let page = page_lem addr fits in
    elim (Bool-cases ((addr == 0) || not enabled)) [
      | inl off ↦ rw off (inl (refl, refl, ground arith))
      | inr on ↦ rw on (elim (Bool-cases (ltb va ram_base || leb ram_limit va)) [
        | inl outside ↦ rw outside (inl (refl, refl, ground (arith, page)))
        | inr ram ↦
            let low : ram_base ≤ addr = ground (arith, page) in
            let high : addr < ram_limit = ground (arith, page) in
            rw (ram, block_lem p spread enabled addr low high)
              (Ensured-Answer p spread enabled addr low high table t (table (block addr)) tree
                (tree.node (block addr) (omega (arith, high))) refl)
      ])
    ]

-- With the MMU on, a page of the memory is unmapped while an extra table is left.
pub mmu_guard_page-succeeds :
    (p : Place) (addr : ℕ) (table : ℕ → Option ℕ) (t : Tables)
    → IsSpread p
    → IsTree p table t
    → ram_base ≤ addr
    → addr < ram_limit
    → t.extra_next < extra_tables
    → (mmu_guard_page p true addr t).0 ≡ pos 0
mmu_guard_page-succeeds p addr table t spread tree low high room =
    ground (arith, mmu_guard_page-Answer p true addr table t spread tree (omega (arith, high)))
