-- ===== src/Mmu/Sequence.antt =====
-- build_identity_map of src/arch/aarch64/mmu.cc, then any sequence of calls of mmu_guard_page.
use micro_kernel_using_c_plu.Prelude.{
  ℕ, ◌/◌, ◌^◌, ◌<◌, ◌≡◌, inl, inr, ◌∙◌, sym, Bool, false, ◌||◌, ◌==◌, Option, none, some, List, [],
  ◌∷◌, if◌then◌else◌, arith,
}
use mathlib.Core.Path.{subst}
use micro_kernel_using_c_plu.Prelude.Int.{pos, negsuc}
use micro_kernel_using_c_plu.Mmu.{Place, Tables, mmu_guard_page, build_identity_map}
use micro_kernel_using_c_plu.Mmu.Walk.{walk}
use micro_kernel_using_c_plu.Mmu.Identity.{translated, build_identity_map-translates}
use micro_kernel_using_c_plu.Mmu.Tree.{IsSpread, IsTree, built_table, build_identity_map-IsTree}
use micro_kernel_using_c_plu.Mmu.Unmapped.{Answer, mmu_guard_page-Answer}

-- The tables t that are reached, and the addresses whose pages were unmapped on the way.
pub data Reached (p : Place) : List ℕ → Tables → Type 0 where
  built : (t : Tables) → Reached p [] (build_identity_map p t)
  unmapped :
      (done : List ℕ) (t t' : Tables) (enabled : Bool) (addr : ℕ)
      → Reached p done t
      → addr < 2 ^ 64
      → mmu_guard_page p enabled addr t ≡ (pos 0, t')
      → Reached p (addr ∷ done) t'
  refused :
      (done : List ℕ) (t t' : Tables) (enabled : Bool) (addr : ℕ)
      → Reached p done t
      → addr < 2 ^ 64
      → mmu_guard_page p enabled addr t ≡ (negsuc 0, t')
      → Reached p done t'

-- Whether one of the addresses is in the page of `va`.
unfoldable pub in_pages_of : List ℕ → ℕ → Bool
in_pages_of [] va = false
in_pages_of (addr ∷ done) va = (va / 2 ^ 12 == addr / 2 ^ 12) || in_pages_of done va

-- The state after a sequence, seen by the processor.
pub record IsReached (p : Place) (done : List ℕ) (t : Tables) : Type 0 where
  pub table : ℕ → Option ℕ
  pub tree : IsTree p table t
  pub walks :
      (va : ℕ)
      → va < 0xc000_0000
      → walk 3 t.word p.l0 va ≡ (if in_pages_of done va then none else some (translated p va))

module _ (p : Place) (old : List ℕ) (t t' : Tables) (enabled : Bool) (addr : ℕ)
    (i : IsReached p old t) where
  unmapped-IsReached : Answer p i.table enabled addr t (pos 0, t') → IsReached p (addr ∷ old) t'
  unfolding in_pages_of
  unmapped-IsReached (inl (e, same, why)) = absurd (ground (arith, e))
  unmapped-IsReached (inr (e, table', tree', un)) = record {
    table = table';
    tree = tree';
    walks = λ va lt. un.walks va lt ∙ ground (arith, i.walks va lt);
  }

  refused-IsReached : Answer p i.table enabled addr t (negsuc 0, t') → IsReached p old t'
  refused-IsReached (inl (e, same, why)) = subst (IsReached p old) (sym same) i
  refused-IsReached (inr (e, table', tree', un)) = absurd (ground (arith, e))

-- Let the tables be aligned, apart from each other and below 2 ^ 48, and hold anything at first.
-- After build_identity_map and any sequence of calls of mmu_guard_page, with the addresses `done`
-- of those that returned 0, the processor's walk of an address below 0xc000_0000 fails if one of
-- these addresses is in its page. Otherwise it gives what `translated` says: the first GB is
-- mapped to itself as device memory; the second GB to itself as normal memory, but the pages of
-- the DMA window in the window's first and last block are not executable, and uncached where so
-- configured; the third GB to the second, uncached and not executable.
pub Reached-IsReached :
    (p : Place) (done : List ℕ) (t : Tables) → IsSpread p → Reached p done t → IsReached p done t
unfolding in_pages_of
Reached-IsReached p done t is (built t0) = record {
  table = built_table p;
  tree = build_identity_map-IsTree p t0 is;
  walks = λ va lt. build_identity_map-translates p t0 va is.place lt;
}
Reached-IsReached p done t is (unmapped old t0 t' enabled addr before fits e) =
    let i = Reached-IsReached p old t0 is before in
    unmapped-IsReached p old t0 t' enabled addr i (
      subst (Answer p i.table enabled addr t0) e
        (mmu_guard_page-Answer p enabled addr i.table t0 is i.tree fits))
Reached-IsReached p done t is (refused old t0 t' enabled addr before fits e) =
    let i = Reached-IsReached p old t0 is before in
    refused-IsReached p old t0 t' enabled addr i (
      subst (Answer p i.table enabled addr t0) e
        (mmu_guard_page-Answer p enabled addr i.table t0 is i.tree fits))
