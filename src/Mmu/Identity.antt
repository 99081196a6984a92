-- ===== src/Mmu/Identity.antt =====
-- What build_identity_map of src/arch/aarch64/mmu.cc maps: the processor's walk through its tables.
use micro_kernel_using_c_plu.Prelude.{
  ℕ, ◌-◌, ◌<◌, ◌≡◌, ◌∙◌, ◌&&◌, ltb, Bool-cases, some, if◌then◌else◌, inl, inr, arith,
}
use micro_kernel_using_c_plu.Mmu.{
  Place, Tables, attr_device, attr_normal, attr_normal_nc, ram_base, build_identity_map,
}
use micro_kernel_using_c_plu.Mmu.Walk.{Leaf, walk}
use micro_kernel_using_c_plu.Mmu.Window.{IsPlace}
use micro_kernel_using_c_plu.Mmu.Built.{build_identity_map-IsBuilt}
use micro_kernel_using_c_plu.Mmu.Paths.{
  leaf, in_window, walk-device, walk-uncached, walk-memory, memory-translates,
}

-- The first GB is devices, the second the memory, the third the memory again, uncached.
unfoldable pub translated : Place → ℕ → Leaf
translated p va =
    let memory =
      leaf va (if in_window p va && p.noncacheable then attr_normal_nc else attr_normal)
        (if in_window p va then 3 else 0) in
    if ltb va 0x4000_0000
    then leaf va attr_device 3
    else if ltb va 0x8000_0000
    then memory
    else leaf (va - ram_base) attr_normal_nc 3

-- Whatever the page tables held, after build_identity_map the processor's walk of four levels
-- takes every address below 0xc000_0000 to what `translated` says: the first GB to itself as
-- device memory; the second GB to itself as normal memory, but the pages of the DMA window that
-- lie in its first or last block are not executable, and uncached where so configured; the third
-- GB to the second, uncached and not executable. The tables are to be aligned, apart from each
-- other, and below 2 ^ 48.
pub build_identity_map-translates :
    (p : Place) (t : Tables) (va : ℕ)
    → IsPlace p
    → va < 0xc000_0000
    → walk 3 (build_identity_map p t).word p.l0 va ≡ some (translated p va)
unfolding translated
build_identity_map-translates p t va is lt =
    let t' = build_identity_map p t in
    let built = build_identity_map-IsBuilt p t is in
    elim (Bool-cases (ltb va 0x4000_0000)) [
      | inl device ↦ rw device (walk-device p is t' built.rooted va (ground arith))
      | inr no_device ↦ elim (Bool-cases (ltb va 0x8000_0000)) [
        | inl memory ↦
            rw (no_device, memory)
              (walk-memory p is t' built.rooted va (ground arith) (ground arith)
                ∙ memory-translates p t' va (ground arith) (ground arith) is built)
        | inr high ↦ rw (no_device, high) (walk-uncached p is t' built.rooted va (ground arith) lt)
      ]
    ]
