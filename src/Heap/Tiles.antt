-- ===== src/Heap/Tiles.antt =====
-- A heap of src/mem_lab.cc as a list of blocks that lie side by side.
use micro_kernel_using_c_plu.Prelude.{ℕ, ◌+◌, ◌%◌, ◌^◌, ◌≤◌, ◌≡◌, refl, true, List, [], ◌∷◌, arith}
use micro_kernel_using_c_plu.Prelude.Align.{is_pow2, align_up, align_up_lem}
use micro_kernel_using_c_plu.Prelude.Store.{Ptr, has}
use micro_kernel_using_c_plu.Heap.{Heap, heap_magic, header_bytes, heap_next}

-- From `p` to `last` the headers at the addresses of the list follow each other without a gap.
abbrev pub Tiles : Heap → ℕ → List Ptr → ℕ → Type 0
Tiles h p [] last = p ≡ last
Tiles h p (x ∷ xs) last =
    (p ≡ x)
    × ((h x).magic ≡ heap_magic)
    × ((h x).size % 16 ≡ 0)
    × Tiles h (x + header_bytes + (h x).size) xs last

pub Tiles-frame :
    (h g : Heap) (p : ℕ) (xs : List Ptr) (last : ℕ)
    → Tiles h p xs last
    → ((a : Ptr) → p ≤ a → g a ≡ h a)
    → Tiles g p xs last
Tiles-frame h g p [] last t same = t
Tiles-frame h g p (x ∷ xs) last t same = ground (
  arith,
  same x,
  Tiles-frame h g (x + header_bytes + (h x).size) xs last t.3 (λ a le. same a (ground arith)),
)

-- Blocks stand in the order of their addresses.
pub Tiles-le :
    (h : Heap) (p : ℕ) (xs : List Ptr) (last a : ℕ)
    → Tiles h p xs last
    → has a xs ≡ true
    → (p ≤ a) × (a + header_bytes + (h a).size ≤ last)
Tiles-le h p [] last a t i = cc
Tiles-le h p (x ∷ xs) last a t i = ground (
  arith,
  Tiles-end h (x + header_bytes + (h x).size) xs last t.3,
  Tiles-le h (x + header_bytes + (h x).size) xs last a t.3,
)
  where
    Tiles-end : (h : Heap) (p : ℕ) (xs : List Ptr) (last : ℕ) → Tiles h p xs last → p ≤ last
    Tiles-end h p [] last t = omega arith
    Tiles-end h p (x ∷ xs) last t =
        ground (arith, Tiles-end h (x + header_bytes + (h x).size) xs last t.3)

pub Tiles-multiple :
    (h : Heap) (p : ℕ) (xs : List Ptr) (last a : ℕ)
    → Tiles h p xs last
    → p % 16 ≡ 0
    → has a xs ≡ true
    → (a % 16 ≡ 0) × ((h a).size % 16 ≡ 0)
Tiles-multiple h p [] last a t m i = cc
Tiles-multiple h p (x ∷ xs) last a t m i =
    ground
      (arith, Tiles-multiple h (x + header_bytes + (h x).size) xs last a t.3 (ground (arith, t.2)))

pub Tiles-magic :
    (h : Heap) (p : ℕ) (xs : List Ptr) (last a : ℕ)
    → Tiles h p xs last
    → has a xs ≡ true
    → (h a).magic ≡ heap_magic
Tiles-magic h p [] last a t i = cc
Tiles-magic h p (x ∷ xs) last a t i =
    ground (arith, Tiles-magic h (x + header_bytes + (h x).size) xs last a t.3)

-- Rounding a multiple of 16 up changes nothing.
pub align_up-multiple : (v : ℕ) → v % 16 ≡ 0 → v + 16 ≤ 2 ^ 64 → align_up v 16 ≡ v
unfolding is_pow2
align_up-multiple v m fits =
    let r = align_up_lem v 16 (omega arith) (omega arith) refl (omega arith) in omega arith

pub heap_next-tile :
    (h : Heap) (x : Ptr)
    → x % 16 ≡ 0
    → (h x).size % 16 ≡ 0
    → x + header_bytes + (h x).size + 16 ≤ 2 ^ 64
    → heap_next h x ≡ x + header_bytes + (h x).size
unfolding heap_next
heap_next-tile h x a b fits = align_up-multiple (x + header_bytes + (h x).size) (omega arith) fits
