-- ===== src/Examples/Heaps.antt =====
-- The theorems on the first-fit heap, on a heap of three blocks: 64 bytes in use, 48 free, 96 free.
use micro_kernel_using_c_plu.Prelude.{
  ℕ, ◌+◌, ◌≤◌, ◌≡◌, ◌⊎◌, refl, false, true, List, [], ◌∷◌, some, arith,
}
use micro_kernel_using_c_plu.Prelude.Align.{align_up}
use micro_kernel_using_c_plu.Prelude.Store.{Ptr, null, has, update}
use micro_kernel_using_c_plu.Heap.{
  Heap, HeapBlock, heap_magic, header_bytes, set_free, heap_alloc_first_fit, heap_free,
}
use micro_kernel_using_c_plu.Heap.Tiles.{Tiles}
use micro_kernel_using_c_plu.Heap.Fit.{heap_alloc_first_fit-IsTaken}
use micro_kernel_using_c_plu.Heap.First.{serves, first_fit, looked}
use micro_kernel_using_c_plu.Heap.Taken.{IsTaken}
use micro_kernel_using_c_plu.Heap.Coalesce.{IsMerged, heap_free-IsMerged}

abbrev header : ℕ → ℕ → HeapBlock
header flags size = record { magic = heap_magic; flags = flags; size = size }

abbrev three : Heap
three =
    update (update (update (λ a. header 0 0) 4096 (header 0 64)) 4176 (header 1 48)) 4240
      (header 1 96)

abbrev rest : List Ptr
rest = 4176 ∷ 4240 ∷ []

three-Tiles : Tiles three 4096 (4096 ∷ rest) 4352
three-Tiles = (refl, refl, refl, (refl, refl, refl, (refl, refl, refl, refl)))

heap_alloc_first_fit-IsTaken_example :
    let want = align_up 50 16 in
    (50 ≤ want)
    × ((((a : Ptr) → has a (4096 ∷ rest) ≡ true → serves three want a ≡ false)
          × (heap_alloc_first_fit 4 4096 256 50 three
              ≡ some (record {
                payload = null;
                steps = some (looked three want (4096 ∷ rest));
                heap = three;
              })))
        ⊎ ((h' : Heap) × (ys : List Ptr) × (heap_alloc_first_fit 4 4096 256 50 three
              ≡ some (record {
                payload = first_fit three want (4096 ∷ rest) + header_bytes;
                steps = some (looked three want (4096 ∷ rest));
                heap = h';
              }))
            × IsTaken three h' 4096 4352
                (first_fit three want (4096 ∷ rest))
                want
                (4096 ∷ rest)
                ys))
heap_alloc_first_fit-IsTaken_example =
    heap_alloc_first_fit-IsTaken 4 three 4096 256 50 (4096 ∷ rest) three-Tiles (omega arith) refl
      (omega arith) (omega arith) (omega arith) (omega arith)

heap_free-IsMerged_example :
    (h' : Heap) × (ys : List Ptr) × (heap_free 4 4096 256 (4096 + header_bytes) three ≡ some h')
    × IsMerged (update three 4096 (set_free (three 4096))) h' 4352 4096 rest ys
heap_free-IsMerged_example =
    heap_free-IsMerged 4 three 4096 256 4096 rest three-Tiles (omega arith) refl (omega arith) refl
      (omega arith) (omega arith)
