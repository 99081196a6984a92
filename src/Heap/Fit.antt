-- ===== src/Heap/Fit.antt =====
-- `heap_alloc_first_fit` of src/mem_lab.cc on the list of the blocks.
use micro_kernel_using_c_plu.Prelude.{
  ℕ, ◌+◌, ◌%◌, ◌^◌, ◌≤◌, ◌<◌, ◌≡◌, ◌≢◌, ◌⊎◌, inl, inr, refl, false, true, List, some, arith, ◌==◌,
  Bool-cases, ==-false,
}
use micro_kernel_using_c_plu.Prelude.Align.{is_pow2, align_up, align_up_lem}
use micro_kernel_using_c_plu.Prelude.Store.{Ptr, null, has, length}
use micro_kernel_using_c_plu.Heap.{Heap, header_bytes, take_block, heap_alloc_first_fit}
use micro_kernel_using_c_plu.Heap.Tiles.{Tiles, Tiles-multiple, Tiles-le}
use micro_kernel_using_c_plu.Heap.First.{
  serves, first_fit, looked, fit_loop-first_fit, first_fit-serves, first_fit-none,
}
use micro_kernel_using_c_plu.Heap.Taken.{
  IsTaken, taken, take_block-taken, taken-IsTaken, IsTaken-same,
}

-- On a heap whose headers lie side by side, a request is served by the first free block that is
-- large enough, in use then and with every other block as it was. If the block has room for a
-- header and 16 bytes more, it is cut to the size asked for, and what is left is a free block
-- behind it; else it keeps its size. The request fails, and changes nothing, only if no free block
-- is large enough. The steps counted are the blocks looked at.
pub heap_alloc_first_fit-IsTaken :
    (f : ℕ) (h : Heap) (heap bytes req : ℕ) (xs : List Ptr)
    → Tiles h heap xs (heap + bytes)
    → heap ≢ null
    → heap % 16 ≡ 0
    → heap + bytes + 16 ≤ 2 ^ 64
    → 0 < req
    → req + 16 ≤ 2 ^ 64
    → length xs < f
    → let want = align_up req 16 in
      (req ≤ want)
      × ((((a : Ptr) → has a xs ≡ true → serves h want a ≡ false)
            × (heap_alloc_first_fit f heap bytes req h
                ≡ some (record { payload = null; steps = some (looked h want xs); heap = h })))
          ⊎ ((h' : Heap) × (ys : List Ptr) × (heap_alloc_first_fit f heap bytes req h
                ≡ some (record {
                  payload = first_fit h want xs + header_bytes;
                  steps = some (looked h want xs);
                  heap = h';
                }))
              × IsTaken h h' heap (heap + bytes) (first_fit h want xs) want xs ys))
unfolding heap_alloc_first_fit is_pow2
heap_alloc_first_fit-IsTaken f h heap bytes req xs t nh al room pos fits fuel =
    let want = align_up req 16 in
    let up = align_up_lem req 16 (omega arith) (omega arith) refl (omega arith) in
    let run = fit_loop-first_fit f h heap xs (heap + bytes) want 0 t al room fuel in
    let all_looked : 0 + looked h want xs ≡ looked h want xs = omega arith in
    let some_req : (req == 0) ≡ false = ground arith in
    (
      up.0,
      elim (Bool-cases (first_fit h want xs == null)) [
        | inl none_fits ↦
            let e : first_fit h want xs ≡ null = ground arith in
            inl (
              (λ a i. first_fit-none h heap xs (heap + bytes) want a t (ground arith) e i),
              rw (==-false heap null nh, some_req, run, none_fits, all_looked) refl,
            )
        | inr found ↦
            let b = first_fit h want xs in
            let (i, good) = first_fit-serves h want xs (ground arith) in
            let le : want ≤ (h b).size = ground arith in
            let (ys, r) = taken-IsTaken h heap xs (heap + bytes) b want t i up.2 le in
            let inside = Tiles-le h heap xs (heap + bytes) b t i in
            let m = Tiles-multiple h heap xs (heap + bytes) b t al i in
            inr (
              take_block b want h,
              ys,
              rw (==-false heap null nh, some_req, run, found, all_looked) refl,
              IsTaken-same h (taken b want h) (take_block b want h) heap (heap + bytes) b want xs ys
                  r (λ a. take_block-taken h b want a m.0 m.1 up.2 le (omega (arith, inside.1))),
            )
      ],
    )
