-- ===== src/Dma/Alloc.antt =====
-- dma_alloc_desc and dma_alloc_buffer, src/dma.cc: two fronts that grow towards each other.
use micro_kernel_using_c_plu.Prelude.{◌+◌, ◌%◌, ◌^◌, ◌≤◌, ◌<◌, ◌≡◌, refl, arith}
use micro_kernel_using_c_plu.Prelude.Store.{Ptr}
use micro_kernel_using_c_plu.Prelude.Align.{is_pow2, align_up_lem}
use micro_kernel_using_c_plu.Dma.{Dma, desc_size, dma_alloc_desc}

-- A descriptor that is given out is aligned and lies between the two fronts, and the front of the
-- descriptors moves to its end.
pub record IsDesc (d : Dma) (p : Ptr) (after : Dma) : Type 0 where
  pub aligned : p % 8 ≡ 0
  pub above : d.desc_next ≤ p
  pub next_block : after.desc_next ≡ p + desc_size
  pub ordered : after.desc_next ≤ after.buf_end
  pub other_front : after.buf_end ≡ d.buf_end

-- A descriptor that `dma_alloc_desc` gives satisfies IsDesc, if the fronts were in order.
pub dma_alloc_desc-IsDesc :
    (d : Dma)
    → d.desc_next ≤ d.buf_end
    → d.buf_end < 2 ^ 63
    → 0 < (dma_alloc_desc d).0
    → IsDesc d (dma_alloc_desc d).0 (dma_alloc_desc d).1
unfolding dma_alloc_desc is_pow2
dma_alloc_desc-IsDesc d o h pos =
    let (up, near, multiple) =
      align_up_lem d.desc_next 8 (omega arith) (omega arith) refl (omega arith) in
    record {
      aligned = ground (arith, multiple);
      above = ground (arith, up);
      next_block = ground arith;
      ordered = ground arith;
      other_front = ground arith;
    }
