-- ===== src/Runqueue/Append.antt =====
-- `rq_append` of src/thread.cc on the list that the ring stands for.
use micro_kernel_using_c_plu.Prelude.{◌≡◌, ◌≢◌, false, List, [], ◌∷◌, ◌++◌, arith}
use micro_kernel_using_c_plu.Prelude.Store.{
  Ptr, null, has, Chain-append, last-append, Distinct-append, has-last,
}
use micro_kernel_using_c_plu.Kernel.{Kernel, next_of}
use micro_kernel_using_c_plu.Runqueue.{rq_append, IsQueue, SameButNext}
use micro_kernel_using_c_plu.Runqueue.Links.{relink-last}

-- Appending a thread that is not queued adds it behind the last one. Nothing but the links of
-- threads and the ends of the queue changes.
pub rq_append-append :
    (k : Kernel) (q : List Ptr) (t : Ptr)
    → IsQueue k q
    → t ≢ null
    → has t q ≡ false
    → IsQueue (rq_append t k) (q ++ t ∷ []) × SameButNext k (rq_append t k)
unfolding rq_append
rq_append-append k [] t r nn out = ground arith
rq_append-append k (x ∷ xs) t r nn out = (
  (
    ground arith,
    ground (arith, last-append x t xs),
    Chain-append g x (x ∷ xs) (t ∷ []) t x
        (relink-last (next_of k) g x xs x t r.2 r.3 (ground arith)) (ground (arith, has-last x xs)),
    Distinct-append t (x ∷ xs) r.3 out,
  ),
  ground (arith, has-last x xs),
)
  where
    g : Ptr → Ptr
    g = next_of (rq_append t k)
