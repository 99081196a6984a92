-- ===== src/Examples/Queues.antt =====
-- The run queue's theorems on the sample.
use micro_kernel_using_c_plu.Prelude.{◌≡◌, refl, true, some, [], ◌∷◌, ◌++◌, arith, inl}
use micro_kernel_using_c_plu.Prelude.Store.{Ptr, erase}
use micro_kernel_using_c_plu.Kernel.{Kernel}
use micro_kernel_using_c_plu.Runqueue.{
  IsQueue, SameButNext, is_ready, rq_append, rq_remove, prio_pick_next,
}
use micro_kernel_using_c_plu.Runqueue.Append.{rq_append-append}
use micro_kernel_using_c_plu.Runqueue.Remove.{rq_remove-erase}
use micro_kernel_using_c_plu.Runqueue.Pick.{IsPick, prio_pick_next-IsPick}
use micro_kernel_using_c_plu.Examples.{sample, queued, sample-IsQueue}

rq_append-append_example :
    IsQueue (rq_append 3 sample) (queued ++ 3 ∷ []) × SameButNext sample (rq_append 3 sample)
rq_append-append_example = rq_append-append sample queued 3 sample-IsQueue (omega arith) refl

rq_remove-erase_example :
    (k : Kernel) × (rq_remove 2 1 sample ≡ some k)
    × IsQueue k (erase 1 queued)
    × SameButNext sample k
rq_remove-erase_example =
    rq_remove-erase 2 sample queued 1 sample-IsQueue (omega arith) (omega arith)

prio_pick_next-IsPick_example :
    (t : Ptr) × (prio_pick_next 2 sample 1 true true ≡ some t) × IsPick sample queued 1 true t
unfolding is_ready
prio_pick_next-IsPick_example =
    prio_pick_next-IsPick 2 sample queued 1 2 true true sample-IsQueue (omega arith) (inl refl) refl
      refl
