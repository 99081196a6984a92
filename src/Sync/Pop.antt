-- ===== src/Sync/Pop.antt =====
-- What `waitq_pop_highest` of src/sync.cc takes out, and `waitq_max_priority` finds.
use micro_kernel_using_c_plu.Prelude.{
  ==-false, ◌+◌, false, ℕ, ◌≤◌, ◌<◌, ◌≡◌, refl, true, List, [], ◌∷◌, some, arith, inl, inr,
}
use micro_kernel_using_c_plu.Prelude.Store.{
  Ptr, null, has, length, erase, Chain, Chain-frame, Chain-ne_null, Distinct-erase,
}
use micro_kernel_using_c_plu.Kernel.{Kernel, set_wait_next}
use micro_kernel_using_c_plu.Sched.{thread_effective_priority}
use micro_kernel_using_c_plu.Sync.{
  Best, consider, Popped, unlink_waiter, first_best, waitq_pop_highest,
}
use micro_kernel_using_c_plu.Sync.Waitq.{
  wait_next_of, IsWaitq, fold_best, best_loop-fold, IsBest, fold-IsBest, Place, fold-Place,
  skip-link,
}

-- `p` holds a waiter of the highest priority, the queue without it, and a kernel in which nothing
-- but `wait_next` fields of waiters differ.
pub record IsPop (k : Kernel) (xs : List Ptr) (p : Popped) : Type 0 where
  pub member : has p.thread xs ≡ true
  pub highest :
      (a : Ptr)
      → has a xs ≡ true
      → thread_effective_priority k a ≤ thread_effective_priority k p.thread
  pub queue : IsWaitq p.kernel p.head (erase p.thread xs)
  pub unlinked : wait_next_of p.kernel p.thread ≡ null
  pub others :
      (a : Ptr) → p.kernel.thread a ≡ record (k.thread a) { wait_next = wait_next_of p.kernel a }
  pub outside : (a : Ptr) → has a xs ≡ false → p.kernel.thread a ≡ k.thread a
  pub kept : p.kernel ≡ record k { thread = p.kernel.thread }

module _ (k : Kernel) (x : Ptr) (xs : List Ptr) (q : IsWaitq k x (x ∷ xs)) (b : Best)
    (best : IsBest k (x ∷ xs) b) where
  unlink-queue :
      Place k x (x ∷ xs) b
      → let p = unlink_waiter b x k in IsWaitq p.kernel p.head (erase b.best (x ∷ xs))
  unfolding unlink_waiter
  unlink-queue (inl (e, z)) =
      let g = wait_next_of (set_wait_next b.best null k) in
      let rest : Chain g (wait_next_of k x) xs null =
        Chain-frame (wait_next_of k) g (wait_next_of k x) xs null q.chain.2
          (λ a i. ground (arith, q.distinct.0)) in
      record { chain = ground arith; distinct = ground (arith, q.distinct) }
  unlink-queue (inr (i, nn, l, ne)) =
      let g =
        wait_next_of
          (set_wait_next b.best null (set_wait_next b.best_prev (wait_next_of k b.best) k)) in
      let rest : Chain g x (erase b.best (x ∷ xs)) null =
        skip-link (wait_next_of k) g b.best b.best_prev x xs q.chain q.distinct i l ne
          (Chain-ne_null (wait_next_of k) x b.best (x ∷ xs) null q.chain best.member)
          (λ a n. ground arith) in
      record {
        chain = rw (==-false b.best_prev null nn) rest;
        distinct = Distinct-erase b.best (x ∷ xs) q.distinct;
      }

  unlink-IsPop : Place k x (x ∷ xs) b → IsPop k (x ∷ xs) (unlink_waiter b x k)
  unfolding unlink_waiter
  unlink-IsPop place = record {
    member = best.member;
    highest = λ a h. ground (arith, best.best a, best.prio);
    queue = unlink-queue place;
    unlinked = ground arith;
    others = λ a. ground arith;
    outside = λ a out. ground (arith, best.member);
    kept = ground arith;
  }

-- The walk ends, and takes out one waiter, of the highest priority of those that wait; the others
-- wait on in their order, and nothing but links of the queue changes.
pub waitq_pop_highest-IsPop :
    (f : ℕ) (k : Kernel) (x : Ptr) (xs : List Ptr)
    → IsWaitq k x (x ∷ xs)
    → length xs + 1 < f
    → (p : Popped) × (waitq_pop_highest f x k ≡ some p) × IsPop k (x ∷ xs) p
unfolding waitq_pop_highest consider
waitq_pop_highest-IsPop f k x xs q fuel =
    let b = fold_best k x (first_best k x) xs in
    (
      unlink_waiter b x k,
      ground (arith, best_loop-fold f k null x (first_best k x) (x ∷ xs) q.chain (omega arith)),
      unlink-IsPop k x xs q b
          (fold-IsBest k x (first_best k x) (x ∷ []) xs (x ∷ xs)
            (record { member = ground arith; prio = refl; best = λ a h. ground arith })
            (λ a. ground arith))
          (fold-Place k x x (first_best k x) (x ∷ []) xs (x ∷ xs) q.chain.2 (ground arith) q.chain.1
            q.distinct.0 (inl (refl, refl)) (λ a. ground arith)),
    )

-- An empty queue gives no thread, and stays.
pub waitq_pop_highest-empty :
    (f : ℕ) (k : Kernel)
    → waitq_pop_highest f null k ≡ some (record { thread = null; head = null; kernel = k })
unfolding waitq_pop_highest
waitq_pop_highest-empty f k = refl
