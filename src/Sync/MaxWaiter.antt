-- ===== src/Sync/MaxWaiter.antt =====
-- `waitq_max_priority` of src/sync.cc.
use micro_kernel_using_c_plu.Prelude.{
  ℕ, zero, suc, ◌≤◌, ◌<◌, ◌≡◌, refl, false, true, List, [], ◌∷◌, Option, none, some, arith, ◌||◌,
  ltb, inl, inr, Bool-cases,
}
use micro_kernel_using_c_plu.Prelude.Store.{Ptr, null, has, length, Chain}
use micro_kernel_using_c_plu.Kernel.{Kernel}
use micro_kernel_using_c_plu.Sched.{thread_effective_priority}
use micro_kernel_using_c_plu.Sync.{max_waiter, max_waiter_loop, waitq_max_priority}
use micro_kernel_using_c_plu.Sync.Waitq.{wait_next_of, IsWaitq}

-- The highest priority of the waiters; `none` only if there are none.
abbrev pub IsMaxWaiter : Kernel → List Ptr → Option ℕ → Type 0
IsMaxWaiter k xs none = (a : Ptr) → has a xs ≡ false
IsMaxWaiter k xs (some b) =
    ((a : Ptr) → has a xs ≡ true → thread_effective_priority k a ≤ b)
    × ((a : Ptr) × (has a xs ≡ true) × (thread_effective_priority k a ≡ b))

abbrev fold_max : Kernel → Option ℕ → List Ptr → Option ℕ
fold_max k best [] = best
fold_max k best (x ∷ xs) = fold_max k (max_waiter k x best) xs

loop-fold_max :
    (f : ℕ) (k : Kernel) (t : Ptr) (best : Option ℕ) (xs : List Ptr)
    → Chain (wait_next_of k) t xs null
    → length xs < f
    → max_waiter_loop f k t best ≡ some (fold_max k best xs)
unfolding max_waiter_loop
loop-fold_max zero k t best xs c fuel = absurd (omega arith)
loop-fold_max (suc f) k t best [] c fuel = ground arith
loop-fold_max (suc f) k t best (x ∷ xs) c fuel =
    ground (arith, loop-fold_max f k (wait_next_of k x) (max_waiter k x best) xs c.2 (omega arith))

max_waiter-IsMaxWaiter :
    (k : Kernel) (x : Ptr) (seen : List Ptr) (best : Option ℕ)
    → IsMaxWaiter k seen best
    → IsMaxWaiter k (x ∷ seen) (max_waiter k x best)
unfolding max_waiter
max_waiter-IsMaxWaiter k x seen none m = ((λ a h. ground (arith, m a)), (x, ground arith, refl))
max_waiter-IsMaxWaiter k x seen (some b) m =
    elim (Bool-cases (ltb b (thread_effective_priority k x))) [
      | inl e ↦ rw e ((λ a h. ground (arith, m.0 a)), (x, ground arith, refl))
      | inr n ↦ rw n ((λ a h. ground (arith, m.0 a)), (m.1.0, ground (arith, m.1.1), m.1.2))
    ]

fold-IsMaxWaiter :
    (k : Kernel) (best : Option ℕ) (seen xs all : List Ptr)
    → IsMaxWaiter k seen best
    → ((a : Ptr) → has a all ≡ (has a xs || has a seen))
    → IsMaxWaiter k all (fold_max k best xs)
fold-IsMaxWaiter k none seen [] all m same = λ a. ground (arith, same a, m a)
fold-IsMaxWaiter k (some b) seen [] all m same =
    ((λ a h. m.0 a (ground (arith, same a))), (m.1.0, ground (arith, same m.1.0, m.1.1), m.1.2))
fold-IsMaxWaiter k best seen (x ∷ xs) all m same =
    fold-IsMaxWaiter k (max_waiter k x best) (x ∷ seen) xs all
      (max_waiter-IsMaxWaiter k x seen best m) (λ a. ground (arith, same a))

-- The walk ends, and finds the highest priority of the waiters.
pub waitq_max_priority-IsMaxWaiter :
    (f : ℕ) (k : Kernel) (head : Ptr) (xs : List Ptr)
    → IsWaitq k head xs
    → length xs < f
    → (m : Option ℕ) × (waitq_max_priority f k head ≡ some m) × IsMaxWaiter k xs m
unfolding waitq_max_priority
waitq_max_priority-IsMaxWaiter f k head xs q fuel = (
  fold_max k none xs,
  loop-fold_max f k head none xs q.chain fuel,
  fold-IsMaxWaiter k none [] xs xs (λ a. refl) (λ a. ground arith),
)
