-- ===== src/Sync/Waitq.antt =====
-- `waitq_pop_highest` and `waitq_max_priority` of src/sync.cc on the list that the queue stands for.
use micro_kernel_using_c_plu.Prelude.{
  ℕ, zero, suc, ◌≤◌, ◌<◌, ◌≡◌, ◌≢◌, refl, false, true, List, [], ◌∷◌, some, arith, ◌==◌,
  if◌then◌else◌, ◌||◌, ltb, inl, inr, Bool-cases, ◌⊎◌,
}
use micro_kernel_using_c_plu.Prelude.Store.{
  Ptr, null, has, length, erase, Distinct, Chain, Chain-frame,
}
use micro_kernel_using_c_plu.Kernel.{Kernel}
use micro_kernel_using_c_plu.Sched.{thread_effective_priority}
use micro_kernel_using_c_plu.Sync.{Best, consider, best_loop}

abbrev pub wait_next_of : Kernel → Ptr → Ptr
wait_next_of k t = (k.thread t).wait_next

-- The threads that wait, head first, each once.
pub record IsWaitq (k : Kernel) (head : Ptr) (xs : List Ptr) : Type 0 where
  pub chain : Chain (wait_next_of k) head xs null
  pub distinct : Distinct xs

abbrev pub waiter_prio : Kernel → Ptr → ℕ
waiter_prio k t = thread_effective_priority k t

-- The fold that the walk computes, with the previous thread.
abbrev pub fold_best : Kernel → Ptr → Best → List Ptr → Best
fold_best k prev b [] = b
fold_best k prev b (x ∷ xs) = fold_best k x (consider k prev x b) xs

pub best_loop-fold :
    (f : ℕ) (k : Kernel) (prev t : Ptr) (b : Best) (xs : List Ptr)
    → Chain (wait_next_of k) t xs null
    → length xs < f
    → best_loop f k prev t b ≡ some (fold_best k prev b xs)
unfolding best_loop
best_loop-fold zero k prev t b xs c fuel = absurd (omega arith)
best_loop-fold (suc f) k prev t b [] c fuel = ground arith
best_loop-fold (suc f) k prev t b (x ∷ xs) c fuel =
    ground
      (arith, best_loop-fold f k x (wait_next_of k x) (consider k prev x b) xs c.2 (omega arith))

-- `b` is the best of the threads that the walk has seen.
pub record IsBest (k : Kernel) (seen : List Ptr) (b : Best) : Type 0 where
  pub member : has b.best seen ≡ true
  pub prio : b.best_prio ≡ waiter_prio k b.best
  pub best : (a : Ptr) → has a seen ≡ true → waiter_prio k a ≤ b.best_prio

consider-IsBest :
    (k : Kernel) (prev x : Ptr) (seen : List Ptr) (b : Best)
    → IsBest k seen b
    → IsBest k (x ∷ seen) (consider k prev x b)
unfolding consider
consider-IsBest k prev x seen b is = elim (Bool-cases (ltb b.best_prio (waiter_prio k x))) [
  | inl e ↦
      rw e (record { member = ground arith; prio = refl; best = λ a h. ground (arith, is.best a) })
  | inr n ↦ rw n (record {
    member = ground (arith, is.member);
    prio = is.prio;
    best = λ a h. ground (arith, is.best a);
  })
]

pub fold-IsBest :
    (k : Kernel) (prev : Ptr) (b : Best) (seen xs all : List Ptr)
    → IsBest k seen b
    → ((a : Ptr) → has a all ≡ (has a xs || has a seen))
    → IsBest k all (fold_best k prev b xs)
fold-IsBest k prev b seen [] all is same = record {
  member = ground (arith, same b.best, is.member);
  prio = is.prio;
  best = λ a h. is.best a (ground (arith, same a));
}
fold-IsBest k prev b seen (x ∷ xs) all is same =
    fold-IsBest k x (consider k prev x b) (x ∷ seen) xs all (consider-IsBest k prev x seen b is)
      (λ a. ground (arith, same a))

-- Where the walk stands to unlink the best thread: it is the head, or `best_prev` links to it.
abbrev pub Place : Kernel → Ptr → List Ptr → Best → Type 0
Place k h seen b =
    ((b.best ≡ h) × (b.best_prev ≡ null))
    ⊎ ((has b.best_prev seen ≡ true)
        × (b.best_prev ≢ null)
        × (wait_next_of k b.best_prev ≡ b.best)
        × (b.best ≢ h))

pub fold-Place :
    (k : Kernel) (h prev : Ptr) (b : Best) (seen xs all : List Ptr)
    → Chain (wait_next_of k) (wait_next_of k prev) xs null
    → has prev seen ≡ true
    → prev ≢ null
    → has h xs ≡ false
    → Place k h seen b
    → ((a : Ptr) → has a all ≡ (has a xs || has a seen))
    → Place k h all (fold_best k prev b xs)
unfolding consider
fold-Place k h prev b seen [] all c i nn out pl same = ground (arith, same b.best_prev)
fold-Place k h prev b seen (x ∷ xs) all c i nn out pl same =
    fold-Place k h x (consider k prev x b) (x ∷ seen) xs all (ground arith) (ground arith) c.1
      (ground arith) (ground arith) (λ a. ground (arith, same a))

-- A link of the chain leads behind its head.
has-next :
    (f : Ptr → Ptr) (a y : Ptr) (ys : List Ptr) (stop : Ptr)
    → Chain f y (y ∷ ys) stop
    → has a (y ∷ ys) ≡ true
    → (has (f a) ys || (f a == stop)) ≡ true
has-next f a y [] stop c h = ground arith
has-next f a y (z ∷ zs) stop c h = ground (arith, has-next f a z zs stop)

-- The link to `t` skips it.
pub skip-link :
    (f g : Ptr → Ptr) (t prev x : Ptr) (xs : List Ptr)
    → Chain f x (x ∷ xs) null
    → Distinct (x ∷ xs)
    → has prev (x ∷ xs) ≡ true
    → f prev ≡ t
    → t ≢ x
    → t ≢ null
    → ((a : Ptr) → a ≢ t → g a ≡ (if prev == a then f t else f a))
    → Chain g x (erase t (x ∷ xs)) null
skip-link f g t prev x [] c d h e ne nn same = ground arith
skip-link f g t prev x (y ∷ ys) c d h e ne nn same = elim (Bool-cases (prev == x)) [
  | inl now ↦
      let rest : Chain g (f y) ys null =
        Chain-frame f g (f y) ys null c.2.2 (λ a i. ground (arith, same a)) in
      ground (arith, same x)
  | inr later ↦
      let not_y : t ≢ y = λ e'. ground (arith, has-next f prev y ys null) in
      let rest : Chain g y (erase t (y ∷ ys)) null =
        skip-link f g t prev y ys (ground arith) d.1 (ground arith) e not_y nn same in
      ground (arith, same x)
]
