-- ===== src/Runqueue/Scan.antt =====
-- The walks of src/thread.cc that look for the best ready thread, against the list of the queue.
use micro_kernel_using_c_plu.Prelude.{
  ℕ, zero, suc, ◌≤◌, ◌≡◌, refl, false, true, Bool, List, [], ◌∷◌, Option, none, some, arith, ◌||◌,
  ◌&&◌, inl, inr, ltb, Bool-cases, ◌==◌, ◌<◌,
}
use micro_kernel_using_c_plu.Prelude.Store.{Ptr, null, has, length, Chain}
use micro_kernel_using_c_plu.Kernel.{Kernel, next_of}
use micro_kernel_using_c_plu.Runqueue.{
  is_ready, better, max_loop, rq_max_ready_priority, has_gt_loop, rq_has_ready_prio_gt, IsQueue,
}

abbrev pub prio_of : Kernel → Ptr → ℕ
prio_of k t = (k.thread t).effective_priority

pub is_ready-ne_null : (k : Kernel) (t : Ptr) → is_ready k t ≡ true → (t == null) ≡ false
unfolding is_ready
is_ready-ne_null k t h = ground arith

-- `m` is the highest priority of the ready threads of the list; `none` if none is ready.
abbrev pub IsMaxReady : Kernel → List Ptr → Option ℕ → Type 0
IsMaxReady k q none = (a : Ptr) → has a q ≡ true → is_ready k a ≡ false
IsMaxReady k q (some b) =
    ((a : Ptr) → has a q ≡ true → is_ready k a ≡ true → prio_of k a ≤ b)
    × ((a : Ptr) × (has a q ≡ true) × (is_ready k a ≡ true) × (prio_of k a ≡ b))

abbrev fold_better : Kernel → Option ℕ → List Ptr → Option ℕ
fold_better k best [] = best
fold_better k best (x ∷ xs) = fold_better k (better k x best) xs

-- The walk from a thread back to it is a fold over the threads that it meets.
max_loop-fold :
    (f : ℕ) (k : Kernel) (start t : Ptr) (ys : List Ptr) (best : Option ℕ)
    → Chain (next_of k) t (t ∷ ys) start
    → has start ys ≡ false
    → length ys ≤ f
    → max_loop (suc f) k start t best ≡ some (fold_better k best (t ∷ ys))
unfolding max_loop
max_loop-fold f k start t [] best c out fuel = ground arith
max_loop-fold zero k start t (y ∷ ys) best c out fuel = absurd (omega arith)
max_loop-fold (suc f) k start t (y ∷ ys) best c out fuel =
    ground (arith, max_loop-fold f k start y ys (better k t best))

-- One thread more keeps the best priority the best.
better-IsMaxReady :
    (k : Kernel) (x : Ptr) (seen : List Ptr) (best : Option ℕ)
    → IsMaxReady k seen best
    → IsMaxReady k (x ∷ seen) (better k x best)
unfolding better
better-IsMaxReady k x seen none m = elim (Bool-cases (is_ready k x)) [
  | inl r ↦ rw r ((λ a h e. ground (arith, m a)), (x, ground arith, r, refl))
  | inr n ↦ rw n (λ a h. ground (arith, m a))
]
better-IsMaxReady k x seen (some b) m = elim (Bool-cases (is_ready k x && ltb b (prio_of k x))) [
  | inl r ↦ rw r ((λ a h e. ground (arith, m.0 a)), (x, ground arith, ground arith, refl))
  | inr n ↦ rw n ((λ a h e. ground (arith, m.0 a)), (m.1.0, ground (arith, m.1.1), m.1.2, m.1.3))
]

-- Seen so far: the list `seen`, with its best priority.
fold-IsMaxReady :
    (k : Kernel) (seen xs q : List Ptr) (best : Option ℕ)
    → IsMaxReady k seen best
    → ((a : Ptr) → has a q ≡ (has a xs || has a seen))
    → IsMaxReady k q (fold_better k best xs)
unfolding better
fold-IsMaxReady k seen [] q none m same = λ a h. m a (ground (arith, same a))
fold-IsMaxReady k seen [] q (some b) m same =
    ((λ a h. m.0 a (ground (arith, same a))), (m.1.0, ground (arith, same m.1.0), m.1.2, m.1.3))
fold-IsMaxReady k seen (x ∷ xs) q best m same =
    fold-IsMaxReady k (x ∷ seen) xs q (better k x best) (better-IsMaxReady k x seen best m)
      (λ a. ground (arith, same a))

-- The walk ends, and finds the highest priority of the ready threads in the queue, or that none
-- is ready.
pub rq_max_ready_priority-IsMaxReady :
    (f : ℕ) (k : Kernel) (q : List Ptr)
    → IsQueue k q
    → length q ≤ f
    → (m : Option ℕ) × (rq_max_ready_priority f k ≡ some m) × IsMaxReady k q m
unfolding rq_max_ready_priority
rq_max_ready_priority-IsMaxReady f k [] r fuel = (none, ground arith, λ a h. cc)
rq_max_ready_priority-IsMaxReady zero k (x ∷ xs) r fuel = absurd (omega arith)
rq_max_ready_priority-IsMaxReady (suc f) k (x ∷ xs) r fuel = (
  fold_better k none (x ∷ xs),
  ground (arith, max_loop-fold f k x x xs none r.2 r.3.0 (omega arith)),
  fold-IsMaxReady k [] (x ∷ xs) (x ∷ xs) none (λ a h. cc) (λ a. ground arith),
)

abbrev any_gt : Kernel → ℕ → List Ptr → Bool
any_gt k p [] = false
any_gt k p (x ∷ xs) = (is_ready k x && ltb p (prio_of k x)) || any_gt k p xs

has_gt_loop-any_gt :
    (f : ℕ) (k : Kernel) (p : ℕ) (start t : Ptr) (ys : List Ptr)
    → Chain (next_of k) t (t ∷ ys) start
    → has start ys ≡ false
    → length ys ≤ f
    → has_gt_loop (suc f) k p start t ≡ some (any_gt k p (t ∷ ys))
unfolding has_gt_loop
has_gt_loop-any_gt f k p start t [] c out fuel = ground arith
has_gt_loop-any_gt zero k p start t (y ∷ ys) c out fuel = absurd (omega arith)
has_gt_loop-any_gt (suc f) k p start t (y ∷ ys) c out fuel =
    ground (arith, has_gt_loop-any_gt f k p start y ys)

any_gt-find :
    (k : Kernel) (p : ℕ) (q : List Ptr)
    → any_gt k p q ≡ true
    → (a : Ptr) × (has a q ≡ true) × (is_ready k a ≡ true) × (p < prio_of k a)
any_gt-find k p [] h = cc
any_gt-find k p (x ∷ xs) h = elim (Bool-cases (is_ready k x && ltb p (prio_of k x))) [
  | inl e ↦ (x, ground arith, ground arith, ground arith)
  | inr n ↦ let (a, i, r, l) = any_gt-find k p xs (ground arith) in (a, ground arith, r, l)
]

any_gt-none :
    (k : Kernel) (p : ℕ) (q : List Ptr) (a : Ptr)
    → any_gt k p q ≡ false
    → has a q ≡ true
    → is_ready k a ≡ true
    → prio_of k a ≤ p
any_gt-none k p [] a n h r = cc
any_gt-none k p (x ∷ xs) a n h r = ground (arith, any_gt-none k p xs a)

-- The answer to "is a thread of higher priority ready?", with what it says of the queue.
abbrev pub SaysGt : Kernel → List Ptr → ℕ → Bool → Type 0
SaysGt k q p true = (a : Ptr) × (has a q ≡ true) × (is_ready k a ≡ true) × (p < prio_of k a)
SaysGt k q p false = (a : Ptr) → has a q ≡ true → is_ready k a ≡ true → prio_of k a ≤ p

SaysGt-any_gt : (k : Kernel) (q : List Ptr) (p : ℕ) (b : Bool) → any_gt k p q ≡ b → SaysGt k q p b
SaysGt-any_gt k q p true e = any_gt-find k p q e
SaysGt-any_gt k q p false e = λ a h r. any_gt-none k p q a e h r

-- The walk ends, and says truly whether some ready thread of the queue has a priority above `p`.
pub rq_has_ready_prio_gt-SaysGt :
    (f : ℕ) (k : Kernel) (q : List Ptr) (p : ℕ)
    → IsQueue k q
    → length q ≤ f
    → (b : Bool) × (rq_has_ready_prio_gt f k p ≡ some b) × SaysGt k q p b
unfolding rq_has_ready_prio_gt
rq_has_ready_prio_gt-SaysGt f k [] p r fuel = (false, ground arith, λ a h e. cc)
rq_has_ready_prio_gt-SaysGt zero k (x ∷ xs) p r fuel = absurd (omega arith)
rq_has_ready_prio_gt-SaysGt (suc f) k (x ∷ xs) p r fuel = (
  any_gt k p (x ∷ xs),
  ground (arith, has_gt_loop-any_gt f k p x x xs r.2 r.3.0 (omega arith)),
  SaysGt-any_gt k (x ∷ xs) p (any_gt k p (x ∷ xs)) refl,
)
