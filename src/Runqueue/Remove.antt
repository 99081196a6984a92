-- ===== src/Runqueue/Remove.antt =====
-- `rq_remove` of src/thread.cc on the list that the ring stands for.
use mathlib.Core.Path.{subst}
use micro_kernel_using_c_plu.Prelude.{
  sym, ℕ, zero, suc, ◌≤◌, ◌≡◌, ◌≢◌, refl, false, true, List, [], ◌∷◌, some, arith, ◌==◌,
  if◌then◌else◌, ◌&&◌, inl, inr, Bool-cases,
}
use micro_kernel_using_c_plu.Prelude.Store.{
  Ptr, null, has, last, length, erase, Distinct, Chain, Chain-frame, Chain-last, has-last,
  Distinct-erase, has-erase-false,
}
use micro_kernel_using_c_plu.Kernel.{Kernel, next_of, set_next}
use micro_kernel_using_c_plu.Runqueue.{find_prev, unlink, rq_remove, IsQueue, SameButNext}
use micro_kernel_using_c_plu.Runqueue.Links.{relink-last}

-- The entry in front of `t` in `x ∷ xs`, or the last one.
abbrev pred_of : Ptr → Ptr → List Ptr → Ptr
pred_of t x [] = x
pred_of t x (y ∷ ys) = if y == t then x else pred_of t y ys

-- The walk ends in front of `t`, or at the last thread if `t` is not behind the head.
find_prev-pred_of :
    (f : ℕ) (next : Ptr → Ptr) (head t x : Ptr) (xs : List Ptr)
    → Chain next x (x ∷ xs) head
    → has head xs ≡ false
    → length xs ≤ f
    → find_prev (suc f) next head t x ≡ some (pred_of t x xs)
unfolding find_prev
find_prev-pred_of f next head t x [] c out fuel = ground arith
find_prev-pred_of zero next head t x (y ∷ ys) c out fuel = absurd (omega arith)
find_prev-pred_of (suc f) next head t x (y ∷ ys) c out fuel =
    ground (arith, find_prev-pred_of f next head t y ys)

has-pred_of : (t x : Ptr) (xs : List Ptr) → has (pred_of t x xs) (x ∷ xs) ≡ true
has-pred_of t x [] = ground arith
has-pred_of t x (y ∷ ys) = ground (arith, has-pred_of t y ys)

pred_of-last : (t x : Ptr) (xs : List Ptr) → has t xs ≡ false → pred_of t x xs ≡ last x xs
pred_of-last t x [] out = refl
pred_of-last t x (y ∷ ys) out = ground (arith, pred_of-last t y ys)

erase_none : (t : Ptr) (xs : List Ptr) → has t xs ≡ false → erase t xs ≡ xs
erase_none t [] out = refl
erase_none t (x ∷ xs) out = ground (arith, erase_none t xs)

next-pred_of :
    (f : Ptr → Ptr) (t x : Ptr) (xs : List Ptr) (stop : Ptr)
    → Chain f x (x ∷ xs) stop
    → has t xs ≡ true
    → f (pred_of t x xs) ≡ t
next-pred_of f t x [] stop c h = cc
next-pred_of f t x (y ∷ ys) stop c h = ground (arith, next-pred_of f t y ys stop)

-- The link of the predecessor skips `t`.
skip-Chain :
    (f g : Ptr → Ptr) (t x : Ptr) (xs : List Ptr) (stop : Ptr)
    → Chain f x (x ∷ xs) stop
    → Distinct (x ∷ xs)
    → has t xs ≡ true
    → ((a : Ptr) → a ≢ t → g a ≡ (if pred_of t x xs == a then f t else f a))
    → Chain g x (x ∷ erase t xs) stop
skip-Chain f g t x [] stop c d h same = cc
skip-Chain f g t x (y ∷ ys) stop c d h same = elim (Bool-cases (y == t)) [
  | inl e ↦
      let rest : Chain g (f y) ys stop =
        Chain-frame f g (f y) ys stop c.2.2 (λ a i. ground (arith, same a)) in
      ground (arith, same x)
  | inr n ↦
      let rest : Chain g y (y ∷ erase t ys) stop =
        skip-Chain f g t y ys stop (ground arith) d.1 (ground arith)
          (λ a ne. ground (arith, same a ne)) in
      ground (arith, same x, has-pred_of t y ys)
]

last-erase :
    (t x : Ptr) (xs : List Ptr)
    → Distinct xs
    → has t xs ≡ true
    → last x (erase t xs) ≡ (if last x xs == t then pred_of t x xs else last x xs)
last-erase t x [] d h = cc
last-erase t x (y ∷ []) d h = ground arith
last-erase t x (y ∷ z ∷ zs) d h = ground (arith, has-last z zs, last-erase t y (z ∷ zs))

-- What `unlink` makes of the queue `x ∷ y ∷ ys` if `t` is not its head.
unlink-erase :
    (k : Kernel) (x : Ptr) (xs : List Ptr) (t : Ptr)
    → IsQueue k (x ∷ xs)
    → t ≢ x
    → has t xs ≡ true
    → IsQueue (unlink t (pred_of t x xs) k) (x ∷ erase t xs)
unfolding unlink
unlink-erase k x xs t r ne h =
    let at_t : next_of k (pred_of t x xs) ≡ t = next-pred_of (next_of k) t x xs x r.2 h in
    (
      ground arith,
      ground (arith, last-erase t x xs r.3.1 h),
      skip-Chain (next_of k) (next_of (unlink t (pred_of t x xs) k)) t x xs x r.2 r.3 h
          (ground arith),
      ground (arith, Distinct-erase t xs, has-erase-false x t xs),
    )

unlink-head :
    (k : Kernel) (x y : Ptr) (ys : List Ptr)
    → IsQueue k (x ∷ y ∷ ys)
    → IsQueue (unlink x (last y ys) k) (y ∷ ys)
unfolding unlink
unlink-head k x y ys r =
    let at_x : next_of k (last y ys) ≡ x = Chain-last (next_of k) y ys x (ground arith) in
    (
      ground arith,
      ground (arith, has-last y ys),
      relink-last (next_of k) (next_of (unlink x (last y ys) k)) y ys x y (ground arith) r.3.1
          (ground arith),
      r.3.1,
    )

unlink-SameButNext : (k : Kernel) (t prev : Ptr) → SameButNext k (unlink t prev k)
unfolding unlink
unlink-SameButNext k t prev = ground arith

-- With two threads or more, or a thread that is not the only one, the walk is made.
rq_remove-unlink :
    (f : ℕ) (k : Kernel) (x : Ptr) (xs : List Ptr) (t : Ptr)
    → IsQueue k (x ∷ xs)
    → t ≢ null
    → suc (length xs) ≤ f
    → ((k.rq_head == t) && (k.rq_tail == t)) ≡ false
    → rq_remove f t k ≡ some (unlink t (pred_of t x xs) k)
unfolding rq_remove
rq_remove-unlink zero k x xs t r nn fuel many = absurd (omega arith)
rq_remove-unlink (suc f) k x xs t r nn fuel many =
    ground (arith, find_prev-pred_of f (next_of k) x t x xs r.2 r.3.0 (omega arith))

unlink-absent :
    (k : Kernel) (x : Ptr) (xs : List Ptr) (t : Ptr)
    → IsQueue k (x ∷ xs)
    → has t (x ∷ xs) ≡ false
    → unlink t (pred_of t x xs) k ≡ k
unfolding unlink
unlink-absent k x xs t r out =
    ground (arith, pred_of-last t x xs, Chain-last (next_of k) x xs x r.2)

unlink-absent_queue :
    (k : Kernel) (x : Ptr) (xs : List Ptr) (t : Ptr)
    → IsQueue k (x ∷ xs)
    → has t (x ∷ xs) ≡ false
    → IsQueue (unlink t (pred_of t x xs) k) (erase t (x ∷ xs))
unlink-absent_queue k x xs t r out =
    subst (λ k'. IsQueue k' (erase t (x ∷ xs))) (sym (unlink-absent k x xs t r out))
      (subst (IsQueue k) (sym (erase_none t (x ∷ xs) out)) r)

unlink-first :
    (k : Kernel) (x y : Ptr) (ys : List Ptr) (t : Ptr)
    → IsQueue k (x ∷ y ∷ ys)
    → t ≡ x
    → IsQueue (unlink t (pred_of t x (y ∷ ys)) k) (y ∷ ys)
unlink-first k x y ys t r e =
    subst (λ p. IsQueue (unlink t p k) (y ∷ ys)) (sym (pred_of-last t x (y ∷ ys) (ground arith)))
      (subst (λ z. IsQueue (unlink z (last y ys) k) (y ∷ ys)) (sym e) (unlink-head k x y ys r))

unlink_lem :
    (k : Kernel) (x : Ptr) (xs : List Ptr) (t : Ptr)
    → IsQueue k (x ∷ xs)
    → ((k.rq_head == t) && (k.rq_tail == t)) ≡ false
    → IsQueue (unlink t (pred_of t x xs) k) (erase t (x ∷ xs))
unlink_lem k x [] t r many = unlink-absent_queue k x [] t r (ground arith)
unlink_lem k x (y ∷ ys) t r many = elim (Bool-cases (t == x)) [
  | inl e ↦ rw e (unlink-first k x y ys t r (ground arith))
  | inr n ↦ elim (Bool-cases (has t (y ∷ ys))) [
    | inl h ↦ rw n (unlink-erase k x (y ∷ ys) t r (ground arith) h)
    | inr out ↦ unlink-absent_queue k x (y ∷ ys) t r (ground arith)
  ]
]

last-only :
    (k : Kernel) (x : Ptr) (xs : List Ptr) (t : Ptr)
    → IsQueue k (x ∷ xs)
    → ((k.rq_head == t) && (k.rq_tail == t)) ≡ true
    → IsQueue (set_next t null (record k { rq_head = null; rq_tail = null })) (erase t (x ∷ xs))
last-only k x [] t r one = ground arith
last-only k x (y ∷ ys) t r one = ground (arith, has-last y ys)

-- Removing a thread takes it out of the list, and a thread that is not queued leaves the list as
-- it is; the walk ends, and nothing but the links of threads and the ends of the queue changes.
pub rq_remove-erase :
    (f : ℕ) (k : Kernel) (q : List Ptr) (t : Ptr)
    → IsQueue k q
    → t ≢ null
    → length q ≤ f
    → (k' : Kernel) × (rq_remove f t k ≡ some k') × IsQueue k' (erase t q) × SameButNext k k'
unfolding rq_remove
rq_remove-erase f k [] t r nn fuel = (k, ground arith, ground arith, ground arith)
rq_remove-erase f k (x ∷ xs) t r nn fuel =
    elim (Bool-cases ((k.rq_head == t) && (k.rq_tail == t))) [
      | inl one ↦ (
        set_next t null (record k { rq_head = null; rq_tail = null }),
        ground arith,
        last-only k x xs t r one,
        ground arith,
      )
      | inr many ↦ (
        unlink t (pred_of t x xs) k,
        rq_remove-unlink f k x xs t r nn fuel many,
        unlink_lem k x xs t r many,
        unlink-SameButNext k t (pred_of t x xs),
      )
    ]
