-- ===== src/Runqueue/Pick.antt =====
-- `prio_pick_next` of src/thread.cc: the next thread under the priority policy.
use mathlib.Core.Bool.{false≢true}
use micro_kernel_using_c_plu.Prelude.{
  ◌∙◌, not, ℕ, zero, suc, ◌≤◌, ◌≡◌, ◌≢◌, refl, false, true, Bool, List, [], ◌∷◌, Option, none, some,
  arith, if◌then◌else◌, ◌||◌, ◌&&◌, inl, inr, ◌⊎◌, Bool-cases, ◌==◌, sym,
}
use micro_kernel_using_c_plu.Prelude.Store.{Ptr, null, has, length, Chain}
use micro_kernel_using_c_plu.Kernel.{Kernel, next_of}
use micro_kernel_using_c_plu.Runqueue.{
  is_ready, eligible, pick_loop, is_best, pick_start, pick_best, prio_pick_next, IsQueue,
  rq_max_ready_priority,
}
use micro_kernel_using_c_plu.Runqueue.Scan.{prio_of, IsMaxReady, rq_max_ready_priority-IsMaxReady}
use micro_kernel_using_c_plu.Runqueue.Turn.{Turned, turn}

abbrev first : (Ptr → Bool) → List Ptr → Ptr
first test [] = null
first test (x ∷ xs) = if test x then x else first test xs

pick_loop-first :
    (f : ℕ) (k : Kernel) (test : Ptr → Bool) (start t : Ptr) (ys : List Ptr)
    → Chain (next_of k) t (t ∷ ys) start
    → has start ys ≡ false
    → length ys ≤ f
    → pick_loop (suc f) k test start t ≡ some (first test (t ∷ ys))
unfolding pick_loop
pick_loop-first f k test start t [] c out fuel = ground arith
pick_loop-first zero k test start t (y ∷ ys) c out fuel = absurd (omega arith)
pick_loop-first (suc f) k test start t (y ∷ ys) c out fuel =
    ground (arith, pick_loop-first f k test start y ys)

-- The first entry that passes the test, unless none does.
abbrev FirstCases : (Ptr → Bool) → List Ptr → Type 0
FirstCases test xs =
    ((first test xs ≡ null) × ((a : Ptr) → has a xs ≡ true → test a ≡ false))
    ⊎ ((has (first test xs) xs ≡ true) × (test (first test xs) ≡ true))

first-cases : (test : Ptr → Bool) (xs : List Ptr) → FirstCases test xs
first-cases test [] = inl (refl, λ a h. cc)
first-cases test (x ∷ xs) = elim (Bool-cases (test x)) [
  | inl e ↦ inr (rw e (ground arith, e))
  | inr n ↦ elim (first-cases test xs) [
    | inl (z, none_pass) ↦ inl (ground arith, λ a h. ground (arith, none_pass a))
    | inr (h, t) ↦ inr (ground arith, ground arith)
  ]
]

-- A thread that `prio_pick_next` may be asked to leave: a queued one, or one with no link.
abbrev pub Leaves : Kernel → List Ptr → Ptr → Type 0
Leaves k q cur = (has cur q ≡ true) ⊎ (next_of k cur ≡ null)

-- `t` is ready and has the highest priority of the ready threads in the queue. If `cur` is to be
-- left, it stays only if no other ready thread has that priority.
pub record IsPick (k : Kernel) (q : List Ptr) (cur : Ptr) (exclude : Bool) (t : Ptr) : Type 0 where
  pub ready : is_ready k t ≡ true
  pub best : (a : Ptr) → has a q ≡ true → is_ready k a ≡ true → prio_of k a ≤ prio_of k t
  pub leaves :
      (a : Ptr)
      → exclude ≡ true
      → has a q ≡ true
      → is_ready k a ≡ true
      → prio_of k a ≡ prio_of k t
      → a ≢ cur
      → t ≢ cur

has-next :
    (f : Ptr → Ptr) (p a : Ptr) (xs : List Ptr) (stop : Ptr)
    → Chain f p xs stop
    → has a xs ≡ true
    → (has (f a) xs || (f a == stop)) ≡ true
has-next f p a [] stop c h = cc
has-next f p a (x ∷ []) stop c h = ground arith
has-next f p a (x ∷ y ∷ ys) stop c h = ground (arith, has-next f (f x) a (y ∷ ys) stop)

has-start :
    (k : Kernel) (q : List Ptr) (a cur : Ptr) (ex rot : Bool)
    → IsQueue k q
    → Leaves k q cur
    → has a q ≡ true
    → has (pick_start k cur ex rot) q ≡ true
unfolding pick_start
has-start k [] a cur ex rot r l h = cc
has-start k (x ∷ xs) a cur ex rot r l h = ground (arith, has-next (next_of k) x cur (x ∷ xs) x r.2)

module _ (k : Kernel) (q : List Ptr) (cur : Ptr) (ex : Bool) (b : ℕ)
    (m : IsMaxReady k q (some b)) where
  -- An eligible thread of the queue is a good choice.
  eligible-IsPick : (t : Ptr) → eligible k cur ex b t ≡ true → IsPick k q cur ex t
  unfolding eligible
  eligible-IsPick t e = record {
    ready = ground arith;
    best = λ a h r. ground (arith, m.0 a);
    leaves = λ a ex' h r p ne. ground arith;
  }

  -- If no thread of the queue is eligible, the current one is the only best thread.
  stay-IsPick :
      ((a : Ptr) → has a q ≡ true → eligible k cur ex b a ≡ false)
      → (is_best k cur b ≡ true) × IsPick k q cur ex cur
  unfolding eligible is_best is_ready
  stay-IsPick none_pass = (
    only,
    record {
      ready = ground (arith, only);
      best = λ a h r. ground (arith, m.0 a, only);
      leaves = λ a ex' h r p ne. ground (arith, none_pass a, only);
    },
  )
    where
      only : is_best k cur b ≡ true
      only = ground (arith, none_pass m.1.0, m.1.1, m.1.2, m.1.3)

  keep-IsPick : ex ≡ false → is_best k cur b ≡ true → IsPick k q cur ex cur
  unfolding is_best
  keep-IsPick e best = record {
    ready = ground arith;
    best = λ a h r. ground (arith, m.0 a);
    leaves = λ a ex' h r p ne. cc;
  }

has-length : (a : Ptr) (q : List Ptr) → has a q ≡ true → 1 ≤ length q
has-length a [] h = cc
has-length a (x ∷ xs) h = omega arith

eligible-ne_null :
    (k : Kernel) (cur : Ptr) (ex : Bool) (b : ℕ) (t : Ptr)
    → eligible k cur ex b t ≡ true
    → (t == null) ≡ false
unfolding eligible is_ready
eligible-ne_null k cur ex b t e = ground arith

pick_best-IsPick :
    (f : ℕ) (k : Kernel) (q : List Ptr) (cur : Ptr) (ex rot : Bool) (b : ℕ)
    → IsQueue k q
    → length q ≤ f
    → Leaves k q cur
    → IsMaxReady k q (some b)
    → (t : Ptr) × (pick_best f k cur ex rot b ≡ some t) × IsPick k q cur ex t
unfolding pick_best
pick_best-IsPick zero k q cur ex rot b r fuel l m = absurd (omega (arith, has-length m.1.0 q m.1.1))
pick_best-IsPick (suc f) k q cur ex rot b r fuel l m =
    elim (Bool-cases (not ex && not rot && is_best k cur b)) [
      | inl keep ↦ (cur, rw keep, keep-IsPick k q cur ex b m (ground arith) (ground arith))
      | inr go ↦ elim (first-cases test (s ∷ ys)) [
        | inl (z, none_pass) ↦
            let (best, pick) =
              stay-IsPick k q cur ex b m (λ a h. none_pass a (ground (arith, t.same a))) in
            (cur, rw (go, found, z, best), pick)
        | inr (h, e) ↦ (
          first test (s ∷ ys),
          rw (go, found, eligible-ne_null k cur ex b (first test (s ∷ ys)) e),
          eligible-IsPick k q cur ex b m (first test (s ∷ ys)) e,
        )
      ]
    ]
  where
    s : Ptr
    s = pick_start k cur ex rot

    test : Ptr → Bool
    test = eligible k cur ex b

    turned : (ys : List Ptr) × Turned (next_of k) q s ys
    turned = turn k q s r (has-start k q m.1.0 cur ex rot r l m.1.1)

    ys : List Ptr
    ys = turned.0

    t : Turned (next_of k) q s ys
    t = turned.1

    found : pick_loop (suc f) k test s s ≡ some (first test (s ∷ ys))
    found = pick_loop-first f k test s s ys t.chain t.once (omega (arith, t.size))

head-ne_null :
    (k : Kernel) (q : List Ptr) (a : Ptr)
    → IsQueue k q
    → has a q ≡ true
    → (k.rq_head == null) ≡ false
head-ne_null k [] a r h = cc
head-ne_null k (x ∷ xs) a r h = ground arith

-- With a ready thread in the queue, the walks end and the thread chosen is ready and of highest
-- priority; asked to leave the current thread, it stays only if no other has that priority.
pub prio_pick_next-IsPick :
    (f : ℕ) (k : Kernel) (q : List Ptr) (cur a : Ptr) (ex rot : Bool)
    → IsQueue k q
    → length q ≤ f
    → Leaves k q cur
    → has a q ≡ true
    → is_ready k a ≡ true
    → (t : Ptr) × (prio_pick_next f k cur ex rot ≡ some t) × IsPick k q cur ex t
unfolding prio_pick_next
prio_pick_next-IsPick f k q cur a ex rot r fuel l h ready =
    let (m, e, is_max) = rq_max_ready_priority-IsMaxReady f k q r fuel in go m e is_max
  where
    go :
        (m : Option ℕ)
        → rq_max_ready_priority f k ≡ some m
        → IsMaxReady k q m
        → (t : Ptr) × (prio_pick_next f k cur ex rot ≡ some t) × IsPick k q cur ex t
    go none e is_max = absurd (false≢true (sym (is_max a h) ∙ ready))
    go (some b) e is_max =
        let (t, p, i) = pick_best-IsPick f k q cur ex rot b r fuel l is_max in
        (t, rw (head-ne_null k q a r h, e) p, i)
