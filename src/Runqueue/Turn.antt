-- ===== src/Runqueue/Turn.antt =====
-- The ring of the run queue of src/thread.cc, read from any thread of it.
use micro_kernel_using_c_plu.Prelude.{
  suc, ◌+◌, ◌≡◌, refl, false, true, List, [], ◌∷◌, ◌++◌, arith, ◌||◌, inl, inr, Bool-cases, ◌==◌,
}
use micro_kernel_using_c_plu.Prelude.Store.{
  Ptr, has, length, Chain, Chain-append, has-append, Distinct, length-append,
}
use micro_kernel_using_c_plu.Kernel.{Kernel, next_of}
use micro_kernel_using_c_plu.Runqueue.{IsQueue}

-- The same ring, read from another thread of it.
pub record Turned (next : Ptr → Ptr) (q : List Ptr) (s : Ptr) (ys : List Ptr) : Type 0 where
  pub chain : Chain next s (s ∷ ys) s
  pub once : has s ys ≡ false
  pub same : (a : Ptr) → has a (s ∷ ys) ≡ has a q
  pub size : length (s ∷ ys) ≡ length q

-- A chain through `s` is one that ends there and one that begins there.
record Cut (next : Ptr → Ptr) (p stop s : Ptr) (xs : List Ptr) : Type 0 where
  front : List Ptr
  back : List Ptr
  to_s : Chain next p front s
  from_s : Chain next s (s ∷ back) stop
  not_front : has s front ≡ false
  not_back : has s back ≡ false
  same : (a : Ptr) → has a xs ≡ (has a front || has a (s ∷ back))
  size : length xs ≡ length front + suc (length back)

cut :
    (next : Ptr → Ptr) (p stop s : Ptr) (xs : List Ptr)
    → Chain next p xs stop
    → Distinct xs
    → has s xs ≡ true
    → Cut next p stop s xs
cut next p stop s [] c d h = cc
cut next p stop s (x ∷ xs) c d h = elim (Bool-cases (s == x)) [
  | inl e ↦ record {
    front = [];
    back = xs;
    to_s = ground arith;
    from_s = ground arith;
    not_front = refl;
    not_back = ground arith;
    same = λ a. ground arith;
    size = omega arith;
  }
  | inr n ↦
      let rest : Cut next (next x) stop s xs = cut next (next x) stop s xs c.2 d.1 (ground arith) in
      record {
        front = x ∷ rest.front;
        back = rest.back;
        to_s = (c.0, c.1, rest.to_s);
        from_s = rest.from_s;
        not_front = ground (arith, rest.not_front);
        not_back = rest.not_back;
        same = λ a. ground (arith, rest.same a);
        size = omega (arith, rest.size);
      }
]

-- The queue can be read from any of its threads.
pub turn :
    (k : Kernel) (q : List Ptr) (s : Ptr)
    → IsQueue k q
    → has s q ≡ true
    → (ys : List Ptr) × Turned (next_of k) q s ys
turn k [] s r h = cc
turn k (x ∷ xs) s r h = (
  c.back ++ c.front,
  record {
    chain = Chain-append (next_of k) s (s ∷ c.back) c.front x s c.from_s c.to_s;
    once = ground (arith, has-append s c.back c.front, c.not_front, c.not_back);
    same = λ a. ground (arith, has-append a c.back c.front, c.same a);
    size = omega (arith, length-append {0} c.back c.front, c.size);
  },
)
  where
    c : Cut (next_of k) x x s (x ∷ xs)
    c = cut (next_of k) x x s (x ∷ xs) r.2 r.3 h
