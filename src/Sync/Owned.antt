-- ===== src/Sync/Owned.antt =====
-- `thread_owned_mutex_remove` of src/sync.cc on the list that the links of the mutexes stand for.
use mathlib.Core.Path.{subst}
use micro_kernel_using_c_plu.Prelude.{
  sym, ℕ, zero, suc, ◌<◌, ◌≡◌, ◌≢◌, refl, false, true, List, [], ◌∷◌, some, arith, ◌==◌,
  if◌then◌else◌, inl, inr, Bool-cases, ==-false,
}
use micro_kernel_using_c_plu.Prelude.Store.{
  Ptr, null, has, length, erase, Distinct, Chain, Chain-frame, Chain-ne_null,
}
use micro_kernel_using_c_plu.Kernel.{Kernel}
use micro_kernel_using_c_plu.Sync.{owned_loop, unlink_owned, thread_owned_mutex_remove}
use micro_kernel_using_c_plu.Sync.Waitq.{skip-link}
use micro_kernel_using_c_plu.Sync.Inherit.{owner_next_of}

-- The node in front of `m`; `prev` stands in front of the list.
abbrev before : Ptr → Ptr → List Ptr → Ptr
before m prev [] = prev
before m prev (x ∷ xs) = if x == m then prev else before m x xs

owned_loop-before :
    (f : ℕ) (k : Kernel) (t m prev it : Ptr) (xs : List Ptr)
    → Chain (owner_next_of k) it xs null
    → has m xs ≡ true
    → length xs < f
    → owned_loop f t m prev it k ≡ some (unlink_owned t (before m prev xs) m k)
unfolding owned_loop
owned_loop-before zero k t m prev it xs c h fuel = absurd (omega arith)
owned_loop-before (suc f) k t m prev it [] c h fuel = absurd (ground arith)
owned_loop-before (suc f) k t m prev it (x ∷ xs) c h fuel = elim (Bool-cases (x == m)) [
  | inl e ↦ ground arith
  | inr n ↦
      ground
        (arith, owned_loop-before f k t m x (owner_next_of k x) xs c.2 (ground arith) (omega arith))
]

-- What links to a node behind the head.
before-link :
    (f : Ptr → Ptr) (m x : Ptr) (xs : List Ptr)
    → Chain f x (x ∷ xs) null
    → has m xs ≡ true
    → x ≢ m
    → (has (before m x xs) (x ∷ xs) ≡ true) × (f (before m x xs) ≡ m) × (before m x xs ≢ null)
before-link f m x [] c h ne = absurd (ground arith)
before-link f m x (y ∷ ys) c h ne = elim (Bool-cases (y == m)) [
  | inl e ↦ ground arith
  | inr n ↦
      let rest = before-link f m y ys (ground arith) (ground arith) (ground arith) in
      let same : before m x (y ∷ ys) ≡ before m y ys = rw n refl in
      subst (λ b. (has b (x ∷ y ∷ ys) ≡ true) × (f b ≡ m) × (b ≢ null)) (sym same)
        (ground (arith, rest.0), rest.1, rest.2)
]

-- The owned mutexes of `t` without `m`; nothing else changes but links of the list.
pub record IsRemoved (k : Kernel) (t m : Ptr) (ms : List Ptr) (k' : Kernel) : Type 0 where
  pub chain : Chain (owner_next_of k') (k'.thread t).owned_mutexes (erase m ms) null
  pub outside : (a : Ptr) → has a ms ≡ false → k'.mutex a ≡ k.mutex a
  pub mutexes : (a : Ptr) → k'.mutex a ≡ record (k.mutex a) { owner_next = owner_next_of k' a }
  pub threads : (a : Ptr) → a ≢ t → k'.thread a ≡ k.thread a
  pub self : k'.thread t ≡ record (k.thread t) { owned_mutexes = (k'.thread t).owned_mutexes }
  pub kept : k' ≡ record k { thread = k'.thread; mutex = k'.mutex }

module _ (k : Kernel) (t m x : Ptr) (xs : List Ptr) (c : Chain (owner_next_of k) x (x ∷ xs) null)
    (d : Distinct (x ∷ xs)) (head : (k.thread t).owned_mutexes ≡ x) where
  first-IsRemoved : x ≡ m → IsRemoved k t m (x ∷ xs) (unlink_owned t null m k)
  unfolding unlink_owned
  first-IsRemoved e =
      let g = owner_next_of (unlink_owned t null m k) in
      let rest : Chain g (owner_next_of k x) xs null =
        Chain-frame (owner_next_of k) g (owner_next_of k x) xs null c.2
          (λ a i. ground (arith, d.0)) in
      record {
        chain = ground arith;
        outside = λ a out. ground arith;
        mutexes = λ a. ground arith;
        threads = λ a ne. ground arith;
        self = ground arith;
        kept = ground arith;
      }

  later-IsRemoved :
      (prev : Ptr)
      → has m xs ≡ true
      → x ≢ m
      → has prev (x ∷ xs) ≡ true
      → owner_next_of k prev ≡ m
      → prev ≢ null
      → IsRemoved k t m (x ∷ xs) (unlink_owned t prev m k)
  unfolding unlink_owned
  later-IsRemoved prev h ne i l nn =
      let open_prev = ==-false prev null nn in
      let g = owner_next_of (unlink_owned t prev m k) in
      let rest : Chain g x (erase m (x ∷ xs)) null =
        skip-link (owner_next_of k) g m prev x xs c d i l (λ e. ne (ground arith))
          (Chain-ne_null (owner_next_of k) x m (x ∷ xs) null c (ground arith))
          (λ a n. ground arith) in
      record {
        chain = ground arith;
        outside = λ a out. ground arith;
        mutexes = λ a. ground arith;
        threads = λ a n. ground arith;
        self = ground arith;
        kept = ground arith;
      }

-- The walk over the mutexes that a thread owns ends, and takes out the one asked for.
pub thread_owned_mutex_remove-IsRemoved :
    (f : ℕ) (k : Kernel) (t m : Ptr) (ms : List Ptr)
    → Chain (owner_next_of k) (k.thread t).owned_mutexes ms null
    → Distinct ms
    → has m ms ≡ true
    → t ≢ null
    → length ms < f
    → (k' : Kernel) × (thread_owned_mutex_remove f t m k ≡ some k') × IsRemoved k t m ms k'
unfolding thread_owned_mutex_remove
thread_owned_mutex_remove-IsRemoved f k t m [] c d h nt fuel = absurd (ground arith)
thread_owned_mutex_remove-IsRemoved f k t m (x ∷ xs) c d h nt fuel =
    let head = (k.thread t).owned_mutexes in
    let nm = Chain-ne_null (owner_next_of k) head m (x ∷ xs) null c h in
    let run = owned_loop-before f k t m null head (x ∷ xs) c h fuel in
    let c' : Chain (owner_next_of k) x (x ∷ xs) null = (refl, c.1, c.2) in
    elim (Bool-cases (x == m)) [
      | inl e ↦ (
        unlink_owned t null m k,
        ground arith,
        first-IsRemoved k t m x xs c' d c.0 (ground arith),
      )
      | inr n ↦
          let (i, l, np) = before-link (owner_next_of k) m x xs c' (ground arith) (ground arith) in
          (
            unlink_owned t (before m x xs) m k,
            ground arith,
            later-IsRemoved k t m x xs c' d c.0 (before m x xs) (ground arith) (ground arith) i l
                np,
          )
    ]
