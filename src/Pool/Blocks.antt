-- ===== src/Pool/Blocks.antt =====
-- Allocation and release of src/mem_pool.cc on the list of free blocks.
use micro_kernel_using_c_plu.Prelude.{
  ℕ, zero, suc, ◌≤◌, ◌<◌, ◌≡◌, ◌≢◌, refl, true, false, Bool, List, [], ◌∷◌, some, arith, ltb, ◌==◌,
  not, ◌&&◌, ◌∙◌, Bool-cases, inl, inr,
}
use micro_kernel_using_c_plu.Prelude.Int.{ℤ, pos, negsuc}
use micro_kernel_using_c_plu.Prelude.Store.{Ptr, null, has, length, Distinct, Chain, Chain-frame}
use micro_kernel_using_c_plu.Pool.{
  MemPool, PoolState, mem_pool_alloc, mem_pool_owns, freelist_contains, push_block, mem_pool_free,
}

-- The free blocks, next to hand out first: each once, each a block of the pool, and counted.
pub record IsPool (s : PoolState) (xs : List Ptr) : Type 0 where
  pub chain : Chain s.links s.pool.free_list xs null
  pub distinct : Distinct xs
  pub owned : (a : Ptr) → has a xs ≡ true → mem_pool_owns s.pool a ≡ true
  pub counted : s.pool.free_count ≡ length xs
  pub bounded : s.pool.free_count ≤ s.pool.block_count

-- Whether an address is a block depends on the base, the size and the number of blocks only.
owns-same :
    (p q : MemPool) (a : Ptr)
    → p.base ≡ q.base
    → p.block_size ≡ q.block_size
    → p.block_count ≡ q.block_count
    → mem_pool_owns p a ≡ mem_pool_owns q a
unfolding mem_pool_owns
owns-same p q a b z c = rw (b, z, c)

-- What an allocation does: the first free block, or null from an exhausted pool.
abbrev pub Allocated : PoolState → List Ptr → Ptr × PoolState → Type 0
Allocated s [] (p, s') = (p ≡ null) × (s' ≡ s)
Allocated s (x ∷ xs) (p, s') =
    (p ≡ x) × IsPool s' xs × (has p xs ≡ false) × (mem_pool_owns s.pool p ≡ true)

-- The block handed out belongs to the pool and is free no longer; the rest of the free list stays.
pub mem_pool_alloc-Allocated :
    (s : PoolState) (xs : List Ptr) → IsPool s xs → Allocated s xs (mem_pool_alloc s)
unfolding mem_pool_alloc
mem_pool_alloc-Allocated s [] is = ground (arith, is.chain)
mem_pool_alloc-Allocated s (x ∷ xs) is =
    let s' = (mem_pool_alloc s).1 in
    (
      ground (arith, is.chain),
      record {
        chain =
            Chain-frame s.links s'.links s'.pool.free_list xs null (ground (arith, is.chain))
              (λ a h. ground (arith, is.chain, is.distinct));
        distinct = is.distinct.1;
        owned = λ a h.
            owns-same s'.pool s.pool a (ground arith) (ground arith) (ground arith)
            ∙ is.owned a (ground arith);
        counted = ground (arith, is.chain, is.counted);
        bounded = ground (arith, is.bounded);
      },
      ground (arith, is.chain, is.distinct),
      ground (arith, is.chain, is.owned x),
    )

freelist_contains-has :
    (f : ℕ) (links : Ptr → Ptr) (it p : Ptr) (xs : List Ptr)
    → Chain links it xs null
    → length xs < f
    → freelist_contains f links it p ≡ some (has p xs)
unfolding freelist_contains
freelist_contains-has zero links it p xs c fuel = absurd (omega arith)
freelist_contains-has (suc f) links it p [] c fuel = ground arith
freelist_contains-has (suc f) links it p (x ∷ xs) c fuel =
    ground (arith, freelist_contains-has f links (links x) p xs c.2 (omega arith))

push-IsPool :
    (s : PoolState) (p : Ptr) (xs : List Ptr)
    → IsPool s xs
    → p ≢ null
    → has p xs ≡ false
    → mem_pool_owns s.pool p ≡ true
    → s.pool.free_count < s.pool.block_count
    → IsPool (push_block p s) (p ∷ xs)
unfolding push_block
push-IsPool s p xs is nn out own room =
    let s' = push_block p s in
    record {
      chain = (
        refl,
        nn,
        ground (
          arith,
          Chain-frame s.links s'.links s.pool.free_list xs null is.chain (λ a h. ground arith),
        ),
      );
      distinct = (out, is.distinct);
      owned = λ a h.
          owns-same s'.pool s.pool a (ground arith) (ground arith) (ground arith)
          ∙ ground (arith, is.owned a);
      counted = omega (arith, is.counted);
      bounded = omega arith;
    }

-- Whether `mem_pool_free` accepts a pointer.
abbrev pub accepts : PoolState → Ptr → Bool
accepts s p = not (p == null) && mem_pool_owns s.pool p && ltb s.pool.free_count s.pool.block_count

-- What a release means, in the build with checks and in the one without: whether the pointer is
-- accepted, and whether it is free already.
abbrev pub Freed : Bool → PoolState → List Ptr → Ptr → Bool → Bool → ℤ × PoolState → Type 0
Freed debug s xs p false found (r, s') = (r ≡ negsuc 0) × (s' ≡ s)
Freed debug s xs p true false (r, s') = (r ≡ pos 0) × IsPool s' (p ∷ xs)
Freed true s xs p true true (r, s') = (r ≡ negsuc 0) × (s' ≡ s)
Freed false s xs p true true (r, s') = (r ≡ pos 0) × ((mem_pool_alloc s').0 ≡ p)

free-again :
    (debug : Bool) (f : ℕ) (s : PoolState) (p : Ptr) (xs : List Ptr)
    → IsPool s xs
    → length xs < f
    → accepts s p ≡ true
    → has p xs ≡ true
    → (r : ℤ × PoolState) × (mem_pool_free debug f p s ≡ some r) × Freed debug s xs p true true r
unfolding mem_pool_free mem_pool_alloc push_block
free-again true f s p xs is fuel ok found = (
  (negsuc 0, s),
  ground (arith, freelist_contains-has f s.links s.pool.free_list p xs is.chain fuel),
  (refl, refl),
)
free-again false f s p xs is fuel ok found =
    ((pos 0, push_block p s), ground arith, (refl, ground arith))

-- A null or foreign pointer, and any pointer while every block is free, is refused with no change.
-- Any other block becomes the first free block, in either build, if it is not free already. A block
-- that is free is refused with no change under MEM_POOL_DEBUG; without it, it is accepted, and the
-- next allocation hands it out.
pub mem_pool_free-Freed :
    (debug : Bool) (f : ℕ) (s : PoolState) (p : Ptr) (xs : List Ptr)
    → IsPool s xs
    → length xs < f
    → (r : ℤ × PoolState) × (mem_pool_free debug f p s ≡ some r)
      × Freed debug s xs p (accepts s p) (has p xs) r
unfolding mem_pool_free
mem_pool_free-Freed debug f s p xs is fuel = elim (Bool-cases (accepts s p)) [
  | inr bad ↦ ((negsuc 0, s), ground arith, rw bad (refl, refl))
  | inl ok ↦ elim (Bool-cases (has p xs)) [
    | inr out ↦ (
      (pos 0, push_block p s),
      ground (arith, freelist_contains-has f s.links s.pool.free_list p xs is.chain fuel),
      rw (ok, out) (refl, push-IsPool s p xs is (ground arith) out (ground arith) (ground arith)),
    )
    | inl found ↦ rw (ok, found) (free-again debug f s p xs is fuel ok found)
  ]
]

-- A block just handed out can be given back.
pub mem_pool_alloc-accepts :
    (s : PoolState) (x : Ptr) (xs : List Ptr)
    → IsPool s (x ∷ xs)
    → accepts (mem_pool_alloc s).1 x ≡ true
unfolding mem_pool_alloc mem_pool_owns
mem_pool_alloc-accepts s x xs is =
    let owned = is.owned x (ground arith) in ground (arith, is.chain, owned, is.counted, is.bounded)

-- The debug build refuses to free a block that is free, with no change.
pub mem_pool_free-twice_debug :
    (f : ℕ) (s : PoolState) (p : Ptr) (xs : List Ptr)
    → IsPool s xs
    → length xs < f
    → has p xs ≡ true
    → mem_pool_free true f p s ≡ some (negsuc 0, s)
unfolding mem_pool_free
mem_pool_free-twice_debug f s p xs is fuel h =
    ground (arith, freelist_contains-has f s.links s.pool.free_list p xs is.chain fuel)

-- Without MEM_POOL_DEBUG the first free block can be freed once more while another block is in
-- use, and then the next two allocations hand out the same block.
pub mem_pool_free-twice :
    (f : ℕ) (s : PoolState) (p : Ptr) (xs : List Ptr)
    → IsPool s (p ∷ xs)
    → s.pool.free_count < s.pool.block_count
    → let s1 = push_block p s in
      (mem_pool_free false f p s ≡ some (pos 0, s1))
      × ((mem_pool_alloc s1).0 ≡ p)
      × ((mem_pool_alloc (mem_pool_alloc s1).1).0 ≡ p)
unfolding mem_pool_free push_block mem_pool_alloc
mem_pool_free-twice f s p xs is room = ground (arith, is.chain, is.owned p)
