-- ===== src/Pool/Init.antt =====
-- `mem_pool_init` of src/mem_pool.cc: where the blocks lie.
use mathlib.Core.Path.{subst}
use native.Mathlib.Nat.{mul-mod_left}
use micro_kernel_using_c_plu.Prelude.{
  ℕ, zero, suc, ◌+◌, ◌-◌, ◌*◌, ◌/◌, ◌%◌, ◌^◌, ◌≤◌, ◌<◌, ◌≡◌, refl, true, false, List, [], ◌∷◌, some,
  arith, ◌==◌, ◌∙◌, ap, Bool-cases, inl, inr, sym,
}
use micro_kernel_using_c_plu.Prelude.Store.{
  Ptr, null, has, length, Distinct, Chain, Chain-frame, update,
}
use micro_kernel_using_c_plu.Prelude.Align.{is_pow2, align_up, align_up_lem}
use micro_kernel_using_c_plu.Pool.{
  MemPool, PoolState, mem_pool_owns, link_blocks, fill_pool, mem_pool_init, clamp_align,
}
use micro_kernel_using_c_plu.Pool.Blocks.{IsPool}

-- The first n blocks, the last one first.
abbrev pub blocks : ℕ → ℕ → ℕ → List Ptr
blocks zero base blk = []
blocks (suc n) base blk = (base + n * blk) ∷ blocks n base blk

has-blocks :
    (n base blk a : ℕ) → has a (blocks n base blk) ≡ true → (i : ℕ) × (i < n) × (a ≡ base + i * blk)
has-blocks zero base blk a h = cc
has-blocks (suc n) base blk a h = elim (Bool-cases (a == base + n * blk)) [
  | inl e ↦ (n, omega arith, ground arith)
  | inr ne ↦ let (i, lt, e) = has-blocks n base blk a (ground arith) in (i, omega arith, e)
]

-- A block above all of the list is not in it.
above-blocks : (n base blk a : ℕ) → 0 < blk → base + n * blk ≤ a → has a (blocks n base blk) ≡ false
above-blocks zero base blk a pos h = refl
above-blocks (suc n) base blk a pos h =
    let lt : base + n * blk < a = grind arith in
    ground (arith, above-blocks n base blk a pos (omega arith))

Distinct-blocks : (n base blk : ℕ) → 0 < blk → Distinct (blocks n base blk)
Distinct-blocks zero base blk pos = tt
Distinct-blocks (suc n) base blk pos =
    (above-blocks n base blk (base + n * blk) pos (omega arith), Distinct-blocks n base blk pos)

length-blocks : (n base blk : ℕ) → length (blocks n base blk) ≡ n
length-blocks zero base blk = refl
length-blocks (suc n) base blk = ap suc (length-blocks n base blk)

next_suc : (i : ℕ) → suc i ≡ i + 1
next_suc i = omega arith

link_blocks-Chain :
    (n base blk i : ℕ) (head : Ptr) (links : Ptr → Ptr)
    → 0 < blk
    → 0 < base
    → Chain links head (blocks i base blk) null
    → let r = link_blocks n base blk i head links in Chain r.1 r.0 (blocks (n + i) base blk) null
unfolding link_blocks
link_blocks-Chain zero base blk i head links pb pa c =
    subst (λ m. Chain links head (blocks m base blk) null) (omega arith) c
link_blocks-Chain (suc n) base blk i head links pb pa c =
    let at = base + i * blk in
    let links' = update links at head in
    let old : Chain links' head (blocks i base blk) null =
      Chain-frame links links' head (blocks i base blk) null c
        (λ a h. ground (arith, above-blocks i base blk at pb (omega arith))) in
    let grown : Chain links' at (blocks (i + 1) base blk) null =
      subst (λ m. Chain links' at (blocks m base blk) null) (next_suc i) (ground arith) in
    subst
      (λ m.
        let r = link_blocks n base blk (i + 1) at links' in Chain r.1 r.0 (blocks m base blk) null)
      (omega arith) (link_blocks-Chain n base blk (i + 1) at links' pb pa grown)

owns-block :
    (p : MemPool) (i : ℕ)
    → 0 < p.base
    → i < p.block_count
    → p.base + p.block_count * p.block_size < 2 ^ 64
    → 0 < p.block_size
    → mem_pool_owns p (p.base + i * p.block_size) ≡ true
unfolding mem_pool_owns
owns-block p i pa lt fits pb =
    let below : i * p.block_size + p.block_size ≤ p.block_count * p.block_size = grind arith in
    let off : p.base + i * p.block_size - p.base ≡ i * p.block_size = omega arith in
    let whole : (p.base + i * p.block_size - p.base) % p.block_size ≡ 0 =
      ap (λ t. t % p.block_size) off ∙ mul-mod_left i p.block_size in
    let end : (p.base + p.block_count * p.block_size) % 2 ^ 64
        ≡ p.base + p.block_count * p.block_size =
      omega arith in
    rw end (ground (arith, whole))

fill_pool-IsPool :
    (base blk count : ℕ) (links : Ptr → Ptr)
    → 0 < base
    → 0 < blk
    → base + count * blk < 2 ^ 64
    → IsPool (fill_pool base blk count links) (blocks count base blk)
unfolding fill_pool
fill_pool-IsPool base blk count links pa pb fits = record {
  chain =
      subst
        (λ m.
          let r = link_blocks count base blk 0 null links in Chain r.1 r.0 (blocks m base blk) null)
        (omega arith) (link_blocks-Chain count base blk 0 null links pb pa refl);
  distinct = Distinct-blocks count base blk pb;
  owned = λ a h.
      let (i, lt, e) = has-blocks count base blk a h in
      ap (mem_pool_owns (fill_pool base blk count links).pool) e
      ∙ owns-block (fill_pool base blk count links).pool i pa lt fits pb;
  counted = sym (length-blocks count base blk);
  bounded = omega arith;
}

-- Where an initialised pool lies.
pub record Layout (backing backing_size block_size : ℕ) (s : PoolState) : Type 0 where
  pub is_pool : IsPool s (blocks s.pool.block_count s.pool.base s.pool.block_size)
  pub aligned : (s.pool.base % 16 ≡ 0) × (s.pool.block_size % 16 ≡ 0)
  pub wide : block_size ≤ s.pool.block_size
  pub nonempty : 0 < s.pool.block_count
  pub from_start : backing ≤ s.pool.base
  pub to_end : s.pool.base + s.pool.block_count * s.pool.block_size ≤ backing + backing_size

pow16 : is_pow2 16 ≡ true
unfolding is_pow2
pow16 = refl

clamp16 : clamp_align 16 ≡ 16
unfolding clamp_align is_pow2
clamp16 = refl

-- The number of blocks that fit behind the aligned start.
abbrev count_of : ℕ → ℕ → ℕ → ℕ → ℕ
count_of backing backing_size aligned blk = (backing_size - (aligned - backing)) / blk

init_made :
    (backing backing_size block_size : ℕ) (links : Ptr → Ptr) (s : PoolState)
    → mem_pool_init backing backing_size block_size links ≡ some s
    → let aligned = align_up backing 16 in
      let blk = align_up block_size 16 in
      let count = count_of backing backing_size aligned blk in
      (s ≡ fill_pool aligned blk count links)
      × ((0 < backing) × (0 < blk))
      × (aligned < backing + backing_size)
      × (0 < count)
unfolding mem_pool_init
init_made backing backing_size block_size links s e = ground (arith, clamp16)

fill_pool-Layout :
    (backing backing_size block_size aligned blk : ℕ) (links : Ptr → Ptr)
    → (backing ≤ aligned) × (aligned % 16 ≡ 0)
    → (block_size ≤ blk) × (blk % 16 ≡ 0)
    → (0 < backing) × (0 < blk)
    → aligned < backing + backing_size
    → 0 < count_of backing backing_size aligned blk
    → backing + backing_size < 2 ^ 64
    → Layout backing backing_size block_size
        (fill_pool aligned blk (count_of backing backing_size aligned blk) links)
fill_pool-Layout backing backing_size block_size aligned blk links up wide pos fits some_block
      room =
    let count = count_of backing backing_size aligned blk in
    let inside : count * blk ≤ backing_size - (aligned - backing) = omega arith in
    record {
      is_pool =
          unfold fill_pool in
          fill_pool-IsPool aligned blk count links (omega arith) pos.1 (omega arith);
      aligned = unfold fill_pool in (up.1, wide.1);
      wide = unfold fill_pool in wide.0;
      nonempty = unfold fill_pool in some_block;
      from_start = unfold fill_pool in up.0;
      to_end = unfold fill_pool in omega arith;
    }

-- A pool over a region that does not reach the top of the address space has all its blocks free,
-- wide enough, aligned to 16 bytes, and inside the region.
pub mem_pool_init-Layout :
    (backing backing_size block_size : ℕ) (links : Ptr → Ptr) (s : PoolState)
    → backing + backing_size + 16 < 2 ^ 64
    → block_size + 16 < 2 ^ 64
    → mem_pool_init backing backing_size block_size links ≡ some s
    → Layout backing backing_size block_size s
mem_pool_init-Layout backing backing_size block_size links s room small e =
    let (made, pos, fits, some_block) = init_made backing backing_size block_size links s e in
    let up = align_up_lem backing 16 (omega arith) (omega arith) pow16 (omega arith) in
    let wide = align_up_lem block_size 16 (omega arith) (omega arith) pow16 (omega arith) in
    subst (Layout backing backing_size block_size) (sym made) (
      fill_pool-Layout backing backing_size block_size (align_up backing 16)
        (align_up block_size 16) links (up.0, up.2) (wide.0, wide.2) pos fits some_block
        (omega arith))
