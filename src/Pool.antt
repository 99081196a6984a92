-- ===== src/Pool.antt =====
-- src/mem_pool.cc: a pool of blocks of one size. The first word of a free block holds the next
-- free block; `links` is that word at each address. MEM_POOL_DEBUG is an argument. Addresses are
-- 64 bits wide. A null pool is not modelled: a pool is given as its value.
pub mod Init
pub mod Blocks
use micro_kernel_using_c_plu.Prelude.{
  ℕ, zero, suc, ◌+◌, ◌-◌, ◌*◌, ◌/◌, ◌%◌, ◌^◌, Bool, true, false, not, ◌&&◌, ◌||◌, Option, none,
  some, ltb, leb, ◌==◌, if◌then◌else◌, ◌>>=◌,
}
use micro_kernel_using_c_plu.Prelude.Int.{ℤ, pos, negsuc}
use micro_kernel_using_c_plu.Prelude.Store.{Ptr, null, update}
use micro_kernel_using_c_plu.Prelude.Align.{is_pow2, align_up}

pub record MemPool : Type 0 where
  pub base : ℕ
  pub block_size : ℕ
  pub block_count : ℕ
  pub free_list : Ptr
  pub free_count : ℕ

pub record PoolState : Type 0 where
  pub pool : MemPool
  pub links : Ptr → Ptr

-- `while (x < a) x <<= 1`, with 64 rounds of fuel.
unfoldable pub shift_to : ℕ → ℕ → ℕ → ℕ
shift_to zero x a = x
shift_to (suc f) x a = let rest = shift_to f (x * 2 % 2 ^ 64) a in if ltb x a then rest else x

unfoldable pub clamp_align : ℕ → ℕ
clamp_align a = if ltb a 8 then 8 else if not (is_pow2 a) then shift_to 64 1 a else a

-- The loop that links blocks i, i + 1, … for `n` rounds.
unfoldable pub link_blocks : ℕ → ℕ → ℕ → ℕ → Ptr → (Ptr → Ptr) → Ptr × (Ptr → Ptr)
link_blocks zero base blk i head links = (head, links)
link_blocks (suc n) base blk i head links =
    link_blocks n base blk (i + 1) (base + i * blk) (update links (base + i * blk) head)

-- The fields that `mem_pool_init` computes, once its tests have passed.
unfoldable pub fill_pool : ℕ → ℕ → ℕ → (Ptr → Ptr) → PoolState
fill_pool aligned blk count links =
    let (head, links') = link_blocks count aligned blk 0 null links in
    record {
      pool = record {
        base = aligned;
        block_size = blk;
        block_count = count;
        free_list = head;
        free_count = count;
      };
      links = links';
    }

-- `none` is the result -1, with the pool left alone.
unfoldable pub mem_pool_init : ℕ → ℕ → ℕ → (Ptr → Ptr) → Option PoolState
mem_pool_init backing backing_size block_size links =
    let align = clamp_align 16 in
    let aligned = align_up backing align in
    let lost = aligned - backing in
    let blk = align_up block_size align in
    let count = (backing_size - lost) / blk in
    if (backing == 0) || (backing_size == 0) || (block_size == 0)
    then none
    else if ltb block_size 8
    then none
    else if ltb aligned backing
    then none
    else if leb backing_size lost
    then none
    else if blk == 0
    then none
    else if count == 0
    then none
    else some (fill_pool aligned blk count links)

pub mem_pool_alloc : PoolState → Ptr × PoolState
mem_pool_alloc s =
    let p = s.pool.free_list in
    if p == null then (null, s) else (
      p,
      record {
        pool = record (s.pool) {
          free_list = s.links p;
          free_count = if s.pool.free_count == 0 then s.pool.free_count else s.pool.free_count - 1;
        };
        links = update s.links p null;
      },
    )

unfoldable pub mem_pool_owns : MemPool → Ptr → Bool
mem_pool_owns pool p =
    let end = (pool.base + pool.block_count * pool.block_size) % 2 ^ 64 in
    if (pool.base == 0) || (p == null)
    then false
    else if ltb p pool.base || leb end p
    then false
    else (p - pool.base) % pool.block_size == 0

pub freelist_contains : ℕ → (Ptr → Ptr) → Ptr → Ptr → Option Bool
freelist_contains zero links it p = none
freelist_contains (suc f) links it p =
    let rest = freelist_contains f links (links it) p in
    if it == null then some false else if it == p then some true else rest

pub push_block : Ptr → PoolState → PoolState
push_block p s = record {
  pool = record (s.pool) { free_list = p; free_count = s.pool.free_count + 1 };
  links = update s.links p s.pool.free_list;
}

-- The result is 0 or -1. The walk of the debug build takes fuel.
pub mem_pool_free : Bool → ℕ → Ptr → PoolState → Option (ℤ × PoolState)
mem_pool_free debug f p s =
    if p == null
    then some (negsuc 0, s)
    else if not (mem_pool_owns s.pool p)
    then some (negsuc 0, s)
    else if leb s.pool.block_count s.pool.free_count
    then some (negsuc 0, s)
    else ((if debug then freelist_contains f s.links s.pool.free_list p else some false)
        >>= λ found. some (if found then (negsuc 0, s) else (pos 0, push_block p s)))

pub mem_pool_available : MemPool → ℕ
mem_pool_available pool = pool.free_count

pub mem_pool_capacity : MemPool → ℕ
mem_pool_capacity pool = pool.block_count

pub mem_pool_block_size : MemPool → ℕ
mem_pool_block_size pool = pool.block_size
