-- ===== src/Heap.antt =====
-- The first-fit heap of src/mem_lab.cc. A header of 16 bytes stands in front of each block; `Heap`
-- is the header at each address. Rounding up is in 64 bits; other sums of addresses are not
-- reduced, as a heap lies below 2^64. A walk over the headers takes fuel.
pub mod Tiles
pub mod First
pub mod Taken
pub mod Fit
pub mod Coalesce
use micro_kernel_using_c_plu.Prelude.{
  ℕ, zero, suc, ◌+◌, ◌-◌, ◌%◌, ◌^◌, ◌*◌, ◌/◌, Bool, true, false, not, ◌&&◌, ◌||◌, Option, none,
  some, ltb, leb, ◌==◌, if◌then◌else◌, ◌>>=◌,
}
use micro_kernel_using_c_plu.Prelude.Align.{align_up}
use micro_kernel_using_c_plu.Prelude.Store.{Ptr, null, update}

pub record HeapBlock : Type 0 where
  pub magic : ℕ
  pub flags : ℕ
  pub size : ℕ

abbrev pub Heap : Type 0
Heap = ℕ → HeapBlock

abbrev pub heap_magic : ℕ
heap_magic = 0x6d65_6d31

-- sizeof(heap_block)
abbrev pub header_bytes : ℕ
header_bytes = 16

-- `flags & kHeapFree`, `flags &= ~kHeapFree` and `flags |= kHeapFree`.
abbrev pub is_free : HeapBlock → Bool
is_free b = b.flags % 2 == 1

abbrev pub set_used : HeapBlock → HeapBlock
set_used b = record b { flags = b.flags - b.flags % 2 }

abbrev pub set_free : HeapBlock → HeapBlock
set_free b = record b { flags = b.flags - b.flags % 2 + 1 }

pub lcg_next : ℕ → ℕ
lcg_next state = (state * 1664525 + 1013904223) % 2 ^ 32

pub heap_next : Heap → Ptr → Ptr
heap_next h b = align_up (b + header_bytes + (h b).size) 16

-- `bytes` is at least the size of a header.
pub heap_init : Ptr → ℕ → Heap → Heap
heap_init mem bytes h =
    update h mem (record { magic = heap_magic; flags = 1; size = bytes - header_bytes })

-- Where the search stops, null if nothing fits, and the blocks looked at.
pub record Found : Type 0 where
  pub block : Ptr
  pub steps : ℕ

pub fit_loop : ℕ → Heap → ℕ → ℕ → Ptr → ℕ → Option Found
fit_loop zero h last req b steps = none
fit_loop (suc f) h last req b steps =
    let rest = fit_loop f h last req (heap_next h b) (steps + 1) in
    if not (leb (b + header_bytes) last)
    then some (record { block = null; steps = steps })
    else if not ((h b).magic == heap_magic)
    then some (record { block = null; steps = steps })
    else if not (is_free (h b))
    then rest
    else if ltb (h b).size req
    then rest
    else some (record { block = b; steps = steps + 1 })

-- The block is split if there is room for a header and a payload of 16 bytes.
pub take_block : Ptr → ℕ → Heap → Heap
take_block b req h =
    let payload = b + header_bytes in
    let old_end = align_up (payload + (h b).size) 16 in
    let new_hdr = align_up (payload + req) 16 in
    let new_payload = new_hdr + header_bytes in
    let nb : HeapBlock = record { magic = heap_magic; flags = 1; size = old_end - new_payload } in
    let h1 =
      if leb (new_payload + 16) old_end
      then update (update h new_hdr nb) b (record (h b) { size = req })
      else h in
    update h1 b (set_used (h1 b))

-- `steps` is `none` where `out_steps` is not written.
pub record Allocated : Type 0 where
  pub payload : Ptr
  pub steps : Option ℕ
  pub heap : Heap

pub heap_alloc_first_fit : ℕ → Ptr → ℕ → ℕ → Heap → Option Allocated
heap_alloc_first_fit f heap heap_bytes req h =
    let want = align_up req 16 in
    if heap == null || req == 0
    then some (record { payload = null; steps = none; heap = h })
    else (fit_loop f h (heap + heap_bytes) want heap 0 >>= λ r. some (
        if r.block == null
        then record { payload = null; steps = some r.steps; heap = h }
        else record {
          payload = r.block + header_bytes;
          steps = some r.steps;
          heap = take_block r.block want h;
        }))

-- The block `n` becomes part of the block `b` in front of it.
pub merge : Ptr → Ptr → Heap → Heap
merge b n h =
    let gap = n + header_bytes - (b + header_bytes + (h b).size) in
    update h b (record (h b) { size = (h b).size + gap + (h n).size })

pub coalesce_loop : ℕ → ℕ → Ptr → Heap → Option Heap
coalesce_loop zero last b h = none
coalesce_loop (suc f) last b h =
    let n = heap_next h b in
    let merged = coalesce_loop f last b (merge b n h) in
    let moved = coalesce_loop f last n h in
    if not (leb (b + header_bytes) last) || not ((h b).magic == heap_magic)
    then some h
    else if not (leb (n + header_bytes) last) || not ((h n).magic == heap_magic)
    then some h
    else if is_free (h b) && is_free (h n)
    then merged
    else moved

pub heap_coalesce : ℕ → Ptr → ℕ → Heap → Option Heap
heap_coalesce f heap heap_bytes h = coalesce_loop f (heap + heap_bytes) heap h

pub heap_free : ℕ → Ptr → ℕ → Ptr → Heap → Option Heap
heap_free f heap heap_bytes p h =
    let b = p - header_bytes in
    if heap == null || p == null
    then some h
    else if ltb p (heap + header_bytes) || leb (heap + heap_bytes) p
    then some h
    else if not ((h b).magic == heap_magic)
    then some h
    else heap_coalesce f heap heap_bytes (update h b (set_free (h b)))

-- The three results of `heap_stats`.
pub record HeapStats : Type 0 where
  pub total_free : ℕ
  pub largest_free : ℕ
  pub free_blocks : ℕ

pub count_free : HeapBlock → HeapStats → HeapStats
count_free b s = record {
  total_free = s.total_free + b.size;
  largest_free = if ltb s.largest_free b.size then b.size else s.largest_free;
  free_blocks = s.free_blocks + 1;
}

pub stats_loop : ℕ → Heap → ℕ → Ptr → HeapStats → Option HeapStats
stats_loop zero h last b s = none
stats_loop (suc f) h last b s =
    let skip = stats_loop f h last (heap_next h b) s in
    let visit = stats_loop f h last (heap_next h b) (count_free (h b) s) in
    if not (leb (b + header_bytes) last) || not ((h b).magic == heap_magic)
    then some s
    else if not (is_free (h b))
    then skip
    else visit

pub heap_stats : ℕ → Ptr → ℕ → Heap → Option HeapStats
heap_stats f heap heap_bytes h =
    stats_loop f h (heap + heap_bytes) heap
      (record { total_free = 0; largest_free = 0; free_blocks = 0 })
