-- ===== src/Dma.antt =====
-- src/dma.cc and include/dma.h: the descriptor queue, the two allocators of the DMA window, and
-- the copy that stands for the device. Cache maintenance and barriers are a list of operations, in
-- order; what they do to a cache is not modelled, nor is the log on the UART. What a callback does
-- is an argument, `call`.
pub mod Window
pub mod Alloc
pub mod Copied
pub mod Served
pub mod Queue
use micro_kernel_using_c_plu.Prelude.{
  ℕ, zero, suc, ◌+◌, ◌-◌, ◌%◌, ◌^◌, Bool, true, false, not, ◌&&◌, ◌||◌, Option, none, some, ltb,
  leb, ◌==◌, if◌then◌else◌, List, [], ◌∷◌, ◌++◌, ◌>>=◌,
}
use micro_kernel_using_c_plu.Prelude.Int.{ℤ, pos, negsuc}
use micro_kernel_using_c_plu.Prelude.Store.{Ptr, null, update}
use micro_kernel_using_c_plu.Prelude.Align.{is_pow2, align_down, align_up}
use micro_kernel_using_c_plu.Stack.{Memory}

-- DMA_WINDOW_POLICY, the window that the linker gives, and whether the MMU translates.
pub record Setup : Type 0 where
  pub noncacheable : Bool
  pub window_start : ℕ
  pub window_end : ℕ
  pub translation : Bool

abbrev pub normal_start : ℕ
normal_start = 0x4000_0000

abbrev pub normal_end : ℕ
normal_end = 0x8000_0000

abbrev pub alias_end : ℕ
alias_end = 0xc000_0000

abbrev pub alias_offset : ℕ
alias_offset = 0x4000_0000

-- `start + (len - 1u)` in 64 bits.
abbrev pub last_byte : ℕ → ℕ → ℕ
last_byte start len = (start + (len - 1)) % 2 ^ 64

unfoldable pub dma_window_contains_range : Setup → ℕ → ℕ → Bool
dma_window_contains_range s p len =
    if (p == 0) || (len == 0)
    then false
    else if ltb (last_byte p len) p
    then false
    else leb s.window_start p && ltb (last_byte p len) s.window_end

pub dma_window_to_nocache_alias : Setup → ℕ → ℕ → ℕ
dma_window_to_nocache_alias s p len =
    if not (dma_window_contains_range s p len) then 0 else (p + alias_offset) % 2 ^ 64

pub dma_window_from_nocache_alias : Setup → ℕ → ℕ → ℕ
dma_window_from_nocache_alias s p len =
    let base = (p + 2 ^ 64 - alias_offset) % 2 ^ 64 in
    if (p == 0) || (len == 0)
    then 0
    else if ltb p base
    then 0
    else if dma_window_contains_range s base len
    then base
    else 0

unfoldable pub dma_cache_maint_allowed : Setup → ℕ → ℕ → Bool
dma_cache_maint_allowed s buf len =
    let end = last_byte buf len in
    if (buf == 0) || (len == 0)
    then false
    else if ltb end buf
    then false
    else if leb normal_end buf && ltb end alias_end
    then false
    else if not (leb normal_start buf && ltb end normal_end)
    then false
    else if s.noncacheable && leb s.window_start end && ltb buf s.window_end
    then false
    else true

pub dma_device_view : Setup → ℕ → ℕ → ℕ
dma_device_view s buf len =
    let end = last_byte buf len in
    if (buf == 0) || (len == 0)
    then buf
    else if not s.translation
    then buf
    else if ltb end buf
    then buf
    else if leb normal_end buf && ltb end alias_end
    then buf
    else if leb normal_start buf && ltb end normal_end
    then (buf + alias_offset) % 2 ^ 64
    else buf

pub data Maintenance : Type 0 where
  clean : ℕ → ℕ → Maintenance
  invalidate : ℕ → ℕ → Maintenance
  write_barrier read_barrier : Maintenance

pub record Desc : Type 0 where
  pub src : ℕ
  pub dst : ℕ
  pub len : ℕ
  pub status : ℕ
  pub cb : ℕ
  pub user : ℕ
  pub next : Ptr

abbrev pub desc_size : ℕ
desc_size = 56

pub record Dma : Type 0 where
  pub desc : Ptr → Desc
  pub memory : Memory
  pub desc_next : ℕ
  pub buf_end : ℕ
  pub pending_head : Ptr
  pub pending_tail : Ptr
  pub maintenance : List Maintenance

abbrev pub emit : List Maintenance → Dma → Dma
emit ops d = record d { maintenance = d.maintenance ++ ops }

pub dma_prepare_to_device : Setup → ℕ → ℕ → Dma → Dma
dma_prepare_to_device s buf len d =
    emit
      (if dma_cache_maint_allowed s buf len
        then clean buf len ∷ write_barrier ∷ []
        else write_barrier ∷ [])
      d

pub dma_complete_from_device : Setup → ℕ → ℕ → Dma → Dma
dma_complete_from_device s buf len d =
    emit
      (if dma_cache_maint_allowed s buf len
        then read_barrier ∷ invalidate buf len ∷ []
        else read_barrier ∷ [])
      d

-- Byte i and on, for `n` bytes, lowest first.
pub dma_memcpy : ℕ → ℕ → ℕ → ℕ → Memory → Memory
dma_memcpy zero dst src i m = m
dma_memcpy (suc n) dst src i m = dma_memcpy n dst src (i + 1) (update m (dst + i) (m (src + i)))

-- `null` if the window is full.
unfoldable pub dma_alloc_desc : Dma → Ptr × Dma
dma_alloc_desc d =
    let aligned = align_up d.desc_next 8 in
    if ltb d.buf_end (aligned + desc_size)
    then (null, d)
    else (aligned, record d { desc_next = aligned + desc_size })

pub dma_alloc_buffer : ℕ → ℕ → Dma → Ptr × Dma
dma_alloc_buffer len align d =
    let align' = if align == 0 then 1 else align in
    let start = align_down (d.buf_end - len) align' in
    if len == 0
    then (null, d)
    else if not (is_pow2 align')
    then (null, d)
    else if ltb d.buf_end len
    then (null, d)
    else if ltb start d.desc_next
    then (null, d)
    else (start, record d { buf_end = start })

-- `desc` goes behind the last pending descriptor.
pub enqueue : Ptr → Dma → Dma
enqueue p d =
    if d.pending_tail == null then record d { pending_head = p; pending_tail = p } else record d {
      desc = update d.desc d.pending_tail (record (d.desc d.pending_tail) { next = p });
      pending_tail = p;
    }

pub submit_desc : Setup → Ptr → Desc → Dma → Dma
submit_desc s p new d =
    let d1 = record d { desc = update d.desc p new } in
    let d2 = dma_prepare_to_device s p desc_size (dma_prepare_to_device s new.src new.len d1) in
    let d3 = enqueue p d2 in
    if d2.pending_tail == null then d3 else dma_prepare_to_device s d2.pending_tail desc_size d3

-- The results are 0, -1 and -2.
pub dma_submit_memcpy : Setup → ℕ → ℕ → ℕ → ℕ → ℕ → Dma → ℤ × Dma
dma_submit_memcpy s dst src len cb user d =
    let (p, d1) = dma_alloc_desc d in
    if (dst == 0) || (src == 0) || (len == 0)
    then (negsuc 0, d)
    else if p == null
    then (negsuc 1, d1)
    else (
      pos 0,
      submit_desc s p
          (record {
            src = src;
            dst = dst;
            len = len;
            status = 1;
            cb = cb;
            user = user;
            next = null;
          })
          d1,
    )

-- The device's copy of one descriptor, with the maintenance around it.
pub copy_desc : Setup → Desc → Dma → Dma
copy_desc s t d =
    let dev_dst = dma_device_view s t.dst t.len in
    let dev_src = dma_device_view s t.src t.len in
    let d1 = record d { memory = dma_memcpy t.len dev_dst dev_src 0 d.memory } in
    let d2 =
      if (dev_dst == t.dst) && dma_cache_maint_allowed s t.dst t.len
      then emit (clean t.dst t.len ∷ []) d1
      else d1 in
    if t.len == 0 then d else dma_complete_from_device s t.dst t.len d2

-- The head leaves the queue, unlinked.
pub dequeue : Dma → Dma
dequeue d =
    let p = d.pending_head in
    let after = (d.desc p).next in
    record d {
      pending_head = after;
      pending_tail = if after == null then null else d.pending_tail;
      desc = update d.desc p (record (d.desc p) { next = null });
    }

-- One round of the loop.
pub complete_head : Setup → (ℕ → ℕ → Dma → Dma) → Dma → Dma
complete_head s call d =
    let p = d.pending_head in
    let d1 = copy_desc s (d.desc p) (dequeue d) in
    let d2 = record d1 { desc = update d1.desc p (record (d1.desc p) { status = 0 }) } in
    let d3 = dma_prepare_to_device s p desc_size d2 in
    if (d3.desc p).cb == 0 then d3 else call (d3.desc p).cb (d3.desc p).user d3

unfoldable pub dma_poll_complete : ℕ → Setup → (ℕ → ℕ → Dma → Dma) → Dma → Option Dma
dma_poll_complete zero s call d = none
dma_poll_complete (suc f) s call d =
    let rest = dma_poll_complete f s call (complete_head s call d) in
    if d.pending_head == null then some d else rest
