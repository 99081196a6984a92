-- ===== src/Stack.antt =====
-- The stack diagnostics of src/thread.cc over byte memory: the guard pattern at the bottom of a
-- stack, and the watermark above it. The memory of a stack does not wrap round the address space.
pub mod Fresh
pub mod Guard
pub mod Watermark
use micro_kernel_using_c_plu.Prelude.{
  ℕ, zero, suc, ◌+◌, ◌-◌, ◌*◌, ◌/◌, ◌%◌, ◌^◌, Bool, true, false, not, ◌&&◌, ◌||◌, ltb, leb, ◌==◌,
  if◌then◌else◌,
}
use micro_kernel_using_c_plu.Prelude.Store.{update}

-- A byte at each address.
abbrev pub Memory : Type 0
Memory = ℕ → ℕ

abbrev pub stack_guard_magic : ℕ
stack_guard_magic = 0x737461636b677561

abbrev pub stack_guard_bytes : ℕ
stack_guard_bytes = 64

abbrev pub stack_watermark : ℕ
stack_watermark = 0xa5

-- `(kStackGuardMagic >> (i * 8)) & 0xFF`
unfoldable pub magic_byte : ℕ → ℕ
magic_byte i = stack_guard_magic / 2 ^ (i * 8) % 256

-- A little-endian 64-bit store and load.
unfoldable pub store64 : Memory → ℕ → ℕ → Memory
store64 m p v a = if leb p a && ltb a (p + 8) then v / 2 ^ ((a - p) * 8) % 256 else m a

pub load64 : Memory → ℕ → ℕ
load64 m p =
    m p
    + m (p + 1) * 2 ^ 8
    + m (p + 2) * 2 ^ 16
    + m (p + 3) * 2 ^ 24
    + m (p + 4) * 2 ^ 32
    + m (p + 5) * 2 ^ 40
    + m (p + 6) * 2 ^ 48
    + m (p + 7) * 2 ^ 56

-- `size >= kStackGuardBytes ? kStackGuardBytes : size`
unfoldable pub guard_size : ℕ → ℕ
guard_size size = if leb stack_guard_bytes size then stack_guard_bytes else size

-- The bytes p[off + i] for the n values of i from `i` on.
pub write_tail : ℕ → Memory → ℕ → ℕ → Memory
write_tail zero m at i = m
write_tail (suc n) m at i = write_tail n (update m (at + i) (magic_byte i)) at (i + 1)

-- One round of the guard loop.
pub write_round : Memory → ℕ → ℕ → ℕ → Memory
write_round m p guard off =
    if ltb (guard - off) 8
    then write_tail (guard - off) m (p + off) 0
    else store64 m (p + off) stack_guard_magic

-- The rounds of the guard loop from `off` on.
pub write_guard : ℕ → Memory → ℕ → ℕ → ℕ → Memory
write_guard zero m p guard off = m
write_guard (suc n) m p guard off = write_guard n (write_round m p guard off) p guard (off + 8)

pub fill : ℕ → Memory → ℕ → Memory
fill zero m at = m
fill (suc n) m at = fill n (update m at stack_watermark) (at + 1)

pub stack_init_guard_and_watermark : Memory → ℕ → ℕ → Memory
stack_init_guard_and_watermark m base size =
    if (base == 0) || (size == 0)
    then m
    else fill (size - guard_size size)
        (write_guard ((guard_size size + 7) / 8) m base (guard_size size) 0)
        (base + guard_size size)

pub check_tail : ℕ → Memory → ℕ → ℕ → Bool
check_tail zero m at i = true
check_tail (suc n) m at i = (m (at + i) == magic_byte i) && check_tail n m at (i + 1)

pub check_round : Memory → ℕ → ℕ → ℕ → Bool
check_round m p guard off =
    if ltb (guard - off) 8
    then check_tail (guard - off) m (p + off) 0
    else load64 m (p + off) == stack_guard_magic

pub check_guard : ℕ → Memory → ℕ → ℕ → ℕ → Bool
check_guard zero m p guard off = true
check_guard (suc n) m p guard off = check_round m p guard off && check_guard n m p guard (off + 8)

-- `t->stack_base` and `t->stack_size` are the arguments.
unfoldable pub stack_guard_ok : Memory → ℕ → ℕ → Bool
stack_guard_ok m base size =
    if (base == 0) || (size == 0)
    then true
    else check_guard ((guard_size size + 7) / 8) m base (guard_size size) 0

-- The bytes from `at` on that still hold the watermark.
pub count_unused : ℕ → Memory → ℕ → ℕ
count_unused zero m at = 0
count_unused (suc n) m at =
    let rest = count_unused n m (at + 1) in if m at == stack_watermark then suc rest else 0

pub stack_high_watermark_bytes : Memory → ℕ → ℕ → ℕ
stack_high_watermark_bytes m base size =
    if (base == 0) || (size == 0)
    then 0
    else if leb size stack_guard_bytes
    then size
    else (let usable = size - stack_guard_bytes in
        let unused = count_unused usable m (base + stack_guard_bytes) in
        if leb unused usable then usable - unused else usable)
