-- ===== src/Libc.antt =====
-- src/libc.cc: the four memory functions, over memory as a function from addresses to bytes. A
-- range that runs over the top of the address space is not modelled.
pub mod Moves
pub mod Compare
use micro_kernel_using_c_plu.Prelude.{
  ℕ, zero, suc, ◌+◌, ◌%◌, Bool, true, false, ◌||◌, ltb, ◌==◌, if◌then◌else◌,
}
use micro_kernel_using_c_plu.Prelude.Int.{ℤ, pos, negsuc}
use micro_kernel_using_c_plu.Prelude.Store.{update}
use micro_kernel_using_c_plu.Stack.{Memory}

-- Byte i and on, for n bytes, upwards.
pub set_up : ℕ → ℕ → ℕ → ℕ → Memory → Memory
set_up zero p i v m = m
set_up (suc n) p i v m = set_up n p (i + 1) v (update m (p + i) v)

-- The result, `dst`, is left out, as in the next two functions.
pub memset : ℕ → ℕ → ℕ → Memory → Memory
memset dst c n m = set_up n dst 0 (c % 256) m

pub copy_up : ℕ → ℕ → ℕ → ℕ → Memory → Memory
copy_up zero d s i m = m
copy_up (suc n) d s i m = copy_up n d s (i + 1) (update m (d + i) (m (s + i)))

pub memcpy : ℕ → ℕ → ℕ → Memory → Memory
memcpy dst src n m = copy_up n dst src 0 m

-- From byte n - 1 down.
pub copy_down : ℕ → ℕ → ℕ → Memory → Memory
copy_down zero d s m = m
copy_down (suc n) d s m = copy_down n d s (update m (d + n) (m (s + n)))

pub memmove : ℕ → ℕ → ℕ → Memory → Memory
memmove dst src n m =
    if (dst == src) || (n == 0)
    then m
    else if ltb dst src
    then copy_up n dst src 0 m
    else copy_down n dst src m

pub compare_up : ℕ → ℕ → ℕ → ℕ → Memory → ℤ
compare_up zero a b i m = pos 0
compare_up (suc n) a b i m =
    let rest = compare_up n a b (i + 1) m in
    if m (a + i) == m (b + i) then rest else if ltb (m (a + i)) (m (b + i)) then negsuc 0 else pos 1

pub memcmp : ℕ → ℕ → ℕ → Memory → ℤ
memcmp a b n m = compare_up n a b 0 m
