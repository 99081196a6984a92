-- ===== src/Spinlock.antt =====
-- src/spinlock.cc: spinlocks on one core, with the preemption counter of src/preempt.cc and the
-- interrupt mask of include/arch/irqflags.h. A store-exclusive may fail without a reason, which
-- the argument `fails` decides for each trial. The order of memory accesses is not modelled.
pub mod Held
use Prim.Native.Nat.{bit_or}
use micro_kernel_using_c_plu.Prelude.{
  ℕ, zero, suc, ◌+◌, Bool, true, false, not, ◌&&◌, ◌||◌, Option, none, some, ◌==◌, if◌then◌else◌,
  ◌>>=◌,
}
use micro_kernel_using_c_plu.Prelude.Int.{ℤ, pos, negsuc}
use micro_kernel_using_c_plu.Prelude.Store.{Ptr, null, update}
use micro_kernel_using_c_plu.Kernel.{Kernel, Policy, is_null}
use micro_kernel_using_c_plu.Sched.{preempt_disable, preempt_enable}

-- The word of each lock, the kernel, and the register DAIF.
pub record Spin : Type 0 where
  pub locks : Ptr → ℕ
  pub kernel : Kernel
  pub daif : ℕ

abbrev pub set_lock : Ptr → ℕ → Spin → Spin
set_lock l v x = record x { locks = update x.locks l v }

abbrev pub set_kernel : Kernel → Spin → Spin
set_kernel k x = record x { kernel = k }

pub raw_spin_init : Ptr → Spin → Spin
raw_spin_init l x = if is_null l then x else set_lock l 0 x

-- Whether the lock was taken, for the results 0 and -1.
pub raw_spin_trylock : Bool → Ptr → Spin → Bool × Spin
raw_spin_trylock fails l x =
    if is_null l
    then (false, x)
    else if not (x.locks l == 0)
    then (false, x)
    else if fails
    then (false, x)
    else (true, set_lock l 1 x)

-- The trial in round n fails as `fails n` says; the inner loop only waits for the word.
pub raw_spin_lock : ℕ → (ℕ → Bool) → Ptr → Spin → Option Spin
raw_spin_lock zero fails l x = none
raw_spin_lock (suc n) fails l x =
    let t = raw_spin_trylock (fails n) l x in
    let rest = raw_spin_lock n fails l t.1 in
    if is_null l then some x else if t.0 then some t.1 else rest

pub raw_spin_unlock : Ptr → Spin → Spin
raw_spin_unlock l x = if is_null l then x else set_lock l 0 x

pub spin_init : Ptr → Spin → Spin
spin_init l x = if is_null l then x else raw_spin_init l x

abbrev pub enable : Policy → ℕ → Spin → Option Spin
enable policy f x = preempt_enable policy f x.kernel >>= λ k. some (set_kernel k x)

abbrev pub disable : Spin → Spin
disable x = set_kernel (preempt_disable x.kernel) x

pub spin_lock : ℕ → (ℕ → Bool) → Policy → ℕ → Ptr → Spin → Option Spin
spin_lock zero fails policy f l x = none
spin_lock (suc n) fails policy f l x =
    let t = raw_spin_trylock (fails n) l (disable x) in
    let rest = enable policy f t.1 >>= λ y. spin_lock n fails policy f l y in
    if is_null l then some x else if t.0 then some t.1 else rest

-- Whether the lock was taken, and the state.
pub spin_trylock : Bool → Policy → ℕ → Ptr → Spin → Option (Bool × Spin)
spin_trylock fails policy f l x =
    let t = raw_spin_trylock fails l (disable x) in
    if is_null l
    then some (false, x)
    else if t.0
    then some (true, t.1)
    else (enable policy f t.1 >>= λ y. some (false, y))

pub spin_unlock : Policy → ℕ → Ptr → Spin → Option Spin
spin_unlock policy f l x = if is_null l then some x else enable policy f (raw_spin_unlock l x)

-- The mask of interrupts in DAIF.
abbrev pub irq_mask : ℕ
irq_mask = 128

-- The flags to restore, and the state.
pub spin_lock_irqsave : ℕ → (ℕ → Bool) → Ptr → Spin → Option (ℕ × Spin)
spin_lock_irqsave n fails l x =
    if is_null l
    then some (0, x)
    else (raw_spin_lock n fails l (record x { daif = bit_or x.daif irq_mask }) >>= λ y.
        some (x.daif, disable y))

pub spin_unlock_irqrestore : Policy → ℕ → Ptr → ℕ → Spin → Option Spin
spin_unlock_irqrestore policy f l flags x =
    if is_null l then some x else enable policy f (record (raw_spin_unlock l x) { daif = flags })
