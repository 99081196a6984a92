-- ===== src/Spinlock/Held.antt =====
-- A spinlock that is held, and the pairs of src/spinlock.cc that take and release one.
use Prim.Native.Nat.{bit_or}
use micro_kernel_using_c_plu.Prelude.{
  ℕ, suc, ◌≡◌, ◌≢◌, zero, refl, Bool, false, none, some, arith, ◌==◌, ==-false, ==_self,
}
use micro_kernel_using_c_plu.Prelude.Store.{Ptr, null, update}
use micro_kernel_using_c_plu.Kernel.{Kernel, Policy}
use micro_kernel_using_c_plu.Sched.{preempt_disable, preempt_enable}
use micro_kernel_using_c_plu.Sched.Preempt.{IsQuiet}
use micro_kernel_using_c_plu.Sched.Switching.{preempt_enable-disable}
use micro_kernel_using_c_plu.Spinlock.{
  Spin, set_lock, disable, irq_mask, spin_lock, raw_spin_trylock, raw_spin_lock, raw_spin_unlock,
  spin_trylock, spin_lock_irqsave, spin_unlock_irqrestore,
}

back :
    (policy : Policy) (f : ℕ) (k : Kernel)
    → IsQuiet k
    → preempt_enable policy f (preempt_disable k) ≡ some k
back policy f k quiet = preempt_enable-disable policy f k quiet.room quiet.quiet

-- While a lock is held, a trial fails, and leaves the locks, the kernel and the mask as they were.
pub spin_trylock-held :
    (fails : Bool) (policy : Policy) (f : ℕ) (l : Ptr) (x : Spin)
    → l ≢ null
    → x.locks l ≢ 0
    → IsQuiet x.kernel
    → spin_trylock fails policy f l x ≡ some (false, x)
unfolding spin_trylock raw_spin_trylock
spin_trylock-held fails policy f l x nn held quiet =
    rw (==-false l null nn, ==-false (x.locks l) 0 held, back policy f x.kernel quiet) refl

-- With room in the preemption counter, and preemption disabled already or no switch asked for, a
-- free lock is taken by spin_lock_irqsave, unless the store-exclusive fails: it is held then, with
-- preemption disabled once more and interrupts masked, and the flags are the mask before. Released
-- by spin_unlock_irqrestore, it is free, and the kernel, the mask and all locks are as before.
pub spin_lock_irqsave-restore :
    (n f : ℕ) (fails : ℕ → Bool) (policy : Policy) (l : Ptr) (x : Spin)
    → l ≢ null
    → x.locks l ≡ 0
    → fails n ≡ false
    → IsQuiet x.kernel
    → (flags : ℕ) × (y : Spin) × (z : Spin) × (spin_lock_irqsave (suc n) fails l x
        ≡ some (flags, y))
      × (flags ≡ x.daif)
      × (y.locks l ≡ 1)
      × (y.kernel ≡ preempt_disable x.kernel)
      × (y.daif ≡ bit_or x.daif irq_mask)
      × (spin_unlock_irqrestore policy f l flags y ≡ some z)
      × (z.kernel ≡ x.kernel)
      × (z.daif ≡ x.daif)
      × ((a : Ptr) → z.locks a ≡ x.locks a)
unfolding spin_lock_irqsave raw_spin_lock raw_spin_trylock spin_unlock_irqrestore raw_spin_unlock
spin_lock_irqsave-restore n f fails policy l x nn open_lock ok quiet =
    let y : Spin = record {
      locks = update x.locks l 1;
      kernel = preempt_disable x.kernel;
      daif = bit_or x.daif irq_mask;
    } in
    let z : Spin = record { locks = update y.locks l 0; kernel = x.kernel; daif = x.daif } in
    let here : (l == null) ≡ false = ==-false l null nn in
    (
      x.daif,
      y,
      z,
      rw (here, open_lock, ok) refl,
      refl,
      rw (==_self) refl,
      refl,
      refl,
      rw (here, back policy f x.kernel quiet) refl,
      refl,
      refl,
      λ a. ground (arith, open_lock),
    )

module _ (n : ℕ) (fails : ℕ → Bool) (l : Ptr) (x : Spin) (nl : l ≢ null) where
  module _ (open_lock : x.locks l ≡ 0) (ok : fails n ≡ false) where
    pub raw_spin_lock-free : raw_spin_lock (suc n) fails l x ≡ some (set_lock l 1 x)
    unfolding raw_spin_lock raw_spin_trylock
    raw_spin_lock-free = rw (==-false l null nl, open_lock, ok) refl

    pub spin_lock-free :
        (policy : Policy) (f : ℕ)
        → spin_lock (suc n) fails policy f l x ≡ some (set_lock l 1 (disable x))
    unfolding spin_lock raw_spin_trylock
    spin_lock-free policy f = rw (==-false l null nl, open_lock, ok) refl

    pub spin_lock_irqsave-free :
        spin_lock_irqsave (suc n) fails l x
        ≡ some (x.daif, disable (set_lock l 1 (record x { daif = bit_or x.daif irq_mask })))
    unfolding spin_lock_irqsave raw_spin_lock raw_spin_trylock
    spin_lock_irqsave-free = rw (==-false l null nl, open_lock, ok) refl

  pub raw_spin_unlock_lem : raw_spin_unlock l x ≡ set_lock l 0 x
  unfolding raw_spin_unlock
  raw_spin_unlock_lem = rw (==-false l null nl) refl

-- A held lock is waited for without end.
pub raw_spin_lock-held :
    (n : ℕ) (fails : ℕ → Bool) (l : Ptr) (x : Spin)
    → l ≢ null
    → x.locks l ≢ 0
    → raw_spin_lock n fails l x ≡ none
unfolding raw_spin_lock raw_spin_trylock
raw_spin_lock-held zero fails l x nl held = refl
raw_spin_lock-held (suc n) fails l x nl held =
    rw (==-false l null nl, ==-false (x.locks l) 0 held) (raw_spin_lock-held n fails l x nl held)

-- The release of a lock that was taken with interrupts masked.
pub spin_unlock_irqrestore-back :
    (policy : Policy) (f : ℕ) (l : Ptr) (x : Spin) (locks : Ptr → ℕ) (daif : ℕ)
    → l ≢ null
    → IsQuiet x.kernel
    → spin_unlock_irqrestore policy f l x.daif
        (record { locks = locks; kernel = preempt_disable x.kernel; daif = daif })
      ≡ some (record x { locks = update locks l 0 })
unfolding spin_unlock_irqrestore raw_spin_unlock
spin_unlock_irqrestore-back policy f l x locks daif nl quiet =
    rw (==-false l null nl, back policy f x.kernel quiet) refl
