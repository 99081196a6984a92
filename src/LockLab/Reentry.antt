-- ===== src/LockLab/Reentry.antt =====
-- A spinlock that the timer's interrupt takes too, with and without masked interrupts: the modes 3
-- and 4 of src/lock_lab.cc.
use micro_kernel_using_c_plu.Prelude.{ℕ, suc, ◌≡◌, ◌≢◌, refl, Bool, true, false, none, some, arith}
use micro_kernel_using_c_plu.Prelude.Store.{null}
use micro_kernel_using_c_plu.Kernel.{Policy}
use micro_kernel_using_c_plu.Spinlock.{Spin, set_lock, disable}
use micro_kernel_using_c_plu.Spinlock.Held.{raw_spin_lock-held, spin_lock-free}
use micro_kernel_using_c_plu.LockLab.{Place, Lab, lock_lab_irq_tick, irq_worker_takes}

module _ (n f : ℕ) (fails : ℕ → Bool) (policy : Policy) (p : Place) (l : Lab) (x : Spin)
    (nl : p.irq_lock ≢ null) (open_lock : x.locks p.irq_lock ≡ 0) (ok : fails n ≡ false) where
  -- In mode 3 the worker takes a free lock with the mask of interrupts left as it is; a timer's
  -- interrupt that comes then, and has not reported yet, never ends.
  pub lock_lab_irq_tick-deadlock :
      (g now : ℕ) (fails' : ℕ → Bool)
      → l.mode ≡ 3
      → l.irq_deadlock_reported ≡ false
      → (l' : Lab) × (y : Spin) × (irq_worker_takes (suc n) fails policy f p l x ≡ some (l', 0, y))
        × (y.daif ≡ x.daif)
        × (lock_lab_irq_tick g fails' p now l' y ≡ none)
  unfolding irq_worker_takes lock_lab_irq_tick
  lock_lab_irq_tick-deadlock g now fails' mode fresh =
      let y = set_lock p.irq_lock 1 (disable x) in
      let held : y.locks p.irq_lock ≢ 0 = λ e. ground arith in
      (
        record l { worker_holding = true },
        y,
        rw (mode, spin_lock-free n fails p.irq_lock x nl open_lock ok policy f) refl,
        refl,
        rw (mode, fresh, raw_spin_lock-held g fails' p.irq_lock y nl held) refl,
      )
