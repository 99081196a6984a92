-- ===== src/Sync/Lockdep.antt =====
-- `lockdep_would_deadlock` of src/sync.cc: the search for a cycle of waiting threads.
use mathlib.Core.Path.{subst}
use micro_kernel_using_c_plu.Prelude.{
  ℕ, zero, suc, ◌<◌, ◌≡◌, ◌≢◌, ◌↔◌, refl, sym, ◌∙◌, true, arith, ◌==◌, ==-false, Bool-cases, inl,
  inr,
}
use micro_kernel_using_c_plu.Prelude.Store.{Ptr, null}
use micro_kernel_using_c_plu.Kernel.{Kernel}
use micro_kernel_using_c_plu.Sync.{lockdep_loop, lockdep_would_deadlock}

-- The owner of the mutex that the thread waits for.
abbrev pub blocker : Kernel → Ptr → Ptr
blocker k t = (k.mutex (k.thread t).waiting_on).owner

-- `t` waits, over n threads, for `u`.
pub data WaitsFor (k : Kernel) (u : Ptr) : ℕ → Ptr → Type 0 where
  here : WaitsFor k u 0 u
  over :
      {n : ℕ} (t : Ptr)
      → t ≢ null
      → (k.thread t).waiting_on ≢ null
      → WaitsFor k u n (blocker k t)
      → WaitsFor k u (suc n) t

loop-WaitsFor :
    (depth : ℕ) (k : Kernel) (cur t : Ptr)
    → cur ≢ null
    → lockdep_loop depth k cur t ≡ true
    → (n : ℕ) × (n < depth) × WaitsFor k cur n t
unfolding lockdep_loop
loop-WaitsFor zero k cur t nc e = absurd cc
loop-WaitsFor (suc depth) k cur t nc e = elim (Bool-cases (t == cur)) [
  | inl same ↦ let at : cur ≡ t = ground arith in (0, omega arith, subst (WaitsFor k cur 0) at here)
  | inr other ↦
      let nt : t ≢ null = λ z. ground arith in
      let nw : (k.thread t).waiting_on ≢ null = λ z. ground arith in
      let (n, lt, w) = loop-WaitsFor depth k cur (blocker k t) nc (ground arith) in
      (suc n, omega arith, over t nt nw w)
]

WaitsFor-loop :
    (depth : ℕ) (k : Kernel) (cur : Ptr) {n : ℕ} {t : Ptr}
    → cur ≢ null
    → n < depth
    → WaitsFor k cur n t
    → lockdep_loop depth k cur t ≡ true
unfolding lockdep_loop
WaitsFor-loop zero k cur nc lt w = absurd (omega arith)
WaitsFor-loop (suc depth) k cur nc lt here = ground arith
WaitsFor-loop (suc depth) k cur nc lt (over t nt nw w) =
    ground (arith, WaitsFor-loop depth k cur nc (omega arith) w)

would_deadlock_lem :
    (k : Kernel) (cur m : Ptr)
    → cur ≢ null
    → m ≢ null
    → lockdep_would_deadlock k cur m ≡ lockdep_loop 16 k cur (k.mutex m).owner
unfolding lockdep_would_deadlock
would_deadlock_lem k cur m nc nm = rw (==-false cur null nc, ==-false m null nm) refl

-- lockdep_would_deadlock says yes exactly if a chain of fewer than 16 waiting threads leads from
-- the owner of the mutex back to the thread that asks for it.
pub lockdep_would_deadlock_iff :
    (k : Kernel) (cur m : Ptr)
    → cur ≢ null
    → m ≢ null
    → (lockdep_would_deadlock k cur m ≡ true)
      ↔ ((n : ℕ) × (n < 16) × WaitsFor k cur n (k.mutex m).owner)
lockdep_would_deadlock_iff k cur m nc nm =
    let run = would_deadlock_lem k cur m nc nm in
    (
      λ e. loop-WaitsFor 16 k cur (k.mutex m).owner nc (sym run ∙ e),
      λ (n, lt, w). run ∙ WaitsFor-loop 16 k cur nc lt w,
    )
