-- ===== src/Sched/Switching.antt =====
-- Switches of `sched_resched_from_irq_tail`, `thread_yield` and `preempt_enable`.
use mathlib.Core.Path.{subst}
use micro_kernel_using_c_plu.Prelude.{
  ap, ◌⊎◌, sym, ℕ, ◌+◌, ◌≤◌, ◌<◌, ◌^◌, ◌≡◌, ◌≢◌, refl, Bool, true, List, some, arith, ◌==◌, ◌∙◌,
  Bool-cases, inl, inr,
}
use micro_kernel_using_c_plu.Prelude.Store.{Ptr, null, has, length}
use micro_kernel_using_c_plu.Kernel.{
  FpRegs, Thread, put_thread, Kernel, Policy, prio, Resume, trampoline, in_yield, in_resched,
  set_need_resched,
}
use micro_kernel_using_c_plu.Runqueue.{is_ready, prio_pick_next, IsQueue}
use micro_kernel_using_c_plu.Runqueue.Scan.{is_ready-ne_null}
use micro_kernel_using_c_plu.Runqueue.Pick.{Leaves, IsPick, prio_pick_next-IsPick}
use micro_kernel_using_c_plu.Fpsimd.{fpsimd_save, load_regs}
use micro_kernel_using_c_plu.Fpsimd.RoundTrip.{
  fpsimd_load-cpu, fpsimd_load-thread, fpsimd_load-regs, fpsimd_save-other, fpsimd_save-regs,
  load_regs-saved,
}
use micro_kernel_using_c_plu.Sched.{
  do_switch, switch_in, need_resched_none, need_resched_rotate, resched_next,
  sched_resched_from_irq_tail, preempt_disable, preempt_enable,
}

switch_in-current :
    (r : Resume) (k : Kernel) → (switch_in r k).cpu.current_thread ≡ k.cpu.current_thread
unfolding switch_in
switch_in-current trampoline k = refl
switch_in-current in_yield k = ap (λ c. c.current_thread) (fpsimd_load-cpu k)
switch_in-current in_resched k = ap (λ c. c.current_thread) (fpsimd_load-cpu k)

pub switch_in-thread : (r : Resume) (k : Kernel) → (switch_in r k).thread ≡ k.thread
unfolding switch_in
switch_in-thread trampoline k = refl
switch_in-thread in_yield k = fpsimd_load-thread k
switch_in-thread in_resched k = fpsimd_load-thread k

-- The state in which `arch_switch` hands over.
abbrev handed_over : Resume → Ptr → Ptr → Kernel → Kernel
handed_over site cur next k =
    let k1 = fpsimd_save k in
    let k2 = record k1 { cpu = record (k1.cpu) { current_thread = next } } in
    put_thread cur (record (k2.thread cur) { resume = site }) k2

pub do_switch-current :
    (site : Resume) (cur next : Ptr) (k : Kernel)
    → (do_switch site cur next k).cpu.current_thread ≡ next
unfolding do_switch
do_switch-current site cur next k =
    switch_in-current ((fpsimd_save k).thread next).resume (handed_over site cur next k)

-- Under the priority policy, with a ready thread queued and preemption enabled, the walks end and
-- the thread that runs afterwards is ready and of highest priority. At the end of a time slice it
-- is another thread if another one has that priority.
pub sched_resched_from_irq_tail-IsPick :
    (f : ℕ) (k : Kernel) (q : List Ptr) (a : Ptr)
    → IsQueue k q
    → length q ≤ f
    → k.cpu.current_thread ≢ null
    → Leaves k q k.cpu.current_thread
    → has a q ≡ true
    → is_ready k a ≡ true
    → k.cpu.preempt_cnt ≡ 0
    → (k' : Kernel) × (sched_resched_from_irq_tail prio f k ≡ some k')
      × IsPick k q k.cpu.current_thread
          (k.cpu.need_resched == need_resched_rotate)
          k'.cpu.current_thread
unfolding sched_resched_from_irq_tail resched_next
sched_resched_from_irq_tail-IsPick f k q a r fuel nn l h is en = elim (Bool-cases (pick.0 == cur)) [
  | inl e ↦ (
    set_need_resched need_resched_none k,
    ground (arith, pick.1),
    subst (IsPick k q cur rotate) (ground arith) pick.2,
  )
  | inr n ↦ (
    do_switch in_resched cur pick.0 k,
    ground (arith, pick.1, is_ready-ne_null k pick.0 pick.2.ready),
    subst (IsPick k q cur rotate) (sym (do_switch-current in_resched cur pick.0 k)) pick.2,
  )
]
  where
    cur : Ptr
    cur = k.cpu.current_thread

    rotate : Bool
    rotate = k.cpu.need_resched == need_resched_rotate

    pick : (t : Ptr) × (prio_pick_next f k cur rotate rotate ≡ some t) × IsPick k q cur rotate t
    pick = prio_pick_next-IsPick f k q cur a rotate rotate r fuel l h is

-- The registers behind a switch: a new thread runs on with those of the thread before it, any
-- other thread has its own loaded.
abbrev pub switched_regs : Resume → Thread → FpRegs → FpRegs
switched_regs trampoline t r = r
switched_regs in_yield t r = load_regs t r
switched_regs in_resched t r = load_regs t r

switch_in-regs :
    (s : Resume) (k : Kernel)
    → k.cpu.current_thread ≢ null
    → (switch_in s k).regs ≡ switched_regs s (k.thread k.cpu.current_thread) k.regs
unfolding switch_in
switch_in-regs trampoline k nn = refl
switch_in-regs in_yield k nn = fpsimd_load-regs k nn
switch_in-regs in_resched k nn = fpsimd_load-regs k nn

handed_over-next :
    (site : Resume) (cur next : Ptr) (k : Kernel)
    → k.cpu.current_thread ≡ cur
    → next ≢ cur
    → ((handed_over site cur next k).thread next ≡ k.thread next)
      × (((fpsimd_save k).thread next).resume ≡ (k.thread next).resume)
handed_over-next site cur next k e ne = ground (arith, fpsimd_save-other k next (λ e'. ne (e' ∙ e)))

-- A switch from the current thread to another leaves a new thread with the registers of the
-- thread before it, and gives any other thread the registers that it saved.
pub do_switch-regs :
    (site : Resume) (cur next : Ptr) (k : Kernel)
    → k.cpu.current_thread ≡ cur
    → next ≢ cur
    → next ≢ null
    → (do_switch site cur next k).regs ≡ switched_regs (k.thread next).resume (k.thread next) k.regs
unfolding do_switch
do_switch-regs site cur next k e ne nn =
    switch_in-regs ((fpsimd_save k).thread next).resume (handed_over site cur next k) nn
    ∙ cc (
      (handed_over-next site cur next k e ne).0,
      (handed_over-next site cur next k e ne).1,
      fpsimd_save-regs k,
    )

thread_switched_out :
    (site : Resume) (cur next : Ptr) (k : Kernel)
    → (do_switch site cur next k).thread cur ≡ record ((fpsimd_save k).thread cur) { resume = site }
unfolding do_switch
thread_switched_out site cur next k =
    ap (λ t. t cur)
      (switch_in-thread ((fpsimd_save k).thread next).resume (handed_over site cur next k))
    ∙ ground arith

abbrev Restores : Kernel → ℕ → FpRegs → Type 0
Restores k i r = (r.q i ≡ k.regs.q i) × (r.fpcr ≡ k.regs.fpcr) × (r.fpsr ≡ k.regs.fpsr)

-- The saved state of a thread: where it goes on, and its FP and SIMD registers.
pub record SameSaved (t u : Thread) : Type 0 where
  pub resume : u.resume ≡ t.resume
  pub valid : u.fpsimd_valid ≡ t.fpsimd_valid
  pub vregs : u.fpsimd_vregs ≡ t.fpsimd_vregs
  pub fpcr : u.fpcr ≡ t.fpcr
  pub fpsr : u.fpsr ≡ t.fpsr

switched_regs-same :
    (s : Resume) (t u : Thread) (r : FpRegs)
    → SameSaved t u
    → switched_regs s u r ≡ switched_regs s t r
unfolding load_regs
switched_regs-same trampoline t u r same = refl
switched_regs-same in_yield t u r same = rw (same.valid, same.vregs, same.fpcr, same.fpsr) refl
switched_regs-same in_resched t u r same = rw (same.valid, same.vregs, same.fpcr, same.fpsr) refl

switched_back :
    (site' site : Resume) (next other : Ptr) (k k2 : Kernel)
    → k.cpu.current_thread ≢ null
    → k2.cpu.current_thread ≡ other
    → k.cpu.current_thread ≢ other
    → SameSaved
        ((do_switch site k.cpu.current_thread next k).thread k.cpu.current_thread)
        (k2.thread k.cpu.current_thread)
    → (do_switch site' other k.cpu.current_thread k2).regs
      ≡ switched_regs site
          (record ((fpsimd_save k).thread k.cpu.current_thread) { resume = site })
          k2.regs
switched_back site' site next other k k2 nn e2 ne same =
    let cur = k.cpu.current_thread in
    let out = (do_switch site cur next k).thread cur in
    do_switch-regs site' other cur k2 e2 ne nn
    ∙ ap (λ s. switched_regs s (k2.thread cur) k2.regs) same.resume
    ∙ switched_regs-same out.resume out (k2.thread cur) k2.regs same
    ∙ ap (λ (u : Thread). switched_regs u.resume u k2.regs) (thread_switched_out site cur next k)

-- A thread that is switched out and later in again finds FPCR, FPSR and every vector register as
-- they were, whatever ran in between and whatever became of its links, its priority and its state,
-- if only where it goes on and its saved FP and SIMD registers were left alone.
pub do_switch-preserves :
    (site site' : Resume) (next other : Ptr) (k k2 : Kernel) (i : ℕ)
    → k.cpu.current_thread ≢ null
    → site ≢ trampoline
    → k2.cpu.current_thread ≡ other
    → k.cpu.current_thread ≢ other
    → SameSaved
        ((do_switch site k.cpu.current_thread next k).thread k.cpu.current_thread)
        (k2.thread k.cpu.current_thread)
    → i < 32
    → let r = (do_switch site' other k.cpu.current_thread k2).regs in
      (r.q i ≡ k.regs.q i) × (r.fpcr ≡ k.regs.fpcr) × (r.fpsr ≡ k.regs.fpsr)
do_switch-preserves trampoline site' next other k k2 i nn ns e2 ne same lt = absurd (ns refl)
do_switch-preserves in_yield site' next other k k2 i nn ns e2 ne same lt =
    subst (Restores k i) (sym (switched_back site' in_yield next other k k2 nn e2 ne same))
      (load_regs-saved k in_yield k2.regs i nn lt)
do_switch-preserves in_resched site' next other k k2 i nn ns e2 ne same lt =
    subst (Restores k i) (sym (switched_back site' in_resched next other k k2 nn e2 ne same))
      (load_regs-saved k in_resched k2.regs i nn lt)

-- `preempt_disable` and `preempt_enable` are inverse to one another, with no switch, if preemption
-- was disabled before or no switch was asked for; the counter must have room for one more.
pub preempt_enable-disable :
    (policy : Policy) (f : ℕ) (k : Kernel)
    → k.cpu.preempt_cnt + 1 < 2 ^ 32
    → (0 < k.cpu.preempt_cnt) ⊎ (k.cpu.need_resched ≡ 0)
    → preempt_enable policy f (preempt_disable k) ≡ some k
unfolding preempt_enable preempt_disable
preempt_enable-disable policy f k room h = ground arith
