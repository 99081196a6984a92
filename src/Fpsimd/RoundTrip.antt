-- ===== src/Fpsimd/RoundTrip.antt =====
-- What a thread saves it gets back, whatever ran in between.
use mathlib.Core.List.{foldl}
use micro_kernel_using_c_plu.Prelude.{
  ℕ, zero, suc, ◌+◌, ◌*◌, ◌<◌, ◌≡◌, ◌≢◌, refl, Bool, true, false, ◌||◌, ap, ==_self, ==-false, ◌∙◌,
  ◌&&◌, ltb, List, [], ◌∷◌, arith, if◌then◌else◌, ◌==◌,
}
use micro_kernel_using_c_plu.Prelude.Store.{Ptr, null, update}
use micro_kernel_using_c_plu.Kernel.{Resume, FpRegs, Thread, Kernel}
use micro_kernel_using_c_plu.Fpsimd.{
  Pair, pairs, stp, ldp, clear_regs, fpsimd_save, load_regs, fpsimd_load,
}

abbrev covered : ℕ → List Pair → Bool
covered i [] = false
covered i (p ∷ ps) = (p.a == i) || (p.b == i) || covered i ps

-- Each line moves a register and its successor to their own slots.
abbrev Aligned : List Pair → Type 0
Aligned [] = Unit {0}
Aligned (p ∷ ps) = (p.offset ≡ 16 * p.a) × (p.b ≡ p.a + 1) × Aligned ps

foldl-stp :
    (ps : List Pair) (q slots : ℕ → ℕ) (i : ℕ)
    → Aligned ps
    → foldl (stp q) slots ps i ≡ (if covered i ps then q i else slots i)
unfolding stp
foldl-stp [] q slots i al = refl
foldl-stp (p ∷ ps) q slots i al = ground (arith, foldl-stp ps q (stp q slots p) i al.2)

foldl-ldp :
    (ps : List Pair) (slots q : ℕ → ℕ) (i : ℕ)
    → Aligned ps
    → foldl (ldp slots) q ps i ≡ (if covered i ps then slots i else q i)
unfolding ldp
foldl-ldp [] slots q i al = refl
foldl-ldp (p ∷ ps) slots q i al = ground (arith, foldl-ldp ps slots (ldp slots q p) i al.2)

clear_regs-zero : (n : ℕ) (q : ℕ → ℕ) (i : ℕ) → clear_regs n q i ≡ (if ltb i n then 0 else q i)
unfolding clear_regs
clear_regs-zero zero q i = ground arith
clear_regs-zero (suc n) q i = ground (arith, clear_regs-zero n (update q n 0) i)

all_below : ℕ → (ℕ → Bool) → Bool
all_below zero test = true
all_below (suc n) test = test n && all_below n test

all_below_sound :
    (n : ℕ) (test : ℕ → Bool) (i : ℕ) → all_below n test ≡ true → i < n → test i ≡ true
unfolding all_below
all_below_sound zero test i h lt = absurd (omega arith)
all_below_sound (suc n) test i h lt = ground (arith, all_below_sound n test i)

covers : all_below 32 (λ i. covered i pairs) ≡ true
unfolding all_below
covers = refl

pairs-covered : (i : ℕ) → i < 32 → covered i pairs ≡ true
pairs-covered i lt = all_below_sound 32 (λ j. covered j pairs) i covers lt

pairs-Aligned : Aligned pairs
pairs-Aligned = omega arith

pub save_slot :
    (k : Kernel) (i : ℕ)
    → k.cpu.current_thread ≢ null
    → i < 32
    → ((fpsimd_save k).thread k.cpu.current_thread).fpsimd_vregs i ≡ k.regs.q i
unfolding fpsimd_save
save_slot k i cur lt = ground (
  arith,
  foldl-stp pairs k.regs.q (k.thread k.cpu.current_thread).fpsimd_vregs i pairs-Aligned,
  pairs-covered i lt,
)

pub load_slot :
    (t : Thread) (r : FpRegs) (i : ℕ)
    → t.fpsimd_valid ≡ true
    → i < 32
    → (load_regs t r).q i ≡ t.fpsimd_vregs i
unfolding load_regs
load_slot t r i valid lt =
    rw (valid, foldl-ldp pairs t.fpsimd_vregs r.q i pairs-Aligned, pairs-covered i lt)

-- The registers that `fpsimd_load` puts in after a save and a change of registers.
abbrev pub reloaded : Kernel → FpRegs → FpRegs
reloaded k r = (fpsimd_load (record (fpsimd_save k) { regs = r })).regs

pub fpsimd_load-regs :
    (k : Kernel)
    → k.cpu.current_thread ≢ null
    → (fpsimd_load k).regs ≡ load_regs (k.thread k.cpu.current_thread) k.regs
unfolding fpsimd_load
fpsimd_load-regs k cur = rw (==-false k.cpu.current_thread null cur)

pub fpsimd_save-cpu : (k : Kernel) → (fpsimd_save k).cpu ≡ k.cpu
unfolding fpsimd_save
fpsimd_save-cpu k = ground arith

-- A save leaves the links and the states of all threads alone.
pub fpsimd_save-links :
    (k : Kernel) (a : Ptr)
    → (((fpsimd_save k).thread a).next ≡ (k.thread a).next)
      × (((fpsimd_save k).thread a).state ≡ (k.thread a).state)
unfolding fpsimd_save
fpsimd_save-links k a = ground arith

pub fpsimd_load-cpu : (k : Kernel) → (fpsimd_load k).cpu ≡ k.cpu
unfolding fpsimd_load
fpsimd_load-cpu k = ground arith

pub fpsimd_load-thread : (k : Kernel) → (fpsimd_load k).thread ≡ k.thread
unfolding fpsimd_load
fpsimd_load-thread k = ground arith

-- A save writes to the current thread alone, and there not to the resume point.
pub fpsimd_save-other :
    (k : Kernel) (t : Ptr) → t ≢ k.cpu.current_thread → (fpsimd_save k).thread t ≡ k.thread t
unfolding fpsimd_save
fpsimd_save-other k t ne = ground arith

pub fpsimd_save-regs : (k : Kernel) → (fpsimd_save k).regs ≡ k.regs
unfolding fpsimd_save
fpsimd_save-regs k = ground arith

reloaded_lem :
    (k : Kernel) (r : FpRegs)
    → k.cpu.current_thread ≢ null
    → reloaded k r ≡ load_regs ((fpsimd_save k).thread k.cpu.current_thread) r
reloaded_lem k r cur =
    fpsimd_load-regs (record (fpsimd_save k) { regs = r }) (rw (fpsimd_save-cpu k) cur)
    ∙ ap (λ c. load_regs ((fpsimd_save k).thread c.current_thread) r) (fpsimd_save-cpu k)

pub saved :
    (k : Kernel)
    → k.cpu.current_thread ≢ null
    → let t = (fpsimd_save k).thread k.cpu.current_thread in
      (t.fpsimd_valid ≡ true) × (t.fpcr ≡ k.regs.fpcr) × (t.fpsr ≡ k.regs.fpsr)
unfolding fpsimd_save
saved k cur = rw (==-false k.cpu.current_thread null cur, ==_self) (refl, refl, refl)

-- Loading what a thread saved, with another resume point.
pub load_regs-saved :
    (k : Kernel) (s : Resume) (r : FpRegs) (i : ℕ)
    → k.cpu.current_thread ≢ null
    → i < 32
    → let l = load_regs (record ((fpsimd_save k).thread k.cpu.current_thread) { resume = s }) r in
      (l.q i ≡ k.regs.q i) × (l.fpcr ≡ k.regs.fpcr) × (l.fpsr ≡ k.regs.fpsr)
load_regs-saved k s r i cur lt = (
  load_slot t r i (saved k cur).0 lt ∙ save_slot k i cur lt,
  unfold load_regs in (saved k cur).1,
  unfold load_regs in (saved k cur).2,
)
  where
    t : Thread
    t = record ((fpsimd_save k).thread k.cpu.current_thread) { resume = s }

-- Every vector register, FPCR and FPSR of a thread come back as they were saved, whatever the
-- registers held in between.
pub fpsimd_load-save :
    (k : Kernel) (r : FpRegs) (i : ℕ)
    → k.cpu.current_thread ≢ null
    → i < 32
    → ((reloaded k r).q i ≡ k.regs.q i)
      × ((reloaded k r).fpcr ≡ k.regs.fpcr)
      × ((reloaded k r).fpsr ≡ k.regs.fpsr)
fpsimd_load-save k r i cur lt =
    rw (reloaded_lem k r cur)
      (load_regs-saved k ((fpsimd_save k).thread k.cpu.current_thread).resume r i cur lt)

-- A thread that never saved anything gets cleared vector registers when they are loaded.
pub load_regs-cleared :
    (t : Thread) (r : FpRegs) (i : ℕ) → t.fpsimd_valid ≡ false → i < 32 → (load_regs t r).q i ≡ 0
unfolding load_regs
load_regs-cleared t r i fresh lt = rw fresh (ground (arith, clear_regs-zero 32 r.q i))
