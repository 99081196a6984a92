-- ===== src/Fpsimd.antt =====
-- src/arch/aarch64/fpsimd.cc: saving and restoring the vector registers of the current thread.
-- A slot is 16 bytes of `fpsimd_vregs`; an `stp` or `ldp` at offset 16 s moves slots s and s + 1.
pub mod RoundTrip
use mathlib.Core.List.{foldl}
use micro_kernel_using_c_plu.Prelude.{
  ℕ, zero, suc, ◌+◌, ◌/◌, Bool, true, List, [], ◌∷◌, if◌then◌else◌,
}
use micro_kernel_using_c_plu.Prelude.Store.{Ptr, update}
use micro_kernel_using_c_plu.Kernel.{FpRegs, Thread, Kernel, is_null, put_thread}

-- One `stp` or `ldp`: two registers and a byte offset.
pub record Pair : Type 0 where
  pub a : ℕ
  pub b : ℕ
  pub offset : ℕ

abbrev pair : ℕ → ℕ → ℕ → Pair
pair a b o = record { a = a; b = b; offset = o }

-- The sixteen lines of either block.
abbrev pub pairs : List Pair
pairs =
    pair 0 1 0
    ∷ pair 2 3 32
    ∷ pair 4 5 64
    ∷ pair 6 7 96
    ∷ pair 8 9 128
    ∷ pair 10 11 160
    ∷ pair 12 13 192
    ∷ pair 14 15 224
    ∷ pair 16 17 256
    ∷ pair 18 19 288
    ∷ pair 20 21 320
    ∷ pair 22 23 352
    ∷ pair 24 25 384
    ∷ pair 26 27 416
    ∷ pair 28 29 448
    ∷ pair 30 31 480
    ∷ []

pub stp : (ℕ → ℕ) → (ℕ → ℕ) → Pair → ℕ → ℕ
stp q slots p = update (update slots (p.offset / 16) (q p.a)) (p.offset / 16 + 1) (q p.b)

pub ldp : (ℕ → ℕ) → (ℕ → ℕ) → Pair → ℕ → ℕ
ldp slots q p = update (update q p.a (slots (p.offset / 16))) p.b (slots (p.offset / 16 + 1))

-- `eor v.16b, v.16b, v.16b` of the registers below n.
pub clear_regs : ℕ → (ℕ → ℕ) → ℕ → ℕ
clear_regs zero q = q
clear_regs (suc n) q = clear_regs n (update q n 0)

pub fpsimd_save : Kernel → Kernel
fpsimd_save k =
    if is_null k.cpu.current_thread
    then k
    else put_thread k.cpu.current_thread
        (record (k.thread k.cpu.current_thread) {
          fpcr = k.regs.fpcr;
          fpsr = k.regs.fpsr;
          fpsimd_vregs = foldl (stp k.regs.q) (k.thread k.cpu.current_thread).fpsimd_vregs pairs;
          fpsimd_valid = true;
        })
        k

-- What `fpsimd_load` leaves in the registers for the thread `t`.
unfoldable pub load_regs : Thread → FpRegs → FpRegs
load_regs t r = record {
  q = if t.fpsimd_valid then foldl (ldp t.fpsimd_vregs) r.q pairs else clear_regs 32 r.q;
  fpcr = t.fpcr;
  fpsr = t.fpsr;
}

pub fpsimd_load : Kernel → Kernel
fpsimd_load k =
    if is_null k.cpu.current_thread
    then k
    else record k { regs = load_regs (k.thread k.cpu.current_thread) k.regs }
