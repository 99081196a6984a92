-- ===== src/MmuRpi4/Enabled.antt =====
-- mmu_init of src/arch/aarch64/mmu_rpi4.cc.
use Prim.Native.Nat.{bit_or}
use micro_kernel_using_c_plu.Prelude.{
  ℕ, ◌^◌, ◌%◌, Bool, true, false, ◌≡◌, refl, ◌∙◌, arith, Bool-cases, inl, inr, ◌==◌,
}
use micro_kernel_using_c_plu.Prelude.Bits.{bit_or_low, bit_and_one}
use micro_kernel_using_c_plu.Mmu.{Place, Tables, MmuRegs, mmu_enabled}
use micro_kernel_using_c_plu.MmuRpi4.{mmu_init}

mmu_init-on :
    (p : Place) (mmfr0 : ℕ) (enable : Bool) (r : MmuRegs) (t : Tables)
    → mmu_enabled r ≡ true
    → mmu_init p mmfr0 enable r t ≡ (r, t)
unfolding mmu_init
mmu_init-on p mmfr0 true r t on = rw on refl
mmu_init-on p mmfr0 false r t on = refl

mmu_enabled-bit : (r : MmuRegs) → mmu_enabled r ≡ (r.sctlr % 2 == 1)
unfolding mmu_enabled
mmu_enabled-bit r = rw (bit_and_one r.sctlr) (ground arith)

mmu_init-enabled :
    (p : Place) (mmfr0 : ℕ) (r : MmuRegs) (t : Tables)
    → mmu_enabled (mmu_init p mmfr0 true r t).0 ≡ true
unfolding mmu_init
mmu_init-enabled p mmfr0 r t = elim (Bool-cases (mmu_enabled r)) [
  | inl on ↦ rw on on
  | inr off ↦ rw off (
      mmu_enabled-bit _
      ∙ ground (
        arith,
        bit_or_low (bit_or (bit_or r.sctlr 1) 4) (2 ^ 12),
        bit_or_low (bit_or r.sctlr 1) 4,
        bit_or_low r.sctlr 1,
      ))
]

-- After mmu_init(true), in whatever state, translation is on, and a further mmu_init changes
-- neither the registers nor the tables.
pub mmu_init-again :
    (p : Place) (mmfr0 mmfr0' : ℕ) (enable : Bool) (r : MmuRegs) (t : Tables)
    → let (r', t') = mmu_init p mmfr0 true r t in
      (mmu_enabled r' ≡ true) × (mmu_init p mmfr0' enable r' t' ≡ (r', t'))
mmu_init-again p mmfr0 mmfr0' enable r t =
    let on = mmu_init-enabled p mmfr0 r t in
    let (r', t') = mmu_init p mmfr0 true r t in (on, mmu_init-on p mmfr0' enable r' t' on)
