-- ===== src/Timer/Armed.antt =====
-- How far ahead src/arch/aarch64/timer.cc sets the timer.
use native.Mathlib.Nat.{div-add-mod', mod-lt}
use micro_kernel_using_c_plu.Prelude.{
  ℕ, ◌+◌, ◌*◌, ◌/◌, ◌≤◌, ◌<◌, ◌≡◌, refl, ap, ◌∙◌, arith, false, Bool-cases, inl, inr, ◌==◌,
}
use micro_kernel_using_c_plu.Uart.{Uart}
use micro_kernel_using_c_plu.Timer.{Timer, compute_ticks, timer_init_hz, timer_irq}

compute_ticks-pos : (freq hz : ℕ) → 1 ≤ compute_ticks freq hz
unfolding compute_ticks
compute_ticks-pos freq hz = ground arith

compute_ticks-period :
    (freq hz : ℕ)
    → 0 < hz
    → hz ≤ freq
    → (compute_ticks freq hz * hz ≤ freq) × (freq < (compute_ticks freq hz + 1) * hz)
unfolding compute_ticks
compute_ticks-period freq hz pos le =
    let whole = div-add-mod' freq hz in
    let small = mod-lt freq pos in
    let set : (hz == 0) ≡ false = ground arith in
    elim (Bool-cases (freq / hz == 0)) [
      | inl e ↦
          let none_fit : freq / hz ≡ 0 = ground arith in
          let nil : freq / hz * hz ≡ 0 = ap (λ z. z * hz) none_fit ∙ omega arith in
          absurd (omega (arith, whole, small, nil))
      | inr ne ↦ rw (set, ne) (omega (arith, whole, small), omega (arith, whole, small))
    ]

-- timer_init_hz with a rate that is not 0, and not above the counter's frequency, enables the
-- timer with the longest interval that is not longer than the period of the rate; any rate gives
-- an interval of at least one tick. Each interrupt sets the interval of 1000 Hz again.
pub timer_init_hz-armed :
    (freq hz : ℕ) (t : Timer) (u : Uart)
    → 0 < hz
    → let t' = timer_init_hz freq hz t in
      (t'.ctl ≡ 1)
      × (1 ≤ t'.tval)
      × (hz ≤ freq → (t'.tval * hz ≤ freq) × (freq < (t'.tval + 1) * hz))
      × ((timer_irq freq t u).0.tval ≡ (timer_init_hz freq 1000 t).tval)
unfolding timer_init_hz timer_irq
timer_init_hz-armed freq hz t u pos =
    let set : (hz == 0) ≡ false = ground arith in
    rw set (refl, compute_ticks-pos freq hz, compute_ticks-period freq hz pos, refl)
