-- ===== src/Uart/Baud.antt =====
-- The divisors that uart_init of src/drivers/uart_pl011.cc programs.
use micro_kernel_using_c_plu.Prelude.{
  ◌+◌, ◌*◌, ◌/◌, ◌≤◌, ◌<◌, ◌≡◌, refl, List, [], ◌∷◌, ◌++◌, arith, ap, ◌∙◌,
}
use micro_kernel_using_c_plu.Uart.{
  Uart, Write, mmio_write, uart_cr, uart_imsc, uart_lcr_h, uart_ibrd, uart_fbrd, baud, bauddiv_x64,
  ibrd_value, fbrd_value, uart_init,
}

snoc-append : (xs : List Write) (a : Write) (ys : List Write) → (xs ++ a ∷ []) ++ ys ≡ xs ++ a ∷ ys
snoc-append [] a ys = refl
snoc-append (x ∷ xs) a ys = ap (λ z. x ∷ z) (snoc-append xs a ys)

-- With a clock fast enough for an integer divisor, uart_init programs a divisor in 64ths that is
-- nearest to clock * 4 / 115200, with the fraction in six bits, and then enables the device.
pub uart_init-nearest :
    (u : Uart)
    → 64 * baud ≤ u.clock_hz * 4
    → let div = bauddiv_x64 u.clock_hz in
      let ibrd = ibrd_value div in
      let fbrd = fbrd_value div in
      (fbrd < 64)
      × (u.clock_hz * 4 ≤ (ibrd * 64 + fbrd) * baud + baud / 2)
      × ((ibrd * 64 + fbrd) * baud ≤ u.clock_hz * 4 + baud / 2)
      × ((before : List Write) × ((uart_init u).writes
            ≡ before
              ++ record { address = u.base + uart_ibrd; value = ibrd }
                ∷ record { address = u.base + uart_fbrd; value = fbrd }
                ∷ record { address = u.base + uart_lcr_h; value = 112 }
                ∷ record { address = u.base + uart_cr; value = 769 }
                ∷ []))
unfolding uart_init bauddiv_x64 ibrd_value fbrd_value
uart_init-nearest u fast = (
  omega arith,
  ground arith,
  ground arith,
  (
    (mmio_write uart_imsc 0 (mmio_write uart_cr 0 u)).writes,
    snoc-append _ _ _ ∙ snoc-append _ _ _ ∙ snoc-append _ _ _,
  ),
)
