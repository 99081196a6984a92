-- ===== src/Uart.antt =====
-- src/drivers/uart_pl011.cc. The state keeps the register writes in their order, newest last. That
-- the transmit queue of the device has room again, for which uart_putc waits, is not modelled. A
-- character is its code, and a string the list of its characters.
pub mod Digits
pub mod Baud
use micro_kernel_using_c_plu.Prelude.{
  ℕ, zero, suc, ◌+◌, ◌*◌, ◌/◌, ◌%◌, ◌^◌, Bool, not, List, [], ◌∷◌, ◌++◌, ltb, ◌==◌, if◌then◌else◌,
}

-- mmio_write(address, value)
pub record Write : Type 0 where
  pub address : ℕ
  pub value : ℕ

pub record Uart : Type 0 where
  pub base : ℕ
  pub clock_hz : ℕ
  pub writes : List Write

abbrev pub uart_fbrd : ℕ
uart_fbrd = 0x28

abbrev pub uart_ibrd : ℕ
uart_ibrd = 0x24

abbrev pub uart_lcr_h : ℕ
uart_lcr_h = 0x2c

abbrev pub uart_cr : ℕ
uart_cr = 0x30

abbrev pub uart_imsc : ℕ
uart_imsc = 0x38

abbrev pub newline : ℕ
newline = 10

abbrev pub carriage_return : ℕ
carriage_return = 13

-- The first register, UARTDR, is at the base address itself.
abbrev pub mmio_write : ℕ → ℕ → Uart → Uart
mmio_write offset v u = record u {
  writes = u.writes ++ record { address = u.base + offset; value = v } ∷ [];
}

pub uart_pl011_set_mmio_base : ℕ → Uart → Uart
uart_pl011_set_mmio_base base u = record u { base = base }

pub uart_pl011_set_clock_hz : ℕ → Uart → Uart
uart_pl011_set_clock_hz hz u = record u { clock_hz = hz }

abbrev pub baud : ℕ
baud = 115200

-- The divisor in 64ths, rounded to the nearest.
pub bauddiv_x64 : ℕ → ℕ
bauddiv_x64 clock_hz =
    let uartclk = if clock_hz == 0 then 24000000 else clock_hz in (uartclk * 4 + baud / 2) / baud

pub ibrd_value : ℕ → ℕ
ibrd_value div = let ibrd = div / 64 in if ibrd == 0 then 1 else ibrd

pub fbrd_value : ℕ → ℕ
fbrd_value div = div % 64

pub uart_init : Uart → Uart
uart_init u =
    let div = bauddiv_x64 u.clock_hz in
    let u1 = mmio_write uart_imsc 0 (mmio_write uart_cr 0 u) in
    let u2 = mmio_write uart_fbrd (fbrd_value div) (mmio_write uart_ibrd (ibrd_value div) u1) in
    mmio_write uart_cr (1 + 2 ^ 8 + 2 ^ 9) (mmio_write uart_lcr_h (2 ^ 4 + 3 * 2 ^ 5) u2)

pub uart_putc : ℕ → Uart → Uart
uart_putc c u = mmio_write 0 c u

pub uart_puts : List ℕ → Uart → Uart
uart_puts [] u = u
uart_puts (c ∷ s) u =
    uart_puts s (uart_putc c (if c == newline then uart_putc carriage_return u else u))

-- `while (i--) uart_putc(buf[i]);` the digit put into the buffer last comes first.
pub put_buffer : List ℕ → Uart → Uart
put_buffer [] u = u
put_buffer (c ∷ buf) u = put_buffer buf (uart_putc c u)

abbrev pub decimal_digit : ℕ → ℕ
decimal_digit d = 48 + d

-- The loop that fills the buffer, which has room for `n` more digits.
pub decimal_loop : ℕ → ℕ → List ℕ → List ℕ
decimal_loop zero v buf = buf
decimal_loop (suc n) v buf =
    let rest = decimal_loop n (v / 10) (decimal_digit (v % 10) ∷ buf) in
    if v == 0 then buf else rest

pub uart_print_u64 : ℕ → Uart → Uart
uart_print_u64 v u =
    if v == 0 then uart_putc (decimal_digit 0) u else put_buffer (decimal_loop 31 v []) u

-- kHexDigits[d]
abbrev pub hex_digit : ℕ → ℕ
hex_digit d = if ltb d 10 then 48 + d else 87 + d

pub hex_loop : ℕ → ℕ → List ℕ → List ℕ
hex_loop zero v buf = buf
hex_loop (suc n) v buf =
    let rest = hex_loop n (v / 16) (hex_digit (v % 16) ∷ buf) in if v == 0 then buf else rest

pub uart_puthex64 : ℕ → Uart → Uart
uart_puthex64 v u = if v == 0 then uart_putc (hex_digit 0) u else put_buffer (hex_loop 16 v []) u
