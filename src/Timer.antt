-- ===== src/Timer.antt =====
-- src/arch/aarch64/timer.cc, over the UART, for either of the two timers (USE_CNTP). The counter's
-- frequency is an argument; what timer_init_hz prints is left out.
pub mod Armed
use micro_kernel_using_c_plu.Prelude.{ℕ, ◌+◌, ◌/◌, ◌%◌, ◌^◌, Bool, ◌==◌, if◌then◌else◌}
use micro_kernel_using_c_plu.Uart.{Uart, newline, uart_putc}

-- The registers TVAL and CTL, and the counter of `timer_irq`.
pub record Timer : Type 0 where
  pub tval : ℕ
  pub ctl : ℕ
  pub heartbeat : ℕ

abbrev dot : ℕ
dot = 46

pub compute_ticks : ℕ → ℕ → ℕ
compute_ticks freq hz =
    let ticks = if hz == 0 then 0 else freq / hz in if ticks == 0 then 1 else ticks

pub timer_init_hz : ℕ → ℕ → Timer → Timer
timer_init_hz freq hz t = if hz == 0 then t else record t { tval = compute_ticks freq hz; ctl = 1 }

pub timer_irq : ℕ → Timer → Uart → Timer × Uart
timer_irq freq t u =
    let heartbeat = (t.heartbeat + 1) % 2 ^ 32 in
    let u1 = uart_putc dot u in
    (
      record t { tval = compute_ticks freq 1000; heartbeat = heartbeat },
      if heartbeat % 64 == 0 then uart_putc newline u1 else u1,
    )
