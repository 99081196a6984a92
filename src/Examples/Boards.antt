-- ===== src/Examples/Boards.antt =====
-- The theorems on the page tables of the Raspberry Pi 4, the UART and the timer.
use micro_kernel_using_c_plu.Prelude.{ℕ, ◌≡◌, true, List, [], ◌∷◌, arith}
use micro_kernel_using_c_plu.Mmu.{Place, Tables, MmuRegs}
use micro_kernel_using_c_plu.Uart.{Uart, put_buffer, uart_print_u64, uart_puthex64}
use micro_kernel_using_c_plu.Uart.Digits.{
  AllDecimal, AllHex, Leads, read_decimal, read_hex, uart_print_u64-reads,
}
use micro_kernel_using_c_plu.Timer.{Timer}

abbrev low_place : Place
low_place = record {
  l0 = 0x0020_0000;
  l1 = 0x0020_1000;
  l2_ram = 0x0020_2000;
  l3_dma0 = 0x0020_3000;
  l3_dma1 = 0x0020_4000;
  l3_extra = 0x0020_5000;
  dma_start = 0x0100_0000;
  dma_end = 0x0110_0000;
  noncacheable = true;
}

abbrev low_tables : Tables
low_tables = record { word = λ a. 0x701; extra_next = 2 }

abbrev reset : MmuRegs
reset = record { sctlr = 0x30d0_0800; mair = 0; tcr = 0; ttbr0 = 0 }

abbrev pl011 : Uart
pl011 = record { base = 0x0900_0000; clock_hz = 24000000; writes = [] }

uart_print_u64-reads_example :
    ((s : List ℕ) × (uart_print_u64 1234567 pl011 ≡ put_buffer s pl011)
      × (read_decimal 0 s ≡ 1234567)
      × AllDecimal s
      × Leads 1234567 s)
    × ((s : List ℕ) × (uart_puthex64 1234567 pl011 ≡ put_buffer s pl011)
        × (read_hex 0 s ≡ 1234567)
        × AllHex s
        × Leads 1234567 s)
uart_print_u64-reads_example = uart_print_u64-reads 1234567 pl011 (omega arith)

-- "ok", and a line end
abbrev line : List ℕ
line = 111 ∷ 107 ∷ 10 ∷ []

abbrev idle : Timer
idle = record { tval = 0; ctl = 0; heartbeat = 63 }
