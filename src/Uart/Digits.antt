-- ===== src/Uart/Digits.antt =====
-- What uart_puts of src/drivers/uart_pl011.cc, uart_print_u64 and the hexadecimal printers send.
use native.Mathlib.Nat.{pow-succ'}
use micro_kernel_using_c_plu.Prelude.{
  ℕ, zero, suc, ◌+◌, ◌-◌, ◌*◌, ◌/◌, ◌%◌, ◌^◌, ◌≤◌, ◌<◌, ◌≡◌, ◌≢◌, ◌⊎◌, refl, ap, sym, ◌∙◌, true,
  false, List, [], ◌∷◌, arith, ltb, ◌==◌, if◌then◌else◌, Bool-cases, inl, inr,
}
use micro_kernel_using_c_plu.Prelude.Store.{has}
use micro_kernel_using_c_plu.Uart.{
  Uart, newline, carriage_return, uart_putc, uart_puts, put_buffer, decimal_digit, decimal_loop,
  uart_print_u64, hex_digit, hex_loop, uart_puthex64,
}

-- The number that a text of digits stands for, read from the left behind `acc`.
abbrev pub read_decimal : ℕ → List ℕ → ℕ
read_decimal acc [] = acc
read_decimal acc (c ∷ s) = read_decimal (acc * 10 + (c - 48)) s

abbrev pub hex_value : ℕ → ℕ
hex_value c = if ltb c 58 then c - 48 else c - 87

abbrev pub read_hex : ℕ → List ℕ → ℕ
read_hex acc [] = acc
read_hex acc (c ∷ s) = read_hex (acc * 16 + hex_value c) s

decimal_loop-read :
    (n v : ℕ) (buf : List ℕ)
    → v < 10 ^ n
    → read_decimal 0 (decimal_loop n v buf) ≡ read_decimal v buf
unfolding decimal_loop
decimal_loop-read zero v buf lt = ap (λ z. read_decimal z buf) (omega arith)
decimal_loop-read (suc n) v buf lt = elim (Bool-cases (v == 0)) [
  | inl e ↦ rw e (ap (λ z. read_decimal z buf) (ground arith))
  | inr ne ↦
      let digit : v / 10 * 10 + (decimal_digit (v % 10) - 48) ≡ v = omega arith in
      rw ne (
        decimal_loop-read n (v / 10) (decimal_digit (v % 10) ∷ buf) (omega (arith, pow-succ' 10 n))
        ∙ ap (λ z. read_decimal z buf) digit)
]

-- The text of a number: digits only, and no leading zero but in the text of zero itself.
abbrev pub AllDecimal : List ℕ → Type 0
AllDecimal [] = Unit {0}
AllDecimal (c ∷ s) = (48 ≤ c) × (c < 58) × AllDecimal s

abbrev pub AllHex : List ℕ → Type 0
AllHex [] = Unit {0}
AllHex (c ∷ s) = (((48 ≤ c) × (c < 58)) ⊎ ((97 ≤ c) × (c < 103))) × AllHex s

abbrev pub Leads : ℕ → List ℕ → Type 0
Leads v [] = 1 ≤ 0
Leads v (c ∷ s) = (v ≡ 0 × (c ≡ 48) × (s ≡ [])) ⊎ ((v ≢ 0) × (c ≢ 48))

decimal_loop-AllDecimal :
    (n v : ℕ) (buf : List ℕ) → AllDecimal buf → AllDecimal (decimal_loop n v buf)
unfolding decimal_loop
decimal_loop-AllDecimal zero v buf h = h
decimal_loop-AllDecimal (suc n) v buf h = elim (Bool-cases (v == 0)) [
  | inl e ↦ rw e h
  | inr ne ↦ rw ne (
      decimal_loop-AllDecimal n (v / 10) (decimal_digit (v % 10) ∷ buf)
        (omega arith, omega arith, h))
]

hex_loop-AllHex : (n v : ℕ) (buf : List ℕ) → AllHex buf → AllHex (hex_loop n v buf)
unfolding hex_loop
hex_loop-AllHex zero v buf h = h
hex_loop-AllHex (suc n) v buf h = elim (Bool-cases (v == 0)) [
  | inl e ↦ rw e h
  | inr ne ↦ rw ne (hex_loop-AllHex n (v / 16) (hex_digit (v % 16) ∷ buf) (ground arith, h))
]

-- The first character of the loop's text, for a number that is not zero.
decimal_loop-Leads :
    (n v w : ℕ) (buf : List ℕ) → v ≢ 0 → v < 10 ^ n → w ≢ 0 → Leads w (decimal_loop n v buf)
unfolding decimal_loop
decimal_loop-Leads zero v w buf nz lt nw = absurd (omega arith)
decimal_loop-Leads (suc n) v w buf nz lt nw = elim (Bool-cases (v / 10 == 0)) [
  | inl last ↦
      let some_v : (v == 0) ≡ false = ground arith in
      rw some_v (
        decimal_loop-last n (v / 10) w (decimal_digit (v % 10)) buf (ground arith) (ground arith)
          nw)
  | inr more ↦
      let some_v : (v == 0) ≡ false = ground arith in
      rw some_v (
        decimal_loop-Leads n (v / 10) w (decimal_digit (v % 10) ∷ buf) (ground arith)
          (omega (arith, pow-succ' 10 n)) nw)
]
  where
    decimal_loop-last :
        (n v w c : ℕ) (buf : List ℕ) → v ≡ 0 → c ≢ 48 → w ≢ 0 → Leads w (decimal_loop n v (c ∷ buf))
    decimal_loop-last zero v w c buf e nc nw = inr (nw, nc)
    decimal_loop-last (suc n) v w c buf e nc nw =
        let is : (v == 0) ≡ true = ground arith in rw is (inr (nw, nc))

hex_loop-Leads :
    (n v w : ℕ) (buf : List ℕ) → v ≢ 0 → v < 16 ^ n → w ≢ 0 → Leads w (hex_loop n v buf)
unfolding hex_loop
hex_loop-Leads zero v w buf nz lt nw = absurd (omega arith)
hex_loop-Leads (suc n) v w buf nz lt nw = elim (Bool-cases (v / 16 == 0)) [
  | inl last ↦
      let some_v : (v == 0) ≡ false = ground arith in
      rw some_v
        (hex_loop-last n (v / 16) w (hex_digit (v % 16)) buf (ground arith) (ground arith) nw)
  | inr more ↦
      let some_v : (v == 0) ≡ false = ground arith in
      rw some_v (
        hex_loop-Leads n (v / 16) w (hex_digit (v % 16) ∷ buf) (ground arith)
          (omega (arith, pow-succ' 16 n)) nw)
]
  where
    hex_loop-last :
        (n v w c : ℕ) (buf : List ℕ) → v ≡ 0 → c ≢ 48 → w ≢ 0 → Leads w (hex_loop n v (c ∷ buf))
    hex_loop-last zero v w c buf e nc nw = inr (nw, nc)
    hex_loop-last (suc n) v w c buf e nc nw =
        let is : (v == 0) ≡ true = ground arith in rw is (inr (nw, nc))

hex_value-digit : (d : ℕ) → d < 16 → hex_value (hex_digit d) ≡ d
hex_value-digit d lt = ground arith

hex_loop-read :
    (n v : ℕ) (buf : List ℕ) → v < 16 ^ n → read_hex 0 (hex_loop n v buf) ≡ read_hex v buf
unfolding hex_loop
hex_loop-read zero v buf lt = ap (λ z. read_hex z buf) (omega arith)
hex_loop-read (suc n) v buf lt = elim (Bool-cases (v == 0)) [
  | inl e ↦ rw e (ap (λ z. read_hex z buf) (ground arith))
  | inr ne ↦
      let digit : v / 16 * 16 + hex_value (hex_digit (v % 16)) ≡ v =
        omega (arith, hex_value-digit (v % 16) (omega arith)) in
      rw ne (
        hex_loop-read n (v / 16) (hex_digit (v % 16) ∷ buf) (omega (arith, pow-succ' 16 n))
        ∙ ap (λ z. read_hex z buf) digit)
]

-- A 64-bit value is printed, in decimal and in hexadecimal, as the text that reads as that value
-- and has only digits, at least one of them, and no leading zero unless the text is the one digit
-- zero, for the value zero: the buffers of 31 and 16 digits are long enough.
pub uart_print_u64-reads :
    (v : ℕ) (u : Uart)
    → v < 2 ^ 64
    → ((s : List ℕ) × (uart_print_u64 v u ≡ put_buffer s u)
        × (read_decimal 0 s ≡ v)
        × AllDecimal s
        × Leads v s)
      × ((s : List ℕ) × (uart_puthex64 v u ≡ put_buffer s u)
          × (read_hex 0 s ≡ v)
          × AllHex s
          × Leads v s)
unfolding uart_print_u64 uart_puthex64 put_buffer
uart_print_u64-reads v u lt = elim (Bool-cases (v == 0)) [
  | inl e ↦
      let is_zero : 0 ≡ v = ground arith in
      (
        (
          decimal_digit 0 ∷ [],
          rw e refl,
          is_zero,
          (omega arith, omega arith, tt),
          inl (sym is_zero, refl, refl),
        ),
        (
          hex_digit 0 ∷ [],
          rw e refl,
          is_zero,
          (ground arith, tt),
          inl (sym is_zero, ground arith, refl),
        ),
      )
  | inr ne ↦
      let nz : v ≢ 0 = ground arith in
      (
        (
          decimal_loop 31 v [],
          rw ne refl,
          decimal_loop-read 31 v [] (omega arith),
          decimal_loop-AllDecimal 31 v [] tt,
          decimal_loop-Leads 31 v v [] nz (omega arith) nz,
        ),
        (
          hex_loop 16 v [],
          rw ne refl,
          hex_loop-read 16 v [] (omega arith),
          hex_loop-AllHex 16 v [] tt,
          hex_loop-Leads 16 v v [] nz (omega arith) nz,
        ),
      )
]

-- A text as a terminal shows it: the carriage returns in front of line ends left out.
abbrev pub with_returns : List ℕ → List ℕ
with_returns [] = []
with_returns (c ∷ s) =
    if c == newline then carriage_return ∷ newline ∷ with_returns s else c ∷ with_returns s

abbrev pub without_returns : List ℕ → List ℕ
without_returns [] = []
without_returns (c ∷ s) = if c == carriage_return then without_returns s else c ∷ without_returns s

uart_puts-buffer : (s : List ℕ) (u : Uart) → uart_puts s u ≡ put_buffer (with_returns s) u
unfolding uart_puts put_buffer
uart_puts-buffer [] u = refl
uart_puts-buffer (c ∷ s) u = elim (Bool-cases (c == newline)) [
  | inl e ↦
      let same : c ≡ newline = ground arith in
      rw (e, same) (uart_puts-buffer s (uart_putc newline (uart_putc carriage_return u)))
  | inr n ↦ rw n (uart_puts-buffer s (uart_putc c u))
]

returns-inverse :
    (s : List ℕ) → has carriage_return s ≡ false → without_returns (with_returns s) ≡ s
returns-inverse [] h = refl
returns-inverse (c ∷ s) h = ground (arith, returns-inverse s)

-- uart_puts sends a text with a carriage return in front of each line end; a text without carriage
-- returns is what is left when they are taken out.
pub uart_puts-returns :
    (s : List ℕ) (u : Uart)
    → has carriage_return s ≡ false
    → (uart_puts s u ≡ put_buffer (with_returns s) u) × (without_returns (with_returns s) ≡ s)
uart_puts-returns s u h = (uart_puts-buffer s u, returns-inverse s h)
