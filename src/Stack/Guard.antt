-- ===== src/Stack/Guard.antt =====
-- `thread_stack_guard_ok` of src/thread.cc sees every change of a guard byte.
use micro_kernel_using_c_plu.Prelude.{
  ℕ, zero, suc, ◌+◌, ◌-◌, ◌*◌, ◌/◌, ◌%◌, ◌≤◌, ◌<◌, ◌≡◌, ◌≢◌, ◌↔◌, refl, true, false, arith, ◌==◌,
  ◌&&◌, ltb, leb, if◌then◌else◌, Bool-cases, inl, inr, ◌||◌,
}
use micro_kernel_using_c_plu.Prelude.Store.{update}
use micro_kernel_using_c_plu.Stack.{
  write_round, check_round, Memory, stack_watermark, stack_guard_magic, magic_byte, store64, load64,
  guard_size, write_tail, write_guard, fill, stack_init_guard_and_watermark, check_tail,
  check_guard, stack_guard_ok,
}

write_tail_lem :
    (n : ℕ) (m : Memory) (at i a : ℕ)
    → write_tail n m at i a
      ≡ (if leb (at + i) a && ltb a (at + i + n) then magic_byte (a - at) else m a)
unfolding write_tail
write_tail_lem zero m at i a = ground arith
write_tail_lem (suc n) m at i a =
    ground (arith, write_tail_lem n (update m (at + i) (magic_byte i)) at (i + 1) a)

fill_lem :
    (n : ℕ) (m : Memory) (at a : ℕ)
    → fill n m at a ≡ (if leb at a && ltb a (at + n) then stack_watermark else m a)
unfolding fill
fill_lem zero m at a = ground arith
fill_lem (suc n) m at a = ground (arith, fill_lem n (update m at stack_watermark) (at + 1) a)

store64-magic :
    (m : Memory) (p a : ℕ)
    → store64 m p stack_guard_magic a
      ≡ (if leb p a && ltb a (p + 8) then magic_byte (a - p) else m a)
unfolding store64 magic_byte
store64-magic m p a = refl

write_round_lem :
    (m : Memory) (p guard off a : ℕ)
    → off < guard
    → write_round m p guard off a ≡ (
        if leb (p + off) a && ltb a (p + off + 8) && ltb a (p + guard)
        then magic_byte (a - (p + off))
        else m a)
unfolding write_round
write_round_lem m p guard off a lt =
    ground (arith, write_tail_lem (guard - off) m (p + off) 0 a, store64-magic m (p + off) a)

write_guard_lem :
    (n : ℕ) (m : Memory) (p guard off a : ℕ)
    → off % 8 ≡ 0
    → guard ≤ off + 8 * n
    → off + 8 * n < guard + 8
    → write_guard n m p guard off a
      ≡ (if leb (p + off) a && ltb a (p + guard) then magic_byte ((a - p) % 8) else m a)
unfolding write_guard
write_guard_lem zero m p guard off a al lo hi = ground arith
write_guard_lem (suc n) m p guard off a al lo hi = ground (
  arith,
  write_round_lem m p guard off a (omega arith),
  write_guard_lem n (write_round m p guard off) p guard (off + 8) a (omega arith) (omega arith)
      (omega arith),
)

pub guard_size-le : (size : ℕ) → guard_size size ≤ size
unfolding guard_size
guard_size-le size = ground arith

-- What initialising leaves in memory: the pattern, then the watermark, and the rest untouched.
pub init_lem :
    (m : Memory) (base size a : ℕ)
    → base ≢ 0
    → size ≢ 0
    → stack_init_guard_and_watermark m base size a ≡ (
        if leb base a && ltb a (base + guard_size size)
        then magic_byte ((a - base) % 8)
        else if leb (base + guard_size size) a && ltb a (base + size)
        then stack_watermark
        else m a)
unfolding stack_init_guard_and_watermark
init_lem m base size a nb ns =
    let g = guard_size size in
    let g_le : g ≤ size = guard_size-le size in
    ground (
      arith,
      fill_lem (size - g) (write_guard ((g + 7) / 8) m base g 0) (base + g) a,
      write_guard_lem ((g + 7) / 8) m base g 0 a (omega arith) (omega arith) (omega arith),
    )

-- The bytes from `at` on hold the pattern from its byte i on.
abbrev Intact : Memory → ℕ → ℕ → ℕ → Type 0
Intact m at i n = (j : ℕ) → j < n → m (at + i + j) ≡ magic_byte (i + j)

check_tail-Intact : (n : ℕ) (m : Memory) (at i : ℕ) → check_tail n m at i ≡ true → Intact m at i n
unfolding check_tail
check_tail-Intact zero m at i h j lt = absurd (omega arith)
check_tail-Intact (suc n) m at i h zero lt = ground arith
check_tail-Intact (suc n) m at i h (suc j) lt =
    ground (arith, check_tail-Intact n m at (i + 1) (ground arith) j (omega arith))

Intact-check_tail : (n : ℕ) (m : Memory) (at i : ℕ) → Intact m at i n → check_tail n m at i ≡ true
unfolding check_tail
Intact-check_tail zero m at i h = refl
Intact-check_tail (suc n) m at i h = ground (
  arith,
  h 0 (omega arith),
  Intact-check_tail n m at (i + 1) (λ j lt. ground (arith, h (suc j) (omega arith))),
)

abbrev pub IsBytes : Memory → Type 0
IsBytes m = (a : ℕ) → m a < 256

-- The eight bytes of the pattern, lowest first.
record Word (m : Memory) (p : ℕ) : Type 0 where
  b0 : m (p + 0) ≡ 0x61
  b1 : m (p + 1) ≡ 0x75
  b2 : m (p + 2) ≡ 0x67
  b3 : m (p + 3) ≡ 0x6b
  b4 : m (p + 4) ≡ 0x63
  b5 : m (p + 5) ≡ 0x61
  b6 : m (p + 6) ≡ 0x74
  b7 : m (p + 7) ≡ 0x73

load64-Word : (m : Memory) (p : ℕ) → IsBytes m → load64 m p ≡ stack_guard_magic → Word m p
unfolding load64
load64-Word m p bytes h = ground (
  arith,
  bytes p,
  bytes (p + 1),
  bytes (p + 2),
  bytes (p + 3),
  bytes (p + 4),
  bytes (p + 5),
  bytes (p + 6),
  bytes (p + 7),
)

Word-load64 : (m : Memory) (p : ℕ) → Word m p → load64 m p ≡ stack_guard_magic
unfolding load64
Word-load64 m p w = ground arith

Word-Intact : (m : Memory) (p : ℕ) → Word m p → Intact m p 0 8
unfolding magic_byte
Word-Intact m p w zero lt = ground (arith, w.b0)
Word-Intact m p w (suc zero) lt = ground (arith, w.b1)
Word-Intact m p w (suc (suc zero)) lt = ground (arith, w.b2)
Word-Intact m p w (suc (suc (suc zero))) lt = ground (arith, w.b3)
Word-Intact m p w (suc (suc (suc (suc zero)))) lt = ground (arith, w.b4)
Word-Intact m p w (suc (suc (suc (suc (suc zero))))) lt = ground (arith, w.b5)
Word-Intact m p w (suc (suc (suc (suc (suc (suc zero)))))) lt = ground (arith, w.b6)
Word-Intact m p w (suc (suc (suc (suc (suc (suc (suc zero))))))) lt = ground (arith, w.b7)
Word-Intact m p w (suc (suc (suc (suc (suc (suc (suc (suc n)))))))) lt = absurd (omega arith)

Intact-Word : (m : Memory) (p : ℕ) → Intact m p 0 8 → Word m p
unfolding magic_byte
Intact-Word m p h = record {
  b0 = ground (arith, h 0 (omega arith));
  b1 = ground (arith, h 1 (omega arith));
  b2 = ground (arith, h 2 (omega arith));
  b3 = ground (arith, h 3 (omega arith));
  b4 = ground (arith, h 4 (omega arith));
  b5 = ground (arith, h 5 (omega arith));
  b6 = ground (arith, h 6 (omega arith));
  b7 = ground (arith, h 7 (omega arith));
}

check_round-Intact :
    (m : Memory) (p guard off j : ℕ)
    → IsBytes m
    → check_round m p guard off ≡ true
    → j < 8
    → off + j < guard
    → m (p + off + j) ≡ magic_byte j
unfolding check_round
check_round-Intact m p guard off j bytes h lt inside = elim (Bool-cases (ltb (guard - off) 8)) [
  | inl short ↦
      ground (arith, check_tail-Intact (guard - off) m (p + off) 0 (ground arith) j (omega arith))
  | inr long ↦
      ground (arith, Word-Intact m (p + off) (load64-Word m (p + off) bytes (ground arith)) j lt)
]

Intact-check_round :
    (m : Memory) (p guard off : ℕ)
    → ((j : ℕ) → j < 8 → off + j < guard → m (p + off + j) ≡ magic_byte j)
    → off < guard
    → check_round m p guard off ≡ true
unfolding check_round
Intact-check_round m p guard off h lt = elim (Bool-cases (ltb (guard - off) 8)) [
  | inl short ↦ rw short (
      Intact-check_tail (guard - off) m (p + off) 0
        (λ j i. ground (arith, h j (ground arith) (omega arith))))
  | inr long ↦
      let word : Intact m (p + off) 0 8 = λ j i. ground (arith, h j i (ground arith)) in
      ground (arith, Word-load64 m (p + off) (Intact-Word m (p + off) word))
]

check_guard-Intact :
    (n : ℕ) (m : Memory) (p guard off a : ℕ)
    → IsBytes m
    → off % 8 ≡ 0
    → guard ≤ off + 8 * n
    → check_guard n m p guard off ≡ true
    → off ≤ a
    → a < guard
    → m (p + a) ≡ magic_byte (a % 8)
unfolding check_guard
check_guard-Intact zero m p guard off a bytes al lo h from_off inside = absurd (omega arith)
check_guard-Intact (suc n) m p guard off a bytes al lo h from_off inside =
    elim (Bool-cases (ltb a (off + 8))) [
      | inl now ↦ ground (
        arith,
        check_round-Intact m p guard off (a - off) bytes (ground arith) (ground arith)
            (omega arith),
      )
      | inr later ↦
          check_guard-Intact n m p guard (off + 8) a bytes (omega arith) (omega arith)
            (ground arith) (ground arith) inside
    ]

pub Intact-check_guard :
    (n : ℕ) (m : Memory) (p guard off : ℕ)
    → ((a : ℕ) → a < guard → m (p + a) ≡ magic_byte (a % 8))
    → off % 8 ≡ 0
    → off + 8 * n < guard + 8
    → check_guard n m p guard off ≡ true
unfolding check_guard
Intact-check_guard zero m p guard off h al hi = refl
Intact-check_guard (suc n) m p guard off h al hi = ground (
  arith,
  Intact-check_round m p guard off (λ j lt inside. ground (arith, h (off + j) inside))
      (omega arith),
  Intact-check_guard n m p guard (off + 8) h (omega arith) (omega arith),
)

-- The test passes exactly when every byte of the guard, 64 bytes or the whole of a smaller stack,
-- still holds its byte of the pattern.
pub stack_guard_ok_iff :
    (m : Memory) (base size : ℕ)
    → IsBytes m
    → base ≢ 0
    → size ≢ 0
    → (stack_guard_ok m base size ≡ true)
      ↔ ((a : ℕ) → a < guard_size size → m (base + a) ≡ magic_byte (a % 8))
unfolding stack_guard_ok
stack_guard_ok_iff m base size bytes nb ns =
    let g = guard_size size in
    let open_tests : ((base == 0) || (size == 0)) ≡ false = ground arith in
    rw open_tests (
      (λ h a lt.
          check_guard-Intact ((g + 7) / 8) m base g 0 a bytes (omega arith) (omega arith) h
            (omega arith) lt),
      (λ h. Intact-check_guard ((g + 7) / 8) m base g 0 h (omega arith) (omega arith)),
    )
