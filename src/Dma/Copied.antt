-- ===== src/Dma/Copied.antt =====
-- The copy of dma_memcpy of src/dma.cc, byte by byte in ascending order, for any overlap.
use native.Mathlib.Nat.{mod-eq_of_lt, mod-eq-sub-mod}
use micro_kernel_using_c_plu.Prelude.{
  ℕ, zero, suc, ◌+◌, ◌-◌, ◌%◌, ◌≤◌, ◌≡◌, refl, ap, sym, ◌∙◌, ◌&&◌, leb, ltb, if◌then◌else◌, arith,
  Bool-cases, inl, inr, ◌==◌, true, false,
}
use micro_kernel_using_c_plu.Prelude.Store.{update}
use micro_kernel_using_c_plu.Stack.{Memory}
use micro_kernel_using_c_plu.Dma.{dma_memcpy}

-- Where the source ends inside the destination, its first bytes are repeated.
abbrev pub source_of : ℕ → ℕ → ℕ → ℕ
source_of dst src j = if ltb src dst then src + j % (dst - src) else src + j

abbrev pub copied : ℕ → ℕ → ℕ → Memory → Memory
copied dst src n m a = if leb dst a && ltb a (dst + n) then m (source_of dst src (a - dst)) else m a

-- The byte that the round number i reads is one of the bytes before the copy.
read_lem : (dst src i : ℕ) (m : Memory) → copied dst src i m (src + i) ≡ m (source_of dst src i)
read_lem dst src i m = elim (Bool-cases (ltb src dst)) [
  | inr above ↦ ground arith
  | inl below ↦
      let d = dst - src in
      elim (Bool-cases (ltb i d)) [
        | inl near ↦
            let same : i % d ≡ i = mod-eq_of_lt (ground arith) in
            let out : leb dst (src + i) ≡ false = ground arith in rw (below, out, same) refl
        | inr far ↦
            let le : d ≤ i = ground arith in
            let inside : leb dst (src + i) ≡ true = ground arith in
            let under : ltb (src + i) (dst + i) ≡ true = ground arith in
            let back : src + i - dst ≡ i - d = ground arith in
            let same : (src + i - dst) % d ≡ i % d =
              ap (λ z. z % d) back ∙ sym (mod-eq-sub-mod le) in
            rw (below, inside, under, same) refl
      ]
]

copied-next :
    (dst src i : ℕ) (m : Memory) (a : ℕ)
    → update (copied dst src i m) (dst + i) (copied dst src i m (src + i)) a
      ≡ copied dst src (i + 1) m a
copied-next dst src i m a = elim (Bool-cases (a == dst + i)) [
  | inr other ↦ ground arith
  | inl here ↦
      let at : a - dst ≡ i = ground arith in
      let value : copied dst src i m (src + i) ≡ m (source_of dst src (a - dst)) =
        read_lem dst src i m ∙ ap (λ j. m (source_of dst src j)) (sym at) in
      let now : (dst + i == a) ≡ true = ground arith in
      let low : leb dst a ≡ true = ground arith in
      let high : ltb a (dst + (i + 1)) ≡ true = ground arith in rw (now, low, high) value
]

dma_memcpy-from :
    (n dst src i : ℕ) (m : Memory)
    → dma_memcpy n dst src i (copied dst src i m) ≡ copied dst src (i + n) m
unfolding dma_memcpy
dma_memcpy-from zero dst src i m = ap (λ k. copied dst src k m) (omega arith)
dma_memcpy-from (suc n) dst src i m =
    ap (dma_memcpy n dst src (i + 1)) (λ t a. copied-next dst src i m a t)
    ∙ dma_memcpy-from n dst src (i + 1) m
    ∙ ap (λ k. copied dst src k m) (omega arith)

pub dma_memcpy-copied : (n dst src : ℕ) (m : Memory) → dma_memcpy n dst src 0 m ≡ copied dst src n m
dma_memcpy-copied n dst src m =
    ap (dma_memcpy n dst src 0) (λ t a. nothing a t)
    ∙ dma_memcpy-from n dst src 0 m
    ∙ ap (λ k. copied dst src k m) (omega arith)
  where
    nothing : (a : ℕ) → m a ≡ copied dst src 0 m a
    nothing a = ground arith
