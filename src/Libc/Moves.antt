-- ===== src/Libc/Moves.antt =====
-- Filling and moving memory, src/libc.cc.
use micro_kernel_using_c_plu.Prelude.{
  ℕ, zero, suc, ◌+◌, ◌-◌, ◌≤◌, ◌&&◌, ltb, leb, if◌then◌else◌, ◌≡◌, ◌⊎◌, inl, inr, arith, Bool-cases,
}
use micro_kernel_using_c_plu.Prelude.Store.{update}
use micro_kernel_using_c_plu.Stack.{Memory}
use micro_kernel_using_c_plu.Libc.{copy_up, memcpy, copy_down, memmove}

-- Memory m with the n bytes from s copied to d, as they were in m.
abbrev pub moved : ℕ → ℕ → ℕ → Memory → Memory
moved d s n m a = if leb d a && ltb a (d + n) then m (s + (a - d)) else m a

copy_up_lem :
    (n d s i : ℕ) (m : Memory) (a : ℕ)
    → (d ≤ s) ⊎ (s + i + n ≤ d)
    → copy_up n d s i m a ≡ (if leb (d + i) a && ltb a (d + i + n) then m (s + (a - d)) else m a)
unfolding copy_up
copy_up_lem zero d s i m a apart = ground arith
copy_up_lem (suc n) d s i m a apart =
    ground (arith, copy_up_lem n d s (i + 1) (update m (d + i) (m (s + i))) a (ground arith))

copy_down_lem : (n d s : ℕ) (m : Memory) (a : ℕ) → s ≤ d → copy_down n d s m a ≡ moved d s n m a
unfolding copy_down
copy_down_lem zero d s m a le = ground arith
copy_down_lem (suc n) d s m a le =
    ground (arith, copy_down_lem n d s (update m (d + n) (m (s + n))) a le)

-- However the two ranges overlap, memmove leaves in the target the bytes that the source had, and
-- every other byte as it was.
pub memmove-moved : (d s n : ℕ) (m : Memory) (a : ℕ) → memmove d s n m a ≡ moved d s n m a
unfolding memmove
memmove-moved d s n m a = elim (Bool-cases (ltb d s)) [
  | inl up ↦ ground (arith, copy_up_lem n d s 0 m a (inl (ground arith)))
  | inr down ↦ ground (arith, copy_down_lem n d s m a (ground arith))
]

-- The same holds of memcpy, if the target does not begin inside the source, behind its start.
pub memcpy-moved :
    (d s n : ℕ) (m : Memory) (a : ℕ) → (d ≤ s) ⊎ (s + n ≤ d) → memcpy d s n m a ≡ moved d s n m a
unfolding memcpy
memcpy-moved d s n m a apart = ground (arith, copy_up_lem n d s 0 m a (ground arith))
