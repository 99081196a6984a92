-- ===== src/Heap/First.antt =====
-- The search of `heap_alloc_first_fit` in src/mem_lab.cc: the first block that serves a request.
use mathlib.Core.Path.{subst}
use micro_kernel_using_c_plu.Prelude.{
  ℕ, zero, suc, ◌+◌, ◌%◌, ◌^◌, ◌≤◌, ◌<◌, ◌≡◌, ◌≢◌, inl, inr, refl, Bool, false, true, ◌&&◌, List,
  [], ◌∷◌, some, arith, ◌==◌, leb, if◌then◌else◌, Bool-cases, sym, ◌∙◌,
}
use micro_kernel_using_c_plu.Prelude.Store.{Ptr, null, has, length}
use micro_kernel_using_c_plu.Heap.{Heap, header_bytes, is_free, fit_loop}
use micro_kernel_using_c_plu.Heap.Tiles.{Tiles, Tiles-le, heap_next-tile}

-- A free block that is large enough.
abbrev pub serves : Heap → ℕ → Ptr → Bool
serves h want a = is_free (h a) && leb want (h a).size

-- The first such block of the list, and how many blocks are looked at.
abbrev pub first_fit : Heap → ℕ → List Ptr → Ptr
first_fit h want [] = null
first_fit h want (x ∷ xs) = if serves h want x then x else first_fit h want xs

abbrev pub looked : Heap → ℕ → List Ptr → ℕ
looked h want [] = 0
looked h want (x ∷ xs) = if serves h want x then 1 else suc (looked h want xs)

pub fit_loop-first_fit :
    (f : ℕ) (h : Heap) (p : ℕ) (xs : List Ptr) (last want steps : ℕ)
    → Tiles h p xs last
    → p % 16 ≡ 0
    → last + 16 ≤ 2 ^ 64
    → length xs < f
    → fit_loop f h last want p steps
      ≡ some (record { block = first_fit h want xs; steps = steps + looked h want xs })
unfolding fit_loop
fit_loop-first_fit zero h p xs last want steps t a room fuel = absurd (omega arith)
fit_loop-first_fit (suc f) h p [] last want steps t a room fuel = ground arith
fit_loop-first_fit (suc f) h p (x ∷ xs) last want steps t a room fuel =
    let inside = Tiles-le h p (x ∷ xs) last x t (ground arith) in
    let next = heap_next-tile h x (ground arith) t.2 (omega (arith, inside.1)) in
    let rest =
      fit_loop-first_fit f h (x + header_bytes + (h x).size) xs last want (steps + 1) t.3
        (ground (arith, t.0, t.2)) room (omega arith) in
    ground (arith, inside, next, rest)

pub first_fit-serves :
    (h : Heap) (want : ℕ) (xs : List Ptr)
    → first_fit h want xs ≢ null
    → (has (first_fit h want xs) xs ≡ true) × (serves h want (first_fit h want xs) ≡ true)
first_fit-serves h want [] nn = absurd (nn refl)
first_fit-serves h want (x ∷ xs) nn = elim (Bool-cases (serves h want x)) [
  | inl e ↦ rw e (ground arith, e)
  | inr n ↦
      let rest = first_fit-serves h want xs (λ z. nn (rw n z)) in
      let same : first_fit h want (x ∷ xs) ≡ first_fit h want xs = rw n refl in
      subst (λ z. (has z (x ∷ xs) ≡ true) × (serves h want z ≡ true)) (sym same)
        (ground (arith, rest.0), rest.1)
]

pub first_fit-none :
    (h : Heap) (p : ℕ) (xs : List Ptr) (last want a : ℕ)
    → Tiles h p xs last
    → 0 < p
    → first_fit h want xs ≡ null
    → has a xs ≡ true
    → serves h want a ≡ false
first_fit-none h p [] last want a t pos e i = cc
first_fit-none h p (x ∷ xs) last want a t pos e i = elim (Bool-cases (serves h want x)) [
  | inl y ↦ absurd (ground arith)
  | inr n ↦ elim (Bool-cases (a == x)) [
    | inl same ↦ ground arith
    | inr other ↦
        first_fit-none h (x + header_bytes + (h x).size) xs last want a t.3 (omega arith)
          (sym (rw n refl) ∙ e) (ground arith)
  ]
]
