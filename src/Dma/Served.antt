-- ===== src/Dma/Served.antt =====
-- The transfer of one descriptor in dma_poll_complete of src/dma.cc, and what its callback leaves.
use micro_kernel_using_c_plu.Prelude.{
  ℕ, zero, suc, ◌≡◌, refl, ap, ◌∙◌, Bool, true, false, ◌==◌, if◌then◌else◌, Bool-cases, inl, inr,
  List, [], ◌∷◌, arith,
}
use micro_kernel_using_c_plu.Prelude.Store.{Ptr, has}
use micro_kernel_using_c_plu.Stack.{Memory}
use micro_kernel_using_c_plu.Dma.Copied.{copied, dma_memcpy-copied}
use micro_kernel_using_c_plu.Dma.{
  Setup, Desc, Dma, dma_complete_from_device, copy_desc, dma_memcpy, dma_device_view,
}

-- A callback that leaves the queue and the descriptors alone, and does `effect` to the memory.
pub record IsCalm (effect : ℕ → ℕ → Memory → Memory) (call : ℕ → ℕ → Dma → Dma) : Type 0 where
  pub memory : (cb user : ℕ) (d : Dma) → (call cb user d).memory ≡ effect cb user d.memory
  pub desc : (cb user : ℕ) (d : Dma) → (call cb user d).desc ≡ d.desc
  pub head : (cb user : ℕ) (d : Dma) → (call cb user d).pending_head ≡ d.pending_head
  pub tail : (cb user : ℕ) (d : Dma) → (call cb user d).pending_tail ≡ d.pending_tail

-- What a callback that is perhaps called leaves.
pub called-desc :
    (effect : ℕ → ℕ → Memory → Memory) (call : ℕ → ℕ → Dma → Dma) (b : Bool) (cb user : ℕ) (d : Dma)
    (a : Ptr)
    → IsCalm effect call
    → (if b then d else call cb user d).desc a ≡ d.desc a
called-desc effect call true cb user d a calm = refl
called-desc effect call false cb user d a calm = ap (λ (g : Ptr → Desc). g a) (calm.desc cb user d)

pub called-head :
    (effect : ℕ → ℕ → Memory → Memory) (call : ℕ → ℕ → Dma → Dma) (b : Bool) (cb user : ℕ) (d : Dma)
    → IsCalm effect call
    → (if b then d else call cb user d).pending_head ≡ d.pending_head
called-head effect call true cb user d calm = refl
called-head effect call false cb user d calm = calm.head cb user d

skipped-desc : (b : Bool) (d d' : Dma) → d'.desc ≡ d.desc → (if b then d else d').desc ≡ d.desc
skipped-desc true d d' e = refl
skipped-desc false d d' e = e

kept-desc :
    (b : Bool) (d x y : Dma)
    → x.desc ≡ d.desc
    → y.desc ≡ d.desc
    → (if b then x else y).desc ≡ d.desc
kept-desc true d x y e e' = e
kept-desc false d x y e e' = e'

pub called-memory :
    (effect : ℕ → ℕ → Memory → Memory) (call : ℕ → ℕ → Dma → Dma) (b : Bool) (cb user : ℕ) (d : Dma)
    → IsCalm effect call
    → (if b then d else call cb user d).memory ≡ (if b then d.memory else effect cb user d.memory)
called-memory effect call true cb user d calm = refl
called-memory effect call false cb user d calm = calm.memory cb user d

pub called-tail :
    (effect : ℕ → ℕ → Memory → Memory) (call : ℕ → ℕ → Dma → Dma) (b : Bool) (cb user : ℕ) (d : Dma)
    → IsCalm effect call
    → (if b then d else call cb user d).pending_tail ≡ d.pending_tail
called-tail effect call true cb user d calm = refl
called-tail effect call false cb user d calm = calm.tail cb user d

-- The bytes of a transfer, as the device sees its two ranges: each byte of the destination is the
-- byte of the source that was there before, those of an overlap in front of it repeated.
abbrev pub transferred : Setup → Desc → Memory → Memory
transferred s t m = copied (dma_device_view s t.dst t.len) (dma_device_view s t.src t.len) t.len m

-- The transfer of a descriptor, and then its callback, if it has one.
abbrev pub served : Setup → (ℕ → ℕ → Memory → Memory) → Desc → Memory → Memory
served s effect t m =
    if t.cb == 0 then transferred s t m else effect t.cb t.user (transferred s t m)

-- The memory once all descriptors of the list are served, in their order.
abbrev pub all_served :
    Setup → (ℕ → ℕ → Memory → Memory) → (Ptr → Desc) → List Ptr → Memory → Memory
all_served s effect desc [] m = m
all_served s effect desc (x ∷ xs) m = all_served s effect desc xs (served s effect (desc x) m)

pub all_served-same :
    (s : Setup) (effect : ℕ → ℕ → Memory → Memory) (g h : Ptr → Desc) (xs : List Ptr) (m : Memory)
    → ((a : Ptr) → has a xs ≡ true → g a ≡ h a)
    → all_served s effect g xs m ≡ all_served s effect h xs m
all_served-same s effect g h [] m same = refl
all_served-same s effect g h (x ∷ xs) m same =
    ap (λ (t : Desc). all_served s effect g xs (served s effect t m)) (same x (ground arith))
    ∙ all_served-same s effect g h xs (served s effect (h x) m) (λ a i. same a (ground (arith, i)))

pub copy_desc-desc : (s : Setup) (t : Desc) (d : Dma) → (copy_desc s t d).desc ≡ d.desc
unfolding copy_desc dma_complete_from_device
copy_desc-desc s t d = skipped-desc (t.len == 0) d _ (kept-desc _ d _ _ refl refl)

pub copy_desc-head :
    (s : Setup) (t : Desc) (d : Dma) → (copy_desc s t d).pending_head ≡ d.pending_head
unfolding copy_desc dma_complete_from_device
copy_desc-head s t d = ground arith

dma_memcpy-none : (n dst src : ℕ) (m : Memory) → n ≡ 0 → m ≡ dma_memcpy n dst src 0 m
unfolding dma_memcpy
dma_memcpy-none zero dst src m e = refl
dma_memcpy-none (suc n) dst src m e = absurd (omega arith)

copy_desc-moves :
    (s : Setup) (t : Desc) (d : Dma)
    → (copy_desc s t d).memory
      ≡ dma_memcpy t.len (dma_device_view s t.dst t.len) (dma_device_view s t.src t.len) 0 d.memory
unfolding copy_desc dma_complete_from_device
copy_desc-moves s t d =
    let to = dma_device_view s t.dst t.len in
    let from = dma_device_view s t.src t.len in
    elim (Bool-cases (t.len == 0)) [
      | inl e ↦ rw e (dma_memcpy-none t.len to from d.memory (ground arith))
      | inr some_bytes ↦ ground arith
    ]

pub copy_desc-memory :
    (s : Setup) (t : Desc) (d : Dma) → (copy_desc s t d).memory ≡ transferred s t d.memory
copy_desc-memory s t d =
    let to = dma_device_view s t.dst t.len in
    let from = dma_device_view s t.src t.len in
    copy_desc-moves s t d ∙ dma_memcpy-copied t.len to from d.memory

pub copy_desc-tail :
    (s : Setup) (t : Desc) (d : Dma) → (copy_desc s t d).pending_tail ≡ d.pending_tail
unfolding copy_desc dma_complete_from_device
copy_desc-tail s t d = ground arith
