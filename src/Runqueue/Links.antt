-- ===== src/Runqueue/Links.antt =====
-- What the run queue stands for: the list of its threads, head first.
use micro_kernel_using_c_plu.Prelude.{◌≡◌, refl, true, List, [], ◌∷◌, arith, ◌==◌, if◌then◌else◌}
use micro_kernel_using_c_plu.Prelude.Store.{Ptr, null, has, last, Distinct, Chain, has-last}

-- The links lead from the head through the threads of the list, each there once, and back.
abbrev pub Ring : (Ptr → Ptr) → Ptr → Ptr → List Ptr → Type 0
Ring next head tail [] = (head ≡ null) × (tail ≡ null)
Ring next head tail (x ∷ xs) =
    (head ≡ x) × (tail ≡ last x xs) × Chain next x (x ∷ xs) x × Distinct (x ∷ xs)

-- A write to the last link redirects the end of the chain.
pub relink-last :
    (f g : Ptr → Ptr) (x : Ptr) (xs : List Ptr) (stop t : Ptr)
    → Chain f x (x ∷ xs) stop
    → Distinct (x ∷ xs)
    → ((a : Ptr) → has a (x ∷ xs) ≡ true → g a ≡ (if last x xs == a then t else f a))
    → Chain g x (x ∷ xs) t
relink-last f g x [] stop t c d same = (refl, c.1, ground (arith, same x))
relink-last f g x (y ∷ ys) stop t c d same = (
  refl,
  c.1,
  ground (
    arith,
    same x,
    has-last y ys,
    relink-last f g y ys stop t (ground arith) d.1 (λ a h. same a (ground arith)),
  ),
)
