-- ===== src/Prelude/Store.antt =====
-- Addresses, stores indexed by them, and the linked lists that pointers form in a store.
use Prim.Native.Nat.{ℕ, suc, ◌+◌, ◌≤◌}
use mathlib.Core.Path.{◌≡◌, refl}
use mathlib.Core.Logic.{◌≢◌}
use mathlib.Core.Bool.{Bool, true, false, ◌||◌}
use mathlib.Core.List.{List, [], ◌∷◌, ◌++◌}
use native.Mathlib.Omega.{arith}
use micro_kernel_using_c_plu.Prelude.Tests.{◌==◌, if◌then◌else◌}

-- An address; the null pointer is 0.
abbrev pub Ptr : Type 0
Ptr = ℕ

abbrev pub null : Ptr
null = 0

abbrev pub update {ℓ} : {A : Type ℓ} → (ℕ → A) → ℕ → A → ℕ → A
update f p v q = if p == q then v else f q

abbrev pub length {ℓ} : {A : Type ℓ} → List A → ℕ
length [] = 0
length (x ∷ xs) = suc (length xs)

abbrev pub has : Ptr → List Ptr → Bool
has a [] = false
has a (p ∷ xs) = (a == p) || has a xs

abbrev pub last : Ptr → List Ptr → Ptr
last p [] = p
last p (x ∷ xs) = last x xs

-- The list without the first entry that is `a`.
abbrev pub erase : Ptr → List Ptr → List Ptr
erase a [] = []
erase a (p ∷ xs) = if a == p then xs else p ∷ erase a xs

-- Every entry is there once.
abbrev pub Distinct : List Ptr → Type 0
Distinct [] = Unit {0}
Distinct (p ∷ xs) = (has p xs ≡ false) × Distinct xs

-- From `p` the links `f` lead through the nodes `xs` to `stop`.
abbrev pub Chain : (Ptr → Ptr) → Ptr → List Ptr → Ptr → Type 0
Chain f p [] stop = p ≡ stop
Chain f p (x ∷ xs) stop = (p ≡ x) × (x ≢ null) × Chain f (f x) xs stop

pub length-append {ℓ} : {A : Type ℓ} (xs ys : List A) → length (xs ++ ys) ≡ length xs + length ys
length-append [] ys = omega arith
length-append (x ∷ xs) ys = omega (arith, length-append xs ys)

pub has-append : (a : Ptr) (xs ys : List Ptr) → has a (xs ++ ys) ≡ (has a xs || has a ys)
has-append a [] ys = refl
has-append a (x ∷ xs) ys = ground (arith, has-append a xs ys)

-- A chain survives any change that spares its own nodes.
pub Chain-frame :
    (f g : Ptr → Ptr) (p : Ptr) (xs : List Ptr) (stop : Ptr)
    → Chain f p xs stop
    → ((a : Ptr) → has a xs ≡ true → g a ≡ f a)
    → Chain g p xs stop
Chain-frame f g p [] stop c same = c
Chain-frame f g p (x ∷ xs) stop c same = (
  c.0,
  c.1,
  ground (arith, same x, Chain-frame f g (f x) xs stop c.2 (λ a h. same a (ground arith))),
)

pub Chain-ne_null :
    (f : Ptr → Ptr) (p a : Ptr) (xs : List Ptr) (stop : Ptr)
    → Chain f p xs stop
    → has a xs ≡ true
    → a ≢ null
Chain-ne_null f p a [] stop c h = cc
Chain-ne_null f p a (x ∷ xs) stop c h = ground (arith, Chain-ne_null f (f x) a xs stop c.2)

pub Chain-append :
    (f : Ptr → Ptr) (p : Ptr) (xs ys : List Ptr) (mid stop : Ptr)
    → Chain f p xs mid
    → Chain f mid ys stop
    → Chain f p (xs ++ ys) stop
Chain-append f p [] ys mid stop c d = ground arith
Chain-append f p (x ∷ xs) ys mid stop c d = (c.0, c.1, Chain-append f (f x) xs ys mid stop c.2 d)

-- The link of the last node leads to the end.
pub Chain-last :
    (f : Ptr → Ptr) (x : Ptr) (xs : List Ptr) (stop : Ptr)
    → Chain f x (x ∷ xs) stop
    → f (last x xs) ≡ stop
Chain-last f x [] stop c = c.2
Chain-last f x (y ∷ ys) stop c = Chain-last f y ys stop (ground arith)

pub last-append : (p a : Ptr) (xs : List Ptr) → last p (xs ++ a ∷ []) ≡ a
last-append p a [] = refl
last-append p a (x ∷ xs) = last-append x a xs

pub has-last : (p : Ptr) (xs : List Ptr) → has (last p xs) (p ∷ xs) ≡ true
has-last p [] = ground arith
has-last p (x ∷ xs) = ground (arith, has-last x xs)

pub Distinct-append :
    (a : Ptr) (xs : List Ptr) → Distinct xs → has a xs ≡ false → Distinct (xs ++ a ∷ [])
Distinct-append a [] d h = (refl, tt)
Distinct-append a (x ∷ xs) d h =
    (ground (arith, has-append x xs (a ∷ [])), Distinct-append a xs d.1 (ground arith))

pub length-erase : (a : Ptr) (xs : List Ptr) → length (erase a xs) ≤ length xs
length-erase a [] = omega arith
length-erase a (x ∷ xs) = ground (arith, length-erase a xs)

pub has-erase-false : (a b : Ptr) (xs : List Ptr) → has a xs ≡ false → has a (erase b xs) ≡ false
has-erase-false a b [] h = refl
has-erase-false a b (x ∷ xs) h = ground (arith, has-erase-false a b xs)

pub Distinct-erase : (a : Ptr) (xs : List Ptr) → Distinct xs → Distinct (erase a xs)
Distinct-erase a [] d = tt
Distinct-erase a (x ∷ xs) d = ground (arith, Distinct-erase a xs, has-erase-false x a xs)

-- Of a list without repetition, `erase` leaves no copy.
pub has-erase_self : (a : Ptr) (xs : List Ptr) → Distinct xs → has a (erase a xs) ≡ false
has-erase_self a [] d = refl
has-erase_self a (x ∷ xs) d = ground (arith, has-erase_self a xs)

pub has-erase_ne : (a b : Ptr) (xs : List Ptr) → a ≢ b → has a (erase b xs) ≡ has a xs
has-erase_ne a b [] h = refl
has-erase_ne a b (x ∷ xs) h = ground (arith, has-erase_ne a b xs)
