-- ===== src/SyncLab/Order.antt =====
-- The order in which dl_lock_two_ordered of src/sync_lab.cc takes its mutexes.
use mathlib.Core.List.{reverse}
use micro_kernel_using_c_plu.Prelude.{
  ◌<◌, ◌≡◌, ◌≢◌, refl, ◌||◌, ◌==◌, ltb, List, [], ◌∷◌, arith, inl, inr, Bool-cases,
}
use micro_kernel_using_c_plu.Prelude.Store.{Ptr, null, has}
use micro_kernel_using_c_plu.SyncLab.{
  Act, locks, unlocks, dl_lock_two_ordered, dl_unlock_two_ordered,
}

abbrev pub lock_all : List Ptr → List Act
lock_all [] = []
lock_all (m ∷ ms) = locks m ∷ lock_all ms

abbrev pub unlock_all : List Ptr → List Act
unlock_all [] = []
unlock_all (m ∷ ms) = unlocks m ∷ unlock_all ms

-- Every mutex lies above all in front of it.
abbrev pub Increasing : List Ptr → Type 0
Increasing [] = Unit {0}
Increasing (m ∷ []) = Unit {0}
Increasing (m ∷ n ∷ ms) = (m < n) × Increasing (n ∷ ms)

-- Whichever way round its arguments stand, dl_lock_two_ordered locks the same mutexes, each once and
-- in the order of their addresses, and dl_unlock_two_ordered unlocks them in the opposite order.
pub dl_lock_two_ordered-Increasing :
    (a b : Ptr)
    → a ≢ null
    → b ≢ null
    → (up : List Ptr) × (down : List Ptr) × Increasing up
      × (dl_lock_two_ordered a b ≡ lock_all up)
      × (dl_lock_two_ordered b a ≡ lock_all up)
      × (dl_unlock_two_ordered a b ≡ unlock_all down)
      × (dl_unlock_two_ordered b a ≡ unlock_all down)
      × (down ≡ reverse up)
      × ((x : Ptr) → has x up ≡ ((x == a) || (x == b)))
unfolding dl_lock_two_ordered dl_unlock_two_ordered
dl_lock_two_ordered-Increasing a b na nb = elim (Bool-cases (a == b)) [
  | inl same ↦ (
    a ∷ [],
    a ∷ [],
    tt,
    ground arith,
    ground arith,
    ground arith,
    ground arith,
    refl,
    λ x. ground arith,
  )
  | inr apart ↦ elim (Bool-cases (ltb a b)) [
    | inl below ↦ (
      a ∷ b ∷ [],
      b ∷ a ∷ [],
      ground arith,
      ground arith,
      ground arith,
      ground arith,
      ground arith,
      refl,
      λ x. ground arith,
    )
    | inr above ↦ (
      b ∷ a ∷ [],
      a ∷ b ∷ [],
      ground arith,
      ground arith,
      ground arith,
      ground arith,
      ground arith,
      refl,
      λ x. ground arith,
    )
  ]
]
