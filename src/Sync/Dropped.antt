-- ===== src/Sync/Dropped.antt =====
-- The mutexes that a thread keeps when it gives one back: mutex_unlock of src/sync.cc.
use micro_kernel_using_c_plu.Prelude.{◌≡◌, ◌≢◌, false, List, arith, ◌==◌, inl, inr, Bool-cases}
use micro_kernel_using_c_plu.Prelude.Store.{Ptr, null, has, update, erase, has-erase_self}
use micro_kernel_using_c_plu.Kernel.{Kernel}
use micro_kernel_using_c_plu.Sync.Owned.{IsRemoved}
use micro_kernel_using_c_plu.Sync.Locked.{IsLocked, remove-IsLocked}

-- The mutexes that remain to each thread when `t` has given `m` back.
unfoldable pub remaining : (Ptr → List Ptr) → Ptr → Ptr → Ptr → List Ptr
remaining own t m = update own t (erase m (own t))

module _ (k : Kernel) (own ws : Ptr → List Ptr) (t m : Ptr) (l : IsLocked k own ws null) where
  pub remaining-unowned :
      (k.mutex m).owner ≡ t → (a : Ptr) → a ≢ null → has m (remaining own t m a) ≡ false
  unfolding remaining
  remaining-unowned mine a na = elim (Bool-cases (t == a)) [
    | inl e ↦ ground (arith, has-erase_self m (own t) (l.distinct t))
    | inr n ↦ elim (Bool-cases (has m (own a))) [
      | inl h ↦ ground (arith, l.owner a m na h)
      | inr out ↦ ground arith
    ]
  ]

  pub remaining-IsLocked :
      (k2 : Kernel) → t ≢ null → IsRemoved k t m (own t) k2 → IsLocked k2 (remaining own t m) ws m
  unfolding remaining
  remaining-IsLocked k2 nt r = remove-IsLocked k k2 own ws t m l nt r
