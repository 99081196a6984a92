-- ===== src/Sync/Taken.antt =====
-- Taking a free mutex, and leaving the run queue, in `mutex_lock` of src/sync.cc.
use mathlib.Core.Path.{subst}
use micro_kernel_using_c_plu.Prelude.{
  ℕ, ◌≤◌, ◌≡◌, ◌≢◌, false, List, ◌∷◌, arith, inl, inr, Bool-cases, ap, some, sym, ◌∙◌,
}
use micro_kernel_using_c_plu.Prelude.Store.{Ptr, null, has, update, length}
use micro_kernel_using_c_plu.Kernel.{Kernel, ready, set_owner, set_waiting_on}
use micro_kernel_using_c_plu.Sched.{sched_block_current}
use micro_kernel_using_c_plu.Sched.Blocking.{IsRunning, IsBlocked, sched_block_current-IsBlocked}
use micro_kernel_using_c_plu.Sync.{take_mutex, thread_owned_mutex_add}
use micro_kernel_using_c_plu.Sync.Locked.{IsLocked, IsLocked-frame}
use micro_kernel_using_c_plu.Sync.Moved.{IsFree, add-IsLocked}
use micro_kernel_using_c_plu.Sync.Spared.{IsSpared}

-- A READY thread waits for no mutex.
pub ready-IsFree :
    (k : Kernel) (own ws : Ptr → List Ptr) (moving t : Ptr)
    → IsLocked k own ws moving
    → (k.thread t).state ≡ ready
    → IsFree ws t
ready-IsFree k own ws moving t l is m nm = elim (Bool-cases (has t (ws m))) [
  | inl h ↦ ground (arith, l.waiting m t nm h)
  | inr out ↦ out
]

pub take_mutex-IsLocked :
    (k : Kernel) (own ws : Ptr → List Ptr) (cur m : Ptr)
    → IsLocked k own ws null
    → cur ≢ null
    → m ≢ null
    → (k.mutex m).owner ≡ null
    → (k.thread cur).state ≡ ready
    → IsLocked (take_mutex cur m k) (update own cur (m ∷ own cur)) ws null
unfolding take_mutex thread_owned_mutex_add
take_mutex-IsLocked k own ws cur m l nc nm vacant is =
    let moving : IsLocked k own ws m = record {
      owned = l.owned;
      distinct = l.distinct;
      owner = l.owner;
      listed = λ x a nx ne e na. l.listed x a nx nx e na;
      waitq = l.waitq;
      waiting = l.waiting;
      waited = λ x a nx ne h. l.waited x a nx nx h;
    } in
    IsLocked-frame (thread_owned_mutex_add cur m (set_waiting_on cur null (set_owner m cur k)))
      (take_mutex cur m k) (update own cur (m ∷ own cur)) ws null
      (add-IsLocked k own ws cur m moving nc nm (ready-IsFree k own ws null cur l is)
        (λ t nt. unowned t nt))
      (λ a. ground arith) (λ a. ground arith) (λ x a nx h. ground arith)
  where
    unowned : (t : Ptr) → t ≢ null → has m (own t) ≡ false
    unowned t nt = elim (Bool-cases (has m (own t))) [
      | inl h ↦ ground (arith, l.owner t m nt h)
      | inr out ↦ out
    ]

pub take_mutex-IsSpared : (t m : Ptr) (k : Kernel) → IsSpared k (take_mutex t m k)
unfolding take_mutex thread_owned_mutex_add
take_mutex-IsSpared t m k = record {
  next = λ a. ground arith;
  state = λ a. ground arith;
  base = λ a. ground arith;
  effective = λ a. ground arith;
  head = ground arith;
  tail = ground arith;
}

pub block-at :
    (f : ℕ) (k : Kernel) (q : List Ptr) (t : Ptr)
    → k.cpu.current_thread ≡ t
    → IsRunning k q
    → length q ≤ f
    → t ≢ null
    → (k.thread t).state ≡ ready
    → (k' : Kernel) × (sched_block_current f k ≡ some k') × IsBlocked k k' q t
block-at f k q t here run fuel nt is =
    subst (λ z. (k' : Kernel) × (sched_block_current f k ≡ some k') × IsBlocked k k' q z) here
      (sched_block_current-IsBlocked f k q run fuel (λ z. nt (sym here ∙ z))
        (ap (λ z. (k.thread z).state) here ∙ is))
