-- ===== src/Sync/Ordered.antt =====
-- Locking in the order of the addresses, along sequences of steps of src/sync.cc: the first of the
-- ways round a deadlock that src/sync_lab.cc shows.
use micro_kernel_using_c_plu.Prelude.{
  ℕ, ◌≤◌, ◌<◌, ◌≡◌, ◌≢◌, refl, true, false, List, arith, ◌∙◌, inl, inr, ◌==◌, Bool-cases,
  if◌then◌else◌,
}
use micro_kernel_using_c_plu.Prelude.Store.{Ptr, null, has, erase, has-erase-false}
use micro_kernel_using_c_plu.Kernel.{Kernel}
use micro_kernel_using_c_plu.Sync.{
  Config, take_mutex, thread_owned_mutex_add, lockdep_would_deadlock,
}
use micro_kernel_using_c_plu.Sync.Locked.{IsLocked}
use micro_kernel_using_c_plu.Sync.Spared.{SameWait}
use micro_kernel_using_c_plu.Sync.Released.{IsHandedOver, IsFreed}
use micro_kernel_using_c_plu.Sync.Waiting.{IsWaiting}
use micro_kernel_using_c_plu.Sync.Lockdep.{WaitsFor, here, over, lockdep_would_deadlock_iff}
use micro_kernel_using_c_plu.Sync.Steps.{Step, unlock, take, wait, switch}
use micro_kernel_using_c_plu.Sync.Reach.{IsSound, unlock-effect, wait-effect, Step-IsSound}

-- Every mutex that `t` owns lies below `m`.
abbrev pub AllBelow : Kernel → Ptr → Ptr → Type 0
AllBelow k t m = (x : Ptr) → x ≢ null → (k.mutex x).owner ≡ t → x < m

-- A thread that waits for a mutex owns lower ones only.
abbrev pub IsOrderly : Kernel → Type 0
IsOrderly k =
    (t : Ptr) → t ≢ null → (k.thread t).waiting_on ≢ null → AllBelow k t (k.thread t).waiting_on

-- The thread that runs asks for a mutex above all that it owns.
abbrev pub Rises : {c : Config} {k k' : Kernel} → Step c k k' → Type 0
Rises (unlock k k' m f0 a nm mine e) = Unit {0}
Rises (take k m a nm vacant) = AllBelow k k.cpu.current_thread m
Rises (wait k k2 k' m f0 a nm owned other e e') = AllBelow k k.cpu.current_thread m
Rises (switch k t is) = Unit {0}

pub data Climbs (c : Config) (k : Kernel) : Kernel → Type 0 where
  start : Climbs c k k
  climb : {k' k'' : Kernel} → Climbs c k k' → (s : Step c k' k'') → Rises s → Climbs c k k''

has-erase : (a b : Ptr) (xs : List Ptr) → has a (erase b xs) ≡ true → has a xs ≡ true
has-erase a b xs h = elim (Bool-cases (has a xs)) [
  | inl i ↦ i
  | inr out ↦ ground (arith, has-erase-false a b xs out)
]

-- Who owned what before a mutex was handed over.
handed_over-owner :
    (k k' : Kernel) (own ws : Ptr → List Ptr) (q : List Ptr) (t m n x a : Ptr)
    → IsLocked k own ws null
    → IsHandedOver k k' own ws q t m n
    → a ≢ null
    → x ≢ null
    → a ≢ n
    → (k'.mutex x).owner ≡ a
    → (k.mutex x).owner ≡ a
handed_over-owner k k' own ws q t m n x a l r na nx ne e =
    l.owner a x na (ground (arith, r.locked.listed x a nx nx e na, has-erase x m (own t)))

freed-owner :
    (k k' : Kernel) (own ws : Ptr → List Ptr) (q : List Ptr) (t m x a : Ptr)
    → IsLocked k own ws null
    → IsFreed k k' own ws q t m
    → a ≢ null
    → x ≢ null
    → (k'.mutex x).owner ≡ a
    → (k.mutex x).owner ≡ a
freed-owner k k' own ws q t m x a l r na nx e =
    l.owner a x na (ground (arith, r.locked.listed x a nx nx e na, has-erase x m (own t)))

handed_over-IsOrderly :
    (k k' : Kernel) (own ws : Ptr → List Ptr) (q : List Ptr) (t m n : Ptr)
    → IsLocked k own ws null
    → IsHandedOver k k' own ws q t m n
    → IsOrderly k
    → IsOrderly k'
handed_over-IsOrderly k k' own ws q t m n l r o a na nw x nx e = elim (Bool-cases (a == n)) [
  | inl same ↦ absurd (nw (ground (arith, r.served)))
  | inr ne ↦
      let kept = (r.others a (ground arith)).0 in
      let before = handed_over-owner k k' own ws q t m n x a l r na nx (ground arith) e in
      omega (arith, kept, o a na (λ z. nw (kept ∙ z)) x nx before)
]

freed-IsOrderly :
    (k k' : Kernel) (own ws : Ptr → List Ptr) (q : List Ptr) (t m : Ptr)
    → IsLocked k own ws null
    → IsFreed k k' own ws q t m
    → IsOrderly k
    → IsOrderly k'
freed-IsOrderly k k' own ws q t m l r o a na nw x nx e =
    let kept = (r.others a).0 in
    let before = freed-owner k k' own ws q t m x a l r na nx e in
    omega (arith, kept, o a na (λ z. nw (kept ∙ z)) x nx before)

waiting-IsOrderly :
    (c : Config) (k k' : Kernel) (own ws : Ptr → List Ptr) (q : List Ptr) (t m : Ptr)
    → IsLocked k own ws null
    → IsWaiting c k k' own ws q t m
    → AllBelow k t m
    → IsOrderly k
    → IsOrderly k'
waiting-IsOrderly c k k' own ws q t m l w below o a na nw x nx e =
    let before = l.owner a x na (w.locked.listed x a nx nx e na) in
    elim (Bool-cases (a == t)) [
      | inl same ↦ ground (arith, w.waiting_on, below x nx)
      | inr ne ↦
          let kept = (w.others a (ground arith)).0 in
          omega (arith, kept, o a na (λ z. nw (kept ∙ z)) x nx before)
    ]

-- What taking a mutex changes.
pub take-SameWait : (k : Kernel) (t m a : Ptr) → a ≢ t → SameWait k (take_mutex t m k) a
unfolding take_mutex thread_owned_mutex_add
take-SameWait k t m a ne = ground arith

take-served : (k : Kernel) (t m : Ptr) → ((take_mutex t m k).thread t).waiting_on ≡ null
unfolding take_mutex thread_owned_mutex_add
take-served k t m = ground arith

pub take-owner :
    (k : Kernel) (t m x : Ptr)
    → ((take_mutex t m k).mutex x).owner ≡ (if m == x then t else (k.mutex x).owner)
unfolding take_mutex thread_owned_mutex_add
take-owner k t m x = ground arith

take-IsOrderly : (k : Kernel) (t m : Ptr) → IsOrderly k → IsOrderly (take_mutex t m k)
take-IsOrderly k t m o a na nw x nx e = elim (Bool-cases (a == t)) [
  | inl same ↦ absurd (nw (ground (arith, take-served k t m)))
  | inr ne ↦
      let kept = (take-SameWait k t m a (ground arith)).0 in
      let before : (k.mutex x).owner ≡ a = ground (arith, take-owner k t m x, e) in
      omega (arith, kept, o a na (λ z. nw (kept ∙ z)) x nx before)
]

Rises-IsOrderly :
    (c : Config) {k k' : Kernel} (st : Step c k k')
    → Rises st
    → IsSound k
    → IsOrderly k
    → IsOrderly k'
Rises-IsOrderly c (unlock k k' m f0 acts nm mine ends) up s o =
    let t = k.cpu.current_thread in
    elim (unlock-effect c k k' m f0 s acts nm mine ends) [
      | inl freed ↦ freed-IsOrderly k k' (s.own) (s.ws) (s.q) t m s.locked freed o
      | inr (n, given) ↦ handed_over-IsOrderly k k' (s.own) (s.ws) (s.q) t m n s.locked given o
    ]
Rises-IsOrderly c (take k m acts nm vacant) up s o = take-IsOrderly k k.cpu.current_thread m o
Rises-IsOrderly c (wait k k2 k' m f0 acts nm owned other applied slept) up s o =
    waiting-IsOrderly c k k' (s.own) (s.ws) (s.q) k.cpu.current_thread m s.locked
      (wait-effect c k k2 k' m f0 s acts nm owned applied slept) up o
Rises-IsOrderly c (switch k t is) up s o = o

pub Climbs-IsOrderly :
    (c : Config) {k k' : Kernel}
    → Climbs c k k'
    → IsSound k
    → IsOrderly k
    → IsSound k' × IsOrderly k'
Climbs-IsOrderly c start s o = (s, o)
Climbs-IsOrderly c (climb r st up) s o =
    let (s', o') = Climbs-IsOrderly c r s o in (Step-IsSound c st s', Rises-IsOrderly c st up s' o')

-- A chain of waiting threads climbs, so it does not come back.
orderly-chain :
    (k : Kernel) (cur m : Ptr) {n : ℕ} {t : Ptr} (x : Ptr)
    → IsOrderly k
    → AllBelow k cur m
    → WaitsFor k cur n t
    → x ≢ null
    → m ≤ x
    → (k.mutex x).owner ≡ t
    → ⊥
orderly-chain k cur m x o below here nx le e = absurd (omega (arith, below x nx e))
orderly-chain k cur m x o below (over t nt nw w) nx le e =
    orderly-chain k cur m (k.thread t).waiting_on o below w nw (omega (arith, le, o t nt nw x nx e))
      refl

-- If threads ask for mutexes in the order of their addresses only, then after any sequence of steps
-- lockdep finds no deadlock in a further request that keeps to the order.
pub Climbs-no_deadlock :
    (c : Config) (k k' : Kernel) (m : Ptr)
    → IsSound k
    → IsOrderly k
    → Climbs c k k'
    → m ≢ null
    → k'.cpu.current_thread ≢ null
    → AllBelow k' k'.cpu.current_thread m
    → lockdep_would_deadlock k' k'.cpu.current_thread m ≡ false
Climbs-no_deadlock c k k' m s o r nm nc below =
    let cur = k'.cpu.current_thread in
    let (s', o') = Climbs-IsOrderly c r s o in
    elim (Bool-cases (lockdep_would_deadlock k' cur m)) [
      | inl yes_ ↦
          let (n, lt, w) = (lockdep_would_deadlock_iff k' cur m nc nm).0 yes_ in
          absurd (orderly-chain k' cur m m o' below w nm (omega arith) refl)
      | inr no_ ↦ no_
    ]
