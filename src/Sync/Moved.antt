-- ===== src/Sync/Moved.antt =====
-- The invariant on mutexes along the steps of src/sync.cc that move a mutex or a waiter.
use micro_kernel_using_c_plu.Prelude.{
  ◌≡◌, ◌≢◌, refl, false, true, List, ◌∷◌, arith, ◌==◌, inl, inr, Bool-cases, ap,
}
use micro_kernel_using_c_plu.Prelude.Store.{
  Ptr, null, has, update, erase, Chain, Chain-frame, has-erase_self, has-erase-false,
}
use micro_kernel_using_c_plu.Kernel.{Kernel, set_waiters, set_owner, set_waiting_on}
use micro_kernel_using_c_plu.Sched.Blocking.{IsWoken}
use micro_kernel_using_c_plu.Sync.{Popped, thread_owned_mutex_add}
use micro_kernel_using_c_plu.Sync.Waitq.{wait_next_of}
use micro_kernel_using_c_plu.Sync.Inherit.{owner_next_of}
use micro_kernel_using_c_plu.Sync.Pop.{IsPop}
use micro_kernel_using_c_plu.Sync.Locked.{IsLocked, IsLocked-frame}

-- No queue holds the thread.
abbrev pub IsFree : (Ptr → List Ptr) → Ptr → Type 0
IsFree ws t = (m : Ptr) → m ≢ null → has t (ws m) ≡ false

-- A waiter is taken out of the queue of `m`.
pub pop-IsLocked :
    (k : Kernel) (own ws : Ptr → List Ptr) (moving m : Ptr) (p : Popped)
    → IsLocked k own ws moving
    → m ≢ null
    → IsPop k (ws m) p
    → IsLocked (set_waiters m p.head p.kernel) own (update ws m (erase p.thread (ws m))) moving
pop-IsLocked k own ws moving m p l nm r = record {
  owned = λ a na. ground (
    arith,
    r.others a,
    mutexes,
    Chain-frame (owner_next_of k) (owner_next_of k') (k.thread a).owned_mutexes (own a) null
        (l.owned a na) (λ x i. ground (arith, mutexes)),
  );
  distinct = l.distinct;
  owner = λ a x na h. ground (arith, mutexes, l.owner a x na h);
  listed = λ x a nx ne e na. ground (arith, mutexes, l.listed x a nx ne);
  waitq = λ x nx. elim (Bool-cases (m == x)) [
    | inl e ↦ rw e (record { chain = r.queue.chain; distinct = r.queue.distinct })
    | inr n ↦
        let rest : Chain (wait_next_of k') (k.mutex x).waiters (ws x) null =
          Chain-frame (wait_next_of k) (wait_next_of k') (k.mutex x).waiters (ws x) null
            (l.waitq x nx).chain (λ a i. ap (λ z. z.wait_next) (r.outside a (apart x a nx n i))) in
        record {
          chain = ground (arith, mutexes);
          distinct = ground (arith, (l.waitq x nx).distinct);
        }
  ];
  waiting =
      λ x a nx h. ground (arith, r.others a, has-erase-false a p.thread (ws m), l.waiting x a nx);
  waited =
      λ x a nx ne h. ground (arith, mutexes, has-erase-false a p.thread (ws m), l.waited x a nx ne);
}
  where
    k' : Kernel
    k' = set_waiters m p.head p.kernel

    mutexes : p.kernel.mutex ≡ k.mutex
    mutexes = ap (λ z. z.mutex) r.kept

    apart : (x a : Ptr) → x ≢ null → (m == x) ≡ false → has a (ws x) ≡ true → has a (ws m) ≡ false
    apart x a nx n i = elim (Bool-cases (has a (ws m))) [
      | inl h ↦ ground (arith, l.waiting x a nx i, l.waiting m a nm h)
      | inr out ↦ out
    ]

-- The thread taken out waits nowhere else.
pub pop-IsFree :
    (k : Kernel) (own ws : Ptr → List Ptr) (moving m : Ptr) (p : Popped)
    → IsLocked k own ws moving
    → m ≢ null
    → IsPop k (ws m) p
    → IsFree (update ws m (erase p.thread (ws m))) p.thread
pop-IsFree k own ws moving m p l nm r x nx = elim (Bool-cases (m == x)) [
  | inl e ↦ ground (arith, has-erase_self p.thread (ws m) (l.waitq m nm).distinct)
  | inr n ↦ elim (Bool-cases (has p.thread (ws x))) [
    | inl h ↦ ground (arith, l.waiting x p.thread nx h, l.waiting m p.thread nm r.member)
    | inr out ↦ ground arith
  ]
]

-- A mutex that nobody owns goes to `n`.
pub add-IsLocked :
    (k : Kernel) (own ws : Ptr → List Ptr) (n m : Ptr)
    → IsLocked k own ws m
    → n ≢ null
    → m ≢ null
    → IsFree ws n
    → ((t : Ptr) → t ≢ null → has m (own t) ≡ false)
    → IsLocked
        (thread_owned_mutex_add n m (set_waiting_on n null (set_owner m n k)))
        (update own n (m ∷ own n))
        ws
        null
unfolding thread_owned_mutex_add
add-IsLocked k own ws n m l nn nm free unowned = record {
  owned = λ a na.
      let rest : Chain (owner_next_of k') (k.thread a).owned_mutexes (own a) null =
        Chain-frame (owner_next_of k) (owner_next_of k') (k.thread a).owned_mutexes (own a) null
          (l.owned a na) (λ x i. ground (arith, unowned a na)) in
      ground arith;
  distinct = λ a. ground (arith, l.distinct a, unowned n nn);
  owner = λ a x na h. ground (arith, l.owner a x na, unowned a na);
  listed = λ x a nx ne e na. ground (arith, l.listed x a nx);
  waitq = λ x nx. record {
    chain = ground (
      arith,
      Chain-frame (wait_next_of k) (wait_next_of k') (k.mutex x).waiters (ws x) null
          (l.waitq x nx).chain (λ a i. ground arith),
    );
    distinct = (l.waitq x nx).distinct;
  };
  waiting = λ x a nx h. ground (arith, free x nx, l.waiting x a nx h);
  waited = λ x a nx ne h. ground (arith, l.waited x a nx);
}
  where
    k' : Kernel
    k' = thread_owned_mutex_add n m (set_waiting_on n null (set_owner m n k))

-- A mutex without waiters becomes free.
pub free-IsLocked :
    (k : Kernel) (own ws : Ptr → List Ptr) (m : Ptr)
    → IsLocked k own ws m
    → ((t : Ptr) → t ≢ null → has m (own t) ≡ false)
    → ((a : Ptr) → has a (ws m) ≡ false)
    → IsLocked (set_owner m null k) own ws null
free-IsLocked k own ws m l unowned empty = record {
  owned = λ a na. ground (
    arith,
    Chain-frame (owner_next_of k) (owner_next_of (set_owner m null k)) (k.thread a).owned_mutexes
        (own a) null (l.owned a na) (λ x i. ground arith),
  );
  distinct = l.distinct;
  owner = λ a x na h. ground (arith, l.owner a x na, unowned a na);
  listed = λ x a nx ne e na. ground (arith, l.listed x a nx);
  waitq = λ x nx. record {
    chain = ground (
      arith,
      Chain-frame (wait_next_of k) (wait_next_of (set_owner m null k)) (k.mutex x).waiters (ws x)
          null (l.waitq x nx).chain (λ a i. refl),
    );
    distinct = (l.waitq x nx).distinct;
  };
  waiting = λ x a nx h. l.waiting x a nx h;
  waited = λ x a nx ne h. ground (arith, empty a, l.waited x a nx);
}

-- A thread that no queue holds is woken.
pub woken-IsLocked :
    (k k' : Kernel) (own ws : Ptr → List Ptr) (moving t : Ptr) (q : List Ptr)
    → IsLocked k own ws moving
    → IsFree ws t
    → IsWoken k k' q t
    → IsLocked k' own ws moving
woken-IsLocked k k' own ws moving t q l free w =
    IsLocked-frame k k' own ws moving l (λ a. ap (λ z. z.mutex a) w.kept)
      (λ a. elim (Bool-cases (a == t)) [
        | inl e ↦ ground (arith, w.self)
        | inr n ↦ ground (arith, w.others a)
      ])
      (λ m a nm h. ground (arith, free m nm, w.others a))
