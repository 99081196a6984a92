-- ===== src/Sync/Locked.antt =====
-- The invariant that the mutexes of src/sync.cc keep together: the lists of owned mutexes, the
-- wait queues, and the fields `owner`, `waiting_on` and `state` agree.
use micro_kernel_using_c_plu.Prelude.{
  ℕ, ◌≡◌, ◌≢◌, refl, false, true, List, arith, ◌==◌, inl, inr, Bool-cases, ap,
}
use micro_kernel_using_c_plu.Prelude.Store.{
  Ptr, null, has, update, erase, Distinct, Chain, Chain-frame, Distinct-erase, has-erase_ne,
  has-erase_self,
}
use micro_kernel_using_c_plu.Kernel.{Kernel, blocked, put_thread}
use micro_kernel_using_c_plu.Sync.Waitq.{wait_next_of, IsWaitq}
use micro_kernel_using_c_plu.Sync.Inherit.{owner_next_of}
use micro_kernel_using_c_plu.Sync.Owned.{IsRemoved}

-- `own t` lists the mutexes that the thread `t` owns, `ws m` the threads that wait for `m`; a
-- mutex with a waiter has an owner. The mutex `moving`, if not null, is between two owners.
pub record IsLocked (k : Kernel) (own ws : Ptr → List Ptr) (moving : Ptr) : Type 0 where
  pub owned : (t : Ptr) → t ≢ null → Chain (owner_next_of k) (k.thread t).owned_mutexes (own t) null
  pub distinct : (t : Ptr) → Distinct (own t)
  pub owner : (t m : Ptr) → t ≢ null → has m (own t) ≡ true → (k.mutex m).owner ≡ t
  pub listed :
      (m t : Ptr) → m ≢ null → m ≢ moving → (k.mutex m).owner ≡ t → t ≢ null → has m (own t) ≡ true
  pub waitq : (m : Ptr) → m ≢ null → IsWaitq k (k.mutex m).waiters (ws m)
  pub waiting :
      (m a : Ptr)
      → m ≢ null
      → has a (ws m) ≡ true
      → ((k.thread a).waiting_on ≡ m) × ((k.thread a).state ≡ blocked)
  pub waited : (m a : Ptr) → m ≢ null → m ≢ moving → has a (ws m) ≡ true → (k.mutex m).owner ≢ null

-- A change that spares the mutexes and, of the threads, the list of mutexes and the fields of
-- those that wait.
pub IsLocked-frame :
    (k k' : Kernel) (own ws : Ptr → List Ptr) (moving : Ptr)
    → IsLocked k own ws moving
    → ((a : Ptr) → k'.mutex a ≡ k.mutex a)
    → ((a : Ptr) → (k'.thread a).owned_mutexes ≡ (k.thread a).owned_mutexes)
    → ((m a : Ptr)
        → m ≢ null
        → has a (ws m) ≡ true
        → (wait_next_of k' a ≡ wait_next_of k a)
          × ((k'.thread a).waiting_on ≡ (k.thread a).waiting_on)
          × ((k'.thread a).state ≡ (k.thread a).state))
    → IsLocked k' own ws moving
IsLocked-frame k k' own ws moving l mutexes lists waiters = record {
  owned = λ t nt. ground (
    arith,
    lists t,
    Chain-frame (owner_next_of k) (owner_next_of k') (k.thread t).owned_mutexes (own t) null
        (l.owned t nt) (λ a i. ground (arith, mutexes a)),
  );
  distinct = l.distinct;
  owner = λ t m nt h. ground (arith, mutexes m, l.owner t m nt h);
  listed = λ m t nm ne e nt. l.listed m t nm ne (ground (arith, mutexes m)) nt;
  waitq = λ m nm. record {
    chain = ground (
      arith,
      mutexes m,
      Chain-frame (wait_next_of k) (wait_next_of k') (k.mutex m).waiters (ws m) null
          (l.waitq m nm).chain (λ a i. (waiters m a nm i).0),
    );
    distinct = (l.waitq m nm).distinct;
  };
  waiting = λ m a nm h. ground (arith, waiters m a nm h, l.waiting m a nm h);
  waited = λ m a nm ne h. ground (arith, mutexes m, l.waited m a nm ne h);
}

pub set_effective-IsLocked :
    (k : Kernel) (own ws : Ptr → List Ptr) (moving t e : ℕ)
    → IsLocked k own ws moving
    → IsLocked (put_thread t (record (k.thread t) { effective_priority = e }) k) own ws moving
set_effective-IsLocked k own ws moving t e l =
    IsLocked-frame k (put_thread t (record (k.thread t) { effective_priority = e }) k) own ws moving
      l (λ a. refl) (λ a. ground arith) (λ m a nm h. ground arith)

-- The owner gives up `m`.
pub remove-IsLocked :
    (k k' : Kernel) (own ws : Ptr → List Ptr) (t m : Ptr)
    → IsLocked k own ws null
    → t ≢ null
    → IsRemoved k t m (own t) k'
    → IsLocked k' (update own t (erase m (own t))) ws m
remove-IsLocked k k' own ws t m l nt r = record {
  owned = λ a na. elim (Bool-cases (t == a)) [
    | inl e ↦ ground (arith, r.chain)
    | inr n ↦
        let rest : Chain (owner_next_of k') (k.thread a).owned_mutexes (own a) null =
          Chain-frame (owner_next_of k) (owner_next_of k') (k.thread a).owned_mutexes (own a) null
            (l.owned a na) (λ x i. ap (λ z. z.owner_next) (r.outside x (apart a x na n i))) in
        ground (arith, r.threads a)
  ];
  distinct = λ a. ground (arith, l.distinct a, Distinct-erase m (own t) (l.distinct t));
  owner = λ a x na h. ground (
    arith,
    r.mutexes x,
    l.owner a x na,
    has-erase_ne x m (own t),
    has-erase_self m (own t) (l.distinct t),
  );
  listed = λ x a nx ne e na.
      ground (arith, r.mutexes x, l.listed x a nx nx, has-erase_ne x m (own t) ne);
  waitq = λ x nx. record {
    chain = ground (
      arith,
      r.mutexes x,
      Chain-frame (wait_next_of k) (wait_next_of k') (k.mutex x).waiters (ws x) null
          (l.waitq x nx).chain (λ a i. ground (arith, same a)),
    );
    distinct = (l.waitq x nx).distinct;
  };
  waiting = λ x a nx h. ground (arith, same a, l.waiting x a nx h);
  waited = λ x a nx ne h. ground (arith, r.mutexes x, l.waited x a nx nx h);
}
  where
    apart : (a x : Ptr) → a ≢ null → (t == a) ≡ false → has x (own a) ≡ true → has x (own t) ≡ false
    apart a x na n i = elim (Bool-cases (has x (own t))) [
      | inl h ↦ ground (arith, l.owner a x na i, l.owner t x nt h)
      | inr out ↦ out
    ]

    same :
        (a : Ptr)
        → (wait_next_of k' a ≡ wait_next_of k a)
          × ((k'.thread a).waiting_on ≡ (k.thread a).waiting_on)
          × ((k'.thread a).state ≡ (k.thread a).state)
    same a = elim (Bool-cases (a == t)) [
      | inl e ↦ ground (arith, r.self)
      | inr n ↦ ground (arith, r.threads a)
    ]
