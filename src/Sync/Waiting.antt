-- ===== src/Sync/Waiting.antt =====
-- Blocking on a mutex that is owned, in `mutex_lock` of src/sync.cc.
use micro_kernel_using_c_plu.Prelude.{
  ℕ, suc, ◌≤◌, ◌≡◌, ◌≢◌, refl, false, true, List, [], ◌∷◌, arith, ◌==◌, inl, inr, Bool-cases, ap,
  some, ◌∙◌, ◌>>=◌,
}
use micro_kernel_using_c_plu.Prelude.Store.{
  Ptr, null, has, update, erase, length, Chain, Chain-frame,
}
use micro_kernel_using_c_plu.Kernel.{Kernel, ready, blocked, set_need_resched}
use micro_kernel_using_c_plu.Sched.{thread_effective_priority, sched_block_current, preempt_enable}
use micro_kernel_using_c_plu.Sched.Priority.{IsPriority}
use micro_kernel_using_c_plu.Sched.Blocking.{IsRunning, IsBlocked}
use micro_kernel_using_c_plu.Sync.{Config, again, enqueue_waiter, mutex_apply_pi, block_on_mutex}
use micro_kernel_using_c_plu.Sync.Waitq.{wait_next_of}
use micro_kernel_using_c_plu.Sync.Inherit.{owner_next_of}
use micro_kernel_using_c_plu.Sync.Locked.{IsLocked}
use micro_kernel_using_c_plu.Sync.Raising.{IsShort, IsRaising, raising-IsRunning}
use micro_kernel_using_c_plu.Sync.Spared.{spared-IsRunning}
use micro_kernel_using_c_plu.Sync.Spared.{SameWait}
use micro_kernel_using_c_plu.Sync.Taken.{ready-IsFree, block-at}
use micro_kernel_using_c_plu.Sync.Enqueued.{
  enqueued-IsSpared, enqueued-mutex, enqueued-cpu, applied,
}

-- `cur` waits for `m`: out of the run queue, with its owner's priority raised. The wait queue holds
-- `cur` and nobody else.
pub record IsWaiting (c : Config) (k k' : Kernel) (own ws : Ptr → List Ptr) (q : List Ptr)
    (cur m : Ptr) : Type 0 where
  pub locked : IsLocked k' own (update ws m (cur ∷ [])) null
  pub running : IsRunning k' (erase cur q)
  pub is_blocked : (k'.thread cur).state ≡ blocked
  pub waiting_on : (k'.thread cur).waiting_on ≡ m
  pub owner : (k'.mutex m).owner ≡ (k.mutex m).owner
  pub others : (a : Ptr) → a ≢ cur → SameWait k k' a
  pub prios : (a : Ptr) → IsPriority (k'.thread a)
  pub inherited :
      c.mutex_pi ≡ true
      → (k.mutex m).pi_enabled ≡ true
      → thread_effective_priority k cur ≤ thread_effective_priority k' (k.mutex m).owner
  pub lost :
      (a : Ptr)
      → has a (ws m) ≡ true
      → ((k'.thread a).state ≡ blocked)
        × ((k'.thread a).waiting_on ≡ m)
        × ((x : Ptr) → x ≢ null → has a (update ws m (cur ∷ []) x) ≡ false)

module _ (c : Config) (f : ℕ) (k : Kernel) (own ws : Ptr → List Ptr) (q : List Ptr) (cur m : Ptr)
    (l : IsLocked k own ws null) (run : IsRunning k q) (prios : (a : Ptr) → IsPriority (k.thread a))
    (short : IsShort own ws f) (nm : m ≢ null) (nc : cur ≢ null) (owned : (k.mutex m).owner ≢ null)
    (alive : (k.thread cur).state ≡ ready) where
  block-runs :
      {k2 k3 : Kernel}
      → mutex_apply_pi c (suc (suc f)) m (enqueue_waiter cur m k) ≡ some k2
      → sched_block_current (suc (suc f)) k2 ≡ some k3
      → block_on_mutex c (suc (suc f)) cur m k
        ≡ (preempt_enable c.policy (suc (suc f)) (set_need_resched 1 k3) >>= λ k4. some (again k4))
  unfolding block_on_mutex
  block-runs a b = rw (a, b) refl

  others :
      (k2 k3 : Kernel)
      → IsRaising (enqueue_waiter cur m k) k2
      → IsBlocked k2 k3 q cur
      → (a : Ptr) → a ≢ cur
      → (wait_next_of k3 a ≡ wait_next_of k a) × SameWait k k3 a
  unfolding enqueue_waiter
  others k2 k3 r b a ne = ground (arith, b.others a ne, r.threads a)

  -- What the kernel holds once `cur` is out of the run queue.
  blocked-IsLocked :
      (k2 k3 : Kernel)
      → IsRaising (enqueue_waiter cur m k) k2
      → IsBlocked k2 k3 q cur
      → IsLocked k3 own (update ws m (cur ∷ [])) null
  unfolding enqueue_waiter
  blocked-IsLocked k2 k3 r b = record {
    owned = λ a na. ground (
      arith,
      fields a,
      Chain-frame (owner_next_of k) (owner_next_of k3) (k.thread a).owned_mutexes (own a) null
          (l.owned a na) (λ x i. ground (arith, mutexes)),
    );
    distinct = l.distinct;
    owner = λ a x na h. ground (arith, mutexes, l.owner a x na h);
    listed = λ x a nx ne e na. ground (arith, mutexes, l.listed x a nx ne);
    waitq = λ x nx. elim (Bool-cases (m == x)) [
      | inl e ↦ rw e (record { chain = ground (arith, mutexes, b.self); distinct = (refl, tt) })
      | inr n ↦
          let free = ready-IsFree k own ws null cur l alive in
          let rest : Chain (wait_next_of k3) (k.mutex x).waiters (ws x) null =
            Chain-frame (wait_next_of k) (wait_next_of k3) (k.mutex x).waiters (ws x) null
              (l.waitq x nx).chain (λ a i. ground (arith, free x nx, others k2 k3 r b a)) in
          rw n (record { chain = ground (arith, mutexes); distinct = (l.waitq x nx).distinct })
    ];
    waiting = λ x a nx h. elim (Bool-cases (cur == a)) [
      | inl e ↦ ground (arith, ready-IsFree k own ws null cur l alive x nx, self)
      | inr n ↦ ground (arith, others k2 k3 r b a, l.waiting x a nx)
    ];
    waited = λ x a nx ne h. ground (arith, mutexes, l.waited x a nx ne);
  }
    where
      mutexes : k3.mutex ≡ (enqueue_waiter cur m k).mutex
      mutexes = ap (λ z. z.mutex) b.kept ∙ ap (λ z. z.mutex) r.kept

      fields : (a : Ptr) → (k3.thread a).owned_mutexes ≡ (k.thread a).owned_mutexes
      fields a = ground (arith, b.self, b.others a, r.threads a)

      self : ((k3.thread cur).waiting_on ≡ m) × ((k3.thread cur).state ≡ blocked)
      self = ground (arith, b.self, r.threads cur)

  forgotten :
      (k2 k3 : Kernel)
      → IsRaising (enqueue_waiter cur m k) k2
      → IsBlocked k2 k3 q cur
      → (a : Ptr) → has a (ws m) ≡ true
      → ((k3.thread a).state ≡ blocked)
        × ((k3.thread a).waiting_on ≡ m)
        × ((x : Ptr) → x ≢ null → has a (update ws m (cur ∷ []) x) ≡ false)
  unfolding enqueue_waiter
  forgotten k2 k3 r b a h =
      let ne : a ≢ cur = λ e. ground (arith, ready-IsFree k own ws null cur l alive m nm) in
      let was = l.waiting m a nm h in
      (
        ground (arith, was, b.others a ne, r.threads a),
        ground (arith, was, b.others a ne, r.threads a),
        λ x nx. elim (Bool-cases (has a (ws x))) [
          | inl i ↦ ground (arith, was, l.waiting x a nx i)
          | inr out ↦ ground arith
        ],
      )

  blocked-IsPriority :
      (k2 k3 : Kernel)
      → IsRaising (enqueue_waiter cur m k) k2
      → IsBlocked k2 k3 q cur
      → (a : Ptr) → IsPriority (k3.thread a)
  blocked-IsPriority k2 k3 r b a =
      let p = r.prios a in
      elim (Bool-cases (a == cur)) [
        | inl e ↦ record {
          at_least = ground (arith, b.self, p.at_least);
          at_most = ground (arith, b.self, p.at_most);
        }
        | inr n ↦ record {
          at_least = ground (arith, b.others a, p.at_least);
          at_most = ground (arith, b.others a, p.at_most);
        }
      ]

  -- The two calls of blocking that may loop.
  pub blocked-IsWaiting :
      k.cpu.current_thread ≡ cur
      → length q ≤ suc (suc f)
      → (k2 : Kernel) × (k' : Kernel) × (mutex_apply_pi c (suc (suc f)) m (enqueue_waiter cur m k)
          ≡ some k2)
        × (sched_block_current (suc (suc f)) k2 ≡ some k')
        × IsWaiting c k k' own ws q cur m
  unfolding thread_effective_priority
  blocked-IsWaiting here fuel =
      let k1 = enqueue_waiter cur m k in
      let (k2, e, r, inherits) = applied c f k own ws q cur m l run prios short nm nc owned alive in
      let cpu2 = ap (λ z. z.cpu) r.kept ∙ (enqueued-cpu k cur m) in
      let run2 =
        raising-IsRunning k1 k2 q (spared-IsRunning k k1 q run (enqueued-IsSpared k cur m)) r in
      let alive2 =
        ap (λ z. z.state) (r.threads cur) ∙ (enqueued-IsSpared k cur m).state cur ∙ alive in
      let (k3, e3, b) =
        block-at (suc (suc f)) k2 q cur (ap (λ z. z.current_thread) cpu2 ∙ here) run2 fuel nc
          alive2 in
      let l3 = blocked-IsLocked k2 k3 r b in
      (
        k2,
        k3,
        e,
        e3,
        record {
          locked = l3;
          running = b.running;
          is_blocked = ap (λ z. z.state) b.self;
          waiting_on = (l3.waiting m cur nm (ground arith)).0;
          owner =
              ap (λ z. (z.mutex m).owner) b.kept
              ∙ ap (λ z. (z.mutex m).owner) r.kept
              ∙ (enqueued-mutex k cur m).0;
          prios = blocked-IsPriority k2 k3 r b;
          inherited = λ pi on.
              let t = (k.mutex m).owner in ground (arith, inherits pi on, b.self, b.others t);
          others = λ a na. (others k2 k3 r b a na).1;
          lost = forgotten k2 k3 r b;
        },
      )

  -- The steps of blocking up to the request for a switch.
  pub block-IsWaiting :
      k.cpu.current_thread ≡ cur
      → length q ≤ suc (suc f)
      → (k' : Kernel) × (block_on_mutex c (suc (suc f)) cur m k ≡ (
          preempt_enable c.policy (suc (suc f)) (set_need_resched 1 k') >>= λ k3. some (again k3)))
        × IsWaiting c k k' own ws q cur m
  block-IsWaiting here fuel =
      let (k2, k3, e, e3, w) = blocked-IsWaiting here fuel in (k3, block-runs e e3, w)
