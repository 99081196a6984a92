-- ===== src/Sync/Enqueued.antt =====
-- The state in which `mutex_lock` of src/sync.cc has put the thread into the wait queue, and the
-- priority that the owner inherits.
use micro_kernel_using_c_plu.Prelude.{
  ℕ, suc, ◌≤◌, ◌≡◌, ◌≢◌, refl, true, List, ◌∷◌, arith, inl, inr, Bool-cases, ap, some, sym, ◌∙◌,
}
use micro_kernel_using_c_plu.Prelude.Store.{Ptr, null, update, Chain, Chain-frame, Chain-ne_null}
use micro_kernel_using_c_plu.Kernel.{Kernel, ready}
use micro_kernel_using_c_plu.Sched.{thread_effective_priority}
use micro_kernel_using_c_plu.Sched.Priority.{IsPriority}
use micro_kernel_using_c_plu.Sched.Blocking.{IsRunning}
use micro_kernel_using_c_plu.Sync.{
  Config, enqueue_waiter, mutex_apply_pi, recompute_effective_priority,
}
use micro_kernel_using_c_plu.Sync.Waitq.{wait_next_of, IsWaitq}
use micro_kernel_using_c_plu.Sync.Inherit.{owner_next_of, IsOwned}
use micro_kernel_using_c_plu.Sync.Locked.{IsLocked}
use micro_kernel_using_c_plu.Sync.Raising.{
  IsShort, IsRaising, recompute-Inherits, apply_pi-on, apply_pi-off,
}
use micro_kernel_using_c_plu.Sync.Spared.{IsSpared, spared-IsPriority}
use micro_kernel_using_c_plu.Sync.Taken.{ready-IsFree}

pub enqueued-IsSpared : (k : Kernel) (cur m : Ptr) → IsSpared k (enqueue_waiter cur m k)
unfolding enqueue_waiter
enqueued-IsSpared k cur m = record {
  next = λ a. ground arith;
  state = λ a. ground arith;
  base = λ a. ground arith;
  effective = λ a. ground arith;
  head = refl;
  tail = refl;
}

pub enqueued-mutex :
    (k : Kernel) (cur m : Ptr)
    → (((enqueue_waiter cur m k).mutex m).owner ≡ (k.mutex m).owner)
      × (((enqueue_waiter cur m k).mutex m).pi_enabled ≡ (k.mutex m).pi_enabled)
unfolding enqueue_waiter
enqueued-mutex k cur m = ground arith

pub enqueued-cpu : (k : Kernel) (cur m : Ptr) → (enqueue_waiter cur m k).cpu ≡ k.cpu
unfolding enqueue_waiter
enqueued-cpu k cur m = refl

module _ (c : Config) (f : ℕ) (k : Kernel) (own ws : Ptr → List Ptr) (q : List Ptr) (cur m : Ptr)
    (l : IsLocked k own ws null) (run : IsRunning k q) (prios : (a : Ptr) → IsPriority (k.thread a))
    (short : IsShort own ws f) (nm : m ≢ null) (nc : cur ≢ null) (owned : (k.mutex m).owner ≢ null)
    (alive : (k.thread cur).state ≡ ready) where
  queue1 :
      (x : Ptr)
      → x ≢ null
      → IsWaitq
          (enqueue_waiter cur m k)
          ((enqueue_waiter cur m k).mutex x).waiters
          (update ws m (cur ∷ ws m) x)
  unfolding enqueue_waiter
  queue1 x nx =
      let k1 = enqueue_waiter cur m k in
      let free = ready-IsFree k own ws null cur l alive in
      let rest : Chain (wait_next_of k1) (k.mutex x).waiters (ws x) null =
        Chain-frame (wait_next_of k) (wait_next_of k1) (k.mutex x).waiters (ws x) null
          (l.waitq x nx).chain (λ a i. ground (arith, free x nx)) in
      record { chain = ground arith; distinct = ground (arith, (l.waitq x nx).distinct, free x nx) }

  owned1 :
      IsOwned
        (enqueue_waiter cur m k)
        (suc (suc f))
        ((enqueue_waiter cur m k).thread (k.mutex m).owner).owned_mutexes
        (own (k.mutex m).owner)
        (update ws m (cur ∷ ws m))
  unfolding enqueue_waiter
  owned1 =
      let t = (k.mutex m).owner in
      let k1 = enqueue_waiter cur m k in
      let chain : Chain (owner_next_of k1) (k.thread t).owned_mutexes (own t) null =
        Chain-frame (owner_next_of k) (owner_next_of k1) (k.thread t).owned_mutexes (own t) null
          (l.owned t owned) (λ a i. ground arith) in
      record {
        chain = ground arith;
        waitq = λ x h. queue1 x (
            Chain-ne_null (owner_next_of k) (k.thread t).owned_mutexes x (own t) null
              (l.owned t owned) h);
        short = λ x h. ground (arith, short t x, short t m);
      }

  -- The owner inherits.
  pub applied :
      (k2 : Kernel) × (mutex_apply_pi c (suc (suc f)) m (enqueue_waiter cur m k) ≡ some k2)
      × IsRaising (enqueue_waiter cur m k) k2
      × (c.mutex_pi ≡ true
          → (k.mutex m).pi_enabled ≡ true
          → thread_effective_priority k cur ≤ thread_effective_priority k2 (k.mutex m).owner)
  unfolding thread_effective_priority
  applied =
      let t = (k.mutex m).owner in
      let k1 = enqueue_waiter cur m k in
      let prios1 = spared-IsPriority k k1 prios (enqueued-IsSpared k cur m) in
      let same = (enqueued-mutex k cur m) in
      elim (Bool-cases (k.mutex m).pi_enabled) [
        | inl on ↦
            let few = short t m in
            let (k2, e, r, i) =
              recompute-Inherits c (suc (suc f)) k1 t (own t) (update ws m (cur ∷ ws m)) owned1
                (omega arith) prios1 owned in
            (
              k2,
              apply_pi-on c (suc (suc f)) k1 m nm (λ z. owned (sym same.0 ∙ z)) (same.1 ∙ on)
                  ∙ ap (λ z. recompute_effective_priority c (suc (suc f)) z k1) same.0
                  ∙ e,
              r,
              λ pi _. ground (
                arith,
                (i pi).covers m cur (l.listed m t nm nm refl owned) (same.1 ∙ on) (ground arith),
                (enqueued-IsSpared k cur m).effective cur,
              ),
            )
        | inr off ↦ (
          k1,
          apply_pi-off c (suc (suc f)) k1 m nm (same.1 ∙ off),
          record { threads = λ a. refl; kept = refl; prios = prios1 },
          λ pi on. absurd cc,
        )
      ]
