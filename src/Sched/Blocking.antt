-- ===== src/Sched/Blocking.antt =====
-- Blocking and waking threads, on the list of the run queue.
use mathlib.Core.Path.{subst}
use micro_kernel_using_c_plu.Prelude.{
  sym, ℕ, ◌≤◌, ◌≡◌, ◌≢◌, refl, true, false, List, [], ◌∷◌, ◌++◌, some, arith, ◌==◌, Bool-cases, inl,
  inr, ==-false,
}
use micro_kernel_using_c_plu.Prelude.Store.{
  Ptr, null, Distinct, has, length, erase, Chain-frame, has-append, has-erase_self, has-erase_ne,
}
use micro_kernel_using_c_plu.Kernel.{
  Kernel, ready, blocked, next_of, set_state, set_wait_next, set_budget,
}
use micro_kernel_using_c_plu.Runqueue.{rq_append, IsQueue, SameButNext}
use micro_kernel_using_c_plu.Runqueue.Append.{rq_append-append}
use micro_kernel_using_c_plu.Runqueue.Remove.{rq_remove-erase}
use micro_kernel_using_c_plu.Sched.{sched_block_current, sched_make_runnable, quantum_ticks}

-- The queue holds the threads of the list, and every one of them is ready.
pub record IsRunning (k : Kernel) (q : List Ptr) : Type 0 where
  pub queue : IsQueue k q
  pub all_ready : (a : Ptr) → has a q ≡ true → (k.thread a).state ≡ ready

-- A change that leaves the links and the ends alone leaves the queue alone.
pub IsQueue-same :
    (k k' : Kernel) (q : List Ptr)
    → IsQueue k q
    → k'.rq_head ≡ k.rq_head
    → k'.rq_tail ≡ k.rq_tail
    → ((a : Ptr) → next_of k' a ≡ next_of k a)
    → IsQueue k' q
IsQueue-same k k' [] r h t same = ground arith
IsQueue-same k k' (x ∷ xs) r h t same = (
  ground arith,
  ground arith,
  Chain-frame (next_of k) (next_of k') x (x ∷ xs) x r.2 (λ a _. same a),
  r.3,
)

Distinct-of : (k : Kernel) (q : List Ptr) → IsQueue k q → Distinct q
Distinct-of k [] r = tt
Distinct-of k (x ∷ xs) r = r.3

-- A thread blocked by `sched_block_current`: out of the queue, with the others as they were.
pub record IsBlocked (k k' : Kernel) (q : List Ptr) (t : Ptr) : Type 0 where
  pub running : IsRunning k' (erase t q)
  pub self :
      k'.thread t ≡ record (k.thread t) { next = next_of k' t; wait_next = null; state = blocked }
  pub others : (a : Ptr) → a ≢ t → k'.thread a ≡ record (k.thread a) { next = next_of k' a }
  pub kept : k' ≡ record k { thread = k'.thread; rq_head = k'.rq_head; rq_tail = k'.rq_tail }

block-IsBlocked :
    (k k1 : Kernel) (q : List Ptr) (t : Ptr)
    → IsRunning k q
    → IsQueue k1 (erase t q)
    → has t (erase t q) ≡ false
    → SameButNext k k1
    → IsBlocked k (set_wait_next t null (set_state t blocked k1)) q t
block-IsBlocked k k1 q t run r out same = record {
  running = record {
    queue =
        IsQueue-same k1 (set_wait_next t null (set_state t blocked k1)) (erase t q) r refl refl
          (λ a. ground arith);
    all_ready = λ a h. still a h;
  };
  self = ground (arith, same.threads t);
  others = λ a ne. ground (arith, same.threads a);
  kept = ground (arith, same.rest);
}
  where
    still :
        (a : Ptr)
        → has a (erase t q) ≡ true
        → ((set_wait_next t null (set_state t blocked k1)).thread a).state ≡ ready
    still a h = elim (Bool-cases (a == t)) [
      | inl e ↦ ground arith
      | inr n ↦ ground (arith, has-erase_ne a t q (ground arith), same.threads a, run.all_ready a)
    ]

-- The running thread that blocks leaves the run queue, is BLOCKED and waits nowhere yet; every
-- other thread keeps all but its link, and so does the rest of the kernel.
pub sched_block_current-IsBlocked :
    (f : ℕ) (k : Kernel) (q : List Ptr)
    → IsRunning k q
    → length q ≤ f
    → k.cpu.current_thread ≢ null
    → (k.thread k.cpu.current_thread).state ≡ ready
    → (k' : Kernel) × (sched_block_current f k ≡ some k') × IsBlocked k k' q k.cpu.current_thread
unfolding sched_block_current
sched_block_current-IsBlocked f k q run fuel cur is =
    let t = k.cpu.current_thread in
    let (k1, e, r, same) = rq_remove-erase f k q t run.queue cur fuel in
    (
      set_wait_next t null (set_state t blocked k1),
      ground arith,
      block-IsBlocked k k1 q t run r (has-erase_self t q (Distinct-of k q run.queue)) same,
    )

-- A thread woken by `sched_make_runnable`: last in the queue, with a full time slice.
pub record IsWoken (k k' : Kernel) (q : List Ptr) (t : Ptr) : Type 0 where
  pub running : IsRunning k' (q ++ t ∷ [])
  pub self : k'.thread t ≡ record (k.thread t) {
    next = next_of k' t;
    budget = quantum_ticks;
    wait_next = null;
    state = ready;
  }
  pub others : (a : Ptr) → a ≢ t → k'.thread a ≡ record (k.thread a) { next = next_of k' a }
  pub kept : k' ≡ record k { thread = k'.thread; rq_head = k'.rq_head; rq_tail = k'.rq_tail }

-- The thread as it is queued again.
abbrev made_ready : Ptr → Kernel → Kernel
made_ready t k = set_budget t quantum_ticks (set_wait_next t null (set_state t ready k))

make_runnable-append :
    (k : Kernel) (t : Ptr)
    → t ≢ null
    → (k.thread t).state ≡ blocked
    → sched_make_runnable t k ≡ rq_append t (made_ready t k)
unfolding sched_make_runnable
make_runnable-append k t nn is = rw (==-false t null nn, is)

blocked-out :
    (k : Kernel) (q : List Ptr) (t : Ptr)
    → IsRunning k q
    → (k.thread t).state ≡ blocked
    → has t q ≡ false
blocked-out k q t run is = elim (Bool-cases (has t q)) [
  | inl h ↦ ground (arith, run.all_ready t h)
  | inr n ↦ n
]

append-IsWoken :
    (k : Kernel) (q : List Ptr) (t : Ptr) {k2 : Kernel}
    → IsRunning k q
    → (k.thread t).state ≡ blocked
    → IsQueue k2 (q ++ t ∷ []) × SameButNext (made_ready t k) k2
    → IsWoken k k2 q t
append-IsWoken k q t {k2} run is (r, same) = record {
  running = record { queue = r; all_ready = still };
  self = ground (arith, same.threads t);
  others = λ a ne. ground (arith, same.threads a);
  kept = ground (arith, same.rest);
}
  where
    still : (a : Ptr) → has a (q ++ t ∷ []) ≡ true → (k2.thread a).state ≡ ready
    still a h = elim (Bool-cases (a == t)) [
      | inl e ↦ ground (arith, same.threads a)
      | inr n ↦ ground (arith, has-append a q (t ∷ []), same.threads a, run.all_ready a)
    ]

-- A BLOCKED thread that is woken stands last in the run queue, READY, with a full time slice, and
-- nothing but links changes elsewhere.
pub sched_make_runnable-IsWoken :
    (k : Kernel) (q : List Ptr) (t : Ptr)
    → IsRunning k q
    → t ≢ null
    → (k.thread t).state ≡ blocked
    → IsWoken k (sched_make_runnable t k) q t
sched_make_runnable-IsWoken k q t run nn is =
    subst (λ k'. IsWoken k k' q t) (sym (make_runnable-append k t nn is))
      (append-IsWoken k q t run is (
        rq_append-append (made_ready t k) q t
          (IsQueue-same k (made_ready t k) q run.queue refl refl (λ a. ground arith)) nn
          (blocked-out k q t run is)))

-- A READY thread is not woken twice.
sched_make_runnable-ready :
    (k : Kernel) (t : Ptr) → (k.thread t).state ≡ ready → sched_make_runnable t k ≡ k
unfolding sched_make_runnable
sched_make_runnable-ready k t is = ground arith
