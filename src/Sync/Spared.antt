-- ===== src/Sync/Spared.antt =====
-- Steps of `mutex_unlock` of src/sync.cc that spare the run queue and the priorities.
use micro_kernel_using_c_plu.Prelude.{◌≡◌, ◌≢◌, List, arith, ◌==◌, inl, inr, Bool-cases, ap}
use micro_kernel_using_c_plu.Prelude.Store.{Ptr, null}
use micro_kernel_using_c_plu.Kernel.{Kernel, next_of, set_waiters, set_owner, set_waiting_on}
use micro_kernel_using_c_plu.Sched.Priority.{IsPriority}
use micro_kernel_using_c_plu.Sched.Blocking.{IsRunning, IsQueue-same}
use micro_kernel_using_c_plu.Sync.{Popped, thread_owned_mutex_add}
use micro_kernel_using_c_plu.Sync.Pop.{IsPop}
use micro_kernel_using_c_plu.Sync.Owned.{IsRemoved}

-- What the run queue and the priorities depend on stays.
pub record IsSpared (k k' : Kernel) : Type 0 where
  pub next : (a : Ptr) → next_of k' a ≡ next_of k a
  pub state : (a : Ptr) → (k'.thread a).state ≡ (k.thread a).state
  pub base : (a : Ptr) → (k'.thread a).base_priority ≡ (k.thread a).base_priority
  pub effective : (a : Ptr) → (k'.thread a).effective_priority ≡ (k.thread a).effective_priority
  pub head : k'.rq_head ≡ k.rq_head
  pub tail : k'.rq_tail ≡ k.rq_tail

pub spared-IsRunning :
    (k k' : Kernel) (q : List Ptr) → IsRunning k q → IsSpared k k' → IsRunning k' q
spared-IsRunning k k' q run s = record {
  queue = IsQueue-same k k' q run.queue s.head s.tail s.next;
  all_ready = λ a h. ground (arith, s.state a, run.all_ready a h);
}

pub spared-IsPriority :
    (k k' : Kernel)
    → ((a : Ptr) → IsPriority (k.thread a))
    → IsSpared k k'
    → (a : Ptr) → IsPriority (k'.thread a)
spared-IsPriority k k' prios s a =
    let p = prios a in
    record {
      at_least = ground (arith, s.base a, s.effective a, p.at_least);
      at_most = ground (arith, s.effective a, p.at_most);
    }

pub remove-IsSpared :
    (k k' : Kernel) (t m : Ptr) (ms : List Ptr) → IsRemoved k t m ms k' → IsSpared k k'
remove-IsSpared k k' t m ms r = record {
  next = λ a. ap (λ z. z.next) (same a);
  state = λ a. ap (λ z. z.state) (same a);
  base = λ a. ap (λ z. z.base_priority) (same a);
  effective = λ a. ap (λ z. z.effective_priority) (same a);
  head = ap (λ z. z.rq_head) r.kept;
  tail = ap (λ z. z.rq_tail) r.kept;
}
  where
    same :
        (a : Ptr)
        → k'.thread a ≡ record (k.thread a) { owned_mutexes = (k'.thread a).owned_mutexes }
    same a = elim (Bool-cases (a == t)) [
      | inl e ↦ ground (arith, r.self)
      | inr n ↦ ground (arith, r.threads a)
    ]

-- What the thread waits for, and whether it is READY, stays.
abbrev pub SameWait : Kernel → Kernel → Ptr → Type 0
SameWait k k' a =
    ((k'.thread a).waiting_on ≡ (k.thread a).waiting_on)
    × ((k'.thread a).state ≡ (k.thread a).state)

pub remove-SameWait :
    (k k' : Kernel) (t m : Ptr) (ms : List Ptr)
    → IsRemoved k t m ms k'
    → (a : Ptr) → SameWait k k' a
remove-SameWait k k' t m ms r a = elim (Bool-cases (a == t)) [
  | inl e ↦ ground (arith, r.self)
  | inr n ↦ ground (arith, r.threads a)
]

-- The waiter taken out has the mutex; it is not woken yet.
abbrev pub handed : Ptr → Popped → Kernel
handed m p =
    thread_owned_mutex_add p.thread m
      (set_waiting_on p.thread null (set_owner m p.thread (set_waiters m p.head p.kernel)))

pub handed-IsSpared :
    (k : Kernel) (m : Ptr) (xs : List Ptr) (p : Popped) → IsPop k xs p → IsSpared k (handed m p)
unfolding thread_owned_mutex_add
handed-IsSpared k m xs p r = record {
  next = λ a. ground (arith, r.others a);
  state = λ a. ground (arith, r.others a);
  base = λ a. ground (arith, r.others a);
  effective = λ a. ground (arith, r.others a);
  head = ground (arith, ap (λ z. z.rq_head) r.kept);
  tail = ground (arith, ap (λ z. z.rq_tail) r.kept);
}

pub handed-SameWait :
    (k : Kernel) (m : Ptr) (xs : List Ptr) (p : Popped)
    → IsPop k xs p
    → (a : Ptr) → a ≢ p.thread
    → SameWait k (handed m p) a
unfolding thread_owned_mutex_add
handed-SameWait k m xs p r a ne = ground (arith, r.others a)

pub handed-served : (m : Ptr) (p : Popped) → ((handed m p).thread p.thread).waiting_on ≡ null
unfolding thread_owned_mutex_add
handed-served m p = ground arith

pub handed-owner :
    (k : Kernel) (m : Ptr) (xs : List Ptr) (p : Popped)
    → IsPop k xs p
    → ((handed m p).mutex m).owner ≡ p.thread
unfolding thread_owned_mutex_add
handed-owner k m xs p r = ground arith

pub handed-cpu :
    (k : Kernel) (m : Ptr) (xs : List Ptr) (p : Popped) → IsPop k xs p → (handed m p).cpu ≡ k.cpu
unfolding thread_owned_mutex_add
handed-cpu k m xs p r = ground (arith, ap (λ z. z.cpu) r.kept)
