-- ===== src/Boot/Started.antt =====
-- The system that kmain of src/kmain.cc has made when it calls sched_start.
use micro_kernel_using_c_plu.Prelude.{
  ℕ, ◌+◌, ◌≡◌, ◌≢◌, refl, ap, ◌∙◌, Bool, true, false, ==-false, some, List, [], ◌∷◌, ◌++◌, arith,
  Bool-cases, inl, inr, ◌==◌,
}
use micro_kernel_using_c_plu.Prelude.Store.{Ptr, null, has, has-append}
use micro_kernel_using_c_plu.Kernel.{Kernel, rr, ready, trampoline, next_of, set_budget}
use micro_kernel_using_c_plu.Kmem.{Heap, kmem_alloc_aligned}
use micro_kernel_using_c_plu.Pool.Blocks.{IsPool}
use micro_kernel_using_c_plu.Runqueue.{IsQueue}
use micro_kernel_using_c_plu.Runqueue.Append.{rq_append-append}
use micro_kernel_using_c_plu.Sched.{
  start_in, quantum_ticks, returns, first_thread, sched_add, sched_start,
}
use micro_kernel_using_c_plu.Sched.Blocking.{IsRunning}
use micro_kernel_using_c_plu.Create.{
  default_priority, Machine, default_priority, stack_guard_page_bytes, thread_create,
}
use micro_kernel_using_c_plu.Create.Created.{IsCreated, thread_create_prio-IsCreated}
use micro_kernel_using_c_plu.Boot.{boot_stack_bytes, add_to_queue, goes_on, start_threads}

-- A READY thread that is added stands last in the run queue; of the threads only links change.
record IsAdded (k k' : Kernel) (q : List Ptr) (t : Ptr) : Type 0 where
  running : IsRunning k' (q ++ t ∷ [])
  threads : (a : Ptr) → k'.thread a ≡ record (k.thread a) { next = next_of k' a }

sched_add-IsAdded :
    (k : Kernel) (q : List Ptr) (t : Ptr)
    → IsRunning k q
    → t ≢ null
    → (k.thread t).state ≡ ready
    → has t q ≡ false
    → IsAdded k (sched_add t k) q t
unfolding sched_add
sched_add-IsAdded k q t run nt is out =
    let (r, same) = rq_append-append k q t run.queue nt out in
    rw (==-false t null nt, is)
      (record {
        running = record {
          queue = r;
          all_ready = λ a h. elim (Bool-cases (a == t)) [
            | inl e ↦ ground (arith, same.threads a)
            | inr n ↦ ground (arith, has-append a q (t ∷ []), same.threads a, run.all_ready a)
          ];
        };
        threads = same.threads;
      })

-- The two threads, ready to run their functions, in the order in which they were made.
pub record IsStarted (m : Machine) (a b t1 t2 : ℕ) : Type 0 where
  pub running : IsRunning m.kernel (t1 ∷ t2 ∷ [])
  pub apart : t1 ≢ t2
  pub first :
      ((m.kernel.thread t1).entry ≡ a)
      × ((m.kernel.thread t1).arg ≡ 0xa)
      × ((m.kernel.thread t1).resume ≡ trampoline)
  pub second :
      ((m.kernel.thread t2).entry ≡ b)
      × ((m.kernel.thread t2).arg ≡ 0xb)
      × ((m.kernel.thread t2).resume ≡ trampoline)
  pub ids : (m.kernel.thread t2).id ≡ (m.kernel.thread t1).id + 1

added-IsStarted :
    (m m1 m2 : Machine) (lr a b t1 t2 a1 a2 : ℕ) (xs : List Ptr) (h1 h2 : Heap)
    → IsQueue m.kernel []
    → t1 ≢ null
    → t2 ≢ null
    → t1 ≢ t2
    → IsCreated m m1 lr a 0xa boot_stack_bytes default_priority t1 (t2 ∷ xs) a1 h1
    → IsCreated m1 m2 lr b 0xb boot_stack_bytes default_priority t2 xs a2 h2
    → IsStarted (add_to_queue t2 (add_to_queue t1 m2)) a b t1 t2
added-IsStarted m m1 m2 lr a b t1 t2 a1 a2 xs h1 h2 empty n1 n2 ne c1 c2 =
    let k2 = m2.kernel in
    let head = ap (λ z. z.rq_head) c2.kept ∙ ap (λ z. z.rq_head) c1.kept in
    let tail = ap (λ z. z.rq_tail) c2.kept ∙ ap (λ z. z.rq_tail) c1.kept in
    let none_yet : IsRunning k2 [] = record {
      queue = ground (arith, empty);
      all_ready = λ x i. cc;
    } in
    let before = c2.others t1 ne in
    let one =
      sched_add-IsAdded k2 [] t1 none_yet n1 (ap (λ z. z.state) before ∙ c1.is_ready) refl in
    let k3 = sched_add t1 k2 in
    let two =
      sched_add-IsAdded k3 (t1 ∷ []) t2 one.running n2
        (ap (λ z. z.state) (one.threads t2) ∙ c2.is_ready) (ground arith) in
    record {
      running = two.running;
      apart = ne;
      first =
          ground (arith, two.threads t1, one.threads t1, before, c1.enters, c1.passes, c1.starts);
      second = ground (arith, two.threads t2, one.threads t2, c2.enters, c2.passes, c2.starts);
      ids = ground (
        arith,
        two.threads t1,
        one.threads t1,
        two.threads t2,
        one.threads t2,
        before,
        c1.id,
        c2.id,
        c1.next_id,
      );
    }

start-first :
    (f : ℕ) (k : Kernel) (t : Ptr) (ts : List Ptr)
    → IsRunning k (t ∷ ts)
    → t ≢ null
    → (k' : Kernel) × (sched_start rr f k ≡ some (returns k')) × (k'.cpu.current_thread ≡ t)
unfolding sched_start first_thread
start-first f k t ts run nt =
    let head : k.rq_head ≡ t = run.queue.0 in
    (start_in t (set_budget t quantum_ticks k), rw (head, ==-false t null nt) refl, refl)

start_threads-runs :
    (debug : Bool) (f lr a b t1 t2 : ℕ) (m m1 m2 : Machine)
    → thread_create debug f lr a 0xa boot_stack_bytes m ≡ some (t1, m1)
    → thread_create debug f lr b 0xb boot_stack_bytes m1 ≡ some (t2, m2)
    → t1 ≢ null
    → t2 ≢ null
    → start_threads debug f lr a b m ≡ some (goes_on (add_to_queue t2 (add_to_queue t1 m2)))
unfolding start_threads
start_threads-runs debug f lr a b t1 t2 m m1 m2 e1 e2 n1 n2 =
    rw (e1, e2, ==-false t1 null n1, ==-false t2 null n2) refl

-- With two free blocks in the pool of threads, room on the heap for two stacks and an empty run
-- queue, kmain goes on with both threads READY and queued in their order; with the policy
-- SCHED_POLICY_RR, sched_start then runs the first one.
pub start_threads-IsStarted :
    (debug : Bool) (f lr a b : ℕ) (m : Machine) (t1 t2 a1 a2 : ℕ) (xs : List Ptr) (h1 h2 : Heap)
    → a ≢ 0
    → b ≢ 0
    → m.pool_inited ≡ true
    → IsPool m.pool (t1 ∷ t2 ∷ xs)
    → IsQueue m.kernel []
    → kmem_alloc_aligned (boot_stack_bytes + stack_guard_page_bytes) stack_guard_page_bytes m.heap
      ≡ (some a1, h1)
    → kmem_alloc_aligned (boot_stack_bytes + stack_guard_page_bytes) stack_guard_page_bytes h1
      ≡ (some a2, h2)
    → (m' : Machine) × (start_threads debug f lr a b m ≡ some (goes_on m'))
      × IsStarted m' a b t1 t2
      × ((k : Kernel) × (sched_start rr f m'.kernel ≡ some (returns k))
          × (k.cpu.current_thread ≡ t1))
unfolding thread_create
start_threads-IsStarted debug f lr a b m t1 t2 a1 a2 xs h1 h2 na nb inited pool empty grant1
      grant2 =
    let (m1, e1, c1) =
      thread_create_prio-IsCreated debug f lr a 0xa boot_stack_bytes default_priority m t1 (t2 ∷ xs)
        a1 h1 na (omega arith) (omega arith) inited pool grant1 in
    let (m2, e2, c2) =
      thread_create_prio-IsCreated debug f lr b 0xb boot_stack_bytes default_priority m1 t2 xs a2 h2
        nb (omega arith) (omega arith) (c1.inited ∙ inited) c1.pool
        (ap (kmem_alloc_aligned (boot_stack_bytes + stack_guard_page_bytes) stack_guard_page_bytes)
            c1.heap
          ∙ grant2) in
    let n1 = pool.chain.1 in
    let n2 = c1.pool.chain.1 in
    let ne : t1 ≢ t2 = ground (arith, pool.distinct.0) in
    let m' = add_to_queue t2 (add_to_queue t1 m2) in
    let s = added-IsStarted m m1 m2 lr a b t1 t2 a1 a2 xs h1 h2 empty n1 n2 ne c1 c2 in
    (
      m',
      start_threads-runs debug f lr a b t1 t2 m m1 m2 e1 e2 n1 n2,
      s,
      start-first f m'.kernel t1 (t2 ∷ []) s.running n1,
    )
