-- ===== src/Sync/Blocked.antt =====
-- A thread that runs on after blocking, as the only one left: the next round of `mutex_lock` of
-- src/sync.cc puts it on the wait queue again, in front of itself.
use micro_kernel_using_c_plu.Prelude.{
  ℕ, zero, suc, ◌≡◌, ◌≢◌, refl, Option, none, arith, true, false, ◌&&◌, ==-false, ap, sym, ◌∙◌,
}
use micro_kernel_using_c_plu.Prelude.Store.{Ptr, null}
use micro_kernel_using_c_plu.Kernel.{Kernel}
use micro_kernel_using_c_plu.Sched.{preempt_disable, thread_base_priority}
use micro_kernel_using_c_plu.Sync.{
  Best, consider, best_loop, enqueue_waiter, max_waiter, max_waiter_loop, waitq_max_priority,
  first_best, waitq_pop_highest, inherit_loop, Config, mutex_lock_round, lockdep_would_deadlock,
  block_on_mutex, mutex_apply_pi, recompute_effective_priority,
}

best_loop-cycle :
    (f : ℕ) (k : Kernel) (t prev : Ptr) (b : Best)
    → t ≢ null
    → (k.thread t).wait_next ≡ t
    → best_loop f k prev t b ≡ none
unfolding best_loop
best_loop-cycle zero k t prev b nn e = refl
best_loop-cycle (suc f) k t prev b nn e =
    ground (arith, best_loop-cycle f k t t (consider k prev t b) nn e)

max_loop-cycle :
    (f : ℕ) (k : Kernel) (t : Ptr) (best : Option ℕ)
    → t ≢ null
    → (k.thread t).wait_next ≡ t
    → max_waiter_loop f k t best ≡ none
unfolding max_waiter_loop
max_loop-cycle zero k t best nn e = refl
max_loop-cycle (suc f) k t best nn e =
    ground (arith, max_loop-cycle f k t (max_waiter k t best) nn e)

-- The walks of the wait queue of a mutex whose first waiter is enqueued again.
enqueue_waiter-cycle :
    (f : ℕ) (k : Kernel) (cur m : Ptr)
    → cur ≢ null
    → (k.mutex m).waiters ≡ cur
    → let k' = enqueue_waiter cur m k in
      (waitq_max_priority f k' (k'.mutex m).waiters ≡ none)
      × (waitq_pop_highest f (k'.mutex m).waiters k' ≡ none)
unfolding enqueue_waiter waitq_max_priority waitq_pop_highest
enqueue_waiter-cycle f k cur m nn e =
    let k' = enqueue_waiter cur m k in
    ground (
      arith,
      max_loop-cycle f k' cur none nn (ground arith),
      best_loop-cycle f k' cur null (first_best k' cur) nn (ground arith),
    )

inherit_loop-cycle :
    (f : ℕ) (k : Kernel) (m : Ptr) (eff : ℕ)
    → m ≢ null
    → (k.mutex m).pi_enabled ≡ true
    → ((g : ℕ) → waitq_max_priority g k (k.mutex m).waiters ≡ none)
    → inherit_loop f k m eff ≡ none
unfolding inherit_loop
inherit_loop-cycle zero k m eff nm pi hang = refl
inherit_loop-cycle (suc f) k m eff nm pi hang = rw (==-false m null nm, pi, hang f) refl

recompute-hangs :
    (c : Config) (f : ℕ) (k : Kernel) (o m : Ptr)
    → o ≢ null
    → c.mutex_pi ≡ true
    → (k.thread o).owned_mutexes ≡ m
    → inherit_loop f k m (thread_base_priority k o) ≡ none
    → recompute_effective_priority c f o k ≡ none
unfolding recompute_effective_priority
recompute-hangs c f k o m held inherits list hang =
    let walk : inherit_loop f k (k.thread o).owned_mutexes (thread_base_priority k o) ≡ none =
      ap (λ l. inherit_loop f k l (thread_base_priority k o)) list ∙ hang in
    rw (==-false o null held, inherits, walk) refl

apply-hangs :
    (c : Config) (f : ℕ) (k : Kernel) (m : Ptr)
    → m ≢ null
    → (k.mutex m).pi_enabled ≡ true
    → (k.mutex m).owner ≢ null
    → recompute_effective_priority c f (k.mutex m).owner k ≡ none
    → mutex_apply_pi c f m k ≡ none
unfolding mutex_apply_pi
apply-hangs c f k m nm on held run =
    rw (==-false m null nm, on, ==-false (k.mutex m).owner null held, run) refl

block-hangs :
    (c : Config) (f : ℕ) (cur m : Ptr) (k : Kernel)
    → mutex_apply_pi c f m (enqueue_waiter cur m k) ≡ none
    → block_on_mutex c f cur m k ≡ none
unfolding block_on_mutex
block-hangs c f cur m k hang = rw hang refl

-- Let a thread wait already as the first on a mutex that another thread owns, and run on (as a sole
-- blocked thread does, since no other is ready). With inheritance on, for the mutex too, the mutex
-- first on its owner's list, and no deadlock reported by lockdep, the thread's next round of
-- mutex_lock never ends, with any fuel: it makes the wait queue a cycle, and the walk for the
-- highest waiter does not leave it.
pub mutex_lock_round-hangs :
    (c : Config) (f : ℕ) (k : Kernel) (m : Ptr)
    → m ≢ null
    → k.cpu.current_thread ≢ null
    → (k.mutex m).waiters ≡ k.cpu.current_thread
    → (k.mutex m).owner ≢ null
    → (k.mutex m).owner ≢ k.cpu.current_thread
    → (k.thread (k.mutex m).owner).owned_mutexes ≡ m
    → (k.mutex m).pi_enabled ≡ true
    → c.mutex_pi ≡ true
    → (c.lockdep && lockdep_would_deadlock (preempt_disable k) k.cpu.current_thread m) ≡ false
    → mutex_lock_round c f m k ≡ none
unfolding mutex_lock_round preempt_disable enqueue_waiter
mutex_lock_round-hangs c f k m nm nc first held nt owned pi inherits quiet =
    let cur = k.cpu.current_thread in
    let k1 = preempt_disable k in
    let k2 = enqueue_waiter cur m k1 in
    let o = (k.mutex m).owner in
    let on : (k2.mutex m).pi_enabled ≡ true = ground (arith, pi) in
    let same : (k2.mutex m).owner ≡ o = ground arith in
    let still : (k2.mutex m).owner ≢ null = λ e. held (sym same ∙ e) in
    let list : (k2.thread (k2.mutex m).owner).owned_mutexes ≡ m =
      ap (λ a. (k2.thread a).owned_mutexes) same ∙ ground (arith, owned) in
    let hang =
      inherit_loop-cycle f k2 m (thread_base_priority k2 (k2.mutex m).owner) nm on
        (λ g. (enqueue_waiter-cycle g k1 cur m nc first).0) in
    let run = recompute-hangs c f k2 (k2.mutex m).owner m still inherits list hang in
    let block = block-hangs c f cur m k1 (apply-hangs c f k2 m nm on still run) in
    rw (==-false m null nm, ==-false cur null nc, ==-false o cur nt, ==-false o null held, quiet)
      block
