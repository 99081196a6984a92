-- ===== src/Sync/Steps.antt =====
-- The mutexes of src/sync.cc as a state machine: a step is what one call does between its
-- preempt_disable and its preempt_enable, or the choice of another thread to run.
use micro_kernel_using_c_plu.Prelude.{ℕ, ◌≤◌, ◌≡◌, ◌≢◌, some}
use micro_kernel_using_c_plu.Prelude.Store.{Ptr, null}
use micro_kernel_using_c_plu.Kernel.{Kernel, ready}
use micro_kernel_using_c_plu.Sched.{sched_block_current}
use micro_kernel_using_c_plu.Sync.{
  Config, release_mutex, take_mutex, enqueue_waiter, mutex_apply_pi,
}

-- The current thread runs.
abbrev pub Acts : Kernel → Type 0
Acts k = (k.cpu.current_thread ≢ null) × ((k.thread k.cpu.current_thread).state ≡ ready)

-- With the fuel `f0`, or more, the walks of a step end with the same kernel.
pub data Step (c : Config) : Kernel → Kernel → Type 0 where
  unlock :
      (k k' : Kernel) (m : Ptr) (f0 : ℕ)
      → Acts k
      → m ≢ null
      → (k.mutex m).owner ≡ k.cpu.current_thread
      → ((f : ℕ) → f0 ≤ f → release_mutex c f k.cpu.current_thread m k ≡ some k')
      → Step c k k'
  take :
      (k : Kernel) (m : Ptr)
      → Acts k
      → m ≢ null
      → (k.mutex m).owner ≡ null
      → Step c k (take_mutex k.cpu.current_thread m k)
  wait :
      (k k2 k' : Kernel) (m : Ptr) (f0 : ℕ)
      → Acts k
      → m ≢ null
      → (k.mutex m).owner ≢ null
      → (k.mutex m).owner ≢ k.cpu.current_thread
      → ((f : ℕ)
          → f0 ≤ f
          → mutex_apply_pi c f m (enqueue_waiter k.cpu.current_thread m k) ≡ some k2)
      → ((f : ℕ) → f0 ≤ f → sched_block_current f k2 ≡ some k')
      → Step c k k'
  switch :
      (k : Kernel) (t : Ptr)
      → (k.thread t).state ≡ ready
      → Step c k (record k { cpu = record (k.cpu) { current_thread = t } })

pub data Reach (c : Config) (k : Kernel) : Kernel → Type 0 where
  here : Reach c k k
  next : {k' k'' : Kernel} → Reach c k k' → Step c k' k'' → Reach c k k''
