-- ===== src/Sync/Raising.antt =====
-- Recomputing priorities in src/sync.cc ends, and spares the queues and the mutexes.
use mathlib.Core.Path.{subst}
use micro_kernel_using_c_plu.Prelude.{
  ℕ, ◌≤◌, ◌+◌, ◌<◌, ◌≡◌, ◌≢◌, refl, false, true, List, arith, ◌==◌, inl, inr, Bool-cases, ==-false,
  ap, some, sym, ◌∙◌,
}
use micro_kernel_using_c_plu.Prelude.Store.{Ptr, null, length, Chain-ne_null}
use micro_kernel_using_c_plu.Kernel.{Kernel, put_thread}
use micro_kernel_using_c_plu.Sched.{max_priority}
use micro_kernel_using_c_plu.Sched.Priority.{
  IsPriority, set_effective_lem, thread_base_priority_lem,
}
use micro_kernel_using_c_plu.Sched.Blocking.{IsRunning, IsQueue-same}
use micro_kernel_using_c_plu.Sync.{Config, recompute_effective_priority, mutex_apply_pi}
use micro_kernel_using_c_plu.Sync.Inherit.{
  owner_next_of, IsOwned, IsInherited, IsInherited-le, recompute-IsInherited,
}
use micro_kernel_using_c_plu.Sync.Locked.{IsLocked, IsLocked-frame}

-- Every walk over a queue, or over the owned mutexes and their queues, ends within the fuel.
abbrev pub IsShort : (Ptr → List Ptr) → (Ptr → List Ptr) → ℕ → Type 0
IsShort own ws f = (t m : Ptr) → length (ws m) + length (own t) < f

-- Nothing changes but effective priorities, and these are priorities again.
pub record IsRaising (k k' : Kernel) : Type 0 where
  pub threads :
      (a : Ptr)
      → k'.thread a ≡ record (k.thread a) { effective_priority = (k'.thread a).effective_priority }
  pub kept : k' ≡ record k { thread = k'.thread }
  pub prios : (a : Ptr) → IsPriority (k'.thread a)

pub raising-IsLocked :
    (k k' : Kernel) (own ws : Ptr → List Ptr)
    → IsLocked k own ws null
    → IsRaising k k'
    → IsLocked k' own ws null
raising-IsLocked k k' own ws l r =
    IsLocked-frame k k' own ws null l (λ a. ap (λ z. z.mutex a) r.kept)
      (λ a. ap (λ z. z.owned_mutexes) (r.threads a)) (λ m a nm h. ground (arith, r.threads a))

pub raising-IsRunning :
    (k k' : Kernel) (q : List Ptr) → IsRunning k q → IsRaising k k' → IsRunning k' q
raising-IsRunning k k' q run r = record {
  queue =
      IsQueue-same k k' q run.queue (ap (λ z. z.rq_head) r.kept) (ap (λ z. z.rq_tail) r.kept)
        (λ a. ap (λ z. z.next) (r.threads a));
  all_ready = λ a h. ground (arith, r.threads a, run.all_ready a h);
}

set_effective-IsRaising :
    (k : Kernel) (t e : Ptr)
    → ((a : Ptr) → IsPriority (k.thread a))
    → (k.thread t).base_priority ≤ e
    → e ≤ max_priority
    → IsRaising k (put_thread t (record (k.thread t) { effective_priority = e }) k)
set_effective-IsRaising k t e prios lo hi = record {
  threads = λ a. ground arith;
  kept = refl;
  prios = λ a. elim (Bool-cases (t == a)) [
    | inl y ↦ record { at_least = ground arith; at_most = ground arith }
    | inr n ↦
        let p = prios a in
        record { at_least = ground (arith, p.at_least); at_most = ground (arith, p.at_most) }
  ];
}

-- With MUTEX_PI the thread runs at no less than the priority of any thread that waits for a mutex
-- of the list with inheritance.
abbrev pub Inherits : Config → Kernel → List Ptr → (Ptr → List Ptr) → Ptr → Kernel → Type 0
Inherits c k ms ws t k' =
    c.mutex_pi ≡ true
    → IsInherited k ms ws (k.thread t).base_priority (k'.thread t).effective_priority

-- Recomputing a thread's priority ends.
pub recompute-Inherits :
    (c : Config) (f : ℕ) (k : Kernel) (t : Ptr) (ms : List Ptr) (ws : Ptr → List Ptr)
    → IsOwned k f (k.thread t).owned_mutexes ms ws
    → length ms < f
    → ((a : Ptr) → IsPriority (k.thread a))
    → t ≢ null
    → (k' : Kernel) × (recompute_effective_priority c f t k ≡ some k')
      × IsRaising k k'
      × Inherits c k ms ws t k'
unfolding recompute_effective_priority
recompute-Inherits c f k t ms ws owned few prios nt = elim (Bool-cases c.mutex_pi) [
  | inl on ↦
      let (e, run, i) = recompute-IsInherited c f k t ms ws on nt owned few prios in
      (
        put_thread t (record (k.thread t) { effective_priority = e }) k,
        run,
        set_effective-IsRaising k t e prios i.at_least (IsInherited-le k ms ws t e prios i),
        λ _. subst (IsInherited k ms ws (k.thread t).base_priority) (sym (ground arith)) i,
      )
  | inr off ↦
      let e = (k.thread t).base_priority in
      let p = prios t in
      let hi : e ≤ max_priority = omega (arith, p.at_least, p.at_most) in
      (
        put_thread t (record (k.thread t) { effective_priority = e }) k,
        rw (==-false t null nt, off, thread_base_priority_lem k t nt)
            (ap some (set_effective_lem k t e nt (omega arith) hi)),
        set_effective-IsRaising k t e prios (omega arith) hi,
        λ on. absurd (cc),
      )
]

pub recompute-IsRaising :
    (c : Config) (f : ℕ) (k : Kernel) (own ws : Ptr → List Ptr) (t : Ptr)
    → IsLocked k own ws null
    → ((a : Ptr) → IsPriority (k.thread a))
    → IsShort own ws f
    → t ≢ null
    → (k' : Kernel) × (recompute_effective_priority c f t k ≡ some k') × IsRaising k k'
recompute-IsRaising c f k own ws t l prios short nt =
    let chain = l.owned t nt in
    let owned : IsOwned k f (k.thread t).owned_mutexes (own t) ws = record {
      chain = chain;
      waitq = λ m h.
          l.waitq m
            (Chain-ne_null (owner_next_of k) (k.thread t).owned_mutexes m (own t) null chain h);
      short = λ m h. short t m;
    } in
    let few = short t 0 in
    let (k', run, r, _) = recompute-Inherits c f k t (own t) ws owned (omega arith) prios nt in
    (k', run, r)

pub apply_pi-on :
    (c : Config) (f : ℕ) (k : Kernel) (m : Ptr)
    → m ≢ null
    → (k.mutex m).owner ≢ null
    → (k.mutex m).pi_enabled ≡ true
    → mutex_apply_pi c f m k ≡ recompute_effective_priority c f (k.mutex m).owner k
unfolding mutex_apply_pi
apply_pi-on c f k m nm nw on = rw (==-false m null nm, on, ==-false (k.mutex m).owner null nw) refl

pub apply_pi-off :
    (c : Config) (f : ℕ) (k : Kernel) (m : Ptr)
    → m ≢ null
    → (k.mutex m).pi_enabled ≡ false
    → mutex_apply_pi c f m k ≡ some k
unfolding mutex_apply_pi
apply_pi-off c f k m nm off = rw (==-false m null nm, off) refl

pub apply_pi-IsRaising :
    (c : Config) (f : ℕ) (k : Kernel) (own ws : Ptr → List Ptr) (m : Ptr)
    → IsLocked k own ws null
    → ((a : Ptr) → IsPriority (k.thread a))
    → IsShort own ws f
    → m ≢ null
    → (k.mutex m).owner ≢ null
    → (k' : Kernel) × (mutex_apply_pi c f m k ≡ some k') × IsRaising k k'
apply_pi-IsRaising c f k own ws m l prios short nm nw = elim (Bool-cases (k.mutex m).pi_enabled) [
  | inl on ↦
      let (k', run, r) = recompute-IsRaising c f k own ws (k.mutex m).owner l prios short nw in
      (k', apply_pi-on c f k m nm nw on ∙ run, r)
  | inr off ↦
      (k, apply_pi-off c f k m nm off, record { threads = λ a. refl; kept = refl; prios = prios })
]
