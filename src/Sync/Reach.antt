-- ===== src/Sync/Reach.antt =====
-- The invariant on mutexes along every sequence of steps of src/sync.cc.
use mathlib.Core.Path.{subst}
use micro_kernel_using_c_plu.Prelude.{
  ℕ, suc, ◌+◌, ◌≤◌, ◌≡◌, refl, List, [], ◌∷◌, ◌++◌, some, arith, ◌⊎◌, ◌≢◌, sym, ap, ◌∙◌, inl, inr,
}
use micro_kernel_using_c_plu.Prelude.Store.{
  Ptr, null, update, erase, length, length-erase, length-append,
}
use micro_kernel_using_c_plu.Kernel.{Kernel}
use micro_kernel_using_c_plu.Sched.{sched_block_current}
use micro_kernel_using_c_plu.Sched.Priority.{IsPriority}
use micro_kernel_using_c_plu.Sched.Blocking.{IsRunning}
use micro_kernel_using_c_plu.Sync.{
  Config, take_mutex, release_mutex, mutex_apply_pi, enqueue_waiter,
}
use micro_kernel_using_c_plu.Sync.Locked.{IsLocked}
use micro_kernel_using_c_plu.Sync.Raising.{IsShort}
use micro_kernel_using_c_plu.Sync.Spared.{spared-IsRunning, spared-IsPriority}
use micro_kernel_using_c_plu.Sync.Released.{IsHandedOver, IsFreed, cpu-IsLocked, cpu-IsRunning}
use micro_kernel_using_c_plu.Sync.Unlock.{release_mutex-IsReleased}
use micro_kernel_using_c_plu.Sync.Taken.{take_mutex-IsLocked, take_mutex-IsSpared}
use micro_kernel_using_c_plu.Sync.Waiting.{IsWaiting, blocked-IsWaiting}
use micro_kernel_using_c_plu.Sync.Steps.{Acts, Step, unlock, take, wait, switch, Reach, here, next}

-- The invariants together, for some lists that are no longer than `bound`.
pub record IsSound (k : Kernel) : Type 0 where
  pub own : Ptr → List Ptr
  pub ws : Ptr → List Ptr
  pub q : List Ptr
  pub bound : ℕ
  pub locked : IsLocked k own ws null
  pub running : IsRunning k q
  pub prios : (a : Ptr) → IsPriority (k.thread a)
  pub short : IsShort own ws bound
  pub few : length q ≤ bound

pub some-inj : {k k' : Kernel} → some k ≡ some k' → k ≡ k'
some-inj e = cc

freed-IsSound :
    (k k' : Kernel) (t m : Ptr) (s : IsSound k) → IsFreed k k' s.own s.ws s.q t m → IsSound k'
freed-IsSound k k' t m s r = record {
  own = update (s.own) t (erase m (s.own t));
  ws = s.ws;
  q = s.q;
  bound = s.bound;
  locked = r.locked;
  running = r.running;
  prios = r.prios;
  short = λ a b. ground (arith, s.short a b, length-erase m (s.own t), s.short t b);
  few = s.few;
}

handed_over-IsSound :
    (k k' : Kernel) (t m n : Ptr) (s : IsSound k)
    → IsHandedOver k k' s.own s.ws s.q t m n
    → IsSound k'
handed_over-IsSound k k' t m n s r = record {
  own = update (update (s.own) t (erase m (s.own t))) n (m ∷ s.own n);
  ws = update (s.ws) m (erase n (s.ws m));
  q = s.q ++ n ∷ [];
  bound = s.bound + 1;
  locked = r.locked;
  running = r.running;
  prios = r.prios;
  short = λ a b. ground (arith, s.short a b, length-erase m (s.own t), length-erase n (s.ws m));
  few = ground (arith, length-append (s.q) (n ∷ []), s.few);
}

waiting-IsSound :
    (c : Config) (k k' : Kernel) (t m : Ptr) (s : IsSound k)
    → IsWaiting c k k' s.own s.ws s.q t m
    → IsSound k'
waiting-IsSound c k k' t m s w = record {
  own = s.own;
  ws = update (s.ws) m (t ∷ []);
  q = erase t (s.q);
  bound = s.bound + 1;
  locked = w.locked;
  running = w.running;
  prios = w.prios;
  short = λ a b. ground (arith, s.short a b);
  few = omega (arith, length-erase t (s.q), s.few);
}

-- What the unlock of a step does, and what its wait does, from a kernel where the invariants hold.
pub unlock-effect :
    (c : Config) (k k' : Kernel) (m : Ptr) (f0 : ℕ) (s : IsSound k)
    → Acts k
    → m ≢ null
    → (k.mutex m).owner ≡ k.cpu.current_thread
    → ((f : ℕ) → f0 ≤ f → release_mutex c f k.cpu.current_thread m k ≡ some k')
    → IsFreed k k' s.own s.ws s.q k.cpu.current_thread m
      ⊎ ((n : Ptr) × IsHandedOver k k' s.own s.ws s.q k.cpu.current_thread m n)
unlock-effect c k k' m f0 s (nt, alive) nm mine ends =
    let t = k.cpu.current_thread in
    let f = s.bound + f0 in
    let (k'', e, r) =
      release_mutex-IsReleased c f k (s.own) (s.ws) (s.q) m s.locked s.running s.prios
        (λ a b. omega (arith, s.short a b)) nm nt mine alive (s.ws m) refl in
    let same = some-inj (sym e ∙ ends (suc f) (omega arith)) in
    subst
      (λ z. IsFreed k z s.own s.ws s.q t m ⊎ ((n : Ptr) × IsHandedOver k z s.own s.ws s.q t m n))
      same r

pub wait-effect :
    (c : Config) (k k2 k' : Kernel) (m : Ptr) (f0 : ℕ) (s : IsSound k)
    → Acts k
    → m ≢ null
    → (k.mutex m).owner ≢ null
    → ((f : ℕ) → f0 ≤ f → mutex_apply_pi c f m (enqueue_waiter k.cpu.current_thread m k) ≡ some k2)
    → ((f : ℕ) → f0 ≤ f → sched_block_current f k2 ≡ some k')
    → IsWaiting c k k' s.own s.ws s.q k.cpu.current_thread m
wait-effect c k k2 k' m f0 s (nt, alive) nm owned applied slept =
    let t = k.cpu.current_thread in
    let f = s.bound + f0 in
    let (k2', k3, e, e3, w) =
      blocked-IsWaiting c f k (s.own) (s.ws) (s.q) t m s.locked s.running s.prios
        (λ a b. omega (arith, s.short a b)) nm nt owned alive refl (omega (arith, s.few)) in
    let same2 = some-inj (sym e ∙ applied (suc (suc f)) (omega arith)) in
    let same3 =
      some-inj (
        sym e3
        ∙ ap (sched_block_current (suc (suc f))) same2
        ∙ slept (suc (suc f)) (omega arith)) in
    subst (λ z. IsWaiting c k z s.own s.ws s.q t m) same3 w

pub Step-IsSound : (c : Config) {k k' : Kernel} → Step c k k' → IsSound k → IsSound k'
Step-IsSound c (unlock k k' m f0 acts nm mine ends) s =
    let t = k.cpu.current_thread in
    elim (unlock-effect c k k' m f0 s acts nm mine ends) [
      | inl freed ↦ freed-IsSound k k' t m s freed
      | inr (n, given) ↦ handed_over-IsSound k k' t m n s given
    ]
Step-IsSound c (take k m (nt, alive) nm vacant) s =
    let t = k.cpu.current_thread in
    record {
      own = update (s.own) t (m ∷ s.own t);
      ws = s.ws;
      q = s.q;
      bound = s.bound + 1;
      locked = take_mutex-IsLocked k (s.own) (s.ws) t m s.locked nt nm vacant alive;
      running = spared-IsRunning k (take_mutex t m k) (s.q) s.running (take_mutex-IsSpared t m k);
      prios = spared-IsPriority k (take_mutex t m k) s.prios (take_mutex-IsSpared t m k);
      short = λ a b. ground (arith, s.short a b);
      few = omega (arith, s.few);
    }
Step-IsSound c (wait k k2 k' m f0 acts nm owned other applied slept) s =
    waiting-IsSound c k k' k.cpu.current_thread m s
      (wait-effect c k k2 k' m f0 s acts nm owned applied slept)
Step-IsSound c (switch k t is) s = record {
  own = s.own;
  ws = s.ws;
  q = s.q;
  bound = s.bound;
  locked = cpu-IsLocked k (record (k.cpu) { current_thread = t }) (s.own) (s.ws) null s.locked;
  running = cpu-IsRunning k (record (k.cpu) { current_thread = t }) (s.q) s.running;
  prios = s.prios;
  short = s.short;
  few = s.few;
}

-- The invariants hold after any sequence of steps: calls of mutex_lock and mutex_unlock by the
-- thread that runs while it is READY, and switches to READY threads, from a kernel where they hold.
-- Calls by a thread that is BLOCKED and runs on, since no other is ready, are no steps.
pub Reach-IsSound : (c : Config) {k k' : Kernel} → Reach c k k' → IsSound k → IsSound k'
Reach-IsSound c here s = s
Reach-IsSound c (next r st) s = Step-IsSound c st (Reach-IsSound c r s)
