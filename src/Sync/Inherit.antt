-- ===== src/Sync/Inherit.antt =====
-- Priority inheritance: `recompute_effective_priority` of src/sync.cc.
use micro_kernel_using_c_plu.Prelude.{
  ap, ◌+◌, ℕ, zero, suc, ◌≤◌, ◌<◌, ◌≡◌, ◌≢◌, refl, false, true, List, [], ◌∷◌, Option, none, some,
  arith, ◌==◌, ◌⊎◌, ltb, inl, inr, Bool-cases, ==-false,
}
use micro_kernel_using_c_plu.Prelude.Store.{Ptr, null, has, length, Chain}
use micro_kernel_using_c_plu.Kernel.{Kernel, put_thread}
use micro_kernel_using_c_plu.Sched.{thread_effective_priority, max_priority}
use micro_kernel_using_c_plu.Sched.Priority.{
  IsPriority, set_effective_lem, thread_base_priority_lem, thread_effective_priority-le,
}
use micro_kernel_using_c_plu.Sync.{
  Config, raise, inherit_loop, recompute_effective_priority, waitq_max_priority,
}
use micro_kernel_using_c_plu.Sync.Waitq.{IsWaitq}
use micro_kernel_using_c_plu.Sync.MaxWaiter.{IsMaxWaiter, waitq_max_priority-IsMaxWaiter}

abbrev pub owner_next_of : Kernel → Ptr → Ptr
owner_next_of k m = (k.mutex m).owner_next

-- The mutexes of the list are linked from `head`; each has a wait queue, that `ws` lists.
pub record IsOwned (k : Kernel) (f : ℕ) (head : Ptr) (ms : List Ptr) (ws : Ptr → List Ptr)
    : Type 0 where
  pub chain : Chain (owner_next_of k) head ms null
  pub waitq : (m : Ptr) → has m ms ≡ true → IsWaitq k (k.mutex m).waiters (ws m)
  pub short : (m : Ptr) → has m ms ≡ true → length (ws m) + length ms < f

-- `e` is the least priority that is neither below `base` nor below that of a thread which waits
-- for a mutex of the list with inheritance enabled.
pub record IsInherited (k : Kernel) (ms : List Ptr) (ws : Ptr → List Ptr) (base e : ℕ)
    : Type 0 where
  pub at_least : base ≤ e
  pub covers :
      (m a : Ptr)
      → has m ms ≡ true
      → (k.mutex m).pi_enabled ≡ true
      → has a (ws m) ≡ true
      → thread_effective_priority k a ≤ e
  pub least :
      (e ≡ base)
      ⊎ ((m : Ptr) × (a : Ptr) × (has m ms ≡ true)
          × ((k.mutex m).pi_enabled ≡ true)
          × (has a (ws m) ≡ true)
          × (thread_effective_priority k a ≡ e))

-- What one mutex with inheritance adds.
record IsRaised (k : Kernel) (xs : List Ptr) (eff e : ℕ) : Type 0 where
  at_least : eff ≤ e
  covers : (a : Ptr) → has a xs ≡ true → thread_effective_priority k a ≤ e
  least : (e ≡ eff) ⊎ ((a : Ptr) × (has a xs ≡ true) × (thread_effective_priority k a ≡ e))

raise-IsRaised :
    (k : Kernel) (xs : List Ptr) (eff : ℕ) (w : Option ℕ)
    → IsMaxWaiter k xs w
    → IsRaised k xs eff (raise eff w)
unfolding raise
raise-IsRaised k xs eff none m = record {
  at_least = omega arith;
  covers = λ a h. ground (arith, m a);
  least = inl refl;
}
raise-IsRaised k xs eff (some b) m = elim (Bool-cases (ltb eff b)) [
  | inl e ↦ rw e (record { at_least = ground arith; covers = m.0; least = inr m.1 })
  | inr n ↦
      rw n
        (record { at_least = omega arith; covers = λ a h. ground (arith, m.0 a); least = inl refl })
]

tail-IsOwned :
    (k : Kernel) (f : ℕ) (head x : Ptr) (xs : List Ptr) (ws : Ptr → List Ptr)
    → IsOwned k (suc f) head (x ∷ xs) ws
    → IsOwned k f (owner_next_of k x) xs ws
tail-IsOwned k f head x xs ws o = record {
  chain = o.chain.2;
  waitq = λ m h. o.waitq m (ground arith);
  short = λ m h. let s = o.short m (ground arith) in omega arith;
}

skip-IsInherited :
    (k : Kernel) (x : Ptr) (xs : List Ptr) (ws : Ptr → List Ptr) (base e : ℕ)
    → (k.mutex x).pi_enabled ≡ false
    → IsInherited k xs ws base e
    → IsInherited k (x ∷ xs) ws base e
skip-IsInherited k x xs ws base e off i = record {
  at_least = i.at_least;
  covers = λ m a h pi w. i.covers m a (elsewhere m h pi) pi w;
  least = elim i.least [
    | inl eq ↦ inl eq
    | inr (m, a, h, pi, w, eq) ↦ inr (m, a, ground arith, pi, w, eq)
  ];
}
  where
    elsewhere : (m : Ptr) → has m (x ∷ xs) ≡ true → (k.mutex m).pi_enabled ≡ true → has m xs ≡ true
    elsewhere m h pi = ground arith

visit-IsInherited :
    (k : Kernel) (x : Ptr) (xs : List Ptr) (ws : Ptr → List Ptr) (base r e : ℕ)
    → (k.mutex x).pi_enabled ≡ true
    → IsRaised k (ws x) base r
    → IsInherited k xs ws r e
    → IsInherited k (x ∷ xs) ws base e
visit-IsInherited k x xs ws base r e on raised i = record {
  at_least = omega (arith, raised.at_least, i.at_least);
  covers = covers;
  least = elim i.least [
    | inl eq ↦ elim raised.least [
      | inl eq' ↦ inl (ground arith)
      | inr (a, w, p) ↦ inr (x, a, ground arith, on, w, ground arith)
    ]
    | inr (m, a, h, pi, w, eq) ↦ inr (m, a, ground arith, pi, w, eq)
  ];
}
  where
    covers :
        (m a : Ptr)
        → has m (x ∷ xs) ≡ true
        → (k.mutex m).pi_enabled ≡ true
        → has a (ws m) ≡ true
        → thread_effective_priority k a ≤ e
    covers m a h pi w = elim (Bool-cases (m == x)) [
      | inl eq ↦ ground (arith, raised.covers a, i.at_least)
      | inr n ↦ i.covers m a (ground arith) pi w
    ]

inherit_loop-IsInherited :
    (f : ℕ) (k : Kernel) (head : Ptr) (ms : List Ptr) (ws : Ptr → List Ptr) (base : ℕ)
    → IsOwned k f head ms ws
    → length ms < f
    → (e : ℕ) × (inherit_loop f k head base ≡ some e) × IsInherited k ms ws base e
unfolding inherit_loop
inherit_loop-IsInherited zero k head ms ws base o fuel = absurd (omega arith)
inherit_loop-IsInherited (suc f) k head [] ws base o fuel = (
  base,
  ground (arith, o.chain),
  record { at_least = omega arith; covers = λ m a h. cc; least = inl refl },
)
inherit_loop-IsInherited (suc f) k head (x ∷ xs) ws base o fuel =
    elim (Bool-cases (k.mutex x).pi_enabled) [
      | inl on ↦
          let (w, found, is) = max_of on in
          let (e, run, i) =
            inherit_loop-IsInherited f k (owner_next_of k x) xs ws (raise base w) rest
              (omega arith) in
          (
            e,
            rw (o.chain.0, ==-false x null o.chain.1, on, found) run,
            visit-IsInherited k x xs ws base (raise base w) e on (raise-IsRaised k (ws x) base w is)
                i,
          )
      | inr off ↦
          let (e, run, i) =
            inherit_loop-IsInherited f k (owner_next_of k x) xs ws base rest (omega arith) in
          (
            e,
            rw (o.chain.0, ==-false x null o.chain.1, off) run,
            skip-IsInherited k x xs ws base e off i,
          )
    ]
  where
    rest : IsOwned k f (owner_next_of k x) xs ws
    rest = tail-IsOwned k f head x xs ws o

    max_of :
        (k.mutex x).pi_enabled ≡ true
        → (w : Option ℕ) × (waitq_max_priority f k (k.mutex x).waiters ≡ some w)
          × IsMaxWaiter k (ws x) w
    max_of on =
        let s = o.short x (ground arith) in
        waitq_max_priority-IsMaxWaiter f k (k.mutex x).waiters (ws x) (o.waitq x (ground arith))
          (omega arith)

-- It is a priority again.
pub IsInherited-le :
    (k : Kernel) (ms : List Ptr) (ws : Ptr → List Ptr) (t e : Ptr)
    → ((a : Ptr) → IsPriority (k.thread a))
    → IsInherited k ms ws (k.thread t).base_priority e
    → e ≤ max_priority
IsInherited-le k ms ws t e prios i = elim i.least [
  | inl eq ↦ let p = prios t in omega (arith, p.at_least, p.at_most)
  | inr (m, a, h, pi, w, eq) ↦ omega (arith, thread_effective_priority-le k a (prios a))
]

-- With MUTEX_PI, recomputing ends, and gives a thread the least priority that is neither below its
-- base priority nor below that of a thread waiting for a mutex with inheritance that it owns.
-- Nothing else changes.
pub recompute-IsInherited :
    (c : Config) (f : ℕ) (k : Kernel) (t : Ptr) (ms : List Ptr) (ws : Ptr → List Ptr)
    → c.mutex_pi ≡ true
    → t ≢ null
    → IsOwned k f (k.thread t).owned_mutexes ms ws
    → length ms < f
    → ((a : Ptr) → IsPriority (k.thread a))
    → (e : ℕ) × (recompute_effective_priority c f t k
        ≡ some (put_thread t (record (k.thread t) { effective_priority = e }) k))
      × IsInherited k ms ws (k.thread t).base_priority e
unfolding recompute_effective_priority
recompute-IsInherited c f k t ms ws on nn o fuel prios =
    let (e, run, i) =
      inherit_loop-IsInherited f k (k.thread t).owned_mutexes ms ws (k.thread t).base_priority o
        fuel in
    (
      e,
      rw (==-false t null nn, on, thread_base_priority_lem k t nn, run)
          (ap some (set_effective_lem k t e nn i.at_least (IsInherited-le k ms ws t e prios i))),
      i,
    )
