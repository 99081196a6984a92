-- ===== src/SyncLab/Deadlock.antt =====
-- The deadlock that src/sync_lab.cc looks for, along sequences of steps of src/sync.cc.
use mathlib.Core.Path.{subst}
use micro_kernel_using_c_plu.Prelude.{
  ◌<◌, ◌≡◌, ◌≢◌, true, false, List, arith, ap, sym, ◌∙◌, inl, inr, Bool-cases,
}
use micro_kernel_using_c_plu.Prelude.Store.{Ptr, null, has}
use micro_kernel_using_c_plu.Kernel.{Kernel, blocked}
use micro_kernel_using_c_plu.Sync.{Config, lockdep_would_deadlock}
use micro_kernel_using_c_plu.Sync.Locked.{IsLocked}
use micro_kernel_using_c_plu.Sync.Spared.{SameWait}
use micro_kernel_using_c_plu.Sync.Lockdep.{WaitsFor, here as at, over, lockdep_would_deadlock_iff}
use micro_kernel_using_c_plu.Sync.Steps.{Step, unlock, take, wait, switch, Reach, here, next}
use micro_kernel_using_c_plu.Sync.Reach.{IsSound, unlock-effect, wait-effect, Reach-IsSound}
use micro_kernel_using_c_plu.Sync.Ordered.{
  IsOrderly, Climbs, Climbs-IsOrderly, take-SameWait, take-owner,
}
use micro_kernel_using_c_plu.SyncLab.{Place, Lab, dl_deadlock_observed}

-- `t` is BLOCKED on `w` and owns `m`.
record IsStuck (k : Kernel) (t m w : Ptr) : Type 0 where
  asleep : (k.thread t).state ≡ blocked
  waits : (k.thread t).waiting_on ≡ w
  owns : (k.mutex m).owner ≡ t

-- Each thread is stuck on the mutex of the other.
record IsDeadlock (k : Kernel) (t u m w : Ptr) : Type 0 where
  one : IsStuck k t m w
  two : IsStuck k u w m

kept-IsStuck :
    (k k' : Kernel) (own' : Ptr → List Ptr) (ws' : Ptr → List Ptr) (t m w : Ptr)
    → t ≢ null
    → IsStuck k t m w
    → SameWait k k' t
    → IsLocked k' own' ws' null
    → has m (own' t) ≡ true
    → IsStuck k' t m w
kept-IsStuck k k' own' ws' t m w nt s same l h = record {
  asleep = same.1 ∙ s.asleep;
  waits = same.0 ∙ s.waits;
  owns = l.owner t m nt h;
}

module _ (t u m w : Ptr) (nt : t ≢ null) (nu : u ≢ null) (nm : m ≢ null) (nw : w ≢ null) where
  -- No step moves a thread that is stuck on the mutex of another that is stuck.
  Step-IsStuck :
      (c : Config) {k k' : Kernel}
      → Step c k k'
      → IsSound k
      → IsDeadlock k t u m w
      → IsStuck k' t m w
  Step-IsStuck c (unlock k k' x f0 acts nx mine ends) s d =
      let cur = k.cpu.current_thread in
      let owned = s.locked.listed m t nm nm d.one.owns nt in
      let apart : t ≢ cur = λ e. ground (arith, d.one.asleep, acts.1) in
      let other : u ≢ cur = λ e. ground (arith, d.two.asleep, acts.1) in
      elim (unlock-effect c k k' x f0 s acts nx mine ends) [
        | inl freed ↦
            kept-IsStuck k k' _ _ t m w nt d.one (freed.others t) freed.locked (ground arith)
        | inr (n, given) ↦
            let ne : t ≢ n =
              λ e. ground (arith, s.locked.waiting x n nx given.waited, d.one.waits, d.two.owns) in
            kept-IsStuck k k' _ _ t m w nt d.one (given.others t ne) given.locked (ground arith)
      ]
  Step-IsStuck c (take k x acts nx vacant) s d =
      let cur = k.cpu.current_thread in
      let apart : t ≢ cur = λ e. ground (arith, d.one.asleep, acts.1) in
      let same = take-SameWait k cur x t apart in
      record {
        asleep = same.1 ∙ d.one.asleep;
        waits = same.0 ∙ d.one.waits;
        owns = ground (arith, take-owner k cur x m, d.one.owns);
      }
  Step-IsStuck c (wait k k2 k' x f0 acts nx owned other applied slept) s d =
      let cur = k.cpu.current_thread in
      let apart : t ≢ cur = λ e. ground (arith, d.one.asleep, acts.1) in
      let i = wait-effect c k k2 k' x f0 s acts nx owned applied slept in
      kept-IsStuck k k' _ _ t m w nt d.one (i.others t apart) i.locked
        (s.locked.listed m t nm nm d.one.owns nt)
  Step-IsStuck c (switch k x is) s d = record {
    asleep = d.one.asleep;
    waits = d.one.waits;
    owns = d.one.owns;
  }

Step-IsDeadlock :
    (c : Config) {k k' : Kernel} (t u m w : Ptr)
    → t ≢ null
    → u ≢ null
    → m ≢ null
    → w ≢ null
    → Step c k k'
    → IsSound k
    → IsDeadlock k t u m w
    → IsDeadlock k' t u m w
Step-IsDeadlock c t u m w nt nu nm nw st s d = record {
  one = Step-IsStuck t u m w nt nu nm nw c st s d;
  two = Step-IsStuck u t w m nu nt nw nm c st s (record { one = d.two; two = d.one });
}

Reach-IsDeadlock :
    (c : Config) {k k' : Kernel} (t u m w : Ptr)
    → t ≢ null
    → u ≢ null
    → m ≢ null
    → w ≢ null
    → Reach c k k'
    → IsSound k
    → IsDeadlock k t u m w
    → IsDeadlock k' t u m w
Reach-IsDeadlock c t u m w nt nu nm nw here s d = d
Reach-IsDeadlock c t u m w nt nu nm nw (next r st) s d =
    Step-IsDeadlock c t u m w nt nu nm nw st (Reach-IsSound c r s)
      (Reach-IsDeadlock c t u m w nt nu nm nw r s d)

module _ (p : Place) (l : Lab) (k : Kernel) where
  observed-IsDeadlock :
      dl_deadlock_observed p l k ≡ true
      → (l.t1 ≢ null) × (l.t2 ≢ null) × IsDeadlock k l.t1 l.t2 p.a p.b
  unfolding dl_deadlock_observed
  observed-IsDeadlock e = (
    ground arith,
    ground arith,
    record {
      one = record { asleep = ground arith; waits = ground arith; owns = ground arith };
      two = record { asleep = ground arith; waits = ground arith; owns = ground arith };
    },
  )

  IsDeadlock-observed :
      l.t1 ≢ null → l.t2 ≢ null → IsDeadlock k l.t1 l.t2 p.a p.b → dl_deadlock_observed p l k ≡ true
  unfolding dl_deadlock_observed
  IsDeadlock-observed n1 n2 d =
      ground (arith, d.one.asleep, d.one.waits, d.one.owns, d.two.asleep, d.two.waits, d.two.owns)

-- In a deadlock the search of lockdep, asked again for either request, finds the cycle.
deadlock-found :
    (k : Kernel) (t u m w : Ptr)
    → t ≢ null
    → u ≢ null
    → m ≢ null
    → w ≢ null
    → IsDeadlock k t u m w
    → lockdep_would_deadlock k t w ≡ true
deadlock-found k t u m w nt nu nm nw d =
    let back : WaitsFor k t 0 (k.mutex (k.thread u).waiting_on).owner =
      subst (WaitsFor k t 0) (sym (ap (λ x. (k.mutex x).owner) d.two.waits ∙ d.one.owns)) at in
    let chain : WaitsFor k t 1 u = over u nu (λ z. nm (sym d.two.waits ∙ z)) back in
    (lockdep_would_deadlock_iff k t w nt nw).1
      (1, omega arith, subst (WaitsFor k t 1) (sym d.two.owns) chain)

-- Once dl_deadlock_observed says that the two workers are in a deadlock, it says so after any
-- sequence of steps of mutexes and switches; and lockdep, asked for either request, finds the cycle.
pub dl_deadlock_observed-stays :
    (c : Config) (p : Place) (l : Lab) (k k' : Kernel)
    → p.a ≢ null
    → p.b ≢ null
    → IsSound k
    → dl_deadlock_observed p l k ≡ true
    → Reach c k k'
    → (dl_deadlock_observed p l k' ≡ true)
      × (lockdep_would_deadlock k' l.t1 p.b ≡ true)
      × (lockdep_would_deadlock k' l.t2 p.a ≡ true)
dl_deadlock_observed-stays c p l k k' na nb s e r =
    let (n1, n2, d) = observed-IsDeadlock p l k e in
    let d' = Reach-IsDeadlock c l.t1 l.t2 p.a p.b n1 n2 na nb r s d in
    (
      IsDeadlock-observed p l k' n1 n2 d',
      deadlock-found k' l.t1 l.t2 p.a p.b n1 n2 na nb d',
      deadlock-found k' l.t2 l.t1 p.b p.a n2 n1 nb na (record { one = d'.two; two = d'.one }),
    )

-- Among threads that ask for mutexes in the order of their addresses only, dl_deadlock_observed
-- never says that the workers are in a deadlock.
pub Climbs-unobserved :
    (c : Config) (p : Place) (l : Lab) (k k' : Kernel)
    → p.a ≢ null
    → p.b ≢ null
    → IsSound k
    → IsOrderly k
    → Climbs c k k'
    → dl_deadlock_observed p l k' ≡ false
Climbs-unobserved c p l k k' na nb s o r = elim (Bool-cases (dl_deadlock_observed p l k')) [
  | inl seen ↦
      let (n1, n2, d) = observed-IsDeadlock p l k' seen in
      let (s', o') = Climbs-IsOrderly c r s o in
      let up : p.a < (k'.thread l.t1).waiting_on =
        o' l.t1 n1 (λ z. nb (sym d.one.waits ∙ z)) p.a na d.one.owns in
      let down : p.b < (k'.thread l.t2).waiting_on =
        o' l.t2 n2 (λ z. na (sym d.two.waits ∙ z)) p.b nb d.two.owns in
      absurd (omega (arith, up, down, d.one.waits, d.two.waits))
  | inr unseen ↦ unseen
]
