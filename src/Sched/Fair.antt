-- ===== src/Sched/Fair.antt =====
-- The round robin of src/thread.cc over many switches.
use mathlib.Core.Path.{subst}
use micro_kernel_using_c_plu.Prelude.{
  ℕ, zero, suc, ◌+◌, ◌≤◌, ◌<◌, ◌≡◌, refl, true, List, [], ◌∷◌, some, arith, ◌==◌, inl, inr,
  Bool-cases, ap, sym, ◌∙◌, if◌then◌else◌,
}
use micro_kernel_using_c_plu.Prelude.Store.{Ptr, has, length, Chain, Chain-frame}
use micro_kernel_using_c_plu.Kernel.{Kernel, rr, next_of}
use micro_kernel_using_c_plu.Runqueue.Turn.{turn}
use micro_kernel_using_c_plu.Sched.{sched_resched_from_irq_tail, thread_yield}
use micro_kernel_using_c_plu.Sched.Blocking.{IsRunning}
use micro_kernel_using_c_plu.Sched.Rounds.{
  Keeps, Switch, resched, Switches, done, turns, Goes, Round, queue-Round, Goes-Round,
  resched-Goes_of, yield-Goes_of, Switch-Goes, Switches-Round,
}

-- How many switches it is to `a` from the head of the list.
abbrev turns_to : Ptr → List Ptr → ℕ
turns_to a [] = 0
turns_to a (x ∷ xs) = if a == x then 0 else suc (turns_to a xs)

turns_to-lt : (a : Ptr) (xs : List Ptr) → has a xs ≡ true → turns_to a xs < length xs
turns_to-lt a [] h = cc
turns_to-lt a (x ∷ xs) h = ground (arith, turns_to-lt a xs)

stays : {k k' : Kernel} → Switches 0 k k' → k ≡ k'
stays done = refl

first-Switch :
    {n : ℕ} {k k' : Kernel} → Switches (suc n) k k' → (k1 : Kernel) × Switch k k1 × Switches n k1 k'
first-Switch (turns {k1 = k1} s rest) = (k1, s, rest)

arrives :
    (xs : List Ptr) (k k' : Kernel) (q : List Ptr) (a stop : Ptr)
    → Round k q
    → Chain (next_of k) k.cpu.current_thread xs stop
    → has a xs ≡ true
    → Switches (turns_to a xs) k k'
    → k'.cpu.current_thread ≡ a
arrives [] k k' q a stop r c h s = cc
arrives (x ∷ xs) k k' q a stop r c h s = elim (Bool-cases (a == x)) [
  | inl here ↦
      let same = stays (subst (λ n. Switches n k k') (rw here refl) s) in
      ground (arith, c.0, ap (λ z. z.cpu.current_thread) same)
  | inr later ↦
      let (k1, t, rest) = first-Switch (subst (λ n. Switches n k k') (rw later refl) s) in
      let g = Switch-Goes q k k1 t r in
      let chain : Chain (next_of k1) k1.cpu.current_thread xs stop =
        subst (λ p. Chain (next_of k1) p xs stop) (ap (next_of k) (sym c.0) ∙ sym g.moved)
          (Chain-frame (next_of k) (next_of k1) (next_of k x) xs stop c.2
            (λ b _. g.keeps.next b)) in
      arrives xs k1 k' q a stop (Goes-Round k k1 q r g) chain (ground arith) rest
]

split :
    (i m : ℕ) (k k' : Kernel)
    → i ≤ m
    → Switches m k k'
    → (j : ℕ) × (i + j ≡ m) × ((k1 : Kernel) × Switches i k k1 × Switches j k1 k')
split zero m k k' le s = (m, omega arith, (k, done, s))
split (suc i) zero k k' le s = absurd (omega arith)
split (suc i) (suc m) k k' le (turns {k1 = k1} t rest) =
    let (j, sum, (k2, before, after)) = split i m k1 k' (omega arith) rest in
    (j, omega (arith, sum), (k2, turns t before, after))

unchanged : (k k1 : Kernel) → Goes k k1 → Keeps k1 k1
unchanged k k1 g = record { next = λ a. refl; state = λ a. refl; enabled = g.keeps.enabled }

rounds : (m f : ℕ) (k : Kernel) (q : List Ptr) → Round k q → (k' : Kernel) × Switches m k k'
rounds zero f k q r = (k, done)
rounds (suc m) f k q r =
    let (k1, e, g) = resched-Goes_of k q r f in
    let (k', s) = rounds m f k1 q (Goes-Round k k1 q r g) in
    (k', turns (resched k k1 k1 f e (unchanged k k1 g) refl) s)

-- There are runs of any length.
pub switches_of :
    (m f : ℕ) (k : Kernel) (q : List Ptr)
    → IsRunning k q
    → has k.cpu.current_thread q ≡ true
    → k.cpu.preempt_cnt ≡ 0
    → (k' : Kernel) × Switches m k k'
switches_of m f k q run here en = rounds m f k q (queue-Round k q run here en)

-- Under the round robin, with READY threads queued, the one that runs among them, every run of as
-- many switches as there are threads, or more, comes to each of them within the first round,
-- whatever the threads do that leaves the queue, the states and preemption as they are. Behind it
-- both ways to switch go on.
pub round_robin-runs :
    (k : Kernel) (q : List Ptr) (a : Ptr) (m f : ℕ) (k' : Kernel)
    → IsRunning k q
    → has k.cpu.current_thread q ≡ true
    → k.cpu.preempt_cnt ≡ 0
    → has a q ≡ true
    → length q ≤ m
    → Switches m k k'
    → ((n : ℕ) × (n < length q)
        × ((j : ℕ) × (n + j ≡ m)
            × ((k1 : Kernel) × Switches n k k1 × Switches j k1 k' × (k1.cpu.current_thread ≡ a))))
      × ((k2 : Kernel) × (sched_resched_from_irq_tail rr f k' ≡ some k2) × Keeps k' k2)
      × ((k3 : Kernel) × (thread_yield rr f k' ≡ some k3) × Keeps k' k3)
round_robin-runs k q a m f k' run here en h enough s =
    let r = queue-Round k q run here en in
    let (ys, t) = turn k q k.cpu.current_thread run.queue here in
    let zs = k.cpu.current_thread ∷ ys in
    let member = t.same a ∙ h in
    let n = turns_to a zs in
    let lt : n < length q = omega (arith, turns_to-lt a zs member, t.size) in
    let (j, sum, (k1, before, after)) = split n m k k' (omega arith) s in
    let last = Switches-Round m k k' q r s in
    let (k2, e2, g2) = resched-Goes_of k' q last f in
    let (k3, e3, g3) = yield-Goes_of k' q last f in
    (
      (
        n,
        lt,
        (
          j,
          sum,
          (k1, before, after, arrives zs k k1 q a k.cpu.current_thread r t.chain member before),
        ),
      ),
      (k2, e2, g2.keeps),
      (k3, e3, g3.keeps),
    )
