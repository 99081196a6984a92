-- ===== src/Sync/Trylock.antt =====
-- `mutex_trylock` of src/sync.cc on all its branches.
use micro_kernel_using_c_plu.Prelude.{
  ℕ, ◌+◌, ◌≡◌, ◌≢◌, ◌⊎◌, ◌↔◌, refl, some, arith, ◌==◌, ==-false, Bool-cases, inl, inr,
}
use micro_kernel_using_c_plu.Prelude.Int.{pos, negsuc}
use micro_kernel_using_c_plu.Prelude.Store.{Ptr, null}
use micro_kernel_using_c_plu.Kernel.{Kernel, set_preempt_cnt, set_waiting_on}
use micro_kernel_using_c_plu.Sched.Preempt.{IsQuiet, preempt_disable_lem, preempt_enable-leave}
use micro_kernel_using_c_plu.Sync.{Config, Tried, take_mutex, thread_owned_mutex_add, mutex_trylock}

-- What a trial does: it succeeds exactly if no other thread owns the mutex, and then the current
-- thread owns it; a failure changes nothing. No other mutex gets another owner, no thread blocks
-- and none is switched.
pub record IsTried (k : Kernel) (m : Ptr) (t : Tried) : Type 0 where
  pub success :
      (t.result ≡ pos 0) ↔ (((k.mutex m).owner ≡ null) ⊎ ((k.mutex m).owner ≡ k.cpu.current_thread))
  pub owned : t.result ≡ pos 0 → (t.kernel.mutex m).owner ≡ k.cpu.current_thread
  pub failed : t.result ≡ negsuc 0 → t.kernel ≡ k
  pub others : (a : Ptr) → a ≢ m → (t.kernel.mutex a).owner ≡ (k.mutex a).owner
  pub states : (a : Ptr) → (t.kernel.thread a).state ≡ (k.thread a).state
  pub cpu : t.kernel.cpu ≡ k.cpu

-- What taking a free mutex changes.
record IsTaken (k : Kernel) (cur m : Ptr) (k' : Kernel) : Type 0 where
  owner : (k'.mutex m).owner ≡ cur
  others : (a : Ptr) → a ≢ m → (k'.mutex a).owner ≡ (k.mutex a).owner
  states : (a : Ptr) → (k'.thread a).state ≡ (k.thread a).state
  cpu : k'.cpu ≡ k.cpu

take_mutex-IsTaken :
    (k : Kernel) (cur m : Ptr) → m ≢ null → cur ≢ null → IsTaken k cur m (take_mutex cur m k)
unfolding take_mutex thread_owned_mutex_add
take_mutex-IsTaken k cur m nm nc = record {
  owner = ground arith;
  others = λ a ne. ground arith;
  states = λ a. ground arith;
  cpu = ground arith;
}

-- A mutex_trylock of the running thread, with no switch pending or with preemption disabled, ends,
-- and does what IsTried says.
pub mutex_trylock-IsTried :
    (c : Config) (f : ℕ) (k : Kernel) (m : Ptr)
    → m ≢ null
    → k.cpu.current_thread ≢ null
    → IsQuiet k
    → (t : Tried) × (mutex_trylock c f m k ≡ some t) × IsTried k m t
unfolding mutex_trylock
mutex_trylock-IsTried c f k m nm nc quiet =
    let cur = k.cpu.current_thread in
    let k1 = set_preempt_cnt (k.cpu.preempt_cnt + 1) k in
    let open_m = ==-false m null nm in
    let open_cur = ==-false cur null nc in
    let start = preempt_disable_lem k quiet in
    let leave =
      λ (k2 : Kernel) (e : k2.cpu ≡ k1.cpu). preempt_enable-leave c.policy f k k2 quiet e in
    elim (Bool-cases ((k.mutex m).owner == null)) [
      | inl free ↦
          let k2 = take_mutex cur m k1 in
          let taken = take_mutex-IsTaken k1 cur m nm nc in
          (
            record { result = pos 0; kernel = record k2 { cpu = k.cpu } },
            rw (open_m, start, open_cur, free, leave k2 taken.cpu),
            record {
              success = ground arith;
              owned = λ _. taken.owner;
              failed = ground arith;
              others = taken.others;
              states = taken.states;
              cpu = refl;
            },
          )
      | inr taken ↦ elim (Bool-cases ((k.mutex m).owner == cur)) [
        | inl mine ↦
            let k2 = set_waiting_on cur null k1 in
            (
              record { result = pos 0; kernel = record k2 { cpu = k.cpu } },
              rw (open_m, start, open_cur, taken, mine, leave k2 refl),
              record {
                success = ground arith;
                owned = ground arith;
                failed = ground arith;
                others = ground arith;
                states = ground arith;
                cpu = refl;
              },
            )
        | inr other ↦ (
          record { result = negsuc 0; kernel = k },
          rw (open_m, start, open_cur, taken, other, leave k1 refl),
          record {
            success = ground arith;
            owned = ground arith;
            failed = ground arith;
            others = ground arith;
            states = ground arith;
            cpu = refl;
          },
        )
      ]
    ]
