-- ===== src/SyncLab.antt =====
-- src/sync_lab.cc: the labs on priority inversion and on deadlock. A worker's code is the list of
-- its acts, in order; where the linker puts the globals and the threads' functions is the record
-- `Place`. What is printed and the length of the delays are left out.
pub mod Order
pub mod Deadlock
use micro_kernel_using_c_plu.Prelude.{
  ℕ, ◌*◌, Bool, true, false, not, ◌&&◌, ◌||◌, Option, some, ltb, leb, ◌==◌, if◌then◌else◌, ◌>>=◌,
  List, [], ◌∷◌, ◌++◌,
}
use micro_kernel_using_c_plu.Prelude.Int.{pos, negsuc}
use micro_kernel_using_c_plu.Prelude.Store.{Ptr, null}
use micro_kernel_using_c_plu.Kernel.{Kernel, is_null, is_ready_state}
use micro_kernel_using_c_plu.Sched.{sched_add}
use micro_kernel_using_c_plu.Sync.{
  Config, Tried, mutex_init, mutex_set_pi_enabled, mutex_trylock, mutex_unlock,
}
use micro_kernel_using_c_plu.Sem.{sem_init}
use micro_kernel_using_c_plu.Create.{Machine, thread_create_prio}

-- The addresses of g_lock, g_start, g_hold_high, g_dl_a, g_dl_b and g_dl_hold, and of the functions
-- of the threads.
pub record Place : Type 0 where
  pub lock : Ptr
  pub start : Ptr
  pub hold_high : Ptr
  pub a : Ptr
  pub b : Ptr
  pub hold : Ptr
  pub low_thread : ℕ
  pub medium_thread : ℕ
  pub high_thread : ℕ
  pub worker : ℕ
  pub watchdog : ℕ

-- The other globals: g_pi_enabled, g_high_done, and those of the deadlock lab.
pub record Lab : Type 0 where
  pub pi_enabled : Bool
  pub high_done : Bool
  pub mode : ℕ
  pub ready : ℕ
  pub done : ℕ
  pub t1 : Ptr
  pub t2 : Ptr

-- `await_both` waits until both workers have counted themselves ready; `lock_both` is
-- dl_lock_two_trylock_backoff, `park` sem_down(&g_dl_hold).
pub data Act : Type 0 where
  locks unlocks : Ptr → Act
  count_ready await_both count_done park : Act
  lock_both : Ptr → Ptr → ℕ → Act

pub dl_lock_two_ordered : Ptr → Ptr → List Act
dl_lock_two_ordered a b =
    if is_null a || is_null b
    then []
    else if a == b
    then locks a ∷ []
    else if ltb a b
    then locks a ∷ locks b ∷ []
    else locks b ∷ locks a ∷ []

pub dl_unlock_two_ordered : Ptr → Ptr → List Act
dl_unlock_two_ordered a b =
    if is_null a || is_null b
    then []
    else if a == b
    then unlocks a ∷ []
    else if ltb a b
    then unlocks b ∷ unlocks a ∷ []
    else unlocks a ∷ unlocks b ∷ []

-- What a round of dl_lock_two_trylock_backoff does once it has `first`: it returns with both, or
-- goes round again without `first`.
pub data Attempt : Type 0 where
  has_both again : Kernel → Attempt

pub try_second : Config → ℕ → Ptr → Ptr → Kernel → Option Attempt
try_second c f first second k = mutex_trylock c f second k >>= λ r. elim r.result [
  | pos n ↦ some (has_both r.kernel)
  | negsuc n ↦ (mutex_unlock c f first r.kernel >>= λ k1. some (again k1))
]

pub deadlock_worker : Place → ℕ → ℕ → List Act
deadlock_worker p mode tid =
    let first = if tid == 1 then p.a else p.b in
    let second = if tid == 1 then p.b else p.a in
    let crossing = locks first ∷ count_ready ∷ await_both ∷ locks second ∷ [] in
    if mode == 2
    then crossing
    else if mode == 3
    then dl_lock_two_ordered p.a p.b ++ dl_unlock_two_ordered p.a p.b ++ count_done ∷ park ∷ []
    else if mode == 4
    then lock_both first second (if tid == 1 then 3000 else 7000)
      ∷ unlocks second
      ∷ unlocks first
      ∷ count_done
      ∷ park
      ∷ []
    else if mode == 5
    then crossing
    else []

-- Each of the two threads is BLOCKED on the mutex that the other owns.
unfoldable pub dl_deadlock_observed : Place → Lab → Kernel → Bool
dl_deadlock_observed p l k =
    if is_null l.t1 || is_null l.t2
    then false
    else if is_ready_state (k.thread l.t1).state || is_ready_state (k.thread l.t2).state
    then false
    else if not ((k.mutex p.a).owner == l.t1) || not ((k.mutex p.b).owner == l.t2)
    then false
    else if not ((k.thread l.t1).waiting_on == p.b)
    then false
    else if not ((k.thread l.t2).waiting_on == p.a)
    then false
    else true

-- A round of deadlock_watchdog: it goes on, or reports and stops. The flag is `printed`.
pub data Verdict : Type 0 where
  goes_on : Bool → Verdict
  deadlock_observed result_pass reports_fail : Verdict

pub watchdog_round : Place → Lab → ℕ → Bool → Kernel → Verdict
watchdog_round p l dt printed k =
    if l.mode == 2
    then (if dl_deadlock_observed p l k
        then deadlock_observed
        else if leb 200 dt
        then reports_fail
        else goes_on (printed || leb 50 dt))
    else if (l.mode == 3) || (l.mode == 4)
    then (if leb 2 l.done
        then result_pass
        else if leb 200 dt
        then reports_fail
        else goes_on printed)
    else if leb 200 dt
    then reports_fail
    else goes_on printed

-- sync_lab_setup returns, or halts.
pub data Setup : Type 0 where
  sets_up : Lab → Machine → Setup
  halts : Setup

abbrev lab_stack_bytes : ℕ
lab_stack_bytes = 16 * 1024

abbrev add_three : Ptr → Ptr → Ptr → Lab → Machine → Setup
add_three x y z l m =
    if is_null x || is_null y || is_null z
    then halts
    else sets_up l (record m { kernel = sched_add z (sched_add y (sched_add x m.kernel)) })

-- The part of sync_lab_setup for mode 1.
pub set_up_inversion : Config → Place → Bool → ℕ → ℕ → Lab → Machine → Option Setup
set_up_inversion c p debug f lr l m =
    mutex_set_pi_enabled c f p.lock false (mutex_init c p.lock m.kernel) >>= λ k1.
    (let k2 = sem_init p.hold_high (pos 0) (sem_init p.start (pos 0) k1) in
      thread_create_prio debug f lr p.low_thread 0 lab_stack_bytes (pos 5)
        (record m { kernel = k2 })
      >>= λ (low, m1).
          (thread_create_prio debug f lr p.medium_thread 0 lab_stack_bytes (pos 10) m1
            >>= λ (medium, m2).
                (thread_create_prio debug f lr p.high_thread 0 lab_stack_bytes (pos 20) m2
                  >>= λ (high, m3). some (
                      add_three low medium high (record l { pi_enabled = false; high_done = false })
                        m3))))

-- The part for the modes 2 to 5.
pub set_up_deadlock : Config → Place → Bool → ℕ → ℕ → ℕ → Lab → Machine → Option Setup
set_up_deadlock c p debug f lr mode l m =
    let k1 = sem_init p.hold (pos 0) (mutex_init c p.b (mutex_init c p.a m.kernel)) in
    thread_create_prio debug f lr p.worker 1 lab_stack_bytes (pos 20) (record m { kernel = k1 })
    >>= λ (t1, m1).
        (thread_create_prio debug f lr p.worker 2 lab_stack_bytes (pos 20) m1 >>= λ (t2, m2).
        (thread_create_prio debug f lr p.watchdog 0 lab_stack_bytes (pos 5) m2 >>= λ (w, m3).
        some
          (add_three t1 t2 w (record l { mode = mode; done = 0; ready = 0; t1 = t1; t2 = t2 }) m3)))

pub sync_lab_setup : Config → Place → Bool → ℕ → ℕ → ℕ → Lab → Machine → Option Setup
sync_lab_setup c p debug f lr mode l m =
    if mode == 1
    then set_up_inversion c p debug f lr l m
    else if leb 2 mode && leb mode 5
    then set_up_deadlock c p debug f lr mode l m
    else some halts
