-- ===== src/Runqueue.antt =====
-- The run queue of src/thread.cc: a circular list through `Thread::next`, with its head and tail.
-- A walk round it takes fuel; `none` means that the fuel ran out before the walk ended.
pub mod Links
pub mod Append
pub mod Remove
pub mod Scan
pub mod Turn
pub mod Pick
use Links.{Ring}
use micro_kernel_using_c_plu.Prelude.{
  ℕ, zero, suc, ◌+◌, ◌<◌, ◌≡◌, ◌≢◌, refl, Bool, true, false, not, ◌&&◌, ◌||◌, Option, none, some,
  ltb, ◌==◌, if◌then◌else◌, ◌>>=◌, List,
}
use micro_kernel_using_c_plu.Prelude.Store.{Ptr, null, update}
use micro_kernel_using_c_plu.Kernel.{
  Thread, Kernel, ThreadState, ready, blocked, is_null, set_next, next_of, is_ready_state,
}

-- The queue holds the threads of the list, head first.
abbrev pub IsQueue : Kernel → List Ptr → Type 0
IsQueue k q = Ring (next_of k) k.rq_head k.rq_tail q

-- `k'` differs from `k` at most in the links of threads and the ends of the queue.
pub record SameButNext (k k' : Kernel) : Type 0 where
  pub threads : (a : Ptr) → k'.thread a ≡ record (k.thread a) { next = next_of k' a }
  pub rest : k' ≡ record k { thread = k'.thread; rq_head = k'.rq_head; rq_tail = k'.rq_tail }

-- A null thread is not ready.
unfoldable pub is_ready : Kernel → Ptr → Bool
is_ready k t = not (is_null t) && is_ready_state (k.thread t).state

pub rq_append : Ptr → Kernel → Kernel
rq_append t k =
    if is_null t
    then k
    else if is_null k.rq_head
    then set_next t t (record k { rq_head = t; rq_tail = t })
    else (let k' = set_next t k.rq_head k in
        let k'' = set_next k.rq_tail t k' in record k'' { rq_tail = t })

-- `while (prev->next != t && prev->next != rq_head) prev = prev->next;`
pub find_prev : ℕ → (Ptr → Ptr) → Ptr → Ptr → Ptr → Option Ptr
find_prev zero next head t prev = none
find_prev (suc f) next head t prev =
    let rest = find_prev f next head t (next prev) in
    if not (next prev == t) && not (next prev == head) then rest else some prev

-- The assignments of `rq_remove` once the predecessor is known.
pub unlink : Ptr → Ptr → Kernel → Kernel
unlink t prev k =
    if next_of k prev == t
    then (let k' = set_next prev (next_of k t) k in
        let k'' = record k' {
          rq_head = if k.rq_head == t then next_of k' t else k.rq_head;
          rq_tail = if k.rq_tail == t then prev else k.rq_tail;
        } in
        set_next t null k'')
    else k

pub rq_remove : ℕ → Ptr → Kernel → Option Kernel
rq_remove f t k =
    if is_null k.rq_head || is_null t
    then some k
    else if k.rq_head == t && k.rq_tail == t
    then some (set_next t null (record k { rq_head = null; rq_tail = null }))
    else (find_prev f (next_of k) k.rq_head t k.rq_head >>= λ prev. some (unlink t prev k))

-- `int best = -1` is `none`; every priority is above it.
abbrev pub exceeds : ℕ → Option ℕ → Bool
exceeds p none = true
exceeds p (some b) = ltb b p

pub better : Kernel → Ptr → Option ℕ → Option ℕ
better k t best =
    if is_ready k t && exceeds (k.thread t).effective_priority best
    then some (k.thread t).effective_priority
    else best

pub max_loop : ℕ → Kernel → Ptr → Ptr → Option ℕ → Option (Option ℕ)
max_loop zero k start t best = none
max_loop (suc f) k start t best =
    let t' = next_of k t in
    let rest = max_loop f k start t' (better k t best) in
    if not (is_null t') && not (t' == start) then rest else some (better k t best)

pub rq_max_ready_priority : ℕ → Kernel → Option (Option ℕ)
rq_max_ready_priority f k =
    if is_null k.rq_head then some none else max_loop f k k.rq_head k.rq_head none

pub has_gt_loop : ℕ → Kernel → ℕ → Ptr → Ptr → Option Bool
has_gt_loop zero k prio start t = none
has_gt_loop (suc f) k prio start t =
    let t' = next_of k t in
    let rest = has_gt_loop f k prio start t' in
    if is_ready k t && ltb prio (k.thread t).effective_priority
    then some true
    else if not (is_null t') && not (t' == start)
    then rest
    else some false

pub rq_has_ready_prio_gt : ℕ → Kernel → ℕ → Option Bool
rq_has_ready_prio_gt f k prio =
    if is_null k.rq_head then some false else has_gt_loop f k prio k.rq_head k.rq_head

-- The test of the scan in `prio_pick_next`.
pub eligible : Kernel → Ptr → Bool → ℕ → Ptr → Bool
eligible k cur exclude_current best t =
    is_ready k t
    && (k.thread t).effective_priority == best
    && (not exclude_current || not (t == cur))

-- The scan: `some null` if no thread of the ring is eligible.
pub pick_loop : ℕ → Kernel → (Ptr → Bool) → Ptr → Ptr → Option Ptr
pick_loop zero k test start t = none
pick_loop (suc f) k test start t =
    let t' = next_of k t in
    let rest = pick_loop f k test start t' in
    if test t then some t else if not (is_null t') && not (t' == start) then rest else some null

-- Whether `cur` is a ready thread of priority `best`.
pub is_best : Kernel → Ptr → ℕ → Bool
is_best k cur best =
    not (is_null cur) && is_ready k cur && (k.thread cur).effective_priority == best

pub pick_start : Kernel → Ptr → Bool → Bool → Ptr
pick_start k cur exclude_current rotate_equal =
    if (exclude_current || rotate_equal) && not (is_null cur) && not (is_null (next_of k cur))
    then next_of k cur
    else k.rq_head

pub pick_best : ℕ → Kernel → Ptr → Bool → Bool → ℕ → Option Ptr
pick_best f k cur exclude_current rotate_equal best =
    if not exclude_current && not rotate_equal && is_best k cur best
    then some cur
    else let start = pick_start k cur exclude_current rotate_equal in
      pick_loop f k (eligible k cur exclude_current best) start start >>= λ t.
      some (if not (is_null t) then t else if is_best k cur best then cur else k.rq_head)

pub prio_pick_next : ℕ → Kernel → Ptr → Bool → Bool → Option Ptr
prio_pick_next f k cur exclude_current rotate_equal =
    if is_null k.rq_head
    then some cur
    else (rq_max_ready_priority f k >>= λ best. elim best [
      | none ↦ some cur
      | some b ↦ pick_best f k cur exclude_current rotate_equal b
    ])
