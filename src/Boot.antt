-- ===== src/Boot.antt =====
-- The threads that kmain of src/kmain.cc starts where no lab is built in: the lines from the first
-- thread_create to the second sched_add, over Create and Sched.
pub mod Started
use micro_kernel_using_c_plu.Prelude.{ℕ, ◌*◌, Bool, ◌||◌, Option, some, ◌==◌, if◌then◌else◌, ◌>>=◌}
use micro_kernel_using_c_plu.Prelude.Store.{Ptr, null}
use micro_kernel_using_c_plu.Sched.{sched_add}
use micro_kernel_using_c_plu.Create.{Machine, thread_create}

abbrev pub boot_stack_bytes : ℕ
boot_stack_bytes = 16 * 1024

-- kmain goes on, or halts since a thread could not be made.
pub data Boot : Type 0 where
  goes_on : Machine → Boot
  halts : Boot

abbrev pub add_to_queue : Ptr → Machine → Machine
add_to_queue t m = record m { kernel = sched_add t m.kernel }

-- `a` and `b` are the addresses of the functions of these names.
pub start_threads : Bool → ℕ → ℕ → ℕ → ℕ → Machine → Option Boot
start_threads debug f lr a b m = thread_create debug f lr a 0xa boot_stack_bytes m >>= λ (ta, m1).
    (thread_create debug f lr b 0xb boot_stack_bytes m1 >>= λ (tb, m2).
    some
      (if ta == null || tb == null then halts else goes_on (add_to_queue tb (add_to_queue ta m2))))
