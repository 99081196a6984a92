-- ===== src/Dma/Queue.antt =====
-- dma_poll_complete of src/dma.cc on the list of the pending descriptors.
use micro_kernel_using_c_plu.Prelude.{ℕ, ◌≡◌, true, false, ◌==◌, if◌then◌else◌, List}
use micro_kernel_using_c_plu.Prelude.Store.{Ptr, null, has, Distinct, Chain}
use micro_kernel_using_c_plu.Stack.{Memory}
use micro_kernel_using_c_plu.Dma.{Setup, Desc, Dma}
use micro_kernel_using_c_plu.Dma.Served.{all_served}

-- The head as one round leaves it.
abbrev finished : Desc → Desc
finished t = record t { next = null; status = 0 }

-- From the head the descriptors of the list are linked, each once.
pub record IsPending (d : Dma) (xs : List Ptr) : Type 0 where
  pub chain : Chain (λ p. (d.desc p).next) d.pending_head xs null
  pub distinct : Distinct xs

-- What a poll of the pending descriptors leaves: an empty queue, each of them served in turn,
-- finished and unlinked, and every other descriptor as it was.
pub record IsDrained (s : Setup) (effect : ℕ → ℕ → Memory → Memory) (d d' : Dma) (xs : List Ptr)
    : Type 0 where
  pub empty : d'.pending_head ≡ null
  pub tail : d'.pending_tail ≡ (if d.pending_head == null then d.pending_tail else null)
  pub memory : d'.memory ≡ all_served s effect d.desc xs d.memory
  pub done : (a : Ptr) → has a xs ≡ true → d'.desc a ≡ finished (d.desc a)
  pub others : (a : Ptr) → has a xs ≡ false → d'.desc a ≡ d.desc a
