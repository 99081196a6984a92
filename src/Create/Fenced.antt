-- ===== src/Create/Fenced.antt =====
-- The page below the stack of a thread that thread_create_prio of src/thread.cc makes.
use micro_kernel_using_c_plu.Prelude.{
  ℕ, ◌+◌, ◌-◌, ◌/◌, ◌%◌, ◌^◌, ◌≤◌, ◌<◌, ◌≡◌, ◌≢◌, ◌⊎◌, inl, inr, refl, ◌∙◌, ap, sym, Bool, true,
  Option, none, some, List, ◌∷◌, arith,
}
use mathlib.Core.Path.{subst}
use micro_kernel_using_c_plu.Prelude.Int.{ℤ}
use micro_kernel_using_c_plu.Prelude.Store.{Ptr}
use micro_kernel_using_c_plu.Prelude.Align.{is_pow2}
use micro_kernel_using_c_plu.Kmem.{Heap, kmem_align, kmem_alloc_aligned}
use micro_kernel_using_c_plu.Kmem.Bump
use micro_kernel_using_c_plu.Kmem.Bump.{kmem_alloc_aligned-Answer}
use micro_kernel_using_c_plu.Pool.Blocks.{IsPool}
use micro_kernel_using_c_plu.Mmu.{Place, Tables, mmu_guard_page}
use micro_kernel_using_c_plu.Mmu.Walk.{walk}
use micro_kernel_using_c_plu.Mmu.Tree.{IsSpread, IsTree}
use micro_kernel_using_c_plu.Mmu.Unmapped.{Refused, Answer, mmu_guard_page-Answer}
use micro_kernel_using_c_plu.Create.{Machine, stack_guard_page_bytes, thread_create_prio}
use micro_kernel_using_c_plu.Create.Created.{thread_create_prio-IsCreated}

-- The tables t' map a stack at `base` as t does, and not the page below it, unless that was
-- refused.
pub record IsFenced (p : Place) (table : ℕ → Option ℕ) (on : Bool) (base size : ℕ) (t t' : Tables)
    : Type 0 where
  pub stack :
      (va : ℕ)
      → va < 0xc000_0000
      → base ≤ va
      → va < base + size
      → walk 3 t'.word p.l0 va ≡ walk 3 t.word p.l0 va
  pub page :
      ((t' ≡ t) × Refused table on (base - stack_guard_page_bytes) t)
      ⊎ ((va : ℕ)
          → va < 0xc000_0000
          → base ≤ va + stack_guard_page_bytes
          → va < base
          → walk 3 t'.word p.l0 va ≡ none)
  pub next_table : ℕ → Option ℕ
  pub tree : IsTree p next_table t'

Answer-IsFenced :
    (p : Place) (table : ℕ → Option ℕ) (on : Bool) (a size : ℕ) (t : Tables) (r : ℤ × Tables)
    → a % 4096 ≡ 0
    → IsTree p table t
    → Answer p table on a t r
    → IsFenced p table on (a + stack_guard_page_bytes) size t r.1
Answer-IsFenced p table on a size t (r, t') al tree (inl (e, same, why)) = record {
  stack = λ va lt low high. ap (λ (x : Tables). walk 3 x.word p.l0 va) same;
  page = inl (same, subst (λ b. Refused table on b t) (omega arith) why);
  next_table = table;
  tree = subst (IsTree p table) (sym same) tree;
}
Answer-IsFenced p table on a size t (r, t') al tree (inr (e, table', tree', un)) = record {
  stack = λ va lt low high.
      let other : va / 2 ^ 12 ≢ a / 2 ^ 12 = λ s. omega (arith, s) in un.walks va lt ∙ ground arith;
  page = inr (λ va lt low high.
      let same : va / 2 ^ 12 ≡ a / 2 ^ 12 = omega arith in un.walks va lt ∙ ground arith);
  next_table = table';
  tree = tree';
}

granted_at :
    (h h' : Heap) (sz a : ℕ)
    → h.cur + (4096 + 16) + sz < 2 ^ 64
    → h.end < 2 ^ 64
    → kmem_alloc_aligned sz 4096 h ≡ (some a, h')
    → (a % 4096 ≡ 0) × (a < 2 ^ 64)
unfolding is_pow2 kmem_align
granted_at h h' sz a room limit e =
    let (behind, al, more, inside, next) =
      subst (Bump.Answer h sz 4096) e (kmem_alloc_aligned-Answer h sz 4096 refl room) in
    (al, omega (arith, inside, limit))

-- With the page tables as build_identity_map or earlier calls of mmu_guard_page left them, and
-- where thread_create_prio takes the thread from the pool and the heap, which ends below 2 ^ 64,
-- has room for the stack: the new thread's stack is mapped as before; the
-- walk of every address of the page below it fails, unless mmu_guard_page refused for one of its
-- reasons and left the tables; and the tables are again such that the next call finds them so.
pub thread_create_prio-IsFenced :
    (debug : Bool) (f lr entry arg stack_size : ℕ) (prio : ℤ) (m : Machine) (t : Ptr)
    (xs : List Ptr) (a : ℕ) (h : Heap) (table : ℕ → Option ℕ)
    → entry ≢ 0
    → stack_size ≢ 0
    → m.heap.cur + (4096 + 16) + (stack_size + stack_guard_page_bytes) < 2 ^ 64
    → m.heap.end < 2 ^ 64
    → m.pool_inited ≡ true
    → IsPool m.pool (t ∷ xs)
    → kmem_alloc_aligned (stack_size + stack_guard_page_bytes) stack_guard_page_bytes m.heap
      ≡ (some a, h)
    → IsSpread m.place
    → IsTree m.place table m.tables
    → (m' : Machine) × (thread_create_prio debug f lr entry arg stack_size prio m ≡ some (t, m'))
      × IsFenced m.place table m.mmu_on
          (m'.kernel.thread t).stack_base
          stack_size
          m.tables
          m'.tables
thread_create_prio-IsFenced debug f lr entry arg stack_size prio m t xs a h table ne ns room limit
      inited is granted spread tree =
    let (al, fits) =
      granted_at m.heap h (stack_size + stack_guard_page_bytes) a room limit granted in
    let (m', made, created) =
      thread_create_prio-IsCreated debug f lr entry arg stack_size prio m t xs a h ne ns
        (omega (arith, room)) inited is granted in
    let answer = mmu_guard_page-Answer m.place m.mmu_on a table m.tables spread tree fits in
    let fenced =
      Answer-IsFenced m.place table m.mmu_on a stack_size m.tables
        (mmu_guard_page m.place m.mmu_on a m.tables) al tree answer in
    (
      m',
      made,
      subst (λ b. IsFenced m.place table m.mmu_on b stack_size m.tables m'.tables)
          (sym created.stack)
          (subst (IsFenced m.place table m.mmu_on (a + stack_guard_page_bytes) stack_size m.tables)
            (sym created.tables) fenced),
    )
