-- ===== src/Irq/Tail.antt =====
-- What irq_handler_el1 of src/irq.cc leaves behind, for every interrupt.
use micro_kernel_using_c_plu.Prelude.{
  ℕ, ◌+◌, ◌%◌, ◌^◌, Bool, ◌≤◌, ◌<◌, ◌≡◌, ◌≢◌, refl, ap, ◌∙◌, true, false, not, ◌||◌, ◌==◌,
  Bool-cases, inl, inr, ◌⊎◌, some, List, arith,
}
use micro_kernel_using_c_plu.Prelude.Store.{Ptr, null, length}
use micro_kernel_using_c_plu.Kernel.{Kernel, Policy}
use micro_kernel_using_c_plu.Runqueue.{IsQueue}
use micro_kernel_using_c_plu.Sched.{Outcome, returns, halts, sched_on_tick}
use micro_kernel_using_c_plu.Sched.Ticked.{runs_safe, Ticked, sched_on_tick-Ticked}
use micro_kernel_using_c_plu.Dma.{Setup, Dma, dma_poll_complete}
use micro_kernel_using_c_plu.Irq.{
  Left, Handled, leaves, stops, enter_irq, leave_irq, count_tick, wants_switch, timer_tick,
  irq_handler_el1,
}

abbrev pub is_timer : ℕ → Bool
is_timer intid = (intid == 27) || (intid == 30)

-- The callbacks leave the processor's state alone, but for the request for a switch.
abbrev pub IsPolite : (Dma → Kernel → Kernel) → Type 0
IsPolite wakes =
    (d : Dma) (k : Kernel)
    → (wakes d k).cpu ≡ record (k.cpu) { need_resched = (wakes d k).cpu.need_resched }

-- The handler's balance: the depth is as before, no thread is switched, and the interrupted thread
-- goes on in `preempt_return` only if preemption is enabled and a switch is asked for.
pub record IsBalanced (k : Kernel) (intid : ℕ) (l : Left) : Type 0 where
  pub depth : l.kernel.cpu.irq_depth ≡ k.cpu.irq_depth
  pub current : l.kernel.cpu.current_thread ≡ k.cpu.current_thread
  pub preempt : l.kernel.cpu.preempt_cnt ≡ k.cpu.preempt_cnt
  pub ended : l.ended ≡ not (intid == 1023)
  pub enabled : l.preempts ≡ true → (k.cpu.preempt_cnt ≡ 0) × (k.cpu.current_thread ≢ null)
  pub asked : l.preempts ≡ true → l.kernel.cpu.need_resched ≢ 0

-- A timer's interrupt counts a tick, and `d'` is what the poll of the DMA queue leaves then; any
-- other interrupt changes nothing. It stops the kernel in a timer's interrupt if a thread runs
-- whose guard is damaged, and only then.
abbrev pub HandledWell : Kernel → Dma → Dma → ℕ → Handled → Type 0
HandledWell k d d' intid (leaves l) =
    IsBalanced k intid l
    × (((is_timer intid ≡ true)
          × (l.dma ≡ d')
          × (l.kernel.cpu.ticks ≡ (k.cpu.ticks + 1) % 2 ^ 64)
          × ((k.cpu.current_thread ≡ null) ⊎ (runs_safe d.memory k ≡ true)))
        ⊎ ((is_timer intid ≡ false) × (l.dma ≡ d) × (l.kernel ≡ k)))
HandledWell k d d' intid stops =
    (is_timer intid ≡ true) × (k.cpu.current_thread ≢ null) × (runs_safe d.memory k ≡ false)

timer_tick-Well :
    (policy : Policy) (f g : ℕ) (s : Setup) (call : ℕ → ℕ → Dma → Dma)
    (wakes : Dma → Kernel → Kernel) (intid : ℕ) (k : Kernel) (d d' : Dma) (q : List Ptr)
    → IsPolite wakes
    → IsQueue k q
    → length q ≤ f
    → k.cpu.irq_depth + 1 < 2 ^ 32
    → is_timer intid ≡ true
    → dma_poll_complete g s call d ≡ some d'
    → (h : Handled) × (timer_tick policy f g s call wakes (enter_irq k) d ≡ some h)
      × HandledWell k d d' intid h
unfolding timer_tick enter_irq leave_irq wants_switch
timer_tick-Well policy f g s call wakes intid k d d' q polite r fuel room timer polled =
    let (o, e, ticked) =
      sched_on_tick-Ticked policy f d.memory (count_tick (enter_irq k)) q r fuel in
    go o e ticked
  where
    go :
        (o : Outcome)
        → sched_on_tick policy f d.memory (count_tick (enter_irq k)) ≡ some o
        → Ticked d.memory (count_tick (enter_irq k)) o
        → (h : Handled) × (timer_tick policy f g s call wakes (enter_irq k) d ≡ some h)
          × HandledWell k d d' intid h
    go (returns k') e ticked = (
      leaves (record {
        kernel = leave_irq (wakes d k');
        dma = d';
        ended = true;
        preempts = wants_switch (wakes d k');
      }),
      rw (e, polled) refl,
      (
        record {
          depth = ground (arith, polite d k', ticked.0);
          current = ap (λ c. c.current_thread) (polite d k') ∙ ap (λ c. c.current_thread) ticked.0;
          preempt = ap (λ c. c.preempt_cnt) (polite d k') ∙ ap (λ c. c.preempt_cnt) ticked.0;
          ended = ground arith;
          enabled = λ p. ground (arith, polite d k', ticked.0);
          asked = λ p. ground arith;
        },
        inl (timer, refl, ground (arith, polite d k', ticked.0), ticked.1),
      ),
    )
    go halts e ticked = (stops, rw e refl, (timer, ticked.0, ticked.1))

depth_back : (k : Kernel) → k.cpu.irq_depth + 1 < 2 ^ 32 → leave_irq (enter_irq k) ≡ k
unfolding enter_irq leave_irq
depth_back k room = ground arith

-- If the depth of interrupts has room, the poll of the DMA queue ends, and its callbacks leave the
-- processor's state alone but for asking for a switch: a timer's interrupt stops
-- the kernel if a thread runs whose stack's guard is damaged, and else counts a tick and polls the
-- queue; any other interrupt leaves the kernel and the queue alone. But where the kernel stops,
-- the handler balances its depth, switches no thread itself, acknowledges all but a spurious
-- interrupt, and sends the thread to `preempt_return` only with preemption enabled and a switch
-- asked for.
pub irq_handler_el1-HandledWell :
    (policy : Policy) (f g : ℕ) (s : Setup) (call : ℕ → ℕ → Dma → Dma)
    (wakes : Dma → Kernel → Kernel) (intid : ℕ) (k : Kernel) (d d' : Dma) (q : List Ptr)
    → IsPolite wakes
    → IsQueue k q
    → length q ≤ f
    → k.cpu.irq_depth + 1 < 2 ^ 32
    → dma_poll_complete g s call d ≡ some d'
    → (h : Handled) × (irq_handler_el1 policy f g s call wakes intid k d ≡ some h)
      × HandledWell k d d' intid h
unfolding irq_handler_el1 enter_irq leave_irq
irq_handler_el1-HandledWell policy f g s call wakes intid k d d' q polite r fuel room polled =
    elim (Bool-cases ((intid == 27) || (intid == 30))) [
      | inl timer ↦
          let (h, e, well) =
            timer_tick-Well policy f g s call wakes intid k d d' q polite r fuel room timer
              polled in
          (h, rw timer e, well)
      | inr other ↦ (
        leaves (record {
          kernel = leave_irq (enter_irq k);
          dma = d;
          ended = not (intid == 1023);
          preempts = false;
        }),
        rw other refl,
        (
          record {
            depth = ground arith;
            current = refl;
            preempt = refl;
            ended = refl;
            enabled = λ p. ground arith;
            asked = λ p. ground arith;
          },
          inr (other, refl, depth_back k room),
        ),
      )
    ]
