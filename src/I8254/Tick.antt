-- ===== src/I8254/Tick.antt =====
-- A tick of the clock, as src/i8254.c reports it to src/thread.c and src/timer.c.
use x.Base.{
  ◌<◌, ◌≡◌, ◌≢◌, refl, ap, sym, ◌∙◌, subst, Bool, true, false, not, ◌&&◌, ==_eq, if◌then◌else◌,
  Bool-cases, inl, inr, update,
}
use x.Base.Word.{add32}
use x.Base.Outcome.{Outcome, ok, ◌>>=◌}
use x.LinkedList.{LinkedList}
use x.Cpu.Flags.{cpu_intr_enabled}
use x.Thread.State.{Kernel, Thread, thread_self, thread_set_yield}
use x.Thread.Sched.{thread_wakeup}
use x.Thread.System.{IsOrderly, put-IsOrderly}
use x.Thread.Tell.{MayJoin, Joined, put_may, tell_lem}
use x.Timer.{Timers, timer_ticks_occurred, timer_report_tick, timer_work_pending}
use x.I8254.{thread_report_tick, i8254_irq_handler}

module _ ⦃lib : LinkedList⦄ where
  -- Whether a timer is due once the tick is counted.
  abbrev pub due : Timers → Bool
  due t =
      not t.timer_list_empty && timer_ticks_occurred t.timer_wakeup_ticks (add32 t.timer_ticks 1)

  abbrev with_tick : Timers → Kernel → Outcome (Kernel × Timers)
  with_tick t k = ok (k, record t { timer_ticks = add32 t.timer_ticks 1 })

  -- The end of `timer_report_tick`.
  abbrev tick_end : Kernel → Timers → Bool → Outcome (Kernel × Timers)
  tick_end k t pending = (if pending then thread_wakeup k t.timer_thread else ok k) >>= with_tick t

  tick_code :
      (k : Kernel) (t : Timers)
      → cpu_intr_enabled k.eflags ≡ false
      → timer_report_tick k t ≡ tick_end k t (due t)
  unfolding timer_report_tick timer_work_pending
  tick_code k t off = rw off refl

  -- The interrupted thread goes on, told to yield later.
  pub record Ticked (k : Kernel) (t : Timers) (k' : Kernel) : Type 0 where
    pub orderly : IsOrderly k'
    pub same_current : k'.current ≡ k.current
    pub same_idle : k'.idle ≡ k.idle
    pub level : (k'.threads k.current).preempt_level ≡ (k.threads k.current).preempt_level
    pub state : (k'.threads k.current).state ≡ (k.threads k.current).state
    pub point : (k'.threads k.current).point ≡ (k.threads k.current).point
    pub joined : due t ≡ true → Joined k' t.timer_thread

  pub ticked_lem :
      (k : Kernel) (t : Timers)
      → IsOrderly k
      → cpu_intr_enabled k.eflags ≡ false
      → 0 < (k.threads k.current).preempt_level
      → (k.threads k.current).preempt_level < 4294967295
      → k.nr_threads < 4294967295
      → MayJoin k t.timer_thread
      → (k' : Kernel) × (i8254_irq_handler k t
          ≡ ok (k', record t { timer_ticks = add32 t.timer_ticks 1 }))
        × Ticked k t k'
  unfolding i8254_irq_handler thread_report_tick thread_set_yield thread_self
  ticked_lem k t v off pos lt few may = elim (Bool-cases (due t)) [
    | inl pending ↦
        let (k', woke, told) =
          tell_lem k1 t.timer_thread v1 (subst (λ d. 0 < d.preempt_level) (sym self) pos)
            (subst (λ d. d.preempt_level < 4294967295) (sym self) lt) few
            (put_may k th k.eflags t.timer_thread may) in
        (
          k',
          tick_code k1 t off ∙ ap (tick_end k1 t) pending ∙ ap (λ m. m >>= with_tick t) woke,
          record {
            orderly = told.orderly;
            same_current = told.same_current;
            same_idle = told.same_idle;
            level = told.level ∙ ap (λ d. d.preempt_level) self;
            state = told.state ∙ ap (λ d. d.state) self;
            point = told.point ∙ ap (λ d. d.point) self;
            joined = λ e. told.joined;
          },
        )
    | inr idle ↦ (
      k1,
      tick_code k1 t off ∙ ap (tick_end k1 t) idle,
      record {
        orderly = v1;
        same_current = refl;
        same_idle = refl;
        level = ap (λ d. d.preempt_level) self;
        state = ap (λ d. d.state) self;
        point = ap (λ d. d.point) self;
        joined = λ e. absurd (true_ne_false (sym e ∙ idle));
      },
    )
  ]
    where
      true_ne_false : true ≢ false
      true_ne_false e = cc

      th : Thread
      th = record (k.threads k.current) { yield = true }

      k1 : Kernel
      k1 = record k { threads = update k.threads k.current th }

      self : k1.threads k.current ≡ th
      self = rw (==_eq k.current k.current refl) refl

      v1 : IsOrderly k1
      v1 = put-IsOrderly k th k.eflags v refl (inl refl)

  -- With the run queue in order, the number of threads below its limit, and the timer thread,
  -- if there is one, alive, not current and not the idle one, `i8254_irq_handler`, called
  -- with interrupts off and preemption disabled, fails no assertion: the tick is counted, the
  -- run queue is in order, and the timer thread is ready if a timer is due.
  pub tick_lem :
      (k : Kernel) (t : Timers)
      → IsOrderly k
      → cpu_intr_enabled k.eflags ≡ false
      → 0 < (k.threads k.current).preempt_level
      → (k.threads k.current).preempt_level < 4294967295
      → k.nr_threads < 4294967295
      → MayJoin k t.timer_thread
      → (k' : Kernel) × (i8254_irq_handler k t
          ≡ ok (k', record t { timer_ticks = add32 t.timer_ticks 1 }))
        × IsOrderly k'
        × (k'.current ≡ k.current)
        × (due t ≡ true → Joined k' t.timer_thread)
  tick_lem k t v off pos lt few may =
      let (k', run, ticked) = ticked_lem k t v off pos lt few may in
      (k', run, ticked.orderly, ticked.same_current, ticked.joined)
