-- ===== src/Thread/Resume.antt =====
-- What a thread of src/thread.c does first when it is loaded: the start of `thread_main`, or the rest
-- of `thread_yield` or `thread_sleep` after `thread_runq_schedule`.
use x.Base.{ℕ, ◌-◌, ◌≡◌, refl, ap, ◌∙◌, false, ==_eq, inl, arith, update}
use x.Base.Outcome.{ok}
use x.LinkedList.{LinkedList}
use x.Cpu.Flags.{cpu_intr_enable, cpu_intr_enabled, cpu_intr_restore}
use x.Thread.State.{
  Kernel, Thread, running, Point, in_code, at_start, after_yield, after_sleep, after_exit,
  thread_set_point, thread_self,
}
use x.Thread.Sched.{thread_main, thread_resume, thread_resume_at, thread_unlock_scheduler}
use x.Thread.Park.{running_of}
use x.Thread.System.{Resumable, IsOrderly, IsLoaded, IsSystem}
use x.Thread.Calls.{at_level, locked_lem}
use x.Thread.Enable.{
  Continued, Continued-trans, change-Continued, flags-IsOrderly, flags-Continued, no_yield_lem,
  at_level-Continued, preempt_enable_lem,
}

module _ ⦃lib : LinkedList⦄ where
  -- Thread `t` returns from the call it made, with the flags it made it with.
  abbrev pub IsBack : ℕ → Point → Kernel → Type 0
  IsBack t in_code k' = ⊥
  IsBack t at_start k' = Unit {0}
  IsBack t (after_yield eflags) k' =
      (k'.current ≡ t) × (k'.eflags ≡ eflags) × ((k'.threads t).preempt_level ≡ 0)
  IsBack t (after_sleep eflags) k' =
      (k'.current ≡ t) × (k'.eflags ≡ eflags) × ((k'.threads t).preempt_level ≡ 1)
  IsBack t after_exit k' = ⊥

  main_lem :
      (k : Kernel)
      → IsOrderly k
      → (k.threads k.current).state ≡ running
      → (k.threads k.current).point ≡ in_code
      → (k.threads k.current).preempt_level ≡ 1
      → cpu_intr_enabled k.eflags ≡ false
      → (k' : Kernel) × (thread_main k ≡ ok k') × Continued k k'
  unfolding thread_main thread_self
  main_lem k v runs code level off =
      let on = cpu_intr_enable k.eflags in
      let (k', run, c) =
        preempt_enable_lem (record k { eflags = on }) (flags-IsOrderly k on v) runs code
          (omega (arith, level)) in
      (
        k',
        rw
            (
              locked_lem k off (omega (arith, level)),
              ==_eq (k.threads k.current).preempt_level 1 level,
            )
            run,
        flags-Continued k k' on c,
      )

  resume_at :
      (k : Kernel) (point : Point)
      → IsOrderly k
      → (k.threads k.current).state ≡ running
      → (k.threads k.current).point ≡ in_code
      → (k.threads k.current).preempt_level ≡ 1
      → cpu_intr_enabled k.eflags ≡ false
      → Resumable point
      → (k' : Kernel) × (thread_resume_at k point ≡ ok k')
        × Continued k k'
        × IsBack k.current point k'
  unfolding thread_resume_at thread_unlock_scheduler cpu_intr_restore thread_self
  resume_at k in_code v runs code level off can = absurd can
  resume_at k at_start v runs code level off can =
      let (k', run, c) = main_lem k v runs code level off in (k', run, c, tt)
  resume_at k (after_yield eflags) v runs code level off can = (
    at_level k ((k.threads k.current).preempt_level - 1) eflags,
    no_yield_lem (record k { eflags = eflags }) (omega (arith, level)),
    at_level-Continued k ((k.threads k.current).preempt_level - 1) eflags v runs code,
    (refl, refl, rw (==_eq k.current k.current refl, level) refl),
  )
  resume_at k (after_sleep eflags) v runs code level off can = (
    record k { eflags = eflags },
    rw (running_of k k.current runs) refl,
    record {
      system = record { orderly = flags-IsOrderly k eflags v; runs = runs; now = inl code };
      same_idle = refl;
      states = λ t. refl;
      priorities = λ t. refl;
      kept = λ t busy runs lt. refl;
    },
    (refl, refl, level),
  )
  resume_at k after_exit v runs code level off can = absurd can

  -- In a system in order, a thread that was loaded goes on and fails no assertion: it returns
  -- from `thread_yield` or `thread_sleep` with the flags and the preemption level it had, or
  -- it starts. No thread changes its state, and the system stays in order.
  pub resume_lem :
      (k : Kernel)
      → IsSystem k
      → IsLoaded k
      → (k' : Kernel) × (thread_resume k ≡ ok k')
        × Continued k k'
        × IsBack k.current (k.threads k.current).point k'
  unfolding thread_resume thread_set_point thread_self
  resume_lem k v loaded =
      let th : Thread = record (k.threads k.current) { point = in_code } in
      let k1 : Kernel = record k { threads = update k.threads k.current th } in
      let here : k1.threads k.current ≡ th = rw (==_eq k.current k.current refl) refl in
      let c : Continued k k1 = change-Continued k th k.eflags v.orderly v.runs refl refl refl in
      let (k', run, d, back) =
        resume_at k1 (k.threads k.current).point c.system.orderly c.system.runs
          (ap (λ d. d.point) here) (ap (λ d. d.preempt_level) here ∙ loaded.level) loaded.off
          loaded.point in
      (k', run, Continued-trans k k1 k' c d, back)
