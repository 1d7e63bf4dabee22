-- ===== src/Thread/Calls.antt =====
-- The calls of src/thread.c that lock the scheduler and switch threads: each returns, and leaves the
-- system in order.
use x.Base.{
  ℕ, ◌+◌, ◌<◌, ◌≡◌, ◌≢◌, refl, true, false, ==_ne, ==_eq, inl, arith, update, update-update,
}
use x.Base.Word.{add32}
use x.Base.Outcome.{ok}
use x.LinkedList.{LinkedList}
use x.Cpu.Flags.{cpu_intr_disable, cpu_intr_enabled, cpu_intr_save, enabled-disable}
use x.Thread.State.{
  Kernel, Thread, dead, Point, after_yield, thread_clear_yield, thread_self, thread_preempt_disable,
  thread_preempt_enabled, thread_scheduler_locked, thread_lock_scheduler,
}
use x.Thread.Runq.{thread_runq_schedule}
use x.Thread.Sched.{thread_yield}
use x.Thread.Schedule.{Switched, schedule-Switched}
use x.Thread.System.{Resumable, IsOrderly, IsLoaded, IsSystem, Switched-IsSystem, put-IsOrderly}

module _ ⦃lib : LinkedList⦄ where
  -- The current thread with another preemption level, under other flags.
  abbrev pub at_level : Kernel → ℕ → ℕ → Kernel
  at_level k level eflags = record k {
    threads = update k.threads k.current (record (k.threads k.current) { preempt_level = level });
    eflags = eflags;
  }

  pub at_level-IsOrderly :
      (k : Kernel) (level eflags : ℕ) → IsOrderly k → IsOrderly (at_level k level eflags)
  at_level-IsOrderly k level eflags v =
      put-IsOrderly k (record (k.threads k.current) { preempt_level = level }) eflags v refl
        (inl refl)

  pub lock_lem :
      (k : Kernel)
      → (k.threads k.current).preempt_level < 4294967295
      → thread_lock_scheduler k
        ≡ ok (
          k.eflags,
          at_level k ((k.threads k.current).preempt_level + 1) (cpu_intr_disable k.eflags),
        )
  unfolding thread_lock_scheduler thread_preempt_disable thread_self cpu_intr_save
  lock_lem k lt =
      let e : add32 (k.threads k.current).preempt_level 1
          ≡ (k.threads k.current).preempt_level + 1 =
        omega arith in
      rw (e, ==_ne ((k.threads k.current).preempt_level + 1) 0 (omega arith))

  pub locked_lem :
      (k : Kernel)
      → cpu_intr_enabled k.eflags ≡ false
      → 0 < (k.threads k.current).preempt_level
      → thread_scheduler_locked k ≡ true
  unfolding thread_scheduler_locked thread_preempt_enabled thread_self
  locked_lem k off pos = rw (off, ==_ne (k.threads k.current).preempt_level 0 (omega arith))

  -- The switch in an orderly system, from a thread at level 1 with interrupts off.
  pub switch-IsSystem :
      (k : Kernel) (point : Point)
      → IsOrderly k
      → ((k.threads k.current).state ≢ dead → Resumable point)
      → (k.threads k.current).preempt_level ≡ 1
      → cpu_intr_enabled k.eflags ≡ false
      → (k' : Kernel) × (thread_runq_schedule k point ≡ ok k')
        × Switched k point k'
        × IsSystem k'
        × IsLoaded k'
  switch-IsSystem k point v resumable level off =
      let (k', code, s) =
        schedule-Switched k point v.scheduled (locked_lem k off (omega (arith, level))) level in
      let (system, loaded) = Switched-IsSystem v resumable level off s in
      (k', code, s, system, loaded)

  -- What a yield at preemption level 0 comes to.
  pub record Yielded (k k' : Kernel) : Type 0 where
    pub switched :
        Switched
          (record k {
            threads =
                update k.threads k.current
                  (record (k.threads k.current) { preempt_level = 1; yield = false });
            eflags = cpu_intr_disable k.eflags;
          })
          (after_yield k.eflags)
          k'
    pub system : IsSystem k'
    pub loaded : IsLoaded k'

  pub yield_lem :
      (k : Kernel)
      → IsOrderly k
      → (k.threads k.current).preempt_level ≡ 0
      → (k' : Kernel) × (thread_yield k ≡ ok k') × Yielded k k'
  unfolding thread_yield thread_preempt_enabled thread_self thread_clear_yield
  yield_lem k v level =
      let th : Thread = record (k.threads k.current) { preempt_level = 1; yield = false } in
      let k1 : Kernel = record k {
        threads = update k.threads k.current th;
        eflags = cpu_intr_disable k.eflags;
      } in
      let orderly : IsOrderly k1 =
        put-IsOrderly k th (cpu_intr_disable k.eflags) v refl (inl refl) in
      let (k', code, switched, system, loaded) =
        switch-IsSystem k1 (after_yield k.eflags) orderly (λ alive. tt)
          (rw (==_eq k.current k.current refl) refl) (enabled-disable k.eflags) in
      (
        k',
        rw
            (
              ==_eq (k.threads k.current).preempt_level 0 level,
              lock_lem k (omega (arith, level)),
              ==_eq k.current k.current refl,
              update-update,
              level,
            )
            code,
        record { switched = switched; system = system; loaded = loaded },
      )
