-- ===== src/Thread/Leave.antt =====
-- `thread_sleep` of src/thread.c: the current thread leaves the processor.
use x.Base.{ℕ, ◌≡◌, ◌≢◌, refl, ap, sym, ◌∙◌, true, ==_ne, ==_eq, inr, update}
use x.Base.Outcome.{ok}
use x.LinkedList.{LinkedList}
use x.Cpu.Flags.{cpu_intr_disable, cpu_intr_save, enabled-disable}
use x.Thread.State.{
  Kernel, Thread, running, sleeping, after_sleep, thread_is_running, thread_set_state,
  thread_set_sleeping, thread_self,
}
use x.Thread.Sched.{thread_sleep}
use x.Thread.Park.{running_of}
use x.Thread.System.{IsLoaded, IsSystem, put-IsOrderly}
use x.Thread.Calls.{switch-IsSystem}

module _ ⦃lib : LinkedList⦄ where
  -- The thread that was current is away in a new state, and another one was loaded.
  pub record Left (k : Kernel) (th : Thread) (k' : Kernel) : Type 0 where
    pub system : IsSystem k'
    pub loaded : IsLoaded k'
    pub away : k'.current ≢ k.current
    pub left : k'.threads k.current ≡ th
    pub others : (t : ℕ) → t ≢ k.current → k'.threads t ≡ k.threads t
    pub same_idle : k'.idle ≡ k.idle

  -- In a system in order, `thread_sleep` of a thread at preemption level 1 that is not the
  -- idle thread fails no assertion: the thread sleeps, with the flags it had kept for its
  -- return, another thread is loaded, and the system is in order.
  pub sleep_lem :
      (k : Kernel)
      → IsSystem k
      → (k.threads k.current).preempt_level ≡ 1
      → k.current ≢ k.idle
      → (k' : Kernel) × (thread_sleep k ≡ ok k')
        × Left k
            (record (k.threads k.current) { state = sleeping; point = after_sleep k.eflags })
            k'
  unfolding thread_sleep thread_self cpu_intr_save thread_set_sleeping thread_set_state
  sleep_lem k v level busy =
      let th : Thread = record (k.threads k.current) { state = sleeping } in
      let k1 : Kernel = record k {
        threads = update k.threads k.current th;
        eflags = cpu_intr_disable k.eflags;
      } in
      let here : k1.threads k.current ≡ th = rw (==_eq k.current k.current refl) refl in
      let ready : thread_is_running (record k { eflags = cpu_intr_disable k.eflags }) k.current
          ≡ true =
        running_of (record k { eflags = cpu_intr_disable k.eflags }) k.current v.runs in
      let (k', run, s, system, loaded) =
        switch-IsSystem k1 (after_sleep k.eflags)
          (put-IsOrderly k th (cpu_intr_disable k.eflags) v.orderly refl (inr busy)) (λ alive. tt)
          (ap (λ d. d.preempt_level) here ∙ level) (enabled-disable k.eflags) in
      let left : k'.threads k.current ≡ record th { point = after_sleep k.eflags } =
        s.self ∙ ap (λ (d : Thread). record d { point = after_sleep k.eflags }) here in
      (
        k',
        rw ready run,
        record {
          system = system;
          loaded = loaded;
          away = λ e.
              running_ne_sleeping
                (sym s.runs ∙ ap (λ t. (k'.threads t).state) e ∙ ap (λ d. d.state) left);
          left = left;
          same_idle = s.same_idle;
          others = λ t other. s.others t other ∙ rw (==_ne k.current t (λ e. other (sym e))) refl;
        },
      )
    where
      running_ne_sleeping : running ≢ sleeping
      running_ne_sleeping e = cc
