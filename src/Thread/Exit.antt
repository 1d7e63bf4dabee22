-- ===== src/Thread/Exit.antt =====
-- `thread_exit` of src/thread.c: the current thread ends, and another one is loaded.
use x.Base.{
  ℕ, ◌⊎◌, inl, ◌+◌, ◌<◌, ◌≡◌, ◌≢◌, refl, ap, sym, ◌∙◌, subst, true, ==_ne, ==_eq, inr, arith,
  update, update-update, Option, some, none,
}
use x.Base.Outcome.{ok, ◌>>=◌}
use native.Mathlib.Decide.{ℕ_discrete}
use x.LinkedList.{LinkedList}
use x.Cpu.Flags.{cpu_intr_disable, cpu_intr_enabled, enabled-disable}
use x.Thread.State.{
  Kernel, Thread, running, dead, after_exit, thread_is_running, thread_set_state, thread_set_dead,
  thread_self, thread_preempt_enabled,
}
use x.Thread.Runq.{thread_runq_schedule}
use x.Thread.Sched.{thread_exit, thread_wakeup}
use x.Thread.Park.{running_of}
use x.Thread.Schedule.{Switched}
use x.Thread.System.{IsOrderly, IsLoaded, IsSystem, put-IsOrderly, running_ne_dead}
use x.Thread.Calls.{at_level, lock_lem, switch-IsSystem}
use x.Thread.Tell.{MayJoin, Joined, Told-may, tell_lem, put_may}

module _ ⦃lib : LinkedList⦄ where
  -- The current thread is dead, another one was loaded, and the thread that waited is ready.
  pub record Exited (k k' : Kernel) : Type 0 where
    pub system : IsSystem k'
    pub loaded : IsLoaded k'
    pub away : k'.current ≢ k.current
    pub gone : (k'.threads k.current).state ≡ dead
    pub joined : Joined k' (k.threads k.current).joiner
    pub ends : (s : ℕ) → (k.threads s).state ≡ dead → (k'.threads s).state ≡ dead
    pub moves :
        (s : ℕ)
        → s ≢ k.current
        → ((k'.threads s).state ≡ (k.threads s).state) ⊎ ((k'.threads s).state ≡ running)
    pub same_idle : k'.idle ≡ k.idle

  -- A switch keeps a thread ready.
  Switched-Joined :
      (k k' : Kernel) (joiner : Option ℕ)
      → Switched k after_exit k'
      → IsOrderly k
      → MayJoin k joiner
      → Joined k joiner
      → Joined k' joiner
  Switched-Joined k k' none s v may j = tt
  Switched-Joined k k' (some t) s v may j =
      let (alive, other, busy) = may in
      let (runs, ready) = j in
      (
        ap (λ d. d.state) (s.others t other) ∙ runs,
        s.kept t busy runs (v.bounded t alive busy) ∙ ready,
      )

  -- The current thread, marked dead with the scheduler locked.
  abbrev ended : Kernel → Kernel
  ended k = record k {
    threads =
        update k.threads k.current
          (record (k.threads k.current) { state = dead; preempt_level = 1 });
    eflags = cpu_intr_disable k.eflags;
  }

  set_dead_lem :
      (k : Kernel)
      → (k.threads k.current).preempt_level ≡ 0
      → thread_set_dead
          (at_level k ((k.threads k.current).preempt_level + 1) (cpu_intr_disable k.eflags))
          k.current
        ≡ ended k
  unfolding thread_set_dead thread_set_state
  set_dead_lem k level =
      rw (==_eq k.current k.current refl, update-update k.threads k.current _ _, level) refl

  exit_code :
      (k : Kernel)
      → (k.threads k.current).state ≡ running
      → (k.threads k.current).preempt_level ≡ 0
      → thread_exit k ≡ (
          thread_wakeup (ended k) (k.threads k.current).joiner >>= λ k1.
          thread_runq_schedule k1 after_exit)
  unfolding thread_exit thread_self thread_preempt_enabled
  exit_code k runs level =
      let k1 : Kernel =
        at_level k ((k.threads k.current).preempt_level + 1) (cpu_intr_disable k.eflags) in
      let ready : thread_is_running k1 k.current ≡ true =
        running_of k1 k.current (rw (==_eq k.current k.current refl) runs) in
      let joins : (k1.threads k.current).joiner ≡ (k.threads k.current).joiner =
        rw (==_eq k.current k.current refl) refl in
      rw
        (
          ==_eq (k.threads k.current).preempt_level 0 level,
          lock_lem k (omega (arith, level)),
          ready,
          set_dead_lem k level,
          joins,
        )
        refl

  Switched-dead :
      (k k' : Kernel)
      → Switched k after_exit k'
      → (t : ℕ) → (k.threads t).state ≡ dead
      → (k'.threads t).state ≡ dead
  Switched-dead k k' s t e = elim (ℕ_discrete t k.current) [
    | yes here ↦
        subst (λ t. (k.threads t).state ≡ dead → (k'.threads t).state ≡ dead) (sym here)
          (λ e. ap (λ d. d.state) s.self ∙ e) e
    | no away ↦ ap (λ d. d.state) (s.others t away) ∙ e
  ]

  ended_dead :
      (k : Kernel) (t : ℕ) → (k.threads t).state ≡ dead → ((ended k).threads t).state ≡ dead
  ended_dead k t e = elim (ℕ_discrete k.current t) [
    | yes here ↦ rw (==_eq k.current t here) refl
    | no away ↦ rw (==_ne k.current t away) e
  ]

  -- In a system in order with fewer than 2^32 - 1 threads, `thread_exit` with preemption
  -- enabled, of a thread that is not the idle one and is joined, if at all, by another living
  -- thread that is not the idle one, fails no assertion: the thread is dead, the thread that
  -- waits in `thread_join` is ready, another one is loaded, and the system is in order.
  pub exit_lem :
      (k : Kernel)
      → IsSystem k
      → (k.threads k.current).preempt_level ≡ 0
      → k.current ≢ k.idle
      → k.nr_threads < 4294967295
      → MayJoin k (k.threads k.current).joiner
      → (k' : Kernel) × (thread_exit k ≡ ok k') × Exited k k'
  exit_lem k v level busy few may =
      let joiner = (k.threads k.current).joiner in
      let th : Thread = record (k.threads k.current) { state = dead; preempt_level = 1 } in
      let off = cpu_intr_disable k.eflags in
      let here : (ended k).threads k.current ≡ th = rw (==_eq k.current k.current refl) refl in
      let (k1, told, d) =
        tell_lem (ended k) joiner (put-IsOrderly k th off v.orderly refl (inr busy))
          (subst (λ d. 0 < d.preempt_level) (sym here) (omega arith))
          (subst (λ d. d.preempt_level < 4294967295) (sym here) (omega arith)) few
          (put_may k th off joiner may) in
      let may1 = Told-may (ended k) k1 joiner d (put_may k th off joiner may) in
      let gone : (k1.threads k.current).state ≡ dead = d.state ∙ ap (λ d. d.state) here in
      let gone1 : (k1.threads k1.current).state ≡ dead =
        ap (λ t. (k1.threads t).state) d.same_current ∙ gone in
      let level1 : (k1.threads k1.current).preempt_level ≡ 1 =
        ap (λ t. (k1.threads t).preempt_level) d.same_current
        ∙ d.level
        ∙ ap (λ d. d.preempt_level) here in
      let (k', run, s, system, loaded) =
        switch-IsSystem k1 after_exit d.orderly (λ alive. absurd (alive gone1)) level1
          (ap cpu_intr_enabled d.flags ∙ enabled-disable k.eflags) in
      let left : (k'.threads k.current).state ≡ dead =
        subst (λ t. (k'.threads t).state ≡ dead) d.same_current
          (ap (λ d. d.state) s.self ∙ gone1) in
      (
        k',
        rw (exit_code k v.runs level, told) run,
        record {
          system = system;
          loaded = loaded;
          away = λ e. running_ne_dead (sym s.runs ∙ ap (λ t. (k'.threads t).state) e ∙ left);
          gone = left;
          joined = Switched-Joined k1 k' joiner s d.orderly may1 d.joined;
          ends = λ t e. Switched-dead k1 k' s t (d.ends t (ended_dead k t e));
          moves = λ t away.
              let same = ap (λ d. d.state) (s.others t (λ e. away (e ∙ d.same_current))) in
              let before : ((ended k).threads t).state ≡ (k.threads t).state =
                rw (==_ne k.current t (λ e. away (sym e))) refl in
              elim (d.moves t away) [ inl e ↦ inl (same ∙ e ∙ before) | inr e ↦ inr (same ∙ e) ];
          same_idle = s.same_idle ∙ d.same_idle;
        },
      )
