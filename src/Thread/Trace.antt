-- ===== src/Thread/Trace.antt =====
-- Runs of the scheduler of src/thread.c: the calls that threads make, one after another.
use x.Base.{
  ℕ, ◌⊎◌, ◌+◌, ◌<◌, ◌≡◌, ◌≢◌, refl, ap, sym, ◌∙◌, subst, ==_ne, arith, true, false, some, inl, inr,
}
use x.Base.Word.{add32}
use x.Base.Outcome.{Outcome, ok, panic}
use native.Mathlib.Decide.{ℕ_discrete}
use x.LinkedList.{LinkedList}
use x.Cpu.Flags.{cpu_intr_disable}
use x.Thread.State.{
  Kernel, running, dead, in_code, thread_self, thread_preempt_disable, thread_is_running,
  thread_is_dead,
}
use x.Thread.Sched.{
  thread_yield, thread_sleep, thread_wakeup, thread_exit, thread_preempt_enable, thread_resume,
}
use x.Thread.System.{IsSystem, IsLoaded, running_ne_dead}
use x.Thread.Calls.{at_level, lock_lem}
use x.Thread.Enable.{
  Continued, flags-IsOrderly, at_level-Continued, preempt_enable_lem, yield-Continued,
}
use x.Thread.Wakeup.{wakeup_lem}
use x.Thread.Leave.{sleep_lem}
use x.Thread.Tell.{MayJoin}
use x.Thread.Exit.{exit_lem}
use x.Thread.Resume.{resume_lem}

module _ ⦃lib : LinkedList⦄ where
  -- The current thread makes a call as the interface asks for it, changes the processor's flags, or goes
  -- on where it was loaded.
  pub data Step (k : Kernel) : Kernel → Type 0 where
    yields :
        {k' : Kernel} → (k.threads k.current).point ≡ in_code → thread_yield k ≡ ok k' → Step k k'
    sleeps :
        {k' : Kernel}
        → (k.threads k.current).point ≡ in_code
        → (k.threads k.current).preempt_level ≡ 1
        → k.current ≢ k.idle
        → thread_sleep k ≡ ok k'
        → Step k k'
    wakes :
        {k' : Kernel} (t : ℕ)
        → (k.threads k.current).point ≡ in_code
        → (k.threads k.current).preempt_level < 4294967295
        → k.nr_threads < 4294967295
        → t ≢ k.current
        → t ≢ k.idle
        → thread_wakeup k (some t) ≡ ok k'
        → Step k k'
    exits :
        {k' : Kernel}
        → (k.threads k.current).point ≡ in_code
        → (k.threads k.current).preempt_level ≡ 0
        → k.current ≢ k.idle
        → k.nr_threads < 4294967295
        → MayJoin k (k.threads k.current).joiner
        → thread_exit k ≡ ok k'
        → Step k k'
    disables :
        {k' : Kernel}
        → (k.threads k.current).point ≡ in_code
        → (k.threads k.current).preempt_level < 4294967295
        → thread_preempt_disable k ≡ ok k'
        → Step k k'
    enables :
        {k' : Kernel}
        → (k.threads k.current).point ≡ in_code
        → 0 < (k.threads k.current).preempt_level
        → thread_preempt_enable k ≡ ok k'
        → Step k k'
    sets_flags :
        (eflags : ℕ) → (k.threads k.current).point ≡ in_code → Step k (record k { eflags = eflags })
    resumes : {k' : Kernel} → IsLoaded k → thread_resume k ≡ ok k' → Step k k'

  pub data Reach (k : Kernel) : Kernel → Type 0 where
    start : Reach k k
    more : {k1 k2 : Kernel} → Reach k k1 → Step k1 k2 → Reach k k2

  pub preempt_disable_lem :
      (k : Kernel)
      → (k.threads k.current).preempt_level < 4294967295
      → thread_preempt_disable k
        ≡ ok (at_level k ((k.threads k.current).preempt_level + 1) k.eflags)
  unfolding thread_preempt_disable thread_self
  preempt_disable_lem k lt =
      let e : add32 (k.threads k.current).preempt_level 1
          ≡ (k.threads k.current).preempt_level + 1 =
        omega arith in
      rw (e, ==_ne ((k.threads k.current).preempt_level + 1) 0 (omega arith)) refl

  -- What every step keeps: the order of the system, and that the dead stay dead; a thread that is not
  -- current can only be woken up.
  pub record Kept (k k' : Kernel) : Type 0 where
    pub system : IsSystem k'
    pub ends : (t : ℕ) → (k.threads t).state ≡ dead → (k'.threads t).state ≡ dead
    pub moves :
        (t : ℕ)
        → t ≢ k.current
        → ((k'.threads t).state ≡ (k.threads t).state) ⊎ ((k'.threads t).state ≡ running)
    pub same_idle : k'.idle ≡ k.idle

  -- A call returns one state only.
  only : {k k' k1 : Kernel} {m : Outcome Kernel} → m ≡ ok k' → m ≡ ok k1 → Kept k k1 → Kept k k'
  only {k} {k'} {k1} e e1 kept = subst (Kept k) (go (sym e1 ∙ e)) kept
    where
      go : ok k1 ≡ ok k' → k1 ≡ k'
      go e = cc

  pub Continued-Kept : {k k' : Kernel} → Continued k k' → Kept k k'
  Continued-Kept c = record {
    system = c.system;
    ends = λ t e. c.states t ∙ e;
    moves = λ t away. inl (c.states t);
    same_idle = c.same_idle;
  }

  panic_ne_ok : {k : Kernel} → panic ≡ ok k → ⊥
  panic_ne_ok e = cc

  tests_dead :
      (k : Kernel) (t : ℕ)
      → (k.threads t).state ≡ dead
      → (thread_is_running k t ≡ false) × (thread_is_dead k t ≡ true)
  unfolding thread_is_running thread_is_dead
  tests_dead k t gone = ground (arith, gone)

  -- The wakeup of a dead thread fails an assertion.
  wakeup_dead :
      (k : Kernel) (t : ℕ)
      → (k.threads k.current).preempt_level < 4294967295
      → t ≢ k.current
      → (k.threads t).state ≡ dead
      → thread_wakeup k (some t) ≡ panic
  unfolding thread_wakeup thread_self
  wakeup_dead k t lt other gone =
      let locked : Kernel =
        at_level k ((k.threads k.current).preempt_level + 1) (cpu_intr_disable k.eflags) in
      let (stopped, ended) =
        tests_dead locked t (rw (==_ne k.current t (λ e. other (sym e))) gone) in
      rw (==_ne t k.current other, lock_lem k lt, stopped, ended) refl

  pub Step-Kept : {k k' : Kernel} → IsSystem k → Step k k' → Kept k k'
  Step-Kept {k} v (yields code run) =
      let (k1, run1, c) = yield-Continued k v.orderly v.runs code in
      only run run1 (Continued-Kept c)
  Step-Kept {k} v (sleeps code level busy run) =
      let (k1, run1, l) = sleep_lem k v level busy in
      only run run1 (record {
        system = l.system;
        moves = λ t away. inl (ap (λ d. d.state) (l.others t away));
        same_idle = l.same_idle;
        ends = λ t e.
            ap (λ d. d.state)
              (l.others t (λ same.
                running_ne_dead (sym v.runs ∙ ap (λ t. (k.threads t).state) (sym same) ∙ e)))
            ∙ e;
      })
  Step-Kept {k} v (wakes t code lt few other busy run) =
      let alive : (k.threads t).state ≢ dead =
        λ gone. panic_ne_ok (sym (wakeup_dead k t lt other gone) ∙ run) in
      let (k1, run1, w) = wakeup_lem k t v code lt few alive other busy in
      only run run1 (record {
        system = w.system;
        moves = λ s away. elim (ℕ_discrete t s) [
          | yes same ↦ inr (subst (λ s. (k1.threads s).state ≡ running) same w.runs)
          | no aside ↦ inl (w.states s aside)
        ];
        same_idle = w.same_idle;
        ends = λ s e. w.states s (λ same. alive (ap (λ t. (k.threads t).state) same ∙ e)) ∙ e;
      })
  Step-Kept {k} v (exits code level busy few may run) =
      let (k1, run1, x) = exit_lem k v level busy few may in
      only run run1
        (record { system = x.system; ends = x.ends; moves = x.moves; same_idle = x.same_idle })
  Step-Kept {k} v (disables code lt run) = only run (preempt_disable_lem k lt) (
      Continued-Kept (
        at_level-Continued k ((k.threads k.current).preempt_level + 1) k.eflags v.orderly v.runs
          code))
  Step-Kept {k} v (enables code pos run) =
      let (k1, run1, c) = preempt_enable_lem k v.orderly v.runs code pos in
      only run run1 (Continued-Kept c)
  Step-Kept {k} v (sets_flags eflags code) = record {
    system = record { orderly = flags-IsOrderly k eflags v.orderly; runs = v.runs; now = inl code };
    ends = λ t e. e;
    moves = λ t away. inl refl;
    same_idle = refl;
  }
  Step-Kept {k} v (resumes loaded run) =
      let (k1, run1, c, back) = resume_lem k v loaded in only run run1 (Continued-Kept c)

  -- However the threads yield, sleep, wake up others, exit, change preemption and the flags,
  -- and go on, in a system that starts in order: it stays in order, so each ready thread
  -- other than the idle one is current or once in the list of its priority, and the current
  -- thread is ready.
  pub Reach-IsSystem : {k k' : Kernel} → IsSystem k → Reach k k' → IsSystem k'
  Reach-IsSystem v start = v
  Reach-IsSystem v (more reach step) = (Step-Kept (Reach-IsSystem v reach) step).system

  ends_lem :
      {k k' : Kernel} (t : ℕ)
      → IsSystem k
      → Reach k k'
      → (k.threads t).state ≡ dead
      → (k'.threads t).state ≡ dead
  ends_lem t v start e = e
  ends_lem t v (more reach step) e =
      (Step-Kept (Reach-IsSystem v reach) step).ends t (ends_lem t v reach e)

  -- However the threads yield, sleep, wake up others, exit, change preemption and the flags,
  -- and go on, in a system that starts in order: a thread that is dead stays dead, and never
  -- runs again.
  pub Reach-dead :
      {k k' : Kernel} (t : ℕ)
      → IsSystem k
      → Reach k k'
      → (k.threads t).state ≡ dead
      → ((k'.threads t).state ≡ dead) × (t ≢ k'.current)
  Reach-dead {k} {k'} t v reach e =
      let gone = ends_lem t v reach e in
      (
        gone,
        λ here.
            running_ne_dead (
              sym (Reach-IsSystem v reach).runs ∙ ap (λ t. (k'.threads t).state) (sym here) ∙ gone),
      )
