-- ===== src/Thread/Wakeup.antt =====
-- `thread_wakeup` of src/thread.c makes a thread ready that sleeps.
use x.Base.{
  ℕ, ◌+◌, ◌<◌, ◌≡◌, ◌≢◌, refl, ap, sym, ◌∙◌, subst, Bool, true, false, ==_ne, ==_eq, ltb,
  Bool-cases, inl, inr, arith, update, if◌then◌else◌, some,
}
use x.Base.Word.{add32}
use x.Base.Outcome.{ok, ◌>>=◌}
use x.LinkedList.{LinkedList}
use x.Cpu.Flags.{cpu_intr_disable, cpu_intr_enabled, enabled-disable}
use x.Thread.State.{
  Kernel, Thread, ThreadState, running, sleeping, dead, in_code, thread_is_running, thread_is_dead,
  thread_set_state, thread_set_running, thread_get_priority, thread_set_yield,
  thread_scheduler_locked, thread_self,
}
use x.Thread.Runq.{enqueue, thread_list_enqueue, thread_runq_add}
use x.Thread.Sched.{thread_wakeup, thread_unlock_scheduler}
use x.Thread.Next.{get_list_lem}
use x.Thread.Park.{presence, running_of, running_lem}
use x.Thread.System.{IsOrderly, IsSystem, running_ne_dead}
use x.Thread.Calls.{at_level, lock_lem, locked_lem}
use x.Thread.Enable.{
  Continued, Continued-trans, field-update, change-Continued, unlock_lem, at_level-Continued,
}
use x.Thread.Add.{added, MayAdd, added-IsOrderly, presence-added}

module _ ⦃lib : LinkedList⦄ where
  open lib use {nodes, list_insert_tail}

  -- The current thread is told to yield, if `wanted`.
  abbrev pub flagged : Kernel → Bool → Kernel
  flagged k wanted = if wanted then thread_set_yield k k.current else k

  abbrev pub queued_state : Kernel → ℕ → Kernel
  queued_state k t =
      let p = (k.threads t).priority in
      record k {
        lists = update k.lists p (list_insert_tail (k.lists p) t);
        nr_threads = k.nr_threads + 1;
      }

  pub runq_add_code :
      (k : Kernel) (t : ℕ)
      → thread_scheduler_locked k ≡ true
      → (k.threads t).state ≡ running
      → (k.threads t).priority < 20
      → k.nr_threads < 4294967295
      → thread_runq_add k t
        ≡ ok
            (flagged (queued_state k t) (ltb (k.threads k.current).priority (k.threads t).priority))
  unfolding thread_runq_add enqueue thread_get_priority thread_list_enqueue
  runq_add_code k t locked runs lt few =
      let e : add32 k.nr_threads 1 ≡ k.nr_threads + 1 = omega arith in
      rw
        (
          locked,
          running_of k t runs,
          get_list_lem k (k.threads t).priority lt,
          e,
          ==_ne (k.nr_threads + 1) 0 (omega arith),
        )
        refl

  -- The thread is ready, and the others are as they were.
  pub record Woken (k : Kernel) (t : ℕ) (k' : Kernel) : Type 0 where
    pub system : IsSystem k'
    pub runs : (k'.threads t).state ≡ running
    pub ready : presence k' t ≡ 1
    pub same_idle : k'.idle ≡ k.idle
    pub states : (s : ℕ) → t ≢ s → (k'.threads s).state ≡ (k.threads s).state

  -- The unlocking, with or without the flag.
  flagged_unlock :
      (k : Kernel) (wanted : Bool) (eflags : ℕ)
      → IsOrderly k
      → (k.threads k.current).state ≡ running
      → (k.threads k.current).point ≡ in_code
      → 0 < (k.threads k.current).preempt_level
      → (k' : Kernel) × (thread_unlock_scheduler (flagged k wanted) eflags true ≡ ok k')
        × Continued k k'
  unfolding thread_set_yield
  flagged_unlock k false eflags v runs code pos = unlock_lem k eflags true v runs code pos
  flagged_unlock k true eflags v runs code pos =
      let th : Thread = record (k.threads k.current) { yield = true } in
      let k1 : Kernel = record k { threads = update k.threads k.current th } in
      let c = change-Continued k th k.eflags v runs refl refl code in
      let (k', run, d) =
        unlock_lem k1 eflags true c.system.orderly c.system.runs
          (field-update (λ th. th.point) k.threads k.current th k.current refl ∙ code)
          (subst (λ n. 0 < n)
            (sym (field-update (λ th. th.preempt_level) k.threads k.current th k.current refl))
            pos) in
      (k', run, Continued-trans k k1 k' c d)

  -- A ready thread that is added with the scheduler locked, and the unlocking.
  pub add_lem :
      (k : Kernel) (t : ℕ) (th : Thread) (eflags : ℕ)
      → IsOrderly k
      → (k.threads k.current).state ≡ running
      → (k.threads k.current).point ≡ in_code
      → 0 < (k.threads k.current).preempt_level
      → cpu_intr_enabled k.eflags ≡ false
      → k.nr_threads < 4294967295
      → MayAdd k t th
      → (k' : Kernel) × ((thread_runq_add (record k { threads = update k.threads t th }) t >>= λ k1.
            thread_unlock_scheduler k1 eflags true)
          ≡ ok k')
        × Woken k t k'
  add_lem k t th eflags v runs code pos off few m =
      let k1 : Kernel = record k { threads = update k.threads t th } in
      let same : k1.threads k.current ≡ k.threads k.current = rw (==_ne t k.current m.other) refl in
      let self : k1.threads t ≡ th = rw (==_eq t t refl) refl in
      let locked : thread_scheduler_locked k1 ≡ true =
        locked_lem k1 off (subst (λ d. 0 < d.preempt_level) (sym same) pos) in
      let add =
        runq_add_code k1 t locked (ap (λ d. d.state) self ∙ m.ready)
          (subst (λ d. d.priority < 20) (sym self) m.bound) few in
      let queue : queued_state k1 t ≡ added k t th = rw self refl in
      let wanted = ltb (k1.threads k1.current).priority (k1.threads t).priority in
      let (k', run, c) =
        flagged_unlock (added k t th) wanted eflags (added-IsOrderly k t th v m)
          (ap (λ d. d.state) same ∙ runs) (ap (λ d. d.point) same ∙ code)
          (subst (λ d. 0 < d.preempt_level) (sym same) pos) in
      (
        k',
        ap (λ o. o >>= λ k1. thread_unlock_scheduler k1 eflags true)
              (add ∙ ap (λ k2. ok (flagged k2 wanted)) queue)
            ∙ run,
        record {
          system = c.system;
          runs = c.states t ∙ ap (λ d. d.state) self ∙ m.ready;
          ready =
              c.kept t m.busy (ap (λ d. d.state) self ∙ m.ready)
                (subst (λ d. d.priority < 20) (sym self) m.bound)
              ∙ presence-added k t th v m;
          same_idle = c.same_idle;
          states = λ s ne. c.states s ∙ rw (==_ne t s ne) refl;
        },
      )

  state_not_dead : (s : ThreadState) → s ≢ dead → elim s [ dead ↦ true | _ ↦ false ] ≡ false
  state_not_dead running alive = refl
  state_not_dead sleeping alive = refl
  state_not_dead dead alive = absurd (alive refl)

  pub not_dead : (k : Kernel) (t : ℕ) → (k.threads t).state ≢ dead → thread_is_dead k t ≡ false
  unfolding thread_is_dead
  not_dead k t alive = state_not_dead (k.threads t).state alive

  pub rests_lem :
      (k k1 : Kernel) (t : ℕ)
      → (k1.threads t).state ≡ (k.threads t).state
      → thread_is_running k t ≡ false
      → thread_is_running k1 t ≡ false
  unfolding thread_is_running
  rests_lem k k1 t same rests = ap (λ s. elim s [ running ↦ true | _ ↦ false ]) same ∙ rests

  absurd_running : true ≢ false
  absurd_running e = cc

  -- In a system in order, with the preemption level of the current thread and the number of
  -- threads below 2^32 - 1, `thread_wakeup` of a thread that is neither dead nor current nor
  -- the idle one returns; the thread is then ready, in the list of its priority or current,
  -- and the system is in order.
  pub wakeup_lem :
      (k : Kernel) (t : ℕ)
      → IsSystem k
      → (k.threads k.current).point ≡ in_code
      → (k.threads k.current).preempt_level < 4294967295
      → k.nr_threads < 4294967295
      → (k.threads t).state ≢ dead
      → t ≢ k.current
      → t ≢ k.idle
      → (k' : Kernel) × (thread_wakeup k (some t) ≡ ok k') × Woken k t k'
  unfolding thread_wakeup thread_self thread_set_running thread_set_state
  wakeup_lem k t v code lt few alive other busy = elim (Bool-cases (thread_is_running k t)) [
    | inl ready ↦
        let (k', run, d) =
          unlock_lem k1 k.eflags true c.system.orderly c.system.runs same_code
            (omega (arith, same_level)) in
        let before : (k1.threads t).state ≡ running = c.states t ∙ running_lem k t ready in
        let bound = c.system.orderly.bounded t (λ e. running_ne_dead (sym before ∙ e)) busy in
        (
          k',
          rw (==_ne t k.current other, lock_lem k lt, running_of k1 t before) run,
          record {
            system = d.system;
            runs = d.states t ∙ before;
            ready = d.kept t busy before bound ∙ c.system.orderly.present t before busy;
            same_idle = d.same_idle ∙ c.same_idle;
            states = λ s ne. d.states s ∙ c.states s;
          },
        )
    | inr rests ↦
        let rests1 : thread_is_running k1 t ≡ false = rests_lem k k1 t (c.states t) rests in
        let (k', run, w) =
          add_lem k1 t (record (k1.threads t) { state = running }) k.eflags c.system.orderly
            c.system.runs same_code (omega (arith, same_level)) (enabled-disable k.eflags) few
            (record {
              rests = λ e. absurd_running (sym (running_of k1 t e) ∙ rests1);
              other = other;
              busy = busy;
              ready = refl;
              bound = c.system.orderly.bounded t (λ e. alive (sym (c.states t) ∙ e)) busy;
              level = (c.system.orderly.waits t other (λ e. alive (sym (c.states t) ∙ e))).0;
              point = (c.system.orderly.waits t other (λ e. alive (sym (c.states t) ∙ e))).1;
            }) in
        (
          k',
          rw
              (
                ==_ne t k.current other,
                lock_lem k lt,
                rests1,
                not_dead k1 t (λ e. alive (sym (c.states t) ∙ e)),
              )
              run,
          record {
            system = w.system;
            runs = w.runs;
            ready = w.ready;
            same_idle = w.same_idle ∙ c.same_idle;
            states = λ s ne. w.states s ne ∙ c.states s;
          },
        )
  ]
    where
      k1 : Kernel
      k1 = at_level k ((k.threads k.current).preempt_level + 1) (cpu_intr_disable k.eflags)

      c : Continued k k1
      c =
          at_level-Continued k ((k.threads k.current).preempt_level + 1) (cpu_intr_disable k.eflags)
            v.orderly v.runs code

      same_code : (k1.threads k.current).point ≡ in_code
      same_code = rw (==_eq k.current k.current refl) code

      same_level : (k1.threads k.current).preempt_level ≡ (k.threads k.current).preempt_level + 1
      same_level = rw (==_eq k.current k.current refl) refl
