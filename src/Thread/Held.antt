-- ===== src/Thread/Held.antt =====
-- `thread_wakeup` of src/thread.c while the caller holds preemption disabled: no switch takes place.
use x.Base.{
  ℕ, ◌+◌, ◌-◌, ◌≤◌, ◌<◌, ◌≡◌, ◌≢◌, refl, ap, sym, ◌∙◌, subst, Bool, true, false, ==_ne, ==_eq, ltb,
  Bool-cases, inl, inr, arith, update, some,
}
use x.Base.Outcome.{ok, ◌>>=◌}
use x.LinkedList.{LinkedList}
use x.Cpu.Flags.{cpu_intr_disable, cpu_intr_restore, cpu_intr_enabled, enabled-disable}
use x.Thread.State.{
  Kernel, Thread, running, dead, thread_is_running, thread_set_state, thread_set_running,
  thread_set_yield, thread_should_yield, thread_self,
}
use x.Thread.Runq.{thread_runq_add}
use x.Thread.Sched.{thread_wakeup, thread_preempt_enable, thread_unlock_scheduler}
use x.Thread.Park.{presence, running_of, running_lem}
use x.Thread.System.{IsOrderly, put-IsOrderly}
use x.Thread.Calls.{at_level, at_level-IsOrderly, lock_lem, locked_lem}
use x.Thread.Enable.{if_needed_yes, if_needed_no, yield_held, no_yield_lem}
use x.Thread.Add.{added, MayAdd, added-IsOrderly, presence-added}
use x.Thread.Wakeup.{flagged, queued_state, runq_add_code, not_dead, rests_lem}

module _ ⦃lib : LinkedList⦄ where
  -- Thread `t` is ready, and the current thread goes on, perhaps told to yield later.
  pub record Held (k : Kernel) (t : ℕ) (k' : Kernel) : Type 0 where
    pub orderly : IsOrderly k'
    pub same_current : k'.current ≡ k.current
    pub same_idle : k'.idle ≡ k.idle
    pub flags : k'.eflags ≡ k.eflags
    pub self :
        k'.threads k.current ≡ record (k.threads k.current) { yield = (k'.threads k.current).yield }
    pub runs : (k'.threads t).state ≡ running
    pub ready : presence k' t ≡ 1
    pub others : (s : ℕ) → s ≢ k.current → s ≢ t → k'.threads s ≡ k.threads s
    pub grows : k'.nr_threads ≤ k.nr_threads + 1
    pub told :
        (k.threads t).priority ≤ (k.threads k.current).priority
        → (k'.threads k.current).yield ≡ (k.threads k.current).yield

  -- The unlocking in a nested section leaves the current thread where it is.
  pub unlock_held :
      (k : Kernel) (eflags : ℕ)
      → 1 < (k.threads k.current).preempt_level
      → thread_unlock_scheduler k eflags true
        ≡ ok (at_level k ((k.threads k.current).preempt_level - 1) eflags)
  unfolding thread_unlock_scheduler cpu_intr_restore thread_preempt_enable
  unlock_held k eflags nested =
      let k1 : Kernel = at_level k ((k.threads k.current).preempt_level - 1) eflags in
      let held : (k1.threads k1.current).preempt_level ≢ 0 =
        rw (==_eq k.current k.current refl) (omega (arith, nested)) in
      rw (no_yield_lem (record k { eflags = eflags }) (omega (arith, nested)))
        (elim (Bool-cases (thread_should_yield k1 k1.current)) [
          | inl wanted ↦ if_needed_yes k1 wanted ∙ yield_held k1 held
          | inr unwanted ↦ if_needed_no k1 unwanted
        ])

  -- The current thread is one level down.
  record Lowered (k : Kernel) (eflags : ℕ) (k' : Kernel) : Type 0 where
    pub orderly : IsOrderly k'
    pub same_current : k'.current ≡ k.current
    pub same_idle : k'.idle ≡ k.idle
    pub flags : k'.eflags ≡ eflags
    pub self : k'.threads k.current ≡ record (k.threads k.current) {
      preempt_level = (k.threads k.current).preempt_level - 1;
      yield = (k'.threads k.current).yield;
    }
    pub others : (s : ℕ) → s ≢ k.current → k'.threads s ≡ k.threads s
    pub kept : (s : ℕ) → s ≢ k.current → presence k' s ≡ presence k s
    pub same_nr : k'.nr_threads ≡ k.nr_threads

  at_level-Lowered :
      (k : Kernel) (eflags : ℕ)
      → IsOrderly k
      → Lowered k eflags (at_level k ((k.threads k.current).preempt_level - 1) eflags)
  at_level-Lowered k eflags v = record {
    orderly = at_level-IsOrderly k ((k.threads k.current).preempt_level - 1) eflags v;
    same_current = refl;
    same_idle = refl;
    flags = refl;
    self = rw (==_eq k.current k.current refl) refl;
    others = λ s other. rw (==_ne k.current s (λ e. other (sym e))) refl;
    kept = λ s other. rw (==_ne k.current s (λ e. other (sym e))) refl;
    same_nr = refl;
  }

  flagged_held :
      (k : Kernel) (wanted : Bool) (eflags : ℕ)
      → IsOrderly k
      → 1 < (k.threads k.current).preempt_level
      → (k' : Kernel) × (thread_unlock_scheduler (flagged k wanted) eflags true ≡ ok k')
        × Lowered k eflags k'
        × (wanted ≡ false → (k'.threads k.current).yield ≡ (k.threads k.current).yield)
  unfolding thread_set_yield
  flagged_held k false eflags v nested = (
    at_level k ((k.threads k.current).preempt_level - 1) eflags,
    unlock_held k eflags nested,
    at_level-Lowered k eflags v,
    λ calm. rw (==_eq k.current k.current refl) refl,
  )
  flagged_held k true eflags v nested =
      let th : Thread = record (k.threads k.current) { yield = true } in
      let k1 : Kernel = record k { threads = update k.threads k.current th } in
      let here : k1.threads k.current ≡ th = rw (==_eq k.current k.current refl) refl in
      let v1 : IsOrderly k1 = put-IsOrderly k th k.eflags v refl (inl refl) in
      let l = at_level-Lowered k1 eflags v1 in
      let k' : Kernel = at_level k1 ((k1.threads k.current).preempt_level - 1) eflags in
      (
        k',
        unlock_held k1 eflags (subst (λ d. 1 < d.preempt_level) (sym here) nested),
        record {
          orderly = l.orderly;
          same_current = refl;
          same_idle = refl;
          flags = refl;
          self =
              l.self
              ∙ ap
                  (λ (d : Thread). record d {
                    preempt_level = d.preempt_level - 1;
                    yield = (k'.threads k.current).yield;
                  })
                  here;
          others = λ s other. l.others s other ∙ rw (==_ne k.current s (λ e. other (sym e))) refl;
          kept = λ s other. l.kept s other ∙ rw (==_ne k.current s (λ e. other (sym e))) refl;
          same_nr = refl;
        },
        λ calm. absurd (clash calm),
      )
    where
      clash : true ≢ false
      clash e = cc

  -- A ready thread that is added in a nested section.
  add_held :
      (k : Kernel) (t : ℕ) (th : Thread) (eflags : ℕ)
      → IsOrderly k
      → 1 < (k.threads k.current).preempt_level
      → cpu_intr_enabled k.eflags ≡ false
      → k.nr_threads < 4294967295
      → MayAdd k t th
      → (k' : Kernel) × ((thread_runq_add (record k { threads = update k.threads t th }) t >>= λ k1.
            thread_unlock_scheduler k1 eflags true)
          ≡ ok k')
        × Lowered (added k t th) eflags k'
        × (th.priority ≤ (k.threads k.current).priority
            → (k'.threads k.current).yield ≡ (k.threads k.current).yield)
  add_held k t th eflags v nested off few m =
      let k1 : Kernel = record k { threads = update k.threads t th } in
      let same : k1.threads k.current ≡ k.threads k.current = rw (==_ne t k.current m.other) refl in
      let self : k1.threads t ≡ th = rw (==_eq t t refl) refl in
      let locked =
        locked_lem k1 off (subst (λ d. 0 < d.preempt_level) (sym same) (omega (arith, nested))) in
      let add =
        runq_add_code k1 t locked (ap (λ d. d.state) self ∙ m.ready)
          (subst (λ d. d.priority < 20) (sym self) m.bound) few in
      let queue : queued_state k1 t ≡ added k t th = rw self refl in
      let wanted = ltb (k1.threads k1.current).priority (k1.threads t).priority in
      let (k', run, l, calm) =
        flagged_held (added k t th) wanted eflags (added-IsOrderly k t th v m)
          (subst (λ d. 1 < d.preempt_level) (sym same) nested) in
      (
        k',
        ap (λ o. o >>= λ k1. thread_unlock_scheduler k1 eflags true)
              (add ∙ ap (λ k2. ok (flagged k2 wanted)) queue)
            ∙ run,
        l,
        λ le.
            let less : (th.priority ≤ (k1.threads k1.current).priority) =
              subst (λ d. th.priority ≤ d.priority) (sym same) le in
            let low : (k1.threads t).priority ≤ (k1.threads k1.current).priority =
              subst (λ d. d.priority ≤ (k1.threads k1.current).priority) (sym self) less in
            calm (ground (arith, low)) ∙ ap (λ d. d.yield) same,
      )

  -- Within a section without preemption, `thread_wakeup` of another thread that is not dead returns to
  -- the caller; the thread is then ready.
  pub wakeup-Held :
      (k : Kernel) (t : ℕ)
      → IsOrderly k
      → 0 < (k.threads k.current).preempt_level
      → (k.threads k.current).preempt_level < 4294967295
      → k.nr_threads < 4294967295
      → (k.threads t).state ≢ dead
      → t ≢ k.current
      → t ≢ k.idle
      → (k' : Kernel) × (thread_wakeup k (some t) ≡ ok k') × Held k t k'
  unfolding thread_wakeup thread_self thread_set_running thread_set_state
  wakeup-Held k t v pos lt few alive other busy = elim (Bool-cases (thread_is_running k t)) [
    | inl ready ↦
        let before : (k1.threads t).state ≡ running =
          ap (λ d. d.state) (apart t other) ∙ running_lem k t ready in
        let (k', run, l, calm) = flagged_held k1 false k.eflags v1 nested in
        (
          k',
          rw (==_ne t k.current other, lock_lem k lt, running_of k1 t before) run,
          held k' k1 l refl refl (omega arith) same_self
              (ap (λ d. d.state) (l.others t other) ∙ before)
              (l.kept t other ∙ v1.present t before busy) (λ s away aside. apart s away)
              (λ le. calm refl ∙ ap (λ d. d.yield) same_self),
        )
    | inr rests ↦
        let th : Thread = record (k1.threads t) { state = running } in
        let same_state : (k1.threads t).state ≡ (k.threads t).state =
          ap (λ d. d.state) (apart t other) in
        let alive1 : (k1.threads t).state ≢ dead = λ e. alive (sym same_state ∙ e) in
        let rests1 : thread_is_running k1 t ≡ false = rests_lem k k1 t same_state rests in
        let m : MayAdd k1 t th = record {
          rests = λ e. absurd_running (sym (running_of k1 t e) ∙ rests1);
          other = other;
          busy = busy;
          ready = refl;
          bound = v1.bounded t alive1 busy;
          level = (v1.waits t other alive1).0;
          point = (v1.waits t other alive1).1;
        } in
        let k3 = added k1 t th in
        let there : k3.threads t ≡ th = rw (==_eq t t refl) refl in
        let (k', run, l, calm) =
          add_held k1 t th k.eflags v1 nested (enabled-disable k.eflags) few m in
        (
          k',
          rw (==_ne t k.current other, lock_lem k lt, rests1, not_dead k1 t alive1) run,
          held k' k3 l refl refl (omega arith) (rw (==_ne t k.current other) same_self)
              (ap (λ d. d.state) (l.others t other ∙ there))
              (l.kept t other ∙ presence-added k1 t th v1 m)
              (λ s away aside. rw (==_ne t s (λ e. aside (sym e))) (apart s away))
              (λ le.
                calm (
                  subst (λ d. th.priority ≤ d.priority) (sym same_self)
                    (subst (λ d. d.priority ≤ (k.threads k.current).priority) (sym (apart t other))
                      le))
                ∙ ap (λ d. d.yield) same_self),
        )
  ]
    where
      absurd_running : true ≢ false
      absurd_running e = cc

      k1 : Kernel
      k1 = at_level k ((k.threads k.current).preempt_level + 1) (cpu_intr_disable k.eflags)

      v1 : IsOrderly k1
      v1 =
          at_level-IsOrderly k ((k.threads k.current).preempt_level + 1) (cpu_intr_disable k.eflags)
            v

      same_self :
          k1.threads k.current
          ≡ record (k.threads k.current) { preempt_level = (k.threads k.current).preempt_level + 1 }
      same_self = rw (==_eq k.current k.current refl) refl

      nested : 1 < (k1.threads k1.current).preempt_level
      nested = subst (λ d. 1 < d.preempt_level) (sym same_self) (omega (arith, pos))

      apart : (s : ℕ) → s ≢ k.current → k1.threads s ≡ k.threads s
      apart s away = rw (==_ne k.current s (λ e. away (sym e))) refl

      held :
          (k' k3 : Kernel)
          → Lowered k3 k.eflags k'
          → k3.current ≡ k.current
          → k3.idle ≡ k.idle
          → k3.nr_threads ≤ k.nr_threads + 1
          → k3.threads k.current ≡ record (k.threads k.current) {
            preempt_level = (k.threads k.current).preempt_level + 1;
          }
          → (k'.threads t).state ≡ running
          → presence k' t ≡ 1
          → ((s : ℕ) → s ≢ k.current → s ≢ t → k3.threads s ≡ k.threads s)
          → ((k.threads t).priority ≤ (k.threads k.current).priority
              → (k'.threads k.current).yield ≡ (k.threads k.current).yield)
          → Held k t k'
      held k' k3 l here idle more self runs ready others told = record {
        grows = omega (arith, more, l.same_nr);
        told = told;
        orderly = l.orderly;
        same_current = l.same_current ∙ here;
        same_idle = l.same_idle ∙ idle;
        flags = l.flags;
        self =
            subst
              (λ c. k'.threads c ≡ record (k3.threads c) {
                preempt_level = (k3.threads c).preempt_level - 1;
                yield = (k'.threads c).yield;
              })
              here l.self
            ∙ ap
                (λ (d : Thread). record d {
                  preempt_level = d.preempt_level - 1;
                  yield = (k'.threads k.current).yield;
                })
                self
            ∙ ap
                (λ n. record (k.threads k.current) {
                  preempt_level = n;
                  yield = (k'.threads k.current).yield;
                })
                (omega arith);
        runs = runs;
        ready = ready;
        others = λ s away aside. l.others s (λ e. away (e ∙ here)) ∙ others s away aside;
      }
