-- ===== src/Thread/System.antt =====
-- The state of all threads of src/thread.c between two calls: what each thread needs to go on.
use x.Base.{
  ℕ, ◌<◌, ◌≡◌, ◌≢◌, refl, ap, sym, ◌∙◌, subst, false, ==_ne, ==_eq, ◌⊎◌, inl, inr, arith, update,
  count,
}
use native.Mathlib.Decide.{ℕ_discrete}
use x.LinkedList.{LinkedList}
use x.Cpu.Flags.{cpu_intr_enabled}
use x.Thread.State.{
  Kernel, Thread, running, dead, Point, in_code, at_start, after_yield, after_sleep, after_exit,
}
use x.Thread.Park.{presence, IsScheduled}
use x.Thread.Schedule.{Switched}
use x.Thread.Frame.{frame-IsScheduled}

-- A point at which a thread may be loaded.
abbrev pub Resumable : Point → Type 0
Resumable in_code = ⊥
Resumable at_start = Unit {0}
Resumable (after_yield eflags) = Unit {0}
Resumable (after_sleep eflags) = Unit {0}
Resumable after_exit = ⊥

pub running_ne_dead : running ≢ dead
running_ne_dead e = cc

module _ ⦃lib : LinkedList⦄ where
  open lib use {nodes}

  -- Each ready thread but the idle one is in the list of its priority once, or is the current one; a
  -- thread that is not current was switched out with the scheduler locked. An address at which there
  -- is no thread counts as that of a dead one.
  pub record IsOrderly (k : Kernel) : Type 0 where
    pub scheduled : IsScheduled k
    pub bounded : (t : ℕ) → (k.threads t).state ≢ dead → t ≢ k.idle → (k.threads t).priority < 20
    pub present : (t : ℕ) → (k.threads t).state ≡ running → t ≢ k.idle → presence k t ≡ 1
    pub waits :
        (t : ℕ)
        → t ≢ k.current
        → (k.threads t).state ≢ dead
        → ((k.threads t).preempt_level ≡ 1) × Resumable (k.threads t).point

  -- The current thread was just loaded, with the scheduler locked.
  pub record IsLoaded (k : Kernel) : Type 0 where
    pub point : Resumable (k.threads k.current).point
    pub level : (k.threads k.current).preempt_level ≡ 1
    pub off : cpu_intr_enabled k.eflags ≡ false

  -- Between two calls: the current thread is ready, and in its own code or just loaded.
  pub record IsSystem (k : Kernel) : Type 0 where
    pub orderly : IsOrderly k
    pub runs : (k.threads k.current).state ≡ running
    pub now : ((k.threads k.current).point ≡ in_code) ⊎ IsLoaded k

  -- A switch from a thread that is dead, or that can be loaded again.
  pub Switched-IsSystem :
      {k k' : Kernel} {point : Point}
      → IsOrderly k
      → ((k.threads k.current).state ≢ dead → Resumable point)
      → (k.threads k.current).preempt_level ≡ 1
      → cpu_intr_enabled k.eflags ≡ false
      → Switched k point k'
      → IsSystem k' × IsLoaded k'
  Switched-IsSystem {k} {k'} {point} v resumable level off s =
      (record { orderly = orderly; runs = s.runs; now = inr loaded }, loaded)
    where
      state_lem : (t : ℕ) → (k'.threads t).state ≡ (k.threads t).state
      state_lem t = elim (ℕ_discrete t k.current) [
        | yes e ↦
            subst (λ t. (k'.threads t).state ≡ (k.threads t).state) (sym e)
              (ap (λ th. th.state) s.self)
        | no other ↦ ap (λ th. th.state) (s.others t other)
      ]

      self_state : (k'.threads k.current).state ≡ (k.threads k.current).state
      self_state = ap (λ th. th.state) s.self

      each :
          (t : ℕ)
          → (k'.threads t).state ≢ dead
          → ((k'.threads t).preempt_level ≡ 1) × Resumable (k'.threads t).point
      each t alive = elim (ℕ_discrete t k.current) [
        | yes e ↦
            let e' : k.current ≡ t = sym e in
            subst
              (λ t.
                (k'.threads t).state ≢ dead
                → ((k'.threads t).preempt_level ≡ 1) × Resumable (k'.threads t).point)
              e'
              (λ alive. (
                ap (λ th. th.preempt_level) s.self ∙ level,
                subst Resumable (sym (ap (λ th. th.point) s.self))
                    (resumable (λ d. alive (self_state ∙ d))),
              ))
              alive
        | no other ↦
            let same = s.others t other in
            let w = v.waits t other (λ d. alive (ap (λ th. th.state) same ∙ d)) in
            (
              ap (λ th. th.preempt_level) same ∙ w.0,
              subst Resumable (sym (ap (λ th. th.point) same)) w.1,
            )
      ]

      bounded : (t : ℕ) → (k'.threads t).state ≢ dead → t ≢ k'.idle → (k'.threads t).priority < 20
      bounded t alive busy =
          let busy' : t ≢ k.idle = λ e. busy (e ∙ sym s.same_idle) in
          elim (ℕ_discrete t k.current) [
            | yes e ↦
                let same : k'.threads t ≡ record (k.threads t) { point = point } =
                  subst (λ t. k'.threads t ≡ record (k.threads t) { point = point }) (sym e)
                    s.self in
                subst (λ n. n < 20) (sym (ap (λ th. th.priority) same))
                  (v.bounded t (λ d. alive (ap (λ th. th.state) same ∙ d)) busy')
            | no other ↦
                let same = s.others t other in
                subst (λ n. n < 20) (sym (ap (λ th. th.priority) same))
                  (v.bounded t (λ d. alive (ap (λ th. th.state) same ∙ d)) busy')
          ]

      alive_now : (k'.threads k'.current).state ≢ dead
      alive_now d = running_ne_dead (sym s.runs ∙ d)

      loaded : IsLoaded k'
      loaded = record {
        point = (each k'.current alive_now).1;
        level = (each k'.current alive_now).0;
        off = ap cpu_intr_enabled s.flags ∙ off;
      }

      orderly : IsOrderly k'
      orderly = record {
        scheduled = s.scheduled;
        bounded = bounded;
        present = λ t runs busy.
            let runs' : (k.threads t).state ≡ running = sym (state_lem t) ∙ runs in
            let busy' : t ≢ k.idle = λ e. busy (e ∙ sym s.same_idle) in
            let lt = v.bounded t (λ d. running_ne_dead (sym runs' ∙ d)) busy' in
            s.kept t busy' runs' lt ∙ v.present t runs' busy';
        waits = λ t other alive. each t alive;
      }

  -- The current thread changes, but for its priority; its state too, if it is not the idle thread.
  pub put-IsOrderly :
      (k : Kernel) (th : Thread) (eflags : ℕ)
      → IsOrderly k
      → th.priority ≡ (k.threads k.current).priority
      → ((th.state ≡ (k.threads k.current).state) ⊎ (k.current ≢ k.idle))
      → IsOrderly (record k { threads = update k.threads k.current th; eflags = eflags })
  put-IsOrderly k th eflags v prio state = record {
    scheduled =
        frame-IsScheduled k (update k.threads k.current th) eflags
          (λ t other. rw (==_ne k.current t (λ e. other (sym e))) refl) (λ t. priorities t)
          idle_runs v.scheduled;
    bounded = λ t lives busy. elim (ℕ_discrete k.current t) [
      | yes e ↦
          rw (==_eq k.current t e)
            (omega (arith, prio, v.scheduled.bounded (λ i. busy (sym e ∙ i))))
      | no other ↦
          rw (==_ne k.current t other) (v.bounded t (rw (==_ne k.current t other) at lives) busy)
    ];
    present = λ t runs busy. elim (ℕ_discrete k.current t) [
      | yes e ↦ here t e busy
      | no other ↦ rw (==_ne k.current t other) (
          rw (==_ne k.current t other) at (v.present t (rw (==_ne k.current t other) at runs) busy))
    ];
    waits = λ t other lives.
        let e = ==_ne k.current t (λ e. other (sym e)) in rw e (v.waits t other (rw e at lives));
  }
    where
      priorities : (t : ℕ) → (update k.threads k.current th t).priority ≡ (k.threads t).priority
      priorities t = elim (ℕ_discrete k.current t) [
        | yes e ↦ rw (==_eq k.current t e) (prio ∙ ap (λ t. (k.threads t).priority) e)
        | no other ↦ rw (==_ne k.current t other) refl
      ]

      here :
          (t : ℕ)
          → k.current ≡ t
          → t ≢ k.idle
          → presence (record k { threads = update k.threads k.current th; eflags = eflags }) t ≡ 1
      here t e busy =
          let lt : (k.threads k.current).priority < 20 =
            v.scheduled.bounded (λ i. busy (sym e ∙ i)) in
          let none_there = v.scheduled.apart (k.threads k.current).priority lt in
          let absent : count t (nodes (k.lists (k.threads k.current).priority)) ≡ 0 =
            subst (λ t. count t (nodes (k.lists (k.threads k.current).priority)) ≡ 0) e
              none_there in
          rw (==_eq k.current t e, prio) (omega (arith, absent))

      same_state :
          ((th.state ≡ (k.threads k.current).state) ⊎ (k.current ≢ k.idle))
          → k.current ≡ k.idle
          → th.state ≡ running
      same_state (inl s) e = s ∙ ap (λ t. (k.threads t).state) e ∙ v.scheduled.idle_runs
      same_state (inr busy) e = absurd (busy e)

      idle_runs : (update k.threads k.current th k.idle).state ≡ running
      idle_runs = elim (ℕ_discrete k.current k.idle) [
        | yes e ↦ rw (==_eq k.current k.idle e) (same_state state e)
        | no other ↦ rw (==_ne k.current k.idle other) v.scheduled.idle_runs
      ]
