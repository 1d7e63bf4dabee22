-- ===== src/Thread/Enable.antt =====
-- The end of a section without preemption in src/thread.c: `thread_preempt_enable` and
-- `thread_unlock_scheduler`, which may switch threads.
use x.Base.{
  ℕ, ◌+◌, ◌-◌, ◌<◌, ◌≡◌, ◌≢◌, refl, ap, sym, ◌∙◌, subst, Bool, true, false, ◌==◌, ==_ne, ==_eq,
  Bool-cases, inl, inr, arith, update, if◌then◌else◌, count,
}
use x.Base.Outcome.{ok}
use native.Mathlib.Decide.{ℕ_discrete}
use x.LinkedList.{LinkedList}
use x.Cpu.Flags.{cpu_intr_restore}
use x.Thread.State.{
  Kernel, Thread, running, Point, in_code, after_yield, thread_should_yield, thread_self,
  thread_preempt_enable_no_yield, thread_preempt_enabled,
}
use x.Thread.Sched.{
  thread_yield, thread_yield_if_needed, thread_preempt_enable, thread_unlock_scheduler,
}
use x.Thread.Park.{presence}
use x.Thread.Frame.{frame-IsScheduled}
use x.Thread.System.{IsOrderly, IsSystem, put-IsOrderly}
use x.Thread.Calls.{at_level, yield_lem, Yielded}

module _ ⦃lib : LinkedList⦄ where
  open lib use {nodes}

  -- The system goes on, perhaps with another thread: no thread changed its state, and the ready threads
  -- are as many times in a list or current as before.
  pub record Continued (k k' : Kernel) : Type 0 where
    pub system : IsSystem k'
    pub same_idle : k'.idle ≡ k.idle
    pub states : (t : ℕ) → (k'.threads t).state ≡ (k.threads t).state
    pub priorities : (t : ℕ) → (k'.threads t).priority ≡ (k.threads t).priority
    pub kept :
        (t : ℕ)
        → t ≢ k.idle
        → (k.threads t).state ≡ running
        → (k.threads t).priority < 20
        → presence k' t ≡ presence k t

  pub field-update :
      {A : Type 0} (f : Thread → A) (threads : ℕ → Thread) (c : ℕ) (th : Thread) (t : ℕ)
      → f th ≡ f (threads c)
      → f (update threads c th t) ≡ f (threads t)
  field-update f threads c th t e = elim (ℕ_discrete c t) [
    | yes same ↦ rw (==_eq c t same) (e ∙ ap (λ t. f (threads t)) same)
    | no other ↦ rw (==_ne c t other) refl
  ]

  -- A change of the current thread that the run queue does not see.
  pub put-Continued :
      (k : Kernel) (th : Thread) (eflags : ℕ)
      → th.state ≡ (k.threads k.current).state
      → th.priority ≡ (k.threads k.current).priority
      → IsSystem (record k { threads = update k.threads k.current th; eflags = eflags })
      → Continued k (record k { threads = update k.threads k.current th; eflags = eflags })
  put-Continued k th eflags state prio system = record {
    system = system;
    same_idle = refl;
    states = λ t. field-update (λ th. th.state) k.threads k.current th t state;
    priorities = λ t. field-update (λ th. th.priority) k.threads k.current th t prio;
    kept = λ t busy runs lt.
        ap (λ p. count t (nodes (k.lists p)) + (if k.current == t then 1 else 0))
          (field-update (λ th. th.priority) k.threads k.current th t prio);
  }

  pub Yielded-Continued : (k k' : Kernel) → Yielded k k' → Continued k k'
  Yielded-Continued k k' y = record {
    system = y.system;
    same_idle = y.switched.same_idle;
    states = λ t.
        switched_field (λ th. th.state) (λ p. refl) t
        ∙ field-update (λ th. th.state) k.threads k.current th t refl;
    priorities = λ t.
        switched_field (λ th. th.priority) (λ p. refl) t
        ∙ field-update (λ th. th.priority) k.threads k.current th t refl;
    kept = λ t busy runs lt.
        y.switched.kept t busy (field-update (λ th. th.state) k.threads k.current th t refl ∙ runs)
          (subst (λ n. n < 20)
            (sym (field-update (λ th. th.priority) k.threads k.current th t refl)) lt)
        ∙ ap (λ p. count t (nodes (k.lists p)) + (if k.current == t then 1 else 0))
            (field-update (λ th. th.priority) k.threads k.current th t refl);
  }
    where
      th : Thread
      th = record (k.threads k.current) { preempt_level = 1; yield = false }

      switched_field :
          {A : Type 0} (f : Thread → A)
          → ((p : Point)
              → f (record (update k.threads k.current th k.current) { point = p })
                ≡ f (update k.threads k.current th k.current))
          → (t : ℕ) → f (k'.threads t) ≡ f (update k.threads k.current th t)
      switched_field f pointless t = elim (ℕ_discrete t k.current) [
        | yes e ↦
            subst (λ t. f (k'.threads t) ≡ f (update k.threads k.current th t)) (sym e)
              (ap f y.switched.self ∙ pointless (after_yield k.eflags))
        | no other ↦ ap f (y.switched.others t other)
      ]

  pub Continued-trans : (k k1 k2 : Kernel) → Continued k k1 → Continued k1 k2 → Continued k k2
  Continued-trans k k1 k2 c d = record {
    system = d.system;
    same_idle = d.same_idle ∙ c.same_idle;
    states = λ t. d.states t ∙ c.states t;
    priorities = λ t. d.priorities t ∙ c.priorities t;
    kept = λ t busy runs lt.
        d.kept t (λ e. busy (e ∙ c.same_idle)) (c.states t ∙ runs)
          (subst (λ n. n < 20) (sym (c.priorities t)) lt)
        ∙ c.kept t busy runs lt;
  }

  pub Continued-refl : (k : Kernel) → IsSystem k → Continued k k
  Continued-refl k system = record {
    system = system;
    same_idle = refl;
    states = λ t. refl;
    priorities = λ t. refl;
    kept = λ t busy runs lt. refl;
  }

  pub yield_held : (k : Kernel) → (k.threads k.current).preempt_level ≢ 0 → thread_yield k ≡ ok k
  unfolding thread_yield thread_preempt_enabled thread_self
  yield_held k held = rw (==_ne (k.threads k.current).preempt_level 0 held)

  pub if_needed_yes :
      (k : Kernel)
      → thread_should_yield k k.current ≡ true
      → thread_yield_if_needed k ≡ thread_yield k
  unfolding thread_yield_if_needed thread_self
  if_needed_yes k e = rw e

  pub if_needed_no :
      (k : Kernel) → thread_should_yield k k.current ≡ false → thread_yield_if_needed k ≡ ok k
  unfolding thread_yield_if_needed thread_self
  if_needed_no k e = rw e

  -- `thread_yield` of a thread in its own code returns; the system goes on.
  pub yield-Continued :
      (k : Kernel)
      → IsOrderly k
      → (k.threads k.current).state ≡ running
      → (k.threads k.current).point ≡ in_code
      → (k' : Kernel) × (thread_yield k ≡ ok k') × Continued k k'
  yield-Continued k v runs code = elim (ℕ_discrete (k.threads k.current).preempt_level 0) [
    | yes free ↦ let (k', run, y) = yield_lem k v free in (k', run, Yielded-Continued k k' y)
    | no held ↦ (
      k,
      yield_held k held,
      Continued-refl k (record { orderly = v; runs = runs; now = inl code }),
    )
  ]

  pub flags-IsOrderly :
      (k : Kernel) (eflags : ℕ) → IsOrderly k → IsOrderly (record k { eflags = eflags })
  flags-IsOrderly k eflags v = record {
    scheduled =
        frame-IsScheduled k k.threads eflags (λ t other. refl) (λ t. refl) v.scheduled.idle_runs
          v.scheduled;
    bounded = v.bounded;
    present = v.present;
    waits = v.waits;
  }

  pub flags-Continued :
      (k k' : Kernel) (eflags : ℕ) → Continued (record k { eflags = eflags }) k' → Continued k k'
  flags-Continued k k' eflags c = record {
    system = c.system;
    same_idle = c.same_idle;
    states = c.states;
    priorities = c.priorities;
    kept = c.kept;
  }

  -- `thread_preempt_enable_no_yield` leaves the current thread where it is.
  pub no_yield_lem :
      (k : Kernel)
      → 0 < (k.threads k.current).preempt_level
      → thread_preempt_enable_no_yield k
        ≡ ok (at_level k ((k.threads k.current).preempt_level - 1) k.eflags)
  unfolding thread_preempt_enable_no_yield thread_self
  no_yield_lem k pos = rw (==_ne (k.threads k.current).preempt_level 0 (omega arith))

  -- A change of the current thread, in its own code, that the run queue does not see.
  pub change-Continued :
      (k : Kernel) (th : Thread) (eflags : ℕ)
      → IsOrderly k
      → (k.threads k.current).state ≡ running
      → th.state ≡ (k.threads k.current).state
      → th.priority ≡ (k.threads k.current).priority
      → th.point ≡ in_code
      → Continued k (record k { threads = update k.threads k.current th; eflags = eflags })
  change-Continued k th eflags v runs state prio code =
      put-Continued k th eflags state prio (record {
        orderly = put-IsOrderly k th eflags v prio (inl state);
        runs = field-update (λ th. th.state) k.threads k.current th k.current state ∙ runs;
        now = inl (rw (==_eq k.current k.current refl) code);
      })

  pub at_level-Continued :
      (k : Kernel) (level eflags : ℕ)
      → IsOrderly k
      → (k.threads k.current).state ≡ running
      → (k.threads k.current).point ≡ in_code
      → Continued k (at_level k level eflags)
  at_level-Continued k level eflags v runs code =
      change-Continued k (record (k.threads k.current) { preempt_level = level }) eflags v runs refl
        refl code

  -- `thread_preempt_enable` of a thread in its own code returns; the system goes on.
  pub preempt_enable_lem :
      (k : Kernel)
      → IsOrderly k
      → (k.threads k.current).state ≡ running
      → (k.threads k.current).point ≡ in_code
      → 0 < (k.threads k.current).preempt_level
      → (k' : Kernel) × (thread_preempt_enable k ≡ ok k') × Continued k k'
  unfolding thread_preempt_enable
  preempt_enable_lem k v runs code pos =
      let level = (k.threads k.current).preempt_level - 1 in
      let k1 : Kernel = at_level k level k.eflags in
      let first : thread_preempt_enable k ≡ thread_yield_if_needed k1 = rw (no_yield_lem k pos) in
      let before : Continued k k1 = at_level-Continued k level k.eflags v runs code in
      let same_code : (k1.threads k1.current).point ≡ in_code =
        field-update (λ th. th.point) k.threads k.current
          (record (k.threads k.current) { preempt_level = level }) k.current refl
        ∙ code in
      elim (Bool-cases (thread_should_yield k1 k1.current)) [
        | inl wanted ↦
            let (k', run, after) =
              yield-Continued k1 before.system.orderly before.system.runs same_code in
            (k', first ∙ if_needed_yes k1 wanted ∙ run, Continued-trans k k1 k' before after)
        | inr unwanted ↦ (k1, first ∙ if_needed_no k1 unwanted, before)
      ]

  -- `thread_unlock_scheduler` of a thread in its own code returns, for either end; the system goes on.
  pub unlock_lem :
      (k : Kernel) (eflags : ℕ) (yield : Bool)
      → IsOrderly k
      → (k.threads k.current).state ≡ running
      → (k.threads k.current).point ≡ in_code
      → 0 < (k.threads k.current).preempt_level
      → (k' : Kernel) × (thread_unlock_scheduler k eflags yield ≡ ok k') × Continued k k'
  unfolding thread_unlock_scheduler cpu_intr_restore
  unlock_lem k eflags true v runs code pos =
      let (k', run, c) =
        preempt_enable_lem (record k { eflags = eflags }) (flags-IsOrderly k eflags v) runs code
          pos in
      (k', run, flags-Continued k k' eflags c)
  unlock_lem k eflags false v runs code pos = (
    at_level k ((k.threads k.current).preempt_level - 1) eflags,
    no_yield_lem (record k { eflags = eflags }) pos,
    at_level-Continued k ((k.threads k.current).preempt_level - 1) eflags v runs code,
  )
