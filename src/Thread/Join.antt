-- ===== src/Thread/Join.antt =====
-- `thread_join` of src/thread.c: the caller sleeps until the thread is dead.
use x.Base.{
  ℕ, ◌+◌, ◌<◌, ◌≡◌, ◌≢◌, refl, ap, sym, ◌∙◌, subst, true, false, ◌⊎◌, inl, inr, some, count, ==_eq,
  arith, ◌==◌, if◌then◌else◌,
}
use x.Base.Outcome.{ok}
use x.LinkedList.{LinkedList}
use x.Cpu.Flags.{cpu_intr_disable}
use x.Thread.State.{
  Kernel, Thread, ThreadState, running, sleeping, dead, in_code, put, thread_is_dead, thread_self,
}
use x.Thread.Frame.{frame-IsScheduled}
use x.Thread.System.{Resumable, IsOrderly, IsSystem}
use x.Thread.Calls.{at_level, lock_lem}
use x.Thread.Enable.{field-update, at_level-Continued, unlock_lem}
use x.Thread.Wakeup.{not_dead}
use x.Thread.Leave.{sleep_lem}
use x.Thread.Create.{thread_join_turn, thread_join}

module _ ⦃lib : LinkedList⦄ where
  open lib use {nodes}

  -- The current thread is recorded as the one that waits for a thread.
  abbrev awaited : Kernel → ℕ → Kernel
  awaited k t = put k t (record (k.threads t) { joiner = some k.current })

  module _ (k : Kernel) (t : ℕ) where
    same_field :
        {A : Type 0} (f : Thread → A)
        → f (record (k.threads t) { joiner = some k.current }) ≡ f (k.threads t)
        → (s : ℕ) → f ((awaited k t).threads s) ≡ f (k.threads s)
    same_field f e s =
        field-update f k.threads t (record (k.threads t) { joiner = some k.current }) s e

    awaited-IsOrderly : IsOrderly k → IsOrderly (awaited k t)
    awaited-IsOrderly v = record {
      scheduled =
          frame-IsScheduled k (awaited k t).threads k.eflags
            (λ s other. same_field (λ d. d.state) refl s) (λ s. same_field (λ d. d.priority) refl s)
            (same_field (λ d. d.state) refl k.idle ∙ v.scheduled.idle_runs) v.scheduled;
      bounded = λ s alive busy.
          subst (λ n. n < 20) (sym (same_field (λ d. d.priority) refl s))
            (v.bounded s (λ gone. alive (same_field (λ d. d.state) refl s ∙ gone)) busy);
      present = λ s runs busy.
          ap (λ p. count s (nodes (k.lists p)) + (if k.current == s then 1 else 0))
            (same_field (λ d. d.priority) refl s)
          ∙ v.present s (sym (same_field (λ d. d.state) refl s) ∙ runs) busy;
      waits = λ s away alive.
          let w = v.waits s away (λ gone. alive (same_field (λ d. d.state) refl s ∙ gone)) in
          (
            same_field (λ d. d.preempt_level) refl s ∙ w.0,
            subst Resumable (sym (same_field (λ d. d.point) refl s)) w.1,
          );
    }

    awaited-IsSystem : IsSystem k → (k.threads k.current).point ≡ in_code → IsSystem (awaited k t)
    awaited-IsSystem v code = record {
      orderly = awaited-IsOrderly v.orderly;
      runs = same_field (λ d. d.state) refl k.current ∙ v.runs;
      now = inl (same_field (λ d. d.point) refl k.current ∙ code);
    }

  pub dead_lem : (k : Kernel) (t : ℕ) → (k.threads t).state ≡ dead → thread_is_dead k t ≡ true
  unfolding thread_is_dead
  dead_lem k t gone = ap (λ s. elim s [ dead ↦ true | _ ↦ false ]) gone

  -- The thread is dead, and the caller goes on to destroy it; or it is not, and the caller sleeps, as
  -- the one that waits for it.
  pub data Awaits (k : Kernel) (t : ℕ) (k' : Kernel) : Type 0 where
    over :
        (k.threads t).state ≡ dead
        → ((s : ℕ) → (k'.threads s).state ≡ (k.threads s).state)
        → Awaits k t k'
    asleep :
        (k.threads t).state ≢ dead
        → (k'.threads k.current).state ≡ sleeping
        → (k'.threads t).joiner ≡ some k.current
        → ((s : ℕ) → s ≢ k.current → (k'.threads s).state ≡ (k.threads s).state)
        → Awaits k t k'

  -- In a system in order, `thread_join` of another thread, by a thread in its own code with
  -- preemption enabled that is not the idle one, fails no assertion up to the test of its
  -- loop and what follows it. If the thread is dead, no thread changes its state, and the
  -- caller goes on with its flags to restore; else the caller sleeps, recorded as the one
  -- that waits for the thread, and no other changes its state. The system is in order.
  pub join_lem :
      (k : Kernel) (t : ℕ)
      → IsSystem k
      → (k.threads k.current).point ≡ in_code
      → (k.threads k.current).preempt_level ≡ 0
      → k.current ≢ k.idle
      → t ≢ k.current
      → (k' : Kernel) × (thread_join k t ≡ ok (k.eflags, k')) × IsSystem k' × Awaits k t k'
  unfolding thread_join thread_join_turn thread_self
  join_lem k t v code level busy other =
      let off = cpu_intr_disable k.eflags in
      let k1 = at_level k ((k.threads k.current).preempt_level + 1) off in
      let before =
        at_level-Continued k ((k.threads k.current).preempt_level + 1) off v.orderly v.runs code in
      let self : k1.threads k.current ≡ record (k.threads k.current) {
        preempt_level = (k.threads k.current).preempt_level + 1;
      } =
        rw (==_eq k.current k.current refl) refl in
      let code1 : (k1.threads k.current).point ≡ in_code = ap (λ d. d.point) self ∙ code in
      let k2 = awaited k1 t in
      let v2 = awaited-IsSystem k1 t before.system code1 in
      let states : (s : ℕ) → (k2.threads s).state ≡ (k.threads s).state =
        λ s. same_field k1 t (λ d. d.state) refl s ∙ before.states s in
      let level2 : (k2.threads k.current).preempt_level ≡ 1 =
        same_field k1 t (λ d. d.preempt_level) refl k.current
        ∙ ap (λ d. d.preempt_level) self
        ∙ ap (λ n. n + 1) level in
      let code2 : (k2.threads k.current).point ≡ in_code =
        same_field k1 t (λ d. d.point) refl k.current ∙ code1 in
      let lock = lock_lem k (omega (arith, level)) in
      elim (state_discrete (k.threads t).state) [
        | inl gone ↦
            let (k', run, c) =
              unlock_lem k2 k.eflags true v2.orderly v2.runs code2 (omega (arith, level2)) in
            (
              k',
              rw (lock, dead_lem k2 t (states t ∙ gone), run) refl,
              c.system,
              over gone (λ s. c.states s ∙ states s),
            )
        | inr alive ↦
            let (k', run, l) = sleep_lem k2 v2 level2 busy in
            (
              k',
              rw (lock, not_dead k2 t (λ gone. alive (sym (states t) ∙ gone)), run) refl,
              l.system,
              asleep alive (ap (λ d. d.state) l.left)
                  (ap (λ d. d.joiner) (l.others t other) ∙ rw (==_eq t t refl) refl)
                  (λ s far. ap (λ d. d.state) (l.others s far) ∙ states s),
            )
      ]
    where
      state_discrete : (s : ThreadState) → (s ≡ dead) ⊎ (s ≢ dead)
      state_discrete running = inr (λ e. cc)
      state_discrete sleeping = inr (λ e. cc)
      state_discrete dead = inl refl
