-- ===== src/Thread/Tell.antt =====
-- The wakeup in `thread_exit` of src/thread.c: of the thread that waits in `thread_join`.
use x.Base.{
  ℕ, ◌⊎◌, inl, ◌<◌, ◌≡◌, ◌≢◌, refl, ap, sym, ◌∙◌, subst, ==_ne, inr, update, Option, some, none,
}
use x.Base.Outcome.{ok}
use native.Mathlib.Decide.{ℕ_discrete}
use x.LinkedList.{LinkedList}
use x.Thread.State.{Kernel, Thread, running, dead}
use x.Thread.Sched.{thread_wakeup}
use x.Thread.Park.{presence}
use x.Thread.System.{IsOrderly, running_ne_dead}
use x.Thread.Held.{wakeup-Held}

module _ ⦃lib : LinkedList⦄ where
  -- The thread that waits for the end of another, if one does, is alive.
  abbrev pub MayJoin : Kernel → Option ℕ → Type 0
  MayJoin k none = Unit {0}
  MayJoin k (some t) = ((k.threads t).state ≢ dead) × (t ≢ k.current) × (t ≢ k.idle)

  -- The thread that waited is ready.
  abbrev pub Joined : Kernel → Option ℕ → Type 0
  Joined k none = Unit {0}
  Joined k (some t) = ((k.threads t).state ≡ running) × (presence k t ≡ 1)

  -- A thread that another one waits for, if it does, is ready; the current one goes on.
  pub record Told (k : Kernel) (joiner : Option ℕ) (k' : Kernel) : Type 0 where
    pub orderly : IsOrderly k'
    pub same_current : k'.current ≡ k.current
    pub same_idle : k'.idle ≡ k.idle
    pub flags : k'.eflags ≡ k.eflags
    pub level : (k'.threads k.current).preempt_level ≡ (k.threads k.current).preempt_level
    pub state : (k'.threads k.current).state ≡ (k.threads k.current).state
    pub point : (k'.threads k.current).point ≡ (k.threads k.current).point
    pub joined : Joined k' joiner
    pub ends : (s : ℕ) → (k.threads s).state ≡ dead → (k'.threads s).state ≡ dead
    pub moves :
        (s : ℕ)
        → s ≢ k.current
        → ((k'.threads s).state ≡ (k.threads s).state) ⊎ ((k'.threads s).state ≡ running)

  pub tell_lem :
      (k : Kernel) (joiner : Option ℕ)
      → IsOrderly k
      → 0 < (k.threads k.current).preempt_level
      → (k.threads k.current).preempt_level < 4294967295
      → k.nr_threads < 4294967295
      → MayJoin k joiner
      → (k' : Kernel) × (thread_wakeup k joiner ≡ ok k') × Told k joiner k'
  unfolding thread_wakeup
  tell_lem k none v pos lt few may = (
    k,
    refl,
    record {
      orderly = v;
      same_current = refl;
      same_idle = refl;
      flags = refl;
      level = refl;
      state = refl;
      point = refl;
      joined = tt;
      ends = λ s e. e;
      moves = λ s away. inl refl;
    },
  )
  tell_lem k (some t) v pos lt few may =
      let (alive, other, busy) = may in
      let (k', run, h) = wakeup-Held k t v pos lt few alive other busy in
      (
        k',
        run,
        record {
          orderly = h.orderly;
          same_current = h.same_current;
          same_idle = h.same_idle;
          flags = h.flags;
          level = ap (λ d. d.preempt_level) h.self;
          state = ap (λ d. d.state) h.self;
          point = ap (λ d. d.point) h.self;
          joined = (h.runs, h.ready);
          moves = λ s away. elim (ℕ_discrete s t) [
            | yes same ↦ inr (subst (λ s. (k'.threads s).state ≡ running) (sym same) h.runs)
            | no aside ↦ inl (ap (λ d. d.state) (h.others s away aside))
          ];
          ends = λ s e. elim (ℕ_discrete s k.current) [
            | yes here ↦
                subst (λ s. (k.threads s).state ≡ dead → (k'.threads s).state ≡ dead) (sym here)
                  (λ e. ap (λ d. d.state) h.self ∙ e) e
            | no away ↦
                ap (λ d. d.state)
                  (h.others s away (λ same. alive (ap (λ t. (k.threads t).state) (sym same) ∙ e)))
                ∙ e
          ];
        },
      )

  pub Told-may :
      (k k' : Kernel) (joiner : Option ℕ) → Told k joiner k' → MayJoin k joiner → MayJoin k' joiner
  Told-may k k' none d may = tt
  Told-may k k' (some t) d may =
      let (alive, other, busy) = may in
      let (runs, ready) = d.joined in
      (
        λ e. running_ne_dead (sym runs ∙ e),
        λ e. other (e ∙ d.same_current),
        λ e. busy (e ∙ d.same_idle),
      )

  pub put_may :
      (k : Kernel) (th : Thread) (eflags : ℕ) (joiner : Option ℕ)
      → MayJoin k joiner
      → MayJoin (record k { threads = update k.threads k.current th; eflags = eflags }) joiner
  put_may k th eflags none may = tt
  put_may k th eflags (some t) may =
      let (alive, other, busy) = may in
      (rw (==_ne k.current t (λ e. other (sym e))) alive, other, busy)
