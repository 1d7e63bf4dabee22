-- ===== src/Condvar/Rouse.antt =====
-- `condvar_broadcast` of src/condvar.c: what one turn of its loop makes of
-- the waiters and the threads.
use x.Base.{
  ℕ, ◌<◌, ◌≡◌, ◌≢◌, refl, ap, sym, ◌∙◌, subst, true, false, some, List, ◌∷◌, count, update, ==_eq,
  ==_ne, arith,
}
use native.Mathlib.Decide.{ℕ_discrete}
use x.Base.Outcome.{ok, ◌>>=◌}
use x.LinkedList.{LinkedList}
use x.Thread.State.{Kernel, running, dead}
use x.Thread.Sched.{thread_wakeup}
use x.Thread.System.{IsOrderly, running_ne_dead}
use x.Thread.Held.{Held}
use x.Condvar.{CondvarWaiter, Condvar, with_kernel, broadcast_loop}
use x.Condvar.Signal.{wakeup_code, wakeup_code_lem}

module _ ⦃lib : LinkedList⦄ where
  open lib use {nodes}

  -- The thread of a waiter that was not awoken can be woken up.
  abbrev pub MayWake : Kernel → CondvarWaiter → Type 0
  MayWake k w =
      w.awaken ≡ false
      → ((k.threads w.thread).state ≢ dead) × (w.thread ≢ k.current) × (w.thread ≢ k.idle)

  -- Within the section without preemption: the current thread goes on, and others may become ready.
  pub record Broadcast (c c' : Condvar) : Type 0 where
    pub orderly : IsOrderly c'.base.kernel
    pub same_current : c'.base.kernel.current ≡ c.base.kernel.current
    pub same_idle : c'.base.kernel.idle ≡ c.base.kernel.idle
    pub same_mutex : c'.base.mutex ≡ c.base.mutex
    pub level :
        (c'.base.kernel.threads c.base.kernel.current).preempt_level
        ≡ (c.base.kernel.threads c.base.kernel.current).preempt_level
    pub point :
        (c'.base.kernel.threads c.base.kernel.current).point
        ≡ (c.base.kernel.threads c.base.kernel.current).point
    pub stays :
        (t : ℕ)
        → (c.base.kernel.threads t).state ≡ running
        → (c'.base.kernel.threads t).state ≡ running
    pub threads : (w : ℕ) → (c'.waiter_at w).thread ≡ (c.waiter_at w).thread
    pub marks : (w : ℕ) → (c.waiter_at w).awaken ≡ true → (c'.waiter_at w).awaken ≡ true

  -- The waiters of a list are marked, and those that were not before have a ready thread.
  abbrev pub All : List ℕ → Condvar → Condvar → Type 0
  All ws c c' =
      (w : ℕ)
      → 0 < count w ws
      → ((c'.waiter_at w).awaken ≡ true)
        × ((c.waiter_at w).awaken ≡ false
            → (c'.base.kernel.threads (c.waiter_at w).thread).state ≡ running)

  Held-stays :
      (k : Kernel) (t : ℕ) (k' : Kernel)
      → Held k t k'
      → (s : ℕ) → (k.threads s).state ≡ running
      → (k'.threads s).state ≡ running
  Held-stays k t k' h s runs = elim (ℕ_discrete s k.current) [
    | yes e ↦
        ap (λ s. (k'.threads s).state) e
        ∙ ap (λ d. d.state) h.self
        ∙ ap (λ s. (k.threads s).state) (sym e)
        ∙ runs
    | no far ↦ elim (ℕ_discrete s t) [
      | yes e ↦ ap (λ s. (k'.threads s).state) e ∙ h.runs
      | no aside ↦ ap (λ d. d.state) (h.others s far aside) ∙ runs
    ]
  ]

  -- The state once the waiter was woken up.
  abbrev pub awoken : Condvar → ℕ → Kernel → Condvar
  awoken c w k = record (with_kernel c k) {
    waiter_at = update c.waiter_at w (record (c.waiter_at w) { awaken = true });
  }

  turn_code :
      (ws : List ℕ) (c : Condvar) (x : ℕ)
      → broadcast_loop (x ∷ ws) c
        ≡ (wakeup_code c x (c.waiter_at x).awaken >>= λ r. broadcast_loop ws r.1)
  unfolding broadcast_loop
  turn_code ws c x = ap (λ m. m >>= λ r. broadcast_loop ws r.1) (wakeup_code_lem c x)

  pub turn_marked :
      (ws : List ℕ) (c : Condvar) (x : ℕ)
      → (c.waiter_at x).awaken ≡ true
      → broadcast_loop (x ∷ ws) c ≡ broadcast_loop ws c
  turn_marked ws c x marked =
      turn_code ws c x ∙ ap (λ b. wakeup_code c x b >>= λ r. broadcast_loop ws r.1) marked

  pub turn_woken :
      (ws : List ℕ) (c : Condvar) (x : ℕ) (k : Kernel)
      → (c.waiter_at x).awaken ≡ false
      → thread_wakeup c.base.kernel (some (c.waiter_at x).thread) ≡ ok k
      → broadcast_loop (x ∷ ws) c ≡ broadcast_loop ws (awoken c x k)
  turn_woken ws c x k asleep woke =
      turn_code ws c x
      ∙ ap (λ b. wakeup_code c x b >>= λ r. broadcast_loop ws r.1) asleep
      ∙ rw woke refl

  -- One waiter woken up, and the rest of the loop.
  pub Broadcast-step :
      (c : Condvar) (x : ℕ) (k : Kernel) (c' : Condvar)
      → Held c.base.kernel (c.waiter_at x).thread k
      → Broadcast (awoken c x k) c'
      → Broadcast c c'
  Broadcast-step c x k c' h b = record {
    orderly = b.orderly;
    same_current = b.same_current ∙ h.same_current;
    same_idle = b.same_idle ∙ h.same_idle;
    same_mutex = b.same_mutex;
    level =
        subst (λ q. (c'.base.kernel.threads q).preempt_level ≡ (k.threads q).preempt_level)
          h.same_current b.level
        ∙ ap (λ d. d.preempt_level) h.self;
    point =
        subst (λ q. (c'.base.kernel.threads q).point ≡ (k.threads q).point) h.same_current b.point
        ∙ ap (λ d. d.point) h.self;
    stays = λ t runs. b.stays t (Held-stays c.base.kernel (c.waiter_at x).thread k h t runs);
    threads = λ w. b.threads w ∙ same_thread w;
    marks = λ w marked. b.marks w (still_marked w marked);
  }
    where
      same_thread : (w : ℕ) → ((awoken c x k).waiter_at w).thread ≡ (c.waiter_at w).thread
      same_thread w = elim (ℕ_discrete x w) [
        | yes e ↦ rw (==_eq x w e) (ap (λ x. (c.waiter_at x).thread) e)
        | no other ↦ rw (==_ne x w other) refl
      ]

      still_marked :
          (w : ℕ) → (c.waiter_at w).awaken ≡ true → ((awoken c x k).waiter_at w).awaken ≡ true
      still_marked w marked = elim (ℕ_discrete x w) [
        | yes e ↦ rw (==_eq x w e) refl
        | no other ↦ rw (==_ne x w other) marked
      ]

  pub All-step :
      (ws : List ℕ) (c : Condvar) (x : ℕ) (k : Kernel) (c' : Condvar)
      → Held c.base.kernel (c.waiter_at x).thread k
      → Broadcast (awoken c x k) c'
      → All ws (awoken c x k) c'
      → All (x ∷ ws) c c'
  All-step ws c x k c' h b all w there = elim (ℕ_discrete x w) [
    | yes e ↦ (
      b.marks w (rw (==_eq x w e) refl),
      λ asleep.
          subst (λ w. (c'.base.kernel.threads (c.waiter_at w).thread).state ≡ running) e
            (b.stays (c.waiter_at x).thread h.runs),
    )
    | no other ↦
        let same : (awoken c x k).waiter_at w ≡ c.waiter_at w = rw (==_ne x w other) refl in
        let (marked, runs) = all w (ground (arith, there, other)) in
        (
          marked,
          λ asleep.
              subst (λ (w : CondvarWaiter). (c'.base.kernel.threads w.thread).state ≡ running) same
                (runs (ap (λ w. w.awaken) same ∙ asleep)),
        )
  ]

  pub MayWake-step :
      (c : Condvar) (x : ℕ) (k : Kernel) (w : ℕ)
      → Held c.base.kernel (c.waiter_at x).thread k
      → MayWake c.base.kernel (c.waiter_at w)
      → MayWake k ((awoken c x k).waiter_at w)
  MayWake-step c x k w h may asleep = elim (ℕ_discrete x w) [
    | yes e ↦
        let marked : ((awoken c x k).waiter_at w).awaken ≡ true = rw (==_eq x w e) refl in
        absurd (true_ne_false (sym marked ∙ asleep))
    | no far ↦
        let same : (awoken c x k).waiter_at w ≡ c.waiter_at w = rw (==_ne x w far) refl in
        let (alive, other, busy) = may (sym (ap (λ w. w.awaken) same) ∙ asleep) in
        subst
          (λ (w : CondvarWaiter).
            ((k.threads w.thread).state ≢ dead) × (w.thread ≢ k.current) × (w.thread ≢ k.idle))
          (sym same)
          (
            still_alive (c.waiter_at w).thread alive other,
            λ e. other (e ∙ h.same_current),
            λ e. busy (e ∙ h.same_idle),
          )
  ]
    where
      true_ne_false : true ≢ false
      true_ne_false e = cc

      still_alive :
          (t : ℕ)
          → (c.base.kernel.threads t).state ≢ dead
          → t ≢ c.base.kernel.current
          → (k.threads t).state ≢ dead
      still_alive t alive other gone = elim (ℕ_discrete t (c.waiter_at x).thread) [
        | yes e ↦ running_ne_dead (sym h.runs ∙ ap (λ t. (k.threads t).state) (sym e) ∙ gone)
        | no aside ↦ alive (sym (ap (λ d. d.state) (h.others t other aside)) ∙ gone)
      ]
