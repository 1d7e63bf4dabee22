-- ===== src/Condvar/Quiet.antt =====
-- `condvar_signal` of src/condvar.c by a thread of no lower priority than the one it wakes up: no switch
-- takes place.
use x.Base.{
  ℕ, ◌+◌, ◌-◌, ◌≤◌, ◌<◌, ◌≡◌, ◌≢◌, refl, ap, sym, ◌∙◌, subst, true, false, some, update, ==_eq,
  ==_ne, arith, count, ◌==◌, if◌then◌else◌,
}
use x.Base.Outcome.{ok}
use x.LinkedList.{LinkedList}
use x.Thread.State.{Kernel, Thread, running, dead, thread_should_yield}
use x.Thread.Sched.{thread_preempt_enable}
use x.Thread.System.{IsOrderly}
use x.Thread.Park.{presence}
use x.Thread.Calls.{at_level, at_level-IsOrderly}
use x.Thread.Enable.{no_yield_lem, if_needed_no}
use x.Thread.Held.{Held, wakeup-Held}
use x.Thread.Quiet.{masked, masked_self}
use x.Thread.Trace.{preempt_disable_lem}
use x.Condvar.{Condvar, with_kernel, condvar_signal}
use x.Condvar.Signal.{first_asleep, loop_lem}

module _ ⦃lib : LinkedList⦄ where
  open lib use {nodes}

  -- Thread `t` is ready, and the current thread is as it was.
  pub record Roused (k : Kernel) (t : ℕ) (k' : Kernel) : Type 0 where
    pub orderly : IsOrderly k'
    pub same_current : k'.current ≡ k.current
    pub same_idle : k'.idle ≡ k.idle
    pub flags : k'.eflags ≡ k.eflags
    pub self : k'.threads k.current ≡ k.threads k.current
    pub runs : (k'.threads t).state ≡ running
    pub ready : presence k' t ≡ 1
    pub others : (s : ℕ) → s ≢ k.current → s ≢ t → k'.threads s ≡ k.threads s

  -- The end of the section in which the thread was woken up.
  roused_lem :
      (k : Kernel) (t : ℕ) (k2 : Kernel)
      → Held (masked k) t k2
      → (k.threads k.current).yield ≡ false
      → t ≢ k.current
      → (k2.threads k.current).yield ≡ false
      → (k' : Kernel) × (thread_preempt_enable k2 ≡ ok k') × Roused k t k'
  unfolding thread_preempt_enable thread_should_yield
  roused_lem k t k2 h calm other calm2 =
      let c2 = k2.current in
      let level = (k2.threads c2).preempt_level - 1 in
      let k3 = at_level k2 level k2.eflags in
      let there : k2.threads c2 ≡ k2.threads k.current = ap k2.threads h.same_current in
      let before : k2.threads k.current ≡ record (k.threads k.current) {
        preempt_level = (k.threads k.current).preempt_level + 1;
      } =
        h.self
        ∙ ap (λ (d : Thread). record d { yield = (k2.threads k.current).yield }) (masked_self k)
        ∙ ap
            (λ y. record (k.threads k.current) {
              preempt_level = (k.threads k.current).preempt_level + 1;
              yield = y;
            })
            (calm2 ∙ sym calm) in
      let high : (k2.threads c2).preempt_level ≡ (k.threads k.current).preempt_level + 1 =
        ap (λ d. d.preempt_level) (there ∙ before) in
      let self : k3.threads k.current ≡ k.threads k.current =
        rw (==_eq c2 k.current h.same_current) (
          ap (λ (d : Thread). record d { preempt_level = d.preempt_level - 1 }) (there ∙ before)
          ∙ ap (λ n. record (k.threads k.current) { preempt_level = n })
              (down (k.threads k.current).preempt_level)) in
      let quiet : thread_should_yield k3 c2 ≡ false =
        ap (λ c. (k3.threads c).yield) h.same_current ∙ ap (λ d. d.yield) self ∙ calm in
      let away : (s : ℕ) → s ≢ k.current → k3.threads s ≡ k2.threads s =
        λ s far. rw (==_ne c2 s (λ e. far (sym e ∙ h.same_current))) refl in
      (
        k3,
        rw (no_yield_lem k2 (omega (arith, high))) (if_needed_no k3 quiet),
        record {
          orderly = at_level-IsOrderly k2 level k2.eflags h.orderly;
          same_current = h.same_current;
          same_idle = h.same_idle;
          flags = h.flags;
          self = self;
          runs = ap (λ d. d.state) (away t other) ∙ h.runs;
          ready =
              ap (λ p. count t (nodes (k2.lists p)) + (if k2.current == t then 1 else 0))
                (ap (λ d. d.priority) (away t other))
              ∙ h.ready;
          others = λ s far aside.
              away s far ∙ h.others s far aside ∙ rw (==_ne k.current s (λ e. far (sym e))) refl;
        },
      )
    where
      down : (n : ℕ) → n + 1 - 1 ≡ n
      down n = omega arith

  pub signal_quiet :
      (c : Condvar) (w : ℕ)
      → first_asleep c.waiter_at (nodes c.waiters) ≡ some w
      → IsOrderly c.base.kernel
      → (c.base.kernel.threads c.base.kernel.current).preempt_level < 4294967294
      → (c.base.kernel.threads c.base.kernel.current).yield ≡ false
      → c.base.kernel.nr_threads < 4294967295
      → (c.base.kernel.threads (c.waiter_at w).thread).state ≢ dead
      → (c.waiter_at w).thread ≢ c.base.kernel.current
      → (c.waiter_at w).thread ≢ c.base.kernel.idle
      → (c.base.kernel.threads (c.waiter_at w).thread).priority
        ≤ (c.base.kernel.threads c.base.kernel.current).priority
      → (k' : Kernel) × (condvar_signal c
          ≡ ok (record (with_kernel c k') {
            waiter_at = update c.waiter_at w (record (c.waiter_at w) { awaken = true });
          }))
        × Roused c.base.kernel (c.waiter_at w).thread k'
  unfolding condvar_signal
  signal_quiet c w first v lt calm few alive other busy le =
      let k = c.base.kernel in
      let t = (c.waiter_at w).thread in
      let aside : (masked k).threads t ≡ k.threads t =
        rw (==_ne k.current t (λ e. other (sym e))) refl in
      let self = masked_self k in
      let (k2, woke, h) =
        wakeup-Held (masked k) t
          (at_level-IsOrderly k ((k.threads k.current).preempt_level + 1) k.eflags v)
          (subst (λ d. 0 < d.preempt_level) (sym self) (omega arith))
          (subst (λ d. d.preempt_level < 4294967295) (sym self) (omega (arith, lt))) few
          (subst (λ d. d.state ≢ dead) (sym aside) alive) other busy in
      let same_yield : (k2.threads k.current).yield ≡ false =
        h.told (
          subst (λ d. d.priority ≤ ((masked k).threads k.current).priority) (sym aside)
            (subst (λ d. (k.threads t).priority ≤ d.priority) (sym self) le))
        ∙ ap (λ d. d.yield) self
        ∙ calm in
      let (k', run, r) = roused_lem k t k2 h calm other same_yield in
      (
        k',
        rw
            (
              preempt_disable_lem k (omega (arith, lt)),
              loop_lem (nodes c.waiters) (with_kernel c (masked k)),
              first,
              woke,
              run,
            )
            refl,
        r,
      )
