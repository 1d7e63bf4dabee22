-- ===== src/Condvar/Broadcast.antt =====
-- `condvar_broadcast` of src/condvar.c: it wakes up all waiters.
use x.Base.{
  ℕ, ◌+◌, ◌<◌, ◌≡◌, ◌≢◌, refl, ap, sym, ◌∙◌, subst, true, false, Bool-cases, inl, inr, List, [],
  ◌∷◌, length, count, ==_eq, arith,
}
use native.Mathlib.Decide.{ℕ_discrete}
use x.Base.Outcome.{ok}
use x.LinkedList.{LinkedList}
use x.Thread.State.{running, in_code}
use x.Thread.System.{IsOrderly, IsSystem}
use x.Thread.Calls.{at_level}
use x.Thread.Enable.{at_level-Continued, preempt_enable_lem}
use x.Thread.Held.{wakeup-Held}
use x.Thread.Trace.{preempt_disable_lem}
use x.Condvar.{Condvar, with_kernel, broadcast_loop, condvar_broadcast}
use x.Condvar.Rouse.{
  MayWake, Broadcast, All, awoken, turn_marked, turn_woken, Broadcast-step, All-step, MayWake-step,
}

module _ ⦃lib : LinkedList⦄ where
  open lib use {nodes}

  loop_lem :
      (ws : List ℕ) (c : Condvar)
      → IsOrderly c.base.kernel
      → 0 < (c.base.kernel.threads c.base.kernel.current).preempt_level
      → (c.base.kernel.threads c.base.kernel.current).preempt_level < 4294967295
      → c.base.kernel.nr_threads + length ws < 4294967296
      → ((w : ℕ) → 0 < count w ws → MayWake c.base.kernel (c.waiter_at w))
      → (c' : Condvar) × (broadcast_loop ws c ≡ ok c') × Broadcast c c' × All ws c c'
  unfolding broadcast_loop
  loop_lem [] c v pos lt few may = (
    c,
    refl,
    record {
      orderly = v;
      same_current = refl;
      same_idle = refl;
      same_mutex = refl;
      level = refl;
      point = refl;
      stays = λ t e. e;
      threads = λ w. refl;
      marks = λ w e. e;
    },
    λ w there. absurd (omega (arith, there)),
  )
  loop_lem (x ∷ ws) c v pos lt few may = elim (Bool-cases (c.waiter_at x).awaken) [
    | inl marked ↦
        let (c', run, b, all) =
          loop_lem ws c v pos lt (omega (arith, few)) (λ w there. may w (ground (arith, there))) in
        (
          c',
          turn_marked ws c x marked ∙ run,
          b,
          λ w there. elim (ℕ_discrete x w) [
            | yes e ↦ (
              b.marks w (ap (λ x. (c.waiter_at x).awaken) (sym e) ∙ marked),
              λ asleep.
                  absurd (true_ne_false (sym marked ∙ ap (λ x. (c.waiter_at x).awaken) e ∙ asleep)),
            )
            | no other ↦ all w (ground (arith, there, other))
          ],
        )
    | inr asleep ↦
        let t = (c.waiter_at x).thread in
        let (alive, other, busy) = may x (ground arith) asleep in
        let (k2, woke, h) =
          wakeup-Held c.base.kernel t v pos lt (omega (arith, few)) alive other busy in
        let level : (k2.threads k2.current).preempt_level
            ≡ (c.base.kernel.threads c.base.kernel.current).preempt_level =
          ap (λ q. (k2.threads q).preempt_level) h.same_current
          ∙ ap (λ d. d.preempt_level) h.self in
        let (c', run, b, all) =
          loop_lem ws (awoken c x k2) h.orderly (omega (arith, level, pos))
            (omega (arith, level, lt)) (omega (arith, few, h.grows))
            (λ w there. MayWake-step c x k2 w h (may w (ground (arith, there)))) in
        (
          c',
          turn_woken ws c x k2 asleep woke ∙ run,
          Broadcast-step c x k2 c' h b,
          All-step ws c x k2 c' h b all,
        )
  ]
    where
      true_ne_false : true ≢ false
      true_ne_false e = cc

  -- In a system in order, with the preemption level below its limit, and the number of
  -- threads so even with all waiters added, where the threads of the waiters that were not
  -- awoken are alive, not current and not the idle one, `condvar_broadcast` by a thread in
  -- its own code fails no assertion: all waiters are marked, the threads of those that were
  -- not marked before are ready, the mutex stays as it is, and the system is in order.
  pub broadcast_lem :
      (c : Condvar)
      → IsSystem c.base.kernel
      → (c.base.kernel.threads c.base.kernel.current).point ≡ in_code
      → (c.base.kernel.threads c.base.kernel.current).preempt_level < 4294967294
      → c.base.kernel.nr_threads + length (nodes c.waiters) < 4294967296
      → ((w : ℕ) → 0 < count w (nodes c.waiters) → MayWake c.base.kernel (c.waiter_at w))
      → (c' : Condvar) × (condvar_broadcast c ≡ ok c')
        × IsSystem c'.base.kernel
        × (c'.base.mutex ≡ c.base.mutex)
        × ((w : ℕ)
            → 0 < count w (nodes c.waiters)
            → ((c'.waiter_at w).awaken ≡ true)
              × ((c.waiter_at w).awaken ≡ false
                  → (c'.base.kernel.threads (c.waiter_at w).thread).state ≡ running))
  unfolding condvar_broadcast
  broadcast_lem c v code lt few may =
      let k = c.base.kernel in
      let level = (k.threads k.current).preempt_level + 1 in
      let k1 = at_level k level k.eflags in
      let self : k1.threads k.current ≡ record (k.threads k.current) { preempt_level = level } =
        rw (==_eq k.current k.current refl) refl in
      let d = at_level-Continued k level k.eflags v.orderly v.runs code in
      let (c2, run, b, all) =
        loop_lem (nodes c.waiters) (with_kernel c k1) d.system.orderly
          (subst (λ d. 0 < d.preempt_level) (sym self) (omega arith))
          (subst (λ d. d.preempt_level < 4294967295) (sym self) (omega (arith, lt))) few
          (λ w there asleep.
            let (alive, other, busy) = may w there asleep in
            (λ gone. alive (sym (d.states (c.waiter_at w).thread) ∙ gone), other, busy)) in
      let k2 = c2.base.kernel in
      let (k3, enabled, after) =
        preempt_enable_lem k2 b.orderly
          (ap (λ q. (k2.threads q).state) b.same_current ∙ b.stays k.current d.system.runs)
          (ap (λ q. (k2.threads q).point) b.same_current ∙ b.point ∙ ap (λ d. d.point) self ∙ code)
          (subst (λ n. 0 < n)
            (sym (
              ap (λ q. (k2.threads q).preempt_level) b.same_current
              ∙ b.level
              ∙ ap (λ d. d.preempt_level) self))
            (omega arith)) in
      (
        with_kernel c2 k3,
        rw (preempt_disable_lem k (omega (arith, lt)), run, enabled) refl,
        after.system,
        b.same_mutex,
        λ w there.
            let (marked, runs) = all w there in
            (marked, λ asleep. after.states (c.waiter_at w).thread ∙ runs asleep),
      )
