-- ===== src/Condvar/Signal.antt =====
-- `condvar_signal` of src/condvar.c: it wakes up the first waiter that was not awoken yet.
use x.Base.{
  ℕ, ◌<◌, ◌+◌, ◌≡◌, ◌≢◌, refl, ap, sym, ◌∙◌, subst, Bool, true, false, if◌then◌else◌, Bool-cases,
  inl, inr, Option, none, some, List, [], ◌∷◌, count, update, ==_eq, arith,
}
use x.Base.Outcome.{Outcome, ok, panic, blocked, undefined, ◌>>=◌}
use x.LinkedList.{LinkedList}
use x.Thread.State.{Kernel, running, dead, in_code}
use x.Thread.Sched.{thread_preempt_enable, thread_wakeup}
use x.Thread.Park.{presence}
use x.Thread.System.{IsSystem}
use x.Thread.Calls.{at_level}
use x.Thread.Enable.{at_level-Continued, preempt_enable_lem}
use x.Thread.Held.{wakeup-Held}
use x.Thread.Trace.{preempt_disable_lem}
use x.Condvar.{
  CondvarWaiter, Condvar, with_kernel, condvar_waiter_awaken, condvar_waiter_wakeup, signal_loop,
  condvar_signal,
}

-- The first waiter of a list that was not awoken yet.
abbrev pub first_asleep : (ℕ → CondvarWaiter) → List ℕ → Option ℕ
first_asleep waiter_at [] = none
first_asleep waiter_at (w ∷ ws) =
    let rest = first_asleep waiter_at ws in if (waiter_at w).awaken then rest else some w

first_asleep_lem :
    (waiter_at : ℕ → CondvarWaiter) (ws : List ℕ) (w : ℕ)
    → first_asleep waiter_at ws ≡ some w
    → (0 < count w ws) × ((waiter_at w).awaken ≡ false)
first_asleep_lem waiter_at [] w e = cc
first_asleep_lem waiter_at (x ∷ ws) w e = elim (Bool-cases (waiter_at x).awaken) [
  | inl marked ↦
      let (there, asleep) =
        first_asleep_lem waiter_at ws w
          (sym (ap (λ b. if b then first_asleep waiter_at ws else some x) marked) ∙ e) in
      (omega (arith, there), asleep)
  | inr asleep ↦
      let same : x ≡ w =
        some_inj (sym (ap (λ b. if b then first_asleep waiter_at ws else some x) asleep) ∙ e) in
      (rw (==_eq x w same) (omega arith), ap (λ x. (waiter_at x).awaken) (sym same) ∙ asleep)
]
  where
    some_inj : {a b : ℕ} → some a ≡ some b → a ≡ b
    some_inj e = cc

module _ ⦃lib : LinkedList⦄ where
  open lib use {nodes}

  -- The call that the loop of `condvar_signal` comes to.
  abbrev pub signalled : Condvar → Option ℕ → Outcome Condvar
  signalled c none = ok c
  signalled c (some w) = do
    k ← thread_wakeup c.base.kernel (some (c.waiter_at w).thread)
    ok (record (with_kernel c k) {
      waiter_at = update c.waiter_at w (record (c.waiter_at w) { awaken = true });
    })

  -- The rest of a turn of the loop.
  abbrev loop_rest : List ℕ → Bool × Condvar → Outcome Condvar
  loop_rest ws r = elim r.0 [ true ↦ ok r.1 | false ↦ signal_loop ws r.1 ]

  abbrev pub woken : Condvar → Outcome (Bool × Condvar)
  woken c = ok (true, c)

  abbrev pub wakeup_code : Condvar → ℕ → Bool → Outcome (Bool × Condvar)
  wakeup_code c w awaken = elim awaken [
    | true ↦ ok (false, c)
    | false ↦ signalled c (some w) >>= woken
  ]

  assoc_ok :
      (m : Outcome Kernel) (f : Kernel → Condvar)
      → (m >>= λ k. woken (f k)) ≡ ((m >>= λ k. ok (f k)) >>= woken)
  assoc_ok (ok k) f = refl
  assoc_ok panic f = refl
  assoc_ok blocked f = refl
  assoc_ok undefined f = refl

  pub wakeup_code_lem :
      (c : Condvar) (w : ℕ) → condvar_waiter_wakeup c w ≡ wakeup_code c w (c.waiter_at w).awaken
  unfolding condvar_waiter_wakeup condvar_waiter_awaken
  wakeup_code_lem c w =
      ap (λ m. elim (c.waiter_at w).awaken [ true ↦ ok (false, c) | false ↦ m ])
        (assoc_ok (thread_wakeup c.base.kernel (some (c.waiter_at w).thread)) (λ k.
          record (with_kernel c k) {
            waiter_at = update c.waiter_at w (record (c.waiter_at w) { awaken = true });
          }))

  first_done : (ws : List ℕ) (m : Outcome Condvar) → ((m >>= woken) >>= loop_rest ws) ≡ m
  first_done ws (ok c) = refl
  first_done ws panic = refl
  first_done ws blocked = refl
  first_done ws undefined = refl

  pub loop_lem :
      (ws : List ℕ) (c : Condvar) → signal_loop ws c ≡ signalled c (first_asleep c.waiter_at ws)
  unfolding signal_loop
  loop_lem [] c = refl
  loop_lem (w ∷ ws) c =
      let code = ap (λ m. m >>= loop_rest ws) (wakeup_code_lem c w) in
      let rest = first_asleep c.waiter_at ws in
      elim (Bool-cases (c.waiter_at w).awaken) [
        | inl marked ↦
            code
            ∙ ap (λ b. wakeup_code c w b >>= loop_rest ws) marked
            ∙ loop_lem ws c
            ∙ sym (ap (λ b. signalled c (if b then rest else some w)) marked)
        | inr asleep ↦
            code
            ∙ ap (λ b. wakeup_code c w b >>= loop_rest ws) asleep
            ∙ first_done ws (signalled c (some w))
            ∙ sym (ap (λ b. signalled c (if b then rest else some w)) asleep)
      ]

  -- The thread of the waiter, if there is one, is ready, and the waiter is marked; no other is.
  abbrev pub Signalled : (ℕ → CondvarWaiter) → Option ℕ → Condvar → Type 0
  Signalled waiter_at none c' = c'.waiter_at ≡ waiter_at
  Signalled waiter_at (some w) c' =
      ((c'.base.kernel.threads (waiter_at w).thread).state ≡ running)
      × (presence c'.base.kernel (waiter_at w).thread ≡ 1)
      × (c'.waiter_at ≡ update waiter_at w (record (waiter_at w) { awaken = true }))

  signalled_lem :
      (c : Condvar) (first : Option ℕ)
      → IsSystem c.base.kernel
      → (c.base.kernel.threads c.base.kernel.current).point ≡ in_code
      → 0 < (c.base.kernel.threads c.base.kernel.current).preempt_level
      → (c.base.kernel.threads c.base.kernel.current).preempt_level < 4294967295
      → c.base.kernel.nr_threads < 4294967295
      → ((w : ℕ)
          → first ≡ some w
          → ((c.base.kernel.threads (c.waiter_at w).thread).state ≢ dead)
            × ((c.waiter_at w).thread ≢ c.base.kernel.current)
            × ((c.waiter_at w).thread ≢ c.base.kernel.idle))
      → (c' : Condvar) × ((signalled c first >>= λ c.
            thread_preempt_enable c.base.kernel >>= λ k. ok (with_kernel c k))
          ≡ ok c')
        × IsSystem c'.base.kernel
        × (c'.base.mutex ≡ c.base.mutex)
        × Signalled c.waiter_at first c'
  signalled_lem c none v code pos lt few may =
      let (k', run, after) = preempt_enable_lem c.base.kernel v.orderly v.runs code pos in
      (with_kernel c k', rw run refl, after.system, refl, refl)
  signalled_lem c (some w) v code pos lt few may =
      let t = (c.waiter_at w).thread in
      let (alive, other, busy) = may w refl in
      let (k2, woke, h) = wakeup-Held c.base.kernel t v.orderly pos lt few alive other busy in
      let runs2 : (k2.threads k2.current).state ≡ running =
        ap (λ t. (k2.threads t).state) h.same_current ∙ ap (λ d. d.state) h.self ∙ v.runs in
      let code2 : (k2.threads k2.current).point ≡ in_code =
        ap (λ t. (k2.threads t).point) h.same_current ∙ ap (λ d. d.point) h.self ∙ code in
      let level2 : (k2.threads k2.current).preempt_level
          ≡ (c.base.kernel.threads c.base.kernel.current).preempt_level =
        ap (λ t. (k2.threads t).preempt_level) h.same_current ∙ ap (λ d. d.preempt_level) h.self in
      let (k3, run, after) =
        preempt_enable_lem k2 h.orderly runs2 code2 (subst (λ n. 0 < n) (sym level2) pos) in
      let ready : (k3.threads t).state ≡ running = after.states t ∙ h.runs in
      (
        record (with_kernel c k3) {
          waiter_at = update c.waiter_at w (record (c.waiter_at w) { awaken = true });
        },
        rw (woke, run) refl,
        after.system,
        refl,
        (
          ready,
          after.system.orderly.present t ready (λ e. busy (e ∙ after.same_idle ∙ h.same_idle)),
          refl,
        ),
      )

  -- In a system in order, with the preemption level and the number of threads below their
  -- limits, where the threads of the waiters that were not awoken are alive, not current and
  -- not the idle one, `condvar_signal` fails no assertion: of these waiters exactly the
  -- first, if there is one, is marked, and its thread is ready, and current or once in the
  -- list of its priority; the mutex stays as it is.
  pub signal_lem :
      (c : Condvar)
      → IsSystem c.base.kernel
      → (c.base.kernel.threads c.base.kernel.current).point ≡ in_code
      → (c.base.kernel.threads c.base.kernel.current).preempt_level < 4294967294
      → c.base.kernel.nr_threads < 4294967295
      → ((w : ℕ)
          → 0 < count w (nodes c.waiters)
          → (c.waiter_at w).awaken ≡ false
          → ((c.base.kernel.threads (c.waiter_at w).thread).state ≢ dead)
            × ((c.waiter_at w).thread ≢ c.base.kernel.current)
            × ((c.waiter_at w).thread ≢ c.base.kernel.idle))
      → (c' : Condvar) × (condvar_signal c ≡ ok c')
        × IsSystem c'.base.kernel
        × (c'.base.mutex ≡ c.base.mutex)
        × Signalled c.waiter_at (first_asleep c.waiter_at (nodes c.waiters)) c'
  unfolding condvar_signal
  signal_lem c v code lt few may =
      let k = c.base.kernel in
      let level = (k.threads k.current).preempt_level + 1 in
      let k1 = at_level k level k.eflags in
      let self : k1.threads k.current ≡ record (k.threads k.current) { preempt_level = level } =
        rw (==_eq k.current k.current refl) refl in
      let d = at_level-Continued k level k.eflags v.orderly v.runs code in
      let first = first_asleep c.waiter_at (nodes c.waiters) in
      let (c', run, after, same, done) =
        signalled_lem (with_kernel c k1) first d.system (ap (λ d. d.point) self ∙ code)
          (subst (λ d. 0 < d.preempt_level) (sym self) (omega arith))
          (subst (λ d. d.preempt_level < 4294967295) (sym self) (omega (arith, lt))) few
          (λ w e.
            let (there, asleep) = first_asleep_lem c.waiter_at (nodes c.waiters) w e in
            let (alive, other, busy) = may w there asleep in
            (λ gone. alive (sym (d.states (c.waiter_at w).thread) ∙ gone), other, busy)) in
      (
        c',
        rw
            (
              preempt_disable_lem k (omega (arith, lt)),
              loop_lem (nodes c.waiters) (with_kernel c k1),
            )
            run,
        after,
        same,
        done,
      )
