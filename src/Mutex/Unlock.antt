-- ===== src/Mutex/Unlock.antt =====
-- `mutex_unlock` of src/mutex.c: it wakes up the first thread that waits.
use x.Base.{
  ℕ, ◌<◌, ◌≡◌, ◌≢◌, refl, ap, sym, ◌∙◌, subst, true, false, not, ◌⊎◌, inl, inr, none, some, List,
  [], ◌∷◌, count, erase, ==_eq, arith, if◌then◌else◌,
}
use x.Base.Outcome.{Outcome, ok}
use native.Mathlib.Decide.{ℕ_discrete}
use x.LinkedList.{LinkedList, first?}
use x.Thread.State.{Kernel, running, in_code, thread_self}
use x.Thread.System.{IsOrderly}
use x.Thread.Enable.{preempt_enable_lem}
use x.Thread.Held.{wakeup-Held}
use x.Thread.Trace.{preempt_disable_lem}
use x.Mutex.{
  Mutex, MutexState, is_null, is_thread, mutex_waiter_wakeup, mutex_clear_owner, mutex_wake_first,
  mutex_unlock,
}
use x.Mutex.Calls.{raised, raised-IsMutex, raised_pos, raised_self}
use x.Mutex.Own.{
  holders, IsWaiting, IsMutex, moved-IsWaiting, Continued-IsWaiting, taken-IsWaiting, owner_of_held,
}

module _ ⦃lib : LinkedList⦄ where
  open lib use {
    nodes, list_empty, list_first, empty-nodes, first-nodes, list_insert_tail, list_remove,
    nodes-insert_tail, nodes-remove,
  }

  -- The mutex without its owner.
  abbrev pub released : MutexState → Mutex
  released s = record s.mutex { owner = none; locked = false }

  -- The first waiter's thread is ready, and the current thread goes on.
  record Woke (s : MutexState) (k' : Kernel) : Type 0 where
    pub orderly : IsOrderly k'
    pub same_current : k'.current ≡ s.kernel.current
    pub same_idle : k'.idle ≡ s.kernel.idle
    pub self :
        k'.threads s.kernel.current
        ≡ record (s.kernel.threads s.kernel.current) { yield = (k'.threads s.kernel.current).yield }
    pub moves :
        (t : ℕ)
        → t ≢ s.kernel.current
        → ((k'.threads t).state ≡ (s.kernel.threads t).state) ⊎ ((k'.threads t).state ≡ running)
    pub ready :
        (w : ℕ)
        → first? (nodes s.mutex.waiters) ≡ some w
        → (k'.threads (s.waiter_threads w)).state ≡ running

  -- The waking of the first waiter, as `mutex_unlock` does it.
  abbrev wake : MutexState → Outcome MutexState
  wake s =
      if not (list_empty s.mutex.waiters)
      then mutex_wake_first s (list_first s.mutex.waiters)
      else ok s

  wake_lem :
      (s : MutexState) (xs : List ℕ)
      → nodes s.mutex.waiters ≡ xs
      → IsOrderly s.kernel
      → 0 < (s.kernel.threads s.kernel.current).preempt_level
      → (s.kernel.threads s.kernel.current).preempt_level < 4294967295
      → s.kernel.nr_threads < 4294967295
      → IsWaiting s.kernel xs s.waiter_threads true
      → ((w : ℕ) → 0 < count w xs → s.waiter_threads w ≢ s.kernel.current)
      → (k' : Kernel) × (wake s ≡ ok (record s { kernel = k' })) × Woke s k'
  unfolding mutex_wake_first mutex_waiter_wakeup
  wake_lem s [] e v pos lt few waits awake = (
    s.kernel,
    rw (empty-nodes s.mutex.waiters, e) refl,
    record {
      orderly = v;
      same_current = refl;
      same_idle = refl;
      self = refl;
      moves = λ t away. inl refl;
      ready = λ w first. absurd (nothing w (sym (ap first? e) ∙ first));
    },
  )
    where
      nothing : (w : ℕ) → first? [] ≡ some w → ⊥
      nothing w e = cc
  wake_lem s (w ∷ ws) e v pos lt few waits awake =
      let here : 0 < count w (w ∷ ws) = rw (==_eq w w refl) (omega arith) in
      let t = s.waiter_threads w in
      let (k', run, h) =
        wakeup-Held s.kernel t v pos lt few (waits.waits w here).0 (awake w here)
          (waits.waits w here).1 in
      (
        k',
        rw (empty-nodes s.mutex.waiters, first-nodes s.mutex.waiters, e, run) refl,
        record {
          orderly = h.orderly;
          same_current = h.same_current;
          same_idle = h.same_idle;
          self = h.self;
          moves = λ s2 away. elim (ℕ_discrete s2 t) [
            | yes same ↦ inr (subst (λ t. (k'.threads t).state ≡ running) (sym same) h.runs)
            | no aside ↦ inl (ap (λ d. d.state) (h.others s2 away aside))
          ];
          ready = λ w2 first.
              subst (λ w. (k'.threads (s.waiter_threads w)).state ≡ running)
                (some_inj (sym (ap first? e) ∙ first)) h.runs;
        },
      )
    where
      some_inj : {a b : ℕ} → some a ≡ some b → a ≡ b
      some_inj e = cc

  pub clear_lem :
      (s : MutexState)
      → s.mutex.owner ≡ some s.kernel.current
      → s.mutex.locked ≡ true
      → mutex_clear_owner s ≡ ok (record s { mutex = released s })
  unfolding mutex_clear_owner thread_self
  clear_lem s own on =
      let mine : is_thread s.mutex.owner s.kernel.current ≡ true =
        ap (λ o. is_thread o s.kernel.current) own ∙ ==_eq s.kernel.current s.kernel.current refl in
      rw (mine, on) refl

  -- With the mutex and the system in order, and the preemption level and the number of
  -- threads below their limits, `mutex_unlock` by a thread that holds the mutex, and is not
  -- in its queue, fails no assertion: the mutex is free, and the thread of the first waiter,
  -- if there is one, is ready.
  pub unlock_lem :
      (s : MutexState) (held : List ℕ)
      → IsMutex s held
      → (s.kernel.threads s.kernel.current).point ≡ in_code
      → (s.kernel.threads s.kernel.current).preempt_level < 4294967294
      → s.kernel.nr_threads < 4294967295
      → 0 < count s.kernel.current held
      → ((w : ℕ) → 0 < count w (nodes s.mutex.waiters) → s.waiter_threads w ≢ s.kernel.current)
      → (s' : MutexState) × (mutex_unlock s ≡ ok s')
        × IsMutex s' (erase s.kernel.current held)
        × (s'.mutex ≡ released s)
        × ((w : ℕ)
            → first? (nodes s.mutex.waiters) ≡ some w
            → (s'.kernel.threads (s.waiter_threads w)).state ≡ running)
  unfolding mutex_unlock
  unlock_lem s held v code lt few mine awake =
      let c = s.kernel.current in
      let own = owner_of_held s.mutex.owner c held v.exclusive mine in
      let on : s.mutex.locked ≡ true = v.flag ∙ ap (λ o. not (is_null o)) own in
      let v1 = raised-IsMutex s held v code in
      let s2 : MutexState = record (raised s) { mutex = released s } in
      let self = raised_self s held v code in
      let (k2, woke, w) =
        wake_lem s2 (nodes s.mutex.waiters) refl v1.system.orderly (raised_pos s held v code)
          (subst (λ d. d.preempt_level < 4294967295) (sym self) (omega (arith, lt))) few
          (taken-IsWaiting s2.kernel (nodes s.mutex.waiters) s.waiter_threads s.mutex.locked
            v1.waiting)
          awake in
      let runs2 : (k2.threads k2.current).state ≡ running =
        ap (λ t. (k2.threads t).state) w.same_current
        ∙ ap (λ d. d.state) (w.self)
        ∙ ap (λ d. d.state) self
        ∙ v.system.runs in
      let code2 : (k2.threads k2.current).point ≡ in_code =
        ap (λ t. (k2.threads t).point) w.same_current
        ∙ ap (λ d. d.point) (w.self)
        ∙ ap (λ d. d.point) self
        ∙ code in
      let level2 : (k2.threads k2.current).preempt_level
          ≡ ((raised s).kernel.threads c).preempt_level =
        ap (λ t. (k2.threads t).preempt_level) w.same_current
        ∙ ap (λ d. d.preempt_level) (w.self) in
      let (k3, run, after) =
        preempt_enable_lem k2 w.orderly runs2 code2
          (subst (λ n. 0 < n) (sym level2) (raised_pos s held v code)) in
      let moved : IsWaiting k2 (nodes s.mutex.waiters) s.waiter_threads true =
        moved-IsWaiting (raised s).kernel k2 (nodes s.mutex.waiters) s.waiter_threads true
          w.same_idle (λ x there. w.moves (s.waiter_threads x) (awake x there))
          (taken-IsWaiting s2.kernel (nodes s.mutex.waiters) s.waiter_threads s.mutex.locked
            v1.waiting) in
      let waiting : IsWaiting k2 (nodes s.mutex.waiters) s.waiter_threads false = record {
        once = moved.once;
        waits = moved.waits;
        woken = λ x off first. w.ready x first;
      } in
      (
        record s2 { kernel = k3 },
        rw
            (
              preempt_disable_lem s.kernel (omega (arith, lt)),
              clear_lem (raised s) own on,
              woke,
              run,
            )
            refl,
        record {
          system = after.system;
          exclusive = ap (erase c) (v.exclusive ∙ ap holders own) ∙ rw (==_eq c c refl) refl;
          flag = refl;
          waiting =
              Continued-IsWaiting k2 k3 (nodes s.mutex.waiters) s.waiter_threads false after
                waiting;
        },
        refl,
        λ x first. after.states (s.waiter_threads x) ∙ w.ready x first,
      )
