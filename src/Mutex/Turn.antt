-- ===== src/Mutex/Turn.antt =====
-- `mutex_lock` of src/mutex.c behind `thread_sleep`, and `mutex_trylock`: each returns, and the mutex
-- stays in order.
use x.Base.{
  Bool-cases, ℕ, ◌<◌, ◌≡◌, ◌≢◌, refl, ap, sym, ◌∙◌, subst, Bool, true, false, not, inl, inr, none,
  List, ◌∷◌, count, count-erase, erase, arith, if◌then◌else◌,
}
use x.Base.Outcome.{Outcome, ok, ◌>>=◌}
use x.LinkedList.{LinkedList}
use x.Thread.State.{Kernel, in_code, thread_self, thread_is_running}
use x.Thread.Park.{running_of}
use x.Thread.Sched.{thread_preempt_enable}
use x.Thread.Enable.{preempt_enable_lem}
use x.Thread.Trace.{preempt_disable_lem}
use x.Mutex.{
  Mutex, MutexState, error_busy, mutex_set_owner, mutex_take, mutex_sleep, mutex_lock_turn,
  mutex_trylock,
}
use x.Mutex.Calls.{
  taken, set_owner_lem, take_lem, taken-IsMutex, sleeping_lem, raised, Continued-IsMutex,
  raised-IsMutex, raised_code, raised_pos, gained,
}
use x.Mutex.Own.{IsWaiting, IsMutex, taken-IsWaiting, unlocked-owner}

module _ ⦃lib : LinkedList⦄ where
  open lib use {nodes, list_insert_tail, list_remove, nodes-insert_tail, nodes-remove}

  removed-IsWaiting :
      (k : Kernel) (xs : List ℕ) (threads : ℕ → ℕ) (locked : Bool) (waiter : ℕ)
      → 0 < count waiter xs
      → IsWaiting k xs threads locked
      → IsWaiting k (erase waiter xs) threads true
  removed-IsWaiting k xs threads locked waiter there v = record {
    once = λ w. ground (arith, count-erase w waiter xs there, v.once w);
    waits = λ w c. v.waits w (ground (arith, count-erase w waiter xs there, c));
    woken = λ w off e. cc;
  }

  gained_on : (s : MutexState) (held : List ℕ) → s.mutex.locked ≡ true → gained s held ≡ held
  gained_on s held on = ap (λ b. if b then held else s.kernel.current ∷ held) on

  gained_off :
      (s : MutexState) (held : List ℕ)
      → s.mutex.locked ≡ false
      → gained s held ≡ s.kernel.current ∷ held
  gained_off s held off = ap (λ b. if b then held else s.kernel.current ∷ held) off

  module _ (s : MutexState) (waiter thread : ℕ) where
    abbrev removed : MutexState
    removed = record s { mutex = record s.mutex { waiters = list_remove s.mutex.waiters waiter } }

    turn_on : s.mutex.locked ≡ true → mutex_lock_turn s waiter thread ≡ mutex_sleep s
    unfolding mutex_lock_turn
    turn_on on = ap (λ b. elim b [ true ↦ mutex_sleep s | false ↦ mutex_take removed thread ]) on

    turn_off : s.mutex.locked ≡ false → mutex_lock_turn s waiter thread ≡ mutex_take removed thread
    unfolding mutex_lock_turn
    turn_off off = ap (λ b. elim b [ true ↦ mutex_sleep s | false ↦ mutex_take removed thread ]) off

  module _ (s : MutexState)
      (lt : (s.kernel.threads s.kernel.current).preempt_level < 4294967295) where
    -- `mutex_trylock` behind `thread_preempt_disable`, by the test of the mutex.
    tried : Bool → Outcome (ℕ × MutexState)
    tried locked = elim locked [
      | true ↦ ok (error_busy, raised s)
      | false ↦ do
        m ← mutex_set_owner s.mutex s.kernel.current
        ok (0, record (raised s) { mutex = m })
    ]

    try_code : mutex_trylock s ≡ (
        tried s.mutex.locked >>= λ r.
        thread_preempt_enable r.1.kernel >>= λ k. ok (r.0, record r.1 { kernel = k }))
    unfolding mutex_trylock thread_self tried
    try_code = rw (preempt_disable_lem s.kernel lt) refl

    try_on :
        s.mutex.locked ≡ true
        → mutex_trylock s ≡ (
            thread_preempt_enable (raised s).kernel >>= λ k.
            ok (error_busy, record s { kernel = k }))
    unfolding tried
    try_on on =
        try_code
        ∙ ap
            (λ b. tried b >>= λ r.
              thread_preempt_enable r.1.kernel >>= λ k. ok (r.0, record r.1 { kernel = k }))
            on

    try_off :
        s.mutex.locked ≡ false
        → s.mutex.owner ≡ none
        → mutex_trylock s ≡ (
            thread_preempt_enable (raised s).kernel >>= λ k.
            ok (0, taken (raised s) s.kernel.current k))
    unfolding tried
    try_off off free =
        try_code
        ∙ ap
            (λ b. tried b >>= λ r.
              thread_preempt_enable r.1.kernel >>= λ k. ok (r.0, record r.1 { kernel = k }))
            off
        ∙ ap
            (λ m. (m >>= with_mutex) >>= λ r.
              thread_preempt_enable r.1.kernel >>= λ k. ok (r.0, record r.1 { kernel = k }))
            (set_owner_lem s.mutex s.kernel.current free off)
      where
        with_mutex : Mutex → Outcome (ℕ × MutexState)
        with_mutex m = ok (0, record (raised s) { mutex = m })

  -- A thread that wakes up in `mutex_lock` leaves the queue with the mutex if that is free; else it goes
  -- to sleep again.
  pub turn_lem :
      (s : MutexState) (waiter : ℕ) (held : List ℕ)
      → IsMutex s held
      → (s.kernel.threads s.kernel.current).point ≡ in_code
      → (s.kernel.threads s.kernel.current).preempt_level ≡ 1
      → s.kernel.current ≢ s.kernel.idle
      → 0 < count waiter (nodes s.mutex.waiters)
      → (s' : MutexState) × (mutex_lock_turn s waiter s.kernel.current ≡ ok s')
        × IsMutex s' (gained s held)
        × (thread_is_running s'.kernel s.kernel.current ≡ not s.mutex.locked)
        × (nodes s'.mutex.waiters ≡ (
            if s.mutex.locked then nodes s.mutex.waiters else erase waiter (nodes s.mutex.waiters)))
  turn_lem s waiter held v code level busy there = elim (Bool-cases s.mutex.locked) [
    | inl on ↦
        let (s', run, after, asleep, same) = sleeping_lem s held v on level busy in
        (
          s',
          turn_on s waiter s.kernel.current on ∙ run,
          subst (IsMutex s') (sym (gained_on s held on)) after,
          rw on asleep,
          rw on (ap (λ m. nodes m.waiters) same),
        )
    | inr off ↦
        let free = unlocked-owner s.mutex.owner (sym off ∙ v.flag) in
        let s1 : MutexState = record s {
          mutex = record s.mutex { waiters = list_remove s.mutex.waiters waiter };
        } in
        let (k', run, c) =
          take_lem s1 s.kernel.current v.system code (omega (arith, level)) free off in
        let left : nodes (list_remove s.mutex.waiters waiter)
            ≡ erase waiter (nodes s.mutex.waiters) =
          nodes-remove s.mutex.waiters waiter (omega (arith, v.waiting.once waiter, there)) in
        (
          taken s1 s.kernel.current k',
          turn_off s waiter s.kernel.current off ∙ run,
          subst (IsMutex (taken s1 s.kernel.current k')) (sym (gained_off s held off)) (
              taken-IsMutex s1 s.kernel.current k' held c v.exclusive free (
                subst (λ xs. IsWaiting s.kernel xs s.waiter_threads true) (sym left)
                  (removed-IsWaiting s.kernel (nodes s.mutex.waiters) s.waiter_threads
                    s.mutex.locked waiter there v.waiting))),
          rw off (running_of k' s.kernel.current (c.states s.kernel.current ∙ v.system.runs)),
          rw off left,
        )
  ]

  -- With the mutex and the system in order, and the preemption level below its limit,
  -- `mutex_trylock` by a thread in its own code takes the mutex if it is free, and returns 0;
  -- else it returns ERROR_BUSY, and the mutex stays as it is. The queue stays as it is in
  -- both cases.
  pub trylock_lem :
      (s : MutexState) (held : List ℕ)
      → IsMutex s held
      → (s.kernel.threads s.kernel.current).point ≡ in_code
      → (s.kernel.threads s.kernel.current).preempt_level < 4294967295
      → (s' : MutexState) × (mutex_trylock s ≡ ok (if s.mutex.locked then error_busy else 0, s'))
        × IsMutex s' (gained s held)
        × (s.mutex.locked ≡ true → s'.mutex ≡ s.mutex)
        × (nodes s'.mutex.waiters ≡ nodes s.mutex.waiters)
  trylock_lem s held v code lt =
      let v1 = raised-IsMutex s held v code in
      let (k', run, c) =
        preempt_enable_lem (raised s).kernel v1.system.orderly v1.system.runs
          (raised_code s held v code) (raised_pos s held v code) in
      elim (Bool-cases s.mutex.locked) [
        | inl on ↦ (
          record s { kernel = k' },
          try_on s lt on
              ∙ ap (λ m. m >>= λ k. ok (error_busy, record s { kernel = k })) run
              ∙ ap (λ b. ok (if b then error_busy else 0, record s { kernel = k' })) (sym on),
          subst (IsMutex (record s { kernel = k' })) (sym (gained_on s held on))
              (Continued-IsMutex (raised s) held k' c v1),
          λ e. refl,
          refl,
        )
        | inr off ↦
            let free = unlocked-owner s.mutex.owner (sym off ∙ v.flag) in
            (
              taken (raised s) s.kernel.current k',
              try_off s lt off free
                  ∙ ap (λ m. m >>= λ k. ok (0, taken (raised s) s.kernel.current k)) run
                  ∙ ap (λ b. ok (if b then error_busy else 0, taken (raised s) s.kernel.current k'))
                      (sym off),
              subst (IsMutex (taken (raised s) s.kernel.current k')) (sym (gained_off s held off)) (
                  taken-IsMutex (raised s) s.kernel.current k' held c v1.exclusive free (
                    taken-IsWaiting (raised s).kernel (nodes s.mutex.waiters) s.waiter_threads
                      s.mutex.locked v1.waiting)),
              λ e. absurd (true_ne_false (sym e ∙ off)),
              refl,
            )
      ]
    where
      true_ne_false : true ≢ false
      true_ne_false e = cc
