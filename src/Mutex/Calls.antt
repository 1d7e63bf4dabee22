-- ===== src/Mutex/Calls.antt =====
-- The calls of src/mutex.c: each returns, and what it makes of the mutex and of the threads.
use x.Base.{
  Bool-cases, ℕ, ◌<◌, ◌+◌, ◌≡◌, ◌≢◌, refl, ap, sym, ◌∙◌, subst, true, false, not, ◌++◌, inl, inr,
  none, some, List, [], ◌∷◌, count, count-append, update, ==_eq, ==_ne, arith, ◌==◌, if◌then◌else◌,
}
use x.Base.Outcome.{ok}
use native.Mathlib.Decide.{ℕ_discrete}
use x.LinkedList.{LinkedList}
use x.Thread.State.{Kernel, sleeping, dead, in_code, after_sleep, thread_self, thread_is_running}
use x.Thread.Park.{running_of}
use x.Thread.System.{IsSystem, running_ne_dead}
use x.Thread.Calls.{at_level}
use x.Thread.Enable.{Continued, at_level-Continued, preempt_enable_lem}
use x.Thread.Leave.{Left, sleep_lem}
use x.Thread.Trace.{preempt_disable_lem}
use x.Mutex.{
  Mutex, MutexState, mutex_waiter_init, mutex_set_owner, mutex_take, mutex_sleep, mutex_lock,
}
use x.Mutex.Own.{holders, IsWaiting, IsMutex, Continued-IsWaiting, taken-IsWaiting, unlocked-owner}

module _ ⦃lib : LinkedList⦄ where
  open lib use {nodes, list_insert_tail, list_remove, nodes-insert_tail, nodes-remove}

  -- The current thread is the owner.
  abbrev pub taken : MutexState → ℕ → Kernel → MutexState
  taken s thread k = record s {
    kernel = k;
    mutex = record s.mutex { owner = some thread; locked = true };
  }

  pub set_owner_lem :
      (m : Mutex) (thread : ℕ)
      → m.owner ≡ none
      → m.locked ≡ false
      → mutex_set_owner m thread ≡ ok (record m { owner = some thread; locked = true })
  unfolding mutex_set_owner
  set_owner_lem m thread free off = rw (free, off) refl

  -- The end of `mutex_lock` on a free mutex.
  pub take_lem :
      (s : MutexState) (thread : ℕ)
      → IsSystem s.kernel
      → (s.kernel.threads s.kernel.current).point ≡ in_code
      → 0 < (s.kernel.threads s.kernel.current).preempt_level
      → s.mutex.owner ≡ none
      → s.mutex.locked ≡ false
      → (k' : Kernel) × (mutex_take s thread ≡ ok (taken s thread k')) × Continued s.kernel k'
  unfolding mutex_take mutex_set_owner
  take_lem s thread v code pos free off =
      let (k', run, c) = preempt_enable_lem s.kernel v.orderly v.runs code pos in
      (k', rw (free, off, run) refl, c)

  pub taken-IsMutex :
      (s : MutexState) (thread : ℕ) (k' : Kernel) (held : List ℕ)
      → Continued s.kernel k'
      → held ≡ holders s.mutex.owner
      → s.mutex.owner ≡ none
      → IsWaiting s.kernel (nodes s.mutex.waiters) s.waiter_threads true
      → IsMutex (taken s thread k') (thread ∷ held)
  taken-IsMutex s thread k' held c exclusive free w = record {
    system = c.system;
    exclusive = ap (λ xs. thread ∷ xs) (exclusive ∙ ap holders free);
    flag = refl;
    waiting = Continued-IsWaiting s.kernel k' (nodes s.mutex.waiters) s.waiter_threads true c w;
  }

  not_running :
      (k : Kernel) (t : ℕ) → (k.threads t).state ≡ sleeping → thread_is_running k t ≡ false
  unfolding thread_is_running
  not_running k t e = ground arith

  -- The current thread goes to sleep, and the mutex stays locked.
  pub sleeping_lem :
      (s : MutexState) (held : List ℕ)
      → IsMutex s held
      → s.mutex.locked ≡ true
      → (s.kernel.threads s.kernel.current).preempt_level ≡ 1
      → s.kernel.current ≢ s.kernel.idle
      → (s' : MutexState) × (mutex_sleep s ≡ ok s')
        × IsMutex s' held
        × (thread_is_running s'.kernel s.kernel.current ≡ false)
        × (s'.mutex ≡ s.mutex)
  unfolding mutex_sleep
  sleeping_lem s held v on level busy =
      let (k', run, l) = sleep_lem s.kernel v.system level busy in
      (
        record s { kernel = k' },
        rw run refl,
        record {
          system = l.system;
          exclusive = v.exclusive;
          flag = v.flag;
          waiting = record {
            once = v.waiting.once;
            waits = λ w c. (
              alive k' l (s.waiter_threads w) (v.waiting.waits w c).0,
              λ e. (v.waiting.waits w c).1 (e ∙ l.same_idle),
            );
            woken = λ w off e. absurd (true_ne_false (sym on ∙ off));
          };
        },
        not_running k' s.kernel.current (ap (λ d. d.state) l.left),
        refl,
      )
    where
      true_ne_false : true ≢ false
      true_ne_false e = cc

      sleeping_ne_dead : sleeping ≢ dead
      sleeping_ne_dead e = cc

      alive :
          (k' : Kernel)
          → Left s.kernel
              (record (s.kernel.threads s.kernel.current) {
                state = sleeping;
                point = after_sleep s.kernel.eflags;
              })
              k'
          → (t : ℕ) → (s.kernel.threads t).state ≢ dead
          → (k'.threads t).state ≢ dead
      alive k' l t a = elim (ℕ_discrete t s.kernel.current) [
        | yes e ↦ λ gone.
            sleeping_ne_dead
              (sym (ap (λ d. d.state) l.left) ∙ ap (λ t. (k'.threads t).state) (sym e) ∙ gone)
        | no other ↦ λ gone. a (sym (ap (λ d. d.state) (l.others t other)) ∙ gone)
      ]

  -- Preemption is disabled once more.
  abbrev pub raised : MutexState → MutexState
  raised s = record s {
    kernel =
        at_level s.kernel ((s.kernel.threads s.kernel.current).preempt_level + 1) s.kernel.eflags;
  }

  pub Continued-IsMutex :
      (s : MutexState) (held : List ℕ) (k : Kernel)
      → Continued s.kernel k
      → IsMutex s held
      → IsMutex (record s { kernel = k }) held
  Continued-IsMutex s held k c v = record {
    system = c.system;
    exclusive = v.exclusive;
    flag = v.flag;
    waiting =
        Continued-IsWaiting s.kernel k (nodes s.mutex.waiters) s.waiter_threads s.mutex.locked c
          v.waiting;
  }

  module _ (s : MutexState) (held : List ℕ) (v : IsMutex s held)
      (code : (s.kernel.threads s.kernel.current).point ≡ in_code) where
    pub raised-Continued : Continued s.kernel (raised s).kernel
    raised-Continued =
        at_level-Continued s.kernel ((s.kernel.threads s.kernel.current).preempt_level + 1)
          s.kernel.eflags v.system.orderly v.system.runs code

    pub raised-IsMutex : IsMutex (raised s) held
    raised-IsMutex = Continued-IsMutex s held (raised s).kernel raised-Continued v

    pub raised_self :
        (raised s).kernel.threads s.kernel.current ≡ record (s.kernel.threads s.kernel.current) {
          preempt_level = (s.kernel.threads s.kernel.current).preempt_level + 1;
        }
    raised_self = rw (==_eq s.kernel.current s.kernel.current refl) refl

    pub raised_code : ((raised s).kernel.threads s.kernel.current).point ≡ in_code
    raised_code = ap (λ d. d.point) raised_self ∙ code

    pub raised_pos : 0 < ((raised s).kernel.threads s.kernel.current).preempt_level
    raised_pos = subst (λ d. 0 < d.preempt_level) (sym raised_self) (omega arith)

  -- The threads that hold the mutex once the current one took it, or went to sleep for it.
  abbrev pub gained : MutexState → List ℕ → List ℕ
  gained s held = if s.mutex.locked then held else s.kernel.current ∷ held

  -- A waiter of the current thread at the end of the queue.
  abbrev queued : MutexState → ℕ → MutexState
  queued s waiter = record s {
    waiter_threads = update s.waiter_threads waiter s.kernel.current;
    mutex = record s.mutex { waiters = list_insert_tail s.mutex.waiters waiter };
  }

  queued-IsMutex :
      (s : MutexState) (waiter : ℕ) (held : List ℕ)
      → IsMutex s held
      → s.mutex.locked ≡ true
      → count waiter (nodes s.mutex.waiters) ≡ 0
      → s.kernel.current ≢ s.kernel.idle
      → IsMutex (queued s waiter) held
  queued-IsMutex s waiter held v on fresh busy = record {
    system = v.system;
    exclusive = v.exclusive;
    flag = v.flag;
    waiting = record {
      once = λ w. elim (ℕ_discrete waiter w) [
        | yes e ↦ ground (arith, there w, v.waiting.once w, fresh, e)
        | no other ↦ ground (arith, there w, v.waiting.once w, other)
      ];
      waits = λ w c. elim (ℕ_discrete waiter w) [
        | yes e ↦ rw (==_eq waiter w e) (λ gone. running_ne_dead (sym v.system.runs ∙ gone), busy)
        | no other ↦
            rw (==_ne waiter w other) (v.waiting.waits w (ground (arith, there w, c, other)))
      ];
      woken = λ w off e. absurd (true_ne_false (sym on ∙ off));
    };
  }
    where
      true_ne_false : true ≢ false
      true_ne_false e = cc

      there :
          (w : ℕ)
          → count w (nodes (list_insert_tail s.mutex.waiters waiter))
            ≡ count w (nodes s.mutex.waiters) + (if waiter == w then 1 else 0)
      there w =
          ap (count w) (nodes-insert_tail s.mutex.waiters waiter fresh)
          ∙ count-append w (nodes s.mutex.waiters) (waiter ∷ [])
          ∙ omega arith

  -- `mutex_lock` by a thread with preemption enabled, which is not the idle thread, returns to it with
  -- the mutex if that is free; else the thread sleeps in the queue of the mutex.
  pub lock_lem :
      (s : MutexState) (waiter : ℕ) (held : List ℕ)
      → IsMutex s held
      → (s.kernel.threads s.kernel.current).point ≡ in_code
      → (s.kernel.threads s.kernel.current).preempt_level ≡ 0
      → s.kernel.current ≢ s.kernel.idle
      → count waiter (nodes s.mutex.waiters) ≡ 0
      → (s' : MutexState) × (mutex_lock s waiter ≡ ok s')
        × IsMutex s' (gained s held)
        × (thread_is_running s'.kernel s.kernel.current ≡ not s.mutex.locked)
        × (nodes s'.mutex.waiters ≡ (
            if s.mutex.locked
            then nodes s.mutex.waiters ++ (waiter ∷ [])
            else nodes s.mutex.waiters))
  unfolding mutex_lock thread_self mutex_waiter_init
  lock_lem s waiter held v code level busy fresh =
      let lt : (s.kernel.threads s.kernel.current).preempt_level < 4294967295 =
        omega (arith, level) in
      let v1 = raised-IsMutex s held v code in
      elim (Bool-cases s.mutex.locked) [
        | inl on ↦
            let level1 : ((raised s).kernel.threads s.kernel.current).preempt_level ≡ 1 =
              ap (λ d. d.preempt_level) (raised_self s held v code) ∙ ap (λ n. n + 1) level in
            let (s', run, after, asleep, same) =
              sleeping_lem (queued (raised s) waiter) held
                (queued-IsMutex (raised s) waiter held v1 on fresh busy) on level1 busy in
            (
              s',
              rw (preempt_disable_lem s.kernel lt, on) run,
              rw on after,
              rw on asleep,
              rw on
                  (ap (λ m. nodes m.waiters) same ∙ nodes-insert_tail s.mutex.waiters waiter fresh),
            )
        | inr off ↦
            let free = unlocked-owner s.mutex.owner (sym off ∙ v.flag) in
            let (k', run, c) =
              take_lem (raised s) s.kernel.current v1.system (raised_code s held v code)
                (raised_pos s held v code) free off in
            (
              taken (raised s) s.kernel.current k',
              rw (preempt_disable_lem s.kernel lt, off) run,
              rw off (
                  taken-IsMutex (raised s) s.kernel.current k' held c v1.exclusive free (
                    taken-IsWaiting (raised s).kernel (nodes s.mutex.waiters) s.waiter_threads
                      s.mutex.locked v1.waiting)),
              rw off (
                  running_of k' s.kernel.current (
                    c.states s.kernel.current
                    ∙ ap (λ d. d.state) (raised_self s held v code)
                    ∙ v.system.runs)),
              rw off refl,
            )
      ]
